-- ===== src/Protocol/Tcp/Stream.antt =====
-- What a connection has received is the encodings of the frames that came in, then the buffer.
use fitz_destroyer.Common.{
  ℕ, zero, suc, ◌+◌, ◌*◌, ◌≤◌, ◌<◌, ◌≡◌, refl, ap, ◌∙◌, inl, inr, Option-cases, List, [], ◌∷◌, ◌++◌,
  map, Option, none, some, length, take, drop, length-take, length-drop, All, All-append, All-drop,
  IsByte, arith,
}
use mathlib.Core.Path.{subst}
use mathlib.Core.List.{append-nil, append_assoc}
use fitz_destroyer.Protocol.Fields.{encode_tcp_frame, concat_bytes}
use fitz_destroyer.Protocol.Tcp.{
  TcpState, opened, take_frame, drain, on_data, deliver, Event, arrives, receives, closes, expires,
  errs, step, run,
}
use fitz_destroyer.Protocol.Tcp.Invariant.{
  taken, IsOrderly, Adds, seen, deliver-Adds, receive-Adds, on_error-Adds, on_close-Adds,
  opened-IsOrderly,
}

-- The bytes of some frames, end to end.
abbrev pub encoded : List (List ℕ) → List ℕ
encoded frames = concat_bytes (map encode_tcp_frame frames)

take-append-drop : (n : ℕ) (xs : List ℕ) → take n xs ++ drop n xs ≡ xs
take-append-drop zero xs = refl
take-append-drop (suc n) [] = refl
take-append-drop (suc n) (x ∷ xs) = rw (take-append-drop n xs)

-- What is taken off the front is an encoded frame.
abbrev Splits : List ℕ → Option (List ℕ × List ℕ) → Type 0
Splits buffer none = Unit
Splits buffer (some (frame, rest)) =
    (buffer ≡ encode_tcp_frame frame ++ rest) × (length rest < length buffer) × All IsByte rest

take_frame-Splits : (buffer : List ℕ) → All IsByte buffer → Splits buffer (take_frame buffer)
unfolding take_frame encode_tcp_frame
take_frame-Splits (a ∷ b ∷ c ∷ d ∷ rest) h =
    let n = a * 16777216 + b * 65536 + c * 256 + d in
    ground (
      arith,
      length-take n rest,
      length-drop n rest,
      take-append-drop n rest,
      All-drop IsByte n rest,
    )
take_frame-Splits [] h = tt
take_frame-Splits _ h = tt

encoded-append : (xs ys : List (List ℕ)) → encoded (xs ++ ys) ≡ encoded xs ++ encoded ys
unfolding concat_bytes
encoded-append [] ys = refl
encoded-append (x ∷ xs) ys = simp (encoded-append xs ys, append_assoc)

-- The connection has received `bytes`.
pub record Carries (bytes : List ℕ) (s : TcpState) : Type 0 where
  pub orderly : IsOrderly s
  pub stream : bytes ≡ encoded (seen s) ++ s.buffer
  pub incomplete : take_frame s.buffer ≡ none
  pub buffered : All IsByte s.buffer

nil_of_length : (xs : List ℕ) → length xs ≤ 0 → xs ≡ []
nil_of_length [] h = refl
nil_of_length (x ∷ xs) h = absurd (omega arith)

encoded-concat :
    (frames : List (List ℕ)) (frame rest : List ℕ)
    → encoded (frames ++ frame ∷ []) ++ rest ≡ encoded frames ++ (encode_tcp_frame frame ++ rest)
unfolding concat_bytes
encoded-concat frames frame rest =
    rw (encoded-append frames (frame ∷ [])) (simp (append-nil, append_assoc))

take_frame-nil : take_frame [] ≡ none
unfolding take_frame
take_frame-nil = refl

drain-Carries :
    (fuel : ℕ) (s : TcpState)
    → length s.buffer ≤ fuel
    → IsOrderly s
    → All IsByte s.buffer
    → Carries (encoded (seen s) ++ s.buffer) (drain fuel s)
unfolding drain
drain-Carries zero s h v b = record {
  orderly = v;
  stream = refl;
  incomplete = ap take_frame (nil_of_length s.buffer h) ∙ take_frame-nil;
  buffered = b;
}
drain-Carries (suc fuel) s h v b = elim (Option-cases (take_frame s.buffer)) [
  | inl e ↦ rw (e, drain) (record { orderly = v; stream = refl; incomplete = e; buffered = b })
  | inr ((frame, rest), e) ↦
      let d : Splits s.buffer (some (frame, rest)) = rw e at (take_frame-Splits s.buffer b) in
      let t = record s { buffer = rest } in
      let v' : IsOrderly t = record {
        exclusive = v.exclusive;
        pending = v.pending;
        made = v.made;
      } in
      let (orderly, kept, grown) = deliver-Adds frame t v' in
      let small : length (deliver frame t).buffer ≤ fuel = omega (arith, ap length kept) in
      let later = drain-Carries fuel (deliver frame t) small orderly (rw kept d.2) in
      let same : encoded (seen (deliver frame t)) ++ (deliver frame t).buffer
          ≡ encoded (seen s) ++ s.buffer =
        rw (kept, grown, d.0) (encoded-concat (seen s) frame rest) in
      rw (e, drain) (subst (λ bytes. Carries bytes (drain fuel (deliver frame t))) same later)
]

on_data-Carries :
    (bytes chunk : List ℕ) (s : TcpState)
    → Carries bytes s
    → All IsByte chunk
    → Carries (bytes ++ chunk) (on_data chunk s)
unfolding on_data
on_data-Carries bytes chunk s c h =
    let next = s.buffer ++ chunk in
    let v : IsOrderly (record s { buffer = next }) = record {
      exclusive = c.orderly.exclusive;
      pending = c.orderly.pending;
      made = c.orderly.made;
    } in
    rw (c.stream, append_assoc)
      (drain-Carries (length next) (record s { buffer = next }) (omega arith) v
        (All-append IsByte s.buffer chunk c.buffered h))

Adds-Carries : (bytes : List ℕ) (s t : TcpState) → Carries bytes s → Adds [] s t → Carries bytes t
Adds-Carries bytes s t c (orderly, kept, same) = record {
  orderly = orderly;
  stream = rw (kept, same, append-nil) c.stream;
  incomplete = rw kept c.incomplete;
  buffered = rw kept c.buffered;
}

-- The bytes that an event brings.
abbrev pub arrived : Event → List ℕ
arrived (arrives chunk) = chunk
arrived _ = []

abbrev pub received : List Event → List ℕ
received [] = []
received (e ∷ es) = arrived e ++ received es

abbrev pub NoTimeout : Event → Type 0
NoTimeout (expires id) = ⊥
NoTimeout _ = Unit

step-Carries :
    (bytes : List ℕ) (e : Event) (s : TcpState)
    → NoTimeout e
    → All IsByte (arrived e)
    → Carries bytes s
    → Carries (bytes ++ arrived e) (step e s)
unfolding step
step-Carries bytes (arrives chunk) s n h c = on_data-Carries bytes chunk s c h
step-Carries bytes receives s n h c =
    rw append-nil (Adds-Carries bytes s _ c (receive-Adds s c.orderly))
step-Carries bytes closes s n h c =
    rw append-nil (Adds-Carries bytes s _ c (on_close-Adds s c.orderly))
step-Carries bytes (expires id) s n h c = absurd n
step-Carries bytes (errs e) s n h c =
    rw append-nil (Adds-Carries bytes s _ c (on_error-Adds s c.orderly e))

All-append_parts : (xs ys : List ℕ) → All IsByte (xs ++ ys) → All IsByte xs × All IsByte ys
All-append_parts [] ys h = (tt, h)
All-append_parts (x ∷ xs) ys (p, h) = let (k, l) = All-append_parts xs ys h in ((p, k), l)

run-Carries_from :
    (bytes : List ℕ) (es : List Event) (s : TcpState)
    → All NoTimeout es
    → All IsByte (received es)
    → Carries bytes s
    → Carries (bytes ++ received es) (run es s)
unfolding run
run-Carries_from bytes [] s n h c = rw append-nil c
run-Carries_from bytes (e ∷ es) s (n, ns) h c =
    let (here, later) = All-append_parts (arrived e) (received es) h in
    rw (← append_assoc) (
      run-Carries_from (bytes ++ arrived e) es (step e s) ns later
        (step-Carries bytes e s n here c))

-- In any history of a fresh connection without a timeout, in whatever chunks the bytes come and
-- wherever the receives, errors and the close fall: the bytes that arrived are the encodings of
-- the frames that came in, in order, then the buffer, which holds no complete frame; and each of
-- those frames was given to one receive or is still at hand.
pub run-Carries :
    (es : List Event)
    → All NoTimeout es
    → All IsByte (received es)
    → Carries (received es) (run es opened)
unfolding concat_bytes taken take_frame
run-Carries es n h =
    run-Carries_from [] es opened n h
      (record { orderly = opened-IsOrderly; stream = refl; incomplete = refl; buffered = tt })
