-- ===== src/Protocol/Tcp/Chunks.antt =====
-- The chunks in which the bytes come do not matter.
use fitz_destroyer.Common.{
  ℕ, zero, suc, ◌+◌, ◌*◌, ◌≤◌, ◌<◌, ◌≡◌, refl, sym, ap, ◌∙◌, inl, inr, Option-cases, List, [], ◌∷◌,
  ◌++◌, none, some, length, length-drop, length-append, take-append_le, drop-append_le, arith,
}
use mathlib.Core.List.{append_assoc}
use fitz_destroyer.Protocol.Tcp.{
  TcpState, Outcome, resolved, take_frame, drain, on_data, deliver, deliver_to, settle,
}

take_frame-shorter :
    (buffer frame rest : List ℕ)
    → take_frame buffer ≡ some (frame, rest)
    → length rest < length buffer
unfolding take_frame
take_frame-shorter (a ∷ b ∷ c ∷ d ∷ tail) frame rest e =
    ground (arith, length-drop {A = ℕ} (a * 16777216 + b * 65536 + c * 256 + d) tail)
take_frame-shorter [] frame rest e = cc
take_frame-shorter _ frame rest e = cc

-- More bytes behind a complete frame leave it as it is.
take_frame-append :
    (buffer frame rest more : List ℕ)
    → take_frame buffer ≡ some (frame, rest)
    → take_frame (buffer ++ more) ≡ some (frame, rest ++ more)
unfolding take_frame
take_frame-append (a ∷ b ∷ c ∷ d ∷ tail) frame rest more e =
    let n = a * 16777216 + b * 65536 + c * 256 + d in
    ground (
      arith,
      length-append {A = ℕ} tail more,
      take-append_le {A = ℕ} n tail more,
      drop-append_le {A = ℕ} n tail more,
    )
take_frame-append [] frame rest more e = cc
take_frame-append _ frame rest more e = cc

abbrev with_buffer : List ℕ → TcpState → TcpState
with_buffer b s = record s { buffer = b }

settle-with_buffer :
    (id : ℕ) (o : Outcome) (b : List ℕ) (s : TcpState)
    → settle id o (with_buffer b s) ≡ with_buffer b (settle id o s)
unfolding settle
settle-with_buffer id o b s = ground arith

deliver_to-with_buffer :
    (ws : List ℕ) (frame b : List ℕ) (s : TcpState)
    → deliver_to ws frame (with_buffer b s) ≡ with_buffer b (deliver_to ws frame s)
unfolding deliver_to
deliver_to-with_buffer [] frame b s = refl
deliver_to-with_buffer (w ∷ ws) frame b s =
    settle-with_buffer w (resolved frame) b (record s { waiters = ws })

deliver-with_buffer :
    (frame b : List ℕ) (s : TcpState)
    → deliver frame (with_buffer b s) ≡ with_buffer b (deliver frame s)
unfolding deliver
deliver-with_buffer frame b s = deliver_to-with_buffer s.waiters frame b s

drain-idle : (k : ℕ) (s : TcpState) → take_frame s.buffer ≡ none → drain k s ≡ s
unfolding drain
drain-idle zero s e = refl
drain-idle (suc k) s e = rw (e, drain)

drain-zero : (s : TcpState) → drain zero s ≡ s
unfolding drain
drain-zero s = refl

drain-some :
    (k : ℕ) (s : TcpState) (frame rest : List ℕ)
    → take_frame s.buffer ≡ some (frame, rest)
    → drain (suc k) s ≡ drain k (with_buffer rest (deliver frame s))
unfolding drain
drain-some k s frame rest e = rw (e, drain) (ap (drain k) (deliver-with_buffer frame rest s))

take_frame_of_length : (buffer : List ℕ) → length buffer ≤ 0 → take_frame buffer ≡ none
unfolding take_frame
take_frame_of_length [] h = refl
take_frame_of_length (x ∷ xs) h = absurd (omega arith)

drain-shorter : (k : ℕ) (s : TcpState) → length (drain k s).buffer ≤ length s.buffer
unfolding drain
drain-shorter zero s = omega arith
drain-shorter (suc k) s = elim (Option-cases (take_frame s.buffer)) [
  | inl e ↦ omega (arith, ap (λ t. length t.buffer) (drain-idle (suc k) s e))
  | inr ((frame, rest), e) ↦ omega (
    arith,
    ap (λ t. length t.buffer) (drain-some k s frame rest e),
    drain-shorter k (with_buffer rest (deliver frame s)),
    take_frame-shorter s.buffer frame rest e,
  )
]

-- Rounds beyond the buffer's length change nothing.
drain_enough :
    (k l : ℕ) (s : TcpState) → length s.buffer ≤ k → length s.buffer ≤ l → drain k s ≡ drain l s
drain_enough zero l s h g =
    let e = take_frame_of_length s.buffer h in drain-idle zero s e ∙ sym (drain-idle l s e)
drain_enough (suc k) zero s h g =
    let e = take_frame_of_length s.buffer g in drain-idle (suc k) s e ∙ sym (drain-idle zero s e)
drain_enough (suc k) (suc l) s h g = elim (Option-cases (take_frame s.buffer)) [
  | inl e ↦ drain-idle (suc k) s e ∙ sym (drain-idle (suc l) s e)
  | inr ((frame, rest), e) ↦
      let small = take_frame-shorter s.buffer frame rest e in
      drain-some k s frame rest e
      ∙ drain_enough k l (with_buffer rest (deliver frame s)) (omega arith) (omega arith)
      ∙ sym (drain-some l s frame rest e)
]

-- Draining may stop before more bytes come, and go on after.
drain-append :
    (fuel k : ℕ) (s : TcpState) (more : List ℕ)
    → length s.buffer + length more ≤ k
    → drain k (with_buffer (s.buffer ++ more) s)
      ≡ drain k (with_buffer ((drain fuel s).buffer ++ more) (drain fuel s))
drain-append zero k s more h = rw (drain-zero s)
drain-append (suc fuel) zero s more h =
    let e = take_frame_of_length s.buffer (omega arith) in rw (drain-idle (suc fuel) s e)
drain-append (suc fuel) (suc k) s more h = elim (Option-cases (take_frame s.buffer)) [
  | inl e ↦ rw (drain-idle (suc fuel) s e)
  | inr ((frame, rest), e) ↦
      let s' = with_buffer rest (deliver frame s) in
      let small = take_frame-shorter s.buffer frame rest e in
      let first =
        drain-some k (with_buffer (s.buffer ++ more) s) frame (rest ++ more)
          (take_frame-append s.buffer frame rest more e) in
      let t = drain fuel s' in
      let short = drain-shorter fuel s' in
      let last =
        drain_enough k (suc k) (with_buffer (t.buffer ++ more) t)
          (omega (arith, length-append t.buffer more))
          (omega (arith, length-append t.buffer more)) in
      let moved =
        ap (λ u. drain k (with_buffer (rest ++ more) u))
          (deliver-with_buffer frame (s.buffer ++ more) s) in
      rw (drain-some fuel s frame rest e)
        (first ∙ moved ∙ drain-append fuel k s' more (omega arith) ∙ last)
]

-- Two chunks leave the connection as one chunk with the bytes of both does.
pub on_data-append : (c d : List ℕ) (s : TcpState) → on_data d (on_data c s) ≡ on_data (c ++ d) s
unfolding on_data
on_data-append c d s =
    let first = s.buffer ++ c in
    let u = with_buffer first s in
    let t = drain (length first) u in
    let whole = length (s.buffer ++ (c ++ d)) in
    let short = drain-shorter (length first) u in
    let enough : length first + length d ≤ whole =
      omega (arith, length-append s.buffer c, length-append s.buffer (c ++ d), length-append c d) in
    let fits : length (t.buffer ++ d) ≤ whole = omega (arith, length-append t.buffer d) in
    drain_enough (length (t.buffer ++ d)) whole (with_buffer (t.buffer ++ d) t) (omega arith) fits
    ∙ sym (drain-append (length first) whole u d enough)
    ∙ ap (λ b. drain whole (with_buffer b s)) (append_assoc s.buffer c d)
