-- ===== src/Protocol/Tcp/Invariant.antt =====
-- The waiters of a connection whose receives do not time out: each is a promise of its own that is
-- still pending, and nobody waits while a frame is at hand.
use fitz_destroyer.Common.{
  ℕ, ◌+◌, ◌≤◌, ◌<◌, ◌≡◌, refl, sym, ap, if◌then◌else◌, ◌∙◌, ◌≢◌, ◌⊎◌, inl, inr, Bool, true, false,
  List, [], ◌∷◌, ◌++◌, some, All, All-append, arith,
}
use mathlib.Core.Path.{subst}
use mathlib.Core.List.{append-nil, append_assoc}
use fitz_destroyer.Protocol.Tcp.{
  TcpState, Outcome, resolved, rejected, Failure, settle, is_settled, deliver_to, deliver,
  or_closed, receive_from, receive, reject_all, on_error, on_close, opened,
}

-- The frames that promises were given, in the order in which they settled.
unfoldable pub taken : List (ℕ × Outcome) → List (List ℕ)
taken [] = []
taken ((_, resolved frame) ∷ rest) = frame ∷ taken rest
taken ((_, rejected e) ∷ rest) = taken rest

-- The frames that have come in: those that were given out, and those at hand.
abbrev pub seen : TcpState → List (List ℕ)
seen s = taken s.settled ++ s.frames

abbrev Pending : ℕ → List (ℕ × Outcome) → List ℕ → Type 0
Pending calls settled [] = Unit
Pending calls settled (w ∷ ws) =
    (w < calls) × (is_settled w settled ≡ false) × All (λ v. w ≢ v) ws × Pending calls settled ws

pub record IsOrderly (s : TcpState) : Type 0 where
  pub exclusive : (s.frames ≡ []) ⊎ (s.waiters ≡ [])
  pub pending : Pending s.calls s.settled s.waiters
  pub made : All (λ p. p.0 < s.calls) s.settled

taken-append :
    (xs : List (ℕ × Outcome)) (ys : List (ℕ × Outcome)) → taken (xs ++ ys) ≡ taken xs ++ taken ys
unfolding taken
taken-append [] ys = refl
taken-append ((_, resolved frame) ∷ xs) ys = ap (◌∷◌ frame) (taken-append xs ys)
taken-append ((_, rejected e) ∷ xs) ys = taken-append xs ys

is_settled-append :
    (id w : ℕ) (o : Outcome) (xs : List (ℕ × Outcome))
    → is_settled id xs ≡ false
    → w ≢ id
    → is_settled id (xs ++ (w, o) ∷ []) ≡ false
unfolding is_settled
is_settled-append id w o [] h ne = ground arith
is_settled-append id w o ((j, _) ∷ xs) h ne = ground (arith, is_settled-append id w o xs)

pub is_settled_of_made :
    (id : ℕ) (xs : List (ℕ × Outcome)) → All (λ p. p.0 < id) xs → is_settled id xs ≡ false
unfolding is_settled
is_settled_of_made id [] h = refl
is_settled_of_made id ((j, o) ∷ xs) h = ground (arith, is_settled_of_made id xs h.1)

Pending-settle :
    (calls w : ℕ) (o : Outcome) (settled : List (ℕ × Outcome)) (ws : List ℕ)
    → All (λ v. w ≢ v) ws
    → Pending calls settled ws
    → Pending calls (settled ++ (w, o) ∷ []) ws
Pending-settle calls w o settled [] h p = tt
Pending-settle calls w o settled (v ∷ ws) (ne, h) (lt, open_v, apart, p) =
    (lt, is_settled-append v w o settled open_v ne, apart, Pending-settle calls w o settled ws h p)

Pending-call :
    (calls : ℕ) (settled : List (ℕ × Outcome)) (ws : List ℕ)
    → All (λ p. p.0 < calls) settled
    → Pending calls settled ws
    → Pending (calls + 1) settled (ws ++ calls ∷ [])
Pending-call calls settled [] made p = (omega arith, is_settled_of_made calls settled made, tt, tt)
Pending-call calls settled (w ∷ ws) made (lt, open_w, apart, p) = (
  omega arith,
  open_w,
  All-append (λ v. w ≢ v) ws (calls ∷ []) apart (omega arith, tt),
  Pending-call calls settled ws made p,
)

made_mono :
    (m n : ℕ) (xs : List (ℕ × Outcome)) → m ≤ n → All (λ p. p.0 < m) xs → All (λ p. p.0 < n) xs
made_mono m n [] h k = tt
made_mono m n (x ∷ xs) h k = (omega arith, made_mono m n xs h k.1)

settle_pending :
    (id : ℕ) (o : Outcome) (s : TcpState)
    → is_settled id s.settled ≡ false
    → settle id o s ≡ record s { settled = s.settled ++ (id, o) ∷ [] }
unfolding settle
settle_pending id o s h = rw h

-- What an operation may do to an orderly connection: stay so, keep the buffer, and add some frames
-- behind those that came in before.
abbrev pub Adds : List (List ℕ) → TcpState → TcpState → Type 0
Adds new s t = IsOrderly t × (t.buffer ≡ s.buffer) × (seen t ≡ seen s ++ new)

made-settle :
    (w : ℕ) (o : Outcome) (s : TcpState)
    → IsOrderly s
    → w < s.calls
    → All (λ p. p.0 < s.calls) (s.settled ++ (w, o) ∷ [])
made-settle w o s v h = All-append (λ p. p.0 < s.calls) s.settled ((w, o) ∷ []) v.made (h, tt)

seen-settle :
    (w : ℕ) (frame : List ℕ) (settled : List (ℕ × Outcome))
    → taken (settled ++ (w, resolved frame) ∷ []) ≡ taken settled ++ frame ∷ []
unfolding taken
seen-settle w frame settled = taken-append settled ((w, resolved frame) ∷ [])

deliver_to-Adds :
    (ws : List ℕ) (frame : List ℕ) (s : TcpState)
    → s.waiters ≡ ws
    → IsOrderly s
    → Adds (frame ∷ []) s (deliver_to ws frame s)
unfolding deliver_to
deliver_to-Adds [] frame s e v = (
  record { exclusive = inr e; pending = v.pending; made = v.made },
  refl,
  sym (append_assoc (taken s.settled) s.frames (frame ∷ [])),
)
deliver_to-Adds (w ∷ ws) frame s e v =
    let p : Pending s.calls s.settled (w ∷ ws) = rw e at v.pending in
    let idle : s.frames ≡ [] = ground arith in
    let o = resolved frame in
    rw (settle_pending w o (record s { waiters = ws }) p.1) (
      record {
        exclusive = inl idle;
        pending = Pending-settle s.calls w o s.settled ws p.2 p.3;
        made = made-settle w o s v p.0;
      },
      refl,
      rw (seen-settle w frame s.settled, idle) (simp append-nil),
    )

-- A frame goes to the longest waiter, or behind the frames at hand.
pub deliver-Adds :
    (frame : List ℕ) (s : TcpState) → IsOrderly s → Adds (frame ∷ []) s (deliver frame s)
unfolding deliver
deliver-Adds frame s v = deliver_to-Adds s.waiters frame s refl v

pub seen-reject :
    (w : ℕ) (e : Failure) (settled : List (ℕ × Outcome))
    → taken (settled ++ (w, rejected e) ∷ []) ≡ taken settled
unfolding taken
seen-reject w e settled = taken-append settled ((w, rejected e) ∷ []) ∙ append-nil (taken settled)

Pending-later :
    (calls : ℕ) (o : Outcome) (settled : List (ℕ × Outcome)) (ws : List ℕ)
    → Pending calls settled ws
    → Pending (calls + 1) (settled ++ (calls, o) ∷ []) ws
Pending-later calls o settled [] p = tt
Pending-later calls o settled (w ∷ ws) (lt, open_w, apart, p) = (
  omega arith,
  is_settled-append w calls o settled open_w (omega arith),
  apart,
  Pending-later calls o settled ws p,
)

-- The promise of a call that settles at once.
module _ (o : Outcome) (s : TcpState) (v : IsOrderly s) where
  abbrev answered : TcpState
  answered = record s { settled = s.settled ++ (s.calls, o) ∷ []; calls = s.calls + 1 }

  settle-answered :
      (rest : List (List ℕ))
      → settle s.calls o (record s { frames = rest; calls = s.calls + 1 })
        ≡ record answered { frames = rest }
  settle-answered rest =
      settle_pending s.calls o (record s { frames = rest; calls = s.calls + 1 })
        (is_settled_of_made s.calls s.settled v.made)

  answered-made : All (λ p. p.0 < s.calls + 1) (s.settled ++ (s.calls, o) ∷ [])
  answered-made =
      All-append (λ p. p.0 < s.calls + 1) s.settled _
        (made_mono s.calls (s.calls + 1) s.settled (omega arith) v.made) (omega arith, tt)

receive_from-Adds :
    (fs : List (List ℕ)) (s : TcpState)
    → s.frames ≡ fs
    → IsOrderly s
    → Adds [] s (receive_from fs s)
unfolding receive_from
receive_from-Adds (frame ∷ rest) s e v =
    let free : s.waiters ≡ [] = ground arith in
    rw (settle-answered (resolved frame) s v rest) (
      record {
        exclusive = inr free;
        pending = rw free tt;
        made = answered-made (resolved frame) s v;
      },
      refl,
      rw (seen-settle s.calls frame s.settled, e) (simp (append-nil, append_assoc)),
    )
receive_from-Adds [] s e v = waits s.closed
  where
    o : Outcome
    o = rejected (or_closed s.close_error)

    waits :
        (shut : Bool)
        → Adds [] s (
            if shut
            then settle s.calls o (record s { calls = s.calls + 1 })
            else record s { waiters = s.waiters ++ s.calls ∷ []; calls = s.calls + 1 })
    waits true = rw (settle-answered o s v s.frames) (
      record {
        exclusive = v.exclusive;
        pending = Pending-later s.calls o s.settled s.waiters v.pending;
        made = answered-made o s v;
      },
      refl,
      rw (seen-reject s.calls (or_closed s.close_error) s.settled) (simp append-nil),
    )
    waits false = (
      record {
        exclusive = inl e;
        pending = Pending-call s.calls s.settled s.waiters v.made v.pending;
        made = made_mono s.calls (s.calls + 1) s.settled (omega arith) v.made;
      },
      refl,
      simp append-nil,
    )

-- A receive takes the oldest frame at hand; it loses none.
pub receive-Adds : (s : TcpState) → IsOrderly s → Adds [] s (receive s)
unfolding receive
receive-Adds s v = receive_from-Adds s.frames s refl v

reject_all-Adds :
    (ws : List ℕ) (e : Failure) (s : TcpState)
    → s.waiters ≡ []
    → Pending s.calls s.settled ws
    → IsOrderly s
    → Adds [] s (reject_all ws e s)
unfolding reject_all
reject_all-Adds [] e s free p v = (v, refl, simp append-nil)
reject_all-Adds (w ∷ ws) e s free p v =
    let o = rejected e in
    let t = record s { settled = s.settled ++ (w, o) ∷ [] } in
    let v' : IsOrderly t = record {
      exclusive = inr free;
      pending = rw free tt;
      made = made-settle w o s v p.0;
    } in
    let later = Pending-settle s.calls w o s.settled ws p.2 p.3 in
    let (orderly, kept, same) = reject_all-Adds ws e t free later v' in
    subst (λ u. Adds [] s (reject_all ws e u)) (sym (settle_pending w o s p.1))
      (orderly, kept, rw (same, seen-reject w e s.settled))

module _ (s : TcpState) (v : IsOrderly s) where
  -- An error or the end of the connection rejects the waiters, and keeps the frames at hand.
  pub on_error-Adds : (e : Failure) → Adds [] s (on_error e s)
  unfolding on_error
  on_error-Adds e =
      reject_all-Adds s.waiters e (record s { close_error = some e; waiters = [] }) refl v.pending
        (record { exclusive = inr refl; pending = tt; made = v.made })

  pub on_close-Adds : Adds [] s (on_close s)
  unfolding on_close
  on_close-Adds =
      reject_all-Adds s.waiters (or_closed s.close_error) (record s { closed = true; waiters = [] })
        refl v.pending (record { exclusive = inr refl; pending = tt; made = v.made })

pub opened-IsOrderly : IsOrderly opened
opened-IsOrderly = record { exclusive = inl refl; pending = tt; made = tt }
