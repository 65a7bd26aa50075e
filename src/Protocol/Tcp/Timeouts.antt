-- ===== src/Protocol/Tcp/Timeouts.antt =====
-- What a receive that times out costs: its waiter stays in the list of `openRawTcp`.
use fitz_destroyer.Common.{ℕ, ◌≡◌, true, false, List, [], ◌∷◌, ◌++◌, arith}
use fitz_destroyer.Protocol.Tcp.{
  TcpState, Outcome, rejected, timed_out, deliver, deliver_to, settle, is_settled, receive,
  receive_from, expire,
}
use fitz_destroyer.Protocol.Tcp.Invariant.{IsOrderly, taken, is_settled_of_made, seen-reject}

is_settled-concat_self :
    (id : ℕ) (o : Outcome) (xs : List (ℕ × Outcome)) → is_settled id (xs ++ (id, o) ∷ []) ≡ true
unfolding is_settled
is_settled-concat_self id o [] = ground arith
is_settled-concat_self id o ((j, _) ∷ xs) = ground (arith, is_settled-concat_self id o xs)

-- On an open connection with nothing at hand and nobody waiting, a receive that times out leaves
-- its waiter behind: the next frame is given to nobody and is not kept.
pub receive-expire-loses :
    (s : TcpState) (frame : List ℕ)
    → IsOrderly s
    → s.closed ≡ false
    → s.frames ≡ []
    → s.waiters ≡ []
    → let t = deliver frame (expire s.calls (receive s)) in
      (t.frames ≡ []) × (taken t.settled ≡ taken s.settled)
unfolding receive receive_from expire deliver deliver_to settle
receive-expire-loses s frame v live idle free =
    let o = rejected timed_out in
    let fresh = is_settled_of_made s.calls s.settled v.made in
    ground (
      arith,
      fresh,
      is_settled-concat_self s.calls o s.settled,
      seen-reject s.calls timed_out s.settled,
    )
