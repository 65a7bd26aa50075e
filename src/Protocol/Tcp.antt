-- ===== src/Protocol/Tcp.antt =====
-- src/workloads/raw-protocol.ts: the state that the closures of `openRawTcp` share, and what each
-- of them does to it. A promise that `receive` returns is numbered by the call; `settled` lists the
-- promises of `receive` in the order in which they settle, each once. Time enters as events: a
-- timer fires when the environment says so.
pub mod Invariant
pub mod Stream
pub mod Chunks
pub mod Timeouts
use fitz_destroyer.Common.{
  ℕ, zero, suc, ◌+◌, Bool, true, false, List, [], ◌∷◌, ◌++◌, Option, none, some, length, take, drop,
  ltb, ◌==◌, ◌||◌, if◌then◌else◌,
}
use fitz_destroyer.Protocol.Fields.{get_u32}

-- Why a promise is rejected; a socket's error is numbered.
pub data Failure : Type 0 where
  socket_failed : ℕ → Failure
  connection_closed timed_out : Failure

pub data Outcome : Type 0 where
  resolved : List ℕ → Outcome
  rejected : Failure → Outcome

pub record TcpState : Type 0 where
  pub buffer : List ℕ
  pub frames : List (List ℕ)
  pub waiters : List ℕ
  pub closed : Bool
  pub close_error : Option Failure
  pub calls : ℕ
  pub settled : List (ℕ × Outcome)

abbrev pub opened : TcpState
opened = record {
  buffer = [];
  frames = [];
  waiters = [];
  closed = false;
  close_error = none;
  calls = 0;
  settled = [];
}

pub is_settled : ℕ → List (ℕ × Outcome) → Bool
is_settled id [] = false
is_settled id ((j, _) ∷ rest) = j == id || is_settled id rest

-- A promise settles once; later attempts change nothing.
pub settle : ℕ → Outcome → TcpState → TcpState
settle id o s =
    if is_settled id s.settled then s else record s { settled = s.settled ++ (id, o) ∷ [] }

-- `const waiter = waiters.shift(); if (waiter) waiter.resolve(frame); else frames.push(frame);`
deliver_to : List ℕ → List ℕ → TcpState → TcpState
deliver_to [] frame s = record s { frames = s.frames ++ frame ∷ [] }
deliver_to (w ∷ ws) frame s = settle w (resolved frame) (record s { waiters = ws })

pub deliver : List ℕ → TcpState → TcpState
unfolding deliver_to
deliver frame s = deliver_to s.waiters frame s

-- The complete frame at the front of the buffer, if there is one, and what follows it.
pub take_frame : List ℕ → Option (List ℕ × List ℕ)
take_frame (a ∷ b ∷ c ∷ d ∷ rest) =
    let n = get_u32 a b c d in if ltb (length rest) n then none else some (take n rest, drop n rest)
take_frame _ = none

-- The `while` loop; each round takes four bytes at least, so the buffer's length bounds the rounds.
pub drain : ℕ → TcpState → TcpState
drain zero s = s
drain (suc fuel) s = elim (take_frame s.buffer) [
  | none ↦ s
  | some (frame, rest) ↦ drain fuel (deliver frame (record s { buffer = rest }))
]

-- `socket.on("data", …)`
pub on_data : List ℕ → TcpState → TcpState
on_data chunk s = let next = s.buffer ++ chunk in drain (length next) (record s { buffer = next })

abbrev or_closed : Option Failure → Failure
or_closed none = connection_closed
or_closed (some e) = e

-- `receive(timeout)`, up to the timer
receive_from : List (List ℕ) → TcpState → TcpState
receive_from (frame ∷ rest) s =
    settle s.calls (resolved frame) (record s { frames = rest; calls = s.calls + 1 })
receive_from [] s =
    if s.closed
    then settle s.calls (rejected (or_closed s.close_error)) (record s { calls = s.calls + 1 })
    else record s { waiters = s.waiters ++ s.calls ∷ []; calls = s.calls + 1 }

pub receive : TcpState → TcpState
unfolding receive_from
receive s = receive_from s.frames s

-- The timer of `withTimeout`: the caller's promise is rejected. The waiter stays in the list.
pub expire : ℕ → TcpState → TcpState
expire id s = settle id (rejected timed_out) s

-- `for (const waiter of waiters.splice(0)) waiter.reject(error);`
reject_all : List ℕ → Failure → TcpState → TcpState
reject_all [] e s = s
reject_all (w ∷ ws) e s = reject_all ws e (settle w (rejected e) s)

-- `fail`
pub on_error : Failure → TcpState → TcpState
unfolding reject_all
on_error e s = reject_all s.waiters e (record s { close_error = some e; waiters = [] })

-- `socket.on("close", …)`
pub on_close : TcpState → TcpState
unfolding reject_all
on_close s =
    reject_all s.waiters (or_closed s.close_error) (record s { closed = true; waiters = [] })

pub data Event : Type 0 where
  arrives : List ℕ → Event
  receives closes : Event
  expires : ℕ → Event
  errs : Failure → Event

pub step : Event → TcpState → TcpState
step (arrives chunk) s = on_data chunk s
step receives s = receive s
step closes s = on_close s
step (expires id) s = expire id s
step (errs e) s = on_error e s

pub run : List Event → TcpState → TcpState
run [] s = s
run (e ∷ es) s = run es (step e s)
