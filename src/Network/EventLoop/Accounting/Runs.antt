-- ===== src/Network/EventLoop/Accounting/Runs.antt =====
-- The senders of a whole run of src/network/event_loop.rs.
use pyrsia.Base.{ℕ, ◌+◌, ◌≤◌, ◌≡◌, none, some, List, [], ◌∷◌, arith}
use pyrsia.Outcome.{ok}
use pyrsia.Network.Tables.{count}
use pyrsia.Network.EventLoop.{PyrsiaEventLoop}
use pyrsia.Network.EventLoop.Run.{Input, command, event, handle, run}
use pyrsia.Network.EventLoop.Accounting.{sender_of, places}
use pyrsia.Network.EventLoop.Accounting.Given.{places-handle_command}
use pyrsia.Network.EventLoop.Accounting.Moved.{places-handle_event}

-- The senders that the commands among these bring
abbrev pub senders : List Input → List ℕ
senders [] = []
senders (event _ _ ∷ inputs) = senders inputs
senders (command _ c ∷ inputs) = elim (sender_of c) [
  | none ↦ senders inputs
  | some sender ↦ sender ∷ senders inputs
]

places-handle :
    (x : ℕ) (input : Input) (inputs : List Input) (s : PyrsiaEventLoop)
    → places x (handle input s).1 + count x (senders inputs)
      ≡ places x s + count x (senders (input ∷ inputs))
unfolding handle
places-handle x (command w c) inputs s = ground (arith, places-handle_command x w s c)
places-handle x (event w e) inputs s = ground (arith, places-handle_event x w s e)

-- In a run that no handler ends by a panic, every sender is afterwards in as many places, pending,
-- answered or dropped, as before, and once more for each command that brought it.
pub places-run :
    (x : ℕ) (inputs : List Input) (s : PyrsiaEventLoop)
    → ((run inputs s).0 ≡ ok tt → places x (run inputs s).1 ≡ places x s + count x (senders inputs))
      × (places x (run inputs s).1 ≤ places x s + count x (senders inputs))
unfolding run
places-run x [] s = ground arith
places-run x (input ∷ inputs) s =
    let step = places-handle x input inputs s in
    let (all, most) = places-run x inputs (handle input s).1 in
    ((λ h. ground (arith, step, all)), ground (arith, step, most))
