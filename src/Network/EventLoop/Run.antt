-- ===== src/Network/EventLoop/Run.antt =====
-- The loop of src/network/event_loop.rs, over the commands and events that it takes in turn.
use pyrsia.Base.{List, [], ◌∷◌}
use pyrsia.Outcome.{ok, err, panicked}
use pyrsia.Network.Types.{Command}
use pyrsia.Network.EventLoop.{PyrsiaEventLoop, Handled, handled}
use pyrsia.Network.EventLoop.Commands.{Swarm, handle_command}
use pyrsia.Network.EventLoop.Events.{Surroundings, Event, handle_event}

-- What `select!` takes next, with what libp2p answers meanwhile
pub data Input : Type 0 where
  command : Swarm → Command → Input
  event : Surroundings → Event → Input

unfoldable pub handle : Input → PyrsiaEventLoop → Handled
handle (command w c) s = handle_command w c s
handle (event w e) s = handle_event w e s

-- `run`, until the command channel is closed at the end of the list, or a handler panics
unfoldable pub run : List Input → PyrsiaEventLoop → Handled
unfolding handle
run [] s = handled s
run (input ∷ inputs) s =
    let (r, s') = handle input s in
    elim r [ ok _ ↦ run inputs s' | err e ↦ (err e, s') | panicked ↦ (panicked, s') ]
