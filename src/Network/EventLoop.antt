-- ===== src/Network/EventLoop.antt =====
-- src/network/event_loop.rs: the state of the loop and the commands that it handles.
pub mod Commands
pub mod Events
pub mod Run
pub mod Accounting
pub mod Dropped
pub mod Answers
use pyrsia.Base.{ℕ, Bool, true, false, Option, none, some, List, [], ◌∷◌, Bytes, ◌==◌}
use pyrsia.Outcome.{Outcome, ok}
use pyrsia.Network.Types.{PeerId, Command, Answer, PyrsiaEvent, SwarmCall, Status, BuildStatus}
use pyrsia.Network.Tables.{Table}

pub record PendingListProviders : Type 0 where
  pub sender : ℕ
  pub providers : List PeerId

-- The pending maps and, newest first, what was sent into one-shot channels, the senders that were
-- dropped, so that whoever waits for them gets an error, the events for the node and the calls of
-- libp2p. Query and request identifiers are numbers.
pub record PyrsiaEventLoop : Type 0 where
  pub bootstrapped : Bool
  pub pending_bootstrap : Table ℕ ℕ
  pub pending_dial : Table PeerId ℕ
  pub pending_start_providing : Table ℕ ℕ
  pub pending_list_providers : Table ℕ PendingListProviders
  pub pending_request_artifact : Table ℕ ℕ
  pub pending_request_build : Table ℕ ℕ
  pub pending_idle_metric_requests : Table ℕ ℕ
  pub pending_blockchain_requests : Table ℕ ℕ
  pub pending_build_status_requests : Table ℕ ℕ
  pub sent : List (ℕ × Answer)
  pub dropped : List ℕ
  pub events : List PyrsiaEvent
  pub calls : List SwarmCall

-- `PyrsiaEventLoop::new`
unfoldable pub new : PyrsiaEventLoop
new = record {
  bootstrapped = false;
  pending_bootstrap = [];
  pending_dial = [];
  pending_start_providing = [];
  pending_list_providers = [];
  pending_request_artifact = [];
  pending_request_build = [];
  pending_idle_metric_requests = [];
  pending_blockchain_requests = [];
  pending_build_status_requests = [];
  sent = [];
  dropped = [];
  events = [];
  calls = [];
}

-- `sender.send(answer)`; that nobody waits any more is only logged.
abbrev pub send : ℕ → Answer → PyrsiaEventLoop → PyrsiaEventLoop
send sender answer s = record s { sent = (sender, answer) ∷ s.sent }

-- The sender goes out of scope.
abbrev pub drop_sender : ℕ → PyrsiaEventLoop → PyrsiaEventLoop
drop_sender sender s = record s { dropped = sender ∷ s.dropped }

abbrev pub drop_option : Option ℕ → PyrsiaEventLoop → PyrsiaEventLoop
drop_option none s = s
drop_option (some sender) s = drop_sender sender s

abbrev pub call : SwarmCall → PyrsiaEventLoop → PyrsiaEventLoop
call c s = record s { calls = c ∷ s.calls }

abbrev pub emit : PyrsiaEvent → PyrsiaEventLoop → PyrsiaEventLoop
emit e s = record s { events = e ∷ s.events }

-- A handler has no errors; it can only panic.
abbrev pub Handled : Type 0
Handled = Outcome (Unit {0}) (Unit {0}) × PyrsiaEventLoop

abbrev pub handled : PyrsiaEventLoop → Handled
handled s = (ok tt, s)

abbrev pub same_id : ℕ → ℕ → Bool
same_id a b = a == b
