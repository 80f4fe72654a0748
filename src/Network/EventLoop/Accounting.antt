-- ===== src/Network/EventLoop/Accounting.antt =====
-- Where the senders that src/network/event_loop.rs was given end up: each is pending, answered or
-- dropped, and in one of these once.
pub mod Given
pub mod Moved
pub mod Runs
use pyrsia.Base.{
  ℕ, zero, suc, ◌+◌, ◌≤◌, ◌≡◌, refl, ◌∙◌, Bool, true, false, Option, none, some, List, [], ◌∷◌,
  Bytes, arith, ◌==◌, if◌then◌else◌, Bool-cases, Option-cases, inl, inr,
}
use pyrsia.Outcome.{ok, err, panicked}
use pyrsia.TransparencyLog.Database.{bytes_eq}
use pyrsia.TransparencyLog.Types.{PackageType}
use pyrsia.Network.Types.{
  BuildStatus, blockchain_topic, build_topic, Command, add_probe, broadcast_block, bootstrap_dht,
  listen, dial, list_peers, get_status, provide, list_providers, request_build, respond_build,
  verify_build, request_artifact, respond_artifact, request_idle_metric, respond_idle_metric,
  request_blockchain, respond_blockchain, request_build_status, respond_build_status, Answer,
}
use pyrsia.Network.Tables.{
  insert, remove, get, one, count, count_in, count_option, count_in-insert, count_in-remove,
  insert-get,
}
use pyrsia.Network.EventLoop.{PyrsiaEventLoop, PendingListProviders, Handled, handled, same_id}
use pyrsia.Network.EventLoop.Commands.{
  Swarm, handle_command, handle_add_probe, handle_bootstrap_dht, handle_dial, handle_status,
  handle_provide, handle_list_providers, handle_request_build, handle_request_artifact,
  handle_request_idle_metric, handle_request_blockchain, handle_request_build_status,
  handle_verify_build,
}
use pyrsia.Network.EventLoop.Events.{
  Surroundings, Event, autonat, gossipsub, identify, kademlia, request_response,
  build_request_response, idle_metric_request_response, blockchain_request_response,
  build_status_request_response, swarm, RequestResponseEvent, request, response, inbound_failure,
  outbound_failure, response_sent, KademliaEvent, start_providing, found_providers,
  finished_with_no_additional_record, bootstrap_ok, bootstrap_err, other_kademlia, SwarmEvent,
  connection_established, outgoing_connection_error, other_swarm, extend, handle_event,
  handle_kademlia_event, handle_swarm_event, handle_request_response_event,
  handle_build_request_response_event, handle_idle_metric_request_response_event,
  handle_blockchain_request_response_event, handle_build_status_request_response_event,
}

-- The sender that comes with a command, if it wants an answer
abbrev pub sender_of : Command → Option ℕ
sender_of (add_probe _ _ sender) = some sender
sender_of (broadcast_block _ sender) = some sender
sender_of (bootstrap_dht sender) = some sender
sender_of (listen _ sender) = some sender
sender_of (dial _ _ sender) = some sender
sender_of (list_peers sender) = some sender
sender_of (get_status sender) = some sender
sender_of (provide _ sender) = some sender
sender_of (list_providers _ sender) = some sender
sender_of (request_build _ _ _ sender) = some sender
sender_of (verify_build _ _ sender) = some sender
sender_of (request_artifact _ _ sender) = some sender
sender_of (request_idle_metric _ sender) = some sender
sender_of (request_blockchain _ _ sender) = some sender
sender_of (request_build_status _ _ sender) = some sender
sender_of (respond_build _ _) = none
sender_of (respond_artifact _ _) = none
sender_of (respond_idle_metric _ _) = none
sender_of (respond_blockchain _ _) = none
sender_of (respond_build_status _ _) = none

abbrev pub self : ℕ → ℕ
self n = n

abbrev pub of_providers : PendingListProviders → ℕ
of_providers p = p.sender

abbrev pub count_answers : ℕ → List (ℕ × Answer) → ℕ
count_answers x [] = 0
count_answers x ((y, _) ∷ rest) = one x y + count_answers x rest

-- How often `x` is pending in a map
abbrev pub pending : ℕ → PyrsiaEventLoop → ℕ
pending x s =
    count_in same_id self x s.pending_bootstrap
    + count_in bytes_eq self x s.pending_dial
    + count_in same_id self x s.pending_start_providing
    + count_in same_id of_providers x s.pending_list_providers
    + count_in same_id self x s.pending_request_artifact
    + count_in same_id self x s.pending_request_build
    + count_in same_id self x s.pending_idle_metric_requests
    + count_in same_id self x s.pending_blockchain_requests
    + count_in same_id self x s.pending_build_status_requests

-- How often `x` is pending, was answered or was dropped
abbrev pub places : ℕ → PyrsiaEventLoop → ℕ
places x s = pending x s + count_answers x s.sent + count x s.dropped

abbrev pub given : ℕ → Command → ℕ
given x c = count_option same_id self x (sender_of c)
