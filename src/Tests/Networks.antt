-- ===== src/Tests/Networks.antt =====
-- The theorems on the event loop and on the client of src/network.
use pyrsia.Base.{true, none, some, List, [], ◌∷◌}
use pyrsia.TransparencyLog.Types.{docker}
use pyrsia.Network.Types
use pyrsia.Network.Types.{
  PeerId, bootstrap_dht, request_artifact, request_build, request_idle_metric, request_blockchain,
  request_build_status,
}
use pyrsia.Network.EventLoop.{PyrsiaEventLoop}
use pyrsia.Network.EventLoop.Commands.{Swarm}
use pyrsia.Network.EventLoop.Events.{Surroundings}

abbrev swarm : Swarm
swarm = record {
  id = 4;
  succeeds = true;
  receiver_open = true;
  connected_peers = [];
  local_peer_id = 1 ∷ [];
  local_peer = [];
  listeners = [];
  external_ip = [];
  parse_ip = λ _. none;
  replace_ip = λ _ _. none;
  with_peer = λ addr _. addr;
  serialize = λ _ id. some id;
}

abbrev surroundings : Surroundings
surroundings = record {
  event_receiver_open = true;
  local_peer_id = 1 ∷ [];
  deserialize = λ bytes. some (docker, bytes);
}

abbrev bootstrapped : PyrsiaEventLoop
bootstrapped = record {
  bootstrapped = true;
  pending_bootstrap = [];
  pending_dial = [];
  pending_start_providing = [];
  pending_list_providers = [];
  pending_request_artifact = [];
  pending_request_build = [];
  pending_idle_metric_requests = [];
  pending_blockchain_requests = [];
  pending_build_status_requests = [];
  sent = (7, Types.done) ∷ [];
  dropped = [];
  events = [];
  calls = [];
}

abbrev batches : List (List PeerId)
batches = ((2 ∷ []) ∷ []) ∷ ((2 ∷ []) ∷ (3 ∷ []) ∷ []) ∷ []
