-- ===== src/Network/Types.antt =====
-- What crosses the channels of src/network/client/command.rs and src/network/event_loop.rs.
use pyrsia.Base.{ℕ, Option, List, Bytes}
use pyrsia.TransparencyLog.Types.{PackageType}

abbrev pub PeerId : Type 0
PeerId = Bytes

-- build_service/model.rs
pub data BuildStatus : Type 0 where
  running : BuildStatus
  success : List Bytes → BuildStatus
  failure : Bytes → BuildStatus

-- node_api/model/request.rs
pub record Status : Type 0 where
  pub peers_count : ℕ
  pub peer_id : PeerId
  pub peer_addrs : List Bytes

-- The sending end of a one-shot channel and a response channel go by numbers.
pub data Command : Type 0 where
  add_probe : PeerId → Bytes → ℕ → Command
  broadcast_block : Bytes → ℕ → Command
  bootstrap_dht : ℕ → Command
  listen : Bytes → ℕ → Command
  dial : PeerId → Bytes → ℕ → Command
  list_peers : ℕ → Command
  get_status : ℕ → Command
  provide : Bytes → ℕ → Command
  list_providers : Bytes → ℕ → Command
  request_build : PeerId → PackageType → Bytes → ℕ → Command
  respond_build : Bytes → ℕ → Command
  verify_build : PackageType → Bytes → ℕ → Command
  request_artifact : Bytes → PeerId → ℕ → Command
  respond_artifact : Bytes → ℕ → Command
  request_idle_metric : PeerId → ℕ → Command
  respond_idle_metric : Bytes → ℕ → Command
  request_blockchain : Bytes → PeerId → ℕ → Command
  respond_blockchain : Bytes → ℕ → Command
  request_build_status : PeerId → Bytes → ℕ → Command
  respond_build_status : BuildStatus → ℕ → Command

-- What is sent into a one-shot channel; `done` is `()` and `Ok(())`, `failed` any `Err`.
pub data Answer : Type 0 where
  done failed : Answer
  peers : List PeerId → Answer
  status : Status → Answer
  build_id : Bytes → Answer
  artifact : Bytes → Answer
  metric : Bytes → Answer
  blockchain : Bytes → Answer
  build_status : BuildStatus → Answer

-- What the loop hands to the node
pub data PyrsiaEvent : Type 0 where
  artifact_requested : Bytes → ℕ → PyrsiaEvent
  build_requested : PackageType → Bytes → ℕ → PyrsiaEvent
  build_to_verify : PeerId → PackageType → Bytes → PyrsiaEvent
  idle_metric_requested : ℕ → PyrsiaEvent
  blockchain_requested : Bytes → Option ℕ → PyrsiaEvent
  build_status_requested : Bytes → ℕ → PyrsiaEvent

-- The requests of the five request-response protocols
pub data Request : Type 0 where
  for_artifact : Bytes → Request
  for_build : PackageType → Bytes → Request
  for_idle_metric : Request
  for_blockchain : Bytes → Request
  for_build_status : Bytes → Request

pub data Topic : Type 0 where
  blockchain_topic build_topic : Topic

-- What the loop asks of libp2p. The responses of the protocols are spelled as the answers.
pub data SwarmCall : Type 0 where
  add_address : PeerId → Bytes → SwarmCall
  add_server : PeerId → Bytes → SwarmCall
  dialed : PeerId → Bytes → SwarmCall
  listened : Bytes → SwarmCall
  bootstrapping : SwarmCall
  start_providing get_providers : Bytes → SwarmCall
  send_request : PeerId → Request → SwarmCall
  send_response : ℕ → Answer → SwarmCall
  published : Topic → Bytes → SwarmCall
