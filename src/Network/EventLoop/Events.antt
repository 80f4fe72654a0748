-- ===== src/Network/EventLoop/Events.antt =====
-- The handlers of src/network/event_loop.rs for what happens in libp2p.
use pyrsia.Base.{ℕ, Bool, Option, none, some, List, [], ◌∷◌, Bytes, ◌==◌, if◌then◌else◌}
use pyrsia.Outcome.{panicked}
use pyrsia.TransparencyLog.Types.{PackageType}
use pyrsia.TransparencyLog.Database.{bytes_eq}
use pyrsia.Network.Types
use pyrsia.Network.Types.{
  PeerId, Answer, done, failed, PyrsiaEvent, Topic, blockchain_topic, build_topic, BuildStatus,
}
use pyrsia.Network.Tables.{insert, remove, get}
use pyrsia.Network.EventLoop.{Handled, handled, PyrsiaEventLoop, send, emit, call, same_id}

-- Whether the node still takes events, the local peer, and bincode's reading of a `VerifyBuildData`
pub record Surroundings : Type 0 where
  pub event_receiver_open : Bool
  pub local_peer_id : PeerId
  pub deserialize : Bytes → Option (PackageType × Bytes)

-- `RequestResponseEvent`, with the request that comes in and the response to one that went out
pub data RequestResponseEvent (Request : Type 0) (Response : Type 0) : Type 0 where
  request : Request → ℕ → RequestResponseEvent Request Response
  response : ℕ → Response → RequestResponseEvent Request Response
  inbound_failure : RequestResponseEvent Request Response
  outbound_failure : ℕ → RequestResponseEvent Request Response
  response_sent : RequestResponseEvent Request Response

-- `KademliaEvent`, as far as the loop tells its events apart
pub data KademliaEvent : Type 0 where
  start_providing : ℕ → KademliaEvent
  found_providers : ℕ → List PeerId → KademliaEvent
  finished_with_no_additional_record : ℕ → KademliaEvent
  bootstrap_ok : ℕ → ℕ → KademliaEvent
  bootstrap_err : ℕ → KademliaEvent
  other_kademlia : KademliaEvent

-- `SwarmEvent` for all but the behaviours
pub data SwarmEvent : Type 0 where
  connection_established : PeerId → Bool → Bytes → SwarmEvent
  outgoing_connection_error : Option PeerId → SwarmEvent
  other_swarm : SwarmEvent

-- `event_sender.send(..).await.expect(..)`
abbrev pub emit_event : Surroundings → PyrsiaEvent → PyrsiaEventLoop → Handled
emit_event w event s = if w.event_receiver_open then handled (emit event s) else (panicked, s)

-- `handle_autonat_event`: the address of a status that became public, if it did
unfoldable pub handle_autonat_event : Surroundings → Option Bytes → PyrsiaEventLoop → Handled
handle_autonat_event w none s = handled s
handle_autonat_event w (some address) s =
    handled (call (Types.add_address w.local_peer_id address) s)

-- `handle_gossipsub_event` for a message: its topic, if it is one of the two, its source and its data
unfoldable pub handle_gossipsub_event :
    Surroundings → Option Topic → Option PeerId → Bytes → PyrsiaEventLoop → Handled
handle_gossipsub_event w none source buf s = handled s
handle_gossipsub_event w (some blockchain_topic) source buf s =
    emit_event w (Types.blockchain_requested buf none) s
handle_gossipsub_event w (some build_topic) none buf s = handled s
handle_gossipsub_event w (some build_topic) (some peer_id) buf s = elim (w.deserialize buf) [
  | none ↦ handled s
  | some (t, id) ↦ emit_event w (Types.build_to_verify peer_id t id) s
]

-- `HashSet::extend`
unfoldable pub insert_peer : PeerId → List PeerId → List PeerId
insert_peer p [] = p ∷ []
insert_peer p (q ∷ qs) = if bytes_eq p q then q ∷ qs else q ∷ insert_peer p qs

unfoldable pub extend : List PeerId → List PeerId → List PeerId
unfolding insert_peer
extend known [] = known
extend known (p ∷ ps) = extend (insert_peer p known) ps

-- `handle_kademlia_event`
unfoldable pub handle_kademlia_event : KademliaEvent → PyrsiaEventLoop → Handled
unfolding extend
handle_kademlia_event (start_providing id) s =
    let (queries, found) = remove same_id id s.pending_start_providing in
    elim found [
      | none ↦ (panicked, s)
      | some sender ↦ handled (send sender done (record s { pending_start_providing = queries }))
    ]
handle_kademlia_event (found_providers id providers) s =
    elim (get same_id id s.pending_list_providers) [
      | none ↦ (panicked, s)
      | some p ↦
          let p' = record p { providers = extend p.providers providers } in
          handled (record s {
            pending_list_providers = (insert same_id id p' s.pending_list_providers).0;
          })
    ]
handle_kademlia_event (finished_with_no_additional_record id) s =
    let (queries, found) = remove same_id id s.pending_list_providers in
    elim found [
      | none ↦ (panicked, s)
      | some p ↦
          handled (
            send p.sender (Types.peers p.providers) (record s { pending_list_providers = queries }))
    ]
handle_kademlia_event (bootstrap_ok id num_remaining) s =
    let (queries, found) = remove same_id id s.pending_bootstrap in
    if num_remaining == 0
    then elim found [
      | none ↦ (panicked, s)
      | some sender ↦ handled (send sender done (record s { pending_bootstrap = queries }))
    ]
    else handled s
handle_kademlia_event (bootstrap_err id) s =
    let (queries, found) = remove same_id id s.pending_bootstrap in
    elim found [
      | none ↦ (panicked, s)
      | some sender ↦ handled (send sender failed (record s { pending_bootstrap = queries }))
    ]
handle_kademlia_event other_kademlia s = handled s

-- The removal of a request that has come to its end, with what its sender is told. The five
-- handlers below differ in the map that they take it from.
abbrev pub answered : Answer → PyrsiaEventLoop → Option ℕ → PyrsiaEventLoop → Handled
answered answer s none s' = (panicked, s)
answered answer s (some sender) s' = handled (send sender answer s')

-- `handle_request_response_event`
unfoldable pub handle_request_response_event :
    Surroundings → RequestResponseEvent Bytes Bytes → PyrsiaEventLoop → Handled
handle_request_response_event w (request artifact_id channel) s =
    emit_event w (Types.artifact_requested artifact_id channel) s
handle_request_response_event w (response id artifact) s =
    let (requests, found) = remove same_id id s.pending_request_artifact in
    answered (Types.artifact artifact) s found (record s { pending_request_artifact = requests })
handle_request_response_event w (outbound_failure id) s =
    let (requests, found) = remove same_id id s.pending_request_artifact in
    answered failed s found (record s { pending_request_artifact = requests })
handle_request_response_event w inbound_failure s = handled s
handle_request_response_event w response_sent s = handled s

-- `handle_idle_metric_request_response_event`
unfoldable pub handle_idle_metric_request_response_event :
    Surroundings → RequestResponseEvent (Unit {0}) Bytes → PyrsiaEventLoop → Handled
handle_idle_metric_request_response_event w (request _ channel) s =
    emit_event w (Types.idle_metric_requested channel) s
handle_idle_metric_request_response_event w (response id metric) s =
    let (requests, found) = remove same_id id s.pending_idle_metric_requests in
    answered (Types.metric metric) s found (record s { pending_idle_metric_requests = requests })
handle_idle_metric_request_response_event w (outbound_failure id) s =
    let (requests, found) = remove same_id id s.pending_idle_metric_requests in
    answered failed s found (record s { pending_idle_metric_requests = requests })
handle_idle_metric_request_response_event w inbound_failure s = handled s
handle_idle_metric_request_response_event w response_sent s = handled s

-- `handle_build_request_response_event`
unfoldable pub handle_build_request_response_event :
    Surroundings → RequestResponseEvent (PackageType × Bytes) Bytes → PyrsiaEventLoop → Handled
handle_build_request_response_event w (request (t, id) channel) s =
    emit_event w (Types.build_requested t id channel) s
handle_build_request_response_event w (response id build_id) s =
    let (requests, found) = remove same_id id s.pending_request_build in
    answered (Types.build_id build_id) s found (record s { pending_request_build = requests })
handle_build_request_response_event w (outbound_failure id) s =
    let (requests, found) = remove same_id id s.pending_request_build in
    answered failed s found (record s { pending_request_build = requests })
handle_build_request_response_event w inbound_failure s = handled s
handle_build_request_response_event w response_sent s = handled s

-- `handle_build_status_request_response_event`
unfoldable pub handle_build_status_request_response_event :
    Surroundings → RequestResponseEvent Bytes BuildStatus → PyrsiaEventLoop → Handled
handle_build_status_request_response_event w (request build_id channel) s =
    emit_event w (Types.build_status_requested build_id channel) s
handle_build_status_request_response_event w (response id status) s =
    let (requests, found) = remove same_id id s.pending_build_status_requests in
    answered (Types.build_status status) s found
      (record s { pending_build_status_requests = requests })
handle_build_status_request_response_event w (outbound_failure id) s =
    let (requests, found) = remove same_id id s.pending_build_status_requests in
    answered failed s found (record s { pending_build_status_requests = requests })
handle_build_status_request_response_event w inbound_failure s = handled s
handle_build_status_request_response_event w response_sent s = handled s

-- `handle_blockchain_request_response_event`
unfoldable pub handle_blockchain_request_response_event :
    Surroundings → RequestResponseEvent Bytes Bytes → PyrsiaEventLoop → Handled
handle_blockchain_request_response_event w (request buf channel) s =
    emit_event w (Types.blockchain_requested buf (some channel)) s
handle_blockchain_request_response_event w (response id buf) s =
    let (requests, found) = remove same_id id s.pending_blockchain_requests in
    answered (Types.blockchain buf) s found (record s { pending_blockchain_requests = requests })
handle_blockchain_request_response_event w (outbound_failure id) s =
    let (requests, found) = remove same_id id s.pending_blockchain_requests in
    answered failed s found (record s { pending_blockchain_requests = requests })
handle_blockchain_request_response_event w inbound_failure s = handled s
handle_blockchain_request_response_event w response_sent s = handled s

-- `handle_swarm_event`
unfoldable pub handle_swarm_event : SwarmEvent → PyrsiaEventLoop → Handled
handle_swarm_event (connection_established peer_id is_dialer address) s =
    let (dials, found) = remove bytes_eq peer_id s.pending_dial in
    if is_dialer
    then elim found [
      | none ↦ handled s
      | some sender ↦ handled (
          send sender done
            (call (Types.add_address peer_id address) (record s { pending_dial = dials })))
    ]
    else handled s
handle_swarm_event (outgoing_connection_error none) s = handled s
handle_swarm_event (outgoing_connection_error (some peer_id)) s =
    let (dials, found) = remove bytes_eq peer_id s.pending_dial in
    elim found [
      | none ↦ handled s
      | some sender ↦ handled (send sender failed (record s { pending_dial = dials }))
    ]
handle_swarm_event other_swarm s = handled s

-- The events that `run` tells apart. A gossipsub event that is no message has no topic here.
pub data Event : Type 0 where
  autonat : Option Bytes → Event
  gossipsub : Option Topic → Option PeerId → Bytes → Event
  identify : Event
  kademlia : KademliaEvent → Event
  request_response : RequestResponseEvent Bytes Bytes → Event
  build_request_response : RequestResponseEvent (PackageType × Bytes) Bytes → Event
  idle_metric_request_response : RequestResponseEvent (Unit {0}) Bytes → Event
  blockchain_request_response : RequestResponseEvent Bytes Bytes → Event
  build_status_request_response : RequestResponseEvent Bytes BuildStatus → Event
  swarm : SwarmEvent → Event

-- The match on an event in `run`
unfoldable pub handle_event : Surroundings → Event → PyrsiaEventLoop → Handled
unfolding handle_autonat_event handle_gossipsub_event handle_kademlia_event
    handle_request_response_event handle_build_request_response_event
    handle_idle_metric_request_response_event handle_blockchain_request_response_event
    handle_build_status_request_response_event handle_swarm_event
handle_event w (autonat address) s = handle_autonat_event w address s
handle_event w (gossipsub topic source buf) s = handle_gossipsub_event w topic source buf s
handle_event w identify s = handled s
handle_event w (kademlia e) s = handle_kademlia_event e s
handle_event w (request_response e) s = handle_request_response_event w e s
handle_event w (build_request_response e) s = handle_build_request_response_event w e s
handle_event w (idle_metric_request_response e) s = handle_idle_metric_request_response_event w e s
handle_event w (blockchain_request_response e) s = handle_blockchain_request_response_event w e s
handle_event w (build_status_request_response e) s =
    handle_build_status_request_response_event w e s
handle_event w (swarm e) s = handle_swarm_event e s
