-- ===== src/Network/EventLoop/Commands.antt =====
-- `handle_command` of src/network/event_loop.rs.
use pyrsia.Base.{
  ℕ, Bool, true, false, not, Option, none, some, List, [], ◌∷◌, ◌++◌, Bytes, length, if◌then◌else◌,
}
use pyrsia.Outcome.{ok, panicked}
use pyrsia.TransparencyLog.Types.{PackageType}
use pyrsia.TransparencyLog.Database.{bytes_eq}
use pyrsia.Network.Types.{
  PeerId, Command, add_probe, broadcast_block, bootstrap_dht, listen, dial, list_peers, get_status,
  provide, list_providers, request_build, respond_build, verify_build, request_artifact,
  respond_artifact, request_idle_metric, respond_idle_metric, request_blockchain,
  respond_blockchain, request_build_status, respond_build_status, Answer, done, failed, Status,
  SwarmCall, Request, Topic,
}
use pyrsia.Network.Types
use pyrsia.Network.Tables.{insert, get}
use pyrsia.Network.EventLoop.{
  PyrsiaEventLoop, PendingListProviders, Handled, handled, send, drop_sender, drop_option, call,
  same_id,
}

-- What libp2p and the environment answer to one command: the identifier of the query or request that
-- it starts, whether the call succeeds, whether the caller still waits; the connected peers, the
-- local peer and its text in an address, and the addresses that it listens on.
pub record Swarm : Type 0 where
  pub id : ℕ
  pub succeeds : Bool
  pub receiver_open : Bool
  pub connected_peers : List PeerId
  pub local_peer_id : PeerId
  pub local_peer : Bytes
  pub listeners : List Bytes
  pub external_ip : Bytes
  pub parse_ip : Bytes → Option Bytes
  pub replace_ip : Bytes → Bytes → Option Bytes
  pub with_peer : Bytes → PeerId → Bytes
  pub serialize : PackageType → Bytes → Option Bytes

-- `expect` and `unwrap` on what libp2p says
abbrev pub expect : Bool → PyrsiaEventLoop → Handled
expect true s = (ok tt, s)
expect false s = (panicked, s)

-- `addr_map.insert`
unfoldable pub insert_addr : Bytes → List Bytes → List Bytes
insert_addr a [] = a ∷ []
insert_addr a (b ∷ bs) = if bytes_eq a b then b ∷ bs else b ∷ insert_addr a bs

-- The loop over `swarm.listeners()` for `Status`; `none` is the panic of `unwrap`.
unfoldable pub map_addrs : Swarm → List Bytes → List Bytes → Option (List Bytes)
unfolding insert_addr
map_addrs w addr_map [] = some addr_map
map_addrs w addr_map (addr ∷ addrs) = elim w.external_ip [
  | [] ↦ map_addrs w (insert_addr (addr ++ w.local_peer) addr_map) addrs
  | _ ∷ _ ↦ elim (w.parse_ip w.external_ip) [
    | none ↦ map_addrs w (insert_addr (addr ++ w.local_peer) addr_map) addrs
    | some ip ↦ elim (w.replace_ip addr ip) [
      | none ↦ none
      | some new_addr ↦ map_addrs w (insert_addr (new_addr ++ w.local_peer) addr_map) addrs
    ]
  ]
]

-- `Command::AddProbe`
unfoldable pub handle_add_probe : PeerId → Bytes → ℕ → PyrsiaEventLoop → Handled
handle_add_probe peer_id probe_addr sender s = elim (get bytes_eq peer_id s.pending_dial) [
  | none ↦
      let (dials, old) = insert bytes_eq peer_id sender s.pending_dial in
      handled (
        call (Types.add_server peer_id probe_addr)
          (drop_option old (record s { pending_dial = dials })))
  | some _ ↦ handled (drop_sender sender s)
]

-- `Command::BootstrapDht`
unfoldable pub handle_bootstrap_dht : Swarm → ℕ → PyrsiaEventLoop → Handled
handle_bootstrap_dht w sender s =
    if not s.bootstrapped
    then (if w.succeeds
        then (let (queries, old) = insert same_id w.id sender s.pending_bootstrap in
            handled (
              call Types.bootstrapping
                (drop_option old (record s { bootstrapped = true; pending_bootstrap = queries }))))
        else handled (send sender failed (call Types.bootstrapping s)))
    else handled (drop_sender sender s)

-- `Command::Dial`
unfoldable pub handle_dial : Swarm → PeerId → Bytes → ℕ → PyrsiaEventLoop → Handled
handle_dial w peer_id peer_addr sender s = elim (get bytes_eq peer_id s.pending_dial) [
  | none ↦
      let s' = call (Types.dialed peer_id (w.with_peer peer_addr peer_id)) s in
      if w.succeeds
      then (let (dials, old) = insert bytes_eq peer_id sender s'.pending_dial in
          handled (drop_option old (record s' { pending_dial = dials })))
      else handled (send sender failed s')
  | some _ ↦ handled (drop_sender sender s)
]

-- `Command::Status`
unfoldable pub handle_status : Swarm → ℕ → PyrsiaEventLoop → Handled
unfolding map_addrs
handle_status w sender s = elim (map_addrs w [] w.listeners) [
  | none ↦ (panicked, drop_sender sender s)
  | some peer_addrs ↦
      let answer : Answer = Types.status (record {
        peers_count = length w.connected_peers;
        peer_id = w.local_peer_id;
        peer_addrs = peer_addrs;
      }) in
      if w.receiver_open then handled (send sender answer s) else (panicked, drop_sender sender s)
]

-- `Command::Provide`
unfoldable pub handle_provide : Swarm → Bytes → ℕ → PyrsiaEventLoop → Handled
handle_provide w artifact_id sender s =
    let s' = call (Types.start_providing artifact_id) s in
    if w.succeeds
    then (let (queries, old) = insert same_id w.id sender s'.pending_start_providing in
        handled (drop_option old (record s' { pending_start_providing = queries })))
    else (panicked, drop_sender sender s')

-- `Command::ListProviders`
unfoldable pub handle_list_providers : Swarm → Bytes → ℕ → PyrsiaEventLoop → Handled
handle_list_providers w artifact_id sender s =
    let pending : PendingListProviders = record { sender = sender; providers = [] } in
    let (queries, old) = insert same_id w.id pending s.pending_list_providers in
    let s' =
      call (Types.get_providers artifact_id) (record s { pending_list_providers = queries }) in
    elim old [ none ↦ handled s' | some p ↦ handled (drop_sender p.sender s') ]

-- `Command::RequestBuild`
unfoldable pub handle_request_build :
    Swarm → PeerId → PackageType → Bytes → ℕ → PyrsiaEventLoop → Handled
handle_request_build w peer t id sender s =
    let (requests, old) = insert same_id w.id sender s.pending_request_build in
    handled (
      call (Types.send_request peer (Types.for_build t id))
        (drop_option old (record s { pending_request_build = requests })))

-- `Command::RequestArtifact`
unfoldable pub handle_request_artifact : Swarm → Bytes → PeerId → ℕ → PyrsiaEventLoop → Handled
handle_request_artifact w artifact_id peer sender s =
    let (requests, old) = insert same_id w.id sender s.pending_request_artifact in
    handled (
      call (Types.send_request peer (Types.for_artifact artifact_id))
        (drop_option old (record s { pending_request_artifact = requests })))

-- `Command::RequestIdleMetric`
unfoldable pub handle_request_idle_metric : Swarm → PeerId → ℕ → PyrsiaEventLoop → Handled
handle_request_idle_metric w peer sender s =
    let (requests, old) = insert same_id w.id sender s.pending_idle_metric_requests in
    handled (
      call (Types.send_request peer Types.for_idle_metric)
        (drop_option old (record s { pending_idle_metric_requests = requests })))

-- `Command::RequestBlockchain`
unfoldable pub handle_request_blockchain : Swarm → Bytes → PeerId → ℕ → PyrsiaEventLoop → Handled
handle_request_blockchain w buf peer sender s =
    let (requests, old) = insert same_id w.id sender s.pending_blockchain_requests in
    handled (
      call (Types.send_request peer (Types.for_blockchain buf))
        (drop_option old (record s { pending_blockchain_requests = requests })))

-- `Command::RequestBuildStatus`
unfoldable pub handle_request_build_status : Swarm → PeerId → Bytes → ℕ → PyrsiaEventLoop → Handled
handle_request_build_status w peer build_id sender s =
    let (requests, old) = insert same_id w.id sender s.pending_build_status_requests in
    handled (
      call (Types.send_request peer (Types.for_build_status build_id))
        (drop_option old (record s { pending_build_status_requests = requests })))

-- `.map(|_| ()).map_err(..)` on what libp2p says
abbrev pub result : Bool → Answer
result true = done
result false = failed

-- `Command::VerifyBuild`
unfoldable pub handle_verify_build : Swarm → PackageType → Bytes → ℕ → PyrsiaEventLoop → Handled
handle_verify_build w t id sender s = elim (w.serialize t id) [
  | some serialized_data ↦
      handled (
        send sender (result w.succeeds)
          (call (Types.published Types.build_topic serialized_data) s))
  | none ↦ handled (send sender failed s)
]

-- `send_response(..).expect(..)` in the five `Respond` commands
abbrev pub respond : Swarm → ℕ → Answer → PyrsiaEventLoop → Handled
respond w channel answer s = expect w.succeeds (call (Types.send_response channel answer) s)

-- `handle_command`
unfoldable pub handle_command : Swarm → Command → PyrsiaEventLoop → Handled
unfolding handle_add_probe handle_bootstrap_dht handle_dial handle_status handle_provide
    handle_list_providers handle_request_build handle_request_artifact handle_request_idle_metric
    handle_request_blockchain handle_request_build_status handle_verify_build
handle_command w (add_probe peer_id probe_addr sender) s =
    handle_add_probe peer_id probe_addr sender s
handle_command w (bootstrap_dht sender) s = handle_bootstrap_dht w sender s
handle_command w (listen addr sender) s =
    handled (send sender (result w.succeeds) (call (Types.listened addr) s))
handle_command w (dial peer_id peer_addr sender) s = handle_dial w peer_id peer_addr sender s
handle_command w (list_peers sender) s = handled (send sender (Types.peers w.connected_peers) s)
handle_command w (get_status sender) s = handle_status w sender s
handle_command w (provide artifact_id sender) s = handle_provide w artifact_id sender s
handle_command w (list_providers artifact_id sender) s =
    handle_list_providers w artifact_id sender s
handle_command w (request_build peer t id sender) s = handle_request_build w peer t id sender s
handle_command w (respond_build build_id channel) s = respond w channel (Types.build_id build_id) s
handle_command w (verify_build t id sender) s = handle_verify_build w t id sender s
handle_command w (request_artifact artifact_id peer sender) s =
    handle_request_artifact w artifact_id peer sender s
handle_command w (respond_artifact artifact channel) s =
    respond w channel (Types.artifact artifact) s
handle_command w (request_idle_metric peer sender) s = handle_request_idle_metric w peer sender s
handle_command w (respond_idle_metric metric channel) s = respond w channel (Types.metric metric) s
handle_command w (request_blockchain buf peer sender) s =
    handle_request_blockchain w buf peer sender s
handle_command w (respond_blockchain buf channel) s = respond w channel (Types.blockchain buf) s
handle_command w (broadcast_block block sender) s =
    handled
      (send sender (result w.succeeds) (call (Types.published Types.blockchain_topic block) s))
handle_command w (request_build_status peer build_id sender) s =
    handle_request_build_status w peer build_id sender s
handle_command w (respond_build_status status channel) s =
    respond w channel (Types.build_status status) s
