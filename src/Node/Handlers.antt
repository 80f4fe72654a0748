-- ===== src/Node/Handlers.antt =====
-- pyrsia_node/src/network/handlers.rs, but for the blockchain, and how main.rs connects to the network.
use pyrsia.Base.{ℕ, Bool, Option, none, some, List, [], ◌∷◌, Bytes, if◌then◌else◌}
use pyrsia.Outcome.{Outcome, ok, err, map_err, ok_or}
use pyrsia.Exec.{Exec, lift, pure, ◌>>=◌, ◌>>◌}
use pyrsia.TransparencyLog.Types.{PackageType}
use pyrsia.Network.Types.{PeerId}
use pyrsia.Network.Client.{CommandSender, ClientError}
use pyrsia.Network.Client
use pyrsia.BuildService.Types.{BuildError}
use pyrsia.ArtifactService.Service.{ArtifactService, ArtifactError, World, get_artifact_locally}

-- What `anyhow::Error` carries here
pub data NodeError : Type 0 where
  artifact_failed : ArtifactError → NodeError
  build_failed : BuildError → NodeError
  client_failed : ClientError → NodeError
  invalid_hash no_peer_id : NodeError
  no_peer_addrs no_multiaddr : NodeError

abbrev pub Handling : Type 0 → Type 0 → Type 0
Handling S = Exec (ArtifactService S) NodeError

module _ {S : Type 0} (w : World S) where
  -- A call of the client
  abbrev pub in_client : {A : Type 0} → Exec S ClientError A → Handling S A
  in_client m s =
      let (r, network) = m s.network in (map_err client_failed r, record s { network = network })

  -- `handle_request_artifact`
  unfoldable pub handle_request_artifact : Bytes → ℕ → Handling S (Unit {0})
  handle_request_artifact artifact_id channel = do
    content ←
        (λ s. let (r, s') = get_artifact_locally w artifact_id s in (map_err artifact_failed r, s'))
    in_client (Client.respond_artifact w.sender content channel)

  -- `handle_request_build`
  unfoldable pub handle_request_build : PackageType → Bytes → ℕ → Handling S (Unit {0})
  handle_request_build t id channel = do
    build_id ← lift (map_err build_failed (w.start_build t id))
    in_client (Client.respond_build w.sender build_id channel)

  -- `handle_verify_build`; `verify_build` is what the build event loop answers.
  unfoldable pub handle_verify_build :
      (PeerId → PackageType → Bytes → Outcome BuildError Bytes)
      → PeerId
      → PackageType
      → Bytes
      → Handling S (Unit {0})
  handle_verify_build verify_build peer_id t id = do
    build_id ← lift (map_err build_failed (verify_build peer_id t id))
    pure tt

  -- `handle_request_idle_metric`, for the bytes of the quality metric
  unfoldable pub handle_request_idle_metric : Bytes → ℕ → Handling S (Unit {0})
  handle_request_idle_metric metric channel =
      in_client (Client.respond_idle_metric w.sender metric channel)

  -- `handle_request_build_status`
  unfoldable pub handle_request_build_status : Bytes → ℕ → Handling S (Unit {0})
  handle_request_build_status build_id channel = do
    build_status ← lift (map_err build_failed (w.build_status build_id))
    in_client (Client.respond_build_status w.sender build_status channel)

  -- The last protocol of an address: whether it is that of a peer, and the peer if its hash is valid
  module _ (last_peer : Bytes → Option (Option PeerId)) where
    -- The match of the two functions that follow
    abbrev peer_of : Bytes → Outcome NodeError PeerId
    peer_of address = elim (last_peer address) [
      | none ↦ err no_peer_id
      | some found ↦ ok_or found invalid_hash
    ]

    -- `dial_other_peer`
    unfoldable pub dial_other_peer : Bytes → Handling S (Unit {0})
    dial_other_peer to_dial = do
      peer_id ← lift (peer_of to_dial)
      in_client (Client.dial w.sender peer_id to_dial)

    -- `probe_other_peer`
    unfoldable pub probe_other_peer : Bytes → Handling S (Unit {0})
    probe_other_peer to_probe = do
      peer_id ← lift (peer_of to_probe)
      in_client (Client.add_probe_address w.sender peer_id to_probe)

-- `PyrsiaNodeArgs`, as far as connecting reads it
pub record NodeArgs : Type 0 where
  pub listen_address : Bytes
  pub probe : Option Bytes
  pub peer : Option Bytes
  pub listen_only : Bool
  pub bootstrap_url : Bytes

-- HTTP, JSON and libp2p for connecting: the `peer_addrs` of the answer of the bootstrap node, if it
-- answers with JSON, and if they are an array; whether a text is an address; the peer of an address.
pub record Bootstrap : Type 0 where
  pub last_peer : Bytes → Option (Option PeerId)
  pub peer_addrs : Bytes → Option (Option (List Bytes))
  pub is_multiaddr : Bytes → Bool
  pub try_from_multiaddr : Bytes → Option PeerId

-- `load_peer_addrs`
unfoldable pub load_peer_addrs : Bootstrap → Bytes → Outcome NodeError Bytes
load_peer_addrs b peer_url = elim (b.peer_addrs peer_url) [
  | none ↦ err no_peer_addrs
  | some array ↦ elim array [
    | none ↦ err no_peer_addrs
    | some texts ↦ elim texts [
      | [] ↦ err no_peer_addrs
      | peer_addrs ∷ _ ↦ elim peer_addrs [ [] ↦ err no_peer_addrs | c ∷ cs ↦ ok (c ∷ cs) ]
    ]
  ]
]

module _ {S : Type 0} (w : World S) (b : Bootstrap) where
  abbrev probe_at : Bytes → Handling S (Option PeerId)
  probe_at address = do probe_other_peer w b.last_peer address; pure (b.try_from_multiaddr address)

  abbrev dial_at : Bytes → Handling S (Option PeerId)
  dial_at address = do dial_other_peer w b.last_peer address; pure (b.try_from_multiaddr address)

  abbrev bootstrap_at : Bytes → Handling S (Option PeerId)
  bootstrap_at url = do
    peer_addrs ← lift (load_peer_addrs b url)
    (if b.is_multiaddr peer_addrs then probe_at peer_addrs else lift (err no_multiaddr))

  -- The chain of tests of `connect_to_p2p_network`
  abbrev reach : NodeArgs → Handling S (Option PeerId)
  reach args = elim args.probe [
    | some to_probe ↦ probe_at to_probe
    | none ↦ elim args.peer [
      | some to_dial ↦ dial_at to_dial
      | none ↦ if args.listen_only then pure none else bootstrap_at args.bootstrap_url
    ]
  ]

  -- `connect_to_p2p_network`
  unfoldable pub connect_to_p2p_network : NodeArgs → Handling S (Option PeerId)
  connect_to_p2p_network args = do
    in_client w (Client.listen w.sender args.listen_address)
    reach args
