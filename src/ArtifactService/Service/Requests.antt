-- ===== src/ArtifactService/Service/Requests.antt =====
-- Which node src/artifact_service/service.rs turns to for a build.
use pyrsia.Base.{
  ◌≡◌, refl, Bool, true, false, some, none, List, [], ◌∷◌, Bytes, arith, inl, inr, ◌⊎◌, Bool-cases,
  get_last?, if◌then◌else◌,
}
use pyrsia.Outcome.{Outcome, ok, err, panicked, map_err}
use pyrsia.TransparencyLog.Types.{PackageType}
use pyrsia.TransparencyLog.Database.{bytes_eq}
use pyrsia.TransparencyLog.Authorized.{get_authorized_nodes}
use pyrsia.TransparencyLog.Reading.{verify_package_can_be_added}
use pyrsia.Network.Types.{PeerId}
use pyrsia.Network.Client
use pyrsia.BuildService.Types.{BuildError, initialization_failed, artifact_already_exists}
use pyrsia.ArtifactService.Service.Verified.{Outcome-cases}
use pyrsia.ArtifactService.Service.{
  ArtifactService, World, find_or_last, request_build, get_build_status,
}

-- The local peer is among these.
abbrev pub has_local : PeerId → List PeerId → Bool
has_local local [] = false
has_local local (peer ∷ peers) = if bytes_eq local peer then true else has_local local peers

find_or_last-nil : (local : PeerId) → find_or_last local [] ≡ none
unfolding find_or_last
find_or_last-nil local = refl

find_or_last_lem :
    (local : PeerId) (peers : List PeerId)
    → (peers ≡ [])
      ⊎ ((p : PeerId) × (find_or_last local peers ≡ some p)
          × (bytes_eq local p ≡ true)
          × (has_local local peers ≡ true))
      ⊎ ((p : PeerId) × (find_or_last local peers ≡ some p)
          × (bytes_eq local p ≡ false)
          × (has_local local peers ≡ false)
          × (get_last? peers ≡ some p))
unfolding find_or_last
find_or_last_lem local [] = inl refl
find_or_last_lem local (x ∷ []) = elim (Bool-cases (bytes_eq local x)) [
  | inl same ↦ inr (inl (x, ground (arith, same), same, ground (arith, same)))
  | inr other ↦ inr (inr (x, ground (arith, other), other, ground (arith, other), refl))
]
find_or_last_lem local (x ∷ y ∷ ys) = elim (Bool-cases (bytes_eq local x)) [
  | inl same ↦ inr (inl (x, ground (arith, same), same, ground (arith, same)))
  | inr other ↦ elim (find_or_last_lem local (y ∷ ys)) [
    | inl empty ↦ absurd (cc)
    | inr (inl (p, found, same, here)) ↦
        inr (inl (p, ground (arith, other, found), same, ground (arith, other, here)))
    | inr (inr (p, found, differs, nowhere, last)) ↦
        inr (inr (p, ground (arith, other, found), differs, ground (arith, other, nowhere), last))
  ]
]

module _ {S : Type 0} (w : World S) (t : PackageType) (id : Bytes) (s : ArtifactService S) where
  -- The answer when a package can be added, and when it is refused
  abbrev pub checked :
      Outcome BuildError Bytes × ArtifactService S → Outcome BuildError Bytes × ArtifactService S
  checked answer = elim (verify_package_can_be_added w.db t id s.logs.table) [
    | ok _ ↦ answer
    | err _ ↦ (err artifact_already_exists, s)
    | panicked ↦ (panicked, s)
  ]

  -- The answer of the client for another node
  abbrev pub asked : PeerId → Outcome BuildError Bytes × ArtifactService S
  asked peer =
      let (r, network) = Client.request_build w.sender peer t id s.network in
      (map_err (λ _. initialization_failed) r, record s { network = network })

  asks-local :
      (nodes : List PeerId) (p : PeerId)
      → get_authorized_nodes w.db w.from_str s.logs.table ≡ ok nodes
      → find_or_last w.local_peer_id nodes ≡ some p
      → bytes_eq w.local_peer_id p ≡ true
      → request_build w t id s ≡ checked (w.start_build t id, s)
  unfolding request_build
  asks-local nodes p at found same =
      elim (Outcome-cases (verify_package_can_be_added w.db t id s.logs.table)) [
        | inl (u, e) ↦ ground (arith, at, found, same, e)
        | inr (inl (error, e)) ↦ ground (arith, at, found, same, e)
        | inr (inr e) ↦ ground (arith, at, found, same, e)
      ]

  asks-other :
      (nodes : List PeerId) (p : PeerId)
      → get_authorized_nodes w.db w.from_str s.logs.table ≡ ok nodes
      → find_or_last w.local_peer_id nodes ≡ some p
      → bytes_eq w.local_peer_id p ≡ false
      → request_build w t id s ≡ checked (asked p)
  unfolding request_build
  asks-other nodes p at found differs =
      elim (Outcome-cases (verify_package_can_be_added w.db t id s.logs.table)) [
        | inl (u, e) ↦ ground (arith, at, found, differs, e)
        | inr (inl (error, e)) ↦ ground (arith, at, found, differs, e)
        | inr (inr e) ↦ ground (arith, at, found, differs, e)
      ]

  -- With no authorised node, `request_build` fails; with the local node among them, it starts the
  -- build there and sends nothing; otherwise it asks the last authorised node over the network, and
  -- no other. In both cases it does so only for a package that can be added to the transparency log.
  pub request_build_lem :
      (nodes : List PeerId)
      → get_authorized_nodes w.db w.from_str s.logs.table ≡ ok nodes
      → ((nodes ≡ []) × (request_build w t id s ≡ (err initialization_failed, s)))
        ⊎ ((has_local w.local_peer_id nodes ≡ true)
            × (request_build w t id s ≡ checked (w.start_build t id, s)))
        ⊎ ((peer : PeerId) × (has_local w.local_peer_id nodes ≡ false)
            × (get_last? nodes ≡ some peer)
            × (request_build w t id s ≡ checked (asked peer)))
  unfolding request_build
  request_build_lem nodes at = elim (find_or_last_lem w.local_peer_id nodes) [
    | inl empty ↦ inl (empty, ground (arith, at, empty, find_or_last-nil w.local_peer_id))
    | inr (inl (p, found, same, here)) ↦ inr (inl (here, asks-local nodes p at found same))
    | inr (inr (p, found, differs, nowhere, last)) ↦
        inr (inr (p, nowhere, last, asks-other nodes p at found differs))
  ]

-- With no authorised node, asking for the status of a build panics, where asking for a build is an
-- error.
pub get_build_status-panicked :
    {S : Type 0} (w : World S) (t : PackageType) (id build_id : Bytes) (s : ArtifactService S)
    → get_authorized_nodes w.db w.from_str s.logs.table ≡ ok []
    → (get_build_status w build_id s ≡ (panicked, s))
      × (request_build w t id s ≡ (err initialization_failed, s))
unfolding get_build_status request_build find_or_last
get_build_status-panicked w t id build_id s nobody =
    (ground (arith, nobody), ground (arith, nobody))
