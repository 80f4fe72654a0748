-- ===== src/ArtifactService/Service/Verified.antt =====
-- What `get_artifact` of src/artifact_service/service.rs hands out, and what it keeps.
use pyrsia.Base.{
  ◌≡◌, refl, sym, ap, ◌∙◌, Option, some, none, Bytes, arith, inl, inr, if◌then◌else◌, ◌↔◌, ◌⊎◌,
  Bool-cases,
}
use pyrsia.Outcome.{Outcome, ok, err, panicked}
use pyrsia.Exec.{Exec, lift, ◌>>=◌, ◌>>◌}
use pyrsia.TransparencyLog.Types.{TransparencyLog, PackageType, invalid_hash}
use pyrsia.TransparencyLog.Database.{bytes_eq, bytes_eq_iff}
use pyrsia.TransparencyLog.Reading
use pyrsia.Network.Types.{PeerId}
use pyrsia.Network.Client.{list_providers, request_artifact}
use pyrsia.Network.Client.IdlePeer.{get_idle_peer}
use pyrsia.ArtifactService.Storage.{Files, artifact_file_path, pull_artifact}
use pyrsia.ArtifactService.Service.{
  ArtifactService, ArtifactError, World, log_failed, put_artifact, get_artifact_locally, fetch,
  verify_artifact, get_artifact, get_artifact_from_peer, get_artifact_from_peers, not_available,
  on_network,
}

pub Outcome-cases :
    {E A : Type 0}
    → (r : Outcome E A) → ((a : A) × (r ≡ ok a)) ⊎ ((e : E) × (r ≡ err e)) ⊎ (r ≡ panicked)
Outcome-cases (ok a) = inl (a, refl)
Outcome-cases (err e) = inr (inl (e, refl))
Outcome-cases panicked = inr (inr refl)

module _ {S : Type 0} (w : World S) where
  module _ (artifact_id bytes : Bytes) where
    -- If these bytes are what comes out, then they are in the store.
    abbrev pub Kept : Outcome ArtifactError Bytes × ArtifactService S → Type 0
    Kept (r, s) = r ≡ ok bytes → pull_artifact w.sys w.storage artifact_id s.files ≡ ok bytes

    Kept-bind :
        {A : Type 0} (m : Exec (ArtifactService S) ArtifactError A)
        (f : A → Exec (ArtifactService S) ArtifactError Bytes) (s : ArtifactService S)
        → ((a : A) (s' : ArtifactService S) → Kept (f a s'))
        → Kept ((m >>= f) s)
    Kept-bind {A = A} m f s kept = by_end (m s).0 (m s).1
      where
        by_end :
            (r : Outcome ArtifactError A) (s' : ArtifactService S)
            → Kept (elim r [ ok a ↦ f a s' | err e ↦ (err e, s') | panicked ↦ (panicked, s') ])
        by_end (ok a) s' = kept a s'
        by_end (err e) s' = λ h. absurd (cc)
        by_end panicked s' = λ h. absurd (cc)

    get_artifact_locally-Kept :
        (s : ArtifactService S) → Kept (get_artifact_locally w artifact_id s)
    unfolding get_artifact_locally
    get_artifact_locally-Kept s =
        elim (Outcome-cases (pull_artifact w.sys w.storage artifact_id s.files)) [
          | inl (local, at) ↦ λ h. ground (arith, at, h)
          | inr (inl (error, at)) ↦ λ h. absurd (ground (arith, at, h))
          | inr (inr at) ↦ λ h. absurd (ground (arith, at, h))
        ]

    get_artifact_from_peer-Kept :
        (peer_id : PeerId) (s : ArtifactService S)
        → Kept (get_artifact_from_peer w peer_id artifact_id s)
    unfolding get_artifact_from_peer
    get_artifact_from_peer-Kept peer_id s =
        Kept-bind (on_network (request_artifact w.sender peer_id artifact_id))
          (λ artifact. put_artifact w artifact_id artifact >> get_artifact_locally w artifact_id) s
          (λ artifact s1.
            Kept-bind (put_artifact w artifact_id artifact)
              (λ _. get_artifact_locally w artifact_id) s1 (λ u s2. get_artifact_locally-Kept s2))

    abbrev ask : Option PeerId → Exec (ArtifactService S) ArtifactError Bytes
    ask (some peer_id) = get_artifact_from_peer w peer_id artifact_id
    ask none = lift (err (not_available artifact_id))

    ask-Kept : (idle : Option PeerId) (s : ArtifactService S) → Kept (ask idle s)
    ask-Kept (some peer_id) s = get_artifact_from_peer-Kept peer_id s
    ask-Kept none s = λ h. absurd (cc)

    get_artifact_from_peers-Kept :
        (s : ArtifactService S) → Kept (get_artifact_from_peers w artifact_id s)
    unfolding get_artifact_from_peers
    get_artifact_from_peers-Kept s =
        Kept-bind (on_network (list_providers w.sender artifact_id))
          (λ providers. on_network (get_idle_peer w.sender w.floats providers) >>= ask) s
          (λ providers s1.
            Kept-bind (on_network (get_idle_peer w.sender w.floats providers)) ask s1 ask-Kept)

    -- Bytes that were fetched, from the store or from a peer, are in the store.
    pub fetch-Kept : (s : ArtifactService S) → Kept (fetch w artifact_id s)
    unfolding fetch
    fetch-Kept s =
        by_end (get_artifact_locally w artifact_id s).0 (get_artifact_locally w artifact_id s).1
          (get_artifact_locally-Kept s)
      where
        by_end :
            (r : Outcome ArtifactError Bytes) (s' : ArtifactService S)
            → Kept (r, s')
            → Kept (elim r [
              | ok artifact ↦ (ok artifact, s')
              | err _ ↦ get_artifact_from_peers w artifact_id s'
              | panicked ↦ (panicked, s')
            ])
        by_end (ok a) s' kept = kept
        by_end (err e) s' kept = get_artifact_from_peers-Kept s'
        by_end panicked s' kept = kept

  pub pull_artifact-same :
      (artifact_id : Bytes) (files files' : Files)
      → files (artifact_file_path w.sys w.storage artifact_id)
        ≡ files' (artifact_file_path w.sys w.storage artifact_id)
      → pull_artifact w.sys w.storage artifact_id files
        ≡ pull_artifact w.sys w.storage artifact_id files'
  unfolding pull_artifact
  pull_artifact-same artifact_id files files' same = ground (arith, same)

  pub fetch-local :
      (artifact_id bytes : Bytes) (s : ArtifactService S)
      → pull_artifact w.sys w.storage artifact_id s.files ≡ ok bytes
      → fetch w artifact_id s ≡ (ok bytes, s)
  unfolding fetch get_artifact_locally
  fetch-local artifact_id bytes s at = ground (arith, at)

  abbrev pub hash_of : Bytes → Bytes
  hash_of bytes = w.hex (w.sha256 bytes)

  module _ (t : PackageType) (said : Bytes) (log : TransparencyLog) (s : ArtifactService S)
      (at : Reading.get_artifact w.db t said s.logs.table ≡ ok log) where
    pub get_artifact-fetched :
        (bytes : Bytes)
        → (fetch w log.artifact_id s).0 ≡ ok bytes
        → get_artifact w t said s ≡ (
          if bytes_eq log.artifact_hash (hash_of bytes)
              then ok bytes
              else err (
                  log_failed (
                    invalid_hash log.package_specific_artifact_id
                      (hash_of bytes)
                      log.artifact_hash)),
          (fetch w log.artifact_id s).1,
        )
    unfolding get_artifact verify_artifact
    get_artifact-fetched bytes found =
        elim (Bool-cases (bytes_eq log.artifact_hash (hash_of bytes))) [
          | inl same ↦ ground (arith, at, found, same)
          | inr different ↦ ground (arith, at, found, different)
        ]

    get_artifact-failed :
        (e : ArtifactError)
        → (fetch w log.artifact_id s).0 ≡ err e
        → (get_artifact w t said s).0 ≡ err e
    unfolding get_artifact
    get_artifact-failed e failed = ground (arith, at, failed)

    get_artifact-panicked :
        (fetch w log.artifact_id s).0 ≡ panicked → (get_artifact w t said s).0 ≡ panicked
    unfolding get_artifact
    get_artifact-panicked panics = ground (arith, at, panics)

    -- For an artifact that the transparency log has: whatever the store holds and whatever peers send,
    -- `get_artifact` hands out some bytes exactly when these were found and their hash is that of
    -- the log.
    pub get_artifact_verified :
        (bytes : Bytes)
        → ((get_artifact w t said s).0 ≡ ok bytes)
          ↔ (((fetch w log.artifact_id s).0 ≡ ok bytes) × (hash_of bytes ≡ log.artifact_hash))
    get_artifact_verified bytes = elim (Outcome-cases (fetch w log.artifact_id s).0) [
      | inl (found, e) ↦ elim (Bool-cases (bytes_eq log.artifact_hash (hash_of found))) [
        | inl same ↦
            let equal = (bytes_eq_iff log.artifact_hash (hash_of found)).0 same in
            let answer : (get_artifact w t said s).0 ≡ ok found =
              ap (λ r. r.0) (get_artifact-fetched found e) ∙ ground (arith, same) in
            (
              (λ r.
                  let this : found ≡ bytes = ground (arith, r, answer) in
                  (e ∙ ap ok this, sym (ap hash_of this) ∙ sym equal)),
              (λ (f, _). let this : found ≡ bytes = ground (arith, e, f) in answer ∙ ap ok this),
            )
        | inr different ↦ (
          (λ r.
              absurd (ground (arith, r, ap (λ x. x.0) (get_artifact-fetched found e), different))),
          (λ (f, h).
              let this : found ≡ bytes = ground (arith, e, f) in
              absurd (
                ground (
                  arith,
                  different,
                  (bytes_eq_iff log.artifact_hash (hash_of found)).1
                      (sym h ∙ sym (ap hash_of this)),
                ))),
        )
      ]
      | inr (inl (error, e)) ↦ (
        (λ r. absurd (ground (arith, r, get_artifact-failed error e))),
        (λ (f, _). absurd (ground (arith, f, e))),
      )
      | inr (inr e) ↦ (
        (λ r. absurd (ground (arith, r, get_artifact-panicked e))),
        (λ (f, _). absurd (ground (arith, f, e))),
      )
    ]
