-- ===== src/BuildService/Service/Stored.antt =====
-- What src/build_service/service.rs has stored when it hands on the result of a build.
use pyrsia.Base.{
  ◌≡◌, ◌≢◌, refl, sym, ap, ◌∙◌, subst, true, false, some, List, [], ◌∷◌, ◌++◌, Bytes, arith, inl,
  inr, ◌⊎◌, Bool-cases,
}
use pyrsia.Outcome.{Outcome, ok, err}
use pyrsia.TransparencyLog.Types.{PackageType}
use pyrsia.TransparencyLog.Database.{bytes_eq, bytes_eq_iff}
use pyrsia.VerificationService.{BuildResultArtifact}
use pyrsia.BuildService.Types.{BuildError, BuildEvent, build_failure}
use pyrsia.BuildService.Names.{artifact_specific_ids}
use pyrsia.BuildService.Endpoints.{Http, download_artifact, download_artifact-total}
use pyrsia.BuildService.Service.{
  Files, System, BuildService, BuildState, calculate_hash, hash_and_store_data, built_artifacts,
  process_each,
}

-- As documented: different hexadecimal names in a directory have different paths, and a file that was
-- stored has these bytes; in any case no other file is touched.
pub record SystemLaws (sys : System) : Type 0 where
  pub join_names :
      (dir a b : Bytes)
      → sys.join dir (sys.hex a) ≡ sys.join dir (sys.hex b)
      → sys.hex a ≡ sys.hex b
  pub stores :
      (path bytes : Bytes) (files : Files)
      → (sys.store path bytes files).0 ≡ true
      → (sys.store path bytes files).1 path ≡ some bytes
  pub others :
      (path bytes : Bytes) (files : Files) (other : Bytes)
      → other ≢ path
      → (sys.store path bytes files).1 other ≡ files other

module _ (sys : System) where
  -- The file of an artifact, under its hash in the directory, has bytes with that hash.
  abbrev pub IsStored : Bytes → Files → BuildResultArtifact → Type 0
  IsStored dir files a =
      (bytes : Bytes) × (files a.artifact_location ≡ some bytes)
      × (calculate_hash sys bytes ≡ a.artifact_hash)
      × (a.artifact_location ≡ sys.join dir a.artifact_hash)

  abbrev pub AllStored : Bytes → Files → List BuildResultArtifact → Type 0
  AllStored dir files [] = Unit {0}
  AllStored dir files (x ∷ xs) = IsStored dir files x × AllStored dir files xs

  AllStored-append :
      (dir : Bytes) (files : Files) (xs ys : List BuildResultArtifact)
      → AllStored dir files xs
      → AllStored dir files ys
      → AllStored dir files (xs ++ ys)
  AllStored-append dir files [] ys h h' = h'
  AllStored-append dir files (x ∷ xs) ys (h, hs) h' = (h, AllStored-append dir files xs ys hs h')

  AllStored-built_artifacts :
      (dir bytes : Bytes) (files : Files) (ids : List Bytes)
      → let hash = calculate_hash sys bytes in
        files (sys.join dir hash) ≡ some bytes
        → AllStored dir files (built_artifacts (sys.join dir hash) hash ids)
  unfolding built_artifacts
  AllStored-built_artifacts dir bytes files [] at = tt
  AllStored-built_artifacts dir bytes files (id ∷ ids) at =
      ((bytes, at, refl, refl), AllStored-built_artifacts dir bytes files ids at)

  -- The artifacts that an address gives whose bytes are these
  abbrev pub built_from : PackageType → Bytes → Bytes → Bytes → Bytes → List BuildResultArtifact
  built_from t id dir url bytes =
      let hash = calculate_hash sys bytes in
      built_artifacts (sys.join dir hash) hash (artifact_specific_ids t id url hash)

  module _ (laws : SystemLaws sys) where
    -- Storing more keeps what is stored: where it overwrites, the hash is the same.
    IsStored-store :
        (dir bytes : Bytes) (files : Files) (a : BuildResultArtifact)
        → let (stored, files') = sys.store (sys.join dir (calculate_hash sys bytes)) bytes files in
          stored ≡ true → IsStored dir files a → IsStored dir files' a
    unfolding calculate_hash
    IsStored-store dir bytes files a ok_stored (old, at, hash, location) =
        let path = sys.join dir (calculate_hash sys bytes) in
        elim (Bool-cases (bytes_eq a.artifact_location path)) [
          | inl same ↦
              let e = (bytes_eq_iff a.artifact_location path).0 same in
              let names =
                laws.join_names dir (sys.sha256 old) (sys.sha256 bytes)
                  (ap (sys.join dir) hash ∙ sym location ∙ e) in
              let stored = laws.stores path bytes files ok_stored in
              (bytes, ap (sys.store path bytes files).1 e ∙ stored, sym names ∙ hash, location)
          | inr other ↦
              let apart : a.artifact_location ≢ path =
                λ e. absurd (ground (arith, other, (bytes_eq_iff a.artifact_location path).1 e)) in
              (old, laws.others path bytes files a.artifact_location apart ∙ at, hash, location)
        ]

    AllStored-store :
        (dir bytes : Bytes) (files : Files) (artifacts : List BuildResultArtifact)
        → let (stored, files') = sys.store (sys.join dir (calculate_hash sys bytes)) bytes files in
          stored ≡ true → AllStored dir files artifacts → AllStored dir files' artifacts
    AllStored-store dir bytes files [] ok_stored h = tt
    AllStored-store dir bytes files (a ∷ artifacts) ok_stored (h, hs) = (
      IsStored-store dir bytes files a ok_stored h,
      AllStored-store dir bytes files artifacts ok_stored hs,
    )

    -- How the loop over the addresses ends: with artifacts that are stored, or with an error
    abbrev pub Ends :
        Bytes
        → List BuildEvent
        → Outcome BuildError (List BuildResultArtifact) × BuildState
        → Type 0
    Ends dir queue (r, s') =
        (((artifacts : List BuildResultArtifact) × (r ≡ ok artifacts)
            × AllStored dir s'.files artifacts)
          ⊎ ((e : BuildError) × (r ≡ err e)))
        × (s'.queue ≡ queue)

    module _ (svc : BuildService) (http : Http) (build_id : Bytes) (t : PackageType)
        (id dir : Bytes) where
      process_each-err :
          (url : Bytes) (urls : List Bytes) (artifacts : List BuildResultArtifact) (s : BuildState)
          (e : BuildError)
          → download_artifact http svc.pipeline_service url ≡ err e
          → process_each svc sys http build_id t id dir artifacts (url ∷ urls) s ≡ (err e, s)
      unfolding process_each
      process_each-err url urls artifacts s e at = ground (arith, at)

      abbrev pub after : Bytes → BuildState → BuildState
      after bytes s = record s {
        files = (sys.store (sys.join dir (calculate_hash sys bytes)) bytes s.files).1;
      }

      process_each-failed :
          (url : Bytes) (urls : List Bytes) (artifacts : List BuildResultArtifact) (s : BuildState)
          (bytes : Bytes)
          → download_artifact http svc.pipeline_service url ≡ ok bytes
          → (sys.store (sys.join dir (calculate_hash sys bytes)) bytes s.files).0 ≡ false
          → process_each svc sys http build_id t id dir artifacts (url ∷ urls) s
            ≡ (err (build_failure build_id), after bytes s)
      unfolding process_each hash_and_store_data
      process_each-failed url urls artifacts s bytes at failed = ground (arith, at, failed)

      pub process_each-stored :
          (url : Bytes) (urls : List Bytes) (artifacts : List BuildResultArtifact) (s : BuildState)
          (bytes : Bytes)
          → download_artifact http svc.pipeline_service url ≡ ok bytes
          → (sys.store (sys.join dir (calculate_hash sys bytes)) bytes s.files).0 ≡ true
          → process_each svc sys http build_id t id dir artifacts (url ∷ urls) s
            ≡ process_each svc sys http build_id t id dir
                (artifacts ++ built_from t id dir url bytes)
                urls
                (after bytes s)
      unfolding process_each hash_and_store_data
      process_each-stored url urls artifacts s bytes at stored = ground (arith, at, stored)

      pub process_each-nil :
          (artifacts : List BuildResultArtifact) (s : BuildState)
          → process_each svc sys http build_id t id dir artifacts [] s ≡ (ok artifacts, s)
      unfolding process_each
      process_each-nil artifacts s = refl

      pub process_each-Ends :
          (urls : List Bytes) (artifacts : List BuildResultArtifact) (s : BuildState)
          → AllStored dir s.files artifacts
          → Ends dir s.queue (process_each svc sys http build_id t id dir artifacts urls s)
      process_each-Ends [] artifacts s h =
          subst (Ends dir s.queue) (sym (process_each-nil artifacts s))
            (inl (artifacts, refl, h), refl)
      process_each-Ends (url ∷ urls) artifacts s h =
          elim (download_artifact-total http svc.pipeline_service url) [
            | inr (e, at) ↦
                subst (Ends dir s.queue) (sym (process_each-err url urls artifacts s e at))
                  (inr (e, refl), refl)
            | inl (bytes, at) ↦
                let path = sys.join dir (calculate_hash sys bytes) in
                elim (Bool-cases (sys.store path bytes s.files).0) [
                  | inr failed ↦
                      subst (Ends dir s.queue)
                        (sym (process_each-failed url urls artifacts s bytes at failed))
                        (inr (build_failure build_id, refl), refl)
                  | inl stored ↦
                      let here =
                        AllStored-built_artifacts dir bytes (after bytes s).files
                          (artifact_specific_ids t id url (calculate_hash sys bytes))
                          (laws.stores path bytes s.files stored) in
                      let before = AllStored-store dir bytes s.files artifacts stored h in
                      subst (Ends dir s.queue)
                        (sym (process_each-stored url urls artifacts s bytes at stored))
                        (process_each-Ends urls (artifacts ++ built_from t id dir url bytes)
                          (after bytes s)
                          (AllStored-append dir (after bytes s).files artifacts
                            (built_from t id dir url bytes) before here))
                ]
          ]
