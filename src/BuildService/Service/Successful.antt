-- ===== src/BuildService/Service/Successful.antt =====
-- What `handle_successful_build` of src/build_service/service.rs queues.
use pyrsia.Base.{
  ◌≡◌, refl, sym, ap, ◌∙◌, subst, true, false, List, [], ◌∷◌, ◌++◌, Bytes, arith, inl, inr, ◌⊎◌,
  Bool-cases,
}
use pyrsia.Outcome.{Outcome, ok, err}
use mathlib.Core.List.{append-nil, append_assoc}
use pyrsia.TransparencyLog.Types.{PackageType}
use pyrsia.VerificationService.{BuildResultArtifact}
use pyrsia.BuildService.Types.{
  BuildError, BuildResult, BuildTrigger, BuildEvent, build_result, build_failed, build_failure,
}
use pyrsia.BuildService.Endpoints.{Http, download_artifact}
use pyrsia.BuildService.Service.{
  Files, System, BuildService, BuildState, get_build_path, process_each, process_artifact_urls,
  clean_up_build, handle_successful_build, enqueue,
}
use pyrsia.BuildService.Service.Stored.{
  SystemLaws, AllStored, process_each-Ends, process_each-stored, process_each-nil, built_from,
}

module _ (sys : System) (laws : SystemLaws sys) (svc : BuildService) (http : Http)
    (build_id : Bytes) (t : PackageType) (id : Bytes) where
  abbrev dir : Bytes
  dir = get_build_path svc sys build_id

  abbrev made : BuildState → BuildState
  made s = record s { files = (sys.create_dir_all dir s.files).1 }

  abbrev looped :
      List Bytes → BuildState → Outcome BuildError (List BuildResultArtifact) × BuildState
  looped urls s = process_each svc sys http build_id t id dir [] urls (made s)

  abbrev pub result_of : List BuildResultArtifact → BuildResult
  result_of artifacts = record { package_type = t; package_specific_id = id; artifacts = artifacts }

  module _ (trigger : BuildTrigger) (urls : List Bytes) (s : BuildState) where
    abbrev handled : BuildState
    handled = handle_successful_build svc sys http build_id t id trigger urls s

    handled-not_created :
        (sys.create_dir_all dir s.files).0 ≡ false
        → handled ≡ enqueue (build_failed build_id (build_failure build_id)) (made s)
    unfolding handle_successful_build
    handled-not_created created = ground (arith, created)

    handled-ok :
        (artifacts : List BuildResultArtifact)
        → (sys.create_dir_all dir s.files).0 ≡ true
        → (looped urls s).0 ≡ ok artifacts
        → handled ≡ enqueue (build_result build_id trigger (result_of artifacts)) (looped urls s).1
    unfolding handle_successful_build process_artifact_urls
    handled-ok artifacts created ends = ground (arith, created, ends)

    handled-err :
        (e : BuildError)
        → (sys.create_dir_all dir s.files).0 ≡ true
        → (looped urls s).0 ≡ err e
        → handled
          ≡ clean_up_build svc sys build_id (enqueue (build_failed build_id e) (looped urls s).1)
    unfolding handle_successful_build process_artifact_urls
    handled-err e created ends = ground (arith, created, ends)

  -- What was queued after these events: a result whose artifacts are stored, or a failure
  abbrev pub IsReported : BuildTrigger → List BuildEvent → BuildState → Type 0
  IsReported trigger queue s' =
      ((result : BuildResult) × (s'.queue ≡ queue ++ build_result build_id trigger result ∷ [])
        × (result.package_type ≡ t)
        × (result.package_specific_id ≡ id)
        × AllStored sys (get_build_path svc sys build_id) s'.files result.artifacts)
      ⊎ ((e : BuildError) × (s'.queue ≡ queue ++ build_failed build_id e ∷ []))

  -- Whichever downloads and calls of the file system fail, as long as a file that is stored without
  -- an error has its bytes, no other file is touched, and different names have different paths:
  -- exactly one event is queued for a build that succeeded, its failure or its result, and then each
  -- artifact of the result has a file in the directory of the build that is named by its hash, and
  -- whose bytes have that hash.
  pub handle_successful_build-IsReported :
      (trigger : BuildTrigger) (artifact_urls : List Bytes) (s : BuildState)
      → IsReported trigger s.queue
          (handle_successful_build svc sys http build_id t id trigger artifact_urls s)
  unfolding clean_up_build
  handle_successful_build-IsReported trigger urls s =
      elim (Bool-cases (sys.create_dir_all dir s.files).0) [
        | inr created ↦
            subst (IsReported trigger s.queue) (sym (handled-not_created trigger urls s created))
              (inr (build_failure build_id, refl))
        | inl created ↦
            let (ends, kept) =
              process_each-Ends sys laws svc http build_id t id dir urls [] (made s) tt in
            elim ends [
              | inl (artifacts, is_ok, stored) ↦
                  subst (IsReported trigger s.queue)
                    (sym (handled-ok trigger urls s artifacts created is_ok))
                    (inl (
                      result_of artifacts,
                      ap
                          (λ (q : List BuildEvent).
                            q ++ build_result build_id trigger (result_of artifacts) ∷ [])
                          kept,
                      refl,
                      refl,
                      stored,
                    ))
              | inr (e, is_err) ↦
                  subst (IsReported trigger s.queue)
                    (sym (handled-err trigger urls s e created is_err))
                    (inr (e, ap (λ (q : List BuildEvent). q ++ build_failed build_id e ∷ []) kept))
            ]
      ]

  -- Every download succeeds, with this content.
  abbrev pub Downloads : (Bytes → Bytes) → List Bytes → Type 0
  Downloads contents [] = Unit {0}
  Downloads contents (url ∷ urls) =
      (download_artifact http svc.pipeline_service url ≡ ok (contents url))
      × Downloads contents urls

  abbrev pub all_built : (Bytes → Bytes) → List Bytes → List BuildResultArtifact
  all_built contents [] = []
  all_built contents (url ∷ urls) =
      built_from sys t id (get_build_path svc sys build_id) url (contents url)
      ++ all_built contents urls

  module _ (accepts : (path bytes : Bytes) (files : Files) → (sys.store path bytes files).0 ≡ true)
      (contents : Bytes → Bytes) where
    process_each-all_built :
        (urls : List Bytes) (artifacts : List BuildResultArtifact) (s : BuildState)
        → Downloads contents urls
        → (process_each svc sys http build_id t id dir artifacts urls s).0
          ≡ ok (artifacts ++ all_built contents urls)
    process_each-all_built [] artifacts s h =
        ap (λ r. r.0) (process_each-nil sys laws svc http build_id t id dir artifacts s)
        ∙ ap ok (sym (append-nil artifacts))
    process_each-all_built (url ∷ urls) artifacts s (here, rest) =
        ap (λ r. r.0)
          (process_each-stored sys laws svc http build_id t id dir url urls artifacts s
            (contents url) here (accepts _ _ _))
        ∙ process_each-all_built urls (artifacts ++ built_from sys t id dir url (contents url)) _
            rest
        ∙ ap ok (append_assoc artifacts (built_from sys t id dir url (contents url)) _)

    -- If the directory can be made, every download succeeds and every file is stored, then the result
    -- is queued, with the artifacts of all the addresses in their order: for each of the names that an
    -- artifact goes by, the hash of what was downloaded and its file.
    pub handle_successful_build-result :
        (trigger : BuildTrigger) (urls : List Bytes) (s : BuildState)
        → (sys.create_dir_all (get_build_path svc sys build_id) s.files).0 ≡ true
        → Downloads contents urls
        → let s' = handle_successful_build svc sys http build_id t id trigger urls s in
          (s'.queue
            ≡ s.queue ++ build_result build_id trigger (result_of (all_built contents urls)) ∷ [])
          × AllStored sys (get_build_path svc sys build_id) s'.files (all_built contents urls)
    handle_successful_build-result trigger urls s created downloads =
        let e : (looped urls s).0 ≡ ok (all_built contents urls) =
          process_each-all_built urls [] (made s) downloads in
        let (ends, kept) =
          process_each-Ends sys laws svc http build_id t id dir urls [] (made s) tt in
        let result = build_result build_id trigger (result_of (all_built contents urls)) in
        subst
          (λ (s' : BuildState).
            (s'.queue ≡ s.queue ++ result ∷ [])
            × AllStored sys dir s'.files (all_built contents urls))
          (sym (handled-ok trigger urls s (all_built contents urls) created e))
          (
            ap (λ (q : List BuildEvent). q ++ result ∷ []) kept,
            elim ends [
              | inl (artifacts, is_ok, stored) ↦
                  subst (AllStored sys dir (looped urls s).1.files) (ground (arith, is_ok, e))
                    stored
              | inr (error, is_err) ↦ absurd (ground (arith, is_err, e))
            ],
          )
