-- ===== src/VerificationService/Collecting.antt =====
-- How the artifacts of a package are collected by src/verification_service/service.rs until the
-- build of the package starts.
use pyrsia.Base.{
  ℕ, ◌+◌, ◌<◌, ◌≡◌, ◌^◌, ◌∙◌, refl, ap, true, false, Option, none, some, List, [], ◌∷◌, ◌++◌, Bytes,
  arith, length, ◌==◌, if◌then◌else◌, length-append,
}
use mathlib.Core.List.{append_assoc}
use pyrsia.Outcome.{Outcome, ok}
use pyrsia.TransparencyLog.Types.{TransparencyLog, PackageType, docker, maven2, same_type}
use pyrsia.TransparencyLog.Database.{bytes_eq, bytes_eq_iff}
use pyrsia.VerificationService.{
  VerificationError, Package, VerificationInfo, VerificationService, same_package, set, push_info,
  start_build, collect, verify_add_artifact,
}

-- A request: the log that asks for an artifact, and the channel for the answer
abbrev pub Request : Type 0
Request = TransparencyLog × ℕ

-- Requests one after another, with the answers in order
unfoldable pub verify_each :
    (Package → Option Bytes)
    → List Request
    → VerificationService
    → List (Outcome VerificationError (Option Bytes)) × VerificationService
verify_each build [] s = ([], s)
verify_each build ((log, sender) ∷ requests) s =
    let (answer, s1) = verify_add_artifact build log sender s in
    let (answers, s2) = verify_each build requests s1 in (answer ∷ answers, s2)

abbrev pub info_of : Request → VerificationInfo
info_of (log, sender) = record {
  sender = sender;
  artifact_specific_id = log.package_specific_artifact_id;
  artifact_hash = log.artifact_hash;
}

abbrev pub infos_of : List Request → List VerificationInfo
infos_of [] = []
infos_of (request ∷ requests) = info_of request ∷ infos_of requests

-- The requests are for artifacts of the package, which has `n` of them.
abbrev pub IsFor : Package → ℕ → List Request → Type 0
IsFor pkg n [] = Unit {0}
IsFor pkg n ((log, _) ∷ requests) =
    (log.package_type ≡ some pkg.package_type)
    × (log.package_specific_id ≡ pkg.package_specific_id)
    × (log.num_artifacts ≡ n)
    × IsFor pkg n requests

-- "Nothing yet" for each request but the last, and the build for that one
abbrev pub waiting : Bytes → List Request → List (Outcome VerificationError (Option Bytes))
waiting build_id [] = []
waiting build_id (_ ∷ []) = ok (some build_id) ∷ []
waiting build_id (_ ∷ request ∷ requests) = ok none ∷ waiting build_id (request ∷ requests)

abbrev held : Option (List VerificationInfo) → List VerificationInfo
held none = []
held (some infos) = infos

same_type_refl : (t : PackageType) → same_type t t ≡ true
same_type_refl docker = refl
same_type_refl maven2 = refl

same_package_refl : (pkg : Package) → same_package pkg pkg ≡ true
unfolding same_package
same_package_refl pkg = ground (
  arith,
  same_type_refl pkg.package_type,
  bytes_eq_iff pkg.package_specific_id pkg.package_specific_id,
)

push_info_lem :
    (info : VerificationInfo) (infos : Option (List VerificationInfo))
    → length (held infos) + 1 < 2 ^ 32
    → push_info info infos ≡ (held infos ++ info ∷ [], length (held infos) + 1)
unfolding push_info
push_info_lem info none small = refl
push_info_lem info (some infos) small = ground (arith, length-append infos (info ∷ []))

collect_lem :
    (build : Package → Option Bytes) (pkg : Package) (info : VerificationInfo) (n : ℕ)
    (s : VerificationService)
    → length (held (s.pending_info pkg)) + 1 < 2 ^ 32
    → collect build pkg info n s ≡ (
        let s' = record s {
          pending_info =
              set same_package pkg (some (held (s.pending_info pkg) ++ info ∷ [])) s.pending_info;
        } in
        if length (held (s.pending_info pkg)) + 1 == n
        then start_build build pkg s'
        else (ok none, s'))
unfolding collect
collect_lem build pkg info n s small = rw (push_info_lem info (s.pending_info pkg) small) refl

verify_add_artifact_lem :
    (build : Package → Option Bytes) (pkg : Package) (log : TransparencyLog) (sender : ℕ)
    (s : VerificationService)
    → log.package_type ≡ some pkg.package_type
    → log.package_specific_id ≡ pkg.package_specific_id
    → verify_add_artifact build log sender s
      ≡ collect build pkg (info_of (log, sender)) log.num_artifacts s
unfolding verify_add_artifact
verify_add_artifact_lem build pkg log sender s of_type of_id = rw (of_type, of_id) refl

start_build_lem :
    (build : Package → Option Bytes) (pkg : Package) (build_id : Bytes)
    (infos : List VerificationInfo) (s : VerificationService)
    → s.pending_info pkg ≡ some infos
    → build pkg ≡ some build_id
    → start_build build pkg s ≡ (
      ok (some build_id),
      record s {
        pending_info = set same_package pkg none s.pending_info;
        verifying_info = set bytes_eq build_id (some infos) s.verifying_info;
      },
    )
unfolding start_build
start_build_lem build pkg build_id infos s e b = rw (start_build, e, b) refl

-- The build of the package has started with these artifacts, and nothing else has changed.
abbrev pub IsStarted :
    Bytes → Package → List VerificationInfo → VerificationService → VerificationService → Type 0
IsStarted build_id pkg infos s s' =
    (s'.verifying_info build_id ≡ some infos)
    × (s'.pending_info pkg ≡ none)
    × ((q : Package) → same_package pkg q ≡ false → s'.pending_info q ≡ s.pending_info q)
    × ((b : Bytes) → bytes_eq build_id b ≡ false → s'.verifying_info b ≡ s.verifying_info b)
    × (s'.sent ≡ s.sent)

module _ (build : Package → Option Bytes) (pkg : Package) (build_id : Bytes) (n : ℕ)
    (built : build pkg ≡ some build_id) (small : n < 2 ^ 32) where
  last_request :
      (log : TransparencyLog) (sender : ℕ) (s : VerificationService)
      → log.package_type ≡ some pkg.package_type
      → log.package_specific_id ≡ pkg.package_specific_id
      → log.num_artifacts ≡ n
      → length (held (s.pending_info pkg)) + 1 ≡ n
      → (s' : VerificationService) × (verify_add_artifact build log sender s
          ≡ (ok (some build_id), s'))
        × IsStarted build_id pkg (held (s.pending_info pkg) ++ info_of (log, sender) ∷ []) s s'
  last_request log sender s t i count full =
      let infos = held (s.pending_info pkg) ++ info_of (log, sender) ∷ [] in
      let s1 : VerificationService = record s {
        pending_info = set same_package pkg (some infos) s.pending_info;
      } in
      let same = same_package_refl pkg in
      let there : s1.pending_info pkg ≡ some infos = ground (arith, same) in
      let s2 : VerificationService = record s1 {
        pending_info = set same_package pkg none s1.pending_info;
        verifying_info = set bytes_eq build_id (some infos) s1.verifying_info;
      } in
      let collected =
        collect_lem build pkg (info_of (log, sender)) log.num_artifacts s (omega arith) in
      let enough : (length (held (s.pending_info pkg)) + 1 == log.num_artifacts) ≡ true =
        ground (arith, count, full) in
      let started = start_build_lem build pkg build_id infos s1 there built in
      (
        s2,
        verify_add_artifact_lem build pkg log sender s t i ∙ (collected ∙ (rw enough started)),
        (
          ground (arith, bytes_eq_iff build_id build_id),
          ground (arith, same),
          (λ q apart. ground (arith, apart)),
          (λ b apart. ground (arith, apart)),
          refl,
        ),
      )

  early_request :
      (log : TransparencyLog) (sender : ℕ) (s : VerificationService)
      → log.package_type ≡ some pkg.package_type
      → log.package_specific_id ≡ pkg.package_specific_id
      → log.num_artifacts ≡ n
      → length (held (s.pending_info pkg)) + 1 < n
      → (s' : VerificationService) × (verify_add_artifact build log sender s ≡ (ok none, s'))
        × (s'.pending_info pkg ≡ some (held (s.pending_info pkg) ++ info_of (log, sender) ∷ []))
        × ((q : Package) → same_package pkg q ≡ false → s'.pending_info q ≡ s.pending_info q)
        × (s'.verifying_info ≡ s.verifying_info)
        × (s'.sent ≡ s.sent)
  early_request log sender s t i count more =
      let infos = held (s.pending_info pkg) ++ info_of (log, sender) ∷ [] in
      let s1 : VerificationService = record s {
        pending_info = set same_package pkg (some infos) s.pending_info;
      } in
      let same = same_package_refl pkg in
      let collected =
        collect_lem build pkg (info_of (log, sender)) log.num_artifacts s (omega arith) in
      let early : (length (held (s.pending_info pkg)) + 1 == log.num_artifacts) ≡ false =
        ground (arith, count, more) in
      (
        s1,
        verify_add_artifact_lem build pkg log sender s t i ∙ (collected ∙ (rw early refl)),
        ground (arith, same),
        (λ q apart. ground (arith, apart)),
        refl,
        refl,
      )

  pub verify_each-IsStarted :
      (requests : List Request) (s : VerificationService)
      → IsFor pkg n requests
      → 0 < length requests
      → length (held (s.pending_info pkg)) + length requests ≡ n
      → (s' : VerificationService) × (verify_each build requests s
          ≡ (waiting build_id requests, s'))
        × IsStarted build_id pkg (held (s.pending_info pkg) ++ infos_of requests) s s'
  unfolding verify_each
  verify_each-IsStarted [] s of some_left total = absurd (omega arith)
  verify_each-IsStarted ((log, sender) ∷ []) s (t, i, count, _) some_left total =
      let (s', answer, started) = last_request log sender s t i count (ground arith) in
      (s', ground (arith, answer), started)
  verify_each-IsStarted ((log, sender) ∷ request ∷ requests) s (t, i, count, of) some_left total =
      let (s1, answer, pending, apart, verifying, sent) =
        early_request log sender s t i count (ground arith) in
      let holds : held (s1.pending_info pkg)
          ≡ held (s.pending_info pkg) ++ info_of (log, sender) ∷ [] =
        ap held pending in
      let (s', answers, (build', none', others, builds, sent')) =
        verify_each-IsStarted (request ∷ requests) s1 of (ground arith) (
          ground (
            arith,
            holds,
            length-append (held (s.pending_info pkg)) (info_of (log, sender) ∷ []),
          )) in
      (
        s',
        ground (arith, answer, answers),
        (
          ground (
            arith,
            build',
            holds,
            append_assoc (held (s.pending_info pkg)) (info_of (log, sender) ∷ [])
                (infos_of (request ∷ requests)),
          ),
          none',
          (λ q a. others q a ∙ apart q a),
          (λ b a. builds b a ∙ ap (λ f. f b) verifying),
          sent' ∙ sent,
        ),
      )
