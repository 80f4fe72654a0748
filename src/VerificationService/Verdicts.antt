-- ===== src/VerificationService/Verdicts.antt =====
-- What those who asked src/verification_service/service.rs about a package are told when the build
-- of the package ends.
use pyrsia.Base.{
  ℕ, ◌<◌, ◌≡◌, ◌^◌, ◌∙◌, ◌↔◌, refl, ap, Option, none, some, List, ◌++◌, Bytes, arith, length, inl,
  inr, Option-cases,
}
use pyrsia.TransparencyLog.Database.{bytes_eq, bytes_eq_iff}
use pyrsia.VerificationService.{
  Package, VerificationInfo, VerificationService, BuildResultArtifact, verified, find_artifact,
  verdict, verdicts, handle_build_result, handle_build_failed, set,
}
use pyrsia.VerificationService.Collecting.{
  Request, verify_each, waiting, infos_of, IsFor, verify_each-IsStarted,
}

handle_build_result_lem :
    (build_id : Bytes) (artifacts : List BuildResultArtifact) (infos : List VerificationInfo)
    (s : VerificationService)
    → s.verifying_info build_id ≡ some infos
    → handle_build_result build_id artifacts s ≡ record s {
      verifying_info = set bytes_eq build_id none s.verifying_info;
      sent = s.sent ++ verdicts build_id artifacts infos;
    }
unfolding handle_build_result
handle_build_result_lem build_id artifacts infos s e = rw (handle_build_result, e) refl

-- When the requests for all the artifacts of a package with none pending come one after another, as
-- many as each says there are and fewer than 2 ^ 32, and the build can be started: every request but
-- the last is told nothing yet and the last one the build; when the result of that build comes,
-- each request gets its verdict, in order and once, and nothing of the package is left behind.
pub verify_each-handle_build_result :
    (build : Package → Option Bytes) (pkg : Package) (build_id : Bytes) (n : ℕ)
    (requests : List Request) (s : VerificationService) (artifacts : List BuildResultArtifact)
    → build pkg ≡ some build_id
    → n < 2 ^ 32
    → IsFor pkg n requests
    → 0 < n
    → length requests ≡ n
    → s.pending_info pkg ≡ none
    → (s' : VerificationService) × (s'' : VerificationService) × (verify_each build requests s
        ≡ (waiting build_id requests, s'))
      × (handle_build_result build_id artifacts s' ≡ s'')
      × (s''.sent ≡ s.sent ++ verdicts build_id artifacts (infos_of requests))
      × (s''.verifying_info build_id ≡ none)
      × (s''.pending_info pkg ≡ none)
verify_each-handle_build_result build pkg build_id n requests s artifacts built small of pos total
      nothing =
    let (s', answers, started) =
      verify_each-IsStarted build pkg build_id n built small requests s of (omega arith)
        (ground (arith, nothing, total)) in
    let (running, gone, _, _, sent) = started in
    let running' : s'.verifying_info build_id ≡ some (infos_of requests) =
      ground (arith, running, nothing) in
    (
      s',
      record s' {
        verifying_info = set bytes_eq build_id none s'.verifying_info;
        sent = s'.sent ++ verdicts build_id artifacts (infos_of requests);
      },
      answers,
      handle_build_result_lem build_id artifacts (infos_of requests) s' running',
      ap (λ l. l ++ verdicts build_id artifacts (infos_of requests)) sent,
      ground (arith, bytes_eq_iff build_id build_id),
      gone,
    )

-- A request is told "verified" exactly when the first artifact of the build with its identifier has
-- the hash that it gave.
pub verdict-verified :
    (build_id : Bytes) (artifacts : List BuildResultArtifact) (info : VerificationInfo)
    → (verdict build_id artifacts info ≡ verified) ↔ (
        (artifact : BuildResultArtifact) × (find_artifact info.artifact_specific_id artifacts
          ≡ some artifact)
        × (artifact.artifact_hash ≡ info.artifact_hash))
unfolding verdict
verdict-verified build_id artifacts info =
    elim (Option-cases (find_artifact info.artifact_specific_id artifacts)) [
      | inl nothing ↦ (
        (λ v. absurd (ground (arith, v, nothing))),
        (λ (artifact, found, _). absurd (ground (arith, found, nothing))),
      )
      | inr (x, at) ↦
          let same = bytes_eq_iff info.artifact_hash x.artifact_hash in
          (
            (λ v. (x, at, ground (arith, v, at, same))),
            (λ (artifact, found, hash).
                let e : x ≡ artifact = ground (arith, at, found) in
                let h : x.artifact_hash ≡ info.artifact_hash =
                  ap (λ (y : BuildResultArtifact). y.artifact_hash) e ∙ hash in
                ground (arith, at, h, same)),
          )
    ]

-- A result or a failure of a build that is not, or no longer, under way changes nothing: a second
-- report of a build tells nobody anything more, whatever the first one was.
pub handle_build_result_once :
    (build_id : Bytes) (first second : List BuildResultArtifact) (s : VerificationService)
    → let s1 = handle_build_result build_id first s in
      let s2 = handle_build_failed build_id s in
      (handle_build_result build_id second s1 ≡ s1)
      × (handle_build_failed build_id s1 ≡ s1)
      × (handle_build_result build_id second s2 ≡ s2)
      × (handle_build_failed build_id s2 ≡ s2)
unfolding handle_build_result handle_build_failed
handle_build_result_once build_id first second s =
    let same = bytes_eq_iff build_id build_id in
    (ground (arith, same), ground (arith, same), ground (arith, same), ground (arith, same))
