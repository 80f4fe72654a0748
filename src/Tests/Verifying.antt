-- ===== src/Tests/Verifying.antt =====
-- The theorems on the verification service, at a package of two artifacts.
use pyrsia.Base.{◌≡◌, refl, none, some, List, [], ◌∷◌, ◌++◌, Bytes, Option, arith, codes}
use pyrsia.TransparencyLog.Types.{docker}
use pyrsia.VerificationService.{
  Package, VerificationService, VerificationInfo, BuildResultArtifact, verdicts,
  handle_build_result,
}
use pyrsia.VerificationService.Collecting.{Request, verify_each, waiting, infos_of}
use pyrsia.VerificationService.Verdicts.{verify_each-handle_build_result}
use pyrsia.Tests.Logs.{added}

abbrev pkg : Package
pkg = record { package_type = docker; package_specific_id = codes "alpine" }

abbrev build_id : Bytes
build_id = codes "build"

abbrev build : Package → Option Bytes
build _ = some build_id

abbrev requests : List Request
requests = (added, 1) ∷ (record added { package_specific_artifact_id = codes "alpine/2" }, 2) ∷ []

-- The second artifact is missing in the build.
abbrev artifacts : List BuildResultArtifact
artifacts =
    record { artifact_specific_id = codes "alpine/1"; artifact_location = []; artifact_hash = [] }
    ∷ []

abbrev service : VerificationService
service = record { pending_info = λ _. none; verifying_info = λ _. none; sent = [] }

abbrev info : VerificationInfo
info = record { sender = 1; artifact_specific_id = codes "alpine/1"; artifact_hash = [] }

verify_each-handle_build_result_example :
    (s' : VerificationService) × (s'' : VerificationService) × (verify_each build requests service
      ≡ (waiting build_id requests, s'))
    × (handle_build_result build_id artifacts s' ≡ s'')
    × (s''.sent ≡ [] ++ verdicts build_id artifacts (infos_of requests))
    × (s''.verifying_info build_id ≡ none)
    × (s''.pending_info pkg ≡ none)
verify_each-handle_build_result_example =
    verify_each-handle_build_result build pkg build_id 2 requests service artifacts refl
      (omega arith) (refl, refl, refl, (refl, refl, refl, tt)) (omega arith) refl refl

abbrev running : VerificationService
running = record service { verifying_info = λ _. some (info ∷ []) }
