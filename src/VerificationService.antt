-- ===== src/VerificationService.antt =====
-- src/verification_service/service.rs: an authorised node collects the artifacts of a package, has
-- the package built, and tells whoever asked whether the built artifacts are the same.
pub mod Collecting
pub mod Verdicts
use pyrsia.Base.{
  ℕ, ◌%◌, ◌^◌, Bool, true, false, Option, none, some, List, [], ◌∷◌, ◌++◌, Bytes, length, ◌==◌,
  ◌&&◌, if◌then◌else◌,
}
use pyrsia.Outcome.{Outcome, ok, err, panicked, ok_or}
use pyrsia.Exec.{Exec, lift, ◌>>=◌, ◌>>◌}
use pyrsia.TransparencyLog.Types.{
  TransparencyLog, PackageType, Operation, add_artifact, same_type, same_operation,
}
use pyrsia.TransparencyLog.Database.{bytes_eq}

-- The messages of other crates' errors are not told apart.
pub data VerificationError : Type 0 where
  artifact_not_found : Bytes → Bytes → VerificationError
  non_matching_hash : Bytes → Bytes → Bytes → Bytes → VerificationError
  failure : VerificationError
  unsupported_operation : Operation → VerificationError
  verify_build_error : VerificationError

pub record Package : Type 0 where
  pub package_type : PackageType
  pub package_specific_id : Bytes

-- The sending end of a channel goes by a number.
pub record VerificationInfo : Type 0 where
  pub sender : ℕ
  pub artifact_specific_id : Bytes
  pub artifact_hash : Bytes

-- What is sent into such a channel
pub data Verdict : Type 0 where
  verified : Verdict
  failed : VerificationError → Verdict

-- build_service/model.rs
pub record BuildResultArtifact : Type 0 where
  pub artifact_specific_id : Bytes
  pub artifact_location : Bytes
  pub artifact_hash : Bytes

-- The two hash maps as functions, and what was sent, in order.
pub record VerificationService : Type 0 where
  pub pending_info : Package → Option (List VerificationInfo)
  pub verifying_info : Bytes → Option (List VerificationInfo)
  pub sent : List (ℕ × Verdict)

abbrev pub Action : Type 0 → Type 0
Action = Exec VerificationService VerificationError

-- The derived `==` of `Package`
unfoldable pub same_package : Package → Package → Bool
same_package p q =
    same_type p.package_type q.package_type && bytes_eq p.package_specific_id q.package_specific_id

-- `HashMap::insert` and `HashMap::remove`, the value set to `v`
abbrev pub set : {K V : Type 0} → (K → K → Bool) → K → V → (K → V) → K → V
set same k v map k' = if same k k' then v else map k'

-- `VerificationService::new`
unfoldable pub new : VerificationService
new = record { pending_info = λ _. none; verifying_info = λ _. none; sent = [] }

-- The `if let` of `verify_add_artifact`. `build` is the answer of `verify_build` to this call, and
-- `none` an error of it.
unfoldable pub start_build : (Package → Option Bytes) → Package → Action (Option Bytes)
start_build build pkg s = elim (s.pending_info pkg) [
  | none ↦ (err failure, s)
  | some infos ↦
      let s' = record s { pending_info = set same_package pkg none s.pending_info } in
      elim (build pkg) [
        | none ↦ (err verify_build_error, s')
        | some build_id ↦ (
          ok (some build_id),
          record s' { verifying_info = set bytes_eq build_id (some infos) s'.verifying_info },
        )
      ]
]

-- The list of a package after a push, and its length `as u32`
unfoldable pub push_info :
    VerificationInfo → Option (List VerificationInfo) → List VerificationInfo × ℕ
push_info info none = (info ∷ [], 1)
push_info info (some infos) = (infos ++ info ∷ [], length (infos ++ info ∷ []) % 2 ^ 32)

-- `verify_add_artifact` from the look-up of the package on
unfoldable pub collect :
    (Package → Option Bytes) → Package → VerificationInfo → ℕ → Action (Option Bytes)
unfolding push_info start_build
collect build pkg info expected s =
    let (infos, num_artifacts) = push_info info (s.pending_info pkg) in
    let s' = record s { pending_info = set same_package pkg (some infos) s.pending_info } in
    if num_artifacts == expected then start_build build pkg s' else (ok none, s')

-- `verify_add_artifact`
unfoldable pub verify_add_artifact :
    (Package → Option Bytes) → TransparencyLog → ℕ → Action (Option Bytes)
unfolding collect
verify_add_artifact build log sender s = elim log.package_type [
  | none ↦ (panicked, s)
  | some t ↦
      let pkg : Package = record {
        package_type = t;
        package_specific_id = log.package_specific_id;
      } in
      let info : VerificationInfo = record {
        sender = sender;
        artifact_specific_id = log.package_specific_artifact_id;
        artifact_hash = log.artifact_hash;
      } in
      collect build pkg info log.num_artifacts s
]

-- `verify_transaction`; `parse` is serde_json.
unfoldable pub verify_transaction :
    (Bytes → Option TransparencyLog) → (Package → Option Bytes) → Bytes → ℕ → Action (Option Bytes)
unfolding verify_add_artifact
verify_transaction parse build payload sender = do
  log ← lift (ok_or (parse payload) failure)
  (if same_operation log.operation add_artifact
      then verify_add_artifact build log sender
      else lift (err (unsupported_operation log.operation)))

-- The loop of `handle_build_failed`
unfoldable pub all_failed : List VerificationInfo → List (ℕ × Verdict)
all_failed [] = []
all_failed (info ∷ infos) = (info.sender, failed verify_build_error) ∷ all_failed infos

-- `handle_build_failed`
unfoldable pub handle_build_failed : Bytes → VerificationService → VerificationService
unfolding all_failed
handle_build_failed build_id s = elim (s.verifying_info build_id) [
  | none ↦ s
  | some infos ↦ record s {
    verifying_info = set bytes_eq build_id none s.verifying_info;
    sent = s.sent ++ all_failed infos;
  }
]

-- `iter().find` in `handle_build_result`
unfoldable pub find_artifact : Bytes → List BuildResultArtifact → Option BuildResultArtifact
find_artifact id [] = none
find_artifact id (artifact ∷ artifacts) =
    if bytes_eq artifact.artifact_specific_id id then some artifact else find_artifact id artifacts

-- The `match` in the loop of `handle_build_result`
unfoldable pub verdict : Bytes → List BuildResultArtifact → VerificationInfo → Verdict
unfolding find_artifact
verdict build_id artifacts info = elim (find_artifact info.artifact_specific_id artifacts) [
  | some artifact ↦
      if bytes_eq info.artifact_hash artifact.artifact_hash
      then verified
      else failed (
          non_matching_hash build_id info.artifact_specific_id info.artifact_hash
            artifact.artifact_hash)
  | none ↦ failed (artifact_not_found build_id info.artifact_specific_id)
]

-- That loop
unfoldable pub verdicts :
    Bytes → List BuildResultArtifact → List VerificationInfo → List (ℕ × Verdict)
unfolding verdict
verdicts build_id artifacts [] = []
verdicts build_id artifacts (info ∷ infos) =
    (info.sender, verdict build_id artifacts info) ∷ verdicts build_id artifacts infos

-- `handle_build_result`
unfoldable pub handle_build_result :
    Bytes → List BuildResultArtifact → VerificationService → VerificationService
unfolding verdicts
handle_build_result build_id artifacts s = elim (s.verifying_info build_id) [
  | none ↦ s
  | some infos ↦ record s {
    verifying_info = set bytes_eq build_id none s.verifying_info;
    sent = s.sent ++ verdicts build_id artifacts infos;
  }
]
