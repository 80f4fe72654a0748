-- ===== src/BuildService/EventLoop.antt =====
-- `BuildEventLoop` of src/build_service/event.rs, where builds, the artifact service and the
-- verification service meet.
pub mod Told
pub mod Panics
use pyrsia.Base.{ℕ, Bool, List, [], ◌∷◌, ◌++◌, Bytes}
use pyrsia.Outcome.{Outcome, ok, err, panicked, ◌>>=◌}
use pyrsia.TransparencyLog.Types.{TransparencyLogError}
use pyrsia.Network.Types.{PeerId, BuildStatus}
use pyrsia.VerificationService.{VerificationService}
use pyrsia.VerificationService
use pyrsia.BuildService.Types.{
  BuildError, BuildInfo, BuildTrigger, from_source, verification, BuildResult, BuildEvent,
  build_failed, status_asked, build_asked, build_succeeded, build_result,
}
use pyrsia.BuildService.Endpoints.{Http}
use pyrsia.BuildService.Service.{
  System, BuildService, BuildState, start_build, get_build_status, handle_successful_build,
  clean_up_build,
}

-- The artifact service, of state `A`: `handle_build_result`, and whether it succeeds
pub record ArtifactBuilds (A : Type 0) : Type 0 where
  pub handle_build_result : Bytes → BuildResult → A → Bool × A

-- What is sent into the channels of `Start` and `Status`
pub data BuildAnswer : Type 0 where
  started : Outcome BuildError Bytes → BuildAnswer
  status_of : Outcome BuildError BuildStatus → BuildAnswer

pub record BuildEventLoop (A : Type 0) : Type 0 where
  pub artifact_service : A
  pub build_service : BuildState
  pub verification_service : VerificationService
  pub sent : List (ℕ × BuildAnswer)

-- What the rest of the world answers while one event is handled
pub record Surroundings : Type 0 where
  pub http : Http
  pub verify_build : Bool
  pub authorized_nodes : Outcome TransparencyLogError (List PeerId)

module _ {A : Type 0} (svc : BuildService) (sys : System) (builds : ArtifactBuilds A) where
  -- The match on the trigger of a result, whose error is only logged
  unfoldable pub handle_result :
      Bytes → BuildTrigger → BuildResult → BuildEventLoop A → BuildEventLoop A
  handle_result build_id from_source result s = record s {
    artifact_service = (builds.handle_build_result build_id result s.artifact_service).1;
  }
  handle_result build_id (verification _) result s = record s {
    verification_service =
        VerificationService.handle_build_result build_id result.artifacts s.verification_service;
  }

  -- `handle_build_event`; it has no error, and no panic but that of `start_build`.
  unfoldable pub handle_build_event :
      Surroundings
      → BuildEvent
      → BuildEventLoop A
      → Outcome (Unit {0}) (Unit {0}) × BuildEventLoop A
  unfolding start_build get_build_status handle_successful_build handle_result
  handle_build_event w (build_asked t id sender trigger) s =
      let (result, b) =
        start_build svc w.http w.verify_build w.authorized_nodes t id trigger s.build_service in
      let answered = record s {
        build_service = b;
        sent = s.sent ++ (sender, started result) ∷ [];
      } in
      elim result [ panicked ↦ (panicked, record s { build_service = b }) | _ ↦ (ok tt, answered) ]
  handle_build_event w (build_failed build_id build_error) s = (
    ok tt,
    record s {
      verification_service =
          VerificationService.handle_build_failed build_id s.verification_service;
    },
  )
  handle_build_event w (status_asked build_id sender) s =
      let result = get_build_status svc w.http build_id >>= λ (info : BuildInfo). ok info.status in
      (ok tt, record s { sent = s.sent ++ (sender, status_of result) ∷ [] })
  handle_build_event w (build_succeeded build_id t id trigger artifact_urls) s = (
    ok tt,
    record s {
      build_service =
          handle_successful_build svc sys w.http build_id t id trigger artifact_urls
            s.build_service;
    },
  )
  handle_build_event w (build_result build_id trigger result) s =
      let s' = handle_result build_id trigger result s in
      (ok tt, record s' { build_service = clean_up_build svc sys build_id s'.build_service })

  -- `run`: the events that come out of the channel, each with its surroundings, until it is closed
  -- or a handler panics
  unfoldable pub run :
      List (Surroundings × BuildEvent)
      → BuildEventLoop A
      → Outcome (Unit {0}) (Unit {0}) × BuildEventLoop A
  unfolding handle_build_event
  run [] s = (ok tt, s)
  run ((w, event) ∷ rest) s =
      let (r, s') = handle_build_event w event s in
      elim r [ ok _ ↦ run rest s' | err e ↦ (err e, s') | panicked ↦ (panicked, s') ]
