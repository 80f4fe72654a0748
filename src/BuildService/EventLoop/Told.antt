-- ===== src/BuildService/EventLoop/Told.antt =====
-- From the end of a build to those who wait for its verification: src/build_service/service.rs and
-- event.rs, with src/verification_service/service.rs.
use pyrsia.Base.{ℕ, ◌≡◌, none, List, [], ◌∷◌, ◌++◌, Bytes, ◌⊎◌}
use pyrsia.Outcome.{Outcome}
use pyrsia.Network.Types.{PeerId}
use pyrsia.VerificationService.{VerificationInfo, VerificationService, Verdict}
use pyrsia.VerificationService
use pyrsia.BuildService.Types.{BuildEvent}
use pyrsia.BuildService.Endpoints.{Http}
use pyrsia.BuildService.Endpoints
use pyrsia.BuildService.Service.{System, BuildService, Poll}
use pyrsia.BuildService.Service.Stored.{SystemLaws}
use pyrsia.BuildService.EventLoop.{ArtifactBuilds, BuildEventLoop, Surroundings, handle_build_event}

abbrev pub senders : List VerificationInfo → List ℕ
senders [] = []
senders (info ∷ infos) = info.sender ∷ senders infos

abbrev pub receivers : List (ℕ × Verdict) → List ℕ
receivers [] = []
receivers ((sender, _) ∷ sent) = sender ∷ receivers sent

-- From the one state to the other, each of those who wait for the build is told one verdict, in
-- order, nobody else is told anything, and nobody waits for it any more.
abbrev pub Tells :
    Bytes → List VerificationInfo → VerificationService → VerificationService → Type 0
Tells build_id infos v v' =
    ((told : List (ℕ × Verdict)) × (v'.sent ≡ v.sent ++ told) × (receivers told ≡ senders infos))
    × (v'.verifying_info build_id ≡ none)

module _ {A : Type 0} (svc : BuildService) (sys : System) (builds : ArtifactBuilds A)
    (laws : SystemLaws sys) (p : Poll) (requestor : PeerId) (before after : List Http) (last : Http)
    (w w2 : Surroundings) (infos : List VerificationInfo) (s s2 : BuildEventLoop A) where
  abbrev step : BuildEvent → BuildEventLoop A
  step event = (handle_build_event svc sys builds w event s).1

  abbrev step2 : BuildEvent → BuildEventLoop A
  step2 event = (handle_build_event svc sys builds w2 event s2).1

  -- Handling the event tells everyone, or else it queues the event that will.
  abbrev pub TellsSoon : BuildEvent → Type 0
  TellsSoon event =
      let s' = (handle_build_event svc sys builds w event s).1 in
      Tells p.build_id infos s.verification_service s'.verification_service
      ⊎ ((next : BuildEvent) × (s'.build_service.queue ≡ s.build_service.queue ++ next ∷ [])
          × (s'.verification_service ≡ s.verification_service)
          × Tells p.build_id infos s2.verification_service
              (handle_build_event svc sys builds w2 next s2).1.verification_service)
