-- ===== src/BuildService/Service/Polling.antt =====
-- When the loop that src/build_service/service.rs spawns for a build comes to its end.
use pyrsia.Base.{
  sym, subst, ◌≡◌, refl, Bool, true, false, List, [], ◌∷◌, ◌++◌, some, none, Bytes, arith, ap, ◌∙◌,
  inl, inr,
}
use mathlib.Core.List.{append-nil}
use pyrsia.Outcome.{Outcome, ok, err}
use pyrsia.Network.Types.{BuildStatus, running, success, failure}
use pyrsia.BuildService.Types.{
  BuildError, BuildInfo, BuildEvent, build_failed, build_failure, build_succeeded,
}
use pyrsia.BuildService.Endpoints.{Http}
use pyrsia.BuildService.Endpoints
use pyrsia.BuildService.Service.{BuildService, Poll, poll}

-- The answer of the pipeline says that the build is still running.
abbrev pub is_running : Outcome BuildError BuildInfo → Bool
is_running (ok info) = elim info.status [ running ↦ true | _ ↦ false ]
is_running _ = false

abbrev pub AllRunning : BuildService → Poll → List Http → Type 0
AllRunning svc p [] = Unit {0}
AllRunning svc p (http ∷ https) =
    (is_running (Endpoints.get_build_status http svc.pipeline_service p.build_id) ≡ true)
    × AllRunning svc p https

-- What the loop reports for an answer that is not about a running build
pub data IsReport (p : Poll) : Outcome BuildError BuildInfo → BuildEvent → Type 0 where
  on_success :
      (info : BuildInfo) (urls : List Bytes)
      → info.status ≡ success urls
      → IsReport p
          (ok info)
          (build_succeeded p.build_id p.package_type p.package_specific_id p.build_trigger urls)
  on_failure :
      (info : BuildInfo) (message : Bytes)
      → info.status ≡ failure message
      → IsReport p (ok info) (build_failed p.build_id (build_failure info.id))
  on_error : (e : BuildError) → IsReport p (err e) (build_failed p.build_id e)

module _ (svc : BuildService) (p : Poll) (last : Http) (after : List Http) where
  report :
      (info : BuildInfo) (status : BuildStatus)
      → Endpoints.get_build_status last svc.pipeline_service p.build_id ≡ ok info
      → info.status ≡ status
      → is_running (ok info) ≡ false
      → (event : BuildEvent) × (poll svc p (last ∷ after) ≡ some event) × IsReport p (ok info) event
  unfolding poll
  report info running at e h = absurd (ground (arith, e, h))
  report info (success urls) at e h = (_, ground (arith, at, e), on_success info urls e)
  report info (failure message) at e h = (_, ground (arith, at, e), on_failure info message e)

is_running_lem :
    (info : BuildInfo) (status : BuildStatus)
    → info.status ≡ status
    → is_running (ok info) ≡ true
    → info.status ≡ running
is_running_lem info running e h = e
is_running_lem info (success urls) e h = absurd (ground (arith, e, h))
is_running_lem info (failure message) e h = absurd (ground (arith, e, h))

poll-AllRunning :
    (svc : BuildService) (p : Poll) (before after : List Http)
    → AllRunning svc p before
    → poll svc p (before ++ after) ≡ poll svc p after
unfolding poll
poll-AllRunning svc p [] after h = refl
poll-AllRunning svc p (http ∷ https) after (here, rest) =
    elim (Endpoints.get_build_status-total http svc.pipeline_service p.build_id) [
      | inr (e, at) ↦ absurd (ground (arith, here, at))
      | inl (info, at) ↦ ground (
        arith,
        at,
        is_running_lem info info.status refl (ap is_running (sym at) ∙ here),
        poll-AllRunning svc p https after rest,
      )
    ]

-- As long as the pipeline answers that the build is running, nothing is reported. The first other
-- answer, whatever it is, ends the loop with one event: the success or the failure that it tells of.
pub poll_ends :
    (svc : BuildService) (p : Poll) (before after : List Http) (last : Http)
    → AllRunning svc p before
    → is_running (Endpoints.get_build_status last svc.pipeline_service p.build_id) ≡ false
    → (poll svc p before ≡ none)
      × ((event : BuildEvent) × (poll svc p (before ++ last ∷ after) ≡ some event)
          × IsReport p (Endpoints.get_build_status last svc.pipeline_service p.build_id) event)
unfolding poll
poll_ends svc p before after last so_far ended = (
  subst (λ l. poll svc p l ≡ none) (append-nil before) (poll-AllRunning svc p before [] so_far),
  elim (Endpoints.get_build_status-total last svc.pipeline_service p.build_id) [
    | inr (e, at) ↦ (
      build_failed p.build_id e,
      poll-AllRunning svc p before (last ∷ after) so_far ∙ ground (arith, at),
      subst (λ r. IsReport p r (build_failed p.build_id e)) (sym at) (on_error e),
    )
    | inl (info, at) ↦
        let (event, reported, is_report) =
          report svc p last after info info.status at refl (ap is_running (sym at) ∙ ended) in
        (
          event,
          poll-AllRunning svc p before (last ∷ after) so_far ∙ reported,
          subst (λ r. IsReport p r event) (sym at) is_report,
        )
  ],
)
