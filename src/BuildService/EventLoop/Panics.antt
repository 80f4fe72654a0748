-- ===== src/BuildService/EventLoop/Panics.antt =====
-- What a package identifier without two colons does to the loop of src/build_service/event.rs.
use pyrsia.Base.{
  ℕ, zero, suc, ◌+◌, ◌<◌, ◌≤◌, ◌≡◌, refl, none, List, [], ◌∷◌, Bytes, arith, ◌==◌, if◌then◌else◌,
  length, get_elem?, inl, inr, ◌⊎◌, Bool-cases, Option-cases,
}
use pyrsia.Outcome.{ok, panicked}
use pyrsia.TransparencyLog.Types.{maven2}
use pyrsia.BuildService.Types.{BuildTrigger, BuildEvent, build_asked}
use pyrsia.BuildService.Names.{split, colon}
use pyrsia.BuildService.Endpoints.{Http, get_maven_mapping, get_mapping}
use pyrsia.BuildService.Service.{System, BuildService, start_build, check_trigger}
use pyrsia.BuildService.EventLoop.{
  ArtifactBuilds, BuildEventLoop, Surroundings, handle_build_event, run,
}

-- How often a character stands in a text
abbrev pub occurrences : ℕ → Bytes → ℕ
occurrences c [] = 0
occurrences c (x ∷ xs) = (if x == c then 1 else 0) + occurrences c xs

get_elem?-ge : (xs : List Bytes) (i : ℕ) → length xs ≤ i → get_elem? xs i ≡ none
get_elem?-ge [] i h = refl
get_elem?-ge (x ∷ xs) zero h = absurd (omega arith)
get_elem?-ge (x ∷ xs) (suc i) h = get_elem?-ge xs i (omega arith)

list_cases : (xs : List Bytes) → (xs ≡ []) ⊎ ((y : Bytes) × (ys : List Bytes) × (xs ≡ y ∷ ys))
list_cases [] = inl refl
list_cases (x ∷ xs) = inr (x, xs, refl)

-- A text has one piece more than it has separators.
length-split : (c : ℕ) (xs : Bytes) → length (split c xs) ≡ suc (occurrences c xs)
unfolding split
length-split c [] = refl
length-split c (x ∷ xs) = elim (Bool-cases (x == c)) [
  | inl here ↦ ground (arith, here, length-split c xs)
  | inr there ↦ elim (list_cases (split c xs)) [
    | inl nothing ↦ absurd (ground (arith, nothing, length-split c xs))
    | inr (y, ys, shape) ↦ ground (arith, there, shape, length-split c xs)
  ]
]

get_maven_mapping-panicked :
    (http : Http) (endpoint id : Bytes)
    → occurrences colon id < 2
    → get_maven_mapping http endpoint id ≡ panicked
unfolding get_maven_mapping
get_maven_mapping-panicked http endpoint id few =
    let third : get_elem? (split colon id) 2 ≡ none =
      get_elem?-ge (split colon id) 2 (omega (arith, length-split colon id)) in
    elim (Option-cases (get_elem? (split colon id) 0)) [
      | inl none0 ↦ ground (arith, none0)
      | inr (group, at0) ↦ elim (Option-cases (get_elem? (split colon id) 1)) [
        | inl none1 ↦ ground (arith, at0, none1)
        | inr (artifact_id, at1) ↦ ground (arith, at0, at1, third)
      ]
    ]

-- A Maven build that is asked for with fewer than two colons in the package identifier, and whose
-- trigger is accepted, makes the loop panic: it is not answered, and whatever events follow, none of
-- them is handled and no build is started any more.
pub run-panicked :
    {A : Type 0} (svc : BuildService) (sys : System) (builds : ArtifactBuilds A) (w : Surroundings)
    (id : Bytes) (sender : ℕ) (trigger : BuildTrigger) (rest : List (Surroundings × BuildEvent))
    (s : BuildEventLoop A)
    → occurrences colon id < 2
    → check_trigger w.verify_build w.authorized_nodes trigger ≡ ok tt
    → run svc sys builds ((w, build_asked maven2 id sender trigger) ∷ rest) s ≡ (panicked, s)
unfolding run handle_build_event start_build get_mapping
run-panicked svc sys builds w id sender trigger rest s few accepted =
    ground (arith, accepted, get_maven_mapping-panicked w.http svc.mapping_service id few)
