-- ===== src/NodeApi/Routes/WarpLaws.antt =====
-- What the routes of src/node_api/routes.rs need of warp, as warp documents it.
use pyrsia.Base.{◌≢◌, ◌<◌, Option, ℕ, ◌≤◌, ◌≡◌, none, some, List, [], ◌∷◌, ◌++◌, Bytes, length}
use pyrsia.Outcome.{Outcome, ok, err, panicked}
use pyrsia.Exec.{Exec}
use pyrsia.NodeApi.Errors.{
  Rejection, not_found, method_not_allowed, payload_too_large, body_deserialize_error,
  invalid_header, custom, RegistryError,
}
use pyrsia.NodeApi.Handlers.{Response}
use pyrsia.NodeApi.Routes.{Filter, HttpRequest, post, Warp}

-- The end of a handler
abbrev pub handled :
    {S : Type 0} → Outcome Rejection Response × S → Outcome (List Rejection) Response × S
handled (ok response, s) = (ok response, s)
handled (err e, s) = (err (e ∷ []), s)
handled (panicked, s) = (panicked, s)

-- No rejection of a handler, and no header, among these
abbrev pub IsOwn : Rejection → Type 0
IsOwn (custom e) = ⊥
IsOwn (invalid_header m) = ⊥
IsOwn not_found = Unit
IsOwn method_not_allowed = Unit
IsOwn payload_too_large = Unit
IsOwn body_deserialize_error = Unit

abbrev pub AllOwn : List Rejection → Type 0
AllOwn [] = Unit
AllOwn (r ∷ rejections) = IsOwn r × AllOwn rejections

-- What warp documents: a route rejects other paths, long bodies and those that are not read, and hands
-- the others to its handler; `or` asks the second filter when the first rejects and puts the
-- rejections together; `recover` answers in place of them; `find` finds what is among them.
pub record IsWarp {S : Type 0} (warp : Warp S) : Type 1 where
  pub get_elsewhere :
      (segments : List Bytes) (handler : Exec S Rejection Response) (q : HttpRequest) (s : S)
      → segments ≢ q.segments
      → warp.get_route segments handler q s ≡ (err (not_found ∷ []), s)
  pub post_elsewhere :
      {R : Type 0} (segments : List Bytes) (limit : ℕ) (decode : Bytes → Option R)
      (handler : R → Exec S Rejection Response) (q : HttpRequest) (s : S)
      → segments ≢ q.segments
      → warp.post_route segments limit decode handler q s ≡ (err (not_found ∷ []), s)
  pub post_long :
      {R : Type 0} (segments : List Bytes) (limit : ℕ) (decode : Bytes → Option R)
      (handler : R → Exec S Rejection Response) (body : Bytes) (s : S)
      → limit < length body
      → warp.post_route segments limit decode handler
          (record { method = post; segments = segments; body = body })
          s
        ≡ (err (payload_too_large ∷ []), s)
  pub post_unread :
      {R : Type 0} (segments : List Bytes) (limit : ℕ) (decode : Bytes → Option R)
      (handler : R → Exec S Rejection Response) (body : Bytes) (s : S)
      → length body ≤ limit
      → decode body ≡ none
      → warp.post_route segments limit decode handler
          (record { method = post; segments = segments; body = body })
          s
        ≡ (err (body_deserialize_error ∷ []), s)
  pub post_handled :
      {R : Type 0} (segments : List Bytes) (limit : ℕ) (decode : Bytes → Option R)
      (handler : R → Exec S Rejection Response) (body : Bytes) (s : S) (request : R)
      → length body ≤ limit
      → decode body ≡ some request
      → warp.post_route segments limit decode handler
          (record { method = post; segments = segments; body = body })
          s
        ≡ handled (handler request s)
  pub or_ok :
      (first second : Filter S) (q : HttpRequest) (s s1 : S) (x : Response)
      → first q s ≡ (ok x, s1)
      → warp.or_else first second q s ≡ (ok x, s1)
  pub or_panicked :
      (first second : Filter S) (q : HttpRequest) (s s1 : S)
      → first q s ≡ (panicked, s1)
      → warp.or_else first second q s ≡ (panicked, s1)
  pub or_second_ok :
      (first second : Filter S) (q : HttpRequest) (s s1 s2 : S) (more : List Rejection)
      (x : Response)
      → first q s ≡ (err more, s1)
      → second q s1 ≡ (ok x, s2)
      → warp.or_else first second q s ≡ (ok x, s2)
  pub or_second_panicked :
      (first second : Filter S) (q : HttpRequest) (s s1 s2 : S) (more : List Rejection)
      → first q s ≡ (err more, s1)
      → second q s1 ≡ (panicked, s2)
      → warp.or_else first second q s ≡ (panicked, s2)
  pub or_err :
      (first second : Filter S) (q : HttpRequest) (s s1 s2 : S) (more more2 : List Rejection)
      → first q s ≡ (err more, s1)
      → second q s1 ≡ (err more2, s2)
      → warp.or_else first second q s ≡ (err (more ++ more2), s2)
  pub recover_ok :
      (f : List Rejection → Response) (filter : Filter S) (q : HttpRequest) (s s1 : S)
      (x : Response)
      → filter q s ≡ (ok x, s1)
      → warp.recover f filter q s ≡ (ok x, s1)
  pub recover_panicked :
      (f : List Rejection → Response) (filter : Filter S) (q : HttpRequest) (s s1 : S)
      → filter q s ≡ (panicked, s1)
      → warp.recover f filter q s ≡ (panicked, s1)
  pub recover_err :
      (f : List Rejection → Response) (filter : Filter S) (q : HttpRequest) (s s1 : S)
      (more : List Rejection)
      → filter q s ≡ (err more, s1)
      → warp.recover f filter q s ≡ (ok (f more), s1)
  pub finds_none :
      (rejections : List Rejection)
      → AllOwn rejections
      → (warp.finds.find_registry_error rejections ≡ none)
        × (warp.finds.find_invalid_header rejections ≡ none)
  pub finds_one :
      (before behind : List Rejection) (e : RegistryError)
      → AllOwn before
      → warp.finds.find_registry_error (before ++ (custom e ∷ behind)) ≡ some e
