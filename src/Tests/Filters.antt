-- ===== src/Tests/Filters.antt =====
-- Filters as functions, which keep what warp documents.
use pyrsia.Base.{
  ℕ, ◌≡◌, ◌≢◌, refl, ap, ◌∙◌, Bool, true, false, ◌&&◌, Option, none, some, List, [], ◌∷◌, ◌++◌,
  Bytes, length, ltb, if◌then◌else◌, arith, Bool-cases, inl, inr,
}
use pyrsia.Outcome.{Outcome, ok, err, panicked}
use pyrsia.Exec.{Exec}
use pyrsia.TransparencyLog.Database.{bytes_eq, bytes_eq_iff}
use pyrsia.NodeApi.Errors.{
  Rejection, not_found, method_not_allowed, payload_too_large, body_deserialize_error,
  invalid_header, custom, RegistryError,
}
use pyrsia.NodeApi.Handlers.{Response}
use pyrsia.NodeApi.Routes.{Filter, Method, get, post, HttpRequest, Warp}
use pyrsia.NodeApi.Routes.WarpLaws.{handled, AllOwn, IsWarp}

abbrev same_path : List Bytes → List Bytes → Bool
same_path [] [] = true
same_path [] (t ∷ ts) = false
same_path (s ∷ ss) [] = false
same_path (s ∷ ss) (t ∷ ts) = bytes_eq s t && same_path ss ts

same_path_sound : (ss ts : List Bytes) → same_path ss ts ≡ true → ss ≡ ts
same_path_sound [] [] h = refl
same_path_sound [] (t ∷ ts) h = absurd (ground arith)
same_path_sound (s ∷ ss) [] h = absurd (ground arith)
same_path_sound (s ∷ ss) (t ∷ ts) h =
    let first = (bytes_eq_iff s t).0 (ground arith) in
    let rest = same_path_sound ss ts (ground arith) in ap (λ u. u ∷ ss) first ∙ ap (◌∷◌ t) rest

same_path_refl : (ss : List Bytes) → same_path ss ss ≡ true
same_path_refl [] = refl
same_path_refl (s ∷ ss) = ground (arith, (bytes_eq_iff s s).1 refl, same_path_refl ss)

same_path_ne : (ss ts : List Bytes) → ss ≢ ts → same_path ss ts ≡ false
same_path_ne ss ts h = elim (Bool-cases (same_path ss ts)) [
  | inl e ↦ absurd (h (same_path_sound ss ts e))
  | inr e ↦ e
]

abbrev registry_error : List Rejection → Option RegistryError
registry_error [] = none
registry_error (custom e ∷ rest) = some e
registry_error (not_found ∷ rest) = registry_error rest
registry_error (method_not_allowed ∷ rest) = registry_error rest
registry_error (payload_too_large ∷ rest) = registry_error rest
registry_error (body_deserialize_error ∷ rest) = registry_error rest
registry_error (invalid_header m ∷ rest) = registry_error rest

abbrev header : List Rejection → Option Bytes
header [] = none
header (invalid_header m ∷ rest) = some m
header (custom e ∷ rest) = header rest
header (not_found ∷ rest) = header rest
header (method_not_allowed ∷ rest) = header rest
header (payload_too_large ∷ rest) = header rest
header (body_deserialize_error ∷ rest) = header rest

own-none : (rs : List Rejection) → AllOwn rs → (registry_error rs ≡ none) × (header rs ≡ none)
own-none [] own = (refl, refl)
own-none (not_found ∷ rs) (_, own) = own-none rs own
own-none (method_not_allowed ∷ rs) (_, own) = own-none rs own
own-none (payload_too_large ∷ rs) (_, own) = own-none rs own
own-none (body_deserialize_error ∷ rs) (_, own) = own-none rs own
own-none (invalid_header m ∷ rs) (bad, own) = absurd bad
own-none (custom e ∷ rs) (bad, own) = absurd bad

own-one :
    (rs behind : List Rejection) (e : RegistryError)
    → AllOwn rs
    → registry_error (rs ++ (custom e ∷ behind)) ≡ some e
own-one [] behind e own = refl
own-one (not_found ∷ rs) behind e (_, own) = own-one rs behind e own
own-one (method_not_allowed ∷ rs) behind e (_, own) = own-one rs behind e own
own-one (payload_too_large ∷ rs) behind e (_, own) = own-one rs behind e own
own-one (body_deserialize_error ∷ rs) behind e (_, own) = own-one rs behind e own
own-one (invalid_header m ∷ rs) behind e (bad, own) = absurd bad
own-one (custom d ∷ rs) behind e (bad, own) = absurd bad

module _ {S : Type 0} where
  abbrev by_method :
      Method → Outcome (List Rejection) Response × S → S → Outcome (List Rejection) Response × S
  by_method get r s = (err (method_not_allowed ∷ []), s)
  by_method post r s = r

  abbrev got :
      Method → Outcome (List Rejection) Response × S → S → Outcome (List Rejection) Response × S
  got get r s = r
  got post r s = (err (method_not_allowed ∷ []), s)

  abbrev read_body :
      {R : Type 0}
      → Option R
      → (R → Exec S Rejection Response)
      → S
      → Outcome (List Rejection) Response × S
  read_body none handler s = (err (body_deserialize_error ∷ []), s)
  read_body (some r) handler s = handled (handler r s)

  abbrev or_else : Filter S → Filter S → Filter S
  or_else first second q s =
      let (r, s1) = first q s in
      elim r [
        | ok response ↦ (ok response, s1)
        | panicked ↦ (panicked, s1)
        | err rejections ↦
            let (r2, s2) = second q s1 in
            elim r2 [
              | ok response ↦ (ok response, s2)
              | err more ↦ (err (rejections ++ more), s2)
              | panicked ↦ (panicked, s2)
            ]
      ]

  abbrev recover :
      (List Rejection → Response) → Filter S → HttpRequest → S → Outcome Rejection Response × S
  recover f filter q s =
      let (r, s') = filter q s in
      elim r [
        | ok response ↦ (ok response, s')
        | err rejections ↦ (ok (f rejections), s')
        | panicked ↦ (panicked, s')
      ]

abbrev pub warp : Warp ℕ
warp = record {
  get_route = λ segments handler q s.
      if same_path segments q.segments
      then got q.method (handled (handler s)) s
      else (err (not_found ∷ []), s);
  post_route = λ segments limit decode handler q s.
      if same_path segments q.segments
      then by_method q.method
          (if ltb limit (length q.body)
            then (err (payload_too_large ∷ []), s)
            else read_body (decode q.body) handler s)
          s
      else (err (not_found ∷ []), s);
  or_else = or_else;
  recover = recover;
  finds = record { find_registry_error = registry_error; find_invalid_header = header };
}

pub warp-IsWarp : IsWarp warp
warp-IsWarp = record {
  get_elsewhere = λ segments handler q s h. ground (arith, same_path_ne segments q.segments h);
  post_elsewhere =
      λ segments limit decode handler q s h. ground (arith, same_path_ne segments q.segments h);
  post_long = λ segments limit decode handler body s h. ground (arith, same_path_refl segments);
  post_unread =
      λ segments limit decode handler body s h unread. ground (arith, same_path_refl segments);
  post_handled = λ segments limit decode handler body s request h decoded.
      ground (arith, same_path_refl segments);
  or_ok = λ first second q s s1 x h. ground (arith, h);
  or_panicked = λ first second q s s1 h. ground (arith, h);
  or_second_ok = λ first second q s s1 s2 more x h h2. ground (arith, h, h2);
  or_second_panicked = λ first second q s s1 s2 more h h2. ground (arith, h, h2);
  or_err = λ first second q s s1 s2 more more2 h h2. ground (arith, h, h2);
  recover_ok = λ f filter q s s1 x h. ground (arith, h);
  recover_panicked = λ f filter q s s1 h. ground (arith, h);
  recover_err = λ f filter q s s1 more h. ground (arith, h);
  finds_none = own-none;
  finds_one = own-one;
}
