-- ===== src/NodeApi/Routes/Served.antt =====
-- Which answer the chain of src/node_api/routes.rs gives to what is posted to build/docker.
use pyrsia.Base.{
  ◌∙◌, ap, ◌*◌, ◌≤◌, ◌≡◌, none, some, List, [], ◌∷◌, ◌++◌, Bytes, codes, length, ltb, arith,
  Bool-cases, inl, inr,
}
use pyrsia.Outcome.{ok, err, panicked}
use pyrsia.NodeApi.Errors.{
  Rejection, not_found, payload_too_large, body_deserialize_error, custom, RegistryError, unknown,
  registry_answer, custom_recover,
}
use pyrsia.NodeApi.Requests.{RequestDockerBuild}
use pyrsia.NodeApi.Handlers.{Services, Response, handle_build_docker}
use pyrsia.NodeApi.Routes.WarpLaws.{handled, IsOwn, IsWarp}
use pyrsia.NodeApi.Routes.{
  Filter, HttpRequest, post, Serde, Warp, recovered, content_length_limit, make_node_routes,
  serve_http,
}

abbrev pub nothing_found : Response
nothing_found = recovered (500, record { code = unknown []; message = [] })

abbrev pub docker_request : Bytes → HttpRequest
docker_request body = record {
  method = post;
  segments = codes "build" ∷ codes "docker" ∷ [];
  body = body;
}

abbrev nothing_there : List Rejection
nothing_there = not_found ∷ []

abbrev six_more : List Rejection
six_more = not_found ∷ not_found ∷ not_found ∷ not_found ∷ not_found ∷ not_found ∷ []

-- The rejections of the eight routes, when the second has `more`
abbrev around : List Rejection → List Rejection
around more =
    (((((nothing_there ++ more) ++ nothing_there) ++ nothing_there) ++ nothing_there)
      ++ nothing_there)
    ++ nothing_there
    ++ nothing_there

module _ {S : Type 0} (warp : Warp S) (laws : IsWarp warp) (services : Services S) (serde : Serde)
    (body : Bytes) where
  abbrev docker_route : Filter S
  docker_route =
      warp.post_route (codes "build" ∷ codes "docker" ∷ []) content_length_limit
        serde.decode_docker_build (handle_build_docker services)

  -- The other routes reject this path.
  make_node_routes-err :
      (s s1 : S) (more : List Rejection)
      → docker_route (docker_request body) s ≡ (err more, s1)
      → make_node_routes warp services serde (docker_request body) s ≡ (err (around more), s1)
  unfolding make_node_routes
  make_node_routes-err s s1 more h =
      let q = docker_request body in
      let none_there = nothing_there in
      laws.or_err _ _ q s s1 s1 _ none_there
        (laws.or_err _ _ q s s1 s1 _ none_there
          (laws.or_err _ _ q s s1 s1 _ none_there
            (laws.or_err _ _ q s s1 s1 _ none_there
              (laws.or_err _ _ q s s1 s1 _ none_there
                (laws.or_err _ _ q s s1 s1 _ none_there
                  (laws.or_err _ _ q s s s1 none_there more
                    (laws.post_elsewhere _ _ _ _ q s (ground arith)) h)
                  (laws.post_elsewhere _ _ _ _ q s1 (ground arith)))
                (laws.get_elsewhere _ _ q s1 (ground arith)))
              (laws.get_elsewhere _ _ q s1 (ground arith)))
            (laws.post_elsewhere _ _ _ _ q s1 (ground arith)))
          (laws.post_elsewhere _ _ _ _ q s1 (ground arith)))
        (laws.post_elsewhere _ _ _ _ q s1 (ground arith))

  make_node_routes-ok :
      (s s1 : S) (x : Response)
      → docker_route (docker_request body) s ≡ (ok x, s1)
      → make_node_routes warp services serde (docker_request body) s ≡ (ok x, s1)
  unfolding make_node_routes
  make_node_routes-ok s s1 x h =
      let q = docker_request body in
      laws.or_ok _ _ q s s1 x (
        laws.or_ok _ _ q s s1 x (
          laws.or_ok _ _ q s s1 x (
            laws.or_ok _ _ q s s1 x (
              laws.or_ok _ _ q s s1 x (
                laws.or_ok _ _ q s s1 x (
                  laws.or_second_ok _ _ q s s s1 nothing_there x
                    (laws.post_elsewhere _ _ _ _ q s (ground arith)) h))))))

  make_node_routes-panicked :
      (s s1 : S)
      → docker_route (docker_request body) s ≡ (panicked, s1)
      → make_node_routes warp services serde (docker_request body) s ≡ (panicked, s1)
  unfolding make_node_routes
  make_node_routes-panicked s s1 h =
      let q = docker_request body in
      laws.or_panicked _ _ q s s1 (
        laws.or_panicked _ _ q s s1 (
          laws.or_panicked _ _ q s s1 (
            laws.or_panicked _ _ q s s1 (
              laws.or_panicked _ _ q s s1 (
                laws.or_panicked _ _ q s s1 (
                  laws.or_second_panicked _ _ q s s s1 nothing_there
                    (laws.post_elsewhere _ _ _ _ q s (ground arith)) h))))))

  abbrev answered : List Rejection → Response
  answered rejections = recovered (custom_recover warp.finds rejections)

  serve_http-ok :
      (s s1 : S) (x : Response)
      → docker_route (docker_request body) s ≡ (ok x, s1)
      → serve_http warp services serde (docker_request body) s ≡ (ok x, s1)
  unfolding serve_http
  serve_http-ok s s1 x h = laws.recover_ok answered _ _ s s1 x (make_node_routes-ok s s1 x h)

  serve_http-panicked :
      (s s1 : S)
      → docker_route (docker_request body) s ≡ (panicked, s1)
      → serve_http warp services serde (docker_request body) s ≡ (panicked, s1)
  unfolding serve_http
  serve_http-panicked s s1 h =
      laws.recover_panicked answered _ _ s s1 (make_node_routes-panicked s s1 h)

  serve_http-err :
      (s s1 : S) (more : List Rejection)
      → docker_route (docker_request body) s ≡ (err more, s1)
      → serve_http warp services serde (docker_request body) s ≡ (ok (answered (around more)), s1)
  unfolding serve_http
  serve_http-err s s1 more h =
      laws.recover_err answered _ _ s s1 (around more) (make_node_routes-err s s1 more h)

  own_rejection : (r : Rejection) → IsOwn r → answered (around (r ∷ [])) ≡ nothing_found
  unfolding custom_recover
  own_rejection r own =
      let found =
        laws.finds_none (around (r ∷ [])) (tt, (own, (tt, (tt, (tt, (tt, (tt, (tt, tt)))))))) in
      ground (arith, found)

  -- A body that is no request for a Docker build is answered with 500 and changes nothing.
  pub serve_http-unread :
      (s : S)
      → serde.decode_docker_build body ≡ none
      → serve_http warp services serde (docker_request body) s ≡ (ok nothing_found, s)
  serve_http-unread s unread = elim (Bool-cases (ltb (1024 * 8) (length body))) [
    | inl e ↦
        serve_http-err s s (payload_too_large ∷ []) (laws.post_long _ _ _ _ body s (ground arith))
        ∙ ap (λ x. (ok x, s)) (own_rejection payload_too_large tt)
    | inr e ↦
        serve_http-err s s (body_deserialize_error ∷ [])
          (laws.post_unread _ _ _ _ body s (ground arith) unread)
        ∙ ap (λ x. (ok x, s)) (own_rejection body_deserialize_error tt)
  ]

  module _ (request : RequestDockerBuild) (decoded : serde.decode_docker_build body ≡ some request)
      (fits : length body ≤ 1024 * 8) where
    routed :
        (s : S)
        → docker_route (docker_request body) s ≡ handled (handle_build_docker services request s)
    routed s = laws.post_handled _ _ _ _ body s request fits decoded

    pub serve_http-built :
        (s s1 : S) (x : Response)
        → handle_build_docker services request s ≡ (ok x, s1)
        → serve_http warp services serde (docker_request body) s ≡ (ok x, s1)
    serve_http-built s s1 x h = serve_http-ok s s1 x (routed s ∙ ap handled h)

    pub serve_http-refused :
        (s s1 : S) (e : RegistryError)
        → handle_build_docker services request s ≡ (err (custom e), s1)
        → serve_http warp services serde (docker_request body) s
          ≡ (ok (recovered (registry_answer e.code)), s1)
    unfolding custom_recover
    serve_http-refused s s1 e h =
        let found = laws.finds_one nothing_there six_more e (tt, tt) in
        serve_http-err s s1 (custom e ∷ []) (routed s ∙ ap handled h) ∙ ground (arith, found)

    pub serve_http-broken :
        (s s1 : S)
        → handle_build_docker services request s ≡ (panicked, s1)
        → serve_http warp services serde (docker_request body) s ≡ (panicked, s1)
    serve_http-broken s s1 h = serve_http-panicked s s1 (routed s ∙ ap handled h)
