-- ===== src/Gateway/Routes/Closed.antt =====
-- What a route of localbench/gateway.py guarantees, and that the two lookups of `_dispatch` are one.
use localbench.Base.{
  String, Bool, true, false, not, ◌&&◌, ◌||◌, Option, none, some, List, [], ◌∷◌, ◌==◌, ◌≡◌, inl,
  inr, refl, sym, arith, any, if◌then◌else◌, strip_prefix, split_slash, holds, join_slash,
  remove_prefix, eq_iff, eq_refl, Bool-cases,
}
use localbench.Gateway.Store.{clef_profile}
use localbench.Gateway.Routes.{
  Route, Routed, routed, refused, clef_route, contains, endpoints, upstream_path_of, endpoint_route,
  is_bad_profile, profile_route, pieces_route, omp_route, clef_tail, prefixed_route, route_request,
  dispatch_route, second_route,
}

abbrev pub is_served : List String → Option String → Bool
is_served names path = any (λ e. holds path (upstream_path_of e)) names

served-path :
    (endpoint : String) (names : List String)
    → any (λ e. endpoint == e) names ≡ true
    → is_served names (some (upstream_path_of endpoint)) ≡ true
served-path endpoint [] h = cc
served-path endpoint (n ∷ ns) h =
    ground (arith, eq_iff endpoint n, eq_refl (upstream_path_of endpoint), served-path endpoint ns)

-- The routes on which a request may reach a model: the loopback route without a profile, an endpoint of a
-- registered profile, and a decision call of the external server.
abbrev pub is_open : List String → Route → Bool
is_open profiles r =
    if r.upstream == "clef"
    then holds r.profile clef_profile && holds r.upstream_path "/v1/systemone"
    else elim r.profile [
      | none ↦ holds r.upstream_path "/v1/systemone"
      | some p ↦
          contains p profiles && not (is_bad_profile p) && is_served endpoints r.upstream_path
    ]

abbrev pub is_closed : String → List String → Routed → Bool
is_closed method profiles (refused status message) = true
is_closed method profiles (routed r) =
    not (r.kind == "inference") || (method == "POST" && is_open profiles r)

module _ (method : String) (profiles : List String) where
  endpoint-closed :
      (p endpoint : String)
      → (method == "POST") ≡ true
      → contains p profiles ≡ true
      → is_bad_profile p ≡ false
      → is_closed method profiles (endpoint_route p endpoint) ≡ true
  unfolding endpoint_route
  endpoint-closed p endpoint post known fine =
      elim (Bool-cases (any (λ e. endpoint == e) endpoints)) [
        | inl served ↦ rw served (ground (arith, served-path endpoint endpoints served))
        | inr other ↦ rw other refl
      ]

  profile-closed :
      (o : Option String) (endpoint : String)
      → is_closed method profiles (profile_route method o endpoint profiles) ≡ true
  profile-closed none endpoint = refl
  profile-closed (some p) endpoint =
      ground (arith, endpoint-closed p (remove_prefix "v1/" endpoint))

  clef-closed : (tail : String) → is_closed method profiles (clef_route method tail) ≡ true
  unfolding clef_route
  clef-closed tail = ground arith

  module _ (unquote : String → Option String) where
    pieces-closed :
        (pieces : List String)
        → is_closed method profiles (pieces_route unquote method pieces profiles) ≡ true
    pieces-closed [] = refl
    pieces-closed (first ∷ []) = refl
    pieces-closed (first ∷ second ∷ rest) =
        ground (arith, profile-closed (unquote first) (join_slash (second ∷ rest)))

    omp-closed :
        (o : Option String) → is_closed method profiles (omp_route unquote method o profiles) ≡ true
    omp-closed none = refl
    omp-closed (some rest) = pieces-closed (split_slash rest)

    prefixed-closed :
        (o : Option String) (pathname : String)
        → is_closed method profiles (prefixed_route unquote method o pathname profiles) ≡ true
    prefixed-closed none pathname = omp-closed (strip_prefix "/omp-profile/" pathname)
    prefixed-closed (some tail) pathname = clef-closed tail

    -- Whatever the path is, an inference route is only given to a POST, and is the loopback route, an
    -- endpoint of a registered profile with a proper name, or a decision call of the external server.
    pub route_request-closed :
        (pathname : String)
        → is_closed method profiles (route_request unquote method pathname profiles) ≡ true
    unfolding route_request
    route_request-closed pathname = ground (arith, prefixed-closed (clef_tail pathname) pathname)

-- Without a registered profile no profile route is found, so the first lookup finds what the second would.
contains-profile :
    (method endpoint : String) (o : Option String) (profiles : List String) (r : Route)
    → profile_route method o endpoint [] ≡ routed r
    → profile_route method o endpoint profiles ≡ routed r
contains-profile method endpoint none profiles r h = cc
contains-profile method endpoint (some p) profiles r h = ground arith

module _ (unquote : String → Option String) (method : String) (profiles : List String) where
  found-pieces :
      (pieces : List String) (r : Route)
      → pieces_route unquote method pieces [] ≡ routed r
      → pieces_route unquote method pieces profiles ≡ routed r
  found-pieces [] r h = cc
  found-pieces (first ∷ []) r h = cc
  found-pieces (first ∷ second ∷ rest) r h =
      ground
        (arith, contains-profile method (join_slash (second ∷ rest)) (unquote first) profiles r)

  found-omp :
      (o : Option String) (r : Route)
      → omp_route unquote method o [] ≡ routed r
      → omp_route unquote method o profiles ≡ routed r
  found-omp none r h = cc
  found-omp (some rest) r h = found-pieces (split_slash rest) r h

  found-prefixed :
      (o : Option String) (pathname : String) (r : Route)
      → prefixed_route unquote method o pathname [] ≡ routed r
      → prefixed_route unquote method o pathname profiles ≡ routed r
  found-prefixed none pathname r h = found-omp (strip_prefix "/omp-profile/" pathname) r h
  found-prefixed (some tail) pathname r h = h

  found-request :
      (pathname : String) (r : Route)
      → route_request unquote method pathname [] ≡ routed r
      → route_request unquote method pathname profiles ≡ routed r
  unfolding route_request
  found-request pathname r h = ground (arith, found-prefixed (clef_tail pathname) pathname r)

  chosen :
      (first again : Routed)
      → ((r : Route) → first ≡ routed r → again ≡ routed r)
      → second_route first again ≡ again
  chosen (routed r) again same = sym (same r refl)
  chosen (refused status message) again same = refl

  -- The lookup without the store and then with it routes every request as one lookup with the
  -- registered profiles would, so /healthz and the discovery routes do not wait for the ledger.
  pub dispatch-route_request :
      (pathname : String)
      → dispatch_route unquote method pathname profiles
        ≡ route_request unquote method pathname profiles
  unfolding dispatch_route
  dispatch-route_request pathname = chosen _ _ (found-request pathname)
