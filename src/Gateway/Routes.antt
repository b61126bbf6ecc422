-- ===== src/Gateway/Routes.antt =====
-- The routes of localbench/gateway.py: `route_request`, `_clef_route`, the tests on purposes, and the
-- two lookups of `_dispatch`. A path is given without its query, as `urlsplit(path).path` has it.
pub mod Closed
use Prim.Native.String.{count}
use localbench.Base.{
  ℕ, String, Bool, true, false, not, ◌&&◌, ◌||◌, Option, none, some, List, [], ◌∷◌, ◌==◌, any, ltb,
  leb, concat, if◌then◌else◌, is_some, strip_prefix, remove_prefix, remove_suffix, split_slash,
  join_slash, has_code, all_codes,
}
use localbench.Gateway.Store.{clef_profile}

pub record Route : Type 0 where
  pub kind : String
  pub profile : Option String
  pub upstream_path : Option String
  pub upstream : String
  pub feature : String

-- A route, or a `RouteError` with its status and message.
pub data Routed : Type 0 where
  routed : Route → Routed
  refused : ℕ → String → Routed

abbrev pub plain : String → Option String → Route
plain kind upstream_path = record {
  kind = kind;
  profile = none;
  upstream_path = upstream_path;
  upstream = "ollama";
  feature = "";
}

-- `[a-z0-9-]{1,64}` on the whole text
unfoldable pub is_clef_name : String → Bool
is_clef_name name =
    leb 1 (count name)
    && leb (count name) 64
    && all_codes (λ n. leb 97 n && leb n 122 || leb 48 n && leb n 57 || leb 45 n && leb n 45) name

abbrev pub clef_inference : String → Route
clef_inference name = record {
  kind = "inference";
  profile = some clef_profile;
  upstream_path = some "/v1/systemone";
  upstream = "clef";
  feature = concat ("proj-b-" ∷ name ∷ []);
}

abbrev clef_identity : Route
clef_identity = record {
  kind = "discovery";
  profile = none;
  upstream_path = some "/";
  upstream = "clef";
  feature = "";
}

unfoldable pub clef_route : String → String → Routed
clef_route method tail =
    let name = remove_suffix "/v1/systemone" tail in
    if method == "GET"
    then if tail == ""
      then routed clef_identity
      else refused 404 "clef-flash GET serves only /proj-b/clef-flash/"
    else if not (method == "POST")
    then refused 405 "clef-flash decision calls require POST"
    else if is_clef_name name
    then routed (clef_inference name)
    else refused 400 "clef-flash route must be 1-64 characters of [a-z0-9-]"

abbrev pub contains : String → List String → Bool
contains name names = any (λ n. n == name) names

abbrev pub endpoints : List String
endpoints = "responses" ∷ "chat/completions" ∷ "completions" ∷ "embeddings" ∷ "systemone" ∷ []

abbrev pub upstream_path_of : String → String
upstream_path_of endpoint = concat ("/v1/" ∷ endpoint ∷ [])

abbrev pub inference : String → String → Route
inference profile endpoint = record {
  kind = "inference";
  profile = some profile;
  upstream_path = some (upstream_path_of endpoint);
  upstream = "ollama";
  feature = "";
}

unfoldable pub endpoint_route : String → String → Routed
endpoint_route profile endpoint =
    if any (λ e. endpoint == e) endpoints
    then routed (inference profile endpoint)
    else refused 404 "unsupported OMP inference endpoint"

-- `profile in {".", ".."} or "/" in profile or "\\" in profile`
unfoldable pub is_bad_profile : String → Bool
is_bad_profile profile =
    profile == "." || profile == ".." || has_code 47 profile || has_code 92 profile

abbrev pub profile_route : String → Option String → String → List String → Routed
profile_route method none endpoint profiles = refused 400 "invalid profile route encoding"
profile_route method (some profile) endpoint profiles =
    if is_bad_profile profile
    then refused 400 "invalid OMP profile name"
    else if not (contains profile profiles)
    then refused 404 "OMP profile is not registered with the gateway"
    else if not (method == "POST")
    then refused 405 "OMP inference endpoints require POST"
    else endpoint_route profile (remove_prefix "v1/" endpoint)

-- The test and the two `removeprefix` of the clef-flash paths.
abbrev pub clef_tail : String → Option String
clef_tail pathname =
    if pathname == "/proj-b/clef-flash" || is_some (strip_prefix "/proj-b/clef-flash/" pathname)
    then some (remove_prefix "/" (remove_prefix "/proj-b/clef-flash" pathname))
    else none

-- `_dispatch` first routes without the registered profiles, and reads them if that fails.
abbrev pub second_route : Routed → Routed → Routed
second_route (routed r) again = routed r
second_route (refused status message) again = again

-- `unquote` decodes a percent-encoded text, and fails where its bytes are not UTF-8.
module _ (unquote : String → Option String) where
  abbrev pub pieces_route : String → List String → List String → Routed
  pieces_route method (first ∷ second ∷ rest) profiles =
      if first == "" || any (λ p. p == "") (second ∷ rest)
      then refused 404 "invalid OMP profile route"
      else profile_route method (unquote first) (join_slash (second ∷ rest)) profiles
  pieces_route method _ profiles = refused 404 "invalid OMP profile route"

  abbrev pub omp_route : String → Option String → List String → Routed
  omp_route method none profiles =
      refused 404 "route is not managed by the Ollama residency gateway"
  omp_route method (some rest) profiles = pieces_route method (split_slash rest) profiles

  abbrev pub prefixed_route : String → Option String → String → List String → Routed
  prefixed_route method (some tail) pathname profiles = clef_route method tail
  prefixed_route method none pathname profiles =
      omp_route method (strip_prefix "/omp-profile/" pathname) profiles

  unfoldable pub route_request : String → String → List String → Routed
  route_request method pathname profiles =
      if method == "GET" && pathname == "/healthz"
      then routed (plain "health" none)
      else if method == "GET" && pathname == "/api/tags"
      then routed (plain "discovery" (some "/api/tags"))
      else if method == "POST" && pathname == "/api/show"
      then routed (plain "discovery" (some "/api/show"))
      else if method == "POST" && pathname == "/v1/systemone"
      then routed (plain "inference" (some "/v1/systemone"))
      else prefixed_route method (clef_tail pathname) pathname profiles

  unfoldable pub dispatch_route : String → String → List String → Routed
  unfolding route_request
  dispatch_route method pathname profiles =
      second_route (route_request method pathname []) (route_request method pathname profiles)

-- `purpose.startswith("decision")`
unfoldable pub auxiliary_purpose : String → Bool
auxiliary_purpose purpose =
    not (purpose == "main") && not (is_some (strip_prefix "decision" purpose))

-- An entry of the capture plan that is a text; other entries match nothing.
unfoldable pub capture_matches : List String → String → Bool
capture_matches purposes purpose =
    any (λ entry. purpose == entry || is_some (strip_prefix (concat (entry ∷ ":" ∷ [])) purpose))
      purposes
