-- ===== src/Tests/Responses.antt =====
-- Responses, redirects and the dispatch of server functions on concrete inputs.
use leptos_ntex.Base.{
  ◌≡◌, refl, ◌⊎◌, if◌then◌else◌, true, false, Bytes, codes, bytes_eq, eq_ignore_ascii_case,
  ascii_lower, Option, none, some, is_some, unwrap_or, List, [], ◌∷◌,
}
use leptos_ntex.Config.{saturating_add}
use leptos_ntex.Headers.{holds}
use leptos_ntex.Headers.Association.{
  association, association-IsLawful, values, without, names, less,
}
use leptos_ntex.Requests.{Token, with_request, registry}
use leptos_ntex.Requests
use leptos_ntex.Responses.{
  ResponseParts, Response, Context, header_merge, extend_response_parts, merge_keys, merge_key,
  merge_values, append_all, redirect, redirected, insert_header, last, is_success,
}
use leptos_ntex.Responses.Merging.{merged, get_all-extend_response_parts}
use leptos_ntex.WebSocket.Handshake.{HandshakeError}
use leptos_ntex.ServerFn.Dispatch.{
  remove_all, Parsers, Origin, Incoming, location, answered, dispatch_server_fn,
  finalize_error_response, same_origin_location, same_origin_uri, is_origin_relative, drain_payload,
  drain_from, oversize_response,
}
use leptos_ntex.ServerFn.Dispatch.Errors.{
  owned, get_all-finalize_error_response, dispatch_server_fn-failure,
}
use leptos_ntex.ServerFn.Dispatch.Locations.{dispatch_server_fn-location}

abbrev framework : Response association
framework = record {
  status = 200;
  headers = (codes "content-type", codes "text/html") ∷ (codes "set-cookie", codes "a=1") ∷ [];
}

abbrev application : ResponseParts association
application = record {
  status = some 404;
  headers =
      (codes "set-cookie", codes "b=2")
      ∷ (codes "content-type", codes "text/plain")
      ∷ (codes "set-cookie", codes "c=3")
      ∷ [];
}

extend_response_parts_test :
    (values (codes "set-cookie") (extend_response_parts association application framework).headers
      ≡ codes "a=1" ∷ codes "b=2" ∷ codes "c=3" ∷ [])
    × (values
          (codes "content-type")
          (extend_response_parts association application framework).headers
        ≡ codes "text/plain" ∷ [])
unfolding extend_response_parts merge_keys merge_key merge_values append_all header_merge holds
    bytes_eq values without names less
extend_response_parts_test = (refl, refl)

get_all-extend_response_parts_example :
    (values (codes "set-cookie") (extend_response_parts association application framework).headers
      ≡ merged
          (header_merge (codes "set-cookie"))
          (values (codes "set-cookie") framework.headers)
          (values (codes "set-cookie") application.headers))
    × ((extend_response_parts association application framework).status
        ≡ unwrap_or application.status 200)
get_all-extend_response_parts_example =
    get_all-extend_response_parts association association-IsLawful application framework
      (codes "set-cookie")

abbrev parsers : Parsers
parsers = record {
  to_str = λ v. some v;
  from_str = λ v. some v;
  parse_uri = λ s. some (record {
    scheme = some (codes "http");
    authority = some (codes "evil.test");
    path_and_query = some (codes "/");
  });
  parse_mime = λ s. some (record { type = codes "text"; subtype = codes "html"; q = none });
  parse_f32 = λ s. none;
}

abbrev origin : Origin
origin = record { scheme = codes "http"; host = codes "example.test" }

same_origin_location_test :
    (same_origin_location parsers origin (codes "/form") ≡ some (codes "/form"))
    × (same_origin_location parsers origin (codes "//evil.test") ≡ none)
    × (same_origin_location parsers origin (codes "/\\evil.test") ≡ none)
unfolding same_origin_location same_origin_uri is_origin_relative eq_ignore_ascii_case bytes_eq
    ascii_lower
same_origin_location_test = (refl, refl, refl)

abbrev incoming : Incoming
incoming = record {
  accept = some (codes "text/html");
  raw_referrer = some (codes "http://evil.test/");
  origin = origin;
}

-- A failed call whose form redirect leads to a foreign referrer.
abbrev failed : Response association
failed = record {
  status = 302;
  headers =
      (codes "location", codes "http://evil.test/") ∷ (codes "serverfnerror", codes "/api") ∷ [];
}

abbrev error_response : HandshakeError → Response association
error_response e = record { status = 400; headers = [] }

abbrev overrides : ResponseParts association
overrides = record {
  status = none;
  headers = (codes "location", codes "http://elsewhere.test/") ∷ [];
}

dispatch_server_fn-location_example :
    (last (values location overrides.headers) ≡ some (codes "http://elsewhere.test/"))
    ⊎ (is_some (same_origin_location parsers origin (codes "http://elsewhere.test/")) ≡ true)
unfolding finalize_error_response oversize_response extend_response_parts merge_keys merge_key
    merge_values append_all header_merge holds bytes_eq values without names less dispatch_server_fn
    remove_all
dispatch_server_fn-location_example =
    dispatch_server_fn-location association association-IsLawful parsers (codes "serverfnerror")
      error_response (λ e. refl) incoming failed overrides true none
      (codes "http://elsewhere.test/") refl

dispatch_server_fn-failure_example :
    is_success
      (dispatch_server_fn association parsers
        (codes "serverfnerror")
        error_response
        incoming
        (answered failed overrides false none)).0.status
    ≡ false
unfolding bytes_eq values is_success
dispatch_server_fn-failure_example =
    dispatch_server_fn-failure association association-IsLawful parsers (codes "serverfnerror") refl
      error_response incoming failed overrides refl refl refl

get_all-finalize_error_response_example :
    ((finalize_error_response association framework application).0.status ≡ 200)
    × (values
          (codes "content-type")
          (finalize_error_response association framework application).0.headers
        ≡ (if holds (codes "content-type") owned
            then values (codes "content-type") framework.headers
            else merged
                (header_merge (codes "content-type"))
                (values (codes "content-type") framework.headers)
                (values (codes "content-type") application.headers)))
get_all-finalize_error_response_example =
    get_all-finalize_error_response association association-IsLawful framework application
      (codes "content-type")

abbrev chunks : List (Option Bytes)
chunks = some (codes "abc") ∷ some (codes "d") ∷ some (codes "e") ∷ []

drain_payload_test : drain_payload 3 chunks ≡ some (codes "e") ∷ []
unfolding drain_payload drain_from saturating_add
drain_payload_test = refl

abbrev token : Token
token = record { scope = 1; id = 0; origin = 7 }

abbrev context : Context association
context = record {
  thread = 7;
  world = record {
    next_scope = 2;
    scopes = record { id = 1; origin = 7; next_id = 1; dirty = false; entries = (0, 42) ∷ [] } ∷ [];
    handles = token ∷ [];
  };
  token = some token;
  options = some (record { status = none; headers = [] });
}

abbrev after : ResponseParts association
after = record {
  status = none;
  headers = (codes "location", codes "/in") ∷ (codes "serverfnredirect", []) ∷ [];
}

redirect_test :
    redirect association parsers.parse_mime parsers.parse_f32
      (λ v. some v)
      (λ n. none)
      (codes "serverfnredirect")
      (codes "/in")
      context
    ≡ some after
unfolding redirect redirected with_request registry Requests.get insert_header bytes_eq without
redirect_test = refl
