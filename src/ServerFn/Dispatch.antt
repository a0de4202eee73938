-- ===== src/ServerFn/Dispatch.antt =====
-- src/server_fn/handlers.rs: what becomes of a server function's response before it is sent. The
-- service itself, and the readings of header values, URIs and media ranges are arguments.
pub mod Locations
pub mod Errors
pub mod Refusals
use leptos_ntex.Base.{
  ℕ, ◌+◌, ◌==◌, ltb, leb, if◌then◌else◌, Bool, true, false, not, ◌&&◌, ◌||◌, Bytes, codes, bytes_eq,
  eq_ignore_ascii_case, Option, none, some, is_some, is_none, unwrap_or, List, [], ◌∷◌, ◌++◌,
  length, Result, ok, err,
}
use leptos_ntex.Config.{saturating_add, content_length_exceeds}
use leptos_ntex.Headers.{HeaderName, HeaderValue, HeaderMap}
use leptos_ntex.Responses.{
  Mime, accept_header_includes_html, Response, ResponseParts, get, contains_key, default_parts,
  is_success, is_redirection, representation_headers, failed_representation_headers,
  extend_response_parts, extend_response,
}
use leptos_ntex.ServerFn.Registry.{ServerFnMap, lookup_server_fn, server_fn_methods}
use leptos_ntex.WebSocket.Handshake.{HandshakeError}

-- `http::Uri`, as far as it is read.
pub record Uri : Type 0 where
  pub scheme : Option Bytes
  pub authority : Option Bytes
  pub path_and_query : Option Bytes

-- `HeaderValue::to_str` and `from_str`, and the parsers of URIs, media ranges and weights.
pub record Parsers : Type 0 where
  pub to_str : HeaderValue → Option Bytes
  pub from_str : Bytes → Option HeaderValue
  pub parse_uri : Bytes → Option Uri
  pub parse_mime : Bytes → Option Mime
  pub parse_f32 : Bytes → Option ℕ

pub record Origin : Type 0 where
  pub scheme : Bytes
  pub host : Bytes

-- A leading `/` that neither `/` nor `\` follows.
unfoldable pub is_origin_relative : Bytes → Bool
is_origin_relative [] = false
is_origin_relative (b ∷ []) = b == b'/'
is_origin_relative (b ∷ c ∷ s) = b == b'/' && not (c == b'/' || c == b'\\')

-- The absolute form.
unfoldable pub same_origin_uri : Parsers → Origin → Uri → Option HeaderValue
unfolding eq_ignore_ascii_case
same_origin_uri p origin uri = elim uri.scheme [
  | none ↦ none
  | some scheme ↦ elim uri.authority [
    | none ↦ none
    | some authority ↦
        if not (eq_ignore_ascii_case scheme origin.scheme)
          || not (eq_ignore_ascii_case authority origin.host)
        then none
        else p.from_str (unwrap_or uri.path_and_query (codes "/"))
  ]
]

unfoldable pub same_origin_location : Parsers → Origin → HeaderValue → Option HeaderValue
same_origin_location p origin value = elim (p.to_str value) [
  | none ↦ none
  | some s ↦
      if is_origin_relative s
      then p.from_str s
      else elim (p.parse_uri s) [ none ↦ none | some uri ↦ same_origin_uri p origin uri ]
]

-- `str::strip_suffix('?')`.
unfoldable pub strip_question : Bytes → Option Bytes
strip_question [] = none
strip_question (b ∷ []) = if b == b'?' then some [] else none
strip_question (b ∷ c ∷ s) = elim (strip_question (c ∷ s)) [ none ↦ none | some r ↦ some (b ∷ r) ]

unfoldable pub location_matches_referrer : Parsers → (location referrer : HeaderValue) → Bool
unfolding bytes_eq strip_question
location_matches_referrer p location referrer = elim (p.to_str location) [
  | none ↦ false
  | some l ↦ elim (p.to_str referrer) [
    | none ↦ false
    | some r ↦
        bytes_eq l r
        || (elim (strip_question l) [ none ↦ false | some stripped ↦ bytes_eq stripped r ])
  ]
]

-- What the dispatch reads of the request: the first `Accept` value as text, the `Referer` and the
-- connection's origin.
pub record Incoming : Type 0 where
  pub accept : Option Bytes
  pub raw_referrer : Option HeaderValue
  pub origin : Origin

unfoldable pub accepts_html : Parsers → Incoming → Bool
accepts_html p incoming = elim incoming.accept [
  | none ↦ false
  | some accept ↦ accept_header_includes_html p.parse_mime p.parse_f32 accept
]

unfoldable pub referrer : Parsers → Incoming → Option HeaderValue
referrer p incoming = elim incoming.raw_referrer [
  | none ↦ none
  | some value ↦ same_origin_location p incoming.origin value
]

-- Whether the location, if any, echoes the referrer, if any.
unfoldable pub is_echo : Parsers → (location raw_referrer : Option HeaderValue) → Bool
is_echo p none raw = false
is_echo p (some location) none = false
is_echo p (some location) (some raw) = location_matches_referrer p location raw

-- `drain_payload`: the chunks that are left unread.
unfoldable pub drain_from : (limit seen : ℕ) → List (Option Bytes) → List (Option Bytes)
unfolding saturating_add
drain_from limit seen [] = []
drain_from limit seen (none ∷ chunks) = chunks
drain_from limit seen (some chunk ∷ chunks) =
    let total = saturating_add seen (length chunk) in
    let rest = drain_from limit total chunks in if ltb limit total then chunks else rest

unfoldable pub drain_payload : (limit : ℕ) → List (Option Bytes) → List (Option Bytes)
drain_payload limit chunks = drain_from limit 0 chunks

-- `Vec::join` with a comma and a space.
unfoldable pub join : List Bytes → Bytes
join [] = []
join (m ∷ []) = m
join (m ∷ n ∷ ms) = m ++ (codes ", " ++ join (n ∷ ms))

abbrev pub location : HeaderName
location = codes "location"

module _ (H : HeaderMap) where
  open H use {Map, empty, insert, remove}

  -- `error_header` is server_fn's header of a failed call.
  unfoldable pub reset_status_after_redirect_strip :
      (error_header : HeaderName) → Response H → Response H
  unfolding is_redirection
  reset_status_after_redirect_strip error_header res =
      if is_redirection res.status
      then (record res { status = (if is_some (get H error_header res.headers) then 500 else 200) })
      else res

  unfoldable pub strip_location : (error_header : HeaderName) → Response H → Response H
  strip_location error_header res =
      reset_status_after_redirect_strip error_header
        (record res { headers = remove location res.headers })

  unfoldable pub redirect_to : HeaderValue → Response H → Response H
  redirect_to target res = record { status = 302; headers = insert location target res.headers }

  -- The block under `if accepts_html`.
  unfoldable pub repair_echo :
      Parsers → (error_header : HeaderName) → Incoming → Response H → Response H
  unfolding is_success
  repair_echo p error_header incoming res =
      if not (accepts_html p incoming)
      then res
      else if is_echo p (get H location res.headers) incoming.raw_referrer
      then (elim (referrer p incoming) [
        | some target ↦ redirect_to target res
        | none ↦ strip_location error_header res
      ])
      else if is_success res.status && is_none (get H location res.headers)
      then (elim (referrer p incoming) [ some target ↦ redirect_to target res | none ↦ res ])
      else res

  -- The same-origin invariant of the layer.
  unfoldable pub guard_location :
      Parsers → (error_header : HeaderName) → Origin → Response H → Response H
  guard_location p error_header origin res = elim (get H location res.headers) [
    | none ↦ res
    | some value ↦
        if is_none (same_origin_location p origin value)
        then strip_location error_header res
        else res
  ]

  unfoldable pub oversize_response : Response H
  oversize_response = record {
    status = 413;
    headers = insert (codes "content-type") (codes "text/plain; charset=utf-8") empty;
  }

  -- `error_response` is ntex's response to the error.
  unfoldable pub failure_response :
      (error_response : HandshakeError → Response H) → HandshakeError → Response H
  failure_response error_response HandshakeError.unsupported_version =
      let response = error_response HandshakeError.unsupported_version in
      record response {
        headers = insert (codes "sec-websocket-version") (codes "13, 8, 7") response.headers;
      }
  failure_response error_response error = error_response error

  unfoldable pub remove_all : List HeaderName → Map → Map
  remove_all [] headers = headers
  remove_all (name ∷ names) headers = remove_all names (remove name headers)

  unfoldable pub finalize_error_response :
      Response H → ResponseParts H → Response H × ResponseParts H
  finalize_error_response response options =
      let headers =
        remove_all (representation_headers ++ failed_representation_headers) options.headers in
      (
        extend_response_parts H (record { status = none; headers = headers }) response,
        default_parts H,
      )

  -- The end of the service's run: its response, the options it left, whether the payload was too
  -- large, and a failed handshake; or the connection scope's cancellation.
  pub data Run : Type 0 where
    cancelled : Run
    answered :
        (response : Response H) (options : ResponseParts H) (too_large : Bool)
        (handshake : Option HandshakeError)
        → Run

  abbrev pub failure_of :
      (error_response : HandshakeError → Response H)
      → Bool
      → Option HandshakeError
      → Option (Response H)
  failure_of error_response true handshake = some oversize_response
  failure_of error_response false none = none
  failure_of error_response false (some error) = some (failure_response error_response error)

  -- `dispatch_server_fn` from the service's run to the response.
  unfoldable pub dispatch_server_fn :
      Parsers
      → (error_header : HeaderName) (error_response : HandshakeError → Response H) → Incoming
      → Run
      → Response H × ResponseParts H
  dispatch_server_fn p error_header error_response incoming cancelled =
      (record { status = 200; headers = empty }, default_parts H)
  dispatch_server_fn p error_header error_response incoming
        (answered res options too_large handshake) =
      elim (failure_of error_response too_large handshake) [
        | some failure ↦ finalize_error_response failure options
        | none ↦ extend_response H options (
            guard_location p error_header incoming.origin (repair_echo p error_header incoming res))
      ]

  -- The end of a request: a refusal, or the server function that its path and method name.
  pub data Handled (F : Type 0) : Type 0 where
    responded : (response : Response H) (unread : List (Option Bytes)) → Handled F
    dispatched : (server_fn : F) → Handled F

  unfoldable pub handle_server_fns :
      {F : Type 0}
      → ServerFnMap F
      → (parse_usize : Bytes → Option ℕ) (content_length : Option (Option Bytes)) (limit : ℕ)
        (path method : Bytes) (chunks : List (Option Bytes))
      → Handled F
  unfolding content_length_exceeds
  handle_server_fns fns parse_usize content_length limit path method chunks =
      if content_length_exceeds parse_usize content_length limit
      then responded oversize_response chunks
      else elim (lookup_server_fn path method fns) [
        | some server_fn ↦ dispatched server_fn
        | none ↦ elim (server_fn_methods path fns) [
          | [] ↦ responded (record { status = 400; headers = empty }) (drain_payload limit chunks)
          | m ∷ ms ↦
              responded
                (record { status = 405; headers = insert (codes "allow") (join (m ∷ ms)) empty })
                (drain_payload limit chunks)
        ]
      ]
