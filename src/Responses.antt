-- ===== src/Responses.antt =====
-- src/response.rs: the overrides of a response and how they join the framework's own headers, and
-- the redirect helper. A response is its status and its headers; its body takes no part.
pub mod Merging
pub mod Redirects
use leptos_ntex.Base.{
  ℕ, ◌==◌, ltb, leb, if◌then◌else◌, Bool, true, false, not, ◌&&◌, ◌||◌, any, Bytes, codes, bytes_eq,
  Option, none, some, is_some, List, [], ◌∷◌, ◌++◌, map, Result, ok, err,
}
use leptos_ntex.Files.{split_on, trim, parse_qvalue}
use leptos_ntex.Headers.{HeaderName, HeaderValue, holds, first, is_empty, HeaderMap}
use leptos_ntex.Requests.{RequestAccessError, Token, World, with_request}

abbrev pub representation_headers : List HeaderName
representation_headers =
    codes "content-length"
    ∷ codes "content-type"
    ∷ codes "content-encoding"
    ∷ codes "content-range"
    ∷ codes "transfer-encoding"
    ∷ codes "accept-ranges"
    ∷ codes "etag"
    ∷ codes "last-modified"
    ∷ codes "content-digest"
    ∷ codes "digest"
    ∷ []

abbrev pub failed_representation_headers : List HeaderName
failed_representation_headers =
    codes "content-language"
    ∷ codes "content-location"
    ∷ codes "repr-digest"
    ∷ codes "sec-websocket-version"
    ∷ []

-- The names of the match arms of `header_merge`.
abbrev representation_lists : List HeaderName
representation_lists =
    codes "content-encoding"
    ∷ codes "transfer-encoding"
    ∷ codes "accept-ranges"
    ∷ codes "content-language"
    ∷ []

abbrev single_valued : List HeaderName
single_valued =
    codes "location"
    ∷ codes "expires"
    ∷ codes "content-disposition"
    ∷ codes "retry-after"
    ∷ codes "age"
    ∷ codes "date"
    ∷ codes "server"
    ∷ codes "strict-transport-security"
    ∷ codes "x-frame-options"
    ∷ codes "x-content-type-options"
    ∷ codes "referrer-policy"
    ∷ []

pub data HeaderMerge : Type 0 where
  replace_one replace_list append_values : HeaderMerge

unfoldable pub header_merge : HeaderName → HeaderMerge
unfolding holds
header_merge key =
    if holds key representation_headers || holds key failed_representation_headers
    then (if holds key representation_lists
        then HeaderMerge.replace_list
        else HeaderMerge.replace_one)
    else if holds key single_valued
    then HeaderMerge.replace_one
    else if bytes_eq key (codes "cache-control")
    then HeaderMerge.replace_list
    else HeaderMerge.append_values

-- `Iterator::last`.
abbrev pub last : List HeaderValue → Option HeaderValue
last [] = none
last (v ∷ []) = some v
last (v ∷ w ∷ values) = last (w ∷ values)

-- `StatusCode::is_success` and `is_redirection`.
unfoldable pub is_success : ℕ → Bool
is_success status = leb 200 status && ltb status 300

unfoldable pub is_redirection : ℕ → Bool
is_redirection status = leb 300 status && ltb status 400

-- A media range as the `mime` crate reads it.
pub record Mime : Type 0 where
  pub type : Bytes
  pub subtype : Bytes
  pub q : Option Bytes

-- One range of `accept_header_includes_html`; the mime parser and the parser of a weight are
-- arguments.
unfoldable pub range_includes_html :
    (parse_mime : Bytes → Option Mime) (parse_f32 : Bytes → Option ℕ) → Bytes → Bool
unfolding trim bytes_eq parse_qvalue
range_includes_html parse_mime parse_f32 range = elim (parse_mime (trim range)) [
  | none ↦ false
  | some media ↦
      if not (bytes_eq media.type (codes "text")) || not (bytes_eq media.subtype (codes "html"))
      then false
      else elim media.q [
        | none ↦ true
        | some q ↦ elim (parse_qvalue parse_f32 q) [ none ↦ true | some w ↦ ltb 0 w ]
      ]
]

unfoldable pub accept_header_includes_html :
    (parse_mime : Bytes → Option Mime) (parse_f32 : Bytes → Option ℕ) → Bytes → Bool
unfolding range_includes_html split_on
accept_header_includes_html parse_mime parse_f32 accept =
    any (range_includes_html parse_mime parse_f32) (split_on b',' accept)

module _ (H : HeaderMap) where
  open H use {Map, empty, keys, get_all, insert, append, remove}

  pub record ResponseParts : Type 0 where
    pub status : Option ℕ
    pub headers : Map

  pub record Response : Type 0 where
    pub status : ℕ
    pub headers : Map

  -- `HeaderMap::get` and `contains_key`.
  abbrev pub get : HeaderName → Map → Option HeaderValue
  get key headers = first (get_all key headers)

  abbrev pub contains_key : HeaderName → Map → Bool
  contains_key key headers = not (is_empty (get_all key headers))

  -- `ResponseParts::default`.
  abbrev pub default_parts : ResponseParts
  default_parts = record { status = none; headers = empty }

  -- The operations of `ResponseOptions`, on the parts behind its lock.
  unfoldable pub overwrite : ResponseParts → ResponseParts → ResponseParts
  overwrite parts options = parts

  unfoldable pub set_status : ℕ → ResponseParts → ResponseParts
  set_status status options = record options { status = some status }

  unfoldable pub insert_header : HeaderName → HeaderValue → ResponseParts → ResponseParts
  insert_header key value options = record options { headers = insert key value options.headers }

  unfoldable pub append_header : HeaderName → HeaderValue → ResponseParts → ResponseParts
  append_header key value options = record options { headers = append key value options.headers }

  unfoldable pub append_all : HeaderName → List HeaderValue → Map → Map
  append_all key [] headers = headers
  append_all key (value ∷ values) headers = append_all key values (append key value headers)

  -- `if let Some(value) = values.last()`.
  abbrev pub insert_last : HeaderName → Option HeaderValue → Map → Map
  insert_last key none headers = headers
  insert_last key (some value) headers = insert key value headers

  -- The body of the loop of `extend_response_parts`: the arms and the whole.
  unfoldable pub merge_values : HeaderMerge → HeaderName → List HeaderValue → Map → Map
  unfolding append_all
  merge_values HeaderMerge.replace_one key values headers = insert_last key (last values) headers
  merge_values HeaderMerge.replace_list key values headers =
      append_all key values (remove key headers)
  merge_values HeaderMerge.append_values key values headers = append_all key values headers

  unfoldable pub merge_key : Map → HeaderName → Map → Map
  merge_key from key headers = merge_values (header_merge key) key (get_all key from) headers

  unfoldable pub merge_keys : Map → List HeaderName → Map → Map
  merge_keys from [] headers = headers
  merge_keys from (key ∷ names) headers = merge_keys from names (merge_key from key headers)

  unfoldable pub extend_response_parts : ResponseParts → Response → Response
  extend_response_parts parts response =
      let headers = merge_keys parts.headers (keys parts.headers) response.headers in
      elim parts.status [
        | none ↦ record response { headers = headers }
        | some status ↦ record { status = status; headers = headers }
      ]

  -- `extend_response` takes the parts and leaves the default ones.
  unfoldable pub extend_response : ResponseParts → Response → Response × ResponseParts
  unfolding extend_response_parts
  extend_response options response = (extend_response_parts options response, default_parts)

  -- `from_str` is `HeaderValue::from_str`.
  unfoldable pub set_default_content_type :
      (from_str : Bytes → Option HeaderValue) → Bytes → Response → Response
  set_default_content_type from_str content_type response =
      if contains_key (codes "content-type") response.headers
      then response
      else elim (from_str content_type) [
        | none ↦ response
        | some value ↦ record response {
          headers = insert (codes "content-type") value response.headers;
        }
      ]

  -- What `redirect` finds in its context: a request with the world of its scopes, and the options.
  pub record Context : Type 0 where
    pub thread : ℕ
    pub world : World
    pub token : Option Token
    pub options : Option ResponseParts

  -- `Some(true)` if the request accepts HTML, `none` if it cannot be reached. `accept` is the first
  -- `Accept` value of a native request as `to_str` makes of it.
  abbrev pub request_accepts_html :
      (parse_mime : Bytes → Option Mime) (parse_f32 : Bytes → Option ℕ) (accept : ℕ → Option Bytes)
      → Result RequestAccessError ℕ
      → Option Bool
  request_accepts_html parse_mime parse_f32 accept (err e) = none
  request_accepts_html parse_mime parse_f32 accept (ok native) = elim (accept native) [
    | none ↦ some false
    | some value ↦ some (accept_header_includes_html parse_mime parse_f32 value)
  ]

  -- The effects at the end of `redirect`.
  unfoldable pub redirected :
      HeaderName → (accepts_html : Bool) → HeaderValue → ResponseParts → ResponseParts
  redirected redirect_header accepts_html location options =
      let located = insert_header (codes "location") location options in
      if accepts_html then set_status 302 located else insert_header redirect_header [] located

  -- `redirect`, as the options it leaves; the name of server_fn's header is an argument.
  unfoldable pub redirect :
      (parse_mime : Bytes → Option Mime) (parse_f32 : Bytes → Option ℕ)
      (from_str : Bytes → Option HeaderValue) (accept : ℕ → Option Bytes)
      (redirect_header : HeaderName) (path : Bytes)
      → Context
      → Option ResponseParts
  redirect parse_mime parse_f32 from_str accept redirect_header path c = elim c.token [
    | none ↦ c.options
    | some token ↦ elim c.options [
      | none ↦ none
      | some options ↦ elim (from_str path) [
        | none ↦ some options
        | some location ↦
            elim (request_accepts_html parse_mime parse_f32 accept
              (with_request c.thread token c.world)) [
                | none ↦ some options
                | some accepts_html ↦
                    some (redirected redirect_header accepts_html location options)
              ]
      ]
    ]
  ]
