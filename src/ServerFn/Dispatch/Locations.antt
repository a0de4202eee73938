-- ===== src/ServerFn/Dispatch/Locations.antt =====
-- src/server_fn/handlers.rs: where a dispatched response may send the client.
use leptos_ntex.Base.{
  ◌≡◌, ◌⊎◌, refl, sym, ◌∙◌, ap, arith, inl, inr, Bool, true, false, Bool-cases, Option-cases, codes,
  bytes_eq, bytes_eq_iff, Option, none, some, is_some, is_none, List, [], ◌∷◌,
}
use leptos_ntex.Headers.{HeaderName, HeaderValue, holds, first, HeaderMap, IsLawful}
use leptos_ntex.Responses.{
  HeaderMerge, header_merge, last, get, extend_response_parts, extend_response, ResponseParts,
  Response, is_redirection,
}
use leptos_ntex.Responses.Merging.{merged, get_all-extend_response_parts}
use leptos_ntex.WebSocket.Handshake.{HandshakeError}
use leptos_ntex.ServerFn.Dispatch.Errors.{owned, get_all-finalize_error_response}
use leptos_ntex.ServerFn.Dispatch.{
  Parsers, Origin, Incoming, same_origin_location, location, strip_location,
  reset_status_after_redirect_strip, guard_location, oversize_response, failure_response,
  finalize_error_response, answered, dispatch_server_fn, repair_echo,
}

merge_location : header_merge location ≡ HeaderMerge.replace_one
unfolding header_merge holds bytes_eq
merge_location = refl

-- The first value of a header with one value, after an extension.
first-merged :
    (old new : List HeaderValue) (v : HeaderValue)
    → first (merged HeaderMerge.replace_one old new) ≡ some v
    → (last new ≡ some v) ⊎ (first old ≡ some v)
first-merged old [] v h = inr h
first-merged old (w ∷ new) v h = elim (Option-cases (last (w ∷ new))) [
  | inl gone ↦ absurd (ground (arith, gone, h))
  | inr (u, e) ↦ inl (ground (arith, e, h))
]

module _ (H : HeaderMap) (L : IsLawful H) (p : Parsers) (error_header : HeaderName) where
  open H use {get_all, insert, remove}

  headers-reset_status :
      (res : Response H)
      → (reset_status_after_redirect_strip H error_header res).headers ≡ res.headers
  unfolding reset_status_after_redirect_strip
  headers-reset_status res = elim (Bool-cases (is_redirection res.status)) [
    | inl redirected ↦ rw redirected refl
    | inr other ↦ rw other refl
  ]

  location-strip_location :
      (res : Response H) → get H location (strip_location H error_header res).headers ≡ none
  unfolding strip_location
  location-strip_location res =
      ap (get H location)
        (headers-reset_status (record res { headers = remove location res.headers }))
      ∙ rw (L.get_all-remove location location res.headers, (bytes_eq_iff location location).1 refl)
          refl

  guarded :
      (origin : Origin) (res : Response H) (v : HeaderValue)
      → get H location (guard_location H p error_header origin res).headers ≡ some v
      → is_some (same_origin_location p origin v) ≡ true
  unfolding guard_location
  guarded origin res v h = elim (Option-cases (get H location res.headers)) [
    | inl gone ↦
        let is : guard_location H p error_header origin res ≡ res =
          rw (guard_location, gone) refl in
        absurd (ground (arith, gone, sym (ap at is) ∙ h))
    | inr (w, e) ↦ elim (Bool-cases (is_none (same_origin_location p origin w))) [
      | inl foreign ↦
          let is : guard_location H p error_header origin res ≡ strip_location H error_header res =
            rw (guard_location, e, foreign) refl in
          absurd (ground (arith, location-strip_location res, sym (ap at is) ∙ h))
      | inr own ↦
          let is : guard_location H p error_header origin res ≡ res =
            rw (guard_location, e, own) refl in
          let same : v ≡ w = ground (arith, e, sym (ap at is) ∙ h) in rw same (ground (arith, own))
    ]
  ]
    where
      at : Response H → Option HeaderValue
      at r = get H location r.headers

  -- The first value of `Location` of an extended response.
  location-extend :
      (parts : ResponseParts H) (res : Response H) (v : HeaderValue)
      → get H location (extend_response_parts H parts res).headers ≡ some v
      → (last (get_all location parts.headers) ≡ some v) ⊎ (get H location res.headers ≡ some v)
  location-extend parts res v h =
      first-merged (get_all location res.headers) (get_all location parts.headers) v (
        sym (
          ap first (
            (get_all-extend_response_parts H L parts res location).0
            ∙ ap
                (λ kind.
                  merged kind (get_all location res.headers) (get_all location parts.headers))
                merge_location))
        ∙ h)

  not_owned : holds location owned ≡ false
  unfolding holds bytes_eq
  not_owned = refl

  location-finalize_error_response :
      (failure : Response H) (options : ResponseParts H) (v : HeaderValue)
      → get_all location failure.headers ≡ []
      → get H location (finalize_error_response H failure options).0.headers ≡ some v
      → last (get_all location options.headers) ≡ some v
  location-finalize_error_response failure options v absent h =
      let kept = (get_all-finalize_error_response H L failure options location).1 in
      let joined : first (merged HeaderMerge.replace_one [] (get_all location options.headers))
          ≡ some v =
        sym (ap first (kept ∙ rw (not_owned, merge_location, absent) refl)) ∙ h in
      elim (first-merged [] (get_all location options.headers) v joined) [
        | inl own ↦ own
        | inr old ↦ absurd (cc)
      ]

  oversize-location : get_all location (oversize_response H).headers ≡ []
  unfolding oversize_response bytes_eq
  oversize-location =
      L.get_all-insert location (codes "content-type") _ H.empty ∙ L.get_all-empty location

  failure-location :
      (error_response : HandshakeError → Response H)
      → ((e : HandshakeError) → get_all location (error_response e).headers ≡ [])
      → (e : HandshakeError) → get_all location (failure_response H error_response e).headers ≡ []
  unfolding failure_response bytes_eq
  failure-location error_response f HandshakeError.unsupported_version =
      L.get_all-insert location (codes "sec-websocket-version") _ _
      ∙ f HandshakeError.unsupported_version
  failure-location error_response f HandshakeError.get_method_required = f _
  failure-location error_response f HandshakeError.no_websocket_upgrade = f _
  failure-location error_response f HandshakeError.no_connection_upgrade = f _
  failure-location error_response f HandshakeError.no_version_header = f _
  failure-location error_response f HandshakeError.bad_websocket_key = f _

  -- Where a finished response may send the client: its first Location comes from the application's
  -- response options, or it passes the same-origin test; it is neither the referrer nor a location of the
  -- server function unless they pass it. ntex's handshake errors have no Location.
  pub dispatch_server_fn-location :
      (error_response : HandshakeError → Response H)
      → ((e : HandshakeError) → get_all location (error_response e).headers ≡ [])
      → (incoming : Incoming) (res : Response H) (options : ResponseParts H) (too_large : Bool)
        (handshake : Option HandshakeError) (v : HeaderValue)
      → get H location
          (dispatch_server_fn H p error_header error_response incoming
            (answered res options too_large handshake)).0.headers
        ≡ some v
      → (last (get_all location options.headers) ≡ some v)
        ⊎ (is_some (same_origin_location p incoming.origin v) ≡ true)
  unfolding dispatch_server_fn extend_response
  dispatch_server_fn-location error_response no_location incoming res options true handshake v h =
      inl (location-finalize_error_response (oversize_response H) options v oversize-location h)
  dispatch_server_fn-location error_response no_location incoming res options false (some e) v h =
      inl (
        location-finalize_error_response (failure_response H error_response e) options v
          (failure-location error_response no_location e) h)
  dispatch_server_fn-location error_response no_location incoming res options false none v h =
      elim (location-extend options
        (guard_location H p error_header incoming.origin
          (repair_echo H p error_header incoming res))
        v h) [
          | inl own ↦ inl own
          | inr kept ↦
              inr (guarded incoming.origin (repair_echo H p error_header incoming res) v kept)
        ]
