-- ===== src/ServerFn/Dispatch/Errors.antt =====
-- src/server_fn/handlers.rs: an error response keeps its own representation, and a failure stays one.
use leptos_ntex.Base.{
  ◌≡◌, refl, ◌∙◌, ap, inl, inr, if◌then◌else◌, true, false, Bool-cases, Option-cases, bytes_eq,
  none, is_some, is_none, List, [], ◌∷◌, ◌++◌,
}
use leptos_ntex.Headers.{HeaderName, HeaderValue, holds, HeaderMap, IsLawful}
use leptos_ntex.Responses.{
  header_merge, get, extend_response, ResponseParts, Response, is_success, is_redirection,
  representation_headers, failed_representation_headers,
}
use leptos_ntex.Responses.Merging.{merged, get_all-extend_response_parts}
use leptos_ntex.WebSocket.Handshake.{HandshakeError}
use leptos_ntex.ServerFn.Dispatch.{
  Parsers, Origin, Incoming, same_origin_location, location, strip_location, redirect_to,
  accepts_html, referrer, is_echo, reset_status_after_redirect_strip, guard_location, remove_all,
  finalize_error_response, answered, dispatch_server_fn, repair_echo,
}

-- The headers that an error response keeps to itself.
abbrev pub owned : List HeaderName
owned = representation_headers ++ failed_representation_headers

module _ (H : HeaderMap) (L : IsLawful H) where
  open H use {Map, get_all, insert, remove}

  get_all-remove_all :
      (j : HeaderName) (names : List HeaderName) (m : Map)
      → get_all j (remove_all H names m) ≡ (if holds j names then [] else get_all j m)
  unfolding remove_all holds
  get_all-remove_all j [] m = refl
  get_all-remove_all j (k ∷ names) m = elim (Bool-cases (bytes_eq k j)) [
    | inl same ↦ get_all-remove_all j names (remove k m) ∙ (elim (Bool-cases (holds j names)) [
      | inl held ↦ rw (same, held) refl
      | inr fresh ↦ rw (same, fresh, L.get_all-remove j k m, same) refl
    ])
    | inr other ↦
        get_all-remove_all j names (remove k m) ∙ rw (other, L.get_all-remove j k m, other) refl
  ]

  -- An adapter's error keeps its status and the headers that describe its representation, whatever the
  -- application has set for them; every other header of the application joins it as in any response.
  pub get_all-finalize_error_response :
      (failure : Response H) (options : ResponseParts H) (j : HeaderName)
      → ((finalize_error_response H failure options).0.status ≡ failure.status)
        × (get_all j (finalize_error_response H failure options).0.headers ≡ (
            if holds j owned
            then get_all j failure.headers
            else merged (header_merge j) (get_all j failure.headers) (get_all j options.headers)))
  unfolding finalize_error_response
  get_all-finalize_error_response failure options j =
      let (headers, status) =
        get_all-extend_response_parts H L
          (record { status = none; headers = remove_all H owned options.headers }) failure j in
      (
        status,
        headers
            ∙ ap (merged (header_merge j) (get_all j failure.headers))
                (get_all-remove_all j owned options.headers)
            ∙ (elim (Bool-cases (holds j owned)) [
              | inl own ↦ rw own refl
              | inr other ↦ rw other refl
            ]),
      )

module _ (H : HeaderMap) (L : IsLawful H) (p : Parsers) (error_header : HeaderName)
    (other : bytes_eq location error_header ≡ false) where
  open H use {Map, get_all, insert, remove}

  -- A failed call that is no success so far.
  abbrev IsFailure : Response H → Type 0
  IsFailure res =
      (is_some (get H error_header res.headers) ≡ true) × (is_success res.status ≡ false)

  redirect_to-IsFailure :
      (v : HeaderValue) (res : Response H) → IsFailure res → IsFailure (redirect_to H v res)
  unfolding redirect_to is_success
  redirect_to-IsFailure v res f =
      (rw (L.get_all-insert error_header location v res.headers, other) f.0, refl)

  strip_location-IsFailure :
      (res : Response H) → IsFailure res → IsFailure (strip_location H error_header res)
  unfolding strip_location reset_status_after_redirect_strip is_success
  strip_location-IsFailure res f =
      let kept : is_some (get H error_header (remove location res.headers)) ≡ true =
        rw (L.get_all-remove error_header location res.headers, other) f.0 in
      elim (Bool-cases (is_redirection res.status)) [
        | inl redirected ↦ rw (redirected) (kept, rw kept refl)
        | inr plain ↦ rw (plain) (kept, f.1)
      ]

  repair_echo-IsFailure :
      (incoming : Incoming) (res : Response H)
      → IsFailure res
      → IsFailure (repair_echo H p error_header incoming res)
  unfolding repair_echo
  repair_echo-IsFailure incoming res f = elim (Bool-cases (accepts_html p incoming)) [
    | inr refused ↦ rw (repair_echo, refused) f
    | inl accepted ↦
        elim (Bool-cases (is_echo p (get H location res.headers) incoming.raw_referrer)) [
          | inl echoed ↦ elim (Option-cases (referrer p incoming)) [
            | inl foreign ↦
                rw (repair_echo, accepted, echoed, foreign) (strip_location-IsFailure res f)
            | inr (v, own) ↦ rw (repair_echo, accepted, echoed, own) (redirect_to-IsFailure v res f)
          ]
          | inr set ↦ rw (repair_echo, accepted, set, f.1) f
        ]
  ]

  guard_location-IsFailure :
      (origin : Origin) (res : Response H)
      → IsFailure res
      → IsFailure (guard_location H p error_header origin res)
  unfolding guard_location
  guard_location-IsFailure origin res f = elim (Option-cases (get H location res.headers)) [
    | inl gone ↦ rw (guard_location, gone) f
    | inr (v, e) ↦ elim (Bool-cases (is_none (same_origin_location p origin v))) [
      | inl foreign ↦ rw (guard_location, e, foreign) (strip_location-IsFailure res f)
      | inr own ↦ rw (guard_location, e, own) f
    ]
  ]

  -- A failed call for which the application has not set a status itself is not sent as a success: a
  -- server function's response that carries the error header and is no success stays none when its
  -- redirects are repaired, stripped and guarded.
  pub dispatch_server_fn-failure :
      (error_response : HandshakeError → Response H) (incoming : Incoming) (res : Response H)
      (options : ResponseParts H)
      → is_some (get H error_header res.headers) ≡ true
      → is_success res.status ≡ false
      → options.status ≡ none
      → is_success
          (dispatch_server_fn H p error_header error_response incoming
            (answered res options false none)).0.status
        ≡ false
  unfolding dispatch_server_fn extend_response
  dispatch_server_fn-failure error_response incoming res options failed unsuccessful unset =
      let repaired = repair_echo H p error_header incoming res in
      let guarded = guard_location H p error_header incoming.origin repaired in
      let (_, status) = get_all-extend_response_parts H L options guarded location in
      ap is_success status
      ∙ rw unset
          (guard_location-IsFailure incoming.origin repaired
            (repair_echo-IsFailure incoming res (failed, unsuccessful))).1
