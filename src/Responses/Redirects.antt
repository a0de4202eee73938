-- ===== src/Responses/Redirects.antt =====
-- src/response.rs: what `redirect` leaves in the response options.
use leptos_ntex.Base.{
  ℕ, ◌≡◌, ◌⊎◌, refl, sym, ◌∙◌, subst, arith, inl, inr, Bool, true, false, Option-cases, Bytes,
  codes, bytes_eq, bytes_eq_iff, Option, some, [], ◌∷◌,
}
use leptos_ntex.Requests.{Token, with_request}
use leptos_ntex.Headers.{HeaderName, HeaderValue, HeaderMap, IsLawful}
use leptos_ntex.Responses.{
  Mime, ResponseParts, Context, request_accepts_html, insert_header, set_status, redirect,
  redirected,
}

-- How a redirect shows: to a request that accepts HTML by the status, to another one by the header
-- that the client's router reads.
abbrev pub Marked :
    (H : HeaderMap) → HeaderName → (accepts_html : Bool) → (before after : ResponseParts H) → Type 0
Marked H redirect_header true before after = after.status ≡ some 302
Marked H redirect_header false before after =
    (after.status ≡ before.status) × (H.get_all redirect_header after.headers ≡ [] ∷ [])

module _ (H : HeaderMap) (L : IsLawful H) (parse_mime : Bytes → Option Mime)
    (parse_f32 : Bytes → Option ℕ) (from_str : Bytes → Option HeaderValue)
    (accept : ℕ → Option Bytes) (redirect_header : HeaderName)
    (other : bytes_eq redirect_header (codes "location") ≡ false) where
  abbrev pub reached : Context H → Token → Option Bool
  reached c token =
      request_accepts_html H parse_mime parse_f32 accept (with_request c.thread token c.world)

  abbrev run : Bytes → Context H → Option (ResponseParts H)
  run path c = redirect H parse_mime parse_f32 from_str accept redirect_header path c

  abbrev pub Redirected : (path : Bytes) (c : Context H) (before after : ResponseParts H) → Type 0
  Redirected path c before after =
      (location : HeaderValue) × (token : Token) × (accepts_html : Bool) × (from_str path
        ≡ some location)
      × (c.token ≡ some token)
      × (reached c token ≡ some accepts_html)
      × (H.get_all (codes "location") after.headers ≡ location ∷ [])
      × Marked H redirect_header accepts_html before after

  marked :
      (accepts_html : Bool) (location : HeaderValue) (before : ResponseParts H)
      → (H.get_all
            (codes "location")
            (redirected H redirect_header accepts_html location before).headers
          ≡ location ∷ [])
        × Marked H redirect_header accepts_html before
            (redirected H redirect_header accepts_html location before)
  unfolding redirected set_status insert_header
  marked true location before = (
    L.get_all-insert (codes "location") (codes "location") location before.headers
        ∙ rw ((bytes_eq_iff (codes "location") (codes "location")).1 refl) refl,
    refl,
  )
  marked false location before =
      let located = H.insert (codes "location") location before.headers in
      (
        L.get_all-insert (codes "location") redirect_header [] located
            ∙ rw
                (
                  other,
                  L.get_all-insert (codes "location") (codes "location") location before.headers,
                  (bytes_eq_iff (codes "location") (codes "location")).1 refl,
                )
                refl,
        (
          refl,
          L.get_all-insert redirect_header redirect_header [] located
              ∙ rw ((bytes_eq_iff redirect_header redirect_header).1 refl) refl,
        ),
      )

  -- A redirect either leaves the response options as they were, as it does whenever the path is no header
  -- value or the request is out of reach, or it sets the one location that is the path's header value, with
  -- the status 302 if the request accepts HTML, and else with the client's redirect header and the
  -- status as it was.
  pub redirect-Redirected :
      (path : Bytes) (c : Context H) (before after : ResponseParts H)
      → c.options ≡ some before
      → redirect H parse_mime parse_f32 from_str accept redirect_header path c ≡ some after
      → (after ≡ before) ⊎ Redirected path c before after
  unfolding redirect
  redirect-Redirected path c before after has h = elim (Option-cases c.token) [
    | inl absent ↦
        let is : run path c ≡ c.options = rw (redirect, absent) refl in
        inl (ground (arith, sym is ∙ h, has))
    | inr (token, there) ↦ elim (Option-cases (from_str path)) [
      | inl invalid ↦
          let is : run path c ≡ some before = rw (redirect, there, has, invalid) refl in
          inl (ground (arith, sym is ∙ h))
      | inr (location, valid) ↦ elim (Option-cases (reached c token)) [
        | inl apart ↦
            let is : run path c ≡ some before = rw (redirect, there, has, valid, apart) refl in
            inl (ground (arith, sym is ∙ h))
        | inr (b, e) ↦
            let is : run path c ≡ some (redirected H redirect_header b location before) =
              rw (redirect, there, has, valid, e) refl in
            let same : redirected H redirect_header b location before ≡ after =
              ground (arith, sym is ∙ h) in
            let (at, mark) =
              subst
                (λ o.
                  (H.get_all (codes "location") o.headers ≡ location ∷ [])
                  × Marked H redirect_header b before o)
                same (marked b location before) in
            inr (location, token, b, valid, there, e, at, mark)
      ]
    ]
  ]
