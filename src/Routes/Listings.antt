-- ===== src/Routes/Listings.antt =====
-- src/routes.rs: which paths a generated list serves.
use leptos_ntex.Base.{
  ◌≡◌, ◌∙◌, refl, ap, ap₂, inl, inr, arith, if◌then◌else◌, Bool, Bool-cases, true, false, not, ◌&&◌,
  ◌||◌, Bytes, codes, bytes_eq, bytes_eq_iff, any, any-append, Option, none, some, List, [], ◌∷◌,
  map,
}
use leptos_ntex.Routes.{
  PathSegment, to_ntex_path, or_root, Router, RouteListing, NtexRouteListing, listing, with_runtime,
  into_route_listing, flat_map, or_fallback, is_excluded, retain_routes, placeholder,
  generate_route_list,
}

module _ (R : Router) where
  open R use {expand_optionals}

  -- Whether a list serves a path: a placeholder does not.
  abbrev pub serves : Bytes → List (NtexRouteListing R) → Bool
  serves path listings = any (λ l. not l.exclude && bytes_eq l.path path) listings

  -- Whether a route has an expansion with this path.
  abbrev pub declares : Bytes → List (RouteListing R) → Bool
  declares path routes =
      any (λ r. any (λ s. bytes_eq (or_root (to_ntex_path s)) path) (expand_optionals r.segments))
        routes

  -- Whether a route has a path at all.
  abbrev pub has_paths : List (RouteListing R) → Bool
  has_paths routes = any (λ r. any (λ s. true) (expand_optionals r.segments)) routes

  serves-listings :
      (path : Bytes) (r : RouteListing R) (paths : List (List PathSegment))
      → serves path (map (with_runtime R) (map (listing R r) paths))
        ≡ any (λ s. bytes_eq (or_root (to_ntex_path s)) path) paths
  serves-listings path r [] = refl
  serves-listings path r (s ∷ paths) =
      ap (◌||◌ (bytes_eq (or_root (to_ntex_path s)) path)) (serves-listings path r paths)

  serves-flat_map :
      (path : Bytes) (routes : List (RouteListing R))
      → serves path (flat_map R routes) ≡ declares path routes
  unfolding flat_map into_route_listing
  serves-flat_map path [] = refl
  serves-flat_map path (r ∷ routes) =
      any-append _ (map (with_runtime R) (map (listing R r) (expand_optionals r.segments))) _
      ∙ ap₂ ◌||◌ (serves-listings path r (expand_optionals r.segments))
          (serves-flat_map path routes)

  any-listings :
      (r : RouteListing R) (paths : List (List PathSegment))
      → any (λ l. true) (map (with_runtime R) (map (listing R r) paths)) ≡ any (λ s. true) paths
  any-listings r [] = refl
  any-listings r (s ∷ paths) = refl

  any-flat_map :
      (routes : List (RouteListing R)) → any (λ l. true) (flat_map R routes) ≡ has_paths routes
  unfolding flat_map into_route_listing
  any-flat_map [] = refl
  any-flat_map (r ∷ routes) =
      any-append (λ l. true)
        (map (with_runtime R) (map (listing R r) (expand_optionals r.segments))) _
      ∙ ap₂ ◌||◌ (any-listings r (expand_optionals r.segments)) (any-flat_map routes)

  serves-or_fallback :
      (path : Bytes) (routes : List (NtexRouteListing R))
      → serves path (or_fallback R routes)
        ≡ (if any (λ l. true) routes then serves path routes else bytes_eq (codes "/") path)
  unfolding or_fallback
  serves-or_fallback path [] = ground arith
  serves-or_fallback path (l ∷ routes) = refl

  served :
      (path : Bytes) (routes : List (RouteListing R))
      → serves path (or_fallback R (flat_map R routes))
        ≡ (if has_paths routes then declares path routes else bytes_eq (codes "/") path)
  served path routes =
      serves-or_fallback path (flat_map R routes)
      ∙ ap₂ (λ b d. if b then d else bytes_eq (codes "/") path) (any-flat_map routes)
          (serves-flat_map path routes)

  serves-retain_routes :
      (path : Bytes) (excluded : List Bytes) (routes : List (NtexRouteListing R))
      → serves path (retain_routes R excluded routes)
        ≡ (serves path routes && not (is_excluded R excluded path))
  unfolding retain_routes
  serves-retain_routes path excluded [] = refl
  serves-retain_routes path excluded (l ∷ routes) =
      let same : bytes_eq l.path path ≡ true
          → is_excluded R excluded l.path ≡ is_excluded R excluded path =
        λ e. ap (is_excluded R excluded) ((bytes_eq_iff l.path path).0 e) in
      let rest = serves-retain_routes path excluded routes in
      elim (Bool-cases (is_excluded R excluded l.path)) [
        | inl e ↦ rw (e) ground (arith, e, same, rest)
        | inr e ↦ rw (e) ground (arith, e, same, rest)
      ]

  serves-placeholders :
      (path : Bytes) (excluded : List Bytes) → serves path (map (placeholder R) excluded) ≡ false
  serves-placeholders path [] = refl
  serves-placeholders path (e ∷ excluded) = serves-placeholders path excluded

  abbrev pub excludes : Bytes → Option (List Bytes) → Bool
  excludes path none = false
  excludes path (some excluded) = any (λ e. bytes_eq e path) excluded

  -- A path is served exactly when a route has it, or it is `/` and no route has a path, and it is not
  -- excluded.
  pub serves-generate_route_list :
      (path : Bytes) (routes : List (RouteListing R)) (excluded : Option (List Bytes))
      → serves path (generate_route_list R (some routes) excluded) ≡ (
          (if has_paths routes then declares path routes else bytes_eq (codes "/") path)
          && not (excludes path excluded))
  unfolding generate_route_list is_excluded
  serves-generate_route_list path routes none = ground (arith, served path routes)
  serves-generate_route_list path routes (some excluded) =
      any-append (λ l. not l.exclude && bytes_eq l.path path)
        (retain_routes R excluded (or_fallback R (flat_map R routes))) _
      ∙ ground (
        arith,
        serves-retain_routes path excluded (or_fallback R (flat_map R routes)),
        serves-placeholders path excluded,
        served path routes,
      )
