-- ===== src/Routes/Rooted.antt =====
-- src/routes.rs: every path that is registered starts with a slash, and the placeholders of the excluded
-- paths serve nothing.
use leptos_ntex.Base.{
  ◌==◌, ◌≡◌, ◌⊎◌, inl, inr, refl, ap, append-nil, bytes_eq_iff, ==_iff, arith, Bool-cases, true,
  false, Bytes, codes, Option, none, some, List, [], ◌∷◌, ◌++◌, map, All, All-append,
}
use leptos_ntex.Routes.{
  PathSegment, unit, static, param, optional_param, splat, needs_slash, push_segment, push_segments,
  to_ntex_path, or_root, Router, RouteListing, NtexRouteListing, listing, with_runtime,
  into_route_listing, flat_map, or_fallback, is_excluded, retain_routes, placeholder,
  generate_route_list,
}

abbrev pub IsRooted : Bytes → Type 0
IsRooted path = (rest : Bytes) × (path ≡ b'/' ∷ rest)

append-IsRooted : (path s : Bytes) → IsRooted path → IsRooted (path ++ s)
append-IsRooted [] s (rest, h) = absurd (cc)
append-IsRooted (b ∷ path) s (rest, h) = (path ++ s, ground (arith, h))

-- A text that starts with a slash, after an empty path or a rooted one.
pushed-IsRooted : (path s : Bytes) → (path ≡ []) ⊎ IsRooted path → IsRooted s → IsRooted (path ++ s)
pushed-IsRooted [] s h k = k
pushed-IsRooted (b ∷ path) s (inl e) k = absurd (cc)
pushed-IsRooted (b ∷ path) s (inr h) k = append-IsRooted (b ∷ path) s h

braced-IsRooted :
    (path s close : Bytes)
    → (path ≡ []) ⊎ IsRooted path
    → IsRooted (path ++ codes "/{" ++ s ++ close)
braced-IsRooted path s close h =
    append-IsRooted (path ++ codes "/{" ++ s) close
      (append-IsRooted (path ++ codes "/{") s (pushed-IsRooted path (codes "/{") h (_, refl)))

push_segment-IsRooted :
    (path : Bytes) (s : PathSegment)
    → (path ≡ []) ⊎ IsRooted path
    → (push_segment path s ≡ []) ⊎ IsRooted (push_segment path s)
unfolding push_segment needs_slash
push_segment-IsRooted path unit h = h
push_segment-IsRooted path (static []) h = rw (append-nil path) h
push_segment-IsRooted path (static (b ∷ s)) h = elim (Bool-cases (b == b'/')) [
  | inl e ↦ rw (e) (inr (pushed-IsRooted path (b ∷ s) h (s, ap (λ c. c ∷ s) ((==_iff b b'/').0 e))))
  | inr e ↦ rw (e) (inr (pushed-IsRooted path (b'/' ∷ b ∷ s) h (_, refl)))
]
push_segment-IsRooted path (param s) h = inr (braced-IsRooted path s (codes "}") h)
push_segment-IsRooted path (optional_param s) h = inr (braced-IsRooted path s (codes "}") h)
push_segment-IsRooted path (splat s) h = inr (braced-IsRooted path s (codes "}*") h)

push_segments-IsRooted :
    (path : Bytes) (segments : List PathSegment)
    → (path ≡ []) ⊎ IsRooted path
    → (push_segments path segments ≡ []) ⊎ IsRooted (push_segments path segments)
unfolding push_segments
push_segments-IsRooted path [] h = h
push_segments-IsRooted path (s ∷ segments) h =
    push_segments-IsRooted (push_segment path s) segments (push_segment-IsRooted path s h)

or_root-IsRooted : (path : Bytes) → (path ≡ []) ⊎ IsRooted path → IsRooted (or_root path)
unfolding or_root
or_root-IsRooted [] h = ([], refl)
or_root-IsRooted (b ∷ path) (inl e) = absurd (cc)
or_root-IsRooted (b ∷ path) (inr h) = h

path-IsRooted : (segments : List PathSegment) → IsRooted (or_root (to_ntex_path segments))
unfolding to_ntex_path
path-IsRooted segments = or_root-IsRooted _ (push_segments-IsRooted [] segments (inl refl))

module _ (R : Router) where
  abbrev IsServed : NtexRouteListing R → Type 0
  IsServed l = (l.exclude ≡ false) × IsRooted l.path

  -- A listing that is served, at a path that is rooted and not excluded, or a placeholder for an
  -- excluded path.
  abbrev pub IsListed : List Bytes → NtexRouteListing R → Type 0
  IsListed excluded l =
      (l.exclude ≡ false) × IsRooted l.path × (is_excluded R excluded l.path ≡ false)
      ⊎ (l.exclude ≡ true) × (l.methods ≡ []) × (is_excluded R excluded l.path ≡ true)

  listings-IsServed :
      (r : RouteListing R) (paths : List (List PathSegment))
      → All IsServed (map (with_runtime R) (map (listing R r) paths))
  listings-IsServed r [] = tt
  listings-IsServed r (segments ∷ paths) =
      ((refl, path-IsRooted segments), listings-IsServed r paths)

  flat_map-IsServed : (routes : List (RouteListing R)) → All IsServed (flat_map R routes)
  unfolding flat_map into_route_listing
  flat_map-IsServed [] = tt
  flat_map-IsServed (r ∷ routes) =
      All-append IsServed _ _ (listings-IsServed r _) (flat_map-IsServed routes)

  or_fallback-IsServed :
      (routes : List (NtexRouteListing R))
      → All IsServed routes
      → All IsServed (or_fallback R routes)
  unfolding or_fallback
  or_fallback-IsServed [] h = ((refl, ([], refl)), tt)
  or_fallback-IsServed (l ∷ routes) h = h

  retain_routes-IsListed :
      (excluded : List Bytes) (routes : List (NtexRouteListing R))
      → All IsServed routes
      → All (IsListed excluded) (retain_routes R excluded routes)
  unfolding retain_routes
  retain_routes-IsListed excluded [] h = tt
  retain_routes-IsListed excluded (l ∷ routes) ((on, rooted), h) =
      elim (Bool-cases (is_excluded R excluded l.path)) [
        | inl e ↦ rw (e) (retain_routes-IsListed excluded routes h)
        | inr e ↦ rw (e) (inl (on, rooted, e), retain_routes-IsListed excluded routes h)
      ]

  placeholders-IsListed :
      (seen excluded : List Bytes)
      → ((path : Bytes) → is_excluded R excluded path ≡ true → is_excluded R (seen) path ≡ true)
      → All (IsListed seen) (map (placeholder R) excluded)
  unfolding is_excluded
  placeholders-IsListed seen [] h = tt
  placeholders-IsListed seen (e ∷ excluded) h = (
    inr (refl, refl, h e (ground (arith, (bytes_eq_iff e e).1 refl))),
    placeholders-IsListed seen excluded (λ path k. h path (ground (arith, k))),
  )

  -- Every listing that is served has a path that starts with a slash and is not excluded; the others
  -- are at excluded paths, and have no method.
  pub generate_route_list-IsListed :
      (routes : Option (List (RouteListing R))) (excluded : List Bytes)
      → All (IsListed excluded) (generate_route_list R routes (some excluded))
  unfolding generate_route_list
  generate_route_list-IsListed none excluded =
      All-append (IsListed excluded) _ _
        (retain_routes-IsListed excluded _
          (or_fallback-IsServed (flat_map R []) (flat_map-IsServed [])))
        (placeholders-IsListed excluded excluded (λ path k. k))
  generate_route_list-IsListed (some routes) excluded =
      All-append (IsListed excluded) _ _
        (retain_routes-IsListed excluded _
          (or_fallback-IsServed (flat_map R routes) (flat_map-IsServed routes)))
        (placeholders-IsListed excluded excluded (λ path k. k))
