-- ===== src/Tests/Boundary.antt =====
-- Paths below the root of a site on concrete inputs.
use leptos_ntex.Base.{
  ◌≡◌, refl, true, Bytes, codes, bytes_eq, List, [], ◌∷◌, ◌++◌, map, All, Result, ok, err,
}
use leptos_ntex.Io.{IoError, IoErrorKind, kind_eq, plain}
use leptos_ntex.Boundary.{
  Component, normal, parent_dir, root_dir, name_of, canonicalize_existing_prefix, pop_prefix,
  relative, retry_missing, strip_prefix, push_names,
}
use leptos_ntex.Boundary.Prefixes.{
  extended, IsRetried, IsPlain, canonicalize_existing_prefix_lem, relative_lem,
}

-- Only `/` and `/a` are there.
abbrev canonicalize : List Component → Result IoError (List Bytes)
canonicalize [] = ok []
canonicalize (c ∷ []) = ok []
canonicalize (c ∷ d ∷ []) = ok (codes "a" ∷ [])
canonicalize (c ∷ d ∷ e ∷ p) = err (plain IoErrorKind.not_found)

abbrev path : List Component
path = normal (codes "x") ∷ normal (codes "b") ∷ normal (codes "a") ∷ root_dir ∷ []

abbrev climbing : List Component
climbing = normal (codes "x") ∷ parent_dir ∷ normal (codes "a") ∷ root_dir ∷ []

relative_test :
    (relative canonicalize (codes "a" ∷ []) path true ≡ ok (codes "b" ∷ codes "x" ∷ []))
    × (relative canonicalize (codes "a" ∷ []) climbing true ≡ err (plain IoErrorKind.invalid_input))
    × (relative canonicalize (codes "b" ∷ []) path true ≡ err (plain IoErrorKind.permission_denied))
unfolding relative canonicalize_existing_prefix pop_prefix retry_missing kind_eq strip_prefix
    push_names bytes_eq
relative_test = (refl, refl, refl)

canonicalize_existing_prefix_lem_example :
    (prefix : List Component) × (path
      ≡ extended prefix (normal (codes "b") ∷ normal (codes "x") ∷ []))
    × (canonicalize prefix ≡ ok (codes "a" ∷ []))
    × IsRetried canonicalize
        (retry_missing true)
        prefix
        (normal (codes "b") ∷ normal (codes "x") ∷ [])
unfolding canonicalize_existing_prefix pop_prefix retry_missing kind_eq
canonicalize_existing_prefix_lem_example =
    canonicalize_existing_prefix_lem canonicalize (retry_missing true) path (codes "a" ∷ [])
      (normal (codes "b") ∷ normal (codes "x") ∷ []) refl

relative_lem_example :
    (prefix suffix : List Component) × (inner : List Bytes) × (path ≡ extended prefix suffix)
    × (canonicalize prefix ≡ ok ((codes "a" ∷ []) ++ inner))
    × ((codes "b" ∷ codes "x" ∷ []) ≡ inner ++ map name_of suffix)
    × All IsPlain suffix
    × IsRetried canonicalize (retry_missing true) prefix suffix
unfolding relative canonicalize_existing_prefix pop_prefix retry_missing kind_eq strip_prefix
    push_names bytes_eq
relative_lem_example =
    relative_lem canonicalize (codes "a" ∷ []) path true (codes "b" ∷ codes "x" ∷ []) refl
