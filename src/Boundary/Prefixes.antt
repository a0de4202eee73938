-- ===== src/Boundary/Prefixes.antt =====
-- src/fs_boundary.rs: the longest prefix that resolves, and paths that stay below the root.
use leptos_ntex.Base.{
  ◌≡◌, ◌≢◌, refl, sym, ◌∙◌, ap, subst, arith, inl, inr, Bool-cases, Option-cases, Result-cases,
  Bool, true, ◌&&◌, ◌||◌, Bytes, codes, bytes_eq, bytes_eq_iff, none, some, List, [], ◌∷◌, ◌++◌,
  append-nil, append_assoc, map, All, Result, ok, err, bind-eq-ok, if-err-eq-ok,
}
use leptos_ntex.Io.{IoError, IoErrorKind, plain}
use leptos_ntex.Boundary.{
  is_relative, Component, name_of, Canonicalize, pop_prefix, canonicalize_existing_prefix,
  strip_prefix, push_names, push_inside, retry_missing, relative,
}

-- The path of a prefix and the components after it.
abbrev pub extended : List Component → (suffix : List Component) → List Component
extended prefix [] = prefix
extended prefix (c ∷ suffix) = extended (c ∷ prefix) suffix

-- Every longer prefix fails in a way that is retried.
abbrev pub IsRetried : Canonicalize → (IoError → Bool) → (prefix suffix : List Component) → Type 0
IsRetried canonicalize retry prefix [] = Unit
IsRetried canonicalize retry prefix (c ∷ suffix) =
    ((e : IoError) × (canonicalize (c ∷ prefix) ≡ err e) × (retry e ≡ true))
    × IsRetried canonicalize retry (c ∷ prefix) suffix

module _ (canonicalize : Canonicalize) (retry : IoError → Bool) where
  pop_prefix_lem :
      (path suffix : List Component) (canonical : List Bytes) (rest : List Component)
      → IsRetried canonicalize retry path suffix
      → pop_prefix canonicalize retry path suffix ≡ ok (canonical, rest)
      → (prefix : List Component) × (extended path suffix ≡ extended prefix rest)
        × (canonicalize prefix ≡ ok canonical)
        × IsRetried canonicalize retry prefix rest
  unfolding pop_prefix
  pop_prefix_lem [] suffix canonical rest r h =
      let (found, resolved, e) = bind-eq-ok (canonicalize []) _ h in
      let same : found ≡ canonical = ground (arith, e) in
      let left : suffix ≡ rest = ground (arith, e) in
      (
        [],
        ap (extended []) left,
        resolved ∙ ap ok same,
        subst (IsRetried canonicalize retry []) left r,
      )
  pop_prefix_lem (c ∷ path) suffix canonical rest r h =
      elim (Result-cases (canonicalize (c ∷ path))) [
        | inl (found, resolved) ↦
            let is : pop_prefix canonicalize retry (c ∷ path) suffix ≡ ok (found, suffix) =
              rw (pop_prefix, resolved) refl in
            let same : found ≡ canonical = ground (arith, sym is ∙ h) in
            let left : suffix ≡ rest = ground (arith, sym is ∙ h) in
            (
              c ∷ path,
              ap (extended (c ∷ path)) left,
              resolved ∙ ap ok same,
              subst (IsRetried canonicalize retry (c ∷ path)) left r,
            )
        | inr (e, failed) ↦ elim (Bool-cases (retry e && is_relative c)) [
          | inr other ↦
              let is : pop_prefix canonicalize retry (c ∷ path) suffix ≡ err e =
                rw (pop_prefix, failed, other) refl in
              absurd (ground (arith, sym is ∙ h))
          | inl again ↦
              let is : pop_prefix canonicalize retry (c ∷ path) suffix
                  ≡ pop_prefix canonicalize retry path (c ∷ suffix) =
                rw (pop_prefix, failed, again) refl in
              pop_prefix_lem path (c ∷ suffix) canonical rest
                ((e, failed, ground (arith, again)), r) (sym is ∙ h)
        ]
      ]

  -- What is canonicalized is the longest prefix that resolves: the path is this prefix and the suffix, and
  -- every longer prefix failed in a way that is retried.
  pub canonicalize_existing_prefix_lem :
      (path : List Component) (canonical : List Bytes) (suffix : List Component)
      → canonicalize_existing_prefix canonicalize retry path ≡ ok (canonical, suffix)
      → (prefix : List Component) × (path ≡ extended prefix suffix)
        × (canonicalize prefix ≡ ok canonical)
        × IsRetried canonicalize retry prefix suffix
  unfolding canonicalize_existing_prefix
  canonicalize_existing_prefix_lem path canonical suffix h =
      pop_prefix_lem path [] canonical suffix tt h

strip_prefix_lem :
    (root path inner : List Bytes) → strip_prefix root path ≡ some inner → path ≡ root ++ inner
unfolding strip_prefix
strip_prefix_lem [] path inner h = ground (arith, h)
strip_prefix_lem (n ∷ root) [] inner h = absurd (cc)
strip_prefix_lem (n ∷ root) (m ∷ path) inner h = elim (Bool-cases (bytes_eq n m)) [
  | inl same ↦
      let is : strip_prefix (n ∷ root) (m ∷ path) ≡ strip_prefix root path =
        rw (strip_prefix, same) refl in
      ap (◌∷◌ m) (strip_prefix_lem root path inner (sym is ∙ h))
      ∙ ap (λ x. x ∷ (root ++ inner)) (sym ((bytes_eq_iff n m).0 same))
  | inr other ↦
      let is : strip_prefix (n ∷ root) (m ∷ path) ≡ none = rw (strip_prefix, other) refl in
      absurd (ground (arith, sym is ∙ h))
]

abbrev pub IsPlain : Component → Type 0
IsPlain c = (name_of c ≢ codes ".") × (name_of c ≢ codes "..")

push_names_lem :
    (suffix : List Component) (names result : List Bytes)
    → push_names names suffix ≡ ok result
    → (result ≡ names ++ map name_of suffix) × All IsPlain suffix
unfolding push_names
push_names_lem [] names result h = (ground (arith, h, append-nil names), tt)
push_names_lem (c ∷ suffix) names result h =
    let (plain_name, rest) =
      if-err-eq-ok (bytes_eq (name_of c) (codes ".") || bytes_eq (name_of c) (codes ".."))
        (plain IoErrorKind.invalid_input) (push_names (names ++ name_of c ∷ []) suffix) h in
    let (is, all_plain) = push_names_lem suffix (names ++ name_of c ∷ []) result rest in
    (
      is ∙ append_assoc names (name_of c ∷ []) (map name_of suffix),
      (
        (
          λ e. absurd (ground (arith, plain_name, (bytes_eq_iff (name_of c) (codes ".")).1 e)),
          λ e. absurd (ground (arith, plain_name, (bytes_eq_iff (name_of c) (codes "..")).1 e)),
        ),
        all_plain,
      ),
    )

refused : (e : IoError) (x : List Bytes) → ◌≢◌ {A = Result IoError (List Bytes)} (err e) (ok x)
refused e x h = cc

-- A relative path that is proposed stays below the root: its longest prefix that resolves lies in the root,
-- links followed, and after it come only names, neither `.` nor `..`; none of them if nothing
-- may be missing.
pub relative_lem :
    (canonicalize : Canonicalize) (root : List Bytes) (path : List Component) (missing : Bool)
    (result : List Bytes)
    → relative canonicalize root path missing ≡ ok result
    → (prefix suffix : List Component) × (inner : List Bytes) × (path ≡ extended prefix suffix)
      × (canonicalize prefix ≡ ok (root ++ inner))
      × (result ≡ inner ++ map name_of suffix)
      × All IsPlain suffix
      × IsRetried canonicalize (retry_missing missing) prefix suffix
unfolding relative
relative_lem canonicalize root path missing result h =
    let ((canonical, suffix), found, rest) =
      bind-eq-ok (canonicalize_existing_prefix canonicalize (retry_missing missing) path) _ h in
    let (prefix, whole, resolved, retried) =
      canonicalize_existing_prefix_lem canonicalize (retry_missing missing) path canonical suffix
        found in
    elim (Option-cases (strip_prefix root canonical)) [
      | inl outside ↦ absurd (
          refused (plain IoErrorKind.permission_denied) result
            (subst (λ o. push_inside o suffix ≡ ok result) outside rest))
      | inr (inner, inside) ↦
          let pushed : push_names inner suffix ≡ ok result =
            subst (λ o. push_inside o suffix ≡ ok result) inside rest in
          let (is, all_plain) = push_names_lem suffix inner result pushed in
          (
            prefix,
            suffix,
            inner,
            whole,
            resolved ∙ ap ok (strip_prefix_lem root canonical inner inside),
            is,
            all_plain,
            retried,
          )
    ]
