-- ===== src/Paths/Laws.antt =====
-- A URL path never leaves the site root, nor reaches a hidden entry.
use leptos_ntex.Base.{
  ◌≡◌, refl, sym, ap, ◌∙◌, ◌≢◌, subst, inl, inr, true, false, Bytes, codes, bytes_eq, bytes_eq_iff,
  contains_byte, Option, some, List, [], ◌∷◌, ◌++◌, all, all-eq-true, All, All-append,
  All-append_left, All-append_right, contains_byte-append, arith, Option-cases, Bool-cases,
}
use leptos_ntex.Paths.{
  well_known_segment, starts_with_dot, is_blocked_dot_segment, split_slash, is_refused,
  subpath_from, starts_with, Resolver, contained, resolve_rel, safe_subpath, with_index,
  trim_start_slashes, logical, parts_from, push_html, join_parts, static_path, is_normal_component,
}

-- A name that is no `..`, no dotfile but `.well-known`, and holds no NUL and no separator.
pub record IsSafeName (s : Bytes) : Type 0 where
  pub up : s ≢ codes ".."
  pub hidden : starts_with_dot s ≡ true → s ≡ well_known_segment
  pub nul : contains_byte 0 s ≡ false
  pub slash : contains_byte b'/' s ≡ false
  pub backslash : contains_byte b'\\' s ≡ false

IsSafeName-of_accepted : (s : Bytes) → is_refused s ≡ false → IsSafeName s
unfolding is_refused is_blocked_dot_segment
IsSafeName-of_accepted s h = record {
  up = λ e. absurd (ground (arith, (let r : is_refused (codes "..") ≡ true = refl in r)));
  hidden = λ d. ground (arith, bytes_eq_iff s well_known_segment);
  nul = ground arith;
  slash = ground arith;
  backslash = ground arith;
}

module _ (decode : Bytes → Option Bytes) where
  subpath_from-IsSafeName :
      (rel segments out : List Bytes)
      → subpath_from decode rel segments ≡ some out
      → All IsSafeName rel
      → All IsSafeName out
  unfolding subpath_from
  subpath_from-IsSafeName rel [] out h v = subst (All IsSafeName) (cc) v
  subpath_from-IsSafeName rel ([] ∷ segments) out h v = subpath_from-IsSafeName rel segments out h v
  subpath_from-IsSafeName rel ((b ∷ segment) ∷ segments) out h v =
      elim (Option-cases (decode (b ∷ segment))) [
        | inl e ↦ absurd (ground arith)
        | inr (s, e) ↦ elim (Bool-cases (bytes_eq s (codes "."))) [
          | inl dot ↦ subpath_from-IsSafeName rel segments out (ground arith) v
          | inr name ↦ elim (Bool-cases (is_refused s)) [
            | inl refused ↦ absurd (ground arith)
            | inr fine ↦
                subpath_from-IsSafeName (rel ++ s ∷ []) segments out (ground arith)
                  (All-append IsSafeName rel (s ∷ []) v (IsSafeName-of_accepted s fine, tt))
          ]
        ]
      ]

  parts_from-IsSafeName :
      (parts segments out : List Bytes)
      → parts_from decode parts segments ≡ some out
      → All IsSafeName parts
      → All IsSafeName out
  unfolding parts_from
  parts_from-IsSafeName parts [] out h v = subst (All IsSafeName) (cc) v
  parts_from-IsSafeName parts ([] ∷ segments) out h v = parts_from-IsSafeName parts segments out h v
  parts_from-IsSafeName parts ((b ∷ segment) ∷ segments) out h v =
      elim (Option-cases (decode (b ∷ segment))) [
        | inl e ↦ absurd (ground arith)
        | inr (s, e) ↦ elim (Bool-cases (is_refused s)) [
          | inl refused ↦ absurd (ground arith)
          | inr fine ↦
              parts_from-IsSafeName (parts ++ s ∷ []) segments out (ground arith)
                (All-append IsSafeName parts (s ∷ []) v (IsSafeName-of_accepted s fine, tt))
        ]
      ]

starts_with-eq-true :
    (path root : List Bytes)
    → starts_with path root ≡ true
    → (rest : List Bytes) × (path ≡ root ++ rest)
unfolding starts_with
starts_with-eq-true path [] h = (path, refl)
starts_with-eq-true [] (c ∷ root) h = cc
starts_with-eq-true (p ∷ path) (c ∷ root) h =
    let (rest, e) = starts_with-eq-true path root (ground arith) in
    (rest, ground (arith, bytes_eq_iff p c))

-- What a request path that is served has been found to be.
pub record Served (decode : Bytes → Option Bytes) (fs : Resolver) (root : List Bytes)
    (raw_path : Bytes) (target : List Bytes) : Type 0 where
  pub rel : List Bytes
  pub below : List Bytes
  pub decoded : subpath_from decode [] (split_slash raw_path) ≡ some rel
  pub safe : All IsSafeName rel
  pub resolved : fs.canonicalize (root ++ rel) ≡ some target
  pub regular : fs.is_file target ≡ true
  pub inside : target ≡ root ++ below

-- Whatever percent-decoding and the filesystem answer, a request path that resolves to a target
-- was read as names none of which is `..`, a dotfile other than `.well-known`, or holds a NUL or a
-- separator; the target is what the filesystem makes of these names below the site root, it is a
-- regular file, and it lies below the site root.
pub safe_subpath-Served :
    (decode : Bytes → Option Bytes) (fs : Resolver) (root : List Bytes) (raw_path : Bytes)
    (target : List Bytes)
    → safe_subpath decode fs root raw_path ≡ some target
    → Served decode fs root raw_path target
unfolding safe_subpath resolve_rel contained
safe_subpath-Served decode fs root raw target h =
    elim (Option-cases (subpath_from decode [] (split_slash raw))) [
      | inl e ↦ absurd (ground arith)
      | inr (rel, e) ↦ elim (Bool-cases (all is_normal_component rel)) [
        | inr odd ↦ absurd (ground arith)
        | inl normal ↦ elim (Option-cases (fs.canonicalize (root ++ rel))) [
          | inl lost ↦ absurd (ground arith)
          | inr (found, c) ↦
              let facts : (fs.is_file found ≡ true)
                  × (starts_with found root ≡ true)
                  × (found ≡ target) =
                (ground arith, ground arith, ground arith) in
              let (below, inside) = starts_with-eq-true found root facts.1 in
              record {
                rel = rel;
                below = below;
                decoded = e;
                safe = subpath_from-IsSafeName decode [] (split_slash raw) rel e tt;
                resolved = c ∙ ap some facts.2;
                regular = subst (λ r. fs.is_file r ≡ true) facts.2 facts.0;
                inside = sym facts.2 ∙ inside;
              }
        ]
      ]
    ]

push_html-eq-some :
    (parts out : List Bytes)
    → push_html parts ≡ some out
    → (front : List Bytes) × (last : Bytes) × (parts ≡ front ++ last ∷ [])
      × (out ≡ front ++ (last ++ codes ".html") ∷ [])
unfolding push_html
push_html-eq-some [] out h = cc
push_html-eq-some (p ∷ []) out h = ([], p, refl, cc)
push_html-eq-some (p ∷ q ∷ parts) out h = elim (Option-cases (push_html (q ∷ parts))) [
  | inl e ↦ absurd (ground arith)
  | inr (ps, e) ↦
      let (front, last, x, y) = push_html-eq-some (q ∷ parts) ps e in
      (p ∷ front, last, ap (◌∷◌ p) x, ground arith)
]

-- A name that is pushed as a normal component and holds none of the bytes is safe.
normal-IsSafeName :
    (s : Bytes)
    → is_normal_component s ≡ true
    → contains_byte 0 s ≡ false
    → contains_byte b'/' s ≡ false
    → contains_byte b'\\' s ≡ false
    → IsSafeName s
unfolding is_normal_component is_blocked_dot_segment starts_with_dot bytes_eq
normal-IsSafeName [] n a b c = record {
  up = λ e. absurd (cc);
  hidden = λ d. absurd (cc);
  nul = a;
  slash = b;
  backslash = c;
}
normal-IsSafeName (x ∷ s) n a b c = record {
  up = λ e.
      let dots : is_normal_component (codes "..") ≡ false = refl in
      let is = subst (λ t. is_normal_component t ≡ true) e n in absurd (ground (arith, dots, is));
  hidden = λ d. ground (arith, n, d, bytes_eq_iff (x ∷ s) well_known_segment);
  nul = a;
  slash = b;
  backslash = c;
}

html-IsSafeName :
    (last : Bytes)
    → IsSafeName last
    → is_normal_component (last ++ codes ".html") ≡ true
    → IsSafeName (last ++ codes ".html")
unfolding contains_byte
html-IsSafeName last safe normal =
    normal-IsSafeName (last ++ codes ".html") normal
      (contains_byte-append 0 last (codes ".html") safe.nul refl)
      (contains_byte-append b'/' last (codes ".html") safe.slash refl)
      (contains_byte-append b'\\' last (codes ".html") safe.backslash refl)

-- If a path has an artifact, the artifact lies below the site root, under names none of which is `..`, `.`, a
-- dotfile other than `.well-known`, or holds a NUL or a separator; the last one is a name of this kind with
-- `.html`, and is of this kind with it.
pub static_path-IsSafeName :
    (decode : Bytes → Option Bytes) (site_root : List Bytes) (path : Bytes) (full : List Bytes)
    → static_path decode site_root path ≡ some full
    → (front : List Bytes) × (last : Bytes) × (full
        ≡ site_root ++ (front ++ (last ++ codes ".html") ∷ []))
      × All IsSafeName (front ++ last ∷ [])
      × All IsSafeName (front ++ (last ++ codes ".html") ∷ [])
unfolding static_path join_parts
static_path-IsSafeName decode root path full h =
    elim (Option-cases
      (parts_from decode [] (split_slash (logical (trim_start_slashes (with_index path)))))) [
        | inl e ↦ absurd (ground arith)
        | inr (parts, e) ↦ elim (Option-cases (push_html parts)) [
          | inl empty ↦ absurd (ground arith)
          | inr (rel, p) ↦ elim (Bool-cases (all is_normal_component rel)) [
            | inr odd ↦ absurd (ground arith)
            | inl normal ↦
                let (front, last, x, y) = push_html-eq-some parts rel p in
                let safe =
                  subst (All IsSafeName) x (parts_from-IsSafeName decode [] _ parts e tt) in
                let components =
                  subst (All (λ n. is_normal_component n ≡ true)) y
                    (all-eq-true is_normal_component rel normal) in
                (
                  front,
                  last,
                  ground arith,
                  safe,
                  All-append IsSafeName front ((last ++ codes ".html") ∷ [])
                      (All-append_left IsSafeName front (last ∷ []) safe)
                      (
                        html-IsSafeName last (All-append_right IsSafeName front (last ∷ []) safe).0
                            (All-append_right (λ n. is_normal_component n ≡ true) front
                              ((last ++ codes ".html") ∷ []) components).0,
                        tt,
                      ),
                )
          ]
        ]
      ]
