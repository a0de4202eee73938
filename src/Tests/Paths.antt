-- ===== src/Tests/Paths.antt =====
-- The paths of src/files.rs and src/static_routes.rs on concrete inputs.
use leptos_ntex.Base.{
  ◌≡◌, refl, true, Bytes, codes, bytes_eq, contains_byte, none, some, List, [], ◌∷◌, ◌++◌, All,
}
use leptos_ntex.Paths.{
  starts_with_dot, is_blocked_dot_segment, split_from, split_slash, is_normal_component, is_refused,
  subpath_from, starts_with, Resolver, contained, resolve_rel, safe_subpath, ends_with_slash,
  with_index, trim_start_slashes, logical, parts_from, push_html, join_parts, static_path,
}
use leptos_ntex.Paths.Laws.{IsSafeName, Served, safe_subpath-Served, static_path-IsSafeName}

abbrev root : List Bytes
root = codes "srv" ∷ []

-- A filesystem without links, where every name is a file.
abbrev plain_files : Resolver
plain_files = record { canonicalize = some; is_file = λ p. true }

abbrev target : List Bytes
target = codes "srv" ∷ codes "a" ∷ codes "b.js" ∷ []

safe_subpath_test : safe_subpath some plain_files root (codes "/a/./b.js") ≡ some target
unfolding safe_subpath subpath_from split_slash split_from is_refused is_blocked_dot_segment
    starts_with_dot bytes_eq contains_byte resolve_rel is_normal_component contained starts_with
safe_subpath_test = refl

hidden_test : safe_subpath some plain_files root (codes "/a/.git") ≡ none
unfolding safe_subpath subpath_from split_slash split_from is_refused is_blocked_dot_segment
    starts_with_dot bytes_eq contains_byte resolve_rel
hidden_test = refl

safe_subpath-Served_example : Served some plain_files root (codes "/a/./b.js") target
safe_subpath-Served_example =
    safe_subpath-Served some plain_files root (codes "/a/./b.js") target safe_subpath_test

static_path_test :
    static_path some root (codes "/blog/")
    ≡ some (codes "srv" ∷ codes "blog" ∷ codes "index.html" ∷ [])
unfolding static_path parts_from split_slash split_from is_refused is_blocked_dot_segment
    starts_with_dot bytes_eq contains_byte is_normal_component with_index ends_with_slash
    trim_start_slashes logical push_html join_parts
static_path_test = refl

static_path-IsSafeName_example :
    (front : List Bytes) × (last : Bytes) × ((codes "srv" ∷ codes "blog" ∷ codes "index.html" ∷ [])
      ≡ root ++ (front ++ (last ++ codes ".html") ∷ []))
    × All IsSafeName (front ++ last ∷ [])
    × All IsSafeName (front ++ (last ++ codes ".html") ∷ [])
static_path-IsSafeName_example =
    static_path-IsSafeName some root (codes "/blog/")
      (codes "srv" ∷ codes "blog" ∷ codes "index.html" ∷ []) static_path_test
