-- ===== src/Paths.antt =====
-- src/files.rs and src/static_routes.rs: how a URL path becomes a path below the site root. Text is
-- bytes, a path is its components, and percent-decoding to UTF-8 is an argument.
pub mod Laws
pub mod Index
use leptos_ntex.Base.{
  ℕ, ◌==◌, ◌≡◌, if◌then◌else◌, Bool, true, false, not, ◌&&◌, ◌||◌, Bytes, codes, bytes_eq,
  contains_byte, Option, none, some, List, [], ◌∷◌, ◌++◌, all,
}

abbrev pub well_known_segment : Bytes
well_known_segment = codes ".well-known"

unfoldable pub starts_with_dot : Bytes → Bool
starts_with_dot [] = false
starts_with_dot (b ∷ s) = b == b'.'

unfoldable pub is_blocked_dot_segment : Bytes → Bool
unfolding starts_with_dot bytes_eq
is_blocked_dot_segment s = starts_with_dot s && not (bytes_eq s well_known_segment)

-- `str::split('/')`.
unfoldable pub split_from : Bytes → Bytes → List Bytes
split_from cur [] = cur ∷ []
split_from cur (b ∷ s) =
    let closed = cur ∷ split_from [] s in
    let longer = split_from (cur ++ b ∷ []) s in if b == b'/' then closed else longer

unfoldable pub split_slash : Bytes → List Bytes
unfolding split_from
split_slash s = split_from [] s

-- What a component check of a pushed name sees: an empty name adds no component, and `.` and `..`
-- are not `Component::Normal`.
unfoldable pub is_normal_component : Bytes → Bool
unfolding is_blocked_dot_segment bytes_eq
is_normal_component [] = true
is_normal_component s =
    not (bytes_eq s (codes ".")) && not (bytes_eq s (codes "..")) && not (is_blocked_dot_segment s)

-- Whether a decoded segment is refused.
unfoldable pub is_refused : Bytes → Bool
unfolding is_blocked_dot_segment contains_byte
is_refused s =
    is_blocked_dot_segment s || contains_byte 0 s || contains_byte b'/' s || contains_byte b'\\' s

-- The loop of `safe_subpath`: empty and `.` segments are skipped.
unfoldable pub subpath_from : (Bytes → Option Bytes) → List Bytes → List Bytes → Option (List Bytes)
subpath_from decode rel [] = some rel
subpath_from decode rel ([] ∷ segments) = subpath_from decode rel segments
subpath_from decode rel ((b ∷ segment) ∷ segments) = elim (decode (b ∷ segment)) [
  | none ↦ none
  | some s ↦
      let skipped = subpath_from decode rel segments in
      let pushed = subpath_from decode (rel ++ s ∷ []) segments in
      if bytes_eq s (codes ".") then skipped else if is_refused s then none else pushed
]

-- `Path::starts_with`, on components.
unfoldable pub starts_with : List Bytes → List Bytes → Bool
unfolding bytes_eq
starts_with path [] = true
starts_with [] (c ∷ cs) = false
starts_with (p ∷ path) (c ∷ cs) = bytes_eq p c && starts_with path cs

-- The filesystem's answers about absolute paths.
pub record Resolver : Type 0 where
  pub canonicalize : List Bytes → Option (List Bytes)
  pub is_file : List Bytes → Bool

-- The end of `safe_subpath`, from the canonical target.
unfoldable pub contained : Resolver → List Bytes → Option (List Bytes) → Option (List Bytes)
contained fs root none = none
contained fs root (some target) =
    if fs.is_file target then (if starts_with target root then some target else none) else none

unfoldable pub resolve_rel : Resolver → List Bytes → Option (List Bytes) → Option (List Bytes)
resolve_rel fs root none = none
resolve_rel fs root (some rel) =
    if all is_normal_component rel then contained fs root (fs.canonicalize (root ++ rel)) else none

unfoldable pub safe_subpath :
    (Bytes → Option Bytes)
    → Resolver
    → (canon_root : List Bytes) → (raw_path : Bytes) → Option (List Bytes)
safe_subpath decode fs root raw_path =
    resolve_rel fs root (subpath_from decode [] (split_slash raw_path))

unfoldable pub ends_with_slash : Bytes → Bool
ends_with_slash [] = false
ends_with_slash (b ∷ []) = b == b'/'
ends_with_slash (b ∷ c ∷ s) = ends_with_slash (c ∷ s)

-- A path that ends with a slash names its index.
unfoldable pub with_index : Bytes → Bytes
with_index path =
    if not (bytes_eq path (codes "/")) && ends_with_slash path then path ++ codes "index" else path

unfoldable pub trim_start_slashes : Bytes → Bytes
trim_start_slashes [] = []
trim_start_slashes (b ∷ s) = let rest = trim_start_slashes s in if b == b'/' then rest else b ∷ s

unfoldable pub logical : Bytes → Bytes
logical [] = codes "index"
logical (b ∷ s) = b ∷ s

-- The loop of `static_path`.
unfoldable pub parts_from : (Bytes → Option Bytes) → List Bytes → List Bytes → Option (List Bytes)
parts_from decode parts [] = some parts
parts_from decode parts ([] ∷ segments) = parts_from decode parts segments
parts_from decode parts ((b ∷ segment) ∷ segments) = elim (decode (b ∷ segment)) [
  | none ↦ none
  | some s ↦
      let pushed = parts_from decode (parts ++ s ∷ []) segments in
      if is_refused s then none else pushed
]

-- `parts.last_mut()?.push_str(".html")`.
unfoldable pub push_html : List Bytes → Option (List Bytes)
push_html [] = none
push_html (p ∷ []) = some ((p ++ codes ".html") ∷ [])
push_html (p ∷ q ∷ parts) = elim (push_html (q ∷ parts)) [ none ↦ none | some ps ↦ some (p ∷ ps) ]

unfoldable pub join_parts : List Bytes → Option (List Bytes) → Option (List Bytes)
join_parts site_root none = none
join_parts site_root (some rel) =
    if all is_normal_component rel then some (site_root ++ rel) else none

abbrev and_html : Option (List Bytes) → Option (List Bytes)
and_html none = none
and_html (some parts) = push_html parts

unfoldable pub static_path :
    (Bytes → Option Bytes) → (site_root : List Bytes) → (path : Bytes) → Option (List Bytes)
static_path decode site_root path =
    join_parts site_root (
      and_html
        (parts_from decode [] (split_slash (logical (trim_start_slashes (with_index path))))))
