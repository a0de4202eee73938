-- ===== src/Boundary.antt =====
-- src/fs_boundary.rs: paths below the opened root of a site. `Path::canonicalize` is an argument; a path that
-- is still to be resolved is the list of its components, the innermost first, and a canonical or a relative
-- path is the list of its names, the outermost first.
pub mod Prefixes
use leptos_ntex.Base.{
  ◌≡◌, if◌then◌else◌, Bool, true, false, ◌&&◌, ◌||◌, Bytes, codes, bytes_eq, Option, none, some,
  List, [], ◌∷◌, ◌++◌, Result, ok, err, ◌>>=◌,
}
use leptos_ntex.Io.{IoError, IoErrorKind, kind_eq, plain}

-- `Component`: a name, `.`, `..`, or a root or a prefix.
pub data Component : Type 0 where
  normal : Bytes → Component
  current_dir parent_dir root_dir : Component

abbrev is_relative : Component → Bool
is_relative (normal name) = true
is_relative current_dir = true
is_relative parent_dir = true
is_relative root_dir = false

-- `Component::as_os_str`.
abbrev pub name_of : Component → Bytes
name_of (normal name) = name
name_of current_dir = codes "."
name_of parent_dir = codes ".."
name_of root_dir = codes "/"

abbrev pub Canonicalize : Type 0
Canonicalize = List Component → Result IoError (List Bytes)

-- The loop of `canonicalize_existing_prefix`. An empty path stands for the current directory.
unfoldable pub pop_prefix :
    Canonicalize
    → (retry : IoError → Bool) → List Component
    → (suffix : List Component) → Result IoError (List Bytes × List Component)
pop_prefix canonicalize retry [] suffix = canonicalize [] >>= (λ canonical. ok (canonical, suffix))
pop_prefix canonicalize retry (c ∷ candidate) suffix =
    let rest = pop_prefix canonicalize retry candidate (c ∷ suffix) in
    elim (canonicalize (c ∷ candidate)) [
      | ok canonical ↦ ok (canonical, suffix)
      | err e ↦ if retry e && is_relative c then rest else err e
    ]

unfoldable pub canonicalize_existing_prefix :
    Canonicalize
    → (retry : IoError → Bool) → List Component
    → Result IoError (List Bytes × List Component)
canonicalize_existing_prefix canonicalize retry path = pop_prefix canonicalize retry path []

-- `Path::strip_prefix`.
unfoldable pub strip_prefix : (root path : List Bytes) → Option (List Bytes)
unfolding bytes_eq
strip_prefix [] path = some path
strip_prefix (n ∷ root) [] = none
strip_prefix (n ∷ root) (m ∷ path) =
    let rest = strip_prefix root path in if bytes_eq n m then rest else none

-- The loop of `relative`.
unfoldable pub push_names : List Bytes → (suffix : List Component) → Result IoError (List Bytes)
unfolding bytes_eq
push_names names [] = ok names
push_names names (c ∷ suffix) =
    if bytes_eq (name_of c) (codes ".") || bytes_eq (name_of c) (codes "..")
    then err (plain IoErrorKind.invalid_input)
    else push_names (names ++ name_of c ∷ []) suffix

-- What is left of the canonical prefix below the root, if it lies there, and the names after it.
abbrev pub push_inside : Option (List Bytes) → List Component → Result IoError (List Bytes)
push_inside none suffix = err (plain IoErrorKind.permission_denied)
push_inside (some inner) suffix = push_names inner suffix

-- The failures after which `relative` looks at a shorter prefix.
unfoldable pub retry_missing : (missing : Bool) → IoError → Bool
retry_missing missing e = missing && kind_eq e.kind IoErrorKind.not_found

-- `SiteRoot::relative` of a root.
unfoldable pub relative :
    Canonicalize
    → (root : List Bytes) → List Component
    → (missing : Bool) → Result IoError (List Bytes)
relative canonicalize root path missing = do
  (canonical, suffix) ← canonicalize_existing_prefix canonicalize (retry_missing missing) path
  push_inside (strip_prefix root canonical) suffix

-- `SiteRoot::canonical_file`.
unfoldable pub canonical_file :
    Canonicalize → (root : List Bytes) → List Component → Result IoError (List Bytes)
canonical_file canonicalize root path =
    relative canonicalize root path false >>= (λ names. ok (root ++ names))
