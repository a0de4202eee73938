-- ===== src/ServerFn/Registry.antt =====
-- src/server_fn/registry.rs: the server functions by path and method. A method and a path are
-- texts, a server function is of any type, and the map has one entry for a path.
pub mod Laws
use leptos_ntex.Base.{
  ℕ, if◌then◌else◌, Bool, true, false, ◌&&◌, Bytes, bytes_eq, Option, none, some, List, [], ◌∷◌,
  ◌++◌, map, any,
}

abbrev pub Entries : Type 0 → Type 0
Entries F = List (Bytes × F)

abbrev pub ServerFnMap : Type 0 → Type 0
ServerFnMap F = List (Bytes × Entries F)

-- Replaces the first entry of the method, or adds one at the end.
unfoldable pub upsert : {F : Type 0} → Bytes → F → Entries F → Entries F
unfolding bytes_eq
upsert method f [] = (method, f) ∷ []
upsert method f ((m, g) ∷ entries) =
    let rest = upsert method f entries in
    if bytes_eq m method then (m, f) ∷ entries else (m, g) ∷ rest

-- `entry(path).or_default()`, then `upsert`: the registration of one server function.
unfoldable pub register : {F : Type 0} → (path method : Bytes) → F → ServerFnMap F → ServerFnMap F
unfolding upsert bytes_eq
register path method f [] = (path, upsert method f []) ∷ []
register path method f ((p, entries) ∷ fns) =
    let rest = register path method f fns in
    if bytes_eq p path then (p, upsert method f entries) ∷ fns else (p, entries) ∷ rest

-- `HashMap::get`, and `find` on a path's entries.
unfoldable pub entries_of : {F : Type 0} → Bytes → ServerFnMap F → Entries F
unfolding bytes_eq
entries_of path [] = []
entries_of path ((p, entries) ∷ fns) = if bytes_eq p path then entries else entries_of path fns

unfoldable pub find : {F : Type 0} → Bytes → Entries F → Option F
unfolding bytes_eq
find method [] = none
find method ((m, f) ∷ entries) = if bytes_eq m method then some f else find method entries

unfoldable pub lookup_server_fn : {F : Type 0} → (path method : Bytes) → ServerFnMap F → Option F
lookup_server_fn path method fns = find method (entries_of path fns)

abbrev has_method : Bytes → List Bytes → Bool
has_method method ms = any (λ m. bytes_eq m method) ms

-- The loop of `server_fn_methods`.
unfoldable pub methods_from : {F : Type 0} → List Bytes → Entries F → List Bytes
unfolding bytes_eq
methods_from methods [] = methods
methods_from methods ((m, f) ∷ entries) =
    let same = methods_from methods entries in
    let longer = methods_from (methods ++ m ∷ []) entries in
    if has_method m methods then same else longer

unfoldable pub server_fn_methods : {F : Type 0} → Bytes → ServerFnMap F → List Bytes
unfolding methods_from
server_fn_methods path fns = methods_from [] (entries_of path fns)

unfoldable pub server_fn_paths : {F : Type 0} → ServerFnMap F → List (Bytes × Bytes)
server_fn_paths [] = []
server_fn_paths ((path, entries) ∷ fns) = map (λ e. (path, e.0)) entries ++ server_fn_paths fns
