-- ===== src/Headers.antt =====
-- What src/response.rs and src/server_fn/handlers.rs use of ntex's header maps. A name is the bytes
-- of its lower-case form and a value is its bytes; the map itself is ntex's, so it is an interface
-- with the laws that its documentation states.
pub mod Association
use leptos_ntex.Base.{
  ◌≡◌, if◌then◌else◌, Bool, true, false, not, ◌||◌, Bytes, bytes_eq, Option, none, some, List, [],
  ◌∷◌, ◌++◌,
}

abbrev pub HeaderName : Type 0
HeaderName = Bytes

abbrev pub HeaderValue : Type 0
HeaderValue = Bytes

-- `contains` on a list of names.
unfoldable pub holds : HeaderName → List HeaderName → Bool
holds n [] = false
holds n (m ∷ names) = bytes_eq m n || holds n names

abbrev pub Distinct : List HeaderName → Type 0
Distinct [] = Unit
Distinct (n ∷ names) = (holds n names ≡ false) × Distinct names

abbrev pub first : List HeaderValue → Option HeaderValue
first [] = none
first (v ∷ values) = some v

abbrev pub is_empty : List HeaderValue → Bool
is_empty [] = true
is_empty (v ∷ values) = false

pub record HeaderMap : Type 1 where
  pub Map : Type 0
  pub empty : Map
  pub keys : Map → List HeaderName
  pub get_all : HeaderName → Map → List HeaderValue
  pub insert : HeaderName → HeaderValue → Map → Map
  pub append : HeaderName → HeaderValue → Map → Map
  pub remove : HeaderName → Map → Map

-- A map keeps a list of values for each name, `insert` and `remove` replace all of it, and every
-- name that has values is a key once.
pub record IsLawful (H : HeaderMap) : Type 0 where
  pub get_all-empty : (j : HeaderName) → H.get_all j H.empty ≡ []
  pub get_all-insert :
      (j k : HeaderName) (v : HeaderValue) (m : H.Map)
      → H.get_all j (H.insert k v m) ≡ (if bytes_eq k j then v ∷ [] else H.get_all j m)
  pub get_all-append :
      (j k : HeaderName) (v : HeaderValue) (m : H.Map)
      → H.get_all j (H.append k v m)
        ≡ (if bytes_eq k j then H.get_all j m ++ v ∷ [] else H.get_all j m)
  pub get_all-remove :
      (j k : HeaderName) (m : H.Map)
      → H.get_all j (H.remove k m) ≡ (if bytes_eq k j then [] else H.get_all j m)
  pub holds-keys :
      (j : HeaderName) (m : H.Map) → holds j (H.keys m) ≡ not (is_empty (H.get_all j m))
  pub Distinct-keys : (m : H.Map) → Distinct (H.keys m)
