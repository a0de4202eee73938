-- ===== src/Work/Registry.antt =====
-- src/static_routes.rs: under which keys the runtime finds the active work of a static entry. A
-- key is a path, and a work is the address of its allocation.
pub mod Laws
use leptos_ntex.Base.{
  ℕ, ◌==◌, if◌then◌else◌, Bool, true, false, ◌&&◌, Bytes, bytes_eq, bytes_eq_iff, Option, none,
  some, List, [], ◌∷◌, ◌≡◌, refl, ◌≢◌, arith, ◌⊎◌, inl, inr, Bool-cases,
}

pub record StaticWorkKey : Type 0 where
  pub entry : Bytes
  pub published : Option Bytes

unfoldable pub keys : StaticWorkKey → List Bytes
keys key = elim key.published [ none ↦ key.entry ∷ [] | some p ↦ key.entry ∷ p ∷ [] ]

abbrev pub Works : Type 0
Works = List (Bytes × ℕ)

-- `HashMap::get`, `insert` and `remove`; a map has one entry for a key.
unfoldable pub find : Bytes → Works → Option ℕ
unfolding bytes_eq
find k [] = none
find k ((j, w) ∷ m) = if bytes_eq j k then some w else find k m

unfoldable pub remove : Bytes → Works → Works
unfolding bytes_eq
remove k [] = []
remove k ((j, w) ∷ m) = let rest = remove k m in if bytes_eq j k then rest else (j, w) ∷ rest

unfoldable pub set : Bytes → ℕ → Works → Works
unfolding remove
set k w m = (k, w) ∷ remove k m

-- `find_map` over the keys: the first active work; `active` is that the work is alive and has not
-- ended.
unfoldable pub find_active : (ℕ → Bool) → List Bytes → Works → Option ℕ
unfolding find
find_active active [] m = none
find_active active (k ∷ ks) m =
    let rest = find_active active ks m in
    elim (find k m) [ none ↦ rest | some w ↦ if active w then some w else rest ]

unfoldable pub set_all : List Bytes → ℕ → Works → Works
unfolding set
set_all [] w m = m
set_all (k ∷ ks) w m = set_all ks w (set k w m)

-- The active work under any key, or the fresh one under all of them; and whether it is fresh.
unfoldable pub find_or_insert : (ℕ → Bool) → StaticWorkKey → (fresh : ℕ) → Works → Works × ℕ × Bool
unfolding find_active keys set_all
find_or_insert active key fresh m = elim (find_active active (keys key) m) [
  | some w ↦ (m, w, false)
  | none ↦ (set_all (keys key) fresh m, fresh, true)
]

-- A key is given up if it still leads to this work.
unfoldable pub release : ℕ → Bytes → Works → Works
unfolding find remove
release w k m = elim (find k m) [ none ↦ m | some v ↦ if v == w then remove k m else m ]

-- `Drop for StaticTaskGuard`, on the runtime's entries.
unfoldable pub release_all : ℕ → List Bytes → Works → Works
unfolding release
release_all w [] m = m
release_all w (k ∷ ks) m = release_all w ks (release w k m)
