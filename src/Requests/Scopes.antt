-- ===== src/Requests/Scopes.antt =====
-- src/request.rs: the list of open scopes as a map by identifier.
use leptos_ntex.Base.{
  ℕ, ◌≤◌, ◌<◌, ◌==◌, if◌then◌else◌, Bool-cases, Option, none, some, List, [], ◌∷◌, All, ◌≡◌, refl,
  arith, inl, inr,
}
use leptos_ntex.Requests.{Registry, current_registry, registry, update, close}

unfoldable pub find_scope : ℕ → List Registry → Option Registry
find_scope id [] = none
find_scope id (r ∷ scopes) = if r.id == id then some r else find_scope id scopes

abbrev pub map_scope : (Registry → Registry) → Option Registry → Option Registry
map_scope f none = none
map_scope f (some r) = some (f r)

-- Identifiers fall from the newest scope to the oldest.
abbrev pub Below : ℕ → List Registry → Type 0
Below n scopes = All (λ (r : Registry). r.id < n) scopes

abbrev pub Falling : List Registry → Type 0
Falling [] = Unit
Falling (r ∷ scopes) = Below r.id scopes × Falling scopes

abbrev pub Keeps : (Registry → Registry) → Type 0
Keeps f = (r : Registry) → ((f r).id ≡ r.id) × ((f r).origin ≡ r.origin)

pub find_scope-update :
    (j id : ℕ) (f : Registry → Registry) (scopes : List Registry)
    → Keeps f
    → find_scope j (update id f scopes)
      ≡ (if id == j then map_scope f (find_scope id scopes) else find_scope j scopes)
unfolding find_scope update
find_scope-update j id f [] k = ground arith
find_scope-update j id f (r ∷ scopes) k = elim (Bool-cases (r.id == id)) [
  | inl same ↦ rw same (ground (arith, same, (k r).0))
  | inr other ↦ rw other (ground (arith, other, find_scope-update j id f scopes k))
]

pub find_scope-close :
    (j id : ℕ) (scopes : List Registry)
    → find_scope j (close id scopes) ≡ (if id == j then none else find_scope j scopes)
unfolding find_scope close
find_scope-close j id [] = ground arith
find_scope-close j id (r ∷ scopes) = elim (Bool-cases (r.id == id)) [
  | inl same ↦ rw same (ground (arith, same, find_scope-close j id scopes))
  | inr other ↦ rw other (ground (arith, other, find_scope-close j id scopes))
]

pub find_scope-Below :
    (n id : ℕ) (scopes : List Registry) → Below n scopes → n ≤ id → find_scope id scopes ≡ none
unfolding find_scope
find_scope-Below n id [] b h = refl
find_scope-Below n id (r ∷ scopes) b h = ground (arith, b.0, find_scope-Below n id scopes b.1 h)

registry-Below :
    (thread n id : ℕ) (scopes : List Registry)
    → Below n scopes
    → n ≤ id
    → registry thread id scopes ≡ none
unfolding registry
registry-Below thread n id [] b h = refl
registry-Below thread n id (r ∷ scopes) b h =
    ground (arith, b.0, registry-Below thread n id scopes b.1 h)

-- The scope of an identifier, if it is of this thread.
abbrev pub on_thread : ℕ → Option Registry → Option Registry
on_thread thread none = none
on_thread thread (some r) = if r.origin == thread then some r else none

pub registry-find_scope :
    (thread id : ℕ) (scopes : List Registry)
    → Falling scopes
    → registry thread id scopes ≡ on_thread thread (find_scope id scopes)
unfolding registry find_scope
registry-find_scope thread id [] f = refl
registry-find_scope thread id (r ∷ scopes) f = elim (Bool-cases (r.id == id)) [
  | inl same ↦
      rw same
        (ground (arith, same, registry-Below thread r.id id scopes f.0 (ground (arith, same))))
  | inr other ↦ rw other (ground (arith, registry-find_scope thread id scopes f.1))
]

pub find_scope-same :
    (id : ℕ) (scopes : List Registry) (r : Registry) → find_scope id scopes ≡ some r → r.id ≡ id
unfolding find_scope
find_scope-same id [] r h = cc
find_scope-same id (q ∷ scopes) r h = ground (arith, h, find_scope-same id scopes r)

current_registry-Below :
    (thread n : ℕ) (scopes : List Registry) (r : Registry)
    → Below n scopes
    → current_registry thread scopes ≡ some r
    → r.id < n
unfolding current_registry
current_registry-Below thread n [] r b h = absurd (cc)
current_registry-Below thread n (q ∷ scopes) r b h = elim (Bool-cases (q.origin == thread)) [
  | inl same ↦ ground (arith, h, same, b.0)
  | inr other ↦ current_registry-Below thread n scopes r b.1 (ground (arith, h, other))
]

pub current_registry-find_scope :
    (thread : ℕ) (scopes : List Registry) (r : Registry)
    → Falling scopes
    → current_registry thread scopes ≡ some r
    → (find_scope r.id scopes ≡ some r) × (r.origin ≡ thread)
unfolding current_registry find_scope
current_registry-find_scope thread [] r f h = absurd (cc)
current_registry-find_scope thread (q ∷ scopes) r f h = elim (Bool-cases (q.origin == thread)) [
  | inl same ↦ ground (arith, h, same)
  | inr other ↦
      (let rest : current_registry thread scopes ≡ some r = ground (arith, h, other) in
        ground (
          arith,
          current_registry-find_scope thread scopes r f.1 rest,
          current_registry-Below thread q.id scopes r f.0 rest,
        ))
]

pub Below-update :
    (n id : ℕ) (f : Registry → Registry) (scopes : List Registry)
    → Keeps f
    → Below n scopes
    → Below n (update id f scopes)
unfolding update
Below-update n id f [] k b = tt
Below-update n id f (r ∷ scopes) k b = elim (Bool-cases (r.id == id)) [
  | inl same ↦ rw same (ground (arith, b.0, (k r).0), b.1)
  | inr other ↦ rw other (b.0, Below-update n id f scopes k b.1)
]

pub Falling-update :
    (id : ℕ) (f : Registry → Registry) (scopes : List Registry)
    → Keeps f
    → Falling scopes
    → Falling (update id f scopes)
unfolding update
Falling-update id f [] k h = tt
Falling-update id f (r ∷ scopes) k h = elim (Bool-cases (r.id == id)) [
  | inl same ↦ rw same (rw ((k r).0) h.0, h.1)
  | inr other ↦ rw other (Below-update r.id id f scopes k h.0, Falling-update id f scopes k h.1)
]

pub Below-close : (n id : ℕ) (scopes : List Registry) → Below n scopes → Below n (close id scopes)
unfolding close
Below-close n id [] b = tt
Below-close n id (r ∷ scopes) b = elim (Bool-cases (r.id == id)) [
  | inl same ↦ rw same (Below-close n id scopes b.1)
  | inr other ↦ rw other (b.0, Below-close n id scopes b.1)
]

pub Falling-close : (id : ℕ) (scopes : List Registry) → Falling scopes → Falling (close id scopes)
unfolding close
Falling-close id [] h = tt
Falling-close id (r ∷ scopes) h = elim (Bool-cases (r.id == id)) [
  | inl same ↦ rw same (Falling-close id scopes h.1)
  | inr other ↦ rw other (Below-close r.id id scopes h.0, Falling-close id scopes h.1)
]
