-- ===== src/Work/Registry/Laws.antt =====
-- src/static_routes.rs: what the runtime's entries lead to.
use leptos_ntex.Base.{
  ℕ, ◌==◌, if◌then◌else◌, Bool, true, false, ◌&&◌, Bytes, bytes_eq, bytes_eq_iff, Option, none,
  some, List, [], ◌∷◌, ◌≡◌, refl, ◌∙◌, ap, arith, ◌⊎◌, inl, inr, Bool-cases, Option-cases, any,
}
use leptos_ntex.Work.Registry.{
  StaticWorkKey, keys, Works, find, remove, set, find_active, set_all, find_or_insert, release,
  release_all,
}

abbrev pub has_key : Bytes → List Bytes → Bool
has_key k ks = any (λ j. bytes_eq j k) ks

-- Whether a key leads to this work.
abbrev pub leads : ℕ → Option ℕ → Bool
leads w none = false
leads w (some v) = v == w

find-remove :
    (j k : Bytes) (m : Works) → find k (remove j m) ≡ (if bytes_eq j k then none else find k m)
unfolding find remove
find-remove j k [] = ground arith
find-remove j k ((i, w) ∷ m) =
    ground (arith, find-remove j k m, bytes_eq_iff i j, bytes_eq_iff i k, bytes_eq_iff j k)

find-set :
    (j k : Bytes) (w : ℕ) (m : Works)
    → find k (set j w m) ≡ (if bytes_eq j k then some w else find k m)
unfolding set find
find-set j k w m = ground (arith, find-remove j k m)

find-release :
    (w : ℕ) (j k : Bytes) (m : Works)
    → find k (release w j m) ≡ (if bytes_eq j k && leads w (find k m) then none else find k m)
unfolding release
find-release w j k m =
    ground
      (arith, find-remove j k m, bytes_eq_iff j k, ap (λ (x : Bytes). find x m) {x = j} {y = k})

-- When a generation ends, exactly its own entries go: a key of the work that still leads to it is
-- removed, and every other key leads where it led.
pub find-release_all :
    (w : ℕ) (ks : List Bytes) (k : Bytes) (m : Works)
    → find k (release_all w ks m) ≡ (if has_key k ks && leads w (find k m) then none else find k m)
unfolding release_all
find-release_all w [] k m = refl
find-release_all w (j ∷ ks) k m =
    ground (arith, find-release_all w ks k (release w j m), find-release w j k m)

find-set_all :
    (ks : List Bytes) (w : ℕ) (k : Bytes) (m : Works)
    → find k (set_all ks w m) ≡ (if has_key k ks then some w else find k m)
unfolding set_all
find-set_all [] w k m = refl
find-set_all (j ∷ ks) w k m = ground (arith, find-set_all ks w k (set j w m), find-set j k w m)

-- No key leads to an active work, or the work that is found is active and under one of the keys.
abbrev pub Idle : (ℕ → Bool) → List Bytes → Works → Type 0
Idle active ks m = (k : Bytes) (v : ℕ) → has_key k ks ≡ true → find k m ≡ some v → active v ≡ false

abbrev pub Under : (ℕ → Bool) → List Bytes → Works → ℕ → Type 0
Under active ks m w =
    (active w ≡ true) × ((k : Bytes) × (has_key k ks ≡ true) × (find k m ≡ some w))

Idle-cons :
    (active : ℕ → Bool) (j : Bytes) (ks : List Bytes) (m : Works)
    → ((v : ℕ) → find j m ≡ some v → active v ≡ false)
    → Idle active ks m
    → Idle active (j ∷ ks) m
Idle-cons active j ks m first idle k v h e = elim (Bool-cases (bytes_eq j k)) [
  | inl same ↦ first v (ap (λ x. find x m) ((bytes_eq_iff j k).0 same) ∙ e)
  | inr other ↦ idle k v (ground (arith, h, other)) e
]

Under-cons :
    (active : ℕ → Bool) (j : Bytes) (ks : List Bytes) (m : Works) (w : ℕ)
    → Under active ks m w
    → Under active (j ∷ ks) m w
Under-cons active j ks m w (a, (k, h, e)) = (a, (k, ground (arith, h), e))

abbrev Found : (ℕ → Bool) → List Bytes → Works → Type 0
Found active ks m =
    ((find_active active ks m ≡ none) × Idle active ks m)
    ⊎ ((w : ℕ) × (find_active active ks m ≡ some w) × Under active ks m w)

Found-cons :
    (active : ℕ → Bool) (j : Bytes) (ks : List Bytes) (m : Works)
    → find_active active (j ∷ ks) m ≡ find_active active ks m
    → ((v : ℕ) → find j m ≡ some v → active v ≡ false)
    → Found active ks m
    → Found active (j ∷ ks) m
Found-cons active j ks m same first (inl (e, idle)) =
    inl (same ∙ e, Idle-cons active j ks m first idle)
Found-cons active j ks m same first (inr (w, e, under)) =
    inr (w, same ∙ e, Under-cons active j ks m w under)

find_active_cases : (active : ℕ → Bool) (ks : List Bytes) (m : Works) → Found active ks m
unfolding find_active
find_active_cases active [] m = inl (refl, λ k v h e. absurd (ground (arith, h)))
find_active_cases active (j ∷ ks) m = elim (Option-cases (find j m)) [
  | inl e ↦
      Found-cons active j ks m (skips e) (λ v f. absurd (ground (arith, e, f)))
        (find_active_cases active ks m)
  | inr (v, e) ↦ elim (Bool-cases (active v)) [
    | inl a ↦ inr (v, finds v e a, (a, (j, ground (arith, (bytes_eq_iff j j).1 refl), e)))
    | inr a ↦
        Found-cons active j ks m (passes v e a) (λ u f. ground (arith, e, f, a))
          (find_active_cases active ks m)
  ]
]
  where
    skips : find j m ≡ none → find_active active (j ∷ ks) m ≡ find_active active ks m
    skips e = ground (arith, e)

    finds : (v : ℕ) → find j m ≡ some v → active v ≡ true → find_active active (j ∷ ks) m ≡ some v
    finds v e a = ground (arith, e, a)

    passes :
        (v : ℕ)
        → find j m ≡ some v
        → active v ≡ false
        → find_active active (j ∷ ks) m ≡ find_active active ks m
    passes v e a = ground (arith, e, a)

-- A request joins an active work that one of its keys leads to, and then no entry changes; or no
-- key of it leads to an active work, and then the fresh work is found under each of its keys and
-- every other key leads where it led.
pub find_or_insert_lem :
    (active : ℕ → Bool) (key : StaticWorkKey) (fresh : ℕ) (m : Works)
    → ((w : ℕ) × (find_or_insert active key fresh m ≡ (m, w, false)) × Under active (keys key) m w)
      ⊎ ((n : Works) × (find_or_insert active key fresh m ≡ (n, fresh, true))
          × Idle active (keys key) m
          × ((k : Bytes) → find k n ≡ (if has_key k (keys key) then some fresh else find k m)))
unfolding find_or_insert
find_or_insert_lem active key fresh m = elim (find_active_cases active (keys key) m) [
  | inl (e, idle) ↦ inr (
    set_all (keys key) fresh m,
    rw (e, find_or_insert) refl,
    idle,
    λ k. find-set_all (keys key) fresh k m,
  )
  | inr (w, e, under) ↦ inl (w, rw (e, find_or_insert) refl, under)
]
