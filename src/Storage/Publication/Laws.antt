-- ===== src/Storage/Publication/Laws.antt =====
-- Admission keeps the peak of a publication within the limits; a commit caches the exact change.
use leptos_ntex.Base.{
  ℕ, ◌+◌, ◌≤◌, ◌≡◌, refl, subst, ◌⊎◌, ◌↔◌, Option, inl, inr, Bytes, none, some, List, Result, ok,
  err, arith, u64_max, Result-cases,
}
use leptos_ntex.Io.{IoError}
use leptos_ntex.Storage.Errors.{StaticStorageLimits, StaticStorageError}
use leptos_ntex.Storage.Accounting.{Usage, add, add_iff}
use leptos_ntex.Storage.Publication.{
  cached_usage, Session, Observed, Written, Destination, find_parent, peak, total_usage, bump,
  announce, admit_total, admit, admit_found, check_unmanaged,
}
use leptos_ntex.Storage.Publication.Unmanaged.{IsUnmanaged, check_unmanaged_lem}
use leptos_ntex.Storage.Publication.Peak.{Admissible, peak-Admissible}

-- The usage that admission starts from is the cache's, if that is of the guard's generation, and
-- the scan's otherwise; only the cache changes.
pub total_usage_cases :
    (s s' : Session) (o : Observed) (total : Usage)
    → total_usage s o ≡ (s', ok total)
    → ((s' ≡ s) × (cached_usage s.cached s.generation ≡ some total))
      ⊎ ((o.inventory ≡ ok total)
          × (s' ≡ record s { cached = some (record { generation = s.generation; usage = total }) }))
unfolding total_usage
total_usage_cases s s' o total h = ground arith

abbrev pub bumped : Session → Session
bumped s = record s { disk = s.generation + 1; generation = s.generation + 1 }

-- The generation that the record carries after a bump that failed: the old one, or what the write
-- left there.
abbrev pub Left : Session → Written → ℕ → Type 0
Left s w d = (d ≡ s.disk) ⊎ ((x : IoError) × (w ≡ err (x, d)))

-- A bump either moves disk and guard to the next generation, or changes at most the disk.
pub bump_cases :
    (s : Session) (w : Written)
    → ((bump s w ≡ (bumped s, ok tt)) × (s.generation + 1 ≤ u64_max))
      ⊎ ((e : StaticStorageError) × (d : ℕ) × Left s w d
          × (bump s w ≡ (record s { disk = d }, err e)))
unfolding bump
bump_cases s w = elim (Result-cases (add s.generation 1)) [
  | inl (n, e) ↦ stored w n ((add_iff _ _ _).0 e) e
  | inr (x, e) ↦ inr (x, s.disk, inl refl, rw (e, bump) refl)
]
  where
    stored :
        (w : Written) (n : ℕ)
        → (n ≡ s.generation + 1) × (s.generation + 1 ≤ u64_max)
        → add s.generation 1 ≡ ok n
        → ((bump s w ≡ (bumped s, ok tt)) × (s.generation + 1 ≤ u64_max))
          ⊎ ((e : StaticStorageError) × (d : ℕ) × Left s w d
              × (bump s w ≡ (record s { disk = d }, err e)))
    stored (ok x) n h e = inl (rw (e, bump) (rw (h.0)), h.1)
    stored (err (x, d)) n h e = inr (StaticStorageError.io x, d, inr (x, refl), rw (e, bump) refl)

announce_cases :
    (s : Session) (o : Observed) (d : Destination) (total before : Usage)
    → (announce s o d total before ≡ (
      record (bumped s) {
        pending = some (record { total = total; before = before; created = d.created });
      },
      ok tt,
    ))
      ⊎ ((e : StaticStorageError) × (g : ℕ) × Left s o.written g
          × (announce s o d total before ≡ (record s { disk = g }, err e)))
unfolding announce
announce_cases s o d total before = elim (bump_cases s o.written) [
  | inl (e, _) ↦ inl (rw (e, announce) (rw e))
  | inr (x, g, l, e) ↦ inr (x, g, l, rw (e, announce) (rw e))
]

-- What an admission that succeeds has found and done.
pub record Admitted (limits : StaticStorageLimits) (s s' : Session) (o : Observed) (lock : Bytes)
    (parent : List Bytes) (html metadata : ℕ) : Type 0 where
  pub destination : Destination
  pub middle : Session
  pub total : Usage
  pub before : Usage
  pub found : find_parent o.probe parent 0 none ≡ ok destination
  pub known : total_usage s o ≡ (middle, ok total)
  pub admissible : Admissible limits o lock destination total html metadata before
  pub after : s' ≡ record (bumped middle) {
    pending = some (record { total = total; before = before; created = destination.created });
  }

-- At most the scan was remembered.
abbrev pub Kept : Session → Observed → Session → Type 0
Kept s o m =
    (m ≡ s)
    ⊎ ((total : Usage) × (o.inventory ≡ ok total)
        × (m ≡ record s { cached = some (record { generation = s.generation; usage = total }) }))

-- An admission that fails leaves all but the cache, which at most holds the fresh scan, and the
-- record's generation, if its write failed.
abbrev pub Refused : Session → Observed → Session → Type 0
Refused s o s' =
    (m : Session) × Kept s o m × (g : ℕ) × Left m o.written g × (s' ≡ record m { disk = g })

total_usage-Kept :
    (s m : Session) (o : Observed) (r : Result StaticStorageError Usage)
    → total_usage s o ≡ (m, r)
    → Kept s o m
unfolding total_usage
total_usage-Kept s m o r h = ground arith

module _ (limits : StaticStorageLimits) (s : Session) (o : Observed) (lock : Bytes)
    (parent : List Bytes) (html metadata : ℕ) where
  admit_bound_cases :
      ((s' : Session) × Admitted limits s s' o lock parent html metadata
        × (admit (some limits) s o lock parent html metadata ≡ (s', ok tt)))
      ⊎ ((s' : Session) × (e : StaticStorageError) × Refused s o s'
          × (admit (some limits) s o lock parent html metadata ≡ (s', err e)))
  unfolding admit admit_found admit_total
  admit_bound_cases = elim (Result-cases (find_parent o.probe parent 0 none)) [
    | inr (x, e) ↦ inr (s, x, (s, inl refl, s.disk, inl refl, refl), rw (e, admit))
    | inl (d, found) ↦ totalled d found (total_usage s o).0 (total_usage s o).1 refl
  ]
    where
      peaked :
          (d : Destination)
          → find_parent o.probe parent 0 none ≡ ok d
          → (m : Session) (total : Usage) → total_usage s o ≡ (m, ok total)
          → (before : Usage) → peak limits o lock d total html metadata ≡ ok before
          → ((s' : Session) × Admitted limits s s' o lock parent html metadata
              × (admit (some limits) s o lock parent html metadata ≡ (s', ok tt)))
            ⊎ ((s' : Session) × (e : StaticStorageError) × Refused s o s'
                × (admit (some limits) s o lock parent html metadata ≡ (s', err e)))
      peaked d found m total known before p = elim (announce_cases m o d total before) [
        | inl e ↦ inl (
          _,
          record {
            destination = d;
            middle = m;
            total = total;
            before = before;
            found = found;
            known = known;
            admissible = peak-Admissible limits o lock d total html metadata before p;
            after = refl;
          },
          rw (found, known, admit) (rw (p, admit_total) e),
        )
        | inr (x, g, l, e) ↦ inr (
          record m { disk = g },
          x,
          (m, total_usage-Kept s m o _ known, g, l, refl),
          rw (found, known, admit) (rw (p, admit_total) e),
        )
      ]

      totalled :
          (d : Destination)
          → find_parent o.probe parent 0 none ≡ ok d
          → (m : Session) (r : Result StaticStorageError Usage) → total_usage s o ≡ (m, r)
          → ((s' : Session) × Admitted limits s s' o lock parent html metadata
              × (admit (some limits) s o lock parent html metadata ≡ (s', ok tt)))
            ⊎ ((s' : Session) × (e : StaticStorageError) × Refused s o s'
                × (admit (some limits) s o lock parent html metadata ≡ (s', err e)))
      totalled d found m (err x) known = inr (
        m,
        x,
        (m, total_usage-Kept s m o _ known, m.disk, inl refl, refl),
        rw (found, known, admit),
      )
      totalled d found m (ok total) known =
          elim (Result-cases (peak limits o lock d total html metadata)) [
            | inl (before, p) ↦ peaked d found m total known before p
            | inr (x, p) ↦ inr (
              m,
              x,
              (m, total_usage-Kept s m o _ known, m.disk, inl refl, refl),
              rw (found, known, admit) (rw (p, admit_total)),
            )
          ]

-- What an admission of a publisher without a policy, or with one, comes to.
abbrev pub Outcome :
    (storage : Option StaticStorageLimits) (s : Session) (o : Observed) (lock : Bytes)
    (parent : List Bytes) (html metadata : ℕ)
    → Session × Result StaticStorageError (Unit {0})
    → Type 0
Outcome none s o lock parent html metadata r =
    (r.0 ≡ s)
    × ((r.1 ≡ ok tt)
        ↔ ((d : Destination) × (find_parent o.probe parent 0 none ≡ ok d) × IsUnmanaged o d))
Outcome (some limits) s o lock parent html metadata r =
    ((s' : Session) × Admitted limits s s' o lock parent html metadata × (r ≡ (s', ok tt)))
    ⊎ ((s' : Session) × (e : StaticStorageError) × Refused s o s' × (r ≡ (s', err e)))

pub admit_cases :
    (storage : Option StaticStorageLimits) (s : Session) (o : Observed) (lock : Bytes)
    (parent : List Bytes) (html metadata : ℕ)
    → Outcome storage s o lock parent html metadata (admit storage s o lock parent html metadata)
unfolding admit admit_found
admit_cases none s o lock parent html metadata =
    elim (Result-cases (find_parent o.probe parent 0 none)) [
      | inr (x, e) ↦
          let is : admit none s o lock parent html metadata ≡ (s, err x) = rw (admit, e) refl in
          rw is (refl, (λ h. absurd (cc), λ (d, f, m). absurd (cc)))
      | inl (d, e) ↦
          let is : admit none s o lock parent html metadata ≡ (s, check_unmanaged o d) =
            rw (admit, e) refl in
          rw is (
            refl,
            (
              λ h. (d, e, (check_unmanaged_lem o d).0 h),
              λ (d', f, m).
                  let same : d' ≡ d = cc in
                  (check_unmanaged_lem o d).1 (subst (IsUnmanaged o) same m),
            ),
          )
    ]
admit_cases (some limits) s o lock parent html metadata =
    admit_bound_cases limits s o lock parent html metadata
