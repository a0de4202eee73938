-- ===== src/Requests/Retirement.antt =====
-- src/request.rs: what every step does to the entries whose handles have gone.
use leptos_ntex.Base.{
  ℕ, ◌+◌, ◌==◌, ==_iff, true, false, ◌&&◌, Bool-cases, some, Option-cases, List, [], ◌∷◌, ok,
  checked_add, ◌≡◌, refl, sym, ◌∙◌, ap, subst, arith, inl, inr,
}
use leptos_ntex.Requests.{
  Token, Registry, World, get, remove, current_registry, registry, update, new_scope, enter,
  try_new, is_live, take_out, drop_token, drop_handle, live_entries, collect, collect_dirty, close,
}
use leptos_ntex.Requests.Scopes.{
  find_scope, Keeps, find_scope-close, find_scope-same, find_scope-update, registry-find_scope,
}
use leptos_ntex.Requests.History.{History}
use leptos_ntex.Requests.Access.{Held, IsTracked, get-remove}
use leptos_ntex.Requests.Refinement.{try_new_lem, found}

-- An entry of a scope that is not marked has a handle.
abbrev pub IsRetired : List Registry → List Token → Type 0
IsRetired scopes handles =
    (s i n : ℕ) (r : Registry)
    → find_scope s scopes ≡ some r
    → r.dirty ≡ false
    → get i r.entries ≡ some n
    → is_live s i handles ≡ true

is_live-take_out :
    (s i : ℕ) (t : Token) (handles : List Token)
    → (t.scope == s && t.id == i) ≡ false
    → is_live s i (take_out t handles) ≡ is_live s i handles
unfolding is_live take_out
is_live-take_out s i t [] other = refl
is_live-take_out s i t (u ∷ handles) other = ground (
  arith,
  other,
  is_live-take_out s i t handles other,
  ==_iff u.scope t.scope,
  ==_iff u.id t.id,
  ==_iff t.scope s,
  ==_iff t.id i,
  ==_iff u.scope s,
  ==_iff u.id i,
)

is_live-live_entries :
    (s i n : ℕ) (handles : List Token) (entries : List (ℕ × ℕ))
    → get i (live_entries s handles entries) ≡ some n
    → is_live s i handles ≡ true
unfolding get live_entries
is_live-live_entries s i n handles [] e = absurd (cc)
is_live-live_entries s i n handles ((j, m) ∷ entries) e = elim (Bool-cases (is_live s j handles)) [
  | inl stays ↦ ground (arith, stays, e, is_live-live_entries s i n handles entries, ==_iff j i)
  | inr goes ↦ ground (arith, goes, e, is_live-live_entries s i n handles entries)
]

-- A change of one scope.
IsRetired-update :
    (id : ℕ) (f : Registry → Registry) (scopes : List Registry) (handles rest : List Token)
    → Keeps f
    → ((i n : ℕ) (q : Registry)
        → find_scope id scopes ≡ some q
        → (f q).dirty ≡ false
        → get i (f q).entries ≡ some n
        → is_live id i rest ≡ true)
    → ((s i : ℕ) → (id == s) ≡ false → is_live s i handles ≡ true → is_live s i rest ≡ true)
    → IsRetired scopes handles
    → IsRetired (update id f scopes) rest
IsRetired-update id f scopes handles rest k changed others before s i n r found clean entry =
    elim (Bool-cases (id == s)) [
      | inr other ↦ others s i other (
          before s i n r (ground (arith, other, found, find_scope-update s id f scopes k)) clean
            entry)
      | inl same ↦ elim (Option-cases (find_scope id scopes)) [
        | inl gone ↦ absurd (ground (arith, same, gone, found, find_scope-update s id f scopes k))
        | inr (q, e) ↦
            (let is : r ≡ f q = ground (arith, same, e, found, find_scope-update s id f scopes k) in
              let alive : is_live id i rest ≡ true =
                changed i n q e (ap (λ (r : Registry). r.dirty) (sym is) ∙ clean)
                  (ap (λ (r : Registry). get i r.entries) (sym is) ∙ entry) in
              subst (λ s. is_live s i rest ≡ true) (ground (arith, same)) alive)
      ]
    ]

module _ (h : History) (v : IsTracked h) (before : IsRetired h.world.scopes h.world.handles) where
  abbrev scopes : List Registry
  scopes = h.world.scopes

  abbrev handles : List Token
  handles = h.world.handles

  pub collects-IsRetired : (id : ℕ) → IsRetired (update id (collect handles) scopes) handles
  unfolding collect
  collects-IsRetired id =
      IsRetired-update id (collect handles) scopes handles handles (λ r. (refl, refl))
        (λ i n q found clean entry.
          subst (λ s. is_live s i handles ≡ true) (find_scope-same id scopes q found)
            (is_live-live_entries q.id i n handles q.entries entry))
        (λ s i other l. l) before

  pub polls-IsRetired : (id : ℕ) → IsRetired (update id (collect_dirty handles) scopes) handles
  unfolding collect_dirty collect
  polls-IsRetired id =
      IsRetired-update id (collect_dirty handles) scopes handles handles (λ r. ground arith)
        (λ i n q found clean entry. changed i n q found clean entry) (λ s i other l. l) before
    where
      changed :
          (i n : ℕ) (q : Registry)
          → find_scope id scopes ≡ some q
          → (collect_dirty handles q).dirty ≡ false
          → get i (collect_dirty handles q).entries ≡ some n
          → is_live id i handles ≡ true
      changed i n q found clean entry = elim (Bool-cases q.dirty) [
        | inl marked ↦
            subst (λ s. is_live s i handles ≡ true) (find_scope-same id scopes q found)
              (is_live-live_entries q.id i n handles q.entries (ground (arith, marked, entry)))
        | inr unmarked ↦ before id i n q found unmarked (ground (arith, unmarked, entry))
      ]

  pub closes-IsRetired : (id : ℕ) → IsRetired (close id scopes) handles
  closes-IsRetired id s i n r found clean entry =
      before s i n r (ground (arith, found, find_scope-close s id scopes)) clean entry

  pub clones-IsRetired : (t : Token) → IsRetired scopes (t ∷ handles)
  unfolding is_live
  clones-IsRetired t s i n r found clean entry = ground (arith, before s i n r found clean entry)

  pub opens-IsRetired :
      (thread : ℕ) (w : World) → new_scope thread h.world ≡ some w → IsRetired w.scopes w.handles
  unfolding new_scope checked_add find_scope get
  opens-IsRetired thread w e =
      let is : w ≡ larger = ground (arith, e) in
      subst (λ (w : World). IsRetired w.scopes w.handles) (sym is) kept
    where
      first : Registry
      first = record {
        id = h.world.next_scope;
        origin = thread;
        next_id = 0;
        dirty = false;
        entries = [];
      }

      larger : World
      larger = record h.world { next_scope = h.world.next_scope + 1; scopes = first ∷ scopes }

      kept : IsRetired (first ∷ scopes) handles
      kept s i n r found clean entry = elim (Bool-cases (h.world.next_scope == s)) [
        | inl same ↦
            (let is : r ≡ first = ground (arith, same, found) in
              absurd (ground (arith, sym (ap (λ (r : Registry). get i r.entries) is) ∙ entry)))
        | inr other ↦ before s i n r (ground (arith, other, found)) clean entry
      ]

  pub registers-IsRetired :
      (thread native : ℕ) (w : World) (t : Token)
      → try_new thread native h.world ≡ some (w, ok t)
      → IsRetired w.scopes w.handles
  unfolding try_new checked_add get is_live
  registers-IsRetired thread native w t e = elim (Option-cases (current_registry thread scopes)) [
    | inl none_open ↦ absurd (ground (arith, none_open, e))
    | inr (r, current) ↦
        (let (is, _) = try_new_lem h v thread native r current w t e in
          subst (λ (w : World). IsRetired w.scopes w.handles) (sym is) (kept r current))
  ]
    where
      kept :
          (r : Registry)
          → current_registry thread scopes ≡ some r
          → IsRetired
              (update r.id (enter native (r.next_id + 1)) scopes)
              (record { scope = r.id; id = r.next_id; origin = thread } ∷ handles)
      kept r current =
          IsRetired-update r.id (enter native (r.next_id + 1)) scopes handles
            (record { scope = r.id; id = r.next_id; origin = thread } ∷ handles) (λ q. (refl, refl))
            (λ i n q e clean entry. ground (
              arith,
              found h v thread native r current,
              e,
              entry,
              clean,
              before r.id i n q e clean,
              ==_iff q.next_id i,
              ==_iff r.next_id i,
              ==_iff r.id r.id,
            ))
            (λ s i other l. ground (arith, l)) before

  -- The last handle of a token goes.
  last-IsRetired :
      (thread : ℕ) (t : Token)
      → Held h.world.next_scope scopes h.events t
      → IsRetired (drop_token thread t scopes) (take_out t handles)
  unfolding drop_token
  last-IsRetired thread t held = elim (Bool-cases (t.origin == thread)) [
    | inr foreign ↦ rw foreign (
        IsRetired-update t.scope (λ r. record r { dirty = true }) scopes handles rest
          (λ r. (refl, refl)) (λ i n q found clean entry. absurd (ground (arith, clean))) others
          before)
    | inl own ↦ elim (Option-cases (registry thread t.scope scopes)) [
      | inl gone ↦
          rw (own, gone)
            (λ s i n r found clean entry. elim (Bool-cases (t.scope == s)) [
              | inr other ↦ others s i other (before s i n r found clean entry)
              | inl same ↦
                  (let e : find_scope t.scope scopes ≡ some r = ground (arith, same, found) in
                    absurd (
                      ground (
                        arith,
                        own,
                        gone,
                        e,
                        (held.1 r e).0,
                        registry-find_scope thread t.scope scopes v.falling,
                        ==_iff t.origin thread,
                        ==_iff r.origin thread,
                      )))
            ])
      | inr (q, found) ↦
          rw (own, found)
            (IsRetired-update t.scope (λ r. record r { entries = remove t.id r.entries }) scopes
              handles rest (λ r. (refl, refl))
              (λ i n q found clean entry. kept i n q found clean entry) others before)
    ]
  ]
    where
      rest : List Token
      rest = take_out t handles

      kept :
          (i n : ℕ) (q : Registry)
          → find_scope t.scope scopes ≡ some q
          → q.dirty ≡ false
          → get i (remove t.id q.entries) ≡ some n
          → is_live t.scope i rest ≡ true
      kept i n q found clean entry =
          let other : (t.id == i) ≡ false = ground (arith, entry, get-remove i t.id q.entries) in
          is_live-take_out t.scope i t handles (ground (arith, other))
          ∙ before t.scope i n q found clean
              (ground (arith, other, entry, get-remove i t.id q.entries))

      others :
          (s i : ℕ) → (t.scope == s) ≡ false → is_live s i handles ≡ true → is_live s i rest ≡ true
      others s i other l = is_live-take_out s i t handles (ground (arith, other)) ∙ l

  pub drops-IsRetired :
      (thread : ℕ) (t : Token)
      → Held h.world.next_scope scopes h.events t
      → IsRetired (drop_handle thread t h.world).scopes (drop_handle thread t h.world).handles
  unfolding drop_handle
  drops-IsRetired thread t held = elim (Bool-cases (is_live t.scope t.id (take_out t handles))) [
    | inl shared ↦ rw shared (λ s i n r found clean entry. ground (
      arith,
      shared,
      before s i n r found clean entry,
      is_live-take_out s i t handles,
      ==_iff t.scope s,
      ==_iff t.id i,
    ))
    | inr last ↦ rw last (last-IsRetired thread t held)
  ]
