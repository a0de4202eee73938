-- ===== src/Requests/Tracking.antt =====
-- src/request.rs: what every step but a registration keeps of what handles depend on.
use leptos_ntex.Base.{
  ℕ, ◌+◌, ◌≤◌, ◌<◌, ◌==◌, ==_iff, true, false, Bool-cases, some, is_some, Option-cases, List, [],
  ◌∷◌, All, All-map, checked_add, ◌≡◌, refl, sym, ◌∙◌, subst, arith, inl, inr,
}
use leptos_ntex.Requests.{
  Token, Registry, World, get, remove, registry, update, new_scope, is_live, take_out, drop_token,
  drop_handle, collect, collect_scope, collect_dirty, poll_scope, drop_scope,
}
use leptos_ntex.Requests.Scopes.{
  find_scope, Keeps, find_scope-close, find_scope-same, Below-update, Falling-update, Below-close,
  Falling-close, find_scope-Below,
}
use leptos_ntex.Requests.History.{opened, ended, is_open, native_of, History}
use leptos_ntex.Requests.Access.{
  Held, IsTracked, is_some-update, Held-update, Held-close, All-take_out, All-live, All-both,
  get-live_entries, get-remove, not_token,
}

module _ (h : History) (v : IsTracked h) where
  abbrev Live : Token → Type 0
  Live t = is_live t.scope t.id h.world.handles ≡ true

  abbrev Same : ℕ → (Registry → Registry) → Token → Type 0
  Same id f t =
      (r : Registry)
      → find_scope id h.world.scopes ≡ some r
      → t.scope ≡ id
      → get t.id (f r).entries ≡ get t.id r.entries

  -- A scope changes in a way that keeps the entries of the handles that stay.
  pub IsTracked-update :
      (id : ℕ) (f : Registry → Registry) (handles : List Token)
      → Keeps f
      → ((r : Registry) → r.next_id ≤ (f r).next_id)
      → All (Same id f) handles
      → All (Held h.world.next_scope h.world.scopes h.events) handles
      → IsTracked (record h {
        world = record h.world { scopes = update id f h.world.scopes; handles = handles };
      })
  IsTracked-update id f handles k grows same held = record {
    falling = Falling-update id f h.world.scopes k v.falling;
    below = Below-update h.world.next_scope id f h.world.scopes k v.below;
    known = λ s. v.known s ∙ sym (is_some-update s id f h.world.scopes k);
    held =
        All-map _ _
          (λ t p.
            Held-update h.world.next_scope id f h.world.scopes h.events t k (λ r found. grows r) p.0
              p.1)
          handles (All-both _ _ handles same held);
  }

  pub IsTracked-handles :
      (handles : List Token)
      → All (Held h.world.next_scope h.world.scopes h.events) handles
      → IsTracked (record h { world = record h.world { handles = handles } })
  IsTracked-handles handles held = record {
    falling = v.falling;
    below = v.below;
    known = v.known;
    held = held;
  }

  live : All Live h.world.handles
  live = All-live h.world.handles h.world.handles (λ s i l. l)

  pub collects-IsTracked : (id : ℕ) → IsTracked (record h { world = collect_scope id h.world })
  unfolding collect_scope collect
  collects-IsTracked id =
      IsTracked-update id (collect h.world.handles) h.world.handles (λ r. (refl, refl))
        (λ r. omega arith)
        (All-map Live (Same id (collect h.world.handles))
          (λ t l r found same. get-live_entries r.id t.id h.world.handles r.entries (
            subst (λ s. is_live s t.id h.world.handles ≡ true)
              (same ∙ sym (find_scope-same id h.world.scopes r found)) l))
          h.world.handles live)
        v.held

  pub polls-IsTracked : (id : ℕ) → IsTracked (record h { world = poll_scope id h.world })
  unfolding poll_scope collect_dirty collect
  polls-IsTracked id =
      IsTracked-update id (collect_dirty h.world.handles) h.world.handles keeps grows
        (All-map Live (Same id (collect_dirty h.world.handles))
          (λ t l r found same. kept t l r found same) h.world.handles live)
        v.held
    where
      keeps : Keeps (collect_dirty h.world.handles)
      keeps r = ground arith

      grows : (r : Registry) → r.next_id ≤ (collect_dirty h.world.handles r).next_id
      grows r = ground arith

      kept :
          (t : Token)
          → is_live t.scope t.id h.world.handles ≡ true
          → (r : Registry) → find_scope id h.world.scopes ≡ some r
          → t.scope ≡ id
          → get t.id (collect_dirty h.world.handles r).entries ≡ get t.id r.entries
      kept t l r found same =
          let alive : is_live r.id t.id h.world.handles ≡ true =
            subst (λ s. is_live s t.id h.world.handles ≡ true)
              (same ∙ sym (find_scope-same id h.world.scopes r found)) l in
          elim (Bool-cases r.dirty) [
            | inl d ↦ rw d (get-live_entries r.id t.id h.world.handles r.entries alive)
            | inr d ↦ rw d refl
          ]

  drop_token-IsTracked :
      (thread : ℕ) (t : Token)
      → is_live t.scope t.id (take_out t h.world.handles) ≡ false
      → IsTracked (record h {
        world = record h.world {
          handles = take_out t h.world.handles;
          scopes = drop_token thread t h.world.scopes;
        };
      })
  unfolding drop_token
  drop_token-IsTracked thread t dead = elim (Bool-cases (t.origin == thread)) [
    | inr foreign ↦ rw foreign (
        IsTracked-update t.scope (λ r. record r { dirty = true }) rest (λ r. (refl, refl))
          (λ r. omega arith)
          (All-map Staying (Same t.scope (λ r. record r { dirty = true }))
            (λ u l r found same. refl) rest staying)
          held)
    | inl own ↦ elim (Option-cases (registry thread t.scope h.world.scopes)) [
      | inl gone ↦ rw (own, gone) (IsTracked-handles rest held)
      | inr (q, found) ↦
          rw (own, found)
            (IsTracked-update t.scope (λ r. record r { entries = remove t.id r.entries }) rest
              (λ r. (refl, refl)) (λ r. omega arith)
              (All-map Staying (Same t.scope (λ r. record r { entries = remove t.id r.entries }))
                (λ u l r found same. kept u l r same) rest staying)
              held)
    ]
  ]
    where
      rest : List Token
      rest = take_out t h.world.handles

      held : All (Held h.world.next_scope h.world.scopes h.events) rest
      held = All-take_out _ t h.world.handles v.held

      Staying : Token → Type 0
      Staying u = is_live u.scope u.id rest ≡ true

      staying : All Staying rest
      staying = All-live rest rest (λ s i l. l)

      kept :
          (u : Token)
          → is_live u.scope u.id rest ≡ true
          → (r : Registry) → u.scope ≡ t.scope
          → get u.id (remove t.id r.entries) ≡ get u.id r.entries
      kept u l r same = ground (
        arith,
        get-remove u.id t.id r.entries,
        not_token t.scope t.id rest u dead l,
        ==_iff u.scope t.scope,
        ==_iff u.id t.id,
        ==_iff t.id u.id,
      )

  pub drops-IsTracked :
      (thread : ℕ) (t : Token) → IsTracked (record h { world = drop_handle thread t h.world })
  unfolding drop_handle
  drops-IsTracked thread t = elim (Bool-cases (is_live t.scope t.id (take_out t h.world.handles))) [
    | inl shared ↦
        rw shared
          (IsTracked-handles (take_out t h.world.handles) (All-take_out _ t h.world.handles v.held))
    | inr last ↦ rw last (drop_token-IsTracked thread t last)
  ]

  pub closes-IsTracked :
      (id : ℕ) → IsTracked (record { world = drop_scope id h.world; events = ended id ∷ h.events })
  unfolding drop_scope is_open
  closes-IsTracked id = record {
    falling = Falling-close id h.world.scopes v.falling;
    below = Below-close h.world.next_scope id h.world.scopes v.below;
    known = λ s. ground (arith, v.known s, find_scope-close s id h.world.scopes);
    held =
        All-map (Held h.world.next_scope h.world.scopes h.events) _
          (λ t. Held-close h.world.next_scope id h.world.scopes h.events t) h.world.handles v.held;
  }

  pub opens-IsTracked :
      (thread : ℕ) (w : World)
      → new_scope thread h.world ≡ some w
      → IsTracked (record { world = w; events = opened h.world.next_scope ∷ h.events })
  unfolding new_scope checked_add native_of is_open find_scope
  opens-IsTracked thread w e =
      let is : w ≡ larger = ground (arith, e) in
      subst (λ x. IsTracked (record { world = x; events = opened h.world.next_scope ∷ h.events }))
        (sym is) tracked
    where
      first : Registry
      first = record {
        id = h.world.next_scope;
        origin = thread;
        next_id = 0;
        dirty = false;
        entries = [];
      }

      larger : World
      larger = record h.world {
        next_scope = h.world.next_scope + 1;
        scopes = first ∷ h.world.scopes;
      }

      further : (r : Registry) → r.id < h.world.next_scope → r.id < h.world.next_scope + 1
      further r l = omega arith

      known :
          (s : ℕ)
          → is_open s (opened h.world.next_scope ∷ h.events)
            ≡ is_some (find_scope s (first ∷ h.world.scopes))
      known s = ground (
        arith,
        v.known s,
        ==_iff h.world.next_scope s,
        find_scope-Below h.world.next_scope s h.world.scopes v.below,
      )

      held :
          (t : Token)
          → Held h.world.next_scope h.world.scopes h.events t
          → Held
              (h.world.next_scope + 1)
              (first ∷ h.world.scopes)
              (opened h.world.next_scope ∷ h.events)
              t
      held t p = (
        omega (arith, p.0),
        λ r found. p.1 r (ground (arith, found, p.0, ==_iff h.world.next_scope t.scope)),
      )

      tracked : IsTracked (record { world = larger; events = opened h.world.next_scope ∷ h.events })
      tracked = record {
        falling = (v.below, v.falling);
        below = (
          omega arith,
          All-map (λ (r : Registry). r.id < h.world.next_scope)
              (λ (r : Registry). r.id < h.world.next_scope + 1) further h.world.scopes v.below,
        );
        known = known;
        held = All-map _ _ held h.world.handles v.held;
      }
