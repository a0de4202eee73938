-- ===== src/Requests/Refinement.antt =====
-- src/request.rs: access through the registries is the access that the history promises.
use leptos_ntex.Base.{
  ℕ, ◌+◌, ◌<◌, ◌==◌, ==_iff, Bool-cases, some, Option-cases, List, ◌∷◌, ◌++◌, All, All-append_right,
  All-map, ok, checked_add, ◌≡◌, refl, sym, ◌∙◌, subst, arith, inl, inr,
}
use leptos_ntex.Requests.{
  Token, Registry, World, get, current_registry, update, enter, try_new, with_request,
}
use leptos_ntex.Requests.Scopes.{
  find_scope, Keeps, find_scope-update, registry-find_scope, current_registry-find_scope,
  Below-update, Falling-update, find_scope-Below,
}
use leptos_ntex.Requests.History.{
  Event, registered, is_open, native_of, promised, History, beginning, Step, opens, registers,
  clones, drops, collects, polls, closes, Reach, here, next,
}
use leptos_ntex.Requests.Access.{Held, IsTracked, is_some-update, Held-update}
use leptos_ntex.Requests.Tracking.{
  IsTracked-handles, opens-IsTracked, drops-IsTracked, collects-IsTracked, polls-IsTracked,
  closes-IsTracked,
}

module _ (h : History) (v : IsTracked h) (thread native : ℕ) (r : Registry)
    (current : current_registry thread h.world.scopes ≡ some r) where
  abbrev pub entered : List Registry
  entered = update r.id (enter native (r.next_id + 1)) h.world.scopes

  abbrev events : List Event
  events = registered r.id r.next_id native ∷ h.events

  pub found : find_scope r.id h.world.scopes ≡ some r
  found = (current_registry-find_scope thread h.world.scopes r v.falling current).0

  entered-Keeps : Keeps (enter native (r.next_id + 1))
  entered-Keeps q = (refl, refl)

  -- Handles of the scope have smaller identifiers than the one that is given.
  smaller :
      (t : Token)
      → Held h.world.next_scope h.world.scopes h.events t
      → t.scope ≡ r.id
      → t.id < r.next_id
  smaller t held same =
      (held.1 r (subst (λ s. find_scope s h.world.scopes ≡ some r) (sym same) found)).1

  older_native_of :
      (t : Token)
      → Held h.world.next_scope h.world.scopes h.events t
      → native_of t.scope t.id events ≡ native_of t.scope t.id h.events
  unfolding native_of
  older_native_of t held = elim (Bool-cases (r.id == t.scope)) [
    | inl same ↦ ground (arith, same, smaller t held, ==_iff r.id t.scope, ==_iff r.next_id t.id)
    | inr other ↦ ground (arith, other)
  ]

  older_entry :
      (t : Token)
      → Held h.world.next_scope h.world.scopes h.events t
      → (q : Registry) → find_scope r.id h.world.scopes ≡ some q
      → t.scope ≡ r.id
      → get t.id (enter native (r.next_id + 1) q).entries ≡ get t.id q.entries
  unfolding get
  older_entry t held q e same =
      let is : q.next_id ≡ r.next_id = ground (arith, e, found) in
      ground (arith, is, smaller t held same, ==_iff q.next_id t.id)

  Held-older :
      (t : Token)
      → Held h.world.next_scope h.world.scopes h.events t
      → Held h.world.next_scope entered events t
  Held-older t held =
      subst
        (λ o.
          (t.scope < h.world.next_scope)
          × ((q : Registry)
              → find_scope t.scope entered ≡ some q
              → (q.origin ≡ t.origin)
                × (t.id < q.next_id)
                × ((n : ℕ) × (get t.id q.entries ≡ some n) × (o ≡ some n))))
        (sym (older_native_of t held))
        (Held-update h.world.next_scope r.id (enter native (r.next_id + 1)) h.world.scopes h.events
          t entered-Keeps (λ q e. ground (arith, e, found)) (older_entry t held) held)

  abbrev pub token : Token
  token = record { scope = r.id; id = r.next_id; origin = thread }

  Held-token : Held h.world.next_scope entered events token
  unfolding native_of get
  Held-token = (
    ground (arith, found, find_scope-Below h.world.next_scope r.id h.world.scopes v.below),
    λ q e.
        (let is : q ≡ enter native (r.next_id + 1) r = ground (
          arith,
          e,
          found,
          ==_iff r.id r.id,
          find_scope-update r.id r.id (enter native (r.next_id + 1)) h.world.scopes entered-Keeps,
        ) in
          subst
            (λ (x : Registry).
              (x.origin ≡ thread)
              × (r.next_id < x.next_id)
              × ((n : ℕ) × (get r.next_id x.entries ≡ some n)
                  × (native_of r.id r.next_id events ≡ some n)))
            (sym is)
            (
              (current_registry-find_scope thread h.world.scopes r v.falling current).1,
              omega arith,
              (
                native,
                ground (arith, ==_iff r.next_id r.next_id),
                ground (arith, ==_iff r.id r.id, ==_iff r.next_id r.next_id),
              ),
            )),
  )

  abbrev pub after : World
  after = record h.world { scopes = entered; handles = token ∷ h.world.handles }

  pub try_new_lem :
      (w : World) (t : Token)
      → try_new thread native h.world ≡ some (w, ok t)
      → (w ≡ after) × (t ≡ token)
  unfolding try_new checked_add
  try_new_lem w t e = ground (arith, current, e)

  try_new-IsTracked : IsTracked (record { world = after; events = events })
  unfolding is_open
  try_new-IsTracked = record {
    falling =
        Falling-update r.id (enter native (r.next_id + 1)) h.world.scopes entered-Keeps v.falling;
    below =
        Below-update h.world.next_scope r.id (enter native (r.next_id + 1)) h.world.scopes
          entered-Keeps v.below;
    known = λ s.
        v.known s
        ∙ sym (is_some-update s r.id (enter native (r.next_id + 1)) h.world.scopes entered-Keeps);
    held = (Held-token, All-map _ _ Held-older h.world.handles v.held);
  }

registers-IsTracked :
    (h : History) (v : IsTracked h) (thread native : ℕ) (w : World) (t : Token)
    → try_new thread native h.world ≡ some (w, ok t)
    → IsTracked (record { world = w; events = registered t.scope t.id native ∷ h.events })
unfolding try_new
registers-IsTracked h v thread native w t e =
    elim (Option-cases (current_registry thread h.world.scopes)) [
      | inl none_open ↦ absurd (ground (arith, none_open, e))
      | inr (r, current) ↦
          (let (same_world, same_token) = try_new_lem h v thread native r current w t e in
            subst
              (λ w.
                IsTracked
                  (record { world = w; events = registered t.scope t.id native ∷ h.events }))
              (sym same_world) (rw same_token (try_new-IsTracked h v thread native r current)))
    ]

pub held_of :
    (h : History) (v : IsTracked h) (ps qs : List Token) (t : Token)
    → h.world.handles ≡ ps ++ t ∷ qs
    → Held h.world.next_scope h.world.scopes h.events t
held_of h v ps qs t e =
    (All-append_right (Held h.world.next_scope h.world.scopes h.events) ps (t ∷ qs)
      (subst (All _) e v.held)).0

beginning-IsTracked : IsTracked beginning
unfolding is_open find_scope
beginning-IsTracked = record { falling = tt; below = tt; known = λ s. refl; held = tt }

Step-IsTracked : {h k : History} → Step h k → IsTracked h → IsTracked k
Step-IsTracked {h} (opens thread w e) v = opens-IsTracked h v thread w e
Step-IsTracked {h} (registers thread native w t e) v = registers-IsTracked h v thread native w t e
Step-IsTracked {h} (clones ps qs t e) v =
    IsTracked-handles h v (t ∷ h.world.handles) (held_of h v ps qs t e, v.held)
Step-IsTracked {h} (drops thread ps qs t e) v = drops-IsTracked h v thread t
Step-IsTracked {h} (collects id) v = collects-IsTracked h v id
Step-IsTracked {h} (polls id) v = polls-IsTracked h v id
Step-IsTracked {h} (closes id) v = closes-IsTracked h v id

pub Reach-IsTracked : {h : History} → Reach beginning h → IsTracked h
Reach-IsTracked here = beginning-IsTracked
Reach-IsTracked (next r s) = Step-IsTracked s (Reach-IsTracked r)

tracked_access :
    (h : History) (v : IsTracked h) (thread : ℕ) (t : Token)
    → Held h.world.next_scope h.world.scopes h.events t
    → with_request thread t h.world ≡ promised thread t h.events
unfolding with_request promised
tracked_access h v thread t held = elim (Option-cases (find_scope t.scope h.world.scopes)) [
  | inl gone ↦
      ground
        (arith, gone, v.known t.scope, registry-find_scope thread t.scope h.world.scopes v.falling)
  | inr (r, e) ↦
      (let (origin, bound, (n, entry, native)) = held.1 r e in
        ground (
          arith,
          e,
          origin,
          entry,
          native,
          v.known t.scope,
          registry-find_scope thread t.scope h.world.scopes v.falling,
          ==_iff t.origin thread,
          ==_iff r.origin thread,
        ))
]

-- In every reachable history a handle gives the access that the history promises: on the thread of its
-- registration and while its scope is open the native request that was registered, elsewhere the
-- error of a wrong thread, and after the scope has ended the error of a closed scope, whatever
-- other scopes were opened, clones dropped, entries collected or retirements polled in between.
pub with_request-promised :
    {h : History}
    → Reach beginning h
    → (thread : ℕ) (ps qs : List Token) (t : Token) → h.world.handles ≡ ps ++ t ∷ qs
    → with_request thread t h.world ≡ promised thread t h.events
with_request-promised {h} r thread ps qs t e =
    let v = Reach-IsTracked r in tracked_access h v thread t (held_of h v ps qs t e)
