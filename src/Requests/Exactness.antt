-- ===== src/Requests/Exactness.antt =====
-- src/request.rs: a scope keeps the requests that have handles, and no others.
use leptos_ntex.Base.{
  ℕ, ◌==◌, ==_iff, true, false, ◌&&◌, Bool-cases, some, is_some, Option-cases, List, [], ◌∷◌, All,
  ◌≡◌, sym, ◌∙◌, ap, subst, arith, inl, inr,
}
use leptos_ntex.Requests.{
  Token, Registry, get, update, is_live, collect, collect_scope, collect_dirty, poll_scope,
  drop_scope,
}
use leptos_ntex.Requests.Scopes.{find_scope, Keeps, find_scope-update}
use leptos_ntex.Requests.History.{
  Event, History, beginning, Step, opens, registers, clones, drops, collects, polls, closes, Reach,
  here, next,
}
use leptos_ntex.Requests.Access.{Held, IsTracked}
use leptos_ntex.Requests.Refinement.{Reach-IsTracked, held_of, found}
use leptos_ntex.Requests.Retirement.{
  IsRetired, opens-IsRetired, registers-IsRetired, clones-IsRetired, drops-IsRetired,
  collects-IsRetired, polls-IsRetired, closes-IsRetired,
}

Step-IsRetired :
    {h k : History}
    → Step h k
    → IsTracked h
    → IsRetired h.world.scopes h.world.handles
    → IsRetired k.world.scopes k.world.handles
unfolding collect_scope poll_scope drop_scope
Step-IsRetired {h} (opens thread w e) v b = opens-IsRetired h v b thread w e
Step-IsRetired {h} (registers thread native w t e) v b =
    registers-IsRetired h v b thread native w t e
Step-IsRetired {h} (clones ps qs t e) v b = clones-IsRetired h v b t
Step-IsRetired {h} (drops thread ps qs t e) v b =
    drops-IsRetired h v b thread t (held_of h v ps qs t e)
Step-IsRetired {h} (collects id) v b = collects-IsRetired h v b id
Step-IsRetired {h} (polls id) v b = polls-IsRetired h v b id
Step-IsRetired {h} (closes id) v b = closes-IsRetired h v b id

Reach-IsRetired : {h : History} → Reach beginning h → IsRetired h.world.scopes h.world.handles
unfolding find_scope
Reach-IsRetired here = λ s i n r found clean entry. absurd (cc)
Reach-IsRetired (next r s) = Step-IsRetired s (Reach-IsTracked r) (Reach-IsRetired r)

-- A live token has its entry.
entry_of :
    (n s i : ℕ) (scopes : List Registry) (es : List Event) (handles : List Token) (r : Registry)
    → All (Held n scopes es) handles
    → find_scope s scopes ≡ some r
    → is_live s i handles ≡ true
    → is_some (get i r.entries) ≡ true
unfolding is_live
entry_of n s i scopes es [] r held found l = absurd (cc)
entry_of n s i scopes es (t ∷ handles) r held found l =
    elim (Bool-cases (t.scope == s && t.id == i)) [
      | inr other ↦ entry_of n s i scopes es handles r held.1 found (ground (arith, other, l))
      | inl same ↦
          (let at : t.scope ≡ s = ground (arith, same) in
            let (_, _, (m, entry, _)) =
              held.0.1 r (subst (λ s. find_scope s scopes ≡ some r) (sym at) found) in
            ground (arith, entry, same, ==_iff t.id i))
    ]

-- In every reachable history an open scope that no retirement has marked keeps exactly the requests
-- that have a handle: a request is there if and only if some handle, on whatever thread, is.
pub is_some-get :
    {h : History}
    → Reach beginning h
    → (s i : ℕ) (r : Registry) → find_scope s h.world.scopes ≡ some r
    → r.dirty ≡ false
    → is_some (get i r.entries) ≡ is_live s i h.world.handles
is_some-get {h} reach s i r found clean = elim (Option-cases (get i r.entries)) [
  | inl gone ↦ ground (
    arith,
    gone,
    entry_of h.world.next_scope s i h.world.scopes h.events h.world.handles r
        (Reach-IsTracked reach).held found,
  )
  | inr (n, e) ↦ ground (arith, e, Reach-IsRetired reach s i n r found clean e)
]

-- After a poll of an open scope, in every reachable history, the scope keeps exactly the requests
-- that have a handle, also where handles went on other threads.
pub poll_scope-is_live :
    {h : History}
    → Reach beginning h
    → (s i : ℕ) (r : Registry) → find_scope s (poll_scope s h.world).scopes ≡ some r
    → is_some (get i r.entries) ≡ is_live s i h.world.handles
unfolding poll_scope collect_dirty collect
poll_scope-is_live {h} reach s i r found =
    is_some-get (next reach (polls s)) s i r found (clean r found)
  where
    keeps : Keeps (collect_dirty h.world.handles)
    keeps r = ground arith

    clean :
        (r : Registry)
        → find_scope s (update s (collect_dirty h.world.handles) h.world.scopes) ≡ some r
        → r.dirty ≡ false
    clean r found = elim (Option-cases (find_scope s h.world.scopes)) [
      | inl gone ↦ absurd (
          ground (
            arith,
            gone,
            found,
            ==_iff s s,
            find_scope-update s s (collect_dirty h.world.handles) h.world.scopes keeps,
          ))
      | inr (q, e) ↦
          (let is : r ≡ collect_dirty h.world.handles q = ground (
            arith,
            e,
            found,
            ==_iff s s,
            find_scope-update s s (collect_dirty h.world.handles) h.world.scopes keeps,
          ) in
            ap (λ (r : Registry). r.dirty) is ∙ (ground arith))
    ]
