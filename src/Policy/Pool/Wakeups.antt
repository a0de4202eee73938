-- ===== src/Policy/Pool/Wakeups.antt =====
-- No wakeup is lost: a dropped permit wakes every future that waits.
use leptos_ntex.Base.{
  ℕ, ◌+◌, ◌-◌, ◌≤◌, ◌==◌, ◌≡◌, refl, sym, ap, ◌∙◌, Bool, true, false, not, Option, some, List, [],
  ◌∷◌, ◌++◌, arith, All, All-map, Bool-cases, contains, contains-append, subst, inl, inr,
}
use mathlib.Core.List.{map-append}
use leptos_ntex.Policy.Errors.{WorkResource}
use leptos_ntex.Policy.Pool.{
  PermitPool, Permit, PermitFuture, new_pool, drop_permit, new_future, register, retain,
  drop_future,
}
use leptos_ntex.Policy.Pool.Laws.{
  acquire_iff, contains-retain, total, total-remove, poll-waits, poll-obtains, drop_permit_iff,
}
use leptos_ntex.Policy.Pool.System.{
  Admission, Step, acquires, splits, drops, waits, registers, polls, obtains, cancels, Reach, here,
  next, initial, alive, handles, Reach-IsAccounted,
}

-- A future that has registered is among the pool's pending handles.
abbrev pub Watched : List ℕ → PermitFuture → Type 0
Watched pending f = f.registered ≡ true → contains f.wake pending ≡ true

abbrev Distinct : List ℕ → Type 0
Distinct [] = Unit {0}
Distinct (w ∷ ws) = (contains w ws ≡ false) × Distinct ws

Distinct-remove :
    (ws vs : List ℕ) (w : ℕ)
    → Distinct (ws ++ w ∷ vs)
    → Distinct (ws ++ vs) × (contains w (ws ++ vs) ≡ false)
unfolding contains
Distinct-remove [] vs w d = (d.1, d.0)
Distinct-remove (u ∷ ws) vs w d =
    ground
      (arith, Distinct-remove ws vs w d.1, contains-append u ws (w ∷ vs), contains-append u ws vs)

record IsWatched (a : Admission) : Type 0 where
  watched : All (Watched a.pool.pending) a.futures
  distinct : Distinct (handles a.futures)

-- Waiters stay watched when dead handles are swept from the pool.
Watched-retain :
    (fs all : List PermitFuture) (pending : List ℕ)
    → ((w : ℕ) → contains w (handles fs) ≡ true → alive all w ≡ true)
    → All (Watched pending) fs
    → All (Watched (retain (alive all) pending)) fs
unfolding contains
Watched-retain [] all pending live h = tt
Watched-retain (f ∷ fs) all pending live h = (
  λ r. ground (arith, contains-retain f.wake (alive all) pending, h.0 r, live f.wake),
  Watched-retain fs all pending (λ w m. live w (ground (arith, m))) h.1,
)

-- They stay watched when the handle of another future is taken out.
Watched-drop :
    (fs : List PermitFuture) (pending : List ℕ) (w : ℕ)
    → contains w (handles fs) ≡ false
    → All (Watched pending) fs
    → All (Watched (retain (λ v. not (v == w)) pending)) fs
unfolding contains
Watched-drop [] pending w e h = tt
Watched-drop (f ∷ fs) pending w e h = (
  λ r. ground (arith, contains-retain f.wake (λ v. not (v == w)) pending, h.0 r),
  Watched-drop fs pending w (ground arith) h.1,
)

Watched-append :
    (pending more : List ℕ) (fs : List PermitFuture)
    → All (Watched pending) fs
    → All (Watched (pending ++ more)) fs
Watched-append pending more fs =
    All-map (Watched pending) (Watched (pending ++ more)) (λ f h r. rw contains-append (rw (h r)))
      fs

-- Registering a future keeps every waiter watched.
register-Watched :
    (p : PermitPool) (f : PermitFuture) (all : List PermitFuture)
    → All (Watched p.pending) all
    → All (Watched (register (alive all) p f).pending) all
unfolding register alive
register-Watched p f all h = elim (Bool-cases f.registered) [
  | inl e ↦ rw e h
  | inr e ↦ rw e (
      Watched-append (retain (alive all) p.pending) (f.wake ∷ []) all
        (Watched-retain all all p.pending (λ w m. m) h))
]

register-contains :
    (p : PermitPool) (f : PermitFuture) (live : ℕ → Bool)
    → Watched p.pending f
    → contains f.wake (register live p f).pending ≡ true
unfolding register contains
register-contains p f live h = elim (Bool-cases f.registered) [
  | inl e ↦ rw e (h e)
  | inr e ↦ rw e (ground (arith, contains-append f.wake (retain live p.pending) (f.wake ∷ [])))
]

Watched-replace :
    (pending : List ℕ) (fs gs : List PermitFuture) (f f' : PermitFuture)
    → f'.wake ≡ f.wake
    → contains f.wake pending ≡ true
    → All (Watched pending) (fs ++ f ∷ gs)
    → All (Watched pending) (fs ++ f' ∷ gs)
Watched-replace pending [] gs f f' e c h = (λ _. rw e c, h.1)
Watched-replace pending (g ∷ fs) gs f f' e c h = (h.0, Watched-replace pending fs gs f f' e c h.1)

Watched-remove :
    (pending : List ℕ) (fs gs : List PermitFuture) (f : PermitFuture)
    → All (Watched pending) (fs ++ f ∷ gs)
    → Watched pending f × All (Watched pending) (fs ++ gs)
Watched-remove pending [] gs f h = h
Watched-remove pending (g ∷ fs) gs f h =
    let (first, rest) = Watched-remove pending fs gs f h.1 in (first, (h.0, rest))

handles-replace :
    (fs gs : List PermitFuture) (f f' : PermitFuture)
    → f'.wake ≡ f.wake
    → handles (fs ++ f' ∷ gs) ≡ handles (fs ++ f ∷ gs)
handles-replace [] gs f f' e = rw e
handles-replace (g ∷ fs) gs f f' e = ap (◌∷◌ g.wake) (handles-replace fs gs f f' e)

-- A poll, whatever it returns.
poll-IsWatched :
    (p q : PermitPool) (all fs gs : List PermitFuture) (f f' : PermitFuture) (ps : List Permit)
    → all ≡ fs ++ f ∷ gs
    → All (Watched p.pending) all
    → Distinct (handles all)
    → q.pending ≡ (register (alive all) p f).pending
    → f'.wake ≡ f.wake
    → IsWatched (record { pool = q; permits = ps; futures = fs ++ f' ∷ gs })
poll-IsWatched p q all fs gs f f' ps e watched distinct same wake = record {
  watched = rw same (
      Watched-replace _ fs gs f f' wake
        (register-contains p f (alive all)
          (Watched-remove p.pending fs gs f (subst (All (Watched p.pending)) e watched)).0)
        (subst (All (Watched (register (alive all) p f).pending)) e
          (register-Watched p f all watched)));
  distinct =
      subst Distinct (sym (handles-replace fs gs f f' wake))
        (subst (λ fs. Distinct (handles fs)) e distinct);
}

Step-IsWatched : {a b : Admission} → Step a b → IsWatched a → IsWatched b
unfolding alive new_future drop_future
Step-IsWatched {a} (acquires n q permit e) v = record {
  watched = rw (((acquire_iff a.pool n).0 q permit).0 e).2 v.watched;
  distinct = v.distinct;
}
Step-IsWatched (splits ps qs p q r e s) v = record { watched = v.watched; distinct = v.distinct }
Step-IsWatched {a} (drops ps qs p q woken e d) v = record {
  watched =
      rw (((drop_permit_iff (alive a.futures) a.pool p).1 q woken).0 d).1
        (Watched-retain a.futures a.futures a.pool.pending (λ w m. m) v.watched);
  distinct = v.distinct;
}
Step-IsWatched (waits w h) v = record { watched = (λ r. cc, v.watched); distinct = (h, v.distinct) }
Step-IsWatched {a} (registers fs gs f e) v =
    poll-IsWatched a.pool (register (alive a.futures) a.pool f) a.futures fs gs f
      (record f { registered = true }) a.permits e v.watched v.distinct refl refl
Step-IsWatched {a} (polls fs gs f f' q e p) v =
    let (same, wake) = poll-waits (alive a.futures) a.pool q f f' p in
    poll-IsWatched a.pool q a.futures fs gs f f' a.permits e v.watched v.distinct
      (ap (λ r. r.pending) same) wake
Step-IsWatched {a} (obtains fs gs f f' q permit e p) v =
    let (got, wake) = poll-obtains (alive a.futures) a.pool q f f' permit p in
    poll-IsWatched a.pool q a.futures fs gs f f' (permit ∷ a.permits) e v.watched v.distinct
      (ap (λ r. r.pending) (((acquire_iff _ 1).0 q permit).0 got).2) wake
Step-IsWatched {a} (cancels fs gs f e) v =
    let (distinct, absent) =
      Distinct-remove (handles fs) (handles gs) f.wake
        (subst Distinct (ap handles e ∙ map-append _ _ _) v.distinct) in
    record {
      watched =
          Watched-drop (fs ++ gs) a.pool.pending f.wake (rw (map-append) absent)
            (Watched-remove a.pool.pending fs gs f
              (subst (All (Watched a.pool.pending)) e v.watched)).1;
      distinct = rw (map-append) distinct;
    }

Reach-IsWatched :
    (r : WorkResource) (l : Option ℕ) {a : Admission} → Reach (initial r l) a → IsWatched a
unfolding initial new_pool
Reach-IsWatched r l here = record { watched = tt; distinct = tt }
Reach-IsWatched r l (next h s) = Step-IsWatched s (Reach-IsWatched r l h)

-- In every reachable state a held permit can be dropped without underflow, and the drop wakes
-- every future that has registered and still waits.
pub drop_permit-wakes-All :
    (r : WorkResource) (l : Option ℕ) {a : Admission} (ps qs : List Permit) (p : Permit)
    → Reach (initial r l) a
    → a.permits ≡ ps ++ p ∷ qs
    → (q : PermitPool) × (woken : List ℕ) × (drop_permit (alive a.futures) a.pool p
        ≡ some (q, woken))
      × (q.used ≡ total (ps ++ qs))
      × All (λ f. f.registered ≡ true → contains f.wake woken ≡ true) a.futures
unfolding alive
drop_permit-wakes-All r l {a} ps qs p h e = (
  record a.pool {
    used = a.pool.used - p.amount;
    pending = retain (alive a.futures) a.pool.pending;
  },
  retain (alive a.futures) a.pool.pending,
  ((drop_permit_iff (alive a.futures) a.pool p).1 _ _).1 (enough, refl, refl),
  (omega (arith, counted)),
  Watched-retain a.futures a.futures a.pool.pending (λ w m. m) (Reach-IsWatched r l h).watched,
)
  where
    counted : a.pool.used ≡ p.amount + total (ps ++ qs)
    counted = (Reach-IsAccounted r l h).exact ∙ ap total e ∙ total-remove ps qs p

    enough : p.amount ≤ a.pool.used
    enough = omega (arith, counted)
