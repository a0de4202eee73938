-- ===== src/Tests/Policy.antt =====
-- src/static_routes/policy.rs on concrete inputs.
use leptos_ntex.Base.{
  ℕ, ◌≡◌, refl, ◌⊎◌, true, Bytes, codes, bytes_eq, some, List, [], ◌∷◌, checked_add, ok, err, All,
  contains, if◌then◌else◌,
}
use leptos_ntex.Policy.Errors.{WorkResource, StaticPolicyError, no_work_limits, with_renders}
use leptos_ntex.Policy.Pool.{
  PermitPool, Permit, PermitFuture, new_pool, error, over_limit, acquire, retain, drop_permit,
  new_future, register, poll,
}
use leptos_ntex.Policy.Pool.Laws.{total}
use leptos_ntex.Policy.Pool.System.{
  Admission, initial, alive, Step, acquires, waits, polls, Reach, here, next, IsAccounted,
  Reach-IsAccounted,
}
use leptos_ntex.Policy.Pool.Wakeups.{drop_permit-wakes-All}
use leptos_ntex.Policy.Bindings.{
  StaticRoutePolicy, get, update, conflicts, check_binding, check, bind, sort, insert, dedup,
  dedup_from, Store, configure_routes,
}
use leptos_ntex.Policy.Bindings.Laws.{configure_routes_atomic}

abbrev full : StaticPolicyError
full = StaticPolicyError.work_capacity WorkResource.renders 1

limits_test : (with_renders no_work_limits 1).renders ≡ some 1
unfolding with_renders no_work_limits
limits_test = refl

-- A pool for one permit, and the pool with that permit taken.
abbrev pool : PermitPool
pool = record { resource = WorkResource.renders; limit = some 1; used = 0; pending = [] }

abbrev taken : PermitPool
taken = record pool { used = 1 }

abbrev one : Permit
one = record { amount = 1 }

acquire_test : acquire pool 1 ≡ ok (taken, one)
unfolding acquire error over_limit checked_add
acquire_test = refl

acquire-full_test : acquire taken 1 ≡ err full
unfolding acquire error over_limit checked_add
acquire-full_test = refl

-- The permit is taken, a future is made, and its poll waits.
abbrev held : Admission
held = record { pool = taken; permits = one ∷ []; futures = [] }

abbrev started : Admission
started = record held { futures = new_future 5 ∷ [] }

abbrev registered : PermitFuture
registered = record { wake = 5; registered = true }

abbrev waiting : Admission
waiting = record {
  pool = record taken { pending = 5 ∷ [] };
  permits = one ∷ [];
  futures = registered ∷ [];
}

taking : Step (initial WorkResource.renders (some 1)) held
unfolding initial new_pool
taking = acquires 1 taken one acquire_test

making : Step held started
unfolding alive contains
making = waits 5 refl

polling : Step started waiting
unfolding alive contains new_future poll register retain acquire error over_limit checked_add
polling = polls [] [] (new_future 5) registered (record taken { pending = 5 ∷ [] }) refl refl

history : Reach (initial WorkResource.renders (some 1)) waiting
history = next (next (next here taking) making) polling

Reach-IsAccounted_example : IsAccounted waiting
Reach-IsAccounted_example = Reach-IsAccounted WorkResource.renders (some 1) history

drop_permit-wakes-All_example :
    (q : PermitPool) × (woken : List ℕ) × (drop_permit (alive waiting.futures) waiting.pool one
      ≡ some (q, woken))
    × (q.used ≡ 0)
    × All
        (λ (f : PermitFuture). f.registered ≡ true → contains f.wake woken ≡ true)
        (registered ∷ [])
unfolding total
drop_permit-wakes-All_example =
    drop_permit-wakes-All WorkResource.renders (some 1) [] [] one history refl

abbrev root : Bytes
root = codes "/srv/site"

abbrev policy : StaticRoutePolicy
policy = record { handle = 10; root = root }

abbrev another : StaticRoutePolicy
another = record { handle = 11; root = root }

conflict_test : check (bind [] policy) another ≡ err StaticPolicyError.conflicting_policy
unfolding check check_binding bind update get conflicts bytes_eq
conflict_test = refl

sort_test : dedup (sort (7 ∷ 3 ∷ 7 ∷ [])) ≡ 3 ∷ 7 ∷ []
unfolding dedup dedup_from sort insert
sort_test = refl

-- Runtime 3 is bound to another policy, and no other runtime is bound.
abbrev store : Store
store r = if◌then◌else◌ (contains r (3 ∷ [])) (bind [] another) []

abbrev both : List ℕ
both = 7 ∷ 3 ∷ []

configure_routes_atomic_example :
    (((r : ℕ) → contains r both ≡ true → check (store r) policy ≡ ok tt)
      × ((configure_routes store policy both).1 ≡ ok tt)
      × ((q : ℕ)
          → (configure_routes store policy both).0 q
            ≡ (if contains q both then bind (store q) policy else store q)))
    ⊎ ((e : StaticPolicyError) × (r : ℕ) × (contains r both ≡ true)
        × (check (store r) policy ≡ err e)
        × (configure_routes store policy both ≡ (store, err e)))
configure_routes_atomic_example = configure_routes_atomic store policy both
