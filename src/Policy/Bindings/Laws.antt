-- ===== src/Policy/Bindings/Laws.antt =====
-- What binding a policy guarantees: all runtimes or none, in one lock order, and never late.
use leptos_ntex.Base.{
  ℕ, ◌<◌, ◌≤◌, ◌==◌, if◌then◌else◌, ◌≡◌, refl, sym, ◌∙◌, ◌↔◌, ◌⊎◌, inl, inr, true, false, Bytes,
  bytes_eq, bytes_eq_iff, Option, none, some, List, [], ◌∷◌, ok, err, arith, contains, ◌||◌,
  Bool-cases, Result-cases, unwrap_or,
}
use leptos_ntex.Policy.Errors.{StaticPolicyError}
use leptos_ntex.Policy.Bindings.{
  StaticRoutePolicy, Binding, PolicyState, default_binding, get, update, check, check_binding, bind,
  start, policy_of, insert, sort, dedup_from, dedup, Store, check_all, bind_all, bind_one,
  configure_routes, conflicts,
}

pub get-update :
    (k j : Bytes) (f : Binding → Binding) (m : PolicyState)
    → get j (update k f m)
      ≡ (if bytes_eq k j then some (f (unwrap_or (get k m) default_binding)) else get j m)
unfolding get update
get-update k j f [] = refl
get-update k j f ((i, b) ∷ m) =
    ground (arith, get-update k j f m, bytes_eq_iff k j, bytes_eq_iff i k, bytes_eq_iff i j)

pub get-update_self :
    (k : Bytes) (f : Binding → Binding) (m : PolicyState)
    → get k (update k f m) ≡ some (f (unwrap_or (get k m) default_binding))
get-update_self k f m = rw get-update (rw ((bytes_eq_iff k k).1 refl))

check_binding_iff :
    (o : Option Binding) (p : StaticRoutePolicy)
    → (check_binding o p ≡ ok tt)
      ↔ ((b : Binding) → o ≡ some b → (b.started ≡ false) × (conflicts b.policy p ≡ false))
unfolding check_binding
check_binding_iff none p = (λ h b e. cc, λ h. refl)
check_binding_iff (some b) p = (λ h c e. ground arith, λ h. ground (arith, h b refl))

-- A binding is accepted exactly when generation into the root has not started and no other handle
-- governs it there.
pub check_iff :
    (m : PolicyState) (p : StaticRoutePolicy)
    → (check m p ≡ ok tt) ↔ (
        (b : Binding)
        → get p.root m ≡ some b
        → (b.started ≡ false) × (conflicts b.policy p ≡ false))
unfolding check
check_iff m p = check_binding_iff (get p.root m) p

policy_of-unwrap : (o : Option Binding) → (unwrap_or o default_binding).policy ≡ policy_of o
policy_of-unwrap none = refl
policy_of-unwrap (some b) = refl

-- Where the site root can be resolved: its start returns the policy that was bound before, after it
-- every policy for that root is refused as already started, and a second start returns the same
-- policy.
pub start_lem :
    (canonicalize : Bytes → Option Bytes) (m : PolicyState) (site root : Bytes)
    → canonicalize site ≡ some root
    → let (m', found) = start canonicalize m site in
      (found ≡ policy_of (get root m))
      × ((q : StaticRoutePolicy)
          → q.root ≡ root
          → check m' q ≡ err StaticPolicyError.already_started)
      × ((start canonicalize m' site).1 ≡ found)
unfolding start check check_binding
start_lem canonicalize m site root e =
    rw (e, start)
      (
        refl,
        λ q h. rw h (rw (get-update_self root _ m)),
        rw (e, start) (rw (get-update_self root _ m) (policy_of-unwrap (get root m))),
      )

-- Where the site root resolves to a policy's root: once the policy is bound, the start returns it.
pub start-bind :
    (canonicalize : Bytes → Option Bytes) (m : PolicyState) (site : Bytes) (p : StaticRoutePolicy)
    → canonicalize site ≡ some p.root
    → (start canonicalize (bind m p) site).1 ≡ some p
unfolding start bind
start-bind canonicalize m site p e = rw (e, start) (rw get-update_self)

-- Sorted and deduplicated, the runtimes are in strictly rising order.
abbrev pub Rising : List ℕ → Type 0
Rising [] = Unit {0}
Rising (a ∷ []) = Unit {0}
Rising (a ∷ b ∷ bs) = (a < b) × Rising (b ∷ bs)

abbrev Sorted : List ℕ → Type 0
Sorted [] = Unit {0}
Sorted (a ∷ []) = Unit {0}
Sorted (a ∷ b ∷ bs) = (a ≤ b) × Sorted (b ∷ bs)

insert-Sorted : (a : ℕ) (bs : List ℕ) → Sorted bs → Sorted (insert a bs)
unfolding insert
insert-Sorted a [] s = tt
insert-Sorted a (b ∷ []) s = ground arith
insert-Sorted a (b ∷ c ∷ cs) s = ground (arith, insert-Sorted a (c ∷ cs) s.1)

sort-Sorted : (bs : List ℕ) → Sorted (sort bs)
unfolding sort
sort-Sorted [] = tt
sort-Sorted (b ∷ bs) = insert-Sorted b (sort bs) (sort-Sorted bs)

dedup_from-Rising : (a : ℕ) (bs : List ℕ) → Sorted (a ∷ bs) → Rising (a ∷ dedup_from a bs)
unfolding dedup_from
dedup_from-Rising a [] s = tt
dedup_from-Rising a (b ∷ []) s = ground arith
dedup_from-Rising a (b ∷ c ∷ cs) s = elim (Bool-cases (b == a)) [
  | inl same ↦ rw same (dedup_from-Rising a (c ∷ cs) (ground arith, s.1.1))
  | inr other ↦ rw other (ground arith, dedup_from-Rising b (c ∷ cs) s.1)
]

dedup-Rising : (bs : List ℕ) → Sorted bs → Rising (dedup bs)
unfolding dedup
dedup-Rising [] s = tt
dedup-Rising (b ∷ bs) s = dedup_from-Rising b bs s

contains-insert : (w a : ℕ) (bs : List ℕ) → contains w (insert a bs) ≡ (a == w || contains w bs)
unfolding contains insert
contains-insert w a [] = refl
contains-insert w a (b ∷ bs) = ground (arith, contains-insert w a bs)

contains-sort : (w : ℕ) (bs : List ℕ) → contains w (sort bs) ≡ contains w bs
unfolding contains sort
contains-sort w [] = refl
contains-sort w (b ∷ bs) = ground (arith, contains-insert w b (sort bs), contains-sort w bs)

contains-dedup_from :
    (w a : ℕ) (bs : List ℕ) → (a == w || contains w (dedup_from a bs)) ≡ (a == w || contains w bs)
unfolding contains dedup_from
contains-dedup_from w a [] = refl
contains-dedup_from w a (b ∷ bs) =
    ground (arith, contains-dedup_from w a bs, contains-dedup_from w b bs)

contains-dedup : (w : ℕ) (bs : List ℕ) → contains w (dedup bs) ≡ contains w bs
unfolding contains dedup
contains-dedup w [] = refl
contains-dedup w (b ∷ bs) = contains-dedup_from w b bs

-- The runtimes are locked in strictly rising order of their addresses, and exactly those behind the
-- routes are locked.
pub dedup-sort-Rising :
    (routes : List ℕ)
    → Rising (dedup (sort routes))
      × ((r : ℕ) → contains r (dedup (sort routes)) ≡ contains r routes)
dedup-sort-Rising routes = (
  dedup-Rising (sort routes) (sort-Sorted routes),
  λ r. contains-dedup r (sort routes) ∙ contains-sort r routes,
)

bind_all_other :
    (s : Store) (p : StaticRoutePolicy) (rs : List ℕ) (q : ℕ)
    → contains q rs ≡ false
    → bind_all s p rs q ≡ s q
unfolding bind_all bind_one contains
bind_all_other s p [] q h = refl
bind_all_other s p (r ∷ rs) q h = ground (arith, bind_all_other (bind_one s p r) p rs q)

Rising-absent : (r : ℕ) (rs : List ℕ) → Rising (r ∷ rs) → contains r rs ≡ false
unfolding contains
Rising-absent r [] h = refl
Rising-absent r (b ∷ []) h = ground arith
Rising-absent r (b ∷ c ∷ cs) h = ground (arith, Rising-absent r (c ∷ cs) (omega arith, h.1.1))

Rising-tail : (r : ℕ) (rs : List ℕ) → Rising (r ∷ rs) → Rising rs
Rising-tail r [] h = tt
Rising-tail r (b ∷ bs) h = h.1

bind_all_lem :
    (s : Store) (p : StaticRoutePolicy) (rs : List ℕ) (q : ℕ)
    → Rising rs
    → bind_all s p rs q ≡ (if contains q rs then bind (s q) p else s q)
unfolding bind_all bind_one contains
bind_all_lem s p [] q h = refl
bind_all_lem s p (r ∷ rs) q h =
    ground (arith, bind_all_lem (bind_one s p r) p rs q (Rising-tail r rs h), Rising-absent r rs h)

check_all_cases :
    (s : Store) (p : StaticRoutePolicy) (rs : List ℕ)
    → ((check_all s p rs ≡ ok tt) × ((r : ℕ) → contains r rs ≡ true → check (s r) p ≡ ok tt))
      ⊎ ((e : StaticPolicyError) × (r : ℕ) × (check_all s p rs ≡ err e)
          × (contains r rs ≡ true)
          × (check (s r) p ≡ err e))
unfolding check_all contains
check_all_cases s p [] = inl (refl, λ r h. cc)
check_all_cases s p (r ∷ rs) = elim (Result-cases (check (s r) p)) [
  | inl (_, e) ↦ elim (check_all_cases s p rs) [
    | inl (rest, each) ↦ inl (rw (e, check_all) rest, λ r' m. ground (arith, each r'))
    | inr (e', r', rest, m, refused) ↦
        inr (e', r', rw (e, check_all) rest, ground (arith, m), refused)
  ]
  | inr (e', e) ↦ inr (e', r, rw (e, check_all), ground arith, e)
]

-- Binding a policy on the runtimes behind some routes is all or nothing: either one of the
-- runtimes refuses it, the call fails with that refusal and no runtime changes, or all accept it
-- and exactly those runtimes are bound.
pub configure_routes_atomic :
    (s : Store) (p : StaticRoutePolicy) (routes : List ℕ)
    → (((r : ℕ) → contains r routes ≡ true → check (s r) p ≡ ok tt)
        × ((configure_routes s p routes).1 ≡ ok tt)
        × ((q : ℕ)
            → (configure_routes s p routes).0 q
              ≡ (if contains q routes then bind (s q) p else s q)))
      ⊎ ((e : StaticPolicyError) × (r : ℕ) × (contains r routes ≡ true)
          × (check (s r) p ≡ err e)
          × (configure_routes s p routes ≡ (s, err e)))
unfolding configure_routes
configure_routes_atomic s p routes =
    let (rising, same) = dedup-sort-Rising routes in
    elim (check_all_cases s p (dedup (sort routes))) [
      | inl (e, each) ↦ inl (
        λ r m. each r (same r ∙ m),
        rw (e, configure_routes),
        λ q.
            rw (e, configure_routes) (rw (bind_all_lem s p (dedup (sort routes)) q rising, same q)),
      )
      | inr (e', r, e, m, refused) ↦
          inr (e', r, sym (same r) ∙ m, refused, rw (e, configure_routes))
    ]
