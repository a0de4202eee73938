-- ===== src/Policy/Bindings.antt =====
-- src/static_routes/policy.rs: which policy governs a site root on which runtime. A policy handle
-- and a runtime are known by the address of their allocation (`Arc::ptr_eq`, `Arc::as_ptr`); the
-- runtimes' mutexes are one store, a function from runtimes to their states.
pub mod Laws
use leptos_ntex.Base.{
  ℕ, ◌==◌, leb, if◌then◌else◌, Bool, true, false, not, Bytes, bytes_eq, Option, none, some, List,
  [], ◌∷◌, Result, ok, err, ◌>>=◌, ◌>>◌, ensure,
}
use leptos_ntex.Policy.Errors.{StaticPolicyError}

-- A policy handle, and the canonical root of its storage.
pub record StaticRoutePolicy : Type 0 where
  pub handle : ℕ
  pub root : Bytes

pub record Binding : Type 0 where
  pub policy : Option StaticRoutePolicy
  pub started : Bool

-- `HashMap<PathBuf, Binding>`, with one entry for each root.
abbrev pub PolicyState : Type 0
PolicyState = List (Bytes × Binding)

abbrev pub default_binding : Binding
default_binding = record { policy = none; started = false }

unfoldable pub get : Bytes → PolicyState → Option Binding
unfolding bytes_eq
get k [] = none
get k ((j, b) ∷ m) = if bytes_eq j k then some b else get k m

-- `entry(k).or_default()`, then a change of the entry.
unfoldable pub update : Bytes → (Binding → Binding) → PolicyState → PolicyState
unfolding bytes_eq
update k f [] = (k, f default_binding) ∷ []
update k f ((j, b) ∷ m) = if bytes_eq j k then (j, f b) ∷ m else (j, b) ∷ update k f m

-- `is_some_and(|current| !Arc::ptr_eq(..))`.
unfoldable pub conflicts : Option StaticRoutePolicy → StaticRoutePolicy → Bool
conflicts none p = false
conflicts (some current) p = not (current.handle == p.handle)

unfoldable pub check_binding :
    Option Binding → StaticRoutePolicy → Result StaticPolicyError (Unit {0})
check_binding none p = ok tt
check_binding (some b) p = do
  ensure (not b.started) StaticPolicyError.already_started
  ensure (not (conflicts b.policy p)) StaticPolicyError.conflicting_policy

unfoldable pub check : PolicyState → StaticRoutePolicy → Result StaticPolicyError (Unit {0})
check m p = check_binding (get p.root m) p

unfoldable pub bind : PolicyState → StaticRoutePolicy → PolicyState
bind m p = update p.root (λ b. record b { policy = some p }) m

-- The policy of an entry, if there is one.
abbrev pub policy_of : Option Binding → Option StaticRoutePolicy
policy_of none = none
policy_of (some b) = b.policy

abbrev mark_started : Binding → Binding
mark_started b = record b { started = true }

-- `canonicalize` is the filesystem's; it fails where the root cannot be resolved.
unfoldable pub start :
    (Bytes → Option Bytes) → PolicyState → Bytes → PolicyState × Option StaticRoutePolicy
start canonicalize m site_root = elim (canonicalize site_root) [
  | none ↦ (m, none)
  | some root ↦ (update root mark_started m, policy_of (get root m))
]

-- `sort_unstable_by_key` and `dedup_by_key`, on addresses.
unfoldable pub insert : ℕ → List ℕ → List ℕ
insert a [] = a ∷ []
insert a (b ∷ bs) = if leb a b then a ∷ b ∷ bs else b ∷ insert a bs

unfoldable pub sort : List ℕ → List ℕ
unfolding insert
sort [] = []
sort (a ∷ as') = insert a (sort as')

unfoldable pub dedup_from : ℕ → List ℕ → List ℕ
dedup_from a [] = []
dedup_from a (b ∷ bs) = if b == a then dedup_from a bs else b ∷ dedup_from b bs

unfoldable pub dedup : List ℕ → List ℕ
unfolding dedup_from
dedup [] = []
dedup (a ∷ as') = a ∷ dedup_from a as'

abbrev pub Store : Type 0
Store = ℕ → PolicyState

unfoldable pub check_all : Store → StaticRoutePolicy → List ℕ → Result StaticPolicyError (Unit {0})
check_all s p [] = ok tt
check_all s p (r ∷ rs) = let rest = check_all s p rs in check (s r) p >> rest

unfoldable pub bind_one : Store → StaticRoutePolicy → ℕ → Store
bind_one s p r q = if r == q then bind (s q) p else s q

unfoldable pub bind_all : Store → StaticRoutePolicy → List ℕ → Store
bind_all s p [] = s
bind_all s p (r ∷ rs) = bind_all (bind_one s p r) p rs

-- The store afterwards is part of the answer, also when the call is refused.
unfoldable pub configure_routes :
    Store → StaticRoutePolicy → List ℕ → Store × Result StaticPolicyError (Unit {0})
unfolding check_all bind_all bind_one sort dedup
configure_routes s p routes =
    let runtimes = dedup (sort routes) in
    elim (check_all s p runtimes) [ ok _ ↦ (bind_all s p runtimes, ok tt) | err e ↦ (s, err e) ]

-- `StaticRoutePolicy::bind`, on one runtime.
unfoldable pub bind_runtime :
    PolicyState → StaticRoutePolicy → PolicyState × Result StaticPolicyError (Unit {0})
bind_runtime m p = elim (check m p) [ ok _ ↦ (bind m p, ok tt) | err e ↦ (m, err e) ]
