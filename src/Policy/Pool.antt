-- ===== src/Policy/Pool.antt =====
-- src/static_routes/policy.rs: the permit pool, its permits, and the future that waits for one.
-- A waker handle (`Arc<AtomicWaker>`) is a number; `alive` says which handles are still owned.
pub mod Laws
pub mod System
pub mod Wakeups
use leptos_ntex.Base.{
  ℕ, ◌+◌, ◌-◌, ◌==◌, ltb, leb, if◌then◌else◌, Bool, true, false, not, Bytes, Option, none, some,
  List, [], ◌∷◌, ◌++◌, Result, ok, err, ◌>>=◌, ok_or, checked_add, checked_sub, u64_max, unwrap_or,
  ensure, ◌>>◌,
}
use leptos_ntex.Policy.Errors.{WorkResource, StaticPolicyError}

pub record PermitPool : Type 0 where
  pub resource : WorkResource
  pub limit : Option ℕ
  pub used : ℕ
  pub pending : List ℕ

pub record Permit : Type 0 where
  pub amount : ℕ

pub record PermitFuture : Type 0 where
  pub wake : ℕ
  pub registered : Bool

unfoldable pub new_pool : WorkResource → Option ℕ → PermitPool
new_pool r l = record { resource = r; limit = l; used = 0; pending = [] }

unfoldable pub error : PermitPool → StaticPolicyError
error p = StaticPolicyError.work_capacity p.resource (unwrap_or p.limit u64_max)

-- `self.limit.is_some_and(|limit| next > limit)`.
unfoldable pub over_limit : Option ℕ → ℕ → Bool
over_limit none next = false
over_limit (some limit) next = ltb limit next

unfoldable pub acquire : PermitPool → ℕ → Result StaticPolicyError (PermitPool × Permit)
unfolding error over_limit checked_add
acquire p amount = do
  next ← ok_or (checked_add p.used amount) (error p)
  ensure (not (over_limit p.limit next)) (error p)
  ok (record p { used = next }, record { amount = amount })

-- `none` is the panic of the assertion.
unfoldable pub split_one : Permit → Option (Permit × Permit)
split_one p =
    if ltb 0 p.amount then some (record { amount = p.amount - 1 }, record { amount = 1 }) else none

-- `Vec::retain`.
unfoldable pub retain : (ℕ → Bool) → List ℕ → List ℕ
retain keep [] = []
retain keep (w ∷ ws) = if keep w then w ∷ retain keep ws else retain keep ws

-- `Drop for Permit`: the pool, and the handles that are woken. `none` is the underflow of
-- `state.used -= self.amount`.
unfoldable pub drop_permit : (ℕ → Bool) → PermitPool → Permit → Option (PermitPool × List ℕ)
unfolding checked_sub retain
drop_permit alive p permit = elim (checked_sub p.used permit.amount) [
  | none ↦ none
  | some used ↦
      some (record p { used = used; pending = retain alive p.pending }, retain alive p.pending)
]

unfoldable pub new_future : ℕ → PermitFuture
new_future wake = record { wake = wake; registered = false }

-- The registration that `poll` makes once.
unfoldable pub register : (ℕ → Bool) → PermitPool → PermitFuture → PermitPool
unfolding retain
register alive p f =
    if f.registered then p else record p { pending = retain alive p.pending ++ f.wake ∷ [] }

-- `Future for PermitFuture`: the pool and the future afterwards, and the permit if it is ready.
unfoldable pub poll :
    (ℕ → Bool) → PermitPool → PermitFuture → PermitPool × PermitFuture × Option Permit
unfolding register
poll alive p f =
    let q = register alive p f in
    let f' : PermitFuture = record f { registered = true } in
    elim (acquire q 1) [ ok (q', permit) ↦ (q', f', some permit) | err e ↦ (q, f', none) ]

-- `Drop for PermitFuture`.
unfoldable pub drop_future : PermitPool → PermitFuture → PermitPool
unfolding retain
drop_future p f = record p { pending = retain (λ w. not (w == f.wake)) p.pending }
