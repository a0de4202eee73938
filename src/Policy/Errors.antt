-- ===== src/Policy/Errors.antt =====
-- src/static_routes/policy.rs: the work limits, and the errors of a static policy.
use leptos_ntex.Base.{ℕ, Bool, true, false, ◌≡◌, ◌↔◌, ◌⊎◌, Bytes, Option, none, some, arith}
use leptos_ntex.Storage.Errors.{StaticStorageError, is_capacity}

pub record StaticWorkLimits : Type 0 where
  pub renders : Option ℕ
  pub subscriptions : Option ℕ
  pub waiters : Option ℕ

unfoldable pub no_work_limits : StaticWorkLimits
no_work_limits = record { renders = none; subscriptions = none; waiters = none }

unfoldable pub with_renders : StaticWorkLimits → ℕ → StaticWorkLimits
with_renders l maximum = record l { renders = some maximum }

unfoldable pub with_subscriptions : StaticWorkLimits → ℕ → StaticWorkLimits
with_subscriptions l maximum = record l { subscriptions = some maximum }

unfoldable pub with_waiters : StaticWorkLimits → ℕ → StaticWorkLimits
with_waiters l maximum = record l { waiters = some maximum }

-- The three permit pools, which the source names by a text.
pub data WorkResource : Type 0 where
  renders subscriptions waiters : WorkResource

pub data StaticPolicyError : Type 0 where
  storage : StaticStorageError → StaticPolicyError
  work_capacity : (resource : WorkResource) (limit : ℕ) → StaticPolicyError
  already_started conflicting_policy : StaticPolicyError
  render : Bytes → StaticPolicyError

-- Whether a refusal clears on its own (503), or no retry can resolve it (500).
unfoldable pub is_admission : StaticPolicyError → Bool
unfolding is_capacity
is_admission (StaticPolicyError.storage e) = is_capacity e
is_admission (StaticPolicyError.work_capacity r l) = true
is_admission _ = false

-- A refusal is transient exactly when it is an exhausted permit pool, a busy storage root, or an
-- exceeded storage bound.
pub is_admission_iff :
    (e : StaticPolicyError)
    → (is_admission e ≡ true) ↔ (
        ((r : WorkResource) × (l : ℕ) × (e ≡ StaticPolicyError.work_capacity r l))
        ⊎ (e ≡ StaticPolicyError.storage StaticStorageError.busy)
        ⊎ ((r : _) × (l : ℕ) × (n : ℕ) × (e
              ≡ StaticPolicyError.storage (StaticStorageError.limit_exceeded r l n))))
unfolding is_admission
is_admission_iff e = ground arith
