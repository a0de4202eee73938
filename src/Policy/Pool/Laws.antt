-- ===== src/Policy/Pool/Laws.antt =====
-- The operations of the permit pool, one by one.
use leptos_ntex.Base.{
  ◌-◌, ℕ, ◌+◌, ◌≤◌, ◌<◌, ◌≡◌, refl, ◌↔◌, ◌⊎◌, Bool, false, ◌&&◌, Option, none, some, List, [], ◌∷◌,
  ◌++◌, ok, err, arith, contains, u64_max,
}
use leptos_ntex.Policy.Errors.{StaticPolicyError}
use leptos_ntex.Policy.Pool.{
  PermitPool, Permit, acquire, over_limit, error, drop_permit, retain, split_one, poll, register,
  PermitFuture,
}

-- A number of permits that a configured limit allows.
abbrev pub Fits : Option ℕ → ℕ → Type 0
Fits none n = Unit {0}
Fits (some limit) n = n ≤ limit

over_limit-Fits : (l : Option ℕ) (n : ℕ) → (over_limit l n ≡ false) ↔ Fits l n
unfolding over_limit
over_limit-Fits none n = ground arith
over_limit-Fits (some l) n = ground arith

-- A request for permits is granted exactly when the new total is a `u64` within the limit; then
-- the total is the only change of the pool and the permit carries the amount. Every refusal is
-- the pool's own capacity error.
pub acquire_iff :
    (p : PermitPool) (n : ℕ)
    → ((q : PermitPool) (permit : Permit)
        → (acquire p n ≡ ok (q, permit)) ↔ (
            (p.used + n ≤ u64_max)
            × Fits p.limit (p.used + n)
            × (q ≡ record p { used = p.used + n })
            × (permit ≡ record { amount = n })))
      × ((e : StaticPolicyError) → acquire p n ≡ err e → e ≡ error p)
unfolding acquire
acquire_iff p n =
    (λ q permit. ground (arith, over_limit-Fits p.limit (p.used + n)), λ e h. ground arith)

pub contains-retain :
    (w : ℕ) (keep : ℕ → Bool) (ws : List ℕ)
    → contains w (retain keep ws) ≡ (contains w ws && keep w)
unfolding contains retain
contains-retain w keep [] = refl
contains-retain w keep (v ∷ ws) = ground (arith, contains-retain w keep ws)

-- The permits that are held, together.
unfoldable pub total : List Permit → ℕ
total [] = 0
total (p ∷ ps) = p.amount + total ps

pub total-append : (ps qs : List Permit) → total (ps ++ qs) ≡ total ps + total qs
unfolding total
total-append [] qs = omega arith
total-append (p ∷ ps) qs = omega (arith, total-append ps qs)

-- The total of a list from which one permit is taken.
pub total-remove :
    (ps qs : List Permit) (p : Permit) → total (ps ++ p ∷ qs) ≡ p.amount + total (ps ++ qs)
unfolding total
total-remove ps qs p = omega (arith, total-append ps (p ∷ qs), total-append ps qs)

-- Splitting takes one permit out of a held amount and loses none; it panics on an empty one only.
pub split_one_lem :
    (p : Permit)
    → ((p.amount ≡ 0) × (split_one p ≡ none))
      ⊎ ((q : Permit) × (r : Permit) × (split_one p ≡ some (q, r))
          × (q.amount + r.amount ≡ p.amount)
          × (r.amount ≡ 1))
unfolding split_one
split_one_lem p = ground arith

pub Fits-mono : (l : Option ℕ) (m n : ℕ) → m ≤ n → Fits l n → Fits l m
Fits-mono none m n h k = tt
Fits-mono (some l) m n h k = omega arith

-- A poll that obtains a permit has acquired one; a poll that waits has only registered itself.
pub poll-obtains :
    (a : ℕ → Bool) (p q : PermitPool) (f f' : PermitFuture) (permit : Permit)
    → poll a p f ≡ (q, f', some permit)
    → (acquire (register a p f) 1 ≡ ok (q, permit)) × (f'.wake ≡ f.wake)
unfolding poll
poll-obtains a p q f f' permit h = ground arith

pub poll-waits :
    (a : ℕ → Bool) (p q : PermitPool) (f f' : PermitFuture)
    → poll a p f ≡ (q, f', none)
    → (q ≡ register a p f) × (f'.wake ≡ f.wake)
unfolding poll
poll-waits a p q f f' h = ground arith

pub register-used :
    (a : ℕ → Bool) (p : PermitPool) (f : PermitFuture)
    → ((register a p f).used ≡ p.used) × ((register a p f).limit ≡ p.limit)
unfolding register
register-used a p f = ground arith

-- Dropping a permit underflows exactly if the pool counts less than its amount; otherwise it gives
-- back the amount, keeps the live waiters' handles and wakes them.
pub drop_permit_iff :
    (a : ℕ → Bool) (p : PermitPool) (permit : Permit)
    → ((drop_permit a p permit ≡ none) ↔ (p.used < permit.amount))
      × ((q : PermitPool) (woken : List ℕ)
          → (drop_permit a p permit ≡ some (q, woken)) ↔ (
              (permit.amount ≤ p.used)
              × (q ≡ record p { used = p.used - permit.amount; pending = retain a p.pending })
              × (woken ≡ retain a p.pending)))
unfolding drop_permit
drop_permit_iff a p permit = (ground arith, λ q woken. ground arith)

pub split_one-amount : (p q r : Permit) → split_one p ≡ some (q, r) → q.amount + r.amount ≡ p.amount
unfolding split_one
split_one-amount p q r h = ground arith

pub Fits-zero : (l : Option ℕ) → Fits l 0
Fits-zero none = tt
Fits-zero (some l) = omega arith
