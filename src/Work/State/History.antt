-- ===== src/Work/State/History.antt =====
-- src/static_routes.rs: the histories of one work, as a step relation.
use leptos_ntex.Base.{
  ℕ, ◌+◌, ◌==◌, ◌≡◌, refl, inl, inr, if◌then◌else◌, Bool, false, not, Bool-cases, Option, List, [],
  ◌∷◌, ◌++◌, Result, arith,
}
use leptos_ntex.Policy.Errors.{StaticPolicyError}
use leptos_ntex.Policy.Pool.{retain}
use leptos_ntex.Work.State.{
  StaticResult, WorkState, Registration, Trigger, Seen, Answers, send_all, new_work, register,
  begin_render, finish_static_work, take_first, next_trigger, render_permit, abandoned, drop_guard,
}

-- How often a waiter stands in a list, and among answers.
unfoldable pub count : ℕ → List ℕ → ℕ
count w [] = 0
count w (v ∷ vs) = let rest = count w vs in if v == w then rest + 1 else rest

unfoldable pub answered : {P : Type 0} → ℕ → Answers P → ℕ
answered w [] = 0
answered w ((v, r) ∷ vs) = let rest = answered w vs in if v == w then rest + 1 else rest

pub count-append : (w : ℕ) (xs ys : List ℕ) → count w (xs ++ ys) ≡ count w xs + count w ys
unfolding count
count-append w [] ys = omega arith
count-append w (x ∷ xs) ys = ground (arith, count-append w xs ys)

pub answered-append :
    {P : Type 0} (w : ℕ) (xs ys : Answers P) → answered w (xs ++ ys) ≡ answered w xs + answered w ys
unfolding answered
answered-append w [] ys = omega arith
answered-append w ((x, r) ∷ xs) ys = ground (arith, answered-append w xs ys)

pub answered-send_all :
    {P : Type 0} (w : ℕ) (ws : List ℕ) (r : StaticResult P)
    → answered w (send_all ws r) ≡ count w ws
unfolding answered count send_all
answered-send_all w [] r = refl
answered-send_all w (v ∷ ws) r = ground (arith, answered-send_all w ws r)

pub count-retain :
    (w : ℕ) (canceled : ℕ → Bool) (ws : List ℕ)
    → count w ws ≡ count w (retain (λ v. not (canceled v)) ws) + count w (retain canceled ws)
unfolding count retain
count-retain w canceled [] = refl
count-retain w canceled (v ∷ ws) = elim (Bool-cases (canceled v)) [
  | inl e ↦ rw e (ground (arith, count-retain w canceled ws))
  | inr e ↦ rw e (ground (arith, count-retain w canceled ws))
]

-- The work, who has joined it, the results that were sent, and the waiters that were dropped
-- because their receivers had gone.
pub record History (T P : Type 0) : Type 0 where
  pub work : WorkState T P
  pub waited : List ℕ
  pub sent : Answers P
  pub gone : List ℕ

unfoldable pub beginning : {T P : Type 0} → History T P
beginning = record { work = new_work; waited = []; sent = []; gone = [] }

-- The state after an operation that sends results.
abbrev pub answer : {T P : Type 0} → History T P → WorkState T P → Answers P → History T P
answer h s results = record h { work = s; sent = results ++ h.sent }

-- What requests and the generation task do with the work, in any order that the task's own control
-- flow does not exclude: the end of the streams is seen between two renders only.
pub data Step {T P : Type 0} (h : History T P) : History T P → Type 0 where
  joins :
      (canceled : ℕ → Bool) (tx : ℕ) (template : T) (s : WorkState T P)
      → count tx h.waited ≡ 0
      → register canceled tx template h.work ≡ (s, Registration.joined)
      → Step h (record h {
        work = s;
        waited = tx ∷ h.waited;
        gone = retain canceled h.work.waiters ++ h.gone;
      })
  begins : Step h (record h { work = (begin_render h.work).0 })
  takes : Step h (record h { work = (take_first h.work).0 })
  finishes :
      (result : StaticResult P) (is_terminal : Bool)
      → Step h (
          answer h
            (finish_static_work result is_terminal h.work).0
            (finish_static_work result is_terminal h.work).1)
  sees :
      (streams_empty : Bool) (seen : Seen)
      → h.work.running ≡ false
      → Step h (record h { work = (next_trigger streams_empty seen h.work).0 })
  asks :
      (slot : Option (Result StaticPolicyError (Unit {0}))) (is_first : Bool) (trigger : Trigger)
      → Step h (
          answer h
            (render_permit slot is_first trigger h.work).0
            (render_permit slot is_first trigger h.work).1)
  looks :
      (canceled : ℕ → Bool)
      → Step h (record h {
        work = (abandoned canceled h.work).0;
        gone = retain canceled h.work.waiters ++ h.gone;
      })
  drops : Step h (answer h (drop_guard h.work).0 (drop_guard h.work).1)

pub data Reach {T P : Type 0} (h : History T P) : History T P → Type 0 where
  here : Reach h h
  next : {i j : History T P} → Reach h i → Step i j → Reach h j
