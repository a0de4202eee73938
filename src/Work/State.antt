-- ===== src/Work/State.antt =====
-- src/static_routes.rs: `WorkState` and the operations of requests, of the generation task and of
-- its guard on it. A waiter is the identity of its sender; `canceled` says which receivers have
-- gone. A template and a response's parts are types of their own.
pub mod History
pub mod Deliveries
pub mod Attended
use leptos_ntex.Base.{
  ℕ, if◌then◌else◌, Bool, true, false, not, ◌&&◌, Bytes, codes, Option, none, some, is_some,
  is_none, List, [], ◌∷◌, ◌++◌, map, Result, ok, err,
}
use leptos_ntex.Policy.Errors.{StaticPolicyError}
use leptos_ntex.Policy.Pool.{retain}

pub data StaticOutcome (Parts : Type 0) : Type 0 where
  published : StaticOutcome Parts
  inline : (html : Bytes) (parts : Option Parts) → StaticOutcome Parts

abbrev pub StaticResult : Type 0 → Type 0
StaticResult Parts = Result StaticPolicyError (StaticOutcome Parts)

pub record WorkState (Template Parts : Type 0) : Type 0 where
  pub waiters : List ℕ
  pub requested : Option Template
  pub running : Bool
  pub blocked_render : Bool
  pub terminal : Option (StaticResult Parts)

-- What a request's look at the work's state comes to.
pub data Registration : Type 0 where
  joined refused ended : Registration

pub data Trigger : Type 0 where
  request subscription : Trigger

-- What the select of `next_trigger` sees first: a requested template, an event, or the end of the
-- streams.
pub data Seen : Type 0 where
  wanted event closed : Seen

-- How the wait for a render slot ends: with a permit (or none, without a policy), with the end of
-- the generation, with another round, or with a wait for a permit.
pub data Slot : Type 0 where
  granted over retry waiting : Slot

-- A message of the source, as `StaticPolicyError::Render`.
abbrev failure : {P : Type 0} → Bytes → StaticResult P
failure message = err (StaticPolicyError.render message)

-- The results that leave, one for each waiter.
abbrev pub Answers : Type 0 → Type 0
Answers Parts = List (ℕ × StaticResult Parts)

unfoldable pub send_all : {P : Type 0} → List ℕ → StaticResult P → Answers P
send_all [] result = []
send_all (w ∷ ws) result = (w, result) ∷ send_all ws result

unfoldable pub new_work : {T P : Type 0} → WorkState T P
new_work = record {
  waiters = [];
  requested = none;
  running = false;
  blocked_render = false;
  terminal = none;
}

-- `state.requested = template.take()`, if nothing runs and nothing is requested.
unfoldable pub request_template : {T P : Type 0} → T → WorkState T P → WorkState T P
request_template template s =
    if not s.running && is_none s.requested then record s { requested = some template } else s

-- The part of `StaticRuntime::render` under the lock of the work's state.
unfoldable pub register :
    {T P : Type 0}
    → (canceled : ℕ → Bool) → (tx : ℕ) → (template : T) → WorkState T P
    → WorkState T P × Registration
unfolding request_template retain
register canceled tx template s =
    if is_some s.terminal
    then (s, Registration.ended)
    else if s.blocked_render
    then (s, Registration.refused)
    else (
      request_template template
          (record s { waiters = retain (λ w. not (canceled w)) s.waiters ++ tx ∷ [] }),
      Registration.joined,
    )

unfoldable pub refuse : {T P : Type 0} → WorkState T P → WorkState T P × Option T × List ℕ
refuse s = (
  record s { blocked_render = true; running = false; requested = none; waiters = [] },
  s.requested,
  s.waiters,
)

unfoldable pub reopen : {T P : Type 0} → WorkState T P → WorkState T P
reopen s = record s { blocked_render = false }

unfoldable pub begin_render : {T P : Type 0} → WorkState T P → WorkState T P × Option T
begin_render s =
    (record s { blocked_render = false; running = true; requested = none }, s.requested)

unfoldable pub finish_static_work :
    {T P : Type 0}
    → StaticResult P
    → (is_terminal : Bool) → WorkState T P
    → WorkState T P × Answers P
unfolding send_all
finish_static_work result is_terminal s = (
  record s {
    running = false;
    terminal = (if is_terminal then some result else s.terminal);
    waiters = [];
  },
  send_all s.waiters result,
)

-- The start of the generation task: the first template is taken. `none` is the panic of `expect`.
unfoldable pub take_first : {T P : Type 0} → WorkState T P → WorkState T P × Option T
take_first s = (record s { running = true; requested = none }, s.requested)

-- `next_trigger`, with what it sees.
unfoldable pub next_trigger :
    {T P : Type 0} → (streams_empty : Bool) → Seen → WorkState T P → WorkState T P × Option Trigger
next_trigger true seen s = (s, none)
next_trigger false Seen.wanted s = (s, some Trigger.request)
next_trigger false Seen.event s = (s, some Trigger.subscription)
next_trigger false Seen.closed s =
    if is_none s.requested
    then (
      record s { terminal = some (failure (codes "static regeneration subscription ended")) },
      none,
    )
    else (s, some Trigger.request)

-- `render_permit` up to its wait for a permit; `slot` is the answer of the policy's pool, if there
-- is a policy.
unfoldable pub render_permit :
    {T P : Type 0}
    → (slot : Option (Result StaticPolicyError (Unit {0}))) → (is_first : Bool) → Trigger
    → WorkState T P
    → WorkState T P × Answers P × Slot
unfolding finish_static_work refuse reopen send_all
render_permit none is_first trigger s = (s, [], Slot.granted)
render_permit (some (ok _)) is_first trigger s = (s, [], Slot.granted)
render_permit (some (err e)) true trigger s =
    let (t, answers) = finish_static_work (err e) true s in (t, answers, Slot.over)
render_permit (some (err e)) false Trigger.request s =
    let (t, _, waiters) = refuse s in (reopen t, send_all waiters (err e), Slot.retry)
render_permit (some (err e)) false Trigger.subscription s =
    let (t, _, waiters) = refuse s in (t, send_all waiters (err e), Slot.waiting)

-- One poll of the abandonment test of `render_or_abandon`: whether nobody waits any more.
unfoldable pub abandoned :
    {T P : Type 0} → (canceled : ℕ → Bool) → WorkState T P → WorkState T P × Bool
unfolding retain
abandoned canceled s = elim (retain (λ w. not (canceled w)) s.waiters) [
  | [] ↦ (
    record s {
      waiters = [];
      terminal = some (failure (codes "static render has no remaining waiters"));
    },
    true,
  )
  | w ∷ ws ↦ (record s { waiters = w ∷ ws }, false)
]

-- `Drop for StaticTaskGuard`, on the state: the end's result, once it is set, stays.
unfoldable pub drop_guard : {T P : Type 0} → WorkState T P → WorkState T P × Answers P
unfolding send_all
drop_guard s = elim s.terminal [
  | some result ↦ (record s { waiters = [] }, send_all s.waiters result)
  | none ↦
      let result = failure (codes "static render task ended before completion") in
      (record s { waiters = []; terminal = some result }, send_all s.waiters result)
]
