-- ===== src/Work/State/Attended.antt =====
-- src/static_routes.rs: no waiter is left behind by the generation task.
use leptos_ntex.Base.{
  ℕ, ◌≡◌, refl, ◌⊎◌, inl, inr, Bool, true, false, not, Bool-cases, Option, none, some, is_some,
  is_none, List, [], ◌∷◌, Result, ok, err, arith,
}
use leptos_ntex.Policy.Errors.{StaticPolicyError}
use leptos_ntex.Policy.Pool.{retain}
use leptos_ntex.Work.State.{
  WorkState, Registration, Trigger, Seen, new_work, request_template, register, refuse, reopen,
  begin_render, finish_static_work, take_first, next_trigger, render_permit, abandoned, drop_guard,
}
use leptos_ntex.Work.State.History.{
  History, beginning, Step, joins, begins, takes, finishes, sees, asks, looks, drops, Reach, here,
  next,
}

-- Where somebody waits, a render runs or is requested, the work has not ended, and its admission is
-- open.
pub record IsAttended {T P : Type 0} (s : WorkState T P) : Type 0 where
  pub rendered : (s.waiters ≡ []) ⊎ (s.running ≡ true) ⊎ (is_some s.requested ≡ true)
  pub unended : (s.waiters ≡ []) ⊎ (is_some s.terminal ≡ false)
  pub unblocked : (s.waiters ≡ []) ⊎ (s.blocked_render ≡ false)

IsAttended-empty : {T P : Type 0} (s : WorkState T P) → s.waiters ≡ [] → IsAttended s
IsAttended-empty s e = record { rendered = inl e; unended = inl e; unblocked = inl e }

register-IsAttended :
    {T P : Type 0} (canceled : ℕ → Bool) (tx : ℕ) (template : T) (s t : WorkState T P)
    → register canceled tx template s ≡ (t, Registration.joined)
    → IsAttended t
unfolding register request_template
register-IsAttended canceled tx template s t e = record {
  rendered = ground (arith, e);
  unended = ground (arith, e);
  unblocked = ground (arith, e);
}

begin_render-IsAttended :
    {T P : Type 0} (s : WorkState T P) → IsAttended s → IsAttended (begin_render s).0
unfolding begin_render
begin_render-IsAttended s v = record {
  rendered = inr (inl refl);
  unended = v.unended;
  unblocked = inr refl;
}

take_first-IsAttended :
    {T P : Type 0} (s : WorkState T P) → IsAttended s → IsAttended (take_first s).0
unfolding take_first
take_first-IsAttended s v = record {
  rendered = inr (inl refl);
  unended = v.unended;
  unblocked = v.unblocked;
}

next_trigger-IsAttended :
    {T P : Type 0} (streams_empty : Bool) (seen : Seen) (s : WorkState T P)
    → s.running ≡ false
    → IsAttended s
    → IsAttended (next_trigger streams_empty seen s).0
unfolding next_trigger
next_trigger-IsAttended true seen s idle v = v
next_trigger-IsAttended false Seen.wanted s idle v = v
next_trigger-IsAttended false Seen.event s idle v = v
next_trigger-IsAttended false Seen.closed s idle v = elim (Bool-cases (is_none s.requested)) [
  | inl e ↦ rw e (IsAttended-empty _ (ground (arith, v.rendered, idle, e)))
  | inr e ↦ rw e v
]

render_permit-IsAttended :
    {T P : Type 0} (slot : Option (Result StaticPolicyError (Unit {0}))) (is_first : Bool)
    (trigger : Trigger) (s : WorkState T P)
    → IsAttended s
    → IsAttended (render_permit slot is_first trigger s).0
unfolding render_permit refuse reopen finish_static_work
render_permit-IsAttended none is_first trigger s v = v
render_permit-IsAttended (some (ok _)) is_first trigger s v = v
render_permit-IsAttended (some (err e)) true trigger s v = IsAttended-empty _ refl
render_permit-IsAttended (some (err e)) false Trigger.request s v = IsAttended-empty _ refl
render_permit-IsAttended (some (err e)) false Trigger.subscription s v = IsAttended-empty _ refl

retain-none : (keep : ℕ → Bool) (ws : List ℕ) → ws ≡ [] → retain keep ws ≡ []
unfolding retain
retain-none keep [] e = refl
retain-none keep (w ∷ ws) e = absurd (cc)

abandoned-IsAttended :
    {T P : Type 0} (canceled : ℕ → Bool) (s : WorkState T P)
    → IsAttended s
    → IsAttended (abandoned canceled s).0
unfolding abandoned
abandoned-IsAttended canceled s v =
    let gone = retain-none (λ w. not (canceled w)) s.waiters in
    record {
      rendered = ground (arith, gone, v.rendered);
      unended = ground (arith, gone, v.unended);
      unblocked = ground (arith, gone, v.unblocked);
    }

drop_guard-IsAttended : {T P : Type 0} (s : WorkState T P) → IsAttended (drop_guard s).0
unfolding drop_guard
drop_guard-IsAttended s = IsAttended-empty _ (ground arith)

Step-IsAttended :
    {T P : Type 0} {h k : History T P} → Step h k → IsAttended h.work → IsAttended k.work
unfolding finish_static_work
Step-IsAttended {h = h} (joins canceled tx template s new e) v =
    register-IsAttended canceled tx template h.work s e
Step-IsAttended {h = h} begins v = begin_render-IsAttended h.work v
Step-IsAttended {h = h} takes v = take_first-IsAttended h.work v
Step-IsAttended {h = h} (finishes result is_terminal) v = IsAttended-empty _ refl
Step-IsAttended {h = h} (sees streams_empty seen idle) v =
    next_trigger-IsAttended streams_empty seen h.work idle v
Step-IsAttended {h = h} (asks slot is_first trigger) v =
    render_permit-IsAttended slot is_first trigger h.work v
Step-IsAttended {h = h} (looks canceled) v = abandoned-IsAttended canceled h.work v
Step-IsAttended {h = h} drops v = drop_guard-IsAttended h.work

-- Whatever requests and the generation task do: while somebody waits for the work, a render runs or
-- its template is requested, the work has no end's result yet, and it does not refuse requests for
-- want of a render slot.
pub Reach-IsAttended : {T P : Type 0} {h : History T P} → Reach beginning h → IsAttended h.work
unfolding beginning new_work
Reach-IsAttended here = IsAttended-empty _ refl
Reach-IsAttended (next r s) = Step-IsAttended s (Reach-IsAttended r)
