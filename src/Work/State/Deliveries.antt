-- ===== src/Work/State/Deliveries.antt =====
-- src/static_routes.rs: every waiter of a static entry's work gets one result.
use leptos_ntex.Base.{
  ℕ, ◌+◌, ◌≤◌, ◌==◌, ◌≡◌, refl, sym, ap, ◌∙◌, ◌⊎◌, inl, inr, Bool, true, false, not, Bool-cases,
  ==_iff, Option, none, some, Option-cases, [], ◌∷◌, ◌++◌, Result, ok, err, arith,
}
use leptos_ntex.Policy.Errors.{StaticPolicyError}
use leptos_ntex.Policy.Pool.{retain}
use leptos_ntex.Work.State.{
  StaticResult, WorkState, Registration, Trigger, Seen, Answers, send_all, new_work,
  request_template, register, refuse, reopen, begin_render, finish_static_work, take_first,
  next_trigger, render_permit, abandoned, drop_guard,
}
use leptos_ntex.Work.State.History.{
  count, answered, count-append, answered-append, answered-send_all, count-retain, History,
  beginning, answer, Step, joins, begins, takes, finishes, sees, asks, looks, drops, Reach, here,
  next,
}

-- A waiter that has joined waits, was answered or has gone, once.
abbrev pub Counted : {T P : Type 0} → History T P → ℕ → Type 0
Counted h w =
    (count w h.waited ≡ count w h.work.waiters + answered w h.sent + count w h.gone)
    × (count w h.waited ≤ 1)

register-waiters :
    {T P : Type 0} (canceled : ℕ → Bool) (tx : ℕ) (template : T) (s t : WorkState T P)
    → register canceled tx template s ≡ (t, Registration.joined)
    → t.waiters ≡ retain (λ w. not (canceled w)) s.waiters ++ tx ∷ []
unfolding register request_template
register-waiters canceled tx template s t e = ground (arith, e)

abandoned-waiters :
    {T P : Type 0} (canceled : ℕ → Bool) (s : WorkState T P)
    → (abandoned canceled s).0.waiters ≡ retain (λ w. not (canceled w)) s.waiters
unfolding abandoned
abandoned-waiters canceled s = ground arith

next_trigger-waiters :
    {T P : Type 0} (streams_empty : Bool) (seen : Seen) (s : WorkState T P)
    → (next_trigger streams_empty seen s).0.waiters ≡ s.waiters
unfolding next_trigger
next_trigger-waiters streams_empty seen s = ground arith

-- Either nothing is sent and nobody leaves, or all are answered.
render_permit-waiters :
    {T P : Type 0} (slot : Option (Result StaticPolicyError (Unit {0}))) (is_first : Bool)
    (trigger : Trigger) (s : WorkState T P)
    → (((render_permit slot is_first trigger s).0.waiters ≡ s.waiters)
        × ((render_permit slot is_first trigger s).1 ≡ []))
      ⊎ (((render_permit slot is_first trigger s).0.waiters ≡ [])
          × ((r : StaticResult P) × ((render_permit slot is_first trigger s).1
                ≡ send_all s.waiters r)))
unfolding render_permit refuse reopen finish_static_work
render_permit-waiters none is_first trigger s = inl (refl, refl)
render_permit-waiters (some (ok _)) is_first trigger s = inl (refl, refl)
render_permit-waiters (some (err e)) true trigger s = inr (refl, (err e, refl))
render_permit-waiters (some (err e)) false Trigger.request s = inr (refl, (err e, refl))
render_permit-waiters (some (err e)) false Trigger.subscription s = inr (refl, (err e, refl))

drop_guard-waiters :
    {T P : Type 0} (s : WorkState T P)
    → ((drop_guard s).0.waiters ≡ [])
      × ((r : StaticResult P) × ((drop_guard s).1 ≡ send_all s.waiters r))
unfolding drop_guard
drop_guard-waiters s = elim (Option-cases s.terminal) [
  | inl e ↦ rw e (refl, (_, refl))
  | inr (r, e) ↦ rw e (refl, (r, refl))
]

-- Sending one result to all the waiters keeps the count.
answer-Counted :
    {T P : Type 0} (h : History T P) (s : WorkState T P) (results : Answers P) (r : StaticResult P)
    (w : ℕ)
    → s.waiters ≡ []
    → results ≡ send_all h.work.waiters r
    → Counted h w
    → Counted (answer h s results) w
unfolding count
answer-Counted h s results r w e f v = (
  v.0
      ∙ sum (count w h.work.waiters) (answered w h.sent) (count w h.gone) _ _ (ap (count w) e) (
          ap (λ x. answered w (x ++ h.sent)) f
          ∙ answered-append w (send_all h.work.waiters r) h.sent
          ∙ ap (λ n. n + answered w h.sent) (answered-send_all w h.work.waiters r)),
  v.1,
)
  where
    sum : (a b c x y : ℕ) → x ≡ 0 → y ≡ a + b → a + b + c ≡ x + y + c
    sum a b c x y e f = omega arith

joins-Counted :
    {T P : Type 0} (h : History T P) (canceled : ℕ → Bool) (tx : ℕ) (template : T)
    (s : WorkState T P) (w : ℕ)
    → count tx h.waited ≡ 0
    → register canceled tx template h.work ≡ (s, Registration.joined)
    → Counted h w
    → Counted
        (record h {
          work = s;
          waited = tx ∷ h.waited;
          gone = retain canceled h.work.waiters ++ h.gone;
        })
        w
unfolding count
joins-Counted h canceled tx template s w new e v =
    let waiters =
      ap (count w) (register-waiters canceled tx template h.work s e)
      ∙ count-append w (retain (λ u. not (canceled u)) h.work.waiters) (tx ∷ []) in
    let left = count-append w (retain canceled h.work.waiters) h.gone in
    let all = count-retain w canceled h.work.waiters in
    elim (Bool-cases (tx == w)) [
      | inl same ↦
          (let eq : count w h.waited ≡ 0 = cc ((==_iff tx w).0 same, new) in
            ground (arith, waiters, left, all, v, eq))
      | inr other ↦ ground (arith, waiters, left, all, v)
    ]

looks-Counted :
    {T P : Type 0} (h : History T P) (canceled : ℕ → Bool) (w : ℕ)
    → Counted h w
    → Counted
        (record h {
          work = (abandoned canceled h.work).0;
          gone = retain canceled h.work.waiters ++ h.gone;
        })
        w
looks-Counted h canceled w v =
    let waiters = ap (count w) (abandoned-waiters canceled h.work) in
    let left = count-append w (retain canceled h.work.waiters) h.gone in
    (omega (arith, waiters, left, count-retain w canceled h.work.waiters, v.0), v.1)

Step-Counted : {T P : Type 0} {h k : History T P} (w : ℕ) → Step h k → Counted h w → Counted k w
unfolding finish_static_work begin_render take_first
Step-Counted {h = h} w (joins canceled tx template s new e) v =
    joins-Counted h canceled tx template s w new e v
Step-Counted w begins v = v
Step-Counted w takes v = v
Step-Counted {h = h} w (finishes result is_terminal) v =
    answer-Counted h (finish_static_work result is_terminal h.work).0
      (finish_static_work result is_terminal h.work).1 result w refl refl v
Step-Counted {h = h} w (sees streams_empty seen idle) v = (
  v.0
      ∙ ap (λ ws. count w ws + answered w h.sent + count w h.gone)
          (sym (next_trigger-waiters streams_empty seen h.work)),
  v.1,
)
Step-Counted {h = h} w (asks slot is_first trigger) v =
    elim (render_permit-waiters slot is_first trigger h.work) [
      | inl (same, silent) ↦ (
        v.0
            ∙ ap (λ ws. count w ws + answered w h.sent + count w h.gone) (sym same)
            ∙ ap
                (λ rs.
                  count w (render_permit slot is_first trigger h.work).0.waiters
                  + answered w (rs ++ h.sent)
                  + count w h.gone)
                (sym silent),
        v.1,
      )
      | inr (empty, (r, all)) ↦
          answer-Counted h (render_permit slot is_first trigger h.work).0
            (render_permit slot is_first trigger h.work).1 r w empty all v
    ]
Step-Counted {h = h} w (looks canceled) v = looks-Counted h canceled w v
Step-Counted {h = h} w drops v =
    let (empty, (r, all)) = drop_guard-waiters h.work in
    answer-Counted h (drop_guard h.work).0 (drop_guard h.work).1 r w empty all v

-- Whatever requests and the generation task do, a waiter that has joined the work either waits, or
-- has been sent a result, or was dropped after its receiver had gone, and it is in one of the three
-- once; nobody else was sent a result.
pub Reach-Counted : {T P : Type 0} {h : History T P} (w : ℕ) → Reach beginning h → Counted h w
unfolding beginning new_work count answered
Reach-Counted w here = (omega arith, omega arith)
Reach-Counted w (next r s) = Step-Counted w s (Reach-Counted w r)
