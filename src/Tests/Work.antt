-- ===== src/Tests/Work.antt =====
-- The work of src/static_routes.rs on concrete inputs.
use leptos_ntex.Base.{
  ℕ, ◌≡◌, refl, ◌⊎◌, if◌then◌else◌, true, false, Bytes, codes, bytes_eq, none, some, [], ◌∷◌, ok,
}
use leptos_ntex.Policy.Pool.{retain}
use leptos_ntex.Work.State.{
  WorkState, published, Registration, new_work, request_template, register, begin_render,
  finish_static_work, send_all,
}
use leptos_ntex.Work.State.History.{
  count, History, beginning, joins, begins, finishes, Reach, here, next,
}
use leptos_ntex.Work.State.Deliveries.{Counted, Reach-Counted}
use leptos_ntex.Work.State.Attended.{IsAttended, Reach-IsAttended}
use leptos_ntex.Work.Registry.{StaticWorkKey, keys, Works, find, find_active, find_or_insert}
use leptos_ntex.Work.Registry.Laws.{has_key, Idle, Under, find_or_insert_lem}

-- Two requests join, one before and one during the render, which is published to both.
abbrev joined_once : WorkState Bytes ℕ
joined_once = record {
  waiters = 1 ∷ [];
  requested = some (codes "/a");
  running = false;
  blocked_render = false;
  terminal = none;
}

abbrev rendering : WorkState Bytes ℕ
rendering = record joined_once { requested = none; running = true }

abbrev joined_twice : WorkState Bytes ℕ
joined_twice = record rendering { waiters = 1 ∷ 2 ∷ [] }

abbrev done : WorkState Bytes ℕ
done = record rendering { running = false; waiters = [] }

register_test :
    register (λ w. false) 1 (codes "/a") (new_work {T = Bytes} {P = ℕ})
    ≡ (joined_once, Registration.joined)
unfolding register request_template new_work retain
register_test = refl

finish_static_work_test :
    finish_static_work (ok published) false joined_twice
    ≡ (done, (1, ok published) ∷ (2, ok published) ∷ [])
unfolding finish_static_work send_all
finish_static_work_test = refl

abbrev ended : History Bytes ℕ
ended = record {
  work = done;
  waited = 2 ∷ 1 ∷ [];
  sent = (1, ok published) ∷ (2, ok published) ∷ [];
  gone = [];
}

history : Reach beginning ended
unfolding beginning register request_template new_work retain count begin_render finish_static_work
    send_all
history =
    next
      (next (next (next here (joins (λ w. false) 1 (codes "/a") joined_once refl refl)) begins)
        (joins (λ w. false) 2 (codes "/a") joined_twice refl refl))
      (finishes (ok published) false)

Reach-Counted_example : Counted ended 1
Reach-Counted_example = Reach-Counted 1 history

Reach-IsAttended_example : IsAttended done
Reach-IsAttended_example = Reach-IsAttended history

-- One entry under two spellings, and another one.
abbrev key : StaticWorkKey
key = record { entry = codes "/A"; published = some (codes "/a") }

abbrev works : Works
works = (codes "/a", 4) ∷ (codes "/b", 5) ∷ []

find_or_insert_test : find_or_insert (λ w. true) key 6 works ≡ (works, 4, false)
unfolding find_or_insert find_active keys find bytes_eq
find_or_insert_test = refl

find_or_insert_lem_example :
    ((w : ℕ) × (find_or_insert (λ v. true) key 6 works ≡ (works, w, false))
      × Under (λ v. true) (keys key) works w)
    ⊎ ((n : Works) × (find_or_insert (λ v. true) key 6 works ≡ (n, 6, true))
        × Idle (λ v. true) (keys key) works
        × ((k : Bytes) → find k n ≡ (if has_key k (keys key) then some 6 else find k works)))
find_or_insert_lem_example = find_or_insert_lem (λ v. true) key 6 works
