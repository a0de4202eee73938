-- ===== src/Tests/Requests.antt =====
-- Runs of the scopes of requests, and witnesses.
use leptos_ntex.Base.{ℕ, ◌≡◌, refl, Bool, true, false, List, [], ◌∷◌, is_some, ok, err, checked_add}
use leptos_ntex.Requests.{
  RequestAccessError, Token, Registry, World, get, current_registry, registry, update, new_scope,
  try_new, with_request, is_live, take_out, drop_token, drop_handle, live_entries, collect,
  collect_dirty, poll_scope,
}
use leptos_ntex.Requests.Scopes.{find_scope}
use leptos_ntex.Requests.History.{
  opened, registered, promised, beginning, Reach, here, next, opens, registers, clones, drops,
}
use leptos_ntex.Requests.Refinement.{with_request-promised}
use leptos_ntex.Requests.Exactness.{poll_scope-is_live}

abbrev thread : ℕ
thread = 7

abbrev elsewhere : ℕ
elsewhere = 9

abbrev scope : (next_id : ℕ) (dirty : Bool) → List (ℕ × ℕ) → Registry
scope n d entries = record { id = 1; origin = thread; next_id = n; dirty = d; entries = entries }

abbrev token : ℕ → Token
token i = record { scope = 1; id = i; origin = thread }

abbrev world : Registry → List Token → World
world r handles = record { next_scope = 2; scopes = r ∷ []; handles = handles }

-- A scope is opened, two requests are registered, the first is cloned, and the second's handle is dropped
-- on another thread.
history : Reach beginning (record {
  world = world (scope 2 true ((1, 43) ∷ (0, 42) ∷ [])) (token 0 ∷ token 0 ∷ []);
  events = registered 1 1 43 ∷ registered 1 0 42 ∷ opened 1 ∷ [];
})
unfolding new_scope try_new current_registry update checked_add take_out is_live drop_handle
    drop_token
history =
    next
      (next
        (next
          (next (next here (opens thread (world (scope 0 false []) []) refl)) (
            registers thread 42 (world (scope 1 false ((0, 42) ∷ [])) (token 0 ∷ [])) (token 0)
              refl))
          (registers thread 43
            (world (scope 2 false ((1, 43) ∷ (0, 42) ∷ [])) (token 1 ∷ token 0 ∷ [])) (token 1)
            refl))
        (clones (token 1 ∷ []) [] (token 0) refl))
      (drops elsewhere (token 0 ∷ []) (token 0 ∷ []) (token 1) refl)

abbrev left : World
left = world (scope 2 true ((1, 43) ∷ (0, 42) ∷ [])) (token 0 ∷ token 0 ∷ [])

with_request_test :
    (with_request thread (token 0) left ≡ ok 42)
    × (with_request elsewhere (token 0) left ≡ err RequestAccessError.wrong_thread)
    × (with_request thread (token 5) left ≡ err RequestAccessError.closed)
unfolding with_request registry get
with_request_test = (refl, refl, refl)

poll_scope_test : (poll_scope 1 left).scopes ≡ scope 2 false ((0, 42) ∷ []) ∷ []
unfolding poll_scope update collect_dirty collect live_entries is_live
poll_scope_test = refl

with_request-promised_example :
    with_request elsewhere (token 0) left
    ≡ promised elsewhere (token 0) (registered 1 1 43 ∷ registered 1 0 42 ∷ opened 1 ∷ [])
with_request-promised_example =
    with_request-promised history elsewhere [] (token 0 ∷ []) (token 0) refl

poll_scope-is_live_example : is_some (get 1 ((0, 42) ∷ [])) ≡ is_live 1 1 (token 0 ∷ token 0 ∷ [])
unfolding poll_scope find_scope update collect_dirty collect live_entries is_live
poll_scope-is_live_example = poll_scope-is_live history 1 1 (scope 2 false ((0, 42) ∷ [])) refl
