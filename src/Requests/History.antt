-- ===== src/Requests/History.antt =====
-- src/request.rs: histories of requests, scopes and handles, and what a handle promises.
use leptos_ntex.Base.{
  ℕ, ◌==◌, if◌then◌else◌, Bool, true, false, not, ◌&&◌, Option, none, some, List, [], ◌∷◌, ◌++◌,
  Result, ok, err, ◌≡◌,
}
use leptos_ntex.Requests.{
  RequestAccessError, Token, World, new_scope, try_new, drop_handle, collect_scope, poll_scope,
  drop_scope,
}

-- What happened, the latest first: nothing of how requests are kept.
pub data Event : Type 0 where
  opened : (scope : ℕ) → Event
  registered : (scope id native : ℕ) → Event
  ended : (scope : ℕ) → Event

unfoldable pub is_open : ℕ → List Event → Bool
is_open s [] = false
is_open s (opened r ∷ es) = let rest = is_open s es in if r == s then true else rest
is_open s (ended r ∷ es) = let rest = is_open s es in if r == s then false else rest
is_open s (registered r i n ∷ es) = is_open s es

unfoldable pub native_of : (scope id : ℕ) → List Event → Option ℕ
native_of s i [] = none
native_of s i (registered r j n ∷ es) =
    let rest = native_of s i es in if r == s && j == i then some n else rest
native_of s i (opened r ∷ es) = native_of s i es
native_of s i (ended r ∷ es) = native_of s i es

-- The access that a handle promises: on its own thread, while its scope is open, the request that was
-- registered.
unfoldable pub promised : (thread : ℕ) → Token → List Event → Result RequestAccessError ℕ
unfolding is_open native_of
promised thread t es =
    if not (t.origin == thread)
    then err RequestAccessError.wrong_thread
    else if is_open t.scope es
    then (elim (native_of t.scope t.id es) [ none ↦ err RequestAccessError.closed | some n ↦ ok n ])
    else err RequestAccessError.closed

pub record History : Type 0 where
  pub world : World
  pub events : List Event

abbrev pub beginning : History
beginning = record { world = record { next_scope = 1; scopes = []; handles = [] }; events = [] }

-- Every thread opens and closes scopes, registers requests, clones and drops handles, collects and
-- polls, in any order.
pub data Step (h : History) : History → Type 0 where
  opens :
      (thread : ℕ) (w : World)
      → new_scope thread h.world ≡ some w
      → Step h (record { world = w; events = opened h.world.next_scope ∷ h.events })
  registers :
      (thread native : ℕ) (w : World) (t : Token)
      → try_new thread native h.world ≡ some (w, ok t)
      → Step h (record { world = w; events = registered t.scope t.id native ∷ h.events })
  clones :
      (ps qs : List Token) (t : Token)
      → h.world.handles ≡ ps ++ t ∷ qs
      → Step h (record h { world = record h.world { handles = t ∷ h.world.handles } })
  drops :
      (thread : ℕ) (ps qs : List Token) (t : Token)
      → h.world.handles ≡ ps ++ t ∷ qs
      → Step h (record h { world = drop_handle thread t h.world })
  collects : (id : ℕ) → Step h (record h { world = collect_scope id h.world })
  polls : (id : ℕ) → Step h (record h { world = poll_scope id h.world })
  closes :
      (id : ℕ) → Step h (record { world = drop_scope id h.world; events = ended id ∷ h.events })

pub data Reach (h : History) : History → Type 0 where
  here : Reach h h
  next : {i j : History} → Reach h i → Step i j → Reach h j
