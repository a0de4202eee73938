-- ===== src/Requests.antt =====
-- src/request.rs: the scopes that own native requests, and the handles that lead to them. A native
-- request, a thread and a scope are numbers. A scope that is closed leaves its thread's list at
-- once, and every clone of a handle is an element of the list of handles.
pub mod Scopes
pub mod History
pub mod Access
pub mod Tracking
pub mod Refinement
pub mod Retirement
pub mod Exactness
use leptos_ntex.Base.{
  ℕ, ◌+◌, ◌==◌, if◌then◌else◌, Bool, true, false, not, ◌&&◌, Option, none, some, List, [], ◌∷◌,
  length, Result, ok, err, checked_add,
}

pub data RequestAccessError : Type 0 where
  missing_scope wrong_thread closed : RequestAccessError

-- `Token`, up to the waker.
pub record Token : Type 0 where
  pub scope : ℕ
  pub id : ℕ
  pub origin : ℕ

-- `Registry`, on its thread: the entries by identifier, and whether a handle was retired elsewhere.
pub record Registry : Type 0 where
  pub id : ℕ
  pub origin : ℕ
  pub next_id : ℕ
  pub dirty : Bool
  pub entries : List (ℕ × ℕ)

-- The open scopes, the newest first; the next scope's identifier; the handles, clones included.
pub record World : Type 0 where
  pub next_scope : ℕ
  pub scopes : List Registry
  pub handles : List Token

-- `HashMap::get` and `remove` on the entries.
unfoldable pub get : ℕ → List (ℕ × ℕ) → Option ℕ
get i [] = none
get i ((j, n) ∷ entries) = if j == i then some n else get i entries

unfoldable pub remove : ℕ → List (ℕ × ℕ) → List (ℕ × ℕ)
remove i [] = []
remove i ((j, n) ∷ entries) = let rest = remove i entries in if j == i then rest else (j, n) ∷ rest

-- `current_registry`: the newest open scope of the thread.
unfoldable pub current_registry : (thread : ℕ) → List Registry → Option Registry
current_registry thread [] = none
current_registry thread (r ∷ scopes) =
    if r.origin == thread then some r else current_registry thread scopes

-- `registry`: the open scope of the thread with this identifier.
unfoldable pub registry : (thread id : ℕ) → List Registry → Option Registry
registry thread id [] = none
registry thread id (r ∷ scopes) =
    if r.origin == thread && r.id == id then some r else registry thread id scopes

-- A change of the scope with this identifier.
unfoldable pub update : ℕ → (Registry → Registry) → List Registry → List Registry
update id f [] = []
update id f (r ∷ scopes) =
    let rest = update id f scopes in if r.id == id then f r ∷ scopes else r ∷ rest

-- `RequestScope::new`; `none` is the panic when the identifiers are exhausted.
unfoldable pub new_scope : (thread : ℕ) → World → Option World
unfolding checked_add
new_scope thread w = elim (checked_add w.next_scope 1) [
  | none ↦ none
  | some n ↦ some (record w {
    next_scope = n;
    scopes =
        record { id = w.next_scope; origin = thread; next_id = 0; dirty = false; entries = [] }
        ∷ w.scopes;
  })
]

-- The new entry of `try_new`, in its scope.
abbrev enter : (native next : ℕ) → Registry → Registry
enter native next r = record r { next_id = next; entries = (r.next_id, native) ∷ r.entries }

-- `Request::try_new`; `none` is the panic when the scope's identifiers are exhausted.
unfoldable pub try_new :
    (thread native : ℕ) → World → Option (World × Result RequestAccessError Token)
unfolding checked_add current_registry update
try_new thread native w = elim (current_registry thread w.scopes) [
  | none ↦ some (w, err RequestAccessError.missing_scope)
  | some r ↦ elim (checked_add r.next_id 1) [
    | none ↦ none
    | some n ↦
        let token : Token = record { scope = r.id; id = r.next_id; origin = thread } in
        some (
          record w { scopes = update r.id (enter native n) w.scopes; handles = token ∷ w.handles },
          ok token,
        )
  ]
]

-- `Request::with`, with the identity as the work, which is `try_into_inner`.
unfoldable pub with_request : (thread : ℕ) → Token → World → Result RequestAccessError ℕ
unfolding registry get
with_request thread token w =
    if not (token.origin == thread)
    then err RequestAccessError.wrong_thread
    else elim (registry thread token.scope w.scopes) [
      | none ↦ err RequestAccessError.closed
      | some r ↦ elim (get token.id r.entries) [
        | none ↦ err RequestAccessError.closed
        | some n ↦ ok n
      ]
    ]

abbrev pub same_token : Token → Token → Bool
same_token s t = s.scope == t.scope && s.id == t.id

-- Whether a token has a handle: `strong_count() != 0`.
unfoldable pub is_live : (scope id : ℕ) → List Token → Bool
is_live scope id [] = false
is_live scope id (t ∷ handles) =
    let rest = is_live scope id handles in if t.scope == scope && t.id == id then true else rest

-- One handle of the token goes.
unfoldable pub take_out : Token → List Token → List Token
take_out token [] = []
take_out token (t ∷ handles) =
    let rest = take_out token handles in if same_token t token then handles else t ∷ rest

-- `Drop for Token`: on its own thread the entry goes; elsewhere the scope is marked.
unfoldable pub drop_token : (thread : ℕ) → Token → List Registry → List Registry
unfolding update remove
drop_token thread token scopes =
    if token.origin == thread
    then (elim (registry thread token.scope scopes) [
      | none ↦ scopes
      | some r ↦ update token.scope (λ r. record r { entries = remove token.id r.entries }) scopes
    ])
    else update token.scope (λ r. record r { dirty = true }) scopes

-- A handle is dropped; the last one of a token drops the token.
unfoldable pub drop_handle : (thread : ℕ) → Token → World → World
unfolding is_live take_out
drop_handle thread token w =
    let handles = take_out token w.handles in
    if is_live token.scope token.id handles
    then record w { handles = handles }
    else record w { handles = handles; scopes = drop_token thread token w.scopes }

-- The entries whose token has a handle.
unfoldable pub live_entries : (scope : ℕ) → List Token → List (ℕ × ℕ) → List (ℕ × ℕ)
unfolding is_live
live_entries scope handles [] = []
live_entries scope handles ((i, n) ∷ entries) =
    let rest = live_entries scope handles entries in
    if is_live scope i handles then (i, n) ∷ rest else rest

-- `Registry::collect`.
unfoldable pub collect : List Token → Registry → Registry
unfolding live_entries
collect handles r = record r { entries = live_entries r.id handles r.entries }

-- `RequestScope::collect`.
unfoldable pub collect_scope : (id : ℕ) → World → World
unfolding update
collect_scope id w = record w { scopes = update id (collect w.handles) w.scopes }

-- The collection that a poll of `CollectingFuture` makes.
unfoldable pub collect_dirty : List Token → Registry → Registry
unfolding collect
collect_dirty handles r = if r.dirty then collect handles (record r { dirty = false }) else r

unfoldable pub poll_scope : (id : ℕ) → World → World
unfolding update
poll_scope id w = record w { scopes = update id (collect_dirty w.handles) w.scopes }

-- `Drop for RequestScope`.
unfoldable pub close : ℕ → List Registry → List Registry
close id [] = []
close id (r ∷ scopes) = let rest = close id scopes in if r.id == id then rest else r ∷ rest

unfoldable pub drop_scope : (id : ℕ) → World → World
unfolding close
drop_scope id w = record w { scopes = close id w.scopes }
