-- ===== src/Storage/Opening.antt =====
-- src/static_routes/storage.rs: installing the policy of a root, and taking the lease of a publication.
-- What the filesystem and the locks answer is an argument; a path is its list of components, the innermost first.
pub mod Laws
pub mod Later
pub mod Entries
use leptos_ntex.Base.{
  is_some, ℕ, ◌==◌, ◌≡◌, if◌then◌else◌, Bool, true, false, not, ◌&&◌, ◌||◌, Bytes, bytes_eq, Option,
  none, some, List, [], ◌∷◌, Result, ok, err, ◌>>=◌, ◌>>◌, ensure, map_err,
}
use leptos_ntex.Io.{IoError, IoErrorKind, kind_eq, plain}
use leptos_ntex.Storage.Errors.{StaticStorageLimits, StaticStorageError}
use leptos_ntex.Storage.Record.{Record, record_len, encode, read_record}
use leptos_ntex.Storage.Accounting.{Usage, add, check_limits}

-- Why an entry is no private regular file.
pub data LockEntryError : Type 0 where
  not_regular aliased : LockEntryError
  io : IoError → LockEntryError

pub data LockMode : Type 0 where
  shared exclusive : LockMode

pub data LockError : Type 0 where
  would_block : LockError
  io : IoError → LockError

-- The metadata of an opened entry.
pub record EntryMetadata : Type 0 where
  pub is_file : Bool
  pub nlink : ℕ

unfoldable pub checked_lock_file : Result IoError EntryMetadata → Result LockEntryError (Unit {0})
checked_lock_file (err e) = err (LockEntryError.io e)
checked_lock_file (ok m) =
    if not m.is_file
    then err LockEntryError.not_regular
    else if not (m.nlink == 1)
    then err LockEntryError.aliased
    else ok tt

-- The answers for one entry: its creation, the look at it without following links, its opening, and
-- the metadata of what was opened or created.
pub record EntryAnswers : Type 0 where
  pub created : Result IoError (Unit {0})
  pub is_regular_entry : Result IoError Bool
  pub opened : Result IoError (Unit {0})
  pub metadata : Result IoError EntryMetadata

abbrev open_existing : EntryAnswers → Result LockEntryError (Unit {0})
open_existing a = elim a.is_regular_entry [
  | err e ↦ err (LockEntryError.io e)
  | ok false ↦ err LockEntryError.not_regular
  | ok true ↦ elim a.opened [
    | err e ↦ err (LockEntryError.io e)
    | ok _ ↦ checked_lock_file a.metadata
  ]
]

unfoldable pub open_lock_entry : EntryAnswers → (create : Bool) → Result LockEntryError (Unit {0})
unfolding kind_eq
open_lock_entry a false = open_existing a
open_lock_entry a true = elim a.created [
  | ok _ ↦ checked_lock_file a.metadata
  | err e ↦
      if kind_eq e.kind IoErrorKind.already_exists
      then open_existing a
      else err (LockEntryError.io e)
]

unfoldable pub is_not_found : LockEntryError → Bool
is_not_found (LockEntryError.io e) = kind_eq e.kind IoErrorKind.not_found
is_not_found LockEntryError.not_regular = false
is_not_found LockEntryError.aliased = false

-- `FileLock::acquire`, from the answer of the lock call of this mode.
unfoldable pub acquire : Result IoError (Unit {0}) → Result LockError (Unit {0})
acquire (ok _) = ok tt
acquire (err e) =
    if kind_eq e.kind IoErrorKind.would_block
    then err LockError.would_block
    else err (LockError.io e)

-- The conversions of the two errors.
abbrev pub from_entry_error : LockEntryError → StaticStorageError
from_entry_error LockEntryError.not_regular = StaticStorageError.invalid_policy
from_entry_error LockEntryError.aliased = StaticStorageError.invalid_policy
from_entry_error (LockEntryError.io e) = StaticStorageError.io e

abbrev pub from_lock_error : LockError → StaticStorageError
from_lock_error LockError.would_block = StaticStorageError.busy
from_lock_error (LockError.io e) = StaticStorageError.io e

-- The control file of a directory: its entry, the locks on it, and its contents under a lock.
pub record Control : Type 0 where
  pub entry : EntryAnswers
  pub lock : LockMode → (wait : Bool) → Result IoError (Unit {0})
  pub contents : Result IoError Bytes

unfoldable pub open_control : Control → (create : Bool) → Result StaticStorageError (Unit {0})
open_control c create = map_err from_entry_error (open_lock_entry c.entry create)

unfoldable pub lock_control :
    Control → LockMode → (wait : Bool) → Result StaticStorageError (Unit {0})
lock_control c mode wait = map_err from_lock_error (acquire (c.lock mode wait))

unfoldable pub active_policy : Control → Result StaticStorageError Bool
active_policy c = elim (open_lock_entry c.entry false) [
  | err e ↦ if is_not_found e then ok false else err (from_entry_error e)
  | ok _ ↦ lock_control c LockMode.shared true >> (read_record c.contents >>= (λ r. ok (is_some r)))
]

abbrev pub SitePath : Type 0
SitePath = List Bytes

unfoldable pub path_eq : SitePath → SitePath → Bool
unfolding bytes_eq
path_eq [] [] = true
path_eq [] (n ∷ q) = false
path_eq (m ∷ p) [] = false
path_eq (m ∷ p) (n ∷ q) = bytes_eq m n && path_eq p q

abbrev is_stop : Option SitePath → SitePath → Bool
is_stop none path = false
is_stop (some stop) path = path_eq stop path

unfoldable pub ancestor_policy :
    (control : SitePath → Control) (path : SitePath) (stop : Option SitePath)
    → Result StaticStorageError Bool
ancestor_policy control [] stop = ok false
ancestor_policy control (name ∷ parent) stop =
    let rest = ancestor_policy control parent stop in
    if is_stop stop parent
    then ok false
    else active_policy (control parent) >>= (λ active. if active then ok true else rest)

-- What `open_root` asks: the existing prefix with the missing names, the control files, the making of
-- the directories, the canonical path and its opening.
pub record RootAnswers : Type 0 where
  pub prefix : Result IoError (SitePath × List Bytes)
  pub control : SitePath → Control
  pub created : Result IoError (Unit {0})
  pub canonical : Result IoError SitePath
  pub dir : Result IoError (Unit {0})

abbrev pub from_io : {A : Type 0} → Result IoError A → Result StaticStorageError A
from_io r = map_err StaticStorageError.io r

-- Whether an ancestor has a policy, the existing one included if names are missing below it.
unfoldable pub is_managed :
    RootAnswers → SitePath → (missing : List Bytes) → Result StaticStorageError Bool
is_managed a ancestor [] = ancestor_policy a.control ancestor none
is_managed a ancestor (name ∷ missing) =
    active_policy (a.control ancestor)
    >>= (λ active. if active then ok true else ancestor_policy a.control ancestor none)

unfoldable pub open_root :
    RootAnswers → (overlap : StaticStorageError) → Result StaticStorageError SitePath
open_root a overlap = do
  found ← from_io a.prefix
  managed ← is_managed a found.0 found.1
  ensure (not managed) overlap
  from_io a.created
  canonical ← from_io a.canonical
  from_io a.dir
  ok canonical

abbrev limit_eq : Option ℕ → Option ℕ → Bool
limit_eq none none = true
limit_eq none (some n) = false
limit_eq (some m) none = false
limit_eq (some m) (some n) = m == n

unfoldable pub limits_eq : StaticStorageLimits → StaticStorageLimits → Bool
limits_eq a b =
    limit_eq a.logical_file_bytes b.logical_file_bytes
    && limit_eq a.namespace_entries b.namespace_entries

-- What `Storage::open` remembers.
pub record Installed : Type 0 where
  pub generation : ℕ
  pub usage : Usage

-- The usage with a record that is still to be written.
abbrev pub with_record : Option Record → Usage → Result StaticStorageError Usage
with_record (some r) usage = ok usage
with_record none usage =
    add usage.bytes record_len >>= (λ bytes. ok (record usage { bytes = bytes }))

-- Whether a record that is there has these limits.
abbrev pub fits : StaticStorageLimits → Option Record → Bool
fits limits none = true
fits limits (some r) = limits_eq r.limits limits

-- A check before anything is written.
unfoldable pub check_install :
    StaticStorageLimits
    → Control
    → (inventory : Result StaticStorageError Usage)
    → Result StaticStorageError (Option Record × Usage)
check_install limits c inventory = do
  open_control c true
  lock_control c LockMode.exclusive false
  previous ← read_record c.contents
  ensure (fits limits previous) StaticStorageError.policy_mismatch
  scanned ← inventory
  usage ← with_record previous scanned
  check_limits usage limits
  ok (previous, usage)

-- `Storage::open` in the opened root: the contents of the control file afterwards, and the result.
-- `write` gives the contents after a write and its answer.
unfoldable pub install :
    StaticStorageLimits
    → Control
    → Result StaticStorageError Usage
    → (write : Bytes → Result IoError Bytes × Result IoError (Unit {0}))
    → Result IoError Bytes × Result StaticStorageError Installed
install limits c inventory write = elim (check_install limits c inventory) [
  | err e ↦ (c.contents, err e)
  | ok (some r, usage) ↦ (c.contents, ok (record { generation = r.generation; usage = usage }))
  | ok (none, usage) ↦
      let (after, answer) = write (encode limits) in
      (after, from_io answer >>= (λ _. ok (record { generation = 0; usage = usage })))
]

-- `match (storage, record)` of `coordinate`.
unfoldable pub lease : Option StaticStorageLimits → Option Record → Result StaticStorageError ℕ
lease (some limits) (some r) =
    if limits_eq r.limits limits then ok r.generation else err StaticStorageError.policy_mismatch
lease (some limits) none = err StaticStorageError.policy_mismatch
lease none (some r) = err StaticStorageError.binding_required
lease none none = ok 0

abbrev mode_of : Option StaticStorageLimits → LockMode
mode_of none = LockMode.shared
mode_of (some limits) = LockMode.exclusive

-- The root of a publication: a bound publisher's must be the one that was installed.
unfoldable pub publication_root :
    Option StaticStorageLimits
    → (same_root : Result IoError Bool) → RootAnswers
    → Result StaticStorageError (Unit {0})
publication_root (some limits) same_root a =
    from_io same_root >>= (λ same. ensure same StaticStorageError.unsupported_root)
publication_root none same_root a = open_root a StaticStorageError.binding_required >>= (λ _. ok tt)

unfoldable pub coordinate :
    Option StaticStorageLimits
    → (same_root : Result IoError Bool) → RootAnswers
    → Control
    → Result StaticStorageError ℕ
coordinate storage same_root a c = do
  publication_root storage same_root a
  open_control c true
  lock_control c (mode_of storage) true
  r ← read_record c.contents
  lease storage r
