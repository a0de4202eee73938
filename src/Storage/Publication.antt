-- ===== src/Storage/Publication.antt =====
-- src/static_routes/storage.rs: admission and commit of one publication. What
-- the publisher reads of the site and of its control file is an observation; a directory is the
-- list of its components, the innermost first.
pub mod Unmanaged
pub mod Peak
pub mod Laws
pub mod Processes
pub mod Validity
pub mod Coherence
use leptos_ntex.Base.{
  ℕ, zero, suc, ◌+◌, ◌==◌, ◌≡◌, if◌then◌else◌, Bool, true, false, not, Bytes, codes, Option, none,
  some, List, [], ◌∷◌, Result, ok, err, ◌>>=◌, ◌>>◌, ensure, map_err, checked_add, checked_sub,
}
use leptos_ntex.Io.{IoError, IoErrorKind, kind_eq}
use leptos_ntex.Storage.Errors.{StaticStorageLimits, StaticStorageError}
use leptos_ntex.Storage.Accounting.{Usage, add, check_limits}
use leptos_ntex.Storage.Inventory.{metadata_directory}
use leptos_ntex.Storage.Opening.{Control, SitePath, active_policy, ancestor_policy, from_io}

abbrev pub publication_lock_name : Bytes
publication_lock_name = codes ".leptos-static-publish.lock"

pub record Cached : Type 0 where
  pub generation : ℕ
  pub usage : Usage

-- `Storage::cached`: the inventory, if it is of this generation.
unfoldable pub cached_usage : Option Cached → ℕ → Option Usage
cached_usage none generation = none
cached_usage (some c) generation = if c.generation == generation then some c.usage else none

pub record Pending : Type 0 where
  pub total : Usage
  pub before : Usage
  pub created : Option Bytes

-- The generation on disk, the process's cache, and the publication guard's own state.
pub record Session : Type 0 where
  pub disk : ℕ
  pub cached : Option Cached
  pub generation : ℕ
  pub pending : Option Pending

-- The write of a generation: one that fails comes with the generation that it leaves in the record.
abbrev pub Written : Type 0
Written = Result (IoError × ℕ) (Unit {0})

-- What the filesystem answers while a publication is admitted: `SiteRoot::parent` at a directory,
-- the metadata of a name in the directory found, the two scans, the generation's write, and, for a
-- publisher without a policy, the directory's canonical path with the root's and the control files.
pub record Observed : Type 0 where
  pub probe : List Bytes → Result IoError (Unit {0})
  pub lookup : Bytes → Result IoError (Unit {0})
  pub inventory : Result StaticStorageError Usage
  pub local : Option Bytes → Result StaticStorageError Usage
  pub written : Written
  pub canonicalize : List Bytes → Result IoError SitePath
  pub root : SitePath
  pub control : SitePath → Control

-- The existing parent, how many parents are missing, and the outermost missing one.
pub record Destination : Type 0 where
  pub parent : List Bytes
  pub missing : ℕ
  pub created : Option Bytes

-- The loop of `admit`: walks up while the directory is not found.
unfoldable pub find_parent :
    (List Bytes → Result IoError (Unit {0}))
    → List Bytes
    → ℕ
    → Option Bytes
    → Result StaticStorageError Destination
find_parent probe [] missing created = elim (probe []) [
  | ok _ ↦ ok (record { parent = []; missing = missing; created = created })
  | err e ↦
      if kind_eq e.kind IoErrorKind.not_found
      then add missing 1 >>= (λ _. err (StaticStorageError.io e))
      else err (StaticStorageError.io e)
]
find_parent probe (name ∷ parent) missing created = elim (probe (name ∷ parent)) [
  | ok _ ↦ ok (record { parent = name ∷ parent; missing = missing; created = created })
  | err e ↦
      if kind_eq e.kind IoErrorKind.not_found
      then add missing 1 >>= (λ m. find_parent probe parent m (some name))
      else err (StaticStorageError.io e)
]

unfoldable pub missing_entry : Result IoError (Unit {0}) → Result StaticStorageError ℕ
missing_entry (ok _) = ok 0
missing_entry (err e) =
    if kind_eq e.kind IoErrorKind.not_found then ok 1 else err (StaticStorageError.io e)

-- In an existing directory: the locks and the metadata directory, where they are missing.
unfoldable pub missing_names : Observed → Bytes → ℕ → Result StaticStorageError ℕ
missing_names o lock_name entries = do
  a ← missing_entry (o.lookup lock_name)
  with_lock ← add entries a
  b ← missing_entry (o.lookup publication_lock_name)
  with_publication ← add with_lock b
  c ← missing_entry (o.lookup metadata_directory)
  add with_publication c

-- The entries that a publication may create: the parents, two staged files, and what its directory
-- lacks.
unfoldable pub needed_entries : Observed → Bytes → Destination → Result StaticStorageError ℕ
unfolding missing_names
needed_entries o lock_name d = do
  entries ← add d.missing 2
  if d.missing == 0 then missing_names o lock_name entries else add entries 3

-- The publication's peak, checked against the limits.
unfoldable pub peak :
    StaticStorageLimits
    → Observed
    → Bytes
    → Destination
    → Usage
    → (html metadata : ℕ) → Result StaticStorageError Usage
peak limits o lock_name d total html metadata = do
  with_html ← add total.bytes html
  bytes ← add with_html metadata
  needed ← needed_entries o lock_name d
  entries ← add total.entries needed
  let usage : Usage = record { bytes = bytes; entries = entries }
  check_limits usage limits
  o.local d.created

-- The inventory of this generation, scanned and remembered where the cache does not hold it.
unfoldable pub total_usage : Session → Observed → Session × Result StaticStorageError Usage
total_usage s o = elim (cached_usage s.cached s.generation) [
  | some usage ↦ (s, ok usage)
  | none ↦ elim o.inventory [
    | err e ↦ (s, err e)
    | ok usage ↦
        (record s { cached = some (record { generation = s.generation; usage = usage }) }, ok usage)
  ]
]

-- `bump`: the next generation, on disk and in the guard.
unfoldable pub bump : Session → Written → Session × Result StaticStorageError (Unit {0})
bump s written = elim (add s.generation 1) [
  | err e ↦ (s, err e)
  | ok next ↦ elim written [
    | err (e, left) ↦ (record s { disk = left }, err (StaticStorageError.io e))
    | ok _ ↦ (record s { disk = next; generation = next }, ok tt)
  ]
]

-- The rest of `admit`, once the generation is announced.
unfoldable pub announce :
    Session
    → Observed
    → Destination
    → Usage
    → Usage
    → Session × Result StaticStorageError (Unit {0})
announce s o d total before =
    let (s', r) = bump s o.written in
    let started : Pending = record { total = total; before = before; created = d.created } in
    elim r [ err e ↦ (s', err e) | ok _ ↦ (record s' { pending = some started }, ok tt) ]

-- The rest of `admit`, once the inventory is known.
unfoldable pub admit_total :
    StaticStorageLimits
    → Observed
    → (lock_name : Bytes) → Destination
    → (html metadata : ℕ) → Session
    → Result StaticStorageError Usage
    → Session × Result StaticStorageError (Unit {0})
admit_total limits o lock_name d html metadata s (err e) = (s, err e)
admit_total limits o lock_name d html metadata s (ok total) =
    elim (peak limits o lock_name d total html metadata) [
      | err e ↦ (s, err e)
      | ok before ↦ announce s o d total before
    ]

-- A publisher without a policy only looks for one at its destination and above, inside the root.
unfoldable pub check_unmanaged : Observed → Destination → Result StaticStorageError (Unit {0})
check_unmanaged o d = do
  canonical ← from_io (o.canonicalize d.parent)
  here ← active_policy (o.control canonical)
  managed ← if here then ok true else ancestor_policy o.control canonical (some o.root)
  ensure (not managed) StaticStorageError.binding_required

-- The rest of `admit`, once the destination is found; `none` is a publisher without a policy.
unfoldable pub admit_found :
    Option StaticStorageLimits
    → Session
    → Observed
    → (lock_name : Bytes) (html metadata : ℕ) → Destination
    → Session × Result StaticStorageError (Unit {0})
unfolding check_unmanaged
admit_found none s o lock_name html metadata d = (s, check_unmanaged o d)
admit_found (some limits) s o lock_name html metadata d =
    let (s', total) = total_usage s o in admit_total limits o lock_name d html metadata s' total

unfoldable pub admit :
    (storage : Option StaticStorageLimits)
    → Session
    → Observed
    → (lock_name : Bytes) (parent : List Bytes) → (html metadata : ℕ)
    → Session × Result StaticStorageError (Unit {0})
unfolding admit_found
admit storage s o lock_name parent html metadata = elim (find_parent o.probe parent 0 none) [
  | err e ↦ (s, err e)
  | ok d ↦ admit_found storage s o lock_name html metadata d
]

-- `total - before + after`, where it exists.
unfoldable pub shift : ℕ → ℕ → ℕ → Option ℕ
unfolding checked_sub checked_add
shift total before after = elim (checked_sub total before) [
  | none ↦ none
  | some rest ↦ checked_add rest after
]

unfoldable pub updated_usage : Pending → Result StaticStorageError Usage → Option Usage
unfolding shift
updated_usage p (err e) = none
updated_usage p (ok after) = elim (shift p.total.bytes p.before.bytes after.bytes) [
  | none ↦ none
  | some b ↦ elim (shift p.total.entries p.before.entries after.entries) [
    | none ↦ none
    | some n ↦ some (record { bytes = b; entries = n })
  ]
]

-- The cache after a commit: of the guard's new generation, if the usage and the write are known.
unfoldable pub committed : Option Usage → Session × Result StaticStorageError (Unit {0}) → Session
committed (some usage) (s, ok _) = record s {
  cached = some (record { generation = s.generation; usage = usage });
}
committed _ (s, r) = record s { cached = none }

-- Without a policy nothing is pending.
unfoldable pub commit :
    Session → (Option Bytes → Result StaticStorageError Usage) → Written → Session
unfolding committed
commit s after written = elim s.pending [
  | none ↦ s
  | some p ↦
      committed (updated_usage p (after p.created)) (bump (record s { pending = none }) written)
]
