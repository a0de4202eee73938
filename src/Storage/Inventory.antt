-- ===== src/Storage/Inventory.antt =====
-- src/static_routes/storage.rs: the inventory of a site, over what its directories list. A
-- directory carries the outcome of opening it and of probing it for a policy record, and an entry
-- whose listing or metadata fails is a failure.
pub mod Walk
pub mod Laws
use leptos_ntex.Base.{
  ℕ, zero, suc, ◌+◌, ◌≡◌, if◌then◌else◌, Bool, true, false, ◌||◌, Bytes, codes, bytes_eq, Option,
  none, some, List, [], ◌∷◌, Result, ok, err, ◌>>=◌, map_err,
}
use leptos_ntex.Io.{IoError}
use leptos_ntex.Storage.Errors.{StaticStorageError}
use leptos_ntex.Storage.Accounting.{Usage, no_usage, Metadata, charge, add}

mutual
  pub data Node : Type 0 where
    file : (len : ℕ) → Node
    other : Node
    dir : (managed : Result StaticStorageError Bool) → Entries → Node
    failed : IoError → Node

  pub data Entries : Type 0 where
    nil : Entries
    cons : (name : Bytes) → Node → Entries → Entries

abbrev pub regular : ℕ → Metadata
regular n = record { is_file = true; len = n }

abbrev pub irregular : Metadata
irregular = record { is_file = false; len = 0 }

-- One entry: the usage with it, and the directory that is entered next.
unfoldable pub visit : Usage → Node → Result StaticStorageError (Usage × Option Entries)
visit u (failed e) = err (StaticStorageError.io e)
visit u (file n) = charge u (regular n) >>= λ v. ok (v, none)
visit u other = charge u irregular >>= λ v. ok (v, none)
visit u (dir managed es) = do
  v ← charge u irregular
  found ← managed
  if found then err StaticStorageError.unsupported_root else ok (v, some es)

-- The loop over the stack of open directories; `none` is that the fuel ran out.
unfoldable pub inventory_from : ℕ → Usage → List Entries → Option (Result StaticStorageError Usage)
unfolding visit
inventory_from zero u stack = none
inventory_from (suc f) u [] = some (ok u)
inventory_from (suc f) u (nil ∷ rest) = inventory_from f u rest
inventory_from (suc f) u (cons name node more ∷ rest) = elim (visit u node) [
  | err e ↦ some (err e)
  | ok (v, none) ↦ inventory_from f v (more ∷ rest)
  | ok (v, some es) ↦ inventory_from f v (es ∷ more ∷ rest)
]

unfoldable mutual
  pub size : Node → ℕ
  size (dir managed es) = size_entries es
  size _ = 0

  pub size_entries : Entries → ℕ
  size_entries nil = 1
  size_entries (cons name node more) = suc (size node + size_entries more)

unfoldable pub inventory : Entries → Option (Result StaticStorageError Usage)
unfolding inventory_from
inventory es = inventory_from (suc (size_entries es)) no_usage (es ∷ [])

abbrev pub metadata_directory : Bytes
metadata_directory = codes ".leptos-static-metadata"

-- `name == METADATA_DIRECTORY || Some(&*name) == created`.
unfoldable pub touched : Bytes → Option Bytes → Bool
unfolding bytes_eq
touched name none = bytes_eq name metadata_directory
touched name (some created) = bytes_eq name metadata_directory || bytes_eq name created

-- `none` cannot be, since the inventory always ends.
abbrev ended : Option (Result StaticStorageError Usage) → Result StaticStorageError Usage
ended none = err StaticStorageError.overflow
ended (some r) = r

-- A touched directory's own inventory, added to the usage.
unfoldable pub nested_usage : Usage → Entries → Result StaticStorageError Usage
nested_usage u es = do
  nested ← ended (inventory es)
  b ← add u.bytes nested.bytes
  n ← add u.entries nested.entries
  ok (record { bytes = b; entries = n })

-- The loop of `local_usage`: the direct children, and everything below the touched directories, which
-- are opened and listed first; `opened` answers for both.
unfoldable pub local_usage_from :
    (opened : Bytes → Result IoError (Unit {0}))
    → Option Bytes
    → Usage
    → Entries
    → Result StaticStorageError Usage
unfolding touched
local_usage_from opened created u nil = ok u
local_usage_from opened created u (cons name (failed e) more) = err (StaticStorageError.io e)
local_usage_from opened created u (cons name (file n) more) =
    charge u (regular n) >>= λ v. local_usage_from opened created v more
local_usage_from opened created u (cons name other more) =
    charge u irregular >>= λ v. local_usage_from opened created v more
local_usage_from opened created u (cons name (dir managed es) more) = do
  v ← charge u irregular
  w ←
      if touched name created
      then map_err StaticStorageError.io (opened name) >>= (λ _. nested_usage v es)
      else ok v
  local_usage_from opened created w more

-- `local_usage`, from the listing of the directory.
unfoldable pub local_usage :
    (listing : Result IoError Entries)
    → (opened : Bytes → Result IoError (Unit {0})) → Option Bytes
    → Result StaticStorageError Usage
unfolding local_usage_from
local_usage listing opened created =
    map_err StaticStorageError.io listing >>= (λ es. local_usage_from opened created no_usage es)
