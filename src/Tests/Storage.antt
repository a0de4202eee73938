-- ===== src/Tests/Storage.antt =====
-- src/static_routes/storage.rs on concrete inputs.
use leptos_ntex.Base.{
  ℕ, ◌≤◌, ◌<◌, ◌+◌, ltb, ◌≡◌, refl, ◌↔◌, ◌⊎◌, true, false, Bytes, codes, bytes_eq, Option, none,
  some, List, [], ◌∷◌, ◌++◌, all, All, u64_max, checked_add, checked_sub, Result, ok, err, arith,
}
use leptos_ntex.Io.{IoError, IoErrorKind, kind_eq, plain}
use leptos_ntex.Storage.Errors.{
  StaticStorageLimits, no_limits, with_logical_file_bytes, with_namespace_entries, StorageResource,
  StaticStorageError,
}
use leptos_ntex.Storage.Record.{
  Record, encode, write_generation, decode, record_of, to_le_bytes, from_le_bytes, zeros, write_at,
  slice, at, read_record,
}
use leptos_ntex.Storage.Record.Laws.{decode-encode, decode-eq-ok}
use leptos_ntex.Storage.Accounting.{
  Usage, add, check_one, check_limits, check_limits_lem, charge, Within,
}
use leptos_ntex.Storage.Inventory.{
  Entries, nil, cons, file, other, dir, visit, inventory_from, size_entries, size, inventory,
}
use leptos_ntex.Storage.Inventory.Laws.{inventory_iff, OpenIn, bytes_in, count_in}
use leptos_ntex.Storage.Opening.{
  EntryAnswers, Control, Installed, install, check_install, open_control, lock_control,
  open_lock_entry, checked_lock_file, acquire, active_policy, ancestor_policy, is_not_found,
  path_eq,
}
use leptos_ntex.Storage.Publication.{
  cached_usage, Session, Observed, Destination, find_parent, missing_entry, missing_names,
  needed_entries, peak, total_usage, bump, announce, admit_total, admit, admit_found,
  check_unmanaged, shift, updated_usage, committed, commit,
}
use leptos_ntex.Storage.Publication.Coherence.{Reach-IsCoherent, admit-Within}
use leptos_ntex.Storage.Publication.Processes.{
  Site, session, put, Step, publishes, here, next, installed, Starts, installs,
}

abbrev limits : StaticStorageLimits
limits = record { logical_file_bytes = some 1000; namespace_entries = some 50 }

limits_test : with_namespace_entries (with_logical_file_bytes no_limits 1000) 50 ≡ limits
unfolding with_namespace_entries with_logical_file_bytes no_limits
limits_test = refl

abbrev io_error : StaticStorageError
io_error = StaticStorageError.io (plain IoErrorKind.not_found)

abbrev seven : Record
seven = record {
  limits = record { logical_file_bytes = some 1000; namespace_entries = none };
  generation = 7;
}

abbrev seven_bytes : Bytes
seven_bytes =
    76 ∷ 78 ∷ 84 ∷ 88 ∷ 83 ∷ 84 ∷ 48 ∷ 50 ∷ 1 ∷ 0 ∷ 0 ∷ 0 ∷ 0 ∷ 0 ∷ 0 ∷ 0 ∷ 232 ∷ 3 ∷ 0 ∷ 0 ∷ 0 ∷ 0
    ∷ 0 ∷ 0 ∷ 0 ∷ 0 ∷ 0 ∷ 0 ∷ 0 ∷ 0 ∷ 0 ∷ 0 ∷ 7 ∷ 0 ∷ 0 ∷ 0 ∷ 0 ∷ 0 ∷ 0 ∷ 0 ∷ []

encode_test : write_generation 7 (encode seven.limits) ≡ seven_bytes
unfolding write_generation encode write_at zeros to_le_bytes
encode_test = refl

decode_test : decode seven_bytes ≡ ok seven
unfolding decode record_of slice at from_le_bytes bytes_eq zeros
decode_test = refl

decode-encode_example : decode (write_generation 7 (encode seven.limits)) ≡ ok seven
decode-encode_example = decode-encode seven (ground arith) (ground arith) (ground arith)

small_bytes : (bs : Bytes) → all (λ b. ltb b 256) bs ≡ true → All (λ b. b < 256) bs
small_bytes [] h = tt
small_bytes (b ∷ bs) h = (ground arith, small_bytes bs (ground arith))

decode-eq-ok_example : seven_bytes ≡ write_generation 7 (encode seven.limits)
decode-eq-ok_example = decode-eq-ok seven_bytes seven (small_bytes seven_bytes refl) decode_test

abbrev used : Usage
used = record { bytes = 100; entries = 3 }

check_limits_lem_example :
    (Within (some 1000) 100 × Within (some 50) 3 × (check_limits used limits ≡ ok tt))
    ⊎ ((limit : ℕ) × (some 1000 ≡ some limit)
        × (limit < 100)
        × (check_limits used limits
            ≡ err (StaticStorageError.limit_exceeded StorageResource.logical_bytes limit 100)))
    ⊎ ((limit : ℕ) × Within (some 1000) 100
        × (some 50 ≡ some limit)
        × (limit < 3)
        × (check_limits used limits
            ≡ err (StaticStorageError.limit_exceeded StorageResource.entries limit 3)))
check_limits_lem_example = check_limits_lem used limits

-- A page, an empty file in a directory, and a link.
abbrev tree : Entries
tree = cons (codes "index.html") (file 100) (
    cons (codes "blog") (dir (ok false) (cons (codes "a") (file 0) nil))
      (cons (codes "l") other nil))

inventory_test : inventory tree ≡ some (ok (record { bytes = 100; entries = 4 }))
unfolding inventory inventory_from visit size_entries size charge add checked_add
inventory_test = refl

inventory_iff_example :
    ((r : Result StaticStorageError Usage) × (inventory tree ≡ some r))
    × ((u : Usage)
        → (inventory tree ≡ some (ok u)) ↔ (
            OpenIn tree
            × (u ≡ record { bytes = bytes_in tree; entries = count_in tree })
            × (bytes_in tree ≤ u64_max)
            × (count_in tree ≤ u64_max)))
inventory_iff_example = inventory_iff tree

abbrev private_entry : EntryAnswers
private_entry = record {
  created = ok tt;
  is_regular_entry = ok true;
  opened = ok tt;
  metadata = ok (record { is_file = true; nlink = 1 });
}

-- A control file that can be opened and locked.
abbrev control : Bytes → Control
control bytes = record { entry = private_entry; lock = λ mode wait. ok tt; contents = ok bytes }

abbrev no_control : Control
no_control = record (control []) {
  entry = record private_entry { is_regular_entry = err (plain IoErrorKind.not_found) };
}

abbrev write : Bytes → Result IoError Bytes × Result IoError (Unit {0})
write bytes = (ok bytes, ok tt)

-- The usage with the record.
abbrev recorded : Usage
recorded = record { bytes = 140; entries = 3 }

abbrev opened : Installed
opened = record { generation = 0; usage = recorded }

install_test : (install limits (control []) (ok used) write).1 ≡ ok opened
unfolding install check_install open_control lock_control open_lock_entry checked_lock_file acquire
    read_record add checked_add check_limits check_one
install_test = refl

empty_test : read_record (control []).contents ≡ ok none
unfolding read_record
empty_test = refl

abbrev root : List Bytes
root = codes "site" ∷ []

-- A directory that is there, with its locks; the publication changes 40 bytes of it to 70.
abbrev observed : Observed
observed = record {
  probe = λ d. ok tt;
  lookup = λ n. ok tt;
  inventory = ok recorded;
  local = λ c. ok (record { bytes = 40; entries = 2 });
  written = ok tt;
  canonicalize = λ d. ok (d ++ root);
  root = root;
  control = λ d. no_control;
}

abbrev afterwards : Option Bytes → Result StaticStorageError Usage
afterwards c = ok (record { bytes = 70; entries = 4 })

abbrev published : Usage
published = record { bytes = 170; entries = 5 }

abbrev site : Site
site = installed 0 used opened

start : Starts limits site
start = installs 0 (control []) (ok used) write used opened (λ v e. cc) empty_test install_test

abbrev parent : List Bytes
parent = codes "blog" ∷ []

abbrev lock : Bytes
lock = codes ".lock"

abbrev admitted : Session
admitted = record {
  disk = 1;
  cached = some (record { generation = 0; usage = recorded });
  generation = 1;
  pending =
      some
        (record { total = recorded; before = record { bytes = 40; entries = 2 }; created = none });
}

admit_test : admit (some limits) (session site 0) observed lock parent 20 10 ≡ (admitted, ok tt)
unfolding admit admit_found find_parent total_usage cached_usage admit_total peak needed_entries
    missing_names missing_entry add checked_add check_limits check_one announce bump kind_eq put
admit_test = refl

-- Without a policy, a control file at the destination decides.
unmanaged_test :
    (admit none (session site 0) observed lock parent 20 10 ≡ (session site 0, ok tt))
    × (admit none
          (session site 0)
          (record observed { control = λ d. control (encode limits) })
          lock
          parent
          20
          10
        ≡ (session site 0, err StaticStorageError.binding_required))
unfolding admit admit_found check_unmanaged find_parent active_policy ancestor_policy
    open_lock_entry is_not_found kind_eq checked_lock_file lock_control acquire path_eq bytes_eq
    read_record decode record_of encode write_at zeros to_le_bytes slice at from_le_bytes
unmanaged_test = (refl, refl)

publication : Step limits site (record {
  generation = (commit admitted afterwards (ok tt)).disk;
  usage = published;
  caches = put 0 (commit admitted afterwards (ok tt)).cached site.caches;
})
publication =
    publishes 0 observed lock parent 20 10 admitted
      (record { total = recorded; before = record { bytes = 40; entries = 2 }; created = none })
      afterwards (ok tt) published (λ u e. cc) admit_test refl (λ e left h. absurd (cc))
      (λ a e. ground (arith, e))

Reach-IsCoherent_example : published ≡ published
unfolding put commit committed updated_usage shift bump add checked_add checked_sub
Reach-IsCoherent_example =
    Reach-IsCoherent (next (here start) publication) 0
      (record { generation = 2; usage = published }) refl refl

admit-Within_example :
    (170 ≤ 1000)
    × ((d : Destination) × (needed : ℕ) × (find_parent observed.probe parent 0 none ≡ ok d)
        × (needed_entries observed lock d ≡ ok needed)
        × (3 + needed ≤ 50))
    × (admitted.disk ≡ site.generation + 1)
admit-Within_example =
    admit-Within 0 observed lock parent 20 10 admitted (here start) (λ u e. cc) admit_test
