-- ===== src/Tests/Opening.antt =====
-- Installing a policy in a root, and publishing there, on concrete inputs.
use leptos_ntex.Base.{
  ◌<◌, all, ltb, ◌≡◌, refl, arith, if◌then◌else◌, true, Bytes, codes, none, some, [], ◌∷◌, All,
  Result, ok, err, checked_add,
}
use leptos_ntex.Io.{IoError, IoErrorKind, kind_eq, plain}
use leptos_ntex.Storage.Errors.{StaticStorageLimits, StaticStorageError}
use leptos_ntex.Storage.Record.{encode, read_record, write_generation, write_at, zeros, to_le_bytes}
use leptos_ntex.Storage.Accounting.{Usage, add, check_limits, check_one}
use leptos_ntex.Storage.Opening.{
  EntryAnswers, EntryMetadata, open_lock_entry, checked_lock_file, Control, open_control,
  lock_control, acquire, is_not_found, active_policy, SitePath, ancestor_policy, RootAnswers,
  is_managed, open_root, Installed, install, check_install, limits_eq, publication_root, coordinate,
}
use leptos_ntex.Storage.Opening.Later.{Later, bumped, coordinate-install}
use leptos_ntex.Storage.Opening.Entries.{open_lock_entry_private}

abbrev private_entry : EntryAnswers
private_entry = record {
  created = ok tt;
  is_regular_entry = ok true;
  opened = ok tt;
  metadata = ok (record { is_file = true; nlink = 1 });
}

abbrev no_entry : EntryAnswers
no_entry = record private_entry { is_regular_entry = err (plain IoErrorKind.not_found) }

abbrev with_contents : Bytes → Control
with_contents bytes = record {
  entry = private_entry;
  lock = λ mode wait. ok tt;
  contents = ok bytes;
}

abbrev without_policy : Control
without_policy = record { entry = no_entry; lock = λ mode wait. ok tt; contents = ok [] }

open_lock_entry_private_example :
    (m : EntryMetadata) × (private_entry.metadata ≡ ok m) × (m.is_file ≡ true) × (m.nlink ≡ 1)
unfolding open_lock_entry checked_lock_file
open_lock_entry_private_example = open_lock_entry_private private_entry true refl

abbrev site : SitePath
site = codes "site" ∷ codes "srv" ∷ []

abbrev answers : RootAnswers
answers = record {
  prefix = ok (codes "srv" ∷ [], codes "site" ∷ []);
  control = λ path. without_policy;
  created = ok tt;
  canonical = ok site;
  dir = ok tt;
}

open_root_test :
    (open_root answers StaticStorageError.unsupported_root ≡ ok site)
    × (open_root
          (record answers { control = λ path. with_contents (codes "other") })
          StaticStorageError.unsupported_root
        ≡ err StaticStorageError.invalid_policy)
unfolding open_root is_managed active_policy ancestor_policy open_lock_entry is_not_found kind_eq
    checked_lock_file lock_control acquire read_record
open_root_test = (refl, refl)

abbrev limits : StaticStorageLimits
limits = record { logical_file_bytes = some 1000; namespace_entries = none }

abbrev write : Bytes → Result IoError Bytes × Result IoError (Unit {0})
write bytes = (ok bytes, ok tt)

abbrev inventory : Result StaticStorageError Usage
inventory = ok (record { bytes = 10; entries = 2 })

small_bytes : (bs : Bytes) → all (λ b. ltb b 256) bs ≡ true → All (λ b. b < 256) bs
small_bytes [] h = tt
small_bytes (b ∷ bs) h = (ground arith, small_bytes bs (ground arith))

small_test : all (λ b. ltb b 256) (encode limits) ≡ true
unfolding encode write_at zeros to_le_bytes
small_test = refl

abbrev installed : Installed
installed = record { generation = 0; usage = record { bytes = 50; entries = 2 } }

install_test : (install limits (with_contents []) inventory write).1 ≡ ok installed
unfolding install check_install open_control lock_control open_lock_entry checked_lock_file acquire
    read_record add checked_add check_limits check_one
install_test = refl

encode_test : (install limits (with_contents []) inventory write).0 ≡ ok (encode limits)
unfolding install check_install open_control lock_control open_lock_entry checked_lock_file acquire
    read_record add checked_add check_limits check_one
encode_test = refl

-- Two publications later.
abbrev later : Bytes
later = write_generation 4 (write_generation 2 (encode limits))

coordinate-install_example :
    coordinate (some limits) (ok true) answers (with_contents later)
    ≡ (if limits_eq limits limits then ok 4 else err StaticStorageError.policy_mismatch)
unfolding publication_root open_control lock_control open_lock_entry checked_lock_file acquire
coordinate-install_example =
    coordinate-install limits (omega arith) (omega arith) (with_contents []) inventory write
      installed (encode limits) later 4 (some limits) (ok true) answers (with_contents later)
      (λ bs h. refl) install_test encode_test (small_bytes (encode limits) small_test)
      (bumped (bumped Later.installed 2 (omega arith)) 4 (omega arith)) refl refl refl refl
