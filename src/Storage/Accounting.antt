-- ===== src/Storage/Accounting.antt =====
-- src/static_routes/storage.rs: checked usage sums, and the configured bounds.
use leptos_ntex.Base.{
  ℕ, ◌+◌, ◌≤◌, ◌<◌, ltb, if◌then◌else◌, ◌≡◌, refl, ◌↔◌, ◌⊎◌, inl, Bool, not, Option, none, some,
  Result, ok, err, ◌>>=◌, ◌>>◌, ensure, ok_or, checked_add, u64_max, arith,
}
use leptos_ntex.Storage.Errors.{StaticStorageLimits, StaticStorageError, StorageResource}

pub record Usage : Type 0 where
  pub bytes : ℕ
  pub entries : ℕ

abbrev pub no_usage : Usage
no_usage = record { bytes = 0; entries = 0 }

unfoldable pub add : ℕ → ℕ → Result StaticStorageError ℕ
unfolding checked_add
add a b = ok_or (checked_add a b) StaticStorageError.overflow

-- One round of the loop of `check_limits`.
unfoldable pub check_one : StorageResource → ℕ → Option ℕ → Result StaticStorageError (Unit {0})
check_one resource required none = ok tt
check_one resource required (some limit) =
    ensure (not (ltb limit required)) (StaticStorageError.limit_exceeded resource limit required)

unfoldable pub check_limits : Usage → StaticStorageLimits → Result StaticStorageError (Unit {0})
unfolding check_one
check_limits usage limits = do
  check_one StorageResource.logical_bytes usage.bytes limits.logical_file_bytes
  check_one StorageResource.entries usage.entries limits.namespace_entries

-- What a directory entry's metadata says: whether it is a regular file, and its length.
pub record Metadata : Type 0 where
  pub is_file : Bool
  pub len : ℕ

unfoldable pub charge : Usage → Metadata → Result StaticStorageError Usage
unfolding add
charge usage metadata = do
  entries ← add usage.entries 1
  bytes ← if metadata.is_file then add usage.bytes metadata.len else ok usage.bytes
  ok (record { bytes = bytes; entries = entries })

-- A configured bound that a number keeps.
abbrev pub Within : Option ℕ → ℕ → Type 0
Within none n = Unit {0}
Within (some limit) n = n ≤ limit

pub add_iff : (a b c : ℕ) → (add a b ≡ ok c) ↔ ((c ≡ a + b) × (a + b ≤ u64_max))
unfolding add
add_iff a b c = ground arith

pub add_overflow : (a b : ℕ) (e : StaticStorageError) → add a b ≡ err e → u64_max < a + b
unfolding add
add_overflow a b e h = ground arith

check_one-cases :
    (r : StorageResource) (n : ℕ) (l : Option ℕ)
    → (Within l n × (check_one r n l ≡ ok tt))
      ⊎ ((limit : ℕ) × (l ≡ some limit)
          × (limit < n)
          × (check_one r n l ≡ err (StaticStorageError.limit_exceeded r limit n)))
unfolding check_one
check_one-cases r n none = inl (tt, refl)
check_one-cases r n (some limit) = ground arith

-- A usage is admitted exactly when it keeps both bounds; a refusal names a bound that is really
-- exceeded, with its limit and the amount that was required, bytes before entries.
pub check_limits_lem :
    (u : Usage) (l : StaticStorageLimits)
    → (Within l.logical_file_bytes u.bytes
        × Within l.namespace_entries u.entries
        × (check_limits u l ≡ ok tt))
      ⊎ ((limit : ℕ) × (l.logical_file_bytes ≡ some limit)
          × (limit < u.bytes)
          × (check_limits u l
              ≡ err
                  (StaticStorageError.limit_exceeded StorageResource.logical_bytes limit u.bytes)))
      ⊎ ((limit : ℕ) × Within l.logical_file_bytes u.bytes
          × (l.namespace_entries ≡ some limit)
          × (limit < u.entries)
          × (check_limits u l
              ≡ err (StaticStorageError.limit_exceeded StorageResource.entries limit u.entries)))
unfolding check_limits
check_limits_lem u l = ground (
  arith,
  check_one-cases StorageResource.logical_bytes u.bytes l.logical_file_bytes,
  check_one-cases StorageResource.entries u.entries l.namespace_entries,
)
