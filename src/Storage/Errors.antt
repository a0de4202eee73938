-- ===== src/Storage/Errors.antt =====
-- src/static_routes/storage.rs: the configured limits, and the errors of storage admission.
use leptos_ntex.Base.{
  ℕ, Bool, true, false, ◌&&◌, ◌==◌, ◌≡◌, ◌↔◌, bytes_eq, bytes_eq_iff, Option, none, some, arith,
}
use leptos_ntex.Io.{IoError, kind_eq, kind_eq_iff}

pub record StaticStorageLimits : Type 0 where
  pub logical_file_bytes : Option ℕ
  pub namespace_entries : Option ℕ

unfoldable pub no_limits : StaticStorageLimits
no_limits = record { logical_file_bytes = none; namespace_entries = none }

unfoldable pub with_logical_file_bytes : StaticStorageLimits → ℕ → StaticStorageLimits
with_logical_file_bytes l maximum = record l { logical_file_bytes = some maximum }

unfoldable pub with_namespace_entries : StaticStorageLimits → ℕ → StaticStorageLimits
with_namespace_entries l maximum = record l { namespace_entries = some maximum }

-- The two bounded resources, which the source names by a text.
pub data StorageResource : Type 0 where
  logical_bytes entries : StorageResource

pub data StaticStorageError : Type 0 where
  busy : StaticStorageError
  limit_exceeded : (resource : StorageResource) (limit required : ℕ) → StaticStorageError
  policy_mismatch binding_required invalid_policy : StaticStorageError
  unsupported_root unsupported_platform : StaticStorageError
  io : IoError → StaticStorageError
  overflow : StaticStorageError

-- A capacity condition that later work can clear.
unfoldable pub is_capacity : StaticStorageError → Bool
is_capacity StaticStorageError.busy = true
is_capacity (StaticStorageError.limit_exceeded r l n) = true
is_capacity _ = false

abbrev resource_eq : StorageResource → StorageResource → Bool
resource_eq StorageResource.logical_bytes StorageResource.logical_bytes = true
resource_eq StorageResource.entries StorageResource.entries = true
resource_eq _ _ = false

-- The source's `PartialEq`: I/O errors are compared by kind and message.
unfoldable pub error_eq : StaticStorageError → StaticStorageError → Bool
unfolding kind_eq
error_eq (StaticStorageError.io a) (StaticStorageError.io b) =
    kind_eq a.kind b.kind && bytes_eq a.message b.message
error_eq (StaticStorageError.limit_exceeded a b c) (StaticStorageError.limit_exceeded x y z) =
    resource_eq a x && b == y && c == z
error_eq StaticStorageError.busy StaticStorageError.busy = true
error_eq StaticStorageError.policy_mismatch StaticStorageError.policy_mismatch = true
error_eq StaticStorageError.binding_required StaticStorageError.binding_required = true
error_eq StaticStorageError.invalid_policy StaticStorageError.invalid_policy = true
error_eq StaticStorageError.unsupported_root StaticStorageError.unsupported_root = true
error_eq StaticStorageError.unsupported_platform StaticStorageError.unsupported_platform = true
error_eq StaticStorageError.overflow StaticStorageError.overflow = true
error_eq _ _ = false

error_eq-io :
    (a b : IoError)
    → (error_eq (StaticStorageError.io a) (StaticStorageError.io b) ≡ true)
      ↔ (StaticStorageError.io a ≡ StaticStorageError.io b)
unfolding error_eq kind_eq
error_eq-io a b = ground (arith, kind_eq_iff a.kind b.kind, bytes_eq_iff a.message b.message)

-- The comparison of storage errors holds exactly for equal errors.
pub error_eq_iff : (a b : StaticStorageError) → (error_eq a b ≡ true) ↔ (a ≡ b)
unfolding error_eq
error_eq_iff (StaticStorageError.io a) (StaticStorageError.io b) = error_eq-io a b
error_eq_iff a b = ground arith
