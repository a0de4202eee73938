-- ===== src/Storage/Record.antt =====
-- src/static_routes/storage.rs: the persistent control record of 40 bytes: magic, two flags, six
-- zero bytes, two limits and a generation, each number in eight little-endian bytes.
pub mod Laws
use leptos_ntex.Base.{
  ℕ, zero, suc, ◌+◌, ◌-◌, ◌*◌, ◌/◌, ◌%◌, ◌==◌, ltb, if◌then◌else◌, Bool, true, false, not, ◌&&◌,
  ◌||◌, Bytes, codes, bytes_eq, Option, none, some, List, [], ◌∷◌, ◌++◌, length, take, drop,
  is_some, unwrap_or, Result, ok, err, ◌>>=◌, ◌>>◌, ensure,
}
use leptos_ntex.Io.{IoError}
use leptos_ntex.Storage.Errors.{StaticStorageLimits, StaticStorageError}

abbrev pub record_len : ℕ
record_len = 40

abbrev pub generation_offset : ℕ
generation_offset = 32

abbrev pub magic : Bytes
magic = codes "LNTXST02"

pub record Record : Type 0 where
  pub limits : StaticStorageLimits
  pub generation : ℕ

-- `to_le_bytes` and `from_le_bytes` at a width in bytes.
unfoldable pub to_le_bytes : ℕ → ℕ → Bytes
to_le_bytes zero n = []
to_le_bytes (suc k) n = n % 256 ∷ to_le_bytes k (n / 256)

unfoldable pub from_le_bytes : Bytes → ℕ
from_le_bytes [] = 0
from_le_bytes (b ∷ bs) = b + 256 * from_le_bytes bs

unfoldable pub zeros : ℕ → Bytes
zeros zero = []
zeros (suc k) = 0 ∷ zeros k

-- `bytes[offset..][..src.len()].copy_from_slice(src)`, also the file write at an offset.
unfoldable pub write_at : ℕ → Bytes → Bytes → Bytes
write_at (suc k) src (b ∷ bs) = b ∷ write_at k src bs
write_at (suc k) src [] = []
write_at zero [] bs = bs
write_at zero (c ∷ cs) (b ∷ bs) = c ∷ write_at zero cs bs
write_at zero (c ∷ cs) [] = []

abbrev flag : Option ℕ → ℕ
flag none = 0
flag (some n) = 1

unfoldable pub encode : StaticStorageLimits → Bytes
unfolding zeros write_at to_le_bytes
encode l =
    let blank = zeros record_len in
    let b1 = write_at 0 magic blank in
    let b2 = write_at 8 (flag l.logical_file_bytes ∷ []) b1 in
    let b3 = write_at 9 (flag l.namespace_entries ∷ []) b2 in
    let b4 = write_at 16 (to_le_bytes 8 (unwrap_or l.logical_file_bytes 0)) b3 in
    write_at 24 (to_le_bytes 8 (unwrap_or l.namespace_entries 0)) b4

-- `bytes[from..to]` and `bytes[i]`, where they are in range.
unfoldable pub slice : ℕ → ℕ → Bytes → Bytes
slice from to bs = take (to - from) (drop from bs)

abbrev first : Bytes → ℕ
first [] = 0
first (b ∷ bs) = b

unfoldable pub at : ℕ → Bytes → ℕ
at i bs = first (drop i bs)

-- `(flag == 1).then_some(value)`.
abbrev then_some : Bool → ℕ → Option ℕ
then_some true n = some n
then_some false n = none

-- The second half of `decode`, from the two flags and the three numbers.
unfoldable pub record_of :
    (bytes_flag entries_flag bytes_value entries_value generation : ℕ)
    → Result StaticStorageError Record
record_of bytes_flag entries_flag bytes_value entries_value generation = do
  ensure
      (not (
        (bytes_flag == 0 && not (bytes_value == 0))
        || (entries_flag == 0 && not (entries_value == 0))))
      StaticStorageError.invalid_policy
  ok (record {
    limits = record {
      logical_file_bytes = then_some (bytes_flag == 1) bytes_value;
      namespace_entries = then_some (entries_flag == 1) entries_value;
    };
    generation = generation;
  })

unfoldable pub decode : Bytes → Result StaticStorageError Record
decode bs = do
  ensure
      (not (
        not (length bs == record_len)
        || not (bytes_eq (slice 0 8 bs) magic)
        || ltb 1 (at 8 bs)
        || ltb 1 (at 9 bs)
        || not (bytes_eq (slice 10 16 bs) (zeros 6))))
      StaticStorageError.invalid_policy
  record_of (at 8 bs) (at 9 bs) (from_le_bytes (slice 16 24 bs)) (from_le_bytes (slice 24 32 bs))
      (from_le_bytes (slice 32 40 bs))

-- The control file's contents, or the failure of a read.
unfoldable pub read_record : Result IoError Bytes → Result StaticStorageError (Option Record)
read_record (err e) = err (StaticStorageError.io e)
read_record (ok bs) =
    if length bs == 0
    then ok none
    else if length bs == record_len
    then decode bs >>= (λ r. ok (some r))
    else err StaticStorageError.invalid_policy

unfoldable pub write_generation : ℕ → Bytes → Bytes
unfolding write_at to_le_bytes
write_generation generation file = write_at generation_offset (to_le_bytes 8 generation) file
