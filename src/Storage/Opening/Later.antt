-- ===== src/Storage/Opening/Later.antt =====
-- src/static_routes/storage.rs: whatever is written to a control file after a policy is installed, the
-- policy decides every later publication.
use leptos_ntex.Base.{
  ℕ, ◌==◌, Bool-cases, ◌≤◌, ◌<◌, ◌≡◌, refl, sym, ◌∙◌, ap, subst, arith, inl, inr, Result-cases,
  if◌then◌else◌, Bool, true, Bytes, All, Option, none, some, unwrap_or, length, u64_max, Result, ok,
  err, ◌>>=◌, bind-eq-ok,
}
use leptos_ntex.Io.{IoError}
use leptos_ntex.Storage.Errors.{StaticStorageLimits, StaticStorageError}
use leptos_ntex.Storage.Record.{
  Record, record_len, encode, decode, read_record, write_generation, to_le_bytes, write_at, zeros,
}
use leptos_ntex.Storage.Record.Laws.{decode-encode, decode-eq-ok}
use leptos_ntex.Storage.Accounting.{Usage}
use leptos_ntex.Storage.Opening.{
  Control, open_control, lock_control, RootAnswers, Installed, check_install, install, lease,
  mode_of, publication_root, coordinate, limits_eq,
}
use leptos_ntex.Storage.Opening.Laws.{checked, installed_record}

-- The contents of a control file after those at an installation, with the last generation: a
-- publication writes any generation, also in part, and another installation finds the record.
pub data Later (first : Bytes) (n : ℕ) : Bytes → ℕ → Type 0 where
  installed : Later first n first n
  bumped :
      {bs : Bytes} {g : ℕ}
      → Later first n bs g
      → (next : ℕ) → next ≤ u64_max
      → Later first n (write_generation next bs) next
  reopened :
      {bs : Bytes} {g : ℕ}
      → Later first n bs g
      → (limits : StaticStorageLimits) (c : Control) (inventory : Result StaticStorageError Usage)
        (write : Bytes → Result IoError Bytes × Result IoError (Unit {0}))
      → c.contents ≡ ok bs
      → (after : Bytes) → (install limits c inventory write).0 ≡ ok after
      → Later first n after g

write_generation-again :
    (g h : ℕ) (l : StaticStorageLimits)
    → write_generation h (write_generation g (encode l)) ≡ write_generation h (encode l)
unfolding write_generation encode to_le_bytes write_at zeros
write_generation-again g h l = refl

length-written : (g : ℕ) (l : StaticStorageLimits) → length (write_generation g (encode l)) ≡ 40
unfolding write_generation encode to_le_bytes write_at zeros
length-written g l = refl

read_record-eq-some :
    (bs : Bytes) (r : Record) → read_record (ok bs) ≡ ok (some r) → decode bs ≡ ok r
unfolding read_record
read_record-eq-some bs r h = elim (Bool-cases (length bs == 0)) [
  | inl z ↦
      let is : read_record (ok bs) ≡ ok none = rw (read_record, z) refl in
      absurd (ground (arith, sym is ∙ h))
  | inr z ↦ elim (Bool-cases (length bs == record_len)) [
    | inr y ↦
        let is : read_record (ok bs) ≡ err StaticStorageError.invalid_policy =
          rw (read_record, z, y) refl in
        absurd (ground (arith, sym is ∙ h))
    | inl y ↦
        let is : read_record (ok bs) ≡ (decode bs >>= (λ q. ok (some q))) =
          rw (read_record, z, y) refl in
        let (q, e, k) = bind-eq-ok (decode bs) (λ q. ok (some q)) (sym is ∙ h) in e ∙ ap ok (cc)
  ]
]

-- A control file that has its record, and no other installation touches it.
install-kept :
    (limits : StaticStorageLimits) (c : Control) (inventory : Result StaticStorageError Usage)
    (write : Bytes → Result IoError Bytes × Result IoError (Unit {0})) (r : Record)
    → read_record c.contents ≡ ok (some r)
    → (install limits c inventory write).0 ≡ c.contents
unfolding install
install-kept limits c inventory write r read =
    elim (Result-cases (check_install limits c inventory)) [
      | inr (f, failed) ↦ rw (install, failed) refl
      | inl ((some q, usage), fine) ↦ rw (install, fine) refl
      | inl ((none, usage), fine) ↦
          let (empty, _, _) = checked limits c inventory none usage fine in
          absurd (ground (arith, sym empty ∙ read))
    ]

-- The bytes of the record with this generation, as they are read.
abbrev Carries : StaticStorageLimits → ℕ → Bytes → Type 0
Carries l g bs =
    (bs ≡ write_generation g (encode l))
    × (read_record (ok bs) ≡ ok (some (record { limits = l; generation = g })))

module _ (limits : StaticStorageLimits) (b : unwrap_or limits.logical_file_bytes 0 ≤ u64_max)
    (e : unwrap_or limits.namespace_entries 0 ≤ u64_max) where
  written-Carries : (g : ℕ) → g ≤ u64_max → Carries limits g (write_generation g (encode limits))
  unfolding read_record
  written-Carries g h =
      let back = decode-encode (record { limits = limits; generation = g }) b e h in
      (refl, rw (length-written g limits, back) refl)

  Later-Carries :
      (first : Bytes) (n : ℕ) {bs : Bytes} {g : ℕ}
      → Carries limits n first
      → Later first n bs g
      → Carries limits g bs
  Later-Carries first n c installed = c
  Later-Carries first n c (bumped {bs} {g} l next h) =
      let (is, _) = Later-Carries first n c l in
      let same : write_generation next bs ≡ write_generation next (encode limits) =
        ap (write_generation next) is ∙ write_generation-again g next limits in
      subst (Carries limits next) (sym same) (written-Carries next h)
  Later-Carries first n c (reopened {bs} {g} l other control inventory write kept after left) =
      let (is, read) = Later-Carries first n c l in
      let same : after ≡ bs = ground (
        arith,
        sym left ∙ install-kept other control inventory write _ (ap read_record kept ∙ read) ∙ kept,
      ) in
      subst (Carries limits g) (sym same) (is, read)

  -- Once a policy is installed, whether it was written now or found there, and whatever publications
  -- and openings have written to the control file since, every publication in the root that gets the
  -- control file and its lock is decided by the policy: one that is bound to these limits has its lease
  -- at the last generation, one that is bound to other limits is a mismatch, and one that is bound to none is
  -- told to bind. A write of the record that succeeds stores the bytes, the limits are `u64`s, and what
  -- is in the file are bytes.
  pub coordinate-install :
      (c : Control) (inventory : Result StaticStorageError Usage)
      (write : Bytes → Result IoError Bytes × Result IoError (Unit {0})) (i : Installed)
      (first bs : Bytes) (g : ℕ) (storage : Option StaticStorageLimits)
      (same_root : Result IoError Bool) (a : RootAnswers) (later : Control)
      → ((bytes : Bytes) → (write bytes).1 ≡ ok tt → (write bytes).0 ≡ ok bytes)
      → (install limits c inventory write).1 ≡ ok i
      → (install limits c inventory write).0 ≡ ok first
      → All (λ x. x < 256) first
      → Later first i.generation bs g
      → later.contents ≡ ok bs
      → publication_root storage same_root a ≡ ok tt
      → open_control later true ≡ ok tt
      → lock_control later (mode_of storage) true ≡ ok tt
      → coordinate storage same_root a later ≡ (elim storage [
        | none ↦ err StaticStorageError.binding_required
        | some own ↦ if limits_eq limits own then ok g else err StaticStorageError.policy_mismatch
      ])
  unfolding coordinate lease
  coordinate-install c inventory write i first bs g storage same_root a later stores done left small
        l kept rooted opened locked =
      let own : Record = record { limits = limits; generation = i.generation } in
      let found : read_record (ok first) ≡ ok (some own) =
        ap read_record (sym left) ∙ installed_record limits c inventory write i b e stores done in
      let start = decode-eq-ok first own small (read_record-eq-some first own found) in
      let (_, last) = Later-Carries first i.generation (start, found) l in
      let read = ap read_record kept ∙ last in decided storage rooted opened locked read
    where
      decided :
          (storage : Option StaticStorageLimits)
          → publication_root storage same_root a ≡ ok tt
          → open_control later true ≡ ok tt
          → lock_control later (mode_of storage) true ≡ ok tt
          → read_record later.contents ≡ ok (some (record { limits = limits; generation = g }))
          → coordinate storage same_root a later ≡ (elim storage [
            | none ↦ err StaticStorageError.binding_required
            | some own ↦
                if limits_eq limits own then ok g else err StaticStorageError.policy_mismatch
          ])
      decided none rooted opened locked read = rw (coordinate, rooted, opened, locked, read) refl
      decided (some own) rooted opened locked read =
          rw (coordinate, rooted, opened, locked, read) refl
