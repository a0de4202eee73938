-- ===== src/Storage/Opening/Entries.antt =====
-- src/fs_boundary.rs: a control file is a private regular file.
use leptos_ntex.Base.{
  ==_iff, ◌≡◌, refl, sym, ◌∙◌, arith, inl, inr, Bool-cases, Result-cases, Bool, true, false, Result,
  ok, err,
}
use leptos_ntex.Io.{IoError, IoErrorKind, kind_eq}
use leptos_ntex.Storage.Opening.{
  LockEntryError, EntryMetadata, EntryAnswers, checked_lock_file, open_lock_entry,
}

IsPrivate : Result IoError EntryMetadata → Type 0
IsPrivate metadata = (m : EntryMetadata) × (metadata ≡ ok m) × (m.is_file ≡ true) × (m.nlink ≡ 1)

checked-IsPrivate :
    (metadata : Result IoError EntryMetadata)
    → checked_lock_file metadata ≡ ok tt
    → IsPrivate metadata
unfolding checked_lock_file IsPrivate
checked-IsPrivate (err e) h = absurd (cc)
checked-IsPrivate (ok m) h = elim (Bool-cases m.is_file) [
  | inr other ↦ absurd (ground (arith, other, h))
  | inl regular ↦ (m, refl, regular, ground (arith, regular, h, ==_iff m.nlink 1))
]

existing-IsPrivate : (a : EntryAnswers) → open_lock_entry a false ≡ ok tt → IsPrivate a.metadata
unfolding open_lock_entry
existing-IsPrivate a h = elim (Result-cases a.is_regular_entry) [
  | inr (e, failed) ↦
      let is : open_lock_entry a false ≡ err (LockEntryError.io e) =
        rw (open_lock_entry, failed) refl in
      absurd (ground (arith, sym is ∙ h))
  | inl (false, irregular) ↦
      let is : open_lock_entry a false ≡ err LockEntryError.not_regular =
        rw (open_lock_entry, irregular) refl in
      absurd (ground (arith, sym is ∙ h))
  | inl (true, regular) ↦ elim (Result-cases a.opened) [
    | inr (e, failed) ↦
        let is : open_lock_entry a false ≡ err (LockEntryError.io e) =
          rw (open_lock_entry, regular, failed) refl in
        absurd (ground (arith, sym is ∙ h))
    | inl (u, opened) ↦
        let is : open_lock_entry a false ≡ checked_lock_file a.metadata =
          rw (open_lock_entry, regular, opened) refl in
        checked-IsPrivate a.metadata (sym is ∙ h)
  ]
]

-- A lock entry that is opened, whether it was created or there, is a regular file that has no other name.
pub open_lock_entry_private :
    (a : EntryAnswers) (create : Bool)
    → open_lock_entry a create ≡ ok tt
    → (m : EntryMetadata) × (a.metadata ≡ ok m) × (m.is_file ≡ true) × (m.nlink ≡ 1)
unfolding open_lock_entry IsPrivate
open_lock_entry_private a false h = existing-IsPrivate a h
open_lock_entry_private a true h = elim (Result-cases a.created) [
  | inl (u, new) ↦
      let is : open_lock_entry a true ≡ checked_lock_file a.metadata =
        rw (open_lock_entry, new) refl in
      checked-IsPrivate a.metadata (sym is ∙ h)
  | inr (e, failed) ↦ elim (Bool-cases (kind_eq e.kind IoErrorKind.already_exists)) [
    | inl there ↦
        let is : open_lock_entry a true ≡ open_lock_entry a false =
          rw (open_lock_entry, failed, there) refl in
        existing-IsPrivate a (sym is ∙ h)
    | inr other ↦
        let is : open_lock_entry a true ≡ err (LockEntryError.io e) =
          rw (open_lock_entry, failed, other) refl in
        absurd (ground (arith, sym is ∙ h))
  ]
]
