-- ===== src/Snapshots/Metadata.antt =====
-- src/static_routes.rs: when a page counts as published without metadata.
use leptos_ntex.Base.{
  ◌≡◌, ◌⊎◌, ◌↔◌, refl, sym, ◌∙◌, arith, inl, inr, true, Bool-cases, none, some, Result-cases,
  Result, ok, err,
}
use leptos_ntex.Io.{IoError, IoErrorKind, kind_eq, kind_eq_iff}
use leptos_ntex.Snapshots.{
  EntryKind, Lookups, is_missing, damaged_metadata_error, metadata_parent, open_static_metadata,
}

-- The directory of the metadata is not there, or it is a directory, through a link or not.
abbrev pub IsPlainParent : (parent resolved : Result IoError EntryKind) → Type 0
IsPlainParent parent resolved =
    ((e : IoError) × (parent ≡ err e) × (e.kind ≡ IoErrorKind.not_found))
    ⊎ ((parent ≡ ok EntryKind.directory)
        ⊎ ((parent ≡ ok EntryKind.symlink) × (resolved ≡ ok EntryKind.directory)))

abbrev pub IsAbsent : {A : Type 0} → Lookups A → Type 0
IsAbsent l =
    (e : IoError) × (f : IoError) × (l.opened ≡ err e)
    × (is_missing e ≡ true)
    × (l.entry ≡ err f)
    × IsPlainParent l.parent l.resolved

module _ {A : Type 0} where
  plain_parent :
      (parent resolved : Result IoError EntryKind) (e : IoError)
      → metadata_parent {A = A} parent resolved e ≡ ok none
      → IsPlainParent parent resolved
  unfolding metadata_parent
  plain_parent (err f) r e h = elim (Bool-cases (kind_eq f.kind IoErrorKind.not_found)) [
    | inl gone ↦ inl (f, refl, (kind_eq_iff f.kind IoErrorKind.not_found).0 gone)
    | inr other ↦ absurd (ground (arith, other, h))
  ]
  plain_parent (ok EntryKind.directory) r e h = inr (inl refl)
  plain_parent (ok EntryKind.other_entry) r e h = absurd (cc)
  plain_parent (ok EntryKind.symlink) (err f) e h = absurd (cc)
  plain_parent (ok EntryKind.symlink) (ok EntryKind.directory) e h = inr (inr (refl, refl))
  plain_parent (ok EntryKind.symlink) (ok EntryKind.symlink) e h = absurd (cc)
  plain_parent (ok EntryKind.symlink) (ok EntryKind.other_entry) e h = absurd (cc)

  plain_parent_none :
      (parent resolved : Result IoError EntryKind) (e : IoError)
      → IsPlainParent parent resolved
      → metadata_parent {A = A} parent resolved e ≡ ok none
  unfolding metadata_parent
  plain_parent_none parent resolved e (inl (f, p, k)) =
      rw (p, (kind_eq_iff f.kind IoErrorKind.not_found).1 k) refl
  plain_parent_none parent resolved e (inr (inl p)) = rw p refl
  plain_parent_none parent resolved e (inr (inr (p, q))) = rw (p, q) refl

  -- A page counts as published without metadata exactly if the opening of its metadata entry fails as
  -- missing, a look at the entry without following links fails, in whatever way, and the directory of the
  -- metadata is not found or is a directory, itself or through a link.
  pub open_static_metadata_iff : (l : Lookups A) → (open_static_metadata l ≡ ok none) ↔ IsAbsent l
  unfolding open_static_metadata
  open_static_metadata_iff l = (to, from)
    where
      from : IsAbsent l → open_static_metadata l ≡ ok none
      from (e, f, o, m, n, p) =
          rw (open_static_metadata, o, m, n) (plain_parent_none l.parent l.resolved e p)

      to : open_static_metadata l ≡ ok none → IsAbsent l
      to h = elim (Result-cases l.opened) [
        | inl (file, o) ↦
            let is : open_static_metadata l ≡ ok (some file) = rw (open_static_metadata, o) refl in
            absurd (ground (arith, sym is ∙ h))
        | inr (e, o) ↦ elim (Bool-cases (is_missing e)) [
          | inr other ↦
              let is : open_static_metadata l ≡ err e = rw (open_static_metadata, o, other) refl in
              absurd (ground (arith, sym is ∙ h))
          | inl m ↦ elim (Result-cases l.entry) [
            | inl (k, n) ↦
                let is : open_static_metadata l ≡ err (damaged_metadata_error e) =
                  rw (open_static_metadata, o, m, n) refl in
                absurd (ground (arith, sym is ∙ h))
            | inr (f, n) ↦
                let is : open_static_metadata l ≡ metadata_parent l.parent l.resolved e =
                  rw (open_static_metadata, o, m, n) refl in
                (e, f, o, m, n, plain_parent l.parent l.resolved e (sym is ∙ h))
          ]
        ]
      ]
