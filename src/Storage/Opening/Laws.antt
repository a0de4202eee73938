-- ===== src/Storage/Opening/Laws.antt =====
-- src/static_routes/storage.rs: the policy that is installed first decides every later publication.
use leptos_ntex.Base.{
  ℕ, ◌≤◌, ◌≡◌, refl, sym, ◌∙◌, ap, ap₂, subst, arith, inl, inr, Result-cases, true, false, Bytes,
  Option, none, some, unwrap_or, length, u64_max, Result, ok, err, ensure, bind-eq-ok, ensure-eq-ok,
}
use leptos_ntex.Io.{IoError}
use leptos_ntex.Storage.Errors.{StaticStorageLimits, StaticStorageError}
use leptos_ntex.Storage.Record.{
  Record, encode, decode, read_record, write_generation, to_le_bytes, write_at, zeros,
}
use leptos_ntex.Storage.Record.Laws.{decode-encode}
use leptos_ntex.Storage.Accounting.{Usage, check_limits}
use leptos_ntex.Storage.Opening.{
  Control, LockMode, open_control, lock_control, Installed, check_install, install, limits_eq, fits,
  with_record,
}

limits_eq_sound : (a b : StaticStorageLimits) → limits_eq a b ≡ true → a ≡ b
unfolding limits_eq
limits_eq_sound a b h = ground (arith, h)

pub write_generation-zero : (l : StaticStorageLimits) → write_generation 0 (encode l) ≡ encode l
unfolding write_generation encode to_le_bytes write_at zeros
write_generation-zero l = refl

pub length-encode : (l : StaticStorageLimits) → length (encode l) ≡ 40
unfolding encode to_le_bytes write_at zeros
length-encode l = refl

pub read_record-encode :
    (l : StaticStorageLimits)
    → unwrap_or l.logical_file_bytes 0 ≤ u64_max
    → unwrap_or l.namespace_entries 0 ≤ u64_max
    → read_record (ok (encode l)) ≡ ok (some (record { limits = l; generation = 0 }))
unfolding read_record
read_record-encode l b e =
    let decoded : decode (encode l) ≡ ok (record { limits = l; generation = 0 }) =
      ap decode (sym (write_generation-zero l))
      ∙ decode-encode (record { limits = l; generation = 0 }) b e (omega arith) in
    rw (length-encode l, decoded) refl

-- The check of an installation lets through a record of these limits, or none.
pub checked :
    (limits : StaticStorageLimits) (c : Control) (inventory : Result StaticStorageError Usage)
    (previous : Option Record) (usage : Usage)
    → check_install limits c inventory ≡ ok (previous, usage)
    → (read_record c.contents ≡ ok previous)
      × ((r : Record) → previous ≡ some r → r.limits ≡ limits)
      × ((scanned : Usage) × (inventory ≡ ok scanned) × (with_record previous scanned ≡ ok usage))
unfolding check_install
checked limits c inventory previous usage h =
    let (_, _, h1) = bind-eq-ok (open_control c true) _ h in
    let (_, _, h2) = bind-eq-ok (lock_control c LockMode.exclusive false) _ h1 in
    let (p, read, h3) = bind-eq-ok (read_record c.contents) _ h2 in
    let (_, same, h4) =
      bind-eq-ok (ensure (fits limits p) StaticStorageError.policy_mismatch) _ h3 in
    let (s, scan, h5) = bind-eq-ok inventory _ h4 in
    let (u, sum, h6) = bind-eq-ok (with_record p s) _ h5 in
    let (_, _, h7) = bind-eq-ok (check_limits u limits) _ h6 in
    let is : p ≡ previous = ground (arith, h7) in
    (
      read ∙ ap ok is,
      λ r e.
          limits_eq_sound r.limits limits
            (subst (λ o. fits limits o ≡ true) (is ∙ e) (ensure-eq-ok _ _ same)),
      (s, scan, ap (λ o. with_record o s) (sym is) ∙ sum ∙ ap ok (ground (arith, h7))),
    )

-- What an installation that succeeds leaves is the record of its limits.
pub installed_record :
    (limits : StaticStorageLimits) (c : Control) (inventory : Result StaticStorageError Usage)
    (write : Bytes → Result IoError Bytes × Result IoError (Unit {0})) (i : Installed)
    → unwrap_or limits.logical_file_bytes 0 ≤ u64_max
    → unwrap_or limits.namespace_entries 0 ≤ u64_max
    → ((bs : Bytes) → (write bs).1 ≡ ok tt → (write bs).0 ≡ ok bs)
    → (install limits c inventory write).1 ≡ ok i
    → read_record (install limits c inventory write).0
      ≡ ok (some (record { limits = limits; generation = i.generation }))
unfolding install
installed_record limits c inventory write i b e stores h =
    elim (Result-cases (check_install limits c inventory)) [
      | inr (f, failed) ↦
          let is : install limits c inventory write ≡ (c.contents, err f) =
            rw (install, failed) refl in
          absurd (ground (arith, sym (ap (λ x. x.1) is) ∙ h))
      | inl ((none, usage), fine) ↦ elim (Result-cases (write (encode limits)).1) [
        | inr (f, failed) ↦
            let is : (install limits c inventory write).1 ≡ err (StaticStorageError.io f) =
              rw (install, fine, failed) refl in
            absurd (ground (arith, sym is ∙ h))
        | inl (u, written) ↦
            let is : (install limits c inventory write).1
                ≡ ok (record { generation = 0; usage = usage }) =
              rw (install, fine, written) refl in
            let left : (install limits c inventory write).0 ≡ (write (encode limits)).0 =
              rw (install, fine) refl in
            let kept : record { generation = 0; usage = usage } ≡ i = ground (arith, sym is ∙ h) in
            ap read_record (left ∙ stores (encode limits) written)
            ∙ read_record-encode limits b e
            ∙ ap
                (λ (i : Installed).
                  ok (some (record { limits = limits; generation = i.generation })))
                kept
      ]
      | inl ((some r, usage), fine) ↦
          let (read, same, _) = checked limits c inventory (some r) usage fine in
          let is : install limits c inventory write
              ≡ (c.contents, ok (record { generation = r.generation; usage = usage })) =
            rw (install, fine) refl in
          let kept : record { generation = r.generation; usage = usage } ≡ i =
            ground (arith, sym (ap (λ x. x.1) is) ∙ h) in
          ap read_record (ap (λ x. x.0) is)
          ∙ read
          ∙ ap₂ (λ l g. ok (some (record { limits = l; generation = g }))) (same r refl)
              (ap (λ (i : Installed). i.generation) kept)
    ]

-- The generation of a record that is there, or of the one that an installation writes.
abbrev pub generation_of : Option Record → ℕ
generation_of none = 0
generation_of (some r) = r.generation

abbrev Seeded : Result StaticStorageError Usage → Option Record → Installed → Type 0
Seeded inventory previous i =
    (scanned : Usage) × (inventory ≡ ok scanned)
    × (i.generation ≡ generation_of previous)
    × (with_record previous scanned ≡ ok i.usage)

-- What an installation remembers is the record's generation with the scan, the record's bytes
-- included where it is only written now.
pub install-Seeded :
    (limits : StaticStorageLimits) (c : Control) (inventory : Result StaticStorageError Usage)
    (write : Bytes → Result IoError Bytes × Result IoError (Unit {0})) (i : Installed)
    (previous : Option Record)
    → read_record c.contents ≡ ok previous
    → (install limits c inventory write).1 ≡ ok i
    → Seeded inventory previous i
unfolding install
install-Seeded limits c inventory write i previous r h =
    elim (Result-cases (check_install limits c inventory)) [
      | inr (f, failed) ↦
          let is : install limits c inventory write ≡ (c.contents, err f) =
            rw (install, failed) refl in
          absurd (ground (arith, sym (ap (λ x. x.1) is) ∙ h))
      | inl ((none, usage), fine) ↦ elim (Result-cases (write (encode limits)).1) [
        | inr (f, failed) ↦
            let is : (install limits c inventory write).1 ≡ err (StaticStorageError.io f) =
              rw (install, fine, failed) refl in
            absurd (ground (arith, sym is ∙ h))
        | inl (u, written) ↦
            let is : (install limits c inventory write).1
                ≡ ok (record { generation = 0; usage = usage }) =
              rw (install, fine, written) refl in
            seeded none usage fine (ground (arith, sym is ∙ h))
      ]
      | inl ((some q, usage), fine) ↦
          let is : (install limits c inventory write).1
              ≡ ok (record { generation = q.generation; usage = usage }) =
            rw (install, fine) refl in
          seeded (some q) usage fine (ground (arith, sym is ∙ h))
    ]
  where
    seeded :
        (p : Option Record) (usage : Usage)
        → check_install limits c inventory ≡ ok (p, usage)
        → record { generation = generation_of p; usage = usage } ≡ i
        → Seeded inventory previous i
    seeded p usage fine is =
        let (read, _, (scanned, scan, sum)) = checked limits c inventory p usage fine in
        let same : p ≡ previous = ground (arith, sym read ∙ r) in
        (
          scanned,
          scan,
          sym (ap (λ (n : Installed). n.generation) is) ∙ ap generation_of same,
          ap (λ o. with_record o scanned) (sym same)
              ∙ sum
              ∙ ap ok (ap (λ (n : Installed). n.usage) is),
        )
