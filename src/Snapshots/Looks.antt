-- ===== src/Snapshots/Looks.antt =====
-- src/static_routes.rs: which of the two looks of a read its answer is of.
use leptos_ntex.Base.{
  ◌≤◌, ◌≡◌, ◌⊎◌, refl, sym, ◌∙◌, ap, arith, inl, inr, true, false, Bool-cases, Result-cases, Bytes,
  Option, some, length, Result, ok, err,
}
use leptos_ntex.Io.{IoError, IoErrorKind, kind_eq, kind_eq_iff}
use leptos_ntex.Headers.{HeaderMap}
use leptos_ntex.Responses.{ResponseParts}
use leptos_ntex.Snapshots.{
  Identity, File, Readers, capacity, Entries, Look, parse_pinned, is_legacy, reread,
  read_paired_static_file,
}
use leptos_ntex.Snapshots.Cache.{IsPinned, IsFaithful, reference, parse-Agrees}

abbrev Pair : Type 0
Pair = Result IoError (File × Option File)

abbrev pub ArePinnedFiles : (bytes_of : Identity → Bytes) → Pair → Type 0
ArePinnedFiles bytes_of pinned =
    (file : File) (metadata : Option File)
    → pinned ≡ ok (file, metadata)
    → IsPinned bytes_of file × ((m : File) → metadata ≡ some m → IsPinned bytes_of m)

module _ (H : HeaderMap) (r : Readers) (bytes_of : Identity → Bytes) where
  -- An answer of the pair that was pinned.
  abbrev pub AnswersFrom : Pair → Option (ResponseParts H) → Type 0
  AnswersFrom pinned answer =
      (file : File) × (metadata : Option File) × (pinned ≡ ok (file, metadata))
      × (reference H r file metadata ≡ ok answer)

  pinned_answer :
      (q : Bytes) (pinned : Pair) (entries : Entries H) (answer : Option (ResponseParts H))
      → ArePinnedFiles bytes_of pinned
      → IsFaithful H r bytes_of entries
      → length entries ≤ capacity
      → (parse_pinned H r q pinned entries).1 ≡ ok answer
      → AnswersFrom pinned answer
  pinned_answer q (err e) entries answer p f l h = absurd (cc)
  pinned_answer q (ok (file, metadata)) entries answer p f l h =
      let (a, b) = p file metadata refl in
      let (same, _, _) = parse-Agrees H r bytes_of q file metadata entries a b f l in
      (file, metadata, refl, sym same ∙ h)

  pinned_after :
      (q : Bytes) (pinned : Pair) (entries : Entries H)
      → ArePinnedFiles bytes_of pinned
      → IsFaithful H r bytes_of entries
      → length entries ≤ capacity
      → IsFaithful H r bytes_of (parse_pinned H r q pinned entries).0
        × (length (parse_pinned H r q pinned entries).0 ≤ capacity)
  pinned_after q (err e) entries p f l = (f, l)
  pinned_after q (ok (file, metadata)) entries p f l =
      let (a, b) = p file metadata refl in
      let (_, faithful, small) = parse-Agrees H r bytes_of q file metadata entries a b f l in
      (faithful, small)

  abbrev pub IsNotFound : Result IoError (Unit {0}) → Type 0
  IsNotFound lock = (e : IoError) × (lock ≡ err e) × (e.kind ≡ IoErrorKind.not_found)

  reread_answer :
      (q : Bytes) (second : Look H) (entries : Entries H)
      (snapshot : Result IoError (Option (ResponseParts H))) (answer : Option (ResponseParts H))
      → ArePinnedFiles bytes_of second.pinned
      → IsFaithful H r bytes_of entries
      → length entries ≤ capacity
      → (reread H r q second entries snapshot).1 ≡ ok answer
      → (IsNotFound second.lock × (snapshot ≡ ok answer))
        ⊎ (AnswersFrom second.pinned answer × (second.lock ≡ ok tt))
  unfolding reread
  reread_answer q second entries snapshot answer p f l h = elim (Result-cases second.lock) [
    | inl (u, locked) ↦
        let is : reread H r q second entries snapshot ≡ parse_pinned H r q second.pinned entries =
          rw (reread, locked) refl in
        inr
          (pinned_answer q second.pinned entries answer p f l (sym (ap (λ x. x.1) is) ∙ h), locked)
    | inr (e, failed) ↦ elim (Bool-cases (kind_eq e.kind IoErrorKind.not_found)) [
      | inl nf ↦
          let is : reread H r q second entries snapshot ≡ (entries, snapshot) =
            rw (reread, failed, nf) refl in
          inl (
            (e, failed, (kind_eq_iff e.kind IoErrorKind.not_found).0 nf),
            sym (ap (λ x. x.1) is) ∙ h,
          )
      | inr other ↦
          let is : reread H r q second entries snapshot ≡ (entries, err e) =
            rw (reread, failed, other) refl in
          absurd (ground (arith, sym (ap (λ x. x.1) is) ∙ h))
    ]
  ]

  -- Every read that succeeds answers from the pair of files that one of its looks opened: from the second
  -- look only if the first found no lock and did not find a page without metadata, and the
  -- second holds the lock; and from a first look without a lock only if the page has no metadata or
  -- there is still no lock. What is remembered is faithful and identities pin bytes.
  pub read_paired_static_file-AnswersFrom :
      (q : Bytes) (first second : Look H) (entries : Entries H) (answer : Option (ResponseParts H))
      → ArePinnedFiles bytes_of first.pinned
      → ArePinnedFiles bytes_of second.pinned
      → IsFaithful H r bytes_of entries
      → length entries ≤ capacity
      → (read_paired_static_file H r q first second entries).1 ≡ ok answer
      → (AnswersFrom first.pinned answer
          × ((first.lock ≡ ok tt) ⊎ ((is_legacy H first.pinned ≡ true) ⊎ IsNotFound second.lock)))
        ⊎ (AnswersFrom second.pinned answer
            × IsNotFound first.lock
            × (is_legacy H first.pinned ≡ false)
            × (second.lock ≡ ok tt))
  unfolding read_paired_static_file reread
  read_paired_static_file-AnswersFrom q first second entries answer p1 p2 f l h =
      elim (Result-cases first.lock) [
        | inl (tt', locked) ↦
            let is : read_paired_static_file H r q first second entries
                ≡ parse_pinned H r q first.pinned entries =
              rw (read_paired_static_file, locked) refl in
            inl (
              pinned_answer q first.pinned entries answer p1 f l (sym (ap (λ x. x.1) is) ∙ h),
              inl locked,
            )
        | inr (e, failed) ↦ elim (Bool-cases (kind_eq e.kind IoErrorKind.not_found)) [
          | inr other ↦
              let is : read_paired_static_file H r q first second entries ≡ (entries, err e) =
                rw (read_paired_static_file, failed, other) refl in
              absurd (ground (arith, sym (ap (λ x. x.1) is) ∙ h))
          | inl nf ↦ elim (Bool-cases (is_legacy H first.pinned)) [
            | inl old ↦
                let is : read_paired_static_file H r q first second entries
                    ≡ parse_pinned H r q first.pinned entries =
                  rw (read_paired_static_file, failed, nf, old) refl in
                inl (
                  pinned_answer q first.pinned entries answer p1 f l (sym (ap (λ x. x.1) is) ∙ h),
                  inr (inl old),
                )
            | inr new ↦
                let (f2, l2) = pinned_after q first.pinned entries p1 f l in
                let is : read_paired_static_file H r q first second entries
                    ≡ reread H r q second (parse_pinned H r q first.pinned entries).0
                        (parse_pinned H r q first.pinned entries).1 =
                  rw (read_paired_static_file, failed, nf, new) refl in
                elim (reread_answer q second (parse_pinned H r q first.pinned entries).0
                  (parse_pinned H r q first.pinned entries).1 answer p2 f2 l2
                  (sym (ap (λ x. x.1) is) ∙ h)) [
                    | inl (still, kept) ↦
                        inl
                          (pinned_answer q first.pinned entries answer p1 f l kept, inr (inr still))
                    | inr (late, locked) ↦ inr (
                      late,
                      (e, failed, (kind_eq_iff e.kind IoErrorKind.not_found).0 nf),
                      new,
                      locked,
                    )
                  ]
          ]
        ]
      ]
