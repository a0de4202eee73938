-- ===== src/Snapshots/Cache.antt =====
-- src/static_routes.rs: the memory of verified pairs changes no answer and stays bounded.
use leptos_ntex.Base.{
  ◌+◌, ◌≤◌, leb, ◌≡◌, refl, sym, ◌∙◌, ap, ap₂, subst, arith, inl, inr, if◌then◌else◌, true,
  Bool-cases, Option-cases, Result-cases, ◌&&◌, Bytes, bytes_eq, bytes_eq_iff, Option, none, some,
  is_none, List, [], ◌∷◌, length, map, Result, ok, ◌>>=◌,
}
use leptos_ntex.Io.{IoError}
use leptos_ntex.Headers.{HeaderMap}
use leptos_ntex.Responses.{ResponseParts}
use leptos_ntex.Snapshots.{
  Identity, identity_eq, File, Readers, capacity, Entry, Entries, get_entry, put_entry, lookup,
  remember, verify, parse_identified, parse_unidentified, parse_static_snapshot,
}

identity_eq_sound : (a b : Identity) → identity_eq a b ≡ true → a ≡ b
unfolding identity_eq
identity_eq_sound a b h = ground (arith, h)

module _ (H : HeaderMap) (r : Readers) where
  -- The answer without the memory: what the platform says of the identities, and the verification.
  abbrev pub reference : File → Option File → Result IoError (Option (ResponseParts H))
  reference file none = ok none
  reference file (some metadata) =
      file.identity >>= λ i. metadata.identity >>= λ j. parse_unidentified H r file metadata

  get_entry-put_entry :
      (p q : Bytes) (e : Entry H) (entries : Entries H)
      → get_entry H p (put_entry H q e entries)
        ≡ (if bytes_eq q p then some e else get_entry H p entries)
  unfolding get_entry put_entry
  get_entry-put_entry p q e [] = refl
  get_entry-put_entry p q e ((k, f) ∷ entries) = elim (Bool-cases (bytes_eq k q)) [
    | inl same ↦ rw same (ground (arith, ap (λ n. bytes_eq n p) ((bytes_eq_iff k q).0 same)))
    | inr other ↦ rw other (
        ground (
          arith,
          other,
          get_entry-put_entry p q e entries,
          bytes_eq_iff k q,
          bytes_eq_iff k p,
          bytes_eq_iff q p,
        ))
  ]

  length-put_entry :
      (q : Bytes) (e : Entry H) (entries : Entries H)
      → length (put_entry H q e entries)
        ≤ length entries + (if is_none (get_entry H q entries) then 1 else 0)
  unfolding get_entry put_entry
  length-put_entry q e [] = omega arith
  length-put_entry q e ((k, f) ∷ entries) = elim (Bool-cases (bytes_eq k q)) [
    | inl same ↦ rw same (ground arith)
    | inr other ↦ rw other (ground (arith, length-put_entry q e entries))
  ]

  length-remember :
      (q : Bytes) (i j : Identity) (parts : ResponseParts H) (entries : Entries H)
      → length entries ≤ capacity
      → length (remember H q i j parts entries) ≤ capacity
  unfolding remember put_entry
  length-remember q i j parts entries h =
      elim (Bool-cases (leb capacity (length entries) && is_none (get_entry H q entries))) [
        | inl full ↦ rw full (omega arith)
        | inr room ↦ rw room (
            ground (
              arith,
              room,
              h,
              length-put_entry q (record { html = i; metadata = j; parts = parts }) entries,
            ))
      ]

-- An identity pins the bytes of its file.
abbrev pub IsPinned : (bytes_of : Identity → Bytes) → File → Type 0
IsPinned bytes_of f = (i : Identity) → f.identity ≡ ok (some i) → f.bytes ≡ bytes_of i

module _ (H : HeaderMap) (r : Readers) (bytes_of : Identity → Bytes) where
  -- What is remembered is what the bytes verify to.
  abbrev pub IsFaithful : Entries H → Type 0
  IsFaithful entries =
      (p : Bytes) (e : Entry H)
      → get_entry H p entries ≡ some e
      → verify H r (bytes_of e.html) (bytes_of e.metadata) ≡ ok e.parts

  empty-IsFaithful : IsFaithful []
  unfolding get_entry
  empty-IsFaithful p e h = cc

  put_entry-IsFaithful :
      (q : Bytes) (e : Entry H) (entries : Entries H)
      → IsFaithful entries
      → verify H r (bytes_of e.html) (bytes_of e.metadata) ≡ ok e.parts
      → IsFaithful (put_entry H q e entries)
  put_entry-IsFaithful q e entries faithful v p f h = elim (Bool-cases (bytes_eq q p)) [
    | inl same ↦
        let is : e ≡ f = ground (arith, same, h, get_entry-put_entry H r p q e entries) in
        subst (λ (f : Entry H). verify H r (bytes_of f.html) (bytes_of f.metadata) ≡ ok f.parts) is
          v
    | inr other ↦ faithful p f (ground (arith, other, h, get_entry-put_entry H r p q e entries))
  ]

  remember-IsFaithful :
      (q : Bytes) (i j : Identity) (parts : ResponseParts H) (entries : Entries H)
      → IsFaithful entries
      → verify H r (bytes_of i) (bytes_of j) ≡ ok parts
      → IsFaithful (remember H q i j parts entries)
  unfolding remember
  remember-IsFaithful q i j parts entries faithful v =
      elim (Bool-cases (leb capacity (length entries) && is_none (get_entry H q entries))) [
        | inl full ↦ rw full (put_entry-IsFaithful q _ [] empty-IsFaithful v)
        | inr room ↦ rw room (put_entry-IsFaithful q _ entries faithful v)
      ]

  lookup_lem :
      (q : Bytes) (i j : Identity) (parts : ResponseParts H) (entries : Entries H)
      → IsFaithful entries
      → lookup H q i j entries ≡ some parts
      → verify H r (bytes_of i) (bytes_of j) ≡ ok parts
  unfolding lookup
  lookup_lem q i j parts entries faithful h = elim (Option-cases (get_entry H q entries)) [
    | inl gone ↦ absurd (ground (arith, gone, h))
    | inr (e, found) ↦ elim (Bool-cases (identity_eq e.html i && identity_eq e.metadata j)) [
      | inr other ↦
          let is : lookup H q i j entries ≡ none = rw (lookup, found, other) refl in
          absurd (ground (arith, sym is ∙ h))
      | inl same ↦
          let is : lookup H q i j entries ≡ some e.parts = rw (lookup, found, same) refl in
          let html : e.html ≡ i = identity_eq_sound e.html i (ground (arith, same)) in
          let stored : e.metadata ≡ j = identity_eq_sound e.metadata j (ground (arith, same)) in
          let parts_same : e.parts ≡ parts = ground (arith, sym is ∙ h) in
          subst (λ i. verify H r (bytes_of i) (bytes_of j) ≡ ok parts) html
            (subst (λ j. verify H r (bytes_of e.html) (bytes_of j) ≡ ok parts) stored
              (faithful q e found ∙ ap ok parts_same))
    ]
  ]

  identified-Agrees :
      (q : Bytes) (file metadata : File) (i j : Identity) (entries : Entries H)
      → file.bytes ≡ bytes_of i
      → metadata.bytes ≡ bytes_of j
      → IsFaithful entries
      → length entries ≤ capacity
      → ((parse_identified H r q file metadata i j entries).1
          ≡ parse_unidentified H r file metadata)
        × IsFaithful (parse_identified H r q file metadata i j entries).0
        × (length (parse_identified H r q file metadata i j entries).0 ≤ capacity)
  unfolding parse_identified
  identified-Agrees q file metadata i j entries b c faithful small =
      elim (Option-cases (lookup H q i j entries)) [
        | inr (parts, hit) ↦
            let known : verify H r file.bytes metadata.bytes ≡ ok parts =
              rw (b, c) (lookup_lem q i j parts entries faithful hit) in
            rw (parse_identified, hit, known) (refl, faithful, small)
        | inl miss ↦ elim (Result-cases (verify H r file.bytes metadata.bytes)) [
          | inr (e, failed) ↦ rw (parse_identified, miss, failed) (refl, faithful, small)
          | inl (parts, fine) ↦
              let known : verify H r (bytes_of i) (bytes_of j) ≡ ok parts =
                subst (λ x. verify H r x (bytes_of j) ≡ ok parts) b
                  (subst (λ y. verify H r file.bytes y ≡ ok parts) c fine) in
              rw (parse_identified, miss, fine)
                (
                  refl,
                  remember-IsFaithful q i j parts entries faithful known,
                  length-remember H r q i j parts entries small,
                )
        ]
      ]

  pub parse-Agrees :
      (q : Bytes) (file : File) (metadata : Option File) (entries : Entries H)
      → IsPinned bytes_of file
      → ((m : File) → metadata ≡ some m → IsPinned bytes_of m)
      → IsFaithful entries
      → length entries ≤ capacity
      → ((parse_static_snapshot H r q file metadata entries).1 ≡ reference H r file metadata)
        × IsFaithful (parse_static_snapshot H r q file metadata entries).0
        × (length (parse_static_snapshot H r q file metadata entries).0 ≤ capacity)
  unfolding parse_static_snapshot
  parse-Agrees q file none entries p ps faithful small = (refl, faithful, small)
  parse-Agrees q file (some m) entries p ps faithful small = elim (Result-cases file.identity) [
    | inr (e, failed) ↦ rw (parse_static_snapshot, failed) (refl, faithful, small)
    | inl (html, fine) ↦ elim (Result-cases m.identity) [
      | inr (e, failed) ↦ rw (parse_static_snapshot, fine, failed) (refl, faithful, small)
      | inl (stored, there) ↦ elim (Option-cases html) [
        | inl nothing ↦ rw (parse_static_snapshot, fine, there, nothing) (refl, faithful, small)
        | inr (i, is_i) ↦ elim (Option-cases stored) [
          | inl nothing ↦
              rw (parse_static_snapshot, fine, there, is_i, nothing) (refl, faithful, small)
          | inr (j, is_j) ↦
              rw (parse_static_snapshot, fine, there, is_i, is_j)
                (identified-Agrees q file m i j entries (p i (fine ∙ ap ok is_i))
                  (ps m refl j (there ∙ ap ok is_j)) faithful small)
        ]
      ]
    ]
  ]

  -- Reads one after another, from an empty memory.
  unfoldable pub read_all :
      List (Bytes × File × Option File)
      → Entries H
      → Entries H × List (Result IoError (Option (ResponseParts H)))
  read_all [] entries = (entries, [])
  read_all ((q, file, metadata) ∷ reads) entries =
      let (after, answer) = parse_static_snapshot H r q file metadata entries in
      let (final, answers) = read_all reads after in (final, answer ∷ answers)

  abbrev pub ArePinned : List (Bytes × File × Option File) → Type 0
  ArePinned [] = Unit
  ArePinned ((q, file, metadata) ∷ reads) =
      IsPinned bytes_of file
      × ((m : File) → metadata ≡ some m → IsPinned bytes_of m)
      × ArePinned reads

  read_all-from :
      (reads : List (Bytes × File × Option File)) (entries : Entries H)
      → ArePinned reads
      → IsFaithful entries
      → length entries ≤ capacity
      → ((read_all reads entries).1 ≡ map (λ x. reference H r x.1 x.2) reads)
        × (length (read_all reads entries).0 ≤ capacity)
  unfolding read_all
  read_all-from [] entries pinned faithful small = (refl, small)
  read_all-from ((q, file, metadata) ∷ reads) entries pinned faithful small =
      let (same, still, bounded) =
        parse-Agrees q file metadata entries pinned.0 pinned.1 faithful small in
      let (rest, final) =
        read_all-from reads (parse_static_snapshot H r q file metadata entries).0 pinned.2 still
          bounded in
      (ap₂ ◌∷◌ same rest, final)

  -- Whatever pages are read and in whatever order, the memory of verified pairs changes no answer: every
  -- read gives what verifying the two files gives, if an identity pins the bytes of a file; and
  -- the memory never holds more than its capacity.
  pub read_all-reference :
      (reads : List (Bytes × File × Option File))
      → ArePinned reads
      → ((read_all reads []).1 ≡ map (λ x. reference H r x.1 x.2) reads)
        × (length (read_all reads []).0 ≤ capacity)
  read_all-reference reads pinned = read_all-from reads [] pinned empty-IsFaithful (omega arith)
