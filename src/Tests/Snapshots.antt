-- ===== src/Tests/Snapshots.antt =====
-- Reads of published pages on concrete inputs.
use leptos_ntex.Base.{
  ℕ, ◌≤◌, ◌≡◌, refl, subst, ◌∙◌, ◌⊎◌, ◌↔◌, true, false, Bytes, codes, bytes_eq, Option, none, some,
  List, [], ◌∷◌, length, map, ok, err, arith,
}
use leptos_ntex.Io.{IoErrorKind, kind_eq, plain}
use leptos_ntex.Headers.Association.{association}
use leptos_ntex.Responses.{ResponseParts}
use leptos_ntex.Snapshots.{
  EntryKind, Lookups, open_static_metadata, metadata_parent, damaged_metadata_error, is_missing,
  Identity, identity_eq, File, Readers, StoredResponse, Look, capacity, Stage, is_legacy,
  parse_static_snapshot, parse_identified, lookup, remember, get_entry, put_entry, verify,
  append_headers, status_of, read_paired_static_file, reread, Page, Reaches, here, next, locks,
  publishes_metadata, publishes_html,
}
use leptos_ntex.Snapshots.Cache.{IsPinned, reference, read_all, read_all-reference}
use leptos_ntex.Snapshots.Metadata.{IsAbsent, open_static_metadata_iff}
use leptos_ntex.Snapshots.Pairs.{unpublished, reference-pair}
use leptos_ntex.Snapshots.Looks.{
  AnswersFrom, ArePinnedFiles, IsNotFound, read_paired_static_file-AnswersFrom,
}

-- A directory without metadata of its own.
abbrev bare : Lookups ℕ
bare = record {
  opened = err (plain IoErrorKind.not_found);
  entry = err (plain IoErrorKind.not_found);
  parent = ok EntryKind.directory;
  resolved = ok EntryKind.directory;
}

-- A metadata entry that is a link to nothing.
abbrev dangling : Lookups ℕ
dangling = record bare { entry = ok EntryKind.symlink }

open_static_metadata_test :
    (open_static_metadata bare ≡ ok none)
    × (open_static_metadata dangling ≡ err (plain IoErrorKind.invalid_data))
unfolding open_static_metadata is_missing kind_eq metadata_parent damaged_metadata_error
open_static_metadata_test = (refl, refl)

open_static_metadata_iff_example : (open_static_metadata bare ≡ ok none) ↔ IsAbsent bare
open_static_metadata_iff_example = open_static_metadata_iff bare

-- The bytes of a page are its number, and its metadata's are the same.
abbrev readers : Readers
readers = record {
  from_reader = λ s. ok (record {
    version = 1;
    digest = s;
    status = some 200;
    headers = (codes "a", codes "b") ∷ [];
  });
  body_digest = λ s. s;
  from_u16 = λ n. ok n;
  name_from_bytes = λ s. ok s;
  value_from_bytes = λ s. ok s;
}

abbrev identity : ℕ → Identity
identity n = record { device = 1; inode = n; length = 1; changed = (0, 0); modified = (0, 0) }

abbrev file : ℕ → File
file n = record { identity = ok (some (identity n)); bytes = n ∷ [] }

abbrev bytes_of : Identity → Bytes
bytes_of i = i.inode ∷ []

file-IsPinned : (n : ℕ) → IsPinned bytes_of (file n)
file-IsPinned n i e = ground (arith, e)

abbrev parts : ResponseParts association
parts = record { status = some 200; headers = (codes "a", codes "b") ∷ [] }

abbrev reads : List (Bytes × File × Option File)
reads =
    (codes "/p", file 1, some (file 1))
    ∷ (codes "/p", file 1, some (file 1))
    ∷ (codes "/p", file 2, some (file 1))
    ∷ []

read_all_test :
    (read_all association readers bytes_of reads []).1
    ≡ ok (some parts) ∷ ok (some parts) ∷ err (plain IoErrorKind.invalid_data) ∷ []
unfolding read_all parse_static_snapshot parse_identified lookup remember get_entry put_entry verify
    append_headers status_of identity_eq bytes_eq
read_all_test = refl

some-IsPinned : (n : ℕ) (m : File) → some (file n) ≡ some m → IsPinned bytes_of m
some-IsPinned n m e =
    let same : file n ≡ m = ground (arith, e) in subst (IsPinned bytes_of) same (file-IsPinned n)

read_all-reference_example :
    ((read_all association readers bytes_of reads []).1
      ≡ map (λ x. reference association readers x.1 x.2) reads)
    × (length (read_all association readers bytes_of reads []).0 ≤ capacity)
read_all-reference_example = read_all-reference association readers bytes_of reads (
  file-IsPinned 1,
  some-IsPinned 1,
  (file-IsPinned 1, some-IsPinned 1, (file-IsPinned 2, some-IsPinned 1, tt)),
)

-- The first publication of a page that was there before.
abbrev published : Page
published = record { html = some 1; metadata = some 1; has_lock = true; stage = Stage.idle }

publication : Reaches (unpublished true) published
publication =
    next (next (next here (locks 0 refl)) (publishes_metadata 1 refl)) (publishes_html 1 refl)

stored :
    (n : ℕ)
    → (s : StoredResponse) × (readers.from_reader (n ∷ []) ≡ ok s)
      × (s.digest ≡ readers.body_digest (n ∷ []))
stored n = (
  record { version = 1; digest = n ∷ []; status = some 200; headers = (codes "a", codes "b") ∷ [] },
  refl,
  refl,
)

reference-pair_example :
    ((some parts ≡ none) × (◌≡◌ {A = ℕ} 1 0))
    ⊎ ((ps : ResponseParts association) × (k : ℕ) × (some parts ≡ some ps)
        × (published.metadata ≡ some k)
        × ((file 1).bytes ≡ k ∷ []))
unfolding verify append_headers status_of bytes_eq
reference-pair_example =
    reference-pair association readers (λ n. n ∷ []) (λ n. n ∷ []) stored (λ m n e. e) true
      published published (file 1) (some (file 1)) 1 (some parts) publication here
      (refl, refl, (1, refl, refl)) refl

-- The first look finds no lock and a page of another publication than its metadata; the second
-- looks under the lock.
abbrev racing : Look association
racing = record { lock = err (plain IoErrorKind.not_found); pinned = ok (file 1, some (file 2)) }

abbrev settled : Look association
settled = record { lock = ok tt; pinned = ok (file 1, some (file 1)) }

pinned_file : (n k : ℕ) → ArePinnedFiles bytes_of (ok (file n, some (file k)))
pinned_file n k f m e =
    let same_file : file n ≡ f = ground (arith, e) in
    let same_metadata : some (file k) ≡ m = ground (arith, e) in
    (
      subst (IsPinned bytes_of) same_file (file-IsPinned n),
      λ g is. some-IsPinned k g (same_metadata ∙ is),
    )

read_paired_static_file-AnswersFrom_example :
    (AnswersFrom association readers bytes_of racing.pinned (some parts)
      × ((racing.lock ≡ ok tt)
          ⊎ ((is_legacy association racing.pinned ≡ true)
              ⊎ IsNotFound association readers bytes_of settled.lock)))
    ⊎ (AnswersFrom association readers bytes_of settled.pinned (some parts)
        × IsNotFound association readers bytes_of racing.lock
        × (is_legacy association racing.pinned ≡ false)
        × (settled.lock ≡ ok tt))
unfolding read_paired_static_file reread parse_static_snapshot parse_identified lookup remember
    get_entry put_entry verify append_headers status_of identity_eq bytes_eq kind_eq
read_paired_static_file-AnswersFrom_example =
    read_paired_static_file-AnswersFrom association readers bytes_of (codes "/p") racing settled []
      (some parts) (pinned_file 1 2) (pinned_file 1 1) (λ p e h. absurd (cc)) (omega arith) refl
