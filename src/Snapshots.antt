-- ===== src/Snapshots.antt =====
-- src/static_routes.rs: reading a published page with its metadata, and the memory of verified pairs.
-- The JSON reader, the digest, the checks of a status and of header names and values are arguments,
-- and a header map is the interface of Headers.
pub mod Cache
pub mod Metadata
pub mod Pairs
pub mod Looks
use leptos_ntex.Base.{
  ℕ, suc, ◌≡◌, ◌==◌, ltb, leb, if◌then◌else◌, Bool, true, false, not, ◌&&◌, ◌||◌, Bytes, bytes_eq,
  Option, none, some, is_none, List, [], ◌∷◌, length, Result, ok, err, ◌>>=◌, ◌>>◌, ensure,
}
use leptos_ntex.Io.{IoError, IoErrorKind, kind_eq, plain}
use leptos_ntex.Headers.{HeaderName, HeaderValue, HeaderMap}
use leptos_ntex.Responses.{ResponseParts}

-- What an entry of a directory is, from its metadata.
pub data EntryKind : Type 0 where
  directory symlink other_entry : EntryKind

abbrev is_dir : EntryKind → Bool
is_dir EntryKind.directory = true
is_dir EntryKind.symlink = false
is_dir EntryKind.other_entry = false

unfoldable pub damaged_metadata_error : IoError → IoError
damaged_metadata_error e =
    if kind_eq e.kind IoErrorKind.not_found then record e { kind = IoErrorKind.invalid_data } else e

-- Whether the lookup of the metadata entry failed in a way that a missing entry does.
unfoldable pub is_missing : IoError → Bool
is_missing e = kind_eq e.kind IoErrorKind.not_found || kind_eq e.kind IoErrorKind.not_a_directory

-- What the filesystem answers: the entry opened, the metadata of the entry and of its directory
-- without following links, and of the directory with following them.
pub record Lookups (A : Type 0) : Type 0 where
  pub opened : Result IoError A
  pub entry : Result IoError EntryKind
  pub parent : Result IoError EntryKind
  pub resolved : Result IoError EntryKind

-- The match on the metadata of the directory, after the entry was not found with the error `e`.
unfoldable pub metadata_parent :
    {A : Type 0}
    → (parent resolved : Result IoError EntryKind) → IoError
    → Result IoError (Option A)
metadata_parent (err lookup_error) resolved e =
    if kind_eq lookup_error.kind IoErrorKind.not_found then ok none else err lookup_error
metadata_parent (ok EntryKind.directory) resolved e = ok none
metadata_parent (ok EntryKind.other_entry) resolved e = err (damaged_metadata_error e)
metadata_parent (ok EntryKind.symlink) (err resolve) e = err (damaged_metadata_error resolve)
metadata_parent (ok EntryKind.symlink) (ok target) e =
    if is_dir target then ok none else err (damaged_metadata_error e)

unfoldable pub open_static_metadata : {A : Type 0} → Lookups A → Result IoError (Option A)
open_static_metadata l = elim l.opened [
  | ok file ↦ ok (some file)
  | err e ↦ if not (is_missing e) then err e else elim l.entry [
    | ok kind ↦ err (damaged_metadata_error e)
    | err lookup_error ↦ metadata_parent l.parent l.resolved e
  ]
]

pub record Identity : Type 0 where
  pub device : ℕ
  pub inode : ℕ
  pub length : ℕ
  pub changed : ℕ × ℕ
  pub modified : ℕ × ℕ

unfoldable pub identity_eq : Identity → Identity → Bool
identity_eq a b =
    a.device == b.device
    && (a.inode == b.inode
        && (a.length == b.length
            && ((a.changed.0 == b.changed.0 && a.changed.1 == b.changed.1)
                && (a.modified.0 == b.modified.0 && a.modified.1 == b.modified.1))))

-- An open file: its identity, where the platform has one, and its bytes.
pub record File : Type 0 where
  pub identity : Result IoError (Option Identity)
  pub bytes : Bytes

pub record StoredResponse : Type 0 where
  pub version : ℕ
  pub digest : Bytes
  pub status : Option ℕ
  pub headers : List (Bytes × Bytes)

-- The readers and checks of other crates: serde_json on the metadata, the SHA-256 of a body in
-- hexadecimal, `StatusCode::from_u16`, `HeaderName::from_bytes` and `HeaderValue::from_bytes`.
pub record Readers : Type 0 where
  pub from_reader : Bytes → Result IoError StoredResponse
  pub body_digest : Bytes → Bytes
  pub from_u16 : ℕ → Result IoError ℕ
  pub name_from_bytes : Bytes → Result IoError HeaderName
  pub value_from_bytes : Bytes → Result IoError HeaderValue

abbrev pub capacity : ℕ
capacity = 4096

module _ (H : HeaderMap) where
  open H use {Map, empty, append}

  pub record Entry : Type 0 where
    pub html : Identity
    pub metadata : Identity
    pub parts : ResponseParts H

  -- The entries by canonical path.
  abbrev pub Entries : Type 0
  Entries = List (Bytes × Entry)

  unfoldable pub get_entry : Bytes → Entries → Option Entry
  unfolding bytes_eq
  get_entry path [] = none
  get_entry path ((p, e) ∷ entries) = if bytes_eq p path then some e else get_entry path entries

  unfoldable pub put_entry : Bytes → Entry → Entries → Entries
  unfolding bytes_eq
  put_entry path entry [] = (path, entry) ∷ []
  put_entry path entry ((p, e) ∷ entries) =
      let rest = put_entry path entry entries in
      if bytes_eq p path then (p, entry) ∷ entries else (p, e) ∷ rest

  unfoldable pub lookup : Bytes → (html metadata : Identity) → Entries → Option (ResponseParts H)
  lookup canonical html metadata entries = elim (get_entry canonical entries) [
    | none ↦ none
    | some e ↦
        if identity_eq e.html html && identity_eq e.metadata metadata then some e.parts else none
  ]

  unfoldable pub remember :
      Bytes → (html metadata : Identity) (parts : ResponseParts H) → Entries → Entries
  remember canonical html metadata parts entries =
      let entry : Entry = record { html = html; metadata = metadata; parts = parts } in
      if leb capacity (length entries) && is_none (get_entry canonical entries)
      then put_entry canonical entry []
      else put_entry canonical entry entries

  -- The loop over the stored headers.
  unfoldable pub append_headers : Readers → List (Bytes × Bytes) → Map → Result IoError Map
  append_headers r [] headers = ok headers
  append_headers r ((name, value) ∷ rest) headers = do
    n ← r.name_from_bytes name
    v ← r.value_from_bytes value
    append_headers r rest (append n v headers)

  unfoldable pub status_of : Readers → Option ℕ → Result IoError (Option ℕ)
  status_of r none = ok none
  status_of r (some n) = r.from_u16 n >>= λ s. ok (some s)

  -- `parse_static_snapshot` from reading the metadata to the parts.
  unfoldable pub verify : Readers → (body metadata : Bytes) → Result IoError (ResponseParts H)
  unfolding status_of
  verify r body metadata = do
    stored ← r.from_reader metadata
    ensure (stored.version == 1 && bytes_eq stored.digest (r.body_digest body))
        (plain IoErrorKind.invalid_data)
    status ← status_of r stored.status
    headers ← append_headers r stored.headers empty
    ok (record { status = status; headers = headers })

  -- The rest of `parse_static_snapshot`, where both files have an identity.
  unfoldable pub parse_identified :
      Readers
      → Bytes
      → (file metadata : File) (i j : Identity) → Entries
      → Entries × Result IoError (Option (ResponseParts H))
  parse_identified r canonical file metadata i j entries = elim (lookup canonical i j entries) [
    | some parts ↦ (entries, ok (some parts))
    | none ↦ elim (verify r file.bytes metadata.bytes) [
      | err e ↦ (entries, err e)
      | ok parts ↦ (remember canonical i j parts entries, ok (some parts))
    ]
  ]

  -- The same without identities.
  abbrev pub parse_unidentified :
      Readers → (file metadata : File) → Result IoError (Option (ResponseParts H))
  parse_unidentified r file metadata =
      verify r file.bytes metadata.bytes >>= λ parts. ok (some parts)

  unfoldable pub parse_static_snapshot :
      Readers
      → (canonical : Bytes) (file : File) (metadata : Option File) → Entries
      → Entries × Result IoError (Option (ResponseParts H))
  parse_static_snapshot r canonical file none entries = (entries, ok none)
  parse_static_snapshot r canonical file (some metadata) entries = elim file.identity [
    | err e ↦ (entries, err e)
    | ok html ↦ elim metadata.identity [
      | err e ↦ (entries, err e)
      | ok stored ↦ elim html [
        | none ↦ (entries, parse_unidentified r file metadata)
        | some i ↦ elim stored [
          | none ↦ (entries, parse_unidentified r file metadata)
          | some j ↦ parse_identified r canonical file metadata i j entries
        ]
      ]
    ]
  ]

  -- What a read finds at one of its two looks: the directory's lock for reading, and the two files
  -- that are opened after it, the HTML first.
  pub record Look : Type 0 where
    pub lock : Result IoError (Unit {0})
    pub pinned : Result IoError (File × Option File)

  abbrev pub parse_pinned :
      Readers
      → Bytes
      → Result IoError (File × Option File)
      → Entries
      → Entries × Result IoError (Option (ResponseParts H))
  parse_pinned r canonical (err e) entries = (entries, err e)
  parse_pinned r canonical (ok (file, metadata)) entries =
      parse_static_snapshot r canonical file metadata entries

  -- Pinned without metadata.
  abbrev pub is_legacy : Result IoError (File × Option File) → Bool
  is_legacy (err e) = false
  is_legacy (ok (file, metadata)) = is_none metadata

  -- The second look of a read that found no lock.
  unfoldable pub reread :
      Readers
      → Bytes
      → Look
      → Entries
      → Result IoError (Option (ResponseParts H))
      → Entries × Result IoError (Option (ResponseParts H))
  reread r canonical second entries snapshot = elim second.lock [
    | ok _ ↦ parse_pinned r canonical second.pinned entries
    | err e ↦ if kind_eq e.kind IoErrorKind.not_found then (entries, snapshot) else (entries, err e)
  ]

  -- `read_paired_static_file`, from the directory to the parts.
  unfoldable pub read_paired_static_file :
      Readers
      → Bytes
      → (first second : Look) → Entries
      → Entries × Result IoError (Option (ResponseParts H))
  read_paired_static_file r canonical first second entries = elim first.lock [
    | ok _ ↦ parse_pinned r canonical first.pinned entries
    | err e ↦
        if not (kind_eq e.kind IoErrorKind.not_found)
        then (entries, err e)
        else (let (after, snapshot) = parse_pinned r canonical first.pinned entries in
            if is_legacy first.pinned
            then (after, snapshot)
            else reread r canonical second after snapshot)
  ]

-- The files of one page in its directory: the number of the publication that each file is of, where
-- 0 is a page without metadata from before; whether the lock exists; and how far a publication is
-- that holds the lock.
pub data Stage : Type 0 where
  idle : Stage
  locked committed : (publication : ℕ) → Stage

pub record Page : Type 0 where
  pub html : Option ℕ
  pub metadata : Option ℕ
  pub has_lock : Bool
  pub stage : Stage

-- `write_static_route_managed` from the publication lock on: the lock is taken, then the metadata and then
-- the HTML replace the old files, and the lock is released. A process may end anywhere.
pub data Publishes (p : Page) : Page → Type 0 where
  locks :
      (n : ℕ)
      → p.stage ≡ Stage.idle
      → Publishes p (record p { has_lock = true; stage = Stage.locked (suc n) })
  publishes_metadata :
      (n : ℕ)
      → p.stage ≡ Stage.locked n
      → Publishes p (record p { metadata = some n; stage = Stage.committed n })
  publishes_html :
      (n : ℕ)
      → p.stage ≡ Stage.committed n
      → Publishes p (record p { html = some n; stage = Stage.idle })
  ends : Publishes p (record p { stage = Stage.idle })

pub data Reaches (p : Page) : Page → Type 0 where
  here : Reaches p p
  next : {q s : Page} → Reaches p q → Publishes q s → Reaches p s
