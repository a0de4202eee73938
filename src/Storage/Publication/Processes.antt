-- ===== src/Storage/Publication/Processes.antt =====
-- Processes that open the storage of one site and publish into it, each storage with its cached
-- inventory. The exclusive lock on the control file makes an opening and a publication one step; a
-- process may also stop at any point after its admission.
use leptos_ntex.Base.{
  ℕ, ◌+◌, ◌≤◌, ◌==◌, ◌≡◌, if◌then◌else◌, Bytes, Option, none, some, List, Result, ok, err,
}
use leptos_ntex.Io.{IoError}
use leptos_ntex.Storage.Errors.{StaticStorageLimits, StaticStorageError}
use leptos_ntex.Storage.Accounting.{Usage}
use leptos_ntex.Storage.Record.{Record, record_len, read_record}
use leptos_ntex.Storage.Opening.{Control, Installed, install}
use leptos_ntex.Storage.Publication.{Cached, Pending, Session, Observed, Written, admit, commit}

-- The generation in the control file, the usage of the site, and every storage's cache.
pub record Site : Type 0 where
  pub generation : ℕ
  pub usage : Usage
  pub caches : ℕ → Option Cached

-- A publication starts from the generation that the record carries.
abbrev pub session : Site → ℕ → Session
session s i = record {
  disk = s.generation;
  cached = s.caches i;
  generation = s.generation;
  pending = none;
}

unfoldable pub put : ℕ → Option Cached → (ℕ → Option Cached) → ℕ → Option Cached
put i c caches j = if i == j then c else caches j

-- A scan of the whole site, if it succeeds, is the site's usage.
abbrev pub Faithful : Observed → Site → Type 0
Faithful o s = (u : Usage) → o.inventory ≡ ok u → u ≡ s.usage

-- A failed write of the generation does not set it back.
abbrev pub Forward : ℕ → Written → Type 0
Forward g w = (e : IoError) (left : ℕ) → w ≡ err (e, left) → g ≤ left

-- What `Storage::open` remembers.
abbrev pub seed : Installed → Cached
seed n = record { generation = n.generation; usage = n.usage }

-- The site changed exactly as the touched directory did, as far as that can be scanned again.
abbrev pub Local : Site → Pending → Result StaticStorageError Usage → Usage → Type 0
Local s p after u =
    (a : Usage)
    → after ≡ ok a
    → (u.bytes + p.before.bytes ≡ s.usage.bytes + a.bytes)
      × (u.entries + p.before.entries ≡ s.usage.entries + a.entries)

pub data Step (limits : StaticStorageLimits) (s : Site) : Site → Type 0 where
  refuses :
      (i : ℕ) (o : Observed) (lock : Bytes) (parent : List Bytes) (html metadata : ℕ) (t : Session)
      (e : StaticStorageError)
      → Faithful o s
      → Forward s.generation o.written
      → admit (some limits) (session s i) o lock parent html metadata ≡ (t, err e)
      → Step limits s (record s { generation = t.disk; caches = put i t.cached s.caches })
  publishes :
      (i : ℕ) (o : Observed) (lock : Bytes) (parent : List Bytes) (html metadata : ℕ) (t : Session)
      (p : Pending) (after : Option Bytes → Result StaticStorageError Usage) (written : Written)
      (u : Usage)
      → Faithful o s
      → admit (some limits) (session s i) o lock parent html metadata ≡ (t, ok tt)
      → t.pending ≡ some p
      → Forward t.disk written
      → Local s p (after p.created) u
      → Step limits s (record {
        generation = (commit t after written).disk;
        usage = u;
        caches = put i (commit t after written).cached s.caches;
      })
  stops :
      (i : ℕ) (o : Observed) (lock : Bytes) (parent : List Bytes) (html metadata : ℕ) (t : Session)
      (u : Usage)
      → Faithful o s
      → admit (some limits) (session s i) o lock parent html metadata ≡ (t, ok tt)
      → Step limits s (record { generation = t.disk; usage = u; caches = put i t.cached s.caches })
  restarts : (i : ℕ) → Step limits s (record s { caches = put i none s.caches })
  opens :
      (i : ℕ) (c : Control) (inventory : Result StaticStorageError Usage)
      (write : Bytes → Result IoError Bytes × Result IoError (Unit {0})) (r : Record)
      (n : Installed)
      → ((u : Usage) → inventory ≡ ok u → u ≡ s.usage)
      → read_record c.contents ≡ ok (some r)
      → r.generation ≡ s.generation
      → (install limits c inventory write).1 ≡ ok n
      → Step limits s (record s { caches = put i (some (seed n)) s.caches })

-- A site whose record is there and whose storages have no cache yet.
abbrev pub fresh : ℕ → Usage → Site
fresh g u = record { generation = g; usage = u; caches = λ i. none }

-- A site of this usage whose empty control file has just got its record, by the opening of storage `i`.
abbrev pub installed : ℕ → Usage → Installed → Site
installed i u n = record {
  generation = 0;
  usage = record u { bytes = u.bytes + record_len };
  caches = put i (some (seed n)) (λ j. none);
}

-- The sites that a history starts from.
pub data Starts (limits : StaticStorageLimits) : Site → Type 0 where
  found : (g : ℕ) (u : Usage) → Starts limits (fresh g u)
  installs :
      (i : ℕ) (c : Control) (inventory : Result StaticStorageError Usage)
      (write : Bytes → Result IoError Bytes × Result IoError (Unit {0})) (u : Usage) (n : Installed)
      → ((v : Usage) → inventory ≡ ok v → v ≡ u)
      → read_record c.contents ≡ ok none
      → (install limits c inventory write).1 ≡ ok n
      → Starts limits (installed i u n)

pub data Reach (limits : StaticStorageLimits) : Site → Type 0 where
  here : {s : Site} → Starts limits s → Reach limits s
  next : {s t : Site} → Reach limits s → Step limits s t → Reach limits t
