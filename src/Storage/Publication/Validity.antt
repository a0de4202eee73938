-- ===== src/Storage/Publication/Validity.antt =====
-- src/static_routes/storage.rs: when a cached inventory is valid, and that commits leave it so.
use leptos_ntex.Base.{
  ℕ, ◌+◌, ◌≤◌, ◌==◌, ◌≡◌, refl, inl, inr, Bytes, Option, none, some, Result, ok, err, arith,
  Bool-cases,
}
use leptos_ntex.Storage.Errors.{StaticStorageError}
use leptos_ntex.Storage.Accounting.{Usage}
use leptos_ntex.Storage.Publication.{
  Cached, cached_usage, Pending, Session, Written, updated_usage, committed, commit,
}
use leptos_ntex.Storage.Publication.Laws.{Left, bump_cases, bumped}
use leptos_ntex.Storage.Publication.Processes.{put, Forward}

-- A cache that is valid for a generation and a usage of the site.
abbrev pub Valid : ℕ → Usage → Option Cached → Type 0
Valid g u none = Unit {0}
Valid g u (some c) = (c.generation ≤ g) × (c.generation ≡ g → c.usage ≡ u)

pub put-Valid :
    (g : ℕ) (u : Usage) (i : ℕ) (c : Option Cached) (caches : ℕ → Option Cached)
    → Valid g u c
    → ((j : ℕ) → Valid g u (caches j))
    → (j : ℕ) → Valid g u (put i c caches j)
unfolding put
put-Valid g u i c caches v w j = elim (Bool-cases (i == j)) [
  | inl same ↦ rw same v
  | inr other ↦ rw other (w j)
]

-- A cache stays valid while the site stays as it is.
pub Valid-later : (g h : ℕ) (u : Usage) (c : Option Cached) → g ≤ h → Valid g u c → Valid h u c
Valid-later g h u none l k = tt
Valid-later g h u (some c) l k = (omega arith, λ e. k.1 (omega arith))

-- A cache of an older generation stays valid whatever the site becomes.
pub Valid-older :
    (g h : ℕ) (u v : Usage) (c : Option Cached) → g + 1 ≤ h → Valid g u c → Valid h v c
Valid-older g h u v none l k = tt
Valid-older g h u v (some c) l k = (omega arith, λ e. absurd (omega arith))

pub cached_usage-Valid :
    (g : ℕ) (u total : Usage) (c : Option Cached)
    → Valid g u c
    → cached_usage c g ≡ some total
    → total ≡ u
unfolding cached_usage
cached_usage-Valid g u total none v e = cc
cached_usage-Valid g u total (some c) v e = ground arith

pub updated-exact :
    (p : Pending) (r : Result StaticStorageError Usage) (u : Usage)
    → updated_usage p r ≡ some u
    → (a : Usage) × (r ≡ ok a)
      × (u.bytes + p.before.bytes ≡ p.total.bytes + a.bytes)
      × (u.entries + p.before.entries ≡ p.total.entries + a.entries)
unfolding updated_usage
updated-exact p (err e) u h = cc
updated-exact p (ok a) u h = (a, refl, ground arith, ground arith)

pub Left-Forward : (s : Session) (w : Written) (d : ℕ) → Forward s.disk w → Left s w d → s.disk ≤ d
Left-Forward s w d f (inl e) = omega arith
Left-Forward s w d f (inr (x, e)) = f x d e

pub commit-Valid :
    (t : Session) (p : Pending) (after : Option Bytes → Result StaticStorageError Usage)
    (written : Written) (v : Usage)
    → t.pending ≡ some p
    → Forward t.disk written
    → t.generation ≡ t.disk
    → ((u : Usage) → updated_usage p (after p.created) ≡ some u → u ≡ v)
    → (t.disk ≤ (commit t after written).disk)
      × Valid (commit t after written).disk v (commit t after written).cached
unfolding commit
commit-Valid t p after written v e f g exact =
    elim (bump_cases (record t { pending = none }) written) [
      | inl (b, _) ↦ rw (e, commit) (rw b (stored (updated_usage p (after p.created)) refl))
      | inr (x, d, left, b) ↦
          rw (e, commit)
            (rw b (
              dropped (updated_usage p (after p.created)) x d
                (Left-Forward (record t { pending = none }) written d f left)))
    ]
  where
    stored :
        (o : Option Usage)
        → updated_usage p (after p.created) ≡ o
        → let c = committed o (bumped (record t { pending = none }), ok tt) in
          (t.disk ≤ c.disk) × Valid c.disk v c.cached
    stored none h = (omega arith, tt)
    stored (some u) h = (omega arith, (omega arith, λ _. exact u h))

    dropped :
        (o : Option Usage) (x : StaticStorageError) (d : ℕ)
        → t.disk ≤ d
        → let c = committed o (record t { pending = none; disk = d }, err x) in
          (t.disk ≤ c.disk) × Valid c.disk v c.cached
    dropped none x d l = (l, tt)
    dropped (some u) x d l = (l, tt)
