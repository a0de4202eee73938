-- ===== src/Storage/Publication/Coherence.antt =====
-- src/static_routes/storage.rs: cached inventories stay true to the site, and limits are kept.
use leptos_ntex.Base.{
  ℕ, ◌+◌, ◌≤◌, ◌≡◌, sym, ap, ◌∙◌, subst, inl, inr, Bytes, none, some, List, Result, ok, err, arith,
  bind-eq-ok,
}
use leptos_ntex.Storage.Errors.{StaticStorageLimits, StaticStorageError}
use leptos_ntex.Storage.Record.{record_len}
use leptos_ntex.Storage.Accounting.{Usage, Within, add, add_iff}
use leptos_ntex.Storage.Opening.{with_record}
use leptos_ntex.Storage.Opening.Laws.{install-Seeded}
use leptos_ntex.Storage.Publication.{
  Cached, Pending, Session, Observed, Destination, find_parent, needed_entries, admit, total_usage,
}
use leptos_ntex.Storage.Publication.Laws.{Admitted, Kept, Refused, admit_cases, total_usage_cases}
use leptos_ntex.Storage.Publication.Processes.{
  Site, session, Faithful, Forward, seed, Step, refuses, publishes, stops, restarts, opens, Starts,
  found, installs, Reach, here, next,
}
use leptos_ntex.Storage.Publication.Validity.{
  Valid, put-Valid, Valid-later, Valid-older, cached_usage-Valid, updated-exact, Left-Forward,
  commit-Valid,
}

abbrev pub IsCoherent : Site → Type 0
IsCoherent s = (i : ℕ) → Valid s.generation s.usage (s.caches i)

-- In a coherent site, the total that admission uses is the usage of the site.
total-exact :
    (s : Site) (i : ℕ) (o : Observed) (m : Session) (total : Usage)
    → IsCoherent s
    → Faithful o s
    → total_usage (session s i) o ≡ (m, ok total)
    → (total ≡ s.usage)
      × (m.disk ≡ s.generation)
      × (m.generation ≡ s.generation)
      × Valid s.generation s.usage m.cached
total-exact s i o m total v f e = elim (total_usage_cases (session s i) m o total e) [
  | inl (same, hit) ↦ (
    cached_usage-Valid s.generation s.usage total (s.caches i) (v i) hit,
    ap (λ r. r.disk) same,
    ap (λ r. r.generation) same,
    subst (λ (r : Session). Valid s.generation s.usage r.cached) (sym same) (v i),
  )
  | inr (scan, same) ↦ (
    f total scan,
    ap (λ r. r.disk) same,
    ap (λ r. r.generation) same,
    subst (λ (r : Session). Valid s.generation s.usage r.cached) (sym same)
        (omega arith, λ _. f total scan),
  )
]

module _ (limits : StaticStorageLimits) (s : Site) (i : ℕ) (o : Observed) (lock : Bytes)
    (parent : List Bytes) (html metadata : ℕ) (t : Session) (v : IsCoherent s)
    (f : Faithful o s) where
  admit-refused :
      (e : StaticStorageError)
      → Forward s.generation o.written
      → admit (some limits) (session s i) o lock parent html metadata ≡ (t, err e)
      → (s.generation ≤ t.disk) × Valid t.disk s.usage t.cached
  admit-refused e w a = elim (admit_cases (some limits) (session s i) o lock parent html metadata) [
    | inl (t', _, h) ↦ cc
    | inr (t', e', r, h) ↦ kept (subst (Refused (session s i) o) (cc) r)
  ]
    where
      remembered :
          (m : Session)
          → Kept (session s i) o m
          → (m.disk ≡ s.generation) × Valid s.generation s.usage m.cached
      remembered m (inl same) = (
        ap (λ r. r.disk) same,
        subst (λ (r : Session). Valid s.generation s.usage r.cached) (sym same) (v i),
      )
      remembered m (inr (total, scan, same)) = (
        ap (λ r. r.disk) same,
        subst (λ (r : Session). Valid s.generation s.usage r.cached) (sym same)
            (omega arith, λ _. f total scan),
      )

      kept : Refused (session s i) o t → (s.generation ≤ t.disk) × Valid t.disk s.usage t.cached
      kept (m, k, g, left, same) =
          let (disk, valid) = remembered m k in
          let later : s.generation ≤ g =
            subst (λ d. d ≤ g) disk
              (Left-Forward m o.written g (subst (λ d. Forward d o.written) (sym disk) w) left) in
          subst (λ (r : Session). (s.generation ≤ r.disk) × Valid r.disk s.usage r.cached)
            (sym same) (later, Valid-later s.generation g s.usage m.cached later valid)

  admit-Admitted :
      admit (some limits) (session s i) o lock parent html metadata ≡ (t, ok tt)
      → Admitted limits (session s i) t o lock parent html metadata
  admit-Admitted a = elim (admit_cases (some limits) (session s i) o lock parent html metadata) [
    | inl (t', r, h) ↦
        subst (λ r. Admitted limits (session s i) r o lock parent html metadata) (cc) r
    | inr (t', e', r, h) ↦ cc
  ]

  admit-announced :
      Admitted limits (session s i) t o lock parent html metadata
      → (t.disk ≡ s.generation + 1)
        × (t.generation ≡ t.disk)
        × Valid s.generation s.usage t.cached
        × ((p : Pending) → t.pending ≡ some p → p.total ≡ s.usage)
  admit-announced r =
      let (total, _, generation, cached) = total-exact s i o r.middle r.total v f r.known in
      (
        ap (λ q. q.disk) r.after ∙ ap (λ (n : ℕ). n + 1) generation,
        ap (λ q. q.generation) r.after ∙ sym (ap (λ q. q.disk) r.after),
        subst (λ (q : Session). Valid s.generation s.usage q.cached) (sym r.after) cached,
        λ p e. cc (ap (λ q. q.pending) r.after),
      )

local-exact :
    (s : Site) (p : Pending) (u w b : Usage)
    → p.total ≡ s.usage
    → (u.bytes + p.before.bytes ≡ s.usage.bytes + b.bytes)
      × (u.entries + p.before.entries ≡ s.usage.entries + b.entries)
    → w.bytes + p.before.bytes ≡ p.total.bytes + b.bytes
    → w.entries + p.before.entries ≡ p.total.entries + b.entries
    → w ≡ u
local-exact s p u w b same l x y = ground arith

-- What an opening remembers is the usage of the site.
seeded :
    (inventory : Result StaticStorageError Usage) (u v w : Usage)
    → ((x : Usage) → inventory ≡ ok x → x ≡ u)
    → inventory ≡ ok v
    → with_record none v ≡ ok w
    → w ≡ record u { bytes = u.bytes + record_len }
seeded inventory u v w f e h =
    let (b, sum, k) = bind-eq-ok (add v.bytes record_len) _ h in
    let same : v ≡ u = f v e in ground (arith, k, ((add_iff _ _ _).0 sum).0, same)

Starts-IsCoherent : {limits : StaticStorageLimits} {s : Site} → Starts limits s → IsCoherent s
Starts-IsCoherent (found g u) = λ i. tt
Starts-IsCoherent {limits} (installs i c inventory write u n f empty done) =
    let (v, scan, generation, sum) = install-Seeded limits c inventory write n none empty done in
    put-Valid 0 (record u { bytes = u.bytes + record_len }) i (some (seed n)) (λ j. none)
      (omega arith, λ _. seeded inventory u v n.usage f scan sum) (λ j. tt)

-- Every step keeps every cache valid.
Step-IsCoherent :
    {limits : StaticStorageLimits} {s t : Site} → Step limits s t → IsCoherent s → IsCoherent t
Step-IsCoherent {limits} {s} (refuses i o lock parent html metadata t e f w a) v =
    let (disk, valid) = admit-refused limits s i o lock parent html metadata t v f e w a in
    put-Valid t.disk s.usage i t.cached s.caches valid
      (λ j. Valid-later s.generation t.disk s.usage (s.caches j) disk (v j))
Step-IsCoherent {limits} {s} (opens i c inventory write r n f read generation done) v =
    let (u, scan, same, kept) = install-Seeded limits c inventory write n (some r) read done in
    put-Valid s.generation s.usage i (some (seed n)) s.caches (omega arith, λ _. cc (f u scan)) v
Step-IsCoherent {limits} {s} (publishes i o lock parent html metadata t p after written u f a e w l)
      v =
    let r = admit-Admitted limits s i o lock parent html metadata t v f a in
    let (disk, same, _, total) = admit-announced limits s i o lock parent html metadata t v f r in
    let (later, valid) = commit-Valid t p after written u e w same (λ x h.
      let (b, back, y, z) = updated-exact p (after p.created) x h in
      local-exact s p u x b (total p e) (l b back) y z) in
    put-Valid _ u i _ s.caches valid
      (λ j. Valid-older s.generation _ s.usage u (s.caches j) (omega arith) (v j))
Step-IsCoherent {limits} {s} (stops i o lock parent html metadata t u f a) v =
    let r = admit-Admitted limits s i o lock parent html metadata t v f a in
    let (disk, _, valid, _) = admit-announced limits s i o lock parent html metadata t v f r in
    put-Valid t.disk u i t.cached s.caches
      (Valid-older s.generation t.disk s.usage u t.cached (omega arith) valid)
      (λ j. Valid-older s.generation t.disk s.usage u (s.caches j) (omega arith) (v j))
Step-IsCoherent {limits} {s} (restarts i) v = put-Valid s.generation s.usage i none s.caches tt v

Reach-IsCoherent' : {limits : StaticStorageLimits} {s : Site} → Reach limits s → IsCoherent s
Reach-IsCoherent' (here st) = Starts-IsCoherent st
Reach-IsCoherent' (next h st) = Step-IsCoherent st (Reach-IsCoherent' h)

-- Whatever the processes do, from the installation of the policy or from a site that has its record,
-- with openings of the storage, refusals, committed publications, publications that fail or are
-- killed after they were admitted, and restarts in any order, where a scan that succeeds reports the
-- site as it is, a publication changes it in the touched directory only, and a failed write does not set
-- the generation back: a cached inventory whose generation is the record's generation is the usage of
-- the site.
pub Reach-IsCoherent :
    {limits : StaticStorageLimits} {s : Site}
    → Reach limits s
    → (i : ℕ) (c : Cached) → s.caches i ≡ some c
    → c.generation ≡ s.generation
    → c.usage ≡ s.usage
Reach-IsCoherent {limits} {s} h i c e =
    let valid : Valid s.generation s.usage (some c) =
      subst (Valid s.generation s.usage) e (Reach-IsCoherent' h i) in
    valid.1

-- A publication that is admitted in a reachable site keeps its whole peak within the limits, as
-- the site really is: the bytes in use with both new files, and the entries in use with all those
-- that the publication may create.
pub admit-Within :
    {limits : StaticStorageLimits} {s : Site} (i : ℕ) (o : Observed) (lock : Bytes)
    (parent : List Bytes) (html metadata : ℕ) (t : Session)
    → Reach limits s
    → Faithful o s
    → admit (some limits) (session s i) o lock parent html metadata ≡ (t, ok tt)
    → Within limits.logical_file_bytes (s.usage.bytes + html + metadata)
      × ((d : Destination) × (needed : ℕ) × (find_parent o.probe parent 0 none ≡ ok d)
          × (needed_entries o lock d ≡ ok needed)
          × Within limits.namespace_entries (s.usage.entries + needed))
      × (t.disk ≡ s.generation + 1)
admit-Within {limits} {s} i o lock parent html metadata t h f a =
    let v = Reach-IsCoherent' h in
    let r = admit-Admitted limits s i o lock parent html metadata t v f a in
    let (total, _, _, _) = total-exact s i o r.middle r.total v f r.known in
    (
      subst (λ (q : Usage). Within limits.logical_file_bytes (q.bytes + html + metadata)) total
          r.admissible.bytes,
      (
        r.destination,
        r.admissible.needed,
        r.found,
        r.admissible.counted,
        subst (λ (q : Usage). Within limits.namespace_entries (q.entries + r.admissible.needed))
            total r.admissible.entries,
      ),
      (admit-announced limits s i o lock parent html metadata t v f r).0,
    )
