-- ===== src/Snapshots/Pairs.antt =====
-- src/static_routes.rs: a read that overlaps publications never serves a page with another page's
-- metadata, and takes only a page from before the publications for one without metadata.
use leptos_ntex.Base.{
  ℕ, zero, suc, ◌==◌, ◌≡◌, ◌≢◌, ◌⊎◌, refl, sym, ◌∙◌, ap, subst, arith, inl, inr, if◌then◌else◌,
  Bool, true, false, ◌&&◌, Bytes, bytes_eq, bytes_eq_iff, Option, none, some, is_some, ok,
  bind-eq-ok, ensure-eq-ok, ensure,
}
use leptos_ntex.Io.{IoErrorKind, plain}
use leptos_ntex.Headers.{HeaderMap}
use leptos_ntex.Responses.{ResponseParts}
use leptos_ntex.Snapshots.{
  File, Readers, StoredResponse, verify, Page, Stage, Publishes, locks, publishes_metadata,
  publishes_html, ends, Reaches, here, next,
}
use leptos_ntex.Snapshots.Cache.{reference}

-- A page before its first publication, there or not.
abbrev pub unpublished : Bool → Page
unpublished old = record {
  html = (if old then some 0 else none);
  metadata = none;
  has_lock = false;
  stage = Stage.idle;
}

abbrev IsDue : Stage → Option ℕ → Type 0
IsDue Stage.idle metadata = Unit
IsDue (Stage.locked n) metadata = Unit
IsDue (Stage.committed n) metadata = metadata ≡ some n

-- The metadata comes before the HTML, and the lock before both.
pub record IsOrdered (p : Page) : Type 0 where
  pub due : IsDue p.stage p.metadata
  pub paired : (n : ℕ) → p.html ≡ some (suc n) → is_some p.metadata ≡ true
  pub lock_first : is_some p.metadata ≡ true → p.has_lock ≡ true
  pub lock_held : p.stage ≢ Stage.idle → p.has_lock ≡ true

locked_busy : (n : ℕ) → Stage.locked n ≢ Stage.idle
locked_busy n e = cc

Step-IsOrdered : {p q : Page} → Publishes p q → IsOrdered p → IsOrdered q
Step-IsOrdered {p} (locks n e) o = record {
  due = tt;
  paired = o.paired;
  lock_first = λ h. refl;
  lock_held = λ h. refl;
}
Step-IsOrdered {p} (publishes_metadata n e) o =
    let locked : p.has_lock ≡ true = o.lock_held (λ i. absurd (locked_busy n (sym e ∙ i))) in
    record { due = refl; paired = λ m h. refl; lock_first = λ h. locked; lock_held = λ h. locked }
Step-IsOrdered {p} (publishes_html n e) o =
    let due : p.metadata ≡ some n = subst (λ s. IsDue s p.metadata) e o.due in
    record {
      due = tt;
      paired = λ m h. ap is_some due;
      lock_first = o.lock_first;
      lock_held = λ h. absurd (h refl);
    }
Step-IsOrdered {p} ends o = record {
  due = tt;
  paired = o.paired;
  lock_first = o.lock_first;
  lock_held = λ h. absurd (h refl);
}

Reaches-IsOrdered : {p q : Page} → Reaches p q → IsOrdered p → IsOrdered q
Reaches-IsOrdered here o = o
Reaches-IsOrdered (next r s) o = Step-IsOrdered s (Reaches-IsOrdered r o)

unpublished-IsOrdered : (old : Bool) → IsOrdered (unpublished old)
unpublished-IsOrdered true = record {
  due = tt;
  paired = λ n h. absurd (ground (arith, h));
  lock_first = λ h. absurd (cc);
  lock_held = λ h. absurd (h refl);
}
unpublished-IsOrdered false = record {
  due = tt;
  paired = λ n h. absurd (cc);
  lock_first = λ h. absurd (cc);
  lock_held = λ h. absurd (h refl);
}

-- Metadata stays.
Publishes-metadata :
    {p q : Page} → Publishes p q → is_some p.metadata ≡ true → is_some q.metadata ≡ true
Publishes-metadata (locks n e) h = h
Publishes-metadata (publishes_metadata n e) h = refl
Publishes-metadata (publishes_html n e) h = h
Publishes-metadata ends h = h

Reaches-metadata :
    {p q : Page} → Reaches p q → is_some p.metadata ≡ true → is_some q.metadata ≡ true
Reaches-metadata here h = h
Reaches-metadata (next r s) h = Publishes-metadata s (Reaches-metadata r h)

-- A page whose HTML was opened before its metadata was found to be absent is one from before
-- the publications.
legacy :
    (old : Bool) (p q : Page) (g : ℕ)
    → Reaches (unpublished old) p
    → Reaches p q
    → p.html ≡ some g
    → q.metadata ≡ none
    → g ≡ 0
legacy old p q zero r s h n = refl
legacy old p q (suc g) r s h n =
    let there = Reaches-metadata s ((Reaches-IsOrdered r (unpublished-IsOrdered old)).paired g h) in
    absurd (ground (arith, there, n))

module _ (H : HeaderMap) (r : Readers) (html_of metadata_of : ℕ → Bytes)
    (stored : (n : ℕ)
      → (s : StoredResponse) × (r.from_reader (metadata_of n) ≡ ok s)
        × (s.digest ≡ r.body_digest (html_of n)))
    (distinct : (m n : ℕ)
      → r.body_digest (html_of m) ≡ r.body_digest (html_of n)
      → html_of m ≡ html_of n) where
  verify-same :
      (g k : ℕ) (parts : ResponseParts H)
      → verify H r (html_of g) (metadata_of k) ≡ ok parts
      → html_of g ≡ html_of k
  unfolding verify
  verify-same g k parts h =
      let (s, read, digest) = stored k in
      let (t, read_t, rest) = bind-eq-ok (r.from_reader (metadata_of k)) _ h in
      let (u, checked, _) =
        bind-eq-ok
          (ensure (t.version == 1 && bytes_eq t.digest (r.body_digest (html_of g)))
            (plain IoErrorKind.invalid_data))
          _ rest in
      let test = ensure-eq-ok _ _ checked in
      let same : t ≡ s = ground (arith, read, read_t) in
      let equal : t.digest ≡ r.body_digest (html_of g) =
        (bytes_eq_iff t.digest (r.body_digest (html_of g))).0 (ground (arith, test)) in
      distinct g k (sym equal ∙ ap (λ (s : StoredResponse). s.digest) same ∙ digest)

  -- A file and its metadata, opened while the page was in two states.
  abbrev pub IsOpened : (p q : Page) (file : File) (metadata : Option File) (g : ℕ) → Type 0
  IsOpened p q file none g = (p.html ≡ some g) × (file.bytes ≡ html_of g) × (q.metadata ≡ none)
  IsOpened p q file (some m) g =
      (p.html ≡ some g)
      × (file.bytes ≡ html_of g)
      × ((k : ℕ) × (q.metadata ≡ some k) × (m.bytes ≡ metadata_of k))

  -- A read opens the HTML and then its metadata while publications go on, end or are cut short in
  -- between. If it answers without metadata, the page is one from before the publications; if it answers with
  -- metadata, this is the metadata of a publication of the very bytes that are served. What is written
  -- as metadata names the digest of its page, and pages of different bytes have different digests.
  pub reference-pair :
      (old : Bool) (p q : Page) (file : File) (metadata : Option File) (g : ℕ)
      (answer : Option (ResponseParts H))
      → Reaches (unpublished old) p
      → Reaches p q
      → IsOpened p q file metadata g
      → reference H r file metadata ≡ ok answer
      → ((answer ≡ none) × (g ≡ 0))
        ⊎ ((parts : ResponseParts H) × (k : ℕ) × (answer ≡ some parts)
            × (q.metadata ≡ some k)
            × (file.bytes ≡ html_of k))
  reference-pair old p q file none g answer s t (h, b, n) e =
      inl (ground (arith, e), legacy old p q g s t h n)
  reference-pair old p q file (some m) g answer s t (h, b, (k, there, c)) e =
      let (i, _, rest) = bind-eq-ok file.identity _ e in
      let (j, _, parsed) = bind-eq-ok m.identity _ rest in
      let (parts, verified, is) = bind-eq-ok (verify H r file.bytes m.bytes) _ parsed in
      let bytes : verify H r (html_of g) (metadata_of k) ≡ ok parts =
        subst (λ x. verify H r x (metadata_of k) ≡ ok parts) b
          (subst (λ y. verify H r file.bytes y ≡ ok parts) c verified) in
      inr (parts, k, ground (arith, is), there, b ∙ verify-same g k parts bytes)
