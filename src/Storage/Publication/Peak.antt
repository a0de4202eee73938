-- ===== src/Storage/Publication/Peak.antt =====
-- src/static_routes/storage.rs: a peak that passes is within the limits.
use leptos_ntex.Base.{ℕ, ◌+◌, ◌≡◌, subst, Bytes, ok, bind-eq-ok, arith}
use leptos_ntex.Storage.Errors.{StaticStorageLimits}
use leptos_ntex.Storage.Accounting.{Usage, add, add_iff, check_limits, check_limits_lem, Within}
use leptos_ntex.Storage.Publication.{Observed, Destination, needed_entries, peak}

check_limits-Within :
    (u : Usage) (l : StaticStorageLimits) (x : Unit {0})
    → check_limits u l ≡ ok x
    → Within l.logical_file_bytes u.bytes × Within l.namespace_entries u.entries
check_limits-Within u l x h = ground (arith, check_limits_lem u l)

-- What an admitted peak satisfies, and the scan of the touched directory that comes with it.
pub record Admissible (limits : StaticStorageLimits) (o : Observed) (lock : Bytes) (d : Destination)
    (total : Usage) (html metadata : ℕ) (before : Usage) : Type 0 where
  pub needed : ℕ
  pub counted : needed_entries o lock d ≡ ok needed
  pub bytes : Within limits.logical_file_bytes (total.bytes + html + metadata)
  pub entries : Within limits.namespace_entries (total.entries + needed)
  pub scanned : o.local d.created ≡ ok before

pub peak-Admissible :
    (limits : StaticStorageLimits) (o : Observed) (lock : Bytes) (d : Destination) (total : Usage)
    (html metadata : ℕ) (before : Usage)
    → peak limits o lock d total html metadata ≡ ok before
    → Admissible limits o lock d total html metadata before
unfolding peak
peak-Admissible limits o lock d total html metadata before h =
    let (a, ea, h1) = bind-eq-ok (add total.bytes html) _ h in
    let (b, eb, h2) = bind-eq-ok (add a metadata) _ h1 in
    let (n, en, h3) = bind-eq-ok (needed_entries o lock d) _ h2 in
    let (m, em, h4) = bind-eq-ok (add total.entries n) _ h3 in
    let usage : Usage = record { bytes = b; entries = m } in
    let (x, ec, h5) = bind-eq-ok (check_limits usage limits) _ h4 in
    let within = check_limits-Within usage limits x ec in
    record {
      needed = n;
      counted = en;
      bytes =
          subst (Within limits.logical_file_bytes)
            (sum total.bytes html metadata a b ((add_iff _ _ _).0 ea).0 ((add_iff _ _ _).0 eb).0)
            within.0;
      entries = subst (Within limits.namespace_entries) ((add_iff _ _ _).0 em).0 within.1;
      scanned = h5;
    }
  where
    sum : (t h m a b : ℕ) → a ≡ t + h → b ≡ a + m → b ≡ t + h + m
    sum t h m a b e f = omega arith
