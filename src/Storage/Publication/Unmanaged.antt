-- ===== src/Storage/Publication/Unmanaged.antt =====
-- src/static_routes/storage.rs: when a publisher without a policy may publish.
use leptos_ntex.Base.{
  ◌≡◌, ◌∙◌, refl, ap, ◌↔◌, if◌then◌else◌, Bool, true, false, not, some, Result, ok, ensure,
  bind-eq-ok, map_err-eq-ok,
}
use leptos_ntex.Storage.Errors.{StaticStorageError}
use leptos_ntex.Storage.Opening.{SitePath, active_policy, ancestor_policy, from_io}
use leptos_ntex.Storage.Publication.{Observed, Destination, check_unmanaged}

-- Neither the destination nor an ancestor of it inside the root has a policy.
abbrev pub IsUnmanaged : Observed → Destination → Type 0
IsUnmanaged o d =
    (canonical : SitePath) × (o.canonicalize d.parent ≡ ok canonical)
    × (active_policy (o.control canonical) ≡ ok false)
    × (ancestor_policy o.control canonical (some o.root) ≡ ok false)

unmanaged_cases :
    (r : Result StaticStorageError Bool) (here managed : Bool)
    → (if here then ok true else r) ≡ ok managed
    → ensure (not managed) StaticStorageError.binding_required ≡ ok tt
    → (here ≡ false) × (r ≡ ok false)
unmanaged_cases r true true m h = absurd (cc)
unmanaged_cases r true false m h = absurd (cc)
unmanaged_cases r false true m h = absurd (cc)
unmanaged_cases r false false m h = (refl, m)

pub check_unmanaged_lem :
    (o : Observed) (d : Destination) → (check_unmanaged o d ≡ ok tt) ↔ IsUnmanaged o d
unfolding check_unmanaged
check_unmanaged_lem o d = (to, from)
  where
    to : check_unmanaged o d ≡ ok tt → IsUnmanaged o d
    to h =
        let (canonical, c, h1) = bind-eq-ok (from_io (o.canonicalize d.parent)) _ h in
        let (here, a, h2) = bind-eq-ok (active_policy (o.control canonical)) _ h1 in
        let (managed, m, h3) =
          bind-eq-ok (if here then ok true else ancestor_policy o.control canonical (some o.root)) _
            h2 in
        let (off, above) = unmanaged_cases _ here managed m h3 in
        (canonical, map_err-eq-ok _ _ c, a ∙ ap ok off, above)

    from : IsUnmanaged o d → check_unmanaged o d ≡ ok tt
    from (canonical, c, a, r) = rw (check_unmanaged, c, a, r) refl
