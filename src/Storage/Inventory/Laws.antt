-- ===== src/Storage/Inventory/Laws.antt =====
-- The loop over open directories computes the usage that the tree defines.
use leptos_ntex.Base.{
  ℕ, suc, ◌+◌, ◌≤◌, ◌≡◌, refl, ap, ◌∙◌, ◌↔◌, inl, inr, false, some, [], ◌∷◌, Result, ok, arith,
  u64_max, Result-cases, bind-eq-ok, if-err-eq-ok,
}
use leptos_ntex.Storage.Errors.{StaticStorageError}
use leptos_ntex.Storage.Accounting.{Usage, no_usage, charge, add}
use leptos_ntex.Storage.Inventory.Walk.{
  walk, walk_entries, walk_stack, size_stack, inventory_from-walk,
}
use leptos_ntex.Storage.Inventory.{
  regular, irregular, Node, file, other, dir, failed, Entries, nil, cons, inventory, size_entries,
}

-- What a tree holds: bytes of regular files, entries of every kind, and whether every entry can be
-- read and no directory below is managed.
unfoldable mutual
  pub bytes_of : Node → ℕ
  bytes_of (file n) = n
  bytes_of (dir managed es) = bytes_in es
  bytes_of _ = 0

  pub bytes_in : Entries → ℕ
  bytes_in nil = 0
  bytes_in (cons name node more) = bytes_of node + bytes_in more

unfoldable mutual
  pub count_of : Node → ℕ
  count_of (dir managed es) = suc (count_in es)
  count_of _ = 1

  pub count_in : Entries → ℕ
  count_in nil = 0
  count_in (cons name node more) = count_of node + count_in more

unfoldable mutual
  pub Open : Node → Type 0
  Open (failed e) = ⊥
  Open (dir managed es) = (managed ≡ ok false) × OpenIn es
  Open _ = Unit {0}

  pub OpenIn : Entries → Type 0
  OpenIn nil = Unit {0}
  OpenIn (cons name node more) = Open node × OpenIn more

abbrev plus : Usage → ℕ → ℕ → Usage
plus u b n = record { bytes = u.bytes + b; entries = u.entries + n }

charge-regular_iff :
    (u v : Usage) (n : ℕ)
    → (charge u (regular n) ≡ ok v)
      ↔ ((v ≡ plus u n 1) × (u.entries + 1 ≤ u64_max) × (u.bytes + n ≤ u64_max))
unfolding charge add
charge-regular_iff u v n = ground arith

charge-irregular_iff :
    (u v : Usage) → (charge u irregular ≡ ok v) ↔ ((v ≡ plus u 0 1) × (u.entries + 1 ≤ u64_max))
unfolding charge add
charge-irregular_iff u v = ground arith

-- What a walk from one usage to another says of the part that was walked.
abbrev Walked : Usage → Usage → ℕ → ℕ → Type 0
Walked u v b n =
    (v ≡ plus u b n)
    × (u.bytes ≤ u64_max → v.bytes ≤ u64_max)
    × (u.entries ≤ u64_max → v.entries ≤ u64_max)

Walked-regular : (u v : Usage) (n : ℕ) → charge u (regular n) ≡ ok v → Walked u v n 1
Walked-regular u v n h = let c = (charge-regular_iff u v n).0 h in ground arith

Walked-irregular : (u v : Usage) → charge u irregular ≡ ok v → Walked u v 0 1
Walked-irregular u v h = let c = (charge-irregular_iff u v).0 h in ground arith

Walked-nil : (u v : Usage) → walk_entries u nil ≡ ok v → Walked u v 0 0
unfolding walk_entries
Walked-nil u v h = ground arith

Walked-trans :
    (u w v : Usage) (b c n m : ℕ) → Walked u w b n → Walked w v c m → Walked u v (b + c) (n + m)
Walked-trans u w v b c n m h k = ground arith

Walked-enter : (u w v : Usage) (c m : ℕ) → Walked u w 0 1 → Walked w v c m → Walked u v c (suc m)
Walked-enter u w v c m h k = ground arith

mutual
  unfolding walk walk_entries bytes_of bytes_in count_of count_in Open OpenIn

  walk_sound :
      (node : Node) (u v : Usage)
      → walk u node ≡ ok v
      → Open node × Walked u v (bytes_of node) (count_of node)
  walk_sound (failed e) u v h = absurd (ground arith)
  walk_sound (file n) u v h = (tt, Walked-regular u v n h)
  walk_sound other u v h = (tt, Walked-irregular u v h)
  walk_sound (dir managed es) u v h =
      let (w, e, k) = bind-eq-ok (charge u irregular) _ h in
      let (found, m, k') = bind-eq-ok managed _ k in
      let (unmanaged, rest) = if-err-eq-ok found _ _ k' in
      let (open', deep) = walk_entries_sound es w v rest in
      (
        (m ∙ ap ok unmanaged, open'),
        Walked-enter u w v (bytes_in es) (count_in es) (Walked-irregular u w e) deep,
      )

  walk_entries_sound :
      (es : Entries) (u v : Usage)
      → walk_entries u es ≡ ok v
      → OpenIn es × Walked u v (bytes_in es) (count_in es)
  walk_entries_sound nil u v h = (tt, Walked-nil u v h)
  walk_entries_sound (cons name node more) u v h =
      let (w, e, k) = bind-eq-ok (walk u node) _ h in
      let (first, near) = walk_sound node u w e in
      let (later, far) = walk_entries_sound more w v k in
      (
        (first, later),
        Walked-trans u w v (bytes_of node) (bytes_in more) (count_of node) (count_in more) near far,
      )

mutual
  unfolding walk walk_entries bytes_of bytes_in count_of count_in Open OpenIn

  walk_complete :
      (node : Node) (u : Usage)
      → Open node
      → u.bytes + bytes_of node ≤ u64_max
      → u.entries + count_of node ≤ u64_max
      → walk u node ≡ ok (plus u (bytes_of node) (count_of node))
  walk_complete (failed e) u o hb hn = absurd o
  walk_complete (file n) u o hb hn = (charge-regular_iff u _ n).1 (refl, hn, hb)
  walk_complete other u o hb hn = (charge-irregular_iff u _).1 (refl, hn)
  walk_complete (dir managed es) u o hb hn =
      rw ((charge-irregular_iff u (plus u 0 1)).1 (refl, omega arith), o.0)
        (walk_entries_complete es (plus u 0 1) o.1 (omega arith) (omega arith)
          ∙ ap ok (ground arith))

  walk_entries_complete :
      (es : Entries) (u : Usage)
      → OpenIn es
      → u.bytes + bytes_in es ≤ u64_max
      → u.entries + count_in es ≤ u64_max
      → walk_entries u es ≡ ok (plus u (bytes_in es) (count_in es))
  walk_entries_complete nil u o hb hn = ap ok (ground arith)
  walk_entries_complete (cons name node more) u o hb hn =
      rw (walk_complete node u o.0 (omega arith) (omega arith)) (
        walk_entries_complete more (plus u (bytes_of node) (count_of node)) o.1 (omega arith)
          (omega arith)
        ∙ ap ok (ground arith))

inventory-walk : (es : Entries) → inventory es ≡ some (walk_entries no_usage es)
unfolding inventory walk_stack size_stack
inventory-walk es =
    inventory_from-walk (suc (size_entries es)) no_usage (es ∷ []) (omega arith)
    ∙ ap some
        (elim (Result-cases (walk_entries no_usage es)) [ inl (u, e) ↦ rw e | inr (x, e) ↦ rw e ])

inventory-exact :
    (es : Entries) (u : Usage)
    → Walked no_usage u (bytes_in es) (count_in es)
    → (u ≡ record { bytes = bytes_in es; entries = count_in es })
      × (bytes_in es ≤ u64_max)
      × (count_in es ≤ u64_max)
inventory-exact es u w = ground arith

-- The inventory of a site always ends. It succeeds exactly when every entry can be read, no
-- directory below the site is managed and both sums are `u64`s; then it is the number of bytes in
-- regular files and the number of entries of every kind.
pub inventory_iff :
    (es : Entries)
    → ((r : Result StaticStorageError Usage) × (inventory es ≡ some r))
      × ((u : Usage)
          → (inventory es ≡ some (ok u)) ↔ (
              OpenIn es
              × (u ≡ record { bytes = bytes_in es; entries = count_in es })
              × (bytes_in es ≤ u64_max)
              × (count_in es ≤ u64_max)))
unfolding inventory
inventory_iff es = (
  (walk_entries no_usage es, inventory-walk es),
  λ u. (
    λ h.
        let w : walk_entries no_usage es ≡ ok u = cc (h, inventory-walk es) in
        let (o, s) = walk_entries_sound es no_usage u w in
        let (exact, hb, hn) = inventory-exact es u s in (o, exact, hb, hn),
    λ (o, e, hb, hn).
        inventory-walk es
        ∙ ap some (
            walk_entries_complete es no_usage o (omega arith) (omega arith) ∙ ap ok (ground arith)),
  ),
)
