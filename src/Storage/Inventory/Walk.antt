-- ===== src/Storage/Inventory/Walk.antt =====
-- The loop over open directories is a walk of the tree.
use leptos_ntex.Base.{
  ℕ, zero, suc, ◌+◌, ◌<◌, ◌≡◌, refl, ap, ◌∙◌, inl, inr, if◌then◌else◌, Bool, true, false, Bytes,
  Option, none, some, List, [], ◌∷◌, Result, ok, err, ◌>>=◌, arith, Result-cases, bind-eq-ok,
  bind_assoc, sym,
}
use leptos_ntex.Storage.Errors.{StaticStorageError}
use leptos_ntex.Storage.Accounting.{Usage, charge}
use leptos_ntex.Storage.Inventory.{
  regular, irregular, Node, file, other, dir, failed, Entries, nil, cons, visit, inventory_from,
  size, size_entries,
}

-- The same walk by recursion on the tree.
unfoldable mutual
  pub walk : Usage → Node → Result StaticStorageError Usage
  walk u (failed e) = err (StaticStorageError.io e)
  walk u (file n) = charge u (regular n)
  walk u other = charge u irregular
  walk u (dir managed es) = charge u irregular >>= λ v. managed >>= λ found.
      if found then err StaticStorageError.unsupported_root else walk_entries v es

  pub walk_entries : Usage → Entries → Result StaticStorageError Usage
  walk_entries u nil = ok u
  walk_entries u (cons name node more) = walk u node >>= λ v. walk_entries v more

unfoldable pub walk_stack : Usage → List Entries → Result StaticStorageError Usage
walk_stack u [] = ok u
walk_stack u (es ∷ rest) = walk_entries u es >>= λ v. walk_stack v rest

unfoldable pub size_stack : List Entries → ℕ
size_stack [] = 0
size_stack (es ∷ rest) = size_entries es + size_stack rest

abbrev finish : Usage × Option Entries → Result StaticStorageError Usage
finish (v, none) = ok v
finish (v, some es) = walk_entries v es

walk-visit : (u : Usage) (node : Node) → walk u node ≡ (visit u node >>= finish)
unfolding walk visit
walk-visit u (failed e) = refl
walk-visit u (file n) = elim (Result-cases (charge u (regular n))) [
  | inl (v, e) ↦ rw e
  | inr (x, e) ↦ rw e
]
walk-visit u other = elim (Result-cases (charge u irregular)) [
  | inl (v, e) ↦ rw e
  | inr (x, e) ↦ rw e
]
walk-visit u (dir managed es) = elim (Result-cases (charge u irregular)) [
  | inl (v, e) ↦ rw e (entered managed v)
  | inr (x, e) ↦ rw e
]
  where
    entered :
        (m : Result StaticStorageError Bool) (v : Usage)
        → (m >>= λ found.
            if found then err StaticStorageError.unsupported_root else walk_entries v es)
          ≡ ((m >>= λ found.
                if found then err StaticStorageError.unsupported_root else ok (v, some es))
              >>= finish)
    entered (err x) v = refl
    entered (ok true) v = refl
    entered (ok false) v = refl

-- A directory that is entered is smaller than its entry.
size-visit :
    (u v : Usage) (node : Node) (es : Entries)
    → visit u node ≡ ok (v, some es)
    → size node ≡ size_entries es
unfolding visit size
size-visit u v (failed e) es h = cc
size-visit u v (file n) es h = let (w, e, k) = bind-eq-ok (charge u (regular n)) _ h in cc
size-visit u v other es h = let (w, e, k) = bind-eq-ok (charge u irregular) _ h in cc
size-visit u v (dir (err x) es') es h = let (w, e, k) = bind-eq-ok (charge u irregular) _ h in cc
size-visit u v (dir (ok true) es') es h = let (w, e, k) = bind-eq-ok (charge u irregular) _ h in cc
size-visit u v (dir (ok false) es') es h = let (w, e, k) = bind-eq-ok (charge u irregular) _ h in cc

module _ (f : ℕ) (u : Usage) (node : Node) (name : Bytes) (more : Entries) (rest : List Entries)
    (ih : (v : Usage) (s : List Entries)
      → size_stack s < f
      → inventory_from f v s ≡ some (walk_stack v s))
    (small : size_stack (cons name node more ∷ rest) < suc f) where
  step-visit :
      (r : Result StaticStorageError (Usage × Option Entries))
      → visit u node ≡ r
      → inventory_from (suc f) u (cons name node more ∷ rest)
        ≡ some (walk_stack u (cons name node more ∷ rest))
  unfolding inventory_from walk_entries walk_stack size_stack size_entries
  step-visit (err x) e = rw (walk-visit u node, e, inventory_from)
  step-visit (ok (v, none)) e =
      rw (walk-visit u node, e, inventory_from) (ih v (more ∷ rest) (omega arith))
  step-visit (ok (v, some es)) e =
      rw (walk-visit u node, e, inventory_from)
        (ih v (es ∷ more ∷ rest) (omega (arith, size-visit u v node es e))
          ∙ ap some (sym (bind_assoc (walk_entries v es) _ _)))

pub inventory_from-walk :
    (f : ℕ) (u : Usage) (stack : List Entries)
    → size_stack stack < f
    → inventory_from f u stack ≡ some (walk_stack u stack)
unfolding inventory_from walk_entries walk_stack size_stack size_entries
inventory_from-walk zero u stack h = absurd (omega arith)
inventory_from-walk (suc f) u [] h = refl
inventory_from-walk (suc f) u (nil ∷ rest) h = inventory_from-walk f u rest (omega arith)
inventory_from-walk (suc f) u (cons name node more ∷ rest) h =
    step-visit f u node name more rest (λ v s small. inventory_from-walk f v s small) h _ refl
