-- ===== src/Policy/Pool/System.antt =====
-- Permits and waiting futures of one pool together: every history of acquisitions, splits, drops,
-- polls and cancellations, as a step relation.
use leptos_ntex.Base.{
  ℕ, ◌≤◌, ◌≡◌, refl, ap, ◌∙◌, Bool, true, false, Option, none, some, List, [], ◌∷◌, ◌++◌, map, ok,
  arith, u64_max, contains,
}
use leptos_ntex.Policy.Errors.{WorkResource}
use leptos_ntex.Policy.Pool.{
  PermitPool, Permit, PermitFuture, new_pool, acquire, split_one, drop_permit, new_future, register,
  poll, drop_future,
}
use leptos_ntex.Policy.Pool.Laws.{
  Fits, acquire_iff, total, total-remove, poll-waits, poll-obtains, register-used, drop_permit_iff,
  Fits-mono, Fits-zero, split_one-amount,
}

-- The pool, the permits that somebody holds, and the futures that wait for one.
pub record Admission : Type 0 where
  pub pool : PermitPool
  pub permits : List Permit
  pub futures : List PermitFuture

abbrev pub handles : List PermitFuture → List ℕ
handles = map λ f. f.wake

-- A waker handle is owned by its future, and by nothing else.
unfoldable pub alive : List PermitFuture → ℕ → Bool
alive fs w = contains w (handles fs)

unfoldable pub initial : WorkResource → Option ℕ → Admission
initial r l = record { pool = new_pool r l; permits = []; futures = [] }

-- A poll takes the pool's lock twice. `registers` is its first half alone, and a poll of a future that is
-- registered is the second half, so that other steps may come between.
pub data Step (a : Admission) : Admission → Type 0 where
  acquires :
      (n : ℕ) (q : PermitPool) (permit : Permit)
      → acquire a.pool n ≡ ok (q, permit)
      → Step a (record a { pool = q; permits = permit ∷ a.permits })
  splits :
      (ps qs : List Permit) (p q r : Permit)
      → a.permits ≡ ps ++ p ∷ qs
      → split_one p ≡ some (q, r)
      → Step a (record a { permits = ps ++ q ∷ r ∷ qs })
  drops :
      (ps qs : List Permit) (p : Permit) (q : PermitPool) (woken : List ℕ)
      → a.permits ≡ ps ++ p ∷ qs
      → drop_permit (alive a.futures) a.pool p ≡ some (q, woken)
      → Step a (record a { pool = q; permits = ps ++ qs })
  waits :
      (w : ℕ) → alive a.futures w ≡ false → Step a (record a { futures = new_future w ∷ a.futures })
  registers :
      (fs gs : List PermitFuture) (f : PermitFuture)
      → a.futures ≡ fs ++ f ∷ gs
      → Step a (record a {
        pool = register (alive a.futures) a.pool f;
        futures = fs ++ record f { registered = true } ∷ gs;
      })
  polls :
      (fs gs : List PermitFuture) (f f' : PermitFuture) (q : PermitPool)
      → a.futures ≡ fs ++ f ∷ gs
      → poll (alive a.futures) a.pool f ≡ (q, f', none)
      → Step a (record a { pool = q; futures = fs ++ f' ∷ gs })
  obtains :
      (fs gs : List PermitFuture) (f f' : PermitFuture) (q : PermitPool) (permit : Permit)
      → a.futures ≡ fs ++ f ∷ gs
      → poll (alive a.futures) a.pool f ≡ (q, f', some permit)
      → Step a (record { pool = q; permits = permit ∷ a.permits; futures = fs ++ f' ∷ gs })
  cancels :
      (fs gs : List PermitFuture) (f : PermitFuture)
      → a.futures ≡ fs ++ f ∷ gs
      → Step a (record a { pool = drop_future a.pool f; futures = fs ++ gs })

pub data Reach (a : Admission) : Admission → Type 0 where
  here : Reach a a
  next : {b c : Admission} → Reach a b → Step b c → Reach a c

-- The accounting half of the invariant.
pub record IsAccounted (a : Admission) : Type 0 where
  pub exact : a.pool.used ≡ total a.permits
  pub fits : Fits a.pool.limit a.pool.used
  pub range : a.pool.used ≤ u64_max

acquire-IsAccounted :
    (p q : PermitPool) (n : ℕ) (permit : Permit) (ps : List Permit) (fs : List PermitFuture)
    → acquire p n ≡ ok (q, permit)
    → p.used ≡ total ps
    → IsAccounted (record { pool = q; permits = permit ∷ ps; futures = fs })
unfolding total
acquire-IsAccounted p q n permit ps fs e h =
    let (range, fits, same, amount) = ((acquire_iff p n).0 q permit).0 e in
    record { exact = ground arith; fits = rw same fits; range = rw same range }

Step-IsAccounted : {a b : Admission} → Step a b → IsAccounted a → IsAccounted b
unfolding total drop_future
Step-IsAccounted {a} (acquires n q permit e) v =
    acquire-IsAccounted a.pool q n permit a.permits a.futures e v.exact
Step-IsAccounted {a} (splits ps qs p q r e s) v = record {
  exact = omega (
    arith,
    ap total e,
    total-remove ps qs p,
    total-remove ps (r ∷ qs) q,
    total-remove ps qs r,
    split_one-amount p q r s,
  );
  fits = v.fits;
  range = v.range;
}
Step-IsAccounted {a} (drops ps qs p q woken e d) v =
    let (enough, same, _) = ((drop_permit_iff (alive a.futures) a.pool p).1 q woken).0 d in
    record {
      exact = ground (arith, ap total e, total-remove ps qs p);
      fits = rw same (Fits-mono a.pool.limit _ _ (omega arith) v.fits);
      range = ground arith;
    }
Step-IsAccounted (waits w h) v = record { exact = v.exact; fits = v.fits; range = v.range }
Step-IsAccounted {a} (registers fs gs f e) v =
    let (used, limit) = register-used (alive a.futures) a.pool f in
    record { exact = used ∙ v.exact; fits = rw (used, limit) v.fits; range = rw used v.range }
Step-IsAccounted {a} (polls fs gs f f' q e p) v =
    let (same, _) = poll-waits (alive a.futures) a.pool q f f' p in
    let (used, limit) = register-used (alive a.futures) a.pool f in
    rw same
      (record { exact = used ∙ v.exact; fits = rw (used, limit) v.fits; range = rw used v.range })
Step-IsAccounted {a} (obtains fs gs f f' q permit e p) v =
    acquire-IsAccounted (register (alive a.futures) a.pool f) q 1 permit a.permits _
      (poll-obtains (alive a.futures) a.pool q f f' permit p).0
      ((register-used (alive a.futures) a.pool f).0 ∙ v.exact)
Step-IsAccounted (cancels fs gs f e) v = record { exact = v.exact; fits = v.fits; range = v.range }

-- After every history the pool counts exactly the permits that are held, and their number stays
-- within the configured limit and within a `u64`.
pub Reach-IsAccounted :
    (r : WorkResource) (l : Option ℕ) {a : Admission} → Reach (initial r l) a → IsAccounted a
unfolding initial new_pool total
Reach-IsAccounted r l here = record { exact = refl; fits = Fits-zero l; range = omega arith }
Reach-IsAccounted r l (next h s) = Step-IsAccounted s (Reach-IsAccounted r l h)
