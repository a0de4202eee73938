-- ===== src/ServerFn/Registry/Laws.antt =====
-- src/server_fn/registry.rs: the last registration of a path and a method wins.
use leptos_ntex.Base.{if◌then◌else◌, ◌&&◌, Bytes, bytes_eq, bytes_eq_iff, some, [], ◌∷◌, ◌≡◌, arith}
use leptos_ntex.ServerFn.Registry.{
  Entries, ServerFnMap, upsert, register, entries_of, find, lookup_server_fn,
}

module _ {F : Type 0} where
  find-upsert :
      (m n : Bytes) (f : F) (entries : Entries F)
      → find m (upsert n f entries) ≡ (if bytes_eq n m then some f else find m entries)
  unfolding find upsert
  find-upsert m n f [] = ground arith
  find-upsert m n f ((k, g) ∷ entries) =
      ground
        (arith, find-upsert m n f entries, bytes_eq_iff k n, bytes_eq_iff k m, bytes_eq_iff n m)

  entries_of-register :
      (p q m : Bytes) (f : F) (fns : ServerFnMap F)
      → entries_of p (register q m f fns)
        ≡ (if bytes_eq q p then upsert m f (entries_of q fns) else entries_of p fns)
  unfolding entries_of register
  entries_of-register p q m f [] = ground arith
  entries_of-register p q m f ((k, entries) ∷ fns) =
      ground (
        arith,
        entries_of-register p q m f fns,
        bytes_eq_iff k q,
        bytes_eq_iff k p,
        bytes_eq_iff q p,
      )

  -- After a registration, its path and method find the registered function, and every other pair
  -- of a path and a method finds what it found before.
  pub lookup_server_fn-register :
      (p m q n : Bytes) (f : F) (fns : ServerFnMap F)
      → lookup_server_fn p m (register q n f fns)
        ≡ (if bytes_eq q p && bytes_eq n m then some f else lookup_server_fn p m fns)
  unfolding lookup_server_fn
  lookup_server_fn-register p m q n f fns = ground (
    arith,
    entries_of-register p q n f fns,
    find-upsert m n f (entries_of q fns),
    bytes_eq_iff q p,
  )
