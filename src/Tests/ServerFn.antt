-- ===== src/Tests/ServerFn.antt =====
-- The registry of src/server_fn/registry.rs on concrete inputs.
use leptos_ntex.Base.{ℕ, ◌≡◌, refl, codes, bytes_eq, [], ◌∷◌}
use leptos_ntex.ServerFn.Registry.{
  ServerFnMap, register, upsert, entries_of, server_fn_methods, methods_from,
}

abbrev fns : ServerFnMap ℕ
fns = (codes "/api/a", (codes "POST", 1) ∷ []) ∷ []

register_test :
    register (codes "/api/a") (codes "POST") 2 fns ≡ (codes "/api/a", (codes "POST", 2) ∷ []) ∷ []
unfolding register upsert bytes_eq
register_test = refl

server_fn_methods_test : server_fn_methods (codes "/api/a") fns ≡ codes "POST" ∷ []
unfolding server_fn_methods methods_from entries_of bytes_eq
server_fn_methods_test = refl
