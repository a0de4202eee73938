-- ===== src/ServerFn/Dispatch/Refusals.antt =====
-- src/server_fn/handlers.rs: finding the server function of a request, and what is read of the body of a
-- request that has none.
use leptos_ntex.Base.{
  ℕ, ◌+◌, ◌≤◌, ◌<◌, ltb, ◌≡◌, refl, ◌∙◌, ap, arith, inl, inr, if◌then◌else◌, Bool-cases, Bytes,
  bytes_eq_iff, Option, none, some, List, [], ◌∷◌, ◌++◌, length, u64_max,
}
use leptos_ntex.Config.{saturating_add, content_length_exceeds}
use leptos_ntex.Headers.{HeaderMap}
use leptos_ntex.ServerFn.Registry.{ServerFnMap, register, lookup_server_fn}
use leptos_ntex.ServerFn.Registry.Laws.{lookup_server_fn-register}
use leptos_ntex.ServerFn.Dispatch.{
  drain_from, drain_payload, responded, dispatched, oversize_response, handle_server_fns,
}

abbrev pub size : Option Bytes → ℕ
size none = 0
size (some chunk) = length chunk

-- The bytes of all chunks but the last.
abbrev pub size_before_last : List (Option Bytes) → ℕ
size_before_last [] = 0
size_before_last (c ∷ []) = 0
size_before_last (c ∷ d ∷ cs) = size c + size_before_last (d ∷ cs)

abbrev Drained : (limit seen : ℕ) (chunks unread : List (Option Bytes)) → Type 0
Drained limit seen chunks unread =
    (read : List (Option Bytes)) × (chunks ≡ read ++ unread)
    × (seen + size_before_last read ≤ limit)

more :
    (limit seen : ℕ) (chunk : Bytes) (chunks unread : List (Option Bytes))
    → seen ≤ limit
    → Drained limit (seen + length chunk) chunks unread
    → Drained limit seen (some chunk ∷ chunks) unread
more limit seen chunk chunks unread h ([], e, k) =
    (some chunk ∷ [], ap (◌∷◌ (some chunk)) e, omega (arith, h))
more limit seen chunk chunks unread h (c ∷ cs, e, k) =
    (some chunk ∷ c ∷ cs, ap (◌∷◌ (some chunk)) e, omega (arith, k))

drain_from-Drained :
    (limit seen : ℕ) (chunks : List (Option Bytes))
    → limit < u64_max
    → seen ≤ limit
    → Drained limit seen chunks (drain_from limit seen chunks)
unfolding drain_from saturating_add
drain_from-Drained limit seen [] l h = ([], refl, omega (arith, h))
drain_from-Drained limit seen (none ∷ chunks) l h = (none ∷ [], refl, omega (arith, h))
drain_from-Drained limit seen (some chunk ∷ chunks) l h =
    elim (Bool-cases (ltb limit (saturating_add seen (length chunk)))) [
      | inl over ↦ rw over (some chunk ∷ [], refl, omega (arith, h))
      | inr within ↦
          let total : saturating_add seen (length chunk) ≡ seen + length chunk =
            ground (arith, within, l) in
          rw within (
            rw total (
              more limit seen chunk chunks _ h (
                drain_from-Drained limit (seen + length chunk) chunks l
                  (ground (arith, within, l)))))
    ]

-- The body of a request that no server function reads is left after an error, or once the chunks
-- read exceed the limit: all chunks read but the last are within it. The limit is below the
-- largest usize.
pub drain_payload_lem :
    (limit : ℕ) (chunks : List (Option Bytes))
    → limit < u64_max
    → (read : List (Option Bytes)) × (chunks ≡ read ++ drain_payload limit chunks)
      × (size_before_last read ≤ limit)
unfolding drain_payload
drain_payload_lem limit chunks l =
    let (read, e, k) = drain_from-Drained limit 0 chunks l (omega arith) in
    (read, e, omega (arith, k))

-- A request goes to the server function that was registered last for its path and method, unless its
-- declared length is over the limit: then it is refused and its body is left unread.
pub handle_server_fns-register :
    (H : HeaderMap) {F : Type 0} (fns : ServerFnMap F) (f : F) (parse_usize : Bytes → Option ℕ)
    (content_length : Option (Option Bytes)) (limit : ℕ) (path method : Bytes)
    (chunks : List (Option Bytes))
    → handle_server_fns H
        (register path method f fns)
        parse_usize
        content_length
        limit
        path
        method
        chunks
      ≡ (if content_length_exceeds parse_usize content_length limit
          then responded (oversize_response H) chunks
          else dispatched f)
unfolding handle_server_fns
handle_server_fns-register H fns f parse_usize content_length limit path method chunks =
    elim (Bool-cases (content_length_exceeds parse_usize content_length limit)) [
      | inl over ↦ rw (handle_server_fns, over) refl
      | inr within ↦ rw (handle_server_fns, within, found) refl
    ]
  where
    found : lookup_server_fn path method (register path method f fns) ≡ some f
    found =
        lookup_server_fn-register path method path method f fns
        ∙ rw ((bytes_eq_iff path path).1 refl, (bytes_eq_iff method method).1 refl) refl
