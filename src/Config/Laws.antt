-- ===== src/Config/Laws.antt =====
-- src/config.rs: what the payload bounds promise.
use leptos_ntex.Base.{
  append-nil, append_assoc, ℕ, ◌+◌, ◌≤◌, ◌<◌, ltb, Bool, false, Bool-cases, Option-cases, Bytes,
  Option, none, some, List, [], ◌∷◌, ◌++◌, length, length-append, Result, ok, err, u64_max, ◌≡◌,
  refl, sym, ◌∙◌, ap, subst, ◌↔◌, inl, inr, arith,
}
use leptos_ntex.Io.{IoError}
use leptos_ntex.Config.{
  initial_payload_capacity, initial_payload_capacity_cap, saturating_add, collect_from,
  collect_payload,
}

-- The whole body, if every chunk arrives.
abbrev pub received : List (Result IoError Bytes) → Option Bytes
received [] = some []
received (err e ∷ chunks) = none
received (ok chunk ∷ chunks) = elim (received chunks) [
  | none ↦ none
  | some body ↦ some (chunk ++ body)
]

module _ (limit : ℕ) (small : limit < u64_max) where
  -- Below the largest `usize`, the saturating sum exceeds the limit exactly when the sum does.
  saturated : (a b : ℕ) → ltb limit (saturating_add a b) ≡ ltb limit (a + b)
  unfolding saturating_add
  saturated a b = ground (arith, small)

  collect_from_sound :
      (buf : Bytes) (chunks : List (Result IoError Bytes)) (marked : Bool) (body : Bytes)
      → length buf ≤ limit
      → collect_from limit buf chunks ≡ (marked, ok body)
      → (marked ≡ false)
        × (length body ≤ limit)
        × ((rest : Bytes) × (received chunks ≡ some rest) × (body ≡ buf ++ rest))
  unfolding collect_from
  collect_from_sound buf [] marked body h e =
      (ground (arith, e), ground (arith, e, h), ([], refl, ground (arith, e, append-nil buf)))
  collect_from_sound buf (err x ∷ chunks) marked body h e = absurd (ground (arith, e))
  collect_from_sound buf (ok chunk ∷ chunks) marked body h e =
      elim (Bool-cases (ltb limit (length buf + length chunk))) [
        | inl over ↦ absurd (ground (arith, e, over, saturated (length buf) (length chunk)))
        | inr fits ↦
            (let (m, l, (rest, r, b)) =
                collect_from_sound (buf ++ chunk) chunks marked body
                  (ground (arith, fits, length-append buf chunk))
                  (ground (arith, e, fits, saturated (length buf) (length chunk))) in
              (m, l, (chunk ++ rest, rw r refl, b ∙ append_assoc buf chunk rest)))
      ]

  collect_from_complete :
      (buf : Bytes) (chunks : List (Result IoError Bytes)) (rest : Bytes)
      → received chunks ≡ some rest
      → length (buf ++ rest) ≤ limit
      → collect_from limit buf chunks ≡ (false, ok (buf ++ rest))
  unfolding collect_from
  collect_from_complete buf [] rest r h = ground (arith, r, append-nil buf)
  collect_from_complete buf (err x ∷ chunks) rest r h = absurd (ground (arith, r))
  collect_from_complete buf (ok chunk ∷ chunks) rest r h = elim (Option-cases (received chunks)) [
    | inl lost ↦ absurd (ground (arith, r, lost))
    | inr (more, e) ↦
        (let same : rest ≡ chunk ++ more = ground (arith, r, e) in
          let joined : buf ++ rest ≡ (buf ++ chunk) ++ more =
            ap (◌++◌ buf) same ∙ sym (append_assoc buf chunk more) in
          let whole : length ((buf ++ chunk) ++ more) ≤ limit =
            subst (λ b. length b ≤ limit) joined h in
          let later = collect_from_complete (buf ++ chunk) chunks more e whole in
          ground (
            arith,
            saturated (length buf) (length chunk),
            length-append (buf ++ chunk) more,
            length-append buf chunk,
            whole,
            later,
            joined,
          ))
  ]

  -- With a limit below the largest `usize`, `collect_payload` returns a payload exactly when every
  -- chunk arrives and all of them together are within the limit; the payload is then the chunks,
  -- joined, and the request is not marked as too large.
  pub collect_payload_iff :
      (chunks : List (Result IoError Bytes)) (marked : Bool) (body : Bytes)
      → (collect_payload limit chunks ≡ (marked, ok body))
        ↔ ((marked ≡ false) × (received chunks ≡ some body) × (length body ≤ limit))
  unfolding collect_payload
  collect_payload_iff chunks marked body = (
    λ e.
        let (m, l, (rest, r, b)) = collect_from_sound [] chunks marked body (omega arith) e in
        (m, r ∙ ap some (sym b), l),
    λ (m, r, l). collect_from_complete [] chunks body r l ∙ ap (λ x. (x, ok body)) (sym m),
  )

-- The capacity that is reserved before a byte arrives is at most the cap and at most the limit.
pub initial_payload_capacity_lem :
    (declared : Option ℕ) (limit : ℕ)
    → (initial_payload_capacity declared limit ≤ initial_payload_capacity_cap)
      × (initial_payload_capacity declared limit ≤ limit)
unfolding initial_payload_capacity
initial_payload_capacity_lem none limit = (ground arith, ground arith)
initial_payload_capacity_lem (some n) limit = (ground arith, ground arith)
