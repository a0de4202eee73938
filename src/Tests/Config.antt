-- ===== src/Tests/Config.antt =====
-- The payload bounds of src/config.rs on concrete inputs.
use leptos_ntex.Base.{
  ◌≤◌, ◌≡◌, refl, ◌↔◌, true, false, Bytes, codes, none, some, List, [], ◌∷◌, Result, ok, err,
  length, arith,
}
use leptos_ntex.Io.{IoError, IoErrorKind, plain}
use leptos_ntex.Config.{
  collect_payload, collect_from, saturating_add, content_length_exceeds, declared_length,
}
use leptos_ntex.Config.Laws.{received, collect_payload_iff}

abbrev chunks : List (Result IoError Bytes)
chunks = ok (codes "ab") ∷ ok (codes "c") ∷ []

collect_payload_test : collect_payload 3 chunks ≡ (false, ok (codes "abc"))
unfolding collect_payload collect_from saturating_add
collect_payload_test = refl

too_large_test : collect_payload 2 chunks ≡ (true, err (plain IoErrorKind.invalid_data))
unfolding collect_payload collect_from saturating_add
too_large_test = refl

content_length_exceeds_test :
    content_length_exceeds (λ s. none) (some (some (codes "abc"))) 100 ≡ true
unfolding content_length_exceeds declared_length
content_length_exceeds_test = refl

collect_payload_iff_example :
    (collect_payload 3 chunks ≡ (false, ok (codes "abc")))
    ↔ ((false ≡ false) × (received chunks ≡ some (codes "abc")) × (length (codes "abc") ≤ 3))
collect_payload_iff_example = collect_payload_iff 3 (ground arith) chunks false (codes "abc")
