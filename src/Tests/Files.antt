-- ===== src/Tests/Files.antt =====
-- The negotiation of src/files.rs on concrete inputs.
use leptos_ntex.Base.{
  ℕ, ◌≡◌, refl, ◌⊎◌, true, false, Bytes, codes, bytes_eq, eq_ignore_ascii_case, Option, none, some,
  List, [], ◌∷◌, ok, err,
}
use leptos_ntex.Files.{
  AcceptedEncodings, Precompressed, header_value, accepted_encodings, values_weight, items_weight,
  item_weight, parts_weight, part_weight, name_weight, parse_qvalue, split_on, split_on_from,
  split_once, trim, trim_start, trim_end, is_space, of_weights, one, weight, open_static_file,
  open_variant, precompressed_preference, sort_weighted, place, compressed_path, extension,
}
use leptos_ntex.Files.Laws.{Offered, Best, open_static_file_cases}

-- A parser of the two weights that the headers name.
abbrev half : ℕ
half = 1056964608

abbrev parse_f32 : Bytes → Option ℕ
parse_f32 s = elim (bytes_eq s (codes "0.5")) [
  | true ↦ some half
  | false ↦ elim (bytes_eq s (codes "0")) [ true ↦ some 0 | false ↦ none ]
]

abbrev header : List (Option Bytes)
header = some (codes "gzip, br; q=0.5") ∷ none ∷ some (codes "identity;q=0") ∷ []

abbrev encodings : AcceptedEncodings
encodings = record { br = some half; gzip = some one; identity = false; identity_q = some 0 }

accepted_encodings_test : accepted_encodings parse_f32 header ≡ encodings
unfolding accepted_encodings values_weight items_weight item_weight parts_weight part_weight
    name_weight parse_qvalue split_on split_on_from split_once trim trim_start trim_end is_space
    of_weights bytes_eq eq_ignore_ascii_case
accepted_encodings_test = refl

abbrev only_br_there : Bytes → Option ℕ
only_br_there path = elim (bytes_eq path (codes "a.js.br")) [ true ↦ some 3 | false ↦ none ]

open_static_file_test :
    open_static_file only_br_there (some (codes "a.js")) encodings
    ≡ some (ok (record { file = 3; content_encoding = some (codes "br") }))
unfolding open_static_file open_variant precompressed_preference sort_weighted place compressed_path
    extension header_value weight bytes_eq
open_static_file_test = refl

open_static_file_cases_example :
    ((v : Precompressed) × (q : ℕ) × (f : ℕ) × Best only_br_there (codes "a.js") encodings v q f
      × (open_static_file only_br_there (some (codes "a.js")) encodings
          ≡ some (ok (record { file = f; content_encoding = some (header_value v) }))))
    ⊎ (((v : Precompressed) (q f : ℕ) → ¬ Offered only_br_there (codes "a.js") encodings v q f)
        × (((encodings.identity ≡ false)
              × (open_static_file only_br_there (some (codes "a.js")) encodings ≡ some (err tt)))
            ⊎ ((encodings.identity ≡ true)
                × (only_br_there (codes "a.js") ≡ none)
                × (open_static_file only_br_there (some (codes "a.js")) encodings ≡ none))
            ⊎ ((f : ℕ) × (encodings.identity ≡ true)
                × (only_br_there (codes "a.js") ≡ some f)
                × (open_static_file only_br_there (some (codes "a.js")) encodings
                    ≡ some (ok (record { file = f; content_encoding = none }))))))
open_static_file_cases_example = open_static_file_cases only_br_there (codes "a.js") encodings
