-- ===== src/Files.antt =====
-- src/files.rs: which variant of a static file a request gets. Header values are what `to_str` makes
-- of them; a weight is the bit pattern of its `f32`, whose order on numbers from 0.0 up is the order
-- of numbers, and the parser of an `f32` and the opening of a file are arguments.
pub mod Laws
use leptos_ntex.Base.{
  ℕ, ◌^◌, ◌==◌, ltb, leb, if◌then◌else◌, Bool, true, false, not, ◌&&◌, ◌||◌, Bytes, codes, bytes_eq,
  eq_ignore_ascii_case, Option, none, some, unwrap_or, List, [], ◌∷◌, ◌++◌, map, any, Result, ok,
  err,
}

-- `str::split` at one byte.
unfoldable pub split_on_from : ℕ → Bytes → Bytes → List Bytes
split_on_from sep cur [] = cur ∷ []
split_on_from sep cur (b ∷ s) =
    let closed = cur ∷ split_on_from sep [] s in
    let longer = split_on_from sep (cur ++ b ∷ []) s in if b == sep then closed else longer

unfoldable pub split_on : ℕ → Bytes → List Bytes
unfolding split_on_from
split_on sep s = split_on_from sep [] s

-- `str::split_once` at one byte.
unfoldable pub split_once : ℕ → Bytes → Option (Bytes × Bytes)
split_once sep [] = none
split_once sep (b ∷ s) =
    let rest = split_once sep s in
    if b == sep then some ([], s) else elim rest [ none ↦ none | some (x, y) ↦ some (b ∷ x, y) ]

-- `str::trim`, on the characters that a header value can hold.
unfoldable pub is_space : ℕ → Bool
is_space b = b == 32 || b == 9

unfoldable pub trim_start : Bytes → Bytes
unfolding is_space
trim_start [] = []
trim_start (b ∷ s) = let rest = trim_start s in if is_space b then rest else b ∷ s

unfoldable pub trim_end : Bytes → Bytes
unfolding is_space
trim_end [] = []
trim_end (b ∷ s) = elim (trim_end s) [ [] ↦ if is_space b then [] else b ∷ [] | c ∷ r ↦ b ∷ c ∷ r ]

unfoldable pub trim : Bytes → Bytes
unfolding trim_start trim_end
trim s = trim_start (trim_end s)

-- 1.0 and -0.0 as bit patterns.
abbrev pub one : ℕ
one = 1065353216

abbrev pub minus_zero : ℕ
minus_zero = 2 ^ 31

-- Every other pattern of a number from 0.0 to 1.0 is at most that of 1.0.
unfoldable pub parse_qvalue : (parse_f32 : Bytes → Option ℕ) → Bytes → Option ℕ
unfolding trim
parse_qvalue parse_f32 s = elim (parse_f32 (trim s)) [
  | none ↦ none
  | some p ↦ if p == minus_zero then some 0 else if leb p one then some p else none
]

pub record AcceptedEncodings : Type 0 where
  pub br : Option ℕ
  pub gzip : Option ℕ
  pub identity : Bool
  pub identity_q : Option ℕ

pub data Precompressed : Type 0 where
  br_variant gzip_variant : Precompressed

unfoldable pub extension : Precompressed → Bytes
extension Precompressed.br_variant = codes "br"
extension Precompressed.gzip_variant = codes "gz"

unfoldable pub header_value : Precompressed → Bytes
header_value Precompressed.br_variant = codes "br"
header_value Precompressed.gzip_variant = codes "gzip"

unfoldable pub compressed_path : Bytes → Bytes → Bytes
compressed_path path ext = path ++ (codes "." ++ ext)

-- `sort_by` is stable: an entry goes behind those of at least its weight.
unfoldable pub place : ℕ × Precompressed → List (ℕ × Precompressed) → List (ℕ × Precompressed)
place (q, v) [] = (q, v) ∷ []
place (q, v) ((p, u) ∷ rest) =
    let later = place (q, v) rest in if ltb p q then (q, v) ∷ (p, u) ∷ rest else (p, u) ∷ later

unfoldable pub sort_weighted :
    List (ℕ × Precompressed) → List (ℕ × Precompressed) → List (ℕ × Precompressed)
unfolding place
sort_weighted sorted [] = sorted
sort_weighted sorted (entry ∷ rest) = sort_weighted (place entry sorted) rest

-- `if let Some(q) = .. { weighted.push(..) }`.
abbrev push_weighted :
    Option ℕ → Precompressed → List (ℕ × Precompressed) → List (ℕ × Precompressed)
push_weighted none v weighted = weighted
push_weighted (some q) v weighted = weighted ++ (q, v) ∷ []

unfoldable pub precompressed_preference : AcceptedEncodings → List Precompressed
unfolding sort_weighted
precompressed_preference e =
    let weighted =
      push_weighted e.gzip Precompressed.gzip_variant
        (push_weighted e.br Precompressed.br_variant []) in
    map (λ w. w.1) (sort_weighted [] weighted)

-- The weights that the values have named so far.
pub record Weights : Type 0 where
  pub br_q : Option ℕ
  pub gzip_q : Option ℕ
  pub wildcard_q : Option ℕ
  pub named_q : Option ℕ

-- One parameter of an item: the weight, if it is a valid `q`.
unfoldable pub part_weight : (Bytes → Option ℕ) → Bytes → ℕ → ℕ
unfolding split_once trim parse_qvalue eq_ignore_ascii_case
part_weight parse_f32 part q = elim (split_once b'=' part) [
  | none ↦ q
  | some (name, value) ↦
      if eq_ignore_ascii_case (trim name) (codes "q")
      then unwrap_or (parse_qvalue parse_f32 value) q
      else q
]

unfoldable pub parts_weight : (Bytes → Option ℕ) → List Bytes → ℕ → ℕ
unfolding part_weight
parts_weight parse_f32 [] q = q
parts_weight parse_f32 (part ∷ parts) q =
    parts_weight parse_f32 parts (part_weight parse_f32 (trim part) q)

unfoldable pub name_weight : Bytes → ℕ → Weights → Weights
unfolding eq_ignore_ascii_case bytes_eq
name_weight token q w =
    if eq_ignore_ascii_case token (codes "br")
    then record w { br_q = some q }
    else if eq_ignore_ascii_case token (codes "gzip")
    then record w { gzip_q = some q }
    else if eq_ignore_ascii_case token (codes "identity")
    then record w { named_q = some q }
    else if bytes_eq token (codes "*")
    then record w { wildcard_q = some q }
    else w

unfoldable pub item_weight : (Bytes → Option ℕ) → List Bytes → Weights → Weights
unfolding parts_weight name_weight trim
item_weight parse_f32 [] w = w
item_weight parse_f32 (token ∷ parts) w =
    name_weight (trim token) (parts_weight parse_f32 parts one) w

unfoldable pub items_weight : (Bytes → Option ℕ) → List Bytes → Weights → Weights
unfolding item_weight split_on
items_weight parse_f32 [] w = w
items_weight parse_f32 (item ∷ items) w =
    items_weight parse_f32 items (item_weight parse_f32 (split_on b';' item) w)

unfoldable pub values_weight : (Bytes → Option ℕ) → List (Option Bytes) → Weights → Weights
unfolding items_weight split_on
values_weight parse_f32 [] w = w
values_weight parse_f32 (none ∷ values) w = values_weight parse_f32 values w
values_weight parse_f32 (some value ∷ values) w =
    values_weight parse_f32 values (items_weight parse_f32 (split_on b',' value) w)

-- `Option::or` and `filter(|q| *q > 0.0)`.
abbrev pub or : Option ℕ → Option ℕ → Option ℕ
or none b = b
or (some a) b = some a

abbrev pub positive : Option ℕ → Option ℕ
positive none = none
positive (some q) = if ltb 0 q then some q else none

-- `identity_q.map_or(wildcard_q != Some(0.0), |q| q > 0.0)`.
abbrev pub identity_allowed : Option ℕ → Option ℕ → Bool
identity_allowed (some q) wildcard = ltb 0 q
identity_allowed none (some w) = not (w == 0)
identity_allowed none none = true

unfoldable pub of_weights : Weights → AcceptedEncodings
of_weights w = record {
  br = positive (or w.br_q w.wildcard_q);
  gzip = positive (or w.gzip_q w.wildcard_q);
  identity = identity_allowed w.named_q w.wildcard_q;
  identity_q = w.named_q;
}

abbrev no_weights : Weights
no_weights = record { br_q = none; gzip_q = none; wildcard_q = none; named_q = none }

unfoldable pub accepted_encodings : (Bytes → Option ℕ) → List (Option Bytes) → AcceptedEncodings
unfolding of_weights values_weight
accepted_encodings parse_f32 values = of_weights (values_weight parse_f32 values no_weights)

pub record OpenedStaticFile : Type 0 where
  pub file : ℕ
  pub content_encoding : Option Bytes

-- The client's weight for a variant.
unfoldable pub weight : AcceptedEncodings → Precompressed → Option ℕ
weight e Precompressed.br_variant = e.br
weight e Precompressed.gzip_variant = e.gzip

-- `identity_q.is_some_and(|identity| identity > weight)`.
abbrev outranked : Option ℕ → ℕ → Bool
outranked none q = false
outranked (some i) q = ltb q i

-- The loop over the variants: the first that is not outranked by identity and can be opened.
unfoldable pub open_variant :
    (open_file : Bytes → Option ℕ)
    → (path : Bytes) → AcceptedEncodings
    → List Precompressed
    → Option OpenedStaticFile
unfolding weight compressed_path extension header_value
open_variant open_file path e [] = none
open_variant open_file path e (v ∷ vs) =
    let rest = open_variant open_file path e vs in
    if outranked e.identity_q (unwrap_or (weight e v) 0)
    then rest
    else elim (open_file (compressed_path path (extension v))) [
      | none ↦ rest
      | some f ↦ some (record { file = f; content_encoding = some (header_value v) })
    ]

-- `safe` is the answer of `safe_subpath`.
unfoldable pub open_static_file :
    (open_file : Bytes → Option ℕ)
    → (safe : Option Bytes) → AcceptedEncodings
    → Option (Result (Unit {0}) OpenedStaticFile)
unfolding open_variant precompressed_preference
open_static_file open_file none e = none
open_static_file open_file (some path) e =
    elim (open_variant open_file path e (precompressed_preference e)) [
      | some opened ↦ some (ok opened)
      | none ↦
          if e.identity
          then (elim (open_file path) [
            | none ↦ none
            | some f ↦ some (ok (record { file = f; content_encoding = none }))
          ])
          else some (err tt)
    ]

-- `ensure_encoding_vary`, on the values of the header.
unfoldable pub names_vary : Option Bytes → Bool
unfolding split_on trim bytes_eq eq_ignore_ascii_case
names_vary none = false
names_vary (some value) =
    any
      (λ v.
        bytes_eq (trim v) (codes "*") || eq_ignore_ascii_case (trim v) (codes "accept-encoding"))
      (split_on b',' value)

unfoldable pub ensure_encoding_vary : List (Option Bytes) → List (Option Bytes)
unfolding names_vary
ensure_encoding_vary values =
    if any names_vary values then values else values ++ some (codes "Accept-Encoding") ∷ []
