-- ===== src/Headers/Association.antt =====
-- A header map as a list of names and values: the laws of the interface can hold.
use leptos_ntex.Base.{
  append-nil, ◌≡◌, refl, ◌∙◌, ap, arith, inl, inr, if◌then◌else◌, true, false, Bool-cases, not,
  bytes_eq, bytes_eq_iff, List, [], ◌∷◌, ◌++◌,
}
use leptos_ntex.Headers.{HeaderName, HeaderValue, holds, Distinct, is_empty, HeaderMap, IsLawful}

abbrev Entries : Type 0
Entries = List (HeaderName × HeaderValue)

unfoldable pub values : HeaderName → Entries → List HeaderValue
values j [] = []
values j ((k, v) ∷ es) = if bytes_eq k j then v ∷ values j es else values j es

unfoldable pub without : HeaderName → Entries → Entries
without j [] = []
without j ((k, v) ∷ es) = if bytes_eq k j then without j es else (k, v) ∷ without j es

unfoldable pub less : HeaderName → List HeaderName → List HeaderName
less j [] = []
less j (k ∷ ks) = if bytes_eq k j then less j ks else k ∷ less j ks

unfoldable pub names : Entries → List HeaderName
unfolding less
names [] = []
names ((k, v) ∷ es) = k ∷ less k (names es)

abbrev pub association : HeaderMap
association = record {
  Map = Entries;
  empty = [];
  keys = names;
  get_all = values;
  insert = λ k v es. without k es ++ (k, v) ∷ [];
  append = λ k v es. es ++ (k, v) ∷ [];
  remove = without;
}

values-append :
    (j : HeaderName) (es fs : Entries) → values j (es ++ fs) ≡ values j es ++ values j fs
unfolding values
values-append j [] fs = refl
values-append j ((k, v) ∷ es) fs = elim (Bool-cases (bytes_eq k j)) [
  | inl same ↦ rw same (ap (◌∷◌ v) (values-append j es fs))
  | inr other ↦ rw other (values-append j es fs)
]

-- Equal names are equal to the same names.
bytes_eq_same : (j k n : HeaderName) → bytes_eq j k ≡ true → bytes_eq j n ≡ bytes_eq k n
bytes_eq_same j k n h = ap (λ x. bytes_eq x n) ((bytes_eq_iff j k).0 h)

values-without :
    (j k : HeaderName) (es : Entries)
    → values j (without k es) ≡ (if bytes_eq k j then [] else values j es)
unfolding values without
values-without j k [] = ground arith
values-without j k ((n, v) ∷ es) = elim (Bool-cases (bytes_eq n k)) [
  | inl same ↦ rw same (ground (arith, values-without j k es, bytes_eq_same n k j same))
  | inr other ↦ rw other (
      ground
        (arith, other, values-without j k es, bytes_eq_iff n k, bytes_eq_iff n j, bytes_eq_iff k j))
]

values-insert :
    (j k : HeaderName) (v : HeaderValue) (es : Entries)
    → values j (without k es ++ (k, v) ∷ []) ≡ (if bytes_eq k j then v ∷ [] else values j es)
unfolding values
values-insert j k v es = elim (Bool-cases (bytes_eq k j)) [
  | inl same ↦
      values-append j (without k es) ((k, v) ∷ []) ∙ rw (same, values-without j k es, same) refl
  | inr other ↦
      values-append j (without k es) ((k, v) ∷ [])
      ∙ rw (other, values-without j k es, other, append-nil (values j es)) refl
]

values-one :
    (j k : HeaderName) (v : HeaderValue) (es : Entries)
    → values j (es ++ (k, v) ∷ []) ≡ (if bytes_eq k j then values j es ++ v ∷ [] else values j es)
unfolding values
values-one j k v es = elim (Bool-cases (bytes_eq k j)) [
  | inl same ↦ values-append j es ((k, v) ∷ []) ∙ rw same refl
  | inr other ↦ values-append j es ((k, v) ∷ []) ∙ rw (other, append-nil (values j es)) refl
]

holds-less :
    (j k : HeaderName) (ks : List HeaderName)
    → holds j (less k ks) ≡ (if bytes_eq k j then false else holds j ks)
unfolding holds less
holds-less j k [] = ground arith
holds-less j k (n ∷ ks) = elim (Bool-cases (bytes_eq n k)) [
  | inl same ↦ rw same (ground (arith, holds-less j k ks, bytes_eq_same n k j same))
  | inr other ↦ rw other (
      ground
        (arith, other, holds-less j k ks, bytes_eq_iff n k, bytes_eq_iff n j, bytes_eq_iff k j))
]

Distinct-less : (k : HeaderName) (ks : List HeaderName) → Distinct ks → Distinct (less k ks)
unfolding less
Distinct-less k [] d = tt
Distinct-less k (n ∷ ks) d = elim (Bool-cases (bytes_eq n k)) [
  | inl same ↦ rw same (Distinct-less k ks d.1)
  | inr other ↦ rw other (ground (arith, holds-less n k ks, d.0), Distinct-less k ks d.1)
]

Distinct-names : (es : Entries) → Distinct (names es)
unfolding names
Distinct-names [] = tt
Distinct-names ((k, v) ∷ es) = (
  ground (arith, holds-less k k (names es), bytes_eq_iff k k),
  Distinct-less k (names es) (Distinct-names es),
)

holds-names : (j : HeaderName) (es : Entries) → holds j (names es) ≡ not (is_empty (values j es))
unfolding holds names values
holds-names j [] = refl
holds-names j ((k, v) ∷ es) = ground (arith, holds-less j k (names es), holds-names j es)

pub association-IsLawful : IsLawful association
unfolding values
association-IsLawful = record {
  get_all-empty = λ j. refl;
  get_all-insert = values-insert;
  get_all-append = values-one;
  get_all-remove = values-without;
  holds-keys = holds-names;
  Distinct-keys = Distinct-names;
}
