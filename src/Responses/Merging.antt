-- ===== src/Responses/Merging.antt =====
-- src/response.rs: the headers of a response that application parts have extended.
use leptos_ntex.Base.{
  ◌≡◌, ◌≢◌, Option-cases, refl, sym, ◌∙◌, ap, subst, arith, inl, inr, if◌then◌else◌, true, false,
  Bool-cases, bytes_eq, bytes_eq_iff, Option, none, some, unwrap_or, List, [], ◌∷◌, ◌++◌,
  append-nil, append_assoc,
}
use leptos_ntex.Headers.{HeaderName, HeaderValue, holds, Distinct, is_empty, HeaderMap, IsLawful}
use leptos_ntex.Responses.{
  HeaderMerge, header_merge, last, append_all, insert_last, merge_values, merge_key, merge_keys,
  extend_response_parts, ResponseParts, Response,
}

-- The values of a header after a response with the values `old` was extended by the values `new`.
abbrev pub to_list : Option HeaderValue → List HeaderValue
to_list none = []
to_list (some v) = v ∷ []

abbrev pub merged : HeaderMerge → (old new : List HeaderValue) → List HeaderValue
merged kind old [] = old
merged HeaderMerge.replace_one old (v ∷ new) = to_list (last (v ∷ new))
merged HeaderMerge.replace_list old (v ∷ new) = v ∷ new
merged HeaderMerge.append_values old (v ∷ new) = old ++ v ∷ new

last_nonempty : (v : HeaderValue) (vs : List HeaderValue) → last (v ∷ vs) ≢ none
last_nonempty v [] h = cc
last_nonempty v (w ∷ vs) h = last_nonempty w vs h

module _ (H : HeaderMap) (L : IsLawful H) where
  open H use {Map, empty, keys, get_all, insert, append, remove}

  get_all-append_all :
      (j k : HeaderName) (vs : List HeaderValue) (m : Map)
      → get_all j (append_all H k vs m) ≡ (if bytes_eq k j then get_all j m ++ vs else get_all j m)
  unfolding append_all
  get_all-append_all j k [] m = elim (Bool-cases (bytes_eq k j)) [
    | inl same ↦ rw same (sym (append-nil (get_all j m)))
    | inr other ↦ rw other refl
  ]
  get_all-append_all j k (v ∷ vs) m = elim (Bool-cases (bytes_eq k j)) [
    | inl same ↦
        get_all-append_all j k vs (append k v m)
        ∙ rw (same, L.get_all-append j k v m, same) (append_assoc (get_all j m) (v ∷ []) vs)
    | inr other ↦
        get_all-append_all j k vs (append k v m) ∙ rw (other, L.get_all-append j k v m, other) refl
  ]

  get_all-insert_last :
      (j k : HeaderName) (o : Option HeaderValue) (m : Map)
      → o ≢ none
      → get_all j (insert_last H k o m) ≡ (if bytes_eq k j then to_list o else get_all j m)
  get_all-insert_last j k none m h = absurd (h refl)
  get_all-insert_last j k (some w) m h = L.get_all-insert j k w m

  get_all-merge_values :
      (kind : HeaderMerge) (j k : HeaderName) (vs : List HeaderValue) (m : Map)
      → is_empty vs ≡ false
      → get_all j (merge_values H kind k vs m)
        ≡ (if bytes_eq k j then merged kind (get_all j m) vs else get_all j m)
  unfolding merge_values
  get_all-merge_values kind j k [] m h = absurd (cc)
  get_all-merge_values HeaderMerge.replace_one j k (v ∷ vs) m h =
      get_all-insert_last j k (last (v ∷ vs)) m (last_nonempty v vs)
  get_all-merge_values HeaderMerge.replace_list j k (v ∷ vs) m h =
      elim (Bool-cases (bytes_eq k j)) [
        | inl same ↦
            get_all-append_all j k (v ∷ vs) (remove k m)
            ∙ rw (same, L.get_all-remove j k m, same) refl
        | inr other ↦
            get_all-append_all j k (v ∷ vs) (remove k m)
            ∙ rw (other, L.get_all-remove j k m, other) refl
      ]
  get_all-merge_values HeaderMerge.append_values j k (v ∷ vs) m h =
      get_all-append_all j k (v ∷ vs) m

  -- A key has values.
  get_all-merge_key :
      (from : Map) (j k : HeaderName) (m : Map)
      → is_empty (get_all k from) ≡ false
      → get_all j (merge_key H from k m) ≡ (
          if bytes_eq k j
          then merged (header_merge j) (get_all j m) (get_all j from)
          else get_all j m)
  unfolding merge_key
  get_all-merge_key from j k m h = elim (Bool-cases (bytes_eq k j)) [
    | inl same ↦
        get_all-merge_values (header_merge k) j k (get_all k from) m h
        ∙ rw same (
            ap (λ n. merged (header_merge n) (get_all j m) (get_all n from))
              ((bytes_eq_iff k j).0 same))
    | inr other ↦ get_all-merge_values (header_merge k) j k (get_all k from) m h ∙ rw other refl
  ]

  merge_keys_other :
      (from : Map) (j : HeaderName) (ks : List HeaderName) (m : Map)
      → ((k : HeaderName) → holds k ks ≡ true → is_empty (get_all k from) ≡ false)
      → holds j ks ≡ false
      → get_all j (merge_keys H from ks m) ≡ get_all j m
  unfolding merge_keys holds
  merge_keys_other from j [] m full h = refl
  merge_keys_other from j (k ∷ ks) m full h =
      merge_keys_other from j ks (merge_key H from k m) (λ n i. full n (ground (arith, i)))
        (ground (arith, h))
      ∙ get_all-merge_key from j k m (full k (ground (arith, bytes_eq_iff k k)))
      ∙ rw (other) refl
    where
      other : bytes_eq k j ≡ false
      other = ground (arith, h)

  get_all-merge_keys :
      (from : Map) (j : HeaderName) (ks : List HeaderName) (m : Map)
      → ((k : HeaderName) → holds k ks ≡ true → is_empty (get_all k from) ≡ false)
      → Distinct ks
      → get_all j (merge_keys H from ks m) ≡ (
          if holds j ks
          then merged (header_merge j) (get_all j m) (get_all j from)
          else get_all j m)
  unfolding merge_keys holds
  get_all-merge_keys from j [] m full d = refl
  get_all-merge_keys from j (k ∷ ks) m full d = elim (Bool-cases (bytes_eq k j)) [
    | inl same ↦
        merge_keys_other from j ks (merge_key H from k m) (λ n i. full n (ground (arith, i)))
          (subst (λ n. holds n ks ≡ false) ((bytes_eq_iff k j).0 same) d.0)
        ∙ get_all-merge_key from j k m (full k (ground (arith, bytes_eq_iff k k)))
        ∙ rw same refl
    | inr other ↦
        get_all-merge_keys from j ks (merge_key H from k m) (λ n i. full n (ground (arith, i))) d.1
        ∙ rw (get_all-merge_key from j k m (full k (ground (arith, bytes_eq_iff k k))), other) refl
  ]

  -- The header and the status of an extended response: the last application value of a header that
  -- has one value, all of them where they replace a list, and otherwise the old values before the
  -- new; a header that the application did not set, and the status if it did not, stay.
  pub get_all-extend_response_parts :
      (parts : ResponseParts H) (response : Response H) (j : HeaderName)
      → (get_all j (extend_response_parts H parts response).headers
          ≡ merged (header_merge j) (get_all j response.headers) (get_all j parts.headers))
        × ((extend_response_parts H parts response).status ≡ unwrap_or parts.status response.status)
  unfolding extend_response_parts
  get_all-extend_response_parts parts response j = elim (Option-cases parts.status) [
    | inl kept ↦ rw kept (headers, refl)
    | inr (status, set) ↦ rw set (headers, refl)
  ]
    where
      from : Map
      from = parts.headers

      full : (k : HeaderName) → holds k (keys from) ≡ true → is_empty (get_all k from) ≡ false
      full k h = ground (arith, h, L.holds-keys k from)

      absent :
          (kind : HeaderMerge) (old new : List HeaderValue)
          → is_empty new ≡ true
          → merged kind old new ≡ old
      absent kind old [] h = refl
      absent kind old (v ∷ new) h = absurd (cc)

      headers :
          get_all j (merge_keys H from (keys from) response.headers)
          ≡ merged (header_merge j) (get_all j response.headers) (get_all j from)
      headers =
          get_all-merge_keys from j (keys from) response.headers full (L.Distinct-keys from)
          ∙ elim (Bool-cases (holds j (keys from))) [
            | inl set ↦ rw set refl
            | inr unset ↦ rw unset (
                sym (
                  absent (header_merge j) (get_all j response.headers) (get_all j from)
                    (ground (arith, unset, L.holds-keys j from))))
          ]
