-- ===== src/Files/Laws.antt =====
-- src/files.rs: what content negotiation promises.
use leptos_ntex.Base.{
  ℕ, ◌≤◌, ◌<◌, ltb, Bool, true, false, ◌||◌, Bool-cases, Option-cases, Bytes, codes, Option, none,
  some, List, [], ◌∷◌, ◌++◌, any, bytes_eq, eq_ignore_ascii_case, ok, err, ◌≡◌, refl, sym, ◌∙◌,
  subst, ◌⊎◌, inl, inr, arith,
}
use leptos_ntex.Files.{
  AcceptedEncodings, Precompressed, extension, header_value, compressed_path,
  precompressed_preference, of_weights, accepted_encodings, OpenedStaticFile, weight, open_variant,
  open_static_file, ensure_encoding_vary, names_vary, split_on, trim,
}

-- A variant that may be served: the client weighs it, not below an explicit identity, and it is
-- there.
pub record Offered (open_file : Bytes → Option ℕ) (path : Bytes) (e : AcceptedEncodings)
    (v : Precompressed) (q f : ℕ) : Type 0 where
  pub weighed : weight e v ≡ some q
  pub ranked : (i : ℕ) → e.identity_q ≡ some i → i ≤ q
  pub there : open_file (compressed_path path (extension v)) ≡ some f

module _ (open_file : Bytes → Option ℕ) (path : Bytes) (e : AcceptedEncodings) where
  -- The loop over some variants that the client weighs serves the first that may be served.
  abbrev Serves : List Precompressed → Type 0
  Serves [] = open_variant open_file path e [] ≡ none
  Serves (v ∷ vs) =
      ((q : ℕ) × (f : ℕ) × Offered open_file path e v q f
        × (open_variant open_file path e (v ∷ vs)
            ≡ some (record { file = f; content_encoding = some (header_value v) })))
      ⊎ (((q f : ℕ) → ¬ Offered open_file path e v q f)
          × (open_variant open_file path e (v ∷ vs) ≡ open_variant open_file path e vs))

  open_variant-Serves :
      (v : Precompressed) (vs : List Precompressed) (q : ℕ) → weight e v ≡ some q → Serves (v ∷ vs)
  unfolding open_variant
  open_variant-Serves v vs q w =
      elim (Option-cases (open_file (compressed_path path (extension v)))) [
        | inl lost ↦ inr (λ p f o. absurd (ground (arith, lost, o.there)), ground (arith, lost))
        | inr (f, found) ↦ elim (Option-cases e.identity_q) [
          | inl free ↦ inl (
            q,
            f,
            record { weighed = w; ranked = λ i h. absurd (ground (arith, free, h)); there = found },
            ground (arith, found, w, free),
          )
          | inr (i, named) ↦ elim (Bool-cases (ltb q i)) [
            | inl low ↦ inr (
              λ p g o. absurd (ground (arith, low, w, o.weighed, o.ranked i named)),
              ground (arith, low, w, named),
            )
            | inr high ↦ inl (
              q,
              f,
              record { weighed = w; ranked = λ j h. ground (arith, named, h, high); there = found },
              ground (arith, found, w, named, high),
            )
          ]
        ]
      ]

  -- A variant that may be served, and none that may be served weighs more.
  abbrev pub Best : Precompressed → ℕ → ℕ → Type 0
  Best v q f =
      Offered open_file path e v q f
      × ((u : Precompressed) (p g : ℕ) → Offered open_file path e u p g → p ≤ q)

  abbrev Outcome : Option OpenedStaticFile → Type 0
  Outcome r =
      ((v : Precompressed) × (q : ℕ) × (f : ℕ) × Best v q f
        × (r ≡ some (record { file = f; content_encoding = some (header_value v) })))
      ⊎ (((v : Precompressed) (q f : ℕ) → ¬ Offered open_file path e v q f) × (r ≡ none))

  open_variant-nil : open_variant open_file path e [] ≡ none
  unfolding open_variant
  open_variant-nil = refl

  only_variant :
      (v : Precompressed) (q : ℕ)
      → weight e v ≡ some q
      → ((u : Precompressed) (p f : ℕ) → Offered open_file path e u p f → u ≡ v)
      → Outcome (open_variant open_file path e (v ∷ []))
  unfolding open_variant
  only_variant v q w only = elim (open_variant-Serves v [] q w) [
    | inl (p, f, o, r) ↦ inl (v, p, f, (o, λ u n g k. same_weight u n g p k o (only u n g k)), r)
    | inr (none_here, r) ↦
        inr (
          λ u p f o. none_here p f (subst (λ x. Offered open_file path e x p f) (only u p f o) o),
          r,
        )
  ]
    where
      same_weight :
          (u : Precompressed) (n g p : ℕ) {f : ℕ}
          → Offered open_file path e u n g
          → Offered open_file path e v p f
          → u ≡ v
          → n ≤ p
      same_weight u n g p k o same = ground (arith, k.weighed, o.weighed, same)

  two_variants :
      (v u : Precompressed) (q p : ℕ)
      → weight e v ≡ some q
      → weight e u ≡ some p
      → p ≤ q
      → ((x : Precompressed) → (x ≡ v) ⊎ (x ≡ u))
      → Outcome (open_variant open_file path e (v ∷ u ∷ []))
  two_variants v u q p w z le both = elim (open_variant-Serves v (u ∷ []) q w) [
    | inl (n, f, o, r) ↦ inl (v, n, f, (o, λ x m g k. lighter x m g n f k o (both x)), r)
    | inr (first_not, r) ↦ elim (open_variant-Serves u [] p z) [
      | inl (n, f, o, t) ↦
          inl (u, n, f, (o, λ x m g k. second x m g n f k o (both x) first_not), r ∙ t)
      | inr (second_not, t) ↦
          inr (λ x m g k. neither x m g k (both x) first_not second_not, r ∙ t ∙ open_variant-nil)
    ]
  ]
    where
      lighter :
          (x : Precompressed) (m g n f : ℕ)
          → Offered open_file path e x m g
          → Offered open_file path e v n f
          → (x ≡ v) ⊎ (x ≡ u)
          → m ≤ n
      lighter x m g n f k o c = ground (arith, k.weighed, o.weighed, c, w, z, le)

      second :
          (x : Precompressed) (m g n f : ℕ)
          → Offered open_file path e x m g
          → Offered open_file path e u n f
          → (x ≡ v) ⊎ (x ≡ u)
          → ((q f : ℕ) → ¬ Offered open_file path e v q f)
          → m ≤ n
      second x m g n f k o (inl same) first_not =
          absurd (first_not m g (subst (λ y. Offered open_file path e y m g) same k))
      second x m g n f k o (inr same) first_not = ground (arith, k.weighed, o.weighed, same)

      neither :
          (x : Precompressed) (m g : ℕ)
          → Offered open_file path e x m g
          → (x ≡ v) ⊎ (x ≡ u)
          → ((q f : ℕ) → ¬ Offered open_file path e v q f)
          → ((q f : ℕ) → ¬ Offered open_file path e u q f)
          → ⊥
      neither x m g k (inl same) a b = a m g (subst (λ y. Offered open_file path e y m g) same k)
      neither x m g k (inr same) a b = b m g (subst (λ y. Offered open_file path e y m g) same k)

  either : (x : Precompressed) → (x ≡ Precompressed.br_variant) ⊎ (x ≡ Precompressed.gzip_variant)
  either x = ground arith

  either' : (x : Precompressed) → (x ≡ Precompressed.gzip_variant) ⊎ (x ≡ Precompressed.br_variant)
  either' x = ground arith

  none_preferred : e.br ≡ none → e.gzip ≡ none → precompressed_preference e ≡ []
  unfolding precompressed_preference
  none_preferred b g = rw (b, g) refl

  br_preferred :
      (p : ℕ)
      → e.br ≡ some p
      → e.gzip ≡ none
      → precompressed_preference e ≡ Precompressed.br_variant ∷ []
  unfolding precompressed_preference
  br_preferred p b g = rw (b, g) refl

  gzip_preferred :
      (q : ℕ)
      → e.br ≡ none
      → e.gzip ≡ some q
      → precompressed_preference e ≡ Precompressed.gzip_variant ∷ []
  unfolding precompressed_preference
  gzip_preferred q b g = rw (b, g) refl

  gzip_first :
      (p q : ℕ)
      → e.br ≡ some p
      → e.gzip ≡ some q
      → ltb p q ≡ true
      → precompressed_preference e ≡ Precompressed.gzip_variant ∷ Precompressed.br_variant ∷ []
  unfolding precompressed_preference
  gzip_first p q b g h = rw (b, g) (rw h refl)

  br_first :
      (p q : ℕ)
      → e.br ≡ some p
      → e.gzip ≡ some q
      → ltb p q ≡ false
      → precompressed_preference e ≡ Precompressed.br_variant ∷ Precompressed.gzip_variant ∷ []
  unfolding precompressed_preference
  br_first p q b g h = rw (b, g) (rw h refl)

  only_br :
      e.gzip ≡ none
      → (u : Precompressed) (p f : ℕ) → Offered open_file path e u p f
      → u ≡ Precompressed.br_variant
  unfolding weight
  only_br h Precompressed.br_variant p f o = refl
  only_br h Precompressed.gzip_variant p f o = absurd (ground (arith, h, o.weighed))

  only_gzip :
      e.br ≡ none
      → (u : Precompressed) (p f : ℕ) → Offered open_file path e u p f
      → u ≡ Precompressed.gzip_variant
  unfolding weight
  only_gzip h Precompressed.gzip_variant p f o = refl
  only_gzip h Precompressed.br_variant p f o = absurd (ground (arith, h, o.weighed))

  no_variant :
      e.br ≡ none → e.gzip ≡ none → (u : Precompressed) (p f : ℕ) → ¬ Offered open_file path e u p f
  unfolding weight
  no_variant g h Precompressed.br_variant p f o = absurd (ground (arith, g, o.weighed))
  no_variant g h Precompressed.gzip_variant p f o = absurd (ground (arith, h, o.weighed))

  Outcome-of :
      (vs : List Precompressed)
      → precompressed_preference e ≡ vs
      → Outcome (open_variant open_file path e vs)
      → Outcome (open_variant open_file path e (precompressed_preference e))
  Outcome-of vs same = subst (λ us. Outcome (open_variant open_file path e us)) (sym same)

  preferred-Best : Outcome (open_variant open_file path e (precompressed_preference e))
  unfolding weight
  preferred-Best = elim (Option-cases e.br) [
    | inl b ↦ elim (Option-cases e.gzip) [
      | inl g ↦ Outcome-of [] (none_preferred b g) (inr (no_variant b g, open_variant-nil))
      | inr (q, g) ↦
          Outcome-of (gzip ∷ []) (gzip_preferred q b g) (only_variant gzip q g (only_gzip b))
    ]
    | inr (p, b) ↦ elim (Option-cases e.gzip) [
      | inl g ↦ Outcome-of (br ∷ []) (br_preferred p b g) (only_variant br p b (only_br g))
      | inr (q, g) ↦ elim (Bool-cases (ltb p q)) [
        | inl heavier ↦
            Outcome-of (gzip ∷ br ∷ []) (gzip_first p q b g heavier)
              (two_variants gzip br q p g b (ground (arith, heavier)) either')
        | inr lighter ↦
            Outcome-of (br ∷ gzip ∷ []) (br_first p q b g lighter)
              (two_variants br gzip p q b g (ground (arith, lighter)) either)
      ]
    ]
  ]
    where
      br : Precompressed
      br = Precompressed.br_variant

      gzip : Precompressed
      gzip = Precompressed.gzip_variant

  -- For a path below the site root: the variant that is served may be served and none that may be
  -- weighs more; where none may be served, the answer is the plain file, if identity is acceptable
  -- and the file is there, nothing if it is not there, and a refusal if identity is not acceptable.
  pub open_static_file_cases :
      ((v : Precompressed) × (q : ℕ) × (f : ℕ) × Best v q f
        × (open_static_file open_file (some path) e
            ≡ some (ok (record { file = f; content_encoding = some (header_value v) }))))
      ⊎ (((v : Precompressed) (q f : ℕ) → ¬ Offered open_file path e v q f)
          × (((e.identity ≡ false) × (open_static_file open_file (some path) e ≡ some (err tt)))
              ⊎ ((e.identity ≡ true)
                  × (open_file path ≡ none)
                  × (open_static_file open_file (some path) e ≡ none))
              ⊎ ((f : ℕ) × (e.identity ≡ true)
                  × (open_file path ≡ some f)
                  × (open_static_file open_file (some path) e
                      ≡ some (ok (record { file = f; content_encoding = none }))))))
  unfolding open_static_file
  open_static_file_cases = elim preferred-Best [
    | inl (v, q, f, best, r) ↦ inl (v, q, f, best, rw (r, open_static_file) refl)
    | inr (nothing, r) ↦ inr (nothing, plain r)
  ]
    where
      plain :
          open_variant open_file path e (precompressed_preference e) ≡ none
          → ((e.identity ≡ false) × (open_static_file open_file (some path) e ≡ some (err tt)))
            ⊎ ((e.identity ≡ true)
                × (open_file path ≡ none)
                × (open_static_file open_file (some path) e ≡ none))
            ⊎ ((f : ℕ) × (e.identity ≡ true)
                × (open_file path ≡ some f)
                × (open_static_file open_file (some path) e
                    ≡ some (ok (record { file = f; content_encoding = none }))))
      plain r = ground (arith, r)

-- Whatever the header says, a weight that `accepted_encodings` gives to a variant is positive.
pub accepted_encodings_positive :
    (parse_f32 : Bytes → Option ℕ) (values : List (Option Bytes)) (v : Precompressed) (q : ℕ)
    → weight (accepted_encodings parse_f32 values) v ≡ some q
    → 0 < q
unfolding accepted_encodings of_weights weight
accepted_encodings_positive parse_f32 values Precompressed.br_variant q h = ground (arith, h)
accepted_encodings_positive parse_f32 values Precompressed.gzip_variant q h = ground (arith, h)

any-append :
    {A : Type 0} (p : A → Bool) (xs ys : List A) → any p (xs ++ ys) ≡ (any p xs || any p ys)
any-append p [] ys = refl
any-append p (x ∷ xs) ys = ground (arith, any-append p xs ys)

-- A second call of `ensure_encoding_vary` changes nothing.
pub ensure_encoding_vary_idempotent :
    (values : List (Option Bytes))
    → ensure_encoding_vary (ensure_encoding_vary values) ≡ ensure_encoding_vary values
unfolding ensure_encoding_vary names_vary split_on trim eq_ignore_ascii_case bytes_eq
ensure_encoding_vary_idempotent values = elim (Bool-cases (any names_vary values)) [
  | inl there ↦ ground (arith, there)
  | inr absent ↦
      ground (arith, absent, any-append names_vary values (some (codes "Accept-Encoding") ∷ []))
]
