-- ===== src/WebSocket/Handshake/Laws.antt =====
-- src/server_fn/websocket.rs: which upgrade requests pass, and what they offer.
use leptos_ntex.Base.{
  true, false, if◌then◌else◌, Bool-cases, Bytes, bytes_eq, bytes_eq_iff, any-append, List, [], ◌∷◌,
  ◌++◌, append-nil, append_assoc, All, All-append, All-append_right, ok, ◌≡◌, ◌↔◌, ◌∙◌, ap, refl,
  sym, subst, inl, inr, arith,
}
use leptos_ntex.Files.{split_on, trim}
use leptos_ntex.WebSocket.Handshake.{is_token, holds, insert_offer, offers}

-- Tokens, none of which stands twice.
abbrev pub Unique : List Bytes → Type 0
Unique [] = Unit {0}
Unique (p ∷ ps) = (holds p ps ≡ false) × Unique ps

abbrev pub Offers : List Bytes → Type 0
Offers ps = All (λ p. is_token p ≡ true) ps × Unique ps

-- The names between the commas of one field, without the empty ones, repeated ones included.
abbrev pub named : (parts : List Bytes) → List Bytes
named [] = []
named (part ∷ parts) =
    let rest = named parts in if bytes_eq (trim part) [] then rest else trim part ∷ rest

-- Those of all fields.
abbrev pub names : List Bytes → List Bytes
names [] = []
names (value ∷ values) = named (split_on b',' value) ++ names values

Unique-snoc : (ps : List Bytes) (q : Bytes) → Unique ps → holds q ps ≡ false → Unique (ps ++ q ∷ [])
unfolding holds
Unique-snoc [] q u h = (refl, tt)
Unique-snoc (p ∷ ps) q u h = (
  ground (
    arith,
    any-append (λ r. bytes_eq r p) ps (q ∷ []),
    u.0,
    h,
    bytes_eq_iff p q,
    bytes_eq_iff q p,
  ),
  Unique-snoc ps q u.1 (ground (arith, h)),
)

-- An element after others is none of them.
Unique-middle :
    (ps : List Bytes) (q : Bytes) (rest : List Bytes) → Unique (ps ++ q ∷ rest) → holds q ps ≡ false
unfolding holds
Unique-middle [] q rest u = refl
Unique-middle (p ∷ ps) q rest u = ground (
  arith,
  any-append (λ r. bytes_eq r p) ps (q ∷ rest),
  u.0,
  Unique-middle ps q rest u.1,
  bytes_eq_iff p q,
  bytes_eq_iff q p,
)

Offers-snoc :
    (ps : List Bytes) (q : Bytes)
    → Offers ps
    → is_token q ≡ true
    → holds q ps ≡ false
    → Offers (ps ++ q ∷ [])
Offers-snoc ps q v t h =
    (All-append (λ p. is_token p ≡ true) ps (q ∷ []) v.0 (t, tt), Unique-snoc ps q v.1 h)

-- A field is accepted exactly if its names, after those before it, are tokens that differ, and then
-- they are added in order.
pub offers_iff :
    (protocols parts out : List Bytes)
    → Offers protocols
    → (offers protocols parts ≡ ok out)
      ↔ ((out ≡ protocols ++ named parts) × Offers (protocols ++ named parts))
unfolding offers insert_offer
offers_iff protocols [] out v = (
  λ h. (ground (arith, h, append-nil protocols), subst Offers (sym (append-nil protocols)) v),
  λ (e, w). ap ok (sym (append-nil protocols) ∙ sym e),
)
offers_iff protocols (part ∷ parts) out v = elim (Bool-cases (bytes_eq (trim part) [])) [
  | inl empty ↦ rw (empty) (offers_iff protocols parts out v)
  | inr filled ↦ elim (Bool-cases (is_token (trim part))) [
    | inr bad ↦
        rw (filled, bad)
          (
            λ h. absurd (cc),
            λ (e, w).
                let t =
                  (All-append_right (λ p. is_token p ≡ true) protocols (trim part ∷ named parts)
                    w.0).0 in
                absurd (ground (arith, bad, t)),
          )
    | inl token ↦ elim (Bool-cases (holds (trim part) protocols)) [
      | inl again ↦
          rw (filled, token, again)
            (
              λ h. absurd (cc),
              λ (e, w).
                  absurd
                    (ground (arith, again, Unique-middle protocols (trim part) (named parts) w.1)),
            )
      | inr fresh ↦
          rw (filled, token, fresh)
            (subst
              (λ ps.
                (offers (protocols ++ trim part ∷ []) parts ≡ ok out) ↔ ((out ≡ ps) × Offers ps))
              (append_assoc protocols (trim part ∷ []) (named parts))
              (offers_iff (protocols ++ trim part ∷ []) parts out
                (Offers-snoc protocols (trim part) v token fresh)))
    ]
  ]
]
