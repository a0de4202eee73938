-- ===== src/WebSocket/Handshake/Acceptance.antt =====
-- src/server_fn/websocket.rs: exactly which upgrade requests pass.
use leptos_ntex.Base.{
  ℕ, ◌==◌, ==_iff, true, false, not, ◌&&◌, Bytes, codes, bytes_eq, bytes_eq_iff, any-append,
  append-nil, Option, none, some, List, [], ◌∷◌, ◌++◌, map, append_assoc, All-append_left, ok,
  ensure, ensure-eq-ok, bind-eq-ok, ◌≡◌, ◌≢◌, ◌↔◌, ◌⊎◌, ◌∙◌, ap, refl, sym, subst, inl, inr, arith,
}
use leptos_ntex.Files.{split_on}
use leptos_ntex.WebSocket.Handshake.{
  HandshakeError, Request, has_token, is_token, is_supported, holds, offers, all_offers, some_offer,
  is_empty, verify_protocols, verify_version, verify_key, verify_handshake,
}
use leptos_ntex.WebSocket.Handshake.Laws.{Unique, Offers, named, names, offers_iff}

Unique-prefix : (ps rest : List Bytes) → Unique (ps ++ rest) → Unique ps
unfolding holds
Unique-prefix [] rest u = tt
Unique-prefix (p ∷ ps) rest u =
    (ground (arith, u.0, any-append (λ q. bytes_eq q p) ps rest), Unique-prefix ps rest u.1)

Offers-prefix : (ps rest : List Bytes) → Offers (ps ++ rest) → Offers ps
Offers-prefix ps rest v =
    (All-append_left (λ p. is_token p ≡ true) ps rest v.0, Unique-prefix ps rest v.1)

-- All fields are texts, and their names are tokens that differ.
abbrev AllOffered : List Bytes → List (Option Bytes) → List Bytes → Type 0
AllOffered protocols fields out =
    (values : List Bytes) × (fields ≡ map some values)
    × (out ≡ protocols ++ names values)
    × Offers (protocols ++ names values)

all_offers-eq-ok :
    (protocols : List Bytes) (fields : List (Option Bytes)) (out : List Bytes)
    → Offers protocols
    → all_offers protocols fields ≡ ok out
    → AllOffered protocols fields out
unfolding all_offers
all_offers-eq-ok protocols [] out v h =
    let none_more = sym (append-nil protocols) in
    let is : out ≡ protocols = cc in ([], refl, is ∙ none_more, subst Offers none_more v)
all_offers-eq-ok protocols (none ∷ fields) out v h = absurd (cc)
all_offers-eq-ok protocols (some value ∷ fields) out v h =
    let (more, e, k) = bind-eq-ok (offers protocols (split_on b',' value)) _ h in
    let (is, w) = (offers_iff protocols (split_on b',' value) more v).0 e in
    let (values, f, o, z) = all_offers-eq-ok more fields out (subst Offers (sym is) w) k in
    let joined : more ++ names values ≡ protocols ++ names (value ∷ values) =
      ap (λ ps. ps ++ names values) is
      ∙ append_assoc protocols (named (split_on b',' value)) (names values) in
    (value ∷ values, ap (◌∷◌ (some value)) f, o ∙ joined, subst Offers joined z)

all_offers-of :
    (protocols values : List Bytes)
    → Offers protocols
    → Offers (protocols ++ names values)
    → all_offers protocols (map some values) ≡ ok (protocols ++ names values)
unfolding all_offers
all_offers-of protocols [] v z = ap ok (sym (append-nil protocols))
all_offers-of protocols (value ∷ values) v z =
    let parts = split_on b',' value in
    let joined : protocols ++ (named parts ++ names values)
        ≡ protocols ++ named parts ++ names values =
      sym (append_assoc protocols (named parts) (names values)) in
    let more = subst Offers joined z in
    let before = Offers-prefix (protocols ++ named parts) (names values) more in
    let read : offers protocols parts ≡ ok (protocols ++ named parts) =
      (offers_iff protocols parts (protocols ++ named parts) v).1 (refl, before) in
    rw read (all_offers-of (protocols ++ named parts) values before more ∙ ap ok (sym joined))

abbrev pub IsVersion : Bytes → Type 0
IsVersion v = (v ≡ codes "13") ⊎ (v ≡ codes "8") ⊎ (v ≡ codes "7")

supported_iff : (v : Bytes) → (is_supported v ≡ true) ↔ IsVersion v
unfolding is_supported
supported_iff v =
    ground
      (arith, bytes_eq_iff v (codes "13"), bytes_eq_iff v (codes "8"), bytes_eq_iff v (codes "7"))

verify_version_iff :
    (versions : List Bytes)
    → (verify_version versions ≡ ok tt) ↔ ((v : Bytes) × (versions ≡ v ∷ []) × IsVersion v)
unfolding verify_version
verify_version_iff [] = (λ h. absurd (cc), λ (v, e, s). absurd (cc))
verify_version_iff (v ∷ []) = (
  λ h. (v, refl, (supported_iff v).0 (ensure-eq-ok _ _ h)),
  λ (w, e, s). let same : w ≡ v = cc in rw ((supported_iff v).1 (subst IsVersion same s)) refl,
)
verify_version_iff (v ∷ w ∷ vs) = (λ h. absurd (cc), λ (x, e, s). absurd (cc))

sixteen : (o : Option ℕ) → (elim o [ none ↦ false | some n ↦ n == 16 ]) ≡ true → o ≡ some 16
sixteen none h = absurd (cc)
sixteen (some n) h = ap some ((==_iff n 16).0 h)

verify_key_iff :
    (decode : Bytes → Option ℕ) (keys : List Bytes)
    → (verify_key decode keys ≡ ok tt) ↔ ((k : Bytes) × (keys ≡ k ∷ []) × (decode k ≡ some 16))
unfolding verify_key
verify_key_iff decode [] = (λ h. absurd (cc), λ (v, e, s). absurd (cc))
verify_key_iff decode (k ∷ []) = (
  λ h. (k, refl, sixteen (decode k) (ensure-eq-ok _ _ h)),
  λ (w, e, s). let same : w ≡ k = cc in rw (subst (λ x. decode x ≡ some 16) same s) refl,
)
verify_key_iff decode (k ∷ l ∷ ks) = (λ h. absurd (cc), λ (x, e, s). absurd (cc))

-- A request that is accepted with these subprotocols.
pub record Accepted (decode : Bytes → Option ℕ) (r : Request) (protocols : List Bytes)
    : Type 0 where
  pub get : r.is_get ≡ true
  pub http_11 : r.is_http_11 ≡ true
  pub upgrade : has_token r.upgrade (codes "websocket") ≡ true
  pub connection : has_token r.connection (codes "upgrade") ≡ true
  pub version : (v : Bytes) × (r.version ≡ v ∷ []) × IsVersion v
  pub key : (k : Bytes) × (r.key ≡ k ∷ []) × (decode k ≡ some 16)
  pub offered :
      (values : List Bytes) × (r.protocol ≡ map some values)
      × ((r.protocol ≡ []) ⊎ (names values ≢ []))
      × Offers (names values)
      × (protocols ≡ names values)

some_offer_iff :
    (fields : List (Option Bytes)) (ps out : List Bytes)
    → (some_offer (not (is_empty fields)) ps ≡ ok out) ↔ (((fields ≡ []) ⊎ (ps ≢ [])) × (out ≡ ps))
unfolding some_offer
some_offer_iff [] ps out = (λ h. (inl refl, cc), λ (a, e). cc)
some_offer_iff (f ∷ fields) [] out = (λ h. absurd (cc), λ (a, e). absurd (nothing a))
  where
    nothing : ((f ∷ fields) ≡ []) ⊎ (names [] ≢ []) → ⊥
    nothing (inl e) = cc
    nothing (inr n) = n refl
some_offer_iff (f ∷ fields) (p ∷ ps) out = (λ h. (inr (λ e. absurd (cc)), cc), λ (a, e). cc)

-- The handshake accepts exactly the GET requests over HTTP/1.1 that ask for an upgrade to a
-- WebSocket, have one version, a supported one, and one key, of 16 bytes, and whose subprotocol fields
-- are texts in which all names together are tokens, each once, and at least one if there is a
-- field; the subprotocols are these names.
pub verify_handshake_iff :
    (decode : Bytes → Option ℕ) (r : Request) (protocols : List Bytes)
    → (verify_handshake decode r ≡ ok protocols) ↔ Accepted decode r protocols
unfolding verify_handshake verify_protocols
verify_handshake_iff decode r protocols = (to, from)
  where
    to : verify_handshake decode r ≡ ok protocols → Accepted decode r protocols
    to h =
        let (_, a, h1) = bind-eq-ok (ensure r.is_get HandshakeError.get_method_required) _ h in
        let (_, b, h2) =
          bind-eq-ok
            (ensure (r.is_http_11 && has_token r.upgrade (codes "websocket"))
              HandshakeError.no_websocket_upgrade)
            _ h1 in
        let (_, c, h3) =
          bind-eq-ok
            (ensure (has_token r.connection (codes "upgrade")) HandshakeError.no_connection_upgrade)
            _ h2 in
        let (_, d, h4) = bind-eq-ok (verify_version r.version) _ h3 in
        let (_, e, h5) = bind-eq-ok (verify_key decode r.key) _ h4 in
        let (ps, f, k) = bind-eq-ok (all_offers [] r.protocol) _ h5 in
        let (values, fields, is, offered) = all_offers-eq-ok [] r.protocol ps (tt, tt) f in
        let (some_name, out) = (some_offer_iff r.protocol ps protocols).0 k in
        record {
          get = ensure-eq-ok _ _ a;
          http_11 = ground (arith, b);
          upgrade = ground (arith, b);
          connection = ensure-eq-ok _ _ c;
          version = (verify_version_iff r.version).0 d;
          key = (verify_key_iff decode r.key).0 e;
          offered = (
            values,
            fields,
            subst (λ n. (r.protocol ≡ []) ⊎ (n ≢ [])) is some_name,
            offered,
            out ∙ is,
          );
        }

    from : Accepted decode r protocols → verify_handshake decode r ≡ ok protocols
    from a =
        let (values, fields, some_name, offered, out) = a.offered in
        let read : all_offers [] r.protocol ≡ ok (names values) =
          ap (all_offers []) fields ∙ all_offers-of [] values (tt, tt) offered in
        let last = (some_offer_iff r.protocol (names values) protocols).1 (some_name, out) in
        rw
          (
            verify_handshake,
            a.get,
            a.http_11,
            a.upgrade,
            a.connection,
            (verify_version_iff r.version).1 a.version,
            (verify_key_iff decode r.key).1 a.key,
            verify_protocols,
            read,
          )
          last
