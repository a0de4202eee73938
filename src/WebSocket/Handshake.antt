-- ===== src/WebSocket/Handshake.antt =====
-- src/server_fn/websocket.rs: the checks of an upgrade request. The decoding of the base64 key is an
-- argument: the number of bytes it gives, if it is valid and fits.
pub mod Laws
pub mod Acceptance
use leptos_ntex.Base.{
  ℕ, ◌==◌, leb, if◌then◌else◌, Bool, true, false, not, ◌&&◌, ◌||◌, Bytes, codes, bytes_eq,
  contains_byte, eq_ignore_ascii_case, Option, none, some, is_some, List, [], ◌∷◌, ◌++◌, all, any,
  Result, ok, err, ◌>>=◌, ◌>>◌, ensure, ok_or,
}
use leptos_ntex.Files.{split_on, trim}

pub data HandshakeError : Type 0 where
  get_method_required no_websocket_upgrade no_connection_upgrade : HandshakeError
  no_version_header unsupported_version bad_websocket_key : HandshakeError

-- What the checks read of a request: each header's values, as `to_str` makes of them where a text
-- is needed.
pub record Request : Type 0 where
  pub is_get : Bool
  pub is_http_11 : Bool
  pub upgrade : List (Option Bytes)
  pub connection : List (Option Bytes)
  pub version : List Bytes
  pub key : List Bytes
  pub protocol : List (Option Bytes)

abbrev value_has_token : Bytes → Option Bytes → Bool
value_has_token token none = false
value_has_token token (some value) =
    any (λ part. eq_ignore_ascii_case (trim part) token) (split_on b',' value)

unfoldable pub has_token : List (Option Bytes) → (token : Bytes) → Bool
has_token values token = any (value_has_token token) values

unfoldable pub is_token_byte : ℕ → Bool
unfolding contains_byte
is_token_byte b =
    (leb b'0' b && leb b b'9')
    || (leb b'A' b && leb b b'Z')
    || (leb b'a' b && leb b b'z')
    || contains_byte b (codes "!#$%&'*+-.^_`|~")

unfoldable pub is_token : Bytes → Bool
unfolding is_token_byte
is_token [] = false
is_token (b ∷ s) = all is_token_byte (b ∷ s)

-- The first value of a header, and whether it is the only one.
abbrev single : List Bytes → Option (Bytes × Bool)
single [] = none
single (v ∷ []) = some (v, true)
single (v ∷ w ∷ vs) = some (v, false)

unfoldable pub is_supported : Bytes → Bool
unfolding bytes_eq
is_supported v = bytes_eq v (codes "13") || bytes_eq v (codes "8") || bytes_eq v (codes "7")

unfoldable pub holds : Bytes → List Bytes → Bool
unfolding bytes_eq
holds p ps = any (λ q. bytes_eq q p) ps

-- `HashSet::insert`, on the elements of the set, each once: the set afterwards, and whether the
-- element is new.
unfoldable pub insert_offer : Bytes → List Bytes → List Bytes × Bool
unfolding holds
insert_offer p ps = if holds p ps then (ps, false) else (ps ++ p ∷ [], true)

-- One field's elements; empty ones are no offers, and an offer is a token that was not offered
-- before.
unfoldable pub offers : List Bytes → (parts : List Bytes) → Result HandshakeError (List Bytes)
unfolding insert_offer
offers protocols [] = ok protocols
offers protocols (part ∷ parts) =
    let (inserted, is_new) = insert_offer (trim part) protocols in
    let same = offers protocols parts in
    let longer = offers inserted parts in
    if bytes_eq (trim part) []
    then same
    else if not (is_token (trim part)) || not is_new
    then err HandshakeError.no_websocket_upgrade
    else longer

unfoldable pub all_offers : List Bytes → List (Option Bytes) → Result HandshakeError (List Bytes)
all_offers protocols [] = ok protocols
all_offers protocols (none ∷ fields) = err HandshakeError.no_websocket_upgrade
all_offers protocols (some value ∷ fields) =
    offers protocols (split_on b',' value) >>= λ more. all_offers more fields

abbrev is_empty : {A : Type 0} → List A → Bool
is_empty [] = true
is_empty (x ∷ xs) = false

-- The last check: a header that is there offers something.
unfoldable pub some_offer : Bool → List Bytes → Result HandshakeError (List Bytes)
some_offer has_protocols protocols = do
  ensure (not (has_protocols && is_empty protocols)) HandshakeError.no_websocket_upgrade
  ok protocols

unfoldable pub verify_protocols : List (Option Bytes) → Result HandshakeError (List Bytes)
verify_protocols fields = all_offers [] fields >>= some_offer (not (is_empty fields))

unfoldable pub verify_version : List Bytes → Result HandshakeError (Unit {0})
verify_version versions = do
  (version, only) ← ok_or (single versions) HandshakeError.no_version_header
  ensure (only && is_supported version) HandshakeError.unsupported_version

unfoldable pub verify_key :
    (decode : Bytes → Option ℕ) → List Bytes → Result HandshakeError (Unit {0})
verify_key decode keys = do
  (key, only) ← ok_or (single keys) HandshakeError.bad_websocket_key
  ensure (only && (elim (decode key) [ none ↦ false | some n ↦ n == 16 ]))
      HandshakeError.bad_websocket_key

unfoldable pub verify_handshake :
    (decode : Bytes → Option ℕ) → Request → Result HandshakeError (List Bytes)
verify_handshake decode r = do
  ensure r.is_get HandshakeError.get_method_required
  ensure (r.is_http_11 && has_token r.upgrade (codes "websocket"))
      HandshakeError.no_websocket_upgrade
  ensure (has_token r.connection (codes "upgrade")) HandshakeError.no_connection_upgrade
  verify_version r.version
  verify_key decode r.key
  verify_protocols r.protocol
