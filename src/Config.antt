-- ===== src/Config.antt =====
-- src/config.rs: the configuration of server functions, and the bounds on a request's payload. What
-- `parse::<usize>` makes of a text is an argument, and a `usize` has 64 bits.
pub mod Laws
use leptos_ntex.Base.{
  ℕ, ◌+◌, ◌*◌, ltb, leb, min, if◌then◌else◌, Bool, true, false, Bytes, Option, none, some,
  unwrap_or, List, [], ◌∷◌, ◌++◌, length, Result, ok, err, u64_max,
}
use leptos_ntex.Io.{IoError, IoErrorKind, plain}

pub record LeptosServerFnConfig : Type 0 where
  pub payload_limit : ℕ
  pub ws_channel_buffer : ℕ
  pub ws_subprotocol : Option Bytes

unfoldable pub with_payload_limit : LeptosServerFnConfig → ℕ → LeptosServerFnConfig
with_payload_limit c n = record c { payload_limit = n }

unfoldable pub with_ws_channel_buffer : LeptosServerFnConfig → ℕ → LeptosServerFnConfig
with_ws_channel_buffer c n = record c { ws_channel_buffer = n }

unfoldable pub with_ws_subprotocol : LeptosServerFnConfig → Bytes → LeptosServerFnConfig
with_ws_subprotocol c s = record c { ws_subprotocol = some s }

-- A header value that is no text, or that is no number.
unfoldable pub declared_length : (Bytes → Option ℕ) → Option Bytes → Option ℕ
declared_length parse_usize none = none
declared_length parse_usize (some s) = parse_usize s

-- The header is absent, or present with what `to_str` makes of it.
unfoldable pub content_length_exceeds :
    (Bytes → Option ℕ) → Option (Option Bytes) → (limit : ℕ) → Bool
unfolding declared_length
content_length_exceeds parse_usize none limit = false
content_length_exceeds parse_usize (some raw) limit = elim (declared_length parse_usize raw) [
  | none ↦ true
  | some declared ↦ ltb limit declared
]

abbrev pub initial_payload_capacity_cap : ℕ
initial_payload_capacity_cap = 64 * 1024

abbrev within : Option ℕ → ℕ → Option ℕ
within none limit = none
within (some declared) limit = if leb declared limit then some declared else none

unfoldable pub initial_payload_capacity : (content_length : Option ℕ) → (limit : ℕ) → ℕ
initial_payload_capacity content_length limit =
    min (unwrap_or (within content_length limit) 0) initial_payload_capacity_cap

unfoldable pub saturating_add : ℕ → ℕ → ℕ
saturating_add a b = min (a + b) u64_max

-- The loop of `collect_payload`: whether the request was marked as too large, and the payload.
unfoldable pub collect_from :
    (limit : ℕ) → (buf : Bytes) → List (Result IoError Bytes) → Bool × Result IoError Bytes
unfolding saturating_add
collect_from limit buf [] = (false, ok buf)
collect_from limit buf (err e ∷ chunks) = (false, err e)
collect_from limit buf (ok chunk ∷ chunks) =
    let rest = collect_from limit (buf ++ chunk) chunks in
    if ltb limit (saturating_add (length buf) (length chunk))
    then (true, err (plain IoErrorKind.invalid_data))
    else rest

unfoldable pub collect_payload :
    (limit : ℕ) → List (Result IoError Bytes) → Bool × Result IoError Bytes
unfolding collect_from
collect_payload limit chunks = collect_from limit [] chunks
