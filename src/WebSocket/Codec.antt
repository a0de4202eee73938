-- ===== src/WebSocket/Codec.antt =====
-- src/server_fn/websocket.rs: `CheckedCodec`, which checks what ntex's decoded frame no longer
-- shows. Bits are read by `/` and `%`; UTF-8 validation and ntex's codec are arguments.
pub mod Laws
use Prim.Native.Nat.{bit_xor}
use leptos_ntex.Base.{
  ℕ, zero, suc, ◌+◌, ◌-◌, ◌*◌, ◌/◌, ◌%◌, ◌^◌, ◌==◌, ltb, leb, if◌then◌else◌, Bool, true, false, not,
  ◌&&◌, ◌||◌, Bytes, Option, none, some, List, [], ◌∷◌, length, take, drop, Result, ok, err, ◌>>=◌,
  ◌>>◌, ensure,
}
use leptos_ntex.WebSocket.Frames.{Frame, Violation, ProtocolError, FrameError}

-- `bytes[i]`, where it is in range.
unfoldable pub byte_at : ℕ → Bytes → ℕ
byte_at i [] = 0
byte_at zero (b ∷ bs) = b
byte_at (suc i) (b ∷ bs) = byte_at i bs

-- `u16::from_be_bytes` and `u64::from_be_bytes`.
unfoldable pub from_be_bytes : ℕ → Bytes → ℕ
from_be_bytes acc [] = acc
from_be_bytes acc (b ∷ bs) = from_be_bytes (acc * 256 + b) bs

unfoldable pub opcode : Bytes → ℕ
unfolding byte_at
opcode bytes = byte_at 0 bytes % 16

unfoldable pub finished : Bytes → Bool
unfolding byte_at
finished bytes = not (byte_at 0 bytes / 128 % 2 == 0)

unfoldable pub reserved : Bytes → Bool
unfolding byte_at
reserved bytes = not (byte_at 0 bytes / 16 % 8 == 0)

unfoldable pub short_len : Bytes → ℕ
unfolding byte_at
short_len bytes = byte_at 1 bytes % 128

unfoldable pub masked : Bytes → Bool
unfolding byte_at
masked bytes = not (byte_at 1 bytes / 128 % 2 == 0)

unfoldable pub header_len : ℕ → ℕ
header_len short = if short == 126 then 4 else if short == 127 then 10 else 2

-- A frame waits for more bytes, or goes on to ntex's codec.
pub data Check : Type 0 where
  wait pass : Check

-- The payload of a close frame, unmasked.
unfoldable pub unmask : (key : Bytes) → (index : ℕ) → Bytes → Bytes
unfolding byte_at
unmask key index [] = []
unmask key index (b ∷ bs) = bit_xor b (byte_at (index % 4) key) ∷ unmask key (suc index) bs

unfoldable pub close_payload : Bytes → Bytes
close_payload bytes =
    let start = header_len (short_len bytes) in
    if masked bytes
    then unmask (drop start bytes) 0 (take (short_len bytes) (drop (start + 4) bytes))
    else take (short_len bytes) (drop start bytes)

-- Close codes that may be sent on the wire.
unfoldable pub is_close_code : ℕ → Bool
is_close_code c =
    (leb 1000 c && leb c 1003) || (leb 1007 c && leb c 1014) || (leb 3000 c && leb c 4999)

unfoldable pub check_close_payload : (Bytes → Bool) → Bytes → Result FrameError Check
unfolding is_close_code from_be_bytes
check_close_payload is_utf8 payload = if ltb (length payload) 2 then ok Check.pass else (do
  ensure (is_close_code (from_be_bytes 0 (take 2 payload)))
      (FrameError.protocol Violation.close_code)
  ensure (is_utf8 (drop 2 payload)) FrameError.invalid_text
  ok Check.pass)

unfoldable pub payload_start : Bytes → ℕ
payload_start bytes = header_len (short_len bytes) + (if masked bytes then 4 else 0)

unfoldable pub check_close : (Bytes → Bool) → Bytes → Result FrameError Check
unfolding check_close_payload
check_close is_utf8 bytes =
    if short_len bytes == 1
    then err (FrameError.protocol Violation.incomplete_close)
    else if ltb (length bytes) (payload_start bytes + short_len bytes)
    then ok Check.wait
    else check_close_payload is_utf8 (close_payload bytes)

unfoldable pub check_length : Bytes → Result FrameError (Unit {0})
unfolding from_be_bytes
check_length bytes = do
  ensure (not (short_len bytes == 126 && ltb (from_be_bytes 0 (take 2 (drop 2 bytes))) 126))
      (FrameError.protocol Violation.nonminimal_length)
  let extended = from_be_bytes 0 (take 8 (drop 2 bytes))
  ensure (not (short_len bytes == 127 && (ltb extended 65536 || not (extended / 2 ^ 63 == 0))))
      (FrameError.protocol Violation.extended_length)

unfoldable pub check_frame : (Bytes → Bool) → (fragmented : Bool) → Bytes → Result FrameError Check
unfolding check_length check_close
check_frame is_utf8 fragmented bytes = if ltb (length bytes) 2 then ok Check.wait else (do
  ensure (not (reserved bytes)) (FrameError.protocol Violation.reserved_bits)
  ensure (not (leb 8 (opcode bytes) && (not (finished bytes) || ltb 125 (short_len bytes))))
      (FrameError.protocol Violation.control_frame)
  ensure (not ((opcode bytes == 1 || opcode bytes == 2) && fragmented))
      (FrameError.protocol Violation.interrupted)
  if ltb (length bytes) (header_len (short_len bytes))
      then ok Check.wait
      else check_length bytes
        >> (if opcode bytes == 8 then check_close is_utf8 bytes else ok Check.pass))

-- ntex's codec: the frame, if the buffer holds a whole one, and the rest of the buffer.
abbrev pub Codec : Type 0
Codec = Bytes → Result ProtocolError (Option Frame × Bytes)

-- The fragmentation flag after a frame.
unfoldable pub fragmented_after : Bool → Bytes → Bool
fragmented_after fragmented bytes =
    if opcode bytes == 0 && finished bytes
    then false
    else if (opcode bytes == 1 || opcode bytes == 2) && not (finished bytes)
    then true
    else fragmented

-- What ntex's codec makes of a buffer that passed.
unfoldable pub decoded :
    Bool
    → Bytes
    → Result ProtocolError (Option Frame × Bytes)
    → Bool × Result FrameError (Option Frame × Bytes)
unfolding fragmented_after
decoded fragmented bytes (err e) = (fragmented, err (FrameError.ntex e))
decoded fragmented bytes (ok (none, rest)) = (fragmented, ok (none, rest))
decoded fragmented bytes (ok (some frame, rest)) =
    (fragmented_after fragmented bytes, ok (some frame, rest))

-- `CheckedCodec::decode`: the flag, and the frame with the rest of the buffer.
unfoldable pub decode :
    (Bytes → Bool) → Codec → Bool → Bytes → Bool × Result FrameError (Option Frame × Bytes)
unfolding decoded
decode is_utf8 codec fragmented bytes = elim (check_frame is_utf8 fragmented bytes) [
  | err e ↦ (fragmented, err e)
  | ok Check.wait ↦ (fragmented, ok (none, bytes))
  | ok Check.pass ↦ decoded fragmented bytes (codec bytes)
]
