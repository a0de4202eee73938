-- ===== src/WebSocket/Assembly.antt =====
-- src/server_fn/websocket.rs: `Assembly`, which joins the fragments of a message under the payload
-- limit. UTF-8 validation is an argument.
pub mod Laws
pub mod Fragments
use leptos_ntex.Base.{
  ℕ, ◌-◌, ltb, if◌then◌else◌, Bool, true, false, not, ◌&&◌, Bytes, Option, none, some, List, [],
  ◌∷◌, ◌++◌, length, Result, ok, err,
}
use leptos_ntex.WebSocket.Frames.{
  Frame, text, binary, first_text, first_binary, next, last, ping, pong, close, Violation,
  FrameError,
}

-- Whether the message is a text, and its bytes so far.
abbrev pub Assembly : Type 0
Assembly = Option (Bool × Bytes)

unfoldable pub data_message :
    (Bytes → Bool) → ℕ → (is_text : Bool) → Bytes → Result FrameError (Option Bytes)
data_message is_utf8 limit is_text bytes =
    if ltb limit (length bytes)
    then err FrameError.too_big
    else if is_text && not (is_utf8 bytes)
    then err FrameError.invalid_text
    else ok (some bytes)

unfoldable pub start :
    ℕ → (is_text : Bool) → Bytes → Assembly → Assembly × Result FrameError (Option Bytes)
start limit is_text bytes (some a) = (some a, err (FrameError.protocol Violation.fragment_started))
start limit is_text bytes none =
    if ltb limit (length bytes)
    then (none, err FrameError.too_big)
    else (some (is_text, bytes), ok none)

unfoldable pub finish :
    (Bytes → Bool) → (is_text : Bool) → Bytes → Assembly × Result FrameError (Option Bytes)
finish is_utf8 is_text bytes =
    if is_text && not (is_utf8 bytes)
    then (none, err FrameError.invalid_text)
    else (none, ok (some bytes))

unfoldable pub extend :
    (Bytes → Bool)
    → ℕ
    → (is_last : Bool) → Bytes
    → Assembly
    → Assembly × Result FrameError (Option Bytes)
unfolding finish
extend is_utf8 limit is_last more none =
    (none, err (FrameError.protocol Violation.fragment_not_started))
extend is_utf8 limit is_last more (some (is_text, bytes)) =
    if ltb (limit - length bytes) (length more)
    then (some (is_text, bytes), err FrameError.too_big)
    else if is_last
    then finish is_utf8 is_text (bytes ++ more)
    else (some (is_text, bytes ++ more), ok none)

unfoldable pub accept :
    (Bytes → Bool) → ℕ → Assembly → Frame → Assembly × Result FrameError (Option Bytes)
unfolding start extend data_message
accept is_utf8 limit a (first_text b) = start limit true b a
accept is_utf8 limit a (first_binary b) = start limit false b a
accept is_utf8 limit a (next b) = extend is_utf8 limit false b a
accept is_utf8 limit a (last b) = extend is_utf8 limit true b a
accept is_utf8 limit a (text b) = (a, data_message is_utf8 limit true b)
accept is_utf8 limit a (binary b) = (a, data_message is_utf8 limit false b)
accept is_utf8 limit a (ping b) = (a, ok none)
accept is_utf8 limit a (pong b) = (a, ok none)
accept is_utf8 limit a close = (a, ok none)
