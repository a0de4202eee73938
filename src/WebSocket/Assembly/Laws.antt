-- ===== src/WebSocket/Assembly/Laws.antt =====
-- src/server_fn/websocket.rs: what the assembled messages satisfy.
use leptos_ntex.Base.{
  ℕ, ◌≤◌, Bool, true, false, Bytes, Option, none, some, length, length-append, Result, ok, err,
  arith,
}
use leptos_ntex.WebSocket.Frames.{
  Frame, text, binary, first_text, first_binary, next, last, ping, pong, close, FrameError,
}
use leptos_ntex.WebSocket.Assembly.{Assembly, data_message, start, finish, extend, accept}

-- What is buffered is within the payload limit.
abbrev pub Buffered : ℕ → Assembly → Type 0
Buffered limit none = Unit
Buffered limit (some (is_text, bytes)) = length bytes ≤ limit

-- A result that delivers a message delivers one within the payload limit.
abbrev pub Delivered : ℕ → Result FrameError (Option Bytes) → Type 0
Delivered limit (err e) = Unit
Delivered limit (ok none) = Unit
Delivered limit (ok (some m)) = length m ≤ limit

module _ (is_utf8 : Bytes → Bool) (limit : ℕ) where
  data_message-Delivered :
      (is_text : Bool) (b : Bytes) → Delivered limit (data_message is_utf8 limit is_text b)
  unfolding data_message
  data_message-Delivered is_text b = ground arith

  start-Buffered :
      (is_text : Bool) (b : Bytes) (a : Assembly)
      → Buffered limit a
      → Buffered limit (start limit is_text b a).0 × Delivered limit (start limit is_text b a).1
  unfolding start
  start-Buffered is_text b (some a) h = (h, tt)
  start-Buffered is_text b none h = ground arith

  extend-Buffered :
      (is_last : Bool) (b : Bytes) (a : Assembly)
      → Buffered limit a
      → Buffered limit (extend is_utf8 limit is_last b a).0
        × Delivered limit (extend is_utf8 limit is_last b a).1
  unfolding extend finish
  extend-Buffered is_last b none h = (tt, tt)
  extend-Buffered is_last b (some (is_text, bytes)) h = ground (arith, h, length-append bytes b)

  -- For any payload limit, if what the assembly buffers is within the limit, then after `accept`
  -- of any frame what it buffers is within the limit, and so is the message that `accept` returns,
  -- if it returns one.
  pub accept-Buffered :
      (a : Assembly) (frame : Frame)
      → Buffered limit a
      → Buffered limit (accept is_utf8 limit a frame).0
        × Delivered limit (accept is_utf8 limit a frame).1
  unfolding accept
  accept-Buffered a (first_text b) h = start-Buffered true b a h
  accept-Buffered a (first_binary b) h = start-Buffered false b a h
  accept-Buffered a (next b) h = extend-Buffered false b a h
  accept-Buffered a (last b) h = extend-Buffered true b a h
  accept-Buffered a (text b) h = (h, data_message-Delivered true b)
  accept-Buffered a (binary b) h = (h, data_message-Delivered false b)
  accept-Buffered a (ping b) h = (h, tt)
  accept-Buffered a (pong b) h = (h, tt)
  accept-Buffered a close h = (h, tt)
