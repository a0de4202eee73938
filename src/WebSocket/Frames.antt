-- ===== src/WebSocket/Frames.antt =====
-- src/server_fn/websocket.rs: decoded frames, and the errors of a frame.
use leptos_ntex.Base.{Bytes}

-- `ws::Frame` of ntex, with the items of a fragmented message as frames of their own.
pub data Frame : Type 0 where
  text binary : Bytes → Frame
  first_text first_binary next last : Bytes → Frame
  ping pong : Bytes → Frame
  close : Frame

-- The messages of `FrameError::Protocol`.
pub data Violation : Type 0 where
  reserved_bits control_frame interrupted nonminimal_length extended_length : Violation
  incomplete_close close_code fragment_started fragment_not_started : Violation

-- The errors that ntex's own codec returns: its size limit, and every other.
pub data ProtocolError : Type 0 where
  too_long other : ProtocolError

pub data FrameError : Type 0 where
  protocol : Violation → FrameError
  invalid_text too_big : FrameError
  ntex : ProtocolError → FrameError

pub data CloseCode : Type 0 where
  size invalid violated : CloseCode

-- `FrameError::reason`, up to the description.
unfoldable pub reason : FrameError → CloseCode
reason FrameError.too_big = CloseCode.size
reason (FrameError.ntex ProtocolError.too_long) = CloseCode.size
reason FrameError.invalid_text = CloseCode.invalid
reason (FrameError.protocol v) = CloseCode.violated
reason (FrameError.ntex ProtocolError.other) = CloseCode.violated
