-- ===== src/WebSocket/Codec/Laws.antt =====
-- src/server_fn/websocket.rs: which frames `CheckedCodec::decode` lets through, and what it tracks.
use leptos_ntex.Base.{
  ℕ, ◌+◌, ◌^◌, ◌≤◌, ◌<◌, ◌==◌, ltb, leb, if◌then◌else◌, Bool, true, false, not, ◌&&◌, ◌||◌, Bytes,
  some, List, [], ◌∷◌, ◌++◌, length, take, drop, Result, ok, ◌>>=◌, ◌>>◌, ensure, Result-cases, ◌≡◌,
  ◌∙◌, ◌⊎◌, inl, inr, arith,
}
use leptos_ntex.WebSocket.Frames.{Frame, FrameError}
use leptos_ntex.WebSocket.Codec.{
  from_be_bytes, opcode, finished, reserved, short_len, header_len, Check, close_payload,
  is_close_code, check_close_payload, payload_start, check_close, check_length, check_frame, Codec,
  fragmented_after, decoded, decode,
}

-- The length that a header announces is spelled in the fewest bytes, below 2^63.
abbrev pub HasMinimalLength : Bytes → Type 0
HasMinimalLength bytes =
    (short_len bytes ≡ 126 → 126 ≤ from_be_bytes 0 (take 2 (drop 2 bytes)))
    × (short_len bytes ≡ 127 → 65536 ≤ from_be_bytes 0 (take 8 (drop 2 bytes)))
    × (short_len bytes ≡ 127 → from_be_bytes 0 (take 8 (drop 2 bytes)) < 2 ^ 63)

-- A close frame is whole, and its payload is empty or a close code that may be sent and a text.
abbrev pub HasCloseReason : (Bytes → Bool) → Bytes → Type 0
HasCloseReason is_utf8 bytes =
    ¬ (short_len bytes ≡ 1)
    × (payload_start bytes + short_len bytes ≤ length bytes)
    × (2 ≤ length (close_payload bytes)
        → (is_close_code (from_be_bytes 0 (take 2 (close_payload bytes))) ≡ true)
          × (is_utf8 (drop 2 (close_payload bytes)) ≡ true))

-- A frame that may stand at the front of the buffer, after what was read before.
abbrev pub WellFormed : (Bytes → Bool) → (fragmented : Bool) → Bytes → Type 0
WellFormed is_utf8 fragmented bytes =
    (2 ≤ length bytes)
    × (header_len (short_len bytes) ≤ length bytes)
    × (reserved bytes ≡ false)
    × (8 ≤ opcode bytes → (finished bytes ≡ true) × (short_len bytes ≤ 125))
    × (((opcode bytes ≡ 1) ⊎ (opcode bytes ≡ 2)) → fragmented ≡ false)
    × HasMinimalLength bytes
    × (opcode bytes ≡ 8 → HasCloseReason is_utf8 bytes)

check_length-eq-ok : (bytes : Bytes) → check_length bytes ≡ ok tt → HasMinimalLength bytes
unfolding check_length
check_length-eq-ok bytes h = ground (arith, h)

check_close-eq-ok :
    (is_utf8 : Bytes → Bool) (bytes : Bytes)
    → check_close is_utf8 bytes ≡ ok Check.pass
    → HasCloseReason is_utf8 bytes
unfolding check_close check_close_payload
check_close-eq-ok is_utf8 bytes h = ground (arith, h)

-- What each test of `check_frame` must be for the frame to pass.
all_tests :
    (short bits control interrupts waits : Bool) (u v w : FrameError)
    (lengths : Result FrameError (Unit {0})) (closing : Result FrameError Check)
    → (if short
        then ok Check.wait
        else (ensure (not bits) u >>= λ _. ensure (not control) v >>= λ _.
            ensure (not interrupts) w >>= λ _. if waits then ok Check.wait else lengths >> closing))
      ≡ ok Check.pass
    → (short ≡ false)
      × (bits ≡ false)
      × (control ≡ false)
      × (interrupts ≡ false)
      × (waits ≡ false)
      × (lengths ≡ ok tt)
      × (closing ≡ ok Check.pass)
all_tests short bits control interrupts waits u v w lengths closing h = ground (arith, h)

IsControl-is_valid :
    (op short : ℕ) (final : Bool)
    → (leb 8 op && (not final || ltb 125 short)) ≡ false
    → 8 ≤ op
    → (final ≡ true) × (short ≤ 125)
IsControl-is_valid op short final h k = ground (arith, h, k)

not_interrupted :
    (op : ℕ) (fragmented : Bool)
    → ((op == 1 || op == 2) && fragmented) ≡ false
    → ((op ≡ 1) ⊎ (op ≡ 2))
    → fragmented ≡ false
not_interrupted op fragmented h k = ground (arith, h, k)

at_least : (n m : ℕ) → ltb n m ≡ false → m ≤ n
at_least n m h = ground (arith, h)

closing_reason :
    (is_utf8 : Bytes → Bool) (bytes : Bytes)
    → (if opcode bytes == 8 then check_close is_utf8 bytes else ok Check.pass) ≡ ok Check.pass
    → opcode bytes ≡ 8
    → HasCloseReason is_utf8 bytes
closing_reason is_utf8 bytes h k = check_close-eq-ok is_utf8 bytes (ground (arith, h, k))

-- If `decode` hands a buffer on to ntex's codec, the frame at the front of the buffer is well
-- formed: no reserved bit is set, a control frame is final and at most 125 bytes long, no data
-- frame stands inside a fragmented message, the length is spelled in the fewest bytes and below
-- 2^63, and a close frame is whole, with a close code that may be sent and a text as its reason.
pub check_frame-WellFormed :
    (is_utf8 : Bytes → Bool) (fragmented : Bool) (bytes : Bytes)
    → check_frame is_utf8 fragmented bytes ≡ ok Check.pass
    → WellFormed is_utf8 fragmented bytes
unfolding check_frame
check_frame-WellFormed is_utf8 fragmented bytes h =
    let (a, b, c, d, e, f, g) =
      all_tests (ltb (length bytes) 2) (reserved bytes)
        (leb 8 (opcode bytes) && (not (finished bytes) || ltb 125 (short_len bytes)))
        ((opcode bytes == 1 || opcode bytes == 2) && fragmented)
        (ltb (length bytes) (header_len (short_len bytes))) _ _ _ (check_length bytes)
        (if opcode bytes == 8 then check_close is_utf8 bytes else ok Check.pass) h in
    (
      at_least (length bytes) 2 a,
      at_least (length bytes) (header_len (short_len bytes)) e,
      b,
      IsControl-is_valid (opcode bytes) (short_len bytes) (finished bytes) c,
      not_interrupted (opcode bytes) fragmented d,
      check_length-eq-ok bytes f,
      closing_reason is_utf8 bytes g,
    )

-- What a call that returns a frame says of the buffer it was called on.
decode-eq-some :
    (is_utf8 : Bytes → Bool) (codec : Codec) (fragmented : Bool) (bytes : Bytes) {frame : Frame}
    {rest : Bytes}
    → (decode is_utf8 codec fragmented bytes).1 ≡ ok (some frame, rest)
    → (check_frame is_utf8 fragmented bytes ≡ ok Check.pass)
      × ((decode is_utf8 codec fragmented bytes).0 ≡ fragmented_after fragmented bytes)
unfolding decode decoded
decode-eq-some is_utf8 codec fragmented bytes h =
    elim (Result-cases (check_frame is_utf8 fragmented bytes)) [
      | inl (Check.wait, e) ↦ absurd (ground (arith, h, e))
      | inl (Check.pass, e) ↦ ground (arith, h, e)
      | inr (x, e) ↦ absurd (ground (arith, h, e))
    ]

-- Buffers on which the calls of `decode` return a frame, one after the other, from one flag on.
abbrev pub Decoding : (Bytes → Bool) → Codec → (fragmented : Bool) → List Bytes → Type 0
Decoding is_utf8 codec fragmented [] = Unit
Decoding is_utf8 codec fragmented (bytes ∷ later) =
    ((frame : Frame) × (rest : Bytes) × ((decode is_utf8 codec fragmented bytes).1
        ≡ ok (some frame, rest)))
    × Decoding is_utf8 codec (decode is_utf8 codec fragmented bytes).0 later

abbrev pub IsData : Bytes → Type 0
IsData bytes = (opcode bytes ≡ 1) ⊎ (opcode bytes ≡ 2)

-- The first frame of a fragmented message, and the last one.
abbrev pub Opens : Bytes → Type 0
Opens bytes = IsData bytes × (finished bytes ≡ false)

abbrev pub Closes : Bytes → Type 0
Closes bytes = (opcode bytes ≡ 0) × (finished bytes ≡ true)

abbrev pub Any : (Bytes → Type 0) → List Bytes → Type 0
Any P [] = ⊥
Any P (b ∷ bs) = P b ⊎ Any P bs

fragmented_after-Opens :
    (fragmented : Bool) (bytes : Bytes) → Opens bytes → fragmented_after fragmented bytes ≡ true
unfolding fragmented_after
fragmented_after-Opens fragmented bytes h = ground (arith, h)

fragmented_after-cases : (bytes : Bytes) → Closes bytes ⊎ (fragmented_after true bytes ≡ true)
unfolding fragmented_after
fragmented_after-cases bytes = ground arith

module _ (is_utf8 : Bytes → Bool) (codec : Codec) where
  -- Inside a fragmented message, a data frame comes after a closing frame.
  Decoding-Closes :
      (fragmented : Bool) (ys : List Bytes) (b : Bytes) (zs : List Bytes)
      → fragmented ≡ true
      → Decoding is_utf8 codec fragmented (ys ++ (b ∷ zs))
      → IsData b
      → Any Closes ys
  Decoding-Closes fragmented [] b zs f ((_, _, h), later) data_frame =
      let (passed, _) = decode-eq-some is_utf8 codec fragmented b h in
      let (_, _, _, _, g, _, _) = check_frame-WellFormed is_utf8 fragmented b passed in
      absurd (ground (arith, f, g data_frame))
  Decoding-Closes fragmented (y ∷ ys) b zs f ((_, _, h), later) data_frame =
      let (_, flag) = decode-eq-some is_utf8 codec fragmented y h in
      elim (fragmented_after-cases y) [
        | inl c ↦ inl c
        | inr e ↦ inr (
            Decoding-Closes (decode is_utf8 codec fragmented y).0 ys b zs (cc (flag, f, e)) later
              data_frame)
      ]

  -- Whatever ntex's codec does: if the calls of `decode` return a frame for each of a sequence of
  -- buffers, then between a frame that starts a fragmented message (a text or binary frame that is
  -- not final) and any later text or binary frame there is the final continuation frame.
  pub decode-not_interrupted :
      (fragmented : Bool) (xs : List Bytes) (a : Bytes) (ys : List Bytes) (b : Bytes)
      (zs : List Bytes)
      → Decoding is_utf8 codec fragmented (xs ++ (a ∷ (ys ++ (b ∷ zs))))
      → Opens a
      → IsData b
      → Any Closes ys
  decode-not_interrupted fragmented [] a ys b zs ((_, _, h), later) opens data_frame =
      let (_, flag) = decode-eq-some is_utf8 codec fragmented a h in
      Decoding-Closes _ ys b zs (flag ∙ fragmented_after-Opens fragmented a opens) later data_frame
  decode-not_interrupted fragmented (x ∷ xs) a ys b zs (_, later) opens data_frame =
      decode-not_interrupted (decode is_utf8 codec fragmented x).0 xs a ys b zs later opens
        data_frame
