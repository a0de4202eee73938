-- ===== src/WebSocket/Assembly/Fragments.antt =====
-- src/server_fn/websocket.rs: a message in fragments against the same message in one frame.
use leptos_ntex.Base.{
  ℕ, ◌+◌, ◌≤◌, ◌<◌, ltb, Bool, true, false, Bool-cases, Bytes, Option, none, some, List, [], ◌∷◌,
  ◌++◌, length, length-append, Result, ok, err, ◌>>=◌, All, ◌≡◌, refl, sym, ap, inl, inr, arith,
}
use leptos_ntex.WebSocket.Frames.{
  Frame, text, binary, first_text, first_binary, next, last, ping, pong, close, FrameError,
}
use leptos_ntex.WebSocket.Assembly.{Assembly, data_message, start, finish, extend, accept}

-- A message that is delivered goes before the later ones.
abbrev prepend : Option Bytes → List Bytes → List Bytes
prepend none ms = ms
prepend (some m) ms = m ∷ ms

-- The messages that a sequence of frames delivers, until the first error.
unfoldable pub accept_all :
    (Bytes → Bool) → ℕ → Assembly → List Frame → Result FrameError (List Bytes)
accept_all is_utf8 limit a [] = ok []
accept_all is_utf8 limit a (frame ∷ frames) =
    let r = accept is_utf8 limit a frame in
    let rest = accept_all is_utf8 limit r.0 frames in r.1 >>= λ m. rest >>= λ ms. ok (prepend m ms)

-- Frames that may stand inside a fragmented message: its fragments, and pings and pongs.
abbrev pub IsMiddle : Frame → Type 0
IsMiddle (next b) = Unit
IsMiddle (ping b) = Unit
IsMiddle (pong b) = Unit
IsMiddle _ = ⊥

-- The payloads of the fragments among frames, joined.
abbrev pub joined : List Frame → Bytes
joined [] = []
joined (next b ∷ frames) = b ++ joined frames
joined (frame ∷ frames) = joined frames

abbrev pub first_frame : (is_text : Bool) → Bytes → Frame
first_frame true b = first_text b
first_frame false b = first_binary b

abbrev pub whole_frame : (is_text : Bool) → Bytes → Frame
whole_frame true b = text b
whole_frame false b = binary b

append_assoc : (xs ys zs : Bytes) → (xs ++ ys) ++ zs ≡ xs ++ (ys ++ zs)
append_assoc [] ys zs = refl
append_assoc (x ∷ xs) ys zs = ap (◌∷◌ x) (append_assoc xs ys zs)

module _ (is_utf8 : Bytes → Bool) (limit : ℕ) where
  -- One message, as a sequence of one.
  abbrev only : Result FrameError (Option Bytes) → Result FrameError (List Bytes)
  only r = r >>= λ m. ok (prepend m [])

  data_message-too_big :
      (is_text : Bool) (b c : Bytes)
      → limit < length b
      → only (data_message is_utf8 limit is_text (b ++ c)) ≡ err FrameError.too_big
  unfolding data_message
  data_message-too_big is_text b c h = ground (arith, h, length-append b c)

  extend-last :
      (is_text : Bool) (bytes e : Bytes)
      → length bytes ≤ limit
      → (extend is_utf8 limit true e (some (is_text, bytes))).1
        ≡ data_message is_utf8 limit is_text (bytes ++ e)
  unfolding extend finish data_message
  extend-last is_text bytes e h = ground (arith, h, length-append bytes e)

  only-last :
      (is_text : Bool) (bytes e : Bytes)
      → length bytes ≤ limit
      → accept_all is_utf8 limit (some (is_text, bytes)) (last e ∷ [])
        ≡ only (data_message is_utf8 limit is_text (bytes ++ e))
  unfolding accept_all accept
  only-last is_text bytes e h = ap only (extend-last is_text bytes e h)

  bind-ok : (r : Result FrameError (List Bytes)) → (r >>= λ ms. ok (prepend none ms)) ≡ r
  bind-ok (ok ms) = refl
  bind-ok (err e) = refl

  accept-next :
      (is_text : Bool) (bytes b : Bytes)
      → length bytes + length b ≤ limit
      → accept is_utf8 limit (some (is_text, bytes)) (next b)
        ≡ (some (is_text, bytes ++ b), ok none)
  unfolding accept extend
  accept-next is_text bytes b h = ground (arith, h)

  accept-next-too_big :
      (is_text : Bool) (bytes b : Bytes)
      → length bytes ≤ limit
      → limit < length bytes + length b
      → (accept is_utf8 limit (some (is_text, bytes)) (next b)).1 ≡ err FrameError.too_big
  unfolding accept extend
  accept-next-too_big is_text bytes b h k = ground (arith, h, k)

  -- A fragment goes on to the rest, or ends the run if the limit is passed.
  accept_all-next :
      (is_text : Bool) (bytes b : Bytes) (frames : List Frame)
      → length bytes + length b ≤ limit
      → accept_all is_utf8 limit (some (is_text, bytes)) (next b ∷ frames)
        ≡ accept_all is_utf8 limit (some (is_text, bytes ++ b)) frames
  unfolding accept_all
  accept_all-next is_text bytes b frames h =
      rw (accept-next is_text bytes b h)
        (bind-ok (accept_all is_utf8 limit (some (is_text, bytes ++ b)) frames))

  accept_all-next-too_big :
      (is_text : Bool) (bytes b : Bytes) (frames : List Frame)
      → length bytes ≤ limit
      → limit < length bytes + length b
      → accept_all is_utf8 limit (some (is_text, bytes)) (next b ∷ frames) ≡ err FrameError.too_big
  unfolding accept_all
  accept_all-next-too_big is_text bytes b frames h k = rw (accept-next-too_big is_text bytes b h k)

  accept_all-ping :
      (a : Assembly) (b : Bytes) (frames : List Frame)
      → accept_all is_utf8 limit a (ping b ∷ frames) ≡ accept_all is_utf8 limit a frames
  unfolding accept_all accept
  accept_all-ping a b frames = bind-ok (accept_all is_utf8 limit a frames)

  accept_all-pong :
      (a : Assembly) (b : Bytes) (frames : List Frame)
      → accept_all is_utf8 limit a (pong b ∷ frames) ≡ accept_all is_utf8 limit a frames
  unfolding accept_all accept
  accept_all-pong a b frames = bind-ok (accept_all is_utf8 limit a frames)

  joined-next :
      (is_text : Bool) (bytes b : Bytes) (middle : List Frame) (e : Bytes)
      → bytes ++ (joined (next b ∷ middle) ++ e) ≡ (bytes ++ b) ++ (joined middle ++ e)
  joined-next is_text bytes b middle e =
      cc (append_assoc b (joined middle) e, append_assoc bytes b (joined middle ++ e))

  accept_all-middle :
      (is_text : Bool) (bytes : Bytes) (middle : List Frame) (e : Bytes)
      → length bytes ≤ limit
      → All IsMiddle middle
      → accept_all is_utf8 limit (some (is_text, bytes)) (middle ++ (last e ∷ []))
        ≡ only (data_message is_utf8 limit is_text (bytes ++ (joined middle ++ e)))
  accept_all-middle is_text bytes [] e h k = only-last is_text bytes e h
  accept_all-middle is_text bytes (next b ∷ middle) e h k =
      elim (Bool-cases (ltb limit (length bytes + length b))) [
        | inl t ↦ rw (joined-next is_text bytes b middle e) (
            cc (
              accept_all-next-too_big is_text bytes b (middle ++ (last e ∷ [])) h (ground arith),
              data_message-too_big is_text (bytes ++ b) (joined middle ++ e)
                  (ground (arith, length-append bytes b)),
            ))
        | inr t ↦ rw (joined-next is_text bytes b middle e) (
            cc (
              accept_all-next is_text bytes b (middle ++ (last e ∷ [])) (ground arith),
              accept_all-middle is_text (bytes ++ b) middle e
                  (ground (arith, length-append bytes b)) k.1,
            ))
      ]
  accept_all-middle is_text bytes (ping b ∷ middle) e h k = cc (
    accept_all-ping (some (is_text, bytes)) b (middle ++ (last e ∷ [])),
    accept_all-middle is_text bytes middle e h k.1,
  )
  accept_all-middle is_text bytes (pong b ∷ middle) e h k = cc (
    accept_all-pong (some (is_text, bytes)) b (middle ++ (last e ∷ [])),
    accept_all-middle is_text bytes middle e h k.1,
  )
  accept_all-middle is_text bytes (last b ∷ middle) e h k = absurd k.0
  accept_all-middle is_text bytes (text b ∷ middle) e h k = absurd k.0
  accept_all-middle is_text bytes (binary b ∷ middle) e h k = absurd k.0
  accept_all-middle is_text bytes (first_text b ∷ middle) e h k = absurd k.0
  accept_all-middle is_text bytes (first_binary b ∷ middle) e h k = absurd k.0
  accept_all-middle is_text bytes (close ∷ middle) e h k = absurd k.0

  accept-first :
      (is_text : Bool) (b : Bytes)
      → length b ≤ limit
      → accept is_utf8 limit none (first_frame is_text b) ≡ (some (is_text, b), ok none)
  unfolding accept start
  accept-first true b h = ground (arith, h)
  accept-first false b h = ground (arith, h)

  accept-first-too_big :
      (is_text : Bool) (b : Bytes)
      → limit < length b
      → (accept is_utf8 limit none (first_frame is_text b)).1 ≡ err FrameError.too_big
  unfolding accept start
  accept-first-too_big true b h = ground (arith, h)
  accept-first-too_big false b h = ground (arith, h)

  accept_all-whole :
      (is_text : Bool) (b : Bytes)
      → accept_all is_utf8 limit none (whole_frame is_text b ∷ [])
        ≡ only (data_message is_utf8 limit is_text b)
  unfolding accept_all accept
  accept_all-whole true b = refl
  accept_all-whole false b = refl

  accept_all-first :
      (is_text : Bool) (b : Bytes) (middle : List Frame) (e : Bytes)
      → All IsMiddle middle
      → accept_all is_utf8 limit none (first_frame is_text b ∷ (middle ++ (last e ∷ [])))
        ≡ only (data_message is_utf8 limit is_text (b ++ (joined middle ++ e)))
  unfolding accept_all
  accept_all-first is_text b middle e k = elim (Bool-cases (ltb limit (length b))) [
    | inl t ↦
        rw (accept-first-too_big is_text b (ground arith))
          (sym (data_message-too_big is_text b (joined middle ++ e) (ground arith)))
    | inr t ↦ rw (accept-first is_text b (ground arith)) (
        cc (
          bind-ok (accept_all is_utf8 limit (some (is_text, b)) (middle ++ (last e ∷ []))),
          accept_all-middle is_text b middle e (ground arith) k,
        ))
  ]

  -- From an empty assembly, a message in fragments (a first fragment, then any number of further
  -- fragments with pings and pongs between them, then a last fragment) has the result that its
  -- joined payload has in one data frame: the one message, or the same error.
  pub accept_all-fragments :
      (is_text : Bool) (b : Bytes) (middle : List Frame) (e : Bytes)
      → All IsMiddle middle
      → accept_all is_utf8 limit none (first_frame is_text b ∷ (middle ++ (last e ∷ [])))
        ≡ accept_all is_utf8 limit none (whole_frame is_text (b ++ (joined middle ++ e)) ∷ [])
  accept_all-fragments is_text b middle e k =
      cc (
        accept_all-first is_text b middle e k,
        accept_all-whole is_text (b ++ (joined middle ++ e)),
      )
