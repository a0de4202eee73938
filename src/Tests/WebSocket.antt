-- ===== src/Tests/WebSocket.antt =====
-- src/server_fn/websocket.rs on concrete inputs.
use leptos_ntex.Base.{
  ◌≡◌, refl, inl, Bool, true, false, Bytes, codes, none, some, [], ◌∷◌, ◌++◌, ok, err, arith,
}
use leptos_ntex.WebSocket.Frames.{text, first_text, next, last, ping, Violation, FrameError}
use leptos_ntex.WebSocket.Codec.{
  byte_at, from_be_bytes, opcode, finished, reserved, short_len, masked, header_len, Check,
  close_payload, is_close_code, check_close_payload, payload_start, check_close, check_length,
  check_frame, Codec, fragmented_after, decoded, decode,
}
use leptos_ntex.WebSocket.Codec.Laws.{
  WellFormed, check_frame-WellFormed, Decoding, Opens, IsData, Closes, Any, decode-not_interrupted,
}
use leptos_ntex.WebSocket.Assembly.{accept, start, finish, extend}
use leptos_ntex.WebSocket.Assembly.Laws.{Buffered, Delivered, accept-Buffered}
use leptos_ntex.WebSocket.Assembly.Fragments.{accept_all, accept_all-fragments}
use leptos_ntex.Base.{ℕ, Option, bytes_eq, contains_byte, eq_ignore_ascii_case}
use leptos_ntex.Files.{split_on, split_on_from, trim, trim_start, trim_end, is_space}
use leptos_ntex.WebSocket.Handshake.{
  Request, has_token, is_token, is_token_byte, is_supported, holds, insert_offer, HandshakeError,
  offers, all_offers, some_offer, verify_protocols, verify_version, verify_key, verify_handshake,
}
use leptos_ntex.WebSocket.Handshake.Acceptance.{Accepted, verify_handshake_iff}
use leptos_ntex.Base.{◌↔◌}

abbrev any_text : Bytes → Bool
any_text bytes = true

-- A close frame with code 1000.
abbrev closing : Bytes
closing = 136 ∷ 2 ∷ 3 ∷ 232 ∷ []

check_frame_test : check_frame any_text false closing ≡ ok Check.pass
unfolding check_frame byte_at from_be_bytes opcode finished reserved short_len masked header_len
    close_payload is_close_code check_close_payload payload_start check_close check_length
check_frame_test = refl

check_frame-WellFormed_example : WellFormed any_text false closing
check_frame-WellFormed_example = check_frame-WellFormed any_text false closing check_frame_test

reserved_test :
    check_frame any_text false (192 ∷ 0 ∷ []) ≡ err (FrameError.protocol Violation.reserved_bits)
unfolding check_frame byte_at reserved
reserved_test = refl

-- The start of a fragmented text, its end, and another text, each of one byte.
abbrev opening : Bytes
opening = 1 ∷ 1 ∷ 97 ∷ []

abbrev ending : Bytes
ending = 128 ∷ 1 ∷ 98 ∷ []

abbrev later_text : Bytes
later_text = 129 ∷ 1 ∷ 99 ∷ []

abbrev one_frame : Codec
one_frame bytes = ok (some (text bytes), [])

stream : Decoding any_text one_frame false (opening ∷ ending ∷ later_text ∷ [])
unfolding decode decoded fragmented_after check_frame byte_at opcode finished reserved short_len
    header_len check_length
stream = ((text opening, [], refl), ((text ending, [], refl), ((text later_text, [], refl), tt)))

Opens-test : Opens opening
unfolding opcode finished byte_at
Opens-test = (inl refl, refl)

IsData-test : IsData later_text
unfolding opcode byte_at
IsData-test = inl refl

decode-not_interrupted_example : Any Closes (ending ∷ [])
decode-not_interrupted_example =
    decode-not_interrupted any_text one_frame false [] opening (ending ∷ []) later_text [] stream
      Opens-test IsData-test

accept-Buffered_example :
    Buffered 4 (accept any_text 4 (some (true, codes "ab")) (last (codes "c"))).0
    × Delivered 4 (accept any_text 4 (some (true, codes "ab")) (last (codes "c"))).1
accept-Buffered_example =
    accept-Buffered any_text 4 (some (true, codes "ab")) (last (codes "c")) (ground arith)

accept_all_test :
    accept_all any_text 4 none
      (first_text (codes "ab") ∷ ping [] ∷ next (codes "c") ∷ last (codes "d") ∷ [])
    ≡ ok (codes "abcd" ∷ [])
unfolding accept_all accept start extend finish
accept_all_test = refl

accept_all-fragments_example :
    accept_all any_text 4 none
      (first_text (codes "ab") ∷ (ping [] ∷ next (codes "c") ∷ []) ++ (last (codes "d") ∷ []))
    ≡ accept_all any_text 4 none (text (codes "ab" ++ (codes "c" ++ codes "d")) ∷ [])
accept_all-fragments_example =
    accept_all-fragments any_text 4 true (codes "ab") (ping [] ∷ next (codes "c") ∷ []) (codes "d")
      (tt, (tt, tt))

-- An upgrade request with two subprotocols.
abbrev upgrade_request : Request
upgrade_request = record {
  is_get = true;
  is_http_11 = true;
  upgrade = some (codes "websocket") ∷ [];
  connection = some (codes "keep-alive, Upgrade") ∷ [];
  version = codes "13" ∷ [];
  key = codes "k" ∷ [];
  protocol = some (codes "a, b") ∷ [];
}

abbrev nonce : Bytes → Option ℕ
nonce key = some 16

verify_handshake_test : verify_handshake nonce upgrade_request ≡ ok (codes "a" ∷ codes "b" ∷ [])
unfolding verify_handshake has_token is_token is_token_byte is_supported holds insert_offer offers
    all_offers some_offer verify_protocols verify_version verify_key split_on split_on_from trim
    trim_start trim_end is_space bytes_eq contains_byte eq_ignore_ascii_case
verify_handshake_test = refl

verify_handshake_iff_example :
    (verify_handshake nonce upgrade_request ≡ ok (codes "a" ∷ codes "b" ∷ []))
    ↔ Accepted nonce upgrade_request (codes "a" ∷ codes "b" ∷ [])
verify_handshake_iff_example =
    verify_handshake_iff nonce upgrade_request (codes "a" ∷ codes "b" ∷ [])

-- A name that is offered again, in another field, is refused.
repeated_test :
    verify_handshake nonce
      (record upgrade_request { protocol = some (codes "a, b") ∷ some (codes "a") ∷ [] })
    ≡ err HandshakeError.no_websocket_upgrade
unfolding verify_handshake has_token is_token is_token_byte is_supported holds insert_offer offers
    all_offers some_offer verify_protocols verify_version verify_key split_on split_on_from trim
    trim_start trim_end is_space bytes_eq contains_byte eq_ignore_ascii_case
repeated_test = refl
