-- ===== src/Io.antt =====
-- `std::io::Error` as the sources observe it: its kind and its message.
use leptos_ntex.Base.{ℕ, Bool, true, ◌==◌, ◌≡◌, ◌↔◌, Bytes, [], arith}

-- The kinds that the sources name, and one for every other.
pub data IoErrorKind : Type 0 where
  not_found already_exists would_block invalid_input invalid_data : IoErrorKind
  permission_denied not_a_directory other_kind : IoErrorKind

pub record IoError : Type 0 where
  pub kind : IoErrorKind
  pub message : Bytes

abbrev rank : IoErrorKind → ℕ
rank IoErrorKind.not_found = 0
rank IoErrorKind.already_exists = 1
rank IoErrorKind.would_block = 2
rank IoErrorKind.invalid_input = 3
rank IoErrorKind.invalid_data = 4
rank IoErrorKind.permission_denied = 5
rank IoErrorKind.not_a_directory = 6
rank IoErrorKind.other_kind = 7

unfoldable pub kind_eq : IoErrorKind → IoErrorKind → Bool
kind_eq a b = rank a == rank b

pub kind_eq_iff : (a b : IoErrorKind) → (kind_eq a b ≡ true) ↔ (a ≡ b)
unfolding kind_eq
kind_eq_iff a b = ground arith

-- A plain failure of one kind, where the message does not matter.
abbrev pub plain : IoErrorKind → IoError
plain k = record { kind = k; message = [] }
