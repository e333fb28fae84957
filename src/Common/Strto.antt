-- ===== src/Common/Strto.antt =====
-- `strtol`, `std::stoll` and `std::stoull` in base ten, of the C++ standard library. A number of 64
-- bits is its bit pattern.
pub mod Printed
use Prim.Native.Nat.{ℕ, zero, suc, ◌+◌, ◌-◌, ◌*◌, ◌%◌, ◌^◌}
use mathlib.Core.Bool.{Bool, true, false, ◌&&◌, ◌||◌}
use mathlib.Core.List.{List, [], ◌∷◌}
use mathlib.Core.Option.{Option, none, some}
use postgres_protobuf.Common.Tests.{ltb, leb, ◌==◌, if◌then◌else◌}
use postgres_protobuf.Common.Text.{Bytes}

abbrev pub is_digit : ℕ → Bool
is_digit c = leb b'0' c && leb c b'9'

-- The number that the leading digits of the text write after `acc`, and how many bytes they take.
unfoldable pub scan_digits : ℕ → ℕ → Bytes → ℕ × ℕ
scan_digits acc taken [] = (acc, taken)
scan_digits acc taken (c ∷ s) =
    let rest = scan_digits (acc * 10 + (c - b'0')) (taken + 1) s in
    if is_digit c then rest else (acc, taken)

-- `isspace` of the C locale.
abbrev pub is_space : ℕ → Bool
is_space c = c == 32 || (leb 9 c && leb c 13)

-- A sign, a magnitude, and the position where the number ends.
pub record Scanned : Type 0 where
  pub negative : Bool
  pub magnitude : ℕ
  pub stop : ℕ

abbrev pub scan_unsigned : Bool → ℕ → Bytes → Option Scanned
scan_unsigned negative start [] = none
scan_unsigned negative start (c ∷ s) =
    let r = scan_digits 0 start (c ∷ s) in
    if is_digit c then some (record { negative = negative; magnitude = r.0; stop = r.1 }) else none

abbrev pub scan_signed : ℕ → Bytes → Option Scanned
scan_signed start [] = none
scan_signed start (c ∷ s) =
    if c == b'-'
    then scan_unsigned true (start + 1) s
    else if c == b'+'
    then scan_unsigned false (start + 1) s
    else scan_unsigned false start (c ∷ s)

-- `none`: there is no number at the start of the text.
unfoldable pub scan_number : ℕ → Bytes → Option Scanned
unfolding scan_digits
scan_number start [] = none
scan_number start (c ∷ s) =
    let rest = scan_number (start + 1) s in if is_space c then rest else scan_signed start (c ∷ s)

-- A value of a signed 64-bit type, clamped where it does not fit, and whether it fits.
unfoldable pub to_signed64 : Bool → ℕ → ℕ × Bool
to_signed64 true m = if leb m (2 ^ 63) then ((2 ^ 64 - m) % 2 ^ 64, true) else (2 ^ 63, false)
to_signed64 false m = if ltb m (2 ^ 63) then (m, true) else (2 ^ 63 - 1, false)

-- The same of the unsigned type: a minus sign negates modulo 2 ^ 64.
unfoldable pub to_unsigned64 : Bool → ℕ → ℕ × Bool
to_unsigned64 true m = if ltb m (2 ^ 64) then ((2 ^ 64 - m) % 2 ^ 64, true) else (2 ^ 64 - 1, false)
to_unsigned64 false m = if ltb m (2 ^ 64) then (m, true) else (2 ^ 64 - 1, false)

-- `std::strtol(s, &end, 10)`: the value and the position of `end`.
unfoldable pub strtol : Bytes → ℕ × ℕ
unfolding scan_number to_signed64
strtol s = elim (scan_number 0 s) [
  | none ↦ (0, 0)
  | some n ↦ ((to_signed64 n.negative n.magnitude).0, n.stop)
]

-- `std::stoll` and `std::stoull` throw `std::invalid_argument` or `std::out_of_range`.
pub data Stoi : Type 0 where
  invalid_argument out_of_range : Stoi
  parsed : ℕ → ℕ → Stoi

abbrev pub checked : ℕ × Bool → ℕ → Stoi
checked (v, true) stop = parsed v stop
checked (v, false) stop = out_of_range

unfoldable pub stoll : Bytes → Stoi
unfolding scan_number to_signed64
stoll s = elim (scan_number 0 s) [
  | none ↦ invalid_argument
  | some n ↦ checked (to_signed64 n.negative n.magnitude) n.stop
]

unfoldable pub stoull : Bytes → Stoi
unfolding scan_number to_unsigned64
stoull s = elim (scan_number 0 s) [
  | none ↦ invalid_argument
  | some n ↦ checked (to_unsigned64 n.negative n.magnitude) n.stop
]
