-- ===== src/Common/Text.antt =====
-- Strings as lists of bytes: literals, comparison, searching.
use Prim.Native.Nat.{ℕ, suc, ◌+◌}
use postgres_protobuf.Common.Lists.{take, drop, length, drop-length_cons}
use native.Mathlib.Numerals.{add-one}
use Prim.Native.Char.{code}
use Prim.Native.String.{String}
use mathlib.Core.Path.{◌≡◌, refl}
use mathlib.Core.Bool.{Bool, true, false, ◌&&◌}
use mathlib.Core.List.{List, [], ◌∷◌, ◌++◌}
use mathlib.Core.Option
use mathlib.Core.Option.{Option, none, some}
use native.Mathlib.Omega.{arith}
use postgres_protobuf.Common.Tests.{◌==◌, if◌then◌else◌}

-- A `std::string`: its bytes.
abbrev pub Bytes : Type 0
Bytes = List ℕ

abbrev pub codes : String → Bytes
codes String.[] = []
codes (String.◌∷◌ c s) = code c ∷ codes s

-- A string literal of the source, all ASCII.
unfoldable pub text : String → Bytes
text s = codes s

-- `std::string::operator==`.
unfoldable pub bytes_eq : Bytes → Bytes → Bool
bytes_eq [] [] = true
bytes_eq (a ∷ xs) (b ∷ ys) = (a == b) && bytes_eq xs ys
bytes_eq [] (b ∷ ys) = false
bytes_eq (a ∷ xs) [] = false

pub bytes_eq_refl : (xs : Bytes) → bytes_eq xs xs ≡ true
unfolding bytes_eq
bytes_eq_refl [] = refl
bytes_eq_refl (x ∷ xs) = ground (arith, bytes_eq_refl xs)

pub bytes_eq→eq : (xs ys : Bytes) → bytes_eq xs ys ≡ true → xs ≡ ys
unfolding bytes_eq
bytes_eq→eq [] [] h = refl
bytes_eq→eq (x ∷ xs) (y ∷ ys) h = ground (arith, bytes_eq→eq xs ys)
bytes_eq→eq [] (y ∷ ys) h = cc
bytes_eq→eq (x ∷ xs) [] h = cc

-- `s.find(c)`; `none` is `npos`.
unfoldable pub find : ℕ → Bytes → Option ℕ
find c [] = none
find c (x ∷ xs) = if x == c then some 0 else Option.map suc (find c xs)

-- `s.find(c, pos)`.
unfoldable pub find_from : ℕ → ℕ → Bytes → Option ℕ
unfolding find
find_from c pos s = Option.map (λ k. pos + k) (find c (drop pos s))

-- `s.substr(pos, n)`, for `pos` within `s`.
abbrev pub substr : Bytes → ℕ → ℕ → Bytes
substr s pos n = take n (drop pos s)

-- A text that does not hold the character.
abbrev pub Without : ℕ → Bytes → Type 0
Without c s = find c s ≡ none

pub find-append : (c : ℕ) (xs ys : Bytes) → Without c xs → find c (xs ++ c ∷ ys) ≡ some (length xs)
unfolding find
find-append c [] ys h = ground arith
find-append c (x ∷ xs) ys h = ground (arith, find-append c xs ys)

-- The next one after the first.
pub find_from-append :
    (c : ℕ) (xs ys : Bytes)
    → find_from c (length xs + 1) (xs ++ c ∷ ys) ≡ Option.map (λ k. length xs + 1 + k) (find c ys)
unfolding find_from
find_from-append c xs ys = rw add-one (rw (drop-length_cons xs c ys))
