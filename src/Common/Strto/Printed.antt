-- ===== src/Common/Strto/Printed.antt =====
-- The number scanners on texts that `std::to_string` has printed.
use Prim.Native.Nat.{ℕ, zero, suc, ◌+◌, ◌-◌, ◌*◌, ◌/◌, ◌%◌, ◌^◌, ◌<◌, ◌≤◌}
use mathlib.Core.Path.{◌≡◌, refl, ◌∙◌, ap}
use mathlib.Core.Bool.{Bool, true, false}
use mathlib.Core.Logic.{inl, inr}
use mathlib.Core.List.{[], ◌∷◌}
use mathlib.Core.Option.{some}
use native.Mathlib.Omega.{arith}
use postgres_protobuf.Common.Tests.{ltb, Bool-cases}
use postgres_protobuf.Common.Lists.{length}
use postgres_protobuf.Common.Text.{Bytes}
use postgres_protobuf.Common.Decimal.{digits_from, decimal_glyph, to_string, signed_to_string}
use postgres_protobuf.Common.Strto.{
  is_digit, scan_digits, Scanned, scan_number, scan_unsigned, stoll, stoull, to_signed64,
  to_unsigned64, parsed, checked,
}

abbrev printed : ℕ → ℕ → Bytes → Bytes
printed f n acc = digits_from f 10 decimal_glyph n acc

abbrev pub starts_with_digit : Bytes → Bool
starts_with_digit [] = false
starts_with_digit (c ∷ s) = is_digit c

printed_starts :
    (f n : ℕ) (acc : Bytes) → n < 10 ^ suc f → starts_with_digit (printed (suc f) n acc) ≡ true
unfolding digits_from
printed_starts zero n acc h = ground arith
printed_starts (suc f) n acc h = elim (Bool-cases (ltb n 10)) [
  | inl e ↦ rw e (ground arith)
  | inr e ↦ rw e (printed_starts f (n / 10) (decimal_glyph (n % 10) ∷ acc) (omega arith))
]

one_digit :
    (a d taken : ℕ) (acc : Bytes)
    → d < 10
    → scan_digits a taken (decimal_glyph d ∷ acc) ≡ scan_digits (a * 10 + d) (taken + 1) acc
unfolding scan_digits
one_digit a d taken acc h = ground arith

printed_scan :
    (f n taken : ℕ) (acc : Bytes)
    → n < 10 ^ suc f
    → (k : ℕ) × (scan_digits 0 taken (printed (suc f) n acc) ≡ scan_digits n (taken + k) acc)
      × (length (printed (suc f) n acc) ≡ k + length acc)
unfolding digits_from
printed_scan zero n taken acc h = (1, ground (arith, one_digit 0 n taken acc), ground arith)
printed_scan (suc f) n taken acc h = elim (Bool-cases (ltb n 10)) [
  | inl e ↦ (1, rw e (ground (arith, one_digit 0 n taken acc)), rw e (omega arith))
  | inr e ↦
      let (k, s, l) = printed_scan f (n / 10) taken (decimal_glyph (n % 10) ∷ acc) (omega arith) in
      (
        k + 1,
        rw e (s ∙ ground (arith, one_digit (n / 10) (n % 10) (taken + k) acc)),
        rw e (omega (arith, l)),
      )
]

scan_unsigned_digit :
    (neg : Bool) (start : ℕ) (s : Bytes)
    → starts_with_digit s ≡ true
    → scan_unsigned neg start s
      ≡ some (record {
        negative = neg;
        magnitude = (scan_digits 0 start s).0;
        stop = (scan_digits 0 start s).1;
      })
scan_unsigned_digit neg start [] h = cc
scan_unsigned_digit neg start (c ∷ s) h = rw h refl

scan_number_digit :
    (start : ℕ) (s : Bytes)
    → starts_with_digit s ≡ true
    → scan_number start s ≡ scan_unsigned false start s
unfolding scan_number
scan_number_digit start [] h = cc
scan_number_digit start (c ∷ s) h = ground arith

scan_number_minus :
    (start : ℕ) (s : Bytes) → scan_number start (b'-' ∷ s) ≡ scan_unsigned true (start + 1) s
unfolding scan_number
scan_number_minus start s = refl

unsigned_printed :
    (neg : Bool) (start n : ℕ)
    → n < 10 ^ 20
    → scan_unsigned neg start (to_string n)
      ≡ some (record { negative = neg; magnitude = n; stop = start + length (to_string n) })
unfolding to_string
unsigned_printed neg start n h =
    let (k, s, l) = printed_scan 19 n start [] h in
    let s' : scan_digits 0 start (printed 20 n []) ≡ (n, start + k) =
      s ∙ unfold scan_digits in refl in
    scan_unsigned_digit neg start (printed 20 n []) (printed_starts 19 n [] h)
    ∙ rw s' (ap (λ t. some (record { negative = neg; magnitude = n; stop = t })) (omega (arith, l)))

pub printed_digit : (n : ℕ) → n < 10 ^ 20 → starts_with_digit (to_string n) ≡ true
unfolding to_string
printed_digit n h = printed_starts 19 n [] h

scan_printed :
    (n : ℕ)
    → n < 10 ^ 20
    → scan_number 0 (to_string n)
      ≡ some (record { negative = false; magnitude = n; stop = length (to_string n) })
scan_printed n h =
    scan_number_digit 0 (to_string n) (printed_digit n h)
    ∙ unsigned_printed false 0 n h
    ∙ ap (λ t. some (record { negative = false; magnitude = n; stop = t })) (omega arith)

scan_printed_minus :
    (n : ℕ)
    → n < 10 ^ 20
    → scan_number 0 (b'-' ∷ to_string n)
      ≡ some (record { negative = true; magnitude = n; stop = length (b'-' ∷ to_string n) })
scan_printed_minus n h =
    scan_number_minus 0 (to_string n)
    ∙ unsigned_printed true 1 n h
    ∙ ap (λ t. some (record { negative = true; magnitude = n; stop = t })) (omega arith)

stoull_scanned :
    (s : Bytes) {n : Scanned}
    → scan_number 0 s ≡ some n
    → stoull s ≡ checked (to_unsigned64 n.negative n.magnitude) n.stop
unfolding stoull
stoull_scanned s e = rw (e, stoull)

stoll_scanned :
    (s : Bytes) {n : Scanned}
    → scan_number 0 s ≡ some n
    → stoll s ≡ checked (to_signed64 n.negative n.magnitude) n.stop
unfolding stoll
stoll_scanned s e = rw (e, stoll)

-- `stoull` reads back what `to_string` prints, to the end of the text.
pub stoull-to_string : (n : ℕ) → n < 2 ^ 64 → stoull (to_string n) ≡ parsed n (length (to_string n))
unfolding to_unsigned64
stoull-to_string n h = stoull_scanned (to_string n) (scan_printed n (omega arith)) ∙ ground arith

pub stoll_positive : (x : ℕ) → x < 2 ^ 63 → stoll (to_string x) ≡ parsed x (length (to_string x))
unfolding to_signed64
stoll_positive x h = stoll_scanned (to_string x) (scan_printed x (omega arith)) ∙ ground arith

stoll_negative :
    (m : ℕ)
    → m ≤ 2 ^ 63
    → stoll (b'-' ∷ to_string m) ≡ parsed ((2 ^ 64 - m) % 2 ^ 64) (length (b'-' ∷ to_string m))
unfolding to_signed64
stoll_negative m h =
    stoll_scanned (b'-' ∷ to_string m) (scan_printed_minus m (omega arith)) ∙ ground arith

-- `stoll` reads back the decimal form of a signed number, as its bit pattern.
pub stoll-signed_to_string :
    (x : ℕ) → x < 2 ^ 64 → stoll (signed_to_string 64 x) ≡ parsed x (length (signed_to_string 64 x))
unfolding signed_to_string
stoll-signed_to_string x h = elim (Bool-cases (ltb x (2 ^ 63))) [
  | inl e ↦ rw e (stoll_positive x (ground arith))
  | inr e ↦ rw e (
      stoll_negative (2 ^ 64 - x) (ground arith)
      ∙ ap (λ t. parsed t (length (b'-' ∷ to_string (2 ^ 64 - x)))) (ground arith))
]
