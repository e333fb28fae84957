-- ===== src/Visitor/Selectors/Occurrences.antt =====
-- A field selector counts the fields of a message, whether it emits them or not.
use postgres_protobuf.Common.{
  ℕ, suc, ◌+◌, ◌≡◌, refl, ap, ◌∙◌, ◌≢◌, ◌⊎◌, inl, inr, true, false, ◌&&◌, Option, none, some, List,
  [], ◌∷◌, arith, ◌==◌, if◌then◌else◌,
}
use native.Mathlib.Nat.{zero-add}
use postgres_protobuf.Visitor.Treatments.{is_message}
use postgres_protobuf.Visitor.Selectors.{
  index_matches, FieldSelector, selector_begin_field, selector_end_field,
}

-- A field as the selector sees it: its number and its wire type.
abbrev pub Seen : Type 0
Seen = ℕ × ℕ

-- The selector over the fields of a message, each begun and ended; the visitors that it hands a
-- field to come and go in between and do not change it.
unfoldable pub seen : ℕ → List Seen → FieldSelector → FieldSelector
unfolding selector_begin_field selector_end_field
seen this [] s = s
seen this ((number, wire_type) ∷ fields) s =
    seen this fields
      (selector_end_field (selector_begin_field this (suc this) number wire_type s).0)

-- How many of the fields have the number.
unfoldable pub occurrences : ℕ → List Seen → ℕ
occurrences n [] = 0
occurrences n ((number, wire_type) ∷ fields) =
    if number == n then occurrences n fields + 1 else occurrences n fields

-- One field leaves what the selector is looking for as it was, and is counted if it is wanted.
abbrev pub Kept : FieldSelector → FieldSelector → Type 0
Kept s s' =
    (s'.wanted_field ≡ s.wanted_field)
    × (s'.wanted_index ≡ s.wanted_index)
    × (s'.ty ≡ s.ty)
    × (s'.is_packed ≡ s.is_packed)

pub round-Kept :
    (this number wire_type : ℕ) (s : FieldSelector)
    → Kept s (selector_end_field (selector_begin_field this (suc this) number wire_type s).0)
unfolding selector_begin_field selector_end_field
round-Kept this number wire_type s = (ground arith, ground arith, ground arith, ground arith)

pub round_counts :
    (this number wire_type : ℕ) (s : FieldSelector)
    → (selector_end_field (selector_begin_field this (suc this) number wire_type s).0).current_index
      ≡ (if number == s.wanted_field then s.current_index + 1 else s.current_index)
unfolding selector_begin_field selector_end_field
round_counts this number wire_type s = ground arith

seen-Kept : (this : ℕ) (fields : List Seen) (s : FieldSelector) → Kept s (seen this fields s)
unfolding seen
seen-Kept this [] s = (refl, refl, refl, refl)
seen-Kept this ((number, wire_type) ∷ fields) s =
    let s' = selector_end_field (selector_begin_field this (suc this) number wire_type s).0 in
    let (a, b, c, d) = round-Kept this number wire_type s in
    let (a', b', c', d') = seen-Kept this fields s' in (a' ∙ a, b' ∙ b, c' ∙ c, d' ∙ d)

seen_counts :
    (this : ℕ) (fields : List Seen) (s : FieldSelector)
    → (seen this fields s).current_index ≡ s.current_index + occurrences s.wanted_field fields
unfolding seen occurrences
seen_counts this [] s = omega arith
seen_counts this ((number, wire_type) ∷ fields) s =
    let s' = selector_end_field (selector_begin_field this (suc this) number wire_type s).0 in
    ground (
      arith,
      seen_counts this fields s',
      round_counts this number wire_type s,
      round-Kept this number wire_type s,
    )

-- What `BeginField` answers on a field that is not read as packed.
begin_answers :
    (this number wire_type : ℕ) (s : FieldSelector)
    → s.is_packed ≡ false
    → (is_message s.ty ≡ true) ⊎ (wire_type ≢ 2)
    → (selector_begin_field this (suc this) number wire_type s).1 ≡ (
        if number == s.wanted_field && index_matches s.wanted_index s.current_index
        then suc this
        else this)
unfolding selector_begin_field
begin_answers this number wire_type s p (inl m) = ground arith
begin_answers this number wire_type s p (inr w) = ground arith

-- The same, after any fields, in terms of how many had the wanted number.
seen_answers :
    (this : ℕ) (fields : List Seen) (number wire_type : ℕ) (s : FieldSelector)
    → s.is_packed ≡ false
    → s.current_index ≡ 0
    → (is_message s.ty ≡ true) ⊎ (wire_type ≢ 2)
    → (selector_begin_field this (suc this) number wire_type (seen this fields s)).1 ≡ (
        if number == s.wanted_field
          && index_matches s.wanted_index (occurrences s.wanted_field fields)
        then suc this
        else this)
seen_answers this fields number wire_type s p z side =
    let s' = seen this fields s in
    let (a, b, c, d) = seen-Kept this fields s in
    begin_answers this number wire_type s' (d ∙ p) (rw c side)
    ∙ rw (a, b, seen_counts this fields s, z, zero-add)

-- The next field is one that the selector is to hand on: it has the wanted number, and no index is
-- wanted, or as many fields came before it with that number as the wanted index says.
unfoldable pub IsSelected : FieldSelector → List Seen → ℕ → Type 0
IsSelected s fields number =
    (number ≡ s.wanted_field)
    × ((s.wanted_index ≡ none) ⊎ (s.wanted_index ≡ some (occurrences s.wanted_field fields)))

-- The test of the code, against what it is to decide.
selected-cases :
    (wanted : Option ℕ) (field number k : ℕ)
    → (((number == field && index_matches wanted k) ≡ true)
        × (number ≡ field)
        × ((wanted ≡ none) ⊎ (wanted ≡ some k)))
      ⊎ (((number == field && index_matches wanted k) ≡ false)
          × ¬ ((number ≡ field) × ((wanted ≡ none) ⊎ (wanted ≡ some k))))
selected-cases none field number k = ground arith
selected-cases (some i) field number k = ground arith

-- A selector that is not packed and has counted no field goes through any fields of a message and
-- then gets a field of a message type, or of any other wire type than 2. If the field has the wanted
-- number and either no index is wanted, or the wanted index is the number of earlier fields with
-- that number, it hands the field to the next visitor; if not, it keeps the field.
pub begin_field-seen :
    (this : ℕ) (fields : List Seen) (number wire_type : ℕ) (s : FieldSelector)
    → s.is_packed ≡ false
    → s.current_index ≡ 0
    → (is_message s.ty ≡ true) ⊎ (wire_type ≢ 2)
    → (IsSelected s fields number
        × ((selector_begin_field this (suc this) number wire_type (seen this fields s)).1
            ≡ suc this))
      ⊎ (¬ IsSelected s fields number
          × ((selector_begin_field this (suc this) number wire_type (seen this fields s)).1 ≡ this))
unfolding IsSelected
begin_field-seen this fields number wire_type s p z side =
    let answer = seen_answers this fields number wire_type s p z side in
    elim (selected-cases s.wanted_index s.wanted_field number (occurrences s.wanted_field fields)) [
      | inl (t, number_is, index_is) ↦
          inl ((number_is, index_is), answer ∙ ap (λ b. if b then suc this else this) t)
      | inr (t, unselected) ↦ inr (unselected, answer ∙ ap (λ b. if b then suc this else this) t)
    ]
