-- ===== src/Visitor/Entries/Handed.antt =====
-- Which fields of a map entry `AllMapEntries` hands on.
use postgres_protobuf.Common.{
  ℕ, suc, ◌≡◌, refl, Bool, Option, none, some, List, [], ◌∷◌, arith, map, if◌then◌else◌, ◌==◌,
}
use postgres_protobuf.Visitor.Treatments.{Treatment, skip, as_submessage}
use postgres_protobuf.Visitor.Entries.{
  AllMapEntries, outermost, in_entry, entries_begin_field, entries_read_length_delimited_field,
  entries_end_field,
}

-- What the visitor answers to a length-delimited field: who gets the field as it begins, and, if it
-- keeps the field itself, how the contents are to be read and by whom.
abbrev pub Answer : Type 0
Answer = ℕ × Option (Treatment × ℕ)

-- The traverser asks the visitor how to read a field only if it has kept the field.
unfoldable pub answer : ℕ → AllMapEntries × ℕ → Answer
unfolding entries_read_length_delimited_field
answer this (begun, who) = (
  who,
  (if who == this then some (entries_read_length_delimited_field this (suc this) begun) else none),
)

-- The calls for the fields of an entry with these numbers.
unfoldable pub fields_pass : ℕ → List ℕ → AllMapEntries → List Answer × AllMapEntries
unfolding entries_begin_field entries_end_field answer
fields_pass this [] a = ([], a)
fields_pass this (number ∷ numbers) a =
    let begun = entries_begin_field this (suc this) number a in
    let (answers, a') = fields_pass this numbers (entries_end_field begun.0) in
    (answer this begun ∷ answers, a')

-- The calls for a whole entry, itself a field with a number.
unfoldable pub entry_pass : ℕ → ℕ → List ℕ → AllMapEntries → List Answer × AllMapEntries
unfolding fields_pass entries_begin_field entries_end_field answer
entry_pass this number numbers a =
    let begun = entries_begin_field this (suc this) number a in
    let (answers, a') = fields_pass this numbers begun.0 in
    (answer this begun ∷ answers, entries_end_field a')

-- In an entry of a map, field 1 is the key and field 2 is the value. The wanted one goes to the next
-- visitor; any other field is kept and skipped.
unfoldable pub answer_to : ℕ → Bool → ℕ → Answer
answer_to this want_keys number =
    if number == (if want_keys then 1 else 2) then (suc this, none) else (this, some (skip, this))

-- A field of an entry is answered as it should be, and leaves the visitor in the entry.
field_answered :
    (this number : ℕ) (a : AllMapEntries)
    → a.scope ≡ in_entry
    → (answer this (entries_begin_field this (suc this) number a)
        ≡ answer_to this a.want_keys number)
      × (entries_end_field (entries_begin_field this (suc this) number a).0 ≡ a)
unfolding answer_to answer entries_begin_field entries_end_field
field_answered this number a h = ground arith

fields_pass_answers :
    (this : ℕ) (numbers : List ℕ) (a : AllMapEntries)
    → a.scope ≡ in_entry
    → fields_pass this numbers a ≡ (map (answer_to this a.want_keys) numbers, a)
unfolding fields_pass
fields_pass_answers this [] a h = refl
fields_pass_answers this (number ∷ numbers) a h =
    let (answered, left) = field_answered this number a h in
    rw (left, fields_pass_answers this numbers a h, answered) refl

-- A visitor between entries that goes through an entry descends into it, hands to the next visitor
-- exactly the entry's key fields, those with number 1, or its value fields, those with number 2, and
-- skips every other field if that is length-delimited; it is then again between entries, as it was.
pub entry_pass_answers :
    (this number : ℕ) (numbers : List ℕ) (a : AllMapEntries)
    → a.scope ≡ outermost
    → entry_pass this number numbers a
      ≡ ((this, some (as_submessage, this)) ∷ map (answer_to this a.want_keys) numbers, a)
unfolding entry_pass
entry_pass_answers this number numbers a h =
    ground (arith, fields_pass_answers this numbers (record a { scope = in_entry }))
