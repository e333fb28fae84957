-- ===== src/Rows/Parts.antt =====
-- The parts of a query's path that select fields, and what they compile to.
pub mod Maps
use postgres_protobuf.Common.{
  ℕ, zero, suc, ◌+◌, ◌-◌, ◌*◌, ◌/◌, ◌%◌, ◌^◌, ◌≤◌, ◌<◌, ◌≡◌, refl, sym, ap, ◌∙◌, ◌≢◌, ◌⊎◌, inl, inr,
  Bool, true, false, not, ◌&&◌, ◌||◌, Option, none, some, List, [], ◌∷◌, ◌++◌, map, arith, ltb, leb,
  eq→==, ne→==, ◌==◌, if◌then◌else◌, Bool-cases, Option-cases, length, get_elem?, set, take, drop,
  All, length-append, length-set, get_elem?-lt, Bytes, codes, text, bytes_eq, bytes_eq_refl,
  bytes_eq→eq, find, find_from, substr, to_string, signed_to_string, upper_hex, pad2,
  upper_hex_glyph, decimal_glyph, take-length, drop-length, drop-length_cons, Without, find-append,
  find_from-append, cons-ne-nil, drop-elem, drop_past, All-append, lt→ltb, not_lt→ltb,
}
use postgres_protobuf.Common.Strto.{stoll, parsed}
use postgres_protobuf.Common.Strto.Printed.{stoll_positive, printed_digit}
use postgres_protobuf.Result.{ok}
use postgres_protobuf.Library.{FieldDescriptor, Protobuf}
use postgres_protobuf.Field.{Uninitialized}
use postgres_protobuf.Visitor.{Visitor, field_selector}
use postgres_protobuf.Visitor.Selectors.{new_field_selector}
use postgres_protobuf.Query.Part.{
  DescPtrs, starts_with_digit, field_selector_end, find_field, describe, plain, is_bracketed,
  last_is, is_empty, select_index, select_repeated, compile_query_part,
}
use postgres_protobuf.Rows.Spec.{ready}

-- The text between brackets, and the index that it stands for: of a number below 2 ^ 63, the lower 32
-- bits.
pub data Index : Bytes → Option ℕ → Type 0 where
  every : Index (codes "*") none
  nth : (n : ℕ) → n < 2 ^ 63 → Index (to_string n) (some (n % 2 ^ 32))

-- A part that names a field of a message: the field's name, where the field is not repeated, or the
-- name with `[*]` or an index in brackets, where it is repeated and not a map.
pub data Part (pb : Protobuf) (desc : ℕ) (fd : FieldDescriptor) : Bytes → Option ℕ → Type 0 where
  single :
      (name : Bytes)
      → (name ≢ [])
      → starts_with_digit name ≡ false
      → Without b'[' name
      → Without b'|' name
      → pb.find_field_by_name desc name ≡ some fd
      → fd.is_repeated ≡ false
      → fd.is_packed ≡ false
      → Part pb desc fd name none
  repeated :
      (name inner : Bytes) (index : Option ℕ)
      → starts_with_digit (name ++ b'[' ∷ (inner ++ b']' ∷ [])) ≡ false
      → Without b'[' name
      → Without b'|' (name ++ b'[' ∷ (inner ++ b']' ∷ []))
      → pb.find_field_by_name desc name ≡ some fd
      → fd.is_repeated ≡ true
      → fd.is_map ≡ false
      → fd.is_packed ≡ false
      → Index inner index
      → Part pb desc fd (name ++ b'[' ∷ (inner ++ b']' ∷ [])) index

not_star :
    (s : Bytes)
    → postgres_protobuf.Common.Strto.Printed.starts_with_digit s ≡ true
    → bytes_eq s (codes "*") ≡ false
unfolding bytes_eq
not_star [] h = refl
not_star (c ∷ s) h = ground arith

select_index-Index :
    (inner : Bytes) (index : Option ℕ) (ptrs : DescPtrs)
    → Index inner index
    → select_index inner ptrs ≡ ok (record { wanted_index = index; added = []; desc_ptrs = ptrs })
unfolding select_index text bytes_eq
select_index-Index _ _ ptrs every = refl
select_index-Index _ _ ptrs (nth n h) =
    rw
      (
        not_star (to_string n) (printed_digit n (omega arith)),
        stoll_positive n (omega arith),
        select_index,
      )
      (rw (eq→== (length (to_string n)) (length (to_string n)) refl) refl)

last_is-append : (c : ℕ) (s : Bytes) → last_is c (s ++ c ∷ []) ≡ true
last_is-append c [] = eq→== c c refl
last_is-append c (x ∷ []) = eq→== c c refl
last_is-append c (x ∷ y ∷ s) = last_is-append c (y ∷ s)

digit_first :
    (s : Bytes)
    → postgres_protobuf.Common.Strto.Printed.starts_with_digit s ≡ true
    → is_empty s ≡ false
digit_first [] h = cc
digit_first (c ∷ s) h = refl

not_empty : (inner : Bytes) (index : Option ℕ) → Index inner index → is_empty inner ≡ false
not_empty _ _ every = refl
not_empty _ _ (nth n h) = digit_first (to_string n) (printed_digit n (omega arith))

two_less : (inner : Bytes) (c : ℕ) → suc (length (inner ++ c ∷ [])) - 2 ≡ length inner
two_less inner c = omega (arith, length-append inner (c ∷ []))

not_empty_append : (name : Bytes) (c : ℕ) (s : Bytes) → is_empty (name ++ c ∷ s) ≡ false
not_empty_append [] c s = refl
not_empty_append (x ∷ name) c s = refl

not_empty_name : (name : Bytes) → name ≢ [] → is_empty name ≡ false
not_empty_name [] n = absurd (n refl)
not_empty_name (x ∷ name) n = refl

take_all : (name : Bytes) → take (length name) name ≡ name
take_all [] = refl
take_all (c ∷ name) = ap (λ s. c ∷ s) (take_all name)

shorter : (name : Bytes) (c : ℕ) (s : Bytes) → (length name == length (name ++ c ∷ s)) ≡ false
shorter name c s = ne→== _ _ (omega (arith, length-append name (c ∷ s)))

module _ (pb : Protobuf) (u : Uninitialized) where
  select_repeated-bracketed :
      (fd : FieldDescriptor) (inner : Bytes) (index : Option ℕ) (ptrs : DescPtrs)
      → fd.is_map ≡ false
      → Index inner index
      → select_repeated pb u fd (b'[' ∷ (inner ++ b']' ∷ [])) ptrs
        ≡ ok (record { wanted_index = index; added = []; desc_ptrs = ptrs })
  unfolding select_repeated is_bracketed bytes_eq text
  select_repeated-bracketed fd inner index ptrs m i =
      rw
        (
          last_is-append b']' (b'[' ∷ inner),
          two_less inner b']',
          take-length inner (b']' ∷ []),
          not_empty inner index i,
          m,
        )
        (select_index-Index inner index ptrs i)

  end_of_name :
      (name : Bytes) → Without b'[' name → Without b'|' name → field_selector_end name ≡ length name
  unfolding field_selector_end
  end_of_name name b o = rw (b, o) refl

  end_of_bracketed :
      (name s : Bytes)
      → Without b'[' name
      → Without b'|' (name ++ b'[' ∷ s)
      → field_selector_end (name ++ b'[' ∷ s) ≡ length name
  unfolding field_selector_end
  end_of_bracketed name s b o = rw (find-append b'[' name s b, o) refl

  find_named :
      (desc : ℕ) (part name : Bytes) (fd : FieldDescriptor)
      → starts_with_digit part ≡ false
      → take (field_selector_end part) part ≡ name
      → pb.find_field_by_name desc name ≡ some fd
      → find_field pb desc part ≡ ok fd
  unfolding find_field
  find_named desc part name fd g t f = rw (g, find_field) (rw t (rw f refl))

  -- A part whose field is found and whose selector gives an index.
  compile_found :
      (desc : ℕ) (fd : FieldDescriptor) (part : Bytes) (end : ℕ) (index : Option ℕ)
      (added : List Visitor) (ptrs' : DescPtrs) (visitors : List Visitor) (ptrs : DescPtrs)
      → ptrs.desc ≡ some desc
      → is_empty part ≡ false
      → find_field pb desc part ≡ ok fd
      → field_selector_end part ≡ end
      → (not fd.is_repeated && not (end == length part)) ≡ false
      → (if fd.is_repeated
          then select_repeated pb u fd (drop end part) (describe fd)
          else ok (plain (describe fd)))
        ≡ ok (record { wanted_index = index; added = added; desc_ptrs = ptrs' })
      → fd.is_packed ≡ false
      → compile_query_part pb u part (visitors, ptrs)
        ≡ ok (visitors ++ ready fd.number index fd.type ∷ added, ptrs')
  unfolding compile_query_part new_field_selector
  compile_found desc fd part end index added ptrs' visitors ptrs d e f n o s p =
      rw (d, e, f, compile_query_part)
        (rw (n, o, s)
          (ap
            (λ b. ok (
              visitors
                  ++ field_selector
                      (record (new_field_selector fd.number fd.type b) { wanted_index = index })
                    ∷ added,
              ptrs',
            ))
            p))

  pub compile_query_part-Part :
      (desc : ℕ) (fd : FieldDescriptor) (part : Bytes) (index : Option ℕ) (visitors : List Visitor)
      (ptrs : DescPtrs)
      → Part pb desc fd part index
      → ptrs.desc ≡ some desc
      → compile_query_part pb u part (visitors, ptrs)
        ≡ ok (visitors ++ ready fd.number index fd.type ∷ [], describe fd)
  compile_query_part-Part desc fd _ _ visitors ptrs (single name n g b o f r p) d =
      let end : field_selector_end name ≡ length name = end_of_name name b o in
      compile_found desc fd name (length name) none [] (describe fd) visitors ptrs d
        (not_empty_name name n)
        (find_named desc name name fd g (ap (λ k. take k name) end ∙ take_all name) f) end
        (rw (eq→== (length name) (length name) refl) (ground arith)) (rw r refl) p
  compile_query_part-Part desc fd _ _ visitors ptrs (repeated name inner index g b o f r m p i) d =
      let part : Bytes = name ++ b'[' ∷ (inner ++ b']' ∷ []) in
      let end : field_selector_end part ≡ length name =
        end_of_bracketed name (inner ++ b']' ∷ []) b o in
      compile_found desc fd part (length name) index [] (describe fd) visitors ptrs d
        (not_empty_append name b'[' _)
        (find_named desc part name fd g (ap (λ k. take k part) end ∙ take-length name _) f) end
        (rw r refl)
        (ap
            (λ b.
              if b
              then select_repeated pb u fd (drop (length name) part) (describe fd)
              else ok (plain (describe fd)))
            r
          ∙ ap (λ t. select_repeated pb u fd t (describe fd))
              (drop-length name (b'[' ∷ (inner ++ b']' ∷ [])))
          ∙ select_repeated-bracketed fd inner index (describe fd) m i)
        p
