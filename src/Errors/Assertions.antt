-- ===== src/Errors/Assertions.antt =====
-- The assertions of the compiler of queries.
pub mod Compile
use postgres_protobuf.Common.{
  ℕ, zero, suc, ◌+◌, ◌-◌, ◌*◌, ◌/◌, ◌%◌, ◌^◌, ◌≤◌, ◌<◌, ◌≡◌, refl, sym, ap, ◌∙◌, ◌≢◌, ◌⊎◌, inl, inr,
  Bool, true, false, not, ◌&&◌, ◌||◌, Option, none, some, List, [], ◌∷◌, ◌++◌, map, arith, ltb, leb,
  eq→==, ne→==, ◌==◌, if◌then◌else◌, Bool-cases, Option-cases, length, get_elem?, set, take, drop,
  All, length-append, length-set, get_elem?-lt, Bytes, codes, text, bytes_eq, bytes_eq_refl,
  bytes_eq→eq, find, find_from, substr, to_string, signed_to_string, upper_hex, pad2,
  upper_hex_glyph, decimal_glyph, take-length, drop-length, drop-length_cons, Without, find-append,
  find_from-append, cons-ne-nil, drop-elem, drop_past, All-append, lt→ltb, not_lt→ltb,
}
use mathlib.Core.Path.{subst}
use postgres_protobuf.Common.Strto.{stoll, strtol}
use postgres_protobuf.Outcome.{Error, bad_proto, bad_query, assertion_failed}
use postgres_protobuf.Result.{Result, ok, err, ◌>>=◌, ◌>>◌, throw_if}
use postgres_protobuf.Library.{FieldType, FieldDescriptor, Protobuf, type_message}
use postgres_protobuf.Field.{Uninitialized}
use postgres_protobuf.Visitor.{Visitor}
use postgres_protobuf.Visitor.Treatments.{is_message}
use postgres_protobuf.DescriptorDb.{DescDb}
use postgres_protobuf.Query.Prefix.{get_desc_set, get_desc}
use postgres_protobuf.Query.Part.{
  DescPtrs, Selection, is_enum, field_selector_end, starts_with_digit, found, find_field, describe,
  when, is_bracketed, index_of, select_index, wanted_key, select_entries, map_fields, select_map,
  is_empty, select_repeated, known, compile_query_part,
}
use postgres_protobuf.Query.Compile.{
  asserted, create_emitter, Compiled, descend, compile_path, compile_last, root_visitors, root_ptrs,
  compile_visitors, compile_query,
}
use postgres_protobuf.Rows.Parts.Maps.{message_of}
use postgres_protobuf.Errors.Results.{OnlyErr, on_ok, on_err}
use postgres_protobuf.Errors.Keys.{wanted_key-OnlyErr, index_of-OnlyErr}

-- The exceptions of which the query functions tell the message.
abbrev pub IsTold : Error → Type 0
IsTold (bad_proto message) = Unit
IsTold (bad_query message) = Unit
IsTold _ = ⊥

-- The function gives a value with the property, or throws such an exception.
pub data Yields {A : Type 0} (Q : A → Type 0) : Result A → Type 0 where
  yields : {a : A} → Q a → Yields Q (ok a)
  tells : {e : Error} → IsTold e → Yields Q (err e)

err_injective : {A : Type 0} {d e : Error} → ◌≡◌ {A = Result A} (err d) (err e) → d ≡ e
err_injective e = cc

module _ {A : Type 0} {Q : A → Type 0} where
  pub bind-Yields :
      {B : Type 0} {R : B → Type 0} {m : Result A} {f : A → Result B}
      → Yields Q m
      → ((a : A) → Q a → Yields R (f a))
      → Yields R (m >>= f)
  bind-Yields (yields q) h = h _ q
  bind-Yields (tells p) h = tells p

  pub throw_if-Yields :
      (b : Bool) (e : Error) {m : Result A}
      → IsTold e
      → (b ≡ false → Yields Q m)
      → Yields Q (throw_if b e >> m)
  throw_if-Yields true e p h = tells p
  throw_if-Yields false e p h = h refl

  pub if-Yields :
      (b : Bool) {m n : Result A}
      → (b ≡ true → Yields Q m)
      → (b ≡ false → Yields Q n)
      → Yields Q (if b then m else n)
  if-Yields true h k = h refl
  if-Yields false h k = k refl

  pub Yields-err : {m : Result A} {e : Error} → Yields Q m → m ≡ err e → IsTold e
  Yields-err (yields q) e = cc
  Yields-err (tells p) e = subst IsTold (err_injective e) p

-- A field that the library finds.
abbrev pub IsField : Protobuf → FieldDescriptor → Type 0
IsField pb fd =
    ((desc n : ℕ) × (pb.find_field_by_number desc n ≡ some fd))
    ⊎ ((desc : ℕ) × (name : Bytes) × (pb.find_field_by_name desc name ≡ some fd))

-- The fields that are maps: a map is a field of a message type, as `is_map` documents; its keys are
-- neither messages nor of an enum, which the language of protobuf does not allow, nor are its values
-- of an enum, which this schema does not use.
pub record MapSchema (pb : Protobuf) : Type 0 where
  pub entry_message :
      (fd : FieldDescriptor) → IsField pb fd → fd.is_map ≡ true → fd.type ≡ type_message
  pub key_type :
      (fd k : FieldDescriptor)
      → IsField pb fd
      → fd.is_map ≡ true
      → pb.find_field_by_number fd.message_type 1 ≡ some k
      → (is_message k.type ≡ false) × (is_enum k.type ≡ false)
  pub value_type :
      (fd v : FieldDescriptor)
      → IsField pb fd
      → fd.is_map ≡ true
      → pb.find_field_by_number fd.message_type 2 ≡ some v
      → is_enum v.type ≡ false

-- The pointers that the type needs are not null.
abbrev pub Pointed : DescPtrs → Type 0
Pointed ptrs =
    (is_message ptrs.ty ≡ true → (d : ℕ) × (ptrs.desc ≡ some d))
    × (is_enum ptrs.ty ≡ true → (d : ℕ) × (ptrs.enum_desc ≡ some d))

pub is_set : (b : Bool) (n : ℕ) → b ≡ true → (d : ℕ) × (when b n ≡ some d)
is_set true n e = (n, refl)
is_set false n e = cc

pub describe-Pointed : (fd : FieldDescriptor) → Pointed (describe fd)
unfolding describe
describe-Pointed fd =
    (is_set (is_message fd.type) fd.message_type, is_set (is_enum fd.type) fd.enum_type)
