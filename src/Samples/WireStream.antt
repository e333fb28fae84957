-- ===== src/Samples/WireStream.antt =====
-- A concrete coded input stream over a list of bytes, with the documented behaviour of the
-- library's: an example of the stream that the traverser is given as a parameter.
pub mod Forward
use postgres_protobuf.Common.{
  ℕ, zero, suc, ◌+◌, ◌-◌, ◌*◌, ◌/◌, ◌%◌, ◌^◌, ◌≤◌, ◌<◌, ◌≡◌, refl, sym, ap, ◌∙◌, ◌≢◌, ◌⊎◌, inl, inr,
  Bool, true, false, not, ◌&&◌, ◌||◌, Option, none, some, List, [], ◌∷◌, ◌++◌, map, arith, ltb, leb,
  ◌==◌, if◌then◌else◌, Bool-cases, Option-cases, length, get_elem?, set, take, drop, All,
  length-append, length-set, get_elem?-lt, Bytes, text, bytes_eq, bytes_eq_refl, bytes_eq→eq, find,
  to_string, signed_to_string, upper_hex, pad2,
}
use postgres_protobuf.Library.{CodedInputStream}

pub record WireStream : Type 0 where
  pub position : ℕ
  pub rest : Bytes
  pub limit : Option ℕ
  pub budget : ℕ
  pub legitimate_end : Bool

unfoldable pub until_limit : WireStream → Option ℕ
until_limit s = elim s.limit [ none ↦ none | some l ↦ some (l - s.position) ]

unfoldable pub at_limit : WireStream → Bool
unfolding until_limit
at_limit s = elim (until_limit s) [ some zero ↦ true | _ ↦ false ]

abbrev pub step_from : WireStream → Bytes → Option (ℕ × WireStream)
step_from s [] = none
step_from s (b ∷ bs) = some (b, record s { position = s.position + 1; rest = bs })

unfoldable pub read_byte : WireStream → Option (ℕ × WireStream)
unfolding at_limit
read_byte s = if at_limit s then none else step_from s s.rest

-- `fuel` bytes at most; `scale` is the weight of the next group of seven bits.
unfoldable pub read_groups : ℕ → ℕ → ℕ → WireStream → Option (ℕ × WireStream)
unfolding read_byte
read_groups zero scale acc s = none
read_groups (suc fuel) scale acc s = elim (read_byte s) [
  | none ↦ none
  | some (b, s') ↦
      if ltb b 128
      then some ((acc + b * scale) % 2 ^ 64, s')
      else read_groups fuel (128 * scale) (acc + (b - 128) * scale) s'
]

unfoldable pub read_little_endian : ℕ → ℕ → ℕ → WireStream → Option (ℕ × WireStream)
unfolding read_byte
read_little_endian zero scale acc s = some (acc, s)
read_little_endian (suc n) scale acc s = elim (read_byte s) [
  | none ↦ none
  | some (b, s') ↦ read_little_endian n (256 * scale) (acc + b * scale) s'
]

unfoldable pub read_bytes : ℕ → WireStream → Option (Bytes × WireStream)
unfolding read_byte
read_bytes zero s = some ([], s)
read_bytes (suc n) s = elim (read_byte s) [
  | none ↦ none
  | some (b, s') ↦ elim (read_bytes n s') [ none ↦ none | some (bs, s'') ↦ some (b ∷ bs, s'') ]
]

unfoldable pub skip_bytes : ℕ → WireStream → WireStream
unfolding read_byte
skip_bytes zero s = s
skip_bytes (suc n) s = elim (read_byte s) [ none ↦ s | some (b, s') ↦ skip_bytes n s' ]

unfoldable pub wire_read_size : WireStream → Option (ℕ × WireStream)
unfolding read_groups
wire_read_size s = elim (read_groups 10 1 0 s) [
  | none ↦ none
  | some (n, s') ↦ if ltb n (2 ^ 31) then some (n, s') else none
]

abbrev pub is_empty : Bytes → Bool
is_empty [] = true
is_empty (b ∷ bs) = false

unfoldable pub wire_read_tag : WireStream → ℕ × WireStream
unfolding read_groups at_limit
wire_read_tag s =
    if at_limit s || is_empty s.rest
    then (0, record s { legitimate_end = true })
    else elim (read_groups 10 1 0 s) [
      | none ↦ (0, record s { legitimate_end = false })
      | some (tag, s') ↦ (tag % 2 ^ 32, record s' { legitimate_end = false })
    ]

-- A limit is an absolute position, and never passes the one that it replaces.
unfoldable pub wire_push_limit : ℕ → WireStream → Option ℕ × WireStream
wire_push_limit size s =
    let new = s.position + size in
    (
      s.limit,
      record s {
        limit = elim s.limit [
          | none ↦ some new
          | some old ↦ some (if ltb new old then new else old)
        ];
      },
    )

unfoldable pub wire_pop_limit : Option ℕ → WireStream → WireStream
wire_pop_limit limit s = record s { limit = limit; legitimate_end = false }

unfoldable pub wire_descend : ℕ → WireStream → Option (Option ℕ × WireStream)
unfolding wire_push_limit
wire_descend size s = elim s.budget [
  | zero ↦ none
  | suc budget ↦ some (wire_push_limit size (record s { budget = budget }))
]

unfoldable pub wire_ascend : Option ℕ → WireStream → WireStream
unfolding wire_pop_limit
wire_ascend limit s = wire_pop_limit limit (record s { budget = s.budget + 1 })

-- The default recursion limit is 100.
abbrev pub wire_stream : CodedInputStream
wire_stream = record {
  Stream = WireStream;
  Limit = Option ℕ;
  create = λ bytes. record {
    position = 0;
    rest = bytes;
    limit = none;
    budget = 100;
    legitimate_end = false;
  };
  read_tag = wire_read_tag;
  consumed_entire_message = λ s. s.legitimate_end;
  read_varint64 = read_groups 10 1 0;
  read_little_endian64 = read_little_endian 8 1 0;
  read_little_endian32 = read_little_endian 4 1 0;
  read_varint_size_as_int = wire_read_size;
  skip = skip_bytes;
  read_string = read_bytes;
  increment_recursion_depth_and_push_limit = wire_descend;
  decrement_recursion_depth_and_pop_limit = wire_ascend;
  push_limit = wire_push_limit;
  pop_limit = wire_pop_limit;
  bytes_until_limit = until_limit;
}
