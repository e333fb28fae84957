-- ===== src/Samples/WireStream/Forward.antt =====
-- The concrete stream only moves forward.
use postgres_protobuf.Common.{
  ℕ, zero, suc, ◌+◌, ◌-◌, ◌*◌, ◌≤◌, ◌<◌, ◌≡◌, ◌≢◌, inl, inr, Option, some, [], ◌∷◌, arith,
  Option-cases, length, Bytes,
}
use postgres_protobuf.Traverser.Progress.{Progress}
use postgres_protobuf.Samples.WireStream.{
  WireStream, read_byte, step_from, read_groups, read_little_endian, read_bytes, skip_bytes,
  wire_read_size, wire_read_tag, wire_push_limit, wire_pop_limit, wire_descend, wire_ascend,
  wire_stream,
}

abbrev remaining : WireStream → ℕ
remaining s = length s.rest

step_from-takes :
    (s : WireStream) (rest : Bytes) {b : ℕ} {s' : WireStream}
    → step_from s rest ≡ some (b, s')
    → remaining s' < length rest
step_from-takes s [] e = cc
step_from-takes s (c ∷ cs) e = ground arith

read_byte-takes :
    (s : WireStream) {b : ℕ} {s' : WireStream}
    → read_byte s ≡ some (b, s')
    → remaining s' < remaining s
unfolding read_byte
read_byte-takes s e = ground (arith, step_from-takes s s.rest)

read_groups-takes :
    (fuel scale acc : ℕ) (s : WireStream) {x : ℕ} {s' : WireStream}
    → read_groups fuel scale acc s ≡ some (x, s')
    → remaining s' < remaining s
unfolding read_groups
read_groups-takes zero scale acc s e = cc
read_groups-takes (suc fuel) scale acc s {x} {s'} e = elim (Option-cases (read_byte s)) [
  | inl m ↦ ground (arith, m)
  | inr ((b, s₁), m) ↦ ground (
    arith,
    m,
    read_byte-takes s m,
    read_groups-takes fuel (128 * scale) (acc + (b - 128) * scale) s₁ {x = x} {s' = s'},
  )
]

read_little_endian-forward :
    (n scale acc : ℕ) (s : WireStream) {x : ℕ} {s' : WireStream}
    → read_little_endian n scale acc s ≡ some (x, s')
    → remaining s' + n ≤ remaining s
unfolding read_little_endian
read_little_endian-forward zero scale acc s e = ground arith
read_little_endian-forward (suc n) scale acc s {x} {s'} e = elim (Option-cases (read_byte s)) [
  | inl m ↦ ground (arith, m)
  | inr ((b, s₁), m) ↦ ground (
    arith,
    m,
    read_byte-takes s m,
    read_little_endian-forward n (256 * scale) (acc + b * scale) s₁ {x = x} {s' = s'},
  )
]

read_bytes-forward :
    (n : ℕ) (s : WireStream) {x : Bytes} {s' : WireStream}
    → read_bytes n s ≡ some (x, s')
    → remaining s' ≤ remaining s
unfolding read_bytes
read_bytes-forward zero s e = ground arith
read_bytes-forward (suc n) s e = elim (Option-cases (read_byte s)) [
  | inl m ↦ ground (arith, m)
  | inr ((b, s₁), m) ↦ elim (Option-cases (read_bytes n s₁)) [
    | inl k ↦ ground (arith, m, k)
    | inr ((bs, s₂), k) ↦ ground (arith, m, k, read_byte-takes s m, read_bytes-forward n s₁ k)
  ]
]

skip_bytes-forward : (n : ℕ) (s : WireStream) → remaining (skip_bytes n s) ≤ remaining s
unfolding skip_bytes
skip_bytes-forward zero s = omega arith
skip_bytes-forward (suc n) s = elim (Option-cases (read_byte s)) [
  | inl m ↦ rw (m, skip_bytes) (omega arith)
  | inr ((b, s₁), m) ↦
      rw (m, skip_bytes) (omega (arith, read_byte-takes s m, skip_bytes-forward n s₁))
]

size-takes :
    (s : WireStream) {x : ℕ} {s' : WireStream}
    → wire_read_size s ≡ some (x, s')
    → remaining s' < remaining s
unfolding wire_read_size
size-takes s e = elim (Option-cases (read_groups 10 1 0 s)) [
  | inl m ↦ ground (arith, m)
  | inr ((b, s₁), m) ↦ ground (arith, m, read_groups-takes 10 1 0 s m)
]

tag-forward : (s : WireStream) → remaining (wire_read_tag s).1 ≤ remaining s
unfolding wire_read_tag
tag-forward s = elim (Option-cases (read_groups 10 1 0 s)) [
  | inl m ↦ ground (arith, m)
  | inr ((b, s₁), m) ↦ ground (arith, m, read_groups-takes 10 1 0 s m)
]

tag-takes : (s : WireStream) → (wire_read_tag s).0 ≢ 0 → remaining (wire_read_tag s).1 < remaining s
unfolding wire_read_tag
tag-takes s h = elim (Option-cases (read_groups 10 1 0 s)) [
  | inl m ↦ ground (arith, m)
  | inr ((b, s₁), m) ↦ ground (arith, m, read_groups-takes 10 1 0 s m)
]

descend-forward :
    (n : ℕ) (s : WireStream) {l : Option ℕ} {s' : WireStream}
    → wire_descend n s ≡ some (l, s')
    → remaining s' ≤ remaining s
unfolding wire_descend
descend-forward n s e = ground arith

push-forward : (n : ℕ) (s : WireStream) → remaining (wire_push_limit n s).1 ≤ remaining s
unfolding wire_push_limit
push-forward n s = omega arith

pop-forward : (l : Option ℕ) (s : WireStream) → remaining (wire_pop_limit l s) ≤ remaining s
unfolding wire_pop_limit
pop-forward l s = omega arith

ascend-forward : (l : Option ℕ) (s : WireStream) → remaining (wire_ascend l s) ≤ remaining s
unfolding wire_ascend
ascend-forward l s = omega arith

pub wire_stream-Progress : Progress wire_stream
wire_stream-Progress = record {
  remaining = remaining;
  created = λ contents. omega arith;
  tag_forward = tag-forward;
  tag_takes = tag-takes;
  varint64_takes = λ s e. read_groups-takes 10 1 0 s e;
  little_endian64_takes = λ s e. omega (arith, read_little_endian-forward 8 1 0 s e);
  little_endian32_takes = λ s e. omega (arith, read_little_endian-forward 4 1 0 s e);
  size_takes = λ s e. size-takes s e;
  skip_forward = skip_bytes-forward;
  string_forward = λ n s e. read_bytes-forward n s e;
  descend_forward = λ n s e. descend-forward n s e;
  ascend_forward = ascend-forward;
  push_forward = push-forward;
  pop_forward = pop-forward;
}
