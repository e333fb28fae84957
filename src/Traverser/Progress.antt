-- ===== src/Traverser/Progress.antt =====
-- What the traverser relies on of the stream to come to an end: reading only moves forward in the
-- bytes that the stream was created with.
use postgres_protobuf.Common.{ℕ, ◌≤◌, ◌<◌, ◌≡◌, ◌≢◌, some, length, Bytes}
use postgres_protobuf.Library.{CodedInputStream}

module _ (lib : CodedInputStream) where
  open lib use {
    Stream, Limit, create, read_tag, read_varint64, read_little_endian64, read_little_endian32,
    read_varint_size_as_int, skip, read_string, increment_recursion_depth_and_push_limit,
    decrement_recursion_depth_and_pop_limit, push_limit, pop_limit,
  }

  -- `remaining` counts the bytes that the stream has not passed, those behind a limit included.
  pub record Progress : Type 0 where
    pub remaining : Stream → ℕ
    pub created : (contents : Bytes) → remaining (create contents) ≤ length contents
    pub tag_forward : (s : Stream) → remaining (read_tag s).1 ≤ remaining s
    pub tag_takes : (s : Stream) → (read_tag s).0 ≢ 0 → remaining (read_tag s).1 < remaining s
    pub varint64_takes :
        (s : Stream) {x : ℕ} {s' : Stream}
        → read_varint64 s ≡ some (x, s')
        → remaining s' < remaining s
    pub little_endian64_takes :
        (s : Stream) {x : ℕ} {s' : Stream}
        → read_little_endian64 s ≡ some (x, s')
        → remaining s' < remaining s
    pub little_endian32_takes :
        (s : Stream) {x : ℕ} {s' : Stream}
        → read_little_endian32 s ≡ some (x, s')
        → remaining s' < remaining s
    pub size_takes :
        (s : Stream) {x : ℕ} {s' : Stream}
        → read_varint_size_as_int s ≡ some (x, s')
        → remaining s' < remaining s
    pub skip_forward : (n : ℕ) (s : Stream) → remaining (skip n s) ≤ remaining s
    pub string_forward :
        (n : ℕ) (s : Stream) {x : Bytes} {s' : Stream}
        → read_string n s ≡ some (x, s')
        → remaining s' ≤ remaining s
    pub descend_forward :
        (n : ℕ) (s : Stream) {l : Limit} {s' : Stream}
        → increment_recursion_depth_and_push_limit n s ≡ some (l, s')
        → remaining s' ≤ remaining s
    pub ascend_forward :
        (l : Limit) (s : Stream)
        → remaining (decrement_recursion_depth_and_pop_limit l s) ≤ remaining s
    pub push_forward : (n : ℕ) (s : Stream) → remaining (push_limit n s).1 ≤ remaining s
    pub pop_forward : (l : Limit) (s : Stream) → remaining (pop_limit l s) ≤ remaining s
