-- ===== src/Samples/Memory.antt =====
-- The theorems on the memory helpers, over a small memory.
use postgres_protobuf.Common.{
  ℕ, ◌+◌, ◌*◌, ◌^◌, ◌≡◌, refl, inl, inr, Bool, true, false, not, ◌&&◌, ◌||◌, arith, ltb, leb, ◌==◌,
  if◌then◌else◌, Bool-cases, not_lt→ltb,
}
use postgres_protobuf.Outcome.{bad_alloc, done, thrown, M, ◌>>=◌, throw}
use postgres_protobuf.Allocation.{
  PostgresMemory, palloc0_or_throw_bad_alloc, pnew, pdelete, allocate, deallocate,
}
use postgres_protobuf.Allocation.Blocks.{
  gives, refuses, IsMemory, Leaves, throws, pnew-pdelete, allocate-deallocate,
}
use postgres_protobuf.Allocation.Sizes.{allocate-bytes}

-- Blocks are numbered from 1 on.
record SmallHeap : Type 0 where
  last : ℕ
  used : ℕ → Bool

abbrev after : SmallHeap → SmallHeap
after h = record { last = h.last + 1; used = λ q. (q == h.last + 1) || h.used q }

-- A block of up to 100 bytes can be had.
abbrev small_memory : PostgresMemory
small_memory = record {
  Heap = SmallHeap;
  palloc_extended = λ size h. if ltb size 101 then done (h.last + 1) (after h) else done 0 h;
  pfree = λ p h. record h { used = λ q. not (q == p) && h.used q };
}

abbrev is_block : SmallHeap → ℕ → Bool
is_block h q = ltb q (h.last + 1) && h.used q

new_block :
    (last q : ℕ) (u : Bool)
    → (ltb q (last + 1 + 1) && ((q == last + 1) || u))
      ≡ ((q == last + 1) || (ltb q (last + 1) && u))
new_block last q u = ground arith

freed_block : (a b u : Bool) → (a && (b && u)) ≡ (b && (a && u))
freed_block true b u = refl
freed_block false true u = refl
freed_block false false u = refl

small_memory-IsMemory : IsMemory small_memory is_block
small_memory-IsMemory = record {
  palloc_law = λ size h. elim (Bool-cases (ltb size 101)) [
    | inl e ↦ rw e (
        gives (omega arith) (rw (not_lt→ltb (h.last + 1) (h.last + 1) (omega arith)) refl)
          (λ q. new_block h.last q (h.used q)))
    | inr e ↦ rw e (refuses (λ q. refl))
  ];
  pfree_law = λ p h q. freed_block (ltb q (h.last + 1)) (not (q == p)) (h.used q);
}

abbrev no_blocks : SmallHeap
no_blocks = record { last = 0; used = λ q. false }

-- A constructor that throws.
abbrev refused : ℕ → M SmallHeap (Unit {0})
refused p h = thrown bad_alloc h

pnew-pdelete_example :
    Leaves small_memory is_block no_blocks
      ((pnew small_memory 40 refused >>= pdelete small_memory (λ p h. h)) no_blocks)
pnew-pdelete_example =
    pnew-pdelete small_memory is_block small_memory-IsMemory 40 refused (λ p h. h) no_blocks
      (λ p h. throws (λ q. refl))

allocate-deallocate_example :
    Leaves small_memory is_block no_blocks
      ((allocate small_memory 8 5 >>= λ p. deallocate small_memory p 5) no_blocks)
allocate-deallocate_example =
    allocate-deallocate small_memory is_block small_memory-IsMemory 8 5 no_blocks

-- 2 ^ 61 objects of 8 bytes would take 2 ^ 64 bytes.
allocate-bytes_example : allocate small_memory 8 (2 ^ 61) no_blocks ≡ (
    if leb (2 ^ 64) (2 ^ 61 * 8)
    then throw bad_alloc no_blocks
    else palloc0_or_throw_bad_alloc small_memory (2 ^ 61 * 8) no_blocks)
allocate-bytes_example = allocate-bytes small_memory 8 (2 ^ 61) no_blocks (omega arith)
