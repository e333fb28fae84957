-- ===== src/Allocation/Sizes.antt =====
-- The sizes that `PostgresAllocator` asks for.
use postgres_protobuf.Common.{
  ℕ, ◌-◌, ◌*◌, ◌/◌, ◌^◌, ◌<◌, ◌≤◌, ◌≡◌, refl, inl, inr, true, false, arith, leb, ◌==◌,
  if◌then◌else◌, Bool-cases, lt→ltb, not_lt→ltb,
}
use native.Mathlib.Decide.{dec_lt}
use native.Mathlib.Nat.{mod-eq_of_lt, div-lt_iff_lt-mul}
use postgres_protobuf.Outcome.{bad_alloc, Outcome, done, thrown, stuck, M, throw, pure, and_then}
use postgres_protobuf.Allocation.{PostgresMemory, palloc0_or_throw_bad_alloc, allocate}

module _ {Heap : Type 0} where
  abbrev not_null : ℕ → M Heap ℕ
  not_null p = if p == 0 then throw bad_alloc else pure p

  -- The second test for the null pointer never fails.
  not_null_again :
      (o : Outcome Heap ℕ) → and_then not_null (and_then not_null o) ≡ and_then not_null o
  not_null_again (thrown e h) = refl
  not_null_again stuck = refl
  not_null_again (done p h) = elim (Bool-cases (p == 0)) [
    | inl e ↦ rw e refl
    | inr e ↦ rw (e, e) refl
  ]

past_limit : (n size : ℕ) → n * size < 2 ^ 64 → 2 ^ 64 - 1 < n * size → ⊥
past_limit n size p q = omega arith

at_most_test : (m n : ℕ) → m ≤ n → leb m n ≡ true
at_most_test m n p = ground arith

above_test : (m n : ℕ) → n < m → leb m n ≡ false
above_test m n p = ground arith

module _ (memory : PostgresMemory) where
  -- For a type that has a size, the allocator asks for exactly as many bytes as `n` objects
  -- take, or, where that number does not fit `size_t`, throws `std::bad_alloc` and asks for nothing.
  pub allocate-bytes :
      (size n : ℕ) (h : memory.Heap)
      → 0 < size
      → allocate memory size n h ≡ (
          if leb (2 ^ 64) (n * size)
          then throw bad_alloc h
          else palloc0_or_throw_bad_alloc memory (n * size) h)
  unfolding allocate palloc0_or_throw_bad_alloc
  allocate-bytes size n h p = elim (dec_lt (n * size) (2 ^ 64)) [
    | yes fits ↦ rw (above_test (2 ^ 64) (n * size) fits) (
        rw
          (not_lt→ltb ((2 ^ 64 - 1) / size) n
            (λ q. past_limit n size fits ((div-lt_iff_lt-mul p).0 q)))
          (rw (mod-eq_of_lt fits) (not_null_again (memory.palloc_extended (n * size) h))))
    | no large ↦
        rw (at_most_test (2 ^ 64) (n * size) (omega arith))
          (rw (lt→ltb ((2 ^ 64 - 1) / size) n ((div-lt_iff_lt-mul p).1 (omega arith))) refl)
  ]
