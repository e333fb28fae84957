-- ===== src/Allocation.antt =====
-- The memory helpers of postgres_utils.hpp and postgres_utils.cpp: `palloc0_or_throw_bad_alloc`,
-- `pnew`, `pdelete` and `PostgresAllocator`.
pub mod Blocks
pub mod Sizes
use postgres_protobuf.Common.{ℕ, ◌-◌, ◌*◌, ◌/◌, ◌%◌, ◌^◌, Bool, ltb, ◌==◌, if◌then◌else◌}
use postgres_protobuf.Outcome.{
  Error, bad_alloc, pg_error, Outcome, done, thrown, stuck, M, ◌>>=◌, pure, throw,
}

-- The memory of Postgres, which is not part of the repository: `palloc_extended` with the flags
-- `MCXT_ALLOC_NO_OOM | MCXT_ALLOC_ZERO`, and `pfree`. A pointer is a number, and 0 is the null
-- pointer.
pub record PostgresMemory : Type 1 where
  pub Heap : Type 0
  pub palloc_extended : ℕ → M Heap ℕ
  pub pfree : ℕ → Heap → Heap

module _ (memory : PostgresMemory) where
  open memory use {Heap, palloc_extended, pfree}

  unfoldable pub palloc0_or_throw_bad_alloc : ℕ → M Heap ℕ
  palloc0_or_throw_bad_alloc size =
      palloc_extended size >>= λ p. if p == 0 then throw bad_alloc else pure p

  -- `try { ... } catch (...) { pfree(block); throw; }`. An error that Postgres raises passes the
  -- handler by.
  abbrev pub freed_on_throw : ℕ → Outcome Heap (Unit {0}) → Outcome Heap ℕ
  freed_on_throw block (done _ h) = done block h
  freed_on_throw block (thrown (pg_error message) h) = thrown (pg_error message) h
  freed_on_throw block (thrown e h) = thrown e (pfree block h)
  freed_on_throw block stuck = stuck

  -- `pnew<T>`: `size` is `sizeof(T)`, and `construct` is the constructor in the given block.
  unfoldable pub pnew : ℕ → (ℕ → M Heap (Unit {0})) → M Heap ℕ
  unfolding palloc0_or_throw_bad_alloc
  pnew size construct =
      palloc0_or_throw_bad_alloc size >>= λ block h. freed_on_throw block (construct block h)

  -- `pdelete`: `destroy` is the destructor, which throws nothing.
  unfoldable pub pdelete : (ℕ → Heap → Heap) → ℕ → M Heap (Unit {0})
  pdelete destroy p h = done tt (pfree p (destroy p h))

  -- `PostgresAllocator<T>::allocate`: `size` is `sizeof(T)`. `size_t` has 64 bits.
  unfoldable pub allocate : ℕ → ℕ → M Heap ℕ
  unfolding palloc0_or_throw_bad_alloc
  allocate size n =
      if ltb ((2 ^ 64 - 1) / size) n
      then throw bad_alloc
      else (palloc0_or_throw_bad_alloc (n * size % 2 ^ 64) >>= λ p.
          if p == 0 then throw bad_alloc else pure p)

  unfoldable pub deallocate : ℕ → ℕ → M Heap (Unit {0})
  deallocate p n h = done tt (pfree p h)
