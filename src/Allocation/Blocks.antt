-- ===== src/Allocation/Blocks.antt =====
-- Which blocks are allocated, before and after `pnew`, `pdelete` and `PostgresAllocator`.
use postgres_protobuf.Common.{
  ℕ, ◌≡◌, ◌≢◌, refl, sym, ◌∙◌, ap, inl, inr, Bool, true, false, not, ◌&&◌, ◌||◌, ltb, ◌==◌, ◌^◌,
  ◌*◌, ◌/◌, ◌-◌, ◌%◌, if◌then◌else◌, Bool-cases, arith, ne→==,
}
use mathlib.Core.Path.{subst}
use postgres_protobuf.Outcome.{
  Error, bad_proto, bad_query, recursion_depth_exceeded, limit_reached, protobuf_not_found,
  bad_alloc, assertion_failed, pg_error, Outcome, done, thrown, stuck, M, and_then, ◌>>=◌, pure,
  throw,
}
use postgres_protobuf.Allocation.{
  PostgresMemory, palloc0_or_throw_bad_alloc, freed_on_throw, pnew, pdelete, allocate, deallocate,
}

==→eq : (m n : ℕ) → (m == n) ≡ true → m ≡ n
==→eq m n e = ground arith

module _ (memory : PostgresMemory) where
  open memory use {Heap, palloc_extended, pfree}

  -- The blocks of a heap, by their addresses.
  abbrev pub Blocks : Type 0
  Blocks = Heap → ℕ → Bool

  -- What `palloc_extended` promises: a new block and nothing else, or no block, or a Postgres error.
  pub data Allocates (is_block : Blocks) (h : Heap) : Outcome Heap ℕ → Type 0 where
    gives :
        {p : ℕ} {h' : Heap}
        → p ≢ 0
        → is_block h p ≡ false
        → ((q : ℕ) → is_block h' q ≡ (q == p) || is_block h q)
        → Allocates is_block h (done p h')
    refuses :
        {h' : Heap} → ((q : ℕ) → is_block h' q ≡ is_block h q) → Allocates is_block h (done 0 h')
    raises : {message : _} {h' : Heap} → Allocates is_block h (thrown (pg_error message) h')

  -- The documented behaviour of `palloc_extended` and `pfree`.
  pub record IsMemory (is_block : Blocks) : Type 0 where
    pub palloc_law : (size : ℕ) (h : Heap) → Allocates is_block h (palloc_extended size h)
    pub pfree_law :
        (p : ℕ) (h : Heap) (q : ℕ) → is_block (pfree p h) q ≡ not (q == p) && is_block h q

  -- The statement ends with the blocks that there were, or throws with the blocks that there were,
  -- or Postgres raises an error, after which the whole memory context is freed.
  pub data Leaves (is_block : Blocks) (h : Heap) {A : Type 0} : Outcome Heap A → Type 0 where
    leaves :
        {a : A} {h' : Heap}
        → ((q : ℕ) → is_block h' q ≡ is_block h q)
        → Leaves is_block h (done a h')
    throws :
        {e : Error} {h' : Heap}
        → ((q : ℕ) → is_block h' q ≡ is_block h q)
        → Leaves is_block h (thrown e h')
    is_raised : {message : _} {h' : Heap} → Leaves is_block h (thrown (pg_error message) h')

  module _ (is_block : Blocks) (laws : IsMemory is_block) where
    -- To free a block that was new is to have what there was.
    freed_again :
        (p : ℕ) (h h1 h2 : Heap)
        → is_block h p ≡ false
        → ((q : ℕ) → is_block h1 q ≡ (q == p) || is_block h q)
        → ((q : ℕ) → is_block h2 q ≡ is_block h1 q)
        → (q : ℕ) → is_block (pfree p h2) q ≡ is_block h q
    freed_again p h h1 h2 fresh new same q =
        laws.pfree_law p h2 q ∙ ap (λ b. not (q == p) && b) (same q ∙ new q) ∙ other
      where
        other : (not (q == p) && ((q == p) || is_block h q)) ≡ is_block h q
        other = elim (Bool-cases (q == p)) [
          | inl e ↦ rw e (subst (λ x. false ≡ is_block h x) (sym (==→eq q p e)) (sym fresh))
          | inr e ↦ rw e refl
        ]

    -- The block is new, and what was constructed in it is either destroyed, or was thrown away.
    constructed :
        (p : ℕ) (h h1 : Heap) (destroy : ℕ → Heap → Heap) (o : Outcome Heap (Unit {0}))
        → is_block h p ≡ false
        → ((q : ℕ) → is_block h1 q ≡ (q == p) || is_block h q)
        → Leaves is_block h1 (and_then (λ _ h2. done tt (destroy p h2)) o)
        → Leaves is_block h (and_then (pdelete memory destroy) (freed_on_throw memory p o))
    unfolding pdelete
    constructed p h h1 destroy (done a h2) fresh new (leaves same) =
        leaves (freed_again p h h1 (destroy p h2) fresh new same)
    constructed p h h1 destroy (thrown (pg_error message) h2) fresh new same = is_raised
    constructed p h h1 destroy (thrown (bad_proto message) h2) fresh new (throws same) =
        throws (freed_again p h h1 h2 fresh new same)
    constructed p h h1 destroy (thrown (bad_query message) h2) fresh new (throws same) =
        throws (freed_again p h h1 h2 fresh new same)
    constructed p h h1 destroy (thrown recursion_depth_exceeded h2) fresh new (throws same) =
        throws (freed_again p h h1 h2 fresh new same)
    constructed p h h1 destroy (thrown limit_reached h2) fresh new (throws same) =
        throws (freed_again p h h1 h2 fresh new same)
    constructed p h h1 destroy (thrown protobuf_not_found h2) fresh new (throws same) =
        throws (freed_again p h h1 h2 fresh new same)
    constructed p h h1 destroy (thrown bad_alloc h2) fresh new (throws same) =
        throws (freed_again p h h1 h2 fresh new same)
    constructed p h h1 destroy (thrown assertion_failed h2) fresh new (throws same) =
        throws (freed_again p h h1 h2 fresh new same)
    constructed p h h1 destroy stuck fresh new l = elim l [ ]

    -- An object that is made with `pnew` and deleted with `pdelete` leaves the blocks that there
    -- were, and so does one whose allocation fails or whose constructor throws, where its constructor
    -- and its destructor leave the blocks that there were, as a constructor does that throws.
    pub pnew-pdelete :
        (size : ℕ) (construct : ℕ → M Heap (Unit {0})) (destroy : ℕ → Heap → Heap) (h : Heap)
        → ((p : ℕ) (h1 : Heap)
            → Leaves is_block h1 (and_then (λ _ h2. done tt (destroy p h2)) (construct p h1)))
        → Leaves is_block h ((pnew memory size construct >>= pdelete memory destroy) h)
    unfolding pnew palloc0_or_throw_bad_alloc
    pnew-pdelete size construct destroy h ends = from _ (laws.palloc_law size h)
      where
        from :
            (o : Outcome Heap ℕ)
            → Allocates is_block h o
            → Leaves is_block h (
                and_then (pdelete memory destroy) (
                  and_then
                    (λ block h1. freed_on_throw memory block (construct block h1))
                    (and_then (λ p. if p == 0 then throw bad_alloc else pure p) o)))
        from _ raises = is_raised
        from _ (refuses same) = throws same
        from (done p h1) (gives nonnull fresh new) =
            rw (ne→== p 0 nonnull)
              (constructed p h h1 destroy (construct p h1) fresh new (ends p h1))

    -- What `PostgresAllocator` allocates for any number of objects and then deallocates leaves the
    -- blocks that there were, and so does an allocation that fails; or Postgres raises an error, after
    -- which the whole memory context is freed.
    pub allocate-deallocate :
        (size n : ℕ) (h : Heap)
        → Leaves is_block h ((allocate memory size n >>= λ p. deallocate memory p n) h)
    unfolding allocate deallocate palloc0_or_throw_bad_alloc
    allocate-deallocate size n h = elim (Bool-cases (ltb ((2 ^ 64 - 1) / size) n)) [
      | inl e ↦ rw (e, allocate) (throws (λ q. refl))
      | inr e ↦ rw (e, allocate) (from _ (laws.palloc_law (n * size % 2 ^ 64) h))
    ]
      where
        from :
            (o : Outcome Heap ℕ)
            → Allocates is_block h o
            → Leaves is_block h (
                and_then
                  (λ p. deallocate memory p n)
                  (and_then
                    (λ p. if p == 0 then throw bad_alloc else pure p)
                    (and_then (λ p. if p == 0 then throw bad_alloc else pure p) o)))
        from _ raises = is_raised
        from _ (refuses same) = throws same
        from (done p h1) (gives nonnull fresh new) =
            rw (ne→== p 0 nonnull)
              (rw (ne→== p 0 nonnull) (leaves (freed_again p h h1 h1 fresh new (λ q. refl))))
