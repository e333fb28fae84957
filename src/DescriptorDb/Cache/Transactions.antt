-- ===== src/DescriptorDb/Cache/Transactions.antt =====
-- How long the cached descriptor sets live.
use postgres_protobuf.Common.{
  ◌<◌, ◌≡◌, refl, sym, ap, ◌∙◌, ◌⊎◌, inl, inr, Bool, true, false, none, some, arith, Option-cases,
}
use postgres_protobuf.Outcome.{Error, Outcome, done, thrown, bad_alloc}
use mathlib.Core.Path.{subst}
use postgres_protobuf.Result.{Result, ok, err}
use postgres_protobuf.Postgres.{Spi}
use postgres_protobuf.DescriptorDb.{DescDb}
use postgres_protobuf.DescriptorDb.Cache.{
  Descriptors, Cache, Sets, sets_of_table, cache_sets, desc_sets_of, rebuild, get_or_create_cached,
  clear_cache, end_transaction,
}

abbrev pub initial : Cache
initial = record { cached = none; callbacks = 0 }

module _ (d : Descriptors) where
  -- What happens to the cache in a session, as long as the allocation of the callback succeeds: a
  -- query asks for the descriptor sets, of a table that may have changed, and gets them or fails;
  -- a transaction ends; the library is unloaded.
  pub data Step : Cache → Cache → Type 0 where
    asks :
        {c c' : Cache} (spi : Spi) (db : DescDb)
        → get_or_create_cached d spi true c ≡ done db c'
        → Step c c'
    fails :
        {c c' : Cache} (spi : Spi) (e : Error)
        → get_or_create_cached d spi true c ≡ thrown e c'
        → Step c c'
    ends : {c : Cache} → Step c (end_transaction c)
    unloads : {c : Cache} → Step c (clear_cache c)

  pub data Reach : Cache → Type 0 where
    starts : Reach initial
    steps : {c c' : Cache} → Reach c → Step c c' → Reach c'

  -- Cached sets have a callback that will clear them.
  abbrev IsTied : Cache → Type 0
  IsTied c = (c.cached ≡ none) ⊎ (0 < c.callbacks)

  -- What an outcome of a query leaves behind.
  abbrev Leaves : (Cache → Type 0) → Outcome Cache DescDb → Type 0
  Leaves P (done db c) = P c
  Leaves P (thrown e c) = P c
  Leaves P Outcome.stuck = Unit

  cache_sets-IsTied :
      (c : Cache) (r : Result Sets) → IsTied c → Leaves IsTied (cache_sets d true c r)
  cache_sets-IsTied c (ok sets) t = inr (omega arith)
  cache_sets-IsTied c (err e) t = t

  when_cached :
      (spi : Spi) (memory : Bool) (c : Cache) (db : DescDb)
      → c.cached ≡ some db
      → get_or_create_cached d spi memory c ≡ done db c
  unfolding get_or_create_cached
  when_cached spi memory c db h = ground arith

  when_empty :
      (spi : Spi) (memory : Bool) (c : Cache)
      → c.cached ≡ none
      → get_or_create_cached d spi memory c ≡ rebuild d spi memory c
  unfolding get_or_create_cached
  when_empty spi memory c h = ground arith

  asked-IsTied :
      (spi : Spi) (c : Cache) → IsTied c → Leaves IsTied (get_or_create_cached d spi true c)
  unfolding rebuild
  asked-IsTied spi c t = elim (Option-cases c.cached) [
    | inl h ↦
        subst (Leaves IsTied) (sym (when_empty spi true c h))
          (cache_sets-IsTied c (sets_of_table d spi) t)
    | inr (db, h) ↦ subst (Leaves IsTied) (sym (when_cached spi true c db h)) t
  ]

  end_transaction-cached : (c : Cache) → IsTied c → (end_transaction c).cached ≡ none
  unfolding end_transaction clear_cache
  end_transaction-cached c t = ground arith

  Step-IsTied : {c c' : Cache} → Step c c' → IsTied c → IsTied c'
  unfolding clear_cache
  Step-IsTied {c} (asks spi db e) t = subst (Leaves IsTied) e (asked-IsTied spi c t)
  Step-IsTied {c} (fails spi e h) t = subst (Leaves IsTied) h (asked-IsTied spi c t)
  Step-IsTied {c} ends t = inl (end_transaction-cached c t)
  Step-IsTied unloads t = inl refl

  Reach-IsTied : {c : Cache} → Reach c → IsTied c
  Reach-IsTied starts = inl refl
  Reach-IsTied (steps r s) = Step-IsTied s (Reach-IsTied r)

  -- As long as no allocation of a callback fails: whatever happened in a session, the first query
  -- of the next transaction reads the descriptor sets of the table as it is then.
  pub end_transaction-rebuild :
      (spi : Spi) (callback_memory : Bool) {c : Cache}
      → Reach c
      → get_or_create_cached d spi callback_memory (end_transaction c)
        ≡ rebuild d spi callback_memory (end_transaction c)
  end_transaction-rebuild spi callback_memory {c} r =
      when_empty spi callback_memory (end_transaction c) (end_transaction-cached c (Reach-IsTied r))

  done_cached :
      (db' : DescDb) (c c' : Cache) (db : DescDb)
      → c.cached ≡ some db'
      → ◌≡◌ {A = Outcome Cache DescDb} (done db' c) (done db c')
      → c'.cached ≡ some db
  done_cached db' c c' db h e = ground arith

  cache_sets_done :
      (memory : Bool) (c c' : Cache) (db : DescDb) (r : Result Sets)
      → cache_sets d memory c r ≡ done db c'
      → c'.cached ≡ some db
  cache_sets_done true c c' db (ok sets) e = ground arith
  cache_sets_done false c c' db (ok sets) e = cc
  cache_sets_done memory c c' db (err x) e = cc

  -- A query that got the descriptor sets leaves them for the later queries of its transaction,
  -- which get the same ones and change nothing, whatever the table holds by then.
  pub get_or_create_cached_again :
      (spi spi' : Spi) (memory memory' : Bool) (c c' : Cache) (db : DescDb)
      → get_or_create_cached d spi memory c ≡ done db c'
      → get_or_create_cached d spi' memory' c' ≡ done db c'
  unfolding rebuild
  get_or_create_cached_again spi spi' memory memory' c c' db e = elim (Option-cases c.cached) [
    | inl h ↦
        when_cached spi' memory' c' db (
          cache_sets_done memory c c' db (sets_of_table d spi)
            (sym (when_empty spi memory c h) ∙ e))
    | inr (db', h) ↦
        when_cached spi' memory' c' db
          (done_cached db' c c' db h (sym (when_cached spi memory c db' h) ∙ e))
  ]

  -- If the allocation of the callback fails in a transaction that has no callback yet, the sets
  -- that were just built stay cached past the transaction's end: every query of the next
  -- transaction gets them, whatever the table holds by then.
  pub get_or_create_cached_stale :
      (spi : Spi) (c : Cache) (sets : Sets)
      → c.callbacks ≡ 0
      → c.cached ≡ none
      → sets_of_table d spi ≡ ok sets
      → (c' : Cache) × (get_or_create_cached d spi false c ≡ thrown bad_alloc c')
        × ((spi' : Spi) (memory : Bool)
            → get_or_create_cached d spi' memory (end_transaction c')
              ≡ done (record { desc_sets = desc_sets_of d sets }) (end_transaction c'))
  unfolding rebuild end_transaction
  get_or_create_cached_stale spi c sets n h e =
      let db : DescDb = record { desc_sets = desc_sets_of d sets } in
      let c' : Cache = record c { cached = some db } in
      (
        c',
        when_empty spi false c h ∙ ap (cache_sets d false c) e,
        λ spi' memory. when_cached spi' memory (end_transaction c') db (ground arith),
      )
