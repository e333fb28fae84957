-- ===== src/Errors.antt =====
-- Which exceptions the code throws.
pub mod Results
pub mod Visitors
pub mod Steps
pub mod Scan
pub mod Runs
pub mod Keys
pub mod Prefix
pub mod Compile
pub mod Assertions
pub mod Functions
use postgres_protobuf.Common.{
  ℕ, zero, suc, ◌+◌, ◌-◌, ◌*◌, ◌/◌, ◌%◌, ◌^◌, ◌≤◌, ◌<◌, ◌≡◌, refl, sym, ap, ◌∙◌, ◌≢◌, ◌⊎◌, inl, inr,
  Bool, true, false, not, ◌&&◌, ◌||◌, Option, none, some, List, [], ◌∷◌, ◌++◌, map, arith, ltb, leb,
  eq→==, ne→==, ◌==◌, if◌then◌else◌, Bool-cases, Option-cases, length, get_elem?, set, take, drop,
  All, length-append, length-set, get_elem?-lt, Bytes, codes, text, bytes_eq, bytes_eq_refl,
  bytes_eq→eq, find, find_from, substr, to_string, signed_to_string, upper_hex, pad2,
  upper_hex_glyph, decimal_glyph, take-length, drop-length, drop-length_cons, Without, find-append,
  find_from-append, cons-ne-nil, drop-elem, drop_past, All-append, lt→ltb, not_lt→ltb,
}
use postgres_protobuf.Outcome.{
  Error, bad_proto, bad_query, recursion_depth_exceeded, limit_reached, assertion_failed, Outcome,
  done, thrown, stuck, M, ◌>>=◌, and_then,
}

-- The exceptions that a scan may throw: those of which the query functions tell, and the one that
-- `Run` catches.
abbrev pub IsScanError : Error → Type 0
IsScanError limit_reached = Unit
IsScanError (bad_proto message) = Unit
IsScanError (bad_query message) = Unit
IsScanError recursion_depth_exceeded = Unit
IsScanError _ = ⊥

-- The exceptions that a run lets out.
abbrev pub IsRunError : Error → Type 0
IsRunError (bad_proto message) = Unit
IsRunError (bad_query message) = Unit
IsRunError recursion_depth_exceeded = Unit
IsRunError _ = ⊥

-- The exceptions of the compiler of queries.
abbrev pub IsCompileError : Error → Type 0
IsCompileError (bad_proto message) = Unit
IsCompileError (bad_query message) = Unit
IsCompileError assertion_failed = Unit
IsCompileError _ = ⊥

-- A method of a visitor that throws, if at all, an exception of a scan.
abbrev pub Fine : Option Error → Type 0
Fine none = Unit
Fine (some e) = IsScanError e

-- If the statement throws, it throws such an exception.
pub data Only {S A : Type 0} (P : Error → Type 0) : Outcome S A → Type 0 where
  on_done : {a : A} {s : S} → Only P (done a s)
  on_thrown : {e : Error} {s : S} → P e → Only P (thrown e s)
  on_stuck : Only P stuck

abbrev pub Safe : {S A : Type 0} → M S A → Type 0
Safe {S} m = (s : S) → Only IsScanError (m s)

module _ {S A : Type 0} {P : Error → Type 0} where
  pub and_then-Only :
      {B : Type 0} {k : A → M S B} {o : Outcome S A}
      → Only P o
      → ((a : A) (s : S) → Only P (k a s))
      → Only P (and_then k o)
  and_then-Only on_done h = h _ _
  and_then-Only (on_thrown e) h = on_thrown e
  and_then-Only on_stuck h = on_stuck

  pub if-Only : (b : Bool) {o r : Outcome S A} → Only P o → Only P r → Only P (if b then o else r)
  if-Only true h l = h
  if-Only false h l = l

  pub Only-weaken :
      {Q : Error → Type 0} {o : Outcome S A} → Only P o → ((e : Error) → P e → Q e) → Only Q o
  Only-weaken on_done h = on_done
  Only-weaken (on_thrown p) h = on_thrown (h _ p)
  Only-weaken on_stuck h = on_stuck

module _ {S A : Type 0} where
  pub bind-Safe :
      {B : Type 0} {m : M S A} {k : A → M S B} → Safe m → ((a : A) → Safe (k a)) → Safe (m >>= k)
  bind-Safe m k s = and_then-Only (m s) k

  pub if-Safe : (b : Bool) {m k : M S A} → Safe m → Safe k → Safe (if b then m else k)
  if-Safe true h l = h
  if-Safe false h l = l
