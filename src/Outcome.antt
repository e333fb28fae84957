-- ===== src/Outcome.antt =====
-- C++ exceptions as values. A statement runs on a state and either completes, or throws and leaves
-- the state as it was at the throw.
use postgres_protobuf.Common.{Bool, true, false, if◌then◌else◌, Bytes}

-- The exceptions of querying.hpp, querying.cpp, postgres_protobuf_common.hpp and
-- postgres_protobuf.cpp, and `std::bad_alloc`. `assertion_failed` is a failed `assert`, and `pg_error`
-- an internal error that `ereport` raises in the middle of the code, which no handler sees.
pub data Error : Type 0 where
  bad_proto : Bytes → Error
  bad_query : Bytes → Error
  recursion_depth_exceeded limit_reached protobuf_not_found bad_alloc assertion_failed : Error
  pg_error : Bytes → Error

-- `stuck` is no behaviour of the program: the fuel of a loop ran out.
pub data Outcome (S : Type 0) (A : Type 0) : Type 0 where
  done : A → S → Outcome S A
  thrown : Error → S → Outcome S A
  stuck : Outcome S A

abbrev pub M : Type 0 → Type 0 → Type 0
M S A = S → Outcome S A

abbrev pub and_then : {S A B : Type 0} → (A → M S B) → Outcome S A → Outcome S B
and_then k (done a s) = k a s
and_then k (thrown e s) = thrown e s
and_then k stuck = stuck

infixl 5 ◌>>=◌ ◌>>◌
abbrev pub ◌>>=◌ : {S A B : Type 0} → M S A → (A → M S B) → M S B
◌>>=◌ m k s = and_then k (m s)

abbrev pub ◌>>◌ : {S B : Type 0} → M S (Unit {0}) → M S B → M S B
◌>>◌ m k s = and_then (λ _. k) (m s)

abbrev pub pure : {S A : Type 0} → A → M S A
pure a s = done a s

abbrev pub throw : {S A : Type 0} → Error → M S A
throw e s = thrown e s

-- The statement completes with the property, or throws; it does not run out of fuel.
pub data Ends {S A : Type 0} (P : A → S → Type 0) : Outcome S A → Type 0 where
  completes : {a : A} {s : S} → P a s → Ends P (done a s)
  raises : {e : Error} {s : S} → Ends P (thrown e s)

pub and_then-Ends :
    {S A B : Type 0} {P : A → S → Type 0} {Q : B → S → Type 0} {k : A → M S B} {o : Outcome S A}
    → Ends P o
    → ((a : A) (s : S) → P a s → Ends Q (k a s))
    → Ends Q (and_then k o)
and_then-Ends (completes p) h = h _ _ p
and_then-Ends raises h = raises

pub Ends-weaken :
    {S A : Type 0} {P Q : A → S → Type 0} {o : Outcome S A}
    → Ends P o
    → ((a : A) (s : S) → P a s → Q a s)
    → Ends Q o
Ends-weaken (completes p) h = completes (h _ _ p)
Ends-weaken raises h = raises

pub if-Ends :
    {S A : Type 0} {P : A → S → Type 0} (b : Bool) (m k : M S A) (s : S)
    → Ends P (m s)
    → Ends P (k s)
    → Ends P ((if b then m else k) s)
if-Ends true m k s h l = h
if-Ends false m k s h l = l

pub if-Ends_at :
    {S A : Type 0} {P : A → S → Type 0} (b : Bool) {o r : Outcome S A}
    → Ends P o
    → Ends P r
    → Ends P (if b then o else r)
if-Ends_at true h l = h
if-Ends_at false h l = l

-- If the statement completes, it does so with the property.
pub data Whenever {S A : Type 0} (P : A → S → Type 0) : Outcome S A → Type 0 where
  on_done : {a : A} {s : S} → P a s → Whenever P (done a s)
  on_thrown : {e : Error} {s : S} → Whenever P (thrown e s)
  on_stuck : Whenever P stuck

pub and_then-Whenever :
    {S A B : Type 0} {P : A → S → Type 0} {Q : B → S → Type 0} {k : A → M S B} {o : Outcome S A}
    → Whenever P o
    → ((a : A) (s : S) → P a s → Whenever Q (k a s))
    → Whenever Q (and_then k o)
and_then-Whenever (on_done p) h = h _ _ p
and_then-Whenever on_thrown h = on_thrown
and_then-Whenever on_stuck h = on_stuck

pub Whenever-weaken :
    {S A : Type 0} {P Q : A → S → Type 0} {o : Outcome S A}
    → Whenever P o
    → ((a : A) (s : S) → P a s → Q a s)
    → Whenever Q o
Whenever-weaken (on_done p) h = on_done (h _ _ p)
Whenever-weaken on_thrown h = on_thrown
Whenever-weaken on_stuck h = on_stuck

pub if-Whenever :
    {S A : Type 0} {P : A → S → Type 0} (b : Bool) {o r : Outcome S A}
    → Whenever P o
    → Whenever P r
    → Whenever P (if b then o else r)
if-Whenever true h l = h
if-Whenever false h l = l

pub if_at-Whenever :
    {S A : Type 0} {P : A → S → Type 0} (b : Bool) (m k : M S A) (s : S)
    → Whenever P (m s)
    → Whenever P (k s)
    → Whenever P ((if b then m else k) s)
if_at-Whenever true m k s h l = h
if_at-Whenever false m k s h l = l

-- A statement that ends, and has the property whenever it completes, ends with it.
pub Ends-Whenever :
    {S A : Type 0} {P Q : A → S → Type 0} {o : Outcome S A} → Ends P o → Whenever Q o → Ends Q o
Ends-Whenever (completes p) (on_done q) = completes q
Ends-Whenever raises w = raises

-- The statement completes with the property, unless it runs out of fuel.
pub data Succeeds {S A : Type 0} (P : A → S → Type 0) : Outcome S A → Type 0 where
  succeeds : {a : A} {s : S} → P a s → Succeeds P (done a s)
  out_of_fuel : Succeeds P stuck

pub and_then-Succeeds :
    {S A B : Type 0} {P : A → S → Type 0} {Q : B → S → Type 0} {k : A → M S B} {o : Outcome S A}
    → Succeeds P o
    → ((a : A) (s : S) → P a s → Succeeds Q (k a s))
    → Succeeds Q (and_then k o)
and_then-Succeeds (succeeds p) h = h _ _ p
and_then-Succeeds out_of_fuel h = out_of_fuel
