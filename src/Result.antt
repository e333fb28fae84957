-- ===== src/Result.antt =====
-- A value or an exception, for code that changes no state that outlives the exception.
use postgres_protobuf.Common.{◌≡◌, Bool, true, false, if◌then◌else◌}
use mathlib.Core.Path.{subst}
use postgres_protobuf.Outcome.{Error}

pub data Result (A : Type 0) : Type 0 where
  ok : A → Result A
  err : Error → Result A

infixl 5 ◌>>◌ ◌>>=◌
-- An exception skips what follows.
abbrev pub ◌>>=◌ : {A B : Type 0} → Result A → (A → Result B) → Result B
err thrown >>= next = err thrown
ok value >>= next = next value

abbrev pub ◌>>◌ : {B : Type 0} → Result (Unit {0}) → Result B → Result B
first >> next = first >>= λ done. next

-- `if (b) throw e;`
abbrev pub throw_if : Bool → Error → Result (Unit {0})
throw_if true e = err e
throw_if false e = ok tt

-- If there is a value, it has the property.
pub data Ensures {A : Type 0} (P : A → Type 0) : Result A → Type 0 where
  returns : {a : A} → P a → Ensures P (ok a)
  throws : {e : Error} → Ensures P (err e)

pub bind-Ensures :
    {A B : Type 0} {P : A → Type 0} {Q : B → Type 0} {m : Result A} {f : A → Result B}
    → Ensures P m
    → ((a : A) → P a → Ensures Q (f a))
    → Ensures Q (m >>= f)
bind-Ensures (returns p) h = h _ p
bind-Ensures throws h = throws

pub any-Ensures : {A : Type 0} (m : Result A) → Ensures (λ _. Unit {0}) m
any-Ensures (ok a) = returns tt
any-Ensures (err e) = throws

pub throw_if-Ensures :
    {A : Type 0} {P : A → Type 0} (b : Bool) (e : Error) {m : Result A}
    → Ensures P m
    → Ensures P (throw_if b e >> m)
throw_if-Ensures true e h = throws
throw_if-Ensures false e h = h

pub if-Ensures :
    {A : Type 0} {P : A → Type 0} (b : Bool) {m n : Result A}
    → Ensures P m
    → Ensures P n
    → Ensures P (if b then m else n)
if-Ensures true h k = h
if-Ensures false h k = k

pub ok_injective : {A : Type 0} {a b : A} → ◌≡◌ {A = Result A} (ok a) (ok b) → a ≡ b
ok_injective e = cc

pub Ensures-ok : {A : Type 0} {P : A → Type 0} {m : Result A} {a : A} → Ensures P m → m ≡ ok a → P a
Ensures-ok {P} (returns p) e = subst P (ok_injective e) p
Ensures-ok throws e = cc
