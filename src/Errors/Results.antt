-- ===== src/Errors/Results.antt =====
-- Functions that answer a value or an exception.
use postgres_protobuf.Common.{◌≡◌, Bool, true, false, if◌then◌else◌}
use mathlib.Core.Path.{subst}
use postgres_protobuf.Outcome.{Error}
use postgres_protobuf.Result.{Result, ok, err, ◌>>=◌, ◌>>◌, throw_if}

-- If the function throws, it throws such an exception.
pub data OnlyErr {A : Type 0} (P : Error → Type 0) : Result A → Type 0 where
  on_ok : {a : A} → OnlyErr P (ok a)
  on_err : {e : Error} → P e → OnlyErr P (err e)

err_injective : {A : Type 0} {d e : Error} → ◌≡◌ {A = Result A} (err d) (err e) → d ≡ e
err_injective e = cc

module _ {A : Type 0} {P : Error → Type 0} where
  pub bind-OnlyErr :
      {B : Type 0} {m : Result A} {f : A → Result B}
      → OnlyErr P m
      → ((a : A) → OnlyErr P (f a))
      → OnlyErr P (m >>= f)
  bind-OnlyErr on_ok h = h _
  bind-OnlyErr (on_err p) h = on_err p

  pub throw_if-OnlyErr :
      (b : Bool) (e : Error) {m : Result A} → P e → OnlyErr P m → OnlyErr P (throw_if b e >> m)
  throw_if-OnlyErr true e p h = on_err p
  throw_if-OnlyErr false e p h = h

  pub if-OnlyErr :
      (b : Bool) {m n : Result A} → OnlyErr P m → OnlyErr P n → OnlyErr P (if b then m else n)
  if-OnlyErr true h k = h
  if-OnlyErr false h k = k

  pub OnlyErr-err : {m : Result A} {e : Error} → OnlyErr P m → m ≡ err e → P e
  OnlyErr-err on_ok e = cc
  OnlyErr-err (on_err p) e = subst P (err_injective e) p

  pub OnlyErr-weaken :
      {Q : Error → Type 0} {m : Result A} → OnlyErr P m → ((e : Error) → P e → Q e) → OnlyErr Q m
  OnlyErr-weaken on_ok h = on_ok
  OnlyErr-weaken (on_err p) h = on_err (h _ p)
