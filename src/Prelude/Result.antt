-- ===== src/Prelude/Result.antt =====
-- Go's pair of a value and an error, where the value counts only if the error is nil.
use caddy_esi.Prelude.{◌≡◌, refl, Option, none, some}

pub data Result (E A : Type 0) : Type 0 where
  ok : A → Result E A
  err : E → Result E A

infixl 5 ◌>>=◌
abbrev pub ◌>>=◌ : {E A B : Type 0} → Result E A → (A → Result E B) → Result E B
ok a >>= f = f a
err e >>= f = err e

-- `if err != nil { return errors.Wrap(err, …) }`.
abbrev pub wrap : {E F A : Type 0} → (E → F) → Result E A → Result F A
wrap f (ok a) = ok a
wrap f (err e) = err (f e)

-- `if err != nil { return errors.… }` behind a call of a library, of which `none` is an error.
abbrev pub or_fail : {E A : Type 0} → E → Option A → Result E A
or_fail e none = err e
or_fail e (some a) = ok a

-- What a successful bind has done.
pub bind-ok :
    {E A B : Type 0} (m : Result E A) (f : A → Result E B) {b : B}
    → (m >>= f) ≡ ok b
    → (a : A) × (m ≡ ok a) × (f a ≡ ok b)
bind-ok (ok a) f h = (a, refl, h)
bind-ok (err e) f h = absurd (cc)

pub or_fail-ok : {E A : Type 0} (e : E) (o : Option A) (a : A) → or_fail e o ≡ ok a → o ≡ some a
or_fail-ok e none a h = absurd (cc)
or_fail-ok e (some b) a h = cc
