-- ===== src/Common/Results.antt =====
-- Predicates on what an operation returns unless it fails.
use mathlib.Core.Path.{◌≡◌, refl}
use go_quant_tick.Common.Tests.{Result, ok, err, ◌>>=◌}

-- `P` holds of the value, if there is one.
abbrev pub OkHas {ℓ} : {E A : Type 0} → (A → Type ℓ) → Result E A → Type ℓ
OkHas P (ok a) = P a
OkHas P (err e) = Unit

pub OkHas-bind :
    {E A B : Type 0} (P : A → Type 0) (Q : B → Type 0) (m : Result E A) (f : A → Result E B)
    → OkHas P m
    → ((a : A) → P a → OkHas Q (f a))
    → OkHas Q (m >>= f)
OkHas-bind P Q (ok a) f h k = k a h
OkHas-bind P Q (err e) f h k = tt

pub OkHas-then :
    {E A B : Type 0} (Q : B → Type 0) (m : Result E A) (f : A → Result E B)
    → ((a : A) → OkHas Q (f a))
    → OkHas Q (m >>= f)
OkHas-then Q (ok a) f k = k a
OkHas-then Q (err e) f k = tt

pub OkHas-of :
    {E A : Type 0} (P : A → Type 0) (r : Result E A) → ((a : A) → r ≡ ok a → P a) → OkHas P r
OkHas-of P (ok a) h = h a refl
OkHas-of P (err e) h = tt

pub OkHas-also :
    {E A P : Type 0} (Q : Type 0) (r : Result E A) → P → OkHas (λ _. Q) r → OkHas (λ _. P × Q) r
OkHas-also Q (ok a) p h = (p, h)
OkHas-also Q (err e) p h = tt
