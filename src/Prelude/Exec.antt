-- ===== src/Prelude/Exec.antt =====
-- Methods that change a store and may return an error. What was written before the error stays
-- written, so the state comes back beside the error too.
use mathlib.Core.Logic.{◌⊎◌, inl, inr, ◌≢◌}
use mathlib.Core.Path.{◌≡◌, ap}
use mathlib.Core.Option.{Option, none, some}
use lino.Prelude.{refl}

pub data Result {ℓ} (E A : Type ℓ) : Type ℓ where
  ok : A → Result E A
  err : E → Result E A

abbrev pub Exec : Type 0 → Type 0 → Type 0 → Type 0
Exec E S A = S → Result E A × S

module _ {E S A : Type 0} where
  abbrev pub pure : A → Exec E S A
  pure a s = (ok a, s)

  abbrev pub raise : E → Exec E S A
  raise e s = (err e, s)

  abbrev pub gets : (S → A) → Exec E S A
  gets f s = (ok (f s), s)

  -- What the store may hold, or an error.
  abbrev pub require : E → (S → Option A) → Exec E S A
  require e f s = elim (f s) [ none ↦ (err e, s) | some a ↦ (ok a, s) ]

module _ {E S A B : Type 0} where
  abbrev pub continue : Result E A → (A → Exec E S B) → Exec E S B
  continue (ok a) f s = f a s
  continue (err e) f s = (err e, s)

  infixl 5 ◌>>=◌ ◌>>◌
  abbrev pub ◌>>=◌ : Exec E S A → (A → Exec E S B) → Exec E S B
  ◌>>=◌ m f s = let (r, s') = m s in continue r f s'

  abbrev pub ◌>>◌ : Exec E S A → Exec E S B → Exec E S B
  m >> k = m >>= λ _. k

-- To split on a result and keep the equation.
pub Result-cases :
    {E A : Type 0} (r : Result E A) → ((a : A) × (r ≡ ok a)) ⊎ ((e : E) × (r ≡ err e))
Result-cases (ok a) = inl (a, refl)
Result-cases (err e) = inr (e, refl)

-- After a success with nothing to return, the rest runs on the store that it leaves.
pub ok-then :
    {E S B : Type 0} (m : Exec E S Unit) (k : Exec E S B) (s s' : S)
    → m s ≡ (ok tt, s')
    → (m >> k) s ≡ k s'
ok-then m k s s' h = ap (λ r. continue r.0 (λ _. k) r.1) h

pub ok≢err : {E A : Type 0} {a : A} {e : E} → ok a ≢ err e
ok≢err h = cc
