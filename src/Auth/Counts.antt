-- ===== src/Auth/Counts.antt =====
-- How a method changes the sequence numbers of the accounts.
use lino.Prelude.Int.{ℤ}
use lino.Prelude.{Option, String, ◌≡◌, some, none, inr, refl, ◌⊎◌, ◌∙◌, inl, sym, ap}
use lino.Prelude.Exec.{Exec, err, ◌>>=◌, Result-cases, ok≢err}
use lino.Types.Errors.{Error}

abbrev pub mapped : (ℤ → ℤ) → Option ℤ → Option ℤ
mapped f none = none
mapped f (some z) = some (f z)

pub mapped_id : (o : Option ℤ) → o ≡ mapped (λ z. z) o
mapped_id none = refl
mapped_id (some z) = refl

pub mapped_still : (f : ℤ → ℤ) (o : Option ℤ) → ((z : ℤ) → f z ≡ z) → o ≡ mapped f o
mapped_still f none h = refl
mapped_still f (some z) h = ap some (sym (h z))

mapped-mapped : (f g : ℤ → ℤ) (o : Option ℤ) → mapped g (mapped f o) ≡ mapped (λ z. g (f z)) o
mapped-mapped f g none = refl
mapped-mapped f g (some z) = refl

-- On stores in which every account may have a sequence number.
module _ {S : Type 0} (view : S → String → Option ℤ) where
  -- A method that fails, or changes the sequence number of every account `j` by `f j`.
  unfoldable pub Counts : {A : Type 0} → (String → ℤ → ℤ) → Exec Error S A → Type 0
  Counts f m =
      (s : S)
      → ((e : Error) × ((m s).0 ≡ err e))
        ⊎ ((j : String) → view (m s).1 j ≡ mapped (f j) (view s j))

  pub Counts-bind :
      {A B : Type 0} (f g : String → ℤ → ℤ) (m : Exec Error S A) (k : A → Exec Error S B)
      → Counts f m
      → ((a : A) → Counts g (k a))
      → Counts (λ j z. g j (f j z)) (m >>= k)
  unfolding Counts
  Counts-bind f g m k h next s = elim (Result-cases (m s).0) [
    | inr (x, e) ↦ inl (x, rw e refl)
    | inl (a, e) ↦ elim (h s) [
      | inl (x, e') ↦ inl (x, absurd (ok≢err (sym e ∙ e')))
      | inr first ↦ elim (next a (m s).1) [
        | inl (x, e') ↦ inl (x, rw e e')
        | inr second ↦
            inr (rw e (λ j. second j ∙ ap (mapped (g j)) (first j) ∙ mapped-mapped (f j) (g j) _))
      ]
    ]
  ]

  -- A method that leaves every sequence number alone, whatever it returns.
  pub Counts-still :
      {A : Type 0} (m : Exec Error S A)
      → ((s : S) (j : String) → view (m s).1 j ≡ view s j)
      → Counts (λ j z. z) m
  unfolding Counts
  Counts-still m h s = inr (λ j. h s j ∙ mapped_id (view s j))
