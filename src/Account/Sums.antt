-- ===== src/Account/Sums.antt =====
-- Sums of integers of which a part moves from one to another.
use lino.Prelude.{◌≡◌, ◌∙◌, ap}
use lino.Prelude.Int.{ℤ, ◌-ℤ◌, ◌+ℤ◌, int_laws, pos, +ℤ_assoc}

-- To move a part from one total to a sum.
pub shift : (t' s t c s' t₁ : ℤ) → t₁ ≡ t -ℤ c → t' +ℤ s ≡ t₁ +ℤ s' → t' +ℤ (c +ℤ s) ≡ t +ℤ s'
shift t' s t c s' t₁ e h = grind (int_laws, h, e)

pub shift_sum : (t' s t c s' t₁ : ℤ) → t₁ ≡ t +ℤ c → t' +ℤ s' ≡ t₁ +ℤ s → t' +ℤ s' ≡ t +ℤ (c +ℤ s)
shift_sum t' s t c s' t₁ e h = h ∙ ap (λ x. x +ℤ s) e ∙ +ℤ_assoc t c s

pub shift_taken :
    (s' c s p left c₁ : ℤ) → c₁ ≡ c -ℤ p → s' +ℤ c₁ ≡ s +ℤ left → s' +ℤ c ≡ (p +ℤ s) +ℤ left
shift_taken s' c s p left c₁ e h = grind (int_laws, h, e)

pub cut_total : (t c p s t₁ p₁ : ℤ) → t₁ ≡ t -ℤ c → p₁ ≡ p -ℤ c → t₁ +ℤ (p +ℤ s) ≡ t +ℤ (p₁ +ℤ s)
cut_total t c p s t₁ p₁ e h = grind (int_laws, h, e)

pub cut_sum : (c p s p₁ z : ℤ) → p₁ ≡ p -ℤ c → z ≡ pos 0 → (p₁ +ℤ s) +ℤ c ≡ (p +ℤ s) +ℤ z
cut_sum c p s p₁ z e h = grind (int_laws, h, e)

pub exact_of : (t' s t s' : ℤ) → t ≡ s → t' +ℤ s ≡ t +ℤ s' → t' ≡ s'
exact_of t' s t s' e h = grind (int_laws, h, e)
