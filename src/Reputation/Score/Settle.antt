-- ===== src/Reputation/Score/Settle.antt =====
-- Settling a user's score: once, never below the initial score, and never by more than the decay.
use lino.Prelude.{String, true, false, ◌≡◌, arith, Bool-cases, inl, inr, refl, ◌⊎◌}
use lino.Prelude.Int.{ℤ, pos, negsuc, ◌≤ℤ◌, ◌*ℤ◌, ◌+ℤ◌, div_pos}
use lino.Prelude.Table.{get_or-insert_self, string_key}
use lino.Reputation.Store.{get_customer_score, get_user_last_donation_round, get_round_result}
use lino.Reputation.Records.{RepStore, initial_customer_score}
use lino.Reputation.Score.{
  get_settled_customer_score, unsettled_score, is_unsettled, settlement, write_settled, big_int_max,
}

write_settled-is_settled :
    (u : String) (score : ℤ) (s : RepStore) → is_unsettled u (write_settled u score s) ≡ false
write_settled-is_settled u score s = grind (arith, get_or-insert_self)

write_settled-score :
    (u : String) (score : ℤ) (s : RepStore) → get_customer_score u (write_settled u score s) ≡ score
write_settled-score u score s = grind (arith, get_or-insert_self)

-- A second settlement returns the same score and writes nothing.
pub settled_once :
    (u : String) (s : RepStore)
    → let (score, s') = get_settled_customer_score u s in
      get_settled_customer_score u s' ≡ (score, s')
unfolding get_settled_customer_score
settled_once u s = elim (Bool-cases (is_unsettled u s)) [
  | inl stale ↦ rw (
    stale,
    write_settled-is_settled u (settlement u s) s,
    write_settled-score u (settlement u s) s,
  )
  | inr done ↦ rw (done, done)
]

-- The sample average of `new_customer_score`.
abbrev sampled : String → RepStore → ℤ
sampled u s =
    let last_donated = get_user_last_donation_round u s in
    div_pos
      (get_customer_score u s *ℤ pos 9
        +ℤ unsettled_score last_donated u s (get_round_result last_donated s) (pos 0))
      10

floor_of_max :
    (score x : ℤ)
    → initial_customer_score ≤ℤ score
    → let new =
        big_int_max (big_int_max x (div_pos (score *ℤ pos 97) 100)) initial_customer_score in
      (initial_customer_score ≤ℤ new) × (pos 97 *ℤ score ≤ℤ pos 100 *ℤ new +ℤ pos 99)
unfolding div_pos ◌*ℤ◌ ◌+ℤ◌
floor_of_max (pos n) x h = ground arith
floor_of_max (negsuc n) x h = absurd (omega arith)

at_least_97 :
    (score : ℤ) → initial_customer_score ≤ℤ score → pos 97 *ℤ score ≤ℤ pos 100 *ℤ score +ℤ pos 99
unfolding ◌*ℤ◌ ◌+ℤ◌
at_least_97 (pos n) h = ground arith
at_least_97 (negsuc n) h = absurd (omega arith)

-- From a stored score of at least the initial one, settling stores the score that it returns, which
-- is at least the initial one and at least 97 hundredths of the old one, rounded down; a score that
-- is not due is returned as it is, and nothing is written.
pub settled_bounds :
    (u : String) (s : RepStore)
    → initial_customer_score ≤ℤ get_customer_score u s
    → let (score, s') = get_settled_customer_score u s in
      (get_customer_score u s' ≡ score)
      × (initial_customer_score ≤ℤ score)
      × (pos 97 *ℤ get_customer_score u s ≤ℤ pos 100 *ℤ score +ℤ pos 99)
      × ((is_unsettled u s ≡ true) ⊎ ((score ≡ get_customer_score u s) × (s' ≡ s)))
unfolding get_settled_customer_score settlement
settled_bounds u s h = elim (Bool-cases (is_unsettled u s)) [
  | inl stale ↦
      let score = settlement u s in
      let bounds = floor_of_max (get_customer_score u s) (sampled u s) h in
      rw stale (write_settled-score u score s, bounds.0, bounds.1, inl refl)
  | inr done ↦ rw done (refl, h, at_least_97 (get_customer_score u s) h, inr (refl, refl))
]
