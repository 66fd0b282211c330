-- ===== src/Validator/Candidate.antt =====
-- The best candidate is the validator out of the oncall list with the greatest deposit.
use lino.Prelude.{
  String, true, false, some, List, [], ◌∷◌, ◌≡◌, ◌⊎◌, inl, inr, arith, Option-cases, eq_iff,
  Bool-cases, subst,
}
use lino.Prelude.Int.{pos, ◌≤ℤ◌}
use lino.Prelude.Lists.{All}
use lino.Prelude.Exec.{ok, Result-cases}
use lino.Types.Coin.{Coin, worth, is_gt, is_gt_lem, new_coin_from_int64, worth-new_coin}
use lino.Types.Accounts.{contains, is_in_list, is_in_list_lem}
use lino.Validator.Store.{Validator, ValidatorList, ValidatorStore}
use lino.Sdk.{Sdk}
use lino.Prelude.{◌&&◌, not}
use lino.Validator.Lists.{best_of, get_best_candidate}

module _ ⦃sdk : Sdk⦄ (s : ValidatorStore) (oncall : List String) where
  -- No named validator out of the oncall list has a deposit above `p`.
  abbrev pub NoneAbove : Coin → List String → Type 0
  NoneAbove p names =
      All
        (λ k.
          contains k oncall ≡ false
          → (v : Validator) → s.validators k ≡ some v
          → worth v.deposit ≤ℤ worth p)
        names

  -- One of the named validators is out of the oncall list, has the deposit `p` and the username `n`.
  abbrev pub Waits : List String → Coin → String → Type 0
  Waits names p n =
      (k : String) × (v : Validator) × (contains k names ≡ true)
      × (contains k oncall ≡ false)
      × (s.validators k ≡ some v)
      × (p ≡ v.deposit)
      × (n ≡ v.username)

  Waits-cons :
      (k : String) (names : List String) (p : Coin) (n : String)
      → Waits names p n
      → Waits (k ∷ names) p n
  Waits-cons k names p n (j, v, m, o, e, d, u) = (j, v, ground arith, o, e, d, u)

  Waits-here :
      (k : String) (names : List String) (v : Validator) (p : Coin) (n : String)
      → contains k oncall ≡ false
      → s.validators k ≡ some v
      → ((p ≡ v.deposit) × (n ≡ v.username)) ⊎ Waits names p n
      → Waits (k ∷ names) p n
  Waits-here k names v p n out found (inl here) =
      (k, v, ground (arith, eq_iff k k), out, found, here.0, here.1)
  Waits-here k names v p n out found (inr later) = Waits-cons k names p n later

  Waits-later :
      (k : String) (names : List String) (power : Coin) (best : String) (p : Coin) (n : String)
      → ((p ≡ power) × (n ≡ best)) ⊎ Waits names p n
      → ((p ≡ power) × (n ≡ best)) ⊎ Waits (k ∷ names) p n
  Waits-later k names power best p n (inl start) = inl start
  Waits-later k names power best p n (inr later) = inr (Waits-cons k names p n later)

  best_of_lem :
      (names : List String) (best : String) (power : Coin) (n : String) (p : Coin)
      → best_of s oncall names best power ≡ ok (n, p)
      → NoneAbove p names
        × (worth power ≤ℤ worth p)
        × (((p ≡ power) × (n ≡ best)) ⊎ Waits names p n)
  unfolding best_of
  best_of_lem [] best power n p h = ground arith
  best_of_lem (name ∷ names) best power n p h = elim (Option-cases (s.validators name)) [
    | inl missing ↦ cc (rw (missing, best_of) at h)
    | inr (v, found) ↦ elim (Bool-cases (not (is_in_list name oncall) && is_gt v.deposit power)) [
      | inl better ↦
          let ih = best_of_lem names v.username v.deposit n p (rw (found, better, best_of) at h) in
          let out : contains name oncall ≡ false =
            ground (arith, better, is_in_list_lem name oncall) in
          (
            (λ o v' e. ground (arith, ih.1), ih.0),
            ground (arith, ih.1, better, is_gt_lem v.deposit power),
            inr (Waits-here name names v p n out found ih.2),
          )
      | inr not_better ↦
          let ih = best_of_lem names best power n p (rw (found, not_better, best_of) at h) in
          (
            (
              λ o v' e.
                  ground (
                    arith,
                    ih.1,
                    not_better,
                    is_gt_lem v.deposit power,
                    is_in_list_lem name oncall,
                  ),
              ih.0,
            ),
            ih.1,
            Waits-later name names power best p n ih.2,
          )
    ]
  ]

from_zero :
    ⦃sdk : Sdk⦄ (s : ValidatorStore) (lst : ValidatorList) (p : Coin) (n : String)
    → ((p ≡ new_coin_from_int64 (pos 0)) × (n ≡ ""))
      ⊎ Waits s lst.oncall_validators lst.all_validators p n
    → ((worth p ≡ pos 0) × (n ≡ "")) ⊎ Waits s lst.oncall_validators lst.all_validators p n
from_zero s lst p n (inl (a, b)) = inl (rw a (worth-new_coin (pos 0)), b)
from_zero s lst p n (inr h) = inr h

-- Every candidate that `getBestCandidate` returns is either the empty name, and then no validator of
-- the whole list that is out of the oncall list has a deposit above zero, or the username of a
-- validator of the whole list that is out of the oncall list, whose deposit is above or equal to that
-- of all those.
pub get_best_candidate_lem :
    ⦃sdk : Sdk⦄ (s : ValidatorStore) (lst : ValidatorList) (n : String)
    → s.validator_list ≡ some lst
    → (get_best_candidate s).0 ≡ ok n
    → (p : Coin) × NoneAbove s lst.oncall_validators p lst.all_validators
      × (((worth p ≡ pos 0) × (n ≡ "")) ⊎ Waits s lst.oncall_validators lst.all_validators p n)
unfolding get_best_candidate
get_best_candidate_lem s lst n e h =
    elim (Result-cases
      (best_of s lst.oncall_validators lst.all_validators "" (new_coin_from_int64 (pos 0)))) [
        | inl ((m, p), found) ↦
            let same : m ≡ n = ground arith in
            let spec =
              best_of_lem s lst.oncall_validators lst.all_validators ""
                (new_coin_from_int64 (pos 0)) m p found in
            (
              p,
              spec.0,
              subst
                  (λ k.
                    ((worth p ≡ pos 0) × (k ≡ ""))
                    ⊎ Waits s lst.oncall_validators lst.all_validators p k)
                  same (from_zero s lst p m spec.2),
            )
        | inr (x, failed) ↦ absurd (ground arith)
      ]
