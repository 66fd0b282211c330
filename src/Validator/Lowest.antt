-- ===== src/Validator/Lowest.antt =====
-- The recorded lowest validator is the oncall validator with the least deposit, and the best
-- candidate is the validator out of the oncall list with the greatest.
use lino.Prelude.{
  String, true, some, List, [], ◌∷◌, ◌≡◌, ◌⊎◌, inl, inr, arith, refl, Option-cases, eq_iff,
  Bool-cases, if◌then◌else◌,
}
use lino.Prelude.Int.{◌≤ℤ◌}
use lino.Prelude.Lists.{All}
use lino.Prelude.Exec.{ok}
use lino.Sdk.{Sdk}
use lino.Types.Coin.{Coin, worth, is_gt, is_gt_lem, new_coin_from_int64, worth-new_coin}
use lino.Types.Accounts.{contains}
use lino.Validator.Store.{Validator, ValidatorList, ValidatorStore}
use lino.Validator.Lists.{lowest_of, max_int64, update_lowest_validator}

module _ ⦃sdk : Sdk⦄ (s : ValidatorStore) where
  -- No named validator has a deposit below `p`.
  abbrev pub NoneBelow : Coin → List String → Type 0
  NoneBelow p keys =
      All (λ k. (v : Validator) → s.validators k ≡ some v → worth p ≤ℤ worth v.deposit) keys

  -- One of the named validators has the deposit `p` and the username `n`.
  abbrev pub HeldBy : List String → Coin → String → Type 0
  HeldBy keys p n =
      (k : String) × (v : Validator) × (contains k keys ≡ true)
      × (s.validators k ≡ some v)
      × (p ≡ v.deposit)
      × (n ≡ v.username)

  HeldBy-cons :
      (k : String) (keys : List String) (p : Coin) (n : String)
      → HeldBy keys p n
      → HeldBy (k ∷ keys) p n
  HeldBy-cons k keys p n (j, v, m, e, d, u) = (j, v, ground arith, e, d, u)

  lower_holder :
      (k : String) (keys : List String) (v : Validator) (p : Coin) (n : String)
      → s.validators k ≡ some v
      → ((p ≡ v.deposit) × (n ≡ v.username)) ⊎ HeldBy keys p n
      → HeldBy (k ∷ keys) p n
  lower_holder k keys v p n found (inl here) =
      (k, v, ground (arith, eq_iff k k), found, here.0, here.1)
  lower_holder k keys v p n found (inr later) = HeldBy-cons k keys p n later

  later_holder :
      (k : String) (keys : List String) (power : Coin) (name : String) (p : Coin) (n : String)
      → ((p ≡ power) × (n ≡ name)) ⊎ HeldBy keys p n
      → ((p ≡ power) × (n ≡ name)) ⊎ HeldBy (k ∷ keys) p n
  later_holder k keys power name p n (inl start) = inl start
  later_holder k keys power name p n (inr later) = inr (HeldBy-cons k keys p n later)

  lowest_of_lem :
      (keys : List String) (power : Coin) (name : String) (p : Coin) (n : String)
      → lowest_of s keys power name ≡ ok (p, n)
      → NoneBelow p keys × (worth p ≤ℤ worth power) × (((p ≡ power) × (n ≡ name)) ⊎ HeldBy keys p n)
  unfolding lowest_of
  lowest_of_lem [] power name p n h = ground arith
  lowest_of_lem (key ∷ keys) power name p n h = elim (Option-cases (s.validators key)) [
    | inl missing ↦ cc (rw (missing, lowest_of) at h)
    | inr (v, found) ↦ elim (Bool-cases (is_gt power v.deposit)) [
      | inl lower ↦
          let ih =
            lowest_of_lem keys v.deposit v.username p n (rw (found, lower, lowest_of) at h) in
          (
            (λ v' e. ground (arith, ih.1), ih.0),
            ground (arith, ih.1, is_gt_lem power v.deposit),
            inr (lower_holder key keys v p n found ih.2),
          )
      | inr not_lower ↦
          let ih = lowest_of_lem keys power name p n (rw (found, not_lower, lowest_of) at h) in
          (
            (λ v' e. ground (arith, ih.1, is_gt_lem power v.deposit), ih.0),
            ih.1,
            later_holder key keys power name p n ih.2,
          )
    ]
  ]

  -- With every oncall validator on record the loop succeeds.
  lowest_of_total :
      (keys : List String) (power : Coin) (name : String)
      → All (λ k. (v : Validator) × (s.validators k ≡ some v)) keys
      → (p : Coin) × (n : String) × (lowest_of s keys power name ≡ ok (p, n))
  unfolding lowest_of
  lowest_of_total [] power name h = (power, name, refl)
  lowest_of_total (key ∷ keys) power name ((v, found), h) =
      let lower = is_gt power v.deposit in
      let ih =
        lowest_of_total keys (if lower then v.deposit else power)
          (if lower then v.username else name) h in
      (ih.0, ih.1, rw (found, lowest_of) ih.2)

pub update_lowest_step :
    ⦃sdk : Sdk⦄ (s : ValidatorStore) (lst : ValidatorList) (p : Coin) (n : String)
    → s.validator_list ≡ some lst
    → lowest_of s lst.oncall_validators (new_coin_from_int64 max_int64) "" ≡ ok (p, n)
    → update_lowest_validator s ≡ (
      ok tt,
      record s { validator_list = some (record lst { lowest_power = p; lowest_validator = n }) },
    )
unfolding update_lowest_validator
update_lowest_step s lst p n e f = ground arith

from_start :
    ⦃sdk : Sdk⦄ (s : ValidatorStore) (keys : List String) (p : Coin) (n : String)
    → ((p ≡ new_coin_from_int64 max_int64) × (n ≡ "")) ⊎ HeldBy s keys p n
    → ((worth p ≡ max_int64) × (n ≡ "")) ⊎ HeldBy s keys p n
from_start s keys p n (inl (a, b)) = inl (rw a (worth-new_coin max_int64), b)
from_start s keys p n (inr h) = inr h

-- What `updateLowestValidator` leaves behind for a list whose oncall validators are all on record:
-- no oncall validator has a deposit below the recorded lowest power; that power is the deposit of
-- the recorded validator, or it is the largest int64 and no validator is recorded. The oncall list
-- and the list of all validators do not change.
pub update_lowest_validator_lem :
    ⦃sdk : Sdk⦄ (s : ValidatorStore) (lst : ValidatorList)
    → s.validator_list ≡ some lst
    → All (λ k. (v : Validator) × (s.validators k ≡ some v)) lst.oncall_validators
    → (lst' : ValidatorList) × (update_lowest_validator s
        ≡ (ok tt, record s { validator_list = some lst' }))
      × (lst'.oncall_validators ≡ lst.oncall_validators)
      × (lst'.all_validators ≡ lst.all_validators)
      × NoneBelow s lst'.lowest_power lst.oncall_validators
      × (((worth lst'.lowest_power ≡ max_int64) × (lst'.lowest_validator ≡ ""))
          ⊎ HeldBy s lst.oncall_validators lst'.lowest_power lst'.lowest_validator)
unfolding update_lowest_validator
update_lowest_validator_lem s lst e recorded =
    let start = new_coin_from_int64 max_int64 in
    let found = lowest_of_total s lst.oncall_validators start "" recorded in
    let spec = lowest_of_lem s lst.oncall_validators start "" found.0 found.1 found.2 in
    (
      record lst { lowest_power = found.0; lowest_validator = found.1 },
      update_lowest_step s lst found.0 found.1 e found.2,
      refl,
      refl,
      spec.0,
      from_start s lst.oncall_validators found.0 found.1 spec.2,
    )
