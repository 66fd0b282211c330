-- ===== src/Validator/Penalty.antt =====
-- x/validator/manager.go: punishing validators, and the record of who signs blocks.
use lino.Sdk.{Sdk}
use lino.Validator.Store.{
  Validator, ValidatorParam, Method, set_validator, get_validator, get_validator_list,
  get_validator_param,
}
use lino.Types.Coin.{Coin, is_gt, is_gte, plus, minus, zero_coin}
use lino.Prelude.Exec.{◌>>=◌, ◌>>◌, pure}
use lino.Prelude.{Bool, if◌then◌else◌, String, List, true, false, ◌∷◌, str_eq, ◌||◌, not, []}
use lino.Validator.Lists.{adjust_validator_list, remove_validator_from_all_lists}
use lino.Prelude.Int.{ltb_ℤ, pos}

-- types/const.go
pub data PunishType : Type 0 where
  unknown_punish punish_byzantine punish_absent_commit punish_didnt_vote : PunishType

abbrev pub is_byzantine : PunishType → Bool
is_byzantine punish_byzantine = true
is_byzantine _ = false

abbrev pub is_absent_commit : PunishType → Bool
is_absent_commit punish_absent_commit = true
is_absent_commit _ = false

module _ ⦃sdk : Sdk⦄ where
  -- The penalty that the deposit covers, and the validator after it.
  abbrev pub actual_penalty : Coin → Validator → Coin
  actual_penalty penalty v = if is_gt penalty v.deposit then v.deposit else penalty

  abbrev pub after_penalty : Coin → PunishType → Validator → Validator
  after_penalty penalty punish_type v = record v {
    deposit = if is_gt penalty v.deposit then zero_coin else minus v.deposit penalty;
    absent_commit = if is_absent_commit punish_type then pos 0 else v.absent_commit;
  }

  -- The last lines of `PunishOncallValidator`.
  unfoldable pub finish_punishment : String → Coin → Validator → Method Coin
  finish_punishment username actual v = do
    set_validator username v
    adjust_validator_list
    pure actual

  unfoldable pub punish_oncall_validator : String → Coin → PunishType → Method Coin
  punish_oncall_validator username penalty punish_type = do
    validator ← get_validator username
    let actual = actual_penalty penalty validator
    let left = after_penalty penalty punish_type validator
    param ← get_validator_param
    if is_byzantine punish_type || not (is_gte left.deposit param.validator_min_committing_deposit)
        then (do
          remove_validator_from_all_lists left.username
          finish_punishment username (plus actual left.deposit)
              (record left { deposit = zero_coin }))
        else finish_punishment username actual left

  -- `evidence.Validator.Address` for each piece of evidence: is the address among them?
  unfoldable pub has_evidence : String → List String → Bool
  has_evidence address [] = false
  has_evidence address (evidence ∷ byzantine) =
      str_eq address evidence || has_evidence address byzantine

  -- The body of the loop of `FireIncompetentValidator`, for one oncall validator.
  unfoldable pub fire_one : ValidatorParam → List String → String → Coin → Method Coin
  fire_one param byzantine name total = do
    validator ← get_validator name
    total₁ ←
        if has_evidence validator.abci_validator.address byzantine
        then (do
          actual ←
              punish_oncall_validator validator.username param.penalty_byzantine punish_byzantine
          pure (plus total actual))
        else pure total
    if ltb_ℤ param.absent_commit_limitation validator.absent_commit
        then (do
          actual ←
              punish_oncall_validator validator.username param.penalty_miss_commit
                punish_absent_commit
          pure (plus total₁ actual))
        else pure total₁

  unfoldable pub fire_each : ValidatorParam → List String → List String → Coin → Method Coin
  fire_each param byzantine [] total = pure total
  fire_each param byzantine (name ∷ names) total =
      fire_one param byzantine name total >>= fire_each param byzantine names

  unfoldable pub fire_incompetent_validator : List String → Method Coin
  fire_incompetent_validator byzantine = do
    lst ← get_validator_list
    param ← get_validator_param
    fire_each param byzantine lst.oncall_validators zero_coin

  unfoldable pub punish_each : ValidatorParam → List String → Coin → Method Coin
  punish_each param [] total = pure total
  punish_each param (validator ∷ penalty_list) total = do
    actual ← punish_oncall_validator validator param.penalty_miss_vote punish_didnt_vote
    punish_each param penalty_list (plus total actual)

  unfoldable pub punish_validators_didnt_vote : List String → Method Coin
  punish_validators_didnt_vote penalty_list = do
    param ← get_validator_param
    punish_each param penalty_list zero_coin
