-- ===== src/Validator/Deposits.antt =====
-- x/validator/manager.go: registering a validator, its deposit, and withdrawing it.
use lino.Sdk.{Sdk}
use lino.Prelude.{String, List, if◌then◌else◌, Bool, ◌∷◌, none, false, not, some, [], str_eq}
use lino.Types.Coin.{Coin, is_zero, is_gte, plus, minus}
use lino.Validator.Store.{
  Method, ValidatorStore, Validator, get_validator, get_validator_param, set_validator,
  get_validator_list,
}
use lino.Prelude.Exec.{pure, raise, ◌>>=◌, ◌>>◌}
use lino.Prelude.Int.{pos}
use lino.Types.Errors.{invalid_coin, validator_pub_key_already_exist, insufficient_deposit}
use lino.Types.Accounts.{is_in_list}

module _ ⦃sdk : Sdk⦄ where
  open sdk use {AbciPubKey, PubKey, address, to_abci, abci_key_equal}

  unfoldable pub is_legal_withdraw : String → Coin → ValidatorStore → Bool
  is_legal_withdraw username coin s = elim (s.validators username) [
    | none ↦ false
    | some validator ↦ elim s.validator_param [
      | none ↦ false
      | some param ↦
          if not (is_gte coin param.validator_min_withdraw) then false else elim s.validator_list [
            | none ↦ false
            | some lst ↦
                if is_in_list username lst.oncall_validators
                then false
                else is_gte (minus validator.deposit coin) param.validator_min_committing_deposit
          ]
    ]
  ]

  unfoldable pub is_balanced_account : String → Coin → ValidatorStore → Bool
  is_balanced_account acc_key voting_deposit s = elim (s.validators acc_key) [
    | none ↦ false
    | some validator ↦ is_gte voting_deposit validator.deposit
  ]

  -- The loop of `RegisterValidator` over the list of all validators.
  unfoldable pub check_key_unused : AbciPubKey → List String → Method Unit
  check_key_unused pub_key [] = pure tt
  check_key_unused pub_key (name ∷ names) = do
    validator ← get_validator name
    if abci_key_equal validator.abci_validator.pub_key pub_key
        then raise validator_pub_key_already_exist
        else check_key_unused pub_key names

  -- `ABCIValidator.Power` is 1000 whatever the deposit is.
  abbrev pub fresh_validator : String → PubKey → Coin → String → Validator
  fresh_validator username pub_key coin link = record {
    abci_validator = record {
      address = address pub_key;
      pub_key = to_abci pub_key;
      power = pos 1000;
    };
    username = username;
    deposit = coin;
    absent_commit = pos 0;
    byzantine_commit = pos 0;
    produced_blocks = pos 0;
    link = link;
  }

  unfoldable pub register_validator : String → PubKey → Coin → String → Method Unit
  register_validator username pub_key coin link = do
    param ← get_validator_param
    if not (is_gte coin param.validator_min_committing_deposit)
        then raise insufficient_deposit
        else do
          lst ← get_validator_list
          check_key_unused (to_abci pub_key) lst.all_validators
          set_validator username (fresh_validator username pub_key coin link)

  unfoldable pub deposit_validator : String → Coin → String → Method Unit
  deposit_validator username coin link = do
    validator ← get_validator username
    set_validator username (record validator {
      deposit = plus validator.deposit coin;
      link = if str_eq link "" then validator.link else link;
    })

  unfoldable pub validator_withdraw : String → Coin → Method Unit
  validator_withdraw username coin = if is_zero coin then raise invalid_coin else do
    validator ← get_validator username
    set_validator username (record validator { deposit = minus validator.deposit coin })

  unfoldable pub validator_withdraw_all : String → Method Coin
  validator_withdraw_all username = do
    validator ← get_validator username
    validator_withdraw username validator.deposit
    pure validator.deposit
