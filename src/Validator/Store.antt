-- ===== src/Validator/Store.antt =====
-- x/validator/model: the validators and their list; the validator's parameters of param/param.go.
use lino.Prelude.{String, Bool, Option, none, some, List, []}
use lino.Prelude.Int.{ℤ}
use lino.Prelude.Exec.{Exec, Result, ok, err}
use lino.Prelude.Table.{Table, insert, erase, has, string_key}
use lino.Sdk.{Sdk}
use lino.Types.Coin.{Coin, zero_coin}
use lino.Types.Errors.{Error, validator_not_found, validator_list_not_found, param_not_found}

module _ ⦃sdk : Sdk⦄ where
  open sdk use {AbciPubKey}

  -- `abci.Validator`, as far as the code uses it
  pub record AbciValidator : Type 0 where
    pub address : String
    pub pub_key : AbciPubKey
    pub power : ℤ

  pub record Validator : Type 0 where
    pub abci_validator : AbciValidator
    pub username : String
    pub deposit : Coin
    pub absent_commit : ℤ
    pub byzantine_commit : ℤ
    pub produced_blocks : ℤ
    pub link : String

  pub record ValidatorList : Type 0 where
    pub oncall_validators : List String
    pub all_validators : List String
    pub pre_block_validators : List String
    pub lowest_power : Coin
    pub lowest_validator : String

  pub record ValidatorParam : Type 0 where
    pub validator_min_withdraw : Coin
    pub validator_min_voting_deposit : Coin
    pub validator_min_committing_deposit : Coin
    pub validator_coin_return_interval_sec : ℤ
    pub validator_coin_return_times : ℤ
    pub penalty_miss_vote : Coin
    pub penalty_miss_commit : Coin
    pub penalty_byzantine : Coin
    pub validator_list_size : ℤ
    pub absent_commit_limitation : ℤ

  -- What the store holds under the validator substore, the list's key and the parameter's key.
  pub record ValidatorStore : Type 0 where
    pub validators : Table String Validator
    pub validator_list : Option ValidatorList
    pub validator_param : Option ValidatorParam

  abbrev pub Method : Type 0 → Type 0
  Method A = Exec Error ValidatorStore A

  -- A read: the store does not change.
  abbrev pub read : {A : Type 0} → (ValidatorStore → Result Error A) → Method A
  read f s = (f s, s)

  abbrev pub does_validator_exist : String → ValidatorStore → Bool
  does_validator_exist acc_key s = has acc_key s.validators

  abbrev pub find_validator : String → ValidatorStore → Result Error Validator
  find_validator acc_key s = elim (s.validators acc_key) [
    | none ↦ err validator_not_found
    | some validator ↦ ok validator
  ]

  abbrev pub get_validator : String → Method Validator
  get_validator acc_key = read (find_validator acc_key)

  abbrev pub set_validator : String → Validator → Method Unit
  set_validator acc_key validator s =
      (ok tt, record s { validators = insert acc_key validator s.validators })

  abbrev pub delete_validator : String → Method Unit
  delete_validator username s = (ok tt, record s { validators = erase username s.validators })

  abbrev pub find_validator_list : ValidatorStore → Result Error ValidatorList
  find_validator_list s = elim s.validator_list [
    | none ↦ err validator_list_not_found
    | some lst ↦ ok lst
  ]

  abbrev pub get_validator_list : Method ValidatorList
  get_validator_list = read find_validator_list

  abbrev pub set_validator_list : ValidatorList → Method Unit
  set_validator_list lst s = (ok tt, record s { validator_list = some lst })

  unfoldable pub init_genesis : Method Unit
  init_genesis = set_validator_list (record {
    oncall_validators = [];
    all_validators = [];
    pre_block_validators = [];
    lowest_power = zero_coin;
    lowest_validator = "";
  })

  -- param/holder.go
  abbrev pub get_validator_param : Method ValidatorParam
  get_validator_param =
      read λ s. elim s.validator_param [ none ↦ err param_not_found | some param ↦ ok param ]
