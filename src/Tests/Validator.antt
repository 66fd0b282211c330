-- ===== src/Tests/Validator.antt =====
-- x/validator: a store with two validators, and the theorems at it.
use lino.Tests.Ints.{test_sdk, coins}
use lino.Prelude.{
  String, ℕ, subst, ◌∷◌, ◌≡◌, [], some, arith, some_eq, eq_iff, refl, false, ◌⊎◌, if◌then◌else◌,
  str_eq, true, ◌≢◌, none,
}
use lino.Validator.Store.{ValidatorParam, ValidatorList, Validator, ValidatorStore, init_genesis}
use lino.Prelude.Table.{insert, empty, string_key}
use lino.Validator.Oncall.{IsValidList, NamesMatch}
use lino.Validator.Invariant.{IsValid}
use lino.Validator.Penalty.{
  punish_oncall_validator, punish_validators_didnt_vote, punish_didnt_vote, finish_punishment,
}
use lino.Prelude.Int.{pos, ◌+ℤ◌, ◌≤ℤ◌, ℤ}
use lino.Prelude.Exec.{ok, ◌>>◌}
use lino.Validator.Deposits.{
  deposit_validator, is_legal_withdraw, fresh_validator, register_validator, validator_withdraw,
}
use lino.Types.Coin.{worth, new_coin_from_int64, Coin}
use lino.Validator.Reachable.{
  Reaches-IsValid, next, start, deposit, punish, init_genesis-Reaches, register,
}
use lino.Validator.Punished.{punish_conserves}
use lino.Validator.Lists.{update_lowest_validator, get_best_candidate, max_int64}
use lino.Types.Accounts.{contains}
use lino.Prelude.Lists.{All}
use lino.Validator.Lowest.{NoneBelow, HeldBy, update_lowest_validator_lem}
use lino.Validator.Candidate.{NoneAbove, Waits, get_best_candidate_lem}
use lino.Validator.Funds.{HasOtherKey, Writes, withdraw_legal, deposit_withdraw, register_fresh}
use lino.Validator.Rest.{IsRest, IsPunished}

abbrev pub stored_validator : String → ℕ → Validator
stored_validator name amount = record {
  abci_validator = record { address = name; pub_key = name; power = pos 1000 };
  username = name;
  deposit = coins amount;
  absent_commit = pos 0;
  byzantine_commit = pos 0;
  produced_blocks = pos 0;
  link = "";
}

abbrev pub params : ValidatorParam
params = record {
  validator_min_withdraw = coins 1;
  validator_min_voting_deposit = coins 300;
  validator_min_committing_deposit = coins 100;
  validator_coin_return_interval_sec = pos 604800;
  validator_coin_return_times = pos 7;
  penalty_miss_vote = coins 20;
  penalty_miss_commit = coins 200;
  penalty_byzantine = coins 1000;
  validator_list_size = pos 1;
  absent_commit_limitation = pos 600;
}

-- `alice` is oncall; `bob` waits.
abbrev pub two_names : ValidatorList
two_names = record {
  oncall_validators = "alice" ∷ [];
  all_validators = "alice" ∷ "bob" ∷ [];
  pre_block_validators = [];
  lowest_power = coins 500;
  lowest_validator = "alice";
}

abbrev pub alice : Validator
alice = stored_validator "alice" 500

abbrev pub bob : Validator
bob = stored_validator "bob" 300

abbrev pub two_validators : ValidatorStore
two_validators = record {
  validators = insert "alice" alice (insert "bob" bob empty);
  validator_list = some two_names;
  validator_param = some params;
}

at_alice : two_validators.validators "alice" ≡ some alice
unfolding insert
at_alice = refl

at_bob : two_validators.validators "bob" ≡ some bob
unfolding insert
at_bob = refl

fifty_ne : worth (coins 50) ≢ pos 0
unfolding new_coin_from_int64
fifty_ne = ground arith

pub one_le_fifty : pos 1 ≤ℤ worth (coins 50)
unfolding new_coin_from_int64
one_le_fifty = ground arith

two_validators-NamesMatch : NamesMatch two_validators
unfolding insert
two_validators-NamesMatch k v e = ground (arith, eq_iff "alice" k, eq_iff "bob" k)

two_names-IsValid : IsValidList (pos 1) two_names
two_names-IsValid = record { distinct = (refl, tt); within = (refl, tt); bounded = ground arith }

pub two_validators-IsValid : IsValid two_validators
two_validators-IsValid = record {
  names = two_validators-NamesMatch;
  lists = λ lst param e p.
      subst (λ l. IsValidList param.validator_list_size l) (some_eq e)
        (subst (λ q. IsValidList q.validator_list_size two_names) (some_eq p) two_names-IsValid);
}

Reaches-IsValid_example :
    IsValid
      (punish_validators_didnt_vote
        ("alice" ∷ [])
        (deposit_validator "bob" (coins 400) "" two_validators).1).1
Reaches-IsValid_example =
    Reaches-IsValid two_validators
      (punish_validators_didnt_vote ("alice" ∷ [])
        (deposit_validator "bob" (coins 400) "" two_validators).1).1
      (next (next start (deposit "bob" (coins 400) "")) (punish ("alice" ∷ [])))
      two_validators-IsValid

abbrev after_penalty_store : ValidatorStore
after_penalty_store =
    (punish_oncall_validator "alice" (coins 20) punish_didnt_vote two_validators).1

alice_pays :
    punish_oncall_validator "alice" (coins 20) punish_didnt_vote two_validators
    ≡ (ok (coins 20), after_penalty_store)
unfolding punish_oncall_validator finish_punishment insert lino.Types.Coin.is_gte
    new_coin_from_int64 lino.Types.Coin.is_gt lino.Types.Coin.minus lino.Prelude.Int.◌-ℤ◌
    lino.Validator.Lists.adjust_validator_list update_lowest_validator
    lino.Validator.Lists.lowest_of get_best_candidate lino.Validator.Lists.best_of
    lino.Types.Accounts.is_in_list lino.Types.Accounts.find_account_in_list
    lino.Validator.Lists.try_become_oncall_validator lino.Validator.Lists.enter_lists
    lino.Validator.Lists.join_oncall
alice_pays = refl

punish_conserves_example :
    (v' : Validator) × (rest : ℤ) × (after_penalty_store.validators "alice" ≡ some v')
    × (worth (coins 20) +ℤ worth v'.deposit ≡ worth alice.deposit)
    × IsRest (coins 20) alice rest
    × IsPunished punish_didnt_vote params rest (worth v'.deposit)
    × ((j : String)
        → after_penalty_store.validators j
          ≡ (if str_eq "alice" j then some v' else two_validators.validators j))
punish_conserves_example =
    punish_conserves "alice" (coins 20) punish_didnt_vote two_validators alice params (coins 20)
      after_penalty_store two_validators-IsValid at_alice refl alice_pays

update_lowest_validator_example :
    (lst' : ValidatorList) × (update_lowest_validator two_validators
      ≡ (ok tt, record two_validators { validator_list = some lst' }))
    × (lst'.oncall_validators ≡ two_names.oncall_validators)
    × (lst'.all_validators ≡ two_names.all_validators)
    × NoneBelow two_validators lst'.lowest_power two_names.oncall_validators
    × (((worth lst'.lowest_power ≡ max_int64) × (lst'.lowest_validator ≡ ""))
        ⊎ HeldBy two_validators two_names.oncall_validators lst'.lowest_power lst'.lowest_validator)
update_lowest_validator_example =
    update_lowest_validator_lem two_validators two_names refl ((alice, at_alice), tt)

bob_is_best : (get_best_candidate two_validators).0 ≡ ok "bob"
unfolding get_best_candidate lino.Validator.Lists.best_of insert lino.Types.Accounts.is_in_list
    lino.Types.Accounts.find_account_in_list lino.Types.Coin.is_gt new_coin_from_int64
bob_is_best = refl

get_best_candidate_example :
    (p : Coin) × NoneAbove two_validators two_names.oncall_validators p two_names.all_validators
    × (((worth p ≡ pos 0) × (bob.username ≡ ""))
        ⊎ Waits two_validators two_names.oncall_validators two_names.all_validators p "bob")
get_best_candidate_example = get_best_candidate_lem two_validators two_names "bob" refl bob_is_best

pub bob_may_withdraw : is_legal_withdraw "bob" (coins 50) two_validators ≡ true
unfolding is_legal_withdraw insert lino.Types.Coin.is_gte new_coin_from_int64
    lino.Types.Accounts.is_in_list lino.Types.Accounts.find_account_in_list lino.Types.Coin.minus
    lino.Prelude.Int.◌-ℤ◌
bob_may_withdraw = refl

withdraw_legal_example :
    (v v' : Validator) × (param : ValidatorParam) × (lst : ValidatorList) × (s' : ValidatorStore)
    × (two_validators.validators "bob" ≡ some v)
    × (two_validators.validator_param ≡ some param)
    × (two_validators.validator_list ≡ some lst)
    × (contains "bob" lst.oncall_validators ≡ false)
    × (validator_withdraw "bob" (coins 50) two_validators ≡ (ok tt, s'))
    × Writes "bob" v' two_validators s'
    × (v' ≡ record v { deposit = v'.deposit })
    × (worth v'.deposit +ℤ worth (coins 50) ≡ worth v.deposit)
    × (worth param.validator_min_withdraw ≤ℤ worth (coins 50))
    × (worth param.validator_min_committing_deposit ≤ℤ worth v'.deposit)
withdraw_legal_example =
    withdraw_legal "bob" (coins 50) two_validators one_le_fifty bob_may_withdraw

deposit_withdraw_example :
    (v' : Validator) × (s' : ValidatorStore) × ((deposit_validator "alice" (coins 50) ""
          >> validator_withdraw "alice" (coins 50))
        two_validators
      ≡ (ok tt, s'))
    × Writes "alice" v' two_validators s'
    × (worth v'.deposit ≡ worth alice.deposit)
deposit_withdraw_example =
    deposit_withdraw "alice" (coins 50) "" two_validators alice at_alice fifty_ne

abbrev carol : Validator
carol = fresh_validator "carol" "key" (coins 100) ""

abbrev three_validators : ValidatorStore
three_validators = record two_validators {
  validators = insert "carol" carol two_validators.validators;
}

carol_registers :
    register_validator "carol" "key" (coins 100) "" two_validators ≡ (ok tt, three_validators)
unfolding register_validator lino.Types.Coin.is_gte new_coin_from_int64
    lino.Validator.Deposits.check_key_unused insert
carol_registers = refl

register_fresh_example :
    (v : Validator) × (param : ValidatorParam) × (lst : ValidatorList)
    × (two_validators.validator_param ≡ some param)
    × (two_validators.validator_list ≡ some lst)
    × (worth param.validator_min_committing_deposit ≤ℤ worth (coins 100))
    × All (HasOtherKey "key" two_validators) lst.all_validators
    × Writes "carol" v two_validators three_validators
    × (v.deposit ≡ coins 100)
    × (v.abci_validator.pub_key ≡ "key")
register_fresh_example =
    register_fresh "carol" "key" (coins 100) "" two_validators three_validators carol_registers

abbrev before_genesis : ValidatorStore
before_genesis = record { validators = empty; validator_list = none; validator_param = some params }

zero_le_one : pos 0 ≤ℤ pos 1
zero_le_one = ground arith

init_genesis-Reaches_example :
    IsValid (register_validator "carol" "key" (coins 100) "" (init_genesis before_genesis).1).1
init_genesis-Reaches_example =
    init_genesis-Reaches before_genesis
      (register_validator "carol" "key" (coins 100) "" (init_genesis before_genesis).1).1 params
      (λ k. refl) refl zero_le_one (next start (register "carol" "key" (coins 100) ""))
