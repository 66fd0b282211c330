-- ===== src/Validator/Reachable.antt =====
-- The validator manager as a state machine: the stores that sequences of its operations reach.
use lino.Sdk.{Sdk}
use lino.Validator.Store.{
  ValidatorStore, init_genesis, ValidatorParam, ValidatorList, set_validator_list,
}
use lino.Validator.Keeps.{Keeps}
use lino.Prelude.{String, List, ◌≡◌, none, some, arith, subst, some_eq, sym, ◌∙◌}
use lino.Validator.Invariant.{IsValid, with_list-IsValid}
use lino.Types.Coin.{Coin}
use lino.Validator.Operations.{register-Keeps, deposit-Keeps, withdraw-Keeps, withdraw_all-Keeps}
use lino.Validator.Deposits.{
  register_validator, deposit_validator, validator_withdraw, validator_withdraw_all,
}
use lino.Validator.Membership.{try_become-IsValid, remove-IsValid, adjust-IsValid}
use lino.Validator.Lists.{
  try_become_oncall_validator, remove_validator_from_all_lists, adjust_validator_list,
}
use lino.Validator.Loops.{signing-Keeps, update_list-Keeps, fire-Keeps, didnt_vote-Keeps}
use lino.Validator.Signing.{SigningValidator, update_signing_validator, get_update_validator_list}
use lino.Validator.Penalty.{
  fire_incompetent_validator, punish_validators_didnt_vote, PunishType, punish_oncall_validator,
}
use lino.Prelude.Int.{pos, ◌≤ℤ◌}
use lino.Validator.Oncall.{IsValidList}
use lino.Validator.Steps.{punish-Keeps}

module _ ⦃sdk : Sdk⦄ where
  open sdk use {PubKey}

  -- The operations of the manager that change its store, with any arguments; each may fail, and leaves
  -- what it wrote until then. `SetValidatorList` writes any list; the one call of it from outside, at the
  -- start of a block, writes the stored list with the validators that are oncall as those of the block
  -- before.
  pub data Step (s : ValidatorStore) : ValidatorStore → Type 0 where
    register :
        (username : String) (key : PubKey) (coin : Coin) (link : String)
        → Step s (register_validator username key coin link s).1
    deposit :
        (username : String) (coin : Coin) (link : String)
        → Step s (deposit_validator username coin link s).1
    withdraw : (username : String) (coin : Coin) → Step s (validator_withdraw username coin s).1
    withdraw_all : (username : String) → Step s (validator_withdraw_all username s).1
    try_become : (username : String) → Step s (try_become_oncall_validator username s).1
    leave : (username : String) → Step s (remove_validator_from_all_lists username s).1
    sign : (signing : List SigningValidator) → Step s (update_signing_validator signing s).1
    update_set : Step s (get_update_validator_list s).1
    fire : (byzantine : List String) → Step s (fire_incompetent_validator byzantine s).1
    punish : (names : List String) → Step s (punish_validators_didnt_vote names s).1
    punish_one :
        (username : String) (penalty : Coin) (punish_type : PunishType)
        → Step s (punish_oncall_validator username penalty punish_type s).1
    adjust : Step s (adjust_validator_list s).1
    set_previous :
        (lst : ValidatorList)
        → s.validator_list ≡ some lst
        → Step s
            (set_validator_list (record lst { pre_block_validators = lst.oncall_validators }) s).1

  pub data Reaches (s : ValidatorStore) : ValidatorStore → Type 0 where
    start : Reaches s s
    next : {t u : ValidatorStore} → Reaches s t → Step t u → Reaches s u

  pub set_previous-IsValid :
      (lst : ValidatorList) (s : ValidatorStore)
      → s.validator_list ≡ some lst
      → IsValid s
      → IsValid
          (set_validator_list (record lst { pre_block_validators = lst.oncall_validators }) s).1
  set_previous-IsValid lst s e h =
      with_list-IsValid s (record lst { pre_block_validators = lst.oncall_validators }) h
        (λ param k.
          let v = h.lists lst param e k in
          record { distinct = v.distinct; within = v.within; bounded = v.bounded })

  Step-IsValid : (s s' : ValidatorStore) → Step s s' → IsValid s → IsValid s'
  unfolding Keeps
  Step-IsValid s s' (register username key coin link) h = register-Keeps username key coin link s h
  Step-IsValid s s' (deposit username coin link) h = deposit-Keeps username coin link s h
  Step-IsValid s s' (withdraw username coin) h = withdraw-Keeps username coin s h
  Step-IsValid s s' (withdraw_all username) h = withdraw_all-Keeps username s h
  Step-IsValid s s' (try_become username) h = try_become-IsValid username s h
  Step-IsValid s s' (leave username) h = remove-IsValid username s h
  Step-IsValid s s' (sign signing) h = signing-Keeps signing s h
  Step-IsValid s s' update_set h = update_list-Keeps s h
  Step-IsValid s s' (fire byzantine) h = fire-Keeps byzantine s h
  Step-IsValid s s' (punish names) h = didnt_vote-Keeps names s h
  Step-IsValid s s' (punish_one username penalty punish_type) h =
      punish-Keeps username penalty punish_type s h
  Step-IsValid s s' adjust h = adjust-IsValid s h
  Step-IsValid s s' (set_previous lst e) h = set_previous-IsValid lst s e h

  -- Whatever sequence of the manager's operations runs, failures included, without `InitGenesis` and
  -- with `SetValidatorList` only as the start of a block calls it: from a store where records stand
  -- under their usernames, and the oncall list is distinct, within the list of all validators and no
  -- longer than its limit, every store that is reached is such a store.
  pub Reaches-IsValid : (s s' : ValidatorStore) → Reaches s s' → IsValid s → IsValid s'
  Reaches-IsValid s s' start h = h
  Reaches-IsValid s s' (next {t} r step) h = Step-IsValid t s' step (Reaches-IsValid s t r h)

  -- After genesis, in a store with no validator's record and a list size that is not negative, every
  -- store that the manager's operations reach, with `SetValidatorList` only as the start of a block
  -- calls it, is one where records stand under their usernames, and the oncall list is distinct, within
  -- the list of all validators and no longer than its limit.
  pub init_genesis-Reaches :
      (s s' : ValidatorStore) (param : ValidatorParam)
      → ((k : String) → s.validators k ≡ none)
      → s.validator_param ≡ some param
      → pos 0 ≤ℤ param.validator_list_size
      → Reaches (init_genesis s).1 s'
      → IsValid s'
  unfolding init_genesis
  init_genesis-Reaches s s' param no_one ep size r =
      Reaches-IsValid (init_genesis s).1 s' r (record {
        names = λ k v e. absurd (ground (arith, no_one k));
        lists = λ lst p el eq. subst (IsValidList p.validator_list_size) (some_eq el) (record {
          distinct = tt;
          within = tt;
          bounded =
              subst (λ (x : ValidatorParam). pos 0 ≤ℤ x.validator_list_size) (some_eq (sym ep ∙ eq))
                size;
        });
      })
