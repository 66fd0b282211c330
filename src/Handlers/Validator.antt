-- ===== src/Handlers/Validator.antt =====
-- x/validator/handler.go and tick.go. `time` is the time of the block in seconds.
use lino.Sdk.{Sdk}
use lino.Handlers.Store.{
  AppMethod, reject_if, coin_of_lino, on_validators, no_account, on_bank, return_coin_to,
  validator_return_coin, validator_deposit_out, on_votes,
}
use lino.Prelude.{String, List, if◌then◌else◌, not, Option, none, some}
use lino.Prelude.Int.{ℤ}
use lino.Prelude.Exec.{◌>>=◌, ◌>>◌, ok, err}
use lino.Types.Coin.{Coin}
use lino.Validator.Signing.{SigningValidator, update_signing_validator, or_panic}
use lino.Types.Errors.{
  account_not_found, illegal_withdraw, insufficient_deposit, unbalanced_account,
}
use lino.Validator.Store.{
  Method, does_validator_exist, set_validator_list, get_validator_param, read, find_validator_list,
}
use lino.Validator.Deposits.{
  validator_withdraw_all, is_legal_withdraw, validator_withdraw, register_validator,
  deposit_validator, is_balanced_account,
}
use lino.Validator.Lists.{remove_validator_from_all_lists, try_become_oncall_validator}
use lino.Vote.Manager.{can_become_validator}
use lino.Account.Bank.{minus_saving_coin}
use lino.Validator.Penalty.{fire_incompetent_validator}
use lino.Vote.Store.{get_voter}

module _ ⦃sdk : Sdk⦄ where
  open sdk use {PubKey}

  abbrev register_or_deposit : String → PubKey → Coin → String → AppMethod Unit
  register_or_deposit username val_pub_key coin link s =
      if not (does_validator_exist username s.validators)
      then (reject_if (λ t. not (can_become_validator username t.votes)) insufficient_deposit
            >> on_validators (register_validator username val_pub_key coin link))
          s
      else on_validators (deposit_validator username coin link) s

  unfoldable pub handle_deposit_msg :
      ℤ → (username deposit : String) → PubKey → (link : String) → AppMethod Unit
  handle_deposit_msg time username deposit val_pub_key link = do
    reject_if (no_account username) account_not_found
    coin ← coin_of_lino deposit
    on_bank (minus_saving_coin time username coin "" "" validator_deposit_out)
    register_or_deposit username val_pub_key coin link
    voter ← on_votes (get_voter username)
    reject_if (λ s. not (is_balanced_account username voter.lino_stake s.validators))
        unbalanced_account
    on_validators (try_become_oncall_validator username)

  unfoldable pub handle_withdraw_msg : ℤ → (username amount : String) → AppMethod Unit
  handle_withdraw_msg time username amount = do
    coin ← coin_of_lino amount
    reject_if (λ s. not (is_legal_withdraw username coin s.validators)) illegal_withdraw
    on_validators (validator_withdraw username coin)
    param ← on_validators get_validator_param
    return_coin_to time username param.validator_coin_return_times
        param.validator_coin_return_interval_sec coin validator_return_coin

  unfoldable pub handle_revoke_msg : ℤ → String → AppMethod Unit
  handle_revoke_msg time username = do
    coin ← on_validators (validator_withdraw_all username)
    on_validators (remove_validator_from_all_lists username)
    param ← on_validators get_validator_param
    return_coin_to time username param.validator_coin_return_times
        param.validator_coin_return_interval_sec coin validator_return_coin

  -- The validators of the last block are recorded, then who signed it, which fails only by a panic, then
  -- who is fired, whose penalties come back. An error of the last call is dropped: `none` stands for it,
  -- where the source returns the penalties collected until then.
  unfoldable pub begin_block_validators :
      List SigningValidator → (byzantine : List String) → Method (Option Coin)
  begin_block_validators signing byzantine = do
    lst ← read (λ s. or_panic (find_validator_list s))
    set_validator_list (record lst { pre_block_validators = lst.oncall_validators })
    update_signing_validator signing
    λ s.
        (let (r, s') = fire_incompetent_validator byzantine s in
          (ok (elim r [ ok penalty ↦ some penalty | err _ ↦ none ]), s'))
