-- ===== src/Handlers/Vote.antt =====
-- x/vote/handler.go. `time` is the time of the block in seconds; an amount of LNO is a string.
use lino.Sdk.{Sdk}
use lino.Handlers.Store.{
  AppMethod, VoteParam, on_votes, reject_if, coin_of_lino, no_account, on_global, on_reputation,
  on_bank, return_coin_to, claim_interest_in, vote_return_coin, delegation_return_coin,
  voter_deposit, delegate_out,
}
use lino.Prelude.Int.{ℤ}
use lino.Prelude.{String, not}
use lino.Prelude.Exec.{require, ◌>>=◌, ◌>>◌}
use lino.Types.Coin.{Coin, is_gt}
use lino.Types.Errors.{param_not_found, account_not_found, illegal_withdraw, insufficient_deposit}
use lino.Vote.Store.{get_voter}
use lino.Vote.Manager.{
  ensure_voter, minus_lino_stake, claim_interest, add_lino_stake, is_legal_voter_withdraw,
  is_legal_delegator_withdraw, add_interest, delegator_withdraw, set_lino_stake_last_changed_at,
  add_delegation,
}
use lino.Global.Stakes.{get_interest_since, add_lino_stake_to_stat, minus_lino_stake_from_stat}
use lino.Reputation.Manager.{on_stake_in}
use lino.Account.Bank.{add_saving_coin, minus_saving_coin}

module _ ⦃sdk : Sdk⦄ where
  abbrev pub get_vote_param : AppMethod VoteParam
  get_vote_param = require param_not_found (λ s. s.vote_param)

  unfoldable pub calculate_and_add_interest : ℤ → String → AppMethod Unit
  calculate_and_add_interest time name = do
    voter ← on_votes (get_voter name)
    interest ← on_global (get_interest_since time voter.last_power_change_at voter.lino_stake)
    on_votes (add_interest name interest)
    on_votes (set_lino_stake_last_changed_at name time)

  unfoldable pub add_stake : ℤ → String → Coin → AppMethod Unit
  add_stake time username stake = do
    on_votes (ensure_voter time username)
    calculate_and_add_interest time username
    on_votes (add_lino_stake time username stake)
    on_global (add_lino_stake_to_stat time stake)

  -- The source calls `OnStakeIn` here.
  unfoldable pub minus_stake : ℤ → String → Coin → AppMethod Unit
  minus_stake time username stake = do
    calculate_and_add_interest time username
    on_votes (minus_lino_stake time username stake)
    on_reputation (on_stake_in username stake)
    on_global (minus_lino_stake_from_stat time stake)

  unfoldable pub handle_stake_in_msg : ℤ → (username deposit : String) → AppMethod Unit
  handle_stake_in_msg time username deposit = do
    reject_if (no_account username) account_not_found
    coin ← coin_of_lino deposit
    param ← get_vote_param
    reject_if (λ s. is_gt param.min_stake_in coin) insufficient_deposit
    on_bank (minus_saving_coin time username coin "" "" voter_deposit)
    add_stake time username coin

  unfoldable pub handle_stake_out_msg : ℤ → (username amount : String) → AppMethod Unit
  handle_stake_out_msg time username amount = do
    coin ← coin_of_lino amount
    reject_if (λ s. not (is_legal_voter_withdraw username coin s.votes)) illegal_withdraw
    param ← get_vote_param
    minus_stake time username coin
    return_coin_to time username param.voter_coin_return_times param.voter_coin_return_interval_sec
        coin vote_return_coin

  unfoldable pub handle_delegate_msg : ℤ → (delegator voter amount : String) → AppMethod Unit
  handle_delegate_msg time delegator voter amount = do
    reject_if (no_account voter) account_not_found
    coin ← coin_of_lino amount
    param ← get_vote_param
    reject_if (λ s. is_gt param.min_stake_in coin) insufficient_deposit
    on_bank (minus_saving_coin time delegator coin voter "" delegate_out)
    add_stake time delegator coin
    on_votes (add_delegation time voter delegator coin)

  unfoldable pub handle_delegator_withdraw_msg :
      ℤ → (delegator voter amount : String) → AppMethod Unit
  handle_delegator_withdraw_msg time delegator voter amount = do
    coin ← coin_of_lino amount
    reject_if (λ s. not (is_legal_delegator_withdraw voter delegator coin s.votes)) illegal_withdraw
    param ← get_vote_param
    minus_stake time delegator coin
    on_votes (delegator_withdraw voter delegator coin)
    return_coin_to time delegator param.delegator_coin_return_times
        param.delegator_coin_return_interval_sec coin delegation_return_coin

  unfoldable pub handle_claim_interest_msg : ℤ → String → AppMethod Unit
  handle_claim_interest_msg time username = do
    calculate_and_add_interest time username
    interest ← on_votes (claim_interest username)
    on_bank (add_saving_coin time username interest "" "" claim_interest_in)
