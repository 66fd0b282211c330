-- ===== src/Handlers/Store.antt =====
-- What the handlers work on: the stores of all managers beside each other, each reached by its own
-- methods. Also the events of the chain, and the return of coins, which the handlers of x/vote,
-- x/validator and x/developer each spell out in a `returnCoinTo` of their own.
use lino.Sdk.{Sdk}
use lino.Prelude.Int.{ℤ, pos}
use lino.Prelude.{String, Bool, List, not, map, if◌then◌else◌, Option}
use lino.Vote.Manager.{ProposalType}
use lino.Account.CoinReturn.{ReturnCoinEvent, create_coin_return_events}
use lino.Types.Coin.{Coin, lino_to_coin}
use lino.Account.Bank.{BankStore, BankMethod}
use lino.Prelude.Exec.{Exec, require, ◌>>◌, err, ok}
use lino.Account.Store.{AccountMethod, does_account_exist}
use lino.Vote.Store.{VoteMethod, VoteStore}
use lino.Validator.Store.{Method, ValidatorStore}
use lino.Developer.Manager.{DeveloperMethod, DeveloperStore}
use lino.Reputation.Manager.{ReputationMethod, ReputationState}
use lino.Global.Store.{GlobalMethod, GlobalStore}
use lino.Types.Errors.{Error, invalid_coins}
use lino.Account.Frozen.{add_frozen_money}
use lino.Global.Clock.{register_coin_return_event}

-- types.TransferDetailType: why coins move.
abbrev pub vote_return_coin : ℤ
vote_return_coin = pos 6

abbrev pub delegation_return_coin : ℤ
delegation_return_coin = pos 7

abbrev pub validator_return_coin : ℤ
validator_return_coin = pos 8

abbrev pub developer_return_coin : ℤ
developer_return_coin = pos 9

abbrev pub claim_interest_in : ℤ
claim_interest_in = pos 13

abbrev pub delegate_out : ℤ
delegate_out = pos 22

abbrev pub voter_deposit : ℤ
voter_deposit = pos 23

abbrev pub validator_deposit_out : ℤ
validator_deposit_out = pos 24

abbrev pub developer_deposit_out : ℤ
developer_deposit_out = pos 25

module _ ⦃sdk : Sdk⦄ where
  -- x/post/event.go
  pub record RewardEvent : Type 0 where
    pub post_author : String
    pub post_id : String
    pub consumer : String
    pub evaluate : Coin
    pub original : Coin
    pub friction : Coin
    pub from_app : String

  -- x/proposal/event.go
  pub record DecideProposalEvent : Type 0 where
    pub proposal_type : ProposalType
    pub proposal_id : String

  -- The events that the modelled handlers register; a change of parameters is registered by proposals.
  pub data AppEvent : Type 0 where
    return_coin : ReturnCoinEvent → AppEvent
    reward : RewardEvent → AppEvent
    decide_proposal : DecideProposalEvent → AppEvent

  pub record VoteParam : Type 0 where
    pub min_stake_in : Coin
    pub voter_coin_return_interval_sec : ℤ
    pub voter_coin_return_times : ℤ
    pub delegator_coin_return_interval_sec : ℤ
    pub delegator_coin_return_times : ℤ

  pub record AppStore : Type 0 where
    pub bank : BankStore
    pub votes : VoteStore
    pub validators : ValidatorStore
    pub developers : DeveloperStore
    pub reputation : ReputationState
    pub global : GlobalStore AppEvent
    pub vote_param : Option VoteParam

  abbrev pub AppMethod : Type 0 → Type 0
  AppMethod A = Exec Error AppStore A

  module _ {A : Type 0} where
    abbrev pub on_bank : BankMethod A → AppMethod A
    on_bank m s = let (r, t) = m s.bank in (r, record s { bank = t })

    -- The keys and grants of the accounts are part of the bank store.
    abbrev pub on_account : AccountMethod A → AppMethod A
    on_account m s =
        let (r, t) = m s.bank.account in (r, record s { bank = record s.bank { account = t } })

    abbrev pub on_votes : VoteMethod A → AppMethod A
    on_votes m s = let (r, t) = m s.votes in (r, record s { votes = t })

    abbrev pub on_validators : Method A → AppMethod A
    on_validators m s = let (r, t) = m s.validators in (r, record s { validators = t })

    abbrev pub on_developers : DeveloperMethod A → AppMethod A
    on_developers m s = let (r, t) = m s.developers in (r, record s { developers = t })

    abbrev pub on_reputation : ReputationMethod A → AppMethod A
    on_reputation m s = let (r, t) = m s.reputation in (r, record s { reputation = t })

    abbrev pub on_global : GlobalMethod AppEvent A → AppMethod A
    on_global m s = let (r, t) = m s.global in (r, record s { global = t })

  -- An `if` that returns an error.
  abbrev pub reject_if : (AppStore → Bool) → Error → AppMethod Unit
  reject_if test e s = if test s then (err e, s) else (ok tt, s)

  abbrev pub no_account : String → AppStore → Bool
  no_account username s = not (does_account_exist username s.bank.account)

  abbrev pub coin_of_lino : String → AppMethod Coin
  coin_of_lino lino = require invalid_coins (λ s. lino_to_coin lino)

  abbrev pub return_events : List ReturnCoinEvent → List AppEvent
  return_events = map return_coin

  -- `returnCoinTo`; the interval and the number of rounds are the handler's.
  unfoldable pub return_coin_to :
      (time : ℤ) (name : String) (times interval : ℤ) (coin : Coin) (return_type : ℤ)
      → AppMethod Unit
  return_coin_to time name times interval coin return_type = do
    on_bank (add_frozen_money time name coin time interval times)
    on_global (
        register_coin_return_event time
          (return_events (create_coin_return_events name times interval coin return_type)) times
          interval)
