-- ===== src/Account/Bank.antt =====
-- x/account/manager.go: the balance of an account, its history, and the queue of pending coin days
-- beside it. The time of the block is in seconds.
use lino.Sdk.{Sdk}
use lino.Prelude.{ℕ, String, List, Option, if◌then◌else◌, not, none, [], some, ◌++◌, ◌∷◌}
use lino.Types.Coin.{Coin, minus, is_positive, is_gte, is_zero, plus}
use lino.Prelude.Int.{ℤ, div_pos, pos}
use lino.Account.Store.{AccountStore, does_account_exist}
use lino.Prelude.Exec.{Exec, ok, ◌>>=◌, Result, ◌>>◌, err, pure, raise}
use lino.Types.Errors.{
  Error, param_not_found, account_bank_not_found, pending_coin_day_queue_not_found,
  account_not_found, account_saving_coin_not_enough,
}
use lino.Prelude.Table.{Table, insert, get_or, string_key, pair_key, int_key}
use lino.Account.CoinDay.{
  PendingCoinDayQueue, PendingCoinDay, add_pending_coin_day_to_queue,
  update_tx_from_pending_coin_day_queue, take_from_back, time_slot,
}
use lino.Prelude.Int64.{add64}

-- types.BalanceHistoryBundleSize
abbrev pub balance_history_bundle_size : ℕ
balance_history_bundle_size = 100

module _ ⦃sdk : Sdk⦄ where
  pub record FrozenMoney : Type 0 where
    pub amount : Coin
    pub start_at : ℤ
    pub times : ℤ
    pub interval : ℤ

  pub record AccountBank : Type 0 where
    pub saving : Coin
    pub coin_day : Coin
    pub frozen_money_list : List FrozenMoney
    pub num_of_tx : ℤ
    pub num_of_reward : ℤ

  -- `DetailType` is an int.
  pub record Detail : Type 0 where
    pub detail_type : ℤ
    pub from : String
    pub to : String
    pub amount : Coin
    pub balance : Coin
    pub created_at : ℤ
    pub memo : String

  pub record AccountParam : Type 0 where
    pub minimum_balance : Coin
    pub register_fee : Coin
    pub first_deposit_full_coin_day_limit : Coin
    pub max_num_frozen_money : ℤ

  pub record AccountMeta : Type 0 where
    pub sequence : ℤ
    pub last_activity_at : ℤ
    pub transaction_capacity : Coin
    pub json_meta : String
    pub last_report_or_upvote_at : ℤ
    pub last_post_at : ℤ

  pub record Reward : Type 0 where
    pub total_income : Coin
    pub original_income : Coin
    pub friction_income : Coin
    pub inflation_income : Coin
    pub unclaim_reward : Coin

  pub record RewardDetail : Type 0 where
    pub original_donation : Coin
    pub friction_donation : Coin
    pub actual_reward : Coin
    pub consumer : String
    pub post_author : String
    pub post_id : String

  pub record BandwidthParam : Type 0 where
    pub seconds_to_recover_bandwidth : ℤ
    pub capacity_usage_per_transaction : Coin
    pub virtual_coin : Coin

  -- The account store with the substores of banks, of histories by account and bundle, and of queues,
  -- the metas and rewards,
  -- the relations between two accounts (when a follower came, how often one has donated), and the
  -- parameters; `seconds_to_recover_coin_day` is all that is in the coin day parameter.
  pub record BankStore : Type 0 where
    pub account : AccountStore
    pub banks : Table String AccountBank
    pub histories : Table (String × ℤ) (List Detail)
    pub queues : Table String PendingCoinDayQueue
    pub metas : Table String AccountMeta
    pub rewards : Table String Reward
    pub reward_histories : Table (String × ℤ) (List RewardDetail)
    pub followers : Table (String × String) ℤ
    pub followings : Table (String × String) ℤ
    pub donation_times : Table (String × String) ℤ
    pub bandwidth_param : Option BandwidthParam
    pub account_param : Option AccountParam
    pub seconds_to_recover_coin_day : Option ℤ

  abbrev pub BankMethod : Type 0 → Type 0
  BankMethod A = Exec Error BankStore A

  abbrev pub or_error : {A : Type 0} → Error → Option A → BankStore → Result Error A × BankStore
  or_error e o s = elim o [ none ↦ (err e, s) | some a ↦ (ok a, s) ]

  abbrev pub get_bank : String → BankMethod AccountBank
  get_bank username s = or_error account_bank_not_found (s.banks username) s

  abbrev pub set_bank : String → AccountBank → BankMethod Unit
  set_bank username bank s = (ok tt, record s { banks = insert username bank s.banks })

  abbrev pub get_queue : String → BankMethod PendingCoinDayQueue
  get_queue username s = or_error pending_coin_day_queue_not_found (s.queues username) s

  abbrev pub set_queue : String → PendingCoinDayQueue → BankMethod Unit
  set_queue username queue s = (ok tt, record s { queues = insert username queue s.queues })

  abbrev pub get_account_param : BankMethod AccountParam
  get_account_param s = or_error param_not_found s.account_param s

  abbrev pub get_coin_day_param : BankMethod ℤ
  get_coin_day_param s = or_error param_not_found s.seconds_to_recover_coin_day s

  -- Appends to the bundle that the number of transactions selects; it is never negative.
  abbrev pub add_balance_history : String → ℤ → Detail → BankMethod Unit
  add_balance_history username num_of_tx detail s =
      let key : String × ℤ = (username, div_pos num_of_tx balance_history_bundle_size) in
      let old = get_or key [] s.histories in
      (ok tt, record s { histories = insert key (old ++ detail ∷ []) s.histories })

  -- `updateTXFromPendingCoinDayQueue` inside a method; without the parameter it does nothing, and its
  -- error is not looked at.
  abbrev pub refreshed :
      ℤ → AccountBank → PendingCoinDayQueue → BankStore → AccountBank × PendingCoinDayQueue
  refreshed time bank queue s = elim s.seconds_to_recover_coin_day [
    | none ↦ (bank, queue)
    | some recover ↦
        let (coin_day, queue') =
          update_tx_from_pending_coin_day_queue time recover bank.coin_day queue in
        (record bank { coin_day = coin_day }, queue')
  ]

  -- `addPendingCoinDayToQueue` on the store; returns the bank, which it changes.
  abbrev pub enqueue : ℤ → String → AccountBank → PendingCoinDay → BankMethod AccountBank
  enqueue time username bank pending = do
    queue ← get_queue username
    (bank', queue') ← λ s. (ok (refreshed time bank queue s), s)
    set_queue username (add_pending_coin_day_to_queue pending queue')
    pure bank'

  -- `AddSavingCoin` after its checks.
  unfoldable pub credit : ℤ → String → Coin → String → String → ℤ → AccountBank → BankMethod Unit
  credit time username coin from memo detail_type bank = do
    let saving = plus bank.saving coin
    add_balance_history username bank.num_of_tx (record {
      detail_type = detail_type;
      from = from;
      to = username;
      amount = coin;
      balance = saving;
      created_at = time;
      memo = memo;
    })
    recover ← get_coin_day_param
    bank' ←
        enqueue time username
          (record bank { saving = saving; num_of_tx = add64 bank.num_of_tx (pos 1) })
          (record {
            start_time = time_slot time;
            end_time = add64 (time_slot time) recover;
            coin = coin;
          })
    set_bank username bank'

  unfoldable pub add_saving_coin : ℤ → String → Coin → String → String → ℤ → BankMethod Unit
  add_saving_coin time username coin from memo detail_type s =
      if not (does_account_exist username s.account)
      then (err account_not_found, s)
      else if is_zero coin
      then (ok tt, s)
      else (get_bank username >>= credit time username coin from memo detail_type) s

  -- The bank after the loop over the queue: with something left to take, all of the saving counts.
  abbrev pub settle_coin_day : Coin → AccountBank → AccountBank
  settle_coin_day left bank =
      if is_positive left then record bank { coin_day = bank.saving } else bank

  -- `MinusSavingCoin` after its checks.
  unfoldable pub pay : ℤ → String → Coin → String → String → ℤ → AccountBank → BankMethod Unit
  pay time username coin to memo detail_type bank = do
    let saving = minus bank.saving coin
    add_balance_history username bank.num_of_tx (record {
      detail_type = detail_type;
      from = username;
      to = to;
      amount = coin;
      balance = saving;
      created_at = time;
      memo = memo;
    })
    queue ← get_queue username
    (bank', queue') ← λ s. (
      ok (
          refreshed time (record bank { saving = saving; num_of_tx = add64 bank.num_of_tx (pos 1) })
            queue s),
      s,
    )
    recover ← get_coin_day_param
    let (left, queue'') = take_from_back recover coin queue'
    set_queue username queue''
    set_bank username (settle_coin_day left bank')

  unfoldable pub minus_saving_coin : ℤ → String → Coin → String → String → ℤ → BankMethod Unit
  minus_saving_coin time username coin to memo detail_type = do
    bank ← get_bank username
    param ← get_account_param
    if not (is_gte (minus bank.saving coin) param.minimum_balance)
        then raise account_saving_coin_not_enough
        else if is_zero coin
        then pure tt
        else pay time username coin to memo detail_type bank
