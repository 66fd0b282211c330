-- ===== src/Account/Opening.antt =====
-- x/account/manager.go: opening an account, the payments that count as full coin days, and the capacity
-- for transactions that the coin days give. `time` is the time of the block in seconds.
use lino.Sdk.{Sdk}
use lino.Prelude.{String, if◌then◌else◌, not, []}
use lino.Prelude.Int.{ℤ, pos}
use lino.Account.Bank.{
  AccountBank, Reward, BankMethod, BandwidthParam, AccountParam, AccountMeta, get_bank,
  add_balance_history, get_account_param, get_queue, set_bank, refreshed, set_queue,
  get_coin_day_param, add_saving_coin,
}
use lino.Account.CoinDay.{PendingCoinDayQueue, take_from_front}
use lino.Types.Coin.{Coin, zero_coin, is_gte, minus, is_zero, is_gt, plus, rat_to_coin, coin_to_rat}
use lino.Types.Errors.{
  Error, account_not_found, account_already_exists, param_not_found, account_saving_coin_not_enough,
  account_tps_capacity_not_enough, add_saving_coin_with_full_coin_day_failed,
  add_saving_coin_failed,
}
use lino.Account.Store.{AccountInfo, does_account_exist}
use lino.Prelude.Exec.{◌>>=◌, err, pure, ◌>>◌, ok, require, raise}
use lino.Prelude.Int64.{sub64, add64}
use lino.Account.Profile.{get_meta, set_meta, set_reward}
use lino.Prelude.Table.{insert, string_key}

abbrev pub init_full_memo : String
init_full_memo = "open account deposit"

abbrev pub init_deposit_memo : String
init_deposit_memo = "init deposit"

-- types.TransferDetailType
abbrev pub transfer_in : ℤ
transfer_in = pos 0

module _ ⦃sdk : Sdk⦄ where
  open sdk use {PubKey, Rat, new_rat, zero_rat, mul_rat, gt_rat}

  unfoldable pub add_saving_coin_with_full_coin_day :
      ℤ → String → Coin → String → String → ℤ → BankMethod Unit
  add_saving_coin_with_full_coin_day time username coin from memo detail_type s =
      if not (does_account_exist username s.account)
      then (err account_not_found, s)
      else if is_zero coin
      then (ok tt, s)
      else (do
        bank ← get_bank username
        let saving = plus bank.saving coin
        add_balance_history username bank.num_of_tx (record {
          detail_type = detail_type;
          from = from;
          to = username;
          amount = coin;
          balance = saving;
          created_at = time;
          memo = memo;
        })
        set_bank username (record bank {
          saving = saving;
          coin_day = plus bank.coin_day coin;
          num_of_tx = add64 bank.num_of_tx (pos 1);
        }))
          s

  -- The coin day pays first; what it does not cover is taken from the queue, the first entry first.
  abbrev pub take_full :
      ℤ → Coin → AccountBank → PendingCoinDayQueue → AccountBank × PendingCoinDayQueue
  take_full recover coin bank queue =
      if is_gte bank.coin_day coin
      then (record bank { coin_day = minus bank.coin_day coin }, queue)
      else (
        record bank { coin_day = zero_coin },
        (take_from_front recover (minus coin bank.coin_day) queue).1,
      )

  unfoldable pub pay_full : ℤ → String → Coin → String → String → ℤ → AccountBank → BankMethod Unit
  pay_full time username coin to memo detail_type bank = do
    let remain = minus bank.saving coin
    add_balance_history username bank.num_of_tx (record {
      detail_type = detail_type;
      from = username;
      to = to;
      amount = coin;
      balance = remain;
      created_at = time;
      memo = memo;
    })
    queue ← get_queue username
    (bank', queue') ← λ s. (
      ok (
          refreshed time (record bank { saving = remain; num_of_tx = add64 bank.num_of_tx (pos 1) })
            queue s),
      s,
    )
    recover ← get_coin_day_param
    let (bank'', queue'') = take_full recover coin bank' queue'
    set_queue username queue''
    set_bank username bank''

  unfoldable pub minus_saving_coin_with_full_coin_day :
      ℤ → String → Coin → String → String → ℤ → BankMethod Unit
  minus_saving_coin_with_full_coin_day time username coin to memo detail_type =
      if is_zero coin then pure tt else do
        bank ← get_bank username
        param ← get_account_param
        if not (is_gte (minus bank.saving coin) param.minimum_balance)
            then raise account_saving_coin_not_enough
            else pay_full time username coin to memo detail_type bank

  unfoldable pub get_coin_day : ℤ → String → BankMethod Coin
  get_coin_day time username = do
    bank ← get_bank username
    queue ← get_queue username
    (bank', queue') ← λ s. (ok (refreshed time bank queue s), s)
    set_queue username queue'
    set_bank username bank'
    pure (plus bank'.coin_day (rat_to_coin queue'.total_coin_day))

  -- The capacity before the transaction: it grows with time up to the coin day, never above it.
  abbrev pub recovered_capacity : ℤ → Coin → BandwidthParam → AccountMeta → Coin
  recovered_capacity time coin_day param meta =
      if is_gte meta.transaction_capacity coin_day
      then coin_day
      else (let ratio =
            new_rat (sub64 time meta.last_activity_at) param.seconds_to_recover_bandwidth in
          let one = new_rat (pos 1) (pos 1) in
          plus meta.transaction_capacity (
            rat_to_coin (
              mul_rat (coin_to_rat (minus coin_day meta.transaction_capacity))
                (if gt_rat ratio one then one else ratio))))

  -- `CheckUserTPSCapacity` once the account's record and coin day are read.
  abbrev pub tps_rest : ℤ → String → Rat → AccountMeta → Coin → BankMethod Unit
  tps_rest time me tps_capacity_ratio meta coin_day = do
    param ← require param_not_found (λ s. s.bandwidth_param)
    let capacity = recovered_capacity time (plus coin_day param.virtual_coin) param meta
    let cost =
        rat_to_coin (mul_rat (coin_to_rat param.capacity_usage_per_transaction) tps_capacity_ratio)
    if is_gt cost capacity
        then raise account_tps_capacity_not_enough
        else set_meta me
            (record meta { transaction_capacity = minus capacity cost; last_activity_at = time })

  unfoldable pub check_user_tps_capacity : ℤ → String → Rat → BankMethod Unit
  check_user_tps_capacity time me tps_capacity_ratio = do
    meta ← get_meta me
    coin_day ← get_coin_day time me
    tps_rest time me tps_capacity_ratio meta coin_day

  abbrev empty_bank : AccountBank
  empty_bank = record {
    saving = zero_coin;
    coin_day = zero_coin;
    frozen_money_list = [];
    num_of_tx = pos 0;
    num_of_reward = pos 0;
  }

  abbrev empty_queue : PendingCoinDayQueue
  empty_queue = record {
    last_updated_at = pos 0;
    total_coin_day = zero_rat;
    total_coin = zero_coin;
    pending_coin_days = [];
  }

  abbrev empty_reward : Reward
  empty_reward = record {
    total_income = zero_coin;
    original_income = zero_coin;
    friction_income = zero_coin;
    inflation_income = zero_coin;
    unclaim_reward = zero_coin;
  }

  -- The part of the deposit that counts as full coin days at once.
  abbrev pub full_part : Coin → AccountParam → Coin
  full_part deposit param =
      if is_gt deposit param.first_deposit_full_coin_day_limit
      then param.first_deposit_full_coin_day_limit
      else deposit

  abbrev new_info : ℤ → String → PubKey → PubKey → PubKey → AccountInfo
  new_info time username reset transaction app = record {
    username = username;
    created_at = time;
    reset_key = reset;
    transaction_key = transaction;
    app_key = app;
  }

  abbrev new_meta : ℤ → Coin → AccountMeta
  new_meta time full = record {
    sequence = pos 0;
    last_activity_at = time;
    transaction_capacity = full;
    json_meta = "";
    last_report_or_upvote_at = time;
    last_post_at = pos 0;
  }

  -- An error under another name.
  abbrev or_else : Error → BankMethod Unit → BankMethod Unit
  or_else e m s = let (r, s') = m s in (elim r [ ok _ ↦ ok tt | err _ ↦ err e ], s')

  unfoldable pub create_account :
      ℤ → (referrer username : String) → (reset transaction app : PubKey) → Coin → BankMethod Unit
  create_account time referrer username reset transaction app register_deposit s =
      if does_account_exist username s.account
      then (err account_already_exists, s)
      else (do
        param ← get_account_param
        let full = full_part register_deposit param
        set_queue username empty_queue
        set_bank username empty_bank
        (λ t. (
          ok tt,
          record t {
            account = record t.account {
              infos =
                  insert username (new_info time username reset transaction app) t.account.infos;
            };
          },
        ))
        set_meta username (new_meta time full)
        set_reward username empty_reward
        or_else add_saving_coin_with_full_coin_day_failed (
            add_saving_coin_with_full_coin_day time username full referrer init_full_memo
              transfer_in)
        or_else add_saving_coin_failed (
            add_saving_coin time username (minus register_deposit full) referrer init_deposit_memo
              transfer_in))
          s
