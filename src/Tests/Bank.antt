-- ===== src/Tests/Bank.antt =====
-- x/account: an account with a balance, and the theorems at it.
use lino.Tests.Ints.{test_sdk, coins}
use lino.Tests.Queue.{two_pending, two_pending-IsExact}
use lino.Tests.Account.{two_accounts, at_user, user_info}
use lino.Account.Bank.{
  AccountBank, AccountParam, BankStore, minus_saving_coin, add_saving_coin, FrozenMoney,
}
use lino.Prelude.Table.{insert, empty, string_key}
use lino.Types.Coin.{new_coin_from_int64, worth}
use lino.Prelude.{[], ◌≡◌, some, ◌≢◌, arith, refl, false, ◌⊎◌, List, none, true}
use lino.Prelude.Int.{pos, leb_ℤ, ◌-ℤ◌, ◌+ℤ◌, ◌≤ℤ◌}
use lino.Account.CoinDay.{PendingCoinDayQueue, PendingCoinDay, time_slot}
use lino.Account.Income.{add_saving_coin_lem, IsCounted}
use lino.Account.Balance.{Succeeds, minus_saving_coin_lem, IsTakenFrom}
use lino.Prelude.Exec.{err}
use lino.Prelude.Int64.{add64}
use lino.Types.Errors.{account_saving_coin_not_enough, frozen_money_list_too_long}
use lino.Account.Queue.{IsExact}
use lino.Account.Frozen.{add_frozen_money, add_frozen_money_lem, Cleaned, Freezes}
use lino.Prelude.Lists.{length}

abbrev pub bank : AccountBank
bank = record {
  saving = coins 100;
  coin_day = coins 30;
  frozen_money_list = [];
  num_of_tx = pos 3;
  num_of_reward = pos 0;
}

abbrev pub limits : AccountParam
limits = record {
  minimum_balance = coins 1;
  register_fee = coins 1;
  first_deposit_full_coin_day_limit = coins 1;
  max_num_frozen_money = pos 10;
}

abbrev pub one_bank : BankStore
one_bank = record {
  account = two_accounts;
  banks = insert "user" bank empty;
  histories = empty;
  queues = insert "user" two_pending empty;
  metas = empty;
  rewards = empty;
  reward_histories = empty;
  followers = empty;
  followings = empty;
  donation_times = empty;
  bandwidth_param = none;
  account_param = some limits;
  seconds_to_recover_coin_day = some (pos 604800);
}

at_bank : one_bank.banks "user" ≡ some bank
unfolding insert
at_bank = refl

at_queue : one_bank.queues "user" ≡ some two_pending
unfolding insert
at_queue = refl

twenty_ne : worth (coins 20) ≢ pos 0
unfolding new_coin_from_int64
twenty_ne = ground arith

minus_saving_coin_example :
    let m = minus_saving_coin (pos 3000) "user" (coins 20) "dev" "" (pos 1) in
    ((leb_ℤ (worth limits.minimum_balance) (worth bank.saving -ℤ worth (coins 20)) ≡ false)
      × (m one_bank ≡ (err account_saving_coin_not_enough, one_bank)))
    ⊎ ((left : AccountBank) × (q' : PendingCoinDayQueue) × Succeeds m "user" left q' one_bank
        × (worth left.saving +ℤ worth (coins 20) ≡ worth bank.saving)
        × (worth limits.minimum_balance ≤ℤ worth left.saving)
        × (left.num_of_tx ≡ add64 bank.num_of_tx (pos 1))
        × IsExact q'
        × IsTakenFrom (pos 3000) (pos 604800) (coins 20) bank left two_pending q')
minus_saving_coin_example =
    minus_saving_coin_lem (pos 3000) "user" (coins 20) "dev" "" (pos 1) one_bank bank limits
      two_pending (pos 604800) at_bank refl at_queue refl two_pending-IsExact twenty_ne

add_saving_coin_example :
    let p : PendingCoinDay = record {
      start_time = time_slot (pos 3000);
      end_time = add64 (time_slot (pos 3000)) (pos 604800);
      coin = coins 20;
    } in
    (more : AccountBank) × (q' : PendingCoinDayQueue) × Succeeds
      (add_saving_coin (pos 3000) "user" (coins 20) "dev" "" (pos 1))
      "user"
      more
      q'
      one_bank
    × (worth more.saving ≡ worth bank.saving +ℤ worth (coins 20))
    × (more.num_of_tx ≡ add64 bank.num_of_tx (pos 1))
    × IsExact q'
    × IsCounted p bank more two_pending q'
add_saving_coin_example =
    add_saving_coin_lem (pos 3000) "user" (coins 20) "dev" "" (pos 1) one_bank user_info bank
      two_pending (pos 604800) at_user at_bank at_queue refl two_pending-IsExact twenty_ne

add_frozen_money_example :
    let m = add_frozen_money (pos 3000) "user" (coins 20) (pos 3000) (pos 604800) (pos 7) in
    (kept : List FrozenMoney) × Cleaned (pos 3000) bank.frozen_money_list kept
    × (((leb_ℤ limits.max_num_frozen_money (pos (length kept)) ≡ true)
          × (m one_bank ≡ (err frozen_money_list_too_long, one_bank)))
        ⊎ ((leb_ℤ limits.max_num_frozen_money (pos (length kept)) ≡ false)
            × Freezes
                (coins 20)
                (pos 3000)
                (pos 604800)
                (pos 7)
                "user"
                limits
                bank
                kept
                one_bank
                (m one_bank)))
add_frozen_money_example =
    add_frozen_money_lem (pos 3000) "user" (coins 20) (pos 3000) (pos 604800) (pos 7) one_bank bank
      limits at_bank refl
