-- ===== src/Account/Balance.antt =====
-- What paying from an account's saving does to the balance and to the queue.
use lino.Sdk.{Sdk}
use lino.Prelude.Int.{ℤ, pos, leb_ℤ, ◌-ℤ◌, ◌+ℤ◌, eq_ℤ_iff, ◌≤ℤ◌, int_laws}
use lino.Account.Bank.{
  BankMethod, pay, AccountBank, settle_coin_day, BankStore, minus_saving_coin, AccountParam,
}
use lino.Types.Coin.{
  Coin, minus, worth, is_gte, is_zero, is_zero_lem, is_gte_lem, worth-minus, is_positive_lem,
  is_positive,
}
use lino.Prelude.{
  String, ◌≡◌, some, if◌then◌else◌, str_eq, refl, arith, ◌≢◌, false, ◌⊎◌, Bool-cases, inl, inr, ap,
  sym, ◌∙◌, true, subst, [],
}
use lino.Account.CoinDay.{
  PendingCoinDayQueue, update_tx_from_pending_coin_day_queue, take_from_back,
}
use lino.Prelude.Int64.{add64}
use lino.Prelude.Exec.{ok, err, Result}
use lino.Prelude.Table.{get-insert, string_key}
use lino.Account.Queue.{IsExact, update_tx_lem, take_coin-IsTaken, sum_coins}
use lino.Types.Errors.{account_saving_coin_not_enough, Error}

module _ ⦃sdk : Sdk⦄ where
  -- The bank and the queue brought up to date, and what a payment takes from the queue.
  abbrev pub updated : ℤ → ℤ → AccountBank → PendingCoinDayQueue → Coin × PendingCoinDayQueue
  updated time recover bank q = update_tx_from_pending_coin_day_queue time recover bank.coin_day q

  abbrev taken : ℤ → ℤ → Coin → AccountBank → PendingCoinDayQueue → Coin × PendingCoinDayQueue
  taken time recover coin bank q = take_from_back recover coin (updated time recover bank q).1

  -- The bank after a payment.
  abbrev charged : ℤ → ℤ → Coin → AccountBank → PendingCoinDayQueue → AccountBank
  charged time recover coin bank q =
      settle_coin_day (taken time recover coin bank q).0 (record bank {
        saving = minus bank.saving coin;
        num_of_tx = add64 bank.num_of_tx (pos 1);
        coin_day = (updated time recover bank q).0;
      })

  -- A result that is a success, with this bank and this queue under the name, and every other bank
  -- and queue as they were.
  abbrev pub SucceedsAt :
      Result Error Unit × BankStore
      → String
      → AccountBank
      → PendingCoinDayQueue
      → BankStore
      → Type 0
  SucceedsAt (r, s') username bank queue s =
      (r ≡ ok tt)
      × ((j : String) → s'.banks j ≡ (if str_eq username j then some bank else s.banks j))
      × ((j : String) → s'.queues j ≡ (if str_eq username j then some queue else s.queues j))

  abbrev pub Succeeds :
      BankMethod Unit → String → AccountBank → PendingCoinDayQueue → BankStore → Type 0
  Succeeds m username bank queue s = SucceedsAt (m s) username bank queue s

  paid_back : (x y c : ℤ) → x ≡ y -ℤ c → x +ℤ c ≡ y
  paid_back x y c h = grind (int_laws, h)

  at_least : (low c : Coin) → is_gte c low ≡ true → worth low ≤ℤ worth c
  at_least low c h = ground (arith, is_gte_lem c low)

  pay_lem :
      (time : ℤ) (username : String) (coin : Coin) (to memo : String) (detail_type : ℤ)
      (bank : AccountBank) (q : PendingCoinDayQueue) (recover : ℤ) (s : BankStore)
      → s.queues username ≡ some q
      → s.seconds_to_recover_coin_day ≡ some recover
      → Succeeds
          (pay time username coin to memo detail_type bank)
          username
          (charged time recover coin bank q)
          (taken time recover coin bank q).1
          s
  unfolding pay
  pay_lem time username coin to memo detail_type bank q recover s eq er =
      rw (eq, er)
        (
          refl,
          (λ j. get-insert username (charged time recover coin bank q) s.banks j),
          λ j. get-insert username (taken time recover coin bank q).1 s.queues j,
        )

  saving-settle :
      (left : Coin) (bank : AccountBank) → (settle_coin_day left bank).saving ≡ bank.saving
  saving-settle left bank = ground arith

  num_of_tx-settle :
      (left : Coin) (bank : AccountBank) → (settle_coin_day left bank).num_of_tx ≡ bank.num_of_tx
  num_of_tx-settle left bank = ground arith

  minus_checked :
      (time : ℤ) (username : String) (coin : Coin) (to memo : String) (detail_type : ℤ)
      (s : BankStore) (bank : AccountBank) (param : AccountParam)
      → s.banks username ≡ some bank
      → s.account_param ≡ some param
      → worth coin ≢ pos 0
      → minus_saving_coin time username coin to memo detail_type s ≡ (
          if is_gte (minus bank.saving coin) param.minimum_balance
          then pay time username coin to memo detail_type bank s
          else (err account_saving_coin_not_enough, s))
  unfolding minus_saving_coin
  minus_checked time username coin to memo detail_type s bank param eb ep nonzero =
      let positive : is_zero coin ≡ false =
        ground (arith, is_zero_lem coin, eq_ℤ_iff (worth coin) (pos 0)) in
      elim (Bool-cases (is_gte (minus bank.saving coin) param.minimum_balance)) [
        | inl enough ↦ ground arith
        | inr short ↦ ground arith
      ]

  -- Where an amount is taken from: the queue is brought up to date first, and then loses the amount but
  -- for a rest that is not found in it, which is zero or the queue is empty. If the rest is above zero,
  -- all that is saved counts as coin day; if not, the coin day is as after the update.
  abbrev pub IsTakenFrom :
      (time recover : ℤ) (coin : Coin) (bank left : AccountBank) (q q' : PendingCoinDayQueue)
      → Type 0
  IsTakenFrom time recover coin bank left q q' =
      let (day, before) = update_tx_from_pending_coin_day_queue time recover bank.coin_day q in
      (rest : ℤ) × (sum_coins q'.pending_coin_days +ℤ worth coin
        ≡ sum_coins before.pending_coin_days +ℤ rest)
      × ((rest ≡ pos 0) ⊎ (q'.pending_coin_days ≡ []))
      × (((pos 1 ≤ℤ rest) × (left.coin_day ≡ left.saving))
          ⊎ ((rest ≤ℤ pos 0) × (left.coin_day ≡ day)))

  charged-IsTakenFrom :
      (time recover : ℤ) (coin : Coin) (bank : AccountBank) (q : PendingCoinDayQueue)
      → IsExact q
      → IsTakenFrom time recover coin bank
          (charged time recover coin bank q)
          q
          (taken time recover coin bank q).1
  charged-IsTakenFrom time recover coin bank q exact =
      let before = (updated time recover bank q).1 in
      let fresh = (update_tx_lem time recover bank.coin_day q exact).0 in
      let (exact', sums, ends) = (take_coin-IsTaken recover coin before fresh).1 in
      let rest = (taken time recover coin bank q).0 in
      let same = is_positive_lem rest in
      (
        worth rest,
        sums,
        ends,
        elim (Bool-cases (is_positive rest)) [
          | inl more ↦ inl (ground (arith, same), rw more refl)
          | inr done ↦ inr (ground (arith, same), rw done refl)
        ],
      )

  -- Paying an amount other than zero from an account whose bank and queue are there, with the
  -- parameters, and where the total of the queue is the sum of its entries. If the saving less the
  -- amount is below the minimum balance, it fails and nothing changes. If not, it succeeds: the saving
  -- falls by the amount and stays at least the minimum, one more transaction is counted, the total of
  -- the queue is the sum of its entries again, and all other banks and queues stay as they are. The
  -- queue is brought up to date and then loses the amount but for a rest, which is zero or the queue is
  -- empty; with a rest above zero the coin day is all that is saved, else it is as after the update.
  pub minus_saving_coin_lem :
      (time : ℤ) (username : String) (coin : Coin) (to memo : String) (detail_type : ℤ)
      (s : BankStore) (bank : AccountBank) (param : AccountParam) (q : PendingCoinDayQueue)
      (recover : ℤ)
      → s.banks username ≡ some bank
      → s.account_param ≡ some param
      → s.queues username ≡ some q
      → s.seconds_to_recover_coin_day ≡ some recover
      → IsExact q
      → worth coin ≢ pos 0
      → let m = minus_saving_coin time username coin to memo detail_type in
        ((leb_ℤ (worth param.minimum_balance) (worth bank.saving -ℤ worth coin) ≡ false)
          × (m s ≡ (err account_saving_coin_not_enough, s)))
        ⊎ ((left : AccountBank) × (q' : PendingCoinDayQueue) × Succeeds m username left q' s
            × (worth left.saving +ℤ worth coin ≡ worth bank.saving)
            × (worth param.minimum_balance ≤ℤ worth left.saving)
            × (left.num_of_tx ≡ add64 bank.num_of_tx (pos 1))
            × IsExact q'
            × IsTakenFrom time recover coin bank left q q')
  minus_saving_coin_lem time username coin to memo detail_type s bank param q recover eb ep eq er
        exact nonzero =
      let checked =
        minus_checked time username coin to memo detail_type s bank param eb ep nonzero in
      let remains = is_gte_lem (minus bank.saving coin) param.minimum_balance in
      let less = worth-minus bank.saving coin in
      elim (Bool-cases (is_gte (minus bank.saving coin) param.minimum_balance)) [
        | inr short ↦ inl (
          ap (λ x. leb_ℤ (worth param.minimum_balance) x) (sym less) ∙ sym remains ∙ short,
          rw short at checked,
        )
        | inl enough ↦
            let m = minus_saving_coin time username coin to memo detail_type in
            let left = charged time recover coin bank q in
            let saving : left.saving ≡ minus bank.saving coin = saving-settle _ _ in
            let paid : Succeeds (pay time username coin to memo detail_type bank) username left
                (taken time recover coin bank q).1 s =
              pay_lem time username coin to memo detail_type bank q recover s eq er in
            let same : m s ≡ pay time username coin to memo detail_type bank s =
              rw enough at checked in
            let fresh = (update_tx_lem time recover bank.coin_day q exact).0 in
            inr (
              left,
              (taken time recover coin bank q).1,
              subst (λ r. SucceedsAt r username left (taken time recover coin bank q).1 s)
                  (sym same) paid,
              ap (λ c. worth c +ℤ worth coin) saving
                  ∙ paid_back (worth (minus bank.saving coin)) (worth bank.saving) (worth coin)
                      less,
              subst (λ c. worth param.minimum_balance ≤ℤ worth c) (sym saving)
                  (at_least param.minimum_balance (minus bank.saving coin) enough),
              num_of_tx-settle _ _,
              (take_coin-IsTaken recover coin (updated time recover bank q).1 fresh).1.0,
              charged-IsTakenFrom time recover coin bank q exact,
            )
      ]
