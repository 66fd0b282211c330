-- ===== src/Account/Income.antt =====
-- What adding to an account's saving does to the balance and to the queue.
use lino.Sdk.{Sdk}
use lino.Prelude.{
  refl, String, ◌≡◌, some, ◌≢◌, false, subst, arith, sym, List, inl, inr, ◌++◌, ◌∷◌, [], ap, ◌⊎◌,
  ◌∙◌,
}
use lino.Prelude.Int.{ℤ, pos, ◌+ℤ◌, eq_ℤ_iff, +ℤ_assoc}
use lino.Account.Bank.{add_saving_coin, credit, AccountBank, BankStore}
use lino.Types.Coin.{Coin, plus, worth, is_zero, is_zero_lem, worth-plus}
use lino.Account.CoinDay.{
  PendingCoinDay, time_slot, PendingCoinDayQueue, add_pending_coin_day_to_queue,
}
use lino.Account.Store.{AccountInfo}
use lino.Prelude.Int64.{add64}
use lino.Account.Balance.{updated, Succeeds, SucceedsAt}
use lino.Account.Queue.{IsExact, add_pending_lem, update_tx_lem, EndsAt, EndsElsewhere, sum_coins}
use lino.Prelude.Table.{get-insert, string_key}

module _ ⦃sdk : Sdk⦄ where
  -- The entry that a deposit adds to the queue.
  abbrev deposited : ℤ → ℤ → Coin → PendingCoinDay
  deposited time recover coin = record {
    start_time = time_slot time;
    end_time = add64 (time_slot time) recover;
    coin = coin;
  }

  -- The bank after a deposit.
  abbrev credited : ℤ → ℤ → Coin → AccountBank → PendingCoinDayQueue → AccountBank
  credited time recover coin bank q = record bank {
    saving = plus bank.saving coin;
    num_of_tx = add64 bank.num_of_tx (pos 1);
    coin_day = (updated time recover bank q).0;
  }

  add_checked :
      (time : ℤ) (username : String) (coin : Coin) (from memo : String) (detail_type : ℤ)
      (s : BankStore) (info : AccountInfo) (bank : AccountBank)
      → s.account.infos username ≡ some info
      → s.banks username ≡ some bank
      → worth coin ≢ pos 0
      → add_saving_coin time username coin from memo detail_type s
        ≡ credit time username coin from memo detail_type bank s
  unfolding add_saving_coin
  add_checked time username coin from memo detail_type s info bank ei eb nonzero =
      let positive : is_zero coin ≡ false =
        ground (arith, is_zero_lem coin, eq_ℤ_iff (worth coin) (pos 0)) in
      ground arith

  credit_lem :
      (time : ℤ) (username : String) (coin : Coin) (from memo : String) (detail_type : ℤ)
      (bank : AccountBank) (q : PendingCoinDayQueue) (recover : ℤ) (s : BankStore)
      → s.queues username ≡ some q
      → s.seconds_to_recover_coin_day ≡ some recover
      → Succeeds
          (credit time username coin from memo detail_type bank)
          username
          (credited time recover coin bank q)
          (add_pending_coin_day_to_queue
            (deposited time recover coin)
            (updated time recover bank q).1)
          s
  unfolding credit
  credit_lem time username coin from memo detail_type bank q recover s eq er =
      let q' =
        add_pending_coin_day_to_queue (deposited time recover coin)
          (updated time recover bank q).1 in
      rw (er, eq)
        (
          refl,
          (λ j. get-insert username (credited time recover coin bank q) s.banks j),
          λ j. get-insert username q' s.queues j,
        )

  -- Where an added coin is counted, for the slot in which it comes: it stands at the end of the queue
  -- in an entry of its own, before which no entry of the slot is last, and the coin day and the queue
  -- hold together more by the coin; or the queue ends with an entry of the slot, and the coin is not
  -- counted.
  abbrev pub IsCounted :
      (p : PendingCoinDay) (bank more : AccountBank) (q q' : PendingCoinDayQueue) → Type 0
  IsCounted p bank more q q' =
      ((front : List PendingCoinDay) × (q'.pending_coin_days ≡ front ++ p ∷ [])
        × EndsElsewhere p.start_time front
        × (worth more.coin_day +ℤ sum_coins q'.pending_coin_days
            ≡ (worth bank.coin_day +ℤ sum_coins q.pending_coin_days) +ℤ worth p.coin))
      ⊎ (EndsAt p.start_time q'.pending_coin_days
          × (worth more.coin_day +ℤ sum_coins q'.pending_coin_days
              ≡ worth bank.coin_day +ℤ sum_coins q.pending_coin_days))

  counted_lem :
      (time recover : ℤ) (coin : Coin) (bank : AccountBank) (q : PendingCoinDayQueue)
      → IsExact q
      → let q' =
          add_pending_coin_day_to_queue
            (deposited time recover coin)
            (updated time recover bank q).1 in
        IsExact q'
        × IsCounted (deposited time recover coin) bank (credited time recover coin bank q) q q'
  counted_lem time recover coin bank q exact =
      let p = deposited time recover coin in
      let (day, before) = updated time recover bank q in
      let (exact', kept) = update_tx_lem time recover bank.coin_day q exact in
      let (exact'', cases) = add_pending_lem p before exact' in
      (
        exact'',
        elim cases [
          | inl (at, same) ↦ inr (
            subst (λ (b : PendingCoinDayQueue). EndsAt p.start_time b.pending_coin_days) (sym same)
                at,
            ap (λ (b : PendingCoinDayQueue). worth day +ℤ sum_coins b.pending_coin_days) same
                ∙ kept,
          )
          | inr (elsewhere, last, grown) ↦ inl (
            before.pending_coin_days,
            last,
            elsewhere,
            ap (λ x. worth day +ℤ x) grown
                ∙ sym (+ℤ_assoc (worth day) (sum_coins before.pending_coin_days) (worth coin))
                ∙ ap (λ x. x +ℤ worth coin) kept,
          )
        ],
      )

  -- Adding an amount other than zero to an account whose information, bank and queue are there, with
  -- the parameter for coin days, and where the total of the queue is the sum of its entries, succeeds:
  -- the saving grows by the amount, one more transaction is counted, the total of the queue is the sum
  -- of its entries again, and all other banks and queues stay as they are. The coin stands at the end of
  -- the queue in an entry from the start of the time's slot until it has recovered, and the coin day and
  -- the queue together grow by the amount, unless an entry of the slot was the last already: then the
  -- queue still ends with one, and the two together do not grow.
  pub add_saving_coin_lem :
      (time : ℤ) (username : String) (coin : Coin) (from memo : String) (detail_type : ℤ)
      (s : BankStore) (info : AccountInfo) (bank : AccountBank) (q : PendingCoinDayQueue)
      (recover : ℤ)
      → s.account.infos username ≡ some info
      → s.banks username ≡ some bank
      → s.queues username ≡ some q
      → s.seconds_to_recover_coin_day ≡ some recover
      → IsExact q
      → worth coin ≢ pos 0
      → let p : PendingCoinDay = record {
        start_time = time_slot time;
        end_time = add64 (time_slot time) recover;
        coin = coin;
      } in
        (more : AccountBank) × (q' : PendingCoinDayQueue) × Succeeds
          (add_saving_coin time username coin from memo detail_type)
          username
          more
          q'
          s
        × (worth more.saving ≡ worth bank.saving +ℤ worth coin)
        × (more.num_of_tx ≡ add64 bank.num_of_tx (pos 1))
        × IsExact q'
        × IsCounted p bank more q q'
  add_saving_coin_lem time username coin from memo detail_type s info bank q recover ei eb eq er
        exact nonzero =
      let q' =
        add_pending_coin_day_to_queue (deposited time recover coin)
          (updated time recover bank q).1 in
      let (exact', counts) = counted_lem time recover coin bank q exact in
      (
        credited time recover coin bank q,
        q',
        subst (λ r. SucceedsAt r username (credited time recover coin bank q) q' s)
            (sym (add_checked time username coin from memo detail_type s info bank ei eb nonzero))
            (credit_lem time username coin from memo detail_type bank q recover s eq er),
        worth-plus bank.saving coin,
        refl,
        exact',
        counts,
      )
