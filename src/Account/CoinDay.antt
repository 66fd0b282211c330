-- ===== src/Account/CoinDay.antt =====
-- x/account/manager.go: the coins that wait in an account's queue before they count as coin days.
use lino.Sdk.{Sdk}
use lino.Prelude.{ℕ, if◌then◌else◌, List, ◌++◌, ◌∷◌, Bool, false, []}
use lino.Prelude.Int.{ℤ, div_pos, pos, leb_ℤ, eq_ℤ}
use lino.Prelude.Int64.{mul64, sub64}
use lino.Types.Coin.{Coin, plus, minus, zero_coin, is_gte}

-- types.CoinDayRecordIntervalSec
abbrev pub coin_day_record_interval_sec : ℕ
coin_day_record_interval_sec = 1200

-- The start of the time slot of a time that is not negative.
abbrev pub time_slot : ℤ → ℤ
time_slot t = mul64 (div_pos t coin_day_record_interval_sec) (pos coin_day_record_interval_sec)

module _ ⦃sdk : Sdk⦄ where
  open sdk use {Rat, zero_rat, new_rat, add_rat, sub_rat, mul_rat, to_rat}

  pub record PendingCoinDay : Type 0 where
    pub start_time : ℤ
    pub end_time : ℤ
    pub coin : Coin

  pub record PendingCoinDayQueue : Type 0 where
    pub last_updated_at : ℤ
    pub total_coin_day : Rat
    pub total_coin : Coin
    pub pending_coin_days : List PendingCoinDay

  -- The entries from the last to the first.
  unfoldable pub reversed : List PendingCoinDay → List PendingCoinDay
  reversed [] = []
  reversed (p ∷ ps) = reversed ps ++ p ∷ []

  -- The coin day that the queue counts for an amount of one of its entries.
  abbrev pub counted : ℤ → ℤ → PendingCoinDay → Coin → Rat
  counted recover last p coin =
      mul_rat (new_rat (sub64 last p.start_time) recover) (to_rat coin.amount)

  -- The loop that takes the entries that have ended off the front, adding them to `CoinDay`.
  unfoldable pub take_ended :
      ℤ → ℤ → Coin → PendingCoinDayQueue → List PendingCoinDay → Coin × PendingCoinDayQueue
  take_ended slot recover coin_day q [] = (coin_day, record q { pending_coin_days = [] })
  take_ended slot recover coin_day q (p ∷ ps) =
      let rest =
        take_ended slot recover (plus coin_day p.coin)
          (record q {
            total_coin_day = sub_rat q.total_coin_day (counted recover q.last_updated_at p p.coin);
            total_coin = minus q.total_coin p.coin;
          })
          ps in
      if leb_ℤ p.end_time slot then rest else (coin_day, record q { pending_coin_days = p ∷ ps })

  -- The end of `updateTXFromPendingCoinDayQueue`: the totals of what is left, up to the slot.
  abbrev pub refresh : ℤ → ℤ → PendingCoinDayQueue → PendingCoinDayQueue
  refresh slot recover q = elim q.pending_coin_days [
    | [] ↦ record q { total_coin = zero_coin; total_coin_day = zero_rat; last_updated_at = slot }
    | _ ∷ _ ↦ record q {
      total_coin_day =
          add_rat q.total_coin_day
            (mul_rat (new_rat (sub64 slot q.last_updated_at) recover) (to_rat q.total_coin.amount));
      last_updated_at = slot;
    }
  ]

  -- `updateTXFromPendingCoinDayQueue` on the bank's `CoinDay` and the queue, with
  -- `SecondsToRecoverCoinDay` and the time of the block.
  unfoldable pub update_tx_from_pending_coin_day_queue :
      ℤ → ℤ → Coin → PendingCoinDayQueue → Coin × PendingCoinDayQueue
  update_tx_from_pending_coin_day_queue time recover coin_day q =
      let (coin_day', q') = take_ended (time_slot time) recover coin_day q q.pending_coin_days in
      (coin_day', refresh (time_slot time) recover q')

  -- Does the last entry start at `start`?
  unfoldable pub ends_with_slot : ℤ → List PendingCoinDay → Bool
  ends_with_slot start [] = false
  ends_with_slot start (p ∷ []) = eq_ℤ p.start_time start
  ends_with_slot start (p ∷ q ∷ ps) = ends_with_slot start (q ∷ ps)

  -- `addPendingCoinDayToQueue` on a queue that is up to date. When the last entry has the same start
  -- time, the sum that the source computes is dropped, so nothing changes.
  unfoldable pub add_pending_coin_day_to_queue :
      PendingCoinDay → PendingCoinDayQueue → PendingCoinDayQueue
  add_pending_coin_day_to_queue p q =
      if ends_with_slot p.start_time q.pending_coin_days then q else record q {
        pending_coin_days = q.pending_coin_days ++ p ∷ [];
        total_coin = plus q.total_coin p.coin;
      }

  -- The loop of `MinusSavingCoinWithFullCoinDay` and `MinusSavingCoin` over the queue: takes a coin
  -- from the entries in the order in which they are given, and returns what could not be taken.
  unfoldable pub take_coin :
      ℤ → Coin → PendingCoinDayQueue → List PendingCoinDay → Coin × PendingCoinDayQueue
  take_coin recover coin q [] = (coin, record q { pending_coin_days = [] })
  take_coin recover coin q (p ∷ ps) =
      let rest =
        take_coin recover (minus coin p.coin)
          (record q {
            total_coin_day = sub_rat q.total_coin_day (counted recover q.last_updated_at p p.coin);
            total_coin = minus q.total_coin p.coin;
          })
          ps in
      if is_gte coin p.coin then rest else (
        zero_coin,
        record q {
          total_coin_day = sub_rat q.total_coin_day (counted recover q.last_updated_at p coin);
          total_coin = minus q.total_coin coin;
          pending_coin_days = record p { coin = minus p.coin coin } ∷ ps;
        },
      )

  -- `MinusSavingCoinWithFullCoinDay` takes from the first entry on.
  unfoldable pub take_from_front : ℤ → Coin → PendingCoinDayQueue → Coin × PendingCoinDayQueue
  take_from_front recover coin q = take_coin recover coin q q.pending_coin_days

  -- `MinusSavingCoin` takes from the last entry on.
  unfoldable pub take_from_back : ℤ → Coin → PendingCoinDayQueue → Coin × PendingCoinDayQueue
  take_from_back recover coin q =
      let (left, q') = take_coin recover coin q (reversed q.pending_coin_days) in
      (left, record q' { pending_coin_days = reversed q'.pending_coin_days })
