-- ===== src/Tests/Queue.antt =====
-- x/account: a queue of two pending coin days, and the theorems at it.
use lino.Tests.Ints.{test_sdk, coins}
use lino.Prelude.{ℕ, ◌+◌, ◌∷◌, refl, [], ◌≡◌, ◌⊎◌, ◌++◌}
use lino.Account.CoinDay.{
  PendingCoinDayQueue, update_tx_from_pending_coin_day_queue, add_pending_coin_day_to_queue,
  PendingCoinDay, take_from_front, take_from_back,
}
use lino.Types.Coin.{new_coin_from_int64, worth}
use lino.Account.Queue.{
  IsTaken, IsExact, take_coin-IsTaken, sum_coins, update_tx_lem, add_pending_lem, EndsAt,
  EndsElsewhere,
}
use lino.Prelude.Int.{pos, ◌+ℤ◌}

abbrev pending_at : ℕ → ℕ → PendingCoinDay
pending_at start n = record {
  start_time = pos start;
  end_time = pos (start + 604800);
  coin = coins n;
}

abbrev pub two_pending : PendingCoinDayQueue
two_pending = record {
  last_updated_at = pos 2400;
  total_coin_day = (pos 0, pos 1);
  total_coin = coins 70;
  pending_coin_days = pending_at 1200 30 ∷ pending_at 2400 40 ∷ [];
}

pub two_pending-IsExact : IsExact two_pending
unfolding new_coin_from_int64 ◌+ℤ◌
two_pending-IsExact = refl

update_tx_example :
    let (coin_day', q') =
      update_tx_from_pending_coin_day_queue (pos 607000) (pos 604800) (coins 5) two_pending in
    IsExact q'
    × (worth coin_day' +ℤ sum_coins q'.pending_coin_days
        ≡ worth (coins 5) +ℤ sum_coins two_pending.pending_coin_days)
update_tx_example =
    update_tx_lem (pos 607000) (pos 604800) (coins 5) two_pending two_pending-IsExact

take_coin-IsTaken_example :
    IsTaken (coins 50) two_pending (take_from_front (pos 604800) (coins 50) two_pending)
    × IsTaken (coins 50) two_pending (take_from_back (pos 604800) (coins 50) two_pending)
take_coin-IsTaken_example =
    take_coin-IsTaken (pos 604800) (coins 50) two_pending two_pending-IsExact

add_pending_example :
    let q' = add_pending_coin_day_to_queue (pending_at 2400 9) two_pending in
    IsExact q'
    × ((EndsAt (pos 2400) two_pending.pending_coin_days × (q' ≡ two_pending))
        ⊎ (EndsElsewhere (pos 2400) two_pending.pending_coin_days
            × (q'.pending_coin_days ≡ two_pending.pending_coin_days ++ pending_at 2400 9 ∷ [])
            × (sum_coins q'.pending_coin_days
                ≡ sum_coins two_pending.pending_coin_days +ℤ worth (pending_at 2400 9).coin)))
add_pending_example = add_pending_lem (pending_at 2400 9) two_pending two_pending-IsExact
