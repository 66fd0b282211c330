-- ===== src/Global/Stakes.antt =====
-- x/global/manager.go: the stakes and the frictions of each day, and the interest that a stake earns
-- from the days before. `time` is the time of the block in seconds.
use lino.Sdk.{Sdk}
use lino.Prelude.Int.{ℤ, pos_part, quot_pos, ◌+ℤ◌, ◌-ℤ◌, pos}
use lino.Types.Coin.{Coin, plus, minus, rat_to_coin, coin_to_rat, is_zero, zero_coin}
use lino.Global.Store.{
  LinoStakeStat, GlobalMethod, get_consumption_meta, get_lino_stake_stat, set_lino_stake_stat,
  minutes_per_day, set_consumption_meta,
}
use lino.Prelude.{ℕ, if◌then◌else◌, not, suc, zero, true, false}
use lino.Prelude.Exec.{pure, ◌>>=◌, ◌>>◌}
use lino.Global.Clock.{get_past_day, get_past_minutes, register_event_at_time}
use lino.Prelude.Int64.{add64}

module _ ⦃sdk : Sdk⦄ where
  open sdk use {to_rat, mul_rat, quo_rat}

  abbrev pub with_stake : Coin → LinoStakeStat → LinoStakeStat
  with_stake lino_stake stat = record stat {
    total_lino_stake = plus stat.total_lino_stake lino_stake;
    unclaimed_lino_stake = plus stat.unclaimed_lino_stake lino_stake;
  }

  abbrev pub without_stake : Coin → LinoStakeStat → LinoStakeStat
  without_stake lino_stake stat = record stat {
    total_lino_stake = minus stat.total_lino_stake lino_stake;
    unclaimed_lino_stake = minus stat.unclaimed_lino_stake lino_stake;
  }

  -- The interest of a stake from one day.
  abbrev pub interest_of : Coin → LinoStakeStat → Coin
  interest_of lino_stake stat = rat_to_coin (
      mul_rat (coin_to_rat stat.unclaimed_friction)
        (quo_rat (coin_to_rat lino_stake) (coin_to_rat stat.unclaimed_lino_stake)))

  -- The day after the interest is taken.
  abbrev pub claimed : Coin → LinoStakeStat → LinoStakeStat
  claimed lino_stake stat = record stat {
    unclaimed_friction = minus stat.unclaimed_friction (interest_of lino_stake stat);
    unclaimed_lino_stake = minus stat.unclaimed_lino_stake lino_stake;
  }

  -- The new day starts with the stakes of the last; its frictions too, where nobody had a stake.
  abbrev pub next_stat : LinoStakeStat → LinoStakeStat
  next_stat stat =
      if not (is_zero stat.total_lino_stake)
      then record stat { total_consumption_friction = zero_coin; unclaimed_friction = zero_coin }
      else stat

module _ {Event : Type 0} ⦃sdk : Sdk⦄ where
  open sdk use {to_rat, mul_rat, quo_rat}

  unfoldable pub add_friction_and_register_content_reward_event :
      ℤ → Event → Coin → Coin → GlobalMethod Event Unit
  add_friction_and_register_content_reward_event time event friction evaluate = do
    consumption_meta ← get_consumption_meta
    past_day ← get_past_day time
    stat ← get_lino_stake_stat past_day
    register_event_at_time time (add64 time consumption_meta.consumption_freezing_period_sec) event
    set_consumption_meta (record consumption_meta {
      consumption_window = plus consumption_meta.consumption_window evaluate;
    })
    set_lino_stake_stat past_day (record stat {
      total_consumption_friction = plus stat.total_consumption_friction friction;
      unclaimed_friction = plus stat.unclaimed_friction friction;
    })

  unfoldable pub add_lino_stake_to_stat : ℤ → Coin → GlobalMethod Event Unit
  add_lino_stake_to_stat time lino_stake = do
    past_day ← get_past_day time
    stat ← get_lino_stake_stat past_day
    set_lino_stake_stat past_day (with_stake lino_stake stat)

  unfoldable pub minus_lino_stake_from_stat : ℤ → Coin → GlobalMethod Event Unit
  minus_lino_stake_from_stat time lino_stake = do
    past_day ← get_past_day time
    stat ← get_lino_stake_stat past_day
    set_lino_stake_stat past_day (without_stake lino_stake stat)

  -- The loop of `GetInterestSince` over `rounds` days from `day`.
  unfoldable pub claim_days : Coin → (rounds : ℕ) → ℤ → Coin → GlobalMethod Event Coin
  claim_days lino_stake zero day total_interest = pure total_interest
  claim_days lino_stake (suc rounds) day total_interest = do
    stat ← get_lino_stake_stat day
    elim (is_zero stat.unclaimed_lino_stake) [
      | true ↦ claim_days lino_stake rounds (day +ℤ pos 1) total_interest
      | false ↦
          set_lino_stake_stat day (claimed lino_stake stat)
          >> claim_days lino_stake rounds (day +ℤ pos 1)
              (plus total_interest (interest_of lino_stake stat))
    ]

  unfoldable pub get_interest_since : ℤ → ℤ → Coin → GlobalMethod Event Coin
  get_interest_since time unix_time lino_stake = do
    start_day ← get_past_day unix_time
    end_day ← get_past_day time
    claim_days lino_stake (pos_part (end_day -ℤ start_day)) start_day zero_coin

  unfoldable pub record_consumption_and_lino_stake : GlobalMethod Event Unit
  record_consumption_and_lino_stake = do
    past_minutes ← get_past_minutes
    let today = quot_pos past_minutes minutes_per_day
    last_stat ← get_lino_stake_stat (today -ℤ pos 1)
    set_lino_stake_stat today (next_stat last_stat)
