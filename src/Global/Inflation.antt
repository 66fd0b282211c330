-- ===== src/Global/Inflation.antt =====
-- x/global/manager.go: the inflation of each hour and year, the pools that it goes to, the rewards of
-- content and the load of the chain; of param/holder.go, the growth rate.
use lino.Sdk.{Sdk}
use lino.Global.Store.{
  GlobalMethod, GlobalMeta, GlobalAllocationParam, ConsumptionMeta, InflationPool, hours_per_year,
  precision_factor, get_consumption_meta, get_global_meta, get_global_allocation_param,
  get_inflation_pool, get_tps, set_global_meta, set_inflation_pool, set_consumption_meta, set_tps,
}
use lino.Types.Coin.{Coin, rat_to_coin, coin_to_rat, minus, is_zero, plus, zero_coin}
use lino.Prelude.Int.{pos, ℤ, eq_ℤ}
use lino.Prelude.{if◌then◌else◌, some}
use lino.Prelude.Int64.{sub64}
use lino.Prelude.Exec.{pure, ◌>>=◌, ok, ◌>>◌}
use lino.Global.Clock.{get_last_block_time}

module _ ⦃sdk : Sdk⦄ where
  open sdk use {
    Rat, new_rat, zero_rat, add_rat, sub_rat, mul_rat, quo_rat, round_rat, gt_rat, lt_rat,
  }

  abbrev pub hourly_inflation : GlobalMeta → GlobalAllocationParam → Coin
  hourly_inflation meta allocation = rat_to_coin (
      mul_rat (mul_rat (coin_to_rat meta.last_year_total_lino_coin) allocation.global_growth_rate)
        (new_rat (pos 1) hours_per_year))

  abbrev pub share_of : Coin → Rat → Coin
  share_of inflation allocation = rat_to_coin (mul_rat (coin_to_rat inflation) allocation)

  -- The developers get what the other shares leave.
  abbrev pub developer_share : Coin → GlobalAllocationParam → Coin
  developer_share inflation allocation =
      minus
        (minus (minus inflation (share_of inflation allocation.content_creator_allocation))
          (share_of inflation allocation.validator_allocation))
        (share_of inflation allocation.infra_allocation)

  abbrev pub with_shares : Coin → GlobalAllocationParam → InflationPool → InflationPool
  with_shares inflation allocation pool = record {
    infra_inflation_pool =
        plus pool.infra_inflation_pool (share_of inflation allocation.infra_allocation);
    validator_inflation_pool =
        plus pool.validator_inflation_pool (share_of inflation allocation.validator_allocation);
    developer_inflation_pool =
        plus pool.developer_inflation_pool (developer_share inflation allocation);
  }

  -- param.AnnualInflationCeiling, param.AnnualInflationFloor
  abbrev pub annual_inflation_ceiling : Rat
  annual_inflation_ceiling = new_rat (pos 98) (pos 1000)

  abbrev pub annual_inflation_floor : Rat
  annual_inflation_floor = new_rat (pos 3) (pos 100)

  abbrev pub clamp_rate : Rat → Rat
  clamp_rate growth_rate =
      if gt_rat growth_rate annual_inflation_ceiling
      then annual_inflation_ceiling
      else if lt_rat growth_rate annual_inflation_floor
      then annual_inflation_floor
      else growth_rate

  abbrev pub growth_rate_of : GlobalMeta → GlobalAllocationParam → Rat
  growth_rate_of meta allocation =
      if is_zero meta.last_year_cumulative_consumption
      then allocation.global_growth_rate
      else (let last_year = coin_to_rat meta.last_year_cumulative_consumption in
          round_rat
            (quo_rat (sub_rat (coin_to_rat meta.cumulative_consumption) last_year) last_year)
            precision_factor)

  abbrev pub reward_of : Coin → Rat → ConsumptionMeta → Coin
  reward_of evaluate penalty_score meta =
      let ratio =
        round_rat
          (quo_rat
            (mul_rat (coin_to_rat evaluate) (sub_rat (new_rat (pos 1) (pos 1)) penalty_score))
            (coin_to_rat meta.consumption_window))
          precision_factor in
      rat_to_coin (mul_rat (coin_to_rat meta.consumption_reward_pool) ratio)

  abbrev pub measured_tps : ℤ → ℤ → ℤ → Rat
  measured_tps time num_txs last_block_time =
      if eq_ℤ time last_block_time then zero_rat else new_rat num_txs (sub64 time last_block_time)

module _ {Event : Type 0} ⦃sdk : Sdk⦄ where
  open sdk use {
    Rat, new_rat, zero_rat, add_rat, sub_rat, mul_rat, quo_rat, round_rat, gt_rat, lt_rat,
  }

  abbrev pub get_consumption_friction_rate : GlobalMethod Event Rat
  get_consumption_friction_rate = do
    consumption_meta ← get_consumption_meta
    pure consumption_meta.consumption_friction_rate

  abbrev pub get_consumption : GlobalMethod Event Coin
  get_consumption = do global_meta ← get_global_meta; pure global_meta.cumulative_consumption

  unfoldable pub distribute_hourly_inflation : GlobalMethod Event Unit
  distribute_hourly_inflation = do
    allocation ← get_global_allocation_param
    global_meta ← get_global_meta
    pool ← get_inflation_pool
    let inflation = hourly_inflation global_meta allocation
    set_global_meta global_meta
    consumption_meta ← get_consumption_meta
    set_consumption_meta (record consumption_meta {
      consumption_reward_pool =
          plus consumption_meta.consumption_reward_pool
            (share_of inflation allocation.content_creator_allocation);
    })
    set_inflation_pool (with_shares inflation allocation pool)

  unfoldable pub update_global_growth_rate : Rat → GlobalMethod Event Unit
  update_global_growth_rate growth_rate = do
    allocation ← get_global_allocation_param
    λ s. (
      ok tt,
      record s {
        allocation_param = some (record allocation { global_growth_rate = clamp_rate growth_rate });
      },
    )

  unfoldable pub set_total_lino_and_recalculate_growth_rate : GlobalMethod Event Unit
  set_total_lino_and_recalculate_growth_rate = do
    meta ← get_global_meta
    allocation ← get_global_allocation_param
    set_global_meta (record meta {
      last_year_cumulative_consumption = meta.cumulative_consumption;
      cumulative_consumption = zero_coin;
      last_year_total_lino_coin = meta.total_lino_coin;
    })
    update_global_growth_rate (growth_rate_of meta allocation)

  unfoldable pub add_total_lino_coin : Coin → GlobalMethod Event Unit
  add_total_lino_coin new_coin = do
    meta ← get_global_meta
    set_global_meta (record meta { total_lino_coin = plus meta.total_lino_coin new_coin })

  unfoldable pub get_reward_and_pop_from_window : Coin → Rat → GlobalMethod Event Coin
  get_reward_and_pop_from_window evaluate penalty_score =
      if is_zero evaluate then pure zero_coin else do
        meta ← get_consumption_meta
        let reward = reward_of evaluate penalty_score meta
        add_total_lino_coin reward
        set_consumption_meta (record meta {
          consumption_reward_pool = minus meta.consumption_reward_pool reward;
          consumption_window = minus meta.consumption_window evaluate;
        })
        pure reward

  abbrev pub add_consumption : Coin → GlobalMethod Event Unit
  add_consumption coin = do
    meta ← get_global_meta
    set_global_meta (record meta { cumulative_consumption = plus meta.cumulative_consumption coin })

  abbrev pub add_to_developer_inflation_pool : Coin → GlobalMethod Event Unit
  add_to_developer_inflation_pool coin = do
    pool ← get_inflation_pool
    set_inflation_pool
        (record pool { developer_inflation_pool = plus pool.developer_inflation_pool coin })

  abbrev pub add_to_validator_inflation_pool : Coin → GlobalMethod Event Unit
  add_to_validator_inflation_pool coin = do
    pool ← get_inflation_pool
    set_inflation_pool
        (record pool { validator_inflation_pool = plus pool.validator_inflation_pool coin })

  unfoldable pub get_validator_hourly_inflation : GlobalMethod Event Coin
  get_validator_hourly_inflation = do
    pool ← get_inflation_pool
    let res_coin = pool.validator_inflation_pool
    add_total_lino_coin res_coin
    set_inflation_pool (record pool { validator_inflation_pool = zero_coin })
    pure res_coin

  unfoldable pub get_infra_monthly_inflation : GlobalMethod Event Coin
  get_infra_monthly_inflation = do
    pool ← get_inflation_pool
    let res_coin = pool.infra_inflation_pool
    add_total_lino_coin res_coin
    set_inflation_pool (record pool { infra_inflation_pool = zero_coin })
    pure res_coin

  unfoldable pub get_developer_monthly_inflation : GlobalMethod Event Coin
  get_developer_monthly_inflation = do
    pool ← get_inflation_pool
    let res_coin = pool.developer_inflation_pool
    add_total_lino_coin res_coin
    set_inflation_pool (record pool { developer_inflation_pool = zero_coin })
    pure res_coin

  -- `num_txs` is the number of transactions in the block's header.
  unfoldable pub update_tps : ℤ → ℤ → GlobalMethod Event Unit
  update_tps time num_txs = do
    tps ← get_tps
    last_block_time ← get_last_block_time
    let current = measured_tps time num_txs last_block_time
    set_tps (record {
      current_tps = current;
      max_tps = if gt_rat current tps.max_tps then current else tps.max_tps;
    })

  abbrev pub get_tps_capacity_ratio : GlobalMethod Event Rat
  get_tps_capacity_ratio = do
    tps ← get_tps
    pure (round_rat (quo_rat tps.current_tps tps.max_tps) precision_factor)
