-- ===== src/Global/Store.antt =====
-- x/global/model: the records of the chain as a whole and the store that holds them; of param, the
-- parameters that the global manager reads. What an event holds is left open, as in the source, where
-- it is an `interface{}`.
use lino.Sdk.{Sdk}
use lino.Prelude.{ℕ, List, Option, some}
use lino.Prelude.Int.{ℤ, pos}
use lino.Types.Coin.{Coin, zero_coin}
use lino.Prelude.Table.{Table, erase, insert, int_key}
use lino.Prelude.Exec.{Exec, require, ok, ◌>>◌}
use lino.Types.Errors.{
  Error, lino_stake_statistic_not_found, global_meta_not_found, inflation_pool_not_found,
  global_consumption_meta_not_found, global_tps_not_found, global_time_not_found,
  global_allocation_param_not_found, param_not_found,
}

-- types.MinutesPerDay, types.HoursPerYear, types.PrecisionFactor
abbrev pub minutes_per_day : ℕ
minutes_per_day = 1440

abbrev pub hours_per_year : ℤ
hours_per_year = pos 8766

abbrev pub precision_factor : ℤ
precision_factor = pos 10_000_000

module _ ⦃sdk : Sdk⦄ where
  open sdk use {Rat, new_rat, zero_rat, gt_rat, lt_rat}

  pub record GlobalMeta : Type 0 where
    pub total_lino_coin : Coin
    pub last_year_total_lino_coin : Coin
    pub last_year_cumulative_consumption : Coin
    pub cumulative_consumption : Coin

  pub record GlobalTime : Type 0 where
    pub chain_start_time : ℤ
    pub last_block_time : ℤ
    pub past_minutes : ℤ

  pub record LinoStakeStat : Type 0 where
    pub total_consumption_friction : Coin
    pub unclaimed_friction : Coin
    pub total_lino_stake : Coin
    pub unclaimed_lino_stake : Coin

  pub record Tps : Type 0 where
    pub current_tps : Rat
    pub max_tps : Rat

  pub record InflationPool : Type 0 where
    pub infra_inflation_pool : Coin
    pub developer_inflation_pool : Coin
    pub validator_inflation_pool : Coin

  pub record ConsumptionMeta : Type 0 where
    pub consumption_friction_rate : Rat
    pub consumption_window : Coin
    pub consumption_reward_pool : Coin
    pub consumption_freezing_period_sec : ℤ

  pub record InitParamList : Type 0 where
    pub init_max_tps : Rat
    pub init_consumption_friction_rate : Rat
    pub init_consumption_freezing_period_sec : ℤ

  pub record GlobalAllocationParam : Type 0 where
    pub global_growth_rate : Rat
    pub infra_allocation : Rat
    pub content_creator_allocation : Rat
    pub developer_allocation : Rat
    pub validator_allocation : Rat

  -- Of the proposal parameters, the delay of a parameter change.
  pub record GlobalStore (Event : Type 0) : Type 0 where
    pub time_event_lists : Table ℤ (List Event)
    pub lino_stake_stats : Table ℤ LinoStakeStat
    pub global_meta : Option GlobalMeta
    pub inflation_pool : Option InflationPool
    pub consumption_meta : Option ConsumptionMeta
    pub tps : Option Tps
    pub global_time : Option GlobalTime
    pub allocation_param : Option GlobalAllocationParam
    pub change_param_execution_sec : Option ℤ

  abbrev pub GlobalMethod : Type 0 → Type 0 → Type 0
  GlobalMethod Event A = Exec Error (GlobalStore Event) A

  module _ {Event : Type 0} where
    abbrev pub get_time_event_list : ℤ → GlobalMethod Event (Option (List Event))
    get_time_event_list unix_time s = (ok (s.time_event_lists unix_time), s)

    abbrev pub set_time_event_list : ℤ → List Event → GlobalMethod Event Unit
    set_time_event_list unix_time lst s =
        (ok tt, record s { time_event_lists = insert unix_time lst s.time_event_lists })

    abbrev pub remove_time_event_list : ℤ → GlobalMethod Event Unit
    remove_time_event_list unix_time s =
        (ok tt, record s { time_event_lists = erase unix_time s.time_event_lists })

    abbrev pub set_lino_stake_stat : ℤ → LinoStakeStat → GlobalMethod Event Unit
    set_lino_stake_stat day lps s =
        (ok tt, record s { lino_stake_stats = insert day lps s.lino_stake_stats })

    abbrev pub get_lino_stake_stat : ℤ → GlobalMethod Event LinoStakeStat
    get_lino_stake_stat day = require lino_stake_statistic_not_found (λ s. s.lino_stake_stats day)

    abbrev pub get_global_meta : GlobalMethod Event GlobalMeta
    get_global_meta = require global_meta_not_found (λ s. s.global_meta)

    abbrev pub set_global_meta : GlobalMeta → GlobalMethod Event Unit
    set_global_meta global_meta s = (ok tt, record s { global_meta = some global_meta })

    abbrev pub get_inflation_pool : GlobalMethod Event InflationPool
    get_inflation_pool = require inflation_pool_not_found (λ s. s.inflation_pool)

    abbrev pub set_inflation_pool : InflationPool → GlobalMethod Event Unit
    set_inflation_pool pool s = (ok tt, record s { inflation_pool = some pool })

    abbrev pub get_consumption_meta : GlobalMethod Event ConsumptionMeta
    get_consumption_meta = require global_consumption_meta_not_found (λ s. s.consumption_meta)

    abbrev pub set_consumption_meta : ConsumptionMeta → GlobalMethod Event Unit
    set_consumption_meta meta s = (ok tt, record s { consumption_meta = some meta })

    abbrev pub get_tps : GlobalMethod Event Tps
    get_tps = require global_tps_not_found (λ s. s.tps)

    abbrev pub set_tps : Tps → GlobalMethod Event Unit
    set_tps tps s = (ok tt, record s { tps = some tps })

    abbrev pub get_global_time : GlobalMethod Event GlobalTime
    get_global_time = require global_time_not_found (λ s. s.global_time)

    abbrev pub set_global_time : GlobalTime → GlobalMethod Event Unit
    set_global_time time s = (ok tt, record s { global_time = some time })

    abbrev pub get_global_allocation_param : GlobalMethod Event GlobalAllocationParam
    get_global_allocation_param =
        require global_allocation_param_not_found (λ s. s.allocation_param)

    abbrev pub get_change_param_execution_sec : GlobalMethod Event ℤ
    get_change_param_execution_sec = require param_not_found (λ s. s.change_param_execution_sec)

    -- `InflationPool{}` has the zero of every amount.
    unfoldable pub init_global_state_with_config : Coin → InitParamList → GlobalMethod Event Unit
    init_global_state_with_config total_lino param = do
      set_global_meta (record {
        total_lino_coin = total_lino;
        last_year_total_lino_coin = total_lino;
        last_year_cumulative_consumption = zero_coin;
        cumulative_consumption = zero_coin;
      })
      set_inflation_pool (record {
        infra_inflation_pool = zero_coin;
        developer_inflation_pool = zero_coin;
        validator_inflation_pool = zero_coin;
      })
      set_global_time
          (record { chain_start_time = pos 0; last_block_time = pos 0; past_minutes = pos 0 })
      set_consumption_meta (record {
        consumption_friction_rate = param.init_consumption_friction_rate;
        consumption_window = zero_coin;
        consumption_reward_pool = zero_coin;
        consumption_freezing_period_sec = param.init_consumption_freezing_period_sec;
      })
      set_tps (record { current_tps = zero_rat; max_tps = param.init_max_tps })
      set_lino_stake_stat (pos 0) (record {
        total_consumption_friction = zero_coin;
        unclaimed_friction = zero_coin;
        total_lino_stake = zero_coin;
        unclaimed_lino_stake = zero_coin;
      })

    unfoldable pub init_global_state : Coin → GlobalMethod Event Unit
    init_global_state total_lino = init_global_state_with_config total_lino (record {
      init_max_tps = new_rat (pos 1000) (pos 1);
      init_consumption_freezing_period_sec = pos 604_800;
      init_consumption_friction_rate = new_rat (pos 5) (pos 100);
    })
