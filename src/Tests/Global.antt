-- ===== src/Tests/Global.antt =====
-- The properties of the global records at concrete inputs.
use lino.Tests.Ints.{test_sdk, coins}
use lino.Global.Store.{GlobalMeta, GlobalAllocationParam, GlobalStore, LinoStakeStat}
use lino.Prelude.{
  ℕ, List, map, String, ◌≡◌, ◌∷◌, refl, some, [], none, ◌++◌, true, false, suc, zero,
}
use lino.Prelude.Table.{Table, empty}
use lino.Global.Supply.{issued}
use lino.Global.Issue.{
  issue_all, PoolOperation, perform_all, distribute_hour, pay_validators, issued-perform_all,
  pay_content, fund_developers, pay_developers, close_year,
}
use lino.Global.Stakes.{get_interest_since}
use lino.Global.Inflation.{
  set_total_lino_and_recalculate_growth_rate, annual_inflation_ceiling, annual_inflation_floor,
}
use lino.Global.Clock.{register_coin_return_event, get_time_event_list_at_time}
use lino.Prelude.Lists.{length, All}
use lino.Prelude.Int.{pos, ℤ, ◌+ℤ◌, ltb_ℤ}
use lino.Account.CoinReturn.{
  ReturnCoinEvent, create_coin_return_events, returned, create_coin_return_events_lem,
}
use lino.Types.Coin.{Coin, worth, zero_coin}
use lino.Prelude.Exec.{ok}
use lino.Global.Interest.{unclaimed_from, get_interest_since_lem}
use lino.Global.Schedule.{due, return_time, register_coin_return_event_lem}
use lino.Global.Growth.{close_year_lem}

abbrev meta : GlobalMeta
meta = record {
  total_lino_coin = coins 1000;
  last_year_total_lino_coin = coins 900_000;
  last_year_cumulative_consumption = coins 100;
  cumulative_consumption = coins 120;
}

abbrev allocation : GlobalAllocationParam
allocation = record {
  global_growth_rate = (pos 98, pos 1000);
  infra_allocation = (pos 20, pos 100);
  content_creator_allocation = (pos 50, pos 100);
  developer_allocation = (pos 20, pos 100);
  validator_allocation = (pos 10, pos 100);
}

abbrev stat : ℕ → ℕ → LinoStakeStat
stat friction stake = record {
  total_consumption_friction = coins friction;
  unclaimed_friction = coins friction;
  total_lino_stake = coins stake;
  unclaimed_lino_stake = coins stake;
}

-- Three days, of which nobody had a stake on the second.
abbrev stats : Table ℤ LinoStakeStat
stats (pos zero) = some (stat 100 40)
stats (pos (suc zero)) = some (stat 70 0)
stats (pos (suc (suc zero))) = some (stat 30 20)
stats _ = none

abbrev chain : GlobalStore String
chain = record {
  time_event_lists = empty;
  lino_stake_stats = stats;
  global_meta = some meta;
  inflation_pool = some (record {
    infra_inflation_pool = coins 5;
    developer_inflation_pool = coins 6;
    validator_inflation_pool = coins 7;
  });
  consumption_meta = some (record {
    consumption_friction_rate = (pos 5, pos 100);
    consumption_window = coins 50;
    consumption_reward_pool = coins 200;
    consumption_freezing_period_sec = pos 604_800;
  });
  tps = none;
  global_time =
      some (record { chain_start_time = pos 0; last_block_time = pos 0; past_minutes = pos 0 });
  allocation_param = some allocation;
  change_param_execution_sec = none;
}

abbrev operations : List PoolOperation
operations =
    distribute_hour
    ∷ pay_validators
    ∷ pay_content (coins 10) (pos 0, pos 1)
    ∷ fund_developers (coins 3)
    ∷ pay_developers
    ∷ close_year
    ∷ []

issued-perform_all_example :
    issued (perform_all operations chain) ≡ issued chain +ℤ issue_all operations chain
issued-perform_all_example = issued-perform_all operations chain

issue_all_runs : issue_all operations chain ≡ pos 13
unfolding ◌+ℤ◌ lino.Types.Coin.rat_to_coin lino.Prelude.Int.div_pos lino.Prelude.Int.◌*ℤ◌
    lino.Types.Coin.new_coin_from_int64 lino.Global.Inflation.get_reward_and_pop_from_window
    lino.Types.Coin.is_zero lino.Global.Inflation.get_validator_hourly_inflation
    lino.Global.Inflation.distribute_hourly_inflation lino.Global.Inflation.add_total_lino_coin
issue_all_runs = refl

get_interest_since_example :
    let (r, s') = get_interest_since (pos 200_000) (pos 0) (coins 10) chain in
    (interest : Coin) × (r ≡ ok interest)
    × (unclaimed_from 2 (pos 0) s'.lino_stake_stats +ℤ worth interest
        ≡ unclaimed_from 2 (pos 0) chain.lino_stake_stats)
    × ((j : ℤ) → ltb_ℤ j (pos 0) ≡ true → s'.lino_stake_stats j ≡ chain.lino_stake_stats j)
unfolding lino.Prelude.Int.◌-ℤ◌ lino.Prelude.Int.quot_pos lino.Prelude.Int64.wrap64 ◌+ℤ◌
get_interest_since_example =
    get_interest_since_lem (pos 200_000) (pos 0) (coins 10) chain
      (record { chain_start_time = pos 0; last_block_time = pos 0; past_minutes = pos 0 }) refl
      ((stat 100 40, refl), ((stat 70 0, refl), tt))

interest_runs : (get_interest_since (pos 200_000) (pos 0) (coins 10) chain).0 ≡ ok (coins 25)
unfolding get_interest_since lino.Global.Stakes.claim_days lino.Prelude.Int.◌-ℤ◌
    lino.Prelude.Int.quot_pos lino.Prelude.Int64.wrap64 lino.Types.Coin.is_zero
    lino.Types.Coin.new_coin_from_int64 lino.Prelude.Table.insert ◌+ℤ◌ lino.Types.Coin.plus
    lino.Types.Coin.rat_to_coin lino.Prelude.Int.div_pos lino.Prelude.Int.◌*ℤ◌
interest_runs = refl

close_year_example :
    let (r, s') = set_total_lino_and_recalculate_growth_rate chain in
    (r ≡ ok tt)
    × (s'.global_meta
        ≡ some (record {
          total_lino_coin = meta.total_lino_coin;
          last_year_total_lino_coin = meta.total_lino_coin;
          last_year_cumulative_consumption = meta.cumulative_consumption;
          cumulative_consumption = zero_coin;
        }))
    × ((rate : ℤ × ℤ) × (s'.allocation_param
          ≡ some (record allocation { global_growth_rate = rate }))
        × (test_sdk.gt_rat rate annual_inflation_ceiling ≡ false)
        × (test_sdk.lt_rat rate annual_inflation_floor ≡ false))
unfolding lino.Prelude.Int.◌*ℤ◌
close_year_example = close_year_lem chain meta allocation refl refl refl refl

register_coin_return_event_example :
    let (r, s') =
      register_coin_return_event (pos 100) ("a" ∷ "b" ∷ "c" ∷ []) (pos 3) (pos 60) chain in
    (r ≡ ok tt)
    × ((j : ℤ)
        → get_time_event_list_at_time j s'
          ≡ get_time_event_list_at_time j chain
            ++ due (return_time (pos 100) (pos 60)) 0 ("a" ∷ "b" ∷ "c" ∷ []) j)
unfolding lino.Prelude.Int64.wrap64 ◌+ℤ◌ lino.Prelude.Int.◌*ℤ◌
register_coin_return_event_example =
    register_coin_return_event_lem (pos 100) (pos 60) ("a" ∷ "b" ∷ "c" ∷ []) chain
      (refl, (refl, (refl, tt)))

abbrev returns : List ReturnCoinEvent
returns = create_coin_return_events "ann" (pos 3) (pos 60) (coins 100) (pos 6)

create_coin_return_events_example :
    (length returns ≡ 3)
    × (returned returns ≡ pos 100)
    × All (λ event. (event.username ≡ "ann") × (event.return_type ≡ pos 6)) returns
unfolding lino.Types.Coin.new_coin_from_int64
create_coin_return_events_example =
    create_coin_return_events_lem "ann" 2 (pos 60) (coins 100) (pos 6)

returns_run : map (λ event. event.amount) returns ≡ coins 33 ∷ coins 33 ∷ coins 34 ∷ []
unfolding create_coin_return_events lino.Account.CoinReturn.return_pieces
    lino.Types.Coin.new_coin_from_int64 lino.Types.Coin.rat_to_coin lino.Prelude.Int.div_pos
    lino.Prelude.Int.◌*ℤ◌ lino.Types.Coin.minus lino.Prelude.Int.◌-ℤ◌
returns_run = refl
