-- ===== src/Global/Growth.antt =====
-- The growth rate of x/global/manager.go and param/holder.go.
use lino.Sdk.{Sdk}
use lino.Global.Inflation.{
  set_total_lino_and_recalculate_growth_rate, update_global_growth_rate, annual_inflation_floor,
  annual_inflation_ceiling, clamp_rate, growth_rate_of,
}
use lino.Global.Store.{GlobalStore, GlobalMeta, GlobalAllocationParam}
use lino.Prelude.{◌≡◌, some, false, arith, ap}
use lino.Prelude.Exec.{ok}
use lino.Types.Coin.{zero_coin}

module _ ⦃sdk : Sdk⦄ where
  open sdk use {Rat, gt_rat, lt_rat, gt_irrefl, lt_irrefl}

  clamp-ceiling :
      (rate : Rat)
      → gt_rat annual_inflation_floor annual_inflation_ceiling ≡ false
      → gt_rat (clamp_rate rate) annual_inflation_ceiling ≡ false
  clamp-ceiling rate h = ground (arith, gt_irrefl annual_inflation_ceiling)

  clamp-floor :
      (rate : Rat)
      → lt_rat annual_inflation_ceiling annual_inflation_floor ≡ false
      → lt_rat (clamp_rate rate) annual_inflation_floor ≡ false
  clamp-floor rate h = ground (arith, lt_irrefl annual_inflation_floor)

module _ {Event : Type 0} ⦃sdk : Sdk⦄ where
  open sdk use {Rat, gt_rat, lt_rat, gt_irrefl, lt_irrefl}

  closed :
      (s : GlobalStore Event) (meta : GlobalMeta) (allocation : GlobalAllocationParam)
      → s.global_meta ≡ some meta
      → s.allocation_param ≡ some allocation
      → set_total_lino_and_recalculate_growth_rate s ≡ (
        ok tt,
        record s {
          global_meta = some (record {
            total_lino_coin = meta.total_lino_coin;
            last_year_total_lino_coin = meta.total_lino_coin;
            last_year_cumulative_consumption = meta.cumulative_consumption;
            cumulative_consumption = zero_coin;
          });
          allocation_param = some (record allocation {
            global_growth_rate = clamp_rate (growth_rate_of meta allocation);
          });
        },
      )
  unfolding set_total_lino_and_recalculate_growth_rate update_global_growth_rate
  closed s meta allocation em ea = ground arith

  -- Closing a year, where the records are there: it succeeds, the consumption and the coins of this
  -- year become those of the last, the year's count starts at zero, and the growth rate that is stored
  -- is neither above the ceiling nor below the floor, whatever the two years consumed, if the ceiling is
  -- not below the floor and the floor not above the ceiling.
  pub close_year_lem :
      (s : GlobalStore Event) (meta : GlobalMeta) (allocation : GlobalAllocationParam)
      → s.global_meta ≡ some meta
      → s.allocation_param ≡ some allocation
      → gt_rat annual_inflation_floor annual_inflation_ceiling ≡ false
      → lt_rat annual_inflation_ceiling annual_inflation_floor ≡ false
      → let (r, s') = set_total_lino_and_recalculate_growth_rate s in
        (r ≡ ok tt)
        × (s'.global_meta
            ≡ some (record {
              total_lino_coin = meta.total_lino_coin;
              last_year_total_lino_coin = meta.total_lino_coin;
              last_year_cumulative_consumption = meta.cumulative_consumption;
              cumulative_consumption = zero_coin;
            }))
        × ((rate : Rat) × (s'.allocation_param
              ≡ some (record allocation { global_growth_rate = rate }))
            × (gt_rat rate annual_inflation_ceiling ≡ false)
            × (lt_rat rate annual_inflation_floor ≡ false))
  close_year_lem s meta allocation em ea floor ceiling =
      let done = closed s meta allocation em ea in
      let rate = growth_rate_of meta allocation in
      (
        ap (λ x. x.0) done,
        ap (λ x. x.1.global_meta) done,
        (
          clamp_rate rate,
          ap (λ x. x.1.allocation_param) done,
          clamp-ceiling rate floor,
          clamp-floor rate ceiling,
        ),
      )
