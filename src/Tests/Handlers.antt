-- ===== src/Tests/Handlers.antt =====
-- The handlers at concrete inputs.
use lino.Tests.Ints.{test_sdk, coins}
use lino.Global.Store.{GlobalStore}
use lino.Handlers.Store.{AppStore, return_coin_to, AppEvent, return_events}
use lino.Types.Coin.{lino_to_coin}
use lino.Prelude.Table.{insert, empty, string_key}
use lino.Global.Schedule.{NotPast, return_time}
use lino.Handlers.Withdraw.{Withdrawn, handle_withdraw_lem}
use lino.Validator.Invariant.{IsValid}
use lino.Developer.Manager.{DeveloperStore}
use lino.Developer.Registry.{Refines, register, attempt}
use lino.Tests.Bank.{one_bank, bank, limits}
use lino.Prelude.{◌≡◌, none, some, [], ◌∷◌, refl, ◌⊎◌, List, true, false}
use lino.Prelude.Int.{pos}
use lino.Handlers.Validator.{begin_block_validators, handle_withdraw_msg}
use lino.Prelude.Exec.{err, ok}
use lino.Tests.Validator.{
  params, two_validators, two_validators-IsValid, one_le_fifty, bob_may_withdraw,
}
use lino.Types.Errors.{frozen_money_list_too_long}
use lino.Developer.Refinement.{attempt-Refines}
use lino.Account.CoinReturn.{create_coin_return_events}
use lino.Handlers.Blocks.{begin_block-IsValid}
use lino.Handlers.Return.{Schedules, Froze, Elsewhere, return_coin_to_lem, is_full}
use lino.Account.Bank.{FrozenMoney}
use lino.Account.Frozen.{Cleaned}

abbrev pub no_events : GlobalStore AppEvent
no_events = record {
  time_event_lists = empty;
  lino_stake_stats = empty;
  global_meta = none;
  inflation_pool = none;
  consumption_meta = none;
  tps = none;
  global_time = none;
  allocation_param = none;
  change_param_execution_sec = none;
}

abbrev pub app : AppStore
app = record {
  bank = record one_bank { banks = insert "bob" bank empty };
  votes = record {
    voters = empty;
    votes = empty;
    delegations = empty;
    delegatees = empty;
    reference_list = none;
    validator_min_voting_deposit = none;
  };
  validators = two_validators;
  developers = record { developers = empty; developer_list = some []; developer_param = none };
  reputation = record {
    scores = record {
      user_metas = empty;
      post_metas = empty;
      user_post_metas = empty;
      round_metas = empty;
      round_post_metas = empty;
      round_user_post_metas = empty;
      game_meta = none;
      best_content_index_n = 10;
    };
    best_content_index_param = some 10;
  };
  global = no_events;
  vote_param = none;
}

fifty : lino_to_coin "0.0005" ≡ some (coins 50)
unfolding lino_to_coin lino.Prelude.Int.◌*ℤ◌ lino.Types.Coin.new_coin_from_int64
    lino.Types.Coin.rat_to_coin lino.Prelude.Int.div_pos
fifty = refl

at_bob : app.bank.banks "bob" ≡ some bank
unfolding insert
at_bob = refl

no_round_past :
    NotPast
      (pos 100)
      (return_time (pos 100) (pos 60))
      0
      (return_events (create_coin_return_events "bob" (pos 2) (pos 60) (coins 50) (pos 8)))
unfolding create_coin_return_events lino.Account.CoinReturn.return_pieces lino.Prelude.Int64.wrap64
    lino.Prelude.Int.◌+ℤ◌ lino.Prelude.Int.◌*ℤ◌
no_round_past = (refl, (refl, tt))

return_coin_to_example :
    let (r, s') = return_coin_to (pos 100) "bob" (pos 2) (pos 60) (coins 50) (pos 8) app in
    (kept : List FrozenMoney) × Cleaned (pos 100) bank.frozen_money_list kept
    × (((is_full limits kept ≡ true) × (r ≡ err frozen_money_list_too_long) × (s' ≡ app))
        ⊎ ((is_full limits kept ≡ false)
            × (r ≡ ok tt)
            × Schedules (pos 100) (pos 60) "bob" 1 (coins 50) app s'
            × Froze (pos 100) (pos 60) "bob" 1 (coins 50) limits bank kept app s'
            × Elsewhere app s'))
return_coin_to_example =
    return_coin_to_lem (pos 100) (pos 60) "bob" 1 (coins 50) (pos 8) app bank limits at_bob refl
      no_round_past

-- The user has no frozen money, and ten entries are allowed: the coin is given back.
coin_returned : (return_coin_to (pos 100) "bob" (pos 2) (pos 60) (coins 50) (pos 8) app).0 ≡ ok tt
unfolding return_coin_to lino.Account.Frozen.add_frozen_money insert
    lino.Account.Frozen.clean_expired_frozen_money lino.Global.Clock.register_coin_return_event
    lino.Global.Clock.register_from create_coin_return_events lino.Account.CoinReturn.return_pieces
    lino.Global.Clock.register_event_at_time lino.Prelude.Int64.wrap64 lino.Prelude.Int.◌+ℤ◌
    lino.Prelude.Int.◌*ℤ◌
coin_returned = refl

no_week_past :
    NotPast
      (pos 100)
      (return_time (pos 100) (pos 604_800))
      0
      (return_events (create_coin_return_events "bob" (pos 7) (pos 604_800) (coins 50) (pos 8)))
unfolding create_coin_return_events lino.Account.CoinReturn.return_pieces lino.Prelude.Int64.wrap64
    lino.Prelude.Int.◌+ℤ◌ lino.Prelude.Int.◌*ℤ◌
no_week_past = (refl, (refl, (refl, (refl, (refl, (refl, (refl, tt)))))))

handle_withdraw_example :
    Withdrawn
      (pos 100)
      (pos 604_800)
      "bob"
      (coins 50)
      6
      params
      bank
      limits
      app
      (handle_withdraw_msg (pos 100) "bob" "0.0005" app)
handle_withdraw_example =
    handle_withdraw_lem (pos 100) "bob" "0.0005" (coins 50) 6 app bank limits params fifty
      one_le_fifty bob_may_withdraw at_bob refl refl refl no_week_past

begin_block-IsValid_example : IsValid (begin_block_validators [] ("alice" ∷ []) two_validators).1
begin_block-IsValid_example =
    begin_block-IsValid [] ("alice" ∷ []) two_validators two_validators-IsValid

abbrev no_developers : DeveloperStore
no_developers = record {
  developers = empty;
  developer_list = some [];
  developer_param = some (record {
    developer_min_deposit = coins 10;
    developer_coin_return_interval_sec = pos 60;
    developer_coin_return_times = pos 2;
  });
}

attempt-Refines_example :
    Refines
      (register "dev" (coins 20) "" "" "")
      no_developers
      (attempt (register "dev" (coins 20) "" "" "") no_developers)
attempt-Refines_example =
    attempt-Refines (register "dev" (coins 20) "" "" "") no_developers ([], refl, tt, λ j. refl)
