-- ===== src/Global/Clock.antt =====
-- x/global/manager.go: the times that the chain keeps and the events registered at them. `time` is the
-- time of the block in seconds.
use lino.Sdk.{Sdk}
use lino.Global.Store.{
  GlobalMethod, GlobalTime, GlobalStore, get_global_time, get_change_param_execution_sec,
  set_global_time, get_time_event_list, set_time_event_list,
}
use lino.Prelude.Int.{ℤ, quot_pos, ltb_ℤ, pos, pos_part}
use lino.Prelude.{ℕ, List, [], if◌then◌else◌, suc, ◌∷◌, none, some, ◌++◌, ◌+◌, zero}
use lino.Prelude.Table.{get_or}
use lino.Prelude.Int64.{sub64, add64, mul64}
use lino.Prelude.Exec.{raise, pure, ◌>>=◌, ◌>>◌}
use lino.Types.Errors.{register_expired_event, panicked}

module _ ⦃sdk : Sdk⦄ where
  -- The number of whole days from the start of the chain; 0 before it.
  abbrev pub days_since : ℤ → GlobalTime → ℤ
  days_since unix_time global_time =
      let past_day = quot_pos (sub64 unix_time global_time.chain_start_time) 86400 in
      if ltb_ℤ past_day (pos 0) then pos 0 else past_day

module _ {Event : Type 0} ⦃sdk : Sdk⦄ where
  abbrev pub get_last_block_time : GlobalMethod Event ℤ
  get_last_block_time = do global_time ← get_global_time; pure global_time.last_block_time

  abbrev pub set_last_block_time : ℤ → GlobalMethod Event Unit
  set_last_block_time unix_time = do
    global_time ← get_global_time
    set_global_time (record global_time { last_block_time = unix_time })

  abbrev pub get_past_day : ℤ → GlobalMethod Event ℤ
  get_past_day unix_time = do global_time ← get_global_time; pure (days_since unix_time global_time)

  abbrev pub get_chain_start_time : GlobalMethod Event ℤ
  get_chain_start_time = do global_time ← get_global_time; pure global_time.chain_start_time

  abbrev pub set_chain_start_time : ℤ → GlobalMethod Event Unit
  set_chain_start_time unix_time = do
    global_time ← get_global_time
    set_global_time (record global_time { chain_start_time = unix_time })

  abbrev pub get_past_minutes : GlobalMethod Event ℤ
  get_past_minutes = do global_time ← get_global_time; pure global_time.past_minutes

  abbrev pub set_past_minutes : ℤ → GlobalMethod Event Unit
  set_past_minutes minutes = do
    global_time ← get_global_time
    set_global_time (record global_time { past_minutes = minutes })

  abbrev pub get_time_event_list_at_time : ℤ → GlobalStore Event → List Event
  get_time_event_list_at_time unix_time s = get_or unix_time [] s.time_event_lists

  unfoldable pub register_event_at_time : ℤ → ℤ → Event → GlobalMethod Event Unit
  register_event_at_time time unix_time event =
      if ltb_ℤ unix_time time then raise register_expired_event else do
        found ← get_time_event_list unix_time
        let event_list : List Event = elim found [ none ↦ [] | some lst ↦ lst ]
        set_time_event_list unix_time (event_list ++ event ∷ [])

  -- `RegisterCoinReturnEvent` from round `i`: `events[i]` is the first of the events left, `rounds` the
  -- rounds left. Without it the index is out of range, which panics.
  unfoldable pub register_from : ℤ → ℤ → (i rounds : ℕ) → List Event → GlobalMethod Event Unit
  register_from time interval_sec i zero events = pure tt
  register_from time interval_sec i (suc rounds) [] = raise (panicked register_expired_event)
  register_from time interval_sec i (suc rounds) (event ∷ events) =
      register_event_at_time time (add64 time (mul64 interval_sec (add64 (pos i) (pos 1)))) event
      >> register_from time interval_sec (i + 1) rounds events

  unfoldable pub register_coin_return_event : ℤ → List Event → ℤ → ℤ → GlobalMethod Event Unit
  register_coin_return_event time events times interval_sec =
      register_from time interval_sec 0 (pos_part times) events

  abbrev pub register_proposal_decide_event : ℤ → ℤ → Event → GlobalMethod Event Unit
  register_proposal_decide_event time decide_sec event =
      register_event_at_time time (add64 time decide_sec) event

  unfoldable pub register_param_change_event : ℤ → Event → GlobalMethod Event Unit
  register_param_change_event time event = do
    execution_sec ← get_change_param_execution_sec
    register_event_at_time time (add64 time execution_sec) event
