-- ===== src/Global/Schedule.antt =====
-- The timed events of x/global/manager.go: what is registered is found at its time.
use lino.Sdk.{Sdk}
use mathlib.Core.List.{append-nil, append_assoc}
use lino.Prelude.{
  ℕ, List, ◌∷◌, if◌then◌else◌, ◌≡◌, false, [], ◌+◌, ◌++◌, arith, refl, sym, Bool-cases, subst, inl,
  ◌∙◌, inr,
}
use lino.Prelude.Int.{ℤ, ltb_ℤ, pos, eq_ℤ, eq_ℤ_iff}
use lino.Global.Clock.{
  register_event_at_time, register_from, get_time_event_list_at_time, register_coin_return_event,
}
use lino.Global.Store.{GlobalStore}
use lino.Prelude.Int64.{add64, mul64}
use lino.Prelude.Table.{get_or, insert, int_key, get_or-insert}
use lino.Prelude.Exec.{Result, ok, ok-then}
use lino.Prelude.Lists.{length}
use lino.Types.Errors.{Error}

module _ {Event : Type 0} where
  -- The events among these that fall due at a time, of which event number `i + k` falls due at `at (i + k)`.
  abbrev pub due : (ℕ → ℤ) → ℕ → List Event → ℤ → List Event
  due at i [] j = []
  due at i (event ∷ events) j =
      if eq_ℤ (at i) j then event ∷ due at (i + 1) events j else due at (i + 1) events j

  -- None of the times lies before now.
  abbrev pub NotPast : ℤ → (ℕ → ℤ) → ℕ → List Event → Type 0
  NotPast time at i [] = Unit
  NotPast time at i (event ∷ events) = (ltb_ℤ (at i) time ≡ false) × NotPast time at (i + 1) events

-- When `RegisterCoinReturnEvent` schedules event number `i`.
abbrev pub return_time : ℤ → ℤ → ℕ → ℤ
return_time time interval_sec i = add64 time (mul64 interval_sec (add64 (pos i) (pos 1)))

module _ {Event : Type 0} ⦃sdk : Sdk⦄ where
  -- The store with one more event at a time.
  abbrev with_event : ℤ → Event → GlobalStore Event → GlobalStore Event
  with_event unix_time event s = record s {
    time_event_lists =
        insert unix_time (get_time_event_list_at_time unix_time s ++ event ∷ []) s.time_event_lists;
  }

  listed :
      (slot : ℤ) (event : Event) (later : List Event) (s : GlobalStore Event) (j : ℤ)
      → get_time_event_list_at_time j (with_event slot event s) ++ later
        ≡ get_time_event_list_at_time j s ++ (if eq_ℤ slot j then event ∷ later else later)
  listed slot event later s j =
      rw
        (get_or-insert j slot [] (get_time_event_list_at_time slot s ++ event ∷ [])
          s.time_event_lists)
        (elim (Bool-cases (eq_ℤ slot j)) [
          | inl e ↦
              rw (e, (eq_ℤ_iff slot j).0 e)
                (append_assoc (get_time_event_list_at_time j s) (event ∷ []) later)
          | inr e ↦ rw e refl
        ])

  register_event_lem :
      (time unix_time : ℤ) (event : Event) (s : GlobalStore Event)
      → ltb_ℤ unix_time time ≡ false
      → register_event_at_time time unix_time event s ≡ (
        ok tt,
        record s {
          time_event_lists =
              insert unix_time
                (get_time_event_list_at_time unix_time s ++ event ∷ [])
                s.time_event_lists;
        },
      )
  unfolding register_event_at_time get_or
  register_event_lem time unix_time event s h = ground arith

  -- The result is a success, and each time's list is what it was with `added` behind.
  abbrev Appends :
      GlobalStore Event → (ℤ → List Event) → Result Error Unit × GlobalStore Event → Type 0
  Appends s added (r, s') =
      (r ≡ ok tt)
      × ((j : ℤ) → get_time_event_list_at_time j s' ≡ get_time_event_list_at_time j s ++ added j)

  register_from-Appends :
      (time interval_sec : ℤ) (i : ℕ) (events : List Event) (s : GlobalStore Event)
      → NotPast time (return_time time interval_sec) i events
      → Appends s
          (due (return_time time interval_sec) i events)
          (register_from time interval_sec i (length events) events s)
  unfolding register_from
  register_from-Appends time interval_sec i [] s h =
      (refl, λ j. sym (append-nil (get_time_event_list_at_time j s)))
  register_from-Appends time interval_sec i (event ∷ events) s (h, hs) =
      let slot = return_time time interval_sec i in
      let s₁ = with_event slot event s in
      let (r, lists) =
        subst (Appends s₁ (due (return_time time interval_sec) (i + 1) events))
          (sym (
            ok-then (register_event_at_time time slot event)
              (register_from time interval_sec (i + 1) (length events) events) s s₁
              (register_event_lem time slot event s h)))
          (register_from-Appends time interval_sec (i + 1) events s₁ hs) in
      (
        r,
        λ j. lists j ∙ listed slot event (due (return_time time interval_sec) (i + 1) events j) s j,
      )

  -- Registering as many events as there are rounds, of which none falls due before the time of the
  -- block, succeeds; afterwards the list of events at any time is what it was, followed by exactly the
  -- events among these that fall due then, in their order.
  pub register_coin_return_event_lem :
      (time interval_sec : ℤ) (events : List Event) (s : GlobalStore Event)
      → NotPast time (return_time time interval_sec) 0 events
      → let (r, s') = register_coin_return_event time events (pos (length events)) interval_sec s in
        (r ≡ ok tt)
        × ((j : ℤ)
            → get_time_event_list_at_time j s'
              ≡ get_time_event_list_at_time j s ++ due (return_time time interval_sec) 0 events j)
  unfolding register_coin_return_event
  register_coin_return_event_lem time interval_sec events s h =
      register_from-Appends time interval_sec 0 events s h
