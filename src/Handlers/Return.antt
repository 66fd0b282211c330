-- ===== src/Handlers/Return.antt =====
-- What `returnCoinTo` of the handlers does to the account and to the events of the chain.
use lino.Sdk.{Sdk}
use lino.Account.Bank.{BankMethod, AccountBank, AccountParam, FrozenMoney}
use lino.Prelude.{
  List, String, ℕ, ◌≡◌, ◌∷◌, suc, ap, some, [], refl, ◌++◌, ◌⊎◌, inl, inr, subst, ◌∙◌, sym, Bool,
  true, false,
}
use lino.Prelude.Int.{ℤ, pos, leb_ℤ}
use lino.Handlers.Store.{
  return_coin_to, AppMethod, AppStore, return_events, on_bank, on_global, AppEvent,
}
use lino.Account.CoinReturn.{
  ReturnCoinEvent, returned, create_coin_return_events, create_coin_return_events_lem,
}
use lino.Prelude.Lists.{length, All}
use lino.Types.Errors.{Error, frozen_money_list_too_long}
use lino.Types.Coin.{Coin, worth}
use lino.Prelude.Exec.{ok, err, ◌>>◌, continue, Result}
use lino.Global.Schedule.{NotPast, return_time, due, register_coin_return_event_lem}
use lino.Global.Clock.{get_time_event_list_at_time, register_coin_return_event}
use lino.Account.Frozen.{add_frozen_money, add_frozen_money_lem, Freezes, Cleaned}
use lino.Global.Store.{GlobalStore}

module _ ⦃sdk : Sdk⦄ where
  lift_ok :
      {B : Type 0} (m : BankMethod Unit) (k : AppMethod B) (s : AppStore)
      → (m s.bank).0 ≡ ok tt
      → (on_bank m >> k) s ≡ k (record s { bank = (m s.bank).1 })
  lift_ok m k s e = ap (λ r. continue r (λ _. k) (record s { bank = (m s.bank).1 })) e

  lift_err :
      {B : Type 0} (m : BankMethod Unit) (k : AppMethod B) (s : AppStore) (e : Error)
      → m s.bank ≡ (err e, s.bank)
      → (on_bank m >> k) s ≡ (err e, s)
  lift_err m k s e h = ap (λ r. continue r.0 (λ _. k) (record s { bank = r.1 })) h

  length-map : (events : List ReturnCoinEvent) → length (return_events events) ≡ length events
  length-map [] = refl
  length-map (event ∷ events) = ap suc (length-map events)

  -- The coin is on its way back: one event for each round, all for this user, that together give back
  -- exactly the coin, and each is found at the time of its round, behind what stood there.
  abbrev pub Schedules :
      (time interval : ℤ) (name : String) (n : ℕ) (coin : Coin) (s s' : AppStore) → Type 0
  Schedules time interval name n coin s s' =
      (events : List ReturnCoinEvent) × (length events ≡ suc n)
      × (returned events ≡ worth coin)
      × All (λ event. event.username ≡ name) events
      × ((j : ℤ)
          → get_time_event_list_at_time j s'.global
            ≡ get_time_event_list_at_time j s.global
              ++ due (return_time time interval) 0 (return_events events) j)

  -- Only the bank and the records of the chain may differ.
  abbrev pub Elsewhere : (s s' : AppStore) → Type 0
  Elsewhere s s' =
      (s'.votes ≡ s.votes)
      × (s'.validators ≡ s.validators)
      × (s'.developers ≡ s.developers)
      × (s'.reputation ≡ s.reputation)

  -- Of an account whose frozen money that has not expired is `kept`: the coin is frozen behind it.
  abbrev pub Froze :
      (time interval : ℤ) (name : String) (n : ℕ) (coin : Coin) (param : AccountParam)
      (bank : AccountBank) (kept : List FrozenMoney) (s s' : AppStore)
      → Type 0
  Froze time interval name n coin param bank kept s s' =
      Freezes coin time interval (pos (suc n)) name param bank kept s.bank (ok tt, s'.bank)

  -- Whether the frozen money that has not expired is as much as an account may have.
  abbrev pub is_full : AccountParam → List FrozenMoney → Bool
  is_full param kept = leb_ℤ param.max_num_frozen_money (pos (length kept))

  abbrev Registers :
      (time interval : ℤ) (events : List AppEvent) (s : GlobalStore AppEvent) → ℕ → Type 0
  Registers time interval events s count =
      let (r, s') = register_coin_return_event time events (pos count) interval s in
      (r ≡ ok tt)
      × ((j : ℤ)
          → get_time_event_list_at_time j s'
            ≡ get_time_event_list_at_time j s ++ due (return_time time interval) 0 events j)

  users :
      (name : String) (return_type : ℤ) (events : List ReturnCoinEvent)
      → All (λ event. (event.username ≡ name) × (event.return_type ≡ return_type)) events
      → All (λ event. event.username ≡ name) events
  users name return_type [] h = tt
  users name return_type (event ∷ events) (h, hs) = (h.0, users name return_type events hs)

  -- Giving a coin back to a user in one or more rounds, where the user's bank and the parameters of
  -- accounts are there and no round falls before the time of the block. If the entries of the
  -- user's frozen money that have not expired, by the code's test, are as many as allowed or more,
  -- it fails and nothing changes. If not, it succeeds: the coin is frozen behind these entries, no
  -- other bank changes, and events that together give back exactly the coin are found at the times
  -- of their rounds; validators, votes, developers and reputations stay as they are.
  pub return_coin_to_lem :
      (time interval : ℤ) (name : String) (n : ℕ) (coin : Coin) (return_type : ℤ) (s : AppStore)
      (bank : AccountBank) (param : AccountParam)
      → s.bank.banks name ≡ some bank
      → s.bank.account_param ≡ some param
      → NotPast time
          (return_time time interval)
          0
          (return_events (create_coin_return_events name (pos (suc n)) interval coin return_type))
      → let (r, s') = return_coin_to time name (pos (suc n)) interval coin return_type s in
        (kept : List FrozenMoney) × Cleaned time bank.frozen_money_list kept
        × (((is_full param kept ≡ true) × (r ≡ err frozen_money_list_too_long) × (s' ≡ s))
            ⊎ ((is_full param kept ≡ false)
                × (r ≡ ok tt)
                × Schedules time interval name n coin s s'
                × Froze time interval name n coin param bank kept s s'
                × Elsewhere s s'))
  unfolding return_coin_to
  return_coin_to_lem time interval name n coin return_type s bank param eb ep h =
      let events = create_coin_return_events name (pos (suc n)) interval coin return_type in
      let m = add_frozen_money time name coin time interval (pos (suc n)) in
      let k : AppMethod Unit =
        on_global (register_coin_return_event time (return_events events) (pos (suc n)) interval) in
      let (kept, cleaned, cases) =
        add_frozen_money_lem time name coin time interval (pos (suc n)) s.bank bank param eb ep in
      (
        kept,
        cleaned,
        elim cases [
          | inl (full, stops) ↦
              let fails = lift_err m k s frozen_money_list_too_long stops in
              inl (full, ap (λ r. r.0) fails, ap (λ r. r.1) fails)
          | inr (room, (okay, banks, fits)) ↦
              let (count, sum, whose) =
                create_coin_return_events_lem name n interval coin return_type in
              let (done, lists) =
                subst (Registers time interval (return_events events) s.global)
                  (length-map events ∙ count)
                  (register_coin_return_event_lem time interval (return_events events) s.global
                    h) in
              let (done', sched, froze, others) =
                subst
                  (λ (r : Result Error Unit × AppStore).
                    (r.0 ≡ ok tt)
                    × Schedules time interval name n coin s r.1
                    × Froze time interval name n coin param bank kept s r.1
                    × Elsewhere s r.1)
                  (sym (lift_ok m k s okay))
                  (
                    done,
                    (events, count, sum, users name return_type events whose, lists),
                    (refl, banks, fits),
                    (refl, refl, refl, refl),
                  ) in
              inr (room, done', sched, froze, others)
        ],
      )
