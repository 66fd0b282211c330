-- ===== src/Global/Interest.antt =====
-- GetInterestSince of x/global/manager.go: what a stake takes from the frictions of the days before.
use lino.Sdk.{Sdk}
use lino.Prelude.Int.{ℤ, ltb_ℤ, pos, ◌+ℤ◌, int_laws, ◌-ℤ◌, eq_ℤ, pos_part}
use lino.Prelude.{
  Option, ℕ, ◌≡◌, false, true, none, suc, refl, some, Bool-cases, zero, arith, ap, inl, inr, subst,
  sym, ◌∙◌,
}
use lino.Global.Stakes.{claim_days, interest_of, claimed, get_interest_since}
use lino.Global.Store.{LinoStakeStat, GlobalStore, GlobalTime}
use lino.Prelude.Table.{Table, insert, get-insert, int_key, get-insert_self}
use lino.Types.Coin.{Coin, worth, is_zero, plus, worth-minus, worth-plus, zero_coin, worth-new_coin}
use lino.Prelude.Exec.{Result, ok}
use lino.Types.Errors.{Error}
use lino.Global.Clock.{days_since}

drop_zero : (a b z : ℤ) → z ≡ pos 0 → a ≡ b +ℤ z → a ≡ b
drop_zero a b z e h = grind (int_laws, e, h)

takes_day :
    (f f' i a a' r r' v : ℤ)
    → f' ≡ f -ℤ i
    → a' ≡ a +ℤ i
    → r' +ℤ v ≡ r +ℤ a'
    → (f' +ℤ r') +ℤ v ≡ (f +ℤ r) +ℤ a
takes_day f f' i a a' r r' v e h k = grind (int_laws, e, h, k)

skips_day : (f a r r' v : ℤ) → r' +ℤ v ≡ r +ℤ a → (f +ℤ r') +ℤ v ≡ (f +ℤ r) +ℤ a
skips_day f a r r' v k = grind (int_laws, k)

not_before : (d j : ℤ) → ltb_ℤ j (d +ℤ pos 1) ≡ false → ltb_ℤ d j ≡ true
not_before d j h = grind (int_laws, h)

next_before : (d j : ℤ) → ltb_ℤ j d ≡ true → ltb_ℤ j (d +ℤ pos 1) ≡ true
next_before d j h = grind (int_laws, h)

self_before : (d : ℤ) → ltb_ℤ d (d +ℤ pos 1) ≡ true
self_before d = grind int_laws

before_ne : (d j : ℤ) → ltb_ℤ j d ≡ true → eq_ℤ d j ≡ false
before_ne d j h = ground (arith, h)

after_ne : (d j : ℤ) → ltb_ℤ d j ≡ true → eq_ℤ d j ≡ false
after_ne d j h = ground (arith, h)

after_next : (d j : ℤ) → ltb_ℤ d j ≡ true → ltb_ℤ d (j +ℤ pos 1) ≡ true
after_next d j h = grind (int_laws, h)

module _ ⦃sdk : Sdk⦄ where
  abbrev unclaimed : Option LinoStakeStat → ℤ
  unclaimed o = elim o [ none ↦ pos 0 | some stat ↦ worth stat.unclaimed_friction ]

  -- The frictions of `rounds` days from `day` that nobody has claimed.
  abbrev pub unclaimed_from : ℕ → ℤ → Table ℤ LinoStakeStat → ℤ
  unclaimed_from zero day t = pos 0
  unclaimed_from (suc rounds) day t = unclaimed (t day) +ℤ unclaimed_from rounds (day +ℤ pos 1) t

  -- Every one of the days has its record.
  abbrev pub HasDays : ℕ → ℤ → Table ℤ LinoStakeStat → Type 0
  HasDays zero day t = Unit
  HasDays (suc rounds) day t =
      ((stat : LinoStakeStat) × (t day ≡ some stat)) × HasDays rounds (day +ℤ pos 1) t

  insert_before :
      (day j : ℤ) (stat : LinoStakeStat) (t : Table ℤ LinoStakeStat)
      → ltb_ℤ j day ≡ true
      → insert day stat t j ≡ t j
  insert_before day j stat t h = rw (get-insert day stat t j, before_ne day j h) refl

  unclaimed-insert :
      (rounds : ℕ) (d j : ℤ) (stat : LinoStakeStat) (t : Table ℤ LinoStakeStat)
      → ltb_ℤ d j ≡ true
      → unclaimed_from rounds j (insert d stat t) ≡ unclaimed_from rounds j t
  unclaimed-insert zero d j stat t h = refl
  unclaimed-insert (suc rounds) d j stat t h =
      rw (get-insert d stat t j, after_ne d j h)
        (ap (λ x. unclaimed (t j) +ℤ x)
          (unclaimed-insert rounds d (j +ℤ pos 1) stat t (after_next d j h)))

  HasDays-insert :
      (rounds : ℕ) (d j : ℤ) (stat : LinoStakeStat) (t : Table ℤ LinoStakeStat)
      → ltb_ℤ d j ≡ true
      → HasDays rounds j t
      → HasDays rounds j (insert d stat t)
  HasDays-insert zero d j stat t h has = tt
  HasDays-insert (suc rounds) d j stat t h ((found, e), has) = (
    (found, rw (get-insert d stat t j, after_ne d j h) e),
    HasDays-insert rounds d (j +ℤ pos 1) stat t (after_next d j h) has,
  )

  module _ {Event : Type 0} where
    -- The loop succeeds with some interest; what it adds is what the days have less; the days before
    -- the first are as they were.
    abbrev Claims :
        ℕ → ℤ → Coin → GlobalStore Event → Result Error Coin × GlobalStore Event → Type 0
    Claims rounds day total s (r, s') =
        (interest : Coin) × (r ≡ ok interest)
        × (unclaimed_from rounds day s'.lino_stake_stats +ℤ worth interest
            ≡ unclaimed_from rounds day s.lino_stake_stats +ℤ worth total)
        × ((j : ℤ) → ltb_ℤ j day ≡ true → s'.lino_stake_stats j ≡ s.lino_stake_stats j)

    claim_skips :
        (lino_stake : Coin) (rounds : ℕ) (day : ℤ) (total : Coin) (s : GlobalStore Event)
        (stat : LinoStakeStat)
        → s.lino_stake_stats day ≡ some stat
        → is_zero stat.unclaimed_lino_stake ≡ true
        → claim_days lino_stake (suc rounds) day total s
          ≡ claim_days lino_stake rounds (day +ℤ pos 1) total s
    unfolding claim_days
    claim_skips lino_stake rounds day total s stat e z = ground arith

    claim_takes :
        (lino_stake : Coin) (rounds : ℕ) (day : ℤ) (total : Coin) (s : GlobalStore Event)
        (stat : LinoStakeStat)
        → s.lino_stake_stats day ≡ some stat
        → is_zero stat.unclaimed_lino_stake ≡ false
        → claim_days lino_stake (suc rounds) day total s
          ≡ claim_days lino_stake rounds
              (day +ℤ pos 1)
              (plus total (interest_of lino_stake stat))
              (record s {
                lino_stake_stats = insert day (claimed lino_stake stat) s.lino_stake_stats;
              })
    unfolding claim_days
    claim_takes lino_stake rounds day total s stat e z = ground arith

    claim_days-Claims :
        (lino_stake : Coin) (rounds : ℕ) (day : ℤ) (total : Coin) (s : GlobalStore Event)
        → HasDays rounds day s.lino_stake_stats
        → Claims rounds day total s (claim_days lino_stake rounds day total s)
    unfolding claim_days
    claim_days-Claims lino_stake zero day total s has = (total, refl, refl, λ j h. refl)
    claim_days-Claims lino_stake (suc rounds) day total s ((stat, e), has) =
        elim (Bool-cases (is_zero stat.unclaimed_lino_stake)) [
          | inl z ↦
              let (interest, r, sum, same) =
                claim_days-Claims lino_stake rounds (day +ℤ pos 1) total s has in
              subst (Claims (suc rounds) day total s)
                (sym (claim_skips lino_stake rounds day total s stat e z))
                (
                  interest,
                  r,
                  rw (same day (self_before day)) (skips_day _ _ _ _ _ sum),
                  λ j h. same j (next_before day j h),
                )
          | inr z ↦
              let stat' = claimed lino_stake stat in
              let t = insert day stat' s.lino_stake_stats in
              let (interest, r, sum, same) =
                claim_days-Claims lino_stake rounds (day +ℤ pos 1)
                  (plus total (interest_of lino_stake stat)) (record s { lino_stake_stats = t })
                  (HasDays-insert rounds day (day +ℤ pos 1) stat' s.lino_stake_stats
                    (self_before day) has) in
              subst (Claims (suc rounds) day total s)
                (sym (claim_takes lino_stake rounds day total s stat e z))
                (
                  interest,
                  r,
                  rw (same day (self_before day) ∙ get-insert_self day stat' s.lino_stake_stats, e)
                      (takes_day _ _ _ _ _ _ _ _
                        (worth-minus stat.unclaimed_friction (interest_of lino_stake stat))
                        (worth-plus total (interest_of lino_stake stat))
                        (subst
                          (λ x.
                            unclaimed_from rounds (day +ℤ pos 1)
                                (claim_days lino_stake rounds (day +ℤ pos 1)
                                  (plus total (interest_of lino_stake stat))
                                  (record s { lino_stake_stats = t })).1.lino_stake_stats
                              +ℤ worth interest
                            ≡ x +ℤ worth (plus total (interest_of lino_stake stat)))
                          (unclaimed-insert rounds day (day +ℤ pos 1) stat' s.lino_stake_stats
                            (self_before day))
                          sum)),
                  λ j h.
                      same j (next_before day j h) ∙ insert_before day j stat' s.lino_stake_stats h,
                )
        ]

    since_lem :
        (time unix_time : ℤ) (lino_stake : Coin) (s : GlobalStore Event) (global_time : GlobalTime)
        → s.global_time ≡ some global_time
        → let start = days_since unix_time global_time in
          get_interest_since time unix_time lino_stake s
          ≡ claim_days lino_stake
              (pos_part (days_since time global_time -ℤ start))
              start
              zero_coin
              s
    unfolding get_interest_since
    since_lem time unix_time lino_stake s global_time e = rw e refl

    -- GetInterestSince, where the chain's time is recorded and every day from the day of `unix_time` to
    -- yesterday has its record: it succeeds, the frictions of those days that nobody has claimed fall
    -- together by exactly the interest that it returns, and the days before stay as they were.
    pub get_interest_since_lem :
        (time unix_time : ℤ) (lino_stake : Coin) (s : GlobalStore Event) (global_time : GlobalTime)
        → s.global_time ≡ some global_time
        → let start = days_since unix_time global_time in
          let rounds = pos_part (days_since time global_time -ℤ start) in
          HasDays rounds start s.lino_stake_stats
          → let (r, s') = get_interest_since time unix_time lino_stake s in
            (interest : Coin) × (r ≡ ok interest)
            × (unclaimed_from rounds start s'.lino_stake_stats +ℤ worth interest
                ≡ unclaimed_from rounds start s.lino_stake_stats)
            × ((j : ℤ) → ltb_ℤ j start ≡ true → s'.lino_stake_stats j ≡ s.lino_stake_stats j)
    get_interest_since_lem time unix_time lino_stake s global_time e has =
        let start = days_since unix_time global_time in
        let rounds = pos_part (days_since time global_time -ℤ start) in
        let (interest, r, sum, same) =
          subst (Claims rounds start zero_coin s)
            (sym (since_lem time unix_time lino_stake s global_time e))
            (claim_days-Claims lino_stake rounds start zero_coin s has) in
        (interest, r, drop_zero _ _ _ (worth-new_coin (pos 0)) sum, same)
