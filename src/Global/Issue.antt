-- ===== src/Global/Issue.antt =====
-- The operations of x/global/manager.go that move coins into the pools and out of them, one after
-- another, against what they issue.
use lino.Sdk.{Sdk}
use lino.Types.Coin.{
  Coin, worth, is_zero, worth-plus, minus, worth-minus, zero_coin, worth-new_coin,
}
use lino.Prelude.{
  Option, List, ◌∷◌, ◌≡◌, [], some, none, sym, arith, Bool-cases, inl, inr, ◌∙◌, ap, refl,
}
use lino.Global.Store.{
  GlobalStore, GlobalAllocationParam, InflationPool, GlobalMeta, ConsumptionMeta,
}
use lino.Global.Inflation.{
  distribute_hourly_inflation, get_validator_hourly_inflation, get_infra_monthly_inflation,
  get_developer_monthly_inflation, set_total_lino_and_recalculate_growth_rate, hourly_inflation,
  get_reward_and_pop_from_window, add_to_developer_inflation_pool, add_to_validator_inflation_pool,
  add_total_lino_coin, share_of, developer_share, reward_of, update_global_growth_rate,
}
use lino.Prelude.Int.{ℤ, pos, ◌+ℤ◌, int_laws, +ℤ_zero, ◌-ℤ◌, +ℤ_assoc}
use lino.Global.Supply.{
  issued, add_shares, four_shares, Takes-issued, in_pools, validator-Takes, infra-Takes,
  developer-Takes,
}

rewarded : (p t t' r r' c : ℤ) → t' ≡ t +ℤ c → r' ≡ r -ℤ c → t' +ℤ (r' +ℤ p) ≡ t +ℤ (r +ℤ p)
rewarded p t t' r r' c e f = grind (int_laws, e, f)

funded_developers :
    (t r i d v d' c : ℤ)
    → d' ≡ d +ℤ c
    → t +ℤ (r +ℤ (i +ℤ (d' +ℤ v))) ≡ t +ℤ (r +ℤ (i +ℤ (d +ℤ v))) +ℤ c
funded_developers t r i d v d' c e = grind (int_laws, e)

funded_validators :
    (t r i d v v' c : ℤ)
    → v' ≡ v +ℤ c
    → t +ℤ (r +ℤ (i +ℤ (d +ℤ v'))) ≡ t +ℤ (r +ℤ (i +ℤ (d +ℤ v))) +ℤ c
funded_validators t r i d v v' c e = grind (int_laws, e)

first_part : (i d v z : ℤ) → z ≡ pos 0 → i +ℤ (d +ℤ v) ≡ z +ℤ (d +ℤ v) +ℤ i
first_part i d v z e = grind (int_laws, e)

middle_part : (i d v z : ℤ) → z ≡ pos 0 → i +ℤ (d +ℤ v) ≡ i +ℤ (z +ℤ v) +ℤ d
middle_part i d v z e = grind (int_laws, e)

last_part : (i d v z : ℤ) → z ≡ pos 0 → i +ℤ (d +ℤ v) ≡ i +ℤ (d +ℤ z) +ℤ v
last_part i d v z e = grind (int_laws, e)

module _ ⦃sdk : Sdk⦄ where
  open sdk use {Rat}

  pub data PoolOperation : Type 0 where
    distribute_hour pay_validators pay_infra pay_developers close_year : PoolOperation
    pay_content : Coin → Rat → PoolOperation
    fund_developers fund_validators : Coin → PoolOperation

  abbrev hour_issue :
      Option GlobalAllocationParam
      → Option GlobalMeta
      → Option ConsumptionMeta
      → Option InflationPool
      → ℤ
  hour_issue (some allocation) (some meta) (some _) (some _) =
      worth (hourly_inflation meta allocation)
  hour_issue _ _ _ _ = pos 0

  abbrev fund_issue : Coin → Option InflationPool → ℤ
  fund_issue coin none = pos 0
  fund_issue coin (some _) = worth coin

  module _ {Event : Type 0} where
    -- The store after an operation, whether it succeeds or not.
    abbrev pub perform : PoolOperation → GlobalStore Event → GlobalStore Event
    perform distribute_hour s = (distribute_hourly_inflation s).1
    perform pay_validators s = (get_validator_hourly_inflation s).1
    perform pay_infra s = (get_infra_monthly_inflation s).1
    perform pay_developers s = (get_developer_monthly_inflation s).1
    perform close_year s = (set_total_lino_and_recalculate_growth_rate s).1
    perform (pay_content evaluate penalty_score) s =
        (get_reward_and_pop_from_window evaluate penalty_score s).1
    perform (fund_developers coin) s = (add_to_developer_inflation_pool coin s).1
    perform (fund_validators coin) s = (add_to_validator_inflation_pool coin s).1

    -- What the operation issues: nothing where a record that it needs is missing.
    abbrev pub issue_of : PoolOperation → GlobalStore Event → ℤ
    issue_of distribute_hour s =
        hour_issue s.allocation_param s.global_meta s.consumption_meta s.inflation_pool
    issue_of (fund_developers coin) s = fund_issue coin s.inflation_pool
    issue_of (fund_validators coin) s = fund_issue coin s.inflation_pool
    issue_of _ s = pos 0

    abbrev pub perform_all : List PoolOperation → GlobalStore Event → GlobalStore Event
    perform_all [] s = s
    perform_all (op ∷ ops) s = perform_all ops (perform op s)

    abbrev pub issue_all : List PoolOperation → GlobalStore Event → ℤ
    issue_all [] s = pos 0
    issue_all (op ∷ ops) s = issue_of op s +ℤ issue_all ops (perform op s)

    -- The store with these records in the place of its own.
    abbrev with_records :
        GlobalStore Event
        → Option GlobalAllocationParam
        → Option GlobalMeta
        → Option ConsumptionMeta
        → Option InflationPool
        → GlobalStore Event
    with_records s a m c p = record s {
      allocation_param = a;
      global_meta = m;
      consumption_meta = c;
      inflation_pool = p;
    }

    nothing_issued : (s : GlobalStore Event) → issued s ≡ issued s +ℤ pos 0
    nothing_issued s = sym (+ℤ_zero (issued s))

    hour_with :
        (s : GlobalStore Event) (a : Option GlobalAllocationParam) (m : Option GlobalMeta)
        (c : Option ConsumptionMeta) (p : Option InflationPool)
        → issued (distribute_hourly_inflation (with_records s a m c p)).1
          ≡ issued (with_records s a m c p) +ℤ hour_issue a m c p
    unfolding distribute_hourly_inflation
    hour_with s none m c p = sym (+ℤ_zero _)
    hour_with s (some a) none c p = sym (+ℤ_zero _)
    hour_with s (some a) (some m) none none = sym (+ℤ_zero _)
    hour_with s (some a) (some m) none (some p) = sym (+ℤ_zero _)
    hour_with s (some a) (some m) (some c) none = sym (+ℤ_zero _)
    hour_with s (some a) (some m) (some c) (some p) =
        let hour = hourly_inflation m a in
        let content = share_of hour a.content_creator_allocation in
        let validators = share_of hour a.validator_allocation in
        let infra = share_of hour a.infra_allocation in
        add_shares _ _ _ _ _ _ _ _ _ _ (worth content) (worth infra)
          (worth (developer_share hour a)) (worth validators) (worth-plus _ _) (worth-plus _ _)
          (worth-plus _ _) (worth-plus _ _)
          (four_shares (worth hour) (worth content) (worth validators) (worth infra)
            (worth (minus hour content)) (worth (developer_share hour a)) (worth-minus _ _)
            (worth-minus (minus (minus hour content) validators) infra
              ∙ ap (λ x. x -ℤ worth infra) (worth-minus (minus hour content) validators)))

    reward_with :
        (s : GlobalStore Event) (m : Option GlobalMeta) (c : Option ConsumptionMeta)
        (evaluate : Coin) (penalty_score : Rat)
        → let t = with_records s s.allocation_param m c s.inflation_pool in
          issued (get_reward_and_pop_from_window evaluate penalty_score t).1 ≡ issued t
    unfolding get_reward_and_pop_from_window add_total_lino_coin
    reward_with s m none evaluate penalty_score = ground arith
    reward_with s none (some c) evaluate penalty_score = ground arith
    reward_with s (some m) (some c) evaluate penalty_score =
        let reward = reward_of evaluate penalty_score c in
        elim (Bool-cases (is_zero evaluate)) [
          | inl e ↦ ground arith
          | inr e ↦ rw e (
              rewarded (in_pools s.inflation_pool) _ _ _ _ _ (worth-plus m.total_lino_coin reward)
                (worth-minus c.consumption_reward_pool reward))
        ]

    year_with :
        (s : GlobalStore Event) (a : Option GlobalAllocationParam) (m : Option GlobalMeta)
        → let t = with_records s a m s.consumption_meta s.inflation_pool in
          issued (set_total_lino_and_recalculate_growth_rate t).1 ≡ issued t
    unfolding set_total_lino_and_recalculate_growth_rate update_global_growth_rate
    year_with s a none = refl
    year_with s none (some m) = refl
    year_with s (some a) (some m) = refl

    fund_developers_with :
        (s : GlobalStore Event) (p : Option InflationPool) (coin : Coin)
        → let t = record s { inflation_pool = p } in
          issued (add_to_developer_inflation_pool coin t).1 ≡ issued t +ℤ fund_issue coin p
    fund_developers_with s none coin = sym (+ℤ_zero _)
    fund_developers_with s (some p) coin =
        funded_developers _ _ _ _ _ _ _ (worth-plus p.developer_inflation_pool coin)

    fund_validators_with :
        (s : GlobalStore Event) (p : Option InflationPool) (coin : Coin)
        → let t = record s { inflation_pool = p } in
          issued (add_to_validator_inflation_pool coin t).1 ≡ issued t +ℤ fund_issue coin p
    fund_validators_with s none coin = sym (+ℤ_zero _)
    fund_validators_with s (some p) coin =
        funded_validators _ _ _ _ _ _ _ (worth-plus p.validator_inflation_pool coin)

    issued-perform :
        (op : PoolOperation) (s : GlobalStore Event)
        → issued (perform op s) ≡ issued s +ℤ issue_of op s
    issued-perform distribute_hour s =
        hour_with s s.allocation_param s.global_meta s.consumption_meta s.inflation_pool
    issued-perform pay_validators s =
        Takes-issued get_validator_hourly_inflation (λ pool. pool.validator_inflation_pool)
          (λ pool. record pool { validator_inflation_pool = zero_coin }) s
          (λ pool. last_part _ _ _ _ (worth-new_coin (pos 0))) (validator-Takes s)
        ∙ sym (+ℤ_zero _)
    issued-perform pay_infra s =
        Takes-issued get_infra_monthly_inflation (λ pool. pool.infra_inflation_pool)
          (λ pool. record pool { infra_inflation_pool = zero_coin }) s
          (λ pool. first_part _ _ _ _ (worth-new_coin (pos 0))) (infra-Takes s)
        ∙ sym (+ℤ_zero _)
    issued-perform pay_developers s =
        Takes-issued get_developer_monthly_inflation (λ pool. pool.developer_inflation_pool)
          (λ pool. record pool { developer_inflation_pool = zero_coin }) s
          (λ pool. middle_part _ _ _ _ (worth-new_coin (pos 0))) (developer-Takes s)
        ∙ sym (+ℤ_zero _)
    issued-perform close_year s = year_with s s.allocation_param s.global_meta ∙ sym (+ℤ_zero _)
    issued-perform (pay_content evaluate penalty_score) s =
        reward_with s s.global_meta s.consumption_meta evaluate penalty_score ∙ sym (+ℤ_zero _)
    issued-perform (fund_developers coin) s = fund_developers_with s s.inflation_pool coin
    issued-perform (fund_validators coin) s = fund_validators_with s s.inflation_pool coin

    -- Whatever operations on the pools follow one another, and whether each succeeds or fails: the coins
    -- in circulation, the pool of content rewards and the pools of inflation together grow by exactly
    -- the hourly inflations that were distributed and the amounts added to the pools. Paying out
    -- validators, infrastructure, developers or content, and closing a year, move coins and create none.
    pub issued-perform_all :
        (ops : List PoolOperation) (s : GlobalStore Event)
        → issued (perform_all ops s) ≡ issued s +ℤ issue_all ops s
    issued-perform_all [] s = sym (+ℤ_zero _)
    issued-perform_all (op ∷ ops) s =
        issued-perform_all ops (perform op s)
        ∙ ap (λ x. x +ℤ issue_all ops (perform op s)) (issued-perform op s)
        ∙ +ℤ_assoc (issued s) (issue_of op s) (issue_all ops (perform op s))
