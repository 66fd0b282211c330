-- ===== src/Global/Supply.antt =====
-- What the inflation, the pools and the rewards of x/global/manager.go add up to.
use lino.Sdk.{Sdk}
use lino.Prelude.Int.{ℤ, ◌+ℤ◌, int_laws, ◌-ℤ◌, pos}
use lino.Prelude.{Option, ◌≡◌, Option-cases, none, inl, some, inr, refl, arith, ◌⊎◌, ap, ◌∙◌, sym}
use lino.Global.Store.{GlobalStore, GlobalMeta, ConsumptionMeta, InflationPool, GlobalMethod}
use lino.Global.Inflation.{
  get_validator_hourly_inflation, add_total_lino_coin, get_infra_monthly_inflation,
  get_developer_monthly_inflation,
}
use lino.Types.Coin.{worth, worth-plus, zero_coin, Coin, plus}
use lino.Types.Errors.{inflation_pool_not_found, Error, global_meta_not_found}
use lino.Prelude.Exec.{err, ok}

pub four_shares : (h cc v i w d : ℤ) → w ≡ h -ℤ cc → d ≡ w -ℤ v -ℤ i → cc +ℤ (i +ℤ (d +ℤ v)) ≡ h
four_shares h cc v i w d e f = grind (int_laws, e, f)

pub add_shares :
    (t r r' i i' d d' v v' h c a b e : ℤ)
    → r' ≡ r +ℤ c
    → i' ≡ i +ℤ a
    → d' ≡ d +ℤ b
    → v' ≡ v +ℤ e
    → c +ℤ (a +ℤ (b +ℤ e)) ≡ h
    → t +ℤ (r' +ℤ (i' +ℤ (d' +ℤ v'))) ≡ t +ℤ (r +ℤ (i +ℤ (d +ℤ v))) +ℤ h
add_shares t r r' i i' d d' v v' h c a b e hr hi hd hv hs = grind (int_laws, hr, hi, hd, hv, hs)

pub moved : (r t t' p' p c : ℤ) → t' ≡ t +ℤ c → p ≡ p' +ℤ c → t' +ℤ (r +ℤ p') ≡ t +ℤ (r +ℤ p)
moved r t t' p' p c e f = grind (int_laws, e, f)

module _ ⦃sdk : Sdk⦄ where
  abbrev pub in_total : Option GlobalMeta → ℤ
  in_total o = elim o [ none ↦ pos 0 | some meta ↦ worth meta.total_lino_coin ]

  abbrev pub in_rewards : Option ConsumptionMeta → ℤ
  in_rewards o = elim o [ none ↦ pos 0 | some meta ↦ worth meta.consumption_reward_pool ]

  abbrev pub in_pools : Option InflationPool → ℤ
  in_pools o = elim o [
    | none ↦ pos 0
    | some pool ↦
        worth pool.infra_inflation_pool
        +ℤ (worth pool.developer_inflation_pool +ℤ worth pool.validator_inflation_pool)
  ]

  pub issued_parts :
      {m n : Option GlobalMeta} {c d : Option ConsumptionMeta} {p q : Option InflationPool}
      → m ≡ n
      → c ≡ d
      → p ≡ q
      → in_total m +ℤ (in_rewards c +ℤ in_pools p) ≡ in_total n +ℤ (in_rewards d +ℤ in_pools q)
  issued_parts e f g = rw (e, f, g) refl

  module _ {Event : Type 0} where
    -- What the chain has issued: the coins in circulation, the pool of content rewards and the pools of
    -- inflation; nothing where a record is missing.
    abbrev pub issued : GlobalStore Event → ℤ
    issued s =
        in_total s.global_meta +ℤ (in_rewards s.consumption_meta +ℤ in_pools s.inflation_pool)

    -- A method that pays out a pool: the store after it, or an error that leaves the store as it was.
    abbrev pub Takes :
        GlobalMethod Event Coin
        → (InflationPool → Coin)
        → (InflationPool → InflationPool)
        → GlobalStore Event
        → Type 0
    Takes m pool_of emptied s =
        ((e : Error) × (m s ≡ (err e, s)))
        ⊎ ((pool : InflationPool) × (meta : GlobalMeta) × (s.inflation_pool ≡ some pool)
            × (s.global_meta ≡ some meta)
            × (m s ≡ (
              ok (pool_of pool),
              record s {
                global_meta =
                    some
                      (record meta { total_lino_coin = plus meta.total_lino_coin (pool_of pool) });
                inflation_pool = some (emptied pool);
              },
            )))

    pub validator-Takes :
        (s : GlobalStore Event)
        → Takes get_validator_hourly_inflation
            (λ pool. pool.validator_inflation_pool)
            (λ pool. record pool { validator_inflation_pool = zero_coin })
            s
    unfolding get_validator_hourly_inflation add_total_lino_coin
    validator-Takes s = elim (Option-cases s.inflation_pool) [
      | inl e ↦ inl (inflation_pool_not_found, ground arith)
      | inr (pool, e) ↦ elim (Option-cases s.global_meta) [
        | inl f ↦ inl (global_meta_not_found, ground arith)
        | inr (meta, f) ↦ inr (pool, meta, e, f, ground arith)
      ]
    ]

    pub infra-Takes :
        (s : GlobalStore Event)
        → Takes get_infra_monthly_inflation
            (λ pool. pool.infra_inflation_pool)
            (λ pool. record pool { infra_inflation_pool = zero_coin })
            s
    unfolding get_infra_monthly_inflation add_total_lino_coin
    infra-Takes s = elim (Option-cases s.inflation_pool) [
      | inl e ↦ inl (inflation_pool_not_found, ground arith)
      | inr (pool, e) ↦ elim (Option-cases s.global_meta) [
        | inl f ↦ inl (global_meta_not_found, ground arith)
        | inr (meta, f) ↦ inr (pool, meta, e, f, ground arith)
      ]
    ]

    pub developer-Takes :
        (s : GlobalStore Event)
        → Takes get_developer_monthly_inflation
            (λ pool. pool.developer_inflation_pool)
            (λ pool. record pool { developer_inflation_pool = zero_coin })
            s
    unfolding get_developer_monthly_inflation add_total_lino_coin
    developer-Takes s = elim (Option-cases s.inflation_pool) [
      | inl e ↦ inl (inflation_pool_not_found, ground arith)
      | inr (pool, e) ↦ elim (Option-cases s.global_meta) [
        | inl f ↦ inl (global_meta_not_found, ground arith)
        | inr (meta, f) ↦ inr (pool, meta, e, f, ground arith)
      ]
    ]

    -- A pool that is paid out leaves what is issued as it was.
    pub Takes-issued :
        (m : GlobalMethod Event Coin) (pool_of : InflationPool → Coin)
        (emptied : InflationPool → InflationPool) (s : GlobalStore Event)
        → ((pool : InflationPool)
            → in_pools (some pool) ≡ in_pools (some (emptied pool)) +ℤ worth (pool_of pool))
        → Takes m pool_of emptied s
        → issued (m s).1 ≡ issued s
    Takes-issued m pool_of emptied s paid (inl (e, h)) = ap (λ r. issued r.1) h
    Takes-issued m pool_of emptied s paid (inr (pool, meta, e, f, h)) =
        ap (λ r. issued r.1) h
        ∙ moved (in_rewards s.consumption_meta) (worth meta.total_lino_coin) _
            (in_pools (some (emptied pool))) _ (worth (pool_of pool))
            (worth-plus meta.total_lino_coin (pool_of pool)) (paid pool)
        ∙ issued_parts (sym f) refl (sym e)
