-- ===== src/Validator/Rest.antt =====
-- What a punishment leaves of a deposit, of x/validator/manager.go's `PunishOncallValidator`.
use lino.Sdk.{Sdk}
use lino.Types.Coin.{Coin, worth, is_gt, is_gte_lem, is_gte, worth-new_coin, is_gt_lem, worth-minus}
use lino.Validator.Penalty.{PunishType, is_byzantine, actual_penalty, after_penalty}
use lino.Validator.Store.{ValidatorParam, Validator}
use lino.Prelude.{Bool, ◌≡◌, true, Bool-cases, false, ◌||◌, ◌⊎◌, not, inl, sym, inr, arith, ◌∙◌}
use lino.Prelude.Int.{ℤ, ltb_ℤ, pos, ◌+ℤ◌, ◌≤ℤ◌, ◌-ℤ◌, int_laws}

module _ ⦃sdk : Sdk⦄ where
  -- Which branch a punishment takes, and with what.
  abbrev pub is_fired : Coin → PunishType → ValidatorParam → Validator → Bool
  is_fired penalty punish_type param v =
      is_byzantine punish_type
      || not (
          is_gte (after_penalty penalty punish_type v).deposit
            param.validator_min_committing_deposit)

  pub penalty_parts :
      (penalty : Coin) (punish_type : PunishType) (v : Validator)
      → (worth (actual_penalty penalty v) +ℤ worth (after_penalty penalty punish_type v).deposit
          ≡ worth v.deposit)
        × (pos 0 ≤ℤ worth v.deposit → pos 0 ≤ℤ worth (after_penalty penalty punish_type v).deposit)
  penalty_parts penalty punish_type v = elim (Bool-cases (is_gt penalty v.deposit)) [
    | inl over ↦
        rw over
          (grind (int_laws, worth-new_coin (pos 0)), λ h. grind (int_laws, worth-new_coin (pos 0)))
    | inr within ↦ rw within (
      grind (int_laws, worth-minus v.deposit penalty),
      λ h. grind (int_laws, worth-minus v.deposit penalty, is_gt_lem penalty v.deposit, within),
    )
  ]

  -- `rest` is the deposit less the penalty, or zero if the penalty is more.
  abbrev pub IsRest : Coin → Validator → ℤ → Type 0
  IsRest penalty v rest =
      ((ltb_ℤ (worth v.deposit) (worth penalty) ≡ true) × (rest ≡ pos 0))
      ⊎ ((ltb_ℤ (worth v.deposit) (worth penalty) ≡ false)
          × (rest ≡ worth v.deposit -ℤ worth penalty))

  pub after_penalty-IsRest :
      (penalty : Coin) (punish_type : PunishType) (v : Validator)
      → IsRest penalty v (worth (after_penalty penalty punish_type v).deposit)
  after_penalty-IsRest penalty punish_type v = elim (Bool-cases (is_gt penalty v.deposit)) [
    | inl over ↦ inl (sym (is_gt_lem penalty v.deposit) ∙ over, rw over (worth-new_coin (pos 0)))
    | inr within ↦
        inr (sym (is_gt_lem penalty v.deposit) ∙ within, rw within (worth-minus v.deposit penalty))
  ]

  -- The validator keeps the rest, or is fired: then the penalty was for a byzantine validator, or the
  -- rest is below the minimum, and nothing of the deposit is left.
  abbrev pub IsPunished : PunishType → ValidatorParam → (rest deposit : ℤ) → Type 0
  IsPunished punish_type param rest deposit =
      let min = worth param.validator_min_committing_deposit in
      ((is_byzantine punish_type ≡ false) × (min ≤ℤ rest) × (deposit ≡ rest))
      ⊎ (((is_byzantine punish_type ≡ true) ⊎ (ltb_ℤ rest min ≡ true)) × (deposit ≡ pos 0))

  pub is_fired_cause :
      (penalty : Coin) (punish_type : PunishType) (param : ValidatorParam) (v : Validator)
      → is_fired penalty punish_type param v ≡ true
      → (is_byzantine punish_type ≡ true)
        ⊎ (ltb_ℤ
              (worth (after_penalty penalty punish_type v).deposit)
              (worth param.validator_min_committing_deposit)
            ≡ true)
  is_fired_cause penalty punish_type param v fired =
      let low =
        is_gte_lem (after_penalty penalty punish_type v).deposit
          param.validator_min_committing_deposit in
      elim (Bool-cases (is_byzantine punish_type)) [
        | inl byzantine ↦ inl byzantine
        | inr honest ↦ inr (ground (arith, honest, low, fired))
      ]
