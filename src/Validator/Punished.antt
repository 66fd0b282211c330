-- ===== src/Validator/Punished.antt =====
-- What a punishment does: the deposit and the penalty add up, others keep their records, and the
-- lists stay in order.
use lino.Sdk.{Sdk}
use lino.Validator.Store.{Validator, ValidatorParam, ValidatorStore}
use lino.Validator.Penalty.{
  punish_oncall_validator, finish_punishment, actual_penalty, after_penalty, PunishType,
}
use lino.Validator.Invariant.{IsValid}
use lino.Validator.Untouched.{adjust-SameRecords, remove-SameRecords, SameRecords-NamesMatch}
use lino.Prelude.{
  String, ◌≡◌, some, if◌then◌else◌, str_eq, arith, inl, eq_iff, false, inr, ap, ◌⊎◌, true, ◌∙◌,
  Bool-cases, sym, refl,
}
use lino.Types.Coin.{Coin, plus, worth, is_gte_lem, worth-new_coin, worth-plus, zero_coin}
use lino.Validator.Oncall.{NamesMatch}
use lino.Validator.Lists.{adjust_validator_list, remove_validator_from_all_lists}
use lino.Prelude.Table.{insert, get-insert, string_key}
use lino.Prelude.Exec.{Result-cases, ok, ◌>>◌}
use lino.Prelude.Int.{◌+ℤ◌, pos, int_laws, ℤ}
use lino.Validator.Rest.{
  is_fired, IsRest, IsPunished, penalty_parts, after_penalty-IsRest, is_fired_cause,
}

module _ ⦃sdk : Sdk⦄ where
  pub finish_state :
      (username : String) (actual : Coin) (v : Validator) (s : ValidatorStore)
      → (finish_punishment username actual v s).1
        ≡ (adjust_validator_list (record s { validators = insert username v s.validators })).1
  unfolding finish_punishment
  finish_state username actual v s =
      let t = record s { validators = insert username v s.validators } in
      elim (Result-cases (adjust_validator_list t).0) [
        | inl (_, done) ↦ rw done
        | inr (x, failed) ↦ rw failed
      ]

  -- The validator's record after `finish_punishment`, and everyone else's.
  finish_records :
      (username : String) (actual : Coin) (v : Validator) (s : ValidatorStore)
      → NamesMatch s
      → v.username ≡ username
      → (k : String)
      → (finish_punishment username actual v s).1.validators k
        ≡ (if str_eq username k then some v else s.validators k)
  finish_records username actual v s names same k =
      let t = record s { validators = insert username v s.validators } in
      let named : NamesMatch t = λ j w e.
        ground (arith, get-insert username v s.validators j, names j w, eq_iff username j) in
      ap (λ (u : ValidatorStore). u.validators k) (finish_state username actual v s)
      ∙ (adjust-SameRecords t named).at_name k
      ∙ get-insert username v s.validators k

  finish_paid :
      (username : String) (actual paid : Coin) (v : Validator) (s s' : ValidatorStore)
      → finish_punishment username actual v s ≡ (ok paid, s')
      → (paid ≡ actual) × (s' ≡ (finish_punishment username actual v s).1)
  unfolding finish_punishment
  finish_paid username actual paid v s s' h =
      let t = record s { validators = insert username v s.validators } in
      elim (Result-cases (adjust_validator_list t).0) [
        | inl (_, done) ↦ ground (arith, done)
        | inr (x, failed) ↦ absurd (ground (arith, failed))
      ]

  pub punish_spared :
      (username : String) (penalty : Coin) (punish_type : PunishType) (s : ValidatorStore)
      (v : Validator) (param : ValidatorParam)
      → s.validators username ≡ some v
      → s.validator_param ≡ some param
      → is_fired penalty punish_type param v ≡ false
      → punish_oncall_validator username penalty punish_type s
        ≡ finish_punishment username
            (actual_penalty penalty v)
            (after_penalty penalty punish_type v)
            s
  unfolding punish_oncall_validator
  punish_spared username penalty punish_type s v param ev ep spared = ground arith

  pub punish_fired :
      (username : String) (penalty : Coin) (punish_type : PunishType) (s : ValidatorStore)
      (v : Validator) (param : ValidatorParam)
      → s.validators username ≡ some v
      → s.validator_param ≡ some param
      → is_fired penalty punish_type param v ≡ true
      → let left = after_penalty penalty punish_type v in
        punish_oncall_validator username penalty punish_type s
        ≡ (remove_validator_from_all_lists left.username
              >> finish_punishment username
                  (plus (actual_penalty penalty v) left.deposit)
                  (record left { deposit = zero_coin }))
            s
  unfolding punish_oncall_validator
  punish_fired username penalty punish_type s v param ev ep fired = ground arith

  punish_state :
      (username : String) (penalty : Coin) (punish_type : PunishType) (s : ValidatorStore)
      (v : Validator) (param : ValidatorParam) (paid : Coin) (s' : ValidatorStore)
      → s.validators username ≡ some v
      → s.validator_param ≡ some param
      → punish_oncall_validator username penalty punish_type s ≡ (ok paid, s')
      → let left = after_penalty penalty punish_type v in
        let actual = actual_penalty penalty v in
        ((is_fired penalty punish_type param v ≡ false)
          × (paid ≡ actual)
          × (s' ≡ (finish_punishment username actual left s).1))
        ⊎ ((is_fired penalty punish_type param v ≡ true)
            × (paid ≡ plus actual left.deposit)
            × (s'
                ≡ (finish_punishment username
                    (plus actual left.deposit)
                    (record left { deposit = zero_coin })
                    (remove_validator_from_all_lists left.username s).1).1))
  unfolding punish_oncall_validator
  punish_state username penalty punish_type s v param paid s' ev ep h =
      let left = after_penalty penalty punish_type v in
      let actual = actual_penalty penalty v in
      elim (Bool-cases (is_fired penalty punish_type param v)) [
        | inr spared ↦
            let done =
              finish_paid username actual paid left s s'
                (sym (punish_spared username penalty punish_type s v param ev ep spared) ∙ h) in
            inl (spared, done.0, done.1)
        | inl fired ↦
            let h' = sym (punish_fired username penalty punish_type s v param ev ep fired) ∙ h in
            elim (Result-cases (remove_validator_from_all_lists left.username s).0) [
              | inl (_, removed) ↦
                  let done =
                    finish_paid username (plus actual left.deposit) paid
                      (record left { deposit = zero_coin })
                      (remove_validator_from_all_lists left.username s).1 s' (rw removed at h') in
                  inr (fired, done.0, done.1)
              | inr (x, failed) ↦ absurd (ground (arith, failed, h'))
            ]
      ]

  -- A punishment that succeeds, of a validator on record, with the parameters, in a store where records
  -- stand under their usernames, and the oncall list is distinct, within the list of all validators and
  -- no longer than its limit: the penalty that it returns and the deposit that is left add up to the
  -- deposit before. Of the deposit less the penalty, or zero if that is negative: if it is at least the
  -- minimum for a validator, and the validator is not byzantine, it is what is left; in every other case
  -- nothing is left. No other validator's record changes.
  pub punish_conserves :
      (username : String) (penalty : Coin) (punish_type : PunishType) (s : ValidatorStore)
      (v : Validator) (param : ValidatorParam) (paid : Coin) (s' : ValidatorStore)
      → IsValid s
      → s.validators username ≡ some v
      → s.validator_param ≡ some param
      → punish_oncall_validator username penalty punish_type s ≡ (ok paid, s')
      → (v' : Validator) × (rest : ℤ) × (s'.validators username ≡ some v')
        × (worth paid +ℤ worth v'.deposit ≡ worth v.deposit)
        × IsRest penalty v rest
        × IsPunished punish_type param rest (worth v'.deposit)
        × ((j : String) → s'.validators j ≡ (if str_eq username j then some v' else s.validators j))
  punish_conserves username penalty punish_type s v param paid s' h ev ep done =
      let left = after_penalty penalty punish_type v in
      let actual = actual_penalty penalty v in
      let parts = penalty_parts penalty punish_type v in
      let named = h.names username v ev in
      elim (punish_state username penalty punish_type s v param paid s' ev ep done) [
        | inl (spared, is_paid, state) ↦
            let at_name = λ (k : String).
              ap (λ (t : ValidatorStore). t.validators k) state
              ∙ finish_records username actual left s h.names named k in
            (
              left,
              worth left.deposit,
              ground (arith, at_name username, eq_iff username username),
              rw is_paid parts.0,
              after_penalty-IsRest penalty punish_type v,
              inl (
                ground arith,
                ground
                    (arith, spared, is_gte_lem left.deposit param.validator_min_committing_deposit),
                refl,
              ),
              at_name,
            )
        | inr (fired, is_paid, state) ↦
            let s₁ = (remove_validator_from_all_lists left.username s).1 in
            let gone = record left { deposit = zero_coin } in
            let same = remove-SameRecords left.username s h.names in
            let names₁ = SameRecords-NamesMatch s s₁ same h.names in
            let at_name = λ (k : String).
              ap (λ (t : ValidatorStore). t.validators k) state
              ∙ finish_records username (plus actual left.deposit) gone s₁ names₁ named k in
            (
              gone,
              worth left.deposit,
              ground (arith, at_name username, eq_iff username username),
              rw is_paid (
                  grind
                    (int_laws, parts.0, worth-plus actual left.deposit, worth-new_coin (pos 0))),
              after_penalty-IsRest penalty punish_type v,
              inr (is_fired_cause penalty punish_type param v fired, worth-new_coin (pos 0)),
              λ j. ground (arith, at_name j, same.at_name j),
            )
      ]
