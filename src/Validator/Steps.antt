-- ===== src/Validator/Steps.antt =====
-- Every operation of the validator manager keeps the invariant of its store.
use lino.Sdk.{Sdk}
use lino.Prelude.{String, Option-cases, ◌≡◌, inl, inr, subst, sym, Bool-cases, none, some, arith}
use lino.Validator.Keeps.{Keeps, insert-IsValid, Keeps-bind}
use lino.Types.Coin.{Coin, plus, zero_coin}
use lino.Validator.Store.{Validator, ValidatorStore}
use lino.Validator.Penalty.{
  PunishType, punish_oncall_validator, finish_punishment, after_penalty, actual_penalty,
}
use lino.Validator.Invariant.{IsValid}
use lino.Validator.Punished.{finish_state, punish_spared, punish_fired}
use lino.Validator.Membership.{adjust-IsValid, remove-IsValid}
use lino.Prelude.Table.{insert, string_key}
use lino.Prelude.Exec.{Result}
use lino.Types.Errors.{Error}
use lino.Validator.Lists.{remove_validator_from_all_lists}
use lino.Validator.Rest.{is_fired}

module _ ⦃sdk : Sdk⦄ where
  open sdk use {PubKey, AbciPubKey}

  finish-Keeps :
      (username : String) (actual : Coin) (v : Validator) (s : ValidatorStore)
      → v.username ≡ username
      → IsValid s
      → IsValid (finish_punishment username actual v s).1
  finish-Keeps username actual v s same h = subst IsValid (sym (finish_state username actual v s)) (
      adjust-IsValid (record s { validators = insert username v s.validators })
        (insert-IsValid username v s same h))

  punish_unknown :
      (username : String) (penalty : Coin) (punish_type : PunishType) (s : ValidatorStore)
      → s.validators username ≡ none
      → (punish_oncall_validator username penalty punish_type s).1 ≡ s
  unfolding punish_oncall_validator
  punish_unknown username penalty punish_type s e = ground arith

  punish_unset :
      (username : String) (penalty : Coin) (punish_type : PunishType) (s : ValidatorStore)
      (v : Validator)
      → s.validators username ≡ some v
      → s.validator_param ≡ none
      → (punish_oncall_validator username penalty punish_type s).1 ≡ s
  unfolding punish_oncall_validator
  punish_unset username penalty punish_type s v e p = ground arith

  pub punish-Keeps :
      (username : String) (penalty : Coin) (punish_type : PunishType)
      → Keeps (punish_oncall_validator username penalty punish_type)
  unfolding Keeps
  punish-Keeps username penalty punish_type s h = elim (Option-cases (s.validators username)) [
    | inl missing ↦ subst IsValid (sym (punish_unknown username penalty punish_type s missing)) h
    | inr (v, ev) ↦ elim (Option-cases s.validator_param) [
      | inl missing ↦
          subst IsValid (sym (punish_unset username penalty punish_type s v ev missing)) h
      | inr (param, ep) ↦
          let left = after_penalty penalty punish_type v in
          let actual = actual_penalty penalty v in
          let gone = record left { deposit = zero_coin } in
          let named : v.username ≡ username = h.names username v ev in
          elim (Bool-cases (is_fired penalty punish_type param v)) [
            | inr spared ↦
                subst (λ (r : Result Error Coin × ValidatorStore). IsValid r.1)
                  (sym (punish_spared username penalty punish_type s v param ev ep spared))
                  (finish-Keeps username actual left s named h)
            | inl fired ↦
                subst (λ (r : Result Error Coin × ValidatorStore). IsValid r.1)
                  (sym (punish_fired username penalty punish_type s v param ev ep fired))
                  (Keeps-bind (remove_validator_from_all_lists left.username)
                    (λ _. finish_punishment username (plus actual left.deposit) gone)
                    (remove-IsValid left.username)
                    (λ _ t k. finish-Keeps username (plus actual left.deposit) gone t named k) s h)
          ]
    ]
  ]
