-- ===== src/Validator/Untouched.antt =====
-- What the operations on the lists leave alone: the validators' records, and who is in no list.
use lino.Sdk.{Sdk}
use lino.Validator.Store.{Validator, ValidatorList, ValidatorParam, ValidatorStore}
use lino.Validator.Lists.{
  update_lowest_validator, try_become_oncall_validator, adjust_validator_list,
  remove_validator_from_all_lists, enter_lists, join_oncall,
}
use lino.Validator.Invariant.{update_lowest_state, with_list}
use lino.Prelude.{String, ◌≡◌, ◌∙◌, ap, some, sym, inl, Bool-cases, subst, inr, refl, arith, eq_iff}
use lino.Validator.Oncall.{NamesMatch}
use lino.Validator.Membership.{try_become_state, adjust_state, remove_state, left_list}
use lino.Types.Accounts.{is_in_list}
use lino.Prelude.Exec.{Result-cases}
use lino.Prelude.Table.{get-insert, string_key}

module _ ⦃sdk : Sdk⦄ where
  -- The same records under every name, and the same parameters.
  pub record SameRecords (s s' : ValidatorStore) : Type 0 where
    pub at_name : (k : String) → s'.validators k ≡ s.validators k
    pub param : s'.validator_param ≡ s.validator_param

  SameRecords-refl : (s s' : ValidatorStore) → s' ≡ s → SameRecords s s'
  SameRecords-refl s s' e = record {
    at_name = λ k. ap (λ (t : ValidatorStore). t.validators k) e;
    param = ap (λ (t : ValidatorStore). t.validator_param) e;
  }

  SameRecords-trans : (s t u : ValidatorStore) → SameRecords s t → SameRecords t u → SameRecords s u
  SameRecords-trans s t u h k = record {
    at_name = λ j. k.at_name j ∙ h.at_name j;
    param = k.param ∙ h.param;
  }

  pub update_lowest-SameRecords : (s : ValidatorStore) → SameRecords s (update_lowest_validator s).1
  update_lowest-SameRecords s = elim (update_lowest_state s) [
    | inl same ↦ SameRecords-refl s (update_lowest_validator s).1 same
    | inr (lst, p, n, e, changed) ↦
        subst (SameRecords s) (sym changed) (record { at_name = λ k. refl; param = refl })
  ]

  enter_lists-SameRecords :
      (username : String) (s : ValidatorStore) (param : ValidatorParam) (cur : Validator)
      (lst : ValidatorList)
      → s.validators cur.username ≡ some cur
      → SameRecords s (enter_lists username param cur lst s).1
  unfolding enter_lists
  enter_lists-SameRecords username s param cur lst e =
      elim (Bool-cases (is_in_list username lst.oncall_validators)) [
        | inl already ↦ rw already (SameRecords-refl s s refl)
        | inr absent ↦ elim (Result-cases (join_oncall param cur lst s)) [
          | inl (xs, joined) ↦
              rw (absent, joined)
                (record {
                  at_name = λ k.
                      ground (
                        arith,
                        get-insert cur.username cur s.validators k,
                        eq_iff cur.username k,
                        e,
                      );
                  param = refl;
                })
          | inr (x, failed) ↦ rw (absent, failed) (SameRecords-refl s s refl)
        ]
      ]

  pub try_become-SameRecords :
      (username : String) (s : ValidatorStore)
      → NamesMatch s
      → SameRecords s (try_become_oncall_validator username s).1
  try_become-SameRecords username s names = elim (try_become_state username s) [
    | inl same ↦ SameRecords-refl s (try_become_oncall_validator username s).1 same
    | inr (cur, param, lst, e, ep, el, entered) ↦
        let t = (enter_lists username param cur lst s).1 in
        subst (SameRecords s) (sym entered) (
          SameRecords-trans s t (update_lowest_validator t).1
            (enter_lists-SameRecords username s param cur lst
              (ap (λ j. s.validators j) (names username cur e) ∙ e))
            (update_lowest-SameRecords t))
  ]

  pub SameRecords-NamesMatch :
      (s t : ValidatorStore) → SameRecords s t → NamesMatch s → NamesMatch t
  SameRecords-NamesMatch s t same names k v e = names k v (sym (same.at_name k) ∙ e)

  pub adjust-SameRecords :
      (s : ValidatorStore) → NamesMatch s → SameRecords s (adjust_validator_list s).1
  adjust-SameRecords s names =
      let t = (update_lowest_validator s).1 in
      let first = update_lowest-SameRecords s in
      elim (adjust_state s) [
        | inl same ↦ subst (SameRecords s) (sym same) first
        | inr (best, _, joined) ↦ subst (SameRecords s) (sym joined) (
            SameRecords-trans s t (try_become_oncall_validator best t).1 first
              (try_become-SameRecords best t (SameRecords-NamesMatch s t first names)))
      ]

  pub remove-SameRecords :
      (username : String) (s : ValidatorStore)
      → NamesMatch s
      → SameRecords s (remove_validator_from_all_lists username s).1
  remove-SameRecords username s names = elim (remove_state username s) [
    | inl same ↦ SameRecords-refl s (remove_validator_from_all_lists username s).1 same
    | inr (lst, el, left) ↦
        let t = with_list (left_list username lst) s in
        subst (SameRecords s) (sym left) (
          SameRecords-trans s t (adjust_validator_list t).1
            (record { at_name = λ k. refl; param = refl }) (adjust-SameRecords t names))
  ]
