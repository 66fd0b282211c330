-- ===== src/Validator/Invariant.antt =====
-- The invariant of the validator store, and the operations on the lists that keep it.
use lino.Prelude.{
  String, List, [], ◌∷◌, ◌++◌, ◌≡◌, ◌⊎◌, true, false, some, arith, subst, Option-cases, Bool-cases,
  inl, inr, some_eq, sym, ap,
}
use lino.Prelude.Int.{pos, ◌≤ℤ◌, ltb_ℤ}
use lino.Prelude.Lists.{length, length-snoc}
use lino.Prelude.Exec.{ok, Result-cases, Result}
use lino.Prelude.Table.{string_key}
use lino.Sdk.{Sdk}
use lino.Types.Errors.{Error}
use lino.Types.Coin.{is_gt, new_coin_from_int64, Coin}
use lino.Types.Accounts.{contains, IsDistinct, IsWithin, snoc-IsWithin, snoc-IsDistinct}
use lino.Validator.Store.{Validator, ValidatorList, ValidatorStore, ValidatorParam}
use lino.Validator.Lists.{join_oncall, update_lowest_validator, lowest_of, max_int64}
use lino.Validator.Lowest.{update_lowest_step}
use lino.Validator.Oncall.{
  NamesMatch, IsValidList, replace_lowest_lem, swapped-IsDistinct, swapped-IsWithin, length-swapped,
  swapped,
}

module _ ⦃sdk : Sdk⦄ where
  pub record IsValid (s : ValidatorStore) : Type 0 where
    pub names : NamesMatch s
    pub lists :
        (lst : ValidatorList) (param : ValidatorParam)
        → s.validator_list ≡ some lst
        → s.validator_param ≡ some param
        → IsValidList param.validator_list_size lst

  -- What may differ after a change of the list: only the list.
  abbrev pub with_list : ValidatorList → ValidatorStore → ValidatorStore
  with_list lst s = record s { validator_list = some lst }

  pub with_list-IsValid :
      (s : ValidatorStore) (lst : ValidatorList)
      → IsValid s
      → ((param : ValidatorParam)
          → s.validator_param ≡ some param
          → IsValidList param.validator_list_size lst)
      → IsValid (with_list lst s)
  with_list-IsValid s lst h k = record {
    names = h.names;
    lists = λ lst' param e p. subst (IsValidList param.validator_list_size) (some_eq e) (k param p);
  }

  -- `updateLowestValidator` changes nothing, or only the two fields of the list that it computes.
  pub update_lowest_state :
      (s : ValidatorStore)
      → ((update_lowest_validator s).1 ≡ s)
        ⊎ ((lst : ValidatorList) × (p : Coin) × (n : String) × (s.validator_list ≡ some lst)
            × ((update_lowest_validator s).1
                ≡ with_list (record lst { lowest_power = p; lowest_validator = n }) s))
  update_lowest_state s = elim (Option-cases s.validator_list) [
    | inl missing ↦ inl (unfold update_lowest_validator in ground arith)
    | inr (lst, e) ↦
        elim (Result-cases (lowest_of s lst.oncall_validators (new_coin_from_int64 max_int64) "")) [
          | inl ((p, n), found) ↦ inr (
            lst,
            p,
            n,
            e,
            ap (λ (r : Result Error Unit × ValidatorStore). r.1)
                (update_lowest_step s lst p n e found),
          )
          | inr (x, failed) ↦ inl (unfold update_lowest_validator in ground arith)
        ]
  ]

  pub update_lowest-IsValid :
      (s : ValidatorStore) → IsValid s → IsValid (update_lowest_validator s).1
  update_lowest-IsValid s h = elim (update_lowest_state s) [
    | inl same ↦ subst IsValid (sym same) h
    | inr (lst, p, n, e, changed) ↦ subst IsValid (sym changed) (
        with_list-IsValid s (record lst { lowest_power = p; lowest_validator = n }) h
          (λ param k.
            let v = h.lists lst param e k in
            record { distinct = v.distinct; within = v.within; bounded = v.bounded }))
  ]

  pub join_oncall_lem :
      (s : ValidatorStore) (param : ValidatorParam) (cur : Validator) (lst : ValidatorList)
      (all xs : List String)
      → NamesMatch s
      → IsValidList param.validator_list_size lst
      → contains cur.username lst.oncall_validators ≡ false
      → contains cur.username all ≡ true
      → IsWithin lst.oncall_validators all
      → join_oncall param cur lst s ≡ ok xs
      → IsDistinct xs × IsWithin xs all × (pos (length xs) ≤ℤ param.validator_list_size)
  unfolding join_oncall
  join_oncall_lem s param cur lst all xs names v out m within h =
      elim (Bool-cases (ltb_ℤ (pos (length lst.oncall_validators)) param.validator_list_size)) [
        | inl room ↦
            let eq : lst.oncall_validators ++ cur.username ∷ [] ≡ xs = ground arith in
            subst Good eq (
              snoc-IsDistinct cur.username lst.oncall_validators out v.distinct,
              snoc-IsWithin cur.username lst.oncall_validators all m within,
              rw length-snoc (ground arith),
            )
        | inr full ↦ elim (Bool-cases (is_gt cur.deposit lst.lowest_power)) [
          | inl stronger ↦
              let eq : xs ≡ swapped lst.lowest_validator cur.username lst.oncall_validators =
                replace_lowest_lem s lst.lowest_validator cur.username lst.oncall_validators xs
                  names (ground arith) in
              rw eq (
                swapped-IsDistinct lst.lowest_validator cur.username lst.oncall_validators out
                    v.distinct,
                swapped-IsWithin lst.lowest_validator cur.username lst.oncall_validators all m
                    within,
                rw length-swapped v.bounded,
              )
          | inr weaker ↦
              let eq : lst.oncall_validators ≡ xs = ground arith in
              subst Good eq (v.distinct, within, v.bounded)
        ]
      ]
    where
      Good : List String → Type 0
      Good ys = IsDistinct ys × IsWithin ys all × (pos (length ys) ≤ℤ param.validator_list_size)
