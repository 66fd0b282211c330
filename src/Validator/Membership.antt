-- ===== src/Validator/Membership.antt =====
-- Joining the oncall list, leaving all lists and adjusting them keep the invariant.
use lino.Sdk.{Sdk}
use lino.Validator.Store.{Validator, ValidatorList, ValidatorStore, ValidatorParam}
use lino.Validator.Lists.{
  enter_lists, join_oncall, try_become_oncall_validator, adjust_validator_list,
  remove_validator_from_all_lists, get_best_candidate, update_lowest_validator, best_of,
}
use lino.Validator.Invariant.{
  IsValid, join_oncall_lem, update_lowest-IsValid, with_list-IsValid, with_list,
}
use lino.Validator.Oncall.{NamesMatch, IsValidList}
use lino.Prelude.{
  String, ◌≡◌, List, arith, some, Bool-cases, if◌then◌else◌, true, eq_iff, ◌++◌, ◌∷◌, [], inl, inr,
  false, subst, Option-cases, some_eq, sym, ◌∙◌, ◌⊎◌, str_eq,
}
use lino.Prelude.Table.{insert, get-insert, string_key}
use lino.Types.Accounts.{
  contains, IsWithin, is_in_list, is_in_list_lem, contains-append, IsWithin-append, remove,
  remove-IsDistinct, remove-IsWithin, length-remove,
}
use lino.Prelude.Exec.{Result-cases, ok}
use lino.Types.Coin.{is_gte, new_coin_from_int64}
use lino.Prelude.Int.{ℤ, pos}

-- The list of all validators with `username` in it.
abbrev with_name : String → List String → List String
with_name username all = if is_in_list username all then all else all ++ username ∷ []

contains-with_name : (u : String) (all : List String) → contains u (with_name u all) ≡ true
contains-with_name u all =
    ground (arith, is_in_list_lem u all, contains-append u all (u ∷ []), eq_iff u u)

IsWithin-with_name :
    (u : String) (lst all : List String) → IsWithin lst all → IsWithin lst (with_name u all)
IsWithin-with_name u lst all h = elim (Bool-cases (is_in_list u all)) [
  | inl old ↦ rw old h
  | inr new ↦ rw new (IsWithin-append lst all (u ∷ []) h)
]

module _ ⦃sdk : Sdk⦄ where
  insert-NamesMatch :
      (s : ValidatorStore) (cur : Validator)
      → NamesMatch s
      → NamesMatch (record s { validators = insert cur.username cur s.validators })
  insert-NamesMatch s cur h k v e =
      ground (arith, get-insert cur.username cur s.validators k, h k v, eq_iff cur.username k)

  pub set_validator-IsValid :
      (s : ValidatorStore) (cur : Validator)
      → IsValid s
      → IsValid (record s { validators = insert cur.username cur s.validators })
  set_validator-IsValid s cur h = record {
    names = insert-NamesMatch s cur h.names;
    lists = h.lists;
  }

  enter_lists-IsValid :
      (s : ValidatorStore) (param : ValidatorParam) (cur : Validator) (lst : ValidatorList)
      → IsValid s
      → s.validator_list ≡ some lst
      → s.validator_param ≡ some param
      → IsValid (enter_lists cur.username param cur lst s).1
  unfolding enter_lists
  enter_lists-IsValid s param cur lst h el ep =
      elim (Bool-cases (is_in_list cur.username lst.oncall_validators)) [
        | inl already ↦ rw already h
        | inr absent ↦ elim (Result-cases (join_oncall param cur lst s)) [
          | inl (xs, joined) ↦
              let out : contains cur.username lst.oncall_validators ≡ false =
                ground (arith, is_in_list_lem cur.username lst.oncall_validators) in
              let v = h.lists lst param el ep in
              let all = with_name cur.username lst.all_validators in
              let good =
                join_oncall_lem s param cur lst all xs h.names v out
                  (contains-with_name cur.username lst.all_validators)
                  (IsWithin-with_name cur.username lst.oncall_validators lst.all_validators
                    v.within)
                  joined in
              rw (absent, joined)
                (set_validator-IsValid
                  (with_list (record lst { oncall_validators = xs; all_validators = all }) s) cur
                  (with_list-IsValid s (record lst { oncall_validators = xs; all_validators = all })
                    h
                    (λ param' k.
                      subst
                        (λ (q : ValidatorParam).
                          IsValidList q.validator_list_size
                            (record lst { oncall_validators = xs; all_validators = all }))
                        (some_eq (sym ep ∙ k))
                        (record { distinct = good.0; within = good.1; bounded = good.2 }))))
          | inr (x, failed) ↦ rw (absent, failed) h
        ]
      ]

  -- `TryBecomeOncallValidator` changes nothing, or enters the lists and then runs its `defer`.
  pub try_become_state :
      (username : String) (s : ValidatorStore)
      → ((try_become_oncall_validator username s).1 ≡ s)
        ⊎ ((cur : Validator) × (param : ValidatorParam) × (lst : ValidatorList) × (s.validators
                username
              ≡ some cur)
            × (s.validator_param ≡ some param)
            × (s.validator_list ≡ some lst)
            × ((try_become_oncall_validator username s).1
                ≡ (update_lowest_validator (enter_lists username param cur lst s).1).1))
  unfolding try_become_oncall_validator
  try_become_state username s = elim (Option-cases (s.validators username)) [
    | inl missing ↦ inl (ground arith)
    | inr (cur, e) ↦ elim (Option-cases s.validator_param) [
      | inl no_param ↦ inl (ground arith)
      | inr (param, ep) ↦ elim (Option-cases s.validator_list) [
        | inl no_list ↦ inl (ground arith)
        | inr (lst, el) ↦
            elim (Bool-cases (is_gte cur.deposit param.validator_min_committing_deposit)) [
              | inl enough ↦ inr (cur, param, lst, e, ep, el, ground arith)
              | inr short ↦ inl (ground arith)
            ]
      ]
    ]
  ]

  -- Joining the oncall list, whether it succeeds or fails, keeps the invariant.
  pub try_become-IsValid :
      (username : String) (s : ValidatorStore)
      → IsValid s
      → IsValid (try_become_oncall_validator username s).1
  try_become-IsValid username s h = elim (try_become_state username s) [
    | inl same ↦ subst IsValid (sym same) h
    | inr (cur, param, lst, e, ep, el, entered) ↦ subst IsValid (sym entered) (
        update_lowest-IsValid (enter_lists username param cur lst s).1 (
          subst (λ u. IsValid (enter_lists u param cur lst s).1) (h.names username cur e)
            (enter_lists-IsValid s param cur lst h el ep)))
  ]

  best_reads : (s : ValidatorStore) → (get_best_candidate s).1 ≡ s
  unfolding get_best_candidate
  best_reads s = elim (Option-cases s.validator_list) [
    | inl no_list ↦ ground arith
    | inr (lst, el) ↦
        elim (Result-cases
          (best_of s lst.oncall_validators lst.all_validators "" (new_coin_from_int64 (pos 0)))) [
            | inl (r, found) ↦ ground arith
            | inr (x, failed) ↦ ground arith
          ]
  ]

  -- `AdjustValidatorList` ends in the state that its last call leaves.
  pub adjust_state :
      (s : ValidatorStore)
      → let s₁ = (update_lowest_validator s).1 in
        ((adjust_validator_list s).1 ≡ s₁)
        ⊎ ((best : String) × ((get_best_candidate s₁).0 ≡ ok best)
            × ((adjust_validator_list s).1 ≡ (try_become_oncall_validator best s₁).1))
  unfolding adjust_validator_list
  adjust_state s =
      let s₁ = (update_lowest_validator s).1 in
      elim (Result-cases (update_lowest_validator s).0) [
        | inr (x, failed) ↦ inl (rw failed)
        | inl (_, done) ↦ elim (Result-cases (get_best_candidate s₁).0) [
          | inr (x, failed) ↦ inl (rw (done, failed) (best_reads s₁))
          | inl (best, found) ↦ elim (Bool-cases (str_eq best "")) [
            | inl nobody ↦ inl (rw (done, found, nobody) (best_reads s₁))
            | inr somebody ↦ inr (best, found, rw (done, found, somebody, best_reads s₁))
          ]
        ]
      ]

  pub adjust-IsValid : (s : ValidatorStore) → IsValid s → IsValid (adjust_validator_list s).1
  adjust-IsValid s h =
      let h₁ = update_lowest-IsValid s h in
      elim (adjust_state s) [
        | inl same ↦ subst IsValid (sym same) h₁
        | inr (best, _, joined) ↦
            subst IsValid (sym joined) (try_become-IsValid best (update_lowest_validator s).1 h₁)
      ]

  pub left_list : String → ValidatorList → ValidatorList
  left_list username lst = record lst {
    all_validators = remove username lst.all_validators;
    oncall_validators = remove username lst.oncall_validators;
  }

  -- `RemoveValidatorFromAllLists` changes nothing, or removes the name and adjusts.
  pub remove_state :
      (username : String) (s : ValidatorStore)
      → ((remove_validator_from_all_lists username s).1 ≡ s)
        ⊎ ((lst : ValidatorList) × (s.validator_list ≡ some lst)
            × ((remove_validator_from_all_lists username s).1
                ≡ (adjust_validator_list (with_list (left_list username lst) s)).1))
  unfolding remove_validator_from_all_lists left_list
  remove_state username s = elim (Option-cases s.validator_list) [
    | inl no_list ↦ inl (ground arith)
    | inr (lst, el) ↦ elim (Bool-cases (is_in_list username lst.all_validators)) [
      | inl listed ↦ inr (lst, el, ground arith)
      | inr unlisted ↦ inl (ground arith)
    ]
  ]

  left_list-IsValidList :
      (username : String) (size : ℤ) (lst : ValidatorList)
      → IsValidList size lst
      → IsValidList size (left_list username lst)
  unfolding left_list
  left_list-IsValidList username size lst v = record {
    distinct = remove-IsDistinct username lst.oncall_validators v.distinct;
    within = remove-IsWithin username lst.oncall_validators lst.all_validators v.within;
    bounded = omega (arith, length-remove username lst.oncall_validators, v.bounded);
  }

  -- Leaving all lists keeps the invariant.
  pub remove-IsValid :
      (username : String) (s : ValidatorStore)
      → IsValid s
      → IsValid (remove_validator_from_all_lists username s).1
  remove-IsValid username s h = elim (remove_state username s) [
    | inl same ↦ subst IsValid (sym same) h
    | inr (lst, el, left) ↦ subst IsValid (sym left) (
        adjust-IsValid (with_list (left_list username lst) s) (
          with_list-IsValid s (left_list username lst) h (λ param k.
            left_list-IsValidList username param.validator_list_size lst (h.lists lst param el k))))
  ]
