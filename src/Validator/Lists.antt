-- ===== src/Validator/Lists.antt =====
-- x/validator/manager.go: the oncall list, its lowest validator, and who joins and leaves it.
use lino.Prelude.{String, not, ◌&&◌, none, some, List, [], ◌∷◌, ◌++◌, if◌then◌else◌, str_eq}
use lino.Prelude.Int.{ℤ, pos, ltb_ℤ}
use lino.Prelude.Lists.{length}
use lino.Prelude.Exec.{Result, ok, err, ◌>>=◌, ◌>>◌, pure, raise}
use lino.Sdk.{Sdk}
use lino.Types.Coin.{Coin, new_coin_from_int64, is_gt, is_gte}
use lino.Types.Accounts.{is_in_list, remove}
use lino.Types.Errors.{Error, insufficient_deposit}
use lino.Validator.Store.{
  Validator, ValidatorList, ValidatorParam, ValidatorStore, Method, read, get_validator,
  set_validator, get_validator_list, set_validator_list, get_validator_param,
}

module _ ⦃sdk : Sdk⦄ where
  -- The loop of `updateLowestValidator`: the lowest power so far and who has it.
  unfoldable pub lowest_of :
      ValidatorStore → List String → Coin → String → Result Error (Coin × String)
  lowest_of s [] power name = ok (power, name)
  lowest_of s (key ∷ keys) power name = elim (s.validators key) [
    | none ↦ err Error.validator_not_found
    | some v ↦
        let lower = is_gt power v.deposit in
        lowest_of s keys (if lower then v.deposit else power) (if lower then v.username else name)
  ]

  -- `math.MaxInt64`
  abbrev pub max_int64 : ℤ
  max_int64 = pos 9223372036854775807

  unfoldable pub update_lowest_validator : Method Unit
  update_lowest_validator = do
    lst ← get_validator_list
    (power, name) ← read (λ s. lowest_of s lst.oncall_validators (new_coin_from_int64 max_int64) "")
    set_validator_list (record lst { lowest_power = power; lowest_validator = name })

  -- The loop of `getBestCandidate`.
  unfoldable pub best_of :
      ValidatorStore → List String → List String → String → Coin → Result Error (String × Coin)
  best_of s oncall [] best power = ok (best, power)
  best_of s oncall (name ∷ names) best power = elim (s.validators name) [
    | none ↦ err Error.validator_not_found
    | some v ↦
        let better = not (is_in_list name oncall) && is_gt v.deposit power in
        best_of s oncall names (if better then v.username else best)
          (if better then v.deposit else power)
  ]

  unfoldable pub get_best_candidate : Method String
  get_best_candidate = do
    lst ← get_validator_list
    (best, _) ←
        read
          λ s. best_of s lst.oncall_validators lst.all_validators "" (new_coin_from_int64 (pos 0))
    pure best

  -- The loop of `TryBecomeOncallValidator` that puts `cur` in the place of the lowest validator.
  unfoldable pub replace_lowest :
      ValidatorStore → String → String → List String → Result Error (List String)
  replace_lowest s lowest cur [] = ok []
  replace_lowest s lowest cur (key ∷ keys) = elim (s.validators key) [
    | none ↦ err Error.validator_not_found
    | some v ↦ elim (replace_lowest s lowest cur keys) [
      | err e ↦ err e
      | ok rest ↦ ok ((if str_eq v.username lowest then cur else key) ∷ rest)
    ]
  ]

  -- `defer`: the cleanup runs on every return, and its error is dropped.
  abbrev pub with_defer : {A : Type 0} → Method Unit → Method A → Method A
  with_defer cleanup m s = let (r, s') = m s in (r, (cleanup s').1)

  -- The oncall list with `cur` in it, if there is room or it has more power than the lowest.
  unfoldable pub join_oncall :
      ValidatorParam → Validator → ValidatorList → ValidatorStore → Result Error (List String)
  join_oncall param cur lst s =
      if ltb_ℤ (pos (length lst.oncall_validators)) param.validator_list_size
      then ok (lst.oncall_validators ++ cur.username ∷ [])
      else if is_gt cur.deposit lst.lowest_power
      then replace_lowest s lst.lowest_validator cur.username lst.oncall_validators
      else ok lst.oncall_validators

  -- The part of `TryBecomeOncallValidator` that stands behind the `defer`.
  unfoldable pub enter_lists : String → ValidatorParam → Validator → ValidatorList → Method Unit
  enter_lists username param cur lst =
      if is_in_list username lst.oncall_validators then pure tt else do
        oncall ← read (join_oncall param cur lst)
        let all =
            if is_in_list username lst.all_validators
            then lst.all_validators
            else lst.all_validators ++ username ∷ []
        set_validator_list (record lst { oncall_validators = oncall; all_validators = all })
        set_validator cur.username cur

  unfoldable pub try_become_oncall_validator : String → Method Unit
  try_become_oncall_validator username = do
    cur ← get_validator username
    param ← get_validator_param
    if not (is_gte cur.deposit param.validator_min_committing_deposit)
        then raise insufficient_deposit
        else do
          lst ← get_validator_list
          with_defer update_lowest_validator (enter_lists username param cur lst)

  unfoldable pub adjust_validator_list : Method Unit
  adjust_validator_list = do
    update_lowest_validator
    best ← get_best_candidate
    if str_eq best "" then pure tt else try_become_oncall_validator best

  unfoldable pub remove_validator_from_all_lists : String → Method Unit
  remove_validator_from_all_lists username = do
    lst ← get_validator_list
    if not (is_in_list username lst.all_validators) then pure tt else do
      set_validator_list (record lst {
        all_validators = remove username lst.all_validators;
        oncall_validators = remove username lst.oncall_validators;
      })
      adjust_validator_list
