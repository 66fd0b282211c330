-- ===== src/Handlers/Blocks.antt =====
-- What the start of a block does to the validators.
use lino.Sdk.{Sdk}
use lino.Prelude.{List, String, Option, ◌≡◌, some, none, Option-cases, inl, subst, sym, arith, inr}
use lino.Validator.Keeps.{Keeps, Keeps-bind}
use lino.Validator.Store.{ValidatorList, ValidatorStore, Method}
use lino.Handlers.Validator.{begin_block_validators}
use lino.Validator.Signing.{SigningValidator, update_signing_validator}
use lino.Validator.Penalty.{fire_incompetent_validator}
use lino.Validator.Invariant.{IsValid}
use lino.Validator.Reachable.{set_previous-IsValid}
use lino.Types.Coin.{Coin}
use lino.Validator.Loops.{fire-Keeps, signing-Keeps}
use lino.Prelude.Exec.{◌>>◌, ok, err}
use lino.Types.Errors.{panicked, validator_list_not_found}

module _ ⦃sdk : Sdk⦄ where
  fire : List String → Method (Option Coin)
  fire byzantine s =
      let (r, s') = fire_incompetent_validator byzantine s in
      (ok (elim r [ ok penalty ↦ some penalty | err _ ↦ none ]), s')

  quiet_fire-Keeps : (byzantine : List String) → Keeps (fire byzantine)
  unfolding Keeps fire
  quiet_fire-Keeps byzantine s h = kept s h
    where
      kept : Keeps (fire_incompetent_validator byzantine)
      kept = fire-Keeps byzantine

  rest-Keeps :
      (signing : List SigningValidator) (byzantine : List String)
      → Keeps (update_signing_validator signing >> fire byzantine)
  rest-Keeps signing byzantine =
      Keeps-bind (update_signing_validator signing) (λ _. fire byzantine) (signing-Keeps signing)
        (λ _. quiet_fire-Keeps byzantine)

  block_lem :
      (signing : List SigningValidator) (byzantine : List String) (s : ValidatorStore)
      (lst : ValidatorList)
      → s.validator_list ≡ some lst
      → begin_block_validators signing byzantine s
        ≡ (update_signing_validator signing >> fire byzantine) (record s {
          validator_list = some (record lst { pre_block_validators = lst.oncall_validators });
        })
  unfolding begin_block_validators fire
  block_lem signing byzantine s lst e = ground arith

  no_block :
      (signing : List SigningValidator) (byzantine : List String) (s : ValidatorStore)
      → s.validator_list ≡ none
      → begin_block_validators signing byzantine s ≡ (err (panicked validator_list_not_found), s)
  unfolding begin_block_validators
  no_block signing byzantine s e = ground arith

  run-IsValid :
      {A : Type 0} (m : Method A) (s : ValidatorStore) → Keeps m → IsValid s → IsValid (m s).1
  unfolding Keeps
  run-IsValid m s k h = k s h

  -- The start of a block, whatever it is told of signatures and evidence, and also where it fails or
  -- panics on the way, keeps the invariant of the validators.
  pub begin_block-IsValid :
      (signing : List SigningValidator) (byzantine : List String) (s : ValidatorStore)
      → IsValid s
      → IsValid (begin_block_validators signing byzantine s).1
  begin_block-IsValid signing byzantine s h = elim (Option-cases s.validator_list) [
    | inl missing ↦ subst (λ r. IsValid r.1) (sym (no_block signing byzantine s missing)) h
    | inr (lst, e) ↦
        subst (λ r. IsValid r.1) (sym (block_lem signing byzantine s lst e))
          (run-IsValid _ _ (rest-Keeps signing byzantine) (set_previous-IsValid lst s e h))
  ]
