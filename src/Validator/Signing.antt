-- ===== src/Validator/Signing.antt =====
-- x/validator/manager.go: who signed the last block, and the validator set that a block hands to
-- Tendermint.
use lino.Sdk.{Sdk}
use lino.Prelude.{
  String, List, Bool, Option, none, ◌∷◌, if◌then◌else◌, str_eq, false, some, [], ◌++◌,
}
use lino.Prelude.Exec.{Result, pure, ok, err, ◌>>=◌, ◌>>◌}
use lino.Validator.Store.{
  Method, Validator, AbciValidator, read, get_validator, get_validator_list, find_validator,
  find_validator_list, set_validator, delete_validator,
}
use lino.Types.Errors.{Error, panicked}
use lino.Prelude.Int64.{add64, sub64}
use lino.Types.Accounts.{is_in_list}
use lino.Prelude.Int.{pos, ltb_ℤ}
use lino.Types.Coin.{is_zero}

-- `abci.SigningValidator`, as far as the code uses it
pub record SigningValidator : Type 0 where
  pub address : String
  pub signed_last_block : Bool

-- `pkToSigningInfo[address]`: of several entries, the map keeps the last.
unfoldable pub signing_info : List SigningValidator → String → Option Bool
signing_info [] address = none
signing_info (v ∷ vs) address = elim (signing_info vs address) [
  | none ↦ if str_eq v.address address then some v.signed_last_block else none
  | some signed ↦ some signed
]

abbrev pub has_signed : List SigningValidator → String → Bool
has_signed signing address = elim (signing_info signing address) [
  | none ↦ false
  | some signed ↦ signed
]

module _ ⦃sdk : Sdk⦄ where
  abbrev pub record_signing : Bool → Validator → Validator
  record_signing signed v =
      if signed
      then record v {
        produced_blocks = add64 v.produced_blocks (pos 1);
        absent_commit =
            if ltb_ℤ (pos 0) v.absent_commit
            then sub64 v.absent_commit (pos 1)
            else v.absent_commit;
      }
      else record v { absent_commit = add64 v.absent_commit (pos 1) }

  -- Turns an error into a panic.
  abbrev pub or_panic : {A : Type 0} → Result Error A → Result Error A
  or_panic (ok a) = ok a
  or_panic (err e) = err (panicked e)

  -- The loop over the oncall validators.
  unfoldable pub sign_each : List SigningValidator → List String → Method Unit
  sign_each signing [] = pure tt
  sign_each signing (cur ∷ names) = do
    validator ← read (λ s. or_panic (find_validator cur s))
    set_validator cur
        (record_signing (has_signed signing validator.abci_validator.address) validator)
    sign_each signing names

  unfoldable pub update_signing_validator : List SigningValidator → Method Unit
  update_signing_validator signing = do
    lst ← read (λ s. or_panic (find_validator_list s))
    sign_each signing lst.oncall_validators

  -- The loop over the validators of the block before: those that left get the power 0.
  unfoldable pub left_validators : List String → List String → Method (List AbciValidator)
  left_validators oncall [] = pure []
  left_validators oncall (name ∷ names) =
      if is_in_list name oncall then left_validators oncall names else do
        validator ← get_validator name
        if is_zero validator.deposit then delete_validator validator.username else pure tt
        rest ← left_validators oncall names
        pure (record (validator.abci_validator) { power = pos 0 } ∷ rest)

  unfoldable pub current_validators : List String → Method (List AbciValidator)
  current_validators [] = pure []
  current_validators (name ∷ names) = do
    validator ← get_validator name
    rest ← current_validators names
    pure (validator.abci_validator ∷ rest)

  unfoldable pub get_update_validator_list : Method (List AbciValidator)
  get_update_validator_list = do
    lst ← get_validator_list
    left ← left_validators lst.oncall_validators lst.pre_block_validators
    current ← current_validators lst.oncall_validators
    pure (left ++ current)
