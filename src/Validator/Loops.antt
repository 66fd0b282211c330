-- ===== src/Validator/Loops.antt =====
-- Signing, the validator set and the loops of punishments keep the invariant.
use lino.Sdk.{Sdk}
use lino.Prelude.{Bool, List, String, if◌then◌else◌, ◌≡◌, ◌∷◌, ◌++◌, true, false, [], refl}
use lino.Validator.Signing.{
  sign_each, update_signing_validator, left_validators, current_validators,
  get_update_validator_list, record_signing, SigningValidator, or_panic, has_signed,
}
use lino.Validator.Keeps.{Keeps, Keeps-read, Keeps-bind, erase-IsValid, Keeps-if}
use lino.Validator.Penalty.{
  fire_one, fire_each, fire_incompetent_validator, punish_each, punish_validators_didnt_vote,
  PunishType, punish_oncall_validator, has_evidence, punish_didnt_vote, punish_byzantine,
  punish_absent_commit,
}
use lino.Validator.Store.{
  Validator, ValidatorList, ValidatorParam, read, delete_validator, get_validator,
  get_validator_list, get_validator_param, find_validator, find_validator_list,
}
use lino.Prelude.Exec.{◌>>=◌, ok, pure, ◌>>◌}
use lino.Types.Coin.{Coin, plus, is_zero, zero_coin}
use lino.Validator.Operations.{Keeps-edit_then, found_or_panic}
use lino.Prelude.Int.{pos, ltb_ℤ}
use lino.Validator.Steps.{punish-Keeps}
use lino.Types.Accounts.{is_in_list}

module _ ⦃sdk : Sdk⦄ where
  open sdk use {PubKey}

  username-record_signing :
      (signed : Bool) (v : Validator) → (record_signing signed v).username ≡ v.username
  username-record_signing true v = refl
  username-record_signing false v = refl

  sign_each-Keeps :
      (signing : List SigningValidator) (names : List String) → Keeps (sign_each signing names)
  unfolding sign_each
  sign_each-Keeps signing [] = Keeps-read λ s. ok tt
  sign_each-Keeps signing (cur ∷ names) =
      Keeps-edit_then cur (λ s. or_panic (find_validator cur s))
        (λ v. record_signing (has_signed signing v.abci_validator.address) v)
        (sign_each signing names) (found_or_panic cur)
        (λ v. username-record_signing (has_signed signing v.abci_validator.address) v)
        (sign_each-Keeps signing names)

  pub signing-Keeps : (signing : List SigningValidator) → Keeps (update_signing_validator signing)
  unfolding update_signing_validator
  signing-Keeps signing =
      Keeps-bind (read λ s. or_panic (find_validator_list s))
        (λ lst. sign_each signing lst.oncall_validators)
        (Keeps-read λ s. or_panic (find_validator_list s))
        (λ lst. sign_each-Keeps signing lst.oncall_validators)

  delete-Keeps : (b : Bool) (name : String) → Keeps (if b then delete_validator name else pure tt)
  unfolding Keeps
  delete-Keeps true name s h = erase-IsValid name s h
  delete-Keeps false name s h = h

  left-Keeps : (oncall names : List String) → Keeps (left_validators oncall names)
  unfolding left_validators
  left-Keeps oncall [] = Keeps-read λ s. ok []
  left-Keeps oncall (name ∷ names) =
      let go = λ (v : Validator). left_validators oncall names >>= λ rest.
      pure (record (v.abci_validator) { power = pos 0 } ∷ rest) in
      let clean =
        λ (v : Validator). if is_zero v.deposit then delete_validator v.username else pure tt in
      Keeps-if (is_in_list name oncall) (left_validators oncall names)
        (get_validator name >>= λ v. clean v >> go v) (left-Keeps oncall names)
        (Keeps-bind (get_validator name) (λ v. clean v >> go v) (Keeps-read (find_validator name))
          (λ v.
            Keeps-bind (clean v) (λ _. go v) (delete-Keeps (is_zero v.deposit) v.username)
              (λ _.
                Keeps-bind (left_validators oncall names) _ (left-Keeps oncall names)
                  (λ rest. Keeps-read _))))

  current-Keeps : (names : List String) → Keeps (current_validators names)
  unfolding current_validators
  current-Keeps [] = Keeps-read λ s. ok []
  current-Keeps (name ∷ names) =
      Keeps-bind (get_validator name)
        (λ v. current_validators names >>= λ rest. pure (v.abci_validator ∷ rest))
        (Keeps-read (find_validator name))
        (λ v. Keeps-bind (current_validators names) _ (current-Keeps names) (λ rest. Keeps-read _))

  pub update_list-Keeps : Keeps get_update_validator_list
  unfolding get_update_validator_list
  update_list-Keeps =
      let go = λ (lst : ValidatorList).
        left_validators lst.oncall_validators lst.pre_block_validators >>= λ left.
        current_validators lst.oncall_validators >>= λ current. pure (left ++ current) in
      Keeps-bind get_validator_list go (Keeps-read find_validator_list) (λ lst.
        Keeps-bind (left_validators lst.oncall_validators lst.pre_block_validators) _
          (left-Keeps lst.oncall_validators lst.pre_block_validators)
          (λ left.
            Keeps-bind (current_validators lst.oncall_validators) _
              (current-Keeps lst.oncall_validators) (λ current. Keeps-read _)))

  -- One punishment, if it is due, and the total with its penalty.
  punish_if-Keeps :
      (b : Bool) (name : String) (penalty : Coin) (punish_type : PunishType) (total : Coin)
      → Keeps (
          if b
          then (punish_oncall_validator name penalty punish_type >>= λ actual.
              pure (plus total actual))
          else pure total)
  punish_if-Keeps b name penalty punish_type total =
      Keeps-if b
        (punish_oncall_validator name penalty punish_type >>= λ actual. pure (plus total actual))
        (pure total)
        (Keeps-bind (punish_oncall_validator name penalty punish_type) _
          (punish-Keeps name penalty punish_type) (λ actual. Keeps-read _))
        (Keeps-read _)

  fire_one-Keeps :
      (param : ValidatorParam) (byzantine : List String) (name : String) (total : Coin)
      → Keeps (fire_one param byzantine name total)
  unfolding fire_one
  fire_one-Keeps param byzantine name total =
      Keeps-bind (get_validator name) _ (Keeps-read (find_validator name)) (λ v.
        Keeps-bind _ _
          (punish_if-Keeps (has_evidence v.abci_validator.address byzantine) v.username
            param.penalty_byzantine punish_byzantine total)
          (λ total₁.
            punish_if-Keeps (ltb_ℤ param.absent_commit_limitation v.absent_commit) v.username
              param.penalty_miss_commit punish_absent_commit total₁))

  fire_each-Keeps :
      (param : ValidatorParam) (byzantine names : List String) (total : Coin)
      → Keeps (fire_each param byzantine names total)
  unfolding fire_each
  fire_each-Keeps param byzantine [] total = Keeps-read λ s. ok total
  fire_each-Keeps param byzantine (name ∷ names) total =
      Keeps-bind (fire_one param byzantine name total) (fire_each param byzantine names)
        (fire_one-Keeps param byzantine name total)
        (λ total₁. fire_each-Keeps param byzantine names total₁)

  pub fire-Keeps : (byzantine : List String) → Keeps (fire_incompetent_validator byzantine)
  unfolding fire_incompetent_validator
  fire-Keeps byzantine = Keeps-bind get_validator_list _ (Keeps-read find_validator_list) (λ lst.
      Keeps-bind get_validator_param _ (Keeps-read _)
        (λ param. fire_each-Keeps param byzantine lst.oncall_validators zero_coin))

  punish_each-Keeps :
      (param : ValidatorParam) (names : List String) (total : Coin)
      → Keeps (punish_each param names total)
  unfolding punish_each
  punish_each-Keeps param [] total = Keeps-read λ s. ok total
  punish_each-Keeps param (name ∷ names) total =
      Keeps-bind (punish_oncall_validator name param.penalty_miss_vote punish_didnt_vote)
        (λ actual. punish_each param names (plus total actual))
        (punish-Keeps name param.penalty_miss_vote punish_didnt_vote)
        (λ actual. punish_each-Keeps param names (plus total actual))

  pub didnt_vote-Keeps : (names : List String) → Keeps (punish_validators_didnt_vote names)
  unfolding punish_validators_didnt_vote
  didnt_vote-Keeps names =
      Keeps-bind get_validator_param _ (Keeps-read _)
        (λ param. punish_each-Keeps param names zero_coin)
