-- ===== src/Validator/Operations.antt =====
-- The remaining operations keep the invariant; the stores that sequences of operations reach.
use lino.Sdk.{Sdk}
use lino.Validator.Keeps.{Keeps, Keeps-bind, Keeps-if, Keeps-read, insert-IsValid}
use lino.Prelude.{
  String, List, ◌≡◌, some, ◌∷◌, if◌then◌else◌, arith, str_eq, refl, not, [], inl, ◌∙◌, inr,
}
use lino.Validator.Deposits.{
  deposit_validator, validator_withdraw, validator_withdraw_all, check_key_unused,
  register_validator, fresh_validator,
}
use lino.Validator.Store.{
  ValidatorStore, Validator, find_validator, get_validator, set_validator, ValidatorList, read,
  get_validator_param, get_validator_list, find_validator_list, Method,
}
use lino.Types.Coin.{Coin, plus, is_zero, minus, is_gte}
use lino.Prelude.Exec.{Result, ok, ◌>>◌, raise, pure, err, ◌>>=◌, Result-cases}
use lino.Types.Errors.{Error, invalid_coin, validator_pub_key_already_exist, insufficient_deposit}
use lino.Validator.Signing.{or_panic}
use lino.Prelude.Table.{insert, string_key}

module _ ⦃sdk : Sdk⦄ where
  open sdk use {PubKey, AbciPubKey}

  -- To read a validator's record and write it back changed, under the same username.
  Keeps-edit :
      (name : String) (r : ValidatorStore → Result Error Validator) (f : Validator → Validator)
      → ((s : ValidatorStore) (v : Validator) → r s ≡ ok v → s.validators name ≡ some v)
      → ((v : Validator) → (f v).username ≡ v.username)
      → Keeps (read r >>= λ v. set_validator name (f v))
  unfolding Keeps
  Keeps-edit name r f found same s h = elim (Result-cases (r s)) [
    | inl (v, e) ↦ rw e (insert-IsValid name (f v) s (same v ∙ h.names name v (found s v e)) h)
    | inr (x, e) ↦ rw e h
  ]

  -- The same, and then something that keeps the invariant.
  pub Keeps-edit_then :
      {B : Type 0} (name : String) (r : ValidatorStore → Result Error Validator)
      (f : Validator → Validator) (k : Method B)
      → ((s : ValidatorStore) (v : Validator) → r s ≡ ok v → s.validators name ≡ some v)
      → ((v : Validator) → (f v).username ≡ v.username)
      → Keeps k
      → Keeps (read r >>= λ v. set_validator name (f v) >> k)
  unfolding Keeps
  Keeps-edit_then name r f k found same kept s h = elim (Result-cases (r s)) [
    | inl (v, e) ↦ rw e (
        kept (record s { validators = insert name (f v) s.validators })
          (insert-IsValid name (f v) s (same v ∙ h.names name v (found s v e)) h))
    | inr (x, e) ↦ rw e h
  ]

  found_validator :
      (name : String) (s : ValidatorStore) (v : Validator)
      → find_validator name s ≡ ok v
      → s.validators name ≡ some v
  found_validator name s v h = ground arith

  pub found_or_panic :
      (name : String) (s : ValidatorStore) (v : Validator)
      → or_panic (find_validator name s) ≡ ok v
      → s.validators name ≡ some v
  found_or_panic name s v h = ground arith

  pub deposit-Keeps :
      (username : String) (coin : Coin) (link : String)
      → Keeps (deposit_validator username coin link)
  unfolding deposit_validator
  deposit-Keeps username coin link =
      Keeps-edit username (find_validator username)
        (λ v. record v {
          deposit = plus v.deposit coin;
          link = if str_eq link "" then v.link else link;
        })
        (found_validator username) (λ v. refl)

  pub withdraw-Keeps : (username : String) (coin : Coin) → Keeps (validator_withdraw username coin)
  unfolding validator_withdraw
  withdraw-Keeps username coin =
      Keeps-if (is_zero coin) (raise invalid_coin)
        (get_validator username >>= λ v.
          set_validator username (record v { deposit = minus v.deposit coin }))
        (Keeps-read λ s. err invalid_coin)
        (Keeps-edit username (find_validator username)
          (λ v. record v { deposit = minus v.deposit coin }) (found_validator username) (λ v. refl))

  pub withdraw_all-Keeps : (username : String) → Keeps (validator_withdraw_all username)
  unfolding validator_withdraw_all
  withdraw_all-Keeps username =
      Keeps-bind (get_validator username)
        (λ v. validator_withdraw username v.deposit >> pure v.deposit)
        (Keeps-read (find_validator username))
        (λ v.
          Keeps-bind (validator_withdraw username v.deposit) (λ _. pure v.deposit)
            (withdraw-Keeps username v.deposit) (λ _. Keeps-read λ s. ok v.deposit))

  check_key-Keeps : (key : AbciPubKey) (names : List String) → Keeps (check_key_unused key names)
  unfolding check_key_unused
  check_key-Keeps key [] = Keeps-read λ s. ok tt
  check_key-Keeps key (name ∷ names) =
      Keeps-bind (get_validator name)
        (λ v.
          if sdk.abci_key_equal v.abci_validator.pub_key key
          then raise validator_pub_key_already_exist
          else check_key_unused key names)
        (Keeps-read (find_validator name))
        (λ v.
          Keeps-if (sdk.abci_key_equal v.abci_validator.pub_key key)
            (raise validator_pub_key_already_exist) (check_key_unused key names)
            (Keeps-read λ s. err validator_pub_key_already_exist) (check_key-Keeps key names))

  set_fresh-Keeps :
      (username : String) (key : PubKey) (coin : Coin) (link : String)
      → Keeps (set_validator username (fresh_validator username key coin link))
  unfolding Keeps
  set_fresh-Keeps username key coin link s h =
      insert-IsValid username (fresh_validator username key coin link) s refl h

  pub register-Keeps :
      (username : String) (key : PubKey) (coin : Coin) (link : String)
      → Keeps (register_validator username key coin link)
  unfolding register_validator
  register-Keeps username key coin link =
      let write = set_validator username (fresh_validator username key coin link) in
      let check = λ (lst : ValidatorList). check_key_unused (sdk.to_abci key) lst.all_validators in
      Keeps-bind get_validator_param _ (Keeps-read _) (λ param.
        Keeps-if (not (is_gte coin param.validator_min_committing_deposit))
          (raise insufficient_deposit) (get_validator_list >>= λ lst. check lst >> write)
          (Keeps-read λ s. err insufficient_deposit)
          (Keeps-bind get_validator_list (λ lst. check lst >> write)
            (Keeps-read find_validator_list)
            (λ lst.
              Keeps-bind (check lst) (λ _. write)
                (check_key-Keeps (sdk.to_abci key) lst.all_validators)
                (λ _. set_fresh-Keeps username key coin link))))
