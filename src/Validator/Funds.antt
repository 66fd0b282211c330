-- ===== src/Validator/Funds.antt =====
-- What registering, depositing and withdrawing do to a validator's deposit.
use lino.Sdk.{Sdk}
use lino.Prelude.{
  String, List, ◌≡◌, some, if◌then◌else◌, str_eq, ◌≢◌, true, ◌⊎◌, Option-cases, false, inl, ◌∷◌,
  arith, inr, Bool-cases, subst, [], refl,
}
use lino.Validator.Deposits.{
  is_legal_withdraw, deposit_validator, check_key_unused, register_validator, validator_withdraw,
  fresh_validator,
}
use lino.Validator.Store.{ValidatorStore, Validator, ValidatorParam, ValidatorList}
use lino.Types.Coin.{
  Coin, worth, plus, minus, is_zero_lem, is_gte_lem, worth-minus, worth-plus, is_zero,
}
use lino.Prelude.Int.{pos, ◌≤ℤ◌, ◌+ℤ◌, eq_ℤ_iff, int_laws}
use lino.Prelude.Exec.{ok, ◌>>◌, err}
use lino.Prelude.Lists.{All}
use lino.Types.Accounts.{contains, is_in_list_lem}
use lino.Types.Errors.{Error, validator_not_found, validator_pub_key_already_exist}
use lino.Prelude.Table.{insert, get-insert_self, get-insert, string_key}

module _ ⦃sdk : Sdk⦄ where
  open sdk use {PubKey, AbciPubKey, to_abci, abci_key_equal}

  -- `username`'s record is `v'`, every other record is what it was, and so are the list and the parameters.
  abbrev pub Writes : String → Validator → ValidatorStore → ValidatorStore → Type 0
  Writes username v' s s' =
      ((j : String) → s'.validators j ≡ (if str_eq username j then some v' else s.validators j))
      × (s'.validator_list ≡ s.validator_list)
      × (s'.validator_param ≡ s.validator_param)

  -- A withdrawal of a positive amount that `IsLegalWithdraw` allows succeeds for a validator that is
  -- not oncall. The deposit falls by the amount, which is at least the minimum to withdraw, and what is
  -- left is at least the minimum for a validator. Nothing else of the validator's record changes, no
  -- other record does, and neither do the list and the parameters.
  pub withdraw_legal :
      (username : String) (coin : Coin) (s : ValidatorStore)
      → pos 1 ≤ℤ worth coin
      → is_legal_withdraw username coin s ≡ true
      → (v v' : Validator) × (param : ValidatorParam) × (lst : ValidatorList)
        × (s' : ValidatorStore) × (s.validators username ≡ some v)
        × (s.validator_param ≡ some param)
        × (s.validator_list ≡ some lst)
        × (contains username lst.oncall_validators ≡ false)
        × (validator_withdraw username coin s ≡ (ok tt, s'))
        × Writes username v' s s'
        × (v' ≡ record v { deposit = v'.deposit })
        × (worth v'.deposit +ℤ worth coin ≡ worth v.deposit)
        × (worth param.validator_min_withdraw ≤ℤ worth coin)
        × (worth param.validator_min_committing_deposit ≤ℤ worth v'.deposit)
  unfolding is_legal_withdraw validator_withdraw
  withdraw_legal username coin s positive h = elim (Option-cases (s.validators username)) [
    | inl missing ↦ absurd (ground arith)
    | inr (v, ev) ↦ elim (Option-cases s.validator_param) [
      | inl missing ↦ absurd (ground arith)
      | inr (param, ep) ↦ elim (Option-cases s.validator_list) [
        | inl missing ↦ absurd (ground arith)
        | inr (lst, el) ↦
            let v' = record v { deposit = minus v.deposit coin } in
            (
              v,
              v',
              param,
              lst,
              record s { validators = insert username v' s.validators },
              ev,
              ep,
              el,
              ground (arith, is_in_list_lem username lst.oncall_validators),
              ground (arith, is_zero_lem coin),
              ((λ j. get-insert username v' s.validators j), refl, refl),
              refl,
              grind (int_laws, worth-minus v.deposit coin),
              ground (arith, is_gte_lem coin param.validator_min_withdraw),
              ground
                  (arith, is_gte_lem (minus v.deposit coin) param.validator_min_committing_deposit),
            )
      ]
    ]
  ]

  deposited :
      (username : String) (coin : Coin) (link : String) (s : ValidatorStore) (v : Validator)
      → s.validators username ≡ some v
      → let v₁ = record v {
        deposit = plus v.deposit coin;
        link = if str_eq link "" then v.link else link;
      } in
        deposit_validator username coin link s
        ≡ (ok tt, record s { validators = insert username v₁ s.validators })
  unfolding deposit_validator
  deposited username coin link s v ev = ground arith

  pub withdrawn :
      (username : String) (coin : Coin) (s : ValidatorStore) (v : Validator)
      → worth coin ≢ pos 0
      → s.validators username ≡ some v
      → validator_withdraw username coin s ≡ (
        ok tt,
        record s {
          validators = insert username (record v { deposit = minus v.deposit coin }) s.validators;
        },
      )
  unfolding validator_withdraw
  withdrawn username coin s v nonzero ev =
      let positive : is_zero coin ≡ false =
        ground (arith, is_zero_lem coin, eq_ℤ_iff (worth coin) (pos 0)) in
      ground arith

  -- For a validator on record: to deposit an amount other than zero and withdraw it again succeeds both
  -- times, and leaves the deposit's worth, every other record, the list and the parameters as they were.
  pub deposit_withdraw :
      (username : String) (coin : Coin) (link : String) (s : ValidatorStore) (v : Validator)
      → s.validators username ≡ some v
      → worth coin ≢ pos 0
      → (v' : Validator) × (s' : ValidatorStore) × ((deposit_validator username coin link
              >> validator_withdraw username coin)
            s
          ≡ (ok tt, s'))
        × Writes username v' s s'
        × (worth v'.deposit ≡ worth v.deposit)
  deposit_withdraw username coin link s v ev nonzero =
      let link' = if str_eq link "" then v.link else link in
      let v₁ = record v { deposit = plus v.deposit coin; link = link' } in
      let v' = record v₁ { deposit = minus v₁.deposit coin } in
      let t = insert username v₁ s.validators in
      (
        v',
        record s { validators = insert username v' t },
        rw (deposited username coin link s v ev) (
            withdrawn username coin (record s { validators = t }) v₁ nonzero
              (get-insert_self username v₁ s.validators)),
        (
          (λ j. ground (arith, get-insert username v' t j, get-insert username v₁ s.validators j)),
          refl,
          refl,
        ),
        grind (int_laws, worth-minus v₁.deposit coin, worth-plus v.deposit coin),
      )

  -- The validator that is on record under a name, and whose key is another one.
  abbrev pub HasOtherKey : AbciPubKey → ValidatorStore → String → Type 0
  HasOtherKey key s name =
      (v : Validator) × (s.validators name ≡ some v) × (v.abci_validator.pub_key ≢ key)

  check_key_lem :
      (key : AbciPubKey) (names : List String) (s : ValidatorStore)
      → (check_key_unused key names s ≡ (ok tt, s)) × All (HasOtherKey key s) names
        ⊎ ((e : Error) × (check_key_unused key names s ≡ (err e, s)))
  unfolding check_key_unused
  check_key_lem key [] s = inl (refl, tt)
  check_key_lem key (name ∷ names) s = elim (Option-cases (s.validators name)) [
    | inl missing ↦ inr (validator_not_found, ground arith)
    | inr (v, ev) ↦ elim (Bool-cases (abci_key_equal v.abci_validator.pub_key key)) [
      | inl same ↦ inr (validator_pub_key_already_exist, ground arith)
      | inr other ↦ elim (check_key_lem key names s) [
        | inl (unused, all) ↦ inl (
          ground (arith, unused),
          (
            (
              v,
              ev,
              λ e. absurd (ground (arith, sdk.abci_key_equal_iff v.abci_validator.pub_key key)),
            ),
            all,
          ),
        )
        | inr (x, failed) ↦ inr (x, ground (arith, failed))
      ]
    ]
  ]

  -- A registration that succeeds: the amount is at least the minimum for a validator, all listed
  -- validators are on record with another key, and only the new validator's record is written, with
  -- the amount as its deposit and the key.
  pub register_fresh :
      (username : String) (key : PubKey) (coin : Coin) (link : String) (s s' : ValidatorStore)
      → register_validator username key coin link s ≡ (ok tt, s')
      → (v : Validator) × (param : ValidatorParam) × (lst : ValidatorList) × (s.validator_param
          ≡ some param)
        × (s.validator_list ≡ some lst)
        × (worth param.validator_min_committing_deposit ≤ℤ worth coin)
        × All (HasOtherKey (to_abci key) s) lst.all_validators
        × Writes username v s s'
        × (v.deposit ≡ coin)
        × (v.abci_validator.pub_key ≡ to_abci key)
  unfolding register_validator
  register_fresh username key coin link s s' h = elim (Option-cases s.validator_param) [
    | inl missing ↦ absurd (ground arith)
    | inr (param, ep) ↦ elim (Option-cases s.validator_list) [
      | inl missing ↦ absurd (ground arith)
      | inr (lst, el) ↦ elim (check_key_lem (to_abci key) lst.all_validators s) [
        | inl (unused, all) ↦
            let v = fresh_validator username key coin link in
            let state : record s { validators = insert username v s.validators } ≡ s' =
              ground arith in
            (
              v,
              param,
              lst,
              ep,
              el,
              ground (arith, is_gte_lem coin param.validator_min_committing_deposit),
              all,
              subst (Writes username v s) state
                  ((λ j. get-insert username v s.validators j), refl, refl),
              refl,
              refl,
            )
        | inr (x, failed) ↦ absurd (ground (arith, failed))
      ]
    ]
  ]
