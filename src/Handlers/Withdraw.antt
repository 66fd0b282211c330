-- ===== src/Handlers/Withdraw.antt =====
-- The withdrawal of a validator's deposit, from the message to the events that return the coin.
use lino.Sdk.{Sdk}
use lino.Prelude.{
  String, ◌≡◌, some, true, arith, ℕ, suc, ◌⊎◌, Option-cases, ◌∙◌, ap, inl, subst, inr, sym, refl,
  List, false,
}
use lino.Handlers.Validator.{handle_withdraw_msg}
use lino.Types.Coin.{Coin, minus, lino_to_coin, worth, is_gte_lem, worth-minus}
use lino.Prelude.Int.{ℤ, pos, ◌≤ℤ◌, ◌+ℤ◌, int_laws}
use lino.Validator.Store.{Validator, ValidatorParam, ValidatorStore}
use lino.Handlers.Store.{AppStore, return_coin_to, validator_return_coin, return_events}
use lino.Prelude.Table.{insert, string_key, get-insert}
use lino.Validator.Deposits.{is_legal_withdraw, validator_withdraw}
use lino.Prelude.Exec.{ok, err, Result}
use lino.Account.Bank.{AccountBank, AccountParam, FrozenMoney}
use lino.Global.Schedule.{NotPast, return_time}
use lino.Account.CoinReturn.{create_coin_return_events}
use lino.Types.Errors.{frozen_money_list_too_long, Error}
use lino.Validator.Funds.{Writes, withdraw_legal, withdrawn}
use lino.Handlers.Return.{Schedules, return_coin_to_lem, is_full}
use lino.Account.Frozen.{Cleaned}

module _ ⦃sdk : Sdk⦄ where
  -- The store once the deposit is lowered.
  abbrev lowered : String → Coin → Validator → AppStore → AppStore
  lowered username coin v s = record s {
    validators = record s.validators {
      validators =
          insert username (record v { deposit = minus v.deposit coin }) s.validators.validators;
    };
  }

  withdraw_runs :
      (time : ℤ) (username amount : String) (coin : Coin) (s : AppStore) (v : Validator)
      (param : ValidatorParam)
      → lino_to_coin amount ≡ some coin
      → is_legal_withdraw username coin s.validators ≡ true
      → validator_withdraw username coin s.validators
        ≡ (ok tt, (lowered username coin v s).validators)
      → s.validators.validator_param ≡ some param
      → handle_withdraw_msg time username amount s
        ≡ return_coin_to time username param.validator_coin_return_times
            param.validator_coin_return_interval_sec coin validator_return_coin
            (lowered username coin v s)
  unfolding handle_withdraw_msg
  withdraw_runs time username amount coin s v param ec legal done ep = ground arith

  legal_leaves :
      (username : String) (coin : Coin) (s : ValidatorStore) (v : Validator)
      (param : ValidatorParam)
      → is_legal_withdraw username coin s ≡ true
      → s.validators username ≡ some v
      → s.validator_param ≡ some param
      → worth param.validator_min_committing_deposit ≤ℤ worth (minus v.deposit coin)
  unfolding is_legal_withdraw
  legal_leaves username coin s v param legal ev ep = elim (Option-cases s.validator_list) [
    | inl missing ↦ absurd (ground arith)
    | inr (lst, el) ↦
        ground (arith, is_gte_lem (minus v.deposit coin) param.validator_min_committing_deposit)
  ]

  -- What a withdrawal leads to, by the user's frozen money: an error, or a lower deposit and the events
  -- that return the coin.
  abbrev pub Withdrawn :
      (time interval : ℤ) (username : String) (coin : Coin) (n : ℕ) (param : ValidatorParam)
      (bank : AccountBank) (account_param : AccountParam) (s : AppStore)
      → Result Error Unit × AppStore
      → Type 0
  Withdrawn time interval username coin n param bank account_param s (r, s') =
      (kept : List FrozenMoney) × Cleaned time bank.frozen_money_list kept
      × (((is_full account_param kept ≡ true) × (r ≡ err frozen_money_list_too_long))
          ⊎ ((is_full account_param kept ≡ false)
              × (r ≡ ok tt)
              × ((v v' : Validator) × (s.validators.validators username ≡ some v)
                  × Writes username v' s.validators s'.validators
                  × (v' ≡ record v { deposit = v'.deposit })
                  × (worth v'.deposit +ℤ worth coin ≡ worth v.deposit)
                  × (worth param.validator_min_committing_deposit ≤ℤ worth v'.deposit))
              × Schedules time interval username n coin s s'))

  -- The withdrawal of a validator, where the amount is a valid positive one, `IsLegalWithdraw`
  -- allows it, the user's bank and the parameters of accounts and validators are there, coins are
  -- returned in one or more rounds, and no round falls before the time of the block. If the entries
  -- of the user's frozen money that have not expired, by the code's test, are as many as allowed or
  -- more, it fails. If not, it succeeds: the validator's deposit is lower by the amount and still
  -- at least the minimum, the rest of the record and every other validator are as they were, and
  -- events that together give back exactly the amount to the user are found at the times of their
  -- rounds.
  pub handle_withdraw_lem :
      (time : ℤ) (username amount : String) (coin : Coin) (n : ℕ) (s : AppStore)
      (bank : AccountBank) (account_param : AccountParam) (param : ValidatorParam)
      → lino_to_coin amount ≡ some coin
      → pos 1 ≤ℤ worth coin
      → is_legal_withdraw username coin s.validators ≡ true
      → s.bank.banks username ≡ some bank
      → s.bank.account_param ≡ some account_param
      → s.validators.validator_param ≡ some param
      → param.validator_coin_return_times ≡ pos (suc n)
      → let interval = param.validator_coin_return_interval_sec in
        NotPast time (return_time time interval) 0 (
          return_events
            (create_coin_return_events username (pos (suc n)) interval coin validator_return_coin))
        → Withdrawn time interval username coin n param bank account_param s
            (handle_withdraw_msg time username amount s)
  handle_withdraw_lem time username amount coin n s bank account_param param ec positive legal eb ea
        ep et h =
      let (v, w, param', lst, t, ev, ep', el, out, done, writes, fields, paid, least, rest) =
        withdraw_legal username coin s.validators positive legal in
      let v' = record v { deposit = minus v.deposit coin } in
      let s₁ = lowered username coin v s in
      let interval = param.validator_coin_return_interval_sec in
      let runs =
        withdraw_runs time username amount coin s v param ec legal
          (withdrawn username coin s.validators v (ground arith) ev) ep in
      let same : handle_withdraw_msg time username amount s
          ≡ return_coin_to time username (pos (suc n)) interval coin validator_return_coin s₁ =
        runs
        ∙ ap (λ times. return_coin_to time username times interval coin validator_return_coin s₁)
            et in
      let (kept, cleaned, cases) =
        return_coin_to_lem time interval username n coin validator_return_coin s₁ bank account_param
          eb ea h in
      subst (Withdrawn time interval username coin n param bank account_param s) (sym same) (
        kept,
        cleaned,
        elim cases [
          | inl (full, fails, _) ↦ inl (full, fails)
          | inr (room, okay, scheduled, _, (_, same_validators, _, _)) ↦ inr (
            room,
            okay,
            (
              v,
              v',
              ev,
              subst (λ t. Writes username v' s.validators t) (sym same_validators)
                  ((λ j. get-insert username v' s.validators.validators j), refl, refl),
              refl,
              grind (int_laws, worth-minus v.deposit coin),
              legal_leaves username coin s.validators v param legal ev ep,
            ),
            scheduled,
          )
        ],
      )
