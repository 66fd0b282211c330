-- ===== src/Account/Frozen.antt =====
-- x/account/manager.go: the list of money that is frozen until it is returned. The time of the block
-- is in seconds.
use lino.Sdk.{Sdk}
use lino.Prelude.Int.{ℤ, ltb_ℤ, pos, leb_ℤ, ◌≤ℤ◌}
use lino.Account.Bank.{
  FrozenMoney, BankMethod, BankStore, AccountBank, get_bank, AccountParam, get_account_param,
  set_bank,
}
use lino.Prelude.{
  List, String, Bool, ◌∷◌, if◌then◌else◌, ◌≡◌, false, [], Bool-cases, some, inl, inr, ◌⊎◌, str_eq,
  ◌++◌, arith, true,
}
use lino.Types.Coin.{Coin}
use lino.Prelude.Lists.{length, length-snoc}
use lino.Prelude.Int64.{add64, mul64}
use lino.Prelude.Exec.{◌>>=◌, err, raise, ok, Result}
use lino.Types.Errors.{frozen_money_list_too_long, Error}
use lino.Prelude.Table.{get-insert, string_key}

module _ ⦃sdk : Sdk⦄ where
  -- The test of `cleanExpiredFrozenMoney`; the factor of 3600 is the code's.
  abbrev pub is_expired : ℤ → FrozenMoney → Bool
  is_expired time f = ltb_ℤ (add64 f.start_at (mul64 (mul64 (pos 3600) f.interval) f.times)) time

  unfoldable pub clean_expired_frozen_money : ℤ → List FrozenMoney → List FrozenMoney
  clean_expired_frozen_money time [] = []
  clean_expired_frozen_money time (f ∷ fs) =
      let rest = clean_expired_frozen_money time fs in if is_expired time f then rest else f ∷ rest

  unfoldable pub add_frozen_money : ℤ → String → Coin → ℤ → ℤ → ℤ → BankMethod Unit
  add_frozen_money time username amount start interval times = do
    bank ← get_bank username
    let kept = clean_expired_frozen_money time bank.frozen_money_list
    param ← get_account_param
    if leb_ℤ param.max_num_frozen_money (pos (length kept))
        then raise frozen_money_list_too_long
        else set_bank username (record bank {
          frozen_money_list =
              kept
              ++ record { amount = amount; start_at = start; times = times; interval = interval }
                ∷ [];
        })

  -- `kept` is `fs` without the entries whose start and 3600 times the interval for each round lie before
  -- the time, all in 64 bits.
  pub data Cleaned (time : ℤ) : List FrozenMoney → List FrozenMoney → Type 0 where
    nothing : Cleaned time [] []
    drops :
        {f : FrozenMoney} {fs kept : List FrozenMoney}
        → ltb_ℤ (add64 f.start_at (mul64 (mul64 (pos 3600) f.interval) f.times)) time ≡ true
        → Cleaned time fs kept
        → Cleaned time (f ∷ fs) kept
    keeps :
        {f : FrozenMoney} {fs kept : List FrozenMoney}
        → ltb_ℤ (add64 f.start_at (mul64 (mul64 (pos 3600) f.interval) f.times)) time ≡ false
        → Cleaned time fs kept
        → Cleaned time (f ∷ fs) (f ∷ kept)

  clean-Cleaned :
      (time : ℤ) (fs : List FrozenMoney) → Cleaned time fs (clean_expired_frozen_money time fs)
  unfolding clean_expired_frozen_money
  clean-Cleaned time [] = nothing
  clean-Cleaned time (f ∷ fs) = elim (Bool-cases (is_expired time f)) [
    | inl gone ↦ rw gone (drops gone (clean-Cleaned time fs))
    | inr stays ↦ rw stays (keeps stays (clean-Cleaned time fs))
  ]

  -- What a successful freezing does to an account, of whose frozen money `kept` has not expired.
  abbrev pub Freezes :
      (amount : Coin) (start interval times : ℤ) (username : String) (param : AccountParam)
      (bank : AccountBank) (kept : List FrozenMoney) (s : BankStore)
      → Result Error Unit × BankStore
      → Type 0
  Freezes amount start interval times username param bank kept s (r, s') =
      let all =
        kept
        ++ record { amount = amount; start_at = start; times = times; interval = interval } ∷ [] in
      (r ≡ ok tt)
      × ((j : String)
          → s'.banks j ≡ (
              if str_eq username j
              then some (record bank { frozen_money_list = all })
              else s.banks j))
      × (pos (length all) ≤ℤ param.max_num_frozen_money)

  -- Freezing money of an account whose bank and parameters are there first drops what has expired, by
  -- the code's test. If the number of entries that are kept has reached the largest allowed, it fails
  -- and nothing changes. If not, it succeeds: the new entry, with the amount, start, interval and rounds
  -- given, stands last behind what is kept, the list is no longer than allowed, nothing else of the bank
  -- changes, and no other bank does.
  pub add_frozen_money_lem :
      (time : ℤ) (username : String) (amount : Coin) (start interval times : ℤ) (s : BankStore)
      (bank : AccountBank) (param : AccountParam)
      → s.banks username ≡ some bank
      → s.account_param ≡ some param
      → let m = add_frozen_money time username amount start interval times in
        (kept : List FrozenMoney) × Cleaned time bank.frozen_money_list kept
        × (((leb_ℤ param.max_num_frozen_money (pos (length kept)) ≡ true)
              × (m s ≡ (err frozen_money_list_too_long, s)))
            ⊎ ((leb_ℤ param.max_num_frozen_money (pos (length kept)) ≡ false)
                × Freezes amount start interval times username param bank kept s (m s)))
  unfolding add_frozen_money
  add_frozen_money_lem time username amount start interval times s bank param eb ep =
      let kept = clean_expired_frozen_money time bank.frozen_money_list in
      let new : FrozenMoney = record {
        amount = amount;
        start_at = start;
        times = times;
        interval = interval;
      } in
      let bank' = record bank { frozen_money_list = kept ++ new ∷ [] } in
      (
        kept,
        clean-Cleaned time bank.frozen_money_list,
        elim (Bool-cases (leb_ℤ param.max_num_frozen_money (pos (length kept)))) [
          | inl full ↦ inl (full, ground arith)
          | inr room ↦ inr (
            room,
            (
              ground arith,
              (λ j. rw (eb, ep, room) (get-insert username bank' s.banks j)),
              rw length-snoc (ground arith),
            ),
          )
        ],
      )
