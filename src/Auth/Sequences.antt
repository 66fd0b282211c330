-- ===== src/Auth/Sequences.antt =====
-- What the account manager does to the sequence numbers in the checks of a transaction.
use lino.Sdk.{Sdk}
use lino.Prelude.{
  String, Option, Option-cases, if◌then◌else◌, ◌≡◌, str_eq, some, none, inl, false, inr, arith, ap,
  ◌∙◌, ◌⊎◌, Bool-cases, eq_iff, sym, refl, subst,
}
use lino.Account.Bank.{BankStore, AccountMeta, AccountBank, refreshed}
use lino.Handlers.Store.{AppStore}
use lino.Account.Profile.{increase_sequence_by_one}
use lino.Auth.Counts.{Counts, mapped, mapped_still}
use lino.Account.Opening.{get_coin_day, tps_rest, check_user_tps_capacity, recovered_capacity}
use lino.Prelude.Int.{ℤ, pos}
use lino.Prelude.Table.{Table, insert, string_key, get-insert}
use lino.Types.Coin.{Coin, plus, rat_to_coin, coin_to_rat, is_gt, minus}
use lino.Prelude.Int64.{add64}
use lino.Types.Errors.{
  increase_sequence_failed, Error, account_bank_not_found, pending_coin_day_queue_not_found,
  param_not_found, account_meta_not_found, account_tps_capacity_not_enough,
}
use lino.Prelude.Exec.{err, ok, ◌>>=◌, Result, Result-cases}
use lino.Account.CoinDay.{PendingCoinDayQueue}

-- One more transaction of a signer.
abbrev pub counted_once : String → String → ℤ → ℤ
counted_once signer j z = if str_eq signer j then add64 z (pos 1) else z

module _ ⦃sdk : Sdk⦄ where
  open sdk use {PubKey, Rat, mul_rat}

  abbrev pub seq_of : Option AccountMeta → Option ℤ
  seq_of o = elim o [ none ↦ none | some meta ↦ some meta.sequence ]

  abbrev pub bank_view : BankStore → String → Option ℤ
  bank_view b j = seq_of (b.metas j)

  -- The sequence number of an account.
  abbrev pub app_view : AppStore → String → Option ℤ
  app_view s j = bank_view s.bank j

  increase_runs :
      (signer : String) (b : BankStore) (meta : AccountMeta)
      → b.metas signer ≡ some meta
      → increase_sequence_by_one signer b ≡ (
        ok tt,
        record b {
          metas = insert signer (record meta { sequence = add64 meta.sequence (pos 1) }) b.metas;
        },
      )
  unfolding increase_sequence_by_one
  increase_runs signer b meta e = ground arith

  inserted :
      (f : String → ℤ → ℤ) (signer : String) (meta new : AccountMeta) (t : Table String AccountMeta)
      (j : String)
      → t signer ≡ some meta
      → new.sequence ≡ f signer meta.sequence
      → (str_eq signer j ≡ false → (z : ℤ) → f j z ≡ z)
      → seq_of (insert signer new t j) ≡ mapped (f j) (seq_of (t j))
  inserted f signer meta new t j e h other =
      ap seq_of (get-insert signer new t j) ∙ elim (Bool-cases (str_eq signer j)) [
        | inl same ↦ rw same (
            ap some h
            ∙ ap (λ k. mapped (f k) (some meta.sequence)) ((eq_iff signer j).0 same)
            ∙ ap (λ o. mapped (f j) (seq_of o)) (sym e ∙ ap t ((eq_iff signer j).0 same)))
        | inr ne ↦ rw ne (mapped_still (f j) (seq_of (t j)) (other ne))
      ]

  own_count : (signer : String) (z : ℤ) → counted_once signer signer z ≡ add64 z (pos 1)
  own_count signer z = ground (arith, eq_iff signer signer)

  other_count :
      (signer j : String) → str_eq signer j ≡ false → (z : ℤ) → counted_once signer j z ≡ z
  other_count signer j ne z = rw ne refl

  pub increase-Counts :
      (signer : String) → Counts bank_view (counted_once signer) (increase_sequence_by_one signer)
  unfolding Counts increase_sequence_by_one
  increase-Counts signer b = elim (Option-cases (b.metas signer)) [
    | inl e ↦ inl (increase_sequence_failed, ground arith)
    | inr (meta, e) ↦ inr (λ j.
        ap (λ r. seq_of (r.1.metas j)) (increase_runs signer b meta e)
        ∙ inserted (counted_once signer) signer meta _ b.metas j e
            (sym (own_count signer meta.sequence)) (λ ne. other_count signer j ne))
  ]

  no_coin_day :
      (time : ℤ) (username : String) (b : BankStore)
      → b.banks username ≡ none
      → get_coin_day time username b ≡ (err account_bank_not_found, b)
  unfolding get_coin_day
  no_coin_day time username b e = ground arith

  no_queue :
      (time : ℤ) (username : String) (b : BankStore) (bank : AccountBank)
      → b.banks username ≡ some bank
      → b.queues username ≡ none
      → get_coin_day time username b ≡ (err pending_coin_day_queue_not_found, b)
  unfolding get_coin_day
  no_queue time username b bank e f = ground arith

  some_coin_day :
      (time : ℤ) (username : String) (b : BankStore) (bank : AccountBank)
      (queue : PendingCoinDayQueue)
      → b.banks username ≡ some bank
      → b.queues username ≡ some queue
      → let (bank', queue') = refreshed time bank queue b in
        get_coin_day time username b ≡ (
          ok (plus bank'.coin_day (rat_to_coin queue'.total_coin_day)),
          record b {
            banks = insert username bank' b.banks;
            queues = insert username queue' b.queues;
          },
        )
  unfolding get_coin_day
  some_coin_day time username b bank queue e f = ground arith

  coin_day_metas :
      (time : ℤ) (username : String) (b : BankStore)
      → (get_coin_day time username b).1.metas ≡ b.metas
  coin_day_metas time username b = elim (Option-cases (b.banks username)) [
    | inl e ↦ ap (λ r. r.1.metas) (no_coin_day time username b e)
    | inr (bank, e) ↦ elim (Option-cases (b.queues username)) [
      | inl f ↦ ap (λ r. r.1.metas) (no_queue time username b bank e f)
      | inr (queue, f) ↦ ap (λ r. r.1.metas) (some_coin_day time username b bank queue e f)
    ]
  ]

  tps_after :
      (time : ℤ) (me : String) (ratio : Rat) (meta : AccountMeta) (coin_day : Coin) (b : BankStore)
      → b.metas me ≡ some meta
      → let m = tps_rest time me ratio meta coin_day in
        ((e : Error) × ((m b).0 ≡ err e))
        ⊎ ((j : String) → bank_view (m b).1 j ≡ mapped (λ z. z) (bank_view b j))
  tps_after time me ratio meta coin_day b e = elim (Option-cases b.bandwidth_param) [
    | inl missing ↦ inl (param_not_found, ground arith)
    | inr (param, ep) ↦
        let capacity = recovered_capacity time (plus coin_day param.virtual_coin) param meta in
        let cost = rat_to_coin (mul_rat (coin_to_rat param.capacity_usage_per_transaction) ratio) in
        elim (Bool-cases (is_gt cost capacity)) [
          | inl low ↦ inl (account_tps_capacity_not_enough, ground arith)
          | inr enough ↦
              let new = record meta {
                transaction_capacity = minus capacity cost;
                last_activity_at = time;
              } in
              let runs : tps_rest time me ratio meta coin_day b
                  ≡ (ok tt, record b { metas = insert me new b.metas }) =
                ground arith in
              inr (λ j.
                ap (λ r. seq_of (r.1.metas j)) runs
                ∙ inserted (λ k z. z) me meta new b.metas j e refl (λ ne z. refl))
        ]
  ]

  tps_runs :
      (time : ℤ) (me : String) (ratio : Rat) (meta : AccountMeta) (b : BankStore)
      → b.metas me ≡ some meta
      → check_user_tps_capacity time me ratio b
        ≡ (get_coin_day time me >>= tps_rest time me ratio meta) b
  unfolding check_user_tps_capacity
  tps_runs time me ratio meta b e = ground arith

  pub tps-Counts :
      (time : ℤ) (me : String) (ratio : Rat)
      → Counts bank_view (λ j z. z) (check_user_tps_capacity time me ratio)
  unfolding Counts check_user_tps_capacity
  tps-Counts time me ratio b = elim (Option-cases (b.metas me)) [
    | inl e ↦ inl (account_meta_not_found, ground arith)
    | inr (meta, e) ↦
        let b₁ = (get_coin_day time me b).1 in
        subst
          (λ (r : Result Error Unit × BankStore).
            ((x : Error) × (r.0 ≡ err x))
            ⊎ ((j : String) → bank_view r.1 j ≡ mapped (λ z. z) (bank_view b j)))
          (sym (tps_runs time me ratio meta b e))
          (elim (Result-cases (get_coin_day time me b).0) [
            | inr (x, f) ↦ inl (x, rw f refl)
            | inl (coin_day, f) ↦
                let same = coin_day_metas time me b in
                rw f (elim (tps_after time me ratio meta coin_day b₁ (ap (λ t. t me) same ∙ e)) [
                  | inl fails ↦ inl fails
                  | inr counts ↦ inr (λ j. counts j ∙ ap (λ t. mapped (λ z. z) (seq_of (t j))) same)
                ])
          ])
  ]
