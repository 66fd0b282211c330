-- ===== src/Auth/Replay.antt =====
-- What the checks of a transaction do to the sequence numbers, and that no transaction passes twice.
use lino.Sdk.{Sdk}
use lino.Prelude.{◌∷◌, [], arith, not}
use lino.Prelude.{
  List, String, Bool, ◌≡◌, Bool-cases, ◌⊎◌, inl, some, inr, refl, Option-cases, ap, ◌∙◌,
}
use lino.Auth.Counts.{Counts, Counts-still, Counts-bind}
use lino.Handlers.Store.{AppMethod, AppStore, reject_if, on_bank, on_global, on_account}
use lino.Auth.Ante.{check_signature, TxMsg, StdSignature, check_signatures}
use lino.Prelude.Int.{ℤ, eq_ℤ, eq_ℤ_iff}
use lino.Account.Profile.{get_sequence, increase_sequence_by_one}
use lino.Account.Bank.{BankMethod}
use lino.Auth.Sequences.{app_view, bank_view, counted_once, increase-Counts, tps-Counts, seq_of}
use lino.Types.Errors.{
  Error, invalid_sequence, get_sequence_failed, unverified_bytes, panicked, wrong_number_of_signers,
}
use lino.Prelude.Exec.{err, Result-cases, ◌>>◌, ◌>>=◌, raise, pure}
use lino.Account.Signing.{check_signing_pub_key_owner}
use lino.Account.Opening.{check_user_tps_capacity}
use lino.Global.Inflation.{get_tps_capacity_ratio}

module _ ⦃sdk : Sdk⦄ where
  open sdk use {PubKey, Rat}

  -- The transactions that signers count.
  abbrev pub counted : List (String × TxMsg) → String → ℤ → ℤ
  counted [] j z = z
  counted ((signer, msg) ∷ signers) j z = counted signers j (counted_once signer j z)

  on_bank-Counts :
      {A : Type 0} (f : String → ℤ → ℤ) (m : BankMethod A)
      → Counts bank_view f m
      → Counts app_view f (on_bank m)
  unfolding Counts
  on_bank-Counts f m h s = h s.bank

  still :
      {A : Type 0} (m : AppMethod A)
      → ((s : AppStore) (j : String) → app_view (m s).1 j ≡ app_view s j)
      → Counts app_view (λ j z. z) m
  still m h = Counts-still app_view m h

  rejects-Counts :
      (test : AppStore → Bool) (e : Error) → Counts app_view (λ j z. z) (reject_if test e)
  rejects-Counts test e = still (reject_if test e) (λ s j. unmoved s j)
    where
      unmoved : (s : AppStore) (j : String) → app_view (reject_if test e s).1 j ≡ app_view s j
      unmoved s j = elim (Bool-cases (test s)) [ inl h ↦ rw h refl | inr h ↦ rw h refl ]

  abbrev failing : Error → AppMethod Unit
  failing e = raise e

  fails-Counts : (f : String → ℤ → ℤ) (e : Error) → Counts app_view f (failing e)
  unfolding Counts
  fails-Counts f e s = inl (e, refl)

  reads_sequence :
      (signer : String) (s : AppStore) (j : String)
      → app_view (on_bank (get_sequence signer) s).1 j ≡ app_view s j
  unfolding get_sequence
  reads_sequence signer s j = elim (Option-cases (s.bank.metas signer)) [
    | inl e ↦ ground arith
    | inr (meta, e) ↦ ground arith
  ]

  module _ {Signature : Type 0} where
    -- The rounds of `check_signature`, from the last one.
    abbrev verified : (PubKey → ℤ → Signature → Bool) → StdSignature Signature → AppMethod Unit
    verified valid sig =
        reject_if (λ s. not (valid sig.pub_key sig.sequence sig.signature)) unverified_bytes

    abbrev charged :
        ℤ → (PubKey → ℤ → Signature → Bool) → String → StdSignature Signature → Rat → AppMethod Unit
    charged time valid signer sig ratio =
        on_bank (check_user_tps_capacity time signer ratio) >> verified valid sig

    abbrev increased :
        ℤ → (PubKey → ℤ → Signature → Bool) → String → StdSignature Signature → AppMethod Unit
    increased time valid signer sig = do
      on_bank (increase_sequence_by_one signer)
      ratio ← on_global get_tps_capacity_ratio
      charged time valid signer sig ratio

    abbrev compared :
        ℤ → (PubKey → ℤ → Signature → Bool) → String → StdSignature Signature → ℤ → AppMethod Unit
    compared time valid signer sig seq =
        reject_if (λ s. not (eq_ℤ seq sig.sequence)) invalid_sequence
        >> increased time valid signer sig

    charged-Counts :
        (time : ℤ) (valid : PubKey → ℤ → Signature → Bool) (signer : String)
        (sig : StdSignature Signature) (ratio : Rat)
        → Counts app_view (λ j z. z) (charged time valid signer sig ratio)
    charged-Counts time valid signer sig ratio =
        Counts-bind app_view (λ j z. z) (λ j z. z)
          (on_bank (check_user_tps_capacity time signer ratio)) (λ _. verified valid sig)
          (on_bank-Counts (λ j z. z) (check_user_tps_capacity time signer ratio)
            (tps-Counts time signer ratio))
          (λ _.
            rejects-Counts (λ s. not (valid sig.pub_key sig.sequence sig.signature))
              unverified_bytes)

    ratio-Counts :
        (time : ℤ) (valid : PubKey → ℤ → Signature → Bool) (signer : String)
        (sig : StdSignature Signature)
        → Counts app_view
            (λ j z. z)
            (on_global get_tps_capacity_ratio >>= λ ratio. charged time valid signer sig ratio)
    ratio-Counts time valid signer sig =
        Counts-bind app_view (λ j z. z) (λ j z. z) (on_global get_tps_capacity_ratio)
          (λ ratio. charged time valid signer sig ratio)
          (still (on_global get_tps_capacity_ratio) (λ s j. refl))
          (λ ratio. charged-Counts time valid signer sig ratio)

    increased-Counts :
        (time : ℤ) (valid : PubKey → ℤ → Signature → Bool) (signer : String)
        (sig : StdSignature Signature)
        → Counts app_view (counted_once signer) (increased time valid signer sig)
    increased-Counts time valid signer sig =
        Counts-bind app_view (counted_once signer) (λ j z. z)
          (on_bank (increase_sequence_by_one signer))
          (λ _. on_global get_tps_capacity_ratio >>= λ ratio. charged time valid signer sig ratio)
          (on_bank-Counts (counted_once signer) (increase_sequence_by_one signer)
            (increase-Counts signer))
          (λ _. ratio-Counts time valid signer sig)

    compared-Counts :
        (time : ℤ) (valid : PubKey → ℤ → Signature → Bool) (signer : String)
        (sig : StdSignature Signature) (seq : ℤ)
        → Counts app_view (counted_once signer) (compared time valid signer sig seq)
    compared-Counts time valid signer sig seq =
        Counts-bind app_view (λ j z. z) (counted_once signer)
          (reject_if (λ s. not (eq_ℤ seq sig.sequence)) invalid_sequence)
          (λ _. increased time valid signer sig)
          (rejects-Counts (λ s. not (eq_ℤ seq sig.sequence)) invalid_sequence)
          (λ _. increased-Counts time valid signer sig)

    check_signature-Counts :
        (time : ℤ) (valid : PubKey → ℤ → Signature → Bool) (signer : String) (msg : TxMsg)
        (sig : StdSignature Signature)
        → Counts app_view (counted_once signer) (check_signature time valid signer msg sig)
    unfolding check_signature
    check_signature-Counts time valid signer msg sig =
        let owns =
          on_account (
            check_signing_pub_key_owner time signer sig.pub_key msg.permission
              msg.consume_amount) in
        Counts-bind app_view (λ j z. z) (counted_once signer) owns
          (λ _. on_bank (get_sequence signer) >>= compared time valid signer sig)
          (still owns (λ s j. refl))
          (λ _.
            Counts-bind app_view (λ j z. z) (counted_once signer) (on_bank (get_sequence signer))
              (compared time valid signer sig)
              (still (on_bank (get_sequence signer)) (λ s j. reads_sequence signer s j))
              (λ seq. compared-Counts time valid signer sig seq))

    check_signature_needs :
        (time : ℤ) (valid : PubKey → ℤ → Signature → Bool) (signer : String) (msg : TxMsg)
        (sig : StdSignature Signature) (s : AppStore)
        → ((e : Error) × ((check_signature time valid signer msg sig s).0 ≡ err e))
          ⊎ (app_view s signer ≡ some sig.sequence)
    unfolding check_signature get_sequence
    check_signature_needs time valid signer msg sig s =
        elim (Result-cases
          (check_signing_pub_key_owner time signer sig.pub_key msg.permission msg.consume_amount
            s.bank.account).0) [
              | inr (x, e) ↦ inl (x, rw e refl)
              | inl (name, e) ↦ elim (Option-cases (s.bank.metas signer)) [
                | inl missing ↦ inl (get_sequence_failed, ground arith)
                | inr (meta, f) ↦ elim (Bool-cases (eq_ℤ meta.sequence sig.sequence)) [
                  | inl same ↦ inr (ap seq_of f ∙ ap some ((eq_ℤ_iff _ _).0 same))
                  | inr other ↦ inl (invalid_sequence, ground arith)
                ]
              ]
            ]

    pub check_signatures-Counts :
        (time : ℤ) (valid : PubKey → ℤ → Signature → Bool) (signers : List (String × TxMsg))
        (sigs : List (StdSignature Signature))
        → Counts app_view (counted signers) (check_signatures time valid signers sigs)
    unfolding check_signatures
    check_signatures-Counts time valid [] sigs = still (pure tt) (λ s j. refl)
    check_signatures-Counts time valid (signer ∷ signers) [] =
        fails-Counts (counted (signer ∷ signers)) (panicked wrong_number_of_signers)
    check_signatures-Counts time valid ((signer, msg) ∷ signers) (sig ∷ sigs) =
        Counts-bind app_view (counted_once signer) (counted signers)
          (check_signature time valid signer msg sig)
          (λ _. check_signatures time valid signers sigs)
          (check_signature-Counts time valid signer msg sig)
          (λ _. check_signatures-Counts time valid signers sigs)

    pub check_signatures_needs :
        (time : ℤ) (valid : PubKey → ℤ → Signature → Bool) (signer : String) (msg : TxMsg)
        (signers : List (String × TxMsg)) (sig : StdSignature Signature)
        (sigs : List (StdSignature Signature)) (s : AppStore)
        → ((e : Error) × ((check_signatures time valid ((signer, msg) ∷ signers) (sig ∷ sigs) s).0
              ≡ err e))
          ⊎ (app_view s signer ≡ some sig.sequence)
    unfolding check_signatures
    check_signatures_needs time valid signer msg signers sig sigs s =
        elim (check_signature_needs time valid signer msg sig s) [
          | inl (e, fails) ↦ inl (e, rw fails refl)
          | inr same ↦ inr same
        ]
