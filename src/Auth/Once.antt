-- ===== src/Auth/Once.antt =====
-- No transaction passes the checks of x/auth/ante.go a second time.
use lino.Sdk.{Sdk}
use Prim.Native.String.{len}
use lino.Prelude.{
  String, List, ℕ, ◌+◌, ◌<◌, ◌≤◌, ◌≡◌, Bool-cases, arith, str_eq, inl, inr, ap, sym, Bool, ◌∙◌, ◌⊎◌,
  ltb, some, eq_iff, ◌==◌, Option,
}
use lino.Auth.Ante.{
  TxMsg, ante_handler, StdTx, StdSignature, to_sign, check_signatures, max_memo_characters,
}
use lino.Prelude.Lists.{length}
use lino.Auth.Sequences.{counted_once, app_view}
use lino.Auth.Replay.{counted, check_signatures-Counts, check_signatures_needs}
use lino.Prelude.Int.{pos, ◌+ℤ◌, ℤ}
use lino.Prelude.Int64.{wrap64, add64}
use lino.Prelude.{◌∷◌, [], arith}
use lino.Handlers.Store.{AppStore}
use lino.Types.Errors.{Error, memo_too_large, wrong_number_of_signers}
use lino.Prelude.Exec.{err, ok, ok≢err, Result-cases}
use lino.Auth.Counts.{Counts, mapped}

add64_one : (n : ℕ) → n + 1 < 9223372036854775808 → add64 (pos n) (pos 1) ≡ pos (n + 1)
unfolding ◌+ℤ◌ wrap64
add64_one n h = ground arith

module _ ⦃sdk : Sdk⦄ where
  open sdk use {PubKey}

  -- The sequence number after one more transaction, of its signer or of another account.
  same_number : {o : Option ℤ} {z : ℤ} (k l : ℕ) → o ≡ some (pos k) → o ≡ some z → z ≡ pos l → k ≡ l
  same_number k l at_k at_z at_l = cc

  add_zero : (n : ℕ) → n + 0 ≡ n
  add_zero n = omega arith

  counted_once_grows :
      (signer j : String) (n : ℕ)
      → n + 1 < 9223372036854775808
      → (k : ℕ) × (k ≤ 1) × (counted_once signer j (pos n) ≡ pos (n + k))
  counted_once_grows signer j n h = elim (Bool-cases (str_eq signer j)) [
    | inl same ↦ (1, ground arith, rw same (add64_one n h))
    | inr other ↦ (0, ground arith, rw other (ap pos (sym (add_zero n))))
  ]

  counted_grows :
      (signers : List (String × TxMsg)) (j : String) (n : ℕ)
      → n + length signers < 9223372036854775808
      → (k : ℕ) × (k ≤ length signers) × (counted signers j (pos n) ≡ pos (n + k))
  counted_grows [] j n h = (0, ground arith, ap pos (sym (add_zero n)))
  counted_grows ((signer, msg) ∷ signers) j n h =
      let (k, small, one) = counted_once_grows signer j n (ground arith) in
      let (l, few, rest) = counted_grows signers j (n + k) (ground arith) in
      let assoc : n + k + l ≡ n + (k + l) = omega arith in
      (k + l, ground arith, ap (counted signers j) one ∙ rest ∙ ap pos assoc)

  own_grows :
      (signer : String) (msg : TxMsg) (signers : List (String × TxMsg)) (n : ℕ)
      → n + (length signers + 1) < 9223372036854775808
      → (k : ℕ) × (n < k) × (counted ((signer, msg) ∷ signers) signer (pos n) ≡ pos k)
  own_grows signer msg signers n h =
      let (k, few, rest) = counted_grows signers signer (n + 1) (ground arith) in
      let own : counted_once signer signer (pos n) ≡ pos (n + 1) =
        ground (arith, eq_iff signer signer, add64_one n) in
      (n + 1 + k, ground arith, ap (counted signers signer) own ∙ rest)

  module _ {Signature : Type 0} where
    counts_of :
        (time : ℤ) (valid : PubKey → ℤ → Signature → Bool) (signers : List (String × TxMsg))
        (sigs : List (StdSignature Signature)) (s : AppStore)
        → ((e : Error) × ((check_signatures time valid signers sigs s).0 ≡ err e))
          ⊎ ((j : String)
              → app_view (check_signatures time valid signers sigs s).1 j
                ≡ mapped (counted signers j) (app_view s j))
    unfolding Counts
    counts_of time valid signers sigs s = check_signatures-Counts time valid signers sigs s

    -- A transaction whose first signature is `sig` of `signer` fails, or its signatures are checked.
    ante_handler_checks :
        (time : ℤ) (valid : PubKey → ℤ → Signature → Bool) (tx : StdTx Signature) (signer : String)
        (msg : TxMsg) (signers : List (String × TxMsg)) (sig : StdSignature Signature)
        (sigs : List (StdSignature Signature)) (s : AppStore)
        → to_sign tx.msgs ≡ (signer, msg) ∷ signers
        → tx.signatures ≡ sig ∷ sigs
        → ((e : Error) × ((ante_handler time valid tx s).0 ≡ err e))
          ⊎ ((length signers + 1 ≡ length tx.signatures)
              × (ante_handler time valid tx s
                  ≡ check_signatures time valid ((signer, msg) ∷ signers) (sig ∷ sigs) s))
    unfolding ante_handler
    ante_handler_checks time valid tx signer msg signers sig sigs s a b = rw a (
        rw b (elim (Bool-cases (ltb max_memo_characters (len tx.memo))) [
          | inl long ↦ inl (memo_too_large, ground arith)
          | inr short ↦
              elim (Bool-cases (length ((signer, msg) ∷ signers) == length (sig ∷ sigs))) [
                | inr unequal ↦ inl (wrong_number_of_signers, ground arith)
                | inl equal ↦ inr (ground arith, ground arith)
              ]
        ]))

    -- The handler raises every sequence number by the signatures of the account.
    ante_handler_counts :
        (time : ℤ) (valid : PubKey → ℤ → Signature → Bool) (tx : StdTx Signature) (signer : String)
        (msg : TxMsg) (signers : List (String × TxMsg)) (sig : StdSignature Signature)
        (sigs : List (StdSignature Signature)) (s : AppStore)
        → to_sign tx.msgs ≡ (signer, msg) ∷ signers
        → tx.signatures ≡ sig ∷ sigs
        → (ante_handler time valid tx s).0 ≡ ok tt
        → (length signers + 1 ≡ length tx.signatures)
          × (app_view s signer ≡ some sig.sequence)
          × (app_view (ante_handler time valid tx s).1 signer
              ≡ some (counted ((signer, msg) ∷ signers) signer sig.sequence))
    ante_handler_counts time valid tx signer msg signers sig sigs s a b passes =
        elim (ante_handler_checks time valid tx signer msg signers sig sigs s a b) [
          | inl (e, fails) ↦ absurd (ok≢err (sym passes ∙ fails))
          | inr (same, runs) ↦
              elim (check_signatures_needs time valid signer msg signers sig sigs s) [
                | inl (e, fails) ↦ absurd (ok≢err (sym passes ∙ ap (λ r. r.0) runs ∙ fails))
                | inr states ↦
                    elim (counts_of time valid ((signer, msg) ∷ signers) (sig ∷ sigs) s) [
                      | inl (e, fails) ↦ absurd (ok≢err (sym passes ∙ ap (λ r. r.0) runs ∙ fails))
                      | inr counts ↦ (
                        same,
                        states,
                        ap (λ r. app_view r.1 signer) runs
                            ∙ counts signer
                            ∙ ap (mapped (counted ((signer, msg) ∷ signers) signer)) states,
                      )
                    ]
              ]
        ]

    -- When a transaction whose first signature is one of `signer` with the sequence number `n` passes,
    -- and `n` and the count of its signatures stay below 2 ^ 63 together, every transaction whose first
    -- signature is one of `signer` with the number `n` fails in each state in which the number of
    -- `signer` is at least what it is after the first.
    pub ante_handler_once :
        (time time' : ℤ) (valid valid' : PubKey → ℤ → Signature → Bool) (tx tx' : StdTx Signature)
        (signer : String) (msg msg' : TxMsg) (signers signers' : List (String × TxMsg))
        (sig sig' : StdSignature Signature) (sigs sigs' : List (StdSignature Signature)) (n k m : ℕ)
        (s t : AppStore)
        → to_sign tx.msgs ≡ (signer, msg) ∷ signers
        → tx.signatures ≡ sig ∷ sigs
        → to_sign tx'.msgs ≡ (signer, msg') ∷ signers'
        → tx'.signatures ≡ sig' ∷ sigs'
        → sig.sequence ≡ pos n
        → sig'.sequence ≡ pos n
        → n + length tx.signatures < 9223372036854775808
        → (ante_handler time valid tx s).0 ≡ ok tt
        → app_view (ante_handler time valid tx s).1 signer ≡ some (pos k)
        → app_view t signer ≡ some (pos m)
        → k ≤ m
        → (e : Error) × ((ante_handler time' valid' tx' t).0 ≡ err e)
    ante_handler_once time time' valid valid' tx tx' signer msg msg' signers signers' sig sig' sigs
          sigs' n k m s t a b a' b' first again small passes after later fresh =
        let (same, states, counts) =
          ante_handler_counts time valid tx signer msg signers sig sigs s a b passes in
        let (l, more, grows) = own_grows signer msg signers n (ground arith) in
        let is_l : k ≡ l =
          same_number k l after counts
            (ap (counted ((signer, msg) ∷ signers) signer) first ∙ grows) in
        elim (Result-cases (ante_handler time' valid' tx' t).0) [
          | inr (e, fails) ↦ (e, fails)
          | inl (tt, runs) ↦
              let (_, states', _) =
                ante_handler_counts time' valid' tx' signer msg' signers' sig' sigs' t a' b' runs in
              let is_n : m ≡ n = same_number m n later states' again in absurd (ground arith)
        ]
