-- ===== src/Auth/Ante.antt =====
-- x/auth/ante.go. Whether a signature is valid for the bytes of the transaction, with the sequence number
-- that it states, is decided by Tendermint's keys and the SDK's encoding, and is an argument.
use lino.Sdk.{Sdk}
use Prim.Native.String.{len}
use lino.Prelude.{ℕ, List, String, Bool, ◌∷◌, map, if◌then◌else◌, ◌++◌, ◌==◌, [], ltb, not}
use lino.Prelude.Int.{ℤ, eq_ℤ}
use lino.Account.Store.{Permission}
use lino.Handlers.Store.{AppMethod, on_account, on_bank, reject_if, on_global}
use lino.Types.Coin.{Coin}
use lino.Prelude.Exec.{pure, ◌>>◌, raise, ◌>>=◌}
use lino.Prelude.Lists.{length}
use lino.Account.Signing.{check_signing_pub_key_owner}
use lino.Types.Errors.{
  panicked, wrong_number_of_signers, no_signatures, invalid_sequence, unverified_bytes,
  memo_too_large,
}
use lino.Account.Profile.{get_sequence, increase_sequence_by_one}
use lino.Global.Inflation.{get_tps_capacity_ratio}
use lino.Account.Opening.{check_user_tps_capacity}

-- maxMemoCharacters
abbrev pub max_memo_characters : ℕ
max_memo_characters = 100

module _ ⦃sdk : Sdk⦄ where
  open sdk use {PubKey}

  -- What the handler reads of a message: `GetSigners`, `GetPermission`, `GetConsumeAmount`.
  pub record TxMsg : Type 0 where
    pub signers : List String
    pub permission : Permission
    pub consume_amount : Coin

  pub record StdSignature (Signature : Type 0) : Type 0 where
    pub pub_key : PubKey
    pub signature : Signature
    pub sequence : ℤ

  -- Of `auth.StdTx`; all its messages are messages of the chain.
  pub record StdTx (Signature : Type 0) : Type 0 where
    pub signatures : List (StdSignature Signature)
    pub memo : String
    pub msgs : List TxMsg

  -- Every signer with the message to sign, in order.
  abbrev pub to_sign : List TxMsg → List (String × TxMsg)
  to_sign [] = []
  to_sign (msg ∷ msgs) = map (λ signer. (signer, msg)) msg.signers ++ to_sign msgs

  module _ {Signature : Type 0} where
    -- One round of the loop. `valid` tells whether the signature verifies.
    unfoldable pub check_signature :
        ℤ
        → (PubKey → ℤ → Signature → Bool)
        → String
        → TxMsg
        → StdSignature Signature
        → AppMethod Unit
    check_signature time valid signer msg sig = do
      on_account
          (check_signing_pub_key_owner time signer sig.pub_key msg.permission msg.consume_amount)
      seq ← on_bank (get_sequence signer)
      reject_if (λ s. not (eq_ℤ seq sig.sequence)) invalid_sequence
      on_bank (increase_sequence_by_one signer)
      ratio ← on_global get_tps_capacity_ratio
      on_bank (check_user_tps_capacity time signer ratio)
      reject_if (λ s. not (valid sig.pub_key sig.sequence sig.signature)) unverified_bytes

    -- The loop; there are as many signatures as signers.
    unfoldable pub check_signatures :
        ℤ
        → (PubKey → ℤ → Signature → Bool)
        → List (String × TxMsg)
        → List (StdSignature Signature)
        → AppMethod Unit
    check_signatures time valid [] sigs = pure tt
    check_signatures time valid (signer ∷ signers) [] = raise (panicked wrong_number_of_signers)
    check_signatures time valid ((signer, msg) ∷ signers) (sig ∷ sigs) =
        check_signature time valid signer msg sig >> check_signatures time valid signers sigs

    unfoldable pub ante_handler :
        ℤ → (PubKey → ℤ → Signature → Bool) → StdTx Signature → AppMethod Unit
    ante_handler time valid tx =
        if length tx.signatures == 0
        then raise no_signatures
        else if ltb max_memo_characters (len tx.memo)
        then raise memo_too_large
        else if not (length (to_sign tx.msgs) == length tx.signatures)
        then raise wrong_number_of_signers
        else check_signatures time valid (to_sign tx.msgs) tx.signatures
