-- ===== src/Messages/Signers.antt =====
-- The signers of messages that pass `ValidateBasic`, and the signatures that x/auth/ante.go asks for them.
use lino.Sdk.{Sdk}
use lino.Prelude.{List, [], ◌∷◌, String, map, ◌∙◌, ap, subst}
use Prim.Native.String.{len, String}
use lino.Messages.Check.{illegal_username, reject}
use lino.Prelude.{Bool, ◌||◌, ◌≡◌, false, ◌∷◌, arith, ◌≤◌, sym, true, refl}
use lino.Prelude.Exec.{Result, ok, ok≢err}
use lino.Messages.Account.{
  validate_follow_msg, validate_unfollow_msg, validate_claim_msg, validate_transfer_msg,
  validate_recover_msg, validate_register_msg, validate_update_account_msg,
}
use lino.Types.Errors.{Error}
use lino.Messages.Lino.{
  LinoMsg, as_msg, follow, unfollow, claim, transfer, recover, register, update_account, stake_in,
  stake_out, delegate, delegator_withdraw, claim_interest, validator_deposit, validator_withdraw,
  validator_revoke, provider_report, developer_register, developer_update, developer_revoke,
  grant_permission, revoke_permission, pre_authorization, tx_msg, delete_post_content,
  upgrade_protocol, change_vote_param, change_proposal_param, change_developer_param,
  change_validator_param, change_bandwidth_param, change_account_param, change_post_param,
  vote_proposal,
}
use lino.Messages.Vote.{
  validate_stake_in_msg, validate_stake_out_msg, validate_delegate_msg,
  validate_delegator_withdraw_msg, validate_claim_interest_msg,
}
use lino.Messages.Validator.{
  validate_validator_deposit_msg, validate_validator_withdraw_msg, validate_validator_revoke_msg,
}
use lino.Messages.Infra.{validate_provider_report_msg}
use lino.Messages.Developer.{
  validate_developer_register_msg, validate_developer_update_msg, validate_developer_revoke_msg,
  validate_grant_permission_msg, validate_revoke_permission_msg, validate_pre_authorization_msg,
}
use lino.Auth.Ante.{TxMsg, ante_handler, StdTx, to_sign}
use lino.Prelude.Lists.{All, length}
use lino.Prelude.Int.{ℤ}
use lino.Handlers.Store.{AppStore}
use lino.Messages.Proposal.{
  validate_delete_post_content_msg, validate_upgrade_protocol_msg, validate_change_vote_param_msg,
  validate_change_proposal_param_msg, validate_change_developer_param_msg,
  validate_change_validator_param_msg, validate_change_bandwidth_param_msg,
  validate_change_account_param_msg, validate_change_post_param_msg, validate_vote_proposal_msg,
}

legal_username : (name : String) → illegal_username name ≡ false → (3 ≤ len name) × (len name ≤ 20)
unfolding illegal_username
legal_username name h = ground arith

passes_reject :
    (test : Bool) (e : Error) (rest : Result Error Unit) → reject test e rest ≡ ok tt → test ≡ false
passes_reject true e rest h = absurd (ok≢err (sym h))
passes_reject false e rest h = refl

either : (a b : Bool) → (a || b) ≡ false → (a ≡ false) × (b ≡ false)
either a b h = ground arith

first_of :
    (a b : String) (e : Error) (rest : Result Error Unit)
    → reject (illegal_username a || illegal_username b) e rest ≡ ok tt
    → illegal_username a ≡ false
first_of a b e rest h =
    (either (illegal_username a) (illegal_username b) (passes_reject _ e rest h)).0

second_of :
    (a b : String) (e : Error) (rest : Result Error Unit)
    → reject (illegal_username a || illegal_username b) e rest ≡ ok tt
    → illegal_username b ≡ false
second_of a b e rest h =
    (either (illegal_username a) (illegal_username b) (passes_reject _ e rest h)).1

-- One user, with a name of a legal length.
abbrev OneLegal : List String → Type 0
OneLegal signers = (name : String) × (signers ≡ name ∷ []) × (3 ≤ len name) × (len name ≤ 20)

signed_by : (name : String) → illegal_username name ≡ false → OneLegal (name ∷ [])
signed_by name h = let (low, high) = legal_username name h in (name, refl, low, high)

module _ ⦃sdk : Sdk⦄ where
  open sdk use {PubKey}

  -- Of a message that passes.
  as_msg-OneLegal :
      (msg : LinoMsg) → (as_msg msg).validate_basic ≡ ok tt → OneLegal (as_msg msg).get_signers
  unfolding as_msg validate_follow_msg validate_unfollow_msg validate_claim_msg
      validate_transfer_msg validate_recover_msg validate_register_msg validate_update_account_msg
      validate_stake_in_msg validate_stake_out_msg validate_delegate_msg
      validate_delegator_withdraw_msg validate_claim_interest_msg validate_validator_deposit_msg
      validate_validator_withdraw_msg validate_validator_revoke_msg validate_provider_report_msg
      validate_developer_register_msg validate_developer_update_msg validate_developer_revoke_msg
      validate_grant_permission_msg validate_revoke_permission_msg validate_pre_authorization_msg
      validate_delete_post_content_msg validate_upgrade_protocol_msg validate_change_vote_param_msg
      validate_change_proposal_param_msg validate_change_developer_param_msg
      validate_change_validator_param_msg validate_change_bandwidth_param_msg
      validate_change_account_param_msg validate_change_post_param_msg validate_vote_proposal_msg
  as_msg-OneLegal (follow msg) h = signed_by _ (first_of _ _ _ _ h)
  as_msg-OneLegal (unfollow msg) h = signed_by _ (first_of _ _ _ _ h)
  as_msg-OneLegal (claim msg) h = signed_by _ (passes_reject _ _ _ h)
  as_msg-OneLegal (transfer msg) h = signed_by _ (first_of _ _ _ _ h)
  as_msg-OneLegal (recover msg) h = signed_by _ (passes_reject _ _ _ h)
  as_msg-OneLegal (register msg) h = signed_by _ (second_of _ _ _ _ h)
  as_msg-OneLegal (update_account msg) h = signed_by _ (passes_reject _ _ _ h)
  as_msg-OneLegal (stake_in msg) h = signed_by _ (passes_reject _ _ _ h)
  as_msg-OneLegal (stake_out msg) h = signed_by _ (passes_reject _ _ _ h)
  as_msg-OneLegal (delegate msg) h = signed_by _ (first_of _ _ _ _ h)
  as_msg-OneLegal (delegator_withdraw msg) h = signed_by _ (first_of _ _ _ _ h)
  as_msg-OneLegal (claim_interest msg) h = signed_by _ (passes_reject _ _ _ h)
  as_msg-OneLegal (validator_deposit msg) h = signed_by _ (passes_reject _ _ _ h)
  as_msg-OneLegal (validator_withdraw msg) h = signed_by _ (passes_reject _ _ _ h)
  as_msg-OneLegal (validator_revoke msg) h = signed_by _ (passes_reject _ _ _ h)
  as_msg-OneLegal (provider_report msg) h = signed_by _ (passes_reject _ _ _ h)
  as_msg-OneLegal (developer_register msg) h = signed_by _ (passes_reject _ _ _ h)
  as_msg-OneLegal (developer_update msg) h = signed_by _ (passes_reject _ _ _ h)
  as_msg-OneLegal (developer_revoke msg) h = signed_by _ (passes_reject _ _ _ h)
  as_msg-OneLegal (grant_permission msg) h = signed_by _ (passes_reject _ _ _ h)
  as_msg-OneLegal (revoke_permission msg) h = signed_by _ (passes_reject _ _ _ h)
  as_msg-OneLegal (pre_authorization msg) h = signed_by _ (passes_reject _ _ _ h)
  as_msg-OneLegal (delete_post_content msg) h = signed_by _ (passes_reject _ _ _ h)
  as_msg-OneLegal (upgrade_protocol msg) h = signed_by _ (passes_reject _ _ _ h)
  as_msg-OneLegal (change_vote_param msg) h = signed_by _ (passes_reject _ _ _ h)
  as_msg-OneLegal (change_proposal_param msg) h = signed_by _ (passes_reject _ _ _ h)
  as_msg-OneLegal (change_developer_param msg) h = signed_by _ (passes_reject _ _ _ h)
  as_msg-OneLegal (change_validator_param msg) h = signed_by _ (passes_reject _ _ _ h)
  as_msg-OneLegal (change_bandwidth_param msg) h = signed_by _ (passes_reject _ _ _ h)
  as_msg-OneLegal (change_account_param msg) h = signed_by _ (passes_reject _ _ _ h)
  as_msg-OneLegal (change_post_param msg) h = signed_by _ (passes_reject _ _ _ h)
  as_msg-OneLegal (vote_proposal msg) h = signed_by _ (passes_reject _ _ _ h)

  -- Passes `ValidateBasic`.
  abbrev Passes : LinoMsg → Type 0
  Passes msg = (as_msg msg).validate_basic ≡ ok tt

  abbrev LegalSigner : String × TxMsg → Type 0
  LegalSigner (name, msg) = (3 ≤ len name) × (len name ≤ 20)

  one_each :
      (msgs : List LinoMsg)
      → All Passes msgs
      → (length (to_sign (map tx_msg msgs)) ≡ length msgs)
        × All LegalSigner (to_sign (map tx_msg msgs))
  one_each [] h = (refl, tt)
  one_each (msg ∷ msgs) (first, rest) =
      let (name, signers, low, high) = as_msg-OneLegal msg first in
      let (same, legal) = one_each msgs rest in rw signers (ground arith, ((low, high), legal))

  module _ {Signature : Type 0} where
    counted_signatures :
        (time : ℤ) (valid : PubKey → ℤ → Signature → Bool) (tx : StdTx Signature) (s : AppStore)
        → (ante_handler time valid tx s).0 ≡ ok tt
        → length (to_sign tx.msgs) ≡ length tx.signatures
    unfolding ante_handler
    counted_signatures time valid tx s passes = ground arith

    -- A transaction of messages of Messages/Lino.antt that all pass `ValidateBasic` passes the checks
    -- only with one signature for each message, and each of its signers has a name of 3 to 20 bytes.
    pub ante_handler_signatures :
        (time : ℤ) (valid : PubKey → ℤ → Signature → Bool) (tx : StdTx Signature)
        (msgs : List LinoMsg) (s : AppStore)
        → tx.msgs ≡ map tx_msg msgs
        → All (λ msg. (as_msg msg).validate_basic ≡ ok tt) msgs
        → (ante_handler time valid tx s).0 ≡ ok tt
        → (length tx.signatures ≡ length msgs)
          × All (λ signer. (3 ≤ len signer.0) × (len signer.0 ≤ 20)) (to_sign tx.msgs)
    ante_handler_signatures time valid tx msgs s same checked passes =
        let (one, legal) = one_each msgs checked in
        (
          sym (counted_signatures time valid tx s passes) ∙ ap (λ l. length (to_sign l)) same ∙ one,
          subst (λ l. All LegalSigner (to_sign l)) (sym same) legal,
        )
