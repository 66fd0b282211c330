-- ===== src/Messages/Validator.antt =====
-- The messages of x/validator/msg.go: their fields, `ValidateBasic`, and what is read of them before they are handled.
use lino.Sdk.{Sdk}
use Prim.Native.String.{len, String}
use lino.Prelude.{String, ltb}
use lino.Prelude.Exec.{Result, ok}
use lino.Messages.Check.{Msg, zero_cost, reject, illegal_username, checked_lino, maximum_link_url}
use lino.Types.Errors.{Error, invalid_username, invalid_website}
use lino.Account.Store.{transaction_permission}

module _ ⦃sdk : Sdk⦄ where
  open sdk use {PubKey}

  pub record ValidatorDepositMsg : Type 0 where
    pub username : String
    pub deposit : String
    pub val_pub_key : PubKey
    pub link : String

  unfoldable pub validate_validator_deposit_msg : ValidatorDepositMsg → Result Error Unit
  validate_validator_deposit_msg msg = reject (illegal_username msg.username) invalid_username (
      reject (ltb maximum_link_url (len msg.link)) invalid_website
        (checked_lino msg.deposit (ok tt)))

  abbrev pub validator_deposit_msg : ValidatorDepositMsg → Msg
  validator_deposit_msg msg =
      zero_cost (validate_validator_deposit_msg msg) transaction_permission msg.username

  pub record ValidatorWithdrawMsg : Type 0 where
    pub username : String
    pub amount : String

  unfoldable pub validate_validator_withdraw_msg : ValidatorWithdrawMsg → Result Error Unit
  validate_validator_withdraw_msg msg =
      reject (illegal_username msg.username) invalid_username (checked_lino msg.amount (ok tt))

  abbrev pub validator_withdraw_msg : ValidatorWithdrawMsg → Msg
  validator_withdraw_msg msg =
      zero_cost (validate_validator_withdraw_msg msg) transaction_permission msg.username

  pub record ValidatorRevokeMsg : Type 0 where
    pub username : String

  unfoldable pub validate_validator_revoke_msg : ValidatorRevokeMsg → Result Error Unit
  validate_validator_revoke_msg msg =
      reject (illegal_username msg.username) invalid_username (ok tt)

  abbrev pub validator_revoke_msg : ValidatorRevokeMsg → Msg
  validator_revoke_msg msg =
      zero_cost (validate_validator_revoke_msg msg) transaction_permission msg.username
