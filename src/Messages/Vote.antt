-- ===== src/Messages/Vote.antt =====
-- The messages of x/vote/msg.go: their fields, `ValidateBasic`, and what is read of them before they are handled.
use lino.Sdk.{Sdk}
use Prim.Native.String.{String}
use lino.Prelude.{String, ◌||◌}
use lino.Prelude.Exec.{Result, ok}
use lino.Messages.Check.{Msg, zero_cost, reject, illegal_username, checked_lino}
use lino.Types.Errors.{Error, invalid_username}
use lino.Account.Store.{transaction_permission, app_permission}

module _ ⦃sdk : Sdk⦄ where
  open sdk use {PubKey}

  pub record StakeInMsg : Type 0 where
    pub username : String
    pub deposit : String

  unfoldable pub validate_stake_in_msg : StakeInMsg → Result Error Unit
  validate_stake_in_msg msg =
      reject (illegal_username msg.username) invalid_username (checked_lino msg.deposit (ok tt))

  abbrev pub stake_in_msg : StakeInMsg → Msg
  stake_in_msg msg = zero_cost (validate_stake_in_msg msg) transaction_permission msg.username

  pub record StakeOutMsg : Type 0 where
    pub username : String
    pub amount : String

  unfoldable pub validate_stake_out_msg : StakeOutMsg → Result Error Unit
  validate_stake_out_msg msg =
      reject (illegal_username msg.username) invalid_username (checked_lino msg.amount (ok tt))

  abbrev pub stake_out_msg : StakeOutMsg → Msg
  stake_out_msg msg = zero_cost (validate_stake_out_msg msg) transaction_permission msg.username

  pub record DelegateMsg : Type 0 where
    pub delegator : String
    pub voter : String
    pub amount : String

  unfoldable pub validate_delegate_msg : DelegateMsg → Result Error Unit
  validate_delegate_msg msg =
      reject (illegal_username msg.delegator || illegal_username msg.voter) invalid_username
        (checked_lino msg.amount (ok tt))

  abbrev pub delegate_msg : DelegateMsg → Msg
  delegate_msg msg = zero_cost (validate_delegate_msg msg) transaction_permission msg.delegator

  pub record DelegatorWithdrawMsg : Type 0 where
    pub delegator : String
    pub voter : String
    pub amount : String

  unfoldable pub validate_delegator_withdraw_msg : DelegatorWithdrawMsg → Result Error Unit
  validate_delegator_withdraw_msg msg =
      reject (illegal_username msg.delegator || illegal_username msg.voter) invalid_username
        (checked_lino msg.amount (ok tt))

  abbrev pub delegator_withdraw_msg : DelegatorWithdrawMsg → Msg
  delegator_withdraw_msg msg =
      zero_cost (validate_delegator_withdraw_msg msg) transaction_permission msg.delegator

  pub record ClaimInterestMsg : Type 0 where
    pub username : String

  unfoldable pub validate_claim_interest_msg : ClaimInterestMsg → Result Error Unit
  validate_claim_interest_msg msg = reject (illegal_username msg.username) invalid_username (ok tt)

  abbrev pub claim_interest_msg : ClaimInterestMsg → Msg
  claim_interest_msg msg = zero_cost (validate_claim_interest_msg msg) app_permission msg.username
