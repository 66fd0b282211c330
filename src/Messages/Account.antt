-- ===== src/Messages/Account.antt =====
-- The messages of x/account/msg.go: their fields, `ValidateBasic`, and what is read of them before they are handled.
use lino.Sdk.{Sdk}
use Prim.Native.String.{len, String}
use lino.Prelude.{String, ◌||◌, not, ltb}
use lino.Prelude.Exec.{Result, ok}
use lino.Messages.Check.{
  Msg, zero_cost, reject, illegal_username, checked_lino, maximum_memo_length, matches_username_re,
  maximum_json_meta_length, matches_illegal_username_re,
}
use lino.Types.Errors.{Error, invalid_username, invalid_memo, invalid_json_meta}
use lino.Account.Store.{app_permission, transaction_permission, reset_permission}

module _ ⦃sdk : Sdk⦄ where
  open sdk use {PubKey}

  pub record FollowMsg : Type 0 where
    pub follower : String
    pub followee : String

  unfoldable pub validate_follow_msg : FollowMsg → Result Error Unit
  validate_follow_msg msg =
      reject (illegal_username msg.follower || illegal_username msg.followee) invalid_username
        (ok tt)

  abbrev pub follow_msg : FollowMsg → Msg
  follow_msg msg = zero_cost (validate_follow_msg msg) app_permission msg.follower

  pub record UnfollowMsg : Type 0 where
    pub follower : String
    pub followee : String

  unfoldable pub validate_unfollow_msg : UnfollowMsg → Result Error Unit
  validate_unfollow_msg msg =
      reject (illegal_username msg.follower || illegal_username msg.followee) invalid_username
        (ok tt)

  abbrev pub unfollow_msg : UnfollowMsg → Msg
  unfollow_msg msg = zero_cost (validate_unfollow_msg msg) app_permission msg.follower

  pub record ClaimMsg : Type 0 where
    pub username : String

  unfoldable pub validate_claim_msg : ClaimMsg → Result Error Unit
  validate_claim_msg msg = reject (illegal_username msg.username) invalid_username (ok tt)

  abbrev pub claim_msg : ClaimMsg → Msg
  claim_msg msg = zero_cost (validate_claim_msg msg) app_permission msg.username

  pub record TransferMsg : Type 0 where
    pub sender : String
    pub receiver : String
    pub amount : String
    pub memo : String

  unfoldable pub validate_transfer_msg : TransferMsg → Result Error Unit
  validate_transfer_msg msg =
      reject (illegal_username msg.sender || illegal_username msg.receiver) invalid_username (
        checked_lino msg.amount
          (reject (ltb maximum_memo_length (len msg.memo)) invalid_memo (ok tt)))

  abbrev pub transfer_msg : TransferMsg → Msg
  transfer_msg msg = zero_cost (validate_transfer_msg msg) transaction_permission msg.sender

  pub record RecoverMsg : Type 0 where
    pub username : String
    pub new_reset_pub_key : PubKey
    pub new_transaction_pub_key : PubKey
    pub new_app_pub_key : PubKey

  unfoldable pub validate_recover_msg : RecoverMsg → Result Error Unit
  validate_recover_msg msg = reject (illegal_username msg.username) invalid_username (ok tt)

  abbrev pub recover_msg : RecoverMsg → Msg
  recover_msg msg = zero_cost (validate_recover_msg msg) reset_permission msg.username

  pub record RegisterMsg : Type 0 where
    pub referrer : String
    pub register_fee : String
    pub new_user : String
    pub new_reset_pub_key : PubKey
    pub new_transaction_pub_key : PubKey
    pub new_app_pub_key : PubKey

  unfoldable pub validate_register_msg : RegisterMsg → Result Error Unit
  validate_register_msg msg =
      reject (illegal_username msg.new_user || illegal_username msg.referrer) invalid_username (
        reject (not (matches_username_re msg.new_user)) invalid_username (
          reject (matches_illegal_username_re msg.new_user) invalid_username
            (checked_lino msg.register_fee (ok tt))))

  abbrev pub register_msg : RegisterMsg → Msg
  register_msg msg = zero_cost (validate_register_msg msg) transaction_permission msg.referrer

  pub record UpdateAccountMsg : Type 0 where
    pub username : String
    pub json_meta : String

  unfoldable pub validate_update_account_msg : UpdateAccountMsg → Result Error Unit
  validate_update_account_msg msg =
      reject (illegal_username msg.username) invalid_username
        (reject (ltb maximum_json_meta_length (len msg.json_meta)) invalid_json_meta (ok tt))

  abbrev pub update_account_msg : UpdateAccountMsg → Msg
  update_account_msg msg = zero_cost (validate_update_account_msg msg) app_permission msg.username
