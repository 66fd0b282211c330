-- ===== src/Messages/Developer.antt =====
-- The messages of x/developer/msg.go: their fields, `ValidateBasic`, and what is read of them before they are handled.
use lino.Sdk.{Sdk}
use Prim.Native.String.{len, String, count}
use lino.Prelude.{String, ltb, ◌||◌}
use lino.Prelude.Exec.{Result, ok}
use lino.Messages.Check.{
  Msg, zero_cost, reject, illegal_username, checked_lino, maximum_length_of_developer_website,
  maximum_length_of_developer_description, maximum_length_of_app_metadata,
}
use lino.Types.Errors.{
  Error, invalid_username, invalid_authorized_app, invalid_website, invalid_validity_period,
  invalid_description, invalid_app_metadata, grant_permission_too_high,
}
use lino.Prelude.Int.{ℤ, leb_ℤ, pos}
use lino.Account.Store.{
  transaction_permission, Permission, grant_app_permission, is_permission, reset_permission,
}

module _ ⦃sdk : Sdk⦄ where
  open sdk use {PubKey}

  pub record DeveloperRegisterMsg : Type 0 where
    pub username : String
    pub deposit : String
    pub website : String
    pub description : String
    pub app_meta_data : String

  unfoldable pub validate_developer_register_msg : DeveloperRegisterMsg → Result Error Unit
  validate_developer_register_msg msg = reject (illegal_username msg.username) invalid_username (
      checked_lino msg.deposit (
        reject (ltb maximum_length_of_developer_website (len msg.website)) invalid_website (
          reject (ltb maximum_length_of_developer_description (count msg.description))
            invalid_description
            (reject (ltb maximum_length_of_app_metadata (count msg.app_meta_data))
              invalid_app_metadata (ok tt)))))

  abbrev pub developer_register_msg : DeveloperRegisterMsg → Msg
  developer_register_msg msg =
      zero_cost (validate_developer_register_msg msg) transaction_permission msg.username

  pub record DeveloperUpdateMsg : Type 0 where
    pub username : String
    pub website : String
    pub description : String
    pub app_meta_data : String

  unfoldable pub validate_developer_update_msg : DeveloperUpdateMsg → Result Error Unit
  validate_developer_update_msg msg = reject (illegal_username msg.username) invalid_username (
      reject (ltb maximum_length_of_developer_website (len msg.website)) invalid_website (
        reject (ltb maximum_length_of_developer_description (count msg.description))
          invalid_description
          (reject (ltb maximum_length_of_app_metadata (count msg.app_meta_data))
            invalid_app_metadata (ok tt))))

  abbrev pub developer_update_msg : DeveloperUpdateMsg → Msg
  developer_update_msg msg =
      zero_cost (validate_developer_update_msg msg) transaction_permission msg.username

  pub record DeveloperRevokeMsg : Type 0 where
    pub username : String

  unfoldable pub validate_developer_revoke_msg : DeveloperRevokeMsg → Result Error Unit
  validate_developer_revoke_msg msg =
      reject (illegal_username msg.username) invalid_username (ok tt)

  abbrev pub developer_revoke_msg : DeveloperRevokeMsg → Msg
  developer_revoke_msg msg =
      zero_cost (validate_developer_revoke_msg msg) transaction_permission msg.username

  pub record GrantPermissionMsg : Type 0 where
    pub username : String
    pub authorized_app : String
    pub validity_period_sec : ℤ
    pub grant_level : Permission

  unfoldable pub validate_grant_permission_msg : GrantPermissionMsg → Result Error Unit
  validate_grant_permission_msg msg = reject (illegal_username msg.username) invalid_username (
      reject (illegal_username msg.authorized_app) invalid_authorized_app (
        reject (leb_ℤ msg.validity_period_sec (pos 0)) invalid_validity_period (
          reject
            (is_permission msg.grant_level reset_permission
              || is_permission msg.grant_level transaction_permission
              || is_permission msg.grant_level grant_app_permission)
            grant_permission_too_high (ok tt))))

  abbrev pub grant_permission_msg : GrantPermissionMsg → Msg
  grant_permission_msg msg =
      zero_cost (validate_grant_permission_msg msg) grant_app_permission msg.username

  pub record RevokePermissionMsg : Type 0 where
    pub username : String
    pub pub_key : PubKey

  unfoldable pub validate_revoke_permission_msg : RevokePermissionMsg → Result Error Unit
  validate_revoke_permission_msg msg =
      reject (illegal_username msg.username) invalid_username (ok tt)

  abbrev pub revoke_permission_msg : RevokePermissionMsg → Msg
  revoke_permission_msg msg =
      zero_cost (validate_revoke_permission_msg msg) transaction_permission msg.username

  pub record PreAuthorizationMsg : Type 0 where
    pub username : String
    pub authorized_app : String
    pub validity_period_sec : ℤ
    pub amount : String

  unfoldable pub validate_pre_authorization_msg : PreAuthorizationMsg → Result Error Unit
  validate_pre_authorization_msg msg = reject (illegal_username msg.username) invalid_username (
      reject (illegal_username msg.authorized_app) invalid_authorized_app (
        reject (leb_ℤ msg.validity_period_sec (pos 0)) invalid_validity_period
          (checked_lino msg.amount (ok tt))))

  abbrev pub pre_authorization_msg : PreAuthorizationMsg → Msg
  pre_authorization_msg msg =
      zero_cost (validate_pre_authorization_msg msg) transaction_permission msg.username
