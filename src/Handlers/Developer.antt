-- ===== src/Handlers/Developer.antt =====
-- x/developer/handler.go. `time` is the time of the block in seconds.
use lino.Sdk.{Sdk}
use lino.Prelude.{String, Bool, not}
use lino.Prelude.Int.{ℤ}
use lino.Handlers.Store.{
  AppStore, AppMethod, reject_if, no_account, on_developers, on_account, coin_of_lino, on_bank,
  return_coin_to, developer_deposit_out, developer_return_coin,
}
use lino.Account.Store.{Permission, pre_authorization_permission}
use lino.Prelude.Exec.{◌>>◌, ◌>>=◌}
use lino.Developer.Manager.{
  does_developer_exist, update_developer, remove_from_developer_list, withdraw_all,
  get_developer_param, register_developer,
}
use lino.Types.Errors.{developer_not_found, account_not_found, developer_already_exist}
use lino.Account.Signing.{authorize_permission, revoke_permission}
use lino.Types.Coin.{zero_coin}
use lino.Account.Bank.{minus_saving_coin}

module _ ⦃sdk : Sdk⦄ where
  open sdk use {PubKey}

  abbrev pub no_developer : String → AppStore → Bool
  no_developer username s = not (does_developer_exist username s.developers)

  unfoldable pub handle_developer_register_msg :
      ℤ → (username deposit website description app_meta_data : String) → AppMethod Unit
  handle_developer_register_msg time username deposit website description app_meta_data = do
    reject_if (no_account username) account_not_found
    reject_if (λ s. does_developer_exist username s.developers) developer_already_exist
    coin ← coin_of_lino deposit
    on_bank (minus_saving_coin time username coin "" "" developer_deposit_out)
    on_developers (register_developer username coin website description app_meta_data)

  unfoldable pub handle_developer_update_msg :
      (username website description app_meta_data : String) → AppMethod Unit
  handle_developer_update_msg username website description app_meta_data = do
    reject_if (no_account username) account_not_found
    reject_if (no_developer username) developer_not_found
    on_developers (update_developer username website description app_meta_data)

  unfoldable pub handle_developer_revoke_msg : ℤ → String → AppMethod Unit
  handle_developer_revoke_msg time username = do
    reject_if (no_developer username) developer_not_found
    on_developers (remove_from_developer_list username)
    coin ← on_developers (withdraw_all username)
    param ← on_developers get_developer_param
    return_coin_to time username param.developer_coin_return_times
        param.developer_coin_return_interval_sec coin developer_return_coin

  unfoldable pub handle_grant_permission_msg :
      ℤ → (username authorized_app : String) → ℤ → Permission → AppMethod Unit
  handle_grant_permission_msg time username authorized_app validity_period_sec grant_level = do
    reject_if (no_developer authorized_app) developer_not_found
    reject_if (no_account username) account_not_found
    on_account (
        authorize_permission time username authorized_app validity_period_sec grant_level zero_coin)

  unfoldable pub handle_revoke_permission_msg : String → PubKey → AppMethod Unit
  handle_revoke_permission_msg username pub_key = do
    reject_if (no_account username) account_not_found
    on_account (revoke_permission username pub_key)

  unfoldable pub handle_pre_authorization_msg :
      ℤ → (username authorized_app : String) → ℤ → (amount : String) → AppMethod Unit
  handle_pre_authorization_msg time username authorized_app validity_period_sec amount = do
    reject_if (no_developer authorized_app) developer_not_found
    reject_if (no_account username) account_not_found
    coin ← coin_of_lino amount
    on_account (
        authorize_permission time username authorized_app validity_period_sec
          pre_authorization_permission coin)
