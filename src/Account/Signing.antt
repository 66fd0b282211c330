-- ===== src/Account/Signing.antt =====
-- x/account/manager.go: the keys of an account, permissions granted to other users, and the check of
-- the key that signs a message. The time of the block is in nanoseconds.
use lino.Sdk.{Sdk}
use lino.Prelude.Int.{ℤ, div_pos, ◌+ℤ◌, pos, ltb_ℤ}
use lino.Prelude.{String, Bool, if◌then◌else◌, not, ◌||◌, false}
use lino.Account.Store.{
  AccountMethod, Permission, GrantPubKey, get_info_or, is_permission, get_grant_pub_key, get_info,
  pre_authorization_permission, delete_grant_pub_key, set_info, app_permission,
  grant_app_permission, does_account_exist, set_grant_pub_key, reset_permission,
  transaction_permission,
}
use lino.Types.Coin.{Coin, minus, is_equal, zero_coin, is_gt}
use lino.Prelude.Exec.{◌>>=◌, ◌>>◌, pure, raise, err}
use lino.Prelude.Int64.{mul64}
use lino.Types.Errors.{
  get_reset_key_failed, get_transaction_key_failed, get_app_key_failed, unsupport_grant_level,
  pre_auth_grant_key_mismatch, app_grant_key_mismatch, grant_key_expired, check_grant_app_key,
  account_not_found, check_authenticate_pub_key_owner, pre_auth_amount_insufficient,
  check_reset_key, check_transaction_key,
}

-- `Unix()`: whole seconds, rounded down.
abbrev pub unix : ℤ → ℤ
unix now = div_pos now 1000000000

module _ ⦃sdk : Sdk⦄ where
  open sdk use {PubKey, key_equal}

  unfoldable pub get_reset_key : String → AccountMethod PubKey
  get_reset_key username = do info ← get_info_or get_reset_key_failed username; pure info.reset_key

  unfoldable pub get_transaction_key : String → AccountMethod PubKey
  get_transaction_key username = do
    info ← get_info_or get_transaction_key_failed username
    pure info.transaction_key

  unfoldable pub get_app_key : String → AccountMethod PubKey
  get_app_key username = do info ← get_info_or get_app_key_failed username; pure info.app_key

  -- `time.Duration(validityPeriod) * time.Second` is an int64 of nanoseconds.
  abbrev pub new_grant : ℤ → String → ℤ → Permission → Coin → GrantPubKey
  new_grant now authorized_user validity_period level amount = record {
    username = authorized_user;
    permission = level;
    created_at = unix now;
    expires_at = unix (now +ℤ mul64 validity_period (pos 1000000000));
    amount = amount;
  }

  unfoldable pub authorize_permission :
      ℤ → String → String → ℤ → Permission → Coin → AccountMethod Unit
  authorize_permission now me authorized_user validity_period level amount =
      let grant = new_grant now authorized_user validity_period level amount in
      if is_permission level pre_authorization_permission
      then (get_transaction_key authorized_user >>= λ key. set_grant_pub_key me key grant)
      else if is_permission level app_permission
      then (get_app_key authorized_user >>= λ key. set_grant_pub_key me key grant)
      else raise unsupport_grant_level

  unfoldable pub revoke_permission : String → PubKey → AccountMethod Unit
  revoke_permission me key = do get_grant_pub_key me key; delete_grant_pub_key me key

  unfoldable pub recover_account : String → PubKey → PubKey → PubKey → AccountMethod Unit
  recover_account username reset transaction app = do
    info ← get_info username
    set_info username
        (record info { reset_key = reset; transaction_key = transaction; app_key = app })

  -- Takes the amount from a grant, and deletes it when nothing is left.
  abbrev pub spend_grant : String → PubKey → Coin → GrantPubKey → AccountMethod Unit
  spend_grant me sign_key amount grant =
      let left = minus grant.amount amount in
      if is_equal left zero_coin
      then delete_grant_pub_key me sign_key
      else set_grant_pub_key me sign_key (record grant { amount = left })

  unfoldable pub check_pre_auth : String → PubKey → Coin → GrantPubKey → AccountMethod String
  check_pre_auth me sign_key amount grant = do
    key ← get_transaction_key grant.username
    if not (key_equal sign_key key)
        then (delete_grant_pub_key me sign_key >> raise pre_auth_grant_key_mismatch)
        else if is_gt amount grant.amount
        then raise pre_auth_amount_insufficient
        else do spend_grant me sign_key amount grant; pure grant.username

  unfoldable pub check_app_grant : String → PubKey → GrantPubKey → AccountMethod String
  check_app_grant me sign_key grant = do
    key ← get_app_key grant.username
    if not (key_equal sign_key key)
        then (delete_grant_pub_key me sign_key >> raise app_grant_key_mismatch)
        else pure grant.username

  -- The last part of `CheckSigningPubKeyOwner`, on the keys granted to others. The test of the granted
  -- permission makes an error that it does not return, so it does nothing.
  unfoldable pub check_grant : ℤ → String → PubKey → Permission → Coin → AccountMethod String
  check_grant now me sign_key permission amount = do
    grant ← get_grant_pub_key me sign_key
    if ltb_ℤ grant.expires_at (unix now)
        then (delete_grant_pub_key me sign_key >> raise grant_key_expired)
        else if is_permission permission pre_authorization_permission
        then check_pre_auth me sign_key amount grant
        else if is_permission permission app_permission
        then check_app_grant me sign_key grant
        else raise check_authenticate_pub_key_owner

  -- Is the key the account's app key, where the permission lets the app key sign?
  abbrev pub is_own_app_key : String → PubKey → Permission → AccountMethod Bool
  is_own_app_key me sign_key permission =
      if is_permission permission app_permission || is_permission permission grant_app_permission
      then (get_app_key me >>= λ key. pure (key_equal key sign_key))
      else pure false

  unfoldable pub check_below_transaction :
      ℤ → String → PubKey → Permission → Coin → AccountMethod String
  check_below_transaction now me sign_key permission amount = do
    own ← is_own_app_key me sign_key permission
    if own
        then pure me
        else if is_permission permission grant_app_permission
        then raise check_grant_app_key
        else check_grant now me sign_key permission amount

  unfoldable pub check_signing_pub_key_owner :
      ℤ → String → PubKey → Permission → Coin → AccountMethod String
  check_signing_pub_key_owner now me sign_key permission amount s =
      if not (does_account_exist me s)
      then (err account_not_found, s)
      else if is_permission permission reset_permission
      then (get_reset_key me >>= λ key.
            if key_equal key sign_key then pure me else raise check_reset_key)
          s
      else (get_transaction_key me >>= λ key.
            if key_equal key sign_key
            then pure me
            else if is_permission permission transaction_permission
            then raise check_transaction_key
            else check_below_transaction now me sign_key permission amount)
          s
