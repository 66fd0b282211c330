-- ===== src/Tests/Account.antt =====
-- x/account: two accounts, one of which grants its app permission to the other.
use lino.Tests.Ints.{test_sdk, coins}
use lino.Prelude.{String, ◌≢◌, ◌≡◌, some, arith, eq_iff, ◌⊎◌, refl}
use lino.Account.Store.{
  AccountInfo, AccountStore, GrantPubKey, pre_authorization_permission, grant_key, app_permission,
}
use lino.Prelude.Table.{insert, empty, string_key}
use lino.Prelude.Int.{div_pos, pos, ◌≤ℤ◌, ◌+ℤ◌}
use lino.Account.Signing.{
  check_signing_pub_key_owner, unix, authorize_permission, revoke_permission,
}
use lino.Account.Owners.{IsOwnKey, check_signing_pub_key_owner_lem}
use lino.Account.Permissions.{with_permission, granted_permission-ignored, authorize_revoke}
use lino.Prelude.Exec.{ok, err}
use lino.Account.Grants.{IsGranted}
use lino.Prelude.Int64.{mul64}
use lino.Types.Errors.{grant_pub_key_not_found}

abbrev account : String → String → String → AccountInfo
account name transaction app = record {
  username = name;
  created_at = pos 0;
  reset_key = "reset";
  transaction_key = transaction;
  app_key = app;
}

abbrev pub user_info : AccountInfo
user_info = account "user" "user_tx" "user_app"

abbrev dev_info : AccountInfo
dev_info = account "dev" "dev_tx" "dev_app"

abbrev pub two_accounts : AccountStore
two_accounts = record {
  infos = insert "user" user_info (insert "dev" dev_info empty);
  grants = empty;
}

pub at_user : two_accounts.infos "user" ≡ some user_info
unfolding insert
at_user = refl

at_dev : two_accounts.infos "dev" ≡ some dev_info
unfolding insert
at_dev = refl

tx_ne : user_info.transaction_key ≢ dev_info.app_key
tx_ne = ground (arith, eq_iff user_info.transaction_key dev_info.app_key)

app_ne : user_info.app_key ≢ dev_info.app_key
app_ne = ground (arith, eq_iff user_info.app_key dev_info.app_key)

ends_at : unix (pos 1000000000 +ℤ mul64 (pos 60) (pos 1000000000)) ≡ pos 61
unfolding div_pos ◌+ℤ◌ lino.Prelude.Int64.wrap64 lino.Prelude.Int.◌*ℤ◌
ends_at = refl

asked_at : unix (pos 2000000000) ≡ pos 2
unfolding div_pos
asked_at = refl

still_valid : unix (pos 2000000000) ≤ℤ unix (pos 1000000000 +ℤ mul64 (pos 60) (pos 1000000000))
still_valid = ground (arith, ends_at, asked_at)

authorize_revoke_example :
    (s' s'' : AccountStore) × (authorize_permission
        (pos 1000000000)
        "user"
        "dev"
        (pos 60)
        app_permission
        (coins 0)
        two_accounts
      ≡ (ok tt, s'))
    × (check_signing_pub_key_owner
          (pos 2000000000)
          "user"
          dev_info.app_key
          app_permission
          (coins 0)
          s'
        ≡ (ok "dev", s'))
    × (revoke_permission "user" dev_info.app_key s' ≡ (ok tt, s''))
    × (check_signing_pub_key_owner
          (pos 2000000000)
          "user"
          dev_info.app_key
          app_permission
          (coins 0)
          s''
        ≡ (err grant_pub_key_not_found, s''))
authorize_revoke_example =
    authorize_revoke (pos 1000000000) (pos 2000000000) "user" "dev" (pos 60) (coins 0) (coins 0)
      two_accounts user_info dev_info at_user at_dev tx_ne app_ne still_valid

-- `user` has granted `dev` a preauthorization of 30.
abbrev pre_auth : GrantPubKey
pre_auth = record {
  username = "dev";
  permission = pre_authorization_permission;
  created_at = pos 0;
  expires_at = pos 60;
  amount = coins 30;
}

abbrev dev_tx : String
dev_tx = "dev_tx"

abbrev one_grant : AccountStore
one_grant = record two_accounts {
  grants = insert ⦃e = grant_key⦄ ("user", dev_tx) pre_auth two_accounts.grants;
}

at_grant : one_grant.grants ("user", dev_tx) ≡ some pre_auth
unfolding insert
at_grant = refl

granted_permission-ignored_example :
    (check_signing_pub_key_owner
      (pos 1000000000)
      "user"
      dev_tx
      pre_authorization_permission
      (coins 10)
      (with_permission "user" dev_tx pre_auth app_permission one_grant)).0
    ≡ (check_signing_pub_key_owner
        (pos 1000000000)
        "user"
        dev_tx
        pre_authorization_permission
        (coins 10)
        one_grant).0
granted_permission-ignored_example =
    granted_permission-ignored (pos 1000000000) "user" dev_tx pre_authorization_permission
      (coins 10) one_grant pre_auth app_permission at_grant

abbrev after_spending : AccountStore
after_spending =
    (check_signing_pub_key_owner (pos 1000000000) "user" dev_tx pre_authorization_permission
      (coins 10) one_grant).1

dev_signs :
    check_signing_pub_key_owner
      (pos 1000000000)
      "user"
      dev_tx
      pre_authorization_permission
      (coins 10)
      one_grant
    ≡ (ok "dev", after_spending)
unfolding check_signing_pub_key_owner insert lino.Account.Signing.get_transaction_key
    lino.Account.Signing.check_below_transaction lino.Account.Signing.check_grant div_pos
    lino.Account.Signing.check_pre_auth lino.Types.Coin.is_gt lino.Types.Coin.new_coin_from_int64
    lino.Types.Coin.is_equal lino.Types.Coin.minus lino.Prelude.Int.◌-ℤ◌
dev_signs = refl

check_signing_pub_key_owner_example :
    ((dev_info.username ≡ user_info.username)
      × (after_spending ≡ one_grant)
      × IsOwnKey "user" dev_tx pre_authorization_permission one_grant)
    ⊎ IsGranted
        (pos 1000000000)
        "user"
        dev_tx
        pre_authorization_permission
        (coins 10)
        dev_info.username
        one_grant
        after_spending
check_signing_pub_key_owner_example =
    check_signing_pub_key_owner_lem (pos 1000000000) "user" dev_tx pre_authorization_permission
      (coins 10) one_grant after_spending dev_info.username dev_signs
