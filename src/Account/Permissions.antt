-- ===== src/Account/Permissions.antt =====
-- Granting and revoking a permission, and the check that does not look at the granted permission.
use lino.Sdk.{Sdk}
use lino.Prelude.{refl, String, ◌≡◌, Option-cases, inl, inr, some, arith, ◌≢◌, false, true}
use lino.Account.Signing.{
  check_app_grant, get_app_key, check_grant, check_signing_pub_key_owner, authorize_permission,
  check_pre_auth, check_below_transaction, revoke_permission, get_transaction_key, get_reset_key,
  unix, new_grant,
}
use lino.Account.Store.{
  pub_key, GrantPubKey, Permission, AccountStore, AccountInfo, grant_key, app_permission,
}
use lino.Prelude.Table.{
  insert, pair_key, string_key, int_key, get-insert_self, erase, get-erase_self,
}
use lino.Prelude.Int.{ℤ, ◌≤ℤ◌, ◌+ℤ◌, pos}
use lino.Types.Coin.{Coin}
use lino.Prelude.Int64.{mul64}
use lino.Prelude.Exec.{ok, err}
use lino.Types.Errors.{grant_pub_key_not_found}

module _ ⦃sdk : Sdk⦄ where
  open sdk use {PubKey, key_equal, key_equal_iff}

  -- The grant under `me` and `key` with another permission.
  abbrev pub with_permission :
      String → PubKey → GrantPubKey → Permission → AccountStore → AccountStore
  with_permission me key grant q s = record s {
    grants = insert ⦃e = grant_key⦄ (me, key) (record grant { permission = q }) s.grants;
  }

  check_grant-ignored :
      (now : ℤ) (me : String) (key : PubKey) (permission : Permission) (amount : Coin)
      (s : AccountStore) (grant : GrantPubKey) (q : Permission)
      → s.grants (me, key) ≡ some grant
      → (check_grant now me key permission amount (with_permission me key grant q s)).0
        ≡ (check_grant now me key permission amount s).0
  unfolding check_grant check_app_grant check_pre_auth get_app_key get_transaction_key
  check_grant-ignored now me key permission amount s grant q e =
      let at =
        get-insert_self ⦃e = grant_key⦄ (me, key) (record grant { permission = q }) s.grants in
      elim (Option-cases (s.infos grant.username)) [
        | inl missing ↦ ground (arith, at)
        | inr (info, found) ↦ ground (arith, at)
      ]

  -- The permission that a grant carries decides nothing: with any other permission in its place, a
  -- check of the key gives the same answer, for every permission that a message asks for.
  pub granted_permission-ignored :
      (now : ℤ) (me : String) (key : PubKey) (permission : Permission) (amount : Coin)
      (s : AccountStore) (grant : GrantPubKey) (q : Permission)
      → s.grants (me, key) ≡ some grant
      → (check_signing_pub_key_owner now me key permission amount
          (with_permission me key grant q s)).0
        ≡ (check_signing_pub_key_owner now me key permission amount s).0
  unfolding check_signing_pub_key_owner check_below_transaction get_reset_key get_transaction_key
      get_app_key
  granted_permission-ignored now me key permission amount s grant q e =
      let below = check_grant-ignored now me key permission amount s grant q e in
      elim (Option-cases (s.infos me)) [
        | inl missing ↦ ground arith
        | inr (info, found) ↦ ground (arith, below)
      ]

  -- A user with the app permission of `me`, whose keys are not those of `me`, signs for `me` with their
  -- app key until the grant expires; once the permission is revoked, the key is refused.
  pub authorize_revoke :
      (now later : ℤ) (me dev : String) (period : ℤ) (amount spent : Coin) (s : AccountStore)
      (mine theirs : AccountInfo)
      → s.infos me ≡ some mine
      → s.infos dev ≡ some theirs
      → mine.transaction_key ≢ theirs.app_key
      → mine.app_key ≢ theirs.app_key
      → unix later ≤ℤ unix (now +ℤ mul64 period (pos 1000000000))
      → (s' s'' : AccountStore) × (authorize_permission now me dev period app_permission amount s
          ≡ (ok tt, s'))
        × (check_signing_pub_key_owner later me theirs.app_key app_permission spent s'
            ≡ (ok dev, s'))
        × (revoke_permission me theirs.app_key s' ≡ (ok tt, s''))
        × (check_signing_pub_key_owner later me theirs.app_key app_permission spent s''
            ≡ (err grant_pub_key_not_found, s''))
  unfolding authorize_permission revoke_permission check_signing_pub_key_owner
      check_below_transaction check_grant check_app_grant get_transaction_key get_app_key
  authorize_revoke now later me dev period amount spent s mine theirs em ed tx app valid =
      let grant = new_grant now dev period app_permission amount in
      let key = theirs.app_key in
      let s' = record s { grants = insert ⦃e = grant_key⦄ (me, key) grant s.grants } in
      let s'' = record s { grants = erase ⦃e = grant_key⦄ (me, key) s'.grants } in
      let at = get-insert_self ⦃e = grant_key⦄ (me, key) grant s.grants in
      let gone = get-erase_self ⦃e = grant_key⦄ (me, key) s'.grants in
      let tx' : key_equal mine.transaction_key key ≡ false =
        ground (arith, key_equal_iff mine.transaction_key key) in
      let app' : key_equal mine.app_key key ≡ false =
        ground (arith, key_equal_iff mine.app_key key) in
      let own : key_equal key key ≡ true = (key_equal_iff key key).1 refl in
      (s', s'', ground arith, ground (arith, at), ground (arith, at), ground (arith, gone))
