-- ===== src/Account/Owners.antt =====
-- Whose key signed: what a successful `CheckSigningPubKeyOwner` has established.
use lino.Sdk.{Sdk}
use lino.Prelude.{
  String, ◌≡◌, some, Option-cases, true, Bool-cases, ◌⊎◌, inl, arith, inr, ◌≢◌, ◌||◌,
}
use lino.Account.Signing.{
  get_app_key, get_transaction_key, check_below_transaction, check_signing_pub_key_owner,
  get_reset_key,
}
use lino.Types.Coin.{Coin}
use lino.Account.Store.{
  pub_key, AccountStore, AccountInfo, Permission, reset_permission, is_permission, app_permission,
  is_permission_iff, grant_app_permission, transaction_permission,
}
use lino.Prelude.Exec.{ok}
use lino.Prelude.Int.{ℤ}
use lino.Prelude.Table.{pair_key, string_key, int_key}
use lino.Account.Grants.{IsGranted, check_grant_lem}

module _ ⦃sdk : Sdk⦄ where
  open sdk use {PubKey, key_equal, key_equal_iff}

  -- The key is the account's own, and of a kind that the permission accepts.
  abbrev pub IsOwnKey : String → PubKey → Permission → AccountStore → Type 0
  IsOwnKey me key permission s =
      (info : AccountInfo) × (s.infos me ≡ some info)
      × (((permission ≡ reset_permission) × (info.reset_key ≡ key))
          ⊎ (((permission ≢ reset_permission) × (info.transaction_key ≡ key))
              ⊎ (((permission ≡ app_permission) ⊎ (permission ≡ grant_app_permission))
                  × (info.app_key ≡ key))))

  app_or_grant_app :
      (p : Permission)
      → (is_permission p app_permission || is_permission p grant_app_permission) ≡ true
      → (p ≡ app_permission) ⊎ (p ≡ grant_app_permission)
  app_or_grant_app p h = ground arith

  check_below_lem :
      (now : ℤ) (me : String) (key : PubKey) (permission : Permission) (amount : Coin)
      (s s' : AccountStore) (who : String) (info : AccountInfo)
      → s.infos me ≡ some info
      → check_below_transaction now me key permission amount s ≡ (ok who, s')
      → ((who ≡ me) × (s' ≡ s) × IsOwnKey me key permission s)
        ⊎ IsGranted now me key permission amount who s s'
  unfolding check_below_transaction get_app_key
  check_below_lem now me key permission amount s s' who info e h =
      elim (Bool-cases (
        is_permission permission app_permission || is_permission permission grant_app_permission)) [
          | inl app_may ↦ elim (Bool-cases (key_equal info.app_key key)) [
            | inl own ↦ inl (
              ground arith,
              ground arith,
              (
                info,
                e,
                inr (
                    inr (
                      app_or_grant_app permission app_may,
                      (key_equal_iff info.app_key key).0 own,
                    )),
              ),
            )
            | inr other ↦ elim (Bool-cases (is_permission permission grant_app_permission)) [
              | inl grant_app ↦ absurd (ground arith)
              | inr below ↦
                  inr (check_grant_lem now me key permission amount s s' who (ground arith))
            ]
          ]
          | inr app_may_not ↦ elim (Bool-cases (is_permission permission grant_app_permission)) [
            | inl grant_app ↦ absurd (ground arith)
            | inr below ↦ inr (check_grant_lem now me key permission amount s s' who (ground arith))
          ]
        ]

  -- A check of a signing key that succeeds names the account itself, when the key is its own and of a
  -- kind that the permission accepts, and then nothing changes; or it names another user to whom the
  -- account granted the key, whose key it is, by a grant that has not expired. Then the permission is
  -- the app permission and nothing changes, or it is the preauthorization, the amount is covered by the
  -- grant and is taken from it.
  pub check_signing_pub_key_owner_lem :
      (now : ℤ) (me : String) (key : PubKey) (permission : Permission) (amount : Coin)
      (s s' : AccountStore) (who : String)
      → check_signing_pub_key_owner now me key permission amount s ≡ (ok who, s')
      → ((who ≡ me) × (s' ≡ s) × IsOwnKey me key permission s)
        ⊎ IsGranted now me key permission amount who s s'
  unfolding check_signing_pub_key_owner get_reset_key get_transaction_key
  check_signing_pub_key_owner_lem now me key permission amount s s' who h =
      elim (Option-cases (s.infos me)) [
        | inl missing ↦ absurd (ground arith)
        | inr (info, e) ↦ elim (Bool-cases (is_permission permission reset_permission)) [
          | inl reset ↦ elim (Bool-cases (key_equal info.reset_key key)) [
            | inl own ↦ inl (
              ground arith,
              ground arith,
              (
                info,
                e,
                inl (
                  (is_permission_iff permission reset_permission).0 reset,
                  (key_equal_iff info.reset_key key).0 own,
                ),
              ),
            )
            | inr other ↦ absurd (ground arith)
          ]
          | inr normal ↦ elim (Bool-cases (key_equal info.transaction_key key)) [
            | inl own ↦ inl (
              ground arith,
              ground arith,
              (
                info,
                e,
                inr (
                    inl (
                      ground (arith, is_permission_iff permission reset_permission),
                      (key_equal_iff info.transaction_key key).0 own,
                    )),
              ),
            )
            | inr other ↦ elim (Bool-cases (is_permission permission transaction_permission)) [
              | inl transaction ↦ absurd (ground arith)
              | inr below ↦
                  check_below_lem now me key permission amount s s' who info e (ground arith)
            ]
          ]
        ]
      ]
