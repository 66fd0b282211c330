-- ===== src/Account/Store.antt =====
-- x/account/model: the keys of an account and the keys granted to others; the permissions of
-- types/const.go.
use lino.Sdk.{Sdk}
use lino.Prelude.{ℕ, Bool, ◌≡◌, String, true, ◌==◌, none, ◌↔◌, arith, some}
use lino.Prelude.Table.{Key, Table, has, insert, erase, string_key, pair_key, int_key}
use lino.Prelude.Exec.{Exec, ok, err}
use lino.Types.Errors.{Error, account_info_not_found, grant_pub_key_not_found}
use lino.Prelude.Int.{ℤ}
use lino.Types.Coin.{Coin}

pub data Permission : Type 0 where
  unknown_permission app_permission transaction_permission : Permission
  reset_permission grant_app_permission pre_authorization_permission : Permission

-- The numbers that stand for the permissions.
abbrev pub permission_code : Permission → ℕ
permission_code unknown_permission = 0
permission_code app_permission = 1
permission_code transaction_permission = 2
permission_code reset_permission = 3
permission_code grant_app_permission = 4
permission_code pre_authorization_permission = 5

abbrev pub is_permission : Permission → Permission → Bool
is_permission p q = permission_code p == permission_code q

pub is_permission_iff : (p q : Permission) → (is_permission p q ≡ true) ↔ (p ≡ q)
is_permission_iff p q = ground arith

module _ ⦃sdk : Sdk⦄ where
  open sdk use {PubKey, key_equal, key_equal_iff}

  instance abbrev pub pub_key : Key PubKey
  pub_key = record { same = key_equal; same_iff = key_equal_iff }

  -- What grants are keyed by.
  abbrev pub grant_key : Key (String × PubKey)
  grant_key = pair_key

  pub record AccountInfo : Type 0 where
    pub username : String
    pub created_at : ℤ
    pub reset_key : PubKey
    pub transaction_key : PubKey
    pub app_key : PubKey

  pub record GrantPubKey : Type 0 where
    pub username : String
    pub permission : Permission
    pub created_at : ℤ
    pub expires_at : ℤ
    pub amount : Coin

  -- `grants` is keyed by the account that grants and the key; the source encodes the key's bytes.
  pub record AccountStore : Type 0 where
    pub infos : Table String AccountInfo
    pub grants : Table (String × PubKey) GrantPubKey

  abbrev pub AccountMethod : Type 0 → Type 0
  AccountMethod A = Exec Error AccountStore A

  abbrev pub does_account_exist : String → AccountStore → Bool
  does_account_exist username s = has username s.infos

  -- `GetInfo`, with the error that its caller returns in the place of its own.
  abbrev pub get_info_or : Error → String → AccountMethod AccountInfo
  get_info_or e acc_key s = elim (s.infos acc_key) [ none ↦ (err e, s) | some info ↦ (ok info, s) ]

  abbrev pub get_info : String → AccountMethod AccountInfo
  get_info acc_key = get_info_or account_info_not_found acc_key

  abbrev pub set_info : String → AccountInfo → AccountMethod Unit
  set_info acc_key info s = (ok tt, record s { infos = insert acc_key info s.infos })

  abbrev pub get_grant_pub_key : String → PubKey → AccountMethod GrantPubKey
  get_grant_pub_key me key s = elim (s.grants (me, key)) [
    | none ↦ (err grant_pub_key_not_found, s)
    | some grant ↦ (ok grant, s)
  ]

  abbrev pub set_grant_pub_key : String → PubKey → GrantPubKey → AccountMethod Unit
  set_grant_pub_key me key grant s = (ok tt, record s { grants = insert (me, key) grant s.grants })

  abbrev pub delete_grant_pub_key : String → PubKey → AccountMethod Unit
  delete_grant_pub_key me key s = (ok tt, record s { grants = erase (me, key) s.grants })
