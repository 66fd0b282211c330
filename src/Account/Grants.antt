-- ===== src/Account/Grants.antt =====
-- What a successful check of a granted key has established: whose key it is, and what is left of
-- the grant.
use lino.Sdk.{Sdk}
use lino.Prelude.{
  String, ◌≡◌, none, some, Option-cases, true, Bool-cases, ◌⊎◌, inl, arith, false, ap, inr, sym,
  subst, ◌∙◌, refl,
}
use lino.Account.Signing.{
  check_app_grant, check_pre_auth, get_app_key, get_transaction_key, spend_grant, check_grant, unix,
}
use lino.Types.Coin.{
  Coin, is_equal, minus, zero_coin, worth, is_gt, is_gt_lem, worth-new_coin, worth-minus,
  is_equal_lem,
}
use lino.Account.Store.{
  pub_key, GrantPubKey, AccountStore, AccountInfo, Permission, pre_authorization_permission,
  is_permission, app_permission, is_permission_iff, grant_key,
}
use lino.Prelude.Exec.{ok}
use lino.Prelude.Int.{pos, ◌≤ℤ◌, eq_ℤ_iff, ◌+ℤ◌, eq_ℤ, int_laws, ℤ, ltb_ℤ}
use lino.Prelude.Table.{get-erase_self, get-insert_self, pair_key, string_key, int_key}

module _ ⦃sdk : Sdk⦄ where
  open sdk use {PubKey, key_equal, key_equal_iff}

  -- The amount was taken from the grant: it is gone when nothing was left of it.
  abbrev pub Spent : String → PubKey → Coin → GrantPubKey → AccountStore → Type 0
  Spent me key amount grant s' =
      ((s'.grants (me, key) ≡ none) × (worth grant.amount ≡ worth amount))
      ⊎ ((left : GrantPubKey) × (s'.grants (me, key) ≡ some left)
          × (worth left.amount +ℤ worth amount ≡ worth grant.amount))

  check_app_grant_lem :
      (me : String) (key : PubKey) (grant : GrantPubKey) (s s' : AccountStore) (who : String)
      → check_app_grant me key grant s ≡ (ok who, s')
      → (who ≡ grant.username)
        × (s' ≡ s)
        × ((info : AccountInfo) × (s.infos who ≡ some info) × (info.app_key ≡ key))
  unfolding check_app_grant get_app_key
  check_app_grant_lem me key grant s s' who h = elim (Option-cases (s.infos grant.username)) [
    | inl missing ↦ absurd (ground arith)
    | inr (info, e) ↦ elim (Bool-cases (key_equal key info.app_key)) [
      | inr other ↦ absurd (ground arith)
      | inl same ↦
          let is_who : who ≡ grant.username = ground arith in
          (is_who, ground arith, (info, rw is_who e, sym ((key_equal_iff key info.app_key).0 same)))
    ]
  ]

  spent_all :
      (amount : Coin) (grant : GrantPubKey)
      → is_equal (minus grant.amount amount) zero_coin ≡ true
      → worth grant.amount ≡ worth amount
  spent_all amount grant gone =
      let nothing : worth (minus grant.amount amount) ≡ pos 0 =
        (eq_ℤ_iff (worth (minus grant.amount amount)) (pos 0)).0 (
          ap (λ x. eq_ℤ (worth (minus grant.amount amount)) x) (sym (worth-new_coin (pos 0)))
          ∙ sym (is_equal_lem (minus grant.amount amount) zero_coin)
          ∙ gone) in
      grind (int_laws, worth-minus grant.amount amount, nothing)

  spend_grant_lem :
      (me : String) (key : PubKey) (amount : Coin) (grant : GrantPubKey) (s : AccountStore)
      → ((spend_grant me key amount grant s).0 ≡ ok tt)
        × Spent me key amount grant (spend_grant me key amount grant s).1
        × ((spend_grant me key amount grant s).1.infos ≡ s.infos)
  spend_grant_lem me key amount grant s =
      let left = minus grant.amount amount in
      elim (Bool-cases (is_equal left zero_coin)) [
        | inl gone ↦ rw gone (
          refl,
          inl (get-erase_self ⦃e = grant_key⦄ (me, key) s.grants, spent_all amount grant gone),
          refl,
        )
        | inr some_left ↦ rw some_left (
          refl,
          inr (
            record grant { amount = left },
            get-insert_self ⦃e = grant_key⦄ (me, key) (record grant { amount = left }) s.grants,
            grind (int_laws, worth-minus grant.amount amount),
          ),
          refl,
        )
      ]

  pre_auth_state :
      (me : String) (key : PubKey) (amount : Coin) (grant : GrantPubKey) (s s' : AccountStore)
      (who : String) (info : AccountInfo)
      → s.infos grant.username ≡ some info
      → key_equal key info.transaction_key ≡ true
      → is_gt amount grant.amount ≡ false
      → check_pre_auth me key amount grant s ≡ (ok who, s')
      → (who ≡ grant.username) × ((spend_grant me key amount grant s).1 ≡ s')
  unfolding check_pre_auth get_transaction_key
  pre_auth_state me key amount grant s s' who info e same covered h = ground arith

  check_pre_auth_lem :
      (me : String) (key : PubKey) (amount : Coin) (grant : GrantPubKey) (s s' : AccountStore)
      (who : String)
      → check_pre_auth me key amount grant s ≡ (ok who, s')
      → (who ≡ grant.username)
        × (worth amount ≤ℤ worth grant.amount)
        × Spent me key amount grant s'
        × ((info : AccountInfo) × (s.infos who ≡ some info) × (info.transaction_key ≡ key))
  unfolding check_pre_auth get_transaction_key
  check_pre_auth_lem me key amount grant s s' who h =
      let (done, spent, _) = spend_grant_lem me key amount grant s in
      elim (Option-cases (s.infos grant.username)) [
        | inl missing ↦ absurd (ground arith)
        | inr (info, e) ↦ elim (Bool-cases (key_equal key info.transaction_key)) [
          | inr other ↦ absurd (ground arith)
          | inl same ↦ elim (Bool-cases (is_gt amount grant.amount)) [
            | inl over ↦ absurd (ground arith)
            | inr covered ↦
                let (is_who, state) =
                  pre_auth_state me key amount grant s s' who info e same covered h in
                (
                  is_who,
                  ground (arith, is_gt_lem amount grant.amount),
                  subst (Spent me key amount grant) state spent,
                  (info, rw is_who e, sym ((key_equal_iff key info.transaction_key).0 same)),
                )
          ]
        ]
      ]

  -- The key was granted by `me`, the grant has not expired, and the key is the grantee's: the
  -- transaction key with an amount to spend, or the app key.
  abbrev pub IsGranted :
      ℤ → String → PubKey → Permission → Coin → String → AccountStore → AccountStore → Type 0
  IsGranted now me key permission amount who s s' =
      (grant : GrantPubKey) × (info : AccountInfo) × (s.grants (me, key) ≡ some grant)
      × (unix now ≤ℤ grant.expires_at)
      × (who ≡ grant.username)
      × (s.infos who ≡ some info)
      × (((permission ≡ pre_authorization_permission)
            × (info.transaction_key ≡ key)
            × (worth amount ≤ℤ worth grant.amount)
            × Spent me key amount grant s')
          ⊎ ((permission ≡ app_permission) × (info.app_key ≡ key) × (s' ≡ s)))

  pub check_grant_lem :
      (now : ℤ) (me : String) (key : PubKey) (permission : Permission) (amount : Coin)
      (s s' : AccountStore) (who : String)
      → check_grant now me key permission amount s ≡ (ok who, s')
      → IsGranted now me key permission amount who s s'
  unfolding check_grant
  check_grant_lem now me key permission amount s s' who h =
      elim (Option-cases (s.grants (me, key))) [
        | inl missing ↦ absurd (ground arith)
        | inr (grant, e) ↦ elim (Bool-cases (ltb_ℤ grant.expires_at (unix now))) [
          | inl expired ↦ absurd (ground arith)
          | inr valid ↦ elim (Bool-cases (is_permission permission pre_authorization_permission)) [
            | inl pre_auth ↦
                let (is_who, covered, spent, (info, at_who, same)) =
                  check_pre_auth_lem me key amount grant s s' who (ground arith) in
                (
                  grant,
                  info,
                  e,
                  ground arith,
                  is_who,
                  at_who,
                  inl (
                    (is_permission_iff permission pre_authorization_permission).0 pre_auth,
                    same,
                    covered,
                    spent,
                  ),
                )
            | inr other ↦ elim (Bool-cases (is_permission permission app_permission)) [
              | inl app ↦
                  let (is_who, state, (info, at_who, same)) =
                    check_app_grant_lem me key grant s s' who (ground arith) in
                  (
                    grant,
                    info,
                    e,
                    ground arith,
                    is_who,
                    at_who,
                    inr ((is_permission_iff permission app_permission).0 app, same, state),
                  )
              | inr neither ↦ absurd (ground arith)
            ]
          ]
        ]
      ]
