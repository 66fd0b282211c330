-- ===== src/Post/Originals.antt =====
-- Every operation of x/post/manager.go keeps the sources of posts originals.
use lino.Sdk.{Sdk}
use lino.Prelude.{List, [], String, ◌≡◌, none, some, Option-cases, arith, inl, inr, refl}
use lino.Post.Manager.{
  update_post, delete_post, add_or_update_view_to_post, add_comment, add_donation,
  update_last_activity_at,
}
use lino.Prelude.Int.{ℤ}
use lino.Post.Store.{IdToUrlMapping, PostStore, permlink_of, PostInfo, PostMeta}
use lino.Types.Coin.{Coin}
use lino.Post.Sources.{IsSourced, unmoved, edited}
use lino.Prelude.Table.{insert, string_key}

module _ ⦃sdk : Sdk⦄ where
  open sdk use {Rat}

  update_no_info :
      (time : ℤ) (author post_id title content : String) (links : List IdToUrlMapping)
      (s : PostStore)
      → s.infos (permlink_of author post_id) ≡ none
      → (update_post time author post_id title content links s).1.infos ≡ s.infos
  unfolding update_post
  update_no_info time author post_id title content links s e = ground arith

  update_no_meta :
      (time : ℤ) (author post_id title content : String) (links : List IdToUrlMapping)
      (s : PostStore) (info : PostInfo)
      → s.infos (permlink_of author post_id) ≡ some info
      → s.metas (permlink_of author post_id) ≡ none
      → (update_post time author post_id title content links s).1.infos ≡ s.infos
  unfolding update_post
  update_no_meta time author post_id title content links s info e f = ground arith

  update_runs :
      (time : ℤ) (author post_id title content : String) (links : List IdToUrlMapping)
      (s : PostStore) (info : PostInfo) (meta : PostMeta)
      → s.infos (permlink_of author post_id) ≡ some info
      → s.metas (permlink_of author post_id) ≡ some meta
      → (update_post time author post_id title content links s).1.infos
        ≡ insert
            (permlink_of info.author info.post_id)
            (record info { title = title; content = content; links = links })
            s.infos
  unfolding update_post
  update_runs time author post_id title content links s info meta e f = ground arith

  pub update_post-IsSourced :
      (time : ℤ) (author post_id title content : String) (links : List IdToUrlMapping)
      (s : PostStore)
      → IsSourced s
      → IsSourced (update_post time author post_id title content links s).1
  update_post-IsSourced time author post_id title content links s sound =
      elim (Option-cases (s.infos (permlink_of author post_id))) [
        | inl e ↦ unmoved s _ (update_no_info time author post_id title content links s e) sound
        | inr (info, e) ↦ elim (Option-cases (s.metas (permlink_of author post_id))) [
          | inl f ↦
              unmoved s _ (update_no_meta time author post_id title content links s info e f) sound
          | inr (meta, f) ↦
              edited (permlink_of author post_id) info
                (record info { title = title; content = content; links = links }) s _ e
                (update_runs time author post_id title content links s info meta e f) refl refl refl
                refl sound
        ]
      ]

  delete_no_meta :
      (time : ℤ) (permlink : String) (s : PostStore)
      → s.metas permlink ≡ none
      → (delete_post time permlink s).1.infos ≡ s.infos
  unfolding delete_post
  delete_no_meta time permlink s e = ground arith

  delete_no_info :
      (time : ℤ) (permlink : String) (s : PostStore) (meta : PostMeta)
      → s.metas permlink ≡ some meta
      → s.infos permlink ≡ none
      → (delete_post time permlink s).1.infos ≡ s.infos
  unfolding delete_post
  delete_no_info time permlink s meta e f = ground arith

  delete_runs :
      (time : ℤ) (permlink : String) (s : PostStore) (meta : PostMeta) (info : PostInfo)
      → s.metas permlink ≡ some meta
      → s.infos permlink ≡ some info
      → (delete_post time permlink s).1.infos
        ≡ insert
            (permlink_of info.author info.post_id)
            (record info { title = ""; content = ""; links = [] })
            s.infos
  unfolding delete_post
  delete_runs time permlink s meta info e f = ground arith

  pub delete_post-IsSourced :
      (time : ℤ) (permlink : String) (s : PostStore)
      → IsSourced s
      → IsSourced (delete_post time permlink s).1
  delete_post-IsSourced time permlink s sound = elim (Option-cases (s.metas permlink)) [
    | inl e ↦ unmoved s _ (delete_no_meta time permlink s e) sound
    | inr (meta, e) ↦ elim (Option-cases (s.infos permlink)) [
      | inl f ↦ unmoved s _ (delete_no_info time permlink s meta e f) sound
      | inr (info, f) ↦
          edited permlink info (record info { title = ""; content = ""; links = [] }) s _ f
            (delete_runs time permlink s meta info e f) refl refl refl refl sound
    ]
  ]

  pub view_infos :
      (time : ℤ) (permlink user : String) (s : PostStore)
      → (add_or_update_view_to_post time permlink user s).1.infos ≡ s.infos
  unfolding add_or_update_view_to_post
  view_infos time permlink user s = ground arith

  pub comment_infos :
      (time : ℤ) (permlink author post_id : String) (s : PostStore)
      → (add_comment time permlink author post_id s).1.infos ≡ s.infos
  unfolding add_comment
  comment_infos time permlink author post_id s = ground arith

  pub donation_infos :
      (time : ℤ) (permlink donator : String) (amount : Coin) (s : PostStore)
      → (add_donation time permlink donator amount s).1.infos ≡ s.infos
  unfolding add_donation
  donation_infos time permlink donator amount s = ground arith

  pub activity_infos :
      (time : ℤ) (permlink : String) (s : PostStore)
      → (update_last_activity_at time permlink s).1.infos ≡ s.infos
  unfolding update_last_activity_at
  activity_infos time permlink s = ground arith
