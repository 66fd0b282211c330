-- ===== src/Post/Operations.antt =====
-- The operations of x/post/manager.go one after the other.
use lino.Sdk.{Sdk}
use lino.Prelude.{List, [], ◌∷◌, String, Option-cases, ◌≡◌, inr, some, none, inl, arith, ap, ◌∙◌}
use lino.Prelude.Int.{ℤ}
use lino.Post.Store.{PostStore, PostInfo, permlink_of, IdToUrlMapping}
use lino.Post.Manager.{
  create_post, update_post, add_or_update_view_to_post, add_comment, add_donation, delete_post,
  set_root_source_post, update_last_activity_at,
}
use lino.Post.Sources.{IsSourced, unmoved, created_keeps, written, refiled}
use lino.Post.Originals.{
  update_post-IsSourced, view_infos, comment_infos, donation_infos, delete_post-IsSourced,
  activity_infos,
}
use lino.Types.Coin.{Coin}
use lino.Post.Reposts.{set_root_source_post_roots}
use lino.Prelude.Exec.{err, ok}
use lino.Types.Errors.{create_post_source_invalid}
use lino.Prelude.Table.{insert, string_key}

module _ ⦃sdk : Sdk⦄ where
  open sdk use {Rat}

  -- Every operation that changes the store, with its arguments.
  pub data PostOperation : Type 0 where
    creates : (time : ℤ) (info : PostInfo) (rate : Rat) → PostOperation
    updates :
        (time : ℤ) (author post_id title content : String) (links : List IdToUrlMapping)
        → PostOperation
    views : (time : ℤ) (permlink user : String) → PostOperation
    comments : (time : ℤ) (permlink author post_id : String) → PostOperation
    donates : (time : ℤ) (permlink donator : String) (amount : Coin) → PostOperation
    deletes : (time : ℤ) (permlink : String) → PostOperation
    touches : (time : ℤ) (permlink : String) → PostOperation

  -- The store that an operation leaves, whether it fails or not.
  abbrev pub perform : PostOperation → PostStore → PostStore
  perform (creates time info rate) s = (create_post time info rate s).1
  perform (updates time author post_id title content links) s =
      (update_post time author post_id title content links s).1
  perform (views time permlink user) s = (add_or_update_view_to_post time permlink user s).1
  perform (comments time permlink author post_id) s = (add_comment time permlink author post_id s).1
  perform (donates time permlink donator amount) s = (add_donation time permlink donator amount s).1
  perform (deletes time permlink) s = (delete_post time permlink s).1
  perform (touches time permlink) s = (update_last_activity_at time permlink s).1

  abbrev pub perform_all : List PostOperation → PostStore → PostStore
  perform_all [] s = s
  perform_all (operation ∷ operations) s = perform_all operations (perform operation s)

  exists :
      (time : ℤ) (info : PostInfo) (rate : Rat) (s : PostStore) (old : PostInfo)
      → s.infos (permlink_of info.author info.post_id) ≡ some old
      → (create_post time info rate s).1.infos ≡ s.infos
  unfolding create_post
  exists time info rate s old e = ground arith

  no_root :
      (time : ℤ) (info : PostInfo) (rate : Rat) (s : PostStore)
      → s.infos (permlink_of info.author info.post_id) ≡ none
      → set_root_source_post info s ≡ (err create_post_source_invalid, s)
      → (create_post time info rate s).1.infos ≡ s.infos
  unfolding create_post
  no_root time info rate s e f = ground arith

  rooted :
      (time : ℤ) (info r : PostInfo) (rate : Rat) (s : PostStore)
      → s.infos (permlink_of info.author info.post_id) ≡ none
      → set_root_source_post info s ≡ (ok r, s)
      → (create_post time info rate s).1.infos ≡ insert (permlink_of r.author r.post_id) r s.infos
  unfolding create_post
  rooted time info r rate s e f = ground arith

  create_post-IsSourced :
      (time : ℤ) (info : PostInfo) (rate : Rat) (s : PostStore)
      → IsSourced s
      → IsSourced (create_post time info rate s).1
  create_post-IsSourced time info rate s sound =
      elim (Option-cases (s.infos (permlink_of info.author info.post_id))) [
        | inr (old, e) ↦ unmoved s _ (exists time info rate s old e) sound
        | inl e ↦ elim (set_root_source_post_roots info s sound) [
          | inl f ↦ unmoved s _ (no_root time info rate s e f) sound
          | inr (r, f, (author, post_id, source)) ↦
              let s' = (create_post time info rate s).1 in
              let own : permlink_of r.author r.post_id ≡ permlink_of info.author info.post_id =
                ap (λ x. permlink_of x r.post_id) author
                ∙ ap (λ x. permlink_of info.author x) post_id in
              let runs : s'.infos ≡ insert (permlink_of info.author info.post_id) r s.infos =
                rooted time info r rate s e f ∙ ap (λ k. insert k r s.infos) own in
              let keeps = created_keeps (permlink_of info.author info.post_id) r s s' runs e in
              written (permlink_of info.author info.post_id) r s s' runs keeps
                (refiled (permlink_of info.author info.post_id) r s s' keeps (own, source)) sound
        ]
      ]

  perform-IsSourced :
      (operation : PostOperation) (s : PostStore) → IsSourced s → IsSourced (perform operation s)
  perform-IsSourced (creates time info rate) s sound = create_post-IsSourced time info rate s sound
  perform-IsSourced (updates time author post_id title content links) s sound =
      update_post-IsSourced time author post_id title content links s sound
  perform-IsSourced (views time permlink user) s sound =
      unmoved s _ (view_infos time permlink user s) sound
  perform-IsSourced (comments time permlink author post_id) s sound =
      unmoved s _ (comment_infos time permlink author post_id s) sound
  perform-IsSourced (donates time permlink donator amount) s sound =
      unmoved s _ (donation_infos time permlink donator amount s) sound
  perform-IsSourced (deletes time permlink) s sound = delete_post-IsSourced time permlink s sound
  perform-IsSourced (touches time permlink) s sound =
      unmoved s _ (activity_infos time permlink s) sound

  -- When every post of a store stands at its own permlink, and the source that it names, if it names
  -- one, exists and names none itself, the same holds after any operations, failing ones included.
  pub perform_all-IsSourced :
      (operations : List PostOperation) (s : PostStore)
      → IsSourced s
      → IsSourced (perform_all operations s)
  perform_all-IsSourced [] s sound = sound
  perform_all-IsSourced (operation ∷ operations) s sound =
      perform_all-IsSourced operations (perform operation s) (perform-IsSourced operation s sound)
