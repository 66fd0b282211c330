-- ===== src/Post/Manager.antt =====
-- x/post/manager.go. `time` is the time of the block in seconds.
use lino.Sdk.{Sdk}
use lino.Prelude.{List, [], String, Bool, true, false, ◌||◌, not, str_eq, if◌then◌else◌, ◌&&◌}
use lino.Prelude.Int.{pos, ℤ}
use lino.Post.Store.{
  PostMethod, PostInfo, PostMeta, permlink_of, IdToUrlMapping, PostParam, get_post_meta,
  get_post_info, does_post_exist, set_post_comment, set_post_info, set_post_meta, get_post_param,
  set_post_view, set_post_donations,
}
use lino.Types.Coin.{
  Coin, zero_coin, is_zero, is_not_negative, is_gte, coin_to_rat, new_coin_from_int64, minus, plus,
}
use lino.Prelude.Exec.{◌>>=◌, ◌>>◌, ok, pure, err, gets}
use lino.Global.Store.{precision_factor}
use lino.Types.Errors.{create_post_source_invalid, post_already_exist}
use lino.Prelude.Table.{get_or}
use lino.Prelude.Int64.{add64}

module _ ⦃sdk : Sdk⦄ where
  open sdk use {Rat, new_rat, zero_rat, quo_rat, round_rat, gt_rat}

  abbrev one_rat : Rat
  one_rat = new_rat (pos 1) (pos 1)

  abbrev pub get_redistribution_split_rate : String → PostMethod Rat
  get_redistribution_split_rate permlink = do
    meta ← get_post_meta permlink
    pure meta.redistribution_split_rate

  abbrev pub get_created_time_and_reward : String → PostMethod (ℤ × Coin)
  get_created_time_and_reward permlink = do
    meta ← get_post_meta permlink
    pure (meta.created_at, meta.total_reward)

  -- The author or the number of the source is missing.
  abbrev pub has_no_source : PostInfo → Bool
  has_no_source info = str_eq info.source_author "" || str_eq info.source_post_id ""

  unfoldable pub get_source_post : String → PostMethod (String × String)
  get_source_post permlink = do
    info ← get_post_info permlink
    pure (if has_no_source info then ("", "") else (info.source_author, info.source_post_id))

  -- The source of the source, where it has one.
  abbrev pub with_root : String × String → PostInfo → PostInfo
  with_root (root_author, root_post_id) info =
      if not (str_eq root_author "") && not (str_eq root_post_id "")
      then record info { source_author = root_author; source_post_id = root_post_id }
      else info

  -- `setRootSourcePost`; all its errors become the one of its caller.
  unfoldable pub set_root_source_post : PostInfo → PostMethod PostInfo
  set_root_source_post info s =
      if has_no_source info
      then (ok info, s)
      else elim (get_source_post (permlink_of info.source_author info.source_post_id) s).0 [
        | err _ ↦ (err create_post_source_invalid, s)
        | ok root ↦ (ok (with_root root info), s)
      ]

  abbrev pub new_post_meta : ℤ → Rat → PostMeta
  new_post_meta time redistribution_split_rate = record {
    created_at = time;
    last_updated_at = time;
    last_activity_at = time;
    allow_replies = true;
    is_deleted = false;
    total_donate_count = pos 0;
    total_report_coin_day = zero_coin;
    total_upvote_coin_day = zero_coin;
    total_view_count = pos 0;
    total_reward = zero_coin;
    redistribution_split_rate = round_rat redistribution_split_rate precision_factor;
  }

  -- `info` holds the arguments of the call that describe the post.
  unfoldable pub create_post : ℤ → PostInfo → Rat → PostMethod Unit
  create_post time info redistribution_split_rate s =
      let permlink = permlink_of info.author info.post_id in
      if does_post_exist permlink s
      then (err post_already_exist, s)
      else (do
        rooted ← set_root_source_post info
        set_post_info rooted
        set_post_meta permlink (new_post_meta time redistribution_split_rate))
          s

  unfoldable pub update_post :
      ℤ → (author post_id title content : String) → List IdToUrlMapping → PostMethod Unit
  update_post time author post_id title content links = do
    info ← get_post_info (permlink_of author post_id)
    meta ← get_post_meta (permlink_of author post_id)
    set_post_info (record info { title = title; content = content; links = links })
    set_post_meta (permlink_of author post_id) (record meta { last_updated_at = time })

  unfoldable pub add_or_update_view_to_post : ℤ → (permlink user : String) → PostMethod Unit
  add_or_update_view_to_post time permlink user = do
    meta ← get_post_meta permlink
    view ← gets (λ s.
        get_or (permlink, user) (record { username = user; last_view_at = pos 0; times = pos 0 })
          s.views)
    set_post_view permlink (record view { times = add64 view.times (pos 1); last_view_at = time })
    set_post_meta permlink (record meta { total_view_count = add64 meta.total_view_count (pos 1) })

  unfoldable pub add_comment :
      ℤ → (permlink comment_author comment_post_id : String) → PostMethod Unit
  add_comment time permlink comment_author comment_post_id = do
    set_post_comment permlink
        (record { author = comment_author; post_id = comment_post_id; created_at = time })
    meta ← get_post_meta permlink
    set_post_meta permlink (record meta { last_activity_at = time })

  unfoldable pub add_donation : ℤ → (permlink donator : String) → Coin → PostMethod Unit
  add_donation time permlink donator amount = do
    meta ← get_post_meta permlink
    donations ← gets (λ s.
        get_or (permlink, donator)
          (record { username = donator; times = pos 0; amount = new_coin_from_int64 (pos 0) })
          s.donations)
    set_post_donations permlink (record donations {
      amount = plus donations.amount amount;
      times = add64 donations.times (pos 1);
    })
    set_post_meta permlink (record meta {
      total_reward = plus meta.total_reward amount;
      total_donate_count = add64 meta.total_donate_count (pos 1);
      last_activity_at = time;
    })

  unfoldable pub delete_post : ℤ → String → PostMethod Unit
  delete_post time permlink = do
    meta ← get_post_meta permlink
    set_post_meta permlink (record meta {
      is_deleted = true;
      redistribution_split_rate = one_rat;
      last_updated_at = time;
    })
    info ← get_post_info permlink
    set_post_info (record info { title = ""; content = ""; links = [] })

  abbrev pub is_deleted_post : String → PostMethod Bool
  is_deleted_post permlink = do meta ← get_post_meta permlink; pure meta.is_deleted

  unfoldable pub update_last_activity_at : ℤ → String → PostMethod Unit
  update_last_activity_at time permlink = do
    meta ← get_post_meta permlink
    set_post_meta permlink (record meta { last_activity_at = time })

  -- The score of a reputation below zero, for the reputation with its sign changed.
  abbrev pub penalty_of : Coin → PostParam → Rat
  penalty_of reputation param =
      if is_zero param.max_report_reputation || is_gte reputation param.max_report_reputation
      then one_rat
      else (let score =
            round_rat (quo_rat (coin_to_rat reputation) (coin_to_rat param.max_report_reputation))
              precision_factor in
          if gt_rat score one_rat then one_rat else score)

  unfoldable pub get_penalty_score : Coin → PostMethod Rat
  get_penalty_score reputation = if is_not_negative reputation then pure zero_rat else do
    param ← get_post_param
    pure (penalty_of (minus (new_coin_from_int64 (pos 0)) reputation) param)
