-- ===== src/Messages/Post.antt =====
-- The messages of x/post/msg.go.
use lino.Sdk.{Sdk}
use Prim.Native.String.{len, count}
use lino.Prelude.{List, [], ◌∷◌, String, ℕ, Bool, ltb, ◌==◌, none, ◌||◌, ◌&&◌, some}
use lino.Post.Store.{IdToUrlMapping}
use lino.Prelude.Exec.{Result, ok, err}
use lino.Messages.Check.{
  Msg, zero_cost, reject, checked_lino, maximum_memo_length, maximum_link_url,
}
use lino.Types.Errors.{
  Error, identifier_length_too_long, no_username, no_post_id, not_a_decimal, post_id_too_long,
  no_author, invalid_memo, url_length_too_long, invalid_target, post_title_exceed_max_length,
  invalid_post_redistribution_split_rate, comment_and_repost_conflict,
  post_content_exceed_max_length, redistribution_split_rate_length_too_long, too_many_url,
}
use lino.Account.Store.{pre_authorization_permission, app_permission}
use lino.Types.Coin.{new_rat_from_decimal_precision, lino_to_coin, new_coin_from_int64}
use lino.Prelude.Int.{pos}
use lino.Prelude.Lists.{length}

abbrev pub max_post_title_length : ℕ
max_post_title_length = 100

abbrev pub max_post_content_length : ℕ
max_post_content_length = 1000

abbrev pub maximum_sdk_rat_length : ℕ
maximum_sdk_rat_length = 10

abbrev pub maximum_link_identifier : ℕ
maximum_link_identifier = 20

abbrev pub maximum_length_of_post_id : ℕ
maximum_length_of_post_id = 50

abbrev pub maximum_num_of_links : ℕ
maximum_num_of_links = 10

-- The loop over the links.
abbrev pub check_links : List IdToUrlMapping → Result Error Unit → Result Error Unit
check_links [] rest = rest
check_links (link ∷ links) rest =
    let next = check_links links rest in
    reject (ltb maximum_link_identifier (len link.identifier)) identifier_length_too_long
      (reject (ltb maximum_link_url (len link.url)) url_length_too_long next)

-- The checks of a reaction to a post.
abbrev pub check_target : (username author post_id : String) → Result Error Unit → Result Error Unit
check_target username author post_id rest =
    reject (len username == 0) no_username
      (reject (len author == 0 || len post_id == 0) invalid_target rest)

module _ ⦃sdk : Sdk⦄ where
  open sdk use {rat_from_decimal, gt_rat, lt_rat, zero_rat, new_rat}

  pub record CreatePostMsg : Type 0 where
    pub author : String
    pub post_id : String
    pub title : String
    pub content : String
    pub parent_author : String
    pub parent_post_id : String
    pub source_author : String
    pub source_post_id : String
    pub links : List IdToUrlMapping
    pub redistribution_split_rate : String

  -- A share from zero to one; the SDK's own error for a string that is no decimal.
  abbrev pub checked_split_rate : String → Result Error Unit
  checked_split_rate text = elim (rat_from_decimal text new_rat_from_decimal_precision) [
    | none ↦ err not_a_decimal
    | some rate ↦
        reject (lt_rat rate zero_rat || gt_rat rate (new_rat (pos 1) (pos 1)))
          invalid_post_redistribution_split_rate (ok tt)
  ]

  unfoldable pub validate_create_post_msg : CreatePostMsg → Result Error Unit
  validate_create_post_msg msg = reject (len msg.post_id == 0) no_post_id (
      reject (ltb maximum_length_of_post_id (len msg.post_id)) post_id_too_long (
        reject (len msg.author == 0) no_author (
          reject
            ((ltb 0 (len msg.parent_author) || ltb 0 (len msg.parent_post_id))
              && (ltb 0 (len msg.source_author) || ltb 0 (len msg.source_post_id)))
            comment_and_repost_conflict
            (reject (ltb max_post_title_length (count msg.title)) post_title_exceed_max_length (
              reject (ltb max_post_content_length (count msg.content))
                post_content_exceed_max_length
                (reject (ltb maximum_sdk_rat_length (len msg.redistribution_split_rate))
                  redistribution_split_rate_length_too_long
                  (reject (ltb maximum_num_of_links (length msg.links)) too_many_url (
                    check_links msg.links (checked_split_rate msg.redistribution_split_rate)))))))))

  abbrev pub create_post_msg : CreatePostMsg → Msg
  create_post_msg msg = zero_cost (validate_create_post_msg msg) app_permission msg.author

  pub record UpdatePostMsg : Type 0 where
    pub author : String
    pub post_id : String
    pub title : String
    pub content : String
    pub links : List IdToUrlMapping

  unfoldable pub validate_update_post_msg : UpdatePostMsg → Result Error Unit
  validate_update_post_msg msg = reject (len msg.post_id == 0) no_post_id (
      reject (len msg.author == 0) no_author (
        reject (ltb max_post_title_length (count msg.title)) post_title_exceed_max_length (
          reject (ltb max_post_content_length (count msg.content)) post_content_exceed_max_length
            (check_links msg.links (ok tt)))))

  abbrev pub update_post_msg : UpdatePostMsg → Msg
  update_post_msg msg = zero_cost (validate_update_post_msg msg) app_permission msg.author

  pub record DeletePostMsg : Type 0 where
    pub author : String
    pub post_id : String

  unfoldable pub validate_delete_post_msg : DeletePostMsg → Result Error Unit
  validate_delete_post_msg msg =
      reject (len msg.post_id == 0) no_post_id (reject (len msg.author == 0) no_author (ok tt))

  abbrev pub delete_post_msg : DeletePostMsg → Msg
  delete_post_msg msg = zero_cost (validate_delete_post_msg msg) app_permission msg.author

  pub record DonateMsg : Type 0 where
    pub username : String
    pub amount : String
    pub author : String
    pub post_id : String
    pub from_app : String
    pub memo : String

  unfoldable pub validate_donate_msg : DonateMsg → Result Error Unit
  validate_donate_msg msg = check_target msg.username msg.author msg.post_id (
      checked_lino msg.amount
        (reject (ltb maximum_memo_length (count msg.memo)) invalid_memo (ok tt)))

  -- A donation spends of an authorized amount; an amount that is no coin counts as zero.
  abbrev pub donate_msg : DonateMsg → Msg
  donate_msg msg = record {
    validate_basic = validate_donate_msg msg;
    get_permission = pre_authorization_permission;
    get_signers = msg.username ∷ [];
    get_consume_amount = elim (lino_to_coin msg.amount) [
      | none ↦ new_coin_from_int64 (pos 0)
      | some coin ↦ coin
    ];
  }

  pub record ViewMsg : Type 0 where
    pub username : String
    pub author : String
    pub post_id : String

  unfoldable pub validate_view_msg : ViewMsg → Result Error Unit
  validate_view_msg msg = check_target msg.username msg.author msg.post_id (ok tt)

  abbrev pub view_msg : ViewMsg → Msg
  view_msg msg = zero_cost (validate_view_msg msg) app_permission msg.username

  pub record ReportOrUpvoteMsg : Type 0 where
    pub username : String
    pub author : String
    pub post_id : String
    pub is_report : Bool

  unfoldable pub validate_report_or_upvote_msg : ReportOrUpvoteMsg → Result Error Unit
  validate_report_or_upvote_msg msg = check_target msg.username msg.author msg.post_id (ok tt)

  abbrev pub report_or_upvote_msg : ReportOrUpvoteMsg → Msg
  report_or_upvote_msg msg =
      zero_cost (validate_report_or_upvote_msg msg) app_permission msg.username
