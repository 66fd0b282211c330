-- ===== src/Post/Store.antt =====
-- x/post/model, and the permlinks of types/common.go. What the source keys by a permlink and a user is a table
-- of pairs.
use lino.Sdk.{Sdk}
use Prim.Native.String.{◌++◌, String}
use lino.Prelude.{String, List, Bool, Option}
use lino.Prelude.Int.{ℤ}
use lino.Prelude.Table.{Table, insert, has, string_key, pair_key, int_key}
use lino.Prelude.Exec.{Exec, ok, require}
use lino.Types.Coin.{Coin}
use lino.Types.Errors.{
  Error, post_not_found, post_meta_not_found, post_report_or_upvote_not_found,
  post_comment_not_found, post_view_not_found, post_donation_not_found, param_not_found,
}

-- `types.IDToURLMapping`
pub record IdToUrlMapping : Type 0 where
  pub identifier : String
  pub url : String

abbrev pub permlink_separator : String
permlink_separator = "#"

abbrev pub permlink_of : (author post_id : String) → String
permlink_of author post_id = author ++ permlink_separator ++ post_id

module _ ⦃sdk : Sdk⦄ where
  open sdk use {Rat}

  pub record PostInfo : Type 0 where
    pub post_id : String
    pub title : String
    pub content : String
    pub author : String
    pub parent_author : String
    pub parent_post_id : String
    pub source_author : String
    pub source_post_id : String
    pub links : List IdToUrlMapping

  pub record PostMeta : Type 0 where
    pub created_at : ℤ
    pub last_updated_at : ℤ
    pub last_activity_at : ℤ
    pub allow_replies : Bool
    pub is_deleted : Bool
    pub total_donate_count : ℤ
    pub total_report_coin_day : Coin
    pub total_upvote_coin_day : Coin
    pub total_view_count : ℤ
    pub total_reward : Coin
    pub redistribution_split_rate : Rat

  pub record ReportOrUpvote : Type 0 where
    pub username : String
    pub coin_day : Coin
    pub created_at : ℤ
    pub is_report : Bool

  pub record Comment : Type 0 where
    pub author : String
    pub post_id : String
    pub created_at : ℤ

  pub record View : Type 0 where
    pub username : String
    pub last_view_at : ℤ
    pub times : ℤ

  pub record Donations : Type 0 where
    pub username : String
    pub times : ℤ
    pub amount : Coin

  pub record PostParam : Type 0 where
    pub report_or_upvote_interval_sec : ℤ
    pub post_interval_sec : ℤ
    pub max_report_reputation : Coin

  pub record PostStore : Type 0 where
    pub infos : Table String PostInfo
    pub metas : Table String PostMeta
    pub reports_or_upvotes : Table (String × String) ReportOrUpvote
    pub comments : Table (String × String) Comment
    pub views : Table (String × String) View
    pub donations : Table (String × String) Donations
    pub post_param : Option PostParam

  abbrev pub PostMethod : Type 0 → Type 0
  PostMethod A = Exec Error PostStore A

  abbrev pub does_post_exist : String → PostStore → Bool
  does_post_exist permlink s = has permlink s.infos

  abbrev pub get_post_info : String → PostMethod PostInfo
  get_post_info permlink = require post_not_found (λ s. s.infos permlink)

  abbrev pub set_post_info : PostInfo → PostMethod Unit
  set_post_info info s =
      (ok tt, record s { infos = insert (permlink_of info.author info.post_id) info s.infos })

  abbrev pub get_post_meta : String → PostMethod PostMeta
  get_post_meta permlink = require post_meta_not_found (λ s. s.metas permlink)

  abbrev pub set_post_meta : String → PostMeta → PostMethod Unit
  set_post_meta permlink meta s = (ok tt, record s { metas = insert permlink meta s.metas })

  abbrev pub get_post_report_or_upvote : String → String → PostMethod ReportOrUpvote
  get_post_report_or_upvote permlink user =
      require post_report_or_upvote_not_found (λ s. s.reports_or_upvotes (permlink, user))

  abbrev pub set_post_report_or_upvote : String → ReportOrUpvote → PostMethod Unit
  set_post_report_or_upvote permlink report s = (
    ok tt,
    record s {
      reports_or_upvotes = insert (permlink, report.username) report s.reports_or_upvotes;
    },
  )

  abbrev pub get_post_comment : String → String → PostMethod Comment
  get_post_comment permlink comment_permlink =
      require post_comment_not_found (λ s. s.comments (permlink, comment_permlink))

  abbrev pub set_post_comment : String → Comment → PostMethod Unit
  set_post_comment permlink comment s = (
    ok tt,
    record s {
      comments = insert (permlink, permlink_of comment.author comment.post_id) comment s.comments;
    },
  )

  abbrev pub get_post_view : String → String → PostMethod View
  get_post_view permlink view_user =
      require post_view_not_found (λ s. s.views (permlink, view_user))

  abbrev pub set_post_view : String → View → PostMethod Unit
  set_post_view permlink view s =
      (ok tt, record s { views = insert (permlink, view.username) view s.views })

  abbrev pub get_post_donations : String → String → PostMethod Donations
  get_post_donations permlink donate_user =
      require post_donation_not_found (λ s. s.donations (permlink, donate_user))

  abbrev pub set_post_donations : String → Donations → PostMethod Unit
  set_post_donations permlink donations s =
      (ok tt, record s { donations = insert (permlink, donations.username) donations s.donations })

  abbrev pub get_post_param : PostMethod PostParam
  get_post_param = require param_not_found (λ s. s.post_param)
