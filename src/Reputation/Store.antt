-- ===== src/Reputation/Store.antt =====
-- x/reputation/internal/store.go: reading and writing the records.
pub mod TopPosts
pub mod Sorted
use lino.Prelude.{ℕ, String, Bool, true, false, Option, none, some, List, [], if◌then◌else◌}
use lino.Prelude.Int.{ℤ, pos}
use lino.Prelude.Int64.{add64}
use lino.Prelude.Table.{Table, get_or, insert, empty, pair_key, string_key, int_key}
use TopPosts.{PostDpPair, put_top, sort_top, cut_top}
use lino.Reputation.Records.{
  RepStore, UserMeta, PostMeta, UserPostMeta, RoundMeta, RoundPostMeta, RoundUserPostMeta, GameMeta,
  new_user, new_post, new_user_post, new_round, new_round_post, new_round_user_post, new_game,
}

abbrev pub get_user_meta : String → RepStore → UserMeta
get_user_meta u s = get_or u new_user s.user_metas

abbrev pub set_user_meta : String → UserMeta → RepStore → RepStore
set_user_meta u m s = record s { user_metas = insert u m s.user_metas }

abbrev pub get_post_meta : String → RepStore → PostMeta
get_post_meta p s = get_or p new_post s.post_metas

abbrev pub set_post_meta : String → PostMeta → RepStore → RepStore
set_post_meta p m s = record s { post_metas = insert p m s.post_metas }

abbrev pub get_user_post_meta : String → String → RepStore → UserPostMeta
get_user_post_meta u p s = get_or (u, p) new_user_post s.user_post_metas

abbrev pub set_user_post_meta : String → String → UserPostMeta → RepStore → RepStore
set_user_post_meta u p m s = record s { user_post_metas = insert (u, p) m s.user_post_metas }

abbrev pub get_round_meta : ℤ → RepStore → RoundMeta
get_round_meta r s = get_or r new_round s.round_metas

abbrev pub set_round_meta : ℤ → RoundMeta → RepStore → RepStore
set_round_meta r m s = record s { round_metas = insert r m s.round_metas }

abbrev pub get_round_post_meta : ℤ → String → RepStore → RoundPostMeta
get_round_post_meta r p s = get_or (r, p) new_round_post s.round_post_metas

abbrev pub set_round_post_meta : ℤ → String → RoundPostMeta → RepStore → RepStore
set_round_post_meta r p m s = record s { round_post_metas = insert (r, p) m s.round_post_metas }

abbrev pub get_round_user_post_meta : ℤ → String → String → RepStore → RoundUserPostMeta
get_round_user_post_meta r u p s = get_or (r, (u, p)) new_round_user_post s.round_user_post_metas

abbrev pub set_round_user_post_meta : ℤ → String → String → RoundUserPostMeta → RepStore → RepStore
set_round_user_post_meta r u p m s = record s {
  round_user_post_metas = insert (r, (u, p)) m s.round_user_post_metas;
}

abbrev pub get_game_meta : RepStore → GameMeta
get_game_meta s = elim s.game_meta [ none ↦ new_game | some g ↦ g ]

abbrev pub set_game_meta : GameMeta → RepStore → RepStore
set_game_meta g s = record s { game_meta = some g }

-- user meta
abbrev pub get_customer_score : String → RepStore → ℤ
get_customer_score u s = (get_user_meta u s).customer_score

abbrev pub set_customer_score : String → ℤ → RepStore → RepStore
set_customer_score u score s =
    set_user_meta u (record (get_user_meta u s) { customer_score = score }) s

abbrev pub get_free_score : String → RepStore → ℤ
get_free_score u s = (get_user_meta u s).free_score

abbrev pub set_free_score : String → ℤ → RepStore → RepStore
set_free_score u score s = set_user_meta u (record (get_user_meta u s) { free_score = score }) s

abbrev pub get_user_last_settled : String → RepStore → ℤ
get_user_last_settled u s = (get_user_meta u s).last_settled

abbrev pub set_user_last_settled : String → ℤ → RepStore → RepStore
set_user_last_settled u r s = set_user_meta u (record (get_user_meta u s) { last_settled = r }) s

abbrev pub get_user_last_donation_round : String → RepStore → ℤ
get_user_last_donation_round u s = (get_user_meta u s).last_donation_round

abbrev pub set_user_last_donation_round : String → ℤ → RepStore → RepStore
set_user_last_donation_round u r s =
    set_user_meta u (record (get_user_meta u s) { last_donation_round = r }) s

-- post meta
abbrev pub get_sum_rep : String → RepStore → ℤ
get_sum_rep p s = (get_post_meta p s).sum_rep

abbrev pub set_sum_rep : String → ℤ → RepStore → RepStore
set_sum_rep p r s = set_post_meta p (record (get_post_meta p s) { sum_rep = r }) s

-- user post meta
abbrev pub get_user_donated_on : String → String → RepStore → ℤ
get_user_donated_on u p s = (get_user_post_meta u p s).donated

abbrev pub set_user_donated_on : String → String → ℤ → RepStore → RepStore
set_user_donated_on u p dp s =
    set_user_post_meta u p (record (get_user_post_meta u p s) { donated = dp }) s

abbrev pub get_user_last_donation : String → String → RepStore → ℤ
get_user_last_donation u p s = (get_user_post_meta u p s).last_donation_rep

abbrev pub set_user_last_donation : String → String → ℤ → RepStore → RepStore
set_user_last_donation u p rep s =
    set_user_post_meta u p (record (get_user_post_meta u p s) { last_donation_rep = rep }) s

abbrev pub get_user_last_report : String → String → RepStore → ℤ
get_user_last_report u p s = (get_user_post_meta u p s).last_report_rep

abbrev pub set_user_last_report : String → String → ℤ → RepStore → RepStore
set_user_last_report u p rep s =
    set_user_post_meta u p (record (get_user_post_meta u p s) { last_report_rep = rep }) s

-- round meta
abbrev pub get_round_result : ℤ → RepStore → List String
get_round_result r s = (get_round_meta r s).result

abbrev pub set_round_result : ℤ → List String → RepStore → RepStore
set_round_result r bests s = set_round_meta r (record (get_round_meta r s) { result = bests }) s

abbrev pub get_round_sum_dp : ℤ → RepStore → ℤ
get_round_sum_dp r s = (get_round_meta r s).sum_dp

abbrev pub set_round_sum_dp : ℤ → ℤ → RepStore → RepStore
set_round_sum_dp r dp s = set_round_meta r (record (get_round_meta r s) { sum_dp = dp }) s

abbrev pub get_round_top_n_posts : ℤ → RepStore → List PostDpPair
get_round_top_n_posts r s = (get_round_meta r s).top_n

abbrev pub get_round_start_at : ℤ → RepStore → ℤ
get_round_start_at r s = (get_round_meta r s).start_at

abbrev pub get_current_round : RepStore → ℤ
get_current_round s = (get_game_meta s).current_round

unfoldable pub start_new_round : ℤ → RepStore → RepStore
start_new_round t s =
    let game = get_game_meta s in
    let new_round_id = add64 game.current_round (pos 1) in
    let s₁ = set_round_meta new_round_id (record new_round { start_at = t }) s in
    set_game_meta (record game { current_round = new_round_id }) s₁

-- round post
abbrev pub get_round_post_sum_dp : ℤ → String → RepStore → ℤ
get_round_post_sum_dp r p s = (get_round_post_meta r p s).sum_dp

-- Writes the sum and brings the round's top posts up to date.
unfoldable pub set_round_post_sum_dp : ℤ → String → ℤ → RepStore → RepStore
set_round_post_sum_dp r p dp s =
    let s₁ = set_round_post_meta r p (record (get_round_post_meta r p s) { sum_dp = dp }) s in
    let round = get_round_meta r s₁ in
    let top = cut_top s₁.best_content_index_n (sort_top (put_top p dp round.top_n)) in
    set_round_meta r (record round { top_n = top }) s₁

abbrev pub get_round_post_sum_stake : ℤ → String → RepStore → ℤ
get_round_post_sum_stake r p s = (get_round_post_meta r p s).sum_stake

abbrev pub set_round_post_sum_stake : ℤ → String → ℤ → RepStore → RepStore
set_round_post_sum_stake r p x s =
    set_round_post_meta r p (record (get_round_post_meta r p s) { sum_stake = x }) s

abbrev pub get_round_num_keys_sold : ℤ → String → RepStore → ℤ
get_round_num_keys_sold r p s = (get_round_post_meta r p s).num_keys_sold

abbrev pub set_round_num_keys_sold : ℤ → String → ℤ → RepStore → RepStore
set_round_num_keys_sold r p n s =
    set_round_post_meta r p (record (get_round_post_meta r p s) { num_keys_sold = n }) s

abbrev pub get_round_num_keys_has : ℤ → String → String → RepStore → ℤ
get_round_num_keys_has r u p s = (get_round_user_post_meta r u p s).num_keys_has

abbrev pub set_round_num_keys_has : ℤ → String → String → ℤ → RepStore → RepStore
set_round_num_keys_has r u p n s =
    set_round_user_post_meta r u p (record (get_round_user_post_meta r u p s) { num_keys_has = n })
      s
