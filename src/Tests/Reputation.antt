-- ===== src/Tests/Reputation.antt =====
-- x/reputation/internal: runs from the empty store, and the theorems at them.
use mathlib.Core.List.{Perm}
use lino.Prelude.{
  String, ℕ, ◌≢◌, arith, ◌≡◌, none, eq_iff, some, refl, List, ◌+◌, ◌≤◌, true, false, ◌<◌, suc, ◌⊎◌,
  [], ◌++◌, ◌∷◌,
}
use lino.Reputation.Records.{RepStore, initial_customer_score}
use lino.Reputation.Store.{
  get_customer_score, get_round_top_n_posts, get_current_round, set_round_post_sum_dp,
  get_user_donated_on, get_round_start_at, get_round_sum_dp, get_round_post_sum_dp,
  get_round_post_sum_stake, get_round_result,
}
use lino.Reputation.Keys.{num_keys_can_buy, max_num_keys_each_time}
use lino.Reputation.Score.{
  get_settled_customer_score, donate_at, update, is_unsettled, big_int_max, get_reputation,
  best_contents,
}
use lino.Prelude.Int.{ℤ, pos, ◌≤ℤ◌, ◌*ℤ◌, ◌+ℤ◌, leb_ℤ, div_pos}
use lino.Prelude.Table.{empty, insert, string_key, pair_key, int_key}
use lino.Reputation.Keys.Price.{total_price, num_keys_can_buy_optimal}
use lino.Reputation.Score.Settle.{settled_once, settled_bounds}
use lino.Reputation.Store.TopPosts.{PostDpPair, IsSorted, Outweighs}
use lino.Prelude.Lists.{length}
use lino.Prelude.Int64.{add64, sub64}
use lino.Reputation.Score.Donate.{donate_at_accounts}
use lino.Reputation.Score.Rounds.{update_rounds, IsBest}
use lino.Reputation.Store.Sorted.{top_posts-IsSorted, Writes}

abbrev no_reputation : RepStore
no_reputation = record {
  user_metas = empty;
  post_metas = empty;
  user_post_metas = empty;
  round_metas = empty;
  round_post_metas = empty;
  round_user_post_metas = empty;
  game_meta = none;
  best_content_index_n = 2;
}

score_at_start : get_customer_score "u" no_reputation ≡ pos 100000
unfolding lino.Prelude.Table.get_or
score_at_start = refl

score_le : initial_customer_score ≤ℤ get_customer_score "u" no_reputation
score_le = rw score_at_start (ground arith)

-- A stake of 999 is below the first key's price, 1000; 2001 buys two keys, at 1000 and 1001.
one_key : num_keys_can_buy (pos 0) (pos 999) ≡ pos 0
unfolding num_keys_can_buy ◌+ℤ◌
one_key = refl

two_keys : num_keys_can_buy (pos 0) (pos 2001) ≡ pos 2
unfolding num_keys_can_buy ◌+ℤ◌ lino.Reputation.Keys.bisect lino.Reputation.Keys.narrow ◌*ℤ◌
    lino.Reputation.Keys.eval_keys
two_keys = refl

abbrev no_name : String
no_name = ""

abbrev user : String
user = "u"

abbrev post : String
post = "p"

u_ne : user ≢ no_name
u_ne = ground (arith, eq_iff user no_name)

p_ne : post ≢ no_name
p_ne = ground (arith, eq_iff post no_name)

num_keys_can_buy_example :
    (n : ℕ) × (num_keys_can_buy (pos 0) (pos 2001) ≡ pos n)
    × (total_price (1000 + 0) n ≤ 2001)
    × ((2001 < total_price (1000 + 0) (suc n)) ⊎ (n ≡ max_num_keys_each_time + 1))
num_keys_can_buy_example = num_keys_can_buy_optimal 0 2001

-- Round 1 has the power 10: 6 on a post that is reported less than it is worth, 4 on another.
abbrev two_posts : RepStore
two_posts = record no_reputation {
  post_metas = insert "p" (record { sum_rep = pos 3 }) empty;
  round_metas =
      insert (pos 1)
        (record {
          result = [];
          sum_dp = pos 10;
          start_at = pos 0;
          top_n = record { pid = "p"; sum_dp = pos 6 } ∷ record { pid = "q"; sum_dp = pos 4 } ∷ [];
        })
        empty;
  round_post_metas =
      insert (pos 1, "p") (record { sum_dp = pos 6; sum_stake = pos 0; num_keys_sold = pos 0 })
        (insert (pos 1, "q") (record { sum_dp = pos 4; sum_stake = pos 0; num_keys_sold = pos 0 })
          empty);
}

top_posts-IsSorted_example :
    let kept =
      get_round_top_n_posts (pos 1) (set_round_post_sum_dp (pos 1) "p" (pos 5) two_posts) in
    (new dropped : List PostDpPair) × Writes "p"
      (pos 5)
      (get_round_top_n_posts (pos 1) two_posts)
      new
    × Perm (kept ++ dropped) new
    × IsSorted kept
    × (length kept ≤ two_posts.best_content_index_n)
    × ((length kept ≡ two_posts.best_content_index_n) ⊎ (dropped ≡ []))
    × Outweighs kept dropped
top_posts-IsSorted_example = top_posts-IsSorted (pos 1) "p" (pos 5) two_posts

settled_once_example :
    let (score, s') = get_settled_customer_score "u" no_reputation in
    get_settled_customer_score "u" s' ≡ (score, s')
settled_once_example = settled_once "u" no_reputation

settled_bounds_example :
    let (score, s') = get_settled_customer_score "u" no_reputation in
    (get_customer_score "u" s' ≡ score)
    × (initial_customer_score ≤ℤ score)
    × (pos 97 *ℤ get_customer_score "u" no_reputation ≤ℤ pos 100 *ℤ score +ℤ pos 99)
    × ((is_unsettled "u" no_reputation ≡ true)
        ⊎ ((score ≡ get_customer_score "u" no_reputation) × (s' ≡ no_reputation)))
settled_bounds_example = settled_bounds "u" no_reputation score_le

donate_at_example :
    (dp : ℤ) × (s' : RepStore) × (donate_at "u" "p" (pos 5000) no_reputation ≡ some (dp, s'))
    × (pos 0 ≤ℤ dp)
    × (dp ≤ℤ pos 5000)
    × (get_user_donated_on "u" "p" s' ≡ dp +ℤ get_user_donated_on "u" "p" no_reputation)
    × (get_user_donated_on "u" "p" s'
        ≤ℤ big_int_max
            (get_reputation "u" no_reputation).0
            (get_user_donated_on "u" "p" no_reputation))
    × (get_round_sum_dp (get_current_round no_reputation) s'
        ≡ get_round_sum_dp (get_current_round no_reputation) no_reputation +ℤ dp)
    × (get_round_post_sum_dp (get_current_round no_reputation) "p" s'
        ≡ get_round_post_sum_dp (get_current_round no_reputation) "p" no_reputation +ℤ dp)
    × (get_round_post_sum_stake (get_current_round no_reputation) "p" s'
        ≡ get_round_post_sum_stake (get_current_round no_reputation) "p" no_reputation +ℤ pos 5000)
donate_at_example = donate_at_accounts "u" "p" (pos 5000) no_reputation u_ne p_ne (ground arith)

update_rounds_example :
    let r = get_current_round two_posts in
    let s' = update (pos 90000) two_posts in
    ((leb_ℤ (pos 90000) (sub64 (pos 90000) (get_round_start_at r two_posts)) ≡ false)
      × (s' ≡ two_posts))
    ⊎ ((leb_ℤ (pos 90000) (sub64 (pos 90000) (get_round_start_at r two_posts)) ≡ true)
        × (get_current_round s' ≡ add64 r (pos 1))
        × (get_round_start_at (get_current_round s') s' ≡ pos 90000)
        × (get_round_top_n_posts (get_current_round s') s' ≡ [])
        × (get_round_sum_dp (get_current_round s') s' ≡ pos 0)
        × IsBest r
            (div_pos (get_round_sum_dp r two_posts *ℤ pos 8) 10)
            two_posts
            (pos 0)
            (get_round_top_n_posts r two_posts)
            (get_round_result r s'))
update_rounds_example = update_rounds (pos 90000) two_posts

-- A second before 25 hours the round goes on; then only the first post is in its result.
round_ends :
    (update (pos 89999) two_posts ≡ two_posts)
    × (get_round_result (pos 1) (update (pos 90000) two_posts) ≡ "p" ∷ [])
unfolding update best_contents lino.Prelude.Table.get_or insert lino.Prelude.Int.◌-ℤ◌ ◌+ℤ◌
    lino.Prelude.Int64.wrap64 ◌*ℤ◌ lino.Reputation.Store.start_new_round div_pos
round_ends = (refl, refl)

-- The third post goes between the two, and one of the three has to go.
third_post :
    get_round_top_n_posts (pos 1) (set_round_post_sum_dp (pos 1) "r" (pos 5) two_posts)
    ≡ record { pid = "p"; sum_dp = pos 6 } ∷ record { pid = "r"; sum_dp = pos 5 } ∷ []
unfolding set_round_post_sum_dp lino.Prelude.Table.get_or insert
    lino.Reputation.Store.TopPosts.sort_top lino.Reputation.Store.TopPosts.put_top
third_post = refl
