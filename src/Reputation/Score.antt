-- ===== src/Reputation/Score.antt =====
-- x/reputation/internal/reputation.go: the reputation of users and posts, donations and rounds.
pub mod Settle
pub mod Donate
pub mod Rounds
use lino.Prelude.{
  ℕ, String, Bool, true, false, Option, none, some, List, [], ◌∷◌, ◌&&◌, ◌||◌, str_eq,
  if◌then◌else◌,
}
use lino.Prelude.Int.{ℤ, pos, pos_part, ◌+ℤ◌, ◌-ℤ◌, ◌*ℤ◌, ltb_ℤ, leb_ℤ, div_pos}
use lino.Prelude.Int64.{sub64, mul64}
use lino.Reputation.Keys.{num_keys_can_buy}
use lino.Reputation.Store.{
  get_customer_score, set_customer_score, get_free_score, set_free_score, get_user_last_settled,
  set_user_last_settled, get_user_last_donation_round, set_user_last_donation_round, get_sum_rep,
  set_sum_rep, get_user_donated_on, set_user_donated_on, get_user_last_donation,
  set_user_last_donation, get_user_last_report, set_user_last_report, get_round_result,
  set_round_result, get_round_sum_dp, set_round_sum_dp, get_round_top_n_posts, get_round_start_at,
  get_current_round, start_new_round, get_round_post_sum_dp, set_round_post_sum_dp,
  get_round_post_sum_stake, set_round_post_sum_stake, get_round_num_keys_sold,
  set_round_num_keys_sold, get_round_num_keys_has, set_round_num_keys_has,
}
use lino.Reputation.Records.{
  RepStore, initial_customer_score, UserMeta, PostMeta, UserPostMeta, RoundMeta, RoundPostMeta,
  RoundUserPostMeta, GameMeta,
}
use lino.Reputation.Store.TopPosts.{PostDpPair}

-- `bigIntMin` and `bigIntMax`
abbrev pub big_int_min : ℤ → ℤ → ℤ
big_int_min a b = if ltb_ℤ a b then a else b

abbrev pub big_int_max : ℤ → ℤ → ℤ
big_int_max a b = if ltb_ℤ b a then a else b

-- What the keys of the round `r` earned on one post. The store never returns nil here.
abbrev earned_on : ℤ → String → RepStore → String → ℤ
earned_on r u s pid =
    let sold = get_round_num_keys_sold r pid s in
    if ltb_ℤ (pos 0) sold
    then div_pos (get_round_num_keys_has r u pid s *ℤ get_round_post_sum_stake r pid s)
        (pos_part sold)
    else pos 0

pub unsettled_score : ℤ → String → RepStore → List String → ℤ → ℤ
unsettled_score r u s [] acc = acc
unsettled_score r u s (pid ∷ best) acc = unsettled_score r u s best (acc +ℤ earned_on r u s pid)

-- The score after a round of the sample window: `SampleWindowSize` is 10, `DecayFactor` is 97.
abbrev pub new_customer_score : ℤ → ℤ → ℤ
new_customer_score score unsettled =
    let new_score = div_pos (score *ℤ pos 9 +ℤ unsettled) 10 in
    let decayed = div_pos (score *ℤ pos 97) 100 in
    big_int_max (big_int_max new_score decayed) initial_customer_score

-- Is the last round that `u` donated in over, and not settled?
abbrev pub is_unsettled : String → RepStore → Bool
is_unsettled u s =
    let last_donated = get_user_last_donation_round u s in
    ltb_ℤ (get_user_last_settled u s) last_donated && ltb_ℤ last_donated (get_current_round s)

-- The score that the settlement of `u` computes.
pub settlement : String → RepStore → ℤ
settlement u s =
    let last_donated = get_user_last_donation_round u s in
    new_customer_score (get_customer_score u s)
      (unsettled_score last_donated u s (get_round_result last_donated s) (pos 0))

abbrev pub write_settled : String → ℤ → RepStore → RepStore
write_settled u score s =
    set_customer_score u score (set_user_last_settled u (get_user_last_donation_round u s) s)

pub get_settled_customer_score : String → RepStore → ℤ × RepStore
get_settled_customer_score u s =
    if is_unsettled u s
    then (settlement u s, write_settled u (settlement u s) s)
    else (get_customer_score u s, s)

pub get_reputation : String → RepStore → ℤ × RepStore
get_reputation u s =
    let (customer_score, s') = get_settled_customer_score u s in
    (customer_score +ℤ get_free_score u s', s')

pub buy_key : ℤ → String → String → ℤ → RepStore → RepStore
buy_key r u p stake s =
    let sold = get_round_num_keys_sold r p s in
    let bought = num_keys_can_buy sold stake in
    let at_hand = get_round_num_keys_has r u p s in
    if ltb_ℤ (pos 0) bought
    then set_round_num_keys_sold r p (sold +ℤ bought)
        (set_round_num_keys_has r u p (at_hand +ℤ bought) s)
    else s

abbrev pub inc_post_sum_dp : ℤ → String → ℤ → RepStore → RepStore
inc_post_sum_dp r p dp s = set_round_post_sum_dp r p (get_round_post_sum_dp r p s +ℤ dp) s

abbrev pub inc_post_sum_stake : ℤ → String → ℤ → RepStore → RepStore
inc_post_sum_stake r p x s = set_round_post_sum_stake r p (get_round_post_sum_stake r p s +ℤ x) s

abbrev pub inc_post_sum_rep : String → String → ℤ → RepStore → RepStore
inc_post_sum_rep u p new_rep s =
    let delta = new_rep -ℤ get_user_last_donation u p s in
    set_user_last_donation u p new_rep (set_sum_rep p (get_sum_rep p s +ℤ delta) s)

abbrev pub inc_round_sum_dp : ℤ → ℤ → RepStore → RepStore
inc_round_sum_dp r dp s = set_round_sum_dp r (get_round_sum_dp r s +ℤ dp) s

-- The donation power that a user of reputation `u_rep` has left, up to the stake.
abbrev pub donation_power : ℤ → ℤ → ℤ → ℤ
donation_power u_rep used_dp stake = big_int_min (big_int_max (u_rep -ℤ used_dp) (pos 0)) stake

-- What `DonateAt` writes once the reputation is known.
pub record_donation : String → String → ℤ → ℤ → RepStore → ℤ × RepStore
unfolding buy_key
record_donation u p stake u_rep s =
    let used_dp = get_user_donated_on u p s in
    let dp = donation_power u_rep used_dp stake in
    let s₁ = set_user_donated_on u p (dp +ℤ used_dp) s in
    let s₂ = inc_post_sum_rep u p u_rep s₁ in
    let current = get_current_round s₂ in
    let s₃ = set_user_last_donation_round u current s₂ in
    let s₄ = buy_key current u p stake s₃ in
    let s₅ = inc_post_sum_dp current p dp s₄ in
    let s₆ = inc_round_sum_dp current dp s₅ in (dp, inc_post_sum_stake current p stake s₆)

-- `none` is a panic.
pub donate_at : String → String → ℤ → RepStore → Option (ℤ × RepStore)
donate_at u p stake s =
    if str_eq u "" || str_eq p ""
    then none
    else (let (u_rep, s') = get_reputation u s in some (record_donation u p stake u_rep s'))

pub report_at : String → String → RepStore → ℤ × RepStore
report_at u p s =
    let sum_rep = get_sum_rep p s in
    let (new_rep, s') = get_reputation u s in
    let delta = new_rep -ℤ get_user_last_report u p s' in
    let sum_rep' = sum_rep -ℤ delta in
    (sum_rep', set_user_last_report u p new_rep (set_sum_rep p sum_rep' s'))

pub inc_free_score : String → ℤ → RepStore → RepStore
inc_free_score u score s = set_free_score u (get_free_score u s +ℤ score) s

abbrev pub round_duration : ℤ
round_duration = pos 25

-- `moreThan`
abbrev pub more_than : ℤ → ℤ → ℤ → Bool
more_than cur start_at hours = leb_ℤ (mul64 hours (pos 3600)) (sub64 cur start_at)

-- The loop of `Update` over the top posts, with its `continue` and its `break`.
unfoldable pub best_contents : ℤ → ℤ → RepStore → List PostDpPair → ℤ → List String
best_contents round dp_bound s [] covered = []
best_contents round dp_bound s (c ∷ top) covered =
    let post_dp = get_round_post_sum_dp round c.pid s in
    let covered' = covered +ℤ post_dp in
    let rest = best_contents round dp_bound s top covered' in
    let rest' = if leb_ℤ dp_bound covered' then [] else rest in
    if leb_ℤ post_dp (pos 0)
    then rest
    else if ltb_ℤ (pos 0) (get_sum_rep c.pid s)
    then c.pid ∷ rest'
    else rest'

unfoldable pub update : ℤ → RepStore → RepStore
update t s =
    let round = get_current_round s in
    let dp_bound = div_pos (get_round_sum_dp round s *ℤ pos 8) 10 in
    let result = best_contents round dp_bound s (get_round_top_n_posts round s) (pos 0) in
    if more_than t (get_round_start_at round s) round_duration
    then start_new_round t (set_round_result round result s)
    else s
