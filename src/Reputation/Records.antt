-- ===== src/Reputation/Records.antt =====
-- x/reputation/internal/store.go: the records of users, posts and rounds, with their defaults.
-- The byte encodings of keys and of values are not modelled: each table is indexed by what its keys
-- are made of.
use lino.Prelude.{ℕ, String, Option, List, []}
use lino.Prelude.Int.{ℤ, pos}
use lino.Prelude.Table.{Table}
use lino.Reputation.Store.TopPosts.{PostDpPair}

pub record UserMeta : Type 0 where
  pub customer_score : ℤ
  pub free_score : ℤ
  pub last_settled : ℤ
  pub last_donation_round : ℤ

pub record PostMeta : Type 0 where
  pub sum_rep : ℤ

pub record UserPostMeta : Type 0 where
  pub donated : ℤ
  pub last_donation_rep : ℤ
  pub last_report_rep : ℤ

pub record RoundMeta : Type 0 where
  pub result : List String
  pub sum_dp : ℤ
  pub start_at : ℤ
  pub top_n : List PostDpPair

pub record RoundPostMeta : Type 0 where
  pub sum_dp : ℤ
  pub sum_stake : ℤ
  pub num_keys_sold : ℤ

pub record RoundUserPostMeta : Type 0 where
  pub num_keys_has : ℤ

pub record GameMeta : Type 0 where
  pub current_round : ℤ

pub record RepStore : Type 0 where
  pub user_metas : Table String UserMeta
  pub post_metas : Table String PostMeta
  pub user_post_metas : Table (String × String) UserPostMeta
  pub round_metas : Table ℤ RoundMeta
  pub round_post_metas : Table (ℤ × String) RoundPostMeta
  pub round_user_post_metas : Table (ℤ × (String × String)) RoundUserPostMeta
  pub game_meta : Option GameMeta
  pub best_content_index_n : ℕ

abbrev pub initial_customer_score : ℤ
initial_customer_score = pos 100000

-- The records that stand for what is not stored.
abbrev pub new_user : UserMeta
new_user = record {
  customer_score = initial_customer_score;
  free_score = pos 0;
  last_settled = pos 0;
  last_donation_round = pos 0;
}

abbrev pub new_post : PostMeta
new_post = record { sum_rep = pos 0 }

abbrev pub new_user_post : UserPostMeta
new_user_post = record { donated = pos 0; last_donation_rep = pos 0; last_report_rep = pos 0 }

abbrev pub new_round : RoundMeta
new_round = record { result = []; sum_dp = pos 0; start_at = pos 0; top_n = [] }

abbrev pub new_round_post : RoundPostMeta
new_round_post = record { sum_dp = pos 0; sum_stake = pos 0; num_keys_sold = pos 0 }

abbrev pub new_round_user_post : RoundUserPostMeta
new_round_user_post = record { num_keys_has = pos 0 }

abbrev pub new_game : GameMeta
new_game = record { current_round = pos 1 }
