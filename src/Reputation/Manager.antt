-- ===== src/Reputation/Manager.antt =====
-- x/reputation/manager.go and tick.go: the checks around reputation/internal, and the free score that a
-- stake earns.
use lino.Sdk.{Sdk}
use lino.Reputation.Records.{RepStore}
use lino.Prelude.Exec.{Exec, ok, ◌>>=◌, ◌>>◌, require, pure, raise}
use lino.Prelude.{String, Option, if◌then◌else◌, ℕ, str_eq}
use lino.Prelude.Int.{ℤ, div_pos, pos, ◌*ℤ◌, ◌-ℤ◌}
use lino.Types.Coin.{Coin, worth}
use lino.Types.Errors.{
  Error, param_not_found, panicked, account_not_found, post_not_found, invalid_coin,
}
use lino.Reputation.Score.{inc_free_score, update, report_at, get_reputation, donate_at}
use lino.Reputation.Store.{get_sum_rep}

-- The records of reputation/internal and the parameter beside them.
pub record ReputationState : Type 0 where
  pub scores : RepStore
  pub best_content_index_param : Option ℕ

abbrev pub ReputationMethod : Type 0 → Type 0
ReputationMethod A = Exec Error ReputationState A

-- `getHandler`: the store as the handler sees it.
abbrev pub get_handler : ReputationMethod RepStore
get_handler = do
  n ← require param_not_found (λ s. s.best_content_index_param)
  λ s. (ok (record s.scores { best_content_index_n = n }), s)

abbrev put_scores : RepStore → ReputationMethod Unit
put_scores scores s = (ok tt, record s { scores = scores })

abbrev pub check_username : String → ReputationMethod Unit
check_username uid = if str_eq uid "" then raise account_not_found else pure tt

abbrev pub check_post : String → ReputationMethod Unit
check_post pid = if str_eq pid "" then raise post_not_found else pure tt

abbrev pub basic_check : String → String → ReputationMethod Unit
basic_check uid pid = do check_username uid; check_post pid

unfoldable pub rm_inc_free_score : String → ℤ → ReputationMethod Unit
rm_inc_free_score username score = do
  handler ← get_handler
  check_username username
  put_scores (inc_free_score username score handler)

-- `Update`, which the end of a block calls; `time` is the block's.
unfoldable pub rm_update : ℤ → ReputationMethod Unit
rm_update time = do handler ← get_handler; put_scores (update time handler)

module _ ⦃sdk : Sdk⦄ where
  open sdk use {value, new_int}

  -- 0.15% of a stake. `Div` of math/big rounds down for a positive divisor.
  abbrev pub calc_free_score : Coin → ℤ
  calc_free_score amount = div_pos (worth amount *ℤ pos 15) 10000

  -- The error is not returned.
  unfoldable pub on_stake_in : String → Coin → ReputationMethod Unit
  on_stake_in username amount s = (ok tt, (rm_inc_free_score username (calc_free_score amount) s).1)

  unfoldable pub on_stake_out : String → Coin → ReputationMethod Unit
  on_stake_out username amount s =
      (ok tt, (rm_inc_free_score username (pos 0 -ℤ calc_free_score amount) s).1)

  abbrev pub coin_of : ℤ → Coin
  coin_of n = record { amount = new_int n }

  -- `donate_at` is `none` where the source panics.
  unfoldable pub rm_donate_at : String → String → Coin → ReputationMethod Coin
  rm_donate_at username post coin_day = do
    handler ← get_handler
    basic_check username post
    (dp, scores) ←
        require (panicked invalid_coin) (λ s. donate_at username post (worth coin_day) handler)
    put_scores scores
    pure (coin_of dp)

  unfoldable pub rm_report_at : String → String → ReputationMethod Coin
  rm_report_at username post = do
    handler ← get_handler
    basic_check username post
    let (sum_rep, scores) = report_at username post handler
    put_scores scores
    pure (coin_of sum_rep)

  -- Reading a reputation may settle it first.
  unfoldable pub rm_get_reputation : String → ReputationMethod Coin
  rm_get_reputation username = do
    handler ← get_handler
    check_username username
    let (score, scores) = get_reputation username handler
    put_scores scores
    pure (coin_of score)

  unfoldable pub rm_get_sum_rep : String → ReputationMethod Coin
  rm_get_sum_rep post = do
    handler ← get_handler
    check_post post
    pure (coin_of (get_sum_rep post handler))
