-- ===== src/Account/Profile.antt =====
-- x/account/manager.go: what an account keeps beside its balance: the sequence number, the times of its
-- last posts and reports, its rewards and its relations to other accounts.
use lino.Sdk.{Sdk}
use lino.Prelude.{ℕ, String, List, Bool, if◌then◌else◌, [], not, suc, ◌++◌, ◌∷◌, ◌+◌, zero}
use lino.Prelude.Int.{ℤ, pos, div_pos, pos_part}
use lino.Types.Errors.{
  Error, account_meta_not_found, reward_not_found, get_saving_failed, get_sequence_failed,
  get_last_report_failed, update_last_report_failed, get_last_post_failed, update_last_post_failed,
  increase_sequence_failed, get_frozen_money_failed,
}
use lino.Types.Coin.{Coin, plus, zero_coin}
use lino.Account.Bank.{
  BankMethod, AccountMeta, Reward, RewardDetail, BankStore, FrozenMoney, get_bank, set_bank,
  add_saving_coin,
}
use lino.Prelude.Exec.{require, ok, pure, gets, ◌>>=◌, ◌>>◌}
use lino.Prelude.Table.{get_or, insert, has, erase, string_key, pair_key, int_key}
use lino.Prelude.Int64.{add64}

-- types.RewardHistoryBundleSize
abbrev pub reward_history_bundle_size : ℕ
reward_history_bundle_size = 100

-- types.TransferDetailType
abbrev pub claim_reward_in : ℤ
claim_reward_in = pos 2

module _ ⦃sdk : Sdk⦄ where
  -- `GetMeta`, with the error that its caller returns in the place of its own.
  abbrev pub get_meta_or : Error → String → BankMethod AccountMeta
  get_meta_or e acc_key = require e (λ s. s.metas acc_key)

  abbrev pub get_meta : String → BankMethod AccountMeta
  get_meta acc_key = get_meta_or account_meta_not_found acc_key

  abbrev pub set_meta : String → AccountMeta → BankMethod Unit
  set_meta acc_key meta s = (ok tt, record s { metas = insert acc_key meta s.metas })

  abbrev pub get_reward : String → BankMethod Reward
  get_reward acc_key = require reward_not_found (λ s. s.rewards acc_key)

  abbrev pub set_reward : String → Reward → BankMethod Unit
  set_reward acc_key reward s = (ok tt, record s { rewards = insert acc_key reward s.rewards })

  unfoldable pub update_json_meta : String → String → BankMethod Unit
  update_json_meta username json_meta = do
    meta ← get_meta username
    set_meta username (record meta { json_meta = json_meta })

  abbrev pub get_saving_from_bank : String → BankMethod Coin
  get_saving_from_bank username = do
    bank ← require get_saving_failed (λ s. s.banks username)
    pure bank.saving

  unfoldable pub get_sequence : String → BankMethod ℤ
  get_sequence username = do meta ← get_meta_or get_sequence_failed username; pure meta.sequence

  abbrev pub get_last_report_or_upvote_at : String → BankMethod ℤ
  get_last_report_or_upvote_at username = do
    meta ← get_meta_or get_last_report_failed username
    pure meta.last_report_or_upvote_at

  unfoldable pub update_last_report_or_upvote_at : ℤ → String → BankMethod Unit
  update_last_report_or_upvote_at time username = do
    meta ← get_meta_or update_last_report_failed username
    set_meta username (record meta { last_report_or_upvote_at = time })

  abbrev pub get_last_post_at : String → BankMethod ℤ
  get_last_post_at username = do
    meta ← get_meta_or get_last_post_failed username
    pure meta.last_post_at

  unfoldable pub update_last_post_at : ℤ → String → BankMethod Unit
  update_last_post_at time username = do
    meta ← get_meta_or update_last_post_failed username
    set_meta username (record meta { last_post_at = time })

  abbrev pub get_frozen_money_list : String → BankMethod (List FrozenMoney)
  get_frozen_money_list username = do
    bank ← require get_frozen_money_failed (λ s. s.banks username)
    pure bank.frozen_money_list

  unfoldable pub increase_sequence_by_one : String → BankMethod Unit
  increase_sequence_by_one username = do
    meta ← get_meta_or increase_sequence_failed username
    set_meta username (record meta { sequence = add64 meta.sequence (pos 1) })

  unfoldable pub add_direct_deposit : String → Coin → BankMethod Unit
  add_direct_deposit username direct_deposit = do
    reward ← get_reward username
    set_reward username (record reward {
      total_income = plus reward.total_income direct_deposit;
      original_income = plus reward.original_income direct_deposit;
    })

  -- A number of rewards is never negative.
  unfoldable pub add_reward_history : String → ℤ → RewardDetail → BankMethod Unit
  add_reward_history username num_of_reward detail s =
      let key : String × ℤ = (username, div_pos num_of_reward reward_history_bundle_size) in
      let old = get_or key [] s.reward_histories in
      (ok tt, record s { reward_histories = insert key (old ++ detail ∷ []) s.reward_histories })

  abbrev pub with_income : Coin → Coin → Reward → Reward
  with_income friction actual_reward reward = record {
    total_income = plus reward.total_income actual_reward;
    original_income = plus reward.original_income friction;
    friction_income = plus reward.friction_income friction;
    inflation_income = plus reward.inflation_income actual_reward;
    unclaim_reward = plus reward.unclaim_reward actual_reward;
  }

  -- `detail` holds the arguments of the call.
  unfoldable pub add_income_and_reward : String → RewardDetail → BankMethod Unit
  add_income_and_reward username detail = do
    reward ← get_reward username
    set_reward username (with_income detail.friction_donation detail.actual_reward reward)
    bank ← get_bank username
    add_reward_history username bank.num_of_reward detail
    set_bank username (record bank { num_of_reward = add64 bank.num_of_reward (pos 1) })

  -- Deletes `rounds` bundles from number `i`.
  unfoldable pub delete_bundles : String → (i rounds : ℕ) → BankMethod Unit
  delete_bundles username i zero = pure tt
  delete_bundles username i (suc rounds) =
      (λ s. (ok tt, record s { reward_histories = erase (username, pos i) s.reward_histories }))
      >> delete_bundles username (i + 1) rounds

  unfoldable pub clear_reward_history : String → BankMethod Unit
  clear_reward_history username = do
    bank ← get_bank username
    delete_bundles username 0
        (suc (pos_part (div_pos bank.num_of_reward reward_history_bundle_size)))
    set_bank username (record bank { num_of_reward = pos 0 })

  unfoldable pub claim_reward : ℤ → String → BankMethod Unit
  claim_reward time username = do
    reward ← get_reward username
    add_saving_coin time username reward.unclaim_reward "" "" claim_reward_in
    set_reward username (record reward { unclaim_reward = zero_coin })
    clear_reward_history username

  abbrev pub is_my_follower : String → String → BankStore → Bool
  is_my_follower me follower s = has (me, follower) s.followers

  abbrev pub is_my_following : String → String → BankStore → Bool
  is_my_following me following s = has (me, following) s.followings

  unfoldable pub set_follower : ℤ → String → String → BankMethod Unit
  set_follower time me follower s =
      if is_my_follower me follower s
      then (ok tt, s)
      else (ok tt, record s { followers = insert (me, follower) time s.followers })

  unfoldable pub set_following : ℤ → String → String → BankMethod Unit
  set_following time me following s =
      if is_my_following me following s
      then (ok tt, s)
      else (ok tt, record s { followings = insert (me, following) time s.followings })

  unfoldable pub remove_follower : String → String → BankMethod Unit
  remove_follower me follower s =
      if not (is_my_follower me follower s)
      then (ok tt, s)
      else (ok tt, record s { followers = erase (me, follower) s.followers })

  unfoldable pub remove_following : String → String → BankMethod Unit
  remove_following me following s =
      if not (is_my_following me following s)
      then (ok tt, s)
      else (ok tt, record s { followings = erase (me, following) s.followings })

  unfoldable pub update_donation_relationship : String → String → BankMethod Unit
  update_donation_relationship me other s =
      let times = get_or (me, other) (pos 0) s.donation_times in
      (
        ok tt,
        record s { donation_times = insert (me, other) (add64 times (pos 1)) s.donation_times },
      )

  abbrev pub get_donation_relationship : String → String → BankMethod ℤ
  get_donation_relationship me other = gets (λ s. get_or (me, other) (pos 0) s.donation_times)
