-- ===== src/Reputation/Score/Donate.antt =====
-- What a donation writes: the power that it uses, and the sums of the round.
use lino.Prelude.{String, some, ◌≡◌, ◌≢◌, arith, refl, eq_iff, Bool-cases, inl, inr, subst, ap}
use lino.Prelude.Int.{ℤ, pos, ◌+ℤ◌, ◌≤ℤ◌, int_laws}
use lino.Prelude.Table.{get_or, get_or-insert_self, string_key, pair_key, int_key}
use lino.Reputation.Store.{
  get_user_donated_on, get_current_round, get_round_sum_dp, get_round_post_sum_dp,
  get_round_post_sum_stake, set_round_post_sum_dp,
}
use lino.Reputation.Records.{RepStore, new_user_post}
use lino.Reputation.Score.{
  donate_at, get_reputation, get_settled_customer_score, is_unsettled, record_donation,
  donation_power, big_int_max,
}

-- For a stake that is not negative, the power is between zero and the stake, and the power used on
-- the post stays within the reputation, or does not grow.
pub donation_power_bounds :
    (u_rep used_dp stake : ℤ)
    → pos 0 ≤ℤ stake
    → let dp = donation_power u_rep used_dp stake in
      (pos 0 ≤ℤ dp) × (dp ≤ℤ stake) × (dp +ℤ used_dp ≤ℤ big_int_max u_rep used_dp)
donation_power_bounds u_rep used_dp stake h = grind int_laws

power_lem :
    (u p : String) (stake u_rep : ℤ) (s : RepStore)
    → (record_donation u p stake u_rep s).0 ≡ donation_power u_rep (get_user_donated_on u p s) stake
unfolding record_donation
power_lem u p stake u_rep s = refl

module _ (u p : String) (stake u_rep : ℤ) (s : RepStore) where
  donated_on :
      get_user_donated_on u p (record_donation u p stake u_rep s).1
      ≡ (record_donation u p stake u_rep s).0 +ℤ get_user_donated_on u p s
  unfolding record_donation set_round_post_sum_dp
  donated_on = grind (arith, get_or-insert_self)

  round_sum :
      let r = get_current_round s in
      get_round_sum_dp r (record_donation u p stake u_rep s).1
      ≡ get_round_sum_dp r s +ℤ (record_donation u p stake u_rep s).0
  unfolding record_donation set_round_post_sum_dp
  round_sum = grind (arith, get_or-insert_self)

  post_sum :
      let r = get_current_round s in
      get_round_post_sum_dp r p (record_donation u p stake u_rep s).1
      ≡ get_round_post_sum_dp r p s +ℤ (record_donation u p stake u_rep s).0
  unfolding record_donation set_round_post_sum_dp
  post_sum = grind (arith, get_or-insert_self)

  stake_sum :
      let r = get_current_round s in
      get_round_post_sum_stake r p (record_donation u p stake u_rep s).1
      ≡ get_round_post_sum_stake r p s +ℤ stake
  unfolding record_donation set_round_post_sum_dp
  stake_sum = grind (arith, get_or-insert_self)

-- Settling a user's score leaves the posts and the rounds alone.
get_reputation_keeps :
    (u : String) (s : RepStore)
    → let s' = (get_reputation u s).1 in
      (s'.post_metas ≡ s.post_metas)
      × (s'.user_post_metas ≡ s.user_post_metas)
      × (s'.round_metas ≡ s.round_metas)
      × (s'.round_post_metas ≡ s.round_post_metas)
      × (s'.game_meta ≡ s.game_meta)
unfolding get_reputation get_settled_customer_score
get_reputation_keeps u s = elim (Bool-cases (is_unsettled u s)) [
  | inl stale ↦ rw stale (refl, refl, refl, refl, refl)
  | inr done ↦ rw done (refl, refl, refl, refl, refl)
]

-- A donation of a stake that is not negative, by a named user to a named post, always succeeds. The
-- donation power that it returns is between zero and the stake; what the user has used on the post
-- grows by it, and does not pass the user's reputation unless it already had. The round's sum and
-- the post's sum in the round grow by the power, the post's stake in the round by the stake.
pub donate_at_accounts :
    (u p : String) (stake : ℤ) (s : RepStore)
    → u ≢ ""
    → p ≢ ""
    → pos 0 ≤ℤ stake
    → (dp : ℤ) × (s' : RepStore) × (donate_at u p stake s ≡ some (dp, s'))
      × (pos 0 ≤ℤ dp)
      × (dp ≤ℤ stake)
      × (get_user_donated_on u p s' ≡ dp +ℤ get_user_donated_on u p s)
      × (get_user_donated_on u p s'
          ≤ℤ big_int_max (get_reputation u s).0 (get_user_donated_on u p s))
      × (get_round_sum_dp (get_current_round s) s' ≡ get_round_sum_dp (get_current_round s) s +ℤ dp)
      × (get_round_post_sum_dp (get_current_round s) p s'
          ≡ get_round_post_sum_dp (get_current_round s) p s +ℤ dp)
      × (get_round_post_sum_stake (get_current_round s) p s'
          ≡ get_round_post_sum_stake (get_current_round s) p s +ℤ stake)
unfolding donate_at
donate_at_accounts u p stake s hu hp h =
    let s₁ = (get_reputation u s).1 in
    let rep = (get_reputation u s).0 in
    let keeps = get_reputation_keeps u s in
    let bounds = donation_power_bounds rep (get_user_donated_on u p s₁) stake h in
    let power = power_lem u p stake rep s₁ in
    let used = donated_on u p stake rep s₁ in
    (
      (record_donation u p stake rep s₁).0,
      (record_donation u p stake rep s₁).1,
      ground (arith, eq_iff u "", eq_iff p ""),
      rw power bounds.0,
      rw power bounds.1,
      cc (used, keeps.1),
      subst (λ d. get_user_donated_on u p (record_donation u p stake rep s₁).1 ≤ℤ big_int_max rep d)
          (ap (λ t. (get_or (u, p) new_user_post t).donated) keeps.1) (rw used (rw power bounds.2)),
      cc (round_sum u p stake rep s₁, keeps.2, keeps.4),
      cc (post_sum u p stake rep s₁, keeps.3, keeps.4),
      cc (stake_sum u p stake rep s₁, keeps.3, keeps.4),
    )
