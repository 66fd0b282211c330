-- ===== src/Reputation/Score/Rounds.antt =====
-- The end of a round.
use lino.Prelude.{
  String, ◌≡◌, ◌≢◌, arith, true, false, List, [], ◌∷◌, Bool-cases, inl, inr, subst, refl, sym, ◌∙◌,
  ap, ◌⊎◌, if◌then◌else◌, ◌++◌, ◌&&◌,
}
use lino.Prelude.Int.{ℤ, pos, negsuc, ◌+ℤ◌, ◌≤ℤ◌, eq_ℤ_iff, ◌*ℤ◌, div_pos, ltb_ℤ, leb_ℤ}
use lino.Prelude.Int64.{add64, wrap64, sub64}
use lino.Prelude.Table.{get_or-insert_self, get_or-insert, string_key, pair_key, int_key}
use lino.Reputation.Store.{
  get_current_round, get_round_sum_dp, get_round_post_sum_dp, get_sum_rep, get_round_result,
  get_round_start_at, get_round_top_n_posts, start_new_round, set_round_result, get_round_meta,
}
use lino.Reputation.Records.{RepStore, RoundMeta, new_round}
use lino.Reputation.Store.TopPosts.{PostDpPair}
use lino.Reputation.Score.{best_contents, update, more_than, round_duration}

next_round_ne : (r : ℤ) → add64 r (pos 1) ≢ r
unfolding wrap64 ◌+ℤ◌
next_round_ne (pos n) = ground arith
next_round_ne (negsuc n) = ground arith

-- The posts of `counted` that have donation power in the round and a positive sum of reputation.
pub good_posts : ℤ → RepStore → List PostDpPair → List String
good_posts r s [] = []
good_posts r s (c ∷ counted) =
    let rest = good_posts r s counted in
    if ltb_ℤ (pos 0) (get_round_post_sum_dp r c.pid s) && ltb_ℤ (pos 0) (get_sum_rep c.pid s)
    then c.pid ∷ rest
    else rest

-- From the power `covered` on, the posts `counted` are added up, until the first post with a power
-- above zero with which the sum reaches `bound`, or to the end; `rest` are the posts behind it.
pub data Counts (r bound : ℤ) (s : RepStore) : ℤ → List PostDpPair → List PostDpPair → Type 0 where
  all_posts : (covered : ℤ) → Counts r bound s covered [] []
  no_power :
      (covered : ℤ) (c : PostDpPair) (counted rest : List PostDpPair)
      → get_round_post_sum_dp r c.pid s ≤ℤ pos 0
      → Counts r bound s (covered +ℤ get_round_post_sum_dp r c.pid s) counted rest
      → Counts r bound s covered (c ∷ counted) rest
  below_bound :
      (covered : ℤ) (c : PostDpPair) (counted rest : List PostDpPair)
      → pos 1 ≤ℤ get_round_post_sum_dp r c.pid s
      → ltb_ℤ (covered +ℤ get_round_post_sum_dp r c.pid s) bound ≡ true
      → Counts r bound s (covered +ℤ get_round_post_sum_dp r c.pid s) counted rest
      → Counts r bound s covered (c ∷ counted) rest
  bound_reached :
      (covered : ℤ) (c : PostDpPair) (rest : List PostDpPair)
      → pos 1 ≤ℤ get_round_post_sum_dp r c.pid s
      → bound ≤ℤ covered +ℤ get_round_post_sum_dp r c.pid s
      → Counts r bound s covered (c ∷ []) rest

-- The top posts are counted until the bound, and the result holds the good ones among these.
abbrev pub IsBest :
    (r bound : ℤ) (s : RepStore) (covered : ℤ) → List PostDpPair → List String → Type 0
IsBest r bound s covered top result =
    (counted rest : List PostDpPair) × (top ≡ counted ++ rest)
    × Counts r bound s covered counted rest
    × (result ≡ good_posts r s counted)

best_contents-IsBest :
    (r bound : ℤ) (s : RepStore) (top : List PostDpPair) (covered : ℤ)
    → IsBest r bound s covered top (best_contents r bound s top covered)
unfolding best_contents good_posts
best_contents-IsBest r bound s [] covered = ([], [], refl, all_posts covered, refl)
best_contents-IsBest r bound s (c ∷ top) covered =
    let dp = get_round_post_sum_dp r c.pid s in
    let (counted, rest, split, counts, same) = best_contents-IsBest r bound s top (covered +ℤ dp) in
    let longer = ap (λ cs. c ∷ cs) split in
    elim (Bool-cases (leb_ℤ dp (pos 0))) [
      | inl none ↦ (
        c ∷ counted,
        rest,
        longer,
        no_power covered c counted rest (ground arith) counts,
        ground (arith, same),
      )
      | inr some_power ↦ elim (Bool-cases (leb_ℤ bound (covered +ℤ dp))) [
        | inl reached ↦ (
          c ∷ [],
          top,
          refl,
          bound_reached covered c top (ground arith) (ground arith),
          ground arith,
        )
        | inr below ↦ (
          c ∷ counted,
          rest,
          longer,
          below_bound covered c counted rest (ground arith) (ground arith) counts,
          ground (arith, same),
        )
      ]
    ]

-- The same round's result is still there after the next round has begun.
result-start_new_round :
    (t : ℤ) (s : RepStore)
    → let r = get_current_round s in get_round_result r (start_new_round t s) ≡ get_round_result r s
unfolding start_new_round
result-start_new_round t s = grind (
  arith,
  get_or-insert,
  next_round_ne (get_current_round s),
  eq_ℤ_iff (add64 (get_current_round s) (pos 1)) (get_current_round s),
)

begun_round :
    (t : ℤ) (s : RepStore)
    → let s' = start_new_round t s in
      let r = get_current_round s' in
      (r ≡ add64 (get_current_round s) (pos 1))
      × (get_round_start_at r s' ≡ t)
      × (get_round_top_n_posts r s' ≡ [])
      × (get_round_sum_dp r s' ≡ pos 0)
unfolding start_new_round
begun_round t s = (
  refl,
  grind (arith, get_or-insert_self),
  grind (arith, get_or-insert_self),
  grind (arith, get_or-insert_self),
)

round_seconds : (t start : ℤ) → more_than t start round_duration ≡ leb_ℤ (pos 90000) (sub64 t start)
unfolding wrap64 lino.Prelude.Int.◌-ℤ◌ ◌*ℤ◌
round_seconds t start = refl

-- As long as the time is less than 90000 seconds, 25 hours, after the round's start, `update` changes
-- nothing. From then on it begins the next round at the given time, with no posts and no donation
-- power. The result of the round that ended: its top posts are counted in order, until with a post that
-- has donation power the sum of their powers reaches eight tenths of the round's, rounded down, or to
-- the end, and of those counted it holds, in order, the posts that have donation power in the round
-- and a positive sum of reputation.
pub update_rounds :
    (t : ℤ) (s : RepStore)
    → let r = get_current_round s in
      let s' = update t s in
      ((leb_ℤ (pos 90000) (sub64 t (get_round_start_at r s)) ≡ false) × (s' ≡ s))
      ⊎ ((leb_ℤ (pos 90000) (sub64 t (get_round_start_at r s)) ≡ true)
          × (get_current_round s' ≡ add64 r (pos 1))
          × (get_round_start_at (get_current_round s') s' ≡ t)
          × (get_round_top_n_posts (get_current_round s') s' ≡ [])
          × (get_round_sum_dp (get_current_round s') s' ≡ pos 0)
          × IsBest r
              (div_pos (get_round_sum_dp r s *ℤ pos 8) 10)
              s
              (pos 0)
              (get_round_top_n_posts r s)
              (get_round_result r s'))
unfolding update
update_rounds t s =
    let r = get_current_round s in
    let bound = div_pos (get_round_sum_dp r s *ℤ pos 8) 10 in
    let top = get_round_top_n_posts r s in
    let result = best_contents r bound s top (pos 0) in
    let s₁ = set_round_result r result s in
    let begun = begun_round t s₁ in
    let hours = round_seconds t (get_round_start_at r s) in
    elim (Bool-cases (more_than t (get_round_start_at r s) round_duration)) [
      | inr early ↦ inl (sym hours ∙ early, rw early refl)
      | inl due ↦ inr (
        sym hours ∙ due,
        rw due begun.0,
        rw due begun.1,
        rw due begun.2,
        rw due begun.3,
        rw due (
            subst (IsBest r bound s (pos 0) top)
              (sym (
                result-start_new_round t s₁
                ∙ ap (λ (m : RoundMeta). m.result)
                    (get_or-insert_self r new_round
                      (record (get_round_meta r s) { result = result }) s.round_metas)))
              (best_contents-IsBest r bound s top (pos 0))),
      )
    ]
