-- ===== src/Reputation/Store/Sorted.antt =====
-- The top posts of a round after a write of a post's donation power.
use lino.Prelude.{
  ◌≤◌, String, List, ◌++◌, ◌≡◌, arith, [], Bool-cases, ℕ, ◌∷◌, ◌⊎◌, inl, ◌≢◌, inr, suc, ap, zero,
  refl, str_eq, false, true, eq_iff, subst, sym,
}
use lino.Prelude.Int.{ℤ}
use lino.Prelude.Lists.{length, take, drop, All}
use lino.Prelude.Table.{get_or-insert_self, int_key}
use lino.Reputation.Store.{get_round_top_n_posts, set_round_post_sum_dp}
use lino.Reputation.Records.{RepStore}
use lino.Reputation.Store.TopPosts.{
  PostDpPair, put_top, sort_top, IsSorted, Outweighs, sort_top-IsSorted, sort_top-perm,
  take-append-drop, take-IsSorted, update_top, in_top,
}
use mathlib.Core.List.{Perm}

top-set_round_post_sum_dp :
    (r : ℤ) (p : String) (dp : ℤ) (s : RepStore)
    → get_round_top_n_posts r (set_round_post_sum_dp r p dp s)
      ≡ take s.best_content_index_n (sort_top (put_top p dp (get_round_top_n_posts r s)))
unfolding set_round_post_sum_dp
top-set_round_post_sum_dp r p dp s = grind (arith, get_or-insert_self)

-- Every entry of the post gets the power, and no other entry changes.
pub data Updates (p : String) (dp : ℤ) : List PostDpPair → List PostDpPair → Type 0 where
  no_entries : Updates p dp [] []
  unchanged :
      (c : PostDpPair) (old new : List PostDpPair)
      → c.pid ≢ p
      → Updates p dp old new
      → Updates p dp (c ∷ old) (c ∷ new)
  written :
      (c : PostDpPair) (old new : List PostDpPair)
      → c.pid ≡ p
      → Updates p dp old new
      → Updates p dp (c ∷ old) (record { pid = p; sum_dp = dp } ∷ new)

-- If the post has an entry, its entries get the power; if it has none, it gets one at the end.
abbrev pub Writes : String → ℤ → List PostDpPair → List PostDpPair → Type 0
Writes p dp old new =
    ((front : List PostDpPair) × (c : PostDpPair) × (back : List PostDpPair) × (old
        ≡ front ++ c ∷ back)
      × (c.pid ≡ p)
      × Updates p dp old new)
    ⊎ (All (λ c. c.pid ≢ p) old × (new ≡ old ++ record { pid = p; sum_dp = dp } ∷ []))

update_top-Updates :
    (p : String) (dp : ℤ) (top : List PostDpPair) → Updates p dp top (update_top p dp top)
unfolding update_top
update_top-Updates p dp [] = no_entries
update_top-Updates p dp (c ∷ top) = elim (Bool-cases (str_eq c.pid p)) [
  | inl same ↦
      let at : c.pid ≡ p = ground (arith, eq_iff c.pid p) in
      let here : record c { sum_dp = dp } ≡ record { pid = p; sum_dp = dp } =
        ap {B = PostDpPair} (λ q. record { pid = q; sum_dp = dp }) at in
      rw same (
        subst (λ d. Updates p dp (c ∷ top) (d ∷ update_top p dp top)) (sym here)
          (written c top (update_top p dp top) at (update_top-Updates p dp top)))
  | inr other ↦ rw other (
      unchanged c top (update_top p dp top) (λ e. absurd (ground (arith, eq_iff c.pid p)))
        (update_top-Updates p dp top))
]

update_top-absent :
    (p : String) (dp : ℤ) (top : List PostDpPair)
    → in_top p top ≡ false
    → All (λ c. c.pid ≢ p) top × (update_top p dp top ≡ top)
unfolding update_top in_top
update_top-absent p dp [] h = (tt, refl)
update_top-absent p dp (c ∷ top) h =
    let other : str_eq c.pid p ≡ false = ground arith in
    let (absent, same) = update_top-absent p dp top (ground arith) in
    ((λ e. absurd (ground (arith, eq_iff c.pid p)), absent), rw other (ap (λ cs. c ∷ cs) same))

in_top-split :
    (p : String) (top : List PostDpPair)
    → in_top p top ≡ true
    → (front : List PostDpPair) × (c : PostDpPair) × (back : List PostDpPair) × (top
        ≡ front ++ c ∷ back)
      × (c.pid ≡ p)
unfolding in_top
in_top-split p [] h = absurd (ground arith)
in_top-split p (c ∷ top) h = elim (Bool-cases (str_eq c.pid p)) [
  | inl same ↦ ([], c, top, refl, ground (arith, eq_iff c.pid p))
  | inr other ↦
      let (front, d, back, split, at) = in_top-split p top (ground arith) in
      (c ∷ front, d, back, ap (λ cs. c ∷ cs) split, at)
]

put_top-Writes : (p : String) (dp : ℤ) (top : List PostDpPair) → Writes p dp top (put_top p dp top)
unfolding put_top
put_top-Writes p dp top = elim (Bool-cases (in_top p top)) [
  | inl there ↦
      let (front, c, back, split, at) = in_top-split p top there in
      rw there (inl (front, c, back, split, at, update_top-Updates p dp top))
  | inr missing ↦
      let (absent, same) = update_top-absent p dp top missing in
      rw (missing, same) (inr (absent, refl))
]

take-all : (n : ℕ) (top : List PostDpPair) → (length (take n top) ≡ n) ⊎ (drop n top ≡ [])
take-all zero top = inl refl
take-all (suc n) [] = inr refl
take-all (suc n) (c ∷ top) = elim (take-all n top) [
  | inl full ↦ inl (ap suc full)
  | inr nothing ↦ inr nothing
]

-- Writing a post's donation power in a round: the post's entries among the top posts get the power,
-- or, if it has none, it gets one, and no other entry changes. Of these, the round keeps as top posts,
-- in falling order of power, the configured number, or all if they are fewer; no post that it drops
-- outweighs a post that it keeps.
pub top_posts-IsSorted :
    (r : ℤ) (p : String) (dp : ℤ) (s : RepStore)
    → let kept = get_round_top_n_posts r (set_round_post_sum_dp r p dp s) in
      (new dropped : List PostDpPair) × Writes p dp (get_round_top_n_posts r s) new
      × Perm (kept ++ dropped) new
      × IsSorted kept
      × (length kept ≤ s.best_content_index_n)
      × ((length kept ≡ s.best_content_index_n) ⊎ (dropped ≡ []))
      × Outweighs kept dropped
top_posts-IsSorted r p dp s =
    let top = put_top p dp (get_round_top_n_posts r s) in
    let n = s.best_content_index_n in
    let cut = take-IsSorted n (sort_top top) (sort_top-IsSorted top) in
    (
      top,
      drop n (sort_top top),
      put_top-Writes p dp (get_round_top_n_posts r s),
      rw (top-set_round_post_sum_dp, take-append-drop) (sort_top-perm top),
      rw top-set_round_post_sum_dp cut.0,
      rw top-set_round_post_sum_dp cut.1,
      rw top-set_round_post_sum_dp (take-all n (sort_top top)),
      rw top-set_round_post_sum_dp cut.2,
    )
