-- ===== src/Reputation/Store/TopPosts.antt =====
-- x/reputation/internal/store.go: the posts of a round with the most donation power, kept in order.
use lino.Prelude.{
  ℕ, zero, suc, ◌≤◌, String, Bool, false, ◌||◌, List, [], ◌∷◌, ◌++◌, ◌≡◌, arith, if◌then◌else◌,
  str_eq, Bool-cases, inl, inr, refl,
}
use lino.Prelude.Int.{ℤ, ltb_ℤ, ◌≤ℤ◌}
use mathlib.Core.List.{Perm}
use mathlib.Core.List.Perm
use lino.Prelude.Lists.{length, take, drop, All}

pub record PostDpPair : Type 0 where
  pub pid : String
  pub sum_dp : ℤ

-- The loop that writes `dp` to every candidate that is `p`.
unfoldable pub update_top : String → ℤ → List PostDpPair → List PostDpPair
update_top p dp [] = []
update_top p dp (c ∷ top) =
    (if str_eq c.pid p then record c { sum_dp = dp } else c) ∷ update_top p dp top

-- `alreadyInTop`
unfoldable pub in_top : String → List PostDpPair → Bool
in_top p [] = false
in_top p (c ∷ top) = str_eq c.pid p || in_top p top

unfoldable pub put_top : String → ℤ → List PostDpPair → List PostDpPair
unfolding update_top in_top
put_top p dp top =
    if in_top p top
    then update_top p dp top
    else update_top p dp top ++ (record { pid = p; sum_dp = dp } ∷ [])

-- `sort.SliceStable` by falling `SumDp`, as an insertion sort: an equal post that
-- stood behind stays behind.
pub insert_top : PostDpPair → List PostDpPair → List PostDpPair
insert_top c [] = c ∷ []
insert_top c (d ∷ top) = if ltb_ℤ c.sum_dp d.sum_dp then d ∷ insert_top c top else c ∷ (d ∷ top)

unfoldable pub sort_top : List PostDpPair → List PostDpPair
unfolding insert_top
sort_top [] = []
sort_top (c ∷ top) = insert_top c (sort_top top)

-- `topN[:n]` if `len(topN) > n`
abbrev pub cut_top : ℕ → List PostDpPair → List PostDpPair
cut_top n top = take n top

-- Every post of a list has at most the power `dp`.
abbrev pub AtMost : ℤ → List PostDpPair → Type 0
AtMost dp top = All (λ c. c.sum_dp ≤ℤ dp) top

-- Falling donation power.
abbrev pub IsSorted : List PostDpPair → Type 0
IsSorted [] = Unit
IsSorted (c ∷ top) = AtMost c.sum_dp top × IsSorted top

AtMost-trans : (a b : ℤ) (top : List PostDpPair) → a ≤ℤ b → AtMost a top → AtMost b top
AtMost-trans a b [] h k = tt
AtMost-trans a b (c ∷ top) h k = (omega (arith, k.0), AtMost-trans a b top h k.1)

AtMost-insert_top :
    (dp : ℤ) (c : PostDpPair) (top : List PostDpPair)
    → c.sum_dp ≤ℤ dp
    → AtMost dp top
    → AtMost dp (insert_top c top)
unfolding insert_top
AtMost-insert_top dp c [] h k = (h, tt)
AtMost-insert_top dp c (d ∷ top) h k = elim (Bool-cases (ltb_ℤ c.sum_dp d.sum_dp)) [
  | inl below ↦ rw below (k.0, AtMost-insert_top dp c top h k.1)
  | inr above ↦ rw above (h, (k.0, k.1))
]

insert_top-IsSorted :
    (c : PostDpPair) (top : List PostDpPair) → IsSorted top → IsSorted (insert_top c top)
unfolding insert_top
insert_top-IsSorted c [] h = (tt, tt)
insert_top-IsSorted c (d ∷ top) h = elim (Bool-cases (ltb_ℤ c.sum_dp d.sum_dp)) [
  | inl below ↦
      rw below (AtMost-insert_top d.sum_dp c top (ground arith) h.0, insert_top-IsSorted c top h.1)
  | inr above ↦
      rw above ((ground arith, AtMost-trans d.sum_dp c.sum_dp top (ground arith) h.0), (h.0, h.1))
]

pub sort_top-IsSorted : (top : List PostDpPair) → IsSorted (sort_top top)
unfolding sort_top
sort_top-IsSorted [] = tt
sort_top-IsSorted (c ∷ top) = insert_top-IsSorted c (sort_top top) (sort_top-IsSorted top)

insert_top-perm : (c : PostDpPair) (top : List PostDpPair) → Perm (insert_top c top) (c ∷ top)
unfolding insert_top
insert_top-perm c [] = Perm.refl (c ∷ [])
insert_top-perm c (d ∷ top) = elim (Bool-cases (ltb_ℤ c.sum_dp d.sum_dp)) [
  | inl below ↦ rw below (Perm.trans (Perm.cons d (insert_top-perm c top)) (Perm.swap c d top))
  | inr above ↦ rw above (Perm.refl (c ∷ d ∷ top))
]

pub sort_top-perm : (top : List PostDpPair) → Perm (sort_top top) top
unfolding sort_top
sort_top-perm [] = Perm.refl []
sort_top-perm (c ∷ top) =
    Perm.trans (insert_top-perm c (sort_top top)) (Perm.cons c (sort_top-perm top))

pub take-append-drop : (n : ℕ) (top : List PostDpPair) → take n top ++ drop n top ≡ top
take-append-drop zero top = refl
take-append-drop (suc n) [] = refl
take-append-drop (suc n) (c ∷ top) = rw (take-append-drop n top)

-- What a cut keeps is in order, is no more than the cut, and outweighs what it drops.
pub take-AtMost : (dp : ℤ) (n : ℕ) (top : List PostDpPair) → AtMost dp top → AtMost dp (take n top)
take-AtMost dp zero top h = tt
take-AtMost dp (suc n) [] h = tt
take-AtMost dp (suc n) (c ∷ top) h = (h.0, take-AtMost dp n top h.1)

pub drop-AtMost : (dp : ℤ) (n : ℕ) (top : List PostDpPair) → AtMost dp top → AtMost dp (drop n top)
drop-AtMost dp zero top h = h
drop-AtMost dp (suc n) [] h = tt
drop-AtMost dp (suc n) (c ∷ top) h = drop-AtMost dp n top h.1

abbrev pub Outweighs : List PostDpPair → List PostDpPair → Type 0
Outweighs kept dropped = All (λ c. AtMost c.sum_dp dropped) kept

pub take-IsSorted :
    (n : ℕ) (top : List PostDpPair)
    → IsSorted top
    → IsSorted (take n top) × (length (take n top) ≤ n) × Outweighs (take n top) (drop n top)
take-IsSorted zero top h = (tt, omega arith, tt)
take-IsSorted (suc n) [] h = (tt, omega arith, tt)
take-IsSorted (suc n) (c ∷ top) h =
    let rest = take-IsSorted n top h.1 in
    (
      (take-AtMost c.sum_dp n top h.0, rest.0),
      omega (arith, rest.1),
      (drop-AtMost c.sum_dp n top h.0, rest.2),
    )
