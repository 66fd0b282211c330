-- ===== src/Reputation/Keys/Price.antt =====
-- The number of keys that a stake buys is the largest that it pays for.
use lino.Prelude.{
  ℕ, zero, suc, ◌+◌, ◌/◌, ◌*◌, ◌^◌, ◌<◌, ◌≤◌, ◌≡◌, ◌⊎◌, inl, inr, List, [], ◌∷◌, arith, ltb,
  if◌then◌else◌, Bool-cases, refl, subst,
}
use native.Mathlib.Numerals.{add-one}
use native.Mathlib.Nat.{pow-suc, pow-zero}
use lino.Prelude.Int.{pos, ◌+ℤ◌, ◌*ℤ◌, ltb_ℤ, leb_ℤ}
use lino.Reputation.Keys.{
  eval_keys, narrow, bisect, num_keys_can_buy, max_num_keys_each_time, common_values, bisect_fuel,
  key_price_c,
}

-- What `m` keys cost: the i-th key of a post costs the current price plus i.
abbrev pub total_price : ℕ → ℕ → ℕ
total_price c zero = 0
total_price c (suc m) = total_price c m + (c + m)

total_price_closed : (c m : ℕ) → 2 * total_price c (suc m) ≡ suc m * (2 * c + m)
total_price_closed c zero = grind arith
total_price_closed c (suc m) = grind (arith, total_price_closed c m)

eval_keys_lem : (d n : ℕ) → eval_keys (pos d) n ≡ pos (suc n * (d + n))
unfolding eval_keys ◌+ℤ◌ ◌*ℤ◌
eval_keys_lem d n = grind arith

module _ (d s : ℕ) where
  -- What the search keeps: `beg` is affordable, `end` is not or is the cap.
  abbrev Affords : ℕ → Type 0
  Affords n = suc n * (d + n) ≤ s

  abbrev Exceeds : ℕ → Type 0
  Exceeds n = (s < suc n * (d + n)) ⊎ (n ≡ max_num_keys_each_time + 1)

  bisect_half :
      (fuel beg end : ℕ)
      → beg + 1 < end
      → end ≤ beg + 2 ^ suc fuel
      → ((beg end : ℕ)
          → beg < end
          → end ≤ beg + 2 ^ fuel
          → Affords beg
          → Exceeds end
          → let r = bisect fuel (pos d) (pos s) beg end in Affords r × Exceeds (suc r))
      → Affords beg
      → Exceeds end
      → let mid = (beg + end) / 2 in
        let r =
          if leb_ℤ (eval_keys (pos d) mid) (pos s)
          then bisect fuel (pos d) (pos s) mid end
          else bisect fuel (pos d) (pos s) beg mid in
        Affords r × Exceeds (suc r)
  bisect_half fuel beg end lt gap ih p q =
      let mid = (beg + end) / 2 in
      let lo : beg < mid = omega arith in
      let hi : mid < end = omega arith in
      let up : end ≤ mid + 2 ^ fuel = omega (arith, pow-suc 2 fuel) in
      let down : mid ≤ beg + 2 ^ fuel = omega (arith, pow-suc 2 fuel) in
      elim (Bool-cases (leb_ℤ (eval_keys (pos d) mid) (pos s))) [
        | inl affordable ↦
            rw affordable (ih mid end hi up (ground (arith, eval_keys_lem d mid, affordable)) q)
        | inr too_much ↦
            rw too_much (ih beg mid lo down p (inl (ground (arith, eval_keys_lem d mid, too_much))))
      ]

  bisect_lem :
      (fuel beg end : ℕ)
      → beg < end
      → end ≤ beg + 2 ^ fuel
      → Affords beg
      → Exceeds end
      → let r = bisect fuel (pos d) (pos s) beg end in Affords r × Exceeds (suc r)
  unfolding bisect
  bisect_lem zero beg end lt gap p q = (p, subst Exceeds (omega (arith, pow-zero 2)) q)
  bisect_lem (suc fuel) beg end lt gap p q = elim (Bool-cases (ltb (beg + 1) end)) [
    | inl more ↦ rw more (bisect_half fuel beg end (ground arith) gap (bisect_lem fuel) p q)
    | inr done ↦ rw done (p, subst Exceeds (ground arith) q)
  ]

  -- The common values are in order between the two bounds.
  abbrev Ascending : ℕ → List ℕ → ℕ → Type 0
  Ascending beg [] end = beg < end
  Ascending beg (v ∷ vs) end = (beg < v) × (v ≤ end) × Ascending v vs end

  narrow_lem :
      (vs : List ℕ) (beg end : ℕ)
      → Ascending beg vs end
      → Affords beg
      → Exceeds end
      → let b = narrow (pos d) (pos s) vs (beg, end) in
        (b.0 < b.1) × (b.1 ≤ end) × Affords b.0 × Exceeds b.1
  unfolding narrow
  narrow_lem [] beg end asc p q = (asc, omega arith, p, q)
  narrow_lem (v ∷ vs) beg end asc p q = elim (Bool-cases (ltb_ℤ (pos s) (eval_keys (pos d) v))) [
    | inl too_much ↦
        rw too_much (asc.0, asc.1, p, inl (ground (arith, eval_keys_lem d v, too_much)))
    | inr affordable ↦
        rw affordable (narrow_lem vs v end asc.2 (ground (arith, eval_keys_lem d v, affordable)) q)
  ]

double_pos : (n : ℕ) → pos 2 *ℤ pos n ≡ pos (2 * n)
unfolding ◌*ℤ◌
double_pos n = ground arith

price_pos : (k : ℕ) → key_price_c +ℤ pos k ≡ pos (1000 + k)
unfolding ◌+ℤ◌
price_pos k = ground arith

abbrev searched : ℕ → ℕ → ℕ
searched d s =
    let b = narrow (pos d) (pos s) common_values (0, max_num_keys_each_time + 1) in
    bisect bisect_fuel (pos d) (pos s) b.0 b.1

search_lem :
    (d s : ℕ)
    → d ≤ s
    → let b = narrow (pos d) (pos s) common_values (0, max_num_keys_each_time + 1) in
      let r = bisect bisect_fuel (pos d) (pos s) b.0 b.1 in Affords d s r × Exceeds d s (suc r)
search_lem d s h =
    let b = narrow (pos d) (pos s) common_values (0, max_num_keys_each_time + 1) in
    let n =
      narrow_lem d s common_values 0 (max_num_keys_each_time + 1) (omega arith) (omega arith)
        (inr refl) in
    bisect_lem d s bisect_fuel b.0 b.1 n.0 (omega (arith, n.1)) n.2 n.3

-- The search's bounds, in terms of prices.
price_of_bounds :
    (c s r : ℕ)
    → Affords (2 * c) (2 * s) r
    → Exceeds (2 * c) (2 * s) (suc r)
    → (total_price c (suc r) ≤ s)
      × ((s < total_price c (suc (suc r))) ⊎ (suc r ≡ max_num_keys_each_time + 1))
price_of_bounds c s r p (inl q) =
    (omega (arith, total_price_closed c r), inl (omega (arith, total_price_closed c (suc r))))
price_of_bounds c s r p (inr q) = (omega (arith, total_price_closed c r), inr q)

-- A stake below the current price buys no key. Any other stake pays for the keys that it buys, at
-- least one, and either does not pay for one more or buys 10000000001 keys, the most there are at a
-- time.
pub num_keys_can_buy_optimal :
    (sold stake : ℕ)
    → (n : ℕ) × (num_keys_can_buy (pos sold) (pos stake) ≡ pos n)
      × (total_price (1000 + sold) n ≤ stake)
      × ((stake < total_price (1000 + sold) (suc n)) ⊎ (n ≡ max_num_keys_each_time + 1))
unfolding num_keys_can_buy
num_keys_can_buy_optimal sold stake =
    rw (price_pos, double_pos, double_pos)
      (elim (Bool-cases (ltb (stake + 0) (1000 + sold + 0))) [
        | inl short ↦ (0, rw short refl, omega arith, inl (ground arith))
        | inr pays ↦
            let r = searched (2 * (1000 + sold)) (2 * stake) in
            let found = search_lem (2 * (1000 + sold)) (2 * stake) (ground arith) in
            let prices = price_of_bounds (1000 + sold) stake r found.0 found.1 in
            (suc r, rw (pays, add-one), prices.0, prices.1)
      ])
