-- ===== src/Types/Coin.antt =====
-- types/coin.go: amounts of the smallest unit, and what each operation does to their worth.
use lino.Prelude.{◌≡◌, Bool, ◌||◌, arith, String, Option, none, some, if◌then◌else◌}
use lino.Prelude.Int.{ℤ, pos, ◌+ℤ◌, ◌-ℤ◌, ltb_ℤ, leb_ℤ, eq_ℤ}
use lino.Sdk.{Sdk}

module _ ⦃sdk : Sdk⦄ where
  open sdk use {
    Int, value, new_int, add, sub, gt, equal, sign, value-new_int, value-add, value-sub, gt_lem,
    equal_lem, sign-zero, sign-pos, Rat, to_rat, evaluate_big, new_rat, gt_rat, lt_rat, mul_rat,
    rat_from_decimal,
  }

  pub record Coin : Type 0 where
    pub amount : Int

  -- The number that a coin's amount stands for.
  abbrev pub worth : Coin → ℤ
  worth c = value c.amount

  unfoldable pub new_coin_from_int64 : ℤ → Coin
  new_coin_from_int64 amount = record { amount = new_int amount }

  abbrev pub zero_coin : Coin
  zero_coin = new_coin_from_int64 (pos 0)

  unfoldable pub plus : Coin → Coin → Coin
  plus coin coin_b = record { amount = add coin.amount coin_b.amount }

  unfoldable pub minus : Coin → Coin → Coin
  minus coin coin_b = record { amount = sub coin.amount coin_b.amount }

  unfoldable pub is_zero : Coin → Bool
  is_zero coin = eq_ℤ (sign coin.amount) (pos 0)

  unfoldable pub is_gt : Coin → Coin → Bool
  is_gt coin other = gt coin.amount other.amount

  unfoldable pub is_gte : Coin → Coin → Bool
  is_gte coin other = gt coin.amount other.amount || equal coin.amount other.amount

  unfoldable pub is_equal : Coin → Coin → Bool
  is_equal coin other = equal coin.amount other.amount

  unfoldable pub is_positive : Coin → Bool
  is_positive coin = ltb_ℤ (pos 0) (sign coin.amount)

  unfoldable pub is_not_negative : Coin → Bool
  is_not_negative coin = leb_ℤ (pos 0) (sign coin.amount)

  unfoldable pub rat_to_coin : Rat → Coin
  rat_to_coin rat = record { amount = new_int (evaluate_big rat) }

  abbrev pub coin_to_rat : Coin → Rat
  coin_to_rat coin = to_rat coin.amount

  abbrev pub decimals : ℤ
  decimals = pos 100_000

  abbrev pub new_rat_from_decimal_precision : ℤ
  new_rat_from_decimal_precision = pos 5

  abbrev pub lower_bound_rat : Rat
  lower_bound_rat = new_rat (pos 1) decimals

  -- math.MaxInt64 / Decimals
  abbrev pub upper_bound_rat : Rat
  upper_bound_rat = new_rat (pos 92_233_720_368_547) (pos 1)

  -- An amount in units of LNO, or nothing where the source returns ErrInvalidCoins.
  unfoldable pub lino_to_coin : String → Option Coin
  lino_to_coin lino = elim (rat_from_decimal lino new_rat_from_decimal_precision) [
    | none ↦ none
    | some rat ↦
        if gt_rat rat upper_bound_rat
        then none
        else if lt_rat rat lower_bound_rat
        then none
        else some (rat_to_coin (mul_rat rat (new_rat decimals (pos 1))))
  ]

  pub worth-new_coin : (n : ℤ) → worth (new_coin_from_int64 n) ≡ n
  unfolding new_coin_from_int64
  worth-new_coin n = value-new_int n

  pub worth-plus : (c d : Coin) → worth (plus c d) ≡ worth c +ℤ worth d
  unfolding plus
  worth-plus c d = value-add c.amount d.amount

  pub worth-minus : (c d : Coin) → worth (minus c d) ≡ worth c -ℤ worth d
  unfolding minus
  worth-minus c d = value-sub c.amount d.amount

  pub is_gt_lem : (c d : Coin) → is_gt c d ≡ ltb_ℤ (worth d) (worth c)
  unfolding is_gt
  is_gt_lem c d = gt_lem c.amount d.amount

  pub is_gte_lem : (c d : Coin) → is_gte c d ≡ leb_ℤ (worth d) (worth c)
  unfolding is_gte
  is_gte_lem c d = ground (arith, gt_lem c.amount d.amount, equal_lem c.amount d.amount)

  pub is_equal_lem : (c d : Coin) → is_equal c d ≡ eq_ℤ (worth c) (worth d)
  unfolding is_equal
  is_equal_lem c d = equal_lem c.amount d.amount

  pub is_zero_lem : (c : Coin) → is_zero c ≡ eq_ℤ (worth c) (pos 0)
  unfolding is_zero
  is_zero_lem c = sign-zero c.amount

  pub is_positive_lem : (c : Coin) → is_positive c ≡ ltb_ℤ (pos 0) (worth c)
  unfolding is_positive
  is_positive_lem c = sign-pos c.amount
