-- ===== src/Tests/Ints.antt =====
-- The integers and keys that the tests run with: every amount is a ℤ, every key a string.
use lino.Sdk.{Sdk}
use lino.Prelude.Int.{ℤ, ◌+ℤ◌, ◌-ℤ◌, ltb_ℤ, eq_ℤ, pos, ◌*ℤ◌, div_pos, negsuc, pos_part}
use package.lino.Prelude.Int.{◌+ℤ◌, ◌-ℤ◌, ltb_ℤ, eq_ℤ}
use lino.Prelude.{
  String, str_eq, eq_iff, refl, ℕ, if◌then◌else◌, ◌≡◌, suc, arith, false, Option, some, none,
}
use package.lino.Prelude.{str_eq, eq_iff}
use lino.Types.Coin.{Coin, new_coin_from_int64}

-- A few decimals.
abbrev pub decimal : String → Option (ℤ × ℤ)
decimal text =
    if str_eq text "1"
    then some (pos 1, pos 1)
    else if str_eq text "0.5"
    then some (pos 5, pos 10)
    else if str_eq text "0.0005"
    then some (pos 5, pos 10_000)
    else if str_eq text "0"
    then some (pos 0, pos 1)
    else none

-- A number with a positive denominator, rounded down.
abbrev floor : ℤ → ℤ → ℤ
floor a b = div_pos a (pos_part b)

-- The sign of the divisor goes into the numerator.
abbrev over : ℤ × ℤ → ℤ → ℤ → ℤ × ℤ
over (a, b) (pos c) d = (a *ℤ d, b *ℤ pos c)
over (a, b) (negsuc c) d = (pos 0 -ℤ a *ℤ d, b *ℤ pos (suc c))

abbrev rounded : ℤ × ℤ → ℤ → ℤ × ℤ
rounded (a, b) precision = if eq_ℤ b (pos 1) then (a, b) else (floor (a *ℤ precision) b, precision)

times_one : (a : ℤ) → a *ℤ pos 1 ≡ a
unfolding ◌*ℤ◌
times_one a = ground arith

pub over_one : (a b : ℤ) → over (a, b) (pos 1) (pos 1) ≡ (a, b)
over_one a b = rw (times_one a, times_one b)

pub floor_one : (a : ℤ) → floor a (pos 1) ≡ a
unfolding div_pos
floor_one a = ground arith

pub not-less : (a : ℤ) → ltb_ℤ a a ≡ false
not-less a = ground arith

instance abbrev pub test_sdk : Sdk
test_sdk = record {
  Int = ℤ;
  value = λ a. a;
  new_int = λ n. n;
  add = ◌+ℤ◌;
  sub = ◌-ℤ◌;
  gt = λ a b. ltb_ℤ b a;
  equal = eq_ℤ;
  sign = λ a. a;
  value-new_int = λ n. refl;
  value-add = λ a b. refl;
  value-sub = λ a b. refl;
  gt_lem = λ a b. refl;
  equal_lem = λ a b. refl;
  sign-zero = λ a. refl;
  sign-pos = λ a. refl;
  PubKey = String;
  key_equal = str_eq;
  key_equal_iff = eq_iff;
  address = λ k. k;
  AbciPubKey = String;
  to_abci = λ k. k;
  abci_key_equal = str_eq;
  abci_key_equal_iff = eq_iff;
  Rat = ℤ × ℤ;
  zero_rat = (pos 0, pos 1);
  new_rat = λ a b. (a, b);
  add_rat = λ (a, b) (c, d). (a *ℤ d +ℤ c *ℤ b, b *ℤ d);
  sub_rat = λ (a, b) (c, d). (a *ℤ d -ℤ c *ℤ b, b *ℤ d);
  mul_rat = λ (a, b) (c, d). (a *ℤ c, b *ℤ d);
  to_rat = λ a. (a, pos 1);
  quo_rat = λ q (c, d). over q c d;
  round_rat = rounded;
  gt_rat = λ (a, b) (c, d). ltb_ℤ (c *ℤ b) (a *ℤ d);
  lt_rat = λ (a, b) (c, d). ltb_ℤ (a *ℤ d) (c *ℤ b);
  is_zero_rat = λ (a, b). eq_ℤ a (pos 0);
  rat_from_decimal = λ text precision. decimal text;
  evaluate_big = λ (a, b). floor a b;
  quo-one = λ (a, b). over_one a b;
  round-whole = λ a precision. refl;
  evaluate-to_rat = floor_one;
  gt_irrefl = λ (a, b). not-less (a *ℤ b);
  lt_irrefl = λ (a, b). not-less (a *ℤ b);
}

abbrev pub coins : ℕ → Coin
coins n = new_coin_from_int64 (pos n)
