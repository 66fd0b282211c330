-- ===== src/Sdk.antt =====
-- What the program takes from the Cosmos SDK and Tendermint, whose code is not in the repository:
-- integers and rationals of the SDK, public keys and their addresses. Every module that uses them takes
-- a value of `Sdk` as an instance argument. The laws are documented behaviour that the code relies on:
-- `sdk.Int` is an integer with exact arithmetic (beyond 255 bits the SDK panics, which aborts the
-- transaction; such runs are outside the model), and `reflect.DeepEqual` compares keys by contents.
use lino.Prelude.{String, ◌≡◌, ◌↔◌, Bool, true, false, Option}
use lino.Prelude.Int.{ℤ, pos, ◌+ℤ◌, ◌-ℤ◌, ltb_ℤ, eq_ℤ}

pub record Sdk : Type 1 where
  -- `sdk.Int`
  pub Int : Type 0
  pub value : Int → ℤ
  -- `NewInt`
  pub new_int : ℤ → Int
  -- `Add`, `Sub`, `GT`, `Equal`, `Sign`
  pub add : Int → Int → Int
  pub sub : Int → Int → Int
  pub gt : Int → Int → Bool
  pub equal : Int → Int → Bool
  pub sign : Int → ℤ
  pub value-new_int : (n : ℤ) → value (new_int n) ≡ n
  pub value-add : (a b : Int) → value (add a b) ≡ value a +ℤ value b
  pub value-sub : (a b : Int) → value (sub a b) ≡ value a -ℤ value b
  pub gt_lem : (a b : Int) → gt a b ≡ ltb_ℤ (value b) (value a)
  pub equal_lem : (a b : Int) → equal a b ≡ eq_ℤ (value a) (value b)
  pub sign-zero : (a : Int) → eq_ℤ (sign a) (pos 0) ≡ eq_ℤ (value a) (pos 0)
  pub sign-pos : (a : Int) → ltb_ℤ (pos 0) (sign a) ≡ ltb_ℤ (pos 0) (value a)
  -- `crypto.PubKey` and its `Address()`; `tmtypes.TM2PB.PubKey`
  pub PubKey : Type 0
  pub key_equal : PubKey → PubKey → Bool
  pub key_equal_iff : (a b : PubKey) → (key_equal a b ≡ true) ↔ (a ≡ b)
  pub address : PubKey → String
  pub AbciPubKey : Type 0
  pub to_abci : PubKey → AbciPubKey
  pub abci_key_equal : AbciPubKey → AbciPubKey → Bool
  pub abci_key_equal_iff : (a b : AbciPubKey) → (abci_key_equal a b ≡ true) ↔ (a ≡ b)
  -- `sdk.Rat`, as far as coin days are counted in it: `NewRat`, `Add`, `Sub`, `Mul`, and `ToRat` of an
  -- amount; `Quo`, `Round`, `GT`, `LT`, `IsZero` and `EvaluateBig`. All that is assumed of its arithmetic: a number
  -- divided by one is itself, a whole number is its own rounding and is what it evaluates to, and
  -- nothing is greater than itself.
  pub Rat : Type 0
  pub zero_rat : Rat
  pub new_rat : ℤ → ℤ → Rat
  pub add_rat : Rat → Rat → Rat
  pub sub_rat : Rat → Rat → Rat
  pub mul_rat : Rat → Rat → Rat
  pub to_rat : Int → Rat
  pub quo_rat : Rat → Rat → Rat
  pub round_rat : Rat → ℤ → Rat
  pub gt_rat : Rat → Rat → Bool
  pub lt_rat : Rat → Rat → Bool
  pub is_zero_rat : Rat → Bool
  -- `NewRatFromDecimal` of a decimal and a precision; nothing where the string is not a decimal.
  pub rat_from_decimal : String → ℤ → Option Rat
  pub evaluate_big : Rat → ℤ
  pub quo-one : (q : Rat) → quo_rat q (new_rat (pos 1) (pos 1)) ≡ q
  pub round-whole : (a : Int) (precision : ℤ) → round_rat (to_rat a) precision ≡ to_rat a
  pub evaluate-to_rat : (a : Int) → evaluate_big (to_rat a) ≡ value a
  pub gt_irrefl : (q : Rat) → gt_rat q q ≡ false
  pub lt_irrefl : (q : Rat) → lt_rat q q ≡ false
