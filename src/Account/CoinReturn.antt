-- ===== src/Account/CoinReturn.antt =====
-- x/account/event.go: the events that give a coin back in pieces, and what executing one does.
use lino.Sdk.{Sdk}
use lino.Prelude.Int.{ℤ, pos, pos_part, ◌-ℤ◌, ◌+ℤ◌, int_laws, +ℤ_zero}
use lino.Prelude.{String, ℕ, List, ◌≡◌, [], ◌∷◌, suc, if◌then◌else◌, not, ap, ◌∙◌, zero, refl}
use lino.Types.Coin.{rat_to_coin, Coin, coin_to_rat, worth, minus, worth-minus}
use lino.Account.Bank.{BankMethod, add_saving_coin}
use lino.Prelude.Lists.{length, All}
use lino.Global.Store.{precision_factor}
use lino.Account.Store.{does_account_exist}
use lino.Prelude.Exec.{err}
use lino.Types.Errors.{account_not_found}

rest_of : (c p c' s : ℤ) → c' ≡ c -ℤ p → s ≡ c' → p +ℤ s ≡ c
rest_of c p c' s e h = grind (int_laws, e, h)

module _ ⦃sdk : Sdk⦄ where
  open sdk use {
    value, new_rat, to_rat, quo_rat, round_rat, evaluate_big, value-new_int, quo-one, round-whole,
    evaluate-to_rat,
  }

  pub record ReturnCoinEvent : Type 0 where
    pub username : String
    pub amount : Coin
    pub return_type : ℤ

  -- `Execute`
  unfoldable pub execute_return : ℤ → ReturnCoinEvent → BankMethod Unit
  execute_return time event s =
      if not (does_account_exist event.username s.account)
      then (err account_not_found, s)
      else add_saving_coin time event.username event.amount "" "" event.return_type s

  -- The piece of a round, of which `left` remain with it.
  abbrev pub piece_of : ℕ → Coin → Coin
  piece_of left coin =
      rat_to_coin
        (round_rat (quo_rat (coin_to_rat coin) (new_rat (pos left) (pos 1))) precision_factor)

  -- The loop of `CreateCoinReturnEvents`; the rounds left are its `times - i`.
  unfoldable pub return_pieces : String → ℤ → ℕ → Coin → List ReturnCoinEvent
  return_pieces username return_type zero coin = []
  return_pieces username return_type (suc left) coin =
      let piece = piece_of (suc left) coin in
      record { username = username; amount = piece; return_type = return_type }
      ∷ return_pieces username return_type left (minus coin piece)

  -- The interval is not looked at, and it never fails.
  unfoldable pub create_coin_return_events : String → ℤ → ℤ → Coin → ℤ → List ReturnCoinEvent
  create_coin_return_events username times interval coin return_type =
      return_pieces username return_type (pos_part times) coin

  -- What a list of events gives back.
  abbrev pub returned : List ReturnCoinEvent → ℤ
  returned [] = pos 0
  returned (event ∷ events) = worth event.amount +ℤ returned events

  last_piece : (coin : Coin) → worth (piece_of 1 coin) ≡ worth coin
  unfolding rat_to_coin
  last_piece coin =
      value-new_int _
      ∙ ap (λ q. evaluate_big (round_rat q precision_factor)) (quo-one (coin_to_rat coin))
      ∙ ap evaluate_big (round-whole coin.amount precision_factor)
      ∙ evaluate-to_rat coin.amount

  pub length-return_pieces :
      (username : String) (return_type : ℤ) (left : ℕ) (coin : Coin)
      → length (return_pieces username return_type left coin) ≡ left
  unfolding return_pieces
  length-return_pieces username return_type zero coin = refl
  length-return_pieces username return_type (suc left) coin =
      ap suc (length-return_pieces username return_type left _)

  returned-pieces :
      (username : String) (return_type : ℤ) (left : ℕ) (coin : Coin)
      → returned (return_pieces username return_type (suc left) coin) ≡ worth coin
  unfolding return_pieces
  returned-pieces username return_type zero coin =
      ap (λ x. x +ℤ pos 0) (last_piece coin) ∙ +ℤ_zero _
  returned-pieces username return_type (suc left) coin =
      let piece = piece_of (suc (suc left)) coin in
      rest_of _ _ _ _ (worth-minus coin piece)
        (returned-pieces username return_type left (minus coin piece))

  pieces-All :
      (name : String) (return_type : ℤ) (left : ℕ) (coin : Coin)
      → All
          (λ event. (event.username ≡ name) × (event.return_type ≡ return_type))
          (return_pieces name return_type left coin)
  unfolding return_pieces
  pieces-All name return_type zero coin = tt
  pieces-All name return_type (suc left) coin =
      ((refl, refl), pieces-All name return_type left (minus coin (piece_of (suc left) coin)))

  -- However the rounding falls, giving a coin back in one or more rounds makes one event for each round,
  -- all for the same user, and what they give back adds up to exactly the coin.
  pub create_coin_return_events_lem :
      (username : String) (n : ℕ) (interval : ℤ) (coin : Coin) (return_type : ℤ)
      → let events = create_coin_return_events username (pos (suc n)) interval coin return_type in
        (length events ≡ suc n)
        × (returned events ≡ worth coin)
        × All (λ event. (event.username ≡ username) × (event.return_type ≡ return_type)) events
  unfolding create_coin_return_events
  create_coin_return_events_lem username n interval coin return_type = (
    length-return_pieces username return_type (suc n) coin,
    returned-pieces username return_type n coin,
    pieces-All username return_type (suc n) coin,
  )
