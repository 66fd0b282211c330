-- ===== src/Messages/Check.antt =====
-- types/msg.go, and what the messages of x/*/msg.go share: the limits of types/const.go, the checks, and
-- the two regular expressions for user names. The length that Go's `len` gives is in bytes.
use lino.Sdk.{Sdk}
use Prim.Native.String.{len, ◌∷◌, []}
use Prim.Native.Char.{Char, code}
use lino.Prelude.{
  ℕ, String, Bool, true, false, List, ◌||◌, ◌&&◌, leb, ltb, if◌then◌else◌, ◌∷◌, none, ◌==◌, [],
  some, ◌-◌,
}
use lino.Types.Errors.{Error, invalid_coins}
use lino.Types.Coin.{Coin, lino_to_coin, new_coin_from_int64}
use lino.Account.Store.{Permission}
use lino.Prelude.Exec.{Result, err}
use lino.Prelude.Int.{pos}

abbrev pub minimum_username_length : ℕ
minimum_username_length = 3

abbrev pub maximum_username_length : ℕ
maximum_username_length = 20

abbrev pub maximum_memo_length : ℕ
maximum_memo_length = 100

abbrev pub maximum_json_meta_length : ℕ
maximum_json_meta_length = 500

abbrev pub maximum_link_url : ℕ
maximum_link_url = 100

abbrev pub maximum_length_of_developer_website : ℕ
maximum_length_of_developer_website = 100

abbrev pub maximum_length_of_developer_description : ℕ
maximum_length_of_developer_description = 1000

abbrev pub maximum_length_of_app_metadata : ℕ
maximum_length_of_app_metadata = 1000

abbrev pub maximum_length_of_proposal_reason : ℕ
maximum_length_of_proposal_reason = 1000

unfoldable pub illegal_username : String → Bool
illegal_username name =
    ltb (len name) minimum_username_length || ltb maximum_username_length (len name)

abbrev pub reject : Bool → Error → Result Error Unit → Result Error Unit
reject test e rest = if test then err e else rest

abbrev between : ℕ → ℕ → Char → Bool
between low high c = leb low (code c) && leb (code c) high

-- [a-z]
abbrev is_lower : Char → Bool
is_lower c = between 97 122 c

-- [a-z0-9]
abbrev is_lower_or_digit : Char → Bool
is_lower_or_digit c = is_lower c || between 48 57 c

-- [-\.]
abbrev is_separator : Char → Bool
is_separator c = between 45 46 c

-- What follows the first character: at least `low` and at most `high` of [a-z0-9-\.], then one of
-- [a-z0-9] at the end.
unfoldable pub matches_rest : (low high : ℕ) → String → Bool
matches_rest low high [] = false
matches_rest low high (c ∷ []) = low == 0 && is_lower_or_digit c
matches_rest low high (c ∷ d ∷ s) =
    ltb 0 high
    && (is_lower_or_digit c || is_separator c)
    && matches_rest (low - 1) (high - 1) (d ∷ s)

-- ^[a-z]([a-z0-9-\.]){1,19}[a-z0-9]$
unfoldable pub matches_username_re : String → Bool
matches_username_re [] = false
matches_username_re (c ∷ s) = is_lower c && matches_rest 1 19 s

abbrev all_name_characters : String → Bool
all_name_characters [] = true
all_name_characters (c ∷ s) = (is_lower_or_digit c || is_separator c) && all_name_characters s

abbrev two_separators : String → Bool
two_separators [] = false
two_separators (c ∷ []) = false
two_separators (c ∷ d ∷ s) = (is_separator c && is_separator d) || two_separators (d ∷ s)

-- ^[a-z0-9\.-]*([-\.]){2,}[a-z0-9\.-]*$
unfoldable pub matches_illegal_username_re : String → Bool
matches_illegal_username_re s = all_name_characters s && two_separators s

module _ ⦃sdk : Sdk⦄ where
  abbrev pub checked_lino : String → Result Error Unit → Result Error Unit
  checked_lino lino rest = elim (lino_to_coin lino) [ none ↦ err invalid_coins | some _ ↦ rest ]

  -- The interface that every message has.
  pub record Msg : Type 0 where
    pub validate_basic : Result Error Unit
    pub get_permission : Permission
    pub get_signers : List String
    pub get_consume_amount : Coin

  -- The interface of a message that one user signs and that spends no authorized amount.
  abbrev pub zero_cost : Result Error Unit → Permission → String → Msg
  zero_cost validated permission signer = record {
    validate_basic = validated;
    get_permission = permission;
    get_signers = signer ∷ [];
    get_consume_amount = new_coin_from_int64 (pos 0);
  }
