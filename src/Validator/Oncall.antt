-- ===== src/Validator/Oncall.antt =====
-- The oncall list: distinct validators, all of them in the list of all validators, no more than its
-- size.
use lino.Prelude.{
  String, List, [], ◌∷◌, ◌≡◌, true, false, some, if◌then◌else◌, str_eq, eq_iff, arith, refl,
  Option-cases, inl, inr,
}
use lino.Prelude.Int.{ℤ, pos, ◌≤ℤ◌}
use lino.Prelude.Lists.{length}
use lino.Prelude.Exec.{ok, Result-cases}
use lino.Sdk.{Sdk}
use lino.Types.Accounts.{contains, IsDistinct, IsWithin}
use lino.Validator.Store.{Validator, ValidatorList, ValidatorStore}
use lino.Validator.Lists.{replace_lowest}

-- `cur` in the place of every `lowest`.
abbrev pub swapped : String → String → List String → List String
swapped lowest cur [] = []
swapped lowest cur (key ∷ keys) = (if str_eq key lowest then cur else key) ∷ swapped lowest cur keys

pub length-swapped :
    (lowest cur : String) (keys : List String) → length (swapped lowest cur keys) ≡ length keys
length-swapped lowest cur [] = refl
length-swapped lowest cur (key ∷ keys) = omega (arith, length-swapped lowest cur keys)

pub swapped-IsWithin :
    (lowest cur : String) (keys all : List String)
    → contains cur all ≡ true
    → IsWithin keys all
    → IsWithin (swapped lowest cur keys) all
swapped-IsWithin lowest cur [] all m h = tt
swapped-IsWithin lowest cur (key ∷ keys) all m h =
    ground (arith, swapped-IsWithin lowest cur keys all m h.1)

swapped_absent :
    (lowest cur : String) (keys : List String)
    → contains lowest keys ≡ false
    → swapped lowest cur keys ≡ keys
swapped_absent lowest cur [] h = refl
swapped_absent lowest cur (key ∷ keys) h = ground (arith, swapped_absent lowest cur keys)

contains-swapped :
    (j lowest cur : String) (keys : List String)
    → contains j keys ≡ false
    → str_eq cur j ≡ false
    → contains j (swapped lowest cur keys) ≡ false
contains-swapped j lowest cur [] h k = refl
contains-swapped j lowest cur (key ∷ keys) h k = ground (arith, contains-swapped j lowest cur keys)

pub swapped-IsDistinct :
    (lowest cur : String) (keys : List String)
    → contains cur keys ≡ false
    → IsDistinct keys
    → IsDistinct (swapped lowest cur keys)
swapped-IsDistinct lowest cur [] m h = tt
swapped-IsDistinct lowest cur (key ∷ keys) m h = ground (
  arith,
  swapped-IsDistinct lowest cur keys,
  swapped_absent lowest cur keys,
  contains-swapped key lowest cur keys,
  eq_iff key lowest,
  eq_iff cur key,
  eq_iff key cur,
)

module _ ⦃sdk : Sdk⦄ where
  -- Every validator is stored under its username.
  abbrev pub NamesMatch : ValidatorStore → Type 0
  NamesMatch s = (k : String) (v : Validator) → s.validators k ≡ some v → v.username ≡ k

  pub replace_lowest_lem :
      (s : ValidatorStore) (lowest cur : String) (keys xs : List String)
      → NamesMatch s
      → replace_lowest s lowest cur keys ≡ ok xs
      → xs ≡ swapped lowest cur keys
  unfolding replace_lowest
  replace_lowest_lem s lowest cur [] xs names h = ground arith
  replace_lowest_lem s lowest cur (key ∷ keys) xs names h = elim (Option-cases (s.validators key)) [
    | inl missing ↦ cc (rw (missing, replace_lowest) at h)
    | inr (v, found) ↦ elim (Result-cases (replace_lowest s lowest cur keys)) [
      | inl (rest, e) ↦
          let ih = replace_lowest_lem s lowest cur keys rest names e in
          ground (arith, ih, names key v found)
      | inr (x, e) ↦ absurd (ground arith)
    ]
  ]

  -- The rules of the lists.
  pub record IsValidList (size : ℤ) (lst : ValidatorList) : Type 0 where
    pub distinct : IsDistinct lst.oncall_validators
    pub within : IsWithin lst.oncall_validators lst.all_validators
    pub bounded : pos (length lst.oncall_validators) ≤ℤ size
