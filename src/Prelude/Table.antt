-- ===== src/Prelude/Table.antt =====
-- Keys that can be compared, and a typed view of a key-value store: what each key holds, if
-- anything.
use Prim.Native.String.{String}
use mathlib.Core.Bool.{Bool, true, false, ◌&&◌}
use mathlib.Core.Logic.{◌↔◌}
use mathlib.Core.Option.{Option, none, some}
use mathlib.Core.Path.{◌≡◌, refl}
use native.Mathlib.Omega.{arith}
use text.Mathlib.Text.{◌==◌ as str_eq}
use text.Mathlib.TextEquality.{eq_iff}
use lino.Prelude.Tests.{if◌then◌else◌}
use lino.Prelude.Int.{ℤ, eq_ℤ, eq_ℤ_iff}

pub record Key {ℓ} (K : Type ℓ) : Type ℓ where
  pub same : K → K → Bool
  pub same_iff : (a b : K) → (same a b ≡ true) ↔ (a ≡ b)

instance abbrev pub string_key : Key String
string_key = record { same = str_eq; same_iff = eq_iff }

instance abbrev pub int_key : Key ℤ
int_key = record { same = eq_ℤ; same_iff = eq_ℤ_iff }

module _ {ℓ κ} {K : Type ℓ} {L : Type κ} ⦃k : Key K⦄ ⦃l : Key L⦄ where
  abbrev pub same_pair : K × L → K × L → Bool
  same_pair (a, b) (c, d) = k.same a c && l.same b d

  pub same_pair_iff : (a b : K × L) → (same_pair a b ≡ true) ↔ (a ≡ b)
  same_pair_iff (a, b) (c, d) = ground (arith, k.same_iff a c, l.same_iff b d)

  instance abbrev pub pair_key : Key (K × L)
  pair_key = record { same = same_pair; same_iff = same_pair_iff }

pub same_refl {ℓ} : {K : Type ℓ} ⦃e : Key K⦄ (k : K) → e.same k k ≡ true
same_refl ⦃e⦄ k = (e.same_iff k k).1 refl

abbrev pub Table {ℓ κ} : Type ℓ → Type κ → Type (ℓ ⊔ κ)
Table K V = K → Option V

abbrev pub empty {ℓ κ} : {K : Type ℓ} {V : Type κ} → Table K V
empty k = none

-- `store.Has`
abbrev pub has {ℓ κ} : {K : Type ℓ} {V : Type κ} → K → Table K V → Bool
has k t = elim (t k) [ none ↦ false | some _ ↦ true ]

-- What a key holds, or else a default.
unfoldable pub get_or {ℓ κ} : {K : Type ℓ} {V : Type κ} → K → V → Table K V → V
get_or k d t = elim (t k) [ none ↦ d | some v ↦ v ]

module _ {ℓ κ} {K : Type ℓ} {V : Type κ} ⦃e : Key K⦄ where
  -- `store.Set`
  unfoldable pub insert : K → V → Table K V → Table K V
  insert k v t j = if e.same k j then some v else t j

  -- `store.Delete`
  unfoldable pub erase : K → Table K V → Table K V
  erase k t j = if e.same k j then none else t j

  pub get-insert :
      (k : K) (v : V) (t : Table K V) (j : K)
      → insert k v t j ≡ (if e.same k j then some v else t j)
  unfolding insert
  get-insert k v t j = refl

  pub get-erase : (k : K) (t : Table K V) (j : K) → erase k t j ≡ (if e.same k j then none else t j)
  unfolding erase
  get-erase k t j = refl

  pub get-insert_self : (k : K) (v : V) (t : Table K V) → insert k v t k ≡ some v
  unfolding insert
  get-insert_self k v t = ground (arith, same_refl k)

  pub get-erase_self : (k : K) (t : Table K V) → erase k t k ≡ none
  unfolding erase
  get-erase_self k t = ground (arith, same_refl k)

  pub get-insert_ne : (k : K) (v : V) (t : Table K V) (j : K) → (k ≡ j → ⊥) → insert k v t j ≡ t j
  unfolding insert
  get-insert_ne k v t j h = ground (arith, e.same_iff k j)

  pub get-erase_ne : (k : K) (t : Table K V) (j : K) → (k ≡ j → ⊥) → erase k t j ≡ t j
  unfolding erase
  get-erase_ne k t j h = ground (arith, e.same_iff k j)

  pub get_or-insert :
      (j k : K) (d v : V) (t : Table K V)
      → get_or j d (insert k v t) ≡ (if e.same k j then v else get_or j d t)
  unfolding get_or insert
  get_or-insert j k d v t = ground arith

  pub get_or-insert_self : (k : K) (d v : V) (t : Table K V) → get_or k d (insert k v t) ≡ v
  get_or-insert_self k d v t = rw get_or-insert (rw (same_refl k))
