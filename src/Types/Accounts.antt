-- ===== src/Types/Accounts.antt =====
-- types/common.go: `FindAccountInList`; x/validator/manager.go: `remove`; x/vote/manager.go: the
-- removal of one entry in x/vote/manager.go.
use lino.Prelude.{
  ℕ, ◌+◌, ◌≤◌, String, Bool, true, false, not, ◌||◌, List, [], ◌∷◌, ◌++◌, ◌≡◌, arith, if◌then◌else◌,
  str_eq, eq_iff, refl, Bool-cases, inl, subst, inr,
}
use lino.Prelude.Int.{ℤ, pos, negsuc, eq_ℤ}
use lino.Prelude.Lists.{length}

find_from : ℕ → String → List String → ℤ
find_from index me [] = negsuc 0
find_from index me (user ∷ lst) =
    let rest = find_from (index + 1) me lst in if str_eq user me then pos index else rest

-- The index of an account, or -1.
unfoldable pub find_account_in_list : String → List String → ℤ
unfolding find_from
find_account_in_list me lst = find_from 0 me lst

-- The test `FindAccountInList(me, lst) != -1`.
unfoldable pub is_in_list : String → List String → Bool
is_in_list me lst = not (eq_ℤ (find_account_in_list me lst) (negsuc 0))

-- Membership, by recursion.
abbrev pub contains : String → List String → Bool
contains me [] = false
contains me (user ∷ lst) = str_eq user me || contains me lst

find_from-contains :
    (i : ℕ) (me : String) (lst : List String)
    → not (eq_ℤ (find_from i me lst) (negsuc 0)) ≡ contains me lst
unfolding find_from
find_from-contains i me [] = refl
find_from-contains i me (user ∷ lst) = ground (arith, find_from-contains (i + 1) me lst)

pub is_in_list_lem : (me : String) (lst : List String) → is_in_list me lst ≡ contains me lst
unfolding is_in_list find_account_in_list
is_in_list_lem me lst = find_from-contains 0 me lst

-- `remove`: the loop deletes every occurrence.
unfoldable pub remove : String → List String → List String
remove me [] = []
remove me (username ∷ users) =
    let rest = remove me users in if str_eq me username then rest else username ∷ rest

-- Deletes the first occurrence: the inner loop of `GetPenaltyList`, with its `break`.
unfoldable pub remove_first : String → List String → List String
remove_first voter [] = []
remove_first voter (validator ∷ validators) =
    let rest = remove_first voter validators in
    if str_eq validator voter then validators else validator ∷ rest

-- No account is listed twice.
abbrev pub IsDistinct : List String → Type 0
IsDistinct [] = Unit
IsDistinct (user ∷ lst) = (contains user lst ≡ false) × IsDistinct lst

-- Every account of the first list is in the second.
abbrev pub IsWithin : List String → List String → Type 0
IsWithin [] all = Unit
IsWithin (user ∷ lst) all = (contains user all ≡ true) × IsWithin lst all

pub contains-remove :
    (j me : String) (lst : List String)
    → contains j (remove me lst) ≡ (if str_eq me j then false else contains j lst)
unfolding remove
contains-remove j me [] = ground arith
contains-remove j me (user ∷ lst) =
    ground (arith, contains-remove j me lst, eq_iff me j, eq_iff me user, eq_iff user j)

pub remove-IsDistinct :
    (me : String) (lst : List String) → IsDistinct lst → IsDistinct (remove me lst)
unfolding remove
remove-IsDistinct me [] h = tt
remove-IsDistinct me (user ∷ lst) h =
    ground (arith, remove-IsDistinct me lst h.1, contains-remove user me lst)

pub length-remove : (me : String) (lst : List String) → length (remove me lst) ≤ length lst
unfolding remove
length-remove me [] = omega arith
length-remove me (user ∷ lst) = ground (arith, length-remove me lst)

pub remove-IsWithin :
    (me : String) (lst all : List String)
    → IsWithin lst all
    → IsWithin (remove me lst) (remove me all)
unfolding remove
remove-IsWithin me [] all h = tt
remove-IsWithin me (user ∷ lst) all h =
    ground (arith, remove-IsWithin me lst all h.1, contains-remove user me all, eq_iff me user)

pub contains-append :
    (j : String) (xs ys : List String) → contains j (xs ++ ys) ≡ (contains j xs || contains j ys)
contains-append j [] ys = refl
contains-append j (x ∷ xs) ys = ground (arith, contains-append j xs ys)

pub IsWithin-append : (lst all more : List String) → IsWithin lst all → IsWithin lst (all ++ more)
IsWithin-append [] all more h = tt
IsWithin-append (user ∷ lst) all more h =
    (ground (arith, contains-append user all more), IsWithin-append lst all more h.1)

pub snoc-IsWithin :
    (me : String) (lst all : List String)
    → contains me all ≡ true
    → IsWithin lst all
    → IsWithin (lst ++ me ∷ []) all
snoc-IsWithin me [] all m h = (m, tt)
snoc-IsWithin me (user ∷ lst) all m h = (h.0, snoc-IsWithin me lst all m h.1)

pub snoc-IsDistinct :
    (me : String) (lst : List String)
    → contains me lst ≡ false
    → IsDistinct lst
    → IsDistinct (lst ++ me ∷ [])
snoc-IsDistinct me [] m h = (refl, tt)
snoc-IsDistinct me (user ∷ lst) m h = ground (
  arith,
  snoc-IsDistinct me lst,
  contains-append user lst (me ∷ []),
  eq_iff me user,
  eq_iff user me,
)

pub contains_of_within :
    (j : String) (lst all : List String)
    → IsWithin lst all
    → contains j lst ≡ true
    → contains j all ≡ true
contains_of_within j [] all h m = cc
contains_of_within j (user ∷ lst) all h m =
    ground (arith, contains_of_within j lst all h.1, eq_iff user j)

pub contains-remove_first_ne :
    (j voter : String) (oncall : List String)
    → str_eq voter j ≡ false
    → contains j (remove_first voter oncall) ≡ contains j oncall
unfolding remove_first
contains-remove_first_ne j voter [] other = refl
contains-remove_first_ne j voter (validator ∷ validators) other =
    ground
      (arith, contains-remove_first_ne j voter validators, eq_iff validator voter, eq_iff voter j)

pub remove_first-IsDistinct :
    (voter : String) (oncall : List String)
    → IsDistinct oncall
    → IsDistinct (remove_first voter oncall) × (contains voter (remove_first voter oncall) ≡ false)
unfolding remove_first
remove_first-IsDistinct voter [] h = (tt, refl)
remove_first-IsDistinct voter (validator ∷ validators) h =
    let ih = remove_first-IsDistinct voter validators h.1 in
    elim (Bool-cases (str_eq validator voter)) [
      | inl same ↦
          rw same
            (h.1, subst (λ x. contains x validators ≡ false) ((eq_iff validator voter).0 same) h.0)
      | inr other ↦ rw other (
        (
          ground (
            arith,
            contains-remove_first_ne validator voter validators,
            h.0,
            eq_iff voter validator,
            eq_iff validator voter,
          ),
          ih.0,
        ),
        ground (arith, ih.1),
      )
    ]
