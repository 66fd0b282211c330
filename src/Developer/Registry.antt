-- ===== src/Developer/Registry.antt =====
-- The list of developers and their records, against the set of developers that they stand for: the
-- operations that x/developer/handler.go makes of the manager's.
use lino.Sdk.{Sdk}
use lino.Prelude.{
  String, Option, Bool, List, if◌then◌else◌, str_eq, ◌≡◌, none, some, false, ◌||◌, ◌∙◌, true, sym,
  subst, ◌⊎◌, ap, inr, not, refl, Bool-cases, inl, eq_iff,
}
use lino.Developer.Manager.{
  DeveloperMethod, DeveloperStore, Developer, does_developer_exist, register_developer,
  remove_from_developer_list, withdraw_all, update_developer, report_consumption, clear_consumption,
}
use lino.Prelude.Table.{Table, has, insert, get-insert, string_key}
use lino.Types.Coin.{Coin}
use lino.Prelude.Exec.{Result, err, ok, ◌>>◌, pure}
use lino.Types.Errors.{Error, developer_already_exist, developer_not_found}
use lino.Types.Accounts.{IsDistinct, contains}

module _ ⦃sdk : Sdk⦄ where
  pub data DeveloperOperation : Type 0 where
    register : String → Coin → (website description app_meta_data : String) → DeveloperOperation
    revoke : String → DeveloperOperation
    edit : String → (website description app_meta_data : String) → DeveloperOperation
    report : String → Coin → DeveloperOperation
    clear : DeveloperOperation

  -- What the handlers do to the developers: registering checks that the developer is new, revoking that
  -- it is there.
  abbrev pub attempt : DeveloperOperation → DeveloperMethod Unit
  attempt (register username deposit website description app_meta_data) s =
      if does_developer_exist username s
      then (err developer_already_exist, s)
      else register_developer username deposit website description app_meta_data s
  attempt (revoke username) s =
      if not (does_developer_exist username s)
      then (err developer_not_found, s)
      else (remove_from_developer_list username >> withdraw_all username >> pure tt) s
  attempt (edit username website description app_meta_data) s =
      update_developer username website description app_meta_data s
  attempt (report username consumption) s = report_consumption username consumption s
  attempt clear s = clear_consumption s

  -- The set of developers after an operation that succeeds.
  abbrev pub after : DeveloperOperation → (String → Bool) → String → Bool
  after (register username _ _ _ _) present j = str_eq username j || present j
  after (revoke username) present j = if str_eq username j then false else present j
  after _ present j = present j

  abbrev pub IsRegistry : DeveloperStore → Type 0
  IsRegistry s =
      (lst : List String) × (s.developer_list ≡ some lst)
      × IsDistinct lst
      × ((j : String) → contains j lst ≡ has j s.developers)

  -- An operation succeeds and makes the set what it should be, or fails and leaves the store alone; the
  -- list and the records stand for the same set afterwards.
  abbrev pub Refines :
      DeveloperOperation → DeveloperStore → Result Error Unit × DeveloperStore → Type 0
  Refines op s (r, s') =
      ((e : Error) × (r ≡ err e) × (s' ≡ s))
      ⊎ ((r ≡ ok tt)
          × IsRegistry s'
          × ((j : String) → has j s'.developers ≡ after op (λ k. has k s.developers) j))

  abbrev pub is_some : Option Developer → Bool
  is_some o = elim o [ none ↦ false | some _ ↦ true ]

  -- A record that is replaced by another leaves the set as it was.
  pub has-insert :
      (name : String) (developer new : Developer) (t : Table String Developer) (j : String)
      → t name ≡ some developer
      → has j (insert name new t) ≡ has j t
  has-insert name developer new t j e =
      ap is_some (get-insert name new t j) ∙ elim (Bool-cases (str_eq name j)) [
        | inl same ↦ rw same (ap is_some (sym e) ∙ ap (λ k. is_some (t k)) ((eq_iff name j).0 same))
        | inr other ↦ rw other refl
      ]

  abbrev pub with_developers : Table String Developer → DeveloperStore → DeveloperStore
  with_developers t s = record s { developers = t }

  kept :
      (s : DeveloperStore) (t : Table String Developer)
      → IsRegistry s
      → ((j : String) → has j t ≡ has j s.developers)
      → IsRegistry (with_developers t s)
  kept s t (lst, e, distinct, same) h = (lst, e, distinct, λ j. same j ∙ sym (h j))

  pub keeps-Refines :
      (op : DeveloperOperation) (s : DeveloperStore) (t : Table String Developer)
      (m : Result Error Unit × DeveloperStore)
      → ((present : String → Bool) (j : String) → after op present j ≡ present j)
      → m ≡ (ok tt, with_developers t s)
      → IsRegistry s
      → ((j : String) → has j t ≡ has j s.developers)
      → Refines op s m
  keeps-Refines op s t m same e h agree =
      subst (Refines op s) (sym e)
        (inr (refl, kept s t h agree, λ j. agree j ∙ sym (same (λ k. has k s.developers) j)))
