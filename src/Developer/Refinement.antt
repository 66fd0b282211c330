-- ===== src/Developer/Refinement.antt =====
-- That the operations on the developers keep the set that the list and the records stand for.
use lino.Sdk.{Sdk}
use lino.Prelude.Int.{ℤ, ◌-ℤ◌, pos, int_laws, eq_ℤ_iff}
use lino.Developer.Manager.{
  update_developer, report_consumption, clear_each, clear_consumption, register_developer,
  remove_from_developer_list, DeveloperStore, Developer, add_to_developer_list, withdraw_all,
  DeveloperParam, withdraw, does_developer_exist, new_developer,
}
use lino.Prelude.{
  String, List, ◌≡◌, some, true, ◌∷◌, false, Option-cases, sym, Bool-cases, ◌∙◌, arith, ◌++◌,
  if◌then◌else◌, inl, eq_iff, [], str_eq, refl, ◌||◌, inr, ap, subst,
}
use lino.Types.Coin.{Coin, is_zero, minus, is_zero_lem, is_gte, zero_coin, worth, worth-minus, plus}
use lino.Developer.Registry.{
  DeveloperOperation, IsRegistry, Refines, edit, report, with_developers, clear, register, attempt,
  revoke, keeps-Refines, has-insert, is_some,
}
use lino.Types.Accounts.{
  contains, IsDistinct, is_in_list, remove_first, remove_first-IsDistinct, is_in_list_lem,
  snoc-IsDistinct, contains-remove_first_ne, contains-append,
}
use lino.Prelude.Table.{has, Table, erase, insert, string_key, get-insert, get-erase}
use lino.Prelude.Exec.{ok}
use lino.Types.Errors.{
  developer_not_found, developer_already_exist, param_not_found, insufficient_developer_deposit,
}

zero_of : (d c : ℤ) → c ≡ d -ℤ d → c ≡ pos 0
zero_of d c e = grind (int_laws, e)

module _ ⦃sdk : Sdk⦄ where
  edit-Refines :
      (username website description app_meta_data : String) (s : DeveloperStore)
      → IsRegistry s
      → Refines
          (edit username website description app_meta_data)
          s
          (attempt (edit username website description app_meta_data) s)
  unfolding update_developer
  edit-Refines username website description app_meta_data s h =
      elim (Option-cases (s.developers username)) [
        | inl e ↦ inl (developer_not_found, ground arith, ground arith)
        | inr (developer, e) ↦
            let new = record developer {
              website = website;
              description = description;
              app_meta_data = app_meta_data;
            } in
            keeps-Refines (edit username website description app_meta_data) s
              (insert username new s.developers) _ (λ present j. refl) (ground arith) h
              (λ j. has-insert username developer new s.developers j e)
      ]

  report-Refines :
      (username : String) (consumption : Coin) (s : DeveloperStore)
      → IsRegistry s
      → Refines (report username consumption) s (attempt (report username consumption) s)
  unfolding report_consumption
  report-Refines username consumption s h = elim (Option-cases (s.developers username)) [
    | inl e ↦ inl (developer_not_found, ground arith, ground arith)
    | inr (developer, e) ↦
        let new = record developer {
          app_consumption = plus developer.app_consumption consumption;
        } in
        keeps-Refines (report username consumption) s (insert username new s.developers) _
          (λ present j. refl) (ground arith) h
          (λ j. has-insert username developer new s.developers j e)
  ]

  clear_step :
      (name : String) (names : List String) (s : DeveloperStore) (developer : Developer)
      → s.developers name ≡ some developer
      → clear_each (name ∷ names) s
        ≡ clear_each names (
            with_developers
              (insert name (record developer { app_consumption = zero_coin }) s.developers)
              s)
  unfolding clear_each
  clear_step name names s developer e = ground arith

  -- Where every name has its record, the loop succeeds, and the names are those there were.
  clear_each_lem :
      (names : List String) (s : DeveloperStore)
      → ((j : String) → contains j names ≡ true → has j s.developers ≡ true)
      → (t : Table String Developer) × (clear_each names s ≡ (ok tt, with_developers t s))
        × ((j : String) → has j t ≡ has j s.developers)
  unfolding clear_each
  clear_each_lem [] s all = (s.developers, refl, λ j. refl)
  clear_each_lem (name ∷ names) s all = elim (Option-cases (s.developers name)) [
    | inl e ↦
        let found : has name s.developers ≡ true = all name (ground (arith, eq_iff name name)) in
        ground arith
    | inr (developer, e) ↦
        let new = record developer { app_consumption = zero_coin } in
        let s₁ = with_developers (insert name new s.developers) s in
        let agree = λ (j : String). has-insert name developer new s.developers j e in
        let (t, r, same) = clear_each_lem names s₁ (λ j m. agree j ∙ all j (ground arith)) in
        (t, clear_step name names s developer e ∙ r, λ j. same j ∙ agree j)
  ]

  listed_clear :
      (s : DeveloperStore) (lst : List String)
      → s.developer_list ≡ some lst
      → clear_consumption s ≡ clear_each lst s
  unfolding clear_consumption
  listed_clear s lst e = rw e refl

  clear-Refines : (s : DeveloperStore) → IsRegistry s → Refines clear s (attempt clear s)
  unfolding clear_consumption
  clear-Refines s (lst, e, distinct, same) =
      let (t, r, agree) = clear_each_lem lst s (λ j m. sym (same j) ∙ m) in
      keeps-Refines clear s t (clear_consumption s) (λ present j. refl) (listed_clear s lst e ∙ r)
        (lst, e, distinct, same) agree

  registered :
      (username : String) (developer : Developer) (lst : List String) (s : DeveloperStore)
      → IsDistinct lst
      → ((j : String) → contains j lst ≡ has j s.developers)
      → has username s.developers ≡ false
      → let t = insert username developer s.developers in
        IsDistinct (lst ++ username ∷ [])
        × ((j : String) → has j t ≡ (str_eq username j || has j s.developers))
        × ((j : String) → contains j (lst ++ username ∷ []) ≡ has j t)
  registered username developer lst s distinct same new =
      let out : contains username lst ≡ false = same username ∙ new in
      let t = insert username developer s.developers in
      let there : (j : String) → has j t ≡ (str_eq username j || has j s.developers) =
        λ j. ap is_some (get-insert username developer s.developers j) ∙ ground arith in
      (
        snoc-IsDistinct username lst out distinct,
        there,
        λ j.
            contains-append j lst (username ∷ [])
            ∙ ground (arith, same j, there j, eq_iff username j, eq_iff j username),
      )

  revoked :
      (username : String) (lst : List String) (s : DeveloperStore)
      → IsDistinct lst
      → ((j : String) → contains j lst ≡ has j s.developers)
      → let t = erase username s.developers in
        IsDistinct (remove_first username lst)
        × ((j : String) → has j t ≡ (if str_eq username j then false else has j s.developers))
        × ((j : String) → contains j (remove_first username lst) ≡ has j t)
  revoked username lst s distinct same =
      let (distinct', out) = remove_first-IsDistinct username lst distinct in
      let t = erase username s.developers in
      let there : (j : String)
          → has j t ≡ (if str_eq username j then false else has j s.developers) =
        λ j. ap is_some (get-erase username s.developers j) ∙ ground arith in
      (
        distinct',
        there,
        λ j. elim (Bool-cases (str_eq username j)) [
          | inl e ↦ ground (arith, out, there j, eq_iff username j)
          | inr e ↦ ground (arith, contains-remove_first_ne j username lst e, same j, there j)
        ],
      )

  register_runs :
      (username : String) (deposit : Coin) (website description app_meta_data : String)
      (s : DeveloperStore) (lst : List String) (param : DeveloperParam)
      → s.developer_list ≡ some lst
      → s.developer_param ≡ some param
      → does_developer_exist username s ≡ false
      → is_gte deposit param.developer_min_deposit ≡ true
      → is_in_list username lst ≡ false
      → attempt (register username deposit website description app_meta_data) s ≡ (
        ok tt,
        record s {
          developers =
              insert username
                (new_developer username deposit website description app_meta_data)
                s.developers;
          developer_list = some (lst ++ username ∷ []);
        },
      )
  unfolding register_developer add_to_developer_list
  register_runs username deposit website description app_meta_data s lst param e ep new enough out =
      ground arith

  register-Refines :
      (username : String) (deposit : Coin) (website description app_meta_data : String)
      (s : DeveloperStore)
      → IsRegistry s
      → Refines
          (register username deposit website description app_meta_data)
          s
          (attempt (register username deposit website description app_meta_data) s)
  unfolding register_developer add_to_developer_list
  register-Refines username deposit website description app_meta_data s (lst, e, distinct, same) =
      elim (Bool-cases (does_developer_exist username s)) [
        | inl there ↦ inl (developer_already_exist, rw there refl, rw there refl)
        | inr new ↦ elim (Option-cases s.developer_param) [
          | inl none_there ↦ inl (param_not_found, ground arith, ground arith)
          | inr (param, ep) ↦ elim (Bool-cases (is_gte deposit param.developer_min_deposit)) [
            | inl enough ↦
                let developer = new_developer username deposit website description app_meta_data in
                let (distinct', there, same') =
                  registered username developer lst s distinct same new in
                let out : is_in_list username lst ≡ false =
                  is_in_list_lem username lst ∙ same username ∙ new in
                subst (Refines (register username deposit website description app_meta_data) s)
                  (sym (
                    register_runs username deposit website description app_meta_data s lst param e
                      ep new enough out))
                  (inr (refl, (lst ++ username ∷ [], refl, distinct', same'), there))
            | inr short ↦ inl (insufficient_developer_deposit, ground arith, ground arith)
          ]
        ]
      ]

  revoke_runs :
      (username : String) (s : DeveloperStore) (lst : List String) (developer : Developer)
      → s.developer_list ≡ some lst
      → s.developers username ≡ some developer
      → is_in_list username lst ≡ true
      → is_zero (minus developer.deposit developer.deposit) ≡ true
      → attempt (revoke username) s ≡ (
        ok tt,
        record s {
          developers = erase username s.developers;
          developer_list = some (remove_first username lst);
        },
      )
  unfolding remove_from_developer_list withdraw_all withdraw
  revoke_runs username s lst developer e found listed nothing = ground arith

  minus_self : (c : Coin) → is_zero (minus c c) ≡ true
  minus_self c =
      is_zero_lem (minus c c)
      ∙ (eq_ℤ_iff (worth (minus c c)) (pos 0)).1
          (zero_of (worth c) (worth (minus c c)) (worth-minus c c))

  revoke-Refines :
      (username : String) (s : DeveloperStore)
      → IsRegistry s
      → Refines (revoke username) s (attempt (revoke username) s)
  unfolding remove_from_developer_list withdraw_all withdraw
  revoke-Refines username s (lst, e, distinct, same) = elim (Option-cases (s.developers username)) [
    | inl missing ↦ inl (developer_not_found, ground arith, ground arith)
    | inr (developer, found) ↦
        let (distinct', there, same') = revoked username lst s distinct same in
        let listed : is_in_list username lst ≡ true =
          is_in_list_lem username lst ∙ same username ∙ ap is_some found in
        let nothing : is_zero (minus developer.deposit developer.deposit) ≡ true =
          minus_self developer.deposit in
        subst (Refines (revoke username) s)
          (sym (revoke_runs username s lst developer e found listed nothing))
          (inr (refl, (remove_first username lst, refl, distinct', same'), there))
  ]

  -- The developer list and the records stand for one set: the list names every developer that has a
  -- record, once, and nobody else. From such a store, each of the handlers' operations either fails and
  -- changes nothing, or succeeds, leaves such a store, and changes the set as it should: registering
  -- adds the user, revoking takes the user out, and updating, reporting and clearing leave it alone.
  pub attempt-Refines :
      (op : DeveloperOperation) (s : DeveloperStore) → IsRegistry s → Refines op s (attempt op s)
  attempt-Refines (register username deposit website description app_meta_data) s h =
      register-Refines username deposit website description app_meta_data s h
  attempt-Refines (revoke username) s h = revoke-Refines username s h
  attempt-Refines (edit username website description app_meta_data) s h =
      edit-Refines username website description app_meta_data s h
  attempt-Refines (report username consumption) s h = report-Refines username consumption s h
  attempt-Refines clear s h = clear-Refines s h
