-- ===== src/Developer/Manager.antt =====
-- x/developer/manager.go and x/developer/model: the developers, their list and what changes them.
use lino.Sdk.{Sdk}
use lino.Prelude.{String, List, [], Option, Bool, if◌then◌else◌, some, not, ◌∷◌, str_eq, ◌++◌}
use lino.Types.Coin.{Coin, zero_coin, plus, minus, coin_to_rat, is_zero, is_gte}
use lino.Prelude.Table.{Table, has, insert, erase, string_key}
use lino.Prelude.Exec.{Exec, require, ◌>>=◌, ok, pure, ◌>>◌, raise}
use lino.Prelude.Int.{ℤ, pos}
use lino.Types.Errors.{
  Error, developer_not_found, developer_list_not_found, param_not_found,
  insufficient_developer_deposit,
}
use lino.Types.Accounts.{is_in_list, remove_first}
use lino.Prelude.Lists.{length}
use lino.Global.Store.{precision_factor}

module _ ⦃sdk : Sdk⦄ where
  open sdk use {Rat, new_rat, quo_rat, round_rat, is_zero_rat}

  pub record Developer : Type 0 where
    pub username : String
    pub deposit : Coin
    pub app_consumption : Coin
    pub website : String
    pub description : String
    pub app_meta_data : String

  pub record DeveloperParam : Type 0 where
    pub developer_min_deposit : Coin
    pub developer_coin_return_interval_sec : ℤ
    pub developer_coin_return_times : ℤ

  pub record DeveloperStore : Type 0 where
    pub developers : Table String Developer
    pub developer_list : Option (List String)
    pub developer_param : Option DeveloperParam

  abbrev pub DeveloperMethod : Type 0 → Type 0
  DeveloperMethod A = Exec Error DeveloperStore A

  abbrev pub does_developer_exist : String → DeveloperStore → Bool
  does_developer_exist acc_key s = has acc_key s.developers

  abbrev pub get_developer : String → DeveloperMethod Developer
  get_developer acc_key = require developer_not_found (λ s. s.developers acc_key)

  abbrev pub set_developer : String → Developer → DeveloperMethod Unit
  set_developer acc_key developer s =
      (ok tt, record s { developers = insert acc_key developer s.developers })

  abbrev pub delete_developer : String → DeveloperMethod Unit
  delete_developer username s = (ok tt, record s { developers = erase username s.developers })

  abbrev pub get_developer_list : DeveloperMethod (List String)
  get_developer_list = require developer_list_not_found (λ s. s.developer_list)

  abbrev pub set_developer_list : List String → DeveloperMethod Unit
  set_developer_list lst s = (ok tt, record s { developer_list = some lst })

  abbrev pub get_developer_param : DeveloperMethod DeveloperParam
  get_developer_param = require param_not_found (λ s. s.developer_param)

  -- `InitGenesis`
  abbrev pub init_developers : DeveloperMethod Unit
  init_developers = set_developer_list []

  unfoldable pub add_to_developer_list : String → DeveloperMethod Unit
  add_to_developer_list username = do
    lst ← get_developer_list
    if is_in_list username lst then pure tt else set_developer_list (lst ++ username ∷ [])

  unfoldable pub remove_from_developer_list : String → DeveloperMethod Unit
  remove_from_developer_list username = do
    lst ← get_developer_list
    if is_in_list username lst then set_developer_list (remove_first username lst) else pure tt

  abbrev pub new_developer :
      String → Coin → (website description app_meta_data : String) → Developer
  new_developer username deposit website description app_meta_data = record {
    username = username;
    deposit = deposit;
    app_consumption = zero_coin;
    website = website;
    description = description;
    app_meta_data = app_meta_data;
  }

  unfoldable pub register_developer :
      String → Coin → (website description app_meta_data : String) → DeveloperMethod Unit
  register_developer username deposit website description app_meta_data = do
    param ← get_developer_param
    if not (is_gte deposit param.developer_min_deposit)
        then raise insufficient_developer_deposit
        else do
          set_developer username (new_developer username deposit website description app_meta_data)
          add_to_developer_list username

  unfoldable pub update_developer :
      String → (website description app_meta_data : String) → DeveloperMethod Unit
  update_developer username website description app_meta_data = do
    developer ← get_developer username
    set_developer username (record developer {
      website = website;
      description = description;
      app_meta_data = app_meta_data;
    })

  unfoldable pub report_consumption : String → Coin → DeveloperMethod Unit
  report_consumption username consumption = do
    developer ← get_developer username
    set_developer username
        (record developer { app_consumption = plus developer.app_consumption consumption })

  -- The loop of `GetConsumptionWeight`: the consumption of all and of the user.
  unfoldable pub sum_consumption :
      String → List String → Coin → Coin → DeveloperMethod (Coin × Coin)
  sum_consumption username [] total my = pure (total, my)
  sum_consumption username (name ∷ names) total my = do
    developer ← get_developer name
    sum_consumption username names (plus total developer.app_consumption)
        (if str_eq developer.username username then developer.app_consumption else my)

  unfoldable pub get_consumption_weight : String → DeveloperMethod Rat
  get_consumption_weight username = do
    lst ← get_developer_list
    (total, my) ← sum_consumption username lst zero_coin zero_coin
    pure (
        if is_zero_rat (coin_to_rat total)
        then round_rat (new_rat (pos 1) (pos (length lst))) precision_factor
        else round_rat (quo_rat (coin_to_rat my) (coin_to_rat total)) precision_factor)

  -- The loop of `ClearConsumption`.
  unfoldable pub clear_each : List String → DeveloperMethod Unit
  clear_each [] = pure tt
  clear_each (name ∷ names) = do
    developer ← get_developer name
    set_developer name (record developer { app_consumption = zero_coin })
    clear_each names

  unfoldable pub clear_consumption : DeveloperMethod Unit
  clear_consumption = do lst ← get_developer_list; clear_each lst

  unfoldable pub withdraw : String → Coin → DeveloperMethod Unit
  withdraw username coin = do
    developer ← get_developer username
    let left = minus developer.deposit coin
    if is_zero left
        then delete_developer username
        else set_developer username (record developer { deposit = left })

  -- The caller gets the whole deposit back.
  unfoldable pub withdraw_all : String → DeveloperMethod Coin
  withdraw_all username = do
    developer ← get_developer username
    withdraw username developer.deposit
    pure developer.deposit
