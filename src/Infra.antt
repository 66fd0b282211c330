-- ===== src/Infra.antt =====
-- x/infra/manager.go, x/infra/handler.go and x/infra/model: the providers of infrastructure and the
-- usage that they report. A usage is an int64.
use lino.Sdk.{Sdk}
use lino.Prelude.{String, List, [], Option, Bool, if◌then◌else◌, some, ◌∷◌, not, str_eq, ◌++◌}
use lino.Prelude.Table.{Table, has, insert, string_key}
use lino.Prelude.Exec.{Exec, ◌>>=◌, require, ok, pure, ◌>>◌, err}
use lino.Prelude.Int.{ℤ, pos, eq_ℤ}
use lino.Types.Errors.{Error, provider_not_found, infra_provider_list_not_found}
use lino.Types.Accounts.{is_in_list, remove_first}
use lino.Prelude.Int64.{add64}
use lino.Prelude.Lists.{length}
use lino.Global.Store.{precision_factor}

pub record InfraProvider : Type 0 where
  pub username : String
  pub usage : ℤ

pub record InfraStore : Type 0 where
  pub providers : Table String InfraProvider
  pub provider_list : Option (List String)

abbrev pub InfraMethod : Type 0 → Type 0
InfraMethod A = Exec Error InfraStore A

abbrev pub does_infra_provider_exist : String → InfraStore → Bool
does_infra_provider_exist acc_key s = has acc_key s.providers

abbrev pub get_infra_provider : String → InfraMethod InfraProvider
get_infra_provider acc_key = require provider_not_found (λ s. s.providers acc_key)

abbrev pub set_infra_provider : String → InfraProvider → InfraMethod Unit
set_infra_provider acc_key provider s =
    (ok tt, record s { providers = insert acc_key provider s.providers })

abbrev pub get_infra_provider_list : InfraMethod (List String)
get_infra_provider_list = require infra_provider_list_not_found (λ s. s.provider_list)

abbrev pub set_infra_provider_list : List String → InfraMethod Unit
set_infra_provider_list lst s = (ok tt, record s { provider_list = some lst })

-- `InitGenesis`
abbrev pub init_infra : InfraMethod Unit
init_infra = set_infra_provider_list []

unfoldable pub add_to_infra_provider_list : String → InfraMethod Unit
add_to_infra_provider_list username = do
  lst ← get_infra_provider_list
  if is_in_list username lst then pure tt else set_infra_provider_list (lst ++ username ∷ [])

unfoldable pub remove_from_provider_list : String → InfraMethod Unit
remove_from_provider_list username = do
  lst ← get_infra_provider_list
  if is_in_list username lst then set_infra_provider_list (remove_first username lst) else pure tt

unfoldable pub register_infra_provider : String → InfraMethod Unit
register_infra_provider username = do
  set_infra_provider username (record { username = username; usage = pos 0 })
  add_to_infra_provider_list username

unfoldable pub report_usage : String → ℤ → InfraMethod Unit
report_usage username usage = do
  provider ← get_infra_provider username
  set_infra_provider username (record provider { usage = add64 provider.usage usage })

-- The loop of `GetUsageWeight`: the usage of all, which wraps, and of the user.
unfoldable pub sum_usage : String → List String → ℤ → ℤ → InfraMethod (ℤ × ℤ)
sum_usage username [] total my = pure (total, my)
sum_usage username (name ∷ names) total my = do
  provider ← get_infra_provider name
  sum_usage username names (add64 total provider.usage)
      (if str_eq provider.username username then provider.usage else my)

-- The loop of `ClearUsage`.
unfoldable pub clear_usages : List String → InfraMethod Unit
clear_usages [] = pure tt
clear_usages (name ∷ names) = do
  provider ← get_infra_provider name
  set_infra_provider name (record provider { usage = pos 0 })
  clear_usages names

unfoldable pub clear_usage : InfraMethod Unit
clear_usage = do lst ← get_infra_provider_list; clear_usages lst

unfoldable pub handle_provider_report_msg : String → ℤ → InfraMethod Unit
handle_provider_report_msg username usage s =
    if not (does_infra_provider_exist username s)
    then (err provider_not_found, s)
    else report_usage username usage s

module _ ⦃sdk : Sdk⦄ where
  open sdk use {Rat, new_rat, round_rat}

  unfoldable pub get_usage_weight : String → InfraMethod Rat
  get_usage_weight username = do
    lst ← get_infra_provider_list
    (total, my) ← sum_usage username lst (pos 0) (pos 0)
    pure (
        if eq_ℤ total (pos 0)
        then round_rat (new_rat (pos 1) (pos (length lst))) precision_factor
        else round_rat (new_rat my total) precision_factor)
