-- ===== src/Messages/Infra.antt =====
-- The messages of x/infra/msg.go: their fields, `ValidateBasic`, and what is read of them before they are handled.
use lino.Sdk.{Sdk}
use Prim.Native.String.{String}
use lino.Prelude.{String}
use lino.Prelude.Exec.{Result, ok}
use lino.Messages.Check.{Msg, zero_cost, reject, illegal_username}
use lino.Prelude.Int.{ℤ, leb_ℤ, pos}
use lino.Types.Errors.{Error, invalid_username, invalid_usage}
use lino.Account.Store.{transaction_permission}

module _ ⦃sdk : Sdk⦄ where
  open sdk use {PubKey}

  pub record ProviderReportMsg : Type 0 where
    pub username : String
    pub usage : ℤ

  unfoldable pub validate_provider_report_msg : ProviderReportMsg → Result Error Unit
  validate_provider_report_msg msg =
      reject (illegal_username msg.username) invalid_username
        (reject (leb_ℤ msg.usage (pos 0)) invalid_usage (ok tt))

  abbrev pub provider_report_msg : ProviderReportMsg → Msg
  provider_report_msg msg =
      zero_cost (validate_provider_report_msg msg) transaction_permission msg.username
