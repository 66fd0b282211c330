-- ===== src/Proposal/Store.antt =====
-- x/proposal/model. A proposal is one of three structs behind an interface; `Parameter` is what a change of
-- parameters holds, one of the structs of param/param.go.
use lino.Sdk.{Sdk}
use lino.Prelude.{String, Option, Bool, some, ◌||◌}
use lino.Prelude.Int.{ℤ, pos}
use lino.Prelude.Exec.{Exec, require, ok}
use lino.Types.Coin.{Coin}
use lino.Prelude.Table.{Table, has, insert, erase, string_key}
use lino.Types.Errors.{Error, proposal_not_found, next_proposal_id_not_found, param_not_found}

-- `types.ProposalResult`
pub data ProposalResult : Type 0 where
  proposal_not_pass proposal_pass proposal_revoked : ProposalResult

module _ ⦃sdk : Sdk⦄ where
  open sdk use {Rat}

  pub record ProposalInfo : Type 0 where
    pub creator : String
    pub proposal_id : String
    pub agree_votes : Coin
    pub disagree_votes : Coin
    pub result : ProposalResult
    pub created_at : ℤ
    pub expired_at : ℤ
    pub reason : String

  pub record ChangeParamProposal (Parameter : Type 0) : Type 0 where
    pub proposal_info : ProposalInfo
    pub param : Parameter
    pub reason : String

  pub record ContentCensorshipProposal : Type 0 where
    pub proposal_info : ProposalInfo
    pub permlink : String
    pub reason : String

  pub record ProtocolUpgradeProposal : Type 0 where
    pub proposal_info : ProposalInfo
    pub link : String
    pub reason : String

  pub data Proposal (Parameter : Type 0) : Type 0 where
    changes_param : ChangeParamProposal Parameter → Proposal Parameter
    censors_content : ContentCensorshipProposal → Proposal Parameter
    upgrades_protocol : ProtocolUpgradeProposal → Proposal Parameter

  pub record ProposalParam : Type 0 where
    pub content_censorship_decide_sec : ℤ
    pub content_censorship_min_deposit : Coin
    pub content_censorship_pass_ratio : Rat
    pub content_censorship_pass_votes : Coin
    pub change_param_decide_sec : ℤ
    pub change_param_execution_sec : ℤ
    pub change_param_min_deposit : Coin
    pub change_param_pass_ratio : Rat
    pub change_param_pass_votes : Coin
    pub protocol_upgrade_decide_sec : ℤ
    pub protocol_upgrade_min_deposit : Coin
    pub protocol_upgrade_pass_ratio : Rat
    pub protocol_upgrade_pass_votes : Coin

  pub record ProposalStore (Parameter : Type 0) : Type 0 where
    pub next_proposal_id : Option ℤ
    pub ongoing : Table String (Proposal Parameter)
    pub expired : Table String (Proposal Parameter)
    pub proposal_param : Option ProposalParam

  abbrev pub ProposalMethod : Type 0 → Type 0 → Type 0
  ProposalMethod Parameter A = Exec Error (ProposalStore Parameter) A

  module _ {Parameter : Type 0} where
    abbrev pub get_proposal_info : Proposal Parameter → ProposalInfo
    get_proposal_info (changes_param p) = p.proposal_info
    get_proposal_info (censors_content p) = p.proposal_info
    get_proposal_info (upgrades_protocol p) = p.proposal_info

    abbrev pub set_proposal_info : ProposalInfo → Proposal Parameter → Proposal Parameter
    set_proposal_info info (changes_param p) = changes_param (record p { proposal_info = info })
    set_proposal_info info (censors_content p) = censors_content (record p { proposal_info = info })
    set_proposal_info info (upgrades_protocol p) =
        upgrades_protocol (record p { proposal_info = info })

    abbrev pub does_proposal_exist : String → ProposalStore Parameter → Bool
    does_proposal_exist id s = has id s.ongoing || has id s.expired

    abbrev pub get_ongoing_proposal : String → ProposalMethod Parameter (Proposal Parameter)
    get_ongoing_proposal id = require proposal_not_found (λ s. s.ongoing id)

    abbrev pub set_ongoing_proposal : String → Proposal Parameter → ProposalMethod Parameter Unit
    set_ongoing_proposal id proposal s =
        (ok tt, record s { ongoing = insert id proposal s.ongoing })

    abbrev pub delete_ongoing_proposal : String → ProposalMethod Parameter Unit
    delete_ongoing_proposal id s = (ok tt, record s { ongoing = erase id s.ongoing })

    abbrev pub get_expired_proposal : String → ProposalMethod Parameter (Proposal Parameter)
    get_expired_proposal id = require proposal_not_found (λ s. s.expired id)

    abbrev pub set_expired_proposal : String → Proposal Parameter → ProposalMethod Parameter Unit
    set_expired_proposal id proposal s =
        (ok tt, record s { expired = insert id proposal s.expired })

    abbrev pub delete_expired_proposal : String → ProposalMethod Parameter Unit
    delete_expired_proposal id s = (ok tt, record s { expired = erase id s.expired })

    -- The number of the struct `NextProposalID`.
    abbrev pub get_next_proposal_number : ProposalMethod Parameter ℤ
    get_next_proposal_number = require next_proposal_id_not_found (λ s. s.next_proposal_id)

    abbrev pub set_next_proposal_number : ℤ → ProposalMethod Parameter Unit
    set_next_proposal_number n s = (ok tt, record s { next_proposal_id = some n })

    abbrev pub get_proposal_param : ProposalMethod Parameter ProposalParam
    get_proposal_param = require param_not_found (λ s. s.proposal_param)

    abbrev pub init_proposals : ProposalMethod Parameter Unit
    init_proposals = set_next_proposal_number (pos 1)
