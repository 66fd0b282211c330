-- ===== src/Messages/Proposal.antt =====
-- The messages of x/proposal/msg.go. Those that change the allocation of inflation, the evaluation of content
-- and the allocation within the infrastructure are not modelled.
use lino.Sdk.{Sdk}
use Prim.Native.String.{len, count, String}
use lino.Prelude.{String, Bool, not, ltb, ◌==◌, ◌||◌}
use lino.Prelude.Exec.{Result, ok}
use lino.Messages.Check.{
  Msg, zero_cost, reject, illegal_username, maximum_length_of_proposal_reason, maximum_link_url,
}
use lino.Types.Errors.{
  Error, invalid_username, invalid_permlink, invalid_link, reason_too_long, illegal_parameter,
}
use lino.Handlers.Store.{VoteParam}
use lino.Proposal.Store.{ProposalParam}
use lino.Developer.Manager.{DeveloperParam}
use lino.Validator.Store.{ValidatorParam}
use lino.Account.Bank.{BandwidthParam, AccountParam}
use lino.Post.Store.{PostParam}
use lino.Account.Store.{transaction_permission}
use lino.Prelude.Int.{leb_ℤ, pos, ltb_ℤ}
use lino.Types.Coin.{is_not_negative, is_positive}

module _ ⦃sdk : Sdk⦄ where
  open sdk use {Rat, new_rat, zero_rat, gt_rat}

  pub record DeletePostContentMsg : Type 0 where
    pub creator : String
    pub permlink : String
    pub reason : String

  unfoldable pub validate_delete_post_content_msg : DeletePostContentMsg → Result Error Unit
  validate_delete_post_content_msg msg = reject (illegal_username msg.creator) invalid_username (
      reject (len msg.permlink == 0) invalid_permlink
        (reject (ltb maximum_length_of_proposal_reason (count msg.reason)) reason_too_long (ok tt)))

  abbrev pub delete_post_content_msg : DeletePostContentMsg → Msg
  delete_post_content_msg msg =
      zero_cost (validate_delete_post_content_msg msg) transaction_permission msg.creator

  pub record UpgradeProtocolMsg : Type 0 where
    pub creator : String
    pub link : String
    pub reason : String

  unfoldable pub validate_upgrade_protocol_msg : UpgradeProtocolMsg → Result Error Unit
  validate_upgrade_protocol_msg msg = reject (illegal_username msg.creator) invalid_username (
      reject (len msg.link == 0) invalid_link (
        reject (ltb maximum_link_url (len msg.link)) invalid_link (
          reject (ltb maximum_length_of_proposal_reason (count msg.reason)) reason_too_long
            (ok tt))))

  abbrev pub upgrade_protocol_msg : UpgradeProtocolMsg → Msg
  upgrade_protocol_msg msg =
      zero_cost (validate_upgrade_protocol_msg msg) transaction_permission msg.creator

  pub record ChangeVoteParamMsg : Type 0 where
    pub creator : String
    pub parameter : VoteParam
    pub reason : String

  unfoldable pub validate_change_vote_param_msg : ChangeVoteParamMsg → Result Error Unit
  validate_change_vote_param_msg msg = reject (illegal_username msg.creator) invalid_username (
      reject
        (leb_ℤ msg.parameter.delegator_coin_return_interval_sec (pos 0)
          || leb_ℤ msg.parameter.voter_coin_return_interval_sec (pos 0)
          || leb_ℤ msg.parameter.delegator_coin_return_times (pos 0)
          || leb_ℤ msg.parameter.voter_coin_return_times (pos 0))
        illegal_parameter
        (reject (not (is_positive msg.parameter.min_stake_in)) illegal_parameter (
          reject (ltb maximum_length_of_proposal_reason (count msg.reason)) reason_too_long
            (ok tt))))

  abbrev pub change_vote_param_msg : ChangeVoteParamMsg → Msg
  change_vote_param_msg msg =
      zero_cost (validate_change_vote_param_msg msg) transaction_permission msg.creator

  pub record ChangeProposalParamMsg : Type 0 where
    pub creator : String
    pub parameter : ProposalParam
    pub reason : String

  unfoldable pub validate_change_proposal_param_msg : ChangeProposalParamMsg → Result Error Unit
  validate_change_proposal_param_msg msg = reject (illegal_username msg.creator) invalid_username (
      reject
        (leb_ℤ msg.parameter.content_censorship_decide_sec (pos 0)
          || leb_ℤ msg.parameter.change_param_execution_sec (pos 0)
          || leb_ℤ msg.parameter.change_param_decide_sec (pos 0)
          || leb_ℤ msg.parameter.protocol_upgrade_decide_sec (pos 0))
        illegal_parameter
        (reject
          (not (is_positive msg.parameter.content_censorship_min_deposit)
            || not (is_positive msg.parameter.content_censorship_pass_votes)
            || not (is_positive msg.parameter.change_param_min_deposit)
            || not (is_positive msg.parameter.change_param_pass_votes)
            || not (is_positive msg.parameter.protocol_upgrade_pass_votes)
            || not (is_positive msg.parameter.protocol_upgrade_min_deposit))
          illegal_parameter
          (reject
            (not (gt_rat msg.parameter.content_censorship_pass_ratio zero_rat)
              || not (gt_rat msg.parameter.change_param_pass_ratio zero_rat)
              || not (gt_rat msg.parameter.protocol_upgrade_pass_ratio zero_rat)
              || gt_rat msg.parameter.protocol_upgrade_pass_ratio (new_rat (pos 1) (pos 1))
              || gt_rat msg.parameter.change_param_pass_ratio (new_rat (pos 1) (pos 1))
              || gt_rat msg.parameter.content_censorship_pass_ratio (new_rat (pos 1) (pos 1)))
            illegal_parameter
            (reject (ltb maximum_length_of_proposal_reason (count msg.reason)) reason_too_long
              (ok tt)))))

  abbrev pub change_proposal_param_msg : ChangeProposalParamMsg → Msg
  change_proposal_param_msg msg =
      zero_cost (validate_change_proposal_param_msg msg) transaction_permission msg.creator

  pub record ChangeDeveloperParamMsg : Type 0 where
    pub creator : String
    pub parameter : DeveloperParam
    pub reason : String

  unfoldable pub validate_change_developer_param_msg : ChangeDeveloperParamMsg → Result Error Unit
  validate_change_developer_param_msg msg = reject (illegal_username msg.creator) invalid_username (
      reject
        (leb_ℤ msg.parameter.developer_coin_return_interval_sec (pos 0)
          || leb_ℤ msg.parameter.developer_coin_return_times (pos 0))
        illegal_parameter
        (reject (not (is_positive msg.parameter.developer_min_deposit)) illegal_parameter (
          reject (ltb maximum_length_of_proposal_reason (count msg.reason)) reason_too_long
            (ok tt))))

  abbrev pub change_developer_param_msg : ChangeDeveloperParamMsg → Msg
  change_developer_param_msg msg =
      zero_cost (validate_change_developer_param_msg msg) transaction_permission msg.creator

  pub record ChangeValidatorParamMsg : Type 0 where
    pub creator : String
    pub parameter : ValidatorParam
    pub reason : String

  unfoldable pub validate_change_validator_param_msg : ChangeValidatorParamMsg → Result Error Unit
  validate_change_validator_param_msg msg = reject (illegal_username msg.creator) invalid_username (
      reject
        (leb_ℤ msg.parameter.validator_coin_return_interval_sec (pos 0)
          || leb_ℤ msg.parameter.validator_coin_return_times (pos 0)
          || leb_ℤ msg.parameter.absent_commit_limitation (pos 0)
          || leb_ℤ msg.parameter.validator_list_size (pos 0))
        illegal_parameter
        (reject
          (not (is_positive msg.parameter.validator_min_withdraw)
            || not (is_positive msg.parameter.validator_min_voting_deposit)
            || not (is_positive msg.parameter.validator_min_committing_deposit)
            || not (is_positive msg.parameter.penalty_miss_vote)
            || not (is_positive msg.parameter.penalty_miss_commit)
            || not (is_positive msg.parameter.penalty_byzantine))
          illegal_parameter
          (reject (ltb maximum_length_of_proposal_reason (count msg.reason)) reason_too_long
            (ok tt))))

  abbrev pub change_validator_param_msg : ChangeValidatorParamMsg → Msg
  change_validator_param_msg msg =
      zero_cost (validate_change_validator_param_msg msg) transaction_permission msg.creator

  pub record ChangeBandwidthParamMsg : Type 0 where
    pub creator : String
    pub parameter : BandwidthParam
    pub reason : String

  unfoldable pub validate_change_bandwidth_param_msg : ChangeBandwidthParamMsg → Result Error Unit
  validate_change_bandwidth_param_msg msg = reject (illegal_username msg.creator) invalid_username (
      reject (not (is_not_negative msg.parameter.capacity_usage_per_transaction)) illegal_parameter
        (reject (not (is_not_negative msg.parameter.virtual_coin)) illegal_parameter (
          reject (leb_ℤ msg.parameter.seconds_to_recover_bandwidth (pos 0)) illegal_parameter (
            reject (ltb maximum_length_of_proposal_reason (count msg.reason)) reason_too_long
              (ok tt)))))

  abbrev pub change_bandwidth_param_msg : ChangeBandwidthParamMsg → Msg
  change_bandwidth_param_msg msg =
      zero_cost (validate_change_bandwidth_param_msg msg) transaction_permission msg.creator

  pub record ChangeAccountParamMsg : Type 0 where
    pub creator : String
    pub parameter : AccountParam
    pub reason : String

  unfoldable pub validate_change_account_param_msg : ChangeAccountParamMsg → Result Error Unit
  validate_change_account_param_msg msg = reject (illegal_username msg.creator) invalid_username (
      reject
        (not (is_not_negative msg.parameter.minimum_balance)
          || not (is_not_negative msg.parameter.register_fee)
          || not (is_not_negative msg.parameter.first_deposit_full_coin_day_limit)
          || leb_ℤ msg.parameter.max_num_frozen_money (pos 0))
        illegal_parameter
        (reject (ltb maximum_length_of_proposal_reason (count msg.reason)) reason_too_long (ok tt)))

  abbrev pub change_account_param_msg : ChangeAccountParamMsg → Msg
  change_account_param_msg msg =
      zero_cost (validate_change_account_param_msg msg) transaction_permission msg.creator

  pub record ChangePostParamMsg : Type 0 where
    pub creator : String
    pub parameter : PostParam
    pub reason : String

  unfoldable pub validate_change_post_param_msg : ChangePostParamMsg → Result Error Unit
  validate_change_post_param_msg msg = reject (illegal_username msg.creator) invalid_username (
      reject (ltb maximum_length_of_proposal_reason (count msg.reason)) reason_too_long (
        reject
          (ltb_ℤ msg.parameter.post_interval_sec (pos 0)
            || ltb_ℤ msg.parameter.report_or_upvote_interval_sec (pos 0))
          illegal_parameter (ok tt)))

  abbrev pub change_post_param_msg : ChangePostParamMsg → Msg
  change_post_param_msg msg =
      zero_cost (validate_change_post_param_msg msg) transaction_permission msg.creator

  pub record VoteProposalMsg : Type 0 where
    pub voter : String
    pub proposal_id : String
    pub result : Bool

  unfoldable pub validate_vote_proposal_msg : VoteProposalMsg → Result Error Unit
  validate_vote_proposal_msg msg = reject (illegal_username msg.voter) invalid_username (ok tt)

  abbrev pub vote_proposal_msg : VoteProposalMsg → Msg
  vote_proposal_msg msg =
      zero_cost (validate_vote_proposal_msg msg) transaction_permission msg.voter
