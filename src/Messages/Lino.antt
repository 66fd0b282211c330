-- ===== src/Messages/Lino.antt =====
-- The messages whose `ValidateBasic` asks for a name of a legal length, as the transaction holds them.
use lino.Sdk.{Sdk}
use lino.Messages.Account.{
  FollowMsg, UnfollowMsg, follow_msg, ClaimMsg, unfollow_msg, TransferMsg, claim_msg, RecoverMsg,
  transfer_msg, RegisterMsg, recover_msg, UpdateAccountMsg, register_msg, update_account_msg,
}
use lino.Messages.Check.{Msg}
use lino.Messages.Vote.{
  StakeInMsg, StakeOutMsg, stake_in_msg, DelegateMsg, stake_out_msg, DelegatorWithdrawMsg,
  delegate_msg, ClaimInterestMsg, delegator_withdraw_msg, claim_interest_msg,
}
use lino.Messages.Validator.{
  ValidatorDepositMsg, ValidatorWithdrawMsg, validator_deposit_msg, ValidatorRevokeMsg,
  validator_withdraw_msg, validator_revoke_msg,
}
use lino.Messages.Infra.{ProviderReportMsg, provider_report_msg}
use lino.Messages.Developer.{
  DeveloperRegisterMsg, DeveloperUpdateMsg, developer_register_msg, DeveloperRevokeMsg,
  developer_update_msg, GrantPermissionMsg, developer_revoke_msg, RevokePermissionMsg,
  grant_permission_msg, PreAuthorizationMsg, revoke_permission_msg, pre_authorization_msg,
}
use lino.Auth.Ante.{TxMsg}
use lino.Messages.Proposal.{
  DeletePostContentMsg, delete_post_content_msg, UpgradeProtocolMsg, upgrade_protocol_msg,
  ChangeVoteParamMsg, change_vote_param_msg, ChangeProposalParamMsg, change_proposal_param_msg,
  ChangeDeveloperParamMsg, change_developer_param_msg, ChangeValidatorParamMsg,
  change_validator_param_msg, ChangeBandwidthParamMsg, change_bandwidth_param_msg,
  ChangeAccountParamMsg, change_account_param_msg, ChangePostParamMsg, change_post_param_msg,
  VoteProposalMsg, vote_proposal_msg,
}

module _ ⦃sdk : Sdk⦄ where
  pub data LinoMsg : Type 0 where
    follow : FollowMsg → LinoMsg
    unfollow : UnfollowMsg → LinoMsg
    claim : ClaimMsg → LinoMsg
    transfer : TransferMsg → LinoMsg
    recover : RecoverMsg → LinoMsg
    register : RegisterMsg → LinoMsg
    update_account : UpdateAccountMsg → LinoMsg
    stake_in : StakeInMsg → LinoMsg
    stake_out : StakeOutMsg → LinoMsg
    delegate : DelegateMsg → LinoMsg
    delegator_withdraw : DelegatorWithdrawMsg → LinoMsg
    claim_interest : ClaimInterestMsg → LinoMsg
    validator_deposit : ValidatorDepositMsg → LinoMsg
    validator_withdraw : ValidatorWithdrawMsg → LinoMsg
    validator_revoke : ValidatorRevokeMsg → LinoMsg
    provider_report : ProviderReportMsg → LinoMsg
    developer_register : DeveloperRegisterMsg → LinoMsg
    developer_update : DeveloperUpdateMsg → LinoMsg
    developer_revoke : DeveloperRevokeMsg → LinoMsg
    grant_permission : GrantPermissionMsg → LinoMsg
    revoke_permission : RevokePermissionMsg → LinoMsg
    pre_authorization : PreAuthorizationMsg → LinoMsg
    delete_post_content : DeletePostContentMsg → LinoMsg
    upgrade_protocol : UpgradeProtocolMsg → LinoMsg
    change_vote_param : ChangeVoteParamMsg → LinoMsg
    change_proposal_param : ChangeProposalParamMsg → LinoMsg
    change_developer_param : ChangeDeveloperParamMsg → LinoMsg
    change_validator_param : ChangeValidatorParamMsg → LinoMsg
    change_bandwidth_param : ChangeBandwidthParamMsg → LinoMsg
    change_account_param : ChangeAccountParamMsg → LinoMsg
    change_post_param : ChangePostParamMsg → LinoMsg
    vote_proposal : VoteProposalMsg → LinoMsg

  unfoldable pub as_msg : LinoMsg → Msg
  as_msg (follow msg) = follow_msg msg
  as_msg (unfollow msg) = unfollow_msg msg
  as_msg (claim msg) = claim_msg msg
  as_msg (transfer msg) = transfer_msg msg
  as_msg (recover msg) = recover_msg msg
  as_msg (register msg) = register_msg msg
  as_msg (update_account msg) = update_account_msg msg
  as_msg (stake_in msg) = stake_in_msg msg
  as_msg (stake_out msg) = stake_out_msg msg
  as_msg (delegate msg) = delegate_msg msg
  as_msg (delegator_withdraw msg) = delegator_withdraw_msg msg
  as_msg (claim_interest msg) = claim_interest_msg msg
  as_msg (validator_deposit msg) = validator_deposit_msg msg
  as_msg (validator_withdraw msg) = validator_withdraw_msg msg
  as_msg (validator_revoke msg) = validator_revoke_msg msg
  as_msg (provider_report msg) = provider_report_msg msg
  as_msg (developer_register msg) = developer_register_msg msg
  as_msg (developer_update msg) = developer_update_msg msg
  as_msg (developer_revoke msg) = developer_revoke_msg msg
  as_msg (grant_permission msg) = grant_permission_msg msg
  as_msg (revoke_permission msg) = revoke_permission_msg msg
  as_msg (pre_authorization msg) = pre_authorization_msg msg
  as_msg (delete_post_content msg) = delete_post_content_msg msg
  as_msg (upgrade_protocol msg) = upgrade_protocol_msg msg
  as_msg (change_vote_param msg) = change_vote_param_msg msg
  as_msg (change_proposal_param msg) = change_proposal_param_msg msg
  as_msg (change_developer_param msg) = change_developer_param_msg msg
  as_msg (change_validator_param msg) = change_validator_param_msg msg
  as_msg (change_bandwidth_param msg) = change_bandwidth_param_msg msg
  as_msg (change_account_param msg) = change_account_param_msg msg
  as_msg (change_post_param msg) = change_post_param_msg msg
  as_msg (vote_proposal msg) = vote_proposal_msg msg

  -- What x/auth/ante.go reads of a message.
  abbrev pub tx_msg : LinoMsg → TxMsg
  tx_msg msg = record {
    signers = (as_msg msg).get_signers;
    permission = (as_msg msg).get_permission;
    consume_amount = (as_msg msg).get_consume_amount;
  }
