-- ===== src/Types/Errors.antt =====
-- The errors that the managers and handlers return, by the function that makes each.

pub data Error : Type 0 where
  account_not_found account_saving_coin_not_enough frozen_money_list_too_long : Error
  validator_not_found validator_list_not_found param_not_found : Error
  insufficient_deposit validator_pub_key_already_exist invalid_coin : Error
  unbalanced_account illegal_withdraw : Error
  voter_not_found vote_not_found delegation_not_found reference_list_not_found : Error
  vote_already_exist : Error
  account_info_not_found get_reset_key_failed get_transaction_key_failed : Error
  get_app_key_failed grant_pub_key_not_found grant_key_expired : Error
  check_reset_key check_transaction_key check_grant_app_key : Error
  check_authenticate_pub_key_owner unsupport_grant_level : Error
  pre_auth_grant_key_mismatch pre_auth_amount_insufficient app_grant_key_mismatch : Error
  account_bank_not_found pending_coin_day_queue_not_found : Error
  register_expired_event lino_stake_statistic_not_found global_meta_not_found : Error
  inflation_pool_not_found global_consumption_meta_not_found global_tps_not_found : Error
  global_time_not_found global_allocation_param_not_found : Error
  insufficient_developer_deposit developer_not_found developer_list_not_found : Error
  developer_already_exist provider_not_found infra_provider_list_not_found : Error
  invalid_coins : Error
  post_not_found : Error
  account_meta_not_found get_sequence_failed increase_sequence_failed : Error
  account_tps_capacity_not_enough account_already_exists reward_not_found : Error
  get_saving_failed get_last_report_failed update_last_report_failed : Error
  get_last_post_failed update_last_post_failed get_frozen_money_failed : Error
  add_saving_coin_failed add_saving_coin_with_full_coin_day_failed : Error
  followee_not_found follower_not_found receiver_not_found sender_not_found : Error
  referrer_not_found register_fee_insufficient : Error
  incorrect_std_tx_type no_signatures memo_too_large wrong_number_of_signers : Error
  unknown_msg_type invalid_sequence unverified_bytes : Error
  post_meta_not_found post_report_or_upvote_not_found post_comment_not_found : Error
  post_view_not_found post_donation_not_found post_already_exist : Error
  create_post_source_invalid : Error
  proposal_not_found next_proposal_id_not_found incorrect_proposal_type : Error
  illegal_parameter reason_too_long invalid_permlink invalid_link : Error
  identifier_length_too_long url_length_too_long no_username invalid_target : Error
  not_a_decimal invalid_post_redistribution_split_rate no_post_id post_id_too_long : Error
  no_author comment_and_repost_conflict post_title_exceed_max_length : Error
  post_content_exceed_max_length redistribution_split_rate_length_too_long : Error
  too_many_url : Error
  invalid_username invalid_memo invalid_json_meta invalid_website : Error
  invalid_usage invalid_description invalid_app_metadata : Error
  invalid_authorized_app invalid_validity_period grant_permission_too_high : Error
  -- a Go panic over an error
  panicked : Error → Error
