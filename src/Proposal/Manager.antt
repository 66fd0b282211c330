-- ===== src/Proposal/Manager.antt =====
-- x/proposal/manager.go. `time` is the time of the block in seconds.
use lino.Sdk.{Sdk}
use Prim.Native.String.{slice, ◌++◌}
use lino.Prelude.{ℕ, String, Bool, ◌+◌, suc, ◌/◌, if◌then◌else◌, ltb, not, ◌%◌, zero}
use lino.Prelude.Int.{ℤ, pos, negsuc}
use lino.Proposal.Store.{
  ProposalInfo, ProposalMethod, ProposalStore, Proposal, ProposalParam, ProposalResult,
  proposal_not_pass, censors_content, upgrades_protocol, changes_param, get_next_proposal_number,
  get_proposal_param, get_ongoing_proposal, get_expired_proposal, set_next_proposal_number,
  set_ongoing_proposal, set_expired_proposal, get_proposal_info, set_proposal_info, proposal_pass,
  delete_ongoing_proposal,
}
use lino.Vote.Manager.{ProposalType, change_param, content_censorship, protocol_upgrade}
use lino.Types.Coin.{zero_coin, new_coin_from_int64, Coin, plus, coin_to_rat, is_gt}
use lino.Prelude.Exec.{◌>>=◌, ◌>>◌, pure, raise}
use lino.Prelude.Table.{has}
use lino.Prelude.Int64.{add64}
use lino.Global.Store.{precision_factor}
use lino.Types.Errors.{incorrect_proposal_type}

abbrev digit : ℕ → String
digit n = slice "0123456789" n (n + 1)

abbrev decimal_digits : (fuel n : ℕ) → String
decimal_digits zero n = ""
decimal_digits (suc fuel) n =
    let front = decimal_digits fuel (n / 10) in
    if ltb n 10 then digit n else front ++ digit (n % 10)

-- `strconv.FormatInt` in base 10: an int64 has at most 19 digits.
unfoldable pub format_int : ℤ → String
format_int (pos n) = decimal_digits 19 n
format_int (negsuc n) = "-" ++ decimal_digits 19 (n + 1)

module _ ⦃sdk : Sdk⦄ where
  open sdk use {Rat, new_rat, quo_rat, round_rat, lt_rat}

  abbrev empty_info : ProposalInfo
  empty_info = record {
    creator = "";
    proposal_id = "";
    agree_votes = zero_coin;
    disagree_votes = zero_coin;
    result = proposal_not_pass;
    created_at = pos 0;
    expired_at = pos 0;
    reason = "";
  }

  abbrev pub new_proposal_info : ℤ → String → ℤ → String → ProposalInfo
  new_proposal_info time creator decide_sec new_id = record {
    creator = creator;
    proposal_id = new_id;
    agree_votes = new_coin_from_int64 (pos 0);
    disagree_votes = new_coin_from_int64 (pos 0);
    result = proposal_not_pass;
    created_at = time;
    expired_at = add64 time decide_sec;
    reason = "";
  }

  -- `ProposalType` has no other values.
  abbrev pub pass_param_of : ProposalType → ProposalParam → Rat × Coin
  pass_param_of change_param p = (p.change_param_pass_ratio, p.change_param_pass_votes)
  pass_param_of content_censorship p =
      (p.content_censorship_pass_ratio, p.content_censorship_pass_votes)
  pass_param_of protocol_upgrade p = (p.protocol_upgrade_pass_ratio, p.protocol_upgrade_pass_votes)

  abbrev pub with_vote : Bool → Coin → ProposalInfo → ProposalInfo
  with_vote vote_result voting_power info =
      if vote_result
      then record info { agree_votes = plus info.agree_votes voting_power }
      else record info { disagree_votes = plus info.disagree_votes voting_power }

  -- The result by the share of the votes that agree.
  abbrev pub decided : Rat → ProposalInfo → ProposalResult
  decided ratio info =
      let total_votes = plus info.agree_votes info.disagree_votes in
      let actual_ratio =
        round_rat (quo_rat (coin_to_rat info.agree_votes) (coin_to_rat total_votes))
          precision_factor in
      if lt_rat ratio actual_ratio then proposal_pass else proposal_not_pass

  module _ {Parameter : Type 0} where
    abbrev pub is_ongoing_proposal : String → ProposalStore Parameter → Bool
    is_ongoing_proposal id s = has id s.ongoing

    abbrev pub create_content_censorship_proposal : (permlink reason : String) → Proposal Parameter
    create_content_censorship_proposal permlink reason =
        censors_content
          (record { proposal_info = empty_info; permlink = permlink; reason = reason })

    abbrev pub create_protocol_upgrade_proposal : (link reason : String) → Proposal Parameter
    create_protocol_upgrade_proposal link reason =
        upgrades_protocol (record { proposal_info = empty_info; link = link; reason = reason })

    abbrev pub create_change_param_proposal : Parameter → String → Proposal Parameter
    create_change_param_proposal parameter reason =
        changes_param (record { proposal_info = empty_info; param = parameter; reason = reason })

    abbrev pub get_next_proposal_id : ProposalMethod Parameter String
    get_next_proposal_id = do n ← get_next_proposal_number; pure (format_int n)

    unfoldable pub increase_next_proposal_id : ProposalMethod Parameter Unit
    increase_next_proposal_id = do
      n ← get_next_proposal_number
      set_next_proposal_number (add64 n (pos 1))

    unfoldable pub add_proposal :
        ℤ → String → Proposal Parameter → ℤ → ProposalMethod Parameter String
    add_proposal time creator proposal decide_sec = do
      new_id ← get_next_proposal_id
      set_ongoing_proposal new_id
          (set_proposal_info (new_proposal_info time creator decide_sec new_id) proposal)
      increase_next_proposal_id
      pure new_id

    abbrev pub get_proposal_pass_param : ProposalType → ProposalMethod Parameter (Rat × Coin)
    get_proposal_pass_param proposal_type = do
      param ← get_proposal_param
      pure (pass_param_of proposal_type param)

    unfoldable pub update_proposal_voting_status :
        String → Bool → Coin → ProposalMethod Parameter Unit
    update_proposal_voting_status id vote_result voting_power = do
      proposal ← get_ongoing_proposal id
      set_ongoing_proposal id (
          set_proposal_info (with_vote vote_result voting_power (get_proposal_info proposal))
            proposal)

    -- The proposal with its result moves from the ongoing to the expired ones.
    abbrev pub expire :
        String → ProposalResult → Proposal Parameter → ProposalMethod Parameter ProposalResult
    expire id result proposal = do
      set_expired_proposal id
          (set_proposal_info (record (get_proposal_info proposal) { result = result }) proposal)
      delete_ongoing_proposal id
      pure result

    unfoldable pub update_proposal_pass_status :
        ProposalType → String → ProposalMethod Parameter ProposalResult
    update_proposal_pass_status proposal_type id = do
      proposal ← get_ongoing_proposal id
      let info = get_proposal_info proposal
      (ratio, min_votes) ← get_proposal_pass_param proposal_type
      if not (is_gt (plus info.agree_votes info.disagree_votes) min_votes)
          then pure proposal_not_pass
          else expire id (decided ratio info) proposal

    -- `CreateParamChangeEvent`: the parameter of the event.
    unfoldable pub create_param_change_event : String → ProposalMethod Parameter Parameter
    create_param_change_event id = do
      proposal ← get_expired_proposal id
      elim proposal [
        | changes_param p ↦ pure p.param
        | censors_content _ ↦ raise incorrect_proposal_type
        | upgrades_protocol _ ↦ raise incorrect_proposal_type
      ]

    unfoldable pub get_permlink : String → ProposalMethod Parameter String
    get_permlink id = do
      proposal ← get_expired_proposal id
      elim proposal [
        | changes_param _ ↦ raise incorrect_proposal_type
        | censors_content p ↦ pure p.permlink
        | upgrades_protocol _ ↦ raise incorrect_proposal_type
      ]
