-- ===== src/Tests/Proposal.antt =====
-- x/proposal: a proposal is made, voted on and decided.
use lino.Tests.Ints.{test_sdk, coins}
use lino.Proposal.Manager.{format_int, add_proposal, create_content_censorship_proposal}
use lino.Proposal.Store.{ProposalParam, ProposalStore, Proposal}
use lino.Proposal.Votes.{Ballots}
use lino.Proposal.Life.{is_enough, voted_and_decided, IsOpen, IsDecided, add_vote_decide, Asks}
use lino.Prelude.Int.{pos, negsuc, ℤ}
use lino.Prelude.{String, true, some, ◌≡◌, ◌∷◌, false, refl, [], ◌⊎◌}
use lino.Vote.Manager.{content_censorship}
use lino.Prelude.Exec.{◌>>=◌}
use lino.Prelude.Table.{empty}
use lino.Types.Coin.{Coin}

format_int_runs :
    (format_int (pos 0) ≡ "0") × (format_int (pos 1207) ≡ "1207") × (format_int (negsuc 41) ≡ "-42")
unfolding format_int
format_int_runs = (refl, refl, refl)

abbrev rules : ProposalParam
rules = record {
  content_censorship_decide_sec = pos 604800;
  content_censorship_min_deposit = coins 100;
  content_censorship_pass_ratio = (pos 50, pos 100);
  content_censorship_pass_votes = coins 10;
  change_param_decide_sec = pos 604800;
  change_param_execution_sec = pos 3600;
  change_param_min_deposit = coins 100;
  change_param_pass_ratio = (pos 70, pos 100);
  change_param_pass_votes = coins 1000;
  protocol_upgrade_decide_sec = pos 604800;
  protocol_upgrade_min_deposit = coins 100;
  protocol_upgrade_pass_ratio = (pos 80, pos 100);
  protocol_upgrade_pass_votes = coins 10;
}

-- A parameter is a string here.
abbrev no_proposals : ProposalStore String
no_proposals = record {
  next_proposal_id = some (pos 1);
  ongoing = empty;
  expired = empty;
  proposal_param = some rules;
}

abbrev ballots : Ballots
ballots = (true, coins 9) ∷ (false, coins 3) ∷ []

abbrev censorship : Proposal String
censorship = create_content_censorship_proposal "bob#post" "spam"

add_vote_decide_example :
    let o =
      (add_proposal (pos 100) "user" censorship (pos 604800)
          >>= voted_and_decided content_censorship ballots)
        no_proposals in
    (ratio : ℤ × ℤ) × (min : Coin) × Asks rules content_censorship ratio min
    × (((is_enough min ballots ≡ false) × IsOpen (format_int (pos 1)) ballots o)
        ⊎ ((is_enough min ballots ≡ true) × IsDecided ratio (format_int (pos 1)) ballots o))
add_vote_decide_example =
    add_vote_decide (pos 100) "user" censorship (pos 604800) (pos 1) content_censorship rules
      ballots no_proposals refl refl

-- Twelve votes are more than ten, and three of four agree.
enough_votes : is_enough rules.content_censorship_pass_votes ballots ≡ true
unfolding lino.Prelude.Int.◌+ℤ◌ lino.Types.Coin.new_coin_from_int64
enough_votes = refl
