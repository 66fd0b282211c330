-- ===== src/Tests/Vote.antt =====
-- x/vote: a voter with stake, and the theorems at it.
use lino.Tests.Ints.{test_sdk, coins}
use lino.Vote.Store.{Voter, VoteStore, Vote}
use lino.Prelude.Table.{insert, empty, string_key}
use lino.Types.Coin.{new_coin_from_int64, worth}
use lino.Prelude.{
  ◌≢◌, List, arith, ◌≡◌, some, eq_iff, true, [], ◌∷◌, refl, false, ◌&&◌, not, String,
}
use lino.Types.Accounts.{IsDistinct, contains}
use lino.Prelude.Int.{pos, ◌+ℤ◌}
use lino.Vote.Manager.{
  add_delegation, delegator_withdraw, get_penalty_list, change_param, add_vote, power_of,
  protocol_upgrade,
}
use lino.Vote.Delegations.{Moves, delegation_amount}
use lino.Prelude.Exec.{ok, ◌>>◌, err}
use lino.Vote.Withdrawals.{delegate_withdraw}
use lino.Vote.SelfDelegation.{self_delegation}
use lino.Types.Errors.{vote_already_exist}
use lino.Vote.Voting.{votes_once, has_voted, penalty_list_lem}

abbrev dave : Voter
dave = record {
  username = "dave";
  lino_stake = coins 500;
  delegated_power = coins 30;
  delegate_to_others = coins 40;
  last_power_change_at = pos 0;
  interest = coins 0;
}

abbrev one_voter : VoteStore
one_voter = record {
  voters = insert "dave" dave empty;
  votes = empty;
  delegations = empty;
  delegatees = empty;
  reference_list = some [];
  validator_min_voting_deposit = some (coins 300);
}

at_dave : one_voter.voters "dave" ≡ some dave
unfolding insert
at_dave = refl

ten_ne : worth (coins 10) ≢ pos 0
unfolding new_coin_from_int64
ten_ne = ground arith

abbrev erin_name : String
erin_name = "erin"

abbrev dave_name : String
dave_name = "dave"

erin_ne : erin_name ≢ dave_name
erin_ne = ground (arith, eq_iff erin_name dave_name)

delegate_withdraw_example :
    (s' : VoteStore) × ((add_delegation (pos 7) "erin" "dave" (coins 10)
          >> delegator_withdraw "erin" "dave" (coins 10))
        one_voter
      ≡ (ok tt, s'))
    × Moves "erin" "dave" (pos 0) one_voter s'
delegate_withdraw_example =
    delegate_withdraw (pos 7) "erin" "dave" (coins 10) one_voter dave erin_ne ten_ne at_dave

self_delegation_example :
    (s' s'' : VoteStore) × (w' w'' : Voter) × (add_delegation
        (pos 7)
        "dave"
        "dave"
        (coins 10)
        one_voter
      ≡ (ok tt, s'))
    × (s'.voters "dave" ≡ some w')
    × (delegation_amount "dave" "dave" s'
        ≡ delegation_amount "dave" "dave" one_voter +ℤ worth (coins 10))
    × (worth w'.delegated_power ≡ worth dave.delegated_power)
    × (worth w'.delegate_to_others ≡ worth dave.delegate_to_others +ℤ worth (coins 10))
    × (worth (power_of w') +ℤ worth (coins 10) ≡ worth (power_of dave))
    × (delegator_withdraw "dave" "dave" (coins 10) s' ≡ (ok tt, s''))
    × (s''.voters "dave" ≡ some w'')
    × (delegation_amount "dave" "dave" s'' ≡ delegation_amount "dave" "dave" one_voter)
    × (worth w''.delegated_power +ℤ worth (coins 10) ≡ worth dave.delegated_power)
    × (worth w''.delegate_to_others ≡ worth dave.delegate_to_others)
self_delegation_example = self_delegation (pos 7) "dave" (coins 10) one_voter dave at_dave ten_ne

abbrev dave_votes : List Vote
dave_votes = record { voter = "dave"; voting_power = coins 490; result = true } ∷ []

penalty_list_example :
    IsDistinct (get_penalty_list dave_votes change_param ("dave" ∷ "erin" ∷ []))
    × (get_penalty_list dave_votes protocol_upgrade ("dave" ∷ "erin" ∷ [])
        ≡ get_penalty_list dave_votes change_param ("dave" ∷ "erin" ∷ []))
    × (contains "erin" (get_penalty_list dave_votes change_param ("dave" ∷ "erin" ∷ []))
        ≡ (contains "erin" ("dave" ∷ "erin" ∷ []) && not (has_voted "erin" dave_votes)))
penalty_list_example = penalty_list_lem dave_votes ("dave" ∷ "erin" ∷ []) "erin" (refl, (refl, tt))

votes_once_example :
    (s' : VoteStore) × (vote : Vote) × (add_vote "1" "dave" true one_voter ≡ (ok tt, s'))
    × (s'.votes ("1", "dave") ≡ some vote)
    × (vote.result ≡ true)
    × (worth vote.voting_power +ℤ worth dave.delegate_to_others
        ≡ worth dave.lino_stake +ℤ worth dave.delegated_power)
    × (add_vote "1" "dave" false s' ≡ (err vote_already_exist, s'))
votes_once_example = votes_once "1" "dave" true false one_voter dave at_dave refl
