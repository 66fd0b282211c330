-- ===== src/Vote/Voting.antt =====
-- Votes on proposals: each voter votes once, and the oncall validators who did not vote are found.
use lino.Sdk.{Sdk}
use lino.Vote.Manager.{
  get_penalty_list, add_vote, without_voters, get_voting_power, change_param, protocol_upgrade,
  power_of,
}
use lino.Prelude.{
  String, List, str_eq, Bool, false, ◌≡◌, ◌∷◌, arith, some, ◌||◌, ◌&&◌, eq_iff, not, none, [], ◌∙◌,
  refl,
}
use lino.Types.Accounts.{
  IsDistinct, contains, remove_first, remove_first-IsDistinct, contains-remove_first_ne,
}
use lino.Vote.Store.{Vote, VoteStore, Voter}
use lino.Prelude.Exec.{ok, err}
use lino.Types.Coin.{worth, worth-plus, worth-minus, plus}
use lino.Prelude.Int.{◌+ℤ◌, int_laws}
use lino.Types.Errors.{vote_already_exist}
use lino.Prelude.Table.{insert, get-insert_self, pair_key, string_key, int_key}

module _ ⦃sdk : Sdk⦄ where
  -- Is there a vote by `j`?
  abbrev pub has_voted : String → List Vote → Bool
  has_voted j [] = false
  has_voted j (vote ∷ votes) = str_eq vote.voter j || has_voted j votes

  -- For oncall validators that are distinct, and for a change of parameters or a protocol upgrade: the
  -- penalty list names exactly the oncall validators with no vote on the proposal, each once.
  pub penalty_list_lem :
      (votes : List Vote) (oncall : List String) (j : String)
      → IsDistinct oncall
      → IsDistinct (get_penalty_list votes change_param oncall)
        × (get_penalty_list votes protocol_upgrade oncall
            ≡ get_penalty_list votes change_param oncall)
        × (contains j (get_penalty_list votes change_param oncall)
            ≡ (contains j oncall && not (has_voted j votes)))
  unfolding get_penalty_list without_voters
  penalty_list_lem [] oncall j h = (h, refl, ground arith)
  penalty_list_lem (vote ∷ votes) oncall j h =
      let less = remove_first-IsDistinct vote.voter oncall h in
      let ih = penalty_list_lem votes (remove_first vote.voter oncall) j less.0 in
      (
        ih.0,
        refl,
        ih.2
            ∙ ground
                (arith, less.1, contains-remove_first_ne j vote.voter oncall, eq_iff vote.voter j),
      )

  -- A first vote of a voter on a proposal succeeds, and records the choice with the voter's power at
  -- that time; a second one, whatever it says, is refused and changes nothing.
  pub votes_once :
      (proposal voter : String) (first second : Bool) (s : VoteStore) (w : Voter)
      → s.voters voter ≡ some w
      → s.votes (proposal, voter) ≡ none
      → (s' : VoteStore) × (vote : Vote) × (add_vote proposal voter first s ≡ (ok tt, s'))
        × (s'.votes (proposal, voter) ≡ some vote)
        × (vote.result ≡ first)
        × (worth vote.voting_power +ℤ worth w.delegate_to_others
            ≡ worth w.lino_stake +ℤ worth w.delegated_power)
        × (add_vote proposal voter second s' ≡ (err vote_already_exist, s'))
  unfolding add_vote get_voting_power
  votes_once proposal voter first second s w ew missing =
      let vote : Vote = record { voter = voter; voting_power = power_of w; result = first } in
      let s' = record s { votes = insert (proposal, voter) vote s.votes } in
      let at = get-insert_self (proposal, voter) vote s.votes in
      (
        s',
        vote,
        ground arith,
        at,
        refl,
        grind (
          int_laws,
          worth-plus w.lino_stake w.delegated_power,
          worth-minus (plus w.lino_stake w.delegated_power) w.delegate_to_others,
        ),
        ground (arith, at),
      )
