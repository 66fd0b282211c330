-- ===== src/Vote/Manager.antt =====
-- x/vote/manager.go: stakes, delegations, interest, votes and the list of those who did not vote. The
-- time of the block, which the context carries, is an argument.
use lino.Sdk.{Sdk}
use lino.Prelude.{String, List, ◌∷◌, Bool, [], if◌then◌else◌, none, false, not, some, ◌&&◌}
use lino.Types.Coin.{Coin, minus, plus, is_zero, is_gte, is_positive, zero_coin}
use lino.Vote.Store.{
  Voter, VoteStore, VoteMethod, Vote, set_voter, Delegation, get_voter, does_vote_exist,
  does_delegation_exist, does_voter_exist, set_delegation, set_vote, get_delegation,
  delete_delegation,
}
use lino.Prelude.Int.{ℤ}
use lino.Prelude.Exec.{◌>>=◌, ◌>>◌, pure, err, raise, ok}
use lino.Types.Accounts.{is_in_list, remove_first}
use lino.Types.Errors.{vote_already_exist, invalid_coin}

-- `types.ProposalType`
pub data ProposalType : Type 0 where
  change_param content_censorship protocol_upgrade : ProposalType

module _ ⦃sdk : Sdk⦄ where
  unfoldable pub is_in_validator_list : String → VoteStore → Bool
  is_in_validator_list username s = elim s.reference_list [
    | none ↦ false
    | some validators ↦ is_in_list username validators
  ]

  unfoldable pub is_legal_voter_withdraw : String → Coin → VoteStore → Bool
  is_legal_voter_withdraw username coin s = elim (s.voters username) [
    | none ↦ false
    | some voter ↦
        if is_in_validator_list username s
        then false
        else is_gte (minus voter.lino_stake voter.delegate_to_others) coin && is_positive coin
  ]

  unfoldable pub is_legal_delegator_withdraw : String → String → Coin → VoteStore → Bool
  is_legal_delegator_withdraw voter_name delegator_name coin s =
      elim (s.delegations (voter_name, delegator_name)) [
        | none ↦ false
        | some delegation ↦ is_gte delegation.amount coin && is_positive coin
      ]

  unfoldable pub can_become_validator : String → VoteStore → Bool
  can_become_validator username s = elim (s.voters username) [
    | none ↦ false
    | some voter ↦ elim s.validator_min_voting_deposit [
      | none ↦ false
      | some deposit ↦ is_gte voter.lino_stake deposit
    ]
  ]

  abbrev pub power_of : Voter → Coin
  power_of voter = minus (plus voter.lino_stake voter.delegated_power) voter.delegate_to_others

  unfoldable pub get_voting_power : String → VoteMethod Coin
  get_voting_power voter_name = do voter ← get_voter voter_name; pure (power_of voter)

  unfoldable pub add_vote : String → String → Bool → VoteMethod Unit
  add_vote proposal voter res s =
      if does_vote_exist proposal voter s
      then (err vote_already_exist, s)
      else (get_voting_power voter >>= λ power.
            set_vote proposal voter (record { voter = voter; voting_power = power; result = res }))
          s

  -- The amounts that the literal leaves out are stored as zero: a coin without an amount marshals to 0.
  abbrev pub fresh_voter : ℤ → String → Coin → Voter
  fresh_voter time username coin = record {
    username = username;
    lino_stake = coin;
    delegated_power = zero_coin;
    delegate_to_others = zero_coin;
    last_power_change_at = time;
    interest = zero_coin;
  }

  unfoldable pub add_voter : ℤ → String → Coin → VoteMethod Unit
  add_voter time username coin = set_voter username (fresh_voter time username coin)

  -- The delegation that `AddDelegation` starts from.
  abbrev pub old_delegation : String → String → VoteMethod Delegation
  old_delegation voter_name delegator_name s =
      if not (does_delegation_exist voter_name delegator_name s)
      then (ok (record { delegator = delegator_name; amount = zero_coin }), s)
      else get_delegation voter_name delegator_name s

  -- Adds a voter if there is none.
  abbrev pub ensure_voter : ℤ → String → VoteMethod Unit
  ensure_voter time voter_name s =
      if not (does_voter_exist voter_name s)
      then add_voter time voter_name zero_coin s
      else (ok tt, s)

  unfoldable pub add_delegation : ℤ → String → String → Coin → VoteMethod Unit
  add_delegation time voter_name delegator_name coin = do
    delegation ← old_delegation voter_name delegator_name
    ensure_voter time voter_name
    voter ← get_voter voter_name
    delegator ← get_voter delegator_name
    set_delegation voter_name delegator_name
        (record delegation { amount = plus delegation.amount coin })
    set_voter voter_name (record voter { delegated_power = plus voter.delegated_power coin })
    set_voter delegator_name
        (record delegator { delegate_to_others = plus delegator.delegate_to_others coin })

  unfoldable pub add_lino_stake : ℤ → String → Coin → VoteMethod Unit
  add_lino_stake time username coin = do
    voter ← get_voter username
    set_voter username
        (record voter { lino_stake = plus voter.lino_stake coin; last_power_change_at = time })

  unfoldable pub minus_lino_stake : ℤ → String → Coin → VoteMethod Unit
  minus_lino_stake time username coin = if is_zero coin then raise invalid_coin else do
    voter ← get_voter username
    set_voter username
        (record voter { lino_stake = minus voter.lino_stake coin; last_power_change_at = time })

  unfoldable pub delegator_withdraw : String → String → Coin → VoteMethod Unit
  delegator_withdraw voter_name delegator_name coin =
      if is_zero coin then raise invalid_coin else do
        voter ← get_voter voter_name
        set_voter voter_name (record voter { delegated_power = minus voter.delegated_power coin })
        delegator ← get_voter delegator_name
        set_voter delegator_name
            (record delegator { delegate_to_others = minus delegator.delegate_to_others coin })
        delegation ← get_delegation voter_name delegator_name
        let left = minus delegation.amount coin
        if is_zero left
            then delete_delegation voter_name delegator_name
            else set_delegation voter_name delegator_name (record delegation { amount = left })

  unfoldable pub claim_interest : String → VoteMethod Coin
  claim_interest username = do
    voter ← get_voter username
    set_voter username (record voter { interest = zero_coin })
    pure voter.interest

  unfoldable pub add_interest : String → Coin → VoteMethod Unit
  add_interest username interest = do
    voter ← get_voter username
    set_voter username (record voter { interest = plus voter.interest interest })

  unfoldable pub set_lino_stake_last_changed_at : String → ℤ → VoteMethod Unit
  set_lino_stake_last_changed_at acc_key last_changed_at = do
    voter ← get_voter acc_key
    set_voter acc_key (record voter { last_power_change_at = last_changed_at })

  -- `GetPenaltyList`, given the votes that the iteration over the store finds for the proposal.
  unfoldable pub without_voters : List Vote → List String → List String
  without_voters [] oncall = oncall
  without_voters (vote ∷ votes) oncall = without_voters votes (remove_first vote.voter oncall)

  unfoldable pub get_penalty_list : List Vote → ProposalType → List String → List String
  get_penalty_list votes change_param oncall = without_voters votes oncall
  get_penalty_list votes protocol_upgrade oncall = without_voters votes oncall
  get_penalty_list votes content_censorship oncall = []
