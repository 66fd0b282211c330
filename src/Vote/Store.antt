-- ===== src/Vote/Store.antt =====
-- x/vote/model: voters, votes, delegations and the reference list of validators, and the store that
-- holds them. A delegation stands under two keys: the voter's and the delegator's.
use lino.Sdk.{Sdk}
use lino.Prelude.{String, Option, Bool, none, List, some, []}
use lino.Prelude.Table.{Table, has, insert, erase, string_key, pair_key, int_key}
use lino.Prelude.Exec.{Exec, ok, err}
use lino.Types.Coin.{Coin}
use lino.Types.Errors.{
  Error, voter_not_found, vote_not_found, delegation_not_found, reference_list_not_found,
}
use lino.Prelude.Int.{ℤ}

module _ ⦃sdk : Sdk⦄ where
  pub record Voter : Type 0 where
    pub username : String
    pub lino_stake : Coin
    pub delegated_power : Coin
    pub delegate_to_others : Coin
    pub last_power_change_at : ℤ
    pub interest : Coin

  pub record Vote : Type 0 where
    pub voter : String
    pub voting_power : Coin
    pub result : Bool

  pub record Delegation : Type 0 where
    pub delegator : String
    pub amount : Coin

  -- `delegations` is keyed by the voter and the delegator, `delegatees` by the delegator and the voter,
  -- `votes` by the proposal and the voter.
  pub record VoteStore : Type 0 where
    pub voters : Table String Voter
    pub votes : Table (String × String) Vote
    pub delegations : Table (String × String) Delegation
    pub delegatees : Table (String × String) Delegation
    pub reference_list : Option (List String)
    pub validator_min_voting_deposit : Option Coin

  abbrev pub VoteMethod : Type 0 → Type 0
  VoteMethod A = Exec Error VoteStore A

  abbrev pub does_voter_exist : String → VoteStore → Bool
  does_voter_exist acc_key s = has acc_key s.voters

  abbrev pub does_vote_exist : String → String → VoteStore → Bool
  does_vote_exist proposal voter s = has (proposal, voter) s.votes

  abbrev pub does_delegation_exist : String → String → VoteStore → Bool
  does_delegation_exist voter delegator s = has (voter, delegator) s.delegations

  abbrev pub get_voter : String → VoteMethod Voter
  get_voter acc_key s = elim (s.voters acc_key) [
    | none ↦ (err voter_not_found, s)
    | some voter ↦ (ok voter, s)
  ]

  abbrev pub set_voter : String → Voter → VoteMethod Unit
  set_voter acc_key voter s = (ok tt, record s { voters = insert acc_key voter s.voters })

  abbrev pub set_vote : String → String → Vote → VoteMethod Unit
  set_vote proposal voter vote s =
      (ok tt, record s { votes = insert (proposal, voter) vote s.votes })

  abbrev pub get_vote : String → String → VoteMethod Vote
  get_vote proposal voter s = elim (s.votes (proposal, voter)) [
    | none ↦ (err vote_not_found, s)
    | some vote ↦ (ok vote, s)
  ]

  abbrev pub get_delegation : String → String → VoteMethod Delegation
  get_delegation voter delegator s = elim (s.delegations (voter, delegator)) [
    | none ↦ (err delegation_not_found, s)
    | some delegation ↦ (ok delegation, s)
  ]

  abbrev pub set_delegation : String → String → Delegation → VoteMethod Unit
  set_delegation voter delegator delegation s = (
    ok tt,
    record s {
      delegations = insert (voter, delegator) delegation s.delegations;
      delegatees = insert (delegator, voter) delegation s.delegatees;
    },
  )

  abbrev pub delete_delegation : String → String → VoteMethod Unit
  delete_delegation voter delegator s = (
    ok tt,
    record s {
      delegations = erase (voter, delegator) s.delegations;
      delegatees = erase (delegator, voter) s.delegatees;
    },
  )

  unfoldable pub delete_voter : String → VoteMethod Unit
  delete_voter username s = (ok tt, record s { voters = erase username s.voters })

  unfoldable pub delete_vote : String → String → VoteMethod Unit
  delete_vote proposal voter s = (ok tt, record s { votes = erase (proposal, voter) s.votes })

  abbrev pub get_reference_list : VoteMethod (List String)
  get_reference_list s = elim s.reference_list [
    | none ↦ (err reference_list_not_found, s)
    | some lst ↦ (ok lst, s)
  ]

  abbrev pub set_reference_list : List String → VoteMethod Unit
  set_reference_list lst s = (ok tt, record s { reference_list = some lst })

  unfoldable pub init_genesis : VoteMethod Unit
  init_genesis = set_reference_list []
