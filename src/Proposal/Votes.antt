-- ===== src/Proposal/Votes.antt =====
-- The life of a proposal: it is made, votes are cast, and the votes are counted.
use lino.Sdk.{Sdk}
use lino.Prelude.{
  List, String, Bool, ◌≡◌, some, ◌∷◌, if◌then◌else◌, ◌∙◌, ap, arith, subst, [], sym, true, false,
  refl,
}
use lino.Prelude.Int.{ℤ, ◌+ℤ◌, pos, +ℤ_assoc, +ℤ_zero}
use lino.Proposal.Store.{
  ProposalInfo, Proposal, ProposalMethod, ProposalStore, get_proposal_info, set_proposal_info,
  changes_param, censors_content, upgrades_protocol,
}
use lino.Proposal.Manager.{update_proposal_voting_status, with_vote}
use lino.Types.Coin.{worth, Coin, worth-plus}
use lino.Prelude.Exec.{pure, Result, ok, ◌>>◌, ok-then}
use lino.Types.Errors.{Error}
use lino.Prelude.Table.{insert, string_key, get-insert_self}

module _ ⦃sdk : Sdk⦄ where
  -- The votes with their voting power, in the order in which they are cast.
  abbrev pub Ballots : Type 0
  Ballots = List (Bool × Coin)

  abbrev pub agreed : Ballots → ℤ
  agreed [] = pos 0
  agreed ((agrees, power) ∷ ballots) =
      if agrees then worth power +ℤ agreed ballots else agreed ballots

  abbrev pub disagreed : Ballots → ℤ
  disagreed [] = pos 0
  disagreed ((agrees, power) ∷ ballots) =
      if agrees then disagreed ballots else worth power +ℤ disagreed ballots

  -- The votes are added to what the proposal has.
  abbrev pub Tallied : Ballots → ProposalInfo → ProposalInfo → Type 0
  Tallied ballots before after =
      (worth after.agree_votes ≡ worth before.agree_votes +ℤ agreed ballots)
      × (worth after.disagree_votes ≡ worth before.disagree_votes +ℤ disagreed ballots)

  first_ballot :
      (agrees : Bool) (power : Coin) (ballots : Ballots) (before after : ProposalInfo)
      → Tallied ballots (with_vote agrees power before) after
      → Tallied ((agrees, power) ∷ ballots) before after
  first_ballot true power ballots before after (a, d) = (
    a
        ∙ ap (λ z. z +ℤ agreed ballots) (worth-plus before.agree_votes power)
        ∙ +ℤ_assoc (worth before.agree_votes) (worth power) (agreed ballots),
    d,
  )
  first_ballot false power ballots before after (a, d) = (
    a,
    d
        ∙ ap (λ z. z +ℤ disagreed ballots) (worth-plus before.disagree_votes power)
        ∙ +ℤ_assoc (worth before.disagree_votes) (worth power) (disagreed ballots),
  )

  module _ {Parameter : Type 0} where
    pub info-set_proposal_info :
        (info : ProposalInfo) (p : Proposal Parameter)
        → get_proposal_info (set_proposal_info info p) ≡ info
    info-set_proposal_info info (changes_param p) = refl
    info-set_proposal_info info (censors_content p) = refl
    info-set_proposal_info info (upgrades_protocol p) = refl

    abbrev pub cast_all : String → Ballots → ProposalMethod Parameter Unit
    cast_all id [] = pure tt
    cast_all id ((agrees, power) ∷ ballots) =
        update_proposal_voting_status id agrees power >> cast_all id ballots

    vote_runs :
        (id : String) (agrees : Bool) (power : Coin) (s : ProposalStore Parameter)
        (p : Proposal Parameter)
        → s.ongoing id ≡ some p
        → update_proposal_voting_status id agrees power s ≡ (
          ok tt,
          record s {
            ongoing =
                insert id
                  (set_proposal_info (with_vote agrees power (get_proposal_info p)) p)
                  s.ongoing;
          },
        )
    unfolding update_proposal_voting_status
    vote_runs id agrees power s p e = ground arith

    -- After the votes, `q` is the ongoing proposal, and all else is as it was.
    abbrev pub AfterVotes :
        String
        → Ballots
        → Proposal Parameter
        → ProposalStore Parameter
        → Result Error Unit × ProposalStore Parameter
        → Type 0
    AfterVotes id ballots p s (r, s') =
        (r ≡ ok tt)
        × (q : Proposal Parameter) × (s'.ongoing id ≡ some q)
        × Tallied ballots (get_proposal_info p) (get_proposal_info q)
        × (s'.expired ≡ s.expired)
        × (s'.proposal_param ≡ s.proposal_param)

    pub cast_all-AfterVotes :
        (id : String) (ballots : Ballots) (s : ProposalStore Parameter) (p : Proposal Parameter)
        → s.ongoing id ≡ some p
        → AfterVotes id ballots p s (cast_all id ballots s)
    cast_all-AfterVotes id [] s p e = (refl, p, e, (sym (+ℤ_zero _), sym (+ℤ_zero _)), refl, refl)
    cast_all-AfterVotes id ((agrees, power) ∷ ballots) s p e =
        let new = set_proposal_info (with_vote agrees power (get_proposal_info p)) p in
        let s₁ = record s { ongoing = insert id new s.ongoing } in
        let (fine, q, there, tally, expired, param) =
          cast_all-AfterVotes id ballots s₁ new (get-insert_self id new s.ongoing) in
        subst (AfterVotes id ((agrees, power) ∷ ballots) p s)
          (sym (
            ok-then (update_proposal_voting_status id agrees power) (cast_all id ballots) s s₁
              (vote_runs id agrees power s p e)))
          (
            fine,
            q,
            there,
            first_ballot agrees power ballots (get_proposal_info p) (get_proposal_info q) (
                subst (λ info. Tallied ballots info (get_proposal_info q))
                  (info-set_proposal_info (with_vote agrees power (get_proposal_info p)) p) tally),
            expired,
            param,
          )
