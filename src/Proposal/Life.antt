-- ===== src/Proposal/Life.antt =====
-- A proposal from the day it is made until its votes are counted.
use lino.Sdk.{Sdk}
use lino.Vote.Manager.{ProposalType, change_param, content_censorship, protocol_upgrade}
use lino.Prelude.{
  String, ◌≡◌, some, false, true, none, arith, Bool, ◌⊎◌, ◌∙◌, ap, subst, Bool-cases, sym, inr, inl,
  refl,
}
use lino.Proposal.Manager.{
  update_proposal_pass_status, add_proposal, increase_next_proposal_id, pass_param_of, format_int,
  decided, expire, new_proposal_info,
}
use lino.Proposal.Store.{
  ProposalParam, ProposalStore, Proposal, ProposalResult, ProposalInfo, proposal_not_pass,
  get_proposal_info, set_proposal_info, ProposalMethod, proposal_pass,
}
use lino.Proposal.Votes.{
  Ballots, agreed, disagreed, cast_all-AfterVotes, cast_all, info-set_proposal_info,
}
use lino.Types.Coin.{
  worth, is_gt, plus, is_gt_lem, new_coin_from_int64, worth-new_coin, worth-plus, Coin, coin_to_rat,
}
use lino.Prelude.Exec.{Result, ok, ◌>>=◌, ◌>>◌, continue}
use lino.Prelude.Int.{ℤ, pos, ltb_ℤ, ◌+ℤ◌, +ℤ_comm, +ℤ_zero}
use lino.Types.Errors.{Error}
use lino.Prelude.Int64.{add64}
use lino.Prelude.Table.{insert, string_key, get-insert_self, get-erase_self}

module _ ⦃sdk : Sdk⦄ where
  open sdk use {Rat, quo_rat, round_rat, lt_rat}

  -- The ratio and the number of votes that the parameters ask for, for each type.
  pub data Asks (param : ProposalParam) : ProposalType → Rat → Coin → Type 0 where
    asks_change_param :
        Asks param change_param param.change_param_pass_ratio param.change_param_pass_votes
    asks_content_censorship :
        Asks param content_censorship param.content_censorship_pass_ratio
          param.content_censorship_pass_votes
    asks_protocol_upgrade :
        Asks param protocol_upgrade param.protocol_upgrade_pass_ratio
          param.protocol_upgrade_pass_votes

  pass_param_of-Asks :
      (kind : ProposalType) (param : ProposalParam)
      → Asks param kind (pass_param_of kind param).0 (pass_param_of kind param).1
  pass_param_of-Asks change_param param = asks_change_param
  pass_param_of-Asks content_censorship param = asks_content_censorship
  pass_param_of-Asks protocol_upgrade param = asks_protocol_upgrade

  -- Whether the votes are more than `min`.
  abbrev pub is_enough : Coin → Ballots → Bool
  is_enough min ballots = ltb_ℤ (worth min) (agreed ballots +ℤ disagreed ballots)

  -- The votes that agree over all votes, rounded to 7 digits.
  abbrev pub share_of : ProposalInfo → Rat
  share_of info =
      round_rat
        (quo_rat (coin_to_rat info.agree_votes)
          (coin_to_rat (plus info.agree_votes info.disagree_votes)))
        (pos 10_000_000)

  -- The proposal passes if the share is above the ratio, and does not pass if it is not.
  abbrev pub IsResult : Rat → ProposalInfo → ProposalResult → Type 0
  IsResult ratio info result =
      ((lt_rat ratio (share_of info) ≡ true) × (result ≡ proposal_pass))
      ⊎ ((lt_rat ratio (share_of info) ≡ false) × (result ≡ proposal_not_pass))

  decided-IsResult : (ratio : Rat) (info : ProposalInfo) → IsResult ratio info (decided ratio info)
  decided-IsResult ratio info = elim (Bool-cases (lt_rat ratio (share_of info))) [
    | inl above ↦ inl (above, rw above refl)
    | inr below ↦ inr (below, rw below refl)
  ]

  zero_first : (z : ℤ) → pos 0 +ℤ z ≡ z
  zero_first z = +ℤ_comm (pos 0) z ∙ +ℤ_zero z

  module _ {Parameter : Type 0} where
    -- The proposal has its result and is no longer ongoing.
    abbrev pub IsDecided :
        Rat → String → Ballots → Result Error ProposalResult × ProposalStore Parameter → Type 0
    IsDecided ratio id ballots (r, s') =
        (info : ProposalInfo) × (q : Proposal Parameter) × (result : ProposalResult) × (worth
            info.agree_votes
          ≡ agreed ballots)
        × (worth info.disagree_votes ≡ disagreed ballots)
        × IsResult ratio info result
        × (r ≡ ok result)
        × (s'.ongoing id ≡ none)
        × (s'.expired id ≡ some q)
        × (get_proposal_info q ≡ record info { result = result })

    -- The proposal has not passed and is ongoing still.
    abbrev pub IsOpen :
        String → Ballots → Result Error ProposalResult × ProposalStore Parameter → Type 0
    IsOpen id ballots (r, s') =
        (r ≡ ok proposal_not_pass)
        × (q : Proposal Parameter) × (s'.ongoing id ≡ some q)
        × (worth (get_proposal_info q).agree_votes ≡ agreed ballots)
        × (worth (get_proposal_info q).disagree_votes ≡ disagreed ballots)

    too_few :
        (kind : ProposalType) (param : ProposalParam) (id : String) (s : ProposalStore Parameter)
        (p : Proposal Parameter)
        → s.ongoing id ≡ some p
        → s.proposal_param ≡ some param
        → is_gt
            (plus (get_proposal_info p).agree_votes (get_proposal_info p).disagree_votes)
            (pass_param_of kind param).1
          ≡ false
        → update_proposal_pass_status kind id s ≡ (ok proposal_not_pass, s)
    unfolding update_proposal_pass_status
    too_few kind param id s p e f few = ground arith

    enough :
        (kind : ProposalType) (param : ProposalParam) (id : String) (s : ProposalStore Parameter)
        (p : Proposal Parameter)
        → s.ongoing id ≡ some p
        → s.proposal_param ≡ some param
        → is_gt
            (plus (get_proposal_info p).agree_votes (get_proposal_info p).disagree_votes)
            (pass_param_of kind param).1
          ≡ true
        → update_proposal_pass_status kind id s
          ≡ expire id (decided (pass_param_of kind param).0 (get_proposal_info p)) p s
    unfolding update_proposal_pass_status
    enough kind param id s p e f many = ground arith

    added :
        (time : ℤ) (creator : String) (proposal : Proposal Parameter) (decide_sec n : ℤ)
        (s : ProposalStore Parameter)
        → s.next_proposal_id ≡ some n
        → let id = format_int n in
          add_proposal time creator proposal decide_sec s ≡ (
            ok id,
            record s {
              next_proposal_id = some (add64 n (pos 1));
              ongoing =
                  insert id
                    (set_proposal_info (new_proposal_info time creator decide_sec id) proposal)
                    s.ongoing;
            },
          )
    unfolding add_proposal increase_next_proposal_id
    added time creator proposal decide_sec n s e = ground arith

    -- What becomes of the proposal, by the votes.
    abbrev pub Outcome :
        ProposalType
        → ProposalParam
        → String
        → Ballots
        → Result Error ProposalResult × ProposalStore Parameter
        → Type 0
    Outcome kind param id ballots o =
        (ratio : Rat) × (min : Coin) × Asks param kind ratio min
        × (((is_enough min ballots ≡ false) × IsOpen id ballots o)
            ⊎ ((is_enough min ballots ≡ true) × IsDecided ratio id ballots o))

    closing :
        (kind : ProposalType) (param : ProposalParam) (id : String) (ballots : Ballots)
        (s : ProposalStore Parameter) (q : Proposal Parameter)
        → s.ongoing id ≡ some q
        → s.proposal_param ≡ some param
        → worth (get_proposal_info q).agree_votes ≡ agreed ballots
        → worth (get_proposal_info q).disagree_votes ≡ disagreed ballots
        → Outcome kind param id ballots (update_proposal_pass_status kind id s)
    closing kind param id ballots s q e f a d =
        let info = get_proposal_info q in
        let (ratio, min) = pass_param_of kind param in
        let result = decided ratio info in
        let more : is_gt (plus info.agree_votes info.disagree_votes) min ≡ is_enough min ballots =
          is_gt_lem (plus info.agree_votes info.disagree_votes) min
          ∙ ap (λ z. ltb_ℤ (worth min) z) (worth-plus info.agree_votes info.disagree_votes)
          ∙ ap (λ z. ltb_ℤ (worth min) (z +ℤ worth info.disagree_votes)) a
          ∙ ap (λ z. ltb_ℤ (worth min) (agreed ballots +ℤ z)) d in
        let ends : ((is_enough min ballots ≡ false)
              × IsOpen id ballots (update_proposal_pass_status kind id s))
            ⊎ ((is_enough min ballots ≡ true)
                × IsDecided ratio id ballots (update_proposal_pass_status kind id s)) =
          elim (Bool-cases (is_enough min ballots)) [
            | inr few ↦ inl (
              few,
              subst (IsOpen id ballots) (sym (too_few kind param id s q e f (more ∙ few)))
                  (refl, q, e, a, d),
            )
            | inl many ↦ inr (
              many,
              subst (IsDecided ratio id ballots) (sym (enough kind param id s q e f (more ∙ many)))
                  (
                    info,
                    set_proposal_info (record info { result = result }) q,
                    result,
                    a,
                    d,
                    decided-IsResult ratio info,
                    refl,
                    get-erase_self id s.ongoing,
                    get-insert_self id (set_proposal_info (record info { result = result }) q)
                        s.expired,
                    info-set_proposal_info (record info { result = result }) q,
                  ),
            )
          ] in
        (ratio, min, pass_param_of-Asks kind param, ends)

    -- The votes on an ongoing proposal, and the day of its decision.
    abbrev pub voted_and_decided :
        ProposalType → Ballots → String → ProposalMethod Parameter ProposalResult
    voted_and_decided kind ballots id = cast_all id ballots >> update_proposal_pass_status kind id

    decides :
        (kind : ProposalType) (param : ProposalParam) (id : String) (ballots : Ballots)
        (s : ProposalStore Parameter) (p : Proposal Parameter)
        → s.ongoing id ≡ some p
        → s.proposal_param ≡ some param
        → worth (get_proposal_info p).agree_votes ≡ pos 0
        → worth (get_proposal_info p).disagree_votes ≡ pos 0
        → Outcome kind param id ballots (voted_and_decided kind ballots id s)
    decides kind param id ballots s p e f a d =
        let (fine, q, there, (agree, disagree), expired, same) =
          cast_all-AfterVotes id ballots s p e in
        let s' = (cast_all id ballots s).1 in
        let runs : cast_all id ballots s ≡ (ok tt, s') = ap (λ r. (r, s')) fine in
        subst (Outcome kind param id ballots)
          (sym (ap (λ r. continue r.0 (λ _. update_proposal_pass_status kind id) r.1) runs))
          (closing kind param id ballots s' q there (same ∙ f)
            (agree ∙ ap (λ z. z +ℤ agreed ballots) a ∙ zero_first (agreed ballots))
            (disagree ∙ ap (λ z. z +ℤ disagreed ballots) d ∙ zero_first (disagreed ballots)))

    -- A proposal that is made, voted on and decided, with the next number and the parameters in the
    -- store: it gathers exactly the power of the votes for it and of the votes against it. With
    -- more votes than the parameters ask for its type, it leaves the ongoing proposals for the
    -- expired ones with its result: it passes if the share of the votes for it, rounded to 7
    -- digits, is above the ratio that they ask for its type, and does not pass if it is not. With
    -- no more votes than that, it has not passed, and stays ongoing.
    pub add_vote_decide :
        (time : ℤ) (creator : String) (proposal : Proposal Parameter) (decide_sec n : ℤ)
        (kind : ProposalType) (param : ProposalParam) (ballots : Ballots)
        (s : ProposalStore Parameter)
        → s.next_proposal_id ≡ some n
        → s.proposal_param ≡ some param
        → let o =
            (add_proposal time creator proposal decide_sec >>= voted_and_decided kind ballots) s in
          (ratio : Rat) × (min : Coin) × Asks param kind ratio min
          × (((is_enough min ballots ≡ false) × IsOpen (format_int n) ballots o)
              ⊎ ((is_enough min ballots ≡ true) × IsDecided ratio (format_int n) ballots o))
    add_vote_decide time creator proposal decide_sec n kind param ballots s e f =
        let id = format_int n in
        let made = set_proposal_info (new_proposal_info time creator decide_sec id) proposal in
        let s₁ = record s {
          next_proposal_id = some (add64 n (pos 1));
          ongoing = insert id made s.ongoing;
        } in
        let zero_votes : worth (new_coin_from_int64 (pos 0)) ≡ pos 0 = worth-new_coin (pos 0) in
        let is_new =
          info-set_proposal_info (new_proposal_info time creator decide_sec id) proposal in
        subst (Outcome kind param id ballots)
          (sym (
            ap (λ r. continue r.0 (voted_and_decided kind ballots) r.1)
              (added time creator proposal decide_sec n s e)))
          (decides kind param id ballots s₁ made (get-insert_self id made s.ongoing) f
            (ap (λ i. worth i.agree_votes) is_new ∙ zero_votes)
            (ap (λ i. worth i.disagree_votes) is_new ∙ zero_votes))
