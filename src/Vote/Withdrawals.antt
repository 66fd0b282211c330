-- ===== src/Vote/Withdrawals.antt =====
-- What `DelegatorWithdraw` does, and that it undoes a delegation.
use lino.Sdk.{Sdk}
use lino.Types.Coin.{Coin, minus, is_zero, worth, is_zero_lem, worth-minus, plus}
use lino.Prelude.{
  String, if◌then◌else◌, ◌≢◌, ◌≡◌, some, false, arith, Bool-cases, inl, eq_iff, inr, ◌∙◌, subst,
  sym, ap,
}
use lino.Vote.Manager.{delegator_withdraw, add_delegation}
use lino.Vote.Store.{Voter, Delegation, VoteStore}
use lino.Prelude.Table.{
  insert, string_key, erase, get-insert, get-erase_self, get-insert_ne, get-insert_self, pair_key,
  int_key,
}
use lino.Prelude.Int.{pos, ◌+ℤ◌, ◌-ℤ◌, int_laws, eq_ℤ_iff, ℤ, +ℤ_assoc}
use lino.Vote.Delegations.{
  delegation_amount, Moves, with_delegation, added, granted, old_amount, lent, add_delegation-added,
  delegated, to_others,
}
use lino.Prelude.Exec.{ok, ◌>>◌}

module _ ⦃sdk : Sdk⦄ where
  abbrev pub revoked : Coin → Voter → Voter
  revoked coin w = record w { delegated_power = minus w.delegated_power coin }

  abbrev pub returned : Coin → Voter → Voter
  returned coin e = record e { delegate_to_others = minus e.delegate_to_others coin }

  -- The delegation less the amount: deleted when nothing is left.
  abbrev pub reduced : String → String → Coin → Delegation → VoteStore → VoteStore
  reduced v d coin x s =
      if is_zero (minus x.amount coin)
      then record s {
        delegations = erase (v, d) s.delegations;
        delegatees = erase (d, v) s.delegatees;
      }
      else with_delegation v d (record x { amount = minus x.amount coin }) s

  abbrev withdrawn : String → String → Coin → Voter → Voter → Delegation → VoteStore → VoteStore
  withdrawn v d coin w e x s = record (reduced v d coin x s) {
    voters = insert d (returned coin e) (insert v (revoked coin w) s.voters);
  }

  withdraw_present :
      (v d : String) (coin : Coin) (s : VoteStore) (w e : Voter) (x : Delegation)
      → v ≢ d
      → worth coin ≢ pos 0
      → s.voters v ≡ some w
      → s.voters d ≡ some e
      → s.delegations (v, d) ≡ some x
      → delegator_withdraw v d coin s ≡ (ok tt, withdrawn v d coin w e x s)
  unfolding delegator_withdraw
  withdraw_present v d coin s w e x apart nonzero ew ee ex =
      let positive : is_zero coin ≡ false =
        ground (arith, is_zero_lem coin, eq_ℤ_iff (worth coin) (pos 0)) in
      ground (arith, get-insert_ne v (revoked coin w) s.voters d apart)

  pub amount-reduced :
      (v d : String) (coin : Coin) (x : Delegation) (s : VoteStore)
      → s.delegations (v, d) ≡ some x
      → delegation_amount v d (reduced v d coin x s)
        ≡ delegation_amount v d s +ℤ (pos 0 -ℤ worth coin)
  amount-reduced v d coin x s ex = elim (Bool-cases (is_zero (minus x.amount coin))) [
    | inl gone ↦ grind (
      int_laws,
      gone,
      ex,
      get-erase_self (v, d) s.delegations,
      is_zero_lem (minus x.amount coin),
      worth-minus x.amount coin,
      eq_ℤ_iff (worth (minus x.amount coin)) (pos 0),
    )
    | inr left ↦ grind (
      int_laws,
      left,
      ex,
      get-insert_self (v, d) (record x { amount = minus x.amount coin }) s.delegations,
      worth-minus x.amount coin,
    )
  ]

  -- Withdrawing an amount other than zero from a delegation to another user succeeds when both are
  -- voters and the delegation exists. The delegation, the voter's delegated power and what the
  -- delegator has delegated each fall by the amount; stakes and other voters stay as they are.
  delegator_withdraw_lem :
      (v d : String) (coin : Coin) (s : VoteStore) (w e : Voter) (x : Delegation)
      → v ≢ d
      → worth coin ≢ pos 0
      → s.voters v ≡ some w
      → s.voters d ≡ some e
      → s.delegations (v, d) ≡ some x
      → (s' : VoteStore) × (delegator_withdraw v d coin s ≡ (ok tt, s'))
        × Moves v d (pos 0 -ℤ worth coin) s s'
  delegator_withdraw_lem v d coin s w e x apart nonzero ew ee ex =
      let t = insert v (revoked coin w) s.voters in
      let at = λ (j : String). get-insert d (returned coin e) t j in
      let at' = λ (j : String). get-insert v (revoked coin w) s.voters j in
      (
        withdrawn v d coin w e x s,
        withdraw_present v d coin s w e x apart nonzero ew ee ex,
        record {
          delegation = amount-reduced v d coin x s ex;
          voter = grind (
            int_laws,
            at v,
            at' v,
            eq_iff v v,
            eq_iff d v,
            worth-minus w.delegated_power coin,
            ew,
          );
          delegator = grind (int_laws, at d, eq_iff d d, worth-minus e.delegate_to_others coin, ee);
          voter_to_others = ground (arith, at v, at' v, eq_iff v v, eq_iff d v, ew);
          delegator_power = ground (arith, at d, at' d, eq_iff v d, eq_iff d d, ee);
          stakes = λ j. ground (arith, at j, at' j, eq_iff v j, eq_iff d j, ee, ew);
          others = λ j. ground (arith, at j, at' j, eq_iff v j, eq_iff d j);
        },
      )

  sum_trans : (x y z a b : ℤ) → y ≡ x +ℤ a → z ≡ y +ℤ b → z ≡ x +ℤ (a +ℤ b)
  sum_trans x y z a b h k = k ∙ ap (λ t. t +ℤ b) h ∙ +ℤ_assoc x a b

  Moves-trans :
      (v d : String) (a b : ℤ) (s t u : VoteStore)
      → Moves v d a s t
      → Moves v d b t u
      → Moves v d (a +ℤ b) s u
  Moves-trans v d a b s t u m n = record {
    delegation =
        sum_trans (delegation_amount v d s) (delegation_amount v d t) (delegation_amount v d u) a b
          m.delegation n.delegation;
    voter = sum_trans (delegated v s) (delegated v t) (delegated v u) a b m.voter n.voter;
    delegator =
        sum_trans (to_others d s) (to_others d t) (to_others d u) a b m.delegator n.delegator;
    voter_to_others = n.voter_to_others ∙ m.voter_to_others;
    delegator_power = n.delegator_power ∙ m.delegator_power;
    stakes = λ j. n.stakes j ∙ m.stakes j;
    others = λ j. ground (arith, m.others j, n.others j);
  }

  undone : (a : ℤ) → a +ℤ (pos 0 -ℤ a) ≡ pos 0
  undone a = grind int_laws

  withdraw_added :
      (v d : String) (coin : Coin) (s : VoteStore) (w e : Voter)
      → v ≢ d
      → worth coin ≢ pos 0
      → (s' : VoteStore) × (delegator_withdraw v d coin (added v d coin w e s) ≡ (ok tt, s'))
        × Moves v d (pos 0 -ℤ worth coin) (added v d coin w e s) s'
  withdraw_added v d coin s w e apart nonzero =
      let t = insert v (granted coin w) s.voters in
      let old = old_amount v d s in
      delegator_withdraw_lem v d coin (added v d coin w e s) (granted coin w) (lent coin e)
        (record old { amount = plus old.amount coin }) apart nonzero
        (ground (
          arith,
          get-insert d (lent coin e) t v,
          get-insert v (granted coin w) s.voters v,
          eq_iff v v,
          eq_iff d v,
        ))
        (get-insert_self d (lent coin e) t)
        (get-insert_self (v, d) (record old { amount = plus old.amount coin }) s.delegations)

  -- For a delegator that is a voter on record: to delegate an amount other than zero to another user
  -- and withdraw it again succeeds, and leaves the worth of the delegation, of what each of the two has
  -- been delegated and has delegated, every stake and every other voter as they were.
  pub delegate_withdraw :
      (time : ℤ) (v d : String) (coin : Coin) (s : VoteStore) (e : Voter)
      → v ≢ d
      → worth coin ≢ pos 0
      → s.voters d ≡ some e
      → (s' : VoteStore) × ((add_delegation time v d coin >> delegator_withdraw v d coin) s
          ≡ (ok tt, s'))
        × Moves v d (pos 0) s s'
  delegate_withdraw time v d coin s e apart nonzero ee =
      let (s₁, w₁, e₁, base, done, is_added, moves) =
        add_delegation-added time v d coin s e apart ee in
      let (s₂, undo, back) = withdraw_added v d coin base w₁ e₁ apart nonzero in
      (
        s₂,
        rw (done, is_added) undo,
        subst (λ by. Moves v d by s s₂) (undone (worth coin))
            (Moves-trans v d (worth coin) (pos 0 -ℤ worth coin) s s₁ s₂ moves
              (subst (λ t. Moves v d (pos 0 -ℤ worth coin) t s₂) (sym is_added) back)),
      )
