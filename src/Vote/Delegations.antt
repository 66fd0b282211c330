-- ===== src/Vote/Delegations.antt =====
-- What `AddDelegation` and `DelegatorWithdraw` do to the voter, to the delegator and to the
-- delegation.
use lino.Sdk.{Sdk}
use lino.Prelude.{
  refl, String, ◌≡◌, none, some, arith, ◌≢◌, eq_iff, Option-cases, ◌⊎◌, inl, inr, ◌∙◌,
}
use lino.Types.Coin.{Coin, plus, worth, worth-plus, worth-new_coin, zero_coin}
use lino.Vote.Manager.{add_delegation, add_voter, old_delegation, fresh_voter}
use lino.Vote.Store.{VoteStore, Delegation, Voter}
use lino.Prelude.Int.{ℤ, pos, ◌+ℤ◌, int_laws}
use lino.Prelude.Table.{insert, string_key, pair_key, int_key, get-insert_self, get-insert}
use lino.Prelude.Exec.{ok}

module _ ⦃sdk : Sdk⦄ where
  -- The worth of what a voter has been delegated, has delegated, and of one delegation; zero for what
  -- is not on record.
  abbrev pub delegated : String → VoteStore → ℤ
  delegated j s = elim (s.voters j) [ none ↦ pos 0 | some w ↦ worth w.delegated_power ]

  abbrev pub to_others : String → VoteStore → ℤ
  to_others j s = elim (s.voters j) [ none ↦ pos 0 | some w ↦ worth w.delegate_to_others ]

  abbrev pub stake : String → VoteStore → ℤ
  stake j s = elim (s.voters j) [ none ↦ pos 0 | some w ↦ worth w.lino_stake ]

  abbrev pub delegation_amount : String → String → VoteStore → ℤ
  delegation_amount v d s = elim (s.delegations (v, d)) [ none ↦ pos 0 | some x ↦ worth x.amount ]

  abbrev pub new_delegation : String → Delegation
  new_delegation d = record { delegator = d; amount = zero_coin }

  abbrev pub old_amount : String → String → VoteStore → Delegation
  old_amount v d s = elim (s.delegations (v, d)) [ none ↦ new_delegation d | some x ↦ x ]

  -- The records after `AddDelegation`.
  abbrev pub granted : Coin → Voter → Voter
  granted coin w = record w { delegated_power = plus w.delegated_power coin }

  abbrev pub lent : Coin → Voter → Voter
  lent coin e = record e { delegate_to_others = plus e.delegate_to_others coin }

  abbrev pub with_delegation : String → String → Delegation → VoteStore → VoteStore
  with_delegation v d x s = record s {
    delegations = insert (v, d) x s.delegations;
    delegatees = insert (d, v) x s.delegatees;
  }

  abbrev pub added : String → String → Coin → Voter → Voter → VoteStore → VoteStore
  added v d coin w e s =
      let old = old_amount v d s in
      record (with_delegation v d (record old { amount = plus old.amount coin }) s) {
        voters = insert d (lent coin e) (insert v (granted coin w) s.voters);
      }

  old_delegation_lem :
      (v d : String) (s : VoteStore) → old_delegation v d s ≡ (ok (old_amount v d s), s)
  old_delegation_lem v d s = ground arith

  pub add_present :
      (time : ℤ) (v d : String) (coin : Coin) (s : VoteStore) (w e : Voter)
      → s.voters v ≡ some w
      → s.voters d ≡ some e
      → add_delegation time v d coin s ≡ (ok tt, added v d coin w e s)
  unfolding add_delegation
  add_present time v d coin s w e ew ee = ground arith

  add_absent :
      (time : ℤ) (v d : String) (coin : Coin) (s : VoteStore)
      → s.voters v ≡ none
      → add_delegation time v d coin s
        ≡ add_delegation time v d coin
            (record s { voters = insert v (fresh_voter time v zero_coin) s.voters })
  unfolding add_delegation add_voter
  add_absent time v d coin s missing =
      ground (arith, get-insert_self v (fresh_voter time v zero_coin) s.voters)

  -- What a change to a delegation does to the worths that it touches and to those that it does not.
  pub record Moves (v d : String) (by : ℤ) (s s' : VoteStore) : Type 0 where
    pub delegation : delegation_amount v d s' ≡ delegation_amount v d s +ℤ by
    pub voter : delegated v s' ≡ delegated v s +ℤ by
    pub delegator : to_others d s' ≡ to_others d s +ℤ by
    pub voter_to_others : to_others v s' ≡ to_others v s
    pub delegator_power : delegated d s' ≡ delegated d s
    pub stakes : (j : String) → stake j s' ≡ stake j s
    pub others : (j : String) → (v ≡ j) ⊎ ((d ≡ j) ⊎ (s'.voters j ≡ s.voters j))

  add_present-Moves :
      (v d : String) (coin : Coin) (s : VoteStore) (w e : Voter)
      → v ≢ d
      → s.voters v ≡ some w
      → s.voters d ≡ some e
      → Moves v d (worth coin) s (added v d coin w e s)
  add_present-Moves v d coin s w e apart ew ee =
      let t = insert v (granted coin w) s.voters in
      let at = λ (j : String). get-insert d (lent coin e) t j in
      let at' = λ (j : String). get-insert v (granted coin w) s.voters j in
      let old = old_amount v d s in
      let new = record old { amount = plus old.amount coin } in
      record {
        delegation = elim (Option-cases (s.delegations (v, d))) [
          | inl missing ↦ grind (
            int_laws,
            missing,
            get-insert_self (v, d) new s.delegations,
            worth-plus old.amount coin,
            worth-new_coin (pos 0),
          )
          | inr (x, found) ↦ grind (
            int_laws,
            found,
            get-insert_self (v, d) new s.delegations,
            worth-plus old.amount coin,
          )
        ];
        voter =
            grind (
              int_laws,
              at v,
              at' v,
              eq_iff v v,
              eq_iff d v,
              worth-plus w.delegated_power coin,
              ew,
            );
        delegator = grind (int_laws, at d, eq_iff d d, worth-plus e.delegate_to_others coin, ee);
        voter_to_others = ground (arith, at v, at' v, eq_iff v v, eq_iff d v, ew);
        delegator_power = ground (arith, at d, at' d, eq_iff v d, eq_iff d d, ee);
        stakes = λ j. ground (arith, at j, at' j, eq_iff v j, eq_iff d j, ee, ew);
        others = λ j. ground (arith, at j, at' j, eq_iff v j, eq_iff d j);
      }

  add_fresh-Moves :
      (v d : String) (by : ℤ) (s s' : VoteStore) (time : ℤ)
      → v ≢ d
      → s.voters v ≡ none
      → Moves v d by (record s { voters = insert v (fresh_voter time v zero_coin) s.voters }) s'
      → Moves v d by s s'
  add_fresh-Moves v d by s s' time apart missing m =
      let at = λ (j : String). get-insert v (fresh_voter time v zero_coin) s.voters j in
      record {
        delegation = m.delegation;
        voter = grind (arith, at v, eq_iff v v, m.voter, missing, worth-new_coin (pos 0));
        delegator = ground (arith, at d, eq_iff v d, m.delegator);
        voter_to_others =
            ground (arith, at v, eq_iff v v, m.voter_to_others, missing, worth-new_coin (pos 0));
        delegator_power = ground (arith, at d, eq_iff v d, m.delegator_power);
        stakes = λ j. ground (arith, at j, eq_iff v j, m.stakes j, missing, worth-new_coin (pos 0));
        others = λ j. ground (arith, at j, eq_iff v j, m.others j);
      }

  pub add_delegation-added :
      (time : ℤ) (v d : String) (coin : Coin) (s : VoteStore) (e : Voter)
      → v ≢ d
      → s.voters d ≡ some e
      → (s' : VoteStore) × (w₁ e₁ : Voter) × (base : VoteStore) × (add_delegation time v d coin s
          ≡ (ok tt, s'))
        × (s' ≡ added v d coin w₁ e₁ base)
        × Moves v d (worth coin) s s'
  add_delegation-added time v d coin s e apart ee = elim (Option-cases (s.voters v)) [
    | inr (w, ew) ↦ (
      added v d coin w e s,
      w,
      e,
      s,
      add_present time v d coin s w e ew ee,
      refl,
      add_present-Moves v d coin s w e apart ew ee,
    )
    | inl missing ↦
        let w = fresh_voter time v zero_coin in
        let s₁ = record s { voters = insert v w s.voters } in
        let ew = get-insert_self v w s.voters in
        let ee₁ : s₁.voters d ≡ some e = ground (arith, get-insert v w s.voters d, eq_iff v d) in
        (
          added v d coin w e s₁,
          w,
          e,
          s₁,
          add_absent time v d coin s missing ∙ add_present time v d coin s₁ w e ew ee₁,
          refl,
          add_fresh-Moves v d (worth coin) s (added v d coin w e s₁) time apart missing
              (add_present-Moves v d coin s₁ w e apart ew ee₁),
        )
  ]

  -- Delegating to another user succeeds whenever the delegator is a voter. The delegation, the voter's
  -- delegated power and what the delegator has delegated each grow by the amount; the voter is added
  -- if need be. All stakes, and every other voter, stay as they are.
  add_delegation_lem :
      (time : ℤ) (v d : String) (coin : Coin) (s : VoteStore) (e : Voter)
      → v ≢ d
      → s.voters d ≡ some e
      → (s' : VoteStore) × (add_delegation time v d coin s ≡ (ok tt, s'))
        × Moves v d (worth coin) s s'
  add_delegation_lem time v d coin s e apart ee =
      let (s', w₁, e₁, base, done, is_added, moves) =
        add_delegation-added time v d coin s e apart ee in
      (s', done, moves)
