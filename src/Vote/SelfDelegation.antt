-- ===== src/Vote/SelfDelegation.antt =====
-- A user who delegates to themselves: `AddDelegation` reads the record twice and writes it twice, and
-- the second write undoes the first.
use lino.Sdk.{Sdk}
use lino.Prelude.{String, ◌≡◌, some, ◌≢◌, false, arith, refl, Option-cases, inl, inr, ◌∙◌, ap}
use lino.Vote.Manager.{delegator_withdraw, add_delegation, power_of}
use lino.Prelude.Int.{ℤ, pos, ◌+ℤ◌, eq_ℤ_iff, int_laws, ◌-ℤ◌}
use lino.Types.Coin.{
  Coin, worth, is_zero, is_zero_lem, plus, worth-plus, worth-minus, worth-new_coin,
}
use lino.Vote.Store.{Voter, VoteStore, Delegation}
use lino.Vote.Withdrawals.{reduced, returned, revoked, amount-reduced}
use lino.Prelude.Table.{insert, string_key, get-insert_self, pair_key, int_key}
use lino.Prelude.Exec.{ok}
use lino.Vote.Delegations.{lent, added, old_amount, granted, add_present, delegation_amount}

cancels : (a c : ℤ) → a +ℤ c +ℤ (pos 0 -ℤ c) ≡ a
cancels a c = grind int_laws

module _ ⦃sdk : Sdk⦄ where
  -- The state after a withdrawal by the voter itself.
  abbrev self_withdrawn : String → Coin → Voter → Delegation → VoteStore → VoteStore
  self_withdrawn u coin w x s = record (reduced u u coin x s) {
    voters = insert u (returned coin (revoked coin w)) (insert u (revoked coin w) s.voters);
  }

  withdraw_self :
      (u : String) (coin : Coin) (s : VoteStore) (w : Voter) (x : Delegation)
      → worth coin ≢ pos 0
      → s.voters u ≡ some w
      → s.delegations (u, u) ≡ some x
      → delegator_withdraw u u coin s ≡ (ok tt, self_withdrawn u coin w x s)
  unfolding delegator_withdraw
  withdraw_self u coin s w x nonzero ew ex =
      let positive : is_zero coin ≡ false =
        ground (arith, is_zero_lem coin, eq_ℤ_iff (worth coin) (pos 0)) in
      ground (arith, get-insert_self u (revoked coin w) s.voters)

  self_added_amount :
      (u : String) (coin : Coin) (s : VoteStore) (w : Voter)
      → delegation_amount u u (added u u coin w w s) ≡ delegation_amount u u s +ℤ worth coin
  self_added_amount u coin s w =
      let old = old_amount u u s in
      let new = record old { amount = plus old.amount coin } in
      elim (Option-cases (s.delegations (u, u))) [
        | inl missing ↦ grind (
          int_laws,
          missing,
          get-insert_self (u, u) new s.delegations,
          worth-plus old.amount coin,
          worth-new_coin (pos 0),
        )
        | inr (x, there) ↦
            grind (
              int_laws,
              there,
              get-insert_self (u, u) new s.delegations,
              worth-plus old.amount coin,
            )
      ]

  -- For a voter on record that delegates an amount other than zero to itself, and withdraws it again:
  -- both succeed. The delegation and what the voter has delegated grow by the amount and the delegated
  -- power does not grow, so the voting power falls by the amount. The withdrawal sets the delegation and
  -- what the voter has delegated back, but takes the amount from the delegated power too, which ends
  -- that much below what it was.
  pub self_delegation :
      (time : ℤ) (u : String) (coin : Coin) (s : VoteStore) (w : Voter)
      → s.voters u ≡ some w
      → worth coin ≢ pos 0
      → (s' s'' : VoteStore) × (w' w'' : Voter) × (add_delegation time u u coin s ≡ (ok tt, s'))
        × (s'.voters u ≡ some w')
        × (delegation_amount u u s' ≡ delegation_amount u u s +ℤ worth coin)
        × (worth w'.delegated_power ≡ worth w.delegated_power)
        × (worth w'.delegate_to_others ≡ worth w.delegate_to_others +ℤ worth coin)
        × (worth (power_of w') +ℤ worth coin ≡ worth (power_of w))
        × (delegator_withdraw u u coin s' ≡ (ok tt, s''))
        × (s''.voters u ≡ some w'')
        × (delegation_amount u u s'' ≡ delegation_amount u u s)
        × (worth w''.delegated_power +ℤ worth coin ≡ worth w.delegated_power)
        × (worth w''.delegate_to_others ≡ worth w.delegate_to_others)
  self_delegation time u coin s w ew nonzero =
      let w₁ = lent coin w in
      let s₁ = added u u coin w w s in
      let old = old_amount u u s in
      let x = record old { amount = plus old.amount coin } in
      let t = insert u (granted coin w) s.voters in
      let at = get-insert_self u w₁ t in
      let s₂ = self_withdrawn u coin w₁ x s₁ in
      (
        s₁,
        s₂,
        w₁,
        returned coin (revoked coin w₁),
        add_present time u u coin s w w ew ew,
        at,
        self_added_amount u coin s w,
        refl,
        worth-plus w.delegate_to_others coin,
        grind (
          int_laws,
          worth-plus w.delegate_to_others coin,
          worth-minus (plus w.lino_stake w.delegated_power) w.delegate_to_others,
          worth-minus (plus w.lino_stake w.delegated_power) w₁.delegate_to_others,
        ),
        withdraw_self u coin s₁ w₁ x nonzero at (get-insert_self (u, u) x s.delegations),
        get-insert_self u (returned coin (revoked coin w₁)) (insert u (revoked coin w₁) s₁.voters),
        amount-reduced u u coin x s₁ (get-insert_self (u, u) x s.delegations)
            ∙ ap (λ z. z +ℤ (pos 0 -ℤ worth coin)) (self_added_amount u coin s w)
            ∙ cancels (delegation_amount u u s) (worth coin),
        grind (int_laws, worth-minus w.delegated_power coin),
        grind (
          int_laws,
          worth-plus w.delegate_to_others coin,
          worth-minus w₁.delegate_to_others coin,
        ),
      )
