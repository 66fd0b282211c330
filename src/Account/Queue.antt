-- ===== src/Account/Queue.antt =====
-- The queue of pending coin days: its total is the sum of its entries, and where coins go.
use lino.Sdk.{Sdk}
use lino.Prelude.Int.{ℤ, ◌+ℤ◌, pos, int_laws, +ℤ_assoc, leb_ℤ, +ℤ_comm, eq_ℤ, eq_ℤ_iff}
use lino.Prelude.{
  List, ◌≡◌, ◌∷◌, ◌∙◌, [], Bool-cases, inl, ap, inr, refl, arith, ◌⊎◌, subst, sym, ◌++◌, true,
  false, ◌≢◌,
}
use lino.Account.CoinDay.{
  PendingCoinDayQueue, take_ended, PendingCoinDay, counted, refresh,
  update_tx_from_pending_coin_day_queue, take_coin, time_slot, reversed, take_from_front,
  add_pending_coin_day_to_queue, take_from_back, ends_with_slot,
}
use lino.Types.Coin.{worth, Coin, minus, plus, worth-minus, worth-plus, worth-new_coin, is_gte}
use lino.Account.Sums.{shift, exact_of, shift_sum, shift_taken, cut_total, cut_sum}

module _ ⦃sdk : Sdk⦄ where
  -- The sum of the entries' coins.
  abbrev pub sum_coins : List PendingCoinDay → ℤ
  sum_coins [] = pos 0
  sum_coins (p ∷ ps) = worth p.coin +ℤ sum_coins ps

  -- The total that the queue keeps is the sum of its entries.
  abbrev pub IsExact : PendingCoinDayQueue → Type 0
  IsExact q = worth q.total_coin ≡ sum_coins q.pending_coin_days

  take_ended_lem :
      (slot recover : ℤ) (coin_day : Coin) (q : PendingCoinDayQueue) (ps : List PendingCoinDay)
      → let (coin_day', q') = take_ended slot recover coin_day q ps in
        (worth q'.total_coin +ℤ sum_coins ps ≡ worth q.total_coin +ℤ sum_coins q'.pending_coin_days)
        × (worth coin_day' +ℤ sum_coins q'.pending_coin_days ≡ worth coin_day +ℤ sum_coins ps)
  unfolding take_ended
  take_ended_lem slot recover coin_day q [] = (refl, refl)
  take_ended_lem slot recover coin_day q (p ∷ ps) =
      let q₁ = record q {
        total_coin_day = sdk.sub_rat q.total_coin_day (counted recover q.last_updated_at p p.coin);
        total_coin = minus q.total_coin p.coin;
      } in
      let (totals, days) = take_ended_lem slot recover (plus coin_day p.coin) q₁ ps in
      elim (Bool-cases (leb_ℤ p.end_time slot)) [
        | inl ended ↦ rw ended (
          shift _ _ _ _ _ _ (worth-minus q.total_coin p.coin) totals,
          shift_sum _ _ _ _ _ _ (worth-plus coin_day p.coin) days,
        )
        | inr pending ↦ rw pending (refl, refl)
      ]

  refresh-IsExact :
      (slot recover : ℤ) (q : PendingCoinDayQueue) → IsExact q → IsExact (refresh slot recover q)
  refresh-IsExact slot recover q h = ground (arith, worth-new_coin (pos 0))

  pending-refresh :
      (slot recover : ℤ) (q : PendingCoinDayQueue)
      → (refresh slot recover q).pending_coin_days ≡ q.pending_coin_days
  pending-refresh slot recover q = ground arith

  -- Bringing a queue up to date whose total is the sum of its entries: the total stays the sum, and
  -- every coin that leaves the queue is counted as a coin day, no more and no less.
  pub update_tx_lem :
      (time recover : ℤ) (coin_day : Coin) (q : PendingCoinDayQueue)
      → IsExact q
      → let (coin_day', q') = update_tx_from_pending_coin_day_queue time recover coin_day q in
        IsExact q'
        × (worth coin_day' +ℤ sum_coins q'.pending_coin_days
            ≡ worth coin_day +ℤ sum_coins q.pending_coin_days)
  unfolding update_tx_from_pending_coin_day_queue
  update_tx_lem time recover coin_day q h =
      let (totals, days) = take_ended_lem (time_slot time) recover coin_day q q.pending_coin_days in
      let q' = (take_ended (time_slot time) recover coin_day q q.pending_coin_days).1 in
      let days_now = worth (take_ended (time_slot time) recover coin_day q q.pending_coin_days).0 in
      (
        refresh-IsExact (time_slot time) recover q' (exact_of _ _ _ _ h totals),
        subst (λ ps. days_now +ℤ sum_coins ps ≡ worth coin_day +ℤ sum_coins q.pending_coin_days)
            (sym (pending-refresh (time_slot time) recover q')) days,
      )

  take_coin_lem :
      (recover : ℤ) (coin : Coin) (q : PendingCoinDayQueue) (ps : List PendingCoinDay)
      → let (left, q') = take_coin recover coin q ps in
        (worth q'.total_coin +ℤ sum_coins ps ≡ worth q.total_coin +ℤ sum_coins q'.pending_coin_days)
        × (sum_coins q'.pending_coin_days +ℤ worth coin ≡ sum_coins ps +ℤ worth left)
        × ((worth left ≡ pos 0) ⊎ (q'.pending_coin_days ≡ []))
  unfolding take_coin
  take_coin_lem recover coin q [] = (refl, refl, inr refl)
  take_coin_lem recover coin q (p ∷ ps) =
      let q₁ = record q {
        total_coin_day = sdk.sub_rat q.total_coin_day (counted recover q.last_updated_at p p.coin);
        total_coin = minus q.total_coin p.coin;
      } in
      let (totals, taken, rest) = take_coin_lem recover (minus coin p.coin) q₁ ps in
      elim (Bool-cases (is_gte coin p.coin)) [
        | inl all ↦ rw all (
          shift _ _ _ _ _ _ (worth-minus q.total_coin p.coin) totals,
          shift_taken _ _ _ _ _ _ (worth-minus coin p.coin) taken,
          rest,
        )
        | inr part ↦ rw part (
          cut_total _ _ _ _ _ _ (worth-minus q.total_coin coin) (worth-minus p.coin coin),
          cut_sum _ _ _ _ _ (worth-minus p.coin coin) (worth-new_coin (pos 0)),
          inl (worth-new_coin (pos 0)),
        )
      ]

  sum_coins-snoc :
      (ps : List PendingCoinDay) (p : PendingCoinDay)
      → sum_coins (ps ++ p ∷ []) ≡ sum_coins ps +ℤ worth p.coin
  sum_coins-snoc [] p = grind int_laws
  sum_coins-snoc (r ∷ ps) p =
      ap (λ x. worth r.coin +ℤ x) (sum_coins-snoc ps p)
      ∙ sym (+ℤ_assoc (worth r.coin) (sum_coins ps) (worth p.coin))

  sum_coins-reversed : (ps : List PendingCoinDay) → sum_coins (reversed ps) ≡ sum_coins ps
  unfolding reversed
  sum_coins-reversed [] = refl
  sum_coins-reversed (p ∷ ps) =
      sum_coins-snoc (reversed ps) p
      ∙ ap (λ x. x +ℤ worth p.coin) (sum_coins-reversed ps)
      ∙ +ℤ_comm (sum_coins ps) (worth p.coin)

  -- What a taking of a coin from a queue does: the total is the sum again, what left the queue is the
  -- coin less what could not be taken, and something could not be taken only if the queue is empty.
  abbrev pub IsTaken : Coin → PendingCoinDayQueue → Coin × PendingCoinDayQueue → Type 0
  IsTaken coin q (left, q') =
      IsExact q'
      × (sum_coins q'.pending_coin_days +ℤ worth coin ≡ sum_coins q.pending_coin_days +ℤ worth left)
      × ((worth left ≡ pos 0) ⊎ (q'.pending_coin_days ≡ []))

  empty_or :
      (left : Coin) (ps : List PendingCoinDay)
      → (worth left ≡ pos 0) ⊎ (ps ≡ [])
      → (worth left ≡ pos 0) ⊎ (reversed ps ≡ [])
  unfolding reversed
  empty_or left ps (inl none_left) = inl none_left
  empty_or left ps (inr nothing) = inr (ap reversed nothing)

  -- Both withdrawals, from the first entry on and from the last entry on, of any coin from a queue
  -- whose total is the sum of its entries: the total stays the sum, what leaves the queue is the coin
  -- less what could not be taken, and unless that is zero the queue is empty afterwards.
  pub take_coin-IsTaken :
      (recover : ℤ) (coin : Coin) (q : PendingCoinDayQueue)
      → IsExact q
      → IsTaken coin q (take_from_front recover coin q)
        × IsTaken coin q (take_from_back recover coin q)
  unfolding take_from_front take_from_back
  take_coin-IsTaken recover coin q h =
      let (totals, taken, rest) = take_coin_lem recover coin q q.pending_coin_days in
      let back = take_coin recover coin q (reversed q.pending_coin_days) in
      let (totals', taken', rest') = take_coin_lem recover coin q (reversed q.pending_coin_days) in
      let same = sum_coins-reversed q.pending_coin_days in
      let same' = sum_coins-reversed back.1.pending_coin_days in
      (
        (exact_of _ _ _ _ h totals, taken, rest),
        (
          exact_of _ _ _ _ (h ∙ sym same) totals' ∙ sym same',
          ap (λ x. x +ℤ worth coin) same' ∙ taken' ∙ ap (λ x. x +ℤ worth back.0) same,
          empty_or _ _ rest',
        ),
      )

  -- The queue's last entry starts at `start`.
  abbrev pub EndsAt : ℤ → List PendingCoinDay → Type 0
  EndsAt start ps =
      (front : List PendingCoinDay) × (last : PendingCoinDay) × (ps ≡ front ++ last ∷ [])
      × (last.start_time ≡ start)

  -- The queue is empty, or its last entry starts at another time than `start`.
  abbrev pub EndsElsewhere : ℤ → List PendingCoinDay → Type 0
  EndsElsewhere start ps =
      (ps ≡ [])
      ⊎ ((front : List PendingCoinDay) × (last : PendingCoinDay) × (ps ≡ front ++ last ∷ [])
          × (last.start_time ≢ start))

  ends_with_slot-cases :
      (start : ℤ) (ps : List PendingCoinDay)
      → ((ends_with_slot start ps ≡ true) × EndsAt start ps)
        ⊎ ((ends_with_slot start ps ≡ false) × EndsElsewhere start ps)
  unfolding ends_with_slot
  ends_with_slot-cases start [] = inr (refl, inl refl)
  ends_with_slot-cases start (p ∷ []) = elim (Bool-cases (eq_ℤ p.start_time start)) [
    | inl same ↦ inl (same, ([], p, refl, ground (arith, eq_ℤ_iff p.start_time start)))
    | inr other ↦
        inr (other, inr ([], p, refl, λ e. absurd (ground (arith, eq_ℤ_iff p.start_time start))))
  ]
  ends_with_slot-cases start (p ∷ q ∷ ps) = elim (ends_with_slot-cases start (q ∷ ps)) [
    | inl (same, (front, last, split, at)) ↦
        inl (same, (p ∷ front, last, ap (λ qs. p ∷ qs) split, at))
    | inr (other, inl nothing) ↦ absurd (ground arith)
    | inr (other, inr (front, last, split, at)) ↦
        inr (other, inr (p ∷ front, last, ap (λ qs. p ∷ qs) split, at))
  ]

  -- Adding a coin to a queue whose total is the sum of its entries leaves the total the sum. If the
  -- last entry starts at the time at which the new one starts, the queue does not change at all, and
  -- the coin is in it nowhere. If the queue is empty or its last entry starts at another time, the new
  -- entry is put at the end, and the sum grows by the coin.
  pub add_pending_lem :
      (p : PendingCoinDay) (q : PendingCoinDayQueue)
      → IsExact q
      → let q' = add_pending_coin_day_to_queue p q in
        IsExact q'
        × ((EndsAt p.start_time q.pending_coin_days × (q' ≡ q))
            ⊎ (EndsElsewhere p.start_time q.pending_coin_days
                × (q'.pending_coin_days ≡ q.pending_coin_days ++ p ∷ [])
                × (sum_coins q'.pending_coin_days ≡ sum_coins q.pending_coin_days +ℤ worth p.coin)))
  unfolding add_pending_coin_day_to_queue
  add_pending_lem p q h = elim (ends_with_slot-cases p.start_time q.pending_coin_days) [
    | inl (same, ends) ↦ rw same (h, inl (ends, refl))
    | inr (later, ends) ↦
        let grown = sum_coins-snoc q.pending_coin_days p in
        rw later (
          worth-plus q.total_coin p.coin ∙ ap (λ x. x +ℤ worth p.coin) h ∙ sym grown,
          inr (ends, refl, grown),
        )
  ]
