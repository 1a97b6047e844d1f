-- ===== src/BalanceList/Totals.antt =====
-- `TeamBalanceList`: the totals of a window and their breakdown by change type, two queries.
use invoice_service.Prelude.{
  ℕ, ◌≡◌, ◌↔◌, ◌⊎◌, ◌∙◌, refl, sym, ap, arith, inl, inr, true, false, Option, none, some, List, [],
  ◌∷◌, ◌&&◌, map, ◌==◌, ==_iff, ==_refl, ==_comm, if_same, if◌then◌else◌, Bool-cases,
}
use invoice_service.Prelude.Int.{pos, ◌+ℤ◌, zero_+ℤ, +ℤ_zero, +ℤ_assoc}
use invoice_service.Prelude.Rows.{sum_where, sum_where-map, sum_where-snoc, filter_rows}
use invoice_service.Prelude.Every.{Every}
use invoice_service.Prelude.Groups.{
  keys_of, keys_of-IsCounted, sum_groups, sum_where-none, sum_where-filter_rows,
}
use invoice_service.Models.Enums.{Time, Amount, BalanceType}
use invoice_service.Models.Ledger.{BalanceChangeLog}
use invoice_service.OweLimit.{GoMap, no_keys, put}
use invoice_service.Overview.{ChangeSumAmount}
use invoice_service.Timeline.{or_zero}
use invoice_service.Store.{Db, ok, calm, query, statement}
use invoice_service.BalanceList.{
  TotalChangeItem, TeamChangeRow, TeamChangeKey, same_pair, pair_of, team_change_row,
  team_change_rows, item_or_new, with_entry, add_entries, total_items, sum_rows, put_rows,
  scalar_map, window_of_type, total_change_data,
}

abbrev pub change_total : List ChangeSumAmount → Amount
change_total = sum_where (λ c. true) (λ c. c.amount)

abbrev item_change : GoMap TotalChangeItem → ℕ → Amount
item_change out k = change_total (item_or_new (out k)).change

abbrev item_total : GoMap TotalChangeItem → ℕ → Amount
item_total out k = (item_or_new (out k)).total

abbrev after : TeamChangeRow → GoMap TotalChangeItem → GoMap TotalChangeItem
after r out = put r.for_team_id (with_entry r (item_or_new (out r.for_team_id))) out

put-other : {A : Type 0} (i k : ℕ) (x : A) (m : GoMap A) → (k == i) ≡ false → put i x m k ≡ m k
put-other i k x m e = rw e refl

put-own : {A : Type 0} (k : ℕ) (x : A) (m : GoMap A) → put k x m k ≡ some x
put-own k x m = rw (==_refl k) refl

module _ (k : ℕ) where
  entry-change :
      (r : TeamChangeRow) (out : GoMap TotalChangeItem)
      → item_change (after r out) k
        ≡ item_change out k +ℤ (if r.for_team_id == k then r.val else pos 0)
  entry-change r out = elim (Bool-cases (r.for_team_id == k)) [
    | inl t ↦
        let same : r.for_team_id ≡ k = (==_iff r.for_team_id k).0 t in
        rw (same, ==_refl k)
          (sum_where-snoc (λ c. true) (λ (c : ChangeSumAmount). c.amount)
            (item_or_new (out k)).change _)
    | inr e ↦ rw (e, ==_comm k r.for_team_id, e) (sym (+ℤ_zero _))
  ]

  entry-total :
      (r : TeamChangeRow) (out : GoMap TotalChangeItem)
      → item_total (after r out) k ≡ item_total out k
  entry-total r out = elim (Bool-cases (r.for_team_id == k)) [
    | inl t ↦
        let same : r.for_team_id ≡ k = (==_iff r.for_team_id k).0 t in
        ap (λ (j : ℕ). item_total (after r out) j) (sym same)
        ∙ ap (λ (o : Option TotalChangeItem). (item_or_new o).total)
            (put-own r.for_team_id (with_entry r (item_or_new (out r.for_team_id))) out)
        ∙ ap (λ (j : ℕ). item_total out j) same
    | inr e ↦
        ap (λ (o : Option TotalChangeItem). (item_or_new o).total)
          (put-other r.for_team_id k (with_entry r (item_or_new (out r.for_team_id))) out
            (==_comm k r.for_team_id ∙ e))
  ]

  add_entries-change :
      (rows : List TeamChangeRow) (out : GoMap TotalChangeItem)
      → item_change (add_entries rows out) k
        ≡ item_change out k +ℤ sum_where (λ r. r.for_team_id == k) (λ r. r.val) rows
  unfolding add_entries sum_where
  add_entries-change [] out = sym (+ℤ_zero _)
  add_entries-change (r ∷ rows) out =
      add_entries-change rows (after r out) ∙ rw (entry-change r out) (+ℤ_assoc _ _ _)

  add_entries-total :
      (rows : List TeamChangeRow) (out : GoMap TotalChangeItem)
      → item_total (add_entries rows out) k ≡ item_total out k
  unfolding add_entries
  add_entries-total [] out = refl
  add_entries-total (r ∷ rows) out = add_entries-total rows (after r out) ∙ entry-total r out

same_pair_iff : (a b : TeamChangeKey) → (same_pair a b ≡ true) ↔ (a ≡ b)
same_pair_iff (k, ct) (k', ct') = ground arith

-- The breakdown of a team sums to its flow.
rows-flow :
    (k : ℕ) (logs : List BalanceChangeLog)
    → sum_where (λ r. r.for_team_id == k) (λ r. r.val) (team_change_rows logs)
      ≡ sum_where (λ l. l.for_team_id == k) (λ l. l.change_amount) logs
unfolding team_change_rows
rows-flow k logs =
    sum_where-map (λ r. r.for_team_id == k) (λ r. r.val) (team_change_row logs)
      (keys_of same_pair pair_of logs)
    ∙ sum_groups same_pair pair_of (λ p. p.0 == k) (λ l. l.change_amount)
        (keys_of same_pair pair_of logs) logs
        (keys_of-IsCounted same_pair same_pair_iff pair_of logs)

-- The map of the first query, with 0 where it has no entry.
abbrev amount_at : GoMap Amount → ℕ → Amount
amount_at m k = or_zero (m k)

entry_amount :
    (o : Option Amount)
    → (item_or_new
        (elim o [ none ↦ none | some v ↦ some (record { total = v; change = [] }) ])).total
      ≡ or_zero o
entry_amount none = refl
entry_amount (some v) = refl

entry_empty :
    (o : Option Amount)
    → change_total
        (item_or_new
          (elim o [ none ↦ none | some v ↦ some (record { total = v; change = [] }) ])).change
      ≡ pos 0
unfolding sum_where
entry_empty none = refl
entry_empty (some v) = refl

module _ (g : ℕ → Amount) (k : ℕ) where
  abbrev pairs : List ℕ → List (ℕ × Amount)
  pairs ks = map (λ j. (j, g j)) ks

  put-amount :
      (j : ℕ) (m : GoMap Amount)
      → amount_at (put j (g j) m) k ≡ (if j == k then g k else amount_at m k)
  put-amount j m = elim (Bool-cases (j == k)) [
    | inl t ↦ rw t (
        ap (λ (i : ℕ). amount_at (put i (g i) m) k) ((==_iff j k).0 t)
        ∙ ap or_zero (put-own k (g k) m))
    | inr e ↦ rw e (ap or_zero (put-other j k (g j) m (==_comm k j ∙ e)))
  ]

  kept :
      (ks : List ℕ) (m : GoMap Amount)
      → amount_at m k ≡ g k
      → amount_at (put_rows (pairs ks) m) k ≡ g k
  unfolding put_rows
  kept [] m h = h
  kept (j ∷ ks) m h = kept ks (put j (g j) m) (put-amount j m ∙ rw h (if_same (j == k) (g k)))

  assigned :
      (ks : List ℕ) (m : GoMap Amount)
      → (amount_at (put_rows (pairs ks) m) k ≡ g k)
        ⊎ (Every (λ j. (j == k) ≡ false) ks × (amount_at (put_rows (pairs ks) m) k ≡ amount_at m k))
  unfolding put_rows
  assigned [] m = inr (tt, refl)
  assigned (j ∷ ks) m = elim (Bool-cases (j == k)) [
    | inl t ↦ inl (kept ks (put j (g j) m) (put-amount j m ∙ rw t refl))
    | inr e ↦ elim (assigned ks (put j (g j) m)) [
      | inl h ↦ inl h
      | inr (none_of, h) ↦ inr ((e, none_of), h ∙ put-amount j m ∙ rw e refl)
    ]
  ]

totals-flow :
    (k : ℕ) (logs : List BalanceChangeLog)
    → amount_at (put_rows (sum_rows (λ l. l.for_team_id) (λ l. l.change_amount) logs) no_keys) k
      ≡ sum_where (λ l. l.for_team_id == k) (λ l. l.change_amount) logs
unfolding sum_rows
totals-flow k logs =
    let ks = keys_of (λ i j. i == j) (λ (l : BalanceChangeLog). l.for_team_id) logs in
    elim (assigned (λ j. sum_where (λ l. l.for_team_id == j) (λ l. l.change_amount) logs) k ks
      no_keys) [
        | inl h ↦ h
        | inr (none_of, h) ↦
            h
            ∙ sym (sum_where-none (λ j. j == k) _ ks none_of)
            ∙ sum_groups (λ i j. i == j) (λ l. l.for_team_id) (λ j. j == k) (λ l. l.change_amount)
                ks logs (keys_of-IsCounted (λ i j. i == j) ==_iff (λ l. l.for_team_id) logs)
      ]

module _ (team i : ℕ) (is : List ℕ) (bt : BalanceType) (start end : Time) (d : Db) where
  -- The flow between the team and a counterparty of the page.
  abbrev pub flow_with : ℕ → Amount
  flow_with k =
      sum_where (λ l. window_of_type team (i ∷ is) bt start end l && l.for_team_id == k)
        (λ l. l.change_amount) d.logs

  -- Where no statement fails and the page is not empty, `totalChangeData` changes no table, and under
  -- every counterparty the total of the first query and the sum of the breakdown of the second are
  -- both the flow of the window between the team and that counterparty, 0 where there is no entry.
  pub total_change_data-agrees :
      (out : GoMap TotalChangeItem) × (total_change_data team (i ∷ is) bt start end (calm d)
        ≡ (ok out, calm d))
      × ((k : ℕ)
          → ((item_or_new (out k)).total ≡ flow_with k)
            × (change_total (item_or_new (out k)).change ≡ flow_with k))
  unfolding total_change_data scalar_map query statement
  total_change_data-agrees = (
    add_entries (team_change_rows logs) (total_items totals),
    refl,
    λ k. (
      add_entries-total k (team_change_rows logs) (total_items totals)
          ∙ entry_amount (totals k)
          ∙ totals-flow k logs
          ∙ filtered k,
      add_entries-change k (team_change_rows logs) (total_items totals)
          ∙ rw (entry_empty (totals k)) (zero_+ℤ _)
          ∙ rows-flow k logs
          ∙ filtered k,
    ),
  )
    where
      logs : List BalanceChangeLog
      logs = filter_rows (window_of_type team (i ∷ is) bt start end) d.logs

      totals : GoMap Amount
      totals = put_rows (sum_rows (λ l. l.for_team_id) (λ l. l.change_amount) logs) no_keys

      filtered :
          (k : ℕ) → sum_where (λ l. l.for_team_id == k) (λ l. l.change_amount) logs ≡ flow_with k
      filtered k =
          sum_where-filter_rows (window_of_type team (i ∷ is) bt start end)
            (λ l. l.for_team_id == k) (λ l. l.change_amount) d.logs
