-- ===== src/Ledger/Rollup.antt =====
-- `upsertDailyLog` on the rows of team_balance_daily_logs, which have no primary key: the row of a
-- day and an account is found and updated by the two.
use mathlib.Core.Path.{ap₂}
use invoice_service.Prelude.{
  ◌≡◌, refl, ◌∙◌, inl, inr, Bool, true, ◌&&◌, Option, none, some, List, [], ◌∷◌, ◌++◌, arith, ◌==◌,
  if◌then◌else◌, Bool-cases, Option-cases,
}
use invoice_service.Prelude.Int.{pos, ◌+ℤ◌, zero_+ℤ}
use invoice_service.Prelude.Rows.{
  find_row, find_row-fits, find_row-snoc_none, find_row-snoc_some, find_row-update,
}
use invoice_service.Models.Enums.{Time, Amount}
use invoice_service.Models.Ledger.{TeamBalanceDailyLog, Account, same_account, on_day}
use invoice_service.Store.{Db}
use invoice_service.Ledger.{new_daily, with_change, put_daily}

abbrev pub found_change : Option TeamBalanceDailyLog → Amount
found_change none = pos 0
found_change (some r) = r.change_amount

-- The change of an account on a day, zero where the day has no row.
abbrev pub change_on : Time → Account → List TeamBalanceDailyLog → Amount
change_on day k rows = found_change (find_row (on_day day k) rows)

-- Whether the first day and account are the second.
abbrev pub same_day : Time → Account → Time → Account → Bool
same_day t j day k = day == t && same_account k j

module _ (day : Time) (k : Account) (prev new_bal delta : Amount) (now : Time) (d : Db) (t : Time)
    (j : Account) where
  abbrev fresh : TeamBalanceDailyLog
  fresh = new_daily day k prev new_bal delta now

  -- A row that two days and accounts both select, or that only one of them selects.
  both_days : (x : TeamBalanceDailyLog) → on_day t j x ≡ true → on_day day k x ≡ same_day t j day k
  both_days x fits = ground arith

  same_day_eq : same_day t j day k ≡ true → (t ≡ day) × (j ≡ k)
  same_day_eq same = ground arith

  same_rows :
      same_day t j day k ≡ true
      → find_row (on_day t j) d.dailies ≡ find_row (on_day day k) d.dailies
  same_rows same =
      let (e, f) = same_day_eq same in
      ap₂ (λ (t' : Time) (j' : Account). find_row (on_day t' j') d.dailies) e f

  same_change : same_day t j day k ≡ true → change_on t j d.dailies ≡ change_on day k d.dailies
  same_change same = rw (same_rows same)

  -- The first change of a day.
  change_on-insert :
      find_row (on_day day k) d.dailies ≡ none
      → change_on t j (d.dailies ++ fresh ∷ [])
        ≡ (if same_day t j day k then delta else change_on t j d.dailies)
  change_on-insert missing = elim (Option-cases (find_row (on_day t j) d.dailies)) [
    | inl none_t ↦ elim (Bool-cases (same_day t j day k)) [
      | inl same ↦ rw (same, find_row-snoc_none (on_day t j) d.dailies fresh none_t, same)
      | inr other ↦
          rw (other, find_row-snoc_none (on_day t j) d.dailies fresh none_t, other) (rw none_t)
    ]
    | inr (r, found) ↦ elim (Bool-cases (same_day t j day k)) [
      | inl same ↦ cc (same_rows same, missing, found)
      | inr other ↦ rw (other, find_row-snoc_some (on_day t j) d.dailies fresh r found, found)
    ]
  ]

  abbrev accumulated : TeamBalanceDailyLog → List TeamBalanceDailyLog
  accumulated r = (put_daily (some r) day k prev new_bal delta now d).dailies

  -- A later change of the day.
  change_on-update :
      (r : TeamBalanceDailyLog)
      → find_row (on_day day k) d.dailies ≡ some r
      → change_on t j (accumulated r)
        ≡ (if same_day t j day k then r.change_amount +ℤ delta else change_on t j d.dailies)
  change_on-update r found =
      rw
        (find_row-update (on_day t j) (on_day day k)
          (with_change (r.change_amount +ℤ delta) new_bal now) d.dailies (λ x. refl))
        (elim (Option-cases (find_row (on_day t j) d.dailies)) [
          | inl none_t ↦ elim (Bool-cases (same_day t j day k)) [
            | inl same ↦ cc (same_rows same, none_t, found)
            | inr other ↦ rw (other, none_t)
          ]
          | inr (x, found_t) ↦
              rw (found_t, both_days x (find_row-fits (on_day t j) d.dailies x found_t))
                (elim (Bool-cases (same_day t j day k)) [
                  | inl same ↦ rw same
                  | inr other ↦ rw other
                ])
        ])

  -- The delta is added to the account's change of the day, and to no other.
  pub put_daily-change_on :
      change_on t j
        (put_daily (find_row (on_day day k) d.dailies) day k prev new_bal delta now d).dailies
      ≡ (if same_day t j day k then change_on day k d.dailies +ℤ delta else change_on t j d.dailies)
  put_daily-change_on = elim (Option-cases (find_row (on_day day k) d.dailies)) [
    | inl missing ↦ rw missing (change_on-insert missing ∙ rw zero_+ℤ)
    | inr (r, found) ↦ rw found (change_on-update r found)
  ]
