-- ===== src/Ledger/History.antt =====
-- The change log is the history of every balance, and the daily rollup is the change log summed by
-- Jakarta days. Each leg keeps both.
use mathlib.Core.Path.{ap₂}
use invoice_service.Prelude.{
  ◌≡◌, ◌∙◌, sym, inl, inr, Bool, true, ◌&&◌, arith, ◌==◌, if◌then◌else◌, Bool-cases,
}
use invoice_service.Prelude.Int.{pos, ◌+ℤ◌, +ℤ_zero}
use invoice_service.Prelude.Rows.{sum_where}
use invoice_service.Models.Enums.{Time, Amount}
use invoice_service.Models.Ledger.{
  BalanceChangeLog, Account, same_account, same_account_iff, logged_on,
}
use invoice_service.Store.{Db}
use invoice_service.Ledger.{Entry, start_of_jakarta_day}
use invoice_service.Ledger.Accounts.{balance_of, IsNumbered}
use invoice_service.Ledger.Posting.{posted}
use invoice_service.Ledger.Rollup.{change_on, same_day}
use invoice_service.Ledger.Leg.{posted-amounts, posted-change_on, sum-posted, posted_log}

-- The changes of an account, all of them and those of one day.
abbrev pub logged : Account → Db → Amount
logged k d = sum_where (logged_on k) (λ l. l.change_amount) d.logs

abbrev pub logged_in : Time → Account → BalanceChangeLog → Bool
logged_in t k l = logged_on k l && start_of_jakarta_day l.created_at == t

abbrev pub logged_day : Time → Account → Db → Amount
logged_day t k d = sum_where (logged_in t k) (λ l. l.change_amount) d.logs

-- The balance of every account is the sum of its logged changes.
abbrev pub IsReplayed : Db → Type 0
IsReplayed d = (k : Account) → logged k d ≡ balance_of k d.balances

-- The rollup of every day and account is the sum of the changes logged on that day.
abbrev pub IsRolledUp : Db → Type 0
IsRolledUp d = (t : Time) (k : Account) → change_on t k d.dailies ≡ logged_day t k d

module _ (k : Account) (delta : Amount) (e : Entry) (d : Db) where
  abbrev flag : Account → Bool
  flag j = same_account k j

  swap_accounts : (j : Account) → same_account j k ≡ same_account k j
  swap_accounts j = ground arith

  pub moved_balance :
      (j : Account)
      → IsNumbered d
      → balance_of j (posted k delta e d).balances
        ≡ balance_of j d.balances +ℤ (if same_account k j then delta else pos 0)
  moved_balance j numbered =
      (posted-amounts k delta e d numbered j).0
      ∙ rw (swap_accounts j) (elim (Bool-cases (same_account k j)) [
        | inl same ↦ rw (same, (same_account_iff k j).0 same)
        | inr other ↦ rw (other, +ℤ_zero)
      ])

  pub posted-IsReplayed : IsNumbered d → IsReplayed d → IsReplayed (posted k delta e d)
  posted-IsReplayed numbered replayed j =
      sum-posted k delta e d (logged_on j) ∙ rw (replayed j) (sym (moved_balance j numbered))

  rolled_day :
      (t : Time) (j : Account)
      → logged_in t j (posted_log k delta e d) ≡ same_day t j (start_of_jakarta_day e.now) k
  rolled_day t j = ground arith

  same_slot :
      (t : Time) (j : Account)
      → same_day t j (start_of_jakarta_day e.now) k ≡ true
      → change_on (start_of_jakarta_day e.now) k d.dailies ≡ change_on t j d.dailies
  same_slot t j same =
      ap₂ (λ (t' : Time) (j' : Account). change_on t' j' d.dailies) (ground arith)
        ((same_account_iff k j).0 (ground arith))

  pub posted-IsRolledUp : IsRolledUp d → IsRolledUp (posted k delta e d)
  posted-IsRolledUp rolled t j =
      posted-change_on k delta e d t j
      ∙ sym (
          sum-posted k delta e d (logged_in t j)
          ∙ rw (rolled_day t j, ← rolled t j)
              (elim (Bool-cases (same_day t j (start_of_jakarta_day e.now) k)) [
                | inl same ↦ rw (same, same_slot t j same)
                | inr other ↦ rw (other, +ℤ_zero)
              ]))
