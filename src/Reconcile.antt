-- ===== src/Reconcile.antt =====
-- invoice_v2/team_reconcile.go: a team's PAYABLE balances are adjusted to the legacy unpaid invoices.
pub mod Adjusting
pub mod Convergence
use Prim.Native.String.{String}
use invoice_service.Prelude.{
  ℕ, suc, ◌&&◌, ◌||◌, Bool, true, false, not, Option, none, some, List, [], ◌∷◌, map, ◌==◌,
  if◌then◌else◌,
}
use invoice_service.Prelude.Int.{pos, ◌+ℤ◌, neg, ltb_ℤ, eqb_ℤ}
use invoice_service.Prelude.Rows.{find_row, filter_rows, sum_where}
use invoice_service.Models.Enums.{Time, Amount, payable, receivable, adjustment}
use invoice_service.Models.Ledger.{TeamBalance, Account, on_account}
use invoice_service.Models.Shop.{InvoiceStatus, not_paid, Invoice}
use invoice_service.Store.{Db, M, pure, query, ◌>>=◌, ◌>>◌}
use invoice_service.Ledger.{CreateBalanceLogRequest, create_balance_log}

-- 0.005 in thousandths.
abbrev pub reconcile_epsilon : Amount
reconcile_epsilon = pos 5

pub record PayableReconcile : Type 0 where
  pub delta_balance : Amount
  pub source_balance : Amount
  pub balance : Amount
  pub team_id : ℕ
  pub for_team_id : ℕ

abbrev pub is_not_paid : InvoiceStatus → Bool
is_not_paid not_paid = true
is_not_paid _ = false

-- status = 'not_paid' AND amount > 0 AND from_team_id = ?
abbrev pub is_unpaid_of : ℕ → Invoice → Bool
is_unpaid_of team i = is_not_paid i.status && (ltb_ℤ (pos 0) i.amount && i.from_team_id == team)

abbrev pub names : ℕ → List ℕ → Bool
names x [] = false
names x (y ∷ ys) = x == y || names x ys

-- The groups of GROUP BY, each once. The source gives them no order.
unfoldable pub groups : ℕ → List Invoice → List ℕ
groups team [] = []
groups team (i ∷ is) =
    let rest = groups team is in
    if is_unpaid_of team i && not (names i.to_team_id rest) then i.to_team_id ∷ rest else rest

abbrev pub source_balance : ℕ → ℕ → List Invoice → Amount
source_balance team for_team =
    sum_where (λ i. is_unpaid_of team i && i.to_team_id == for_team) (λ i. i.amount)

abbrev pub balance_or_zero : Option TeamBalance → Amount
balance_or_zero none = pos 0
balance_or_zero (some b) = b.balance

abbrev pub payable_account : ℕ → ℕ → Account
payable_account team for_team = record { team = team; for_team = for_team; kind = payable }

abbrev pub reconcile_row : ℕ → Db → ℕ → PayableReconcile
reconcile_row team d for_team =
    let source = source_balance team for_team d.shop.invoices in
    let balance =
      balance_or_zero (find_row (on_account (payable_account team for_team)) d.balances) in
    record {
      delta_balance = source +ℤ balance;
      source_balance = source;
      balance = balance;
      team_id = team;
      for_team_id = for_team;
    }

-- reconcilePayableSQL
unfoldable pub reconcile_list : ℕ → Db → List PayableReconcile
reconcile_list team d =
    filter_rows (λ row. not (eqb_ℤ row.delta_balance (pos 0)))
      (map (reconcile_row team d) (groups team d.shop.invoices))

abbrev pub abs : Amount → Amount
abs x = if ltb_ℤ x (pos 0) then neg x else x

abbrev pub reconcile_note : String
reconcile_note = "reconcile legacy unpaid invoices"

abbrev pub adjustment_of : PayableReconcile → CreateBalanceLogRequest
adjustment_of row =
    if ltb_ℤ (pos 0) row.delta_balance
    then record {
      team_id = row.for_team_id;
      for_team_id = row.team_id;
      change_type = adjustment;
      change_amount = row.delta_balance;
      balance_type = receivable;
      note = reconcile_note;
    }
    else record {
      team_id = row.team_id;
      for_team_id = row.for_team_id;
      change_type = adjustment;
      change_amount = neg row.delta_balance;
      balance_type = payable;
      note = reconcile_note;
    }

-- The adjustments, each in a transaction of its own, with the count of them; `clock n` is the time at
-- which the one after n others is posted.

unfoldable pub reconcile_rows : Option ℕ → (ℕ → Time) → List PayableReconcile → ℕ → M ℕ
reconcile_rows caller clock [] count = pure count
reconcile_rows caller clock (row ∷ rows) count =
    if ltb_ℤ (abs row.delta_balance) reconcile_epsilon
    then reconcile_rows caller clock rows count
    else create_balance_log caller (clock count) (adjustment_of row)
      >> reconcile_rows caller clock rows (suc count)

unfoldable pub reconcile_team_payable : Option ℕ → (ℕ → Time) → ℕ → M ℕ
reconcile_team_payable caller clock team = do
  rows ← query (reconcile_list team)
  reconcile_rows caller clock rows 0

-- The response is empty; the count goes to the log.
unfoldable pub team_reconcile : Option ℕ → (ℕ → Time) → ℕ → M (Unit {0})
team_reconcile caller clock team = reconcile_team_payable caller clock team >>= λ _. pure tt
