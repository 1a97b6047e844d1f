-- ===== src/Overview.antt =====
-- invoice_v2/overview.go: `Overview`, the totals of a team's balances and of their flow in a window.
pub mod Flow
pub mod Reports
use invoice_service.Prelude.{
  ℕ, ◌&&◌, Bool, true, false, Option, none, some, List, [], ◌∷◌, map, ltb, leb, ◌==◌,
}
use invoice_service.Prelude.Int.{ℤ, pos, negsuc, ◌+ℤ◌, neg}
use invoice_service.Prelude.Rows.{filter_rows, sum_where}
use invoice_service.Prelude.Groups.{keys_of}
use invoice_service.Models.Enums.{
  Time, Amount, BalanceType, payable, receivable, same_type, BalanceChangeType, same_change,
  is_accepted,
}
use invoice_service.Models.Ledger.{BalanceChangeLog, TeamBalance}
use invoice_service.Models.Payment.{InvoicePayment}
use invoice_service.Lists.{row_count, if_positive}
use invoice_service.Store.{Db, time_range_required, invalid_type, M, pure, raise, query, ◌>>=◌}

pub data OverviewMetricType : Type 0 where
  metric_unspecified metric_payable metric_receivable metric_pending_payment metric_incoming_payment
        metric_total_payment metric_total_payable metric_total_receivable :
      OverviewMetricType

-- filter.team_id and filter.for_team_id; a missing filter has zeros.
pub record Scope : Type 0 where
  pub team_id : ℕ
  pub for_team_id : ℕ

pub record OverviewRequest : Type 0 where
  pub filter : Option Scope
  pub time_range : Option (Option Time × Option Time)
  pub metric_type : List OverviewMetricType

pub record ChangeSumAmount : Type 0 where
  pub change_type : BalanceChangeType
  pub amount : Amount
  pub transaction_count : ℕ

pub data OverviewDataItem : Type 0 where
  payable_item receivable_item pending_item incoming_item total_payment_item :
      Amount → OverviewDataItem
  total_payable_item total_receivable_item : Amount → List ChangeSumAmount → OverviewDataItem

-- Where a column is compared with a number of the request only if that is positive.
abbrev pub in_scope : Option Scope → ℕ → ℕ → Bool
in_scope none team for_team = true
in_scope (some f) team for_team = if_positive f.team_id team && if_positive f.for_team_id for_team

abbrev pub balance_in : Option Scope → BalanceType → TeamBalance → Bool
balance_in f bt r = same_type r.balance_type bt && in_scope f r.team_id r.for_team_id

-- at BETWEEN start AND end, which no NULL satisfies.
abbrev pub between : Time → Time → Time → Bool
between start end at = leb start at && leb at end

abbrev pub accepted_between : Time → Time → Option Time → Bool
accepted_between start end none = false
accepted_between start end (some at) = between start end at

abbrev pub payment_in : Option Scope → Time → Time → InvoicePayment → Bool
payment_in f start end p =
    is_accepted p.status
    && accepted_between start end p.accepted_at
    && in_scope f p.team_id p.for_team_id

abbrev pub log_in : Option Scope → BalanceType → Time → Time → BalanceChangeLog → Bool
log_in f bt start end l =
    same_type l.balance_type bt
    && between start end l.created_at
    && in_scope f l.team_id l.for_team_id

-- math.Abs
abbrev pub abs : Amount → Amount
abs (pos n) = pos n
abs (negsuc n) = neg (negsuc n)

-- SELECT change_type, SUM(change_amount), COUNT(*) … GROUP BY change_type
abbrev pub change_sum : List BalanceChangeLog → BalanceChangeType → ChangeSumAmount
change_sum logs t = record {
  change_type = t;
  amount = sum_where (λ l. same_change l.change_type t) (λ l. l.change_amount) logs;
  transaction_count = row_count (filter_rows (λ l. same_change l.change_type t) logs);
}

unfoldable pub change_sums : List BalanceChangeLog → List ChangeSumAmount
change_sums logs = map (change_sum logs) (keys_of same_change (λ l. l.change_type) logs)

-- total += r.Val
unfoldable pub add_up : Amount → List ChangeSumAmount → Amount
add_up total [] = total
add_up total (r ∷ rs) = add_up (total +ℤ r.amount) rs

unfoldable pub total_change_overview :
    Option Scope → BalanceType → Time → Time → M (Amount × List ChangeSumAmount)
unfolding query
total_change_overview f bt start end = do
  rows ← query (λ d. change_sums (filter_rows (log_in f bt start end) d.logs))
  pure (add_up (pos 0) rows, rows)

unfoldable pub time_window : Option (Option Time × Option Time) → M (Time × Time)
time_window (some (some start, some end)) = pure (start, end)
time_window (some (some start, none)) = raise time_range_required
time_window (some (none, end)) = raise time_range_required
time_window none = raise time_range_required

unfoldable pub overview_item : OverviewRequest → OverviewMetricType → M OverviewDataItem
unfolding query
overview_item pay metric_payable = do
  v ← query (λ d. sum_where (balance_in pay.filter payable) (λ r. r.balance) d.balances)
  pure (payable_item (abs v))
overview_item pay metric_receivable = do
  v ← query (λ d. sum_where (balance_in pay.filter receivable) (λ r. r.balance) d.balances)
  pure (receivable_item v)
overview_item pay metric_pending_payment = do
  v ←
      query
        (λ d. sum_where (balance_in pay.filter payable) (λ r. r.pending_payment_amount) d.balances)
  pure (pending_item v)
overview_item pay metric_incoming_payment = do
  v ←
      query (λ d.
        sum_where (balance_in pay.filter receivable) (λ r. r.pending_payment_amount) d.balances)
  pure (incoming_item v)
overview_item pay metric_total_payment = do
  window ← time_window pay.time_range
  v ← query (λ d. sum_where (payment_in pay.filter window.0 window.1) (λ p. p.amount) d.payments)
  pure (total_payment_item v)
overview_item pay metric_total_payable = do
  window ← time_window pay.time_range
  sums ← total_change_overview pay.filter payable window.0 window.1
  pure (total_payable_item sums.0 sums.1)
overview_item pay metric_total_receivable = do
  window ← time_window pay.time_range
  sums ← total_change_overview pay.filter receivable window.0 window.1
  pure (total_receivable_item sums.0 sums.1)
overview_item pay metric_unspecified = raise invalid_type

unfoldable pub overview_items :
    OverviewRequest → List OverviewMetricType → M (List OverviewDataItem)
overview_items pay [] = pure []
overview_items pay (metric ∷ metrics) = do
  item ← overview_item pay metric
  items ← overview_items pay metrics
  pure (item ∷ items)

unfoldable pub overview : OverviewRequest → M (List OverviewDataItem)
overview pay = overview_items pay pay.metric_type
