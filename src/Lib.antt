-- ===== src/Lib.antt =====
-- A verification library of the invoice service: the double-entry ledger between teams, the payments
-- that settle it, the events that post to it, the owe limits and the reconciliation with the legacy
-- invoices. Paths are from the repository's root.
--
-- Parts and files:
--   * Store.antt: the tables (`Db`) and what a handler does with them. A handler is a function of a
--     session, with errors as values; `statement` is one call of gorm, `transaction` gorm's
--     Transaction. The children say what a failing statement can do (Honest) and what all-or-nothing
--     means (Outcome).
--   * Models.antt and its children: invoice_models/*.go, the enumerations of invoice_iface.v2, and the
--     tables of other services with the columns that queries name.
--   * Ledger.antt: invoice_v2/create_balance_log.go. `post_balance_log` is PostBalanceLog,
--     `post_double_entry` postDoubleEntry, `post_entry` postEntry, `upsert_daily_log` upsertDailyLog,
--     `lock_or_create_balance` lockOrCreateBalance, `adjust_pending` adjustPending. The children have
--     the proofs: Accounts, Posting, Frame, Rollup, Leg, Totals, Dailies and History for one leg, DoubleEntry
--     and Carry for the invariant `IsLedger`, Days, Honesty, Requests for the calls as a whole, and
--     Book for histories of calls against an abstract book.
--   * Payments.antt: invoice_v2/payment.go, create_payment.go, accept_payment.go, reject_payment.go.
--     The children: Flight (amounts in flight), Settlement and Settled (what an accepted payment posts),
--     Sound (the invariant `IsSound`), Loading, Creating, Accepting, Rejecting, Honesty.
--   * Push.antt and Push/Handler.antt: push_handler.go. The children: Nets (what postings add to the
--     balances), Orders, Once, Honesty.
--   * OweLimit.antt: invoice_v2/check_owe_limit.go and the owe_limit_*.go handlers. The children: Rules,
--     Answers and Rounds.
--   * Lists.antt: invoice_v2/list_payment.go, list_incoming_payment.go, list_team_balance_log.go,
--     balance.go and owe_limit_custom_list.go. The children: Listed (which rows are asked for) and Order.
--   * Reconcile.antt: invoice_v2/team_reconcile.go. The children: Adjusting (what the loop posts) and
--     Convergence.
--   * Overview.antt: invoice_v2/overview.go. The children: Flow (the breakdown of a window) and Reports.
--   * TimelineRows.antt and Timeline.antt: invoice_v2/team_balance_timeline.go, its queries and the rest.
--     The children: Buckets (the maps), Running (the keys in order and the running balances), Series and
--     Answers.
--   * TeamPage.antt and BalanceList.antt: invoice_v2/team_balance_list.go, the page of counterparties and
--     the maps of its data types; ORDER BY is an insertion sort. The children: Bounds and Sorted, and
--     Totals.
--   * InvoiceManage.antt: invoice_mutations/invoice_manage.go. The children: Readjust (the loop) and
--     Balance.
--   * Submissions.antt and SubmissionCreate.antt: invoice_mutations/payment_submission.go, its acceptance
--     and rejection, and its creation. The children: Completion, and Picked, Claims, Chosen and Claiming.
--   * Reachable.antt: every sequence of calls. Tests.antt: concrete tables.
-- AcceptPayment posts through the ledger, the push handler posts through PostBalanceLog, the
-- reconciliation calls CreateBalanceLog, and CheckOweLimit reads the balances that these leave.
--
-- The model:
--   * A statement may fail: a session has a fuse, the number of statements that still succeed. The fuse
--     is arbitrary where a theorem does not say that no statement fails.
--   * The row locks make a transaction one step; interleavings are sequences of such steps.
--   * Money is a whole number of thousandths; the rounding of float64 is not modelled, nor is
--     the passage of a transaction's id through one for the cod fee, exact below 2^53. An instant is a
--     number of nanoseconds since the epoch, with the first day left out.
--   * The identity that access_interceptors finds in the context is an `Option`, the clock an argument.
--     protojson's decoding and the subscription paths are fields of `Wire`; the pagination of
--     db_connect is the record `Pagination`. DATE_TRUNC at Asia/Jakarta is
--     an argument of the timeline; the comparison of texts and the width of the page filter's
--     integers are arguments of the balance list.
--   * The groups of GROUP BY come in the order of their first rows.
--   * A table is a list of rows in the order of their ids, and a query without an order takes them in
--     that order. A sequence goes back with its transaction, where Postgres leaves gaps.
--   * There is no fuel: every loop is over the rows that it has read.
-- Not modelled: the handlers of the legacy service (service.go) and its queries (invoice_query), whose
-- conditions are parameters here, and the wiring and the commands (register.go, cmd).
pub mod Prelude
pub mod Models
pub mod Store
pub mod Ledger
pub mod Lists
pub mod OweLimit
pub mod Payments
pub mod Push
pub mod Reconcile
pub mod Overview
pub mod TimelineRows
pub mod Timeline
pub mod TeamPage
pub mod BalanceList
pub mod InvoiceManage
pub mod Submissions
pub mod SubmissionCreate
pub mod Reachable
mod Tests
