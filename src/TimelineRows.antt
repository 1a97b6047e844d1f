-- ===== src/TimelineRows.antt =====
-- invoice_v2/team_balance_timeline.go, the queries of `TeamBalanceTimeline`: the opening balances, the
-- changes and the payments of each period. DATE_TRUNC of Postgres at Asia/Jakarta is a parameter.
use invoice_service.Prelude.{
  ℕ, ◌/◌, ◌&&◌, Bool, false, Option, none, some, List, [], ◌∷◌, map, ltb, leb, ◌==◌,
}
use invoice_service.Prelude.Rows.{filter_rows, sum_where}
use invoice_service.Prelude.Groups.{keys_of}
use invoice_service.Models.Enums.{
  Time, Amount, BalanceType, type_unspecified, payable, receivable, same_type, BalanceChangeType,
  same_change, is_accepted,
}
use invoice_service.Models.Ledger.{BalanceChangeLog, TeamBalanceDailyLog}
use invoice_service.Models.Payment.{InvoicePayment}
use invoice_service.Lists.{row_count, if_positive}
use invoice_service.Overview.{Scope}

pub data DateUnit : Type 0 where
  day month year : DateUnit

-- time.Time.Unix
abbrev pub unix : Time → ℕ
unix t = t / 1_000_000_000

-- team_id = ? AND for_team_id = ?, the second where it is asked for.
abbrev pub of_team : Scope → ℕ → ℕ → Bool
of_team f team for_team = team == f.team_id && if_positive f.for_team_id for_team

abbrev pub OpenRow : Type 0
OpenRow = BalanceType × Amount

abbrev pub opens : Scope → Time → TeamBalanceDailyLog → Bool
opens f start_day r = ltb r.day start_day && of_team f r.team_id r.for_team_id

abbrev pub open_row : List TeamBalanceDailyLog → BalanceType → OpenRow
open_row rows bt = (bt, sum_where (λ r. same_type r.balance_type bt) (λ r. r.change_amount) rows)

-- SELECT balance_type, SUM(change_amount) … GROUP BY balance_type
unfoldable pub open_rows : List TeamBalanceDailyLog → List OpenRow
open_rows rows = map (open_row rows) (keys_of same_type (λ r. r.balance_type) rows)

abbrev pub assign : OpenRow → Amount × Amount → Amount × Amount
assign (payable, val) (p, r) = (val, r)
assign (receivable, val) (p, r) = (p, val)
assign (type_unspecified, val) (p, r) = (p, r)

unfoldable pub opening : List OpenRow → Amount × Amount → Amount × Amount
opening [] both = both
opening (row ∷ rows) both = opening rows (assign row both)

pub record ChangeRow : Type 0 where
  pub t : Time
  pub balance_type : BalanceType
  pub change_type : BalanceChangeType
  pub val : Amount
  pub cnt : ℕ

abbrev pub in_window : Scope → Time → Time → BalanceChangeLog → Bool
in_window f start_day end l =
    leb start_day l.created_at && ltb l.created_at end && of_team f l.team_id l.for_team_id

abbrev pub ChangeKey : Type 0
ChangeKey = Time × BalanceType × BalanceChangeType

abbrev pub same_key : ChangeKey → ChangeKey → Bool
same_key (t, bt, ct) (t', bt', ct') = t == t' && same_type bt bt' && same_change ct ct'

abbrev pub accepted_in : Time → Time → Option Time → Bool
accepted_in start_day end none = false
accepted_in start_day end (some at) = leb start_day at && ltb at end

abbrev pub pays : Scope → Time → Time → InvoicePayment → Bool
pays f start_day end p =
    is_accepted p.status
    && accepted_in start_day end p.accepted_at
    && of_team f p.team_id p.for_team_id

module _ (date_trunc : DateUnit → Time → Time) (unit : DateUnit) where
  abbrev pub change_key : BalanceChangeLog → ChangeKey
  change_key l = (date_trunc unit l.created_at, l.balance_type, l.change_type)

  abbrev pub change_row : List BalanceChangeLog → ChangeKey → ChangeRow
  change_row logs k = record {
    t = k.0;
    balance_type = k.1;
    change_type = k.2;
    val = sum_where (λ l. same_key (change_key l) k) (λ l. l.change_amount) logs;
    cnt = row_count (filter_rows (λ l. same_key (change_key l) k) logs);
  }

  -- SELECT … as t, balance_type, change_type, SUM(change_amount), COUNT(*) … GROUP BY the three
  unfoldable pub change_rows : List BalanceChangeLog → List ChangeRow
  change_rows logs = map (change_row logs) (keys_of same_key change_key logs)

  abbrev pub accepted_on : InvoicePayment → Time
  accepted_on p = elim p.accepted_at [ some at ↦ date_trunc unit at | none ↦ 0 ]

  -- SELECT … as t, SUM(amount) … GROUP BY t
  unfoldable pub pay_rows : List InvoicePayment → List (Time × Amount)
  pay_rows ps =
      map (λ t. (t, sum_where (λ p. accepted_on p == t) (λ p. p.amount) ps))
        (keys_of (λ s t. s == t) accepted_on ps)
