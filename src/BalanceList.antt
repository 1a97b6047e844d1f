-- ===== src/BalanceList.antt =====
-- invoice_v2/team_balance_list.go, second part: `TeamBalanceList`, a page of counterparties with the
-- maps of the requested data types.
pub mod Totals
use Prim.Native.String.{String}
use invoice_service.Prelude.{
  ℕ, ◌&&◌, Bool, true, false, Option, none, some, List, [], ◌∷◌, ◌++◌, map, ◌==◌, if◌then◌else◌,
}
use invoice_service.Prelude.Int.{pos}
use invoice_service.Prelude.Rows.{filter_rows, sum_where}
use invoice_service.Prelude.Groups.{keys_of}
use invoice_service.Models.Enums.{
  Time, Amount, BalanceType, payable, receivable, same_type, BalanceChangeType, same_change,
  is_accepted,
}
use invoice_service.Models.Ledger.{TeamBalance, BalanceChangeLog}
use invoice_service.Models.Payment.{InvoicePayment}
use invoice_service.Models.Shop.{Team}
use invoice_service.Lists.{row_count}
use invoice_service.OweLimit.{GoMap, no_keys, put, elem}
use invoice_service.Overview.{ChangeSumAmount, between, accepted_between, time_window}
use invoice_service.TeamPage.{
  Collation, ProtoTeamType, team_type_to_proto, TeamBalanceListFilter, TeamBalanceListSort,
  sort_for_team_ids,
}
use invoice_service.Store.{
  Db, filter_required, sort_required, invalid_data_type, M, pure, raise, query, ◌>>=◌,
}

pub data BalanceListDataType : Type 0 where
  list_unspecified list_common list_payable list_receivable list_pending list_incoming
        list_total_payment list_total_payable list_total_receivable :
      BalanceListDataType

pub record TeamBalanceListRequest : Type 0 where
  pub filter : Option TeamBalanceListFilter
  -- The kind of the sort, and whether its direction is descending.
  pub sort : Option (TeamBalanceListSort × Bool)
  pub time_range : Option (Option Time × Option Time)
  pub data_types : List BalanceListDataType

pub record CommonItem : Type 0 where
  pub id : ℕ
  pub name : String
  pub type : ProtoTeamType

pub record TotalChangeItem : Type 0 where
  pub total : Amount
  pub change : List ChangeSumAmount

pub data TeamBalanceData : Type 0 where
  team_common_data : GoMap CommonItem → TeamBalanceData
  team_payable_data team_receivable_data team_pending_data team_incoming_data
        team_total_payment_data :
      GoMap Amount → TeamBalanceData
  team_total_payable_data team_total_receivable_data : GoMap TotalChangeItem → TeamBalanceData

-- team_id = ? AND for_team_id IN ?
abbrev pub scoped : ℕ → List ℕ → ℕ → ℕ → Bool
scoped team ids t k = t == team && elem k ids

-- The rows of balanceQuery.
abbrev pub balance_rows :
    ℕ → List ℕ → BalanceType → (TeamBalance → Amount) → List TeamBalance → List (ℕ × Amount)
balance_rows team ids bt col rows =
    map (λ r. (r.for_team_id, col r))
      (filter_rows (λ r. scoped team ids r.team_id r.for_team_id && same_type r.balance_type bt)
        rows)

-- SELECT for_team_id, SUM(…) as val … GROUP BY for_team_id
unfoldable pub sum_rows : {A : Type 0} → (A → ℕ) → (A → Amount) → List A → List (ℕ × Amount)
sum_rows key val rows =
    map (λ k. (k, sum_where (λ r. key r == k) val rows)) (keys_of (λ j k. j == k) key rows)

-- for _, r := range rows { m[r.ForTeamID] = r.Val }
unfoldable pub put_rows : {A : Type 0} → List (ℕ × A) → GoMap A → GoMap A
put_rows [] m = m
put_rows (r ∷ rows) m = put_rows rows (put r.0 r.1 m)

unfoldable pub scalar_map : (Db → List (ℕ × Amount)) → M (GoMap Amount)
unfolding query
scalar_map rows = do found ← query rows; pure (put_rows found no_keys)

abbrev pub window_of_type : ℕ → List ℕ → BalanceType → Time → Time → BalanceChangeLog → Bool
window_of_type team ids bt start end l =
    scoped team ids l.team_id l.for_team_id
    && (same_type l.balance_type bt && between start end l.created_at)

pub record TeamChangeRow : Type 0 where
  pub for_team_id : ℕ
  pub change_type : BalanceChangeType
  pub val : Amount
  pub transaction_count : ℕ

abbrev pub TeamChangeKey : Type 0
TeamChangeKey = ℕ × BalanceChangeType

abbrev pub same_pair : TeamChangeKey → TeamChangeKey → Bool
same_pair (k, ct) (k', ct') = k == k' && same_change ct ct'

abbrev pub pair_of : BalanceChangeLog → TeamChangeKey
pair_of l = (l.for_team_id, l.change_type)

abbrev pub team_change_row : List BalanceChangeLog → TeamChangeKey → TeamChangeRow
team_change_row logs k = record {
  for_team_id = k.0;
  change_type = k.1;
  val = sum_where (λ l. same_pair (pair_of l) k) (λ l. l.change_amount) logs;
  transaction_count = row_count (filter_rows (λ l. same_pair (pair_of l) k) logs);
}

-- SELECT for_team_id, change_type, SUM(…), COUNT(*) … GROUP BY for_team_id, change_type
unfoldable pub team_change_rows : List BalanceChangeLog → List TeamChangeRow
team_change_rows logs = map (team_change_row logs) (keys_of same_pair pair_of logs)

abbrev pub item_or_new : Option TotalChangeItem → TotalChangeItem
item_or_new none = record { total = pos 0; change = [] }
item_or_new (some it) = it

abbrev pub with_entry : TeamChangeRow → TotalChangeItem → TotalChangeItem
with_entry r it = record it {
  change =
      it.change
      ++ record {
        change_type = r.change_type;
        amount = r.val;
        transaction_count = r.transaction_count;
      }
        ∷ [];
}

-- The loop over the rows of the breakdown.
unfoldable pub add_entries : List TeamChangeRow → GoMap TotalChangeItem → GoMap TotalChangeItem
add_entries [] out = out
add_entries (r ∷ rows) out =
    add_entries rows (put r.for_team_id (with_entry r (item_or_new (out r.for_team_id))) out)

-- out[id] = &totalChangeItem{total: v}
abbrev pub total_items : GoMap Amount → GoMap TotalChangeItem
total_items m k = elim (m k) [ none ↦ none | some v ↦ some (record { total = v; change = [] }) ]

unfoldable pub total_change_data :
    ℕ → List ℕ → BalanceType → Time → Time → M (GoMap TotalChangeItem)
unfolding query scalar_map
total_change_data team [] bt start end = pure no_keys
total_change_data team (i ∷ is) bt start end = do
  totals ← scalar_map (λ d.
      sum_rows (λ l. l.for_team_id) (λ l. l.change_amount)
        (filter_rows (window_of_type team (i ∷ is) bt start end) d.logs))
  rows ←
      query (λ d. team_change_rows (filter_rows (window_of_type team (i ∷ is) bt start end) d.logs))
  pure (add_entries rows (total_items totals))

abbrev pub common_item : Team → ℕ × CommonItem
common_item t = (t.id, record { id = t.id; name = t.name; type = team_type_to_proto t.type })

unfoldable pub common_map : List ℕ → M (GoMap CommonItem)
unfolding query
common_map [] = pure no_keys
common_map (i ∷ is) = do
  rows ← query (λ d. filter_rows (λ t. elem t.id (i ∷ is)) d.shop.teams)
  pure (put_rows (map common_item rows) no_keys)

abbrev pub paid_in : ℕ → List ℕ → Time → Time → InvoicePayment → Bool
paid_in team ids start end p =
    scoped team ids p.team_id p.for_team_id
    && (is_accepted p.status && accepted_between start end p.accepted_at)

unfoldable pub fetch_team_balance_data :
    ℕ → BalanceListDataType → List ℕ → Time → Time → M TeamBalanceData
fetch_team_balance_data team list_common ids start end = do
  out ← common_map ids
  pure (team_common_data out)
fetch_team_balance_data team list_payable ids start end = do
  out ← scalar_map (λ d. balance_rows team ids payable (λ r. r.balance) d.balances)
  pure (team_payable_data out)
fetch_team_balance_data team list_receivable ids start end = do
  out ← scalar_map (λ d. balance_rows team ids receivable (λ r. r.balance) d.balances)
  pure (team_receivable_data out)
fetch_team_balance_data team list_pending ids start end = do
  out ← scalar_map (λ d. balance_rows team ids payable (λ r. r.pending_payment_amount) d.balances)
  pure (team_pending_data out)
fetch_team_balance_data team list_incoming ids start end = do
  out ←
      scalar_map (λ d. balance_rows team ids receivable (λ r. r.pending_payment_amount) d.balances)
  pure (team_incoming_data out)
fetch_team_balance_data team list_total_payment ids start end = do
  out ← scalar_map (λ d.
      sum_rows (λ p. p.for_team_id) (λ p. p.amount)
        (filter_rows (paid_in team ids start end) d.payments))
  pure (team_total_payment_data out)
fetch_team_balance_data team list_total_payable ids start end = do
  out ← total_change_data team ids payable start end
  pure (team_total_payable_data out)
fetch_team_balance_data team list_total_receivable ids start end = do
  out ← total_change_data team ids receivable start end
  pure (team_total_receivable_data out)
fetch_team_balance_data team list_unspecified ids start end = raise invalid_data_type

pub record TeamBalanceListResponse : Type 0 where
  pub items : List TeamBalanceData
  pub ids : List ℕ

unfoldable pub fetch_all :
    ℕ → List BalanceListDataType → List ℕ → Time → Time → M (List TeamBalanceData)
fetch_all team [] ids start end = pure []
fetch_all team (dt ∷ dts) ids start end = do
  item ← fetch_team_balance_data team dt ids start end
  items ← fetch_all team dts ids start end
  pure (item ∷ items)

abbrev given_filter : Option TeamBalanceListFilter → M TeamBalanceListFilter
given_filter none = raise filter_required
given_filter (some f) = pure f

abbrev given_sort : Option (TeamBalanceListSort × Bool) → M (TeamBalanceListSort × Bool)
given_sort none = raise sort_required
given_sort (some s) = pure s

unfoldable pub team_balance_list :
    Collation → ℕ → TeamBalanceListRequest → M TeamBalanceListResponse
unfolding time_window
team_balance_list c half pay = do
  f ← given_filter pay.filter
  s ← given_sort pay.sort
  window ← time_window pay.time_range
  ids ← sort_for_team_ids c half f s.0 s.1 window.0 window.1
  items ← fetch_all f.team_id pay.data_types ids window.0 window.1
  pure (record { items = items; ids = ids })
