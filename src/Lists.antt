-- ===== src/Lists.antt =====
-- invoice_v2/list_payment.go, list_incoming_payment.go, list_team_balance_log.go, balance.go,
-- owe_limit_custom_list.go and toProtoPayment of payment.go: filtered pages, newest first. The
-- pagination of db_connect is a parameter.
pub mod Listed
pub mod Order
use Prim.Native.String.{String}
use invoice_service.Prelude.{
  ℕ, suc, ◌&&◌, Bool, true, false, not, Option, none, some, List, [], ◌∷◌, map, ltb, leb, ◌==◌,
  if◌then◌else◌,
}
use invoice_service.Prelude.Rows.{find_row, filter_rows}
use invoice_service.Models.Enums.{
  Time, Amount, BalanceType, type_unspecified, payable, receivable, same_type, BalanceChangeType,
  OrderSystem, system_unspecified, legacy, v3, PaymentStatus, status_unspecified, pending, accepted,
  rejected,
}
use invoice_service.Models.Ledger.{BalanceChangeLog, BalanceChangeOrderSource}
use invoice_service.Models.Payment.{InvoicePayment}
use invoice_service.Models.OweLimit.{OweLimitConfiguration}
use invoice_service.OweLimit.{is_default_row}
use invoice_service.Store.{Db, page_required, M, pure, raise, query, ◌>>=◌}

-- db_connect.SetPaginationQuery: the info of a page from the number of rows, and the rows of it.
pub record Pagination : Type 1 where
  pub Page : Type 0
  pub PageInfo : Type 0
  pub info : Page → ℕ → PageInfo
  pub cut : {A : Type 0} → Page → List A → List A

module _ {A : Type 0} where
  unfoldable pub row_count : List A → ℕ
  row_count [] = 0
  row_count (r ∷ rs) = suc (row_count rs)

  -- ORDER BY id DESC
  unfoldable pub insert_newest : (A → ℕ) → A → List A → List A
  insert_newest id x [] = x ∷ []
  insert_newest id x (r ∷ rs) =
      let rest = insert_newest id x rs in if ltb (id x) (id r) then r ∷ rest else x ∷ r ∷ rs

  unfoldable pub newest_first : (A → ℕ) → List A → List A
  newest_first id [] = []
  newest_first id (r ∷ rs) = insert_newest id r (newest_first id rs)

-- if x > 0 { … = x }
abbrev pub if_positive : ℕ → ℕ → Bool
if_positive asked x = if asked == 0 then true else x == asked

abbrev pub if_from : Option Time → Time → Bool
if_from none t = true
if_from (some from) t = leb from t

abbrev pub if_to : Option Time → Time → Bool
if_to none t = true
if_to (some to) t = leb t to

abbrev pub if_status : PaymentStatus → PaymentStatus → Bool
if_status status_unspecified s = true
if_status pending pending = true
if_status accepted accepted = true
if_status rejected rejected = true
if_status _ _ = false

abbrev pub if_type : BalanceType → BalanceType → Bool
if_type type_unspecified t = true
if_type payable t = same_type t payable
if_type receivable t = same_type t receivable

abbrev pub if_system : OrderSystem → OrderSystem → Bool
if_system system_unspecified s = true
if_system legacy legacy = true
if_system v3 v3 = true
if_system _ _ = false

-- The count and the page, two statements.
abbrev pub paged :
    {A B : Type 0} (p : Pagination)
    → p.Page
    → (Db → List A)
    → (A → ℕ)
    → (A → B)
    → M (List B × p.PageInfo)
paged p page rows id show = do
  count ← query (λ d. row_count (rows d))
  found ← query (λ d. p.cut page (newest_first id (rows d)))
  pure (map show found, p.info page count)

-- if pay.Page == nil
abbrev pub with_page :
    {B : Type 0} (p : Pagination)
    → Option p.Page
    → (p.Page → M (List B × p.PageInfo))
    → M (List B × p.PageInfo)
with_page p none list = raise page_required
with_page p (some page) list = list page

-- ListPaymentRequest and ListIncomingPaymentRequest.
pub record ListPaymentRequest : Type 0 where
  pub team_id : ℕ
  pub for_team_id : ℕ
  pub status : PaymentStatus
  pub from_time : Option Time
  pub to_time : Option Time

-- The payment of the response; a missing time is no timestamp.
pub record PaymentItem : Type 0 where
  pub id : ℕ
  pub team_id : ℕ
  pub for_team_id : ℕ
  pub amount : Amount
  pub note : String
  pub document_id : String
  pub status : PaymentStatus
  pub created_by_id : ℕ
  pub created_at : Time
  pub completed_by_id : ℕ
  pub accepted_at : Option Time
  pub rejected_at : Option Time

abbrev pub id_or_zero : Option ℕ → ℕ
id_or_zero none = 0
id_or_zero (some i) = i

abbrev pub to_proto_payment : InvoicePayment → PaymentItem
to_proto_payment p = record {
  id = p.id;
  team_id = p.team_id;
  for_team_id = p.for_team_id;
  amount = p.amount;
  note = p.note;
  document_id = p.document_id;
  status = p.status;
  created_by_id = p.created_by_id;
  created_at = p.created_at;
  completed_by_id = id_or_zero p.completed_by_id;
  accepted_at = p.accepted_at;
  rejected_at = p.rejected_at;
}

abbrev pub is_outgoing : ListPaymentRequest → InvoicePayment → Bool
is_outgoing pay p =
    p.team_id == pay.team_id
    && (if_positive pay.for_team_id p.for_team_id
        && (if_status pay.status p.status
            && (if_from pay.from_time p.created_at && if_to pay.to_time p.created_at)))

abbrev pub is_incoming : ListPaymentRequest → InvoicePayment → Bool
is_incoming pay p =
    p.for_team_id == pay.for_team_id
    && (if_positive pay.team_id p.team_id
        && (if_status pay.status p.status
            && (if_from pay.from_time p.created_at && if_to pay.to_time p.created_at)))

unfoldable pub list_payment :
    (p : Pagination) → Option p.Page → ListPaymentRequest → M (List PaymentItem × p.PageInfo)
unfolding query row_count newest_first
list_payment p page pay = with_page p page λ asked.
    paged p asked (λ d. filter_rows (is_outgoing pay) d.payments) (λ q. q.id) to_proto_payment

unfoldable pub list_incoming_payment :
    (p : Pagination) → Option p.Page → ListPaymentRequest → M (List PaymentItem × p.PageInfo)
unfolding query row_count newest_first
list_incoming_payment p page pay = with_page p page λ asked.
    paged p asked (λ d. filter_rows (is_incoming pay) d.payments) (λ q. q.id) to_proto_payment

pub record ListTeamBalanceLogRequest : Type 0 where
  pub team_id : ℕ
  pub for_team_id : ℕ
  pub balance_type : BalanceType
  pub from_time : Option Time
  pub to_time : Option Time
  pub order_id : ℕ
  pub warehouse_id : ℕ
  pub order_system : OrderSystem

-- A log with the columns of the joined order source.
pub record BalanceLogRow : Type 0 where
  pub log : BalanceChangeLog
  pub order_id : ℕ
  pub warehouse_id : ℕ
  pub order_system : OrderSystem

pub record BalanceLogItem : Type 0 where
  pub id : ℕ
  pub team_id : ℕ
  pub for_team_id : ℕ
  pub change_type : BalanceChangeType
  pub change_amount : Amount
  pub balance_type : BalanceType
  pub balance : Amount
  pub note : String
  pub created_at : Time
  pub order_id : ℕ
  pub warehouse_id : ℕ
  pub order_system : OrderSystem

abbrev pub to_proto_balance_change_log : BalanceChangeLog → BalanceLogItem
to_proto_balance_change_log l = record {
  id = l.id;
  team_id = l.team_id;
  for_team_id = l.for_team_id;
  change_type = l.change_type;
  change_amount = l.change_amount;
  balance_type = l.balance_type;
  balance = l.balance;
  note = l.note;
  created_at = l.created_at;
  order_id = 0;
  warehouse_id = 0;
  order_system = system_unspecified;
}

abbrev pub balance_log_item : BalanceLogRow → BalanceLogItem
balance_log_item row = record (to_proto_balance_change_log row.log) {
  order_id = row.order_id;
  warehouse_id = row.warehouse_id;
  order_system = row.order_system;
}

abbrev pub source_of : Db → BalanceChangeLog → Option BalanceChangeOrderSource
source_of d l = find_row (λ s. s.balance_change_log_id == l.id) d.sources

abbrev pub balance_log_row : BalanceChangeLog → Option BalanceChangeOrderSource → BalanceLogRow
balance_log_row l none = record {
  log = l;
  order_id = 0;
  warehouse_id = 0;
  order_system = system_unspecified;
}
balance_log_row l (some s) = record {
  log = l;
  order_id = s.order_id;
  warehouse_id = s.warehouse_id;
  order_system = s.order_system;
}

-- The filters on the joined columns: NULL passes none that is asked for.
abbrev pub source_fits : ListTeamBalanceLogRequest → Option BalanceChangeOrderSource → Bool
source_fits pay (some s) =
    if_positive pay.order_id s.order_id
    && (if_positive pay.warehouse_id s.warehouse_id && if_system pay.order_system s.order_system)
source_fits pay none =
    pay.order_id == 0
    && (pay.warehouse_id == 0
        && elim pay.order_system [ system_unspecified ↦ true | legacy ↦ false | v3 ↦ false ])

abbrev pub log_fits : ListTeamBalanceLogRequest → Db → BalanceChangeLog → Bool
log_fits pay d l =
    l.team_id == pay.team_id
    && (if_positive pay.for_team_id l.for_team_id
        && (if_type pay.balance_type l.balance_type
            && (if_from pay.from_time l.created_at
                && (if_to pay.to_time l.created_at && source_fits pay (source_of d l)))))

abbrev pub log_rows : ListTeamBalanceLogRequest → Db → List BalanceLogRow
log_rows pay d = map (λ l. balance_log_row l (source_of d l)) (filter_rows (log_fits pay d) d.logs)

unfoldable pub list_team_balance_log :
    (p : Pagination)
    → Option p.Page
    → ListTeamBalanceLogRequest
    → M (List BalanceLogItem × p.PageInfo)
unfolding query row_count newest_first
list_team_balance_log p page pay =
    with_page p page λ asked. paged p asked (log_rows pay) (λ row. row.log.id) balance_log_item

pub record OweLimitCustomItem : Type 0 where
  pub id : ℕ
  pub for_team_id : ℕ
  pub threshold : Amount

abbrev pub is_custom_row_of : ℕ → OweLimitConfiguration → Bool
is_custom_row_of team cfg =
    cfg.team_id == team
    && (not (is_default_row cfg) && elim cfg.for_team_id [ some t ↦ true | none ↦ false ])

abbrev pub custom_item : OweLimitConfiguration → OweLimitCustomItem
custom_item cfg = record {
  id = cfg.id;
  for_team_id = id_or_zero cfg.for_team_id;
  threshold = cfg.threshold;
}

unfoldable pub owe_limit_custom_list :
    (p : Pagination) → Option p.Page → ℕ → M (List OweLimitCustomItem × p.PageInfo)
unfolding query row_count newest_first
owe_limit_custom_list p page team = with_page p page λ asked.
    paged p asked (λ d. filter_rows (is_custom_row_of team) d.configs) (λ cfg. cfg.id) custom_item
