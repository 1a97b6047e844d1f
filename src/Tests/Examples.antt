-- ===== src/Tests/Examples.antt =====
-- The theorems at concrete tables and requests.
use invoice_service.Prelude.{
  ℕ, ◌≡◌, ◌%◌, ◌≢◌, ◌≤◌, ◌<◌, ◌+◌, ◌⊎◌, true, false, none, some, [], ◌∷◌, arith, if◌then◌else◌,
  List, map, zero, suc,
}
use invoice_service.Prelude.Int.{pos, negsuc, ◌+ℤ◌, ◌≤ℤ◌}
use invoice_service.Prelude.Rows.{find_row}
use invoice_service.Prelude.Text.{same_text}
use invoice_service.Models.Enums.{receivable, adjustment}
use invoice_service.Models.Ledger.{Account}
use invoice_service.Store.{Db, Error, ok, err, calm, code, invalid_argument}
use invoice_service.Store.Outcome.{Ends}
use invoice_service.Ledger.{create_balance_log, post_balance_log, start_of_jakarta_day}
use invoice_service.Ledger.Accounts.{balance_of}
use invoice_service.Ledger.Days.{start_of_jakarta_day_lem}
use invoice_service.Ledger.Requests.{
  IsAcceptable, Logged, post_balance_log-checks, create_balance_log_all_or_nothing,
  create_balance_log_succeeds,
}
use invoice_service.Payments.{create_payment, accept_payment, reject_payment, new_payment}
use invoice_service.Payments.Sound.{IsSound}
use invoice_service.Payments.Settlement.{settled_part, surplus_part, settlement_split}
use invoice_service.Payments.Creating.{
  Created, create_payment_all_or_nothing, create_payment_succeeds,
}
use invoice_service.Payments.Accepting.{
  Accepted, accept_payment_all_or_nothing, accept_payment_succeeds,
}
use invoice_service.Payments.Rejecting.{
  Declined, reject_payment_all_or_nothing, reject_payment_succeeds,
}
use invoice_service.Push.{post_order_balances}
use invoice_service.Push.Handler.{
  Wire, PushRequest, order_created, is_message, inbox_row, handle_push,
}
use invoice_service.Push.Orders.{cancel_nets_zero}
use invoice_service.Push.Once.{Handled, handle_push_all_or_nothing, redelivery_changes_nothing}
use invoice_service.Models.Payment.{InvoicePayment}
use invoice_service.Models.OweLimit.{OweLimitConfiguration}
use invoice_service.Models.Enums.{status_unspecified}
use invoice_service.OweLimit.{
  owe_limit_default_set, owe_limit_default_get, owe_limit_custom_set, is_custom_of,
}
use invoice_service.OweLimit.Rounds.{default_set_get, custom_set_stores}
use invoice_service.Lists.{
  Pagination, row_count, ListPaymentRequest, to_proto_payment, list_payment, list_incoming_payment,
  owe_limit_custom_list, custom_item,
}
use invoice_service.Lists.Order.{
  Lists, list_payment_lem, list_incoming_payment_lem, owe_limit_custom_list_lem,
}
use invoice_service.Lists.Listed.{IsOutgoing, IsIncoming, IsCustomRowOf}
use invoice_service.OweLimit.{elem, GoMap, OweLimitAllow, check_owe_limit}
use invoice_service.OweLimit.Rules.{rule, current_debt, decision}
use invoice_service.OweLimit.Answers.{check_owe_limit_lem}
use invoice_service.Reachable.{begin, then_step, create_step, accept_step, Reachable-IsSound}
use invoice_service.Tests.{
  fresh, fresh-IsSound, request, completion, teams_differ, waiting, waiting-IsSound, waiting-IsOpen,
  entry, failing,
}

create_balance_log_all_or_nothing_example :
    Ends
      (λ _. Logged (some 9) entry fresh)
      fresh
      (create_balance_log (some 9) 100 entry (failing fresh))
create_balance_log_all_or_nothing_example =
    create_balance_log_all_or_nothing 100 entry (some 9) (failing fresh) fresh-IsSound.ledger

entry-IsAcceptable : IsAcceptable 2 1 adjustment (pos 7_000) receivable
entry-IsAcceptable = record {
  has_team = λ e. omega arith;
  has_counterparty = λ e. omega arith;
  differ = λ e. omega arith;
  positive = omega arith;
  has_change_type = λ e. cc;
  has_type = λ e. cc;
}

create_balance_log_succeeds_example :
    (d' : Db) × (create_balance_log (some 9) 100 entry (calm fresh) ≡ (ok tt, calm d'))
    × Logged (some 9) entry fresh d'
create_balance_log_succeeds_example =
    create_balance_log_succeeds 9 100 entry fresh fresh-IsSound.ledger entry-IsAcceptable

post_balance_log-checks_example :
    IsAcceptable 2 2 adjustment (pos 7_000) receivable
    ⊎ ((x : Error) × (code x ≡ invalid_argument)
        × (post_balance_log 2 2 adjustment (pos 7_000) receivable "self" 9 100 [] (calm fresh)
            ≡ (err x, calm fresh)))
post_balance_log-checks_example =
    post_balance_log-checks 2 2 adjustment (pos 7_000) receivable "self" 9 100 [] (calm fresh)

create_payment_all_or_nothing_example :
    Ends
      (Created (some 9) 100 request fresh)
      fresh
      (create_payment (some 9) 100 request (failing fresh))
create_payment_all_or_nothing_example =
    create_payment_all_or_nothing (some 9) 100 request (failing fresh) fresh-IsSound

create_payment_succeeds_example :
    (id : ℕ) × (d' : Db) × (create_payment (some 9) 100 request (calm fresh) ≡ (ok id, calm d'))
    × Created (some 9) 100 request fresh id d'
create_payment_succeeds_example =
    create_payment_succeeds 9 100 request fresh fresh-IsSound teams_differ

accept_payment_all_or_nothing_example :
    Ends
      (λ _. Accepted (some 8) 200 completion waiting)
      waiting
      (accept_payment (some 8) 200 completion (failing waiting))
accept_payment_all_or_nothing_example =
    accept_payment_all_or_nothing (some 8) 200 completion (failing waiting) waiting-IsSound

accept_payment_succeeds_example :
    (d' : Db) × (accept_payment (some 8) 200 completion (calm waiting) ≡ (ok tt, calm d'))
    × Accepted (some 8) 200 completion waiting d'
accept_payment_succeeds_example =
    accept_payment_succeeds 8 200 completion waiting (new_payment request 0 9 100) waiting-IsSound
      waiting-IsOpen

reject_payment_all_or_nothing_example :
    Ends
      (λ _. Declined (some 8) 200 completion waiting)
      waiting
      (reject_payment (some 8) 200 completion (failing waiting))
reject_payment_all_or_nothing_example =
    reject_payment_all_or_nothing (some 8) 200 completion (failing waiting) waiting-IsSound

reject_payment_succeeds_example :
    (d' : Db) × (reject_payment (some 8) 200 completion (calm waiting) ≡ (ok tt, calm d'))
    × Declined (some 8) 200 completion waiting d'
reject_payment_succeeds_example =
    reject_payment_succeeds 8 200 completion waiting (new_payment request 0 9 100) waiting-IsSound
      waiting-IsOpen

-- A debt of 5.000 and a payment of 8.000.
settlement_split_example :
    (settled_part (negsuc 4_999) (pos 8_000) +ℤ surplus_part (negsuc 4_999) (pos 8_000) ≡ pos 8_000)
    × (negsuc 4_999 ≤ℤ pos 0 → negsuc 4_999 +ℤ settled_part (negsuc 4_999) (pos 8_000) ≤ℤ pos 0)
    × (pos 1 ≤ℤ surplus_part (negsuc 4_999) (pos 8_000)
        → pos 0 ≤ℤ negsuc 4_999 +ℤ settled_part (negsuc 4_999) (pos 8_000))
settlement_split_example = settlement_split (negsuc 4_999) (pos 8_000) (omega arith)

cancel_nets_zero_example :
    (d1 : Db) × (d2 : Db) × (post_order_balances 70 false 100 (calm fresh) ≡ (ok tt, calm d1))
    × (post_order_balances 70 true 200 (calm d1) ≡ (ok tt, calm d2))
    × ((j : Account) → balance_of j d2.balances ≡ balance_of j fresh.balances)
cancel_nets_zero_example = cancel_nets_zero 70 100 200 fresh fresh-IsSound

abbrev wire : Wire
wire = record {
  selling_path = "subscriptions/invoice-selling-sub";
  stock_path = "subscriptions/invoice-stock-sub";
  selling_event = λ text. if same_text text "created" then some (order_created 70 100) else none;
  stock_event = λ text. none;
}

abbrev message : PushRequest
message = record {
  message_id = "m1";
  subscription = "subscriptions/invoice-selling-sub";
  payload = "created";
}

handle_push_all_or_nothing_example :
    Ends (λ _. Handled message fresh) fresh (handle_push wire 150 message (calm fresh))
handle_push_all_or_nothing_example =
    handle_push_all_or_nothing wire 150 message (calm fresh) fresh-IsSound

abbrev delivered : Db
delivered = record fresh { inbox = inbox_row message 150 ∷ [] }

delivered_before : find_row (is_message message) delivered.inbox ≢ none
unfolding find_row
delivered_before e = cc

redelivery_changes_nothing_example :
    (handle_push wire 160 message (failing delivered)).1.db ≡ delivered
redelivery_changes_nothing_example =
    redelivery_changes_nothing wire 160 message (failing delivered) delivered_before

abbrev limited : Db
limited = record fresh {
  configs =
      record {
        id = 0;
        team_id = 2;
        is_default = some true;
        for_team_id = none;
        threshold = pos 9_000;
      }
      ∷ record {
        id = 1;
        team_id = 2;
        is_default = none;
        for_team_id = some 1;
        threshold = pos 4_000;
      }
      ∷ [];
}

check_owe_limit_lem_example :
    (answer : GoMap OweLimitAllow) × (check_owe_limit 1 (2 ∷ 3 ∷ []) (calm limited)
      ≡ (ok answer, calm limited))
    × ((c : ℕ)
        → elem c (2 ∷ 3 ∷ []) ≡ true
        → answer c ≡ some (decision (rule 1 c limited.configs) (current_debt 1 c limited.balances)))
check_owe_limit_lem_example = check_owe_limit_lem 1 (2 ∷ 3 ∷ []) limited

start_of_jakarta_day_lem_example :
    (start_of_jakarta_day 200_000_000_000_000 % 86_400_000_000_000 ≡ 61_200_000_000_000)
    × (start_of_jakarta_day 200_000_000_000_000 ≤ 200_000_000_000_000)
    × (200_000_000_000_000 < start_of_jakarta_day 200_000_000_000_000 + 86_400_000_000_000)
    × (start_of_jakarta_day 150_000_000_000_000 ≡ start_of_jakarta_day 200_000_000_000_000)
unfolding start_of_jakarta_day
start_of_jakarta_day_lem_example =
    start_of_jakarta_day_lem 200_000_000_000_000 150_000_000_000_000 (omega arith) (omega arith)
      (omega arith)

Reachable-IsSound_example : IsSound (accept_payment (some 8) 200 completion (calm waiting)).1.db
Reachable-IsSound_example =
    Reachable-IsSound
      (then_step (then_step begin (create_step (some 9) 100 request (calm fresh)))
        (accept_step (some 8) 200 completion (calm waiting)))
      fresh-IsSound

first_rows : {A : Type 0} → ℕ → List A → List A
first_rows zero rows = []
first_rows (suc n) [] = []
first_rows (suc n) (r ∷ rows) = r ∷ first_rows n rows

-- Pages of a given size, the first one only, with the number of rows as the info.
abbrev pages : Pagination
pages = record {
  Page = ℕ;
  PageInfo = ℕ;
  info = λ page count. count;
  cut = λ page rows. first_rows page rows;
}

abbrev of_both : ListPaymentRequest
of_both = record {
  team_id = 1;
  for_team_id = 2;
  status = status_unspecified;
  from_time = some 50;
  to_time = none;
}

list_payment_lem_example :
    (listed : List InvoicePayment) × (list_payment pages (some 10) of_both (calm waiting)
      ≡ (ok (map to_proto_payment (first_rows 10 listed), row_count listed), calm waiting))
    × Lists (λ q. q.id) (IsOutgoing of_both) waiting.payments listed
list_payment_lem_example = list_payment_lem pages 10 of_both waiting

list_incoming_payment_lem_example :
    (listed : List InvoicePayment) × (list_incoming_payment pages (some 10) of_both (calm waiting)
      ≡ (ok (map to_proto_payment (first_rows 10 listed), row_count listed), calm waiting))
    × Lists (λ q. q.id) (IsIncoming of_both) waiting.payments listed
list_incoming_payment_lem_example = list_incoming_payment_lem pages 10 of_both waiting

owe_limit_custom_list_lem_example :
    (listed : List OweLimitConfiguration) × (owe_limit_custom_list pages (some 10) 2 (calm limited)
      ≡ (ok (map custom_item (first_rows 10 listed), row_count listed), calm limited))
    × Lists (λ cfg. cfg.id) (IsCustomRowOf 2) limited.configs listed
owe_limit_custom_list_lem_example = owe_limit_custom_list_lem pages 10 2 limited

default_set_get_example :
    (d1 : Db) × (owe_limit_default_set 2 (pos 6_000) (calm limited) ≡ (ok tt, calm d1))
    × (owe_limit_default_get 2 (calm d1)
        ≡ (ok (record { configured = true; threshold = pos 6_000 }), calm d1))
default_set_get_example = default_set_get 2 (pos 6_000) limited

two_not_five : ◌≢◌ {A = ℕ} 2 5
two_not_five e = omega arith

custom_set_stores_example :
    (d1 : Db) × (cfg : OweLimitConfiguration) × (owe_limit_custom_set 2 5 (pos 3_000) (calm limited)
      ≡ (ok tt, calm d1))
    × (find_row (is_custom_of 2 5) d1.configs ≡ some cfg)
    × (cfg.threshold ≡ pos 3_000)
custom_set_stores_example = custom_set_stores 2 5 (pos 3_000) limited two_not_five
