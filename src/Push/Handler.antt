-- ===== src/Push/Handler.antt =====
-- push_handler.go, NewInvoicePushHandler: the inbox, the decoding of the event and its dispatch.
use Prim.Native.String.{String}
use invoice_service.Prelude.{
  ℕ, ◌&&◌, Bool, true, false, Option, none, some, [], ◌∷◌, ◌++◌, if◌then◌else◌,
}
use invoice_service.Prelude.Text.{same_text}
use invoice_service.Prelude.Rows.{find_row}
use invoice_service.Models.Enums.{Time}
use invoice_service.Models.Payment.{InvoiceExactlyOnceLog}
use invoice_service.Store.{Db, malformed_event, M, pure, raise, statement, ◌>>=◌, transaction}
use invoice_service.Push.{
  post_order_balances, post_payment_accept_balance, post_cod_fee_balance,
  post_problem_stock_balance,
}

pub record PushRequest : Type 0 where
  pub message_id : String
  pub subscription : String
  pub payload : String

-- The cases of the events that the handler names, with the fields that it reads.
pub data SellingEvent : Type 0 where
  order_created order_canceled : ℕ → Time → SellingEvent
  payment_accept : ℕ → SellingEvent
  other_selling : SellingEvent

pub data StockEvent : Type 0 where
  restock_accepted stock_problem : ℕ → StockEvent
  other_stock : StockEvent

-- What the handler takes from elsewhere: the paths of the two subscriptions of the project, and
-- protojson's decoding of a message.
pub record Wire : Type 0 where
  pub selling_path : String
  pub stock_path : String
  pub selling_event : String → Option SellingEvent
  pub stock_event : String → Option StockEvent

abbrev pub is_message : PushRequest → InvoiceExactlyOnceLog → Bool
is_message msg seen =
    same_text seen.id msg.message_id && same_text seen.subscription msg.subscription

abbrev pub inbox_row : PushRequest → Time → InvoiceExactlyOnceLog
inbox_row msg now = record {
  id = msg.message_id;
  subscription = msg.subscription;
  created_at = now;
}

-- INSERT … ON CONFLICT DO NOTHING: whether a row was written.
abbrev pub insert_seen_or : PushRequest → Time → Db → Option InvoiceExactlyOnceLog → Bool × Db
insert_seen_or msg now d (some seen) = (false, d)
insert_seen_or msg now d none = (true, record d { inbox = d.inbox ++ inbox_row msg now ∷ [] })

abbrev pub insert_seen : PushRequest → Time → Db → Bool × Db
insert_seen msg now d = insert_seen_or msg now d (find_row (is_message msg) d.inbox)

abbrev pub post_selling : Time → Option SellingEvent → M (Unit {0})
post_selling now none = raise malformed_event
post_selling now (some (order_created order at)) = post_order_balances order false at
post_selling now (some (order_canceled order at)) = post_order_balances order true at
post_selling now (some (payment_accept submission)) = post_payment_accept_balance submission now
post_selling now (some other_selling) = pure tt

abbrev pub post_stock : Time → Option StockEvent → M (Unit {0})
post_stock now none = raise malformed_event
post_stock now (some (restock_accepted tx)) = post_cod_fee_balance tx now
post_stock now (some (stock_problem tx)) = post_problem_stock_balance tx now
post_stock now (some other_stock) = pure tt

abbrev pub dispatch : Wire → Time → PushRequest → M (Unit {0})
dispatch wire now msg =
    if same_text msg.subscription wire.selling_path
    then post_selling now (wire.selling_event msg.payload)
    else if same_text msg.subscription wire.stock_path
    then post_stock now (wire.stock_event msg.payload)
    else pure tt

abbrev pub handle_fresh : Wire → Time → PushRequest → Bool → M (Unit {0})
handle_fresh wire now msg true = dispatch wire now msg
handle_fresh wire now msg false = pure tt

unfoldable pub handle_push : Wire → Time → PushRequest → M (Unit {0})
handle_push wire now msg =
    transaction do fresh ← statement (insert_seen msg now); handle_fresh wire now msg fresh
