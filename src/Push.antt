-- ===== src/Push.antt =====
-- push_handler.go: pushed events post their balance entries exactly once, by an inbox row that is
-- written in the transaction of the event. The child Handler has the inbox and the dispatch.
pub mod Handler
pub mod Honesty
pub mod Nets
pub mod Once
pub mod Orders
use Prim.Native.String.{String}
use invoice_service.Prelude.{
  ℕ, ◌&&◌, ◌||◌, Bool, true, false, Option, none, some, List, [], ◌∷◌, ◌++◌, map, ◌==◌,
  if◌then◌else◌,
}
use invoice_service.Prelude.Int.{pos, leb_ℤ}
use invoice_service.Prelude.Rows.{find_row, filter_rows}
use invoice_service.Prelude.Text.{decimal, sprintf}
use invoice_service.Models.Enums.{
  Time, Amount, BalanceType, payable, receivable, warehouse_fee, cod_fee, product_fee, payment,
  stock_problem, legacy,
}
use invoice_service.Models.Payment.{InvoiceExactlyOnceLog}
use invoice_service.Models.Shop.{
  Shop, Order, OrderItem, Product, InvTransaction, RestockCost, ProblemType, lost_w, broken_w,
  other_problem, InvItemProblem, InvTxItem, Sku, Invoice, PaymentSubmission, SubmissionInvoice,
}
use invoice_service.Store.{
  Db, malformed_event, M, pure, raise, statement, query, ◌>>=◌, ◌>>◌, transaction,
}
use invoice_service.Ledger.{OrderSource, post_balance_log}

-- A column of a left-joined table: the zero value where no row joins.
abbrev pub column : {A B : Type 0} → B → (A → B) → Option A → B
column zero_value f none = zero_value
column zero_value f (some row) = f row

abbrev pub joined : {A B : Type 0} → (A → Option B) → Option A → Option B
joined f none = none
joined f (some row) = f row

abbrev pub for_each : {A : Type 0} → (A → M (Unit {0})) → List A → M (Unit {0})
for_each f [] = pure tt
for_each f (x ∷ xs) = f x >> for_each f xs

-- The test on a row that would be a poison message.
abbrev pub is_degenerate : ℕ → ℕ → Amount → Bool
is_degenerate a b amount = (a == 0 || b == 0) || (a == b || leb_ℤ amount (pos 0))

abbrev pub order_of : Shop → ℕ → Option Order
order_of shop i = find_row (λ o. o.id == i) shop.orders

abbrev pub product_of : Shop → ℕ → Option Product
product_of shop i = find_row (λ p. p.id == i) shop.products

abbrev pub transaction_of : Shop → ℕ → Option InvTransaction
transaction_of shop i = find_row (λ t. t.id == i) shop.inv_transactions

pub record ProblemStock : Type 0 where
  pub team_id : ℕ
  pub amount : Amount
  pub for_team_id : ℕ
  pub product_name : String

abbrev pub is_problem : ℕ → InvItemProblem → Bool
is_problem tx iip =
    elim iip.problem_type [ lost_w ↦ true | broken_w ↦ true | other_problem ↦ false ]
    && iip.tx_id == tx

abbrev pub problem_row : Shop → InvItemProblem → ProblemStock
problem_row shop iip =
    let iti = find_row (λ (i : InvTxItem). i.id == iip.tx_item_id) shop.inv_tx_items in
    let s = joined (λ (i : InvTxItem). find_row (λ (k : Sku). k.id == i.sku_id) shop.skus) iti in
    record {
      team_id = column 0 (λ (t : InvTransaction). t.warehouse_id) (transaction_of shop iip.tx_id);
      amount = column (pos 0) (λ (i : InvTxItem). i.total) iti;
      for_team_id = column 0 (λ (k : Sku). k.team_id) s;
      product_name =
          column "" (λ (p : Product). p.name)
            (joined (λ (k : Sku). product_of shop k.product_id) s);
    }

abbrev pub get_problem_stock : ℕ → M (List ProblemStock)
get_problem_stock tx =
    query (λ d. map (problem_row d.shop) (filter_rows (is_problem tx) d.shop.inv_item_problems))

abbrev pub post_problem_item : ℕ → Time → ProblemStock → M (Unit {0})
post_problem_item tx now item =
    if is_degenerate item.team_id item.for_team_id item.amount
    then pure tt
    else post_balance_log item.for_team_id item.team_id stock_problem item.amount receivable
        (sprintf ("stock problem tx " ∷ decimal tx ∷ " " ∷ item.product_name ∷ [])) 0 now []

unfoldable pub post_problem_stock_balance : ℕ → Time → M (Unit {0})
post_problem_stock_balance tx now = do
  items ← get_problem_stock tx
  for_each (post_problem_item tx now) items

pub record CodFee : Type 0 where
  pub cod_fee : Amount
  pub team_id : ℕ
  pub for_team_id : ℕ

abbrev pub no_cod_fee : CodFee
no_cod_fee = record { cod_fee = pos 0; team_id = 0; for_team_id = 0 }

abbrev pub cod_fee_row : Shop → InvTransaction → CodFee
cod_fee_row shop it = record {
  cod_fee =
      column (pos 0) (λ (rc : RestockCost). rc.cod_fee)
        (find_row (λ (rc : RestockCost). rc.inv_transaction_id == it.id) shop.restock_costs);
  team_id = it.team_id;
  for_team_id = it.warehouse_id;
}

abbrev pub get_cod_fee : ℕ → M CodFee
get_cod_fee tx = query (λ d. column no_cod_fee (cod_fee_row d.shop) (transaction_of d.shop tx))

abbrev pub post_cod_fee : ℕ → Time → CodFee → M (Unit {0})
post_cod_fee tx now info =
    if is_degenerate info.team_id info.for_team_id info.cod_fee
    then pure tt
    else post_balance_log info.for_team_id info.team_id cod_fee info.cod_fee receivable
        (sprintf ("restock " ∷ decimal tx ∷ " cod fee" ∷ [])) 0 now []

-- The source reads the id back from a float64, which is exact below 2^53; `tx` is the id that it reads.
unfoldable pub post_cod_fee_balance : ℕ → Time → M (Unit {0})
post_cod_fee_balance tx now = do info ← get_cod_fee tx; post_cod_fee tx now info

pub record ProductCrossItem : Type 0 where
  pub team_id : ℕ
  pub product_team_id : ℕ
  pub warehouse_id : ℕ
  pub created_by_id : ℕ
  pub order_external_id : String
  pub product_name : String
  pub count : ℕ
  pub total : Amount

-- `owned != true` holds of no NULL.
abbrev pub is_cross_item : ℕ → OrderItem → Bool
is_cross_item order oi =
    elim oi.owned [ some false ↦ true | some true ↦ false | none ↦ false ] && oi.order_id == order

abbrev pub warehouse_of : Shop → Option Order → ℕ
warehouse_of shop o =
    column 0 (λ (t : InvTransaction). t.warehouse_id)
      (joined (transaction_of shop) (joined (λ (r : Order). r.invertory_tx_id) o))

abbrev pub cross_item : Shop → OrderItem → ProductCrossItem
cross_item shop oi =
    let o = order_of shop oi.order_id in
    record {
      team_id = column 0 (λ (r : Order). r.team_id) o;
      product_team_id = column 0 (λ (p : Product). p.team_id) (product_of shop oi.product_id);
      warehouse_id = warehouse_of shop o;
      created_by_id = column 0 (λ (r : Order). r.created_by_id) o;
      order_external_id = column "" (λ (r : Order). r.order_ref_id) o;
      product_name = oi.product_name;
      count = oi.count;
      total = oi.total;
    }

abbrev pub cross_items : ℕ → Shop → List ProductCrossItem
cross_items order shop = map (cross_item shop) (filter_rows (is_cross_item order) shop.order_items)

abbrev pub get_product_cross_item : ℕ → M (List ProductCrossItem)
get_product_cross_item order = query (λ d. cross_items order d.shop)

-- `debtor` owes `creditor`: on the creditor's RECEIVABLE, or, reversed, on the debtor's PAYABLE.
abbrev pub verb : Bool → String
verb reverse = if reverse then "cancel " else ""

abbrev pub order_source : ℕ → ℕ → ℕ → OrderSource
order_source order team warehouse = record {
  order_system = legacy;
  order_id = order;
  team_id = team;
  warehouse_id = warehouse;
}

abbrev pub post_cross_item : ℕ → Bool → Time → ProductCrossItem → M (Unit {0})
post_cross_item order reverse now item =
    if is_degenerate item.team_id item.product_team_id item.total
    then pure tt
    else post_balance_log (if reverse then item.team_id else item.product_team_id)
        (if reverse then item.product_team_id else item.team_id) product_fee item.total
        (if reverse then payable else receivable)
        (sprintf (
          verb reverse
          ∷ "order "
          ∷ item.order_external_id
          ∷ " cross product "
          ∷ item.product_name
          ∷ []))
        item.created_by_id now (order_source order item.team_id item.warehouse_id ∷ [])

unfoldable pub post_cross_order_balance : ℕ → Bool → Time → M (Unit {0})
post_cross_order_balance order reverse now = do
  items ← get_product_cross_item order
  for_each (post_cross_item order reverse now) items

pub record OrderWarehouseFee : Type 0 where
  pub team_id : ℕ
  pub warehouse_id : ℕ
  pub created_by_id : ℕ
  pub order_external_id : String
  pub fee : Amount

abbrev pub no_warehouse_fee : OrderWarehouseFee
no_warehouse_fee = record {
  team_id = 0;
  warehouse_id = 0;
  created_by_id = 0;
  order_external_id = "";
  fee = pos 0;
}

abbrev pub warehouse_fee_row : Shop → Order → OrderWarehouseFee
warehouse_fee_row shop o = record {
  team_id = o.team_id;
  warehouse_id = warehouse_of shop (some o);
  created_by_id = o.created_by_id;
  order_external_id = o.order_ref_id;
  fee = o.warehouse_fee;
}

abbrev pub warehouse_fee_of : ℕ → Shop → OrderWarehouseFee
warehouse_fee_of order shop = column no_warehouse_fee (warehouse_fee_row shop) (order_of shop order)

abbrev pub get_warehouse_fee : ℕ → M OrderWarehouseFee
get_warehouse_fee order = query (λ d. warehouse_fee_of order d.shop)

abbrev pub post_warehouse_fee : ℕ → Bool → Time → OrderWarehouseFee → M (Unit {0})
post_warehouse_fee order reverse now info =
    if is_degenerate info.team_id info.warehouse_id info.fee
    then pure tt
    else post_balance_log (if reverse then info.team_id else info.warehouse_id)
        (if reverse then info.warehouse_id else info.team_id) warehouse_fee info.fee
        (if reverse then payable else receivable)
        (sprintf (verb reverse ∷ "order " ∷ info.order_external_id ∷ " warehouse fee" ∷ []))
        info.created_by_id now (order_source order info.team_id info.warehouse_id ∷ [])

unfoldable pub post_warehouse_fee_balance : ℕ → Bool → Time → M (Unit {0})
post_warehouse_fee_balance order reverse now = do
  info ← get_warehouse_fee order
  post_warehouse_fee order reverse now info

unfoldable pub post_order_balances : ℕ → Bool → Time → M (Unit {0})
post_order_balances order reverse now = do
  post_cross_order_balance order reverse now
  post_warehouse_fee_balance order reverse now

pub record PaymentAcceptInfo : Type 0 where
  pub team_id : ℕ
  pub for_team_id : ℕ
  pub amount : Amount

abbrev pub submission_row : Shop → PaymentSubmission → PaymentAcceptInfo
submission_row shop ps =
    let i =
      joined
        (λ (link : SubmissionInvoice).
          find_row (λ (v : Invoice). v.id == link.invoice_id) shop.invoices)
        (find_row (λ (link : SubmissionInvoice). link.payment_submission_id == ps.id)
          shop.invoice_payment_submissions) in
    record {
      team_id = column 0 (λ (v : Invoice). v.from_team_id) i;
      for_team_id = column 0 (λ (v : Invoice). v.to_team_id) i;
      amount = ps.amount;
    }

abbrev pub no_submission : PaymentAcceptInfo
no_submission = record { team_id = 0; for_team_id = 0; amount = pos 0 }

abbrev pub get_payment_submission : ℕ → M PaymentAcceptInfo
get_payment_submission i = query (λ d.
    column no_submission (submission_row d.shop)
      (find_row (λ (ps : PaymentSubmission). ps.id == i) d.shop.payment_submissions))

abbrev pub post_submission : ℕ → Time → PaymentAcceptInfo → M (Unit {0})
post_submission i now info =
    if is_degenerate info.team_id info.for_team_id info.amount
    then pure tt
    else post_balance_log info.team_id info.for_team_id payment info.amount payable
        (sprintf ("payment submission #" ∷ decimal i ∷ [])) 0 now []

unfoldable pub post_payment_accept_balance : ℕ → Time → M (Unit {0})
post_payment_accept_balance i now = do info ← get_payment_submission i; post_submission i now info
