-- ===== src/Push/Honesty.antt =====
-- A failing statement can only stop the handler of pushed events.
use invoice_service.Prelude.{ℕ, Bool, true, false, Option, none, some, List, [], ◌∷◌}
use invoice_service.Prelude.Text.{same_text}
use invoice_service.Models.Enums.{Time}
use invoice_service.Store.{M}
use invoice_service.Store.Honest.{
  Honest, Honest-pure, Honest-raise, Honest-query, Honest-statement, Honest-if, Honest-bind,
  Honest-transaction,
}
use invoice_service.Ledger.Honesty.{post_balance_log-Honest}
use invoice_service.Push.{
  for_each, post_problem_stock_balance, post_cod_fee_balance, post_cross_order_balance,
  post_warehouse_fee_balance, post_order_balances, post_payment_accept_balance,
}
use invoice_service.Push.Handler.{
  SellingEvent, order_created, order_canceled, payment_accept, other_selling, StockEvent,
  restock_accepted, stock_problem, other_stock, Wire, PushRequest, post_selling, post_stock,
  handle_fresh, handle_push,
}

for_each-Honest :
    {A : Type 0} (f : A → M (Unit {0}))
    → ((x : A) → Honest (f x))
    → (xs : List A) → Honest (for_each f xs)
for_each-Honest f h [] = Honest-pure tt
for_each-Honest f h (x ∷ xs) = Honest-bind _ _ (h x) λ _. for_each-Honest f h xs

problem-Honest : (tx : ℕ) (now : Time) → Honest (post_problem_stock_balance tx now)
unfolding post_problem_stock_balance
problem-Honest tx now = Honest-bind _ _ (Honest-query _) λ items.
    for_each-Honest _
      (λ item. Honest-if _ _ _ (Honest-pure tt) (post_balance_log-Honest _ _ _ _ _ _ _ _ _)) items

cod_fee-Honest : (tx : ℕ) (now : Time) → Honest (post_cod_fee_balance tx now)
unfolding post_cod_fee_balance
cod_fee-Honest tx now =
    Honest-bind _ _ (Honest-query _)
      λ info. Honest-if _ _ _ (Honest-pure tt) (post_balance_log-Honest _ _ _ _ _ _ _ _ _)

submission-Honest : (i : ℕ) (now : Time) → Honest (post_payment_accept_balance i now)
unfolding post_payment_accept_balance
submission-Honest i now =
    Honest-bind _ _ (Honest-query _)
      λ info. Honest-if _ _ _ (Honest-pure tt) (post_balance_log-Honest _ _ _ _ _ _ _ _ _)

order-Honest :
    (order : ℕ) (reverse : Bool) (now : Time) → Honest (post_order_balances order reverse now)
unfolding post_order_balances post_cross_order_balance post_warehouse_fee_balance
order-Honest order reverse now =
    Honest-bind _ _
      (Honest-bind _ _ (Honest-query _) λ items.
        for_each-Honest _
          (λ item. Honest-if _ _ _ (Honest-pure tt) (post_balance_log-Honest _ _ _ _ _ _ _ _ _))
          items)
      λ _.
        Honest-bind _ _ (Honest-query _)
          λ info. Honest-if _ _ _ (Honest-pure tt) (post_balance_log-Honest _ _ _ _ _ _ _ _ _)

selling-Honest : (now : Time) (event : Option SellingEvent) → Honest (post_selling now event)
selling-Honest now none = Honest-raise _
selling-Honest now (some (order_created order at)) = order-Honest order false at
selling-Honest now (some (order_canceled order at)) = order-Honest order true at
selling-Honest now (some (payment_accept i)) = submission-Honest i now
selling-Honest now (some other_selling) = Honest-pure tt

stock-Honest : (now : Time) (event : Option StockEvent) → Honest (post_stock now event)
stock-Honest now none = Honest-raise _
stock-Honest now (some (restock_accepted tx)) = cod_fee-Honest tx now
stock-Honest now (some (stock_problem tx)) = problem-Honest tx now
stock-Honest now (some other_stock) = Honest-pure tt

module _ (wire : Wire) (now : Time) (msg : PushRequest) where
  fresh-Honest : (fresh : Bool) → Honest (handle_fresh wire now msg fresh)
  fresh-Honest true =
      Honest-if (same_text msg.subscription wire.selling_path) _ _
        (selling-Honest now (wire.selling_event msg.payload))
        (Honest-if (same_text msg.subscription wire.stock_path) _ _
          (stock-Honest now (wire.stock_event msg.payload)) (Honest-pure tt))
  fresh-Honest false = Honest-pure tt

  pub handle_push-Honest : Honest (handle_push wire now msg)
  unfolding handle_push
  handle_push-Honest = Honest-transaction _ (Honest-bind _ _ (Honest-statement _) fresh-Honest)
