-- ===== src/Push/Orders.antt =====
-- The postings of an order and their reversal: `postOrderBalances`.
use invoice_service.Prelude.{ℕ, ◌≡◌, ◌∙◌, Bool, true, false, List, [], ◌∷◌, if◌then◌else◌}
use invoice_service.Prelude.Int.{ℤ, pos, ◌+ℤ◌, neg, int_laws, +ℤ_zero, +ℤ_assoc}
use invoice_service.Models.Enums.{Time, Amount, payable, receivable, warehouse_fee, product_fee}
use invoice_service.Models.Ledger.{Account, same_account}
use invoice_service.Store.{Db, ok, calm, query}
use invoice_service.Ledger.Accounts.{balance_of}
use invoice_service.Payments.Sound.{IsSound}
use invoice_service.Push.{
  is_degenerate, ProductCrossItem, OrderWarehouseFee, cross_items, warehouse_fee_of,
  post_cross_item, post_warehouse_fee, post_cross_order_balance, post_warehouse_fee_balance,
  post_order_balances,
}
use invoice_service.Push.Nets.{
  both_changes, entry_change, total, Runs, Runs-then, Runs-for_each, Runs-unless_degenerate,
  fine_row,
}

-- The debtor owes the creditor the amount, and, reversed, owes it no longer.
abbrev pub order_change : Bool → ℕ → ℕ → Amount → Account → Amount
order_change reverse debtor creditor amount j =
    if is_degenerate debtor creditor amount
    then pos 0
    else entry_change (if reverse then debtor else creditor) (if reverse then creditor else debtor)
        (if reverse then payable else receivable) amount j

abbrev pub cross_change : Bool → ProductCrossItem → Account → Amount
cross_change reverse item = order_change reverse item.team_id item.product_team_id item.total

abbrev pub fee_change : Bool → OrderWarehouseFee → Account → Amount
fee_change reverse info = order_change reverse info.team_id info.warehouse_id info.fee

-- What posting an order adds to every balance.
abbrev pub whole_order_change : Bool → List ProductCrossItem → OrderWarehouseFee → Account → Amount
whole_order_change reverse items info =
    both_changes (total (cross_change reverse) items) (fee_change reverse info)

swapped : (x y : ℤ) → x +ℤ y ≡ y +ℤ x
swapped x y = omega int_laws

reversed :
    (debtor creditor : ℕ) (amount : Amount) (j : Account)
    → order_change false debtor creditor amount j +ℤ order_change true debtor creditor amount j
      ≡ pos 0
reversed debtor creditor amount j =
    go (is_degenerate debtor creditor amount)
      (same_account (record { team = creditor; for_team = debtor; kind = receivable }) j)
      (same_account (record { team = debtor; for_team = creditor; kind = payable }) j)
  where
    go :
        (bad x y : Bool)
        → (if bad
              then pos 0
              else (if x then amount else pos 0) +ℤ (if y then neg amount else pos 0))
            +ℤ (if bad
                then pos 0
                else (if y then amount else pos 0) +ℤ (if x then neg amount else pos 0))
          ≡ pos 0
    go true x y = omega int_laws
    go false true true = omega int_laws
    go false true false = omega int_laws
    go false false true = omega int_laws
    go false false false = omega int_laws

regroup : (a b c d : ℤ) → a +ℤ b +ℤ (c +ℤ d) ≡ a +ℤ c +ℤ (b +ℤ d)
regroup a b c d = omega int_laws

total-reversed :
    (items : List ProductCrossItem) (j : Account)
    → total (cross_change false) items j +ℤ total (cross_change true) items j ≡ pos 0
total-reversed [] j = omega int_laws
total-reversed (x ∷ items) j =
    regroup (cross_change false x j) (total (cross_change false) items j) (cross_change true x j)
      (total (cross_change true) items j)
    ∙ rw (reversed x.team_id x.product_team_id x.total j, total-reversed items j) (omega int_laws)

whole-reversed :
    (items : List ProductCrossItem) (info : OrderWarehouseFee) (j : Account)
    → whole_order_change false items info j +ℤ whole_order_change true items info j ≡ pos 0
whole-reversed items info j =
    regroup (total (cross_change false) items j) (fee_change false info j)
      (total (cross_change true) items j) (fee_change true info j)
    ∙ rw (total-reversed items j, reversed info.team_id info.warehouse_id info.fee j)
        (omega int_laws)

module _ (order : ℕ) (now : Time) where
  Runs-cross :
      (reverse : Bool) (item : ProductCrossItem) (d : Db)
      → IsSound d
      → Runs (post_cross_item order reverse now item) (cross_change reverse item) d
  Runs-cross true item d sound =
      Runs-unless_degenerate _ _ _ _ _ _ _ _ _ _ d
        (λ fine.
          (fine_row item.team_id item.product_team_id product_fee item.total payable (λ e. cc)
            (λ e. cc) fine).0)
        sound
  Runs-cross false item d sound =
      Runs-unless_degenerate _ _ _ _ _ _ _ _ _ _ d
        (λ fine.
          (fine_row item.team_id item.product_team_id product_fee item.total receivable (λ e. cc)
            (λ e. cc) fine).1)
        sound

  Runs-fee :
      (reverse : Bool) (info : OrderWarehouseFee) (d : Db)
      → IsSound d
      → Runs (post_warehouse_fee order reverse now info) (fee_change reverse info) d
  Runs-fee true info d sound =
      Runs-unless_degenerate _ _ _ _ _ _ _ _ _ _ d
        (λ fine.
          (fine_row info.team_id info.warehouse_id warehouse_fee info.fee payable (λ e. cc)
            (λ e. cc) fine).0)
        sound
  Runs-fee false info d sound =
      Runs-unless_degenerate _ _ _ _ _ _ _ _ _ _ d
        (λ fine.
          (fine_row info.team_id info.warehouse_id warehouse_fee info.fee receivable (λ e. cc)
            (λ e. cc) fine).1)
        sound

  cross-Runs :
      (reverse : Bool) (d : Db)
      → IsSound d
      → Runs
          (post_cross_order_balance order reverse now)
          (total (cross_change reverse) (cross_items order d.shop))
          d
  unfolding post_cross_order_balance query
  cross-Runs reverse d sound =
      Runs-for_each (post_cross_item order reverse now) (cross_change reverse) (Runs-cross reverse)
        (cross_items order d.shop) d sound

  fee-Runs :
      (reverse : Bool) (d : Db)
      → IsSound d
      → Runs
          (post_warehouse_fee_balance order reverse now)
          (fee_change reverse (warehouse_fee_of order d.shop))
          d
  unfolding post_warehouse_fee_balance query
  fee-Runs reverse d sound = Runs-fee reverse (warehouse_fee_of order d.shop) d sound

  pub post_order_balances-Runs :
      (reverse : Bool) (d : Db)
      → IsSound d
      → Runs
          (post_order_balances order reverse now)
          (whole_order_change reverse (cross_items order d.shop) (warehouse_fee_of order d.shop))
          d
  unfolding post_order_balances
  post_order_balances-Runs reverse d sound =
      Runs-then (post_cross_order_balance order reverse now)
        (post_warehouse_fee_balance order reverse now)
        (total (cross_change reverse) (cross_items order d.shop))
        (fee_change reverse (warehouse_fee_of order d.shop)) d (cross-Runs reverse d sound)
        λ d' sound' same_shop. rw (← same_shop) (fee-Runs reverse d' sound')

-- Let the tables at the start keep the invariant of the ledger and the payments.
-- Where no statement fails, an order and its cancellation both succeed, and after the two every
-- balance is what it was.
pub cancel_nets_zero :
    (order : ℕ) (created canceled : Time) (d : Db)
    → IsSound d
    → (d1 : Db) × (d2 : Db) × (post_order_balances order false created (calm d) ≡ (ok tt, calm d1))
      × (post_order_balances order true canceled (calm d1) ≡ (ok tt, calm d2))
      × ((j : Account) → balance_of j d2.balances ≡ balance_of j d.balances)
cancel_nets_zero order created canceled d sound =
    let (d1, ran1, nets1) = post_order_balances-Runs order created false d sound in
    let (d2, ran2, nets2) = post_order_balances-Runs order canceled true d1 nets1.sound in
    (
      d1,
      d2,
      ran1,
      ran2,
      λ j.
          nets2.balances j
          ∙ rw (nets1.balances j, nets1.shop)
              (undone _ _ _
                (whole-reversed (cross_items order d.shop) (warehouse_fee_of order d.shop) j)),
    )
  where
    undone : (x f g : ℤ) → f +ℤ g ≡ pos 0 → x +ℤ f +ℤ g ≡ x
    undone x f g h = +ℤ_assoc x f g ∙ rw (h, +ℤ_zero)
