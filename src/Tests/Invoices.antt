-- ===== src/Tests/Invoices.antt =====
-- The theorems of the invoice manager at concrete tables.
use invoice_service.Prelude.{ℕ, ◌≡◌, ◌≢◌, ◌⊎◌, refl, none, some, List, [], map, arith}
use invoice_service.Prelude.Int.{pos, ◌+ℤ◌, ◌<ℤ◌}
use invoice_service.Store.{calm}
use invoice_service.InvoiceManage.{
  Condition, tx_is, from_is, with_condition, ReadjustAmountPayload, get, readjust_amount,
  insert_invoice, rest_invoice,
}
use invoice_service.InvoiceManage.Readjust.{settled, paid_total}
use invoice_service.InvoiceManage.Balance.{
  new_manage, found, rest_of, swept, new_invoice, readjusted, owed_by, readjust_amount-balances,
}
use invoice_service.Tests.{owing, owing-WellNumbered}

abbrev of_transaction : List Condition
of_transaction = with_condition (from_is 0) (with_condition (tx_is 80) [])

abbrev shipping : ReadjustAmountPayload
shipping = record { from_id = 1; to_id = 2; tx_id = some 80; order_id = none; amount = pos 5_000 }

one_not_two : ◌≢◌ {A = ℕ} 1 2
one_not_two e = omega arith

readjust_amount-balances_example :
    (let (m, s) = get of_transaction new_manage (calm owing) in
      readjust_amount shipping 500 m s ≡ (
        record { invoices = map settled (found of_transaction shipping 500 owing); error = none },
        calm (readjusted of_transaction shipping 500 owing),
      ))
    × (((readjusted of_transaction shipping 500 owing ≡ swept of_transaction shipping 500 owing)
          × (paid_total (found of_transaction shipping 500 owing) ≡ pos 5_000))
        ⊎ ((readjusted of_transaction shipping 500 owing
              ≡ insert_invoice
                  (rest_invoice shipping (rest_of of_transaction shipping 500 owing) 500)
                  (swept of_transaction shipping 500 owing))
            × (pos 0 <ℤ (new_invoice of_transaction shipping 500 owing).amount)
            × (paid_total (found of_transaction shipping 500 owing)
                  +ℤ owed_by 1 (new_invoice of_transaction shipping 500 owing)
                ≡ pos 5_000)))
readjust_amount-balances_example =
    readjust_amount-balances of_transaction shipping 500 owing refl
      (λ fits. (refl, refl), (λ fits. (refl, refl), tt)) owing-WellNumbered one_not_two
