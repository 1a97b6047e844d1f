-- ===== src/Tests/Histories.antt =====
-- Histories of calls at concrete tables.
use mathlib.Core.List.{Permᴰ}
use invoice_service.Prelude.{◌≡◌, refl, none, some, [], ◌∷◌}
use invoice_service.Prelude.Int.{pos}
use invoice_service.Prelude.Rows.{find_row, update_rows}
use invoice_service.Models.Enums.{receivable}
use invoice_service.Store.{query, execute, statement, transaction}
use invoice_service.Ledger.{
  CreateBalanceLogRequest, create_balance_log, post_balance_log, post_double_entry, post_entry,
  lock_or_create_balance, opposite_balance, upsert_daily_log,
}
use invoice_service.Ledger.Accounts.{balance_of}
use invoice_service.Ledger.DoubleEntry.{account, IsLedger}
use invoice_service.Ledger.Book.{
  Call, run_calls, book_of, book_after, run_calls-refines, run_calls-order,
}
use invoice_service.Tests.{fresh, fresh-IsSound, entry, traded, traded-IsLedger}

abbrev smaller : CreateBalanceLogRequest
smaller = record entry { change_amount = pos 500; note = "later" }

-- The first call, the second, and one whose fourth statement fails.
abbrev first_call : Call
first_call = record { caller = some 9; now = 100_000_000_000_000; pay = entry; fuse = none }

abbrev second_call : Call
second_call = record { caller = some 8; now = 200_000_000_000_000; pay = smaller; fuse = none }

abbrev failing_call : Call
failing_call = record first_call { fuse = some 3 }

run_calls-refines_example :
    IsLedger (run_calls (first_call ∷ failing_call ∷ second_call ∷ []) traded).1
    × (book_of (run_calls (first_call ∷ failing_call ∷ second_call ∷ []) traded).1
        ≡ book_after
            (run_calls (first_call ∷ failing_call ∷ second_call ∷ []) traded).0
            (book_of traded))
run_calls-refines_example =
    run_calls-refines (first_call ∷ failing_call ∷ second_call ∷ []) traded traded-IsLedger

either_order :
    Permᴰ
      (run_calls (first_call ∷ failing_call ∷ second_call ∷ []) fresh).0
      (run_calls (second_call ∷ first_call ∷ []) fresh).0
unfolding run_calls create_balance_log post_balance_log post_double_entry post_entry query execute
    statement transaction find_row update_rows lock_or_create_balance opposite_balance
    upsert_daily_log
either_order = Permᴰ.swap refl refl

run_calls-order_example :
    balance_of
      (account 2 1 receivable)
      (run_calls (first_call ∷ failing_call ∷ second_call ∷ []) fresh).1.balances
    ≡ balance_of
        (account 2 1 receivable)
        (run_calls (second_call ∷ first_call ∷ []) fresh).1.balances
run_calls-order_example =
    run_calls-order (first_call ∷ failing_call ∷ second_call ∷ []) (second_call ∷ first_call ∷ [])
      fresh fresh-IsSound.ledger either_order (account 2 1 receivable)
