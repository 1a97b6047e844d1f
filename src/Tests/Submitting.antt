-- ===== src/Tests/Submitting.antt =====
-- The theorems of the payment submissions at concrete tables.
use invoice_service.Prelude.{◌≡◌, ◌⊎◌, refl, Bool, false, arith, some, ◌==◌}
use invoice_service.Prelude.Int.{pos}
use invoice_service.Models.Shop.{
  Invoice, InvoiceType, PaymentSubmission, submission_accepted, common_adjustment,
}
use invoice_service.Store.{Db, Error, ok, err, calm}
use invoice_service.Submissions.{Agent, with_shop}
use invoice_service.SubmissionCreate.{create_submission, no_invoices}
use invoice_service.SubmissionCreate.Claiming.{IsOwed, all_listed, create_submission_succeeds}
use invoice_service.TeamPage.{order_by, insert_by}
use invoice_service.Prelude.Rows.{filter_rows}
use invoice_service.Prelude.Every.{Every}
use invoice_service.SubmissionCreate.Chosen.{
  Submits, claimed, submitted_with, create_submission-claims,
}
use invoice_service.Tests.{owing, owing-WellNumbered}

abbrev cashier : Agent
cashier = record { user_id = 9; agent_type = "user" }

abbrev only_first : Invoice → Bool
only_first i = i.id == 1

abbrev accepted_before : PaymentSubmission
accepted_before = record {
  id = 0;
  amount = pos 9_000;
  created_by_id = 9;
  status = submission_accepted;
  completed_by_id = some 8;
  receipt = "receipt";
  created_at = 100;
}

abbrev common : Invoice → InvoiceType
common i = common_adjustment

create_submission-claims_example :
    ((x : Error) × (create_submission only_first cashier 600 "receipt" (pos 0) (calm owing)
        ≡ (err x, calm owing)))
    ⊎ ((after : Db) × (create_submission only_first cashier 600 "receipt" (pos 0) (calm owing)
          ≡ (ok tt, calm after))
        × Submits only_first cashier 600 "receipt" (pos 0) owing after)
create_submission-claims_example =
    create_submission-claims only_first cashier 600 "receipt" (pos 0) owing owing-WellNumbered

first-IsOwed :
    Every
      (IsOwed (claimed only_first cashier 600 "receipt" (pos 0) owing))
      (all_listed only_first cashier 600 "receipt" owing)
unfolding filter_rows order_by insert_by
first-IsOwed = (((refl, refl), omega arith), tt)

first_listed : no_invoices (all_listed only_first cashier 600 "receipt" owing) ≡ false
unfolding filter_rows order_by insert_by
first_listed = refl

create_submission_succeeds_example :
    create_submission only_first cashier 600 "receipt" (pos 0) (calm owing) ≡ (
      ok tt,
      calm (
          with_shop
            (submitted_with cashier 600 "receipt"
              (all_listed only_first cashier 600 "receipt" owing))
            owing),
    )
create_submission_succeeds_example =
    create_submission_succeeds only_first cashier 600 "receipt" owing owing-WellNumbered
      first_listed first-IsOwed
