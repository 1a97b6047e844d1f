-- ===== src/SubmissionCreate.antt =====
-- invoice_mutations/payment_submission.go: `CreateSubmission`. The conditions of the InvoiceQuery are a
-- parameter.
pub mod Picked
pub mod Claims
pub mod Chosen
pub mod Claiming
use Prim.Native.String.{String}
use invoice_service.Prelude.{
  ℕ, suc, ◌&&◌, ◌||◌, Bool, true, false, not, Option, none, some, List, [], ◌∷◌, ◌++◌, map, leb,
  ◌==◌, if◌then◌else◌,
}
use invoice_service.Prelude.Int.{ℤ, pos, ◌+ℤ◌, ltb_ℤ, eqb_ℤ}
use invoice_service.Prelude.Rows.{filter_rows, update_rows}
use invoice_service.Models.Enums.{Time, Amount}
use invoice_service.Models.Shop.{
  Shop, Invoice, InvoiceStatus, not_final, not_paid, paid, cancel, PaymentSubmission, submitted,
}
use invoice_service.OweLimit.{elem}
use invoice_service.TeamPage.{order_by}
use invoice_service.Submissions.{
  Agent, with_shop, ids_of_invoices, amount_of_invoices, create_log, is_completed,
}
use invoice_service.Store.{
  Db, invoice_not_final, invoice_have_paid, invalid_payment_amount, no_unpaid_invoices, Result, ok,
  err, M, pure, guard, statement, query, execute, continue, ◌>>=◌, ◌>>◌,
}

-- The ids of the submissions that are neither accepted nor rejected.
abbrev pub open_submissions : Shop → List ℕ
open_submissions s =
    map (λ p. p.id) (filter_rows (λ p. not (is_completed p.status)) s.payment_submissions)

-- activeSubmissionMap: the listed invoices that an open submission claims.
abbrev pub active_in : Shop → List ℕ → List ℕ
active_in s ids =
    map (λ j. j.invoice_id)
      (filter_rows (λ j. elem j.invoice_id ids && elem j.payment_submission_id (open_submissions s))
        s.invoice_payment_submissions)

abbrev pub Chosen : Type 0
Chosen = Amount × List Invoice

-- if total == amount { break }
abbrev pub unless_reached : Amount → (Chosen → Result Chosen) → Chosen → Result Chosen
unless_reached amount rest (total, chosen) =
    if eqb_ℤ total amount then ok (total, chosen) else rest (total, chosen)

abbrev pub add_invoice : Amount → Invoice → (Chosen → Result Chosen) → Chosen → Result Chosen
add_invoice amount i rest (total, chosen) =
    if ltb_ℤ amount (total +ℤ i.amount)
    then err invalid_payment_amount
    else unless_reached amount rest (total +ℤ i.amount, chosen ++ i ∷ [])

abbrev pub choose_by_status :
    InvoiceStatus → List ℕ → Amount → Invoice → (Chosen → Result Chosen) → Chosen → Result Chosen
choose_by_status not_final active amount i rest acc = err (invoice_not_final i.id)
choose_by_status not_paid active amount i rest acc =
    if elem i.id active then rest acc else add_invoice amount i rest acc
choose_by_status paid active amount i rest acc = err (invoice_have_paid i.id)
choose_by_status cancel active amount i rest acc = unless_reached amount rest acc

-- The loop over the invoices of the query.
unfoldable pub choose : List ℕ → Amount → List Invoice → Chosen → Result Chosen
choose active amount [] acc = ok acc
choose active amount (i ∷ is) acc =
    choose_by_status i.status active amount i (choose active amount is) acc

abbrev pub insert_submission : PaymentSubmission → Shop → Shop
insert_submission p s = record s {
  payment_submissions = s.payment_submissions ++ p ∷ [];
  submission_seq = suc s.submission_seq;
}

-- tx.Save(inv), with the new submission in its association.
abbrev pub claim_invoice : ℕ → Invoice → Shop → Shop
claim_invoice submission i s = record s {
  invoices = update_rows (λ r. r.id == i.id) (λ r. record i { has_submission = true }) s.invoices;
  invoice_payment_submissions =
      s.invoice_payment_submissions
      ++ record { payment_submission_id = submission; invoice_id = i.id } ∷ [];
}

unfoldable pub claim_invoices : ℕ → List Invoice → M Unit
unfolding execute
claim_invoices submission [] = pure tt
claim_invoices submission (i ∷ is) = do
  execute (with_shop (claim_invoice submission i))
  claim_invoices submission is

abbrev pub new_submission : Agent → Time → String → Amount → ℕ → PaymentSubmission
new_submission agent now receipt amount id = record {
  id = id;
  amount = amount;
  created_by_id = agent.user_id;
  status = submitted;
  completed_by_id = none;
  receipt = receipt;
  created_at = now;
}

abbrev pub amount_or_all : Amount → List Invoice → Amount
amount_or_all amount invoices = if eqb_ℤ amount (pos 0) then amount_of_invoices invoices else amount

abbrev pub no_invoices : List Invoice → Bool
no_invoices [] = true
no_invoices (i ∷ is) = false

-- The writes: the submission, its invoices, its log.
abbrev pub submit : Agent → Time → String → Amount → List Invoice → M Unit
submit agent now receipt amount chosen = do
  id ← statement λ d. (
    d.shop.submission_seq,
    with_shop (insert_submission (new_submission agent now receipt amount d.shop.submission_seq)) d,
  )
  claim_invoices id chosen
  create_log agent now id submitted

unfoldable pub create_submission : (Invoice → Bool) → Agent → Time → String → Amount → M Unit
unfolding query claim_invoices execute
create_submission conditions agent now receipt amount = do
  invoices ←
      query
        (λ d. order_by (λ i j. leb i.created j.created) (filter_rows conditions d.shop.invoices))
  active ← query (λ d. active_in d.shop (ids_of_invoices invoices))
  let wanted = amount_or_all amount invoices
  found ← continue (choose active wanted invoices (pos 0, [])) pure
  guard (ltb_ℤ found.0 wanted) invalid_payment_amount
  guard (no_invoices found.1) no_unpaid_invoices
  submit agent now receipt wanted found.1
