-- ===== src/Submissions.antt =====
-- invoice_mutations/payment_submission.go: a payment submission claims unpaid invoices, and is accepted
-- or rejected. The conditions of the InvoiceQuery are a parameter, as is the adjustment type that
-- db_models gives an invoice.
pub mod Completion
use Prim.Native.String.{String}
use invoice_service.Prelude.{
  ℕ, suc, ◌&&◌, ◌||◌, Bool, true, false, not, Option, none, some, List, [], ◌∷◌, ◌++◌, map, ltb,
  leb, ◌==◌, if◌then◌else◌,
}
use invoice_service.Prelude.Int.{ℤ, pos, ◌+ℤ◌, ltb_ℤ, eqb_ℤ}
use invoice_service.Prelude.Rows.{filter_rows, update_rows, sum_where, find_row}
use invoice_service.Models.Enums.{Time, Amount}
use invoice_service.Models.Shop.{
  Shop, Invoice, InvoiceStatus, not_final, not_paid, paid, cancel, InvoiceType,
  warehouse_adjustment, product_adjustment, common_adjustment, PaymentSubmission, SubmissionStatus,
  submitted, submission_accepted, submission_rejected, SubmissionInvoice, PaymentSubmissionLog,
  PaymentHistory,
}
use invoice_service.OweLimit.{elem}
use invoice_service.TeamPage.{order_by}
use invoice_service.Store.{
  Db, invoice_not_final, invoice_have_paid, invalid_payment_amount, no_unpaid_invoices,
  submission_missing, submission_completed, submission_not_found, Result, ok, err, M, pure, raise,
  guard, statement, query, execute, continue, ◌>>=◌, ◌>>◌,
}

pub record Agent : Type 0 where
  pub user_id : ℕ
  pub agent_type : String

abbrev pub with_shop : (Shop → Shop) → Db → Db
with_shop g d = record d { shop = g d.shop }

-- InvoiceList.GetIDs and GetAmount.
abbrev pub ids_of_invoices : List Invoice → List ℕ
ids_of_invoices = map (λ i. i.id)

abbrev pub amount_of_invoices : List Invoice → Amount
amount_of_invoices = sum_where (λ i. true) (λ i. i.amount)

abbrev pub log_submission : Agent → Time → ℕ → SubmissionStatus → Shop → Shop
log_submission agent now id status s = record s {
  submission_logs =
      s.submission_logs
      ++ record {
        status = status;
        from = agent.agent_type;
        by_user_id = agent.user_id;
        payment_submission_id = id;
        created_at = now;
      }
        ∷ [];
}

-- CreateLog
abbrev pub create_log : Agent → Time → ℕ → SubmissionStatus → M Unit
create_log agent now id status = execute (with_shop (log_submission agent now id status))

abbrev pub is_completed : SubmissionStatus → Bool
is_completed submitted = false
is_completed submission_accepted = true
is_completed submission_rejected = true

abbrev pub completed_as : SubmissionStatus → ℕ → PaymentSubmission → PaymentSubmission
completed_as status by p = record p { status = status; completed_by_id = some by }

-- UpdateStatus, of the submission that the mutation has loaded.
unfoldable pub update_status : Agent → Time → PaymentSubmission → SubmissionStatus → M Unit
unfolding execute
update_status agent now p status = do
  guard (is_completed p.status) submission_completed
  execute (
      with_shop λ s. record s {
        payment_submissions =
            update_rows (λ r. r.id == p.id) (completed_as status agent.user_id)
              s.payment_submissions;
      })
  create_log agent now p.id status

-- The invoices joined with a submission.
abbrev pub joined_with : ℕ → Shop → Invoice → Bool
joined_with submission s i = elem i.id (
    map (λ j. j.invoice_id)
      (filter_rows (λ j. j.payment_submission_id == submission) s.invoice_payment_submissions))

abbrev is_adjustment : InvoiceType → Bool
is_adjustment warehouse_adjustment = true
is_adjustment product_adjustment = true
is_adjustment common_adjustment = true
is_adjustment _ = false

-- The invoices to be paid, and those to be adjusted.
abbrev pub Claimed : Type 0
Claimed = List Invoice × List Invoice

abbrev pub claim : Invoice → Claimed → Claimed
claim i (pays, adjusts) = (
  pays ++ i ∷ [],
  if not (is_adjustment i.type) && i.need_adj then adjusts ++ i ∷ [] else adjusts,
)

abbrev pub claim_by_status :
    InvoiceStatus → Invoice → (Claimed → Result Claimed) → Claimed → Result Claimed
claim_by_status not_final i rest acc = err (invoice_not_final i.id)
claim_by_status not_paid i rest acc = rest (claim i acc)
claim_by_status paid i rest acc = err (invoice_have_paid i.id)
claim_by_status cancel i rest acc = rest acc

-- The loop of AcceptSubmission.
unfoldable pub claim_all : List Invoice → Claimed → Result Claimed
claim_all [] acc = ok acc
claim_all (i ∷ is) acc = claim_by_status i.status i (claim_all is) acc

abbrev pub create_history : PaymentHistory → Shop → Shop
create_history h s = record s {
  payment_histories = s.payment_histories ++ h ∷ [];
  history_seq = suc s.history_seq;
}

abbrev is_not_paid_yet : InvoiceStatus → Bool
is_not_paid_yet not_paid = true
is_not_paid_yet _ = false

abbrev pub paid_by : ℕ → Time → Time → Invoice → Invoice
paid_by history submitted_at now i = record i {
  hist_id = some history;
  status = paid;
  paid_at = some submitted_at;
  accepted_at = some now;
}

-- UPDATE invoices … WHERE id IN ? AND status = 'not_paid'
abbrev pub set_paid : List ℕ → ℕ → Time → Time → Shop → Shop
set_paid ids history submitted_at now s = record s {
  invoices =
      update_rows (λ i. elem i.id ids && is_not_paid_yet i.status)
        (paid_by history submitted_at now) s.invoices;
}

abbrev pub adjustment_invoice : (Invoice → InvoiceType) → Time → Invoice → ℕ → Invoice
adjustment_invoice type_of now i id = record {
  id = id;
  tx_id = none;
  order_id = i.order_id;
  from_team_id = i.to_team_id;
  to_team_id = i.from_team_id;
  status = not_paid;
  amount = i.amount;
  type = type_of i;
  created = now;
  need_adj = false;
  has_submission = false;
  hist_id = none;
  paid_at = none;
  accepted_at = none;
}

-- CreateAdjustment
unfoldable pub create_adjustment : (Invoice → InvoiceType) → Time → List Invoice → M Unit
unfolding execute
create_adjustment type_of now [] = pure tt
create_adjustment type_of now (i ∷ is) = do
  execute (
      with_shop λ s. record s {
        invoices = s.invoices ++ adjustment_invoice type_of now i s.invoice_seq ∷ [];
        invoice_seq = suc s.invoice_seq;
      })
  create_adjustment type_of now is

unfoldable pub accept_submission :
    (Invoice → InvoiceType) → Agent → Time → Option PaymentSubmission → M Unit
unfolding query execute
accept_submission type_of agent now none = raise submission_missing
accept_submission type_of agent now (some p) = do
  invoices ← query (λ d. filter_rows (joined_with p.id d.shop) d.shop.invoices)
  claimed ← continue (claim_all invoices ([], [])) pure
  update_status agent now p submission_accepted
  history ← statement λ d. (
    d.shop.history_seq,
    with_shop
        (create_history (record {
          id = d.shop.history_seq;
          amount = p.amount;
          created_by_id = agent.user_id;
          created_at = now;
        }))
        d,
  )
  execute (with_shop (set_paid (ids_of_invoices claimed.0) history p.created_at now))
  create_adjustment type_of now claimed.1

-- The second statement of RejectSubmission.
abbrev pub release_invoices : ℕ → Shop → Shop
release_invoices submission s = record s {
  invoices =
      update_rows (joined_with submission s) (λ i. record i { has_submission = false }) s.invoices;
}

unfoldable pub reject_submission : Agent → Time → Option PaymentSubmission → M Unit
unfolding execute
reject_submission agent now none = raise submission_missing
reject_submission agent now (some p) = do
  update_status agent now p submission_rejected
  execute (with_shop (release_invoices p.id))

abbrev found_submission : Option PaymentSubmission → M PaymentSubmission
found_submission none = raise submission_not_found
found_submission (some p) = pure p

-- GetFromQuery; the conditions of the query are a parameter.
unfoldable pub get_from_query : (PaymentSubmission → Bool) → M PaymentSubmission
unfolding query
get_from_query conditions = do
  found ← query (λ d. find_row conditions d.shop.payment_submissions)
  found_submission found
