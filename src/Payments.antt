-- ===== src/Payments.antt =====
-- invoice_v2/payment.go, create_payment.go, accept_payment.go and reject_payment.go: settlements
-- between two teams. A payment is created PENDING, and the receiver accepts or rejects it.
pub mod Honesty
pub mod Flight
pub mod Settlement
pub mod Settled
pub mod Sound
pub mod Loading
pub mod Accepting
pub mod Rejecting
pub mod Creating
use Prim.Native.String.{String}
use invoice_service.Prelude.{
  ℕ, suc, ◌||◌, Bool, true, false, not, Option, none, some, List, [], ◌∷◌, ◌++◌, ◌==◌,
  if◌then◌else◌,
}
use invoice_service.Prelude.Int.{ℤ, pos, ◌-ℤ◌, neg, ltb_ℤ}
use invoice_service.Prelude.Rows.{find_row, update_rows}
use invoice_service.Prelude.Text.{decimal, sprintf}
use invoice_service.Models.Enums.{
  Time, Amount, BalanceType, payable, receivable, payment, PaymentStatus, pending, accepted,
  rejected, is_pending,
}
use invoice_service.Models.Ledger.{TeamBalance, Account}
use invoice_service.Models.Payment.{InvoicePayment}
use invoice_service.Store.{
  Db, Error, teams_must_differ, payment_not_found, payment_mismatch, payment_already, M, pure,
  raise, guard, statement, query, execute, ◌>>=◌, ◌>>◌, transaction,
}
use invoice_service.Ledger.{
  Entry, entry_of, identity, lock_or_create_balance, adjust_pending, post_double_entry,
}

abbrev pub has_payment_id : ℕ → InvoicePayment → Bool
has_payment_id i p = p.id == i

abbrev pub found_payment : Option InvoicePayment → M InvoicePayment
found_payment none = raise payment_not_found
found_payment (some p) = pure p

-- The row, locked, if it belongs to the pair and is PENDING.
unfoldable pub load_pending_payment : ℕ → ℕ → ℕ → M InvoicePayment
unfolding query
load_pending_payment payment_id team for_team = do
  found ← query (λ d. find_row (has_payment_id payment_id) d.payments)
  p ← found_payment found
  guard (not (p.team_id == team) || not (p.for_team_id == for_team)) payment_mismatch
  guard (not (is_pending p.status)) (payment_already p.status)
  pure p

pub record CreatePaymentRequest : Type 0 where
  pub team_id : ℕ
  pub for_team_id : ℕ
  pub amount : Amount
  pub note : String
  pub document_id : String

abbrev pub new_payment : CreatePaymentRequest → ℕ → ℕ → Time → InvoicePayment
new_payment pay i created_by now = record {
  id = i;
  team_id = pay.team_id;
  for_team_id = pay.for_team_id;
  document_id = pay.document_id;
  amount = pay.amount;
  note = pay.note;
  status = pending;
  created_by_id = created_by;
  completed_by_id = none;
  created_at = now;
  accepted_at = none;
  rejected_at = none;
  updated_at = now;
}

abbrev pub insert_payment : InvoicePayment → Db → Db
insert_payment p d = record d { payments = d.payments ++ p ∷ []; payment_seq = suc d.payment_seq }

abbrev pub payer_account : ℕ → ℕ → Account
payer_account team for_team = record { team = team; for_team = for_team; kind = payable }

abbrev pub receiver_account : ℕ → ℕ → Account
receiver_account team for_team = record { team = for_team; for_team = team; kind = receivable }

-- The in-flight amount is tracked on both sides of the pair.
unfoldable pub adjust_both : ℕ → ℕ → Amount → Time → M Unit
adjust_both team for_team delta now = do
  adjust_pending (payer_account team for_team) delta now
  adjust_pending (receiver_account team for_team) delta now

-- The response is the id of the new payment.
unfoldable pub create_payment : Option ℕ → Time → CreatePaymentRequest → M ℕ
unfolding adjust_both
create_payment caller now pay = do
  guard (pay.team_id == pay.for_team_id) teams_must_differ
  created_by ← identity caller
  transaction do
    id ←
        statement
          (λ d. (d.payment_seq, insert_payment (new_payment pay d.payment_seq created_by now) d))
    adjust_both pay.team_id pay.for_team_id pay.amount now
    pure id

-- AcceptPaymentRequest and RejectPaymentRequest.
pub record CompletePaymentRequest : Type 0 where
  pub payment_id : ℕ
  pub team_id : ℕ
  pub for_team_id : ℕ

-- The debt that a balance of the payer's PAYABLE stands for, and what a payment settles of it.
unfoldable pub outstanding_of : Amount → Amount
outstanding_of balance = if ltb_ℤ balance (pos 0) then neg balance else pos 0

unfoldable pub settle_of : Amount → Amount → Amount
settle_of outstanding amount = if ltb_ℤ outstanding amount then outstanding else amount

abbrev pub post_positive : ℕ → ℕ → BalanceType → Amount → Entry → M Unit
post_positive team for_team bt amount e =
    if ltb_ℤ (pos 0) amount then post_double_entry team for_team bt amount e else pure tt

abbrev pub with_accepted : ℕ → Time → InvoicePayment → InvoicePayment
with_accepted completed_by now p = record p {
  status = accepted;
  accepted_at = some now;
  completed_by_id = some completed_by;
  updated_at = now;
}

abbrev pub with_rejected : ℕ → Time → InvoicePayment → InvoicePayment
with_rejected completed_by now p = record p {
  status = rejected;
  rejected_at = some now;
  completed_by_id = some completed_by;
  updated_at = now;
}

abbrev pub set_payment : ℕ → (InvoicePayment → InvoicePayment) → Db → Db
set_payment i g d = record d { payments = update_rows (has_payment_id i) g d.payments }

abbrev pub settle_note : InvoicePayment → String
settle_note p = sprintf ("payment #" ∷ decimal p.id ∷ [])

abbrev pub credit_note : InvoicePayment → String
credit_note p = sprintf ("payment #" ∷ decimal p.id ∷ " overpayment credit" ∷ [])

-- The debt portion moves the payer's PAYABLE toward zero, and an overpayment becomes a credit.
unfoldable pub settle_payment : InvoicePayment → ℕ → Time → M Unit
unfolding outstanding_of settle_of
settle_payment p completed_by now = do
  bal ← lock_or_create_balance (payer_account p.team_id p.for_team_id) now
  let settle = settle_of (outstanding_of bal.balance) p.amount
  let surplus = p.amount -ℤ settle
  post_positive p.team_id p.for_team_id payable settle
      (entry_of payment (settle_note p) completed_by now none)
  post_positive p.team_id p.for_team_id receivable surplus
      (entry_of payment (credit_note p) completed_by now none)

unfoldable pub accept_payment : Option ℕ → Time → CompletePaymentRequest → M Unit
unfolding adjust_both execute
accept_payment caller now pay = do
  completed_by ← identity caller
  transaction do
    p ← load_pending_payment pay.payment_id pay.team_id pay.for_team_id
    settle_payment p completed_by now
    adjust_both p.team_id p.for_team_id (neg p.amount) now
    execute (set_payment p.id (with_accepted completed_by now))

unfoldable pub reject_payment : Option ℕ → Time → CompletePaymentRequest → M Unit
unfolding adjust_both execute
reject_payment caller now pay = do
  completed_by ← identity caller
  transaction do
    p ← load_pending_payment pay.payment_id pay.team_id pay.for_team_id
    adjust_both p.team_id p.for_team_id (neg p.amount) now
    execute (set_payment p.id (with_rejected completed_by now))
