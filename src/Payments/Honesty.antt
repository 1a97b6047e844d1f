-- ===== src/Payments/Honesty.antt =====
-- Whichever statement fails, the payment handlers report it or do what they do without.
use invoice_service.Prelude.{ℕ, refl, not, ◌||◌, Option, none, some, ◌==◌}
use invoice_service.Prelude.Int.{pos, ◌-ℤ◌, neg, ltb_ℤ}
use invoice_service.Models.Enums.{
  Time, Amount, BalanceType, payable, receivable, payment, is_pending,
}
use invoice_service.Models.Payment.{InvoicePayment}
use invoice_service.Store.{teams_must_differ, payment_mismatch, payment_already, guard}
use invoice_service.Store.Honest.{
  Honest, Honest-pure, Honest-raise, Honest-statement, Honest-guard, Honest-if, Honest-bind,
  Honest-transaction, transaction_rolls_back,
}
use invoice_service.Store.Outcome.{RollsBack}
use invoice_service.Ledger.{Entry, entry_of}
use invoice_service.Ledger.Honesty.{
  adjust_pending-Honest, lock_or_create_balance-Honest, post_double_entry-Honest, identity-Honest,
}
use invoice_service.Payments.{
  found_payment, load_pending_payment, CreatePaymentRequest, CompletePaymentRequest, adjust_both,
  create_payment, outstanding_of, settle_of, post_positive, settle_note, credit_note,
  settle_payment, accept_payment, reject_payment,
}

found_payment-Honest : (found : Option InvoicePayment) → Honest (found_payment found)
found_payment-Honest none = Honest-raise _
found_payment-Honest (some p) = Honest-pure p

load_pending_payment-Honest : (i team for_team : ℕ) → Honest (load_pending_payment i team for_team)
unfolding load_pending_payment
load_pending_payment-Honest i team for_team = Honest-bind _ _ (Honest-statement _) λ found.
    Honest-bind _ _ (found_payment-Honest found) λ p.
      Honest-bind
        (guard (not (p.team_id == team) || not (p.for_team_id == for_team)) payment_mismatch) _
        (Honest-guard _ _)
        λ _.
          Honest-bind (guard (not (is_pending p.status)) (payment_already p.status)) _
            (Honest-guard _ _) λ _. Honest-pure p

adjust_both-Honest :
    (team for_team : ℕ) (delta : Amount) (now : Time) → Honest (adjust_both team for_team delta now)
unfolding adjust_both
adjust_both-Honest team for_team delta now =
    Honest-bind _ _ (adjust_pending-Honest _ delta now) λ _. adjust_pending-Honest _ delta now

post_positive-Honest :
    (team for_team : ℕ) (bt : BalanceType) (amount : Amount) (e : Entry)
    → Honest (post_positive team for_team bt amount e)
post_positive-Honest team for_team bt amount e =
    Honest-if (ltb_ℤ (pos 0) amount) _ _ (post_double_entry-Honest team for_team bt amount e)
      (Honest-pure tt)

settle_payment-Honest :
    (p : InvoicePayment) (completed_by : ℕ) (now : Time)
    → Honest (settle_payment p completed_by now)
unfolding settle_payment
settle_payment-Honest p completed_by now =
    Honest-bind _ _ (lock_or_create_balance-Honest _ now) λ bal.
      let settle = settle_of (outstanding_of bal.balance) p.amount in
      Honest-bind _ _
        (post_positive-Honest p.team_id p.for_team_id payable settle
          (entry_of payment (settle_note p) completed_by now none))
        λ _.
          post_positive-Honest p.team_id p.for_team_id receivable (p.amount -ℤ settle)
            (entry_of payment (credit_note p) completed_by now none)

module _ (now : Time) where
  pub create_payment-Honest :
      (caller : Option ℕ) (pay : CreatePaymentRequest) → Honest (create_payment caller now pay)
  unfolding create_payment
  create_payment-Honest caller pay =
      Honest-bind (guard (pay.team_id == pay.for_team_id) teams_must_differ) _ (Honest-guard _ _)
        λ _. Honest-bind _ _ (identity-Honest caller) λ created_by. Honest-transaction _ (
          Honest-bind _ _ (Honest-statement _) λ id.
            Honest-bind _ _ (adjust_both-Honest pay.team_id pay.for_team_id pay.amount now)
              λ _. Honest-pure id)

  module _ (pay : CompletePaymentRequest) where
    pub accept_payment-Honest : (caller : Option ℕ) → Honest (accept_payment caller now pay)
    unfolding accept_payment
    accept_payment-Honest caller = Honest-bind _ _ (identity-Honest caller) λ completed_by.
        Honest-transaction _ (
          Honest-bind _ _ (load_pending_payment-Honest _ _ _) λ p.
            Honest-bind _ _ (settle_payment-Honest p completed_by now) λ _.
              Honest-bind _ _ (adjust_both-Honest p.team_id p.for_team_id (neg p.amount) now)
                λ _. Honest-statement _)

    pub reject_payment-Honest : (caller : Option ℕ) → Honest (reject_payment caller now pay)
    unfolding reject_payment
    reject_payment-Honest caller = Honest-bind _ _ (identity-Honest caller) λ completed_by.
        Honest-transaction _ (
          Honest-bind _ _ (load_pending_payment-Honest _ _ _) λ p.
            Honest-bind _ _ (adjust_both-Honest p.team_id p.for_team_id (neg p.amount) now)
              λ _. Honest-statement _)

    pub accept_payment-RollsBack : (caller : Option ℕ) → RollsBack (accept_payment caller now pay)
    unfolding accept_payment
    accept_payment-RollsBack none s e h = refl
    accept_payment-RollsBack (some id) s e h = transaction_rolls_back _ s e h

    pub reject_payment-RollsBack : (caller : Option ℕ) → RollsBack (reject_payment caller now pay)
    unfolding reject_payment
    reject_payment-RollsBack none s e h = refl
    reject_payment-RollsBack (some id) s e h = transaction_rolls_back _ s e h
