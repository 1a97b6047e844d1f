-- ===== src/Payments/Rejecting.antt =====
-- RejectPayment: either an error and no change, or the payment is declined and no balance moves.
use invoice_service.Prelude.{ℕ, ◌≡◌, refl, inl, inr, Option, none, some, ◌==◌, if◌then◌else◌}
use invoice_service.Prelude.Int.{neg}
use invoice_service.Prelude.Rows.{find_row}
use invoice_service.Models.Enums.{Time}
use invoice_service.Models.Ledger.{Account}
use invoice_service.Models.Payment.{InvoicePayment}
use invoice_service.Store.{Db, Session, unauthenticated, M, ok, calm, execute, ◌>>=◌, ◌>>◌}
use invoice_service.Store.Outcome.{Ends, Ends-everywhere, transaction-calm_ok, transaction-calm_err}
use invoice_service.Ledger.Accounts.{balance_of}
use invoice_service.Ledger.Frame.{Aside-refl}
use invoice_service.Payments.{
  has_payment_id, load_pending_payment, adjust_both, set_payment, with_rejected,
  CompletePaymentRequest, reject_payment,
}
use invoice_service.Payments.Honesty.{reject_payment-Honest, reject_payment-RollsBack}
use invoice_service.Payments.Flight.{adjust_both-calm}
use invoice_service.Payments.Sound.{
  IsSound, completed, completed-IsSound, completed-balance, completed-payment,
}
use invoice_service.Payments.Loading.{IsOpen, own_row, load_open, load_pending_payment-calm}

-- What RejectPayment has done when it returns no error: the open payment of the request is declined,
-- it alone changes its row, no balance moves, and the invariant holds.
pub record Declined (caller : Option ℕ) (now : Time) (pay : CompletePaymentRequest)
    (before after : Db) : Type 0 where
  pub completed_by : ℕ
  pub caller_known : caller ≡ some completed_by
  pub payment : InvoicePayment
  pub was_open : IsOpen pay.payment_id pay.team_id pay.for_team_id before payment
  pub balances : (j : Account) → balance_of j after.balances ≡ balance_of j before.balances
  pub rows :
      (i : ℕ)
      → find_row (has_payment_id i) after.payments ≡ (
          if i == payment.id
          then some (with_rejected completed_by now payment)
          else find_row (has_payment_id i) before.payments)
  pub sound : IsSound after

module _ (now : Time) (pay : CompletePaymentRequest) (d : Db) (sound : IsSound d) where
  module _ (by : ℕ) where
    abbrev body : M Unit
    body = do
      p ← load_pending_payment pay.payment_id pay.team_id pay.for_team_id
      adjust_both p.team_id p.for_team_id (neg p.amount) now
      execute (set_payment p.id (with_rejected by now))

    module _ (p : InvoicePayment)
        (open_p : IsOpen pay.payment_id pay.team_id pay.for_team_id d p) where
      abbrev after : Db
      after =
          completed d p sound (own_row open_p) open_p.is_open d sound.ledger (λ j. refl)
            (Aside-refl d) (with_rejected by now) (λ q. refl) (λ q. refl) now

      body-calm :
          load_pending_payment pay.payment_id pay.team_id pay.for_team_id (calm d) ≡ (ok p, calm d)
          → body (calm d) ≡ (ok tt, calm after)
      unfolding completed execute
      body-calm loaded =
          rw loaded (rw (adjust_both-calm p.team_id p.for_team_id (neg p.amount) now d) refl)

      body-Declined : Declined (some by) now pay d after
      body-Declined = record {
        completed_by = by;
        caller_known = refl;
        payment = p;
        was_open = open_p;
        balances =
            completed-balance d p sound (own_row open_p) open_p.is_open d sound.ledger (λ j. refl)
              (Aside-refl d) (with_rejected by now) (λ q. refl) (λ q. refl) now;
        rows =
            completed-payment d p sound (own_row open_p) open_p.is_open d sound.ledger (λ j. refl)
              (Aside-refl d) (with_rejected by now) (λ q. refl) (λ q. refl) now;
        sound =
            completed-IsSound d p sound (own_row open_p) open_p.is_open d sound.ledger (λ j. refl)
              (Aside-refl d) (with_rejected by now) (λ q. refl) (λ q. refl) now;
      }

  reject_payment-calm :
      (caller : Option ℕ)
      → Ends (λ _. Declined caller now pay d) d (reject_payment caller now pay (calm d))
  unfolding reject_payment
  reject_payment-calm none = inl (unauthenticated, refl, refl)
  reject_payment-calm (some by) =
      elim (load_pending_payment-calm pay.payment_id pay.team_id pay.for_team_id d) [
        | inl (p, open_p, loaded) ↦
            rw
              (transaction-calm_ok (body by) d tt (after by p open_p)
                (body-calm by p open_p loaded))
              (inr (tt, refl, body-Declined by p open_p))
        | inr (x, _, refusal) ↦
            rw (transaction-calm_err (body by) d x (calm d) (rw refusal refl)) (inl (x, refl, refl))
      ]

-- Let the tables at the start keep the invariant of the ledger and the payments.
-- Whichever statement fails, RejectPayment either returns an error and leaves every table as it was,
-- or the caller is known and the open payment that the request names is declined.
pub reject_payment_all_or_nothing :
    (caller : Option ℕ) (now : Time) (pay : CompletePaymentRequest) (s : Session)
    → IsSound s.db
    → Ends (λ _. Declined caller now pay s.db) s.db (reject_payment caller now pay s)
reject_payment_all_or_nothing caller now pay s sound =
    Ends-everywhere _ (reject_payment-Honest now pay caller)
      (reject_payment-RollsBack now pay caller) (λ _. Declined caller now pay s.db) s
      (reject_payment-calm now pay s.db sound caller)

-- Let the tables at the start keep the invariant of the ledger and the payments.
-- Where no statement fails and the caller is known, RejectPayment of an open payment succeeds, and the
-- payment that the request names is declined.
pub reject_payment_succeeds :
    (by : ℕ) (now : Time) (pay : CompletePaymentRequest) (d : Db) (p : InvoicePayment)
    → IsSound d
    → IsOpen pay.payment_id pay.team_id pay.for_team_id d p
    → (d' : Db) × (reject_payment (some by) now pay (calm d) ≡ (ok tt, calm d'))
      × Declined (some by) now pay d d'
unfolding reject_payment
reject_payment_succeeds by now pay d p sound open_p = (
  after now pay d sound by p open_p,
  transaction-calm_ok (body now pay d sound by) d tt _ (
      body-calm now pay d sound by p open_p
        (load_open pay.payment_id pay.team_id pay.for_team_id d p open_p)),
  body-Declined now pay d sound by p open_p,
)
