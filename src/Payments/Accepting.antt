-- ===== src/Payments/Accepting.antt =====
-- AcceptPayment: either an error and no change, or the payment is settled.
use invoice_service.Prelude.{ℕ, ◌≡◌, ◌∙◌, refl, inl, inr, Option, none, some, ◌==◌, if◌then◌else◌}
use invoice_service.Prelude.Int.{neg}
use invoice_service.Prelude.Rows.{find_row}
use invoice_service.Models.Enums.{Time}
use invoice_service.Models.Payment.{InvoicePayment}
use invoice_service.Store.{Db, Session, unauthenticated, M, ok, calm, execute, ◌>>=◌, ◌>>◌}
use invoice_service.Store.Outcome.{Ends, Ends-everywhere, transaction-calm_ok, transaction-calm_err}
use invoice_service.Payments.{
  has_payment_id, load_pending_payment, adjust_both, set_payment, settle_payment, with_accepted,
  CompletePaymentRequest, accept_payment,
}
use invoice_service.Payments.Honesty.{accept_payment-Honest, accept_payment-RollsBack}
use invoice_service.Payments.Flight.{adjust_both-calm}
use invoice_service.Payments.Settled.{
  SettledBalances, Settles, settled, settle_payment-calm, settled-Settles,
}
use invoice_service.Payments.Sound.{
  IsSound, completed, completed-IsSound, completed-balance, completed-payment,
}
use invoice_service.Payments.Loading.{IsOpen, own_row, load_open, load_pending_payment-calm}

-- What AcceptPayment has done when it returns no error: the open payment of the request is settled,
-- it alone changes its row, and the invariant holds.
pub record Accepted (caller : Option ℕ) (now : Time) (pay : CompletePaymentRequest)
    (before after : Db) : Type 0 where
  pub completed_by : ℕ
  pub caller_known : caller ≡ some completed_by
  pub payment : InvoicePayment
  pub was_open : IsOpen pay.payment_id pay.team_id pay.for_team_id before payment
  pub settles : SettledBalances payment.team_id payment.for_team_id payment.amount before after
  pub rows :
      (i : ℕ)
      → find_row (has_payment_id i) after.payments ≡ (
          if i == payment.id
          then some (with_accepted completed_by now payment)
          else find_row (has_payment_id i) before.payments)
  pub sound : IsSound after

module _ (now : Time) (pay : CompletePaymentRequest) (d : Db) (sound : IsSound d) where
  module _ (by : ℕ) where
    abbrev body : M Unit
    body = do
      p ← load_pending_payment pay.payment_id pay.team_id pay.for_team_id
      settle_payment p by now
      adjust_both p.team_id p.for_team_id (neg p.amount) now
      execute (set_payment p.id (with_accepted by now))

    module _ (p : InvoicePayment)
        (open_p : IsOpen pay.payment_id pay.team_id pay.for_team_id d p) where
      abbrev dm : Db
      dm = settled p by now d

      abbrev settled_all : Settles p.team_id p.for_team_id p.amount d dm
      settled_all = settled-Settles p by now d sound.ledger

      abbrev after : Db
      after =
          completed d p sound (own_row open_p) open_p.is_open dm settled_all.ledger
            settled_all.pending settled_all.aside (with_accepted by now) (λ q. refl) (λ q. refl) now

      body-calm :
          load_pending_payment pay.payment_id pay.team_id pay.for_team_id (calm d) ≡ (ok p, calm d)
          → body (calm d) ≡ (ok tt, calm after)
      unfolding completed execute
      body-calm loaded = rw loaded (
          rw (settle_payment-calm p by now d)
            (rw (adjust_both-calm p.team_id p.for_team_id (neg p.amount) now dm) refl))

      body-Accepted : Accepted (some by) now pay d after
      body-Accepted = record {
        completed_by = by;
        caller_known = refl;
        payment = p;
        was_open = open_p;
        settles = λ j.
            completed-balance d p sound (own_row open_p) open_p.is_open dm settled_all.ledger
              settled_all.pending settled_all.aside (with_accepted by now) (λ q. refl) (λ q. refl)
              now j
            ∙ settled_all.balances j;
        rows =
            completed-payment d p sound (own_row open_p) open_p.is_open dm settled_all.ledger
              settled_all.pending settled_all.aside (with_accepted by now) (λ q. refl) (λ q. refl)
              now;
        sound =
            completed-IsSound d p sound (own_row open_p) open_p.is_open dm settled_all.ledger
              settled_all.pending settled_all.aside (with_accepted by now) (λ q. refl) (λ q. refl)
              now;
      }

  accept_payment-calm :
      (caller : Option ℕ)
      → Ends (λ _. Accepted caller now pay d) d (accept_payment caller now pay (calm d))
  unfolding accept_payment
  accept_payment-calm none = inl (unauthenticated, refl, refl)
  accept_payment-calm (some by) =
      elim (load_pending_payment-calm pay.payment_id pay.team_id pay.for_team_id d) [
        | inl (p, open_p, loaded) ↦
            rw
              (transaction-calm_ok (body by) d tt (after by p open_p)
                (body-calm by p open_p loaded))
              (inr (tt, refl, body-Accepted by p open_p))
        | inr (x, _, refusal) ↦
            rw (transaction-calm_err (body by) d x (calm d) (rw refusal refl)) (inl (x, refl, refl))
      ]

-- Let the tables at the start keep the invariant of the ledger and the payments.
-- Whichever statement fails, AcceptPayment either returns an error and leaves every table as it was,
-- or the caller is known and the open payment that the request names is settled.
pub accept_payment_all_or_nothing :
    (caller : Option ℕ) (now : Time) (pay : CompletePaymentRequest) (s : Session)
    → IsSound s.db
    → Ends (λ _. Accepted caller now pay s.db) s.db (accept_payment caller now pay s)
accept_payment_all_or_nothing caller now pay s sound =
    Ends-everywhere _ (accept_payment-Honest now pay caller)
      (accept_payment-RollsBack now pay caller) (λ _. Accepted caller now pay s.db) s
      (accept_payment-calm now pay s.db sound caller)

-- Let the tables at the start keep the invariant of the ledger and the payments.
-- Where no statement fails and the caller is known, AcceptPayment of an open payment succeeds, and the
-- payment that the request names is settled.
pub accept_payment_succeeds :
    (by : ℕ) (now : Time) (pay : CompletePaymentRequest) (d : Db) (p : InvoicePayment)
    → IsSound d
    → IsOpen pay.payment_id pay.team_id pay.for_team_id d p
    → (d' : Db) × (accept_payment (some by) now pay (calm d) ≡ (ok tt, calm d'))
      × Accepted (some by) now pay d d'
unfolding accept_payment
accept_payment_succeeds by now pay d p sound open_p = (
  after now pay d sound by p open_p,
  transaction-calm_ok (body now pay d sound by) d tt _ (
      body-calm now pay d sound by p open_p
        (load_open pay.payment_id pay.team_id pay.for_team_id d p open_p)),
  body-Accepted now pay d sound by p open_p,
)
