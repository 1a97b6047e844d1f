-- ===== src/Payments/Flight.antt =====
-- The in-flight amounts: what is tracked in pending_payment_amount on both sides of a pair, and the
-- PENDING payments that it stands for.
use invoice_service.Prelude.{ℕ, ◌≡◌, ◌∙◌, Bool, ◌&&◌, arith, ◌==◌, if◌then◌else◌}
use invoice_service.Prelude.Int.{pos, ◌+ℤ◌, +ℤ_zero}
use invoice_service.Prelude.Rows.{sum_where}
use invoice_service.Models.Enums.{Time, Amount, is_pending}
use invoice_service.Models.Ledger.{Account}
use invoice_service.Models.Payment.{InvoicePayment}
use invoice_service.Store.{Db, ok, calm}
use invoice_service.Ledger.Accounts.{balance_of, pending_of, IsNumbered}
use invoice_service.Ledger.Posting.{pended, adjust_pending-calm, pended-amounts, pended-IsNumbered}
use invoice_service.Ledger.Frame.{Aside, Aside-trans, pended-Aside}
use invoice_service.Ledger.DoubleEntry.{IsLedger}
use invoice_service.Ledger.Carry.{pended-IsLedger}
use invoice_service.Payments.{payer_account, receiver_account, adjust_both}

-- A PENDING payment from `a` to `b`.
abbrev pub in_flight : ℕ → ℕ → InvoicePayment → Bool
in_flight a b p = p.team_id == a && p.for_team_id == b && is_pending p.status

abbrev pub flight : ℕ → ℕ → Db → Amount
flight a b d = sum_where (in_flight a b) (λ p. p.amount) d.payments

-- Both sides of every pair track the amount of its PENDING payments.
abbrev pub IsTracked : Db → Type 0
IsTracked d =
    (a b : ℕ)
    → (pending_of (payer_account a b) d.balances ≡ flight a b d)
      × (pending_of (receiver_account a b) d.balances ≡ flight a b d)

-- Whether a payment from `team` to `for_team` goes from `a` to `b`.
abbrev pub this_pair : ℕ → ℕ → ℕ → ℕ → Bool
this_pair team for_team a b = team == a && for_team == b

module _ (team for_team : ℕ) (delta : Amount) (now : Time) (d : Db) where
  abbrev payer_side : Db
  payer_side = pended (payer_account team for_team) delta now d

  pub pended_both : Db
  pended_both = pended (receiver_account team for_team) delta now payer_side

  pub adjust_both-calm : adjust_both team for_team delta now (calm d) ≡ (ok tt, calm pended_both)
  unfolding adjust_both pended_both
  adjust_both-calm =
      rw (adjust_pending-calm (payer_account team for_team) delta now d)
        (adjust_pending-calm (receiver_account team for_team) delta now payer_side)

  pub pended_both-Aside : Aside d pended_both
  unfolding pended_both
  pended_both-Aside =
      Aside-trans (pended-Aside (payer_account team for_team) delta now d)
        (pended-Aside (receiver_account team for_team) delta now payer_side)

  pub pended_both-IsLedger : IsLedger d → IsLedger pended_both
  unfolding pended_both
  pended_both-IsLedger h =
      pended-IsLedger (receiver_account team for_team) delta now payer_side
        (pended-IsLedger (payer_account team for_team) delta now d h)

  abbrev pub moved_by : ℕ → ℕ → Amount
  moved_by a b = if this_pair team for_team a b then delta else pos 0

  module _ (numbered : IsNumbered d) where
    payer-IsNumbered : IsNumbered payer_side
    payer-IsNumbered = pended-IsNumbered (payer_account team for_team) delta now d numbered

    pub pended_both-balance :
        (j : Account) → balance_of j pended_both.balances ≡ balance_of j d.balances
    unfolding pended_both
    pended_both-balance j =
        (pended-amounts (receiver_account team for_team) delta now payer_side payer-IsNumbered j).0
        ∙ (pended-amounts (payer_account team for_team) delta now d numbered j).0

    -- Both sides of the pair move by the delta, and no other pair moves.
    pub pended_both-pending :
        (a b : ℕ)
        → (pending_of (payer_account a b) pended_both.balances
            ≡ pending_of (payer_account a b) d.balances +ℤ moved_by a b)
          × (pending_of (receiver_account a b) pended_both.balances
              ≡ pending_of (receiver_account a b) d.balances +ℤ moved_by a b)
    unfolding pended_both
    pended_both-pending a b = ground (
      arith,
      +ℤ_zero (pending_of (payer_account a b) d.balances),
      +ℤ_zero (pending_of (receiver_account a b) d.balances),
      pended-amounts (receiver_account team for_team) delta now payer_side payer-IsNumbered
          (payer_account a b),
      pended-amounts (receiver_account team for_team) delta now payer_side payer-IsNumbered
          (receiver_account a b),
      pended-amounts (payer_account team for_team) delta now d numbered (payer_account a b),
      pended-amounts (payer_account team for_team) delta now d numbered (receiver_account a b),
    )
