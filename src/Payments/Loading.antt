-- ===== src/Payments/Loading.antt =====
-- `loadPendingPayment`: which payment may be completed, and every other case is an error that
-- changes nothing.
use invoice_service.Prelude.{ap, ◌∙◌, ==_iff}
use invoice_service.Prelude.{
  ℕ, ◌≡◌, ◌≢◌, ◌⊎◌, inl, inr, not, ◌||◌, true, false, none, some, arith, ◌==◌, Bool-cases,
  Option-cases,
}
use invoice_service.Prelude.Rows.{find_row, find_row-fits}
use invoice_service.Models.Enums.{is_pending}
use invoice_service.Models.Payment.{InvoicePayment}
use invoice_service.Store.{
  Db, Error, payment_not_found, payment_mismatch, payment_already, ok, err, calm,
}
use invoice_service.Payments.{has_payment_id, load_pending_payment}

-- The payment of an id that belongs to the pair and is PENDING.
pub record IsOpen (id team for_team : ℕ) (d : Db) (p : InvoicePayment) : Type 0 where
  pub found : find_row (has_payment_id id) d.payments ≡ some p
  pub from_team : p.team_id ≡ team
  pub to_team : p.for_team_id ≡ for_team
  pub is_open : is_pending p.status ≡ true

module _ (id team for_team : ℕ) (d : Db) where
  -- Why a payment may not be completed.
  pub data Refused : Error → Type 0 where
    missing : find_row (has_payment_id id) d.payments ≡ none → Refused payment_not_found
    mismatch :
        (p : InvoicePayment)
        → find_row (has_payment_id id) d.payments ≡ some p
        → (p.team_id ≢ team) ⊎ (p.for_team_id ≢ for_team)
        → Refused payment_mismatch
    closed :
        (p : InvoicePayment)
        → find_row (has_payment_id id) d.payments ≡ some p
        → is_pending p.status ≡ false
        → Refused (payment_already p.status)

  found_case :
      (p : InvoicePayment)
      → find_row (has_payment_id id) d.payments ≡ some p
      → (IsOpen id team for_team d p
          × (load_pending_payment id team for_team (calm d) ≡ (ok p, calm d)))
        ⊎ ((x : Error) × Refused x
            × (load_pending_payment id team for_team (calm d) ≡ (err x, calm d)))
  unfolding load_pending_payment
  found_case p found =
      elim (Bool-cases (not (p.team_id == team) || not (p.for_team_id == for_team))) [
        | inl t ↦ inr (payment_mismatch, mismatch p found (ground arith), rw (found, t))
        | inr f ↦ elim (Bool-cases (is_pending p.status)) [
          | inl is_open ↦ inl (
            record {
              found = found;
              from_team = ground arith;
              to_team = ground arith;
              is_open = is_open;
            },
            rw (found, f, is_open),
          )
          | inr settled ↦
              inr (payment_already p.status, closed p found settled, rw (found, f, settled))
        ]
      ]

  -- The load returns an open payment, or an error with its reason.
  pub load_pending_payment-calm :
      ((p : InvoicePayment) × IsOpen id team for_team d p
        × (load_pending_payment id team for_team (calm d) ≡ (ok p, calm d)))
      ⊎ ((x : Error) × Refused x
          × (load_pending_payment id team for_team (calm d) ≡ (err x, calm d)))
  unfolding load_pending_payment
  load_pending_payment-calm = elim (Option-cases (find_row (has_payment_id id) d.payments)) [
    | inl absent ↦ inr (payment_not_found, missing absent, rw absent)
    | inr (p, found) ↦ elim (found_case p found) [
      | inl (is_open, loaded) ↦ inl (p, is_open, loaded)
      | inr refusal ↦ inr refusal
    ]
  ]

pub own_row :
    {id team for_team : ℕ} {d : Db} {p : InvoicePayment}
    → IsOpen id team for_team d p
    → find_row (has_payment_id p.id) d.payments ≡ some p
own_row {id} {d} {p} h =
    let e : p.id ≡ id =
      (==_iff p.id id).0 (find_row-fits (has_payment_id id) d.payments p h.found) in
    ap (λ (n : ℕ). find_row (has_payment_id n) d.payments) e ∙ h.found

pub load_open :
    (id team for_team : ℕ) (d : Db) (p : InvoicePayment)
    → IsOpen id team for_team d p
    → load_pending_payment id team for_team (calm d) ≡ (ok p, calm d)
unfolding load_pending_payment
load_open id team for_team d p h = rw h.found (ground (arith, h.from_team, h.to_team, h.is_open))
