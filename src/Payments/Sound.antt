-- ===== src/Payments/Sound.antt =====
-- The invariant of the ledger and the payments together, and what the completion of a payment does
-- to it.
use invoice_service.Prelude.{
  ℕ, ◌≡◌, ◌∙◌, refl, sym, ap, inl, inr, Bool, true, false, none, some, arith, ◌==◌, ==_iff,
  Bool-cases, Option-cases, if◌then◌else◌,
}
use invoice_service.Prelude.Int.{ℤ, pos, ◌+ℤ◌, neg, int_laws, +ℤ_zero}
use invoice_service.Prelude.Rows.{find_row, find_row-fits, find_row-update}
use invoice_service.Ledger.Carry.{IsLedger-carry}
use invoice_service.Prelude.Rows.Ids.{WellNumbered, WellNumbered-update, sum_where-update}
use invoice_service.Models.Enums.{Time, is_pending}
use invoice_service.Models.Ledger.{Account}
use invoice_service.Models.Payment.{InvoicePayment}
use invoice_service.Store.{Db}
use invoice_service.Ledger.Accounts.{balance_of, pending_of}
use invoice_service.Ledger.Frame.{Aside}
use invoice_service.Ledger.DoubleEntry.{IsLedger}
use invoice_service.Payments.{has_payment_id, payer_account, receiver_account, set_payment}
use invoice_service.Payments.Flight.{
  in_flight, flight, IsTracked, this_pair, pended_both, pended_both-Aside, pended_both-IsLedger,
  pended_both-balance, pended_both-pending,
}

pub record IsSound (d : Db) : Type 0 where
  pub ledger : IsLedger d
  pub tracked : IsTracked d
  pub payments_numbered : WellNumbered (λ (p : InvoicePayment). p.id) d.payment_seq d.payments

add_neg : (x y : ℤ) → x +ℤ y +ℤ neg y ≡ x
add_neg x y = omega int_laws

less_flight :
    (before after amount : ℤ) (pair : Bool)
    → after +ℤ (if pair then amount else pos 0) ≡ before +ℤ pos 0
    → before +ℤ (if pair then neg amount else pos 0) ≡ after
less_flight before after amount true h =
    ap (λ (t : ℤ). t +ℤ neg amount) (sym (h ∙ +ℤ_zero before)) ∙ add_neg after amount
less_flight before after amount false h = sym h ∙ +ℤ_zero after

-- A payment that was PENDING in the tables `d`, the tables `dm` after what the completion posts, and
-- the new row: it keeps the id, the pair and the amount, and is PENDING no more.
module _ (d : Db) (p : InvoicePayment) (sound : IsSound d)
    (found : find_row (has_payment_id p.id) d.payments ≡ some p)
    (was_pending : is_pending p.status ≡ true) (dm : Db) (ledger : IsLedger dm)
    (pending : (j : Account) → pending_of j dm.balances ≡ pending_of j d.balances)
    (aside : Aside d dm) (g : InvoicePayment → InvoicePayment)
    (keeps_id : (q : InvoicePayment) → (g q).id ≡ q.id)
    (closes : (q : InvoicePayment) → is_pending (g q).status ≡ false) (now : Time) where
  abbrev released : Db
  released = pended_both p.team_id p.for_team_id (neg p.amount) now dm

  -- The tables after the completion.
  unfoldable pub completed : Db
  completed = set_payment p.id g released

  sole :
      (i : ℕ) (q : InvoicePayment)
      → find_row (has_payment_id i) d.payments ≡ some q
      → i ≡ p.id
      → q ≡ p
  sole i q there e =
      let same : some q ≡ some p =
        sym there ∙ ap (λ (n : ℕ). find_row (has_payment_id n) d.payments) e ∙ found in
      cc

  released-Aside : Aside dm released
  released-Aside = pended_both-Aside p.team_id p.for_team_id (neg p.amount) now dm

  absent :
      (i : ℕ)
      → find_row (has_payment_id i) d.payments ≡ none
      → none ≡ (if i == p.id then some (g p) else none)
  absent i missing = elim (Bool-cases (i == p.id)) [
    | inl same ↦ cc (missing, found, (==_iff i p.id).0 same)
    | inr other ↦ rw other
  ]

  present :
      (i : ℕ) (q : InvoicePayment)
      → find_row (has_payment_id i) d.payments ≡ some q
      → some (if has_payment_id p.id q then g q else q) ≡ (if i == p.id then some (g p) else some q)
  present i q there = ground (
    arith,
    find_row-fits (has_payment_id i) d.payments q there,
    λ (e : i ≡ p.id). sole i q there e,
  )

  payments_same : released.payments ≡ d.payments
  payments_same = released-Aside.payments ∙ aside.payments

  abbrev pair : ℕ → ℕ → Bool
  pair a b = this_pair p.team_id p.for_team_id a b

  part_before :
      (a b : ℕ)
      → (if in_flight a b p then p.amount else pos 0) ≡ (if pair a b then p.amount else pos 0)
  part_before a b = ground arith

  part_after : (a b : ℕ) → (if in_flight a b (g p) then (g p).amount else pos 0) ≡ pos 0
  part_after a b = ground (arith, closes p)

  completed-flight :
      (a b : ℕ)
      → flight a b completed +ℤ (if pair a b then p.amount else pos 0) ≡ flight a b d +ℤ pos 0
  unfolding completed
  completed-flight a b =
      rw (payments_same, ← part_before a b)
        (sum_where-update (λ (q : InvoicePayment). q.id) (in_flight a b) (λ q. q.amount) g p.id
            d.payment_seq d.payments p sound.payments_numbered found
          ∙ ap (λ (t : ℤ). flight a b d +ℤ t) (part_after a b))

  same_rows : (j : Account) → pending_of j completed.balances ≡ pending_of j released.balances
  unfolding completed
  same_rows j = refl

  completed-IsTracked : IsTracked completed
  completed-IsTracked a b =
      let track =
        less_flight (flight a b d) (flight a b completed) p.amount (pair a b)
          (completed-flight a b) in
      let both =
        pended_both-pending p.team_id p.for_team_id (neg p.amount) now dm ledger.numbered a b in
      (
        same_rows (payer_account a b)
            ∙ both.0
            ∙ rw (pending (payer_account a b), (sound.tracked a b).0) track,
        same_rows (receiver_account a b)
            ∙ both.1
            ∙ rw (pending (receiver_account a b), (sound.tracked a b).1) track,
      )

  -- Completing a payment keeps the invariant.
  pub completed-IsSound : IsSound completed
  unfolding completed
  completed-IsSound = record {
    ledger =
        IsLedger-carry released (set_payment p.id g released)
          (pended_both-IsLedger p.team_id p.for_team_id (neg p.amount) now dm ledger)
          (pended_both-IsLedger p.team_id p.for_team_id (neg p.amount) now dm ledger).numbered
          (λ j. refl) (λ q. refl)
          (record { logs = refl; log_seq = refl; sources = refl; dailies = refl });
    tracked = completed-IsTracked;
    payments_numbered =
        rw (payments_same, released-Aside.payment_seq, aside.payment_seq)
          (WellNumbered-update (λ (q : InvoicePayment). q.id) (has_payment_id p.id) g keeps_id
            d.payment_seq d.payments sound.payments_numbered);
  }

  -- The balances are those of the tables before the pending amounts are released.
  pub completed-balance : (j : Account) → balance_of j completed.balances ≡ balance_of j dm.balances
  unfolding completed
  completed-balance j =
      pended_both-balance p.team_id p.for_team_id (neg p.amount) now dm ledger.numbered j

  -- The payment has its new row, and every other id has the row that it had.
  pub completed-payment :
      (i : ℕ)
      → find_row (has_payment_id i) completed.payments
        ≡ (if i == p.id then some (g p) else find_row (has_payment_id i) d.payments)
  unfolding completed
  completed-payment i = rw payments_same (
      find_row-update (has_payment_id i) (has_payment_id p.id) g d.payments
        (λ q. ap (λ (n : ℕ). n == i) (keeps_id q))
      ∙ elim (Option-cases (find_row (has_payment_id i) d.payments)) [
        | inl missing ↦ rw missing (absent i missing)
        | inr (q, there) ↦ rw there (present i q there)
      ])
