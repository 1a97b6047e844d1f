-- ===== src/Payments/Creating.antt =====
-- CreatePayment: either an error and no change, or a PENDING payment that both sides track.
use invoice_service.Prelude.{
  ℕ, ◌≡◌, ◌≢◌, ◌∙◌, refl, sym, ap, inl, inr, Bool, true, false, Option, none, some, arith, ◌==◌,
  ==_iff, if◌then◌else◌, Bool-cases, Option-cases,
}
use invoice_service.Prelude.Int.{pos, ◌+ℤ◌}
use invoice_service.Prelude.Rows.{find_row, sum_where-snoc, find_row-snoc_none, find_row-snoc_some}
use invoice_service.Prelude.Rows.Ids.{WellNumbered-snoc, next_is_free}
use invoice_service.Models.Enums.{Time, Amount}
use invoice_service.Models.Ledger.{Account}
use invoice_service.Models.Payment.{InvoicePayment}
use invoice_service.Store.{
  Db, Session, unauthenticated, guard, teams_must_differ, M, pure, ok, calm, statement, ◌>>=◌, ◌>>◌,
  transaction,
}
use invoice_service.Store.Honest.{transaction_rolls_back}
use invoice_service.Store.Outcome.{Ends, RollsBack, Ends-everywhere, transaction-calm_ok}
use invoice_service.Ledger.{identity}
use invoice_service.Ledger.Accounts.{balance_of}
use invoice_service.Ledger.Frame.{Aside}
use invoice_service.Ledger.DoubleEntry.{IsLedger}
use invoice_service.Ledger.Carry.{IsLedger-carry}
use invoice_service.Payments.{
  has_payment_id, adjust_both, insert_payment, new_payment, CreatePaymentRequest, create_payment,
}
use invoice_service.Payments.Honesty.{create_payment-Honest}
use invoice_service.Payments.Flight.{
  in_flight, flight, IsTracked, this_pair, pended_both, adjust_both-calm, pended_both-Aside,
  pended_both-IsLedger, pended_both-balance, pended_both-pending,
}
use invoice_service.Payments.Sound.{IsSound}

-- What CreatePayment has done when it returns the id of the payment: the teams differ, the payment
-- is stored PENDING under that id, every other id has the row that it had, no balance moves, and the
-- invariant holds.
pub record Created (caller : Option ℕ) (now : Time) (pay : CreatePaymentRequest) (before : Db)
    (id : ℕ) (after : Db) : Type 0 where
  pub created_by : ℕ
  pub caller_known : caller ≡ some created_by
  pub differ : pay.team_id ≢ pay.for_team_id
  pub rows :
      (i : ℕ)
      → find_row (has_payment_id i) after.payments ≡ (
          if i == id
          then some (new_payment pay id created_by now)
          else find_row (has_payment_id i) before.payments)
  pub balances : (j : Account) → balance_of j after.balances ≡ balance_of j before.balances
  pub sound : IsSound after

module _ (now : Time) (pay : CreatePaymentRequest) (d : Db) (sound : IsSound d) where
  module _ (by : ℕ) where
    abbrev row : InvoicePayment
    row = new_payment pay d.payment_seq by now

    abbrev d1 : Db
    d1 = insert_payment row d

    ledger1 : IsLedger d1
    ledger1 =
        IsLedger-carry d d1 sound.ledger sound.ledger.numbered (λ j. refl) (λ q. refl)
          (record { logs = refl; log_seq = refl; sources = refl; dailies = refl })

    after : Db
    after = pended_both pay.team_id pay.for_team_id pay.amount now d1

    aside : Aside d1 after
    unfolding after
    aside = pended_both-Aside pay.team_id pay.for_team_id pay.amount now d1

    body : M ℕ
    body = do
      id ← statement (λ x. (x.payment_seq, insert_payment (new_payment pay x.payment_seq by now) x))
      adjust_both pay.team_id pay.for_team_id pay.amount now
      pure id

    body-calm : body (calm d) ≡ (ok d.payment_seq, calm after)
    unfolding body after statement
    body-calm = rw (adjust_both-calm pay.team_id pay.for_team_id pay.amount now d1) refl

    flight-after :
        (a b : ℕ)
        → flight a b after
          ≡ flight a b d
            +ℤ (if this_pair pay.team_id pay.for_team_id a b then pay.amount else pos 0)
    flight-after a b = rw aside.payments (
        sum_where-snoc (in_flight a b) (λ q. q.amount) d.payments row
        ∙ ap (λ (t : Amount). flight a b d +ℤ t) (ground arith))

    no_next : find_row (has_payment_id d.payment_seq) d.payments ≡ none
    no_next =
        next_is_free (λ (q : InvoicePayment). q.id) d.payment_seq d.payments sound.payments_numbered

    taken :
        (i : ℕ) (q : InvoicePayment)
        → find_row (has_payment_id i) d.payments ≡ some q
        → (i == d.payment_seq) ≡ false
    taken i q there = elim (Bool-cases (i == d.payment_seq)) [
      | inl same ↦
          let e : some q ≡ none =
            sym there
            ∙ ap (λ (n : ℕ). find_row (has_payment_id n) d.payments)
                ((==_iff i d.payment_seq).0 same)
            ∙ no_next in
          cc
      | inr other ↦ other
    ]

    rows-after :
        (i : ℕ)
        → find_row (has_payment_id i) after.payments
          ≡ (if i == d.payment_seq then some row else find_row (has_payment_id i) d.payments)
    rows-after i = rw aside.payments (elim (Option-cases (find_row (has_payment_id i) d.payments)) [
      | inl absent ↦
          rw (find_row-snoc_none (has_payment_id i) d.payments row absent, absent) (ground arith)
      | inr (q, there) ↦
          rw (find_row-snoc_some (has_payment_id i) d.payments row q there, there)
            (rw (taken i q there))
    ])

    IsTracked-after : IsTracked after
    unfolding after
    IsTracked-after a b =
        let both =
          pended_both-pending pay.team_id pay.for_team_id pay.amount now d1 ledger1.numbered a b in
        (
          both.0 ∙ rw ((sound.tracked a b).0) (sym (flight-after a b)),
          both.1 ∙ rw ((sound.tracked a b).1) (sym (flight-after a b)),
        )

    after-IsSound : IsSound after
    after-IsSound = record {
      ledger =
          unfold after in
          pended_both-IsLedger pay.team_id pay.for_team_id pay.amount now d1 ledger1;
      tracked = IsTracked-after;
      payments_numbered =
          rw (aside.payments, aside.payment_seq)
            (WellNumbered-snoc (λ (q : InvoicePayment). q.id) d.payment_seq d.payments row
              sound.payments_numbered refl);
    }

    after-balances : (j : Account) → balance_of j after.balances ≡ balance_of j d.balances
    unfolding after
    after-balances j =
        pended_both-balance pay.team_id pay.for_team_id pay.amount now d1 ledger1.numbered j

    after-Created : pay.team_id ≢ pay.for_team_id → Created (some by) now pay d d.payment_seq after
    after-Created differ = record {
      created_by = by;
      caller_known = refl;
      differ = differ;
      rows = rows-after;
      balances = after-balances;
      sound = after-IsSound;
    }

  create_payment-calm :
      (caller : Option ℕ)
      → Ends (Created caller now pay d) d (create_payment caller now pay (calm d))
  unfolding create_payment body
  create_payment-calm caller = elim (Bool-cases (pay.team_id == pay.for_team_id)) [
    | inl same ↦ rw same (inl (teams_must_differ, refl, refl))
    | inr differ ↦ rw differ (identified caller (ground arith))
  ]
    where
      identified :
          (caller : Option ℕ)
          → pay.team_id ≢ pay.for_team_id
          → Ends
              (Created caller now pay d)
              d
              ((identity caller >>= λ by. transaction (body by)) (calm d))
      identified none differ = inl (unauthenticated, refl, refl)
      identified (some by) differ =
          rw (transaction-calm_ok (body by) d d.payment_seq (after by) (body-calm by))
            (inr (d.payment_seq, refl, after-Created by differ))

guarded-RollsBack :
    (same : Bool) (caller : Option ℕ) (work : ℕ → M ℕ)
    → RollsBack (
        guard same teams_must_differ
        >> (identity caller >>= λ created_by. transaction (work created_by)))
guarded-RollsBack true caller work s e h = refl
guarded-RollsBack false none work s e h = refl
guarded-RollsBack false (some by) work s e h = transaction_rolls_back (work by) s e h

create_payment-RollsBack :
    (caller : Option ℕ) (now : Time) (pay : CreatePaymentRequest)
    → RollsBack (create_payment caller now pay)
unfolding create_payment
create_payment-RollsBack caller now pay =
    guarded-RollsBack (pay.team_id == pay.for_team_id) caller _

-- Let the tables at the start keep the invariant of the ledger and the payments.
-- Whichever statement fails, CreatePayment either returns an error and leaves every table as it was,
-- or it returns the id under which the payment is stored.
pub create_payment_all_or_nothing :
    (caller : Option ℕ) (now : Time) (pay : CreatePaymentRequest) (s : Session)
    → IsSound s.db
    → Ends (Created caller now pay s.db) s.db (create_payment caller now pay s)
create_payment_all_or_nothing caller now pay s sound =
    Ends-everywhere _ (create_payment-Honest now caller pay)
      (create_payment-RollsBack caller now pay) (Created caller now pay s.db) s
      (create_payment-calm now pay s.db sound caller)

-- Let the tables at the start keep the invariant of the ledger and the payments.
-- Where no statement fails, the caller is known and the teams differ, CreatePayment succeeds and
-- returns the id under which the payment is stored.
pub create_payment_succeeds :
    (by : ℕ) (now : Time) (pay : CreatePaymentRequest) (d : Db)
    → IsSound d
    → pay.team_id ≢ pay.for_team_id
    → (id : ℕ) × (d' : Db) × (create_payment (some by) now pay (calm d) ≡ (ok id, calm d'))
      × Created (some by) now pay d id d'
unfolding create_payment body
create_payment_succeeds by now pay d sound differ =
    let other : (pay.team_id == pay.for_team_id) ≡ false = ground arith in
    (
      d.payment_seq,
      after now pay d sound by,
      rw other (
          transaction-calm_ok (body now pay d sound by) d d.payment_seq _
            (body-calm now pay d sound by)),
      after-Created now pay d sound by differ,
    )
