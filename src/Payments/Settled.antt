-- ===== src/Payments/Settled.antt =====
-- The tables after the double entries of an accepted payment.
use invoice_service.Prelude.{ℕ, ◌≡◌, ◌∙◌, refl, none, if◌then◌else◌}
use invoice_service.Prelude.Int.{pos, ◌+ℤ◌, ◌-ℤ◌, neg}
use invoice_service.Models.Enums.{Time, Amount, payable, receivable, payment}
use invoice_service.Models.Ledger.{Account, same_account}
use invoice_service.Models.Payment.{InvoicePayment}
use invoice_service.Store.{Db, ok, calm}
use invoice_service.Ledger.{opposite_balance, entry_of}
use invoice_service.Ledger.Accounts.{
  balance_of, pending_of, locked_row, ensured_row, lock_or_create_balance-calm, locked_row-balance,
  ensured_row-amounts,
}
use invoice_service.Ledger.Frame.{Aside, Aside-trans, ensured_row-Aside}
use invoice_service.Ledger.DoubleEntry.{account, IsLedger}
use invoice_service.Ledger.Carry.{ensured_row-IsLedger}
use invoice_service.Payments.{
  payer_account, outstanding_of, settle_of, settle_note, credit_note, settle_payment,
}
use invoice_service.Payments.Settlement.{
  settled_part, surplus_part, posted_positive, post_positive-calm, posted_positive-IsLedger,
  posted_positive-Aside, posted_positive-balance, posted_positive-pending,
}

-- What the entries of a payment do to the balances: with `old` the payer's PAYABLE before, the
-- settled part moves the payer's PAYABLE and its mirror, the surplus the payer's RECEIVABLE and its
-- mirror.
abbrev pub SettledBalances : ℕ → ℕ → Amount → Db → Db → Type 0
SettledBalances team for_team amount before after =
    (j : Account)
    → let old = balance_of (payer_account team for_team) before.balances in
      balance_of j after.balances
      ≡ balance_of j before.balances
        +ℤ (if same_account (account team for_team payable) j
            then settled_part old amount
            else pos 0)
        +ℤ (if same_account (account for_team team receivable) j
            then neg (settled_part old amount)
            else pos 0)
        +ℤ (if same_account (account team for_team receivable) j
            then surplus_part old amount
            else pos 0)
        +ℤ (if same_account (account for_team team payable) j
            then neg (surplus_part old amount)
            else pos 0)

pub record Settles (team for_team : ℕ) (amount : Amount) (before after : Db) : Type 0 where
  pub ledger : IsLedger after
  pub balances : SettledBalances team for_team amount before after
  pub pending : (j : Account) → pending_of j after.balances ≡ pending_of j before.balances
  pub aside : Aside before after

module _ (p : InvoicePayment) (completed_by : ℕ) (now : Time) (d : Db) where
  abbrev k : Account
  k = payer_account p.team_id p.for_team_id

  abbrev d1 : Db
  d1 = ensured_row k now d

  abbrev settle : Amount
  settle = settle_of (outstanding_of (locked_row k now d).balance) p.amount

  owes : opposite_balance payable ≡ ok receivable
  unfolding opposite_balance
  owes = refl

  owed : opposite_balance receivable ≡ ok payable
  unfolding opposite_balance
  owed = refl

  abbrev d2 : Db
  d2 =
      posted_positive p.team_id p.for_team_id payable receivable settle
        (entry_of payment (settle_note p) completed_by now none) d1 owes

  pub settled : Db
  settled =
      posted_positive p.team_id p.for_team_id receivable payable (p.amount -ℤ settle)
        (entry_of payment (credit_note p) completed_by now none) d2 owed

  pub settle_payment-calm : settle_payment p completed_by now (calm d) ≡ (ok tt, calm settled)
  unfolding settle_payment settled
  settle_payment-calm = rw (lock_or_create_balance-calm k now d) (
      rw
        (post_positive-calm p.team_id p.for_team_id payable receivable settle
          (entry_of payment (settle_note p) completed_by now none) d1 owes)
        (post_positive-calm p.team_id p.for_team_id receivable payable (p.amount -ℤ settle)
          (entry_of payment (credit_note p) completed_by now none) d2 owed))

  module _ (h : IsLedger d) where
    ledger1 : IsLedger d1
    ledger1 = ensured_row-IsLedger k now d h

    ledger2 : IsLedger d2
    ledger2 = posted_positive-IsLedger _ _ payable receivable settle _ d1 owes ledger1

    settled-balance :
        (j : Account)
        → let old = (locked_row k now d).balance in
          balance_of j settled.balances
          ≡ balance_of j d.balances
            +ℤ (if same_account (account p.team_id p.for_team_id payable) j
                then settled_part old p.amount
                else pos 0)
            +ℤ (if same_account (account p.for_team_id p.team_id receivable) j
                then neg (settled_part old p.amount)
                else pos 0)
            +ℤ (if same_account (account p.team_id p.for_team_id receivable) j
                then surplus_part old p.amount
                else pos 0)
            +ℤ (if same_account (account p.for_team_id p.team_id payable) j
                then neg (surplus_part old p.amount)
                else pos 0)
    unfolding settled
    settled-balance j =
        posted_positive-balance _ _ receivable payable (p.amount -ℤ settle) _ d2 owed
          ledger2.numbered j
        ∙ rw (
          posted_positive-balance p.team_id p.for_team_id payable receivable settle
              (entry_of payment (settle_note p) completed_by now none) d1 owes ledger1.numbered j,
          (ensured_row-amounts k now d j).0,
        )

    pub settled-Settles : Settles p.team_id p.for_team_id p.amount d settled
    unfolding settled
    settled-Settles = record {
      ledger =
          posted_positive-IsLedger _ _ receivable payable (p.amount -ℤ settle) _ d2 owed ledger2;
      balances = λ j. rw (← locked_row-balance k now d) (settled-balance j);
      pending = λ j.
          posted_positive-pending _ _ receivable payable (p.amount -ℤ settle) _ d2 owed
            ledger2.numbered j
          ∙ posted_positive-pending _ _ payable receivable settle _ d1 owes ledger1.numbered j
          ∙ (ensured_row-amounts k now d j).1;
      aside = Aside-trans (ensured_row-Aside k now d) (
          Aside-trans (posted_positive-Aside _ _ payable receivable settle _ d1 owes)
            (posted_positive-Aside _ _ receivable payable (p.amount -ℤ settle) _ d2 owed));
    }
