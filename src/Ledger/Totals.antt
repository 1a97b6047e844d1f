-- ===== src/Ledger/Totals.antt =====
-- Sums over team_balances, for any choice of accounts: they are
-- sums over the change log. Here the balances.
use invoice_service.Prelude.{
  ◌≡◌, ◌∙◌, refl, sym, ap, Bool, true, false, Option, none, some, if◌then◌else◌,
}
use invoice_service.Prelude.Int.{ℤ, pos, ◌+ℤ◌, neg, int_laws, +ℤ_zero}
use invoice_service.Prelude.Rows.{find_row, update_rows, sum_where, find_row-fits, sum_where-snoc}
use invoice_service.Prelude.Rows.Ids.{sum_where-update, found_own}
use invoice_service.Models.Enums.{Time, Amount}
use invoice_service.Models.Ledger.{
  TeamBalance, BalanceChangeLog, Account, same_account_iff, on_account,
}
use invoice_service.Store.{Db}
use invoice_service.Ledger.{Entry, has_id, with_balance, with_pending, new_balance}
use invoice_service.Ledger.Accounts.{
  IsNumbered, ensured, ensured_row, locked_row, ensured_row-IsNumbered, find-ensured_row,
}
use invoice_service.Ledger.Posting.{moved, posted, pended}
use invoice_service.Ledger.Leg.{posted-balances, sum-posted}

abbrev pub account_of : TeamBalance → Account
account_of r = record { team = r.team_id; for_team = r.for_team_id; kind = r.balance_type }

abbrev pub account_of_log : BalanceChangeLog → Account
account_of_log l = record { team = l.team_id; for_team = l.for_team_id; kind = l.balance_type }

-- The sum of the balances of some accounts, and of the changes of some accounts.
abbrev pub held : (Account → Bool) → Db → Amount
held p d = sum_where (λ r. p (account_of r)) (λ r. r.balance) d.balances

abbrev pub flown : (Account → Bool) → Db → Amount
flown p d = sum_where (λ l. p (account_of_log l)) (λ l. l.change_amount) d.logs

abbrev pub IsTotalled : Db → Type 0
IsTotalled d = (p : Account → Bool) → held p d ≡ flown p d

zero_part : (b : Bool) (x : ℤ) → x +ℤ (if b then pos 0 else pos 0) ≡ x
zero_part true x = omega int_laws
zero_part false x = omega int_laws

add_back : (x r : ℤ) → x ≡ x +ℤ r +ℤ neg r
add_back x r = omega int_laws

take_back : (h r delta : ℤ) → h +ℤ (r +ℤ delta) +ℤ neg r ≡ h +ℤ delta
take_back h r delta = omega int_laws

-- What is left when the old part of a row goes for the new one.
pub new_part :
    (b : Bool) (x h r delta : ℤ)
    → x +ℤ (if b then r else pos 0) ≡ h +ℤ (if b then r +ℤ delta else pos 0)
    → x ≡ h +ℤ (if b then delta else pos 0)
new_part true x h r delta e = add_back x r ∙ ap (λ (t : ℤ). t +ℤ neg r) e ∙ take_back h r delta
new_part false x h r delta e = sym (+ℤ_zero x) ∙ e

module _ (k : Account) (now : Time) (d : Db) (p : Account → Bool) where
  ensured-held : (found : Option TeamBalance) → held p (ensured found k now d) ≡ held p d
  ensured-held none =
      sum_where-snoc (λ r. p (account_of r)) (λ r. r.balance) d.balances
        (new_balance k d.balance_seq now)
      ∙ zero_part (p k) _
  ensured-held (some r) = refl

  pub ensured_row-held : held p (ensured_row k now d) ≡ held p d
  unfolding ensured_row
  ensured_row-held = ensured-held (find_row (on_account k) d.balances)

  module _ (numbered : IsNumbered d) where
    abbrev r : TeamBalance
    r = locked_row k now d

    locked_account : account_of r ≡ k
    locked_account =
        (same_account_iff (account_of r) k).0
          (find_row-fits (on_account k) (ensured_row k now d).balances r (find-ensured_row k now d))

    -- An update of the locked row that keeps its account.
    touched-held :
        (g : TeamBalance → TeamBalance)
        → account_of (g r) ≡ k
        → sum_where
              (λ x. p (account_of x))
              (λ x. x.balance)
              (update_rows (has_id r.id) g (ensured_row k now d).balances)
            +ℤ (if p k then r.balance else pos 0)
          ≡ held p d +ℤ (if p k then (g r).balance else pos 0)
    touched-held g keeps =
        let rows = (ensured_row k now d).balances in
        ap
          (λ (a : Account).
            sum_where (λ x. p (account_of x)) (λ x. x.balance) (update_rows (has_id r.id) g rows)
            +ℤ (if p a then r.balance else pos 0))
          (sym locked_account)
        ∙ sum_where-update (λ (x : TeamBalance). x.id) (λ x. p (account_of x)) (λ x. x.balance) g
            r.id (ensured_row k now d).balance_seq rows r (ensured_row-IsNumbered k now d numbered)
            (found_own (λ (x : TeamBalance). x.id) (ensured_row k now d).balance_seq (on_account k)
              rows r (ensured_row-IsNumbered k now d numbered) (find-ensured_row k now d))
        ∙ ap
            (λ (a : Account).
              held p (ensured_row k now d) +ℤ (if p a then (g r).balance else pos 0))
            keeps
        ∙ ap (λ (x : ℤ). x +ℤ (if p k then (g r).balance else pos 0)) ensured_row-held

    pub moved-held :
        (delta : Amount) → held p (moved k delta now d) ≡ held p d +ℤ (if p k then delta else pos 0)
    unfolding moved
    moved-held delta =
        new_part (p k) _ (held p d) r.balance delta
          (touched-held (with_balance (r.balance +ℤ delta) now) locked_account)

    pub pended-held : (delta : Amount) → held p (pended k delta now d) ≡ held p d
    unfolding pended
    pended-held delta =
        new_part (p k) _ (held p d) r.balance (pos 0) (
          touched-held (with_pending (r.pending_payment_amount +ℤ delta) now) locked_account
          ∙ rw (+ℤ_zero r.balance) refl)
        ∙ zero_part (p k) (held p d)

pub posted-IsTotalled :
    (k : Account) (delta : Amount) (e : Entry) (d : Db)
    → IsNumbered d
    → IsTotalled d
    → IsTotalled (posted k delta e d)
posted-IsTotalled k delta e d numbered totalled p =
    rw (posted-balances k delta e d, moved-held k e.now d p numbered delta, totalled p)
      (sym (sum-posted k delta e d (λ l. p (account_of_log l))))
