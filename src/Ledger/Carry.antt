-- ===== src/Ledger/Carry.antt =====
-- The invariant of the ledger rests on the balances and the history only, so it is carried through
-- whatever leaves those as they are: a row created empty, a pending amount, and other tables.
use invoice_service.Prelude.{◌≡◌, ◌∙◌, Bool}
use invoice_service.Models.Enums.{Time, Amount}
use invoice_service.Models.Ledger.{Account}
use invoice_service.Store.{Db}
use invoice_service.Ledger.Accounts.{
  balance_of, IsNumbered, ensured_row, ensured_row-IsNumbered, ensured_row-amounts,
}
use invoice_service.Ledger.Posting.{pended, pended-amounts, pended-IsNumbered}
use invoice_service.Ledger.Frame.{SameHistory, pended-SameHistory, ensured_row-SameHistory}
use invoice_service.Ledger.Totals.{held, ensured_row-held, pended-held}
use invoice_service.Ledger.DoubleEntry.{account, IsLedger}
use invoice_service.Models.Enums.{payable, receivable}

pub IsLedger-carry :
    (d d' : Db)
    → IsLedger d
    → IsNumbered d'
    → ((j : Account) → balance_of j d'.balances ≡ balance_of j d.balances)
    → ((p : Account → Bool) → held p d' ≡ held p d)
    → SameHistory d d'
    → IsLedger d'
IsLedger-carry d d' h numbered same totals history = record {
  numbered = numbered;
  mirrored = λ a b. rw (same (account a b payable), same (account b a receivable)) (h.mirrored a b);
  replayed = λ k. rw (history.logs, same k) (h.replayed k);
  rolled_up = λ t k. rw (history.dailies, history.logs) (h.rolled_up t k);
  totalled = λ p. totals p ∙ rw history.logs (h.totalled p);
  daily = record {
    once = rw history.dailies h.daily.once;
    rolled_up = λ p. rw (history.dailies, history.logs) (h.daily.rolled_up p);
  };
}

pub ensured_row-IsLedger :
    (k : Account) (now : Time) (d : Db) → IsLedger d → IsLedger (ensured_row k now d)
ensured_row-IsLedger k now d h =
    IsLedger-carry d (ensured_row k now d) h (ensured_row-IsNumbered k now d h.numbered)
      (λ j. (ensured_row-amounts k now d j).0) (λ p. ensured_row-held k now d p)
      (ensured_row-SameHistory k now d)

pub pended-IsLedger :
    (k : Account) (delta : Amount) (now : Time) (d : Db)
    → IsLedger d
    → IsLedger (pended k delta now d)
pended-IsLedger k delta now d h =
    IsLedger-carry d (pended k delta now d) h (pended-IsNumbered k delta now d h.numbered)
      (λ j. (pended-amounts k delta now d h.numbered j).0)
      (λ p. pended-held k now d p h.numbered delta) (pended-SameHistory k delta now d)
