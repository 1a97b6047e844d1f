-- ===== src/Ledger/DoubleEntry.antt =====
-- `postDoubleEntry`: two legs that mirror one another, and the invariant of the ledger.
use invoice_service.Prelude.{ℕ, ◌≡◌, ◌∙◌, Bool, true, false, arith, if◌then◌else◌}
use invoice_service.Prelude.Int.{ℤ, pos, ◌+ℤ◌, neg, int_laws}
use invoice_service.Models.Enums.{Amount, BalanceType, payable, receivable}
use invoice_service.Models.Ledger.{Account, same_account}
use invoice_service.Store.{Db, ok, calm}
use invoice_service.Ledger.{Entry, opposite_balance, post_double_entry}
use invoice_service.Ledger.Accounts.{balance_of, pending_of, IsNumbered}
use invoice_service.Ledger.Posting.{posted, post_entry-calm}
use invoice_service.Ledger.Frame.{Aside, Aside-trans}
use invoice_service.Ledger.Leg.{posted-amounts, posted-IsNumbered, posted-Aside}
use invoice_service.Ledger.Totals.{IsTotalled, posted-IsTotalled}
use invoice_service.Ledger.Dailies.{IsDaily, posted-IsDaily}
use invoice_service.Ledger.History.{
  IsReplayed, IsRolledUp, moved_balance, posted-IsReplayed, posted-IsRolledUp,
}

abbrev pub account : ℕ → ℕ → BalanceType → Account
account team for_team bt = record { team = team; for_team = for_team; kind = bt }

-- What `a` owes `b` and what `b` is owed by `a` sum to zero.
abbrev pub IsMirrored : Db → Type 0
IsMirrored d =
    (a b : ℕ)
    → balance_of (account a b payable) d.balances +ℤ balance_of (account b a receivable) d.balances
      ≡ pos 0

pub record IsLedger (d : Db) : Type 0 where
  pub numbered : IsNumbered d
  pub mirrored : IsMirrored d
  pub replayed : IsReplayed d
  pub rolled_up : IsRolledUp d
  pub totalled : IsTotalled d
  pub daily : IsDaily d

cancel_flags :
    (A B : Bool) (x y amount : ℤ)
    → x
        +ℤ (if A then amount else pos 0)
        +ℤ (if B then neg amount else pos 0)
        +ℤ (y +ℤ (if B then amount else pos 0) +ℤ (if A then neg amount else pos 0))
      ≡ x +ℤ y
cancel_flags true true x y amount = omega int_laws
cancel_flags true false x y amount = omega int_laws
cancel_flags false true x y amount = omega int_laws
cancel_flags false false x y amount = omega int_laws

module _ (team for_team : ℕ) (bt counter : BalanceType) (amount : Amount) (e : Entry) (d : Db) where
  abbrev primary : Account
  primary = account team for_team bt

  abbrev mirror : Account
  mirror = account for_team team counter

  abbrev once : Db
  once = posted primary amount e d

  -- The tables after both legs.
  unfoldable pub both_posted : Db
  both_posted = posted mirror (neg amount) e once

  pub both_posted-Aside : Aside d both_posted
  unfolding both_posted
  both_posted-Aside =
      Aside-trans (posted-Aside primary amount e d) (posted-Aside mirror (neg amount) e once)

  module _ (opposite : opposite_balance bt ≡ ok counter) where
    pub post_double_entry-calm :
        post_double_entry team for_team bt amount e (calm d) ≡ (ok tt, calm both_posted)
    unfolding post_double_entry both_posted
    post_double_entry-calm =
        rw opposite
          (rw (post_entry-calm primary amount e d) (post_entry-calm mirror (neg amount) e once))

    mirror_flags :
        (a b : ℕ)
        → (same_account primary (account a b payable)
            ≡ same_account mirror (account b a receivable))
          × (same_account mirror (account a b payable)
              ≡ same_account primary (account b a receivable))
    unfolding opposite_balance
    mirror_flags a b = ground arith

    module _ (numbered : IsNumbered d) where
      -- Every balance after the entry: its legs add what they post.
      pub both_posted-balance :
          (j : Account)
          → balance_of j both_posted.balances
            ≡ balance_of j d.balances
              +ℤ (if same_account primary j then amount else pos 0)
              +ℤ (if same_account mirror j then neg amount else pos 0)
      unfolding both_posted
      both_posted-balance j =
          moved_balance mirror (neg amount) e once j (posted-IsNumbered primary amount e d numbered)
          ∙ rw (moved_balance primary amount e d j numbered)

      pub both_posted-pending :
          (j : Account) → pending_of j both_posted.balances ≡ pending_of j d.balances
      unfolding both_posted
      both_posted-pending j =
          (posted-amounts mirror (neg amount) e once (posted-IsNumbered primary amount e d numbered)
            j).1
          ∙ (posted-amounts primary amount e d numbered j).1

    both_posted-IsMirrored : IsNumbered d → IsMirrored d → IsMirrored both_posted
    both_posted-IsMirrored numbered mirrored a b =
        rw
          (
            both_posted-balance numbered (account a b payable),
            both_posted-balance numbered (account b a receivable),
            (mirror_flags a b).0,
            (mirror_flags a b).1,
          )
          (cancel_flags _ _ _ _ amount ∙ mirrored a b)

    -- A double entry keeps the invariant of the ledger.
    pub both_posted-IsLedger : IsLedger d → IsLedger both_posted
    unfolding both_posted
    both_posted-IsLedger h =
        let n1 = posted-IsNumbered primary amount e d h.numbered in
        record {
          numbered = posted-IsNumbered mirror (neg amount) e once n1;
          mirrored = both_posted-IsMirrored h.numbered h.mirrored;
          replayed =
              posted-IsReplayed mirror (neg amount) e once n1
                (posted-IsReplayed primary amount e d h.numbered h.replayed);
          rolled_up =
              posted-IsRolledUp mirror (neg amount) e once
                (posted-IsRolledUp primary amount e d h.rolled_up);
          totalled =
              posted-IsTotalled mirror (neg amount) e once n1
                (posted-IsTotalled primary amount e d h.numbered h.totalled);
          daily =
              posted-IsDaily mirror (neg amount) e once (posted-IsDaily primary amount e d h.daily);
        }
