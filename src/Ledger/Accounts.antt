-- ===== src/Ledger/Accounts.antt =====
-- What the rows of team_balances say of an account, and what the statements of the ledger do to it.
use invoice_service.Prelude.{
  ℕ, ◌≡◌, refl, sym, ◌∙◌, inl, inr, true, false, Option, none, some, List, [], ◌∷◌, ◌++◌, arith,
  ==_iff, Bool-cases, Option-cases,
}
use mathlib.Core.Bool.{true≢false}
use invoice_service.Prelude.Int.{pos}
use invoice_service.Prelude.Rows.{
  find_row, update_rows, find_row-fits, find_row-snoc_none, find_row-snoc_some, find_row-update,
}
use invoice_service.Prelude.Rows.Ids.{
  WellNumbered, WellNumbered-snoc, WellNumbered-update, found_once,
}
use invoice_service.Models.Enums.{Time, Amount}
use invoice_service.Models.Ledger.{TeamBalance, Account, same_account, same_account_iff, on_account}
use invoice_service.Store.{Db, ok, calm, statement}
use invoice_service.Ledger.{has_id, or_create, new_balance, insert_balance, lock_or_create_balance}

abbrev pub found_balance : Option TeamBalance → Amount
found_balance none = pos 0
found_balance (some r) = r.balance

abbrev pub found_pending : Option TeamBalance → Amount
found_pending none = pos 0
found_pending (some r) = r.pending_payment_amount

-- The running balance and the in-flight payments of an account; no row counts as zero.
abbrev pub balance_of : Account → List TeamBalance → Amount
balance_of k rows = found_balance (find_row (on_account k) rows)

abbrev pub pending_of : Account → List TeamBalance → Amount
pending_of k rows = found_pending (find_row (on_account k) rows)

-- The rows of team_balances have ids of their own, below the next one of the sequence.
abbrev pub IsNumbered : Db → Type 0
IsNumbered d = WellNumbered (λ (r : TeamBalance). r.id) d.balance_seq d.balances

-- The row that `lockOrCreateBalance` returns, and the tables after it.
abbrev pub locked : Option TeamBalance → Account → Time → Db → TeamBalance
locked none k now d = new_balance k d.balance_seq now
locked (some r) k now d = r

abbrev pub ensured : Option TeamBalance → Account → Time → Db → Db
ensured none k now d = insert_balance (new_balance k d.balance_seq now) d
ensured (some r) k now d = d

unfoldable pub locked_row : Account → Time → Db → TeamBalance
locked_row k now d = locked (find_row (on_account k) d.balances) k now d

unfoldable pub ensured_row : Account → Time → Db → Db
ensured_row k now d = ensured (find_row (on_account k) d.balances) k now d

module _ (k : Account) (now : Time) (d : Db) where
  or_create-calm :
      (found : Option TeamBalance)
      → or_create found k now (calm d) ≡ (ok (locked found k now d), calm (ensured found k now d))
  unfolding statement
  or_create-calm none = refl
  or_create-calm (some r) = refl

  pub lock_or_create_balance-calm :
      lock_or_create_balance k now (calm d) ≡ (ok (locked_row k now d), calm (ensured_row k now d))
  unfolding lock_or_create_balance locked_row ensured_row
  lock_or_create_balance-calm = or_create-calm (find_row (on_account k) d.balances)

  pub ensured_row-IsNumbered : IsNumbered d → IsNumbered (ensured_row k now d)
  unfolding ensured_row
  ensured_row-IsNumbered h = elim (Option-cases (find_row (on_account k) d.balances)) [
    | inl missing ↦ rw missing (WellNumbered-snoc _ d.balance_seq d.balances _ h refl)
    | inr (r, found) ↦ rw found h
  ]

  on_account_new : (j : Account) (i : ℕ) → on_account j (new_balance k i now) ≡ same_account k j
  on_account_new j i = refl

  -- The row is there for the account, and its amounts are those that the account had.
  pub find-ensured_row :
      find_row (on_account k) (ensured_row k now d).balances ≡ some (locked_row k now d)
  unfolding ensured_row locked_row
  find-ensured_row = elim (Option-cases (find_row (on_account k) d.balances)) [
    | inl missing ↦ rw missing (
        find_row-snoc_none (on_account k) d.balances _ missing ∙ rw ((same_account_iff k k).1 refl))
    | inr (r, found) ↦ rw found found
  ]

  pub locked_row-balance : (locked_row k now d).balance ≡ balance_of k d.balances
  unfolding locked_row
  locked_row-balance = ground arith

  pub locked_row-pending : (locked_row k now d).pending_payment_amount ≡ pending_of k d.balances
  unfolding locked_row
  locked_row-pending = ground arith

  module _ (j : Account) where
    missing_row :
        find_row (on_account k) d.balances ≡ none
        → (balance_of j (d.balances ++ new_balance k d.balance_seq now ∷ [])
            ≡ balance_of j d.balances)
          × (pending_of j (d.balances ++ new_balance k d.balance_seq now ∷ [])
              ≡ pending_of j d.balances)
    missing_row missing = elim (Option-cases (find_row (on_account j) d.balances)) [
      | inl none_j ↦ ground (
        arith,
        none_j,
        find_row-snoc_none (on_account j) d.balances (new_balance k d.balance_seq now) none_j,
      )
      | inr (r, found) ↦ ground (
        arith,
        found,
        find_row-snoc_some (on_account j) d.balances (new_balance k d.balance_seq now) r found,
      )
    ]

    pub ensured_row-amounts :
        (balance_of j (ensured_row k now d).balances ≡ balance_of j d.balances)
        × (pending_of j (ensured_row k now d).balances ≡ pending_of j d.balances)
    unfolding ensured_row
    ensured_row-amounts = elim (Option-cases (find_row (on_account k) d.balances)) [
      | inl missing ↦ rw missing (missing_row missing)
      | inr (r, found) ↦ rw found (refl, refl)
    ]

-- An update of the row that was found for an account, by its id.
module _ (k : Account) (d : Db) (r : TeamBalance) (numbered : IsNumbered d)
    (found : find_row (on_account k) d.balances ≡ some r) (g : TeamBalance → TeamBalance)
    (keeps_id : (x : TeamBalance) → (g x).id ≡ x.id)
    (keeps_account : (j : Account) (x : TeamBalance) → on_account j (g x) ≡ on_account j x) where
  abbrev updated : List TeamBalance
  updated = update_rows (has_id r.id) g d.balances

  pub updated-IsNumbered : WellNumbered (λ (x : TeamBalance). x.id) d.balance_seq updated
  updated-IsNumbered =
      WellNumbered-update _ (has_id r.id) g keeps_id d.balance_seq d.balances numbered

  pub find-updated_same : find_row (on_account k) updated ≡ some (g r)
  find-updated_same =
      rw (find_row-update (on_account k) (has_id r.id) g d.balances (keeps_account k), found)
        (ground (arith, ==_iff r.id r.id))

  one_row :
      (j : Account) (x : TeamBalance)
      → on_account k r ≡ true
      → on_account j x ≡ true
      → r ≡ x
      → same_account j k ≡ true
  one_row j x on_k on_j same = ground arith

  -- A row of another account has another id.
  other_id :
      (j : Account) (x : TeamBalance)
      → same_account j k ≡ false
      → find_row (on_account j) d.balances ≡ some x
      → has_id r.id x ≡ false
  other_id j x other found_j = elim (Bool-cases (has_id r.id x)) [
    | inl same ↦ absurd (
        true≢false (
          sym (
            one_row j x (find_row-fits _ d.balances r found) (find_row-fits _ d.balances x found_j)
              (found_once _ d.balance_seq _ _ d.balances r x numbered found found_j
                (sym ((==_iff x.id r.id).0 same))))
          ∙ other))
    | inr differs ↦ differs
  ]

  pub find-updated_other :
      (j : Account)
      → same_account j k ≡ false
      → find_row (on_account j) updated ≡ find_row (on_account j) d.balances
  find-updated_other j other =
      find_row-update (on_account j) (has_id r.id) g d.balances (keeps_account j)
      ∙ elim (Option-cases (find_row (on_account j) d.balances)) [
        | inl missing ↦ rw missing
        | inr (x, found_j) ↦ rw (found_j, other_id j x other found_j)
      ]
