-- ===== src/Ledger/Posting.antt =====
-- One leg of an entry, and the pending amount of an account, as functions of the tables.
use invoice_service.Prelude.{
  ℕ, ◌≡◌, refl, true, false, Option, none, some, List, if◌then◌else◌, Bool-cases, inl, inr,
}
use invoice_service.Prelude.Int.{◌+ℤ◌}
use invoice_service.Prelude.Rows.{find_row, update_rows}
use invoice_service.Prelude.Rows.Ids.{WellNumbered}
use invoice_service.Models.Enums.{Time, Amount}
use invoice_service.Models.Ledger.{
  TeamBalance, Account, same_account, same_account_iff, on_account, on_day,
}
use invoice_service.Store.{Db, ok, calm, execute}
use invoice_service.Ledger.{
  OrderSource, Entry, start_of_jakarta_day, has_id, with_balance, set_balance, new_log, insert_log,
  new_source, insert_source, attribute, put_daily, upsert_daily_log, post_entry, with_pending,
  set_pending, adjust_pending,
}
use invoice_service.Ledger.Accounts.{
  balance_of, pending_of, IsNumbered, locked_row, ensured_row, lock_or_create_balance-calm,
  ensured_row-IsNumbered, find-ensured_row, locked_row-balance, locked_row-pending,
  ensured_row-amounts, updated-IsNumbered, find-updated_same, find-updated_other,
}

abbrev pub attributed : Option OrderSource → ℕ → Time → Db → Db
attributed none i now d = d
attributed (some src) i now d = insert_source (new_source src i now) d

attribute-calm :
    (src : Option OrderSource) (i : ℕ) (now : Time) (d : Db)
    → attribute src i now (calm d) ≡ (ok tt, calm (attributed src i now d))
unfolding execute
attribute-calm none i now d = refl
attribute-calm (some src) i now d = refl

-- The tables after the balance of the account has moved, and then after the whole leg.
unfoldable pub moved : Account → Amount → Time → Db → Db
moved k delta now d =
    let r = locked_row k now d in set_balance r.id (r.balance +ℤ delta) now (ensured_row k now d)

unfoldable pub posted : Account → Amount → Entry → Db → Db
unfolding moved
posted k delta e d =
    let prev = (locked_row k e.now d).balance in
    let d1 = moved k delta e.now d in
    let d2 = insert_log (new_log d1.log_seq k delta (prev +ℤ delta) e) d1 in
    let d3 = attributed e.src d1.log_seq e.now d2 in
    let day = start_of_jakarta_day e.now in
    put_daily (find_row (on_day day k) d3.dailies) day k prev (prev +ℤ delta) delta e.now d3

unfoldable pub pended : Account → Amount → Time → Db → Db
pended k delta now d =
    let r = locked_row k now d in
    set_pending r.id (r.pending_payment_amount +ℤ delta) now (ensured_row k now d)

pub post_entry-calm :
    (k : Account) (delta : Amount) (e : Entry) (d : Db)
    → post_entry k delta e (calm d) ≡ (ok tt, calm (posted k delta e d))
unfolding post_entry posted upsert_daily_log
post_entry-calm k delta e d =
    rw (lock_or_create_balance-calm k e.now d) (rw (attribute-calm e.src _ e.now _) refl)

pub adjust_pending-calm :
    (k : Account) (delta : Amount) (now : Time) (d : Db)
    → adjust_pending k delta now (calm d) ≡ (ok tt, calm (pended k delta now d))
unfolding adjust_pending pended
adjust_pending-calm k delta now d = rw (lock_or_create_balance-calm k now d) refl

-- The update of the locked row, at the tables in which it stands.
module _ (k : Account) (now : Time) (d : Db) (numbered : IsNumbered d)
    (g : TeamBalance → TeamBalance) (keeps_id : (x : TeamBalance) → (g x).id ≡ x.id)
    (keeps_account : (j : Account) (x : TeamBalance) → on_account j (g x) ≡ on_account j x) where
  abbrev touched : List TeamBalance
  touched = update_rows (has_id (locked_row k now d).id) g (ensured_row k now d).balances

  touched-IsNumbered :
      WellNumbered (λ (x : TeamBalance). x.id) (ensured_row k now d).balance_seq touched
  touched-IsNumbered =
      updated-IsNumbered k (ensured_row k now d) (locked_row k now d)
        (ensured_row-IsNumbered k now d numbered) (find-ensured_row k now d) g keeps_id
        keeps_account

  find-touched_same :
      (j : Account)
      → same_account j k ≡ true
      → find_row (on_account j) touched ≡ some (g (locked_row k now d))
  find-touched_same j same = rw ((same_account_iff j k).0 same) (
      find-updated_same k (ensured_row k now d) (locked_row k now d)
        (ensured_row-IsNumbered k now d numbered) (find-ensured_row k now d) g keeps_id
        keeps_account)

  find-touched_other :
      (j : Account)
      → same_account j k ≡ false
      → (balance_of j touched ≡ balance_of j d.balances)
        × (pending_of j touched ≡ pending_of j d.balances)
  find-touched_other j other =
      rw
        (find-updated_other k (ensured_row k now d) (locked_row k now d)
          (ensured_row-IsNumbered k now d numbered) (find-ensured_row k now d) g keeps_id
          keeps_account j other)
        (ensured_row-amounts k now d j)

module _ (k : Account) (delta : Amount) (now : Time) (d : Db) (numbered : IsNumbered d) where
  abbrev balanced : TeamBalance → TeamBalance
  balanced = with_balance ((locked_row k now d).balance +ℤ delta) now

  abbrev reserved : TeamBalance → TeamBalance
  reserved = with_pending ((locked_row k now d).pending_payment_amount +ℤ delta) now

  -- The delta goes to the balance of the account, and to nothing else of any account.
  pub moved-amounts :
      (j : Account)
      → (balance_of j (moved k delta now d).balances ≡ (
          if same_account j k then balance_of k d.balances +ℤ delta else balance_of j d.balances))
        × (pending_of j (moved k delta now d).balances ≡ pending_of j d.balances)
  unfolding moved
  moved-amounts j = elim (Bool-cases (same_account j k)) [
    | inl same ↦
        rw (same, find-touched_same k now d numbered balanced (λ x. refl) (λ i x. refl) j same)
          (
            rw (locked_row-balance k now d),
            rw (locked_row-pending k now d, (same_account_iff j k).0 same),
          )
    | inr other ↦
        rw other (find-touched_other k now d numbered balanced (λ x. refl) (λ i x. refl) j other)
  ]

  pub moved-IsNumbered : IsNumbered (moved k delta now d)
  unfolding moved
  moved-IsNumbered = touched-IsNumbered k now d numbered balanced (λ x. refl) (λ i x. refl)

  -- The delta goes to the pending amount of the account, and to nothing else of any account.
  pub pended-amounts :
      (j : Account)
      → (balance_of j (pended k delta now d).balances ≡ balance_of j d.balances)
        × (pending_of j (pended k delta now d).balances ≡ (
            if same_account j k then pending_of k d.balances +ℤ delta else pending_of j d.balances))
  unfolding pended
  pended-amounts j = elim (Bool-cases (same_account j k)) [
    | inl same ↦
        rw (same, find-touched_same k now d numbered reserved (λ x. refl) (λ i x. refl) j same)
          (
            rw (locked_row-balance k now d, (same_account_iff j k).0 same),
            rw (locked_row-pending k now d),
          )
    | inr other ↦
        rw other (find-touched_other k now d numbered reserved (λ x. refl) (λ i x. refl) j other)
  ]

  pub pended-IsNumbered : IsNumbered (pended k delta now d)
  unfolding pended
  pended-IsNumbered = touched-IsNumbered k now d numbered reserved (λ x. refl) (λ i x. refl)
