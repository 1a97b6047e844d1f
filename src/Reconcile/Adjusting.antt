-- ===== src/Reconcile/Adjusting.antt =====
-- The loop of `reconcileTeamPayable`: what the adjustments of some rows do to the PAYABLE balances.
use invoice_service.Prelude.{
  ℕ, suc, ◌≡◌, ◌≢◌, ◌∙◌, refl, ap, inl, inr, Bool, true, false, some, List, [], ◌∷◌, arith, ◌==◌,
  if◌then◌else◌, Bool-cases,
}
use invoice_service.Prelude.Int.{ℤ, pos, ◌+ℤ◌, neg, ltb_ℤ, int_laws}
use invoice_service.Prelude.Every.{Every}
use invoice_service.Prelude.Rows.{sum_where}
use invoice_service.Models.Enums.{Time, Amount}
use invoice_service.Models.Ledger.{same_account}
use invoice_service.Store.{Db, ok, calm}
use invoice_service.Ledger.{CreateBalanceLogRequest}
use invoice_service.Ledger.Accounts.{balance_of}
use invoice_service.Ledger.DoubleEntry.{account, IsLedger}
use invoice_service.Ledger.Requests.{IsAcceptable, mirror_type, create_balance_log_succeeds}
use invoice_service.Reconcile.{
  reconcile_epsilon, PayableReconcile, payable_account, abs, adjustment_of, reconcile_rows,
}

abbrev pub is_small : Amount → Bool
is_small x = ltb_ℤ (abs x) reconcile_epsilon

-- What the run takes off the PAYABLE of a row.
abbrev pub adjusted : PayableReconcile → Amount
adjusted row = if is_small row.delta_balance then pos 0 else row.delta_balance

second_only : (x y : ℤ) → x +ℤ pos 0 +ℤ neg y ≡ x +ℤ neg y
second_only x y = omega int_laws

first_only : (x y : ℤ) → x +ℤ neg y +ℤ pos 0 ≡ x +ℤ neg y
first_only x y = omega int_laws

neither : (x : ℤ) → x +ℤ pos 0 +ℤ pos 0 ≡ x +ℤ neg (pos 0)
neither x = omega int_laws

module _ (team : ℕ) where
  -- A row that the ledger accepts.
  abbrev pub IsFine : PayableReconcile → Type 0
  IsFine row = (row.team_id ≡ team) × (row.for_team_id ≢ 0) × (row.for_team_id ≢ team)

  acceptable :
      (row : PayableReconcile)
      → team ≢ 0
      → IsFine row
      → is_small row.delta_balance ≡ false
      → IsAcceptable
          (adjustment_of row).team_id
          (adjustment_of row).for_team_id
          (adjustment_of row).change_type
          (adjustment_of row).change_amount
          (adjustment_of row).balance_type
  unfolding neg
  acceptable row some_team fine big = ground arith

  -- The PAYABLE of a creditor after the adjustment of a row.
  taken_off :
      (row : PayableReconcile) (c : ℕ) (x : Amount)
      → IsFine row
      → is_small row.delta_balance ≡ false
      → let pay : CreateBalanceLogRequest = adjustment_of row in
        x
          +ℤ (if same_account
                (account pay.team_id pay.for_team_id pay.balance_type)
                (payable_account team c)
              then pay.change_amount
              else pos 0)
          +ℤ (if same_account
                (account pay.for_team_id pay.team_id (mirror_type pay.balance_type))
                (payable_account team c)
              then neg pay.change_amount
              else pos 0)
        ≡ x +ℤ neg (if row.for_team_id == c then row.delta_balance else pos 0)
  taken_off row c x fine big =
      ground (arith, second_only x row.delta_balance, first_only x row.delta_balance, neither x)

  -- The adjustments of some rows: all of them are posted, and each PAYABLE of the team loses what the
  -- rows of its creditor adjust.
  abbrev pub for_creditor : ℕ → PayableReconcile → Bool
  for_creditor c row = row.for_team_id == c

  pub record Adjusts (rows : List PayableReconcile) (before after : Db) : Type 0 where
    pub ledger : IsLedger after
    pub shop : after.shop ≡ before.shop
    pub payables :
        (c : ℕ)
        → balance_of (payable_account team c) after.balances
          ≡ balance_of (payable_account team c) before.balances
            +ℤ neg (sum_where (for_creditor c) adjusted rows)

  nothing_off : (x : ℤ) → x ≡ x +ℤ neg (pos 0)
  nothing_off x = omega int_laws

  add_off : (x a b : ℤ) → x +ℤ neg a +ℤ neg b ≡ x +ℤ neg (a +ℤ b)
  add_off x a b = omega int_laws

  skip_off : (p : Bool) (b : ℤ) → (if p then pos 0 else pos 0) +ℤ b ≡ b
  skip_off true b = omega int_laws
  skip_off false b = omega int_laws

  module _ (by : ℕ) (clock : ℕ → Time) where
    pub reconcile_rows-Adjusts :
        (rows : List PayableReconcile) (n : ℕ) (d : Db)
        → team ≢ 0
        → Every IsFine rows
        → IsLedger d
        → (m : ℕ) × (d' : Db) × (reconcile_rows (some by) clock rows n (calm d) ≡ (ok m, calm d'))
          × Adjusts rows d d'
    unfolding reconcile_rows sum_where
    reconcile_rows-Adjusts [] n d some_team fine ledger =
        (n, d, refl, record { ledger = ledger; shop = refl; payables = λ c. nothing_off _ })
    reconcile_rows-Adjusts (row ∷ rows) n d some_team fine ledger =
        elim (Bool-cases (is_small row.delta_balance)) [
          | inl small ↦
              let (m, d', ran, done) = reconcile_rows-Adjusts rows n d some_team fine.1 ledger in
              (
                m,
                d',
                rw small ran,
                record {
                  ledger = done.ledger;
                  shop = done.shop;
                  payables = λ c. done.payables c ∙ rw (small, skip_off (for_creditor c row)) refl;
                },
              )
          | inr big ↦
              let (d1, posted, log) =
                create_balance_log_succeeds by (clock n) (adjustment_of row) d ledger
                  (acceptable row some_team fine.0 big) in
              let (m, d', ran, done) =
                reconcile_rows-Adjusts rows (suc n) d1 some_team fine.1 log.posts.ledger in
              (
                m,
                d',
                rw big (rw posted ran),
                record {
                  ledger = done.ledger;
                  shop = done.shop ∙ log.posts.aside.shop;
                  payables = λ c.
                      done.payables c
                      ∙ ap (λ (x : ℤ). x +ℤ neg (sum_where (for_creditor c) adjusted rows))
                          (log.posts.balances (payable_account team c)
                            ∙ taken_off row c _ fine.0 big)
                      ∙ rw big (add_off _ _ _);
                },
              )
        ]
