-- ===== src/Reconcile/Convergence.antt =====
-- `reconcileTeamPayable`: one run brings every listed PAYABLE to the unpaid invoices, and a second run
-- posts nothing.
use invoice_service.Prelude.{
  ℕ, ◌≡◌, ◌≢◌, ◌∙◌, refl, sym, ap, inl, inr, Bool, true, false, not, ◌&&◌, some, Option, none, List,
  [], ◌∷◌, map, arith, ◌==◌, ==_iff, ==_refl, if◌then◌else◌, Bool-cases,
}
use invoice_service.Prelude.Int.{ℤ, pos, ◌+ℤ◌, ◌<ℤ◌, neg, eqb_ℤ, int_laws, +ℤ_zero}
use invoice_service.Prelude.Every.{Every, Every-mono, Every-filter_rows, Every-map}
use invoice_service.Prelude.Rows.{find_row, filter_rows, sum_where}
use invoice_service.Models.Enums.{Time, Amount}
use invoice_service.Models.Ledger.{TeamBalance, on_account}
use invoice_service.Models.Shop.{Invoice}
use invoice_service.Store.{Db, ok, calm, query, statement}
use invoice_service.Ledger.Accounts.{balance_of, found_balance}
use invoice_service.Ledger.DoubleEntry.{IsLedger}
use invoice_service.Reconcile.{
  reconcile_epsilon, PayableReconcile, names, groups, is_unpaid_of, source_balance, payable_account,
  balance_or_zero, reconcile_row, reconcile_list, reconcile_rows, reconcile_team_payable,
}
use invoice_service.Reconcile.Adjusting.{
  is_small, adjusted, IsFine, Adjusts, reconcile_rows-Adjusts,
}

-- What is left between the unpaid invoices and the PAYABLE of a creditor.
abbrev pub gap : ℕ → ℕ → Db → Amount
gap team c d =
    source_balance team c d.shop.invoices +ℤ balance_of (payable_account team c) d.balances

-- Less than half a cent.
abbrev pub IsNegligible : Amount → Type 0
IsNegligible x = (neg reconcile_epsilon <ℤ x) × (x <ℤ reconcile_epsilon)

IsNegligible-small : (x : Amount) → is_small x ≡ true → IsNegligible x
unfolding neg
IsNegligible-small x h = ground arith

abbrev IsDistinct : List ℕ → Type 0
IsDistinct [] = Unit
IsDistinct (c ∷ cs) = (names c cs ≡ false) × IsDistinct cs

groups-IsDistinct : (team : ℕ) (invoices : List Invoice) → IsDistinct (groups team invoices)
unfolding groups
groups-IsDistinct team [] = tt
groups-IsDistinct team (i ∷ is) =
    elim (Bool-cases (is_unpaid_of team i && not (names i.to_team_id (groups team is)))) [
      | inl t ↦ rw t (ground arith, groups-IsDistinct team is)
      | inr f ↦ rw f (groups-IsDistinct team is)
    ]

own_names : (cs : List ℕ) → Every (λ c. names c cs ≡ true) cs
own_names [] = tt
own_names (c ∷ cs) = (rw (==_refl c) refl, Every-mono _ _ cs (λ x h. ground arith) (own_names cs))

balance_row : (o : Option TeamBalance) → balance_or_zero o ≡ found_balance o
balance_row none = refl
balance_row (some b) = refl

nothing_added : (b : Bool) (x : ℤ) → x ≡ (if b then pos 0 else pos 0) +ℤ x
nothing_added true x = omega int_laws
nothing_added false x = omega int_laws

closed_gap : (s x : ℤ) → s +ℤ (x +ℤ neg (s +ℤ x)) ≡ pos 0
closed_gap s x = omega int_laws

kept_gap : (s x : ℤ) → s +ℤ (x +ℤ neg (pos 0)) ≡ s +ℤ x
kept_gap s x = omega int_laws

module _ (team : ℕ) (d : Db) where
  abbrev row : ℕ → PayableReconcile
  row = reconcile_row team d

  row-gap : (c : ℕ) → (row c).delta_balance ≡ gap team c d
  row-gap c =
      ap (λ (x : ℤ). source_balance team c d.shop.invoices +ℤ x)
        (balance_row (find_row (on_account (payable_account team c)) d.balances))

  abbrev is_listed : PayableReconcile → Bool
  is_listed r = not (eqb_ℤ r.delta_balance (pos 0))

  unlisted : (r : PayableReconcile) → is_listed r ≡ false → adjusted r ≡ pos 0
  unlisted r h = ground arith

  abbrev off : ℕ → List ℕ → Amount
  off c cs = sum_where (λ r. r.for_team_id == c) adjusted (filter_rows is_listed (map row cs))

  off-cons :
      (c y : ℕ) (ys : List ℕ)
      → off c (y ∷ ys) ≡ (if y == c then adjusted (row y) else pos 0) +ℤ off c ys
  unfolding filter_rows sum_where
  off-cons c y ys = elim (Bool-cases (is_listed (row y))) [
    | inl t ↦ rw t refl
    | inr f ↦ rw f (rw (unlisted (row y) f) (nothing_added (y == c) _))
  ]

  off-names :
      (c : ℕ) (cs : List ℕ)
      → IsDistinct cs
      → off c cs ≡ (if names c cs then adjusted (row c) else pos 0)
  unfolding filter_rows sum_where
  off-names c [] distinct = refl
  off-names c (y ∷ ys) distinct =
      off-cons c y ys
      ∙ rw (off-names c ys distinct.1) (elim (Bool-cases (c == y)) [
        | inl same ↦
            let e : c ≡ y = (==_iff c y).0 same in
            let absent : names c ys ≡ false = ap (λ (n : ℕ). names n ys) e ∙ distinct.0 in
            let back : (y == c) ≡ true = ground arith in
            rw (same, absent, back) (+ℤ_zero _ ∙ ap (λ (n : ℕ). adjusted (row n)) (sym e))
        | inr other ↦
            let back : (y == c) ≡ false = ground arith in
            rw (other, back) (sym (nothing_added true _))
      ])

  -- A listed creditor's gap after the adjustments.
  after_gap :
      (c : ℕ) (d' : Db)
      → names c (groups team d.shop.invoices) ≡ true
      → Adjusts team (reconcile_list team d) d d'
      → is_small (gap team c d') ≡ true
  unfolding reconcile_list
  after_gap c d' listed done =
      let taken : balance_of (payable_account team c) d'.balances
          ≡ balance_of (payable_account team c) d.balances +ℤ neg (adjusted (row c)) =
        done.payables c
        ∙ rw
            (
              off-names c (groups team d.shop.invoices) (groups-IsDistinct team d.shop.invoices),
              listed,
            )
            refl in
      rw (done.shop, taken, row-gap c)
        (elim (Bool-cases (is_small (gap team c d))) [
          | inl t ↦ rw t (
              rw
                (kept_gap (source_balance team c d.shop.invoices)
                  (balance_of (payable_account team c) d.balances))
                t)
          | inr f ↦ rw f (
              rw
                (closed_gap (source_balance team c d.shop.invoices)
                  (balance_of (payable_account team c) d.balances))
                refl)
        ])

  listed-IsFine :
      Every (λ c. (c ≢ 0) × (c ≢ team)) (groups team d.shop.invoices)
      → Every (IsFine team) (reconcile_list team d)
  unfolding reconcile_list
  listed-IsFine h = Every-filter_rows _ is_listed (map row (groups team d.shop.invoices)) (
      Every-map _ row (groups team d.shop.invoices)
        (Every-mono _ _ (groups team d.shop.invoices) (λ c f. (refl, f.0, f.1)) h))

-- Rows that are all negligible post nothing.
nothing_posted :
    (by : ℕ) (clock : ℕ → Time) (rows : List PayableReconcile) (n : ℕ) (d : Db)
    → Every (λ r. is_small r.delta_balance ≡ true) rows
    → reconcile_rows (some by) clock rows n (calm d) ≡ (ok n, calm d)
unfolding reconcile_rows
nothing_posted by clock [] n d h = refl
nothing_posted by clock (r ∷ rows) n d h = rw h.0 (nothing_posted by clock rows n d h.1)

settled_list :
    (team : ℕ) (d : Db)
    → ((c : ℕ) → names c (groups team d.shop.invoices) ≡ true → is_small (gap team c d) ≡ true)
    → Every (λ r. is_small r.delta_balance ≡ true) (reconcile_list team d)
unfolding reconcile_list
settled_list team d h =
    Every-filter_rows _ (is_listed team d) (map (row team d) (groups team d.shop.invoices)) (
      Every-map _ (row team d) (groups team d.shop.invoices) (
        Every-mono _ _ (groups team d.shop.invoices)
          (λ c listed. rw (row-gap team d c) (h c listed))
          (own_names (groups team d.shop.invoices))))

-- Where no statement fails, the caller is known, the team is not 0 and no unpaid invoice of the team
-- is owed to team 0 or to the team itself, the reconciliation succeeds and keeps the invariant of the
-- ledger; afterwards the unpaid invoices and the PAYABLE of every listed creditor differ by less than
-- half a cent, and a second run succeeds, posts nothing and changes no table.
pub reconcile_converges :
    (by : ℕ) (clock later : ℕ → Time) (team : ℕ) (d : Db)
    → IsLedger d
    → team ≢ 0
    → Every (λ c. (c ≢ 0) × (c ≢ team)) (groups team d.shop.invoices)
    → (count : ℕ) × (d' : Db) × (reconcile_team_payable (some by) clock team (calm d)
        ≡ (ok count, calm d'))
      × IsLedger d'
      × ((c : ℕ) → names c (groups team d.shop.invoices) ≡ true → IsNegligible (gap team c d'))
      × (reconcile_team_payable (some by) later team (calm d') ≡ (ok 0, calm d'))
unfolding reconcile_team_payable query statement
reconcile_converges by clock later team d ledger some_team fine =
    let (count, d', ran, done) =
      reconcile_rows-Adjusts team by clock (reconcile_list team d) 0 d some_team
        (listed-IsFine team d fine) ledger in
    let small : (c : ℕ)
        → names c (groups team d.shop.invoices) ≡ true
        → is_small (gap team c d') ≡ true =
      λ c listed. after_gap team d c d' listed done in
    (
      count,
      d',
      ran,
      done.ledger,
      λ c listed. IsNegligible-small (gap team c d') (small c listed),
      nothing_posted by later (reconcile_list team d') 0 d'
          (settled_list team d' (λ c listed. small c (rw (done.shop) at listed))),
    )
