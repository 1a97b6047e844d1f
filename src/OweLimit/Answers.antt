-- ===== src/OweLimit/Answers.antt =====
-- CheckOweLimit: the answer for every creditor that it is asked about.
use invoice_service.Prelude.{
  ℕ, ◌≡◌, ◌∙◌, refl, sym, ap, inl, inr, ◌&&◌, true, Option, none, some, List, [], ◌∷◌, arith, ◌==◌,
  ==_iff, if◌then◌else◌, Bool-cases,
}
use invoice_service.Prelude.Int.{pos, neg}
use invoice_service.Prelude.Rows.{filter_rows}
use invoice_service.Models.Enums.{Amount, payable}
use invoice_service.Models.Ledger.{TeamBalance, on_account}
use invoice_service.Models.OweLimit.{OweLimitConfiguration}
use invoice_service.Store.{Db, ok, calm, query, statement}
use invoice_service.OweLimit.{
  elem, GoMap, no_keys, put, OweLimitAllow, allowed, Limit, collect, names_debtor, owes_one_of,
  debts, debt_or_zero, verdict, judged, allow_all, judge_all, evaluate_owe_limits, check_owe_limit,
}
use invoice_service.OweLimit.Rules.{
  last_row, last_row-filter, last_row-filter_and, either, nothing, known, learnt, Consistent,
  collect-known, collect-Consistent, custom_for, default_for, rule, owed, current_debt, decision,
}

verdict_twice :
    (l : Option Limit) (debt : Amount) (w : OweLimitAllow)
    → verdict l debt (verdict l debt w) ≡ verdict l debt w
verdict_twice none debt w = refl
verdict_twice (some l) debt w = ground arith

verdict-decision :
    (l : Option Limit) (x y : Option OweLimitConfiguration) (debt : Amount)
    → Consistent l
    → known l ≡ learnt x y nothing
    → verdict l debt allowed ≡ decision (either x y) debt
verdict-decision none x y debt h e = ground arith
verdict-decision (some l) x y debt h e = ground (arith, h l refl)

allow_all-elem :
    (cs : List ℕ) (result : GoMap OweLimitAllow) (c : ℕ)
    → allow_all cs result c ≡ (if elem c cs then some allowed else result c)
unfolding allow_all
allow_all-elem [] result c = refl
allow_all-elem (y ∷ ys) result c =
    allow_all-elem ys (put y allowed result) c
    ∙ elim (Bool-cases (c == y)) [ inl same ↦ rw same (ground arith) | inr other ↦ rw other refl ]

judge_all-elem :
    (cs : List ℕ) (limits : GoMap Limit) (debt_of : GoMap Amount) (result : GoMap OweLimitAllow)
    (c : ℕ) (w : OweLimitAllow)
    → result c ≡ some w
    → judge_all cs limits debt_of result c
      ≡ (if elem c cs then some (verdict (limits c) (debt_or_zero (debt_of c)) w) else some w)
unfolding judge_all
judge_all-elem [] limits debt_of result c w e = e
judge_all-elem (y ∷ ys) limits debt_of result c w e = elim (Bool-cases (c == y)) [
  | inl same ↦
      let eq : c ≡ y = (==_iff c y).0 same in
      let now : put y (judged (limits y) (debt_or_zero (debt_of y)) (result y)) result c
          ≡ some (verdict (limits c) (debt_or_zero (debt_of c)) w) =
        rw same (
          ap (λ (n : ℕ). some (judged (limits n) (debt_or_zero (debt_of n)) (result n))) (sym eq)
          ∙ rw e refl) in
      judge_all-elem ys limits debt_of _ c _ now
      ∙ rw (same, verdict_twice (limits c) (debt_or_zero (debt_of c)) w) (ground arith)
  | inr other ↦ judge_all-elem ys limits debt_of _ c w (rw other e) ∙ rw other refl
]

debts-last :
    (bs : List TeamBalance) (m : GoMap Amount) (c : ℕ)
    → debt_or_zero (debts bs m c) ≡ (elim (last_row (λ b. b.for_team_id == c) bs) [
      | some b ↦ neg b.balance
      | none ↦ debt_or_zero (m c)
    ])
unfolding debts last_row
debts-last [] m c = refl
debts-last (b ∷ bs) m c = debts-last bs (put b.for_team_id (neg b.balance) m) c ∙ ground arith

module _ (debtor : ℕ) (creditors : List ℕ) (d : Db) where
  abbrev limits : GoMap Limit
  limits = collect debtor (filter_rows (names_debtor debtor creditors) d.configs) no_keys

  abbrev debt_of : GoMap Amount
  debt_of = debts (filter_rows (owes_one_of debtor creditors) d.balances) no_keys

  abbrev result : GoMap OweLimitAllow
  result = judge_all creditors limits debt_of (allow_all creditors no_keys)

  abbrev expected : ℕ → OweLimitAllow
  expected c = decision (rule debtor c d.configs) (current_debt debtor c d.balances)

  module _ (c : ℕ) (asked : elem c creditors ≡ true) where
    limits-rule : (w : Amount) → verdict (limits c) w allowed ≡ decision (rule debtor c d.configs) w
    limits-rule w =
        verdict-decision (limits c) (last_row (custom_for debtor c) d.configs)
          (last_row (default_for c) d.configs) w
          (collect-Consistent debtor c _ no_keys (λ i l e. cc))
          (collect-known debtor c _ no_keys
            ∙ rw
                (
                  last_row-filter (custom_for debtor c) (names_debtor debtor creditors) d.configs
                      (λ r h. fits r h),
                  last_row-filter (default_for c) (names_debtor debtor creditors) d.configs
                      (λ r h. fits_default r h),
                )
                refl)
      where
        same :
            (r : OweLimitConfiguration) → (r.team_id == c) ≡ true → elem r.team_id creditors ≡ true
        same r h = ap (λ (n : ℕ). elem n creditors) ((==_iff r.team_id c).0 h) ∙ asked

        fits :
            (r : OweLimitConfiguration)
            → custom_for debtor c r ≡ true
            → names_debtor debtor creditors r ≡ true
        fits r h = ground (arith, same r)

        fits_default :
            (r : OweLimitConfiguration)
            → default_for c r ≡ true
            → names_debtor debtor creditors r ≡ true
        fits_default r h = ground (arith, same r)

    debt_of-current : debt_or_zero (debt_of c) ≡ current_debt debtor c d.balances
    debt_of-current =
        debts-last (filter_rows (owes_one_of debtor creditors) d.balances) no_keys c
        ∙ rw
            (last_row-filter_and (λ b. b.for_team_id == c) (owes_one_of debtor creditors)
              (on_account (record { team = debtor; for_team = c; kind = payable })) d.balances
              (λ b. same_test b))
            (flattened _)
      where
        member :
            (b : TeamBalance) → (b.for_team_id == c) ≡ true → elem b.for_team_id creditors ≡ true
        member b h = ap (λ (n : ℕ). elem n creditors) ((==_iff b.for_team_id c).0 h) ∙ asked

        same_test :
            (b : TeamBalance)
            → on_account (record { team = debtor; for_team = c; kind = payable }) b
              ≡ (owes_one_of debtor creditors b && b.for_team_id == c)
        same_test b = ground (arith, member b)

        flattened :
            (o : Option TeamBalance) → (elim o [ some b ↦ neg b.balance | none ↦ pos 0 ]) ≡ owed o
        flattened none = refl
        flattened (some b) = refl

    result-expected : result c ≡ some (expected c)
    result-expected =
        judge_all-elem creditors limits debt_of (allow_all creditors no_keys) c allowed
          (allow_all-elem creditors no_keys c ∙ rw asked refl)
        ∙ rw (asked, debt_of-current)
            (ap (λ (w : OweLimitAllow). some w) (limits-rule (current_debt debtor c d.balances)))

runs :
    (debtor : ℕ) (creditors : List ℕ) (d : Db)
    → evaluate_owe_limits debtor creditors (calm d) ≡ (ok (result debtor creditors d), calm d)
unfolding evaluate_owe_limits query statement judge_all allow_all
runs debtor [] d = refl
runs debtor (c ∷ cs) d = refl

-- Where no statement fails, CheckOweLimit changes no table and answers for every creditor that it is
-- asked about: by the creditor's last row for this debtor or else by its last default row, no row
-- allows any debt, a threshold of 0 too, and another threshold has to exceed the debt of the last
-- PAYABLE row of the debtor for that creditor.
pub check_owe_limit_lem :
    (debtor : ℕ) (creditors : List ℕ) (d : Db)
    → (answer : GoMap OweLimitAllow) × (check_owe_limit debtor creditors (calm d)
        ≡ (ok answer, calm d))
      × ((c : ℕ)
          → elem c creditors ≡ true
          → answer c ≡ some (decision (rule debtor c d.configs) (current_debt debtor c d.balances)))
unfolding check_owe_limit
check_owe_limit_lem debtor creditors d =
    (result debtor creditors d, runs debtor creditors d, result-expected debtor creditors d)
