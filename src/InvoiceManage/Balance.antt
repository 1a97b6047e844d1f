-- ===== src/InvoiceManage/Balance.antt =====
-- `Get` and then `ReadjustAmount`: the paid invoices and the new one sum to the amount that is asked for.
use invoice_service.Prelude.{
  ℕ, zero, suc, ◌≡◌, ◌≢◌, ◌∙◌, ◌⊎◌, refl, sym, arith, true, false, none, List, [], map, ◌&&◌, ◌==◌,
  ==_refl, if◌then◌else◌, inl, inr, Bool-cases,
}
use invoice_service.Prelude.Int.{
  ℤ, pos, negsuc, ◌+ℤ◌, ◌-ℤ◌, neg, ltb_ℤ, eqb_ℤ, ◌<ℤ◌, int_laws, zero_+ℤ,
}
use invoice_service.Prelude.Rows.{filter_rows}
use invoice_service.Prelude.Rows.Ids.{WellNumbered}
use invoice_service.Prelude.Every.{Every, Every-all}
use invoice_service.Models.Enums.{Time, Amount}
use invoice_service.Models.Shop.{Invoice}
use invoice_service.Store.{Db, calm, query, execute, statement}
use invoice_service.InvoiceManage.{
  Condition, meets_all, ReadjustAmountPayload, Manage, get, insert_invoice, rest_invoice,
  is_missing, readjust_amount,
}
use invoice_service.InvoiceManage.Readjust.{
  settled, settle_if, paid_total, with_invoices, IsBetween, sweep-IsSwept,
}

-- A manager that has loaded nothing.
abbrev pub new_manage : Manage
new_manage = record { invoices = []; error = none }

-- An invoice as an amount that `from_id` owes.
abbrev pub owed_by : ℕ → Invoice → Amount
owed_by team i = if i.from_team_id == team then i.amount else neg i.amount

zero_of_eqb : (x : ℤ) → eqb_ℤ x (pos 0) ≡ true → x ≡ pos 0
zero_of_eqb (pos zero) h = refl
zero_of_eqb (pos (suc n)) h = ground arith
zero_of_eqb (negsuc n) h = ground arith

put_back : (a p : ℤ) → a ≡ a -ℤ p +ℤ p
put_back a p = omega int_laws

put_on : (a p : ℤ) → p +ℤ (a -ℤ p) ≡ a
put_on a p = omega int_laws

all_of : (a p : ℤ) → a -ℤ p ≡ pos 0 → p ≡ a
all_of a p h = sym (put_back a p ∙ rw h (zero_+ℤ p))

all_with : (a p x : ℤ) → x ≡ a -ℤ p → p +ℤ x ≡ a
all_with a p x h = rw h (put_on a p)

forward_rest : (x : ℤ) → ltb_ℤ (pos 0) x ≡ true → pos 0 <ℤ x
forward_rest x h = ground arith

backward_rest : (x : ℤ) → ltb_ℤ (pos 0) x ≡ false → eqb_ℤ x (pos 0) ≡ false → pos 0 <ℤ neg x
unfolding neg
backward_rest (pos zero) h k = ground arith
backward_rest (pos (suc n)) h k = ground arith
backward_rest (negsuc n) h k = ground arith

neg-neg : (x : ℤ) → neg (neg x) ≡ x
neg-neg x = omega int_laws

-- The invoice for a rest has a positive amount, and is that rest as an amount that `from_id` owes.
rest_invoice-owed :
    (pay : ReadjustAmountPayload) (x : ℤ) (now : Time) (id : ℕ)
    → pay.from_id ≢ pay.to_id
    → eqb_ℤ x (pos 0) ≡ false
    → (pos 0 <ℤ (rest_invoice pay x now id).amount)
      × (owed_by pay.from_id (rest_invoice pay x now id) ≡ x)
rest_invoice-owed pay x now id differ left = elim (Bool-cases (ltb_ℤ (pos 0) x)) [
  | inl t ↦ rw (t, ==_refl pay.from_id) (forward_rest x t, refl)
  | inr e ↦
      let other : (pay.to_id == pay.from_id) ≡ false = ground arith in
      rw (e, other) (backward_rest x e left, neg-neg x)
]

module _ (q : List Condition) (pay : ReadjustAmountPayload) (now : Time) (d : Db) where
  abbrev pub found : List Invoice
  found = filter_rows (meets_all q) d.shop.invoices

  abbrev pub rest_of : Amount
  rest_of = pay.amount -ℤ paid_total found

  abbrev pub swept : Db
  swept = with_invoices (map (settle_if (meets_all q)) d.shop.invoices) d

  abbrev pub new_invoice : Invoice
  new_invoice = rest_invoice pay rest_of now d.shop.invoice_seq

  abbrev pub readjusted : Db
  readjusted =
      if eqb_ℤ rest_of (pos 0) then swept else insert_invoice (rest_invoice pay rest_of now) swept

  module _ (names_one : (is_missing pay.order_id && is_missing pay.tx_id) ≡ false)
      (between : Every (λ r. meets_all q r ≡ true → IsBetween pay r) d.shop.invoices)
      (unique : WellNumbered (λ (i : Invoice). i.id) d.shop.invoice_seq d.shop.invoices) where
    readjust_amount-calm :
        let (m, s) = get q new_manage (calm d) in
        readjust_amount pay now m s
        ≡ (record { invoices = map settled found; error = none }, calm readjusted)
    unfolding readjust_amount get query execute statement
    readjust_amount-calm =
        rw
          (
            names_one,
            sweep-IsSwept pay (meets_all q) d d.shop.invoice_seq d.shop.invoices [] pay.amount
                between (Every-all _ d.shop.invoices (λ r. tt)) unique,
          )
          (elim (Bool-cases (eqb_ℤ rest_of (pos 0))) [ inl t ↦ rw t refl | inr e ↦ rw e refl ])

    -- Where no statement fails, the invoices that the query finds are all between the two teams, which
    -- differ, the payload names an order or a transaction, and ids are unique: loading and readjusting
    -- leave no error, every found invoice that is not paid is cancelled and no other row changes, and
    -- either the paid ones already sum to the amount, or one unpaid invoice of a positive amount is
    -- added, and the paid ones and what `from_id` owes by it sum to the amount.
    pub readjust_amount-balances :
        pay.from_id ≢ pay.to_id
        → (let (m, s) = get q new_manage (calm d) in
            readjust_amount pay now m s
            ≡ (record { invoices = map settled found; error = none }, calm readjusted))
          × (((readjusted ≡ swept) × (paid_total found ≡ pay.amount))
              ⊎ ((readjusted ≡ insert_invoice (rest_invoice pay rest_of now) swept)
                  × (pos 0 <ℤ new_invoice.amount)
                  × (paid_total found +ℤ owed_by pay.from_id new_invoice ≡ pay.amount)))
    readjust_amount-balances differ = (
      readjust_amount-calm,
      elim (Bool-cases (eqb_ℤ rest_of (pos 0))) [
        | inl t ↦ inl (rw t refl, all_of pay.amount (paid_total found) (zero_of_eqb rest_of t))
        | inr e ↦
            let (positive, owed) = rest_invoice-owed pay rest_of now d.shop.invoice_seq differ e in
            inr (rw e refl, positive, all_with pay.amount (paid_total found) _ owed)
      ],
    )
