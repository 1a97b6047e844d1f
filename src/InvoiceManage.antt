-- ===== src/InvoiceManage.antt =====
-- invoice_mutations/invoice_manage.go: the invoices of a transaction, and `ReadjustAmount`, which brings
-- what two teams have invoiced for it to a given amount. The manager keeps the first error.
pub mod Readjust
pub mod Balance
use invoice_service.Prelude.{
  ℕ, suc, ◌&&◌, Bool, true, false, not, Option, none, some, List, [], ◌∷◌, ◌++◌, ◌==◌,
  if◌then◌else◌,
}
use invoice_service.Prelude.Int.{ℤ, pos, ◌-ℤ◌, neg, ltb_ℤ, eqb_ℤ}
use invoice_service.Prelude.Rows.{update_rows, filter_rows}
use invoice_service.Models.Enums.{Time, Amount}
use invoice_service.Models.Shop.{
  Invoice, InvoiceStatus, not_final, not_paid, paid, cancel, InvoiceType, no_type, ship_fee_type,
  warehouse_adjustment, product_adjustment, common_adjustment, other_invoice_type,
}
use invoice_service.Prelude.Text.{same_text}
use invoice_service.Store.{
  Db, Error, order_or_tx_required, from_team_mismatch, to_team_mismatch, Result, ok, err, Session,
  query, execute,
}

-- The conditions that an InvoiceQuery has collected; each is a Where.
pub data Condition : Type 0 where
  from_is to_is tx_is : ℕ → Condition
  type_is : InvoiceType → Condition

-- A setter with a zero value adds nothing.
abbrev pub with_condition : Condition → List Condition → List Condition
with_condition (from_is id) q = if id == 0 then q else q ++ from_is id ∷ []
with_condition (to_is id) q = if id == 0 then q else q ++ to_is id ∷ []
with_condition (tx_is id) q = if id == 0 then q else q ++ tx_is id ∷ []
with_condition (type_is no_type) q = q
with_condition (type_is t) q = q ++ type_is t ∷ []

abbrev is_tx : ℕ → Option ℕ → Bool
is_tx id none = false
is_tx id (some tx) = tx == id

abbrev same_invoice_type : InvoiceType → InvoiceType → Bool
same_invoice_type no_type no_type = true
same_invoice_type ship_fee_type ship_fee_type = true
same_invoice_type warehouse_adjustment warehouse_adjustment = true
same_invoice_type product_adjustment product_adjustment = true
same_invoice_type common_adjustment common_adjustment = true
same_invoice_type (other_invoice_type s) (other_invoice_type t) = same_text s t
same_invoice_type _ _ = false

abbrev meets : Invoice → Condition → Bool
meets i (from_is id) = i.from_team_id == id
meets i (to_is id) = i.to_team_id == id
meets i (tx_is id) = is_tx id i.tx_id
meets i (type_is t) = same_invoice_type i.type t

unfoldable pub meets_all : List Condition → Invoice → Bool
meets_all [] i = true
meets_all (c ∷ q) i = meets i c && meets_all q i

pub record ReadjustAmountPayload : Type 0 where
  pub from_id : ℕ
  pub to_id : ℕ
  pub tx_id : Option ℕ
  pub order_id : Option ℕ
  pub amount : Amount

-- The manager: the invoices that it has loaded, and its error.
pub record Manage : Type 0 where
  pub invoices : List Invoice
  pub error : Option Error

-- setErr keeps the first error.
abbrev pub set_err : Error → Manage → Manage
set_err e m = record m { error = elim m.error [ none ↦ some e | some first ↦ some first ] }

abbrev loaded : Result (List Invoice) × Session → Manage → Manage × Session
loaded (ok rows, s) m = (record m { invoices = rows }, s)
loaded (err e, s) m = (set_err e (record m { invoices = [] }), s)

unfoldable pub get : List Condition → Manage → Session → Manage × Session
unfolding query
get q m s = loaded (query (λ d. filter_rows (meets_all q) d.shop.invoices) s) m

abbrev pub cancelled : Invoice → Invoice
cancelled i = record i { status = cancel }

abbrev pub save_invoice : Invoice → Db → Db
save_invoice i d = record d {
  shop = record d.shop { invoices = update_rows (λ r. r.id == i.id) (λ r. i) d.shop.invoices };
}

abbrev pub insert_invoice : (ℕ → Invoice) → Db → Db
insert_invoice new d = record d {
  shop = record d.shop {
    invoices = d.shop.invoices ++ new d.shop.invoice_seq ∷ [];
    invoice_seq = suc d.shop.invoice_seq;
  };
}

-- What the loop leaves: the invoices in memory, and the amount that is left or an error.
abbrev pub Swept : Type 0
Swept = (List Invoice × Result Amount) × Session

abbrev pub under : Invoice → Swept → Swept
under i ((is, r), s) = ((i ∷ is, r), s)

abbrev go_on : Invoice → List Invoice → Result (Unit {0}) × Session → (Session → Swept) → Swept
go_on i is (ok done, s) rest = under i (rest s)
go_on i is (err e, s) rest = ((i ∷ is, err e), s)

-- The switch on the status of an invoice, before the rest of the loop.
abbrev pub by_status :
    InvoiceStatus → Invoice → List Invoice → Amount → (Amount → Session → Swept) → Session → Swept
by_status paid i is amount rest s = under i (rest (amount -ℤ i.amount) s)
by_status cancel i is amount rest s = under i (rest amount s)
by_status not_final i is amount rest s =
    go_on (cancelled i) is (execute (save_invoice (cancelled i)) s) (rest amount)
by_status not_paid i is amount rest s =
    go_on (cancelled i) is (execute (save_invoice (cancelled i)) s) (rest amount)

-- for _, invo := range i.invoices
unfoldable pub sweep : ReadjustAmountPayload → List Invoice → Amount → Session → Swept
sweep pay [] amount s = (([], ok amount), s)
sweep pay (i ∷ is) amount s =
    if not (i.from_team_id == pay.from_id)
    then ((i ∷ is, err from_team_mismatch), s)
    else if not (i.to_team_id == pay.to_id)
    then ((i ∷ is, err to_team_mismatch), s)
    else by_status i.status i is amount (sweep pay is) s

-- The invoice for what is left; a negative rest is owed the other way round.
abbrev pub rest_invoice : ReadjustAmountPayload → Amount → Time → ℕ → Invoice
rest_invoice pay amount now id =
    let forward = ltb_ℤ (pos 0) amount in
    record {
      id = id;
      tx_id = pay.tx_id;
      order_id = pay.order_id;
      from_team_id = if forward then pay.from_id else pay.to_id;
      to_team_id = if forward then pay.to_id else pay.from_id;
      status = not_paid;
      amount = if forward then amount else neg amount;
      type = ship_fee_type;
      created = now;
      need_adj = false;
      has_submission = false;
      hist_id = none;
      paid_at = none;
      accepted_at = none;
    }

abbrev noted : Manage → Result (Unit {0}) × Session → Manage × Session
noted m (ok done, s) = (m, s)
noted m (err e, s) = (set_err e m, s)

abbrev with_rest : ReadjustAmountPayload → Time → Manage → Swept → Manage × Session
with_rest pay now m ((is, err e), s) = (set_err e (record m { invoices = is }), s)
with_rest pay now m ((is, ok amount), s) =
    if eqb_ℤ amount (pos 0)
    then (record m { invoices = is }, s)
    else noted (record m { invoices = is })
        (execute (insert_invoice (rest_invoice pay amount now)) s)

abbrev is_missing : Option ℕ → Bool
is_missing none = true
is_missing (some i) = false

unfoldable pub readjust_amount : ReadjustAmountPayload → Time → Manage → Session → Manage × Session
unfolding execute
readjust_amount pay now m s =
    if is_missing pay.order_id && is_missing pay.tx_id
    then (set_err order_or_tx_required m, s)
    else with_rest pay now m (sweep pay m.invoices pay.amount s)
