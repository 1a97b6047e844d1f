-- ===== src/Lists/Order.antt =====
-- The pages that the lists cut: the rows that are asked for, each of them, newest first.
use invoice_service.Prelude.{
  ℕ, ◌≡◌, ◌≤◌, ◌∙◌, ◌↔◌, true, refl, ap, suc, ◌+◌, inl, inr, Bool, some, List, [], ◌∷◌, map, ltb,
  arith, if◌then◌else◌, Bool-cases,
}
use invoice_service.Prelude.Rows.{filter_rows}
use invoice_service.Prelude.Every.{Every}
use invoice_service.Prelude.Selects.{count_where, Selects, filter_rows-Selects}
use invoice_service.Lists.Listed.{
  IsOutgoing, IsIncoming, IsCustomRowOf, is_outgoing-iff-IsOutgoing, is_incoming-iff-IsIncoming,
  is_custom_row_of-iff-IsCustomRowOf,
}
use invoice_service.Models.Payment.{InvoicePayment}
use invoice_service.Models.OweLimit.{OweLimitConfiguration}
use invoice_service.Store.{Db, ok, calm, query, statement}
use invoice_service.Lists.{
  Pagination, row_count, insert_newest, newest_first, ListPaymentRequest, is_outgoing, is_incoming,
  to_proto_payment, list_payment, list_incoming_payment, owe_limit_custom_list, custom_item,
  is_custom_row_of,
}

module _ {A : Type 0} where
  module _ (id : A → ℕ) where
    abbrev pub IsNewestFirst : List A → Type 0
    IsNewestFirst [] = Unit
    IsNewestFirst (r ∷ []) = Unit
    IsNewestFirst (r ∷ next ∷ rs) = (id next ≤ id r) × IsNewestFirst (next ∷ rs)

    insert_newest-count_where :
        (p : A → Bool) (x : A) (rs : List A)
        → count_where p (insert_newest id x rs) ≡ (if p x then 1 else 0) + count_where p rs
    unfolding count_where insert_newest
    insert_newest-count_where p x [] = refl
    insert_newest-count_where p x (r ∷ rs) = ground (arith, insert_newest-count_where p x rs)

    newest_first-count_where :
        (p : A → Bool) (rs : List A) → count_where p (newest_first id rs) ≡ count_where p rs
    unfolding count_where newest_first
    newest_first-count_where p [] = refl
    newest_first-count_where p (r ∷ rs) =
        insert_newest-count_where p r (newest_first id rs) ∙ rw (newest_first-count_where p rs) refl

    insert_newest-Every :
        (P : A → Type 0) (x : A) (rs : List A) → P x → Every P rs → Every P (insert_newest id x rs)
    unfolding insert_newest
    insert_newest-Every P x [] h e = (h, tt)
    insert_newest-Every P x (r ∷ rs) h e = elim (Bool-cases (ltb (id x) (id r))) [
      | inl t ↦ rw t (e.0, insert_newest-Every P x rs h e.1)
      | inr f ↦ rw f (h, e)
    ]

    newest_first-Every : (P : A → Type 0) (rs : List A) → Every P rs → Every P (newest_first id rs)
    unfolding newest_first
    newest_first-Every P [] e = tt
    newest_first-Every P (r ∷ rs) e =
        insert_newest-Every P r (newest_first id rs) e.0 (newest_first-Every P rs e.1)

    behind :
        (r x : A) (rs : List A)
        → IsNewestFirst (r ∷ rs)
        → id x ≤ id r
        → IsNewestFirst (insert_newest id x rs)
        → IsNewestFirst (r ∷ insert_newest id x rs)
    unfolding insert_newest
    behind r x [] h le rest = (le, tt)
    behind r x (y ∷ ys) h le rest = elim (Bool-cases (ltb (id x) (id y))) [
      | inl t ↦ rw t (h.0, rw t at rest)
      | inr f ↦ rw f (le, rw f at rest)
    ]

    behind_head : (r : A) (rs : List A) → IsNewestFirst (r ∷ rs) → IsNewestFirst rs
    behind_head r [] h = tt
    behind_head r (y ∷ ys) h = h.1

    insert_newest-IsNewestFirst :
        (x : A) (rs : List A) → IsNewestFirst rs → IsNewestFirst (insert_newest id x rs)
    unfolding insert_newest
    insert_newest-IsNewestFirst x [] h = tt
    insert_newest-IsNewestFirst x (r ∷ rs) h = elim (Bool-cases (ltb (id x) (id r))) [
      | inl t ↦
          rw t
            (behind r x rs h (ground arith) (insert_newest-IsNewestFirst x rs (behind_head r rs h)))
      | inr f ↦ rw f (ground arith, h)
    ]

    newest_first-IsNewestFirst : (rs : List A) → IsNewestFirst (newest_first id rs)
    unfolding newest_first
    newest_first-IsNewestFirst [] = tt
    newest_first-IsNewestFirst (r ∷ rs) =
        insert_newest-IsNewestFirst r (newest_first id rs) (newest_first-IsNewestFirst rs)

    insert_newest-row_count :
        (x : A) (rs : List A) → row_count (insert_newest id x rs) ≡ suc (row_count rs)
    unfolding row_count insert_newest
    insert_newest-row_count x [] = refl
    insert_newest-row_count x (r ∷ rs) = ground (arith, insert_newest-row_count x rs)

    newest_first-row_count : (rs : List A) → row_count (newest_first id rs) ≡ row_count rs
    unfolding row_count newest_first
    newest_first-row_count [] = refl
    newest_first-row_count (r ∷ rs) =
        insert_newest-row_count r (newest_first id rs) ∙ ap suc (newest_first-row_count rs)

-- The rows `listed` are those of `rows` that are asked for, newest first.
pub record Lists {A : Type 0} (id : A → ℕ) (Asked : A → Type 0) (rows listed : List A)
    : Type 0 where
  pub order : IsNewestFirst id listed
  pub selected : Selects Asked rows listed

newest_first-Lists :
    {A : Type 0} (id : A → ℕ) (Asked : A → Type 0) (fits : A → Bool)
    → ((r : A) → (fits r ≡ true) ↔ Asked r)
    → (rows : List A) → Lists id Asked rows (newest_first id (filter_rows fits rows))
newest_first-Lists id Asked fits decides rows =
    let found = filter_rows-Selects Asked fits decides rows in
    record {
      order = newest_first-IsNewestFirst id (filter_rows fits rows);
      selected = record {
        all_fit = newest_first-Every id Asked (filter_rows fits rows) found.all_fit;
        same_rows = λ p only.
            newest_first-count_where id p (filter_rows fits rows) ∙ found.same_rows p only;
      };
    }

-- Where no statement fails and a page is asked for, ListPayment changes no table and answers with
-- that page, and its info, of the payments by the team, newest first and each once for its row: to the
-- other team, with the status, not before and not after the times, where the request has one.
pub list_payment_lem :
    (p : Pagination) (page : p.Page) (pay : ListPaymentRequest) (d : Db)
    → (listed : List InvoicePayment) × (list_payment p (some page) pay (calm d)
        ≡ (ok (map to_proto_payment (p.cut page listed), p.info page (row_count listed)), calm d))
      × Lists (λ q. q.id) (IsOutgoing pay) d.payments listed
unfolding list_payment query statement
list_payment_lem p page pay d = (
  newest_first (λ q. q.id) (filter_rows (is_outgoing pay) d.payments),
  rw
      (newest_first-row_count (λ (q : InvoicePayment). q.id)
        (filter_rows (is_outgoing pay) d.payments))
      refl,
  newest_first-Lists _ (IsOutgoing pay) (is_outgoing pay) (is_outgoing-iff-IsOutgoing pay)
      d.payments,
)

-- Where no statement fails and a page is asked for, ListIncomingPayment changes no table and answers
-- with that page, and its info, of the payments to the team, newest first and each once for its row: by
-- the other team, with the status, not before and not after the times, where the request has one.
pub list_incoming_payment_lem :
    (p : Pagination) (page : p.Page) (pay : ListPaymentRequest) (d : Db)
    → (listed : List InvoicePayment) × (list_incoming_payment p (some page) pay (calm d)
        ≡ (ok (map to_proto_payment (p.cut page listed), p.info page (row_count listed)), calm d))
      × Lists (λ q. q.id) (IsIncoming pay) d.payments listed
unfolding list_incoming_payment query statement
list_incoming_payment_lem p page pay d = (
  newest_first (λ q. q.id) (filter_rows (is_incoming pay) d.payments),
  rw
      (newest_first-row_count (λ (q : InvoicePayment). q.id)
        (filter_rows (is_incoming pay) d.payments))
      refl,
  newest_first-Lists _ (IsIncoming pay) (is_incoming pay) (is_incoming-iff-IsIncoming pay)
      d.payments,
)

-- Where no statement fails and a page is asked for, OweLimitCustomList changes no table and answers
-- with that page, and its info, of the rows of the team that are not its default and name a debtor,
-- newest first and each once.
pub owe_limit_custom_list_lem :
    (p : Pagination) (page : p.Page) (team : ℕ) (d : Db)
    → (listed : List OweLimitConfiguration) × (owe_limit_custom_list p (some page) team (calm d)
        ≡ (ok (map custom_item (p.cut page listed), p.info page (row_count listed)), calm d))
      × Lists (λ cfg. cfg.id) (IsCustomRowOf team) d.configs listed
unfolding owe_limit_custom_list query statement
owe_limit_custom_list_lem p page team d = (
  newest_first (λ cfg. cfg.id) (filter_rows (is_custom_row_of team) d.configs),
  rw
      (newest_first-row_count (λ (cfg : OweLimitConfiguration). cfg.id)
        (filter_rows (is_custom_row_of team) d.configs))
      refl,
  newest_first-Lists _ (IsCustomRowOf team) (is_custom_row_of team)
      (is_custom_row_of-iff-IsCustomRowOf team) d.configs,
)
