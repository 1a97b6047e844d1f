-- ===== src/TeamPage/Sorted.antt =====
-- `sortForTeamIDs`: ORDER BY sorts, and leaves out no row.
use invoice_service.Prelude.{
  ℕ, ◌≡◌, ◌∙◌, ◌+◌, ◌↔◌, ◌==◌, ◌&&◌, refl, ap, arith, inl, inr, Bool, true, false, Option, none,
  some, List, [], ◌∷◌, map, Bool-cases, ==_iff, if◌then◌else◌,
}
use invoice_service.Prelude.Int.{ℤ, leb_ℤ, ◌≤ℤ◌}
use invoice_service.Prelude.Every.{Every, Every-mono}
use invoice_service.Prelude.Selects.{count_where, Selects, filter_rows-Selects, &&_iff}
use invoice_service.Models.Enums.{Time, payable, same_type, same_type_iff}
use invoice_service.Models.Ledger.{TeamBalance}
use invoice_service.Models.Shop.{Team, TeamType, warehouse_team, selling_team, admin_team}
use invoice_service.Lists.{if_positive}
use invoice_service.Lists.Listed.{IsAsked, if_positive_iff}
use invoice_service.Store.{Db, ok, calm, query, statement}
use invoice_service.TeamPage.{
  Collation, TeamBalanceListFilter, sort_payable, insert_by, order_by, directed, side_rows, page_of,
  page_limit_offset, sort_for_team_ids, ProtoTeamType, proto_unspecified, proto_warehouse,
  proto_selling, proto_admin, db_team_type, team_of, type_fits, in_scope_of, same_team_type,
}

module _ {A : Type 0} (before : A → A → Bool) where
  abbrev pub IsOrdered : List A → Type 0
  IsOrdered [] = Unit
  IsOrdered (x ∷ xs) = Every (λ y. before x y ≡ true) xs × IsOrdered xs

  insert_by-count_where :
      (p : A → Bool) (x : A) (ys : List A)
      → count_where p (insert_by before x ys) ≡ (if p x then 1 else 0) + count_where p ys
  unfolding count_where insert_by
  insert_by-count_where p x [] = refl
  insert_by-count_where p x (y ∷ ys) = ground (arith, insert_by-count_where p x ys)

  order_by-count_where :
      (p : A → Bool) (xs : List A) → count_where p (order_by before xs) ≡ count_where p xs
  unfolding count_where order_by
  order_by-count_where p [] = refl
  order_by-count_where p (x ∷ xs) =
      insert_by-count_where p x (order_by before xs) ∙ rw (order_by-count_where p xs) refl

  insert_by-Every :
      (P : A → Type 0) (x : A) (ys : List A) → P x → Every P ys → Every P (insert_by before x ys)
  unfolding insert_by
  insert_by-Every P x [] p e = (p, tt)
  insert_by-Every P x (y ∷ ys) p e = elim (Bool-cases (before x y)) [
    | inl t ↦ rw t (p, e)
    | inr f ↦ rw f (e.0, insert_by-Every P x ys p e.1)
  ]

  pub order_by-Every : (P : A → Type 0) (xs : List A) → Every P xs → Every P (order_by before xs)
  unfolding order_by
  order_by-Every P [] e = tt
  order_by-Every P (x ∷ xs) e =
      insert_by-Every P x (order_by before xs) e.0 (order_by-Every P xs e.1)

  order_by-Selects :
      (Fits : A → Type 0) (rows xs : List A)
      → Selects Fits rows xs
      → Selects Fits rows (order_by before xs)
  order_by-Selects Fits rows xs found = record {
    all_fit = order_by-Every Fits xs found.all_fit;
    same_rows = λ p only. order_by-count_where p xs ∙ found.same_rows p only;
  }

  module _ (total : (x y : A) → before x y ≡ false → before y x ≡ true)
      (chained : (x y z : A) → before x y ≡ true → before y z ≡ true → before x z ≡ true) where
    insert_by-IsOrdered : (x : A) (ys : List A) → IsOrdered ys → IsOrdered (insert_by before x ys)
    unfolding insert_by
    insert_by-IsOrdered x [] h = (tt, tt)
    insert_by-IsOrdered x (y ∷ ys) h = elim (Bool-cases (before x y)) [
      | inl t ↦ rw t ((t, Every-mono _ _ ys (λ z later. chained x y z t later) h.0), h)
      | inr e ↦ rw e (
        insert_by-Every (λ z. before y z ≡ true) x ys (total x y e) h.0,
        insert_by-IsOrdered x ys h.1,
      )
    ]

    pub order_by-IsOrdered : (xs : List A) → IsOrdered (order_by before xs)
    unfolding order_by
    order_by-IsOrdered [] = tt
    order_by-IsOrdered (x ∷ xs) = insert_by-IsOrdered x (order_by before xs) (order_by-IsOrdered xs)

leb_ℤ-total : (a b : ℤ) → leb_ℤ a b ≡ false → leb_ℤ b a ≡ true
leb_ℤ-total a b h = ground arith

leb_ℤ-chained : (a b c : ℤ) → leb_ℤ a b ≡ true → leb_ℤ b c ≡ true → leb_ℤ a c ≡ true
leb_ℤ-chained a b c h k = ground arith

abbrev pub by_balance : Bool → TeamBalance → TeamBalance → Bool
by_balance desc = directed desc (λ r s. leb_ℤ r.balance s.balance)

by_balance-total :
    (desc : Bool) (r s : TeamBalance) → by_balance desc r s ≡ false → by_balance desc s r ≡ true
by_balance-total true r s h = leb_ℤ-total s.balance r.balance h
by_balance-total false r s h = leb_ℤ-total r.balance s.balance h

by_balance-chained :
    (desc : Bool) (r s t : TeamBalance)
    → by_balance desc r s ≡ true
    → by_balance desc s t ≡ true
    → by_balance desc r t ≡ true
by_balance-chained true r s t h k = leb_ℤ-chained t.balance s.balance r.balance k h
by_balance-chained false r s t h k = leb_ℤ-chained r.balance s.balance t.balance h k

-- The balances fall where `desc` is set, and rise where it is not.
abbrev pub IsSorted : Bool → List TeamBalance → Type 0
IsSorted desc [] = Unit
IsSorted true (r ∷ rs) = Every (λ s. s.balance ≤ℤ r.balance) rs × IsSorted true rs
IsSorted false (r ∷ rs) = Every (λ s. r.balance ≤ℤ s.balance) rs × IsSorted false rs

leb_ℤ-≤ℤ : (a b : ℤ) → leb_ℤ a b ≡ true → a ≤ℤ b
leb_ℤ-≤ℤ a b h = ground arith

IsOrdered-IsSorted :
    (desc : Bool) (rows : List TeamBalance) → IsOrdered (by_balance desc) rows → IsSorted desc rows
IsOrdered-IsSorted true [] h = tt
IsOrdered-IsSorted false [] h = tt
IsOrdered-IsSorted true (r ∷ rs) h =
    (Every-mono _ _ rs (λ s e. leb_ℤ-≤ℤ s.balance r.balance e) h.0, IsOrdered-IsSorted true rs h.1)
IsOrdered-IsSorted false (r ∷ rs) h =
    (Every-mono _ _ rs (λ s e. leb_ℤ-≤ℤ r.balance s.balance e) h.0, IsOrdered-IsSorted false rs h.1)

-- The counterparty is a team of the type that the filter asks for, where it asks for one.
abbrev pub IsTeamOf : TeamType → Option Team → Type 0
IsTeamOf ty t = (u : Team) × (t ≡ some u) × (u.type ≡ ty)

abbrev pub IsOfType : ProtoTeamType → Option Team → Type 0
IsOfType proto_unspecified t = Unit
IsOfType proto_warehouse t = IsTeamOf warehouse_team t
IsOfType proto_selling t = IsTeamOf selling_team t
IsOfType proto_admin t = IsTeamOf admin_team t

-- A PAYABLE of the team, to a counterparty that the filter asks for.
abbrev pub IsPayableOf : TeamBalanceListFilter → Db → TeamBalance → Type 0
IsPayableOf f d r =
    (r.balance_type ≡ payable)
    × (((r.team_id ≡ f.team_id) × IsAsked f.for_team_id r.for_team_id)
        × IsOfType f.team_type (team_of d r.for_team_id))

some-injective : {A : Type 0} (a b : A) → some a ≡ some b → a ≡ b
some-injective a b e = cc

not_none : {A : Type 0} (a : A) → none ≡ some a → ⊥
not_none a e = cc

has_type_iff :
    (ty : TeamType)
    → ((s : TeamType) → (same_team_type s ty ≡ true) ↔ (s ≡ ty))
    → (t : Option Team) → (type_fits (some ty) t ≡ true) ↔ IsTeamOf ty t
has_type_iff ty same none = (λ e. absurd (ground arith), λ h. absurd (not_none h.0 h.1))
has_type_iff ty same (some t) = (
  λ e. (t, refl, (same t.type).0 e),
  λ h. (same t.type).1 (ap (λ (u : Team). u.type) (some-injective t h.0 h.1) ∙ h.2),
)

type_fits_iff :
    (asked : ProtoTeamType) (t : Option Team)
    → (type_fits (db_team_type asked) t ≡ true) ↔ IsOfType asked t
unfolding db_team_type
type_fits_iff proto_unspecified t = (λ e. tt, λ h. refl)
type_fits_iff proto_warehouse t = has_type_iff warehouse_team (λ s. ground arith) t
type_fits_iff proto_selling t = has_type_iff selling_team (λ s. ground arith) t
type_fits_iff proto_admin t = has_type_iff admin_team (λ s. ground arith) t

payable_row-iff-IsPayableOf :
    (f : TeamBalanceListFilter) (d : Db) (r : TeamBalance)
    → ((same_type r.balance_type payable && in_scope_of f d r.team_id r.for_team_id) ≡ true)
      ↔ IsPayableOf f d r
payable_row-iff-IsPayableOf f d r =
    &&_iff (same_type r.balance_type payable) _ (same_type_iff r.balance_type payable) (
      &&_iff (r.team_id == f.team_id && if_positive f.for_team_id r.for_team_id) _
        (&&_iff (r.team_id == f.team_id) _ (==_iff r.team_id f.team_id)
          (if_positive_iff f.for_team_id r.for_team_id))
        (type_fits_iff f.team_type (team_of d r.for_team_id)))

-- Where no statement fails, the PAYABLE sort changes no table and answers with the requested page of
-- the counterparties of the PAYABLE rows of the team, each row once and none left out: those to the
-- counterparty and to teams of the type that the filter asks for. Their balances fall where the
-- request is for descending order, and rise where it is not.
pub sort_for_team_ids-payable :
    (c : Collation) (half : ℕ) (f : TeamBalanceListFilter) (desc : Bool) (start end : Time) (d : Db)
    → (rows : List TeamBalance) × (sort_for_team_ids c half f sort_payable desc start end (calm d)
        ≡ (ok (page_of (page_limit_offset half f.page) (map (λ r. r.for_team_id) rows)), calm d))
      × Selects (IsPayableOf f d) d.balances rows
      × IsSorted desc rows
unfolding sort_for_team_ids query statement
sort_for_team_ids-payable c half f desc start end d = (
  order_by (by_balance desc) (side_rows f d payable),
  refl,
  order_by-Selects (by_balance desc) (IsPayableOf f d) d.balances (side_rows f d payable)
      (filter_rows-Selects (IsPayableOf f d) _ (payable_row-iff-IsPayableOf f d) d.balances),
  IsOrdered-IsSorted desc _ (
      order_by-IsOrdered (by_balance desc) (by_balance-total desc) (by_balance-chained desc)
        (side_rows f d payable)),
)
