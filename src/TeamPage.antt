-- ===== src/TeamPage.antt =====
-- invoice_v2/team_balance_list.go, first part: `sortForTeamIDs` and `pageLimitOffset`, the page of the
-- counterparties of a team. How Postgres compares texts is the parameter `Collation`; rows that
-- compare equal keep the order of the table.
pub mod Bounds
pub mod Sorted
use Prim.Native.String.{String}
use invoice_service.Prelude.{
  ℕ, zero, suc, ◌+◌, ◌-◌, ◌*◌, ◌%◌, ◌&&◌, Bool, true, false, Option, none, some, List, [], ◌∷◌, map,
  ltb, ◌==◌, if◌then◌else◌,
}
use invoice_service.Prelude.Int.{ℤ, pos, negsuc, ◌-ℤ◌, neg, leb_ℤ}
use invoice_service.Prelude.Rows.{find_row, filter_rows, sum_where}
use invoice_service.Prelude.Groups.{keys_of}
use invoice_service.Models.Enums.{
  Time, Amount, BalanceType, payable, receivable, same_type, is_accepted,
}
use invoice_service.Models.Ledger.{TeamBalance, BalanceChangeLog}
use invoice_service.Models.Payment.{InvoicePayment}
use invoice_service.Models.Shop.{
  Team, TeamType, warehouse_team, selling_team, admin_team, root_team, other_team,
}
use invoice_service.Lists.{if_positive}
use invoice_service.Overview.{between, accepted_between}
use invoice_service.Store.{Db, sort_required, M, raise, query}

-- common.PageFilter, with signed integers.
pub record PageFilter : Type 0 where
  pub page : ℤ
  pub limit : ℤ

-- A result of arithmetic on w-bit integers, in two's complement, where `half` is 2 ^ (w - 1).
abbrev signed : ℕ → ℕ → ℤ
signed half u = if ltb u half then pos u else neg (pos (2 * half - u))

unfoldable pub wrap : ℕ → ℤ → ℤ
wrap half (pos n) = signed half (n % (2 * half))
wrap half (negsuc n) = signed half (2 * half - 1 - n % (2 * half))

abbrev pub times : ℤ → ℕ → ℤ
times (pos n) l = pos (n * l)
times (negsuc n) l = neg (pos (suc n * l))

-- if offset < 0 { offset = 0 }
abbrev pub not_negative : ℤ → ℕ
not_negative (pos n) = n
not_negative (negsuc n) = 0

abbrev pub limit_offset : ℕ → ℤ → ℤ → ℕ × ℕ
limit_offset half page (negsuc n) = (100, 0)
limit_offset half page (pos zero) = (100, 0)
limit_offset half page (pos (suc n)) =
    (suc n, not_negative (wrap half (times (wrap half (page -ℤ pos 1)) (suc n))))

unfoldable pub page_limit_offset : ℕ → Option PageFilter → ℕ × ℕ
unfolding wrap
page_limit_offset half none = (100, 0)
page_limit_offset half (some p) = limit_offset half p.page p.limit

module _ {A : Type 0} where
  -- OFFSET and LIMIT
  unfoldable pub drop_rows : ℕ → List A → List A
  drop_rows zero xs = xs
  drop_rows (suc n) [] = []
  drop_rows (suc n) (x ∷ xs) = drop_rows n xs

  unfoldable pub take_rows : ℕ → List A → List A
  take_rows zero xs = []
  take_rows (suc n) [] = []
  take_rows (suc n) (x ∷ xs) = x ∷ take_rows n xs

  -- What SQL's ORDER BY does, as an insertion sort.
  unfoldable pub insert_by : (A → A → Bool) → A → List A → List A
  insert_by before x [] = x ∷ []
  insert_by before x (y ∷ ys) =
      let rest = insert_by before x ys in if before x y then x ∷ y ∷ ys else y ∷ rest

  unfoldable pub order_by : (A → A → Bool) → List A → List A
  order_by before [] = []
  order_by before (x ∷ xs) = insert_by before x (order_by before xs)

abbrev pub page_of : {A : Type 0} → ℕ × ℕ → List A → List A
page_of (limit, offset) xs = take_rows limit (drop_rows offset xs)

-- Comparisons of texts and of team types, "not after".
pub record Collation : Type 0 where
  pub names : String → String → Bool
  pub types : TeamType → TeamType → Bool

-- common.TeamType
pub data ProtoTeamType : Type 0 where
  proto_unspecified proto_warehouse proto_selling proto_admin : ProtoTeamType

unfoldable pub db_team_type : ProtoTeamType → Option TeamType
db_team_type proto_warehouse = some warehouse_team
db_team_type proto_selling = some selling_team
db_team_type proto_admin = some admin_team
db_team_type proto_unspecified = none

unfoldable pub team_type_to_proto : TeamType → ProtoTeamType
team_type_to_proto warehouse_team = proto_warehouse
team_type_to_proto selling_team = proto_selling
team_type_to_proto admin_team = proto_admin
team_type_to_proto root_team = proto_admin
team_type_to_proto (other_team text) = proto_unspecified

abbrev pub same_team_type : TeamType → TeamType → Bool
same_team_type warehouse_team warehouse_team = true
same_team_type selling_team selling_team = true
same_team_type admin_team admin_team = true
same_team_type root_team root_team = true
same_team_type _ _ = false

pub record TeamBalanceListFilter : Type 0 where
  pub team_id : ℕ
  pub for_team_id : ℕ
  pub team_type : ProtoTeamType
  pub page : Option PageFilter

pub data TeamBalanceListSort : Type 0 where
  sort_team_name sort_team_type sort_payable sort_receivable sort_pending sort_incoming
        sort_total_payment sort_total_payable sort_total_receivable sort_nothing :
      TeamBalanceListSort

-- JOIN teams t ON t.id = x.for_team_id, by the primary key.
abbrev pub team_of : Db → ℕ → Option Team
team_of d i = find_row (λ t. t.id == i) d.shop.teams

abbrev has_type : TeamType → Option Team → Bool
has_type ty none = false
has_type ty (some t) = same_team_type t.type ty

abbrev pub type_fits : Option TeamType → Option Team → Bool
type_fits none t = true
type_fits (some ty) t = has_type ty t

abbrev is_there : Option Team → Bool
is_there none = false
is_there (some t) = true

-- x.team_id = ?, x.for_team_id = ? where it is asked for, and t.type = ? where one is.
abbrev pub in_scope_of : TeamBalanceListFilter → Db → ℕ → ℕ → Bool
in_scope_of f d team for_team =
    team == f.team_id
    && if_positive f.for_team_id for_team
    && type_fits (db_team_type f.team_type) (team_of d for_team)

-- "asc" and "desc" of a comparison.
abbrev pub directed : {A : Type 0} → Bool → (A → A → Bool) → A → A → Bool
directed true le x y = le y x
directed false le x y = le x y

abbrev le_name : Collation → Option Team → Option Team → Bool
le_name c (some s) (some t) = c.names s.name t.name
le_name c s none = true
le_name c none (some t) = false

abbrev le_type : Collation → Option Team → Option Team → Bool
le_type c (some s) (some t) = c.types s.type t.type
le_type c s none = true
le_type c none (some t) = false

module _ (f : TeamBalanceListFilter) (d : Db) where
  abbrev pub side_rows : BalanceType → List TeamBalance
  side_rows bt =
      filter_rows (λ r. same_type r.balance_type bt && in_scope_of f d r.team_id r.for_team_id)
        d.balances

  -- team_balances x of one side, ordered by a column.
  abbrev pub by_column : Bool → BalanceType → (TeamBalance → Amount) → List ℕ
  by_column desc bt col =
      map (λ r. r.for_team_id)
        (order_by (directed desc (λ r s. leb_ℤ (col r) (col s))) (side_rows bt))

  -- GROUP BY x.for_team_id ORDER BY SUM(…)
  abbrev pub by_sum : {A : Type 0} → Bool → (A → ℕ) → (A → Amount) → List A → List ℕ
  by_sum desc key val rows =
      let total = λ (k : ℕ). sum_where (λ r. key r == k) val rows in
      order_by (directed desc (λ j k. leb_ℤ (total j) (total k))) (keys_of (λ j k. j == k) key rows)

  abbrev pub window_logs : BalanceType → Time → Time → List BalanceChangeLog
  window_logs bt start end =
      filter_rows
        (λ l.
          same_type l.balance_type bt
          && between start end l.created_at
          && in_scope_of f d l.team_id l.for_team_id)
        d.logs

  abbrev pub window_payments : Time → Time → List InvoicePayment
  window_payments start end =
      filter_rows
        (λ p.
          is_accepted p.status
          && accepted_between start end p.accepted_at
          && in_scope_of f d p.team_id p.for_team_id)
        d.payments

  -- team_balances x joined with teams, one row for each counterparty, ordered by a column of teams.
  abbrev pub by_team : Bool → (Option Team → Option Team → Bool) → List ℕ
  by_team desc le = order_by (directed desc (λ j k. le (team_of d j) (team_of d k))) (
      keys_of (λ j k. j == k) (λ r. r.for_team_id)
        (filter_rows
          (λ r. in_scope_of f d r.team_id r.for_team_id && is_there (team_of d r.for_team_id))
          d.balances))

unfoldable pub sort_for_team_ids :
    Collation → ℕ → TeamBalanceListFilter → TeamBalanceListSort → Bool → Time → Time → M (List ℕ)
unfolding query page_limit_offset
sort_for_team_ids c half f sort desc start end = elim sort [
  | sort_team_name ↦ paged (λ d. by_team f d desc (le_name c))
  | sort_team_type ↦ paged (λ d. by_team f d desc (le_type c))
  | sort_payable ↦ paged (λ d. by_column f d desc payable (λ r. r.balance))
  | sort_receivable ↦ paged (λ d. by_column f d desc receivable (λ r. r.balance))
  | sort_pending ↦ paged (λ d. by_column f d desc payable (λ r. r.pending_payment_amount))
  | sort_incoming ↦ paged (λ d. by_column f d desc receivable (λ r. r.pending_payment_amount))
  | sort_total_payment ↦
      paged
        (λ d. by_sum f d desc (λ p. p.for_team_id) (λ p. p.amount) (window_payments f d start end))
  | sort_total_payable ↦ paged (λ d.
      by_sum f d desc (λ l. l.for_team_id) (λ l. l.change_amount)
        (window_logs f d payable start end))
  | sort_total_receivable ↦ paged (λ d.
      by_sum f d desc (λ l. l.for_team_id) (λ l. l.change_amount)
        (window_logs f d receivable start end))
  | sort_nothing ↦ raise sort_required
]
  where
    paged : (Db → List ℕ) → M (List ℕ)
    paged ids = query (λ d. page_of (page_limit_offset half f.page) (ids d))
