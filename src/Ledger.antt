-- ===== src/Ledger.antt =====
-- invoice_v2/create_balance_log.go: the double-entry ledger. `PostBalanceLog` validates a change and
-- posts two mirrored legs; a leg moves the running balance of its account, appends to the change log,
-- and accumulates the rollup of its Jakarta day.
pub mod Days
pub mod Accounts
pub mod Posting
pub mod Frame
pub mod Rollup
pub mod Leg
pub mod Totals
pub mod Dailies
pub mod History
pub mod DoubleEntry
pub mod Carry
pub mod Honesty
pub mod Requests
pub mod Book
use Prim.Native.String.{String}
use invoice_service.Prelude.{
  ℕ, suc, ◌+◌, ◌-◌, ◌*◌, ◌/◌, ◌||◌, Bool, true, false, Option, none, some, List, [], ◌∷◌, ◌++◌,
  ◌==◌, if◌then◌else◌,
}
use invoice_service.Prelude.Int.{ℤ, pos, ◌+ℤ◌, neg, leb_ℤ}
use invoice_service.Prelude.Rows.{find_row, update_rows}
use invoice_service.Models.Enums.{
  Time, Amount, BalanceType, type_unspecified, payable, receivable, BalanceChangeType,
  change_unspecified, OrderSystem,
}
use invoice_service.Models.Ledger.{
  BalanceChangeLog, BalanceChangeOrderSource, TeamBalance, TeamBalanceDailyLog, Account, on_account,
  on_day,
}
use invoice_service.Store.{
  Db, Error, unauthenticated, teams_required, teams_must_differ, amount_not_positive,
  change_type_required, bad_balance_type, Result, ok, err, M, pure, raise, guard, statement, query,
  execute, ◌>>=◌, ◌>>◌, transaction,
}

pub record OrderSource : Type 0 where
  pub order_system : OrderSystem
  pub order_id : ℕ
  pub team_id : ℕ
  pub warehouse_id : ℕ

unfoldable pub opposite_balance : BalanceType → Result BalanceType
opposite_balance receivable = ok payable
opposite_balance payable = ok receivable
opposite_balance type_unspecified = err bad_balance_type

-- A day, and the fixed offset UTC+7 of `jakartaZone`, in nanoseconds.
abbrev pub day_length : Time
day_length = 86_400_000_000_000

abbrev pub jakarta_offset : Time
jakarta_offset = 25_200_000_000_000

-- Jakarta's midnight at or before `t`, as an instant; `t` is not on the first day of the epoch.
unfoldable pub start_of_jakarta_day : Time → Time
start_of_jakarta_day t = (t + jakarta_offset) / day_length * day_length - jakarta_offset

abbrev pub has_id : ℕ → TeamBalance → Bool
has_id i r = r.id == i

abbrev pub new_balance : Account → ℕ → Time → TeamBalance
new_balance k i now = record {
  id = i;
  team_id = k.team;
  for_team_id = k.for_team;
  balance_type = k.kind;
  balance = pos 0;
  pending_payment_amount = pos 0;
  created_at = now;
  updated_at = now;
}

abbrev pub insert_balance : TeamBalance → Db → Db
insert_balance row d = record d {
  balances = d.balances ++ row ∷ [];
  balance_seq = suc d.balance_seq;
}

-- tx.Create(&bal) on team_balances, which hands the new row back with its id.
abbrev create_balance : Account → Time → M TeamBalance
create_balance k now =
    statement λ d. let row = new_balance k d.balance_seq now in (row, insert_balance row d)

abbrev pub or_create : Option TeamBalance → Account → Time → M TeamBalance
or_create none k now = create_balance k now
or_create (some bal) k now = pure bal

unfoldable pub lock_or_create_balance : Account → Time → M TeamBalance
unfolding query
lock_or_create_balance k now = do
  found ← query (λ d. find_row (on_account k) d.balances)
  or_create found k now

abbrev pub new_daily : Time → Account → Amount → Amount → Amount → Time → TeamBalanceDailyLog
new_daily day k prev new_bal delta now = record {
  day = day;
  team_id = k.team;
  for_team_id = k.for_team;
  balance_type = k.kind;
  start_balance = prev;
  end_balance = new_bal;
  change_amount = delta;
  created_at = now;
  updated_at = now;
}

abbrev pub insert_daily : TeamBalanceDailyLog → Db → Db
insert_daily row d = record d { dailies = d.dailies ++ row ∷ [] }

abbrev pub with_change : Amount → Amount → Time → TeamBalanceDailyLog → TeamBalanceDailyLog
with_change change new_bal now r = record r {
  change_amount = change;
  end_balance = new_bal;
  updated_at = now;
}

abbrev pub set_daily : Time → Account → Amount → Amount → Time → Db → Db
set_daily day k change new_bal now d = record d {
  dailies = update_rows (on_day day k) (with_change change new_bal now) d.dailies;
}

-- The change_amount that is written is computed from the row that was read.
abbrev pub put_daily :
    Option TeamBalanceDailyLog → Time → Account → Amount → Amount → Amount → Time → Db → Db
put_daily (some daily) day k prev new_bal delta now =
    set_daily day k (daily.change_amount +ℤ delta) new_bal now
put_daily none day k prev new_bal delta now = insert_daily (new_daily day k prev new_bal delta now)

unfoldable pub upsert_daily_log : Account → Amount → Amount → Amount → Time → M Unit
unfolding start_of_jakarta_day query execute
upsert_daily_log k prev new_bal delta now = do
  let day = start_of_jakarta_day now
  daily ← query (λ d. find_row (on_day day k) d.dailies)
  execute (put_daily daily day k prev new_bal delta now)

-- What a leg writes down beside its account and its delta.
pub record Entry : Type 0 where
  pub change_type : BalanceChangeType
  pub note : String
  pub created_by_id : ℕ
  pub now : Time
  pub src : Option OrderSource

abbrev pub new_log : ℕ → Account → Amount → Amount → Entry → BalanceChangeLog
new_log i k delta new_bal e = record {
  id = i;
  team_id = k.team;
  for_team_id = k.for_team;
  change_type = e.change_type;
  change_amount = delta;
  balance_type = k.kind;
  balance = new_bal;
  note = e.note;
  created_by_id = e.created_by_id;
  created_at = e.now;
}

abbrev pub insert_log : BalanceChangeLog → Db → Db
insert_log row d = record d { logs = d.logs ++ row ∷ []; log_seq = suc d.log_seq }

abbrev pub entry_of : BalanceChangeType → String → ℕ → Time → Option OrderSource → Entry
entry_of change_type note created_by now src = record {
  change_type = change_type;
  note = note;
  created_by_id = created_by;
  now = now;
  src = src;
}

-- tx.Create(&logEntry), which sets the id of the row.
abbrev create_log : Account → Amount → Amount → Entry → M ℕ
create_log k delta new_bal e =
    statement λ d. (d.log_seq, insert_log (new_log d.log_seq k delta new_bal e) d)

abbrev pub new_source : OrderSource → ℕ → Time → BalanceChangeOrderSource
new_source src log_id now = record {
  balance_change_log_id = log_id;
  order_system = src.order_system;
  order_id = src.order_id;
  team_id = src.team_id;
  warehouse_id = src.warehouse_id;
  created_at = now;
}

abbrev pub insert_source : BalanceChangeOrderSource → Db → Db
insert_source row d = record d { sources = d.sources ++ row ∷ [] }

abbrev attribute : Option OrderSource → ℕ → Time → M Unit
attribute none log_id now = pure tt
attribute (some src) log_id now = execute (insert_source (new_source src log_id now))

abbrev pub with_balance : Amount → Time → TeamBalance → TeamBalance
with_balance new_bal now r = record r { balance = new_bal; updated_at = now }

abbrev pub set_balance : ℕ → Amount → Time → Db → Db
set_balance i new_bal now d = record d {
  balances = update_rows (has_id i) (with_balance new_bal now) d.balances;
}

unfoldable pub post_entry : Account → Amount → Entry → M Unit
unfolding execute
post_entry k delta e = do
  bal ← lock_or_create_balance k e.now
  let new_bal = bal.balance +ℤ delta
  execute (set_balance bal.id new_bal e.now)
  log_id ← create_log k delta new_bal e
  attribute e.src log_id e.now
  upsert_daily_log k bal.balance new_bal delta e.now

abbrev pub with_pending : Amount → Time → TeamBalance → TeamBalance
with_pending new_pending now r = record r { pending_payment_amount = new_pending; updated_at = now }

abbrev pub set_pending : ℕ → Amount → Time → Db → Db
set_pending i new_pending now d = record d {
  balances = update_rows (has_id i) (with_pending new_pending now) d.balances;
}

unfoldable pub adjust_pending : Account → Amount → Time → M Unit
unfolding execute
adjust_pending k delta now = do
  bal ← lock_or_create_balance k now
  execute (set_pending bal.id (bal.pending_payment_amount +ℤ delta) now)

abbrev post_legs : Result BalanceType → ℕ → ℕ → BalanceType → Amount → Entry → M Unit
post_legs (err x) team for_team bt amount e = raise x
post_legs (ok counter) team for_team bt amount e = do
  post_entry (record { team = team; for_team = for_team; kind = bt }) amount e
  post_entry (record { team = for_team; for_team = team; kind = counter }) (neg amount) e

unfoldable pub post_double_entry : ℕ → ℕ → BalanceType → Amount → Entry → M Unit
unfolding opposite_balance
post_double_entry team for_team bt amount e =
    post_legs (opposite_balance bt) team for_team bt amount e

abbrev pub is_unspecified : BalanceChangeType → Bool
is_unspecified change_unspecified = true
is_unspecified _ = false

abbrev pub check_type : Result BalanceType → M Unit
check_type (ok _) = pure tt
check_type (err x) = raise x

-- The variadic `src ...*OrderSource` is the list; its first element counts.
abbrev pub first_source : List OrderSource → Option OrderSource
first_source [] = none
first_source (src ∷ _) = some src

unfoldable pub post_balance_log :
    ℕ → ℕ → BalanceChangeType → Amount → BalanceType → String → ℕ → Time → List OrderSource → M Unit
unfolding opposite_balance
post_balance_log team for_team change_type amount bt note created_by now src = do
  guard (team == 0 || for_team == 0) teams_required
  guard (team == for_team) teams_must_differ
  guard (leb_ℤ amount (pos 0)) amount_not_positive
  guard (is_unspecified change_type) change_type_required
  check_type (opposite_balance bt)
  post_double_entry team for_team bt amount
      (entry_of change_type note created_by now (first_source src))

pub record CreateBalanceLogRequest : Type 0 where
  pub team_id : ℕ
  pub for_team_id : ℕ
  pub change_type : BalanceChangeType
  pub change_amount : Amount
  pub balance_type : BalanceType
  pub note : String

-- The caller is what access_interceptors.GetIdentityFromCtx finds in the context.
abbrev pub identity : Option ℕ → M ℕ
identity none = raise unauthenticated
identity (some id) = pure id

unfoldable pub create_balance_log : Option ℕ → Time → CreateBalanceLogRequest → M Unit
create_balance_log caller now pay = do
  created_by ← identity caller
  transaction (
      post_balance_log pay.team_id pay.for_team_id pay.change_type pay.change_amount
        pay.balance_type pay.note created_by now [])
