-- ===== src/Ledger/Honesty.antt =====
-- Whichever statement fails, the operations of the ledger report it or do what they do without.
use Prim.Native.String.{String}
use invoice_service.Prelude.{ℕ, Option, none, some, List, [], ◌==◌, ◌||◌}
use invoice_service.Prelude.Int.{pos, ◌+ℤ◌, neg, leb_ℤ}
use invoice_service.Models.Enums.{Time, Amount, BalanceType, BalanceChangeType}
use invoice_service.Models.Ledger.{TeamBalance, Account}
use invoice_service.Store.{
  Result, ok, err, guard, teams_required, teams_must_differ, amount_not_positive,
  change_type_required,
}
use invoice_service.Store.Honest.{
  Honest, Honest-pure, Honest-raise, Honest-statement, Honest-query, Honest-execute, Honest-guard,
  Honest-bind, Honest-transaction,
}
use invoice_service.Ledger.{
  OrderSource, Entry, entry_of, first_source, is_unspecified, or_create, lock_or_create_balance,
  attribute, upsert_daily_log, post_entry, adjust_pending, opposite_balance, post_legs,
  post_double_entry, check_type, post_balance_log, CreateBalanceLogRequest, identity,
  create_balance_log,
}

or_create-Honest :
    (found : Option TeamBalance) (k : Account) (now : Time) → Honest (or_create found k now)
or_create-Honest none k now = Honest-statement _
or_create-Honest (some r) k now = Honest-pure r

pub lock_or_create_balance-Honest :
    (k : Account) (now : Time) → Honest (lock_or_create_balance k now)
unfolding lock_or_create_balance
lock_or_create_balance-Honest k now =
    Honest-bind _ _ (Honest-query _) λ found. or_create-Honest found k now

pub adjust_pending-Honest :
    (k : Account) (delta : Amount) (now : Time) → Honest (adjust_pending k delta now)
unfolding adjust_pending
adjust_pending-Honest k delta now =
    Honest-bind _ _ (lock_or_create_balance-Honest k now) λ bal. Honest-execute _

attribute-Honest : (src : Option OrderSource) (i : ℕ) (now : Time) → Honest (attribute src i now)
attribute-Honest none i now = Honest-pure tt
attribute-Honest (some src) i now = Honest-execute _

upsert_daily_log-Honest :
    (k : Account) (prev new_bal delta : Amount) (now : Time)
    → Honest (upsert_daily_log k prev new_bal delta now)
unfolding upsert_daily_log
upsert_daily_log-Honest k prev new_bal delta now =
    Honest-bind _ _ (Honest-query _) λ daily. Honest-execute _

pub post_entry-Honest : (k : Account) (delta : Amount) (e : Entry) → Honest (post_entry k delta e)
unfolding post_entry
post_entry-Honest k delta e = Honest-bind _ _ (lock_or_create_balance-Honest k e.now) λ bal.
    Honest-bind _ _ (Honest-execute _) λ _. Honest-bind _ _ (Honest-statement _) λ log_id.
      Honest-bind _ _ (attribute-Honest e.src log_id e.now)
        λ _. upsert_daily_log-Honest k bal.balance (bal.balance +ℤ delta) delta e.now

post_legs-Honest :
    (counter : Result BalanceType) (team for_team : ℕ) (bt : BalanceType) (amount : Amount)
    (e : Entry)
    → Honest (post_legs counter team for_team bt amount e)
post_legs-Honest (ok counter) team for_team bt amount e =
    Honest-bind _ _ (post_entry-Honest _ amount e) λ _. post_entry-Honest _ (neg amount) e
post_legs-Honest (err x) team for_team bt amount e = Honest-raise x

pub post_double_entry-Honest :
    (team for_team : ℕ) (bt : BalanceType) (amount : Amount) (e : Entry)
    → Honest (post_double_entry team for_team bt amount e)
unfolding post_double_entry
post_double_entry-Honest team for_team bt amount e =
    post_legs-Honest (opposite_balance bt) team for_team bt amount e

check_type-Honest : (r : Result BalanceType) → Honest (check_type r)
check_type-Honest (ok _) = Honest-pure tt
check_type-Honest (err x) = Honest-raise x

pub post_balance_log-Honest :
    (team for_team : ℕ) (change_type : BalanceChangeType) (amount : Amount) (bt : BalanceType)
    (note : String) (created_by : ℕ) (now : Time) (src : List OrderSource)
    → Honest (post_balance_log team for_team change_type amount bt note created_by now src)
unfolding post_balance_log
post_balance_log-Honest team for_team change_type amount bt note created_by now src =
    Honest-bind (guard (team == 0 || for_team == 0) teams_required) _ (Honest-guard _ _) λ _.
      Honest-bind (guard (team == for_team) teams_must_differ) _ (Honest-guard _ _) λ _.
        Honest-bind (guard (leb_ℤ amount (pos 0)) amount_not_positive) _ (Honest-guard _ _) λ _.
          Honest-bind (guard (is_unspecified change_type) change_type_required) _ (Honest-guard _ _)
            λ _. Honest-bind _ _ (check_type-Honest (opposite_balance bt)) λ _.
              post_double_entry-Honest team for_team bt amount
                (entry_of change_type note created_by now (first_source src))

pub identity-Honest : (caller : Option ℕ) → Honest (identity caller)
identity-Honest none = Honest-raise _
identity-Honest (some id) = Honest-pure id

pub create_balance_log-Honest :
    (caller : Option ℕ) (now : Time) (pay : CreateBalanceLogRequest)
    → Honest (create_balance_log caller now pay)
unfolding create_balance_log
create_balance_log-Honest caller now pay = Honest-bind _ _ (identity-Honest caller) λ created_by.
    Honest-transaction _ (
      post_balance_log-Honest pay.team_id pay.for_team_id pay.change_type pay.change_amount
        pay.balance_type pay.note created_by now [])
