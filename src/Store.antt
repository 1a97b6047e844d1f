-- ===== src/Store.antt =====
-- The database and what a handler does with it. A statement is one call of gorm on the tables; it
-- may fail, and the environment chooses which statement does: `fuse` is the number of statements
-- that still succeed, or `none` where all do. An error is a value, as in Go, and
-- `transaction` is gorm's `Transaction`: it begins, runs the function, and commits if that returned
-- no error; otherwise, or where the commit fails, the tables are what they were. The row locks of
-- SELECT … FOR UPDATE make one transaction run at a time on the rows that it names, so transactions
-- are steps. A sequence that a transaction has advanced goes back with it: ids differ from those of
-- Postgres by the gaps that an aborted transaction leaves.
pub mod Honest
pub mod Outcome
use invoice_service.Prelude.{ℕ, zero, suc, Option, none, some, List, Bool, if◌then◌else◌}
use invoice_service.Models.Ledger.{
  TeamBalance, BalanceChangeLog, BalanceChangeOrderSource, TeamBalanceDailyLog,
}
use invoice_service.Models.Enums.{PaymentStatus}
use invoice_service.Models.Payment.{InvoicePayment, InvoiceExactlyOnceLog}
use invoice_service.Models.OweLimit.{OweLimitConfiguration}
use invoice_service.Models.Shop.{Shop}

pub record Db : Type 0 where
  pub balances : List TeamBalance
  pub balance_seq : ℕ
  pub logs : List BalanceChangeLog
  pub log_seq : ℕ
  pub sources : List BalanceChangeOrderSource
  pub dailies : List TeamBalanceDailyLog
  pub payments : List InvoicePayment
  pub payment_seq : ℕ
  pub inbox : List InvoiceExactlyOnceLog
  pub configs : List OweLimitConfiguration
  pub config_seq : ℕ
  pub shop : Shop

-- The errors by their causes, one for each message of the source.
pub data Error : Type 0 where
  unauthenticated : Error
  teams_required teams_must_differ amount_not_positive change_type_required bad_balance_type : Error
  payment_not_found payment_mismatch : Error
  payment_already : PaymentStatus → Error
  page_required time_range_required invalid_type : Error
  team_id_required data_types_required granularity_required invalid_data_type : Error
  filter_required sort_required : Error
  order_or_tx_required from_team_mismatch to_team_mismatch : Error
  invoice_not_final invoice_have_paid : ℕ → Error
  invalid_payment_amount no_unpaid_invoices submission_missing submission_completed
        submission_not_found :
      Error
  malformed_event : Error
  database : Error

-- The codes of connect-go; an error that no handler wraps has code Unknown.
pub data Code : Type 0 where
  invalid_argument not_found failed_precondition code_unauthenticated unknown : Code

abbrev pub code : Error → Code
code unauthenticated = code_unauthenticated
code payment_not_found = not_found
code (payment_already _) = failed_precondition
code malformed_event = unknown
code database = unknown
code _ = invalid_argument

pub data Result (A : Type 0) : Type 0 where
  ok : A → Result A
  err : Error → Result A

pub record Session : Type 0 where
  pub db : Db
  pub fuse : Option ℕ

abbrev pub M : Type 0 → Type 0
M A = Session → Result A × Session

-- A session in which no statement fails.
abbrev pub calm : Db → Session
calm d = record { db = d; fuse = none }

module _ {A : Type 0} where
  abbrev pub pure : A → M A
  pure a s = (ok a, s)

  abbrev pub raise : Error → M A
  raise e s = (err e, s)

  abbrev burn : Option ℕ → (Db → A × Db) → M A
  burn none f s = (ok (f s.db).0, record s { db = (f s.db).1 })
  burn (some zero) f s = (err database, s)
  burn (some (suc n)) f s = (ok (f s.db).0, record { db = (f s.db).1; fuse = some n })

  unfoldable pub statement : (Db → A × Db) → M A
  statement f s = burn s.fuse f s

-- if err != nil { return err }
abbrev pub continue : {A B : Type 0} → Result A → (A → M B) → M B
continue (ok a) f s = f a s
continue (err e) f s = (err e, s)

infixl 5 ◌>>=◌ ◌>>◌
abbrev pub ◌>>=◌ : {A B : Type 0} → M A → (A → M B) → M B
◌>>=◌ m f s = let (r, s') = m s in continue r f s'

abbrev pub ◌>>◌ : {B : Type 0} → M (Unit {0}) → M B → M B
m >> k = m >>= λ _. k

abbrev pub guard : Bool → Error → M Unit
guard bad e s = (if bad then err e else ok tt, s)

module _ {A : Type 0} where
  unfoldable pub query : (Db → A) → M A
  unfolding statement
  query f = statement (λ d. (f d, d))

unfoldable pub execute : (Db → Db) → M Unit
unfolding statement
execute f = statement (λ d. (tt, f d))

module _ {A : Type 0} where
  abbrev rollback : Db → Result A × Session → Result A × Session
  rollback before (ok a, s) = (ok a, s)
  rollback before (err e, s) = (err e, record s { db = before })

  unfoldable pub transaction : M A → M A
  unfolding execute
  transaction m s = rollback s.db ((execute (λ d. d) >> (m >>= λ a. execute (λ d. d) >> pure a)) s)
