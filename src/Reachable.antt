-- ===== src/Reachable.antt =====
-- The service as a whole: every sequence of requests and events, each with statements that may fail.
use invoice_service.Prelude.{ℕ, sym, inl, inr, Option}
use mathlib.Core.Path.{subst}
use invoice_service.Models.Enums.{Time}
use invoice_service.Store.{Db, Session}
use invoice_service.Store.Outcome.{Ends}
use invoice_service.Ledger.{CreateBalanceLogRequest, create_balance_log}
use invoice_service.Ledger.Requests.{Logged, create_balance_log_all_or_nothing}
use invoice_service.Payments.{
  CreatePaymentRequest, CompletePaymentRequest, create_payment, accept_payment, reject_payment,
}
use invoice_service.Payments.Sound.{IsSound}
use invoice_service.Payments.Creating.{Created, create_payment_all_or_nothing}
use invoice_service.Payments.Accepting.{Accepted, accept_payment_all_or_nothing}
use invoice_service.Payments.Rejecting.{Declined, reject_payment_all_or_nothing}
use invoice_service.Push.Handler.{Wire, PushRequest, handle_push}
use invoice_service.Push.Nets.{Posts-IsSound}
use invoice_service.Push.Once.{Handled, handle_push_all_or_nothing}

-- One call at the tables `before`, with the fuse that the environment chooses.
pub data Step : Db → Db → Type 0 where
  log_step :
      (caller : Option ℕ) (now : Time) (pay : CreateBalanceLogRequest) (s : Session)
      → Step s.db (create_balance_log caller now pay s).1.db
  create_step :
      (caller : Option ℕ) (now : Time) (pay : CreatePaymentRequest) (s : Session)
      → Step s.db (create_payment caller now pay s).1.db
  accept_step :
      (caller : Option ℕ) (now : Time) (pay : CompletePaymentRequest) (s : Session)
      → Step s.db (accept_payment caller now pay s).1.db
  reject_step :
      (caller : Option ℕ) (now : Time) (pay : CompletePaymentRequest) (s : Session)
      → Step s.db (reject_payment caller now pay s).1.db
  push_step :
      (wire : Wire) (now : Time) (msg : PushRequest) (s : Session)
      → Step s.db (handle_push wire now msg s).1.db

pub data Reachable (start : Db) : Db → Type 0 where
  begin : Reachable start start
  then_step : {d d' : Db} → Reachable start d → Step d d' → Reachable start d'

Ends-IsSound :
    {A : Type 0} (Done : A → Db → Type 0) (before : Db) (r : _) (s : Session)
    → IsSound before
    → ((a : A) → Done a s.db → IsSound s.db)
    → Ends Done before (r, s)
    → IsSound s.db
Ends-IsSound Done before r s sound h (inl (e, failed, same)) = subst IsSound (sym same) sound
Ends-IsSound Done before r s sound h (inr (a, done, post)) = h a post

Step-IsSound : {d d' : Db} → Step d d' → IsSound d → IsSound d'
Step-IsSound (log_step caller now pay s) sound =
    Ends-IsSound (λ _. Logged caller pay s.db) s.db (create_balance_log caller now pay s).0
      (create_balance_log caller now pay s).1 sound (λ _ done. Posts-IsSound sound done.posts)
      (create_balance_log_all_or_nothing now pay caller s sound.ledger)
Step-IsSound (create_step caller now pay s) sound =
    Ends-IsSound (Created caller now pay s.db) s.db (create_payment caller now pay s).0
      (create_payment caller now pay s).1 sound (λ _ done. done.sound)
      (create_payment_all_or_nothing caller now pay s sound)
Step-IsSound (accept_step caller now pay s) sound =
    Ends-IsSound (λ _. Accepted caller now pay s.db) s.db (accept_payment caller now pay s).0
      (accept_payment caller now pay s).1 sound (λ _ done. done.sound)
      (accept_payment_all_or_nothing caller now pay s sound)
Step-IsSound (reject_step caller now pay s) sound =
    Ends-IsSound (λ _. Declined caller now pay s.db) s.db (reject_payment caller now pay s).0
      (reject_payment caller now pay s).1 sound (λ _ done. done.sound)
      (reject_payment_all_or_nothing caller now pay s sound)
Step-IsSound (push_step wire now msg s) sound =
    Ends-IsSound (λ _. Handled msg s.db) s.db (handle_push wire now msg s).0
      (handle_push wire now msg s).1 sound (λ _ done. done.sound)
      (handle_push_all_or_nothing wire now msg s sound)

-- Whatever requests and events come, in whatever order and whichever statements fail, the invariant
-- of the ledger and the payments holds in every table state that they reach from one where it holds.
pub Reachable-IsSound : {start d : Db} → Reachable start d → IsSound start → IsSound d
Reachable-IsSound begin sound = sound
Reachable-IsSound (then_step before step) sound = Step-IsSound step (Reachable-IsSound before sound)
