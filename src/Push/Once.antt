-- ===== src/Push/Once.antt =====
-- The handler of pushed events: all or nothing, and exactly once.
use invoice_service.Prelude.{
  ℕ, zero, suc, List, map, ◌==◌, ◌≡◌, ◌≢◌, ◌∙◌, refl, inl, inr, Bool, true, false, ◌⊎◌, Option,
  none, some, [], ◌∷◌, ◌++◌, if◌then◌else◌, Option-cases,
}
use invoice_service.Prelude.Rows.{find_row, filter_rows, find_row-snoc_none}
use invoice_service.Prelude.Text.{same_text, same_text_refl}
use invoice_service.Models.Enums.{
  Time, Amount, payable, receivable, cod_fee, payment, stock_problem as problem_change,
}
use invoice_service.Models.Ledger.{Account}
use invoice_service.Models.Payment.{InvoiceExactlyOnceLog}
use invoice_service.Models.Shop.{PaymentSubmission}
use invoice_service.Store.{
  Db, Session, malformed_event, M, ok, err, calm, statement, query, ◌>>=◌, transaction,
}
use invoice_service.Store.Honest.{transaction_rolls_back}
use invoice_service.Store.Outcome.{
  Ends, RollsBack, Ends-everywhere, transaction-calm_ok, transaction-calm_err,
}
use invoice_service.Ledger.Carry.{IsLedger-carry}
use invoice_service.Payments.Sound.{IsSound}
use invoice_service.Push.{
  ProblemStock, CodFee, column, for_each, problem_row, is_problem, no_cod_fee, cod_fee_row,
  transaction_of, no_submission, submission_row, PaymentAcceptInfo, post_problem_item, post_cod_fee,
  post_submission, post_order_balances, post_problem_stock_balance, post_cod_fee_balance,
  post_payment_accept_balance,
}
use invoice_service.Push.Handler.{
  SellingEvent, order_created, order_canceled, payment_accept, other_selling, StockEvent,
  restock_accepted, stock_problem, other_stock, Wire, PushRequest, post_selling, post_stock,
  dispatch, handle_fresh, handle_push, is_message, inbox_row, insert_seen,
}
use invoice_service.Push.Nets.{Runs, Runs-for_each, Runs-unless_degenerate, fine_row}
use invoice_service.Push.Orders.{post_order_balances-Runs}
use invoice_service.Push.Honesty.{handle_push-Honest}

-- Some change of the balances is what `m` nets.
abbrev RunsSomehow : M (Unit {0}) → Db → Type 0
RunsSomehow m d = (d' : Db) × (m (calm d) ≡ (ok tt, calm d')) × IsSound d' × (d'.inbox ≡ d.inbox)

somehow : (m : M (Unit {0})) (f : Account → Amount) (d : Db) → Runs m f d → RunsSomehow m d
somehow m f d (d', ran, nets) = (d', ran, nets.sound, nets.inbox)

problem-Runs :
    (tx : ℕ) (now : Time) (items : List ProblemStock) (d : Db)
    → IsSound d
    → RunsSomehow (for_each (post_problem_item tx now) items) d
problem-Runs tx now items d sound = somehow (for_each (post_problem_item tx now) items) _ d (
    Runs-for_each (post_problem_item tx now) _
      (λ item d' sound'.
        Runs-unless_degenerate _ _ _ _ _ _ _ _ _ _ d'
          (λ fine.
            (fine_row item.team_id item.for_team_id problem_change item.amount receivable (λ e. cc)
              (λ e. cc) fine).1)
          sound')
      items d sound)

cod_fee-Runs :
    (tx : ℕ) (now : Time) (info : CodFee) (d : Db)
    → IsSound d
    → RunsSomehow (post_cod_fee tx now info) d
cod_fee-Runs tx now info d sound = somehow (post_cod_fee tx now info) _ d (
    Runs-unless_degenerate _ _ _ _ _ _ _ _ _ _ d
      (λ fine.
        (fine_row info.team_id info.for_team_id cod_fee info.cod_fee receivable (λ e. cc) (λ e. cc)
          fine).1)
      sound)

submission-Runs :
    (i : ℕ) (now : Time) (info : PaymentAcceptInfo) (d : Db)
    → IsSound d
    → RunsSomehow (post_submission i now info) d
submission-Runs i now info d sound = somehow (post_submission i now info) _ d (
    Runs-unless_degenerate _ _ _ _ _ _ _ _ _ _ d
      (λ fine.
        (fine_row info.team_id info.for_team_id payment info.amount payable (λ e. cc) (λ e. cc)
          fine).0)
      sound)

problem_stock-Runs :
    (tx : ℕ) (now : Time) (d : Db) → IsSound d → RunsSomehow (post_problem_stock_balance tx now) d
unfolding post_problem_stock_balance query
problem_stock-Runs tx now d sound =
    problem-Runs tx now
      (map (problem_row d.shop) (filter_rows (is_problem tx) d.shop.inv_item_problems)) d sound

cod_fee_balance-Runs :
    (tx : ℕ) (now : Time) (d : Db) → IsSound d → RunsSomehow (post_cod_fee_balance tx now) d
unfolding post_cod_fee_balance query
cod_fee_balance-Runs tx now d sound =
    cod_fee-Runs tx now (column no_cod_fee (cod_fee_row d.shop) (transaction_of d.shop tx)) d sound

payment_accept-Runs :
    (i : ℕ) (now : Time) (d : Db) → IsSound d → RunsSomehow (post_payment_accept_balance i now) d
unfolding post_payment_accept_balance query
payment_accept-Runs i now d sound =
    submission-Runs i now
      (column no_submission (submission_row d.shop)
        (find_row (λ (ps : PaymentSubmission). ps.id == i) d.shop.payment_submissions))
      d sound

-- An event is posted, or its message does not decode.
abbrev Dispatches : M (Unit {0}) → Db → Type 0
Dispatches m d = RunsSomehow m d ⊎ (m (calm d) ≡ (err malformed_event, calm d))

selling-Dispatches :
    (now : Time) (event : Option SellingEvent) (d : Db)
    → IsSound d
    → Dispatches (post_selling now event) d
selling-Dispatches now none d sound = inr refl
selling-Dispatches now (some (order_created order at)) d sound = inl (
    somehow (post_order_balances order false at) _ d
      (post_order_balances-Runs order at false d sound))
selling-Dispatches now (some (order_canceled order at)) d sound = inl (
    somehow (post_order_balances order true at) _ d
      (post_order_balances-Runs order at true d sound))
selling-Dispatches now (some (payment_accept i)) d sound = inl (payment_accept-Runs i now d sound)
selling-Dispatches now (some other_selling) d sound = inl (d, refl, sound, refl)

stock-Dispatches :
    (now : Time) (event : Option StockEvent) (d : Db)
    → IsSound d
    → Dispatches (post_stock now event) d
stock-Dispatches now none d sound = inr refl
stock-Dispatches now (some (restock_accepted tx)) d sound =
    inl (cod_fee_balance-Runs tx now d sound)
stock-Dispatches now (some (stock_problem tx)) d sound = inl (problem_stock-Runs tx now d sound)
stock-Dispatches now (some other_stock) d sound = inl (d, refl, sound, refl)

Dispatches-if :
    (b : Bool) (m n : M (Unit {0})) (d : Db)
    → Dispatches m d
    → Dispatches n d
    → Dispatches (λ s. (if b then m else n) s) d
Dispatches-if true m n d hm hn = hm
Dispatches-if false m n d hm hn = hn

-- What the handler has done when it returns no error: the message is in the inbox, a message that
-- was there before has changed nothing, and the invariant holds.
pub record Handled (msg : PushRequest) (before after : Db) : Type 0 where
  pub sound : IsSound after
  pub seen : find_row (is_message msg) after.inbox ≢ none
  pub once : find_row (is_message msg) before.inbox ≢ none → after ≡ before

module _ (wire : Wire) (now : Time) (msg : PushRequest) where
  abbrev work : M (Unit {0})
  work = statement (insert_seen msg now) >>= λ fresh. handle_fresh wire now msg fresh

  unchanged :
      (row : InvoiceExactlyOnceLog) (d : Db) (fuse : Option ℕ)
      → find_row (is_message msg) d.inbox ≡ some row
      → (handle_push wire now msg (record { db = d; fuse = fuse })).1.db ≡ d
  unfolding handle_push transaction statement
  unchanged row d none there = rw there refl
  unchanged row d (some zero) there = refl
  unchanged row d (some (suc zero)) there = refl
  unchanged row d (some (suc (suc zero))) there = rw there refl
  unchanged row d (some (suc (suc (suc n)))) there = rw there refl

  -- A message that the inbox holds changes no table, whichever statement fails.
  pub redelivery_changes_nothing :
      (s : Session)
      → find_row (is_message msg) s.db.inbox ≢ none
      → (handle_push wire now msg s).1.db ≡ s.db
  redelivery_changes_nothing s seen = elim (Option-cases (find_row (is_message msg) s.db.inbox)) [
    | inl absent ↦ elim (seen absent) [ ]
    | inr (row, there) ↦ unchanged row s.db s.fuse there
  ]

  handle_push-RollsBack : RollsBack (handle_push wire now msg)
  unfolding handle_push
  handle_push-RollsBack s e h = transaction_rolls_back _ s e h

  module _ (d : Db) (sound : IsSound d) (absent : find_row (is_message msg) d.inbox ≡ none) where
    abbrev d1 : Db
    d1 = record d { inbox = d.inbox ++ inbox_row msg now ∷ [] }

    d1-IsSound : IsSound d1
    d1-IsSound = record {
      ledger =
          IsLedger-carry d d1 sound.ledger sound.ledger.numbered (λ j. refl) (λ q. refl)
            (record { logs = refl; log_seq = refl; sources = refl; dailies = refl });
      tracked = sound.tracked;
      payments_numbered = sound.payments_numbered;
    }

    d1-seen : find_row (is_message msg) d1.inbox ≡ some (inbox_row msg now)
    d1-seen =
        find_row-snoc_none (is_message msg) d.inbox (inbox_row msg now) absent
        ∙ rw (same_text_refl msg.message_id, same_text_refl msg.subscription) refl

    dispatched : Dispatches (dispatch wire now msg) d1
    dispatched =
        Dispatches-if (same_text msg.subscription wire.selling_path) _ _ d1
          (selling-Dispatches now (wire.selling_event msg.payload) d1 d1-IsSound)
          (Dispatches-if (same_text msg.subscription wire.stock_path) _ _ d1
            (stock-Dispatches now (wire.stock_event msg.payload) d1 d1-IsSound)
            (inl (d1, refl, d1-IsSound, refl)))

    work-eq : work (calm d) ≡ dispatch wire now msg (calm d1)
    unfolding statement
    work-eq = rw absent refl

    fresh_message : Ends (λ _. Handled msg d) d (handle_push wire now msg (calm d))
    unfolding handle_push
    fresh_message = elim dispatched [
      | inl (d', ran, sound', same_inbox) ↦ rw (transaction-calm_ok work d tt d' (work-eq ∙ ran)) (
          inr (
            tt,
            refl,
            record {
              sound = sound';
              seen = λ e. cc (e, same_inbox, d1-seen);
              once = λ there. elim (there absent) [ ];
            },
          ))
      | inr bad ↦
          rw (transaction-calm_err work d malformed_event (calm d1) (work-eq ∙ bad))
            (inl (malformed_event, refl, refl))
    ]

  known_message :
      (d : Db) (row : _)
      → IsSound d
      → find_row (is_message msg) d.inbox ≡ some row
      → Ends (λ _. Handled msg d) d (handle_push wire now msg (calm d))
  unfolding handle_push statement
  known_message d row sound there =
      rw (transaction-calm_ok work d tt d (rw there refl))
        (inr (tt, refl, record { sound = sound; seen = λ e. cc (e, there); once = λ _. refl }))

  -- Let the tables at the start keep the invariant of the ledger and the payments.
  -- Whichever statement fails, the handler either returns an error and leaves every table as it was,
  -- or the message is in the inbox, a message that was there before has changed no table, and the
  -- invariant of the ledger and the payments holds.
  pub handle_push_all_or_nothing :
      (s : Session) → IsSound s.db → Ends (λ _. Handled msg s.db) s.db (handle_push wire now msg s)
  handle_push_all_or_nothing s sound =
      Ends-everywhere _ (handle_push-Honest wire now msg) handle_push-RollsBack
        (λ _. Handled msg s.db) s
        (elim (Option-cases (find_row (is_message msg) s.db.inbox)) [
          | inl absent ↦ fresh_message s.db sound absent
          | inr (row, there) ↦ known_message s.db row sound there
        ])
