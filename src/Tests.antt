-- ===== src/Tests.antt =====
-- Concrete tables for the theorems: an empty database with an order, and one with an open payment.
mod Examples
mod Reads
mod Histories
mod Pages
mod Invoices
mod Submitting
use Prim.Native.String.{String}
use mathlib.Core.Path.{subst}
use invoice_service.Prelude.{
  ℕ, ◌≡◌, ◌≢◌, refl, sym, ap, Bool, true, false, Option, none, some, List, [], ◌∷◌, arith, ◌<◌,
}
use invoice_service.Prelude.Int.{pos, negsuc, ◌+ℤ◌}
use invoice_service.Prelude.Rows.Ids.{WellNumbered}
use invoice_service.Prelude.Rows.{find_row, update_rows, sum_where}
use invoice_service.Models.Enums.{payable, receivable, adjustment}
use invoice_service.Models.Shop.{
  Shop, Invoice, not_paid, paid, ship_fee_type, selling_team, warehouse_team,
}
use invoice_service.Store.{Db, Session, Result, ok, calm, query, execute, statement, transaction}
use invoice_service.Ledger.{
  CreateBalanceLogRequest, Entry, adjust_pending, lock_or_create_balance, opposite_balance,
}
use invoice_service.Ledger.Carry.{IsLedger-carry}
use invoice_service.Ledger.DoubleEntry.{IsLedger, both_posted, both_posted-IsLedger}
use invoice_service.Payments.{
  CreatePaymentRequest, CompletePaymentRequest, create_payment, new_payment, adjust_both,
}
use invoice_service.Payments.Sound.{IsSound}
use invoice_service.Payments.Loading.{IsOpen}
use invoice_service.Payments.Creating.{Created, create_payment_succeeds}

-- Team 1 sells a product of team 2 from warehouse 3.
abbrev pub shop : Shop
shop = record {
  teams =
      record { id = 2; name = "north"; type = selling_team }
      ∷ record { id = 3; name = "store"; type = warehouse_team }
      ∷ [];
  orders =
      record {
        id = 70;
        team_id = 1;
        order_ref_id = "A-70";
        created_by_id = 5;
        warehouse_fee = pos 2_000;
        invertory_tx_id = some 80;
      }
      ∷ [];
  order_items =
      record {
        order_id = 70;
        product_id = 90;
        owned = some false;
        count = 2;
        total = pos 40_000;
        product_name = "cup";
      }
      ∷ [];
  products = record { id = 90; team_id = 2; name = "cup" } ∷ [];
  inv_transactions = record { id = 80; team_id = 1; warehouse_id = 3 } ∷ [];
  restock_costs = [];
  inv_item_problems = [];
  inv_tx_items = [];
  skus = [];
  invoices = [];
  invoice_seq = 3;
  payment_submissions = [];
  submission_seq = 0;
  submission_logs = [];
  payment_histories = [];
  history_seq = 0;
  invoice_payment_submissions = [];
}

abbrev pub fresh : Db
fresh = record {
  balances = [];
  balance_seq = 0;
  logs = [];
  log_seq = 0;
  sources = [];
  dailies = [];
  payments = [];
  payment_seq = 0;
  inbox = [];
  configs = [];
  config_seq = 0;
  shop = shop;
}

pub fresh-IsSound : IsSound fresh
unfolding find_row sum_where ◌+ℤ◌
fresh-IsSound = record {
  ledger = record {
    numbered = tt;
    mirrored = λ a b. refl;
    replayed = λ k. refl;
    rolled_up = λ t k. refl;
    totalled = λ p. refl;
    daily = record { once = tt; rolled_up = λ p. refl };
  };
  tracked = λ a b. (refl, refl);
  payments_numbered = tt;
}

-- Team 1 pays team 2; user 9 has created the payment and user 8 completes it.
abbrev pub request : CreatePaymentRequest
request = record {
  team_id = 1;
  for_team_id = 2;
  amount = pos 5_000;
  note = "cash";
  document_id = "d1";
}

abbrev pub completion : CompletePaymentRequest
completion = record { payment_id = 0; team_id = 1; for_team_id = 2 }

pub teams_differ : request.team_id ≢ request.for_team_id
teams_differ e = omega arith

abbrev pub waiting : Db
waiting = (create_payment (some 9) 100 request (calm fresh)).1.db

pub waiting-IsSound : IsSound waiting
waiting-IsSound =
    let (id, d', ran, done) =
      create_payment_succeeds 9 100 request fresh fresh-IsSound teams_differ in
    subst IsSound (sym (ap (λ (r : Result ℕ × Session). r.1.db) ran)) done.sound

pub waiting-IsOpen : IsOpen 0 1 2 waiting (new_payment request 0 9 100)
unfolding create_payment adjust_both adjust_pending query execute statement transaction find_row
    update_rows lock_or_create_balance
waiting-IsOpen = record { found = refl; from_team = refl; to_team = refl; is_open = refl }

abbrev pub entry : CreateBalanceLogRequest
entry = record {
  team_id = 2;
  for_team_id = 1;
  change_type = adjustment;
  change_amount = pos 7_000;
  balance_type = receivable;
  note = "opening";
}

-- The third statement of the next call fails.
abbrev pub failing : Db → Session
failing d = record { db = d; fuse = some 2 }

-- An entry of one day in 1970, and the tables after it.
abbrev pub trade : Entry
trade = record {
  change_type = adjustment;
  note = "opening";
  created_by_id = 9;
  now = 200_000_000_000_000;
  src = none;
}

abbrev pub traded : Db
traded = both_posted 1 2 payable receivable (negsuc 6_999) trade fresh

pub traded-IsLedger : IsLedger traded
unfolding opposite_balance
traded-IsLedger =
    both_posted-IsLedger 1 2 payable receivable (negsuc 6_999) trade fresh refl fresh-IsSound.ledger

abbrev pub unpaid_invoice : Invoice
unpaid_invoice = record {
  id = 1;
  tx_id = some 80;
  order_id = some 70;
  from_team_id = 1;
  to_team_id = 2;
  status = not_paid;
  amount = pos 9_000;
  type = ship_fee_type;
  created = 100;
  need_adj = true;
  has_submission = false;
  hist_id = none;
  paid_at = none;
  accepted_at = none;
}

abbrev pub paid_invoice : Invoice
paid_invoice = record unpaid_invoice { id = 2; status = paid; amount = pos 1_000 }

-- The same with an unpaid invoice and a paid one.
abbrev pub owing : Db
owing = record traded { shop = record shop { invoices = unpaid_invoice ∷ paid_invoice ∷ [] } }

pub owing-IsLedger : IsLedger owing
owing-IsLedger =
    IsLedger-carry traded owing traded-IsLedger traded-IsLedger.numbered (λ j. refl) (λ p. refl)
      (record { logs = refl; log_seq = refl; sources = refl; dailies = refl })

pub owing-WellNumbered : WellNumbered (λ (i : Invoice). i.id) 3 owing.shop.invoices
owing-WellNumbered = (omega arith, (λ e. omega arith, tt), (omega arith, tt, tt))
