-- ===== src/Ledger/Frame.antt =====
-- The tables that a leg of an entry and a change of a pending amount leave alone.
use invoice_service.Prelude.{ℕ, ◌≡◌, refl, ◌∙◌, Option, none, some}
use invoice_service.Prelude.Rows.{find_row}
use invoice_service.Prelude.Int.{pos}
use invoice_service.Models.Enums.{Time, Amount}
use invoice_service.Models.Ledger.{TeamBalance, TeamBalanceDailyLog, Account, on_account}
use invoice_service.Store.{Db}
use invoice_service.Ledger.{OrderSource, put_daily}
use invoice_service.Ledger.Accounts.{ensured, ensured_row}
use invoice_service.Ledger.Posting.{moved, pended, attributed}

-- The tables that no statement of the ledger writes.
pub record Aside (before after : Db) : Type 0 where
  pub payments : after.payments ≡ before.payments
  pub payment_seq : after.payment_seq ≡ before.payment_seq
  pub inbox : after.inbox ≡ before.inbox
  pub configs : after.configs ≡ before.configs
  pub config_seq : after.config_seq ≡ before.config_seq
  pub shop : after.shop ≡ before.shop

pub Aside-refl : (d : Db) → Aside d d
Aside-refl d = record {
  payments = refl;
  payment_seq = refl;
  inbox = refl;
  configs = refl;
  config_seq = refl;
  shop = refl;
}

pub Aside-trans : {a b c : Db} → Aside a b → Aside b c → Aside a c
Aside-trans p q = record {
  payments = q.payments ∙ p.payments;
  payment_seq = q.payment_seq ∙ p.payment_seq;
  inbox = q.inbox ∙ p.inbox;
  configs = q.configs ∙ p.configs;
  config_seq = q.config_seq ∙ p.config_seq;
  shop = q.shop ∙ p.shop;
}

-- The change log, its order attribution and the rollup.
pub record SameHistory (before after : Db) : Type 0 where
  pub logs : after.logs ≡ before.logs
  pub log_seq : after.log_seq ≡ before.log_seq
  pub sources : after.sources ≡ before.sources
  pub dailies : after.dailies ≡ before.dailies

module _ (k : Account) (delta : Amount) (now : Time) (d : Db) where
  ensured-Aside : (found : Option TeamBalance) → Aside d (ensured found k now d)
  ensured-Aside none = record {
    payments = refl;
    payment_seq = refl;
    inbox = refl;
    configs = refl;
    config_seq = refl;
    shop = refl;
  }
  ensured-Aside (some r) = Aside-refl d

  ensured-SameHistory : (found : Option TeamBalance) → SameHistory d (ensured found k now d)
  ensured-SameHistory none = record { logs = refl; log_seq = refl; sources = refl; dailies = refl }
  ensured-SameHistory (some r) = record {
    logs = refl;
    log_seq = refl;
    sources = refl;
    dailies = refl;
  }

  pub moved-Aside : Aside d (moved k delta now d)
  unfolding moved ensured_row
  moved-Aside =
      let a = ensured-Aside (find_row (on_account k) d.balances) in
      record {
        payments = a.payments;
        payment_seq = a.payment_seq;
        inbox = a.inbox;
        configs = a.configs;
        config_seq = a.config_seq;
        shop = a.shop;
      }

  pub pended-Aside : Aside d (pended k delta now d)
  unfolding pended ensured_row
  pended-Aside =
      let a = ensured-Aside (find_row (on_account k) d.balances) in
      record {
        payments = a.payments;
        payment_seq = a.payment_seq;
        inbox = a.inbox;
        configs = a.configs;
        config_seq = a.config_seq;
        shop = a.shop;
      }

  pub moved-SameHistory : SameHistory d (moved k delta now d)
  unfolding moved ensured_row
  moved-SameHistory =
      let a = ensured-SameHistory (find_row (on_account k) d.balances) in
      record { logs = a.logs; log_seq = a.log_seq; sources = a.sources; dailies = a.dailies }

  pub pended-SameHistory : SameHistory d (pended k delta now d)
  unfolding pended ensured_row
  pended-SameHistory =
      let a = ensured-SameHistory (find_row (on_account k) d.balances) in
      record { logs = a.logs; log_seq = a.log_seq; sources = a.sources; dailies = a.dailies }

module _ (k : Account) (now : Time) (d : Db) where
  pub ensured_row-Aside : Aside d (ensured_row k now d)
  unfolding ensured_row
  ensured_row-Aside = ensured-Aside k (pos 0) now d (find_row (on_account k) d.balances)

  pub ensured_row-SameHistory : SameHistory d (ensured_row k now d)
  unfolding ensured_row
  ensured_row-SameHistory = ensured-SameHistory k (pos 0) now d (find_row (on_account k) d.balances)

-- The attribution writes its own table only.
pub record OnlySources (before after : Db) : Type 0 where
  pub balances : after.balances ≡ before.balances
  pub balance_seq : after.balance_seq ≡ before.balance_seq
  pub logs : after.logs ≡ before.logs
  pub log_seq : after.log_seq ≡ before.log_seq
  pub dailies : after.dailies ≡ before.dailies
  pub aside : Aside before after

pub attributed-OnlySources :
    (src : Option OrderSource) (i : ℕ) (now : Time) (d : Db)
    → OnlySources d (attributed src i now d)
attributed-OnlySources none i now d = record {
  balances = refl;
  balance_seq = refl;
  logs = refl;
  log_seq = refl;
  dailies = refl;
  aside = Aside-refl d;
}
attributed-OnlySources (some src) i now d = record {
  balances = refl;
  balance_seq = refl;
  logs = refl;
  log_seq = refl;
  dailies = refl;
  aside = record {
    payments = refl;
    payment_seq = refl;
    inbox = refl;
    configs = refl;
    config_seq = refl;
    shop = refl;
  };
}

-- The rollup writes its own table only.
pub record OnlyDailies (before after : Db) : Type 0 where
  pub balances : after.balances ≡ before.balances
  pub balance_seq : after.balance_seq ≡ before.balance_seq
  pub logs : after.logs ≡ before.logs
  pub log_seq : after.log_seq ≡ before.log_seq
  pub sources : after.sources ≡ before.sources
  pub aside : Aside before after

pub put_daily-OnlyDailies :
    (found : Option TeamBalanceDailyLog) (day : Time) (k : Account) (prev new_bal delta : Amount)
    (now : Time) (d : Db)
    → OnlyDailies d (put_daily found day k prev new_bal delta now d)
put_daily-OnlyDailies none day k prev new_bal delta now d = record {
  balances = refl;
  balance_seq = refl;
  logs = refl;
  log_seq = refl;
  sources = refl;
  aside = record {
    payments = refl;
    payment_seq = refl;
    inbox = refl;
    configs = refl;
    config_seq = refl;
    shop = refl;
  };
}
put_daily-OnlyDailies (some r) day k prev new_bal delta now d = record {
  balances = refl;
  balance_seq = refl;
  logs = refl;
  log_seq = refl;
  sources = refl;
  aside = record {
    payments = refl;
    payment_seq = refl;
    inbox = refl;
    configs = refl;
    config_seq = refl;
    shop = refl;
  };
}
