-- ===== src/Ledger/Leg.antt =====
-- One leg of a double entry, table by table: the running balances, the change log, the rollup of the
-- day, and the tables that it leaves alone.
use invoice_service.Prelude.{◌≡◌, ◌∙◌, refl, Bool, Option, none, some, [], ◌∷◌, ◌++◌, if◌then◌else◌}
use invoice_service.Prelude.Int.{◌+ℤ◌, pos}
use invoice_service.Prelude.Rows.{find_row, sum_where, sum_where-snoc}
use invoice_service.Models.Enums.{Time, Amount}
use invoice_service.Models.Ledger.{
  TeamBalanceDailyLog, BalanceChangeLog, Account, same_account, on_day,
}
use invoice_service.Store.{Db}
use invoice_service.Ledger.{Entry, start_of_jakarta_day, new_log, insert_log, put_daily}
use invoice_service.Ledger.Accounts.{
  balance_of, pending_of, IsNumbered, locked_row, locked_row-balance,
}
use invoice_service.Ledger.Posting.{moved, attributed, posted, moved-amounts, moved-IsNumbered}
use invoice_service.Ledger.Frame.{
  Aside, Aside-trans, OnlySources, OnlyDailies, moved-Aside, moved-SameHistory,
  attributed-OnlySources, put_daily-OnlyDailies,
}
use invoice_service.Ledger.Rollup.{change_on, same_day, put_daily-change_on}

same_dailies :
    (found : Option TeamBalanceDailyLog) (day : Time) (k : Account) (prev new_bal delta : Amount)
    (now : Time) (d d' : Db)
    → d.dailies ≡ d'.dailies
    → (put_daily found day k prev new_bal delta now d).dailies
      ≡ (put_daily found day k prev new_bal delta now d').dailies
same_dailies none day k prev new_bal delta now d d' h = rw h refl
same_dailies (some r) day k prev new_bal delta now d d' h = rw h refl

module _ (k : Account) (delta : Amount) (e : Entry) (d : Db) where
  -- The stages of a leg: the balance has moved, the log is written, the order is attributed.
  abbrev d1 : Db
  d1 = moved k delta e.now d

  abbrev new_bal : Amount
  new_bal = (locked_row k e.now d).balance +ℤ delta

  abbrev entry : BalanceChangeLog
  entry = new_log d1.log_seq k delta new_bal e

  abbrev d3 : Db
  d3 = attributed e.src d1.log_seq e.now (insert_log entry d1)

  only_sources : OnlySources (insert_log entry d1) d3
  only_sources = attributed-OnlySources e.src d1.log_seq e.now (insert_log entry d1)

  abbrev today : Time
  today = start_of_jakarta_day e.now

  only_dailies : OnlyDailies d3 (posted k delta e d)
  unfolding posted
  only_dailies =
      put_daily-OnlyDailies (find_row (on_day today k) d3.dailies) today k
        (locked_row k e.now d).balance new_bal delta e.now d3

  pub posted-balances : (posted k delta e d).balances ≡ (moved k delta e.now d).balances
  posted-balances = only_dailies.balances ∙ only_sources.balances

  pub posted-Aside : Aside d (posted k delta e d)
  posted-Aside = Aside-trans (moved-Aside k delta e.now d) (
      Aside-trans
        (record {
          payments = refl;
          payment_seq = refl;
          inbox = refl;
          configs = refl;
          config_seq = refl;
          shop = refl;
        })
        (Aside-trans only_sources.aside only_dailies.aside))

  -- The log row of the leg: its id is the next of the sequence, and its balance the new one.
  abbrev pub posted_log : BalanceChangeLog
  posted_log = new_log d.log_seq k delta (balance_of k d.balances +ℤ delta) e

  pub posted-logs : (posted k delta e d).logs ≡ d.logs ++ posted_log ∷ []
  posted-logs =
      only_dailies.logs
      ∙ only_sources.logs
      ∙ rw
          (
            (moved-SameHistory k delta e.now d).logs,
            (moved-SameHistory k delta e.now d).log_seq,
            locked_row-balance k e.now d,
          )
          refl

  -- The sum of an account's changes in a window of the log.
  pub sum-posted :
      (p : BalanceChangeLog → Bool)
      → sum_where p (λ l. l.change_amount) (posted k delta e d).logs
        ≡ sum_where p (λ l. l.change_amount) d.logs +ℤ (if p posted_log then delta else pos 0)
  sum-posted p = rw posted-logs (sum_where-snoc p (λ l. l.change_amount) d.logs posted_log)

  -- The rollup after the leg, as a change of the rollup before it.
  pub posted-dailies :
      (posted k delta e d).dailies
      ≡ (put_daily
          (find_row (on_day today k) d.dailies)
          today
          k
          (locked_row k e.now d).balance
          new_bal
          delta
          e.now
          d).dailies
  unfolding posted
  posted-dailies =
      same_dailies (find_row (on_day today k) d3.dailies) today k (locked_row k e.now d).balance
        new_bal delta e.now d3 d history
      ∙ rw history refl
    where
      history : d3.dailies ≡ d.dailies
      history = only_sources.dailies ∙ (moved-SameHistory k delta e.now d).dailies

  pub posted-change_on :
      (t : Time) (j : Account)
      → change_on t j (posted k delta e d).dailies ≡ (
          if same_day t j (start_of_jakarta_day e.now) k
          then change_on (start_of_jakarta_day e.now) k d.dailies +ℤ delta
          else change_on t j d.dailies)
  unfolding posted
  posted-change_on t j =
      put_daily-change_on today k (locked_row k e.now d).balance new_bal delta e.now d3 t j
      ∙ rw (only_sources.dailies, (moved-SameHistory k delta e.now d).dailies) refl

  module _ (numbered : IsNumbered d) where
    pub posted-amounts :
        (j : Account)
        → (balance_of j (posted k delta e d).balances ≡ (
            if same_account j k then balance_of k d.balances +ℤ delta else balance_of j d.balances))
          × (pending_of j (posted k delta e d).balances ≡ pending_of j d.balances)
    posted-amounts j = rw posted-balances (moved-amounts k delta e.now d numbered j)

    pub posted-IsNumbered : IsNumbered (posted k delta e d)
    posted-IsNumbered =
        rw (posted-balances, only_dailies.balance_seq, only_sources.balance_seq)
          (moved-IsNumbered k delta e.now d numbered)
