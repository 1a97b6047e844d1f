-- ===== src/Ledger/Requests.antt =====
-- `PostBalanceLog` and the RPC CreateBalanceLog: what they refuse, and what they post.
use Prim.Native.String.{String}
use invoice_service.Prelude.{
  ℕ, ◌≡◌, ◌≢◌, ◌∙◌, refl, ◌⊎◌, inl, inr, false, Option, none, some, List, [], arith, ◌==◌, ◌||◌,
  Bool-cases, if◌then◌else◌,
}
use invoice_service.Prelude.Int.{pos, ◌+ℤ◌, ◌<ℤ◌, neg, leb_ℤ}
use invoice_service.Models.Enums.{
  Time, Amount, BalanceType, type_unspecified, payable, receivable, BalanceChangeType,
  change_unspecified,
}
use invoice_service.Models.Ledger.{Account, same_account}
use invoice_service.Store.{
  Db, Session, M, Error, ok, err, calm, continue, code, unauthenticated, invalid_argument,
  teams_required, teams_must_differ, amount_not_positive, change_type_required, bad_balance_type,
}
use invoice_service.Store.Honest.{transaction_rolls_back}
use invoice_service.Store.Outcome.{
  Ends, RollsBack, Ends-everywhere, transaction-calm_ok, transaction-calm_err,
}
use invoice_service.Ledger.Honesty.{create_balance_log-Honest}
use invoice_service.Ledger.{
  CreateBalanceLogRequest, create_balance_log, OrderSource, entry_of, is_unspecified,
  opposite_balance, first_source, check_type, post_double_entry, post_balance_log,
}
use invoice_service.Ledger.Accounts.{balance_of, pending_of}
use invoice_service.Ledger.DoubleEntry.{
  account, IsLedger, both_posted, post_double_entry-calm, both_posted-balance, both_posted-pending,
  both_posted-IsLedger, both_posted-Aside,
}
use invoice_service.Ledger.Frame.{Aside}

-- What `PostBalanceLog` asks of its arguments.
pub record IsAcceptable (team for_team : ℕ) (change_type : BalanceChangeType) (amount : Amount)
    (bt : BalanceType) : Type 0 where
  pub has_team : team ≢ 0
  pub has_counterparty : for_team ≢ 0
  pub differ : team ≢ for_team
  pub positive : pos 0 <ℤ amount
  pub has_change_type : change_type ≢ change_unspecified
  pub has_type : bt ≢ type_unspecified

abbrev pub mirror_type : BalanceType → BalanceType
mirror_type payable = receivable
mirror_type receivable = payable
mirror_type type_unspecified = type_unspecified

-- What an accepted change does to the tables: the primary account moves by the amount, the mirrored
-- one by its negation, no other balance and no pending amount moves, and the invariant holds.
pub record Posts (team for_team : ℕ) (bt : BalanceType) (amount : Amount) (before after : Db)
    : Type 0 where
  pub ledger : IsLedger after
  pub balances :
      (j : Account)
      → balance_of j after.balances
        ≡ balance_of j before.balances
          +ℤ (if same_account (account team for_team bt) j then amount else pos 0)
          +ℤ (if same_account (account for_team team (mirror_type bt)) j then neg amount else pos 0)
  pub pending : (j : Account) → pending_of j after.balances ≡ pending_of j before.balances
  pub aside : Aside before after

typed : (bt : BalanceType) → (bt ≢ type_unspecified) ⊎ (bt ≡ type_unspecified)
typed bt = ground arith

pub opposite_mirror :
    (bt : BalanceType) → bt ≢ type_unspecified → opposite_balance bt ≡ ok (mirror_type bt)
unfolding opposite_balance
opposite_mirror bt h = ground arith

module _ (team for_team : ℕ) (change_type : BalanceChangeType) (amount : Amount) (bt : BalanceType)
    (note : String) (created_by : ℕ) (now : Time) (src : List OrderSource) where
  abbrev Acceptable : Type 0
  Acceptable = IsAcceptable team for_team change_type amount bt

  untyped :
      (s : Session)
      → bt ≡ type_unspecified
      → continue
          (check_type (opposite_balance bt) s).0
          (λ _.
            post_double_entry team for_team bt amount
              (entry_of change_type note created_by now (first_source src)))
          (check_type (opposite_balance bt) s).1
        ≡ (err bad_balance_type, s)
  unfolding opposite_balance
  untyped s h = ground arith

  -- Arguments that pass every check reach the double entry.
  accepted_entry :
      (s : Session)
      → Acceptable
      → post_balance_log team for_team change_type amount bt note created_by now src s
        ≡ post_double_entry team for_team bt amount
            (entry_of change_type note created_by now (first_source src))
            s
  unfolding post_balance_log
  accepted_entry s h = ground arith

  passed :
      (team == 0 || for_team == 0) ≡ false
      → (team == for_team) ≡ false
      → leb_ℤ amount (pos 0) ≡ false
      → is_unspecified change_type ≡ false
      → bt ≢ type_unspecified
      → Acceptable
  passed f1 f2 f3 f4 f5 = ground arith

  abbrev call : M Unit
  call = post_balance_log team for_team change_type amount bt note created_by now src

  -- Either the arguments pass every check, or the call is refused as invalid and writes nothing.
  pub post_balance_log-checks :
      (s : Session)
      → Acceptable ⊎ ((x : Error) × (code x ≡ invalid_argument) × (call s ≡ (err x, s)))
  unfolding post_balance_log
  post_balance_log-checks s = elim (Bool-cases (team == 0 || for_team == 0)) [
    | inl t ↦ inr (teams_required, refl, rw t)
    | inr f1 ↦ elim (Bool-cases (team == for_team)) [
      | inl t ↦ inr (teams_must_differ, refl, rw (f1, t))
      | inr f2 ↦ elim (Bool-cases (leb_ℤ amount (pos 0))) [
        | inl t ↦ inr (amount_not_positive, refl, rw (f1, f2, t))
        | inr f3 ↦ elim (Bool-cases (is_unspecified change_type)) [
          | inl t ↦ inr (change_type_required, refl, rw (f1, f2, f3, t))
          | inr f4 ↦ elim (typed bt) [
            | inl f5 ↦ inl (passed f1 f2 f3 f4 f5)
            | inr t ↦ inr (bad_balance_type, refl, rw (f1, f2, f3, f4) (untyped s t))
          ]
        ]
      ]
    ]
  ]

  module _ (d : Db) (h : Acceptable) (ledger : IsLedger d) where
    abbrev after : Db
    after =
        both_posted team for_team bt (mirror_type bt) amount
          (entry_of change_type note created_by now (first_source src)) d

    -- Accepted arguments post both legs.
    pub post_balance_log-calm : call (calm d) ≡ (ok tt, calm after)
    post_balance_log-calm =
        accepted_entry (calm d) h
        ∙ post_double_entry-calm team for_team bt (mirror_type bt) amount _ d
            (opposite_mirror bt h.has_type)

    pub after-Posts : Posts team for_team bt amount d after
    after-Posts =
        let opposite = opposite_mirror bt h.has_type in
        record {
          ledger =
              both_posted-IsLedger team for_team bt (mirror_type bt) amount _ d opposite ledger;
          balances =
              both_posted-balance team for_team bt (mirror_type bt) amount _ d opposite
                ledger.numbered;
          pending =
              both_posted-pending team for_team bt (mirror_type bt) amount _ d opposite
                ledger.numbered;
          aside = both_posted-Aside team for_team bt (mirror_type bt) amount _ d;
        }

-- What the RPC has done when it returns no error.
pub record Logged (caller : Option ℕ) (pay : CreateBalanceLogRequest) (before after : Db)
    : Type 0 where
  pub caller_known : caller ≢ none
  pub acceptable :
      IsAcceptable pay.team_id pay.for_team_id pay.change_type pay.change_amount pay.balance_type
  pub posts : Posts pay.team_id pay.for_team_id pay.balance_type pay.change_amount before after

module _ (now : Time) (pay : CreateBalanceLogRequest) where
  create_balance_log-RollsBack : (caller : Option ℕ) → RollsBack (create_balance_log caller now pay)
  unfolding create_balance_log
  create_balance_log-RollsBack none s e h = refl
  create_balance_log-RollsBack (some id) s e h = transaction_rolls_back _ s e h

  abbrev body : ℕ → M Unit
  body id =
      post_balance_log pay.team_id pay.for_team_id pay.change_type pay.change_amount
        pay.balance_type pay.note id now []

  create_balance_log-calm :
      (caller : Option ℕ) (d : Db)
      → IsLedger d
      → Ends (λ _. Logged caller pay d) d (create_balance_log caller now pay (calm d))
  unfolding create_balance_log
  create_balance_log-calm none d ledger = inl (unauthenticated, refl, refl)
  create_balance_log-calm (some id) d ledger =
      elim (post_balance_log-checks pay.team_id pay.for_team_id pay.change_type pay.change_amount
        pay.balance_type pay.note id now [] (calm d)) [
          | inl fine ↦
              rw
                (transaction-calm_ok (body id) d tt _ (
                  post_balance_log-calm pay.team_id pay.for_team_id pay.change_type
                    pay.change_amount pay.balance_type pay.note id now [] d fine ledger))
                (inr (
                  tt,
                  refl,
                  record {
                    caller_known = λ e. cc;
                    acceptable = fine;
                    posts =
                        after-Posts pay.team_id pay.for_team_id pay.change_type pay.change_amount
                          pay.balance_type pay.note id now [] d fine ledger;
                  },
                ))
          | inr (x, _, refusal) ↦
              rw (transaction-calm_err (body id) d x (calm d) refusal) (inl (x, refl, refl))
        ]

  -- Let the tables at the start keep the invariant of the ledger.
  -- Whichever statement fails, the RPC either returns an error and leaves every table as it was, or
  -- the caller is known, the request is acceptable, and both legs are posted.
  pub create_balance_log_all_or_nothing :
      (caller : Option ℕ) (s : Session)
      → IsLedger s.db
      → Ends (λ _. Logged caller pay s.db) s.db (create_balance_log caller now pay s)
  create_balance_log_all_or_nothing caller s ledger =
      Ends-everywhere _ (create_balance_log-Honest caller now pay)
        (create_balance_log-RollsBack caller) (λ _. Logged caller pay s.db) s
        (create_balance_log-calm caller s.db ledger)

-- Let the tables at the start keep the invariant of the ledger.
-- Where no statement fails, the caller is known and the request is acceptable, CreateBalanceLog
-- succeeds and posts both legs.
pub create_balance_log_succeeds :
    (by : ℕ) (now : Time) (pay : CreateBalanceLogRequest) (d : Db)
    → IsLedger d
    → IsAcceptable pay.team_id pay.for_team_id pay.change_type pay.change_amount pay.balance_type
    → (d' : Db) × (create_balance_log (some by) now pay (calm d) ≡ (ok tt, calm d'))
      × Logged (some by) pay d d'
unfolding create_balance_log
create_balance_log_succeeds by now pay d ledger fine = (
  after pay.team_id pay.for_team_id pay.change_type pay.change_amount pay.balance_type pay.note by
      now [] d fine ledger,
  transaction-calm_ok (body now pay by) d tt _ (
      post_balance_log-calm pay.team_id pay.for_team_id pay.change_type pay.change_amount
        pay.balance_type pay.note by now [] d fine ledger),
  record {
    caller_known = λ e. cc;
    acceptable = fine;
    posts =
        after-Posts pay.team_id pay.for_team_id pay.change_type pay.change_amount pay.balance_type
          pay.note by now [] d fine ledger;
  },
)
