-- ===== src/Store/Honest.antt =====
-- A failing statement can only stop a handler: whichever statement fails, a handler that does not
-- report the failure has done what it does where none fails.
use invoice_service.Prelude.{◌≡◌, refl, ◌⊎◌, inl, inr, Bool, true, false, arith, if◌then◌else◌}
use invoice_service.Store.{
  Db, Error, database, Result, ok, err, Session, M, calm, continue, pure, raise, guard, statement,
  query, execute, ◌>>=◌, ◌>>◌, rollback, transaction,
}

-- The outcome and the tables are those of a calm run, or the failure is reported.
abbrev pub Agrees : {A : Type 0} → M A → Session → Type 0
Agrees m s =
    ((m s).0 ≡ err database) ⊎ (((m s).0 ≡ (m (calm s.db)).0) × ((m s).1.db ≡ (m (calm s.db)).1.db))

pub record Honest {A : Type 0} (m : M A) : Type 0 where
  pub stays_calm : (d : Db) → (m (calm d)).1 ≡ calm (m (calm d)).1.db
  pub agrees : (s : Session) → Agrees m s

module _ {A : Type 0} where
  pub Honest-pure : (a : A) → Honest (pure a)
  Honest-pure a = record { stays_calm = λ d. refl; agrees = λ s. inr (refl, refl) }

  pub Honest-raise : (e : Error) → Honest (raise {A = A} e)
  Honest-raise e = record { stays_calm = λ d. refl; agrees = λ s. inr (refl, refl) }

  statement-Agrees : (f : Db → A × Db) (s : Session) → Agrees (statement f) s
  unfolding statement
  statement-Agrees f s = ground arith

  pub Honest-statement : (f : Db → A × Db) → Honest (statement f)
  unfolding statement
  Honest-statement f = record { stays_calm = λ d. refl; agrees = statement-Agrees f }

  pub Honest-query : (f : Db → A) → Honest (query f)
  unfolding query
  Honest-query f = unfold statement in Honest-statement (λ d. (f d, d))

  pub Honest-if :
      (b : Bool) (m n : M A) → Honest m → Honest n → Honest (λ s. (if b then m else n) s)
  Honest-if true m n hm hn = hm
  Honest-if false m n hm hn = hn

pub Honest-execute : (f : Db → Db) → Honest (execute f)
unfolding execute
Honest-execute f = Honest-statement (λ d. (tt, f d))

pub Honest-guard : (bad : Bool) (e : Error) → Honest (guard bad e)
Honest-guard bad e = record { stays_calm = λ d. refl; agrees = λ s. inr (refl, refl) }

module _ {A B : Type 0} (m : M A) (f : A → M B) (hm : Honest m) (hf : (a : A) → Honest (f a)) where
  continue-calm :
      (r : Result A) (d : Db) → (continue r f (calm d)).1 ≡ calm (continue r f (calm d)).1.db
  continue-calm (ok a) d = (hf a).stays_calm d
  continue-calm (err e) d = refl

  bind_calm : (d : Db) → ((m >>= f) (calm d)).1 ≡ calm ((m >>= f) (calm d)).1.db
  bind_calm d = rw (hm.stays_calm d) (continue-calm (m (calm d)).0 (m (calm d)).1.db)

  continue_agrees :
      (r : Result A) (s : Session)
      → ((continue r f s).0 ≡ err database)
        ⊎ (((continue r f s).0 ≡ (continue r f (calm s.db)).0)
            × ((continue r f s).1.db ≡ (continue r f (calm s.db)).1.db))
  continue_agrees (ok a) s = (hf a).agrees s
  continue_agrees (err e) s = inr (refl, refl)

  bind-Agrees : (s : Session) → Agrees (m >>= f) s
  bind-Agrees s = elim (hm.agrees s) [
    | inl failed ↦ inl (rw failed)
    | inr (same, db) ↦ rw (hm.stays_calm s.db, ← same, ← db) (continue_agrees (m s).0 (m s).1)
  ]

  pub Honest-bind : Honest (m >>= f)
  Honest-bind = record { stays_calm = bind_calm; agrees = bind-Agrees }

module _ {A : Type 0} (m : M A) (hm : Honest m) where
  committed : M A
  committed = execute (λ d. d) >> (m >>= λ a. execute (λ d. d) >> pure a)

  Honest-committed : Honest committed
  unfolding committed
  Honest-committed =
      Honest-bind _ _ (Honest-execute (λ d. d))
        λ _. Honest-bind m _ hm λ a. Honest-bind _ _ (Honest-execute (λ d. d)) λ _. Honest-pure a

  rollback-calm :
      (before : Db) (r : Result A) (d : Db)
      → (rollback before (r, calm d)).1 ≡ calm (rollback before (r, calm d)).1.db
  rollback-calm before (ok a) d = refl
  rollback-calm before (err e) d = refl

  rollback_agrees :
      (before : Db) (r : Result A) (s : Session) (d : Db)
      → s.db ≡ d
      → ((rollback before (r, s)).0 ≡ (rollback before (r, calm d)).0)
        × ((rollback before (r, s)).1.db ≡ (rollback before (r, calm d)).1.db)
  rollback_agrees before (ok a) s d e = (refl, e)
  rollback_agrees before (err x) s d e = (refl, refl)

  transaction-eq : (s : Session) → transaction m s ≡ rollback s.db (committed s)
  unfolding transaction committed
  transaction-eq s = refl

  transaction-Agrees : (s : Session) → Agrees (transaction m) s
  transaction-Agrees s = elim (Honest-committed.agrees s) [
    | inl failed ↦ inl (rw (transaction-eq s, failed))
    | inr (same, db) ↦
        rw (transaction-eq s, transaction-eq (calm s.db))
          (rw (Honest-committed.stays_calm s.db, ← same)
            (inr (rollback_agrees s.db (committed s).0 (committed s).1 _ db)))
  ]

  pub Honest-transaction : Honest (transaction m)
  Honest-transaction = record {
    stays_calm = λ d.
        rw (transaction-eq (calm d), Honest-committed.stays_calm d)
          (rollback-calm d (committed (calm d)).0 (committed (calm d)).1.db);
    agrees = transaction-Agrees;
  }

module _ {A : Type 0} where
  -- A transaction that reports any error leaves the tables as they were.
  pub transaction_rolls_back :
      (m : M A) (s : Session) (e : Error)
      → (transaction m s).0 ≡ err e
      → (transaction m s).1.db ≡ s.db
  unfolding transaction
  transaction_rolls_back m s e h = ground arith
