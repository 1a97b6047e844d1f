-- ===== src/Store/Outcome.antt =====
-- Atomicity: a handler returns an error and leaves the tables as they were, or it returns a value
-- and has done all that it does.
use invoice_service.Prelude.{◌≡◌, ◌∙◌, sym, ◌⊎◌, inl, inr}
use mathlib.Core.Path.{subst}
use invoice_service.Store.{Db, Error, database, Result, ok, err, Session, M, calm, transaction}
use invoice_service.Store.Honest.{Honest}

-- How a call that began at the tables `before` has ended.
abbrev pub Ends : {A : Type 0} → (A → Db → Type 0) → Db → Result A × Session → Type 0
Ends {A} Done before (r, s) =
    ((e : Error) × (r ≡ err e) × (s.db ≡ before)) ⊎ ((a : A) × (r ≡ ok a) × Done a s.db)

abbrev pub RollsBack : {A : Type 0} → M A → Type 0
RollsBack m = (s : Session) (e : Error) → (m s).0 ≡ err e → (m s).1.db ≡ s.db

module _ {A : Type 0} (m : M A) (honest : Honest m) (rolls_back : RollsBack m)
    (Done : A → Db → Type 0) (s : Session) where
  agreed :
      (m s).0 ≡ (m (calm s.db)).0
      → (m s).1.db ≡ (m (calm s.db)).1.db
      → Ends Done s.db (m (calm s.db))
      → Ends Done s.db (m s)
  agreed same db (inl (e, failed, _)) = inl (e, same ∙ failed, rolls_back s e (same ∙ failed))
  agreed same db (inr (a, done, post)) = inr (a, same ∙ done, subst (Done a) (sym db) post)

  -- How a call ends where no statement fails is how it ends, failures of statements aside.
  pub Ends-everywhere : Ends Done s.db (m (calm s.db)) → Ends Done s.db (m s)
  Ends-everywhere calm_end = elim (honest.agrees s) [
    | inl failed ↦ inl (database, failed, rolls_back s database failed)
    | inr (same, db) ↦ agreed same db calm_end
  ]

module _ {A : Type 0} (m : M A) (d : Db) where
  pub transaction-calm_ok :
      (a : A) (d' : Db) → m (calm d) ≡ (ok a, calm d') → transaction m (calm d) ≡ (ok a, calm d')
  unfolding transaction
  transaction-calm_ok a d' h = rw h

  pub transaction-calm_err :
      (e : Error) (s : Session)
      → m (calm d) ≡ (err e, s)
      → transaction m (calm d) ≡ (err e, record s { db = d })
  unfolding transaction
  transaction-calm_err e s h = rw h
