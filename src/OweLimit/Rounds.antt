-- ===== src/OweLimit/Rounds.antt =====
-- OweLimitDefaultSet and OweLimitCustomSet: what is read back afterwards.
use invoice_service.Prelude.{
  ℕ, ◌≡◌, ◌≢◌, ◌∙◌, refl, inl, inr, true, false, Option, none, some, arith, ◌==◌, ==_refl,
  Option-cases,
}
use invoice_service.Prelude.Rows.{find_row, find_row-snoc_none, find_row-update}
use invoice_service.Models.Enums.{Amount}
use invoice_service.Models.OweLimit.{OweLimitConfiguration}
use invoice_service.Store.{Db, ok, calm, query, execute, statement}
use invoice_service.Store.Outcome.{transaction-calm_ok}
use invoice_service.OweLimit.{
  default_row, custom_row, insert_config, set_threshold, upsert, is_default_of, is_custom_of,
  with_threshold, has_config_id, owe_limit_default_set, owe_limit_custom_set, owe_limit_default_get,
}

-- The tables after an upsert of the row that fits.
abbrev upserted : (ℕ → OweLimitConfiguration) → Amount → Option OweLimitConfiguration → Db → Db
upserted row threshold none d = insert_config row d
upserted row threshold (some cfg) d = set_threshold cfg.id threshold d

module _ (row : ℕ → OweLimitConfiguration) (threshold : Amount) where
  upsert-calm :
      (found : Option OweLimitConfiguration) (d : Db)
      → upsert row threshold found (calm d) ≡ (ok tt, calm (upserted row threshold found d))
  unfolding execute statement
  upsert-calm none d = refl
  upsert-calm (some cfg) d = refl

  -- The row that fits afterwards has the threshold.
  upserted-find_row :
      (fits : OweLimitConfiguration → _)
      → ((i : ℕ) → fits (row i) ≡ true)
      → ((i : ℕ) → (row i).threshold ≡ threshold)
      → ((cfg : OweLimitConfiguration) → fits (with_threshold threshold cfg) ≡ fits cfg)
      → (d : Db)
      → (cfg : OweLimitConfiguration) × (find_row fits
            (upserted row threshold (find_row fits d.configs) d).configs
          ≡ some cfg)
        × (cfg.threshold ≡ threshold)
  upserted-find_row fits new sets keeps d = elim (Option-cases (find_row fits d.configs)) [
    | inl absent ↦ (
      row d.config_seq,
      rw absent (
          find_row-snoc_none fits d.configs (row d.config_seq) absent ∙ rw (new d.config_seq) refl),
      sets d.config_seq,
    )
    | inr (cfg, there) ↦ (
      with_threshold threshold cfg,
      rw there (
          find_row-update fits (has_config_id cfg.id) (with_threshold threshold) d.configs keeps
          ∙ rw there (rw (==_refl cfg.id) refl)),
      refl,
    )
  ]

-- Where no statement fails, OweLimitDefaultSet succeeds, and OweLimitDefaultGet of that team then
-- answers that a rule is configured, with the threshold that was set.
pub default_set_get :
    (team : ℕ) (threshold : Amount) (d : Db)
    → (d1 : Db) × (owe_limit_default_set team threshold (calm d) ≡ (ok tt, calm d1))
      × (owe_limit_default_get team (calm d1)
          ≡ (ok (record { configured = true; threshold = threshold }), calm d1))
unfolding owe_limit_default_set owe_limit_default_get query statement
default_set_get team threshold d =
    let (cfg, found, set) =
      upserted-find_row (default_row team threshold) threshold (is_default_of team)
        (λ i. rw (==_refl team) refl) (λ i. refl) (λ cfg. refl) d in
    (
      upserted (default_row team threshold) threshold (find_row (is_default_of team) d.configs) d,
      transaction-calm_ok _ d tt _ (
          upsert-calm (default_row team threshold) threshold
            (find_row (is_default_of team) d.configs) d),
      rw (found, set) refl,
    )

-- Where no statement fails and the teams differ, OweLimitCustomSet succeeds, and the first row of the
-- creditor for that debtor then has the threshold that was set.
pub custom_set_stores :
    (team for_team : ℕ) (threshold : Amount) (d : Db)
    → team ≢ for_team
    → (d1 : Db) × (cfg : OweLimitConfiguration) × (owe_limit_custom_set team for_team threshold
          (calm d)
        ≡ (ok tt, calm d1))
      × (find_row (is_custom_of team for_team) d1.configs ≡ some cfg)
      × (cfg.threshold ≡ threshold)
unfolding owe_limit_custom_set query statement
custom_set_stores team for_team threshold d differ =
    let row = custom_row team for_team threshold in
    let (cfg, found, set) =
      upserted-find_row row threshold (is_custom_of team for_team)
        (λ i. rw (==_refl team, ==_refl for_team) refl) (λ i. refl) (λ cfg. refl) d in
    let other : (team == for_team) ≡ false = ground arith in
    (
      upserted row threshold (find_row (is_custom_of team for_team) d.configs) d,
      cfg,
      rw other (
          transaction-calm_ok _ d tt _
            (upsert-calm row threshold (find_row (is_custom_of team for_team) d.configs) d)),
      found,
      set,
    )
