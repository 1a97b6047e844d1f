-- ===== src/Push/Nets.antt =====
-- What the postings of one event add to every balance, however many entries it posts.
use Prim.Native.String.{String}
use invoice_service.Prelude.{
  ℕ, ◌≡◌, ◌≢◌, ◌∙◌, refl, sym, Bool, true, false, List, [], ◌∷◌, arith, if◌then◌else◌,
}
use invoice_service.Prelude.Int.{pos, ◌+ℤ◌, neg, +ℤ_zero, +ℤ_assoc}
use invoice_service.Models.Enums.{
  Time, Amount, BalanceType, type_unspecified, BalanceChangeType, change_unspecified,
}
use invoice_service.Models.Ledger.{Account, same_account}
use invoice_service.Store.{Db, M, pure, ok, calm, ◌>>◌}
use invoice_service.Ledger.{OrderSource, post_balance_log}
use invoice_service.Ledger.Accounts.{balance_of}
use invoice_service.Ledger.DoubleEntry.{account}
use invoice_service.Ledger.Requests.{
  IsAcceptable, mirror_type, Posts, post_balance_log-calm, after-Posts,
}
use invoice_service.Payments.Sound.{IsSound}
use invoice_service.Push.{for_each, is_degenerate}

-- The tables `after` have the balances of `before` with `change` added, and keep the invariant.
pub record Nets (change : Account → Amount) (before after : Db) : Type 0 where
  pub sound : IsSound after
  pub inbox : after.inbox ≡ before.inbox
  pub shop : after.shop ≡ before.shop
  pub balances :
      (j : Account) → balance_of j after.balances ≡ balance_of j before.balances +ℤ change j

abbrev pub no_change : Account → Amount
no_change j = pos 0

abbrev pub both_changes : (Account → Amount) → (Account → Amount) → Account → Amount
both_changes f g j = f j +ℤ g j

-- What an entry adds: the amount on its account, and its negation on the mirrored one.
abbrev pub entry_change : ℕ → ℕ → BalanceType → Amount → Account → Amount
entry_change team for_team bt amount j =
    (if same_account (account team for_team bt) j then amount else pos 0)
    +ℤ (if same_account (account for_team team (mirror_type bt)) j then neg amount else pos 0)

abbrev pub total : {A : Type 0} → (A → Account → Amount) → List A → Account → Amount
total change [] = no_change
total change (x ∷ xs) = both_changes (change x) (total change xs)

-- Where no statement fails, `m` succeeds and nets `change`.
abbrev pub Runs : M (Unit {0}) → (Account → Amount) → Db → Type 0
Runs m change d = (d' : Db) × (m (calm d) ≡ (ok tt, calm d')) × Nets change d d'

pub Nets-refl : (d : Db) → IsSound d → Nets no_change d d
Nets-refl d sound = record {
  sound = sound;
  inbox = refl;
  shop = refl;
  balances = λ j. sym (+ℤ_zero _);
}

pub Nets-trans :
    {f g : Account → Amount} {a b c : Db} → Nets f a b → Nets g b c → Nets (both_changes f g) a c
Nets-trans {f} {g} {a} {b} {c} x y = record {
  sound = y.sound;
  inbox = y.inbox ∙ x.inbox;
  shop = y.shop ∙ x.shop;
  balances = λ j. y.balances j ∙ rw (x.balances j) (+ℤ_assoc _ _ _);
}

pub Runs-then :
    (m k : M (Unit {0})) (f g : Account → Amount) (d : Db)
    → Runs m f d
    → ((d' : Db) → IsSound d' → d'.shop ≡ d.shop → Runs k g d')
    → Runs (m >> k) (both_changes f g) d
Runs-then m k f g d (d1, ran, nets) next =
    let (d2, ran2, nets2) = next d1 nets.sound nets.shop in (d2, rw ran ran2, Nets-trans nets nets2)

pub Runs-for_each :
    {A : Type 0} (post : A → M (Unit {0})) (change : A → Account → Amount)
    → ((x : A) (d : Db) → IsSound d → Runs (post x) (change x) d)
    → (xs : List A) (d : Db) → IsSound d
    → Runs (for_each post xs) (total change xs) d
Runs-for_each post change step [] d sound = (d, refl, Nets-refl d sound)
Runs-for_each post change step (x ∷ xs) d sound =
    Runs-then (post x) (for_each post xs) (change x) (total change xs) d (step x d sound)
      λ d' sound' _. Runs-for_each post change step xs d' sound'

pub Posts-IsSound :
    {team for_team : ℕ} {bt : BalanceType} {amount : Amount} {before after : Db}
    → IsSound before
    → Posts team for_team bt amount before after
    → IsSound after
Posts-IsSound {before} {after} sound posts = record {
  ledger = posts.ledger;
  tracked = λ a b. (
    posts.pending _ ∙ rw posts.aside.payments ((sound.tracked a b).0),
    posts.pending _ ∙ rw posts.aside.payments ((sound.tracked a b).1),
  );
  payments_numbered = rw (posts.aside.payments, posts.aside.payment_seq) sound.payments_numbered;
}

module _ (team for_team : ℕ) (change_type : BalanceChangeType) (amount : Amount) (bt : BalanceType)
    (note : String) (created_by : ℕ) (now : Time) (src : List OrderSource) where
  pub Runs-post :
      (d : Db)
      → IsAcceptable team for_team change_type amount bt
      → IsSound d
      → Runs
          (post_balance_log team for_team change_type amount bt note created_by now src)
          (entry_change team for_team bt amount)
          d
  Runs-post d fine sound =
      let posts =
        after-Posts team for_team change_type amount bt note created_by now src d fine
          sound.ledger in
      (
        _,
        post_balance_log-calm team for_team change_type amount bt note created_by now src d fine
            sound.ledger,
        record {
          sound = Posts-IsSound sound posts;
          inbox = posts.aside.inbox;
          shop = posts.aside.shop;
          balances = λ j. posts.balances j ∙ +ℤ_assoc _ _ _;
        },
      )

  -- A row that is not degenerate is acceptable, and a degenerate one posts nothing.
  pub Runs-unless_degenerate :
      (bad : Bool) (d : Db)
      → (bad ≡ false → IsAcceptable team for_team change_type amount bt)
      → IsSound d
      → Runs
          (if bad
            then pure tt
            else post_balance_log team for_team change_type amount bt note created_by now src)
          (λ j. if bad then pos 0 else entry_change team for_team bt amount j)
          d
  Runs-unless_degenerate true d fine sound = (d, refl, Nets-refl d sound)
  Runs-unless_degenerate false d fine sound = Runs-post d (fine refl) sound

-- What the degeneracy test leaves is what the ledger accepts, in either direction.
pub fine_row :
    (a b : ℕ) (change_type : BalanceChangeType) (amount : Amount) (bt : BalanceType)
    → change_type ≢ change_unspecified
    → bt ≢ type_unspecified
    → is_degenerate a b amount ≡ false
    → IsAcceptable a b change_type amount bt × IsAcceptable b a change_type amount bt
fine_row a b change_type amount bt ct typed fine = ground arith
