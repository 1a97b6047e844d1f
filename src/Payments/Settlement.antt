-- ===== src/Payments/Settlement.antt =====
-- What an accepted payment posts: the debt portion toward zero, the surplus as a credit.
use Prim.Native.Nat.{min}
use invoice_service.Prelude.{
  ℕ, suc, ◌-◌, ◌≡◌, refl, inl, inr, Bool, true, false, arith, if◌then◌else◌, Bool-cases,
}
use invoice_service.Prelude.Int.{ℤ, pos, negsuc, ◌+ℤ◌, ◌-ℤ◌, ◌≤ℤ◌, neg, ltb_ℤ, int_laws}
use invoice_service.Models.Enums.{Amount, BalanceType}
use invoice_service.Models.Ledger.{Account, same_account}
use invoice_service.Store.{Db, ok, calm}
use invoice_service.Ledger.{Entry, opposite_balance}
use invoice_service.Ledger.Accounts.{balance_of, pending_of, IsNumbered}
use invoice_service.Ledger.Frame.{Aside, Aside-refl}
use invoice_service.Ledger.DoubleEntry.{
  account, IsLedger, both_posted, post_double_entry-calm, both_posted-balance, both_posted-pending,
  both_posted-IsLedger, both_posted-Aside,
}
use invoice_service.Payments.{outstanding_of, settle_of, post_positive}

abbrev pub positive : Amount → Amount
positive x = if ltb_ℤ (pos 0) x then x else pos 0

module _ (team for_team : ℕ) (bt counter : BalanceType) (amount : Amount) (e : Entry) (d : Db)
    (opposite : opposite_balance bt ≡ ok counter) where
  abbrev pub posted_positive : Db
  posted_positive =
      if ltb_ℤ (pos 0) amount then both_posted team for_team bt counter amount e d else d

  pub post_positive-calm :
      post_positive team for_team bt amount e (calm d) ≡ (ok tt, calm posted_positive)
  post_positive-calm = elim (Bool-cases (ltb_ℤ (pos 0) amount)) [
    | inl t ↦ rw t (post_double_entry-calm team for_team bt counter amount e d opposite)
    | inr f ↦ rw f
  ]

  pub posted_positive-IsLedger : IsLedger d → IsLedger posted_positive
  posted_positive-IsLedger h = elim (Bool-cases (ltb_ℤ (pos 0) amount)) [
    | inl t ↦ rw t (both_posted-IsLedger team for_team bt counter amount e d opposite h)
    | inr f ↦ rw f h
  ]

  pub posted_positive-Aside : Aside d posted_positive
  posted_positive-Aside = elim (Bool-cases (ltb_ℤ (pos 0) amount)) [
    | inl t ↦ rw t (both_posted-Aside team for_team bt counter amount e d)
    | inr f ↦ rw f (Aside-refl d)
  ]

  nothing :
      (A B : Bool) (x : ℤ)
      → x ≡ x +ℤ (if A then pos 0 else pos 0) +ℤ (if B then neg (pos 0) else pos 0)
  nothing true true x = omega int_laws
  nothing true false x = omega int_laws
  nothing false true x = omega int_laws
  nothing false false x = omega int_laws

  pub posted_positive-balance :
      IsNumbered d
      → (j : Account)
      → balance_of j posted_positive.balances
        ≡ balance_of j d.balances
          +ℤ (if same_account (account team for_team bt) j then positive amount else pos 0)
          +ℤ (if same_account (account for_team team counter) j
              then neg (positive amount)
              else pos 0)
  posted_positive-balance numbered j = elim (Bool-cases (ltb_ℤ (pos 0) amount)) [
    | inl t ↦ rw t (both_posted-balance team for_team bt counter amount e d opposite numbered j)
    | inr f ↦ rw f (nothing _ _ (balance_of j d.balances))
  ]

  pub posted_positive-pending :
      IsNumbered d → (j : Account) → pending_of j posted_positive.balances ≡ pending_of j d.balances
  posted_positive-pending numbered j = elim (Bool-cases (ltb_ℤ (pos 0) amount)) [
    | inl t ↦ rw t (both_posted-pending team for_team bt counter amount e d opposite numbered j)
    | inr f ↦ rw f refl
  ]

-- What a payment of `amount` settles of a PAYABLE of `balance`, and the credit that it leaves.
abbrev pub settled_part : Amount → Amount → Amount
settled_part balance amount = positive (settle_of (outstanding_of balance) amount)

abbrev pub surplus_part : Amount → Amount → Amount
surplus_part balance amount = positive (amount -ℤ settle_of (outstanding_of balance) amount)

settle_owed : (b n : ℕ) → settle_of (outstanding_of (negsuc b)) (pos n) ≡ pos (min (suc b) n)
unfolding settle_of outstanding_of neg
settle_owed b n = ground arith

settle_credit : (b n : ℕ) → settle_of (outstanding_of (pos b)) (pos n) ≡ pos 0
unfolding settle_of outstanding_of neg
settle_credit b n = ground arith

positive_pos : (n : ℕ) → positive (pos n) ≡ pos n
positive_pos n = ground arith

pos_minus_min : (b n : ℕ) → pos n -ℤ pos (min (suc b) n) ≡ pos (n - suc b)
unfolding ◌-ℤ◌
pos_minus_min b n = ground arith

settled_owed : (b n : ℕ) → settled_part (negsuc b) (pos n) ≡ pos (min (suc b) n)
settled_owed b n = rw (settle_owed b n) (positive_pos (min (suc b) n))

surplus_owed : (b n : ℕ) → surplus_part (negsuc b) (pos n) ≡ pos (n - suc b)
surplus_owed b n = rw (settle_owed b n, pos_minus_min b n) (positive_pos (n - suc b))

settled_credit : (b n : ℕ) → settled_part (pos b) (pos n) ≡ pos 0
settled_credit b n = rw (settle_credit b n)

surplus_credit : (b n : ℕ) → surplus_part (pos b) (pos n) ≡ pos n
surplus_credit b n =
    rw (settle_credit b n, let e : pos n -ℤ pos 0 ≡ pos n = omega int_laws in e) (positive_pos n)

-- A positive payment is split with nothing lost; the settled part never takes a debt past zero; and
-- there is a credit only where no debt is left.
pub settlement_split :
    (balance amount : Amount)
    → pos 1 ≤ℤ amount
    → (settled_part balance amount +ℤ surplus_part balance amount ≡ amount)
      × (balance ≤ℤ pos 0 → balance +ℤ settled_part balance amount ≤ℤ pos 0)
      × (pos 1 ≤ℤ surplus_part balance amount → pos 0 ≤ℤ balance +ℤ settled_part balance amount)
settlement_split (pos b) (pos n) h =
    rw (settled_credit b n, surplus_credit b n)
      (omega int_laws, λ neg. omega int_laws, λ some_left. omega int_laws)
settlement_split (negsuc b) (pos n) h =
    rw (settled_owed b n, surplus_owed b n)
      (omega int_laws, λ neg. omega int_laws, λ some_left. omega int_laws)
settlement_split b (negsuc n) h = absurd (omega arith)
