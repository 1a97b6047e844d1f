-- ===== src/Ledger/Book.antt =====
-- The promise of `CreateBalanceLog`, as an abstract book: the amount of each account, to which the
-- acknowledged requests are posted. Nothing else of the tables is seen.
use mathlib.Core.List.{Permᴰ}
use invoice_service.Prelude.{
  ℕ, ◌≡◌, ◌∙◌, refl, sym, ap, inl, inr, Option, List, [], ◌∷◌, if◌then◌else◌,
}
use invoice_service.Prelude.Int.{ℤ, pos, ◌+ℤ◌, neg, int_laws}
use invoice_service.Models.Enums.{Time, Amount}
use invoice_service.Models.Ledger.{Account, same_account}
use invoice_service.Store.{Db, Session, Result, ok, err}
use invoice_service.Ledger.{CreateBalanceLogRequest, create_balance_log}
use invoice_service.Ledger.Accounts.{balance_of}
use invoice_service.Ledger.DoubleEntry.{account, IsLedger}
use invoice_service.Ledger.Requests.{mirror_type, create_balance_log_all_or_nothing}

abbrev pub Book : Type 0
Book = Account → Amount

abbrev pub book_of : Db → Book
book_of d j = balance_of j d.balances

-- A request posts its amount to its account and the negation to the mirrored one.
abbrev pub post_book : CreateBalanceLogRequest → Book → Book
post_book pay b j =
    b j
    +ℤ (if same_account (account pay.team_id pay.for_team_id pay.balance_type) j
        then pay.change_amount
        else pos 0)
    +ℤ (if same_account (account pay.for_team_id pay.team_id (mirror_type pay.balance_type)) j
        then neg pay.change_amount
        else pos 0)

unfoldable pub book_after : List CreateBalanceLogRequest → Book → Book
book_after [] b = b
book_after (pay ∷ pays) b = book_after pays (post_book pay b)

-- A call of the handler, with the statements that the environment lets succeed.
pub record Call : Type 0 where
  pub caller : Option ℕ
  pub now : Time
  pub pay : CreateBalanceLogRequest
  pub fuse : Option ℕ

abbrev pub answer : Call → Db → Result Unit × Session
answer c d = create_balance_log c.caller c.now c.pay (record { db = d; fuse = c.fuse })

abbrev pub if_acknowledged :
    Result Unit
    → CreateBalanceLogRequest
    → List CreateBalanceLogRequest
    → List CreateBalanceLogRequest
if_acknowledged (ok done) pay pays = pay ∷ pays
if_acknowledged (err e) pay pays = pays

-- The calls one after the other: the requests that were answered without an error, and the tables.
unfoldable pub run_calls : List Call → Db → List CreateBalanceLogRequest × Db
run_calls [] d = ([], d)
run_calls (c ∷ cs) d =
    let (r, s) = answer c d in
    let (pays, after) = run_calls cs s.db in (if_acknowledged r c.pay pays, after)

-- Whatever calls come and whichever of their statements fail, the tables afterwards keep the
-- invariant of the ledger, and the balance of every account is what the acknowledged requests, in
-- their order, post to the abstract book of the balances before.
pub run_calls-refines :
    (cs : List Call) (d : Db)
    → IsLedger d
    → IsLedger (run_calls cs d).1
      × (book_of (run_calls cs d).1 ≡ book_after (run_calls cs d).0 (book_of d))
unfolding run_calls book_after
run_calls-refines [] d ledger = (ledger, refl)
run_calls-refines (c ∷ cs) d ledger =
    elim (create_balance_log_all_or_nothing c.now c.pay c.caller (record { db = d; fuse = c.fuse })
      ledger) [
        | inl (e, failed, same) ↦ rw (failed, same) (run_calls-refines cs d ledger)
        | inr (done, acknowledged, logged) ↦
            let (after, book) = run_calls-refines cs (answer c d).1.db logged.posts.ledger in
            rw acknowledged (
              after,
              book
                  ∙ ap (book_after (run_calls cs (answer c d).1.db).0)
                      (λ i j. logged.posts.balances j i),
            )
      ]

swapped : (x a b p q : ℤ) → x +ℤ a +ℤ b +ℤ p +ℤ q ≡ x +ℤ p +ℤ q +ℤ a +ℤ b
swapped x a b p q = omega int_laws

post_book-swap :
    (x y : CreateBalanceLogRequest) (b : Book)
    → post_book x (post_book y b) ≡ post_book y (post_book x b)
post_book-swap x y b i j = pointwise j i
  where
    pointwise : (k : Account) → post_book x (post_book y b) k ≡ post_book y (post_book x b) k
    pointwise k = swapped (b k) _ _ _ _

book_after-order :
    {pays others : List CreateBalanceLogRequest}
    → Permᴰ pays others
    → (b : Book) → book_after pays b ≡ book_after others b
unfolding book_after
book_after-order Permᴰ.nil b = refl
book_after-order (Permᴰ.cons {b = other} {l₁ = pays} e p) b =
    ap (λ (pay : CreateBalanceLogRequest). book_after pays (post_book pay b)) e
    ∙ book_after-order p (post_book other b)
book_after-order (Permᴰ.swap {b = y} {a' = z} {b' = w} {l = pays} e f) b =
    ap (λ (pay : CreateBalanceLogRequest). book_after pays (post_book y (post_book pay b))) e
    ∙ ap (λ (pay : CreateBalanceLogRequest). book_after pays (post_book pay (post_book w b))) f
    ∙ ap (book_after pays) (post_book-swap z w b)
book_after-order (Permᴰ.trans p q) b = book_after-order p b ∙ book_after-order q b

-- Two histories of calls from one state, whose statements may fail, leave the same balances whenever
-- the requests that they acknowledged are the same up to their order.
pub run_calls-order :
    (cs others : List Call) (d : Db)
    → IsLedger d
    → Permᴰ (run_calls cs d).0 (run_calls others d).0
    → (j : Account)
    → balance_of j (run_calls cs d).1.balances ≡ balance_of j (run_calls others d).1.balances
run_calls-order cs others d ledger same j =
    ap (λ (b : Book). b j)
      ((run_calls-refines cs d ledger).1
        ∙ book_after-order same (book_of d)
        ∙ sym (run_calls-refines others d ledger).1)
