-- ===== src/Prelude/Groups.antt =====
-- GROUP BY: the keys of the rows, each once, and sums over the groups.
use invoice_service.Prelude.Tests.{if◌then◌else◌, Bool-cases}
use invoice_service.Prelude.Int.{ℤ, pos, ◌+ℤ◌, int_laws, zero_+ℤ, +ℤ_zero}
use invoice_service.Prelude.Rows.{filter_rows, sum_where}
use invoice_service.Prelude.Every.{Every, Every-mono, Every-all}
use mathlib.Core.Path.{◌≡◌, ◌∙◌, refl, sym, ap, subst}
use mathlib.Core.Logic.{◌↔◌, inl, inr}
use mathlib.Core.Bool.{Bool, true, false, not, ◌&&◌, ◌||◌}
use mathlib.Core.List.{List, [], ◌∷◌}
use native.Mathlib.Omega.{arith}

-- The groups in the order of their first rows.
unfoldable pub keys_of : {A K : Type 0} → (K → K → Bool) → (A → K) → List A → List K
keys_of same key [] = []
keys_of same key (r ∷ rs) = key r ∷ filter_rows (λ k. not (same (key r) k)) (keys_of same key rs)

rearranged :
    (u w : Bool) (x g s t : ℤ)
    → (if w then (if u then x else pos 0) +ℤ g else pos 0) +ℤ (s +ℤ t)
      ≡ (if u && w then x else pos 0) +ℤ s +ℤ ((if w then g else pos 0) +ℤ t)
rearranged true true x g s t = omega int_laws
rearranged true false x g s t = omega int_laws
rearranged false true x g s t = omega int_laws
rearranged false false x g s t = omega int_laws

parted :
    (p q : Bool) (x s t : ℤ)
    → p && q ≡ false
    → (if p then x else pos 0) +ℤ s +ℤ ((if q then x else pos 0) +ℤ t)
      ≡ (if p || q then x else pos 0) +ℤ (s +ℤ t)
parted true true x s t h = cc
parted true false x s t h = omega int_laws
parted false true x s t h = omega int_laws
parted false false x s t h = omega int_laws

module _ {A : Type 0} where
  pub sum_where-cong :
      (p q : A → Bool) (f : A → ℤ) (rs : List A)
      → ((r : A) → p r ≡ q r)
      → sum_where p f rs ≡ sum_where q f rs
  unfolding sum_where
  sum_where-cong p q f [] h = refl
  sum_where-cong p q f (r ∷ rs) h = rw (h r, sum_where-cong p q f rs h) refl

  pub sum_where-same :
      (p : A → Bool) (f g : A → ℤ) (rs : List A)
      → ((r : A) → f r ≡ g r)
      → sum_where p f rs ≡ sum_where p g rs
  unfolding sum_where
  sum_where-same p f g [] h = refl
  sum_where-same p f g (r ∷ rs) h = rw (h r, sum_where-same p f g rs h) refl

  -- Two sums over rows that no test shares are one sum.
  pub sum_where-split :
      (p q u : A → Bool) (f : A → ℤ) (rs : List A)
      → ((r : A) → u r ≡ p r || q r)
      → ((r : A) → p r && q r ≡ false)
      → sum_where p f rs +ℤ sum_where q f rs ≡ sum_where u f rs
  unfolding sum_where
  sum_where-split p q u f [] either apart = zero_+ℤ _
  sum_where-split p q u f (r ∷ rs) either apart = rw (either r) (
      parted (p r) (q r) (f r) (sum_where p f rs) (sum_where q f rs) (apart r)
      ∙ ap (λ (t : ℤ). (if p r || q r then f r else pos 0) +ℤ t)
          (sum_where-split p q u f rs either apart))

  pub sum_where-none :
      (p : A → Bool) (f : A → ℤ) (rs : List A)
      → Every (λ r. p r ≡ false) rs
      → sum_where p f rs ≡ pos 0
  unfolding sum_where
  sum_where-none p f [] h = refl
  sum_where-none p f (r ∷ rs) h = rw (h.0, sum_where-none p f rs h.1) (zero_+ℤ _)

  pub sum_where-filter_rows :
      (p q : A → Bool) (f : A → ℤ) (rs : List A)
      → sum_where q f (filter_rows p rs) ≡ sum_where (λ r. p r && q r) f rs
  unfolding sum_where filter_rows
  sum_where-filter_rows p q f [] = refl
  sum_where-filter_rows p q f (r ∷ rs) = elim (Bool-cases (p r)) [
    | inl t ↦ rw (t, sum_where-filter_rows p q f rs) refl
    | inr e ↦ rw (e, sum_where-filter_rows p q f rs) (sym (zero_+ℤ _))
  ]

  zero_terms : (p : A → Bool) (rs : List A) → sum_where p (λ r. pos 0) rs ≡ pos 0
  unfolding sum_where
  zero_terms p [] = refl
  zero_terms p (r ∷ rs) = elim (Bool-cases (p r)) [
    | inl t ↦ rw (t, zero_terms p rs) (zero_+ℤ _)
    | inr e ↦ rw (e, zero_terms p rs) (zero_+ℤ _)
  ]

  sum_where-add :
      (u w : A → Bool) (x : ℤ) (g : A → ℤ) (rs : List A)
      → sum_where w (λ r. (if u r then x else pos 0) +ℤ g r) rs
        ≡ sum_where (λ r. u r && w r) (λ r. x) rs +ℤ sum_where w g rs
  unfolding sum_where
  sum_where-add u w x g [] = sym (zero_+ℤ _)
  sum_where-add u w x g (r ∷ rs) =
      ap (λ (t : ℤ). (if w r then (if u r then x else pos 0) +ℤ g r else pos 0) +ℤ t)
        (sum_where-add u w x g rs)
      ∙ rearranged (u r) (w r) x (g r) _ _

module _ {K : Type 0} (same : K → K → Bool) where
  -- The key `c` stands in the list once.
  abbrev pub IsCounted : List K → K → Type 0
  IsCounted ks c =
      (w : K → Bool) (x : ℤ)
      → sum_where (λ k. same c k && w k) (λ k. x) ks ≡ (if w c then x else pos 0)

  -- A sum over the groups is a sum over the rows.
  pub sum_groups :
      {A : Type 0} (key : A → K) (w : K → Bool) (f : A → ℤ) (ks : List K) (rs : List A)
      → Every (λ r. IsCounted ks (key r)) rs
      → sum_where w (λ k. sum_where (λ r. same (key r) k) f rs) ks ≡ sum_where (λ r. w (key r)) f rs
  unfolding sum_where
  sum_groups key w f ks [] counted = zero_terms w ks
  sum_groups key w f ks (r ∷ rs) counted =
      sum_where-add (same (key r)) w (f r) (λ k. sum_where (λ r. same (key r) k) f rs) ks
      ∙ rw (counted.0 w (f r), sum_groups key w f ks rs counted.1) refl

  module _ (same_iff : (a b : K) → (same a b ≡ true) ↔ (a ≡ b)) where
    and_false : (u : Bool) → u && false ≡ false
    and_false u = ground arith

    dropped : (u v : Bool) → not u && (u && v) ≡ false
    dropped u v = ground arith

    others_lack :
        (c : K) (w : K → Bool) (x : ℤ) (ks : List K)
        → sum_where (λ k. same c k && w k) (λ k. x) (filter_rows (λ k. not (same c k)) ks) ≡ pos 0
    others_lack c w x ks =
        sum_where-filter_rows (λ k. not (same c k)) (λ k. same c k && w k) (λ k. x) ks
        ∙ sum_where-none _ (λ k. x) ks (Every-all _ ks (λ k. dropped (same c k) (w k)))

    first-IsCounted : (c : K) (ks : List K) → IsCounted (c ∷ filter_rows (λ k. not (same c k)) ks) c
    unfolding sum_where
    first-IsCounted c ks w x = rw ((same_iff c c).1 refl, others_lack c w x ks) (+ℤ_zero _)

    kept :
        (c first : K)
        → same c first ≡ false
        → (k : K) (v : Bool) → not (same first k) && (same c k && v) ≡ same c k && v
    kept c first differ k v = elim (Bool-cases (same first k)) [
      | inl t ↦ rw (sym ((same_iff first k).0 t), differ) (and_false (not (same first first)))
      | inr e ↦ rw e refl
    ]

    later-IsCounted :
        (c first : K) (ks : List K)
        → IsCounted ks c
        → IsCounted (first ∷ filter_rows (λ k. not (same first k)) ks) c
    unfolding sum_where
    later-IsCounted c first ks counted w x = elim (Bool-cases (same c first)) [
      | inl t ↦
          subst (λ (j : K). IsCounted (j ∷ filter_rows (λ k. not (same j k)) ks) c)
            ((same_iff c first).0 t) (first-IsCounted c ks) w x
      | inr e ↦
          rw
            (
              e,
              sum_where-filter_rows (λ k. not (same first k)) (λ k. same c k && w k) (λ k. x) ks,
              sum_where-cong _ (λ k. same c k && w k) (λ k. x) ks (λ k. kept c first e k (w k)),
              counted w x,
            )
            (zero_+ℤ _)
    ]

    pub keys_of-IsCounted :
        {A : Type 0} (key : A → K) (rs : List A)
        → Every (λ r. IsCounted (keys_of same key rs) (key r)) rs
    unfolding keys_of
    keys_of-IsCounted key [] = tt
    keys_of-IsCounted key (r ∷ rs) = (
      first-IsCounted (key r) (keys_of same key rs),
      Every-mono _ _ rs (λ x. later-IsCounted (key x) (key r) (keys_of same key rs))
          (keys_of-IsCounted key rs),
    )
