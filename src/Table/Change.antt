-- ===== src/Table/Change.antt =====
-- What UPDATE, DELETE and SELECT leave of a table.
use wachd.Base.{
  subst, sym, Bool, true, false, List, [], ◌∷◌, ◌++◌, none, some, ◌≡◌, refl, arith, All, any,
  Bool-cases, inl, inr,
}
use wachd.Table.{first_row, select, update, delete}

module _ {ℓ} {A : Type ℓ} where
  pub All-map {κ μ} :
      {P : A → Type κ} {Q : A → Type μ} (l : List A) → ((x : A) → P x → Q x) → All P l → All Q l
  All-map [] f all = tt
  All-map (x ∷ xs) f all = (f x all.0, All-map xs f all.1)

  pub All-append {κ} : (P : A → Type κ) (xs ys : List A) → All P xs → All P ys → All P (xs ++ ys)
  All-append P [] ys all more = more
  All-append P (x ∷ xs) ys all more = (all.0, All-append P xs ys all.1 more)

  pub All-select {κ} :
      {P : A → Type κ} (test : A → Bool) (l : List A)
      → ((x : A) → test x ≡ true → P x)
      → All P (select test l)
  All-select test [] f = tt
  All-select test (x ∷ xs) f = elim (Bool-cases (test x)) [
    | inl b ↦ rw b (f x b, All-select test xs f)
    | inr b ↦ rw b (All-select test xs f)
  ]

  -- A deletion keeps what it does not meet.
  pub All-delete {κ μ} :
      {P : A → Type κ} {Q : A → Type μ} (test : A → Bool) (l : List A)
      → ((x : A) → test x ≡ false → P x → Q x)
      → All P l
      → All Q (delete test l)
  All-delete test [] f all = tt
  All-delete test (x ∷ xs) f all = elim (Bool-cases (test x)) [
    | inl b ↦ rw b (All-delete test xs f all.1)
    | inr b ↦ rw b (f x b all.0, All-delete test xs f all.1)
  ]

  pub All-update {κ μ} :
      {P : A → Type κ} {Q : A → Type μ} (test : A → Bool) (change : A → A) (l : List A)
      → ((x : A) → P x → Q x)
      → ((x : A) → P x → Q (change x))
      → All P l
      → All Q (update test change l)
  All-update test change [] f g all = tt
  All-update test change (x ∷ xs) f g all = elim (Bool-cases (test x)) [
    | inl b ↦ rw b (g x all.0, All-update test change xs f g all.1)
    | inr b ↦ rw b (f x all.0, All-update test change xs f g all.1)
  ]

  pub first_row-none :
      (test : A → Bool) (l : List A) → first_row test l ≡ none → All (λ x. test x ≡ false) l
  first_row-none test [] e = tt
  first_row-none test (x ∷ xs) e = elim (Bool-cases (test x)) [
    | inl b ↦ ground (arith, b, e)
    | inr b ↦ (b, first_row-none test xs (ground (arith, b, e)))
  ]

  pub first_row-some :
      (test : A → Bool) (l : List A) {r : A} → first_row test l ≡ some r → test r ≡ true
  first_row-some test [] e = cc
  first_row-some test (x ∷ xs) e = elim (Bool-cases (test x)) [
    | inl b ↦ ground (arith, b, e)
    | inr b ↦ first_row-some test xs (ground (arith, b, e))
  ]

  -- A change that a test does not see.
  pub any-update :
      (p test : A → Bool) (change : A → A) (l : List A)
      → ((x : A) → p (change x) ≡ p x)
      → any p (update test change l) ≡ any p l
  any-update p test change [] f = refl
  any-update p test change (x ∷ xs) f = elim (Bool-cases (test x)) [
    | inl b ↦ rw b (ground (arith, f x, any-update p test change xs f))
    | inr b ↦ rw b (ground (arith, any-update p test change xs f))
  ]

  -- A change that keeps a test true.
  pub any-update_keeps :
      (p test : A → Bool) (change : A → A) (l : List A)
      → ((x : A) → test x ≡ true → p x ≡ true → p (change x) ≡ true)
      → any p l ≡ true
      → any p (update test change l) ≡ true
  any-update_keeps p test change [] f h = h
  any-update_keeps p test change (x ∷ xs) f h = elim (Bool-cases (test x)) [
    | inl b ↦ rw b (elim (Bool-cases (p x)) [
      | inl q ↦ ground (arith, f x b q)
      | inr q ↦ ground (arith, any-update_keeps p test change xs f (ground (arith, q, h)))
    ])
    | inr b ↦ rw b (elim (Bool-cases (p x)) [
      | inl q ↦ ground (arith, q)
      | inr q ↦ ground (arith, any-update_keeps p test change xs f (ground (arith, q, h)))
    ])
  ]

  pub any-delete :
      (p test : A → Bool) (l : List A)
      → ((x : A) → p x ≡ true → test x ≡ false)
      → any p l ≡ true
      → any p (delete test l) ≡ true
  any-delete p test [] f h = h
  any-delete p test (x ∷ xs) f h = elim (Bool-cases (p x)) [
    | inl q ↦ rw (f x q) (ground (arith, q))
    | inr q ↦ elim (Bool-cases (test x)) [
      | inl b ↦ rw b (any-delete p test xs f (ground (arith, q, h)))
      | inr b ↦ rw b (ground (arith, any-delete p test xs f (ground (arith, q, h))))
    ]
  ]

  -- A SELECT of rows that a change and a deletion do not meet.
  pub select-update :
      (p test : A → Bool) (change : A → A) (l : List A)
      → ((x : A) → test x ≡ true → (p x ≡ false) × (p (change x) ≡ false))
      → select p (update test change l) ≡ select p l
  select-update p test change [] f = refl
  select-update p test change (x ∷ xs) f = elim (Bool-cases (test x)) [
    | inl b ↦ rw (b, (f x b).0, (f x b).1) (select-update p test change xs f)
    | inr b ↦ rw (b, select-update p test change xs f)
  ]

  pub select-delete :
      (p test : A → Bool) (l : List A)
      → ((x : A) → test x ≡ true → p x ≡ false)
      → select p (delete test l) ≡ select p l
  select-delete p test [] f = refl
  select-delete p test (x ∷ xs) f = elim (Bool-cases (test x)) [
    | inl b ↦ rw (b, f x b) (select-delete p test xs f)
    | inr b ↦ rw (b, select-delete p test xs f)
  ]

  pub select-append :
      (p : A → Bool) (l : List A) (x : A) → p x ≡ false → select p (l ++ x ∷ []) ≡ select p l
  select-append p [] x h = rw h
  select-append p (y ∷ l) x h = rw (select-append p l x h)

  -- The row that a SELECT finds is in the table.
  pub first_row-any :
      (test p : A → Bool) (l : List A) (r : A)
      → first_row test l ≡ some r
      → p r ≡ true
      → any p l ≡ true
  first_row-any test p [] r e h = cc
  first_row-any test p (x ∷ xs) r e h = elim (Bool-cases (test x)) [
    | inl b ↦ ground (arith, subst (λ y. p y ≡ true) (sym (same b)) h)
    | inr b ↦ ground (arith, first_row-any test p xs r (ground (arith, b, e)) h)
  ]
    where
      same : test x ≡ true → x ≡ r
      same b = ground (arith, b, e)

  -- A change that makes a test true.
  pub any-update_makes :
      (p test : A → Bool) (change : A → A) (l : List A)
      → ((x : A) → test x ≡ true → p (change x) ≡ true)
      → any test l ≡ true
      → any p (update test change l) ≡ true
  any-update_makes p test change [] f h = h
  any-update_makes p test change (x ∷ xs) f h = elim (Bool-cases (test x)) [
    | inl b ↦ rw b (ground (arith, f x b))
    | inr b ↦ rw b (ground (arith, any-update_makes p test change xs f (ground (arith, b, h))))
  ]
