-- ===== src/Table/Member.antt =====
-- The rows of a list, of a selection and of a sorted list.
use wachd.Base.{
  Bool, true, List, [], ◌∷◌, ◌++◌, All, ◌≡◌, ◌⊎◌, inl, inr, refl, Bool-cases, ap, sym, ◌∙◌, subst,
  false, any, arith,
}
use wachd.Table.{select, flat_map, insert, order_by, delete}

module _ {A : Type 0} where
  -- The value is one of the rows.
  abbrev pub IsRow : A → List A → Type 0
  IsRow x [] = ⊥
  IsRow x (y ∷ l) = (x ≡ y) ⊎ IsRow x l

  pub All-IsRow {κ} : (P : A → Type κ) (l : List A) (x : A) → All P l → IsRow x l → P x
  All-IsRow P [] x all h = elim h [ ]
  All-IsRow P (y ∷ l) x all (inl e) = subst P (sym e) all.0
  All-IsRow P (y ∷ l) x all (inr h) = All-IsRow P l x all.1 h

  rows_of_tail : (y : A) (l k : List A) → All (λ x. IsRow x l) k → All (λ x. IsRow x (y ∷ l)) k
  rows_of_tail y l [] all = tt
  rows_of_tail y l (x ∷ k) all = (inr all.0, rows_of_tail y l k all.1)

  pub IsRow-self : (l : List A) → All (λ x. IsRow x l) l
  IsRow-self [] = tt
  IsRow-self (y ∷ l) = (inl refl, rows_of_tail y l l (IsRow-self l))

  pub IsRow-left : (x : A) (l k : List A) → IsRow x l → IsRow x (l ++ k)
  IsRow-left x [] k h = elim h [ ]
  IsRow-left x (y ∷ l) k (inl e) = inl e
  IsRow-left x (y ∷ l) k (inr h) = inr (IsRow-left x l k h)

  pub IsRow-right : (x : A) (l k : List A) → IsRow x k → IsRow x (l ++ k)
  IsRow-right x [] k h = h
  IsRow-right x (y ∷ l) k h = inr (IsRow-right x l k h)

  pub IsRow-select :
      (test : A → Bool) (l : List A) (x : A) → test x ≡ true → IsRow x l → IsRow x (select test l)
  IsRow-select test [] x t h = h
  IsRow-select test (y ∷ l) x t (inl e) = rw (sym (ap test e) ∙ t) (inl e)
  IsRow-select test (y ∷ l) x t (inr h) = elim (Bool-cases (test y)) [
    | inl b ↦ rw b (inr (IsRow-select test l x t h))
    | inr b ↦ rw b (IsRow-select test l x t h)
  ]

  pub IsRow-delete :
      (test : A → Bool) (l : List A) (x : A) → test x ≡ false → IsRow x l → IsRow x (delete test l)
  IsRow-delete test [] x t h = h
  IsRow-delete test (y ∷ l) x t (inl e) = rw (sym (ap test e) ∙ t) (inl e)
  IsRow-delete test (y ∷ l) x t (inr h) = elim (Bool-cases (test y)) [
    | inl b ↦ rw b (IsRow-delete test l x t h)
    | inr b ↦ rw b (inr (IsRow-delete test l x t h))
  ]

  pub All-select_rows {κ} :
      (P : A → Type κ) (test : A → Bool) (l : List A) → All P l → All P (select test l)
  All-select_rows P test [] all = tt
  All-select_rows P test (y ∷ l) all = elim (Bool-cases (test y)) [
    | inl b ↦ rw b (all.0, All-select_rows P test l all.1)
    | inr b ↦ rw b (All-select_rows P test l all.1)
  ]

  pub any-tail : (p : A → Bool) (y : A) (l : List A) → any p l ≡ true → any p (y ∷ l) ≡ true
  any-tail p y l h = ground arith

  pub any-row : (p : A → Bool) (l : List A) (x : A) → p x ≡ true → IsRow x l → any p l ≡ true
  any-row p [] x t h = elim h [ ]
  any-row p (y ∷ l) x t (inl e) = rw (sym (ap p e) ∙ t) refl
  any-row p (y ∷ l) x t (inr h) = any-tail p y l (any-row p l x t h)

  pub any-select :
      (p test : A → Bool) (l : List A)
      → ((x : A) → p x ≡ true → test x ≡ true)
      → any p l ≡ true
      → any p (select test l) ≡ true
  any-select p test [] covers h = h
  any-select p test (y ∷ l) covers h = elim (Bool-cases (test y)) [
    | inl b ↦ rw b (ground (arith, any-select p test l covers))
    | inr b ↦ rw b (any-select p test l covers (ground (arith, covers y)))
  ]

  module _ (before : A → A → Bool) where
    IsRow-insert_self : (y : A) (l : List A) → IsRow y (insert before y l)
    IsRow-insert_self y [] = inl refl
    IsRow-insert_self y (z ∷ l) = elim (Bool-cases (before z y)) [
      | inl b ↦ rw b (inr (IsRow-insert_self y l))
      | inr b ↦ rw b (inl refl)
    ]

    IsRow-insert : (y : A) (l : List A) (x : A) → IsRow x l → IsRow x (insert before y l)
    IsRow-insert y [] x h = inr h
    IsRow-insert y (z ∷ l) x h = elim (Bool-cases (before z y)) [
      | inr b ↦ rw b (inr h)
      | inl b ↦ rw b (elim h [ inl e ↦ inl e | inr k ↦ inr (IsRow-insert y l x k) ])
    ]

    pub IsRow-order_by : (l : List A) (x : A) → IsRow x l → IsRow x (order_by before l)
    IsRow-order_by [] x h = h
    IsRow-order_by (y ∷ l) x (inl e) =
        subst (λ z. IsRow z (insert before y (order_by before l))) (sym e)
          (IsRow-insert_self y (order_by before l))
    IsRow-order_by (y ∷ l) x (inr h) = IsRow-insert y (order_by before l) x (IsRow-order_by l x h)

pub IsRow-flat_map :
    {A B : Type 0} (f : B → List A) (l : List B) (b : B) (x : A)
    → IsRow b l
    → IsRow x (f b)
    → IsRow x (flat_map f l)
IsRow-flat_map f [] b x h r = elim h [ ]
IsRow-flat_map f (c ∷ l) b x (inl e) r = IsRow-left x (f c) _ (subst (λ d. IsRow x (f d)) e r)
IsRow-flat_map f (c ∷ l) b x (inr h) r = IsRow-right x (f c) _ (IsRow-flat_map f l b x h r)
