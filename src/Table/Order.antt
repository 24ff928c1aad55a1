-- ===== src/Table/Order.antt =====
-- ORDER BY keeps the rows and sorts them, for a test that is asymmetric and whose negation is transitive.
use mathlib.Core.List.{Perm}
use mathlib.Core.List.Perm
use wachd.Base.{
  refl, any, not, ◌&&◌, ◌⊎◌, ◌∙◌, arith, if◌then◌else◌, Bool, true, false, List, [], ◌∷◌, ◌≡◌, All,
  Bool-cases, inl, inr,
}
use wachd.Table.{insert, order_by}

module _ {ℓ} {A : Type ℓ} (before : A → A → Bool) where
  -- No row of the list goes before one that stands in front of it.
  abbrev pub IsOrdered : List A → Type 0
  IsOrdered [] = Unit
  IsOrdered (x ∷ xs) = All (λ z. before z x ≡ false) xs × IsOrdered xs

  insert-perm : (x : A) (l : List A) → Perm (insert before x l) (x ∷ l)
  insert-perm x [] = Perm.rfl
  insert-perm x (y ∷ ys) = elim (Bool-cases (before y x)) [
    | inl b ↦ rw b (Perm.trans (Perm.cons y (insert-perm x ys)) (Perm.swap x y ys))
    | inr b ↦ rw b Perm.rfl
  ]

  pub order_by-perm : (l : List A) → Perm (order_by before l) l
  order_by-perm [] = Perm.rfl
  order_by-perm (x ∷ xs) =
      Perm.trans (insert-perm x (order_by before xs)) (Perm.cons x (order_by-perm xs))

  All-insert {κ} : (P : A → Type κ) (x : A) (l : List A) → P x → All P l → All P (insert before x l)
  All-insert P x [] h all = (h, tt)
  All-insert P x (y ∷ ys) h all = elim (Bool-cases (before y x)) [
    | inl b ↦ rw b (all.0, All-insert P x ys h all.1)
    | inr b ↦ rw b (h, all)
  ]

  pub All-order_by {κ} : (P : A → Type κ) (l : List A) → All P l → All P (order_by before l)
  All-order_by P [] all = tt
  All-order_by P (x ∷ xs) all = All-insert P x _ all.0 (All-order_by P xs all.1)

  any-insert : (p : A → Bool) (x : A) (l : List A) → any p (insert before x l) ≡ any p (x ∷ l)
  any-insert p x [] = refl
  any-insert p x (y ∷ ys) = elim (Bool-cases (before y x)) [
    | inl b ↦ rw b (ground (arith, any-insert p x ys))
    | inr b ↦ rw b
  ]

  pub any-order_by : (p : A → Bool) (l : List A) → any p (order_by before l) ≡ any p l
  any-order_by p [] = refl
  any-order_by p (x ∷ xs) = any-insert p x (order_by before xs) ∙ rw (any-order_by p xs)

  abbrev pub ties_with : A → A → Bool
  ties_with a z = not (before a z) && not (before z a)

  -- The rows of the list that tie with `a`, as they stand.
  abbrev pub ties : A → List A → List A
  ties a [] = []
  ties a (z ∷ zs) = let rest = ties a zs in if ties_with a z then z ∷ rest else rest

  module _ (asymm : (a b : A) → before a b ≡ true → before b a ≡ false)
      (weak : (a b c : A) → before a b ≡ false → before b c ≡ false → before a c ≡ false) where
    none_before :
        (x y : A) (l : List A)
        → before y x ≡ false
        → All (λ z. before z y ≡ false) l
        → All (λ z. before z x ≡ false) l
    none_before x y [] h all = tt
    none_before x y (z ∷ zs) h all = (weak z y x all.0 h, none_before x y zs h all.1)

    insert-IsOrdered : (x : A) (l : List A) → IsOrdered l → IsOrdered (insert before x l)
    insert-IsOrdered x [] o = (tt, tt)
    insert-IsOrdered x (y ∷ ys) o = elim (Bool-cases (before y x)) [
      | inl b ↦ rw b (All-insert _ x ys (asymm y x b) o.0, insert-IsOrdered x ys o.1)
      | inr b ↦ rw b ((b, none_before x y ys b o.0), o)
    ]

    pub order_by-IsOrdered : (l : List A) → IsOrdered (order_by before l)
    order_by-IsOrdered [] = tt
    order_by-IsOrdered (x ∷ xs) = insert-IsOrdered x _ (order_by-IsOrdered xs)

    -- Of a row that goes before another at most one ties with `a`.
    module _
        (apart : (a x y : A)
          → before y x ≡ true
          → (ties_with a x ≡ false) ⊎ (ties_with a y ≡ false)) where
      ties-insert : (a x : A) (l : List A) → ties a (insert before x l) ≡ ties a (x ∷ l)
      ties-insert a x [] = refl
      ties-insert a x (y ∷ ys) = elim (Bool-cases (before y x)) [
        | inl b ↦ rw b (ground (arith, apart a x y b, ties-insert a x ys))
        | inr b ↦ rw b
      ]

      pub ties-order_by : (a : A) (l : List A) → ties a (order_by before l) ≡ ties a l
      ties-order_by a [] = refl
      ties-order_by a (x ∷ xs) = ties-insert a x (order_by before xs) ∙ tail_eq (ties-order_by a xs)
        where
          tail_eq :
              ties a (order_by before xs) ≡ ties a xs
              → ties a (x ∷ order_by before xs) ≡ ties a (x ∷ xs)
          tail_eq e = rw e
