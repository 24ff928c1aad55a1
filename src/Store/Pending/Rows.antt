-- ===== src/Store/Pending/Rows.antt =====
-- Lemmas on the rows of pending notifications.
use wachd.Base.{
  ℕ, Bool, true, false, not, ◌&&◌, ◌||◌, [], ◌∷◌, ◌++◌, any, take, zero, suc, ◌==◌, ◌≡◌, refl,
  arith, Bool-cases, inl, inr, ltb, ==_iff,
}
use wachd.Oncall.Types.{Uuid}
use wachd.Store.Pending.{
  PendingNotification, Pending, change_where, insert_by_schedule, due_first, is_due,
}

abbrev pub has_id : Uuid → PendingNotification → Bool
has_id id p = p.id == id

-- No two rows have the same id.
abbrev pub Distinct : Pending → Type 0
Distinct [] = Unit
Distinct (p ∷ rows) = (any (has_id p.id) rows ≡ false) × Distinct rows

any-insert_by_schedule :
    (test : PendingNotification → Bool) (x : PendingNotification) (rows : Pending)
    → any test (insert_by_schedule x rows) ≡ (test x || any test rows)
unfolding insert_by_schedule
any-insert_by_schedule test x [] = refl
any-insert_by_schedule test x (p ∷ rows) = elim (Bool-cases (ltb p.scheduled_at x.scheduled_at)) [
  | inl t ↦ rw (t, any-insert_by_schedule test x rows) (ground arith)
  | inr f ↦ rw f refl
]

insert_by_schedule-Distinct :
    (x : PendingNotification) (rows : Pending)
    → any (has_id x.id) rows ≡ false
    → Distinct rows
    → Distinct (insert_by_schedule x rows)
unfolding insert_by_schedule
insert_by_schedule-Distinct x [] new d = (refl, tt)
insert_by_schedule-Distinct x (p ∷ rows) new d =
    elim (Bool-cases (ltb p.scheduled_at x.scheduled_at)) [
      | inl t ↦ rw t (
        rw (any-insert_by_schedule (has_id p.id) x rows) (ground (arith, d.0)),
        insert_by_schedule-Distinct x rows (ground arith) d.1,
      )
      | inr f ↦ rw f (new, d)
    ]

-- What is due is listed, and due.
pub any-due_first :
    (now : ℕ) (locked test : PendingNotification → Bool) (rows : Pending)
    → any test (due_first now locked rows) ≡ true
    → any (λ p. test p && is_due now p) rows ≡ true
unfolding due_first
any-due_first now locked test [] e = e
any-due_first now locked test (p ∷ rows) e = elim (Bool-cases (is_due now p && not (locked p))) [
  | inl t ↦
      let split = rw (t, any-insert_by_schedule test p (due_first now locked rows)) at e in
      ground (arith, t, split, any-due_first now locked test rows)
  | inr f ↦ let later = any-due_first now locked test rows (rw f at e) in ground (arith, later)
]

any-due_first_new :
    (now : ℕ) (locked : PendingNotification → Bool) (id : Uuid) (rows : Pending)
    → any (has_id id) rows ≡ false
    → any (has_id id) (due_first now locked rows) ≡ false
unfolding due_first
any-due_first_new now locked id [] e = refl
any-due_first_new now locked id (p ∷ rows) e = elim (Bool-cases (is_due now p && not (locked p))) [
  | inl t ↦
      rw (t, any-insert_by_schedule (has_id id) p (due_first now locked rows))
        (ground (arith, any-due_first_new now locked id rows))
  | inr f ↦ rw f (any-due_first_new now locked id rows (ground arith))
]

pub due_first-Distinct :
    (now : ℕ) (locked : PendingNotification → Bool) (rows : Pending)
    → Distinct rows
    → Distinct (due_first now locked rows)
unfolding due_first
due_first-Distinct now locked [] d = tt
due_first-Distinct now locked (p ∷ rows) d = elim (Bool-cases (is_due now p && not (locked p))) [
  | inl t ↦ rw t (
      insert_by_schedule-Distinct p (due_first now locked rows)
        (any-due_first_new now locked p.id rows d.0) (due_first-Distinct now locked rows d.1))
  | inr f ↦ rw f (due_first-Distinct now locked rows d.1)
]

pub any-take :
    (test : PendingNotification → Bool) (n : ℕ) (rows : Pending)
    → any test (take n rows) ≡ true
    → any test rows ≡ true
any-take test zero rows e = ground arith
any-take test (suc n) [] e = e
any-take test (suc n) (p ∷ rows) e = ground (arith, any-take test n rows)

pub take-Distinct : (n : ℕ) (rows : Pending) → Distinct rows → Distinct (take n rows)
take-Distinct zero rows d = tt
take-Distinct (suc n) [] d = tt
take-Distinct (suc n) (p ∷ rows) d = (
  elim (Bool-cases (any (has_id p.id) (take n rows))) [
    | inl t ↦ absurd (ground (arith, any-take (has_id p.id) n rows t, d.0))
    | inr f ↦ f
  ],
  take-Distinct n rows d.1,
)

pub any-append :
    (test : PendingNotification → Bool) (rows more : Pending)
    → any test (rows ++ more) ≡ (any test rows || any test more)
any-append test [] more = refl
any-append test (p ∷ rows) more = ground (arith, any-append test rows more)

pub append-Distinct :
    (rows more : Pending)
    → Distinct rows
    → Distinct more
    → ((id : Uuid) → any (has_id id) rows ≡ true → any (has_id id) more ≡ false)
    → Distinct (rows ++ more)
append-Distinct [] more d e apart = e
append-Distinct (p ∷ rows) more d e apart = (
  rw (any-append (has_id p.id) rows more, d.0) (apart p.id (rw ((==_iff p.id p.id).1 refl) refl)),
  append-Distinct rows more d.1 e (λ id h. apart id (ground (arith, h))),
)

-- A test that a change cannot make true.
pub any-change_where :
    (test : PendingNotification → Bool) (change : PendingNotification → PendingNotification)
    (q : PendingNotification → Bool) (rows : Pending)
    → ((p : PendingNotification) → q (change p) ≡ true → q p ≡ true)
    → any q rows ≡ false
    → any q (change_where test change rows) ≡ false
unfolding change_where
any-change_where test change q [] keeps e = e
any-change_where test change q (p ∷ rows) keeps e = elim (Bool-cases (test p)) [
  | inl t ↦ rw t (ground (arith, keeps p, any-change_where test change q rows keeps))
  | inr f ↦ rw f (ground (arith, any-change_where test change q rows keeps))
]

pub any_id-change_where :
    (test : PendingNotification → Bool) (change : PendingNotification → PendingNotification)
    (id : Uuid) (rows : Pending)
    → ((p : PendingNotification) → (change p).id ≡ p.id)
    → any (has_id id) (change_where test change rows) ≡ any (has_id id) rows
unfolding change_where
any_id-change_where test change id [] keeps = refl
any_id-change_where test change id (p ∷ rows) keeps = elim (Bool-cases (test p)) [
  | inl t ↦ rw (t, keeps p, any_id-change_where test change id rows keeps) refl
  | inr f ↦ rw (f, any_id-change_where test change id rows keeps) refl
]

pub change_where-Distinct :
    (test : PendingNotification → Bool) (change : PendingNotification → PendingNotification)
    (rows : Pending)
    → ((p : PendingNotification) → (change p).id ≡ p.id)
    → Distinct rows
    → Distinct (change_where test change rows)
unfolding change_where
change_where-Distinct test change [] keeps d = tt
change_where-Distinct test change (p ∷ rows) keeps d = elim (Bool-cases (test p)) [
  | inl t ↦
      rw (t, keeps p, any_id-change_where test change p.id rows keeps)
        (d.0, change_where-Distinct test change rows keeps d.1)
  | inr f ↦
      rw (f, any_id-change_where test change p.id rows keeps)
        (d.0, change_where-Distinct test change rows keeps d.1)
]

pub any_implies :
    (q r : PendingNotification → Bool) (rows : Pending)
    → ((p : PendingNotification) → q p ≡ true → r p ≡ true)
    → any q rows ≡ true
    → any r rows ≡ true
any_implies q r [] h e = e
any_implies q r (p ∷ rows) h e = ground (arith, h p, any_implies q r rows h)
