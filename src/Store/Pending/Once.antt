-- ===== src/Store/Pending/Once.antt =====
-- Workers, acknowledgements and new alerts on the table of pending notifications, in any order: what each
-- statement does, with everything that was claimed so far.
use wachd.Base.{
  ◌⊎◌, ℕ, Bool, true, false, ◌&&◌, [], ◌∷◌, ◌++◌, any, take, ◌==◌, ◌≡◌, refl, arith, Bool-cases,
  inl, inr, some, ==_iff, none,
}
use wachd.Oncall.Types.{Uuid}
use wachd.Store.Pending.{
  PendingNotification, Pending, change_where, due_first, is_due, is_waiting, sent,
  queue_pending_notification, mark_pending_notification_sent, cancel_pending_notifications,
  get_due_pending_notifications,
}
use wachd.Store.Pending.Rows.{
  has_id, Distinct, any-due_first, due_first-Distinct, any-take, take-Distinct, append-Distinct,
  any-change_where, any-append, any_id-change_where, change_where-Distinct, any_implies,
}

pub record Claims : Type 0 where
  pub rows : Pending
  pub claimed : Pending

-- The table's primary key keeps a new row's id new.
pub data Step (s : Claims) : Claims → Type 0 where
  queue :
      (new_id : Uuid) (p : PendingNotification)
      → any (has_id new_id) s.rows ≡ false
      → Step s (record s { rows = queue_pending_notification new_id p s.rows })
  claim :
      (now : ℕ) (locked : PendingNotification → Bool)
      → Step s (record {
        rows = (get_due_pending_notifications now locked s.rows).1;
        claimed = (get_due_pending_notifications now locked s.rows).0 ++ s.claimed;
      })
  mark :
      (now : ℕ) (id : Uuid)
      → Step s (record s { rows = mark_pending_notification_sent now id s.rows })
  cancel :
      (now : ℕ) (incident_id : Uuid)
      → Step s (record s { rows = cancel_pending_notifications now incident_id s.rows })

pub data Reach (s : Claims) : Claims → Type 0 where
  here : Reach s s
  next : {t u : Claims} → Reach s t → Step t u → Reach s u

abbrev waits_as : Uuid → PendingNotification → Bool
waits_as id p = has_id id p && is_waiting p

-- What was claimed is in the table and waits no longer.
record IsSettled (s : Claims) : Type 0 where
  keyed : Distinct s.rows
  once : Distinct s.claimed
  listed : (id : Uuid) → any (has_id id) s.claimed ≡ true → any (has_id id) s.rows ≡ true
  settled : (id : Uuid) → any (has_id id) s.claimed ≡ true → any (waits_as id) s.rows ≡ false

-- A change that leaves the ids alone, and makes nothing wait.
change-IsSettled :
    (s : Claims) (test : PendingNotification → Bool)
    (change : PendingNotification → PendingNotification)
    → ((p : PendingNotification) → (change p).id ≡ p.id)
    → ((p : PendingNotification) → is_waiting (change p) ≡ true → is_waiting p ≡ true)
    → IsSettled s
    → IsSettled (record s { rows = change_where test change s.rows })
change-IsSettled s test change keeps calms c = record {
  keyed = change_where-Distinct test change s.rows keeps c.keyed;
  once = c.once;
  listed = λ id h. rw (any_id-change_where test change id s.rows keeps) (c.listed id h);
  settled = λ id h.
      any-change_where test change (waits_as id) s.rows
        (λ p. rw (keeps p) (ground (arith, calms p))) (c.settled id h);
}

claimed_settled :
    (now : ℕ) (claimed rows : Pending) (id : Uuid)
    → any (has_id id) claimed ≡ true
    → any (waits_as id) (change_where (λ p. any (has_id p.id) claimed) (sent now) rows) ≡ false
unfolding change_where
claimed_settled now claimed [] id h = refl
claimed_settled now claimed (p ∷ rows) id h =
    let rest = claimed_settled now claimed rows id h in
    elim (Bool-cases (any (has_id p.id) claimed)) [
      | inl t ↦ rw (t, rest) (ground arith)
      | inr f ↦ elim (Bool-cases (p.id == id)) [
        | inl same ↦
            let id_eq : p.id ≡ id = (==_iff _ _).0 same in absurd (ground (arith, h, rw id_eq at f))
        | inr other ↦ rw (f, rest) (ground (arith, other))
      ]
    ]

queue-IsSettled :
    (s : Claims) (new_id : Uuid) (p : PendingNotification)
    → any (has_id new_id) s.rows ≡ false
    → IsSettled s
    → IsSettled (record s { rows = queue_pending_notification new_id p s.rows })
unfolding queue_pending_notification
queue-IsSettled s new_id p free c =
    let row : PendingNotification = record p { id = new_id; sent_at = none; cancelled_at = none } in
    record {
      keyed =
          append-Distinct s.rows (row ∷ []) c.keyed (refl, tt)
            (λ id h. elim (Bool-cases (new_id == id)) [
              | inl same ↦ absurd (ground (arith, h, rw ((==_iff new_id id).0 same) at free))
              | inr other ↦ rw other refl
            ]);
      once = c.once;
      listed = λ id h. rw (any-append (has_id id) s.rows (row ∷ []), c.listed id h) refl;
      settled = λ id h. elim (Bool-cases (new_id == id)) [
        | inl same ↦ absurd (ground (arith, c.listed id h, rw ((==_iff new_id id).0 same) at free))
        | inr other ↦
            rw (any-append (waits_as id) s.rows (row ∷ []), c.settled id h) (ground (arith, other))
      ];
    }

module _ (s : Claims) (now : ℕ) (locked : PendingNotification → Bool) (c : IsSettled s) where
  abbrev due : Pending
  due = take 100 (due_first now locked s.rows)

  due_waits : (id : Uuid) → any (has_id id) due ≡ true → any (waits_as id) s.rows ≡ true
  due_waits id h =
      any_implies (λ p. has_id id p && is_due now p) (waits_as id) s.rows (λ p e. ground arith)
        (any-due_first now locked (has_id id) s.rows
          (any-take (has_id id) 100 (due_first now locked s.rows) h))

  due_unclaimed : (id : Uuid) → any (has_id id) due ≡ true → any (has_id id) s.claimed ≡ false
  due_unclaimed id h = elim (Bool-cases (any (has_id id) s.claimed)) [
    | inl t ↦ absurd (ground (arith, due_waits id h, c.settled id t))
    | inr f ↦ f
  ]

  either_claimed :
      (id : Uuid)
      → any (has_id id) (due ++ s.claimed) ≡ true
      → (any (has_id id) due ≡ true) ⊎ (any (has_id id) s.claimed ≡ true)
  either_claimed id h =
      let split = rw (any-append (has_id id) due s.claimed) at h in
      elim (Bool-cases (any (has_id id) due)) [
        | inl t ↦ inl t
        | inr f ↦ inr (ground (arith, rw f at split))
      ]

  claim-IsSettled : IsSettled (record {
    rows = (get_due_pending_notifications now locked s.rows).1;
    claimed = (get_due_pending_notifications now locked s.rows).0 ++ s.claimed;
  })
  unfolding get_due_pending_notifications
  claim-IsSettled = record {
    keyed = change_where-Distinct _ (sent now) s.rows (λ p. refl) c.keyed;
    once =
        append-Distinct due s.claimed
          (take-Distinct 100 (due_first now locked s.rows)
            (due_first-Distinct now locked s.rows c.keyed))
          c.once due_unclaimed;
    listed = λ id h.
        rw (any_id-change_where (λ p. any (has_id p.id) due) (sent now) id s.rows (λ p. refl))
          (elim (either_claimed id h) [
            | inl new ↦
                any_implies (waits_as id) (has_id id) s.rows (λ p e. ground arith)
                  (due_waits id new)
            | inr old ↦ c.listed id old
          ]);
    settled = λ id h. elim (either_claimed id h) [
      | inl new ↦ claimed_settled now due s.rows id new
      | inr old ↦
          any-change_where (λ p. any (has_id p.id) due) (sent now) (waits_as id) s.rows
            (λ p e. ground arith) (c.settled id old)
    ];
  }

Step-IsSettled : {s t : Claims} → Step s t → IsSettled s → IsSettled t
unfolding mark_pending_notification_sent cancel_pending_notifications
Step-IsSettled {s} (queue new_id p free) c = queue-IsSettled s new_id p free c
Step-IsSettled {s} (claim now locked) c = claim-IsSettled s now locked c
Step-IsSettled {s} (mark now id) c =
    change-IsSettled s _ (sent now) (λ p. refl) (λ p e. ground arith) c
Step-IsSettled {s} (cancel now incident_id) c =
    change-IsSettled s _ (λ p. record p { cancelled_at = some now }) (λ p. refl)
      (λ p e. ground arith) c

Reach-IsSettled : {s t : Claims} → IsSettled s → Reach s t → IsSettled t
Reach-IsSettled c here = c
Reach-IsSettled c (next r st) = Step-IsSettled st (Reach-IsSettled c r)

-- Whatever workers, acknowledgements and new alerts do to the table, in any order, no pending
-- notification is claimed twice. It starts from a table whose ids are distinct, before the first claim.
pub Reach-Distinct :
    (rows : Pending) {t : Claims}
    → Distinct rows
    → Reach (record { rows = rows; claimed = [] }) t
    → Distinct t.claimed
Reach-Distinct rows d r =
    (Reach-IsSettled
      (record {
        keyed = d;
        once = tt;
        listed = λ id h. ground arith;
        settled = λ id h. ground arith;
      })
      r).once
