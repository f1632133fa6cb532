-- ===== src/Event/Order.antt =====
-- The list of events is kept in the order of time.
use undernet_cservice_p.Prelude.{
  ℕ, ◌≤◌, ◌<◌, ◌≡◌, refl, Bool-cases, inl, inr, ltb, ltb→lt, [], ◌∷◌, ◌++◌, All, Str, take, arith,
  ap,
}
use mathlib.Core.List.{Perm}
use mathlib.Core.List.Perm
use undernet_cservice_p.Event.{AnEvent, EventKind, EventList, insert_event, add_event}

-- No event stands behind a later one.
abbrev pub IsOrdered : EventList → Type 0
IsOrdered [] = Unit
IsOrdered (x ∷ list) = All (λ y. x.time ≤ y.time) list × IsOrdered list

pub All-insert :
    (P : AnEvent → Type 0) (new : AnEvent) (list : EventList)
    → P new
    → All P list
    → All P (insert_event new list)
unfolding insert_event
All-insert P new [] h hs = (h, tt)
All-insert P new (x ∷ list) h hs = elim (Bool-cases (ltb x.time new.time)) [
  | inl e ↦ rw e (hs.0, All-insert P new list h hs.1)
  | inr e ↦ rw e (h, hs)
]

All-weaken :
    {m n : ℕ} (list : EventList) → m ≤ n → All (λ y. n ≤ y.time) list → All (λ y. m ≤ y.time) list
All-weaken [] h hs = tt
All-weaken (x ∷ list) h hs = (omega arith, All-weaken list h hs.1)

pub insert_event-IsOrdered :
    (new : AnEvent) (list : EventList) → IsOrdered list → IsOrdered (insert_event new list)
unfolding insert_event
insert_event-IsOrdered new [] h = (tt, tt)
insert_event-IsOrdered new (x ∷ list) h = elim (Bool-cases (ltb x.time new.time)) [
  | inl e ↦ rw e (
    All-insert (λ y. x.time ≤ y.time) new list (ground arith) h.0,
    insert_event-IsOrdered new list h.1,
  )
  | inr e ↦ let le : new.time ≤ x.time = ground arith in rw e ((le, All-weaken list le h.0), h)
]

insert_event-perm : (new : AnEvent) (list : EventList) → Perm (insert_event new list) (new ∷ list)
unfolding insert_event
insert_event-perm new [] = Perm.refl _
insert_event-perm new (x ∷ list) = elim (Bool-cases (ltb x.time new.time)) [
  | inl e ↦ rw e (Perm.trans (Perm.cons x (insert_event-perm new list)) (Perm.swap new x list))
  | inr e ↦ rw e (Perm.refl _)
]

-- `AddEvent` keeps a list that is in the order of time so, and adds the one event to it, its parameter cut
-- at 79 bytes.
pub add_event-IsOrdered :
    (event : EventKind) (time : ℕ) (param : Str) (list : EventList)
    → IsOrdered list
    → IsOrdered (add_event event time param list)
      × Perm
          (add_event event time param list)
          (record { time = time; event = event; param = take 79 param } ∷ list)
unfolding add_event
add_event-IsOrdered event time param list h =
    (insert_event-IsOrdered _ list h, insert_event-perm _ list)

-- In a list that is in the order of time, among events of one time the one added last comes first:
-- the new event stands before each event
-- of its time or a later one, and behind each earlier one.
pub insert_event-place :
    (new : AnEvent) (list : EventList)
    → IsOrdered list
    → (before behind : EventList) × (list ≡ before ++ behind)
      × (insert_event new list ≡ before ++ new ∷ behind)
      × All (λ y. y.time < new.time) before
      × All (λ y. new.time ≤ y.time) behind
unfolding insert_event
insert_event-place new [] h = ([], [], refl, refl, tt, tt)
insert_event-place new (x ∷ list) h = elim (Bool-cases (ltb x.time new.time)) [
  | inl e ↦
      let (before, behind, eq, ins, lt, ge) = insert_event-place new list h.1 in
      (
        x ∷ before,
        behind,
        ap (λ l. x ∷ l) eq,
        rw e (ap (λ l. x ∷ l) ins),
        (ltb→lt x.time new.time e, lt),
        ge,
      )
  | inr e ↦
      let le : new.time ≤ x.time = ground arith in
      ([], x ∷ list, refl, rw e, tt, (le, All-weaken list le h.0))
]
