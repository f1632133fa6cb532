-- ===== src/Samples/Events.antt =====
-- The list of events.
use undernet_cservice_p.Prelude.{
  ℕ, suc, ◌≡◌, ◌≤◌, ◌<◌, refl, true, some, [], ◌∷◌, ◌++◌, codes, take, All, arith,
}
use mathlib.Core.List.{Perm}
use undernet_cservice_p.Event.{
  AnEvent, EventList, insert_event, add_event, clean_ignores, flush_modebuff,
}
use undernet_cservice_p.Event.Order.{IsOrdered, add_event-IsOrdered, insert_event-place}
use undernet_cservice_p.Event.Check.{Handlers, check_event}

abbrev due_event : AnEvent
due_event = record { time = 5; event = flush_modebuff; param = codes "#c" }

abbrev later_event : AnEvent
later_event = record { time = 9; event = clean_ignores; param = [] }

abbrev events : EventList
events = due_event ∷ later_event ∷ []

events-IsOrdered : IsOrdered events
events-IsOrdered = ((omega arith, tt), (tt, tt))

add_event-IsOrdered_example :
    IsOrdered (add_event clean_ignores 7 (codes "x") events)
    × Perm
        (add_event clean_ignores 7 (codes "x") events)
        (record { time = 7; event = clean_ignores; param = take 79 (codes "x") } ∷ events)
add_event-IsOrdered_example =
    add_event-IsOrdered clean_ignores 7 (codes "x") events events-IsOrdered

insert_event-place_example :
    (before behind : EventList) × (events ≡ before ++ behind)
    × (insert_event later_event events ≡ before ++ later_event ∷ behind)
    × All (λ (y : AnEvent). y.time < later_event.time) before
    × All (λ (y : AnEvent). later_event.time ≤ y.time) behind
insert_event-place_example = insert_event-place later_event events events-IsOrdered

abbrev count : ℕ × EventList → ℕ × EventList
count (n, list) = (suc n, list)

-- Calls that count how often they are made.
abbrev handlers : Handlers ℕ
handlers = record {
  save_shit_list = count;
  save_defs = count;
  clean_shit_list = λ _. count;
  flush_mode = λ _. count;
  get_ops = λ _. count;
  sync_disks = count;
  run_clean_ignores = count;
  check_idle_channels = count;
  reopen_logfile = count;
  reset_save_status = count;
  chan_on = λ _ _. true;
  is_opless = λ _ _. true;
  always_op = λ _ _. true;
  am_chan_op = λ _ _. true;
}

check_event_test : check_event handlers 5 (0, events) ≡ some (1, later_event ∷ [])
unfolding check_event
check_event_test = refl
