-- ===== src/Event/Check.antt =====
-- CheckEvent of Sources/events.c: the events that are due are run in order and taken off the list.
use undernet_cservice_p.Prelude.{
  ℕ, zero, suc, ◌+◌, ◌≤◌, ◌<◌, ◌≡◌, refl, Bool, Bool-cases, inl, inr, leb, not, ◌&&◌, ◌||◌, Option,
  none, some, [], ◌∷◌, All, Str, length, arith, ◌∙◌, Option-cases, if◌then◌else◌,
}
use undernet_cservice_p.Event.{
  AnEvent, EventKind, EventList, add_event, insert_event, save_userlist, save_shitlist,
  save_defchannels, clean_shitlist, flush_modebuff, getops, sync, clean_ignores, check_idle,
  rename_logfile, syncdb, unknown, shitlist_save_freq, defs_save_freq, sync_freq, check_idle_freq,
  rename_logfile_freq, cache_timeout,
}
use undernet_cservice_p.Event.Order.{IsOrdered, add_event-IsOrdered}

-- How many events are due at `now`.
pub due : ℕ → EventList → ℕ
due now [] = 0
due now (x ∷ list) = let rest = due now list in if leb x.time now then suc rest else rest

-- A call into another part of the program keeps the order of the events and adds none that is due
-- at once.
abbrev pub Quiet : {W : Type 0} → ℕ → (W × EventList → W × EventList) → Type 0
Quiet {W} now call =
    (s : W × EventList) → IsOrdered s.1 → IsOrdered (call s).1 × (due now (call s).1 ≡ due now s.1)

-- The parts of the program that events call, over the rest `W` of its state, and what CheckEvent
-- relies on of them.
pub record Handlers (W : Type 0) : Type 0 where
  pub save_shit_list : W × EventList → W × EventList
  pub save_defs : W × EventList → W × EventList
  pub clean_shit_list : Str → W × EventList → W × EventList
  pub flush_mode : Str → W × EventList → W × EventList
  pub get_ops : Str → W × EventList → W × EventList
  pub sync_disks : W × EventList → W × EventList
  pub run_clean_ignores : W × EventList → W × EventList
  pub check_idle_channels : W × EventList → W × EventList
  pub reopen_logfile : W × EventList → W × EventList
  pub reset_save_status : W × EventList → W × EventList
  pub chan_on : Str → W → Bool
  pub is_opless : Str → W → Bool
  pub always_op : Str → W → Bool
  pub am_chan_op : Str → W → Bool

pub record AreQuiet {W : Type 0} (now : ℕ) (h : Handlers W) : Type 0 where
  pub save_shit_list : Quiet now h.save_shit_list
  pub save_defs : Quiet now h.save_defs
  pub clean_shit_list : (c : Str) → Quiet now (h.clean_shit_list c)
  pub flush_mode : (c : Str) → Quiet now (h.flush_mode c)
  pub get_ops : (c : Str) → Quiet now (h.get_ops c)
  pub sync_disks : Quiet now h.sync_disks
  pub run_clean_ignores : Quiet now h.run_clean_ignores
  pub check_idle_channels : Quiet now h.check_idle_channels
  pub reopen_logfile : Quiet now h.reopen_logfile
  pub reset_save_status : Quiet now h.reset_save_status

-- Calls AddEvent for the next time.
abbrev pub again : {W : Type 0} → EventKind → ℕ → W × EventList → W × EventList
again event time (w, list) = (w, add_event event time [] list)

-- The `switch`.
unfoldable pub run_event :
    {W : Type 0} → Handlers W → ℕ → EventKind → Str → W × EventList → W × EventList
run_event h now save_userlist param s = s
run_event h now save_shitlist param s =
    again save_shitlist (now + shitlist_save_freq) (h.save_shit_list s)
run_event h now save_defchannels param s =
    again save_defchannels (now + defs_save_freq) (h.save_defs s)
run_event h now clean_shitlist param s = h.clean_shit_list param s
run_event h now flush_modebuff param s = h.flush_mode param s
run_event h now getops param s =
    if h.chan_on param s.0
      && (h.is_opless param s.0 || (h.always_op param s.0 && not (h.am_chan_op param s.0)))
    then h.get_ops param s
    else s
run_event h now sync param s = again sync (now + sync_freq) (h.sync_disks s)
run_event h now clean_ignores param s = h.run_clean_ignores s
run_event h now check_idle param s =
    again check_idle (now + check_idle_freq) (h.check_idle_channels s)
run_event h now rename_logfile param s =
    again rename_logfile (now + rename_logfile_freq) (h.reopen_logfile s)
run_event h now syncdb param s = again syncdb (now + cache_timeout) (h.reset_save_status s)
run_event h now (unknown n) param s = s

-- The `while` loop, on fuel; none means that it ran out.
unfoldable pub check_loop :
    {W : Type 0} → Handlers W → ℕ → ℕ → W × EventList → Option (W × EventList)
unfolding run_event
check_loop h now zero s = none
check_loop h now (suc f) (w, []) = some (w, [])
check_loop h now (suc f) (w, curr ∷ list) =
    let rest = check_loop h now f (run_event h now curr.event curr.param (w, list)) in
    if leb curr.time now then rest else some (w, curr ∷ list)

unfoldable pub check_event : {W : Type 0} → Handlers W → ℕ → W × EventList → Option (W × EventList)
unfolding check_loop
check_event h now s = check_loop h now (suc (length s.1)) s

due-le-length : (now : ℕ) (list : EventList) → due now list ≤ length list
unfolding due
due-le-length now [] = omega arith
due-le-length now (x ∷ list) = ground (arith, due-le-length now list)

due-insert :
    (now : ℕ) (new : AnEvent) (list : EventList)
    → now < new.time
    → due now (insert_event new list) ≡ due now list
unfolding due insert_event
due-insert now new [] h = ground arith
due-insert now new (x ∷ list) h = ground (arith, due-insert now new list h)

again-Quiet :
    {W : Type 0} (now : ℕ) (event : EventKind) (n : ℕ) (call : W × EventList → W × EventList)
    → 0 < n
    → Quiet now call
    → Quiet now (λ s. again event (now + n) (call s))
unfolding add_event
again-Quiet now event n call pos q s o =
    let (kept, same) = q s o in
    (
      (add_event-IsOrdered event (now + n) [] (call s).1 kept).0,
      due-insert now (record { time = now + n; event = event; param = [] }) (call s).1 (omega arith)
          ∙ same,
    )

later-All :
    {now m : ℕ} (list : EventList)
    → now < m
    → All (λ y. m ≤ y.time) list
    → All (λ y. now < y.time) list
later-All [] h hs = tt
later-All (x ∷ list) h hs = (omega arith, later-All list h hs.1)

module _ {W : Type 0} (h : Handlers W) (now : ℕ) (q : AreQuiet now h) where
  getops-Quiet : (param : Str) → Quiet now (run_event h now getops param)
  unfolding run_event
  getops-Quiet param s o =
      elim (Bool-cases (
        h.chan_on param s.0
        && (h.is_opless param s.0 || (h.always_op param s.0 && not (h.am_chan_op param s.0))))) [
          | inl e ↦ rw e (q.get_ops param s o)
          | inr e ↦ rw e (o, refl)
        ]

  -- Each case of the switch keeps the list ordered and leaves as many events due as it found.
  run_event-Quiet : (event : EventKind) (param : Str) → Quiet now (run_event h now event param)
  unfolding run_event
  run_event-Quiet save_userlist param = λ s o. (o, refl)
  run_event-Quiet save_shitlist param =
      again-Quiet now save_shitlist shitlist_save_freq h.save_shit_list (omega arith)
        q.save_shit_list
  run_event-Quiet save_defchannels param =
      again-Quiet now save_defchannels defs_save_freq h.save_defs (omega arith) q.save_defs
  run_event-Quiet clean_shitlist param = q.clean_shit_list param
  run_event-Quiet flush_modebuff param = q.flush_mode param
  run_event-Quiet getops param = getops-Quiet param
  run_event-Quiet sync param =
      again-Quiet now sync sync_freq h.sync_disks (omega arith) q.sync_disks
  run_event-Quiet clean_ignores param = q.run_clean_ignores
  run_event-Quiet check_idle param =
      again-Quiet now check_idle check_idle_freq h.check_idle_channels (omega arith)
        q.check_idle_channels
  run_event-Quiet rename_logfile param =
      again-Quiet now rename_logfile rename_logfile_freq h.reopen_logfile (omega arith)
        q.reopen_logfile
  run_event-Quiet syncdb param =
      again-Quiet now syncdb cache_timeout h.reset_save_status (omega arith) q.reset_save_status
  run_event-Quiet (unknown n) param = λ s o. (o, refl)

  -- The loop ended, and what is left is ordered and lies in the future.
  abbrev Ended : Option (W × EventList) → Type 0
  Ended none = ⊥
  Ended (some s) = All (λ y. now < y.time) s.1 × IsOrdered s.1

  check_loop-Ended :
      (f : ℕ) (s : W × EventList) → IsOrdered s.1 → due now s.1 < f → Ended (check_loop h now f s)
  unfolding check_loop due
  check_loop-Ended zero s o m = absurd (omega arith)
  check_loop-Ended (suc f) (w, []) o m = (tt, o)
  check_loop-Ended (suc f) (w, x ∷ list) o m = elim (Bool-cases (leb x.time now)) [
    | inl e ↦
        let s' = run_event h now x.event x.param (w, list) in
        let (kept, same) = run_event-Quiet x.event x.param (w, list) o.1 in
        rw (e, Ended) (check_loop-Ended f s' kept (omega (arith, same, rw e at m)))
    | inr e ↦ rw (e, Ended) ((ground arith, later-All list (ground arith) o.0), o)
  ]

-- Where the calls into the other parts keep the events in order and add none that is due at once,
-- CheckEvent ends, and of the events that it leaves, in order, none is due.
pub check_event-Ended :
    {W : Type 0} (h : Handlers W) (now : ℕ) (s : W × EventList)
    → AreQuiet now h
    → IsOrdered s.1
    → (s' : W × EventList) × (check_event h now s ≡ some s')
      × All (λ y. now < y.time) s'.1
      × IsOrdered s'.1
unfolding check_event
check_event-Ended h now s q o =
    let ended =
      check_loop-Ended h now q (suc (length s.1)) s o (omega (arith, due-le-length now s.1)) in
    elim (Option-cases (check_loop h now (suc (length s.1)) s)) [
      | inl e ↦ absurd (rw e at ended)
      | inr (s', e) ↦ let (later, kept) = rw e at ended in (s', e, later, kept)
    ]
