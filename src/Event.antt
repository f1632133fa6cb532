-- ===== src/Event.antt =====
-- Sources/events.c and Sources/events.h: the list of timed events. Times are those of `now`.
pub mod Order
pub mod Check
use undernet_cservice_p.Prelude.{
  ℕ, zero, suc, ◌+◌, ◌*◌, ◌-◌, Bool, true, false, List, [], ◌∷◌, ltb, leb, ◌==◌, if◌then◌else◌, Str,
  take,
}

-- SHITLIST_SAVE_FREQ and the other frequencies of config.h.dist, in seconds.
abbrev pub shitlist_save_freq : ℕ
shitlist_save_freq = 7200

abbrev pub defs_save_freq : ℕ
defs_save_freq = 7200

abbrev pub sync_freq : ℕ
sync_freq = 7200

abbrev pub check_idle_freq : ℕ
check_idle_freq = 3 * 3600

abbrev pub rename_logfile_freq : ℕ
rename_logfile_freq = 3 * 24 * 3600

-- CACHE_TIMEOUT of Sources/defines.h.
abbrev pub cache_timeout : ℕ
cache_timeout = 4800

-- The event numbers of Sources/events.h, and any other number.
pub data EventKind : Type 0 where
  save_userlist save_shitlist save_defchannels clean_shitlist flush_modebuff : EventKind
  getops sync clean_ignores check_idle rename_logfile syncdb : EventKind
  unknown : ℕ → EventKind

pub record AnEvent : Type 0 where
  pub time : ℕ
  pub event : EventKind
  pub param : Str

abbrev pub EventList : Type 0
EventList = List AnEvent

-- The loop that finds the place, and the link there.
pub insert_event : AnEvent → EventList → EventList
insert_event new [] = new ∷ []
insert_event new (curr ∷ list) =
    if ltb curr.time new.time then curr ∷ insert_event new list else new ∷ curr ∷ list

unfoldable pub add_event : EventKind → ℕ → Str → EventList → EventList
add_event event time param =
    insert_event (record { time = time; event = event; param = take 79 param })

-- With MAX_IDLE_TIME defined, and without CHANNEL_LOG and NICKSERV, as in config.h.dist.
unfoldable pub init_event : ℕ → EventList → EventList
init_event now list = add_event syncdb (now + cache_timeout) [] (
    add_event rename_logfile (now + rename_logfile_freq) [] (
      add_event check_idle (now + check_idle_freq) [] (
        add_event sync (now + sync_freq + 900) [] (
          add_event save_defchannels (now + defs_save_freq + 600) []
            (add_event save_shitlist (now + shitlist_save_freq + 300) [] list)))))
