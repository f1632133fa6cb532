-- ===== src/Calls.antt =====
-- CheckEvent of Sources/events.c over the world: the calls that it makes into the other parts.
use undernet_cservice_p.Prelude.{Bool, false, Option, none, some, [], codes}
use undernet_cservice_p.World.{World, Achannel, has_flag, cfl_alwaysop}
use undernet_cservice_p.World.Text.{put_log}
use undernet_cservice_p.World.Lookup.{to_channel}
use undernet_cservice_p.Event.{EventList}
use undernet_cservice_p.Event.Check.{Handlers, check_event}
use undernet_cservice_p.Modes.{flushmode}
use undernet_cservice_p.Ignore.{clean_ignore_list}
use undernet_cservice_p.ShitList.Table.{clean_shit_list}
use undernet_cservice_p.Membership.Leaving.{is_opless}
use undernet_cservice_p.Membership.Entering.{get_ops}

-- What the functions do that write files, and CheckIdleChannels, which takes channels off the file of
-- the default channels.
pub record Files : Type 0 where
  pub save_shit_list : World → World
  pub save_defs : World → World
  pub check_idle_channels : World → World

-- A function of the world, which has the list of events.
unfoldable pub call : (World → World) → World × EventList → World × EventList
call f (w, list) = let v = f (record w { event_list = list }) in (v, v.event_list)

abbrev holds_for : (Achannel → Bool) → Option Achannel → Bool
holds_for p none = false
holds_for p (some chan) = p chan

-- The log file is closed, renamed and opened between its two lines; DB_Save_Status is a flag of the
-- database, which nothing here reads.
unfoldable pub calls : Files → Handlers World
unfolding call clean_shit_list flushmode get_ops clean_ignore_list to_channel is_opless
calls files = record {
  save_shit_list = call files.save_shit_list;
  save_defs = call files.save_defs;
  clean_shit_list = λ param. call (clean_shit_list [] param);
  flush_mode = λ param. call (flushmode param);
  get_ops = λ param. call (get_ops param);
  sync_disks = λ s. s;
  run_clean_ignores = call clean_ignore_list;
  check_idle_channels = call files.check_idle_channels;
  reopen_logfile =
      call (λ w. put_log (codes "Opening log file") (put_log (codes "Closing log file") w));
  reset_save_status = λ s. s;
  chan_on = λ param w. holds_for (λ c. c.on) (to_channel param w);
  is_opless = is_opless;
  always_op = λ param w. holds_for (λ c. has_flag c.flags cfl_alwaysop) (to_channel param w);
  am_chan_op = λ param w. holds_for (λ c. c.am_chan_op) (to_channel param w);
}

-- CheckEvent, with the fuel that `check_event` gives its loop; none means that it ran out.
unfoldable pub check_events : Files → World → Option World
unfolding calls check_event
check_events files w = elim (check_event (calls files) w.now (w, w.event_list)) [
  | none ↦ none
  | some (v, list) ↦ some (record v { event_list = list })
]
