-- ===== src/Nicks.antt =====
-- onaccount and the nick changes of onnick of Sources/users.c, without NICKSERV.
use undernet_cservice_p.Prelude.{
  ℕ, ◌+◌, Bool, not, ◌&&◌, none, some, List, [], ◌∷◌, ◌++◌, ◌==◌, ltb, if◌then◌else◌, Str, codes,
  length, str_eq, remove_if,
}
use undernet_cservice_p.World.{
  World, Aluser, Achannel, Achannelnode, Anickchange, has_flag, set_flag, lfl_registered,
  lfl_ismodex,
}
use undernet_cservice_p.World.Text.{notice, put_log, decimal}
use undernet_cservice_p.World.Lookup.{to_channel, to_luser, set_luser}
use undernet_cservice_p.Words.{get_word}
use undernet_cservice_p.Bans.Commands.{ban}
use undernet_cservice_p.Suspend.{suspend}

-- HIDDEN_HOST_SUFFIX
abbrev hidden_host_suffix : Str
hidden_host_suffix = codes ".users.undernet.org"

unfoldable pub set_account : Str → Aluser → Aluser
set_account account u = record u {
  account = account;
  mode = set_flag u.mode lfl_registered;
  hiddenhost = if has_flag u.mode lfl_ismodex then account ++ hidden_host_suffix else u.hiddenhost;
}

unfoldable pub onaccount : Str → Str → Str → World → World
unfolding get_word to_luser set_luser set_account
onaccount source target body w = elim (to_luser target w) [
  | none ↦ put_log (codes "ERROR: onaccount() can't find user!") w
  | some user ↦ set_luser target (set_account (get_word 0 body)) w
]

-- NICK_FLOOD_SUSPEND_TIME
abbrev nick_flood_suspend_time : ℕ
nick_flood_suspend_time = 600

-- curr->time < (now - 15)
abbrev pub is_old_change : ℕ → Anickchange → Bool
is_old_change now curr = ltb (curr.time + 15) now

-- The history without the old changes, with the new one.
unfoldable pub record_change : ℕ → Str → List Anickchange → List Anickchange
unfolding remove_if
record_change now source nickhist =
    record { num = source; time = now } ∷ remove_if (is_old_change now) nickhist

-- A write through a pointer to the node of a channel.
unfoldable pub update_node :
    Str → (Achannelnode → Achannelnode) → List Achannelnode → List Achannelnode
unfolding str_eq
update_node name f [] = []
update_node name f (c ∷ cs) =
    let rest = update_node name f cs in if str_eq name c.name then f c ∷ cs else c ∷ rest

unfoldable pub set_nickhist : Str → List Anickchange → Aluser → Aluser
unfolding update_node
set_nickhist name nickhist u = record u {
  channel = update_node name (λ c. record c { nickhist = nickhist }) u.channel;
}

unfoldable pub punish_change : Str → Str → Str → World → World
unfolding suspend ban decimal
punish_change source newnick channel w = ban [] channel newnick (
    suspend [] channel (newnick ++ b' ' ∷ decimal nick_flood_suspend_time)
      (notice source (codes "### NICK FLOOD PROTECTION ACTIVATED ###") w))

-- One round of the loop over the channels of the user.
unfoldable pub change_on : Str → Str → Achannelnode → Achannel → World → World
unfolding record_change set_luser set_nickhist punish_change
change_on source newnick node chan w =
    let nickhist = record_change w.now source node.nickhist in
    let w1 = set_luser source (set_nickhist node.name nickhist) w in
    if length nickhist == chan.nick_flood_pro && not (chan.nick_flood_pro == 0)
    then punish_change source newnick chan.name w1
    else w1

unfoldable pub change_loop : Str → Str → List Achannelnode → World → World
unfolding to_channel change_on
change_loop source newnick [] w = w
change_loop source newnick (node ∷ nodes) w =
    change_loop source newnick nodes (elim (to_channel node.name w) [
      | none ↦ w
      | some chan ↦ if chan.on then change_on source newnick node chan w else w
    ])

-- `onnick` of a source that is a user.
unfoldable pub nick_change : Str → Str → World → World
unfolding to_luser set_luser change_loop
nick_change source newnick w = elim (to_luser source w) [
  | none ↦ put_log (codes "ERROR: onnick() can't find user!") w
  | some user ↦
      change_loop source newnick user.channel
        (set_luser source (λ u. record u { nick = newnick }) w)
]
