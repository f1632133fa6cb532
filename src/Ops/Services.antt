-- ===== src/Ops/Services.antt =====
-- massdeop takes the operator from all who are no network service, and from nobody else.
use undernet_cservice_p.Prelude.{
  ◌⊎◌, ℕ, ◌≡◌, refl, ap, sym, ◌∙◌, true, false, Bool-cases, Option-cases, inl, inr, not, Option,
  none, some, some≢none, List, [], ◌∷◌, if◌then◌else◌, Str,
}
use undernet_cservice_p.World.{World, Auser, Achannel, has_flag, lfl_isservice}
use undernet_cservice_p.World.Lookup.{to_channel, set_channel}
use undernet_cservice_p.World.Channels.{map_option, to_channel-set_channel}
use undernet_cservice_p.Modes.{
  changemode, queue_mode, flushmode, send_lines, bot_pass, server_pass, run_over, ModeLine,
}
use undernet_cservice_p.Ops.{is_mass_hit, massdeop_loop, drop_ops, massdeop}

-- The users of a channel.
abbrev pub users_of : Option Achannel → Option (List Auser)
users_of none = none
users_of (some c) = some c.users

users_of-same :
    (f : Achannel → Achannel) (c : Option Achannel)
    → ((d : Achannel) → (f d).users ≡ d.users)
    → users_of (map_option f c) ≡ users_of c
users_of-same f none h = refl
users_of-same f (some c) h = ap some (h c)

set_channel-users :
    (channel : Str) (f : Achannel → Achannel) (w : World)
    → ((d : Achannel) → (f d).name ≡ d.name)
    → ((d : Achannel) → (f d).users ≡ d.users)
    → users_of (to_channel channel (set_channel channel f w)) ≡ users_of (to_channel channel w)
set_channel-users channel f w n u =
    ap users_of (to_channel-set_channel channel f w n) ∙ users_of-same f (to_channel channel w) u

-- What `changemode` without a server does to a channel.
abbrev changed : Str → ℕ → ℕ → Str → Option Achannel → World → World
changed channel sign letter arg none w = w
changed channel sign letter arg (some c) w =
    if not c.on
    then w
    else set_channel channel
        (λ d. record d {
          modebuff =
              queue_mode (record { as_server = 0; sign = sign; letter = letter; arg = arg })
                d.modebuff;
        })
        w

changemode-changed :
    (channel : Str) (sign letter : ℕ) (arg : Str) (w : World)
    → changemode channel sign letter arg 0 w
      ≡ changed channel sign letter arg (to_channel channel w) w
unfolding changemode
changemode-changed channel sign letter arg w = elim (Option-cases (to_channel channel w)) [
  | inl e ↦ rw (changemode, e) refl
  | inr (c, e) ↦ rw (changemode, e) refl
]

changed-users :
    (channel : Str) (sign letter : ℕ) (arg : Str) (c : Option Achannel) (w : World)
    → users_of (to_channel channel (changed channel sign letter arg c w))
      ≡ users_of (to_channel channel w)
changed-users channel sign letter arg none w = refl
changed-users channel sign letter arg (some c) w = elim (Bool-cases c.on) [
  | inr o ↦ rw o refl
  | inl o ↦ rw o (
      set_channel-users channel
        (λ d. record d {
          modebuff =
              queue_mode (record { as_server = 0; sign = sign; letter = letter; arg = arg })
                d.modebuff;
        })
        w (λ d. refl) (λ d. refl))
]

changemode-users :
    (channel : Str) (sign letter : ℕ) (arg : Str) (w : World)
    → users_of (to_channel channel (changemode channel sign letter arg 0 w))
      ≡ users_of (to_channel channel w)
changemode-users channel sign letter arg w =
    ap (λ v. users_of (to_channel channel v)) (changemode-changed channel sign letter arg w)
    ∙ changed-users channel sign letter arg (to_channel channel w) w

massdeop_loop-users :
    (channel : Str) (users : List Auser) (w : World)
    → users_of (to_channel channel (massdeop_loop channel users w))
      ≡ users_of (to_channel channel w)
unfolding massdeop_loop
massdeop_loop-users channel [] w = refl
massdeop_loop-users channel (u ∷ users) w = elim (Bool-cases (is_mass_hit u)) [
  | inl e ↦
      rw (massdeop_loop, e)
        (massdeop_loop-users channel users (changemode channel b'-' b'o' u.user.num 0 w)
          ∙ changemode-users channel b'-' b'o' u.user.num w)
  | inr e ↦ rw (massdeop_loop, e) (massdeop_loop-users channel users w)
]

send_lines-channel :
    (from channel name : Str) (ts : ℕ) (lines : List ModeLine) (w : World)
    → to_channel name (send_lines from channel ts lines w) ≡ to_channel name w
unfolding send_lines to_channel
send_lines-channel from channel name ts [] w = refl
send_lines-channel from channel name ts (l ∷ lines) w =
    send_lines-channel from channel name ts lines _

run_over-channel :
    (name : Str) (chan : Achannel) (w : World)
    → to_channel name (run_over chan w) ≡ to_channel name w
unfolding to_channel run_over
run_over-channel name chan w = refl

flushed : Str → Option Achannel → World → World
flushed channel none w = w
flushed channel (some chan) w = run_over chan (
    send_lines w.my_yyxxx channel chan.ts (bot_pass chan).lines (
      send_lines w.my_yy channel chan.ts (server_pass chan).lines (
        set_channel channel
          (λ c. record c { modebuff = (bot_pass chan).kept; bans = (bot_pass chan).bans }) w)))

flushmode-flushed :
    (channel : Str) (w : World) → flushmode channel w ≡ flushed channel (to_channel channel w) w
unfolding flushmode flushed
flushmode-flushed channel w = elim (Option-cases (to_channel channel w)) [
  | inl e ↦ rw (flushmode, e) refl
  | inr (c, e) ↦ rw (flushmode, e) refl
]

flushed-users :
    (channel : Str) (c : Option Achannel) (w : World)
    → users_of (to_channel channel (flushed channel c w)) ≡ users_of (to_channel channel w)
unfolding flushed
flushed-users channel none w = refl
flushed-users channel (some chan) w =
    let written : World =
      set_channel channel
        (λ c. record c { modebuff = (bot_pass chan).kept; bans = (bot_pass chan).bans }) w in
    ap users_of (
      run_over-channel channel chan (
        send_lines w.my_yyxxx channel chan.ts (bot_pass chan).lines
          (send_lines w.my_yy channel chan.ts (server_pass chan).lines written))
      ∙ send_lines-channel w.my_yyxxx channel channel chan.ts (bot_pass chan).lines
          (send_lines w.my_yy channel chan.ts (server_pass chan).lines written)
      ∙ send_lines-channel w.my_yy channel channel chan.ts (server_pass chan).lines written)
    ∙ set_channel-users channel
        (λ c. record c { modebuff = (bot_pass chan).kept; bans = (bot_pass chan).bans }) w
        (λ d. refl) (λ d. refl)

flushmode-users :
    (channel : Str) (w : World)
    → users_of (to_channel channel (flushmode channel w)) ≡ users_of (to_channel channel w)
flushmode-users channel w =
    ap (λ v. users_of (to_channel channel v)) (flushmode-flushed channel w)
    ∙ flushed-users channel (to_channel channel w) w

users_of-drop :
    (c : Option Achannel) (users : List Auser)
    → users_of c ≡ some users
    → users_of (map_option (λ d. record d { users = drop_ops d.users }) c) ≡ some (drop_ops users)
users_of-drop none users h = absurd (some≢none users (sym h))
users_of-drop (some c) users h =
    ap (λ o. elim o as (λ _. Option (List Auser)) [ none ↦ none | some us ↦ some (drop_ops us) ]) h

massdeop_found :
    (channel : Str) (w : World) (chan : Achannel)
    → to_channel channel w ≡ some chan
    → chan.on ≡ true
    → chan.am_chan_op ≡ true
    → massdeop channel w
      ≡ flushmode channel (
          set_channel channel
            (λ c. record c { users = drop_ops c.users })
            (massdeop_loop channel chan.users w))
unfolding massdeop
massdeop_found channel w chan e on am = rw (massdeop, e, on, am) refl

-- What becomes of a user: the operator is taken from all who are no network service, and all else
-- stays.
abbrev pub Deopped : Auser → Auser → Type 0
Deopped before after =
    (after.user ≡ before.user)
    × (after.msghist ≡ before.msghist)
    × (after.deophist ≡ before.deophist)
    × ((has_flag before.user.mode lfl_isservice ≡ true) × (after.chanop ≡ before.chanop)
        ⊎ (has_flag before.user.mode lfl_isservice ≡ false) × (after.chanop ≡ false))

abbrev pub AllDeopped : List Auser → List Auser → Type 0
AllDeopped [] [] = Unit
AllDeopped [] (v ∷ after) = ⊥
AllDeopped (u ∷ before) [] = ⊥
AllDeopped (u ∷ before) (v ∷ after) = Deopped u v × AllDeopped before after

drop_ops-AllDeopped : (users : List Auser) → AllDeopped users (drop_ops users)
unfolding drop_ops is_mass_hit
drop_ops-AllDeopped [] = tt
drop_ops-AllDeopped (u ∷ users) = elim (Bool-cases (has_flag u.user.mode lfl_isservice)) [
  | inl s ↦ elim (Bool-cases u.chanop) [
    | inl o ↦ rw (o, s) ((refl, refl, refl, inl (refl, refl)), drop_ops-AllDeopped users)
    | inr o ↦ rw (o, s) ((refl, refl, refl, inl (refl, refl)), drop_ops-AllDeopped users)
  ]
  | inr s ↦ elim (Bool-cases u.chanop) [
    | inl o ↦ rw (o, s) ((refl, refl, refl, inr (refl, refl)), drop_ops-AllDeopped users)
    | inr o ↦ rw (o, s) ((refl, refl, refl, inr (refl, refl)), drop_ops-AllDeopped users)
  ]
]

-- After massdeop on a channel that the bot is on as an operator, its users are the same ones in their
-- order: no one is an operator but network services that were, and nothing else about a user of the
-- channel has changed.
pub massdeop-services :
    (channel : Str) (w : World) (chan : Achannel)
    → to_channel channel w ≡ some chan
    → chan.on ≡ true
    → chan.am_chan_op ≡ true
    → (after : List Auser) × (users_of (to_channel channel (massdeop channel w)) ≡ some after)
      × AllDeopped chan.users after
massdeop-services channel w chan e on am =
    let queued : World = massdeop_loop channel chan.users w in
    let written : World = set_channel channel (λ c. record c { users = drop_ops c.users }) queued in
    (
      drop_ops chan.users,
      ap (λ v. users_of (to_channel channel v)) (massdeop_found channel w chan e on am)
          ∙ flushmode-users channel written
          ∙ ap users_of (
              to_channel-set_channel channel (λ c. record c { users = drop_ops c.users }) queued
                (λ c. refl))
          ∙ users_of-drop (to_channel channel queued) chan.users
              (massdeop_loop-users channel chan.users w ∙ ap users_of e),
      drop_ops-AllDeopped chan.users,
    )
