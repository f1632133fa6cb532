-- ===== src/Floodpro/Window.antt =====
-- CheckFlood acts exactly on the message that fills the window of 15 seconds.
use undernet_cservice_p.Prelude.{
  ℕ, suc, ◌+◌, ◌≡◌, refl, ap, ◌∙◌, Bool, true, false, Bool-cases, inl, inr, not, ◌&&◌, some, List,
  [], ◌∷◌, ◌==◌, leb, if◌then◌else◌, arith, Str, length, remove_if,
}
use undernet_cservice_p.World.{World, Auser, Achannel, Amsg, has_flag, lfl_isservice}
use undernet_cservice_p.World.Lookup.{set_user, to_channel, to_user, log_to_user}
use undernet_cservice_p.Floodpro.{
  punish_flood, is_old_msg, record_msg, flood_message, flood_lookup, check_flood,
}

-- Behind this message, the messages of the last 15 seconds.
unfoldable pub recent_msgs : ℕ → List Amsg → List Amsg
recent_msgs now [] = []
recent_msgs now (m ∷ ms) =
    let rest = recent_msgs now ms in if leb now (m.time + 15) then m ∷ rest else rest

-- Whether a message of `user` on `chan` is a flood: the number of recent messages, this one
-- included, is the limit of the channel, which has one.
unfoldable pub is_flood : ℕ → Achannel → Auser → Bool
unfolding recent_msgs
is_flood now chan user =
    not (chan.msg_flood_pro == 0)
    && suc (length (recent_msgs now user.msghist)) == chan.msg_flood_pro

log_to_user-found :
    (channel num : Str) (chan : Achannel) (w : World)
    → to_channel channel w ≡ some chan
    → log_to_user channel num w ≡ w
unfolding log_to_user
log_to_user-found channel num chan w e = elim (Bool-cases (length num == 5)) [
  | inl l ↦ rw (log_to_user, l, e) refl
  | inr l ↦ rw (log_to_user, l) refl
]

kept-recent_msgs : (now : ℕ) (ms : List Amsg) → remove_if (is_old_msg now) ms ≡ recent_msgs now ms
unfolding remove_if recent_msgs
kept-recent_msgs now [] = refl
kept-recent_msgs now (m ∷ ms) = ground (arith, kept-recent_msgs now ms)

-- The world with the history of the user renewed.
unfoldable pub remembered : Str → Str → ℕ → Auser → World → World
unfolding recent_msgs set_user
remembered source channel len user w =
    set_user channel source
      (λ u. record u {
        msghist = record { time = w.now; length = len } ∷ recent_msgs w.now user.msghist;
      })
      w

-- The result of the function: the protection acts on the user and it returns 1, or it returns 0.
unfoldable pub outcome : Bool → Str → Str → ℕ → Auser → World → World × ℕ
unfolding remembered punish_flood
outcome true source channel len user w =
    (punish_flood source channel user.user (remembered source channel len user w), 1)
outcome false source channel len user w = (remembered source channel len user w, 0)

abbrev choose : Bool → World → World → World × ℕ
choose b x y = if b then (x, 1) else (y, 0)

choose-outcome :
    (b : Bool) (source channel : Str) (len : ℕ) (user : Auser) (w : World)
    → choose b
        (punish_flood source channel user.user (remembered source channel len user w))
        (remembered source channel len user w)
      ≡ outcome b source channel len user w
unfolding outcome
choose-outcome true source channel len user w = refl
choose-outcome false source channel len user w = refl

flood_lookup-found :
    (source channel : Str) (len : ℕ) (w : World) (chan : Achannel) (user : Auser)
    → to_channel channel w ≡ some chan
    → to_user channel source w ≡ some user
    → flood_lookup source channel len w ≡ flood_message source channel len chan user w
unfolding flood_lookup
flood_lookup-found source channel len w chan user ec eu = rw (flood_lookup, ec, eu) refl

record_msg-recent :
    (now len : ℕ) (ms : List Amsg)
    → record_msg now len ms ≡ record { time = now; length = len } ∷ recent_msgs now ms
unfolding record_msg
record_msg-recent now len ms =
    ap (◌∷◌ (record { time = now; length = len })) (kept-recent_msgs now ms)

-- What is done where `h` is the history.
acted : List Amsg → Str → Str → Achannel → Auser → World → World × ℕ
acted h source channel chan user w =
    choose (not (chan.msg_flood_pro == 0) && length h == chan.msg_flood_pro)
      (punish_flood source channel user.user
        (set_user channel source (λ u. record u { msghist = h }) w))
      (set_user channel source (λ u. record u { msghist = h }) w)

flood_message-acted :
    (source channel : Str) (len : ℕ) (w : World) (chan : Achannel) (user : Auser)
    → chan.on ≡ true
    → has_flag user.user.mode lfl_isservice ≡ false
    → flood_message source channel len chan user w
      ≡ acted (record_msg w.now len user.msghist) source channel chan user w
unfolding flood_message acted
flood_message-acted source channel len w chan user on plain = rw (flood_message, on, plain) refl

acted-outcome :
    (source channel : Str) (len : ℕ) (w : World) (chan : Achannel) (user : Auser)
    → acted
        (record { time = w.now; length = len } ∷ recent_msgs w.now user.msghist)
        source
        channel
        chan
        user
        w
      ≡ outcome (is_flood w.now chan user) source channel len user w
unfolding acted is_flood remembered
acted-outcome source channel len w chan user =
    choose-outcome (is_flood w.now chan user) source channel len user w

flood_message-recent :
    (source channel : Str) (len : ℕ) (w : World) (chan : Achannel) (user : Auser)
    → chan.on ≡ true
    → has_flag user.user.mode lfl_isservice ≡ false
    → flood_message source channel len chan user w
      ≡ outcome (is_flood w.now chan user) source channel len user w
flood_message-recent source channel len w chan user on plain =
    flood_message-acted source channel len w chan user on plain
    ∙ ap (λ h. acted h source channel chan user w) (record_msg-recent w.now len user.msghist)
    ∙ acted-outcome source channel len w chan user

-- For a user whom the bot finds on a channel that it is on, and who is no network service, CheckFlood
-- puts the message before those of the last 15 seconds in the history of the user; exactly where they
-- are as many, this one included, as the limit of the channel, which has one, it punishes the user
-- and returns 1, and elsewhere it does no more and returns 0.
pub check_flood-recent :
    (source channel : Str) (len : ℕ) (w : World) (chan : Achannel) (user : Auser)
    → to_channel channel w ≡ some chan
    → to_user channel source w ≡ some user
    → chan.on ≡ true
    → has_flag user.user.mode lfl_isservice ≡ false
    → check_flood source channel len w
      ≡ outcome (is_flood w.now chan user) source channel len user w
unfolding check_flood
check_flood-recent source channel len w chan user ec eu on plain =
    ap (λ v. flood_lookup source channel len v) (log_to_user-found channel source chan w ec)
    ∙ flood_lookup-found source channel len w chan user ec eu
    ∙ flood_message-recent source channel len w chan user on plain
