-- ===== src/Membership/Joins.antt =====
-- onjoin is made of those steps.
use undernet_cservice_p.Prelude.{
  ℕ, zero, suc, ◌≡◌, refl, sym, ap, ◌∙◌, Bool, true, false, Bool-cases, Option-cases, some≢none,
  inl, inr, Option, none, some, List, [], ◌∷◌, find, Str, codes, str_eq, str_eq_iff, str_case_eq,
  ◌==◌, if◌then◌else◌, length, subst,
}
use undernet_cservice_p.World.{World, Aluser, Achannel, Achannelnode}
use undernet_cservice_p.World.Text.{atoi}
use undernet_cservice_p.Words.{to_word}
use undernet_cservice_p.World.Lookup.{cl_hash, lu_hash, to_channel, to_luser, set_channel}
use undernet_cservice_p.World.Channels.{to_channel-case}
use undernet_cservice_p.Bans.Commands.{is_empty}
use undernet_cservice_p.Membership.Leaving.{onpart, split_commas}
use undernet_cservice_p.Membership.Creating.{new_channel}
use undernet_cservice_p.Membership.{
  link_user, join_user, part_rounds, join_one, join_word, join_words, onjoin, add_int, nat_of,
}
use undernet_cservice_p.Membership.Steps.{Steps, here, after, opens, joins, touches, logs}
use undernet_cservice_p.Membership.Runs.{one, Steps-trans, onpart-Steps, Steps-bursting}

pub if_true {ℓ} : {A : Type ℓ} (b : Bool) (x y : A) → b ≡ true → (if b then x else y) ≡ x
if_true b x y e = rw e refl

pub if_false {ℓ} : {A : Type ℓ} (b : Bool) (x y : A) → b ≡ false → (if b then x else y) ≡ y
if_false b x y e = rw e refl

abbrev holds_of {ℓ} : {A : Type ℓ} → (A → Bool) → Option A → Bool
holds_of p none = true
holds_of p (some x) = p x

find-true {ℓ} : {A : Type ℓ} (p : A → Bool) (xs : List A) (x : A) → find p xs ≡ some x → p x ≡ true
unfolding find
find-true p [] x h = absurd (some≢none x (sym h))
find-true p (y ∷ xs) x h = elim (Bool-cases (p y)) [
  | inl e ↦ sym (ap (holds_of p) (sym (if_true (p y) (some y) (find p xs) e) ∙ h)) ∙ e
  | inr e ↦ find-true p xs x (sym (if_false (p y) (some y) (find p xs) e) ∙ h)
]

pub to_luser-num : (num : Str) (u : Aluser) (w : World) → to_luser num w ≡ some u → num ≡ u.num
unfolding to_luser
to_luser-num num u w h =
    (str_eq_iff num u.num).0 (find-true (λ v. str_eq num v.num) (w.lusers (lu_hash num)) u h)

pub to_channel-name :
    (channel : Str) (c : Achannel) (w : World)
    → to_channel channel w ≡ some c
    → str_case_eq c.name channel ≡ true
unfolding to_channel
to_channel-name channel c w h =
    find-true (λ d. str_case_eq d.name channel) (w.channel_list (cl_hash channel)) c h

part_rounds-Steps : (f : ℕ) (num : Str) (w : World) → Steps w (part_rounds f num w)
unfolding part_rounds
part_rounds-Steps zero num w = here w
part_rounds-Steps (suc f) num w = elim (Option-cases (to_luser num w)) [
  | inl n ↦ rw (part_rounds, n) (here w)
  | inr (u, e) ↦ rw (part_rounds, e) (rounds (part_rounds-Steps f num) u.channel)
]
  where
    rounds :
        ((v : World) → Steps v (part_rounds f num v))
        → (cs : List Achannelnode)
        → Steps w (elim cs as (λ _. World) [
          | [] ↦ w
          | c ∷ rest ↦ part_rounds f num (onpart num c.name w)
        ])
    rounds more [] = here w
    rounds more (c ∷ cs) =
        Steps-trans w (onpart num c.name w) (part_rounds f num (onpart num c.name w))
          (onpart-Steps num c.name w) (more (onpart num c.name w))

-- While the network is joined, JoinUser makes no checks.
join_user-bursting :
    (user : Aluser) (is_op : Bool) (c : Achannel) (w : World)
    → w.bursting ≡ true
    → join_user user is_op c w ≡ link_user user is_op c.name w
unfolding join_user
join_user-bursting user is_op c w b = if_true w.bursting (link_user user is_op c.name w) _ b

pub join_user-Steps :
    (user : Aluser) (is_op : Bool) (c : Achannel) (w : World)
    → w.bursting ≡ true
    → to_luser user.num w ≡ some user
    → to_channel c.name w ≡ some c
    → Steps w (join_user user is_op c w)
join_user-Steps user is_op c w b eu ec =
    subst (Steps w) (sym (join_user-bursting user is_op c w b))
      (one w (link_user user is_op c.name w) (joins user is_op c.name c w eu ec))

pub join_found-Steps :
    (source : Str) (is_op : Bool) (channel : Str) (w : World)
    → w.bursting ≡ true
    → Steps w (elim (to_luser source w) as (λ _. World) [
      | none ↦ w
      | some user ↦ elim (to_channel channel w) as (λ _. World) [
        | none ↦ w
        | some chan ↦ join_user user is_op chan w
      ]
    ])
join_found-Steps source is_op channel w b = elim (Option-cases (to_luser source w)) [
  | inl n ↦ rw n (here w)
  | inr (u, eu) ↦ rw eu (elim (Option-cases (to_channel channel w)) [
    | inl n ↦ rw n (here w)
    | inr (c, ec) ↦ rw ec (
        join_user-Steps u is_op c w b
          (ap (λ n. to_luser n w) (sym (to_luser-num source u w eu)) ∙ eu)
          (to_channel-case c.name channel w (to_channel-name channel c w ec) ∙ ec))
  ])
]

pub known-Steps :
    (channel : Str) (ts : ℕ) (w : World)
    → Steps w (elim (to_channel channel w) as (λ _. World) [
      | some chan ↦ w
      | none ↦ new_channel channel ts false w
    ])
known-Steps channel ts w = elim (Option-cases (to_channel channel w)) [
  | inl n ↦ rw n (one w _ (opens channel ts w n))
  | inr (c, e) ↦ rw e (here w)
]

abbrev known : Str → ℕ → World → World
known channel ts w = elim (to_channel channel w) as (λ _. World) [
  | some chan ↦ w
  | none ↦ new_channel channel ts false w
]

join_one-Steps :
    (source : Str) (is_op : Bool) (ts : ℕ) (channel : Str) (w : World)
    → w.bursting ≡ true
    → Steps w (join_one source is_op ts channel w)
unfolding join_one
join_one-Steps source is_op ts channel w b =
    let stamp : ℕ = if ts == 0 then add_int w.now w.ts_offset else ts in
    let v : World = known channel stamp w in
    let u : World = set_channel channel (λ c. record c { lastact = w.now }) v in
    let run : Steps w u =
      after w v u (known-Steps channel stamp w)
        (touches channel (λ c. record c { lastact = w.now }) v (λ c. (refl, refl))) in
    Steps-trans w u _ run (join_found-Steps source is_op channel u (Steps-bursting w u run ∙ b))

join_word-Steps :
    (source : Str) (is_op : Bool) (ts : ℕ) (channel : Str) (w : World)
    → w.bursting ≡ true
    → Steps w (join_word source is_op ts channel w)
unfolding join_word
join_word-Steps source is_op ts channel w b = elim (Bool-cases (str_eq channel (codes "0"))) [
  | inl z ↦
      rw (join_word, z)
        (elim (Option-cases (to_luser source w)) [
          | inl n ↦ rw n (here w)
          | inr (u, e) ↦ rw e (part_rounds-Steps (length u.channel) source w)
        ])
  | inr z ↦
      rw (join_word, z)
        (elim (Bool-cases (is_empty channel)) [
          | inl e ↦ rw e (one w _ (logs _ w))
          | inr e ↦ rw e (join_one-Steps source is_op ts channel w b)
        ])
]

join_words-Steps :
    (source : Str) (is_op : Bool) (ts : ℕ) (channels : List Str) (w : World)
    → w.bursting ≡ true
    → Steps w (join_words source is_op ts channels w)
unfolding join_words
join_words-Steps source is_op ts [] w b = here w
join_words-Steps source is_op ts (channel ∷ channels) w b =
    let v : World = join_word source is_op ts channel w in
    let run = join_word-Steps source is_op ts channel w b in
    Steps-trans w v _ run (join_words-Steps source is_op ts channels v (Steps-bursting w v run ∙ b))

-- During the burst onjoin is a run of steps, whatever channels it names.
pub onjoin-Steps :
    (function source channel args : Str) (w : World)
    → w.bursting ≡ true
    → Steps w (onjoin function source channel args w)
unfolding onjoin
onjoin-Steps function source channel args w b = elim (Option-cases (to_luser source w)) [
  | inl n ↦ rw (onjoin, n) (one w _ (logs _ w))
  | inr (u, e) ↦
      rw (onjoin, e)
        (join_words-Steps source (str_eq function (codes "C")) (nat_of (atoi (to_word 0 args)))
          (split_commas [] channel) w b)
]
