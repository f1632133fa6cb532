-- ===== src/World/Channels.antt =====
-- ToChannel: the case of a channel's name does not matter, and a write through its pointer is found
-- again.
use undernet_cservice_p.Prelude.{
  ◌+◌, ◌%◌, ◌≡◌, refl, ap, sym, ◌∙◌, Bool, true, false, Bool-cases, inl, inr, Option, none, some,
  List, [], ◌∷◌, map, ==_iff, Str, find, str_case_eq, str_case_eq_iff, to_upper,
}
use undernet_cservice_p.World.{World, Achannel}
use undernet_cservice_p.World.Lookup.{
  sum_bytes, sum_upper, cl_hash, to_channel, update_first, set_channel,
}

sum_upper-map : (s : Str) → sum_upper s ≡ sum_bytes (map to_upper s)
unfolding sum_upper sum_bytes
sum_upper-map [] = refl
sum_upper-map (c ∷ s) = ap (λ n. to_upper c + n) (sum_upper-map s)

pub cl_hash-case : (s t : Str) → map to_upper s ≡ map to_upper t → cl_hash s ≡ cl_hash t
unfolding cl_hash
cl_hash-case s t e = ap (λ n. n % 1000) (sum_upper-map s ∙ ap sum_bytes e ∙ sym (sum_upper-map t))

same_test : (b c : Bool) → (b ≡ true → c ≡ true) → (c ≡ true → b ≡ true) → b ≡ c
same_test true c f g = sym (f refl)
same_test false true f g = g refl
same_test false false f g = refl

pub str_case_eq-case :
    (x s t : Str) → map to_upper s ≡ map to_upper t → str_case_eq x s ≡ str_case_eq x t
str_case_eq-case x s t e =
    same_test (str_case_eq x s) (str_case_eq x t)
      (λ h. (str_case_eq_iff x t).1 ((str_case_eq_iff x s).0 h ∙ e))
      (λ h. (str_case_eq_iff x s).1 ((str_case_eq_iff x t).0 h ∙ sym e))

-- Two names that strcasecmp takes for the same lead ToChannel to the same channel, also where they
-- differ in case: their hashes agree.
pub to_channel-case :
    (s t : Str) (w : World) → str_case_eq s t ≡ true → to_channel s w ≡ to_channel t w
unfolding to_channel
to_channel-case s t w h =
    let e = (str_case_eq_iff s t).0 h in
    rw (cl_hash-case s t e)
      (ap (λ p. find p (w.channel_list (cl_hash t))) (λ i curr. str_case_eq-case curr.name s t e i))

abbrev pub map_option : (Achannel → Achannel) → Option Achannel → Option Achannel
map_option f none = none
map_option f (some c) = some (f c)

find-update_first :
    (channel : Str) (f : Achannel → Achannel) (cs : List Achannel)
    → ((c : Achannel) → (f c).name ≡ c.name)
    → find (λ c. str_case_eq c.name channel) (update_first channel f cs)
      ≡ map_option f (find (λ c. str_case_eq c.name channel) cs)
unfolding find update_first
find-update_first channel f [] h = refl
find-update_first channel f (c ∷ cs) h = elim (Bool-cases (str_case_eq c.name channel)) [
  | inl e ↦ rw (e, h c, e) refl
  | inr e ↦ rw (e, e) (find-update_first channel f cs h)
]

-- A write through the pointer that ToChannel returns, which leaves the name of the channel as it is,
-- is what ToChannel finds afterwards.
pub to_channel-set_channel :
    (channel : Str) (f : Achannel → Achannel) (w : World)
    → ((c : Achannel) → (f c).name ≡ c.name)
    → to_channel channel (set_channel channel f w) ≡ map_option f (to_channel channel w)
unfolding to_channel set_channel
to_channel-set_channel channel f w h =
    rw ((==_iff (cl_hash channel) (cl_hash channel)).1 refl)
      (find-update_first channel f (w.channel_list (cl_hash channel)) h)
