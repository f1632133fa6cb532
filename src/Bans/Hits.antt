-- ===== src/Bans/Hits.antt =====
-- The mask that MakeBanMask makes for a user with a hidden host matches that user.
use undernet_cservice_p.Prelude.{
  ℕ, ◌≡◌, ◌≢◌, ◌<◌, refl, ap, ◌∙◌, Bool, true, false, Option, none, some, [], ◌∷◌, ◌++◌,
  append_assoc, ◌==◌, ◌&&◌, All, All-append, Str, codes, length, arith,
}
use undernet_cservice_p.World.{Aluser}
use undernet_cservice_p.World.Lookup.{hidden, full_mask}
use undernet_cservice_p.Match.Mask.{match, starts_with, star_at, star_ipv6}
use undernet_cservice_p.Match.Mask.Meaning.{
  star, lit, items, Fits, nothing, skip, take_byte, byte, items-star, items-lit, items-nil,
}
use undernet_cservice_p.Match.Mask.Correct.{Decides, match-Decides}
use undernet_cservice_p.Bans.Masks.{make_ban_mask}

-- Neither a colon nor a byte that a mask gives a meaning.
abbrev pub IsPlain : Str → Type 0
IsPlain s = All (λ c. (c ≢ b'*') × (c ≢ b'\\') × (c ≢ b'?') × (c ≢ b':')) s

abbrev NoColon : Str → Type 0
NoColon s = All (λ c. c ≢ b':') s

IsPlain-NoColon : (s : Str) → IsPlain s → NoColon s
IsPlain-NoColon [] h = tt
IsPlain-NoColon (c ∷ s) h = (h.0.3, IsPlain-NoColon s h.1)

take_many : {p : _} (u t : Str) → Fits p t → Fits (star ∷ p) (u ++ t)
take_many [] t h = skip h
take_many (c ∷ u) t h = take_byte (take_many u t h)

Fits-plain : (s : Str) → IsPlain s → Fits (items s) s
Fits-plain [] h = rw items-nil nothing
Fits-plain (c ∷ s) h =
    rw (items-lit c s (ground (arith, h.0.0)) (ground (arith, h.0.1)) (ground (arith, h.0.2)))
      (byte refl (Fits-plain s h.1))

differs : (c : ℕ) (needle s : Str) → c ≢ b':' → (b':' == c && starts_with needle s) ≡ false
differs c needle s h = ground arith

star_at-none : (needle s : Str) → NoColon s → star_at (b':' ∷ needle) s ≡ none
unfolding star_at starts_with
star_at-none needle [] h = refl
star_at-none needle (c ∷ s) h = rw (differs c needle s h.0, star_at-none needle s h.1) refl

star_ipv6-same : (s : Str) → NoColon s → star_ipv6 s ≡ s
unfolding star_ipv6
star_ipv6-same s h =
    rw
      (
        star_ipv6,
        star_at-none (codes "/112") s h,
        star_at-none (codes "/96") s h,
        star_at-none (codes "/80") s h,
        star_at-none (codes "/64") s h,
      )
      refl

Decides-true : (G : Type 0) (o : Option Bool) → Decides G o → G → o ≡ some true
Decides-true G none d g = absurd d
Decides-true G (some true) d g = refl
Decides-true G (some false) d g = absurd (d g)

host_items :
    (host : Str) → items (codes "*!*@" ++ host) ≡ star ∷ lit b'!' ∷ star ∷ lit b'@' ∷ items host
host_items host =
    items-star b'*' (codes "!*@" ++ host) refl
    ∙ ap (λ p. star ∷ p)
        (items-lit b'!' (codes "*@" ++ host) refl refl refl
          ∙ ap (λ p. lit b'!' ∷ p)
              (items-star b'*' (codes "@" ++ host) refl
                ∙ ap (λ p. star ∷ p) (items-lit b'@' host refl refl refl)))

NoColon-mask :
    (u : Aluser) (host : Str)
    → IsPlain u.nick
    → IsPlain u.username
    → IsPlain host
    → NoColon (full_mask u host)
NoColon-mask u host n m h =
    All-append (λ c. c ≢ b':') (u.nick ++ b'!' ∷ u.username) (b'@' ∷ host)
      (All-append (λ c. c ≢ b':') u.nick (b'!' ∷ u.username) (IsPlain-NoColon u.nick n)
        ((λ e. ground arith), IsPlain-NoColon u.username m))
      ((λ e. ground arith), IsPlain-NoColon host h)

mask-Fits :
    (u : Aluser) (host : Str)
    → IsPlain host
    → Fits (items (codes "*!*@" ++ host)) (full_mask u host)
mask-Fits u host h =
    rw (host_items host, append_assoc u.nick (b'!' ∷ u.username) (b'@' ∷ host))
      (take_many u.nick (b'!' ∷ (u.username ++ b'@' ∷ host))
        (byte refl (take_many u.username (b'@' ∷ host) (byte refl (Fits-plain host h)))))

-- Where a user's host is hidden, and the nick, the username and the hidden host have no colon and
-- no `*`, `?` or `\`, and the hidden host less than 190 bytes, MakeBanMask makes a mask, and `match`
-- finds that the user as others see him matches it.
pub make_ban_mask-matches :
    (u : Aluser)
    → hidden u ≡ true
    → IsPlain u.nick
    → IsPlain u.username
    → IsPlain u.hiddenhost
    → length u.hiddenhost < 190
    → (mask : Str) × (make_ban_mask u ≡ some mask)
      × (match (full_mask u u.hiddenhost) mask ≡ some true)
unfolding make_ban_mask
make_ban_mask-matches u hid n m h short =
    let mask = codes "*!*@" ++ u.hiddenhost in
    let text = full_mask u u.hiddenhost in
    let same : star_ipv6 mask ≡ mask = star_ipv6-same mask (
      (λ e. ground arith),
      (
        (λ e. ground arith),
        ((λ e. ground arith), ((λ e. ground arith), IsPlain-NoColon u.hiddenhost h)),
      ),
    ) in
    let plain : star_ipv6 text ≡ text = star_ipv6-same text (NoColon-mask u u.hiddenhost n m h) in
    (
      mask,
      rw hid refl,
      Decides-true (Fits (items (star_ipv6 mask)) (star_ipv6 text)) (match text mask)
          (match-Decides text mask (rw same (omega (arith, short))))
          (rw (same, plain) (mask-Fits u u.hiddenhost h)),
    )
