-- ===== src/Match/Hostmask/Parts.antt =====
-- compare on two whole nick!user@host masks.
use undernet_cservice_p.Prelude.{
  ℕ, suc, ◌+◌, ◌≡◌, refl, ap, ◌∙◌, Bool, true, false, not, ◌&&◌, ◌||◌, [], ◌∷◌, ◌++◌, ◌==◌, ==_iff,
  Str, length, length-append, is_digit, arith, All,
}
use undernet_cservice_p.Match.Possible.{xmatch}
use undernet_cservice_p.Match.Hostmask.{
  Scan, scan, is_nil, read_sides, align, compare_loop, compare, is_bang_or_at, is_star_byte,
  breaks_ip, differ,
}

-- A part of a mask has neither `!` nor `@`.
abbrev pub IsPart : Str → Type 0
IsPart s = All (λ c. is_bang_or_at c ≡ false) s

-- Digits, dots, and a star at the end.
unfoldable pub rest_ip : Str → Bool
rest_ip [] = true
rest_ip (c ∷ h) = (is_digit c || c == b'.' || (c == b'*' && is_nil h)) && rest_ip h

-- What `compare` takes for an address: its first byte may be any but a star that is not the last.
unfoldable pub looks_ip : Str → Bool
unfolding rest_ip
looks_ip [] = true
looks_ip (c ∷ h) = (not (c == b'*') || is_nil h) && rest_ip h

scan-part :
    (first ip : Bool) (s : Str) (c : ℕ) (p : Str)
    → IsPart s
    → is_bang_or_at c ≡ true
    → ((scan is_bang_or_at is_star_byte first ip (s ++ c ∷ p)).segment ≡ s)
      × ((scan is_bang_or_at is_star_byte first ip (s ++ c ∷ p)).rest ≡ c ∷ p)
unfolding scan
scan-part first ip [] c p h e = rw e (refl, refl)
scan-part first ip (d ∷ s) c p h e =
    let ih =
      scan-part false (ip && not (breaks_ip (is_star_byte d) first d (s ++ c ∷ p))) s c p h.1 e in
    rw h.0 (ap (λ r. d ∷ r) ih.0, ih.1)

-- The bytes after the first.
keeps_ip :
    (ip : Bool) (d : ℕ) (s : Str) (r : Bool)
    → (ip && not (breaks_ip (is_star_byte d) false d s)) && r
      ≡ ip && ((is_digit d || d == b'.' || (d == b'*' && is_nil s)) && r)
keeps_ip ip d s r = ground arith

first_ip :
    (d : ℕ) (s : Str) (r : Bool)
    → not (breaks_ip (is_star_byte d) true d s) && r ≡ (not (d == b'*') || is_nil s) && r
first_ip d s r = ground arith

and_true_lem : (b : Bool) → b ≡ b && true
and_true_lem true = refl
and_true_lem false = refl

abbrev ends : Str → Bool → Scan
ends s ip = record { segment = s; ip = ip; rest = [] }

scan-whole :
    (ip : Bool) (s : Str)
    → IsPart s
    → scan is_bang_or_at is_star_byte false ip s ≡ ends s (ip && rest_ip s)
unfolding scan rest_ip
scan-whole ip [] h = ap (λ b. ends [] b) (and_true_lem ip)
scan-whole ip (d ∷ s) h =
    rw (h.0, scan-whole (ip && not (breaks_ip (is_star_byte d) false d s)) s h.1)
      (ap (λ b. ends (d ∷ s) b) (keeps_ip ip d s (rest_ip s)))

scan-host : (s : Str) → IsPart s → scan is_bang_or_at is_star_byte true true s ≡ ends s (looks_ip s)
unfolding scan looks_ip rest_ip
scan-host [] h = refl
scan-host (d ∷ s) h =
    rw (h.0, scan-whole (not (breaks_ip (is_star_byte d) true d s)) s h.1)
      (ap (λ b. ends (d ∷ s) b) (first_ip d s (rest_ip s)))

abbrev part_ip : Str → Bool
part_ip p = (scan is_bang_or_at is_star_byte true true p).ip

scan-part-whole :
    (s : Str) (c : ℕ) (p : Str)
    → IsPart s
    → is_bang_or_at c ≡ true
    → scan is_bang_or_at is_star_byte true true (s ++ c ∷ p)
      ≡ record { segment = s; ip = part_ip (s ++ c ∷ p); rest = c ∷ p }
scan-part-whole s c p h e =
    let (a, b) = scan-part true true s c p h e in
    λ i. record { segment = a i; ip = part_ip (s ++ c ∷ p); rest = b i }

-- A round on two parts that end at the same separator.
round-part :
    (f : ℕ) (s t : Str) (c : ℕ) (p q : Str)
    → IsPart s
    → IsPart t
    → is_bang_or_at c ≡ true
    → is_nil p ≡ false
    → compare_loop (suc f) false (s ++ c ∷ p) (t ++ c ∷ q) ≡ xmatch s t && compare_loop f false p q
unfolding compare_loop read_sides align
round-part f s t c p q hs ht e n =
    rw (scan-part-whole s c p hs e, scan-part-whole t c q ht e, (==_iff c c).1 refl, n)
      (ground (arith, xmatch s t))

round-host :
    (f : ℕ) (s t : Str)
    → IsPart s
    → IsPart t
    → compare_loop (suc f) false s t ≡ not (differ (looks_ip s) (looks_ip t)) && xmatch s t
unfolding compare_loop read_sides align
round-host f s t hs ht = rw (scan-host s hs, scan-host t ht) (ground arith)

-- nick!user@host
abbrev pub mask_of : Str → Str → Str → Str
mask_of n u h = n ++ b'!' ∷ (u ++ b'@' ∷ h)

mask_length : (n u h : Str) → length (mask_of n u h) ≡ suc (suc (length n + length u + length h))
mask_length n u h =
    omega (arith, length-append n (b'!' ∷ (u ++ b'@' ∷ h)), length-append u (b'@' ∷ h))

not_nil : (u h : Str) → is_nil (u ++ b'@' ∷ h) ≡ false
not_nil [] h = refl
not_nil (c ∷ u) h = refl

-- Two masks of three parts each, with a host that is not empty in the first, can match the same user
-- for `compare` exactly when their nicks can match the same text, and so their users and their
-- hosts, and both hosts or neither look like an address.
pub compare-parts :
    (n u h m v k : Str)
    → All IsPart (n ∷ u ∷ h ∷ m ∷ v ∷ k ∷ [])
    → is_nil h ≡ false
    → compare (mask_of n u h) (mask_of m v k)
      ≡ xmatch n m && (xmatch u v && (not (differ (looks_ip h) (looks_ip k)) && xmatch h k))
unfolding compare
compare-parts n u h m v k parts e =
    let (hn, (hu, (hh, (hm, (hv, (hk, _)))))) = parts in
    let f = length n + length u + length h in
    ap (λ g. compare_loop (suc g) false (mask_of n u h) (mask_of m v k)) (mask_length n u h)
    ∙ round-part (suc (suc f)) n m b'!' (u ++ b'@' ∷ h) (v ++ b'@' ∷ k) hn hm refl (not_nil u h)
    ∙ ap (λ r. xmatch n m && r)
        (round-part (suc f) u v b'@' h k hu hv refl e
          ∙ ap (λ r. xmatch u v && r) (round-host f h k hh hk))
