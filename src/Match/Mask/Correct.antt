-- ===== src/Match/Mask/Correct.antt =====
-- The loop of `match` ends with an answer, and the answer is right about `Fits`.
use undernet_cservice_p.Prelude.{
  ℕ, zero, suc, ◌+◌, ◌*◌, ◌≤◌, ◌<◌, ◌≡◌, ◌↔◌, refl, ap, sym, ◌∙◌, Bool, true, false, Option, none,
  some, List, [], ◌∷◌, ◌==◌, Str, length, arith, Bool-cases, Option-cases, inl, inr, false≢true,
}
use undernet_cservice_p.Match.Mask.{
  skip_stars, Stack, Round, back_up, match_byte, match_loop, match, star_ipv6,
}
use undernet_cservice_p.Match.Mask.Meaning.{
  Item, star, items, Accepts, Fits, skip, take_byte, byte, at_end, fold_stars, take_one, byte_inv,
  drop_item, items-star, items-nil, Fits-skip_stars, length-skip_stars-le, read, FirstItem,
  first_item, skip_stars_end,
}

-- The run ended with an answer, and the answer is right about `G`.
abbrev pub Decides : Type 0 → Option Bool → Type 0
Decides G (some true) = G
Decides G (some false) = ¬ G
Decides G none = ⊥

some-Decides : {G : Type 0} (b : Bool) → (b ≡ true) ↔ G → Decides G (some b)
some-Decides true e = e.0 refl
some-Decides false e = λ g. false≢true (e.1 g)

no_items : {c : ℕ} {s : Str} → ¬ Fits [] (c ∷ s)
no_items h = elim h [ ]

starred_iff :
    (d : ℕ) (p : Str)
    → (d == b'*') ≡ true
    → (t : Str) → Fits (items (d ∷ p)) t ↔ Fits (star ∷ items (skip_stars p)) t
starred_iff d p e t = rw (items-star d p e) (Fits-skip_stars p)

abbrev at_star : Str → Bool
at_star [] = false
at_star (d ∷ p) = d == b'*'

-- `G` is the question asked at the start; `k` bounds the length of a mask with the stack's.
module _ (G : Type 0) (k : ℕ) (k_small : k < 200) where
  -- What the top of the stack means. `m` bounds the text that is left to try again.
  abbrev Saved : ℕ → Str → Str → Stack → Type 0
  Saved m mask s [] = G → Fits (items mask) s
  Saved m mask s ((starred, left) ∷ stack) =
      (q : List Item) × ((t : Str) → Fits (items starred) t ↔ Fits (star ∷ q) t)
      × (G ↔ Fits (star ∷ q) left)
      × (Fits q left → Fits (items mask) s)
      × (length s ≤ length left)
      × (length left ≤ m)
      × (length stack + length starred ≤ k)
      × (at_star starred ≡ true)

  record Inv (f m : ℕ) (s mask : Str) (stack : Stack) : Type 0 where
    now : Fits (items mask) s → G
    later : G → Fits (star ∷ items mask) s
    saved : at_star mask ≡ false → Saved m mask s stack
    text_bound : length s ≤ m
    depth_bound : length stack + length mask ≤ k
    fuel : m * (k + 1) + length mask < f

  -- A star is pushed, and the mask goes on behind it.
  Inv-push :
      {f m d : ℕ} {p s : Str} {stack : Stack}
      → (d == b'*') ≡ true
      → Inv (suc f) m s (d ∷ p) stack
      → Inv f m s (skip_stars p) ((d ∷ p, s) ∷ stack)
  Inv-push {d} {p} {s} e i =
      let same = starred_iff d p e in
      let (to, back) = same s in
      let later' : G → Fits (star ∷ items (skip_stars p)) s =
        λ g. (Fits-skip_stars p).0 (fold_stars (rw (items-star d p e) at (i.later g))) in
      record {
        now = λ h. i.now (back (skip h));
        later = later';
        saved = λ _. (
          items (skip_stars p),
          same,
          (later', λ h. i.now (back h)),
          λ h. h,
          omega arith,
          i.text_bound,
          i.depth_bound,
          e,
        );
        text_bound = i.text_bound;
        depth_bound = omega (arith, length-skip_stars-le p, i.depth_bound);
        fuel = omega (arith, length-skip_stars-le p, i.fuel);
      }

  Saved-byte :
      (m c : ℕ) (s mask mask' : Str) (stack : Stack)
      → (Fits (items mask) (c ∷ s) → Fits (items mask') s)
      → Saved m mask (c ∷ s) stack
      → Saved m mask' s stack
  Saved-byte m c s mask mask' [] go h = λ g. go (h g)
  Saved-byte m c s mask mask' ((starred, left) ∷ stack) go
        (q, same, iff, down, shorter, hm, hk, hs) =
      (q, same, iff, λ h. go (down h), omega arith, hm, hk, hs)

  -- An item of the mask takes a byte.
  Inv-byte :
      {f m d c : ℕ} {p s mask : Str} {stack : Stack} (fi : FirstItem d p)
      → (d == b'*') ≡ false
      → Accepts fi.item c
      → mask ≡ fi.rest
      → Inv (suc f) m (c ∷ s) (d ∷ p) stack
      → Inv f m s mask stack
  Inv-byte {m} {d} {c} {p} {s} {mask} {stack} fi n a e i =
      let cut : items (d ∷ p) ≡ fi.item ∷ items mask =
        fi.splits ∙ ap (λ l. fi.item ∷ items l) (sym e) in
      let shorter : length mask ≤ length p = rw e fi.shorter in
      record {
        now = λ h. i.now (rw cut (byte a h));
        later = λ g. drop_item s fi.no_star (rw cut at (i.later g));
        saved = λ _.
            Saved-byte m c s (d ∷ p) mask stack (λ h. (byte_inv fi.no_star (rw cut at h)).1)
              (i.saved n);
        text_bound = omega (arith, i.text_bound);
        depth_bound = omega (arith, i.depth_bound, shorter);
        fuel = omega (arith, i.fuel, shorter);
      }

  -- A mismatch gives the last star one more byte.
  back_up-Decides :
      {f c : ℕ} {mask s : Str} (m : ℕ) (stack : Stack) (next : Round)
      → ((m' : ℕ) (s' mask' : Str) (st : Stack)
          → Inv f m' s' mask' st
          → Decides G (next s' mask' st))
      → Inv (suc f) m (c ∷ s) mask stack
      → at_star mask ≡ false
      → ¬ Fits (items mask) (c ∷ s)
      → Decides G (back_up next stack)
  unfolding back_up
  back_up-Decides m [] next ih i n no_fit = λ g. no_fit (i.saved n g)
  back_up-Decides m ((starred, []) ∷ stack) next ih i n no_fit =
      let (_, _, _, _, shorter, _, _, _) = i.saved n in absurd (omega arith)
  back_up-Decides zero ((starred, x ∷ left) ∷ stack) next ih i n no_fit =
      let (_, _, _, _, _, hm, _, _) = i.saved n in absurd (omega arith)
  back_up-Decides (suc m) ((starred, x ∷ left) ∷ stack) next ih i n no_fit =
      let (q, same, iff, down, shorter, hm, hk, hs) = i.saved n in
      let on : G → Fits (items starred) left =
        λ g. (same left).1 (take_one (iff.0 g) (λ h. no_fit (down h))) in
      ih m left starred stack (record {
        now = λ h. iff.1 (take_byte ((same left).0 h));
        later = λ g. skip (on g);
        saved = λ off. absurd (false≢true (sym off ∙ hs));
        text_bound = omega arith;
        depth_bound = hk;
        fuel = omega (arith, i.fuel);
      })

  match_byte-Decides :
      {f c : ℕ} {s : Str} (m d : ℕ) (p : Str) (stack : Stack) (next : Round)
      → ((m' : ℕ) (s' mask' : Str) (st : Stack)
          → Inv f m' s' mask' st
          → Decides G (next s' mask' st))
      → Inv (suc f) m (c ∷ s) (d ∷ p) stack
      → (d == b'*') ≡ false
      → Decides G (match_byte next c s (d ∷ p) stack)
  unfolding match_byte
  match_byte-Decides {c} {s} m d p stack next ih i n =
      let fi = first_item d p n in
      elim (Option-cases (read d p c)) [
        | inl e ↦
            rw (e, Decides)
              (back_up-Decides m stack next ih i n
                (λ h. fi.refuses c e (byte_inv fi.no_star (rw fi.splits at h)).0))
        | inr (mask, e) ↦
            let (a, eq) = fi.reads c mask e in
            rw (e, Decides) (ih m s mask stack (Inv-byte fi n a eq i))
      ]

  match_loop-Decides :
      (f m : ℕ) (s mask : Str) (stack : Stack)
      → Inv f m s mask stack
      → Decides G (match_loop f s mask stack)
  unfolding match_loop
  match_loop-Decides zero m s mask stack i = absurd (omega (arith, i.fuel))
  match_loop-Decides (suc f) m [] mask stack i =
      let (to, back) = skip_stars_end mask in
      some-Decides (length (skip_stars mask) == 0)
        (λ h. i.now (to h), λ g. back (at_end (i.later g)))
  match_loop-Decides (suc f) m (c ∷ s) [] stack i =
      back_up-Decides m stack (match_loop f) (match_loop-Decides f) i refl
        (λ h. no_items (rw items-nil at h))
  match_loop-Decides (suc f) m (c ∷ s) (d ∷ p) stack i = elim (Bool-cases (d == b'*')) [
    | inl e ↦
        let shallow : (suc (length stack) == 200) ≡ false = ground (arith, i.depth_bound) in
        rw (e, shallow)
          (match_loop-Decides f m (c ∷ s) (skip_stars p) ((d ∷ p, c ∷ s) ∷ stack) (Inv-push e i))
    | inr n ↦ rw n (match_byte-Decides m d p stack (match_loop f) (match_loop-Decides f) i n)
  ]

-- On a mask that has less than 200 bytes once its IPv6 prefix length is replaced, `match` ends
-- within its fuel, and answers 1 exactly when the text fits the mask, the prefix length of each
-- replaced.
pub match-Decides :
    (instring inmask : Str)
    → length (star_ipv6 inmask) < 200
    → Decides (Fits (items (star_ipv6 inmask)) (star_ipv6 instring)) (match instring inmask)
unfolding match
match-Decides instring inmask h =
    let s = star_ipv6 instring in
    let p = star_ipv6 inmask in
    match_loop-Decides (Fits (items p) s) (length p) h (suc ((length s + 1) * (length p + 2)))
      (length s) s p []
      (record {
        now = λ d. d;
        later = skip;
        saved = λ _ d. d;
        text_bound = omega arith;
        depth_bound = omega arith;
        fuel = omega arith;
      })
