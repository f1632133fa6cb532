-- ===== src/Samples/Texts.antt =====
-- Text, words, patterns and masks.
use undernet_cservice_p.Prelude.{
  ◌≡◌, ◌↔◌, refl, ◌&&◌, not, true, false, some, List, [], ◌∷◌, Str, codes, to_upper, All, arith,
}
use undernet_cservice_p.Match.Case.{key_match, Occurs, key_match_iff}
use undernet_cservice_p.Match.Possible.{xmatch}
use undernet_cservice_p.Match.Possible.Hits.{Meet}
use undernet_cservice_p.Match.Possible.Complete.{xmatch_iff}
use undernet_cservice_p.Match.Mask.{match, star_ipv6}
use undernet_cservice_p.Match.Mask.Meaning.{Fits, items}
use undernet_cservice_p.Match.Mask.Correct.{Decides, match-Decides}
use undernet_cservice_p.Match.Hostmask.{compare, compare_loop, differ}
use undernet_cservice_p.Match.Hostmask.Parts.{looks_ip, mask_of, compare-parts}
use undernet_cservice_p.Match.Hostmask.Fuel.{CompareRun, compare_loop-Runs}
use undernet_cservice_p.Words.{get_word}
use undernet_cservice_p.Words.Laws.{unwords, nth_word, get_word-unwords}

abbrev mask : Str
mask = codes "*!*a?@x.\\*"

abbrev user_text : Str
user_text = codes "Nick!bAc@X.*"

match_test : match user_text mask ≡ some true
unfolding match to_upper
match_test = refl

match-Decides_example :
    Decides (Fits (items (star_ipv6 mask)) (star_ipv6 user_text)) (match user_text mask)
unfolding star_ipv6
match-Decides_example = match-Decides user_text mask (omega arith)

xmatch_test : xmatch (codes "a*c") (codes "*bc") ≡ true
unfolding xmatch
xmatch_test = refl

-- A star next to a star is not matched against the end of a text.
xmatch_stars_test : xmatch (codes "a") (codes "a**") ≡ false
unfolding xmatch
xmatch_stars_test = refl

xmatch_iff_example : (xmatch (codes "a*") (codes "*b") ≡ true) ↔ Meet (codes "a*") (codes "*b")
xmatch_iff_example =
    xmatch_iff (codes "a*") (codes "*b") ((λ e. ground arith), tt) ((λ _ e. ground arith), tt)

compare-parts_example :
    compare
      (mask_of (codes "*") (codes "u") (codes "1.*"))
      (mask_of (codes "n") (codes "*") (codes "1.2"))
    ≡ xmatch (codes "*") (codes "n")
      && (xmatch (codes "u") (codes "*")
          && (not (differ (looks_ip (codes "1.*")) (looks_ip (codes "1.2")))
              && xmatch (codes "1.*") (codes "1.2")))
compare-parts_example =
    compare-parts (codes "*") (codes "u") (codes "1.*") (codes "n") (codes "*") (codes "1.2")
      (
        (refl, tt),
        (
          (refl, tt),
          (
            (refl, (refl, (refl, tt))),
            ((refl, tt), ((refl, tt), ((refl, (refl, (refl, tt))), tt))),
          ),
        ),
      )
      refl

compare_test : compare (codes "*!u@1.*") (codes "n!*@1.2") ≡ true
unfolding compare xmatch
compare_test = refl

abbrev keys : List Str
keys = codes "B" ∷ codes "c" ∷ []

key_match_iff_example :
    (key_match (codes "abC") keys ≡ true) ↔ All (λ t. Occurs t (codes "abC")) keys
key_match_iff_example = key_match_iff (codes "abC") keys

get_word-unwords_example : get_word 1 (unwords keys) ≡ nth_word 1 keys
get_word-unwords_example = get_word-unwords keys 1 (
  record {
    first = b'B';
    others = [];
    splits = refl;
    spaceless = ((λ e. ground arith), tt);
    short = omega arith;
  },
  (
    record {
      first = b'c';
      others = [];
      splits = refl;
      spaceless = ((λ e. ground arith), tt);
      short = omega arith;
    },
    tt,
  ),
)

compare_loop-Runs_example :
    CompareRun false
      (codes "a!b@c")
      (codes "*!*@c")
      (compare_loop 6 false (codes "a!b@c") (codes "*!*@c"))
compare_loop-Runs_example = compare_loop-Runs 6 false (codes "a!b@c") (codes "*!*@c") (omega arith)

-- The host ab is matched by both masks.
compare_host_test : compare (codes "n!u@a*") (codes "n!u@*b") ≡ false
unfolding compare xmatch
compare_host_test = refl

xmatch_host_test : xmatch (codes "a*") (codes "*b") ≡ true
unfolding xmatch
xmatch_host_test = refl
