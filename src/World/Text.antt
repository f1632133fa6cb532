-- ===== src/World/Text.antt =====
-- Text that the program builds by sprintf, and where it sends it: sendtoserv, notice, PutLog,
-- servnotice and broadcast of Sources/main.c, without DOHTTP.
use undernet_cservice_p.Prelude.{
  ℕ, zero, suc, ◌+◌, ◌/◌, ◌%◌, ◌*◌, ◌-◌, [], ◌∷◌, ◌++◌, ◌==◌, ltb, if◌then◌else◌, Str, codes,
  is_digit, ℤ, pos, sub_ℕ,
}
use undernet_cservice_p.World.{World, sent, logged, emit}

-- %d of a number that is not negative.
unfoldable pub digits_of : ℕ → ℕ → Str
digits_of zero n = []
digits_of (suc f) n =
    let more = digits_of f (n / 10) in
    if ltb n 10 then (b'0' + n) ∷ [] else more ++ (b'0' + n % 10) ∷ []

unfoldable pub decimal : ℕ → Str
unfolding digits_of
decimal n = digits_of (suc n) n

unfoldable pub digits_value : ℕ → Str → ℕ
digits_value acc [] = acc
digits_value acc (c ∷ s) = if is_digit c then digits_value (acc * 10 + (c - b'0')) s else acc

-- atoi of a text that begins with no space, where the number fits an int.
unfoldable pub atoi : Str → ℤ
unfolding digits_value
atoi [] = pos 0
atoi (c ∷ s) =
    if c == b'-'
    then sub_ℕ 0 (digits_value 0 s)
    else if c == b'+'
    then pos (digits_value 0 s)
    else pos (digits_value 0 (c ∷ s))

abbrev pub line_end : Str
line_end = 10 ∷ []

abbrev pub send_to_serv : Str → World → World
send_to_serv msg w = emit (sent msg) w

abbrev pub put_log : Str → World → World
put_log text w = emit (logged text) w

abbrev pub notice : Str → Str → World → World
notice target msg w =
    send_to_serv (w.my_yyxxx ++ codes " O " ++ target ++ codes " :" ++ msg ++ line_end) w

abbrev pub servnotice : Str → Str → World → World
servnotice target msg w =
    send_to_serv (w.my_yy ++ codes " O " ++ target ++ codes " :" ++ msg ++ line_end) w
