-- ===== src/Text.antt =====
-- What the sources use of JavaScript's texts: a text is the list of its code units.
use peta_core.Json.{codes, text}
use peta_core.Prelude.{
  ℕ, List, Bool, Option, text_eq, [], any, false, get_or, if◌then◌else◌, leb, ltb, nat_beq, none,
  some, suc, true, zero, ◌&&◌, ◌*◌, ◌++◌, ◌+◌, ◌-◌, ◌||◌, ◌∷◌, drop, length, take,
}
use peta_core.Prelude.Int.{ℤ, pos, negsuc}

-- `text.split(sep)` at a separator of one character
join_head : ℕ → List (List ℕ) → List (List ℕ)
join_head c [] = []
join_head c (w ∷ ws) = (c ∷ w) ∷ ws

unfoldable pub split_on : ℕ → List ℕ → List (List ℕ)
unfolding join_head
split_on sep [] = [] ∷ []
split_on sep (c ∷ cs) =
    let rest = split_on sep cs in if nat_beq c sep then [] ∷ rest else join_head c rest

-- `text.startsWith(prefix)`
unfoldable pub starts_with : List ℕ → List ℕ → Bool
starts_with text [] = true
starts_with [] (p ∷ ps) = false
starts_with (c ∷ cs) (p ∷ ps) = nat_beq c p && starts_with cs ps

-- `text.includes(c)` for one character
unfoldable pub has_char : ℕ → List ℕ → Bool
has_char c text = any (λ d. nat_beq d c) text

-- the white space and line ends that `trim` and `parseInt` skip
abbrev pub is_blank : ℕ → Bool
is_blank c =
    (leb 9 c && leb c 13)
    || (leb 8192 c && leb c 8202)
    || any (λ d. nat_beq c d) (32 ∷ 160 ∷ 5760 ∷ 8232 ∷ 8233 ∷ 8239 ∷ 8287 ∷ 12288 ∷ 65279 ∷ [])

unfoldable pub skip_blanks : List ℕ → List ℕ
skip_blanks [] = []
skip_blanks (c ∷ cs) = let rest = skip_blanks cs in if is_blank c then rest else c ∷ cs

abbrev pub digit_value : ℕ → ℕ
digit_value c =
    if leb b'0' c && leb c b'9'
    then c - b'0'
    else if leb b'a' c && leb c b'z'
    then c - b'a' + 10
    else if leb b'A' c && leb c b'Z'
    then c - b'A' + 10
    else 36

-- The number that the leading digits write, none if there is no digit.
unfoldable pub read_digits : ℕ → Option ℕ → List ℕ → Option ℕ
read_digits base read [] = read
read_digits base read (c ∷ cs) =
    if ltb (digit_value c) base
    then read_digits base (some (get_or read 0 * base + digit_value c)) cs
    else read

abbrev pub read_number : List ℕ → Option ℕ
read_number (c ∷ d ∷ cs) =
    if nat_beq c b'0' && (nat_beq d b'x' || nat_beq d b'X')
    then read_digits 16 none cs
    else read_digits 10 none (c ∷ d ∷ cs)
read_number text = read_digits 10 none text

abbrev pub negated : ℕ → ℤ
negated zero = pos 0
negated (suc n) = negsuc n

abbrev pub map_number : (ℕ → ℤ) → Option ℕ → Option ℤ
map_number f none = none
map_number f (some n) = some (f n)

abbrev pub read_signed : List ℕ → Option ℤ
read_signed [] = none
read_signed (c ∷ cs) =
    if nat_beq c b'-'
    then map_number negated (read_number cs)
    else if nat_beq c b'+'
    then map_number pos (read_number cs)
    else map_number pos (read_number (c ∷ cs))

-- `parseInt(text)`, none where it gives NaN, for numbers that a double holds exactly
unfoldable pub parse_int : List ℕ → Option ℤ
unfolding skip_blanks read_digits
parse_int text = read_signed (skip_blanks text)

-- `text.trim()`
unfoldable pub reverse : List ℕ → List ℕ
reverse [] = []
reverse (c ∷ cs) = reverse cs ++ c ∷ []

unfoldable pub trim : List ℕ → List ℕ
unfolding skip_blanks reverse
trim text = reverse (skip_blanks (reverse (skip_blanks text)))

-- the text without its last character, if that is a `*`
unfoldable pub strip_star : List ℕ → Option (List ℕ)
strip_star [] = none
strip_star (c ∷ []) = if nat_beq c b'*' then some [] else none
strip_star (c ∷ d ∷ cs) = elim (strip_star (d ∷ cs)) [ none ↦ none | some r ↦ some (c ∷ r) ]

-- utils/tokenMask.ts
unfoldable pub mask_token : List ℕ → List ℕ
mask_token token =
    if leb (length token) 16
    then codes "[redacted]"
    else take 8 token ++ codes "..." ++ drop (length token - 8) token
