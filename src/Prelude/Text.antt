-- ===== src/Prelude/Text.antt =====
-- Python's `str` where the code tests it: `lower`, `in`, `startswith` and truth.
-- `lower` follows Python on the Latin and the Russian letters, and leaves every other character.
use Prim.Native.Nat.{ℕ, ◌+◌}
use Prim.Native.Char.{code}
use Prim.Native.String
use Prim.Native.String.{String}
use mathlib.Core.Bool.{Bool, true, false, not, ◌&&◌, ◌||◌}
use mathlib.Core.List.{List, [], ◌∷◌, map, reverse}
use kb_concierge.Prelude.Tests.{leb, ◌==◌, str_eq, if◌then◌else◌}
use kb_concierge.Prelude.Lists.{any}

-- The characters of a text by their code points.
abbrev pub Codes : Type 0
Codes = List ℕ

abbrev pub codes : String → Codes
codes String.[] = []
codes (String.◌∷◌ c s) = code c ∷ codes s

abbrev lower_code : ℕ → ℕ
lower_code c =
    if leb b'A' c && leb c b'Z'
    then c + 32
    else if leb 0x410 c && leb c 0x42F
    then c + 32
    else if c == 0x401
    then 0x451
    else c

abbrev pub lower_codes : Codes → Codes
lower_codes t = map lower_code t

-- `s.lower()`
unfoldable pub lower : String → Codes
lower s = lower_codes (codes s)

-- What is left of a text after as many characters as the first has.
abbrev pub after : Codes → Codes → Codes
after [] t = t
after (c ∷ p) [] = []
after (c ∷ p) (d ∷ t) = after p t

abbrev pub is_prefix : Codes → Codes → Bool
is_prefix [] t = true
is_prefix (c ∷ p) [] = false
is_prefix (c ∷ p) (d ∷ t) = (c == d) && is_prefix p t

-- `p in t`
abbrev pub occurs : Codes → Codes → Bool
occurs p [] = is_prefix p []
occurs p (c ∷ t) = is_prefix p (c ∷ t) || occurs p t

-- `any(n in text for n in needles)`
unfoldable pub any_in : Codes → List String → Bool
any_in text needles = any (λ n. occurs (codes n) text) needles

-- The truth of a text: not empty.
abbrev pub non_empty : String → Bool
non_empty s = not (str_eq s "")

-- The parts of an f-string, one after the other.
unfoldable pub fstring : List String → String
fstring [] = ""
fstring (s ∷ ss) = String.◌++◌ s (fstring ss)

-- `sep.join(texts)`
unfoldable pub join : String → List String → String
join sep [] = ""
join sep (s ∷ []) = s
join sep (s ∷ t ∷ ss) = String.◌++◌ s (String.◌++◌ sep (join sep (t ∷ ss)))

-- `str.isspace` of one character
unfoldable pub is_space : ℕ → Bool
is_space c =
    (leb 9 c && leb c 13)
    || (leb 28 c && leb c 32)
    || (c == 0x85)
    || (c == 0xA0)
    || (c == 0x1680)
    || (leb 0x2000 c && leb c 0x200A)
    || (c == 0x2028)
    || (c == 0x2029)
    || (c == 0x202F)
    || (c == 0x205F)
    || (c == 0x3000)

drop_spaces : Codes → Codes
unfolding is_space
drop_spaces [] = []
drop_spaces (c ∷ t) = let rest = drop_spaces t in if is_space c then rest else c ∷ t

-- `s.strip()`
unfoldable pub strip : Codes → Codes
unfolding drop_spaces
strip t = reverse (drop_spaces (reverse (drop_spaces t)))

-- The number of words, `len(s.split())`; `inside` says that the last character was no space.
unfoldable pub words_from : Bool → Codes → ℕ
unfolding is_space
words_from inside [] = 0
words_from inside (c ∷ t) =
    if is_space c then words_from false t else (if inside then 0 else 1) + words_from true t

unfoldable pub word_count : Codes → ℕ
unfolding words_from
word_count t = words_from false t
