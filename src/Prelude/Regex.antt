-- ===== src/Prelude/Regex.antt =====
-- Python's `re` as the code uses it: a backtracking search over code points, with one group.
-- `\d` is an ASCII digit; `\s` is `str.isspace`; a letter of a word is a Latin or a Russian one.
use Prim.Native.Nat.{ℕ, zero, suc, ◌+◌, ◌-◌, ◌*◌}
use Prim.Native.String.{String}
use mathlib.Core.Bool.{Bool, false, not, ◌&&◌, ◌||◌}
use mathlib.Core.Option.{Option, none, some}
use mathlib.Core.List.{List, [], ◌∷◌, ◌++◌}
use kb_concierge.Prelude.Tests.{leb, ◌==◌, if◌then◌else◌}
use kb_concierge.Prelude.Text.{Codes, codes}

-- A pattern. `star` repeats a class of characters greedily, as often as it can; `group` is the
-- group whose text the caller reads.
pub data Rx : Type 0 where
  empty : Rx
  one : (ℕ → Bool) → Rx
  star : (ℕ → Bool) → Rx
  text : String → Rx
  then_ either : Rx → Rx → Rx
  group : Rx → Rx
  boundary : Rx

-- Where a match has come to: the character before, the rest, what the open group has read
-- (newest first), and the group's text.
pub record Place : Type 0 where
  pub before : Option ℕ
  pub rest : Codes
  pub read : Codes
  pub found : Codes

unfoldable pub is_digit : ℕ → Bool
is_digit c = leb 48 c && leb c 57

unfoldable pub is_word : ℕ → Bool
unfolding is_digit
is_word c =
    is_digit c
    || (leb 65 c && leb c 90)
    || (leb 97 c && leb c 122)
    || (c == 95)
    || (leb 0x400 c && leb c 0x4FF)

step : ℕ → Codes → Place → Place
step c t p = record { before = some c; rest = t; read = c ∷ p.read; found = p.found }

one_of : (ℕ → Bool) → Codes → Place → List Place
unfolding step
one_of q [] p = []
one_of q (c ∷ t) p = if q c then step c t p ∷ [] else []

star_of : (ℕ → Bool) → Codes → Place → List Place
unfolding step
star_of q [] p = p ∷ []
star_of q (c ∷ t) p =
    let further = star_of q t (step c t p) in if q c then further ++ p ∷ [] else p ∷ []

text_of : Codes → Codes → Place → List Place
unfolding step
text_of [] t p = p ∷ []
text_of (k ∷ ks) [] p = []
text_of (k ∷ ks) (c ∷ t) p = if k == c then text_of ks t (step c t p) else []

word_before : Option ℕ → Bool
unfolding is_word
word_before none = false
word_before (some c) = is_word c

word_after : Codes → Bool
unfolding is_word
word_after [] = false
word_after (c ∷ t) = is_word c

at_boundary : Place → Bool
unfolding word_before word_after
at_boundary p = if word_before p.before then not (word_after p.rest) else word_after p.rest

reversed : Codes → Codes → Codes
reversed [] acc = acc
reversed (c ∷ t) acc = reversed t (c ∷ acc)

opened : Place → Place
opened p = record p { read = [] }

closed_group : Place → Place
unfolding reversed
closed_group p = record p { found = reversed p.read [] }

close_all : List Place → List Place
unfolding closed_group
close_all [] = []
close_all (p ∷ ps) = closed_group p ∷ close_all ps

each : (Place → List Place) → List Place → List Place
each f [] = []
each f (p ∷ ps) = f p ++ each f ps

-- The places where a match of the pattern may end, the preferred first.
unfoldable pub ends : Rx → Place → List Place
unfolding one_of star_of text_of at_boundary opened close_all each
ends empty p = p ∷ []
ends (one q) p = one_of q p.rest p
ends (star q) p = star_of q p.rest p
ends (text s) p = text_of (codes s) p.rest p
ends (then_ x y) p = each (ends y) (ends x p)
ends (either x y) p = ends x p ++ ends y p
ends (group x) p = close_all (ends x (opened p))
ends boundary p = if at_boundary p then p ∷ [] else []

group_of : List Place → Option Codes
group_of [] = none
group_of (p ∷ ps) = some p.found

start_at : Option ℕ → Codes → Place
start_at before t = record { before = before; rest = t; read = []; found = [] }

or_else : Option Codes → Option Codes → Option Codes
or_else none o = o
or_else (some g) o = some g

search_from : Rx → Option ℕ → Codes → Option Codes
unfolding ends group_of start_at or_else
search_from x before [] = group_of (ends x (start_at before []))
search_from x before (c ∷ t) =
    or_else (group_of (ends x (start_at before (c ∷ t)))) (search_from x (some c) t)

-- `re.search(x, t)`: the text of the group in the first match.
unfoldable pub search : Rx → Codes → Option Codes
unfolding search_from
search x t = search_from x none t

-- A sequence, and the repetitions of a class.
unfoldable pub all_of : List Rx → Rx
all_of [] = empty
all_of (x ∷ []) = x
all_of (x ∷ y ∷ xs) = then_ x (all_of (y ∷ xs))

unfoldable pub opt : Rx → Rx
opt x = either x empty

unfoldable pub at_least : ℕ → (ℕ → Bool) → Rx
at_least zero q = star q
at_least (suc n) q = then_ (one q) (at_least n q)

digits_from : ℕ → Codes → ℕ
unfolding is_digit
digits_from acc [] = acc
digits_from acc (c ∷ t) = digits_from (if is_digit c then acc * 10 + (c - 48) else acc) t

-- The number that the digits of a text make, other characters left out.
unfoldable pub digits_value : Codes → ℕ
unfolding digits_from
digits_value t = digits_from 0 t
