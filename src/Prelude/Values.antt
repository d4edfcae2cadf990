-- ===== src/Prelude/Values.antt =====
-- The values of `json.loads` and of a JSONB column. Of the numbers only the naturals are needed.
use Prim.Native.Nat.{ℕ}
use Prim.Native.String.{String}
use mathlib.Core.Bool.{Bool, true, false, not, ◌||◌}
use mathlib.Core.Option.{Option, none, some}
use mathlib.Core.List.{List, [], ◌∷◌}
use kb_concierge.Prelude.Tests.{◌==◌, str_eq, if◌then◌else◌, Result, ok, err, PyError, type_error}

mutual
  pub data Json : Type 0 where
    null : Json
    bool : Bool → Json
    num : ℕ → Json
    str : String → Json
    arr : Items → Json
    obj : Fields → Json

  pub data Items : Type 0 where
    nil : Items
    cons : Json → Items → Items

  pub data Fields : Type 0 where
    end : Fields
    field : String → Json → Fields → Fields

-- `spec.get(key)`: `none` is a missing key.
unfoldable pub get_field : String → Fields → Option Json
get_field k end = none
get_field k (field j v fs) = if str_eq j k then some v else get_field k fs

-- `bool(x)`
unfoldable pub truth : Json → Bool
truth null = false
truth (bool b) = b
truth (num n) = not (n == 0)
truth (str s) = not (str_eq s "")
truth (arr nil) = false
truth (arr (cons x xs)) = true
truth (obj end) = false
truth (obj (field k v fs)) = true

-- The value of a key, or what `get` is given for a missing one.
abbrev pub get_default : String → Json → Fields → Json
get_default k d fs = elim (get_field k fs) [ none ↦ d | some v ↦ v ]

abbrev pub item_list : Items → List Json
item_list nil = []
item_list (cons x xs) = x ∷ item_list xs

key_list : Fields → List Json
key_list end = []
key_list (field k v fs) = str k ∷ key_list fs

char_list : String → List Json
char_list String.[] = []
char_list (String.◌∷◌ c s) = str (String.◌∷◌ c String.[]) ∷ char_list s

-- `tuple(x)`: a text gives its characters, an object its keys; what is not iterable raises.
unfoldable pub tuple_of : Json → Result PyError (List Json)
unfolding key_list char_list
tuple_of (arr xs) = ok (item_list xs)
tuple_of (obj fs) = ok (key_list fs)
tuple_of (str s) = ok (char_list s)
tuple_of null = err type_error
tuple_of (bool b) = err type_error
tuple_of (num n) = err type_error

is_str : String → Json → Bool
is_str s (str t) = str_eq t s
is_str s _ = false

-- `s in xs`
unfoldable pub has_str : String → List Json → Bool
unfolding is_str
has_str s [] = false
has_str s (x ∷ xs) = is_str s x || has_str s xs
