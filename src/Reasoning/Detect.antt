-- ===== src/Reasoning/Detect.antt =====
-- backend/src/api/reasoning/{confirmation,feedback}.py: consent, an edit, feedback. The keywords of
-- consent are those of replies_data.json. A word character is a digit, `_`, a Latin or a Cyrillic
-- letter.
pub mod Verdicts
use kb_concierge.Prelude.{
  ℕ, ◌+◌, String, Bool, true, false, ◌&&◌, ◌||◌, not, Option, none, some, List, [], ◌∷◌,
  if◌then◌else◌, ltb, leb, ◌==◌, any, length, Codes, codes, lower, strip, word_count, is_prefix,
  occurs, any_in,
}

pub data Confirmation : Type 0 where
  yes_given no_given unclear : Confirmation

abbrev pub confirm_yes : List String
confirm_yes =
    "да" ∷ "подтвержда" ∷ "подтверждаю" ∷ "согла" ∷ "оформляй" ∷ "оформляйте" ∷ "давай" ∷ "давайте"
    ∷ "ок" ∷ "окей" ∷ "хорошо" ∷ "верно" ∷ "поехали" ∷ "запускай" ∷ []

abbrev pub confirm_no : List String
confirm_no =
    "нет" ∷ "не надо" ∷ "не нужно" ∷ "отмен" ∷ "откажусь" ∷ "отказ" ∷ "стоп" ∷ "погоди" ∷ "передума"
    ∷ "не хочу" ∷ []

is_word : ℕ → Bool
is_word c =
    (leb b'0' c && leb c b'9')
    || (leb b'A' c && leb c b'Z')
    || (leb b'a' c && leb c b'z')
    || (c == b'_')
    || (leb 0x400 c && leb c 0x52F)

starts_word : Codes → Bool
unfolding is_word
starts_word [] = false
starts_word (c ∷ t) = is_word c

-- What follows a prefix.
after : Codes → Codes → Codes
after [] t = t
after (c ∷ p) [] = []
after (c ∷ p) (d ∷ t) = after p t

-- `re.search(rf"(?<!\w){needle}(?!\w)", text)`; `inside` says that a word character precedes.
unfoldable pub occurs_alone : Bool → Codes → Codes → Bool
unfolding is_word starts_word after
occurs_alone inside p [] = false
occurs_alone inside p (c ∷ t) =
    (not inside && is_prefix p (c ∷ t) && not (starts_word (after p (c ∷ t))))
    || occurs_alone (is_word c) p t

-- `_token_match`
unfoldable pub token_match : Codes → String → Bool
unfolding occurs_alone
token_match text needle =
    let p = codes needle in if leb (length p) 2 then occurs_alone false p text else occurs p text

-- `detect_confirmation` on the lowered and stripped text.
unfoldable pub detect_in : Codes → Confirmation
detect_in text =
    let has_no = any_in text confirm_no in
    let has_yes = any (token_match text) confirm_yes in
    if has_no then no_given else if has_yes then yes_given else unclear

unfoldable pub detect_confirmation : String → Confirmation
detect_confirmation masked_text = detect_in (strip (lower masked_text))

abbrev pub edit_triggers : List String
edit_triggers =
    "измен" ∷ "помен" ∷ "поправ" ∷ "исправ" ∷ "передел" ∷ "перенес" ∷ "перенос" ∷ "редактир"
    ∷ "не так" ∷ []

abbrev pub edit_fields : List (String × String)
edit_fields =
    ("дат", "datetime")
    ∷ ("время", "datetime")
    ∷ ("час", "datetime")
    ∷ ("когда", "datetime")
    ∷ ("перенес", "datetime")
    ∷ ("перенос", "datetime")
    ∷ ("площад", "area_or_rooms")
    ∷ ("метр", "area_or_rooms")
    ∷ ("комнат", "area_or_rooms")
    ∷ ("размер", "area_or_rooms")
    ∷ ("тип уборки", "cleaning_type")
    ∷ ("генеральн", "cleaning_type")
    ∷ ("поддержив", "cleaning_type")
    ∷ ("город", "city")
    ∷ ("объём", "volume")
    ∷ ("объем", "volume")
    ∷ ("грузчик", "movers_packing")
    ∷ ("упаков", "movers_packing")
    ∷ ("этаж", "floors_elevators")
    ∷ ("лифт", "floors_elevators")
    ∷ ("электрик", "subcategory")
    ∷ ("сантехник", "subcategory")
    ∷ ("доступ", "access")
    ∷ []

-- The first pair whose stem occurs.
unfoldable pub first_match : Codes → List (String × String) → Option String
first_match text [] = none
first_match text ((stem, key) ∷ pairs) =
    if occurs (codes stem) text then some key else first_match text pairs

or_general : Bool → Option String → Option String
or_general is_edit (some key) = some key
or_general is_edit none = if is_edit then some "" else none

-- `detect_edit`: the field to change, "" for an edit of no field in particular, or no edit.
unfoldable pub detect_edit : String → Option String
unfolding first_match or_general
detect_edit masked_text =
    let text = strip (lower masked_text) in
    let is_edit = any_in text edit_triggers in
    let is_short = leb (word_count text) 3 in
    if not is_edit && not is_short then none else or_general is_edit (first_match text edit_fields)

pub data Feedback : Type 0 where
  positive negative : Feedback

abbrev pub positive_words : List String
positive_words =
    "помогло" ∷ "спасибо, помог" ∷ "всё отлично" ∷ "все отлично" ∷ "отлично, спасибо" ∷ "супер"
    ∷ "класс" ∷ "решилось" ∷ "решено" ∷ "то что нужно" ∷ []

abbrev pub negative_words : List String
negative_words =
    "не помогло" ∷ "не помог" ∷ "не решил" ∷ "не сработал" ∷ "бесполезно" ∷ "плохо помог"
    ∷ "так и не" ∷ "не то" ∷ []

-- `detect_feedback`
unfoldable pub detect_feedback : String → Option Feedback
detect_feedback masked_text =
    let text = strip (lower masked_text) in
    if ltb 6 (word_count text)
    then none
    else if any_in text negative_words
    then some negative
    else if any_in text positive_words
    then some positive
    else none
