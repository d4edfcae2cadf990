-- ===== src/Orders.antt =====
-- backend/src/api/orders: the required fields of an order, and what is known of them from a text.
-- The texts and keywords are those of the bundled fields_data.json. `area` and `date_time` are the
-- first matches of the two regular expressions.
use kb_concierge.Prelude.{
  String, Bool, false, not, Option, none, some, List, [], ◌∷◌, map, keep, any, if◌then◌else◌,
  str_eq, non_empty, Codes, codes, lower, occurs, any_in, fstring, join, Dict, lookup, insert,
}

pub record FieldSpec : Type 0 where
  pub key : String
  pub prompt : String

abbrev pub spec : String → String → FieldSpec
spec k p = record { key = k; prompt = p }

abbrev pub cleaning_fields : List FieldSpec
cleaning_fields =
    spec "cleaning_type" "Какой тип уборки нужен: поддерживающая, генеральная или после ремонта?"
    ∷ spec "area_or_rooms" "Уточните площадь (кв. м) или число комнат."
    ∷ spec "datetime" "На какую дату и время удобно?"
    ∷ []

abbrev pub moving_fields : List FieldSpec
moving_fields =
    spec "city" "В каком городе переезд — Санкт-Петербург или Москва?"
    ∷ spec "volume" "Каков объём переезда (число комнат/вещей, есть ли крупногабарит)?"
    ∷ spec "floors_elevators" "Укажите этаж и наличие лифта с обеих сторон."
    ∷ spec "movers_packing" "Нужны ли грузчики и упаковка?"
    ∷ spec "datetime" "На какую дату и время удобно?"
    ∷ []

abbrev pub repair_fields : List FieldSpec
repair_fields =
    spec "subcategory" "Что нужно: ремонт бытовой техники, электрика, сантехника или другое?"
    ∷ spec "problem_description" "Опишите неисправность."
    ∷ spec "datetime" "На какую дату и время удобно?"
    ∷ spec "access" "Будет ли доступ в помещение в это время?"
    ∷ []

abbrev pub cleaning_type_words : List (String × String)
cleaning_type_words =
    ("после ремонт", "после ремонта")
    ∷ ("генеральн", "генеральная")
    ∷ ("поддержив", "поддерживающая")
    ∷ []

abbrev pub repair_subcategory_words : List (String × String)
repair_subcategory_words =
    ("электрик", "электрика")
    ∷ ("сантехник", "сантехника")
    ∷ ("кран", "сантехника")
    ∷ ("смесител", "сантехника")
    ∷ ("протечк", "сантехника")
    ∷ ("бытов", "бытовая техника")
    ∷ ("техник", "бытовая техника")
    ∷ []

abbrev pub city_words : List (String × String)
city_words =
    ("спб", "spb")
    ∷ ("санкт-петербург", "spb")
    ∷ ("питер", "spb")
    ∷ ("мск", "msk")
    ∷ ("москв", "msk")
    ∷ []

abbrev pub packing_words : List String
packing_words = "грузчик" ∷ "упаков" ∷ []

-- `ORDER_CATEGORIES`
abbrev pub is_order_category : String → Bool
is_order_category c = any (str_eq c) ("CLEANING" ∷ "MOVING" ∷ "REPAIR" ∷ [])

-- `_DATA.categories.get(category, ())`
unfoldable pub specs_of : String → List FieldSpec
specs_of category =
    if str_eq category "CLEANING"
    then cleaning_fields
    else if str_eq category "MOVING"
    then moving_fields
    else if str_eq category "REPAIR"
    then repair_fields
    else []

key_of : FieldSpec → String
key_of s = s.key

unfoldable pub required_keys : String → List String
unfolding key_of
required_keys category = map key_of (specs_of category)

prompt_in : String → List FieldSpec → Option String
prompt_in k [] = none
prompt_in k (s ∷ ss) = if str_eq s.key k then some s.prompt else prompt_in k ss

unfoldable pub prompt_for : String → String → Option String
unfolding prompt_in
prompt_for category k = prompt_in k (specs_of category)

prompts : String → List String → List String
prompts category [] = []
prompts category (k ∷ ks) =
    let rest = prompts category ks in
    elim (prompt_for category k) [ none ↦ rest | some p ↦ p ∷ rest ]

listed : String → String
listed p = fstring ("— " ∷ p ∷ [])

one_question : List String → String
unfolding listed
one_question [] = ""
one_question (p ∷ []) = p
one_question (p ∷ q ∷ ps) =
    fstring
      ("Чтобы оформить заявку, уточните, пожалуйста:\n" ∷ join "\n" (map listed (p ∷ q ∷ ps)) ∷ [])

unfoldable pub build_fields_prompt : String → List String → String
unfolding prompts one_question
build_fields_prompt category missing = one_question (prompts category missing)

-- `bool(answers.get(key))`
unfoldable pub answered : Dict String → String → Bool
answered answers k = elim (lookup k answers) [ none ↦ false | some v ↦ non_empty v ]

unanswered : Dict String → String → Bool
unfolding answered
unanswered answers k = not (answered answers k)

unfoldable pub missing_of : List String → Dict String → List String
unfolding unanswered
missing_of keys answers = keep (unanswered answers) keys

unfoldable pub missing_fields : String → Dict String → List String
missing_fields category answers = missing_of (required_keys category) answers

pub data OrderAction : Type 0 where
  ask_fields ready_to_dispatch handoff : OrderAction

unfoldable pub next_action : String → Dict String → OrderAction
next_action category answers =
    if not (is_order_category category)
    then handoff
    else elim (missing_fields category answers) [ [] ↦ ready_to_dispatch | k ∷ ks ↦ ask_fields ]

detail : String × String → String
detail (k, v) = fstring (k ∷ ": " ∷ v ∷ [])

filled : String × String → Bool
filled (k, v) = non_empty v

-- `strip` on a text, as a text
abbrev pub Strip : Type 0
Strip = String → String

-- `build_raw_input`; `trim` is Python's `str.strip`.
unfoldable pub build_raw_input : Strip → String → Dict String → String
unfolding detail filled
build_raw_input trim original answers =
    let details = join "; " (map detail (keep filled answers)) in
    let parts =
      trim original
      ∷ (if non_empty details then fstring ("Детали заявки — " ∷ details ∷ []) ∷ [] else []) in
    join "\n" (keep non_empty parts)

-- The values that the two regular expressions find in a text.
pub record Matches : Type 0 where
  pub area : Codes → Option String
  pub date_time : String → Option String

-- `for stem, value in pairs: if stem in text: found[key] = value; break`
unfoldable pub first_value : Codes → List (String × String) → Option String
first_value text [] = none
first_value text ((stem, value) ∷ pairs) =
    if occurs (codes stem) text then some value else first_value text pairs

-- `found[key] = value`, if there is a value
set_found : String → Option String → Dict String → Dict String
set_found k none found = found
set_found k (some v) found = insert k v found

has_key : String → List String → Bool
has_key k keys = any (str_eq k) keys

date_found : Matches → String → String → Dict String
unfolding set_found has_key
date_found re category masked_text =
    if has_key "datetime" (required_keys category)
    then set_found "datetime" (re.date_time masked_text) []
    else []

unfoldable pub extract_fields : Matches → String → String → Dict String
unfolding set_found date_found first_value
extract_fields re category masked_text =
    let text = lower masked_text in
    let found = date_found re category masked_text in
    if str_eq category "CLEANING"
    then set_found "area_or_rooms" (re.area text)
        (set_found "cleaning_type" (first_value text cleaning_type_words) found)
    else if str_eq category "MOVING"
    then set_found "movers_packing" (if any_in text packing_words then some masked_text else none)
        (set_found "city" (first_value text city_words) found)
    else if str_eq category "REPAIR"
    then insert "problem_description" masked_text
        (set_found "subcategory" (first_value text repair_subcategory_words) found)
    else found
