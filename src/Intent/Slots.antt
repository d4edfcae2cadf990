-- ===== src/Intent/Slots.antt =====
-- backend/src/api/intent/engine.py: what is read off a masked text beside its class: the rent, the
-- year of the contract, the side, the area and the partner category.
use kb_concierge.Prelude.{
  ℕ, ◌*◌, String, Bool, ◌&&◌, ◌||◌, not, Option, none, some, [], ◌∷◌, if◌then◌else◌, leb, ltb, ◌==◌,
  Codes, codes, lower, is_space, occurs, any_in, Dict, Json, num, str, Fields, end, field,
}
use kb_concierge.Prelude.Regex.{
  Rx, one, star, text, then_, either, group, boundary, is_digit, search, all_of, opt, at_least,
  digits_value,
}
use kb_concierge.Intent.{Intent}
use kb_concierge.Intent.Keywords.{side_tenant, side_landlord}
use kb_concierge.Intent.Scores.{category_scores, best_of}

-- What `extract_pricing_slots` finds: the rent as `str` prints it, the year and the side.
pub record PricingSlots : Type 0 where
  pub rent_amount_rub : Option String
  pub contract_year : Option ℕ
  pub side : Option String

abbrev pub digit_or_space : ℕ → Bool
digit_or_space c = is_digit c || is_space c

abbrev pub is_russian : ℕ → Bool
is_russian c = leb 0x430 c && leb c 0x44F

abbrev pub is_dot : ℕ → Bool
is_dot c = c == 46

abbrev pub is_minus : ℕ → Bool
is_minus c = c == 45

-- `_AREA_RE`
abbrev pub area_re : Rx
area_re = all_of (
    group (at_least 1 is_digit)
    ∷ star is_space
    ∷ either (text "м2")
        (either (text "м²") (all_of (text "кв" ∷ opt (one is_dot) ∷ star is_space ∷ text "м" ∷ [])))
    ∷ [])

-- `_RENT_THOUSANDS_RE`
abbrev pub rent_thousands_re : Rx
rent_thousands_re = all_of (
    group (then_ (one is_digit) (star digit_or_space))
    ∷ star is_space
    ∷ either (text "тыс") (
        either (all_of (text "т" ∷ opt (one is_dot) ∷ star is_space ∷ text "р" ∷ []))
          (then_ (text "к") boundary))
    ∷ [])

-- `_RENT_RUB_RE`
abbrev pub rent_rub_re : Rx
rent_rub_re = all_of (
    group (then_ (one is_digit) (at_least 2 digit_or_space))
    ∷ star is_space
    ∷ either (text "₽") (either (text "руб") (text "р."))
    ∷ [])

-- `_RENT_BARE_RE`
abbrev pub rent_bare_re : Rx
rent_bare_re = all_of (boundary ∷ group (at_least 4 is_digit) ∷ boundary ∷ [])

-- `_YEAR_RE`
abbrev pub year_re : Rx
year_re = all_of (
    group (at_least 1 is_digit)
    ∷ star is_space
    ∷ opt (all_of (opt (one is_minus) ∷ star is_russian ∷ star is_space ∷ []))
    ∷ text "год"
    ∷ [])

-- `_YEAR_WORDS`
abbrev pub year_words : Dict ℕ
year_words =
    ("перв", 1) ∷ ("втор", 2) ∷ ("трет", 3) ∷ ("четвёрт", 4) ∷ ("четверт", 4) ∷ ("пят", 5) ∷ []

bare_rent : Option Codes → Option ℕ
bare_rent none = none
bare_rent (some g) = some (digits_value g)

rub_rent : Codes → Option Codes → Option ℕ
unfolding bare_rent
rub_rent t none = bare_rent (search rent_bare_re t)
rub_rent t (some g) = some (digits_value g)

thousands_rent : Codes → Option Codes → Option ℕ
unfolding rub_rent
thousands_rent t none = rub_rent t (search rent_rub_re t)
thousands_rent t (some g) = some (digits_value g * 1000)

-- `_parse_rent`: thousands, then roubles, then a bare number of four digits.
unfoldable pub parse_rent : Codes → Option ℕ
unfolding thousands_rent
parse_rent t = thousands_rent t (search rent_thousands_re t)

-- `_parse_side`
unfoldable pub parse_side : Codes → Option String
parse_side t =
    let tenant = any_in t side_tenant in
    let landlord = any_in t side_landlord in
    if tenant && not landlord
    then some "tenant"
    else if landlord && not tenant
    then some "landlord"
    else none

year_in_words : Codes → Dict ℕ → Option ℕ
year_in_words t [] = none
year_in_words t ((stem, year) ∷ words) =
    let later = year_in_words t words in
    if occurs (codes stem) t && occurs (codes "год") t then some year else later

year_by : Codes → Option Codes → Option ℕ
unfolding year_in_words
year_by t none = year_in_words t year_words
year_by t (some g) =
    let year = digits_value g in
    if leb 1 year && leb year 50 then some year else year_in_words t year_words

-- `_parse_contract_year`
unfoldable pub parse_contract_year : Codes → Option ℕ
unfolding year_by
parse_contract_year t = year_by t (search year_re t)

-- A key that is there only with a value, before other keys.
put : String → Option Json → Fields → Fields
put k none fs = fs
put k (some v) fs = field k v fs

numeric : Option ℕ → Option Json
numeric none = none
numeric (some n) = some (num n)

textual : Option String → Option Json
textual none = none
textual (some s) = some (str s)

area_of : Option Codes → Option Json
area_of none = none
area_of (some g) = some (num (digits_value g))

-- The category with the best score, if any keyword occurs.
category_in : Dict ℕ → Option Json
category_in [] = none
category_in (s ∷ scores) =
    let best = best_of s scores in if ltb 0 best.1 then some (str best.0) else none

-- The printing of a number is Python's `str`.
module _ (show : ℕ → String) where
  printed : Option ℕ → Option String
  printed none = none
  printed (some n) = some (show n)

  -- The slots of a text in lower case.
  unfoldable pub pricing_slots_of : Codes → PricingSlots
  unfolding printed
  pricing_slots_of t = record {
    rent_amount_rub = printed (parse_rent t);
    contract_year = parse_contract_year t;
    side = parse_side t;
  }

  -- `extract_pricing_slots`
  unfoldable pub extract_pricing_slots : String → PricingSlots
  extract_pricing_slots masked = pricing_slots_of (lower masked)

  pricing_fields : PricingSlots → Fields
  unfolding put numeric textual
  pricing_fields slots =
      put "rent_amount_rub" (textual slots.rent_amount_rub)
        (put "contract_year" (numeric slots.contract_year) (put "side" (textual slots.side) end))

  class_slots : Codes → Intent → Fields
  unfolding put category_in pricing_fields
  class_slots t Intent.partner_service = put "category" (category_in (category_scores t)) end
  class_slots t Intent.pricing_query = pricing_fields (pricing_slots_of t)
  class_slots t _ = end

  -- `_extract_slots`; the text is in lower case.
  unfoldable pub extract_slots : Codes → Intent → Fields
  unfolding put area_of class_slots
  extract_slots t intent = put "area_sqm" (area_of (search area_re t)) (class_slots t intent)
