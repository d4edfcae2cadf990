-- ===== src/Tests/Intents.antt =====
-- Runs of the classification of requests and of the slots of a question about prices.
use kb_concierge.Prelude.{
  ℕ, ◌≤◌, arith, String, ◌≡◌, refl, Option, none, some, Json, null, str, arr, obj, nil, cons, end,
  field, Codes, codes, lower, is_space, any_in, get_field, strip,
}
use kb_concierge.Intent.{Intent}
use kb_concierge.Intent.Scores.{intent_scores, count, count_from}
use kb_concierge.Intent.Engine.{
  IntentOutcome, null_llm_provider, classify, hit, classify_by, by_llm, merge_fields,
}
use kb_concierge.Intent.Engine.Rules.{IsRuled, classify-IsRuled}
use kb_concierge.Intent.Yandex.{
  Float, nan, clamp, Settings, response, build_llm_provider, answered, completion, at_key,
  first_item, parse, strip_fences, intent_of,
}
use kb_concierge.Intent.Yandex.Clamped.{classify-bounded, classify-degrades, classify-null_text}
use kb_concierge.Intent.Slots.{parse_rent, parse_contract_year, parse_side, area_re, extract_slots}
use kb_concierge.Prelude.Regex.{search, all_of, digits_value, at_least, opt}

rent_in_thousands : parse_rent (lower "Снимаю за 50 тыс в месяц") ≡ some 50000
unfolding parse_rent lower search all_of is_space digits_value
rent_in_thousands = refl

rent_in_roubles : parse_rent (lower "45 000 руб.") ≡ some 45000
unfolding parse_rent search lower all_of is_space at_least digits_value
rent_in_roubles = refl

rent_bare : parse_rent (lower "аренда 38000, договор на год") ≡ some 38000
unfolding parse_rent search lower all_of is_space at_least digits_value
rent_bare = refl

rent_none : parse_rent (lower "аренда 380 в сутки") ≡ none
unfolding parse_rent search lower all_of is_space at_least
rent_none = refl

year_number : parse_contract_year (lower "идёт 2-й год договора") ≡ some 2
unfolding parse_contract_year search lower all_of at_least is_space opt digits_value
year_number = refl

year_word : parse_contract_year (lower "третий год живём") ≡ some 3
unfolding parse_contract_year search lower all_of at_least
year_word = refl

year_far : parse_contract_year (lower "с 2024 года") ≡ none
unfolding parse_contract_year search lower all_of at_least is_space opt digits_value
year_far = refl

side_landlord : parse_side (lower "Я сдаю квартиру") ≡ some "landlord"
unfolding parse_side any_in lower
side_landlord = refl

area : search area_re (codes "уборка 45 м2") ≡ some (codes "45")
unfolding search all_of at_least is_space
area = refl

-- `str` of a number
abbrev show : ℕ → String
show n = "1"

abbrev render : Json → String
render (str s) = s
render _ = ""

abbrev loads : Codes → Option Json
loads t = none

abbrev to_float : Json → Option Float
to_float j = some nan

abbrev settings : Settings
settings = record {
  intent_llm_provider = codes "yandexgpt";
  yandexgpt_api_key = "key";
  yandexgpt_folder_id = "folder";
  yandexgpt_model = "lite";
}

abbrev completed : Json → Json
completed text = obj (
    field "result"
      (obj (
        field "alternatives"
          (arr (cons (obj (field "message" (obj (field "text" text end)) end)) nil)) end))
      end)

-- A service that completes with a class and a confidence that is no number.
abbrev sure : Codes → Option Json
sure t = some (obj (field "intent" (str "small_talk") (field "confidence" (str "nan") end)))

abbrev sure_outcome : IntentOutcome
sure_outcome = record {
  intent = Intent.small_talk;
  confidence = 10000;
  method = "llm";
  model = "lite";
  version = "v1";
  slots = end;
}

nan_confidence : clamp nan ≡ 10000
unfolding clamp
nan_confidence = refl

classify-IsRuled_example :
    (o : IntentOutcome) × (classify show null_llm_provider "Жалоба: не приехал клининг" ≡ some o)
    × IsRuled (intent_scores (lower "Жалоба: не приехал клининг")) o
classify-IsRuled_example = classify-IsRuled show "Жалоба: не приехал клининг"

classify-bounded_example : sure_outcome.confidence ≤ 10000
unfolding classify classify_by intent_scores hit count count_from by_llm answered parse
    build_llm_provider lower completion clamp strip_fences merge_fields extract_slots search all_of
    intent_of strip at_key get_field first_item at_least
classify-bounded_example =
    classify-bounded sure to_float render settings show
      (λ m. response 200 (some (completed (str "{}")))) "эх" sure_outcome refl

classify-degrades_example :
    classify show (build_llm_provider loads to_float render settings (λ m. response 503 none)) "эх"
    ≡ classify show null_llm_provider "эх"
classify-degrades_example =
    classify-degrades loads to_float render settings show (λ m. response 503 none) "эх"
      (omega arith)

classify-null_text_example :
    (classify show
        (λ m. answered loads to_float render settings (response 200 (some (completed null))))
        "эх"
      ≡ none)
    × ((o : IntentOutcome) × (classify show null_llm_provider "эх" ≡ some o))
unfolding completion at_key get_field first_item intent_scores hit count count_from lower
classify-null_text_example =
    classify-null_text loads to_float render settings show
      (λ m. response 200 (some (completed null))) "эх" (completed null) refl refl
      (λ h. omega (arith, h))
