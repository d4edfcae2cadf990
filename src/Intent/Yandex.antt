-- ===== src/Intent/Yandex.antt =====
-- `YandexGptProvider` of backend/src/api/intent/yandexgpt.py: the request to the model, and the
-- reading of what it completes. The HTTP client, `json.loads`, `float` and `str` are parameters.
pub mod Clamped
use kb_concierge.Prelude.{
  ℕ, ◌-◌, String, Bool, true, false, ◌&&◌, ◌||◌, not, Option, none, some, List, [], ◌∷◌, ◌++◌, map,
  if◌then◌else◌, leb, ltb, ◌==◌, str_eq, non_empty, Codes, codes, lower_codes, is_prefix, strip,
  after, Json, null, bool, num, str, arr, obj, nil, cons, Fields, end, field, get_field,
}
use mathlib.Core.List.{reverse}
use kb_concierge.Intent.{Intent, members, value}
use kb_concierge.Intent.Engine.{LlmIntent, Said, understood, nothing, raised, null_llm_provider}

-- A `float`: not a number, below zero, or in ten-thousandths.
pub data Float : Type 0 where
  nan negative : Float
  at : ℕ → Float

-- `c < 1.0`, and `c > 0.0`
below_one : Float → Bool
below_one nan = false
below_one negative = true
below_one (at n) = ltb n 10000

above_zero : Float → Bool
above_zero nan = false
above_zero negative = false
above_zero (at n) = ltb 0 n

-- `min(1.0, c)`: the second only if it is less.
min_one : Float → Float
unfolding below_one
min_one c = if below_one c then c else at 10000

amount : Float → ℕ
amount nan = 0
amount negative = 0
amount (at n) = n

-- `max(0.0, c)`
max_zero : Float → ℕ
unfolding above_zero amount
max_zero c = if above_zero c then amount c else 0

unfoldable pub clamp : Float → ℕ
unfolding min_one max_zero
clamp c = max_zero (min_one c)

dropped : Codes → Codes → Codes
dropped p t = if is_prefix p t then after p t else t

-- `cleaned[:-3]` behind `endswith`
dropped_end : Codes → Codes → Codes
unfolding dropped
dropped_end p t = reverse (dropped (reverse p) (reverse t))

-- `_strip_fences`
unfoldable pub strip_fences : Codes → Codes
unfolding dropped dropped_end
strip_fences t =
    let cleaned = strip t in
    if is_prefix (codes "```") cleaned
    then strip
        (dropped (codes "json") (strip (dropped_end (codes "```") (after (codes "```") cleaned))))
    else cleaned

-- `x[key]`; a missing key and a value that has no keys raise what the reader catches.
unfoldable pub at_key : String → Json → Option Json
at_key k (obj fs) = get_field k fs
at_key k null = none
at_key k (bool b) = none
at_key k (num n) = none
at_key k (str s) = none
at_key k (arr xs) = none

-- `x[0]` where a key of it is read next, so that the first character of a text is of no use
unfoldable pub first_item : Json → Option Json
first_item (arr (cons x xs)) = some x
first_item _ = none

then_key : String → Option Json → Option Json
then_key k none = none
then_key k (some x) = at_key k x

then_first : Option Json → Option Json
then_first none = none
then_first (some x) = first_item x

-- `payload["result"]["alternatives"][0]["message"]["text"]`
unfoldable pub completion : Json → Option Json
unfolding then_key then_first
completion payload =
    then_key "text"
      (then_key "message" (then_first (then_key "alternatives" (at_key "result" payload))))

abbrev pub slots_of : Option Json → Fields
slots_of (some (obj fs)) = fs
slots_of _ = end

upper_code : ℕ → ℕ
upper_code c =
    if leb 97 c && leb c 122
    then c - 32
    else if leb 0x430 c && leb c 0x44F
    then c - 32
    else if c == 0x451
    then 0x401
    else c

abbrev pub same_codes : Codes → Codes → Bool
same_codes [] [] = true
same_codes (c ∷ s) (d ∷ t) = (c == d) && same_codes s t
same_codes _ _ = false

member_in : Codes → List Intent → Option Intent
member_in t [] = none
member_in t (i ∷ is) =
    let later = member_in t is in if same_codes (codes (value i)) t then some i else later

-- `Intent(text.upper())`
unfoldable pub intent_of : String → Option Intent
unfolding member_in upper_code
intent_of s = member_in (map upper_code (codes s)) members

-- What the HTTP client gives: `ExternalServiceError`, another exception, or a response, whose body
-- may be no JSON.
pub data Posted : Type 0 where
  service_error other_error : Posted
  response : ℕ → Option Json → Posted

pub record Settings : Type 0 where
  pub intent_llm_provider : Codes
  pub yandexgpt_api_key : String
  pub yandexgpt_folder_id : String
  pub yandexgpt_model : String

module _ (loads : Codes → Option Json) (to_float : Json → Option Float) (render : Json → String)
    (settings : Settings) where
  built : Option Intent → Option Float → Option Json → Said
  built (some i) (some c) slots = understood (record {
    intent = i;
    confidence = clamp c;
    slots = slots_of slots;
    model = settings.yandexgpt_model;
    version = "v1";
  })
  built (some i) none slots = nothing
  built none c slots = nothing

  intent_at : Option Json → Option Intent
  intent_at none = none
  intent_at (some x) = intent_of (render x)

  float_at : Option Json → Option Float
  float_at none = none
  float_at (some x) = to_float x

  read_data : Option Json → Said
  unfolding built intent_at float_at
  read_data none = nothing
  read_data (some x) =
      built (intent_at (at_key "intent" x)) (float_at (at_key "confidence" x)) (at_key "slots" x)

  -- `text.strip()` of what is no text raises `AttributeError`, which is not caught.
  read_text : Option Json → Said
  unfolding read_data
  read_text none = nothing
  read_text (some (str s)) = read_data (loads (strip_fences (codes s)))
  read_text (some null) = raised
  read_text (some (bool b)) = raised
  read_text (some (num n)) = raised
  read_text (some (arr xs)) = raised
  read_text (some (obj fs)) = raised

  -- `_parse`
  unfoldable pub parse : Json → Said
  unfolding read_text
  parse payload = read_text (completion payload)

  parsed : Option Json → Said
  parsed none = raised
  parsed (some payload) = parse payload

  -- `YandexGptProvider.classify`, by what the client gave
  unfoldable pub answered : Posted → Said
  unfolding parsed
  answered service_error = nothing
  answered other_error = raised
  answered (response code body) = if leb 400 code then nothing else parsed body

  -- `build_llm_provider`: the provider over the client, or none without a name and a key.
  unfoldable pub build_llm_provider : (String → Posted) → String → Said
  build_llm_provider post masked =
      if same_codes (lower_codes (strip settings.intent_llm_provider)) (codes "yandexgpt")
        && (non_empty settings.yandexgpt_api_key && non_empty settings.yandexgpt_folder_id)
      then answered (post masked)
      else null_llm_provider masked
