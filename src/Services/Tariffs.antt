-- ===== src/Services/Tariffs.antt =====
-- backend/src/api/clients/tariffs/{adapter,models}.py and tools/pricing.py: the quote of the
-- canonical tariffs.
use kb_concierge.Prelude.{
  ℕ, String, Bool, true, false, ◌&&◌, ◌||◌, Option, none, some, List, [], ◌∷◌, if◌then◌else◌, leb,
  all, str_eq, fstring, Json, null, num, str, arr, obj, Items, nil, Fields, end, field, get_field,
  get_default, truth,
}
use kb_concierge.Reasoning.Calls.{ToolResult}
use kb_concierge.Services.{
  Token, Send, Exchanged, degraded, crashed, body_of, fetch, authorization, each_dict,
}

-- `Quote`; a source is an object of two keys.
pub record Quote : Type 0 where
  pub tariff_version : String
  pub contract_year : ℕ
  pub side : String
  pub commission_rate : String
  pub commission_amount_rub : String
  pub commission_applies_to : String
  pub service_fee_rate : String
  pub service_fee_amount_rub : String
  pub service_fee_applies_to : String
  pub lost_income_compensation_rub : String
  pub lost_income_applies_to : String
  pub insurance_coverage_rub : String
  pub sources : Items
  pub unavailable : Bool

-- `Quote(unavailable=True)`
abbrev pub no_quote : Quote
no_quote = record {
  tariff_version = "";
  contract_year = 0;
  side = "";
  commission_rate = "";
  commission_amount_rub = "";
  commission_applies_to = "";
  service_fee_rate = "";
  service_fee_amount_rub = "";
  service_fee_applies_to = "";
  lost_income_compensation_rub = "";
  lost_income_applies_to = "";
  insurance_coverage_rub = "";
  sources = nil;
  unavailable = true;
}

-- `_REQUIRED_KEYS`
abbrev pub required_keys : List String
required_keys =
    "tariff_version" ∷ "commission_rate" ∷ "commission_amount_rub" ∷ "service_fee_rate"
    ∷ "service_fee_amount_rub" ∷ "lost_income_compensation_rub" ∷ "insurance_coverage_rub" ∷ []

present : Option Json → Bool
present none = false
present (some x) = true

unfoldable pub has_key : Fields → String → Bool
unfolding present
has_key fs k = present (get_field k fs)

-- `to_int` is Python's `int`; `as_int` and `as_decimal` are the reading of an integer and of an
-- amount that is not negative by the input model, the latter printed.
module _ (render : Json → String) (to_int as_int : Json → Option ℕ)
    (as_decimal : Json → Option String) (token : Option String → Token)
    (cached : String → Option Json) (send : Send) where
  text_at : String → Fields → String
  text_at k fs = render (get_default k (str "") fs)

  source_of : Fields → Fields
  unfolding text_at
  source_of s = field "title" (str (text_at "title" s)) (field "ref" (str (text_at "ref" s)) end)

  -- `payload.get(k, 0) or 0`
  or_zero : Json → Json
  or_zero x = if truth x then x else num 0

  quote_with : Fields → Option Items → Option ℕ → Option Quote
  unfolding text_at
  quote_with fs (some sources) (some contract_year) = some (record {
    tariff_version = text_at "tariff_version" fs;
    contract_year = contract_year;
    side = text_at "side" fs;
    commission_rate = text_at "commission_rate" fs;
    commission_amount_rub = text_at "commission_amount_rub" fs;
    commission_applies_to = text_at "commission_applies_to" fs;
    service_fee_rate = text_at "service_fee_rate" fs;
    service_fee_amount_rub = text_at "service_fee_amount_rub" fs;
    service_fee_applies_to = text_at "service_fee_applies_to" fs;
    lost_income_compensation_rub = text_at "lost_income_compensation_rub" fs;
    lost_income_applies_to = text_at "lost_income_applies_to" fs;
    insurance_coverage_rub = text_at "insurance_coverage_rub" fs;
    sources = sources;
    unavailable = false;
  })
  quote_with fs (some sources) none = none
  quote_with fs none year = none

  -- `_to_quote`: a body without a required key is no quote.
  unfoldable pub to_quote : Json → Option Quote
  unfolding quote_with or_zero source_of each_dict has_key
  to_quote (obj fs) =
      if all (has_key fs) required_keys
      then quote_with fs (each_dict source_of (get_default "sources" null fs))
          (to_int (or_zero (get_default "contract_year" (num 0) fs)))
      else some no_quote
  to_quote _ = some no_quote

  unfoldable pub quote_from : Exchanged → Option Quote
  quote_from degraded = some no_quote
  quote_from crashed = none
  quote_from (body_of payload) = to_quote payload

  -- `HttpKbTariffsClient.quote`: by the service's own token.
  unfoldable pub quote : String → ℕ → String → Option Quote
  quote rent_amount_rub contract_year side = quote_from (
      fetch (token none)
        (cached (
          fstring
            ("quote:" ∷ side ∷ ":" ∷ render (num contract_year) ∷ ":" ∷ rent_amount_rub ∷ [])))
        (λ t. record {
          method = "POST";
          path = "/api/v1/pricing/quote";
          headers = authorization t ∷ [];
          body = some (
              field "rent_amount_rub" (str rent_amount_rub)
                (field "contract_year" (num contract_year) (field "side" (str side) end)));
        })
        send)

  quote_data : Option Quote → Option ToolResult
  quote_data none = none
  quote_data (some q) = some (record {
    data_fields = field "tariff_version" (str q.tariff_version) (
        field "side" (str q.side) (
          field "contract_year" (num q.contract_year) (
            field "commission_rate" (str q.commission_rate) (
              field "commission_amount_rub" (str q.commission_amount_rub) (
                field "commission_applies_to" (str q.commission_applies_to) (
                  field "service_fee_rate" (str q.service_fee_rate) (
                    field "service_fee_amount_rub" (str q.service_fee_amount_rub) (
                      field "service_fee_applies_to" (str q.service_fee_applies_to) (
                        field "lost_income_compensation_rub" (str q.lost_income_compensation_rub) (
                          field "lost_income_applies_to" (str q.lost_income_applies_to) (
                            field "insurance_coverage_rub" (str q.insurance_coverage_rub)
                              (field "sources" (arr q.sources) end))))))))))));
    unavailable = q.unavailable;
  })

  in_years : Option ℕ → Option ℕ
  in_years none = none
  in_years (some n) = if leb 1 n && leb n 50 then some n else none

  year_of : Option Json → Option ℕ
  unfolding in_years
  year_of none = none
  year_of (some x) = in_years (as_int x)

  rent_of : Option Json → Option String
  rent_of none = none
  rent_of (some x) = as_decimal x

  -- `^(tenant|landlord)$`
  side_of : Option Json → Option String
  side_of (some (str s)) = if str_eq s "tenant" || str_eq s "landlord" then some s else none
  side_of _ = none

  quote_by : Option String → Option ℕ → Option String → Option ToolResult
  unfolding quote_data
  quote_by (some rent) (some year) (some side) = quote_data (quote rent year side)
  quote_by _ _ _ = none

  -- `PricingQuoteTool.run`
  unfoldable pub run_quote : Fields → Option ToolResult
  unfolding quote_by rent_of year_of side_of
  run_quote payload =
      quote_by (rent_of (get_field "rent_amount_rub" payload))
        (year_of (get_field "contract_year" payload)) (side_of (get_field "side" payload))
