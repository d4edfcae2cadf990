-- ===== src/Reasoning/Replies.antt =====
-- The texts of reasoning/loop.py: the constants of the module, and the replies that quote what a
-- service gave. A value that is no text is printed by `env.render`, Python's `str`.
use kb_concierge.Prelude.{
  String, Bool, List, [], ◌∷◌, if◌then◌else◌, Json, null, str, arr, obj, Items, Fields, get_default,
  truth, lower, any_in, fstring, join,
}
use kb_concierge.Intent.Keywords.{partner_service_keywords, capabilities_keywords}
use kb_concierge.Reasoning.Calls.{Env, ChoiceOption}

abbrev pub opt : String → String → ChoiceOption
opt i l = record { id = i; label = l }

abbrev pub clarify_options : List ChoiceOption
clarify_options =
    opt "info" "Задать вопрос по базе знаний"
    ∷ opt "order" "Оформить заявку (уборка/переезд/ремонт)"
    ∷ opt "status" "Узнать статус заявки"
    ∷ opt "operator" "Связаться со специалистом"
    ∷ []

abbrev pub pricing_side_options : List ChoiceOption
pricing_side_options = opt "tenant" "Я арендатор" ∷ opt "landlord" "Я арендодатель" ∷ []

abbrev pub info_action_offer : String
info_action_offer = " Если нужно — могу оформить заявку на услугу."

abbrev pub capabilities_reply : String
capabilities_reply =
    "Я помогу: найду ответ в базе знаний, оформлю заявку партнёру (уборка, переезд, ремонт), подскажу статус вашей заявки и при необходимости передам вопрос специалисту. С чего начнём?"

abbrev pub status_no_ref_reply : String
status_no_ref_reply =
    "Не вижу вашей заявки в этом диалоге. Оформите заявку — и я смогу показать её статус, либо передам вопрос специалисту."

abbrev pub status_unavailable_reply : String
status_unavailable_reply =
    "Не получилось узнать статус прямо сейчас — сервис временно недоступен. Попробуйте чуть позже или я передам вопрос специалисту."

abbrev pub pricing_clarify_reply : String
pricing_clarify_reply =
    "Посчитаю тарифы по вашему договору. Уточните, пожалуйста, ежемесячный арендный платёж (в ₽) и кто вы в сделке — арендатор или арендодатель."

abbrev pub pricing_unavailable_reply : String
pricing_unavailable_reply =
    "Не получилось рассчитать тариф прямо сейчас — сервис расчёта временно недоступен. Попробуйте чуть позже или я передам вопрос специалисту."

-- `data.get(key)`, with `None` for a missing key
abbrev pub get : String → Fields → Json
get k data_fields = get_default k null data_fields

unfoldable pub is_capabilities_query : String → Bool
is_capabilities_query query = any_in (lower query) capabilities_keywords

-- `_with_info_offer`
unfoldable pub with_info_offer : String → String → String × List ChoiceOption
with_info_offer reply query =
    if any_in (lower query) partner_service_keywords
    then (fstring (reply ∷ info_action_offer ∷ []), opt "order" "Оформить заявку" ∷ [])
    else (reply, [])

unfoldable pub items : Items → List Json
items Items.nil = []
items (Items.cons x xs) = x ∷ items xs

-- `result.data.get("citations") or []`; the tools give a list here.
unfoldable pub list_or_empty : Json → List Json
unfolding items
list_or_empty (arr xs) = items xs
list_or_empty _ = []

-- `c.get(key)` of a citation; the tools give objects here.
unfoldable pub sub : String → Json → Json
sub k (obj fs) = get k fs
sub k _ = null

module _ (env : Env) where
  -- `a or b`
  abbrev either : Json → Json → Json
  either a b = if truth a then a else b

  -- `str(c.get("title", "")) for c in citations if c.get("title")`
  titles : List Json → List String
  titles [] = []
  titles (c ∷ cs) = let t = sub "title" c in if truth t then env.render t ∷ titles cs else titles cs

  first_three : List Json → List Json
  first_three (a ∷ b ∷ c ∷ _) = a ∷ b ∷ c ∷ []
  first_three cs = cs

  first_snippet : List Json → Json
  first_snippet [] = null
  first_snippet (c ∷ _) = sub "snippet" c

  -- `_build_answer`; with no citations at all `citations[0]` would raise, which only an answer
  -- that is there prevents.
  unfoldable pub build_answer : Fields → List Json → String
  unfolding titles first_three first_snippet
  build_answer data_fields citations =
      let base = env.render (
        either (get "answer" data_fields)
          (either (first_snippet citations) (str (env.reply "fallback_answer")))) in
      elim (titles (first_three citations)) [
        | [] ↦ base
        | t ∷ ts ↦ fstring (base ∷ " (источники: " ∷ join ", " (t ∷ ts) ∷ ")" ∷ [])
      ]

  numbered : String → String → Json → String
  numbered head other number =
      if truth number then fstring (head ∷ env.render number ∷ []) else other

  -- `_status_reply`
  unfoldable pub status_reply : Fields → String → String
  unfolding numbered
  status_reply data_fields kind =
      let head = numbered (fstring (kind ∷ " №" ∷ [])) kind (get "number" data_fields) in
      let status = get "status" data_fields in
      if truth status
      then fstring (head ∷ ": статус «" ∷ env.render status ∷ "»." ∷ [])
      else fstring (head ∷ " в работе." ∷ [])

  -- `_partner_reply`
  unfoldable pub partner_reply : Fields → String
  unfolding numbered
  partner_reply data_fields =
      let where_to = numbered "Заявка №" "Заявка оформлена" (get "number" data_fields) in
      let category = get "category" data_fields in
      let tail =
        if truth category
        then fstring (" по категории «" ∷ env.render category ∷ "»" ∷ [])
        else "" in
      fstring (
        where_to ∷ tail ∷ " принята в работу. Партнёр свяжется с вами для подтверждения деталей."
        ∷ [])

  -- `_support_reply`
  unfoldable pub support_reply : Fields → String
  unfolding numbered
  support_reply data_fields = fstring (
      numbered "Обращение №" "Обращение" (get "number" data_fields)
      ∷ " зарегистрировано — мы свяжемся с вами. Спасибо за ожидание."
      ∷ [])
