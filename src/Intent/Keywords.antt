-- ===== src/Intent/Keywords.antt =====
-- backend/src/api/intent/engine.py: the keywords of the classes and of the partner categories, and
-- the words by which a user names a side of the contract.
use kb_concierge.Prelude.{String, List, [], ◌∷◌, ◌++◌, Dict}
use kb_concierge.Intent.{Intent}

abbrev pub cleaning_keywords : List String
cleaning_keywords = "убор" ∷ "клининг" ∷ "чистк" ∷ "помыть окна" ∷ "мойка окон" ∷ []

abbrev pub moving_keywords : List String
moving_keywords = "переезд" ∷ "грузчик" ∷ "перевоз" ∷ "перевез" ∷ "вывез" ∷ []

abbrev pub repair_keywords : List String
repair_keywords =
    "ремонт" ∷ "почин" ∷ "сантехник" ∷ "электрик" ∷ "смесител" ∷ "протечк" ∷ "розетк" ∷ "кран" ∷ []

abbrev pub key_delivery_keywords : List String
key_delivery_keywords = "ключ" ∷ "доставка ключ" ∷ "передать ключ" ∷ []

abbrev pub partner_service_keywords : List String
partner_service_keywords =
    cleaning_keywords ++ (moving_keywords ++ (repair_keywords ++ key_delivery_keywords))

abbrev pub capabilities_keywords : List String
capabilities_keywords =
    "что умеешь" ∷ "что ты умеешь" ∷ "что ты можешь" ∷ "что можешь" ∷ "чем поможешь"
    ∷ "чем можешь помочь" ∷ "чем ты поможешь" ∷ "какие возможности" ∷ "меню" ∷ []

-- `_PARTNER_CATEGORY`, in its order
abbrev pub partner_category : Dict (List String)
partner_category =
    ("CLEANING", cleaning_keywords)
    ∷ ("MOVING", moving_keywords)
    ∷ ("REPAIR", repair_keywords)
    ∷ ("KEY_DELIVERY", key_delivery_keywords)
    ∷ []

-- `_STATUS_KEYWORDS`
abbrev pub status_keywords : List String
status_keywords =
    "статус заявк" ∷ "статус заказ" ∷ "статус обращени" ∷ "что с заявк" ∷ "что с моей заявк"
    ∷ "что с заказ" ∷ "что с обращени" ∷ "что по заявк" ∷ "что по заказ" ∷ "где моя заявк"
    ∷ "где мой заказ" ∷ "где заявк" ∷ "готова ли заявк" ∷ "готов ли заказ" ∷ "как там заявк"
    ∷ "как там моя заявк" ∷ "как там заказ" ∷ []

abbrev pub info_qa_keywords : List String
info_qa_keywords =
    "как продлить" ∷ "как оформить" ∷ "как получить" ∷ "как восстановить" ∷ "как работает"
    ∷ "что входит" ∷ "что такое" ∷ "где посмотреть" ∷ "где найти" ∷ "можно ли" ∷ "какие документ"
    ∷ "нужны ли документ" ∷ "договор" ∷ "услови" ∷ "правил" ∷ "инструкц" ∷ "режим работы"
    ∷ "сколько действ" ∷ []

abbrev pub pricing_query_keywords : List String
pricing_query_keywords =
    "сколько стоит" ∷ "сколько будет стоить" ∷ "сколько возьм" ∷ "сколько берёт" ∷ "сколько берете"
    ∷ "комисси" ∷ "тариф" ∷ "стоимость услуг" ∷ "сервисный сбор" ∷ "какая ставка"
    ∷ "во сколько обойд" ∷ "почём" ∷ "почем" ∷ []

abbrev pub support_issue_keywords : List String
support_issue_keywords =
    "жалоб" ∷ "пожаловат" ∷ "претензи" ∷ "компенсаци" ∷ "верните деньги" ∷ "вернуть деньги"
    ∷ "возврат денег" ∷ "обман" ∷ "спор" ∷ "не приехал" ∷ "не выполн" ∷ "не сделал" ∷ "ужасн"
    ∷ "отвратительн" ∷ "недовол" ∷ "некачествен" ∷ "испорч" ∷ "нагрубил" ∷ []

abbrev pub small_talk_keywords : List String
small_talk_keywords =
    "привет" ∷ "здравствуй" ∷ "добрый день" ∷ "добрый вечер" ∷ "доброе утро" ∷ "спасибо"
    ∷ "благодар" ∷ "до свидан" ∷ capabilities_keywords

-- `_KEYWORDS`, in its order
abbrev pub class_keywords : List (Intent × List String)
class_keywords =
    (Intent.info_qa, info_qa_keywords)
    ∷ (Intent.partner_service, partner_service_keywords)
    ∷ (Intent.status_query, status_keywords)
    ∷ (Intent.pricing_query, pricing_query_keywords)
    ∷ (Intent.support_issue, support_issue_keywords)
    ∷ (Intent.small_talk, small_talk_keywords)
    ∷ []

-- `_SIDE_TENANT` and `_SIDE_LANDLORD`
abbrev pub side_tenant : List String
side_tenant =
    "арендатор" ∷ "я снима" ∷ "хочу снят" ∷ "как жилец" ∷ "как наниматель" ∷ "наниматель" ∷ []

abbrev pub side_landlord : List String
side_landlord =
    "арендодател" ∷ "я сдаю" ∷ "хочу сдат" ∷ "как собственник" ∷ "как владелец" ∷ "наймодател" ∷ []
