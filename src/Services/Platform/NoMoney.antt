-- ===== src/Services/Platform/NoMoney.antt =====
-- The context of a user depends on the listed keys of the answer alone.
use kb_concierge.Prelude.{
  String, ◌≡◌, refl, sym, ap, Bool, true, false, some, List, [], ◌∷◌, ◌||◌, if◌then◌else◌, str_eq,
  any, Json, null, bool, num, str, arr, obj, Items, nil, cons, Fields, end, field, get_field,
  get_default, truth, item_list, tuple_of, arith, eq_iff,
}
use kb_concierge.Services.{each_dict, listed, dicts_of, add_dict}
use kb_concierge.Services.Platform.{premises_of, booking_of, to_context}

-- The keys that the adapter reads.
abbrev pub known_keys : List String
known_keys =
    "id" ∷ "address" ∷ "kind" ∷ "management_contact" ∷ "status" ∷ "start_date" ∷ "end_date"
    ∷ "display_name" ∷ "premises" ∷ "bookings" ∷ []

abbrev is_known : String → Bool
is_known k = any (λ j. str_eq j k) known_keys

abbrev pub keep_fields : (String → Bool) → Fields → Fields
keep_fields p end = end
keep_fields p (field k v fs) = let rest = keep_fields p fs in if p k then field k v rest else rest

-- The fields with a known key.
abbrev pub known : Fields → Fields
known fs = keep_fields is_known fs

abbrev pub known_item : Json → Json
known_item (obj fs) = obj (known fs)
known_item x = x

abbrev pub known_items : Items → Items
known_items nil = nil
known_items (cons x xs) = cons (known_item x) (known_items xs)

-- The objects of a list with their known fields.
abbrev pub known_list : Json → Json
known_list (arr xs) = arr (known_items xs)
known_list x = x

abbrev pub is_list_key : String → Bool
is_list_key k = str_eq k "premises" || str_eq k "bookings"

abbrev pub change_at : (String → Bool) → (Json → Json) → Fields → Fields
change_at q g end = end
change_at q g (field k v fs) = field k (if q k then g v else v) (change_at q g fs)

-- With the known fields of the objects in the lists.
abbrev pub lists_known : Fields → Fields
lists_known fs = change_at is_list_key known_list fs

get_default-keep :
    (p : String → Bool) (k : String) (d : Json) (fs : Fields)
    → p k ≡ true
    → get_default k d (keep_fields p fs) ≡ get_default k d fs
unfolding get_field
get_default-keep p k d end h = refl
get_default-keep p k d (field j v fs) h = ground (arith, eq_iff j k, get_default-keep p k d fs)

module _ (q : String → Bool) (g : Json → Json) (k : String) (d : Json) where
  get_default-unchanged :
      (fs : Fields) → q k ≡ false → get_default k d (change_at q g fs) ≡ get_default k d fs
  unfolding get_field
  get_default-unchanged end h = refl
  get_default-unchanged (field j v fs) h = ground (arith, eq_iff j k, get_default-unchanged fs)

  get_default-changed :
      (fs : Fields)
      → q k ≡ true
      → g d ≡ d
      → get_default k d (change_at q g fs) ≡ g (get_default k d fs)
  unfolding get_field
  get_default-changed end h same_d = sym same_d
  get_default-changed (field j v fs) h same_d = ground (arith, eq_iff j k, get_default-changed fs)

module _ (f : Fields → Fields) (h : (fs : Fields) → f (known fs) ≡ f fs) where
  dicts_of-known :
      (xs : Items) → dicts_of f (item_list (known_items xs)) ≡ dicts_of f (item_list xs)
  unfolding dicts_of add_dict
  dicts_of-known nil = refl
  dicts_of-known (cons (obj fs) xs) = rw (h fs) (rw (dicts_of-known xs) refl)
  dicts_of-known (cons null xs) = dicts_of-known xs
  dicts_of-known (cons (bool b) xs) = dicts_of-known xs
  dicts_of-known (cons (num n) xs) = dicts_of-known xs
  dicts_of-known (cons (str s) xs) = dicts_of-known xs
  dicts_of-known (cons (arr ys) xs) = dicts_of-known xs

  each_dict-known : (x : Json) → each_dict f (known_list x) ≡ each_dict f x
  unfolding each_dict listed tuple_of truth
  each_dict-known (arr nil) = refl
  each_dict-known (arr (cons x xs)) = ap some (dicts_of-known (cons x xs))
  each_dict-known null = refl
  each_dict-known (bool b) = refl
  each_dict-known (num n) = refl
  each_dict-known (str s) = refl
  each_dict-known (obj fs) = refl

module _ (render : Json → String) where
  premises_of-known : (p : Fields) → premises_of render (known p) ≡ premises_of render p
  unfolding premises_of
  premises_of-known p = rw (get_default-keep is_known "id" (str "") p refl) (
      rw (get_default-keep is_known "address" null p refl) (
        rw (get_default-keep is_known "kind" null p refl)
          (rw (get_default-keep is_known "management_contact" null p refl) refl)))

  booking_of-known : (b : Fields) → booking_of render (known b) ≡ booking_of render b
  unfolding booking_of
  booking_of-known b = rw (get_default-keep is_known "id" (str "") b refl) (
      rw (get_default-keep is_known "status" null b refl) (
        rw (get_default-keep is_known "start_date" null b refl)
          (rw (get_default-keep is_known "end_date" null b refl) refl)))

  -- The context that is made of an answer is the one that is made of its listed keys: of the
  -- answer's own, and of those of each object and booking in it. No other key, such as an amount of
  -- money, has an influence on it.
  pub to_context-known :
      (user_id : String) (fs : Fields)
      → to_context render user_id (obj (known (lists_known fs)))
        ≡ to_context render user_id (obj fs)
  unfolding to_context
  to_context-known user_id fs =
      rw (get_default-keep is_known "display_name" null (lists_known fs) refl) (
        rw (get_default-keep is_known "premises" null (lists_known fs) refl) (
          rw (get_default-keep is_known "bookings" null (lists_known fs) refl) (
            rw (get_default-unchanged is_list_key known_list "display_name" null fs refl) (
              rw (get_default-changed is_list_key known_list "premises" null fs refl refl) (
                rw (get_default-changed is_list_key known_list "bookings" null fs refl refl) (
                  rw
                    (each_dict-known (premises_of render) premises_of-known
                      (get_default "premises" null fs))
                    (rw
                      (each_dict-known (booking_of render) booking_of-known
                        (get_default "bookings" null fs))
                      refl)))))))
