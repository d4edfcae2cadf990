-- ===== src/Services/Platform.antt =====
-- backend/src/api/clients/platform/{adapter,models}.py and tools/platform.py: the objects and the
-- bookings of a user, without money.
pub mod NoMoney
use kb_concierge.Prelude.{
  String, Bool, true, false, Option, none, some, List, [], ◌∷◌, if◌then◌else◌, fstring, non_empty,
  Json, null, str, arr, obj, Items, nil, Fields, end, field, get_default,
}
use kb_concierge.Reasoning.Calls.{ToolContext, ToolResult}
use kb_concierge.Services.{
  HttpRequest, Token, Send, Exchanged, degraded, crashed, body_of, fetch, authorization, no_result,
  only_keys, each_dict,
}

-- `UserContext`; an object has four keys, and so has a booking.
pub record UserContext : Type 0 where
  pub user_id : String
  pub display_name : Json
  pub premises : Items
  pub bookings : Items
  pub unavailable : Bool

abbrev pub no_context : String → UserContext
no_context user_id = record {
  user_id = user_id;
  display_name = null;
  premises = nil;
  bookings = nil;
  unavailable = true;
}

module _ (render : Json → String) where
  -- `Premises(…)` by `asdict`
  unfoldable pub premises_of : Fields → Fields
  premises_of p = field "premises_id" (str (render (get_default "id" (str "") p))) (
      field "address" (get_default "address" null p) (
        field "kind" (get_default "kind" null p)
          (field "management_contact" (get_default "management_contact" null p) end)))

  -- `Booking(…)` by `asdict`
  unfoldable pub booking_of : Fields → Fields
  booking_of b = field "booking_id" (str (render (get_default "id" (str "") b))) (
      field "status" (get_default "status" null b) (
        field "start_date" (get_default "start_date" null b)
          (field "end_date" (get_default "end_date" null b) end)))

  in_lists : String → Json → Option Items → Option Items → Option UserContext
  in_lists user_id display_name (some premises) (some bookings) = some (record {
    user_id = user_id;
    display_name = display_name;
    premises = premises;
    bookings = bookings;
    unavailable = false;
  })
  in_lists user_id display_name (some premises) none = none
  in_lists user_id display_name none bookings = none

  -- `_to_context`
  unfoldable pub to_context : String → Json → Option UserContext
  unfolding in_lists premises_of booking_of each_dict
  to_context user_id (obj fs) =
      in_lists user_id (get_default "display_name" null fs)
        (each_dict premises_of (get_default "premises" null fs))
        (each_dict booking_of (get_default "bookings" null fs))
  to_context user_id _ = in_lists user_id null (some nil) (some nil)

  context_from : String → Exchanged → Option UserContext
  context_from user_id degraded = some (no_context user_id)
  context_from user_id crashed = none
  context_from user_id (body_of payload) = to_context user_id payload

  module _ (token : Option String → Token) (cached : String → Option Json) (send : Send) where
    -- `HttpPlatformClient.get_context`, for the user on whose behalf it is asked
    unfoldable pub get_context : String → Option UserContext
    unfolding context_from
    get_context user_id = context_from user_id (
        fetch (token (some user_id))
          (cached (
            fstring
              ("context:" ∷ (if non_empty user_id then user_id else "-") ∷ ":" ∷ user_id ∷ [])))
          (λ t. record {
            method = "GET";
            path = fstring ("/api/v1/users/" ∷ user_id ∷ "/context" ∷ []);
            headers = authorization t ∷ [];
            body = none;
          })
          send)

    context_data : Option UserContext → Option ToolResult
    context_data none = none
    context_data (some c) = some (record {
      data_fields = field "user_id" (str c.user_id) (
          field "display_name" c.display_name
            (field "premises" (arr c.premises) (field "bookings" (arr c.bookings) end)));
      unavailable = c.unavailable;
    })

    context_for : Option String → Option ToolResult
    unfolding context_data
    context_for none = some no_result
    context_for (some user_id) = context_data (get_context user_id)

    -- `PlatformGetContextTool.run`
    unfoldable pub run_get_context : Fields → ToolContext → Option ToolResult
    unfolding context_for
    run_get_context payload context =
        if only_keys [] payload then context_for context.on_behalf_of else none
