-- ===== src/RequestHooks.antt =====
-- request-pipeline/request-hooks/events/event-provider.ts and configure-response-event.ts, and the
-- methods of src/session/index.ts that change the data of an event from outside its callback.
--
-- A callback is a function from an event to the event as it leaves it, or to that and an error. The
-- calls of a response's `setHeader` and `removeHeader` are a list. Rules and mocks are known by texts.
pub mod Patches
mod Tests
use testcafe_hammerhead.Common.{
  ◌≡◌, ℕ, Bool, true, false, not, Option, none, some, String, List, [], ◌∷◌, ◌++◌, if◌then◌else◌,
}
use testcafe_hammerhead.Common.Assoc.{lookup, insert, delete}

pub data RequestEventName : Type 0 where
  on_request on_configure_response on_response : RequestEventName

pub record ConfigureResponseEventOptions : Type 0 where
  pub include_headers : Bool
  pub include_body : Bool

abbrev pub default_options : ConfigureResponseEventOptions
default_options = record { include_headers = false; include_body = false }

pub record ConfigureResponseEventData : Type 0 where
  pub opts : ConfigureResponseEventOptions
  pub set_headers : List (String × String)
  pub removed_headers : List String

pub data Modification : Type 0 where
  set_header : String → String → Modification
  remove_header : String → Modification

-- `modifies` is whether the event has `_modifyResponseFunctions`.
pub record HookEvent : Type 0 where
  pub id : String
  pub opts : ConfigureResponseEventOptions
  pub modifies : Bool
  pub modifications : List Modification

abbrev pub modify : Modification → HookEvent → HookEvent
modify m ev = if ev.modifies then record ev { modifications = ev.modifications ++ m ∷ [] } else ev

pub data CallbackResult : Type 0 where
  returned : HookEvent → CallbackResult
  thrown : HookEvent → (error : String) → CallbackResult

pub record RequestEventListenersData : Type 0 where
  pub listeners : RequestEventName → Option (HookEvent → CallbackResult)
  pub has_error_handler : Bool
  pub rule : String

-- `RequestHookEventProvider`
pub record RequestHookEventProvider : Type 0 where
  pub request_event_listeners : List (String × RequestEventListenersData)
  pub mocks : List (String × String)
  pub configure_response : List (String × ConfigureResponseEventData)

abbrev pub new_provider : RequestHookEventProvider
new_provider = record { request_event_listeners = []; mocks = []; configure_response = [] }

unfoldable pub has_request_event_listeners : RequestHookEventProvider → Bool
has_request_event_listeners p = elim p.request_event_listeners [ [] ↦ false | _ ∷ _ ↦ true ]

unfoldable pub add_request_event_listeners :
    RequestEventListenersData → RequestHookEventProvider → RequestHookEventProvider
unfolding insert
add_request_event_listeners d p = record p {
  request_event_listeners = insert d.rule d p.request_event_listeners;
}

unfoldable pub remove_request_event_listeners :
    String → RequestHookEventProvider → RequestHookEventProvider
unfolding delete
remove_request_event_listeners rule p = record p {
  request_event_listeners = delete rule p.request_event_listeners;
}

unfoldable pub clear_request_event_listeners : RequestHookEventProvider → RequestHookEventProvider
clear_request_event_listeners p = record p { request_event_listeners = [] }

-- `getRequestFilterRules`; the test is `requestIsMatchRule` for the request.
abbrev pub matching_rules :
    (String → Bool) → List (String × RequestEventListenersData) → List String
matching_rules matches [] = []
matching_rules matches ((id, d) ∷ rest) =
    let others = matching_rules matches rest in if matches d.rule then d.rule ∷ others else others

unfoldable pub get_request_filter_rules : (String → Bool) → RequestHookEventProvider → List String
get_request_filter_rules matches p = matching_rules matches p.request_event_listeners

unfoldable pub set_mock : String → String → RequestHookEventProvider → RequestHookEventProvider
unfolding insert
set_mock id mock p = record p { mocks = insert id mock p.mocks }

unfoldable pub get_mock : String → RequestHookEventProvider → Option String
unfolding lookup
get_mock id p = lookup id p.mocks

abbrev pub set_all : List (String × String) → HookEvent → HookEvent
set_all [] ev = ev
set_all ((name, value) ∷ rest) ev = set_all rest (modify (set_header name value) ev)

abbrev pub remove_all : List String → HookEvent → HookEvent
remove_all [] ev = ev
remove_all (name ∷ rest) ev = remove_all rest (modify (remove_header name) ev)

abbrev pub apply_data : ConfigureResponseEventData → HookEvent → HookEvent
apply_data d ev = remove_all d.removed_headers (set_all d.set_headers (record ev { opts = d.opts }))

abbrev pub apply_found : Option ConfigureResponseEventData → HookEvent → HookEvent
apply_found none ev = ev
apply_found (some d) ev = apply_data d ev

-- `_patchOnConfigureResponseEvent`
unfoldable pub patch_event : RequestEventName → HookEvent → RequestHookEventProvider → HookEvent
unfolding lookup
patch_event on_configure_response ev p = apply_found (lookup ev.id p.configure_response) ev
patch_event on_request ev p = ev
patch_event on_response ev p = ev

pub record RequestEventListenerError : Type 0 where
  pub error : String
  pub method_name : RequestEventName

-- The event after a call, and what the error handler is called with.
pub record Called : Type 0 where
  pub event : HookEvent
  pub handled : List RequestEventListenerError

abbrev pub finish_callback :
    RequestEventName → Bool → CallbackResult → RequestHookEventProvider → Called
finish_callback name handles (returned ev) p = record {
  event = patch_event name ev p;
  handled = [];
}
finish_callback name handles (thrown ev error) p = record {
  event = ev;
  handled = if handles then record { error = error; method_name = name } ∷ [] else [];
}

abbrev pub call_listener :
    RequestEventName
    → Option (HookEvent → CallbackResult)
    → Bool
    → HookEvent
    → RequestHookEventProvider
    → Called
call_listener name none handles ev p = record { event = ev; handled = [] }
call_listener name (some callback) handles ev p = finish_callback name handles (callback ev) p

abbrev pub call_found :
    RequestEventName
    → Option RequestEventListenersData
    → HookEvent
    → RequestHookEventProvider
    → Called
call_found name none ev p = record { event = ev; handled = [] }
call_found name (some d) ev p = call_listener name (d.listeners name) d.has_error_handler ev p

unfoldable pub call_request_event_callback :
    RequestEventName → String → HookEvent → RequestHookEventProvider → Called
unfolding lookup patch_event
call_request_event_callback name rule ev p =
    call_found name (lookup rule p.request_event_listeners) ev p

-- `callRequestHookErrorHandler`; a handler that is no function makes the call throw.
abbrev pub error_handled :
    Option RequestEventListenersData → String → Option (List RequestEventListenerError)
error_handled none error = some []
error_handled (some d) error =
    if d.has_error_handler
    then some (record { error = error; method_name = on_response } ∷ [])
    else none

unfoldable pub call_request_hook_error_handler :
    String → String → RequestHookEventProvider → Option (List RequestEventListenerError)
unfolding lookup
call_request_hook_error_handler rule error p =
    error_handled (lookup rule p.request_event_listeners) error

-- `_ensureConfigureResponseEventData`
abbrev pub data_or_default : Option ConfigureResponseEventData → ConfigureResponseEventData
data_or_default none = record { opts = default_options; set_headers = []; removed_headers = [] }
data_or_default (some d) = d

unfoldable pub ensure_configure_response_event_data :
    String → RequestHookEventProvider → ConfigureResponseEventData
unfolding lookup
ensure_configure_response_event_data id p = data_or_default (lookup id p.configure_response)

unfoldable pub update_configure_response_event_data :
    String
    → (ConfigureResponseEventData → ConfigureResponseEventData)
    → RequestHookEventProvider
    → RequestHookEventProvider
unfolding ensure_configure_response_event_data insert
update_configure_response_event_data id f p = record p {
  configure_response =
      insert id (f (ensure_configure_response_event_data id p)) p.configure_response;
}

unfoldable pub remove_configure_response_event_data :
    String → RequestHookEventProvider → RequestHookEventProvider
unfolding delete
remove_configure_response_event_data id p = record p {
  configure_response = delete id p.configure_response;
}

unfoldable pub set_configure_response_event_options :
    String → ConfigureResponseEventOptions → RequestHookEventProvider → RequestHookEventProvider
unfolding update_configure_response_event_data
set_configure_response_event_options id opts =
    update_configure_response_event_data id (λ d. record d { opts = opts })

unfoldable pub set_header_on_configure_response_event :
    String → String → String → RequestHookEventProvider → RequestHookEventProvider
unfolding update_configure_response_event_data
set_header_on_configure_response_event id name value =
    update_configure_response_event_data id
      (λ d. record d { set_headers = d.set_headers ++ (name, value) ∷ [] })

unfoldable pub remove_header_on_configure_response_event :
    String → String → RequestHookEventProvider → RequestHookEventProvider
unfolding update_configure_response_event_data
remove_header_on_configure_response_event id name =
    update_configure_response_event_data id
      (λ d. record d { removed_headers = d.removed_headers ++ name ∷ [] })
