-- ===== src/RequestHooks/Tests.antt =====
-- One rule whose callback sets a header, and a header that is set from outside.
use testcafe_hammerhead.Common.{◌≡◌, refl, true, some, str_eq, [], ◌∷◌, ◌++◌, if◌then◌else◌}
use testcafe_hammerhead.Common.Assoc.{lookup}
use testcafe_hammerhead.RequestHooks.{
  RequestHookEventProvider, RequestEventListenersData, HookEvent, CallbackResult, returned,
  ConfigureResponseEventData, default_options, set_header, modify, on_configure_response,
  call_request_event_callback, ensure_configure_response_event_data,
  update_configure_response_event_data,
}
use testcafe_hammerhead.RequestHooks.Patches.{modifications_of, call_request_event_callback-update}

abbrev setting_header : HookEvent → CallbackResult
setting_header ev = returned (modify (set_header "a" "1") ev)

abbrev listeners_data : RequestEventListenersData
listeners_data = record {
  listeners = λ n. some setting_header;
  has_error_handler = true;
  rule = "r";
}

abbrev provider : RequestHookEventProvider
provider = record {
  request_event_listeners = ("r", listeners_data) ∷ [];
  mocks = [];
  configure_response = [];
}

abbrev event : HookEvent
event = record { id = "e"; opts = default_options; modifies = true; modifications = [] }

abbrev event_left : HookEvent
event_left = record event { modifications = set_header "a" "1" ∷ [] }

abbrev with_header : ConfigureResponseEventData → ConfigureResponseEventData
with_header d = record d { set_headers = d.set_headers ++ ("b", "2") ∷ [] }

provider_lookup : lookup "r" provider.request_event_listeners ≡ some listeners_data
unfolding lookup
provider_lookup = refl

call_request_event_callback-update_example :
    (call_request_event_callback on_configure_response "r" event
      (update_configure_response_event_data "e" with_header provider)).event
    ≡ (if str_eq "e" event_left.id
        then record event_left {
          opts = (with_header (ensure_configure_response_event_data "e" provider)).opts;
          modifications =
              event_left.modifications
              ++ modifications_of (with_header (ensure_configure_response_event_data "e" provider));
        }
        else (call_request_event_callback on_configure_response "r" event provider).event)
call_request_event_callback-update_example =
    call_request_event_callback-update provider "e" "r" with_header listeners_data setting_header
      event event_left provider_lookup refl refl refl
