-- ===== src/RequestHooks/Patches.antt =====
-- What is set for an event from outside reaches that event, and no other.
use testcafe_hammerhead.Common.{
  ◌≡◌, refl, ap, sym, ◌∙◌, Bool, true, false, Option, some, String, str_eq, List, [], ◌∷◌, ◌++◌,
  map, if◌then◌else◌,
}
use mathlib.Core.List.{append_assoc, append-nil}
use testcafe_hammerhead.Common.Assoc.{lookup, lookup-insert}
use testcafe_hammerhead.RequestHooks.{
  RequestHookEventProvider, RequestEventListenersData, HookEvent, CallbackResult, returned,
  ConfigureResponseEventData, Modification, set_header, remove_header, set_all, remove_all,
  apply_data, apply_found, patch_event, on_configure_response, call_request_event_callback,
  call_found, call_listener, finish_callback, ensure_configure_response_event_data,
  update_configure_response_event_data,
}

abbrev pub setting : String × String → Modification
setting h = set_header h.0 h.1

-- The modifications of an event that is patched, in their order.
abbrev pub modifications_of : ConfigureResponseEventData → List Modification
modifications_of d = map setting d.set_headers ++ map remove_header d.removed_headers

set_all-modifications :
    (hs : List (String × String)) (ev : HookEvent)
    → ev.modifies ≡ true
    → set_all hs ev ≡ record ev { modifications = ev.modifications ++ map setting hs }
set_all-modifications [] ev h =
    ap (λ l. record ev { modifications = l }) (sym (append-nil ev.modifications))
set_all-modifications ((name, value) ∷ hs) ev h =
    let pushed = record ev { modifications = ev.modifications ++ set_header name value ∷ [] } in
    ap (λ b. set_all hs (if b then pushed else ev)) h
    ∙ set_all-modifications hs pushed h
    ∙ ap (λ l. record ev { modifications = l })
        (append_assoc ev.modifications (set_header name value ∷ []) (map setting hs))

remove_all-modifications :
    (names : List String) (ev : HookEvent)
    → ev.modifies ≡ true
    → remove_all names ev
      ≡ record ev { modifications = ev.modifications ++ map remove_header names }
remove_all-modifications [] ev h =
    ap (λ l. record ev { modifications = l }) (sym (append-nil ev.modifications))
remove_all-modifications (name ∷ names) ev h =
    let pushed = record ev { modifications = ev.modifications ++ remove_header name ∷ [] } in
    ap (λ b. remove_all names (if b then pushed else ev)) h
    ∙ remove_all-modifications names pushed h
    ∙ ap (λ l. record ev { modifications = l })
        (append_assoc ev.modifications (remove_header name ∷ []) (map remove_header names))

apply_data-modifications :
    (d : ConfigureResponseEventData) (ev : HookEvent)
    → ev.modifies ≡ true
    → apply_data d ev
      ≡ record ev { opts = d.opts; modifications = ev.modifications ++ modifications_of d }
apply_data-modifications d ev h =
    let configured = record ev { opts = d.opts } in
    let set = record configured { modifications = ev.modifications ++ map setting d.set_headers } in
    ap (remove_all d.removed_headers) (set_all-modifications d.set_headers configured h)
    ∙ remove_all-modifications d.removed_headers set h
    ∙ ap (λ l. record configured { modifications = l })
        (append_assoc ev.modifications (map setting d.set_headers)
          (map remove_header d.removed_headers))

found_if :
    (b : Bool) (d : ConfigureResponseEventData) (o : Option ConfigureResponseEventData)
    (ev : HookEvent)
    → ev.modifies ≡ true
    → apply_found (if b then some d else o) ev ≡ (
        if b
        then record ev { opts = d.opts; modifications = ev.modifications ++ modifications_of d }
        else apply_found o ev)
found_if true d o ev h = apply_data-modifications d ev h
found_if false d o ev h = refl

-- A call whose callback returns is the patch of the event that is returned.
returned_call :
    (p : RequestHookEventProvider) (rule : String) (d : RequestEventListenersData)
    (callback : HookEvent → CallbackResult) (ev left : HookEvent)
    → lookup rule p.request_event_listeners ≡ some d
    → d.listeners on_configure_response ≡ some callback
    → callback ev ≡ returned left
    → (call_request_event_callback on_configure_response rule ev p).event
      ≡ apply_found (lookup left.id p.configure_response) left
unfolding call_request_event_callback patch_event
returned_call p rule d callback ev left found listening result =
    ap (λ o. (call_found on_configure_response o ev p).event) found
    ∙ ap (λ l. (call_listener on_configure_response l d.has_error_handler ev p).event) listening
    ∙ ap (λ r. (finish_callback on_configure_response d.has_error_handler r p).event) result

-- For a rule whose callback returns an event that can modify its response: after the data of an
-- event is updated, the call leaves the event of that id with the options of the updated data and
-- with all its headers set and then all removed ones removed, behind what the callback did itself,
-- and leaves an event of another id as it would have been.
pub call_request_event_callback-update :
    (p : RequestHookEventProvider) (id rule : String)
    (f : ConfigureResponseEventData → ConfigureResponseEventData) (d : RequestEventListenersData)
    (callback : HookEvent → CallbackResult) (ev left : HookEvent)
    → lookup rule p.request_event_listeners ≡ some d
    → d.listeners on_configure_response ≡ some callback
    → callback ev ≡ returned left
    → left.modifies ≡ true
    → (call_request_event_callback on_configure_response rule ev
        (update_configure_response_event_data id f p)).event
      ≡ (if str_eq id left.id
          then record left {
            opts = (f (ensure_configure_response_event_data id p)).opts;
            modifications =
                left.modifications
                ++ modifications_of (f (ensure_configure_response_event_data id p));
          }
          else (call_request_event_callback on_configure_response rule ev p).event)
unfolding call_request_event_callback update_configure_response_event_data patch_event
call_request_event_callback-update p id rule f d callback ev left found listening result h =
    let updated = f (ensure_configure_response_event_data id p) in
    returned_call (update_configure_response_event_data id f p) rule d callback ev left found
      listening result
    ∙ ap (λ o. apply_found o left) (lookup-insert id left.id updated p.configure_response)
    ∙ found_if (str_eq id left.id) updated (lookup left.id p.configure_response) left h
    ∙ ap
        (λ r.
          if str_eq id left.id
          then record left {
            opts = updated.opts;
            modifications = left.modifications ++ modifications_of updated;
          }
          else r)
        (sym (returned_call p rule d callback ev left found listening result))
