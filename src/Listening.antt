-- ===== src/Listening.antt =====
-- client/sandbox/event/listening-context.ts: the handlers that hammerhead keeps for an element.
--
-- Functions are compared by identity only, so a handler is a number. `none` is a thrown TypeError,
-- at an element without a context or an event without an entry. The browser's own
-- `addEventListener` and `removeEventListener` are the list of the calls that were made of them.
pub mod Wrappers
pub mod Events
mod Tests
use mathlib.Core.Option
use testcafe_hammerhead.Common.{
  ℕ, zero, suc, String, Bool, true, false, ◌&&◌, ◌||◌, Option, none, some, List, [], ◌∷◌, ◌++◌,
  ◌==◌, bool_eq, erase_idx, get_elem?, if◌then◌else◌,
}
use testcafe_hammerhead.Common.Assoc.{lookup, insert}

pub record OuterHandler : Type 0 where
  pub fn : ℕ
  pub use_capture : Bool

pub record EventCtx : Type 0 where
  pub internal_before_handlers : List ℕ
  pub internal_after_handlers : List ℕ
  pub outer_handlers : List OuterHandler
  pub outer_handlers_wrapper : Option ℕ
  pub wrappers : List ℕ
  pub cancel_outer_handlers : Bool

pub data NativeCall : Type 0 where
  add_event_listener remove_event_listener : String → ℕ → NativeCall

pub record Element : Type 0 where
  pub storage_prop : Option (List (String × EventCtx))
  pub native_calls : List NativeCall

unfoldable pub get_event_ctx : Element → String → Option EventCtx
unfolding lookup
get_event_ctx el event = elim el.storage_prop [ none ↦ none | some ctx ↦ lookup event ctx ]

unfoldable pub is_element_listening : Element → Bool
is_element_listening el = elim el.storage_prop [ none ↦ false | some ctx ↦ true ]

abbrev pub new_event_ctx : EventCtx
new_event_ctx = record {
  internal_before_handlers = [];
  internal_after_handlers = [];
  outer_handlers = [];
  outer_handlers_wrapper = none;
  wrappers = [];
  cancel_outer_handlers = false;
}

-- The loop of `addListeningElement`.
abbrev pub add_entry : List (String × EventCtx) → String → List (String × EventCtx)
add_entry ctx event = elim (lookup event ctx) [
  | none ↦ insert event new_event_ctx ctx
  | some c ↦ ctx
]

unfoldable pub add_entries : List (String × EventCtx) → List String → List (String × EventCtx)
unfolding lookup insert
add_entries ctx [] = ctx
add_entries ctx (event ∷ events) = add_entries (add_entry ctx event) events

unfoldable pub add_listening_element : Element → List String → Element
unfolding add_entries
add_listening_element el events = record el {
  storage_prop = some (add_entries (Option.get_or el.storage_prop []) events);
}

-- `delete` of the property: `addListeningElement` defines it without `configurable`, so that it cannot
-- be deleted. Strict code throws, other code goes on with the property in its place; the build makes
-- the client's script non-strict.
unfoldable pub remove_listening_element : (is_strict : Bool) → Element → Option Element
remove_listening_element is_strict el = elim el.storage_prop [
  | none ↦ some el
  | some ctx ↦ if is_strict then none else some el
]

-- A write to the entry of an event.
abbrev pub put_event_ctx : Element → String → EventCtx → Element
put_event_ctx el event c = record el {
  storage_prop = some (insert event c (Option.get_or el.storage_prop []));
}

unfoldable pub update_event : (EventCtx → EventCtx) → Element → String → Option Element
unfolding get_event_ctx insert
update_event f el event = elim (get_event_ctx el event) [
  | none ↦ none
  | some c ↦ some (put_event_ctx el event (f c))
]

-- `for (const event of events)`
unfoldable pub for_events :
    (Element → String → Option Element) → List String → Element → Option Element
for_events step [] el = some el
for_events step (event ∷ events) el = elim (step el event) [
  | none ↦ none
  | some next ↦ for_events step events next
]

abbrev pub unshift_after : ℕ → EventCtx → EventCtx
unshift_after handler c = record c { internal_after_handlers = handler ∷ c.internal_after_handlers }

abbrev pub unshift_before : ℕ → EventCtx → EventCtx
unshift_before handler c = record c {
  internal_before_handlers = handler ∷ c.internal_before_handlers;
}

abbrev pub push_before : ℕ → EventCtx → EventCtx
push_before handler c = record c {
  internal_before_handlers = c.internal_before_handlers ++ handler ∷ [];
}

-- `indexOf` and `splice` of the handler: its first occurrence goes.
unfoldable pub remove_first : ℕ → List ℕ → List ℕ
remove_first handler [] = []
remove_first handler (h ∷ hs) = if h == handler then hs else h ∷ remove_first handler hs

abbrev pub drop_before : ℕ → EventCtx → EventCtx
drop_before handler c = record c {
  internal_before_handlers = remove_first handler c.internal_before_handlers;
}

abbrev pub call_native : NativeCall → Element → Element
call_native call el = record el { native_calls = el.native_calls ++ call ∷ [] }

unfoldable pub add_internal_after_handler : Element → List String → ℕ → Option Element
unfolding for_events update_event
add_internal_after_handler el events handler =
    for_events
      (λ e event.
        Option.map (call_native (add_event_listener event handler))
          (update_event (unshift_after handler) e event))
      events el

unfoldable pub add_first_internal_before_handler : Element → List String → ℕ → Option Element
unfolding for_events update_event
add_first_internal_before_handler el events handler =
    for_events (update_event (unshift_before handler)) events el

unfoldable pub add_internal_before_handler : Element → List String → ℕ → Option Element
unfolding for_events update_event
add_internal_before_handler el events handler =
    for_events (update_event (push_before handler)) events el

unfoldable pub remove_internal_before_handler : Element → List String → ℕ → Option Element
unfolding for_events update_event remove_first
remove_internal_before_handler el events handler =
    for_events (update_event (drop_before handler)) events el

unfoldable pub wrap_event_listener : EventCtx → ℕ → ℕ → Bool → EventCtx
wrap_event_listener c listener wrapper use_capture = record c {
  outer_handlers = c.outer_handlers ++ record { fn = listener; use_capture = use_capture } ∷ [];
  wrappers = c.wrappers ++ wrapper ∷ [];
}

abbrev pub is_listener : ℕ → Bool → OuterHandler → Bool
is_listener listener use_capture h = (h.fn == listener) && bool_eq h.use_capture use_capture

-- The index at which the loop of `getWrapper` stops.
unfoldable pub find_listener : ℕ → Bool → List OuterHandler → Option ℕ
find_listener listener use_capture [] = none
find_listener listener use_capture (h ∷ hs) =
    if is_listener listener use_capture h
    then some 0
    else Option.map suc (find_listener listener use_capture hs)

-- The result is the wrapper (`none` for `null` or `undefined`) and the changed context.
unfoldable pub get_wrapper : EventCtx → ℕ → Bool → Option ℕ × EventCtx
unfolding find_listener
get_wrapper c listener use_capture = elim (find_listener listener use_capture c.outer_handlers) [
  | none ↦ (none, c)
  | some i ↦ (
    get_elem? c.wrappers i,
    record c { outer_handlers = erase_idx c.outer_handlers i; wrappers = erase_idx c.wrappers i },
  )
]

abbrev pub readd_calls : String → List ℕ → List NativeCall
readd_calls event [] = []
readd_calls event (h ∷ hs) =
    remove_event_listener event h ∷ add_event_listener event h ∷ readd_calls event hs

unfoldable pub update_internal_after_handlers : Element → String → Option Element
unfolding get_event_ctx
update_internal_after_handlers el event = elim (get_event_ctx el event) [
  | none ↦ none
  | some c ↦
      some (record el {
        native_calls = el.native_calls ++ readd_calls event c.internal_after_handlers;
      })
]
