-- ===== src/Listening/Tests.antt =====
-- Runs of the listening context at a concrete element.
use testcafe_hammerhead.Common.{◌≡◌, refl, true, false, some, [], ◌∷◌}
use testcafe_hammerhead.Listening.{
  EventCtx, Element, new_event_ctx, wrap_event_listener, find_listener, get_wrapper,
}
use testcafe_hammerhead.Listening.Wrappers.{
  bindings, IsParallel, take_binding, get_wrapper-take_binding, get_wrapper-wrap_event_listener,
}

abbrev ctx : EventCtx
ctx = record new_event_ctx {
  outer_handlers = record { fn = 7; use_capture = true } ∷ [];
  wrappers = 70 ∷ [];
}

get_wrapper-take_binding_example :
    IsParallel (get_wrapper ctx 7 true).1
    × (((get_wrapper ctx 7 true).0, bindings (get_wrapper ctx 7 true).1)
        ≡ take_binding 7 true (bindings ctx))
get_wrapper-take_binding_example = get_wrapper-take_binding ctx 7 true refl

get_wrapper-wrap_event_listener_example :
    get_wrapper (wrap_event_listener ctx 7 71 false) 7 false ≡ (some 71, ctx)
unfolding find_listener
get_wrapper-wrap_event_listener_example = get_wrapper-wrap_event_listener ctx 7 71 false refl refl

abbrev element : Element
element = record {
  storage_prop = some (("click", ctx) ∷ ("blur", new_event_ctx) ∷ []);
  native_calls = [];
}
