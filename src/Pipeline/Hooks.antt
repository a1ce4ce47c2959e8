-- ===== src/Pipeline/Hooks.antt =====
-- request-pipeline/context/index.ts, context/base.ts and utils.ts: errors, the response headers and
-- the request hooks; what the outside answers.
use testcafe_hammerhead.Common.{
  ℕ, Bool, true, false, not, ◌&&◌, Option, List, [], ◌∷◌, ◌++◌, if◌then◌else◌,
}
use testcafe_hammerhead.Common.Chars.{Text}
use testcafe_hammerhead.Pipeline.RequestContext.{
  Response, Context, Action, act, request_hook, configure_response_hook, response_hook, write_head,
  write_body, end_response, destroy_request, throw_headers_sent, throw_on_web_socket,
}

pub data RequestEvent : Type 0 where
  response : Response → RequestEvent
  error fatal_error : Text → RequestEvent
  socket_hang_up : RequestEvent

-- `error_handler` is what `callRequestHookErrorHandler` finds for the first rule of the request:
-- no listeners, or listeners with or without a function for errors.
pub record Mock : Type 0 where
  pub mock_response : Response
  pub has_error : Bool
  pub error_handler : Option Bool

-- `rules` are the rules of the hooks that match the request, `mock` the first mock that a handler
-- sets. `socket_reset` is whether the browser's socket is reset before the destination answers,
-- `storable` whether a cache entry can be made for the response. `process_resource` fails with a
-- text, and `handle_page_error` is the session's.
pub record Env : Type 0 where
  pub rules : List Bool
  pub mock : Option Mock
  pub socket_reset : Bool
  pub event : RequestEvent
  pub cache_requests : Bool
  pub storable : Bool
  pub body : Text
  pub process_resource : Context → Option Text
  pub processing_error : Text
  pub handle_page_error : Text → Context → Context

-- The next call, if none has thrown.
infixl 5 ◌▷◌
abbrev pub ◌▷◌ : Context → (Context → Context) → Context
c ▷ f = if c.has_thrown then c else f c

-- `closeWithError`
unfoldable pub close_with_error : ℕ → Text → Context → Context
close_with_error status_code res_body c =
    let written =
      if not c.is_web_socket && not c.headers_sent
      then act (write_body res_body)
          (act (write_head status_code) (record c { headers_sent = true }))
      else c in
    record (act end_response written) { go_to_next_stage = false }

-- `error` of utils.ts
unfoldable pub report_error : Env → Text → Context → Context
unfolding close_with_error
report_error env err c =
    if c.is_page && not c.is_iframe
    then env.handle_page_error err c
    else if c.is_ajax
    then act destroy_request c
    else close_with_error 500 err c

-- `sendResponseHeaders`, of the headers only the status
unfoldable pub send_response_headers : Response → Context → Context
send_response_headers res c =
    if c.is_web_socket
    then record (act throw_on_web_socket c) { has_thrown = true }
    else if c.headers_sent
    then record (act throw_headers_sent c) { has_thrown = true }
    else act (write_head res.status_code) (record c { headers_sent = true })

unfoldable pub repeat_act : Action → List Bool → Context → Context
repeat_act a [] c = c
repeat_act a (r ∷ rules) c = repeat_act a rules (act a c)

unfoldable pub on_request_hook_request : Env → Context → Context
unfolding repeat_act
on_request_hook_request env c =
    repeat_act request_hook env.rules (record c { request_filter_rules = env.rules })

unfoldable pub on_request_hook_configure_response : Context → Context
unfolding repeat_act
on_request_hook_configure_response c =
    let called = repeat_act configure_response_hook c.request_filter_rules c in
    record called {
      on_response_event_data = called.on_response_event_data ++ c.request_filter_rules;
    }

-- `onRequestHookResponse` for each of some event data
unfoldable pub on_request_hook_responses : List Bool → Context → Context
unfolding repeat_act
on_request_hook_responses event_data c = repeat_act response_hook event_data c
