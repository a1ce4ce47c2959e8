-- ===== src/Pipeline/Sending.antt =====
-- request-pipeline/utils.ts and the stage `sendDestinationRequest`: how a response comes about.
use testcafe_hammerhead.Common.{
  Bool, true, false, not, ◌&&◌, ◌||◌, Option, none, some, [], if◌then◌else◌,
}
use testcafe_hammerhead.Common.Chars.{codes, text_eq}
use testcafe_hammerhead.SameOrigin.{no_header}
use testcafe_hammerhead.Pipeline.RequestContext.{
  Response, ContentInfo, Context, act, mock_error_hook, destroy_dest_res, end_request_socket,
  throw_no_error_handler, build_content_info, calculate_is_dest_res_readable_ended,
}
use testcafe_hammerhead.Pipeline.Hooks.{
  RequestEvent, Mock, Env, report_error, on_request_hook_request, response, error, fatal_error,
  socket_hang_up,
}

-- Work on the response and what is known of it; without them the code throws.
abbrev pub with_both :
    (Response → ContentInfo → Context → Context)
    → Option Response
    → Option ContentInfo
    → Context
    → Context
with_both f (some res) (some info) c = f res info c
with_both f _ _ c = record c { has_thrown = true }

abbrev pub with_response : (Response → ContentInfo → Context → Context) → Context → Context
with_response f c = with_both f c.dest_res c.content_info c

-- `handleSocketError`: it only listens; what it does when the socket is reset.
abbrev pub reset_with : Option Response → Context → Context
reset_with (some res) c = act destroy_dest_res c
reset_with none c = record c { is_web_socket_connection_reset = true }

abbrev pub is_mocked : Option Mock → Bool
is_mocked none = false
is_mocked (some m) = true

unfoldable pub on_socket_reset : Env → Context → Context
on_socket_reset env c =
    if c.is_web_socket && not (is_mocked env.mock) then reset_with c.dest_res c else c

unfoldable pub should_cache : Env → ContentInfo → Context → Bool
should_cache env info c =
    env.cache_requests
    && not c.is_file_protocol
    && text_eq c.req.method (codes "GET")
    && (info.is_css || info.is_script || not info.require_processing)

unfoldable pub create_cache_entry : Env → Response → ContentInfo → Context → Context
unfolding should_cache
create_cache_entry env res info c =
    if should_cache env info c && not res.is_incoming_message_like
    then record c { temporary_cache_entry = env.storable }
    else c

abbrev pub with_info : (ContentInfo → Context → Context) → Option ContentInfo → Context → Context
with_info f none c = c
with_info f (some info) c = f info c

abbrev pub with_content_info : (ContentInfo → Context → Context) → Context → Context
with_content_info f c = with_info f c.content_info c

-- The listener of the response.
unfoldable pub on_response : Env → Response → Context → Context
unfolding build_content_info calculate_is_dest_res_readable_ended create_cache_entry
on_response env res c =
    if c.is_web_socket_connection_reset
    then act destroy_dest_res c
    else with_content_info
        (λ info d.
          create_cache_entry env res info (calculate_is_dest_res_readable_ended info res d))
        (build_content_info res (record c { dest_res = some res; go_to_next_stage = true }))

-- The listeners of `sendRequest`.
unfoldable pub on_request_event : Env → RequestEvent → Context → Context
unfolding on_response report_error
on_request_event env (response res) c = on_response env res c
on_request_event env (error err) c =
    if c.is_dest_res_readable_ended then c else report_error env err c
on_request_event env (fatal_error err) c = report_error env err c
on_request_event env socket_hang_up c = act end_request_socket c

unfoldable pub send_request : Env → Context → Context
unfolding on_request_event on_socket_reset
send_request env c =
    let sent = record c { go_to_next_stage = false } in
    on_request_event env env.event (if env.socket_reset then on_socket_reset env sent else sent)

-- `handleMockError`: without a function for errors it throws.
abbrev pub handle_mock_error : Option Bool → Context → Context
handle_mock_error none c = c
handle_mock_error (some true) c = act mock_error_hook c
handle_mock_error (some false) c = record (act throw_no_error_handler c) { has_thrown = true }

-- `mockResponse`
unfoldable pub mock_response_of : Mock → Context → Context
unfolding build_content_info
mock_response_of m c =
    let built = build_content_info m.mock_response (record c { dest_res = some m.mock_response }) in
    if m.has_error then handle_mock_error m.error_handler built else built

-- `createSpecialPageResponse`
abbrev pub special_page_response : Response
special_page_response = record {
  status_code = 200;
  content_type = codes "text/html";
  content_encoding = [];
  content_disposition = [];
  location = [];
  allow_origin = no_header;
  allow_credentials = [];
  is_incoming_message_like = true;
}

unfoldable pub send_destination_request : Env → Context → Context
unfolding build_content_info on_request_hook_request mock_response_of send_request
send_destination_request env c =
    if c.is_special_page
    then build_content_info special_page_response
        (record c { dest_res = some special_page_response })
    else elim env.mock [
      | some m ↦ mock_response_of m (on_request_hook_request env c)
      | none ↦ send_request env (on_request_hook_request env c)
    ]
