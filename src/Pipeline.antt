-- ===== src/Pipeline.antt =====
-- request-pipeline/stages.ts, utils.ts and index.ts: the way of a request through the proxy, stage
-- by stage.
--
-- What the other parts and the outside answer is an `Env`. The promise of `sendRequest` is settled
-- by the first event of the destination request; events after that one are left out, though the source
-- still handles an error that comes after a response. What the browser's socket throws in a listener
-- is left out too.
pub mod RequestContext
pub mod Hooks
pub mod Sending
pub mod Content
pub mod Facts
pub mod Conclusions
pub mod Delivery
pub mod Runs
mod Tests
use testcafe_hammerhead.Common.{
  ℕ, Bool, true, false, not, ◌&&◌, ◌||◌, ◌==◌, Option, none, some, List, [], ◌∷◌, ◌++◌, map, length,
  ltb, any_of, bool_eq, if◌then◌else◌,
}
use testcafe_hammerhead.Common.Chars.{Text, codes, text_eq}
use testcafe_hammerhead.SameOrigin.{no_header}
use testcafe_hammerhead.Pipeline.RequestContext.{
  Request, Response, DestInfo, ContentInfo, Context, Action, act, page_request, fetch_req_body,
  fetch_dest_res_body, request_hook, configure_response_hook, response_hook, mock_error_hook,
  add_to_cache, write_head, write_body, end_response, pipe_response, pipe_collected_response,
  pipe_web_socket, destroy_dest_res, destroy_request, end_request_socket, set_event_source_timeout,
  throw_headers_sent, throw_on_web_socket, throw_no_dest_socket, build_content_info,
  is_pass_same_origin_policy, calculate_is_dest_res_readable_ended, init_request_nature_info,
}
use testcafe_hammerhead.Pipeline.Hooks.{
  RequestEvent, Mock, Env, ◌▷◌, close_with_error, report_error, send_response_headers, repeat_act,
  on_request_hook_request, on_request_hook_configure_response, on_request_hook_responses, response,
  error, fatal_error, socket_hang_up,
}
use testcafe_hammerhead.Pipeline.Sending.{
  with_both, with_response, reset_with, is_mocked, on_socket_reset, should_cache,
  create_cache_entry, with_info, with_content_info, on_response, on_request_event, send_request,
  mock_response_of, special_page_response, send_destination_request,
}

unfoldable pub handle_socket_error : Env → Context → Context
handle_socket_error env c = c

unfoldable pub fetch_proxy_request_body : Env → Context → Context
fetch_proxy_request_body env c =
    act fetch_req_body (if c.is_html_page then act page_request c else c)

unfoldable pub check_same_origin_policy_compliance : Env → Context → Context
unfolding is_pass_same_origin_policy on_request_hook_configure_response on_request_hook_responses
check_same_origin_policy_compliance env = with_response (λ res info c.
    if is_pass_same_origin_policy c info res
    then c
    else (let configured =
          on_request_hook_configure_response (record c { is_same_origin_policy_failed = true }) in
        on_request_hook_responses configured.on_response_event_data configured))

-- `pipeNonProcessedResponse`; the constant is MAX_SIZE_FOR_NON_PROCESSED_RESOURCE.
unfoldable pub pipe_non_processed_response : Env → Context → Context
pipe_non_processed_response env c =
    if not env.cache_requests
    then act pipe_response c
    else (let fetched = act fetch_dest_res_body (record c { dest_res_body = env.body }) in
        let cached =
          if c.temporary_cache_entry && ltb (length env.body) 5242880
          then act add_to_cache (record fetched { temporary_cache_entry = false })
          else fetched in
        act end_response (act (write_body env.body) cached))

abbrev pub filter_event_data : Bool → List Bool → List Bool
filter_event_data b [] = []
filter_event_data b (d ∷ ds) =
    let rest = filter_event_data b ds in if bool_eq d b then d ∷ rest else rest

-- The body of a response that is not processed goes to the browser.
unfoldable pub deliver_non_processed : Env → Context → Context
unfolding on_request_hook_responses pipe_non_processed_response
deliver_non_processed env c =
    let with_body = filter_event_data true c.on_response_event_data in
    let without_body = filter_event_data false c.on_response_event_data in
    let delivered =
      if ltb 0 (length with_body)
      then act pipe_collected_response (on_request_hook_responses with_body c)
      else if ltb 0 (length without_body)
      then act pipe_response (on_request_hook_responses without_body c)
      else if c.req.socket_destroyed && not c.is_dest_res_readable_ended
      then act destroy_dest_res c
      else pipe_non_processed_response env c in
    if c.dest.is_event_source then act set_event_source_timeout delivered else delivered

unfoldable pub respond_non_processed : Env → Response → ContentInfo → Context → Context
unfolding on_request_hook_configure_response send_response_headers on_request_hook_responses
    deliver_non_processed
respond_non_processed env res info c =
    (send_response_headers res (on_request_hook_configure_response c)) ▷ (λ d.
      if info.is_not_modified
      then act end_response (on_request_hook_responses d.on_response_event_data d)
      else deliver_non_processed env d)

-- `respondOnWebSocket`: a response that was made here has no socket, so joining the sockets throws.
abbrev pub respond_on_web_socket : Response → Context → Context
respond_on_web_socket res c =
    if res.is_incoming_message_like
    then record (act throw_no_dest_socket (act (write_head res.status_code) c)) {
      has_thrown = true;
    }
    else act pipe_web_socket c

unfoldable pub decide_on_processing_strategy : Env → Context → Context
unfolding send_response_headers respond_non_processed
decide_on_processing_strategy env = with_response (λ res info c.
    if c.is_web_socket
    then respond_on_web_socket res (record c { go_to_next_stage = false })
    else if info.require_processing
    then record c {
      go_to_next_stage = true;
      dest_res =
          some
            (record res { status_code = if res.status_code == 204 then 200 else res.status_code });
    }
    else if c.is_special_page
    then send_response_headers res (record c { go_to_next_stage = false }) ▷ act end_response
    else respond_non_processed env res info (record c { go_to_next_stage = false }))

unfoldable pub fetch_content : Env → Context → Context
fetch_content env c =
    let fetched = act fetch_dest_res_body (record c { dest_res_body = env.body }) in
    if c.temporary_cache_entry
    then act add_to_cache (record fetched { temporary_cache_entry = false })
    else fetched

unfoldable pub process_content : Env → Context → Context
unfolding report_error
process_content env c = elim (env.process_resource c) [
  | some body ↦ record c { dest_res_body = body }
  | none ↦ report_error env env.processing_error c
]

unfoldable pub send_proxy_response : Env → Context → Context
unfolding on_request_hook_configure_response send_response_headers on_request_hook_responses
send_proxy_response env = with_response (λ res info c.
    send_response_headers res (on_request_hook_configure_response c) ▷ (λ d.
      act end_response
        (act (write_body d.dest_res_body) (on_request_hook_responses d.on_response_event_data d))))

-- The loop over the stages.
unfoldable pub run_stages : List (Context → Context) → Context → Context
run_stages [] c = c
run_stages (stage ∷ stages) c =
    let after = stage c in
    let rest = run_stages stages after in
    if after.has_thrown || not after.go_to_next_stage then after else rest

unfoldable pub stages : Env → List (Context → Context)
unfolding handle_socket_error fetch_proxy_request_body send_destination_request
    check_same_origin_policy_compliance decide_on_processing_strategy fetch_content process_content
    send_proxy_response
stages env =
    handle_socket_error env
    ∷ fetch_proxy_request_body env
    ∷ send_destination_request env
    ∷ check_same_origin_policy_compliance env
    ∷ decide_on_processing_strategy env
    ∷ fetch_content env
    ∷ process_content env
    ∷ send_proxy_response env
    ∷ []

-- A context as its constructor and `dispatch` leave it.
unfoldable pub new_context : Request → DestInfo → Context
unfolding init_request_nature_info
new_context req dest = init_request_nature_info (record {
  req = req;
  dest = dest;
  dest_res = none;
  is_dest_res_readable_ended = false;
  dest_res_body = [];
  is_ajax = false;
  is_page = false;
  is_html_page = false;
  is_html_import = false;
  is_web_socket = false;
  is_iframe = false;
  is_special_page = false;
  is_file_protocol = false;
  is_web_socket_connection_reset = false;
  content_info = none;
  go_to_next_stage = true;
  is_same_origin_policy_failed = false;
  request_filter_rules = [];
  on_response_event_data = [];
  temporary_cache_entry = false;
  headers_sent = false;
  has_thrown = false;
  actions = [];
})

-- `run` for a request that `dispatch` accepts
unfoldable pub run : Env → Request → DestInfo → Context
unfolding run_stages stages new_context
run env req dest = run_stages (stages env) (new_context req dest)
