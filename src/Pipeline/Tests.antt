-- ===== src/Pipeline/Tests.antt =====
-- Concrete requests, responses and environments.
use testcafe_hammerhead.Common.{◌≡◌, refl, true, false, none, some, [], ◌∷◌}
use testcafe_hammerhead.Common.Chars.{codes}
use testcafe_hammerhead.SameOrigin.{no_header}
use testcafe_hammerhead.Pipeline.RequestContext.{
  Request, Response, DestInfo, page_request, fetch_req_body, fetch_dest_res_body, request_hook,
  configure_response_hook, response_hook, write_head, write_body, pipe_collected_response,
  end_response,
}
use testcafe_hammerhead.Pipeline.Hooks.{Env, response, close_with_error}
use testcafe_hammerhead.Pipeline.{run}

abbrev request : Request
request = record {
  method = codes "GET";
  accept = codes "text/html";
  if_modified_since = [];
  if_none_match = [];
  from_other_window = false;
  socket_destroyed = false;
}

abbrev destination : DestInfo
destination = record {
  url = codes "http://example.com/";
  protocol = codes "http:";
  is_iframe = false;
  is_form = false;
  is_script = false;
  is_event_source = false;
  is_html_import = false;
  is_web_socket = false;
  is_service_worker = false;
  is_ajax = false;
  is_object = false;
  charset = [];
  domain = codes "http://example.com";
  req_origin = codes "http://example.com";
  credentials = none;
}

abbrev page : Response
page = record {
  status_code = 200;
  content_type = codes "text/html";
  content_encoding = [];
  content_disposition = [];
  location = [];
  allow_origin = no_header;
  allow_credentials = [];
  is_incoming_message_like = false;
}

abbrev environment : Env
environment = record {
  rules = true ∷ [];
  mock = none;
  socket_reset = false;
  event = response page;
  cache_requests = false;
  storable = false;
  body = codes "a";
  process_resource = λ c. some (codes "b");
  processing_error = codes "failed";
  handle_page_error = close_with_error 500;
}

-- The actions of a page request with one rule.
page_actions :
    (run environment request destination).actions
    ≡ page_request
      ∷ fetch_req_body
      ∷ request_hook
      ∷ fetch_dest_res_body
      ∷ configure_response_hook
      ∷ write_head 200
      ∷ response_hook
      ∷ write_body (codes "b")
      ∷ end_response
      ∷ []
unfolding run
page_actions = refl

-- A response that another origin may not read: its rule is configured twice and called three times.
refused_actions :
    (run environment request
      (record destination { is_ajax = true; req_origin = codes "http://other.com" })).actions
    ≡ fetch_req_body
      ∷ request_hook
      ∷ configure_response_hook
      ∷ response_hook
      ∷ configure_response_hook
      ∷ write_head 200
      ∷ response_hook
      ∷ response_hook
      ∷ pipe_collected_response
      ∷ []
unfolding run
refused_actions = refl
