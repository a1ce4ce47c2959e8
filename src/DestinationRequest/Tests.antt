-- ===== src/DestinationRequest/Tests.antt =====
-- Runs of a destination request.
use testcafe_hammerhead.Common.{◌≡◌, refl, true, false, none, List, [], ◌∷◌}
use testcafe_hammerhead.Common.Chars.{codes}
use testcafe_hammerhead.DestinationRequest.{
  RequestOptions, get_agent, tls, unset, send_http1, emit_response, resend_with_credentials,
  emit_fatal_error, destroy_request, cant_resolve_url, World, construct, Event, response, timeout,
  error, Failure, run, should_regress_https, get_timeout, is_socket_hang_up_err, is_dns_err,
}
use testcafe_hammerhead.DestinationRequest.Auth.{Response, get_auth_info, requires_res_body}
use testcafe_hammerhead.DestinationRequest.Runs.{
  tally, fatal_weight, regress_weight, flag, run-fatal, run-regress,
}

abbrev opts : RequestOptions
opts = record {
  url = codes "https://example.com/";
  host = codes "example.com";
  protocol = codes "https:";
  is_https = true;
  is_ajax = false;
  is_web_socket = false;
  disable_http2 = false;
  proxy = none;
  credentials = true;
  request_timeout = none;
  agent = get_agent tls;
  authorization = unset;
}

abbrev world : World
world = record { cached_response = none; http2_session = false }

abbrev unauthorized : Response
unauthorized = record {
  status_code = 401;
  www_authenticate = codes "Basic realm=x";
  has_type2_message = false;
}

abbrev not_found : Failure
not_found = record { message = codes "getaddrinfo ENOTFOUND"; code = []; stack = [] }

abbrev ssl_failure : Failure
ssl_failure = record { message = codes "SSL routines: unsupported"; code = []; stack = [] }

abbrev events : List Event
events =
    response unauthorized world ∷ response unauthorized world ∷ timeout ∷ error not_found world ∷ []

-- The second 401 goes to the browser; the timeout after it does nothing.
run-events :
    (run events (construct false world opts false)).actions
    ≡ send_http1 false
      ∷ resend_with_credentials
      ∷ send_http1 false
      ∷ emit_response unauthorized
      ∷ destroy_request
      ∷ emit_fatal_error cant_resolve_url opts.url
      ∷ []
unfolding run construct is_socket_hang_up_err should_regress_https get_auth_info is_dns_err
    requires_res_body
run-events = refl

page_timeout : get_timeout opts ≡ 25000
unfolding get_timeout
page_timeout = refl

run-fatal_example :
    tally fatal_weight (run events (construct false world opts false)).actions
    ≡ flag (run events (construct false world opts false)).aborted
run-fatal_example = run-fatal false world opts false events

run-regress_example :
    (should_regress_https ssl_failure (run events (construct false world opts false)).opts ≡ false)
    × (tally regress_weight (run events (construct false world opts false)).actions ≡ 0)
run-regress_example = run-regress false world opts false events ssl_failure
