-- ===== src/Pipeline/Runs.antt =====
-- The stages from the decision on, and a whole run.
use testcafe_hammerhead.Common.{List, [], ◌∷◌}
use testcafe_hammerhead.Pipeline.RequestContext.{Context}
use testcafe_hammerhead.Pipeline.Hooks.{Env}
use testcafe_hammerhead.Pipeline.Sending.{send_destination_request}
use testcafe_hammerhead.Pipeline.{
  fetch_proxy_request_body, check_same_origin_policy_compliance, decide_on_processing_strategy,
  fetch_content, process_content, send_proxy_response,
}

-- The stages from `fetchContent`, from `sendDestinationRequest`, and from `fetchProxyRequestBody`.
abbrev content_stages : Env → List (Context → Context)
content_stages env = fetch_content env ∷ process_content env ∷ send_proxy_response env ∷ []

abbrev response_stages : Env → List (Context → Context)
response_stages env =
    send_destination_request env
    ∷ check_same_origin_policy_compliance env
    ∷ decide_on_processing_strategy env
    ∷ content_stages env

abbrev request_stages : Env → List (Context → Context)
request_stages env = fetch_proxy_request_body env ∷ response_stages env
