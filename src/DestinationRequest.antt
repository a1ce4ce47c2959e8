-- ===== src/DestinationRequest.antt =====
-- request-pipeline/destination-request/index.ts, with the parts of agent.ts and
-- auth-credentials.ts that it calls: the request that the proxy sends to the site under test.
--
-- The object is a record, its handlers are functions from record to record, and what it does to
-- the outside (requests that are sent, events that are emitted) is a list of actions. What the
-- outside answers (a cached response, an HTTP/2 session) comes with the event as a `World`.
pub mod Auth
pub mod Runs
pub mod Outcomes
mod Tests
use testcafe_hammerhead.Common.{
  ℕ, Bool, true, false, not, ◌&&◌, ◌||◌, Option, none, some, List, [], ◌∷◌, ◌++◌, ◌==◌, any_of,
  if◌then◌else◌,
}
use testcafe_hammerhead.Common.Chars.{Text, codes, to_lower, includes, text_eq}
use testcafe_hammerhead.DestinationRequest.Auth.{
  Response, AuthInfo, no_method, basic, ntlm, get_auth_info, requires_res_body,
}

pub data AgentType : Type 0 where
  ssl3 tls http : AgentType

-- The values that agent.ts compares: an entry of the table `agents`, the agent that `getAgent`
-- makes for an entry and keeps in it as `instance`, a tunnel for a proxy, and the agent that NTLM
-- authorization makes for a request. They are objects, and so equal only to themselves.
pub data Agent : Type 0 where
  entry instance_of : AgentType → Agent
  tunnel own : Agent

-- `getAgent`
abbrev pub get_agent : AgentType → Agent
get_agent type = instance_of type

pub data Authorization : Type 0 where
  unset basic_credentials ntlm_negotiate ntlm_authenticate : Authorization

pub record RequestTimeout : Type 0 where
  pub page : ℕ
  pub ajax : ℕ

pub record RequestOptions : Type 0 where
  pub url : Text
  pub host : Text
  pub protocol : Text
  pub is_https : Bool
  pub is_ajax : Bool
  pub is_web_socket : Bool
  pub disable_http2 : Bool
  pub proxy : Option Text
  pub credentials : Bool
  pub request_timeout : Option RequestTimeout
  pub agent : Agent
  pub authorization : Authorization

pub data Message : Type 0 where
  cant_authorize_to_proxy cant_establish_tunneling_connection : Message
  cant_establish_proxy_connection cant_resolve_url dest_request_timeout : Message

-- A Node error; a text that is absent is empty.
pub record Failure : Type 0 where
  pub message : Text
  pub code : Text
  pub stack : Text

pub data Action : Type 0 where
  send_http2 : Action
  send_http1 : (wait_for_data : Bool) → Action
  resend_with_credentials : Action
  remember_ssl3 : (host : Text) → Action
  destroy_session destroy_request : Action
  schedule_response emit_response : Response → Action
  emit_fatal_error : Message → (url : Text) → Action
  emit_socket_hang_up : Action
  emit_error : Failure → Action

pub record DestinationRequest : Type 0 where
  pub opts : RequestOptions
  pub cache : Bool
  pub has_response : Bool
  pub credentials_sent : Bool
  pub aborted : Bool
  pub actions : List Action

-- The answers that `_send` asks for: `requestCache.getResponse`, and whether `getHttp2Session`
-- gives a session that is not closed.
pub record World : Type 0 where
  pub cached_response : Option Response
  pub http2_session : Bool

abbrev pub act : Action → DestinationRequest → DestinationRequest
act a r = record r { actions = r.actions ++ a ∷ [] }

-- `||` on numbers
abbrev pub or_default : ℕ → ℕ → ℕ
or_default n default = if n == 0 then default else n

-- `_getTimeout`, with the numbers of default-request-timeout.ts
unfoldable pub get_timeout : RequestOptions → ℕ
get_timeout opts = elim opts.request_timeout [
  | none ↦ if opts.is_ajax then 120000 else 25000
  | some t ↦ if opts.is_ajax then or_default t.ajax 120000 else or_default t.page 25000
]

abbrev pub has_proxy : RequestOptions → Bool
has_proxy opts = elim opts.proxy [ none ↦ false | some host ↦ true ]

-- `requestAgent.assign`; the flag is what the cache of SSLv3 hosts says.
unfoldable pub assign_agent : Bool → RequestOptions → RequestOptions
assign_agent is_ssl3_host opts = record opts {
  agent =
      if has_proxy opts && text_eq opts.protocol (codes "https:")
      then tunnel
      else get_agent (
          if text_eq opts.protocol (codes "http:")
          then http
          else if is_ssl3_host
          then ssl3
          else tls);
}

abbrev pub can_use_http2 : RequestOptions → Bool
can_use_http2 opts =
    not opts.disable_http2 && opts.is_https && not opts.is_web_socket && not (has_proxy opts)

-- The request over the network: `_sendRealThroughHttp2` or `_sendReal`.
unfoldable pub real_action : Bool → World → RequestOptions → Action
real_action wait_for_data world opts =
    if can_use_http2 opts && world.http2_session then send_http2 else send_http1 wait_for_data

-- `_send`: whichever way it ends, it does one thing.
unfoldable pub send_action : Bool → World → DestinationRequest → Action
unfolding real_action
send_action wait_for_data world r =
    if r.cache
    then elim world.cached_response [
      | some res ↦ schedule_response res
      | none ↦ real_action wait_for_data world r.opts
    ]
    else real_action wait_for_data world r.opts

unfoldable pub send : Bool → World → DestinationRequest → DestinationRequest
unfolding send_action
send wait_for_data world r = act (send_action wait_for_data world r) r

-- The fields of a new object.
abbrev pub new_request : Bool → RequestOptions → Bool → DestinationRequest
new_request is_ssl3_host opts cache = record {
  opts = assign_agent is_ssl3_host opts;
  cache = cache;
  has_response = false;
  credentials_sent = false;
  aborted = false;
  actions = [];
}

-- The constructor.
unfoldable pub construct : Bool → World → RequestOptions → Bool → DestinationRequest
unfolding assign_agent send
construct is_ssl3_host world opts cache = send false world (new_request is_ssl3_host opts cache)

unfoldable pub emit_on_response : Response → DestinationRequest → DestinationRequest
emit_on_response res r = act (emit_response res) (record r { has_response = true })

unfoldable pub fatal_error : Message → Text → DestinationRequest → DestinationRequest
fatal_error msg url r =
    if r.aborted
    then r
    else act (emit_fatal_error msg url) (act destroy_request (record r { aborted = true }))

abbrev pub proxy_host : RequestOptions → Text
proxy_host opts = elim opts.proxy [ none ↦ opts.url | some host ↦ host ]

unfoldable pub should_resend_with_credentials : Response → DestinationRequest → Bool
should_resend_with_credentials res r =
    if res.status_code == 401 && r.opts.credentials
    then (if not (get_auth_info res).is_challenge_message && r.credentials_sent
        then false
        else (get_auth_info res).can_authorize)
    else false

-- `addCredentials`
unfoldable pub add_credentials : Response → RequestOptions → RequestOptions
add_credentials res opts = elim (get_auth_info res).method [
  | basic ↦ record opts { authorization = basic_credentials }
  | ntlm ↦
      if (get_auth_info res).is_challenge_message
      then record opts { authorization = ntlm_authenticate }
      else record opts { agent = own; authorization = ntlm_negotiate }
  | no_method ↦ opts
]

unfoldable pub resend : Response → World → DestinationRequest → DestinationRequest
unfolding add_credentials send
resend res world r = send (requires_res_body res) world (
    act resend_with_credentials
      (record r { opts = add_credentials res r.opts; credentials_sent = true }))

unfoldable pub on_response : Response → World → DestinationRequest → DestinationRequest
unfolding should_resend_with_credentials resend fatal_error emit_on_response
on_response res world r =
    if should_resend_with_credentials res r
    then resend res world r
    else if not r.opts.is_https && has_proxy r.opts && res.status_code == 407
    then fatal_error cant_authorize_to_proxy (proxy_host r.opts) r
    else emit_on_response res r

unfoldable pub is_dns_err : Failure → DestinationRequest → Bool
is_dns_err err r =
    includes err.message (codes "ECONNREFUSED")
    || includes err.message (codes "ENOTFOUND")
    || includes err.message (codes "EPROTO")
    || (not r.aborted && not r.has_response && includes err.code (codes "ECONNRESET"))

unfoldable pub is_tunneling_err : Failure → DestinationRequest → Bool
is_tunneling_err err r =
    r.opts.is_https
    && includes (to_lower err.message) (codes "tunneling socket could not be established")

unfoldable pub is_socket_hang_up_err : Failure → Bool
is_socket_hang_up_err err =
    includes (to_lower err.message) (codes "socket hang up")
    && any_of (λ s. includes err.stack (codes s))
        ("createHangUpError" ∷ "connResetException" ∷ "socketCloseListener" ∷ "socketOnEnd" ∷ [])

-- `agent === agents[TYPE.TLS]`
abbrev pub is_tls_entry : Agent → Bool
is_tls_entry (entry tls) = true
is_tls_entry _ = false

-- `requestAgent.shouldRegressHttps` and `regressHttps`
unfoldable pub should_regress_https : Failure → RequestOptions → Bool
should_regress_https err opts =
    is_tls_entry opts.agent && includes err.message (codes "SSL routines")

unfoldable pub regress_https : DestinationRequest → DestinationRequest
regress_https r =
    act (remember_ssl3 r.opts.host) (record r { opts = record r.opts { agent = get_agent ssl3 } })

unfoldable pub on_timeout : DestinationRequest → DestinationRequest
unfolding fatal_error
on_timeout r = if r.has_response then r else fatal_error dest_request_timeout r.opts.url r

-- The text of an authorization failure of a tunnel, /statusCode=407/i.
abbrev pub is_tunneling_authorize_err : Failure → Bool
is_tunneling_authorize_err err = includes (to_lower err.message) (codes "statuscode=407")

unfoldable pub on_error : Failure → World → DestinationRequest → DestinationRequest
unfolding regress_https send fatal_error
on_error err world r =
    if is_socket_hang_up_err err
    then act emit_socket_hang_up r
    else if should_regress_https err r.opts
    then send false world (regress_https r)
    else if has_proxy r.opts && is_tunneling_err err r
    then (if is_tunneling_authorize_err err
        then fatal_error cant_authorize_to_proxy (proxy_host r.opts) r
        else fatal_error cant_establish_tunneling_connection (proxy_host r.opts) r)
    else if is_dns_err err r
    then (if not r.opts.is_https && has_proxy r.opts
        then fatal_error cant_establish_proxy_connection (proxy_host r.opts) r
        else fatal_error cant_resolve_url r.opts.url r)
    else act (emit_error err) r

-- `_isHttp2ProtocolError`
unfoldable pub is_http2_protocol_error : Failure → Bool
is_http2_protocol_error err =
    text_eq err.code (codes "ERR_HTTP2_STREAM_ERROR")
    && (includes err.message (codes "NGHTTP2_PROTOCOL_ERROR")
        || includes err.message (codes "NGHTTP2_HTTP_1_1_REQUIRED"))

-- The error handler of an HTTP/2 stream.
unfoldable pub on_http2_error : Failure → World → DestinationRequest → DestinationRequest
unfolding on_error
on_http2_error err world r =
    if is_http2_protocol_error err
    then act (send_http1 false) (act destroy_session r)
    else on_error err world r

-- What can happen to a request that was sent. An upgrade is a response; a scheduled response is
-- the cached one that `setImmediate` brings.
pub data Event : Type 0 where
  response : Response → World → Event
  scheduled : Response → Event
  timeout : Event
  error http2_error : Failure → World → Event

unfoldable pub step : Event → DestinationRequest → DestinationRequest
unfolding on_response emit_on_response on_timeout on_error on_http2_error
step (response res world) r = on_response res world r
step (scheduled res) r = emit_on_response res r
step timeout r = on_timeout r
step (error err world) r = on_error err world r
step (http2_error err world) r = on_http2_error err world r

unfoldable pub run : List Event → DestinationRequest → DestinationRequest
unfolding step
run [] r = r
run (e ∷ es) r = run es (step e r)
