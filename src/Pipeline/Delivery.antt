-- ===== src/Pipeline/Delivery.antt =====
-- How a response that is not processed is delivered.
use testcafe_hammerhead.Common.{
  ◌≡◌, refl, ℕ, ◌+◌, Bool, true, false, not, ◌&&◌, ltb, length, List, [], ◌∷◌, arith, if◌then◌else◌,
  if-elim, clash,
}
use mathlib.Core.Path.{subst⁻¹}
use testcafe_hammerhead.Common.Chars.{Text}
use testcafe_hammerhead.Pipeline.RequestContext.{
  Response, ContentInfo, Context, Action, act, act_if, fetch_dest_res_body, configure_response_hook,
  response_hook, end_response, pipe_response, pipe_collected_response, add_to_cache,
  set_event_source_timeout, destroy_dest_res, write_head, write_body, throw_headers_sent,
  throw_on_web_socket,
}
use testcafe_hammerhead.Pipeline.Facts.{
  conclusion_weight, conclusions, Waiting, Open, act-conclusions, act-Waiting,
  with_response_of_Open,
}
use testcafe_hammerhead.Pipeline.Hooks.{
  Env, ◌▷◌, send_response_headers, repeat_act, on_request_hook_configure_response,
  on_request_hook_responses,
}
use testcafe_hammerhead.Pipeline.Sending.{with_response}
use testcafe_hammerhead.Pipeline.{
  pipe_non_processed_response, filter_event_data, deliver_non_processed, respond_non_processed,
}

-- Nothing has thrown, whether a further stage is due, and how many actions have ended the exchange.
abbrev pub At : Bool → ℕ → Context → Type 0
At g n c = (c.has_thrown ≡ false) × (c.go_to_next_stage ≡ g) × (conclusions c ≡ n)

pub act-At :
    {g : Bool} {n : ℕ} (a : Action) (c : Context)
    → At g n c
    → At g (n + conclusion_weight a) (act a c)
act-At a c (t, g, n) = (t, g, omega (arith, act-conclusions a c, n))

repeat_act-At :
    {g : Bool} {n : ℕ} (a : Action) (rules : List Bool) (c : Context)
    → conclusion_weight a ≡ 0
    → At g n c
    → At g n (repeat_act a rules c)
unfolding repeat_act
repeat_act-At a [] c e h = h
repeat_act-At a (r ∷ rules) c e h =
    let (t, g, n) = h in
    repeat_act-At a rules (act a c) e (t, g, omega (arith, act-conclusions a c, e, n))

pub send_response_headers-At :
    {g : Bool} (res : Response) (c : Context)
    → c.is_web_socket ≡ false
    → c.headers_sent ≡ false
    → At g 0 c
    → At g 0 (send_response_headers res c)
unfolding send_response_headers
send_response_headers-At {g} res c s u h =
    let head = act (write_head res.status_code) (record c { headers_sent = true }) in
    if-elim (At g 0) c.is_web_socket (record (act throw_on_web_socket c) { has_thrown = true })
      (if c.headers_sent then record (act throw_headers_sent c) { has_thrown = true } else head)
      (λ e. absurd (clash c.is_web_socket e s))
      (λ e.
        if-elim (At g 0) c.headers_sent (record (act throw_headers_sent c) { has_thrown = true })
          head (λ e. absurd (clash c.headers_sent e u))
          (λ e. act-At (write_head res.status_code) (record c { headers_sent = true }) h))

pub ▷-At :
    {g : Bool} {n : ℕ} (c : Context) (f : Context → Context)
    → c.has_thrown ≡ false
    → At g n (f c)
    → At g n (c ▷ f)
▷-At {g} {n} c f t h =
    if-elim (At g n) c.has_thrown c (f c) (λ e. absurd (clash c.has_thrown e t)) (λ e. h)

-- What a response may be sent of.
abbrev pub Sendable : Bool → Context → Type 0
Sendable g c = Waiting c × (c.is_web_socket ≡ false) × (c.go_to_next_stage ≡ g)

configure_response-Sendable :
    {g : Bool} (c : Context) → Sendable g c → Sendable g (on_request_hook_configure_response c)
unfolding on_request_hook_configure_response repeat_act
configure_response-Sendable {g} c h = after c.request_filter_rules c h
  where
    after :
        (rules : List Bool) (d : Context)
        → Sendable g d
        → Sendable g (repeat_act configure_response_hook rules d)
    after [] d h = h
    after (r ∷ rules) d (w, s, g) =
        after rules (act configure_response_hook d)
          (act-Waiting configure_response_hook d refl w, s, g)

-- The hooks, the headers, then the rest.
pub configured_then-At :
    {g : Bool} (res : Response) (c : Context) (f : Context → Context)
    → Sendable g c
    → ((d : Context) → At g 0 d → At g 1 (f d))
    → At g 1 (send_response_headers res (on_request_hook_configure_response c) ▷ f)
configured_then-At res c f h k =
    let d = on_request_hook_configure_response c in
    let (w, s, g) = configure_response-Sendable c h in
    let sent = send_response_headers-At res d s w.unsent (w.not_thrown, g, w.not_concluded) in
    ▷-At (send_response_headers res d) f sent.0 (k (send_response_headers res d) sent)

pub on_request_hook_responses-At :
    {g : Bool} {n : ℕ} (event_data : List Bool) (c : Context)
    → At g n c
    → At g n (on_request_hook_responses event_data c)
unfolding on_request_hook_responses
on_request_hook_responses-At event_data c h = repeat_act-At response_hook event_data c refl h

pub body_sent-At :
    {g : Bool} (body : Text) (c : Context)
    → At g 0 c
    → At g 1 (act end_response (act (write_body body) c))
body_sent-At body c h =
    act-At {n = 0} end_response (act (write_body body) c) (act-At {n = 0} (write_body body) c h)

act_if-At :
    {g : Bool} {n : ℕ} (b : Bool) (a : Action) (c : Context)
    → conclusion_weight a ≡ 0
    → At g n c
    → At g n (act_if b a c)
act_if-At true a c e (t, g, n) = (t, g, omega (arith, act-conclusions a c, e, n))
act_if-At false a c e h = h

cached-At :
    {g : Bool} (b : Bool) (c : Context)
    → At g 0 c
    → At g 0 (if b then act add_to_cache (record c { temporary_cache_entry = false }) else c)
cached-At true c h = act-At {n = 0} add_to_cache (record c { temporary_cache_entry = false }) h
cached-At false c h = h

pipe_non_processed_response-At :
    {g : Bool} (env : Env) (c : Context) → At g 0 c → At g 1 (pipe_non_processed_response env c)
unfolding pipe_non_processed_response
pipe_non_processed_response-At {g} env c h =
    let fetched = act fetch_dest_res_body (record c { dest_res_body = env.body }) in
    let fetched-At = act-At {n = 0} fetch_dest_res_body (record c { dest_res_body = env.body }) h in
    let keeps = c.temporary_cache_entry && ltb (length env.body) 5242880 in
    if-elim (At g 1) (not env.cache_requests) (act pipe_response c) _
      (λ e. act-At {n = 0} pipe_response c h)
      (λ e.
        body_sent-At env.body
          (if keeps
            then act add_to_cache (record fetched { temporary_cache_entry = false })
            else fetched)
          (cached-At keeps fetched fetched-At))

deliver_non_processed-At :
    {g : Bool} (env : Env) (c : Context) → At g 0 c → At g 1 (deliver_non_processed env c)
unfolding deliver_non_processed
deliver_non_processed-At {g} env c h =
    let with_body = filter_event_data true c.on_response_event_data in
    let without_body = filter_event_data false c.on_response_event_data in
    let piped_body = on_request_hook_responses with_body c in
    let piped = on_request_hook_responses without_body c in
    let ended = c.req.socket_destroyed && not c.is_dest_res_readable_ended in
    act_if-At c.dest.is_event_source set_event_source_timeout
      (if ltb 0 (length with_body)
        then act pipe_collected_response piped_body
        else if ltb 0 (length without_body)
        then act pipe_response piped
        else if ended
        then act destroy_dest_res c
        else pipe_non_processed_response env c)
      refl
      (if-elim (At g 1) (ltb 0 (length with_body)) (act pipe_collected_response piped_body) _
        (λ e.
          act-At {n = 0} pipe_collected_response piped_body
            (on_request_hook_responses-At with_body c h))
        (λ e.
          if-elim (At g 1) (ltb 0 (length without_body)) (act pipe_response piped) _
            (λ e.
              act-At {n = 0} pipe_response piped (on_request_hook_responses-At without_body c h))
            (λ e.
              if-elim (At g 1) ended (act destroy_dest_res c) (pipe_non_processed_response env c)
                (λ e. act-At {n = 0} destroy_dest_res c h)
                (λ e. pipe_non_processed_response-At env c h))))

-- Work on the response of an open context.
pub with_response-P :
    (P : Context → Type 0) (f : Response → ContentInfo → Context → Context) (c : Context)
    (o : Open c)
    → P (f o.res o.info c)
    → P (with_response f c)
with_response-P P f c o p = subst⁻¹ P (with_response_of_Open f c o) p

pub respond_non_processed-At :
    {g : Bool} (env : Env) (res : Response) (info : ContentInfo) (c : Context)
    → Sendable g c
    → At g 1 (respond_non_processed env res info c)
unfolding respond_non_processed
respond_non_processed-At {g} env res info c h =
    configured_then-At res c
      (λ d.
        if info.is_not_modified
        then act end_response (on_request_hook_responses d.on_response_event_data d)
        else deliver_non_processed env d)
      h
      (λ d x.
        if-elim (At g 1) info.is_not_modified
          (act end_response (on_request_hook_responses d.on_response_event_data d))
          (deliver_non_processed env d)
          (λ e.
            act-At {n = 0} end_response (on_request_hook_responses d.on_response_event_data d)
              (on_request_hook_responses-At d.on_response_event_data d x))
          (λ e. deliver_non_processed-At env d x))
