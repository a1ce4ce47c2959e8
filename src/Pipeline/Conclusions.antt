-- ===== src/Pipeline/Conclusions.antt =====
-- Stages that end an exchange, and stages that leave it open.
use testcafe_hammerhead.Common.{
  ◌≡◌, refl, ap, ◌∙◌, ℕ, suc, Bool, true, false, not, ◌&&◌, Option, none, some, List, [], ◌∷◌,
  arith, if-elim, clash,
}
use testcafe_hammerhead.Common.Chars.{Text}
use testcafe_hammerhead.Pipeline.RequestContext.{
  Response, ContentInfo, Context, act, request_hook, configure_response_hook, response_hook,
  end_response, mock_error_hook, destroy_dest_res, destroy_request, end_request_socket,
  build_content_info, write_head, write_body, is_pass_same_origin_policy,
  calculate_is_dest_res_readable_ended,
}
use testcafe_hammerhead.Pipeline.Facts.{
  conclusions, Waiting, Concluded, Open, act-conclusions, act-Waiting, act-Open,
  build_content_info-Open, repeat_act-Open, with_response_of_Open, with_content_info_of_Open, Next,
  stopped, passed, act-Concluded,
}
use testcafe_hammerhead.Pipeline.Hooks.{
  Env, RequestEvent, response, error, fatal_error, socket_hang_up, Mock, close_with_error,
  report_error, repeat_act, on_request_hook_request, on_request_hook_configure_response,
  on_request_hook_responses,
}
use testcafe_hammerhead.Pipeline.Sending.{
  on_socket_reset, reset_with, is_mocked, create_cache_entry, on_response, on_request_event,
  send_request, handle_mock_error, mock_response_of, special_page_response,
  send_destination_request,
}
use testcafe_hammerhead.Pipeline.{check_same_origin_policy_compliance}

-- A handler of page errors that closes the connection as `closeWithError` does: it ends the exchange,
-- and no further stage runs.
pub record IsClosing (handler : Text → Context → Context) : Type 0 where
  pub same_thrown : (err : Text) (c : Context) → (handler err c).has_thrown ≡ c.has_thrown
  pub stops : (err : Text) (c : Context) → (handler err c).go_to_next_stage ≡ false
  pub concludes_once :
      (err : Text) (c : Context) → conclusions (handler err c) ≡ suc (conclusions c)

-- A mock whose error finds a function, or no listeners at all.
abbrev pub IsHandled : Option Bool → Type 0
IsHandled none = Unit
IsHandled (some true) = Unit
IsHandled (some false) = ⊥

abbrev pub AreMocksHandled : Option Mock → Type 0
AreMocksHandled none = Unit
AreMocksHandled (some m) = IsHandled m.error_handler

-- Concluded, with no further stage.
pub record Closed (c : Context) : Type 0 where
  pub closed : Concluded c
  pub ends : c.go_to_next_stage ≡ false

close_with_error-Closed :
    (status : ℕ) (body : Text) (c : Context)
    → c.has_thrown ≡ false
    → conclusions c ≡ 0
    → Closed (close_with_error status body c)
unfolding close_with_error
close_with_error-Closed status body c t n =
    let head = act (write_head status) (record c { headers_sent = true }) in
    if-elim (λ d. Closed (record (act end_response d) { go_to_next_stage = false }))
      (not c.is_web_socket && not c.headers_sent) (act (write_body body) head) c
      (λ e. record {
        closed = record {
          not_thrown = t;
          concluded = omega (
            arith,
            act-conclusions end_response (act (write_body body) head),
            act-conclusions (write_body body) head,
            act-conclusions (write_head status) c,
            n,
          );
        };
        ends = refl;
      })
      (λ e. record {
        closed = record {
          not_thrown = t;
          concluded = omega (arith, act-conclusions end_response c, n);
        };
        ends = refl;
      })

pub close_with_error-IsClosing : (status : ℕ) → IsClosing (close_with_error status)
unfolding close_with_error
close_with_error-IsClosing status = record {
  same_thrown = λ err c.
      if-elim (λ d. d.has_thrown ≡ c.has_thrown) (not c.is_web_socket && not c.headers_sent) _ c
        (λ e. refl) (λ e. refl);
  stops = λ err c. refl;
  concludes_once = λ err c.
      let head = act (write_head status) (record c { headers_sent = true }) in
      if-elim (λ d. conclusions (act end_response d) ≡ suc (conclusions c))
        (not c.is_web_socket && not c.headers_sent) (act (write_body err) head) c
        (λ e. omega (
          arith,
          act-conclusions end_response (act (write_body err) head),
          act-conclusions (write_body err) head,
          act-conclusions (write_head status) c,
        ))
        (λ e. omega (arith, act-conclusions end_response c));
}

module _ (env : Env) (h : IsClosing env.handle_page_error) where
  pub report_error-Closed :
      (err : Text) (c : Context)
      → c.has_thrown ≡ false
      → conclusions c ≡ 0
      → (c.is_ajax ≡ true → c.go_to_next_stage ≡ false)
      → Closed (report_error env err c)
  unfolding report_error
  report_error-Closed err c t n k =
      if-elim Closed (c.is_page && not c.is_iframe) _ _
        (λ e. record {
          closed = record {
            not_thrown = h.same_thrown err c ∙ t;
            concluded = h.concludes_once err c ∙ ap suc n;
          };
          ends = h.stops err c;
        })
        (λ e.
          if-elim Closed c.is_ajax (act destroy_request c) (close_with_error 500 err c)
            (λ a. record { closed = act-Concluded destroy_request c refl t n; ends = k a })
            (λ a. close_with_error-Closed 500 err c t n))

-- A context that waits for a response.
abbrev pub Ready : Context → Type 0
Ready c =
    Waiting c
    × (c.go_to_next_stage ≡ true)
    × (c.is_dest_res_readable_ended ≡ false)
    × (c.dest_res ≡ none)

-- A context whose response is processed.
abbrev pub Processing : Context → Type 0
Processing c = Open c × (c.is_ajax ≡ false) × (c.is_web_socket ≡ false)

pub Closed-Next : (P : Context → Type 0) (c : Context) → Closed c → Next P c
Closed-Next P c x = stopped x.ends x.closed

pub Open-Next : (c : Context) → Open c → Next Open c
Open-Next c o = passed o.goes_on o.waiting.not_thrown o

pub on_request_hook_configure_response-Open :
    (c : Context) → Open c → Open (on_request_hook_configure_response c)
unfolding on_request_hook_configure_response
on_request_hook_configure_response-Open c o =
    repeat_act-Open configure_response_hook c.request_filter_rules c refl o

pub check_same_origin_policy_compliance-Open :
    (env : Env) (c : Context) → Open c → Open (check_same_origin_policy_compliance env c)
unfolding check_same_origin_policy_compliance on_request_hook_responses
check_same_origin_policy_compliance-Open env c o = rw (with_response_of_Open _ c o) (
    if-elim Open (is_pass_same_origin_policy c o.info o.res) c _ (λ e. o)
      (λ e.
        let failed = record c { is_same_origin_policy_failed = true } in
        repeat_act-Open response_hook
          (on_request_hook_configure_response failed).on_response_event_data
          (on_request_hook_configure_response failed) refl
          (on_request_hook_configure_response-Open failed o)))

create_cache_entry-Open :
    (env : Env) (res : Response) (info : ContentInfo) (c : Context)
    → Open c
    → Open (create_cache_entry env res info c)
unfolding create_cache_entry
create_cache_entry-Open env res info c o = if-elim Open _ _ _ (λ e. o) (λ e. o)

calculate_is_dest_res_readable_ended-Open :
    (info : ContentInfo) (res : Response) (c : Context)
    → Open c
    → Open (calculate_is_dest_res_readable_ended info res c)
unfolding calculate_is_dest_res_readable_ended
calculate_is_dest_res_readable_ended-Open info res c o = if-elim Open _ _ _ (λ e. o) (λ e. o)

on_response-Next :
    (env : Env) (res : Response) (c : Context)
    → Waiting c
    → c.go_to_next_stage ≡ false
    → Next Open (on_response env res c)
unfolding on_response
on_response-Next env res c w g =
    if-elim (Next Open) c.is_web_socket_connection_reset (act destroy_dest_res c) _
      (λ e. stopped g (act-Concluded destroy_dest_res c refl w.not_thrown w.not_concluded))
      (λ e.
        let c' = record c { dest_res = some res; go_to_next_stage = true } in
        let o = build_content_info-Open res c' w refl refl in
        let built = build_content_info res c' in
        let d = calculate_is_dest_res_readable_ended o.info res built in
        rw
          (with_content_info_of_Open
            (λ info d.
              create_cache_entry env res info (calculate_is_dest_res_readable_ended info res d))
            built o)
          (Open-Next (create_cache_entry env res o.info d) (
            create_cache_entry-Open env res o.info d
              (calculate_is_dest_res_readable_ended-Open o.info res built o))))

module _ (env : Env) (h : IsClosing env.handle_page_error) (k : AreMocksHandled env.mock) where
  on_request_event-Next :
      (event : RequestEvent) (c : Context)
      → Waiting c
      → c.go_to_next_stage ≡ false
      → c.is_dest_res_readable_ended ≡ false
      → Next Open (on_request_event env event c)
  unfolding on_request_event
  on_request_event-Next (response res) c w g n = on_response-Next env res c w g
  on_request_event-Next (error err) c w g n =
      if-elim (Next Open) c.is_dest_res_readable_ended c (report_error env err c)
        (λ e. absurd (clash c.is_dest_res_readable_ended e n))
        (λ e.
          Closed-Next Open _
            (report_error-Closed env h err c w.not_thrown w.not_concluded (λ a. g)))
  on_request_event-Next (fatal_error err) c w g n =
      Closed-Next Open _ (report_error-Closed env h err c w.not_thrown w.not_concluded (λ a. g))
  on_request_event-Next socket_hang_up c w g n =
      stopped g (act-Concluded end_request_socket c refl w.not_thrown w.not_concluded)

  send_request-Next :
      (c : Context)
      → Waiting c
      → c.is_dest_res_readable_ended ≡ false
      → c.dest_res ≡ none
      → Next Open (send_request env c)
  unfolding send_request on_socket_reset
  send_request-Next c w n r =
      let sent = record c { go_to_next_stage = false } in
      if-elim (λ d. Next Open (on_request_event env env.event d)) env.socket_reset
        (on_socket_reset env sent) sent
        (λ e.
          if-elim (λ d. Next Open (on_request_event env env.event d))
            (c.is_web_socket && not (is_mocked env.mock)) (reset_with c.dest_res sent) sent
            (λ x. reset_with-Next c.dest_res sent w n r)
            (λ x. on_request_event-Next env.event sent w refl n))
        (λ e. on_request_event-Next env.event sent w refl n)
    where
      reset_with-Next :
          (o : Option Response) (d : Context)
          → Waiting d
          → d.is_dest_res_readable_ended ≡ false
          → o ≡ none
          → Next Open (
              on_request_event env env.event (reset_with o (record d { go_to_next_stage = false })))
      reset_with-Next none d w n e = on_request_event-Next env.event _ w refl n
      reset_with-Next (some res) d w n e = cc

  handle_mock_error-Next :
      (o : Option Bool) → IsHandled o → (c : Context) → Open c → Next Open (handle_mock_error o c)
  handle_mock_error-Next none k c o = Open-Next c o
  handle_mock_error-Next (some true) k c o =
      Open-Next (act mock_error_hook c) (act-Open mock_error_hook c refl o)
  handle_mock_error-Next (some false) k c o = absurd k

  mock_response_of-Next :
      (m : Mock) (c : Context)
      → IsHandled m.error_handler
      → Waiting c
      → c.go_to_next_stage ≡ true
      → Next Open (mock_response_of m c)
  unfolding mock_response_of
  mock_response_of-Next m c k w g =
      let c' = record c { dest_res = some m.mock_response } in
      let o = build_content_info-Open m.mock_response c' w g refl in
      let built = build_content_info m.mock_response c' in
      if-elim (Next Open) m.has_error (handle_mock_error m.error_handler built) built
        (λ e. handle_mock_error-Next m.error_handler k built o) (λ e. Open-Next built o)

  repeat_act-Ready :
      (rules : List Bool) (c : Context) → Ready c → Ready (repeat_act request_hook rules c)
  unfolding repeat_act
  repeat_act-Ready [] c r = r
  repeat_act-Ready (b ∷ rules) c r =
      let (w, g, n, d) = r in
      repeat_act-Ready rules (act request_hook c) (act-Waiting request_hook c refl w, g, n, d)

  from_mock_or_destination :
      (m : Option Mock) (c : Context)
      → AreMocksHandled m
      → Ready c
      → Next Open (elim m [ some m ↦ mock_response_of m c | none ↦ send_request env c ])
  from_mock_or_destination none c k r = let (w, g, n, d) = r in send_request-Next c w n d
  from_mock_or_destination (some m) c k r = let (w, g, n, d) = r in mock_response_of-Next m c k w g

  pub send_destination_request-Next :
      (c : Context) → Ready c → Next Open (send_destination_request env c)
  unfolding send_destination_request on_request_hook_request
  send_destination_request-Next c r =
      let (w, g, n, d) = r in
      let c' = record c { dest_res = some special_page_response } in
      let hooked = on_request_hook_request env c in
      if-elim (Next Open) c.is_special_page (build_content_info special_page_response c') _
        (λ e.
          Open-Next (build_content_info special_page_response c')
            (build_content_info-Open special_page_response c' w g refl))
        (λ e.
          from_mock_or_destination env.mock hooked k (
            repeat_act-Ready env.rules (record c { request_filter_rules = env.rules })
              (w, g, n, d)))
