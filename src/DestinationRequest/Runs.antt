-- ===== src/DestinationRequest/Runs.antt =====
-- What holds of a request after any sequence of events.
use testcafe_hammerhead.Common.{
  if-elim, ℕ, ◌+◌, ◌≡◌, ◌∙◌, refl, ap, Bool, true, false, List, [], ◌∷◌, ◌++◌, arith, if◌then◌else◌,
}
use testcafe_hammerhead.DestinationRequest.{
  destroy_session, new_request, emit_socket_hang_up, emit_error, DestinationRequest, RequestOptions,
  Action, send_http2, send_http1, schedule_response, emit_response, emit_fatal_error,
  destroy_request, resend_with_credentials, remember_ssl3, World, act, send, send_action, construct,
  emit_on_response, fatal_error, is_tls_entry, should_regress_https, Failure, Message, Event,
  response, scheduled, timeout, error, http2_error, step, run, on_response, on_timeout, on_error,
  on_http2_error, regress_https, resend, add_credentials, assign_agent,
}
use testcafe_hammerhead.DestinationRequest.Auth.{Response, requires_res_body}
use testcafe_hammerhead.Common.Chars.{Text}

-- How often the actions do what the weight counts.
unfoldable pub tally : (Action → ℕ) → List Action → ℕ
tally w [] = 0
tally w (a ∷ l) = w a + tally w l

pub tally-append :
    (w : Action → ℕ) (l : List Action) (a : Action) → tally w (l ++ a ∷ []) ≡ tally w l + w a
unfolding tally
tally-append w [] a = omega arith
tally-append w (x ∷ l) a = omega (arith, tally-append w l a)

-- An action of `_send`.
abbrev pub is_send : Action → Bool
is_send send_http2 = true
is_send (send_http1 b) = true
is_send (schedule_response res) = true
is_send _ = false

pub send_action-is_send :
    (b : Bool) (world : World) (r : DestinationRequest) → is_send (send_action b world r) ≡ true
unfolding send_action
send_action-is_send b world r = ground arith

-- A weight that counts no such action.
abbrev NoSends : (Action → ℕ) → Type 0
NoSends w = (a : Action) → is_send a ≡ true → w a ≡ 0

tally-send :
    (w : Action → ℕ)
    → NoSends w
    → (b : Bool) (world : World) (r : DestinationRequest)
    → tally w (send b world r).actions ≡ tally w r.actions
unfolding send
tally-send w quiet b world r =
    tally-append w r.actions (send_action b world r)
    ∙ rw (quiet (send_action b world r) (send_action-is_send b world r)) (omega arith)

abbrev pub fatal_weight : Action → ℕ
fatal_weight (emit_fatal_error msg url) = 1
fatal_weight _ = 0

abbrev pub response_weight : Action → ℕ
response_weight (emit_response res) = 1
response_weight _ = 0

abbrev pub regress_weight : Action → ℕ
regress_weight (remember_ssl3 host) = 1
regress_weight _ = 0

abbrev pub resend_weight : Action → ℕ
resend_weight resend_with_credentials = 1
resend_weight _ = 0

abbrev pub flag : Bool → ℕ
flag true = 1
flag false = 0

pub record Inv (r : DestinationRequest) : Type 0 where
  pub fatal : tally fatal_weight r.actions ≡ flag r.aborted
  pub silent : r.has_response ≡ false → tally response_weight r.actions ≡ 0
  pub agent : is_tls_entry r.opts.agent ≡ false
  pub regress : tally regress_weight r.actions ≡ 0

NoSends-fatal : NoSends fatal_weight
NoSends-fatal a h = ground arith

NoSends-response : NoSends response_weight
NoSends-response a h = ground arith

NoSends-regress : NoSends regress_weight
NoSends-regress a h = ground arith

-- A single action that no weight counts.
act-Inv :
    (a : Action) (r : DestinationRequest)
    → fatal_weight a ≡ 0
    → response_weight a ≡ 0
    → regress_weight a ≡ 0
    → Inv r
    → Inv (act a r)
act-Inv a r f s g h = record {
  fatal = omega (arith, tally-append fatal_weight r.actions a, h.fatal);
  silent = λ e. omega (arith, tally-append response_weight r.actions a, h.silent e);
  agent = h.agent;
  regress = omega (arith, tally-append regress_weight r.actions a, h.regress);
}

send-Inv : (b : Bool) (world : World) (r : DestinationRequest) → Inv r → Inv (send b world r)
unfolding send
send-Inv b world r h =
    let a = send_action b world r in
    let s = send_action-is_send b world r in
    act-Inv a r (NoSends-fatal a s) (NoSends-response a s) (NoSends-regress a s) h

Inv-if :
    (b : Bool) (x y : DestinationRequest)
    → (b ≡ true → Inv x)
    → (b ≡ false → Inv y)
    → Inv (if b then x else y)
Inv-if = if-elim Inv

fatal_error-Inv :
    (msg : Message) (url : Text) (r : DestinationRequest) → Inv r → Inv (fatal_error msg url r)
unfolding fatal_error
fatal_error-Inv msg url r h =
    if-elim Inv r.aborted r _ (λ e. h)
      λ e.
        let mid = r.actions ++ destroy_request ∷ [] in
        let last = emit_fatal_error msg url in
        record {
          fatal = omega (
            arith,
            tally-append fatal_weight mid last,
            tally-append fatal_weight r.actions destroy_request,
            h.fatal,
            ap flag e,
          );
          silent = λ n. omega (
            arith,
            tally-append response_weight mid last,
            tally-append response_weight r.actions destroy_request,
            h.silent n,
          );
          agent = h.agent;
          regress = omega (
            arith,
            tally-append regress_weight mid last,
            tally-append regress_weight r.actions destroy_request,
            h.regress,
          );
        }

emit_on_response-Inv :
    (res : Response) (r : DestinationRequest) → Inv r → Inv (emit_on_response res r)
unfolding emit_on_response
emit_on_response-Inv res r h = record {
  fatal = omega (arith, tally-append fatal_weight r.actions (emit_response res), h.fatal);
  silent = λ e. cc;
  agent = h.agent;
  regress = omega (arith, tally-append regress_weight r.actions (emit_response res), h.regress);
}

add_credentials-is_tls_entry :
    (res : Response) (opts : RequestOptions)
    → is_tls_entry opts.agent ≡ false
    → is_tls_entry (add_credentials res opts).agent ≡ false
unfolding add_credentials
add_credentials-is_tls_entry res opts h = ground arith

resend-Inv :
    (res : Response) (world : World) (r : DestinationRequest) → Inv r → Inv (resend res world r)
unfolding resend
resend-Inv res world r h = send-Inv (requires_res_body res) world _ (
    act-Inv resend_with_credentials _ refl refl refl (record {
      fatal = h.fatal;
      silent = h.silent;
      agent = add_credentials-is_tls_entry res r.opts h.agent;
      regress = h.regress;
    }))

on_response-Inv :
    (res : Response) (world : World) (r : DestinationRequest)
    → Inv r
    → Inv (on_response res world r)
unfolding on_response
on_response-Inv res world r h = search (Inv-if, resend-Inv, fatal_error-Inv, emit_on_response-Inv)

on_timeout-Inv : (r : DestinationRequest) → Inv r → Inv (on_timeout r)
unfolding on_timeout
on_timeout-Inv r h = search (Inv-if, fatal_error-Inv)

-- The test of `shouldRegressHttps` fails: what it compares is never the same object.
never_regress :
    (err : Failure) (opts : RequestOptions)
    → is_tls_entry opts.agent ≡ false
    → should_regress_https err opts ≡ false
unfolding should_regress_https
never_regress err opts h = ground arith

regress-Inv :
    (err : Failure) (world : World) (r : DestinationRequest)
    → Inv r
    → should_regress_https err r.opts ≡ true
    → Inv (send false world (regress_https r))
regress-Inv err world r h e = cc (never_regress err r.opts h.agent)

socket_hang_up-Inv : (r : DestinationRequest) → Inv r → Inv (act emit_socket_hang_up r)
socket_hang_up-Inv r h = act-Inv emit_socket_hang_up r refl refl refl h

emit_error-Inv : (err : Failure) (r : DestinationRequest) → Inv r → Inv (act (emit_error err) r)
emit_error-Inv err r h = act-Inv (emit_error err) r refl refl refl h

on_error-Inv :
    (err : Failure) (world : World) (r : DestinationRequest) → Inv r → Inv (on_error err world r)
unfolding on_error
on_error-Inv err world r h =
    search (Inv-if, regress-Inv, socket_hang_up-Inv, emit_error-Inv, fatal_error-Inv) depth 12

resend_http1-Inv :
    (r : DestinationRequest) → Inv r → Inv (act (send_http1 false) (act destroy_session r))
resend_http1-Inv r h =
    act-Inv (send_http1 false) _ refl refl refl (act-Inv destroy_session r refl refl refl h)

step-Inv : (e : Event) (r : DestinationRequest) → Inv r → Inv (step e r)
unfolding step on_http2_error
step-Inv (response res world) r h = on_response-Inv res world r h
step-Inv (scheduled res) r h = emit_on_response-Inv res r h
step-Inv timeout r h = on_timeout-Inv r h
step-Inv (error err world) r h = on_error-Inv err world r h
step-Inv (http2_error err world) r h = search (Inv-if, resend_http1-Inv, on_error-Inv)

run-Inv : (es : List Event) (r : DestinationRequest) → Inv r → Inv (run es r)
unfolding run
run-Inv [] r h = h
run-Inv (e ∷ es) r h = run-Inv es (step e r) (step-Inv e r h)

construct-Inv :
    (ssl : Bool) (world : World) (opts : RequestOptions) (cache : Bool)
    → Inv (construct ssl world opts cache)
unfolding construct tally assign_agent
construct-Inv ssl world opts cache =
    send-Inv false world (new_request ssl opts cache)
      (record { fatal = refl; silent = λ e. refl; agent = ground arith; regress = refl })

-- Whatever happens to a request: a fatal error is emitted at most once, and exactly if the
-- request is marked as aborted.
pub run-fatal :
    (ssl : Bool) (world : World) (opts : RequestOptions) (cache : Bool) (es : List Event)
    → tally fatal_weight (run es (construct ssl world opts cache)).actions
      ≡ flag (run es (construct ssl world opts cache)).aborted
run-fatal ssl world opts cache es =
    (run-Inv es (construct ssl world opts cache) (construct-Inv ssl world opts cache)).fatal

-- No error whatever makes a request go back to SSLv3, after any events: `shouldRegressHttps` is
-- false, and no host is remembered as one that needs SSLv3.
pub run-regress :
    (ssl : Bool) (world : World) (opts : RequestOptions) (cache : Bool) (es : List Event)
    (err : Failure)
    → (should_regress_https err (run es (construct ssl world opts cache)).opts ≡ false)
      × (tally regress_weight (run es (construct ssl world opts cache)).actions ≡ 0)
run-regress ssl world opts cache es err =
    let h = run-Inv es (construct ssl world opts cache) (construct-Inv ssl world opts cache) in
    (never_regress err _ h.agent, h.regress)
