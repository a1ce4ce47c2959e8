-- ===== src/Pipeline/Facts.antt =====
-- What holds of a context between the stages: whether the exchange has been ended.
use testcafe_hammerhead.Common.{
  ◌≡◌, refl, ap, ◌∙◌, ℕ, ◌+◌, Bool, true, false, not, ◌&&◌, ◌||◌, Option, some, List, [], ◌∷◌,
  arith, if-elim, total, total-append, clash,
}
use testcafe_hammerhead.Pipeline.RequestContext.{
  Response, ContentInfo, Context, Action, act, act_if, end_response, pipe_response,
  pipe_collected_response, pipe_web_socket, destroy_dest_res, destroy_request, end_request_socket,
  build_content_info, content_info_of, attachment, file_download, update_is_page,
}
use testcafe_hammerhead.Pipeline.Content.{content_info_of-kinds}
use testcafe_hammerhead.Pipeline.Hooks.{repeat_act}
use testcafe_hammerhead.Pipeline.Sending.{with_both, with_info, with_response, with_content_info}
use testcafe_hammerhead.Pipeline.{run_stages}
use testcafe_hammerhead.ContentTypes.{is_text_page}

-- The actions that end the exchange: the response is ended or piped, the sockets of a WebSocket are
-- joined, or the connection is torn down on one of its sides without a response.
abbrev pub conclusion_weight : Action → ℕ
conclusion_weight end_response = 1
conclusion_weight pipe_response = 1
conclusion_weight pipe_collected_response = 1
conclusion_weight pipe_web_socket = 1
conclusion_weight destroy_dest_res = 1
conclusion_weight destroy_request = 1
conclusion_weight end_request_socket = 1
conclusion_weight _ = 0

abbrev pub conclusions : Context → ℕ
conclusions c = total conclusion_weight c.actions

-- The facts are about the fields that they read, so that a change of another field keeps them.
pub record IsWaiting (thrown sent web_socket : Bool) (n : ℕ) : Type 0 where
  pub not_thrown : thrown ≡ false
  pub unsent : sent ≡ false
  pub no_web_socket : web_socket ≡ false
  pub not_concluded : n ≡ 0

abbrev pub Waiting : Context → Type 0
Waiting c = IsWaiting c.has_thrown c.headers_sent c.is_web_socket (conclusions c)

pub record IsConcluded (thrown : Bool) (n : ℕ) : Type 0 where
  pub not_thrown : thrown ≡ false
  pub concluded : n ≡ 1

abbrev pub Concluded : Context → Type 0
Concluded c = IsConcluded c.has_thrown (conclusions c)

-- A response is there, and the next stage is due.
pub record IsOpen (thrown sent web_socket goes ajax : Bool) (n : ℕ) (dest_res : Option Response)
    (content_info : Option ContentInfo) : Type 0 where
  pub res : Response
  pub info : ContentInfo
  pub waiting : IsWaiting thrown sent web_socket n
  pub goes_on : goes ≡ true
  pub res_eq : dest_res ≡ some res
  pub info_eq : content_info ≡ some info
  pub processed : info.require_processing ≡ true → ajax ≡ false

abbrev pub Open : Context → Type 0
Open c =
    IsOpen c.has_thrown c.headers_sent c.is_web_socket c.go_to_next_stage c.is_ajax (conclusions c)
      c.dest_res c.content_info

pub act-conclusions :
    (a : Action) (c : Context) → conclusions (act a c) ≡ conclusions c + conclusion_weight a
act-conclusions a c = omega (arith, total-append conclusion_weight c.actions (a ∷ []))

pub act-Waiting :
    (a : Action) (c : Context) → conclusion_weight a ≡ 0 → Waiting c → Waiting (act a c)
act-Waiting a c e h = record {
  not_thrown = h.not_thrown;
  unsent = h.unsent;
  no_web_socket = h.no_web_socket;
  not_concluded = omega (arith, act-conclusions a c, e, h.not_concluded);
}

pub act-Open : (a : Action) (c : Context) → conclusion_weight a ≡ 0 → Open c → Open (act a c)
act-Open a c e h = record {
  res = h.res;
  info = h.info;
  waiting = act-Waiting a c e h.waiting;
  goes_on = h.goes_on;
  res_eq = h.res_eq;
  info_eq = h.info_eq;
  processed = h.processed;
}

act_if-Open :
    (b : Bool) (a : Action) (c : Context) → conclusion_weight a ≡ 0 → Open c → Open (act_if b a c)
act_if-Open true a c e h = act-Open a c e h
act_if-Open false a c e h = h

pub build_content_info-Open :
    (res : Response) (c : Context)
    → Waiting c
    → c.go_to_next_stage ≡ true
    → c.dest_res ≡ some res
    → Open (build_content_info res c)
unfolding build_content_info
build_content_info-Open res c h g e =
    let info =
      content_info_of c res (update_is_page c res) (c.is_page && is_text_page res.content_type) in
    act_if-Open info.is_attachment (attachment c.req.from_other_window) _ refl (
      act_if-Open info.is_file_download file_download
        (record c { is_page = update_is_page c res; content_info = some info }) refl
        (record {
          res = res;
          info = info;
          waiting = record {
            not_thrown = h.not_thrown;
            unsent = h.unsent;
            no_web_socket = h.no_web_socket;
            not_concluded = h.not_concluded;
          };
          goes_on = g;
          res_eq = e;
          info_eq = refl;
          processed = λ p.
              ((content_info_of-kinds c res (update_is_page c res)
                  (c.is_page && is_text_page res.content_type)).0
                p).0;
        }))

pub repeat_act-Waiting :
    (a : Action) (rules : List Bool) (c : Context)
    → conclusion_weight a ≡ 0
    → Waiting c
    → Waiting (repeat_act a rules c)
unfolding repeat_act
repeat_act-Waiting a [] c e h = h
repeat_act-Waiting a (r ∷ rules) c e h =
    repeat_act-Waiting a rules (act a c) e (act-Waiting a c e h)

pub repeat_act-Open :
    (a : Action) (rules : List Bool) (c : Context)
    → conclusion_weight a ≡ 0
    → Open c
    → Open (repeat_act a rules c)
unfolding repeat_act
repeat_act-Open a [] c e h = h
repeat_act-Open a (r ∷ rules) c e h = repeat_act-Open a rules (act a c) e (act-Open a c e h)

pub with_response_of_Open :
    (f : Response → ContentInfo → Context → Context) (c : Context) (o : Open c)
    → with_response f c ≡ f o.res o.info c
with_response_of_Open f c o =
    ap (λ r. with_both f r c.content_info c) o.res_eq
    ∙ ap (λ i. with_both f (some o.res) i c) o.info_eq

pub with_content_info_of_Open :
    (f : ContentInfo → Context → Context) (c : Context) (o : Open c)
    → with_content_info f c ≡ f o.info c
with_content_info_of_Open f c o = ap (λ i. with_info f i c) o.info_eq

-- What a stage leaves: the exchange has ended and so does the loop, or the next stage finds `P`.
pub data Next (P : Context → Type 0) (c : Context) : Type 0 where
  stopped : c.go_to_next_stage ≡ false → Concluded c → Next P c
  passed : c.go_to_next_stage ≡ true → c.has_thrown ≡ false → P c → Next P c

loop_ends : (thrown goes : Bool) → (thrown || not goes) ≡ false → goes ≡ true
loop_ends thrown goes e = ground (arith, e)

loop_goes : (thrown goes : Bool) → thrown ≡ false → goes ≡ true → (thrown || not goes) ≡ false
loop_goes thrown goes t g = ground (arith, t, g)

pub run_stages-Next :
    (P : Context → Type 0) (stage : Context → Context) (stages : List (Context → Context))
    (c : Context)
    → Next P (stage c)
    → ((d : Context) → P d → Concluded (run_stages stages d))
    → Concluded (run_stages (stage ∷ stages) c)
unfolding run_stages
run_stages-Next P stage stages c (stopped g a) k =
    if-elim Concluded ((stage c).has_thrown || not (stage c).go_to_next_stage) _ _ (λ e. a)
      (λ e. absurd (
        clash (stage c).go_to_next_stage
          (loop_ends (stage c).has_thrown (stage c).go_to_next_stage e) g))
run_stages-Next P stage stages c (passed g t p) k =
    if-elim Concluded ((stage c).has_thrown || not (stage c).go_to_next_stage) _ _
      (λ e. absurd (
        clash ((stage c).has_thrown || not (stage c).go_to_next_stage) e
          (loop_goes (stage c).has_thrown (stage c).go_to_next_stage t g)))
      (λ e. k (stage c) p)

-- An action that ends an exchange that is open.
pub act-Concluded :
    (a : Action) (c : Context)
    → conclusion_weight a ≡ 1
    → c.has_thrown ≡ false
    → conclusions c ≡ 0
    → Concluded (act a c)
act-Concluded a c e t n = record {
  not_thrown = t;
  concluded = omega (arith, act-conclusions a c, e, n);
}
