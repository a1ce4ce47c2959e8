-- ===== src/Pipeline/RequestContext.antt =====
-- request-pipeline/context/index.ts and base.ts: the state of one request, and what the proxy finds
-- out about the response.
--
-- What is done to the outside is a list of actions. A header that is absent is an empty text. Of
-- the response to the browser, the state that decides whether a call throws is kept: whether its
-- headers are sent. After a call that throws nothing more is done. A rule of the request hooks is
-- known by whether its options, as its handler leaves them, ask for the body.
use testcafe_hammerhead.Common.{
  ℕ, Bool, true, false, not, ◌&&◌, ◌||◌, ◌==◌, Option, some, List, [], ◌∷◌, ◌++◌, any_of,
  if◌then◌else◌,
}
use testcafe_hammerhead.Common.Chars.{
  Text, codes, to_lower, text_eq, includes, is_empty, starts_with,
}
use testcafe_hammerhead.Charset.{Charset, new_charset, from_content_type, from_url}
use testcafe_hammerhead.Charset.Labels.{trim_left}
use testcafe_hammerhead.ContentTypes
use testcafe_hammerhead.ContentTypes.{
  is_text_page, is_css_resource, is_script_resource, is_manifest, is_redirect_status_code,
}
use testcafe_hammerhead.ProxyUrl.{get_resource_type_string, Credentials}
use testcafe_hammerhead.SameOrigin.{HeaderValue, CorsRequest, check}

-- `DestInfo`
pub record DestInfo : Type 0 where
  pub url : Text
  pub protocol : Text
  pub is_iframe : Bool
  pub is_form : Bool
  pub is_script : Bool
  pub is_event_source : Bool
  pub is_html_import : Bool
  pub is_web_socket : Bool
  pub is_service_worker : Bool
  pub is_ajax : Bool
  pub is_object : Bool
  pub charset : Text
  pub domain : Text
  pub req_origin : Text
  pub credentials : Option Credentials

-- What is read of the browser's request. The flag is whether the URLs of the request and of its
-- referer are of different windows.
pub record Request : Type 0 where
  pub method : Text
  pub accept : Text
  pub if_modified_since : Text
  pub if_none_match : Text
  pub from_other_window : Bool
  pub socket_destroyed : Bool

-- What is read of a response of the destination; `is_incoming_message_like` is the class test.
pub record Response : Type 0 where
  pub status_code : ℕ
  pub content_type : Text
  pub content_encoding : Text
  pub content_disposition : Text
  pub location : Text
  pub allow_origin : HeaderValue
  pub allow_credentials : Text
  pub is_incoming_message_like : Bool

pub record ContentInfo : Type 0 where
  pub charset : Charset
  pub require_processing : Bool
  pub is_iframe_with_image_src : Bool
  pub is_css : Bool
  pub is_script : Bool
  pub is_manifest : Bool
  pub is_object : Bool
  pub encoding : Text
  pub content_type_url_token : Text
  pub is_file_download : Bool
  pub is_not_modified : Bool
  pub is_redirect : Bool
  pub is_attachment : Bool
  pub is_text_page : Bool

pub data Action : Type 0 where
  page_request fetch_req_body fetch_dest_res_body : Action
  request_hook configure_response_hook response_hook mock_error_hook : Action
  file_download : Action
  attachment : (is_opened_in_new_window : Bool) → Action
  add_to_cache : Action
  write_head : (status_code : ℕ) → Action
  write_body : Text → Action
  end_response pipe_response pipe_collected_response pipe_web_socket : Action
  destroy_dest_res destroy_request end_request_socket set_event_source_timeout : Action
  throw_headers_sent throw_on_web_socket throw_no_dest_socket throw_no_error_handler : Action

pub record Context : Type 0 where
  pub req : Request
  pub dest : DestInfo
  pub dest_res : Option Response
  pub is_dest_res_readable_ended : Bool
  pub dest_res_body : Text
  pub is_ajax : Bool
  pub is_page : Bool
  pub is_html_page : Bool
  pub is_html_import : Bool
  pub is_web_socket : Bool
  pub is_iframe : Bool
  pub is_special_page : Bool
  pub is_file_protocol : Bool
  pub is_web_socket_connection_reset : Bool
  pub content_info : Option ContentInfo
  pub go_to_next_stage : Bool
  pub is_same_origin_policy_failed : Bool
  pub request_filter_rules : List Bool
  pub on_response_event_data : List Bool
  pub temporary_cache_entry : Bool
  pub headers_sent : Bool
  pub has_thrown : Bool
  pub actions : List Action

abbrev pub act : Action → Context → Context
act a c = record c { actions = c.actions ++ a ∷ [] }

abbrev pub special_pages : List Text
special_pages = codes "about:blank" ∷ codes "about:error" ∷ []

unfoldable pub is_special_page_url : Text → Bool
is_special_page_url url = any_of (text_eq url) special_pages

-- `_initRequestNatureInfo`
unfoldable pub init_request_nature_info : Context → Context
unfolding ContentTypes.is_page is_special_page_url
init_request_nature_info c =
    let page =
      (not c.dest.is_ajax
        && not c.dest.is_web_socket
        && not (is_empty c.req.accept)
        && ContentTypes.is_page c.req.accept)
      || c.dest.is_html_import in
    record c {
      is_web_socket = c.dest.is_web_socket;
      is_html_import = c.dest.is_html_import;
      is_ajax = c.dest.is_ajax;
      is_page = page;
      is_iframe = c.dest.is_iframe;
      is_special_page = is_special_page_url c.dest.url;
      is_file_protocol = text_eq c.dest.protocol (codes "file:");
      is_html_page = page && not c.dest.is_iframe && not c.dest.is_html_import;
    }

-- `_isFileDownload`
unfoldable pub is_file_download : Response → Bool
is_file_download res =
    includes res.content_disposition (codes "attachment")
    && includes res.content_disposition (codes "filename")

-- The page flag after the content type is known.
unfoldable pub update_is_page : Context → Response → Bool
unfolding is_text_page ContentTypes.is_page
update_is_page c res =
    if c.is_page
      && not (is_empty res.content_type)
      && not (c.is_page && is_text_page res.content_type)
    then not c.is_ajax && ContentTypes.is_page res.content_type
    else c.is_page

abbrev pub is_not_modified_response : Context → Response → Bool
is_not_modified_response c res =
    text_eq c.req.method (codes "GET")
    && res.status_code == 304
    && not (is_empty c.req.if_modified_since && is_empty c.req.if_none_match)

-- The charset of a resource that is processed.
unfoldable pub response_charset : Bool → Text → Text → Charset
unfolding from_content_type from_url
response_charset require_processing content_type from_url_part =
    if require_processing
    then (if (from_content_type content_type new_charset).1
        then (from_content_type content_type new_charset).0
        else (from_url from_url_part (from_content_type content_type new_charset).0).0)
    else new_charset

-- The record that `buildContentInfo` makes; `page` is the page flag by then, `text_page` the flag of
-- a page that is plain text.
unfoldable pub content_info_of : Context → Response → Bool → Bool → ContentInfo
unfolding is_css_resource is_script_resource is_manifest is_redirect_status_code is_file_download
    get_resource_type_string response_charset trim_left
content_info_of c res page text_page =
    let css = is_css_resource res.content_type c.req.accept in
    let manifest = is_manifest res.content_type in
    let script = c.dest.is_script || is_script_resource res.content_type c.req.accept in
    let redirect = not (is_empty res.location) && is_redirect_status_code res.status_code in
    let assets = (css || script || manifest) && not (res.status_code == 204) in
    let not_modified = is_not_modified_response c res in
    let processing =
      not c.is_ajax
      && not (c.dest.is_form && res.status_code == 204)
      && not redirect
      && not not_modified
      && (page || c.is_iframe || assets) in
    record {
      charset = response_charset processing res.content_type c.dest.charset;
      require_processing = processing;
      is_iframe_with_image_src =
          c.is_iframe && not page && starts_with (trim_left res.content_type) (codes "image/");
      is_css = css;
      is_script = script;
      is_manifest = manifest;
      is_object = c.dest.is_object;
      encoding = to_lower res.content_encoding;
      content_type_url_token = get_resource_type_string (record {
        is_iframe = c.is_iframe;
        is_form = c.dest.is_form;
        is_script = script;
        is_event_source = false;
        is_html_import = false;
        is_web_socket = false;
        is_service_worker = false;
        is_ajax = c.is_ajax;
        is_object = false;
      });
      is_file_download = is_file_download res && not c.dest.is_script;
      is_not_modified = not_modified;
      is_redirect = redirect;
      is_attachment =
          not page
          && not c.is_ajax
          && not c.is_web_socket
          && not c.is_iframe
          && not text_page
          && not manifest
          && not script
          && not c.dest.is_form
          && not c.dest.is_object;
      is_text_page = text_page;
    }

abbrev pub act_if : Bool → Action → Context → Context
act_if b a c = if b then act a c else c

unfoldable pub build_content_info : Response → Context → Context
unfolding update_is_page content_info_of is_text_page
build_content_info res c =
    let info =
      content_info_of c res (update_is_page c res) (c.is_page && is_text_page res.content_type) in
    act_if info.is_attachment (attachment c.req.from_other_window) (
      act_if info.is_file_download file_download
        (record c { is_page = update_is_page c res; content_info = some info }))

abbrev pub cors_request : Context → Response → CorsRequest
cors_request c res = record {
  domain = c.dest.domain;
  req_origin = some c.dest.req_origin;
  credentials = c.dest.credentials;
  allow_origin = res.allow_origin;
  allow_credentials = res.allow_credentials;
}

unfoldable pub is_pass_same_origin_policy : Context → ContentInfo → Response → Bool
unfolding check
is_pass_same_origin_policy c info res =
    not (c.is_ajax && not info.is_not_modified) || check (cors_request c res)

-- `calculateIsDestResReadableEnded`; for another response the flag waits for its end.
unfoldable pub calculate_is_dest_res_readable_ended : ContentInfo → Response → Context → Context
calculate_is_dest_res_readable_ended info res c =
    if not info.is_not_modified && not info.is_redirect && not res.is_incoming_message_like
    then c
    else record c { is_dest_res_readable_ended = true }
