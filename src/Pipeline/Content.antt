-- ===== src/Pipeline/Content.antt =====
-- What the content information says together.
use testcafe_hammerhead.Common.{◌≡◌, Bool, true, false, not, ◌&&◌, ◌||◌, ◌==◌, ◌⊎◌, arith}
use testcafe_hammerhead.Pipeline.RequestContext.{Response, Context, content_info_of}

processing_parts :
    (ajax form redirect not_modified page iframe assets empty : Bool)
    → (not ajax
        && not (form && empty)
        && not redirect
        && not not_modified
        && (page || iframe || (assets && not empty)))
      ≡ true
    → (ajax ≡ false)
      × (redirect ≡ false)
      × (not_modified ≡ false)
      × ((page ≡ true) ⊎ (iframe ≡ true) ⊎ ((assets ≡ true) × (empty ≡ false)))
processing_parts ajax form redirect not_modified page iframe assets empty h = ground arith

attachment_parts :
    (page ajax web_socket iframe text_page manifest script form object : Bool)
    → (not page
        && not ajax
        && not web_socket
        && not iframe
        && not text_page
        && not manifest
        && not script
        && not form
        && not object)
      ≡ true
    → (page ≡ false)
      × (iframe ≡ false)
      × (script ≡ false)
      × (manifest ≡ false)
      × (text_page ≡ false)
      × (form ≡ false)
      × (object ≡ false)
      × (ajax ≡ false)
      × (web_socket ≡ false)
attachment_parts page ajax web_socket iframe text_page manifest script form object h = ground arith

-- A resource is processed only if the request is no AJAX request, the response is no redirect and
-- not "not modified", and there is something to process: a page, a frame, or a style sheet, script
-- or manifest of a response that has content. An attachment is none of a page, a frame, a script, a
-- manifest or a text page, and its request is none of a form, an object, an AJAX request or a
-- WebSocket.
pub content_info_of-kinds :
    (c : Context) (res : Response) (page text_page : Bool)
    → let info = content_info_of c res page text_page in
      (info.require_processing ≡ true
        → (c.is_ajax ≡ false)
          × (info.is_redirect ≡ false)
          × (info.is_not_modified ≡ false)
          × ((page ≡ true)
              ⊎ (c.is_iframe ≡ true)
              ⊎ (((info.is_css || info.is_script || info.is_manifest) ≡ true)
                  × ((res.status_code == 204) ≡ false))))
      × (info.is_attachment ≡ true
          → (page ≡ false)
            × (c.is_iframe ≡ false)
            × (info.is_script ≡ false)
            × (info.is_manifest ≡ false)
            × (info.is_text_page ≡ false)
            × (c.dest.is_form ≡ false)
            × (c.dest.is_object ≡ false)
            × (c.is_ajax ≡ false)
            × (c.is_web_socket ≡ false))
unfolding content_info_of
content_info_of-kinds c res page text_page =
    let info = content_info_of c res page text_page in
    (
      processing_parts c.is_ajax c.dest.is_form info.is_redirect info.is_not_modified page
          c.is_iframe (info.is_css || info.is_script || info.is_manifest) (res.status_code == 204),
      attachment_parts page c.is_ajax c.is_web_socket c.is_iframe text_page info.is_manifest
          info.is_script c.dest.is_form c.dest.is_object,
    )
