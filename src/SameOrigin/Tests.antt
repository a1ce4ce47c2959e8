-- ===== src/SameOrigin/Tests.antt =====
-- Responses to requests of another origin.
use testcafe_hammerhead.Common.{◌≡◌, ◌↔◌, refl, true, false, some}
use testcafe_hammerhead.Common.Chars.{codes}
use testcafe_hammerhead.ProxyUrl.{include}
use testcafe_hammerhead.SameOrigin.{CorsRequest, one, check}
use testcafe_hammerhead.SameOrigin.Policy.{IsReadable, check_iff}

abbrev request : CorsRequest
request = record {
  domain = codes "https://api.example";
  req_origin = some (codes "https://shop.example");
  credentials = some include;
  allow_origin = one (codes "https://shop.example");
  allow_credentials = codes "True";
}

wildcard_with_credentials : check (record request { allow_origin = one (codes "*") }) ≡ false
unfolding check
wildcard_with_credentials = refl

check_iff_example : (check request ≡ true) ↔ IsReadable request
check_iff_example = check_iff request
