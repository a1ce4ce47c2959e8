-- ===== src/DestinationRequest/Auth.antt =====
-- request-pipeline/destination-request/auth-credentials.ts: which way of authorization a response
-- asks for. Parsing an NTLM message is the `httpntlm` package's; a response carries its answer.
use testcafe_hammerhead.Common.{ℕ, Bool, true, false, not, ◌&&◌, any_of, if◌then◌else◌}
use testcafe_hammerhead.Common.Chars.{Text, codes, to_lower, includes, split_on}

-- `has_type2_message` is whether `ntlm.parseType2Message` reads a challenge from the header.
pub record Response : Type 0 where
  pub status_code : ℕ
  pub www_authenticate : Text
  pub has_type2_message : Bool

pub data AuthMethod : Type 0 where
  no_method ntlm basic : AuthMethod

pub record AuthInfo : Type 0 where
  pub method : AuthMethod
  pub is_challenge_message : Bool
  pub can_authorize : Bool

abbrev pub proposes : Text → Text → Bool
proposes header method = any_of (λ p. includes p method) (split_on b',' (to_lower header))

-- `getAuthMethName`, over the methods in their order
unfoldable pub get_auth_meth_name : Response → AuthMethod
get_auth_meth_name res =
    if proposes res.www_authenticate (codes "ntlm")
    then ntlm
    else if proposes res.www_authenticate (codes "basic")
    then basic
    else no_method

abbrev pub is_ntlm : AuthMethod → Bool
is_ntlm ntlm = true
is_ntlm _ = false

abbrev pub is_method : AuthMethod → Bool
is_method no_method = false
is_method _ = true

unfoldable pub get_auth_info : Response → AuthInfo
unfolding get_auth_meth_name
get_auth_info res =
    let method = get_auth_meth_name res in
    record {
      method = method;
      is_challenge_message = is_ntlm method && res.has_type2_message;
      can_authorize = is_method method;
    }

unfoldable pub requires_res_body : Response → Bool
unfolding get_auth_info
requires_res_body res =
    not (get_auth_info res).is_challenge_message && is_ntlm (get_auth_info res).method
