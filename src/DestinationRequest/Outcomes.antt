-- ===== src/DestinationRequest/Outcomes.antt =====
-- How often credentials are sent, and what a response settles.
use testcafe_hammerhead.Common.{◌≡◌, true, false}
use testcafe_hammerhead.DestinationRequest.{DestinationRequest, Event, response}
use testcafe_hammerhead.DestinationRequest.Auth.{get_auth_info}
use testcafe_hammerhead.DestinationRequest.Runs.{tally, resend_weight, flag}

-- Credentials were sent as often as the mark says: once or never.
record Sent (r : DestinationRequest) : Type 0 where
  count : tally resend_weight r.actions ≡ flag r.credentials_sent

-- The event is no NTLM challenge.
abbrev pub IsPlain : Event → Type 0
IsPlain (response res world) = (get_auth_info res).is_challenge_message ≡ false
IsPlain _ = Unit

-- A response was emitted.
abbrev HasResponse : DestinationRequest → Type 0
HasResponse r = r.has_response ≡ true
