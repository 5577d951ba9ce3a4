-- ===== src/Tests/ServiceCalls.antt =====
-- service_client on concrete inputs.
use dravr_tronc.Common.{
  ℕ, ◌≤◌, ◌≡◌, ◌⊎◌, refl, true, false, Option, none, some, String, [], ◌∷◌, ok, err, arith,
  string_eq, nat_eq, list_eq, option_eq,
}
use dravr_tronc.Common.Lists.{length, All}
use dravr_tronc.Common.Assoc.{lookup, without, insert as put}
use dravr_tronc.Common.Bytes.{Bytes}
use dravr_tronc.Guard.Text.{
  Text, split_once, trim_start, trim_end, to_ascii_lowercase, eq_ignore_ascii_case, strip_prefix,
  strip_suffix,
}
use dravr_tronc.Guard.Deny.{IpAddr}
use dravr_tronc.Auth.{trim, strip_circumfix, is_loopback_host}
use dravr_tronc.Json.{Value}
use dravr_tronc.Http.{visible}
use dravr_tronc.Requests.{Response, shed_response, enforce_deadline}
use dravr_tronc.Iam.TokenSource.{new as new_source}
use dravr_tronc.Service.{Exchange, shed, unfinished, service_deadline}
use dravr_tronc.Service.Transport.{TransportError, hyper_error, of, is_closed_before_response}
use dravr_tronc.Service.Response.{classify, named_wait, header_wait}
use dravr_tronc.Service.Response.Answers.{classify-shed_response, classify-enforce_deadline}
use dravr_tronc.Service.Client.{
  Url, ServiceClient, ServiceRequest, trim_end_matches, new, request, get,
}
use dravr_tronc.Service.Client.Attempts.{
  failed, answered, Surroundings, authorization, read_outcome, attempt, send,
}
use dravr_tronc.Service.Client.Resends.{Closed, send_bounded}
use dravr_tronc.Service.Client.Origins.{IsSafe, send-IsSafe}

abbrev slash : Text
slash = b'/' ∷ []

abbrev site : Url
site = record {
  scheme = "https";
  username = [];
  password = none;
  host = some (b'a' ∷ []);
  port = some 443;
  path = slash;
  query = none;
  fragment = none;
}

abbrev to_site : Text → Option Url
to_site t = some site

abbrev no_ip : Text → Option IpAddr
no_ip t = none

abbrev client : ServiceClient
client = record {
  service = "pricing";
  base_url = b'a' ∷ [];
  base = site;
  tokens = some (record { audience = b'x' ∷ []; cached = none });
}

service_ops : Unit {0}
unfolding split_once trim_start trim_end to_ascii_lowercase eq_ignore_ascii_case strip_prefix
    strip_suffix trim strip_circumfix is_loopback_host new_source trim_end_matches new request get
    lookup without put visible of is_closed_before_response named_wait header_wait classify
    authorization read_outcome attempt send
service_ops = tt

made : new no_ip to_site "pricing" (b'a' ∷ b'/' ∷ []) (some (b'x' ∷ [])) ≡ ok client
unfolding service_ops
made = refl

abbrev no_json : Bytes → Option Value
no_json b = none

abbrev no_u64 : String → Option ℕ
no_u64 s = none

abbrev reset : TransportError
reset = record { is_timeout = false; is_connect = false; sources = hyper_error true false ∷ [] }

abbrev closing : Surroundings
closing = record {
  mint = λ s. (s, ok (b't' ∷ []));
  request_id = b'1' ∷ [];
  network = λ q. failed reset;
  elapsed = 3;
}

abbrev answering : Surroundings
answering = record {
  mint = λ s. (s, ok (b't' ∷ []));
  request_id = b'2' ∷ [];
  network = λ q. answered 200 [] (some []);
  elapsed = 4;
}

abbrev reading : ServiceRequest
reading = get no_ip to_site "read" slash client

sends_twice : length (send no_json no_u64 closing answering reading).sent ≡ 2
unfolding service_ops
sends_twice = refl

send-IsSafe_example :
    All (IsSafe reading.client.base) (send no_json no_u64 closing answering reading).sent
unfolding service_ops
send-IsSafe_example =
    send-IsSafe no_json no_u64 no_ip to_site "pricing" (b'a' ∷ b'/' ∷ []) (some (b'x' ∷ [])) closing
      answering reading refl

send_bounded_example :
    let sent = (send no_json no_u64 closing answering reading).sent in
    (length sent ≤ 1)
    ⊎ ((length sent ≤ 2)
        × (reading.resend_after_close ≡ true)
        × Closed no_json no_u64 closing
            (attempt no_json no_u64 reading.operation reading.builder false closing
              reading.client).sent)
send_bounded_example = send_bounded no_json no_u64 closing answering reading

abbrev exchanged : Exchange
exchanged = record {
  service = "pricing";
  operation = "read";
  request_id = b'1' ∷ [];
  elapsed = 3;
  resent = false;
}

abbrev nine : ℕ → String
nine n = "9"

abbrev nine_back : String → Option ℕ
nine_back s = some 9

abbrev nine_text : ℕ → Text
nine_text n = b'9' ∷ []

abbrev busy : Response
busy = shed_response nine nine_text "busy" "queue full" 9

abbrev reads_busy : Bytes → Option Value
reads_busy b = some busy.body

classify-shed_response_example :
    classify reads_busy nine_back exchanged busy.status busy.headers []
    ≡ err (shed exchanged 503 9 (some "queue full"))
classify-shed_response_example =
    classify-shed_response reads_busy nine nine_back nine_text exchanged "busy" "queue full" 9 []
      refl refl

abbrev cut_off : Response
cut_off = enforce_deadline 5 6 "late" busy

abbrev reads_cut_off : Bytes → Option Value
reads_cut_off b = some cut_off.body

classify-enforce_deadline_example :
    classify reads_cut_off nine_back exchanged cut_off.status cut_off.headers []
    ≡ err (unfinished exchanged 504 service_deadline (some "late"))
classify-enforce_deadline_example =
    classify-enforce_deadline reads_cut_off nine_back exchanged 5 6 "late" busy [] (omega arith)
      refl
