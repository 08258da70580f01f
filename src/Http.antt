-- ===== src/Http.antt =====
-- buffet/http_transport_client.h and http_transport_client.cc: requests of libweave, over the HTTP
-- transport of brillo.
pub mod Answers
pub mod Tests
use rockchip_android_system.Prelude.{ℕ, Option, none, some, List, String, is_empty, if◌then◌else◌}
use rockchip_android_system.Errors.{Chain, BrilloEntry, WeaveEntry, convert_to_weave}

-- kRequestTimeoutSeconds, which the constructor gives the transport.
abbrev pub request_timeout_seconds : ℕ
request_timeout_seconds = 30

-- brillo::http::Response, with the data that ExtractDataAsString gives.
pub record Response : Type 0 where
  pub status_code : ℕ
  pub content_type : String
  pub content : String

-- brillo::http::Request; `body` is the stream over the data, if one was added.
pub record Request : Type 0 where
  pub url : String
  pub method : String
  pub headers : List (String × String)
  pub body : Option String

-- A run of the callback of SendRequest: with a ResponseImpl, which keeps the members of the
-- response, or with an error.
pub data Answer : Type 0 where
  response : ℕ → Response → Answer
  failure : ℕ → Chain WeaveEntry → Answer

unfoldable pub on_success_callback : ℕ → Response → Answer
on_success_callback callback r = response callback r

unfoldable pub on_error_callback : ℕ → Chain BrilloEntry → Answer
on_error_callback callback e = failure callback (convert_to_weave e none)

-- SendRequest either hands a request with the callback to the transport, or posts an answer.
pub data Sending : Type 0 where
  requested : Request → ℕ → Sending
  posted : Answer → Sending

-- HttpTransportClient::SendRequest. `method` is the text of the method, and `refused` the error
-- with which AddRequestBody refuses the stream over the data, if it does.
unfoldable pub send_request :
    String → String → List (String × String) → String → Option (Chain BrilloEntry) → ℕ → Sending
send_request method url headers content refused callback =
    let request : Request = record { url = url; method = method; headers = headers; body = none } in
    if is_empty content then requested request callback else elim refused [
      | some e ↦ posted (failure callback (convert_to_weave e none))
      | none ↦ requested (record request { body = some content }) callback
    ]
