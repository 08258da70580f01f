-- ===== src/Http/Tests.antt =====
-- buffet/http_transport_client.cc: a request that the transport cannot bring to its end.
use rockchip_android_system.Prelude.{
  ◌≡◌, refl, inl, inr, none, some, [], ◌∷◌, map, if◌then◌else◌, ◌==◌,
}
use rockchip_android_system.Errors.{BrilloEntry, single, with_inner, weave_entry, convert_to_weave}
use rockchip_android_system.Http.{Response, Request, posted, failure, send_request}
use rockchip_android_system.Http.Answers.{Reply, answers, told, send_request_lem}

abbrev timed_out : BrilloEntry
timed_out = record {
  domain = "curl";
  code = "28";
  message = "Timeout";
  location = record {
    function_name = "Perform";
    file_name = "http_connection_curl.cc";
    line_number = 90;
  };
}

abbrev request_failed : BrilloEntry
request_failed = record timed_out { code = "failed"; message = "Request failed" }

abbrev page : Response
page = record { status_code = 200; content_type = "text/plain"; content = "hello" }

-- Requests of one address are answered, those of any other time out.
abbrev transport : Request → Reply
transport r =
    if r.url == "https://cloud/"
    then inl page
    else inr (with_inner request_failed (single timed_out))

refuses :
    send_request "POST" "https://cloud/" [] "data" (some (single timed_out)) 3
    ≡ posted (failure 3 (convert_to_weave (single timed_out) none))
unfolding send_request
refuses = refl

send_request_lem_example :
    map told (answers transport (send_request "POST" "https://other/" [] "data" none 3))
    ≡ (3, inr (weave_entry request_failed ∷ weave_entry timed_out ∷ [])) ∷ []
send_request_lem_example = send_request_lem transport "POST" "https://other/" [] "data" none 3
