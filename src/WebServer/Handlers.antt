-- ===== src/WebServer/Handlers.antt =====
-- buffet/webserv_client.cc: the request handlers of libweave, and what they are given.
use rockchip_android_system.Prelude.{
  ℕ, Bool, true, false, Option, none, List, [], ◌∷◌, ◌++◌, String,
}
use rockchip_android_system.WebServer.Request.{ByteStream, RequestImpl}

-- A handler that has been added to the default handler of a protocol, with the callback that
-- OnRequest is bound to. The method is the empty text, for all methods.
pub record Added : Type 0 where
  pub is_https : Bool
  pub path : String
  pub callback : ℕ

unfoldable pub add_http_request_handler : String → ℕ → List Added → List Added
add_http_request_handler path callback added =
    added ++ record { is_https = false; path = path; callback = callback } ∷ []

unfoldable pub add_https_request_handler : String → ℕ → List Added → List Added
add_https_request_handler path callback added =
    added ++ record { is_https = true; path = path; callback = callback } ∷ []

module _ ⦃bytes : ByteStream⦄ where
  -- libwebserv::Request.
  pub record Incoming : Type 0 where
    pub path : String
    pub first_header : String → String
    pub data_stream : Option bytes.Stream

  -- The request that the callback is run with: the one of libwebserv, and the data that GetData
  -- has read.
  pub record Outgoing : Type 0 where
    pub request : Incoming
    pub read : RequestImpl

  -- What ReplyWithText sends.
  pub record Reply : Type 0 where
    pub status_code : ℕ
    pub text : String
    pub mime_type : String

  -- WebServClient::OnRequest: the callback, and what it is run with.
  unfoldable pub on_request : ℕ → Incoming → ℕ × Outgoing
  on_request callback request = (
    callback,
    record {
      request = request;
      read = record { stream = request.data_stream; request_data = none };
    },
  )

  unfoldable pub get_path : Outgoing → String
  get_path r = r.request.path

  unfoldable pub get_first_header : String → Outgoing → String
  get_first_header name r = r.request.first_header name

  unfoldable pub send_reply : ℕ → String → String → Outgoing → Reply
  send_reply status_code text mime_type r = record {
    status_code = status_code;
    text = text;
    mime_type = mime_type;
  }
