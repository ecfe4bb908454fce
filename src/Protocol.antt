-- ===== src/Protocol.antt =====
-- include/netp2/protocol/request_context.h: the request context, and parse errors with their HTTP
-- status and text.
pub mod Headers
pub mod Codec
mod Tests
use net.Base.{ℕ, Text, codes, List, Bool, false, []}

pub record RequestContext : Type 0 where
  pub method : Text
  pub target : Text
  pub version : Text
  pub host : Text
  pub headers : List (Text × Text)
  pub body : Text
  pub client_endpoint : Text
  pub trace_parent : Text
  pub content_length : ℕ
  pub has_content_length : Bool

abbrev pub new_context : RequestContext
new_context = record {
  method = [];
  target = [];
  version = [];
  host = [];
  headers = [];
  body = [];
  client_endpoint = [];
  trace_parent = [];
  content_length = 0;
  has_content_length = false;
}

pub data ParseError : Type 0 where
  success need_more_data invalid_request_line missing_host header_too_large : ParseError
  too_many_headers content_length_mismatch internal_error : ParseError

unfoldable pub parse_error_to_http_status : ParseError → ℕ
parse_error_to_http_status success = 200
parse_error_to_http_status need_more_data = 400
parse_error_to_http_status invalid_request_line = 400
parse_error_to_http_status missing_host = 400
parse_error_to_http_status header_too_large = 431
parse_error_to_http_status too_many_headers = 431
parse_error_to_http_status content_length_mismatch = 400
parse_error_to_http_status internal_error = 500

unfoldable pub parse_error_to_string : ParseError → Text
parse_error_to_string success = codes "success"
parse_error_to_string need_more_data = codes "need more data"
parse_error_to_string invalid_request_line = codes "invalid request line"
parse_error_to_string missing_host = codes "missing host header"
parse_error_to_string header_too_large = codes "header too large"
parse_error_to_string too_many_headers = codes "too many headers"
parse_error_to_string content_length_mismatch = codes "content-length mismatch"
parse_error_to_string internal_error = codes "internal error"
