-- ===== src/Runtime/Responses.antt =====
-- src/runtime/spine.cpp: `mock_upstream_call` and `build_http_response`.
pub mod Framing
use net.Base.{
  ℕ, Text, codes, text_eq, starts_with, to_string, length, List, [], ◌∷◌, ◌++◌, ◌||◌, if◌then◌else◌,
}

abbrev pub legacy_phase_a_body : Text
legacy_phase_a_body = codes "netp2 phase-a\n"

abbrev pub mock_upstream_body : Text
mock_upstream_body = codes "mock upstream ok\n"

abbrev pub not_found_body : Text
not_found_body = codes "route not found\n"

abbrev pub method_not_allowed_body : Text
method_not_allowed_body = codes "method not allowed\n"

unfoldable pub mock_upstream_call : Text → Text
mock_upstream_call path =
    if text_eq path (codes "/") || starts_with path (codes "/proxy")
    then (if text_eq path (codes "/") then legacy_phase_a_body else mock_upstream_body)
    else mock_upstream_body

abbrev pub plain_text : Text
plain_text = codes "text/plain; charset=utf-8"

-- A line with its end.
abbrev pub line : Text → Text → Text
line l rest = l ++ 13 ∷ 10 ∷ rest

abbrev pub status_line : ℕ → Text → Text
status_line status_code reason = codes "HTTP/1.1 " ++ (to_string status_code ++ 32 ∷ reason)

abbrev pub length_line : Text → Text
length_line body = codes "Content-Length: " ++ to_string (length body)

abbrev pub close_line : Text
close_line = codes "Connection: close"

abbrev pub type_line : Text → Text
type_line content_type = codes "Content-Type: " ++ content_type

unfoldable pub build_http_response : ℕ → Text → Text → Text → Text
build_http_response status_code reason body content_type =
    line (status_line status_code reason)
      (line (length_line body) (line close_line (line (type_line content_type) (line [] body))))
