-- ===== src/Runtime/Spine/Answers.antt =====
-- What response `handle_connection` of src/runtime/spine.cpp makes.
use net.Base.{ℕ, ◌≡◌, ◌≢◌, Text, Bool, true, ◌==◌, any, [], ◌∷◌}
use net.Protocol.{ParseError, need_more_data, header_too_large, too_many_headers}
use net.Runtime.Responses.{status_line, length_line, close_line, type_line}
use net.Runtime.Responses.Framing.{read_response}
use net.Runtime.Spine.{Response}

-- A client that reads the bytes finds the status, and the length of the body that follows.
abbrev pub IsFramed : Response → Type 0
IsFramed (status_code, payload) =
    (reason : Text) × (body : Text) × (content_type : Text) × (read_response payload ≡ (
      status_line status_code reason ∷ length_line body ∷ close_line ∷ type_line content_type ∷ [],
      body,
    ))

-- The statuses that are sent.
abbrev pub is_sent : ℕ → Bool
is_sent status_code = any (λ s. s == status_code) (200 ∷ 400 ∷ 404 ∷ 405 ∷ 500 ∷ [])

abbrev IsGood : Response → Type 0
IsGood r = IsFramed r × (is_sent r.0 ≡ true)

-- The errors that `parse` can have.
abbrev IsPossible : ParseError → Type 0
IsPossible e = (e ≢ need_more_data) × (e ≢ header_too_large) × (e ≢ too_many_headers)
