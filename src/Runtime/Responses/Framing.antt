-- ===== src/Runtime/Responses/Framing.antt =====
-- Reading back a response of `build_http_response`.
use net.Base.{
  ℕ, zero, suc, ◌-◌, ◌≡◌, refl, ap, ◌∙◌, Text, codes, find, find-append, substr_to,
  take-append_left, to_string, to_string-IsDigit, Free, Free-of_IsDigit, Bool, true, false, not,
  ◌&&◌, ◌==◌, length, is_empty, drop, List, [], ◌∷◌, ◌++◌, if◌then◌else◌, arith,
}
use net.Runtime.Responses.{
  line, status_line, length_line, close_line, type_line, build_http_response,
}

-- The text up to the first carriage return, and what follows the line's end.
abbrev pub first_line : Text → Text
first_line s = substr_to s (find s 13)

abbrev pub after_line : Text → Text
after_line s = drop (suc (suc (length (first_line s)))) s

-- The lines up to the first empty one, and what follows it. Each line has an end, so the length of
-- the text is fuel enough.
pub read_lines : ℕ → Text → List Text × Text
read_lines zero s = ([], s)
read_lines (suc fuel) s =
    let (ls, rest) = read_lines fuel (after_line s) in
    if is_empty (first_line s) then ([], after_line s) else (first_line s ∷ ls, rest)

-- A client's view of a response: its lines up to the empty one, and its body.
pub read_response : Text → List Text × Text
unfolding read_lines
read_response s = read_lines (length s) s

first_line-line : (l t : Text) → Free 13 l → first_line (line l t) ≡ l
first_line-line l t f = rw (find-append l (10 ∷ t) 13 f) (take-append_left l (13 ∷ 10 ∷ t))

drop-line : (l t : Text) → drop (suc (suc (length l))) (line l t) ≡ t
drop-line [] t = refl
drop-line (c ∷ l) t = drop-line l t

read_lines-cons :
    (fuel : ℕ) (l t : Text)
    → is_empty l ≡ false
    → Free 13 l
    → read_lines (suc fuel) (line l t) ≡ (l ∷ (read_lines fuel t).0, (read_lines fuel t).1)
unfolding read_lines
read_lines-cons fuel l t h f = rw (first_line-line l t f, drop-line l t) (rw h refl)

read_lines-end : (fuel : ℕ) (t : Text) → read_lines (suc fuel) (line [] t) ≡ ([], t)
unfolding read_lines find
read_lines-end fuel t = refl

to_string-no_return : (n : ℕ) → Free 13 (to_string n)
to_string-no_return n = Free-of_IsDigit 13 (to_string n) (omega arith) (to_string-IsDigit n)

Free-append : (c : ℕ) (s t : Text) → Free c s → Free c t → Free c (s ++ t)
Free-append c [] t f g = g
Free-append c (x ∷ s) t f g = (f.0, Free-append c s t f.1 g)

abbrev avoids : ℕ → Text → Bool
avoids c [] = true
avoids c (x ∷ s) = not (x == c) && avoids c s

pub avoids-Free : (c : ℕ) (s : Text) → avoids c s ≡ true → Free c s
avoids-Free c [] h = tt
avoids-Free c (x ∷ s) h = (ground (arith, h), avoids-Free c s (ground (arith, h)))

abbrev front : Text → List Text × Text → List Text × Text
front l (ls, rest) = (l ∷ ls, rest)

module _ (status_code : ℕ) (reason body content_type : Text) (f : Free 13 reason)
    (g : Free 13 content_type) where
  status_line-Free : Free 13 (status_line status_code reason)
  status_line-Free =
      Free-append 13 (codes "HTTP/1.1 ") _ (avoids-Free 13 (codes "HTTP/1.1 ") refl) (
        Free-append 13 (to_string status_code) _ (to_string-no_return status_code)
          (λ e. omega arith, f))

  length_line-Free : Free 13 (length_line body)
  length_line-Free =
      Free-append 13 (codes "Content-Length: ") _ (avoids-Free 13 (codes "Content-Length: ") refl)
        (to_string-no_return (length body))

  type_line-Free : Free 13 (type_line content_type)
  type_line-Free =
      Free-append 13 (codes "Content-Type: ") _ (avoids-Free 13 (codes "Content-Type: ") refl) g

  read_lines-response :
      (fuel : ℕ)
      → read_lines
          (suc (suc (suc (suc (suc fuel)))))
          (build_http_response status_code reason body content_type)
        ≡ (
          status_line status_code reason
              ∷ length_line body
              ∷ close_line
              ∷ type_line content_type
              ∷ [],
          body,
        )
  unfolding build_http_response
  read_lines-response fuel =
      read_lines-cons (suc (suc (suc (suc fuel)))) (status_line status_code reason) _ refl
        status_line-Free
      ∙ ap (front (status_line status_code reason)) (
          read_lines-cons (suc (suc (suc fuel))) (length_line body) _ refl length_line-Free
          ∙ ap (front (length_line body)) (
              read_lines-cons (suc (suc fuel)) close_line _ refl (avoids-Free 13 close_line refl)
              ∙ ap (front close_line) (
                  read_lines-cons (suc fuel) (type_line content_type) _ refl type_line-Free
                  ∙ ap (front (type_line content_type)) (read_lines-end fuel body))))

  -- A client that reads lines up to the first empty one finds the status, the reason and three header
  -- fields, the length of the body among them, and behind them just the body, whatever bytes the body
  -- has, if reason and content type hold no carriage return.
  pub read-build_http_response :
      read_response (build_http_response status_code reason body content_type) ≡ (
        status_line status_code reason
            ∷ length_line body
            ∷ close_line
            ∷ type_line content_type
            ∷ [],
        body,
      )
  unfolding read_response build_http_response
  read-build_http_response =
      let n = length (build_http_response status_code reason body content_type) in
      let enough : n ≡ suc (suc (suc (suc (suc (n - 5))))) = omega arith in
      ap (λ k. read_lines k (build_http_response status_code reason body content_type)) enough
      ∙ read_lines-response (n - 5)
