-- ===== src/Protocol/Headers.antt =====
-- src/protocol/http1_codec.cpp: how a header is stored in the request context. `std::tolower` is that
-- of the C locale, and `std::stoull` reads base 10.
pub mod Numbers
pub mod Table
use net.Base.{
  ℕ, ◌+◌, ◌-◌, ◌*◌, ◌%◌, ◌^◌, Text, codes, text_eq, Bool, true, false, ◌&&◌, ◌||◌, leb, ltb, ◌==◌,
  List, [], ◌∷◌, Option, none, some, map, if◌then◌else◌,
}
use net.Protocol.{RequestContext}

pub lower : ℕ → ℕ
lower c = if leb b'A' c && leb c b'Z' then c + 32 else c

unfoldable pub to_lower : Text → Text
unfolding lower
to_lower = map lower

abbrev pub u64_mod : ℕ
u64_mod = 2 ^ 64

abbrev pub is_digit : ℕ → Bool
is_digit c = leb b'0' c && leb c b'9'

-- `isspace`
abbrev pub is_space : ℕ → Bool
is_space c = c == 32 || (leb 9 c && leb c 13)

pub skip_spaces : Text → Text
skip_spaces [] = []
skip_spaces (c ∷ s) = let rest = skip_spaces s in if is_space c then rest else c ∷ s

-- The digits at the front of a text; what follows them is not looked at.
pub read_digits : ℕ → Text → ℕ
read_digits acc [] = acc
read_digits acc (c ∷ s) =
    let more = read_digits (acc * 10 + (c - b'0')) s in if is_digit c then more else acc

-- No digits is `invalid_argument`; a number that does not fit is `out_of_range`.
pub magnitude : Text → Option ℕ
unfolding read_digits
magnitude [] = none
magnitude (c ∷ s) =
    if is_digit c
    then (if ltb (read_digits 0 (c ∷ s)) u64_mod then some (read_digits 0 (c ∷ s)) else none)
    else none

abbrev pub negate : Option ℕ → Option ℕ
negate none = none
negate (some n) = some ((u64_mod - n) % u64_mod)

abbrev pub signed : Text → Option ℕ
signed [] = none
signed (c ∷ s) =
    if c == b'-' then negate (magnitude s) else if c == b'+' then magnitude s else magnitude (c ∷ s)

-- `none` stands for the exceptions, which the caller catches alike.
unfoldable pub stoull : Text → Option ℕ
unfolding magnitude skip_spaces
stoull s = signed (skip_spaces s)

-- `std::unordered_map<std::string, std::string>`: a key stands in it once.
unfoldable pub lookup : Text → List (Text × Text) → Option Text
lookup key [] = none
lookup key ((k, v) ∷ m) = if text_eq k key then some v else lookup key m

-- `m[key] = value`
pub assign : Text → Text → List (Text × Text) → List (Text × Text)
assign key value [] = (key, value) ∷ []
assign key value ((k, v) ∷ m) =
    if text_eq k key then (k, value) ∷ m else (k, v) ∷ assign key value m

-- The three assignments of `save_current_header`, for a field name in lower case.
abbrev pub store_host : Text → Text → RequestContext → RequestContext
store_host field value ctx =
    if text_eq field (codes "host") then record ctx { host = value } else ctx

abbrev pub with_length : Option ℕ → RequestContext → RequestContext
with_length none ctx = ctx
with_length (some n) ctx = record ctx { content_length = n; has_content_length = true }

abbrev pub store_length : Text → Text → RequestContext → RequestContext
store_length field value ctx =
    if text_eq field (codes "content-length") then with_length (stoull value) ctx else ctx

unfoldable pub store_header : Text → Text → RequestContext → RequestContext
unfolding to_lower assign stoull
store_header name value ctx =
    let field = to_lower name in
    let ctx' = store_length field value (store_host field value ctx) in
    record ctx' { headers = assign field value ctx'.headers }
