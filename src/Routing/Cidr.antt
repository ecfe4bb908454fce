-- ===== src/Routing/Cidr.antt =====
-- src/routing/route_snapshot.cpp: `ip_in_cidr`.
pub mod Octets
pub mod Networks
use net.Base.{
  ℕ, suc, Text, codes, text_eq, find, rfind, substr_to, take, drop, [], ◌∷◌, Bool, true, Option,
  none, some, ◌==◌, if◌then◌else◌,
}

-- The loop that looks for the second dot of the prefix, from index `i` on, with `count` dots seen.
unfoldable pub second_dot : ℕ → Text → ℕ → Option ℕ
second_dot count [] i = none
second_dot count (c ∷ s) i =
    let seen = second_dot (suc count) s (suc i) in
    let more = second_dot count s (suc i) in
    let hit = if suc count == 2 then some i else seen in if c == b'.' then hit else more

-- The tests behind the one for "/16".
unfoldable pub in_wide_prefix : Text → Text → Text → Bool
in_wide_prefix ip prefix prefix_len_str =
    if text_eq prefix_len_str (codes "8")
    then text_eq (substr_to prefix (find prefix b'.')) (substr_to ip (find ip b'.'))
    else if text_eq prefix_len_str (codes "0")
    then true
    else text_eq ip prefix

-- A prefix with fewer than two dots falls through to the tests that follow.
abbrev pub in_slash16 : Text → Text → Text → Option ℕ → Bool
in_slash16 ip prefix prefix_len_str none = in_wide_prefix ip prefix prefix_len_str
in_slash16 ip prefix prefix_len_str (some pos) = text_eq (take pos ip) (take pos prefix)

unfoldable pub in_prefix : Text → Text → Text → Bool
in_prefix ip prefix prefix_len_str =
    if text_eq prefix_len_str (codes "24")
    then text_eq (substr_to prefix (rfind prefix b'.')) (substr_to ip (rfind ip b'.'))
    else if text_eq prefix_len_str (codes "16")
    then in_slash16 ip prefix prefix_len_str (second_dot 0 prefix 0)
    else in_wide_prefix ip prefix prefix_len_str

abbrev pub at_slash : Text → Text → Option ℕ → Bool
at_slash ip cidr none = text_eq ip cidr
at_slash ip cidr (some slash_pos) = in_prefix ip (take slash_pos cidr) (drop (suc slash_pos) cidr)

unfoldable pub ip_in_cidr : Text → Text → Bool
ip_in_cidr ip cidr = at_slash ip cidr (find cidr b'/')
