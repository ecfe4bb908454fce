-- ===== src/Protocol/Headers/Table.antt =====
-- The header table: names are matched without regard to case, and the last value of a name counts.
use net.Base.{
  suc, ◌≤◌, ◌≡◌, refl, ap, ◌∙◌, length, Text, text_eq, text_eq_iff, List, [], ◌∷◌, some,
  if◌then◌else◌, arith,
}
use net.Protocol.{RequestContext}
use net.Protocol.Headers.{to_lower, lookup, assign, store_header, store_host, store_length}

pub lookup-assign :
    (k j : Text) (v : Text) (m : List (Text × Text))
    → lookup j (assign k v m) ≡ (if text_eq k j then some v else lookup j m)
unfolding lookup assign
lookup-assign k j v [] = refl
lookup-assign k j v ((i, w) ∷ m) =
    ground (arith, text_eq_iff k j, text_eq_iff i k, text_eq_iff i j, lookup-assign k j v m)

store_host-headers :
    (field value : Text) (ctx : RequestContext) → (store_host field value ctx).headers ≡ ctx.headers
store_host-headers field value ctx = ground arith

store_length-headers :
    (field value : Text) (ctx : RequestContext)
    → (store_length field value ctx).headers ≡ ctx.headers
store_length-headers field value ctx = ground arith

-- A header is found under its name in lower case, and no other header changes.
pub lookup-store_header :
    (name value key : Text) (ctx : RequestContext)
    → lookup key (store_header name value ctx).headers
      ≡ (if text_eq (to_lower name) key then some value else lookup key ctx.headers)
unfolding store_header
lookup-store_header name value key ctx =
    lookup-assign (to_lower name) key value
      (store_length (to_lower name) value (store_host (to_lower name) value ctx)).headers
    ∙ ap (λ m. if text_eq (to_lower name) key then some value else lookup key m)
        (store_length-headers (to_lower name) value (store_host (to_lower name) value ctx)
          ∙ store_host-headers (to_lower name) value ctx)

pub headers-store_header :
    (name value : Text) (ctx : RequestContext)
    → (store_header name value ctx).headers ≡ assign (to_lower name) value ctx.headers
unfolding store_header
headers-store_header name value ctx = ap (assign (to_lower name) value) (
    store_length-headers (to_lower name) value (store_host (to_lower name) value ctx)
    ∙ store_host-headers (to_lower name) value ctx)

pub length-assign :
    (key value : Text) (m : List (Text × Text)) → length (assign key value m) ≤ suc (length m)
unfolding assign
length-assign key value [] = omega arith
length-assign key value ((k, v) ∷ m) = ground (arith, length-assign key value m)
