-- ===== src/Observability/Metrics/Scrape.antt =====
-- What a reader of the exposition format finds in the text of `render_prometheus`.
use net.Base.{
  ℕ, ◌%◌, ◌≡◌, refl, ap, sym, ◌∙◌, Text, codes, to_string, decimal, decimal-to_string,
  to_string-IsDigit, Free, Free-of_IsDigit, false, ◌==◌, if◌then◌else◌, List, [], ◌∷◌, ◌++◌, All,
  All-append, Option, none, some, arith, Bool-cases, inl, inr, any, map, fun_ext, subst,
}
use net.Observability.Metrics.{
  u64_mod, WorkerMetricsShard, new_shard, MetricsRegistry, aggregate, render_lines, join_lines,
  render_prometheus,
}
use net.Observability.Metrics.Totals.{
  Counter, accepts, requests, responses_2xx, responses_4xx, responses_5xx, bytes_in, bytes_out,
  read, sum, total-aggregate,
}

-- A text cut after each line feed.
abbrev prepend : ℕ → List Text → List Text
prepend c [] = (c ∷ []) ∷ []
prepend c (l ∷ ls) = (c ∷ l) ∷ ls

pub lines : Text → List Text
lines [] = []
lines (c ∷ s) = let rest = lines s in if c == b'\n' then [] ∷ rest else prepend c rest

-- A line is a comment, or a name, a space and a number.
abbrev pub before : ℕ → Text → Text
before c [] = []
before c (x ∷ s) = let rest = before c s in if x == c then [] else x ∷ rest

abbrev pub after : ℕ → Text → Text
after c [] = []
after c (x ∷ s) = let rest = after c s in if x == c then s else rest

pub sample : Text → Option (Text × ℕ)
sample [] = none
sample (c ∷ s) =
    if c == b'#' then none else some (before b' ' (c ∷ s), decimal (after b' ' (c ∷ s)))

abbrev add_sample : Option (Text × ℕ) → List (Text × ℕ) → List (Text × ℕ)
add_sample none xs = xs
add_sample (some x) xs = x ∷ xs

pub samples_of : List Text → List (Text × ℕ)
unfolding sample
samples_of [] = []
samples_of (l ∷ ls) = add_sample (sample l) (samples_of ls)

-- The series that a scrape of the text has, in their order.
pub scrape : Text → List (Text × ℕ)
unfolding lines samples_of
scrape s = samples_of (lines s)

lines-append : (l s : Text) → Free 10 l → lines (l ++ 10 ∷ s) ≡ l ∷ lines s
unfolding lines
lines-append [] s h = refl
lines-append (c ∷ l) s h = elim (Bool-cases (c == 10)) [
  | inl e ↦ absurd (h.0 (ground (arith, e)))
  | inr n ↦ rw n (ap (prepend c) (lines-append l s h.1))
]

lines-join_lines : (ls : List Text) → All (Free 10) ls → lines (join_lines ls) ≡ ls
unfolding join_lines lines
lines-join_lines [] h = refl
lines-join_lines (l ∷ ls) h =
    lines-append l (join_lines ls) h.0 ∙ ap (◌∷◌ l) (lines-join_lines ls h.1)

any-Free : (c : ℕ) (s : Text) → any (λ x. x == c) s ≡ false → Free c s
any-Free c [] h = tt
any-Free c (x ∷ s) h = (λ e. ground arith, any-Free c s (ground arith))

-- The lines of the text, each with the counter that stands at its end, if one does.
fill : WorkerMetricsShard → Text × Option Counter → Text
fill t (s, none) = s
fill t (s, some c) = s ++ to_string (read c t)

layout : List (Text × Option Counter)
layout =
    (codes "# HELP netp2_accepts_total Total accepted TCP connections.", none)
    ∷ (codes "# TYPE netp2_accepts_total counter", none)
    ∷ (codes "netp2_accepts_total ", some accepts)
    ∷ (codes "# HELP netp2_requests_total Total handled HTTP requests.", none)
    ∷ (codes "# TYPE netp2_requests_total counter", none)
    ∷ (codes "netp2_requests_total ", some requests)
    ∷ (codes "# HELP netp2_responses_total Total HTTP responses by status class.", none)
    ∷ (codes "# TYPE netp2_responses_total counter", none)
    ∷ (codes "netp2_responses_total{code=\"2xx\"} ", some responses_2xx)
    ∷ (codes "netp2_responses_total{code=\"4xx\"} ", some responses_4xx)
    ∷ (codes "netp2_responses_total{code=\"5xx\"} ", some responses_5xx)
    ∷ (codes "# HELP netp2_bytes_in_total Total request bytes read.", none)
    ∷ (codes "# TYPE netp2_bytes_in_total counter", none)
    ∷ (codes "netp2_bytes_in_total ", some bytes_in)
    ∷ (codes "# HELP netp2_bytes_out_total Total response bytes written.", none)
    ∷ (codes "# TYPE netp2_bytes_out_total counter", none)
    ∷ (codes "netp2_bytes_out_total ", some bytes_out)
    ∷ []

render_lines-layout : (t : WorkerMetricsShard) → render_lines t ≡ map (fill t) layout
unfolding render_lines layout fill
render_lines-layout t = refl

fill-Free :
    (t : WorkerMetricsShard) (line : Text × Option Counter)
    → any (λ x. x == 10) line.0 ≡ false
    → Free 10 (fill t line)
unfolding fill
fill-Free t (s, none) h = any-Free 10 s h
fill-Free t (s, some c) h =
    All-append _ s (to_string (read c t)) (any-Free 10 s h)
      (Free-of_IsDigit 10 _ (λ d. omega arith) (to_string-IsDigit (read c t)))

filled-Free :
    (t : WorkerMetricsShard) (ls : List (Text × Option Counter))
    → any (λ line. any (λ x. x == 10) line.0) ls ≡ false
    → All (Free 10) (map (fill t) ls)
filled-Free t [] h = tt
filled-Free t (l ∷ ls) h = (fill-Free t l (ground arith), filled-Free t ls (ground arith))

render_lines-Free : (t : WorkerMetricsShard) → All (Free 10) (render_lines t)
unfolding layout
render_lines-Free t =
    subst (All (Free 10)) (sym (render_lines-layout t)) (filled-Free t layout refl)

-- The name under which a counter is exported, and the counters in the order of the text.
abbrev pub series : Counter → Text
series accepts = codes "netp2_accepts_total"
series requests = codes "netp2_requests_total"
series responses_2xx = codes "netp2_responses_total{code=\"2xx\"}"
series responses_4xx = codes "netp2_responses_total{code=\"4xx\"}"
series responses_5xx = codes "netp2_responses_total{code=\"5xx\"}"
series bytes_in = codes "netp2_bytes_in_total"
series bytes_out = codes "netp2_bytes_out_total"

abbrev pub counters : List Counter
counters =
    accepts ∷ requests ∷ responses_2xx ∷ responses_4xx ∷ responses_5xx ∷ bytes_in ∷ bytes_out ∷ []

samples_of-render_lines :
    (t : WorkerMetricsShard)
    → samples_of (render_lines t) ≡ map (λ c. (series c, decimal (to_string (read c t)))) counters
unfolding render_lines samples_of
samples_of-render_lines t = refl

exported :
    (shards : MetricsRegistry) (c : Counter)
    → decimal (to_string (read c (aggregate new_shard shards))) ≡ sum c shards % u64_mod
exported shards c = decimal-to_string _ ∙ total-aggregate c shards

-- Whatever the shards, a scrape of the exported text has just the seven series, in order, and the
-- value of each is the sum of its counter over the shards that are there, as `uint64_t` adds.
pub scrape-render_prometheus :
    (shards : MetricsRegistry)
    → scrape (render_prometheus shards) ≡ map (λ c. (series c, sum c shards % u64_mod)) counters
unfolding scrape render_prometheus
scrape-render_prometheus shards =
    let t = aggregate new_shard shards in
    ap samples_of (lines-join_lines (render_lines t) (render_lines-Free t))
    ∙ samples_of-render_lines t
    ∙ ap (λ (f : Counter → ℕ). map (λ c. (series c, f c)) counters) (fun_ext (exported shards))
