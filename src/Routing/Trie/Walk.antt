-- ===== src/Routing/Trie/Walk.antt =====
-- The walk of `find_longest_prefix_rules`: it ends at the longest prefix that has rules.
use net.Base.{
  ℕ, zero, suc, ◌<◌, ◌≤◌, Text, List, [], ◌∷◌, none, some, is_empty, if◌then◌else◌, ◌≡◌, ◌≢◌, refl,
  sym, ap, ◌∙◌, arith, Option-cases, inl, inr, ◌⊎◌, length, take,
}
use net.Routing.{RouteRule}
use net.Routing.Trie.{TrieNode, rules, children, find_child, walk}
use net.Routing.Trie.Contents.{rules_at, rules_at-child}

-- `rs` is what `at` gives for the longest non-empty prefix of `ss` for which it gives any rules, and
-- is [] if there is no such prefix.
pub data IsLongest (at : List Text → List RouteRule) (ss : List Text) (rs : List RouteRule)
    : Type 0 where
  no_prefix : rs ≡ [] → ((m : ℕ) → 0 < m → m ≤ length ss → at (take m ss) ≡ []) → IsLongest at ss rs
  prefix :
      (n : ℕ)
      → 0 < n
      → n ≤ length ss
      → rs ≡ at (take n ss)
      → rs ≢ []
      → ((m : ℕ) → n < m → m ≤ length ss → at (take m ss) ≡ [])
      → IsLongest at ss rs

-- The walk from a node on, for any result kept so far.
data Walks (n : TrieNode) (ss : List Text) (longest rs : List RouteRule) : Type 0 where
  kept :
      rs ≡ longest
      → ((m : ℕ) → 0 < m → m ≤ length ss → rules_at (take m ss) n ≡ [])
      → Walks n ss longest rs
  found :
      (k : ℕ)
      → 0 < k
      → k ≤ length ss
      → rs ≡ rules_at (take k ss) n
      → rs ≢ []
      → ((m : ℕ) → k < m → m ≤ length ss → rules_at (take m ss) n ≡ [])
      → Walks n ss longest rs

abbrev after : TrieNode → List RouteRule → List RouteRule
after t longest = if is_empty (rules t) then longest else rules t

-- What holds beyond a child's prefixes holds beyond the node's.
beyond :
    (k : ℕ) (s : Text) (ss : List Text) (n t : TrieNode)
    → find_child s (children n) ≡ some t
    → ((m : ℕ) → k < m → m ≤ length ss → rules_at (take m ss) t ≡ [])
    → (m : ℕ) → suc k < m
    → m ≤ suc (length ss)
    → rules_at (take m (s ∷ ss)) n ≡ []
beyond k s ss n t e h zero p q = absurd (omega arith)
beyond k s ss n t e h (suc m) p q =
    rules_at-child s (take m ss) n (some t) e ∙ h m (omega arith) (omega arith)

none_below :
    (s : Text) (ss : List Text) (n t : TrieNode)
    → find_child s (children n) ≡ some t
    → rules t ≡ []
    → ((m : ℕ) → 0 < m → m ≤ length ss → rules_at (take m ss) t ≡ [])
    → (m : ℕ) → 0 < m
    → m ≤ suc (length ss)
    → rules_at (take m (s ∷ ss)) n ≡ []
unfolding rules_at
none_below s ss n t e bare h zero p q = absurd (omega arith)
none_below s ss n t e bare h (suc zero) p q = rules_at-child s [] n (some t) e ∙ bare
none_below s ss n t e bare h (suc (suc m)) p q =
    rules_at-child s (take (suc m) ss) n (some t) e ∙ h (suc m) (omega arith) (omega arith)

missing_child :
    (s : Text) (ss : List Text) (n : TrieNode)
    → find_child s (children n) ≡ none
    → (m : ℕ) → 0 < m
    → m ≤ suc (length ss)
    → rules_at (take m (s ∷ ss)) n ≡ []
missing_child s ss n e zero p q = absurd (omega arith)
missing_child s ss n e (suc m) p q = rules_at-child s (take m ss) n none e

Walks-child :
    (s : Text) (ss : List Text) (n t : TrieNode) (longest : List RouteRule) {rs : List RouteRule}
    → find_child s (children n) ≡ some t
    → Walks t ss (after t longest) rs
    → Walks n (s ∷ ss) longest rs
unfolding rules_at
Walks-child s ss n t longest e (found k p q same some_rules h) =
    found (suc k) (omega arith) (omega arith)
      (same ∙ sym (rules_at-child s (take k ss) n (some t) e)) some_rules (beyond k s ss n t e h)
Walks-child s ss n t longest e (kept same h) = elim (List-cases (rules t)) [
  | inl bare ↦
      kept (same ∙ ap (λ rs. if is_empty rs then longest else rs) bare)
        (none_below s ss n t e bare h)
  | inr has ↦
      found 1 (omega arith) (omega arith) (same ∙ has.1 ∙ sym (rules_at-child s [] n (some t) e))
        (λ z. has.0 (sym has.1 ∙ sym same ∙ z)) (beyond 0 s ss n t e h)
]
  where
    List-cases :
        (rs : List RouteRule)
        → (rs ≡ []) ⊎ ((rs ≢ []) × ((if is_empty rs then longest else rs) ≡ rs))
    List-cases [] = inl refl
    List-cases (r ∷ rs) = inr (λ z. cc, refl)

walk-Walks :
    (ss : List Text) (n : TrieNode) (longest : List RouteRule)
    → Walks n ss longest (walk ss n longest)
unfolding walk
walk-Walks [] n longest = kept refl (λ m p q. absurd (omega arith))
walk-Walks (s ∷ ss) n longest = elim (Option-cases (find_child s (children n))) [
  | inl missing ↦ kept (rw (missing, walk) refl) (missing_child s ss n missing)
  | inr (t, here) ↦
      Walks-child s ss n t longest here (rw (here, walk) (walk-Walks ss t (after t longest)))
]

-- From the root the walk finds the rules of the longest prefix of the path's segments that has any.
pub walk-IsLongest :
    (ss : List Text) (root : TrieNode) → IsLongest (λ p. rules_at p root) ss (walk ss root [])
walk-IsLongest ss root = conclude (walk-Walks ss root [])
  where
    conclude :
        Walks root ss [] (walk ss root []) → IsLongest (λ p. rules_at p root) ss (walk ss root [])
    conclude (kept e h) = no_prefix e h
    conclude (found k p q e some_rules h) = prefix k p q e some_rules h
