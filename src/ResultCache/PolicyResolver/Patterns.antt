-- ===== src/ResultCache/PolicyResolver/Patterns.antt =====
-- mcp/core/cache/CachePolicyResolver.ts: which pattern a resource's URI meets.
use peta_core.Prelude.{IsFirst, List, arith, find, find-sort, refl, sort, ℕ}
use peta_core.ResultCache.PolicyResolver.{
  PatternOverride, by_prefix, match_resource_pattern, matches,
}

-- The pattern chosen for a URI is a listed one that matches it, and every other match has a literal
-- prefix no longer than its own; when none is chosen, no listed pattern matches.
pub match_resource_pattern-IsFirst :
    (uri : List ℕ) (ps : List PatternOverride)
    → IsFirst by_prefix (λ p. matches p.pattern uri) ps (match_resource_pattern ps uri)
unfolding match_resource_pattern
match_resource_pattern-IsFirst uri ps =
    find-sort by_prefix (λ p q r h k. ground arith) (λ p q h. ground arith)
      (λ p. matches p.pattern uri) ps (find (λ p. matches p.pattern uri) (sort by_prefix ps)) refl
