-- ===== src/Policy/Engine/Cleared.antt =====
-- mcp/services/PolicyEngine.ts: which policies decide after the cache is cleared.
use peta_core.Prelude.{
  ℕ, text_eq, List, Option, none, refl, some, ◌≡◌, ◌≤◌, ◌⊎◌, arith, beq_self, All, All-imp, false,
  inl, ◌==◌, ◌∷◌,
}
use peta_core.Prelude.Dict
use peta_core.Policy.Engine.{PolicySet, Cache, cache_key, global_key, clear_cache}
use peta_core.Policy.Engine.Waiting.{EngineState, Event, clearing, serve, serve_all}
use peta_core.Policy.Evaluator.{Runtime}
use peta_core.Policy.Engine.Renewed.{IsLater, IsCurrentlyDecided, serve_all-IsRenewed}

-- Clearing everything, or for one server, reaches this server's policies.
abbrev pub Clears : Option (List ℕ) → Option (List ℕ) → Type 0
Clears none server = Unit
Clears (some s) none = Unit
Clears (some s) (some t) = s ≡ t

cleared :
    {N : Type 0} (s server : Option (List ℕ)) (cache : Cache N)
    → Clears s server
    → Dict.get (cache_key server) (clear_cache s cache) ≡ none
unfolding clear_cache Dict.get
cleared none server cache k = refl
cleared (some s) none cache k =
    rw (Dict.get-delete global_key global_key (Dict.delete s cache))
      (ground (arith, beq_self global_key))
cleared (some s) (some t) cache k =
    rw (Dict.get-delete global_key t (Dict.delete s cache))
      (rw (Dict.get-delete s t cache) (ground (arith, k, beq_self t)))

-- Once the cache is cleared at a time `since`, for all servers or for this one, every call to it
-- that is decided from then on, while evaluations overlap in any way and the cache is cleared again,
-- is decided by policies that the repository had at that time or later. No call is asked sooner, the
-- repository reads its answer no sooner than the evaluation starts, and when the cache was cleared
-- no evaluation of the server was waiting for the repository. A server named `__global__` and none
-- count as one.
pub serve_all-clearing :
    {N : Type 0} (rt : Runtime N) (policies_at : ℕ → Option (List ℕ) → List (PolicySet N))
    (since : ℕ) (x server : Option (List ℕ)) (es : List (Event N)) (s : EngineState N)
    → Clears x server
    → All (λ w. (cache_key w.context.server_id == cache_key server) ≡ false) s.waiting
    → All (IsLater since) es
    → All
        (IsCurrentlyDecided rt policies_at since (cache_key server))
        (serve_all rt policies_at (clearing x ∷ es) s).1
unfolding serve_all serve
serve_all-clearing rt policies_at since x server es s clears idle later =
    serve_all-IsRenewed rt policies_at since (cache_key server) es
      (record s { cache = clear_cache x s.cache }) later
      (record {
        entry = rw (cleared x server s.cache clears) tt;
        started =
            All-imp (λ w. (cache_key w.context.server_id == cache_key server) ≡ false)
              (λ w.
                ((cache_key w.context.server_id == cache_key server) ≡ false) ⊎ (since ≤ w.started))
              (λ w ne. inl ne) s.waiting idle;
      })
