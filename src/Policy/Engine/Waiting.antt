-- ===== src/Policy/Engine/Waiting.antt =====
-- mcp/services/PolicyEngine.ts: evaluations that wait for the repository while others run. An
-- evaluation is started, and finished when the repository answers; between the two other
-- evaluations and clearings of the cache may come.
use peta_core.Prelude.{
  ℕ, List, Option, text_eq, ltb, [], if◌then◌else◌, none, some, ◌+◌, ◌++◌, ◌-◌, ◌∷◌, suc, zero,
}
use peta_core.Prelude.Dict
use peta_core.Enums.{DangerLevel}
use peta_core.Policy.Evaluator.{Context, Runtime}
use peta_core.Policy.Engine.{
  Cache, CachedPolicies, EngineResult, PolicySet, cache_key, cache_ttl_ms, clear_cache, decide,
}

-- An evaluation that waits for the repository.
pub record Waiting (N : Type 0) : Type 0 where
  pub context : Context N
  pub level : DangerLevel
  pub started : ℕ

pub record EngineState (N : Type 0) : Type 0 where
  pub cache : Cache N
  pub waiting : List (Waiting N)

-- The result of a call, with what was asked.
pub record Decided (N : Type 0) : Type 0 where
  pub context : Context N
  pub level : DangerLevel
  pub result : EngineResult

-- The repository reads the answer `delay` after the start of the evaluation in that place.
pub data Event (N : Type 0) : Type 0 where
  asking : (now : ℕ) → (c : Context N) → (level : DangerLevel) → Event N
  answering : (place delay : ℕ) → Event N
  clearing : (server : Option (List ℕ)) → Event N

module _ {N : Type 0} where
  -- `cached && now - cached.fetchedAt < CACHE_TTL_MS`
  abbrev pub fresh_policies : ℕ → Option (CachedPolicies N) → Option (List (PolicySet N))
  fresh_policies now none = none
  fresh_policies now (some e) =
      if ltb (now - e.fetched_at) cache_ttl_ms then some e.policies else none

  abbrev pub nth : ℕ → List (Waiting N) → Option (Waiting N)
  nth n [] = none
  nth zero (w ∷ ws) = some w
  nth (suc n) (w ∷ ws) = nth n ws

  abbrev pub without : ℕ → List (Waiting N) → List (Waiting N)
  without n [] = []
  without zero (w ∷ ws) = ws
  without (suc n) (w ∷ ws) = w ∷ without n ws

module _ {N : Type 0} (rt : Runtime N)
    (policies_at : ℕ → Option (List ℕ) → List (PolicySet N)) where
  abbrev pub begun :
      ℕ
      → Context N
      → DangerLevel
      → EngineState N
      → Option (List (PolicySet N))
      → EngineState N × List (Decided N)
  begun now c level s none = (
    record s { waiting = s.waiting ++ record { context = c; level = level; started = now } ∷ [] },
    [],
  )
  begun now c level s (some ps) =
      (s, record { context = c; level = level; result = decide rt ps c level } ∷ [])

  unfoldable pub start_evaluation :
      ℕ → Context N → DangerLevel → EngineState N → EngineState N × List (Decided N)
  start_evaluation now c level s =
      begun now c level s (fresh_policies now (Dict.get (cache_key c.server_id) s.cache))

  -- The cache entry has the time at which the evaluation started.
  abbrev pub finished : ℕ → Option (Waiting N) → EngineState N → EngineState N × List (Decided N)
  finished delay none s = (s, [])
  finished delay (some w) s =
      let ps = policies_at (w.started + delay) w.context.server_id in
      (
        record s {
          cache =
              Dict.set (cache_key w.context.server_id)
                (record { policies = ps; fetched_at = w.started }) s.cache;
        },
        record { context = w.context; level = w.level; result = decide rt ps w.context w.level }
            ∷ [],
      )

  unfoldable pub finish_evaluation : ℕ → ℕ → EngineState N → EngineState N × List (Decided N)
  finish_evaluation place delay s =
      finished delay (nth place s.waiting) (record s { waiting = without place s.waiting })

  unfoldable pub serve : Event N → EngineState N → EngineState N × List (Decided N)
  unfolding start_evaluation finish_evaluation
  serve (asking now c level) s = start_evaluation now c level s
  serve (answering place delay) s = finish_evaluation place delay s
  serve (clearing server) s = (record s { cache = clear_cache server s.cache }, [])

  unfoldable pub serve_all : List (Event N) → EngineState N → EngineState N × List (Decided N)
  unfolding serve
  serve_all [] s = (s, [])
  serve_all (e ∷ es) s =
      let (s', out) = serve e s in let (s'', later) = serve_all es s' in (s'', out ++ later)
