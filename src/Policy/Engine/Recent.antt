-- ===== src/Policy/Engine/Recent.antt =====
-- mcp/services/PolicyEngine.ts: how old the policies that decide a call can be.
use peta_core.Prelude.{
  ℕ, text_eq, List, Option, none, refl, some, ◌+◌, ◌<◌, ◌≡◌, ◌≢◌, ap, arith, eq_of_beq, if_cases,
  ltb, ltb→lt, sym, ◌-◌, ◌==◌,
}
use peta_core.Prelude.Dict
use peta_core.Policy.Engine.{
  PolicySet, Cache, CachedPolicies, cache_key, cache_ttl_ms, global_key, decide, evaluate_call,
  load_policies, refresh,
}
use peta_core.Enums.{DangerLevel}
use peta_core.Policy.Evaluator.{Context, Runtime}

module _ {N : Type 0} (policies_at : ℕ → Option (List ℕ) → List (PolicySet N)) where
  abbrev pub WasAnswered : Option (List ℕ) → Option (CachedPolicies N) → Type 0
  WasAnswered server none = Unit
  WasAnswered server (some e) = policies_at e.fetched_at server ≡ e.policies

  -- Every cached entry of a server is what the repository answered for it at the entry's time.
  abbrev pub IsHonest : Cache N → Type 0
  IsHonest cache =
      (server : Option (List ℕ))
      → server ≢ some global_key
      → WasAnswered server (Dict.get (cache_key server) cache)

  -- Policies that were in force for the server at most the cache's lifetime before `now`.
  abbrev pub IsRecent : ℕ → Option (List ℕ) → List (PolicySet N) → Type 0
  IsRecent now server ps = (t : ℕ) × ((now < t + cache_ttl_ms) × (policies_at t server ≡ ps))

  keys_differ :
      (s t : Option (List ℕ))
      → s ≢ some global_key
      → t ≢ some global_key
      → cache_key s ≡ cache_key t
      → s ≡ t
  keys_differ none none n m e = refl
  keys_differ none (some t) n m e = absurd (m (rw e refl))
  keys_differ (some s) none n m e = absurd (n (rw e refl))
  keys_differ (some s) (some t) n m e = rw e refl

  store-IsHonest :
      (server : Option (List ℕ)) (now : ℕ) (cache : Cache N)
      → server ≢ some global_key
      → IsHonest cache
      → IsHonest (
          Dict.set
            (cache_key server)
            (record { policies = policies_at now server; fetched_at = now })
            cache)
  store-IsHonest server now cache n h t m =
      let e : CachedPolicies N = record { policies = policies_at now server; fetched_at = now } in
      rw (Dict.get-set (cache_key server) (cache_key t) e cache) (
        if_cases (WasAnswered t) (cache_key server == cache_key t) (some e)
          (Dict.get (cache_key t) cache)
          (λ k.
            ap (policies_at now)
              (keys_differ t server m n (sym (eq_of_beq (cache_key server) (cache_key t) k))))
          (λ k. h t m))

  refresh-IsRecent :
      (server : Option (List ℕ)) (now : ℕ) (o : Option (CachedPolicies N)) (cache : Cache N)
      → server ≢ some global_key
      → WasAnswered server o
      → IsHonest cache
      → IsRecent now server (refresh (policies_at now server) now (cache_key server) o cache).0
        × IsHonest (refresh (policies_at now server) now (cache_key server) o cache).1
  refresh-IsRecent server now none cache n w h =
      ((now, (omega arith, refl)), store-IsHonest server now cache n h)
  refresh-IsRecent server now (some e) cache n w h =
      if_cases (λ (r : List (PolicySet N) × Cache N). IsRecent now server r.0 × IsHonest r.1)
        (ltb (now - e.fetched_at) cache_ttl_ms) (e.policies, cache)
        (
          policies_at now server,
          Dict.set (cache_key server)
              (record { policies = policies_at now server; fetched_at = now }) cache,
        )
        (λ k. ((e.fetched_at, (omega (arith, ltb→lt (now - e.fetched_at) cache_ttl_ms k), w)), h))
        (λ k. ((now, (omega arith, refl)), store-IsHonest server now cache n h))

  -- If every cached entry holds what the repository answered at the entry's time, a call to a
  -- server not named `__global__` is decided by policies that were in force for that server less
  -- than 30 seconds before, and the cache stays so.
  pub evaluate_call-IsRecent :
      (rt : Runtime N) (now : ℕ) (c : Context N) (level : DangerLevel) (cache : Cache N)
      → c.server_id ≢ some global_key
      → IsHonest cache
      → ((ps : List (PolicySet N)) × (IsRecent now c.server_id ps
            × ((evaluate_call rt policies_at now c level cache).0 ≡ decide rt ps c level)))
        × IsHonest (evaluate_call rt policies_at now c level cache).1
  unfolding evaluate_call load_policies
  evaluate_call-IsRecent rt now c level cache n h =
      let found = Dict.get (cache_key c.server_id) cache in
      let r = refresh-IsRecent c.server_id now found cache n (h c.server_id n) h in
      (
        (
          (refresh (policies_at now c.server_id) now (cache_key c.server_id) found cache).0,
          (r.0, refl),
        ),
        r.1,
      )
