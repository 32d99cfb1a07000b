-- ===== src/Policy/Engine/Renewed.antt =====
-- mcp/services/PolicyEngine.ts: what a cleared cache holds later on.
use peta_core.Prelude.{
  ℕ, text_eq, List, Option, none, refl, some, ◌≡◌, ◌≤◌, ◌⊎◌, ap, arith, eq_of_beq, All, All-append,
  Bool-cases, false, inl, inr, ltb, sym, ◌-◌, ◌==◌, ◌∷◌, [], subst, zero, suc, true, get_or,
  if◌then◌else◌, Bool, if_cases, ◌+◌, ◌∙◌,
}
use peta_core.Prelude.Dict
use peta_core.Policy.Engine.{
  PolicySet, Cache, CachedPolicies, cache_key, cache_ttl_ms, global_key, clear_cache, decide,
}
use peta_core.Policy.Engine.Waiting.{
  Decided, EngineState, Event, Waiting, answering, asking, begun, clearing, start_evaluation,
  fresh_policies, nth, without, finish_evaluation, finished, serve, serve_all,
}
use peta_core.Enums.{DangerLevel}
use peta_core.Policy.Evaluator.{Context, Runtime}

-- A call that is asked no sooner.
abbrev pub IsLater : {N : Type 0} → ℕ → Event N → Type 0
IsLater since (asking now c level) = since ≤ now
IsLater since (answering place delay) = Unit
IsLater since (clearing server) = Unit

module _ {N : Type 0} (rt : Runtime N) (policies_at : ℕ → Option (List ℕ) → List (PolicySet N))
    (since : ℕ) (key : List ℕ) where
  -- What the repository had at that time or later for a server of this cache key.
  abbrev pub IsCurrent : List (PolicySet N) → Type 0
  IsCurrent ps =
      (t : ℕ) × (u : Option (List ℕ)) × ((since ≤ t) × (cache_key u ≡ key) × (policies_at t u ≡ ps))

  abbrev pub EntryCurrent : Option (CachedPolicies N) → Type 0
  EntryCurrent none = Unit
  EntryCurrent (some e) = IsCurrent e.policies

  -- An evaluation of another key, or one started later.
  abbrev pub IsStarted : Waiting N → Type 0
  IsStarted w = ((cache_key w.context.server_id == key) ≡ false) ⊎ (since ≤ w.started)

  pub record IsRenewed (s : EngineState N) : Type 0 where
    pub entry : EntryCurrent (Dict.get key s.cache)
    pub started : All IsStarted s.waiting

  -- The call is for another key, or such policies decide it.
  abbrev pub IsCurrentlyDecided : Decided N → Type 0
  IsCurrentlyDecided d =
      ((cache_key d.context.server_id == key) ≡ false)
      ⊎ ((ps : List (PolicySet N)) × (IsCurrent ps × (d.result ≡ decide rt ps d.context d.level)))

  fresh-IsCurrent :
      (now : ℕ) (o : Option (CachedPolicies N)) (ps : List (PolicySet N))
      → EntryCurrent o
      → fresh_policies now o ≡ some ps
      → IsCurrent ps
  fresh-IsCurrent now none ps h e = absurd (none-some e)
    where
      none-some : none ≡ some ps → ⊥
      none-some e = cc
  fresh-IsCurrent now (some e) ps h found =
      subst IsCurrent (same_policies (ltb (now - e.fetched_at) cache_ttl_ms) found) h
    where
      same_policies : (b : Bool) → (if b then some e.policies else none) ≡ some ps → e.policies ≡ ps
      same_policies true k = ap (λ o. get_or o ps) k
      same_policies false k = cc

  start-IsRenewed :
      (now : ℕ) (c : Context N) (level : DangerLevel) (s : EngineState N)
      → since ≤ now
      → IsRenewed s
      → IsRenewed (start_evaluation rt policies_at now c level s).0
        × All IsCurrentlyDecided (start_evaluation rt policies_at now c level s).1
  unfolding start_evaluation
  start-IsRenewed now c level s le h = begun_with _ refl
    where
      asked : Option (CachedPolicies N)
      asked = Dict.get (cache_key c.server_id) s.cache

      decided :
          (ps : List (PolicySet N))
          → fresh_policies now asked ≡ some ps
          → IsCurrentlyDecided
              (record { context = c; level = level; result = decide rt ps c level })
      decided ps e = elim (Bool-cases (cache_key c.server_id == key)) [
        | inl same ↦ inr (
          ps,
          (
            fresh-IsCurrent now asked ps
                (subst (λ k. EntryCurrent (Dict.get k s.cache))
                  (sym (eq_of_beq (cache_key c.server_id) key same)) h.entry)
                e,
            refl,
          ),
        )
        | inr ne ↦ inl ne
      ]

      begun_with :
          (o : Option (List (PolicySet N)))
          → fresh_policies now asked ≡ o
          → IsRenewed (begun rt policies_at now c level s o).0
            × All IsCurrentlyDecided (begun rt policies_at now c level s o).1
      begun_with none e = (
        record {
          entry = h.entry;
          started = All-append IsStarted s.waiting _ h.started (inr le, tt);
        },
        tt,
      )
      begun_with (some ps) e = (h, (decided ps e, tt))

  All-without : (n : ℕ) (ws : List (Waiting N)) → All IsStarted ws → All IsStarted (without n ws)
  All-without n [] h = tt
  All-without zero (w ∷ ws) h = h.1
  All-without (suc n) (w ∷ ws) h = (h.0, All-without n ws h.1)

  All-nth :
      (n : ℕ) (ws : List (Waiting N)) (w : Waiting N)
      → All IsStarted ws
      → nth n ws ≡ some w
      → IsStarted w
  All-nth n [] w h e = cc
  All-nth zero (x ∷ ws) w h e = subst IsStarted (ap (λ o. get_or o x) e) h.0
  All-nth (suc n) (x ∷ ws) w h e = All-nth n ws w h.1 e

  finish-IsRenewed :
      (delay : ℕ) (w : Waiting N) (s : EngineState N)
      → IsStarted w
      → IsRenewed s
      → IsRenewed (finished rt policies_at delay (some w) s).0
        × All IsCurrentlyDecided (finished rt policies_at delay (some w) s).1
  finish-IsRenewed delay w s started h = elim (Bool-cases (cache_key w.context.server_id == key)) [
    | inl same ↦ (
      record { entry = stored (inl (current same)); started = h.started },
      (inr (ps, (current same, refl)), tt),
    )
    | inr ne ↦ (record { entry = stored (inr ne); started = h.started }, (inl ne, tt))
  ]
    where
      ps : List (PolicySet N)
      ps = policies_at (w.started + delay) w.context.server_id

      stored_entry : CachedPolicies N
      stored_entry = record { policies = ps; fetched_at = w.started }

      no_sooner :
          (cache_key w.context.server_id == key) ≡ true → IsStarted w → since ≤ w.started + delay
      no_sooner same (inl ne) = absurd (true_is-false (sym same ∙ ne))
        where
          true_is-false : true ≡ false → ⊥
          true_is-false e = cc
      no_sooner same (inr le) = omega (arith, le)

      current : (cache_key w.context.server_id == key) ≡ true → IsCurrent ps
      current same = (
        w.started + delay,
        w.context.server_id,
        (no_sooner same started, eq_of_beq (cache_key w.context.server_id) key same, refl),
      )

      stored :
          IsCurrent ps ⊎ ((cache_key w.context.server_id == key) ≡ false)
          → EntryCurrent
              (Dict.get key (Dict.set (cache_key w.context.server_id) stored_entry s.cache))
      stored (inl c) =
          subst EntryCurrent
            (sym (Dict.get-set (cache_key w.context.server_id) key stored_entry s.cache))
            (if_cases EntryCurrent (cache_key w.context.server_id == key) (some stored_entry)
              (Dict.get key s.cache) (λ _. c) (λ _. h.entry))
      stored (inr ne) =
          subst EntryCurrent
            (sym
              (Dict.get-set (cache_key w.context.server_id) key stored_entry s.cache ∙ rw ne refl))
            h.entry

  serve-IsRenewed :
      (e : Event N) (s : EngineState N)
      → IsLater since e
      → IsRenewed s
      → IsRenewed (serve rt policies_at e s).0 × All IsCurrentlyDecided (serve rt policies_at e s).1
  unfolding serve finish_evaluation Dict.get clear_cache
  serve-IsRenewed (asking now c level) s le h = start-IsRenewed now c level s le h
  serve-IsRenewed (answering place delay) s le h = found (nth place s.waiting) refl
    where
      left : EngineState N
      left = record s { waiting = without place s.waiting }

      left-IsRenewed : IsRenewed left
      left-IsRenewed = record { entry = h.entry; started = All-without place s.waiting h.started }

      found :
          (o : Option (Waiting N))
          → nth place s.waiting ≡ o
          → IsRenewed (finished rt policies_at delay o left).0
            × All IsCurrentlyDecided (finished rt policies_at delay o left).1
      found none e = (left-IsRenewed, tt)
      found (some w) e =
          finish-IsRenewed delay w left (All-nth place s.waiting w h.started e) left-IsRenewed
  serve-IsRenewed (clearing server) s le h =
      (record { entry = still_current server; started = h.started }, tt)
    where
      deleted :
          (k : List ℕ) (cache : Cache N)
          → EntryCurrent (Dict.get key cache)
          → EntryCurrent (Dict.get key (Dict.delete k cache))
      deleted k cache c =
          subst EntryCurrent (sym (Dict.get-delete k key cache))
            (if_cases EntryCurrent (k == key) none (Dict.get key cache) (λ _. tt) (λ _. c))

      still_current : (x : Option (List ℕ)) → EntryCurrent (Dict.get key (clear_cache x s.cache))
      still_current none = tt
      still_current (some k) =
          deleted global_key (Dict.delete k s.cache) (deleted k s.cache h.entry)

  pub serve_all-IsRenewed :
      (es : List (Event N)) (s : EngineState N)
      → All (IsLater since) es
      → IsRenewed s
      → All IsCurrentlyDecided (serve_all rt policies_at es s).1
  unfolding serve_all
  serve_all-IsRenewed [] s les h = tt
  serve_all-IsRenewed (e ∷ es) s les h =
      let (renewed, out) = serve-IsRenewed e s les.0 h in
      All-append IsCurrentlyDecided (serve rt policies_at e s).1 _ out
        (serve_all-IsRenewed es (serve rt policies_at e s).0 les.1 renewed)
