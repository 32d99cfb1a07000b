-- ===== src/Approval/Service/Limits.antt =====
-- mcp/services/ApprovalService.ts, `checkOrCreateApproval`: the two limits on creations.
use peta_core.Prelude.{
  string_eq, Bool, List, String, [], ap, arith, count, count-append, refl, suc, zero, ℕ, ◌++◌, ◌∷◌,
  ◌≡◌, ◌≤◌, false, inl, inr, leb, leb→lt, opt_beq, tests, ◌&&◌, ◌==◌, ◌⊎◌, Option, if_cases, none,
  some, ◌∙◌,
}
use peta_core.Approval.Table.{Row, expired, update}
use peta_core.Approval.Repository.{
  CreateParams, expire_hash, set_status, count_recent_creations_by_request_hash,
  count_recent_creations_by_tool,
}
use peta_core.Approval.Statements.{run}
use peta_core.Approval.Create.{
  gave_up, Attempt, attempt_cases, between, create_from, Created, create_or_get_pending, created,
  existing,
}
use peta_core.Approval.Create.Termination.{IsQuiet, quiet_between, quiet_run}
use peta_core.Approval.Service.{
  Checked, CreateInput, Engine, Surroundings, after_create, checked, create_below_limits,
  create_params, hash_is_full, hash_of, tool_is_full, window_start, check_hash_limit,
  check_or_create_approval, check_tool_limit, from_existing, hash_limited, tool_limited,
}
use peta_core.Json.{Value}

-- A count over columns that an expiry does not write.
module _ {J : Type 0} (q : Row J → Bool)
    (fixed : (r : Row J) (at : ℕ) → q (set_status expired at r) ≡ q r) where
  count-expire_hash :
      (h : String) (at : ℕ) (t : List (Row J)) → count q (expire_hash h at t) ≡ count q t
  unfolding count expire_hash update
  count-expire_hash h at [] = refl
  count-expire_hash h at (r ∷ t) = ground (arith, fixed r at, count-expire_hash h at t)

  count-insert-le : (t : List (Row J)) (r : Row J) → count q (t ++ r ∷ []) ≤ suc (count q t)
  unfolding count
  count-insert-le t r = rw (count-append q t (r ∷ [])) (ground arith)

  pub count-create_from-le :
      (w : ℕ → Attempt J) (p : CreateParams J) (n : ℕ) (t : List (Row J))
      → ((m : ℕ) → IsQuiet (w m))
      → count q (create_from w p n t).0 ≤ suc (count q t)
  unfolding create_from
  count-create_from-le w p zero t quiet =
      attempt_cases (λ o. count q o.0 ≤ suc (count q t)) (w 0) p (λ t'. (t', gave_up)) t
        (λ _. count-insert-le t _)
        (λ r _. omega (arith, ap (count q) (quiet_run (w 0).before_find t (quiet 0).0)))
        (λ _ _. omega (arith, ap (count q) (quiet_run (w 0).before_find t (quiet 0).0)))
  count-create_from-le w p (suc n) t quiet =
      let a = w (suc n) in
      let still = ap (count q) (quiet_run a.before_find t (quiet (suc n)).0) in
      let u = run a.before_find t in
      attempt_cases (λ o. count q o.0 ≤ suc (count q t)) a p
        (λ t'. create_from w p n (between a p t')) t (λ _. count-insert-le t _)
        (λ r _. omega (arith, still))
        (λ _ _. omega (
          arith,
          still,
          count-create_from-le w p n (between a p u) quiet,
          ap (count q) (quiet_between a p u (quiet (suc n)).1 (quiet (suc n)).2),
          count-expire_hash p.request_hash a.db_now u,
        ))

module _ {N : Type 0} (e : Engine N) where
  -- No other client runs a statement while the call waits.
  abbrev pub IsAlone : Surroundings (Value N) → Type 0
  IsAlone w =
      (w.before_count ≡ [])
      × (w.before_tool_count ≡ [])
      × (w.before_create ≡ [])
      × ((n : ℕ) → IsQuiet (w.attempts n))

  abbrev pub WithinLimits :
      CreateInput N → Surroundings (Value N) → List (Row (Value N)) × Checked (Value N) → Type 0
  WithinLimits i w (t, checked c) =
      (c.is_created ≡ false)
      ⊎ ((count_recent_creations_by_request_hash i.user_id (hash_of e i) (window_start e w) t ≤ 3)
          × (count_recent_creations_by_tool i.user_id i.server_id i.tool_name (window_start e w) t
              ≤ 10))
  WithinLimits i w (t, _) = Unit

  module _ (i : CreateInput N) (w : Surroundings (Value N)) (alone : IsAlone w) where
    after_create-WithinLimits :
        (o : List (Row (Value N)) × Created (Value N))
        → count_recent_creations_by_request_hash i.user_id (hash_of e i) (window_start e w) o.0 ≤ 3
        → count_recent_creations_by_tool i.user_id i.server_id i.tool_name (window_start e w) o.0
          ≤ 10
        → WithinLimits i w (after_create e (hash_of e i) o)
    after_create-WithinLimits (t, created r) h k = inr (h, k)
    after_create-WithinLimits (t, existing r) h k = inl refl
    after_create-WithinLimits (t, gave_up) h k = tt

    create_below_limits-WithinLimits :
        (t : List (Row (Value N)))
        → hash_is_full e i w t ≡ false
        → tool_is_full e i w t ≡ false
        → WithinLimits i w (create_below_limits e i w t)
    unfolding create_below_limits create_or_get_pending count_recent_creations_by_request_hash
        count_recent_creations_by_tool
    create_below_limits-WithinLimits t h k =
        let u = run w.before_create t in
        let same = quiet_run w.before_create t alone.2 in
        after_create-WithinLimits _
          (omega (
            tests,
            leb→lt _ _ h,
            ap (count_recent_creations_by_request_hash i.user_id (hash_of e i) (window_start e w))
                same,
            count-create_from-le
                (λ r.
                  r.user_id == i.user_id
                  && r.request_hash == hash_of e i
                  && leb (window_start e w) r.created_at)
                (λ r at. refl) w.attempts (create_params e i w.expiry_now) 3 u alone.3,
          ))
          (omega (
            tests,
            leb→lt _ _ k,
            ap (count_recent_creations_by_tool i.user_id i.server_id i.tool_name (window_start e w))
                same,
            count-create_from-le
                (λ r.
                  r.user_id == i.user_id
                  && r.tool_name == i.tool_name
                  && opt_beq r.server_id i.server_id
                  && leb (window_start e w) r.created_at)
                (λ r at. refl) w.attempts (create_params e i w.expiry_now) 3 u alone.3,
          ))

    check_tool_limit-WithinLimits :
        (t : List (Row (Value N)))
        → hash_is_full e i w t ≡ false
        → WithinLimits i w (check_tool_limit e i w t)
    unfolding check_tool_limit
    check_tool_limit-WithinLimits t h =
        if_cases (WithinLimits i w) (tool_is_full e i w t) (t, tool_limited)
          (create_below_limits e i w t) (λ _. tt) (λ k. create_below_limits-WithinLimits t h k)

    check_hash_limit-WithinLimits :
        (t : List (Row (Value N))) → WithinLimits i w (check_hash_limit e i w t)
    unfolding check_hash_limit
    check_hash_limit-WithinLimits t =
        if_cases (WithinLimits i w) (hash_is_full e i w t) (t, hash_limited)
          (check_tool_limit e i w (run w.before_tool_count t)) (λ _. tt)
          (λ h.
            check_tool_limit-WithinLimits (run w.before_tool_count t)
              (ap (hash_is_full e i w) (quiet_run w.before_tool_count t alone.1) ∙ h))

    from_existing-WithinLimits :
        (t : List (Row (Value N))) (o : Option (Row (Value N)))
        → WithinLimits i w (from_existing e i w t o)
    from_existing-WithinLimits t (some r) = inl refl
    from_existing-WithinLimits t none = check_hash_limit-WithinLimits (run w.before_count t)

  -- If no other client runs a statement while the call waits, a check that creates a request leaves
  -- at most three requests of this user for this hash, and at most ten for this tool, that were
  -- created within the last minute.
  pub check_or_create_approval-WithinLimits :
      (i : CreateInput N) (w : Surroundings (Value N)) (t : List (Row (Value N)))
      → IsAlone w
      → WithinLimits i w (check_or_create_approval e i w t)
  unfolding check_or_create_approval
  check_or_create_approval-WithinLimits i w t alone = from_existing-WithinLimits i w alone t _
