-- ===== src/Approval/Service/Checks.antt =====
-- mcp/services/ApprovalService.ts, `checkOrCreateApproval`: its answers.
use mathlib.Core.List.{Memᴰ}
use peta_core.Prelude.{
  string_eq, List, String, arith, eq_iff, false, inl, not, refl, true, ℕ, ◌≡◌, ◌⊎◌, Option,
  if_cases, none, some,
}
use peta_core.Json.{Value}
use peta_core.Approval.Table.{Row, is_active, is_approved, pending}
use peta_core.Approval.Repository.{CreateParams, new_row, find_active_by_request_hash}
use peta_core.Approval.Create.{Created, created, existing, gave_up, Attempt, found}
use peta_core.Approval.Create.Answers.{Answers, create_or_get_pending-Answers, find_active_sound}
use peta_core.Approval.Service.{
  checked, Checked, CreateInput, Engine, Surroundings, after_create, create_params, hash_of,
  check_or_create_approval, from_existing, check_hash_limit, check_tool_limit, create_below_limits,
  hash_is_full, hash_limited, tool_is_full, tool_limited,
}
use peta_core.Approval.Statements.{run}

module _ {N : Type 0} (e : Engine N) where
  -- What a result says of the table that the call leaves.
  abbrev pub IsHonest : String → List (Row (Value N)) × Checked (Value N) → Type 0
  IsHonest h (t, checked c) =
      Memᴰ c.request t
      × (c.request_hash ≡ h)
      × (c.request.request_hash ≡ h)
      × (c.needs_approval ≡ not (is_approved c.request.status))
      × (is_active c.request.status ≡ true)
      × ((c.is_created ≡ false) ⊎ (c.request.status ≡ pending))
  IsHonest h (t, _) = Unit

  after_create-IsHonest :
      (w : ℕ → Attempt (Value N)) (p : CreateParams (Value N))
      (o : List (Row (Value N)) × Created (Value N))
      → Answers w p o
      → IsHonest p.request_hash (after_create e p.request_hash o)
  unfolding new_row
  after_create-IsHonest w p (t, created r) (m, (n, same)) =
      (m, refl, ground arith, ground arith, ground arith, ground arith)
  after_create-IsHonest w p (t, existing r) (m, (n, live)) =
      (m, refl, ground (arith, eq_iff r.request_hash p.request_hash), refl, ground arith, inl refl)
  after_create-IsHonest w p (t, gave_up) h = tt

  module _ (i : CreateInput N) (w : Surroundings (Value N)) where
    create_below_limits-IsHonest :
        (t : List (Row (Value N))) → IsHonest (hash_of e i) (create_below_limits e i w t)
    unfolding create_below_limits create_params
    create_below_limits-IsHonest t =
        after_create-IsHonest w.attempts (create_params e i w.expiry_now) _ (
          create_or_get_pending-Answers w.attempts (create_params e i w.expiry_now)
            (run w.before_create t))

    check_tool_limit-IsHonest :
        (t : List (Row (Value N))) → IsHonest (hash_of e i) (check_tool_limit e i w t)
    unfolding check_tool_limit
    check_tool_limit-IsHonest t =
        if_cases (IsHonest (hash_of e i)) (tool_is_full e i w t) (t, tool_limited)
          (create_below_limits e i w t) (λ _. tt) (λ _. create_below_limits-IsHonest t)

    check_hash_limit-IsHonest :
        (t : List (Row (Value N))) → IsHonest (hash_of e i) (check_hash_limit e i w t)
    unfolding check_hash_limit
    check_hash_limit-IsHonest t =
        if_cases (IsHonest (hash_of e i)) (hash_is_full e i w t) (t, hash_limited)
          (check_tool_limit e i w (run w.before_tool_count t)) (λ _. tt)
          (λ _. check_tool_limit-IsHonest (run w.before_tool_count t))

  from_existing-IsHonest :
      (i : CreateInput N) (w : Surroundings (Value N)) (t : List (Row (Value N)))
      (o : Option (Row (Value N)))
      → find_active_by_request_hash (hash_of e i) w.find_now t ≡ o
      → IsHonest (hash_of e i) (from_existing e i w t o)
  from_existing-IsHonest i w t none found = check_hash_limit-IsHonest i w (run w.before_count t)
  from_existing-IsHonest i w t (some r) found =
      let (m, live) = find_active_sound (hash_of e i) w.find_now t r found in
      (m, refl, ground (arith, eq_iff r.request_hash (hash_of e i)), refl, ground arith, inl refl)

  -- Whatever other clients do while it waits, a check that is neither limited nor given up
  -- answers with a row that is in the table, has the hash of this very call and is pending,
  -- approved or executing; the call may go on without approval exactly if that row is approved;
  -- and a row that the check created is pending.
  pub check_or_create_approval-IsHonest :
      (i : CreateInput N) (w : Surroundings (Value N)) (t : List (Row (Value N)))
      → IsHonest (hash_of e i) (check_or_create_approval e i w t)
  unfolding check_or_create_approval
  check_or_create_approval-IsHonest i w t = from_existing-IsHonest i w t _ refl
