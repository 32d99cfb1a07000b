-- ===== src/Approval/Repository.antt =====
-- repositories/ApprovalRepository.ts: the statements as functions of the table. A clock reading is
-- an argument of each: `now` where the source takes `new Date()`, `db_now` where it asks `NOW()`.
use peta_core.Prelude.{
  ℕ, String, Bool, ◌&&◌, Option, none, some, List, [], ◌∷◌, ◌++◌, ◌==◌, opt_beq, ltb, leb,
  if◌then◌else◌, keep, string_eq, any, count, true, ◌||◌,
}
use peta_core.Approval.Table.{
  Status, pending, approved, rejected, expired, executing, executed, failed, is_pending,
  is_approved, is_executing, is_active, Actor, Row, update, returning, first, latest, holds_hash,
  is_live, is_stale,
}

pub record CreateParams (J : Type 0) : Type 0 where
  pub user_id : String
  pub server_id : Option String
  pub tool_name : String
  pub canonical_args : J
  pub redacted_args : J
  pub policy_version : ℕ
  pub request_hash : String
  pub expires_at : ℕ
  pub uniform_request_id : Option String

pub data Decision : Type 0 where
  approve reject : Decision

abbrev pub decided_status : Decision → Status
decided_status approve = approved
decided_status reject = rejected

module _ {J : Type 0} where
  unfoldable pub new_row : CreateParams J → String → ℕ → Row J
  new_row p id now = record {
    id = id;
    user_id = p.user_id;
    server_id = p.server_id;
    tool_name = p.tool_name;
    canonical_args = p.canonical_args;
    redacted_args = p.redacted_args;
    policy_version = p.policy_version;
    request_hash = p.request_hash;
    status = pending;
    expires_at = p.expires_at;
    decided_at = none;
    decision_reason = none;
    decided_by_user_id = none;
    decided_by_role = none;
    decision_channel = none;
    executed_at = none;
    execution_error = none;
    execution_result = none;
    uniform_request_id = p.uniform_request_id;
    created_at = now;
    updated_at = now;
  }

  abbrev pub set_status : Status → ℕ → Row J → Row J
  set_status s at r = record r { status = s; updated_at = at }

  unfoldable pub find_active_by_request_hash : String → ℕ → List (Row J) → Option (Row J)
  unfolding keep latest
  find_active_by_request_hash h now t = latest (λ r. r.created_at) (keep (is_live h now) t)

  abbrev pub is_stale_with : String → ℕ → Row J → Bool
  is_stale_with h db_now r = r.request_hash == h && is_stale db_now r

  -- the statement between two attempts
  unfoldable pub expire_hash : String → ℕ → List (Row J) → List (Row J)
  unfolding update
  expire_hash h db_now t = update (is_stale_with h db_now) (set_status expired db_now) t

  -- `INSERT … ON CONFLICT (request_hash) WHERE status IN (…) DO NOTHING RETURNING *`
  unfoldable pub insert_pending :
      CreateParams J → String → ℕ → List (Row J) → List (Row J) × Option (Row J)
  unfolding new_row
  insert_pending p id now t =
      if any (holds_hash p.request_hash) t
      then (t, none)
      else (t ++ new_row p id now ∷ [], some (new_row p id now))

  abbrev pub can_decide : String → ℕ → Row J → Bool
  can_decide id now r = r.id == id && is_pending r.status && ltb now r.expires_at

  abbrev pub set_decision : Decision → Actor → Option String → ℕ → Row J → Row J
  set_decision d actor reason now r = record r {
    status = decided_status d;
    decided_at = some now;
    decision_reason = reason;
    decided_by_user_id = actor.actor_user_id;
    decided_by_role = actor.actor_role;
    decision_channel = some actor.channel;
    updated_at = now;
  }

  unfoldable pub decide :
      String → Decision → Actor → Option String → ℕ → List (Row J) → List (Row J) × Option (Row J)
  unfolding update returning
  decide id d actor reason now t = (
    update (can_decide id now) (set_decision d actor reason now) t,
    first (returning (can_decide id now) (set_decision d actor reason now) t),
  )

  abbrev pub can_claim_hash : String → ℕ → Row J → Bool
  can_claim_hash h db_now r = r.request_hash == h && is_approved r.status && ltb db_now r.expires_at

  unfoldable pub claim_approved_for_execution :
      String → ℕ → List (Row J) → List (Row J) × Option (Row J)
  unfolding update returning
  claim_approved_for_execution h db_now t = (
    update (can_claim_hash h db_now) (set_status executing db_now) t,
    first (returning (can_claim_hash h db_now) (set_status executing db_now) t),
  )

  abbrev pub can_claim : String → ℕ → Row J → Bool
  can_claim id db_now r = r.id == id && is_approved r.status && ltb db_now r.expires_at

  unfoldable pub claim_approved_for_execution_by_id :
      String → ℕ → List (Row J) → List (Row J) × Option (Row J)
  unfolding update returning
  claim_approved_for_execution_by_id id db_now t = (
    update (can_claim id db_now) (set_status executing db_now) t,
    first (returning (can_claim id db_now) (set_status executing db_now) t),
  )

  abbrev pub runs : String → Row J → Bool
  runs id r = r.id == id && is_executing r.status

  abbrev pub set_executed : J → ℕ → Row J → Row J
  set_executed result now r = record r {
    status = executed;
    executed_at = some now;
    execution_result = some result;
    updated_at = now;
  }

  unfoldable pub mark_executed : String → J → ℕ → List (Row J) → List (Row J) × Option (Row J)
  unfolding update returning
  mark_executed id result now t = (
    update (runs id) (set_executed result now) t,
    first (returning (runs id) (set_executed result now) t),
  )

  abbrev pub set_failed : String → ℕ → Row J → Row J
  set_failed error now r = record r {
    status = failed;
    execution_error = some error;
    updated_at = now;
  }

  unfoldable pub mark_failed : String → String → ℕ → List (Row J) → List (Row J) × Option (Row J)
  unfolding update returning
  mark_failed id error now t = (
    update (runs id) (set_failed error now) t,
    first (returning (runs id) (set_failed error now) t),
  )

  abbrev pub touched : ℕ → Row J → Row J
  touched db_now r = record r { updated_at = db_now }

  unfoldable pub touch_executing : String → ℕ → List (Row J) → List (Row J) × Option (Row J)
  unfolding update returning
  touch_executing id db_now t =
      (update (runs id) (touched db_now) t, first (returning (runs id) (touched db_now) t))

  unfoldable pub find_by_id : String → List (Row J) → Option (Row J)
  unfolding keep
  find_by_id id t = first (keep (λ r. r.id == id) t)

  unfoldable pub count_recent_creations_by_tool :
      String → Option String → String → ℕ → List (Row J) → ℕ
  unfolding count
  count_recent_creations_by_tool user server tool since t =
      count
        (λ r.
          r.user_id == user
          && r.tool_name == tool
          && opt_beq r.server_id server
          && leb since r.created_at)
        t

  unfoldable pub count_recent_creations_by_request_hash : String → String → ℕ → List (Row J) → ℕ
  unfolding count
  count_recent_creations_by_request_hash user h since t =
      count (λ r. r.user_id == user && r.request_hash == h && leb since r.created_at) t

  -- `if (userId) where.userId = userId`: an empty id filters nothing
  abbrev pub for_user : Option String → Row J → Bool
  for_user none r = true
  for_user (some u) r = u == "" || r.user_id == u

  unfoldable pub count_pending : Option String → ℕ → List (Row J) → ℕ
  unfolding count
  count_pending user now t =
      count (λ r. is_pending r.status && ltb now r.expires_at && for_user user r) t

  unfoldable pub expire_stale : ℕ → List (Row J) → List (Row J) × List (Row J)
  unfolding update returning
  expire_stale db_now t = (
    update (is_stale db_now) (set_status expired db_now) t,
    returning (is_stale db_now) (set_status expired db_now) t,
  )

  abbrev pub is_abandoned : ℕ → Row J → Bool
  is_abandoned stale_before r = is_executing r.status && leb r.updated_at stale_before

  abbrev pub set_recovered : ℕ → Row J → Row J
  set_recovered = set_failed "Stale EXECUTING approval recovered by sweeper timeout"

  unfoldable pub recover_stale_executing : ℕ → ℕ → List (Row J) → List (Row J) × List (Row J)
  unfolding update returning
  recover_stale_executing stale_before db_now t = (
    update (is_abandoned stale_before) (set_recovered db_now) t,
    returning (is_abandoned stale_before) (set_recovered db_now) t,
  )

  abbrev pub is_active_at : String → Row J → Bool
  is_active_at id r = r.id == id && is_active r.status

  unfoldable pub force_expire : String → ℕ → List (Row J) → List (Row J)
  unfolding update
  force_expire id db_now t = update (is_active_at id) (set_status expired db_now) t
