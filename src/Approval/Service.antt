-- ===== src/Approval/Service.antt =====
-- mcp/services/ApprovalService.ts: what the gateway calls. Each call takes the clock readings and
-- the statements that other clients run while it waits.
pub mod Checks
pub mod Limits
use peta_core.Prelude.{
  string_eq, Bool, List, Option, String, false, get_or, if◌then◌else◌, is_some, leb, none, not,
  some, true, ℕ, ◌+◌, ◌-◌,
}
use peta_core.Json.{Value, Fields, obj}
use peta_core.Approval.Table.{Row, Status, executed, failed, is_approved}
use peta_core.Approval.Repository.{
  CreateParams, claim_approved_for_execution, claim_approved_for_execution_by_id,
  count_recent_creations_by_request_hash, count_recent_creations_by_tool,
  find_active_by_request_hash, find_by_id, mark_executed, recover_stale_executing,
}
use peta_core.Approval.Statements.{Statement, run}
use peta_core.Approval.Create.{Created, created, existing, gave_up, Attempt, create_or_get_pending}
use peta_core.Approval.Hasher.{KeyOrder, compute_hash, sort_keys}
use peta_core.Approval.Redaction.{redact_args, sanitize_execution_result}

abbrev pub default_expiry_ms : ℕ
default_expiry_ms = 600000

abbrev pub create_rate_limit_count : ℕ
create_rate_limit_count = 10

abbrev pub create_rate_limit_window_ms : ℕ
create_rate_limit_window_ms = 60000

abbrev pub create_rate_limit_per_hash_count : ℕ
create_rate_limit_per_hash_count = 3

abbrev pub executing_stale_timeout_ms : ℕ
executing_stale_timeout_ms = 600000

pub record CreateInput (N : Type 0) : Type 0 where
  pub user_id : String
  pub server_id : Option String
  pub tool_name : String
  pub args : Fields N
  pub policy_version : ℕ
  pub uniform_request_id : Option String
  pub expires_in_ms : Option ℕ

pub record CheckResult (J : Type 0) : Type 0 where
  pub needs_approval : Bool
  pub is_created : Bool
  pub request : Row J
  pub request_hash : String

pub data Checked (J : Type 0) : Type 0 where
  checked : CheckResult J → Checked J
  hash_limited : Checked J
  tool_limited : Checked J
  create_failed : Checked J

-- What `checkOrCreateApproval` takes from its surroundings, in the order of its waits.
pub record Surroundings (J : Type 0) : Type 0 where
  pub find_now : ℕ
  pub window_now : ℕ
  pub expiry_now : ℕ
  pub before_count : List (Statement J)
  pub before_tool_count : List (Statement J)
  pub before_create : List (Statement J)
  pub attempts : ℕ → Attempt J

-- The JavaScript engine and the crypto library. `stringify` is `JSON.stringify` on arguments, which
-- came as JSON; `try_stringify` is it on what a tool returned, none where it throws.
pub record Engine (N : Type 0) : Type 0 where
  pub order : KeyOrder
  pub of_nat : ℕ → N
  pub stringify : Value N → List ℕ
  pub try_stringify : Value N → Option (List ℕ)
  pub digest : List ℕ → String
  pub sensitive : String → Bool

module _ {N : Type 0} (e : Engine N) where
  abbrev pub hash_of : CreateInput N → String
  hash_of i =
      compute_hash e.order e.of_nat e.stringify e.digest i.user_id i.server_id i.tool_name i.args
        i.policy_version

  -- `JSON.parse(JSON.stringify(v))` gives `v` back
  unfoldable pub create_params : CreateInput N → ℕ → CreateParams (Value N)
  create_params i now = record {
    user_id = i.user_id;
    server_id = i.server_id;
    tool_name = i.tool_name;
    canonical_args = sort_keys e.order (obj i.args);
    redacted_args = obj (redact_args i.args 0);
    policy_version = i.policy_version;
    request_hash = hash_of i;
    expires_at = now + get_or i.expires_in_ms default_expiry_ms;
    uniform_request_id = i.uniform_request_id;
  }

  abbrev pub result : Bool → Bool → Row (Value N) → String → Checked (Value N)
  result needs made r h =
      checked (record { needs_approval = needs; is_created = made; request = r; request_hash = h })

  -- from the answer of `createOrGetPending`
  abbrev pub after_create :
      String → List (Row (Value N)) × Created (Value N) → List (Row (Value N)) × Checked (Value N)
  after_create h (t, created r) = (t, result true true r h)
  after_create h (t, existing r) = (t, result (not (is_approved r.status)) false r h)
  after_create h (t, gave_up) = (t, create_failed)

  abbrev pub window_start : Surroundings (Value N) → ℕ
  window_start w = w.window_now - create_rate_limit_window_ms

  abbrev pub hash_is_full : CreateInput N → Surroundings (Value N) → List (Row (Value N)) → Bool
  hash_is_full i w t =
      leb create_rate_limit_per_hash_count
        (count_recent_creations_by_request_hash i.user_id (hash_of i) (window_start w) t)

  abbrev pub tool_is_full : CreateInput N → Surroundings (Value N) → List (Row (Value N)) → Bool
  tool_is_full i w t =
      leb create_rate_limit_count
        (count_recent_creations_by_tool i.user_id i.server_id i.tool_name (window_start w) t)

  unfoldable pub create_below_limits :
      CreateInput N
      → Surroundings (Value N)
      → List (Row (Value N))
      → List (Row (Value N)) × Checked (Value N)
  create_below_limits i w t =
      after_create (hash_of i)
        (create_or_get_pending w.attempts (create_params i w.expiry_now) (run w.before_create t))

  unfoldable pub check_tool_limit :
      CreateInput N
      → Surroundings (Value N)
      → List (Row (Value N))
      → List (Row (Value N)) × Checked (Value N)
  check_tool_limit i w t =
      if tool_is_full i w t then (t, tool_limited) else create_below_limits i w t

  unfoldable pub check_hash_limit :
      CreateInput N
      → Surroundings (Value N)
      → List (Row (Value N))
      → List (Row (Value N)) × Checked (Value N)
  check_hash_limit i w t =
      if hash_is_full i w t
      then (t, hash_limited)
      else check_tool_limit i w (run w.before_tool_count t)

  abbrev pub from_existing :
      CreateInput N
      → Surroundings (Value N)
      → List (Row (Value N))
      → Option (Row (Value N))
      → List (Row (Value N)) × Checked (Value N)
  from_existing i w t (some r) = (t, result (not (is_approved r.status)) false r (hash_of i))
  from_existing i w t none = check_hash_limit i w (run w.before_count t)

  unfoldable pub check_or_create_approval :
      CreateInput N
      → Surroundings (Value N)
      → List (Row (Value N))
      → List (Row (Value N)) × Checked (Value N)
  check_or_create_approval i w t =
      from_existing i w t (find_active_by_request_hash (hash_of i) w.find_now t)

  unfoldable pub service_mark_executed :
      String → Value N → ℕ → List (Row (Value N)) → List (Row (Value N)) × Option (Row (Value N))
  service_mark_executed id v now t =
      mark_executed id (sanitize_execution_result e.of_nat e.try_stringify e.sensitive v) now t

abbrev is_done : Status → Bool
is_done executed = true
is_done failed = true
is_done _ = false

module _ {J : Type 0} where
  -- `claimForExecution` and `claimForExecutionById`: whether the claim was won, and the row
  unfoldable pub claim_for_execution :
      String → ℕ → List (Row J) → List (Row J) × Bool × Option (Row J)
  claim_for_execution h db_now t =
      let (t', r) = claim_approved_for_execution h db_now t in (t', is_some r, r)

  unfoldable pub claim_for_execution_by_id :
      String → ℕ → List (Row J) → List (Row J) × Bool × Option (Row J)
  claim_for_execution_by_id id db_now t =
      let (t', r) = claim_approved_for_execution_by_id id db_now t in (t', is_some r, r)

  abbrev if_done : Option (Row J) → Option (Row J)
  if_done none = none
  if_done (some r) = if is_done r.status then some r else none

  unfoldable pub get_result_by_id : String → List (Row J) → Option (Row J)
  get_result_by_id id t = if_done (find_by_id id t)

  unfoldable pub recover_stale : ℕ → ℕ → List (Row J) → List (Row J) × List (Row J)
  recover_stale now db_now t = recover_stale_executing (now - executing_stale_timeout_ms) db_now t
