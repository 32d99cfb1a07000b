-- ===== src/Approval/Examples.antt =====
-- Runs of the approval requests at concrete inputs: repositories/ApprovalRepository.ts and
-- mcp/services/ApprovalService.ts.
use peta_core.Prelude.{
  ◌⊎◌, ℕ, String, string_eq, nat_eq, All, Bool, List, [], arith, count, eq_iff, false, inl, is_some,
  keep, none, refl, some, true, ◌==◌, ◌∷◌, ◌≡◌, ◌≢◌, ◌≤◌, if◌then◌else◌, Option,
}
use peta_core.Json.{Value, Fields, depth, end, field, null, num, obj, text}
use peta_core.Approval.Table.{Row, Actor, admin_api, approved, returning, socket, holds_hash}
use peta_core.Approval.Repository.{
  CreateParams, decide, approve, claim_approved_for_execution, claim_approved_for_execution_by_id,
  new_row, reject,
}
use peta_core.Approval.Statements.{Statement, claim, decision, execution, insertion, run}
use peta_core.Approval.Create.{Attempt, create_or_get_pending, gave_up}
use peta_core.Approval.Lifecycle.{Evolves-run, Evolves}
use peta_core.Approval.Uniqueness.{run-OneActive, OneActive}
use peta_core.Approval.Once.{claim_once, Avoids, concerns, decide_once, has_id}
use peta_core.Approval.Audit.{run-IsAudited, IsAudited}
use peta_core.Approval.Create.Answers.{create_or_get_pending-Answers, Answers}
use peta_core.Approval.Create.Atomic.{IsSettled, create_or_get_pending-IsSettled}
use peta_core.Approval.Create.Termination.{create_or_get_pending-ne-gave_up}
use peta_core.Approval.Service.{
  CreateInput, Engine, Surroundings, check_or_create_approval, hash_of,
}
use peta_core.Approval.Service.Checks.{check_or_create_approval-IsHonest, IsHonest}
use peta_core.Approval.Service.Limits.{check_or_create_approval-WithinLimits, WithinLimits}
use peta_core.Approval.Hasher.{compute_hash}
use peta_core.Approval.Hasher.Order.{code_order}
use peta_core.Approval.Hasher.Canonical.{compute_hash_same, fields_swap}
use peta_core.Approval.Redaction.Bounds.{IsClean, Stores, sanitize_execution_result-IsClean}
use peta_core.Approval.Redaction.{sanitize_execution_result}

abbrev params : CreateParams (Value ℕ)
params = record {
  user_id = "ann";
  server_id = some "s1";
  tool_name = "drop_table";
  canonical_args = null;
  redacted_args = null;
  policy_version = 1;
  request_hash = "h";
  expires_at = 600000;
  uniform_request_id = none;
}

abbrev waiting : Row (Value ℕ)
waiting = new_row params "r1" 1000

abbrev granted : Row (Value ℕ)
granted = record waiting {
  status = approved;
  decided_at = some 2000;
  decision_channel = some socket;
}

abbrev table : List (Row (Value ℕ))
table = waiting ∷ []

abbrev granted_table : List (Row (Value ℕ))
granted_table = granted ∷ []

abbrev boss : Actor
boss = record { actor_user_id = some "boss"; actor_role = some 1; channel = admin_api }

abbrev statements : List (Statement (Value ℕ))
statements =
    insertion params "r2" 3000
    ∷ decision "r1" approve boss none 4000
    ∷ claim "r1" 5000
    ∷ execution "r1" null 6000
    ∷ insertion params "r3" 7000
    ∷ []

at_most_one : (b : Bool) → (if b then 1 else 0) ≤ 1
at_most_one true = omega arith
at_most_one false = omega arith

one_active : OneActive table
unfolding count new_row
one_active h = at_most_one (holds_hash h waiting)

run-OneActive_example : OneActive (run statements table)
run-OneActive_example = run-OneActive statements table one_active

Evolves-run_example : Evolves table (run statements table)
Evolves-run_example = Evolves-run statements table

run-IsAudited_example : All IsAudited (run statements table)
unfolding new_row
run-IsAudited_example = run-IsAudited statements table (inl refl, tt)

one_r1 : count (has_id "r1") granted_table ≤ 1
unfolding count new_row
one_r1 = omega arith

claimed : is_some (claim_approved_for_execution_by_id "r1" 5000 granted_table).1 ≡ true
unfolding claim_approved_for_execution_by_id returning keep new_row
claimed = refl

avoids : All (Avoids "r1") statements
avoids = (
  (λ e. ground (arith, (eq_iff "r2" "r1").1 e)),
  (tt, (tt, (tt, ((λ e. ground (arith, (eq_iff "r3" "r1").1 e)), tt)))),
)

claim_once_example :
    ((claim_approved_for_execution_by_id "r1" 9000
        (run statements (claim_approved_for_execution_by_id "r1" 5000 granted_table).0)).1
      ≡ none)
    × (concerns "r1"
          (claim_approved_for_execution "h" 9000
            (run statements (claim_approved_for_execution_by_id "r1" 5000 granted_table).0)).1
        ≡ false)
claim_once_example = claim_once "r1" 5000 9000 "h" granted_table statements one_r1 claimed avoids

decided : is_some (decide "r1" approve boss none 4000 table).1 ≡ true
unfolding decide returning keep new_row
decided = refl

one : count (has_id "r1") table ≤ 1
unfolding count new_row
one = omega arith

decide_once_example :
    (decide "r1" reject boss none 9000
      (run statements (decide "r1" approve boss none 4000 table).0)).1
    ≡ none
decide_once_example =
    decide_once "r1" approve reject boss boss none none 4000 9000 table statements one decided
      avoids

abbrev attempts : ℕ → Attempt (Value ℕ)
attempts n = record {
  id = "r9";
  now = 700000;
  db_now = 700000;
  before_find = [];
  before_expire = [];
  before_retry = [];
}

create_or_get_pending-Answers_example :
    Answers attempts params (create_or_get_pending attempts params table)
create_or_get_pending-Answers_example = create_or_get_pending-Answers attempts params table

create_or_get_pending-ne-gave_up_example : (create_or_get_pending attempts params table).1 ≢ gave_up
create_or_get_pending-ne-gave_up_example =
    create_or_get_pending-ne-gave_up attempts params table (refl, refl, refl) (omega arith)

create_or_get_pending-IsSettled_example :
    IsSettled (attempts 3) (attempts 3) params table (create_or_get_pending attempts params table)
    ⊎ IsSettled (attempts 3) (attempts 2) params table (create_or_get_pending attempts params table)
create_or_get_pending-IsSettled_example =
    create_or_get_pending-IsSettled attempts params table (refl, refl, refl) (omega arith)

abbrev args : Fields ℕ
args = field "a" (num 1) (field "b" (text "x") end)

abbrev swapped : Fields ℕ
swapped = field "b" (text "x") (field "a" (num 1) end)

-- what `stringify` and `digest` are is left open by the model: here they keep the size of a value
abbrev brief : Value ℕ → List ℕ
brief v = depth v ∷ []

abbrev brief_text : Value ℕ → Option (List ℕ)
brief_text v = some (brief v)

abbrev same_digest : List ℕ → String
same_digest s = "h"

compute_hash_same_example :
    compute_hash code_order (λ n. n) brief same_digest "ann" (some "s1") "drop_table" args 1
    ≡ compute_hash code_order (λ n. n) brief same_digest "ann" (some "s1") "drop_table" swapped 1
compute_hash_same_example =
    compute_hash_same code_order (λ n. n) brief same_digest "ann" (some "s1") "drop_table" args
      swapped 1 (fields_swap (λ e. ground (arith, (eq_iff "a" "b").1 e)))

abbrev engine : Engine ℕ
engine = record {
  order = code_order;
  of_nat = λ n. n;
  stringify = brief;
  try_stringify = brief_text;
  digest = same_digest;
  sensitive = λ k. k == "token";
}

abbrev input : CreateInput ℕ
input = record {
  user_id = "ann";
  server_id = some "s1";
  tool_name = "drop_table";
  args = args;
  policy_version = 1;
  uniform_request_id = none;
  expires_in_ms = none;
}

abbrev surroundings : Surroundings (Value ℕ)
surroundings = record {
  find_now = 700000;
  window_now = 700000;
  expiry_now = 700000;
  before_count = [];
  before_tool_count = [];
  before_create = [];
  attempts = attempts;
}

check_or_create_approval-IsHonest_example :
    IsHonest engine
      (hash_of engine input)
      (check_or_create_approval engine input surroundings table)
check_or_create_approval-IsHonest_example =
    check_or_create_approval-IsHonest engine input surroundings table

check_or_create_approval-WithinLimits_example :
    WithinLimits engine input surroundings
      (check_or_create_approval engine input surroundings table)
check_or_create_approval-WithinLimits_example =
    check_or_create_approval-WithinLimits engine input surroundings table
      (refl, refl, refl, (λ n. (refl, refl, refl)))

abbrev secrets : String → Bool
secrets k = k == "token"

abbrev login : Value ℕ
login = obj (field "token" (text "t") end)

sanitize_execution_result-IsClean_example :
    IsClean secrets (sanitize_execution_result (λ n. n) brief_text secrets login)
    × Stores
        (λ n. n)
        brief_text
        secrets
        login
        (sanitize_execution_result (λ n. n) brief_text secrets login)
sanitize_execution_result-IsClean_example =
    sanitize_execution_result-IsClean (λ n. n) brief_text secrets login (refl, refl, refl, refl)
