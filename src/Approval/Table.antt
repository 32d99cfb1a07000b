-- ===== src/Approval/Table.antt =====
-- repositories/ApprovalRepository.ts, types/enums.ts: the rows of `approval_request`, and the SQL
-- forms that the statements are made of. Times are milliseconds; JSON values are of any type `J`.
use peta_core.Prelude.{
  ℕ, String, Bool, true, false, ◌&&◌, ◌||◌, Option, none, some, List, [], ◌∷◌, map, ◌==◌, ltb, leb,
  if◌then◌else◌, keep, string_eq,
}

pub data Status : Type 0 where
  pending approved rejected expired executing executed failed : Status

abbrev pub is_pending : Status → Bool
is_pending pending = true
is_pending _ = false

abbrev pub is_approved : Status → Bool
is_approved approved = true
is_approved _ = false

abbrev pub is_executing : Status → Bool
is_executing executing = true
is_executing _ = false

-- `status IN ('PENDING', 'APPROVED')`
abbrev pub is_open : Status → Bool
is_open s = is_pending s || is_approved s

-- `status IN ('PENDING', 'APPROVED', 'EXECUTING')`, the condition of the partial unique index
abbrev pub is_active : Status → Bool
is_active s = is_open s || is_executing s

pub data Channel : Type 0 where
  admin_api socket : Channel

pub record Actor : Type 0 where
  pub actor_user_id : Option String
  pub actor_role : Option ℕ
  pub channel : Channel

pub record Row (J : Type 0) : Type 0 where
  pub id : String
  pub user_id : String
  pub server_id : Option String
  pub tool_name : String
  pub canonical_args : J
  pub redacted_args : J
  pub policy_version : ℕ
  pub request_hash : String
  pub status : Status
  pub expires_at : ℕ
  pub decided_at : Option ℕ
  pub decision_reason : Option String
  pub decided_by_user_id : Option String
  pub decided_by_role : Option ℕ
  pub decision_channel : Option Channel
  pub executed_at : Option ℕ
  pub execution_error : Option String
  pub execution_result : Option J
  pub uniform_request_id : Option String
  pub created_at : ℕ
  pub updated_at : ℕ

module _ {A : Type 0} where
  -- `UPDATE … SET f WHERE p`
  unfoldable pub update : (A → Bool) → (A → A) → List A → List A
  update p f [] = []
  update p f (r ∷ t) = (if p r then f r else r) ∷ update p f t

  -- the rows of its `RETURNING *`
  unfoldable pub returning : (A → Bool) → (A → A) → List A → List A
  unfolding keep
  returning p f t = map f (keep p t)

  abbrev pub first : List A → Option A
  first [] = none
  first (r ∷ t) = some r

  -- `findFirst` with `orderBy: { createdAt: 'desc' }`; of rows created at one time, the first
  unfoldable pub latest : (A → ℕ) → List A → Option A
  latest key [] = none
  latest key (r ∷ t) = elim (latest key t) [
    | none ↦ some r
    | some s ↦ if ltb (key r) (key s) then some s else some r
  ]

module _ {J : Type 0} where
  -- the row that blocks an insertion: the partial unique index on `request_hash`
  abbrev pub holds_hash : String → Row J → Bool
  holds_hash h r = r.request_hash == h && is_active r.status

  -- the `where` of `findActiveByRequestHash`
  abbrev pub is_live : String → ℕ → Row J → Bool
  is_live h now r =
      r.request_hash == h && ((is_open r.status && ltb now r.expires_at) || is_executing r.status)

  -- the `where` of the statements that expire rows: still open, and `expires_at <= NOW()`
  abbrev pub is_stale : ℕ → Row J → Bool
  is_stale now r = is_open r.status && leb r.expires_at now
