-- ===== src/Approval/Statements.antt =====
-- repositories/ApprovalRepository.ts: every statement that writes `approval_request`, as a value.
-- A statement is atomic in the database, so a list of them is an interleaving of all clients.
use peta_core.Prelude.{String, Option, List, [], ◌∷◌, refl, ℕ, ◌++◌, ◌≡◌}
use peta_core.Approval.Table.{Actor, Row}
use peta_core.Approval.Repository.{
  CreateParams, Decision, claim_approved_for_execution, claim_approved_for_execution_by_id, decide,
  expire_hash, expire_stale, force_expire, insert_pending, mark_executed, mark_failed,
  recover_stale_executing, touch_executing,
}

pub data Statement (J : Type 0) : Type 0 where
  insertion : CreateParams J → String → ℕ → Statement J
  hash_expiry : String → ℕ → Statement J
  decision : String → Decision → Actor → Option String → ℕ → Statement J
  hash_claim : String → ℕ → Statement J
  claim : String → ℕ → Statement J
  execution : String → J → ℕ → Statement J
  failure : String → String → ℕ → Statement J
  touch : String → ℕ → Statement J
  expiry : ℕ → Statement J
  recovery : ℕ → ℕ → Statement J
  forced_expiry : String → ℕ → Statement J

module _ {J : Type 0} where
  unfoldable pub exec : Statement J → List (Row J) → List (Row J)
  exec (insertion p id now) t = (insert_pending p id now t).0
  exec (hash_expiry h db_now) t = expire_hash h db_now t
  exec (decision id d actor reason now) t = (decide id d actor reason now t).0
  exec (hash_claim h db_now) t = (claim_approved_for_execution h db_now t).0
  exec (claim id db_now) t = (claim_approved_for_execution_by_id id db_now t).0
  exec (execution id result now) t = (mark_executed id result now t).0
  exec (failure id error now) t = (mark_failed id error now t).0
  exec (touch id db_now) t = (touch_executing id db_now t).0
  exec (expiry db_now) t = (expire_stale db_now t).0
  exec (recovery stale_before db_now) t = (recover_stale_executing stale_before db_now t).0
  exec (forced_expiry id db_now) t = force_expire id db_now t

  unfoldable pub run : List (Statement J) → List (Row J) → List (Row J)
  run [] t = t
  run (s ∷ ss) t = run ss (exec s t)

  pub run-append :
      (ss us : List (Statement J)) (t : List (Row J)) → run (ss ++ us) t ≡ run us (run ss t)
  unfolding run
  run-append [] us t = refl
  run-append (s ∷ ss) us t = run-append ss us (exec s t)
