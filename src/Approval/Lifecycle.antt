-- ===== src/Approval/Lifecycle.antt =====
-- The life of a row of `approval_request`: the edges between statuses, and the paths along which the
-- statements of repositories/ApprovalRepository.ts take a row.
use peta_core.Prelude.{
  string_eq, Bool, List, String, arith, is_some, refl, true, ℕ, ◌≡◌, ◌⊎◌, Bool-cases, [], any,
  false, inl, inr, ◌++◌, ◌∙◌, ◌∷◌,
}
use peta_core.Approval.Table.{
  Row, Status, approved, executed, executing, expired, failed, pending, rejected, update, is_stale,
  holds_hash, is_pending,
}
use peta_core.Approval.Repository.{
  CreateParams, approve, claim_approved_for_execution, claim_approved_for_execution_by_id, decide,
  expire_hash, expire_stale, force_expire, insert_pending, mark_executed, mark_failed,
  recover_stale_executing, reject, touch_executing, can_claim, can_claim_hash, can_decide,
  is_abandoned, is_active_at, is_stale_with, runs, set_decision, set_executed, set_failed,
  set_recovered, set_status, touched,
}
use peta_core.Approval.Statements.{
  Statement, claim, decision, exec, execution, expiry, failure, forced_expiry, hash_claim,
  hash_expiry, insertion, recovery, touch, run,
}

infix 40 ◌⟶◌ ◌⟶*◌
pub data ◌⟶◌ : Status → Status → Type 0 where
  approving : pending ⟶ approved
  rejecting : pending ⟶ rejected
  lapsing : pending ⟶ expired
  lapsing_late : approved ⟶ expired
  claiming : approved ⟶ executing
  working : executing ⟶ executing
  finishing : executing ⟶ executed
  failing : executing ⟶ failed
  aborting : executing ⟶ expired

pub data ◌⟶*◌ : Status → Status → Type 0 where
  here : {s : Status} → s ⟶* s
  then : {s t u : Status} → s ⟶ t → t ⟶* u → s ⟶* u

pub ⟶*_trans : {s t u : Status} → s ⟶* t → t ⟶* u → s ⟶* u
⟶*_trans here q = q
⟶*_trans (then e p) q = then e (⟶*_trans p q)

ruleset edges =
    (approving, rejecting, lapsing, lapsing_late, claiming, working, finishing, failing, aborting)

-- What one statement may do to a row that it selects. The columns that a request is made with stay,
-- and a row leaves `pending` for anything but `expired` only with a decision on record.
pub record RowStep {J : Type 0} (r r' : Row J) : Type 0 where
  pub same_id : r'.id ≡ r.id
  pub same_user : r'.user_id ≡ r.user_id
  pub same_server : r'.server_id ≡ r.server_id
  pub same_tool : r'.tool_name ≡ r.tool_name
  pub same_args : r'.canonical_args ≡ r.canonical_args
  pub same_hash : r'.request_hash ≡ r.request_hash
  pub same_creation : r'.created_at ≡ r.created_at
  pub edge : r.status ⟶ r'.status
  pub recorded :
      (is_pending r.status ≡ true)
        × (is_some r'.decided_at ≡ true)
        × (is_some r'.decision_channel ≡ true)
      ⊎ (r'.decided_at ≡ r.decided_at)
        × (r'.decision_channel ≡ r.decision_channel)
        × ((is_pending r.status ≡ false) ⊎ (r'.status ≡ expired))

module _ {J : Type 0} where
  abbrev pub Legal : (Row J → Bool) → (Row J → Row J) → Type 0
  Legal q f = (r : Row J) → q r ≡ true → RowStep r (f r)

  -- The one case analysis over the statements.
  pub exec_cases {ℓ} :
      (P : List (Row J) → Type ℓ) (s : Statement J) (t : List (Row J))
      → ((p : CreateParams J) (id : String) (now : ℕ)
          → s ≡ insertion p id now
          → P (insert_pending p id now t).0)
      → ((q : Row J → Bool) (f : Row J → Row J) → Legal q f → P (update q f t))
      → P (exec s t)
  unfolding exec expire_hash decide claim_approved_for_execution claim_approved_for_execution_by_id
      mark_executed mark_failed touch_executing expire_stale recover_stale_executing force_expire
  exec_cases P (insertion p id now) t new old = new p id now refl
  exec_cases P (hash_expiry h at) t new old =
      old (is_stale_with h at) (set_status expired at) (λ r e. grind (arith, edges))
  exec_cases P (decision id approve actor reason at) t new old =
      old (can_decide id at) (set_decision approve actor reason at) (λ r e. grind (arith, edges))
  exec_cases P (decision id reject actor reason at) t new old =
      old (can_decide id at) (set_decision reject actor reason at) (λ r e. grind (arith, edges))
  exec_cases P (hash_claim h at) t new old =
      old (can_claim_hash h at) (set_status executing at) (λ r e. grind (arith, edges))
  exec_cases P (claim id at) t new old =
      old (can_claim id at) (set_status executing at) (λ r e. grind (arith, edges))
  exec_cases P (execution id result at) t new old =
      old (runs id) (set_executed result at) (λ r e. grind (arith, edges))
  exec_cases P (failure id error at) t new old =
      old (runs id) (set_failed error at) (λ r e. grind (arith, edges))
  exec_cases P (touch id at) t new old = old (runs id) (touched at) (λ r e. grind (arith, edges))
  exec_cases P (expiry at) t new old =
      old (is_stale at) (set_status expired at) (λ r e. grind (arith, edges))
  exec_cases P (recovery stale at) t new old =
      old (is_abandoned stale) (set_recovered at) (λ r e. grind (arith, edges))
  exec_cases P (forced_expiry id at) t new old =
      old (is_active_at id) (set_status expired at) (λ r e. grind (arith, edges))

  -- What a run makes of a table: each row stays in its place with its columns and a status further
  -- along the diagram, and new rows stand behind the old ones.
  pub record Kept (r r' : Row J) : Type 0 where
    pub same_id : r'.id ≡ r.id
    pub same_user : r'.user_id ≡ r.user_id
    pub same_server : r'.server_id ≡ r.server_id
    pub same_tool : r'.tool_name ≡ r.tool_name
    pub same_args : r'.canonical_args ≡ r.canonical_args
    pub same_hash : r'.request_hash ≡ r.request_hash
    pub path : r.status ⟶* r'.status

  abbrev pub Evolves : List (Row J) → List (Row J) → Type 0
  Evolves [] t' = Unit
  Evolves (r ∷ t) [] = ⊥
  Evolves (r ∷ t) (r' ∷ t') = Kept r r' × Evolves t t'

  Kept-refl : (r : Row J) → Kept r r
  Kept-refl r = record {
    same_id = refl;
    same_user = refl;
    same_server = refl;
    same_tool = refl;
    same_args = refl;
    same_hash = refl;
    path = here;
  }

  Kept-trans : {r s u : Row J} → Kept r s → Kept s u → Kept r u
  Kept-trans h k = record {
    same_id = k.same_id ∙ h.same_id;
    same_user = k.same_user ∙ h.same_user;
    same_server = k.same_server ∙ h.same_server;
    same_tool = k.same_tool ∙ h.same_tool;
    same_args = k.same_args ∙ h.same_args;
    same_hash = k.same_hash ∙ h.same_hash;
    path = ⟶*_trans h.path k.path;
  }

  Kept-of_RowStep : {r s : Row J} → RowStep r s → Kept r s
  Kept-of_RowStep c = record {
    same_id = c.same_id;
    same_user = c.same_user;
    same_server = c.same_server;
    same_tool = c.same_tool;
    same_args = c.same_args;
    same_hash = c.same_hash;
    path = then c.edge here;
  }

  Evolves-append : (t new : List (Row J)) → Evolves t (t ++ new)
  Evolves-append [] new = tt
  Evolves-append (r ∷ t) new = (Kept-refl r, Evolves-append t new)

  Evolves-refl : (t : List (Row J)) → Evolves t t
  Evolves-refl [] = tt
  Evolves-refl (r ∷ t) = (Kept-refl r, Evolves-refl t)

  Evolves-trans : (t u v : List (Row J)) → Evolves t u → Evolves u v → Evolves t v
  Evolves-trans [] u v h k = tt
  Evolves-trans (r ∷ t) [] v h k = absurd h
  Evolves-trans (r ∷ t) (s ∷ u) [] h k = absurd k
  Evolves-trans (r ∷ t) (s ∷ u) (w ∷ v) h k = (Kept-trans h.0 k.0, Evolves-trans t u v h.1 k.1)

  Evolves-update :
      (q : Row J → Bool) (f : Row J → Row J) (t : List (Row J))
      → Legal q f
      → Evolves t (update q f t)
  unfolding update
  Evolves-update q f [] legal = tt
  Evolves-update q f (r ∷ t) legal = elim (Bool-cases (q r)) [
    | inl e ↦ rw e (Kept-of_RowStep (legal r e), Evolves-update q f t legal)
    | inr e ↦ rw e (Kept-refl r, Evolves-update q f t legal)
  ]

  Evolves-insert_pending :
      (p : CreateParams J) (id : String) (now : ℕ) (t : List (Row J))
      → Evolves t (insert_pending p id now t).0
  unfolding insert_pending
  Evolves-insert_pending p id now t = elim (Bool-cases (any (holds_hash p.request_hash) t)) [
    | inl full ↦ rw full (Evolves-refl t)
    | inr free ↦ rw free (Evolves-append t _)
  ]

  Evolves-exec : (s : Statement J) (t : List (Row J)) → Evolves t (exec s t)
  Evolves-exec s t =
      exec_cases (Evolves t) s t (λ p id now _. Evolves-insert_pending p id now t)
        (λ q f legal. Evolves-update q f t legal)

  -- Under any statements in any order, every row keeps its identity, its request and its hash, and
  -- its status only moves along the diagram. In particular a rejected, expired, executed or failed
  -- request never changes its status again.
  pub Evolves-run : (ss : List (Statement J)) (t : List (Row J)) → Evolves t (run ss t)
  unfolding run
  Evolves-run [] t = Evolves-refl t
  Evolves-run (s ∷ ss) t =
      Evolves-trans t (exec s t) (run ss (exec s t)) (Evolves-exec s t) (Evolves-run ss (exec s t))

abbrev pub is_final : Status → Bool
is_final rejected = true
is_final expired = true
is_final executed = true
is_final failed = true
is_final _ = false

not-final_of_edge : {s u : Status} → s ⟶ u → is_final s ≡ false
not-final_of_edge approving = refl
not-final_of_edge rejecting = refl
not-final_of_edge _ = refl

-- A final status is the end of every path.
pub final_path : {s u : Status} → s ⟶* u → is_final s ≡ true → u ≡ s
final_path here e = refl
final_path (then c p) e = ground (arith, not-final_of_edge c)
