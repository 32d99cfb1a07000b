-- ===== src/Approval/Audit.antt =====
-- The audit trail of repositories/ApprovalRepository.ts: the time and channel of a decision.
use peta_core.Prelude.{
  string_eq, All, All-append, Bool, Bool-cases, List, String, [], any, arith, false, inl, inr,
  is_some, refl, true, ℕ, ◌∷◌, ◌≡◌, ◌⊎◌,
}
use peta_core.Approval.Table.{Row, Status, expired, holds_hash, is_pending, pending, update}
use peta_core.Approval.Repository.{CreateParams, insert_pending, new_row}
use peta_core.Approval.Statements.{Statement, exec, run}
use peta_core.Approval.Lifecycle.{Legal, RowStep, approving, exec_cases, lapsing, rejecting, ◌⟶◌}

-- The statuses that a row can have with no decision.
abbrev pub is_undecided : Status → Bool
is_undecided pending = true
is_undecided expired = true
is_undecided _ = false

-- An edge that leaves a status other than `pending` leaves a decided one.
decided_before : {s u : Status} → s ⟶ u → is_pending s ≡ false → is_undecided s ≡ false
decided_before approving e = cc
decided_before rejecting e = cc
decided_before lapsing e = cc
decided_before _ e = refl

module _ {J : Type 0} where
  abbrev pub IsAudited : Row J → Type 0
  IsAudited r =
      (is_undecided r.status ≡ true)
      ⊎ ((is_some r.decided_at ≡ true) × (is_some r.decision_channel ≡ true))

  RowStep-IsAudited : (r r' : Row J) → RowStep r r' → IsAudited r → IsAudited r'
  RowStep-IsAudited r r' c h = elim c.recorded [
    | inl (_, at, channel) ↦ inr (at, channel)
    | inr (at, channel, other) ↦ ground (arith, decided_before c.edge)
  ]

  update-IsAudited :
      (q : Row J → Bool) (f : Row J → Row J) (t : List (Row J))
      → Legal q f
      → All IsAudited t
      → All IsAudited (update q f t)
  unfolding update
  update-IsAudited q f [] legal h = tt
  update-IsAudited q f (r ∷ t) legal h = elim (Bool-cases (q r)) [
    | inl e ↦ rw e (RowStep-IsAudited r (f r) (legal r e) h.0, update-IsAudited q f t legal h.1)
    | inr e ↦ rw e (h.0, update-IsAudited q f t legal h.1)
  ]

  insert_pending-IsAudited :
      (p : CreateParams J) (id : String) (now : ℕ) (t : List (Row J))
      → All IsAudited t
      → All IsAudited (insert_pending p id now t).0
  unfolding insert_pending new_row
  insert_pending-IsAudited p id now t h = elim (Bool-cases (any (holds_hash p.request_hash) t)) [
    | inl full ↦ rw full h
    | inr free ↦ rw free (All-append IsAudited t (new_row p id now ∷ []) h (inl refl, tt))
  ]

  -- Whatever statements the clients run, a request that is approved, rejected, executing, executed
  -- or failed carries the time of its decision and the channel by which it came, if so it was in the
  -- table that they start from: nothing is executed that nobody decided.
  pub run-IsAudited :
      (ss : List (Statement J)) (t : List (Row J)) → All IsAudited t → All IsAudited (run ss t)
  unfolding run
  run-IsAudited [] t h = h
  run-IsAudited (s ∷ ss) t h = run-IsAudited ss (exec s t) (
      exec_cases (All IsAudited) s t (λ p id now _. insert_pending-IsAudited p id now t h)
        (λ q f legal. update-IsAudited q f t legal h))
