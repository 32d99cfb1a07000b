-- ===== src/Approval/Uniqueness.antt =====
-- The partial unique index on `request_hash`, among the statements of
-- repositories/ApprovalRepository.ts.
use peta_core.Prelude.{
  string_eq, ℕ, String, List, [], ◌∷◌, Bool, Bool-cases, any, arith, count, count-append, false,
  inl, inr, refl, true, ◌≡◌, ◌≤◌, ap, ◌==◌, eq_iff, le_trans,
}
use peta_core.Approval.Table.{Row, update, holds_hash, Status, is_active}
use peta_core.Approval.Statements.{Statement, exec, run}
use peta_core.Approval.Repository.{CreateParams, insert_pending, new_row}
use peta_core.Approval.Lifecycle.{RowStep, approving, claiming, exec_cases, working, ◌⟶◌}

module _ {A : Type 0} where
  -- An update that makes no row pass a test raises no count.
  pub count-update-le :
      (q p : A → Bool) (f : A → A) (t : List A)
      → ((r : A) → p r ≡ true → q (f r) ≡ true → q r ≡ true)
      → count q (update p f t) ≤ count q t
  unfolding count update
  count-update-le q p f [] h = omega arith
  count-update-le q p f (r ∷ t) h = ground (arith, h r, count-update-le q p f t h)

-- A status that an edge leads to an active one is active.
active_before : {s u : Status} → s ⟶ u → is_active u ≡ true → is_active s ≡ true
active_before approving e = refl
active_before claiming e = refl
active_before working e = refl
active_before _ e = ground arith

module _ {J : Type 0} where
  abbrev pub OneActive : List (Row J) → Type 0
  OneActive t = (h : String) → count (holds_hash h) t ≤ 1

  -- Where no active row holds the hash `k`, none holds a hash equal to it.
  count_none :
      (h k : String) (t : List (Row J))
      → any (holds_hash k) t ≡ false
      → h ≡ k
      → count (holds_hash h) t ≡ 0
  unfolding count
  count_none h k [] free e = refl
  count_none h k (r ∷ t) free e =
      ground (arith, ap (λ (x : String). r.request_hash == x) e, count_none h k t)

  insert_pending-OneActive :
      (p : CreateParams J) (id : String) (now : ℕ) (t : List (Row J))
      → OneActive t
      → OneActive (insert_pending p id now t).0
  unfolding insert_pending new_row count
  insert_pending-OneActive p id now t v h = elim (Bool-cases (any (holds_hash p.request_hash) t)) [
    | inl full ↦ rw full (v h)
    | inr free ↦
        rw (free, count-append (holds_hash h) t (new_row p id now ∷ []))
          (ground (arith, v h, eq_iff p.request_hash h, count_none h p.request_hash t free))
  ]

  RowStep-holds_hash :
      (h : String) (r r' : Row J) → RowStep r r' → holds_hash h r' ≡ true → holds_hash h r ≡ true
  RowStep-holds_hash h r r' c e =
      ground (arith, ap (λ (x : String). x == h) c.same_hash, active_before c.edge)

  exec-OneActive : (s : Statement J) (t : List (Row J)) → OneActive t → OneActive (exec s t)
  exec-OneActive s t v =
      exec_cases OneActive s t (λ p id now _. insert_pending-OneActive p id now t v)
        (λ q f legal h.
          le_trans
            (count-update-le (holds_hash h) q f t (λ r e. RowStep-holds_hash h r (f r) (legal r e)))
            (v h))

  -- From a table in which no request hash has two rows that are pending, approved or executing,
  -- whatever statements the clients run, in whatever order, lead to a table of that kind.
  pub run-OneActive :
      (ss : List (Statement J)) (t : List (Row J)) → OneActive t → OneActive (run ss t)
  unfolding run
  run-OneActive [] t v = v
  run-OneActive (s ∷ ss) t v = run-OneActive ss (exec s t) (exec-OneActive s t v)
