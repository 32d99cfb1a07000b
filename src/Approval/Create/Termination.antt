-- ===== src/Approval/Create/Termination.antt =====
-- repositories/ApprovalRepository.ts, `createOrGetPending`: its retries.
use peta_core.Prelude.{
  string_eq, List, String, [], any, arith, false, keep, refl, suc, zero, ℕ, ◌∷◌, ◌≡◌, ◌≢◌, ◌≤◌, ap,
  subst, sym, ◌∙◌,
}
use peta_core.Approval.Table.{Row, holds_hash, is_live, update}
use peta_core.Approval.Repository.{
  CreateParams, find_active_by_request_hash, insert_pending, expire_hash,
}
use peta_core.Approval.Statements.{run, Statement}
use peta_core.Approval.Create.{
  Attempt, create_from, gave_up, create_or_get_pending, between, attempt_cases,
}
use peta_core.Approval.Create.Answers.{latest-none}

module _ {J : Type 0} where
  -- Where no row is live, every row that holds the hash is stale, and the expiry frees the hash.
  pub expired_free :
      (h : String) (now db_now : ℕ) (t : List (Row J))
      → now ≤ db_now
      → keep (is_live h now) t ≡ []
      → any (holds_hash h) (expire_hash h db_now t) ≡ false
  unfolding keep update expire_hash
  expired_free h now db_now [] le e = refl
  expired_free h now db_now (r ∷ t) le e = ground (arith, expired_free h now db_now t le)

  abbrev pub IsQuiet : Attempt J → Type 0
  IsQuiet a = (a.before_find ≡ []) × (a.before_expire ≡ []) × (a.before_retry ≡ [])

  attempt_free :
      (w : ℕ → Attempt J) (p : CreateParams J) (n : ℕ) (t : List (Row J))
      → any (holds_hash p.request_hash) t ≡ false
      → (create_from w p n t).1 ≢ gave_up
  unfolding create_from insert_pending
  attempt_free w p zero t free = rw free (cc)
  attempt_free w p (suc n) t free = rw free (cc)

  pub quiet_run : (ss : List (Statement J)) (t : List (Row J)) → ss ≡ [] → run ss t ≡ t
  unfolding run
  quiet_run ss t e = ap (λ us. run us t) e

  pub quiet_between :
      (a : Attempt J) (p : CreateParams J) (t : List (Row J))
      → a.before_expire ≡ []
      → a.before_retry ≡ []
      → between a p t ≡ expire_hash p.request_hash a.db_now t
  unfolding between
  quiet_between a p t q q' =
      quiet_run a.before_retry _ q'
      ∙ ap (expire_hash p.request_hash a.db_now) (quiet_run a.before_expire t q)

  create_from-ne-gave_up :
      (w : ℕ → Attempt J) (p : CreateParams J) (n : ℕ) (t : List (Row J))
      → IsQuiet (w (suc n))
      → (w (suc n)).now ≤ (w (suc n)).db_now
      → (create_from w p (suc n) t).1 ≢ gave_up
  unfolding create_from find_active_by_request_hash
  create_from-ne-gave_up w p n t (q, q', q'') le =
      let a = w (suc n) in
      attempt_cases (λ o. o.1 ≢ gave_up) a p (λ t'. create_from w p n (between a p t')) t (λ _. cc)
        (λ r _. cc)
        (λ _ dead.
          subst (λ u. (create_from w p n u).1 ≢ gave_up) (sym (quiet_between a p _ q' q''))
            (attempt_free w p n _ (
              expired_free p.request_hash a.now a.db_now _ le
                (latest-none (λ r. r.created_at) _ dead))))

  -- If no other client interferes with the first attempt, and the database's clock is not behind the
  -- gateway's, `createOrGetPending` answers with a row: it does not run out of retries.
  pub create_or_get_pending-ne-gave_up :
      (w : ℕ → Attempt J) (p : CreateParams J) (t : List (Row J))
      → IsQuiet (w 3)
      → (w 3).now ≤ (w 3).db_now
      → (create_or_get_pending w p t).1 ≢ gave_up
  unfolding create_or_get_pending
  create_or_get_pending-ne-gave_up w p t q le = create_from-ne-gave_up w p 2 t q le
