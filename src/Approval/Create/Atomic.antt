-- ===== src/Approval/Create/Atomic.antt =====
-- repositories/ApprovalRepository.ts: `createOrGetPending` where no other client interferes.
use peta_core.Prelude.{
  string_eq, ℕ, suc, String, Option, none, some, List, [], any, arith, false, keep, refl, ◌++◌, ◌∷◌,
  ◌≡◌, ap, inl, inr, sym, ◌∙◌, ◌≤◌, ◌⊎◌,
}
use peta_core.Approval.Table.{Row, holds_hash, is_live, update, latest}
use peta_core.Approval.Repository.{
  CreateParams, expire_hash, find_active_by_request_hash, insert_pending, new_row,
}
use peta_core.Approval.Create.{
  Attempt, Created, create_from, created, existing, attempt_cases, between, create_or_get_pending,
}
use peta_core.Approval.Create.Termination.{IsQuiet, quiet_run, expired_free, quiet_between}
use peta_core.Approval.Create.Answers.{latest-none}

module _ {J : Type 0} where
  -- One step on the table, from its live row with the hash: that row and the table as it is, or, if
  -- there is none, the stale rows with the hash expired and a new row.
  abbrev pub settle :
      CreateParams J → String → ℕ → ℕ → List (Row J) → Option (Row J) → List (Row J) × Created J
  settle p id now db_now t (some r) = (t, existing r)
  settle p id now db_now t none =
      (expire_hash p.request_hash db_now t ++ new_row p id now ∷ [], created (new_row p id now))

  -- The step, with the new row of an attempt `b`.
  abbrev pub IsSettled :
      Attempt J → Attempt J → CreateParams J → List (Row J) → List (Row J) × Created J → Type 0
  IsSettled a b p t o =
      o ≡ settle p b.id b.now a.db_now t (find_active_by_request_hash p.request_hash a.now t)

  free_none-live :
      (h : String) (now : ℕ) (t : List (Row J))
      → any (holds_hash h) t ≡ false
      → keep (is_live h now) t ≡ []
  unfolding keep
  free_none-live h now [] e = refl
  free_none-live h now (r ∷ t) e = ground (arith, free_none-live h now t (ground arith))

  free_unexpired :
      (h : String) (db_now : ℕ) (t : List (Row J))
      → any (holds_hash h) t ≡ false
      → expire_hash h db_now t ≡ t
  unfolding expire_hash update
  free_unexpired h db_now [] e = refl
  free_unexpired h db_now (r ∷ t) e = ground (arith, free_unexpired h db_now t (ground arith))

  free_found :
      (h : String) (now : ℕ) (t : List (Row J))
      → any (holds_hash h) t ≡ false
      → find_active_by_request_hash h now t ≡ none
  unfolding find_active_by_request_hash latest
  free_found h now t e = rw (free_none-live h now t e) refl

  create_from_free :
      (w : ℕ → Attempt J) (p : CreateParams J) (n : ℕ) (t : List (Row J))
      → any (holds_hash p.request_hash) t ≡ false
      → create_from w p (suc n) t ≡ (
        t ++ new_row p (w (suc n)).id (w (suc n)).now ∷ [],
        created (new_row p (w (suc n)).id (w (suc n)).now),
      )
  unfolding create_from insert_pending
  create_from_free w p n t free = rw free refl

  first_attempt :
      (a : Attempt J) (p : CreateParams J) (t : List (Row J))
      → any (holds_hash p.request_hash) t ≡ false
      → IsSettled a a p t (t ++ new_row p a.id a.now ∷ [], created (new_row p a.id a.now))
  first_attempt a p t free =
      ap (λ u. (u ++ new_row p a.id a.now ∷ [], created (new_row p a.id a.now)))
        (sym (free_unexpired p.request_hash a.db_now t free))
      ∙ ap (settle p a.id a.now a.db_now t) (sym (free_found p.request_hash a.now t free))

  -- Without a live row, the stale ones are expired, and the next attempt inserts.
  second_attempt :
      (w : ℕ → Attempt J) (n : ℕ) (a : Attempt J) (p : CreateParams J) (t : List (Row J))
      → IsQuiet a
      → a.now ≤ a.db_now
      → find_active_by_request_hash p.request_hash a.now t ≡ none
      → IsSettled a (w (suc n)) p t (create_from w p (suc n) (between a p t))
  unfolding find_active_by_request_hash
  second_attempt w n a p t (q, q', q'') le dead =
      let b = w (suc n) in
      ap (create_from w p (suc n)) (quiet_between a p t q' q'')
      ∙ create_from_free w p n (expire_hash p.request_hash a.db_now t)
          (expired_free p.request_hash a.now a.db_now t le (latest-none (λ r. r.created_at) _ dead))
      ∙ ap (settle p b.id b.now a.db_now t) (sym dead)

  -- If no other client interferes with the first attempt, and the database's clock is not behind the
  -- gateway's, the insertions, searches and retries of `createOrGetPending` come to one step on the
  -- table: the answer is the live row with the hash, and the table stays; or there is none, the
  -- stale rows with the hash are expired, and the answer is a new pending row at the end of the
  -- table, with the id and clock of the first or of the second attempt.
  pub create_or_get_pending-IsSettled :
      (w : ℕ → Attempt J) (p : CreateParams J) (t : List (Row J))
      → IsQuiet (w 3)
      → (w 3).now ≤ (w 3).db_now
      → IsSettled (w 3) (w 3) p t (create_or_get_pending w p t)
        ⊎ IsSettled (w 3) (w 2) p t (create_or_get_pending w p t)
  unfolding create_or_get_pending create_from
  create_or_get_pending-IsSettled w p t (q, q', q'') le =
      let a = w 3 in
      let same = quiet_run a.before_find t q in
      attempt_cases (λ o. IsSettled a a p t o ⊎ IsSettled a (w 2) p t o) a p
        (λ t'. create_from w p 2 (between a p t')) t (λ free. inl (first_attempt a p t free))
        (λ r live. inl (
          ap (λ u. (u, existing r)) same
          ∙ ap (settle p a.id a.now a.db_now t)
              (sym live ∙ ap (find_active_by_request_hash p.request_hash a.now) same)))
        (λ _ dead. inr (
          ap (λ u. create_from w p 2 (between a p u)) same
          ∙ second_attempt w 1 a p t (q, q', q'') le
              (sym (ap (find_active_by_request_hash p.request_hash a.now) same) ∙ dead)))
