-- ===== src/Approval/Create.antt =====
-- repositories/ApprovalRepository.ts, `createOrGetPending`: insert, or find the live row that
-- blocks the insertion, or expire stale rows and try again, at most three times.
pub mod Answers
pub mod Termination
pub mod Atomic
use peta_core.Prelude.{
  ℕ, zero, suc, String, Option, none, some, List, Bool-cases, [], any, false, inl, inr, refl, true,
  ◌++◌, ◌∷◌, ◌≡◌,
}
use peta_core.Approval.Table.{Row, holds_hash}
use peta_core.Approval.Repository.{
  CreateParams, expire_hash, find_active_by_request_hash, insert_pending, new_row,
}
use peta_core.Approval.Statements.{Statement, run}

pub data Created (J : Type 0) : Type 0 where
  created : Row J → Created J
  existing : Row J → Created J
  gave_up : Created J

-- What one attempt takes from its surroundings: the random id, the two clocks, and the statements
-- that other clients run while the attempt awaits its own.
pub record Attempt (J : Type 0) : Type 0 where
  pub id : String
  pub now : ℕ
  pub db_now : ℕ
  pub before_find : List (Statement J)
  pub before_expire : List (Statement J)
  pub before_retry : List (Statement J)

module _ {J : Type 0} where
  -- from the answer of the search: `retry` is what follows if no live row is found
  abbrev pub found :
      (List (Row J) → List (Row J) × Created J)
      → List (Row J)
      → Option (Row J)
      → List (Row J) × Created J
  found retry t (some r) = (t, existing r)
  found retry t none = retry t

  -- from the answer of the insertion
  abbrev pub answer :
      Attempt J
      → CreateParams J
      → (List (Row J) → List (Row J) × Created J)
      → List (Row J) × Option (Row J)
      → List (Row J) × Created J
  answer a p retry (t, some r) = (t, created r)
  answer a p retry (t, none) =
      let t' = run a.before_find t in
      found retry t' (find_active_by_request_hash p.request_hash a.now t')

  -- what happens to the table between two attempts
  unfoldable pub between : Attempt J → CreateParams J → List (Row J) → List (Row J)
  between a p t' = run a.before_retry (expire_hash p.request_hash a.db_now (run a.before_expire t'))

  -- with so many retries left; the attempts are numbered by the retries that each has left
  unfoldable pub create_from :
      (ℕ → Attempt J) → CreateParams J → ℕ → List (Row J) → List (Row J) × Created J
  create_from w p zero t =
      answer (w 0) p (λ t'. (t', gave_up)) (insert_pending p (w 0).id (w 0).now t)
  create_from w p (suc n) t =
      let a = w (suc n) in
      answer a p (λ t'. create_from w p n (between a p t')) (insert_pending p a.id a.now t)

  unfoldable pub create_or_get_pending :
      (ℕ → Attempt J) → CreateParams J → List (Row J) → List (Row J) × Created J
  unfolding create_from
  create_or_get_pending w p t = create_from w p 3 t

  found_cases {ℓ} :
      (P : List (Row J) × Created J → Type ℓ) (retry : List (Row J) → List (Row J) × Created J)
      (t : List (Row J)) (o : Option (Row J))
      → ((r : Row J) → o ≡ some r → P (t, existing r))
      → (o ≡ none → P (retry t))
      → P (found retry t o)
  found_cases P retry t (some r) live dead = live r refl
  found_cases P retry t none live dead = dead refl

  -- The three ways in which an attempt ends.
  pub attempt_cases {ℓ} :
      (P : List (Row J) × Created J → Type ℓ) (a : Attempt J) (p : CreateParams J)
      (retry : List (Row J) → List (Row J) × Created J) (t : List (Row J))
      → (any (holds_hash p.request_hash) t ≡ false
          → P (t ++ new_row p a.id a.now ∷ [], created (new_row p a.id a.now)))
      → ((r : Row J)
          → find_active_by_request_hash p.request_hash a.now (run a.before_find t) ≡ some r
          → P (run a.before_find t, existing r))
      → (any (holds_hash p.request_hash) t ≡ true
          → find_active_by_request_hash p.request_hash a.now (run a.before_find t) ≡ none
          → P (retry (run a.before_find t)))
      → P (answer a p retry (insert_pending p a.id a.now t))
  unfolding insert_pending
  attempt_cases P a p retry t new live dead =
      elim (Bool-cases (any (holds_hash p.request_hash) t)) [
        | inr free ↦ rw free (new free)
        | inl full ↦ rw full (found_cases P retry (run a.before_find t) _ live (dead full))
      ]
