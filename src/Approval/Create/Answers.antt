-- ===== src/Approval/Create/Answers.antt =====
-- repositories/ApprovalRepository.ts, `createOrGetPending`: the rows that it answers with.
use mathlib.Core.List.{Memᴰ}
use peta_core.Prelude.{
  string_eq, Bool, Bool-cases, List, Option-cases, [], arith, inl, inr, keep, ltb, none, refl, some,
  true, ℕ, ◌∷◌, ◌≡◌, String, suc, zero, ◌++◌, ◌⊎◌,
}
use peta_core.Approval.Table.{latest, Row, is_live}
use peta_core.Approval.Create.{
  Attempt, Created, create_from, create_or_get_pending, created, existing, gave_up, answer, between,
  attempt_cases,
}
use peta_core.Approval.Repository.{
  CreateParams, find_active_by_request_hash, insert_pending, new_row,
}
use peta_core.Approval.Statements.{run}

module _ {A : Type 0} where
  latest-mem : (key : A → ℕ) (t : List A) (r : A) → latest key t ≡ some r → Memᴰ r t
  unfolding latest
  latest-mem key [] r e = cc
  latest-mem key (x ∷ t) r e = elim (Option-cases (latest key t)) [
    | inl n ↦ Memᴰ.head (ground arith)
    | inr (s, m) ↦ elim (Bool-cases (ltb (key x) (key s))) [
      | inl lt ↦ Memᴰ.tail (latest-mem key t r (ground arith))
      | inr ge ↦ Memᴰ.head (ground arith)
    ]
  ]

  pub latest-none : (key : A → ℕ) (t : List A) → latest key t ≡ none → t ≡ []
  unfolding latest
  latest-none key [] e = refl
  latest-none key (x ∷ t) e = ground arith

  mem_cases : {x r : A} {t : List A} → Memᴰ r (x ∷ t) → (r ≡ x) ⊎ Memᴰ r t
  mem_cases (Memᴰ.head e) = inl e
  mem_cases (Memᴰ.tail m) = inr m

  mem-keep : (p : A → Bool) (t : List A) (r : A) → Memᴰ r (keep p t) → Memᴰ r t × (p r ≡ true)
  unfolding keep
  mem-keep p [] r m = elim m [ ]
  mem-keep p (x ∷ t) r m = elim (Bool-cases (p x)) [
    | inl e ↦ elim (mem_cases (rw e at m)) [
      | inl same ↦ (Memᴰ.head same, rw same e)
      | inr later ↦ let (there, holds) = mem-keep p t r later in (Memᴰ.tail there, holds)
    ]
    | inr e ↦ let (there, holds) = mem-keep p t r (rw e at m) in (Memᴰ.tail there, holds)
  ]

module _ {J : Type 0} where
  -- The row that `findActiveByRequestHash` finds is in the table, and live.
  pub find_active_sound :
      (h : String) (now : ℕ) (t : List (Row J)) (r : Row J)
      → find_active_by_request_hash h now t ≡ some r
      → Memᴰ r t × (is_live h now r ≡ true)
  unfolding find_active_by_request_hash
  find_active_sound h now t r e =
      mem-keep (is_live h now) t r (latest-mem (λ x. x.created_at) (keep (is_live h now) t) r e)

  mem_last : (t : List (Row J)) (r : Row J) → Memᴰ r (t ++ r ∷ [])
  mem_last [] r = Memᴰ.head refl
  mem_last (x ∷ t) r = Memᴰ.tail (mem_last t r)

  -- What an answer says of the table that the call leaves.
  abbrev pub Answers : (ℕ → Attempt J) → CreateParams J → List (Row J) × Created J → Type 0
  Answers w p (t, created r) = Memᴰ r t × ((n : ℕ) × (r ≡ new_row p (w n).id (w n).now))
  Answers w p (t, existing r) = Memᴰ r t × ((n : ℕ) × (is_live p.request_hash (w n).now r ≡ true))
  Answers w p (t, gave_up) = Unit

  module _ (w : ℕ → Attempt J) (p : CreateParams J) where
    answer-Answers :
        (n : ℕ) (t : List (Row J)) (retry : List (Row J) → List (Row J) × Created J)
        → ((t' : List (Row J)) → Answers w p (retry t'))
        → Answers w p (answer (w n) p retry (insert_pending p (w n).id (w n).now t))
    answer-Answers n t retry h =
        attempt_cases (Answers w p) (w n) p retry t (λ _. (mem_last t _, (n, refl)))
          (λ r e.
            let (m, live) = find_active_sound p.request_hash (w n).now _ r e in (m, (n, live)))
          (λ _ _. h (run (w n).before_find t))

    create_from-Answers : (n : ℕ) (t : List (Row J)) → Answers w p (create_from w p n t)
    unfolding create_from
    create_from-Answers zero t = answer-Answers 0 t (λ t'. (t', gave_up)) (λ t'. tt)
    create_from-Answers (suc n) t =
        answer-Answers (suc n) t (λ t'. create_from w p n (between (w (suc n)) p t'))
          (λ t'. create_from-Answers n (between (w (suc n)) p t'))

  -- Whatever other clients do meanwhile, a row that `createOrGetPending` answers with is in the
  -- table that it leaves: the row that it made itself, pending, or one with the same hash that
  -- was live by the clock of one of its attempts.
  pub create_or_get_pending-Answers :
      (w : ℕ → Attempt J) (p : CreateParams J) (t : List (Row J))
      → Answers w p (create_or_get_pending w p t)
  unfolding create_or_get_pending
  create_or_get_pending-Answers w p t = create_from-Answers w p 3 t
