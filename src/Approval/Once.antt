-- ===== src/Approval/Once.antt =====
-- Repeated claims and decisions: the guards of repositories/ApprovalRepository.ts and the statuses
-- that they leave behind.
use peta_core.Prelude.{
  string_eq, All, Bool, Bool-cases, List, String, [], any, ap, arith, count, count-append, false,
  inl, inr, is_some, keep, refl, subst, true, ℕ, ◌&&◌, ◌<◌, ◌==◌, ◌∷◌, ◌≡◌, ◌≢◌, ◌≤◌, Option,
  eq_iff, le_of_eq, le_refl, le_trans, none, some,
}
use peta_core.Approval.Table.{
  Row, Status, first, holds_hash, is_open, is_pending, returning, update, Actor, executing,
}
use peta_core.Approval.Repository.{
  CreateParams, insert_pending, new_row, claim_approved_for_execution,
  claim_approved_for_execution_by_id, Decision, can_claim, can_claim_hash, can_decide, decide,
  set_decision, set_status,
}
use peta_core.Approval.Statements.{Statement, exec, insertion, run}
use peta_core.Approval.Lifecycle.{
  approving, exec_cases, ◌⟶◌, claiming, lapsing, lapsing_late, rejecting,
}
use peta_core.Approval.Uniqueness.{count-update-le}

module _ {A : Type 0} where
  count-le-count :
      (p q : A → Bool) (t : List A) → ((r : A) → p r ≡ true → q r ≡ true) → count p t ≤ count q t
  unfolding count
  count-le-count p q [] h = omega arith
  count-le-count p q (r ∷ t) h = ground (arith, h r, count-le-count p q t h)

  keep_none : (p : A → Bool) (t : List A) → count p t ≡ 0 → keep p t ≡ []
  unfolding count keep
  keep_none p [] h = refl
  keep_none p (r ∷ t) h = ground (arith, keep_none p t)

  pos_of_kept :
      (p : A → Bool) (f : A → A) (t : List A)
      → is_some (first (returning p f t)) ≡ true
      → 0 < count p t
  unfolding count keep returning
  pos_of_kept p f [] h = cc
  pos_of_kept p f (r ∷ t) h = ground (arith, pos_of_kept p f t)

  -- Where at most one row is meant, and a selected row passes the test no more, none does.
  count-update_spent :
      (q sel mine : A → Bool) (f : A → A) (t : List A)
      → ((r : A) → sel r ≡ true → mine r ≡ true)
      → ((r : A) → q r ≡ true → mine r ≡ true)
      → ((r : A) → sel r ≡ true → q (f r) ≡ false)
      → count mine t ≤ 1
      → 0 < count sel t
      → count q (update sel f t) ≡ 0
  unfolding count update
  count-update_spent q sel mine f [] hs hq hf one some_row = absurd (omega arith)
  count-update_spent q sel mine f (r ∷ t) hs hq hf one some_row = ground (
    arith,
    hs r,
    hq r,
    hf r,
    count-le-count sel mine t hs,
    count-le-count q mine t hq,
    count-update-le q sel f t (λ x e c. hq_back x e c),
    count-update_spent q sel mine f t hs hq hf,
  )
    where
      hq_back : (x : A) → sel x ≡ true → q (f x) ≡ true → q x ≡ true
      hq_back x e c = ground (arith, hf x)

-- A kind of status that no edge enters from outside.
abbrev IsInitial : (Status → Bool) → Type 0
IsInitial g = (s u : Status) → s ⟶ u → g u ≡ true → g s ≡ true

open_before : {s u : Status} → s ⟶ u → is_open u ≡ true → is_open s ≡ true
open_before approving e = refl
open_before rejecting e = refl
open_before lapsing e = refl
open_before lapsing_late e = refl
open_before claiming e = refl
open_before _ e = ground arith

pending_before : {s u : Status} → s ⟶ u → is_pending u ≡ true → is_pending s ≡ true
pending_before approving e = refl
pending_before _ e = ground arith

module _ {J : Type 0} where
  abbrev pub has_id : String → Row J → Bool
  has_id i r = r.id == i

  -- the row `i` with a status of some kind
  abbrev pub at : (Status → Bool) → String → Row J → Bool
  at g i r = r.id == i && g r.status

  abbrev pub Avoids : String → Statement J → Type 0
  Avoids i (insertion p id now) = id ≢ i
  Avoids i _ = Unit

  module _ (g : Status → Bool) (initial : IsInitial g) (i : String) where
    count_at-insert :
        (p : CreateParams J) (id : String) (now : ℕ) (t : List (Row J))
        → id ≢ i
        → count (at g i) (insert_pending p id now t).0 ≡ count (at g i) t
    unfolding insert_pending new_row count
    count_at-insert p id now t ne = elim (Bool-cases (any (holds_hash p.request_hash) t)) [
      | inl full ↦ rw full
      | inr free ↦
          rw (free, count-append (at g i) t (new_row p id now ∷ [])) (ground (arith, eq_iff id i))
    ]

    count_at-exec :
        (s : Statement J) (t : List (Row J))
        → Avoids i s
        → count (at g i) (exec s t) ≤ count (at g i) t
    count_at-exec s t av =
        exec_cases (λ t'. count (at g i) t' ≤ count (at g i) t) s t
          (λ p id now e. le_of_eq (count_at-insert p id now t (subst (Avoids i) e av)))
          (λ q f legal. count-update-le (at g i) q f t (λ r e c.
            let st = legal r e in
            ground (
              arith,
              ap (λ (x : String). x == i) st.same_id,
              initial r.status (f r).status st.edge,
            )))

    pub count_at-run :
        (ss : List (Statement J)) (t : List (Row J))
        → All (Avoids i) ss
        → count (at g i) (run ss t) ≤ count (at g i) t
    unfolding run
    count_at-run [] t av = le_refl _
    count_at-run (s ∷ ss) t av = le_trans (count_at-run ss (exec s t) av.1) (count_at-exec s t av.0)

  abbrev pub concerns : String → Option (Row J) → Bool
  concerns i none = false
  concerns i (some r) = has_id i r

  spent_at :
      (i : String) (t : List (Row J)) (sel : Row J → Bool) (g : Status → Bool)
      → ((r : Row J) → sel r ≡ true → at g i r ≡ true)
      → count (at g i) t ≡ 0
      → count sel t ≡ 0
  spent_at i t sel g h z = omega (arith, count-le-count sel (at g i) t h)

  -- What a statement returns, it selected.
  first-returning :
      (i : String) (sel : Row J → Bool) (f : Row J → Row J) (t : List (Row J))
      → ((r : Row J) → (f r).id ≡ r.id)
      → count (λ r. has_id i r && sel r) t ≡ 0
      → concerns i (first (returning sel f t)) ≡ false
  unfolding count keep returning
  first-returning i sel f [] h z = refl
  first-returning i sel f (r ∷ t) h z =
      ground (arith, ap (λ (x : String). x == i) (h r), first-returning i sel f t h)

  -- A statement finds no row to return where none is left that it could select.
  returning-none :
      (sel : Row J → Bool) (f : Row J → Row J) (t : List (Row J))
      → count sel t ≡ 0
      → first (returning sel f t) ≡ none
  unfolding returning
  returning-none sel f t z = rw (keep_none sel t z)

  open_spent :
      (i : String) (now : ℕ) (t : List (Row J)) (ss : List (Statement J))
      → count (has_id i) t ≤ 1
      → 0 < count (can_claim i now) t
      → All (Avoids i) ss
      → count (at is_open i) (run ss (update (can_claim i now) (set_status executing now) t)) ≡ 0
  open_spent i now t ss one won av = omega (
    arith,
    count_at-run is_open (λ s u c. open_before c) i ss
        (update (can_claim i now) (set_status executing now) t) av,
    count-update_spent (at is_open i) (can_claim i now) (has_id i) (set_status executing now) t
        (λ r e. ground arith) (λ r e. ground arith) (λ r e. ground arith) one won,
  )

  -- Once a claim by id has answered with a row, no later claim ever answers with that row, whatever
  -- statements the clients run in between: no approval pays for two executions. The table has one
  -- row with the id at most, and no later insertion takes the id again.
  pub claim_once :
      (i : String) (now later : ℕ) (h : String) (t : List (Row J)) (ss : List (Statement J))
      → count (has_id i) t ≤ 1
      → is_some (claim_approved_for_execution_by_id i now t).1 ≡ true
      → All (Avoids i) ss
      → ((claim_approved_for_execution_by_id i later
            (run ss (claim_approved_for_execution_by_id i now t).0)).1
          ≡ none)
        × (concerns i
              (claim_approved_for_execution h later
                (run ss (claim_approved_for_execution_by_id i now t).0)).1
            ≡ false)
  unfolding claim_approved_for_execution_by_id claim_approved_for_execution
  claim_once i now later h t ss one won av =
      let spent = open_spent i now t ss one (pos_of_kept (can_claim i now) _ t won) av in
      let t' = run ss (update (can_claim i now) (set_status executing now) t) in
      (
        returning-none (can_claim i later) (set_status executing later) t'
            (spent_at i t' (can_claim i later) is_open (λ r e. ground arith) spent),
        first-returning i (can_claim_hash h later) (set_status executing later) t' (λ r. refl)
            (spent_at i t' (λ r. has_id i r && can_claim_hash h later r) is_open
              (λ r e. ground arith) spent),
      )

  -- Once a decision has answered with a row, every later decision on that id is refused, whatever
  -- statements the clients run in between: an approval is never turned into a rejection, nor a
  -- rejection into an approval. The table has one row with the id at most, and no later insertion
  -- takes the id again.
  pub decide_once :
      (i : String) (d d' : Decision) (who who' : Actor) (why why' : Option String) (now later : ℕ)
      (t : List (Row J)) (ss : List (Statement J))
      → count (has_id i) t ≤ 1
      → is_some (decide i d who why now t).1 ≡ true
      → All (Avoids i) ss
      → (decide i d' who' why' later (run ss (decide i d who why now t).0)).1 ≡ none
  unfolding decide
  decide_once i d d' who who' why why' now later t ss one won av =
      returning-none (can_decide i later) (set_decision d' who' why' later)
        (run ss (update (can_decide i now) (set_decision d who why now) t))
        (spent_at i _ (can_decide i later) is_pending (λ r e. ground arith)
          (omega (
            arith,
            count_at-run is_pending (λ s u c. pending_before c) i ss
                (update (can_decide i now) (set_decision d who why now) t) av,
            count-update_spent (at is_pending i) (can_decide i now) (has_id i)
                (set_decision d who why now) t (λ r e. ground arith) (λ r e. ground arith)
                (λ r e. ground arith) one (pos_of_kept (can_decide i now) _ t won),
          )))
