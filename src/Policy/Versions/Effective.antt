-- ===== src/Policy/Versions/Effective.antt =====
-- repositories/PolicyRepository.ts: which policies are in force, and the version of a new one.
use peta_core.Prelude.{
  ℕ, String, string_eq, List, Option, All, Bool-cases, [], any, arith, false, inl, inr, keep,
  le_trans, max, none, refl, some, sort, true, ◌++◌, ◌+◌, ◌<◌, ◌∷◌, ◌≡◌, ◌≤◌, if_cases,
}
use peta_core.Policy.Versions.{
  ToolPolicySet, WriteAttempt, archive_by_server_id, create_policy, create_policy_from,
  get_effective_policy, holds_version, is_active_of, is_of, last_version, new_set,
}

module _ {J : Type 0} where
  none_active :
      (s : Option String) (now : ℕ) (t : List (ToolPolicySet J))
      → keep (is_active_of s) (archive_by_server_id s now t) ≡ []
  unfolding keep archive_by_server_id
  none_active s now [] = refl
  none_active s now (r ∷ t) = elim (Bool-cases (is_active_of s r)) [
    | inl e ↦ rw e (none_active s now t)
    | inr e ↦ rw e (rw e (none_active s now t))
  ]

  others_active :
      (s : String) (now : ℕ) (t : List (ToolPolicySet J))
      → keep (is_active_of none) (archive_by_server_id (some s) now t) ≡ keep (is_active_of none) t
  unfolding keep archive_by_server_id
  others_active s now [] = refl
  others_active s now (r ∷ t) = ground (arith, others_active s now t)

  -- Once the policies of a server are archived, the policies in force for it are the global ones.
  pub get_effective_policy-archive :
      (s : String) (now : ℕ) (t : List (ToolPolicySet J))
      → get_effective_policy (some s) (archive_by_server_id (some s) now t)
        ≡ get_effective_policy none t
  unfolding get_effective_policy sort
  get_effective_policy-archive s now t =
      rw (none_active (some s) now t) (rw (others_active s now t) refl)

  -- every version that the server has had is older
  abbrev pub IsNewest : Option String → ℕ → List (ToolPolicySet J) → Type 0
  IsNewest s v = All (λ r. is_of s r ≡ true → r.version < v)

  raise :
      (s : Option String) (v w : ℕ) (t : List (ToolPolicySet J))
      → v ≤ w
      → IsNewest s v t
      → IsNewest s w t
  raise s v w [] le h = tt
  raise s v w (r ∷ t) le h = ((λ e. le_trans (h.0 e) le), raise s v w t le h.1)

  last_version-IsNewest :
      (s : Option String) (t : List (ToolPolicySet J)) → IsNewest s (last_version s t + 1) t
  unfolding last_version
  last_version-IsNewest s [] = tt
  last_version-IsNewest s (r ∷ t) =
      let ih = last_version-IsNewest s t in
      if_cases (λ (v : ℕ). IsNewest s (v + 1) (r ∷ t)) (is_of s r)
        (max r.version (last_version s t)) (last_version s t)
        (λ e. (
          (λ h. omega arith),
          raise s (last_version s t + 1) (max r.version (last_version s t) + 1) t (omega arith) ih,
        ))
        (λ e. ((λ h. ground arith), ih))

  newest_free :
      (s : Option String) (v : ℕ) (t : List (ToolPolicySet J))
      → IsNewest s v t
      → any (holds_version s v) t ≡ false
  newest_free s v [] h = refl
  newest_free s v (r ∷ t) h = ground (arith, newest_free s v t h.1, h.0)

  -- If no other client writes in between, the creation of a policy set succeeds at its first
  -- attempt, adds one row for the server and changes no other, and gives it a version above all
  -- that the server has had.
  pub create_policy-IsNewest :
      (w : ℕ → WriteAttempt J) (s : Option String) (dsl : J) (t : List (ToolPolicySet J))
      → (w 2).meanwhile t ≡ t
      → (r : ToolPolicySet J) × ((create_policy w s dsl t ≡ (t ++ r ∷ [], some r))
          × (r.server_id ≡ s)
          × IsNewest s r.version t)
  unfolding create_policy create_policy_from
  create_policy-IsNewest w s dsl t quiet = (
    new_set s dsl (last_version s t + 1) (w 2),
    (
      rw quiet (rw (newest_free s (last_version s t + 1) t (last_version-IsNewest s t)) refl),
      refl,
      last_version-IsNewest s t,
    ),
  )
