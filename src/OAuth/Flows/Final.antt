-- ===== src/OAuth/Flows/Final.antt =====
-- oauth/services/DeskAuthorizationFlowService.ts: how a flow ends.
use peta_core.Prelude.{
  string_eq, text_eq, ℕ, String, Bool, Option, ◌≡◌, Option-cases, [], ap, arith, eq_of_beq, false,
  get_or, if◌then◌else◌, inl, inr, none, refl, some, subst, sym, true, ◌==◌, ◌∙◌, ◌∷◌, ◌⊎◌,
  Bool-cases, beq_self, if_cases, leb, not, ◌&&◌, ◌+◌, All, List,
}
use peta_core.Prelude.Dict
use peta_core.OAuth.Flows.{
  Flow, Flows, is_pending, is_completed, clean_up, cleanup_expired, expire_due, Call, creation,
  finish, get_flow, ttl_ms, call, call_all, complete_flow, completion, create_flow, fail_flow,
  failure, get_reusable_flow, lookup, new_flow, reuse, set_completed, set_failed,
}

-- The flow as it is, or gone, which a completed one never is.
abbrev pub IsStill : Flow → Option Flow → Type 0
IsStill f o = (o ≡ some f) ⊎ ((o ≡ none) × (is_completed f.status ≡ false))

record Settled (i : String) (f : Flow) (m : Flows) : Type 0 where
  unique : Dict.IsUnique m
  still : IsStill f (Dict.get i m)

some-eq : (f g : Flow) → some f ≡ some g → f ≡ g
some-eq f g e = ap (λ o. get_or o f) e

expire_due-ended : (now : ℕ) (f : Flow) → is_pending f.status ≡ false → expire_due now f ≡ f
expire_due-ended now f h = rw h refl

set-Settled :
    (i j : String) (f g h : Flow) (m : Flows)
    → is_pending f.status ≡ false
    → Dict.get j m ≡ some g
    → (is_pending g.status ≡ false → h ≡ g)
    → Settled i f m
    → Settled i f (Dict.set j h m)
set-Settled i j f g h m p e k s = record {
  unique = Dict.set-IsUnique j h m s.unique;
  still = subst (λ o. IsStill f o) (sym (Dict.get-set j i h m)) (new_entry (j == i) refl s.still);
}
  where
    found_again : IsStill f (some g) → IsStill f (some h)
    found_again (inl q) = inl (
        ap some (
          k (subst (λ (x : Flow). is_pending x.status ≡ false) (sym (some-eq g f q)) p)
          ∙ some-eq g f q))
    found_again (inr q) = cc

    new_entry :
        (b : Bool)
        → (j == i) ≡ b
        → IsStill f (Dict.get i m)
        → IsStill f (if b then some h else Dict.get i m)
    new_entry false q t = t
    new_entry true q t =
        found_again
          (subst (λ o. IsStill f o) (subst (λ x. Dict.get x m ≡ some g) (eq_of_beq j i q) e) t)

cleanup_expired-none :
    (now : ℕ) (i : String) (m : Flows)
    → Dict.get i m ≡ none
    → Dict.get i (cleanup_expired now m) ≡ none
unfolding cleanup_expired Dict.get
cleanup_expired-none now i [] e = refl
cleanup_expired-none now i ((j, g) ∷ m) e = elim (Option-cases (clean_up now g)) [
  | inl c ↦ rw c (cleanup_expired-none now i m (ground arith))
  | inr (h, c) ↦ rw c (ground (arith, cleanup_expired-none now i m))
]

cleanup_expired-IsUnique :
    (now : ℕ) (m : Flows) → Dict.IsUnique m → Dict.IsUnique (cleanup_expired now m)
unfolding cleanup_expired
cleanup_expired-IsUnique now [] u = tt
cleanup_expired-IsUnique now ((j, g) ∷ m) u = elim (Option-cases (clean_up now g)) [
  | inl c ↦ rw c (cleanup_expired-IsUnique now m u.1)
  | inr (h, c) ↦ rw c (cleanup_expired-none now j m u.0, cleanup_expired-IsUnique now m u.1)
]

-- A flow that has ended is cleaned up only if it is not completed.
clean_up-IsStill : (now : ℕ) (f : Flow) → is_pending f.status ≡ false → IsStill f (clean_up now f)
clean_up-IsStill now f p = rw p (
    if_cases (λ o. IsStill f o) (leb (f.expires_at + ttl_ms) now && not (is_completed f.status))
      none (some f) (λ e. inr (refl, ground arith)) (λ e. inl refl))

cleanup_expired-some :
    (now : ℕ) (i : String) (f : Flow) (m : Flows)
    → is_pending f.status ≡ false
    → Dict.IsUnique m
    → Dict.get i m ≡ some f
    → IsStill f (Dict.get i (cleanup_expired now m))
unfolding cleanup_expired Dict.get
cleanup_expired-some now i f [] p u e = cc
cleanup_expired-some now i f ((j, g) ∷ m) p u e = elim (Bool-cases (j == i)) [
  | inl b ↦ first_entry b (clean_up now g) refl
  | inr b ↦ elim (Option-cases (clean_up now g)) [
    | inl c ↦ rw c (cleanup_expired-some now i f m p u.1 (ground arith))
    | inr (h, c) ↦ rw c (rw b (cleanup_expired-some now i f m p u.1 (ground arith)))
  ]
]
  where
    same_flow : (b : Bool) → b ≡ true → (if b then some g else Dict.get i m) ≡ some f → g ≡ f
    same_flow true b e = some-eq g f e
    same_flow false b e = cc

    first_entry :
        (j == i) ≡ true
        → (o : Option Flow) → clean_up now g ≡ o
        → IsStill f (Dict.get i (cleanup_expired now ((j, g) ∷ m)))
    first_entry b none c = rw c (
        subst (λ o. IsStill f o)
          (sym
            (cleanup_expired-none now i m (subst (λ x. Dict.get x m ≡ none) (eq_of_beq j i b) u.0)))
          (subst (λ o. IsStill f o) (subst (λ x. clean_up now x ≡ none) (same_flow (j == i) b e) c)
            (clean_up-IsStill now f p)))
    first_entry b (some h) c = rw c (
        rw b (
          subst (λ o. IsStill f o) (subst (λ x. clean_up now x ≡ some h) (same_flow (j == i) b e) c)
            (clean_up-IsStill now f p)))

cleanup_expired-Settled :
    (now : ℕ) (i : String) (f : Flow) (m : Flows)
    → is_pending f.status ≡ false
    → Settled i f m
    → Settled i f (cleanup_expired now m)
cleanup_expired-Settled now i f m p s = record {
  unique = cleanup_expired-IsUnique now m s.unique;
  still = from_still s.still;
}
  where
    from_still : IsStill f (Dict.get i m) → IsStill f (Dict.get i (cleanup_expired now m))
    from_still (inl e) = cleanup_expired-some now i f m p s.unique e
    from_still (inr (e, c)) = inr (cleanup_expired-none now i m e, c)

true_is-false : {b : Bool} → b ≡ true → b ≡ false → ⊥
true_is-false e h = cc

-- An id that randomBytes gives to a new flow is another one.
abbrev pub IsNotNew : String → Call → Type 0
IsNotNew i (creation j params issuer now later) = (j == i) ≡ false
IsNotNew i _ = Unit

module _ (i : String) (f : Flow) (p : is_pending f.status ≡ false) where
  get_flow-Settled :
      (j : String) (now : ℕ) (m : Flows) → Settled i f m → Settled i f (get_flow j now m).0
  unfolding get_flow
  get_flow-Settled j now m s = elim (Option-cases (Dict.get j m)) [
    | inl e ↦ rw e s
    | inr (g, e) ↦ rw e (set-Settled i j f g (expire_due now g) m p e (expire_due-ended now g) s)
  ]

  finish-Settled :
      (j : String) (now : ℕ) (h : Flow → Flow) (m : Flows)
      → Settled i f m
      → Settled i f (finish j h (get_flow j now m)).0
  unfolding get_flow
  finish-Settled j now h m s = elim (Option-cases (Dict.get j m)) [
    | inl e ↦ rw e s
    | inr (g, e) ↦ rw e (
        let s' = set-Settled i j f g (expire_due now g) m p e (expire_due-ended now g) s in
        elim (Bool-cases (is_pending (expire_due now g).status)) [
          | inl b ↦ rw b (
              set-Settled i j f (expire_due now g) (h (expire_due now g))
                (Dict.set j (expire_due now g) m) p
                (Dict.get-set j j (expire_due now g) m ∙ rw (beq_self j) refl)
                (λ n. absurd (true_is-false b n)) s')
          | inr b ↦ rw b s'
        ])
  ]

  call-Settled : (c : Call) (m : Flows) → IsNotNew i c → Settled i f m → Settled i f (call c m)
  unfolding call create_flow get_reusable_flow complete_flow fail_flow
  call-Settled (creation j params issuer now later) m n s =
      let s' = cleanup_expired-Settled now i f m p s in
      record {
        unique =
            Dict.set-IsUnique j (new_flow j params issuer later) (cleanup_expired now m) s'.unique;
        still =
            subst (λ o. IsStill f o)
              (sym (
                Dict.get-set j i (new_flow j params issuer later) (cleanup_expired now m)
                ∙ rw n refl))
              s'.still;
      }
  call-Settled (lookup j now) m n s = get_flow-Settled j now m s
  call-Settled (reuse j params issuer now) m n s = get_flow-Settled j now m s
  call-Settled (completion j redirect now) m n s = finish-Settled j now (set_completed redirect) m s
  call-Settled (failure j error description now) m n s =
      finish-Settled j now (set_failed error description) m s

  calls-Settled :
      (cs : List Call) (m : Flows)
      → All (IsNotNew i) cs
      → Settled i f m
      → Settled i f (call_all cs m)
  unfolding call_all
  calls-Settled [] m n s = s
  calls-Settled (c ∷ cs) m n s = calls-Settled cs (call c m) n.1 (call-Settled c m n.0 s)

-- A flow that is completed, failed or expired stays as it is, its redirection and error included,
-- whatever is called after; it can only be deleted, and this only if it is not completed. The map has
-- each flow once, and no new flow is given its id.
pub call_all-IsStill :
    (i : String) (f : Flow) (cs : List Call) (m : Flows)
    → is_pending f.status ≡ false
    → Dict.IsUnique m
    → Dict.get i m ≡ some f
    → All (IsNotNew i) cs
    → IsStill f (Dict.get i (call_all cs m))
call_all-IsStill i f cs m p u e n =
    (calls-Settled i f p cs m n (record { unique = u; still = inl e })).still
