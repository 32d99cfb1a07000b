-- ===== src/Router/Once.antt =====
-- mcp/core/GlobalRequestRouter.ts: who is sent a notification, told by membership.
use mathlib.Core.List.{Memᴰ}
use peta_core.Prelude.{
  string_eq, text_eq, ℕ, Bool, Bool-cases, List, ◌≡◌, ◌↔◌, [], arith, drop, keep, inl, inr, length,
  ltb, subst, sym, true, ◌++◌, ◌-◌, ◌==◌, ◌∷◌, ◌≤◌, eq_of_beq, beq_self, length-append, suc, String,
  ap, false, if_cases, if◌then◌else◌, refl, zero, ◌∙◌,
}
use peta_core.Router.{has_key, key_limit, trim_keys, Sent, broadcast, sent_to}
use peta_core.Router.Delivered.{marked, receives, sent_to-set, AreDistinct, broadcast-receives}

true_is-false : true ≡ false → ⊥
true_is-false h = cc

Mem-keep :
    {A : Type 0} (p : A → Bool) (x : A) (xs : List A)
    → Memᴰ x (keep p xs) ↔ (Memᴰ x xs × (p x ≡ true))
unfolding keep
Mem-keep p x [] = (λ m. elim m [ ], λ h. elim h.0 [ ])
Mem-keep p x (y ∷ xs) = elim (Bool-cases (p y)) [
  | inl passes ↦ rw passes (
    λ m. elim m [
      | Memᴰ.head e ↦ (Memᴰ.head e, subst (λ z. p z ≡ true) (sym e) passes)
      | Memᴰ.tail t ↦ let h = (Mem-keep p x xs).0 t in (Memᴰ.tail h.0, h.1)
    ],
    λ h. elim h.0 [
      | Memᴰ.head e ↦ Memᴰ.head e
      | Memᴰ.tail t ↦ Memᴰ.tail ((Mem-keep p x xs).1 (t, h.1))
    ],
  )
  | inr fails ↦ rw fails (
    λ m. let h = (Mem-keep p x xs).0 m in (Memᴰ.tail h.0, h.1),
    λ h. elim h.0 [
      | Memᴰ.head e ↦ absurd (true_is-false (sym h.1 ∙ ap p e ∙ fails))
      | Memᴰ.tail t ↦ (Mem-keep p x xs).1 (t, h.1)
    ],
  )
]

-- a key is noted, as a test and as membership
has_key-Mem : (key : List ℕ) (keys : List (List ℕ)) → (has_key key keys ≡ true) ↔ Memᴰ key keys
has_key-Mem key [] = (λ h. cc, λ m. elim m [ ])
has_key-Mem key (k ∷ keys) = (
  λ h. elim (Bool-cases (k == key)) [
    | inl same ↦ Memᴰ.head (sym (eq_of_beq k key same))
    | inr ne ↦ Memᴰ.tail ((has_key-Mem key keys).0 (ground arith))
  ],
  λ m. elim m [
    | Memᴰ.head e ↦ ground (arith, text_eq.beq_iff k key, e)
    | Memᴰ.tail t ↦ ground (arith, (has_key-Mem key keys).1 t)
  ],
)

has_key-drop :
    (key : List ℕ) (n : ℕ) (keys : List (List ℕ))
    → n ≤ length keys
    → has_key key (drop n (keys ++ key ∷ [])) ≡ true
has_key-drop key zero [] h = ground (arith, beq_self key)
has_key-drop key zero (k ∷ keys) h = ground (arith, has_key-drop key zero keys (omega arith))
has_key-drop key (suc n) [] h = absurd (omega arith)
has_key-drop key (suc n) (k ∷ keys) h = has_key-drop key n keys (omega arith)

-- The key noted last is not trimmed away.
has_key-trim_keys :
    (key : List ℕ) (keys : List (List ℕ)) → has_key key (trim_keys (keys ++ key ∷ [])) ≡ true
unfolding trim_keys
has_key-trim_keys key keys = elim (Bool-cases (ltb key_limit (length (keys ++ key ∷ [])))) [
  | inl long ↦ rw long (
      has_key-drop key (length (keys ++ key ∷ []) - key_limit) keys
        (omega (arith, length-append keys (key ∷ []))))
  | inr short ↦ rw short (has_key-drop key zero keys (omega arith))
]

-- A session that has the key noted is sent nothing under it, and keeps it.
noted_stays :
    (can_access throws : String → Bool) (key : List ℕ) (ids : List String) (i : String) (m : Sent)
    → has_key key (sent_to i m) ≡ true
    → has_key key (sent_to i (broadcast can_access throws key ids m).0) ≡ true
unfolding broadcast
noted_stays can_access throws key [] i m h = h
noted_stays can_access throws key (j ∷ ids) i m h =
    noted_stays can_access throws key ids i (marked (receives can_access throws key m j) j key m)
      (marked_stays (receives can_access throws key m j))
  where
    marked_stays : (b : Bool) → has_key key (sent_to i (marked b j key m)) ≡ true
    marked_stays false = h
    marked_stays true =
        let keys = trim_keys (sent_to j m ++ key ∷ []) in
        subst (λ ks. has_key key ks ≡ true) (sym (sent_to-set j i keys m))
          (if_cases (λ ks. has_key key ks ≡ true) (j == i) keys (sent_to i m)
            (λ e. has_key-trim_keys key (sent_to j m)) (λ e. h))

-- A session that is sent a notification has its key noted.
sent_noted :
    (can_access throws : String → Bool) (key : List ℕ) (ids : List String) (i : String) (m : Sent)
    → Memᴰ i (broadcast can_access throws key ids m).1
    → has_key key (sent_to i (broadcast can_access throws key ids m).0) ≡ true
unfolding broadcast
sent_noted can_access throws key [] i m h = elim h [ ]
sent_noted can_access throws key (j ∷ ids) i m h =
    first_or_later (receives can_access throws key m j)
      (λ b t. sent_noted can_access throws key ids i (marked b j key m) t) h
  where
    after : Bool → Sent × List String
    after b = broadcast can_access throws key ids (marked b j key m)

    first_or_later :
        (b : Bool)
        → ((c : Bool) → Memᴰ i (after c).1 → has_key key (sent_to i (after c).0) ≡ true)
        → Memᴰ i (if b then j ∷ (after b).1 else (after b).1)
        → has_key key (sent_to i (after b).0) ≡ true
    first_or_later false later t = later false t
    first_or_later true later (Memᴰ.tail t) = later true t
    first_or_later true later (Memᴰ.head e) =
        noted_stays can_access throws key ids i (marked true j key m) (
          subst (λ x. has_key key (sent_to x (marked true j key m)) ≡ true) (sym e)
            (subst (λ ks. has_key key ks ≡ true)
              (sym (sent_to-set j j (trim_keys (sent_to j m ++ key ∷ [])) m ∙ rw (beq_self j) refl))
              (has_key-trim_keys key (sent_to j m))))

-- The sessions that a notification reaches.
keep-Reached :
    (can_access throws : String → Bool) (key : List ℕ) (m : Sent) (ids : List String) (i : String)
    → Memᴰ i (keep (receives can_access throws key m) ids)
      ↔ (Memᴰ i ids × (can_access i ≡ true) × (throws i ≡ false) × (Memᴰ key (sent_to i m) → ⊥))
keep-Reached can_access throws key m ids i = (
  λ h.
      let (there, passes) = (Mem-keep (receives can_access throws key m) i ids).0 h in
      (
        there,
        ground arith,
        ground arith,
        λ k. true_is-false (sym ((has_key-Mem key (sent_to i m)).1 k) ∙ ground arith),
      ),
  λ (there, allowed, sends, fresh). (Mem-keep (receives can_access throws key m) i ids).1 (
    there,
    elim (Bool-cases (has_key key (sent_to i m))) [
      | inl noted ↦ absurd (fresh ((has_key-Mem key (sent_to i m)).0 noted))
      | inr new ↦ ground arith
    ],
  ),
)

-- A notification reaches exactly the sessions of the list that can access the server, for which the
-- sending does not throw, and that have not its key noted; and another one under the same key, sent
-- to whatever sessions right after, reaches none of those. No session stands twice in either list.
pub broadcast_once :
    (can_access throws may_now fails_now : String → Bool) (key : List ℕ) (ids others : List String)
    (m : Sent) (i : String)
    → AreDistinct ids
    → AreDistinct others
    → (Memᴰ i (broadcast can_access throws key ids m).1
        ↔ (Memᴰ i ids × (can_access i ≡ true) × (throws i ≡ false) × (Memᴰ key (sent_to i m) → ⊥)))
      × ((Memᴰ i (broadcast can_access throws key ids m).1
            × Memᴰ i
                (broadcast may_now fails_now key others
                  (broadcast can_access throws key ids m).0).1)
          → ⊥)
broadcast_once can_access throws may_now fails_now key ids others m i d d' = (
  rw (broadcast-receives can_access throws key ids m d)
      (keep-Reached can_access throws key m ids i),
  λ (first, again).
      let next = (broadcast can_access throws key ids m).0 in
      let reached =
        (keep-Reached may_now fails_now key next others i).0
          (subst (Memᴰ i) (broadcast-receives may_now fails_now key others next d') again) in
      reached.3
        ((has_key-Mem key (sent_to i next)).0 (sent_noted can_access throws key ids i m first)),
)
