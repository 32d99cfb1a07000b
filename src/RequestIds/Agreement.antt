-- ===== src/RequestIds/Agreement.antt =====
-- mcp/core/RequestIdMapper.ts: when the maps agree, and the calls that may come.
use peta_core.Prelude.{
  ℕ, text_eq, Option, List, arith, if◌then◌else◌, none, some, ◌==◌, ◌↔◌, ◌≡◌, Option-cases, String,
  [], false, if_cases, inl, inr, ltb, refl, ◌-◌, ◌∷◌, ap, sym, ◌∙◌,
}
use peta_core.Prelude.Dict
use peta_core.Prelude.Dict.{get-set, get-delete}
use peta_core.RequestIds.{
  MappingEntry, RequestIdMapper, RequestId, id_eq, id_beq_iff, original_of, add_mapping,
  cleanup_expired, clear, generate_proxy_request_id, nonempty, register_client_request,
  register_downstream_mapping, remove_expired, remove_mapping, set_original_progress_token, ttl_ms,
}

generate-ne-nil :
    (session : List ℕ) (i : RequestId) (now : ℕ)
    → (generate_proxy_request_id session i now == []) ≡ false
unfolding generate_proxy_request_id
generate-ne-nil [] i now = refl
generate-ne-nil (c ∷ cs) i now = refl

pub some-ne-none {ℓ} : {A : Type ℓ} {a : A} → some a ≡ none → ⊥
some-ne-none e = cc

module _ {C : Type 0} where
  abbrev pub original : List ℕ → List (List ℕ × MappingEntry C) → Option RequestId
  original p m = original_of (Dict.get p m)

  -- A proxy id leads back to the client's id of its entry, and a client's id leads to the proxy id
  -- whose entry is its own.
  abbrev pub Agree :
      List (RequestId × List ℕ)
      → List (List ℕ × RequestId)
      → List (List ℕ × MappingEntry C)
      → Type 0
  Agree to back entries =
      ((p : List ℕ) → Dict.get p back ≡ original p entries)
      × ((i : RequestId) (p : List ℕ) → (Dict.get i to ≡ some p) ↔ (original p entries ≡ some i))

  -- The maps of a mapper agree, and no proxy id is empty.
  pub record Agrees (m : RequestIdMapper C) : Type 0 where
    pub agree : Agree m.client_to_proxy m.proxy_to_client m.proxy_to_downstream
    pub given : original [] m.proxy_to_downstream ≡ none

  original-set :
      (p q : List ℕ) (e : MappingEntry C) (m : List (List ℕ × MappingEntry C))
      → original q (Dict.set p e m) ≡ (if p == q then some e.original_request_id else original q m)
  original-set p q e m = rw (get-set p q e m) (ground arith)

  original-delete :
      (p q : List ℕ) (m : List (List ℕ × MappingEntry C))
      → original q (Dict.delete p m) ≡ (if p == q then none else original q m)
  original-delete p q m = rw (get-delete p q m) (ground arith)

  -- An entry that is replaced by one of the same client's id leaves the maps in agreement.
  replace-Agree :
      (to : List (RequestId × List ℕ)) (back : List (List ℕ × RequestId))
      (entries : List (List ℕ × MappingEntry C)) (p : List ℕ) (e : MappingEntry C)
      → original p entries ≡ some e.original_request_id
      → Agree to back entries
      → Agree to back (Dict.set p e entries)
  replace-Agree to back entries p e h (a, b) = (
    λ q. rw (original-set p q e entries) (ground (arith, a q, text_eq.beq_iff p q, h)),
    λ i q. rw (original-set p q e entries) (ground (arith, b i q, text_eq.beq_iff p q, h)),
  )

  add-Agree :
      (i : RequestId) (p : List ℕ) (e : MappingEntry C) (to : List (RequestId × List ℕ))
      (back : List (List ℕ × RequestId)) (entries : List (List ℕ × MappingEntry C))
      → e.original_request_id ≡ i
      → Dict.get i to ≡ none
      → original p entries ≡ none
      → Agree to back entries
      → Agree (Dict.set i p to) (Dict.set p i back) (Dict.set p e entries)
  add-Agree i p e to back entries o f g (a, b) = (
    λ q. rw (original-set p q e entries) (rw (get-set p q i back) (ground (arith, a q, o))),
    λ j q. rw (original-set p q e entries) (
        rw (get-set i j p to) (grind (arith, b j q, text_eq.beq_iff p q, id_beq_iff i j, o, f, g))),
  )

  drop-Agree :
      (i : RequestId) (p : List ℕ) (to : List (RequestId × List ℕ))
      (back : List (List ℕ × RequestId)) (entries : List (List ℕ × MappingEntry C))
      → original p entries ≡ some i
      → Agree to back entries
      → Agree (Dict.delete i to) (Dict.delete p back) (Dict.delete p entries)
  drop-Agree i p to back entries h (a, b) = (
    λ q. rw (original-delete p q entries) (rw (get-delete p q back) (ground (arith, a q))),
    λ j q. rw (original-delete p q entries) (
        rw (get-delete i j to)
          (grind (arith, b j q, b i p, text_eq.beq_iff p q, id_beq_iff i j, h))),
  )

  -- One call of the mapper. The id that a registration makes up is not in use yet.
  pub data Step : RequestIdMapper C → RequestIdMapper C → Type 0 where
    registering :
        (i : RequestId) (method : Option String) (server : Option (List ℕ)) (now later : ℕ)
        (m : RequestIdMapper C)
        → original (generate_proxy_request_id m.session_id i now) m.proxy_to_downstream ≡ none
        → Step m (register_client_request i method server now later m).0
    mapping :
        (p : List ℕ) (i : RequestId) (server : List ℕ) (client : Option C) (m : RequestIdMapper C)
        → Step m (register_downstream_mapping p i server client m)
    noting :
        (p : List ℕ) (token : RequestId) (m : RequestIdMapper C)
        → Step m (set_original_progress_token p token m)
    removing : (p : List ℕ) (m : RequestIdMapper C) → Step m (remove_mapping p m)
    cleaning : (now : ℕ) (m : RequestIdMapper C) → Step m (cleanup_expired now m)
    clearing : (m : RequestIdMapper C) → Step m (clear m)

  pub data Steps : RequestIdMapper C → RequestIdMapper C → Type 0 where
    none_left : {m : RequestIdMapper C} → Steps m m
    step_first : {m n o : RequestIdMapper C} → Step m n → Steps n o → Steps m o

  pub some_place :
      (p : List ℕ) (m : List (List ℕ × MappingEntry C)) (e : MappingEntry C)
      → Dict.get p m ≡ some e
      → original p m ≡ some e.original_request_id
  some_place p m e h = rw h refl

  replace-given :
      (p : List ℕ) (m : List (List ℕ × MappingEntry C)) (e : MappingEntry C)
      → original p m ≡ some e.original_request_id
      → original [] m ≡ none
      → original [] (Dict.set p e m) ≡ none
  replace-given p m e h g = rw (original-set p [] e m) (ground (arith, text_eq.beq_iff p [], h, g))

  unknown :
      (m : RequestIdMapper C) (i : RequestId)
      → Agrees m
      → nonempty (Dict.get i m.client_to_proxy) ≡ none
      → Dict.get i m.client_to_proxy ≡ none
  unknown m i g h = elim (Option-cases (Dict.get i m.client_to_proxy)) [
    | inl e ↦ e
    | inr ([], e) ↦ absurd (some-ne-none (sym ((g.agree.1 i []).0 e) ∙ g.given))
    | inr (c ∷ cs, e) ↦ absurd (some-ne-none (sym (ap nonempty e) ∙ h))
  ]

  register-Agrees :
      (i : RequestId) (method : Option String) (server : Option (List ℕ)) (now later : ℕ)
      (m : RequestIdMapper C)
      → original (generate_proxy_request_id m.session_id i now) m.proxy_to_downstream ≡ none
      → Agrees m
      → Agrees (register_client_request i method server now later m).0
  unfolding register_client_request add_mapping
  register-Agrees i method server now later m f g =
      elim (Option-cases (nonempty (Dict.get i m.client_to_proxy))) [
        | inr (p, e) ↦ rw e g
        | inl e ↦ rw e (record {
          agree =
              add-Agree i _ _ m.client_to_proxy m.proxy_to_client m.proxy_to_downstream refl
                (unknown m i g e) f g.agree;
          given =
              rw
                (original-set (generate_proxy_request_id m.session_id i now) [] _
                  m.proxy_to_downstream)
                (ground (arith, generate-ne-nil m.session_id i now, g.given));
        })
      ]

  map-Agrees :
      (p : List ℕ) (i : RequestId) (server : List ℕ) (client : Option C) (m : RequestIdMapper C)
      → Agrees m
      → Agrees (register_downstream_mapping p i server client m)
  unfolding register_downstream_mapping
  map-Agrees p i server client m g = elim (Option-cases (Dict.get p m.proxy_to_downstream)) [
    | inl h ↦ rw h g
    | inr (e, h) ↦
        let k = some_place p m.proxy_to_downstream e h in
        rw h (record {
          agree =
              replace-Agree m.client_to_proxy m.proxy_to_client m.proxy_to_downstream p _ k g.agree;
          given = replace-given p m.proxy_to_downstream _ k g.given;
        })
  ]

  note-Agrees :
      (p : List ℕ) (token : RequestId) (m : RequestIdMapper C)
      → Agrees m
      → Agrees (set_original_progress_token p token m)
  unfolding set_original_progress_token
  note-Agrees p token m g = elim (Option-cases (Dict.get p m.proxy_to_downstream)) [
    | inl h ↦ rw h g
    | inr (e, h) ↦
        let k = some_place p m.proxy_to_downstream e h in
        rw h (record {
          agree =
              replace-Agree m.client_to_proxy m.proxy_to_client m.proxy_to_downstream p _ k g.agree;
          given = replace-given p m.proxy_to_downstream _ k g.given;
        })
  ]

  remove-Agrees : (p : List ℕ) (m : RequestIdMapper C) → Agrees m → Agrees (remove_mapping p m)
  unfolding remove_mapping
  remove-Agrees p m g = elim (Option-cases (Dict.get p m.proxy_to_downstream)) [
    | inl h ↦ rw h g
    | inr (e, h) ↦ rw h (record {
      agree =
          drop-Agree e.original_request_id p m.client_to_proxy m.proxy_to_client
            m.proxy_to_downstream (some_place p m.proxy_to_downstream e h) g.agree;
      given = rw (original-delete p [] m.proxy_to_downstream) (ground (arith, g.given));
    })
  ]

  clean-Agrees :
      (now : ℕ) (es : List (List ℕ × MappingEntry C)) (m : RequestIdMapper C)
      → Agrees m
      → Agrees (remove_expired now es m)
  unfolding remove_expired
  clean-Agrees now [] m g = g
  clean-Agrees now ((p, e) ∷ es) m g = clean-Agrees now es _ (
      if_cases Agrees (ltb ttl_ms (now - e.timestamp)) (remove_mapping p m) m
        (λ h. remove-Agrees p m g) (λ h. g))

  pub Step-Agrees : {m n : RequestIdMapper C} → Step m n → Agrees m → Agrees n
  unfolding cleanup_expired clear Dict.get
  Step-Agrees (registering i method server now later m f) g =
      register-Agrees i method server now later m f g
  Step-Agrees (mapping p i server client m) g = map-Agrees p i server client m g
  Step-Agrees (noting p token m) g = note-Agrees p token m g
  Step-Agrees (removing p m) g = remove-Agrees p m g
  Step-Agrees (cleaning now m) g = clean-Agrees now m.proxy_to_downstream m g
  Step-Agrees (clearing m) g = record {
    agree = (λ p. refl, λ i p. ((λ h. cc), (λ h. cc)));
    given = refl;
  }

  -- Whatever calls a mapper in agreement gets, it stays so, as long as each id made up for a new
  -- request is not in use already.
  pub Steps-Agrees : {m n : RequestIdMapper C} → Steps m n → Agrees m → Agrees n
  Steps-Agrees none_left g = g
  Steps-Agrees (step_first s ss) g = Steps-Agrees ss (Step-Agrees s g)
