-- ===== src/RequestIds/Mapped.antt =====
-- mcp/core/RequestIdMapper.ts: the map of the downstream ids beside the others.
use peta_core.Prelude.{
  ℕ, text_eq, Option, List, none, some, ◌≡◌, [], inl, inr, ap, sym, ◌∙◌, ◌⊎◌, beq_self, eq_of_beq,
  subst, Option-cases, String, if_cases, ltb, ◌-◌, ◌∷◌,
}
use peta_core.Prelude.Dict
use peta_core.RequestIds.{
  MappingEntry, RequestIdMapper, RequestId, id_eq, entry_place, downstream_key, leave, add_mapping,
  generate_proxy_request_id, nonempty, original_of, register_client_request,
  register_downstream_mapping, cleanup_expired, clear, remove_expired, remove_mapping,
  set_original_progress_token, ttl_ms,
}
use peta_core.RequestIds.Agreement.{
  Agrees, some-ne-none, original, Step, Steps, Steps-Agrees, cleaning, clearing, mapping, none_left,
  noting, registering, removing, step_first,
}
use peta_core.RequestIds.Placed.{
  Placed, placed_at, IsPlaced, place_of, get-leave, get-set_cases, moved_place, placed_at-set,
  set-IsPlaced, delete-IsPlaced,
}

module _ {C : Type 0} where
  -- The maps agree, and the map of the downstream ids leads only to requests under their own keys.
  pub record IsMapped (m : RequestIdMapper C) : Type 0 where
    pub agrees : Agrees m
    pub placed : Placed m.downstream_to_proxy m.proxy_to_downstream

  -- A new request has no place yet, and no key leads to it.
  unplaced :
      (k p : List ℕ) (m : List (List ℕ × MappingEntry C))
      → original p m ≡ none
      → placed_at p m ≡ some k
      → ⊥
  unplaced k p m f h = no_place (Dict.get p m) f h
    where
      no_place : (o : Option (MappingEntry C)) → original_of o ≡ none → place_of o ≡ some k → ⊥
      no_place none f h = some-ne-none (sym h)
      no_place (some e) f h = some-ne-none f

  register-Placed :
      (i : RequestId) (method : Option String) (server : Option (List ℕ)) (now later : ℕ)
      (m : RequestIdMapper C)
      → original (generate_proxy_request_id m.session_id i now) m.proxy_to_downstream ≡ none
      → Placed m.downstream_to_proxy m.proxy_to_downstream
      → let n = (register_client_request i method server now later m).0 in
        Placed n.downstream_to_proxy n.proxy_to_downstream
  unfolding register_client_request add_mapping
  register-Placed i method server now later m f h =
      elim (Option-cases (nonempty (Dict.get i m.client_to_proxy))) [
        | inr (p, e) ↦ rw e h
        | inl e ↦ rw e (λ k q found.
            let p = generate_proxy_request_id m.session_id i now in
            set-IsPlaced k p q _ m.proxy_to_downstream
              (λ same old. absurd (
                unplaced k p m.proxy_to_downstream f (
                  subst (λ x. placed_at x m.proxy_to_downstream ≡ some k) (sym (eq_of_beq p q same))
                    old)))
              (h k q found))
      ]

  moved-IsPlaced :
      (k p : List ℕ) (e : MappingEntry C) (m : List (List ℕ × MappingEntry C))
      → (entry_place e ≡ some k) ⊎ ((j : RequestId) × (k ≡ downstream_key j []))
      → IsPlaced k p (Dict.set p e m)
  moved-IsPlaced k p e m (inl h) = inl (placed_at-set p p e m ∙ rw (beq_self p) h)
  moved-IsPlaced k p e m (inr h) = inr h

  -- A key that is not the one of the request's entry leads where it led, to a request under its key.
  left-IsPlaced :
      (k p q : List ℕ) (e : MappingEntry C) (m : RequestIdMapper C)
      → Dict.get p m.proxy_to_downstream ≡ some e
      → Placed m.downstream_to_proxy m.proxy_to_downstream
      → Dict.get k (leave (entry_place e) m.downstream_to_proxy) ≡ some q
      → (placed_at p m.proxy_to_downstream ≡ some k → ⊥) × IsPlaced k q m.proxy_to_downstream
  left-IsPlaced k p q e m there h found =
      let (old, left) = get-leave (entry_place e) k q m.downstream_to_proxy found in
      (λ at. left (ap place_of (sym there) ∙ at), h k q old)

  map-Placed :
      (p : List ℕ) (i : RequestId) (server : List ℕ) (client : Option C) (m : RequestIdMapper C)
      → Placed m.downstream_to_proxy m.proxy_to_downstream
      → let n = register_downstream_mapping p i server client m in
        Placed n.downstream_to_proxy n.proxy_to_downstream
  unfolding register_downstream_mapping
  map-Placed p i server client m h = elim (Option-cases (Dict.get p m.proxy_to_downstream)) [
    | inl e ↦ rw e h
    | inr (e, there) ↦ rw there (λ k q found.
        elim (get-set_cases (downstream_key i server) k p q
          (leave (entry_place e) m.downstream_to_proxy) found) [
            | inl (same, to) ↦
                subst (λ x. IsPlaced k x (Dict.set p (moved e) m.proxy_to_downstream)) to
                  (moved-IsPlaced k p (moved e) m.proxy_to_downstream (moved_place i server k same))
            | inr old ↦
                let (left, at) = left-IsPlaced k p q e m there h old in
                set-IsPlaced k p q (moved e) m.proxy_to_downstream
                  (λ same was. absurd (
                    left (
                      subst (λ x. placed_at x m.proxy_to_downstream ≡ some k)
                        (sym (eq_of_beq p q same)) was)))
                  at
          ])
  ]
    where
      moved : MappingEntry C → MappingEntry C
      moved e = record e {
        downstream_request_id = some i;
        server_id = some server;
        client = client;
      }

  note-Placed :
      (p : List ℕ) (token : RequestId) (m : RequestIdMapper C)
      → Placed m.downstream_to_proxy m.proxy_to_downstream
      → let n = set_original_progress_token p token m in
        Placed n.downstream_to_proxy n.proxy_to_downstream
  unfolding set_original_progress_token
  note-Placed p token m h = elim (Option-cases (Dict.get p m.proxy_to_downstream)) [
    | inl e ↦ rw e h
    | inr (e, there) ↦ rw there (λ k q found.
        set-IsPlaced k p q _ m.proxy_to_downstream
          (λ same was.
            ap place_of (sym there)
            ∙ subst (λ x. placed_at x m.proxy_to_downstream ≡ some k) (sym (eq_of_beq p q same))
                was)
          (h k q found))
  ]

  remove-Placed :
      (p : List ℕ) (m : RequestIdMapper C)
      → Placed m.downstream_to_proxy m.proxy_to_downstream
      → Placed (remove_mapping p m).downstream_to_proxy (remove_mapping p m).proxy_to_downstream
  unfolding remove_mapping
  remove-Placed p m h = elim (Option-cases (Dict.get p m.proxy_to_downstream)) [
    | inl e ↦ rw e h
    | inr (e, there) ↦ rw there (λ k q found.
        let (left, at) = left-IsPlaced k p q e m there h found in
        delete-IsPlaced k p q m.proxy_to_downstream left at)
  ]

  abbrev IsKept : RequestIdMapper C → Type 0
  IsKept m = Placed m.downstream_to_proxy m.proxy_to_downstream

  clean-Placed :
      (now : ℕ) (es : List (List ℕ × MappingEntry C)) (m : RequestIdMapper C)
      → IsKept m
      → IsKept (remove_expired now es m)
  unfolding remove_expired
  clean-Placed now [] m h = h
  clean-Placed now ((p, e) ∷ es) m h = clean-Placed now es _ (
      if_cases IsKept (ltb ttl_ms (now - e.timestamp)) (remove_mapping p m) m
        (λ _. remove-Placed p m h) (λ _. h))

  Step-Placed : {m n : RequestIdMapper C} → Step m n → IsKept m → IsKept n
  unfolding cleanup_expired clear Dict.get
  Step-Placed (registering i method server now later m f) h =
      register-Placed i method server now later m f h
  Step-Placed (mapping p i server client m) h = map-Placed p i server client m h
  Step-Placed (noting p token m) h = note-Placed p token m h
  Step-Placed (removing p m) h = remove-Placed p m h
  Step-Placed (cleaning now m) h = clean-Placed now m.proxy_to_downstream m h
  Step-Placed (clearing m) h = λ k p found. absurd (some-ne-none (sym found))

  Steps-Placed : {m n : RequestIdMapper C} → Steps m n → IsKept m → IsKept n
  Steps-Placed none_left h = h
  Steps-Placed (step_first s ss) h = Steps-Placed ss (Step-Placed s h)

  -- This stays true of a mapper, whatever calls it gets, as long as each id made up for a new request
  -- is not in use already: the id that a client gave leads to the proxy id of its request and back,
  -- and to no other request, and the map of the downstream ids leads from a key to no other request
  -- than one that is there and registered under this key. Keys of a server without a name are left
  -- out, and it is not said that each request is found under its key.
  pub Steps-IsMapped : {m n : RequestIdMapper C} → Steps m n → IsMapped m → IsMapped n
  Steps-IsMapped ss h = record {
    agrees = Steps-Agrees ss h.agrees;
    placed = Steps-Placed ss h.placed;
  }
