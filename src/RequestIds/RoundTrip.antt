-- ===== src/RequestIds/RoundTrip.antt =====
-- mcp/core/RequestIdMapper.ts: the way back from a downstream id.
use peta_core.Prelude.{
  ℕ, text_eq, Option, List, [], arith, beq_self, none, refl, some, sym, ◌∙◌, ◌∷◌, ◌≡◌,
}
use peta_core.Prelude.Dict
use peta_core.Prelude.Dict.{get-set}
use peta_core.RequestIds.{
  MappingEntry, RequestIdMapper, RequestId, id_eq, downstream_key, entry_place,
  get_original_request_id, get_original_request_id_from_downstream,
  get_proxy_request_id_from_downstream, leave, nonempty, original_of, register_downstream_mapping,
}
use peta_core.RequestIds.Agreement.{Agrees, some-ne-none, some_place}

set-get : (k p : List ℕ) (m : List (List ℕ × List ℕ)) → Dict.get k (Dict.set k p m) ≡ some p
set-get k p m = rw (get-set k k p m) (ground (arith, beq_self k))

module _ {C : Type 0} where
  not-nil :
      (p : List ℕ) (m : RequestIdMapper C) (e : MappingEntry C)
      → Agrees m
      → Dict.get p m.proxy_to_downstream ≡ some e
      → nonempty (some p) ≡ some p
  not-nil [] m e g h =
      absurd (some-ne-none (sym h ∙ nothing (Dict.get [] m.proxy_to_downstream) g.given))
    where
      nothing : (o : Option (MappingEntry C)) → original_of o ≡ none → o ≡ none
      nothing none k = refl
      nothing (some d) k = cc
  not-nil (c ∷ cs) m e g h = refl

  -- Once the downstream server's id of a known request is registered, that id leads to the id by
  -- which the client knows the request.
  pub register_downstream_mapping-RoundTrip :
      (p : List ℕ) (i : RequestId) (server : List ℕ) (client : Option C) (m : RequestIdMapper C)
      (e : MappingEntry C)
      → Agrees m
      → Dict.get p m.proxy_to_downstream ≡ some e
      → get_original_request_id_from_downstream i server
          (register_downstream_mapping p i server client m)
        ≡ some e.original_request_id
  unfolding get_original_request_id_from_downstream get_proxy_request_id_from_downstream
      get_original_request_id register_downstream_mapping
  register_downstream_mapping-RoundTrip p i server client m e g h = rw h (
      rw (set-get (downstream_key i server) p (leave (entry_place e) m.downstream_to_proxy))
        (rw (not-nil p m e g h) (g.agree.0 p ∙ some_place p m.proxy_to_downstream e h)))
