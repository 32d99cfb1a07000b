-- ===== src/RequestIds.antt =====
-- mcp/core/RequestIdMapper.ts: the request ids of a session's client, of the gateway and of the
-- downstream servers. A text is its code units; a numeric id is a natural number. Each clock reading
-- is an argument. `C` is the type of downstream connections.
pub mod Agreement
pub mod Placed
pub mod Mapped
pub mod RoundTrip
mod Examples
use peta_core.Prelude.{
  ℕ, String, List, Bool, Option, text_eq, Eq, [], ap, arith, false, if◌then◌else◌, list_beq_iff,
  ltb, nat_beq, none, some, true, ◌++◌, ◌-◌, ◌==◌, ◌↔◌, ◌∷◌, ◌≡◌,
}
use peta_core.Prelude.Dict
use peta_core.Json.{codes, show}

pub data RequestId : Type 0 where
  number : ℕ → RequestId
  name : List ℕ → RequestId

abbrev pub id_beq : RequestId → RequestId → Bool
id_beq (number n) (number m) = nat_beq n m
id_beq (name s) (name t) = s == t
id_beq _ _ = false

pub id_beq_iff : (i j : RequestId) → (id_beq i j ≡ true) ↔ (i ≡ j)
id_beq_iff (number n) (number m) = ground arith
id_beq_iff (number n) (name t) = (λ h. cc, λ h. cc)
id_beq_iff (name s) (number m) = (λ h. cc, λ h. cc)
id_beq_iff (name s) (name t) =
    (λ h. ap name ((list_beq_iff s t).0 h), λ h. (list_beq_iff s t).1 (name_eq h))
  where
    name_eq : name s ≡ name t → s ≡ t
    name_eq e = cc

instance abbrev pub id_eq : Eq RequestId
id_eq = record { beq = id_beq; beq_iff = id_beq_iff }

pub record MappingEntry (C : Type 0) : Type 0 where
  pub original_request_id : RequestId
  pub proxy_request_id : List ℕ
  pub downstream_request_id : Option RequestId
  pub original_progress_token : Option RequestId
  pub server_id : Option (List ℕ)
  pub client : Option C
  pub timestamp : ℕ
  pub method : Option String

pub record RequestIdMapper (C : Type 0) : Type 0 where
  pub session_id : List ℕ
  pub client_to_proxy : List (RequestId × List ℕ)
  pub proxy_to_client : List (List ℕ × RequestId)
  pub proxy_to_downstream : List (List ℕ × MappingEntry C)
  pub downstream_to_proxy : List (List ℕ × List ℕ)

abbrev pub ttl_ms : ℕ
ttl_ms = 300000

-- `${id}`
abbrev pub show_id : RequestId → List ℕ
show_id (number n) = show n
show_id (name s) = s

-- `${sessionId}:${originalRequestId}:${timestamp}`
unfoldable pub generate_proxy_request_id : List ℕ → RequestId → ℕ → List ℕ
generate_proxy_request_id session i now = session ++ codes ":" ++ show_id i ++ codes ":" ++ show now

-- `${downstreamRequestId}:${serverId}`
abbrev pub downstream_key : RequestId → List ℕ → List ℕ
downstream_key i server = show_id i ++ codes ":" ++ server

-- An empty text counts as absent.
abbrev pub nonempty : Option (List ℕ) → Option (List ℕ)
nonempty none = none
nonempty (some []) = none
nonempty (some (c ∷ cs)) = some (c ∷ cs)

-- the key of the entry's place among the downstream ids, if it has one
abbrev pub place : Option RequestId → Option (List ℕ) → Option (List ℕ)
place (some i) (some s) = some (downstream_key i s)
place _ _ = none

abbrev pub leave : Option (List ℕ) → List (List ℕ × List ℕ) → List (List ℕ × List ℕ)
leave none m = m
leave (some k) m = Dict.delete k m

module _ {C : Type 0} where
  abbrev pub entry_place : MappingEntry C → Option (List ℕ)
  entry_place e = place e.downstream_request_id (nonempty e.server_id)

  unfoldable pub add_mapping :
      RequestId
      → Option String
      → Option (List ℕ)
      → List ℕ
      → ℕ
      → RequestIdMapper C
      → RequestIdMapper C
  add_mapping i method server proxy now m = record m {
    client_to_proxy = Dict.set i proxy m.client_to_proxy;
    proxy_to_client = Dict.set proxy i m.proxy_to_client;
    proxy_to_downstream =
        Dict.set proxy
          (record {
            original_request_id = i;
            proxy_request_id = proxy;
            downstream_request_id = none;
            original_progress_token = none;
            server_id = server;
            client = none;
            timestamp = now;
            method = method;
          })
          m.proxy_to_downstream;
  }

  abbrev pub known :
      RequestId
      → Option String
      → Option (List ℕ)
      → ℕ
      → ℕ
      → RequestIdMapper C
      → Option (List ℕ)
      → RequestIdMapper C × List ℕ
  known i method server now later m (some proxy) = (m, proxy)
  known i method server now later m none =
      let proxy = generate_proxy_request_id m.session_id i now in
      (add_mapping i method server proxy later m, proxy)

  -- The clock is read for the new id, and again for the new entry.
  unfoldable pub register_client_request :
      RequestId
      → Option String
      → Option (List ℕ)
      → ℕ
      → ℕ
      → RequestIdMapper C
      → RequestIdMapper C × List ℕ
  register_client_request i method server now later m =
      known i method server now later m (nonempty (Dict.get i m.client_to_proxy))

  abbrev pub redirect :
      List ℕ
      → RequestId
      → List ℕ
      → Option C
      → RequestIdMapper C
      → Option (MappingEntry C)
      → RequestIdMapper C
  redirect proxy i server client m none = m
  redirect proxy i server client m (some e) = record m {
    proxy_to_downstream =
        Dict.set proxy
          (record e { downstream_request_id = some i; server_id = some server; client = client })
          m.proxy_to_downstream;
    downstream_to_proxy =
        Dict.set (downstream_key i server) proxy (leave (entry_place e) m.downstream_to_proxy);
  }

  unfoldable pub register_downstream_mapping :
      List ℕ → RequestId → List ℕ → Option C → RequestIdMapper C → RequestIdMapper C
  register_downstream_mapping proxy i server client m =
      redirect proxy i server client m (Dict.get proxy m.proxy_to_downstream)

  abbrev pub note_token :
      List ℕ → RequestId → RequestIdMapper C → Option (MappingEntry C) → RequestIdMapper C
  note_token proxy token m none = m
  note_token proxy token m (some e) = record m {
    proxy_to_downstream =
        Dict.set proxy (record e { original_progress_token = some token }) m.proxy_to_downstream;
  }

  unfoldable pub set_original_progress_token :
      List ℕ → RequestId → RequestIdMapper C → RequestIdMapper C
  set_original_progress_token proxy token m =
      note_token proxy token m (Dict.get proxy m.proxy_to_downstream)

  abbrev pub original_of : Option (MappingEntry C) → Option RequestId
  original_of none = none
  original_of (some e) = some e.original_request_id

  unfoldable pub get_proxy_request_id : RequestId → RequestIdMapper C → Option (List ℕ)
  get_proxy_request_id i m = Dict.get i m.client_to_proxy

  unfoldable pub get_original_request_id : List ℕ → RequestIdMapper C → Option RequestId
  get_original_request_id proxy m = Dict.get proxy m.proxy_to_client

  unfoldable pub get_proxy_request_id_from_downstream :
      RequestId → List ℕ → RequestIdMapper C → Option (List ℕ)
  get_proxy_request_id_from_downstream i server m =
      Dict.get (downstream_key i server) m.downstream_to_proxy

  abbrev pub original_at : RequestIdMapper C → Option (List ℕ) → Option RequestId
  original_at m none = none
  original_at m (some proxy) = get_original_request_id proxy m

  unfoldable pub get_original_request_id_from_downstream :
      RequestId → List ℕ → RequestIdMapper C → Option RequestId
  get_original_request_id_from_downstream i server m =
      original_at m (nonempty (get_proxy_request_id_from_downstream i server m))

  abbrev pub drop_entry : List ℕ → RequestIdMapper C → Option (MappingEntry C) → RequestIdMapper C
  drop_entry proxy m none = m
  drop_entry proxy m (some e) = record m {
    client_to_proxy = Dict.delete e.original_request_id m.client_to_proxy;
    proxy_to_client = Dict.delete proxy m.proxy_to_client;
    proxy_to_downstream = Dict.delete proxy m.proxy_to_downstream;
    downstream_to_proxy = leave (entry_place e) m.downstream_to_proxy;
  }

  unfoldable pub remove_mapping : List ℕ → RequestIdMapper C → RequestIdMapper C
  remove_mapping proxy m = drop_entry proxy m (Dict.get proxy m.proxy_to_downstream)

  -- the loop over the entries that there were at its start: it removes none but the visited one
  unfoldable pub remove_expired :
      ℕ → List (List ℕ × MappingEntry C) → RequestIdMapper C → RequestIdMapper C
  unfolding remove_mapping
  remove_expired now [] m = m
  remove_expired now ((proxy, e) ∷ es) m =
      remove_expired now es (if ltb ttl_ms (now - e.timestamp) then remove_mapping proxy m else m)

  unfoldable pub cleanup_expired : ℕ → RequestIdMapper C → RequestIdMapper C
  unfolding remove_expired
  cleanup_expired now m = remove_expired now m.proxy_to_downstream m

  unfoldable pub clear : RequestIdMapper C → RequestIdMapper C
  clear m = record m {
    client_to_proxy = [];
    proxy_to_client = [];
    proxy_to_downstream = [];
    downstream_to_proxy = [];
  }
