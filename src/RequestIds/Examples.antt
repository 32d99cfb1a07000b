-- ===== src/RequestIds/Examples.antt =====
-- Runs of the mapper of mcp/core/RequestIdMapper.ts at concrete inputs.
use peta_core.Prelude.{ℕ, text_eq, [], none, refl, some, sym, ◌≡◌}
use peta_core.Prelude.Dict
use peta_core.Json.{codes, show}
use peta_core.RequestIds.{
  MappingEntry, RequestIdMapper, id_eq, add_mapping, cleanup_expired, generate_proxy_request_id,
  get_original_request_id_from_downstream, name, number, register_client_request,
  register_downstream_mapping,
}
use peta_core.RequestIds.Agreement.{
  Agrees, Step, cleaning, none_left, registering, Step-Agrees, step_first, mapping, some-ne-none,
}
use peta_core.RequestIds.Mapped.{IsMapped, Steps-IsMapped}
use peta_core.RequestIds.RoundTrip.{register_downstream_mapping-RoundTrip}

abbrev empty_mapper : RequestIdMapper ℕ
empty_mapper = record {
  session_id = codes "s";
  client_to_proxy = [];
  proxy_to_client = [];
  proxy_to_downstream = [];
  downstream_to_proxy = [];
}

empty-Agrees : Agrees empty_mapper
unfolding Dict.get
empty-Agrees = record { agree = (λ p. refl, λ i p. ((λ h. cc), (λ h. cc))); given = refl }

abbrev mapper : RequestIdMapper ℕ
mapper = (register_client_request (number 7) none none 1000 1000 empty_mapper).0

registered : Step empty_mapper mapper
unfolding Dict.get
registered = registering (number 7) none none 1000 1000 empty_mapper refl

-- A number and a text that are written alike get one proxy id within a millisecond.
same_proxy :
    generate_proxy_request_id (codes "s") (number 1) 5
    ≡ generate_proxy_request_id (codes "s") (name (codes "1")) 5
unfolding generate_proxy_request_id show
same_proxy = refl

empty-IsMapped : IsMapped empty_mapper
unfolding Dict.get
empty-IsMapped = record {
  agrees = empty-Agrees;
  placed = λ k p found. absurd (some-ne-none (sym found));
}

-- A request is registered, its downstream id noted, and both are removed when they are too old.
Steps-IsMapped_example : IsMapped (
    cleanup_expired 400000
      (register_downstream_mapping (codes "s:7:1000") (number 3) (codes "git") none mapper))
Steps-IsMapped_example =
    Steps-IsMapped
      (step_first registered (
        step_first (mapping (codes "s:7:1000") (number 3) (codes "git") none mapper) (
          step_first
            (cleaning 400000
              (register_downstream_mapping (codes "s:7:1000") (number 3) (codes "git") none mapper))
            none_left)))
      empty-IsMapped

abbrev entry : MappingEntry ℕ
entry = record {
  original_request_id = number 7;
  proxy_request_id = codes "s:7:1000";
  downstream_request_id = none;
  original_progress_token = none;
  server_id = none;
  client = none;
  timestamp = 1000;
  method = none;
}

there : Dict.get (codes "s:7:1000") mapper.proxy_to_downstream ≡ some entry
unfolding register_client_request add_mapping Dict.get Dict.set generate_proxy_request_id show
there = refl

register_downstream_mapping-RoundTrip_example :
    get_original_request_id_from_downstream
      (number 3)
      (codes "git")
      (register_downstream_mapping (codes "s:7:1000") (number 3) (codes "git") none mapper)
    ≡ some (number 7)
register_downstream_mapping-RoundTrip_example =
    register_downstream_mapping-RoundTrip (codes "s:7:1000") (number 3) (codes "git") none mapper
      entry (Step-Agrees registered empty-Agrees) there
