-- ===== src/Sessions/Examples.antt =====
-- Runs of mcp/core/SessionStore.ts at concrete inputs.
use peta_core.Json.{codes}
use peta_core.Prelude.{
  string_eq, text_eq, bool_eq, ℕ, String, List, ◌≡◌, [], false, keep, map, none, refl, some, take,
  true, ◌∷◌,
}
use peta_core.Prelude.Dict
use peta_core.Sessions.Client.{AuthContext, ClientSession}
use peta_core.Sessions.Store.{
  NewSession, client_disconnect, add_to_user, client_session, consume_terminated_session,
  drop_resources, drop_session, finish_create, finish_remove, finish_remove_user, no_sessions,
  prune_terminated_sessions, record_terminated_session, start_create, start_remove,
}
use peta_core.Sessions.Calls.{Call, call_all, creation, removal}
use peta_core.Sessions.Interleaved.{
  Step, play_all, consumed, consuming, dropping_resources, dropping_session, finishing_create,
  finishing_remove, finishing_remove_user, recorded, starting_create, starting_remove,
}
use peta_core.Sessions.Interleaved.Reconnect.{play_all-AllBacked, AllBacked}
use peta_core.Sessions.Interleaved.Paired.{play_all-IsPaired, IsPaired}
use peta_core.Sessions.Calls.Removed.{call_all-IsIndexed}
use peta_core.Sessions.Calls.Indexed.{IsIndexed}

abbrev ann : AuthContext
ann = record { is_anonymous = false; user_id = "ann"; expires_at = none; user_preferences = [] }

abbrev request : String → NewSession
request i = record {
  session_id = i;
  user_id = "ann";
  token = codes "secret-token-of-ann";
  auth_context = ann;
  ip = "10.0.0.1";
  user_agent = "client";
}

abbrev first_chars : List ℕ → List ℕ
first_chars token = take 6 token

abbrev session_a : ClientSession
session_a = client_session (request "a") 1000

-- A session ends and is taken up again; a second try comes too late for the record.
abbrev reconnects : List Step
reconnects =
    starting_create (request "a") 1000
    ∷ finishing_create session_a none
    ∷ starting_remove "a" client_disconnect true 2000 2000
    ∷ finishing_remove "a" session_a
    ∷ consuming (some "a") ann (codes "secret-token-of-ann") 3000 3000
    ∷ consuming (some "a") ann (codes "secret-token-of-ann") 3001 3001
    ∷ []

taken_up_once :
    (play_all first_chars reconnects (no_sessions, [])).1
    ≡ consumed "a" ann (codes "secret-token-of-ann") 3000 ∷ recorded session_a 2000 ∷ []
unfolding play_all no_sessions start_create finish_create start_remove finish_remove
    consume_terminated_session record_terminated_session prune_terminated_sessions add_to_user
    Dict.get Dict.set Dict.delete keep
taken_up_once = refl

play_all-AllBacked_example :
    AllBacked first_chars (play_all first_chars reconnects (no_sessions, [])).1
play_all-AllBacked_example = play_all-AllBacked first_chars reconnects

play_all-IsPaired_example : IsPaired (play_all first_chars reconnects (no_sessions, [])).0
play_all-IsPaired_example = play_all-IsPaired first_chars reconnects

abbrev calls : List Call
calls =
    creation (request "a") 1000 none
    ∷ creation (request "b") 1500 none
    ∷ removal "a" client_disconnect true 2000 2000
    ∷ creation (request "c") 2500 none
    ∷ []

call_all-IsIndexed_example : IsIndexed (call_all first_chars calls no_sessions)
call_all-IsIndexed_example = call_all-IsIndexed first_chars calls

-- The session "b" is created while the removal of all sessions of its user waits: it stays in the map
-- and is in the index no more.
abbrev overtaken : List Step
overtaken =
    starting_create (request "a") 1000
    ∷ finishing_create session_a none
    ∷ starting_create (request "b") 1500
    ∷ dropping_session "a"
    ∷ finishing_create (client_session (request "b") 1500) none
    ∷ dropping_resources "a"
    ∷ finishing_remove_user "ann"
    ∷ []

lost_from_index :
    (map (λ e. e.0) (play_all first_chars overtaken (no_sessions, [])).0.sessions ≡ "b" ∷ [])
    × ((play_all first_chars overtaken (no_sessions, [])).0.user_sessions ≡ [])
unfolding play_all no_sessions start_create finish_create start_remove finish_remove drop_session
    drop_resources finish_remove_user add_to_user Dict.get Dict.set Dict.delete keep
lost_from_index = (refl, refl)
