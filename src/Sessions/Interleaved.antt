-- ===== src/Sessions/Interleaved.antt =====
-- mcp/core/SessionStore.ts: the stretches of all calls in any order, as they may come while calls wait
-- for each other, and what is seen of them from outside.
pub mod Reconnect
pub mod Paired
use peta_core.Prelude.{
  ℕ, String, Bool, Option, List, [], if◌then◌else◌, none, some, true, ◌&&◌, ◌++◌, ◌∷◌,
}
use peta_core.Sessions.Client.{AuthContext, ClientSession}
use peta_core.Sessions.Store.{
  SessionStore, DisconnectReason, NewSession, clear_sessions, consume_terminated_session,
  drop_resources, drop_session, finish_create, finish_remove, finish_remove_user,
  is_client_disconnect, start_create, start_remove,
}

-- A step takes what the code before it has left for it; here that may be anything.
pub data Step : Type 0 where
  starting_create : NewSession → ℕ → Step
  finishing_create : ClientSession → Option String → Step
  consuming : Option String → AuthContext → List ℕ → ℕ → ℕ → Step
  starting_remove : String → DisconnectReason → Bool → ℕ → ℕ → Step
  finishing_remove : String → ClientSession → Step
  dropping_session dropping_resources finishing_remove_user : String → Step
  clearing : Step

-- What the record of terminated sessions is for: a session was recorded, or a client took it up.
pub data Event : Type 0 where
  recorded : ClientSession → ℕ → Event
  consumed : String → AuthContext → List ℕ → ℕ → Event

abbrev pub History : Type 0
History = List Event

abbrev pub created_in : SessionStore → Option (SessionStore × ClientSession) → SessionStore
created_in s none = s
created_in s (some (s', c)) = s'

abbrev pub event_of_consume : Option String → AuthContext → List ℕ → ℕ → Bool → History
event_of_consume (some i) a token at true = consumed i a token at ∷ []
event_of_consume _ a token at _ = []

-- a session that is preserved for a client that disconnects is recorded
abbrev pub event_of_remove : DisconnectReason → Bool → ℕ → Option ClientSession → History
event_of_remove reason preserve at none = []
event_of_remove reason preserve at (some c) =
    if preserve && is_client_disconnect reason then recorded c at ∷ [] else []

module _ (fingerprint : List ℕ → List ℕ) where
  unfoldable pub play : Step → SessionStore → SessionStore × History
  play (starting_create q now) s = (created_in s (start_create q now s), [])
  play (finishing_create c instructions) s = (finish_create c instructions s, [])
  play (consuming i a token now at) s =
      let (s', b) = consume_terminated_session fingerprint i a token now at s in
      (s', event_of_consume i a token at b)
  play (starting_remove i reason preserve now at) s =
      let (s', c) = start_remove fingerprint i reason preserve now at s in
      (s', event_of_remove reason preserve at c)
  play (finishing_remove i c) s = ((finish_remove i c s).0, [])
  play (dropping_session i) s = (drop_session i s, [])
  play (dropping_resources i) s = (drop_resources i s, [])
  play (finishing_remove_user user) s = (finish_remove_user user s, [])
  play clearing s = (clear_sessions s, [])

  -- the newest events come first
  unfoldable pub play_all : List Step → SessionStore × History → SessionStore × History
  unfolding play
  play_all [] (s, h) = (s, h)
  play_all (p ∷ ps) (s, h) = let (s', e) = play p s in play_all ps (s', e ++ h)
