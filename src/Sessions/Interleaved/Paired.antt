-- ===== src/Sessions/Interleaved/Paired.antt =====
-- mcp/core/SessionStore.ts: the two halves of a session, while calls wait for each other.
use peta_core.Prelude.{
  string_eq, ℕ, String, Option, List, ◌≡◌, Bool-cases, Option-cases, [], ap, eq_of_beq, false,
  if_cases, if◌then◌else◌, inl, inr, leb, none, refl, some, subst, sym, true, ◌&&◌, ◌++◌, ◌==◌, ◌∙◌,
  ◌∷◌,
}
use peta_core.Prelude.Dict
use peta_core.Sessions.Client.{AuthContext, ClientSession}
use peta_core.Sessions.Store.{
  SessionStore, Tombstone, clear_sessions, consume_found, consume_terminated_session,
  drop_resources, drop_session, finish_create, finish_remove, finish_remove_user,
  is_client_disconnect, matches, no_sessions, prune_terminated_sessions, record_terminated_session,
  start_create, start_remove,
}
use peta_core.Sessions.Interleaved.{
  Step, play, play_all, History, clearing, consuming, dropping_resources, dropping_session,
  finishing_create, finishing_remove, finishing_remove_user, starting_create, starting_remove,
}

-- A session's two halves are there together, and the map has each session under its own id.
abbrev pub IsNamed : String → Option ClientSession → Type 0
IsNamed i none = Unit
IsNamed i (some c) = c.session_id ≡ i

pub record IsPaired (s : SessionStore) : Type 0 where
  pub both : (i : String) → Dict.has i s.sessions ≡ Dict.has i s.proxy_sessions
  pub named : (i : String) → IsNamed i (Dict.get i s.sessions)

without-IsPaired :
    (i : String) (s t : SessionStore)
    → t.sessions ≡ Dict.delete i s.sessions
    → t.proxy_sessions ≡ Dict.delete i s.proxy_sessions
    → IsPaired s
    → IsPaired t
without-IsPaired i s t e f k = record {
  both = λ j.
      ap (Dict.has j) e
      ∙ Dict.has-delete i j s.sessions
      ∙ ap (λ b. if i == j then false else b) (k.both j)
      ∙ sym (Dict.has-delete i j s.proxy_sessions)
      ∙ ap (Dict.has j) (sym f);
  named = λ j.
      subst (λ m. IsNamed j (Dict.get j m)) (sym e)
        (subst (λ o. IsNamed j o) (sym (Dict.get-delete i j s.sessions))
          (if_cases (λ o. IsNamed j o) (i == j) none (Dict.get j s.sessions) (λ b. tt)
            (λ b. k.named j)));
}

create-IsPaired :
    (c : ClientSession) (instructions : Option String) (s : SessionStore)
    → IsPaired s
    → IsPaired (finish_create c instructions s)
unfolding finish_create
create-IsPaired c instructions s k = record {
  both = λ j.
      Dict.has-set c.session_id j c s.sessions
      ∙ ap (λ b. if c.session_id == j then true else b) (k.both j)
      ∙ sym (Dict.has-set c.session_id j _ s.proxy_sessions);
  named = λ j.
      subst (λ o. IsNamed j o) (sym (Dict.get-set c.session_id j c s.sessions))
        (if_cases (λ o. IsNamed j o) (c.session_id == j) (some c) (Dict.get j s.sessions)
          (λ b. eq_of_beq c.session_id j b) (λ b. k.named j));
}

same-IsPaired :
    (s t : SessionStore)
    → s.sessions ≡ t.sessions
    → s.proxy_sessions ≡ t.proxy_sessions
    → IsPaired s
    → IsPaired t
same-IsPaired s t e f k = record {
  both = λ j. ap (Dict.has j) (sym e) ∙ k.both j ∙ ap (Dict.has j) f;
  named = λ j. subst (λ m. IsNamed j (Dict.get j m)) e (k.named j);
}

module _ (fingerprint : List ℕ → List ℕ) where
  consume-same :
      (i : Option String) (a : AuthContext) (token : List ℕ) (now at : ℕ) (s : SessionStore)
      → ((consume_terminated_session fingerprint i a token now at s).0.sessions ≡ s.sessions)
        × ((consume_terminated_session fingerprint i a token now at s).0.proxy_sessions
            ≡ s.proxy_sessions)
  unfolding consume_terminated_session prune_terminated_sessions
  consume-same none a token now at s = (refl, refl)
  consume-same (some i) a token now at s = elim (Bool-cases (i == "")) [
    | inl e ↦ rw e (refl, refl)
    | inr e ↦ rw e (found-same (prune_terminated_sessions now s) _)
  ]
    where
      found-same :
          (s' : SessionStore) (o : Option Tombstone)
          → ((consume_found fingerprint i a token at s' o).0.sessions ≡ s'.sessions)
            × ((consume_found fingerprint i a token at s' o).0.proxy_sessions ≡ s'.proxy_sessions)
      found-same s' none = (refl, refl)
      found-same s' (some t) = elim (Bool-cases (leb t.expires_at at)) [
        | inl l ↦ rw l (refl, refl)
        | inr l ↦ elim (Bool-cases (matches fingerprint t a token)) [
          | inl m ↦ rw l (rw m (refl, refl))
          | inr m ↦ rw l (rw m (refl, refl))
        ]
      ]

  play-IsPaired : (p : Step) (s : SessionStore) → IsPaired s → IsPaired (play fingerprint p s).0
  unfolding play start_create finish_remove drop_session drop_resources finish_remove_user
      clear_sessions start_remove record_terminated_session prune_terminated_sessions Dict.get
  play-IsPaired (starting_create q now) s k = elim (Bool-cases (Dict.has q.session_id s.sessions)) [
    | inl e ↦ rw e k
    | inr e ↦ rw e (same-IsPaired s _ refl refl k)
  ]
  play-IsPaired (finishing_create c instructions) s k = create-IsPaired c instructions s k
  play-IsPaired (consuming i a token now at) s k =
      let (e, f) = consume-same i a token now at s in
      same-IsPaired s (consume_terminated_session fingerprint i a token now at s).0 (sym e) (sym f)
        k
  play-IsPaired (starting_remove i reason preserve now at) s k =
      elim (Option-cases (Dict.get i s.sessions)) [
        | inl e ↦ rw e k
        | inr (c, e) ↦ rw e (
            if_cases (λ t. IsPaired t) (preserve && is_client_disconnect reason)
              (record_terminated_session fingerprint c now at s) s
              (λ p. same-IsPaired s (record_terminated_session fingerprint c now at s) refl refl k)
              (λ p. k))
      ]
  play-IsPaired (finishing_remove i c) s k = without-IsPaired i s _ refl refl k
  play-IsPaired (dropping_session i) s k = without-IsPaired i s _ refl refl k
  play-IsPaired (dropping_resources i) s k = same-IsPaired s _ refl refl k
  play-IsPaired (finishing_remove_user user) s k = same-IsPaired s _ refl refl k
  play-IsPaired clearing s k = record { both = λ i. refl; named = λ i. tt }

  steps-IsPaired :
      (ps : List Step) (s : SessionStore) (h : History)
      → IsPaired s
      → IsPaired (play_all fingerprint ps (s, h)).0
  unfolding play_all
  steps-IsPaired [] s h k = k
  steps-IsPaired (p ∷ ps) s h k =
      steps-IsPaired ps (play fingerprint p s).0 ((play fingerprint p s).1 ++ h)
        (play-IsPaired p s k)

-- In every order of the stretches of all calls, from the empty store on, a session of the map stands
-- under its own id, and its proxy session is in the map of those exactly while it is.
pub play_all-IsPaired :
    (fingerprint : List ℕ → List ℕ) (ps : List Step)
    → IsPaired (play_all fingerprint ps (no_sessions, [])).0
unfolding no_sessions Dict.get
play_all-IsPaired fingerprint ps =
    steps-IsPaired fingerprint ps no_sessions [] (record { both = λ i. refl; named = λ i. tt })
