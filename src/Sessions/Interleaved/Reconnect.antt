-- ===== src/Sessions/Interleaved/Reconnect.antt =====
-- mcp/core/SessionStore.ts: who may take up a session that has ended, and how often.
use peta_core.Prelude.{
  string_eq, bool_eq, text_eq, ℕ, String, Bool, Option, List, [], false, if_cases, if◌then◌else◌,
  none, refl, some, subst, sym, true, ◌+◌, ◌<◌, ◌==◌, ◌∷◌, ◌≡◌, ◌++◌, Bool-cases, Option-cases, inl,
  inr, leb, not, ◌&&◌, arith, eq_of_beq,
}
use peta_core.Prelude.Dict
use peta_core.Sessions.Client.{AuthContext, ClientSession}
use peta_core.Sessions.Store.{
  SessionStore, Tombstone, prune_terminated_sessions, record_terminated_session,
  session_reconnect_grace_ms, tombstone_of, consume_found, DisconnectReason, NewSession,
  clear_sessions, consume_terminated_session, drop_resources, drop_session, finish_create,
  finish_remove, finish_remove_user, is_client_disconnect, matches, no_sessions, start_create,
  start_remove,
}
use peta_core.Sessions.Interleaved.{
  Event, History, consumed, recorded, event_of_consume, Step, clearing, consuming, created_in,
  dropping_resources, dropping_session, event_of_remove, finishing_create, finishing_remove,
  finishing_remove_user, play, play_all, starting_create, starting_remove,
}

-- the latest event about a session, if it is a record of it
abbrev pub if_recorded : String → Event → Option (ClientSession × ℕ)
if_recorded i (recorded c at) = some (c, at)
if_recorded i (consumed j a token at) = none

abbrev pub about : Event → String
about (recorded c at) = c.session_id
about (consumed i a token at) = i

unfoldable pub last_record : String → History → Option (ClientSession × ℕ)
last_record i [] = none
last_record i (e ∷ h) = if about e == i then if_recorded i e else last_record i h

module _ (fingerprint : List ℕ → List ℕ) where
  -- The session was recorded for the client's user, with its kind of authentication and a token of
  -- its fingerprint, and this less than the grace period ago.
  abbrev pub Allows : Option (ClientSession × ℕ) → AuthContext → List ℕ → ℕ → Type 0
  Allows none a token at = ⊥
  Allows (some (c, t)) a token at =
      (c.user_id ≡ a.user_id)
      × (c.auth_context.is_anonymous ≡ a.is_anonymous)
      × (fingerprint c.token ≡ fingerprint token)
      × (at < t + session_reconnect_grace_ms)

  abbrev pub IsBacked : Event → History → Type 0
  IsBacked (recorded c t) h = Unit
  IsBacked (consumed i a token at) h = Allows (last_record i h) a token at

  -- Each take-up is of a session whose latest event before is a record that allows it.
  abbrev pub AllBacked : History → Type 0
  AllBacked [] = Unit
  AllBacked (e ∷ h) = IsBacked e h × AllBacked h

  abbrev pub Backs : Option Tombstone → Option (ClientSession × ℕ) → Type 0
  Backs none r = Unit
  Backs (some t) none = ⊥
  Backs (some t) (some (c, at)) = t ≡ tombstone_of fingerprint c at

  -- What stands in the map is the latest event about the session.
  record IsTrue (s : SessionStore) (h : History) : Type 0 where
    unique : Dict.IsUnique s.terminated_sessions
    backed : (i : String) → Backs (Dict.get i s.terminated_sessions) (last_record i h)
    past : AllBacked h

  pub Backs-kept :
      (p : String × Tombstone → Bool) (i : String) (o : Option Tombstone)
      (r : Option (ClientSession × ℕ))
      → Backs o r
      → Backs (Dict.kept p i o) r
  Backs-kept p i none r b = tt
  Backs-kept p i (some t) r b =
      if_cases (λ o. Backs o r) (p (i, t)) (some t) none (λ e. b) (λ e. tt)

  prune-IsTrue :
      (now : ℕ) (s : SessionStore) (h : History)
      → IsTrue s h
      → IsTrue (prune_terminated_sessions now s) h
  unfolding prune_terminated_sessions
  prune-IsTrue now s h k = record {
    unique = Dict.keep-IsUnique _ s.terminated_sessions k.unique;
    backed = λ i.
        subst (λ o. Backs o (last_record i h))
          (sym (Dict.get-keep _ i s.terminated_sessions k.unique))
          (Backs-kept (λ e. not (leb e.1.expires_at now)) i (Dict.get i s.terminated_sessions)
            (last_record i h) (k.backed i));
    past = k.past;
  }

  Backs-set :
      (i j : String) (b : Bool) (c : ClientSession) (at : ℕ) (o : Option Tombstone)
      (r : Option (ClientSession × ℕ))
      → Backs o r
      → Backs
          (if b then some (tombstone_of fingerprint c at) else o)
          (if b then some (c, at) else r)
  Backs-set i j true c at o r b = refl
  Backs-set i j false c at o r b = b

  record-IsTrue :
      (c : ClientSession) (now at : ℕ) (s : SessionStore) (h : History)
      → IsTrue s h
      → IsTrue (record_terminated_session fingerprint c now at s) (recorded c at ∷ h)
  unfolding record_terminated_session last_record
  record-IsTrue c now at s h k =
      let k' = prune-IsTrue now s h k in
      let t = (prune_terminated_sessions now s).terminated_sessions in
      record {
        unique = Dict.set-IsUnique c.session_id (tombstone_of fingerprint c at) t k'.unique;
        backed = λ i.
            subst (λ o. Backs o (if c.session_id == i then some (c, at) else last_record i h))
              (sym (Dict.get-set c.session_id i (tombstone_of fingerprint c at) t))
              (Backs-set i i (c.session_id == i) c at (Dict.get i t) (last_record i h)
                (k'.backed i));
        past = (tt, k.past);
      }

  Backs-delete :
      (b : Bool) (o : Option Tombstone) (r r' : Option (ClientSession × ℕ))
      → Backs o r
      → Backs (if b then none else o) (if b then r' else r)
  Backs-delete true o r r' b = tt
  Backs-delete false o r r' b = b

  abbrev without : String → SessionStore → SessionStore
  without i s = record s { terminated_sessions = Dict.delete i s.terminated_sessions }

  delete-Backs :
      (i j : String) (s : SessionStore) (r r' : Option (ClientSession × ℕ))
      → Backs (Dict.get j s.terminated_sessions) r
      → Backs (Dict.get j (Dict.delete i s.terminated_sessions)) (if i == j then r' else r)
  delete-Backs i j s r r' b =
      subst (λ o. Backs o (if i == j then r' else r))
        (sym (Dict.get-delete i j s.terminated_sessions))
        (Backs-delete (i == j) (Dict.get j s.terminated_sessions) r r' b)

  if_same : (b : Bool) (r : Option (ClientSession × ℕ)) → (if b then r else r) ≡ r
  if_same true r = refl
  if_same false r = refl

  expired-IsTrue :
      (i : String) (s : SessionStore) (h : History) → IsTrue s h → IsTrue (without i s) h
  expired-IsTrue i s h k = record {
    unique = Dict.delete-IsUnique i s.terminated_sessions k.unique;
    backed = λ j.
        subst (λ r. Backs (Dict.get j (Dict.delete i s.terminated_sessions)) r)
          (if_same (i == j) (last_record j h))
          (delete-Backs i j s (last_record j h) (last_record j h) (k.backed j));
    past = k.past;
  }

  taken-IsTrue :
      (i : String) (a : AuthContext) (token : List ℕ) (at : ℕ) (s : SessionStore) (h : History)
      → Allows (last_record i h) a token at
      → IsTrue s h
      → IsTrue (without i s) (consumed i a token at ∷ h)
  unfolding last_record
  taken-IsTrue i a token at s h l k = record {
    unique = Dict.delete-IsUnique i s.terminated_sessions k.unique;
    backed = λ j. delete-Backs i j s (last_record j h) none (k.backed j);
    past = (l, k.past);
  }

  matches-Allows :
      (t : Tombstone) (r : Option (ClientSession × ℕ)) (a : AuthContext) (token : List ℕ) (at : ℕ)
      → Backs (some t) r
      → leb t.expires_at at ≡ false
      → matches fingerprint t a token ≡ true
      → Allows r a token at
  matches-Allows t none a token at b l m = b
  matches-Allows t (some (c, at0)) a token at b l m =
      let m' = subst (λ t. matches fingerprint t a token ≡ true) b m in
      let l' = subst (λ (t : Tombstone). leb t.expires_at at ≡ false) b l in
      (
        eq_of_beq c.user_id a.user_id (ground arith),
        eq_of_beq c.auth_context.is_anonymous a.is_anonymous (ground arith),
        eq_of_beq (fingerprint c.token) (fingerprint token) (ground arith),
        ground arith,
      )

  found-IsTrue :
      (i : String) (a : AuthContext) (token : List ℕ) (at : ℕ) (s : SessionStore) (h : History)
      (o : Option Tombstone)
      → Backs o (last_record i h)
      → IsTrue s h
      → IsTrue
          (consume_found fingerprint i a token at s o).0
          (event_of_consume (some i) a token at (consume_found fingerprint i a token at s o).1 ++ h)
  found-IsTrue i a token at s h none b k = k
  found-IsTrue i a token at s h (some t) b k = elim (Bool-cases (leb t.expires_at at)) [
    | inl e ↦ rw e (expired-IsTrue i s h k)
    | inr e ↦ elim (Bool-cases (matches fingerprint t a token)) [
      | inl m ↦ rw e (
          rw m
            (taken-IsTrue i a token at s h (matches-Allows t (last_record i h) a token at b e m) k))
      | inr m ↦ rw e (rw m k)
    ]
  ]

  consume-IsTrue :
      (i : Option String) (a : AuthContext) (token : List ℕ) (now at : ℕ) (s : SessionStore)
      (h : History)
      → IsTrue s h
      → IsTrue (consume_terminated_session fingerprint i a token now at s).0 (
          event_of_consume i a token at
            (consume_terminated_session fingerprint i a token now at s).1
          ++ h)
  unfolding consume_terminated_session
  consume-IsTrue none a token now at s h k = k
  consume-IsTrue (some i) a token now at s h k = elim (Bool-cases (i == "")) [
    | inl e ↦ rw e k
    | inr e ↦ rw e (
        let k' = prune-IsTrue now s h k in
        found-IsTrue i a token at (prune_terminated_sessions now s) h _ (k'.backed i) k')
  ]

  remove-IsTrue :
      (i : String) (reason : DisconnectReason) (preserve : Bool) (now at : ℕ) (s : SessionStore)
      (h : History)
      → IsTrue s h
      → IsTrue (start_remove fingerprint i reason preserve now at s).0 (
          event_of_remove reason preserve at (start_remove fingerprint i reason preserve now at s).1
          ++ h)
  unfolding start_remove
  remove-IsTrue i reason preserve now at s h k = elim (Option-cases (Dict.get i s.sessions)) [
    | inl e ↦ rw e k
    | inr (c, e) ↦ rw e (elim (Bool-cases (preserve && is_client_disconnect reason)) [
      | inl p ↦ rw p (record-IsTrue c now at s h k)
      | inr p ↦ rw p k
    ])
  ]

  -- Nothing but the record of ended sessions matters.
  same-IsTrue :
      (s s' : SessionStore) (h : History)
      → s.terminated_sessions ≡ s'.terminated_sessions
      → IsTrue s h
      → IsTrue s' h
  same-IsTrue s s' h e k = record {
    unique = subst (λ m. Dict.IsUnique m) e k.unique;
    backed = λ i. subst (λ m. Backs (Dict.get i m) (last_record i h)) e (k.backed i);
    past = k.past;
  }

  created_in-IsTrue :
      (q : NewSession) (now : ℕ) (s : SessionStore) (h : History)
      → IsTrue s h
      → IsTrue (created_in s (start_create q now s)) h
  unfolding start_create
  created_in-IsTrue q now s h k = elim (Bool-cases (Dict.has q.session_id s.sessions)) [
    | inl e ↦ rw e k
    | inr e ↦ rw e (same-IsTrue s _ h refl k)
  ]

  play-IsTrue :
      (p : Step) (s : SessionStore) (h : History)
      → IsTrue s h
      → IsTrue (play fingerprint p s).0 ((play fingerprint p s).1 ++ h)
  unfolding play finish_create finish_remove drop_session drop_resources finish_remove_user
      clear_sessions
  play-IsTrue (starting_create q now) s h k = created_in-IsTrue q now s h k
  play-IsTrue (consuming i a token now at) s h k = consume-IsTrue i a token now at s h k
  play-IsTrue (starting_remove i reason preserve now at) s h k =
      remove-IsTrue i reason preserve now at s h k
  play-IsTrue (finishing_create c instructions) s h k = same-IsTrue s _ h refl k
  play-IsTrue (finishing_remove i c) s h k = same-IsTrue s _ h refl k
  play-IsTrue (dropping_session i) s h k = same-IsTrue s _ h refl k
  play-IsTrue (dropping_resources i) s h k = same-IsTrue s _ h refl k
  play-IsTrue (finishing_remove_user user) s h k = same-IsTrue s _ h refl k
  play-IsTrue clearing s h k = same-IsTrue s _ h refl k

  play_all-IsTrue :
      (ps : List Step) (s : SessionStore) (h : History)
      → IsTrue s h
      → AllBacked (play_all fingerprint ps (s, h)).1
  unfolding play_all
  play_all-IsTrue [] s h k = k.past
  play_all-IsTrue (p ∷ ps) s h k =
      play_all-IsTrue ps (play fingerprint p s).0 ((play fingerprint p s).1 ++ h)
        (play-IsTrue p s h k)

-- In every order of the stretches of all calls, from the empty store on: an ended session is taken
-- up only if the latest event about it is a record of its end, at most the grace period old, and by
-- a client of the same user, with the same kind of authentication and a token of the same
-- fingerprint. So one record lets the session be taken up at most once.
pub play_all-AllBacked :
    (fingerprint : List ℕ → List ℕ) (ps : List Step)
    → AllBacked fingerprint (play_all fingerprint ps (no_sessions, [])).1
unfolding no_sessions Dict.get last_record
play_all-AllBacked fingerprint ps =
    play_all-IsTrue fingerprint ps no_sessions []
      (record { unique = tt; backed = λ i. tt; past = tt })
