-- ===== src/Sessions/Calls/Removed.antt =====
-- mcp/core/SessionStore.ts: the removal of all sessions of a user, and all calls together.
use peta_core.Prelude.{
  string_eq, String, Bool, Option, List, ◌≡◌, Bool-cases, Option-cases, [], ap, eq_of_beq, false,
  get_or, if◌then◌else◌, inl, inr, none, refl, some, subst, sym, true, ◌==◌, ◌||◌, ◌∙◌, ◌∷◌,
  if_cases, ℕ, ◌&&◌,
}
use peta_core.Prelude.Dict
use peta_core.Sessions.Client.{ClientSession}
use peta_core.Sessions.Store.{
  SessionStore, is_in, drop_resources, drop_session, finish_remove_user, DisconnectReason,
  clear_sessions, finish_remove, is_client_disconnect, no_sessions, prune_terminated_sessions,
  record_terminated_session, session_timeout, start_remove, user_expired,
}
use peta_core.Sessions.Calls.{
  drop_all, remove_all_user_sessions, remove_users_of, Call, call, call_all, clean_up,
  cleanup_expired_sessions, creation, drop_one, expired_entries, inactive_entries, leaving, removal,
  remove_all_sessions, remove_each, remove_session, remove_single_session, shutdown, user_removal,
  preference_update,
}
use peta_core.Sessions.Calls.Indexed.{
  IsIndexed, ids_of, ids_of-delete, is_user_of, after_create-IsIndexed, remove-IsIndexed,
}
use peta_core.Sessions.Calls.Updated.{update-IsIndexed}

drop_one-sessions :
    (j i : String) (s : SessionStore)
    → Dict.get i (drop_one j s).sessions ≡ (if j == i then none else Dict.get i s.sessions)
unfolding drop_session drop_resources
drop_one-sessions j i s = elim (Option-cases (Dict.get j s.sessions)) [
  | inl e ↦
      rw e
        (none_anyway (j == i) (λ b. subst (λ k. Dict.get k s.sessions ≡ none) (eq_of_beq j i b) e))
  | inr (c, e) ↦ rw e (Dict.get-delete j i s.sessions)
]
  where
    none_anyway :
        (a : Bool)
        → (a ≡ true → Dict.get i s.sessions ≡ none)
        → Dict.get i s.sessions ≡ (if a then none else Dict.get i s.sessions)
    none_anyway true f = f refl
    none_anyway false f = refl

drop_one-user_sessions :
    (j : String) (s : SessionStore) → (drop_one j s).user_sessions ≡ s.user_sessions
unfolding drop_session drop_resources
drop_one-user_sessions j s =
    if_cases (λ (t : SessionStore). t.user_sessions ≡ s.user_sessions) (Dict.has j s.sessions)
      (drop_resources j (drop_session j s)) s (λ e. refl) (λ e. refl)

if_or :
    (a b : Bool) (o : Option ClientSession)
    → (if b then none else (if a then none else o)) ≡ (if a || b then none else o)
if_or true true o = refl
if_or true false o = refl
if_or false true o = refl
if_or false false o = refl

drop_all-sessions :
    (ids : List String) (i : String) (s : SessionStore)
    → Dict.get i (drop_all ids s).sessions ≡ (if is_in i ids then none else Dict.get i s.sessions)
unfolding drop_all
drop_all-sessions [] i s = refl
drop_all-sessions (j ∷ ids) i s =
    drop_all-sessions ids i (drop_one j s)
    ∙ ap (λ o. if is_in i ids then none else o) (drop_one-sessions j i s)
    ∙ if_or (j == i) (is_in i ids) (Dict.get i s.sessions)

drop_all-user_sessions :
    (ids : List String) (s : SessionStore) → (drop_all ids s).user_sessions ≡ s.user_sessions
unfolding drop_all
drop_all-user_sessions [] s = refl
drop_all-user_sessions (j ∷ ids) s =
    drop_all-user_sessions ids (drop_one j s) ∙ drop_one-user_sessions j s

if_none : (b : Bool) (o : Option ClientSession) → b ≡ false → (if b then none else o) ≡ o
if_none true o e = cc
if_none false o e = refl

-- What is left of a session of the map when the sessions of a user go.
abbrev pub left_by : String → Option ClientSession → Option ClientSession
left_by user o = if is_user_of user o then none else o

-- After the removal of all sessions of a user, exactly the sessions of other users are left in the
-- map, if the index had the sessions of the map.
pub remove_all_user_sessions-left_by :
    (user i : String) (s : SessionStore)
    → IsIndexed s
    → Dict.get i (remove_all_user_sessions user s).sessions ≡ left_by user (Dict.get i s.sessions)
unfolding remove_all_user_sessions finish_remove_user
remove_all_user_sessions-left_by user i s h = removed-left_by (Dict.get user s.user_sessions) refl
  where
    removed-left_by :
        (o : Option (List String))
        → Dict.get user s.user_sessions ≡ o
        → Dict.get i (remove_users_of user s o).sessions ≡ left_by user (Dict.get i s.sessions)
    removed-left_by none e =
        sym (if_none _ (Dict.get i s.sessions) (sym (h user i) ∙ ap (λ o. is_in i (get_or o [])) e))
    removed-left_by (some []) e =
        sym (if_none _ (Dict.get i s.sessions) (sym (h user i) ∙ ap (λ o. is_in i (get_or o [])) e))
    removed-left_by (some (j ∷ ids)) e =
        drop_all-sessions (j ∷ ids) i s
        ∙ ap (λ b. if b then none else Dict.get i s.sessions)
            (sym (ap (λ o. is_in i (get_or o [])) e) ∙ h user i)

remove_user-index :
    (user u : String) (s : SessionStore)
    → ids_of u (remove_all_user_sessions user s).user_sessions
      ≡ (if user == u then [] else ids_of u s.user_sessions)
unfolding remove_all_user_sessions finish_remove_user
remove_user-index user u s = removed_index (Dict.get user s.user_sessions) refl
  where
    already_empty :
        ids_of user s.user_sessions ≡ []
        → ids_of u s.user_sessions ≡ (if user == u then [] else ids_of u s.user_sessions)
    already_empty e = elim (Bool-cases (user == u)) [
      | inl a ↦ rw a (subst (λ v. ids_of v s.user_sessions ≡ []) (eq_of_beq user u a) e)
      | inr a ↦ rw a refl
    ]

    removed_index :
        (o : Option (List String))
        → Dict.get user s.user_sessions ≡ o
        → ids_of u (remove_users_of user s o).user_sessions
          ≡ (if user == u then [] else ids_of u s.user_sessions)
    removed_index none e = already_empty (ap (λ o. get_or o []) e)
    removed_index (some []) e = already_empty (ap (λ o. get_or o []) e)
    removed_index (some (j ∷ ids)) e =
        ap (λ m. ids_of u (Dict.delete user m)) (drop_all-user_sessions (j ∷ ids) s)
        ∙ ids_of-delete user u s.user_sessions

remove_user-IsIndexed :
    (user : String) (s : SessionStore) → IsIndexed s → IsIndexed (remove_all_user_sessions user s)
remove_user-IsIndexed user s h u i =
    ap (is_in i) (remove_user-index user u s)
    ∙ other_users (Dict.get i s.sessions) (h u i)
    ∙ ap (is_user_of u) (sym (remove_all_user_sessions-left_by user i s h))
  where
    other_users :
        (o : Option ClientSession)
        → is_in i (ids_of u s.user_sessions) ≡ is_user_of u o
        → is_in i (if user == u then [] else ids_of u s.user_sessions)
          ≡ is_user_of u (left_by user o)
    other_users none e = elim (Bool-cases (user == u)) [ inl a ↦ rw a refl | inr a ↦ rw a e ]
    other_users (some c) e = elim (Bool-cases (user == u)) [
      | inl a ↦ elim (Bool-cases (c.user_id == user)) [
        | inl k ↦ rw a (rw k refl)
        | inr k ↦ rw a (rw k (sym (subst (λ v. (c.user_id == v) ≡ false) (eq_of_beq user u a) k)))
      ]
      | inr a ↦ elim (Bool-cases (c.user_id == user)) [
        | inl k ↦
            rw a (rw k (e ∙ subst (λ v. (v == u) ≡ false) (sym (eq_of_beq c.user_id user k)) a))
        | inr k ↦ rw a (rw k e)
      ]
    ]

module _ (fingerprint : List ℕ → List ℕ) where
  remove_single-IsIndexed :
      (i : String) (reason : DisconnectReason) (preserve : Bool) (now at : ℕ) (s : SessionStore)
      → IsIndexed s
      → IsIndexed (remove_single_session fingerprint i reason preserve now at s)
  unfolding remove_single_session start_remove record_terminated_session prune_terminated_sessions
  remove_single-IsIndexed i reason preserve now at s h =
      elim (Option-cases (Dict.get i s.sessions)) [
        | inl e ↦ rw e h
        | inr (c, e) ↦ rw e (
            if_cases (λ t. IsIndexed (finish_remove i c t).0)
              (preserve && is_client_disconnect reason)
              (record_terminated_session fingerprint c now at s) s
              (λ p. remove-IsIndexed i c (record_terminated_session fingerprint c now at s) e h)
              (λ p. remove-IsIndexed i c s e h))
      ]

  remove_session-IsIndexed :
      (i : String) (reason : DisconnectReason) (is_user : Bool) (now : ℕ) (s : SessionStore)
      → IsIndexed s
      → IsIndexed (remove_session fingerprint i reason is_user now s)
  unfolding remove_session
  remove_session-IsIndexed i reason is_user now s h = elim (Option-cases (Dict.get i s.sessions)) [
    | inl e ↦ rw e h
    | inr (c, e) ↦ rw e (
        if_cases (λ t. IsIndexed t) is_user (remove_all_user_sessions c.user_id s)
          (remove_single_session fingerprint i reason false now now s)
          (λ p. remove_user-IsIndexed c.user_id s h)
          (λ p. remove_single-IsIndexed i reason false now now s h))
  ]

  remove_each-IsIndexed :
      (ids : List String) (reason : DisconnectReason) (is_user : Bool) (now : ℕ) (s : SessionStore)
      → IsIndexed s
      → IsIndexed (remove_each fingerprint ids reason is_user now s)
  unfolding remove_each
  remove_each-IsIndexed [] reason is_user now s h = h
  remove_each-IsIndexed (i ∷ ids) reason is_user now s h =
      remove_each-IsIndexed ids reason is_user now
        (remove_session fingerprint i reason is_user now s)
        (remove_session-IsIndexed i reason is_user now s h)

  call-IsIndexed : (c : Call) (s : SessionStore) → IsIndexed s → IsIndexed (call fingerprint c s)
  unfolding call cleanup_expired_sessions remove_all_sessions clear_sessions Dict.get
  call-IsIndexed (creation q now profile) s h = after_create-IsIndexed q now profile s h
  call-IsIndexed (removal i reason preserve now at) s h =
      remove_single-IsIndexed i reason preserve now at s h
  call-IsIndexed (leaving i reason is_user now) s h =
      remove_session-IsIndexed i reason is_user now s h
  call-IsIndexed (user_removal user) s h = remove_user-IsIndexed user s h
  call-IsIndexed (clean_up now) s h =
      remove_each-IsIndexed (inactive_entries now s) session_timeout false now
        (remove_each fingerprint (expired_entries now s) user_expired true now s)
        (remove_each-IsIndexed (expired_entries now s) user_expired true now s h)
  call-IsIndexed (preference_update user found) s h = update-IsIndexed user found s h
  call-IsIndexed shutdown s h = λ user i. refl

  calls-IsIndexed :
      (cs : List Call) (s : SessionStore) → IsIndexed s → IsIndexed (call_all fingerprint cs s)
  unfolding call_all
  calls-IsIndexed [] s h = h
  calls-IsIndexed (c ∷ cs) s h = calls-IsIndexed cs (call fingerprint c s) (call-IsIndexed c s h)

-- After any calls that do not run while another waits, from the empty store on, the index has exactly
-- the sessions of the map, each under its user.
pub call_all-IsIndexed :
    (fingerprint : List ℕ → List ℕ) (cs : List Call)
    → IsIndexed (call_all fingerprint cs no_sessions)
unfolding no_sessions Dict.get
call_all-IsIndexed fingerprint cs = calls-IsIndexed fingerprint cs no_sessions (λ user i. refl)
