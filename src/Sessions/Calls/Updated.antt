-- ===== src/Sessions/Calls/Updated.antt =====
-- mcp/core/SessionStore.ts, updateUserPreferences: the index stays as it is.
use peta_core.Access.Permissions.{Permissions}
use peta_core.Prelude.{
  string_eq, String, Option, List, ◌≡◌, Bool-cases, [], ap, eq_of_beq, get_or, inl, inr, none, refl,
  some, subst, sym, ◌==◌, ◌∙◌, ◌∷◌,
}
use peta_core.Prelude.Dict
use peta_core.Sessions.Client.{ClientSession}
use peta_core.Sessions.Store.{SessionStore, get_user_sessions}
use peta_core.Sessions.Calls.{
  update_each, after_update, update_found_sessions, update_one, update_user_preferences,
  with_preferences,
}
use peta_core.Sessions.Calls.Indexed.{IsIndexed, is_user_of}

same-user :
    (new : Permissions) (i j u : String) (m : List (String × ClientSession))
    → is_user_of u (Dict.get j (update_one new i m (Dict.get i m))) ≡ is_user_of u (Dict.get j m)
same-user new i j u m = updated_user (Dict.get i m) refl
  where
    updated_user :
        (o : Option ClientSession)
        → Dict.get i m ≡ o
        → is_user_of u (Dict.get j (update_one new i m o)) ≡ is_user_of u (Dict.get j m)
    updated_user none e = refl
    updated_user (some c) e =
        ap (is_user_of u) (Dict.get-set i j (with_preferences new c) m)
        ∙ (elim (Bool-cases (i == j)) [
          | inl b ↦
              rw b
                (sym (ap (is_user_of u) (subst (λ k. Dict.get k m ≡ some c) (eq_of_beq i j b) e)))
          | inr b ↦ rw b refl
        ])

update_each-user :
    (new : Permissions) (ids : List String) (j u : String) (m : List (String × ClientSession))
    → is_user_of u (Dict.get j (update_each new ids m).0) ≡ is_user_of u (Dict.get j m)
unfolding update_each
update_each-user new [] j u m = refl
update_each-user new (i ∷ ids) j u m =
    update_each-user new ids j u (update_one new i m (Dict.get i m)) ∙ same-user new i j u m

pub update-IsIndexed :
    (user : String) (found : Option Permissions) (s : SessionStore)
    → IsIndexed s
    → IsIndexed (after_update s (update_user_preferences user found s))
unfolding update_user_preferences
update-IsIndexed user found s h = updated_index found (get_user_sessions user s)
  where
    updated_index :
        (found : Option Permissions) (cs : List ClientSession)
        → IsIndexed (after_update s (update_found_sessions user found s cs))
    updated_index found [] = h
    updated_index none (c ∷ cs) = h
    updated_index (some new) (c ∷ cs) = λ u j.
        h u j
        ∙ sym (update_each-user new (get_or (Dict.get user s.user_sessions) []) j u s.sessions)
