-- ===== src/Sessions/Calls/Indexed.antt =====
-- mcp/core/SessionStore.ts: the index of the sessions of each user, after whole calls.
use peta_core.Prelude.{
  string_eq, String, Bool, Option, List, ◌≡◌, [], ap, arith, false, get_or, if◌then◌else◌, keep,
  none, refl, some, true, ◌++◌, ◌==◌, ◌||◌, ◌∙◌, ◌∷◌, Bool-cases, Option-cases, eq_of_beq, inl, inr,
  subst, sym, ℕ,
}
use peta_core.Prelude.Dict
use peta_core.Sessions.Client.{ClientSession}
use peta_core.Sessions.Store.{
  SessionStore, is_in, add_id, add_to_user, delete_id, drop_from_set, finish_create, NewSession,
  client_session, drop_from_user, finish_remove, start_create,
}
use peta_core.Sessions.Calls.{Profile, after_create, create_session, instructions_of}

abbrev pub Index : Type 0
Index = List (String × List String)

abbrev pub is_user_of : String → Option ClientSession → Bool
is_user_of user none = false
is_user_of user (some c) = c.user_id == user

abbrev pub ids_of : String → Index → List String
ids_of user m = get_or (Dict.get user m) []

-- The index has exactly the sessions of the map, each under its user.
abbrev pub IsIndexed : SessionStore → Type 0
IsIndexed s =
    (user i : String)
    → is_in i (ids_of user s.user_sessions) ≡ is_user_of user (Dict.get i s.sessions)

is_in-append :
    (i : String) (ids jds : List String) → is_in i (ids ++ jds) ≡ (is_in i ids || is_in i jds)
is_in-append i [] jds = refl
is_in-append i (j ∷ ids) jds = ground (arith, is_in-append i ids jds)

is_in-add_id :
    (i j : String) (ids : List String)
    → is_in j (add_id i ids) ≡ (if i == j then true else is_in j ids)
unfolding add_id
is_in-add_id i j ids = ground (arith, string_eq.beq_iff i j, is_in-append j ids (i ∷ []))

is_in-delete_id :
    (i j : String) (ids : List String)
    → is_in j (delete_id i ids) ≡ (if i == j then false else is_in j ids)
unfolding keep
is_in-delete_id i j [] = ground arith
is_in-delete_id i j (k ∷ ids) = ground (
  arith,
  string_eq.beq_iff i j,
  string_eq.beq_iff k i,
  string_eq.beq_iff k j,
  is_in-delete_id i j ids,
)

get_or-if :
    (b : Bool) (ids : List String) (o : Option (List String))
    → get_or (if b then some ids else o) [] ≡ (if b then ids else get_or o [])
get_or-if true ids o = refl
get_or-if false ids o = refl

ids_of-set :
    (user u : String) (ids : List String) (m : Index)
    → ids_of u (Dict.set user ids m) ≡ (if user == u then ids else ids_of u m)
ids_of-set user u ids m =
    ap (λ o. get_or o []) (Dict.get-set user u ids m) ∙ get_or-if (user == u) ids (Dict.get u m)

pub ids_of-delete :
    (user u : String) (m : Index)
    → ids_of u (Dict.delete user m) ≡ (if user == u then [] else ids_of u m)
ids_of-delete user u m = ap (λ o. get_or o []) (Dict.get-delete user u m) ∙ none_is (user == u)
  where
    none_is :
        (b : Bool) → get_or (if b then none else Dict.get u m) [] ≡ (if b then [] else ids_of u m)
    none_is true = refl
    none_is false = refl

ids_of-drop_from_set :
    (user u : String) (m : Index) (ids : List String)
    → ids_of u (drop_from_set user m ids).0 ≡ (if user == u then ids else ids_of u m)
ids_of-drop_from_set user u m [] = ids_of-delete user u m
ids_of-drop_from_set user u m (i ∷ ids) = ids_of-set user u (i ∷ ids) m

create-IsIndexed :
    (c : ClientSession) (instructions : Option String) (s : SessionStore)
    → Dict.get c.session_id s.sessions ≡ none
    → IsIndexed s
    → IsIndexed (finish_create c instructions s)
unfolding finish_create add_to_user
create-IsIndexed c instructions s e h user i =
    ap (is_in i) (
      ids_of-set c.user_id user (add_id c.session_id (ids_of c.user_id s.user_sessions))
        s.user_sessions)
    ∙ (elim (Bool-cases (c.user_id == user)) [
      | inl a ↦ elim (Bool-cases (c.session_id == i)) [
        | inl b ↦
            rw a (is_in-add_id c.session_id i (ids_of c.user_id s.user_sessions) ∙ rw b (sym a))
        | inr b ↦ rw a (
            is_in-add_id c.session_id i (ids_of c.user_id s.user_sessions)
            ∙ rw b (
                subst
                  (λ u.
                    is_in i (ids_of c.user_id s.user_sessions)
                    ≡ is_user_of u (Dict.get i s.sessions))
                  (eq_of_beq c.user_id user a) (h c.user_id i)))
      ]
      | inr a ↦ elim (Bool-cases (c.session_id == i)) [
        | inl b ↦ rw a (
            rw b (
              h user i
              ∙ ap (is_user_of user)
                  (subst (λ j. Dict.get j s.sessions ≡ none) (eq_of_beq c.session_id i b) e)
              ∙ sym a))
        | inr b ↦ rw a (rw b (h user i))
      ]
    ])
    ∙ ap (is_user_of user) (sym (Dict.get-set c.session_id i c s.sessions))

pub after_create-IsIndexed :
    (q : NewSession) (now : ℕ) (profile : Option Profile) (s : SessionStore)
    → IsIndexed s
    → IsIndexed (after_create s (create_session q now profile s))
unfolding create_session start_create
after_create-IsIndexed q now profile s h = elim (Option-cases (Dict.get q.session_id s.sessions)) [
  | inl e ↦ rw e (
      create-IsIndexed (client_session q now) (instructions_of profile)
        (record s { event_stores = _; session_loggers = _ }) e h)
  | inr (c, e) ↦ rw e h
]

pub remove-IsIndexed :
    (i : String) (c : ClientSession) (s : SessionStore)
    → Dict.get i s.sessions ≡ some c
    → IsIndexed s
    → IsIndexed (finish_remove i c s).0
unfolding finish_remove keep
remove-IsIndexed i c s e h user j =
    ap (is_in j) (drop_from_user-ids (Dict.get c.user_id s.user_sessions) refl)
    ∙ (elim (Bool-cases (c.user_id == user)) [
      | inl a ↦ elim (Bool-cases (i == j)) [
        | inl b ↦ rw a (is_in-delete_id i j (ids_of c.user_id s.user_sessions) ∙ rw b refl)
        | inr b ↦ rw a (
            is_in-delete_id i j (ids_of c.user_id s.user_sessions)
            ∙ rw b (
                subst
                  (λ u.
                    is_in j (ids_of c.user_id s.user_sessions)
                    ≡ is_user_of u (Dict.get j s.sessions))
                  (eq_of_beq c.user_id user a) (h c.user_id j)))
      ]
      | inr a ↦ elim (Bool-cases (i == j)) [
        | inl b ↦ rw a (
            rw b (
              h user j
              ∙ ap (is_user_of user)
                  (subst (λ k. Dict.get k s.sessions ≡ some c) (eq_of_beq i j b) e)
              ∙ a))
        | inr b ↦ rw a (rw b (h user j))
      ]
    ])
    ∙ ap (is_user_of user) (sym (Dict.get-delete i j s.sessions))
  where
    drop_from_user-ids :
        (o : Option (List String))
        → Dict.get c.user_id s.user_sessions ≡ o
        → ids_of user (drop_from_user c.user_id i s.user_sessions o).0
          ≡ (if c.user_id == user then delete_id i (get_or o []) else ids_of user s.user_sessions)
    drop_from_user-ids none q = elim (Bool-cases (c.user_id == user)) [
      | inl a ↦ rw a (
          subst (λ u. ids_of u s.user_sessions ≡ []) (eq_of_beq c.user_id user a)
            (ap (λ o. get_or o []) q))
      | inr a ↦ rw a refl
    ]
    drop_from_user-ids (some ids) q =
        ids_of-drop_from_set c.user_id user s.user_sessions (delete_id i ids)
