-- ===== src/Router/Delivered.antt =====
-- mcp/core/GlobalRequestRouter.ts: who is sent a notification, and how much is remembered of it.
use peta_core.Prelude.{
  string_eq, text_eq, ℕ, String, Bool, List, All, ◌≡◌, [], ap, arith, false, get_or, if_cases,
  if◌then◌else◌, keep, length, length-drop, not, refl, some, subst, sym, true, ◌&&◌, ◌++◌, ◌-◌,
  ◌==◌, ◌∙◌, ◌∷◌, ◌≤◌,
}
use peta_core.Prelude.Dict
use peta_core.Router.{Sent, broadcast, sent_to, wants, has_key, key_limit, trim_keys}

-- No session stands twice in the list, as the ids are the keys of a map.
abbrev pub AreDistinct : List String → Type 0
AreDistinct [] = Unit
AreDistinct (i ∷ ids) = All (λ j. (i == j) ≡ false) ids × AreDistinct ids

abbrev pub receives : (String → Bool) → (String → Bool) → List ℕ → Sent → String → Bool
receives can_access throws key m i = wants can_access key m i && not (throws i)

pub sent_to-set :
    (i j : String) (keys : List (List ℕ)) (m : Sent)
    → sent_to j (Dict.set i keys m) ≡ (if i == j then keys else sent_to j m)
sent_to-set i j keys m = ap (λ o. get_or o []) (Dict.get-set i j keys m) ∙ get_or-if (i == j)
  where
    get_or-if :
        (b : Bool)
        → get_or (if b then some keys else Dict.get j m) [] ≡ (if b then keys else sent_to j m)
    get_or-if true = refl
    get_or-if false = refl

abbrev pub marked : Bool → String → List ℕ → Sent → Sent
marked b i key m = if b then Dict.set i (trim_keys (sent_to i m ++ key ∷ [])) m else m

-- What is noted for one session does not count for another.
others-receive :
    (can_access throws : String → Bool) (key : List ℕ) (i : String) (b : Bool) (m : Sent)
    (ids : List String)
    → All (λ j. (i == j) ≡ false) ids
    → keep (receives can_access throws key (marked b i key m)) ids
      ≡ keep (receives can_access throws key m) ids
unfolding keep
others-receive can_access throws key i b m [] h = refl
others-receive can_access throws key i b m (j ∷ ids) h =
    ap
      (λ keys.
        if (can_access j && not (has_key key keys)) && not (throws j)
        then j ∷ keep (receives can_access throws key (marked b i key m)) ids
        else keep (receives can_access throws key (marked b i key m)) ids)
      (same_keys b)
    ∙ ap (λ to. if receives can_access throws key m j then j ∷ to else to)
        (others-receive can_access throws key i b m ids h.1)
  where
    same_keys : (b : Bool) → sent_to j (marked b i key m) ≡ sent_to j m
    same_keys true = sent_to-set i j (trim_keys (sent_to i m ++ key ∷ [])) m ∙ rw h.0 refl
    same_keys false = refl

-- A notification is sent, in the order of the sessions, to exactly those that can access the server,
-- were not sent it under its key and for which the sending does not throw, if no session stands
-- twice in the list.
pub broadcast-receives :
    (can_access throws : String → Bool) (key : List ℕ) (ids : List String) (m : Sent)
    → AreDistinct ids
    → (broadcast can_access throws key ids m).1 ≡ keep (receives can_access throws key m) ids
unfolding broadcast keep
broadcast-receives can_access throws key [] m h = refl
broadcast-receives can_access throws key (i ∷ ids) m h =
    let b = receives can_access throws key m i in
    ap (λ to. if b then i ∷ to else to)
      (broadcast-receives can_access throws key ids (marked b i key m) h.1
        ∙ others-receive can_access throws key i b m ids h.0)

length-trim_keys : (keys : List (List ℕ)) → length (trim_keys keys) ≤ key_limit
unfolding trim_keys
length-trim_keys keys = ground (arith, length-drop (length keys - key_limit) keys)

-- However often notifications are sent on, no session has more than the last hundred keys noted, if
-- that holds before.
pub broadcast-le :
    (can_access throws : String → Bool) (key : List ℕ) (ids : List String) (m : Sent)
    → ((j : String) → length (sent_to j m) ≤ key_limit)
    → (j : String) → length (sent_to j (broadcast can_access throws key ids m).0) ≤ key_limit
unfolding broadcast
broadcast-le can_access throws key [] m h j = h j
broadcast-le can_access throws key (i ∷ ids) m h j =
    broadcast-le can_access throws key ids (marked (receives can_access throws key m i) i key m)
      (marked-le (receives can_access throws key m i)) j
  where
    marked-le : (b : Bool) (k : String) → length (sent_to k (marked b i key m)) ≤ key_limit
    marked-le false k = h k
    marked-le true k =
        let keys = trim_keys (sent_to i m ++ key ∷ []) in
        subst (λ ks. length ks ≤ key_limit) (sym (sent_to-set i k keys m))
          (if_cases (λ ks. length ks ≤ key_limit) (i == k) keys (sent_to k m)
            (λ e. length-trim_keys (sent_to i m ++ key ∷ [])) (λ e. h k))
