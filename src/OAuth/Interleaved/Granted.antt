-- ===== src/OAuth/Interleaved/Granted.antt =====
-- oauth/controllers/OAuthController.ts: every token of the table is within what a user granted.
use peta_core.Prelude.{
  text_eq, ℕ, Bool, List, Option, ◌≡◌, All, All-imp, Bool-cases, [], any, ap, count, get_or,
  if_cases, inl, inr, is_some, map, nat_beq, none, some, subst, suc, true, zero, ◌++◌, ◌∙◌, ◌∷◌,
  All-append, arith, false, refl,
}
use peta_core.OAuth.Service.{Text}
use peta_core.OAuth.Tables.{
  AuthorizationCode, Token, claim_code, create_code, find_code, is_claimable, mark_used,
  create_token, is_rival,
}
use peta_core.OAuth.Interleaved.{Endpoint, claim_item, consent, item, without, created}
use peta_core.OAuth.Interleaved.Scopes.{InGrant, any-append, any-mark_used, covers}

abbrev pub HasOwner : ℕ → Text → Text → Token → Type 0
HasOwner i client user u = u.token_id ≡ i → (u.client_id ≡ client) × (u.user_id ≡ user)

-- the rows of an id belong to one client and user
abbrev pub Owned : List Token → ℕ → Text → Text → Type 0
Owned ts i client user = All (HasOwner i client user) ts

abbrev pub has_id : ℕ → Token → Bool
has_id i u = nat_beq u.token_id i

abbrev pub TokenIn : List AuthorizationCode → Token → Type 0
TokenIn rows t = InGrant rows t.client_id t.user_id t.scopes

abbrev pub CodeIn : List AuthorizationCode → AuthorizationCode × Bool → Type 0
CodeIn rows p = InGrant rows p.0.client_id p.0.user_id p.0.scopes

abbrev pub RefreshIn : List AuthorizationCode → List Token → Token × List Text → Type 0
RefreshIn rows ts p =
    Owned ts p.0.token_id p.0.client_id p.0.user_id
    × (any (has_id p.0.token_id) ts ≡ true)
    × InGrant rows p.0.client_id p.0.user_id p.1

-- Each token, and each token that a request is about to write, has scopes that its user granted to
-- its client.
pub record IsGranted (s : Endpoint) : Type 0 where
  pub tokens : All (TokenIn s.database.authorization_codes) s.database.tokens
  pub owned : All (λ t. Owned s.database.tokens t.token_id t.client_id t.user_id) s.database.tokens
  pub checked : All (CodeIn s.database.authorization_codes) s.checked
  pub claimed : All (CodeIn s.database.authorization_codes) s.claimed
  pub refreshing : All (RefreshIn s.database.authorization_codes s.database.tokens) s.refreshing

pub All-without {ℓ κ} :
    {A : Type ℓ} (P : A → Type κ) (n : ℕ) (xs : List A) → All P xs → All P (without n xs)
All-without P n [] h = tt
All-without P zero (x ∷ xs) h = h.1
All-without P (suc n) (x ∷ xs) h = (h.0, All-without P n xs h.1)

pub All-item {ℓ κ} :
    {A : Type ℓ} (P : A → Type κ) (n : ℕ) (xs : List A) (x : A)
    → All P xs
    → item n xs ≡ some x
    → P x
All-item P n [] x h e = cc
All-item P zero (y ∷ xs) x h e = subst P (ap (λ o. get_or o x) e) h.0
All-item P (suc n) (y ∷ xs) x h e = All-item P n xs x h.1 e

-- The codes of the table may change as long as each grant stays.
rows-IsGranted :
    (rows : List AuthorizationCode) (s : Endpoint)
    → ((client user : Text) (scopes : List Text)
        → InGrant s.database.authorization_codes client user scopes
        → InGrant rows client user scopes)
    → IsGranted s
    → IsGranted (record s { database = record s.database { authorization_codes = rows } })
rows-IsGranted rows s f k =
    let old = s.database.authorization_codes in
    record {
      tokens =
          All-imp (TokenIn old) (TokenIn rows) (λ t h. f t.client_id t.user_id t.scopes h)
            s.database.tokens k.tokens;
      owned = k.owned;
      checked =
          All-imp (CodeIn old) (CodeIn rows) (λ p h. f p.0.client_id p.0.user_id p.0.scopes h)
            s.checked k.checked;
      claimed =
          All-imp (CodeIn old) (CodeIn rows) (λ p h. f p.0.client_id p.0.user_id p.0.scopes h)
            s.claimed k.claimed;
      refreshing =
          All-imp (RefreshIn old s.database.tokens) (RefreshIn rows s.database.tokens)
            (λ p h. (h.0, h.1, f p.0.client_id p.0.user_id p.1 h.2)) s.refreshing k.refreshing;
    }

pub consent-IsGranted :
    (r : AuthorizationCode) (s : Endpoint)
    → IsGranted s
    → IsGranted (consent r s (create_code r s.database))
unfolding create_code
consent-IsGranted r s k =
    elim (Bool-cases (is_some (find_code r.code s.database.authorization_codes))) [
      | inl e ↦ rw e k
      | inr e ↦ rw e (
          rows-IsGranted (s.database.authorization_codes ++ r ∷ []) s
            (λ client user scopes h.
              any-append (covers client user scopes) s.database.authorization_codes r h)
            k)
    ]

pub claim-IsGranted :
    (n now : ℕ) (s : Endpoint) (o : Option (AuthorizationCode × Bool))
    → item n s.checked ≡ o
    → IsGranted s
    → IsGranted (claim_item n now s o)
unfolding claim_code
claim-IsGranted n now s none e k = k
claim-IsGranted n now s (some p) e k =
    let rows = map (mark_used p.0.code now) s.database.authorization_codes in
    let k' =
      rows-IsGranted rows s
        (λ client user scopes h.
          any-mark_used client user scopes p.0.code now s.database.authorization_codes ∙ h)
        k in
    record {
      tokens = k'.tokens;
      owned = k'.owned;
      checked = All-without (CodeIn rows) n s.checked k'.checked;
      claimed =
          if_cases (λ c. All (CodeIn rows) c)
            (nat_beq (count (is_claimable p.0.code now) s.database.authorization_codes) 1)
            (p ∷ s.claimed) s.claimed
            (λ b. (All-item (CodeIn rows) n s.checked p k'.checked e, k'.claimed))
            (λ b. k'.claimed);
      refreshing = k'.refreshing;
    }

-- A new row has an id of its own.
fresh-ne :
    (t : Token) (ts : List Token) (i : ℕ)
    → any (is_rival t) ts ≡ false
    → any (has_id i) ts ≡ true
    → t.token_id ≡ i
    → ⊥
fresh-ne t [] i f h e = cc
fresh-ne t (u ∷ ts) i f h e = elim (Bool-cases (has_id i u)) [
  | inl k ↦ ground arith
  | inr k ↦ fresh-ne t ts i (ground arith) (ground arith) e
]

fresh-Owned :
    (t : Token) (ts : List Token) (client user : Text)
    → any (is_rival t) ts ≡ false
    → Owned ts t.token_id client user
fresh-Owned t [] client user f = tt
fresh-Owned t (u ∷ ts) client user f =
    (λ e. absurd (ground arith), fresh-Owned t ts client user (ground arith))

-- A row is of its own id.
pub row-has_id :
    (P : Token → Type 0) (ts : List Token)
    → All P ts
    → All (λ t. P t × (any (has_id t.token_id) ts ≡ true)) ts
row-has_id P [] h = tt
row-has_id P (t ∷ ts) h = (
  (h.0, ground arith),
  All-imp (λ u. P u × (any (has_id u.token_id) ts ≡ true))
      (λ u. P u × (any (has_id u.token_id) (t ∷ ts) ≡ true)) (λ u k. (k.0, ground (arith, k.1))) ts
      (row-has_id P ts h.1),
)

create-Owned :
    (t : Token) (ts : List Token) (i : ℕ) (client user : Text)
    → any (is_rival t) ts ≡ false
    → any (has_id i) ts ≡ true
    → Owned ts i client user
    → Owned (ts ++ t ∷ []) i client user
create-Owned t ts i client user f h o =
    All-append (HasOwner i client user) ts (t ∷ []) o ((λ e. absurd (fresh-ne t ts i f h e)), tt)

has_id-append :
    (t : Token) (ts : List Token) (i : ℕ)
    → any (has_id i) ts ≡ true
    → any (has_id i) (ts ++ t ∷ []) ≡ true
has_id-append t [] i h = cc
has_id-append t (u ∷ ts) i h = ground (arith, has_id-append t ts i)

pub created-IsGranted :
    (n : ℕ) (s : Endpoint) (c : Text) (t : Token)
    → TokenIn s.database.authorization_codes t
    → IsGranted s
    → IsGranted (created n c s (create_token t s.database))
unfolding create_token
created-IsGranted n s c t g k = elim (Bool-cases (any (is_rival t) s.database.tokens)) [
  | inl f ↦ rw f (record {
    tokens = k.tokens;
    owned = k.owned;
    checked = k.checked;
    claimed = All-without (CodeIn s.database.authorization_codes) n s.claimed k.claimed;
    refreshing = k.refreshing;
  })
  | inr f ↦ rw f (with_row f)
]
  where
    with_row :
        any (is_rival t) s.database.tokens ≡ false
        → IsGranted (record s {
          database = record s.database { tokens = s.database.tokens ++ t ∷ [] };
          claimed = without n s.claimed;
          given_for = c ∷ s.given_for;
        })
    with_row f = record {
      tokens =
          All-append (TokenIn s.database.authorization_codes) s.database.tokens (t ∷ []) k.tokens
            (g, tt);
      owned =
          All-append (λ u. Owned (s.database.tokens ++ t ∷ []) u.token_id u.client_id u.user_id)
            s.database.tokens (t ∷ [])
            (All-imp _ _
              (λ u h. create-Owned t s.database.tokens u.token_id u.client_id u.user_id f h.1 h.0)
              s.database.tokens (row-has_id _ s.database.tokens k.owned))
            (
              All-append (HasOwner t.token_id t.client_id t.user_id) s.database.tokens (t ∷ [])
                  (fresh-Owned t s.database.tokens t.client_id t.user_id f)
                  ((λ e. (refl, refl)), tt),
              tt,
            );
      checked = k.checked;
      claimed = All-without (CodeIn s.database.authorization_codes) n s.claimed k.claimed;
      refreshing =
          All-imp _ _
            (λ p h. (
              create-Owned t s.database.tokens p.0.token_id p.0.client_id p.0.user_id f h.1 h.0,
              has_id-append t s.database.tokens p.0.token_id h.1,
              h.2,
            ))
            s.refreshing k.refreshing;
    }
