-- ===== src/OAuth/Interleaved/Updated.antt =====
-- oauth/controllers/OAuthController.ts: refreshed and revoked tokens stay within what was granted.
use peta_core.Prelude.{
  text_eq, ℕ, List, ◌≡◌, All, All-imp, [], any, arith, if_cases, map, nat_beq, refl, true, ◌∷◌,
  Bool-cases, Option, inl, inr, nat_beq_iff, none, some, subst, sym,
}
use peta_core.OAuth.Service.{Text}
use peta_core.OAuth.Tables.{Token, update_row, AuthorizationCode, update_token}
use peta_core.OAuth.Interleaved.{Endpoint, item, update_item, without}
use peta_core.OAuth.Interleaved.Granted.{
  IsGranted, HasOwner, Owned, TokenIn, has_id, All-item, All-without, RefreshIn,
}
use peta_core.OAuth.Interleaved.Scopes.{InGrant}
use peta_core.OAuth.Refresh.{
  finish_refresh, has_access_token, may_revoke, refreshed, revoke_found, set_revoked,
}

-- An update that leaves the id, the client and the user alone.
abbrev Keeps : (Token → Token) → Type 1
Keeps f =
    (P : ℕ → Text → Text → Type 0) (t : Token)
    → P t.token_id t.client_id t.user_id
    → P (f t).token_id (f t).client_id (f t).user_id

update_row-Keeps : (i : ℕ) (f : Token → Token) → Keeps f → Keeps (update_row i f)
update_row-Keeps i f k P t h =
    if_cases (λ u. P u.token_id u.client_id u.user_id) (nat_beq t.token_id i) (f t) t (λ e. k P t h)
      (λ e. h)

All-map {ℓ κ μ} :
    {A : Type ℓ} (P : A → Type κ) (Q : A → Type μ) (f : A → A)
    → ((x : A) → P x → Q (f x))
    → (xs : List A) → All P xs
    → All Q (map f xs)
All-map P Q f g [] h = tt
All-map P Q f g (x ∷ xs) h = (g x h.0, All-map P Q f g xs h.1)

All-both {ℓ κ μ} :
    {A : Type ℓ} (P : A → Type κ) (Q : A → Type μ) (xs : List A)
    → All P xs
    → All Q xs
    → All (λ x. P x × Q x) xs
All-both P Q [] h k = tt
All-both P Q (x ∷ xs) h k = ((h.0, k.0), All-both P Q xs h.1 k.1)

Owned-map :
    (g : Token → Token) (ts : List Token) (i : ℕ) (client user : Text)
    → Keeps g
    → Owned ts i client user
    → Owned (map g ts) i client user
Owned-map g ts i client user k h =
    All-map (HasOwner i client user) (HasOwner i client user) g
      (λ u o. k (λ j c w. j ≡ i → (c ≡ client) × (w ≡ user)) u o) ts h

has_id-map :
    (g : Token → Token) (ts : List Token) (i : ℕ)
    → Keeps g
    → any (has_id i) ts ≡ true
    → any (has_id i) (map g ts) ≡ true
has_id-map g [] i k h = cc
has_id-map g (t ∷ ts) i k h =
    ground (arith, k (λ j c w. nat_beq j i ≡ nat_beq t.token_id i) t refl, has_id-map g ts i k)

-- A change of the rows that keeps whose they are, and leaves each with scopes that were granted.
map-IsGranted :
    (g : Token → Token) (s : Endpoint)
    → Keeps g
    → All (TokenIn s.database.authorization_codes) (map g s.database.tokens)
    → IsGranted s
    → IsGranted (record s { database = record s.database { tokens = map g s.database.tokens } })
map-IsGranted g s k f h = record {
  tokens = f;
  owned =
      All-map (λ t. Owned s.database.tokens t.token_id t.client_id t.user_id)
        (λ t. Owned (map g s.database.tokens) t.token_id t.client_id t.user_id) g
        (λ t o.
          k (λ i c w. Owned (map g s.database.tokens) i c w) t
            (Owned-map g s.database.tokens t.token_id t.client_id t.user_id k o))
        s.database.tokens h.owned;
  checked = h.checked;
  claimed = h.claimed;
  refreshing =
      All-imp _ _
        (λ p o. (
          Owned-map g s.database.tokens p.0.token_id p.0.client_id p.0.user_id k o.0,
          has_id-map g s.database.tokens p.0.token_id k o.1,
          o.2,
        ))
        s.refreshing h.refreshing;
}

finished-IsGranted :
    (n : ℕ) (s : Endpoint)
    → IsGranted s
    → IsGranted (record s { refreshing = without n s.refreshing })
finished-IsGranted n s k = record {
  tokens = k.tokens;
  owned = k.owned;
  checked = k.checked;
  claimed = k.claimed;
  refreshing =
      All-without (RefreshIn s.database.authorization_codes s.database.tokens) n s.refreshing
        k.refreshing;
}

refreshed-TokenIn :
    (t : Token) (scopes : List Text) (access : Text) (now : ℕ) (rows : List AuthorizationCode)
    (u : Token)
    → InGrant rows t.client_id t.user_id scopes
    → TokenIn rows u × HasOwner t.token_id t.client_id t.user_id u
    → TokenIn rows (update_row t.token_id (refreshed access now scopes) u)
refreshed-TokenIn t scopes access now rows u g h =
    elim (Bool-cases (nat_beq u.token_id t.token_id)) [
      | inl e ↦ rw e (
          let o = h.1 ((nat_beq_iff u.token_id t.token_id).0 e) in
          subst (λ c. InGrant rows c u.user_id scopes) (sym o.0)
            (subst (λ w. InGrant rows t.client_id w scopes) (sym o.1) g))
      | inr e ↦ rw e h.0
    ]

pub update-IsGranted :
    (n : ℕ) (access : Text) (now : ℕ) (s : Endpoint) (o : Option (Token × List Text))
    → item n s.refreshing ≡ o
    → IsGranted s
    → IsGranted (update_item n access now s o)
unfolding finish_refresh update_token
update-IsGranted n access now s none e k = k
update-IsGranted n access now s (some (t, scopes)) e k =
    let known =
      All-item (RefreshIn s.database.authorization_codes s.database.tokens) n s.refreshing
        (t, scopes) k.refreshing e in
    elim (Bool-cases (any (has_access_token t.token_id access) s.database.tokens)) [
      | inl f ↦ rw f (finished-IsGranted n s k)
      | inr f ↦ rw f (
          finished-IsGranted n _ (
            map-IsGranted (update_row t.token_id (refreshed access now scopes)) s
              (update_row-Keeps t.token_id (refreshed access now scopes) (λ P u h. h))
              (All-map _ (TokenIn s.database.authorization_codes)
                (update_row t.token_id (refreshed access now scopes))
                (λ u h.
                  refreshed-TokenIn t scopes access now s.database.authorization_codes u known.2 h)
                s.database.tokens
                (All-both (TokenIn s.database.authorization_codes)
                  (HasOwner t.token_id t.client_id t.user_id) s.database.tokens k.tokens known.0))
              k))
    ]

pub revoke-IsGranted :
    (client : Option Text) (s : Endpoint) (o : Option Token)
    → IsGranted s
    → IsGranted (record s { database = revoke_found client s.database o })
unfolding update_token
revoke-IsGranted client s none k = k
revoke-IsGranted client s (some t) k =
    if_cases (λ d. IsGranted (record s { database = d })) (may_revoke client t)
      (update_token t.token_id set_revoked s.database) s.database
      (λ b.
        map-IsGranted (update_row t.token_id set_revoked) s
          (update_row-Keeps t.token_id set_revoked (λ P u h. h))
          (All-map (TokenIn s.database.authorization_codes) (TokenIn s.database.authorization_codes)
            (update_row t.token_id set_revoked)
            (λ u h.
              if_cases (λ v. TokenIn s.database.authorization_codes v)
                (nat_beq u.token_id t.token_id) (set_revoked u) u (λ e. h) (λ e. h))
            s.database.tokens k.tokens)
          k)
      (λ b. k)
