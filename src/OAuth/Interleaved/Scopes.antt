-- ===== src/OAuth/Interleaved/Scopes.antt =====
-- oauth/controllers/OAuthController.ts: what the tokens of the table allow, and to whom.
use peta_core.Prelude.{
  text_eq, ℕ, Bool, List, ◌≡◌, Bool-cases, [], all, any, ap, arith, beq_self, eq_of_beq, false,
  find, get_or, if◌then◌else◌, inl, inr, map, refl, some, subst, sym, true, ◌&&◌, ◌++◌, ◌==◌, ◌||◌,
  ◌∷◌,
}
use peta_core.OAuth.Service.{Text, includes, is_scope_subset}
use peta_core.OAuth.Tables.{AuthorizationCode, is_claimable, mark_used}

-- a code of a client and a user that has the scopes
abbrev pub covers : Text → Text → List Text → AuthorizationCode → Bool
covers client user scopes r =
    r.client_id == client && r.user_id == user && is_scope_subset scopes r.scopes

abbrev pub InGrant : List AuthorizationCode → Text → Text → List Text → Type 0
InGrant rows client user scopes = any (covers client user scopes) rows ≡ true

pub any-mark_used :
    (client user : Text) (scopes : List Text) (c : Text) (now : ℕ) (rows : List AuthorizationCode)
    → any (covers client user scopes) (map (mark_used c now) rows)
      ≡ any (covers client user scopes) rows
any-mark_used client user scopes c now [] = refl
any-mark_used client user scopes c now (r ∷ rows) = elim (Bool-cases (is_claimable c now r)) [
  | inl e ↦
      rw e
        (ap (λ b. covers client user scopes r || b) (any-mark_used client user scopes c now rows))
  | inr e ↦
      rw e
        (ap (λ b. covers client user scopes r || b) (any-mark_used client user scopes c now rows))
]

pub any-append :
    (p : AuthorizationCode → Bool) (rows : List AuthorizationCode) (r : AuthorizationCode)
    → any p rows ≡ true
    → any p (rows ++ r ∷ []) ≡ true
any-append p [] r h = cc
any-append p (s ∷ rows) r h = ground (arith, any-append p rows r)

any-find :
    (p q : AuthorizationCode → Bool) (rows : List AuthorizationCode) (r : AuthorizationCode)
    → find q rows ≡ some r
    → p r ≡ true
    → any p rows ≡ true
unfolding find
any-find p q [] r e h = cc
any-find p q (s ∷ rows) r e h = elim (Bool-cases (q s)) [
  | inl k ↦ subst (λ t. (p t || any p rows) ≡ true) (sym (some-eq (q s) s r k e)) (ground arith)
  | inr k ↦ ground (arith, any-find p q rows r (ground arith) h)
]
  where
    some-eq :
        (b : Bool) (s r : AuthorizationCode)
        → b ≡ true
        → (if b then some s else find q rows) ≡ some r
        → s ≡ r
    some-eq true s r k e = ap (λ o. get_or o r) e
    some-eq false s r k e = cc

includes-all :
    (p : Text → Bool) (texts : List Text) (x : Text)
    → all p texts ≡ true
    → includes texts x ≡ true
    → p x ≡ true
includes-all p [] x h k = cc
includes-all p (t ∷ texts) x h k = elim (Bool-cases (t == x)) [
  | inl e ↦ subst (λ y. p y ≡ true) (eq_of_beq t x e) (ground arith)
  | inr e ↦ includes-all p texts x (ground arith) (ground arith)
]

is_scope_subset_trans :
    (a b c : List Text)
    → is_scope_subset a b ≡ true
    → is_scope_subset b c ≡ true
    → is_scope_subset a c ≡ true
unfolding is_scope_subset
is_scope_subset_trans [] b c h k = refl
is_scope_subset_trans (x ∷ a) b c h k = ground (
  arith,
  includes-all (includes c) b x k (ground arith),
  is_scope_subset_trans a b c (ground arith) k,
)

includes-later :
    (b : List Text) (y : Text) (a : List Text)
    → all (includes b) a ≡ true
    → all (includes (y ∷ b)) a ≡ true
includes-later b y [] h = refl
includes-later b y (x ∷ a) h = ground (arith, includes-later b y a)

pub is_scope_subset_self : (a : List Text) → is_scope_subset a a ≡ true
unfolding is_scope_subset
is_scope_subset_self [] = refl
is_scope_subset_self (x ∷ a) =
    ground (arith, beq_self x, includes-later a x a (is_scope_subset_self a))

-- Fewer scopes are granted where more are.
pub InGrant-fewer :
    (rows : List AuthorizationCode) (client user : Text) (a b : List Text)
    → is_scope_subset a b ≡ true
    → InGrant rows client user b
    → InGrant rows client user a
InGrant-fewer [] client user a b h k = cc
InGrant-fewer (r ∷ rows) client user a b h k =
    ground (arith, is_scope_subset_trans a b r.scopes h, InGrant-fewer rows client user a b h)

pub found-InGrant :
    (q : AuthorizationCode → Bool) (rows : List AuthorizationCode) (r : AuthorizationCode)
    → find q rows ≡ some r
    → InGrant rows r.client_id r.user_id r.scopes
found-InGrant q rows r e =
    any-find (covers r.client_id r.user_id r.scopes) q rows r e
      (ground (arith, beq_self r.client_id, beq_self r.user_id, is_scope_subset_self r.scopes))
