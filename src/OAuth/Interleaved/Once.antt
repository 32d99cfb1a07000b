-- ===== src/OAuth/Interleaved/Once.antt =====
-- oauth/controllers/OAuthController.ts: how often tokens are created for a code.
use peta_core.Prelude.{
  text_eq, ℕ, Bool, List, ◌≡◌, Bool-cases, [], arith, count, if◌then◌else◌, inl, inr, map, refl,
  some, suc, zero, ◌&&◌, ◌+◌, ◌==◌, ◌∷◌, ◌≤◌, Option, any, ap, find, get_or, is_some, none, subst,
  sym, count-append, eq_of_beq, false, Option-cases, if_cases,
}
use peta_core.OAuth.Service.{Text}
use peta_core.OAuth.Tables.{
  AuthorizationCode, is_claimable, mark_used, Token, claim_code, create_code, create_token,
  find_code, is_rival, Database, has_refresh_token, update_token,
}
use peta_core.OAuth.Interleaved.{
  Endpoint, item, without, claim_item, consent, created, Step, add_checked, add_refreshing,
  checking, checking_refresh, claiming, consenting, creating, opened, revoking, serve, step,
  update_item, updating,
}
use peta_core.OAuth.Exchange.{check_exchange, granted, refused, token_of}
use peta_core.OAuth.Refresh.{
  check_refresh, find_revocable, finish_refresh, has_access_token, may_revoke, revoke, revoke_found,
  set_revoked,
}

abbrev is_code : Text → AuthorizationCode → Bool
is_code c r = r.code == c

abbrev is_used_code : Text → AuthorizationCode → Bool
is_used_code c r = r.code == c && r.used

abbrev is_claim_of : Text → AuthorizationCode × Bool → Bool
is_claim_of c p = p.0.code == c

abbrev rows : Text → Endpoint → ℕ
rows c s = count (is_code c) s.database.authorization_codes

abbrev used_rows : Text → Endpoint → ℕ
used_rows c s = count (is_used_code c) s.database.authorization_codes

-- No code has two rows, and what is claimed or was created for a code has its used row.
record IsSingle (s : Endpoint) : Type 0 where
  unique : (c : Text) → rows c s ≤ 1
  paid :
      (c : Text) → count (is_claim_of c) s.claimed + count (λ g. g == c) s.given_for ≤ used_rows c s

used_rows-le :
    (c : Text) (t : List AuthorizationCode) → count (is_used_code c) t ≤ count (is_code c) t
unfolding count
used_rows-le c [] = omega arith
used_rows-le c (r ∷ t) = ground (arith, used_rows-le c t)

rows-mark_used :
    (c k : Text) (now : ℕ) (t : List AuthorizationCode)
    → count (is_code c) (map (mark_used k now) t) ≡ count (is_code c) t
unfolding count
rows-mark_used c k now [] = refl
rows-mark_used c k now (r ∷ t) = elim (Bool-cases (is_claimable k now r)) [
  | inl e ↦ rw e (ground (arith, rows-mark_used c k now t))
  | inr e ↦ rw e (ground (arith, rows-mark_used c k now t))
]

used-mark_used :
    (c k : Text) (now : ℕ) (t : List AuthorizationCode)
    → count (is_used_code c) (map (mark_used k now) t)
      ≡ count (is_used_code c) t + (if k == c then count (is_claimable k now) t else 0)
unfolding count
used-mark_used c k now [] = ground arith
used-mark_used c k now (r ∷ t) = elim (Bool-cases (is_claimable k now r)) [
  | inl e ↦ rw e (
      ground (
        arith,
        text_eq.beq_iff r.code c,
        text_eq.beq_iff k c,
        text_eq.beq_iff r.code k,
        used-mark_used c k now t,
      ))
  | inr e ↦ rw e (
      ground (
        arith,
        text_eq.beq_iff r.code c,
        text_eq.beq_iff k c,
        text_eq.beq_iff r.code k,
        used-mark_used c k now t,
      ))
]

some-injective {ℓ} : {A : Type ℓ} {x y : A} → some y ≡ some x → y ≡ x
some-injective {x = x} e = ap (λ o. get_or o x) e

count-item {ℓ} :
    {A : Type ℓ} (q : A → Bool) (n : ℕ) (xs : List A) (x : A)
    → item n xs ≡ some x
    → count q (without n xs) + (if q x then 1 else 0) ≡ count q xs
unfolding count
count-item q n [] x e = cc
count-item q zero (y ∷ xs) x e =
    subst
      (λ z. count q xs + (if q x then 1 else 0) ≡ (if q z then suc (count q xs) else count q xs))
      (sym (some-injective e)) (ground arith)
count-item q (suc n) (y ∷ xs) x e = ground (arith, count-item q n xs x e)

none_found-count :
    (q : AuthorizationCode → Bool) (t : List AuthorizationCode)
    → is_some (find q t) ≡ false
    → count q t ≡ 0
unfolding find count
none_found-count q [] e = refl
none_found-count q (r ∷ t) e = ground (arith, none_found-count q t)

fresh-rows :
    (r : AuthorizationCode) (t : List AuthorizationCode) (c : Text)
    → is_some (find (is_code r.code) t) ≡ false
    → count (is_code c) t ≤ 1
    → count (is_code c) t + (if r.code == c then 1 else 0) ≤ 1
fresh-rows r t c e l = elim (Bool-cases (r.code == c)) [
  | inl b ↦ rw b (
      omega (
        arith,
        subst (λ d. count (is_code d) t ≡ 0) (eq_of_beq r.code c b)
            (none_found-count (is_code r.code) t e),
      ))
  | inr b ↦ rw b (omega arith)
]

consent-IsSingle :
    (r : AuthorizationCode) (s : Endpoint)
    → IsSingle s
    → IsSingle (consent r s (create_code r s.database))
unfolding create_code find_code count
consent-IsSingle r s k =
    elim (Bool-cases (is_some (find (is_code r.code) s.database.authorization_codes))) [
      | inl e ↦ rw e k
      | inr e ↦ rw e (record {
        unique = λ c. omega (
          arith,
          count-append (is_code c) s.database.authorization_codes (r ∷ []),
          fresh-rows r s.database.authorization_codes c e (k.unique c),
        );
        paid = λ c. omega (
          arith,
          k.paid c,
          count-append (is_used_code c) s.database.authorization_codes (r ∷ []),
        );
      })
    ]

claim-IsSingle :
    (n now : ℕ) (s : Endpoint) (o : Option (AuthorizationCode × Bool))
    → IsSingle s
    → IsSingle (claim_item n now s o)
unfolding claim_code count
claim-IsSingle n now s none k = k
claim-IsSingle n now s (some p) k = record {
  unique = λ c.
      subst (λ m. m ≤ 1) (sym (rows-mark_used c p.0.code now s.database.authorization_codes))
        (k.unique c);
  paid =
      λ c. ground (arith, k.paid c, used-mark_used c p.0.code now s.database.authorization_codes);
}

created-IsSingle :
    (n : ℕ) (s : Endpoint) (p : AuthorizationCode × Bool) (t : Token)
    → item n s.claimed ≡ some p
    → IsSingle s
    → IsSingle (created n p.0.code s (create_token t s.database))
unfolding create_token count
created-IsSingle n s p t e k = elim (Bool-cases (any (is_rival t) s.database.tokens)) [
  | inl a ↦ rw a (record {
    unique = k.unique;
    paid = λ c. omega (arith, k.paid c, count-item (is_claim_of c) n s.claimed p e);
  })
  | inr a ↦ rw a (record {
    unique = k.unique;
    paid = λ c. ground (arith, k.paid c, count-item (is_claim_of c) n s.claimed p e);
  })
]

same-IsSingle :
    (s t : Endpoint)
    → s.database.authorization_codes ≡ t.database.authorization_codes
    → s.claimed ≡ t.claimed
    → s.given_for ≡ t.given_for
    → IsSingle s
    → IsSingle t
same-IsSingle s t e f g k = record {
  unique = λ c. subst (λ m. count (is_code c) m ≤ 1) e (k.unique c);
  paid = λ c.
      subst
        (λ m.
          count (is_claim_of c) t.claimed + count (λ h. h == c) t.given_for
          ≤ count (is_used_code c) m)
        e
        (subst (λ m. count (is_claim_of c) m + count (λ h. h == c) t.given_for ≤ used_rows c s) f
          (subst (λ m. count (is_claim_of c) s.claimed + count (λ h. h == c) m ≤ used_rows c s) g
            (k.paid c)));
}

updated-IsSingle :
    (n : ℕ) (access : Text) (now : ℕ) (s : Endpoint) (o : Option (Token × List Text))
    → IsSingle s
    → IsSingle (update_item n access now s o)
unfolding finish_refresh update_token
updated-IsSingle n access now s none k = k
updated-IsSingle n access now s (some (t, scopes)) k =
    elim (Bool-cases (any (has_access_token t.token_id access) s.database.tokens)) [
      | inl e ↦ rw e (same-IsSingle s _ refl refl refl k)
      | inr e ↦ rw e (same-IsSingle s _ refl refl refl k)
    ]

module _ (decode sha256 : Text → Text) where
  step-IsSingle : (p : Step) (s : Endpoint) → IsSingle s → IsSingle (step decode sha256 p s)
  unfolding step revoke update_token
  step-IsSingle (consenting r) s k = consent-IsSingle r s k
  step-IsSingle (checking q client again now) s k =
      elim (check_exchange decode sha256 q client again
          (λ c. find_code c s.database.authorization_codes) now)
        as (λ o. IsSingle (add_checked s o)) [
          | refused e ↦ k
          | granted r ↦ same-IsSingle s _ refl refl refl k
        ]
  step-IsSingle (claiming n now) s k = claim-IsSingle n now s (item n s.checked) k
  step-IsSingle (creating n id access refresh now later) s k =
      elim (Option-cases (item n s.claimed)) [
        | inl e ↦ rw e k
        | inr (p, e) ↦
            rw e (created-IsSingle n s p (token_of p.0 p.1 id access refresh now later) e k)
      ]
  step-IsSingle (checking_refresh q client again now) s k =
      elim (check_refresh decode q client again (λ r. find (has_refresh_token r) s.database.tokens)
          now)
        as (λ o. IsSingle (add_refreshing s o)) [
          | refused e ↦ k
          | granted r ↦ same-IsSingle s _ refl refl refl k
        ]
  step-IsSingle (updating n access now) s k =
      updated-IsSingle n access now s (item n s.refreshing) k
  step-IsSingle (revoking client hint text) s k =
      revoked-IsSingle (find_revocable hint text s.database.tokens)
    where
      revoked-IsSingle :
          (o : Option Token) → IsSingle (record s { database = revoke_found client s.database o })
      revoked-IsSingle none = k
      revoked-IsSingle (some t) =
          if_cases (λ d. IsSingle (record s { database = d })) (may_revoke client t)
            (update_token t.token_id set_revoked s.database) s.database
            (λ b. same-IsSingle s _ refl refl refl k) (λ b. k)

  serve-IsSingle :
      (ps : List Step) (s : Endpoint) → IsSingle s → IsSingle (serve decode sha256 ps s)
  unfolding serve
  serve-IsSingle [] s k = k
  serve-IsSingle (p ∷ ps) s k = serve-IsSingle ps (step decode sha256 p s) (step-IsSingle p s k)

-- However the requests of all clients overlap, tokens are created at most once for a code, from an
-- endpoint without requests on, whatever its tokens are, if no code stands twice in its table.
pub serve-given_for :
    (decode sha256 : Text → Text) (ps : List Step) (d : Database) (c : Text)
    → ((k : Text) → count (λ (r : AuthorizationCode). r.code == k) d.authorization_codes ≤ 1)
    → count (λ g. g == c) (serve decode sha256 ps (opened d)).given_for ≤ 1
unfolding count
serve-given_for decode sha256 ps d c h =
    let s = serve decode sha256 ps (opened d) in
    let k =
      serve-IsSingle decode sha256 ps (opened d) (record { unique = h; paid = λ c. omega arith }) in
    omega (arith, k.paid c, k.unique c, used_rows-le c s.database.authorization_codes)
