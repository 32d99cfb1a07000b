-- ===== src/Whitelist/Service/InForce.antt =====
-- security/IpWhitelistService.ts: the entries by which an address is judged.
use mathlib.Core.List.{Memᴰ}
use peta_core.Prelude.{
  ℕ, List, Bool, Option, text_eq, Bool-cases, [], any, arith, eq_of_beq, false, if_cases,
  if◌then◌else◌, inl, inr, ltb, none, refl, some, subst, sym, true, ◌-◌, ◌==◌, ◌↔◌, ◌∙◌, ◌∷◌, ◌≡◌,
  ◌⊎◌,
}
use peta_core.Whitelist.Addresses.{is_ip_match, any_address}
use peta_core.Whitelist.Service.{
  IpRecord, IpWhitelistService, allows, cache_expiry, get_ip_whitelist, is_ip_allowed, list_of,
  load_from_database,
}

-- The entries in force: those of the database where the cached ones have expired and it answers,
-- and the cached ones otherwise.
abbrev pub in_force : Option (List IpRecord) → ℕ → IpWhitelistService → List (List ℕ)
in_force none now s = s.whitelist
in_force (some rs) now s =
    if ltb cache_expiry (now - s.last_cache_update) then list_of rs else s.whitelist

abbrev pub Admits : List ℕ → List (List ℕ) → Type 0
Admits ip entries =
    (e : List ℕ) × (Memᴰ e entries × ((e ≡ any_address) ⊎ (is_ip_match ip e ≡ true)))

admit_later : (ip e : List ℕ) (es : List (List ℕ)) → Admits ip es → Admits ip (e ∷ es)
admit_later ip e es (f, (m, h)) = (f, (Memᴰ.tail m, h))

any-Admits :
    (ip : List ℕ) (p : List ℕ → Bool) (es : List (List ℕ))
    → ((e : List ℕ) → p e ≡ true → (e ≡ any_address) ⊎ (is_ip_match ip e ≡ true))
    → any p es ≡ true
    → Admits ip es
any-Admits ip p [] f h = cc
any-Admits ip p (e ∷ es) f h = elim (Bool-cases (p e)) [
  | inl k ↦ (e, (Memᴰ.head refl, f e k))
  | inr k ↦ admit_later ip e es (any-Admits ip p es f (ground arith))
]

Mem-any :
    (p : List ℕ → Bool) (e : List ℕ) (es : List (List ℕ)) → Memᴰ e es → p e ≡ true → any p es ≡ true
Mem-any p e [] m h = elim m [ ]
Mem-any p e (f ∷ es) (Memᴰ.head q) h = ground (arith, subst (λ t. p t ≡ true) q h)
Mem-any p e (f ∷ es) (Memᴰ.tail m) h = ground (arith, Mem-any p e es m h)

allows-Admits : (ip : List ℕ) (es : List (List ℕ)) → (allows ip es ≡ true) ↔ Admits ip es
allows-Admits ip es = elim (Bool-cases (any (λ e. e == any_address) es)) [
  | inl k ↦ rw k (
    λ h. any-Admits ip (λ e. e == any_address) es (λ e q. inl (eq_of_beq e any_address q)) k,
    λ h. refl,
  )
  | inr k ↦ rw k (
    λ h. any-Admits ip (is_ip_match ip) es (λ e q. inr q) h,
    λ h. elim h.1.1 [
      | inl q ↦ absurd (
          true_is_not-false (
            sym
              (Mem-any (λ e. e == any_address) h.0 es h.1.0 ((text_eq.beq_iff h.0 any_address).1 q))
            ∙ k))
      | inr q ↦ Mem-any (is_ip_match ip) h.0 es h.1.0 q
    ],
  )
]
  where
    true_is_not-false : true ≡ false → ⊥
    true_is_not-false e = cc

-- An address is allowed exactly if one of the entries in force is the wildcard or is met by it; a
-- database that fails is not an error, and leaves the entries as they were.
pub is_ip_allowed-Admits :
    (ip : List ℕ) (rs : Option (List IpRecord)) (now later : ℕ) (s : IpWhitelistService)
    → (((is_ip_allowed ip rs now later s).1 ≡ true) ↔ Admits ip (in_force rs now s))
      × ((is_ip_allowed ip rs now later s).0.whitelist ≡ in_force rs now s)
unfolding is_ip_allowed get_ip_whitelist load_from_database
is_ip_allowed-Admits ip none now later s =
    if_cases
      (λ (t : IpWhitelistService).
        ((allows ip t.whitelist ≡ true) ↔ Admits ip s.whitelist) × (t.whitelist ≡ s.whitelist))
      (ltb cache_expiry (now - s.last_cache_update)) s s (λ h. (allows-Admits ip s.whitelist, refl))
      (λ h. (allows-Admits ip s.whitelist, refl))
is_ip_allowed-Admits ip (some rs) now later s =
    elim (Bool-cases (ltb cache_expiry (now - s.last_cache_update))) [
      | inl h ↦ rw h (allows-Admits ip (list_of rs), refl)
      | inr h ↦ rw h (allows-Admits ip s.whitelist, refl)
    ]
