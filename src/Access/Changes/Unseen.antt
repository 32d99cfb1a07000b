-- ===== src/Access/Changes/Unseen.antt =====
-- mcp/services/CapabilitiesService.ts: what cannot have changed if no change is reported.
use peta_core.Enums.{danger_eq, DangerLevel}
use peta_core.Prelude.{
  string_eq, bool_eq, String, Bool, Option, List, ◌≡◌, Eq, Bool-cases, [], any, ap, arith,
  eq_of_beq, false, inl, inr, none, opt_beq, refl, some, true, ◌==◌, ◌∷◌, get_or, if◌then◌else◌,
  is_some, not, subst,
}
use peta_core.Prelude.Dict
use peta_core.Access.Permissions.{
  CapabilityConfig, Kind, ServerConfig, items_of, Permissions, prompt, resource, tool,
}
use peta_core.Access.Changes.{
  item_changed, Changes, everything, is_capability_list_changed, list_changed, compare_permissions,
  enabled_changed, some_list_changed,
}

opt_beq-eq {ℓ} : {A : Type ℓ} ⦃e : Eq A⦄ (a b : Option A) → opt_beq a b ≡ true → a ≡ b
opt_beq-eq none none h = refl
opt_beq-eq none (some b) h = cc
opt_beq-eq (some a) none h = cc
opt_beq-eq (some a) (some b) h = ap some (eq_of_beq a b h)

any-get {ℓ} :
    {A : Type ℓ} (p : String × A → Bool) (k : String) (v : A) (m : List (String × A))
    → any p m ≡ false
    → Dict.get k m ≡ some v
    → p (k, v) ≡ false
unfolding Dict.get
any-get p k v [] h e = cc
any-get p k v ((j, w) ∷ m) h e = elim (Bool-cases (j == k)) [
  | inl b ↦
      subst (λ x. p (x, v) ≡ false) (eq_of_beq j k b)
        (subst (λ x. p (j, x) ≡ false) (same_value (j == k) b e) (ground arith))
  | inr b ↦ any-get p k v m (ground arith) (ground arith)
]
  where
    same_value : (b : Bool) → b ≡ true → (if b then some w else Dict.get k m) ≡ some v → w ≡ v
    same_value true b e = ap (λ o. get_or o w) e
    same_value false b e = cc

-- What a comparison looks at in an item: whether it is enabled, and its danger level.
abbrev pub told : Option CapabilityConfig → Option (Option Bool × Option DangerLevel)
told none = none
told (some c) = some (c.enabled, c.danger_level)

item-told :
    (a b : CapabilityConfig) → item_changed (some a) b ≡ false → told (some a) ≡ told (some b)
item-told a b h = λ i. some (
  opt_beq-eq a.enabled b.enabled (ground arith) i,
  opt_beq-eq a.danger_level b.danger_level (ground arith) i,
)

not_has-some : {b : Bool} → not b ≡ false → b ≡ false → ⊥
not_has-some h k = ground arith

-- Two lists without a reported change have an item under the same names, with the same `enabled` and
-- danger level.
list-told :
    (a b : List (String × CapabilityConfig)) (name : String)
    → is_capability_list_changed a b ≡ false
    → told (Dict.get name a) ≡ told (Dict.get name b)
unfolding is_capability_list_changed
list-told a b name h = same_item (Dict.get name a) (Dict.get name b) refl refl
  where
    added : any (λ e. not (Dict.has e.0 a)) b ≡ false
    added = ground arith

    removed : any (λ e. not (Dict.has e.0 b)) a ≡ false
    removed = ground arith

    changed : any (λ e. item_changed (Dict.get e.0 a) e.1) b ≡ false
    changed = ground arith

    same_item :
        (c d : Option CapabilityConfig)
        → Dict.get name a ≡ c
        → Dict.get name b ≡ d
        → told c ≡ told d
    same_item none none e f = refl
    same_item (some c) none e f =
        absurd
          (not_has-some (any-get (λ e. not (Dict.has e.0 b)) name c a removed e) (ap is_some f))
    same_item none (some d) e f =
        absurd (not_has-some (any-get (λ e. not (Dict.has e.0 a)) name d b added f) (ap is_some e))
    same_item (some c) (some d) e f = item-told c d (
        subst (λ o. item_changed o d ≡ false) e
          (any-get (λ e. item_changed (Dict.get e.0 a) e.1) name d b changed f))

-- Both without the server, or both with the same `enabled` of it and, in each of its three lists, the
-- same names with the same `enabled` and danger level.
abbrev pub SameView : Option ServerConfig → Option ServerConfig → Type 0
SameView none none = Unit
SameView (some a) (some b) =
    (a.enabled ≡ b.enabled)
    × ((k : Kind) (name : String)
        → told (Dict.get name (items_of k a)) ≡ told (Dict.get name (items_of k b)))
SameView _ _ = ⊥

abbrev pub unchanged : Changes
unchanged = record { tools_changed = false; resources_changed = false; prompts_changed = false }

not-false : {b : Bool} → not b ≡ false → b ≡ true
not-false h = ground arith

everything_is-unchanged : everything ≡ unchanged → ⊥
everything_is-unchanged e = true_is-false (ap (λ (c : Changes). c.tools_changed) e)
  where
    true_is-false : true ≡ false → ⊥
    true_is-false h = cc

guard-false :
    (b : Bool) (c : Changes)
    → (if b then everything else c) ≡ unchanged
    → (b ≡ false) × (c ≡ unchanged)
guard-false true c h = absurd (everything_is-unchanged h)
guard-false false c h = (refl, h)

same_server :
    (k : Kind) (name : String) (a b : ServerConfig)
    → opt_beq a.enabled b.enabled ≡ true
    → list_changed k (some a) b ≡ false
    → told (Dict.get name (items_of k a)) ≡ told (Dict.get name (items_of k b))
same_server k name a b e h = list-told (items_of k a) (items_of k b) name (ground arith)

abbrev Facts : Permissions → Permissions → Type 0
Facts old new =
    (any (λ e. not (Dict.has e.0 old)) new ≡ false)
    × (any (λ e. not (Dict.has e.0 new)) old ≡ false)
    × (any (λ e. enabled_changed (Dict.get e.0 old) e.1) new ≡ false)
    × ((k : Kind) → some_list_changed k old new ≡ false)

lists-unchanged :
    (old new : Permissions)
    → record {
      tools_changed = some_list_changed tool old new;
      resources_changed = some_list_changed resource old new;
      prompts_changed = some_list_changed prompt old new;
    }
      ≡ unchanged
    → (k : Kind) → some_list_changed k old new ≡ false
lists-unchanged old new h tool = ap (λ (c : Changes). c.tools_changed) h
lists-unchanged old new h resource = ap (λ (c : Changes). c.resources_changed) h
lists-unchanged old new h prompt = ap (λ (c : Changes). c.prompts_changed) h

compare_permissions-Facts :
    (old new : Permissions) → compare_permissions old new ≡ unchanged → Facts old new
unfolding compare_permissions
compare_permissions-Facts old new h =
    let first = guard-false (any (λ e. not (Dict.has e.0 old)) new) _ h in
    let second = guard-false (any (λ e. not (Dict.has e.0 new)) old) _ first.1 in
    let third = guard-false (any (λ e. enabled_changed (Dict.get e.0 old) e.1) new) _ second.1 in
    (first.0, second.0, third.0, lists-unchanged old new third.1)

-- If no change of a user's settings is reported, then the two have the same servers, each enabled or
-- disabled alike, and with tools, resources and prompts of the same names, each enabled or disabled
-- alike and of the same danger level. Nothing else of the settings is compared.
pub compare_permissions-SameView :
    (old new : Permissions) (server : String)
    → compare_permissions old new ≡ unchanged
    → SameView (Dict.get server old) (Dict.get server new)
compare_permissions-SameView old new server h =
    same_view (Dict.get server old) (Dict.get server new) refl refl
  where
    facts : Facts old new
    facts = compare_permissions-Facts old new h

    same_view :
        (a b : Option ServerConfig)
        → Dict.get server old ≡ a
        → Dict.get server new ≡ b
        → SameView a b
    same_view none none e f = tt
    same_view (some a) none e f =
        not_has-some (any-get (λ x. not (Dict.has x.0 new)) server a old facts.1 e) (ap is_some f)
    same_view none (some b) e f =
        not_has-some (any-get (λ x. not (Dict.has x.0 old)) server b new facts.0 f) (ap is_some e)
    same_view (some a) (some b) e f =
        let same : opt_beq a.enabled b.enabled ≡ true = not-false (
          subst (λ o. enabled_changed o b ≡ false) e
            (any-get (λ x. enabled_changed (Dict.get x.0 old) x.1) server b new facts.2 f)) in
        (
          opt_beq-eq a.enabled b.enabled same,
          λ k name. same_server k name a b same (
              subst (λ o. list_changed k o b ≡ false) e
                (any-get (λ x. list_changed k (Dict.get x.0 old) x.1) server b new (facts.3 k) f)),
        )
