-- ===== src/Approval/Hasher/Canonical.antt =====
-- mcp/services/ApprovalRequestHasher.ts: the hash and the order of keys.
use peta_core.Prelude.{string_eq, List, Option, String, ap, arith, refl, ℕ, ◌∙◌, ◌≡◌, ◌≢◌}
use peta_core.Json.{Value, Items, Fields, arr, obj, nil, cons, end, field}
use peta_core.Approval.Hasher.{
  KeyOrder, compute_hash, insert_field, sort_fields, sort_items, sort_keys,
}

-- Equal up to the order of the keys of objects, at any depth; neighbours with distinct keys change
-- places.
mutual
  pub data Same {N : Type 0} : Value N → Value N → Type 0 where
    same : {v : Value N} → Same v v
    same_arr : {xs ys : Items N} → SameItems xs ys → Same (arr xs) (arr ys)
    same_obj : {fs gs : Fields N} → SameFields fs gs → Same (obj fs) (obj gs)

  pub data SameItems {N : Type 0} : Items N → Items N → Type 0 where
    items_nil : SameItems nil nil
    items_cons :
        {v w : Value N} {xs ys : Items N}
        → Same v w
        → SameItems xs ys
        → SameItems (cons v xs) (cons w ys)

  pub data SameFields {N : Type 0} : Fields N → Fields N → Type 0 where
    fields_end : SameFields end end
    fields_field :
        {k : String} {v w : Value N} {fs gs : Fields N}
        → Same v w
        → SameFields fs gs
        → SameFields (field k v fs) (field k w gs)
    fields_swap :
        {j k : String} {v w : Value N} {fs : Fields N}
        → j ≢ k
        → SameFields (field j v (field k w fs)) (field k w (field j v fs))
    fields_trans : {fs gs hs : Fields N} → SameFields fs gs → SameFields gs hs → SameFields fs hs

module _ {N : Type 0} (o : KeyOrder) where
  insert_field_comm :
      (j k : String) (v w : Value N) (fs : Fields N)
      → j ≢ k
      → insert_field o j v (insert_field o k w fs) ≡ insert_field o k w (insert_field o j v fs)
  unfolding insert_field
  insert_field_comm j k v w end ne = ground (arith, o.total j k, o.asym j k, o.asym k j)
  insert_field_comm j k v w (field i x fs) ne = ground (
    arith,
    o.total j k,
    o.asym j k,
    o.asym k j,
    o.trans i j k,
    o.trans i k j,
    o.trans j k i,
    o.trans k j i,
    insert_field_comm j k v w fs ne,
  )

mutual
  unfolding sort_keys

  sort_keys-Same :
      {N : Type 0} {v w : Value N} (o : KeyOrder) → Same v w → sort_keys o v ≡ sort_keys o w
  sort_keys-Same o same = refl
  sort_keys-Same o (same_arr h) = ap arr (sort_items_same o h)
  sort_keys-Same o (same_obj h) = ap obj (sort_fields_same o h)

  sort_items_same :
      {N : Type 0} {xs ys : Items N} (o : KeyOrder)
      → SameItems xs ys
      → sort_items o xs ≡ sort_items o ys
  sort_items_same o items_nil = refl
  sort_items_same o (items_cons h t) = cc (sort_keys-Same o h, sort_items_same o t)

  sort_fields_same :
      {N : Type 0} {fs gs : Fields N} (o : KeyOrder)
      → SameFields fs gs
      → sort_fields o fs ≡ sort_fields o gs
  sort_fields_same o fields_end = refl
  sort_fields_same o (fields_field {k} h t) = cc (sort_keys-Same o h, sort_fields_same o t)
  sort_fields_same o (fields_swap {j} {k} {v} {w} {fs} ne) =
      insert_field_comm o j k (sort_keys o v) (sort_keys o w) (sort_fields o fs) ne
  sort_fields_same o (fields_trans h t) = sort_fields_same o h ∙ sort_fields_same o t

-- Two calls of one user to one tool of one server, under one version of the policies, whose
-- arguments differ in the order of keys alone, at any depth, have one hash.
pub compute_hash_same :
    {N : Type 0} (o : KeyOrder) (of_nat : ℕ → N) (stringify : Value N → List ℕ)
    (digest : List ℕ → String) (user : String) (server : Option String) (tool : String)
    (args args' : Fields N) (version : ℕ)
    → SameFields args args'
    → compute_hash o of_nat stringify digest user server tool args version
      ≡ compute_hash o of_nat stringify digest user server tool args' version
unfolding compute_hash sort_keys
compute_hash_same o of_nat stringify digest user server tool args args' version h =
    rw (sort_fields_same o h)
