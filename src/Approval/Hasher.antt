-- ===== src/Approval/Hasher.antt =====
-- mcp/services/ApprovalRequestHasher.ts: the hash by which retries of a call are recognised. What
-- the JavaScript engine and the crypto library do is a parameter: the order of keys that `sort`
-- uses, `JSON.stringify` and the hexadecimal SHA-256. Keys that are array indexes, which objects
-- put first, do not occur.
pub mod Canonical
pub mod Order
use peta_core.Prelude.{
  string_eq, Bool, List, Option, String, false, if◌then◌else◌, none, some, true, ℕ, ◌≡◌, ◌⊎◌,
}
use peta_core.Json.{
  Value, Items, Fields, null, bool, num, str, arr, obj, nil, cons, end, field, text,
}

-- A strict total order of texts, as `Array.prototype.sort` compares strings.
pub record KeyOrder : Type 0 where
  pub lt : String → String → Bool
  pub total : (a b : String) → (lt a b ≡ true) ⊎ (lt b a ≡ true) ⊎ (a ≡ b)
  pub asym : (a b : String) → lt a b ≡ true → lt b a ≡ false
  pub trans : (a b c : String) → lt a b ≡ true → lt b c ≡ true → lt a c ≡ true

module _ {N : Type 0} (o : KeyOrder) where
  unfoldable pub insert_field : String → Value N → Fields N → Fields N
  insert_field k v end = field k v end
  insert_field k v (field j w fs) =
      if o.lt j k then field j w (insert_field k v fs) else field k v (field j w fs)

unfoldable mutual
  pub sort_keys : {N : Type 0} → KeyOrder → Value N → Value N
  sort_keys o null = null
  sort_keys o (bool b) = bool b
  sort_keys o (num n) = num n
  sort_keys o (str s) = str s
  sort_keys o (arr xs) = arr (sort_items o xs)
  sort_keys o (obj fs) = obj (sort_fields o fs)

  pub sort_items : {N : Type 0} → KeyOrder → Items N → Items N
  sort_items o nil = nil
  sort_items o (cons v xs) = cons (sort_keys o v) (sort_items o xs)

  pub sort_fields : {N : Type 0} → KeyOrder → Fields N → Fields N
  sort_fields o end = end
  sort_fields o (field k v fs) = insert_field o k (sort_keys o v) (sort_fields o fs)

module _ {N : Type 0} (o : KeyOrder) (of_nat : ℕ → N) (stringify : Value N → List ℕ)
    (digest : List ℕ → String) where
  unfoldable pub canonicalize_args : Fields N → List ℕ
  canonicalize_args args = stringify (sort_keys o (obj args))

  abbrev pub or_null : Option String → Value N
  or_null none = null
  or_null (some s) = text s

  unfoldable pub compute_hash : String → Option String → String → Fields N → ℕ → String
  unfolding canonicalize_args
  compute_hash user server tool args version = digest (
      stringify (
        arr (
          cons (text "v2") (
            cons (text user) (
              cons (or_null server) (
                cons (text tool)
                  (cons (str (canonicalize_args args)) (cons (num (of_nat version)) nil))))))))
