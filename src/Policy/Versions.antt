-- ===== src/Policy/Versions.antt =====
-- repositories/PolicyRepository.ts: the rows of `tool_policy_set` and their versions. `J` is the
-- type of JSON values; a clock reading is an argument. The database keeps one row for each version
-- of a server's policies, and one for each version of the global ones, whose server is `none`.
pub mod Effective
use mathlib.Core.Option
use peta_core.Prelude.{
  ℕ, String, string_eq, List, Bool, Option, [], any, if◌then◌else◌, keep, leb, max, nat_beq, none,
  opt_beq, some, sort, suc, zero, ◌&&◌, ◌++◌, ◌+◌, ◌==◌, ◌∷◌, find, get_or, map, not,
}

pub record ToolPolicySet (J : Type 0) : Type 0 where
  pub id : String
  pub server_id : Option String
  pub version : ℕ
  pub status : String
  pub dsl : J
  pub created_at : ℕ
  pub updated_at : ℕ

-- What one attempt takes from its surroundings: the id that is made up, the clock, and what other
-- clients do to the table between the search for the last version and the writing of the next.
pub record WriteAttempt (J : Type 0) : Type 0 where
  pub new_id : String
  pub now : ℕ
  pub meanwhile : List (ToolPolicySet J) → List (ToolPolicySet J)

module _ {J : Type 0} where
  abbrev pub is_of : Option String → ToolPolicySet J → Bool
  is_of s r = opt_beq r.server_id s

  abbrev pub is_active_of : Option String → ToolPolicySet J → Bool
  is_active_of s r = r.status == "active" && is_of s r

  -- what the unique indexes refuse a second row of
  abbrev pub holds_version : Option String → ℕ → ToolPolicySet J → Bool
  holds_version s v r = is_of s r && nat_beq r.version v

  -- `latest?.version ?? 0`
  unfoldable pub last_version : Option String → List (ToolPolicySet J) → ℕ
  last_version s [] = 0
  last_version s (r ∷ t) =
      let rest = last_version s t in if is_of s r then max r.version rest else rest

  abbrev pub new_set : Option String → J → ℕ → WriteAttempt J → ToolPolicySet J
  new_set s dsl v a = record {
    id = a.new_id;
    server_id = s;
    version = v;
    status = "active";
    dsl = dsl;
    created_at = a.now;
    updated_at = a.now;
  }

  -- with so many attempts left after this one; `none` is the error that the caller gets
  unfoldable pub create_policy_from :
      (ℕ → WriteAttempt J)
      → Option String
      → J
      → ℕ
      → List (ToolPolicySet J)
      → List (ToolPolicySet J) × Option (ToolPolicySet J)
  create_policy_from w s dsl zero t =
      let v = last_version s t + 1 in
      let t' = (w 0).meanwhile t in
      if any (holds_version s v) t'
      then (t', none)
      else (t' ++ new_set s dsl v (w 0) ∷ [], some (new_set s dsl v (w 0)))
  create_policy_from w s dsl (suc n) t =
      let a = w (suc n) in
      let v = last_version s t + 1 in
      let t' = a.meanwhile t in
      let again = create_policy_from w s dsl n t' in
      if any (holds_version s v) t'
      then again
      else (t' ++ new_set s dsl v a ∷ [], some (new_set s dsl v a))

  unfoldable pub create_policy :
      (ℕ → WriteAttempt J)
      → Option String
      → J
      → List (ToolPolicySet J)
      → List (ToolPolicySet J) × Option (ToolPolicySet J)
  unfolding create_policy_from
  create_policy w s dsl t = create_policy_from w s dsl 2 t

  abbrev pub by_version : ToolPolicySet J → ToolPolicySet J → Bool
  by_version r q = leb q.version r.version

  abbrev pub active_sets : Option String → List (ToolPolicySet J) → List (ToolPolicySet J)
  active_sets s t = sort by_version (keep (is_active_of s) t)

  unfoldable pub get_effective_policy :
      Option String → List (ToolPolicySet J) → List (ToolPolicySet J)
  get_effective_policy none t = [] ++ active_sets none t
  get_effective_policy (some s) t = active_sets (some s) t ++ active_sets none t

  unfoldable pub archive_by_server_id :
      Option String → ℕ → List (ToolPolicySet J) → List (ToolPolicySet J)
  archive_by_server_id s now [] = []
  archive_by_server_id s now (r ∷ t) =
      (if is_active_of s r then record r { status = "archived"; updated_at = now } else r)
      ∷ archive_by_server_id s now t

  unfoldable pub find_policy : String → List (ToolPolicySet J) → Option (ToolPolicySet J)
  find_policy id t = find (λ r. r.id == id) t

  abbrev pub head_of : List (ToolPolicySet J) → Option (ToolPolicySet J)
  head_of [] = none
  head_of (r ∷ t) = some r

  unfoldable pub find_active_by_server_id :
      Option String → List (ToolPolicySet J) → Option (ToolPolicySet J)
  find_active_by_server_id s t = head_of (active_sets s t)

  unfoldable pub find_all_active : List (ToolPolicySet J) → List (ToolPolicySet J)
  find_all_active t = keep (λ r. r.status == "active") t

  unfoldable pub find_by_server_id : Option String → List (ToolPolicySet J) → List (ToolPolicySet J)
  find_by_server_id s t = sort by_version (keep (is_of s) t)

  -- `none` is the error that the row is not there
  unfoldable pub delete_policy :
      String → List (ToolPolicySet J) → List (ToolPolicySet J) × Option (ToolPolicySet J)
  delete_policy id t = (keep (λ r. not (r.id == id)) t, find (λ r. r.id == id) t)

  abbrev pub replace :
      String → (ToolPolicySet J → ToolPolicySet J) → List (ToolPolicySet J) → List (ToolPolicySet J)
  replace id f t = map (λ r. if r.id == id then f r else r) t

  -- the columns of an update that brings rules
  abbrev pub with_rules : J → Option String → ℕ → ℕ → ToolPolicySet J → ToolPolicySet J
  with_rules dsl status v now r = record r {
    version = v;
    status = get_or status r.status;
    dsl = dsl;
    updated_at = now;
  }

  -- The writing of a version: `retry` where it belongs to another row of the same server.
  abbrev pub write_version :
      String
      → J
      → Option String
      → ℕ
      → ℕ
      → List (ToolPolicySet J) × Option (ToolPolicySet J)
      → List (ToolPolicySet J)
      → Option (ToolPolicySet J)
      → List (ToolPolicySet J) × Option (ToolPolicySet J)
  write_version id dsl status v now retry t none = (t, none)
  write_version id dsl status v now retry t (some r) =
      if any (λ q. not (q.id == id) && holds_version r.server_id v q) t
      then retry
      else (replace id (with_rules dsl status v now) t, some (with_rules dsl status v now r))

  unfoldable pub update_policy_from :
      (ℕ → WriteAttempt J)
      → String
      → J
      → Option String
      → Option String
      → ℕ
      → List (ToolPolicySet J)
      → List (ToolPolicySet J) × Option (ToolPolicySet J)
  unfolding last_version find_policy
  update_policy_from w id dsl status server zero t =
      let t' = (w 0).meanwhile t in
      write_version id dsl status (last_version server t + 1) (w 0).now (t', none) t'
        (find_policy id t')
  update_policy_from w id dsl status server (suc n) t =
      let a = w (suc n) in
      let t' = a.meanwhile t in
      write_version id dsl status (last_version server t + 1) a.now
        (update_policy_from w id dsl status server n t') t' (find_policy id t')

  -- without rules the version stays
  unfoldable pub update_policy :
      (ℕ → WriteAttempt J)
      → String
      → Option J
      → Option String
      → Option String
      → List (ToolPolicySet J)
      → List (ToolPolicySet J) × Option (ToolPolicySet J)
  unfolding update_policy_from
  update_policy w id (some dsl) status server t = update_policy_from w id dsl status server 2 t
  update_policy w id none status server t =
      let set : ToolPolicySet J → ToolPolicySet J =
        λ r. record r { status = get_or status r.status; updated_at = (w 2).now } in
      (replace id set t, Option.map set (find_policy id t))
