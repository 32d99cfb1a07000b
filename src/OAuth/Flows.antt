-- ===== src/OAuth/Flows.antt =====
-- oauth/services/DeskAuthorizationFlowService.ts: the authorizations that a user finishes in the
-- desktop application. The id that randomBytes gives and each reading of the clock are arguments.
pub mod Final
use peta_core.Json.{codes}
use peta_core.Prelude.{
  string_eq, text_eq, ℕ, String, Bool, Option, List, [], false, if◌then◌else◌, leb, none, not,
  opt_beq, some, true, ◌&&◌, ◌+◌, ◌==◌, ◌||◌, ◌∷◌,
}
use peta_core.Prelude.Dict
use peta_core.OAuth.Service.{Text}
use peta_core.OAuth.Authorize.{AuthorizationParams}

pub data FlowStatus : Type 0 where
  pending completed failed expired : FlowStatus

abbrev pub is_pending : FlowStatus → Bool
is_pending pending = true
is_pending _ = false

abbrev pub is_completed : FlowStatus → Bool
is_completed completed = true
is_completed _ = false

pub record Flow : Type 0 where
  pub flow_id : String
  pub issuer : Text
  pub params : AuthorizationParams
  pub status : FlowStatus
  pub expires_at : ℕ
  pub redirect : Option Text
  pub error : Option Text
  pub error_description : Option Text

abbrev pub Flows : Type 0
Flows = List (String × Flow)

abbrev pub ttl_ms : ℕ
ttl_ms = 300000

abbrev pub expire : Flow → Flow
expire f = record f {
  status = expired;
  error = some (codes "expired");
  error_description = some (codes "Authorization flow has expired");
}

abbrev pub is_due : ℕ → Flow → Bool
is_due now f = is_pending f.status && leb f.expires_at now

abbrev pub expire_due : ℕ → Flow → Flow
expire_due now f = if is_due now f then expire f else f

-- what the loop does to an entry: `none` where it deletes it
abbrev pub clean_up : ℕ → Flow → Option Flow
clean_up now f =
    if is_due now f
    then some (expire f)
    else if leb (f.expires_at + ttl_ms) now && not (is_completed f.status)
    then none
    else some f

unfoldable pub cleanup_expired : ℕ → Flows → Flows
cleanup_expired now [] = []
cleanup_expired now ((i, f) ∷ m) = keep_entry (clean_up now f) (cleanup_expired now m)
  where
    keep_entry : Option Flow → Flows → Flows
    keep_entry none rest = rest
    keep_entry (some g) rest = (i, g) ∷ rest

abbrev pub new_flow : String → AuthorizationParams → Text → ℕ → Flow
new_flow i params issuer now = record {
  flow_id = i;
  issuer = issuer;
  params = params;
  status = pending;
  expires_at = now + ttl_ms;
  redirect = none;
  error = none;
  error_description = none;
}

unfoldable pub create_flow : String → AuthorizationParams → Text → ℕ → ℕ → Flows → Flows × Flow
unfolding cleanup_expired
create_flow i params issuer now later m =
    let f = new_flow i params issuer later in (Dict.set i f (cleanup_expired now m), f)

abbrev pub flow_found : String → ℕ → Flows → Option Flow → Flows × Option Flow
flow_found i now m none = (m, none)
flow_found i now m (some f) = (Dict.set i (expire_due now f) m, some (expire_due now f))

unfoldable pub get_flow : String → ℕ → Flows → Flows × Option Flow
get_flow i now m = flow_found i now m (Dict.get i m)

abbrev pub params_match : AuthorizationParams → AuthorizationParams → Bool
params_match a b =
    a.client_id == b.client_id
    && a.redirect_uri == b.redirect_uri
    && opt_beq a.scope b.scope
    && opt_beq a.state b.state
    && opt_beq a.code_challenge b.code_challenge
    && opt_beq a.code_challenge_method b.code_challenge_method
    && opt_beq a.resource b.resource

abbrev pub is_reusable : AuthorizationParams → Text → Flow → Bool
is_reusable params issuer f =
    (is_pending f.status || is_completed f.status)
    && f.issuer == issuer
    && params_match f.params params

abbrev pub if_reusable : AuthorizationParams → Text → Option Flow → Option Flow
if_reusable params issuer none = none
if_reusable params issuer (some f) = if is_reusable params issuer f then some f else none

unfoldable pub get_reusable_flow :
    String → AuthorizationParams → Text → ℕ → Flows → Flows × Option Flow
unfolding get_flow
get_reusable_flow i params issuer now m =
    let (m', o) = get_flow i now m in (m', if_reusable params issuer o)

abbrev pub finish : String → (Flow → Flow) → Flows × Option Flow → Flows × Option Flow
finish i g (m, none) = (m, none)
finish i g (m, some f) =
    if is_pending f.status then (Dict.set i (g f) m, some (g f)) else (m, some f)

abbrev pub set_completed : Text → Flow → Flow
set_completed redirect f = record f { status = completed; redirect = some redirect }

abbrev pub set_failed : Text → Text → Flow → Flow
set_failed error description f = record f {
  status = failed;
  error = some error;
  error_description = some description;
}

unfoldable pub complete_flow : String → Text → ℕ → Flows → Flows × Option Flow
unfolding get_flow
complete_flow i redirect now m = finish i (set_completed redirect) (get_flow i now m)

unfoldable pub fail_flow : String → Text → Text → ℕ → Flows → Flows × Option Flow
unfolding get_flow
fail_flow i error description now m = finish i (set_failed error description) (get_flow i now m)

pub data Call : Type 0 where
  creation : String → AuthorizationParams → Text → ℕ → ℕ → Call
  lookup : String → ℕ → Call
  reuse : String → AuthorizationParams → Text → ℕ → Call
  completion : String → Text → ℕ → Call
  failure : String → Text → Text → ℕ → Call

unfoldable pub call : Call → Flows → Flows
call (creation i params issuer now later) m = (create_flow i params issuer now later m).0
call (lookup i now) m = (get_flow i now m).0
call (reuse i params issuer now) m = (get_reusable_flow i params issuer now m).0
call (completion i redirect now) m = (complete_flow i redirect now m).0
call (failure i error description now) m = (fail_flow i error description now m).0

unfoldable pub call_all : List Call → Flows → Flows
unfolding call
call_all [] m = m
call_all (c ∷ cs) m = call_all cs (call c m)
