-- ===== src/Policy.antt =====
-- backend/pkg/tools/policy.go: the sandbox and approval policy of each session. The modes are the
-- source's strings (backend/pkg/session/events.go); a missing map entry reads as the zero policy, whose
-- fields are empty, in the setters, and as the deployment defaults in Get.
pub mod Modes
use deep_seek_harness_x.Prelude.{
  String, Bool, true, false, ◌&&◌, ◌||◌, not, Option, none, some, List, [], ◌∷◌, ◌++◌,
  if◌then◌else◌, str_eq, Map, lookup, insert,
}

abbrev pub sandbox_read_only : String
sandbox_read_only = "read-only"

abbrev pub sandbox_workspace_write : String
sandbox_workspace_write = "workspace-write"

abbrev pub sandbox_danger_full_access : String
sandbox_danger_full_access = "danger-full-access"

abbrev pub approval_policy_ask : String
approval_policy_ask = "ask"

abbrev pub approval_policy_never : String
approval_policy_never = "never"

abbrev pub approval_policy_accept_edits : String
approval_policy_accept_edits = "accept-edits"

abbrev pub approval_policy_review : String
approval_policy_review = "review"

abbrev pub approval_policy_allow_all : String
approval_policy_allow_all = "allow-all"

abbrev pub permission_mode_default : String
permission_mode_default = "default"

abbrev pub permission_mode_accept_edits : String
permission_mode_accept_edits = "accept-edits"

abbrev pub permission_mode_plan : String
permission_mode_plan = "plan"

abbrev pub permission_mode_auto_review : String
permission_mode_auto_review = "auto"

abbrev pub permission_mode_allow_all : String
permission_mode_allow_all = "allow-all"

abbrev pub default_sandbox_mode : String
default_sandbox_mode = sandbox_workspace_write

abbrev pub default_approval_policy : String
default_approval_policy = approval_policy_ask

pub record SessionPolicy : Type 0 where
  pub sandbox : String
  pub approval : String
  pub preset : String
  pub review_model : String

abbrev pub zero_policy : SessionPolicy
zero_policy = record { sandbox = ""; approval = ""; preset = ""; review_model = "" }

-- SessionPolicy.Mode
unfoldable pub mode : SessionPolicy → String
mode p =
    if str_eq p.approval approval_policy_never && str_eq p.sandbox sandbox_read_only
    then permission_mode_plan
    else if str_eq p.approval approval_policy_allow_all
    then permission_mode_allow_all
    else if str_eq p.approval approval_policy_review
    then permission_mode_auto_review
    else if str_eq p.approval approval_policy_accept_edits
    then permission_mode_accept_edits
    else if str_eq p.approval approval_policy_ask && str_eq p.sandbox sandbox_danger_full_access
    then permission_mode_allow_all
    else permission_mode_default

pub record PolicyStore : Type 0 where
  pub by_id : Map SessionPolicy
  pub allowed_tools : Map (Map Bool)

abbrev pub new_policy_store : PolicyStore
new_policy_store = record { by_id = []; allowed_tools = [] }

value_or : {A : Type 0} → A → Option A → A
value_or d none = d
value_or d (some a) = a

unfoldable pub policy_allowed : PolicyStore → String → String → Bool
unfolding value_or lookup
policy_allowed s session_id tool_name =
    value_or false (lookup tool_name (value_or [] (lookup session_id s.allowed_tools)))

unfoldable pub remember_approval : PolicyStore → String → String → PolicyStore
unfolding value_or lookup insert
remember_approval s session_id tool_name = if str_eq tool_name "" then s else record s {
  allowed_tools =
      insert session_id (insert tool_name true (value_or [] (lookup session_id s.allowed_tools)))
        s.allowed_tools;
}

-- Get
unfoldable pub get_policy : PolicyStore → String → SessionPolicy
unfolding value_or lookup
get_policy s session_id =
    value_or
      (record zero_policy { sandbox = default_sandbox_mode; approval = default_approval_policy })
      (lookup session_id s.by_id)

-- `p.byID[sessionID]`, where a missing entry reads as the zero policy.
unfoldable pub entry_of : PolicyStore → String → SessionPolicy
unfolding value_or lookup
entry_of s session_id = value_or zero_policy (lookup session_id s.by_id)

unfoldable pub put_entry : PolicyStore → String → SessionPolicy → PolicyStore
unfolding insert
put_entry s session_id p = record s { by_id = insert session_id p s.by_id }

-- What a setter hands to `emit`.
pub data PolicyEvent : Type 0 where
  sandbox_mode : (mode : String) (source : String) → PolicyEvent
  approval_policy : (policy : String) (source : String) → PolicyEvent
  permission_preset : (preset : String) (review_model : String) → PolicyEvent

pub data PolicyError : Type 0 where
  invalid_sandbox_mode invalid_approval_policy empty_review_model invalid_permission_mode
        empty_preset :
      PolicyError

-- The store, the events emitted in order, and the error.
pub record Switched : Type 0 where
  pub store : PolicyStore
  pub events : List PolicyEvent
  pub error : Option PolicyError

abbrev pub rejected : PolicyStore → PolicyError → Switched
rejected s e = record { store = s; events = []; error = some e }

abbrev emitted : Bool → PolicyEvent → List PolicyEvent
emitted emit e = if emit then e ∷ [] else []

abbrev pub switched : PolicyStore → Bool → PolicyEvent → Switched
switched s emit e = record { store = s; events = emitted emit e; error = none }

unfoldable pub is_sandbox_mode : String → Bool
is_sandbox_mode m =
    str_eq m sandbox_read_only
    || (str_eq m sandbox_workspace_write || str_eq m sandbox_danger_full_access)

unfoldable pub is_approval_policy : String → Bool
is_approval_policy p =
    str_eq p approval_policy_ask
    || (str_eq p approval_policy_never
        || (str_eq p approval_policy_accept_edits
            || (str_eq p approval_policy_review || str_eq p approval_policy_allow_all)))

unfoldable pub set_sandbox_mode : PolicyStore → String → String → String → Bool → Switched
unfolding put_entry entry_of is_sandbox_mode
set_sandbox_mode s session_id m source emit =
    if not (is_sandbox_mode m)
    then rejected s invalid_sandbox_mode
    else switched (put_entry s session_id (record (entry_of s session_id) { sandbox = m })) emit
        (sandbox_mode m source)

unfoldable pub set_approval_policy : PolicyStore → String → String → String → Bool → Switched
unfolding put_entry entry_of is_approval_policy
set_approval_policy s session_id policy source emit =
    if not (is_approval_policy policy)
    then rejected s invalid_approval_policy
    else switched (put_entry s session_id (record (entry_of s session_id) { approval = policy }))
        emit (approval_policy policy source)

unfoldable pub set_review_model : PolicyStore → String → String → Bool → Switched
unfolding put_entry entry_of
set_review_model s session_id model emit =
    if str_eq model ""
    then rejected s empty_review_model
    else let p = entry_of s session_id in
      switched (put_entry s session_id (record p { review_model = model })) emit
        (permission_preset p.preset model)

unfoldable pub set_preset : PolicyStore → String → String → Bool → Switched
unfolding put_entry entry_of
set_preset s session_id preset emit =
    if str_eq preset ""
    then rejected s empty_preset
    else switched (put_entry s session_id (record (entry_of s session_id) { preset = preset })) emit
        (permission_preset preset "")

-- One setter after another: an error returns at once.
unfoldable pub then_set : Switched → (PolicyStore → Switched) → Switched
then_set w f = elim w.error [
  | some e ↦ w
  | none ↦ record {
    store = (f w.store).store;
    events = w.events ++ (f w.store).events;
    error = (f w.store).error;
  }
]

-- The pair of knobs of a permission mode.
unfoldable pub knobs_of : String → Option (String × String)
knobs_of m =
    if str_eq m permission_mode_default
    then some (sandbox_workspace_write, approval_policy_ask)
    else if str_eq m permission_mode_accept_edits
    then some (sandbox_workspace_write, approval_policy_accept_edits)
    else if str_eq m permission_mode_plan
    then some (sandbox_read_only, approval_policy_never)
    else if str_eq m permission_mode_auto_review
    then some (sandbox_workspace_write, approval_policy_review)
    else if str_eq m permission_mode_allow_all
    then some (sandbox_danger_full_access, approval_policy_allow_all)
    else none

set_knobs : PolicyStore → String → String → Bool → Option (String × String) → Switched
unfolding set_sandbox_mode set_approval_policy set_preset then_set
set_knobs s session_id m emit none = rejected s invalid_permission_mode
set_knobs s session_id m emit (some (sandbox, approval)) =
    then_set
      (then_set (set_sandbox_mode s session_id sandbox "" emit)
        (λ t. set_approval_policy t session_id approval "" emit))
      (λ t. set_preset t session_id m emit)

unfoldable pub set_mode : PolicyStore → String → String → Bool → Switched
unfolding set_knobs knobs_of
set_mode s session_id m emit = set_knobs s session_id m emit (knobs_of m)

-- path/filepath, and `strings.HasPrefix(rel, "../")` with the platform's separator.
pub record Filepath : Type 0 where
  pub is_abs : String → Bool
  pub join : String → String → String
  pub rel : String → String → Option String
  pub leaves : String → Bool

pub data WriteCheck : Type 0 where
  allowed denied_read_only denied_workspace_write : WriteCheck

within : Filepath → Option String → WriteCheck
within fp none = denied_workspace_write
within fp (some rel) = if str_eq rel ".." || fp.leaves rel then denied_workspace_write else allowed

-- checkWrite: the denial marker, or its absence.
unfoldable pub check_write : Filepath → PolicyStore → String → String → String → WriteCheck
unfolding within get_policy
check_write fp s session_id cwd target_path =
    let p = get_policy s session_id in
    if str_eq p.sandbox sandbox_danger_full_access
    then allowed
    else if str_eq p.sandbox sandbox_read_only
    then denied_read_only
    else if str_eq cwd ""
    then denied_workspace_write
    else within fp
        (fp.rel cwd (if fp.is_abs target_path then target_path else fp.join cwd target_path))
