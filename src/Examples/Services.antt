-- ===== src/Examples/Services.antt =====
-- The examples of the policy store, of the plugin services and of the terminal prompt.
use deep_seek_harness_x.Prelude.{
  ℕ, String, Bool, true, false, none, some, [], ◌∷◌, lookup, ok, ◌||◌, ◌&&◌, str_eq, if◌then◌else◌,
  ◌≡◌, ◌≢◌, refl, arith, eq_iff,
}
use deep_seek_harness_x.Prelude.Int.{pos}
use deep_seek_harness_x.Policy.{new_policy_store, mode, get_policy, set_mode}
use deep_seek_harness_x.Policy.Modes.{set_mode-mode}
use deep_seek_harness_x.Core.Permissions.{
  NodeDescriptor, Grant, PermissionService, resolve, add_grant, revoke, grants_of, target_key,
  session_target,
}
use deep_seek_harness_x.Core.Permissions.Resolve.{
  is_honoured, is_given, resolve-add_grant, revoke-removes,
}
use deep_seek_harness_x.Core.Tasks.{EventBus, is_blocked, subs_of, subscribe, unsubscriber}
use deep_seek_harness_x.Core.Tasks.Delivery.{IsNumbered, remove_sub-subscribe}
use deep_seek_harness_x.Tui.History.{History, next}
use deep_seek_harness_x.Tui.History.Navigation.{ups, downs, next-downs-ups}
use deep_seek_harness_x.Tui.CtrlC.{HintBar, set_hint, clear_if_gen, clear_if_gen-set_hint}

plan-accepted : (set_mode new_policy_store "s" "plan" true).error ≡ none
unfolding set_mode
plan-accepted = refl

set_mode-mode_example :
    mode (get_policy (set_mode new_policy_store "s" "plan" true).store "s") ≡ "plan"
set_mode-mode_example = set_mode-mode new_policy_store "s" "plan" true plan-accepted

sessions-differ : ◌≢◌ {A = String} "s" "t"
sessions-differ same = absurd (ground (arith, (eq_iff "s" "t").1 same))

abbrev node : NodeDescriptor
node = record {
  id = "fs.write";
  description = "";
  group = "";
  parent = "";
  danger_level = "";
  scope = "";
  default = false;
  requires_approval = true;
}

abbrev grant : Grant
grant = record {
  id = "g";
  plugin_id = "p";
  node = "fs.write";
  reason = "";
  duration = pos 10;
  expires_at = none;
  created_at = none;
}

abbrev before : PermissionService
before = record { nodes = ("fs.write", node) ∷ []; grants = [] }

abbrev granted : PermissionService
granted = record {
  nodes = ("fs.write", node) ∷ [];
  grants =
      (
        "session/s",
        ("g", record grant { created_at = some (pos 5); expires_at = some (pos 15) }) ∷ [],
      )
      ∷ [];
}

registered : lookup "fs.write" before.nodes ≡ some node
unfolding lookup
registered = refl

grant-accepted : add_grant before (pos 5) (session_target "s") grant ≡ ok granted
unfolding add_grant
grant-accepted = refl

new-grant : lookup "g" (grants_of before (target_key (session_target "s"))) ≡ none
unfolding grants_of lookup
new-grant = refl

resolve-add_grant_example :
    resolve granted (pos 14) "s" "fs.write"
    ≡ (is_honoured (pos 5) (pos 14) grant || resolve before (pos 14) "s" "fs.write")
resolve-add_grant_example =
    resolve-add_grant before (pos 5) (pos 14) "s" grant node granted registered new-grant
      grant-accepted

-- Two grants, one of which is revoked.
abbrev twice : PermissionService
twice = record {
  nodes = ("fs.write", node) ∷ [];
  grants = ("session/s", ("h", grant) ∷ ("g", grant) ∷ []) ∷ [];
}

abbrev once : PermissionService
once = record { nodes = ("fs.write", node) ∷ []; grants = ("session/s", ("g", grant) ∷ []) ∷ [] }

revoke-accepted : revoke twice (session_target "s") "h" ≡ ok once
unfolding revoke
revoke-accepted = refl

revoke-removes_example :
    (is_given (lookup "h" (grants_of twice (target_key (session_target "s")))) ≡ true)
    × (lookup "g" (grants_of once "session/s") ≡ (
        if str_eq (target_key (session_target "s")) "session/s" && str_eq "h" "g"
        then none
        else lookup "g" (grants_of twice "session/s")))
    × (once.nodes ≡ twice.nodes)
revoke-removes_example =
    revoke-removes twice (session_target "s") "h" once "session/s" "g" revoke-accepted

abbrev bus : EventBus String
bus = record {
  handlers = ("topic", record { id = 1; owner_id = "p"; handler = some "f" } ∷ []) ∷ [];
  next_sub_id = 1;
  registry = none;
}

never : ℕ → Bool
never n = false

topic-open : is_blocked bus.registry "topic" ≡ false
unfolding is_blocked
topic-open = refl

bus-IsNumbered : IsNumbered bus
unfolding subs_of
bus-IsNumbered t = ground arith

remove_sub-subscribe_example :
    (let (after, returned) = subscribe bus "topic" "q" (some "g") in
      subs_of (unsubscriber "topic" returned after) "topic")
    ≡ subs_of bus "topic"
remove_sub-subscribe_example =
    remove_sub-subscribe bus "topic" "q" "g" "topic" topic-open refl refl bus-IsNumbered

abbrev history : History
history = record { items = "a" ∷ "b" ∷ []; cap = 2; nav_pos = 0; navigat = false; draft = "" }

next-downs-ups_example : (next (downs 1 (ups 2 "typed" history))).1 ≡ ("typed", (true, true))
next-downs-ups_example = next-downs-ups history "typed" 1 refl (omega arith)

abbrev bar : HintBar
bar = record { text = ""; gen = 18446744073709551615 }

clear_if_gen-set_hint_example :
    let (older, gen) = set_hint bar "first" in
    let newer = (set_hint older "second").0 in clear_if_gen newer gen ≡ (newer, false)
clear_if_gen-set_hint_example = clear_if_gen-set_hint bar "first" "second" (omega arith)
