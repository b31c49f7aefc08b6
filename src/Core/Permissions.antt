-- ===== src/Core/Permissions.antt =====
-- backend/core/permissions.go: permission nodes, and grants of them to targets. A time is `none` for
-- the zero time, and the time of a call is an argument.
pub mod Resolve
use Prim.Native.String.{◌++◌ as ◌^^◌}
use deep_seek_harness_x.Prelude.{
  String, Bool, true, false, not, ◌&&◌, ◌||◌, Option, none, some, List, [], ◌∷◌, if◌then◌else◌,
  str_eq, Map, lookup, insert, delete, Result, ok, err,
}
use deep_seek_harness_x.Prelude.Int.{ℤ, pos, ltb_ℤ, ◌+ℤ◌}

pub record NodeDescriptor : Type 0 where
  pub id : String
  pub description : String
  pub group : String
  pub parent : String
  pub danger_level : String
  pub scope : String
  pub default : Bool
  pub requires_approval : Bool

pub record Target : Type 0 where
  pub kind : String
  pub id : String

pub record Grant : Type 0 where
  pub id : String
  pub plugin_id : String
  pub node : String
  pub reason : String
  pub duration : ℤ
  pub expires_at : Option ℤ
  pub created_at : Option ℤ

pub record PermissionService : Type 0 where
  pub nodes : Map NodeDescriptor
  pub grants : Map (Map Grant)

abbrev pub new_permission_service : PermissionService
new_permission_service = record { nodes = []; grants = [] }

pub data PermissionError : Type 0 where
  node_id_required grant_fields_required unknown_target unknown_grant denied : PermissionError

unfoldable pub register_node :
    PermissionService → NodeDescriptor → Result PermissionError PermissionService
unfolding insert
register_node ps nd =
    if str_eq nd.id ""
    then err node_id_required
    else ok (record ps { nodes = insert nd.id nd ps.nodes })

-- fmt.Sprintf("%s/%s", target.Kind, target.ID)
unfoldable pub target_key : Target → String
target_key target = target.kind ^^ ("/" ^^ target.id)

grants_at : Option (Map Grant) → Map Grant
grants_at none = []
grants_at (some gs) = gs

-- The grants of a target: none for a missing key.
unfoldable pub grants_of : PermissionService → String → Map Grant
unfolding lookup grants_at
grants_of ps key = grants_at (lookup key ps.grants)

-- `g.ExpiresAt.IsZero() || g.ExpiresAt.After(now)`
unfoldable pub is_live : ℤ → Option ℤ → Bool
is_live now none = true
is_live now (some expiry) = ltb_ℤ now expiry

-- The loop over the grants of a session.
unfoldable pub any_live : ℤ → String → Map Grant → Bool
unfolding is_live
any_live now node [] = false
any_live now node ((id, g) ∷ gs) =
    str_eq g.node node && is_live now g.expires_at || any_live now node gs

unfoldable pub answer : Option NodeDescriptor → String → Bool → Bool
answer none session_id live = false
answer (some nd) session_id live =
    if nd.default then true else if str_eq session_id "" then false else live

abbrev pub session_target : String → Target
session_target session_id = record { kind = "session"; id = session_id }

unfoldable pub resolve : PermissionService → ℤ → String → String → Bool
unfolding any_live grants_of target_key answer
resolve ps now session_id node =
    answer (lookup node ps.nodes) session_id
      (any_live now node (grants_of ps (target_key (session_target session_id))))

or_now : ℤ → Option ℤ → ℤ
or_now now none = now
or_now now (some t) = t

-- `grant.Duration > 0 && grant.ExpiresAt.IsZero()`
expiry_of : ℤ → ℤ → Option ℤ → Option ℤ
unfolding ◌+ℤ◌
expiry_of created duration (some t) = some t
expiry_of created duration none =
    if ltb_ℤ (pos 0) duration then some (created +ℤ duration) else none

-- The grant with its creation and expiry filled in.
unfoldable pub dated : ℤ → Grant → Grant
unfolding or_now expiry_of
dated now g =
    let created = or_now now g.created_at in
    record g { created_at = some created; expires_at = expiry_of created g.duration g.expires_at }

-- Grant
unfoldable pub add_grant :
    PermissionService → ℤ → Target → Grant → Result PermissionError PermissionService
unfolding insert grants_of dated target_key
add_grant ps now target g =
    if str_eq target.kind "" || (str_eq target.id "" || (str_eq g.id "" || str_eq g.node ""))
    then err grant_fields_required
    else let key = target_key target in
      ok
        (record ps { grants = insert key (insert g.id (dated now g) (grants_of ps key)) ps.grants })

-- `delete(grants, id)`, and the target with it when none is left.
unfoldable pub put_remaining : PermissionService → String → Map Grant → PermissionService
unfolding insert delete
put_remaining ps key [] = record ps { grants = delete key ps.grants }
put_remaining ps key (g ∷ gs) = record ps { grants = insert key (g ∷ gs) ps.grants }

revoke_in :
    PermissionService
    → String
    → String
    → Option (Map Grant)
    → Result PermissionError PermissionService
unfolding lookup delete put_remaining
revoke_in ps key grant_id none = err unknown_target
revoke_in ps key grant_id (some gs) = elim (lookup grant_id gs) [
  | none ↦ err unknown_grant
  | some g ↦ ok (put_remaining ps key (delete grant_id gs))
]

unfoldable pub revoke :
    PermissionService → Target → String → Result PermissionError PermissionService
unfolding revoke_in target_key
revoke ps target grant_id =
    let key = target_key target in revoke_in ps key grant_id (lookup key ps.grants)

unfoldable pub describe : PermissionService → String → Option NodeDescriptor
describe ps node = lookup node ps.nodes

expire_in : PermissionService → String → String → Option (Map Grant) → PermissionService
unfolding put_remaining
expire_in ps key grant_id none = ps
expire_in ps key grant_id (some gs) = put_remaining ps key (delete grant_id gs)

unfoldable pub expire_grant : PermissionService → Target → String → PermissionService
unfolding expire_in target_key
expire_grant ps target grant_id =
    let key = target_key target in expire_in ps key grant_id (lookup key ps.grants)

unfoldable pub require : PermissionService → ℤ → String → String → Result PermissionError (Unit {0})
unfolding resolve
require ps now session_id node = if resolve ps now session_id node then ok tt else err denied

-- `g.ExpiresAt.Before(now)`, false of the zero time.
unfoldable pub is_expired : ℤ → Option ℤ → Bool
is_expired now none = false
is_expired now (some expiry) = ltb_ℤ expiry now

unfoldable pub unexpired : ℤ → Map Grant → Map Grant
unfolding is_expired
unexpired now [] = []
unexpired now ((id, g) ∷ gs) =
    let rest = unexpired now gs in if is_expired now g.expires_at then rest else (id, g) ∷ rest

keep_target : String → Map Grant → Map (Map Grant) → Map (Map Grant)
unfolding delete
keep_target key [] rest = delete key rest
keep_target key (g ∷ gs) rest = (key, g ∷ gs) ∷ rest

tick_grants : ℤ → Map (Map Grant) → Map (Map Grant)
unfolding unexpired keep_target
tick_grants now [] = []
tick_grants now ((key, gs) ∷ m) = keep_target key (unexpired now gs) (tick_grants now m)

-- Tick
unfoldable pub tick : PermissionService → ℤ → PermissionService
unfolding tick_grants
tick ps now = record ps { grants = tick_grants now ps.grants }
