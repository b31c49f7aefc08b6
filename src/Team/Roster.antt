-- ===== src/Team/Roster.antt =====
-- backend/pkg/tools/team_service.go: spawning a teammate, and addressing one by name.
-- The name's regular expression and length, and the length of the roster, are computed by the caller's library:
-- `valid_name`. The spawner's child is the id that it reports.
use deep_seek_harness_x.Prelude.{
  String, ℕ, leb, Bool, true, false, not, ◌||◌, ◌≡◌, refl, sym, ap, ◌∙◌, inl, inr, Bool-cases,
  Option-cases, ok-injective, arith, List, [], ◌∷◌, length, Option, none, some, str_eq, eq_iff,
  if◌then◌else◌, lookup, insert, lookup-insert, Result, ok, err, ◌>>=◌,
}
use deep_seek_harness_x.Team.{
  TeamMemberRecord, TeamMessageRecord, TeamEvent, team_member, team_message_queued, TeamFoldState,
}
use deep_seek_harness_x.Team.Fold.{
  apply_team_member, apply_team_event, fold_from, team_event_version,
}
use deep_seek_harness_x.Team.Tasks.{Lib, Context}

pub data RosterError : Type 0 where
  invalid_name no_description no_provider name_used member_limit target_not_found : RosterError

-- The spawner: the child's id, or its error.
abbrev pub Spawner : Type 0
Spawner = Option (Result RosterError String)

abbrev pub is_used : Option String → Bool
is_used none = false
is_used (some id) = true

unfoldable pub new_member : String → String → String → String → String → TeamMemberRecord
new_member id name description context phase = record {
  id = id;
  name = name;
  description = description;
  provider = "spawn";
  context = context;
  phase = phase;
  error = "";
}

-- The two records that an accepted spawn emits, in their order.
unfoldable pub spawned : String → String → String → String → List TeamMemberRecord
unfolding new_member
spawned id name description context =
    new_member id name description context "provisioning"
    ∷ new_member id name description context "active"
    ∷ []

abbrev pub spawn_with :
    TeamFoldState
    → String
    → String
    → String
    → Result RosterError String
    → Result RosterError (List TeamMemberRecord)
spawn_with state name description context child =
    if is_used (lookup name state.member_names)
    then err name_used
    else if leb 16 (length state.members)
    then err member_limit
    else child >>= λ id. ok (spawned id name description context)

abbrev pub spawn_by :
    TeamFoldState → String → String → String → Spawner → Result RosterError (List TeamMemberRecord)
spawn_by state name description context none = err no_provider
spawn_by state name description context (some child) =
    spawn_with state name description context child

unfoldable pub spawn_teammate :
    Lib
    → (String → Bool)
    → TeamFoldState
    → String
    → String
    → String
    → Spawner
    → Result RosterError (List TeamMemberRecord)
spawn_teammate lib valid_name state name description context spawner =
    if not (valid_name name) || str_eq name "lead"
    then err invalid_name
    else if str_eq (lib.trim description) ""
    then err no_description
    else spawn_by state name description context spawner

abbrev pub active_id : Option TeamMemberRecord → Result RosterError String
active_id none = err target_not_found
active_id (some m) = if str_eq m.phase "active" then ok m.id else err target_not_found

unfoldable pub resolve_team_target :
    Lib → TeamFoldState → String → String → Result RosterError String
resolve_team_target lib state lead_id raw =
    if str_eq (lib.trim raw) "lead"
    then ok lead_id
    else active_id (lookup (lib.trim raw) state.members)

-- teamMessageSend up to its event; `message_id` is made from the clock.
unfoldable pub send_message :
    Lib
    → Context
    → TeamFoldState
    → String
    → String
    → String
    → String
    → String
    → Result RosterError TeamEvent
unfolding resolve_team_target
send_message lib ctx state caller_name message_id target text delivery =
    resolve_team_target lib state ctx.session_id target >>= λ target_id.
    let message : TeamMessageRecord = record {
      id = message_id;
      sender_id = ctx.caller_id;
      sender_name = caller_name;
      target_id = target_id;
      delivery = delivery;
      text = text;
    } in
    ok (team_message_queued team_event_version ctx.session_id message)

-- The events of a spawn, in the order of its records.
unfoldable pub member_events : String → List TeamMemberRecord → List TeamEvent
member_events team_id [] = []
member_events team_id (m ∷ rest) =
    team_member team_event_version team_id m ∷ member_events team_id rest

-- The roster after both.
joined : TeamFoldState → String → String → String → String → TeamFoldState
joined state id name description context = record state {
  member_names = insert name id state.member_names;
  members =
      insert id (new_member id name description context "active")
        (insert id (new_member id name description context "provisioning") state.members);
}

-- For a name that no member has used and a child whose id is new, the fold accepts both events.
fold_from-spawned :
    (task_number : String → Option ℕ) (state : TeamFoldState) (id name description context : String)
    → lookup name state.member_names ≡ none
    → lookup id state.members ≡ none
    → fold_from task_number state (member_events state.id (spawned id name description context))
      ≡ ok (joined state id name description context)
unfolding fold_from apply_team_event apply_team_member member_events spawned new_member joined
fold_from-spawned task_number state id name description context unused new =
    let ours : str_eq state.id state.id ≡ true = (eq_iff state.id state.id).1 refl in
    let same : str_eq id id ≡ true = (eq_iff id id).1 refl in
    let named : str_eq name name ≡ true = (eq_iff name name).1 refl in
    let same_context : str_eq context context ≡ true = (eq_iff context context).1 refl in
    rw
      (
        ours,
        unused,
        new,
        lookup-insert name name id state.member_names,
        lookup-insert id id (new_member id name description context "provisioning") state.members,
        named,
        same,
        same_context,
        named,
        ours,
      )
      refl

-- What an accepted spawn tells of its name and its records.
spawn_teammate-ok :
    (lib : Lib) (valid_name : String → Bool) (state : TeamFoldState)
    (name description context id : String) (records : List TeamMemberRecord)
    → spawn_teammate lib valid_name state name description context (some (ok id)) ≡ ok records
    → (str_eq name "lead" ≡ false)
      × (lookup name state.member_names ≡ none)
      × (spawned id name description context ≡ records)
unfolding spawn_teammate
spawn_teammate-ok lib valid_name state name description context id records h =
    elim (Bool-cases (not (valid_name name) || str_eq name "lead")) [
      | inl bad ↦ let fails = rw bad at h in cc
      | inr good ↦ elim (Bool-cases (str_eq (lib.trim description) "")) [
        | inl empty ↦ let fails = rw (good, empty) at h in cc
        | inr described ↦ elim (Option-cases (lookup name state.member_names)) [
          | inr (other, used) ↦ let fails = rw (good, described, used) at h in cc
          | inl unused ↦ elim (Bool-cases (leb 16 (length state.members))) [
            | inl full ↦ let fails = rw (good, described, unused, full) at h in cc
            | inr room ↦ (
              ground (arith, good),
              unused,
              ok-injective (rw (good, described, unused, room) at h),
            )
          ]
        ]
      ]
    ]

-- Where a spawn is accepted, for a child with a new id other than its name and than "lead", and a name that is no
-- member's id, both without white space around them: the fold accepts the events of the spawn and knows the name as the child's, and still the name resolves
-- to no target, while the id does.
pub spawn_teammate-unaddressed :
    (lib : Lib) (valid_name : String → Bool) (state : TeamFoldState)
    (lead_id name description context id : String) (records : List TeamMemberRecord)
    → spawn_teammate lib valid_name state name description context (some (ok id)) ≡ ok records
    → lib.trim name ≡ name
    → lib.trim id ≡ id
    → str_eq id "lead" ≡ false
    → str_eq id name ≡ false
    → lookup id state.members ≡ none
    → lookup name state.members ≡ none
    → (after : TeamFoldState) × (fold_from lib.task_number state (member_events state.id records)
        ≡ ok after)
      × (lookup name after.member_names ≡ some id)
      × (resolve_team_target lib after lead_id name ≡ err target_not_found)
      × (resolve_team_target lib after lead_id id ≡ ok id)
unfolding resolve_team_target joined new_member
spawn_teammate-unaddressed lib valid_name state lead_id name description context id records h
      trimmed trimmed_id other_id apart new absent =
    let (other, unused, made) =
      spawn_teammate-ok lib valid_name state name description context id records h in
    let same : str_eq id id ≡ true = (eq_iff id id).1 refl in
    let named : str_eq name name ≡ true = (eq_iff name name).1 refl in
    let prior = new_member id name description context "provisioning" in
    let active = new_member id name description context "active" in
    (
      joined state id name description context,
      ap (λ r. fold_from lib.task_number state (member_events state.id r)) (sym made)
          ∙ fold_from-spawned lib.task_number state id name description context unused new,
      rw (lookup-insert name name id state.member_names, named) refl,
      rw
          (
            trimmed,
            other,
            lookup-insert id name active (insert id prior state.members),
            apart,
            lookup-insert id name prior state.members,
            apart,
            absent,
          )
          refl,
      rw (trimmed_id, other_id, lookup-insert id id active (insert id prior state.members), same)
          refl,
    )
