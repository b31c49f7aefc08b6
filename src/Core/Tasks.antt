-- ===== src/Core/Tasks.antt =====
-- backend/core/tasks.go: the event catalog and the event bus. A handler is a value of any type `H`,
-- `none` for a nil function; what a publication does is the list of the handlers that it calls, in order.
pub mod Delivery
use deep_seek_harness_x.Prelude.{
  ℕ, zero, suc, ◌+◌, String, Bool, true, false, not, ◌&&◌, ◌||◌, Option, none, some, List, [], ◌∷◌,
  ◌++◌, if◌then◌else◌, str_eq, ◌==◌, Map, lookup, insert,
}

pub record EventDescriptor : Type 0 where
  pub topic : String
  pub description : String
  pub payload_schema : String
  pub session_scoped : Bool
  pub requires_approval : Bool

pub record EventRegistry : Type 0 where
  pub topics : Map EventDescriptor

abbrev pub new_event_registry : EventRegistry
new_event_registry = record { topics = [] }

unfoldable pub register_topic : EventRegistry → EventDescriptor → EventRegistry
unfolding insert
register_topic er d =
    if str_eq d.topic "" then er else record er { topics = insert d.topic d er.topics }

unfoldable pub list_topics : Map EventDescriptor → List EventDescriptor
list_topics [] = []
list_topics ((k, d) ∷ m) = d ∷ list_topics m

unfoldable pub describe_topic : EventRegistry → String → Option EventDescriptor
unfolding lookup
describe_topic er topic = lookup topic er.topics

pub record Sub (H : Type 0) : Type 0 where
  pub id : ℕ
  pub owner_id : String
  pub handler : Option H

pub record EventBus (H : Type 0) : Type 0 where
  pub handlers : Map (List (Sub H))
  pub next_sub_id : ℕ
  pub registry : Option EventRegistry

approved : Option EventDescriptor → Bool
approved none = false
approved (some d) = d.requires_approval

-- `eb.registry != nil`, and the topic is one that requires approval.
unfoldable pub is_blocked : Option EventRegistry → String → Bool
unfolding approved describe_topic
is_blocked none topic = false
is_blocked (some er) topic = approved (describe_topic er topic)

abbrev is_nil : {H : Type 0} → Option H → Bool
is_nil none = true
is_nil (some h) = false

subs_or_none : {H : Type 0} → Option (List (Sub H)) → List (Sub H)
subs_or_none none = []
subs_or_none (some subs) = subs

module _ {H : Type 0} where
  abbrev pub new_event_bus : EventBus H
  new_event_bus = record { handlers = []; next_sub_id = 0; registry = none }

  unfoldable pub subs_of : EventBus H → String → List (Sub H)
  unfolding lookup subs_or_none
  subs_of eb topic = subs_or_none (lookup topic eb.handlers)

  -- The bus, and the id that the returned function removes; `none` where that function does nothing.
  unfoldable pub subscribe : EventBus H → String → String → Option H → EventBus H × Option ℕ
  unfolding insert is_blocked subs_of
  subscribe eb topic owner_id handler =
      if is_blocked eb.registry topic
      then (eb, none)
      else if str_eq topic "" || (str_eq owner_id "" || is_nil handler)
      then (eb, none)
      else (
        record eb {
          next_sub_id = suc eb.next_sub_id;
          handlers =
              insert topic
                (subs_of eb topic
                  ++ record { id = suc eb.next_sub_id; owner_id = owner_id; handler = handler }
                    ∷ [])
                eb.handlers;
        },
        some (suc eb.next_sub_id),
      )

  -- The handlers called, from the n-th subscription on; `done n` is whether the context is cancelled
  -- before that one.
  unfoldable pub deliver : (ℕ → Bool) → ℕ → List (Sub H) → List H
  deliver done n [] = []
  deliver done n (s ∷ ss) =
      let rest = deliver done (suc n) ss in
      if done n then [] else elim s.handler [ none ↦ rest | some h ↦ h ∷ rest ]

  unfoldable pub publish : EventBus H → (ℕ → Bool) → String → List H
  unfolding is_blocked deliver subs_of
  publish eb done topic =
      if is_blocked eb.registry topic then [] else deliver done 0 (subs_of eb topic)

  unfoldable pub not_owned : String → List (Sub H) → List (Sub H)
  not_owned owner_id [] = []
  not_owned owner_id (s ∷ ss) =
      let rest = not_owned owner_id ss in if str_eq s.owner_id owner_id then rest else s ∷ rest

  without_owner : String → Map (List (Sub H)) → Map (List (Sub H))
  unfolding not_owned
  without_owner owner_id [] = []
  without_owner owner_id ((topic, subs) ∷ m) =
      (topic, not_owned owner_id subs) ∷ without_owner owner_id m

  unfoldable pub unsubscribe : EventBus H → String → EventBus H
  unfolding without_owner
  unsubscribe eb owner_id = record eb { handlers = without_owner owner_id eb.handlers }

  -- The first subscription with the id is taken out.
  unfoldable pub without_id : ℕ → List (Sub H) → List (Sub H)
  without_id id [] = []
  without_id id (s ∷ ss) = let rest = without_id id ss in if s.id == id then ss else s ∷ rest

  has_id : ℕ → List (Sub H) → Bool
  has_id id [] = false
  has_id id (s ∷ ss) = s.id == id || has_id id ss

  unfoldable pub remove_sub : EventBus H → String → ℕ → EventBus H
  unfolding insert subs_of without_id has_id
  remove_sub eb topic id =
      let subs = subs_of eb topic in
      if has_id id subs
      then record eb { handlers = insert topic (without_id id subs) eb.handlers }
      else eb

  -- The function that Subscribe returns, for its topic.
  abbrev pub unsubscriber : String → Option ℕ → EventBus H → EventBus H
  unsubscriber topic none eb = eb
  unsubscriber topic (some id) eb = remove_sub eb topic id
