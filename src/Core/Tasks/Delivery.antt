-- ===== src/Core/Tasks/Delivery.antt =====
-- backend/core/tasks.go: what a publication delivers after the other operations of the bus.
use text.Mathlib.TextPositions.{eq_refl}
use deep_seek_harness_x.Prelude.{
  ℕ, suc, ◌<◌, String, Bool, true, false, ◌||◌, Option, none, some, List, [], ◌∷◌, ◌++◌,
  if◌then◌else◌, str_eq, eq_iff, Map, lookup, insert, lookup-insert, arith, ◌≡◌, refl, ap, ◌∙◌, All,
  All-map, All-append, Bool-cases, inl, inr,
}
use deep_seek_harness_x.Core.Tasks.{
  Sub, EventBus, is_blocked, subs_or_none, subs_of, subscribe, deliver, publish, not_owned,
  without_owner, unsubscribe, without_id, has_id, remove_sub, unsubscriber,
}

module _ {H : Type 0} where
  lookup-without_owner :
      (owner_id topic : String) (m : Map (List (Sub H)))
      → subs_or_none (lookup topic (without_owner owner_id m))
        ≡ not_owned owner_id (subs_or_none (lookup topic m))
  unfolding without_owner lookup subs_or_none not_owned
  lookup-without_owner owner_id topic [] = refl
  lookup-without_owner owner_id topic ((t, subs) ∷ m) =
      ground (arith, lookup-without_owner owner_id topic m)

  -- After Unsubscribe, a publication on any topic calls the handlers of the other owners and no
  -- others, in the order of their subscriptions.
  pub publish-unsubscribe :
      (eb : EventBus H) (owner_id topic : String) (done : ℕ → Bool)
      → publish (unsubscribe eb owner_id) done topic ≡ (
          if is_blocked eb.registry topic
          then []
          else deliver done 0 (not_owned owner_id (subs_of eb topic)))
  unfolding publish unsubscribe subs_of
  publish-unsubscribe eb owner_id topic done =
      ap (λ subs. if is_blocked eb.registry topic then [] else deliver done 0 subs)
        (lookup-without_owner owner_id topic eb.handlers)

  deliver-append :
      (n : ℕ) (xs : List (Sub H)) (s : Sub H) (h : H)
      → s.handler ≡ some h
      → deliver (λ _. false) n (xs ++ s ∷ []) ≡ deliver (λ _. false) n xs ++ h ∷ []
  unfolding deliver
  deliver-append n [] s h is_some = rw is_some
  deliver-append n (x ∷ xs) s h is_some = ground (arith, deliver-append (suc n) xs s h is_some)

  without_id-append :
      (id : ℕ) (xs : List (Sub H)) (s : Sub H)
      → s.id ≡ id
      → All (λ x. x.id < id) xs
      → without_id id (xs ++ s ∷ []) ≡ xs
  unfolding without_id
  without_id-append id [] s same earlier = ground (arith, same)
  without_id-append id (x ∷ xs) s same (lt, earlier) =
      ground (arith, lt, without_id-append id xs s same earlier)

  has_id-append :
      (id : ℕ) (xs : List (Sub H)) (s : Sub H) → s.id ≡ id → has_id id (xs ++ s ∷ []) ≡ true
  unfolding has_id
  has_id-append id [] s same = ground (arith, same)
  has_id-append id (x ∷ xs) s same = ground (arith, has_id-append id xs s same)

  subs_of-remove_sub :
      (eb : EventBus H) (topic t : String) (id : ℕ)
      → has_id id (subs_of eb topic) ≡ true
      → subs_of (remove_sub eb topic id) t
        ≡ (if str_eq topic t then without_id id (subs_of eb topic) else subs_of eb t)
  unfolding remove_sub subs_of subs_or_none
  subs_of-remove_sub eb topic t id found =
      ground (arith, found, lookup-insert topic t (without_id id (subs_of eb topic)) eb.handlers)

  -- Every subscription of the bus has an id that Subscribe has given out.
  abbrev pub IsNumbered : EventBus H → Type 0
  IsNumbered eb = (t : String) → All (λ x. x.id < suc eb.next_sub_id) (subs_of eb t)

  module _ (eb : EventBus H) (topic owner_id : String) (h : H) where
    abbrev added : Sub H
    added = record { id = suc eb.next_sub_id; owner_id = owner_id; handler = some h }

    abbrev with_added : EventBus H
    with_added = record eb {
      next_sub_id = suc eb.next_sub_id;
      handlers = insert topic (subs_of eb topic ++ added ∷ []) eb.handlers;
    }

    subscribe-ok :
        is_blocked eb.registry topic ≡ false
        → str_eq topic "" ≡ false
        → str_eq owner_id "" ≡ false
        → subscribe eb topic owner_id (some h) ≡ (with_added, some (suc eb.next_sub_id))
    unfolding subscribe
    subscribe-ok open_topic named owned = rw (open_topic, named, owned)

    subs_of-with_added :
        (t : String)
        → subs_of with_added t
          ≡ (if str_eq topic t then subs_of eb topic ++ added ∷ [] else subs_of eb t)
    unfolding subs_of subs_or_none
    subs_of-with_added t =
        ground (arith, lookup-insert topic t (subs_of eb topic ++ added ∷ []) eb.handlers)

    -- A subscription that is accepted adds its handler as the last one that a publication on its topic
    -- calls, where the context is not cancelled.
    pub publish-subscribe :
        is_blocked eb.registry topic ≡ false
        → str_eq topic "" ≡ false
        → str_eq owner_id "" ≡ false
        → publish (subscribe eb topic owner_id (some h)).0 (λ _. false) topic
          ≡ publish eb (λ _. false) topic ++ h ∷ []
    unfolding publish
    publish-subscribe open_topic named owned = rw (
      subscribe-ok open_topic named owned,
      open_topic,
      subs_of-with_added topic,
      eq_refl topic,
      deliver-append 0 (subs_of eb topic) added h refl,
    )

    -- What a write of the other topics' and of the topic's own subscriptions reads as.
    unchanged :
        (t : String)
        → (if str_eq topic t then subs_of eb topic else subs_of with_added t) ≡ subs_of eb t
    unchanged t = elim (Bool-cases (str_eq topic t)) [
      | inl e ↦ rw e (ap (subs_of eb) ((eq_iff topic t).0 e))
      | inr e ↦ rw e (subs_of-with_added t ∙ other e)
    ]
      where
        other :
            str_eq topic t ≡ false
            → (if str_eq topic t then subs_of eb topic ++ added ∷ [] else subs_of eb t)
              ≡ subs_of eb t
        other e = rw e

    -- On a bus whose subscriptions are numbered, the function that Subscribe returns for an accepted subscription
    -- undoes it: every topic has the subscriptions that it had.
    pub remove_sub-subscribe :
        (t : String)
        → is_blocked eb.registry topic ≡ false
        → str_eq topic "" ≡ false
        → str_eq owner_id "" ≡ false
        → IsNumbered eb
        → (let (after, returned) = subscribe eb topic owner_id (some h) in
            subs_of (unsubscriber topic returned after) t)
          ≡ subs_of eb t
    remove_sub-subscribe t open_topic named owned earlier =
        let id = suc eb.next_sub_id in
        let subs : subs_of with_added topic ≡ subs_of eb topic ++ added ∷ [] =
          rw (subs_of-with_added topic, eq_refl topic) in
        let found : has_id id (subs_of with_added topic) ≡ true =
          ap (has_id id) subs ∙ has_id-append id (subs_of eb topic) added refl in
        let left : without_id id (subs_of with_added topic) ≡ subs_of eb topic =
          ap (without_id id) subs
          ∙ without_id-append id (subs_of eb topic) added refl (earlier topic) in
        rw
          (
            subscribe-ok open_topic named owned,
            subs_of-remove_sub with_added topic t id found,
            left,
          )
          (unchanged t)

  subs-IsNumbered :
      (eb : EventBus H) (topic owner_id : String) (h : H)
      → IsNumbered eb
      → IsNumbered (with_added eb topic owner_id h)
  subs-IsNumbered eb topic owner_id h numbered t =
      rw (subs_of-with_added eb topic owner_id h t) (ours t)
    where
      later :
          (xs : List (Sub H))
          → All (λ x. x.id < suc eb.next_sub_id) xs
          → All (λ x. x.id < suc (suc eb.next_sub_id)) xs
      later xs given = All-map _ _ (λ x lt. omega arith) xs given

      ours :
          (t : String)
          → All
              (λ x. x.id < suc (suc eb.next_sub_id))
              (if str_eq topic t
                then subs_of eb topic ++ added eb topic owner_id h ∷ []
                else subs_of eb t)
      ours t = elim (Bool-cases (str_eq topic t)) [
        | inl e ↦
            rw e (All-append _ (subs_of eb topic) _ (later _ (numbered topic)) (omega arith, tt))
        | inr e ↦ rw e (later _ (numbered t))
      ]

  -- Subscribe keeps every subscription numbered, accepted or not: the next id is always a fresh one.
  pub subscribe-IsNumbered :
      (eb : EventBus H) (topic owner_id : String) (handler : Option H)
      → IsNumbered eb
      → IsNumbered (subscribe eb topic owner_id handler).0
  unfolding subscribe
  subscribe-IsNumbered eb topic owner_id none numbered =
      elim (Bool-cases (is_blocked eb.registry topic)) [
        | inl e ↦ rw e numbered
        | inr e ↦ rw e (elim (Bool-cases (str_eq topic "" || (str_eq owner_id "" || true))) [
          | inl e' ↦ rw e' numbered
          | inr e' ↦ absurd (ground (arith, e'))
        ])
      ]
  subscribe-IsNumbered eb topic owner_id (some h) numbered =
      elim (Bool-cases (is_blocked eb.registry topic)) [
        | inl e ↦ rw e numbered
        | inr e ↦ rw e (elim (Bool-cases (str_eq topic "" || (str_eq owner_id "" || false))) [
          | inl e' ↦ rw e' numbered
          | inr e' ↦ rw e' (subs-IsNumbered eb topic owner_id h numbered)
        ])
      ]
