-- ===== src/Policy/Modes.antt =====
-- backend/pkg/tools/policy.go: SetMode, read back.
use text.Mathlib.TextPositions.{eq_refl}
use deep_seek_harness_x.Prelude.{
  String, Bool, true, false, none, some, if◌then◌else◌, str_eq, eq_iff, lookup, lookup-insert,
  arith, Option-cases, subst, inl, inr, ◌≡◌, ◌≢◌, refl, sym, ap, ◌∙◌,
}
use deep_seek_harness_x.Policy.{
  SessionPolicy, PolicyStore, mode, knobs_of, set_knobs, set_mode, set_sandbox_mode,
  set_approval_policy, set_preset, switched, sandbox_mode, approval_policy, permission_preset,
  put_entry, entry_of, get_policy, then_set, is_sandbox_mode, is_approval_policy, Switched,
  value_or,
}

-- The modes that have knobs.
knobs_of-cases :
    (m : String) (k : String × String) (P : String → String × String → Type 0)
    → P "default" ("workspace-write", "ask")
    → P "accept-edits" ("workspace-write", "accept-edits")
    → P "plan" ("read-only", "never")
    → P "auto" ("workspace-write", "review")
    → P "allow-all" ("danger-full-access", "allow-all")
    → knobs_of m ≡ some k
    → P m k
unfolding knobs_of
knobs_of-cases m k P p1 p2 p3 p4 p5 h = grind (arith, eq_iff)

module _ (s : PolicyStore) (id : String) where
  lookup-put_entry :
      (j : String) (p : SessionPolicy)
      → lookup j (put_entry s id p).by_id ≡ (if str_eq id j then some p else lookup j s.by_id)
  unfolding put_entry
  lookup-put_entry j p = lookup-insert id j p s.by_id

  entry_of-put_entry : (p : SessionPolicy) → entry_of (put_entry s id p) id ≡ p
  unfolding entry_of value_or
  entry_of-put_entry p = rw (lookup-put_entry id p, eq_refl id)

  abbrev chosen : String → String → String → SessionPolicy
  chosen m sandbox approval = record (entry_of s id) {
    sandbox = sandbox;
    approval = approval;
    preset = m;
  }

  module _ (emit : Bool) where
    set_sandbox_mode-ok :
        (m : String)
        → is_sandbox_mode m ≡ true
        → set_sandbox_mode s id m "" emit
          ≡ switched
              (put_entry s id (record (entry_of s id) { sandbox = m }))
              emit
              (sandbox_mode m "")
    unfolding set_sandbox_mode
    set_sandbox_mode-ok m h = rw h

    set_approval_policy-ok :
        (m : String)
        → is_approval_policy m ≡ true
        → set_approval_policy s id m "" emit
          ≡ switched
              (put_entry s id (record (entry_of s id) { approval = m }))
              emit
              (approval_policy m "")
    unfolding set_approval_policy
    set_approval_policy-ok m h = rw h

    set_preset-ok :
        (m : String)
        → str_eq m "" ≡ false
        → set_preset s id m emit
          ≡ switched
              (put_entry s id (record (entry_of s id) { preset = m }))
              emit
              (permission_preset m "")
    unfolding set_preset
    set_preset-ok m h = rw h

module _ (s : PolicyStore) (id : String) (emit : Bool) where
  abbrev after_sandbox : String → PolicyStore
  after_sandbox sandbox = put_entry s id (record (entry_of s id) { sandbox = sandbox })

  abbrev after_approval : String → String → PolicyStore
  after_approval sandbox approval =
      put_entry (after_sandbox sandbox) id
        (record (entry_of (after_sandbox sandbox) id) { approval = approval })

  abbrev after_preset : String → String → String → PolicyStore
  after_preset m sandbox approval =
      put_entry (after_approval sandbox approval) id
        (record (entry_of (after_approval sandbox approval) id) { preset = m })

  set_knobs-store :
      (m sandbox approval : String)
      → is_sandbox_mode sandbox ≡ true
      → is_approval_policy approval ≡ true
      → str_eq m "" ≡ false
      → ((set_knobs s id m emit (some (sandbox, approval))).store ≡ after_preset m sandbox approval)
        × ((set_knobs s id m emit (some (sandbox, approval))).error ≡ none)
  unfolding set_knobs then_set
  set_knobs-store m sandbox approval h1 h2 h3 =
      rw
        (
          set_sandbox_mode-ok s id emit sandbox h1,
          set_approval_policy-ok (after_sandbox sandbox) id emit approval h2,
          set_preset-ok (after_approval sandbox approval) id emit m h3,
        )
        (refl, refl)

  entry_of-after :
      (m sandbox approval : String)
      → entry_of (after_preset m sandbox approval) id ≡ chosen s id m sandbox approval
  entry_of-after m sandbox approval = simp (entry_of-put_entry)

get_policy-put_entry :
    (s : PolicyStore) (id : String) (p : SessionPolicy) → get_policy (put_entry s id p) id ≡ p
unfolding get_policy value_or
get_policy-put_entry s id p = rw (lookup-put_entry s id id p, eq_refl id)

get_policy-put_entry_other :
    (s : PolicyStore) (id j : String) (p : SessionPolicy)
    → str_eq id j ≡ false
    → get_policy (put_entry s id p) j ≡ get_policy s j
unfolding get_policy value_or
get_policy-put_entry_other s id j p h = rw (lookup-put_entry s id j p, h)

abbrev KnobsAreValid : String → String × String → Type 0
KnobsAreValid m (sandbox, approval) =
    (is_sandbox_mode sandbox ≡ true)
    × ((is_approval_policy approval ≡ true)
        × ((str_eq m "" ≡ false)
            × ((p : SessionPolicy) → p.sandbox ≡ sandbox → p.approval ≡ approval → mode p ≡ m)))

knobs_of-KnobsAreValid :
    (m : String) (k : String × String) → knobs_of m ≡ some k → KnobsAreValid m k
unfolding is_sandbox_mode is_approval_policy mode
knobs_of-KnobsAreValid m k h =
    knobs_of-cases m k KnobsAreValid (refl, (refl, (refl, λ p e f. simp (e, f))))
      (refl, (refl, (refl, λ p e f. simp (e, f)))) (refl, (refl, (refl, λ p e f. simp (e, f))))
      (refl, (refl, (refl, λ p e f. simp (e, f)))) (refl, (refl, (refl, λ p e f. simp (e, f)))) h

module _ (s : PolicyStore) (id m : String) (emit : Bool) where
  -- The knobs of a mode, split on whether it has any.
  module _ (P : Switched → Type 0) where
    set_mode-cases :
        (knobs_of m ≡ none → P (set_knobs s id m emit none))
        → ((sandbox approval : String)
            → knobs_of m ≡ some (sandbox, approval)
            → P (set_knobs s id m emit (some (sandbox, approval))))
        → P (set_mode s id m emit)
    unfolding set_mode
    set_mode-cases without with_knobs = elim (Option-cases (knobs_of m)) [
      | inl is_none ↦ subst (λ k. P (set_knobs s id m emit k)) (sym is_none) (without is_none)
      | inr ((sandbox, approval), is_some) ↦
          subst (λ k. P (set_knobs s id m emit k)) (sym is_some)
            (with_knobs sandbox approval is_some)
    ]

  -- A permission mode that SetMode accepts is read back by Mode, whatever the session's policy was.
  pub set_mode-mode :
      (set_mode s id m emit).error ≡ none → mode (get_policy (set_mode s id m emit).store id) ≡ m
  unfolding set_knobs
  set_mode-mode is_ok =
      set_mode-cases (λ w. w.error ≡ none → mode (get_policy w.store id) ≡ m)
        (λ _ h. absurd (ground (arith, h)))
        (λ sandbox approval is_some _.
          let (h1, (h2, (h3, reads))) = knobs_of-KnobsAreValid m (sandbox, approval) is_some in
          let (store, _) = set_knobs-store s id emit m sandbox approval h1 h2 h3 in
          let before = after_approval s id emit sandbox approval in
          let read =
            ap (λ t. get_policy t id) store
            ∙ (get_policy-put_entry before id _
                ∙ (sym (entry_of-put_entry before id _)
                    ∙ entry_of-after s id emit m sandbox approval)) in
          reads _ (ap (λ p. p.sandbox) read) (ap (λ p. p.approval) read))
        is_ok

  -- SetMode leaves the policy of every other session, accepted or not.
  pub set_mode-get_policy_other :
      (j : String) → id ≢ j → get_policy (set_mode s id m emit).store j ≡ get_policy s j
  unfolding set_knobs
  set_mode-get_policy_other j differs =
      let other : str_eq id j ≡ false = ground (arith, eq_iff id j) in
      set_mode-cases (λ w. get_policy w.store j ≡ get_policy s j) (λ _. refl)
        (λ sandbox approval is_some.
          let (h1, (h2, (h3, _))) = knobs_of-KnobsAreValid m (sandbox, approval) is_some in
          let (store, _) = set_knobs-store s id emit m sandbox approval h1 h2 h3 in
          rw (
            store,
            get_policy-put_entry_other _ id j _ other,
            get_policy-put_entry_other _ id j _ other,
            get_policy-put_entry_other s id j _ other,
          ))
