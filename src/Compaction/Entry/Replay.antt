-- ===== src/Compaction/Entry/Replay.antt =====
-- The backward scan of compactor.go against a forward replay of the log.
use deep_seek_harness_x.Prelude.{
  ◌≡◌, ◌≢◌, refl, ap, ◌∙◌, true, false, Option, none, some, List, [], ◌∷◌, ◌++◌, reverse,
  reverse-append, str_eq, if◌then◌else◌, ok, err, arith, Bool-cases, inl, inr, ◌↔◌,
}
use deep_seek_harness_x.Prelude.Int.{ℤ, pos}
use deep_seek_harness_x.Session.Events.{SessionEnvelope}
use deep_seek_harness_x.Session.Messages.{Decoder}
use deep_seek_harness_x.Compaction.Entry.{
  CompactionStart, EntryState, CompactionEntry, initial_state, note_seed, note_compaction,
  note_turn, all_known, inspect_back, inspect_compaction_entry_state, value_or, is_known,
  unless_seeded, seeded_after, assert_compaction_inactive, active_compaction, busy,
  event_compaction_start, event_compaction_end, event_turn_start, event_turn_end,
  event_session_end_seed,
}

abbrev pub or_else {ℓ} : {A : Type ℓ} → Option A → A → A
or_else (some v) old = v
or_else none old = old

-- What an event writes to a value that the log carries: `none` leaves it as it was.
module _ {A : Type 0} (mark : SessionEnvelope → Option A) where
  abbrev pub written : SessionEnvelope → A → A
  written e old = or_else (mark e) old

  -- The value after the log, event by event: the last write stays.
  abbrev pub replay : A → List SessionEnvelope → A
  replay old [] = old
  replay old (e ∷ es) = replay (written e old) es

  -- The first write of a list, or `old`.
  abbrev scan : List SessionEnvelope → A → A
  scan [] old = old
  scan (e ∷ es) old = or_else (mark e) (scan es old)

  scan-append :
      (xs ys : List SessionEnvelope) (old : A) → scan (xs ++ ys) old ≡ scan xs (scan ys old)
  scan-append [] ys old = refl
  scan-append (x ∷ xs) ys old = rw (scan-append xs ys old) refl

  -- Scanning back finds what the replay ends in.
  scan-reverse : (es : List SessionEnvelope) (old : A) → scan (reverse es) old ≡ replay old es
  scan-reverse [] old = refl
  scan-reverse (e ∷ es) old =
      ap (λ l. scan l old) (reverse-append (e ∷ []) es)
      ∙ scan-append (reverse es) (e ∷ []) old
      ∙ scan-reverse es (written e old)

abbrev pub lock_mark : Decoder → SessionEnvelope → Option (Option CompactionStart)
lock_mark d e =
    if str_eq e.event_type event_compaction_start
    then some
        (some (record { seq = e.seq; compaction_id = value_or "" (d.compaction_start e.raw_data) }))
    else if str_eq e.event_type event_compaction_end
    then some none
    else none

abbrev pub turn_mark : Decoder → SessionEnvelope → Option (Option ℤ)
turn_mark d e =
    if str_eq e.event_type event_turn_start
    then some (some (value_or (pos 0) (d.turn_start e.raw_data)))
    else if str_eq e.event_type event_turn_end
    then some none
    else none

abbrev pub seed_mark : SessionEnvelope → Option (Option ℤ)
seed_mark e = if str_eq e.event_type event_session_end_seed then some (some e.seq) else none

lock_iff :
    (seed : Option ℤ) (start : Option CompactionStart)
    → (unless_seeded seed start (ok tt) (λ _. err busy) ≡ err busy) ↔ (
        unless_seeded {A = Option CompactionEntry} seed start none
          (λ start. some (record { compaction_id = start.compaction_id; start_seq = start.seq }))
        ≢ none)
lock_iff seed none = ((λ h. cc), λ h. absurd (h refl))
lock_iff seed (some start) = elim (Bool-cases (seeded_after seed start.seq)) [
  | inl past ↦ rw past ((λ h. cc), λ h. absurd (h refl))
  | inr held ↦ rw held ((λ _ k. cc), λ _. refl)
]

module _ (d : Decoder) where
  -- What is left to find for each of the three values, from a state of the scan.
  abbrev lock_read : EntryState → List SessionEnvelope → Option CompactionStart
  lock_read s es =
      if s.compaction_entry_state_known
      then s.unmatched_compaction_start
      else scan (lock_mark d) es none

  abbrev turn_read : EntryState → List SessionEnvelope → Option ℤ
  turn_read s es = if s.open_turn_state_known then s.open_turn else scan (turn_mark d) es none

  abbrev seed_read : EntryState → List SessionEnvelope → Option ℤ
  seed_read s es =
      if is_known s.latest_end_seed_seq then s.latest_end_seed_seq else scan seed_mark es none

  abbrev step : SessionEnvelope → EntryState → EntryState
  step e s = note_turn d e (note_compaction d e (note_seed e s))

  -- A value that is not known yet has not been written.
  abbrev Fresh : EntryState → Type 0
  Fresh s =
      (s.compaction_entry_state_known ≡ false → s.unmatched_compaction_start ≡ none)
      × (s.open_turn_state_known ≡ false → s.open_turn ≡ none)

  module _ (e : SessionEnvelope) (es : List SessionEnvelope) (s : EntryState) (f : Fresh s) where
    note_seed-reads :
        Fresh (note_seed e s)
        × (lock_read (note_seed e s) es ≡ lock_read s es)
        × (turn_read (note_seed e s) es ≡ turn_read s es)
        × (seed_read (note_seed e s) es ≡ seed_read s (e ∷ es))
    unfolding note_seed
    note_seed-reads = ((ground arith, ground arith), ground arith, ground arith, ground arith)

    note_compaction-reads :
        Fresh (note_compaction d e s)
        × (lock_read (note_compaction d e s) es ≡ lock_read s (e ∷ es))
        × (turn_read (note_compaction d e s) es ≡ turn_read s es)
        × (seed_read (note_compaction d e s) es ≡ seed_read s es)
    unfolding note_compaction
    note_compaction-reads = ((ground arith, ground arith), ground arith, ground arith, ground arith)

    note_turn-reads :
        Fresh (note_turn d e s)
        × (lock_read (note_turn d e s) es ≡ lock_read s es)
        × (turn_read (note_turn d e s) es ≡ turn_read s (e ∷ es))
        × (seed_read (note_turn d e s) es ≡ seed_read s es)
    unfolding note_turn
    note_turn-reads = ((ground arith, ground arith), ground arith, ground arith, ground arith)

  step-reads :
      (e : SessionEnvelope) (es : List SessionEnvelope) (s : EntryState)
      → Fresh s
      → Fresh (step e s)
        × (lock_read (step e s) es ≡ lock_read s (e ∷ es))
        × (turn_read (step e s) es ≡ turn_read s (e ∷ es))
        × (seed_read (step e s) es ≡ seed_read s (e ∷ es))
  step-reads e es s f =
      let (f1, _, _, _) = note_seed-reads e es s f in
      let (_, l1, t1, _) = note_seed-reads e (e ∷ es) s f in
      let (_, _, _, s1) = note_seed-reads e es s f in
      let (f2, l2, _, s2) = note_compaction-reads e es (note_seed e s) f1 in
      let (_, _, t2, _) = note_compaction-reads e (e ∷ es) (note_seed e s) f1 in
      let (f3, l3, t3, s3) = note_turn-reads e es (note_compaction d e (note_seed e s)) f2 in
      (f3, l3 ∙ l2 ∙ l1, t3 ∙ t2 ∙ t1, s3 ∙ s2 ∙ s1)

  known-reads :
      (s : EntryState) (es : List SessionEnvelope)
      → all_known s ≡ true
      → (s.unmatched_compaction_start ≡ lock_read s es)
        × (s.open_turn ≡ turn_read s es)
        × (s.latest_end_seed_seq ≡ seed_read s es)
  known-reads s es h = (ground (arith, h), ground (arith, h), ground (arith, h))

  inspect_back-reads :
      (es : List SessionEnvelope) (s : EntryState)
      → Fresh s
      → ((inspect_back d es s).unmatched_compaction_start ≡ lock_read s es)
        × ((inspect_back d es s).open_turn ≡ turn_read s es)
        × ((inspect_back d es s).latest_end_seed_seq ≡ seed_read s es)
  unfolding inspect_back
  inspect_back-reads [] s f = (ground arith, ground arith, ground arith)
  inspect_back-reads (e ∷ es) s f =
      let next = step-reads e es s f in
      elim (Bool-cases (all_known (step e s))) [
        | inl done ↦
            let here = known-reads (step e s) es done in
            rw done (here.0 ∙ next.1, here.1 ∙ next.2, here.2 ∙ next.3)
        | inr more ↦
            let rest = inspect_back-reads es (step e s) next.0 in
            rw more (rest.0 ∙ next.1, rest.1 ∙ next.2, rest.2 ∙ next.3)
      ]

  -- The backward scan, which stops early, finds what a replay of the whole log from its start ends
  -- in: the compaction start that no later compaction end answers, the turn start that no later turn
  -- end answers, and the seq of the last seed boundary.
  pub inspect-replay :
      (events : List SessionEnvelope)
      → ((inspect_compaction_entry_state d events).unmatched_compaction_start
          ≡ replay (lock_mark d) none events)
        × ((inspect_compaction_entry_state d events).open_turn ≡ replay (turn_mark d) none events)
        × ((inspect_compaction_entry_state d events).latest_end_seed_seq
            ≡ replay seed_mark none events)
  unfolding inspect_compaction_entry_state
  inspect-replay events =
      let (l, t, s) = inspect_back-reads (reverse events) initial_state (λ _. refl, λ _. refl) in
      (
        l ∙ scan-reverse (lock_mark d) events none,
        t ∙ scan-reverse (turn_mark d) events none,
        s ∙ scan-reverse seed_mark events none,
      )

  -- A compaction is refused as busy exactly when ActiveCompaction reports a lock.
  pub assert_compaction_inactive-active_compaction :
      (events : List SessionEnvelope)
      → (assert_compaction_inactive (inspect_compaction_entry_state d events) ≡ err busy)
        ↔ (active_compaction d events ≢ none)
  unfolding assert_compaction_inactive active_compaction
  assert_compaction_inactive-active_compaction events =
      let s = inspect_compaction_entry_state d events in
      lock_iff s.latest_end_seed_seq s.unmatched_compaction_start
