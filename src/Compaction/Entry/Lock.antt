-- ===== src/Compaction/Entry/Lock.antt =====
-- compactor.go: the lock that ActiveCompaction reports, against a forward reading of the log.
use deep_seek_harness_x.Prelude.{
  ◌≡◌, ◌||◌, refl, ap, sym, subst, String, eq_iff, ◌∙◌, true, false, Option, none, some, List, [],
  ◌∷◌, str_eq, if◌then◌else◌, arith, Bool-cases, inl, inr,
}
use deep_seek_harness_x.Prelude.Int.{ℤ, pos, ◌<ℤ◌, ◌≤ℤ◌, ◌+ℤ◌, +ℤ_parts}
use deep_seek_harness_x.Session.Events.{SessionEnvelope}
use deep_seek_harness_x.Session.Messages.{Decoder}
use deep_seek_harness_x.Compaction.Entry.{
  CompactionStart, CompactionEntry, value_or, unless_seeded, active_compaction,
  event_compaction_start, event_compaction_end, event_session_end_seed,
}
use deep_seek_harness_x.Compaction.Entry.Replay.{
  replay, written, lock_mark, seed_mark, inspect-replay,
}

-- The seqs of a log grow.
unfoldable pub IsGrowing : ℤ → List SessionEnvelope → Type 0
IsGrowing q [] = Unit
IsGrowing q (e ∷ es) = (q ≤ℤ e.seq) × IsGrowing (e.seq +ℤ pos 1) es

module _ (d : Decoder) where
  -- The lock by a machine that reads the log forwards: a compaction start takes it, a compaction end or a seed boundary
  -- gives it back.
  abbrev locks : SessionEnvelope → Option CompactionEntry → Option CompactionEntry
  locks e held =
      if str_eq e.event_type event_compaction_start
      then some (record {
        compaction_id = value_or "" (d.compaction_start e.raw_data);
        start_seq = e.seq;
      })
      else if str_eq e.event_type event_compaction_end || str_eq e.event_type event_session_end_seed
      then none
      else held

  unfoldable pub lock_after : Option CompactionEntry → List SessionEnvelope → Option CompactionEntry
  lock_after held [] = held
  lock_after held (e ∷ es) = lock_after (locks e held) es

  abbrev held_by : Option ℤ → Option CompactionStart → Option CompactionEntry
  held_by seed lock =
      unless_seeded seed lock none
        (λ start. some (record { compaction_id = start.compaction_id; start_seq = start.seq }))

  -- What the two values were written from lies below a seq.
  abbrev BelowStart : Option CompactionStart → ℤ → Type 0
  BelowStart none q = Unit
  BelowStart (some start) q = start.seq <ℤ q

  abbrev BelowSeed : Option ℤ → ℤ → Type 0
  BelowSeed none q = Unit
  BelowSeed (some seed) q = seed <ℤ q

  start-not-seed :
      (t : String)
      → str_eq t event_compaction_start ≡ true
      → str_eq t event_session_end_seed ≡ false
  start-not-seed t same =
      subst (λ u. str_eq u event_session_end_seed ≡ false)
        (sym ((eq_iff t event_compaction_start).0 same)) refl

  held_by-start :
      (seed : Option ℤ) (start : CompactionStart)
      → BelowSeed seed start.seq
      → held_by seed (some start)
        ≡ some (record { compaction_id = start.compaction_id; start_seq = start.seq })
  held_by-start none start below = refl
  held_by-start (some seed) start below = ground (arith, below)

  held_by-seed :
      (seed : ℤ) (lock : Option CompactionStart)
      → BelowStart lock seed
      → held_by (some seed) lock ≡ none
  held_by-seed seed none below = refl
  held_by-seed seed (some start) below = ground (arith, below)

  locks-held_by :
      (e : SessionEnvelope) (seed : Option ℤ) (lock : Option CompactionStart)
      → BelowSeed seed e.seq
      → BelowStart lock e.seq
      → held_by (written seed_mark e seed) (written (lock_mark d) e lock)
        ≡ locks e (held_by seed lock)
  locks-held_by e seed lock seeds starts =
      elim (Bool-cases (str_eq e.event_type event_compaction_start)) [
        | inl start ↦ rw (start, start-not-seed e.event_type start) (held_by-start seed _ seeds)
        | inr no_start ↦ elim (Bool-cases (str_eq e.event_type event_compaction_end)) [
          | inl ends ↦ rw (no_start, ends) refl
          | inr no_end ↦ elim (Bool-cases (str_eq e.event_type event_session_end_seed)) [
            | inl seeded ↦ rw (no_start, no_end, seeded) (held_by-seed e.seq lock starts)
            | inr other ↦ rw (no_start, no_end, other) refl
          ]
        ]
      ]

  BelowSeed-le : (seed : Option ℤ) (q r : ℤ) → BelowSeed seed q → q ≤ℤ r → BelowSeed seed r
  BelowSeed-le none q r h le = tt
  BelowSeed-le (some seed) q r h le = omega (arith, h, le)

  BelowStart-le :
      (lock : Option CompactionStart) (q r : ℤ) → BelowStart lock q → q ≤ℤ r → BelowStart lock r
  BelowStart-le none q r h le = tt
  BelowStart-le (some start) q r h le = omega (arith, h, le)

  after_it : (r q : ℤ) → q ≤ℤ r → q ≤ℤ r +ℤ pos 1
  after_it r q le = omega (arith, le, +ℤ_parts r (pos 1))

  itself_below : (r : ℤ) → r <ℤ r +ℤ pos 1
  itself_below r = omega (arith, +ℤ_parts r (pos 1))

  BelowSeed-next :
      (e : SessionEnvelope) (seed : Option ℤ) (q : ℤ)
      → BelowSeed seed q
      → q ≤ℤ e.seq
      → BelowSeed (written seed_mark e seed) (e.seq +ℤ pos 1)
  BelowSeed-next e seed q seeds le =
      elim (Bool-cases (str_eq e.event_type event_session_end_seed)) [
        | inl seeded ↦ rw seeded (itself_below e.seq)
        | inr other ↦ rw other (BelowSeed-le seed q (e.seq +ℤ pos 1) seeds (after_it e.seq q le))
      ]

  BelowStart-next :
      (e : SessionEnvelope) (lock : Option CompactionStart) (q : ℤ)
      → BelowStart lock q
      → q ≤ℤ e.seq
      → BelowStart (written (lock_mark d) e lock) (e.seq +ℤ pos 1)
  BelowStart-next e lock q starts le =
      elim (Bool-cases (str_eq e.event_type event_compaction_start)) [
        | inl start ↦ rw start (itself_below e.seq)
        | inr no_start ↦ elim (Bool-cases (str_eq e.event_type event_compaction_end)) [
          | inl ends ↦ rw (no_start, ends) tt
          | inr other ↦
              rw (no_start, other)
                (BelowStart-le lock q (e.seq +ℤ pos 1) starts (after_it e.seq q le))
        ]
      ]

  lock_after-replay :
      (es : List SessionEnvelope) (q : ℤ) (seed : Option ℤ) (lock : Option CompactionStart)
      → IsGrowing q es
      → BelowSeed seed q
      → BelowStart lock q
      → held_by (replay seed_mark seed es) (replay (lock_mark d) lock es)
        ≡ lock_after (held_by seed lock) es
  unfolding lock_after IsGrowing
  lock_after-replay [] q seed lock growing seeds starts = refl
  lock_after-replay (e ∷ es) q seed lock (le, growing) seeds starts =
      lock_after-replay es (e.seq +ℤ pos 1) (written seed_mark e seed)
        (written (lock_mark d) e lock) growing (BelowSeed-next e seed q seeds le)
        (BelowStart-next e lock q starts le)
      ∙ ap (λ held. lock_after held es)
          (locks-held_by e seed lock (BelowSeed-le seed q e.seq seeds le)
            (BelowStart-le lock q e.seq starts le))

  -- Over a log whose seqs grow, the backward scan of ActiveCompaction reports what a forward reading of the log ends in
  -- that a compaction start locks, and a compaction end or a seed boundary unlocks.
  pub active_compaction-lock_after :
      (events : List SessionEnvelope) (first : ℤ)
      → IsGrowing first events
      → active_compaction d events ≡ lock_after none events
  unfolding active_compaction
  active_compaction-lock_after events first growing =
      let (l, t, s) = inspect-replay d events in
      rw (l, s) (lock_after-replay events first none none growing tt tt)
