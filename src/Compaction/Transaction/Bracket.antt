-- ===== src/Compaction/Transaction/Bracket.antt =====
-- backend/pkg/compaction/compactor.go, CompactTransaction: the events that a run appends.
use deep_seek_harness_x.Prelude.{
  String, Bool, true, false, Option, none, some, List, [], ◌∷◌, ◌++◌, Result, ok, err, ◌≡◌, refl,
  sym, ap, ◌∙◌, subst, some-injective, ok-injective, arith,
}
use deep_seek_harness_x.Prelude.Int.{ℤ}
use deep_seek_harness_x.Session.Events.{SessionEnvelope, event_user_message, replace_surface_op}
use deep_seek_harness_x.Compaction.Region.{SurfaceSelection}
use deep_seek_harness_x.Compaction.Entry.{event_compaction_start, event_compaction_end}
use deep_seek_harness_x.Compaction.Transaction.{
  CompactionError, Services, CompactTransactionOptions, Attempt, Store, CompactionResult, Appended,
  appended, append_fn, append_encoded, new_envelope, Prepared, prepare, event_compaction_summary,
}
use deep_seek_harness_x.Compaction.Transaction.Run.{
  Commit, the_commit, Entered, checkpoint_envelope, keep_seq, then_checkpoint, commit_body,
  commit_end, flushed, finish, committed, prepared_or_closed, started, enter, entered,
  compact_transaction,
}

abbrev accepted : SessionEnvelope → ℤ → Attempt
accepted e q = record { event = e; assigned = some q }

-- The four events of a committed transaction, each with the seq that the result names.
pub record IsCommitted (r : CompactionResult) (ts : List Attempt) : Type 0 where
  pub start_event : SessionEnvelope
  pub summary_event : SessionEnvelope
  pub checkpoint : SessionEnvelope
  pub end_event : SessionEnvelope
  pub checkpoint_seq : ℤ
  pub attempts :
      ts
      ≡ accepted start_event r.start_seq
        ∷ accepted summary_event r.summary_seq
        ∷ accepted checkpoint checkpoint_seq
        ∷ accepted end_event r.end_seq
        ∷ []
  pub is_start : start_event.event_type ≡ event_compaction_start
  pub is_summary : summary_event.event_type ≡ event_compaction_summary
  pub is_end : end_event.event_type ≡ event_compaction_end
  pub is_message : checkpoint.event_type ≡ event_user_message
  pub replaces :
      checkpoint.surface_op ≡ some (replace_surface_op r.shadowed_range.start r.shadowed_range.end)
  pub sources : checkpoint.source_event_seqs ≡ some (r.start_seq ∷ r.summary_seq ∷ r.shadowed_seqs)

-- What an append that succeeded left.
appended-ok :
    (tr : List Attempt) (e : SessionEnvelope) (s : Option ℤ) (q : ℤ)
    → (appended tr e s).1 ≡ ok q
    → (appended tr e s).0 ≡ tr ++ accepted e q ∷ []
unfolding appended
appended-ok tr e none q is_ok = absurd (ground (arith, is_ok))
appended-ok tr e (some p) q is_ok = ap (λ n. tr ++ accepted e n ∷ []) (ok-injective is_ok)

append_encoded-ok :
    (store : Store) (t : String) (envelope : String → SessionEnvelope) (raw : Option String)
    (tr : List Attempt) (q : ℤ)
    → (append_encoded store t envelope raw tr).1 ≡ ok q
    → (raw' : String) × ((append_encoded store t envelope raw tr).0
        ≡ tr ++ accepted (envelope raw') q ∷ [])
unfolding append_fn appended
append_encoded-ok store t envelope none tr q is_ok = absurd (ground (arith, is_ok))
append_encoded-ok store t envelope (some raw) tr q is_ok =
    (raw, appended-ok tr (envelope raw) (store tr (envelope raw)) q is_ok)

module _ (store : Store) (sv : Services) (o : CompactTransactionOptions) where
  flushed-result :
      (f : Option Bool) (r r' : CompactionResult) → (flushed f r).result ≡ some r' → r ≡ r'
  unfolding flushed
  flushed-result none r r' is_some = some-injective is_some
  flushed-result (some true) r r' is_some = some-injective is_some
  flushed-result (some false) r r' is_some = some-injective is_some

  -- The end of the bracket, given what the body wrote.
  finish-result :
      (c : Commit) (sq : ℤ) (x : Appended) (r : CompactionResult)
      → (finish store sv o c sq x).1.result ≡ some r
      → (q : ℤ) × (x.1 ≡ ok q)
        × ((finish store sv o c sq x).0 ≡ x.0)
        × (r.start_seq ≡ c.start_seq)
        × (r.summary_seq ≡ sq)
        × (r.end_seq ≡ q)
        × (r.shadowed_range ≡ c.selection.span)
        × (r.shadowed_seqs ≡ c.selection.shadowed_seqs)
  unfolding finish
  finish-result c sq (tr, err e) r is_some = absurd (ground (arith, is_some))
  finish-result c sq (tr, ok q) r is_some =
      let same = flushed-result o.flush _ r is_some in
      (
        q,
        refl,
        refl,
        sym (ap (λ z. z.start_seq) same),
        sym (ap (λ z. z.summary_seq) same),
        sym (ap (λ z. z.end_seq) same),
        sym (ap (λ z. z.shadowed_range) same),
        sym (ap (λ z. z.shadowed_seqs) same),
      )

  -- The body of the commit: the summary, then the checkpoint.
  keep_seq-ok :
      (p q : ℤ) (x : Appended)
      → (keep_seq p x).1 ≡ ok q
      → (r : ℤ) × (x.1 ≡ ok r) × ((keep_seq p x).0 ≡ x.0) × (p ≡ q)
  unfolding keep_seq
  keep_seq-ok p q (tr, err e) is_ok = absurd (ground (arith, is_ok))
  keep_seq-ok p q (tr, ok r) is_ok = (r, refl, refl, ok-injective is_ok)

  abbrev CheckpointWritten : Commit → ℤ → List Attempt → List Attempt → Type 0
  CheckpointWritten c q before after =
      (raw : String) × ((r : ℤ) × (after ≡ before ++ accepted (checkpoint_envelope c q raw) r ∷ []))

  then_checkpoint-ok :
      (c : Commit) (q : ℤ) (x : Appended)
      → (then_checkpoint store sv o c x).1 ≡ ok q
      → (x.1 ≡ ok q) × CheckpointWritten c q x.0 (then_checkpoint store sv o c x).0
  unfolding then_checkpoint
  then_checkpoint-ok c q (tr, err e) is_ok = absurd (ground (arith, is_ok))
  then_checkpoint-ok c q (tr, ok p) is_ok =
      let (r, written, same, p_is_q) = keep_seq-ok p q _ is_ok in
      let (raw, appends) =
        append_encoded-ok store event_user_message (checkpoint_envelope c p) _ tr r written in
      (
        ap ok p_is_q,
        subst (λ z. CheckpointWritten c z tr (then_checkpoint store sv o c (tr, ok p)).0) p_is_q
            (raw, (r, same ∙ appends)),
      )

  commit_body-ok :
      (c : Commit) (q : ℤ) (tr : List Attempt)
      → (commit_body store sv o c tr).1 ≡ ok q
      → (raw : String) × CheckpointWritten c q
          (tr ++ accepted (new_envelope event_compaction_summary raw) q ∷ [])
          (commit_body store sv o c tr).0
  unfolding commit_body
  commit_body-ok c q tr is_ok =
      let (wrote, checkpoint) = then_checkpoint-ok c q _ is_ok in
      let (raw, appends) =
        append_encoded-ok store event_compaction_summary (new_envelope event_compaction_summary) _
          tr q wrote in
      (raw, subst (λ z. CheckpointWritten c q z (commit_body store sv o c tr).0) appends checkpoint)

  -- What the run writes after its start, when it returns a result.
  abbrev RestWritten : Commit → CompactionResult → List Attempt → List Attempt → Type 0
  RestWritten c r before after =
      (summary_raw : String) × ((raw : String) × ((q : ℤ) × ((end_raw : String) × (after
              ≡ ((before
                    ++ accepted (new_envelope event_compaction_summary summary_raw) r.summary_seq
                      ∷ [])
                  ++ accepted (checkpoint_envelope c r.summary_seq raw) q ∷ [])
                ++ accepted (new_envelope event_compaction_end end_raw) r.end_seq ∷ []))))

  committed-result :
      (c : Commit) (tr : List Attempt) (r : CompactionResult)
      → (committed store sv o c (commit_body store sv o c tr)).1.result ≡ some r
      → RestWritten c r tr (committed store sv o c (commit_body store sv o c tr)).0
        × ((r.start_seq ≡ c.start_seq)
            × ((r.shadowed_range ≡ c.selection.span)
                × (r.shadowed_seqs ≡ c.selection.shadowed_seqs)))
  unfolding committed commit_end
  committed-result c tr r is_some =
      go (commit_body store sv o c tr).0 (commit_body store sv o c tr).1
        (λ q. commit_body-ok c q tr) is_some
    where
      go :
          (after : List Attempt) (x : Result CompactionError ℤ)
          → ((q : ℤ)
              → x ≡ ok q
              → (raw : String) × CheckpointWritten c q
                  (tr ++ accepted (new_envelope event_compaction_summary raw) q ∷ [])
                  after)
          → (committed store sv o c (after, x)).1.result ≡ some r
          → RestWritten c r tr (committed store sv o c (after, x)).0
            × ((r.start_seq ≡ c.start_seq)
                × ((r.shadowed_range ≡ c.selection.span)
                    × (r.shadowed_seqs ≡ c.selection.shadowed_seqs)))
      go after (err e) body is_some = absurd (ground (arith, is_some))
      go after (ok q) body is_some =
          let (raw, (ck_raw, (ck, appends))) = body q refl in
          let (p, ended, same, at_start, at_summary, at_end, range, seqs) =
            finish-result c q _ r is_some in
          let (end_raw, ends) =
            append_encoded-ok store event_compaction_end (new_envelope event_compaction_end) _ after
              p ended in
          ((raw, (ck_raw, (ck, (end_raw, cc)))), (at_start, (range, seqs)))

  -- The rest of a run, for some commit that starts at the seq given.
  abbrev RunWritten : CompactionResult → ℤ → List Attempt → List Attempt → Type 0
  RunWritten r q before after =
      (c : Commit) × ((c.start_seq ≡ q)
        × (RestWritten c r before after
            × ((r.start_seq ≡ c.start_seq)
                × ((r.shadowed_range ≡ c.selection.span)
                    × (r.shadowed_seqs ≡ c.selection.shadowed_seqs)))))

  prepared_or_closed-result :
      (selection : SurfaceSelection) (owner_turn : Option ℤ) (q : ℤ) (tr : List Attempt)
      (p : Result CompactionError Prepared) (r : CompactionResult)
      → (prepared_or_closed store sv o selection owner_turn q tr p).1.result ≡ some r
      → RunWritten r q tr (prepared_or_closed store sv o selection owner_turn q tr p).0
  unfolding prepared_or_closed
  prepared_or_closed-result selection owner_turn q tr (err e) r is_some =
      absurd (ground (arith, is_some))
  prepared_or_closed-result selection owner_turn q tr (ok p) r is_some =
      let c = the_commit selection p owner_turn q in (c, (refl, committed-result c tr r is_some))

  started-result :
      (events : List SessionEnvelope) (nodes : List ℤ) (selection : SurfaceSelection)
      (owner_turn : Option ℤ) (x : Appended) (r : CompactionResult)
      → (started store sv o events nodes selection owner_turn x).1.result ≡ some r
      → (q : ℤ) × ((x.1 ≡ ok q)
          × RunWritten r q x.0 (started store sv o events nodes selection owner_turn x).0)
  unfolding started
  started-result events nodes selection owner_turn (tr, err e) r is_some =
      absurd (ground (arith, is_some))
  started-result events nodes selection owner_turn (tr, ok q) r is_some = (
    q,
    (
      refl,
      prepared_or_closed-result selection owner_turn q tr (prepare sv o events nodes selection) r
          is_some,
    ),
  )

  entered-result :
      (events : List SessionEnvelope) (nodes : List ℤ) (x : Result CompactionError Entered)
      (r : CompactionResult)
      → (entered store sv o events nodes x).1.result ≡ some r
      → IsCommitted r (entered store sv o events nodes x).0
  unfolding entered checkpoint_envelope
  entered-result events nodes (err e) r is_some = absurd (ground (arith, is_some))
  entered-result events nodes (ok n) r is_some =
      let (
        q,
        (
          began,
          (c, (at_q, ((summary_raw, (raw, (ck, (end_raw, same)))), (at_start, (range, seqs))))),
        ),
      ) =
        started-result events nodes n.selection n.owner_turn _ r is_some in
      let (start_raw, starts) =
        append_encoded-ok store event_compaction_start (new_envelope event_compaction_start) _ [] q
          began in
      record {
        start_event = new_envelope event_compaction_start start_raw;
        summary_event = new_envelope event_compaction_summary summary_raw;
        checkpoint = checkpoint_envelope c r.summary_seq raw;
        end_event = new_envelope event_compaction_end end_raw;
        checkpoint_seq = ck;
        attempts =
            same
            ∙ (ap
                  (λ t.
                    ((t
                        ++ accepted (new_envelope event_compaction_summary summary_raw)
                            r.summary_seq
                          ∷ [])
                      ++ accepted (checkpoint_envelope c r.summary_seq raw) ck ∷ [])
                    ++ accepted (new_envelope event_compaction_end end_raw) r.end_seq ∷ [])
                  starts
                ∙ ap
                    (λ z.
                      accepted (new_envelope event_compaction_start start_raw) z
                      ∷ accepted (new_envelope event_compaction_summary summary_raw) r.summary_seq
                      ∷ accepted (checkpoint_envelope c r.summary_seq raw) ck
                      ∷ accepted (new_envelope event_compaction_end end_raw) r.end_seq
                      ∷ [])
                    (sym (at_start ∙ at_q)));
        is_start = refl;
        is_summary = refl;
        is_end = refl;
        is_message = refl;
        replaces = ap (λ s. some (replace_surface_op s.start s.end)) (sym range);
        sources = cc;
      }

  -- A run that returns a result has appended four events, in this order, all of them accepted: the
  -- start, the summary, the checkpoint message and the end, with the seqs that the result names. The
  -- checkpoint replaces the span that the result names, and its sources are the seqs of the start and
  -- of the summary and then the shadowed ones.
  pub compact_transaction-IsCommitted :
      (events : List SessionEnvelope) (nodes : List ℤ) (r : CompactionResult)
      → (compact_transaction store sv o events nodes).1.result ≡ some r
      → IsCommitted r (compact_transaction store sv o events nodes).0
  unfolding compact_transaction
  compact_transaction-IsCommitted events nodes r is_some =
      entered-result events nodes (enter sv o events nodes) r is_some
