-- ===== src/Compaction/Transaction/Closed.antt =====
-- backend/pkg/compaction/compactor.go, CompactTransaction: how a run leaves its bracket, on every path.
use deep_seek_harness_x.Prelude.{
  String, Option, none, some, List, [], ◌∷◌, ◌++◌, Result, ok, err, ◌≡◌, refl, sym, ap, ◌∙◌, subst,
  arith,
}
use deep_seek_harness_x.Prelude.Int.{ℤ}
use deep_seek_harness_x.Session.Events.{SessionEnvelope, event_user_message}
use deep_seek_harness_x.Compaction.Region.{SurfaceSelection}
use deep_seek_harness_x.Compaction.Entry.{event_compaction_start, event_compaction_end}
use deep_seek_harness_x.Compaction.Transaction.{
  CompactionError, CompactionEndPayload, Services, CompactTransactionOptions, Attempt, Store,
  Appended, appended, append_fn, append_encoded, new_envelope, close_failure, Prepared, prepare,
  event_compaction_summary,
}
use deep_seek_harness_x.Compaction.Transaction.Run.{
  Commit, the_commit, checkpoint_envelope, keep_seq, then_checkpoint, Entered, commit_body,
  commit_end, finish, committed, prepared_or_closed, started, enter, entered, compact_transaction,
}

-- A trace whose first attempt is `a`; and one that moreover ends with a compaction/end.
abbrev Opens : Attempt → List Attempt → Type 0
Opens a ts = (mid : List Attempt) × (ts ≡ a ∷ mid)

abbrev Closes : Attempt → List Attempt → Type 0
Closes a ts =
    (mid : List Attempt) × ((last : Attempt) × ((ts ≡ a ∷ (mid ++ last ∷ []))
        × (last.event.event_type ≡ event_compaction_end)))

-- Nothing was attempted, or the only attempt was a start that the store refused, or the start was
-- accepted and the last attempt is an end.
pub data IsClosed : List Attempt → Type 0 where
  untouched : IsClosed []
  refused :
      (e : SessionEnvelope)
      → e.event_type ≡ event_compaction_start
      → IsClosed (record { event = e; assigned = none } ∷ [])
  closed :
      (e : SessionEnvelope) (q : ℤ) (ts : List Attempt)
      → e.event_type ≡ event_compaction_start
      → Closes (record { event = e; assigned = some q }) ts
      → IsClosed ts

-- What an append leaves: all that was there, and the attempt.
appended-attempts :
    (tr : List Attempt) (e : SessionEnvelope) (s : Option ℤ)
    → (appended tr e s).0 ≡ tr ++ record { event = e; assigned = s } ∷ []
unfolding appended
appended-attempts tr e none = refl
appended-attempts tr e (some q) = refl

Opens-append :
    (store : Store) (t : String) (envelope : String → SessionEnvelope) (raw : Option String)
    (a : Attempt) (tr : List Attempt)
    → Opens a tr
    → Opens a (append_encoded store t envelope raw tr).0
unfolding append_fn
Opens-append store t envelope none a tr begins = begins
Opens-append store t envelope (some raw) a tr (mid, begins) =
    let last : Attempt = record { event = envelope raw; assigned = store tr (envelope raw) } in
    (
      mid ++ last ∷ [],
      appended-attempts tr (envelope raw) (store tr (envelope raw))
          ∙ ap (λ z. z ++ last ∷ []) begins,
    )

Closes-append :
    (store : Store) (raw : Option String) (a : Attempt) (tr : List Attempt)
    → Opens a tr
    → (r : String) × (raw ≡ some r)
    → Closes a
        (append_encoded store event_compaction_end (new_envelope event_compaction_end) raw tr).0
unfolding append_fn
Closes-append store none a tr begins (r, same) = absurd (ground (arith, same))
Closes-append store (some raw) a tr (mid, begins) encoded =
    let e = new_envelope event_compaction_end raw in
    (
      mid,
      (
        record { event = e; assigned = store tr e },
        (
          appended-attempts tr e (store tr e)
              ∙ ap (λ z. z ++ record { event = e; assigned = store tr e } ∷ []) begins,
          refl,
        ),
      ),
    )

module _ (store : Store) (sv : Services) (o : CompactTransactionOptions)
    (encodes : (p : CompactionEndPayload) → (raw : String) × (sv.encode_end p ≡ some raw)) where
  close_failure-Closes :
      (a : Attempt) (e : CompactionError) (tr : List Attempt)
      → Opens a tr
      → Closes a (close_failure store sv o e tr)
  unfolding close_failure
  close_failure-Closes a e tr begins = Closes-append store _ a tr begins (encodes _)

  finish-Closes :
      (a : Attempt) (c : Commit) (q : ℤ) (x : Appended)
      → Opens a x.0
      → Closes a x.0
      → Closes a (finish store sv o c q x).0
  unfolding finish
  finish-Closes a c q (tr, err e) begins ends = close_failure-Closes a _ tr begins
  finish-Closes a c q (tr, ok p) begins ends = ends

  committed-Closes :
      (a : Attempt) (c : Commit) (x : Appended)
      → Opens a x.0
      → Closes a (committed store sv o c x).0
  unfolding committed commit_end
  committed-Closes a c (tr, err e) begins = close_failure-Closes a e tr begins
  committed-Closes a c (tr, ok q) begins =
      finish-Closes a c q _ (Opens-append store event_compaction_end _ _ a tr begins)
        (Closes-append store _ a tr begins (encodes _))

  commit_body-Opens :
      (a : Attempt) (c : Commit) (tr : List Attempt)
      → Opens a tr
      → Opens a (commit_body store sv o c tr).0
  unfolding commit_body then_checkpoint keep_seq
  commit_body-Opens a c tr begins = then_checkpoint-Opens _ (
      Opens-append store event_compaction_summary (new_envelope event_compaction_summary) _ a tr
        begins)
    where
      keep_seq-attempts : (q : ℤ) (x : Appended) → (keep_seq q x).0 ≡ x.0
      keep_seq-attempts q (tr, err e) = refl
      keep_seq-attempts q (tr, ok r) = refl

      then_checkpoint-Opens :
          (x : Appended) → Opens a x.0 → Opens a (then_checkpoint store sv o c x).0
      then_checkpoint-Opens (tr, err e) begins = begins
      then_checkpoint-Opens (tr, ok q) begins =
          subst (Opens a) (sym (keep_seq-attempts q _))
            (Opens-append store event_user_message (checkpoint_envelope c q) _ a tr begins)

  prepared_or_closed-Closes :
      (a : Attempt) (selection : SurfaceSelection) (owner_turn : Option ℤ) (q : ℤ)
      (tr : List Attempt) (p : Result CompactionError Prepared)
      → Opens a tr
      → Closes a (prepared_or_closed store sv o selection owner_turn q tr p).0
  unfolding prepared_or_closed
  prepared_or_closed-Closes a selection owner_turn q tr (err e) begins =
      close_failure-Closes a e tr begins
  prepared_or_closed-Closes a selection owner_turn q tr (ok p) begins =
      let c = the_commit selection p owner_turn q in
      committed-Closes a c _ (commit_body-Opens a c tr begins)

  -- The start, and what follows it.
  started-IsClosed :
      (events : List SessionEnvelope) (nodes : List ℤ) (n : Entered) (raw : String) (s : Option ℤ)
      → IsClosed
          (started store sv o events nodes n.selection n.owner_turn
            (appended [] (new_envelope event_compaction_start raw) s)).0
  unfolding started appended
  started-IsClosed events nodes n raw none = refused (new_envelope event_compaction_start raw) refl
  started-IsClosed events nodes n raw (some q) =
      closed (new_envelope event_compaction_start raw) q _ refl (
        prepared_or_closed-Closes _ n.selection n.owner_turn q _
          (prepare sv o events nodes n.selection) ([], refl))

  start-IsClosed :
      (events : List SessionEnvelope) (nodes : List ℤ) (n : Entered) (raw : Option String)
      → IsClosed
          (started store sv o events nodes n.selection n.owner_turn (
            append_encoded store event_compaction_start
              (new_envelope event_compaction_start)
              raw
              [])).0
  unfolding append_fn started
  start-IsClosed events nodes n none = untouched
  start-IsClosed events nodes n (some raw) =
      started-IsClosed events nodes n raw (store [] (new_envelope event_compaction_start raw))

  entered-IsClosed :
      (events : List SessionEnvelope) (nodes : List ℤ) (x : Result CompactionError Entered)
      → IsClosed (entered store sv o events nodes x).0
  unfolding entered
  entered-IsClosed events nodes (err e) = untouched
  entered-IsClosed events nodes (ok n) = start-IsClosed events nodes n _

  -- On every path, errors included, and for every behaviour of the store, a run leaves its bracket
  -- closed, where the payload of the end always encodes: nothing was appended; or only a start that the
  -- store refused; or the start was accepted and the last event attempted is a compaction/end.
  pub compact_transaction-IsClosed :
      (events : List SessionEnvelope) (nodes : List ℤ)
      → IsClosed (compact_transaction store sv o events nodes).0
  unfolding compact_transaction
  compact_transaction-IsClosed events nodes =
      entered-IsClosed events nodes (enter sv o events nodes)
