-- ===== src/Session/Manager/Refines.antt =====
-- The incremental manager of surface.go against the fold of its whole log.
use deep_seek_harness_x.Prelude.{
  ℕ, zero, suc, ◌+◌, ◌-◌, ◌≤◌, ◌≡◌, refl, sym, ap, ◌∙◌, Option, none, some, List, [], ◌∷◌, map,
  length, get_elem?, take, drop, ok, err, ◌>>=◌, Result-cases, arith, get_elem?-some, get_elem?-lt,
  get_elem?-map, Bool-cases, inl, inr, true, length-map, take-suc, take-append-drop, length-take-le,
  ==_iff,
}
use deep_seek_harness_x.Prelude.Int.{ℤ, pos, pos_part, ◌+ℤ◌, ◌-ℤ◌, =ℤ_iff, int_laws, leb_ℤ}
use deep_seek_harness_x.Session.Json.{Codec}
use deep_seek_harness_x.Session.Surface.{
  Fault, Outcome, SurfaceFoldReplacement, SurfaceFoldState, SurfacePlan, empty_state, at_index,
  plan_surface_event, apply_surface_event, fold_from, push_replacement,
}
use deep_seek_harness_x.Session.Surface.Plan.{PlanFits, plan-PlanFits}
use deep_seek_harness_x.Session.Surface.Extend.{fold_from-append}
use deep_seek_harness_x.Session.Manager.{
  Address, Heap, SurfaceManager, new_surface_manager, is_pending, seq_of, fold_next, settle,
  process_at, then_rounds, drop_pending, process_next, settle, process_at, then_rounds,
  process_rounds, tail_seq, process_delta, nodes,
}

-- The manager of `log` from `base` has folded the first `k` events, and a pending plan is the plan of
-- the pending event at position `k`.
pub record Synced (c : Codec) (heap : Heap) (log : List Address) (base : ℤ) (k : ℕ)
    (m : SurfaceManager) : Type 0 where
  pub same_log : m.log ≡ log
  pub same_base : m.base_seq ≡ base
  pub in_log : k ≤ length log
  pub processed : m.last_processed ≡ base +ℤ pos k -ℤ pos 1
  pub replacements : List SurfaceFoldReplacement
  pub folded :
      fold_from c (map heap log) base (take k (map heap log)) 0 empty_state []
      ≡ ok (m.state, replacements)
  pub pending :
      (p : SurfacePlan)
      → m.pending_plan ≡ some p
      → (a : Address) × (m.pending_event ≡ some a)
        × (plan_surface_event c m.state (heap a) (base +ℤ pos k) (map heap log) base ≡ ok (some p))

next_seq : (base : ℤ) (k : ℕ) → base +ℤ pos k -ℤ pos 1 +ℤ pos 1 ≡ base +ℤ pos k
next_seq base k = omega int_laws

seq_position : (base : ℤ) (k : ℕ) → base +ℤ pos k -ℤ base ≡ pos k
seq_position base k = omega int_laws

after_next : (base : ℤ) (k : ℕ) → base +ℤ pos k ≡ base +ℤ pos (suc k) -ℤ pos 1
after_next base k = omega int_laws

pub rounds_left :
    (base : ℤ) (k n : ℕ)
    → k ≤ n
    → pos_part (base +ℤ pos n -ℤ pos 1 -ℤ (base +ℤ pos k -ℤ pos 1)) ≡ n - k
rounds_left base k n le =
    let e : base +ℤ pos n -ℤ pos 1 -ℤ (base +ℤ pos k -ℤ pos 1) ≡ pos (n - k) = omega int_laws in
    ap pos_part e

seq_of-PlanFits :
    (nodes : List ℤ) (q : ℤ) {p : SurfacePlan} → PlanFits nodes q (some p) → seq_of p ≡ q
unfolding seq_of
seq_of-PlanFits nodes q PlanFits.tail = refl
seq_of-PlanFits nodes q (PlanFits.splice s t i j le hi hj) = refl

leb_ℤ_refl : (a : ℤ) → leb_ℤ a a ≡ true
leb_ℤ_refl a = ground arith

is_pending-eq : (o : Option Address) (a : Address) → is_pending o a ≡ true → o ≡ some a
is_pending-eq none a h = cc
is_pending-eq (some b) a h = ground (arith, (==_iff b a).0 h)

then_rounds-ok :
    (step rest : SurfaceManager × Outcome Unit) → step.1 ≡ ok tt → then_rounds step rest ≡ rest
then_rounds-ok step rest h = rw h refl

module _ (c : Codec) (heap : Heap) (log : List Address) (base : ℤ) where
  -- The position that has been folded up to, whichever it is.
  abbrev pub IsSynced : SurfaceManager → Type 0
  IsSynced m = (k : ℕ) × Synced c heap log base k m

  pub new_surface_manager-IsSynced : IsSynced (new_surface_manager log base)
  unfolding new_surface_manager fold_from
  new_surface_manager-IsSynced = (
    0,
    record {
      same_log = refl;
      same_base = refl;
      in_log = omega arith;
      processed = omega int_laws;
      replacements = [];
      folded = refl;
      pending = λ p h. cc;
    },
  )

  module _ (k : ℕ) (m : SurfaceManager) (s : Synced c heap log base k m) where
    same_log_event :
        (a : Address)
        → apply_surface_event c m.state (heap a) (base +ℤ pos k) (map heap m.log) m.base_seq
          ≡ apply_surface_event c m.state (heap a) (base +ℤ pos k) (map heap log) base
    same_log_event a = simp (s.same_log, s.same_base)

    -- With the pending plan or without, the next event is folded as `apply_surface_event` does it.
    fold_next_lem :
        (a : Address) (o : Option SurfacePlan)
        → m.pending_plan ≡ o
        → fold_next c heap m o a (base +ℤ pos k) ≡ (
            apply_surface_event c m.state (heap a) (base +ℤ pos k) (map heap log) base >>= λ r.
            ok r.0)
    unfolding fold_next
    fold_next_lem a none hp = ap (λ r. r >>= λ x. ok x.0) (same_log_event a)
    fold_next_lem a (some p) hp = elim (Bool-cases (is_pending m.pending_event a)) [
      | inr other ↦ rw other (ap (λ r. r >>= λ x. ok x.0) (same_log_event a))
      | inl same ↦
          let (b, hb, planned_b) = s.pending p hp in
          let e : b ≡ a = cc (hb, is_pending-eq m.pending_event a same) in
          let planned = rw e at planned_b in
          let at_k =
            seq_of-PlanFits m.state.nodes (base +ℤ pos k)
              (plan-PlanFits c m.state (map heap log) base (heap a) (base +ℤ pos k) planned) in
          rw (same, (=ℤ_iff (seq_of p) (base +ℤ pos k)).1 at_k)
            (unfold apply_surface_event in rw planned refl)
    ]

    pending_seq : (p : SurfacePlan) → m.pending_plan ≡ some p → seq_of p ≡ base +ℤ pos k
    pending_seq p hp =
        let (b, hb, planned) = s.pending p hp in
        seq_of-PlanFits m.state.nodes (base +ℤ pos k)
          (plan-PlanFits c m.state (map heap log) base (heap b) (base +ℤ pos k) planned)

    drop_pending_lem :
        (o : Option SurfacePlan)
        → m.pending_plan ≡ o
        → ((drop_pending m o (base +ℤ pos k)).log ≡ log)
          × ((drop_pending m o (base +ℤ pos k)).base_seq ≡ base)
          × ((drop_pending m o (base +ℤ pos k)).pending_plan ≡ none)
    unfolding drop_pending
    drop_pending_lem none hp = (s.same_log, s.same_base, hp)
    drop_pending_lem (some p) hp =
        let e : leb_ℤ (seq_of p) (base +ℤ pos k) ≡ true =
          rw (pending_seq p hp) (leb_ℤ_refl (base +ℤ pos k)) in
        rw e (s.same_log, s.same_base, refl)

    module _ (a : Address) (at_k : get_elem? log k ≡ some a) where
      event_at_k : get_elem? (map heap log) k ≡ some (heap a)
      event_at_k = get_elem?-map heap log k at_k

      -- The fold of one event more goes on from the manager's state.
      fold_more : fold_from c (map heap log) base (take (suc k) (map heap log)) 0 empty_state [] ≡ (
          apply_surface_event c m.state (heap a) (base +ℤ pos k) (map heap log) base >>= λ r.
          ok (r.0, push_replacement s.replacements r.1))
      unfolding fold_from
      fold_more =
          let len : 0 + length (take k (map heap log)) ≡ k =
            omega (arith, length-take-le k (map heap log), length-map heap log, s.in_log) in
          rw
            (
              take-suc k (map heap log) event_at_k,
              fold_from-append c (map heap log) base (take k (map heap log)) (heap a ∷ []) 0
                  empty_state [],
              s.folded,
              len,
            )
            refl

      process_next-settle :
          process_next c heap m (base +ℤ pos k)
          ≡ settle m (base +ℤ pos k) (
              apply_surface_event c m.state (heap a) (base +ℤ pos k) (map heap log) base >>= λ r.
              ok r.0)
      unfolding process_next
      process_next-settle =
          ap (λ o. process_at c heap m (base +ℤ pos k) o) found
          ∙ ap (settle m (base +ℤ pos k)) (fold_next_lem a m.pending_plan refl)
        where
          found : at_index m.log (base +ℤ pos k -ℤ m.base_seq) ≡ some a
          found = simp (s.same_log, s.same_base, seq_position) at_k

      process_next_ok :
          (r : SurfaceFoldState × Option SurfaceFoldReplacement)
          → apply_surface_event c m.state (heap a) (base +ℤ pos k) (map heap log) base ≡ ok r
          → ((process_next c heap m (base +ℤ pos k)).1 ≡ ok tt)
            × Synced c heap log base (suc k) (process_next c heap m (base +ℤ pos k)).0
      process_next_ok r h =
          rw (process_next-settle, h)
            (unfold settle in
              (
                refl,
                record {
                  same_log = kept.0;
                  same_base = kept.1;
                  in_log = get_elem?-lt log k at_k;
                  processed = after_next base k;
                  replacements = push_replacement s.replacements r.1;
                  folded = rw (fold_more, h) refl;
                  pending = λ p hp. cc (kept.2, hp);
                },
              ))
        where
          kept :
              ((drop_pending m m.pending_plan (base +ℤ pos k)).log ≡ log)
              × ((drop_pending m m.pending_plan (base +ℤ pos k)).base_seq ≡ base)
              × ((drop_pending m m.pending_plan (base +ℤ pos k)).pending_plan ≡ none)
          kept = drop_pending_lem m.pending_plan refl

      process_next_err :
          (f : Fault)
          → apply_surface_event c m.state (heap a) (base +ℤ pos k) (map heap log) base ≡ err f
          → process_next c heap m (base +ℤ pos k) ≡ (m, err f)
      process_next_err f h = rw (process_next-settle, h) (unfold settle in refl)

  -- What the rounds that are left reach: the whole log, or the error at which its fold stops.
  pub data Reaches : SurfaceManager × Outcome Unit → Type 0 where
    all_folded : {m : SurfaceManager} → Synced c heap log base (length log) m → Reaches (m, ok tt)
    stopped :
        {m : SurfaceManager} (f : Fault)
        → IsSynced m
        → fold_from c (map heap log) base (map heap log) 0 empty_state [] ≡ err f
        → Reaches (m, err f)

  fold_parts :
      (n : ℕ)
      → fold_from c (map heap log) base (map heap log) 0 empty_state [] ≡ (
          fold_from c (map heap log) base (take n (map heap log)) 0 empty_state [] >>= λ r.
          fold_from c
            (map heap log)
            base
            (drop n (map heap log))
            (0 + length (take n (map heap log)))
            r.0
            r.1)
  fold_parts n =
      ap (λ xs. fold_from c (map heap log) base xs 0 empty_state [])
        (sym (take-append-drop n (map heap log)))
      ∙ fold_from-append c (map heap log) base (take n (map heap log)) (drop n (map heap log)) 0
          empty_state []

  process_rounds-Reaches :
      (rounds k : ℕ) (m : SurfaceManager)
      → Synced c heap log base k m
      → k + rounds ≡ length log
      → Reaches (process_rounds c heap rounds m)
  unfolding process_rounds
  process_rounds-Reaches zero k m s e =
      let at_end : k ≡ length log = omega (arith, e) in all_folded (rw at_end at s)
  process_rounds-Reaches (suc rounds) k m s e =
      let (a, at_k) = get_elem?-some log k (omega (arith, e)) in
      let seq : m.last_processed +ℤ pos 1 ≡ base +ℤ pos k =
        ap (λ q. q +ℤ pos 1) s.processed ∙ next_seq base k in
      rw seq
        (elim (Result-cases
          (apply_surface_event c m.state (heap a) (base +ℤ pos k) (map heap log) base)) [
            | inl (r, h) ↦
                let (done, s') = process_next_ok k m s a at_k r h in
                let next = (process_next c heap m (base +ℤ pos k)).0 in
                rw
                  (then_rounds-ok (process_next c heap m (base +ℤ pos k))
                    (process_rounds c heap rounds next) done)
                  (process_rounds-Reaches rounds (suc k) next s' (omega (arith, e)))
            | inr (f, h) ↦
                rw (process_next_err k m s a at_k f h)
                  (stopped f (k, s) (fold_parts (suc k) ∙ rw (fold_more k m s a at_k, h) refl))
          ])

  pub process_delta-Reaches :
      (k : ℕ) (m : SurfaceManager) → Synced c heap log base k m → Reaches (process_delta c heap m)
  unfolding process_delta
  process_delta-Reaches k m s =
      let left : pos_part (tail_seq m -ℤ m.last_processed) ≡ length log - k =
        unfold tail_seq in
        simp (s.same_log, s.same_base, s.processed) (rounds_left base k (length log) s.in_log) in
      rw left (process_rounds-Reaches (length log - k) k m s (omega (arith, s.in_log)))
