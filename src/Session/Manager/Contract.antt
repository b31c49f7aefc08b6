-- ===== src/Session/Manager/Contract.antt =====
-- What the operations of the SurfaceManager promise, in terms of the fold of the log.
use deep_seek_harness_x.Prelude.{
  ℕ, ◌+◌, ◌≤◌, ◌≡◌, refl, sym, ap, ◌∙◌, Option, List, [], ◌∷◌, ◌++◌, map, map-append, length, take,
  ok, err, ◌>>=◌, bind-cong, bind_assoc, All, arith, subst, Bool-cases, inl, inr, false, length-map,
  take-all,
}
use deep_seek_harness_x.Prelude.Int.{ℤ, pos, ◌+ℤ◌, ◌-ℤ◌, +ℤ_parts, -ℤ_parts, ltb_ℤ}
use deep_seek_harness_x.Session.Json.{Codec}
use deep_seek_harness_x.Session.Events.{SessionEnvelope}
use deep_seek_harness_x.Session.Surface.{
  Outcome, SurfaceFoldReplacement, SurfaceFoldState, SurfacePlan, empty_state, plan_surface_event,
  apply_surface_plan, apply_surface_event, fold_from, fold_surface, push_replacement,
}
use deep_seek_harness_x.Session.Surface.Window.{InWindow, fold_from-InWindow}
use deep_seek_harness_x.Session.Surface.Extend.{
  fold_from-append, fold_from-extend, plan_surface_event-extend,
}
use deep_seek_harness_x.Session.Manager.{
  Address, Heap, SurfaceManager, tail_seq, nodes, replace_generation, keep_plan, plan_next,
  after_delta, validate_next,
}
use deep_seek_harness_x.Session.Manager.Refines.{
  Synced, IsSynced, Reaches, all_folded, stopped, process_delta-Reaches,
}

keep_plan_lem :
    {A B : Type 0} (m : SurfaceManager) (a : Address) (f : Option SurfacePlan → A) (g : A → B)
    (o : Outcome (Option SurfacePlan))
    → (keep_plan m a o).1 ≡ (((o >>= λ p. ok (f p)) >>= λ r. ok (g r)) >>= λ _. ok tt)
unfolding keep_plan
keep_plan_lem m a f g (ok p) = refl
keep_plan_lem m a f g (err e) = refl

tail_position :
    (base : ℤ) (k n : ℕ)
    → k ≤ n
    → ltb_ℤ (base +ℤ pos k -ℤ pos 1) (base +ℤ pos n -ℤ pos 1) ≡ false
    → k ≡ n
tail_position base k n le h = ground (
  arith,
  +ℤ_parts base (pos k),
  +ℤ_parts base (pos n),
  -ℤ_parts (base +ℤ pos k) (pos 1),
  -ℤ_parts (base +ℤ pos n) (pos 1),
)

module _ (c : Codec) (heap : Heap) (log : List Address) (base : ℤ) where
  whole_folded :
      {m : SurfaceManager} (s : Synced c heap log base (length log) m)
      → fold_from c (map heap log) base (map heap log) 0 empty_state []
        ≡ ok (m.state, s.replacements)
  whole_folded s =
      let e : take (length log) (map heap log) ≡ map heap log =
        ap (λ n. take n (map heap log)) (sym (length-map heap log)) ∙ take-all (map heap log) in
      ap (λ xs. fold_from c (map heap log) base xs 0 empty_state []) (sym e) ∙ s.folded

  Reaches-IsSynced :
      {r : SurfaceManager × Outcome Unit} → Reaches c heap log base r → IsSynced c heap log base r.0
  Reaches-IsSynced (all_folded s) = (length log, s)
  Reaches-IsSynced (stopped f s e) = s

  -- Any reading of the folded state agrees with the same reading of the fold.
  Reaches-read :
      {A : Type 0} (read : SurfaceFoldState → A) {r : SurfaceManager × Outcome Unit}
      → Reaches c heap log base r
      → (r.1 >>= λ _. ok (read r.0.state))
        ≡ (fold_from c (map heap log) base (map heap log) 0 empty_state [] >>= λ x. ok (read x.0))
  Reaches-read read (all_folded s) = rw (whole_folded s) refl
  Reaches-read read (stopped f s e) = rw e refl

  -- Nodes of a manager that is in step with its log returns what the fold of the whole log returns,
  -- the same nodes or the same error.
  pub nodes-refines-fold_surface :
      (m : SurfaceManager)
      → IsSynced c heap log base m
      → (nodes c heap m).1 ≡ (fold_surface c (map heap log) base >>= λ r. ok r.nodes)
  unfolding nodes fold_surface
  nodes-refines-fold_surface m (k, s) =
      Reaches-read (λ st. st.nodes) (process_delta-Reaches c heap log base k m s)
      ∙ sym (bind_assoc (fold_from c (map heap log) base (map heap log) 0 empty_state []) _ _)

  -- ReplaceGeneration of a manager that is in step with its log returns the count of replacements of the
  -- fold of the whole log, or its error.
  pub replace_generation-refines-fold_surface :
      (m : SurfaceManager)
      → IsSynced c heap log base m
      → (replace_generation c heap m).1
        ≡ (fold_surface c (map heap log) base >>= λ r. ok r.replace_generation)
  unfolding replace_generation fold_surface
  replace_generation-refines-fold_surface m (k, s) =
      Reaches-read (λ st. st.replace_generation) (process_delta-Reaches c heap log base k m s)
      ∙ sym (bind_assoc (fold_from c (map heap log) base (map heap log) 0 empty_state []) _ _)

  pub nodes-IsSynced :
      (m : SurfaceManager)
      → IsSynced c heap log base m
      → IsSynced c heap log base (nodes c heap m).0
  unfolding nodes
  nodes-IsSynced m (k, s) = Reaches-IsSynced (process_delta-Reaches c heap log base k m s)

  one_event :
      (evs : List (Option SessionEnvelope)) (o : Option SessionEnvelope) (state : SurfaceFoldState)
      (rs : List SurfaceFoldReplacement)
      → All (InWindow base (length evs)) state.nodes
      → fold_from c (evs ++ o ∷ []) base (o ∷ []) (length log) state rs ≡ (
          plan_surface_event c state o (base +ℤ pos (length log)) evs base >>= λ p.
          ok ((apply_surface_plan state p).0, push_replacement rs (apply_surface_plan state p).1))
  unfolding fold_from apply_surface_event
  one_event evs o state rs w =
      rw
        (plan_surface_event-extend c evs base (o ∷ []) (length evs) (omega arith) state o
          (base +ℤ pos (length log)) w)
        (bind_assoc (plan_surface_event c state o (base +ℤ pos (length log)) evs base) _ _)

  -- The fold of the log with one event more.
  fold_one_more :
      (a : Address)
      → fold_from c (map heap (log ++ a ∷ [])) base (map heap (log ++ a ∷ [])) 0 empty_state [] ≡ (
          fold_from c (map heap log) base (map heap log) 0 empty_state [] >>= λ r.
          plan_surface_event c r.0 (heap a) (base +ℤ pos (length log)) (map heap log) base >>= λ p.
          ok ((apply_surface_plan r.0 p).0, push_replacement r.1 (apply_surface_plan r.0 p).1))
  fold_one_more a =
      let evs = map heap log in
      let e : 0 + length evs ≡ length log = omega (arith, length-map heap log) in
      rw (map-append heap log (a ∷ [])) (
        fold_from-append c (evs ++ heap a ∷ []) base evs (heap a ∷ []) 0 empty_state []
        ∙ ap
            (λ m. m >>= λ r.
              fold_from c (evs ++ heap a ∷ []) base (heap a ∷ []) (0 + length evs) r.0 r.1)
            (fold_from-extend c evs base (heap a ∷ []) evs 0 empty_state [] (omega arith) tt)
        ∙ bind-cong (fold_from c evs base evs 0 empty_state []) _ _ λ r h.
          let w : All (InWindow base (length evs)) r.0.nodes =
            subst (λ n. All (InWindow base n) r.0.nodes) (omega arith)
              (fold_from-InWindow c evs base evs 0 empty_state [] h tt) in
          rw e (one_event evs (heap a) r.0 r.1 w))

  module _ (m : SurfaceManager) (a : Address) (s : Synced c heap log base (length log) m) where
    plan_next-keep_plan :
        plan_next c heap m a
        ≡ keep_plan m a
            (plan_surface_event c m.state (heap a) (base +ℤ pos (length log)) (map heap log) base)
    unfolding plan_next
    plan_next-keep_plan = ap (keep_plan m a) (simp (s.same_log, s.same_base))

    plan_next-one_more :
        (plan_next c heap m a).1 ≡ (fold_surface c (map heap (log ++ a ∷ [])) base >>= λ _. ok tt)
    unfolding fold_surface
    plan_next-one_more =
        rw (plan_next-keep_plan, fold_one_more a, whole_folded s) (keep_plan_lem m a _ _ _)

    plan_next-IsSynced : IsSynced c heap log base (plan_next c heap m a).0
    plan_next-IsSynced = rw plan_next-keep_plan (kept _ refl)
      where
        kept :
            (o : Outcome (Option SurfacePlan))
            → plan_surface_event c m.state (heap a) (base +ℤ pos (length log)) (map heap log) base
              ≡ o
            → IsSynced c heap log base (keep_plan m a o).0
        kept (err f) h = unfold keep_plan in (length log, s)
        kept (ok p) h =
            unfold keep_plan in
            (
              length log,
              record {
                same_log = s.same_log;
                same_base = s.same_base;
                in_log = s.in_log;
                processed = s.processed;
                replacements = s.replacements;
                folded = s.folded;
                pending = λ q e. (a, refl, cc (h, e));
              },
            )

  after_delta_lem :
      (a : Address) {r : SurfaceManager × Outcome Unit}
      → Reaches c heap log base r
      → ((after_delta c heap a r).1
          ≡ (fold_surface c (map heap (log ++ a ∷ [])) base >>= λ _. ok tt))
        × IsSynced c heap log base (after_delta c heap a r).0
  unfolding after_delta
  after_delta_lem a (all_folded {m} s) = (plan_next-one_more m a s, plan_next-IsSynced m a s)
  after_delta_lem a (stopped {m} f s e) = (unfold fold_surface in rw (fold_one_more a, e) refl, s)

  -- At the tail nothing is left to process.
  at_tail :
      (k : ℕ) (m : SurfaceManager)
      → Synced c heap log base k m
      → ltb_ℤ m.last_processed (tail_seq m) ≡ false
      → k ≡ length log
  unfolding tail_seq
  at_tail k m s h =
      tail_position base k (length log) s.in_log (simp (s.same_log, s.same_base, s.processed) at h)

  validate_next_lem :
      (m : SurfaceManager) (a : Address)
      → IsSynced c heap log base m
      → ((validate_next c heap m a).1
          ≡ (fold_surface c (map heap (log ++ a ∷ [])) base >>= λ _. ok tt))
        × IsSynced c heap log base (validate_next c heap m a).0
  unfolding validate_next
  validate_next_lem m a (k, s) = elim (Bool-cases (ltb_ℤ m.last_processed (tail_seq m))) [
    | inl behind ↦ rw behind (after_delta_lem a (process_delta-Reaches c heap log base k m s))
    | inr level ↦
        let s' = rw (at_tail k m s level) at s in
        rw level (plan_next-one_more m a s', plan_next-IsSynced m a s')
  ]

  -- ValidateNext of a manager that is in step with its log accepts an event exactly if the log with
  -- that event at its end folds, and rejects it with the error of that fold.
  pub validate_next-refines-fold_surface :
      (m : SurfaceManager) (a : Address)
      → IsSynced c heap log base m
      → (validate_next c heap m a).1
        ≡ (fold_surface c (map heap (log ++ a ∷ [])) base >>= λ _. ok tt)
  validate_next-refines-fold_surface m a s = (validate_next_lem m a s).0

  -- ValidateNext keeps the manager in step with its log, whether it accepts the event or not.
  pub validate_next-IsSynced :
      (m : SurfaceManager) (a : Address)
      → IsSynced c heap log base m
      → IsSynced c heap log base (validate_next c heap m a).0
  validate_next-IsSynced m a s = (validate_next_lem m a s).1
