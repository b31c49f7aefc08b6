-- ===== src/Compaction/Pairing/Balance.antt =====
-- Cutting a balanced surface, and putting a message in place of a span between two balanced cuts.
use deep_seek_harness_x.Prelude.{
  ℕ, zero, suc, ◌≤◌, ◌<◌, ◌≡◌, refl, ap, ◌∙◌, subst, Bool, true, false, Option, none, some, List,
  [], ◌∷◌, ◌++◌, str_eq, if◌then◌else◌, Result, ok, ◌>>=◌, ok-injective, >>=-eq-ok, length,
  bind-cong, All-take, All-drop, drop-get_elem?, get_elem?, take, drop, arith, eq_iff, All,
}
use deep_seek_harness_x.Prelude.Int.{ℤ, pos, ◌+ℤ◌, ◌=ℤ◌, =ℤ_iff, =ℤ_refl, int_laws}
use deep_seek_harness_x.Session.Events.{SessionEnvelope, event_user_message}
use deep_seek_harness_x.Session.Messages.{Decoder}
use deep_seek_harness_x.Compaction.Pairing.{
  PairingError, at_cut, balanced_before, balanced_after, event_tool_delta, by_seq, advance,
  balances_from, cut_balances,
}

-- A cut is balanced only with no call in progress.
balanced-zero : {o : Option Bool} (m : ℤ) → o ≡ some (m =ℤ pos 0) → o ≡ some true → m ≡ pos 0
balanced-zero m h t = (=ℤ_iff m (pos 0)).0 (cc (h, t))

module _ (d : Decoder) where
  -- The calls in progress after some surface seqs.
  pub progress : List SessionEnvelope → ℤ → List ℤ → Result PairingError ℤ
  progress events p [] = ok p
  progress events p (q ∷ qs) = advance d events p q >>= λ p'. progress events p' qs

  -- A surface cut before position `i`: `mid` calls are in progress there.
  pub record Cut (events : List SessionEnvelope) (p : ℤ) (nodes : List ℤ) (bs : List Bool) (i : ℕ)
      : Type 0 where
    pub mid : ℤ
    pub reached : progress events p (take i nodes) ≡ ok mid
    pub before : balances_from d events p (take i nodes) ≡ ok (take i bs)
    pub balance : get_elem? ((p =ℤ pos 0) ∷ bs) i ≡ some (mid =ℤ pos 0)
    pub after : balances_from d events mid (drop i nodes) ≡ ok (drop i bs)

  pub balances_from-Cut :
      (events : List SessionEnvelope) (p : ℤ) (nodes : List ℤ) (bs : List Bool) (i : ℕ)
      → balances_from d events p nodes ≡ ok bs
      → i ≤ length nodes
      → Cut events p nodes bs i
  unfolding balances_from progress
  balances_from-Cut events p nodes bs zero h le = record {
    mid = p;
    reached = refl;
    before = refl;
    balance = refl;
    after = h;
  }
  balances_from-Cut events p [] bs (suc i) h le = absurd (omega arith)
  balances_from-Cut events p (q ∷ qs) bs (suc i) h le =
      let (p', h1, h2) = >>=-eq-ok (advance d events p q) _ h in
      let (rest, h3, h4) = >>=-eq-ok (balances_from d events p' qs) _ h2 in
      let tail = balances_from-Cut events p' qs rest i h3 (omega arith) in
      subst (λ bs. Cut events p (q ∷ qs) bs (suc i)) (ok-injective h4)
        (record {
          mid = tail.mid;
          reached = rw h1 tail.reached;
          before = rw (h1, tail.before) refl;
          balance = tail.balance;
          after = tail.after;
        })

  pub balances_from-append :
      (events : List SessionEnvelope) (p : ℤ) (xs ys : List ℤ) {m : ℤ} {bs cs : List Bool}
      → progress events p xs ≡ ok m
      → balances_from d events p xs ≡ ok bs
      → balances_from d events m ys ≡ ok cs
      → balances_from d events p (xs ++ ys) ≡ ok (bs ++ cs)
  unfolding balances_from progress
  balances_from-append events p [] ys {cs = cs} hm hb hc =
      rw (ok-injective hm, hc, ← ok-injective hb) refl
  balances_from-append events p (x ∷ xs) ys {cs = cs} hm hb hc =
      let (p', h1, h2) = >>=-eq-ok (advance d events p x) _ hb in
      let (rest, h3, h4) = >>=-eq-ok (balances_from d events p' xs) _ h2 in
      rw (h1, balances_from-append events p' xs ys (rw h1 at hm) h3 hc, ← ok-injective h4) refl

  by_seq-append :
      (q : ℤ) (events : List SessionEnvelope) (e : SessionEnvelope)
      → by_seq q (events ++ e ∷ []) ≡ (if e.seq =ℤ q then some e else by_seq q events)
  unfolding by_seq
  by_seq-append q [] e = refl
  by_seq-append q (x ∷ xs) e = ground (arith, by_seq-append q xs e)

  module _ (events : List SessionEnvelope) (e : SessionEnvelope) where
    advance-append :
        (p q : ℤ) → (e.seq =ℤ q) ≡ false → advance d (events ++ e ∷ []) p q ≡ advance d events p q
    unfolding advance
    advance-append p q h = rw (by_seq-append q events e, h) refl

    -- An event that is not on the surface changes no balance.
    pub progress-append :
        (p : ℤ) (nodes : List ℤ)
        → All (λ q. (e.seq =ℤ q) ≡ false) nodes
        → progress (events ++ e ∷ []) p nodes ≡ progress events p nodes
    unfolding progress
    progress-append p [] h = refl
    progress-append p (q ∷ qs) h =
        rw (advance-append p q h.0)
          (bind-cong (advance d events p q) _ _ λ p' _. progress-append p' qs h.1)

    pub balances_from-extend :
        (p : ℤ) (nodes : List ℤ)
        → All (λ q. (e.seq =ℤ q) ≡ false) nodes
        → balances_from d (events ++ e ∷ []) p nodes ≡ balances_from d events p nodes
    unfolding balances_from
    balances_from-extend p [] h = refl
    balances_from-extend p (q ∷ qs) h =
        rw (advance-append p q h.0)
          (bind-cong (advance d events p q) _ _ λ p' _. rw (balances_from-extend p' qs h.1) refl)

    -- A user message at a balanced cut leaves no call in progress.
    advance-message :
        str_eq e.event_type event_user_message ≡ true
        → advance d (events ++ e ∷ []) (pos 0) e.seq ≡ ok (pos 0)
    unfolding advance event_tool_delta ◌+ℤ◌
    advance-message h =
        let is_user = (eq_iff e.event_type event_user_message).0 h in
        rw (by_seq-append e.seq events e, =ℤ_refl e.seq, is_user) refl

  module _ (events : List SessionEnvelope) (nodes : List ℤ) (bs : List Bool) (i j : ℕ)
      (e : SessionEnvelope) (balances : balances_from d events (pos 0) nodes ≡ ok bs) (le : i ≤ j)
      (in_range : j < length nodes) (start_balanced : get_elem? (true ∷ bs) i ≡ some true)
      (end_balanced : get_elem? (true ∷ bs) (suc j) ≡ some true)
      (message : str_eq e.event_type event_user_message ≡ true)
      (new_seq : All (λ q. (e.seq =ℤ q) ≡ false) nodes) where
    balances-splice :
        balances_from d (events ++ e ∷ []) (pos 0) (take i nodes ++ e.seq ∷ drop (suc j) nodes)
        ≡ ok (take i bs ++ true ∷ drop (suc j) bs)
    unfolding balances_from
    balances-splice =
        let left = balances_from-Cut events (pos 0) nodes bs i balances (omega arith) in
        let right = balances_from-Cut events (pos 0) nodes bs (suc j) balances (omega arith) in
        let at_left = balanced-zero left.mid left.balance start_balanced in
        let at_right = balanced-zero right.mid right.balance end_balanced in
        balances_from-append (events ++ e ∷ []) (pos 0) (take i nodes) (e.seq ∷ drop (suc j) nodes)
          (progress-append events e (pos 0) (take i nodes) (All-take _ i nodes new_seq)
            ∙ left.reached
            ∙ ap ok at_left)
          (balances_from-extend events e (pos 0) (take i nodes) (All-take _ i nodes new_seq)
            ∙ left.before)
          (rw
            (
              advance-message events e message,
              balances_from-extend events e (pos 0) (drop (suc j) nodes)
                  (All-drop _ (suc j) nodes new_seq),
              ← at_right,
              right.after,
            )
            refl)

  -- A span between two balanced cuts can be replaced by one user message with a seq of its own: the
  -- new surface has the balances of the old one up to the first cut and from the second cut on.
  pub cut_balances-splice :
      (events : List SessionEnvelope) (nodes : List ℤ) (balances : List Bool) (i j : ℕ)
      (e : SessionEnvelope)
      → cut_balances d events nodes ≡ ok balances
      → i ≤ j
      → j < length nodes
      → get_elem? balances i ≡ some true
      → get_elem? balances (suc j) ≡ some true
      → str_eq e.event_type event_user_message ≡ true
      → All (λ q. (e.seq =ℤ q) ≡ false) nodes
      → cut_balances d (events ++ e ∷ []) (take i nodes ++ e.seq ∷ drop (suc j) nodes)
        ≡ ok (take (suc i) balances ++ drop (suc j) balances)
  unfolding cut_balances
  cut_balances-splice events nodes balances i j e h le lt hi hj message new_seq =
      let (bs, h1, h2) = >>=-eq-ok (balances_from d events (pos 0) nodes) _ h in
      let whole = ok-injective h2 in
      let hi' = rw (← whole) at hi in
      let hj' = rw (← whole) at hj in
      rw
        (
          ← whole,
          balances-splice events nodes bs i j e h1 le lt hi' hj' message new_seq,
          drop-get_elem? j bs hj',
        )
        refl

  at_cut-eq-ok : (o : Option Bool) {b : Bool} → at_cut o ≡ ok b → o ≡ some b
  unfolding at_cut
  at_cut-eq-ok none h = cc
  at_cut-eq-ok (some a) h = rw (ok-injective h) refl

  pos-suc : (j : ℕ) → pos j +ℤ pos 1 ≡ pos (suc j)
  pos-suc j = omega int_laws

  -- The balance that the cut before a position was found to have.
  pub balanced_before-balance :
      (events : List SessionEnvelope) (nodes : List ℤ) (i : ℕ) {b : Bool}
      → balanced_before d events nodes (pos i) ≡ ok b
      → (bs : List Bool) × (cut_balances d events nodes ≡ ok bs) × (get_elem? bs i ≡ some b)
  unfolding balanced_before
  balanced_before-balance events nodes i h =
      let (bs, h1, h2) = >>=-eq-ok (cut_balances d events nodes) _ h in
      (bs, h1, at_cut-eq-ok (get_elem? bs i) h2)

  pub balanced_after-before :
      (events : List SessionEnvelope) (nodes : List ℤ) (j : ℕ)
      → balanced_after d events nodes (pos j) ≡ balanced_before d events nodes (pos (suc j))
  unfolding balanced_after balanced_before
  balanced_after-before events nodes j = rw (pos-suc j) refl

  pub balance-balanced_before :
      (events : List SessionEnvelope) (nodes : List ℤ) (i : ℕ) {b : Bool} {bs : List Bool}
      → cut_balances d events nodes ≡ ok bs
      → get_elem? bs i ≡ some b
      → balanced_before d events nodes (pos i) ≡ ok b
  unfolding balanced_before at_cut
  balance-balanced_before events nodes i h g = rw (h, g) refl

  -- The cut before the surface is balanced.
  pub cut_balances-head :
      (events : List SessionEnvelope) (nodes : List ℤ) {bs : List Bool}
      → cut_balances d events nodes ≡ ok bs
      → get_elem? bs 0 ≡ some true
  unfolding cut_balances
  cut_balances-head events nodes h =
      let (rest, h1, h2) = >>=-eq-ok (balances_from d events (pos 0) nodes) _ h in
      rw (← ok-injective h2) refl
