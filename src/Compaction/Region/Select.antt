-- ===== src/Compaction/Region/Select.antt =====
-- What SelectCompactableRange of compactor.go guarantees of the span that it proposes.
use deep_seek_harness_x.Prelude.{
  ℕ, zero, suc, ◌+◌, ◌≤◌, ◌<◌, ◌≡◌, refl, sym, ap, ◌∙◌, true, Option, some, List, [], ◌∷◌, ok,
  ok-injective, >>=-eq-ok, length, get_elem?, get_elem?-lt, drop, arith, Bool-cases, Option-cases,
  inl, inr, ◌⊎◌, All, ◌==◌, ==_iff,
}
use deep_seek_harness_x.Prelude.Int.{ℤ, pos, ◌+ℤ◌, ◌=ℤ◌, ◌≤ℤ◌, =ℤ_refl, leb_ℤ, int_laws, +ℤ_parts}
use deep_seek_harness_x.Session.Events.{SessionEnvelope}
use deep_seek_harness_x.Session.Messages.{Decoder}
use deep_seek_harness_x.Session.Surface.{index_of, slice}
use deep_seek_harness_x.Session.Surface.Partition.{count}
use deep_seek_harness_x.Compaction.Pairing.{balanced_before}
use deep_seek_harness_x.Compaction.Pairing.Balance.{
  balanced_before-balance, balanced_after-before, balance-balanced_before, cut_balances-head,
}
use deep_seek_harness_x.Compaction.Region.{
  Meter, SurfaceSpan, SurfaceSelection, lift_pairing, measure, price_at, price_tail, back_off,
  span_to, select_priced, select_compactable_range, check_boundaries, located,
  validate_surface_region,
}
use deep_seek_harness_x.Compaction.Region.Validate.{lift_pairing-eq-ok}

count-get_elem? : (q : ℤ) (xs : List ℤ) (i : ℕ) → get_elem? xs i ≡ some q → 1 ≤ count q xs
count-get_elem? q [] i h = cc
count-get_elem? q (x ∷ xs) zero h = let e : x ≡ q = cc in rw (e, =ℤ_refl q) (omega arith)
count-get_elem? q (x ∷ xs) (suc i) h = omega (arith, count-get_elem? q xs i h)

-- On a list without repetitions a seq is found where it stands.
pub index_of-get_elem? :
    (q : ℤ) (xs : List ℤ) (i : ℕ)
    → count q xs ≤ 1
    → get_elem? xs i ≡ some q
    → index_of q xs ≡ some i
unfolding index_of
index_of-get_elem? q [] i le h = cc
index_of-get_elem? q (x ∷ xs) zero le h = let e : x ≡ q = cc in rw (e, =ℤ_refl q) refl
index_of-get_elem? q (x ∷ xs) (suc i) le h = elim (Bool-cases (x =ℤ q)) [
  | inl here ↦
      let two : 1 + count q xs ≤ 1 = rw here at le in
      absurd (omega (arith, count-get_elem? q xs i h))
  | inr other ↦
      let le' : 0 + count q xs ≤ 1 = rw other at le in
      rw (other, index_of-get_elem? q xs i (omega arith) h) refl
]

-- The price of some nodes together.
abbrev pub sum_prices : List ℤ → ℤ
sum_prices [] = pos 0
sum_prices (x ∷ xs) = x +ℤ sum_prices xs

sum_prices-drop :
    (xs : List ℤ) (i : ℕ)
    → i < length xs
    → sum_prices (drop i xs) ≡ price_at xs i +ℤ sum_prices (drop (suc i) xs)
sum_prices-drop [] i h = absurd (omega arith)
sum_prices-drop (x ∷ xs) zero h = refl
sum_prices-drop (x ∷ xs) (suc i) h = sum_prices-drop xs i (omega arith)

+ℤ_comm : (a b : ℤ) → a +ℤ b ≡ b +ℤ a
+ℤ_comm a b = omega int_laws

drop-length : (xs : List ℤ) → drop (length xs) xs ≡ []
drop-length [] = refl
drop-length (x ∷ xs) = drop-length xs

-- The price loop leaves all of the tail out, or a tail that meets the budget.
price_tail_lem :
    (retain : ℤ) (priced : List ℤ) (n : ℕ)
    → n ≤ length priced
    → let k = price_tail retain priced (sum_prices (drop n priced)) n in
      (k ≤ n) × (0 < n → k < n) × ((k ≡ 0) ⊎ (retain ≤ℤ sum_prices (drop k priced)))
unfolding price_tail
price_tail_lem retain priced zero le = (omega arith, λ lt. absurd (omega arith), inl refl)
price_tail_lem retain priced (suc n) le =
    let e : sum_prices (drop (suc n) priced) +ℤ price_at priced n ≡ sum_prices (drop n priced) =
      +ℤ_comm (sum_prices (drop (suc n) priced)) (price_at priced n)
      ∙ sym (sum_prices-drop priced n (omega arith)) in
    rw e (elim (Bool-cases (leb_ℤ retain (sum_prices (drop n priced)))) [
      | inl met ↦ rw met (omega arith, λ _. omega arith, inr (ground (arith, met)))
      | inr short ↦
          let ih = price_tail_lem retain priced n (omega arith) in
          rw short (omega (arith, ih.0), λ _. omega (arith, ih.0), ih.2)
    ])

sum_prices-drop_mono :
    (xs : List ℤ) (i j : ℕ)
    → All (λ x. pos 0 ≤ℤ x) xs
    → i ≤ j
    → sum_prices (drop j xs) ≤ℤ sum_prices (drop i xs)
sum_prices-drop_mono [] zero zero w le = omega arith
sum_prices-drop_mono [] zero (suc j) w le = omega arith
sum_prices-drop_mono [] (suc i) zero w le = absurd (omega arith)
sum_prices-drop_mono [] (suc i) (suc j) w le = omega arith
sum_prices-drop_mono (x ∷ xs) zero zero w le = omega arith
sum_prices-drop_mono (x ∷ xs) zero (suc j) w le =
    omega (arith, +ℤ_parts x (sum_prices xs), sum_prices-drop_mono xs zero j w.1, w.0)
sum_prices-drop_mono (x ∷ xs) (suc i) zero w le = absurd (omega arith)
sum_prices-drop_mono (x ∷ xs) (suc i) (suc j) w le = sum_prices-drop_mono xs i j w.1 (omega arith)

-- The cut is moved back to the last balanced one, or to the start of the surface.
back_off_lem :
    (d : Decoder) (events : List SessionEnvelope) (nodes : List ℤ) (n : ℕ) {k : ℕ}
    → back_off d events nodes n ≡ ok k
    → (k ≤ n) × ((k ≡ 0) ⊎ (balanced_before d events nodes (pos k) ≡ ok true))
unfolding back_off
back_off_lem d events nodes zero h = (omega (arith, ok-injective h), inl (sym (ok-injective h)))
back_off_lem d events nodes (suc n) h =
    let (b, h1, h2) = >>=-eq-ok (lift_pairing (balanced_before d events nodes (pos (suc n)))) _ h in
    elim (Bool-cases b) [
      | inl on ↦
          let e = ok-injective (rw on at h2) in
          rw (← e) (omega arith, inr (lift_pairing-eq-ok _ h1 ∙ ap ok on))
      | inr off ↦
          let ih = back_off_lem d events nodes n (rw off at h2) in (omega (arith, ih.0), ih.1)
    ]

-- A proposed span: it runs from the head of the surface through position `last`, with a balanced cut
-- and the tail that is retained behind it.
record Proposed (d : Decoder) (retain : ℤ) (events : List SessionEnvelope) (nodes priced : List ℤ)
    (span : SurfaceSpan) : Type 0 where
  last : ℕ
  starts : get_elem? nodes 0 ≡ some span.start
  ends : get_elem? nodes last ≡ some span.end
  cut_balanced : balanced_before d events nodes (pos (suc last)) ≡ ok true
  tail_left : suc last < length nodes
  tail_priced : All (λ x. pos 0 ≤ℤ x) priced → retain ≤ℤ sum_prices (drop (suc last) priced)

span_to_lem :
    (nodes : List ℤ) (keep : ℕ) {span : SurfaceSpan}
    → span_to nodes keep ≡ some span
    → (last : ℕ) × (keep ≡ suc last)
      × (get_elem? nodes 0 ≡ some span.start)
      × (get_elem? nodes last ≡ some span.end)
unfolding span_to
span_to_lem nodes zero h = cc
span_to_lem [] (suc last) h = cc
span_to_lem (q ∷ qs) (suc last) {span} h = elim (Option-cases (get_elem? (q ∷ qs) last)) [
  | inl n ↦ ground (arith, n)
  | inr (t, n) ↦ (last, refl, ground (arith, n), ground (arith, n))
]

module _ (d : Decoder) (retain : ℤ) (events : List SessionEnvelope) (nodes priced : List ℤ)
    {span : SurfaceSpan} where
  kept-Proposed :
      (n keep last : ℕ)
      → keep ≡ suc last
      → get_elem? nodes 0 ≡ some span.start
      → get_elem? nodes last ≡ some span.end
      → keep ≤ n
      → (keep ≡ 0) ⊎ (balanced_before d events nodes (pos keep) ≡ ok true)
      → (0 < length nodes → n < length nodes)
      → (n ≡ 0) ⊎ (retain ≤ℤ sum_prices (drop n priced))
      → Proposed d retain events nodes priced span
  kept-Proposed n keep last e starts ends le cut lt met = record {
    last = last;
    starts = starts;
    ends = ends;
    cut_balanced = elim cut [ inl z ↦ absurd (omega (arith, z, e)) | inr b ↦ rw e at b ];
    tail_left = omega (arith, lt (omega (arith, get_elem?-lt nodes last ends)), e);
    tail_priced = λ w. elim met [
      | inl z ↦ absurd (omega (arith, z, e))
      | inr enough ↦
          omega (arith, enough, sum_prices-drop_mono priced (suc last) n w (omega (arith, e)))
    ];
  }

  select_priced-Proposed :
      select_priced d retain events nodes priced ≡ ok (some span)
      → Proposed d retain events nodes priced span
  unfolding select_priced
  select_priced-Proposed h = elim (Bool-cases (length priced == length nodes)) [
    | inr differ ↦ ground (arith, differ)
    | inl match ↦
        let same = (==_iff (length priced) (length nodes)).0 match in
        let n = price_tail retain priced (pos 0) (length nodes) in
        let (keep, h1, h2) = >>=-eq-ok (back_off d events nodes n) _ (rw match at h) in
        let (last, h3, h4, h5) = span_to_lem nodes keep (ok-injective h2) in
        let back = back_off_lem d events nodes n h1 in
        let tail =
          rw (drop-length priced, same) at
            (price_tail_lem retain priced (length priced) (omega arith)) in
        kept-Proposed n keep last h3 h4 h5 back.0 back.1 tail.1 tail.2
  ]

select-Proposed :
    (d : Decoder) (meter : Option Meter) (retain : ℤ) (events : List SessionEnvelope)
    (nodes : List ℤ) {span : SurfaceSpan}
    → select_compactable_range d meter retain events nodes ≡ ok (some span)
    → (priced : List ℤ) × (measure meter events nodes ≡ ok priced)
      × Proposed d retain events nodes priced span
unfolding select_compactable_range
select-Proposed d meter retain events [] h = cc
select-Proposed d meter retain events (q ∷ qs) h =
    let (priced, h1, h2) = >>=-eq-ok (measure meter events (q ∷ qs)) _ h in
    (priced, h1, select_priced-Proposed d retain events (q ∷ qs) priced h2)

-- The selection that a proposed span validates to.
abbrev pub head_selection : List ℤ → SurfaceSpan → ℕ → SurfaceSelection
head_selection nodes span last = record {
  span = span;
  start_idx = 0;
  end_idx = last;
  shadowed_seqs = slice nodes 0 last;
}

Proposed-validates :
    (d : Decoder) (retain : ℤ) (events : List SessionEnvelope) (nodes priced : List ℤ)
    {span : SurfaceSpan}
    → ((q : ℤ) → count q nodes ≤ 1)
    → (p : Proposed d retain events nodes priced span)
    → validate_surface_region d events nodes span.start span.end
      ≡ ok (head_selection nodes span p.last)
unfolding validate_surface_region located check_boundaries
Proposed-validates d retain events nodes priced {span} distinct p =
    let (bs, b1, b2) = balanced_before-balance d events nodes (suc p.last) p.cut_balanced in
    rw
      (
        index_of-get_elem? span.start nodes 0 (distinct span.start) p.starts,
        index_of-get_elem? span.end nodes p.last (distinct span.end) p.ends,
        balance-balanced_before d events nodes 0 b1 (cut_balances-head d events nodes b1),
        balanced_after-before d events nodes p.last,
        p.cut_balanced,
      )
      (ground arith)

-- Over a surface without repetitions, a span that SelectCompactableRange proposes passes
-- ValidateSurfaceRegion, as the region from the head of the surface through some position that is
-- not the last: a tail is always left.
pub select_compactable_range-validates :
    (d : Decoder) (meter : Option Meter) (retain : ℤ) (events : List SessionEnvelope)
    (nodes : List ℤ) (span : SurfaceSpan)
    → ((q : ℤ) → count q nodes ≤ 1)
    → select_compactable_range d meter retain events nodes ≡ ok (some span)
    → (last : ℕ) × (validate_surface_region d events nodes span.start span.end
        ≡ ok (head_selection nodes span last))
      × (suc last < length nodes)
select_compactable_range-validates d meter retain events nodes span distinct h =
    let (priced, _, p) = select-Proposed d meter retain events nodes h in
    (p.last, Proposed-validates d retain events nodes priced distinct p, p.tail_left)

-- Over a surface without repetitions, whose nodes the meter gives no negative price, the tail that a
-- proposed span leaves on the surface is priced at the retained budget or more.
pub select_compactable_range-retains :
    (d : Decoder) (meter : Option Meter) (retain : ℤ) (events : List SessionEnvelope)
    (nodes : List ℤ) (span : SurfaceSpan) (priced : List ℤ)
    → ((q : ℤ) → count q nodes ≤ 1)
    → select_compactable_range d meter retain events nodes ≡ ok (some span)
    → measure meter events nodes ≡ ok priced
    → All (λ x. pos 0 ≤ℤ x) priced
    → (last : ℕ) × (validate_surface_region d events nodes span.start span.end
        ≡ ok (head_selection nodes span last))
      × (retain ≤ℤ sum_prices (drop (suc last) priced))
select_compactable_range-retains d meter retain events nodes span priced distinct h measured w =
    let (priced', h1, p) = select-Proposed d meter retain events nodes h in
    let same : priced' ≡ priced = ok-injective (sym h1 ∙ measured) in
    (
      p.last,
      Proposed-validates d retain events nodes priced' distinct p,
      (rw same at p.tail_priced) w,
    )
