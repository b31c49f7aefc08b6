-- ===== src/Schedule/Due/Least.antt =====
-- backend/pkg/tools/schedule_runtime.go: the earliest of the schedules that a test keeps, for the choices of decideDue.
use mathlib.Core.List.{Memᴰ}
use deep_seek_harness_x.Prelude.{
  Bool, true, false, ◌≡◌, ◌≢◌, ap, sym, ◌∙◌, subst, ◌⊎◌, inl, inr, List, [], ◌∷◌, Option, none,
  some, some-injective, Bool-cases, Option-cases, if◌then◌else◌, arith,
}
use deep_seek_harness_x.Prelude.Int.{ltb_ℤ, ◌≤ℤ◌}
use deep_seek_harness_x.Schedule.{SessionScheduleRecord}
use deep_seek_harness_x.Schedule.Due.{earlier}

earlier-none :
    (best : Option SessionScheduleRecord) (x : SessionScheduleRecord) → earlier best x ≢ none
earlier-none none x h = cc
earlier-none (some b) x h = ground (arith, h)

earlier-some :
    (best : Option SessionScheduleRecord) (x b : SessionScheduleRecord)
    → earlier best x ≡ some b
    → (best ≡ some b) ⊎ (b ≡ x)
earlier-some none x b h = inr (sym (some-injective h))
earlier-some (some c) x b h = elim (Bool-cases (ltb_ℤ x.scheduled_at c.scheduled_at)) [
  | inl before ↦ inr (sym (some-injective (rw before at h)))
  | inr behind ↦ inl (rw behind at h)
]

same-le : (a b : SessionScheduleRecord) → a ≡ b → b.scheduled_at ≤ℤ a.scheduled_at
same-le a b same = subst (λ r. r.scheduled_at ≤ℤ a.scheduled_at) same (omega arith)

earlier-le :
    (c x b : SessionScheduleRecord)
    → earlier (some c) x ≡ some b
    → (b.scheduled_at ≤ℤ x.scheduled_at) × (b.scheduled_at ≤ℤ c.scheduled_at)
earlier-le c x b h = elim (Bool-cases (ltb_ℤ x.scheduled_at c.scheduled_at)) [
  | inl before ↦
      let same = same-le x b (some-injective (rw before at h)) in
      (same, ground (arith, same, before))
  | inr behind ↦
      let same = same-le c b (some-injective (rw behind at h)) in
      (ground (arith, same, behind), same)
]

-- The choice is as early as both.
earlier-least :
    (best : Option SessionScheduleRecord) (x b : SessionScheduleRecord)
    → earlier best x ≡ some b
    → (b.scheduled_at ≤ℤ x.scheduled_at)
      × ((c : SessionScheduleRecord) → best ≡ some c → b.scheduled_at ≤ℤ c.scheduled_at)
earlier-least none x b h = (same-le x b (some-injective h), λ c no. cc)
earlier-least (some c) x b h =
    let (first, second) = earlier-le c x b h in
    (first, λ d same. subst (λ r. b.scheduled_at ≤ℤ r.scheduled_at) (some-injective same) second)

-- What is as early as the choice is as early as both.
first-le :
    (best : Option SessionScheduleRecord) (x b : SessionScheduleRecord)
    → ((c : SessionScheduleRecord) → earlier best x ≡ some c → b.scheduled_at ≤ℤ c.scheduled_at)
    → (b.scheduled_at ≤ℤ x.scheduled_at)
      × ((c : SessionScheduleRecord) → best ≡ some c → b.scheduled_at ≤ℤ c.scheduled_at)
first-le best x b met = elim (Option-cases (earlier best x)) [
  | inl missing ↦ absurd (earlier-none best x missing)
  | inr (e, chosen) ↦
      let (new, old) = earlier-least best x e chosen in
      let below = met e chosen in
      (omega (arith, new, below), λ c same. let was = old c same in omega (arith, was, below))
]

module _ (keep : SessionScheduleRecord → Bool) where
  -- The first of the earliest records that are kept, after one that was met before.
  unfoldable pub least :
      Option SessionScheduleRecord → List SessionScheduleRecord → Option SessionScheduleRecord
  least best [] = best
  least best (x ∷ xs) = least (if keep x then earlier best x else best) xs

  pub least-none :
      (best : Option SessionScheduleRecord) (xs : List SessionScheduleRecord)
      → least best xs ≡ none
      → (best ≡ none) × ((r : SessionScheduleRecord) → Memᴰ r xs → keep r ≡ false)
  unfolding least
  least-none best [] h = (h, λ r m. elim m [ ])
  least-none best (x ∷ xs) h = elim (Bool-cases (keep x)) [
    | inl kept ↦
        let (none_then, others) = least-none (earlier best x) xs (rw kept at h) in
        absurd (earlier-none best x none_then)
    | inr dropped ↦
        let (none_then, others) = least-none best xs (rw dropped at h) in
        (
          none_then,
          λ r m. elim m [
            | Memᴰ.head same ↦ ap keep same ∙ dropped
            | Memᴰ.tail rest ↦ others r rest
          ],
        )
  ]

  pub least-some :
      (best : Option SessionScheduleRecord) (xs : List SessionScheduleRecord)
      (b : SessionScheduleRecord)
      → least best xs ≡ some b
      → (best ≡ some b) ⊎ (Memᴰ b xs × (keep b ≡ true))
  unfolding least
  least-some best [] b h = inl h
  least-some best (x ∷ xs) b h = elim (Bool-cases (keep x)) [
    | inl kept ↦ elim (least-some (earlier best x) xs b (rw kept at h)) [
      | inl chosen ↦ elim (earlier-some best x b chosen) [
        | inl old ↦ inl old
        | inr new ↦ inr (Memᴰ.head new, ap keep new ∙ kept)
      ]
      | inr (m, k) ↦ inr (Memᴰ.tail m, k)
    ]
    | inr dropped ↦ elim (least-some best xs b (rw dropped at h)) [
      | inl old ↦ inl old
      | inr (m, k) ↦ inr (Memᴰ.tail m, k)
    ]
  ]

  -- It is as early as the one met before, and as every record that is kept.
  pub least-le :
      (best : Option SessionScheduleRecord) (xs : List SessionScheduleRecord)
      (b : SessionScheduleRecord)
      → least best xs ≡ some b
      → ((c : SessionScheduleRecord) → best ≡ some c → b.scheduled_at ≤ℤ c.scheduled_at)
        × ((r : SessionScheduleRecord)
            → Memᴰ r xs
            → keep r ≡ true
            → b.scheduled_at ≤ℤ r.scheduled_at)
  unfolding least
  least-le best [] b h =
      ((λ c same. same-le c b (some-injective (sym same ∙ h))), λ r m k. elim m [ ])
  least-le best (x ∷ xs) b h = elim (Bool-cases (keep x)) [
    | inl kept ↦
        let (met, others) = least-le (earlier best x) xs b (rw kept at h) in
        let first = first-le best x b met in
        (
          first.1,
          λ r m k. elim m [
            | Memᴰ.head same ↦ subst (λ y. b.scheduled_at ≤ℤ y.scheduled_at) (sym same) first.0
            | Memᴰ.tail rest ↦ others r rest k
          ],
        )
    | inr dropped ↦
        let (met, others) = least-le best xs b (rw dropped at h) in
        (
          met,
          λ r m k. elim m [
            | Memᴰ.head same ↦ let differ : true ≡ false = sym k ∙ ap keep same ∙ dropped in cc
            | Memᴰ.tail rest ↦ others r rest k
          ],
        )
  ]
