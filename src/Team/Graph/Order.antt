-- ===== src/Team/Graph/Order.antt =====
-- backend/pkg/tools/team.go: a task graph that validateTaskGraph accepts has an order of its tasks in which each
-- one's blockers stand behind it.
use deep_seek_harness_x.Prelude.{
  String, ℕ, zero, suc, true, false, ◌≡◌, refl, ap, List, [], ◌∷◌, length, none, some,
  some-injective, inl, inr, Bool-cases, str_eq, eq_iff, Map, lookup, insert, ok, >>=-eq-ok, arith,
}
use deep_seek_harness_x.Team.{TeamTaskRecord}
use deep_seek_harness_x.Team.Graph.{
  has, task_at, Visit, then_scan, scan, visit, keys, cycle_error, search, validate_task_graph,
  check_blockers,
}

-- Each task's blockers stand behind it.
unfoldable pub IsOrdered : Map TeamTaskRecord → List String → Type 0
IsOrdered all [] = Unit
IsOrdered all (id ∷ rest) =
    ((d : String) → has d (task_at id all).blocked_by ≡ true → has d rest ≡ true)
    × IsOrdered all rest

unfoldable pub Keeps : List String → List String → Type 0
Keeps before after = (j : String) → has j before ≡ true → has j after ≡ true

-- A visit that met no cycle ended with the id in an ordered list that grew.
unfoldable pub IsVisited : Map TeamTaskRecord → String → List String → List String → Type 0
IsVisited all id before after = IsOrdered all after × (has id after ≡ true) × Keeps before after

unfoldable pub IsScanned : Map TeamTaskRecord → List String → List String → List String → Type 0
IsScanned all ids before after =
    IsOrdered all after
    × ((d : String) → has d ids ≡ true → has d after ≡ true)
    × Keeps before after

stopped :
    (visited after : List String) → ◌≡◌ {A = Visit} (some (true, visited)) (some (false, after)) → ⊥
stopped visited after h = true≢false (ap (λ s. s.0) (some-injective h))
  where
    true≢false : true ≡ false → ⊥
    true≢false p = cc

-- A visit or a scan that goes on ended its first part without a cycle.
then_scan-some :
    (next : List String → Visit) (first : Visit) (after : List String)
    → then_scan next first ≡ some (false, after)
    → (middle : List String) × (first ≡ some (false, middle)) × (next middle ≡ some (false, after))
then_scan-some next none after h = cc
then_scan-some next (some (true, visited)) after h = absurd (stopped visited after h)
then_scan-some next (some (false, visited)) after h = (visited, refl, h)

scan-IsScanned :
    (all : Map TeamTaskRecord) (visit_one : String → List String → Visit)
    → ((id : String) (before after : List String)
        → visit_one id before ≡ some (false, after)
        → IsOrdered all before
        → IsVisited all id before after)
    → (ids before after : List String) → scan visit_one ids before ≡ some (false, after)
    → IsOrdered all before
    → IsScanned all ids before after
unfolding scan IsScanned IsVisited Keeps has
scan-IsScanned all visit_one each [] before after h ordered =
    let same : before ≡ after = ap (λ s. s.1) (some-injective h) in
    rw (← same) (ordered, (λ d p. cc), λ j p. p)
scan-IsScanned all visit_one each (id ∷ ids) before after h ordered =
    let (middle, first, rest) = then_scan-some (scan visit_one ids) (visit_one id before) after h in
    let one = each id before middle first ordered in
    let more = scan-IsScanned all visit_one each ids middle after rest one.0 in
    (
      more.0,
      (λ d p. elim (Bool-cases (str_eq id d)) [
        | inl is_id ↦ rw (← (eq_iff id d).0 is_id) (more.2 id one.1)
        | inr other ↦ more.1 d (ground (arith, p, other))
      ]),
      λ j p. more.2 j (one.2 j p),
    )

pub visit-IsVisited :
    (fuel : ℕ) (all : Map TeamTaskRecord) (path : List String) (id : String)
    (before after : List String)
    → visit fuel all path id before ≡ some (false, after)
    → IsOrdered all before
    → IsVisited all id before after
unfolding visit IsVisited IsScanned IsOrdered Keeps has
visit-IsVisited zero all path id before after h ordered = cc
visit-IsVisited (suc fuel) all path id before after h ordered = elim (Bool-cases (has id path)) [
  | inl on_path ↦ absurd (stopped before after (rw on_path at h))
  | inr off_path ↦ elim (Bool-cases (has id before)) [
    | inl done ↦
        let same : before ≡ after = ap (λ s. s.1) (some-injective (rw (off_path, done) at h)) in
        rw (← same) (ordered, done, λ j p. p)
    | inr new ↦
        let (middle, inner, last) =
          then_scan-some (λ left. some (false, id ∷ left))
            (scan (visit fuel all (id ∷ path)) (task_at id all).blocked_by before) after
            (rw (off_path, new) at h) in
        let scanned =
          scan-IsScanned all (visit fuel all (id ∷ path))
            (λ d b a r o. visit-IsVisited fuel all (id ∷ path) d b a r o)
            (task_at id all).blocked_by before middle inner ordered in
        let same : id ∷ middle ≡ after = ap (λ s. s.1) (some-injective last) in
        rw (← same) (
          (scanned.1, scanned.0),
          ground (arith, eq_iff id id),
          λ j p. ground (arith, scanned.2 j p),
        )
  ]
]

has-keys :
    (id : String) (tasks : Map TeamTaskRecord) (t : TeamTaskRecord)
    → lookup id tasks ≡ some t
    → has id (keys tasks) ≡ true
unfolding lookup has
has-keys id [] t h = cc
has-keys id ((k, x) ∷ tasks) t h = elim (Bool-cases (str_eq k id)) [
  | inl same ↦ ground (arith, same)
  | inr other ↦ ground (arith, has-keys id tasks t (ground (arith, h, other)))
]

-- Of a board that validateTaskGraph accepts with the candidate on it, there is an order of ids in which every task
-- stands and the blockers of each stand behind it, so that no task blocks itself through others.
pub validate_task_graph-IsOrdered :
    (tasks : Map TeamTaskRecord) (candidate : TeamTaskRecord)
    → validate_task_graph tasks candidate ≡ ok tt
    → (order : List String) × (IsOrdered (insert candidate.id candidate tasks) order
        × ((id : String) (t : TeamTaskRecord)
            → lookup id (insert candidate.id candidate tasks) ≡ some t
            → has id order ≡ true))
unfolding validate_task_graph search IsOrdered IsScanned
validate_task_graph-IsOrdered tasks candidate h =
    let all = insert candidate.id candidate tasks in
    let (value, blockers, graph) =
      >>=-eq-ok (check_blockers tasks candidate.id [] candidate.blocked_by) _ h in
    let (order, found) = no_cycle (search all) graph in
    let scanned =
      scan-IsScanned all (visit (suc (suc (length all))) all [])
        (λ d b a r o. visit-IsVisited (suc (suc (length all))) all [] d b a r o) (keys all) [] order
        found tt in
    (order, (scanned.0, λ id t at. scanned.1 id (has-keys id all t at)))
  where
    no_cycle :
        (v : Visit) → cycle_error v ≡ ok tt → (order : List String) × (v ≡ some (false, order))
    no_cycle none e = cc
    no_cycle (some (true, visited)) e = cc
    no_cycle (some (false, visited)) e = (visited, refl)
