-- ===== src/Team/Graph/Ends.antt =====
-- backend/pkg/tools/team.go: the depth-first search ends within its fuel.
use deep_seek_harness_x.Prelude.{
  String, ℕ, zero, suc, ◌≤◌, ◌<◌, Bool, true, false, ◌≡◌, ◌≢◌, refl, ap, sym, List, [], ◌∷◌, length,
  Option, none, some, inl, inr, Bool-cases, Option-cases, str_eq, eq_iff, if◌then◌else◌, Map,
  lookup, insert, Result, ok, err, ◌>>◌, arith,
}
use deep_seek_harness_x.Team.{TeamTaskRecord, TeamError}
use deep_seek_harness_x.Team.Graph.{
  has, task_at, Visit, then_scan, scan, visit, keys, check_blocker, cycle_error, search,
  validate_task_graph, check_blockers,
}

-- The tasks that are not on the path.
unfoldable pub free : Map TeamTaskRecord → List String → ℕ
free [] path = 0
free ((k, t) ∷ tasks) path = let rest = free tasks path in if has k path then rest else suc rest

free-le :
    (tasks : Map TeamTaskRecord) (id : String) (path : List String)
    → free tasks (id ∷ path) ≤ free tasks path
unfolding free has
free-le [] id path = omega arith
free-le ((k, t) ∷ tasks) id path = ground (arith, free-le tasks id path)

free-lt :
    (tasks : Map TeamTaskRecord) (id : String) (path : List String) (t : TeamTaskRecord)
    → lookup id tasks ≡ some t
    → has id path ≡ false
    → free tasks (id ∷ path) < free tasks path
unfolding free has lookup
free-lt [] id path t h off = cc
free-lt ((k, x) ∷ tasks) id path t h off = elim (Bool-cases (str_eq k id)) [
  | inl same ↦
      let e : k ≡ id = (eq_iff k id).0 same in
      ground (arith, free-le tasks id path, ap (λ j. has j path) e, off, eq_iff id k, same, sym e)
  | inr other ↦ ground (
    arith,
    free-lt tasks id path t (ground (arith, h, other)) off,
    other,
    eq_iff id k,
    eq_iff k id,
  )
]

-- The search came to a result.
unfoldable pub IsDone : Visit → Type 0
IsDone v = (result : Bool × List String) × (v ≡ some result)

then_scan-IsDone :
    (next : List String → Visit) (first : Visit)
    → IsDone first
    → ((visited : List String) → IsDone (next visited))
    → IsDone (then_scan next first)
unfolding IsDone
then_scan-IsDone next none (result, h) rest = cc
then_scan-IsDone next (some (true, visited)) done rest = ((true, visited), refl)
then_scan-IsDone next (some (false, visited)) done rest = rest visited

scan-IsDone :
    (visit_one : String → List String → Visit)
    → ((id : String) (visited : List String) → IsDone (visit_one id visited))
    → (ids visited : List String) → IsDone (scan visit_one ids visited)
unfolding scan IsDone
scan-IsDone visit_one each [] visited = ((false, visited), refl)
scan-IsDone visit_one each (id ∷ ids) visited =
    then_scan-IsDone (scan visit_one ids) (visit_one id visited) (each id visited)
      (scan-IsDone visit_one each ids)

pub visit-IsDone :
    (fuel : ℕ) (all : Map TeamTaskRecord) (path : List String) (id : String) (visited : List String)
    → free all path < fuel
    → IsDone (visit fuel all path id visited)
unfolding visit IsDone task_at scan
visit-IsDone zero all path id visited enough = absurd (omega (arith, enough))
visit-IsDone (suc fuel) all path id visited enough = elim (Bool-cases (has id path)) [
  | inl on_path ↦ rw on_path ((true, visited), refl)
  | inr off_path ↦ elim (Bool-cases (has id visited)) [
    | inl done ↦ rw (off_path, done) ((false, visited), refl)
    | inr new ↦
        rw (off_path, new)
          (then_scan-IsDone (λ left. some (false, id ∷ left))
            (scan (visit fuel all (id ∷ path)) (task_at id all).blocked_by visited)
            (elim (Option-cases (lookup id all)) [
              | inl absent ↦ rw absent ((false, visited), refl)
              | inr (t, found) ↦
                  scan-IsDone (visit fuel all (id ∷ path))
                    (λ d left.
                      visit-IsDone fuel all (id ∷ path) d left
                        (omega (arith, enough, free-lt all id path t found off_path)))
                    (task_at id all).blocked_by visited
            ])
            (λ left. ((false, id ∷ left), refl)))
  ]
]

free-nil : (tasks : Map TeamTaskRecord) → free tasks [] ≡ length tasks
unfolding free has
free-nil [] = refl
free-nil ((k, t) ∷ tasks) = ap suc (free-nil tasks)

check_blocker-fuel : (t : Option TeamTaskRecord) → check_blocker t ≡ err TeamError.out_of_fuel → ⊥
check_blocker-fuel none h = cc
check_blocker-fuel (some t) h = elim (Bool-cases (str_eq t.status "deleted")) [
  | inl deleted ↦ let e = rw deleted at h in cc
  | inr kept ↦ let e = rw kept at h in cc
]

-- Two checks in a row.
chain-fuel :
    (first rest : Result TeamError (Unit {0}))
    → (first ≡ err TeamError.out_of_fuel → ⊥)
    → (rest ≡ err TeamError.out_of_fuel → ⊥)
    → (first >> rest) ≡ err TeamError.out_of_fuel
    → ⊥
chain-fuel (ok u) rest h k e = k e
chain-fuel (err x) rest h k e = h e

check_blockers-fuel :
    (tasks : Map TeamTaskRecord) (id : String) (seen blockers : List String)
    → check_blockers tasks id seen blockers ≡ err TeamError.out_of_fuel
    → ⊥
unfolding check_blockers
check_blockers-fuel tasks id seen [] h = cc
check_blockers-fuel tasks id seen (b ∷ rest) h = elim (Bool-cases (str_eq b id)) [
  | inl itself ↦ let e = rw itself at h in cc
  | inr other ↦ elim (Bool-cases (has b seen)) [
    | inl again ↦ let e = rw (other, again) at h in cc
    | inr new ↦
        chain-fuel (check_blocker (lookup b tasks)) _ (check_blocker-fuel (lookup b tasks))
          (check_blockers-fuel tasks id (b ∷ seen) rest) (rw (other, new) at h)
  ]
]

search-IsDone : (all : Map TeamTaskRecord) → IsDone (search all)
unfolding search
search-IsDone all =
    scan-IsDone (visit (suc (suc (length all))) all [])
      (λ d left. visit-IsDone (suc (suc (length all))) all [] d left (omega (arith, free-nil all)))
      (keys all) []

cycle_error-fuel : (v : Visit) → IsDone v → cycle_error v ≡ err TeamError.out_of_fuel → ⊥
unfolding IsDone
cycle_error-fuel none done h = cc
cycle_error-fuel (some (true, visited)) done h = cc
cycle_error-fuel (some (false, visited)) done h = cc

-- The depth-first search of validateTaskGraph always comes to a result: the recursion ends.
pub validate_task_graph-ends :
    (tasks : Map TeamTaskRecord) (candidate : TeamTaskRecord)
    → validate_task_graph tasks candidate ≢ err TeamError.out_of_fuel
unfolding validate_task_graph
validate_task_graph-ends tasks candidate h =
    chain-fuel (check_blockers tasks candidate.id [] candidate.blocked_by) _
      (check_blockers-fuel tasks candidate.id [] candidate.blocked_by)
      (cycle_error-fuel (search (insert candidate.id candidate tasks))
        (search-IsDone (insert candidate.id candidate tasks)))
      h
