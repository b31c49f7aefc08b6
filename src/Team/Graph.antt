-- ===== src/Team/Graph.antt =====
-- backend/pkg/tools/team.go: validateTaskGraph and its depth-first search.
-- The search's `visiting` flags are those of the ids on the path to the current one, which is passed down;
-- its loops take a Go map's entries in the order of the association list.
use deep_seek_harness_x.Prelude.{
  String, ℕ, zero, suc, Bool, true, false, ◌||◌, List, [], ◌∷◌, length, Option, none, some, str_eq,
  if◌then◌else◌, Map, lookup, insert, Result, ok, err, ◌>>=◌, ◌>>◌,
}
use deep_seek_harness_x.Team.{TeamTaskRecord, TeamError, no_task, blocks_itself, duplicate_blocker}
pub mod Order
pub mod Ends

unfoldable pub has : String → List String → Bool
has id [] = false
has id (x ∷ xs) = str_eq x id || has id xs

-- A Go map read of a record.
abbrev pub or_zero : Option TeamTaskRecord → TeamTaskRecord
or_zero none = no_task
or_zero (some t) = t

unfoldable pub task_at : String → Map TeamTaskRecord → TeamTaskRecord
task_at id tasks = or_zero (lookup id tasks)

abbrev pub check_blocker : Option TeamTaskRecord → Result TeamError (Unit {0})
check_blocker none = err TeamError.blocker_not_found
check_blocker (some t) =
    if str_eq t.status "deleted" then err TeamError.blocker_not_found else ok tt

-- The first loop, with the blockers seen so far.
unfoldable pub check_blockers :
    Map TeamTaskRecord → String → List String → List String → Result TeamError (Unit {0})
check_blockers tasks id seen [] = ok tt
check_blockers tasks id seen (b ∷ rest) =
    if str_eq b id
    then err blocks_itself
    else if has b seen
    then err duplicate_blocker
    else check_blocker (lookup b tasks) >> check_blockers tasks id (b ∷ seen) rest

-- Whether a cycle was met, and the ids visited to their end; `none` where the fuel does not suffice.
abbrev pub Visit : Type 0
Visit = Option (Bool × List String)

abbrev pub then_scan : (List String → Visit) → Visit → Visit
then_scan next none = none
then_scan next (some (true, visited)) = some (true, visited)
then_scan next (some (false, visited)) = next visited

-- The loop over the dependencies.
unfoldable pub scan : (String → List String → Visit) → List String → List String → Visit
scan visit_one [] visited = some (false, visited)
scan visit_one (id ∷ ids) visited = then_scan (scan visit_one ids) (visit_one id visited)

unfoldable pub visit : ℕ → Map TeamTaskRecord → List String → String → List String → Visit
unfolding scan
visit zero all path id visited = none
visit (suc fuel) all path id visited =
    let inner = scan (visit fuel all (id ∷ path)) (task_at id all).blocked_by visited in
    if has id path
    then some (true, visited)
    else if has id visited
    then some (false, visited)
    else then_scan (λ left. some (false, id ∷ left)) inner

abbrev pub keys : Map TeamTaskRecord → List String
keys [] = []
keys ((id, t) ∷ tasks) = id ∷ keys tasks

abbrev pub cycle_error : Visit → Result TeamError (Unit {0})
cycle_error none = err TeamError.out_of_fuel
cycle_error (some (true, visited)) = err TeamError.dependency_cycle
cycle_error (some (false, visited)) = ok tt

-- The search from every task; its depth is at most one more than their number.
unfoldable pub search : Map TeamTaskRecord → Visit
search all = scan (visit (suc (suc (length all))) all []) (keys all) []

unfoldable pub validate_task_graph :
    Map TeamTaskRecord → TeamTaskRecord → Result TeamError (Unit {0})
validate_task_graph tasks candidate =
    check_blockers tasks candidate.id [] candidate.blocked_by
    >> cycle_error (search (insert candidate.id candidate tasks))
