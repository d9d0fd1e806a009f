-- ===== src/Optimize/Dce/Reach.antt =====
-- dce.rs: `reachable_funcs`, the breadth-first search over the call graph.
pub mod Closure
pub mod Queue
use nexl.Prelude.{ℕ, zero, suc, List, [], ◌∷◌, ◌++◌, Ids, contains, insert, length, if◌then◌else◌}
use nexl.Ir.{FuncId}
use nexl.Optimize.Dce.Refs.{CallGraph, refs_of, graph_refs}

-- `if visited.insert(r) { queue.push_back(r) }` for each of a list.
unfoldable pub visit_all : List FuncId → Ids → List FuncId → Ids × List FuncId
visit_all [] visited queue = (visited, queue)
visit_all (r ∷ refs) visited queue =
    visit_all refs (insert r visited) (if contains visited r then queue else queue ++ r ∷ [])

-- `while let Some(fid) = queue.pop_front()`, a round for each unit of fuel.
unfoldable pub bfs : ℕ → CallGraph → Ids × List FuncId → Ids × List FuncId
bfs zero graph (visited, queue) = (visited, queue)
bfs (suc n) graph (visited, []) = (visited, [])
bfs (suc n) graph (visited, fid ∷ queue) = bfs n graph (visit_all (refs_of graph fid) visited queue)

-- No function is queued twice, so as many rounds as there are entry points and references do.
unfoldable pub rounds : CallGraph → List FuncId → ℕ
rounds graph entry_points = length (entry_points ++ graph_refs graph)

unfoldable pub reachable_from : CallGraph → List FuncId → Ids
reachable_from graph entry_points =
    (bfs (rounds graph entry_points) graph (visit_all entry_points [] [])).0
