-- ===== src/Agents/Compiled.antt =====
-- The graph that `_try_compile_langgraph` of negotium/agents/graph.py builds, and `_run_langgraph`.
-- LangGraph itself is a parameter: it runs a node and goes on along the node's edge.
use patch_machine.Prelude.{
  ℕ, zero, suc, ◌+◌, ◌-◌, ◌<◌, ◌≡◌, ◌&&◌, Option, none, some, ltb, ◌==◌, if◌then◌else◌, arith,
  Option-cases, inl, inr,
}
use patch_machine.Python.{Result, ok, raise, Result-cases, ◌>>=◌}
use patch_machine.Agents.Graph.{
  GraphState, Agents, node_pm, node_developer, node_reviewer, verdict_of_round, round, run_rounds,
  run_manual,
}
use patch_machine.Agents.Rounds.{below_limit, iteration-round}

pub data Node : Type 0 where
  pm developer reviewer : Node

-- `_route`; `none` is END.
unfoldable pub route : ℕ → GraphState → Option Node
route max_iterations s =
    if s.review_verdict == "needs_fix" && ltb s.iteration max_iterations
    then some developer
    else none

unfoldable pub edge : ℕ → Node → GraphState → Option Node
edge max_iterations pm s = some developer
edge max_iterations developer s = some reviewer
edge max_iterations reviewer s = route max_iterations s

module _ {W : Type 0} (agents : Agents W) where
  unfoldable pub node : Node → GraphState → W → Result (GraphState × W)
  node pm s w = node_pm agents s w
  node developer s w = node_developer agents s w
  node reviewer s w = node_reviewer agents s w

-- A runner of graphs: the state after the run that starts at a node.
abbrev pub Runner : Type 0 → Type 0
Runner W = Node → GraphState → W → Result (GraphState × W)

module _ {W : Type 0} where
  abbrev pub along : Runner W → Option Node → GraphState → W → Result (GraphState × W)
  along invoke none s w = ok (s, w)
  along invoke (some n) s w = invoke n s w

  -- What LangGraph documents of a compiled graph: run the node, then follow its edge.
  abbrev pub FollowsEdges : Agents W → ℕ → Runner W → Type 0
  FollowsEdges agents max_iterations invoke =
      (n : Node) (s : GraphState) (w : W)
      → invoke n s w
        ≡ (do (s', w') ← node agents n s w; along invoke (edge max_iterations n s') s' w')

  -- `_run_langgraph`
  unfoldable pub run_langgraph : Runner W → GraphState → W → Result (GraphState × W)
  run_langgraph ainvoke s w = ainvoke pm s w

-- The manual loop turns a last "needs_fix" into "reject"; the compiled graph does not.
unfoldable pub exhausted : GraphState → GraphState
exhausted s = if s.review_verdict == "needs_fix" then record s { review_verdict = "reject" } else s

abbrev pub finished {ℓ} : {W : Type ℓ} → Result (GraphState × W) → Result (Option (GraphState × W))
finished (raise e) = raise e
finished (ok (s, w)) = ok (some (exhausted s, w))

route-verdict :
    (max_iterations : ℕ) (s : GraphState)
    → verdict_of_round max_iterations s
      ≡ elim (route max_iterations s) [ none ↦ some (exhausted s) | some n ↦ none ]
unfolding route verdict_of_round exhausted
route-verdict max_iterations s = ground arith

route-developer :
    (max_iterations : ℕ) (s : GraphState) (n : Node)
    → route max_iterations s ≡ some n
    → n ≡ developer
unfolding route
route-developer max_iterations s n h = ground (arith, h)

module _ {W : Type 0} (agents : Agents W) (max_iterations : ℕ) (invoke : Runner W)
    (follows : FollowsEdges agents max_iterations invoke) where
  -- A run from the developer is a round, and then the end or another run.
  invoke-round :
      (s : GraphState) (w : W)
      → invoke developer s w
        ≡ (do (s', w') ← round agents s w; along invoke (route max_iterations s') s' w')
  unfolding node edge round
  invoke-round s w = elim (Result-cases (node_developer agents s w)) [
    | inl (e, failed) ↦ ground (arith, follows developer s w, failed)
    | inr ((s', w'), done) ↦ ground (arith, follows developer s w, done, follows reviewer s' w')
  ]

  run_rounds-invoke :
      (fuel : ℕ) (s : GraphState) (w : W)
      → max_iterations - s.iteration < fuel
      → run_rounds agents max_iterations fuel s w ≡ finished (invoke developer s w)
  run_rounds-invoke zero s w h = absurd (omega arith)
  run_rounds-invoke (suc fuel) s w h = elim (Result-cases (round agents s w)) [
    | inl (e, failed) ↦ unfold run_rounds in ground (arith, failed, invoke-round s w)
    | inr ((s', w'), done) ↦
        let told = route-verdict max_iterations s' in
        elim (Option-cases (route max_iterations s')) [
          | inl stops ↦ unfold run_rounds in ground (arith, done, stops, told, invoke-round s w)
          | inr (n, more) ↦
              let onward : n ≡ developer = route-developer max_iterations s' n more in
              let again : verdict_of_round max_iterations s' ≡ none = ground (arith, told, more) in
              let step : run_rounds agents max_iterations (suc fuel) s w
                  ≡ run_rounds agents max_iterations fuel s' w' =
                unfold run_rounds in ground (arith, done, again) in
              let same : invoke developer s w ≡ invoke developer s' w' =
                ground (arith, invoke-round s w, done, more, onward) in
              rw (step, same)
                (run_rounds-invoke fuel s' w' (
                  omega (
                    arith,
                    iteration-round agents max_iterations s s' w w' done,
                    below_limit max_iterations s' again,
                  )))
        ]
  ]

  -- The manual fallback computes what the compiled graph computes, with one difference: where the
  -- iterations are used up the manual loop returns the verdict "reject", and the compiled graph
  -- leaves "needs_fix".
  pub run_manual-run_langgraph :
      (s : GraphState) (w : W)
      → run_manual agents max_iterations s w ≡ finished (run_langgraph invoke s w)
  unfolding run_manual run_langgraph node edge
  run_manual-run_langgraph s w = elim (Result-cases (node_pm agents s w)) [
    | inl (e, failed) ↦ ground (arith, failed, follows pm s w)
    | inr ((s', w'), done) ↦
        ground (arith, done, follows pm s w, run_rounds-invoke (max_iterations + 1) s' w')
  ]
