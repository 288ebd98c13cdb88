-- ===== src/Agents/Graph.antt =====
-- `AgentGraph` of negotium/agents/graph.py. The agents, which ask a language model, are parameters:
-- each takes a world, which holds what the model answers next, and may raise.
use patch_machine.Prelude.{
  ℕ, zero, suc, ◌+◌, String, Option, none, some, List, leb, ◌==◌, not, if◌then◌else◌,
}
use patch_machine.Python.{Result, ok, ◌>>=◌, is_blank}
use patch_machine.Domain.{IssueEvent}

-- A missing key of the `TypedDict` has the default with which the nodes read it.
pub record GraphState : Type 0 where
  pub issue : IssueEvent
  pub snapshot_path : String
  pub related_logs : List String
  pub operations_memory_md : String
  pub ast_summary : String
  pub context_md : String
  pub workspec_md : String
  pub target_modules : List String
  pub developer_md : String
  pub diff : String
  pub review_md : String
  pub review_verdict : String
  pub suggested_fix_md : String
  pub iteration : ℕ
  pub llm_route : String

pub record PmOutput : Type 0 where
  pub modules : List String
  pub rationale_md : String

pub record DeveloperOutput : Type 0 where
  pub thought_md : String
  pub unified_diff : String

pub record ReviewerOutput : Type 0 where
  pub verdict : String
  pub findings_md : String
  pub suggested_fix_md : String

-- The `run` methods of the three agents, over the arguments that the nodes pass.
pub record Agents (W : Type 0) : Type 0 where
  pub pm : IssueEvent → String → List String → String → W → Result (PmOutput × W)
  pub developer : String → String → String → Option String → W → Result (DeveloperOutput × W)
  pub reviewer : String → String → String → W → Result (ReviewerOutput × W)

-- `text or None`
abbrev or_none : String → Option String
or_none s = if is_blank s then none else some s

-- The tests at the end of a round: the state to return, or none to go on.
unfoldable pub verdict_of_round : ℕ → GraphState → Option GraphState
verdict_of_round max_iterations s =
    if not (s.review_verdict == "needs_fix")
    then some s
    else if leb max_iterations s.iteration
    then some (record s { review_verdict = "reject" })
    else none

module _ {W : Type 0} (agents : Agents W) where
  unfoldable pub node_pm : GraphState → W → Result (GraphState × W)
  node_pm s w = do
    (out, w') ← agents.pm s.issue s.ast_summary s.related_logs s.operations_memory_md w
    ok (
      record s { target_modules = out.modules; workspec_md = out.rationale_md; iteration = 0 },
      w',
    )

  unfoldable pub node_developer : GraphState → W → Result (GraphState × W)
  node_developer s w = do
    (out, w') ←
        agents.developer s.workspec_md s.ast_summary s.operations_memory_md
          (or_none s.suggested_fix_md) w
    ok (
      record s {
        developer_md = out.thought_md;
        diff = out.unified_diff;
        iteration = s.iteration + 1;
      },
      w',
    )

  unfoldable pub node_reviewer : GraphState → W → Result (GraphState × W)
  node_reviewer s w = do
    (out, w') ← agents.reviewer s.workspec_md s.operations_memory_md s.diff w
    ok (
      record s {
        review_verdict = out.verdict;
        review_md = out.findings_md;
        suggested_fix_md = out.suggested_fix_md;
      },
      w',
    )

  -- Developer and Reviewer, one after the other.
  unfoldable pub round : GraphState → W → Result (GraphState × W)
  round s w = do (s', w') ← node_developer s w; node_reviewer s' w'

  -- The `while True` of `_run_manual`, on fuel; `none` means that the fuel ran out.
  unfoldable pub run_rounds : ℕ → ℕ → GraphState → W → Result (Option (GraphState × W))
  run_rounds max_iterations zero s w = ok none
  run_rounds max_iterations (suc fuel) s w = do
    (s', w') ← round s w
    let rest = run_rounds max_iterations fuel s' w'
    elim (verdict_of_round max_iterations s') [ some end ↦ ok (some (end, w')) | none ↦ rest ]

  -- `_run_manual`. A round that is not the last raises the iteration, so `max_iterations + 1` rounds
  -- are enough.
  unfoldable pub run_manual : ℕ → GraphState → W → Result (Option (GraphState × W))
  run_manual max_iterations s w = do
    (s', w') ← node_pm s w
    run_rounds max_iterations (max_iterations + 1) s' w'
