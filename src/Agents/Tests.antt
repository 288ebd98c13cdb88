-- ===== src/Agents/Tests.antt =====
-- Tests of negotium/agents/graph.py, with agents that always answer alike.
use patch_machine.Prelude.{ℕ, ◌≡◌, refl, [], some, arith}
use patch_machine.Python.{ok, ◌>>=◌}
use patch_machine.Domain.{IssueEvent, github}
use patch_machine.Agents.Graph.{
  GraphState, Agents, run_manual, node_pm, node_developer, node_reviewer, run_rounds, round,
  verdict_of_round,
}
use patch_machine.Agents.Rounds.{Ended, run_manual-Ended}
use patch_machine.Agents.Compiled.{
  pm, developer, reviewer, Runner, FollowsEdges, run_langgraph, finished, node, edge, route,
  run_manual-run_langgraph,
}

-- The world counts the reviews; the reviewer always asks for a fix.
abbrev critics : Agents ℕ
critics = record {
  pm = λ issue ast logs memory w. ok (record { modules = []; rationale_md = "plan" }, w);
  developer = λ spec ast memory previous w. ok (record { thought_md = ""; unified_diff = "+x" }, w);
  reviewer = λ spec memory diff w.
      ok (record { verdict = "needs_fix"; findings_md = ""; suggested_fix_md = "again" }, w);
}

abbrev issue : IssueEvent
issue = record {
  event_id = "e1";
  source = github;
  external_id = "7";
  repo = record { owner = "acme"; name = "app"; default_branch = "main" };
  title = "bug";
  body = "";
  author = "kim";
  labels = [];
  created_at = "";
  metadata = [];
}

abbrev begin : GraphState
begin = record {
  issue = issue;
  snapshot_path = "";
  related_logs = [];
  operations_memory_md = "";
  ast_summary = "";
  context_md = "";
  workspec_md = "";
  target_modules = [];
  developer_md = "";
  diff = "";
  review_md = "";
  review_verdict = "";
  suggested_fix_md = "";
  iteration = 0;
  llm_route = "";
}

abbrev rejected : GraphState
rejected = record begin {
  workspec_md = "plan";
  diff = "+x";
  review_verdict = "reject";
  suggested_fix_md = "again";
  iteration = 2;
}

two_rounds : run_manual critics 2 begin 0 ≡ ok (some (rejected, 0))
unfolding run_manual node_pm node_developer node_reviewer run_rounds round verdict_of_round
two_rounds = refl

run_manual-Ended_example : Ended critics 2 (run_manual critics 2 begin 0)
run_manual-Ended_example = run_manual-Ended critics 2 begin 0

-- A runner for graphs of at most one iteration: it follows the edges to the end.
one_round : Runner ℕ
unfolding node edge route node_pm node_developer node_reviewer
one_round pm s w = do
  (s', w') ← node_pm critics s w
  (s'', w'') ← node_developer critics s' w'
  node_reviewer critics s'' w''
one_round developer s w = do (s', w') ← node_developer critics s w; node_reviewer critics s' w'
one_round reviewer s w = node_reviewer critics s w

one_round-FollowsEdges : FollowsEdges critics 0 one_round
unfolding one_round
one_round-FollowsEdges pm s w = refl
one_round-FollowsEdges developer s w = ground arith
one_round-FollowsEdges reviewer s w = ground arith

run_manual-run_langgraph_example :
    run_manual critics 0 begin 0 ≡ finished (run_langgraph one_round begin 0)
run_manual-run_langgraph_example =
    run_manual-run_langgraph critics 0 one_round one_round-FollowsEdges begin 0
