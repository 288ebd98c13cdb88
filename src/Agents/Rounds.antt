-- ===== src/Agents/Rounds.antt =====
-- The self-correction loop of `_run_manual` ends, and what it returns.
use patch_machine.Prelude.{
  ℕ, zero, suc, ◌+◌, ◌-◌, ◌≤◌, ◌<◌, max, ◌≡◌, ◌≢◌, ◌⊎◌, Option, none, some, eq_iff, sym, arith,
  Option-cases, inl, inr,
}
use patch_machine.Python.{Exc, Result, ok, raise, Result-cases}
use patch_machine.Agents.Graph.{
  GraphState, Agents, node_pm, node_developer, node_reviewer, verdict_of_round, round, run_rounds,
  run_manual,
}
use mathlib.Core.Path.{subst}

pub below_limit :
    (max_iterations : ℕ) (s : GraphState)
    → verdict_of_round max_iterations s ≡ none
    → s.iteration < max_iterations
unfolding verdict_of_round
below_limit max_iterations s h = ground (arith, h)

end_of_round :
    (max_iterations : ℕ) (s end : GraphState)
    → verdict_of_round max_iterations s ≡ some end
    → (end.review_verdict ≢ "needs_fix") × (end.iteration ≡ s.iteration)
unfolding verdict_of_round
end_of_round max_iterations s end h = (
  ground (
    arith,
    h,
    eq_iff s.review_verdict "needs_fix",
    eq_iff end.review_verdict "needs_fix",
    eq_iff "reject" "needs_fix",
  ),
  ground (arith, h),
)

module _ {W : Type 0} (agents : Agents W) (max_iterations : ℕ) where
  -- An agent raised, or the loop returned within its bounds.
  abbrev pub Ended : Result (Option (GraphState × W)) → Type 0
  Ended r =
      ((e : Exc) × (r ≡ raise e))
      ⊎ ((s : GraphState) × (w : W) × (r ≡ ok (some (s, w)))
          × (s.review_verdict ≢ "needs_fix")
          × (1 ≤ s.iteration)
          × (s.iteration ≤ max 1 max_iterations))

  -- A round runs the developer once.
  pub iteration-round :
      (s s' : GraphState) (w w' : W)
      → round agents s w ≡ ok (s', w')
      → s'.iteration ≡ s.iteration + 1
  unfolding round node_developer node_reviewer
  iteration-round s s' w w' h = ground (arith, h)

  iteration-node_pm :
      (s s' : GraphState) (w w' : W) → node_pm agents s w ≡ ok (s', w') → s'.iteration ≡ 0
  unfolding node_pm
  iteration-node_pm s s' w w' h = ground (arith, h)

  run_rounds-Ended :
      (fuel : ℕ) (s : GraphState) (w : W)
      → max_iterations - s.iteration < fuel
      → s.iteration < max 1 max_iterations
      → Ended (run_rounds agents max_iterations fuel s w)
  run_rounds-Ended zero s w h k = absurd (omega arith)
  run_rounds-Ended (suc fuel) s w h k = elim (Result-cases (round agents s w)) [
    | inl (e, failed) ↦ inl (e, unfold run_rounds in rw failed)
    | inr ((s', w'), done) ↦
        let counted = iteration-round s s' w w' done in
        elim (Option-cases (verdict_of_round max_iterations s')) [
          | inl more ↦
              let again = below_limit max_iterations s' more in
              let step : run_rounds agents max_iterations (suc fuel) s w
                  ≡ run_rounds agents max_iterations fuel s' w' =
                unfold run_rounds in ground (arith, done, more) in
              subst Ended (sym step)
                (run_rounds-Ended fuel s' w' (omega (arith, counted, again)) (omega (arith, again)))
          | inr (end, last) ↦
              let (settled, same) = end_of_round max_iterations s' end last in
              inr (
                end,
                w',
                unfold run_rounds in ground (arith, done, last),
                settled,
                omega (arith, counted, same),
                omega (arith, counted, same),
              )
        ]
  ]

  -- The pipeline of `_run_manual` ends: an agent raised, or the result never has the verdict
  -- "needs_fix" and the developer ran at least once and at most `max(1, max_iterations)` times.
  pub run_manual-Ended : (s : GraphState) (w : W) → Ended (run_manual agents max_iterations s w)
  unfolding run_manual
  run_manual-Ended s w = elim (Result-cases (node_pm agents s w)) [
    | inl (e, failed) ↦ inl (e, rw failed)
    | inr ((s', w'), done) ↦
        let fresh = iteration-node_pm s s' w w' done in
        rw done (
          run_rounds-Ended (max_iterations + 1) s' w' (omega (arith, fresh)) (omega (arith, fresh)))
  ]
