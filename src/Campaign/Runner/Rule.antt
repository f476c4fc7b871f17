-- ===== src/Campaign/Runner/Rule.antt =====
-- The proof rule for the loop of internal/campaign/runner.go: what every step of a round keeps holds
-- after every run.
use personalized_email_pipel.Prelude.{Bool, true, false, List, [], ◌∷◌, if◌then◌else◌}
use personalized_email_pipel.Campaign.Runner.{
  observe_cancel, enforce_deadline, read_input, settle_result, drain, grant, block, turn, run_turns,
  is_running,
}
use personalized_email_pipel.Campaign.Loop.{
  Loop, Turn, RunConfig, WorkerResult, Wait, wait_ready, wait_result, wait_cancelled, wait_timer,
}

module _ {ℓ} (P : Loop → Type ℓ) where
  pub if_keeps : (b : Bool) (s t : Loop) → P s → P t → P (if b then s else t)
  if_keeps true s t p q = p
  if_keeps false s t p q = q

  -- The steps of a round.
  pub record Keeps (cfg : RunConfig) : Type ℓ where
    pub observe_keeps : (s : Loop) (t : Turn) → P s → P (observe_cancel cfg s t)
    pub enforce_keeps : (s : Loop) (t : Turn) → P s → P (enforce_deadline s t)
    pub read_keeps : (s : Loop) (t : Turn) → P s → P (read_input cfg s t)
    pub result_keeps : (s : Loop) (w : WorkerResult) → P s → P (settle_result cfg s w)
    pub grant_keeps : (s : Loop) (ready : Bool) → P s → P (grant s ready)

  module _ (cfg : RunConfig) (k : Keeps cfg) where
    drain_keeps : (s : Loop) (ws : List WorkerResult) → P s → P (drain cfg s ws)
    unfolding drain
    drain_keeps s [] p = p
    drain_keeps s (w ∷ ws) p = drain_keeps (settle_result cfg s w) ws (k.result_keeps s w p)

    block_keeps : (s : Loop) (w : Wait) → P s → P (block cfg s w)
    unfolding block
    block_keeps s wait_ready p = k.grant_keeps s true p
    block_keeps s (wait_result w) p = k.result_keeps s w p
    block_keeps s wait_cancelled p = p
    block_keeps s wait_timer p = p

    pub turn_keeps : (s : Loop) (t : Turn) → P s → P (turn cfg s t)
    unfolding turn
    turn_keeps s t p =
        let checked = k.enforce_keeps (observe_cancel cfg s t) t (k.observe_keeps s t p) in
        let read = k.read_keeps (enforce_deadline (observe_cancel cfg s t) t) t checked in
        let drained =
          drain_keeps (read_input cfg (enforce_deadline (observe_cancel cfg s t) t) t) t.results
            read in
        let granted = k.grant_keeps _ t.ready drained in
        if_keeps _ _ _ granted (block_keeps _ t.wait granted)

    pub run_turns_keeps : (s : Loop) (ts : List Turn) → P s → P (run_turns cfg s ts)
    unfolding run_turns
    run_turns_keeps s [] p = p
    run_turns_keeps s (t ∷ ts) p =
        if_keeps (is_running s) (run_turns cfg (turn cfg s t) ts) s
          (run_turns_keeps (turn cfg s t) ts (turn_keeps s t p)) p
