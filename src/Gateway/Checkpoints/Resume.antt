-- ===== src/Gateway/Checkpoints/Resume.antt =====
-- The resume of a checkpoint record through histories of calls
-- (apps/website-gateway/src/stores/checkpoints.ts).
use page2web_mcp.Common.{
  ℕ, ◌≤◌, ◌<◌, ◌≡◌, refl, inl, inr, true, false, List, [], ◌∷◌, arith, Bool-cases,
}
use page2web_mcp.Gateway.Checkpoints.Records.{Platform}
use page2web_mcp.Gateway.Checkpoints.{
  CheckpointStore, CheckpointCall, creates, binds, authenticates, claims, retires, reads_retired,
  create, bind_human_handoff, record_authentication, claim_resume, retire, read_retired,
  checkpoint_step, wins, resumes_won,
}

-- The record has an address that was given out, and its resume is claimed.
pub record IsClaimed (n : ℕ) (s : CheckpointStore) : Type 0 where
  pub allocated : n < s.next
  pub claimed : (s.cells n).resume_claimed ≡ true

module _ (P : Platform) (n : ℕ) where
  step-IsClaimed :
      (c : CheckpointCall) (s : CheckpointStore)
      → IsClaimed n s
      → IsClaimed n (checkpoint_step P c s)
  unfolding checkpoint_step create bind_human_handoff record_authentication claim_resume retire
      read_retired
  step-IsClaimed (creates b) s h = ground arith
  step-IsClaimed (binds m origin handoff) s h = ground arith
  step-IsClaimed (authenticates m signal reference) s h = ground arith
  step-IsClaimed (claims m) s h = ground arith
  step-IsClaimed (retires reference resources) s h = ground arith
  step-IsClaimed (reads_retired reference now) s h = ground arith

  step-allocated :
      (c : CheckpointCall) (s : CheckpointStore) → n < s.next → n < (checkpoint_step P c s).next
  unfolding checkpoint_step create bind_human_handoff record_authentication claim_resume retire
      read_retired
  step-allocated (creates b) s h = ground arith
  step-allocated (binds m origin handoff) s h = h
  step-allocated (authenticates m signal reference) s h = h
  step-allocated (claims m) s h = ground arith
  step-allocated (retires reference resources) s h = ground arith
  step-allocated (reads_retired reference now) s h = ground arith

  wins-IsClaimed :
      (c : CheckpointCall) (s : CheckpointStore)
      → n < s.next
      → wins P n c s ≡ true
      → IsClaimed n (checkpoint_step P c s)
  unfolding wins checkpoint_step claim_resume
  wins-IsClaimed (claims m) s h e = ground arith
  wins-IsClaimed (creates b) s h e = absurd (cc)
  wins-IsClaimed (binds m origin handoff) s h e = absurd (cc)
  wins-IsClaimed (authenticates m signal reference) s h e = absurd (cc)
  wins-IsClaimed (retires reference resources) s h e = absurd (cc)
  wins-IsClaimed (reads_retired reference now) s h e = absurd (cc)

  claimed_lost : (c : CheckpointCall) (s : CheckpointStore) → IsClaimed n s → wins P n c s ≡ false
  unfolding wins claim_resume
  claimed_lost (claims m) s h = ground arith
  claimed_lost (creates b) s h = refl
  claimed_lost (binds m origin handoff) s h = refl
  claimed_lost (authenticates m signal reference) s h = refl
  claimed_lost (retires reference resources) s h = refl
  claimed_lost (reads_retired reference now) s h = refl

  none_won :
      (cs : List CheckpointCall) (s : CheckpointStore) → IsClaimed n s → resumes_won P n cs s ≡ 0
  unfolding resumes_won
  none_won [] s h = refl
  none_won (c ∷ cs) s h =
      rw (claimed_lost c s h) (none_won cs (checkpoint_step P c s) (step-IsClaimed c s h))

  -- Whatever calls follow, in whatever order, at most one of them wins the resume of a record that
  -- was created before.
  pub resumes_won-le :
      (cs : List CheckpointCall) (s : CheckpointStore) → n < s.next → resumes_won P n cs s ≤ 1
  unfolding resumes_won
  resumes_won-le [] s h = omega arith
  resumes_won-le (c ∷ cs) s h = elim (Bool-cases (wins P n c s)) [
    | inl e ↦ rw (e, none_won cs (checkpoint_step P c s) (wins-IsClaimed c s h e)) (omega arith)
    | inr e ↦ rw e (resumes_won-le cs (checkpoint_step P c s) (step-allocated c s h))
  ]
