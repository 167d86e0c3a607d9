-- ===== src/Examples/Capability.antt =====
-- The capability, phase and retry properties at concrete values.
use page2web_mcp.Common.{◌≤◌, ◌<◌, min, ◌≡◌, ◌≢◌, refl, true, false, none, some, [], ◌∷◌}
use page2web_mcp.Capability.{
  Capability, r1, first_in_session, proposed, create_capability, transition_capability, transitions,
  review_approved, verification_passed, publish_requested, verified, production_ready,
}
use page2web_mcp.Capability.Status.{
  IsSound, create-transitions-IsSound, not_ready_without_verification,
}
use page2web_mcp.Workflow.Retry.{
  retry_delay_ms, retry_delay_ms_bounds, exponential_cap, workflow_max_retry_after_ms,
}

abbrev search_capability : Capability
search_capability = record {
  name = "search";
  safety = record { risk_tier = r1; read_only = true; confirmation = first_in_session };
  verification = record {
    schema = false;
    authenticated = false;
    replay_passes = 0;
    no_secret_leakage = false;
    browser_execution = false;
    selection_score = 0;
  };
  status = proposed;
}

published :
    (transitions search_capability
      (review_approved ∷ verification_passed ∷ publish_requested ∷ [])).status
    ≡ production_ready
unfolding transitions transition_capability
published = refl

create-transitions-IsSound_example :
    IsSound (
      transitions search_capability
        (review_approved ∷ verification_passed ∷ publish_requested ∷ []))
unfolding create_capability
create-transitions-IsSound_example =
    create-transitions-IsSound "search" r1 true
      (review_approved ∷ verification_passed ∷ publish_requested ∷ []) refl

not_ready_without_verification_example :
    ((transitions search_capability (review_approved ∷ publish_requested ∷ [])).status ≢ verified)
    × ((transitions search_capability (review_approved ∷ publish_requested ∷ [])).status
        ≢ production_ready)
unfolding create_capability
not_ready_without_verification_example =
    not_ready_without_verification "search" r1 true (review_approved ∷ publish_requested ∷ []) refl
      ((λ e. cc), ((λ e. cc), tt))

retry_delay_ms_bounds_example :
    (retry_delay_ms 2 none 500000000 < exponential_cap 2)
    × (exponential_cap 2 ≤ 4000)
    × (retry_delay_ms 2 (some 90000) 500000000 ≤ workflow_max_retry_after_ms)
    × (min 90000 workflow_max_retry_after_ms ≤ retry_delay_ms 2 (some 90000) 500000000)
retry_delay_ms_bounds_example = retry_delay_ms_bounds 2 500000000 90000
