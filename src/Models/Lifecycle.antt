-- ===== src/Models/Lifecycle.antt =====
-- relay/common/models.py: the lifecycle that posts and publications share.
use aleyacloud_relay.Base.{Bool, true, false}

pub data LifecycleState : Type 0 where
  draft pending_approval approved scheduled publishing published failed cancelled : LifecycleState

abbrev pub is_draft : LifecycleState → Bool
is_draft LifecycleState.draft = true
is_draft _ = false

abbrev pub is_pending_approval : LifecycleState → Bool
is_pending_approval LifecycleState.pending_approval = true
is_pending_approval _ = false

abbrev pub is_approved : LifecycleState → Bool
is_approved LifecycleState.approved = true
is_approved _ = false

abbrev pub is_scheduled : LifecycleState → Bool
is_scheduled LifecycleState.scheduled = true
is_scheduled _ = false
