-- ===== src/Capi/Actuator/Restarts.antt =====
-- When a restart counts as completed, and whose requests it answers.
use nvsentinel_capi_remediat.Common.{
  String, ◌==◌, ◌≡◌, refl, true, false, not, ◌&&◌, none, some, is_blank, arith,
}
use nvsentinel_capi_remediat.Objects.{Machine, Node}
use nvsentinel_capi_remediat.Capi.Note.{action_restart}
use nvsentinel_capi_remediat.Capi.Actuator.{
  RestartRecord, marked_for, stamp, is_ready, restart_completed, restart_answers,
}
use nvsentinel_capi_remediat.Capi.Actuator.Marks.{
  marked_action-stamp, annotation-stamp_boot_id, annotation-stamp_request,
}

marked_for-stamp :
    (m : Machine) (reason : String) (asked : RestartRecord)
    → marked_for (stamp m action_restart reason asked) action_restart ≡ true
unfolding marked_for
marked_for-stamp m reason asked = rw (marked_action-stamp m action_restart reason asked) refl

-- A Machine that is marked for a restart with a boot ID and a request counts as restarted exactly
-- when its node shows a boot ID, shows another than the recorded one, and is Ready; without a node
-- it does not. Until then and after it answers for the request it was marked through, and for no
-- other.
pub restart_completed-stamp :
    (m : Machine) (reason request : String) (asked : RestartRecord) (node : Node)
    → is_blank asked.boot_id ≡ false
    → is_blank asked.request ≡ false
    → let marked = stamp m action_restart reason asked in
      (restart_completed marked (some node) ≡ (
        not (is_blank node.boot_id)
        && not (node.boot_id == asked.boot_id)
        && is_ready node.conditions))
      × (restart_completed marked none ≡ false)
      × (restart_answers marked request ≡ (asked.request == request))
unfolding restart_completed restart_answers
restart_completed-stamp m reason request asked node boot req = (
  ground (
    arith,
    marked_for-stamp m reason asked,
    annotation-stamp_boot_id m action_restart reason asked,
  ),
  refl,
  ground (arith, annotation-stamp_request m action_restart reason asked),
)
