-- ===== src/Controller/Reconcile/Causes/Steps.antt =====
-- Why the sequence of all steps returns early.
use cluster_api_control_plan.Kube.{Kube}
use cluster_api_control_plan.Controller.Run.{Run}
