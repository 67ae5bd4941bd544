-- ===== src/System/Requests/Refinement.antt =====
-- An execution of the daemon implements the updates of the abstract table.
use bpfd.Prelude.{◌≡◌, some, List, nat_eq, text_eq}
use bpfd.Proc.{Host}
use bpfd.Rules.Table.{find_rule}
use bpfd.Api.{Server}
use bpfd.System.{Input}
use bpfd.System.Invariant.{IsServing}
use bpfd.System.Requests.{updates, execute}

-- how an execution without a panic ends
pub record Implements (h : Host) (is : List Input) (s : Server) : Type 0 where
  pub after : Server
  pub executed : execute h is s ≡ some after
  pub serves : IsServing after
  pub table : find_rule after.rules ≡ updates s.tracer_list s.action_list is (find_rule s.rules)
