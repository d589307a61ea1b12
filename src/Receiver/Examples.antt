-- ===== src/Receiver/Examples.antt =====
-- The theorems on the whole of scripts/deploy-gcp.py at a deployment that comes to its end.
use map_service_infra.Base.{false, [], string_eq}
use map_service_infra.Receiver.Model.{State}
use map_service_infra.Receiver.Order.{Ordered}
use map_service_infra.Receiver.Receive.{receive}
use map_service_infra.Receiver.Receive.Whole.{Outcome, receive-Ordered, receive-Outcome}
use map_service_infra.Receiver.Hosts.Ready.{host}

abbrev begin : State
begin = record { own = false; trace = [] }

receive-Ordered_example : Ordered host (receive host begin).1.trace
receive-Ordered_example = receive-Ordered host begin tt

receive-Outcome_example : Outcome host [] (receive host begin).0 (receive host begin).1.trace
receive-Outcome_example = receive-Outcome host begin tt
