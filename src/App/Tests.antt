-- ===== src/App/Tests.antt =====
-- Runs of src/app/main.cpp.
use net.Base.{codes, ◌==◌, not, ◌≡◌, refl, true, [], if◌then◌else◌}
use net.Routing.Sorting.{by_insertion}
use net.Runtime.Gateway.Answers.{all_from}
use net.App.{Host, main_config, begin, on_signal}
use net.App.Serving.{agreed, Exits, begin-Exits}
use net.App.Output.{listening_line}

-- A host of two cores that agrees to everything, and one that refuses to bind the second thread.
abbrev willing : Host
willing = record {
  cores = 2;
  listening = λ i. record { address_ok = true; reuse_port_ok = true; bind_ok = true };
  launch = λ i. record { thread_ok = true; bind_ok = true };
  signals_ok = true;
}

abbrev unwilling : Host
unwilling = record willing { launch = λ i. record { thread_ok = true; bind_ok = not (i == 1) } }

agreed-willing : agreed willing ≡ true
unfolding all_from
agreed-willing = refl

the_line :
    listening_line main_config 2
    ≡ codes "netp2 gateway phase-b-step1 0.1.0 workers=2 listening on 0.0.0.0:18080\n"
unfolding net.Base.to_string
the_line = refl

begin-Exits_example :
    Exits (if agreed unwilling then 0 else 1) (on_signal (begin by_insertion unwilling []))
begin-Exits_example = begin-Exits by_insertion unwilling []
