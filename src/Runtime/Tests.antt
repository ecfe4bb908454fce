-- ===== src/Runtime/Tests.antt =====
-- Runs of src/runtime, over a parser that takes its whole input for the target of a GET request.
use net.Base.{
  ℕ, zero, suc, ◌+◌, ◌%◌, ◌<◌, ◌≤◌, ◌≡◌, ◌≢◌, refl, Text, codes, Bool, true, false, not, ◌&&◌, ◌||◌,
  List, [], ◌∷◌, length, All, Option, none, some, arith,
}
use net.Routing.Sorting.{by_insertion}
use net.Routing.Segments.{split_path}
use net.Routing.Snapshot.{match}
use net.Protocol.Codec.{
  default_config, Event, url, header_field, header_value, headers_complete, Errno, hpe_ok,
  hpe_other, Llhttp,
}
use net.Observability.Metrics.{new_shard}
use net.Runtime.Fixtures.{get_only, config, spine, world, connection}
use net.Runtime.Responses.{build_http_response}
use net.Runtime.Spine as Spine
use net.Runtime.Spine.{
  SpineConfig, RuntimeSpine, World, Listening, Connection, received, failed, default_snapshot,
  respond, handle_connection,
}
use net.Runtime.Spine.Loop.{AcceptOutcome, accepted, operation_aborted, other_error, accept_loop}
use net.Runtime.Spine.Requests.{answer, respond-request}
use net.Protocol.Codec.Requests.{Request, verdict}
use net.Protocol.Codec.Assembly.{concat}
use net.Protocol.Codec.Messages.{HasValue, sizes}
use net.Runtime.Spine.Handling.{passes, is_some, handle_connection-written}
use net.Runtime.Spine.Accepting.{Counts, accept_loop-Counts}
use net.Runtime.Gateway as Gateway
use net.Runtime.Gateway.{Worker, GatewayRuntime, Launch, start, new_gateway}
use net.Runtime.Gateway.Lifecycle.{Command, starts, stops, commands}
use net.Runtime.Gateway.Restarting.{IsClosed, commands-stop-IsClosed}

not_found : (respond get_only world (codes "/none")).0 ≡ 404
unfolding respond net.Protocol.Codec.Parsing.parse net.Base.text_eq match
    net.Routing.Trie.find_longest_prefix_rules default_snapshot net.Routing.Snapshot.finalize
    split_path net.Routing.Trie.find_child net.Routing.Trie.sort_rules net.Routing.Trie.build_trie
    net.Routing.Snapshot.add_rule net.Routing.Trie.add_to_trie net.Routing.Trie.update_child
    net.Base.find
not_found = refl

found : (respond get_only world (codes "/proxy/mock/a")).0 ≡ 200
unfolding respond net.Protocol.Codec.Parsing.parse net.Base.text_eq match
    net.Routing.Trie.find_longest_prefix_rules default_snapshot net.Routing.Snapshot.finalize
    split_path net.Routing.Trie.find_child net.Routing.Trie.sort_rules net.Routing.Trie.build_trie
    net.Routing.Snapshot.add_rule net.Routing.Trie.add_to_trie net.Routing.Trie.update_child
    net.Base.find net.Routing.Host.host_matches net.Routing.Snapshot.ip_allowed
found = refl

root_body :
    (respond get_only world (codes "/")).1
    ≡ build_http_response 200
        (codes "OK")
        (codes "netp2 phase-a\n")
        (codes "text/plain; charset=utf-8")
unfolding respond build_http_response net.Protocol.Codec.Parsing.parse net.Base.text_eq match
    net.Routing.Trie.find_longest_prefix_rules default_snapshot net.Routing.Snapshot.finalize
    split_path net.Routing.Trie.sort_rules net.Routing.Trie.build_trie net.Routing.Snapshot.add_rule
    net.Routing.Trie.add_to_trie net.Routing.Host.host_matches net.Routing.Snapshot.ip_allowed
    net.Runtime.Responses.mock_upstream_call
root_body = refl

abbrev none_request : Request
none_request = record {
  urls = codes "/none" ∷ [];
  headers = record { first = codes "Host"; more = []; values = codes "localhost" ∷ [] } ∷ [];
  bodies = [];
}

has_value : All HasValue none_request.headers
unfolding concat
has_value = ((λ e. cc, λ e. cc), tt)

fits : sizes none_request.headers ≤ 8192
unfolding concat
fits = omega arith

respond-request_example :
    respond get_only world (codes "/none")
    ≡ answer world.registry
        (verdict default_config 1 1 none_request)
        (codes "GET")
        (concat none_request.urls)
unfolding net.Protocol.Codec.parser_error
respond-request_example =
    respond-request get_only by_insertion world (codes "/none") none_request refl refl refl
      has_value fits (omega arith)

handle_connection-written_example :
    is_some (handle_connection get_only (some 0) (connection (codes "/") false) world).1
    ≡ (passes config (connection (codes "/") false) && true && true)
handle_connection-written_example =
    handle_connection-written get_only (some 0) (connection (codes "/") false) world (λ w. refl)
      (λ w. refl)

abbrev arrivals : List AcceptOutcome
arrivals =
    accepted true
    ∷ other_error
    ∷ accepted false
    ∷ accepted true
    ∷ operation_aborted
    ∷ accepted true
    ∷ []

two_handed_on : (accept_loop (some 0) world arrivals).1 ≡ 2
unfolding accept_loop net.Runtime.Spine.Loop.accept_step
two_handed_on = refl

accept_loop-Counts_example :
    Counts (some 0) true true arrivals 0 (some new_shard ∷ []) (accept_loop (some 0) world arrivals)
accept_loop-Counts_example = accept_loop-Counts (some 0) world arrivals true true refl refl

abbrev worker : Bool → ℕ → Worker
worker is_running shard = record {
  spine = spine;
  metrics_shard = shard;
  is_spawned = is_running;
  is_stopped = false;
  is_running = is_running;
}

abbrev idle_gateway : GatewayRuntime
idle_gateway = record {
  config = config;
  workers = worker false 0 ∷ worker false 1 ∷ [];
  started = false;
}

abbrev started_gateway : GatewayRuntime
started_gateway = record {
  config = config;
  workers = worker true 0 ∷ worker true 1 ∷ [];
  started = true;
}

-- The second thread cannot be bound to its core.
abbrev second_fails : ℕ → Launch
second_fails zero = record { thread_ok = true; bind_ok = true }
second_fails (suc i) = record { thread_ok = true; bind_ok = false }

abbrev all_well : ℕ → Launch
all_well i = record { thread_ok = true; bind_ok = true }

start_throws : (start 4 second_fails idle_gateway).1 ≡ false
unfolding start
start_throws = refl

restart_succeeds : (start 4 all_well (Gateway.stop started_gateway)).1 ≡ true
unfolding start Gateway.stop
restart_succeeds = refl

abbrev restarts : List Command
restarts = starts 4 second_fails ∷ starts 4 all_well ∷ stops ∷ []

commands-stop-IsClosed_example :
    All IsClosed (commands (Gateway.stop started_gateway) (starts 4 all_well ∷ [])).workers
commands-stop-IsClosed_example =
    commands-stop-IsClosed started_gateway (starts 4 all_well ∷ []) refl
