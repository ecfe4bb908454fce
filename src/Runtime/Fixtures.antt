-- ===== src/Runtime/Fixtures.antt =====
-- A parser that takes its whole input for the target of a GET request, and a worker, for the tests.
use net.Base.{refl, Text, codes, Bool, true, false, [], ◌∷◌, some}
use net.Routing.Sorting.{by_insertion}
use net.Protocol.Codec.{
  message_begin, message_complete, url, header_field, header_value, headers_complete, hpe_ok,
  hpe_other, Llhttp,
}
use net.Observability.Metrics.{new_shard}
use net.Runtime.Spine.{SpineConfig, RuntimeSpine, World, Connection, received, default_snapshot}

abbrev pub get_only : Llhttp
get_only = record {
  Parser = Unit {0};
  initial = tt;
  restart = λ p. p;
  callbacks = λ p t.
      message_begin
      ∷ url t
      ∷ header_field (codes "Host")
      ∷ header_value (codes "localhost")
      ∷ headers_complete
      ∷ message_complete
      ∷ [];
  result = λ p t. hpe_ok;
  after = λ p t. p;
  after_abort = λ p t n. p;
  abort_result = λ p t n. hpe_other;
  abort_result-lem = λ p t n. refl;
  http_major = λ p. 1;
  http_minor = λ p. 1;
  method_name = λ p. codes "GET";
}

abbrev pub config : SpineConfig
config = record {
  listen_address = codes "127.0.0.1";
  listen_port = 18080;
  enable_reuse_port = false;
  enable_executor_affinity_checks = true;
}

abbrev pub spine : RuntimeSpine
spine = record {
  config = config;
  is_open = true;
  affinity_violation_count = 0;
  route_config = default_snapshot by_insertion;
}

abbrev pub world : World
world = record { spine = spine; registry = some new_shard ∷ [] }

abbrev pub connection : Text → Bool → Connection
connection request still_here = record {
  socket_here = true;
  coroutine_here = true;
  during_read = λ w. w;
  read_outcome = received request;
  during_post = λ w. w;
  still_here = still_here;
  during_write = λ w. w;
  write_ok = true;
}
