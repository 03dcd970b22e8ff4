-- ===== src/Sbuf/Loop/Tests.antt =====
-- src/sbuf.c: two responses of a server come in parts, the first to a request of the pooler, and the
-- client's socket is full in between.
use pgbouncer.Base.{◌≡◌, refl, true, false, Bytes, List, [], ◌∷◌, ◌++◌, none, some, arith}
use pgbouncer.Iobuf.{parse_all}
use pgbouncer.Pktbuf.Memory.{poke}
use pgbouncer.Prepare.{Link, OutstandingRequest, ra_skip, ra_forward, ResponseAction}
use pgbouncer.Prepare.Requests.{pop_outstanding_request}
use pgbouncer.Sbuf.Forward.{forwards}
use pgbouncer.Sbuf.Session.{Session}
use pgbouncer.Sbuf.Responses.{responses, responses-IsFraming, responses_host, responses-Serves}
use pgbouncer.Sbuf.Loop.Wakeups.{readable, writable, SocketEvent, run_events}
use pgbouncer.Sbuf.Loop.Events.{Fresh, run_events-Delivered, run_events-Idle}
use pgbouncer.Sbuf.Loop.{Peer, arrived}
use pgbouncer.Sbuf.Packets.{skips, calls}
use pgbouncer.Sbuf.{
  Sbuf, Host, took, would_block, w_recv, act_unset, act_send, sbuf_prepare_send, sbuf_prepare_skip,
}

abbrev buf : Bytes
buf = 0 ∷ 0 ∷ 0 ∷ 0 ∷ 0 ∷ 0 ∷ 0 ∷ 0 ∷ 0 ∷ 0 ∷ 0 ∷ 0 ∷ []

abbrev host : Host Session
host = responses_host buf

abbrev a_parse : ResponseAction → OutstandingRequest
a_parse action = record { type = b'P'; action = action; server_ps = none; server_ps_query_id = 0 }

abbrev link : List OutstandingRequest → Link
link requests = record {
  prepared_statements = [];
  next_unique_query_id = 1;
  client_prepared_statements = [];
  server_prepared_statements = [];
  outstanding_requests = requests;
  to_server = [];
  to_client = [];
}

abbrev session : List OutstandingRequest → Session
session requests = record { link = link requests; query_failed = false; copy_mode = false }

abbrev new : Sbuf Session
new = record {
  wait_type = w_recv;
  pkt_action = act_unset;
  sock = true;
  pkt_remain = 0;
  skip_remain = 0;
  extra_packets = [];
  extra_packet_queue_after = false;
  dst_sock = true;
  io = none;
  sent = [];
  answers = [];
  handler = session (a_parse ra_skip ∷ a_parse ra_forward ∷ []);
}

new-Fresh : Fresh new
new-Fresh = record { between = refl; none_extra = refl; none_sent = refl; no_buffer = refl }

abbrev input : Peer
input = record {
  incoming = b'1' ∷ 0 ∷ 0 ∷ 0 ∷ 4 ∷ b'1' ∷ 0 ∷ 0 ∷ 0 ∷ 4 ∷ [];
  arrivals = [];
  tls_pending = false;
}

abbrev evs : List SocketEvent
evs =
    record { wakeup = readable; arrivals = arrived 3 false ∷ []; answers = [] }
    ∷ record {
      wakeup = readable;
      arrivals = arrived 9 false ∷ [];
      answers = took 1 ∷ would_block ∷ [];
    }
    ∷ record { wakeup = writable; arrivals = []; answers = took 9 ∷ [] }
    ∷ []

-- The first response is skipped, the second one, of the same bytes, is sent.
sent_so_far :
    elim (run_events host 12 5 evs input new) [ none ↦ [] | some r ↦ r.1.sent ]
    ≡ (b'1' ∷ 0 ∷ 0 ∷ 0 ∷ 4 ∷ [])
unfolding run_events parse_all poke sbuf_prepare_send sbuf_prepare_skip skips calls
    pop_outstanding_request
sent_so_far = refl

run_events-Delivered_example :
    (peer' : Peer) × (st' : Sbuf Session) × (run_events host 12 5 evs input new ≡ some (peer', st'))
    × ((lost : Bytes) × (st'.sent ++ lost ≡ forwards responses new.handler input.incoming))
run_events-Delivered_example =
    run_events-Delivered responses 12 host responses-IsFraming (responses-Serves buf (omega arith))
      5 (omega arith) evs input new new-Fresh

abbrev last_peer : Peer
last_peer = record { incoming = []; arrivals = []; tls_pending = false }

abbrev last : Sbuf Session
last = record new {
  pkt_action = act_send;
  extra_packet_queue_after = true;
  sent = b'1' ∷ 0 ∷ 0 ∷ 0 ∷ 4 ∷ [];
  handler = session [];
}

run_events-Idle_example : last.sent ≡ forwards responses new.handler input.incoming
unfolding run_events parse_all poke sbuf_prepare_send sbuf_prepare_skip skips calls
    pop_outstanding_request
run_events-Idle_example =
    run_events-Idle responses 12 host responses-IsFraming (responses-Serves buf (omega arith)) 5
      (omega arith) evs input last_peer new last new-Fresh refl refl
      (record { none_coming = refl; none_unparsed = refl; none_pending = refl; none_extra = refl })
