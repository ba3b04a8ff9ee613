-- ===== src/Client/Exchange.antt =====
-- A request that the server answers.
use comm_networks_workshop.Base.{ℕ, ◌≤◌, ◌<◌, ◌≡◌, true, false, arith, leb, ◌==◌}
use comm_networks_workshop.Run.{ok}
use comm_networks_workshop.Packet.{eager_protocol_limit}
use comm_networks_workshop.Fabric.{Fabric}
use comm_networks_workshop.Server.{Server, handle_server_packets_only}
use comm_networks_workshop.Client.{Link, set_client_buf, request, receive, exchange}

pub exchange-ok :
    (f : Fabric) (size n : ℕ) (l : Link) (s : Server)
    → size ≤ eager_protocol_limit
    → 0 < n
    → n ≤ eager_protocol_limit
    → handle_server_packets_only (record (l.server) { buf = f.send size l.client.buf l.server.buf })
      ≡ ok (s, n)
    → exchange f size l
      ≡ ok (set_client_buf (f.send n s.buf l.client.buf) (record l { server = s }))
unfolding exchange request receive
exchange-ok f size n l s fits pos fits' h =
    let room : leb size eager_protocol_limit ≡ true = ground arith in
    let room' : leb n eager_protocol_limit ≡ true = ground arith in
    let some_answer : (n == 0) ≡ false = ground arith in rw (room, h, some_answer, room')
