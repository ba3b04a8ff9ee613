-- ===== src/Sessions/Closing.antt =====
-- The close packets of Ex4/kv_client.c reach every server.
use comm_networks_workshop.Base.{suc, ◌≡◌, refl, ap, ◌∙◌, true, List, [], ◌∷◌, arith, length, All}
use comm_networks_workshop.Run.{ok}
use comm_networks_workshop.Bytes.{Buf, get_u32}
use comm_networks_workshop.Bytes.Laws.{get_u32-put_u32, get_u32-put_u32_ne, get_u32-transmit}
use comm_networks_workshop.Packet.{
  code, kind-code, type_at, length_at, sizeof_packet, close_connection,
}
use comm_networks_workshop.Fabric.{Fabric, send-transmit}
use comm_networks_workshop.Server.{Server, dispatch}
use comm_networks_workshop.Server.Lookup.{dispatch-code}
use comm_networks_workshop.Client.{Client, Link, set_client_buf, request, send_only, kv_close}
use comm_networks_workshop.Indexer.{Indexer, handle, handle_indexer_packet}
use comm_networks_workshop.Dkv.{Conn, Dkv}
use comm_networks_workshop.Sessions.{close_packet, mkv_close, close_indexer, dkv_close}

module _ (f : Fabric) where
  close_packet_kind :
      (b c : Buf)
      → get_u32 (f.send sizeof_packet (close_packet b) c) type_at ≡ code close_connection
  unfolding close_packet code
  close_packet_kind b c = rw (send-transmit f) (
      get_u32-transmit sizeof_packet type_at _ c (omega arith)
      ∙ get_u32-put_u32_ne _ type_at length_at 1 (omega arith)
      ∙ get_u32-put_u32 b type_at 7 (omega arith))

  -- A close packet reaches the server, which keeps its entries.
  pub kv_close-ok :
      (l : Link)
      → (l' : Link) × (kv_close f l ≡ ok l')
        × (l'.server.close_server ≡ true)
        × (l'.server.entries ≡ l.server.entries)
  unfolding kv_close send_only request dispatch set_client_buf close_packet
  kv_close-ok l =
      let s : Server = record (l.server) {
        buf = f.send sizeof_packet (close_packet l.client.buf) l.server.buf;
      } in
      (
        record {
          client = record (l.client) { buf = close_packet l.client.buf };
          server = record s { close_server = true };
        },
        rw (dispatch-code s close_connection (close_packet_kind l.client.buf l.server.buf)),
        refl,
        refl,
      )

  close_indexer-ok :
      (b : Buf) (i : Indexer)
      → (i' : Indexer) × (close_indexer f b i ≡ ok i') × (i'.close_server ≡ true)
  unfolding close_indexer handle_indexer_packet handle
  close_indexer-ok b i =
      let s : Indexer = record i { buf = f.send sizeof_packet (close_packet b) i.buf } in
      (
        record s { close_server = true },
        rw (close_packet_kind b i.buf, kind-code close_connection),
        refl,
      )

  mkv_close-ok :
      (conns : List Conn) (c : Client)
      → (cs : List Conn) × (mkv_close f conns c ≡ ok cs)
        × All (λ x. x.server.close_server ≡ true) cs
        × (length cs ≡ length conns)
  unfolding mkv_close
  mkv_close-ok [] c = ([], refl, tt, refl)
  mkv_close-ok (conn ∷ conns) c =
      let (l, closed, told, same) =
        kv_close-ok (record { client = record c { buf = conn.ctx_buf }; server = conn.server }) in
      let (cs, rest, all, n) = mkv_close-ok conns c in
      (
        record { ctx_buf = l.client.buf; server = l.server } ∷ cs,
        rw (mkv_close, closed, rest),
        (told, all),
        ap suc n,
      )

  -- `dkv_close` succeeds, and the index server and every server that the client is connected to has
  -- received its close packet.
  pub dkv_close-ok :
      (d : Dkv)
      → (d' : Dkv) × (dkv_close f d ≡ ok d')
        × (d'.indexer.close_server ≡ true)
        × All (λ x. x.server.close_server ≡ true) d'.conns
        × (length d'.conns ≡ length d.conns)
  unfolding dkv_close
  dkv_close-ok d =
      let (i, one, told) = close_indexer-ok d.indexer_buf d.indexer in
      let (cs, rest, all, n) = mkv_close-ok d.conns d.globals in
      (
        record d { indexer_buf = close_packet d.indexer_buf; indexer = i; conns = cs },
        rw (one, rest),
        told,
        all,
        n,
      )
