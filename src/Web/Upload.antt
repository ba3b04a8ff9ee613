-- ===== src/Web/Upload.antt =====
-- A file that was stored and is asked for over the web server of Ex4/nweb23.c.
use comm_networks_workshop.Base.{
  ℕ, ◌<◌, ◌≡◌, refl, true, some, List, [], ◌∷◌, arith, leb, length, length-append, take-append,
}
use comm_networks_workshop.Run.{ok}
use comm_networks_workshop.Bytes.Strings.{IsText}
use comm_networks_workshop.Packet.{eager_protocol_limit}
use comm_networks_workshop.Pool.{Pool}
use comm_networks_workshop.Fabric.{Fabric}
use comm_networks_workshop.Client.{Link, c_str}
use comm_networks_workshop.Client.RoundTrip.{with_pool}
use comm_networks_workshop.Indexer.Find.{home}
use comm_networks_workshop.Dkv.{Dkv, put_link}
use comm_networks_workshop.Dkv.RoundTrip.{IsReady}
use comm_networks_workshop.Files.{file_set_size, got_file}
use comm_networks_workshop.Files.RoundTrip.{dkv_get_file-dkv_set_file}
use comm_networks_workshop.Web.{FileType, web, serves}
use comm_networks_workshop.Web.Respond.{
  ok_header, page_of, page_buffer, serve_reply, web_serve, page,
}
use comm_networks_workshop.Files.Spread.{dkv_set_file, dkv_get_file}
use comm_networks_workshop.Bytes.{Buf, put_bytes}

module _ (f : Fabric) (top_dir : List ℕ) (old : Buf) (sent key : List ℕ) (fstr : FileType)
    (left : Buf) (asks : web top_dir old sent ≡ ok (serves key fstr left)) where
  web_serve-small :
      (value : List ℕ) (d d' : Dkv)
      → dkv_get_file f key d ≡ ok (got_file (c_str value) (some (length value)), d')
      → web_serve f top_dir old sent d
        ≡ ok (
          page (ok_header (length value) fstr) value,
          put_bytes left 0 (c_str (ok_header (length value) fstr)),
          d',
        )
  unfolding web_serve serve_reply page_of page_buffer
  web_serve-small value d d' answered =
      let inside : leb (length value) (length (c_str value)) ≡ true =
        ground (arith, length-append value (0 ∷ [])) in
      rw (asks, answered) (rw (inside, take-append value (0 ∷ [])) refl)

  -- When a request asks for a non-empty key without NUL, with at least one and fewer than 2^32
  -- servers, all well formed, and bytes whose packet for the key is below the eager limit:
  -- `dkv_set` of the client that stores files stores the bytes under the key, and the web server
  -- then answers the request by its header with their length and the type, and by exactly the
  -- bytes, whatever pool the home server's loop has put in place in between.
  pub web_serve-dkv_set_file :
      (value : List ℕ) (d : Dkv) (beyond : ℕ) (p : Pool)
      → IsReady d
      → IsText key
      → 0 < length key
      → file_set_size key value < eager_protocol_limit
      → (d' d'' : Dkv) × (l : Link) × (b : Buf) × (dkv_set_file f beyond key value d ≡ ok d')
        × (web_serve f top_dir old sent (put_link (home key (length d.conns)) (with_pool p l) d')
            ≡ ok (page (ok_header (length value) fstr) value, b, d''))
  web_serve-dkv_set_file value d beyond p ready text live fits =
      let (d', d'', l, was_set, there, others, answered) =
        dkv_get_file-dkv_set_file f key value d ready text live fits beyond p in
      (
        d',
        d'',
        l,
        put_bytes left 0 (c_str (ok_header (length value) fstr)),
        was_set,
        web_serve-small value (put_link (home key (length d.conns)) (with_pool p l) d') d''
            answered,
      )
