-- ===== src/Probe/Tunnel/Packet.antt =====
-- `encode_raw_udp_tunnel_frame` of client-probe/src/main.rs against `parse_raw_udp_tunnel_frame` of
-- node-core/src/session.rs.
use cll.Base.{
  ℕ, ◌+◌, ◌^◌, ◌≤◌, ◌<◌, ◌≡◌, ◌≢◌, refl, ap, true, false, Option, none, some, List, [], ◌∷◌, ◌++◌,
  arith, length, take, drop, length-append,
}
use cll.Base.Outcome.{ok}
use cll.Text.{Text, bytes, text_eq, is_utf8, is_blank}
use cll.Wire.{to_be16, to_be32}
use cll.Wire.Fields.{slice_at, field_fits, drop-field, be16_at-to_be16, be32_at-to_be32}
use cll.Node.Tunnel.{
  RawUdpTunnelRequest, FrameError, FrameField, parse_raw_udp_tunnel_frame, check_header,
}
use cll.Node.Tunnel
use cll.Probe.Tunnel.{encode_raw_udp_tunnel_frame}

-- A text field that stands at an offset is read, and the offset moves behind it.
node_field :
    (p : Text) (off : ℕ) (field post : Text) (name : FrameField)
    → drop off p ≡ field ++ post
    → off ≤ length p
    → length p < 2 ^ 64
    → is_utf8 field ≡ true
    → Tunnel.read_utf8_field p off (length field) name ≡ ok (field, off + length field)
unfolding Tunnel.read_utf8_field
node_field p off field post name e h l u =
    let fits : off + length field ≤ length p = field_fits p off field post e h in
    ground (arith, slice_at p off field post e h)

take_all : (xs : Text) → take (length xs) xs ≡ xs
take_all [] = refl
take_all (x ∷ xs) = ap (λ t. x ∷ t) (take_all xs)

abbrev pub some_if_given : Text → Option Text
some_if_given [] = none
some_if_given (c ∷ t) = some (c ∷ t)

node_target_id :
    (p : Text) (off : ℕ) (field post : Text)
    → drop off p ≡ field ++ post
    → off ≤ length p
    → length p < 2 ^ 64
    → is_utf8 field ≡ true
    → Tunnel.read_target_id p off (length field) ≡ ok (some_if_given field, off + length field)
unfolding Tunnel.read_target_id
node_target_id p off [] post e h l u = ground arith
node_target_id p off (c ∷ t) post e h l u =
    rw (node_field p off (c ∷ t) post FrameField.target_id_field e h l u) (ground arith)

module _ (session_id target_id host : Text) (port : ℕ) (payload : List ℕ) where
  abbrev behind : Text
  behind = session_id ++ (target_id ++ (host ++ payload))

  abbrev lengths : Text → Text
  lengths rest =
      to_be16 (length session_id)
      ++ (to_be16 (length target_id)
          ++ (to_be16 (length host) ++ (to_be16 port ++ (to_be32 (length payload) ++ rest))))

  abbrev frame : Text
  frame = bytes "XAU1" ++ (1 ∷ 1 ∷ 0 ∷ 0 ∷ lengths behind)

  length-behind :
      length behind ≡ length session_id + length target_id + length host + length payload
  length-behind = omega (
    arith,
    length-append session_id (target_id ++ (host ++ payload)),
    length-append target_id (host ++ payload),
    length-append host payload,
  )

  -- The header is as the parser wants it.
  header_accepted : Tunnel.check_header frame ≡ ok tt
  unfolding Tunnel.check_header text_eq
  header_accepted = ground arith

  module _ (hs : length session_id < 2 ^ 16) (ht : length target_id < 2 ^ 16)
      (hh : length host < 2 ^ 16) (hp : port < 2 ^ 16) (hl : length payload < 2 ^ 32) where
    read_lengths :
        (Tunnel.read_u16 frame 8 ≡ ok (length session_id))
        × (Tunnel.read_u16 frame 10 ≡ ok (length target_id))
        × (Tunnel.read_u16 frame 12 ≡ ok (length host))
        × (Tunnel.read_u16 frame 14 ≡ ok port)
        × (Tunnel.read_u32 frame 16 ≡ ok (length payload))
    unfolding Tunnel.read_u16 Tunnel.read_u32
    read_lengths = (
      rw (be16_at-to_be16 (take 8 frame) (drop 10 frame) (length session_id) hs),
      rw (be16_at-to_be16 (take 10 frame) (drop 12 frame) (length target_id) ht),
      rw (be16_at-to_be16 (take 12 frame) (drop 14 frame) (length host) hh),
      rw (be16_at-to_be16 (take 14 frame) (drop 16 frame) port hp),
      rw (be32_at-to_be32 (take 16 frame) (drop 20 frame) (length payload) hl),
    )

    total_read :
        Tunnel.total_length (length session_id) (length target_id) (length host) (length payload)
        ≡ ok (length frame)
    unfolding Tunnel.total_length
    total_read = ground (arith, length-behind)

    frame_small : length frame < 2 ^ 64
    frame_small = omega (arith, length-behind)

    module _ (us : is_utf8 session_id ≡ true) (ut : is_utf8 target_id ≡ true)
        (uh : is_utf8 host ≡ true) (bs : is_blank session_id ≡ false) (bh : is_blank host ≡ false)
        (port_given : port ≢ 0) where
      fields_read :
          Tunnel.read_fields frame
            (length session_id)
            (length target_id)
            (length host)
            port
            (length payload)
          ≡ ok (record {
            session_id = session_id;
            target_id = some_if_given target_id;
            host = host;
            port = port;
            payload = payload;
          })
      unfolding Tunnel.read_fields
      fields_read =
          let at1 = drop-field frame 20 session_id (target_id ++ (host ++ payload)) refl in
          let at2 = drop-field frame (20 + length session_id) target_id (host ++ payload) at1 in
          let at3 = drop-field frame (20 + length session_id + length target_id) host payload at2 in
          rw
            (
              node_field frame 20 session_id (target_id ++ (host ++ payload))
                  FrameField.session_id_field refl (omega (arith, length-behind)) frame_small us,
              node_target_id frame (20 + length session_id) target_id (host ++ payload) at1
                  (omega (arith, length-behind)) frame_small ut,
              node_field frame (20 + length session_id + length target_id) host payload
                  FrameField.host_field at2 (omega (arith, length-behind)) frame_small uh,
              at3,
              take_all payload,
              bs,
              bh,
            )
            (ground arith)

      -- What the client encodes, the node parses back: a session id and a host that are UTF-8 and not
      -- blank, a target id that is UTF-8 and may be empty, a port that is not 0, and any payload, each
      -- within the width of its length field.
      pub parse-encode_frame :
          (f : Text) × (encode_raw_udp_tunnel_frame session_id target_id host port payload ≡ ok f)
          × (Tunnel.parse_raw_udp_tunnel_frame f
              ≡ ok (record {
                session_id = session_id;
                target_id = some_if_given target_id;
                host = host;
                port = port;
                payload = payload;
              }))
      unfolding encode_raw_udp_tunnel_frame Tunnel.parse_raw_udp_tunnel_frame
      parse-encode_frame = (
        frame,
        ground arith,
        rw
            (
              header_accepted, read_lengths.0, read_lengths.1, read_lengths.2, read_lengths.3,
              read_lengths.4, total_read,
            )
            (rw fields_read (ground arith)),
      )
