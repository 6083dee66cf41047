-- ===== src/Protocol/Udp/RoundTrip.antt =====
-- Building a UDP_DATA payload and parsing it are inverse to each other.
use atlax.Base.{
  ℕ, ◌<◌, ◌≡◌, refl, ◌⊎◌, inl, inr, Bytes, [], ◌∷◌, ◌++◌, ltb, length, length-append, length-take,
  take-append, drop-append, take-append-drop, All, Bool-cases, ltb→lt, arith,
}
use atlax.Protocol.Frame.{Frame, IsByte}
use atlax.Protocol.Udp.{
  UdpDatagram, addr_too_long, ok, err, parse_udp_data_payload, build_udp_data_payload,
  new_udp_data_frame, udp_data_frame,
}

parse-payload :
    (addr body : Bytes)
    → parse_udp_data_payload (length addr ∷ (addr ++ body))
      ≡ ok (record { source_addr = addr; payload = body })
unfolding parse_udp_data_payload
parse-payload addr body =
    rw (take-append addr body, drop-append addr body) (ground (arith, length-append addr body))

-- A UDP_DATA frame can be made for exactly the addresses of at most 255 bytes, and the receiver parses
-- its payload to that address and that datagram.
pub parse-new_udp_data_frame :
    (stream_id : ℕ) (addr body : Bytes)
    → ((255 < length addr) × (new_udp_data_frame stream_id addr body ≡ err addr_too_long))
      ⊎ ((f : Frame) × (new_udp_data_frame stream_id addr body ≡ ok f)
          × (f.stream_id ≡ stream_id)
          × (parse_udp_data_payload f.payload ≡ ok (record { source_addr = addr; payload = body })))
unfolding new_udp_data_frame
parse-new_udp_data_frame stream_id addr body = elim (Bool-cases (ltb 255 (length addr))) [
  | inl e ↦ inl (ltb→lt _ _ e, rw e)
  | inr e ↦
      inr (
        udp_data_frame stream_id (length addr ∷ (addr ++ body)),
        rw e,
        refl,
        parse-payload addr body,
      )
]

-- A payload that parses is the one that building from the parts gives, so nothing of it is lost.
pub build-parse_udp :
    (bytes : Bytes) (d : UdpDatagram)
    → All IsByte bytes
    → parse_udp_data_payload bytes ≡ ok d
    → build_udp_data_payload d.source_addr d.payload ≡ ok bytes
unfolding parse_udp_data_payload build_udp_data_payload
build-parse_udp [] d h e = cc
build-parse_udp (n ∷ rest) d h e = ground (arith, length-take n rest, take-append-drop n rest)
