-- ===== src/Smartpcap/Evidence.antt =====
-- internal/smartpcap/policy.go, Apply: what is recorded of a frame.
use netprobe_ir.Smartpcap.{apply, header_bytes}
use netprobe_ir.Prelude.{
  ap₂, length-append, refl, str_eq, some, codes, ◌∙◌, ok, suc, arith, ap, ◌>>=◌, [], append_assoc,
  ◌+◌, length, sym, ◌∷◌, take, ◌++◌, ◌≡◌, ℕ, Bytes,
}
use netprobe_ir.Decode.Datagrams.{
  read_datagram, parse_ethernet-layout, layout, Fits, udp_frame, Datagram,
}
use netprobe_ir.Pcapng.{Frame}
use netprobe_ir.Decode.{new_packet, Packet, parse_ethernet}

take-at : (xs ys : Bytes) (n : ℕ) → take (length xs + n) (xs ++ ys) ≡ xs ++ take n ys
take-at [] ys n = ap (λ k. take k ys) {x = 0 + n} {y = n} (omega arith)
take-at (x ∷ xs) ys n =
    ap (λ k. take k (x ∷ (xs ++ ys))) {x = suc (length xs) + n} {y = suc (length xs + n)}
      (omega arith)
    ∙ ap (λ t. x ∷ t) (take-at xs ys n)

module _ (ip_string : Bytes → Bytes) (macs : Bytes) (d : Datagram) (pad : Bytes) where
  -- the Ethernet, IPv4 and UDP headers
  abbrev pub headers : Bytes
  headers = (macs ++ 8 ∷ 0 ∷ []) ++ take 28 (layout d)

  abbrev frame_bytes : Bytes
  frame_bytes = udp_frame ip_string macs d pad

  udp_frame-headers : frame_bytes ≡ headers ++ (d.payload ++ pad)
  udp_frame-headers =
      sym (append_assoc (macs ++ 8 ∷ 0 ∷ []) (take 28 (layout d)) (d.payload ++ pad))

  header_bytes-layout :
      (p : Packet) (fr : Frame)
      → p.raw ≡ frame_bytes
      → p.payload ≡ d.payload
      → fr.data_bytes ≡ frame_bytes
      → header_bytes p fr ≡ length headers + length pad
  unfolding header_bytes
  header_bytes-layout p fr raw payload same =
      let whole : length frame_bytes ≡ length headers + (length d.payload + length pad) =
        ap length udp_frame-headers
        ∙ (length-append headers (d.payload ++ pad)
            ∙ ap (λ n. length headers + n) (length-append d.payload pad)) in
      rw raw (rw payload (rw same (ground (arith, whole))))

  cut-layout :
      (p : Packet) (fr : Frame)
      → p.raw ≡ frame_bytes
      → p.payload ≡ d.payload
      → fr.data_bytes ≡ frame_bytes
      → take (header_bytes p fr) fr.data_bytes ≡ headers ++ take (length pad) (d.payload ++ pad)
  cut-layout p fr raw payload same =
      ap₂ take (header_bytes-layout p fr raw payload same) (same ∙ udp_frame-headers)
      ∙ take-at headers (d.payload ++ pad) (length pad)

  apply-headers :
      (p : Packet) (fr : Frame) (rule : Bytes)
      → apply (record { action = codes "headers"; rule = rule }) p fr
        ≡ some (record fr { data_bytes = take (header_bytes p fr) fr.data_bytes })
  unfolding apply str_eq
  apply-headers p fr rule = refl

  -- Applying the decision "headers" to a frame that holds a UDP datagram over IPv4, as decoded,
  -- records the three headers and after them as many bytes of the payload and the padding as there
  -- is padding: the headers alone exactly where the frame is not padded. The two MAC addresses
  -- are 12 bytes, and the ports and the total length of the datagram are below 2^16.
  pub apply-layout :
      (fr : Frame) (rule : Bytes)
      → fr.data_bytes ≡ frame_bytes
      → length macs ≡ 12
      → Fits d
      → (do
        p ← parse_ethernet ip_string fr.data_bytes fr.time fr.interface fr.direction
        ok (apply (record { action = codes "headers"; rule = rule }) p fr))
        ≡ ok (some (record fr { data_bytes = headers ++ take (length pad) (d.payload ++ pad) }))
  apply-layout fr rule same twelve fits =
      let p =
        read_datagram ip_string d (new_packet frame_bytes fr.time fr.interface fr.direction) in
      ap
        (λ b. parse_ethernet ip_string b fr.time fr.interface fr.direction >>= λ p.
          ok (apply (record { action = codes "headers"; rule = rule }) p fr))
        same
      ∙ (ap (λ r. r >>= λ p. ok (apply (record { action = codes "headers"; rule = rule }) p fr))
            (parse_ethernet-layout ip_string macs d pad fr.time fr.interface fr.direction twelve
              fits)
          ∙ ap ok (
              apply-headers p fr rule
              ∙ ap (λ b. some (record fr { data_bytes = b })) (cut-layout p fr refl refl same)))
