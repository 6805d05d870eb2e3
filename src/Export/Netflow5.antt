-- ===== src/Export/Netflow5.antt =====
-- internal/flowexport/encode.go, netflow5: the size of a datagram, and when one is made.
use netprobe_ir.Export.{endpoints, ipv4_only, Collector, Encoder, Net, NetLaws}
use netprobe_ir.Export.Encoders.{bump, ifindex, needs_ipv6, netflow5, netflow5_record}
use netprobe_ir.Model.{Flow}
use netprobe_ir.Prelude.{
  Bool-cases, ◌⊎◌, inr, inl, Option-cases, ap, some, ℕ, err, length-append, arith, true, ◌^◌, ◌%◌,
  ◌++◌, ◌+◌, ok, false, length, Bytes, ◌≡◌, Time,
}
use netprobe_ir.Wire.{be16, be32}

module _ (net : Net) (laws : NetLaws net) where
  length-netflow5_record :
      (e : Encoder) (c : Collector) (f : Flow) (now : Time) (src dst : Bytes)
      → length src ≡ 4
      → length dst ≡ 4
      → length (netflow5_record net e c f now src dst) ≡ 72
  unfolding netflow5_record
  length-netflow5_record e c f now src dst p q =
      let tail = be32 0 ++ (be16 (ifindex net f c.source_interface) ++ be16 0) in
      omega (arith, length-append {A = ℕ} src, length-append {A = ℕ} dst)

  module _ (e : Encoder) (c : Collector) (f : Flow) (now : Time) where
    netflow5-ok :
        (src dst : Bytes)
        → net.to4 (endpoints f).0.ip ≡ some src
        → net.to4 (endpoints f).1.ip ≡ some dst
        → netflow5 net e c f now ≡ (bump net e, ok (netflow5_record net e c f now src dst))
    unfolding netflow5
    netflow5-ok src dst p q = ground arith

    netflow5-err : needs_ipv6 net f ≡ true → netflow5 net e c f now ≡ (e, err ipv4_only)
    unfolding netflow5 needs_ipv6
    netflow5-err h = ground arith

    addresses :
        needs_ipv6 net f ≡ false
        → (src : Bytes) × (dst : Bytes) × (net.to4 (endpoints f).0.ip ≡ some src)
          × (net.to4 (endpoints f).1.ip ≡ some dst)
    unfolding needs_ipv6
    addresses h = elim (Option-cases (net.to4 (endpoints f).0.ip)) [
      | inl a ↦ absurd (ground arith)
      | inr (src, p) ↦ elim (Option-cases (net.to4 (endpoints f).1.ip)) [
        | inl b ↦ absurd (ground arith)
        | inr (dst, q) ↦ (src, dst, p, q)
      ]
    ]

    -- netflow5 succeeds exactly if both ends of the flow have IPv4 addresses. Then the datagram is
    -- 72 bytes long and the sequence number goes up by one, wrapping at 32 bits. Otherwise the
    -- error is that the format is for IPv4 only, and the encoder is as it was.
    netflow5_lem :
        ((needs_ipv6 net f ≡ false)
          × ((b : Bytes) × ((netflow5 net e c f now).1 ≡ ok b)
              × (length b ≡ 72)
              × ((netflow5 net e c f now).0.sequence ≡ (e.sequence + 1) % 2 ^ 32)))
        ⊎ ((needs_ipv6 net f ≡ true) × (netflow5 net e c f now ≡ (e, err ipv4_only)))
    netflow5_lem = elim (Bool-cases (needs_ipv6 net f)) [
      | inl ipv6 ↦ inr (ipv6, netflow5-err ipv6)
      | inr ipv4 ↦ inl (ipv4, sends ipv4)
    ]
      where
        sends :
            needs_ipv6 net f ≡ false
            → (b : Bytes) × ((netflow5 net e c f now).1 ≡ ok b)
              × (length b ≡ 72)
              × ((netflow5 net e c f now).0.sequence ≡ (e.sequence + 1) % 2 ^ 32)
        sends h =
            let (src, dst, p, q) = addresses h in
            let made = netflow5-ok src dst p q in
            (
              netflow5_record net e c f now src dst,
              ap (λ r. r.1) made,
              length-netflow5_record e c f now src dst (laws.length-to4 _ src p)
                  (laws.length-to4 _ dst q),
              ap (λ r. r.0.sequence) made,
            )
