-- ===== src/Dpi/Tls/Bounds.antt =====
-- internal/dpi/dpi.go, parseTLSClientHello: the bounds of the reads of its extensions.
use netprobe_ir.Dpi.Tls.{
  Extensions, read_be24, read_pairs, no_grease, grease, read_sni, read_alpn, read_list16,
  read_list8, read_versions,
}
use netprobe_ir.Prelude.{
  Any, min, leb→lt, ltb→le, [], leb→le, Safe-map, inr, inl, leb, zero, Bool-cases, arith, false,
  ltb, suc, ◌^◌, Safe-if, length, ◌+◌, ◌<◌, ◌∷◌, ◌≡◌, ◌≤◌, All, Bytes, List, ℕ, Safe, returns,
  Safe-bind,
}
use netprobe_ir.Wire.{AreBytes}
use netprobe_ir.Wire.Reads.{index-Safe, slice_at-Safe, read_be16-Safe}

abbrev pub IsCode : ℕ → Type 0
IsCode v = v < 2 ^ 16

-- The lists of a ClientHello hold 16-bit numbers, and those of a peer that greases no grease.
abbrev pub IsPlain : ℕ → Type 0
IsPlain v = IsCode v × (grease v ≡ false)

pub All-no_grease : (vs : List ℕ) → All IsCode vs → All IsPlain (no_grease vs)
unfolding no_grease
All-no_grease [] hs = tt
All-no_grease (v ∷ vs) (h, hs) = elim (Bool-cases (grease v)) [
  | inl greased ↦ rw greased (All-no_grease vs hs)
  | inr plain ↦ rw plain ((h, plain), All-no_grease vs hs)
]

pub record Plain (h : Extensions) : Type 0 where
  pub exts : All IsPlain h.exts
  pub groups : All IsPlain h.groups
  pub points : AreBytes h.points
  pub supported : All IsCode h.supported
  pub sig_algs : All IsPlain h.sig_algs

module _ (b : Bytes) (bytes : AreBytes b) where
  pub read_be24-Safe : (i : ℕ) → i + 3 ≤ length b → Safe (λ v. v < 2 ^ 24) (read_be24 b i)
  unfolding read_be24
  read_be24-Safe i room = Safe-bind (index-Safe b i bytes (omega arith)) λ x x_fits.
      Safe-bind (index-Safe b (i + 1) bytes (omega arith)) λ y y_fits.
        Safe-bind (index-Safe b (i + 2) bytes (omega arith)) λ z z_fits. returns (omega arith)

  pub read_pairs-Safe :
      (fuel q stop : ℕ)
      → stop ≤ length b
      → stop < q + fuel
      → 0 < fuel
      → Safe (All IsCode) (read_pairs b fuel q stop)
  unfolding read_pairs
  read_pairs-Safe zero q stop room enough some_fuel = absurd (omega arith)
  read_pairs-Safe (suc fuel) q stop room enough some_fuel =
      Safe-if (leb stop (q + 1)) _ _ (λ _. returns tt)
        λ more.
          let inside : q + 2 ≤ length b = ground (arith, more, room) in
          Safe-bind (read_be16-Safe b q bytes inside) λ v v_fits.
            Safe-bind
              (read_pairs-Safe fuel (q + 2) stop room (omega arith) (ground (arith, more, enough)))
              λ vs vs_fit. returns (v_fits, vs_fit)

  pub read_sni-Safe : (old : Bytes) → Safe Any (read_sni b old)
  unfolding read_sni
  read_sni-Safe old =
      Safe-if (ltb (length b) 5) _ _ (λ _. returns tt)
        λ five.
          let room : 5 ≤ length b = ground (arith, five) in
          Safe-bind (read_be16-Safe b 3 bytes room) λ n _.
            Safe-if (leb (5 + n) (length b)) _ _
              (λ inside.
                Safe-map (slice_at-Safe b 5 (5 + n) bytes (omega arith) (leb→le _ _ inside))
                  λ _ _. tt)
              λ _. returns tt

  pub read_alpn-Safe :
      (fuel q : ℕ) → q ≤ length b → length b < q + fuel → Safe Any (read_alpn b fuel q)
  unfolding read_alpn
  read_alpn-Safe zero q here enough = absurd (omega arith)
  read_alpn-Safe (suc fuel) q here enough =
      Safe-if (leb (length b) q) _ _ (λ _. returns tt)
        λ more.
          let inside : q < length b = leb→lt _ _ more in
          Safe-bind (index-Safe b q bytes inside) λ n _.
            Safe-if (ltb (length b) (q + 1 + n)) _ _ (λ _. returns tt)
              λ fits.
                let end : q + 1 + n ≤ length b = ltb→le _ _ fits in
                Safe-bind (slice_at-Safe b (q + 1) (q + 1 + n) bytes (omega arith) end) λ name _.
                  Safe-bind (read_alpn-Safe fuel (q + 1 + n) end (omega arith))
                    λ names _. returns tt

  pub read_list16-Safe : Safe (All IsCode) (read_list16 b)
  unfolding read_list16
  read_list16-Safe =
      Safe-if (ltb (length b) 2) _ _ (λ _. returns tt)
        λ two.
          let room : 2 ≤ length b = ltb→le _ _ two in
          Safe-bind (read_be16-Safe b 0 bytes room) λ n _.
            read_pairs-Safe (length b) 2 (min (2 + n) (length b)) (omega arith) (omega arith)
              (omega arith)

  pub read_list8-Safe : Safe AreBytes (read_list8 b)
  unfolding read_list8
  read_list8-Safe =
      Safe-if (ltb (length b) 1) _ _ (λ _. returns tt)
        λ one.
          let room : 1 ≤ length b = ltb→le _ _ one in
          Safe-bind (index-Safe b 0 bytes room) λ n _.
            Safe-map (slice_at-Safe b 1 (min (1 + n) (length b)) bytes (omega arith) (omega arith))
              λ _ w. w.bytes

  pub read_versions-Safe : Safe (All IsCode) (read_versions b)
  unfolding read_versions
  read_versions-Safe =
      Safe-if (ltb (length b) 1) _ _ (λ _. returns tt)
        λ one.
          let room : 1 ≤ length b = ltb→le _ _ one in
          Safe-bind (index-Safe b 0 bytes room) λ n _.
            read_pairs-Safe (length b) 1 (min (1 + n) (length b)) (omega arith) (omega arith)
              (omega arith)
