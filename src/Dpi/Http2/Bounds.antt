-- ===== src/Dpi/Http2/Bounds.antt =====
-- internal/dpi/dpi.go, parseHTTP2: the bounds of its reads and of its loops.
use netprobe_ir.Dpi.{Safe-require}
use netprobe_ir.Dpi.Http2.{parse_http2, read_frames, read_frame, read_settings, preface}
use netprobe_ir.Dpi.Tls.Bounds.{read_be24-Safe}
use netprobe_ir.Model.{Http2Info}
use netprobe_ir.Prelude.{
  Any, Any, Any, Any, Any, Any, Any, Any, Any, Any, Any, Any, Any, Any, Any, Any, Any, Any, Any,
  Any, Any, Any, Any, Any, Any, Any, Any, Any, Any, Any, Any, Any, Any, Any, Any, Any, Any, Any,
  Any, Any, starts_with-length, ap, ◌^◌, Safe-map, zero, ◌%◌, ltb→le, ◌&&◌, ltb, ◌==◌, Safe-bind,
  Safe-if, refl, arith, pos, suc, ◌<◌, length, true, List, starts_with, ◌+◌, ◌≡◌, ◌≤◌, Bytes, ℕ,
  Safe, returns,
}
use netprobe_ir.Wire.{AreBytes}
use netprobe_ir.Wire.Reads.{index-Safe, slice_at-Safe, read_be16-Safe, read_be32-Safe}

-- so many frames behind the preface
abbrev Counted : ℕ → Http2Info → Type 0
Counted n h = (h.preface_seen ≡ true) × (h.frames ≡ pos n)

module _ (b : Bytes) (bytes : AreBytes b) where
  read_settings-Safe :
      (fuel i : ℕ) (m : List (ℕ × ℕ))
      → i ≤ length b
      → length b < i + fuel
      → Safe Any (read_settings b fuel i m)
  unfolding read_settings
  read_settings-Safe zero i m here enough = absurd (omega arith)
  read_settings-Safe (suc fuel) i m here enough =
      Safe-if (ltb (length b) (i + 6)) _ _ (λ _. returns tt)
        λ six.
          let room : i + 6 ≤ length b = ltb→le _ _ six in
          Safe-bind (read_be16-Safe b i bytes (omega arith)) λ k _.
            Safe-bind (read_be32-Safe b (i + 2) bytes (omega arith))
              λ v _. read_settings-Safe fuel (i + 6) _ room (omega arith)

module _ (b : Bytes) (bytes : AreBytes b) where
  read_frame-Safe :
      (p len n : ℕ) (h : Http2Info)
      → p + 9 + len ≤ length b
      → Counted n h
      → Safe (Counted (suc n)) (read_frame b p len h)
  unfolding read_frame
  read_frame-Safe p len n h room (seen, count) =
      Safe-bind (index-Safe b (p + 3) bytes (omega arith)) λ typ _.
        Safe-bind (index-Safe b (p + 4) bytes (omega arith)) λ flags _.
          Safe-bind (read_be32-Safe b (p + 5) bytes (omega arith)) λ word _.
            Safe-bind (slice_at-Safe b (p + 9) (p + 9 + len) bytes (omega arith) room) λ payload w.
              Safe-bind {P = Any}
                (Safe-if (typ == 4 && word % 2 ^ 31 == 0 && flags % 2 == 0) _ _
                  (λ _.
                    read_settings-Safe payload w.bytes (suc (length payload)) 0 h.settings
                      (omega arith) (omega arith))
                  λ _. returns tt)
                λ settings _. returns (seen, rw count (ap pos (omega arith)))

  abbrev AtMost : ℕ → Http2Info → Type 0
  AtMost most h = (h.preface_seen ≡ true) × (n : ℕ) × (h.frames ≡ pos n) × (n ≤ most)

  read_frames-Safe :
      (room p n : ℕ) (h : Http2Info)
      → p ≤ length b
      → Counted n h
      → Safe (AtMost (n + room)) (read_frames b room p h)
  unfolding read_frames
  read_frames-Safe zero p n h here (seen, count) = returns (seen, n, count, omega arith)
  read_frames-Safe (suc room) p n h here (seen, count) =
      Safe-if (ltb (length b) (p + 9)) _ _ (λ _. returns (seen, n, count, omega arith))
        λ nine.
          let head : p + 9 ≤ length b = ltb→le _ _ nine in
          Safe-bind (read_be24-Safe b bytes p (omega arith)) λ len _.
            Safe-if (ltb (length b) (p + 9 + len)) _ _ (λ _. returns (seen, n, count, omega arith))
              λ whole.
                let end : p + 9 + len ≤ length b = ltb→le _ _ whole in
                Safe-bind (read_frame-Safe p len n h end (seen, count)) λ h' counted.
                  Safe-map (read_frames-Safe room (p + 9 + len) (suc n) h' end counted)
                    λ found (is_seen, m, total, few). (is_seen, m, total, omega arith)

  -- No panic on any bytes, and at most 128 frames.
  pub parse_http2-Safe : Safe (AtMost 128) (parse_http2 b)
  unfolding parse_http2
  parse_http2-Safe = Safe-require (starts_with b preface) _ λ starts.
      read_frames-Safe 128 (length preface) 0 _ (starts_with-length b preface starts) (refl, refl)
