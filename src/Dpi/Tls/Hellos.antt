-- ===== src/Dpi/Tls/Hellos.antt =====
-- internal/dpi/dpi.go, parseTLSClientHello: the loop over the extensions, and the lists it gives.
use netprobe_ir.Dpi.Tls.{
  read_alpn, read_sni, Extensions, ClientHello, no_extensions, no_grease, read_extension,
  read_extensions, read_client_hello,
}
use netprobe_ir.Dpi.Tls.Front.{read_front-Safe}
use netprobe_ir.Dpi.Tls.Bounds.{
  Plain, IsPlain, IsCode, All-no_grease, read_sni-Safe, read_alpn-Safe, read_list16-Safe,
  read_list8-Safe, read_versions-Safe,
}
use netprobe_ir.Prelude.{
  min, ok, ◌>>=◌, zero, arith, ltb→le, suc, false, ◌+◌, All-append, [], ◌<◌, ◌≡◌, length, ◌==◌, ◌∷◌,
  Safe-if, ltb, ◌++◌, ◌≤◌, All, Bytes, ℕ, Safe, returns, Safe-bind,
}
use netprobe_ir.Wire.{AreBytes, IsByte}
use netprobe_ir.Wire.Reads.{slice_at-Safe, read_be16-Safe}

module _ (d : Bytes) (bytes : AreBytes d) (h : Extensions) (plain : Plain h) where
  read_name-Safe : Safe Plain (read_sni d h.sni >>= λ name. ok (record h { sni = name }))
  read_name-Safe = Safe-bind (read_sni-Safe d bytes h.sni) λ name _. returns (record {
    exts = plain.exts;
    groups = plain.groups;
    points = plain.points;
    supported = plain.supported;
    sig_algs = plain.sig_algs;
  })

  read_protocols-Safe :
      ltb (length d) 2 ≡ false
      → Safe Plain (read_alpn d (length d) 2 >>= λ names. ok (record h { alpn = h.alpn ++ names }))
  read_protocols-Safe two =
      Safe-bind (read_alpn-Safe d bytes (length d) 2 (ltb→le _ _ two) (omega arith)) λ names _.
        returns (record {
          exts = plain.exts;
          groups = plain.groups;
          points = plain.points;
          supported = plain.supported;
          sig_algs = plain.sig_algs;
        })

  read_extension-Safe : (kind : ℕ) → Safe Plain (read_extension kind d h)
  unfolding read_extension
  read_extension-Safe kind =
      Safe-if (kind == 0) _ _ (λ _. read_name-Safe)
        λ _.
          Safe-if (kind == 16) _ _
            (λ _. Safe-if (ltb (length d) 2) _ _ (λ _. returns plain) read_protocols-Safe)
            λ _.
              Safe-if (kind == 10) _ _
                (λ _. Safe-bind (read_list16-Safe d bytes) λ vs hs. returns (record {
                  exts = plain.exts;
                  groups =
                      All-append (IsPlain) h.groups (no_grease vs) plain.groups
                        (All-no_grease vs hs);
                  points = plain.points;
                  supported = plain.supported;
                  sig_algs = plain.sig_algs;
                }))
                λ _.
                  Safe-if (kind == 11) _ _
                    (λ _. Safe-bind (read_list8-Safe d bytes) λ vs hs. returns (record {
                      exts = plain.exts;
                      groups = plain.groups;
                      points = All-append (IsByte) h.points (vs) plain.points (hs);
                      supported = plain.supported;
                      sig_algs = plain.sig_algs;
                    }))
                    λ _.
                      Safe-if (kind == 13) _ _
                        (λ _. Safe-bind (read_list16-Safe d bytes) λ vs hs. returns (record {
                          exts = plain.exts;
                          groups = plain.groups;
                          points = plain.points;
                          supported = plain.supported;
                          sig_algs =
                              All-append (IsPlain) h.sig_algs (no_grease vs) plain.sig_algs
                                (All-no_grease vs hs);
                        }))
                        λ _.
                          Safe-if (kind == 43) _ _
                            (λ _. Safe-bind (read_versions-Safe d bytes) λ vs hs. returns (record {
                              exts = plain.exts;
                              groups = plain.groups;
                              points = plain.points;
                              supported = All-append (IsCode) h.supported (vs) plain.supported (hs);
                              sig_algs = plain.sig_algs;
                            }))
                            λ _. returns plain

note-Plain :
    (kind : ℕ) (h : Extensions)
    → IsCode kind
    → Plain h
    → Plain (record h { exts = h.exts ++ no_grease (kind ∷ []) })
note-Plain kind h fits plain = (record {
  exts =
      All-append (IsPlain) h.exts (no_grease (kind ∷ [])) plain.exts
        (All-no_grease (kind ∷ []) (fits, tt));
  groups = plain.groups;
  points = plain.points;
  supported = plain.supported;
  sig_algs = plain.sig_algs;
})

-- A ClientHello: 16-bit numbers, of which no cipher suite, extension, group or signature
-- algorithm is grease.
pub record Sound (h : ClientHello) : Type 0 where
  pub legacy : IsCode h.legacy
  pub ciphers : All IsPlain h.ciphers
  pub found : Plain h.found

module _ (b : Bytes) (bytes : AreBytes b) where
  read_extensions-Safe :
      (fuel p end : ℕ) (h : Extensions)
      → end ≤ length b
      → p ≤ end
      → end < p + fuel
      → Plain h
      → Safe Plain (read_extensions b fuel p end h)
  unfolding read_extensions
  read_extensions-Safe zero p end h room here enough plain = absurd (omega arith)
  read_extensions-Safe (suc fuel) p end h room here enough plain =
      Safe-if (ltb end (p + 4)) _ _ (λ _. returns plain)
        λ more.
          let four : p + 4 ≤ end = ltb→le _ _ more in
          Safe-bind (read_be16-Safe b p bytes (omega arith)) λ kind kind_fits.
            Safe-bind (read_be16-Safe b (p + 2) bytes (omega arith)) λ l _.
              Safe-if (ltb end (p + 4 + l)) _ _ (λ _. returns plain)
                λ fits.
                  let whole : p + 4 + l ≤ end = ltb→le _ _ fits in
                  Safe-bind (slice_at-Safe b (p + 4) (p + 4 + l) bytes (omega arith) (omega arith))
                    λ d w.
                      Safe-bind
                        (read_extension-Safe d w.bytes _ (note-Plain kind h kind_fits plain) kind)
                        λ h' plain'.
                          read_extensions-Safe fuel (p + 4 + l) end h' room whole (omega arith)
                            plain'

  no_extensions-Plain : Plain no_extensions
  no_extensions-Plain = record {
    exts = tt;
    groups = tt;
    points = tt;
    supported = tt;
    sig_algs = tt;
  }

  -- A ClientHello is read without a panic from any bytes.
  pub read_client_hello-Safe : Safe Sound (read_client_hello b)
  unfolding read_client_hello
  read_client_hello-Safe =
      Safe-bind (read_front-Safe b bytes) λ (legacy, ciphers, p) (legacy_fits, plain, here).
        Safe-if (ltb (length b) (p + 2)) _ _
          (λ _.
            returns (record { legacy = legacy_fits; ciphers = plain; found = no_extensions-Plain }))
          λ extended.
            let room : p + 2 ≤ length b = ltb→le _ _ extended in
            Safe-bind (read_be16-Safe b p bytes room) λ el _.
              Safe-bind
                (read_extensions-Safe (length b) (p + 2) (min (p + 2 + el) (length b)) no_extensions
                  (omega arith) (omega arith) (omega arith) no_extensions-Plain)
                λ found sound.
                  returns (record { legacy = legacy_fits; ciphers = plain; found = sound })
