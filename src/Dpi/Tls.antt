-- ===== src/Dpi/Tls.antt =====
-- internal/dpi/dpi.go: what parseTLSClientHello reads of a ClientHello, grease and tlsVersion, and the
-- record that parseTLSServerHello reads too. The loops have fuel by the length of what they read.
pub mod Bounds
pub mod Front
pub mod Hellos
use netprobe_ir.Dpi.{Parse, require}
use netprobe_ir.Dpi.Digits.{hex_fixed}
use netprobe_ir.Prelude.{
  ◌^◌, min, zero, ◌*◌, ◌++◌, ◌/◌, codes, length, ok, ◌&&◌, leb, ltb, suc, ◌%◌, ◌+◌, ◌==◌, Bool,
  if◌then◌else◌, stuck, ◌>>=◌, ◌>>◌, ◌∷◌, Bytes, List, [], ℕ,
}
use netprobe_ir.Wire.{index, slice, read_be16}

unfoldable pub grease : ℕ → Bool
grease v = v % 16 == 10 && v / 256 % 16 == 10 && v / 256 == v % 256

abbrev pub tls_version : ℕ → Bytes
tls_version v =
    if v == 0x0301
    then codes "TLS 1.0"
    else if v == 0x0302
    then codes "TLS 1.1"
    else if v == 0x0303
    then codes "TLS 1.2"
    else if v == 0x0304
    then codes "TLS 1.3"
    else codes "0x" ++ hex_fixed 4 v

-- `int(b[i])<<16 | int(b[i+1])<<8 | int(b[i+2])`
unfoldable pub read_be24 : Bytes → ℕ → Parse ℕ
unfolding index
read_be24 b i = do
  x ← index b i
  y ← index b (i + 1)
  z ← index b (i + 2)
  ok (x * 2 ^ 16 + y * 2 ^ 8 + z)

-- the 16-bit numbers from `q` on, as long as two bytes are in front of `stop`
pub read_pairs : Bytes → ℕ → ℕ → ℕ → Parse (List ℕ)
unfolding read_be16
read_pairs b zero q stop = stuck
read_pairs b (suc fuel) q stop =
    if leb stop (q + 1)
    then ok []
    else do v ← read_be16 b q; vs ← read_pairs b fuel (q + 2) stop; ok (v ∷ vs)

unfoldable pub no_grease : List ℕ → List ℕ
unfolding grease
no_grease [] = []
no_grease (v ∷ vs) = let rest = no_grease vs in if grease v then rest else v ∷ rest

-- What the extensions of a ClientHello give.
pub record Extensions : Type 0 where
  pub sni : Bytes
  pub alpn : List Bytes
  pub exts : List ℕ  -- uint16
  pub groups : List ℕ  -- uint16
  pub points : List ℕ  -- uint8
  pub supported : List ℕ  -- uint16
  pub sig_algs : List ℕ  -- uint16

-- extension 0, the name of the server
pub read_sni : Bytes → Bytes → Parse Bytes
unfolding read_be16 slice
read_sni d old =
    if ltb (length d) 5
    then ok old
    else do n ← read_be16 d 3; if leb (5 + n) (length d) then slice d 5 (5 + n) else ok old

-- extension 16, the protocols
pub read_alpn : Bytes → ℕ → ℕ → Parse (List Bytes)
unfolding index slice
read_alpn d zero q = stuck
read_alpn d (suc fuel) q = if leb (length d) q then ok [] else do
  n ← index d q
  if ltb (length d) (q + 1 + n) then ok [] else do
    name ← slice d (q + 1) (q + 1 + n)
    names ← read_alpn d fuel (q + 1 + n)
    ok (name ∷ names)

-- extensions 10 and 13, a list behind its length
pub read_list16 : Bytes → Parse (List ℕ)
unfolding read_be16 read_pairs
read_list16 d =
    if ltb (length d) 2
    then ok []
    else do n ← read_be16 d 0; read_pairs d (length d) 2 (min (2 + n) (length d))

-- extension 11, a list of bytes behind its length
pub read_list8 : Bytes → Parse (List ℕ)
unfolding index slice
read_list8 d =
    if ltb (length d) 1 then ok [] else do n ← index d 0; slice d 1 (min (1 + n) (length d))

-- extension 43, the versions
pub read_versions : Bytes → Parse (List ℕ)
unfolding index read_pairs
read_versions d =
    if ltb (length d) 1
    then ok []
    else do n ← index d 0; read_pairs d (length d) 1 (min (1 + n) (length d))

-- `switch typ`
read_extension : ℕ → Bytes → Extensions → Parse Extensions
unfolding read_sni read_alpn read_list16 read_list8 read_versions
read_extension kind d h =
    if kind == 0
    then (read_sni d h.sni >>= λ name. ok (record h { sni = name }))
    else if kind == 16
    then (if ltb (length d) 2
        then ok h
        else read_alpn d (length d) 2 >>= λ names. ok (record h { alpn = h.alpn ++ names }))
    else if kind == 10
    then (read_list16 d >>= λ vs. ok (record h { groups = h.groups ++ no_grease vs }))
    else if kind == 11
    then (read_list8 d >>= λ vs. ok (record h { points = h.points ++ vs }))
    else if kind == 13
    then (read_list16 d >>= λ vs. ok (record h { sig_algs = h.sig_algs ++ no_grease vs }))
    else if kind == 43
    then (read_versions d >>= λ vs. ok (record h { supported = h.supported ++ vs }))
    else ok h

read_extensions : Bytes → ℕ → ℕ → ℕ → Extensions → Parse Extensions
unfolding read_be16 slice read_extension no_grease
read_extensions b zero p end h = stuck
read_extensions b (suc fuel) p end h = if ltb end (p + 4) then ok h else do
  kind ← read_be16 b p
  l ← read_be16 b (p + 2)
  if ltb end (p + 4 + l) then ok h else do
    d ← slice b (p + 4) (p + 4 + l)
    h' ← read_extension kind d (record h { exts = h.exts ++ no_grease (kind ∷ []) })
    read_extensions b fuel (p + 4 + l) end h'

abbrev pub no_extensions : Extensions
no_extensions = record {
  sni = [];
  alpn = [];
  exts = [];
  groups = [];
  points = [];
  supported = [];
  sig_algs = [];
}

-- What a ClientHello says: its version, its cipher suites and its extensions.
pub record ClientHello : Type 0 where
  pub legacy : ℕ  -- uint16
  pub ciphers : List ℕ  -- uint16
  pub found : Extensions

-- the handshake message of type `kind` at the front of the records; gives its length
unfoldable pub read_record : Bytes → ℕ → Parse ℕ
unfolding index read_be16 read_be24
read_record b kind = do
  require (leb 9 (length b))
  b0 ← index b 0
  require (b0 == 22)
  b1 ← index b 1
  require (b1 == 3)
  rec_len ← read_be16 b 3
  require (leb (5 + rec_len) (length b))
  b5 ← index b 5
  require (b5 == kind)
  hs_len ← read_be24 b 6
  require (leb (hs_len + 9) (length b))
  ok hs_len

-- the version, the cipher suites, and the place behind the compression methods
pub read_front : Bytes → Parse (ℕ × List ℕ × ℕ)
unfolding read_record index read_be16 read_pairs no_grease
read_front b = do
  _ ← read_record b 1
  require (leb 43 (length b))
  legacy ← read_be16 b 9
  require (ltb 43 (length b))
  sid ← index b 43
  require (leb (44 + sid + 2) (length b))
  c_len ← read_be16 b (44 + sid)
  require (c_len % 2 == 0 && leb (46 + sid + c_len) (length b))
  ciphers ← read_pairs b (suc c_len) (46 + sid) (46 + sid + c_len)
  require (ltb (46 + sid + c_len) (length b))
  comp ← index b (46 + sid + c_len)
  require (leb (47 + sid + c_len + comp) (length b))
  ok (legacy, no_grease ciphers, 47 + sid + c_len + comp)

unfoldable pub read_client_hello : Bytes → Parse ClientHello
unfolding read_front read_be16 read_extensions
read_client_hello b = do
  (legacy, ciphers, p) ← read_front b
  if ltb (length b) (p + 2)
      then ok (record { legacy = legacy; ciphers = ciphers; found = no_extensions })
      else do
        el ← read_be16 b p
        found ← read_extensions b (length b) (p + 2) (min (p + 2 + el) (length b)) no_extensions
        ok (record { legacy = legacy; ciphers = ciphers; found = found })
