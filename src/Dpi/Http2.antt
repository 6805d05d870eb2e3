-- ===== src/Dpi/Http2.antt =====
-- internal/dpi/dpi.go, parseHTTP2: the frames behind the preface, at most 128. `seen` holds what
-- `streams` does. Without the preface there is nothing to read.
pub mod Bounds
use netprobe_ir.Dpi.{Parse, require}
use netprobe_ir.Dpi.Tls.{read_be24}
use netprobe_ir.Model.{Http2Info}
use netprobe_ir.Prelude.{
  not, pos_part, zero, ok, ◌&&◌, ◌||◌, ltb, pos, ◌==◌, ◌^◌, [], false, if◌then◌else◌, suc, true,
  ◌%◌, Bool, length, stuck, ◌++◌, ◌+◌, ◌∷◌, List, codes, ◌>>=◌, ◌>>◌, Bytes, starts_with, ℕ,
}
use netprobe_ir.Wire.{index, slice, read_be16, read_be32}

has : ℕ → List ℕ → Bool
has n [] = false
has n (x ∷ xs) = let rest = has n xs in x == n || rest

put_setting : ℕ → ℕ → List (ℕ × ℕ) → List (ℕ × ℕ)
put_setting k v [] = (k, v) ∷ []
put_setting k v ((j, w) ∷ m) =
    let rest = put_setting k v m in if j == k then (k, v) ∷ m else (j, w) ∷ rest

-- the settings of six bytes each, from `i` on
read_settings : Bytes → ℕ → ℕ → List (ℕ × ℕ) → Parse (List (ℕ × ℕ))
unfolding read_be16 read_be32 put_setting
read_settings payload zero i m = stuck
read_settings payload (suc fuel) i m = if ltb (length payload) (i + 6) then ok m else do
  k ← read_be16 payload i
  v ← read_be32 payload (i + 2)
  read_settings payload fuel (i + 6) (put_setting k v m)

-- a frame of `len` bytes at `p`
read_frame : Bytes → ℕ → ℕ → Http2Info → Parse Http2Info
unfolding index slice read_be32 has read_settings
read_frame b p len h = do
  typ ← index b (p + 3)
  flags ← index b (p + 4)
  word ← read_be32 b (p + 5)
  let id = word % 2 ^ 31
  payload ← slice b (p + 9) (p + 9 + len)
  settings ←
      if typ == 4 && id == 0 && flags % 2 == 0
      then read_settings payload (suc (length payload)) 0 h.settings
      else ok h.settings
  ok (record h {
    frames = pos (pos_part h.frames + 1);
    last_type = typ;
    last_flags = flags;
    streams = if not (id == 0) && not (has id h.streams) then h.streams ++ id ∷ [] else h.streams;
    settings = settings;
  })

-- `room` counts what is left of the 128 frames
read_frames : Bytes → ℕ → ℕ → Http2Info → Parse Http2Info
unfolding read_be24 read_frame
read_frames b zero p h = ok h
read_frames b (suc room) p h = if ltb (length b) (p + 9) then ok h else do
  len ← read_be24 b p
  if ltb (length b) (p + 9 + len)
      then ok h
      else do h' ← read_frame b p len h; read_frames b room (p + 9 + len) h'

abbrev pub preface : Bytes
preface = codes "PRI * HTTP/2.0" ++ (13 ∷ 10 ∷ 13 ∷ 10 ∷ codes "SM" ++ (13 ∷ 10 ∷ 13 ∷ 10 ∷ []))

unfoldable pub parse_http2 : Bytes → Parse Http2Info
unfolding starts_with read_frames
parse_http2 b = do
  require (starts_with b preface)
  read_frames b 128 (length preface) (record {
    preface_seen = true;
    frames = pos 0;
    streams = [];
    settings = [];
    last_type = 0;
    last_flags = 0;
  })
