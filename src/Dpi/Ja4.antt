-- ===== src/Dpi/Ja4.antt =====
-- internal/dpi/dpi.go, ja4Fingerprint, with SHA-256 as the parameter `sha256`.
pub mod Order
use netprobe_ir.Dpi.Digits.{hex_fixed, hex_text, two_digits}
use netprobe_ir.Dpi.Tls.{grease}
use netprobe_ir.Prelude.{
  length, ◌&&◌, Bool, [], ltb, map, not, ◌++◌, ◌==◌, codes, if◌then◌else◌, join, sort_by, take, ◌∷◌,
  Bytes, List, ℕ,
}

abbrev pub sorted : List ℕ → List ℕ
sorted = sort_by ltb

abbrev pub hex_list : List ℕ → Bytes
hex_list vs = join (codes ",") (map (hex_fixed 4) vs)

abbrev pub min99 : ℕ → ℕ
min99 n = if ltb 99 n then 99 else n

abbrev version_text : ℕ → Bytes
version_text v =
    if v == 0x0301
    then codes "10"
    else if v == 0x0302
    then codes "11"
    else if v == 0x0303
    then codes "12"
    else if v == 0x0304
    then codes "13"
    else codes "00"

unfoldable pub last_byte : ℕ → Bytes → ℕ
last_byte x [] = x
last_byte x (y ∷ ys) = last_byte y ys

-- the first and the last byte of the first protocol
abbrev alpn_text : List Bytes → Bytes
alpn_text ((x ∷ xs) ∷ _) = x ∷ last_byte x xs ∷ []
alpn_text _ = codes "00"

-- all but the server's name, the protocols and grease
pub wanted : ℕ → Bool
unfolding grease
wanted x = not (x == 0) && not (x == 16) && not (grease x)

pub listed : List ℕ → List ℕ
unfolding wanted
listed [] = []
listed (x ∷ xs) = let rest = listed xs in if wanted x then x ∷ rest else rest

module _ (sha256 : Bytes → Bytes) where
  abbrev h12 : Bytes → Bytes
  h12 x = take 12 (hex_text (sha256 x))

  abbrev cipher_part : List ℕ → Bytes
  cipher_part [] = codes "000000000000"
  cipher_part (c ∷ cs) = h12 (hex_list (c ∷ cs))

  abbrev extension_part : List ℕ → List ℕ → Bytes
  extension_part [] ss = codes "000000000000"
  extension_part (e ∷ es) [] = h12 (hex_list (e ∷ es))
  extension_part (e ∷ es) (s ∷ ss) = h12 (hex_list (e ∷ es) ++ (codes "_" ++ hex_list (s ∷ ss)))

  unfoldable pub ja4_fingerprint : ℕ → Bool → List Bytes → List ℕ → List ℕ → List ℕ → Bytes
  unfolding sort_by listed last_byte
  ja4_fingerprint version has_sni alpn ciphers exts sig_algs =
      let cs = sorted ciphers in
      let es = sorted (listed exts) in
      let a =
        codes "t"
        ++ (version_text version
            ++ ((if has_sni then codes "d" else codes "i")
                ++ (two_digits (min99 (length cs))
                    ++ (two_digits (min99 (length exts)) ++ alpn_text alpn)))) in
      a ++ (codes "_" ++ (cipher_part cs ++ (codes "_" ++ extension_part es sig_algs)))
