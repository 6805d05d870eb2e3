-- ===== src/Dpi/Http.antt =====
-- internal/dpi/dpi.go, parseHTTP and mergeHTTP: the head of an HTTP/1 message. strconv.Atoi is the
-- parameter `atoi`, which gives the number whether or not there is an error.
pub mod Bounds
use netprobe_ir.Dpi.{Parse, require, no_match}
use netprobe_ir.Model.{DpiInfo, HttpInfo}
use netprobe_ir.Prelude.{
  false, is_space, negsuc, Bool, reverse, ltb, trim_space, length, ok, to_lower, ◌&&◌, codes,
  cut_at, drop, leb, ◌==◌, ◌>>=◌, err, if◌then◌else◌, some, trim_right, ◌>>◌, Option, none, pos,
  trim_left, ℤ, ◌∷◌, Bytes, List, [], starts_with, str_eq, ℕ,
}

-- strings.Cut
unfoldable pub cut_text : Bytes → Bytes → Option (Bytes × Bytes)
unfolding starts_with
cut_text sep [] = none
cut_text sep (x ∷ xs) =
    let rest = cut_text sep xs in
    if starts_with (x ∷ xs) sep
    then some ([], drop (length sep) (x ∷ xs))
    else elim rest [ none ↦ none | some (a, b) ↦ some (x ∷ a, b) ]

abbrev add_first : ℕ → List Bytes → List Bytes
add_first x [] = (x ∷ []) ∷ []
add_first x (l ∷ ls) = (x ∷ l) ∷ ls

-- `strings.Split(s, "\r\n")`
unfoldable pub split_lines : Bytes → List Bytes
split_lines [] = [] ∷ []
split_lines (x ∷ []) = (x ∷ []) ∷ []
split_lines (x ∷ (y ∷ s)) =
    let whole = split_lines (y ∷ s) in
    let rest = split_lines s in if x == 13 && y == 10 then [] ∷ rest else add_first x whole

-- strings.Fields; `word` is the field so far, from its end
fields_from : Bytes → Bytes → List Bytes
fields_from [] [] = []
fields_from (w ∷ word) [] = reverse (w ∷ word) ∷ []
fields_from [] (c ∷ cs) =
    let apart = fields_from [] cs in
    let inside = fields_from (c ∷ []) cs in if is_space c then apart else inside
fields_from (w ∷ word) (c ∷ cs) =
    let apart = fields_from [] cs in
    let inside = fields_from (c ∷ w ∷ word) cs in
    if is_space c then reverse (w ∷ word) ∷ apart else inside

unfoldable pub fields : Bytes → List Bytes
unfolding fields_from
fields s = fields_from [] s

abbrev pub no_http : HttpInfo
no_http = record {
  method = [];
  path = [];
  host = [];
  status = pos 0;
  user_agent = [];
  content_type = [];
}

-- the first line of a request or of a response
first_line : (Bytes → ℤ) → List Bytes → Parse HttpInfo
unfolding starts_with
first_line atoi (a ∷ b ∷ c ∷ _) =
    if starts_with c (codes "HTTP/")
    then ok (record no_http { method = a; path = b })
    else if starts_with a (codes "HTTP/")
    then ok (record no_http { status = atoi b })
    else err no_match
first_line atoi (a ∷ b ∷ []) =
    if starts_with a (codes "HTTP/") then ok (record no_http { status = atoi b }) else err no_match
first_line atoi _ = err no_match

-- `switch k`
header : Bytes → HttpInfo → HttpInfo
unfolding str_eq trim_left trim_right cut_at
header line h = elim (cut_at 58 line) [
  | none ↦ h
  | some (k, v) ↦
      let name = to_lower (trim_space k) in
      if str_eq name (codes "host")
      then record h { host = trim_space v }
      else if str_eq name (codes "user-agent")
      then record h { user_agent = trim_space v }
      else if str_eq name (codes "content-type")
      then record h { content_type = trim_space v }
      else h
]

headers : List Bytes → HttpInfo → HttpInfo
unfolding header
headers [] h = h
headers (line ∷ lines) h = headers lines (header line h)

abbrev pub blank_line : Bytes
blank_line = 13 ∷ 10 ∷ 13 ∷ 10 ∷ []

read_head : (Bytes → ℤ) → List Bytes → Parse HttpInfo
unfolding fields first_line headers
read_head atoi [] = err no_match
read_head atoi (line ∷ lines) = do h ← first_line atoi (fields line); ok (headers lines h)

unfoldable pub parse_http : (Bytes → ℤ) → Bytes → Parse HttpInfo
unfolding cut_text split_lines read_head
parse_http atoi b = do
  require (leb 5 (length b))
  elim (cut_text blank_line b) [
    | none ↦ err no_match
    | some (head, _) ↦
        if ltb 32768 (length head) then err no_match else read_head atoi (split_lines head)
  ]

abbrev is_zero : ℤ → Bool
is_zero (pos n) = n == 0
is_zero (negsuc n) = false

unfoldable pub merge_http : HttpInfo → DpiInfo → DpiInfo
unfolding str_eq
merge_http h i = elim i.http [
  | none ↦ record i { http = some h }
  | some old ↦
      let a = if str_eq h.method [] then old else record old {
        method = h.method;
        path = h.path;
        host = h.host;
        user_agent = h.user_agent;
      } in
      let b = if is_zero h.status then a else record a { status = h.status } in
      let c = if str_eq h.content_type [] then b else record b { content_type = h.content_type } in
      record i { http = some c }
]
