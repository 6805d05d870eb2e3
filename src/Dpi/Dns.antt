-- ===== src/Dpi/Dns.antt =====
-- internal/dpi/dpi.go, parseDNS, parseDNSOverTCP and dnsName: the questions and the answers of a
-- message. A name that jumps ends there, so `next` is the place behind the label that ends it.
pub mod Bounds
pub mod Layout
pub mod Message
pub mod Parsed
use netprobe_ir.Dpi.{or_break, Parse, require, no_match}
use netprobe_ir.Model.{DnsQuestion, DnsInfo}
use netprobe_ir.Wire.{index, slice, be_uint16, read_be16}
use netprobe_ir.Prelude.{
  min, leb, ◌^◌, ◌>>◌, length, ltb, ◌==◌, ◌&&◌, ◌||◌, ◌++◌, ◌∷◌, [], ok, err, panic, stuck, ◌>>=◌,
  not, str_eq, join, Bytes, List, ℕ, codes, decimal, zero, suc, ◌+◌, ◌%◌, ◌/◌, if◌then◌else◌,
}
use netprobe_ir.Dpi.Digits.{hex}

-- `follow` reads the name that a pointer stands for.
pub read_pointer : Bytes → (ℕ → Parse Bytes) → ℕ → Parse (List Bytes × ℕ)
unfolding read_be16
read_pointer b follow pos = do
  require (ltb (pos + 1) (length b))
  pointer ← read_be16 b pos
  name ← follow (pointer % 2 ^ 14)
  ok (name ∷ [], pos + 2)

-- the labels of a name from `pos` on, one for each unit of fuel; `l&0xc0 == 0xc0` is 192 and more
pub read_labels : Bytes → (ℕ → Parse Bytes) → ℕ → ℕ → Parse (List Bytes × ℕ)
unfolding index slice read_pointer
read_labels b follow zero pos = stuck
read_labels b follow (suc fuel) pos = do
  require (ltb pos (length b))
  l ← index b pos
  if l == 0 then ok ([], pos + 1) else if leb 192 l then read_pointer b follow pos else do
    require (not (ltb 63 l || ltb (length b) (pos + 1 + l)))
    label ← slice b (pos + 1) (pos + 1 + l)
    (labels, next) ← read_labels b follow fuel (pos + 1 + l)
    ok (label ∷ labels, next)

-- `dnsName(b, pos, 9 - levels)`
pub dns_name : ℕ → Bytes → ℕ → Parse (Bytes × ℕ)
unfolding read_labels
dns_name zero b pos = err no_match
dns_name (suc levels) b pos = do
  require (ltb pos (length b))
  (labels, next) ←
      read_labels b (λ at. do (name, _) ← dns_name levels b at; ok name) (suc (length b)) pos
  ok (join (codes ".") labels, next)

-- as many questions as the header says
pub read_questions : Bytes → ℕ → ℕ → Parse (List DnsQuestion × ℕ)
unfolding dns_name read_be16
read_questions b zero pos = ok ([], pos)
read_questions b (suc n) pos = do
  (name, next) ← dns_name 9 b pos
  require (leb (next + 4) (length b))
  kind ← read_be16 b next
  (questions, after) ← read_questions b n (next + 4)
  ok (record { query = name; qtype = kind } ∷ questions, after)

-- `%x` of the 16-bit numbers at `pos`, `n` of them
read_words : Bytes → ℕ → ℕ → Parse (List Bytes)
unfolding slice be_uint16
read_words b zero pos = ok []
read_words b (suc n) pos = do
  rest ← slice b pos (length b)
  word ← be_uint16 rest
  words ← read_words b n (pos + 2)
  ok (hex word ∷ words)

-- the text of an A record and of an AAAA record
read_a : Bytes → ℕ → Parse (List Bytes)
unfolding index
read_a b pos = do
  b0 ← index b pos
  b1 ← index b (pos + 1)
  b2 ← index b (pos + 2)
  b3 ← index b (pos + 3)
  ok (join (codes ".") (decimal b0 ∷ decimal b1 ∷ decimal b2 ∷ decimal b3 ∷ []) ∷ [])

read_aaaa : Bytes → ℕ → Parse (List Bytes)
unfolding read_words
read_aaaa b pos = do words ← read_words b 8 pos; ok (join (codes ":") words ∷ [])

pub read_address : Bytes → ℕ → ℕ → ℕ → Parse (List Bytes)
unfolding read_a read_aaaa
read_address b kind len pos =
    if kind == 1 && len == 4
    then read_a b pos
    else if kind == 28 && len == 16
    then read_aaaa b pos
    else ok []

-- One answer, and where it ends. A name or an answer that does not fit ends the list.
pub read_answer : Bytes → ℕ → Parse (List Bytes × ℕ)
unfolding dns_name read_be16 read_address
read_answer b pos = do
  (_, next) ← dns_name 9 b pos
  require (leb (next + 10) (length b))
  kind ← read_be16 b next
  len ← read_be16 b (next + 8)
  require (leb (next + 10 + len) (length b))
  texts ← read_address b kind len (next + 10)
  ok (texts, next + 10 + len)

pub read_answers : Bytes → ℕ → ℕ → Parse (List Bytes)
unfolding read_answer
read_answers b zero pos = ok []
read_answers b (suc n) pos =
    or_break (read_answer b pos)
      (λ found. read_answers b n found.1 >>= λ more. ok (found.0 ++ more)) []

abbrev pub first_question : List DnsQuestion → DnsQuestion
first_question [] = record { query = []; qtype = 0 }
first_question (q ∷ _) = q

unfoldable pub parse_dns : Bytes → Parse DnsInfo
unfolding read_be16 read_questions read_answers
parse_dns b = do
  require (leb 12 (length b))
  qd ← read_be16 b 4
  an ← read_be16 b 6
  flags ← read_be16 b 2
  id ← read_be16 b 0
  (questions, pos) ← read_questions b qd 12
  answers ← read_answers b (min an 16) pos
  let q = first_question questions
  require (not (str_eq q.query []) || ltb 0 an)
  ok (record {
    transaction_id = id;
    is_response = leb (2 ^ 15) flags;
    questions = questions;
    query = q.query;
    qtype = q.qtype;
    response_code = flags % 16;
    answers = answers;
  })

unfoldable pub parse_dns_over_tcp : Bytes → ℕ → ℕ → Parse DnsInfo
unfolding read_be16 slice parse_dns
parse_dns_over_tcp b sp dp = do
  require (sp == 53 || dp == 53)
  require (leb 2 (length b))
  n ← read_be16 b 0
  require (leb (2 + n) (length b))
  message ← slice b 2 (2 + n)
  parse_dns message
