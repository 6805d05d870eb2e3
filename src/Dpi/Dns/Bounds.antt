-- ===== src/Dpi/Dns/Bounds.antt =====
-- internal/dpi/dpi.go, parseDNS, parseDNSOverTCP and dnsName: the bounds of their reads and loops.
use netprobe_ir.Dpi.{Safe-or_break, Parse, Safe-require}
use netprobe_ir.Dpi.Dns.{
  first_question, dns_name, read_labels, read_pointer, read_questions, read_words, read_a,
  read_aaaa, read_address, read_answer, read_answers, parse_dns, parse_dns_over_tcp,
}
use netprobe_ir.Prelude.{
  length-append, str_eq, min, refl, [], ◌&&◌, ◌*◌, ◌≡◌, ◌>>=◌, codes, join, ok, ◌||◌, not, leb,
  ◌==◌, ◌^◌, Safe-if, zero, ◌%◌, arith, length, ◌+◌, List, ltb, suc, ◌<◌, ◌≤◌, ℕ, Bytes, Safe,
  Safe-bind, returns, fails,
}
use netprobe_ir.Wire.{AreBytes}
use netprobe_ir.Wire.Reads.{
  index-Safe, slice_at-Safe, slice_rest-Safe, read_be16-Safe, be_uint16-Safe,
}

module _ (b : Bytes) (bytes : AreBytes b) where
  -- a place behind `pos`, in `b` or at its end
  abbrev Behind : ℕ → ℕ → Type 0
  Behind pos next = (pos < next) × (next ≤ length b)

  abbrev Names : ℕ → Bytes × ℕ → Type 0
  Names pos (name, next) = Behind pos next

  abbrev AnyName : Bytes → Type 0
  AnyName name = Unit

  abbrev Labels : ℕ → List Bytes × ℕ → Type 0
  Labels pos (labels, next) = Behind pos next

  read_pointer-Safe :
      (follow : ℕ → Parse Bytes) (pos : ℕ)
      → ((at : ℕ) → Safe AnyName (follow at))
      → Safe (Labels pos) (read_pointer b follow pos)
  unfolding read_pointer
  read_pointer-Safe follow pos follows = Safe-require (ltb (pos + 1) (length b)) _ λ inside.
      let room : pos + 2 ≤ length b = ground (arith, inside) in
      Safe-bind (read_be16-Safe b pos bytes room)
        λ pointer _. Safe-bind (follows (pointer % 2 ^ 14)) λ name _. returns (omega arith, room)

  read_labels-Safe :
      (follow : ℕ → Parse Bytes) (fuel pos : ℕ)
      → ((at : ℕ) → Safe AnyName (follow at))
      → pos ≤ length b
      → length b < pos + fuel
      → Safe (Labels pos) (read_labels b follow fuel pos)
  unfolding read_labels
  read_labels-Safe follow zero pos follows here enough = absurd (omega arith)
  read_labels-Safe follow (suc fuel) pos follows here enough =
      Safe-require (ltb pos (length b)) _ λ inside.
        let room : pos < length b = ground (arith, inside) in
        Safe-bind (index-Safe b pos bytes room) λ l l_fits.
          Safe-if (l == 0) _ _ (λ _. returns {a = ([], pos + 1)} (omega arith, omega arith))
            λ _.
              Safe-if (leb 192 l) _ _ (λ _. read_pointer-Safe follow pos follows)
                λ _. Safe-require (not (ltb 63 l || ltb (length b) (pos + 1 + l))) _ λ fits.
                  let end : pos + 1 + l ≤ length b = ground (arith, fits) in
                  Safe-bind (slice_at-Safe b (pos + 1) (pos + 1 + l) bytes (omega arith) end)
                    λ label _.
                      Safe-bind
                        (read_labels-Safe follow fuel (pos + 1 + l) follows end (omega arith))
                        λ rest (later, within). returns (omega arith, within)

  pub dns_name-Safe : (levels pos : ℕ) → Safe (Names pos) (dns_name levels b pos)
  unfolding dns_name
  dns_name-Safe zero pos = fails
  dns_name-Safe (suc levels) pos = Safe-require (ltb pos (length b)) _ λ inside.
      let room : pos < length b = ground (arith, inside) in
      Safe-bind {f = λ found. ok (join (codes ".") found.0, found.1)}
        (read_labels-Safe (λ at. dns_name levels b at >>= λ found. ok found.0) (suc (length b)) pos
          (λ at.
            Safe-bind {f = λ found. ok found.0} (dns_name-Safe levels at)
              λ found _. returns {a = found.0} tt)
          (omega arith) (omega arith))
        λ found behind. returns {a = (join (codes ".") found.0, found.1)} behind

  read_questions-Safe :
      (n pos : ℕ)
      → pos ≤ length b
      → Safe
          (λ (questions, next). (length questions ≡ n) × (next ≤ length b))
          (read_questions b n pos)
  unfolding read_questions
  read_questions-Safe zero pos here = returns (refl, here)
  read_questions-Safe (suc n) pos here = Safe-bind (dns_name-Safe 9 pos) λ (name, next) _.
      Safe-require (leb (next + 4) (length b)) _ λ inside.
        let room : next + 4 ≤ length b = ground (arith, inside) in
        Safe-bind (read_be16-Safe b next bytes (omega arith)) λ kind _.
          Safe-bind (read_questions-Safe n (next + 4) room)
            λ (questions, after) (count, within). returns (omega arith, within)

  read_words-Safe :
      (n pos : ℕ) → pos + 2 * n ≤ length b → Safe (λ words. length words ≡ n) (read_words b n pos)
  unfolding read_words
  read_words-Safe zero pos room = returns refl
  read_words-Safe (suc n) pos room = Safe-bind (slice_rest-Safe b pos bytes (omega arith)) λ rest w.
      Safe-bind (be_uint16-Safe rest w.bytes (omega (arith, w.size))) λ word _.
        Safe-bind (read_words-Safe n (pos + 2) (omega arith)) λ words count. returns (omega arith)

  abbrev AtMostOne : List Bytes → Type 0
  AtMostOne texts = length texts ≤ 1

  read_a-Safe : (pos : ℕ) → pos + 4 ≤ length b → Safe AtMostOne (read_a b pos)
  unfolding read_a
  read_a-Safe pos room = Safe-bind (index-Safe b pos bytes (omega arith)) λ _ _.
      Safe-bind (index-Safe b (pos + 1) bytes (omega arith)) λ _ _.
        Safe-bind (index-Safe b (pos + 2) bytes (omega arith))
          λ _ _. Safe-bind (index-Safe b (pos + 3) bytes (omega arith)) λ _ _. returns (omega arith)

  read_address-Safe :
      (kind len pos : ℕ) → pos + len ≤ length b → Safe AtMostOne (read_address b kind len pos)
  unfolding read_address read_aaaa
  read_address-Safe kind len pos room =
      Safe-if (kind == 1 && len == 4) _ _ (λ four. read_a-Safe pos (ground (arith, four, room)))
        λ _.
          Safe-if (kind == 28 && len == 16) _ _
            (λ sixteen.
              Safe-bind (read_words-Safe 8 pos (ground (arith, sixteen, room)))
                λ words _. returns (omega arith))
            λ _. returns (omega arith)

  read_answer-Safe :
      (pos : ℕ) → Safe (λ (texts, after). AtMostOne texts × Behind pos after) (read_answer b pos)
  unfolding read_answer
  read_answer-Safe pos = Safe-bind (dns_name-Safe 9 pos) λ (name, next) (later, _).
      Safe-require (leb (next + 10) (length b)) _ λ inside.
        let room : next + 10 ≤ length b = ground (arith, inside) in
        Safe-bind (read_be16-Safe b next bytes (omega arith)) λ kind _.
          Safe-bind (read_be16-Safe b (next + 8) bytes (omega arith)) λ len _.
            Safe-require (leb (next + 10 + len) (length b)) _ λ fits.
              let end : next + 10 + len ≤ length b = ground (arith, fits) in
              Safe-bind (read_address-Safe kind len (next + 10) end)
                λ texts few. returns (few, (omega arith, end))

  read_answers-Safe : (n pos : ℕ) → Safe (λ texts. length texts ≤ n) (read_answers b n pos)
  unfolding read_answers
  read_answers-Safe zero pos = returns (omega arith)
  read_answers-Safe (suc n) pos =
      Safe-or_break (read_answer-Safe pos)
        (λ (texts, after) (few, _).
          Safe-bind (read_answers-Safe n after)
            λ more rest. returns (omega (arith, length-append texts more)))
        (omega arith)

  -- No panic on any bytes, and no name makes the parser run on.
  pub parse_dns-Safe : Safe (λ d. length d.answers ≤ 16) (parse_dns b)
  unfolding parse_dns
  parse_dns-Safe = Safe-require (leb 12 (length b)) _ λ inside.
      let room : 12 ≤ length b = ground (arith, inside) in
      Safe-bind (read_be16-Safe b 4 bytes (omega arith)) λ qd _.
        Safe-bind (read_be16-Safe b 6 bytes (omega arith)) λ an _.
          Safe-bind (read_be16-Safe b 2 bytes (omega arith)) λ flags _.
            Safe-bind (read_be16-Safe b 0 bytes (omega arith)) λ id _.
              Safe-bind (read_questions-Safe qd 12 room) λ (questions, pos) _.
                Safe-bind (read_answers-Safe (min an 16) pos) λ answers few.
                  Safe-require (not (str_eq (first_question questions).query []) || ltb 0 an) _
                    λ _. returns (omega arith)

pub parse_dns_over_tcp-Safe :
    (b : Bytes) (sp dp : ℕ)
    → AreBytes b
    → Safe (λ d. length d.answers ≤ 16) (parse_dns_over_tcp b sp dp)
unfolding parse_dns_over_tcp
parse_dns_over_tcp-Safe b sp dp bytes = Safe-require (sp == 53 || dp == 53) _ λ _.
    Safe-require (leb 2 (length b)) _ λ two.
      Safe-bind (read_be16-Safe b 0 bytes (ground (arith, two))) λ n _.
        Safe-require (leb (2 + n) (length b)) _ λ whole.
          Safe-bind (slice_at-Safe b 2 (2 + n) bytes (omega arith) (ground (arith, whole)))
            λ message w. parse_dns-Safe message w.bytes
