-- ===== src/Dpi/Dns/Parsed.antt =====
-- internal/dpi/dpi.go, parseDNS: what it says of a response to one question.
use netprobe_ir.Dpi.{require-true, bind-ok}
use netprobe_ir.Dpi.Dns.{parse_dns}
use netprobe_ir.Dpi.Dns.Layout.{IsLabel}
use netprobe_ir.Dpi.Dns.Message.{
  question_inside, at_records, read_answers-records, read_questions-question, read_word, dotted,
  records, name_at_12, Response, message,
}
use netprobe_ir.Prelude.{
  zero, suc, ltb, ◌||◌, not, ap, refl, ◌∙◌, arith, le→leb, map, false, ◌%◌, ◌++◌, [], All, min, ◌∷◌,
  leb, length, ok, take, List, codes, str_eq, ◌^◌, ◌≡◌, Bytes, join, ℕ, ◌<◌,
}
use netprobe_ir.Model.{DnsInfo}

-- The numbers of a message have their widths, and it asks for a name of one label at least.
pub record IsResponse (m : Response) : Type 0 where
  pub id : m.id < 2 ^ 16
  pub flags : m.flags < 2 ^ 16
  pub kind : m.kind < 2 ^ 16
  pub count : length m.addresses < 2 ^ 16
  pub some_label : 0 < length m.labels
  pub labels : All IsLabel m.labels

abbrev pub said : Response → DnsInfo
said m =
    let name = join (codes ".") m.labels in
    record {
      transaction_id = m.id;
      is_response = leb (2 ^ 15) m.flags;
      questions = record { query = name; qtype = m.kind } ∷ [];
      query = name;
      qtype = m.kind;
      response_code = m.flags % 16;
      answers = map dotted (take 16 m.addresses);
    }

name_there :
    (labels : List Bytes)
    → 0 < length labels
    → All IsLabel labels
    → str_eq (join (codes ".") labels) [] ≡ false
unfolding join str_eq
name_there [] h hs = absurd (omega arith)
name_there ([] ∷ labels) h ((some_bytes, _), hs) = absurd (omega arith)
name_there ((x ∷ l) ∷ []) h hs = refl
name_there ((x ∷ l) ∷ (label ∷ labels)) h hs = refl

take-min : {A : Type 0} (n : ℕ) (xs : List A) → take (min (length xs) n) xs ≡ take n xs
take-min zero xs = ap (λ k. take k xs) {y = 0} (omega arith)
take-min (suc n) [] = ap (λ k. take k []) {y = 0} (omega arith)
take-min (suc n) (x ∷ xs) =
    ap (λ k. take k (x ∷ xs)) {y = suc (min (length xs) n)} (omega arith)
    ∙ ap (λ t. x ∷ t) (take-min n xs)

module _ (m : Response) (rest : Bytes) (r : IsResponse m) where
  -- Where its numbers have their widths: a message laid out with one question, whose name is written
  -- out in labels of 1 to 63 bytes, one at least, and with A records that point to that name is read
  -- as its number, its flags, the question and the addresses, of which the first 16 count. What
  -- follows the records is not looked at.
  pub parse_dns-message : parse_dns (message m rest) ≡ ok (said m)
  unfolding parse_dns message
  parse_dns-message =
      let b = message m rest in
      let name = name_at_12 b m (records m.addresses ++ rest) refl r.labels 7 in
      require-true (leb 12 (length b)) _ (le→leb 12 (length b) (omega arith))
      ∙ bind-ok _ (read_word b 1 4 _ refl (omega arith))
      ∙ bind-ok _ (read_word b (length m.addresses) 6 _ refl (omega arith))
      ∙ bind-ok _ (read_word b m.flags 2 _ refl (omega arith))
      ∙ bind-ok _ (read_word b m.id 0 _ refl (omega arith))
      ∙ bind-ok _ (read_questions-question b m (records m.addresses ++ rest) refl r.labels)
      ∙ bind-ok _ (
          read_answers-records b m.addresses (min (length m.addresses) 16) _ _ _ rest
            (at_records b m (records m.addresses ++ rest) refl) (question_inside b m _ refl) name
            (omega arith))
      ∙ require-true _ _ (
          ap (λ t. not t || ltb 0 (length m.addresses)) (name_there m.labels r.some_label r.labels))
      ∙ ap
          (λ t. ok (record {
            transaction_id = m.id;
            is_response = leb (2 ^ 15) m.flags;
            questions = (said m).questions;
            query = (said m).query;
            qtype = m.kind;
            response_code = m.flags % 16;
            answers = map dotted t;
          }))
          (take-min 16 m.addresses)
