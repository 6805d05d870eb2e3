-- ===== src/Dpi/Dns/Message.antt =====
-- internal/dpi/dpi.go, parseDNS: a response to one question, with its IPv4 addresses.
use netprobe_ir.Dpi.{NoMatch, or_break-ok, require-true, bind-ok}
use netprobe_ir.Dpi.Dns.{read_questions, dns_name, read_address, read_answer, read_answers, read_a}
use netprobe_ir.Dpi.Dns.Layout.{
  dns_name-spelled, spelled-append, IsLabel, spelled, skip, dns_name-pointer,
}
use netprobe_ir.Prelude.{
  All, ◌>>=◌, zero, le→leb, suc, map, take, refl, length-append, ◌∙◌, ap, leb, length-drop, arith,
  ok, ◌+◌, decimal, ◌≤◌, [], codes, ◌++◌, ◌≡◌, drop, join, length, ◌%◌, ◌/◌, ◌∷◌, Bytes, List, ℕ,
}
use netprobe_ir.Wire.Shift.{index-drop, read_be16-drop}
use netprobe_ir.Wire.{read_be16}

-- an A record for the name of the question
pub record Address : Type 0 where
  pub t0 : ℕ
  pub t1 : ℕ
  pub t2 : ℕ
  pub t3 : ℕ
  pub a : ℕ
  pub b : ℕ
  pub c : ℕ
  pub d : ℕ

abbrev pub address_record : Address → Bytes
address_record r =
    192 ∷ 12 ∷ 0 ∷ 1 ∷ 0 ∷ 1 ∷ r.t0 ∷ r.t1 ∷ r.t2 ∷ r.t3 ∷ 0 ∷ 4 ∷ r.a ∷ r.b ∷ r.c ∷ r.d ∷ []

abbrev pub dotted : Address → Bytes
dotted r = join (codes ".") (decimal r.a ∷ decimal r.b ∷ decimal r.c ∷ decimal r.d ∷ [])

unfoldable pub records : List Address → Bytes
records [] = []
records (r ∷ rs) = address_record r ++ records rs

-- One question of class IN and the answers to it.
pub record Response : Type 0 where
  pub id : ℕ
  pub flags : ℕ
  pub labels : List Bytes
  pub kind : ℕ
  pub addresses : List Address

abbrev pub high : ℕ → ℕ
high n = n / 256

abbrev pub low : ℕ → ℕ
low n = n % 256

unfoldable pub question : Response → Bytes → Bytes
question m rest = spelled m.labels (0 ∷ high m.kind ∷ low m.kind ∷ 0 ∷ 1 ∷ rest)

unfoldable pub message : Response → Bytes → Bytes
message m rest =
    let n = length m.addresses in
    high m.id
    ∷ low m.id
    ∷ high m.flags
    ∷ low m.flags
    ∷ 0
    ∷ 1
    ∷ high n
    ∷ low n
    ∷ 0
    ∷ 0
    ∷ 0
    ∷ 0
    ∷ question m (records m.addresses ++ rest)

module _ (b : Bytes) where
  -- the bytes at `pos` are known
  at_end :
      (pos k : ℕ) (s r : Bytes)
      → drop pos b ≡ s ++ r
      → k ≡ length s
      → pos ≤ length b
      → pos + k ≤ length b
  at_end pos k s r h e here = omega (arith, length-drop pos b, ap length h, length-append s r)

  read_a-drop :
      (pos x y z w : ℕ) (rest : Bytes)
      → drop pos b ≡ x ∷ y ∷ z ∷ w ∷ rest
      → read_a b pos
        ≡ ok (join (codes ".") (decimal x ∷ decimal y ∷ decimal z ∷ decimal w ∷ []) ∷ [])
  unfolding read_a
  read_a-drop pos x y z w rest at =
      bind-ok _ (index-drop b pos x (y ∷ z ∷ w ∷ rest) at)
      ∙ bind-ok _ (
          index-drop b (pos + 1) y (z ∷ w ∷ rest)
            (skip b pos 1 (x ∷ []) (y ∷ z ∷ w ∷ rest) at refl))
      ∙ bind-ok _
          (index-drop b (pos + 2) z (w ∷ rest) (skip b pos 2 (x ∷ y ∷ []) (z ∷ w ∷ rest) at refl))
      ∙ bind-ok _ (index-drop b (pos + 3) w rest (skip b pos 3 (x ∷ y ∷ z ∷ []) (w ∷ rest) at refl))

  read_answer-address :
      (pos next : ℕ) (name : Bytes) (r : Address) (rest : Bytes)
      → drop pos b ≡ address_record r ++ rest
      → pos ≤ length b
      → dns_name 8 b 12 ≡ ok (name, next)
      → read_answer b pos ≡ ok (dotted r ∷ [], pos + 16)
  unfolding read_answer read_address
  read_answer-address pos next name r rest at here names =
      let room : pos + 16 ≤ length b = at_end pos 16 (address_record r) rest at refl here in
      let at2 = skip b pos 2 (192 ∷ 12 ∷ []) (drop 2 (address_record r) ++ rest) at refl in
      let at10 =
        skip b (pos + 2) 8 (take 8 (drop 2 (address_record r))) (drop 10 (address_record r) ++ rest)
          at2 refl in
      let at12 =
        skip b (pos + 2) 10 (take 10 (drop 2 (address_record r)))
          (drop 12 (address_record r) ++ rest) at2 refl in
      bind-ok _ (dns_name-pointer b 8 pos 12 next name _ (omega arith) at names)
      ∙ require-true (leb (pos + 2 + 10) (length b)) _ (le→leb _ _ (omega arith))
      ∙ bind-ok _ (read_be16-drop b (pos + 2) 0 1 _ at2 (omega arith))
      ∙ bind-ok _ (read_be16-drop b (pos + 2 + 8) 0 4 _ at10 (omega arith))
      ∙ require-true (leb (pos + 2 + 10 + 4) (length b)) _ (le→leb _ _ (omega arith))
      ∙ bind-ok _ (read_a-drop (pos + 2 + 10) r.a r.b r.c r.d rest at12)
      ∙ ap (λ n. ok (dotted r ∷ [], n)) (omega arith)

  pub read_answers-records :
      (rs : List Address) (n pos next : ℕ) (name rest : Bytes)
      → drop pos b ≡ records rs ++ rest
      → pos ≤ length b
      → dns_name 8 b 12 ≡ ok (name, next)
      → n ≤ length rs
      → read_answers b n pos ≡ ok (map dotted (take n rs))
  unfolding read_answers records
  read_answers-records rs zero pos next name rest at here names few = refl
  read_answers-records [] (suc n) pos next name rest at here names few = absurd (omega arith)
  read_answers-records (r ∷ rs) (suc n) pos next name rest at here names few =
      let rest_at = skip b pos 16 (address_record r) (records rs ++ rest) at refl in
      let room = at_end pos 16 (address_record r) (records rs ++ rest) at refl here in
      or_break-ok (λ found. read_answers b n found.1 >>= λ more. ok (found.0 ++ more)) []
        (read_answer-address pos next name r (records rs ++ rest) at here names)
      ∙ bind-ok (λ more. ok (dotted r ∷ more))
          (read_answers-records rs n (pos + 16) next name rest rest_at room names (omega arith))

  pub read_word :
      (n lo : ℕ) (r : Bytes)
      → drop lo b ≡ high n ∷ low n ∷ r
      → lo ≤ length b
      → read_be16 {E = NoMatch} b lo ≡ ok n
  read_word n lo r h here = read_be16-drop b lo (high n) (low n) r h here ∙ ap ok (omega arith)

  module _ (m : Response) (rest : Bytes) (at : drop 12 b ≡ question m rest) where
    -- behind the name of the question, and behind the question
    abbrev pub name_end : ℕ
    name_end = 12 + length (spelled m.labels []) + 1

    at_kind : drop name_end b ≡ high m.kind ∷ low m.kind ∷ 0 ∷ 1 ∷ rest
    unfolding question
    at_kind =
        let n = length (spelled m.labels []) in
        let tail = high m.kind ∷ low m.kind ∷ 0 ∷ 1 ∷ rest in
        skip b (12 + n) 1 (0 ∷ []) tail
          (skip b 12 n (spelled m.labels []) (0 ∷ tail) (at ∙ spelled-append m.labels (0 ∷ tail))
            refl)
          refl

    pub at_records : drop (name_end + 4) b ≡ rest
    at_records = skip b name_end 4 (high m.kind ∷ low m.kind ∷ 0 ∷ 1 ∷ []) rest at_kind refl

    pub question_inside : name_end + 4 ≤ length b
    question_inside =
        let size = length-drop name_end b in
        let count : length (drop name_end b) ≡ 4 + length rest = ap length at_kind ∙ omega arith in
        omega arith

    pub name_at_12 :
        All IsLabel m.labels
        → (levels : ℕ) → dns_name (suc levels) b 12 ≡ ok (join (codes ".") m.labels, name_end)
    unfolding question
    name_at_12 labels levels = dns_name-spelled b levels m.labels 12 _ labels at

    pub read_questions-question :
        All IsLabel m.labels
        → read_questions b 1 12
          ≡ ok (record { query = join (codes ".") m.labels; qtype = m.kind } ∷ [], name_end + 4)
    unfolding read_questions
    read_questions-question labels =
        bind-ok _ (name_at_12 labels 8)
        ∙ require-true (leb (name_end + 4) (length b)) _ (le→leb _ _ question_inside)
        ∙ bind-ok
            (λ kind.
              ok (record { query = join (codes ".") m.labels; qtype = kind } ∷ [], name_end + 4))
            (read_word m.kind name_end (0 ∷ 1 ∷ rest) at_kind (omega (arith, question_inside)))
