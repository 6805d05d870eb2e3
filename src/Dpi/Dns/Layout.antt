-- ===== src/Dpi/Dns/Layout.antt =====
-- internal/dpi/dpi.go, dnsName and parseDNS: a message that is laid out as RFC 1035 says.
use netprobe_ir.Dpi.{bind-ok, require-true, Parse}
use netprobe_ir.Dpi.Dns.{dns_name, read_pointer, read_labels}
use netprobe_ir.Prelude.{
  lt→ltb, ◌*◌, ◌%◌, codes, ◌/◌, join, ◌^◌, append-nil, append_assoc, ◌-◌, subst, refl, ◌||◌, not,
  leb, false, ◌==◌, true, ltb, zero, ap₂, ◌>>=◌, drop-append, ◌∙◌, ap, drop-drop, length-append,
  length-drop, ok, sym, [], arith, suc, ◌+◌, All, drop, ◌++◌, ◌≡◌, ◌≤◌, length, ℕ, ◌<◌, ◌∷◌, Bytes,
  List,
}
use netprobe_ir.Wire.Shift.{read_be16-drop, index-drop, slice-drop}

abbrev pub IsLabel : Bytes → Type 0
IsLabel label = (0 < length label) × (length label ≤ 63)

-- labels in front of what ends the name
unfoldable pub spelled : List Bytes → Bytes → Bytes
spelled [] end = end
spelled (label ∷ labels) end = length label ∷ (label ++ spelled labels end)

pub spelled-append :
    (labels : List Bytes) (end : Bytes) → spelled labels end ≡ spelled labels [] ++ end
unfolding spelled
spelled-append [] end = refl
spelled-append (label ∷ labels) end =
    ap (λ t. length label ∷ t)
      (ap (λ t. label ++ t) (spelled-append labels end)
        ∙ sym (append_assoc label (spelled labels []) end))

module _ (b : Bytes) where
  pub skip : (pos k : ℕ) (s r : Bytes) → drop pos b ≡ s ++ r → k ≡ length s → drop (pos + k) b ≡ r
  skip pos k s r h e = sym (drop-drop pos k b) ∙ ap (drop k) h ∙ rw e (drop-append s r)

  inside : (pos x : ℕ) (r : Bytes) → drop pos b ≡ x ∷ r → pos < length b
  inside pos x r h = omega (arith, length-drop pos b, ap length h)

  module _ (follow : ℕ → Parse Bytes) where
    read_labels-label :
        (label r : Bytes) (fuel pos : ℕ)
        → IsLabel label
        → drop pos b ≡ length label ∷ (label ++ r)
        → read_labels b follow (suc fuel) pos ≡ (
            read_labels b follow fuel (pos + 1 + length label) >>= λ found.
            ok (label ∷ found.0, found.1))
    unfolding read_labels
    read_labels-label label r fuel pos (some_bytes, short) at =
        let l = length label in
        let text : drop (pos + 1) b ≡ label ++ r = skip pos 1 (l ∷ []) (label ++ r) at refl in
        let room : pos + 1 + l ≤ length b =
          omega (arith, length-drop pos b, ap length at, length-append label r) in
        let here : ltb pos (length b) ≡ true = ground (arith, room) in
        let not_last : (l == 0) ≡ false = ground (arith, some_bytes) in
        let no_pointer : leb 192 l ≡ false = ground (arith, short) in
        let guard : not (ltb 63 l || ltb (length b) (pos + 1 + l)) ≡ true =
          ground (arith, short, room) in
        rw (here, index-drop b pos l (label ++ r) at, not_last, no_pointer, guard)
          (rw (slice-drop b (pos + 1) (pos + 1 + l) label r text refl (omega arith)) refl)

    read_labels-front :
        (labels last : List Bytes) (total fuel pos next : ℕ) (end : Bytes)
        → All IsLabel labels
        → drop pos b ≡ spelled labels end
        → total ≡ length labels + fuel
        → read_labels b follow fuel (pos + length (spelled labels [])) ≡ ok (last, next)
        → read_labels b follow total pos ≡ ok (labels ++ last, next)
    unfolding spelled
    read_labels-front [] last total fuel pos next end hs at fuels ends =
        ap₂ (read_labels b follow) (omega arith) (omega arith) ∙ ends
    read_labels-front (label ∷ labels) last zero fuel pos next end hs at fuels ends =
        absurd (omega arith)
    read_labels-front (label ∷ labels) last (suc total) fuel pos next end (h, hs) at fuels ends =
        let l = length label in
        let rest_at = skip pos (1 + l) (l ∷ label) (spelled labels end) at (omega arith) in
        let here : pos + (1 + l) ≡ pos + 1 + l = omega arith in
        let rest =
          read_labels-front labels last total fuel (pos + 1 + l) next end hs
            (subst (λ n. drop n b ≡ spelled labels end) here rest_at) (omega arith)
            (ap (read_labels b follow fuel) (omega (arith, length-append label (spelled labels [])))
              ∙ ends) in
        read_labels-label label (spelled labels end) total pos h at ∙ rw rest refl

    end_at :
        (labels : List Bytes) (pos : ℕ) (end : Bytes)
        → drop pos b ≡ spelled labels end
        → drop (pos + length (spelled labels [])) b ≡ end
    end_at labels pos end at =
        skip pos (length (spelled labels [])) (spelled labels []) end
          (at ∙ spelled-append labels end) refl

    read_labels-zero :
        (fuel pos : ℕ) (r : Bytes)
        → drop pos b ≡ 0 ∷ r
        → read_labels b follow (suc fuel) pos ≡ ok ([], pos + 1)
    unfolding read_labels
    read_labels-zero fuel pos r at =
        let room = inside pos 0 r at in
        let here : ltb pos (length b) ≡ true = ground (arith, room) in
        rw (here, index-drop b pos 0 r at) refl

    read_labels-spelled :
        (labels : List Bytes) (fuel pos : ℕ) (r : Bytes)
        → All IsLabel labels
        → drop pos b ≡ spelled labels (0 ∷ r)
        → length labels < fuel
        → read_labels b follow fuel pos ≡ ok (labels, pos + length (spelled labels []) + 1)
    read_labels-spelled labels fuel pos r hs at enough =
        let spare = fuel - suc (length labels) in
        let end = end_at labels pos (0 ∷ r) at in
        subst (λ ls. read_labels b follow fuel pos ≡ ok (ls, pos + length (spelled labels []) + 1))
          (append-nil labels)
          (read_labels-front labels [] fuel (suc spare) pos (pos + length (spelled labels []) + 1)
            (0 ∷ r) hs at (omega arith)
            (read_labels-zero spare (pos + length (spelled labels [])) r end))

    -- a pointer ends a name with the name at the place that it stands for
    read_labels-pointer :
        (fuel pos at : ℕ) (name r : Bytes)
        → at < 2 ^ 14
        → drop pos b ≡ (192 + at / 256) ∷ at % 256 ∷ r
        → follow at ≡ ok name
        → read_labels b follow (suc fuel) pos ≡ ok (name ∷ [], pos + 2)
    unfolding read_labels read_pointer
    read_labels-pointer fuel pos at name r fits here follows =
        let size : length (drop pos b) ≡ suc (suc (length r)) = ap length here in
        let room : pos + 2 ≤ length b = omega (arith, length-drop pos b) in
        let inside_1 : ltb pos (length b) ≡ true = ground (arith, room) in
        let inside_2 : ltb (pos + 1) (length b) ≡ true = ground (arith, room) in
        let target : ((192 + at / 256) * 256 + at % 256) % 2 ^ 14 ≡ at = omega arith in
        let kind : ((192 + at / 256) == 0) ≡ false = ground arith in
        let kind_2 : leb 192 (192 + at / 256) ≡ true = ground arith in
        rw (inside_1, index-drop b pos (192 + at / 256) (at % 256 ∷ r) here, kind, kind_2, inside_2)
          (rw (read_be16-drop b pos (192 + at / 256) (at % 256) r here (omega arith))
            (rw (target, follows) refl))

  labels_few : (labels : List Bytes) (end : Bytes) → length labels ≤ length (spelled labels end)
  unfolding spelled
  labels_few [] end = omega arith
  labels_few (label ∷ labels) end =
      omega (arith, labels_few labels end, length-append label (spelled labels end))

  pub fuel_enough :
      (labels : List Bytes) (pos x : ℕ) (r : Bytes)
      → drop pos b ≡ spelled labels (x ∷ r)
      → (pos < length b) × (length labels < suc (length b))
  fuel_enough labels pos x r at =
      let size : length b - pos ≡ length (spelled labels []) + suc (length r) =
        sym (length-drop pos b)
        ∙ ap length (at ∙ spelled-append labels (x ∷ r))
        ∙ length-append (spelled labels []) (x ∷ r) in
      (omega arith, omega (arith, labels_few labels []))

  module _ (levels : ℕ) where
    follow_at : ℕ → Parse Bytes
    follow_at at = dns_name levels b at >>= λ found. ok found.0

    dns_name-labels :
        (labels found : List Bytes) (pos next x : ℕ) (r : Bytes)
        → drop pos b ≡ spelled labels (x ∷ r)
        → read_labels b follow_at (suc (length b)) pos ≡ ok (found, next)
        → dns_name (suc levels) b pos ≡ ok (join (codes ".") found, next)
    unfolding dns_name follow_at
    dns_name-labels labels found pos next x r at reads =
        let here : ltb pos (length b) ≡ true = lt→ltb _ _ (fuel_enough labels pos x r at).0 in
        require-true (ltb pos (length b)) _ here
        ∙ bind-ok (λ labels_end. ok (join (codes ".") labels_end.0, labels_end.1)) reads

    -- A name written out at `pos` is read, with the place behind it.
    pub dns_name-spelled :
        (labels : List Bytes) (pos : ℕ) (r : Bytes)
        → All IsLabel labels
        → drop pos b ≡ spelled labels (0 ∷ r)
        → dns_name (suc levels) b pos
          ≡ ok (join (codes ".") labels, pos + length (spelled labels []) + 1)
    dns_name-spelled labels pos r hs at =
        dns_name-labels labels labels pos (pos + length (spelled labels []) + 1) 0 r at (
          read_labels-spelled follow_at labels (suc (length b)) pos r hs at
            (fuel_enough labels pos 0 r at).1)

    -- A pointer at `pos` to a name at `at` is read as that name.
    pub dns_name-pointer :
        (pos at next : ℕ) (name r : Bytes)
        → at < 2 ^ 14
        → drop pos b ≡ (192 + at / 256) ∷ at % 256 ∷ r
        → dns_name levels b at ≡ ok (name, next)
        → dns_name (suc levels) b pos ≡ ok (name, pos + 2)
    unfolding follow_at spelled join
    dns_name-pointer pos at next name r fits here names =
        dns_name-labels [] (name ∷ []) pos (pos + 2) (192 + at / 256) (at % 256 ∷ r) here
          (read_labels-pointer follow_at (length b) pos at name r fits here (rw names refl))
