-- ===== src/Pcapng/Sound.antt =====
-- internal/pcapng/recorder.go: the invariant of the recorder, and the blocks that keep it.
use netprobe_ir.Pcapng.Validate.{end, validate-Chain, IsBlock, block, validate, Chain}
use netprobe_ir.Prelude.{
  ◌⊎◌, Option, inr, inl, Option-cases, str_eq_refl, subst, suc, ◌^◌, none, ◌<◌, ◌∷◌, ◌+◌,
  length-append, ap, append-nil, arith, refl, sym, ◌≤◌, append_assoc, length, [], ok, some, ◌++◌,
  All, List, ◌≡◌, Bytes, ℕ,
}
use netprobe_ir.Pcapng.{
  new, put_frame, write_idb, write_epb, append_bytes, epb_size, Frame, idb_size, IoError,
  write_failed, declare_iface, find_iface, put_packet, Recorder, write_shb,
}
use netprobe_ir.Pcapng.Blocks.{
  write_idb-IsBlock, length-write_idb, write_epb-IsBlock, length-write_epb, write_shb-magic,
  write_shb-IsBlock,
}

-- the blocks of a list, one behind the other
Chain-append : {b : Bytes} (s : Bytes) → Chain b → IsBlock s → Chain (b ++ s)
Chain-append s (end e) k = block s [] k (end refl) (rw e (sym (append-nil s)))
Chain-append s (block t r k' c joined) k =
    block t (r ++ s) k' (Chain-append s c k) (rw joined (append_assoc t r s))

-- A file that Validate accepts: it begins with the section header and is a chain of blocks.
pub record IsSegment (b : Bytes) : Type 0 where
  pub chain : Chain b
  pub tail : Bytes
  pub header : b ≡ write_shb ++ tail

IsSegment-append : {b : Bytes} (s : Bytes) → IsSegment b → IsBlock s → IsSegment (b ++ s)
IsSegment-append s g k = record {
  chain = Chain-append s g.chain k;
  tail = g.tail ++ s;
  header = rw g.header (append_assoc write_shb g.tail s);
}

pub IsSegment-shb : IsSegment write_shb
IsSegment-shb = record {
  chain = block write_shb [] write_shb-IsBlock (end refl) refl;
  tail = [];
  header = refl;
}

pub IsSegment-validate : (b : Bytes) → IsSegment b → validate b ≡ ok tt
IsSegment-validate b g =
    validate-Chain b g.chain (omega (arith, ap length g.header, length-append write_shb g.tail))
      (rw g.header (write_shb-magic g.tail))

-- The ids of the interfaces are their positions.
abbrev pub Numbered : ℕ → List (Bytes × ℕ) → Type 0
Numbered n [] = Unit
Numbered n ((name, id) ∷ m) = (id ≡ n) × Numbered (suc n) m

Numbered-append :
    (n : ℕ) (m : List (Bytes × ℕ)) (name : Bytes)
    → Numbered n m
    → Numbered n (m ++ (name, n + length m) ∷ [])
Numbered-append n [] name h = (omega arith, tt)
Numbered-append n ((x, id) ∷ m) name (e, h) = (
  e,
  subst (λ k. Numbered (suc n) (m ++ (name, k) ∷ [])) {x = suc n + length m}
      {y = n + suc (length m)} (omega arith) (Numbered-append (suc n) m name h),
)

find_iface-lt :
    (n : ℕ) (m : List (Bytes × ℕ)) (name : Bytes) (id : ℕ)
    → Numbered n m
    → find_iface m name ≡ some id
    → id < n + length m
unfolding find_iface
find_iface-lt n [] name id h e = cc
find_iface-lt n ((x, k) ∷ m) name id (p, h) e = ground (arith, find_iface-lt (suc n) m name id h)

find_iface-append_self :
    (m : List (Bytes × ℕ)) (name : Bytes) (id : ℕ)
    → find_iface m name ≡ none
    → find_iface (m ++ (name, id) ∷ []) name ≡ some id
unfolding find_iface
find_iface-append_self [] name id h = rw (str_eq_refl name)
find_iface-append_self ((x, k) ∷ m) name id h = ground (arith, find_iface-append_self m name id)

-- Between two calls of an open recorder: the closed files are segments, and so is the open one,
-- whose size is the one counted; the interfaces are numbered in order, and at most four of the
-- closed files are remembered.
pub record IsSound (r : Recorder) : Type 0 where
  pub files : All (λ (file : Bytes × Bytes). IsSegment file.1) r.files
  pub bytes : Bytes
  pub is_open : r.f ≡ some bytes
  pub segment : IsSegment bytes
  pub counted : r.written ≡ length bytes
  pub numbered : Numbered 0 r.ifaces
  pub recent : length r.recent ≤ 4

append_block :
    (r : Recorder) (s : Bytes) (m : List (Bytes × ℕ))
    → IsSound r
    → IsBlock s
    → Numbered 0 m
    → IsSound (record r {
      f = elim r.f [ none ↦ none | some b ↦ some (b ++ s) ];
      ifaces = m;
      written = r.written + length s;
    })
append_block r s m h k numbered = record {
  files = h.files;
  bytes = h.bytes ++ s;
  is_open = rw h.is_open;
  segment = IsSegment-append s h.segment k;
  counted = omega (arith, h.counted, length-append h.bytes s);
  numbered = numbered;
  recent = h.recent;
}

put_packet-IsSound :
    (r : Recorder) (id : ℕ) (fr : Frame)
    → IsSound r
    → epb_size fr.data_bytes < 2 ^ 32
    → IsSound (put_packet r id fr none).0
unfolding put_packet
put_packet-IsSound r id fr h fits =
    subst
      (λ n.
        IsSound (record (append_bytes r (write_epb id fr.time fr.data_bytes)) {
          written = r.written + n;
        }))
      (length-write_epb id fr.time fr.data_bytes)
      (append_block r (write_epb id fr.time fr.data_bytes) r.ifaces h
        (write_epb-IsBlock id fr.time fr.data_bytes fits) h.numbered)

-- what `declare_iface` promises of its result
pub record Declared (name : Bytes) (d : Recorder × ℕ × Option IoError) : Type 0 where
  pub sound : IsSound d.0
  pub found : find_iface d.0.ifaces name ≡ some d.1
  pub known : d.1 < length d.0.ifaces
  pub fine : d.2 ≡ none

declare_new :
    (r : Recorder) (name : Bytes)
    → IsSound r
    → idb_size name < 2 ^ 32
    → IsSound (record (append_bytes r (write_idb name)) {
      ifaces = r.ifaces ++ (name, length r.ifaces) ∷ [];
      written = r.written + idb_size name;
    })
declare_new r name h fits =
    let m = r.ifaces ++ (name, length r.ifaces) ∷ [] in
    subst
      (λ n.
        IsSound (record (append_bytes r (write_idb name)) { ifaces = m; written = r.written + n }))
      (length-write_idb name)
      (append_block r (write_idb name) m h (write_idb-IsBlock name fits) (
        subst (λ k. Numbered 0 (r.ifaces ++ (name, k) ∷ [])) {x = 0 + length r.ifaces}
          {y = length r.ifaces} (omega arith) (Numbered-append 0 r.ifaces name h.numbered)))

declare_iface-Declared :
    (r : Recorder) (name : Bytes)
    → IsSound r
    → idb_size name < 2 ^ 32
    → Declared name (declare_iface r name none)
unfolding declare_iface
declare_iface-Declared r name h fits = elim (Option-cases (find_iface r.ifaces name)) [
  | inl new ↦
      rw (new, declare_iface)
        (record {
          sound = declare_new r name h fits;
          found = find_iface-append_self r.ifaces name (length r.ifaces) new;
          known = omega (arith, length-append r.ifaces ((name, length r.ifaces) ∷ []));
          fine = refl;
        })
  | inr (id, old) ↦
      rw (old, declare_iface)
        (record {
          sound = h;
          found = old;
          known = omega (arith, find_iface-lt 0 r.ifaces name id h.numbered old);
          fine = refl;
        })
]

-- A frame whose blocks have sizes that 32 bits hold.
pub record FitsBlocks (fr : Frame) : Type 0 where
  pub name : idb_size fr.interface < 2 ^ 32
  pub payload : epb_size fr.data_bytes < 2 ^ 32

-- what a call leaves: a recorder whose files are valid, or, where a write has failed, one whose
-- closed files are
abbrev pub Leaves : Recorder × Option IoError → Type 0
Leaves (r, e) =
    ((e ≡ some write_failed) × All (λ (file : Bytes × Bytes). IsSegment file.1) r.files) ⊎ IsSound r

put_packet-Leaves :
    (r : Recorder) (id : ℕ) (fr : Frame) (epb : Option ℕ)
    → IsSound r
    → epb_size fr.data_bytes < 2 ^ 32
    → Leaves (put_packet r id fr epb)
unfolding put_packet
put_packet-Leaves r id fr none h fits = inr (put_packet-IsSound r id fr h fits)
put_packet-Leaves r id fr (some n) h fits = inl (refl, h.files)

pub put_frame-Leaves :
    (r : Recorder) (fr : Frame) (idb epb : Option ℕ)
    → IsSound r
    → FitsBlocks fr
    → Leaves (put_frame r fr idb epb)
unfolding put_frame declare_iface
put_frame-Leaves r fr none epb h fits =
    let d = declare_iface-Declared r fr.interface h fits.name in
    rw (d.fine, put_frame)
      (put_packet-Leaves (declare_iface r fr.interface none).0 (declare_iface r fr.interface none).1
        fr epb d.sound fits.payload)
put_frame-Leaves r fr (some n) epb h fits = elim (Option-cases (find_iface r.ifaces fr.interface)) [
  | inl absent ↦ rw (absent, put_frame) (rw (absent, declare_iface) (inl (refl, h.files)))
  | inr (id, old) ↦
      rw (old, put_frame) (rw (old, declare_iface) (put_packet-Leaves r id fr epb h fits.payload))
]
