-- ===== src/Tuning/Live.antt =====
-- internal/tuning/store.go: which findings are kept back, and for how long.
use netprobe_ir.Model.{SecurityFinding, Value}
use netprobe_ir.Tuning.{Rule, add, applies, is_kind, suppressed, is_off}
use netprobe_ir.Prelude.{
  ltb, ◌&&◌, ◌==◌, not, ◌||◌, false, arith, str_eq, trim_space, ◌↔◌, ◌≤◌, [], to_lower, true, ◌⊎◌,
  Bool, ◌++◌, ◌∷◌, ◌≡◌, Time, Bytes, List,
}

module _ (evidence_text : List (Bytes × Value) → Bytes) (f : SecurityFinding) where
  suppressed-append :
      (now : Time) (rs : List Rule) (r : Rule)
      → suppressed evidence_text now f (rs ++ r ∷ [])
        ≡ (suppressed evidence_text now f rs || not (is_off now r) && applies evidence_text f r)
  unfolding suppressed
  suppressed-append now [] r = ground arith
  suppressed-append now (x ∷ rs) r = ground (arith, suppressed-append now rs r)

  kept_iff :
      (now end : Time) (before applied : Bool)
      → (before || not (not (end == 0) && ltb end now) && applied) ≡ true
        ↔ ((before ≡ true) ⊎ (((end ≡ 0) ⊎ (now ≤ end)) × (applied ≡ true)))
  kept_iff now end before applied = ground arith

  -- Behind a call of Add that gives a rule, whether or not it fails to save, a finding is kept back
  -- exactly where it was kept back before, or the new rule applies to it and has not ended: it has
  -- no end, or its end is not before the present time.
  pub add-suppressed :
      (given : Rule) (id : Bytes) (at now : Time) (saved : Bool) (rs : List Rule)
      → let r = record given {
        kind = to_lower (trim_space given.kind);
        value = trim_space given.value;
        id = id;
        created_at = at;
        enabled = true;
      } in
        is_kind r.kind ≡ true
        → str_eq r.value [] ≡ false
        → suppressed evidence_text now f (add given id at saved rs).0 ≡ true ↔ (
            (suppressed evidence_text now f rs ≡ true)
            ⊎ (((r.expires_at ≡ 0) ⊎ (now ≤ r.expires_at)) × (applies evidence_text f r ≡ true)))
  unfolding add
  add-suppressed given id at now saved rs kind value =
      let r = record given {
        kind = to_lower (trim_space given.kind);
        value = trim_space given.value;
        id = id;
        created_at = at;
        enabled = true;
      } in
      rw (kind, add)
        (rw (value, add)
          (rw (suppressed-append now rs r) (
            kept_iff now given.expires_at (suppressed evidence_text now f rs)
              (applies evidence_text f r))))
