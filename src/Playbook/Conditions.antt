-- ===== src/Playbook/Conditions.antt =====
-- internal/playbook/engine.go: a playbook matches where its conditions hold.
use netprobe_ir.Model.{SecurityFinding, Value, number, other_value, text, texts, truth}
use netprobe_ir.Playbook.{
  Condition, Match, Playbook, contains_fold, sev_rank, evidence_bool, fail_if, check_tags,
  check_finding, check_evidence, start, evaluate,
}
use netprobe_ir.Prelude.{
  ap, inr, lookup, some, Option-cases, ◌≢◌, ◌||◌, if_cases, if◌then◌else◌, sym, ℕ, ◌∙◌, str_eq,
  pos_part, inl, is_pos, refl, ◌++◌, All, arith, codes, false, ◌≤◌, equal_fold, length, not, ◌↔◌,
  ◌⊎◌, Bool, [], ltb, true, ◌&&◌, ◌∷◌, Bytes, List, ◌≡◌, str_eq_iff,
}

-- one of the texts is the given one, but for the case of its letters
abbrev pub Among : Bytes → List Bytes → Type 0
Among v [] = ⊥
Among v (x ∷ xs) = (equal_fold x v ≡ true) ⊎ Among v xs

-- A value counts as evidence: a truth value if it is true, a text if it is not empty, whatever it
-- says, and any other always.
abbrev pub Counts : Value → Type 0
Counts (truth b) = b ≡ true
Counts (text s) = s ≢ []
Counts _ = Unit

-- the evidence has a value under the name, and it counts
abbrev pub Shown : Bytes → List (Bytes × Value) → Type 0
Shown k m = (v : Value) × (lookup k m ≡ some v) × Counts v

pub record Meets (c : Condition) (f : SecurityFinding) : Type 0 where
  pub severity : (c.min_severity ≡ []) ⊎ (sev_rank c.min_severity ≤ sev_rank f.severity)
  pub confidence :
      (is_pos c.min_confidence ≡ false) ⊎ (pos_part c.min_confidence ≤ pos_part f.confidence)
  pub verdict : (c.verdicts ≡ []) ⊎ Among f.verdict c.verdicts
  pub category : (c.categories ≡ []) ⊎ Among f.category c.categories
  pub tags : All (λ want. Among want f.tags) c.tags
  pub yara : (c.require_yara ≡ false) ⊎ Shown (codes "yara_match") f.evidence
  pub kev : (c.require_kev ≡ false) ⊎ Shown (codes "kev") f.evidence

contains_fold_iff : (xs : List Bytes) (v : Bytes) → contains_fold xs v ≡ true ↔ Among v xs
unfolding contains_fold
contains_fold_iff [] v = (λ h. ground (arith, h), absurd)
contains_fold_iff (x ∷ xs) v = ground (arith, contains_fold_iff xs v)

module _ (reason : Bytes) (m : Match) where
  fail_if-matched : (failed : Bool) → (fail_if failed reason m).matched ≡ (not failed && m.matched)
  fail_if-matched true = refl
  fail_if-matched false = refl

-- all the tests of `check_tags`
has_all : List Bytes → List Bytes → Bool
has_all have [] = true
has_all have (want ∷ wants) = contains_fold have want && has_all have wants

check_tags-matched :
    (have wants : List Bytes) (m : Match)
    → (check_tags have wants m).matched ≡ (has_all have wants && m.matched)
unfolding check_tags has_all
check_tags-matched have [] m = refl
check_tags-matched have (want ∷ wants) m =
    let t = not (contains_fold have want) in
    let r = codes "missing tag " ++ want in
    ground (arith, check_tags-matched have wants (fail_if t r m), fail_if-matched r m t)

has_all_iff :
    (have wants : List Bytes) → has_all have wants ≡ true ↔ All (λ want. Among want have) wants
unfolding has_all
has_all_iff have [] = (λ _. tt, λ _. refl)
has_all_iff have (want ∷ wants) =
    ground (arith, contains_fold_iff have want, has_all_iff have wants)

unless_empty_iff :
    (xs : List Bytes) (v : Bytes)
    → not (ltb 0 (length xs) && not (contains_fold xs v)) ≡ true ↔ ((xs ≡ []) ⊎ Among v xs)
unless_empty_iff [] v = (λ _. inl refl, λ _. refl)
unless_empty_iff (x ∷ xs) v = ground (arith, contains_fold_iff (x ∷ xs) v)

-- the test of each condition, as the code has it
abbrev passes : Condition → SecurityFinding → Bool
passes c f =
    not (not (str_eq c.min_severity []) && ltb (sev_rank f.severity) (sev_rank c.min_severity))
    && (not (is_pos c.min_confidence && ltb (pos_part f.confidence) (pos_part c.min_confidence))
        && (not (ltb 0 (length c.verdicts) && not (contains_fold c.verdicts f.verdict))
            && (not (ltb 0 (length c.categories) && not (contains_fold c.categories f.category))
                && (has_all f.tags c.tags
                    && (not (c.require_yara && not (evidence_bool f.evidence (codes "yara_match")))
                        && not (c.require_kev && not (evidence_bool f.evidence (codes "kev"))))))))

two :
    (t u : Bool) (r s : Bytes) (m : Match)
    → (fail_if u s (fail_if t r m)).matched ≡ (not t && not u && m.matched)
two true true r s m = refl
two true false r s m = refl
two false true r s m = refl
two false false r s m = refl

four :
    (t u v w : Bool) (r s x y : Bytes) (m : Match)
    → (fail_if w y (fail_if v x (fail_if u s (fail_if t r m)))).matched
      ≡ (not t && not u && not v && not w && m.matched)
four t u v w r s x y m = ground (arith, two v w x y (fail_if u s (fail_if t r m)), two t u r s m)

check_finding-matched :
    (c : Condition) (f : SecurityFinding) (m : Match)
    → (check_finding c f m).matched ≡ (
        not (not (str_eq c.min_severity []) && ltb (sev_rank f.severity) (sev_rank c.min_severity))
        && not (is_pos c.min_confidence && ltb (pos_part f.confidence) (pos_part c.min_confidence))
        && not (ltb 0 (length c.verdicts) && not (contains_fold c.verdicts f.verdict))
        && not (ltb 0 (length c.categories) && not (contains_fold c.categories f.category))
        && m.matched)
unfolding check_finding
check_finding-matched c f m =
    let t₀ =
      not (str_eq c.min_severity []) && ltb (sev_rank f.severity) (sev_rank c.min_severity) in
    let t₁ = is_pos c.min_confidence && ltb (pos_part f.confidence) (pos_part c.min_confidence) in
    let t₂ = ltb 0 (length c.verdicts) && not (contains_fold c.verdicts f.verdict) in
    let t₃ = ltb 0 (length c.categories) && not (contains_fold c.categories f.category) in
    four t₀ t₁ t₂ t₃ (codes "severity below threshold") (codes "confidence below threshold")
      (codes "verdict mismatch") (codes "category mismatch") m

check_evidence-matched :
    (c : Condition) (f : SecurityFinding) (m : Match)
    → (check_evidence c f m).matched ≡ (
        not (c.require_yara && not (evidence_bool f.evidence (codes "yara_match")))
        && not (c.require_kev && not (evidence_bool f.evidence (codes "kev")))
        && m.matched)
unfolding check_evidence
check_evidence-matched c f m =
    two (c.require_yara && not (evidence_bool f.evidence (codes "yara_match")))
      (c.require_kev && not (evidence_bool f.evidence (codes "kev")))
      (codes "YARA evidence required") (codes "KEV evidence required") m

closing-matched :
    (reason : Bytes) (m : Match)
    → (if m.matched then record m { reasons = m.reasons ++ reason ∷ [] } else m).matched ≡ m.matched
closing-matched reason m =
    if_cases (λ (x : Match). x.matched ≡ m.matched) m.matched _ _ (λ _. refl) λ _. refl

regroup :
    (a b c d h y k : Bool)
    → (y && k && (h && (a && b && c && d && true))) ≡ (a && (b && (c && (d && (h && (y && k))))))
regroup a b c d h y k = ground arith

evaluate-passes :
    (p : Playbook) (f : SecurityFinding) → (evaluate p f).matched ≡ passes p.condition f
unfolding evaluate
evaluate-passes p f =
    let c = p.condition in
    let m = check_finding c f (start p f) in
    let n = check_tags f.tags c.tags m in
    let sure = is_pos c.min_confidence && ltb (pos_part f.confidence) (pos_part c.min_confidence) in
    let grave =
      not (str_eq c.min_severity []) && ltb (sev_rank f.severity) (sev_rank c.min_severity) in
    let verdict = ltb 0 (length c.verdicts) && not (contains_fold c.verdicts f.verdict) in
    let category = ltb 0 (length c.categories) && not (contains_fold c.categories f.category) in
    let yara = not (c.require_yara && not (evidence_bool f.evidence (codes "yara_match"))) in
    let kev = not (c.require_kev && not (evidence_bool f.evidence (codes "kev"))) in
    closing-matched (codes "conditions matched") (check_evidence c f n)
    ∙ (check_evidence-matched c f n
        ∙ (ap (λ x. yara && kev && x)
              (check_tags-matched f.tags c.tags m
                ∙ ap (λ x. has_all f.tags c.tags && x) (check_finding-matched c f (start p f)))
            ∙ regroup (not grave) (not sure) (not verdict) (not category) (has_all f.tags c.tags)
                yara kev))

severity_iff :
    (s : Bytes) (a b : ℕ) → not (not (str_eq s []) && ltb a b) ≡ true ↔ ((s ≡ []) ⊎ (b ≤ a))
severity_iff s a b = ground (arith, str_eq_iff s [])

confidence_iff : (i : Bool) (a b : ℕ) → not (i && ltb a b) ≡ true ↔ ((i ≡ false) ⊎ (b ≤ a))
confidence_iff i a b = ground arith

no_text : (equal_fold [] (codes "true") || not (str_eq [] [])) ≡ false
unfolding str_eq
no_text = refl

module _ (m : List (Bytes × Value)) (k : Bytes) where
  evidence_bool-Counts : (v : Value) → lookup k m ≡ some v → evidence_bool m k ≡ true ↔ Counts v
  unfolding evidence_bool
  evidence_bool-Counts (truth b) here = rw (here, evidence_bool) (λ h. h, λ h. h)
  evidence_bool-Counts (text []) here =
      rw (here, evidence_bool) (λ h. absurd (ground (arith, h, no_text)), λ h. absurd (h refl))
  evidence_bool-Counts (text (c ∷ cs)) here =
      rw (here, evidence_bool) (λ _ e. absurd cc, λ _. ground (arith, str_eq_iff (c ∷ cs) []))
  evidence_bool-Counts (number n) here = rw (here, evidence_bool) (λ _. tt, λ _. refl)
  evidence_bool-Counts (texts ts) here = rw (here, evidence_bool) (λ _. tt, λ _. refl)
  evidence_bool-Counts other_value here = rw (here, evidence_bool) (λ _. tt, λ _. refl)

  Shown-iff : evidence_bool m k ≡ true ↔ Shown k m
  unfolding evidence_bool
  Shown-iff = elim (Option-cases (lookup k m)) [
    | inl missing ↦ (
      λ h. absurd (ground (arith, h, missing)),
      λ (v, here, _). absurd (ground (arith, here, missing)),
    )
    | inr (v, here) ↦ (
      λ h. (v, here, (evidence_bool-Counts v here).0 h),
      λ (w, there, c). (evidence_bool-Counts w there).1 c,
    )
  ]

required_iff :
    (r e : Bool) {S : Type 0} → e ≡ true ↔ S → not (r && not e) ≡ true ↔ ((r ≡ false) ⊎ S)
required_iff false e h = (λ _. inl refl, λ _. refl)
required_iff true true h = (λ _. inr (h.0 refl), λ _. refl)
required_iff true false h = (
  λ k. absurd (ground (arith, k)),
  λ k. elim k [ inl n ↦ absurd (ground (arith, n)) | inr s ↦ h.1 s ],
)

and_iff : (a b : Bool) → (a && b) ≡ true ↔ ((a ≡ true) × (b ≡ true))
and_iff a b = ground arith

passes-Meets : (c : Condition) (f : SecurityFinding) → passes c f ≡ true → Meets c f
passes-Meets c f h =
    let (a, h₁) = (and_iff _ _).0 h in
    let (b, h₂) = (and_iff _ _).0 h₁ in
    let (d, h₃) = (and_iff _ _).0 h₂ in
    let (e, h₄) = (and_iff _ _).0 h₃ in
    let (g, h₅) = (and_iff _ _).0 h₄ in
    let (y, k) = (and_iff _ _).0 h₅ in
    record {
      severity = (severity_iff c.min_severity (sev_rank f.severity) (sev_rank c.min_severity)).0 a;
      confidence =
          (confidence_iff (is_pos c.min_confidence) (pos_part f.confidence)
              (pos_part c.min_confidence)).0
            b;
      verdict = (unless_empty_iff c.verdicts f.verdict).0 d;
      category = (unless_empty_iff c.categories f.category).0 e;
      tags = (has_all_iff f.tags c.tags).0 g;
      yara =
          (required_iff c.require_yara (evidence_bool f.evidence (codes "yara_match"))
              (Shown-iff f.evidence (codes "yara_match"))).0
            y;
      kev =
          (required_iff c.require_kev (evidence_bool f.evidence (codes "kev"))
              (Shown-iff f.evidence (codes "kev"))).0
            k;
    }

Meets-passes : (c : Condition) (f : SecurityFinding) → Meets c f → passes c f ≡ true
Meets-passes c f m =
    let a =
      (severity_iff c.min_severity (sev_rank f.severity) (sev_rank c.min_severity)).1 m.severity in
    let b =
      (confidence_iff (is_pos c.min_confidence) (pos_part f.confidence)
          (pos_part c.min_confidence)).1
        m.confidence in
    let y =
      (required_iff c.require_yara (evidence_bool f.evidence (codes "yara_match"))
          (Shown-iff f.evidence (codes "yara_match"))).1
        m.yara in
    let k =
      (required_iff c.require_kev (evidence_bool f.evidence (codes "kev"))
          (Shown-iff f.evidence (codes "kev"))).1
        m.kev in
    (and_iff _ _).1 (
      a,
      (and_iff _ _).1 (
        b,
        (and_iff _ _).1 (
          (unless_empty_iff c.verdicts f.verdict).1 m.verdict,
          (and_iff _ _).1 (
            (unless_empty_iff c.categories f.category).1 m.category,
            (and_iff _ _).1 ((has_all_iff f.tags c.tags).1 m.tags, (and_iff _ _).1 (y, k)),
          ),
        ),
      ),
    )

-- A playbook matches a finding exactly where all of its conditions hold. A condition that requires
-- evidence holds where there is a value under its name that is true, a text that is not empty,
-- whatever it says, or of another kind.
pub evaluate_iff :
    (p : Playbook) (f : SecurityFinding) → (evaluate p f).matched ≡ true ↔ Meets p.condition f
evaluate_iff p f =
    let e = evaluate-passes p f in
    (λ h. passes-Meets p.condition f (sym e ∙ h), λ m. e ∙ Meets-passes p.condition f m)
