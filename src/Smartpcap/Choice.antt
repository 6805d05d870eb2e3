-- ===== src/Smartpcap/Choice.antt =====
-- internal/smartpcap/policy.go, Decide: the rule that counts, and the actions it can give.
use netprobe_ir.Smartpcap.{
  trim_space, to_lower, Decision, Policy, Rule, decide, first_rule, match_rule, fallback, normalize,
  is_action,
}
use netprobe_ir.Prelude.{
  str_eq_iff, inr, ap, inl, ◌||◌, Bool-cases, not, ◌∙◌, codes, refl, ◌++◌, ◌∷◌, All, false, str_eq,
  List, arith, Bool, [], true, Option, ◌≡◌, ◌⊎◌, Bytes,
}
use netprobe_ir.Decode.{Packet}
use netprobe_ir.Model.{Flow}

-- the actions that the configuration names
abbrev pub IsAction : Bytes → Type 0
IsAction a = is_action a ≡ true

normalize-cases : (a : Bytes) → IsAction (normalize a) ⊎ (normalize a ≡ [])
unfolding normalize
normalize-cases a = ground arith

module _ (cidr : Bytes → Option (Bytes → Bool)) (pkt : Packet) (f : Flow) where
  -- the rule that matches first
  abbrev pub Misses : Rule → Type 0
  Misses r = match_rule cidr r pkt f ≡ false

  first_rule-none : (rs : List Rule) (d : Decision) → All Misses rs → first_rule cidr rs pkt f d ≡ d
  unfolding first_rule
  first_rule-none [] d h = refl
  first_rule-none (r ∷ rs) d (h, hs) = rw h (first_rule-none rs d hs)

  first_rule-append :
      (before after : List Rule) (r : Rule) (d : Decision)
      → All Misses before
      → match_rule cidr r pkt f ≡ true
      → first_rule cidr (before ++ r ∷ after) pkt f d
        ≡ (record { action = normalize r.action; rule = r.name })
  unfolding first_rule
  first_rule-append [] after r d h m = rw m refl
  first_rule-append (q ∷ qs) after r d (h, hs) m = rw h (first_rule-append qs after r d hs m)

  fallback-rule : (p : Policy) (mode : Bytes) → (fallback cidr p mode).rule ≡ []
  unfolding fallback
  fallback-rule p mode = refl

  fallback-IsAction : (p : Policy) (mode : Bytes) → IsAction (fallback cidr p mode).action
  unfolding fallback str_eq
  fallback-IsAction p mode = elim (Bool-cases (str_eq (normalize p.default_action) [])) [
    | inl empty ↦ rw empty (elim (Bool-cases (str_eq mode (codes "metadata"))) [
      | inl m ↦ rw m refl
      | inr m ↦ rw m refl
    ])
    | inr given ↦ rw given (elim (normalize-cases p.default_action) [
      | inl a ↦ a
      | inr e ↦ absurd (ground (arith, str_eq_iff (normalize p.default_action) []))
    ])
  ]

  -- "" and "full" record everything, whatever the rules
  abbrev pub is_partial : Policy → Bool
  is_partial p =
      let mode = to_lower (trim_space p.mode) in not (str_eq mode [] || str_eq mode (codes "full"))

  decide-partial :
      (p : Policy)
      → is_partial p ≡ true
      → decide cidr p pkt f
        ≡ first_rule cidr p.rules pkt f (fallback cidr p (to_lower (trim_space p.mode)))
  unfolding decide
  decide-partial p h = ground (arith, h)

  -- In a mode that is neither empty nor "full", the first rule that matches decides, with its
  -- action, spelled in lower case or empty where it is none of the four, and with its name.
  pub decide-first :
      (p : Policy) (before after : List Rule) (r : Rule)
      → is_partial p ≡ true
      → p.rules ≡ before ++ r ∷ after
      → All Misses before
      → match_rule cidr r pkt f ≡ true
      → (decide cidr p pkt f ≡ (record { action = normalize r.action; rule = r.name }))
        × (IsAction (normalize r.action) ⊎ (normalize r.action ≡ []))
  decide-first p before after r h split misses hit =
      let d = fallback cidr p (to_lower (trim_space p.mode)) in
      (
        decide-partial p h
            ∙ ap (λ rs. first_rule cidr rs pkt f d) split
            ∙ first_rule-append before after r d misses hit,
        normalize-cases r.action,
      )

  -- In a mode that is neither empty nor "full", where no rule matches, no rule is named, and the
  -- action is one of "full", "headers", "metadata" and "drop", whatever the policy's default is.
  pub decide-fallback :
      (p : Policy)
      → is_partial p ≡ true
      → All Misses p.rules
      → ((decide cidr p pkt f).rule ≡ []) × IsAction (decide cidr p pkt f).action
  decide-fallback p h misses =
      let mode = to_lower (trim_space p.mode) in
      rw (decide-partial p h) (
        rw (first_rule-none p.rules (fallback cidr p mode) misses)
          (fallback-rule p mode, fallback-IsAction p mode))
