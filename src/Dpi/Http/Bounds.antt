-- ===== src/Dpi/Http/Bounds.antt =====
-- internal/dpi/dpi.go, parseHTTP: its outcomes.
use netprobe_ir.Dpi.{Safe-require}
use netprobe_ir.Dpi.Http.{
  blank_line, fields, parse_http, first_line, read_head, split_lines, cut_text,
}
use netprobe_ir.Prelude.{
  Any, ltb, inr, inl, [], codes, starts_with, Option-cases, Safe-bind, Safe-if, length, ◌∷◌, List,
  leb, ℤ, Bytes, Safe, returns, fails,
}

module _ (atoi : Bytes → ℤ) where
  first_line-Safe : (words : List Bytes) → Safe Any (first_line atoi words)
  unfolding first_line
  first_line-Safe [] = fails
  first_line-Safe (a ∷ []) = fails
  first_line-Safe (a ∷ b ∷ []) =
      Safe-if (starts_with a (codes "HTTP/")) _ _ (λ _. returns tt) λ _. fails
  first_line-Safe (a ∷ b ∷ c ∷ words) =
      Safe-if (starts_with c (codes "HTTP/")) _ _ (λ _. returns tt)
        λ _. Safe-if (starts_with a (codes "HTTP/")) _ _ (λ _. returns tt) λ _. fails

  read_head-Safe : (lines : List Bytes) → Safe Any (read_head atoi lines)
  unfolding read_head
  read_head-Safe [] = fails
  read_head-Safe (line ∷ lines) = Safe-bind (first_line-Safe (fields line)) λ h _. returns tt

  pub parse_http-Safe : (b : Bytes) → Safe Any (parse_http atoi b)
  unfolding parse_http
  parse_http-Safe b = Safe-require (leb 5 (length b)) _ λ _.
      elim (Option-cases (cut_text blank_line b)) [
        | inl absent ↦ rw absent fails
        | inr ((head, rest), there) ↦ rw there (
            Safe-if (ltb 32768 (length head)) _ _ (λ _. fails)
              λ _. read_head-Safe (split_lines head))
      ]
