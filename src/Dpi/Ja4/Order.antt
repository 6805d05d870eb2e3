-- ===== src/Dpi/Ja4/Order.antt =====
-- internal/dpi/dpi.go, ja4Fingerprint, on lists in another order.
use mathlib.Core.List.{Perm, Permᴰ}
use mathlib.Core.Logic.{∥∥₁_elim}
use native.Mathlib.Nat.{ℕ_set}
use mathlib.Core.List.Permᴰ
use mathlib.Core.List.{is_set}
use netprobe_ir.Dpi.Ja4.{wanted, listed, ja4_fingerprint}
use netprobe_ir.Prelude.{
  true, false, ap₂, subst, [], if◌then◌else◌, inr, inl, Bool-cases, ◌∷◌, refl, sort_by-Permᴰ, ◌∙◌,
  Bool, suc, Bytes, ap, ◌≡◌, ℕ, List, length,
}

listed-cons :
    (x : ℕ) (xs ys : List ℕ)
    → Permᴰ (listed xs) (listed ys)
    → Permᴰ (listed (x ∷ xs)) (listed (x ∷ ys))
unfolding listed
listed-cons x xs ys p = elim (Bool-cases (wanted x)) [
  | inl kept ↦ rw kept (Permᴰ.cons refl p)
  | inr dropped ↦ rw dropped p
]

swap_if :
    (p q : Bool) (a b : ℕ) (l : List ℕ)
    → Permᴰ
        (let rest = if q then b ∷ l else l in if p then a ∷ rest else rest)
        (let rest = if p then a ∷ l else l in if q then b ∷ rest else rest)
swap_if true true a b l = Permᴰ.swap refl refl
swap_if true false a b l = Permᴰ.refl _
swap_if false true a b l = Permᴰ.refl _
swap_if false false a b l = Permᴰ.refl _

listed-Permᴰ : {xs ys : List ℕ} → Permᴰ xs ys → Permᴰ (listed xs) (listed ys)
unfolding listed
listed-Permᴰ Permᴰ.nil = Permᴰ.refl (listed [])
listed-Permᴰ (Permᴰ.cons {a = a} {l₁ = xs} {l₂ = ys} same p) =
    subst (λ b. Permᴰ (listed (a ∷ xs)) (listed (b ∷ ys))) same
      (listed-cons a xs ys (listed-Permᴰ p))
listed-Permᴰ (Permᴰ.swap {a = a} {b = b} {l = l} e f) =
    subst (λ u. Permᴰ (listed (a ∷ b ∷ l)) (listed u)) (ap₂ (λ u v. u ∷ v ∷ l) f e)
      (swap_if (wanted a) (wanted b) a b (listed l))
listed-Permᴰ (Permᴰ.trans p q) = Permᴰ.trans (listed-Permᴰ p) (listed-Permᴰ q)

length-Permᴰ : {A : Type 0} {xs ys : List A} → Permᴰ xs ys → length xs ≡ length ys
length-Permᴰ Permᴰ.nil = refl
length-Permᴰ (Permᴰ.cons same p) = ap suc (length-Permᴰ p)
length-Permᴰ (Permᴰ.swap e f) = refl
length-Permᴰ (Permᴰ.trans p q) = length-Permᴰ p ∙ length-Permᴰ q

module _ (sha256 : Bytes → Bytes) (version : ℕ) (has_sni : Bool) (alpn : List Bytes) where
  ja4-Permᴰ :
      {cs cs' es es' : List ℕ} (ss : List ℕ)
      → Permᴰ cs cs'
      → Permᴰ es es'
      → ja4_fingerprint sha256 version has_sni alpn cs es ss
        ≡ ja4_fingerprint sha256 version has_sni alpn cs' es' ss
  unfolding ja4_fingerprint
  ja4-Permᴰ ss p q = rw (sort_by-Permᴰ p, sort_by-Permᴰ (listed-Permᴰ q), length-Permᴰ q) refl

  -- The fingerprint is the same for cipher suites and extensions in another order.
  pub ja4_fingerprint-Perm :
      (cs cs' es es' ss : List ℕ)
      → Perm cs cs'
      → Perm es es'
      → ja4_fingerprint sha256 version has_sni alpn cs es ss
        ≡ ja4_fingerprint sha256 version has_sni alpn cs' es' ss
  ja4_fingerprint-Perm cs cs' es es' ss p q =
      ∥∥₁_elim p (is_set ℕ_set _ _) λ p'. ∥∥₁_elim q (is_set ℕ_set _ _) λ q'. ja4-Permᴰ ss p' q'
