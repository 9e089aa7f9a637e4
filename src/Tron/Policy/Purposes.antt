-- ===== src/Tron/Policy/Purposes.antt =====
-- The joined purposes of a batch, as `purposes` of derivation/vm/tron/policy.ts.
use relay_settlement.Common.{
  ℕ, ◌+◌, ◌≡◌, ◌≤◌, refl, ap, ap₂, sym, List, [], ◌∷◌, ◌++◌, arith, length, ◌==◌, if◌then◌else◌,
}
use relay_settlement.Host.{Text}
use relay_settlement.Tron.Policy.{join}

abbrev pub commas : Text → ℕ
commas [] = 0
commas (c ∷ cs) = (if c == b',' then 1 else 0) + commas cs

abbrev pub all_commas : List Text → ℕ
all_commas [] = 0
all_commas (t ∷ ts) = commas t + all_commas ts

commas-append : (s t : Text) → commas (s ++ t) ≡ commas s + commas t
commas-append [] t = omega arith
commas-append (c ∷ cs) t = omega (arith, commas-append cs t)

commas-join : (t : Text) (ts : List Text) → commas (join (t ∷ ts)) ≡ length ts + all_commas (t ∷ ts)
unfolding join
commas-join t [] = omega arith
commas-join t (u ∷ ts) = ground (arith, commas-append t (b',' ∷ join (u ∷ ts)), commas-join u ts)

-- A text up to its first comma is determined by the whole.
cut_at_comma :
    (s t u v : Text)
    → commas s ≡ 0
    → commas t ≡ 0
    → s ++ (b',' ∷ u) ≡ t ++ (b',' ∷ v)
    → (s ≡ t) × (u ≡ v)
cut_at_comma [] [] u v p q h = (refl, cc)
cut_at_comma [] (y ∷ t) u v p q h = absurd (ground (arith))
cut_at_comma (x ∷ s) [] u v p q h = absurd (ground (arith))
cut_at_comma (x ∷ s) (y ∷ t) u v p q h =
    let (e, rest) = cut_at_comma s t u v (omega arith) (omega arith) (cc) in
    (ap₂ (λ a b. a ∷ b) (cc) e, rest)

commas-zero : (s t u : Text) → commas s ≡ 0 → s ≡ t ++ (b',' ∷ u) → 1 ≤ 0
commas-zero s t u p h = omega (arith, commas-append t (b',' ∷ u), ap (λ x. commas x) h)

join_injective :
    (s : Text) (ss : List Text) (t : Text) (ts : List Text)
    → all_commas (s ∷ ss) ≡ 0
    → all_commas (t ∷ ts) ≡ 0
    → join (s ∷ ss) ≡ join (t ∷ ts)
    → s ∷ ss ≡ t ∷ ts
unfolding join
join_injective s [] t [] p q h = ap (λ x. x ∷ []) h
join_injective s [] t (u ∷ ts) p q h =
    absurd (omega (arith, commas-zero s t (join (u ∷ ts)) (omega arith) h))
join_injective s (r ∷ ss) t [] p q h =
    absurd (omega (arith, commas-zero t s (join (r ∷ ss)) (omega arith) (sym h)))
join_injective s (r ∷ ss) t (u ∷ ts) p q h =
    let (e, rest) =
      cut_at_comma s t (join (r ∷ ss)) (join (u ∷ ts)) (omega arith) (omega arith) h in
    ap₂ (λ a b. a ∷ b) e (join_injective r ss u ts (omega arith) (omega arith) rest)

-- Texts that are as many as texts without a comma, and that join to the same, are those texts.
pub join_determined :
    (s : Text) (ss : List Text) (t : Text) (ts : List Text)
    → all_commas (t ∷ ts) ≡ 0
    → length ts ≤ length ss
    → join (s ∷ ss) ≡ join (t ∷ ts)
    → s ∷ ss ≡ t ∷ ts
join_determined s ss t ts q long h =
    let p : all_commas (s ∷ ss) ≡ 0 =
      omega (arith, commas-join s ss, commas-join t ts, ap (λ x. commas x) h) in
    join_injective s ss t ts p q h
