-- ===== src/Bitcoin/Scripts/Depositor.antt =====
-- What `DEPOSITOR_RE` captures.
use relay_settlement.Common.{
  ℕ, ◌≡◌, ◌≢◌, refl, ap, ◌∙◌, [], ◌∷◌, ◌++◌, arith, none, some, All, ==_iff, ◌==◌, ap₂, sym, subst,
  ◌⊎◌, Option-cases, Bool-cases, inl, inr, true, false, drop,
}
use relay_settlement.Host.{Text, starts_with}
use relay_settlement.Bitcoin.Scripts.{
  span_to_bar, depositor_tag, closed_run, match_depositor, find_depositor,
}

-- `text` holds the tag, then `group`, then a bar; `group` is not empty and has no bar.
pub record Names (text group : Text) : Type 0 where
  pub before : Text
  pub after : Text
  pub at : text ≡ before ++ (depositor_tag ++ (group ++ (b'|' ∷ after)))
  pub some_character : group ≢ []
  pub no_bar : All (λ c. c ≢ b'|') group

pub starts_with_split :
    (p text : Text) → starts_with p text ≡ true → (rest : Text) × (text ≡ p ++ rest)
unfolding starts_with
starts_with_split [] text h = (text, refl)
starts_with_split (p ∷ ps) [] h = absurd (cc)
starts_with_split (p ∷ ps) (c ∷ cs) h =
    let same : p ≡ c = ground arith in
    let tail : starts_with ps cs ≡ true = ground arith in
    let (rest, q) = starts_with_split ps cs tail in (rest, ap₂ ◌∷◌ (sym same) q)

pub starts_with-append : (p rest : Text) → starts_with p (p ++ rest) ≡ true
unfolding starts_with
starts_with-append [] rest = refl
starts_with-append (p ∷ ps) rest = ground (arith, starts_with-append ps rest)

-- What a run and its rest are to the text that they were cut from.
record Cut (text run rest : Text) : Type 0 where
  whole : text ≡ run ++ rest
  no_bar : All (λ c. c ≢ b'|') run
  stopped : (rest ≡ []) ⊎ ((after : Text) × (rest ≡ b'|' ∷ after))

span_to_bar-Cut : (text : Text) → Cut text (span_to_bar text).0 (span_to_bar text).1
unfolding span_to_bar
span_to_bar-Cut [] = record { whole = refl; no_bar = tt; stopped = inl refl }
span_to_bar-Cut (c ∷ cs) = elim (Bool-cases (c == b'|')) [
  | inl e ↦
      let bar : c ≡ b'|' = (==_iff c b'|').0 e in
      rw e (record { whole = refl; no_bar = tt; stopped = inr (cs, ap (λ t. t ∷ cs) bar) })
  | inr e ↦
      let ih = span_to_bar-Cut cs in
      let other : c ≢ b'|' = λ q. cc (e, (==_iff c b'|').1 q) in
      rw e (record {
        whole = ap (λ t. c ∷ t) ih.whole;
        no_bar = (other, ih.no_bar);
        stopped = ih.stopped;
      })
]

-- A run that is closed by a bar.
closed_run_lem :
    (text run rest group : Text)
    → Cut text run rest
    → closed_run (run, rest) ≡ some group
    → (after : Text) × (text ≡ group ++ (b'|' ∷ after)) × (group ≢ []) × All (λ c. c ≢ b'|') group
closed_run_lem text [] rest group k h = absurd (cc)
closed_run_lem text (c ∷ run) [] group k h = absurd (cc)
closed_run_lem text (c ∷ run) (bar ∷ rest) group k h =
    let same : c ∷ run ≡ group = cc in
    elim k.stopped [
      | inl e ↦ absurd (cc)
      | inr (after, e) ↦ (
        after,
        k.whole ∙ ap₂ ◌++◌ same e,
        λ q. cc,
        subst (λ g. All (λ c. c ≢ b'|') g) same k.no_bar,
      )
    ]

match_depositor-Names : (text group : Text) → match_depositor text ≡ some group → Names text group
unfolding match_depositor
match_depositor-Names text group h = elim (Bool-cases (starts_with depositor_tag text)) [
  | inl e ↦
      let (rest, q) = starts_with_split depositor_tag text e in
      let rest_of : drop 11 text ≡ rest = ap (drop 11) q in
      let found : closed_run (span_to_bar rest) ≡ some group = ground (arith, rest_of) in
      let (after, whole, some_character, no_bar) =
        closed_run_lem rest (span_to_bar rest).0 (span_to_bar rest).1 group (span_to_bar-Cut rest)
          found in
      record {
        before = [];
        after = after;
        at = q ∙ ap (λ t. depositor_tag ++ t) whole;
        some_character = some_character;
        no_bar = no_bar;
      }
  | inr e ↦ absurd (cc)
]

-- The text that is captured stands in the metadata between `|depositor=` and a bar, is not empty
-- and has no bar.
pub find_depositor-Names : (text group : Text) → find_depositor text ≡ some group → Names text group
unfolding find_depositor
find_depositor-Names [] group h = absurd (cc)
find_depositor-Names (c ∷ cs) group h = elim (Option-cases (match_depositor (c ∷ cs))) [
  | inl e ↦
      let n = find_depositor-Names cs group (rw (e, find_depositor) at h) in
      record {
        before = c ∷ n.before;
        after = n.after;
        at = ap (λ t. c ∷ t) n.at;
        some_character = n.some_character;
        no_bar = n.no_bar;
      }
  | inr (g, e) ↦ match_depositor-Names (c ∷ cs) group (e ∙ (rw (e, find_depositor) at h))
]

span_to_bar-append :
    (run after : Text)
    → All (λ c. c ≢ b'|') run
    → span_to_bar (run ++ (b'|' ∷ after)) ≡ (run, b'|' ∷ after)
unfolding span_to_bar
span_to_bar-append [] after h = refl
span_to_bar-append (c ∷ run) after h =
    let other : (c == b'|') ≡ false = ground (arith, h.0) in
    rw (other, span_to_bar-append run after h.1)

match_depositor_front :
    (c : ℕ) (run after : Text)
    → All (λ d. d ≢ b'|') (c ∷ run)
    → match_depositor (depositor_tag ++ ((c ∷ run) ++ (b'|' ∷ after))) ≡ some (c ∷ run)
unfolding match_depositor
match_depositor_front c run after h = ap closed_run (span_to_bar-append (c ∷ run) after h)

-- A text that holds the tag, a group that is not empty and has no bar, and a bar behind it, has a
-- match.
pub find_depositor-ne-none :
    (before group after : Text)
    → group ≢ []
    → All (λ c. c ≢ b'|') group
    → find_depositor (before ++ (depositor_tag ++ (group ++ (b'|' ∷ after)))) ≢ none
unfolding find_depositor
find_depositor-ne-none [] [] after ne h p = ne refl
find_depositor-ne-none [] (c ∷ run) after ne h p =
    cc (rw (match_depositor_front c run after h, find_depositor) at p)
find_depositor-ne-none (b ∷ before) group after ne h p =
    elim (Option-cases
      (match_depositor (b ∷ (before ++ (depositor_tag ++ (group ++ (b'|' ∷ after))))))) [
        | inl e ↦ find_depositor-ne-none before group after ne h (rw (e, find_depositor) at p)
        | inr (g, e) ↦ cc (rw (e, find_depositor) at p)
      ]
