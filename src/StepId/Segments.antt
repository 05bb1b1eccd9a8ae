-- ===== src/StepId/Segments.antt =====
-- A text cut at its unescaped colons: how a list of segments is joined, and that no two lists join
-- to the same text.
use ironflow_go.Prelude.{◌≡◌, refl, List, [], ◌∷◌, ◌++◌, Text, All, arith}
use ironflow_go.StepId.{colon, step_id_part_escaper}
use ironflow_go.StepId.Decimal.{IsDigit}

-- What may stand behind a segment: nothing, or a colon.
abbrev pub Ends : Text → Type 0
Ends [] = Unit {0}
Ends (c ∷ s) = c ≡ colon

-- The escaped text of a segment can be read off the front of what it is joined to.
pub escaper_cancel :
    (a b r s : Text)
    → Ends r
    → Ends s
    → step_id_part_escaper a ++ r ≡ step_id_part_escaper b ++ s
    → (a ≡ b) × (r ≡ s)
unfolding step_id_part_escaper
escaper_cancel [] [] r s er es h = (refl, h)
escaper_cancel [] (y ∷ b) [] s er es h = ground arith
escaper_cancel [] (y ∷ b) (c ∷ r) s er es h = ground arith
escaper_cancel (x ∷ a) [] r [] er es h = ground arith
escaper_cancel (x ∷ a) [] r (c ∷ s) er es h = ground arith
escaper_cancel (x ∷ a) (y ∷ b) r s er es h = ground (arith, escaper_cancel a b r s er es)

abbrev pub join : List Text → Text
join [] = []
join (t ∷ ts) = colon ∷ (step_id_part_escaper t ++ join ts)

Ends-join : (ts : List Text) → Ends (join ts)
Ends-join [] = tt
Ends-join (t ∷ ts) = refl

pub join_injective : (ts us : List Text) → join ts ≡ join us → ts ≡ us
join_injective [] [] h = refl
join_injective [] (u ∷ us) h = cc
join_injective (t ∷ ts) [] h = cc
join_injective (t ∷ ts) (u ∷ us) h =
    let tail : step_id_part_escaper t ++ join ts ≡ step_id_part_escaper u ++ join us =
      ground arith in
    let both = escaper_cancel t u (join ts) (join us) (Ends-join ts) (Ends-join us) tail in
    let rest = join_injective ts us both.1 in cc (both.0, rest)

-- Digits are escaped to themselves.
pub escaper-digits : (s : Text) → All IsDigit s → step_id_part_escaper s ≡ s
unfolding step_id_part_escaper
escaper-digits [] h = refl
escaper-digits (c ∷ s) h = ground (arith, escaper-digits s h.1)
