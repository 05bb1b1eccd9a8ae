-- ===== src/StepId/Unique.antt =====
-- A composite step id determines the scopes and the name that it was made of (#1694 item 4): a
-- path of (name, index) pairs, a branch scope each and the step last, has an id of its own.
use mathlib.Core.List.{append_assoc, append-nil}
use ironflow_go.Prelude.{
  ℕ, ◌≡◌, refl, sym, ap, ◌∙◌, ◌≢◌, inl, inr, Option, none, some, Option-cases, List, [], ◌∷◌, ◌++◌,
  Text, codes, All, arith,
}
use ironflow_go.StepId.{
  colon, escape_step_id_part, step_id_part_escaper, cut_prefix, itoa, format_id, compensate_prefix,
  publish_prefix,
}
use ironflow_go.StepId.Decimal.{IsDigit, itoa_digits, itoa_injective}
use ironflow_go.StepId.Segments.{join, join_injective, escaper-digits}

-- A name as the escaping sees it: plain, or a namespace word, a colon and a leaf.
data Part : Type 0 where
  plain : Text → Part
  compensation : Text → Part
  publish : Text → Part

abbrev publish_part : Text → Option Text → Part
publish_part n none = plain n
publish_part n (some leaf) = publish leaf

abbrev some_part : Text → Option Text → Part
some_part n none = publish_part n (cut_prefix publish_prefix n)
some_part n (some leaf) = compensation leaf

classify : Text → Part
classify n = some_part n (cut_prefix compensate_prefix n)

abbrev part_name : Part → Text
part_name (plain n) = n
part_name (compensation leaf) = compensate_prefix ++ leaf
part_name (publish leaf) = publish_prefix ++ leaf

cut_prefix-append : (p s a : Text) → cut_prefix p s ≡ some a → s ≡ p ++ a
unfolding cut_prefix
cut_prefix-append [] s a h = ground arith
cut_prefix-append (p ∷ ps) [] a h = cc
cut_prefix-append (p ∷ ps) (c ∷ s) a h = ground (arith, cut_prefix-append ps s a)

part_name-classify : (n : Text) → part_name (classify n) ≡ n
unfolding classify
part_name-classify n = elim (Option-cases (cut_prefix compensate_prefix n)) [
  | inr (a, e) ↦ rw e (sym (cut_prefix-append compensate_prefix n a e))
  | inl no_compensate ↦ rw no_compensate (elim (Option-cases (cut_prefix publish_prefix n)) [
    | inr (a, e) ↦ rw e (sym (cut_prefix-append publish_prefix n a e))
    | inl no_publish ↦ rw no_publish
  ])
]

abbrev segments : Part → ℕ → List Text → List Text
segments (plain n) i rest = n ∷ itoa i ∷ rest
segments (compensation leaf) i rest = codes "compensate" ∷ leaf ∷ itoa i ∷ rest
segments (publish leaf) i rest = codes "publish" ∷ leaf ∷ itoa i ∷ rest

abbrev all_segments : List (Text × ℕ) → List Text
all_segments [] = []
all_segments ((n, i) ∷ path) = segments (classify n) i (all_segments path)

-- The id that a path has below the scope: `format_id` once for each pair.
abbrev pub path_id : Text → List (Text × ℕ) → Text
path_id scope [] = scope
path_id scope ((name, index) ∷ path) =
    path_id (format_id scope (escape_step_id_part name) index) path

append_cancel : (s t u : Text) → s ++ t ≡ s ++ u → t ≡ u
append_cancel [] t u h = h
append_cancel (x ∷ s) t u h = append_cancel s t u (cc)

abbrev escaped : Part → Text
escaped (plain n) = step_id_part_escaper n
escaped (compensation leaf) = compensate_prefix ++ step_id_part_escaper leaf
escaped (publish leaf) = publish_prefix ++ step_id_part_escaper leaf

escape_step_id_part-classify : (n : Text) → escape_step_id_part n ≡ escaped (classify n)
unfolding escape_step_id_part classify
escape_step_id_part-classify n = ground arith

escaped-segments :
    (scope r : Text) (p : Part) (i : ℕ) (rest : List Text)
    → r ≡ join rest
    → scope ++ (colon ∷ (escaped p ++ (colon ∷ (itoa i ++ r)))) ≡ scope ++ join (segments p i rest)
unfolding step_id_part_escaper
escaped-segments scope r (plain n) i rest h = rw (escaper-digits (itoa i) (itoa_digits i), h)
escaped-segments scope r (compensation leaf) i rest h =
    rw (escaper-digits (itoa i) (itoa_digits i), h)
escaped-segments scope r (publish leaf) i rest h = rw (escaper-digits (itoa i) (itoa_digits i), h)

path_id-join :
    (scope : Text) (path : List (Text × ℕ)) → path_id scope path ≡ scope ++ join (all_segments path)
path_id-join scope [] = sym (append-nil scope)
path_id-join scope ((n, i) ∷ path) =
    path_id-join (format_id scope (escape_step_id_part n) i) path
    ∙ (unfold format_id in
        simp (append_assoc, escape_step_id_part-classify n)
          (escaped-segments scope (join (all_segments path)) (classify n) i (all_segments path)
            refl))

-- A digit text is no namespace word.
words_not_digits : (n : ℕ) → (itoa n ≢ codes "compensate") × (itoa n ≢ codes "publish")
words_not_digits n = (
  λ e. (let d : All IsDigit (codes "compensate") = rw e at (itoa_digits n) in absurd (omega arith)),
  λ e. (let d : All IsDigit (codes "publish") = rw e at (itoa_digits n) in absurd (omega arith)),
)

-- The segments that follow a number in one reading cannot start with that number in the other.
numeric_head :
    (p : Part) (n i : ℕ) (ts us : List Text) → segments p i ts ≡ itoa n ∷ us → us ≡ itoa i ∷ ts
numeric_head (plain m) n i ts us h = cc
numeric_head (compensation leaf) n i ts us h = absurd ((words_not_digits n).0 (cc))
numeric_head (publish leaf) n i ts us h = absurd ((words_not_digits n).1 (cc))

segments_aligned : (p q : List (Text × ℕ)) (n : ℕ) → all_segments q ≢ itoa n ∷ all_segments p
segments_aligned p [] n h = cc
segments_aligned [] ((m, i) ∷ q) n h =
    let e = numeric_head (classify m) n i (all_segments q) [] h in cc
segments_aligned ((k, j) ∷ p) ((m, i) ∷ q) n h =
    let e = numeric_head (classify m) n i (all_segments q) (all_segments ((k, j) ∷ p)) h in
    let e' = numeric_head (classify k) i j (all_segments p) (all_segments q) e in
    segments_aligned p q j e'

segments_same :
    (a b : Part) (i j : ℕ) (p q : List (Text × ℕ))
    → segments a i (all_segments p) ≡ segments b j (all_segments q)
    → (a ≡ b) × (i ≡ j) × (all_segments p ≡ all_segments q)
segments_same (plain m) (plain n) i j p q h = (cc, itoa_injective i j (cc), cc)
segments_same (compensation m) (compensation n) i j p q h = (cc, itoa_injective i j (cc), cc)
segments_same (publish m) (publish n) i j p q h = (cc, itoa_injective i j (cc), cc)
segments_same (plain m) (compensation n) i j p q h = absurd (segments_aligned q p j (cc))
segments_same (plain m) (publish n) i j p q h = absurd (segments_aligned q p j (cc))
segments_same (compensation m) (plain n) i j p q h = absurd (segments_aligned p q i (cc))
segments_same (publish m) (plain n) i j p q h = absurd (segments_aligned p q i (cc))
segments_same (compensation m) (publish n) i j p q h = cc
segments_same (publish m) (compensation n) i j p q h = cc

segments-ne-nil : (p : Part) (i : ℕ) (rest : List Text) → segments p i rest ≢ []
segments-ne-nil (plain n) i rest h = cc
segments-ne-nil (compensation n) i rest h = cc
segments-ne-nil (publish n) i rest h = cc

all_segments_injective : (p q : List (Text × ℕ)) → all_segments p ≡ all_segments q → p ≡ q
all_segments_injective [] [] h = refl
all_segments_injective [] ((n, j) ∷ q) h =
    absurd (segments-ne-nil (classify n) j (all_segments q) (sym h))
all_segments_injective ((m, i) ∷ p) [] h =
    absurd (segments-ne-nil (classify m) i (all_segments p) h)
all_segments_injective ((m, i) ∷ p) ((n, j) ∷ q) h =
    let (e, same, rest) = segments_same (classify m) (classify n) i j p q h in
    let names : m ≡ n = sym (part_name-classify m) ∙ ap part_name e ∙ part_name-classify n in
    cc (names, same, all_segments_injective p q rest)

-- Two paths of scopes and names below one run, each name with the index that its counter gave it,
-- have the same composite id only if they are the same path: as long, with equal names and equal
-- indices, whatever colons, backslashes and namespace prefixes the names hold.
pub path_id_injective :
    (scope : Text) (p q : List (Text × ℕ)) → path_id scope p ≡ path_id scope q → p ≡ q
path_id_injective scope p q h = all_segments_injective p q (
    join_injective _ _
      (append_cancel scope _ _ (sym (path_id-join scope p) ∙ h ∙ path_id-join scope q)))
