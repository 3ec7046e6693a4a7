-- ===== src/Domain/Rules/CompletionTypes.antt =====
-- ValidateCompletionType on the comma-separated lists that plan items carry.
use Prim.Native.Char.{Char, code}
use fast_task.Base.{
  String, true, List, [], ◌∷◌, ◌≡◌, ◌↔◌, refl, ap, arith, str_eq, eq_iff, any, In, All, map, ◌≢◌,
  ◌∙◌, trim_space, split,
}
use fast_task.Domain.Rules.{validate_completion_type}

abbrev comma : Char
comma = ","

-- A text in which no character is a comma.
abbrev pub Plain : String → Type 0
Plain String.[] = Unit
Plain (String.◌∷◌ c s) = (code c ≢ b',') × Plain s

-- `s`, then `rest`.
unfoldable pub glue : String → String → String
glue String.[] rest = rest
glue (String.◌∷◌ c s) rest = String.◌∷◌ c (glue s rest)

-- The entries with commas between them; `x` is the first.
unfoldable pub join : String → List String → String
unfolding glue
join x [] = x
join x (y ∷ ys) = glue x (String.◌∷◌ comma (join y ys))

split-Plain : (s : String) → Plain s → split b',' s ≡ s ∷ []
unfolding split
split-Plain String.[] h = refl
split-Plain (String.◌∷◌ c s) h = ground (arith, h.0, split-Plain s h.1)

split-glue :
    (s rest : String) → Plain s → split b',' (glue s (String.◌∷◌ comma rest)) ≡ s ∷ split b',' rest
unfolding split glue
split-glue String.[] rest h = refl
split-glue (String.◌∷◌ c s) rest h = ground (arith, h.0, split-glue s rest h.1)

split-join :
    (x : String) (xs : List String) → Plain x → All Plain xs → split b',' (join x xs) ≡ x ∷ xs
unfolding join
split-join x [] h k = split-Plain x h
split-join x (y ∷ ys) h k = split-glue x (join y ys) h ∙ ap (λ l. x ∷ l) (split-join y ys k.0 k.1)

any-trimmed :
    (value : String) (xs : List String)
    → (any (λ allowed. str_eq (trim_space allowed) value) xs ≡ true) ↔ In value (map trim_space xs)
any-trimmed value [] = ((λ h. cc), λ m. absurd m)
any-trimmed value (x ∷ xs) =
    let ih = any-trimmed value xs in
    (
      λ h. ground (arith, h, eq_iff (trim_space x) value, ih),
      λ m. ground (arith, m, eq_iff (trim_space x) value, ih),
    )

-- Against a list of entries without commas, joined by commas, a completion type is valid exactly when
-- it is one of the entries with the spaces at its ends removed.
pub validate_completion_type-join :
    (value x : String) (xs : List String)
    → Plain x
    → All Plain xs
    → (validate_completion_type value (join x xs) ≡ true) ↔ In value (map trim_space (x ∷ xs))
unfolding validate_completion_type
validate_completion_type-join value x xs h k = rw (split-join x xs h k) (any-trimmed value (x ∷ xs))
