-- ===== src/Router/Wildcard.antt =====
-- internal/router/router.go: model patterns in which `*` stands for any text. A text is the list
-- of its code points: prefixes, suffixes and leftmost occurrences are those of its UTF-8 bytes.
pub mod Text
pub mod Scan
pub mod Glob
use syrogo.Base.{
  ℕ, suc, ◌+◌, Bool, true, false, not, ◌&&◌, ◌||◌, Option, none, some, List, [], ◌∷◌, length, drop,
  keep_if, map, if◌then◌else◌, leb, ◌==◌, nat_eq,
}

abbrev pub Bytes : Type 0
Bytes = List ℕ

abbrev pub star : ℕ
star = b'*'

pub record WildcardPattern : Type 0 where
  pub literals : List Bytes
  pub leading_star : Bool
  pub trailing_star : Bool

unfoldable pub bytes_eq : Bytes → Bytes → Bool
bytes_eq [] [] = true
bytes_eq (x ∷ xs) (y ∷ ys) = x == y && bytes_eq xs ys
bytes_eq _ _ = false

-- `strings.HasPrefix(s, prefix)`.
unfoldable pub has_prefix : Bytes → Bytes → Bool
has_prefix s [] = true
has_prefix [] (p ∷ ps) = false
has_prefix (c ∷ s) (p ∷ ps) = c == p && has_prefix s ps

-- `strings.HasSuffix(s, suffix)`.
unfoldable pub has_suffix : Bytes → Bytes → Bool
unfolding bytes_eq
has_suffix [] suffix = bytes_eq [] suffix
has_suffix (c ∷ s) suffix = bytes_eq (c ∷ s) suffix || has_suffix s suffix

abbrev shifted : Option ℕ → Option ℕ
shifted none = none
shifted (some i) = some (suc i)

-- `strings.Index(s, sep)`, where `none` is -1.
unfoldable pub index : Bytes → Bytes → Option ℕ
unfolding has_prefix
index [] sep = if has_prefix [] sep then some 0 else none
index (c ∷ s) sep = if has_prefix (c ∷ s) sep then some 0 else shifted (index s sep)

abbrev pub cons_head : ℕ → List Bytes → List Bytes
cons_head c [] = (c ∷ []) ∷ []
cons_head c (part ∷ parts) = (c ∷ part) ∷ parts

-- `strings.Split(pattern, "*")`: the parts between the stars, one more than there are stars.
unfoldable pub split : Bytes → List Bytes
split [] = [] ∷ []
split (c ∷ cs) = if c == star then [] ∷ split cs else cons_head c (split cs)

abbrev pub is_part : Bytes → Bool
is_part [] = false
is_part (c ∷ cs) = true

-- The body of the loop of `compileModelPatterns`.
unfoldable pub compile_pattern : Bytes → WildcardPattern
unfolding split has_prefix has_suffix
compile_pattern pattern = record {
  literals = keep_if is_part (split pattern);
  leading_star = has_prefix pattern (star ∷ []);
  trailing_star = has_suffix pattern (star ∷ []);
}

abbrev pub is_last : List Bytes → Bool
is_last [] = true
is_last (l ∷ ls) = false

-- The loop of `matches`; the first flag is `i == 0`.
unfoldable pub match_from : Bool → WildcardPattern → Bytes → ℕ → List Bytes → Bool
unfolding has_prefix has_suffix index
match_from first p value position [] = p.trailing_star || position == length value
match_from first p value position (literal ∷ rest) = elim (first && not p.leading_star) [
  | true ↦ elim (has_prefix value literal) [
    | true ↦ match_from false p value (length literal) rest
    | false ↦ false
  ]
  | false ↦ elim (is_last rest && not p.trailing_star) [
    | true ↦ leb (position + length literal) (length value) && has_suffix value literal
    | false ↦ elim (index (drop position value) literal) [
      | none ↦ false
      | some i ↦ match_from false p value (position + (i + length literal)) rest
    ]
  ]
]

unfoldable pub match_literals : WildcardPattern → Bytes → List Bytes → Bool
unfolding match_from
match_literals p value [] = true
match_literals p value (literal ∷ rest) = match_from true p value 0 (literal ∷ rest)

unfoldable pub matches : WildcardPattern → Bytes → Bool
unfolding match_literals
matches p value = match_literals p value p.literals

unfoldable pub compile_model_patterns : Option (List Bytes) → List WildcardPattern
unfolding compile_pattern
compile_model_patterns none = []
compile_model_patterns (some models) = map compile_pattern models
