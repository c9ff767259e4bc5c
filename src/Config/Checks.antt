-- ===== src/Config/Checks.antt =====
-- The results of checks, and the functions of Go's `strings` that they use.
use syrogo.Base.{
  ℕ, String, ◌≡◌, refl, Bool, true, false, ◌&&◌, ◌||◌, List, [], ◌∷◌, if◌then◌else◌, ◌==◌, nat_eq,
  ltb, leb,
}
use syrogo.Runtime.{codes}

-- A format of `fmt.Errorf`, with the arguments that follow it one by one.
pub data Message : Type 0 where
  plain : String → Message
  with_text : Message → String → Message
  with_number : Message → ℕ → Message
  with_part : Message → Message → Message

pub data Validity : Type 0 where
  valid : Validity
  invalid : Message → Validity

-- `if err := a; err != nil { return err }`, and then `b`.
infixl 5 ◌>>◌
abbrev pub ◌>>◌ : Validity → Validity → Validity
valid >> v = v
invalid m >> v = invalid m

-- `if bad { return fmt.Errorf(…) }`.
abbrev pub refuse : Bool → Message → Validity
refuse true m = invalid m
refuse false m = valid

abbrev pub unless : Bool → Validity → Validity
unless true v = valid
unless false v = v

-- Unicode's white space, which `strings.TrimSpace` takes off.
unfoldable pub is_space : ℕ → Bool
is_space c =
    (leb 9 c && leb c 13)
    || c == 0x20
    || c == 0x85
    || c == 0xA0
    || c == 0x1680
    || (leb 0x2000 c && leb c 0x200A)
    || c == 0x2028
    || c == 0x2029
    || c == 0x202F
    || c == 0x205F
    || c == 0x3000

unfoldable pub trim_left : List ℕ → List ℕ
unfolding is_space
trim_left [] = []
trim_left (c ∷ s) = if is_space c then trim_left s else c ∷ s

abbrev pub is_blank : List ℕ → Bool
is_blank [] = true
is_blank (c ∷ s) = false

unfoldable pub trim_right : List ℕ → List ℕ
unfolding is_space
trim_right [] = []
trim_right (c ∷ s) = let rest = trim_right s in if is_space c && is_blank rest then [] else c ∷ rest

unfoldable pub trim_space : String → List ℕ
unfolding trim_left trim_right
trim_space s = trim_right (trim_left (codes s))

abbrev pub same_codes : List ℕ → List ℕ → Bool
same_codes [] [] = true
same_codes [] (d ∷ t) = false
same_codes (c ∷ s) [] = false
same_codes (c ∷ s) (d ∷ t) = c == d && same_codes s t

-- `strings.TrimSpace(s) == s`.
unfoldable pub is_trimmed : String → Bool
unfolding trim_space
is_trimmed s = same_codes (trim_space s) (codes s)

abbrev pub any_code : (ℕ → Bool) → List ℕ → Bool
any_code p [] = false
any_code p (c ∷ s) = p c || any_code p s

-- `strings.IndexFunc(s, unicode.IsControl) >= 0`.
unfoldable pub has_control : String → Bool
has_control s = any_code (λ c. ltb c 0x20 || (leb 0x7F c && ltb c 0xA0)) (codes s)

-- A chain of checks passes where each of them does.
pub >>-valid : (a b : Validity) → (a >> b) ≡ valid → (a ≡ valid) × (b ≡ valid)
>>-valid valid b h = (refl, h)
>>-valid (invalid m) b h = cc (h)

pub refuse-valid : (bad : Bool) (m : Message) → refuse bad m ≡ valid → bad ≡ false
refuse-valid true m h = cc (h)
refuse-valid false m h = refl
