-- ===== src/Router/Wildcard/Glob.antt =====
-- A compiled pattern matches exactly the texts that the pattern describes.
use syrogo.Base.{
  ℕ, ◌≡◌, ◌≢◌, refl, sym, ap, subst, ◌∙◌, ◌↔◌, inl, inr, Bool, true, false, not, ◌&&◌, Bool-cases,
  List, [], ◌∷◌, ◌++◌, length, keep_if, arith, ◌==◌, nat_eq, append-nil,
}
use syrogo.Router.Wildcard.Text.{has_prefix→split, has_prefix-append}
use syrogo.Router.Wildcard.Scan.{InOrder, InOrder-grow, match_from_iff}
use syrogo.Router.Wildcard.{
  Bytes, star, WildcardPattern, bytes_eq, has_prefix, has_suffix, split, is_part, compile_pattern,
  match_from, match_literals, matches, is_last,
}

-- A star takes any text, and any other character itself.
pub data Glob : Bytes → Bytes → Type 0 where
  done : {w : Bytes} → w ≡ [] → Glob [] w
  literal : {c : ℕ} {p v w : Bytes} → c ≢ star → w ≡ c ∷ v → Glob p v → Glob (c ∷ p) w
  any : {c : ℕ} {p v w : Bytes} (a : Bytes) → c ≡ star → w ≡ a ++ v → Glob p v → Glob (c ∷ p) w

-- The same over the parts between the stars.
abbrev OverParts : List Bytes → Bytes → Type 0
OverParts [] v = ⊥
OverParts (q ∷ qs) v = (r : Bytes) × (v ≡ q ++ r) × InOrder false qs r

split-cons : (p : Bytes) → (q : Bytes) × (qs : List Bytes) × (split p ≡ q ∷ qs)
unfolding split
split-cons [] = ([], [], refl)
split-cons (c ∷ cs) =
    let (q, qs, e) = split-cons cs in
    elim (Bool-cases (c == star)) [
      | inl h ↦ ([], split cs, rw h refl)
      | inr h ↦ (c ∷ q, qs, rw (h, e) refl)
    ]

split-nil : split [] ≡ [] ∷ []
unfolding split
split-nil = refl

star-parts :
    (c : ℕ) (cs q : Bytes) (qs : List Bytes)
    → split cs ≡ q ∷ qs
    → (c == star) ≡ true
    → split (c ∷ cs) ≡ [] ∷ q ∷ qs
unfolding split
star-parts c cs q qs e h = rw (h, e) refl

char-parts :
    (c : ℕ) (cs q : Bytes) (qs : List Bytes)
    → split cs ≡ q ∷ qs
    → (c == star) ≡ false
    → split (c ∷ cs) ≡ (c ∷ q) ∷ qs
unfolding split
char-parts c cs q qs e h = rw (h, e) refl

Glob→OverParts : {p v : Bytes} → Glob p v → OverParts (split p) v
Glob→OverParts (done e) = rw split-nil ([], e, inr refl)
Glob→OverParts (literal {c} {p} {v} {w} n e g) =
    let (q, qs, s) = split-cons p in
    let (r, f, o) = (rw s at (Glob→OverParts g)) in
    rw (char-parts c p q qs s (ground arith)) (r, e ∙ ap (◌∷◌ c) f, o)
Glob→OverParts (any {c} {p} {v} {w} a n e g) =
    let (q, qs, s) = split-cons p in
    let (r, f, o) = (rw s at (Glob→OverParts g)) in
    rw (star-parts c p q qs s (ground arith)) (w, refl, (a, r, e ∙ ap (◌++◌ a) f, o))

closed-end : (r : Bytes) → InOrder false [] r → r ≡ []
closed-end r (inl o) = cc
closed-end r (inr o) = o

OverParts→Glob : (p v : Bytes) → OverParts (split p) v → Glob p v
OverParts→Glob [] v g = let (r, e, o) = (rw split-nil at g) in done (e ∙ closed-end r o)
OverParts→Glob (c ∷ p) v g = elim (Bool-cases (c == star)) [
  | inl h ↦
      let (q, qs, s) = split-cons p in
      let (r, e, rest) = (rw (star-parts c p q qs s h) at g) in
      let (a, b, f, o) = rest in
      any a (ground arith) (e ∙ f) (OverParts→Glob p (q ++ b) (rw s (b, refl, o)))
  | inr h ↦
      let (q, qs, s) = split-cons p in
      let (r, e, o) = (rw (char-parts c p q qs s h) at g) in
      literal (ground arith) e (OverParts→Glob p (q ++ r) (rw s (r, refl, o)))
]

-- Whether the last part is empty, so that the pattern ends in a star.
abbrev ends_empty : List Bytes → Bool
ends_empty [] = false
ends_empty (q ∷ []) = not (is_part q)
ends_empty (q ∷ r ∷ qs) = ends_empty (r ∷ qs)

-- Only the last literal of a closed pattern is held to the end.
keep_if-open :
    (q : Bytes) (qs : List Bytes)
    → (is_last (keep_if is_part (q ∷ qs)) && not (ends_empty (q ∷ qs))) ≡ false
keep_if-open [] [] = refl
keep_if-open (c ∷ q) [] = refl
keep_if-open [] (r ∷ qs) = keep_if-open r qs
keep_if-open (c ∷ q) (r ∷ qs) = refl

-- The empty parts may be left out.
InOrder-keep_if :
    (ps : List Bytes) (r : Bytes)
    → InOrder false ps r ↔ InOrder (ends_empty ps) (keep_if is_part ps) r
InOrder-keep_if [] r = ((λ o. o), (λ o. o))
InOrder-keep_if ([] ∷ []) r = ((λ o. inl refl), (λ o. (r, [], sym (append-nil r), inr refl)))
InOrder-keep_if ((c ∷ q) ∷ []) r = ((λ o. o), (λ o. o))
InOrder-keep_if ([] ∷ p ∷ ps) r = (
  λ o.
      let (a, b, e, o') = o in
      rw e (InOrder-grow _ _ a b (keep_if-open p ps) ((InOrder-keep_if (p ∷ ps) b).0 o')),
  λ o. ([], r, refl, (InOrder-keep_if (p ∷ ps) r).1 o),
)
InOrder-keep_if ((c ∷ q) ∷ p ∷ ps) r = (
  λ o. let (a, b, e, o') = o in (a, b, e, (InOrder-keep_if (p ∷ ps) b).0 o'),
  λ o. let (a, b, e, o') = o in (a, b, e, (InOrder-keep_if (p ∷ ps) b).1 o'),
)

split-ne-empty : (c : ℕ) (cs : Bytes) → split (c ∷ cs) ≢ [] ∷ []
unfolding split
split-ne-empty c cs e = let (q, qs, s) = split-cons cs in ground (arith, s)

ends_empty-cons :
    (c : ℕ) (q : Bytes) (qs : List Bytes)
    → q ∷ qs ≢ [] ∷ []
    → ends_empty ((c ∷ q) ∷ qs) ≡ ends_empty (q ∷ qs)
ends_empty-cons c [] [] n = absurd (n refl)
ends_empty-cons c (x ∷ q) [] n = refl
ends_empty-cons c q (r ∷ qs) n = refl

has_suffix-star :
    (c d : ℕ) (cs : Bytes) → has_suffix (c ∷ d ∷ cs) (star ∷ []) ≡ has_suffix (d ∷ cs) (star ∷ [])
unfolding has_suffix bytes_eq
has_suffix-star c d cs = ground arith

-- A non-empty pattern has a trailing star exactly when its last part is empty.
trailing-ends_empty :
    (c : ℕ) (cs : Bytes) → has_suffix (c ∷ cs) (star ∷ []) ≡ ends_empty (split (c ∷ cs))
trailing-ends_empty c [] = unfold has_suffix bytes_eq split in ground arith
trailing-ends_empty c (d ∷ cs) =
    let (q, qs, s) = split-cons (d ∷ cs) in
    let ih : has_suffix (d ∷ cs) (star ∷ []) ≡ ends_empty (q ∷ qs) =
      trailing-ends_empty d cs ∙ ap ends_empty s in
    has_suffix-star c d cs ∙ elim (Bool-cases (c == star)) [
      | inl h ↦ rw (star-parts c (d ∷ cs) q qs s h) ih
      | inr h ↦
          rw (char-parts c (d ∷ cs) q qs s h)
            (ih ∙ sym (ends_empty-cons c q qs (λ e. split-ne-empty d cs (s ∙ e))))
    ]

module _ (p : WildcardPattern) (v : Bytes) where
  -- Behind a leading star the first literal is searched for like every other.
  match_literals-leading :
      (ls : List Bytes)
      → p.leading_star ≡ true
      → (is_last ls && not p.trailing_star) ≡ false
      → (match_literals p v ls ≡ true) ↔ InOrder p.trailing_star ls v
  unfolding match_literals
  match_literals-leading [] lead mid = ((λ e. inl (ground arith)), (λ o. refl))
  match_literals-leading (l ∷ ls) lead mid =
      let same : match_from true p v 0 (l ∷ ls) ≡ match_from false p v 0 (l ∷ ls) =
        unfold match_from in rw (lead, match_from) refl in
      rw same (match_from_iff p (l ∷ ls) [] v)

  match_front_prefix :
      (l : Bytes) (ls : List Bytes)
      → p.leading_star ≡ false
      → has_prefix v l ≡ true
      → match_from true p v 0 (l ∷ ls) ≡ match_from false p v (length l) ls
  unfolding match_from
  match_front_prefix l ls lead h = ground arith

  match_front_other :
      (l : Bytes) (ls : List Bytes)
      → p.leading_star ≡ false
      → has_prefix v l ≡ false
      → match_from true p v 0 (l ∷ ls) ≡ false
  unfolding match_from
  match_front_other l ls lead h = rw (lead, match_from) (rw (h, match_from) refl)

  -- Without one it stands in front.
  match_literals-front :
      (l : Bytes) (ls : List Bytes)
      → p.leading_star ≡ false
      → (match_literals p v (l ∷ ls) ≡ true)
        ↔ ((r : Bytes) × (v ≡ l ++ r) × InOrder p.trailing_star ls r)
  unfolding match_literals
  match_literals-front l ls lead = (
    λ e. elim (Bool-cases (has_prefix v l)) [
      | inl h ↦
          let (r, f) = has_prefix→split v l h in
          let e' : match_from false p (l ++ r) (length l) ls ≡ true =
            rw f at (sym (match_front_prefix l ls lead h) ∙ e) in
          (r, f, (match_from_iff p ls l r).0 e')
      | inr h ↦ cc (match_front_other l ls lead h)
    ],
    λ g.
        let (r, f, o) = g in
        let h : has_prefix v l ≡ true = rw f (has_prefix-append l r) in
        match_front_prefix l ls lead h ∙ (rw f ((match_from_iff p ls l r).1 o)),
  )

module _ (p : WildcardPattern) (v : Bytes) (q : Bytes) (qs : List Bytes) where
  star-matches :
      p.leading_star ≡ true
      → p.trailing_star ≡ ends_empty (q ∷ qs)
      → OverParts ([] ∷ q ∷ qs) v ↔ (match_literals p v (keep_if is_part (q ∷ qs)) ≡ true)
  star-matches lead trail =
      let ls : List Bytes = keep_if is_part (q ∷ qs) in
      let mid : (is_last ls && not p.trailing_star) ≡ false = rw trail (keep_if-open q qs) in
      let loop = match_literals-leading p v ls lead mid in
      let keep = InOrder-keep_if (q ∷ qs) v in
      (
        λ g.
            let (r, e, o) = g in loop.1 (subst (λ b. InOrder b ls v) (sym trail) (keep.0 (rw e o))),
        λ m. (v, refl, keep.1 (subst (λ b. InOrder b ls v) trail (loop.0 m))),
      )

  char-matches :
      (c : ℕ)
      → p.leading_star ≡ false
      → p.trailing_star ≡ ends_empty qs
      → OverParts ((c ∷ q) ∷ qs) v ↔ (match_literals p v ((c ∷ q) ∷ keep_if is_part qs) ≡ true)
  char-matches c lead trail =
      let ls : List Bytes = keep_if is_part qs in
      let loop = match_literals-front p v (c ∷ q) ls lead in
      (
        λ g.
            let (r, e, o) = g in
            loop.1 (r, e, subst (λ b. InOrder b ls r) (sym trail) ((InOrder-keep_if qs r).0 o)),
        λ m.
            let (r, e, o) = loop.0 m in
            (r, e, (InOrder-keep_if qs r).1 (subst (λ b. InOrder b ls r) trail o)),
      )

ends_empty-front : (c : ℕ) (q : Bytes) (qs : List Bytes) → ends_empty ((c ∷ q) ∷ qs) ≡ ends_empty qs
ends_empty-front c q [] = refl
ends_empty-front c q (r ∷ qs) = refl

compile_leading : (c : ℕ) (cs : Bytes) → (compile_pattern (c ∷ cs)).leading_star ≡ (c == star)
unfolding compile_pattern has_prefix
compile_leading c cs = ground arith

compile_trailing :
    (c : ℕ) (cs : Bytes) → (compile_pattern (c ∷ cs)).trailing_star ≡ ends_empty (split (c ∷ cs))
unfolding compile_pattern
compile_trailing c cs = trailing-ends_empty c cs

matches-match_literals :
    (pattern v : Bytes)
    → matches (compile_pattern pattern) v
      ≡ match_literals (compile_pattern pattern) v (keep_if is_part (split pattern))
unfolding matches compile_pattern
matches-match_literals pattern v = refl

OverParts-matches :
    (c : ℕ) (cs v : Bytes)
    → OverParts (split (c ∷ cs)) v ↔ (matches (compile_pattern (c ∷ cs)) v ≡ true)
OverParts-matches c cs v =
    let (q, qs, s) = split-cons cs in
    elim (Bool-cases (c == star)) [
      | inl h ↦
          let parts = star-parts c cs q qs s h in
          rw (matches-match_literals (c ∷ cs) v, parts)
            (star-matches (compile_pattern (c ∷ cs)) v q qs (compile_leading c cs ∙ h)
              (compile_trailing c cs ∙ ap ends_empty parts))
      | inr h ↦
          let parts = char-parts c cs q qs s h in
          rw (matches-match_literals (c ∷ cs) v, parts)
            (char-matches (compile_pattern (c ∷ cs)) v q qs c (compile_leading c cs ∙ h)
              (compile_trailing c cs ∙ ap ends_empty parts ∙ ends_empty-front c q qs))
    ]

-- A model matches a pattern that is not empty exactly when each star of the pattern can be
-- replaced by a text, the empty one included, so that the pattern becomes the model.
pub matches_iff :
    (pattern model : Bytes)
    → pattern ≢ []
    → (matches (compile_pattern pattern) model ≡ true) ↔ Glob pattern model
matches_iff [] model n = absurd (n refl)
matches_iff (c ∷ cs) model n =
    let m = OverParts-matches c cs model in
    (λ e. OverParts→Glob (c ∷ cs) model (m.1 e), λ g. m.0 (Glob→OverParts g))
