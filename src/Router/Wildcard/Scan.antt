-- ===== src/Router/Wildcard/Scan.antt =====
-- The loop of `matches` accepts exactly the texts in which the literals stand in order.
use syrogo.Base.{
  ◌+◌, ◌≤◌, ◌≡◌, refl, sym, ap, ◌∙◌, ◌↔◌, ◌⊎◌, inl, inr, Bool, true, false, not, ◌&&◌, Bool-cases,
  Option-cases, none, some, List, [], ◌∷◌, ◌++◌, length, length-append, arith, append_assoc, nat_eq,
  leb, append-nil,
}
use syrogo.Router.Wildcard.Text.{
  has_suffix→split, has_suffix-append, index→split, index_leftmost, longer_rest, drop-append,
}
use syrogo.Router.Wildcard.{Bytes, WildcardPattern, has_suffix, index, match_from, is_last}

-- The literals stand in `v` in order without overlap; unless the pattern ends in a star, the
-- last one stands at the end.
abbrev pub InOrder : Bool → List Bytes → Bytes → Type 0
InOrder open_end [] v = (open_end ≡ true) ⊎ (v ≡ [])
InOrder open_end (l ∷ ls) v =
    (a : Bytes) × (b : Bytes) × (v ≡ a ++ (l ++ b)) × InOrder open_end ls b

-- The rest may grow in front, where it need not be empty.
pub InOrder-grow :
    (t : Bool) (ls : List Bytes) (x b : Bytes)
    → (is_last ls && not t) ≡ false
    → InOrder t ls b
    → InOrder t ls (x ++ b)
InOrder-grow t [] x b h o = inl (ground arith)
InOrder-grow t (l ∷ ls) x b h (a, c, e, o) =
    (x ++ a, c, ap (◌++◌ x) e ∙ sym (append_assoc x a (l ++ c)), o)

module _ (p : WildcardPattern) where
  -- One round, past an occurrence that the search finds.
  match_from_found :
      (l : Bytes) (ls : List Bytes) (front a b : Bytes)
      → (is_last ls && not p.trailing_star) ≡ false
      → index (a ++ (l ++ b)) l ≡ some (length a)
      → match_from false p (front ++ (a ++ (l ++ b))) (length front) (l ∷ ls)
        ≡ match_from false p ((front ++ (a ++ l)) ++ b) (length (front ++ (a ++ l))) ls
  unfolding match_from
  match_from_found l ls front a b mid found =
      let e1 : front ++ (a ++ (l ++ b)) ≡ (front ++ (a ++ l)) ++ b = simp append_assoc in
      let e2 : length front + (length a + length l) ≡ length (front ++ (a ++ l)) =
        omega (arith, length-append front (a ++ l), length-append a l) in
      rw (mid, match_from)
        (rw (drop-append front (a ++ (l ++ b)), match_from)
          (rw (found, match_from) (rw (← e1, ← e2) refl)))

  -- The last literal of a pattern that does not end in a star.
  match_from_last :
      (l front rest : Bytes)
      → p.trailing_star ≡ false
      → match_from false p (front ++ rest) (length front) (l ∷ [])
        ≡ (leb (length front + length l) (length (front ++ rest)) && has_suffix (front ++ rest) l)
  unfolding match_from
  match_from_last l front rest closed = rw (closed, match_from) refl

  last→InOrder :
      (l front rest : Bytes)
      → (leb (length front + length l) (length (front ++ rest)) && has_suffix (front ++ rest) l)
        ≡ true
      → InOrder false (l ∷ []) rest
  last→InOrder l front rest h =
      let (a, e) = has_suffix→split (front ++ rest) l (ground arith) in
      let fits : leb (length front + length l) (length (front ++ rest)) ≡ true = ground arith in
      let len : length (front ++ rest) ≡ length a + length l = ap length e ∙ length-append a l in
      let (x, e') = longer_rest front rest a l e (ground (arith, fits, len)) in
      (x, [], e' ∙ ap (◌++◌ x) (sym (append-nil l)), inr refl)

  InOrder→last :
      (l front rest : Bytes)
      → InOrder false (l ∷ []) rest
      → (leb (length front + length l) (length (front ++ rest)) && has_suffix (front ++ rest) l)
        ≡ true
  InOrder→last l front rest (a, b, e, inl o) = cc
  InOrder→last l front rest (a, b, e, inr o) =
      let e' : front ++ rest ≡ (front ++ a) ++ l =
        rw (e, o) (rw (append-nil l) (sym (append_assoc front a l))) in
      let s : has_suffix (front ++ rest) l ≡ true = rw e' (has_suffix-append (front ++ a) l) in
      let len : length (front ++ rest) ≡ length front + length a + length l =
        ap length e'
        ∙ length-append (front ++ a) l
        ∙ ap (λ n. n + length l) (length-append front a) in
      ground arith

  match_from_missing :
      (l : Bytes) (ls : List Bytes) (front rest : Bytes)
      → (is_last ls && not p.trailing_star) ≡ false
      → index rest l ≡ none
      → match_from false p (front ++ rest) (length front) (l ∷ ls) ≡ false
  unfolding match_from
  match_from_missing l ls front rest mid missing =
      rw (mid, match_from) (rw (drop-append front rest, match_from) (rw (missing, match_from) refl))

  match_from_end :
      (front rest : Bytes)
      → (match_from false p (front ++ rest) (length front) [] ≡ true)
        ↔ InOrder p.trailing_star [] rest
  unfolding match_from
  match_from_end front [] = ground (arith, append-nil front)
  match_from_end front (c ∷ rest) = ground (arith, length-append front (c ∷ rest))

  match_from_last_iff :
      (l : Bytes) (ls : List Bytes) (front rest : Bytes)
      → (is_last ls && not p.trailing_star) ≡ true
      → (match_from false p (front ++ rest) (length front) (l ∷ ls) ≡ true)
        ↔ InOrder p.trailing_star (l ∷ ls) rest
  match_from_last_iff l (x ∷ ls) front rest last = cc
  match_from_last_iff l [] front rest last =
      let closed : p.trailing_star ≡ false = ground arith in
      rw (match_from_last l front rest closed, closed)
        (last→InOrder l front rest, InOrder→last l front rest)

  match_from→InOrder :
      (ls : List Bytes) (front rest : Bytes)
      → match_from false p (front ++ rest) (length front) ls ≡ true
      → InOrder p.trailing_star ls rest
  match_from→InOrder [] front rest h = (match_from_end front rest).0 h
  match_from→InOrder (l ∷ ls) front rest h = elim (Bool-cases (is_last ls && not p.trailing_star)) [
    | inl last ↦ (match_from_last_iff l ls front rest last).0 h
    | inr mid ↦ elim (Option-cases (index rest l)) [
      | inl e ↦ cc (match_from_missing l ls front rest mid e)
      | inr (i, e) ↦
          let (a, b, s, n) = index→split rest l i e in
          let found : index (a ++ (l ++ b)) l ≡ some (length a) = rw (← s, n) e in
          (
            a,
            b,
            s,
            match_from→InOrder ls (front ++ (a ++ l)) b
                (sym (match_from_found l ls front a b mid found) ∙ (rw s at h)),
          )
    ]
  ]

  InOrder→match_from :
      (ls : List Bytes) (front rest : Bytes)
      → InOrder p.trailing_star ls rest
      → match_from false p (front ++ rest) (length front) ls ≡ true
  InOrder→match_from [] front rest o = (match_from_end front rest).1 o
  InOrder→match_from (l ∷ ls) front rest (a, b, e, o) =
      elim (Bool-cases (is_last ls && not p.trailing_star)) [
        | inl last ↦ (match_from_last_iff l ls front rest last).1 (a, b, e, o)
        | inr mid ↦
            let (i, k, le) = index_leftmost a b l in
            let (a', b', e', n) = index→split (a ++ (l ++ b)) l i k in
            let found : index (a' ++ (l ++ b')) l ≡ some (length a') = rw (← e', n) k in
            let split : (a' ++ l) ++ b' ≡ (a ++ l) ++ b =
              append_assoc a' l b' ∙ sym e' ∙ sym (append_assoc a l b) in
            let shorter : length (a' ++ l) ≤ length (a ++ l) =
              omega (arith, length-append a' l, length-append a l) in
            let (x, g) = longer_rest (a' ++ l) b' (a ++ l) b split shorter in
            let grown : InOrder p.trailing_star ls b' =
              rw g (InOrder-grow p.trailing_star ls x b mid o) in
            rw (e, e')
              (match_from_found l ls front a' b' mid found
                ∙ InOrder→match_from ls (front ++ (a' ++ l)) b' grown)
      ]

  -- From any position the loop accepts exactly the rests in which the literals stand in order.
  pub match_from_iff :
      (ls : List Bytes) (front rest : Bytes)
      → (match_from false p (front ++ rest) (length front) ls ≡ true)
        ↔ InOrder p.trailing_star ls rest
  match_from_iff ls front rest =
      (match_from→InOrder ls front rest, InOrder→match_from ls front rest)
