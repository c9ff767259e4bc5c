-- ===== src/Config/Resources/Move.antt =====
-- A move of a rule, and the move back.
use syrogo.Base.{
  ℕ, suc, ◌+◌, ◌-◌, ◌<◌, ◌≡◌, ◌≢◌, refl, sym, ap, ◌∙◌, true, false, List, [], ◌∷◌, ◌++◌,
  append_assoc, append-nil, arith, if◌then◌else◌, ◌==◌, nat_eq, ltb, length, take, drop, drop-drop,
  drop-past, take-past, length-append,
}
use syrogo.Base.Int.{pos}
use syrogo.Router.Compile.{RoutingRule}
use syrogo.Config.Schema.{Config}
use syrogo.Config.Resources.{edited, slice, copy_to, move_entry, move_route}

behind_head : {A : Type 0} (b c rest : List A) (x : A) → drop 1 (take 1 (b ++ x ∷ c) ++ rest) ≡ rest
behind_head [] c rest x = refl
behind_head (y ∷ b) c rest x = refl

module _ {A : Type 0} where
  drop-front : (a ys : List A) → drop (length a) (a ++ ys) ≡ ys
  drop-front a ys =
      let e : length a ≡ length a + 0 = omega arith in
      ap (λ n. drop n (a ++ ys)) e ∙ drop-past a ys 0

  take-front : (a ys : List A) → take (length a) (a ++ ys) ≡ a
  take-front a ys =
      let e : length a ≡ length a + 0 = omega arith in
      ap (λ n. take n (a ++ ys)) e ∙ take-past a ys 0 ∙ append-nil a

  -- Where the copied entries go behind `a`, and `d` is left behind them.
  copy_to-parts :
      (at : ℕ) (a ys xs d : List A)
      → take at xs ≡ a
      → drop (at + length ys) xs ≡ d
      → copy_to at ys xs ≡ a ++ (ys ++ d)
  copy_to-parts at a ys xs d h k =
      ap (λ f. f ++ (ys ++ drop (at + length ys) xs)) h ∙ ap (λ t. a ++ (ys ++ t)) k

  module _ (a b c : List A) (x : A) where
    abbrev from : ℕ
    from = length a

    abbrev to : ℕ
    to = length a + length b

    abbrev xs : List A
    xs = a ++ x ∷ (b ++ c)

    abbrev ys : List A
    ys = a ++ (b ++ x ∷ c)

    abbrev left : List A
    left = drop (length b) (x ∷ (b ++ c))

    moved_later : slice from (from + 1) xs ≡ x ∷ []
    moved_later =
        let e : from + 1 - from ≡ 1 = omega arith in
        ap (λ n. take n (drop from xs)) e ∙ ap (take 1) (drop-front a (x ∷ (b ++ c)))

    between_later : slice (from + 1) (to + 1) xs ≡ b
    between_later =
        let e : to + 1 - (from + 1) ≡ length b = omega arith in
        ap (λ n. take n (drop (from + 1) xs)) e
        ∙ ap (take (length b)) (drop-past a (x ∷ (b ++ c)) 1)
        ∙ take-front b c

    shifted_later : copy_to from (slice (from + 1) (to + 1) xs) xs ≡ a ++ (b ++ left)
    shifted_later =
        ap (λ s. copy_to from s xs) between_later
        ∙ copy_to-parts from a b xs left (take-front a (x ∷ (b ++ c)))
            (drop-past a (x ∷ (b ++ c)) (length b))

    rest_later : drop (to + 1) (a ++ (b ++ left)) ≡ c
    rest_later =
        let e : to + 1 ≡ length a + (length b + 1) = omega arith in
        let one : length b + 1 ≡ suc (length b) = omega arith in
        ap (λ n. drop n (a ++ (b ++ left))) e
        ∙ drop-past a (b ++ left) (length b + 1)
        ∙ drop-past b left 1
        ∙ drop-drop 1 (length b) (x ∷ (b ++ c))
        ∙ ap (λ n. drop n (x ∷ (b ++ c))) one
        ∙ drop-front b c

    front_later : take to (a ++ (b ++ left)) ≡ a ++ b
    front_later = take-past a (b ++ left) (length b) ∙ ap (◌++◌ a) (take-front b left)

    move_entry-later : 0 < length b → move_entry from to xs ≡ ys
    unfolding move_entry
    move_entry-later h =
        let shift = copy_to from (slice (from + 1) (to + 1) xs) xs in
        let other = copy_to (to + 1) (slice to from xs) xs in
        let later : ltb from to ≡ true = ground (arith, h) in
        ap (λ s. copy_to to s (if ltb from to then shift else other)) moved_later
        ∙ ap (λ t. copy_to to (x ∷ []) (if t then shift else other)) later
        ∙ ap (copy_to to (x ∷ [])) shifted_later
        ∙ copy_to-parts to (a ++ b) (x ∷ []) (a ++ (b ++ left)) c front_later rest_later
        ∙ append_assoc a b (x ∷ c)

    abbrev head : List A
    head = take 1 (b ++ x ∷ c)

    moved_earlier : slice to (to + 1) ys ≡ x ∷ []
    moved_earlier =
        let e : to + 1 - to ≡ 1 = omega arith in
        ap (λ n. take n (drop to ys)) e
        ∙ ap (take 1) (drop-past a (b ++ x ∷ c) (length b) ∙ drop-front b (x ∷ c))

    between_earlier : slice from to ys ≡ b
    between_earlier =
        let e : to - from ≡ length b = omega arith in
        ap (λ n. take n (drop from ys)) e
        ∙ ap (take (length b)) (drop-front a (b ++ x ∷ c))
        ∙ take-front b (x ∷ c)

    rest_earlier : drop (from + 1 + length b) ys ≡ c
    rest_earlier =
        let e : from + 1 + length b ≡ length a + (length b + 1) = omega arith in
        ap (λ n. drop n ys) e ∙ drop-past a (b ++ x ∷ c) (length b + 1) ∙ drop-past b (x ∷ c) 1

    shifted_earlier : copy_to (from + 1) (slice from to ys) ys ≡ a ++ (head ++ (b ++ c))
    shifted_earlier =
        ap (λ s. copy_to (from + 1) s ys) between_earlier
        ∙ copy_to-parts (from + 1) (a ++ head) b ys c (take-past a (b ++ x ∷ c) 1) rest_earlier
        ∙ append_assoc a head (b ++ c)

    move_entry-earlier : move_entry to from ys ≡ xs
    unfolding move_entry
    move_entry-earlier =
        let shift = copy_to to (slice (to + 1) (from + 1) ys) ys in
        let other = copy_to (from + 1) (slice from to ys) ys in
        let earlier : ltb to from ≡ false = ground arith in
        ap (λ s. copy_to from s (if ltb to from then shift else other)) moved_earlier
        ∙ ap (λ t. copy_to from (x ∷ []) (if t then shift else other)) earlier
        ∙ ap (copy_to from (x ∷ [])) shifted_earlier
        ∙ copy_to-parts from a (x ∷ []) (a ++ (head ++ (b ++ c))) (b ++ c)
            (take-front a (head ++ (b ++ c)))
            (drop-past a (head ++ (b ++ c)) 1 ∙ behind_head b c (b ++ c) x)

move_route-edited :
    (c : Config) (i j : ℕ)
    → i < length c.rules
    → j < length c.rules
    → i ≢ j
    → move_route c (pos i) (pos j) ≡ edited (record c { rules = move_entry i j c.rules })
unfolding move_route
move_route-edited c i j h k d =
    let first : ltb i (length c.rules) ≡ true = ground (arith, h) in
    let second : ltb j (length c.rules) ≡ true = ground (arith, k) in
    let other : (i == j) ≡ false = ground (arith, d) in rw (first, second, other, move_route) refl

-- Where rules stand between two places of the configuration, the move of the rule at the first
-- place to the second puts it behind them and changes nothing else, and the move back from there
-- gives the old configuration.
pub move_route-back :
    (c : Config) (before between after : List RoutingRule) (rule : RoutingRule)
    → c.rules ≡ before ++ rule ∷ (between ++ after)
    → 0 < length between
    → (move_route c (pos (length before)) (pos (length before + length between))
        ≡ edited (record c { rules = before ++ (between ++ rule ∷ after) }))
      × (move_route
            (record c { rules = before ++ (between ++ rule ∷ after) })
            (pos (length before + length between))
            (pos (length before))
          ≡ edited c)
move_route-back c before between after rule e h =
    let i = length before in
    let j = length before + length between in
    let behind = before ++ (between ++ rule ∷ after) in
    let whole : length c.rules ≡ i + suc (length between + length after) =
      ap length e
      ∙ omega
          (arith, length-append before (rule ∷ (between ++ after)), length-append between after) in
    let moved : length behind ≡ i + (length between + suc (length after)) = omega (
      arith,
      length-append before (between ++ rule ∷ after),
      length-append between (rule ∷ after),
    ) in
    (
      move_route-edited c i j (omega (arith, whole)) (omega (arith, whole))
            (λ k. omega (arith, k, h))
          ∙ ap (λ rules. edited (record c { rules = rules }))
              (ap (move_entry i j) e ∙ move_entry-later before between after rule h),
      move_route-edited (record c { rules = behind }) j i (omega (arith, moved))
            (omega (arith, moved)) (λ k. omega (arith, k, h))
          ∙ ap (λ rules. edited (record c { rules = rules }))
              (move_entry-earlier before between after rule ∙ sym e),
    )
