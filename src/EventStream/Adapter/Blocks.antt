-- ===== src/EventStream/Adapter/Blocks.antt =====
-- What the events of the blocks of a response leave in the snapshot's variables.
use syrogo.Base.{
  ℕ, suc, ◌≤◌, ◌<◌, ◌≡◌, refl, sym, ap, ◌∙◌, inl, inr, String, true, false, not, ◌&&◌, List, [],
  ◌∷◌, ◌++◌, All, All-append, map, append_assoc, append-nil, none, some, if◌then◌else◌, ◌==◌,
  nat_eq, is_empty, eq_iff, text_eq, arith, Bool-cases,
}
use syrogo.Base.Map.{Map, insert, lookup-insert, equals_refl}
use syrogo.Runtime.{Response}
use syrogo.Router.Order.{contains}
use syrogo.EventStream.{
  Event, content_block_start, content_block_delta, content_block_stop, message_start, StopReason,
  ContentBlock,
}
use syrogo.EventStream.Adapter.{
  response_event, block_events, all_block_events, SnapshotState, snapshot_step, snapshot_run,
  block_at, empty_state, or_text,
}

pub or_text-same : (a : String) → or_text a a ≡ a
or_text-same a = elim (Bool-cases (is_empty a && not (is_empty a))) [
  | inl h ↦ rw h refl
  | inr h ↦ rw h refl
]

or_text-first : (a : String) → or_text "" a ≡ a
or_text-first a = elim (Bool-cases (is_empty a)) [
  | inl h ↦ rw h (sym ((eq_iff a "").0 h))
  | inr h ↦ rw h refl
]

pub run-step :
    (st st' : SnapshotState) (e : Event) (rest : List Event)
    → snapshot_step st e ≡ st'
    → snapshot_run st (e ∷ rest) ≡ snapshot_run st' rest
unfolding snapshot_run
run-step st st' e rest h = ap (λ s. snapshot_run s rest) h

module _ (r : Response) where
  -- The state between two blocks.
  abbrev pub amid : Map ℕ ContentBlock → List ℕ → List ℕ → SnapshotState
  amid blocks order seen = record {
    snapshot = record {
      id = r.id;
      model = r.model;
      role = r.message.role;
      blocks = [];
      finish_reason = StopReason.no_reason;
      usage = none;
    };
    blocks = blocks;
    order = order;
    seen = seen;
  }

  abbrev start_of : ℕ → ContentBlock → Event
  start_of i b = record (response_event r content_block_start) { block_index = i; block = some b }

  abbrev delta_of : ℕ → ContentBlock → Event
  delta_of i b = record (response_event r content_block_delta) {
    block_index = i;
    block = some b;
    text_delta = b.text;
    tool_call = b.tool_call;
  }

  abbrev stop_of : ℕ → Event
  stop_of i = record (response_event r content_block_stop) { block_index = i }

  pub start-amid : snapshot_step empty_state (response_event r message_start) ≡ amid [] [] []
  unfolding snapshot_step
  start-amid = rw (or_text-first r.id, or_text-first r.model, or_text-first r.message.role) refl

  new-amid :
      (i : ℕ) (b : ContentBlock) (blocks : Map ℕ ContentBlock) (order seen : List ℕ)
      → contains seen i ≡ false
      → snapshot_step (amid blocks order seen) (start_of i b)
        ≡ amid (insert i b blocks) (order ++ i ∷ []) (i ∷ seen)
  unfolding snapshot_step
  new-amid i b blocks order seen fresh =
      rw (or_text-same r.id, or_text-same r.model, or_text-same r.message.role, fresh) refl

  again-amid :
      (i : ℕ) (b : ContentBlock) (blocks : Map ℕ ContentBlock) (order seen : List ℕ)
      → contains seen i ≡ true
      → snapshot_step (amid blocks order seen) (delta_of i b) ≡ amid (insert i b blocks) order seen
  unfolding snapshot_step
  again-amid i b blocks order seen known =
      rw (or_text-same r.id, or_text-same r.model, or_text-same r.message.role, known) refl

  stop-amid :
      (i : ℕ) (blocks : Map ℕ ContentBlock) (order seen : List ℕ)
      → snapshot_step (amid blocks order seen) (stop_of i) ≡ amid blocks order seen
  unfolding snapshot_step
  stop-amid i blocks order seen =
      rw (or_text-same r.id, or_text-same r.model, or_text-same r.message.role) refl

  block-amid :
      (i : ℕ) (b : ContentBlock) (blocks : Map ℕ ContentBlock) (order seen : List ℕ)
      (rest : List Event)
      → contains seen i ≡ false
      → snapshot_run (amid blocks order seen) (block_events r i b ++ rest)
        ≡ snapshot_run (amid (insert i b (insert i b blocks)) (order ++ i ∷ []) (i ∷ seen)) rest
  unfolding block_events
  block-amid i b blocks order seen rest fresh =
      let known : contains (i ∷ seen) i ≡ true = rw (equals_refl i) refl in
      let twice : Map ℕ ContentBlock = insert i b (insert i b blocks) in
      run-step (amid blocks order seen) (amid (insert i b blocks) (order ++ i ∷ []) (i ∷ seen))
        (start_of i b) (delta_of i b ∷ stop_of i ∷ rest) (new-amid i b blocks order seen fresh)
      ∙ run-step (amid (insert i b blocks) (order ++ i ∷ []) (i ∷ seen))
          (amid twice (order ++ i ∷ []) (i ∷ seen)) (delta_of i b) (stop_of i ∷ rest)
          (again-amid i b (insert i b blocks) (order ++ i ∷ []) (i ∷ seen) known)
      ∙ run-step (amid twice (order ++ i ∷ []) (i ∷ seen)) (amid twice (order ++ i ∷ []) (i ∷ seen))
          (stop_of i) rest (stop-amid i twice (order ++ i ∷ []) (i ∷ seen))

  -- What the state has come to before block `i`.
  pub record Collected (i : ℕ) (done : List ContentBlock) (blocks : Map ℕ ContentBlock)
      (order seen : List ℕ) : Type 0 where
    pub blocks_are : map (block_at blocks) order ≡ done
    pub below : All (λ j. j < i) order
    pub unseen : (j : ℕ) → i ≤ j → contains seen j ≡ false

  block_at-insert :
      (i j : ℕ) (b : ContentBlock) (blocks : Map ℕ ContentBlock)
      → block_at (insert i b blocks) j ≡ (if i == j then b else block_at blocks j)
  unfolding block_at
  block_at-insert i j b blocks = ground (arith, lookup-insert i j b blocks)

  below-insert :
      (i : ℕ) (b : ContentBlock) (blocks : Map ℕ ContentBlock) (order : List ℕ)
      → All (λ j. j < i) order
      → map (block_at (insert i b blocks)) order ≡ map (block_at blocks) order
  below-insert i b blocks [] h = refl
  below-insert i b blocks (j ∷ order) h =
      let apart : (i == j) ≡ false = ground (arith, h.0) in
      let kept : block_at (insert i b blocks) j ≡ block_at blocks j =
        rw apart at (block_at-insert i j b blocks) in
      cc (kept, below-insert i b blocks order h.1)

  here :
      (i : ℕ) (b : ContentBlock) (blocks : Map ℕ ContentBlock) → block_at (insert i b blocks) i ≡ b
  here i b blocks = rw (equals_refl i) at (block_at-insert i i b blocks)

  map-append :
      (f : ℕ → ContentBlock) (xs : List ℕ) (i : ℕ) → map f (xs ++ i ∷ []) ≡ map f xs ++ f i ∷ []
  map-append f [] i = refl
  map-append f (x ∷ xs) i = ap (◌∷◌ (f x)) (map-append f xs i)

  collect-one :
      (i : ℕ) (b : ContentBlock) (done : List ContentBlock) (blocks : Map ℕ ContentBlock)
      (order seen : List ℕ)
      → Collected i done blocks order seen
      → Collected
          (suc i)
          (done ++ b ∷ [])
          (insert i b (insert i b blocks))
          (order ++ i ∷ [])
          (i ∷ seen)
  collect-one i b done blocks order seen c = record {
    blocks_are =
        map-append (block_at (insert i b (insert i b blocks))) order i
        ∙ cc (
          below-insert i b (insert i b blocks) order c.below,
          below-insert i b blocks order c.below,
          c.blocks_are,
          here i b (insert i b blocks),
        );
    below = All-append (λ j. j < suc i) order (i ∷ []) (weaken order c.below) (omega arith, tt);
    unseen = λ j le. ground (arith, le, c.unseen j);
  }
    where
      weaken : (order : List ℕ) → All (λ j. j < i) order → All (λ j. j < suc i) order
      weaken [] h = tt
      weaken (j ∷ order) h = (omega (arith, h.0), weaken order h.1)

  -- All blocks, from the `i`th on.
  pub collect-all :
      (bs : List ContentBlock) (i : ℕ) (done : List ContentBlock) (blocks : Map ℕ ContentBlock)
      (order seen : List ℕ) (rest : List Event)
      → Collected i done blocks order seen
      → (blocks' : Map ℕ ContentBlock) × (order' : List ℕ) × (seen' : List ℕ) × (snapshot_run
            (amid blocks order seen)
            (all_block_events r i bs ++ rest)
          ≡ snapshot_run (amid blocks' order' seen') rest)
        × (map (block_at blocks') order' ≡ done ++ bs)
  unfolding all_block_events
  collect-all [] i done blocks order seen rest c =
      (blocks, order, seen, refl, c.blocks_are ∙ sym (append-nil done))
  collect-all (b ∷ bs) i done blocks order seen rest c =
      let (blocks', order', seen', e, are) =
        collect-all bs (suc i) (done ++ b ∷ []) (insert i b (insert i b blocks)) (order ++ i ∷ [])
          (i ∷ seen) rest (collect-one i b done blocks order seen c) in
      (
        blocks',
        order',
        seen',
        ap (snapshot_run (amid blocks order seen))
              (append_assoc (block_events r i b) (all_block_events r (suc i) bs) rest)
            ∙ block-amid i b blocks order seen (all_block_events r (suc i) bs ++ rest)
                (c.unseen i (omega arith))
            ∙ e,
        are ∙ append_assoc done (b ∷ []) bs,
      )
