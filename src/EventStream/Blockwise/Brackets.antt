-- ===== src/EventStream/Blockwise/Brackets.antt =====
-- How the starts and the stops of blocks stand in a stream.
use syrogo.Base.{
  ℕ, zero, suc, ◌+◌, ◌≡◌, refl, ap, ◌∙◌, ◌⊎◌, inl, inr, Bool, true, false, List, [], ◌∷◌, ◌++◌, map,
  length, Option, none, some, Option-cases, if◌then◌else◌, arith, nat_eq,
}
use syrogo.Base.Map.{Map, lookup, insert}
use syrogo.Runtime.{StreamEvent, StreamEventType, ContentPart, ContentPartType}
use syrogo.EventStream.{Event, EventType}
use syrogo.EventStream.Blockwise.{
  BlockState, no_blocks, stop_text, stop_event, json_part, text_part, delta_part, tool_part,
  closing, end_part, block_step, block_run, event_stream_from_runtime,
}

abbrev is_start : EventType → Bool
is_start EventType.content_block_start = true
is_start _ = false

abbrev is_stop : EventType → Bool
is_stop EventType.content_block_stop = true
is_stop _ = false

-- The indexes of the blocks that are started, and how many blocks are stopped.
abbrev pub started : List Event → List ℕ
started [] = []
started (e ∷ events) =
    if is_start e.event_type then e.block_index ∷ started events else started events

abbrev pub stops : List Event → ℕ
stops [] = 0
stops (e ∷ events) = if is_stop e.event_type then suc (stops events) else stops events

abbrev pub count_up : ℕ → ℕ → List ℕ
count_up n zero = []
count_up n (suc k) = n ∷ count_up (suc n) k

started-append : (xs ys : List Event) → started (xs ++ ys) ≡ started xs ++ started ys
started-append [] ys = refl
started-append (e ∷ xs) ys = ground (arith, started-append xs ys)

stops-append : (xs ys : List Event) → stops (xs ++ ys) ≡ stops xs + stops ys
stops-append [] ys = omega arith
stops-append (e ∷ xs) ys = ground (arith, stops-append xs ys)

count_up-append :
    (n j k m t : ℕ) → m ≡ n + j → t ≡ j + k → count_up n j ++ count_up m k ≡ count_up n t
count_up-append n zero k m t e f =
    let same_m : m ≡ n = omega (arith, e) in
    let same_t : t ≡ k = omega (arith, f) in rw (same_m, same_t) refl
count_up-append n (suc j) k m zero e f = ground (arith, f)
count_up-append n (suc j) k m (suc t) e f =
    ap (◌∷◌ n) (count_up-append (suc n) j k m t (omega (arith, e)) (omega (arith, f)))

length-insert : (k v : ℕ) (m : Map ℕ ℕ) → lookup k m ≡ none → length (insert k v m) ≡ suc (length m)
unfolding lookup insert
length-insert k v [] h = refl
length-insert k v ((j, w) ∷ m) h = ground (arith, h, length-insert k v m)

abbrev pub open_blocks : BlockState → ℕ
open_blocks st = (elim st.text_block [ none ↦ 0 | some i ↦ 1 ]) + length st.tool_blocks

-- What a part of the stream does between two states.
record Brackets (out : List Event) (st st' : BlockState) : Type 0 where
  pub count : ℕ
  pub started_are : started out ≡ count_up st.next_block count
  pub next_is : st'.next_block ≡ st.next_block + count
  pub balance : open_blocks st + count ≡ stops out + open_blocks st'

then_part :
    (xs ys : List Event) (st st' st'' : BlockState)
    → Brackets xs st st'
    → Brackets ys st' st''
    → Brackets (xs ++ ys) st st''
then_part xs ys st st' st'' b c = record {
  count = b.count + c.count;
  started_are =
      started-append xs ys
      ∙ cc (b.started_are, c.started_are)
      ∙ count_up-append st.next_block b.count c.count st'.next_block (b.count + c.count) b.next_is
          refl;
  next_is = omega (arith, b.next_is, c.next_is);
  balance = omega (arith, b.balance, c.balance, stops-append xs ys);
}

-- A part that starts and stops nothing.
still : (out : List Event) (st : BlockState) → started out ≡ [] → stops out ≡ 0 → Brackets out st st
still out st h k = record {
  count = 0;
  started_are = h;
  next_is = omega arith;
  balance = omega (arith, k);
}

json_part-Brackets :
    (e : StreamEvent) (p : ContentPart) (st : BlockState)
    → Brackets (json_part e p st).0 st (json_part e p st).1
unfolding json_part stop_text
json_part-Brackets e p st = elim (Option-cases st.text_block) [
  | inl h ↦ record {
    count = 1;
    started_are = rw (h, stop_text) refl;
    next_is = omega arith;
    balance = rw (h, stop_text) (omega arith);
  }
  | inr (i, h) ↦ record {
    count = 1;
    started_are = rw (h, stop_text) refl;
    next_is = omega arith;
    balance = rw (h, stop_text) (omega arith);
  }
]

text_part-Brackets :
    (e : StreamEvent) (p : ContentPart) (st : BlockState)
    → Brackets (text_part e p st).0 st (text_part e p st).1
unfolding text_part
text_part-Brackets e p st = elim (Option-cases st.text_block) [
  | inl h ↦
      rw (h, text_part)
        (record { count = 1; started_are = refl; next_is = omega arith; balance = omega arith })
  | inr (i, h) ↦
      rw (h, text_part)
        (record {
          count = 0;
          started_are = refl;
          next_is = omega arith;
          balance = rw h (omega arith);
        })
]

delta_part-Brackets :
    (e : StreamEvent) (st : BlockState) → Brackets (delta_part e st).0 st (delta_part e st).1
unfolding delta_part
delta_part-Brackets e st = elim (Option-cases e.delta) [
  | inl h ↦ rw (h, delta_part) (still [] st refl refl)
  | inr (p, h) ↦ elim (part_cases p.part_type) [
    | inl k ↦ rw (h, k, delta_part) (json_part-Brackets e p st)
    | inr k ↦ rw (h, k, delta_part) (text_part-Brackets e p st)
  ]
]
  where
    part_cases : (t : ContentPartType) → (t ≡ ContentPartType.json) ⊎ (t ≡ ContentPartType.text)
    part_cases ContentPartType.json = inl refl
    part_cases ContentPartType.text = inr refl

started-stop_text :
    (e : StreamEvent) (o : Option ℕ) (xs : List Event) → started (stop_text e o ++ xs) ≡ started xs
unfolding stop_text
started-stop_text e none xs = refl
started-stop_text e (some i) xs = refl

abbrev open_text : Option ℕ → ℕ
open_text none = 0
open_text (some i) = 1

stops-stop_text :
    (e : StreamEvent) (o : Option ℕ) (xs : List Event)
    → stops (stop_text e o ++ xs) ≡ open_text o + stops xs
unfolding stop_text
stops-stop_text e none xs = omega arith
stops-stop_text e (some i) xs = omega arith

open_blocks-text :
    (st : BlockState) → open_blocks st ≡ open_text st.text_block + length st.tool_blocks
open_blocks-text st = elim (Option-cases st.text_block) [
  | inl h ↦ rw h refl
  | inr (i, h) ↦ rw h refl
]

tool_part-Brackets :
    (e : StreamEvent) (st : BlockState) → Brackets (tool_part e st).0 st (tool_part e st).1
unfolding tool_part
tool_part-Brackets e st = elim (Option-cases e.tool_call) [
  | inl h ↦ rw (h, tool_part) (still [] st refl refl)
  | inr (c, h) ↦ elim (Option-cases (lookup e.tool_call_index st.tool_blocks)) [
    | inl k ↦
        rw (h, k, tool_part)
          (record {
            count = 1;
            started_are = started-stop_text e st.text_block _;
            next_is = omega arith;
            balance = omega (
              arith,
              stops-stop_text e st.text_block _,
              open_blocks-text st,
              length-insert e.tool_call_index st.next_block st.tool_blocks k,
            );
          })
    | inr (i, k) ↦
        rw (h, k, tool_part)
          (record {
            count = 0;
            started_are = started-stop_text e st.text_block _;
            next_is = omega arith;
            balance = omega (arith, stops-stop_text e st.text_block _, open_blocks-text st);
          })
  ]
]

started-stop_tools :
    (e : StreamEvent) (tools : Map ℕ ℕ) (xs : List Event)
    → started (map (λ (t : ℕ × ℕ). stop_event e t.1) tools ++ xs) ≡ started xs
started-stop_tools e [] xs = refl
started-stop_tools e (t ∷ tools) xs = started-stop_tools e tools xs

stops-stop_tools :
    (e : StreamEvent) (tools : Map ℕ ℕ) (xs : List Event)
    → stops (map (λ (t : ℕ × ℕ). stop_event e t.1) tools ++ xs) ≡ length tools + stops xs
stops-stop_tools e [] xs = omega arith
stops-stop_tools e (t ∷ tools) xs = omega (arith, stops-stop_tools e tools xs)

abbrev tool_stops : StreamEvent → Map ℕ ℕ → List Event
tool_stops e tools = map (λ (t : ℕ × ℕ). stop_event e t.1) tools

end_part-Brackets :
    (e : StreamEvent) (st : BlockState) → Brackets (end_part e st).0 st (end_part e st).1
unfolding end_part
end_part-Brackets e st =
    let same : stops (end_part e st).0
        ≡ open_text st.text_block + stops (tool_stops e st.tool_blocks ++ closing e) =
      stops-stop_text e st.text_block (tool_stops e st.tool_blocks ++ closing e) in
    record {
      count = 0;
      started_are =
          started-stop_text e st.text_block (tool_stops e st.tool_blocks ++ closing e)
          ∙ started-stop_tools e st.tool_blocks (closing e);
      next_is = omega arith;
      balance =
          omega (arith, same, stops-stop_tools e st.tool_blocks (closing e), open_blocks-text st);
    }

block_step-Brackets :
    (t : StreamEventType) (e : StreamEvent) (st : BlockState)
    → e.event_type ≡ t
    → Brackets (block_step e st).0 st (block_step e st).1
unfolding block_step
block_step-Brackets StreamEventType.message_start e st h = rw (h, block_step) (still _ st refl refl)
block_step-Brackets StreamEventType.content_delta e st h =
    rw (h, block_step)
      (then_part _ _ st (delta_part e st).1 _ (delta_part-Brackets e st)
        (tool_part-Brackets e (delta_part e st).1))
block_step-Brackets StreamEventType.usage e st h = rw (h, block_step) (still _ st refl refl)
block_step-Brackets StreamEventType.message_end e st h = rw (h, block_step) (end_part-Brackets e st)
block_step-Brackets StreamEventType.error e st h = rw (h, block_step) (still _ st refl refl)
block_step-Brackets (StreamEventType.other_event name) e st h =
    rw (h, block_step) (still _ st refl refl)

block_run-Brackets :
    (events : List StreamEvent) (st : BlockState)
    → Brackets (block_run events st).0 st (block_run events st).1
unfolding block_run
block_run-Brackets [] st = still [] st refl refl
block_run-Brackets (e ∷ events) st =
    then_part _ _ st (block_step e st).1 _ (block_step-Brackets e.event_type e st refl)
      (block_run-Brackets events (block_step e st).1)

-- For every list of runtime events, the blocks that the whole stream starts carry the indexes 0, 1, 2
-- and so on without a gap or a repetition, and there are as many of them as the stream stops blocks,
-- plus those that are still open after the last event.
pub event_stream-Brackets :
    (events : List StreamEvent)
    → (started (event_stream_from_runtime events)
        ≡ count_up 0
            (stops (event_stream_from_runtime events) + open_blocks (block_run events no_blocks).1))
unfolding event_stream_from_runtime
event_stream-Brackets events =
    let b = block_run-Brackets events no_blocks in
    b.started_are ∙ ap (count_up 0) (omega (arith, b.balance))
