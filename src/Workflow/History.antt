-- ===== src/Workflow/History.antt =====
-- The stored events of a run: what `transitionWorkflow` of packages/storage-sqlite/src/index.ts
-- keeps of them.
use atlas_mcp.Prelude.{
  ℕ, ◌+◌, ◌<◌, String, ◌≡◌, ◌≢◌, refl, sym, ap, ◌∙◌, subst, false, ◌&&◌, List, [], ◌∷◌, ◌++◌,
  length, filter_of, some_of, All, nat_eq, ltb, ◌==◌, sort, ok, OnOk, OnOk-bind, OnOk-weaken, arith,
  length-append, insert, ◌≤◌,
}
use mathlib.Core.List.{append-nil, append_assoc}
use atlas_mcp.Protocol.Workflow.{Event}
use atlas_mcp.Store.Workflows.{WorkflowStore, insert_event, insert_events, by_sequence, list_events}
use atlas_mcp.Events.Replay.{Numbered}

-- The events of a run, in the order of their insertion.
abbrev pub events_of : String → List Event → List Event
events_of id es = filter_of (λ e. e.aggregate_id == id) es

-- All events are of the run.
abbrev pub OfRun : String → List Event → Type 0
OfRun id es = All (λ e. e.aggregate_id ≡ id) es

pub events_of-append :
    (id : String) (xs ys : List Event)
    → events_of id (xs ++ ys) ≡ events_of id xs ++ events_of id ys
events_of-append id [] ys = refl
events_of-append id (x ∷ xs) ys = ground (arith, events_of-append id xs ys)

pub events_of-own : (id : String) (es : List Event) → OfRun id es → events_of id es ≡ es
events_of-own id [] h = refl
events_of-own id (e ∷ es) h = ground (arith, events_of-own id es h.1)

pub events_of-others :
    (id other : String) (es : List Event) → other ≢ id → OfRun id es → events_of other es ≡ []
events_of-others id other [] n h = refl
events_of-others id other (e ∷ es) n h = ground (arith, events_of-others id other es n h.1)

insert_event-append :
    (table : List Event) (e : Event) → OnOk (λ t. t ≡ table ++ e ∷ []) (insert_event table e)
unfolding insert_event
insert_event-append table e = ground arith

pub insert_events-append :
    (table es : List Event) → OnOk (λ t. t ≡ table ++ es) (insert_events table es)
unfolding insert_events
insert_events-append table [] = sym (append-nil table)
insert_events-append table (e ∷ es) =
    OnOk-bind _ (insert_event table e) _ (insert_event-append table e) λ t p.
      OnOk-weaken _ (insert_events t es) (insert_events-append t es)
        λ u q. q ∙ ap (λ (l : List Event). l ++ es) p ∙ append_assoc table (e ∷ []) es

-- All numbers are below a bound.
abbrev Below : ℕ → List Event → Type 0
Below n es = All (λ e. e.sequence < n) es

Numbered-smaller : (k n : ℕ) (es : List Event) → Numbered k es → k + length es ≤ n → Below n es
Numbered-smaller k n [] h b = tt
Numbered-smaller k n (e ∷ es) (p, h) b =
    (omega arith, Numbered-smaller (k + 1) n es h (omega arith))

no_clash :
    (id : String) (n : ℕ) (table : List Event)
    → Below n (events_of id table)
    → some_of (λ x. (x.aggregate_id == id) && nat_eq x.sequence n) table ≡ false
no_clash id n [] h = refl
no_clash id n (x ∷ table) h = ground (arith, no_clash id n table)

Numbered-snoc :
    (k : ℕ) (es : List Event) (e : Event)
    → Numbered k es
    → e.sequence ≡ k + length es
    → Numbered k (es ++ e ∷ [])
Numbered-snoc k [] e h p = (omega arith, tt)
Numbered-snoc k (x ∷ es) e (q, h) p = (q, Numbered-snoc (k + 1) es e h (omega arith))

insert_event_ok :
    (id : String) (table : List Event) (e : Event)
    → e.aggregate_id ≡ id
    → Below e.sequence (events_of id table)
    → insert_event table e ≡ ok (table ++ e ∷ [])
unfolding insert_event
insert_event_ok id table e q b = rw (
    no_clash e.aggregate_id e.sequence table
      (subst (λ i. Below e.sequence (events_of i table)) (sym q) b))

-- Events with the numbers that follow those of the run are inserted without a conflict.
pub insert_events_ok :
    (id : String) (n : ℕ) (table es : List Event)
    → Numbered 1 (events_of id table)
    → length (events_of id table) ≡ n
    → Numbered (n + 1) es
    → OfRun id es
    → insert_events table es ≡ ok (table ++ es)
unfolding insert_events
insert_events_ok id n table [] h l m o = ap ok (sym (append-nil table))
insert_events_ok id n table (e ∷ es) h l (p, m) (q, o) =
    let fresh =
      insert_event_ok id table e q
        (Numbered-smaller 1 e.sequence (events_of id table) h (omega arith)) in
    let grown =
      events_of-append id table (e ∷ [])
      ∙ ap (λ (t : List Event). events_of id table ++ t) (events_of-own id (e ∷ []) (q, tt)) in
    rw fresh (
      insert_events_ok id (n + 1) (table ++ e ∷ []) es
        (rw grown (Numbered-snoc 1 (events_of id table) e h (omega arith)))
        (rw grown (omega (arith, length-append (events_of id table) (e ∷ [])))) m o
      ∙ ap ok (append_assoc table (e ∷ []) es))

-- Sorting events that carry rising numbers changes nothing.
pub sort-Numbered : (k : ℕ) (es : List Event) → Numbered k es → sort by_sequence es ≡ es
unfolding sort insert
sort-Numbered k [] h = refl
sort-Numbered k (e ∷ []) h = refl
sort-Numbered k (e ∷ f ∷ es) (p, (q, h)) = rw (sort-Numbered (k + 1) (f ∷ es) (q, h)) (ground arith)

listed :
    (id : String) (k : ℕ) (es : List Event)
    → Numbered k (events_of id es)
    → 0 < k
    → filter_of (λ e. (e.aggregate_id == id) && ltb 0 e.sequence) es ≡ events_of id es
listed id k [] h z = refl
listed id k (e ∷ es) h z = ground (arith, listed id k es, listed id (k + 1) es)

-- If the stored events of a run are numbered from 1 on, `listWorkflowEvents` from 0 returns exactly
-- them, in their order.
pub list_events_lem :
    (s : WorkflowStore) (id : String)
    → Numbered 1 (events_of id s.events)
    → list_events s id 0 ≡ events_of id s.events
unfolding list_events
list_events_lem s id h = rw (listed id 1 s.events h (omega arith)) (sort-Numbered 1 _ h)
