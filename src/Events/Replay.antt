-- ===== src/Events/Replay.antt =====
-- A history of events: `rebuildWorkflow` of packages/runtime-core/src/workflow-events.ts.
use native.Mathlib.Omega.{arith}
use atlas_mcp.Prelude.{
  true, Bool-cases, inl, inr, nat_eq_refl, >>=-cong, >>=_assoc, ℕ, ◌+◌, ◌≡◌, refl, Option, none,
  some, List, [], ◌∷◌, ◌++◌, length, All, ok, OnOk, OnOk-bind, OnOk-weaken, ◌>>=◌, >>=-eq-ok,
  require, sym, ◌∙◌, subst,
}
use atlas_mcp.Protocol.Failure.{event_history_empty}
use atlas_mcp.Protocol.Workflow.{Run, Event, Snapshot}
use atlas_mcp.Events.Reduce.{apply_event, apply_events, rebuild, snapshot_run, parse_run, run_valid}
use atlas_mcp.Events.Steps.{Keeps, Stamped, apply_event_first, apply_event_next}

-- The events carry the numbers from `n` on, without a gap.
abbrev pub Numbered : ℕ → List Event → Type 0
Numbered n [] = Unit
Numbered n (e ∷ es) = (e.sequence ≡ n) × Numbered (n + 1) es

-- The events belong to the run.
abbrev pub Owned : Run → List Event → Type 0
Owned r es = All (λ e. (e.aggregate_id ≡ r.id) × (e.trace_id ≡ r.trace_id)) es

-- What the events `es` lead to from a run.
abbrev pub Follows : Run → List Event → Option Run → Type 0
Follows r es none = ⊥
Follows r es (some s) =
    Keeps r s
    × Numbered (r.state_version + 1) es
    × (s.state_version ≡ r.state_version + length es)
    × Owned s es

Follows-cons :
    (r t : Run) (e : Event) (es : List Event) (last : Option Run)
    → e.sequence ≡ r.state_version + 1
    → Keeps r t × Stamped e t
    → Follows t es last
    → Follows r (e ∷ es) last
Follows-cons r t e es none n k f = f
Follows-cons r t e es (some s) n (k, m) (k', ns, v, o) = (
  record {
    id = k'.id ∙ k.id;
    trace = k'.trace ∙ k.trace;
    definition = k'.definition ∙ k.definition;
    version = k'.version ∙ k.version;
    nodes = k'.nodes ∙ k.nodes;
  },
  (n, subst (λ a. Numbered (a + 1) es) (m.version ∙ n) ns),
  omega (arith, m.version),
  ((sym m.aggregate ∙ sym k'.id, sym m.traced ∙ sym k'.trace), o),
)

pub apply_events-Follows :
    (r : Run) (es : List Event) → OnOk (Follows r es) (apply_events (some r) es)
unfolding apply_events
apply_events-Follows r [] = (
  record { id = refl; trace = refl; definition = refl; version = refl; nodes = refl },
  tt,
  omega arith,
  tt,
)
apply_events-Follows r (e ∷ es) =
    OnOk-bind _ (apply_event (some r) e) _ (apply_event_next r e) λ t (n, k).
      OnOk-weaken _ (apply_events (some t) es) (apply_events-Follows t es)
        λ last. Follows-cons r t e es last n k

-- A rebuilt history: the events of the run `r`, numbered from 1 without a gap, and as many as the
-- version of the run.
pub record IsHistory (es : List Event) (r : Run) : Type 0 where
  pub numbered : Numbered 1 es
  pub counted : r.state_version ≡ length es
  pub owned : Owned r es
  pub valid : run_valid r ≡ true

apply_events-first :
    (es : List Event)
    → OnOk
        (λ last.
          (r : Run) → last ≡ some r → Numbered 1 es × (r.state_version ≡ length es) × Owned r es)
        (apply_events none es)
unfolding apply_events
apply_events-first [] = λ r h. cc
apply_events-first (e ∷ es) = OnOk-bind _ (apply_event none e) _ (apply_event_first e) λ t (n, m).
    OnOk-weaken _ (apply_events (some t) es) (apply_events-Follows t es) λ last f r p.
      let (k, ns, v, o) = subst (Follows t es) p f in
      (
        (n, subst (λ a. Numbered (a + 1) es) (m.version ∙ n) ns),
        omega (arith, m.version, n),
        ((sym m.aggregate ∙ sym k.id, sym m.traced ∙ sym k.trace), o),
      )

whole :
    (es : List Event) (last : Option Run)
    → ((r : Run) → last ≡ some r → Numbered 1 es × (r.state_version ≡ length es) × Owned r es)
    → OnOk (IsHistory es) (require last event_history_empty >>= parse_run)
unfolding parse_run
whole es none h = tt
whole es (some r) h =
    let (n, c, o) = h r refl in
    elim (Bool-cases (run_valid r)) [
      | inl v ↦ rw v (record { numbered = n; counted = c; owned = o; valid = v })
      | inr f ↦ rw f tt
    ]

-- A run that is rebuilt from its events alone has them all: they carry the numbers 1, 2, … without
-- a gap, belong to the run, and are as many as its version says; and the run passes its schema.
pub rebuild-IsHistory : (es : List Event) → OnOk (IsHistory es) (rebuild none es)
unfolding rebuild snapshot_run
rebuild-IsHistory es =
    OnOk-bind _ (apply_events none es) _ (apply_events-first es) λ last h. whole es last h

-- The loop over one list and then another.
pub apply_events-append :
    (o : Option Run) (xs ys : List Event)
    → apply_events o (xs ++ ys) ≡ (apply_events o xs >>= λ last. apply_events last ys)
unfolding apply_events
apply_events-append o [] ys = refl
apply_events-append o (x ∷ xs) ys =
    >>=-cong (apply_event o x) _ _ (λ r. apply_events-append (some r) xs ys)
    ∙ sym
        (>>=_assoc (apply_event o x) (λ r. apply_events (some r) xs) (λ last. apply_events last ys))

rebuilt :
    (last : Option Run) (r : Run)
    → (require last event_history_empty >>= parse_run) ≡ ok r
    → (last ≡ some r) × (run_valid r ≡ true)
unfolding parse_run
rebuilt none r h = cc
rebuilt (some s) r h = ground arith

pub rebuild-eq_ok :
    (es : List Event) (r : Run)
    → rebuild none es ≡ ok r
    → (apply_events none es ≡ ok (some r)) × (run_valid r ≡ true)
unfolding rebuild snapshot_run
rebuild-eq_ok es r h =
    let (last, p, q) =
      >>=-eq-ok (apply_events none es) (λ last. require last event_history_empty >>= parse_run) h in
    let (e, v) = rebuilt last r q in (subst (λ o. apply_events none es ≡ ok o) e p, v)

-- The snapshot that the workflow controller saves of a run.
abbrev pub snapshot_of : Run → Snapshot
snapshot_of r = record {
  workflow_id = r.id;
  sequence = r.state_version;
  run = r;
  created_at = r.updated_at;
}

-- From the snapshot of a rebuilt run the later events lead to the same result, a run or an error,
-- as the whole history does.
pub rebuild-snapshot :
    (earlier later : List Event) (r : Run)
    → rebuild none earlier ≡ ok r
    → rebuild (some (snapshot_of r)) later ≡ rebuild none (earlier ++ later)
unfolding rebuild snapshot_run
rebuild-snapshot earlier later r h =
    let (p, v) = rebuild-eq_ok earlier r h in
    rw (apply_events-append none earlier later, p, v, nat_eq_refl r.state_version)
