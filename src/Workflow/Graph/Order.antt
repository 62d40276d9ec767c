-- ===== src/Workflow/Graph/Order.antt =====
-- The order of the layers of `validateWorkflow` of packages/runtime-core/src/workflow-graph.ts.
use atlas_mcp.Prelude.{
  ℕ, zero, suc, ◌+◌, ◌≤◌, String, ◌≡◌, ◌≢◌, refl, sym, ◌∙◌, ap, subst, Bool, true, Option, none,
  some, List, [], ◌∷◌, map, Map, get, ◌==◌, nat_eq, if◌then◌else◌, or_else, includes, filter_of,
  every_of, sort, text_le, In, inl, inr, length, arith,
}
use atlas_mcp.Protocol.Workflow.{Node}
use atlas_mcp.Workflow.Graph.{
  relax, relax_layer, layer_loop, consed, layers_of, indegrees_of, dependents_of, roots, push_all,
}
use atlas_mcp.Workflow.Graph.Offers.{
  free, free-bound, relax-fresh, occurrences-includes, includes-occurrences, occurrences-sort,
  own-occurrence,
}
use atlas_mcp.Workflow.Graph.Counts.{
  occurrences, degree, degree-relax, occurrences-dependents_of, missing, waits, waits-done,
  AreDistinct, degree-indegrees_of,
}

own-waits :
    (done : List String) (n m : Node) (ms : List Node)
    → m ≡ n
    → (if m.id == n.id then missing done m.depends_on else 0) + waits n.id done ms ≡ 0
    → missing done n.depends_on ≡ 0
own-waits done n m ms same nothing =
    let ids = ap (λ (x : Node). x.id) same in
    let deps = ap (λ (x : Node). missing done x.depends_on) same in ground arith

no_layers :
    (layers : List (List String))
    → ◌≡◌ {A = Option (List (List String))} (some []) (some layers)
    → [] ≡ layers
no_layers layers e = cc

no_result : (layers : List (List String)) → ◌≢◌ {A = Option (List (List String))} none (some layers)
no_result layers e = cc

module _ (nodes : List Node) where
  -- The loop's state: no id was offered twice, and the counts are what the nodes wait for.
  record Counted (done rest next : List String) (degrees : Map ℕ) : Type 0 where
    pub offered :
        (y : String)
        → occurrences y done + occurrences y rest + occurrences y next ≤ free (degree y degrees)
    pub counts : (c : String) → degree c degrees ≡ waits c done nodes

  Counted-step :
      (done next ids : List String) (id : String) (degrees : Map ℕ)
      → Counted done (id ∷ ids) next degrees
      → Counted
          (id ∷ done)
          ids
          (relax degrees next (or_else (get id (dependents_of nodes)) [])).1
          (relax degrees next (or_else (get id (dependents_of nodes)) [])).0
  unfolding occurrences
  Counted-step done next ids id degrees counted =
      let children = or_else (get id (dependents_of nodes)) [] in
      let new =
        occurrences-includes id done
          (omega (arith, counted.offered id, free-bound (degree id degrees), own-occurrence id)) in
      record {
        offered = λ y.
            let kept =
              relax-fresh (λ z. occurrences z done + occurrences z (id ∷ ids)) degrees next children
                counted.offered y in
            omega arith;
        counts = λ c.
            let before = counted.counts c in
            let less = degree-relax c degrees next children in
            let same = occurrences-dependents_of c id nodes in
            let after = waits-done c id done nodes new in omega arith;
      }

  Counted-layer :
      (done next layer : List String) (degrees : Map ℕ)
      → Counted done layer next degrees
      → Counted
          (push_all layer done)
          []
          (relax_layer (dependents_of nodes) degrees next layer).1
          (relax_layer (dependents_of nodes) degrees next layer).0
  unfolding push_all relax_layer
  Counted-layer done next [] degrees counted = counted
  Counted-layer done next (id ∷ ids) degrees counted =
      let relaxed = relax degrees next (or_else (get id (dependents_of nodes)) []) in
      Counted-layer (id ∷ done) relaxed.1 ids relaxed.0
        (Counted-step done next ids id degrees counted)

  -- Each node of a layer has all its dependencies in `done`, and so on for the layers that follow.
  abbrev pub Ordered : List String → List (List String) → Type 0
  Ordered done [] = Unit
  Ordered done (layer ∷ layers) =
      ((n : Node)
        → In n nodes
        → includes n.id layer ≡ true
        → every_of (λ d. includes d done) n.depends_on ≡ true)
      × Ordered (push_all layer done) layers

  missing-every :
      (done ds : List String) → missing done ds ≡ 0 → every_of (λ d. includes d done) ds ≡ true
  unfolding missing
  missing-every done [] nothing = refl
  missing-every done (d ∷ ds) nothing = ground (arith, missing-every done ds)

  waits-every :
      (done : List String) (n : Node) (ns : List Node)
      → In n ns
      → waits n.id done ns ≡ 0
      → every_of (λ d. includes d done) n.depends_on ≡ true
  unfolding waits
  waits-every done n [] there nothing = elim there [ ]
  waits-every done n (m ∷ ms) (inl same) nothing =
      missing-every done n.depends_on (own-waits done n m ms same nothing)
  waits-every done n (m ∷ ms) (inr there) nothing = waits-every done n ms there (ground arith)

  free-zero : (n k : ℕ) → 1 ≤ k → k ≤ free n → n ≡ 0
  unfolding free
  free-zero n k some_there bound = ground arith

  Counted-ready :
      (done layer : List String) (degrees : Map ℕ)
      → Counted done layer [] degrees
      → (n : Node) → In n nodes
      → includes n.id layer ≡ true
      → every_of (λ d. includes d done) n.depends_on ≡ true
  unfolding occurrences
  Counted-ready done layer degrees counted n there inside =
      let here = includes-occurrences n.id layer inside in
      let bound = counted.offered n.id in
      let zero_degree =
        free-zero (degree n.id degrees) (occurrences n.id layer) here (omega arith) in
      waits-every done n nodes there (sym (counted.counts n.id) ∙ zero_degree)

  Counted-sorted :
      (done next : List String) (degrees : Map ℕ)
      → Counted done [] next degrees
      → Counted done (sort text_le next) [] degrees
  unfolding occurrences
  Counted-sorted done next degrees counted = record {
    offered = λ y. omega (arith, counted.offered y, occurrences-sort y next);
    counts = counted.counts;
  }

  consed-some :
      (layer : List String) (rest : Option (List (List String))) (layers : List (List String))
      → consed layer rest ≡ some layers
      → (more : List (List String)) × (rest ≡ some more) × ((layer ∷ more) ≡ layers)
  unfolding consed
  consed-some layer none layers e = cc
  consed-some layer (some more) layers e = (more, refl, cc)

  layer_loop-Ordered :
      (fuel : ℕ) (done ready : List String) (degrees : Map ℕ) (layers : List (List String))
      → Counted done ready [] degrees
      → layer_loop fuel (dependents_of nodes) degrees ready ≡ some layers
      → Ordered done layers
  unfolding layer_loop
  layer_loop-Ordered fuel done [] degrees layers counted e =
      subst (Ordered done) (no_layers layers e) tt
  layer_loop-Ordered zero done (id ∷ ids) degrees layers counted e = elim (no_result layers e) [ ]
  layer_loop-Ordered (suc fuel) done (id ∷ ids) degrees layers counted e =
      let relaxed = relax_layer (dependents_of nodes) degrees [] (id ∷ ids) in
      let (more, rest, same) =
        consed-some (id ∷ ids)
          (layer_loop fuel (dependents_of nodes) relaxed.0 (sort text_le relaxed.1)) layers e in
      subst (Ordered done) same (
        Counted-ready done (id ∷ ids) degrees counted,
        layer_loop-Ordered fuel (push_all (id ∷ ids) done) (sort text_le relaxed.1) relaxed.0 more
            (Counted-sorted (push_all (id ∷ ids) done) relaxed.1 relaxed.0
              (Counted-layer done [] (id ∷ ids) degrees counted))
            rest,
      )

  abbrev is_root : String → Bool
  is_root id = nat_eq (or_else (get id (indegrees_of nodes)) 1) 0

  root-free : (y : String) → is_root y ≡ true → free (degree y (indegrees_of nodes)) ≡ 1
  unfolding free degree
  root-free y root = ground arith

  occurrences-filtered :
      (p : String → Bool) (y : String) (xs : List String)
      → occurrences y (filter_of p xs) ≡ (if p y then occurrences y xs else 0)
  unfolding occurrences
  occurrences-filtered p y [] = ground arith
  occurrences-filtered p y (x ∷ xs) = ground (arith, occurrences-filtered p y xs)

  Counted-roots : AreDistinct nodes → Counted [] (roots nodes) [] (indegrees_of nodes)
  unfolding occurrences
  Counted-roots distinct = record {
    offered = λ y.
        let sorted = occurrences-sort y (filter_of is_root (map (λ n. n.id) nodes)) in
        let filtered = occurrences-filtered is_root y (map (λ n. n.id) nodes) in
        let bound = distinct y in let root = root-free y in ground arith;
    counts = λ c. degree-indegrees_of c nodes (distinct c);
  }

  pub layers_of-Ordered :
      (layers : List (List String))
      → AreDistinct nodes
      → layers_of nodes ≡ some layers
      → Ordered [] layers
  unfolding layers_of
  layers_of-Ordered layers distinct found =
      layer_loop-Ordered (suc (length nodes)) [] (roots nodes) (indegrees_of nodes) layers
        (Counted-roots distinct) found
