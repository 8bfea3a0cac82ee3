-- ===== src/Placement/Plan/Refines.antt =====
-- `_plan` implements the moves of a board.
pub mod Counters
use mathlib.Core.Path.{subst}
use rke2_lab.Base.{
  String, ◌≡◌, refl, sym, ap, ◌∙◌, ◌⊎◌, inl, inr, none, some, Option-cases, List, [], ◌∷◌, ◌++◌,
  All, All-mem, arith, eq_refl, ◌==◌, if◌then◌else◌,
}
use rke2_lab.Base.Dict.{Dict, lookup, insert, lookup-insert}
use rke2_lab.Py.Result.{ok, err}
use rke2_lab.Placement.Plan.{
  NodeCapacity, PlacementRequest, PlanState, Candidate, plan_one, plan_loop, plan, start,
  no_feasible_node,
}
use rke2_lab.Placement.Plan.Best.{IsNoWorse}
use rke2_lab.Placement.Plan.Fit.{Counted, Fits, used, remaining}
use rke2_lab.Placement.Plan.Decided.{decided, plan_one-pin, plan_one-fresh}
use rke2_lab.Placement.Plan.Fresh.{place_fresh-Pick, place_fresh_total}
use rke2_lab.Placement.Plan.Load.{Use, plan_one-Use}
use rke2_lab.Placement.Plan.Steps.{Aligned, pin-ok}
use rke2_lab.Placement.Plan.Capacity.{Counted-use}
use rke2_lab.Placement.Plan.Start.{start-Counted, used-zeros}
use rke2_lab.Placement.Plan.Replan.{plan_one-Step, start-Aligned}
use rke2_lab.Placement.Plan.Board.{
  Board, opening, known_to, give, write_down, spare, Move, known, fresh, Stuck, Moves, done, next,
}
use rke2_lab.Placement.Plan.Refines.Counters.{
  Loads, Loads-give, Loads-remaining, spare-best, spare_none,
}

module _ (caps : Dict NodeCapacity) (overrides : Dict String) where
  -- A state of the planner as the board shows it.
  record Shows (b : Board) (s : PlanState) : Type 0 where
    aligned : Aligned s
    counters : Counted s caps
    loads : Loads b s caps
    choices : (k : String) → lookup k s.choices ≡ b.chosen k
    placements : (k : String) → lookup k s.placements ≡ b.recorded k

  Shows-known :
      {b : Board} {s : PlanState} (key : String)
      → Shows b s
      → decided overrides s.placements key ≡ known_to overrides b key
  unfolding decided
  Shows-known key h = ground (arith, h.placements key)

  Shows-give :
      (node : String) (req : PlacementRequest) (b : Board) {s s' : PlanState}
      → Shows b s
      → Aligned s'
      → (u : Use req s s') → u.node ≡ node
      → s'.choices ≡ insert req.key node s.choices
      → s'.placements ≡ s.placements
      → Shows (give node req b) s'
  Shows-give node req b {s} h a u e c p = record {
    aligned = a;
    counters = Counted-use caps overrides caps u h.counters;
    loads = Loads-give node req b u caps e h.counters h.loads;
    choices = λ k. rw (c, lookup-insert) (ground (arith, h.choices k));
    placements = λ k. rw p (h.placements k);
  }

  Shows-write_down :
      (node : String) (req : PlacementRequest) (b : Board) {s s' : PlanState}
      → Shows b s
      → Aligned s'
      → (u : Use req s s') → u.node ≡ node
      → s'.choices ≡ insert req.key node s.choices
      → s'.placements ≡ insert req.key node s.placements
      → Shows (write_down node req (give node req b)) s'
  Shows-write_down node req b {s} h a u e c p = record {
    aligned = a;
    counters = Counted-use caps overrides caps u h.counters;
    loads = Loads-give node req b u caps e h.counters h.loads;
    choices = λ k. rw (c, lookup-insert) (ground (arith, h.choices k));
    placements = λ k. rw (p, lookup-insert) (ground (arith, h.placements k));
  }

  Use-node :
      (node : String) (req : PlacementRequest) {s s' : PlanState} (u : Use req s s')
      → s'.choices ≡ insert req.key node s.choices
      → u.node ≡ node
  Use-node node req {s} u c =
      let same : insert req.key u.node s.choices ≡ insert req.key node s.choices =
        sym u.chosen ∙ c in
      let found : (if req.key == req.key then some u.node else lookup req.key s.choices)
          ≡ (if req.key == req.key then some node else lookup req.key s.choices) =
        sym (lookup-insert req.key req.key u.node s.choices)
        ∙ ap (lookup req.key) same
        ∙ lookup-insert req.key req.key node s.choices in
      ground (arith, found, eq_refl req.key)

  fresh-Move :
      (req : PlacementRequest) (b : Board) (s t : PlanState)
      → Shows b s
      → decided overrides s.placements req.key ≡ none
      → plan_one caps overrides req s ≡ ok t
      → (b' : Board) × Move caps overrides req b b' × Shows b' t
  fresh-Move req b s t h d e =
      let p =
        place_fresh-Pick caps req s h.counters (sym (plan_one-fresh caps overrides req s d) ∙ e) in
      let (entry, listed, chosen, fits) = p.considered in
      let same =
        All-mem (λ e. remaining s e ≡ spare b e) caps (Loads-remaining req b s caps h.loads)
          listed in
      let u = plan_one-Use caps overrides req s e in
      let a = (plan_one-Step caps overrides req s h.aligned e).aligned in
      let node : p.chosen.name ≡ entry.0 = ap (λ (c : Candidate). c.name) chosen in
      let c : t.choices ≡ insert req.key entry.0 s.choices =
        ap (λ (s : PlanState). s.choices) p.after ∙ ap (λ n. insert req.key n s.choices) node in
      let r : t.placements ≡ insert req.key entry.0 s.placements =
        ap (λ (s : PlanState). s.placements) p.after
        ∙ ap (λ n. insert req.key n s.placements) node in
      (
        write_down entry.0 req (give entry.0 req b),
        fresh entry (sym (Shows-known req.key h) ∙ d) listed (subst (Fits req) (chosen ∙ same) fits)
            (spare-best req b s p.chosen (spare b entry) caps (chosen ∙ same) h.loads p.best_fit),
        Shows-write_down entry.0 req b h a u (Use-node entry.0 req u c) c r,
      )

  -- One request: a move of the board, or no move is left.
  plan_one-Move :
      (req : PlacementRequest) (b : Board) (s : PlanState)
      → Shows b s
      → ((s' : PlanState) × (b' : Board) × (plan_one caps overrides req s ≡ ok s')
          × Move caps overrides req b b'
          × Shows b' s')
        ⊎ ((plan_one caps overrides req s ≡ err (no_feasible_node req))
            × Stuck caps overrides req b)
  plan_one-Move req b s h = elim (Option-cases (decided overrides s.placements req.key)) [
    | inr (node, d) ↦
        let (t, e, c, p, a) = pin-ok node req s h.aligned in
        let returned = plan_one-pin caps overrides req s node d ∙ e in
        let u = plan_one-Use caps overrides req s returned in
        inl (
          t,
          give node req b,
          returned,
          known node (sym (Shows-known req.key h) ∙ d),
          Shows-give node req b h a u (Use-node node req u c) c p,
        )
    | inl d ↦
        let unknown = sym (Shows-known req.key h) ∙ d in
        elim (place_fresh_total caps req s h.counters) [
          | inr (e, k) ↦ inr (
            plan_one-fresh caps overrides req s d ∙ e,
            record { unknown = unknown; none_fits = spare_none req b s caps h.loads k },
          )
          | inl (t, e) ↦
              let returned = plan_one-fresh caps overrides req s d ∙ e in
              let (b', move, shown) = fresh-Move req b s t h d returned in
              inl (t, b', returned, move, shown)
        ]
  ]

  -- The requests in order: moves of the board up to the last, or up to one that has no move left.
  plan_loop-Moves :
      (reqs : List PlacementRequest) (b : Board) (s : PlanState)
      → Shows b s
      → ((s' : PlanState) × (b' : Board) × (plan_loop caps overrides reqs s ≡ ok s')
          × Moves caps overrides reqs b b'
          × Shows b' s')
        ⊎ ((first rest : List PlacementRequest) × (req : PlacementRequest) × (b' : Board) × (reqs
              ≡ first ++ req ∷ rest)
            × Moves caps overrides first b b'
            × Stuck caps overrides req b'
            × (plan_loop caps overrides reqs s ≡ err (no_feasible_node req)))
  unfolding plan_loop
  plan_loop-Moves [] b s h = inl (s, b, refl, done b, h)
  plan_loop-Moves (req ∷ reqs) b s h = elim (plan_one-Move req b s h) [
    | inr (e, stuck) ↦ inr ([], reqs, req, b, refl, done b, stuck, rw e refl)
    | inl (s1, b1, e, move, shown) ↦ elim (plan_loop-Moves reqs b1 s1 shown) [
      | inl (s2, b2, e2, moves, shown2) ↦
          inl (s2, b2, rw e e2, next req reqs b b1 b2 move moves, shown2)
      | inr (first, rest, last, b2, split, moves, stuck, e2) ↦ inr (
        req ∷ first,
        rest,
        last,
        b2,
        ap (λ l. req ∷ l) split,
        next req first b b1 b2 move moves,
        stuck,
        rw e e2,
      )
    ]
  ]

  opening-Shows : (placements : Dict String) → Shows (opening placements) (start caps placements)
  unfolding lookup
  opening-Shows placements = record {
    aligned = start-Aligned caps placements;
    counters = start-Counted caps placements;
    loads = go caps;
    choices = λ k. refl;
    placements = λ k. refl;
  }
    where
      go :
          (entries : Dict NodeCapacity) → Loads (opening placements) (start caps placements) entries
      go [] = tt
      go ((node, _) ∷ entries) = ((used-zeros caps node, used-zeros caps node), go entries)

-- The planner implements the board. Either it returns, and what it returns is what a board shows after
-- one move for each request, in order, from the record that was given; or it raises the error that
-- names a request, and the requests before this one are moves of the board to where this one has no
-- move left. A fresh move needs room for the bare footprint, without a margin.
pub plan_refines :
    (reqs : List PlacementRequest) (caps : Dict NodeCapacity) (placements overrides : Dict String)
    → ((choices placements' : Dict String) × (b : Board) × (plan reqs caps placements overrides
          ≡ ok (choices, placements'))
        × Moves caps overrides reqs (opening placements) b
        × ((k : String) → lookup k choices ≡ b.chosen k)
        × ((k : String) → lookup k placements' ≡ b.recorded k))
      ⊎ ((first rest : List PlacementRequest) × (req : PlacementRequest) × (b : Board) × (reqs
            ≡ first ++ req ∷ rest)
          × Moves caps overrides first (opening placements) b
          × Stuck caps overrides req b
          × (plan reqs caps placements overrides ≡ err (no_feasible_node req)))
unfolding plan
plan_refines reqs caps placements overrides =
    elim (plan_loop-Moves caps overrides reqs (opening placements) (start caps placements)
      (opening-Shows caps overrides placements)) [
        | inl (s, b, e, moves, shown) ↦
            inl (s.choices, s.placements, b, rw e refl, moves, shown.choices, shown.placements)
        | inr (first, rest, req, b, split, moves, stuck, e) ↦
            inr (first, rest, req, b, split, moves, stuck, rw e refl)
      ]
