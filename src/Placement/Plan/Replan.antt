-- ===== src/Placement/Plan/Replan.antt =====
-- A plan made from the record that an earlier plan left moves nothing.
use mathlib.Core.Path.{subst}
use rke2_lab.Base.{
  String, ◌≡◌, refl, sym, ap, ◌∙◌, Option, none, some, Option-cases, inl, inr, List, [], ◌∷◌, All,
  arith, eq_iff, eq_refl,
}
use rke2_lab.Base.Dict.{Dict, lookup, insert, lookup-insert}
use rke2_lab.Py.Result.{ok, >>=-eq-ok}
use rke2_lab.Placement.Plan.{
  NodeCapacity, PlacementRequest, PlanState, plan_one, plan_loop, plan, best, start,
}
use rke2_lab.Placement.Plan.Decided.{decided, decided-insert, plan_one-pin, plan_one-fresh}
use rke2_lab.Placement.Plan.Steps.{
  Aligned, counted-Aligned, pin-ok, noted, picked, place_fresh-eq-ok,
}

-- The choices that follow from what is decided for each key.
pub assign : (String → Option String) → List PlacementRequest → Dict String → Dict String
assign d [] choices = choices
assign d (req ∷ reqs) choices =
    assign d reqs (elim (d req.key) [ none ↦ choices | some node ↦ insert req.key node choices ])

-- An assigned key keeps its node.
assign_keeps :
    (d : String → Option String) (reqs : List PlacementRequest) (choices : Dict String)
    (k n : String)
    → d k ≡ some n
    → lookup k choices ≡ some n
    → lookup k (assign d reqs choices) ≡ some n
unfolding assign
assign_keeps d [] choices k n e h = h
assign_keeps d (req ∷ reqs) choices k n e h = elim (Option-cases (d req.key)) [
  | inl none_yet ↦ rw none_yet (assign_keeps d reqs choices k n e h)
  | inr (m, some_m) ↦ rw some_m (
      assign_keeps d reqs (insert req.key m choices) k n e
        (rw lookup-insert (ground (arith, eq_iff req.key k))))
]

lookup-assign :
    (d : String → Option String) (reqs : List PlacementRequest) (choices : Dict String)
    → All (λ r. (n : String) × (d r.key ≡ some n)) reqs
    → All
        (λ r. (n : String) × (lookup r.key (assign d reqs choices) ≡ some n) × (d r.key ≡ some n))
        reqs
unfolding assign
lookup-assign d [] choices known = tt
lookup-assign d (req ∷ reqs) choices ((n, e), known) = (
  (n, rw e (assign_keeps d reqs _ req.key n e (rw lookup-insert (rw eq_refl))), e),
  lookup-assign d reqs
      (elim (d req.key) [ none ↦ choices | some node ↦ insert req.key node choices ]) known,
)

abbrev pub Grows : (before after : String → Option String) → Type 0
Grows before after = (k n : String) → before k ≡ some n → after k ≡ some n

-- The entry in the record of a key that is decided before stays what it was, or stays missing.
abbrev pub Untouched : (overrides before after : Dict String) → Type 0
Untouched overrides before after =
    (k n : String) → decided overrides before k ≡ some n → lookup k after ≡ lookup k before

module _ (caps : Dict NodeCapacity) (overrides : Dict String) where
  pub record Step (req : PlacementRequest) (s s' : PlanState) : Type 0 where
    pub node : String
    pub chosen : s'.choices ≡ insert req.key node s.choices
    pub known : decided overrides s'.placements req.key ≡ some node
    pub grows : Grows (decided overrides s.placements) (decided overrides s'.placements)
    pub untouched : Untouched overrides s.placements s'.placements
    pub aligned : Aligned s'

  pub plan_one-Step :
      (req : PlacementRequest) (s : PlanState) {s' : PlanState}
      → Aligned s
      → plan_one caps overrides req s ≡ ok s'
      → Step req s s'
  plan_one-Step req s {s'} a h = elim (Option-cases (decided overrides s.placements req.key)) [
    | inr (node, d) ↦
        let (t, e, c, p, l) = pin-ok node req s a in
        let same : t ≡ s' = ground (arith, h, e, plan_one-pin caps overrides req s node d) in
        rw same at (
          let r : Step req s t = record {
            node = node;
            chosen = c;
            known = rw p d;
            grows = λ k n q. rw p q;
            untouched = λ k n q. ap (lookup k) p;
            aligned = l;
          } in
          r)
    | inl d ↦
        let (c, cs, ram, disk, e, er, ed, q) =
          place_fresh-eq-ok req caps s (rw (plan_one-fresh caps overrides req s d) at h) in
        let node = (best c cs).name in
        let r : Step req s (picked req node ram disk s) = record {
          node = node;
          chosen = refl;
          known = rw (decided-insert overrides s.placements req.key node req.key d) (rw eq_refl);
          grows = λ k n w.
              rw (decided-insert overrides s.placements req.key node k d)
                (ground (arith, d, w, eq_iff req.key k));
          untouched = λ k n w.
              rw (lookup-insert req.key k node s.placements)
                (ground (arith, d, w, eq_iff req.key k));
          aligned = counted-Aligned node req ram disk (noted req node s) a;
        } in
        rw (sym q) at r
  ]

  record Run (reqs : List PlacementRequest) (s s' : PlanState) : Type 0 where
    chosen : s'.choices ≡ assign (decided overrides s'.placements) reqs s.choices
    known : All (λ r. (n : String) × (decided overrides s'.placements r.key ≡ some n)) reqs
    pub grows : Grows (decided overrides s.placements) (decided overrides s'.placements)
    pub untouched : Untouched overrides s.placements s'.placements

  plan_loop-Run :
      (reqs : List PlacementRequest) (s : PlanState) {s' : PlanState}
      → Aligned s
      → plan_loop caps overrides reqs s ≡ ok s'
      → Run reqs s s'
  unfolding plan_loop assign
  plan_loop-Run [] s {s'} a h =
      let same : s ≡ s' = ground (arith, h) in
      let r : Run [] s s = record {
        chosen = refl;
        known = tt;
        grows = λ k n w. w;
        untouched = λ k n w. refl;
      } in
      rw (← same) r
  plan_loop-Run (req ∷ reqs) s {s'} a h =
      let (s1, e, t) = >>=-eq-ok (plan_one caps overrides req s) _ h in
      let one = plan_one-Step req s a e in
      let rest = plan_loop-Run reqs s1 one.aligned t in
      let k = rest.grows req.key one.node one.known in
      record {
        chosen = rest.chosen ∙ rw (k, one.chosen);
        known = ((one.node, k), rest.known);
        grows = λ k n w. rest.grows k n (one.grows k n w);
        untouched = λ k n w. rest.untouched k n (one.grows k n w) ∙ one.untouched k n w;
      }

  -- Where every key is decided, the loop returns, and leaves the record as it was.
  pub plan_loop_known :
      (reqs : List PlacementRequest) (s : PlanState)
      → Aligned s
      → All (λ r. (n : String) × (decided overrides s.placements r.key ≡ some n)) reqs
      → (s' : PlanState) × (plan_loop caps overrides reqs s ≡ ok s')
        × (s'.choices ≡ assign (decided overrides s.placements) reqs s.choices)
        × (s'.placements ≡ s.placements)
  unfolding plan_loop assign
  plan_loop_known [] s a known = (s, refl, refl, refl)
  plan_loop_known (req ∷ reqs) s a ((node, d), known) =
      let (s1, e, c, p, a1) = pin-ok node req s a in
      let (s2, e2, c2, p2) = plan_loop_known reqs s1 a1 (rw p known) in
      (s2, rw (plan_one-pin caps overrides req s node d, e) e2, rw d (c2 ∙ rw (p, c)), p2 ∙ p)

pub start-Aligned :
    (caps : Dict NodeCapacity) (placements : Dict String) → Aligned (start caps placements)
start-Aligned caps placements n = refl

module _ (reqs : List PlacementRequest) (caps : Dict NodeCapacity)
    (placements overrides : Dict String) {choices placements' : Dict String}
    (planned : plan reqs caps placements overrides ≡ ok (choices, placements')) where
  -- The loop behind a plan, and what its end state says.
  plan-Run :
      (s : PlanState) × Run caps overrides reqs (start caps placements) s
      × (s.choices ≡ choices)
      × (s.placements ≡ placements')
  unfolding plan
  plan-Run =
      let (s, e, r) = >>=-eq-ok (plan_loop caps overrides reqs (start caps placements)) _ planned in
      (
        s,
        plan_loop-Run caps overrides reqs _ (start-Aligned caps placements) e,
        ground (arith, r),
        ground (arith, r),
      )

  -- Planning again from the record that a plan left returns the same choices and the same record,
  -- whatever headroom the nodes report then, and never raises.
  pub replan_stable :
      (caps' : Dict NodeCapacity)
      → plan reqs caps' placements' overrides ≡ ok (choices, placements')
  unfolding plan
  replan_stable caps' =
      let (s, run, c, p) = plan-Run in
      let (t, e, ct, pt) =
        plan_loop_known caps' overrides reqs (start caps' placements')
          (start-Aligned caps' placements') (rw p at run.known) in
      rw e (ground (arith, ct, pt, c, rw p at run.chosen))

  -- Every request gets a node. It is the override's where there is one, else the one that the
  -- record holds afterwards. A key that had an override or a record entry before keeps what was
  -- decided for it, and the record says of it what it said before: an entry is neither lost nor
  -- changed, and an override adds none.
  pub plan_precedence :
      All
        (λ r.
          (n : String) × (lookup r.key choices ≡ some n)
          × (decided overrides placements' r.key ≡ some n))
        reqs
      × ((key node : String)
          → decided overrides placements key ≡ some node
          → (decided overrides placements' key ≡ some node)
            × (lookup key placements' ≡ lookup key placements))
  plan_precedence =
      let (s, run, c, p) = plan-Run in
      let d = decided overrides s.placements in
      let all : All
          (λ r. (n : String) × (lookup r.key (assign d reqs []) ≡ some n) × (d r.key ≡ some n))
          reqs =
        lookup-assign d reqs [] run.known in
      let same : assign d reqs [] ≡ choices = sym run.chosen ∙ c in
      let moved : All (λ r. (n : String) × (lookup r.key choices ≡ some n) × (d r.key ≡ some n))
          reqs =
        subst (λ ch. All (λ r. (n : String) × (lookup r.key ch ≡ some n) × (d r.key ≡ some n)) reqs)
          same all in
      (
        subst
            (λ pl.
              All
                (λ r.
                  (n : String) × (lookup r.key choices ≡ some n)
                  × (decided overrides pl r.key ≡ some n))
                reqs)
            p moved,
        λ key node h. (rw p at (run.grows key node h), rw p at (run.untouched key node h)),
      )
