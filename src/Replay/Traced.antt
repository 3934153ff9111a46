-- ===== src/Replay/Traced.antt =====
-- backend/app/audit: the agreement of a case with its trail, write by write.
use mathlib.Core.Path.{subst}
use occj.Prelude.{
  ℕ, ◌+◌, String, ◌≡◌, sym, ap, ◌∙◌, inl, inr, true, false, some, List, [], ◌∷◌, ◌++◌, select,
  first, first-update, first-update-other, update, All, All-append, All-map, leb, Bool-cases, ◌==◌,
  eq_string, eq_option, arith,
}
use occj.Models.Enums.{JourneyStage}
use occj.Models.Rows.{Case, AuditEntry}
use occj.Session.{Db, Supply}
use occj.Session.Steps.{Relation}
use occj.Session.Tables.{find_case, assign_case}
use occj.Audit.{Event}
use occj.Audit.Runs.{stamped, audited}
use occj.Replay.{Replay, of_case, replay_entry}
use occj.Replay.Fold.{stage_of, is_move, StageIs, StageIs-move, StageIs-other}
use occj.Replay.Order.{Chronological, Chronological-snoc, Past, earlier-Past}

module _ (env : Supply) (cid : String) where
  pub record Traced (s : Db) : Type 0 where
    pub case : Case
    pub found : find_case cid s ≡ some case
    pub replayed : StageIs case.stage (select (of_case cid) s.audit)
    pub ordered : Chronological s.audit
    pub past : All (Past (env.clock s.reads)) s.audit

  abbrev pub Tracing : Relation
  Tracing = record {
    rel = λ s t. Traced s → Traced t;
    reflexive = λ s h. h;
    transitive = λ s t u h k g. k (h g);
  }

  module _ (tick : (n : ℕ) → leb (env.clock n) (env.clock (n + 1)) ≡ true) where
    pub Past-later :
        (n : ℕ) (es : List AuditEntry)
        → All (Past (env.clock n)) es
        → All (Past (env.clock (n + 1))) es
    Past-later n = All-map (λ e h. (ground (arith, h.0, tick n), ground (arith, h.1, tick n)))

    pub Traced-utcnow : (s : Db) → Traced s → Traced (record s { reads = s.reads + 1 })
    unfolding find_case
    Traced-utcnow s h = record {
      case = h.case;
      found = h.found;
      replayed = h.replayed;
      ordered = h.ordered;
      past = Past-later s.reads s.audit h.past;
    }

    pub Chronological-audited :
        (e : Event) (s : Db)
        → Chronological s.audit
        → All (Past (env.clock s.reads)) s.audit
        → Chronological (audited env e s).audit
    Chronological-audited e s g h =
        Chronological-snoc s.audit (stamped env e s) g
          (All-map (λ x k. earlier-Past x (stamped env e s) k (tick s.reads)) s.audit h)

    pub Past-audited :
        (e : Event) (s : Db)
        → All (Past (env.clock s.reads)) s.audit
        → All (Past (env.clock (audited env e s).reads)) (audited env e s).audit
    Past-audited e s h =
        All-append _ s.audit (stamped env e s ∷ [])
          (Past-later (s.reads + 1) s.audit (Past-later s.reads s.audit h))
          ((ground (arith, tick s.reads, tick (s.reads + 1)), tick (s.reads + 1)), tt)

    pub select-snoc-in :
        (es : List AuditEntry) (e : AuditEntry)
        → of_case cid e ≡ true
        → select (of_case cid) (es ++ e ∷ []) ≡ select (of_case cid) es ++ e ∷ []
    select-snoc-in [] e h = ground (arith, h)
    select-snoc-in (x ∷ es) e h = ground (arith, select-snoc-in es e h)

    select-snoc-out :
        (es : List AuditEntry) (e : AuditEntry)
        → of_case cid e ≡ false
        → select (of_case cid) (es ++ e ∷ []) ≡ select (of_case cid) es
    select-snoc-out [] e h = ground (arith, h)
    select-snoc-out (x ∷ es) e h = ground (arith, select-snoc-out es e h)

    -- an entry that does not move the case
    StageIs-snoc :
        (st : JourneyStage) (es : List AuditEntry) (e : AuditEntry)
        → (of_case cid e ≡ true → is_move e ≡ false)
        → StageIs st (select (of_case cid) es)
        → StageIs st (select (of_case cid) (es ++ e ∷ []))
    StageIs-snoc st es e h k = elim (Bool-cases (of_case cid e)) [
      | inl m ↦
          subst (StageIs st) (sym (select-snoc-in es e m))
            (StageIs-other st (select (of_case cid) es) e (h m) k)
      | inr m ↦ subst (StageIs st) (sym (select-snoc-out es e m)) k
    ]

    pub Traced-audited :
        (e : Event) (s : Db)
        → is_move (stamped env e s) ≡ false
        → Traced s
        → Traced (audited env e s)
    unfolding find_case
    Traced-audited e s h k = record {
      case = k.case;
      found = k.found;
      replayed = StageIs-snoc k.case.stage s.audit (stamped env e s) (λ _. h) k.replayed;
      ordered = Chronological-audited e s k.ordered k.past;
      past = Past-audited e s k.past;
    }

    differs : (a b c : String) → b == c ≡ false → a == b ≡ true → a == c ≡ false
    differs a b c h k = ground (arith, h, (eq_string.beq_iff a b).0 k)

    module _ (key : String) (f : Case → Case) (s : Db) (ids : (r : Case) → (f r).id ≡ r.id) where
      find_case-assign_other :
          key == cid ≡ false → find_case cid (assign_case key f s) ≡ find_case cid s
      unfolding find_case assign_case
      find_case-assign_other h =
          first-update-other (λ r. r.id == cid) (λ r. r.id == key) f s.cases
            λ r k. (
              differs r.id key cid h k,
              differs (f r).id key cid h (ap (λ x. x == key) (ids r) ∙ k),
            )

      find_case-assign_same :
          (c : Case)
          → key ≡ cid
          → find_case cid s ≡ some c
          → find_case cid (assign_case key f s) ≡ some (f c)
      unfolding find_case assign_case
      find_case-assign_same c h k =
          subst (λ x. first (λ r. r.id == cid) (update (λ r. r.id == x) f s.cases) ≡ some (f c))
            (sym h)
            (first-update (λ r. r.id == cid) f s.cases c (λ r q. ap (λ x. x == cid) (ids r) ∙ q) k)

      -- an assignment and the entry that records it, which together move a case to a stage
      pub Traced-moved :
          (st : JourneyStage) (e : Event)
          → ((r : Case) → (f r).stage ≡ st)
          → e.case_id ≡ some key
          → ((r : Replay)
              → stage_of (replay_entry r (stamped env e (assign_case key f s))) ≡ some st)
          → Traced s
          → Traced (audited env e (assign_case key f s))
      unfolding find_case assign_case
      Traced-moved st e h k m t = elim (Bool-cases (key == cid)) [
        | inl q ↦ record {
          case = f t.case;
          found = find_case-assign_same t.case ((eq_string.beq_iff key cid).0 q) t.found;
          replayed =
              subst (λ es. StageIs (f t.case).stage es)
                (sym (
                  select-snoc-in s.audit (stamped env e (assign_case key f s))
                    (ground (arith, k, q))))
                (subst
                  (λ x.
                    StageIs x
                      (select (of_case cid) s.audit ++ stamped env e (assign_case key f s) ∷ []))
                  (sym (h t.case)) (StageIs-move st t.case.stage _ _ m t.replayed));
          ordered = Chronological-audited e (assign_case key f s) t.ordered t.past;
          past = Past-audited e (assign_case key f s) t.past;
        }
        | inr q ↦ record {
          case = t.case;
          found = find_case-assign_other q ∙ t.found;
          replayed =
              StageIs-snoc t.case.stage s.audit (stamped env e (assign_case key f s))
                (λ z. ground (arith, k, q, z)) t.replayed;
          ordered = Chronological-audited e (assign_case key f s) t.ordered t.past;
          past = Past-audited e (assign_case key f s) t.past;
        }
      ]

      pub Traced-assign_case :
          ((r : Case) → (f r).stage ≡ r.stage) → Traced s → Traced (assign_case key f s)
      unfolding assign_case
      Traced-assign_case h t = elim (Bool-cases (key == cid)) [
        | inl k ↦ record {
          case = f t.case;
          found = find_case-assign_same t.case ((eq_string.beq_iff key cid).0 k) t.found;
          replayed =
              subst (λ st. StageIs st (select (of_case cid) s.audit)) (sym (h t.case)) t.replayed;
          ordered = t.ordered;
          past = t.past;
        }
        | inr k ↦ record {
          case = t.case;
          found = find_case-assign_other k ∙ t.found;
          replayed = t.replayed;
          ordered = t.ordered;
          past = t.past;
        }
      ]
