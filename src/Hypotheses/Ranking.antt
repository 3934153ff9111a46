-- ===== src/Hypotheses/Ranking.antt =====
-- `created.sort(key=..., reverse=True)` of backend/app/engine/hypothesis_engine.py.
use mathlib.Core.Path.{subst}
use mathlib.Core.List.{Perm, perm_middle}
use mathlib.Core.List.Perm
use occj.Prelude.{
  All, All-branch, ◌≡◌, refl, Bool, true, false, List, [], ◌∷◌, ◌++◌, append-nil, if◌then◌else◌,
}
use occj.Models.Float.{lt_float}
use occj.Models.Float.Order.{lt_float_asym}
use occj.Models.Rows.{Hypothesis}
use occj.Hypotheses.Generate.{insert_ranked, rank_from, rank}

-- no one is surer than the one before
abbrev pub Descending : List Hypothesis → Type 0
Descending [] = Unit
Descending (h ∷ []) = Unit
Descending (h ∷ g ∷ gs) = (lt_float h.confidence g.confidence ≡ false) × Descending (g ∷ gs)

Perm-if :
    (b : Bool) {xs ys zs : List Hypothesis}
    → Perm xs zs
    → Perm ys zs
    → Perm (if b then xs else ys) zs
Perm-if true h k = h
Perm-if false h k = k

insert_ranked-Perm : (h : Hypothesis) (gs : List Hypothesis) → Perm (insert_ranked h gs) (h ∷ gs)
unfolding insert_ranked
insert_ranked-Perm h [] = Perm.refl (h ∷ [])
insert_ranked-Perm h (g ∷ gs) =
    Perm-if (lt_float g.confidence h.confidence) (Perm.refl (h ∷ g ∷ gs))
      (Perm.trans (Perm.cons g (insert_ranked-Perm h gs)) (Perm.swap h g gs))

rank_from-Perm : (ranked hs : List Hypothesis) → Perm (rank_from ranked hs) (hs ++ ranked)
unfolding rank_from
rank_from-Perm ranked [] = Perm.refl ranked
rank_from-Perm ranked (h ∷ hs) =
    Perm.trans (rank_from-Perm (insert_ranked h ranked) hs)
      (Perm.trans (Perm.append_left hs (insert_ranked-Perm h ranked)) (perm_middle hs ranked))

-- what holds of the hypotheses holds of their ranking
All-insert :
    (P : Hypothesis → Type 0) (h : Hypothesis) (hs : List Hypothesis)
    → P h
    → All P hs
    → All P (insert_ranked h hs)
unfolding insert_ranked
All-insert P h [] p q = (p, tt)
All-insert P h (g ∷ gs) p q =
    All-branch P (lt_float g.confidence h.confidence) (h ∷ g ∷ gs) (g ∷ insert_ranked h gs)
      (λ e. (p, q)) (q.0, All-insert P h gs p q.1)

pub All-rank_from :
    (P : Hypothesis → Type 0) (ranked hs : List Hypothesis)
    → All P ranked
    → All P hs
    → All P (rank_from ranked hs)
unfolding rank_from
All-rank_from P ranked [] p q = p
All-rank_from P ranked (h ∷ hs) p q =
    All-rank_from P (insert_ranked h ranked) hs (All-insert P h ranked q.0 p) q.1

-- below one that is at least as sure
insert_below :
    (g h : Hypothesis) (gs : List Hypothesis)
    → lt_float g.confidence h.confidence ≡ false
    → Descending (g ∷ gs)
    → Descending (g ∷ insert_ranked h gs)
unfolding insert_ranked
insert_below g h [] k d = (k, tt)
insert_below g h (x ∷ xs) k d =
    split (lt_float x.confidence h.confidence) refl (λ e. insert_below x h xs e d.1)
  where
    split :
        (b : Bool)
        → lt_float x.confidence h.confidence ≡ b
        → (lt_float x.confidence h.confidence ≡ false → Descending (x ∷ insert_ranked h xs))
        → Descending (g ∷ (if b then h ∷ x ∷ xs else x ∷ insert_ranked h xs))
    split true e r = (k, (lt_float_asym x.confidence h.confidence e, d.1))
    split false e r = (d.0, r e)

insert_ranked-Descending :
    (h : Hypothesis) (gs : List Hypothesis) → Descending gs → Descending (insert_ranked h gs)
unfolding insert_ranked
insert_ranked-Descending h [] d = tt
insert_ranked-Descending h (g ∷ gs) d = split (lt_float g.confidence h.confidence) refl
  where
    split :
        (b : Bool)
        → lt_float g.confidence h.confidence ≡ b
        → Descending (if b then h ∷ g ∷ gs else g ∷ insert_ranked h gs)
    split true e = (lt_float_asym g.confidence h.confidence e, d)
    split false e = insert_below g h gs e d

rank_from-Descending :
    (ranked hs : List Hypothesis) → Descending ranked → Descending (rank_from ranked hs)
unfolding rank_from
rank_from-Descending ranked [] d = d
rank_from-Descending ranked (h ∷ hs) d =
    rank_from-Descending (insert_ranked h ranked) hs (insert_ranked-Descending h ranked d)

-- Ranking leaves the hypotheses, and puts them so that none is surer than the one before it.
pub rank-Descending : (hs : List Hypothesis) → Perm (rank hs) hs × Descending (rank hs)
unfolding rank
rank-Descending hs = (
  subst (Perm (rank_from [] hs)) (append-nil hs) (rank_from-Perm [] hs),
  rank_from-Descending [] hs tt,
)
