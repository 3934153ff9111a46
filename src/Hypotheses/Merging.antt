-- ===== src/Hypotheses/Merging.antt =====
-- `_merge_by_category` of backend/app/engine/hypothesis_engine.py.
use occj.Prelude.{
  String, ◌≡◌, refl, sym, ap, ◌∙◌, inl, inr, ◌||◌, List, [], ◌∷◌, ◌++◌, map, append-nil,
  append_assoc, contains, dedup, dedup_from, Bool-cases, eq_string, if◌then◌else◌, arith,
}
use occj.Env.{Env, Spec}
use occj.Hypotheses.Specs.{
  Merged, category_name, entry_of, join, merge_into, merge_from, merge_by_category,
}

abbrev pub categories : List Merged → List String
categories = map (λ (m : Merged). m.category)

contains-append :
    (xs ys : List String) (x : String) → contains (xs ++ ys) x ≡ (contains xs x || contains ys x)
contains-append [] ys x = refl
contains-append (y ∷ xs) ys x = ground (arith, contains-append xs ys x)

module _ (env : Env) where
  merge_into-categories :
      (ms : List Merged) (spec : Spec)
      → categories (merge_into env ms spec) ≡ (
          if contains (categories ms) (category_name env spec)
          then categories ms
          else categories ms ++ category_name env spec ∷ [])
  unfolding merge_into entry_of join
  merge_into-categories [] spec = refl
  merge_into-categories (m ∷ ms) spec = ground (arith, merge_into-categories ms spec)

  merge_from-categories :
      (ms : List Merged) (specs : List Spec) (seen : List String)
      → ((x : String) → contains seen x ≡ contains (categories ms) x)
      → categories (merge_from env ms specs)
        ≡ categories ms ++ dedup_from seen (map (category_name env) specs)
  unfolding merge_from
  merge_from-categories ms [] seen h = sym (append-nil (categories ms))
  merge_from-categories ms (spec ∷ specs) seen h =
      elim (Bool-cases (contains (categories ms) (category_name env spec))) [
        | inl k ↦
            let same : categories (merge_into env ms spec) ≡ categories ms =
              ground (arith, merge_into-categories ms spec, k) in
            merge_from-categories (merge_into env ms spec) specs seen
              (λ x. h x ∙ ap (λ cs. contains cs x) (sym same))
            ∙ ground (arith, same, h (category_name env spec), k)
        | inr k ↦
            let same : categories (merge_into env ms spec)
                ≡ categories ms ++ category_name env spec ∷ [] =
              ground (arith, merge_into-categories ms spec, k) in
            merge_from-categories (merge_into env ms spec) specs (category_name env spec ∷ seen)
              (λ x. ground (
                arith,
                h x,
                contains-append (categories ms) (category_name env spec ∷ []) x,
                ap (λ cs. contains cs x) same,
              ))
            ∙ ap
                (λ cs.
                  cs ++ dedup_from (category_name env spec ∷ seen) (map (category_name env) specs))
                same
            ∙ append_assoc (categories ms) (category_name env spec ∷ []) _
            ∙ ground (arith, h (category_name env spec), k)
      ]

  -- The merged proposals have the categories of the proposals, each once, in the order in which they
  -- first occur.
  pub merge_by_category-dedup :
      (specs : List Spec)
      → categories (merge_by_category env specs) ≡ dedup (map (category_name env) specs)
  unfolding merge_by_category
  merge_by_category-dedup specs = merge_from-categories [] specs [] (λ x. refl)
