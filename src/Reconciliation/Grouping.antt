-- ===== src/Reconciliation/Grouping.antt =====
-- What `detect_uncertainty` of backend/app/reconciliation/reconciler.py collects flags in, and its
-- groups of evidence.
use occj.Prelude.{
  String, Bool, true, false, ◌&&◌, Option, List, [], ◌∷◌, ◌++◌, map, all, select, contains, ◌==◌,
  eq_string, eq_option, if◌then◌else◌,
}
use occj.Models.Enums.{SourceType, eq_source_type, UncertaintyFlagType}
use occj.Models.Json.{Json, arr, obj, get, is_str}
use occj.Models.Rows.{EvidenceRecord}

-- A flag that has no key yet.
pub record Draft : Type 0 where
  pub flag_type : UncertaintyFlagType
  pub related : List String
  pub description : String

-- `new_flags` and `open_descriptions`
pub record Found : Type 0 where
  pub new_flags : List Draft
  pub open_descriptions : List String

unfoldable pub add_flag : Draft → Found → Found
add_flag d f = if contains f.open_descriptions d.description then f else record {
  new_flags = f.new_flags ++ d ∷ [];
  open_descriptions = d.description ∷ f.open_descriptions;
}

abbrev pub Group : Type 0
Group = Option String × List EvidenceRecord

-- `groups.setdefault(rec.order_id, []).append(rec)`
unfoldable pub append_to : EvidenceRecord → List Group → List Group
append_to r [] = (r.order_id, r ∷ []) ∷ []
append_to r ((o, rs) ∷ gs) =
    let rest = (o, rs) ∷ append_to r gs in if o == r.order_id then (o, rs ++ r ∷ []) ∷ gs else rest

unfoldable pub group_from : List Group → List EvidenceRecord → List Group
unfolding append_to
group_from gs [] = gs
group_from gs (r ∷ rs) = group_from (append_to r gs) rs

unfoldable pub by_order : List EvidenceRecord → List Group
unfolding group_from
by_order = group_from []

-- `groups.get(order_id, [])`
unfoldable pub group_at : List Group → Option String → List EvidenceRecord
group_at [] o = []
group_at ((p, rs) ∷ gs) o = let rest = group_at gs o in if p == o then rs else rest

abbrev pub of_source : SourceType → List EvidenceRecord → List EvidenceRecord
of_source t = select (λ r. r.source_type == t)

abbrev pub has_status : String → EvidenceRecord → Bool
has_status status r = is_str (get r.payload "status") status

abbrev pub keys : List EvidenceRecord → List String
keys = map (λ r. r.id)

-- A list or a dictionary is not hashable: looking it up in a set raises.
abbrev pub hashable : Json → Bool
hashable (arr vs) = false
hashable (obj fs) = false
hashable _ = true

abbrev pub lookups_hashable : List EvidenceRecord → Bool
lookups_hashable evidence =
    all (λ r. hashable (get r.payload "status")) (of_source SourceType.fulfillment_update evidence)
    && all (λ r. hashable (get r.payload "disposition"))
        (of_source SourceType.contact_center_record evidence)
