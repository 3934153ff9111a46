-- ===== src/Replay/Order.antt =====
-- backend/app/audit/replay.py: `order_by(occurred_at, created_at)` on a trail in time order.
use occj.Prelude.{
  ℕ, ◌≡◌, refl, sym, append-nil, ap, ◌∙◌, Bool, true, false, List, [], ◌∷◌, ◌++◌, select, All,
  All-append, All-select, leb, append_assoc, if◌then◌else◌, arith,
}
use occj.Models.Rows.{AuditEntry}
use occj.Replay.{earlier, insert_entry, in_order}

-- No entry is earlier than one before it.
abbrev pub Chronological : List AuditEntry → Type 0
Chronological [] = Unit
Chronological (x ∷ xs) = All (λ y. earlier y x ≡ false) xs × Chronological xs

-- Both times of an entry are past.
abbrev pub Past : ℕ → AuditEntry → Type 0
Past now e = (leb e.occurred_at now ≡ true) × (leb e.created_at now ≡ true)

pub Chronological-snoc :
    (xs : List AuditEntry) (e : AuditEntry)
    → Chronological xs
    → All (λ x. earlier e x ≡ false) xs
    → Chronological (xs ++ e ∷ [])
Chronological-snoc [] e h k = (tt, tt)
Chronological-snoc (x ∷ xs) e h k =
    (All-append _ xs (e ∷ []) h.0 (k.0, tt), Chronological-snoc xs e h.1 k.1)

pub earlier-Past :
    (x e : AuditEntry)
    → Past e.occurred_at x
    → leb e.occurred_at e.created_at ≡ true
    → earlier e x ≡ false
unfolding earlier
earlier-Past x e h k = ground (arith, h.0, h.1)

pub Chronological-select :
    (p : AuditEntry → Bool) (xs : List AuditEntry) → Chronological xs → Chronological (select p xs)
Chronological-select p [] h = tt
Chronological-select p (x ∷ xs) h =
    split (p x) (All-select _ p xs h.0) (Chronological-select p xs h.1)
  where
    split :
        (b : Bool)
        → All (λ y. earlier y x ≡ false) (select p xs)
        → Chronological (select p xs)
        → Chronological (if b then x ∷ select p xs else select p xs)
    split true k l = (k, l)
    split false k l = l

insert_entry-last :
    (e : AuditEntry) (xs : List AuditEntry)
    → All (λ x. earlier e x ≡ false) xs
    → insert_entry e xs ≡ xs ++ e ∷ []
unfolding insert_entry
insert_entry-last e [] h = refl
insert_entry-last e (x ∷ xs) h = ground (arith, h.0, insert_entry-last e xs h.1)

-- every entry of `sorted` may stand before those of `es`
abbrev Before : List AuditEntry → List AuditEntry → Type 0
Before sorted es = All (λ e. All (λ x. earlier e x ≡ false) sorted) es

Before-snoc :
    (sorted : List AuditEntry) (e : AuditEntry) (es : List AuditEntry)
    → Before sorted es
    → All (λ y. earlier y e ≡ false) es
    → Before (sorted ++ e ∷ []) es
Before-snoc sorted e [] h k = tt
Before-snoc sorted e (y ∷ es) h k =
    (All-append _ sorted (e ∷ []) h.0 (k.0, tt), Before-snoc sorted e es h.1 k.1)

in_order-Before :
    (sorted es : List AuditEntry)
    → Before sorted es
    → Chronological es
    → in_order sorted es ≡ sorted ++ es
unfolding in_order
in_order-Before sorted [] h k = sym (append-nil sorted)
in_order-Before sorted (e ∷ es) h k =
    ap (λ xs. in_order xs es) (insert_entry-last e sorted h.0)
    ∙ in_order-Before (sorted ++ e ∷ []) es (Before-snoc sorted e es h.1 k.0) k.1
    ∙ append_assoc sorted (e ∷ []) es

Before-nil : (es : List AuditEntry) → Before [] es
Before-nil [] = tt
Before-nil (e ∷ es) = (tt, Before-nil es)

pub in_order-Chronological : (es : List AuditEntry) → Chronological es → in_order [] es ≡ es
in_order-Chronological es h = in_order-Before [] es (Before-nil es) h
