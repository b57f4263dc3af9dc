-- ===== src/Store/Trail.antt =====
-- memstore.go: what QueryAudit returns and what DeleteAuditOlderThan leaves.
use mathlib.Core.Path.{subst}
use mathlib.Core.List.{Perm}
use donkey_work_vault.Base.{
  ℕ, zero, suc, ◌+◌, ◌-◌, ◌≡◌, ◌≤◌, ◌<◌, ◌*◌, ◌==◌, ◌↔◌, not, err, Result, Option, some, ◌++◌, min,
  refl, sym, ap, ◌∙◌, arith, inl, inr, Bool, Bool-cases, true, false, List, [], ◌∷◌, none, All, ok,
  ltb, keep, keep-All, take-All, drop-All, take, drop, length, length-take, length-drop,
}
use donkey_work_vault.Base.Sort.{
  sort_slice, InOrder, sort_slice-perm, sort_slice-All, sort_slice-InOrder,
}
use donkey_work_vault.Store.Types.{AuditEntry, AuditFilter}
use donkey_work_vault.Store.Slice.{
  InOrder-drop, InOrder-take, length-sort_slice, drop-past, take-past, take-nil, take-add, drop-add,
}
use donkey_work_vault.Store.Mem.{Mem, fail}
use donkey_work_vault.Store.Mem.Audit.{matches, newer, passes, page, query_audit}

-- The rows that a query matches, newest first.
matched : AuditFilter → Mem → List AuditEntry
matched f m = sort_slice newer (keep (matches f) m.audit)

matched-InOrder : (f : AuditFilter) (m : Mem) → InOrder newer (matched f m)
unfolding matched
matched-InOrder f m = sort_slice-InOrder newer (λ a b h. ground arith) (λ a b c h k. ground arith) _

matched-All : (f : AuditFilter) (m : Mem) → All (λ e. matches f e ≡ true) (matched f m)
unfolding matched
matched-All f m = sort_slice-All newer _ _ (keep-All (matches f) m.audit)

-- The bounds that Go checks make the slice what take and drop give.
page_lem : (o l : ℕ) (es : List AuditEntry) → page o l es ≡ take l (drop o es)
unfolding page
page_lem o l es = elim (Bool-cases (ltb (length es) o)) [
  | inl past ↦
      rw
        (
          past,
          drop-past o es (ground arith),
          drop-past (length es) es (omega arith),
          take-nil l,
          take-nil,
        )
        refl
  | inr inside ↦ elim (Bool-cases (ltb (length es) (o + l))) [
    | inl cut ↦
        rw
          (
            inside,
            cut,
            take-past (length es - o) (drop o es) (omega (arith, length-drop o es)),
            take-past l (drop o es) (ground (arith, length-drop o es)),
          )
          refl
    | inr whole ↦ rw (inside, whole, add_sub o l) refl
  ]
]
  where
    add_sub : (a b : ℕ) → (a + b) - a ≡ b
    add_sub a b = omega arith

-- An optional bound holds, or there is none.
abbrev pub Given {ℓ} : {A : Type ℓ} → (A → Type 0) → Option A → Type 0
Given P none = Unit
Given P (some a) = P a

-- What a filter asks of a row: the user and the tenant, the type and the outcome where they are
-- given, and a time from `since` on and before `until`.
abbrev pub Fits : AuditFilter → AuditEntry → Type 0
Fits f e =
    (e.user_id ≡ f.user_id)
    × (e.tenant_id ≡ f.tenant_id)
    × Given (λ t. e.event_type ≡ t) f.event_type
    × Given (λ o. e.outcome ≡ o) f.outcome
    × Given (λ s. s ≤ e.created_at) f.since
    × Given (λ u. e.created_at < u) f.until

passes_iff :
    {A : Type 0} (p : A → Bool) (P : A → Type 0) (o : Option A)
    → ((a : A) → (p a ≡ true) ↔ P a)
    → (passes p o ≡ true) ↔ Given P o
passes_iff p P none h = (λ e. tt, λ u. refl)
passes_iff p P (some a) h = h a

pub matches_iff : (f : AuditFilter) (e : AuditEntry) → (matches f e ≡ true) ↔ Fits f e
unfolding matches
matches_iff f e =
    let t =
      passes_iff (λ t. e.event_type == t) (λ t. e.event_type ≡ t) f.event_type
        (λ t. ground arith) in
    let o = passes_iff (λ o. e.outcome == o) (λ o. e.outcome ≡ o) f.outcome (λ o. ground arith) in
    let s =
      passes_iff (λ s. not (ltb e.created_at s)) (λ s. s ≤ e.created_at) f.since
        (λ s. ground arith) in
    let u =
      passes_iff (λ u. ltb e.created_at u) (λ u. e.created_at < u) f.until (λ u. ground arith) in
    ground (arith, t, o, s, u)

-- No row is newer than one before it.
abbrev pub NewestFirst : List AuditEntry → Type 0
NewestFirst [] = Unit
NewestFirst (x ∷ xs) = All (λ (y : AuditEntry). y.created_at ≤ x.created_at) xs × NewestFirst xs

older-All :
    (x : AuditEntry) (xs : List AuditEntry)
    → All (λ y. newer y x ≡ false) xs
    → All (λ (y : AuditEntry). y.created_at ≤ x.created_at) xs
older-All x [] h = tt
older-All x (y ∷ ys) h = (ground (arith, h.0), older-All x ys h.1)

NewestFirst-of_InOrder : (xs : List AuditEntry) → InOrder newer xs → NewestFirst xs
NewestFirst-of_InOrder [] h = tt
NewestFirst-of_InOrder (x ∷ xs) h = (older-All x xs h.0, NewestFirst-of_InOrder xs h.1)

-- The rows are those between offset and limit of the matching ones, newest first, of which rows
-- with the same time stand in any order.
pub record IsPage (wanted : AuditEntry → Bool) (limit offset : ℕ) (es rows : List AuditEntry)
    : Type 0 where
  pub whole : List AuditEntry
  pub matching : Perm whole (keep wanted es)
  pub ordered : NewestFirst whole
  pub cut : rows ≡ take limit (drop offset whole)

page-IsPage :
    (f : AuditFilter) (m : Mem)
    → IsPage (matches f) f.limit f.offset m.audit (page f.offset f.limit (matched f m))
unfolding matched
page-IsPage f m = record {
  whole = sort_slice newer (keep (matches f) m.audit);
  matching = sort_slice-perm newer (keep (matches f) m.audit);
  ordered = NewestFirst-of_InOrder _ (matched-InOrder f m);
  cut = page_lem f.offset f.limit (matched f m);
}

-- On a store that does not fail, QueryAudit leaves the store as it is. It returns the rows between
-- offset and limit of a list that holds exactly the rows of the trail that match the filter, newest
-- first: as many as the limit and the rows behind the offset allow, all of which match. With them it
-- returns the number of all rows that match. A row matches exactly if it has the filter's user and
-- tenant, the type and outcome that it gives, and a time from `since` on and before `until`.
pub query_audit_lem :
    (f : AuditFilter) (m : Mem)
    → m.fail_next ≡ none
    → (rows : List AuditEntry) × (query_audit f m
        ≡ (ok (rows, length (keep (matches f) m.audit)), m))
      × IsPage (matches f) f.limit f.offset m.audit rows
      × NewestFirst rows
      × All (λ e. matches f e ≡ true) rows
      × (length rows ≡ min f.limit (length (keep (matches f) m.audit) - f.offset))
      × ((e : AuditEntry) → (matches f e ≡ true) ↔ Fits f e)
unfolding query_audit fail matched
query_audit_lem f m h =
    let rows_are = page_lem f.offset f.limit (matched f m) in
    (
      take f.limit (drop f.offset (matched f m)),
      rw (h, rows_are, length-sort_slice newer (keep (matches f) m.audit)) refl,
      subst (IsPage (matches f) f.limit f.offset m.audit) rows_are (page-IsPage f m),
      NewestFirst-of_InOrder _
          (InOrder-take newer f.limit _ (InOrder-drop newer f.offset _ (matched-InOrder f m))),
      take-All _ f.limit _ (drop-All _ f.offset _ (matched-All f m)),
      omega (
        arith,
        length-take f.limit (drop f.offset (matched f m)),
        length-drop f.offset (matched f m),
        length-sort_slice newer (keep (matches f) m.audit),
      ),
      matches_iff f,
    )

-- The rows of an answer, none for an error.
abbrev pub rows_of : Result (List AuditEntry × ℕ) → List AuditEntry
rows_of (ok (rows, total)) = rows
rows_of (err e) = []

-- What a client gets that asks for `n` pages of `l` rows one after the other, from `o` rows on.
pub read_pages : AuditFilter → ℕ → ℕ → ℕ → Mem → List AuditEntry
read_pages f l zero o m = []
read_pages f l (suc n) o m =
    rows_of (query_audit (record f { limit = l; offset = o }) m).0 ++ read_pages f l n (o + l) m

zero_mul : (l : ℕ) → 0 ≡ 0 * l
zero_mul l = omega arith

add_mul : (n l : ℕ) → l + n * l ≡ suc n * l
add_mul n l = omega arith

rows_of-query_audit :
    (f : AuditFilter) (l o : ℕ) (m : Mem)
    → m.fail_next ≡ none
    → rows_of (query_audit (record f { limit = l; offset = o }) m).0 ≡ take l (drop o (matched f m))
unfolding query_audit fail matched matches
rows_of-query_audit f l o m h = rw h (page_lem o l (matched f m))

read_pages-eq :
    (f : AuditFilter) (l n o : ℕ) (m : Mem)
    → m.fail_next ≡ none
    → read_pages f l n o m ≡ take (n * l) (drop o (matched f m))
unfolding read_pages
read_pages-eq f l zero o m h = ap (λ k. take k (drop o (matched f m))) (zero_mul l)
read_pages-eq f l (suc n) o m h =
    let es = drop o (matched f m) in
    ap (λ t. t ++ read_pages f l n (o + l) m) (rows_of-query_audit f l o m h)
    ∙ ap (λ t. take l es ++ t) (read_pages-eq f l n (o + l) m h)
    ∙ ap (λ t. take l es ++ take (n * l) t) (sym (drop-add o l (matched f m)))
    ∙ take-add l (n * l) es
    ∙ ap (λ k. take k es) (add_mul n l)

-- On a store that does not fail, a client that asks for one page after the other, until the pages
-- have room for all matching rows, gets each matching row once, newest first.
pub read_pages-Perm :
    (f : AuditFilter) (l n : ℕ) (m : Mem)
    → m.fail_next ≡ none
    → length (keep (matches f) m.audit) ≤ n * l
    → Perm (read_pages f l n 0 m) (keep (matches f) m.audit) × NewestFirst (read_pages f l n 0 m)
unfolding matched
read_pages-Perm f l n m h room =
    let e =
      read_pages-eq f l n 0 m h
      ∙ take-past (n * l) (matched f m)
          (omega (arith, length-sort_slice newer (keep (matches f) m.audit))) in
    (
      subst (λ t. Perm t (keep (matches f) m.audit)) (sym e) (sort_slice-perm newer _),
      subst NewestFirst (sym e) (NewestFirst-of_InOrder _ (matched-InOrder f m)),
    )
