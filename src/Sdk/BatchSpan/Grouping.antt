-- ===== src/Sdk/BatchSpan/Grouping.antt =====
-- `ExportBatch`: one `BatchHandle` for each (Resource, scope), in order of first sight.
pub mod Sorted
use microtel.Prelude.{
  ℕ, zero, suc, ◌+◌, ◌-◌, ◌≤◌, ◌<◌, ◌≡◌, refl, sym, ap, ◌∙◌, ◌⊎◌, inl, inr, Bool, true, false, ◌&&◌,
  ◌||◌, ◌==◌, if◌then◌else◌, not, List, [], ◌∷◌, ◌++◌, Option, none, some, length, length-append,
  get_elem?, arith, Bool-cases,
}
use microtel.Prelude.Bytes.{Bytes, bytes_eq, bytes_eq_iff}
use microtel.Sdk.Record.{SpanRecord, InstrumentationScope}
use microtel.Sdk.BatchSpan.{QueuedSpan}

-- The Resource's address and the scope that a group is for.
pub record Key : Type 0 where
  pub resource : ℕ
  pub name : Bytes
  pub version : Bytes

-- A null record Resource is the processor's own.
abbrev pub key_of : ℕ → QueuedSpan → Key
key_of own q = record {
  resource = elim q.span.resource [ none ↦ own | some r ↦ r ];
  name = q.scope.name;
  version = q.scope.version;
}

-- `same_group`.
pub same_key : Key → Key → Bool
same_key a b = a.resource == b.resource && bytes_eq a.name b.name && bytes_eq a.version b.version

-- `find_if` over the groups seen so far: the index of the first match.
pub index_of : Key → List Key → Option ℕ
index_of k [] = none
index_of k (j ∷ js) =
    if same_key j k then some 0 else elim (index_of k js) [ none ↦ none | some i ↦ some (suc i) ]

-- The first pass: the groups in order, and each record's group.
pub record Pass : Type 0 where
  pub groups : List Key
  pub group_of : List ℕ

first_pass : ℕ → List QueuedSpan → Pass → Pass
first_pass own [] p = p
first_pass own (q ∷ qs) p = first_pass own qs (elim (index_of (key_of own q) p.groups) [
  | some i ↦ record p { group_of = p.group_of ++ i ∷ [] }
  | none ↦ record {
    groups = p.groups ++ key_of own q ∷ [];
    group_of = p.group_of ++ length p.groups ∷ [];
  }
])

pub record BatchHandle : Type 0 where
  pub key : Key
  pub records : List SpanRecord

-- The second pass: each record goes to the end of its group.
push_at : ℕ → SpanRecord → List BatchHandle → List BatchHandle
push_at i r [] = []
push_at zero r (h ∷ hs) = record h { records = h.records ++ r ∷ [] } ∷ hs
push_at (suc i) r (h ∷ hs) = h ∷ push_at i r hs

second_pass : List ℕ → List QueuedSpan → List BatchHandle → List BatchHandle
second_pass (i ∷ is) (q ∷ qs) hs = second_pass is qs (push_at i q.span hs)
second_pass _ _ hs = hs

empty_groups : List Key → List BatchHandle
empty_groups [] = []
empty_groups (k ∷ ks) = record { key = k; records = [] } ∷ empty_groups ks

-- What the exporter is handed, `own` being the processor's Resource.
pub export_batch : ℕ → List QueuedSpan → List BatchHandle
export_batch own batch =
    let p = first_pass own batch (record { groups = []; group_of = [] }) in
    second_pass p.group_of batch (empty_groups p.groups)
