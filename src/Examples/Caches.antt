-- ===== src/Examples/Caches.antt =====
-- The cache of open views and the order statistics of a snapshot, at concrete inputs.
use datalog_dafsa.Base.{
  true, ℕ, ◌≤◌, ◌<◌, ◌≡◌, ◌≢◌, refl, Option, none, some, false, List, [], ◌∷◌, if◌then◌else◌, ◌==◌,
  length, arith, ◌⊎◌, ==_ne,
}
use datalog_dafsa.TupleSet.{Row}
use datalog_dafsa.TxnWal.{Bytes}
use datalog_dafsa.Relation.Reads.{rel_count_subtree}
use datalog_dafsa.Txn.{Db}
use datalog_dafsa.Snapshot.{
  ViewCacheSlot, view_open_cached, vcache_drop_version, dl_rank, dl_select, Published,
}
use datalog_dafsa.Snapshot.Cached.{
  Opened, IsCoherent, view_open_cached_lem, vcache_drop_version_lem,
}
use datalog_dafsa.Snapshot.Ranked.{dl_rank-dl_select}
use datalog_dafsa.Examples.SortedKeys.{Sorted, sorted_keys, sorted_keys-IsDafsa}
use datalog_dafsa.Examples.Relations.{edge, both, edge-HasKeys}

-- Views are numbers: that of a relation at a version is the version.
abbrev files : ℕ → Bytes → Option ℕ
files version name = some version

-- A cache with a view of the relation "e" at version 1.
abbrev cached : List (ViewCacheSlot ℕ)
cached =
    record { rel_name = 101 ∷ []; view = some 1; used = 1; version = 1 }
    ∷ record { rel_name = []; view = none; used = 0; version = 0 }
    ∷ []

no_view : {v : ℕ} → none ≡ some v → ⊥
no_view e = cc

cached-IsCoherent : IsCoherent files cached
cached-IsCoherent = (λ v e. e, (λ v e. absurd (no_view e), tt))

view_open_cached_lem_example :
    Opened files (101 ∷ []) 2 (view_open_cached cached (101 ∷ []) 2 (files 2 (101 ∷ []))) 2
view_open_cached_lem_example =
    view_open_cached_lem files cached (101 ∷ []) 2 cached-IsCoherent (omega arith)

-- The files once those of version 1 are gone.
abbrev pruned : ℕ → Bytes → Option ℕ
pruned version name = if version == 1 then none else some version

pruned_same : (w : ℕ) (name : Bytes) → w ≢ 1 → pruned w name ≡ files w name
pruned_same w name other = rw (==_ne w 1 other) refl

vcache_drop_version_lem_example :
    IsCoherent pruned (vcache_drop_version cached 1) × (length (vcache_drop_version cached 1) ≡ 2)
vcache_drop_version_lem_example =
    vcache_drop_version_lem files pruned cached 1 cached-IsCoherent pruned_same

-- A database with a published version of the relation.
abbrev published : Option (Option (Published Sorted))
published = some (some (record { view = both; arity = 2; variadic = false }))

abbrev empty_db : Db Sorted
empty_db = record { rels = []; read_only = false; txn = none; fixpoint_dirty = false; wal = [] }

dl_rank-dl_select_example :
    (1 < rel_count_subtree sorted_keys true (record edge { base = none })
      × ((cols : Row) × (dl_select sorted_keys published empty_db (101 ∷ []) 1 2 ≡ some cols)
          × (dl_rank sorted_keys published empty_db (101 ∷ []) cols 2 ≡ 1)))
    ⊎ (rel_count_subtree sorted_keys true (record edge { base = none }) ≤ 1
        × (dl_select sorted_keys published empty_db (101 ∷ []) 1 2 ≡ none))
dl_rank-dl_select_example =
    dl_rank-dl_select sorted_keys-IsDafsa published empty_db (101 ∷ []) 2 1
      (record edge { base = none }) refl refl edge-HasKeys (omega arith)
