-- ===== src/UpdateCache/Collisions/Batch.antt =====
-- Two staged rows with one collision key are both reported, and a deleted row never is.
use mathlib.Core.List.{map-append}
use mathlib.Core.Path.{subst}
use sync.Prelude.{
  String, Bool, true, false, not, ◌&&◌, ◌||◌, Option, none, some, List, [], ◌∷◌, ◌++◌, map, ◌≡◌,
  refl, sym, ap, ◌∙◌, ◌==◌, contains, string_eq, inl, inr, Bool-cases, arith, if◌then◌else◌,
}
use sync.Prelude.Table
use sync.Prelude.Table.{key-find}
use sync.Sync.Rows.{CacheEntryRow, cache_path, get_cache}
use sync.Sync.Accounting.{contains-append}
use sync.UpdateCache.Collisions.{
  CaseCollision, collision_path, is_live, is_some, live_rows_for_normalized_path, find_live,
  live_collision_groups, find_other, collide, group_collisions, batch_collisions,
}
use sync.UpdateCache.Distinct.{IsDistinct}

-- A path that is reported.
abbrev pub reports : String → List CaseCollision → Bool
reports p found = contains p (map collision_path found)

pub reports-append :
    (p : String) (xs ys : List CaseCollision)
    → reports p (xs ++ ys) ≡ (reports p xs || reports p ys)
reports-append p xs ys = rw (map-append, contains-append p) refl

-- The row at a path, if there is one, is live.
abbrev pub live_at : Option CacheEntryRow → Bool
live_at none = false
live_at (some r) = is_live r

module _ (collision_key : String → String) where
  abbrev in_group : String → Option CacheEntryRow → Option CacheEntryRow
  in_group key none = none
  in_group key (some r) = if (collision_key r.path == key) && is_live r then some r else none

  find-live_rows :
      (p key : String) (rows : List CacheEntryRow)
      → IsDistinct rows
      → get_cache p (live_rows_for_normalized_path collision_key key rows)
        ≡ in_group key (get_cache p rows)
  unfolding live_rows_for_normalized_path Table.find
  find-live_rows p key [] distinct = refl
  find-live_rows p key (x ∷ rows) (first, distinct) = elim (Bool-cases (x.path == p)) [
    | inl same ↦
        let at : x.path ≡ p = ground arith in
        let gone : get_cache p rows ≡ none = subst (λ q. get_cache q rows ≡ none) at first in
        ground (arith, find-live_rows p key rows distinct, gone)
    | inr other ↦ ground (arith, find-live_rows p key rows distinct)
  ]

  find_live-is_some :
      (q key : String) (t : CacheEntryRow) (rows : List CacheEntryRow)
      → get_cache q rows ≡ some t
      → is_live t ≡ true
      → (collision_key t.path == key) ≡ true
      → is_some (find_live collision_key key rows) ≡ true
  unfolding find_live Table.find
  find_live-is_some q key t [] found live k = cc
  find_live-is_some q key t (x ∷ rows) found live k = ground (arith, find_live-is_some q key t rows)

  find_other-is_some :
      (p q : String) (t : CacheEntryRow) (rows : List CacheEntryRow)
      → get_cache q rows ≡ some t
      → (p == q) ≡ false
      → is_some (find_other collision_key p rows) ≡ true
  unfolding find_other Table.find
  find_other-is_some p q t [] found other = cc
  find_other-is_some p q t (x ∷ rows) found other = ground (arith, find_other-is_some p q t rows)

  group_of_first :
      (x : CacheEntryRow) (rows : List CacheEntryRow)
      → is_live x ≡ true
      → is_some (find_live collision_key (collision_key x.path) rows) ≡ true
      → contains (collision_key x.path) (live_collision_groups collision_key (x ∷ rows)) ≡ true
  unfolding live_collision_groups
  group_of_first x rows live again =
      elim (Bool-cases
        (contains (collision_key x.path) (live_collision_groups collision_key rows))) [
          | inl c ↦ rw (live, again, c) c
          | inr c ↦ rw (live, again, c) (ground arith)
        ]

  group_of_rest :
      (k : String) (x : CacheEntryRow) (rows : List CacheEntryRow)
      → contains k (live_collision_groups collision_key rows) ≡ true
      → contains k (live_collision_groups collision_key (x ∷ rows)) ≡ true
  unfolding live_collision_groups
  group_of_rest k x rows h =
      elim (Bool-cases (
        is_live x
        && is_some (find_live collision_key (collision_key x.path) rows)
        && not (contains (collision_key x.path) (live_collision_groups collision_key rows)))) [
          | inl c ↦ rw c (ground arith)
          | inr c ↦ rw (c, h) refl
        ]

  -- A key of two live rows is a group.
  grouped :
      (p q : String) (r t : CacheEntryRow) (rows : List CacheEntryRow)
      → get_cache p rows ≡ some r
      → get_cache q rows ≡ some t
      → is_live r ≡ true
      → is_live t ≡ true
      → (collision_key r.path == collision_key t.path) ≡ true
      → (p == q) ≡ false
      → contains (collision_key r.path) (live_collision_groups collision_key rows) ≡ true
  unfolding Table.find
  grouped p q r t [] is_r is_t live_r live_t key other = cc
  grouped p q r t (x ∷ rows) is_r is_t live_r live_t key other = elim (Bool-cases (x.path == p)) [
    | inl at_p ↦
        let first : x ≡ r = ground arith in
        let behind : get_cache q rows ≡ some t = ground arith in
        subst
          (λ y.
            contains (collision_key y.path) (live_collision_groups collision_key (x ∷ rows)) ≡ true)
          first
          (group_of_first x rows (ground (arith, first)) (
            find_live-is_some q (collision_key x.path) t rows behind live_t
              (ground (arith, first))))
    | inr not_p ↦ elim (Bool-cases (x.path == q)) [
      | inl at_q ↦
          let first : x ≡ t = ground arith in
          let behind : get_cache p rows ≡ some r = ground arith in
          let same : collision_key x.path ≡ collision_key r.path = ground (arith, first) in
          subst (λ k. contains k (live_collision_groups collision_key (x ∷ rows)) ≡ true) same
            (group_of_first x rows (ground (arith, first)) (
              find_live-is_some p (collision_key x.path) r rows behind live_r
                (ground (arith, first))))
      | inr not_q ↦
          group_of_rest (collision_key r.path) x rows
            (grouped p q r t rows (ground arith) (ground arith) live_r live_t key other)
    ]
  ]

  pub collide-reports :
      (p : String) (o : Option CacheEntryRow)
      → is_some o ≡ true
      → reports p (collide collision_key p o) ≡ true
  unfolding collide
  collide-reports p none h = cc
  collide-reports p (some r) h = ground arith

  group-reports :
      (p : String) (r : CacheEntryRow) (group rows : List CacheEntryRow)
      → get_cache p rows ≡ some r
      → is_some (find_other collision_key p group) ≡ true
      → reports p (group_collisions collision_key group rows) ≡ true
  unfolding group_collisions Table.find
  group-reports p r group [] is_r h = cc
  group-reports p r group (x ∷ rows) is_r h =
      reports-append p (collide collision_key x.path (find_other collision_key x.path group))
        (group_collisions collision_key group rows)
      ∙ elim (Bool-cases (x.path == p)) [
        | inl same ↦
            let at : x.path ≡ p = ground arith in
            let here = collide-reports p (find_other collision_key p group) h in rw (at, here) refl
        | inr other ↦
            let later = group-reports p r group rows (ground arith) h in rw later (ground arith)
      ]

  batch-reports :
      (p key : String) (staged : List CacheEntryRow) (keys : List String)
      → contains key keys ≡ true
      → (let rows = live_rows_for_normalized_path collision_key key staged in
          reports p (group_collisions collision_key rows rows) ≡ true)
      → reports p (batch_collisions collision_key staged keys) ≡ true
  unfolding batch_collisions
  batch-reports p key staged [] h k = cc
  batch-reports p key staged (x ∷ keys) h k =
      let rows = live_rows_for_normalized_path collision_key x staged in
      reports-append p (group_collisions collision_key rows rows)
        (batch_collisions collision_key staged keys)
      ∙ elim (Bool-cases (key == x)) [
        | inl same ↦
            let at : key ≡ x = ground arith in
            let here =
              subst
                (λ y.
                  reports p (
                    group_collisions collision_key
                      (live_rows_for_normalized_path collision_key y staged)
                      (live_rows_for_normalized_path collision_key y staged))
                  ≡ true)
                at k in
            rw here refl
        | inr other ↦
            let later = batch-reports p key staged keys (ground arith) k in rw later (ground arith)
      ]

  -- Two live staged rows of different paths and one key are reported.
  pub batch_collisions-Covers :
      (p q : String) (r t : CacheEntryRow) (staged : List CacheEntryRow)
      → IsDistinct staged
      → get_cache p staged ≡ some r
      → get_cache q staged ≡ some t
      → is_live r ≡ true
      → is_live t ≡ true
      → collision_key p ≡ collision_key q
      → (p == q) ≡ false
      → reports p
          (batch_collisions collision_key staged (live_collision_groups collision_key staged))
        ≡ true
  batch_collisions-Covers p q r t staged distinct is_r is_t live_r live_t key other =
      let at_p = key-find cache_path p staged r is_r in
      let at_q = key-find cache_path q staged t is_t in
      let same : collision_key r.path ≡ collision_key t.path =
        ap collision_key at_p ∙ key ∙ sym (ap collision_key at_q) in
      let k = collision_key r.path in
      let rows = live_rows_for_normalized_path collision_key k staged in
      let in_p : get_cache p rows ≡ some r =
        find-live_rows p k staged distinct ∙ ground (arith, is_r) in
      let in_q : get_cache q rows ≡ some t =
        find-live_rows q k staged distinct ∙ ground (arith, is_t, same) in
      batch-reports p k staged (live_collision_groups collision_key staged)
        (grouped p q r t staged is_r is_t live_r live_t (ground arith) other)
        (group-reports p r rows rows in_p (find_other-is_some p q t rows in_q other))

  pub collide-other :
      (p path : String) (o : Option CacheEntryRow)
      → (path == p) ≡ false
      → reports p (collide collision_key path o) ≡ false
  unfolding collide
  collide-other p path none other = refl
  collide-other p path (some r) other = ground arith

  group-other :
      (p : String) (group rows : List CacheEntryRow)
      → get_cache p rows ≡ none
      → reports p (group_collisions collision_key group rows) ≡ false
  unfolding group_collisions Table.find
  group-other p group [] h = refl
  group-other p group (x ∷ rows) h =
      reports-append p (collide collision_key x.path (find_other collision_key x.path group))
        (group_collisions collision_key group rows)
      ∙ rw
          (
            collide-other p x.path (find_other collision_key x.path group) (ground arith),
            group-other p group rows (ground arith),
          )
          refl

  -- No group reports a path whose staged row is deleted.
  pub batch_collisions-Live :
      (p : String) (staged : List CacheEntryRow) (keys : List String)
      → IsDistinct staged
      → live_at (get_cache p staged) ≡ false
      → reports p (batch_collisions collision_key staged keys) ≡ false
  unfolding batch_collisions
  batch_collisions-Live p staged [] distinct dead = refl
  batch_collisions-Live p staged (key ∷ keys) distinct dead =
      let rows = live_rows_for_normalized_path collision_key key staged in
      reports-append p (group_collisions collision_key rows rows)
        (batch_collisions collision_key staged keys)
      ∙ rw
          (
            group-other p rows rows
                (find-live_rows p key staged distinct ∙ out_of key (get_cache p staged) dead),
            batch_collisions-Live p staged keys distinct dead,
          )
          refl
    where
      out_of : (k : String) (o : Option CacheEntryRow) → live_at o ≡ false → in_group k o ≡ none
      out_of k none h = refl
      out_of k (some r) h = ground arith
