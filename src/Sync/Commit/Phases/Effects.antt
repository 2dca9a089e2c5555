-- ===== src/Sync/Commit/Phases/Effects.antt =====
-- What the phases that end leave in cache.db.
use mathlib.Core.Path.{subst}
use sync.Prelude.{
  String, Bool, true, false, ◌&&◌, List, [], ◌∷◌, ◌≡◌, refl, arith, contains, string_eq,
}
use sync.Prelude.Acts.{Post}
use sync.Errors.{Result, ok, throw}
use sync.Db.Ordered.{find-order_by, Sorted}
use sync.Sync.Rows.{CacheEntryRow, cache_path, entry_path, get_cache, get_entry}
use sync.Sync.Schedule as Local
use sync.Sync.Soundness.Jobs.{Sound}
use sync.Sync.Soundness.Rows.{Returns}
use sync.Sync.Soundness.Schedules.{IsReferenced, apply_local_changes-Sound}
use sync.Sync.ApplyRemote as Remote
use sync.Sync.ApplyRemote.Course.{Converged}
use sync.Sync.ApplyRemote.Convergence.{cache_converges}
use sync.Sync.MergeJoin.Laws.{IsOrder, SortedCache}
use sync.Sync.Snapshot.{Tables}
use sync.Sync.Commit.Phases.{
  Machine, Surroundings, settings, candidate_of, nothing_left, listed, sorted_entries,
  remote_arguments, remote_stop, apply_local, local_result, local_ended, apply_remote,
  remote_result, remote_ended, pulled_to,
}

abbrev pub Nothing {ℓ} : {S : Type 0} → S → Type ℓ
Nothing s = Unit

module _ (v : Surroundings) where
  -- A fold that ends is sound, and touches neither cache.db nor the local state.db.
  abbrev pub Folded : Tables → Machine → Local.Loop → Machine → Type 0
  Folded t m l m' = Sound t.entries l.run × (m'.cache ≡ m.cache) × (m'.state_db ≡ m.state_db)

  local_ended-Post :
      (t : Tables) (l : Local.Loop) (whole : Bool) (m : Machine)
      → Sound t.entries l.run
      → Post (Folded t m) Nothing (local_ended v t l whole m)
  unfolding local_ended
  local_ended-Post t l true m sound = (sound, refl, refl)
  local_ended-Post t l false m sound = tt

  local_result-Post :
      (t : Tables) (r : Result Local.Loop) (m : Machine)
      → Returns r (λ l. Sound t.entries l.run)
      → Post (Folded t m) Nothing (local_result v t r m)
  unfolding local_result
  local_result-Post t (ok l) m sound = local_ended-Post t l _ m sound
  local_result-Post t (throw e) m sound = tt

  pub apply_local-Post :
      (stamp : String) (verify : Bool) (t : Tables) (dirty : List CacheEntryRow) (m : Machine)
      → IsReferenced t.entries t.objects
      → Post (Folded t m) Nothing (apply_local v stamp verify t dirty m)
  unfolding apply_local
  apply_local-Post stamp verify t dirty m referenced =
      local_result-Post t _ (record m { marker = true })
        (apply_local_changes-Sound (settings v stamp verify) (candidate_of t) dirty v.local_events
          referenced)

  -- A pull that ends has brought the cache to the candidate.
  abbrev pub Pulled : Tables → List String → Machine → Remote.Remote → Machine → Type 0
  Pulled t exclude m s m' =
      ((p : String)
        → Converged (contains p exclude) (get_cache p m.cache) (get_entry p t.entries)
            (get_cache p m'.cache))
      × (m'.state_db ≡ m.state_db)

  sorted_cache :
      (rows : List CacheEntryRow) (o : IsOrder v.lt)
      → Sorted cache_path v.lt rows
      → SortedCache v.lt o rows
  sorted_cache [] o s = tt
  sorted_cache (r ∷ rows) o s = (s.0, sorted_cache rows o s.1)

  none_left {ℓ} : {A : Type ℓ} (xs : List A) → nothing_left xs ≡ true → xs ≡ []
  none_left [] h = refl
  none_left (x ∷ xs) h = cc

  both_true : (a b : Bool) → (a && b) ≡ true → (a ≡ true) × (b ≡ true)
  both_true a b h = ground arith

  -- SQLite lists the rows in an order that the loop compares with.
  abbrev pub IsListed : Machine → Type 0
  IsListed m = Sorted cache_path v.lt (listed v m)

  abbrev pub AreListed : Tables → Type 0
  AreListed t = Sorted entry_path v.lt (sorted_entries v t)

  module _ (o : IsOrder v.lt) (d : IsOrder v.db_lt) (t : Tables) (exclude : List String)
      (m : Machine) (rows_listed : IsListed m) (entries_listed : AreListed t) where
    abbrev ran : Result Remote.Pass
    ran =
        Remote.apply_remote_changes (remote_arguments v t exclude) v.lt (listed v m)
          (sorted_entries v t) m.disk v.remote_events

    remote_ended-Post :
        (l : Remote.Pass) (whole : Bool)
        → ran ≡ ok l
        → (nothing_left l.steps && nothing_left l.run.downloads) ≡ whole
        → Post (Pulled t exclude m) Nothing (remote_ended v l whole m)
    unfolding remote_ended pulled_to
    remote_ended-Post l false h e = tt
    remote_ended-Post l true h e =
        let ended = both_true (nothing_left l.steps) (nothing_left l.run.downloads) e in
        (
          λ p.
              subst
                (λ x.
                  Converged (contains p exclude) x (get_entry p t.entries)
                    (get_cache p l.run.cache))
                (find-order_by cache_path v.db_lt d p m.cache)
                (subst
                  (λ x.
                    Converged (contains p exclude) (get_cache p (listed v m)) x
                      (get_cache p l.run.cache))
                  (find-order_by entry_path v.db_lt d p t.entries)
                  (cache_converges (remote_arguments v t exclude) v.lt o (listed v m)
                    (sorted_entries v t) m.disk v.remote_events l p
                    (sorted_cache (listed v m) o rows_listed) entries_listed h
                    (none_left l.steps ended.0) (none_left l.run.downloads ended.1))),
          refl,
        )

    remote_result-Post :
        (r : Result Remote.Pass)
        → ran ≡ r
        → Post (Pulled t exclude m) Nothing (remote_result v (remote_stop v t exclude m) r m)
    unfolding remote_result
    remote_result-Post (ok l) h = remote_ended-Post l _ h refl
    remote_result-Post (throw e) h = tt

    pub apply_remote-Post : Post (Pulled t exclude m) Nothing (apply_remote v t exclude m)
    unfolding apply_remote
    apply_remote-Post = remote_result-Post ran refl
