-- ===== src/Sync/StaleDeleted.antt =====
-- Which tables the deletion of stale rows reaches.
use cloudquery_fork4devin.TableNameChanger.Updating.{
  has_key, update_table_names-key, update_table_names-left,
}
use cloudquery_fork4devin.Base.{
  ◌≡◌, subst, refl, sym, Bool, true, false, ◌&&◌, String, List, [], ◌∷◌, ◌++◌, Option, none, some,
  Dict, lookup, is_some, All, Member, here, Member-append_left, Member-append_right, ◌==◌, eq_iff,
  arith, Bool-cases, inl, inr,
}
use cloudquery_fork4devin.Arrow.{Arrow}
use cloudquery_fork4devin.RecordTransformer.{Keys}
use cloudquery_fork4devin.TableNameChanger.{TableNameChanger, change_of, update_table_name}
use cloudquery_fork4devin.Sync.Host.{Host, Delivery, delete_stale_at}
use cloudquery_fork4devin.Sync.Messages.{
  State, Status, running, ◌⟫◌, for_each, SyncDestination, send_request,
}
use cloudquery_fork4devin.Sync.Adds.{⟫-running, answer_request-running}
use cloudquery_fork4devin.Sync.DeleteStale.{is_delete_stale, delete_stale, delete_all}

-- What was accepted stays accepted.
record Grows (f : State → State × Status) : Type 0 where
  grows : (s s' : State) {x : Delivery} → f s ≡ (s', running) → Member x s.log → Member x s'.log

Grows-⟫ : (f g : State → State × Status) → Grows f → Grows g → Grows (λ s. f s ⟫ g)
Grows-⟫ f g hf hg = record {
  grows = λ s s' e m.
      let (t, first, second) = ⟫-running (f s) g s' e in
      hg.grows t s' second (hf.grows s t first m);
}

Grows-for_each :
    {A : Type 0} (f : A → State → State × Status)
    → ((x : A) → Grows (f x))
    → (xs : List A) → Grows (for_each f xs)
Grows-for_each f h [] = record { grows = λ s s' {x} e m. subst (λ p. Member x p.0.log) e m }
Grows-for_each f h (x ∷ xs) = Grows-⟫ (f x) (for_each f xs) (h x) (Grows-for_each f h xs)

unnamed : {A : Type 0} (b : Bool) (o : Option A) → b ≡ true → (b && is_some o) ≡ false → o ≡ none
unnamed true none e h = refl
unnamed true (some x) e h = cc
unnamed false o e h = cc

record Sends (x : Delivery) (f : State → State × Status) : Type 0 where
  sends : (s s' : State) → f s ≡ (s', running) → Member x s'.log

Sends-before :
    (x : Delivery) (f g : State → State × Status) → Sends x f → Grows g → Sends x (λ s. f s ⟫ g)
Sends-before x f g hf hg = record {
  sends = λ s s' e.
      let (t, first, second) = ⟫-running (f s) g s' e in hg.grows t s' second (hf.sends s t first);
}

Sends-after : (x : Delivery) (f g : State → State × Status) → Sends x g → Sends x (λ s. f s ⟫ g)
Sends-after x f g hg = record {
  sends = λ s s' e. let (t, first, second) = ⟫-running (f s) g s' e in hg.sends t s' second;
}

module _ (a : Arrow) (keys : Keys) (host : Host a) where
  Grows-send_request : (d : Delivery) → Grows (send_request a keys host d)
  unfolding send_request
  Grows-send_request d = record {
    grows = λ s s' {x} e m.
        subst (Member x) (sym (answer_request-running (host.send s.log d) d s s' e))
          (Member-append_left (d ∷ []) m);
  }

  Sends-send_request : (d : Delivery) → Sends d (send_request a keys host d)
  unfolding send_request
  Sends-send_request d = record {
    sends = λ s s' e.
        subst (Member d) (sym (answer_request-running (host.send s.log d) d s s' e))
          (Member-append_right s.log here);
  }

  Grows-delete_stale :
      (destination source_name sync_time : String) (tables : Dict Bool)
      → Grows (delete_stale a keys host destination source_name sync_time tables)
  unfolding delete_stale
  Grows-delete_stale destination source_name sync_time tables =
      Grows-for_each _
        (λ x. Grows-send_request (delete_stale_at destination x.0 source_name sync_time)) tables

  Sends-delete_stale :
      (destination source_name sync_time t : String) (tables : Dict Bool)
      → has_key t tables ≡ true
      → Sends
          (delete_stale_at destination t source_name sync_time)
          (delete_stale a keys host destination source_name sync_time tables)
  unfolding delete_stale lookup
  Sends-delete_stale destination source_name sync_time t [] h = cc
  Sends-delete_stale destination source_name sync_time t ((u, b) ∷ tables) h =
      let first = send_request a keys host (delete_stale_at destination u source_name sync_time) in
      let rest = delete_stale a keys host destination source_name sync_time tables in
      elim (Bool-cases (u == t)) [
        | inl same ↦
            Sends-before (delete_stale_at destination t source_name sync_time) first rest
              (subst (λ v. Sends (delete_stale_at destination v source_name sync_time) first)
                ((eq_iff u t).0 same)
                (Sends-send_request (delete_stale_at destination u source_name sync_time)))
              (Grows-delete_stale destination source_name sync_time tables)
        | inr other ↦ Sends-after _ first rest (
            Sends-delete_stale destination source_name sync_time t tables
              (ground (arith, other, h)))
      ]

  -- A destination that deletes stale rows, and where a name was learned for the table, its own included.
  abbrev pub has_learned : TableNameChanger → String → SyncDestination a keys host → Bool
  has_learned c t d = is_delete_stale d.spec.write_mode && is_some (change_of c d.spec.name t)

  Grows-delete_all :
      (source_name sync_time : String) (c : TableNameChanger)
      (ds : List (SyncDestination a keys host)) (tables : Dict Bool)
      → Grows (delete_all a keys host source_name sync_time c ds tables)
  unfolding delete_all
  Grows-delete_all source_name sync_time c [] tables = record {
    grows = λ s s' {x} e m. subst (λ p. Member x p.0.log) e m;
  }
  Grows-delete_all source_name sync_time c (d ∷ ds) tables =
      elim (Bool-cases (is_delete_stale d.spec.write_mode)) [
        | inl e ↦
            rw (e, delete_all)
              (Grows-⟫ (delete_stale a keys host d.spec.name source_name sync_time _)
                (delete_all a keys host source_name sync_time c ds _)
                (Grows-delete_stale d.spec.name source_name sync_time _)
                (Grows-delete_all source_name sync_time c ds _))
        | inr e ↦ rw (e, delete_all) (Grows-delete_all source_name sync_time c ds tables)
      ]

  Sends-delete_all :
      (source_name sync_time : String) (c : TableNameChanger)
      (before : List (SyncDestination a keys host)) (d : SyncDestination a keys host)
      (after : List (SyncDestination a keys host)) (tables : Dict Bool) (t : String)
      → is_delete_stale d.spec.write_mode ≡ true
      → has_key t tables ≡ true
      → All (λ e. has_learned c t e ≡ false) before
      → Sends
          (delete_stale_at d.spec.name (update_table_name c d.spec.name t) source_name sync_time)
          (delete_all a keys host source_name sync_time c (before ++ d ∷ after) tables)
  unfolding delete_all
  Sends-delete_all source_name sync_time c [] d after tables t stale h kept =
      rw (stale, delete_all)
        (Sends-before _ (delete_stale a keys host d.spec.name source_name sync_time _)
          (delete_all a keys host source_name sync_time c after _)
          (Sends-delete_stale d.spec.name source_name sync_time (update_table_name c d.spec.name t)
            _ (update_table_names-key c d.spec.name tables [] t h))
          (Grows-delete_all source_name sync_time c after _))
  Sends-delete_all source_name sync_time c (e ∷ before) d after tables t stale h (kept, others) =
      elim (Bool-cases (is_delete_stale e.spec.write_mode)) [
        | inl on ↦
            rw (on, delete_all)
              (Sends-after _ (delete_stale a keys host e.spec.name source_name sync_time _)
                (delete_all a keys host source_name sync_time c (before ++ d ∷ after) _)
                (Sends-delete_all source_name sync_time c before d after _ t stale
                  (update_table_names-left c e.spec.name tables [] t
                    (unnamed (is_delete_stale e.spec.write_mode) _ on kept) h)
                  others))
        | inr off ↦
            rw (off, delete_all)
              (Sends-delete_all source_name sync_time c before d after tables t stale h others)
      ]

  -- Where the deletion of stale rows ends without an error, a destination that deletes stale rows is
  -- asked to delete those of each table of the map, under the name that the table has there, if no name
  -- was learned for the table at any such destination before it: neither another one nor its own.
  pub delete_all-reaches :
      (source_name sync_time : String) (c : TableNameChanger)
      (before : List (SyncDestination a keys host)) (d : SyncDestination a keys host)
      (after : List (SyncDestination a keys host)) (tables : Dict Bool) (t : String) (s s' : State)
      → is_delete_stale d.spec.write_mode ≡ true
      → has_key t tables ≡ true
      → All (λ e. has_learned c t e ≡ false) before
      → delete_all a keys host source_name sync_time c (before ++ d ∷ after) tables s
        ≡ (s', running)
      → Member
          (delete_stale_at d.spec.name (update_table_name c d.spec.name t) source_name sync_time)
          s'.log
  delete_all-reaches source_name sync_time c before d after tables t s s' stale h kept =
      (Sends-delete_all source_name sync_time c before d after tables t stale h kept).sends s s'
