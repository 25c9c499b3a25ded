-- ===== src/Sync/Totals.antt =====
-- The counters of the sync.
use cloudquery_fork4devin.Base.{
  ℕ, ◌+◌, ◌%◌, ◌^◌, ◌≡◌, Bool, true, false, String, List, [], ◌∷◌, Option, none, some, Result, ok,
  err, Dict, lookup, insert, arith,
}
use cloudquery_fork4devin.Arrow.{Arrow}
use cloudquery_fork4devin.RecordTransformer.{Keys}
use cloudquery_fork4devin.TableNameChanger.{TableNameChanger, LearnError}
use cloudquery_fork4devin.Sync.Host.{
  Host, SendResult, Delivery, accepted, pipeline_closed, refused, migrate_at, insert_to,
  delete_record_at, TableInfo,
}
use cloudquery_fork4devin.Sync.Messages.{
  Message, TableProgress, insert_message, delete_record_message, migrate_message, error_message,
  unknown_message, SyncError, State, Status, running, stopped, failed, ◌⟫◌, for_each, or_fail,
  with_schema, learned, answer, answer_request, progress_of, count_rows, count_error, note_table,
  SyncDestination, destination_schema, send, send_request, insert_at, handle_insert,
  migrate_destination, handle_migrate, delete_record_in, handle_message, handle_all,
}

abbrev pub sum_rows : Dict TableProgress → ℕ
sum_rows [] = 0
sum_rows ((_, p) ∷ stats) = p.rows + sum_rows stats

sum_rows-insert :
    (table : String) (p : TableProgress) (stats : Dict TableProgress)
    → sum_rows (insert table p stats) + (progress_of (lookup table stats)).rows
      ≡ sum_rows stats + p.rows
unfolding insert lookup
sum_rows-insert table p [] = omega arith
sum_rows-insert table p ((other, q) ∷ stats) = ground (arith, sum_rows-insert table p stats)

-- The number of resources is that of the rows of the tables together.
abbrev pub IsCounted : State → Type 0
IsCounted s = s.total_resources ≡ sum_rows s.stats_per_table % 2 ^ 64

pub record Keeps (P : State → Type 0) (f : State → State × Status) : Type 0 where
  pub keeps : (s : State) → P s → P (f s).0

after :
    (P : State → Type 0) (k : State → State × Status)
    → Keeps P k
    → (p : State × Status) → P p.0
    → P (p ⟫ k).0
after P k h (s, running) q = h.keeps s q
after P k h (s, stopped) q = q
after P k h (s, failed e) q = q

module _ (P : State → Type 0) where
  Keeps-⟫ : (f k : State → State × Status) → Keeps P f → Keeps P k → Keeps P (λ s. f s ⟫ k)
  Keeps-⟫ f k hf hk = record { keeps = λ s p. after P k hk (f s) (hf.keeps s p) }

  Keeps-for_each :
      {A : Type 0} (f : A → State → State × Status)
      → ((x : A) → Keeps P (f x))
      → (xs : List A) → Keeps P (for_each f xs)
  Keeps-for_each f h [] = record { keeps = λ s p. p }
  Keeps-for_each f h (x ∷ xs) = Keeps-⟫ (f x) (for_each f xs) (h x) (Keeps-for_each f h xs)

  Keeps-or_fail :
      {A : Type 0} (o : Option A) (e : SyncError) (k : A → State → State × Status)
      → ((x : A) → Keeps P (k x))
      → Keeps P (or_fail o e k)
  Keeps-or_fail none e k h = record { keeps = λ s p. p }
  Keeps-or_fail (some x) e k h = h x

  Keeps-with_schema :
      (o : Result SyncError String) (k : String → State → State × Status)
      → ((b : String) → Keeps P (k b))
      → Keeps P (with_schema o k)
  Keeps-with_schema (err e) k h = record { keeps = λ s p. p }
  Keeps-with_schema (ok b) k h = h b

answer-IsCounted :
    (r : SendResult) (d : Delivery) (s : State) → IsCounted s → IsCounted (answer r d s).0
answer-IsCounted accepted d s h = h
answer-IsCounted pipeline_closed d s h = h
answer-IsCounted refused d s h = h

answer_request-IsCounted :
    (r : SendResult) (d : Delivery) (s : State) → IsCounted s → IsCounted (answer_request r d s).0
answer_request-IsCounted accepted d s h = h
answer_request-IsCounted pipeline_closed d s h = h
answer_request-IsCounted refused d s h = h

learned-IsCounted :
    (r : Result LearnError TableNameChanger) (s : State) → IsCounted s → IsCounted (learned r s).0
learned-IsCounted (err e) s h = h
learned-IsCounted (ok c) s h = h

learned-Keeps :
    (f : State → Result LearnError TableNameChanger) → Keeps IsCounted (λ s. learned (f s) s)
learned-Keeps f = record { keeps = λ s. learned-IsCounted (f s) s }

count_rows-IsCounted :
    (table : String) (n : ℕ) (s : State) → IsCounted s → IsCounted (count_rows table n s)
unfolding count_rows
count_rows-IsCounted table n s h =
    let p = progress_of (lookup table s.stats_per_table) in
    omega (
      arith,
      h,
      sum_rows-insert table (record p { rows = (p.rows + n) % 2 ^ 64 }) s.stats_per_table,
    )

count_error-IsCounted : (table : String) (s : State) → IsCounted s → IsCounted (count_error table s)
unfolding count_error
count_error-IsCounted table s h =
    let p = progress_of (lookup table s.stats_per_table) in
    omega (
      arith,
      h,
      sum_rows-insert table (record p { errors = (p.errors + 1) % 2 ^ 64 }) s.stats_per_table,
    )

note_table-IsCounted :
    (backend : Bool) (table : TableInfo) (s : State)
    → IsCounted s
    → IsCounted (note_table backend table s)
unfolding note_table
note_table-IsCounted backend table s h = ground arith

module _ (a : Arrow) (keys : Keys) (host : Host a) where
  send-Keeps : (d : Delivery) → Keeps IsCounted (send a keys host d)
  unfolding send
  send-Keeps d = record { keeps = λ s. answer-IsCounted (host.send s.log d) d s }

  send_request-Keeps : (d : Delivery) → Keeps IsCounted (send_request a keys host d)
  unfolding send_request
  send_request-Keeps d = record { keeps = λ s. answer_request-IsCounted (host.send s.log d) d s }

  handle_insert-Keeps :
      (ds : List (SyncDestination a keys host)) (bytes : String)
      → Keeps IsCounted (handle_insert a keys host ds bytes)
  unfolding handle_insert insert_at
  handle_insert-Keeps ds bytes = Keeps-or_fail IsCounted (host.record_of_bytes bytes) _ _ λ r.
      record {
        keeps = λ s h.
            (Keeps-for_each IsCounted (insert_at a keys host r)
                (λ d. Keeps-or_fail IsCounted _ _ _ λ b. send-Keeps (insert_to d.spec.name b))
                ds).keeps
              _ (count_rows-IsCounted _ _ s h);
      }

  migrate_destination-Keeps :
      (table : TableInfo) (sc : a.Schema) (d : SyncDestination a keys host)
      → Keeps IsCounted (migrate_destination a keys host table sc d)
  unfolding migrate_destination
  migrate_destination-Keeps table sc d =
      Keeps-with_schema IsCounted (destination_schema a keys host d sc) _ λ bytes.
        Keeps-⟫ IsCounted _ (send_request a keys host (migrate_at d.spec.name _ bytes))
          (learned-Keeps _) (send_request-Keeps (migrate_at d.spec.name _ bytes))

  handle_migrate-Keeps :
      (backend no_migrate : Bool) (ds : List (SyncDestination a keys host)) (bytes : String)
      → Keeps IsCounted (handle_migrate a keys host backend no_migrate ds bytes)
  unfolding handle_migrate
  handle_migrate-Keeps backend true ds bytes =
      Keeps-or_fail IsCounted (host.schema_of_bytes bytes) _ _ λ sc.
        Keeps-or_fail IsCounted (host.table_of_schema sc) _ _
          λ table. record { keeps = note_table-IsCounted backend table }
  handle_migrate-Keeps backend false ds bytes =
      Keeps-or_fail IsCounted (host.schema_of_bytes bytes) _ _ λ sc.
        Keeps-or_fail IsCounted (host.table_of_schema sc) _ _ λ table. record {
          keeps = λ s h.
              (Keeps-for_each IsCounted (migrate_destination a keys host table sc)
                  (migrate_destination-Keeps table sc) ds).keeps
                _ (note_table-IsCounted backend table s h);
        }

  delete_record_in-Keeps :
      (table filter : String) (d : SyncDestination a keys host)
      → Keeps IsCounted (delete_record_in a keys host table filter d)
  unfolding delete_record_in
  delete_record_in-Keeps table filter d =
      Keeps-with_schema IsCounted (destination_schema a keys host d _) _ λ bytes. record {
        keeps = λ s h. (send_request-Keeps (delete_record_at d.spec.name _ filter)).keeps s h;
      }

  handle_message-Keeps :
      (backend no_migrate : Bool) (ds : List (SyncDestination a keys host)) (m : Message)
      → Keeps IsCounted (handle_message a keys host backend no_migrate ds m)
  unfolding handle_message
  handle_message-Keeps backend no_migrate ds (insert_message bytes) = handle_insert-Keeps ds bytes
  handle_message-Keeps backend no_migrate ds (delete_record_message table filter) =
      Keeps-for_each IsCounted (delete_record_in a keys host table filter)
        (delete_record_in-Keeps table filter) ds
  handle_message-Keeps backend no_migrate ds (migrate_message bytes) =
      handle_migrate-Keeps backend no_migrate ds bytes
  handle_message-Keeps backend no_migrate ds (error_message table) = record {
    keeps = count_error-IsCounted table;
  }
  handle_message-Keeps backend no_migrate ds unknown_message = record { keeps = λ s h. h }

  handle_all-Keeps :
      (backend no_migrate : Bool) (ds : List (SyncDestination a keys host))
      (ms : List (Option Message))
      → Keeps IsCounted (handle_all a keys host backend no_migrate ds ms)
  unfolding handle_all
  handle_all-Keeps backend no_migrate ds [] = record { keeps = λ s h. h }
  handle_all-Keeps backend no_migrate ds (none ∷ ms) = record { keeps = λ s h. h }
  handle_all-Keeps backend no_migrate ds (some m ∷ ms) =
      Keeps-⟫ IsCounted (handle_message a keys host backend no_migrate ds m)
        (handle_all a keys host backend no_migrate ds ms)
        (handle_message-Keeps backend no_migrate ds m) (handle_all-Keeps backend no_migrate ds ms)

  -- The number of resources stays that of the rows of all tables together, modulo 2 ^ 64, over any
  -- messages of the source, also where the sync stops or fails.
  pub handle_all-IsCounted :
      (backend no_migrate : Bool) (ds : List (SyncDestination a keys host))
      (ms : List (Option Message)) (s : State)
      → IsCounted s
      → IsCounted (handle_all a keys host backend no_migrate ds ms s).0
  handle_all-IsCounted backend no_migrate ds ms = (handle_all-Keeps backend no_migrate ds ms).keeps
