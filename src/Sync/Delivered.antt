-- ===== src/Sync/Delivered.antt =====
-- What the destinations have been sent once the messages of the source are handled.
use cloudquery_fork4devin.Base.{
  ◌≡◌, refl, ◌∙◌, sym, ap, Bool, true, false, String, List, [], ◌∷◌, ◌++◌, map, Option, none, some,
  Result, ++_nil, if◌then◌else◌, ◌==◌, arith,
}
use cloudquery_fork4devin.Arrow.{Arrow}
use cloudquery_fork4devin.Arrow.Laws.{flatten}
use cloudquery_fork4devin.RecordTransformer.{Keys, transform}
use cloudquery_fork4devin.TableNameChanger.{TableNameChanger, LearnError}
use cloudquery_fork4devin.Sync.Host.{
  TableInfo, Host, Delivery, insert_to, delete_record_at, migrate_at,
}
use cloudquery_fork4devin.Sync.Messages.{
  Message, insert_message, delete_record_message, migrate_message, error_message, unknown_message,
  State, Status, unknown_type, receive_failed, running, for_each, SyncDestination,
  destination_schema, learned, send, send_request, insert_at, handle_insert, migrate_destination,
  handle_migrate, delete_record_in, handle_message, handle_all, count_rows, count_error, note_table,
}
use cloudquery_fork4devin.Sync.Adds.{
  inserts_to, inserts_to-append, Adds, answer-running, answer_request-running, listed,
  learned-running, Adds-nothing, Adds-before, Adds-⟫, Adds-failed, Adds-or_fail, Adds-with_schema,
  Adds-for_each,
}

module _ (name : String) (a : Arrow) (keys : Keys) (host : Host a) where
  -- The bytes of a record as a destination's record transformer makes it.
  abbrev pub encoded : SyncDestination a keys host → a.RecordBatch → List String
  encoded d r = listed (host.record_to_bytes (transform a keys d.transformer host.is_cloud r))

  abbrev pub encoded_at : a.RecordBatch → SyncDestination a keys host → List String
  encoded_at r d = if d.spec.name == name then encoded d r else []

  -- What the destination of the name has to be sent for a message: the transformed record.
  abbrev pub records_for : List (SyncDestination a keys host) → Option Message → List String
  records_for ds (some (insert_message bytes)) = elim (host.record_of_bytes bytes) [
    | none ↦ []
    | some r ↦ flatten (map (encoded_at r) ds)
  ]
  records_for ds _ = []

  Adds-send : (d : Delivery) → Adds name (send a keys host d) (inserts_to name (d ∷ []))
  unfolding send
  Adds-send d = record {
    adds = λ s s' e.
        ap (inserts_to name) (answer-running (host.send s.log d) d s s' e)
        ∙ inserts_to-append name s.log (d ∷ []);
  }

  Adds-send_request :
      (d : Delivery) → Adds name (send_request a keys host d) (inserts_to name (d ∷ []))
  unfolding send_request
  Adds-send_request d = record {
    adds = λ s s' e.
        ap (inserts_to name) (answer_request-running (host.send s.log d) d s s' e)
        ∙ inserts_to-append name s.log (d ∷ []);
  }

  Adds-insert_at :
      (r : a.RecordBatch) (d : SyncDestination a keys host)
      → Adds name (insert_at a keys host r d) (encoded_at r d)
  unfolding insert_at
  Adds-insert_at r d =
      let made = host.record_to_bytes (transform a keys d.transformer host.is_cloud r) in
      Adds-or_fail name made _ _ (encoded_at r d)
        λ bytes e. rw (e, encoded_at, encoded) (Adds-send (insert_to d.spec.name bytes))

  Adds-nowhere :
      {A : Type 0} (f : A → State → State × Status)
      → ((x : A) → Adds name (f x) [])
      → (xs : List A) → Adds name (for_each f xs) []
  Adds-nowhere f h [] = Adds-nothing name (λ s. s) (λ s. refl)
  Adds-nowhere f h (x ∷ xs) = Adds-⟫ name (f x) (for_each f xs) [] [] (h x) (Adds-nowhere f h xs)

  Adds-learned :
      (f : State → Result LearnError TableNameChanger) → Adds name (λ s. learned (f s) s) []
  Adds-learned f = record {
    adds = λ s s' e.
        ap (inserts_to name) (learned-running (f s) s s' e) ∙ sym (++_nil (inserts_to name s.log));
  }

  Adds-migrate_destination :
      (table : TableInfo) (sc : a.Schema) (d : SyncDestination a keys host)
      → Adds name (migrate_destination a keys host table sc d) []
  unfolding migrate_destination
  Adds-migrate_destination table sc d =
      Adds-with_schema name (destination_schema a keys host d sc) _ [] λ bytes.
        Adds-⟫ name _ (send_request a keys host (migrate_at d.spec.name _ bytes)) [] []
          (Adds-learned _) (Adds-send_request (migrate_at d.spec.name _ bytes))

  Adds-delete_record_in :
      (table filter : String) (d : SyncDestination a keys host)
      → Adds name (delete_record_in a keys host table filter d) []
  unfolding delete_record_in
  Adds-delete_record_in table filter d =
      Adds-with_schema name (destination_schema a keys host d _) _ [] λ bytes. record {
        adds = λ s s' e. (Adds-send_request (delete_record_at d.spec.name _ filter)).adds s s' e;
      }

  note_table-log :
      (backend : Bool) (table : TableInfo) (s : State) → (note_table backend table s).log ≡ s.log
  unfolding note_table
  note_table-log backend table s = ground arith

  Adds-handle_migrate :
      (backend no_migrate : Bool) (ds : List (SyncDestination a keys host)) (bytes : String)
      → Adds name (handle_migrate a keys host backend no_migrate ds bytes) []
  unfolding handle_migrate
  Adds-handle_migrate backend true ds bytes =
      Adds-or_fail name (host.schema_of_bytes bytes) _ _ [] λ sc e.
        Adds-or_fail name (host.table_of_schema sc) _ _ []
          λ table e. Adds-nothing name (note_table backend table) (note_table-log backend table)
  Adds-handle_migrate backend false ds bytes =
      Adds-or_fail name (host.schema_of_bytes bytes) _ _ [] λ sc e.
        Adds-or_fail name (host.table_of_schema sc) _ _ [] λ table e.
          Adds-before name (for_each (migrate_destination a keys host table sc) ds)
            (note_table backend table) [] (note_table-log backend table)
            (Adds-nowhere (migrate_destination a keys host table sc)
              (Adds-migrate_destination table sc) ds)

  Adds-handle_insert :
      (ds : List (SyncDestination a keys host)) (bytes : String)
      → Adds name
          (handle_insert a keys host ds bytes)
          (records_for ds (some (insert_message bytes)))
  unfolding handle_insert count_rows
  Adds-handle_insert ds bytes = Adds-or_fail name (host.record_of_bytes bytes) _ _ _ λ r e.
      rw (e, records_for)
        (Adds-before name (for_each (insert_at a keys host r) ds) _ _ (λ s. refl)
          (Adds-for_each name (insert_at a keys host r) (encoded_at r) (Adds-insert_at r) ds))

  Adds-handle_message :
      (backend no_migrate : Bool) (ds : List (SyncDestination a keys host)) (m : Message)
      → Adds name (handle_message a keys host backend no_migrate ds m) (records_for ds (some m))
  unfolding handle_message count_error
  Adds-handle_message backend no_migrate ds (insert_message bytes) = Adds-handle_insert ds bytes
  Adds-handle_message backend no_migrate ds (delete_record_message table filter) =
      Adds-nowhere (delete_record_in a keys host table filter) (Adds-delete_record_in table filter)
        ds
  Adds-handle_message backend no_migrate ds (migrate_message bytes) =
      Adds-handle_migrate backend no_migrate ds bytes
  Adds-handle_message backend no_migrate ds (error_message table) =
      Adds-nothing name (count_error table) (λ s. refl)
  Adds-handle_message backend no_migrate ds unknown_message = Adds-failed name unknown_type []

  Adds-handle_all :
      (backend no_migrate : Bool) (ds : List (SyncDestination a keys host))
      (ms : List (Option Message))
      → Adds name
          (handle_all a keys host backend no_migrate ds ms)
          (flatten (map (records_for ds) ms))
  unfolding handle_all
  Adds-handle_all backend no_migrate ds [] = Adds-nothing name (λ s. s) (λ s. refl)
  Adds-handle_all backend no_migrate ds (none ∷ ms) = Adds-failed name receive_failed _
  Adds-handle_all backend no_migrate ds (some m ∷ ms) =
      Adds-⟫ name (handle_message a keys host backend no_migrate ds m)
        (handle_all a keys host backend no_migrate ds ms) (records_for ds (some m))
        (flatten (map (records_for ds) ms)) (Adds-handle_message backend no_migrate ds m)
        (Adds-handle_all backend no_migrate ds ms)

  -- Once all messages of the source are handled without an error and with no pipeline closed, a
  -- destination has been sent, of the inserted records and in their order, each one as its record
  -- transformer makes it: none is lost, repeated or sent to another.
  pub handle_all-delivers :
      (backend no_migrate : Bool) (ds : List (SyncDestination a keys host))
      (ms : List (Option Message)) (s s' : State)
      → handle_all a keys host backend no_migrate ds ms s ≡ (s', running)
      → inserts_to name s'.log ≡ inserts_to name s.log ++ flatten (map (records_for ds) ms)
  handle_all-delivers backend no_migrate ds ms s s' =
      (Adds-handle_all backend no_migrate ds ms).adds s s'
