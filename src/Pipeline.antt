-- ===== src/Pipeline.antt =====
-- cli/internal/transformerpipeline: pipeline.go and identity.go. A client is a transformer that answers
-- a record with any number of records, which depend on that record and on all that it answered before,
-- in the order of the records and as late as it likes or never, and that ends its output only after the
-- end of its input. A pipeline is the state between the steps of its goroutines, up to the first error.
pub mod Flow
pub mod Ending
mod Examples
use cloudquery_fork4devin.Base.{◌≡◌, Bool, true, false, String, List, [], ◌∷◌, ◌++◌, map}

-- A transformer, by what it answers to a record after others.
abbrev pub Client : Type 0
Client = List String → String → List String

-- A `clientWrapper` with its client: the records that the client has answered, those that it was sent
-- and has not answered, its answers that were not received from it, whether `CloseSend` was called on
-- it, and whether `startBlocking` goes on.
pub data Stage : Type 0 where
  stage :
      (client : Client) (answered inbox outbox : List String) (send_closed running : Bool) → Stage

-- The steps of the clients and of `startBlocking`, with what `OnOutput`'s function is given. `closed` is
-- `isClosed` of the first wrapper of the list; that of the others is never set.
pub data Move : (closed : Bool) → List Stage → List Stage → List String → Type 0 where
  -- the client answers a record
  works :
      {b : Bool} (f : Client) (h : List String) (x : String) (xs os : List String) (c r : Bool)
      (ss : List Stage)
      → Move b (stage f h (x ∷ xs) os c r ∷ ss) (stage f (h ++ x ∷ []) xs (os ++ f h x) c r ∷ ss) []
  -- a record, to the output or to the next client, once `Send` takes it
  receives :
      {b : Bool} (f : Client) (h xs : List String) (o : String) (os : List String) (c : Bool)
      → Move b (stage f h xs (o ∷ os) c true ∷ []) (stage f h xs os c true ∷ []) (o ∷ [])
  passes :
      {b : Bool} (f : Client) (h xs : List String) (o : String) (os : List String) (c : Bool)
      (g : Client) (k ys ps : List String) (d r : Bool) (ss : List Stage)
      → Move b
          (stage f h xs (o ∷ os) c true ∷ stage g k ys ps d r ∷ ss)
          (stage f h xs os c true ∷ stage g k (ys ++ o ∷ []) ps d r ∷ ss)
          []
  -- `io.EOF`, once all records are answered and all answers received
  last_ends :
      {b : Bool} (f : Client) (h : List String)
      → Move b (stage f h [] [] true true ∷ []) (stage f h [] [] true false ∷ []) []
  ends :
      {b : Bool} (f : Client) (h : List String) (g : Client) (k ys ps : List String) (d r : Bool)
      (ss : List Stage)
      → Move b
          (stage f h [] [] true true ∷ stage g k ys ps d r ∷ ss)
          (stage f h [] [] true false ∷ stage g k ys ps true r ∷ ss)
          []
  -- a second without a record, of a wrapper that is not closed
  waits :
      (f : Client) (h xs os : List String) (c : Bool) (ss : List Stage)
      → Move false (stage f h xs os c true ∷ ss) (stage f h xs os c true ∷ ss) []
  -- and of one that is
  last_closes :
      (f : Client) (h xs os : List String) (c : Bool)
      → Move true (stage f h xs os c true ∷ []) (stage f h xs os c false ∷ []) []
  closes :
      (f : Client) (h xs os : List String) (c : Bool) (g : Client) (k ys ps : List String)
      (d r : Bool) (ss : List Stage)
      → Move true
          (stage f h xs os c true ∷ stage g k ys ps d r ∷ ss)
          (stage f h xs os c false ∷ stage g k ys ps true r ∷ ss)
          []
  later :
      {b : Bool} {ss ss' : List Stage} {out : List String} (s : Stage)
      → Move false ss ss' out
      → Move b (s ∷ ss) (s ∷ ss') out

pub record TransformerPipeline : Type 0 where
  pub stages : List Stage
  pub is_closed : Bool
  -- the records of the calls of `Send` that the first client has not taken
  pub sending : List String
  -- what the first client took, and what `OnOutput`'s function was given
  pub sent : List String
  pub output : List String

abbrev pub new_stages : List Client → List Stage
new_stages [] = []
new_stages (f ∷ fs) = stage f [] [] [] false true ∷ new_stages fs

-- `identityTransformer`
abbrev pub identity : Client
identity h x = x ∷ []

abbrev pub or_identity : List Client → List Client
or_identity [] = identity ∷ []
or_identity (f ∷ fs) = f ∷ fs

-- `New`
unfoldable pub new : List Client → TransformerPipeline
new clients = record {
  stages = new_stages (or_identity clients);
  is_closed = false;
  sending = [];
  sent = [];
  output = [];
}

abbrev pub push : String → List Stage → List Stage
push x [] = []
push x (stage f h xs os c r ∷ ss) = stage f h (xs ++ x ∷ []) os c r ∷ ss

pub data Step : TransformerPipeline → TransformerPipeline → Type 0 where
  -- `Send` is called, which is refused once the pipeline is closed
  calls :
      (x : String) (ss : List Stage) (sending sent output : List String)
      → Step
          (record {
            stages = ss;
            is_closed = false;
            sending = sending;
            sent = sent;
            output = output;
          })
          (record {
            stages = ss;
            is_closed = false;
            sending = x ∷ sending;
            sent = sent;
            output = output;
          })
  -- the first client takes the record of a call, which may have been given up since `Close`
  takes :
      (x : String) (ss : List Stage) (b : Bool) (before behind sent output : List String)
      → Step
          (record {
            stages = ss;
            is_closed = b;
            sending = before ++ x ∷ behind;
            sent = sent;
            output = output;
          })
          (record {
            stages = push x ss;
            is_closed = b;
            sending = before ++ behind;
            sent = sent ++ x ∷ [];
            output = output;
          })
  -- `Close`
  close :
      (ss : List Stage) (b : Bool) (sending sent output : List String)
      → Step
          (record { stages = ss; is_closed = b; sending = sending; sent = sent; output = output })
          (record {
            stages = ss;
            is_closed = true;
            sending = sending;
            sent = sent;
            output = output;
          })
  moves :
      {b : Bool} {ss ss' : List Stage} {out : List String} (sending sent output : List String)
      → Move b ss ss' out
      → Step
          (record { stages = ss; is_closed = b; sending = sending; sent = sent; output = output })
          (record {
            stages = ss';
            is_closed = b;
            sending = sending;
            sent = sent;
            output = output ++ out;
          })

pub data Reach (clients : List Client) : TransformerPipeline → Type 0 where
  start : Reach clients (new clients)
  step : {p q : TransformerPipeline} → Reach clients p → Step p q → Reach clients q
