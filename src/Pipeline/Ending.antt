-- ===== src/Pipeline/Ending.antt =====
-- How a pipeline ends.
use cloudquery_fork4devin.Base.{
  ◌≡◌, refl, ap, sym, ◌∙◌, Bool, true, false, ◌||◌, String, List, [], ◌∷◌, ◌++◌, ++_nil,
}
use cloudquery_fork4devin.Pipeline.{
  Client, Stage, stage, Move, works, receives, passes, last_ends, ends, waits, last_closes, closes,
  later, TransformerPipeline, new_stages, new, push, Step, calls, takes, close, moves, Reach, start,
  step,
}
use cloudquery_fork4devin.Pipeline.Flow.{
  answers, through, coming, flow, first_client, other_clients, Ordered, ordered, Reach-Ordered,
}

-- A wrapper after one that goes on (or not): its input is closed once that one has ended, and then it
-- ends with nothing left.
pub data Fits : Bool → List String → List String → Bool → Bool → Type 0 where
  flowing : {xs os : List String} → Fits true xs os false true
  draining : {xs os : List String} → Fits false xs os true true
  drained : Fits false [] [] true false

pub data Tidy : Bool → List Stage → Type 0 where
  none_left : {r : Bool} → Tidy r []
  next :
      {previous : Bool} {f : Client} {h xs os : List String} {c r : Bool} {ss : List Stage}
      → Fits previous xs os c r
      → Tidy r ss
      → Tidy previous (stage f h xs os c r ∷ ss)

-- `CloseSend` is never called on the first client.
pub data Ready : List Stage → Type 0 where
  first :
      {f : Client} {h xs os : List String} {r : Bool} {ss : List Stage}
      → Tidy r ss
      → Ready (stage f h xs os false r ∷ ss)

Tidy-Move :
    {r : Bool} {ss ss' : List Stage} {out : List String}
    → Tidy r ss
    → Move false ss ss' out
    → Tidy r ss'
Tidy-Move none_left m = elim m [ ]
Tidy-Move (next flowing t) (works f h x xs os c r ss) = next flowing t
Tidy-Move (next draining t) (works f h x xs os c r ss) = next draining t
Tidy-Move (next flowing t) (receives f h xs o os c) = next flowing t
Tidy-Move (next draining t) (receives f h xs o os c) = next draining t
Tidy-Move (next flowing (next flowing t)) (passes f h xs o os c g k ys ps d r ss) =
    next flowing (next flowing t)
Tidy-Move (next draining (next flowing t)) (passes f h xs o os c g k ys ps d r ss) =
    next draining (next flowing t)
Tidy-Move (next draining t) (last_ends f h) = next drained none_left
Tidy-Move (next draining (next flowing t)) (ends f h g k ys ps d r ss) =
    next drained (next draining t)
Tidy-Move (next fits t) (waits f h xs os c ss) = next fits t
Tidy-Move (next fits t) (later s m) = next fits (Tidy-Move t m)

Ready-Move :
    {b : Bool} {ss ss' : List Stage} {out : List String} → Ready ss → Move b ss ss' out → Ready ss'
Ready-Move (first t) (works f h x xs os c r ss) = first t
Ready-Move (first t) (receives f h xs o os c) = first t
Ready-Move (first (next flowing t)) (passes f h xs o os c g k ys ps d r ss) = first (next flowing t)
Ready-Move (first t) (waits f h xs os c ss) = first t
Ready-Move (first t) (last_closes f h xs os c) = first none_left
Ready-Move (first (next flowing t)) (closes f h xs os c g k ys ps d r ss) = first (next draining t)
Ready-Move (first t) (later s m) = first (Tidy-Move t m)

Tidy-new_stages : (fs : List Client) → Tidy true (new_stages fs)
Tidy-new_stages [] = none_left
Tidy-new_stages (f ∷ fs) = next flowing (Tidy-new_stages fs)

Ready-new : (clients : List Client) → Ready (new clients).stages
unfolding new
Ready-new [] = first none_left
Ready-new (f ∷ fs) = first (Tidy-new_stages fs)

Ready-push : (x : String) {ss : List Stage} → Ready ss → Ready (push x ss)
Ready-push x (first t) = first t

Ready-Step : {p q : TransformerPipeline} → Ready p.stages → Step p q → Ready q.stages
Ready-Step o (calls x ss sending sent output) = o
Ready-Step o (takes x ss b before behind sent output) = Ready-push x o
Ready-Step o (close ss b sending sent output) = o
Ready-Step o (moves sending sent output m) = Ready-Move o m

Reach-Ready : (clients : List Client) {p : TransformerPipeline} → Reach clients p → Ready p.stages
Reach-Ready clients start = Ready-new clients
Reach-Ready clients (step r s) = Ready-Step (Reach-Ready clients r) s

abbrev pub any_running : List Stage → Bool
any_running [] = false
any_running (stage f h xs os c r ∷ ss) = r || any_running ss

-- What is still to be received from the first client.
abbrev pub first_coming : List Stage → List String
first_coming [] = []
first_coming (s ∷ ss) = coming s []

flow-Tidy : {ss : List Stage} → Tidy false ss → any_running ss ≡ false → flow ss [] ≡ []
flow-Tidy none_left h = refl
flow-Tidy (next draining t) h = cc
flow-Tidy (next drained t) h = flow-Tidy t h

-- Of the answers of the first client to the records that it took, some were received and the others are
-- to come of what it still holds; the output is what the other transformers make of those received.
pub record LosesFirst (clients : List Client) (p : TransformerPipeline) : Type 0 where
  pub received : List String
  pub first_answers : received ++ first_coming p.stages ≡ answers (first_client clients) [] p.sent
  pub all_out : p.output ≡ through (other_clients clients) received

Ordered-LosesFirst :
    (clients : List Client) (p : TransformerPipeline) {ss : List Stage}
    → ss ≡ p.stages
    → Ready ss
    → any_running ss ≡ false
    → Ordered (first_client clients) (other_clients clients) p.sent p.output ss
    → LosesFirst clients p
Ordered-LosesFirst clients p e (first {r = true} t) h o = cc
Ordered-LosesFirst clients p e (first {r = false} t) h (ordered received one rest) = record {
  received = received;
  first_answers =
      ap (λ ss. received ++ first_coming ss) (sym e)
      ∙ (one [] ∙ ap (answers (first_client clients) []) (++_nil p.sent));
  all_out =
      sym (++_nil p.output)
      ∙ (ap (λ l. p.output ++ l) (sym (flow-Tidy t h))
          ∙ (rest [] ∙ ap (through (other_clients clients)) (++_nil received)));
}

-- Once all wrappers have ended without an error, where the answer of a transformer to a record is any
-- number of records and depends on that record and on the records before: the output is what the other
-- transformers make, in full, of the answers that were received from the first one, and the rest of its
-- answers to the records that it took are those to come of what it still holds. So `Close` loses only
-- what the first client holds.
pub output-stopped :
    (clients : List Client) {p : TransformerPipeline}
    → Reach clients p
    → any_running p.stages ≡ false
    → LosesFirst clients p
output-stopped clients {p} r h =
    Ordered-LosesFirst clients p refl (Reach-Ready clients r) h (Reach-Ordered clients r)
