-- ===== src/Pipeline/Examples.antt =====
-- Tests of the transformer pipeline, and its theorems at concrete inputs.
use cloudquery_fork4devin.Base.{
  is_empty, ◌≡◌, refl, true, false, String, List, [], ◌∷◌, ◌++◌, append, ◌==◌, if◌then◌else◌,
}
use cloudquery_fork4devin.Pipeline.{
  Client, stage, works, receives, passes, last_ends, waits, closes, later, TransformerPipeline, new,
  calls, takes, close, moves, Reach, start, step,
}
use cloudquery_fork4devin.Pipeline.Flow.{flow, output-flow}
use cloudquery_fork4devin.Pipeline.Ending.{LosesFirst, output-stopped}

-- No answer to an empty record, and two answers to each other one; one question mark for the first
-- record and two for the others.
abbrev double : Client
double h s = if s == "" then [] else s ∷ append s "!" ∷ []

abbrev ask : Client
ask h s = append s (if is_empty h then "?" else "??") ∷ []

abbrev clients : List Client
clients = double ∷ ask ∷ []

-- An empty record and two others are sent; the first client answers the first two of them, and the first
-- answer comes out.
abbrev records : List String
records = "" ∷ "a" ∷ "b" ∷ []

abbrev three_sent : TransformerPipeline
three_sent = record {
  stages = stage double [] records [] false true ∷ stage ask [] [] [] false true ∷ [];
  is_closed = false;
  sending = [];
  sent = records;
  output = [];
}

three_sent-Reach : Reach clients three_sent
unfolding new
three_sent-Reach =
    step
      (step
        (step
          (step (step (step start (calls "" _ [] [] [])) (takes "" _ false [] [] [] []))
            (calls "a" _ [] ("" ∷ []) []))
          (takes "a" _ false [] [] ("" ∷ []) []))
        (calls "b" _ [] ("" ∷ "a" ∷ []) []))
      (takes "b" _ false [] [] ("" ∷ "a" ∷ []) [])

abbrev two : List String
two = "" ∷ "a" ∷ []

abbrev one_out : TransformerPipeline
one_out = record three_sent {
  stages =
      stage double two ("b" ∷ []) ("a!" ∷ []) false true
      ∷ stage ask ("a" ∷ []) [] [] false true
      ∷ [];
  output = "a?" ∷ [];
}

one_out-Reach : Reach clients one_out
one_out-Reach =
    step
      (step
        (step
          (step
            (step
              (step three_sent-Reach (moves [] records [] (works double [] "" _ [] false true _)))
              (moves [] records [] (works double ("" ∷ []) "a" _ [] false true _)))
            (moves [] records [] (passes double two _ "a" _ false ask [] [] [] false true [])))
          (moves [] records [] (later _ (works ask [] "a" [] [] false true []))))
        (moves [] records [] (later _ (waits ask ("a" ∷ []) [] ("a?" ∷ []) false []))))
      (moves [] records [] (later _ (receives ask ("a" ∷ []) [] "a?" [] false)))

output-flow_example : ("a?" ∷ []) ++ flow one_out.stages [] ≡ "a?" ∷ "a!??" ∷ "b??" ∷ "b!??" ∷ []
output-flow_example = output-flow clients one_out-Reach

-- A second after `Close` the first wrapper ends, although its client has not answered the last record.
abbrev ended : TransformerPipeline
ended = record one_out {
  stages =
      stage double two ("b" ∷ []) ("a!" ∷ []) false false
      ∷ stage ask ("a" ∷ []) [] [] true false
      ∷ [];
  is_closed = true;
}

ended-Reach : Reach clients ended
ended-Reach =
    step
      (step (step one_out-Reach (close _ false [] records ("a?" ∷ []))) (
        moves [] records ("a?" ∷ [])
          (closes double two ("b" ∷ []) ("a!" ∷ []) false ask ("a" ∷ []) [] [] false true [])))
      (moves [] records ("a?" ∷ []) (later _ (last_ends ask ("a" ∷ []))))

output-stopped_example : LosesFirst clients ended
output-stopped_example = output-stopped clients ended-Reach refl
