-- ===== src/Pipeline/Flow.antt =====
-- What a pipeline of transformers does to the records.
use cloudquery_fork4devin.Base.{
  ◌≡◌, refl, ap, sym, ◌∙◌, subst, Bool, String, List, [], ◌∷◌, ◌++◌, ++_nil, ++_assoc,
}
use cloudquery_fork4devin.Pipeline.{
  Client, Stage, stage, Move, works, receives, passes, last_ends, ends, waits, last_closes, closes,
  later, TransformerPipeline, new_stages, identity, or_identity, new, push, Step, calls, takes,
  close, moves, Reach, start, step,
}

-- The answers of a client to records, after others.
abbrev pub answers : Client → List String → List String → List String
answers f h [] = []
answers f h (x ∷ xs) = f h x ++ answers f (h ++ x ∷ []) xs

-- What transformers make of records, one transformer after the other.
abbrev pub through : List Client → List String → List String
through [] xs = xs
through (f ∷ fs) xs = through fs (answers f [] xs)

-- What is still to be received from a client, if it is sent further records.
abbrev pub coming : Stage → List String → List String
coming (stage f h ys os c r) xs = os ++ answers f h (ys ++ xs)

-- What is still to come out of the clients, if the first of them is sent further records.
abbrev pub flow : List Stage → List String → List String
flow [] xs = xs
flow (s ∷ ss) xs = flow ss (coming s xs)

pub Move-flow :
    {b : Bool} {ss ss' : List Stage} {out : List String}
    → Move b ss ss' out
    → (xs : List String) → flow ss xs ≡ out ++ flow ss' xs
Move-flow (works f h x ys os c r ss) xs =
    ap (flow ss) (sym (++_assoc os (f h x) (answers f (h ++ x ∷ []) (ys ++ xs))))
Move-flow (receives f h ys o os c) xs = refl
Move-flow (passes f h zs o os c g k ys ps d r ss) xs =
    ap (λ l. flow ss (ps ++ answers g k l))
      (sym (++_assoc ys (o ∷ []) (os ++ answers f h (zs ++ xs))))
Move-flow (last_ends f h) xs = refl
Move-flow (ends f h g k ys ps d r ss) xs = refl
Move-flow (waits f h ys os c ss) xs = refl
Move-flow (last_closes f h ys os c) xs = refl
Move-flow (closes f h zs os c g k ys ps d r ss) xs = refl
Move-flow (later s m) xs = Move-flow m (coming s xs)

-- What was received from the first client and what is still to come from it are its answers; what came
-- out and what is still to come out of the other clients is what they make of what was received.
pub data Ordered (f : Client) (fs : List Client) (sent output : List String)
    : List Stage → Type 0 where
  ordered :
      {s : Stage} {ss : List Stage} (received : List String)
      → ((xs : List String) → received ++ coming s xs ≡ answers f [] (sent ++ xs))
      → ((xs : List String) → output ++ flow ss xs ≡ through fs (received ++ xs))
      → Ordered f fs sent output (s ∷ ss)

without :
    (output xs : List String) {ys : List String} → output ++ xs ≡ ys → (output ++ []) ++ xs ≡ ys
without output xs e = ap (λ l. l ++ xs) (++_nil output) ∙ e

Ordered-Move :
    (f : Client) (fs : List Client) (sent output : List String) {b : Bool} {ss ss' : List Stage}
    {out : List String}
    → Ordered f fs sent output ss
    → Move b ss ss' out
    → Ordered f fs sent (output ++ out) ss'
Ordered-Move f fs sent output (ordered received first rest) (works g h x ys os c r ss) =
    ordered received
      (λ xs.
        ap (λ l. received ++ l) (++_assoc os (g h x) (answers g (h ++ x ∷ []) (ys ++ xs)))
        ∙ first xs)
      (λ xs. without output (flow ss xs) (rest xs))
Ordered-Move f fs sent output (ordered received first rest) (receives g h ys o os c) =
    ordered (received ++ o ∷ [])
      (λ xs. ++_assoc received (o ∷ []) (os ++ answers g h (ys ++ xs)) ∙ first xs)
      (λ xs.
        ++_assoc output (o ∷ []) xs
        ∙ (rest (o ∷ xs) ∙ ap (through fs) (sym (++_assoc received (o ∷ []) xs))))
Ordered-Move f fs sent output (ordered received first rest)
      (passes e h zs o os c g k ys ps d r ss) =
    ordered (received ++ o ∷ [])
      (λ xs. ++_assoc received (o ∷ []) (os ++ answers e h (zs ++ xs)) ∙ first xs)
      (λ xs. without output (flow ss (ps ++ answers g k ((ys ++ o ∷ []) ++ xs))) (
        ap (λ l. output ++ flow ss (ps ++ answers g k l)) (++_assoc ys (o ∷ []) xs)
        ∙ (rest (o ∷ xs) ∙ ap (through fs) (sym (++_assoc received (o ∷ []) xs)))))
Ordered-Move f fs sent output (ordered received first rest) (last_ends g h) =
    ordered received first (λ xs. without output xs (rest xs))
Ordered-Move f fs sent output (ordered received first rest) (ends e h g k ys ps d r ss) =
    ordered received first (λ xs. without output (flow ss (ps ++ answers g k (ys ++ xs))) (rest xs))
Ordered-Move f fs sent output (ordered received first rest) (waits g h ys os c ss) =
    ordered received first (λ xs. without output (flow ss xs) (rest xs))
Ordered-Move f fs sent output (ordered received first rest) (last_closes g h ys os c) =
    ordered received first (λ xs. without output xs (rest xs))
Ordered-Move f fs sent output (ordered received first rest) (closes e h zs os c g k ys ps d r ss) =
    ordered received first (λ xs. without output (flow ss (ps ++ answers g k (ys ++ xs))) (rest xs))
Ordered-Move f fs sent output (ordered received first rest) (later {ss} {ss'} {out} s m) =
    ordered received first λ xs.
      ++_assoc output out (flow ss' xs) ∙ (ap (λ l. output ++ l) (sym (Move-flow m xs)) ∙ rest xs)

Ordered-push :
    (f : Client) (fs : List Client) (x : String) (sent output : List String) {ss : List Stage}
    → Ordered f fs sent output ss
    → Ordered f fs (sent ++ x ∷ []) output (push x ss)
Ordered-push f fs x sent output (ordered {s = stage g h ys os c r} received first rest) =
    ordered received
      (λ xs.
        ap (λ l. received ++ (os ++ answers g h l)) (++_assoc ys (x ∷ []) xs)
        ∙ (first (x ∷ xs) ∙ ap (answers f []) (sym (++_assoc sent (x ∷ []) xs))))
      rest

Ordered-Step :
    (f : Client) (fs : List Client) {p q : TransformerPipeline}
    → Ordered f fs p.sent p.output p.stages
    → Step p q
    → Ordered f fs q.sent q.output q.stages
Ordered-Step f fs o (calls x ss sending sent output) = o
Ordered-Step f fs o (takes x ss b before behind sent output) = Ordered-push f fs x sent output o
Ordered-Step f fs o (close ss b sending sent output) = o
Ordered-Step f fs o (moves sending sent output m) = Ordered-Move f fs sent output o m

flow-new_stages : (fs : List Client) (xs : List String) → flow (new_stages fs) xs ≡ through fs xs
flow-new_stages [] xs = refl
flow-new_stages (f ∷ fs) xs = flow-new_stages fs (answers f [] xs)

Ordered-Reach :
    (f : Client) (fs clients : List Client)
    → or_identity clients ≡ f ∷ fs
    → {p : TransformerPipeline} → Reach clients p
    → Ordered f fs p.sent p.output p.stages
unfolding new
Ordered-Reach f fs clients e start =
    subst (λ gs. Ordered f fs [] [] (new_stages gs)) (sym e)
      (ordered [] (λ xs. refl) (flow-new_stages fs))
Ordered-Reach f fs clients e (step r s) = Ordered-Step f fs (Ordered-Reach f fs clients e r) s

abbrev pub first_client : List Client → Client
first_client [] = identity
first_client (f ∷ fs) = f

abbrev pub other_clients : List Client → List Client
other_clients [] = []
other_clients (f ∷ fs) = fs

pub Reach-Ordered :
    (clients : List Client) {p : TransformerPipeline}
    → Reach clients p
    → Ordered (first_client clients) (other_clients clients) p.sent p.output p.stages
Reach-Ordered [] r = Ordered-Reach identity [] [] refl r
Reach-Ordered (f ∷ fs) r = Ordered-Reach f fs (f ∷ fs) refl r

Ordered-flow :
    (f : Client) (fs : List Client) (sent output : List String) {ss : List Stage}
    → Ordered f fs sent output ss
    → output ++ flow ss [] ≡ through (f ∷ fs) sent
Ordered-flow f fs sent output (ordered {s} received first rest) =
    rest (coming s []) ∙ ap (through fs) (first [] ∙ ap (answers f []) (++_nil sent))

-- In every state that is reached without an error, where the answer of a transformer to a record is any
-- number of records and depends on that record and on the records before: what came out, followed by
-- what comes of all that the clients still hold, is what the transformers make of the records that the
-- first client took, one transformer after the other. So beside what a transformer itself leaves out or
-- adds, nothing is lost, repeated or out of order on the way.
pub output-flow :
    (clients : List Client) {p : TransformerPipeline}
    → Reach clients p
    → p.output ++ flow p.stages [] ≡ through (or_identity clients) p.sent
output-flow [] {p} r = Ordered-flow identity [] p.sent p.output (Reach-Ordered [] r)
output-flow (f ∷ fs) {p} r = Ordered-flow f fs p.sent p.output (Reach-Ordered (f ∷ fs) r)
